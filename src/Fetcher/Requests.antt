-- ===== src/Fetcher/Requests.antt =====
-- The fetchers of Alpine, Debian, Oracle, SUSE and Ubuntu, each of which makes a list of requests
-- and downloads them.
use goval_dictionary_v.Prelude.{Bool, true, false, none, some, List, [], ◌∷◌, ◌++◌, if◌then◌else◌}
use goval_dictionary_v.Outcome.{Outcome}
use goval_dictionary_v.Text.{Text, codes, text_eq}
use goval_dictionary_v.Text.Cut.{cut_first}
use goval_dictionary_v.GoMap.{elem}
use goval_dictionary_v.Config
use goval_dictionary_v.Db.Version.{switch}
use goval_dictionary_v.Fetcher.Util.{
  Fetch, FetchRequest, FetchResult, MimeType, xml, yml, bzip2, fetch_requests,
}

abbrev pub feed_request : Text → Text → MimeType → Bool → FetchRequest
feed_request target url mime_type concurrently = record {
  target = target;
  url = url;
  mime_type = mime_type;
  concurrently = concurrently;
  log_suppressed = false;
}

-- fetcher/alpine
abbrev pub secdb_url : Text → Text → Text
secdb_url v file = codes "https://secdb.alpinelinux.org/v" ++ (v ++ file)

unfoldable pub alpine_requests : List Text → List FetchRequest
alpine_requests [] = []
alpine_requests (v ∷ target) =
    let rest = alpine_requests target in
    let community = feed_request v (secdb_url v (codes "/community.yaml")) yml false in
    feed_request v (secdb_url v (codes "/main.yaml")) yml false
    ∷ (if text_eq v (codes "3.2") then rest else community ∷ rest)

unfoldable pub fetch_alpine : Fetch → List Text → Outcome (List FetchResult)
fetch_alpine fetch versions = fetch_requests fetch (alpine_requests versions)

-- fetcher/debian
unfoldable pub debian_name : Text → Text
debian_name major =
    switch major
      ((codes "7", Config.debian7)
        ∷ (codes "8", Config.debian8)
        ∷ (codes "9", Config.debian9)
        ∷ (codes "10", Config.debian10)
        ∷ (codes "11", Config.debian11)
        ∷ (codes "12", Config.debian12)
        ∷ [])
      (codes "unknown")

unfoldable pub debian_requests : List Text → List FetchRequest
debian_requests [] = []
debian_requests (v ∷ target) =
    let rest = debian_requests target in
    let url =
      codes "https://www.debian.org/security/oval/oval-definitions-"
      ++ (debian_name v ++ codes ".xml.bz2") in
    if text_eq (debian_name v) (codes "unknown") then rest else feed_request v url bzip2 true ∷ rest

unfoldable pub fetch_debian : Fetch → List Text → Outcome (List FetchResult)
fetch_debian fetch versions = fetch_requests fetch (debian_requests versions)

-- fetcher/oracle
unfoldable pub oracle_requests : List FetchRequest
oracle_requests =
    feed_request [] (codes "https://linux.oracle.com/security/oval/com.oracle.elsa-all.xml.bz2")
      bzip2 false
    ∷ []

unfoldable pub fetch_oracle : Fetch → Outcome (List FetchResult)
fetch_oracle fetch = fetch_requests fetch oracle_requests

-- fetcher/suse
unfoldable pub suse_requests : Text → List Text → List FetchRequest
suse_requests suse_type [] = []
suse_requests suse_type (v ∷ target) =
    feed_request v
      (codes "https://ftp.suse.com/pub/projects/security/oval/"
        ++ (suse_type ++ (codes "." ++ (v ++ codes ".xml"))))
      xml true
    ∷ suse_requests suse_type target

unfoldable pub fetch_suse : Fetch → Text → List Text → Outcome (List FetchResult)
fetch_suse fetch suse_type versions = fetch_requests fetch (suse_requests suse_type versions)

-- fetcher/ubuntu
abbrev pub ubuntu_url : Text → Text
ubuntu_url name =
    codes "https://security-metadata.canonical.com/oval/oci.com.ubuntu."
    ++ (name ++ codes ".cve.oval.xml.bz2")

-- the inner switch on the minor number, with what it does for 04 and for 10
abbrev pub by_minor : Text → Text → Text → Text
by_minor minor url_04 url_10 =
    switch minor ((codes "04", url_04) ∷ (codes "10", url_10) ∷ []) (codes "unknown")

unfoldable pub oval_url : Text → Text → Text
oval_url major minor =
    let unsupported = codes "unsupported" in
    if elem major (
      codes "4"
      ∷ codes "5"
      ∷ codes "6"
      ∷ codes "7"
      ∷ codes "8"
      ∷ codes "9"
      ∷ codes "10"
      ∷ codes "11"
      ∷ codes "12"
      ∷ [])
    then unsupported
    else switch major
        ((codes "14", by_minor minor (ubuntu_url Config.ubuntu1404) unsupported)
          ∷ (codes "16", by_minor minor (ubuntu_url Config.ubuntu1604) unsupported)
          ∷ (codes "17", unsupported)
          ∷ (codes "18", by_minor minor (ubuntu_url Config.ubuntu1804) unsupported)
          ∷ (codes "19", unsupported)
          ∷ (codes "20", by_minor minor (ubuntu_url Config.ubuntu2004) unsupported)
          ∷ (
            codes "21",
            by_minor minor (ubuntu_url Config.ubuntu2104) (ubuntu_url Config.ubuntu2110),
          )
          ∷ (
            codes "22",
            by_minor minor (ubuntu_url Config.ubuntu2204) (ubuntu_url Config.ubuntu2210),
          )
          ∷ (codes "23", by_minor minor (ubuntu_url Config.ubuntu2304) unsupported)
          ∷ [])
        (codes "unknown")

unfoldable pub get_oval_url : Text → Text
get_oval_url version = elim (cut_first 46 version) [
  | none ↦ codes "unknown"
  | some p ↦ oval_url p.0 p.1
]

unfoldable pub ubuntu_requests : List Text → List FetchRequest
ubuntu_requests [] = []
ubuntu_requests (v ∷ target) =
    let rest = ubuntu_requests target in
    let url = get_oval_url v in
    if text_eq url (codes "unknown")
    then rest
    else if text_eq url (codes "unsupported")
    then rest
    else feed_request v url bzip2 true ∷ rest

unfoldable pub fetch_ubuntu : Fetch → List Text → Outcome (List FetchResult)
fetch_ubuntu fetch versions = fetch_requests fetch (ubuntu_requests versions)
