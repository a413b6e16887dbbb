-- ===== src/Fetcher/Fedora.antt =====
-- fetcher/fedora: the types that the fetcher decodes and the requests it makes first. What decodes
-- XML and YAML, the URLs of the Go library, its Scanner and the two patterns are parameters.
pub mod Rpm
pub mod Modules
pub mod Advisories
pub mod Updates
use goval_dictionary_v.Prelude.{
  ℕ, Bool, true, false, Option, none, some, List, [], ◌∷◌, ◌++◌, length, drop, ltb, if◌then◌else◌,
}
use goval_dictionary_v.Outcome.{
  Error, Outcome, ok, err, panic, ◌>>=◌, failed_fetch, failed_decode, no_update_info,
}
use goval_dictionary_v.Text.{Text, codes, text_eq, has_prefix}
use goval_dictionary_v.Text.Numbers.{ℤ, pos, negsuc, atoi}
use goval_dictionary_v.Converters.Updates.{FedoraUpdate}
use goval_dictionary_v.Fetcher.Util.{
  Fetch, fetched, fetch_requests, FetchRequest, FetchResult, MimeType, xml, xz,
}

-- repo, with the href of its location
pub record Repo : Type 0 where
  pub kind : Text
  pub href : Text

pub record BugzillaXml : Type 0 where
  pub blocked : List Text
  pub alias : Text

-- moduleInfo, with the fields of its data
pub record ModuleInfo : Type 0 where
  pub version : ℤ
  pub name : Text
  pub stream : Text
  pub data_version : ℤ
  pub context : Text
  pub arch : Text
  pub rpms : List Text

pub record Formats : Type 1 where
  pub repo_md : Text → Option (List Repo)
  pub updates : Text → Option (List FedoraUpdate)
  pub bugzilla : Text → Option BugzillaXml
  pub module_info : Text → Option ModuleInfo
  -- bufio.Scanner
  pub lines : Text → List Text
  -- FindAllString of CveIDPattern, and MatchString of variousFlawsPattern
  pub cve_ids : Text → List Text
  pub various_flaws : Text → Bool
  pub Url : Type 0
  pub parse_url : Text → Option Url
  pub path : Url → Text
  pub with_path : Text → Url → Url
  pub show_url : Url → Text

-- n < k
unfoldable pub int_ltb : ℤ → ℕ → Bool
int_ltb (pos n) k = ltb n k
int_ltb (negsuc n) k = true

-- The constants pubUpdateURL, pubModuleURL, archiveUpdateURL and archiveModuleURL, filled in.
abbrev pub pub_url : Text → Text → Text → Text
pub_url repository v arch =
    codes "https://dl.fedoraproject.org/pub/fedora/linux/updates/"
    ++ (v ++ (repository ++ (arch ++ codes "/repodata/repomd.xml")))

abbrev pub archive_url : Text → Text → Text → Text
archive_url repository v arch =
    codes "https://archives.fedoraproject.org/pub/archive/fedora/linux/updates/"
    ++ (v ++ (repository ++ (arch ++ codes "/repodata/repomd.xml")))

abbrev pub repomd_request : Text → Text → FetchRequest
repomd_request v url = record {
  target = v;
  url = url;
  mime_type = xml;
  concurrently = true;
  log_suppressed = false;
}

-- The switch on the version, with the requests of the two repositories.
unfoldable pub version_requests : Text → Text → Option (FetchRequest × FetchRequest)
version_requests v arch = elim (atoi v) [
  | none ↦ none
  | some n ↦
      if int_ltb n 32
      then none
      else if int_ltb n 36
      then some (
        repomd_request v (archive_url (codes "/Everything/") v arch),
        repomd_request v (archive_url (codes "/Modular/") v arch),
      )
      else some (
        repomd_request v (pub_url (codes "/Everything/") v arch),
        repomd_request v (pub_url (codes "/Modular/") v arch),
      )
]

unfoldable pub new_fedora_fetch_requests : List Text → Text → List FetchRequest × List FetchRequest
new_fedora_fetch_requests [] arch = ([], [])
new_fedora_fetch_requests (v ∷ target) arch =
    let rest = new_fedora_fetch_requests target arch in
    elim (version_requests v arch) [
      | none ↦ rest
      | some (req, module_req) ↦ (req ∷ rest.0, module_req ∷ rest.1)
    ]

-- strings.Replace(s, old, new, 1)
unfoldable pub replace_first : Text → Text → Text → Text
replace_first [] old new = if has_prefix [] old then new else []
replace_first (c ∷ s) old new = elim (has_prefix (c ∷ s) old) [
  | true ↦ new ++ drop (length old) (c ∷ s)
  | false ↦ c ∷ replace_first s old new
]

module _ (formats : Formats) where
  -- the loop over the repositories of one file, up to the first of the type
  unfoldable pub repo_request :
      FetchResult → Text → MimeType → List Repo → Outcome (List FetchRequest)
  repo_request r rt mt [] = ok []
  repo_request r rt mt (repo ∷ repos) =
      if text_eq repo.kind rt
      then elim (formats.parse_url r.url) [
        | none ↦ err failed_decode
        | some u ↦ ok (
            record {
              target = r.target;
              url = formats.show_url (
                  formats.with_path
                    (replace_first (formats.path u) (codes "repodata/repomd.xml") repo.href) u);
              mime_type = mt;
              concurrently = true;
              log_suppressed = false;
            }
            ∷ [])
      ]
      else repo_request r rt mt repos

  unfoldable pub extract_info_from_repo_md :
      List FetchResult → Text → MimeType → Outcome (List FetchRequest)
  extract_info_from_repo_md [] rt mt = ok []
  extract_info_from_repo_md (r ∷ results) rt mt =
      let rest = extract_info_from_repo_md results rt mt in
      elim (formats.repo_md r.body) [
        | none ↦ err failed_decode
        | some repos ↦ (do req ← repo_request r rt mt repos; reqs ← rest; ok (req ++ reqs))
      ]

  module _ (fetch : Fetch) where
    unfoldable pub fetch_found : List FetchRequest → Outcome (List FetchResult)
    fetch_found [] = err no_update_info
    fetch_found (req ∷ reqs) = fetched (fetch (req ∷ reqs))

    unfoldable pub fetch_update_infos_fedora : List FetchResult → Outcome (List FetchResult)
    fetch_update_infos_fedora results = do
      reqs ← extract_info_from_repo_md results (codes "updateinfo") xz
      fetch_found reqs
