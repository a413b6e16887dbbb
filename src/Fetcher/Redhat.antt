-- ===== src/Fetcher/Redhat.antt =====
-- fetcher/redhat/redhat.go: the archive of the first version of the feed, and the files of the
-- second. The archive is a parameter: the entries that tar reads before its end or an error, each
-- with its content, which may be unreadable.
use goval_dictionary_v.Prelude.{
  ℕ, Bool, true, false, Option, none, some, List, [], ◌∷◌, ◌++◌, ◌==◌, if◌then◌else◌,
}
use goval_dictionary_v.Outcome.{Outcome, ok, err, ◌>>=◌, failed_fetch, failed_download}
use goval_dictionary_v.Text.{Text, codes, text_eq, trim_prefix, trim_suffix}
use goval_dictionary_v.Text.Numbers.{atoi}
use goval_dictionary_v.GoMap.{Map, values, insert, elem}
use goval_dictionary_v.Fetcher.Util.{Fetch, fetched, FetchRequest, FetchResult, bzip2}
use goval_dictionary_v.Fetcher.Fedora.{int_ltb}

pub record TarEntry : Type 0 where
  pub name : Text
  pub content : Option Text

-- http.Get, the status, gzip.NewReader, and the entries with whether tar ends without an error
pub record Archive : Type 0 where
  pub status_code : Option ℕ
  pub gzip_opens : Bool
  pub entries : List TarEntry
  pub ends : Bool

unfoldable pub known_versions : List Text → List Text
known_versions [] = []
known_versions (v ∷ versions) =
    let rest = known_versions versions in
    elim (atoi v) [ none ↦ rest | some n ↦ if int_ltb n 5 then rest else v ∷ rest ]

abbrev pub archive_name : Text
archive_name = codes "https://access.redhat.com/security/data/archive/oval_v1_20230706.tar.gz"

unfoldable pub add_archived : Text → Text → Map (List FetchResult) → Map (List FetchResult)
add_archived v body results =
    insert v
      (values v results
        ++ (record {
          target = v;
          url = archive_name ++ (codes "/com.redhat.rhsa-RHEL" ++ (v ++ codes ".xml"));
          body = body;
          log_suppressed = false;
        }
            ∷ []))
      results

abbrev pub release_of : Text → Text
release_of name = trim_suffix (trim_prefix name (codes "com.redhat.rhsa-RHEL")) (codes ".xml")

-- the loop over the entries, and whether it ends with one
unfoldable pub read_entries :
    List Text → List TarEntry → Bool → Map (List FetchResult) → Outcome (Map (List FetchResult))
read_entries vs [] ends results = if ends then ok results else err failed_download
read_entries vs (e ∷ entries) ends results = elim (elem (release_of e.name) vs) [
  | false ↦ read_entries vs entries ends results
  | true ↦ elim e.content [
    | none ↦ err failed_download
    | some bs ↦ read_entries vs entries ends (add_archived (release_of e.name) bs results)
  ]
]

unfoldable pub read_archive : List Text → Archive → Outcome (Map (List FetchResult))
read_archive vs a = elim a.status_code [
  | none ↦ err failed_download
  | some status ↦
      if status == 200
      then (if a.gzip_opens then read_entries vs a.entries a.ends [] else err failed_download)
      else err failed_download
]

unfoldable pub v2_requests : List Text → List FetchRequest
v2_requests [] = []
v2_requests (v ∷ vs) =
    let rest = v2_requests vs in
    if text_eq v (codes "5")
    then rest
    else record {
      target = v;
      url =
          codes "https://access.redhat.com/security/data/oval/v2/RHEL"
          ++ (v ++ (codes "/rhel-" ++ (v ++ codes ".oval.xml.bz2")));
      mime_type = bzip2;
      concurrently = false;
      log_suppressed = false;
    }
      ∷ rest

unfoldable pub add_results : List FetchResult → Map (List FetchResult) → Map (List FetchResult)
add_results [] results = results
add_results (r ∷ rs) results =
    add_results rs (insert r.target (values r.target results ++ (r ∷ [])) results)

unfoldable pub add_v2 :
    Fetch → List FetchRequest → Map (List FetchResult) → Outcome (Map (List FetchResult))
add_v2 fetch [] results = ok results
add_v2 fetch (req ∷ reqs) results = do
  rs ← fetched (fetch (req ∷ reqs))
  ok (add_results rs results)

unfoldable pub nonempty_map : Map (List FetchResult) → Outcome (Map (List FetchResult))
nonempty_map [] = err failed_fetch
nonempty_map (e ∷ m) = ok (e ∷ m)

unfoldable pub fetch_known : Fetch → Archive → List Text → Outcome (Map (List FetchResult))
fetch_known fetch a [] = err failed_fetch
fetch_known fetch a (v ∷ vs) = do
  first ← read_archive (v ∷ vs) a
  all ← add_v2 fetch (v2_requests (v ∷ vs)) first
  nonempty_map all

unfoldable pub fetch_redhat : Fetch → Archive → List Text → Outcome (Map (List FetchResult))
fetch_redhat fetch a versions = fetch_known fetch a (known_versions versions)
