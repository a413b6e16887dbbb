-- ===== src/Fetcher/Amazon.antt =====
-- fetcher/amazon/amazon.go: the update lists of Amazon Linux. What decodes XML and JSON, the gzip
-- reader, bufio.Scanner, and the URLs and paths of the Go library are parameters.
use goval_dictionary_v.Prelude.{
  true, false, Option, none, some, List, [], ◌∷◌, ◌++◌, map, if◌then◌else◌,
}
use goval_dictionary_v.Outcome.{
  Error, Outcome, ok, err, panic, ◌>>=◌, failed_fetch, failed_decode, no_update_info,
}
use goval_dictionary_v.Text.{Text, codes, text_eq}
use goval_dictionary_v.GoMap.{Map, insert}
use goval_dictionary_v.Converters.Updates.{UpdateReference, AmazonUpdate}
use goval_dictionary_v.Fetcher.Util.{Fetch, FetchRequest, FetchResult, xml, json}

-- repo, with the href of its location
pub record AmazonRepo : Type 0 where
  pub kind : Text
  pub href : Text

pub record AmazonFormats : Type 1 where
  pub repo_md : Text → Option (List AmazonRepo)
  pub gunzip : Text → Option Text
  pub updates : Text → Option (List AmazonUpdate)
  -- the names of the topics of extras-catalog.json
  pub topics : Text → Option (List Text)
  pub lines : Text → List Text
  -- url.Parse, path.Join of the path with a text, and String
  pub Url : Type 0
  pub parse_url : Text → Option Url
  pub join_path : Url → Text → Url
  pub show_url : Url → Text

abbrev pub xml_request : Text → FetchRequest
xml_request url = record {
  target = [];
  url = url;
  mime_type = xml;
  concurrently = false;
  log_suppressed = false;
}

-- `if err != nil || len(results) != 1`
unfoldable pub the_one : List FetchResult × Option Error → Outcome Text
the_one ((r ∷ []), none) = ok r.body
the_one ([], none) = err failed_fetch
the_one ((r ∷ q ∷ rs), none) = err failed_fetch
the_one (rs, some e) = err failed_fetch

-- the ids of the references to CVEs
unfoldable pub alas_cve_ids : List UpdateReference → List Text
alas_cve_ids [] = []
alas_cve_ids (ref ∷ refs) =
    let rest = alas_cve_ids refs in if text_eq ref.kind (codes "cve") then ref.id ∷ rest else rest

abbrev pub with_cve_ids : AmazonUpdate → AmazonUpdate
with_cve_ids alas = record alas { cve_ids = alas_cve_ids alas.references }

module _ (formats : AmazonFormats) where
  unfoldable pub repomd_requests : List Text → Outcome (List FetchRequest)
  repomd_requests [] = ok []
  repomd_requests (mirror ∷ mirrors) =
      let rest = repomd_requests mirrors in
      elim (formats.parse_url mirror) [
        | none ↦ err failed_decode
        | some u ↦ (do
          reqs ← rest
          ok (
              record {
                target = mirror;
                url = formats.show_url (formats.join_path u (codes "/repodata/repomd.xml"));
                mime_type = xml;
                concurrently = true;
                log_suppressed = false;
              }
              ∷ reqs))
      ]

  -- the first repository of the type "updateinfo"
  unfoldable pub update_info_url : FetchResult → List AmazonRepo → Outcome (List Text)
  update_info_url r [] = ok []
  update_info_url r (repo ∷ repos) =
      if text_eq repo.kind (codes "updateinfo")
      then elim (formats.parse_url r.target) [
        | none ↦ err failed_decode
        | some u ↦ ok (formats.show_url (formats.join_path u repo.href) ∷ [])
      ]
      else update_info_url r repos

  -- the loop over the mirrors that have answered; what cannot be decoded is passed over
  unfoldable pub update_info_urls : List FetchResult → Outcome (List Text)
  update_info_urls [] = ok []
  update_info_urls (r ∷ results) =
      let rest = update_info_urls results in
      elim (formats.repo_md r.body) [
        | none ↦ rest
        | some repos ↦ (do url ← update_info_url r repos; urls ← rest; ok (url ++ urls))
      ]

  unfoldable pub some_url : List Text → Outcome (List Text)
  some_url [] = err no_update_info
  some_url (url ∷ urls) = ok (url ∷ urls)

  -- `if len(results) == 0`, whatever the error is, and what follows
  unfoldable pub urls_of_results : List FetchResult → Outcome (List Text)
  urls_of_results [] = err failed_fetch
  urls_of_results (r ∷ results) = update_info_urls (r ∷ results) >>= some_url

  module _ (fetch : Fetch) where
    unfoldable pub fetch_update_info_url : List Text → Outcome (List Text)
    fetch_update_info_url mirrors = do
      reqs ← repomd_requests mirrors
      urls_of_results (fetch reqs).0

    unfoldable pub fetch_update_info : Text → Outcome (List AmazonUpdate)
    fetch_update_info url = do
      body ← the_one (fetch (xml_request url ∷ []))
      elim (formats.gunzip body) [
        | none ↦ err failed_decode
        | some r ↦ elim (formats.updates r) [
          | none ↦ err failed_decode
          | some us ↦ ok (map with_cve_ids us)
        ]
      ]

    -- the loop over the mirrors, up to the first that gives an update list
    unfoldable pub first_update_info : List Text → Outcome (List AmazonUpdate)
    first_update_info [] = err failed_fetch
    first_update_info (url ∷ urls) = elim (fetch_update_info url) [
      | ok us ↦ ok us
      | err e ↦ first_update_info urls
      | panic ↦ panic
    ]

    unfoldable pub fetch_update_info_amazon_linux : Text → Outcome (List AmazonUpdate)
    fetch_update_info_amazon_linux mirror_list_url = do
      body ← the_one (fetch (xml_request mirror_list_url ∷ []))
      urls ← fetch_update_info_url (formats.lines body)
      first_update_info urls

    -- the loop over the topics of the catalogue; one without an update list is passed over
    unfoldable pub add_topics : List Text → List AmazonUpdate → Outcome (List AmazonUpdate)
    add_topics [] updates = ok updates
    add_topics (n ∷ topics) updates =
        elim (fetch_update_info_amazon_linux (
          codes "https://cdn.amazonlinux.com/2/extras/"
          ++ (n ++ codes "/latest/x86_64/mirror.list"))) [
            | ok us ↦ add_topics topics (
                updates
                ++ map (λ (u : AmazonUpdate). record u { repository = codes "amzn2extra-" ++ n })
                    us)
            | err no_update_info ↦ add_topics topics updates
            | err e ↦ err e
            | panic ↦ panic
          ]

    unfoldable pub fetch_amazon_2 : Outcome (List AmazonUpdate)
    fetch_amazon_2 = do
      updates ←
          fetch_update_info_amazon_linux
            (codes "https://cdn.amazonlinux.com/2/core/latest/x86_64/mirror.list")
      body ← the_one (
          fetch (
            record (xml_request
              (codes "http://amazonlinux.default.amazonaws.com/2/extras-catalog.json")) {
                mime_type = json;
              }
            ∷ []))
      elim (formats.topics body) [
        | none ↦ err failed_decode
        | some topics ↦ add_topics topics updates
      ]

    -- The switch on the version, over the table of the mirrors.
    unfoldable pub fetch_version : Text → Option (Outcome (List AmazonUpdate))
    fetch_version v =
        if text_eq v (codes "1")
        then some (
            fetch_update_info_amazon_linux
              (codes "http://repo.us-west-2.amazonaws.com/2018.03/updates/x86_64/mirror.list"))
        else if text_eq v (codes "2022")
        then some (
            fetch_update_info_amazon_linux
              (codes "https://cdn.amazonlinux.com/al2022/core/mirrors/latest/x86_64/mirror.list"))
        else if text_eq v (codes "2023")
        then some (
            fetch_update_info_amazon_linux
              (codes "https://cdn.amazonlinux.com/al2023/core/mirrors/latest/x86_64/mirror.list"))
        else if text_eq v (codes "2")
        then some fetch_amazon_2
        else none

    unfoldable pub fetch_files_from :
        List Text → Map (List AmazonUpdate) → Outcome (Map (List AmazonUpdate))
    fetch_files_from [] m = ok m
    fetch_files_from (v ∷ versions) m = elim (fetch_version v) [
      | none ↦ fetch_files_from versions m
      | some fetched ↦ fetched >>= (λ us. fetch_files_from versions (insert v us m))
    ]

    unfoldable pub fetch_files : List Text → Outcome (Map (List AmazonUpdate))
    fetch_files versions = fetch_files_from versions []
