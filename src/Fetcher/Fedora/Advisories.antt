-- ===== src/Fetcher/Fedora/Advisories.antt =====
-- fetcher/fedora/fedora.go: the security advisories with their CVE ids, and UniqueStrings of
-- fetcher/util/util.go, whose result comes in the order of a map.
use goval_dictionary_v.Prelude.{
  ℕ, zero, suc, Bool, true, false, not, none, some, List, [], ◌∷◌, ◌++◌, ◌==◌, ◌-◌, ◌+◌, length,
  map, if◌then◌else◌,
}
use goval_dictionary_v.Outcome.{Outcome, ok, err, ◌>>=◌, failed_decode}
use goval_dictionary_v.Text.{Text, codes, text_eq, has_prefix}
use goval_dictionary_v.GoMap.{Map, insert, keys}
use goval_dictionary_v.Converters.Updates.{UpdateReference, FedoraUpdate}
use goval_dictionary_v.Fetcher.Util.{Fetch, fetched, FetchRequest, FetchResult, xml}
use goval_dictionary_v.Fetcher.Fedora.{Formats}
use goval_dictionary_v.Fetcher.Fedora.Modules.{first_body}

unfoldable pub unique_from : List Text → Map {0} Unit → Map {0} Unit
unique_from [] m = m
unique_from (v ∷ s) m = unique_from s (insert v tt m)

unfoldable pub unique_strings : List Text → List Text
unique_strings s = keys (unique_from s [])

-- strings.Count, of occurrences that do not overlap; the first `skip` bytes are in one already
unfoldable pub count_of : Text → Text → ℕ → ℕ
count_of sub [] skip = 0
count_of sub (c ∷ s) (suc skip) = count_of sub s skip
count_of sub (c ∷ s) zero = elim (has_prefix (c ∷ s) sub) [
  | true ↦ 1 + count_of sub s (length sub - 1)
  | false ↦ count_of sub s zero
]

-- bugZillaURL, filled in
abbrev pub bugzilla_url : Text → Text
bugzilla_url id = codes "https://bugzilla.redhat.com/show_bug.cgi?ctype=xml&id=" ++ id

abbrev pub blocked_request : Text → FetchRequest
blocked_request id = record {
  target = [];
  url = bugzilla_url id;
  mime_type = xml;
  concurrently = true;
  log_suppressed = true;
}

module _ (formats : Formats) where
  unfoldable pub is_fedora_update_info_title_reliable : Text → Bool
  is_fedora_update_info_title_reliable title =
      if formats.various_flaws title
      then false
      else length (formats.cve_ids title) == count_of (codes "CVE-") title zero

  -- the loop over the bugs that a bug blocks, with their aliases
  unfoldable pub aliases_of : List FetchResult → Outcome (List Text)
  aliases_of [] = ok []
  aliases_of (r ∷ results) =
      let rest = aliases_of results in
      elim (formats.bugzilla r.body) [
        | none ↦ err failed_decode
        | some b ↦ (do ids ← rest; ok (if text_eq b.alias [] then ids else b.alias ∷ ids))
      ]

  module _ (fetch : Fetch) where
    unfoldable pub fetch_cve_ids_from_bugzilla : Text → Outcome (List Text)
    fetch_cve_ids_from_bugzilla id = do
      results ← fetched (fetch (record (blocked_request id) { concurrently = false } ∷ []))
      body ← first_body results
      elim (formats.bugzilla body) [
        | none ↦ err failed_decode
        | some b ↦ fetched (fetch (map blocked_request b.blocked)) >>= aliases_of
      ]

    -- the CVE ids of one reference
    unfoldable pub reference_cve_ids : FedoraUpdate → UpdateReference → Outcome (List Text)
    reference_cve_ids update ref =
        if is_fedora_update_info_title_reliable ref.title
        then ok (elim (formats.cve_ids ref.title) [
          | [] ↦ formats.cve_ids update.description
          | id ∷ ids ↦ id ∷ ids
        ])
        else fetch_cve_ids_from_bugzilla ref.id

    unfoldable pub references_cve_ids : FedoraUpdate → List UpdateReference → Outcome (List Text)
    references_cve_ids update [] = ok []
    references_cve_ids update (ref ∷ refs) =
        let rest = references_cve_ids update refs in
        do ids ← reference_cve_ids update ref; more ← rest; ok (ids ++ more)

    unfoldable pub security_updates : List FedoraUpdate → Outcome (List FedoraUpdate)
    security_updates [] = ok []
    security_updates (update ∷ updates) =
        let rest = security_updates updates in
        if not (text_eq update.kind (codes "security")) then rest else (do
          ids ← references_cve_ids update update.references
          more ← rest
          ok (record update { cve_ids = unique_strings ids } ∷ more))

    unfoldable pub parse_fetch_results_from :
        List FetchResult → Map (List FedoraUpdate) → Outcome (Map (List FedoraUpdate))
    parse_fetch_results_from [] infos = ok infos
    parse_fetch_results_from (r ∷ results) infos = elim (formats.updates r.body) [
      | none ↦ err failed_decode
      | some updates ↦
          security_updates updates
          >>= (λ us. parse_fetch_results_from results (insert r.target us infos))
    ]

    unfoldable pub parse_fetch_results_fedora : List FetchResult → Outcome (Map (List FedoraUpdate))
    parse_fetch_results_fedora results = parse_fetch_results_from results []
