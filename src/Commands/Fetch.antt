-- ===== src/Commands/Fetch.antt =====
-- What the commands fetch-*.go of commands/ share. What decodes a document gives the timestamp of its
-- generator, where it has one, and the document that the converter reads.
use goval_dictionary_v.Prelude.{ℕ, suc, Option, none, some, List, [], ◌∷◌, ◌++◌, if◌then◌else◌}
use goval_dictionary_v.Text.{Text, codes}
use goval_dictionary_v.Text.Cut.{cut_last}
use goval_dictionary_v.Outcome.{
  Outcome, ok, err, ◌>>=◌, outdated_schema, failed_unmarshal, bad_timestamp,
}
use goval_dictionary_v.GoMap.{Map, insert, values, keys, elem}
use goval_dictionary_v.Models.{Time, Definition, FetchMeta, outdated}
use goval_dictionary_v.Fetcher.Util.{FetchResult}
use goval_dictionary_v.Commands.{Database, after_call}

pub record OvalDocument (A : Type 0) : Type 0 where
  pub timestamp : Text
  pub document : A

-- util.Unique
abbrev set_of : List Text → Map (Unit {0}) → Map (Unit {0})
set_of [] m = m
set_of (v ∷ vs) m = set_of vs (insert v tt m)

unfoldable pub unique : List Text → List Text
unique vs = keys (set_of vs [])

-- r.URL[strings.LastIndex(r.URL, "/")+1:]
unfoldable pub file_name : Text → Text
file_name url = elim (cut_last 47 url) [ none ↦ url | some p ↦ p.1 ]

-- `osVerDefs[osVer] = append(osVerDefs[osVer], defs...)` for each entry of a map
unfoldable pub add_defs : Map (List Definition) → Map (List Definition) → Map (List Definition)
add_defs [] m = m
add_defs ((os_ver, defs) ∷ ps) m = add_defs ps (insert os_ver (values os_ver m ++ defs) m)

-- the entries whose key is among the arguments
unfoldable pub wanted : List Text → Map (List Definition) → Map (List Definition)
wanted args [] = []
wanted args ((os_ver, defs) ∷ ps) =
    let rest = wanted args ps in if elem os_ver args then (os_ver, defs) ∷ rest else rest

-- the loop over the results that gathers the definitions of all of them
unfoldable pub gather :
    (FetchResult → Outcome (Map (List Definition)))
    → List FetchResult
    → Map (List Definition)
    → Outcome (Map (List Definition))
gather convert [] m = ok m
gather convert (r ∷ rs) m = convert r >>= (λ ps. gather convert rs (add_defs ps m))

unfoldable pub unmarshal_body : {A : Type 0} → (Text → Option A) → FetchResult → Outcome A
unmarshal_body decode r = elim (decode r.body) [ none ↦ err failed_unmarshal | some a ↦ ok a ]

-- the document, whose generator has a timestamp that can be read
unfoldable pub read_oval :
    {A : Type 0}
    → (Text → Text → Option Time)
    → (Text → Option (OvalDocument A))
    → Text
    → FetchResult
    → Outcome A
read_oval parse decode layout r =
    unmarshal_body decode r
    >>= (λ d. elim (parse layout d.timestamp) [ none ↦ err bad_timestamp | some t ↦ ok d.document ])

abbrev pub seconds : Text
seconds = codes "2006-01-02T15:04:05"

module _ (database : Database) (now : ℕ → Time) where
  -- GetFetchMeta, the test of the schema and the first UpsertFetchMeta
  unfoldable pub prepare : database.State → database.State × Outcome FetchMeta
  prepare s =
      after_call (s, database.load_fetch_meta s)
        (λ meta s.
          if outdated meta
          then (s, err outdated_schema)
          else after_call (database.store_fetch_meta meta s) (λ done s. (s, ok meta)))

  -- the last UpsertFetchMeta
  unfoldable pub finish_fetch : FetchMeta → ℕ → database.State → database.State × Outcome {0} Unit
  finish_fetch meta i s = database.store_fetch_meta (record meta { last_fetched_at = now i }) s

  -- A command around its part that fetches and inserts. That part returns the number of calls of
  -- time.Now for the roots, now i being what the i-th of them gives.
  unfoldable pub run_fetch :
      (database.State → database.State × Outcome ℕ)
      → database.State
      → database.State × Outcome {0} Unit
  run_fetch body s =
      after_call (prepare s) (λ meta s. after_call (body s) (λ i s. finish_fetch meta i s))

  unfoldable pub insert_root :
      Text → Text → List Definition → ℕ → database.State → database.State × Outcome ℕ
  insert_root family os_ver defs i s =
      after_call
        (database.store_oval
          (record {
            id = 0;
            family = family;
            os_version = os_ver;
            definitions = defs;
            timestamp = now i;
          })
          s)
        (λ done s. (s, ok (suc i)))

  unfoldable pub insert_roots :
      Text → Map (List Definition) → ℕ → database.State → database.State × Outcome ℕ
  insert_roots family [] i s = (s, ok i)
  insert_roots family ((os_ver, defs) ∷ ps) i s =
      after_call (insert_root family os_ver defs i s) (insert_roots family ps)

  -- the loop over the results that inserts what each of them holds
  unfoldable pub insert_files :
      Text
      → (FetchResult → Outcome (Map (List Definition)))
      → List FetchResult
      → ℕ
      → database.State
      → database.State × Outcome ℕ
  insert_files family convert [] i s = (s, ok i)
  insert_files family convert (r ∷ rs) i s =
      after_call (s, convert r)
        (λ ps s. after_call (insert_roots family ps i s) (insert_files family convert rs))
