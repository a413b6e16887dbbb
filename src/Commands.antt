-- ===== src/Commands.antt =====
-- The commands of commands/, without cobra, viper, the log and what they print.
pub mod Fetch
pub mod Run
pub mod Select
use goval_dictionary_v.Prelude.{ℕ, List}
use goval_dictionary_v.Text.{Text}
use goval_dictionary_v.Outcome.{Outcome, ok, err, panic}
use goval_dictionary_v.Models.{Time, Definition, Root, FetchMeta}

-- The operations of the interface DB that the commands and the HTTP handlers call after NewDB, on
-- the driver and the database behind it: GetFetchMeta, UpsertFetchMeta, InsertOval, GetByPackName,
-- GetByCveID, CountDefs and GetLastModified, in this order.
pub record Database : Type 1 where
  pub State : Type 0
  pub load_fetch_meta : State → Outcome FetchMeta
  pub store_fetch_meta : FetchMeta → State → State × Outcome {0} Unit
  pub store_oval : Root → State → State × Outcome {0} Unit
  pub query_by_pack_name : Text → Text → Text → Text → State → Outcome (List Definition)
  pub query_by_cve_id : Text → Text → Text → Text → State → Outcome (List Definition)
  pub query_count : Text → Text → State → Outcome ℕ
  pub query_last_modified : Text → Text → State → Outcome Time

-- `if err != nil { return err }` after a call that may have changed the state
abbrev pub after_call : {S A B : Type 0} → S × Outcome A → (A → S → S × Outcome B) → S × Outcome B
after_call (s, ok a) k = k a s
after_call (s, err e) k = (s, err e)
after_call (s, panic) k = (s, panic)
