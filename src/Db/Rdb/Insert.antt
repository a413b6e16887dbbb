-- ===== src/Db/Rdb/Insert.antt =====
-- InsertOval of db/rdb.go, without the log and the progress bar.
pub mod Atomic
pub mod Tables
pub mod Parts
pub mod Stored
pub mod Writes
pub mod Runs
pub mod Whole
use goval_dictionary_v.Prelude.{
  ℕ, zero, suc, Bool, true, false, Option, none, some, List, [], ◌∷◌, ◌++◌, map, ltb, if◌then◌else◌,
}
use goval_dictionary_v.Text.{Text}
use goval_dictionary_v.Outcome.{
  Outcome, ok, err, panic, bad_batch_size, failed_query, failed_command,
}
use goval_dictionary_v.Models.{Definition, Advisory, Package, Root}
use goval_dictionary_v.Db.Version.{format_family_and_os_ver}
use goval_dictionary_v.Db.Chunks.{batches}
use goval_dictionary_v.Db.Rdb.Gorm.{Gorm, Reply, found, not_found, failed}

abbrev pub max_batch : ℕ
max_batch = 998

module _ (g : Gorm) where
  -- Where the connection stands: outside a transaction, or in one that is neither committed nor
  -- rolled back.
  pub data Session : Type 0 where
    at_rest : g.Db → Session
    in_transaction : g.Tx → Session

  -- A part of InsertOval that goes on, or that has returned an error and left the session behind.
  pub data Attempt (A : Type 0) : Type 0 where
    done : A → Attempt A
    returned : Session → Attempt A

  unfoldable pub and_then : {A B : Type 0} → Attempt A → (A → Attempt B) → Attempt B
  and_then (done a) k = k a
  and_then (returned s) k = returned s

  -- `if err != nil { tx.Rollback(); return … }` after a statement in the transaction
  unfoldable pub checking : {A B : Type 0} → g.Tx → Option A → (A → Attempt B) → Attempt B
  checking t none k = returned (at_rest (g.rollback t))
  checking t (some a) k = k a

  -- the loop over the batches of the advisories
  unfoldable pub delete_advisory_batches : List (List Advisory) → g.Tx → Attempt g.Tx
  delete_advisory_batches [] t = done t
  delete_advisory_batches (advs ∷ rest) t =
      checking t (g.delete_advisories advs t) (delete_advisory_batches rest)

  -- the loop over the batches of the old definitions
  unfoldable pub delete_definition_batches : List (List Definition) → g.Tx → Attempt g.Tx
  delete_definition_batches [] t = done t
  delete_definition_batches (defs ∷ rest) t = checking t (g.advisories_of defs t) (λ advs.
      and_then (delete_advisory_batches (batches advs max_batch) t)
        (λ t'. checking t' (g.delete_definitions defs t') (delete_definition_batches rest)))

  unfoldable pub delete_old : Root → g.Tx → Attempt g.Tx
  delete_old old t = checking t (g.definitions_of old t) (λ defs.
      and_then (delete_definition_batches (batches defs max_batch) t)
        (λ t'. checking t' (g.delete_root old.id t') (λ t''. done t'')))

  -- the loop over the batches of the packages of one definition
  unfoldable pub insert_package_batches : List (List Package) → g.Tx → Attempt g.Tx
  insert_package_batches [] t = done t
  insert_package_batches (packs ∷ rest) t =
      checking t (g.create_packages packs t) (insert_package_batches rest)

  unfoldable pub with_definition_id : Definition → List Package
  with_definition_id d = map (λ (p : Package). record p { definition_id = d.id }) d.affected_packs

  -- the loop over the definitions of one batch, which have their ids
  unfoldable pub insert_packages : ℕ → List Definition → g.Tx → Attempt g.Tx
  insert_packages batch_size [] t = done t
  insert_packages batch_size (d ∷ ds) t =
      and_then (insert_package_batches (batches (with_definition_id d) batch_size) t)
        (insert_packages batch_size ds)

  -- the loop over the batches of the new definitions
  unfoldable pub insert_definition_batches : ℕ → List (List Definition) → g.Tx → Attempt g.Tx
  insert_definition_batches batch_size [] t = done t
  insert_definition_batches batch_size (defs ∷ rest) t =
      checking t (g.create_definitions defs t) (λ created.
        and_then (insert_packages batch_size created.0 created.1)
          (insert_definition_batches batch_size rest))

  unfoldable pub insert_new : ℕ → Root → g.Tx → Attempt g.Tx
  insert_new batch_size root t = checking t (g.create_root root t) (λ created.
      insert_definition_batches batch_size
        (batches (map (λ (d : Definition). record d { root_id = created.0 }) root.definitions)
          batch_size)
        created.1)

  -- what is done with the old root, if there is one
  unfoldable pub replace_old : Reply Root → g.Tx → Attempt g.Tx
  replace_old failed t = returned (at_rest (g.rollback t))
  replace_old not_found t = done t
  replace_old (found old) t = delete_old old t

  -- `return tx.Commit().Error`, or the error that came before it
  unfoldable pub finish_insert : Attempt g.Tx → Outcome {0} Unit × Session
  finish_insert (returned s) = (err failed_query, s)
  finish_insert (done t) =
      (if (g.commit t).1 then ok tt else err failed_command, at_rest (g.commit t).0)

  unfoldable pub rdb_insert_formatted : ℕ → Root → Text → Text → g.Db → Outcome {0} Unit × Session
  rdb_insert_formatted batch_size root family os_ver db =
      let t = g.begin db in
      finish_insert
        (and_then (replace_old (g.first_old_root family os_ver t) t) (insert_new batch_size root))

  unfoldable pub rdb_insert_oval : ℕ → Root → g.Db → Outcome {0} Unit × Session
  rdb_insert_oval batch_size root db = elim (format_family_and_os_ver root.family root.os_version) [
    | err e ↦ (err e, at_rest db)
    | panic ↦ (panic, at_rest db)
    | ok p ↦
        if ltb batch_size 1
        then (err bad_batch_size, at_rest db)
        else rdb_insert_formatted batch_size root p.0 p.1 db
  ]
