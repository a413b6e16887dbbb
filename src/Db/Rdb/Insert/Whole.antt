-- ===== src/Db/Rdb/Insert/Whole.antt =====
-- All that a successful InsertOval of db/rdb.go deletes and creates.
use mathlib.Core.List.{flatten}
use goval_dictionary_v.Prelude.{ℕ, ◌<◌, ◌≡◌, refl, ap, ◌∙◌, List, [], ◌∷◌, map}
use goval_dictionary_v.Models.{Definition, Root}
use goval_dictionary_v.Db.Chunks.{batches}
use goval_dictionary_v.Db.Chunks.Laws.{flatten-batches}
use goval_dictionary_v.Db.Rdb.Gorm.{Gorm, Reply, found, not_found, failed}
use goval_dictionary_v.Db.Rdb.Insert.{and_then, insert_definition_batches, insert_new, replace_old}
use goval_dictionary_v.Db.Rdb.Insert.Writes.{
  makes_root, Tally, nothing, plus, tally_of, Does, packages_of, checking-Does, and_then-Does,
  write-Does,
}
use goval_dictionary_v.Db.Rdb.Insert.Runs.{
  DropsOld, delete_old-Does, Makes, insert_definition_batches-Does,
}

module _ (g : Gorm) where
  abbrev pub with_root_id : ℕ → List Definition → List Definition
  with_root_id id = map (λ (d : Definition). record d { root_id = id })

  -- the root is created, then its definitions with the id it got, then the packages of those
  abbrev pub CreatesNew : Root → Tally → Type 0
  CreatesNew root x =
      (id : ℕ) × (es : List Definition) × (x ≡ record nothing {
        roots = (root, id) ∷ [];
        asked = with_root_id id root.definitions;
        made = es;
        packages = packages_of g es;
      })

  insert_new-Does :
      (n : ℕ) (root : Root) (t : g.Tx) → 0 < n → Does g (CreatesNew root) t (insert_new g n root t)
  unfolding insert_new
  insert_new-Does n root t h =
      checking-Does g (CreatesNew root) t (g.create_root root t) _ (λ created e.
        let bs = batches (with_root_id created.0 root.definitions) n in
        write-Does g (Makes g (flatten bs)) (CreatesNew root) (makes_root root created.0) t
          created.1 (insert_definition_batches g n bs created.1) e
          (insert_definition_batches-Does g n bs created.1 h)
          (λ x q. (
            created.0,
            q.0,
            ap (plus (tally_of (makes_root root created.0))) q.1
                ∙ ap
                    (λ ds. record nothing {
                      roots = (root, created.0) ∷ [];
                      asked = ds;
                      made = q.0;
                      packages = packages_of g q.0;
                    })
                    (flatten-batches (with_root_id created.0 root.definitions) n h),
          )))

  -- what the query for the old root calls for
  abbrev pub DeletesOld : Reply Root → g.Tx → Tally → Type 0
  DeletesOld failed t x = ⊥
  DeletesOld not_found t x = x ≡ nothing
  DeletesOld (found old) t x = DropsOld g old t x

  replace_old-Does : (r : Reply Root) (t : g.Tx) → Does g (DeletesOld r t) t (replace_old g r t)
  unfolding replace_old
  replace_old-Does failed t = tt
  replace_old-Does not_found t = ([], refl, refl)
  replace_old-Does (found old) t = delete_old-Does g old t

  abbrev pub IsWhole : Root → Reply Root → g.Tx → Tally → Type 0
  IsWhole root r t x =
      (old : Tally) × (new : Tally) × DeletesOld r t old × CreatesNew root new × (x ≡ plus old new)

  pub insert-Does :
      (n : ℕ) (root : Root) (r : Reply Root) (t : g.Tx)
      → 0 < n
      → Does g (IsWhole root r t) t (and_then g (replace_old g r t) (insert_new g n root))
  insert-Does n root r t h =
      and_then-Does g (DeletesOld r t) (CreatesNew root) (IsWhole root r t) t (replace_old g r t)
        (insert_new g n root) (replace_old-Does r t) (λ u. insert_new-Does n root u h)
        (λ x y p q. (x, y, p, q, refl))
