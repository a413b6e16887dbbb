-- ===== src/Db/Rdb/Insert/Stored.antt =====
-- What a successful InsertOval of db/rdb.go leaves in the tables.

use goval_dictionary_v.Prelude.{
  ℕ, ◌<◌, ◌≡◌, ◌≢◌, refl, ap, sym, ◌∙◌, true, false, List, [], ◌∷◌, ◌++◌, map, arith, ltb, length,
  Bool-cases, inl, inr,
}
use goval_dictionary_v.Text.{Text}
use goval_dictionary_v.Outcome.{ok}
use goval_dictionary_v.Models.{Definition, Root}
use goval_dictionary_v.Db.Version.{format_family_and_os_ver}
use goval_dictionary_v.Db.Chunks.{batches}
use goval_dictionary_v.Db.Chunks.Laws.{flatten-batches}
use goval_dictionary_v.Db.Rdb.Gorm.{Gorm, found, not_found}
use goval_dictionary_v.Db.Rdb.Insert.{
  at_rest, Attempt, done, returned, insert_new, finish_insert, rdb_insert_formatted,
  rdb_insert_oval,
}
use goval_dictionary_v.Db.Rdb.Insert.Tables.{
  find_root, count_of_id, row, IsTables, AtMostOne, find_root-append, count_of_id-append,
  count_of_id-map, find_root-row, root_id_of,
}
use goval_dictionary_v.Db.Rdb.Insert.Parts.{
  Holds, checking-Holds, and_then-Holds, Gone, replace_old-Gone, Columns,
  insert_definition_batches-Columns,
}

module _ (g : Gorm) (laws : IsTables g) where
  -- the root is stored, as the only one of its family and release, with as many definitions
  abbrev pub IsStored : Root → List Root → List ℕ → Type 0
  IsStored root rs is =
      (id : ℕ) × (find_root root.family root.os_version rs ≡ found (row id root))
      × (count_of_id id is ≡ length root.definitions)

  count_of_new :
      (id : ℕ) (is : List ℕ) (ds : List Definition)
      → count_of_id id is ≡ 0
      → count_of_id id (is ++ root_id_of (map (λ (d : Definition). record d { root_id = id }) ds))
        ≡ length ds
  count_of_new id is ds c = omega (
    arith,
    c,
    count_of_id-append id is (root_id_of (map (λ (d : Definition). record d { root_id = id }) ds)),
    count_of_id-map id ds,
  )

  Columns-IsStored :
      (id : ℕ) (root : Root) (rs : List Root) (is : List ℕ) (a : Attempt g g.Tx)
      → find_root root.family root.os_version rs ≡ not_found
      → count_of_id id is ≡ 0
      → Holds g
          (Columns g laws (rs ++ (row id root ∷ [])) (
            is
            ++ root_id_of (map (λ (d : Definition). record d { root_id = id }) root.definitions)))
          a
      → Holds g (λ t. IsStored root (laws.roots t) (laws.root_ids t)) a
  Columns-IsStored id root rs is (returned s) e c h = tt
  Columns-IsStored id root rs is (done t) e c h = (
    id,
    ap (find_root root.family root.os_version) h.0
        ∙ find_root-append root.family root.os_version rs (row id root ∷ []) e
        ∙ find_root-row id root,
    ap (count_of_id id) h.1 ∙ count_of_new id is root.definitions c,
  )

  insert_new-IsStored :
      (n : ℕ) (root : Root) (t : g.Tx)
      → 0 < n
      → Gone g laws root.family root.os_version t
      → Holds g (λ t'. IsStored root (laws.roots t') (laws.root_ids t')) (insert_new g n root t)
  unfolding insert_new
  insert_new-IsStored n root t pos h =
      checking-Holds g (λ t'. IsStored root (laws.roots t') (laws.root_ids t')) t
        (g.create_root root t) _
        (λ created e.
          let new = map (λ (d : Definition). record d { root_id = created.0 }) root.definitions in
          Columns-IsStored created.0 root (laws.roots t) (laws.root_ids created.1) _ h
            (laws.fresh-create_root root created.0 t created.1 e)
            (rw (flatten-batches new n pos) at (
              insert_definition_batches-Columns g laws (laws.roots t ++ (row created.0 root ∷ [])) n
                (batches new n) (laws.root_ids created.1) created.1
                (laws.roots-create_root root created.0 t created.1 e, refl))))

  finish_insert-not_committed :
      (t : g.Tx) (db : g.Db)
      → (g.commit t).1 ≡ false
      → finish_insert g (done t) ≡ (ok tt, at_rest db)
      → ⊥
  unfolding finish_insert
  finish_insert-not_committed t db n e = ground arith

  finish_insert-IsStored :
      (root : Root) (a : Attempt g g.Tx) (db : g.Db)
      → Holds g (λ t. IsStored root (laws.roots t) (laws.root_ids t)) a
      → finish_insert g a ≡ (ok tt, at_rest db)
      → IsStored root (laws.stored_roots db) (laws.stored_root_ids db)
  unfolding finish_insert
  finish_insert-IsStored root (returned s) db h e = ground arith
  finish_insert-IsStored root (done t) db h e = elim (Bool-cases (g.commit t).1) [
    | inl y ↦
        let k : (g.commit t).0 ≡ db = ground arith in
        let (id, f, c) = h in
        (id, rw (sym k, laws.roots-commit t y) f, rw (sym k, laws.root_ids-commit t y) c)
    | inr n ↦ elim (finish_insert-not_committed t db n e) [ ]
  ]

  formatted-IsStored :
      (n : ℕ) (root : Root) (db db' : g.Db)
      → 0 < n
      → root.family ≢ []
      → root.os_version ≢ []
      → AtMostOne root.family root.os_version (laws.stored_roots db)
      → rdb_insert_formatted g n root root.family root.os_version db ≡ (ok tt, at_rest db')
      → IsStored root (laws.stored_roots db') (laws.stored_root_ids db')
  unfolding rdb_insert_formatted
  formatted-IsStored n root db db' pos hf hv one e =
      finish_insert-IsStored root _ db'
        (and_then-Holds g (Gone g laws root.family root.os_version)
          (λ t. IsStored root (laws.roots t) (laws.root_ids t)) _ _
          (replace_old-Gone g laws root.family root.os_version
            (g.first_old_root root.family root.os_version (g.begin db)) (g.begin db)
            (rw (laws.roots-begin db) one)
            (laws.first_old_root-find root.family root.os_version (g.begin db) hf hv))
          (λ t h. insert_new-IsStored n root t pos h))
        e

  batch_size-rejected :
      (n : ℕ) (root : Root) (db db' : g.Db) (p : Text × Text)
      → format_family_and_os_ver root.family root.os_version ≡ ok p
      → ltb n 1 ≡ true
      → rdb_insert_oval g n root db ≡ (ok tt, at_rest db')
      → ⊥
  unfolding rdb_insert_oval
  batch_size-rejected n root db db' p h y e = ground arith

  batch_size-accepted :
      (n : ℕ) (root : Root) (db : g.Db) (p : Text × Text)
      → format_family_and_os_ver root.family root.os_version ≡ ok p
      → ltb n 1 ≡ false
      → rdb_insert_oval g n root db ≡ rdb_insert_formatted g n root p.0 p.1 db
  unfolding rdb_insert_oval
  batch_size-accepted n root db p h y = ground arith

  -- An InsertOval of the relational driver that returns no error, for a root that already carries
  -- the normalised family and release, neither of which is empty, into a database without two roots
  -- of these, leaves a database in which the root is found under them, with as many definitions as
  -- the root has.
  pub rdb_insert_oval-IsStored :
      (n : ℕ) (root : Root) (db db' : g.Db)
      → format_family_and_os_ver root.family root.os_version ≡ ok (root.family, root.os_version)
      → root.family ≢ []
      → root.os_version ≢ []
      → AtMostOne root.family root.os_version (laws.stored_roots db)
      → rdb_insert_oval g n root db ≡ (ok tt, at_rest db')
      → IsStored root (laws.stored_roots db') (laws.stored_root_ids db')
  rdb_insert_oval-IsStored n root db db' hn hf hv one e =
      let p : Text × Text = (root.family, root.os_version) in
      elim (Bool-cases (ltb n 1)) [
        | inl y ↦ elim (batch_size-rejected n root db db' p hn y e) [ ]
        | inr y ↦
            formatted-IsStored n root db db' (ground arith) hf hv one
              (sym (batch_size-accepted n root db p hn y) ∙ e)
      ]
