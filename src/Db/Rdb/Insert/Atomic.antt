-- ===== src/Db/Rdb/Insert/Atomic.antt =====
-- InsertOval of db/rdb.go does all of its work or none.
use goval_dictionary_v.Prelude.{
  ℕ, ◌≡◌, ◌≢◌, ◌⊎◌, inl, inr, refl, ap, ◌∙◌, true, Option, none, some, List, [], ◌∷◌, ltb,
  Bool-cases, if◌then◌else◌, ◌<◌, false, arith,
}
use goval_dictionary_v.Text.{Text}
use goval_dictionary_v.Outcome.{Outcome, ok, err, panic, bad_batch_size}
use goval_dictionary_v.Models.{Definition, Advisory, Package, Root}
use goval_dictionary_v.Db.Version.{format_family_and_os_ver}
use goval_dictionary_v.Db.Chunks.{batches}
use goval_dictionary_v.Db.Rdb.Gorm.{Gorm, IsTransactional, Reply, found, not_found, failed}
use goval_dictionary_v.Db.Rdb.Insert.{
  max_batch, Session, at_rest, Attempt, done, returned, and_then, checking, delete_advisory_batches,
  delete_definition_batches, delete_old, insert_package_batches, with_definition_id,
  insert_packages, insert_definition_batches, insert_new, replace_old, finish_insert,
  rdb_insert_formatted, rdb_insert_oval,
}
use goval_dictionary_v.Db.Rdb.Insert.Writes.{Write, tally, Performed, Does}
use goval_dictionary_v.Db.Rdb.Insert.Whole.{IsWhole, insert-Does}

positive : (n : ℕ) → ltb n 1 ≡ false → 0 < n
positive n h = ground arith

module _ (g : Gorm) (laws : IsTransactional g) (db : g.Db) where
  -- in a transaction that began on `db`, or back on `db`
  abbrev Keeps : Attempt g g.Tx → Type 0
  Keeps (done t) = laws.before t ≡ db
  Keeps (returned s) = s ≡ at_rest db

  checking-Keeps :
      {A : Type 0} (t : g.Tx) (o : Option A) (k : A → Attempt g g.Tx)
      → laws.before t ≡ db
      → ((a : A) → o ≡ some a → Keeps (k a))
      → Keeps (checking g t o k)
  unfolding checking
  checking-Keeps t none k h _ = ap at_rest (laws.before-rollback t ∙ h)
  checking-Keeps t (some a) k h kept = kept a refl

  and_then-Keeps :
      (a : Attempt g g.Tx) (k : g.Tx → Attempt g g.Tx)
      → Keeps a
      → ((t : g.Tx) → laws.before t ≡ db → Keeps (k t))
      → Keeps (and_then g a k)
  unfolding and_then
  and_then-Keeps (done t) k h kept = kept t h
  and_then-Keeps (returned s) k h kept = h

  delete_advisory_batches-Keeps :
      (bs : List (List Advisory)) (t : g.Tx)
      → laws.before t ≡ db
      → Keeps (delete_advisory_batches g bs t)
  unfolding delete_advisory_batches
  delete_advisory_batches-Keeps [] t h = h
  delete_advisory_batches-Keeps (advs ∷ bs) t h =
      checking-Keeps t (g.delete_advisories advs t) _ h (λ t' e.
        delete_advisory_batches-Keeps bs t' (laws.before-delete_advisories advs t t' e ∙ h))

  delete_definition_batches-Keeps :
      (bs : List (List Definition)) (t : g.Tx)
      → laws.before t ≡ db
      → Keeps (delete_definition_batches g bs t)
  unfolding delete_definition_batches
  delete_definition_batches-Keeps [] t h = h
  delete_definition_batches-Keeps (defs ∷ bs) t h =
      checking-Keeps t (g.advisories_of defs t) _ h (λ advs e.
        and_then-Keeps _ _ (delete_advisory_batches-Keeps (batches advs max_batch) t h) (λ t' h'.
          checking-Keeps t' (g.delete_definitions defs t') _ h' (λ t'' e'.
            delete_definition_batches-Keeps bs t''
              (laws.before-delete_definitions defs t' t'' e' ∙ h'))))

  delete_old-Keeps : (old : Root) (t : g.Tx) → laws.before t ≡ db → Keeps (delete_old g old t)
  unfolding delete_old
  delete_old-Keeps old t h = checking-Keeps t (g.definitions_of old t) _ h (λ defs e.
      and_then-Keeps _ _ (delete_definition_batches-Keeps (batches defs max_batch) t h) (λ t' h'.
        checking-Keeps t' (g.delete_root old.id t') _ h'
          (λ t'' e'. laws.before-delete_root old.id t' t'' e' ∙ h')))

  insert_package_batches-Keeps :
      (bs : List (List Package)) (t : g.Tx)
      → laws.before t ≡ db
      → Keeps (insert_package_batches g bs t)
  unfolding insert_package_batches
  insert_package_batches-Keeps [] t h = h
  insert_package_batches-Keeps (packs ∷ bs) t h =
      checking-Keeps t (g.create_packages packs t) _ h
        (λ t' e. insert_package_batches-Keeps bs t' (laws.before-create_packages packs t t' e ∙ h))

  insert_packages-Keeps :
      (n : ℕ) (ds : List Definition) (t : g.Tx)
      → laws.before t ≡ db
      → Keeps (insert_packages g n ds t)
  unfolding insert_packages
  insert_packages-Keeps n [] t h = h
  insert_packages-Keeps n (d ∷ ds) t h =
      and_then-Keeps _ _ (insert_package_batches-Keeps (batches (with_definition_id g d) n) t h)
        (insert_packages-Keeps n ds)

  insert_definition_batches-Keeps :
      (n : ℕ) (bs : List (List Definition)) (t : g.Tx)
      → laws.before t ≡ db
      → Keeps (insert_definition_batches g n bs t)
  unfolding insert_definition_batches
  insert_definition_batches-Keeps n [] t h = h
  insert_definition_batches-Keeps n (defs ∷ bs) t h =
      checking-Keeps t (g.create_definitions defs t) _ h (λ created e.
        and_then-Keeps _ _
          (insert_packages-Keeps n created.0 created.1
            (laws.before-create_definitions defs created.0 t created.1 e ∙ h))
          (insert_definition_batches-Keeps n bs))

  insert_new-Keeps :
      (n : ℕ) (root : Root) (t : g.Tx) → laws.before t ≡ db → Keeps (insert_new g n root t)
  unfolding insert_new
  insert_new-Keeps n root t h = checking-Keeps t (g.create_root root t) _ h (λ created e.
      insert_definition_batches-Keeps n _ created.1
        (laws.before-create_root root t created.1 created.0 e ∙ h))

  replace_old-Keeps : (r : Reply Root) (t : g.Tx) → laws.before t ≡ db → Keeps (replace_old g r t)
  unfolding replace_old
  replace_old-Keeps failed t h = ap at_rest (laws.before-rollback t ∙ h)
  replace_old-Keeps not_found t h = h
  replace_old-Keeps (found old) t h = delete_old-Keeps old t h

  -- An error, back on `db`; or success, after the commit of a transaction that began on `db` and
  -- ran statements that delete what the old root calls for and create all that the new one holds.
  abbrev pub AllOrNothing : Root → Outcome {0} Unit × Session g → Type 0
  AllOrNothing root r =
      ((r.0 ≢ ok tt) × (r.1 ≡ at_rest db))
      ⊎ ((p : Text × Text) × (ws : List Write) × (t : g.Tx) × (format_family_and_os_ver root.family
              root.os_version
            ≡ ok p)
          × Performed g ws (g.begin db) t
          × IsWhole g root (g.first_old_root p.0 p.1 (g.begin db)) (g.begin db) (tally ws)
          × (laws.before t ≡ db)
          × ((g.commit t).1 ≡ true)
          × (r ≡ (ok tt, at_rest (g.commit t).0)))

  finish_insert-AllOrNothing :
      (root : Root) (p : Text × Text)
      → format_family_and_os_ver root.family root.os_version ≡ ok p
      → (a : Attempt g g.Tx) → Keeps a
      → Does g (IsWhole g root (g.first_old_root p.0 p.1 (g.begin db)) (g.begin db)) (g.begin db) a
      → AllOrNothing root (finish_insert g a)
  unfolding finish_insert
  finish_insert-AllOrNothing root p f (returned s) h d = inl (cc, h)
  finish_insert-AllOrNothing root p f (done t) h (ws, e, w) = elim (Bool-cases (g.commit t).1) [
    | inl y ↦ inr (p, ws, t, f, e, w, h, y, rw y refl)
    | inr n ↦ inl (rw n (cc), ap at_rest (laws.before-commit t n ∙ h))
  ]

  rdb_insert_formatted-AllOrNothing :
      (n : ℕ) (root : Root) (p : Text × Text)
      → format_family_and_os_ver root.family root.os_version ≡ ok p
      → 0 < n
      → AllOrNothing root (rdb_insert_formatted g n root p.0 p.1 db)
  unfolding rdb_insert_formatted
  rdb_insert_formatted-AllOrNothing n root p f h =
      let old = g.first_old_root p.0 p.1 (g.begin db) in
      finish_insert-AllOrNothing root p f _
        (and_then-Keeps _ _ (replace_old-Keeps old (g.begin db) (laws.before-begin db))
          (insert_new-Keeps n root))
        (insert-Does g n root old (g.begin db) h)

  formatted-AllOrNothing :
      (n : ℕ) (root : Root) (o : Outcome (Text × Text))
      → format_family_and_os_ver root.family root.os_version ≡ o
      → AllOrNothing root (elim o [
        | err e ↦ (err e, at_rest db)
        | panic ↦ (panic, at_rest db)
        | ok p ↦
            if ltb n 1
            then (err bad_batch_size, at_rest db)
            else rdb_insert_formatted g n root p.0 p.1 db
      ])
  formatted-AllOrNothing n root (err e) f = inl (cc, refl)
  formatted-AllOrNothing n root panic f = inl (cc, refl)
  formatted-AllOrNothing n root (ok p) f = elim (Bool-cases (ltb n 1)) [
    | inl y ↦ rw y (inl (cc, refl))
    | inr y ↦ rw y (rdb_insert_formatted-AllOrNothing n root p f (positive n y))
  ]

  -- InsertOval of the relational driver either returns an error, with the database as it was and
  -- no transaction open, or returns no error and has committed a transaction that began on the
  -- database. The statements of that transaction all succeeded, and in all they delete the old root
  -- of these names with all its definitions, if there is one, and no definition or root else; and
  -- they create the root, once, all its definitions with the id the root got, once and in order,
  -- and all the packages of the definitions gorm gave back, each with its definition's id.
  pub rdb_insert_oval-AllOrNothing :
      (batch_size : ℕ) (root : Root) → AllOrNothing root (rdb_insert_oval g batch_size root db)
  unfolding rdb_insert_oval
  rdb_insert_oval-AllOrNothing n root =
      formatted-AllOrNothing n root (format_family_and_os_ver root.family root.os_version) refl
