-- ===== src/Db/Rdb/Insert/Parts.antt =====
-- What the parts of InsertOval of db/rdb.go leave in the tables, where they go on.
use mathlib.Core.List.{flatten}
use goval_dictionary_v.Prelude.{
  ℕ, ◌≡◌, ◌≢◌, refl, ap, sym, ◌∙◌, Option, none, some, List, [], ◌∷◌, ◌++◌, append_assoc,
  append-nil,
}
use goval_dictionary_v.Text.{Text}
use goval_dictionary_v.Models.{Definition, Advisory, Package, Root}
use goval_dictionary_v.Db.Chunks.{batches}
use goval_dictionary_v.Db.Rdb.Gorm.{Gorm, Reply, found, not_found, failed}
use goval_dictionary_v.Db.Rdb.Insert.{
  max_batch, Attempt, done, returned, and_then, checking, delete_advisory_batches,
  delete_definition_batches, delete_old, insert_package_batches, with_definition_id,
  insert_packages, insert_definition_batches, replace_old,
}
use goval_dictionary_v.Db.Rdb.Insert.Tables.{
  find_root, without, IsTables, AtMostOne, root_id_of, root_id_of-append,
}

module _ (g : Gorm) where
  -- what holds of the transaction, if the part goes on
  abbrev pub Holds : (g.Tx → Type 0) → Attempt g g.Tx → Type 0
  Holds P (done t) = P t
  Holds P (returned s) = Unit

  pub checking-Holds :
      {A : Type 0} (P : g.Tx → Type 0) (t : g.Tx) (o : Option A) (k : A → Attempt g g.Tx)
      → ((a : A) → o ≡ some a → Holds P (k a))
      → Holds P (checking g t o k)
  unfolding checking
  checking-Holds P t none k h = tt
  checking-Holds P t (some a) k h = h a refl

  pub and_then-Holds :
      (Q P : g.Tx → Type 0) (a : Attempt g g.Tx) (k : g.Tx → Attempt g g.Tx)
      → Holds Q a
      → ((t : g.Tx) → Q t → Holds P (k t))
      → Holds P (and_then g a k)
  unfolding and_then
  and_then-Holds Q P (done t) k q h = h t q
  and_then-Holds Q P (returned s) k q h = tt

module _ (g : Gorm) (laws : IsTables g) where
  abbrev Roots : List Root → g.Tx → Type 0
  Roots rs t = laws.roots t ≡ rs

  delete_advisory_batches-Roots :
      (rs : List Root) (bs : List (List Advisory)) (t : g.Tx)
      → Roots rs t
      → Holds g (Roots rs) (delete_advisory_batches g bs t)
  unfolding delete_advisory_batches
  delete_advisory_batches-Roots rs [] t h = h
  delete_advisory_batches-Roots rs (advs ∷ bs) t h =
      checking-Holds g (Roots rs) t (g.delete_advisories advs t) _ (λ t' e.
        delete_advisory_batches-Roots rs bs t' (laws.roots-delete_advisories advs t t' e ∙ h))

  delete_definition_batches-Roots :
      (rs : List Root) (bs : List (List Definition)) (t : g.Tx)
      → Roots rs t
      → Holds g (Roots rs) (delete_definition_batches g bs t)
  unfolding delete_definition_batches
  delete_definition_batches-Roots rs [] t h = h
  delete_definition_batches-Roots rs (defs ∷ bs) t h =
      checking-Holds g (Roots rs) t (g.advisories_of defs t) _ (λ advs e.
        and_then-Holds g (Roots rs) (Roots rs) _ _
          (delete_advisory_batches-Roots rs (batches advs max_batch) t h)
          (λ t' h'. checking-Holds g (Roots rs) t' (g.delete_definitions defs t') _ (λ t'' e'.
            delete_definition_batches-Roots rs bs t''
              (laws.roots-delete_definitions defs t' t'' e' ∙ h'))))

  delete_old-Roots :
      (old : Root) (rs : List Root) (t : g.Tx)
      → Roots rs t
      → Holds g (Roots (without old.id rs)) (delete_old g old t)
  unfolding delete_old
  delete_old-Roots old rs t h =
      checking-Holds g (Roots (without old.id rs)) t (g.definitions_of old t) _ (λ defs e.
        and_then-Holds g (Roots rs) (Roots (without old.id rs)) _ _
          (delete_definition_batches-Roots rs (batches defs max_batch) t h)
          (λ t' h'.
            checking-Holds g (Roots (without old.id rs)) t' (g.delete_root old.id t') _
              (λ t'' e'. laws.roots-delete_root old.id t' t'' e' ∙ ap (without old.id) h')))

  -- no root of the family and the release is left
  abbrev pub Gone : Text → Text → g.Tx → Type 0
  Gone f v t = find_root f v (laws.roots t) ≡ not_found

  Roots-Gone :
      (f v : Text) (rs : List Root) (a : Attempt g g.Tx)
      → find_root f v rs ≡ not_found
      → Holds g (Roots rs) a
      → Holds g (Gone f v) a
  Roots-Gone f v rs (done t) e h = ap (find_root f v) h ∙ e
  Roots-Gone f v rs (returned s) e h = tt

  pub replace_old-Gone :
      (f v : Text) (r : Reply Root) (t : g.Tx)
      → AtMostOne f v (laws.roots t)
      → (r ≢ failed → r ≡ find_root f v (laws.roots t))
      → Holds g (Gone f v) (replace_old g r t)
  unfolding replace_old
  replace_old-Gone f v failed t one e = tt
  replace_old-Gone f v not_found t one e = sym (e (cc))
  replace_old-Gone f v (found old) t one e =
      Roots-Gone f v (without old.id (laws.roots t)) (delete_old g old t) (one old (sym (e (cc))))
        (delete_old-Roots old (laws.roots t) t refl)

  -- the two columns
  abbrev pub Columns : List Root → List ℕ → g.Tx → Type 0
  Columns rs is t = (laws.roots t ≡ rs) × (laws.root_ids t ≡ is)

  insert_package_batches-Columns :
      (rs : List Root) (is : List ℕ) (bs : List (List Package)) (t : g.Tx)
      → Columns rs is t
      → Holds g (Columns rs is) (insert_package_batches g bs t)
  unfolding insert_package_batches
  insert_package_batches-Columns rs is [] t h = h
  insert_package_batches-Columns rs is (packs ∷ bs) t h =
      checking-Holds g (Columns rs is) t (g.create_packages packs t) _ (λ t' e.
        insert_package_batches-Columns rs is bs t' (
          laws.roots-create_packages packs t t' e ∙ h.0,
          laws.root_ids-create_packages packs t t' e ∙ h.1,
        ))

  insert_packages-Columns :
      (rs : List Root) (is : List ℕ) (n : ℕ) (ds : List Definition) (t : g.Tx)
      → Columns rs is t
      → Holds g (Columns rs is) (insert_packages g n ds t)
  unfolding insert_packages
  insert_packages-Columns rs is n [] t h = h
  insert_packages-Columns rs is n (d ∷ ds) t h =
      and_then-Holds g (Columns rs is) (Columns rs is) _ _
        (insert_package_batches-Columns rs is (batches (with_definition_id g d) n) t h)
        (insert_packages-Columns rs is n ds)

  pub insert_definition_batches-Columns :
      (rs : List Root) (n : ℕ) (bs : List (List Definition)) (is : List ℕ) (t : g.Tx)
      → Columns rs is t
      → Holds g (Columns rs (is ++ root_id_of (flatten bs))) (insert_definition_batches g n bs t)
  unfolding insert_definition_batches flatten
  insert_definition_batches-Columns rs n [] is t h = (h.0, h.1 ∙ sym (append-nil is))
  insert_definition_batches-Columns rs n (defs ∷ bs) is t h =
      let js = is ++ root_id_of defs in
      rw
        (
          root_id_of-append defs (flatten bs),
          sym (append_assoc is (root_id_of defs) (root_id_of (flatten bs))),
        )
        (checking-Holds g (Columns rs (js ++ root_id_of (flatten bs))) t
          (g.create_definitions defs t) _
          (λ created e.
            and_then-Holds g (Columns rs js) (Columns rs (js ++ root_id_of (flatten bs))) _ _
              (insert_packages-Columns rs js n created.0 created.1 (
                laws.roots-create_definitions defs created.0 t created.1 e ∙ h.0,
                laws.root_ids-create_definitions defs created.0 t created.1 e
                    ∙ ap (λ i. i ++ root_id_of defs) h.1,
              ))
              (insert_definition_batches-Columns rs n bs js)))
