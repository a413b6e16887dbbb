-- ===== src/Db/Rdb/Insert/Runs.antt =====
-- What the loops of InsertOval of db/rdb.go have run when they come to their end.
use mathlib.Core.List.{flatten}
use goval_dictionary_v.Prelude.{
  ℕ, ◌<◌, ◌≡◌, refl, ap, sym, ◌∙◌, some, List, [], ◌∷◌, ◌++◌, append-nil, flat_map-append, arith,
}
use goval_dictionary_v.Models.{Definition, Advisory, Package, Root}
use goval_dictionary_v.Db.Chunks.{batches}
use goval_dictionary_v.Db.Chunks.Laws.{flatten-batches}
use goval_dictionary_v.Db.Rdb.Gorm.{Gorm}
use goval_dictionary_v.Db.Rdb.Insert.{
  max_batch, delete_advisory_batches, delete_definition_batches, delete_old, insert_package_batches,
  with_definition_id, insert_packages, insert_definition_batches,
}
use goval_dictionary_v.Db.Rdb.Insert.Writes.{
  makes_definitions, makes_packages, drops_advisories, drops_definitions, drops_root, Tally,
  nothing, plus, tally_of, Does, checking-Does, and_then-Does, write-Does, Is, packages_of,
}

module _ (g : Gorm) where
  delete_advisory_batches-Does :
      (bs : List (List Advisory)) (t : g.Tx)
      → Does g (Is g nothing) t (delete_advisory_batches g bs t)
  unfolding delete_advisory_batches
  delete_advisory_batches-Does [] t = ([], refl, refl)
  delete_advisory_batches-Does (advs ∷ bs) t =
      checking-Does g (Is g nothing) t (g.delete_advisories advs t) (delete_advisory_batches g bs)
        (λ t' e.
          write-Does g (Is g nothing) (Is g nothing) (drops_advisories advs) t t'
            (delete_advisory_batches g bs t') e (delete_advisory_batches-Does bs t') (λ x h. h))

  abbrev drops : List Definition → Tally
  drops ds = record nothing { dropped = ds }

  delete_definition_batches-Does :
      (bs : List (List Definition)) (t : g.Tx)
      → Does g (Is g (drops (flatten bs))) t (delete_definition_batches g bs t)
  unfolding delete_definition_batches flatten
  delete_definition_batches-Does [] t = ([], refl, refl)
  delete_definition_batches-Does (defs ∷ bs) t =
      let all = Is g (drops (defs ++ flatten bs)) in
      checking-Does g all t (g.advisories_of defs t) _ (λ advs e.
        and_then-Does g (Is g nothing) all all t _ _
          (delete_advisory_batches-Does (batches advs max_batch) t)
          (λ u. checking-Does g all u (g.delete_definitions defs u) _ (λ u' e'.
            write-Does g (Is g (drops (flatten bs))) all (drops_definitions defs) u u'
              (delete_definition_batches g bs u') e' (delete_definition_batches-Does bs u')
              (λ x h. ap (plus (tally_of (drops_definitions defs))) h)))
          (λ x y h k. ap (λ z. plus z y) h ∙ k))

  -- the old root and its definitions are deleted
  abbrev pub DropsOld : Root → g.Tx → Tally → Type 0
  DropsOld old t x =
      (ds : List Definition) × (g.definitions_of old t ≡ some ds)
      × (x ≡ record nothing { dropped = ds; dropped_roots = old.id ∷ [] })

  pub delete_old-Does : (old : Root) (t : g.Tx) → Does g (DropsOld old t) t (delete_old g old t)
  unfolding delete_old
  delete_old-Does old t = checking-Does g (DropsOld old t) t (g.definitions_of old t) _ (λ ds e.
      and_then-Does g (Is g (drops (flatten (batches ds max_batch))))
        (Is g (record nothing { dropped_roots = old.id ∷ [] })) (DropsOld old t) t _ _
        (delete_definition_batches-Does (batches ds max_batch) t)
        (λ u.
          checking-Does g (Is g (record nothing { dropped_roots = old.id ∷ [] })) u
            (g.delete_root old.id u) _ (λ u' e'. (drops_root old.id ∷ [], (u', e', refl), refl)))
        (λ x y h k. (
          ds,
          e,
          ap (λ z. plus z y) h
              ∙ ap (plus (drops (flatten (batches ds max_batch)))) k
              ∙ ap (λ d. record nothing { dropped = d; dropped_roots = old.id ∷ [] })
                  (append-nil (flatten (batches ds max_batch))
                    ∙ flatten-batches ds max_batch (omega arith)),
        )))

  abbrev packs : List Package → Tally
  packs ps = record nothing { packages = ps }

  insert_package_batches-Does :
      (bs : List (List Package)) (t : g.Tx)
      → Does g (Is g (packs (flatten bs))) t (insert_package_batches g bs t)
  unfolding insert_package_batches flatten
  insert_package_batches-Does [] t = ([], refl, refl)
  insert_package_batches-Does (ps ∷ bs) t =
      let all = Is g (packs (ps ++ flatten bs)) in
      checking-Does g all t (g.create_packages ps t) (insert_package_batches g bs) (λ t' e.
        write-Does g (Is g (packs (flatten bs))) all (makes_packages ps) t t'
          (insert_package_batches g bs t') e (insert_package_batches-Does bs t')
          (λ x h. ap (plus (tally_of (makes_packages ps))) h))

  insert_packages-Does :
      (n : ℕ) (ds : List Definition) (t : g.Tx)
      → 0 < n
      → Does g (Is g (packs (packages_of g ds))) t (insert_packages g n ds t)
  unfolding insert_packages
  insert_packages-Does n [] t h = ([], refl, refl)
  insert_packages-Does n (d ∷ ds) t h =
      let mine = batches (with_definition_id g d) n in
      and_then-Does g (Is g (packs (flatten mine))) (Is g (packs (packages_of g ds)))
        (Is g (packs (with_definition_id g d ++ packages_of g ds))) t
        (insert_package_batches g mine t) (insert_packages g n ds)
        (insert_package_batches-Does mine t) (λ u. insert_packages-Does n ds u h)
        (λ x y p q.
          ap (λ z. plus z y) p
          ∙ ap (plus (packs (flatten mine))) q
          ∙ ap (λ ps. packs (ps ++ packages_of g ds))
              (flatten-batches (with_definition_id g d) n h))

  -- definitions are created, and the packages of what was created
  abbrev pub Makes : List Definition → Tally → Type 0
  Makes ds x =
      (es : List Definition) × (x
        ≡ record nothing { asked = ds; made = es; packages = packages_of g es })

  pub insert_definition_batches-Does :
      (n : ℕ) (bs : List (List Definition)) (t : g.Tx)
      → 0 < n
      → Does g (Makes (flatten bs)) t (insert_definition_batches g n bs t)
  unfolding insert_definition_batches flatten
  insert_definition_batches-Does n [] t h = ([], refl, ([], refl))
  insert_definition_batches-Does n (defs ∷ bs) t h =
      checking-Does g (Makes (defs ++ flatten bs)) t (g.create_definitions defs t) _ (λ created e.
        write-Does g
          (λ x.
            (es : List Definition) × (x ≡ record nothing {
              asked = flatten bs;
              made = es;
              packages = packages_of g created.0 ++ packages_of g es;
            }))
          (Makes (defs ++ flatten bs)) (makes_definitions defs created.0) t created.1 _ e
          (and_then-Does g (Is g (packs (packages_of g created.0))) (Makes (flatten bs))
            (λ x.
              (es : List Definition) × (x ≡ record nothing {
                asked = flatten bs;
                made = es;
                packages = packages_of g created.0 ++ packages_of g es;
              }))
            created.1 _ _ (insert_packages-Does n created.0 created.1 h)
            (λ u. insert_definition_batches-Does n bs u h)
            (λ x y p q.
              (q.0, ap (λ z. plus z y) p ∙ ap (plus (packs (packages_of g created.0))) q.1)))
          (λ x q. (
            created.0 ++ q.0,
            ap (plus (tally_of (makes_definitions defs created.0))) q.1
                ∙ ap
                    (λ ps. record nothing {
                      asked = defs ++ flatten bs;
                      made = created.0 ++ q.0;
                      packages = ps;
                    })
                    (sym (flat_map-append (with_definition_id g) created.0 q.0)),
          )))
