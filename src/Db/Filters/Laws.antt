-- ===== src/Db/Filters/Laws.antt =====
-- The packages that a query for an architecture keeps.
use goval_dictionary_v.Prelude.{◌≡◌, ◌≢◌, ◌∙◌, ap, refl, List, [], ◌∷◌, ◌++◌, arith, All}
use goval_dictionary_v.Text.{Text}
use goval_dictionary_v.Text.Equality.{text_eq_iff}
use goval_dictionary_v.Models.{Package}
use goval_dictionary_v.Db.Filters.{packs_of_arch, fileter_packs_by_arch}

packs_of_arch-append :
    (arch : Text) (xs ys : List Package)
    → packs_of_arch arch (xs ++ ys) ≡ packs_of_arch arch xs ++ packs_of_arch arch ys
unfolding packs_of_arch
packs_of_arch-append arch [] ys = refl
packs_of_arch-append arch (x ∷ xs) ys = ground (arith, packs_of_arch-append arch xs ys)

packs_of_arch-All :
    (arch : Text) (packs : List Package)
    → All (λ (p : Package). p.arch ≡ arch) (packs_of_arch arch packs)
unfolding packs_of_arch
packs_of_arch-All arch [] = tt
packs_of_arch-All arch (p ∷ packs) =
    ground (arith, text_eq_iff p.arch arch, packs_of_arch-All arch packs)

module _ (arch : Text) (named : arch ≢ []) where
  fileter-named :
      (packs : List Package) → fileter_packs_by_arch packs arch ≡ packs_of_arch arch packs
  unfolding fileter_packs_by_arch
  fileter-named packs = ground (arith, named, text_eq_iff arch [])

  -- A query that names an architecture keeps exactly the packages of that architecture: wherever
  -- one stands it stays, in order, and every package that stays has the architecture.
  pub fileter_packs_by_arch-exact :
      (xs ys : List Package) (p : Package)
      → p.arch ≡ arch
      → (fileter_packs_by_arch (xs ++ (p ∷ ys)) arch
          ≡ fileter_packs_by_arch xs arch ++ (p ∷ fileter_packs_by_arch ys arch))
        × All (λ (q : Package). q.arch ≡ arch) (fileter_packs_by_arch (xs ++ (p ∷ ys)) arch)
  fileter_packs_by_arch-exact xs ys p e =
      rw (fileter-named (xs ++ (p ∷ ys)), fileter-named xs, fileter-named ys)
        (
          packs_of_arch-append arch xs (p ∷ ys)
              ∙ ap (λ t. packs_of_arch arch xs ++ t) (head_kept ys p e),
          packs_of_arch-All arch (xs ++ (p ∷ ys)),
        )
    where
      head_kept :
          (zs : List Package) (q : Package)
          → q.arch ≡ arch
          → packs_of_arch arch (q ∷ zs) ≡ q ∷ packs_of_arch arch zs
      head_kept zs q h = unfold packs_of_arch in ground (arith, text_eq_iff q.arch arch, h)
