-- ===== src/Converters/Releases/Laws.antt =====
-- The entries of osVerPacks, and what they add to the map of one release.
use goval_dictionary_v.Prelude.{
  ◌≡◌, refl, ap, sym, ◌∙◌, Bool, true, false, List, [], ◌∷◌, ◌++◌, append-nil, append_assoc, Option,
  none, some, collect, to_list, unless, map, arith, inl, inr, Bool-cases, if◌then◌else◌,
}
use goval_dictionary_v.Text.{Text, text_eq}
use goval_dictionary_v.Text.Equality.{eq_of_text_eq}
use goval_dictionary_v.GoMap.{
  Map, values, lookup, insert, lookup-insert, Distinct, insert-Distinct, entry, collect-Distinct,
}
use goval_dictionary_v.Models.{Package, Definition}
use goval_dictionary_v.Converters.Releases.{ReleasePackage, packs_by_release, add_releases}

-- The packages for one release among those found.
abbrev pub pack_for : Text → ReleasePackage → Option Package
pack_for os_ver p = if text_eq p.os_ver os_ver then some p.pack else none

values-insert {ℓ} :
    {V : Type ℓ} (k j : Text) (vs : List V) (m : Map (List V))
    → values j (insert k vs m) ≡ (if text_eq k j then vs else values j m)
values-insert k j vs m = ground (arith, lookup-insert k j vs m)

-- the packages under a release, if there is one at least
abbrev pub nonempty_packs : List Package → Option (List Package)
nonempty_packs [] = none
nonempty_packs (p ∷ ps) = some (p ∷ ps)

-- an entry is never made without a package
abbrev pub Filled : Map (List Package) → Type 0
Filled m = (k : Text) → lookup k m ≡ nonempty_packs (values k m)

Filled-insert :
    (k : Text) (ps : List Package) (p : Package) (m : Map (List Package))
    → Filled m
    → Filled (insert k (ps ++ (p ∷ [])) m)
Filled-insert k [] p m h j = ground (arith, lookup-insert k j (p ∷ []) m, h j)
Filled-insert k (q ∷ qs) p m h j = ground (arith, lookup-insert k j (q ∷ (qs ++ (p ∷ []))) m, h j)

pub values-snoc {ℓ} :
    {V : Type ℓ} (k j : Text) (v : V) (m : Map (List V))
    → values j (insert k (values k m ++ (v ∷ [])) m)
      ≡ values j m ++ (if text_eq k j then v ∷ [] else [])
values-snoc k j v m = elim (Bool-cases (text_eq k j)) [
  | inl y ↦ rw (values-insert k j (values k m ++ (v ∷ [])) m, y, eq_of_text_eq k j y) refl
  | inr n ↦ rw (values-insert k j (values k m ++ (v ∷ [])) m, n) (sym (append-nil (values j m)))
]

pub packs_by_release-values :
    (ps : List ReleasePackage) (m : Map (List Package)) (os_ver : Text)
    → values os_ver (packs_by_release ps m) ≡ values os_ver m ++ collect (pack_for os_ver) ps
unfolding packs_by_release
packs_by_release-values [] m os_ver = sym (append-nil (values os_ver m))
packs_by_release-values (p ∷ ps) m os_ver =
    packs_by_release-values ps (insert p.os_ver (values p.os_ver m ++ (p.pack ∷ [])) m) os_ver
    ∙ ap (λ t. t ++ collect (pack_for os_ver) ps) (values-snoc p.os_ver os_ver p.pack m)
    ∙ append_assoc (values os_ver m) (if text_eq p.os_ver os_ver then p.pack ∷ [] else [])
        (collect (pack_for os_ver) ps)
    ∙ ap (λ t. values os_ver m ++ t) (one (text_eq p.os_ver os_ver))
  where
    one :
        (b : Bool)
        → (if b then p.pack ∷ [] else []) ++ collect (pack_for os_ver) ps
          ≡ elim (if b then some p.pack else none) [
            | none ↦ collect (pack_for os_ver) ps
            | some q ↦ q ∷ collect (pack_for os_ver) ps
          ]
    one true = refl
    one false = refl

pub packs_by_release-Distinct :
    (ps : List ReleasePackage) (m : Map (List Package))
    → Distinct m
    → Distinct (packs_by_release ps m)
unfolding packs_by_release
packs_by_release-Distinct [] m h = h
packs_by_release-Distinct (p ∷ ps) m h =
    packs_by_release-Distinct ps _
      (insert-Distinct p.os_ver (values p.os_ver m ++ (p.pack ∷ [])) m h)

pub packs_by_release-Filled :
    (ps : List ReleasePackage) (m : Map (List Package)) → Filled m → Filled (packs_by_release ps m)
unfolding packs_by_release
packs_by_release-Filled [] m h = h
packs_by_release-Filled (p ∷ ps) m h =
    packs_by_release-Filled ps _ (Filled-insert p.os_ver (values p.os_ver m) p.pack m h)

lookup_list {ℓ} : {V : Type ℓ} (o : Option V) → elim o [ none ↦ [] | some v ↦ v ∷ [] ] ≡ to_list o
lookup_list none = refl
lookup_list (some v) = refl

module _ (new : List Package → Definition) where
  abbrev pub of_packs : Option (List Package) → Option Definition
  of_packs none = none
  of_packs (some packs) = some (new packs)

  of_packs-list : (o : Option (List Package)) → map new (to_list o) ≡ to_list (of_packs o)
  of_packs-list none = refl
  of_packs-list (some packs) = refl

  add_one :
      (b : Bool) (packs : List Package) (rest : List (List Package))
      → (if b then new packs ∷ [] else []) ++ map new rest
        ≡ map new (elim (if b then some packs else none) [ none ↦ rest | some q ↦ q ∷ rest ])
  add_one true packs rest = refl
  add_one false packs rest = refl

  add_releases-values :
      (l : Map (List Package)) (m : Map (List Definition)) (v : Text)
      → values v (add_releases new l m) ≡ values v m ++ map new (collect (entry v) l)
  unfolding add_releases
  add_releases-values [] m v = sym (append-nil (values v m))
  add_releases-values ((os_ver, packs) ∷ rest) m v =
      add_releases-values rest (insert os_ver (values os_ver m ++ (new packs ∷ [])) m) v
      ∙ ap (λ t. t ++ map new (collect (entry v) rest)) (values-snoc os_ver v (new packs) m)
      ∙ append_assoc (values v m) (if text_eq os_ver v then new packs ∷ [] else [])
          (map new (collect (entry v) rest))
      ∙ ap (λ t. values v m ++ t) (add_one (text_eq os_ver v) packs (collect (entry v) rest))

-- the entries under one release, of the map of one definition
release_packs :
    (ps : List ReleasePackage) (v : Text)
    → collect (entry v) (packs_by_release ps [])
      ≡ to_list (nonempty_packs (collect (pack_for v) ps))
unfolding lookup
release_packs ps v =
    collect-Distinct v (packs_by_release ps []) (packs_by_release-Distinct ps [] tt)
    ∙ lookup_list (lookup v (packs_by_release ps []))
    ∙ ap to_list (
        packs_by_release-Filled ps [] (λ k. refl) v
        ∙ ap nonempty_packs (packs_by_release-values ps [] v))

unless-values :
    (b : Bool) (m n : Map (List Definition)) (v : Text) (o : Option Definition)
    → values v n ≡ values v m ++ to_list o
    → values v (if b then m else n) ≡ values v m ++ to_list (unless b o)
unless-values true m n v o h = sym (append-nil (values v m))
unless-values false m n v o h = h

-- A definition that is not skipped adds to the list of a release the definition with the packages
-- for the release, if there are any.
pub unless-add_releases :
    (b : Bool) (new : List Package → Definition) (ps : List ReleasePackage)
    (m : Map (List Definition)) (v : Text)
    → values v (if b then m else add_releases new (packs_by_release ps []) m)
      ≡ values v m ++ to_list (unless b (of_packs new (nonempty_packs (collect (pack_for v) ps))))
unless-add_releases b new ps m v =
    unless-values b m (add_releases new (packs_by_release ps []) m) v
      (of_packs new (nonempty_packs (collect (pack_for v) ps)))
      (add_releases-values new (packs_by_release ps []) m v
        ∙ ap (λ t. values v m ++ map new t) (release_packs ps v)
        ∙ ap (λ t. values v m ++ t) (of_packs-list new _))
