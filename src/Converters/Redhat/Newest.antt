-- ===== src/Converters/Redhat/Newest.antt =====
-- The choice of the newest version of a package.
use goval_dictionary_v.Prelude.{
  ◌≡◌, refl, ap, subst, sym, ◌∙◌, Bool, true, false, ◌&&◌, List, [], ◌∷◌, Option, none, some, arith,
  inl, inr, Bool-cases, ◌++◌, append_assoc, if◌then◌else◌,
}
use goval_dictionary_v.Text.{Text, text_eq}
use goval_dictionary_v.Text.Equality.{text_eq_refl, eq_of_text_eq}
use goval_dictionary_v.GoMap.{Map, lookup, insert, lookup-insert}
use goval_dictionary_v.Models.{Package}
use goval_dictionary_v.Converters.Redhat.{is_for_release, pack_key, newer, newest_packs}

-- What go-rpm-version promises of GreaterThan: no version is newer than itself, and "not newer" can
-- be chained.
pub record IsOrder (greater_than : Text → Text → Bool) : Type 0 where
  pub irreflexive : (a : Text) → greater_than a a ≡ false
  pub chained :
      (a b c : Text)
      → greater_than a b ≡ false
      → greater_than b c ≡ false
      → greater_than a c ≡ false
  pub asymmetric : (a b : Text) → greater_than a b ≡ true → greater_than b a ≡ false

module _ (greater_than : Text → Text → Bool) where
  -- Whether a package is a candidate for a key.
  abbrev pub is_candidate : Text → Text → Package → Bool
  is_candidate v n p = is_for_release v p && text_eq (pack_key p) n

  -- The newest of the candidates for one key, the later one where neither is newer.
  unfoldable pub newest : Text → Text → List Package → Option Package → Option Package
  newest v n [] o = o
  newest v n (p ∷ ps) o =
      newest v n ps (if is_candidate v n p then some (newer greater_than o p) else o)

  newest_step :
      (v n : Text) (p : Package) (m : Map Package)
      → lookup n (
          if is_for_release v p
          then insert (pack_key p) (newer greater_than (lookup (pack_key p) m) p) m
          else m)
        ≡ (if is_candidate v n p then some (newer greater_than (lookup n m) p) else lookup n m)
  newest_step v n p m = elim (Bool-cases (is_for_release v p)) [
    | inr x ↦ rw x refl
    | inl x ↦ elim (Bool-cases (text_eq (pack_key p) n)) [
      | inl y ↦
          rw
            (
              x,
              y,
              sym (eq_of_text_eq (pack_key p) n y),
              lookup-insert (pack_key p) (pack_key p) (newer greater_than (lookup (pack_key p) m) p)
                  m,
              text_eq_refl (pack_key p),
            )
            refl
      | inr y ↦
          rw (x, lookup-insert (pack_key p) n (newer greater_than (lookup (pack_key p) m) p) m, y)
            refl
    ]
  ]

  newest_packs-lookup :
      (v n : Text) (ps : List Package) (m : Map Package)
      → lookup n (newest_packs greater_than v ps m) ≡ newest v n ps (lookup n m)
  unfolding newest_packs newest
  newest_packs-lookup v n [] m = refl
  newest_packs-lookup v n (p ∷ ps) m =
      newest_packs-lookup v n ps _ ∙ ap (newest v n ps) (newest_step v n p m)

  newest-candidate :
      (v n : Text) (p : Package) (ps : List Package) (o : Option Package)
      → is_candidate v n p ≡ true
      → newest v n (p ∷ ps) o ≡ newest v n ps (some (newer greater_than o p))
  unfolding newest
  newest-candidate v n p ps o h =
      ap (λ b. newest v n ps (if b then some (newer greater_than o p) else o)) h

  module _ (order : IsOrder greater_than) where
    -- What is chosen is not older than anything seen.
    abbrev NotOlder : Option Package → Package → Type 0
    NotOlder none p = ⊥
    NotOlder (some q) p = greater_than p.version q.version ≡ false

    newer-NotOlder :
        (o : Option Package) (p q : Package)
        → NotOlder o q
        → NotOlder (some (newer greater_than o p)) q
    unfolding newer
    newer-NotOlder none p q h = absurd h
    newer-NotOlder (some b) p q h = elim (Bool-cases (greater_than b.version p.version)) [
      | inl y ↦ rw y h
      | inr n ↦ rw n (order.chained q.version b.version p.version h n)
    ]

    newer_self : (o : Option Package) (p : Package) → NotOlder (some (newer greater_than o p)) p
    unfolding newer
    newer_self none p = order.irreflexive p.version
    newer_self (some b) p = elim (Bool-cases (greater_than b.version p.version)) [
      | inl y ↦ rw y (order.asymmetric b.version p.version y)
      | inr n ↦ rw n (order.irreflexive p.version)
    ]

    newest-keeps :
        (v n : Text) (ps : List Package) (o : Option Package) (q : Package)
        → NotOlder o q
        → NotOlder (newest v n ps o) q
    unfolding newest
    newest-keeps v n [] o q h = h
    newest-keeps v n (p ∷ ps) o q h = elim (Bool-cases (is_candidate v n p)) [
      | inl y ↦
          rw y (newest-keeps v n ps (some (newer greater_than o p)) q (newer-NotOlder o p q h))
      | inr x ↦ rw x (newest-keeps v n ps o q h)
    ]

    NotOlder-some :
        (o : Option Package) (p : Package)
        → NotOlder o p
        → (q : Package) × (o ≡ some q) × (greater_than p.version q.version ≡ false)
    NotOlder-some none p h = absurd h
    NotOlder-some (some q) p h = (q, refl, h)

    newest-split :
        (v n : Text) (xs ys : List Package) (p : Package) (o : Option Package)
        → is_candidate v n p ≡ true
        → NotOlder (newest v n (xs ++ (p ∷ ys)) o) p
    unfolding newest
    newest-split v n [] ys p o h =
        subst (λ r. NotOlder r p) (sym (newest-candidate v n p ys o h))
          (newest-keeps v n ys (some (newer greater_than o p)) p (newer_self o p))
    newest-split v n (x ∷ xs) ys p o h = newest-split v n xs ys p _ h

  -- what is chosen is one of the candidates
  abbrev pub Among : Text → Text → List Package → Option Package → Type 0
  Among v n ps none = Unit
  Among v n ps (some q) =
      (xs ys : List Package) × (ps ≡ xs ++ (q ∷ ys)) × (is_candidate v n q ≡ true)

  newer-Among :
      (v n : Text) (ps xs ys : List Package) (p : Package) (o : Option Package)
      → ps ≡ xs ++ (p ∷ ys)
      → is_candidate v n p ≡ true
      → Among v n ps o
      → Among v n ps (some (newer greater_than o p))
  unfolding newer
  newer-Among v n ps xs ys p none e c h = (xs, ys, e, c)
  newer-Among v n ps xs ys p (some b) e c h = elim (Bool-cases (greater_than b.version p.version)) [
    | inl y ↦ rw y h
    | inr x ↦ rw x (xs, ys, e, c)
  ]

  newest-Among :
      (v n : Text) (all xs ps : List Package) (o : Option Package)
      → all ≡ xs ++ ps
      → Among v n all o
      → Among v n all (newest v n ps o)
  unfolding newest
  newest-Among v n all xs [] o e h = h
  newest-Among v n all xs (p ∷ ps) o e h =
      let next : all ≡ (xs ++ (p ∷ [])) ++ ps = e ∙ sym (append_assoc xs (p ∷ []) ps) in
      elim (Bool-cases (is_candidate v n p)) [
        | inl y ↦ rw y (
            newest-Among v n all (xs ++ (p ∷ [])) ps (some (newer greater_than o p)) next
              (newer-Among v n all xs ps p o e y h))
        | inr x ↦ rw x (newest-Among v n all (xs ++ (p ∷ [])) ps o next h)
      ]

  -- For every package of the list that is for the release, the map has under its key a package
  -- that is not older than it; that one is a package of the list too, for the same release and
  -- with the same key. GreaterThan is assumed to be an order of versions.
  pub newest_packs-newest :
      (v : Text) (xs ys : List Package) (p : Package)
      → IsOrder greater_than
      → is_for_release v p ≡ true
      → (q : Package) × (lookup (pack_key p) (newest_packs greater_than v (xs ++ (p ∷ ys)) [])
          ≡ some q)
        × (greater_than p.version q.version ≡ false)
        × Among v (pack_key p) (xs ++ (p ∷ ys)) (some q)
  unfolding lookup
  newest_packs-newest v xs ys p order h =
      let ps = xs ++ (p ∷ ys) in
      let n = pack_key p in
      let c : is_candidate v n p ≡ true = ground (arith, text_eq_refl n) in
      let (q, e, newer_eq) =
        NotOlder-some order (newest v n ps none) p (newest-split order v n xs ys p none c) in
      (
        q,
        newest_packs-lookup v n ps [] ∙ e,
        newer_eq,
        rw e at (newest-Among v n ps [] ps none refl tt),
      )
