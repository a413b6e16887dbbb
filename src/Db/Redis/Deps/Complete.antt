-- ===== src/Db/Redis/Deps/Complete.antt =====
-- In newDeps every definition that is present has both maps, so adding an entry adds it.
use goval_dictionary_v.Prelude.{
  ◌≡◌, refl, true, false, ◌||◌, none, some, [], ◌∷◌, arith, inl, inr, Option-cases, Bool-cases,
}
use goval_dictionary_v.Text.{Text, codes, text_eq}
use goval_dictionary_v.Text.Equality.{text_eq_iff}
use goval_dictionary_v.GoMap.{Map, lookup, insert, lookup-insert}
use goval_dictionary_v.Db.Redis.Keys.{Kind, cves, packages, kind_key, same_kind, kind_key_eq}
use goval_dictionary_v.Db.Redis.Deps.{Deps, has, has_kind, present, open_deps, add_dep}
use goval_dictionary_v.Db.Redis.Deps.Laws.{same_entry, has-add, add_dep_at}

abbrev HasBoth : Map (Map (Unit {0})) → Type 0
HasBoth m = (kind : Kind) → (s : Map (Unit {0})) × (lookup (kind_key kind) m ≡ some s)

pub record IsComplete (d : Deps) : Type 0 where
  pub both : (id : Text) (m : Map (Map (Unit {0}))) → lookup id d ≡ some m → HasBoth m

pub IsComplete-nil : IsComplete []
IsComplete-nil = record { both = λ id m e. unfold lookup in cc }

two_maps : Map (Map (Unit {0}))
two_maps = (codes "cves", []) ∷ (codes "packages", []) ∷ []

HasBoth-two : HasBoth two_maps
unfolding two_maps lookup text_eq
HasBoth-two cves = ([], refl)
HasBoth-two packages = ([], refl)

has-two : (k : Kind) (y : Text) → has_kind (some two_maps) k y ≡ false
unfolding two_maps lookup text_eq
has-two cves y = refl
has-two packages y = refl

HasBoth-insert :
    (kind : Kind) (s : Map (Unit {0})) (m : Map (Map (Unit {0})))
    → HasBoth m
    → HasBoth (insert (kind_key kind) s m)
HasBoth-insert kind s m h k = elim (Bool-cases (same_kind kind k)) [
  | inl e ↦ (s, rw (lookup-insert (kind_key kind) (kind_key k) s m, kind_key_eq kind k, e))
  | inr e ↦
      ((h k).0, rw (lookup-insert (kind_key kind) (kind_key k) s m, kind_key_eq kind k, e) (h k).1)
]

-- Putting back a map that has both keeps the map of definitions complete.
insert-IsComplete :
    (id : Text) (m : Map (Map (Unit {0}))) (d : Deps)
    → IsComplete d
    → HasBoth m
    → IsComplete (insert id m d)
insert-IsComplete id m d c h = record {
  both = λ j n e. elim (Bool-cases (text_eq id j)) [
    | inl q ↦ let r : m ≡ n = ground (arith, lookup-insert id j m d, e, q) in rw r at h
    | inr q ↦ c.both j n (ground (arith, lookup-insert id j m d, e, q))
  ];
}

module _ (id : Text) (d : Deps) where
  open_absent : lookup id d ≡ none → open_deps id d ≡ insert id two_maps d
  unfolding open_deps two_maps
  open_absent e = ground arith

  open_there : (m : Map (Map (Unit {0}))) → lookup id d ≡ some m → open_deps id d ≡ d
  unfolding open_deps
  open_there m e = ground arith

  pub present-open : (j : Text) → present (open_deps id d) j ≡ (text_eq id j || present d j)
  present-open j = elim (Option-cases (lookup id d)) [
    | inl e ↦ rw (open_absent e, lookup-insert id j two_maps d) (ground arith)
    | inr (m, e) ↦ rw (open_there m e) (ground (arith, e, text_eq_iff id j))
  ]

  pub has-open : (j : Text) (k : Kind) (y : Text) → has (open_deps id d) j k y ≡ has d j k y
  has-open j k y = elim (Option-cases (lookup id d)) [
    | inl e ↦
        rw (open_absent e, lookup-insert id j two_maps d)
          (ground (arith, e, text_eq_iff id j, has-two k y))
    | inr (m, e) ↦ rw (open_there m e)
  ]

  pub open-IsComplete : IsComplete d → IsComplete (open_deps id d)
  open-IsComplete c = elim (Option-cases (lookup id d)) [
    | inl e ↦ rw (open_absent e) (insert-IsComplete id two_maps d c HasBoth-two)
    | inr (m, e) ↦ rw (open_there m e) c
  ]

module _ (id : Text) (kind : Kind) (x : Text) (d : Deps) (c : IsComplete d)
    (p : present d id ≡ true) where
  there : (m : Map (Map (Unit {0}))) × (lookup id d ≡ some m)
  there = elim (Option-cases (lookup id d)) [ inl e ↦ cc | inr q ↦ q ]

  pub has-add_complete :
      (j : Text) (k : Kind) (y : Text)
      → has (add_dep id kind x d) j k y ≡ (same_entry id kind x j k y || has d j k y)
  has-add_complete j k y =
      let (m, e) = there in let (s, n) = c.both id m e kind in has-add id kind x d j k y m s e n

  pub present-add : (j : Text) → present (add_dep id kind x d) j ≡ present d j
  present-add j =
      let (m, e) = there in
      let (s, n) = c.both id m e kind in
      rw
        (
          add_dep_at id kind x d m s e n,
          lookup-insert id j (insert (kind_key kind) (insert x tt s) m) d,
        )
        (ground (arith, e, text_eq_iff id j))

  pub add-IsComplete : IsComplete (add_dep id kind x d)
  add-IsComplete =
      let (m, e) = there in
      let (s, n) = c.both id m e kind in
      rw (add_dep_at id kind x d m s e n) (
        insert-IsComplete id (insert (kind_key kind) (insert x tt s) m) d c
          (HasBoth-insert kind (insert x tt s) m (c.both id m e)))
