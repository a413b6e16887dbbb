-- ===== src/Db/Redis/Deps/Prune.antt =====
-- The clean-up behind a definition's loops takes no entry away.
use goval_dictionary_v.Prelude.{◌≡◌, refl, false, Option, none, some, [], ◌∷◌, arith, ◌∙◌}
use goval_dictionary_v.Text.{Text, text_eq}
use goval_dictionary_v.Text.Equality.{text_eq_iff}
use goval_dictionary_v.GoMap.{Map, is_some, lookup, lookup-insert, lookup-delete}
use goval_dictionary_v.Db.Redis.Keys.{Kind, cves, packages, kind_key, kind_key_eq}
use goval_dictionary_v.Db.Redis.Deps.{
  Deps, has, has_kind, present, drop_if_empty, without_empty, keep_unless_empty, prune_found,
  prune_deps,
}
use goval_dictionary_v.Db.Redis.Deps.Laws.{kind_of_same}

drop_if_empty_cases :
    (kind : Kind) (m : Map (Map (Unit {0}))) (k : Kind) (y : Text) (o : Option (Map (Unit {0})))
    → lookup (kind_key kind) m ≡ o
    → has_kind (some (drop_if_empty kind o m)) k y ≡ has_kind (some m) k y
unfolding drop_if_empty
drop_if_empty_cases kind m k y none e = refl
drop_if_empty_cases kind m k y (some (p ∷ s)) e = refl
drop_if_empty_cases kind m k y (some []) e =
    rw (lookup-delete (kind_key kind) (kind_key k) m, kind_key_eq kind k)
      (ground (arith, e, kind_of_same kind k, empty))
  where
    empty : is_some (lookup {V = Unit {0}} y []) ≡ false
    empty = unfold lookup in refl

has_kind-without_empty :
    (kind : Kind) (m : Map (Map (Unit {0}))) (k : Kind) (y : Text)
    → has_kind (some (without_empty kind m)) k y ≡ has_kind (some m) k y
unfolding without_empty
has_kind-without_empty kind m k y = drop_if_empty_cases kind m k y (lookup (kind_key kind) m) refl

module _ (id : Text) (d : Deps) where
  -- What is kept has the entries of what was there.
  has-keep :
      (j : Text) (k : Kind) (y : Text) (m t : Map (Map (Unit {0})))
      → lookup id d ≡ some m
      → has_kind (some t) k y ≡ has_kind (some m) k y
      → has (keep_unless_empty id t d) j k y ≡ has d j k y
  unfolding keep_unless_empty
  has-keep j k y m [] e h =
      rw (lookup-delete id j d) (ground (arith, e, h, text_eq_iff id j, empty))
    where
      empty : has_kind (some []) k y ≡ false
      empty = unfold lookup in refl
  has-keep j k y m (p ∷ ps) e h =
      rw (lookup-insert id j (p ∷ ps) d) (ground (arith, e, h, text_eq_iff id j))

  has-prune_found :
      (j : Text) (k : Kind) (y : Text) (o : Option (Map (Map (Unit {0}))))
      → lookup id d ≡ o
      → has (prune_found id o d) j k y ≡ has d j k y
  unfolding prune_found
  has-prune_found j k y none e = refl
  has-prune_found j k y (some m) e =
      has-keep j k y m (without_empty packages (without_empty cves m)) e (
        has_kind-without_empty packages (without_empty cves m) k y
        ∙ has_kind-without_empty cves m k y)

  pub has-prune : (j : Text) (k : Kind) (y : Text) → has (prune_deps id d) j k y ≡ has d j k y
  unfolding prune_deps
  has-prune j k y = has-prune_found j k y (lookup id d) refl

  present-keep :
      (j : Text) (t : Map (Map (Unit {0})))
      → text_eq id j ≡ false
      → present (keep_unless_empty id t d) j ≡ present d j
  unfolding keep_unless_empty
  present-keep j [] ne = rw (lookup-delete id j d, ne) refl
  present-keep j (p ∷ ps) ne = rw (lookup-insert id j (p ∷ ps) d, ne) refl

  present-prune_found :
      (j : Text) (o : Option (Map (Map (Unit {0}))))
      → text_eq id j ≡ false
      → present (prune_found id o d) j ≡ present d j
  unfolding prune_found
  present-prune_found j none ne = refl
  present-prune_found j (some m) ne =
      present-keep j (without_empty packages (without_empty cves m)) ne

  -- Other definitions are not touched.
  pub present-prune : (j : Text) → text_eq id j ≡ false → present (prune_deps id d) j ≡ present d j
  unfolding prune_deps
  present-prune j ne = present-prune_found j (lookup id d) ne
