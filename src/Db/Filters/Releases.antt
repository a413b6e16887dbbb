-- ===== src/Db/Filters/Releases.antt =====
-- The filter that a Red Hat query applies, on the packages that the converter made.
use goval_dictionary_v.Prelude.{
  ◌≡◌, refl, Bool, true, List, [], ◌∷◌, Option, none, some, arith, All, inl, inr, Bool-cases,
}
use goval_dictionary_v.Text.{Text, text_eq}
use goval_dictionary_v.GoMap.{Map, lookup, insert, map_values}
use goval_dictionary_v.Models.{Package}
use goval_dictionary_v.Converters.Oval.{Criteria}
use goval_dictionary_v.Converters.Redhat.{
  is_for_release, pack_key, newer, newest_packs, walk_redhat, collect_redhat_packs,
}
use goval_dictionary_v.Db.Filters.{filter_by_redhat_major}

module _ (v : Text) where
  abbrev IsFor : Package → Type 0
  IsFor p = is_for_release v p ≡ true

  insert-IsFor :
      (k : Text) (p : Package) (m : Map Package)
      → IsFor p
      → All IsFor (map_values m)
      → All IsFor (map_values (insert k p m))
  unfolding insert map_values
  insert-IsFor k p [] h a = (h, tt)
  insert-IsFor k p ((j, q) ∷ m) h a = elim (Bool-cases (text_eq j k)) [
    | inl y ↦ rw y (h, a.1)
    | inr n ↦ rw n (a.0, insert-IsFor k p m h a.1)
  ]

  abbrev SomeIsFor : Option Package → Type 0
  SomeIsFor none = Unit
  SomeIsFor (some p) = IsFor p

  lookup-IsFor : (k : Text) (m : Map Package) → All IsFor (map_values m) → SomeIsFor (lookup k m)
  unfolding lookup map_values
  lookup-IsFor k [] a = tt
  lookup-IsFor k ((j, q) ∷ m) a = elim (Bool-cases (text_eq j k)) [
    | inl y ↦ rw y a.0
    | inr n ↦ rw n (lookup-IsFor k m a.1)
  ]

  module _ (greater_than : Text → Text → Bool) where
    newer-IsFor :
        (o : Option Package) (p : Package) → SomeIsFor o → IsFor p → IsFor (newer greater_than o p)
    unfolding newer
    newer-IsFor none p a h = h
    newer-IsFor (some b) p a h = elim (Bool-cases (greater_than b.version p.version)) [
      | inl y ↦ rw y a
      | inr n ↦ rw n h
    ]

    newest_packs-IsFor :
        (ps : List Package) (m : Map Package)
        → All IsFor (map_values m)
        → All IsFor (map_values (newest_packs greater_than v ps m))
    unfolding newest_packs
    newest_packs-IsFor [] m a = a
    newest_packs-IsFor (p ∷ ps) m a = elim (Bool-cases (is_for_release v p)) [
      | inl y ↦ rw y (
          newest_packs-IsFor ps _ (
            insert-IsFor (pack_key p) (newer greater_than (lookup (pack_key p) m) p) m
              (newer-IsFor (lookup (pack_key p) m) p (lookup-IsFor (pack_key p) m a) y) a))
      | inr n ↦ rw n (newest_packs-IsFor ps m a)
    ]

    filter-IsFor : (packs : List Package) → All IsFor packs → filter_by_redhat_major packs v ≡ packs
    unfolding filter_by_redhat_major is_for_release
    filter-IsFor [] a = refl
    filter-IsFor (p ∷ packs) a = ground (arith, a.0, filter-IsFor packs a.1)

    -- The packages that the converter collects for a release all pass the filter of a query for
    -- that release, so none is lost between the two.
    pub filter_by_redhat_major-collect_redhat_packs :
        (cri : Criteria)
        → filter_by_redhat_major (collect_redhat_packs greater_than v cri) v
          ≡ collect_redhat_packs greater_than v cri
    unfolding collect_redhat_packs map_values
    filter_by_redhat_major-collect_redhat_packs cri =
        filter-IsFor _ (newest_packs-IsFor (walk_redhat cri [] []) [] tt)
