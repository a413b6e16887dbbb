-- ===== src/Db/Redis/Insert/Removals.antt =====
-- What the removal of stale entries does.
use goval_dictionary_v.Prelude.{
  ◌≡◌, refl, ap, ◌∙◌, Bool, true, false, not, ◌&&◌, Option, none, some, List, [], ◌∷◌, ◌++◌, arith,
  if◌then◌else◌,
}
use goval_dictionary_v.Text.{Text, text_eq}
use goval_dictionary_v.Text.Equality.{text_eq_refl, text_eq_iff}
use goval_dictionary_v.GoMap.{Map, elem, lookup, keys, elem-keys}
use goval_dictionary_v.Db.Redis.Server.{srem, hdel, member_after}
use goval_dictionary_v.Db.Redis.Keys.{
  Kind, cves, packages, kind_key, index_key, def_key, index_key_eq,
}
use goval_dictionary_v.Db.Redis.Deps.{Deps, has, has_kind, has_entry, present}
use goval_dictionary_v.Db.Redis.Insert.{entries_of, srems, removal, removals}
use goval_dictionary_v.Db.Redis.Insert.Spec.{member_after_all, field_after_all}
use goval_dictionary_v.Db.Redis.Insert.Entries.{
  entries, member_after_all-append, field_after_all-append,
}

entries_of_found :
    (o : Option (Map (Unit {0}))) (y : Text)
    → elem y (elim o [ none ↦ [] | some s ↦ keys s ]) ≡ has_entry o y
entries_of_found none y = unfold elem in refl
entries_of_found (some s) y = elem-keys y s

module _ (family os_ver : Text) where
  elem-entries_of :
      (kind : Kind) (m : Map (Map (Unit {0}))) (y : Text)
      → elem y (entries_of family os_ver kind m) ≡ has_kind (some m) kind y
  unfolding entries_of
  elem-entries_of kind m y = entries_of_found (lookup (kind_key kind) m) y

  srems-member :
      (id : Text) (kind : Kind) (xs : List Text) (j : Text) (k : Kind) (y : Text) (b : Bool)
      → member_after_all (srems family os_ver id kind xs) (index_key family os_ver k y) j b
        ≡ (b && not (entries id kind xs j k y))
  unfolding srems elem
  srems-member id kind [] j k y b = ground arith
  srems-member id kind (x ∷ xs) j k y b =
      srems-member id kind xs j k y
        (member_after (srem (index_key family os_ver kind x) id) (index_key family os_ver k y) j b)
      ∙ ground (arith, index_key_eq family os_ver kind k x y)

  srems-field :
      (id : Text) (kind : Kind) (xs : List Text) (f : Text) (o : Option Text)
      → field_after_all (srems family os_ver id kind xs) (def_key family os_ver) f o ≡ o
  unfolding srems
  srems-field id kind [] f o = refl
  srems-field id kind (x ∷ xs) f o = srems-field id kind xs f o

  -- `hdel` does not touch a set.
  last_part-member :
      (present_new : Bool) (id : Text) (key j : Text) (b : Bool)
      → member_after_all (if present_new then [] else hdel (def_key family os_ver) id ∷ []) key j b
        ≡ b
  last_part-member true id key j b = refl
  last_part-member false id key j b = refl

  last_part-field :
      (present_new : Bool) (id : Text) (f : Text) (o : Option Text)
      → field_after_all
          (if present_new then [] else hdel (def_key family os_ver) id ∷ [])
          (def_key family os_ver)
          f
          o
        ≡ (if text_eq id f && not present_new then none else o)
  last_part-field true id f o = ground arith
  last_part-field false id f o = rw (text_eq_refl (def_key family os_ver)) (ground arith)

  both_kinds :
      (id : Text) (m : Map (Map (Unit {0}))) (j : Text) (k : Kind) (y : Text) (b : Bool)
      → ((b && not (entries id cves (entries_of family os_ver cves m) j k y))
          && not (entries id packages (entries_of family os_ver packages m) j k y))
        ≡ (b && not (text_eq id j && has_kind (some m) k y))
  both_kinds id m j cves y b = ground (arith, elem-entries_of cves m y)
  both_kinds id m j packages y b = ground (arith, elem-entries_of packages m y)

  removal-member :
      (new : Deps) (id : Text) (m : Map (Map (Unit {0}))) (j : Text) (k : Kind) (y : Text)
      (b : Bool)
      → member_after_all (removal family os_ver new id (some m)) (index_key family os_ver k y) j b
        ≡ (b && not (text_eq id j && has_kind (some m) k y))
  unfolding removal
  removal-member new id m j k y b =
      let key = index_key family os_ver k y in
      let vs = srems family os_ver id cves (entries_of family os_ver cves m) in
      let ps = srems family os_ver id packages (entries_of family os_ver packages m) in
      let last = if present new id then [] else hdel (def_key family os_ver) id ∷ [] in
      member_after_all-append vs (ps ++ last) key j b
      ∙ member_after_all-append ps last key j (member_after_all vs key j b)
      ∙ last_part-member (present new id) id key j
          (member_after_all ps key j (member_after_all vs key j b))
      ∙ srems-member id packages (entries_of family os_ver packages m) j k y
          (member_after_all vs key j b)
      ∙ ap (λ t. t && not (entries id packages (entries_of family os_ver packages m) j k y))
          (srems-member id cves (entries_of family os_ver cves m) j k y b)
      ∙ both_kinds id m j k y b

  removal-field :
      (new : Deps) (id : Text) (m : Map (Map (Unit {0}))) (f : Text) (o : Option Text)
      → field_after_all (removal family os_ver new id (some m)) (def_key family os_ver) f o
        ≡ (if text_eq id f && not (present new id) then none else o)
  unfolding removal
  removal-field new id m f o =
      let key = def_key family os_ver in
      let vs = srems family os_ver id cves (entries_of family os_ver cves m) in
      let ps = srems family os_ver id packages (entries_of family os_ver packages m) in
      let last = if present new id then [] else hdel key id ∷ [] in
      field_after_all-append vs (ps ++ last) key f o
      ∙ field_after_all-append ps last key f (field_after_all vs key f o)
      ∙ last_part-field (present new id) id f
          (field_after_all ps key f (field_after_all vs key f o))
      ∙ ap (λ t. if text_eq id f && not (present new id) then none else t)
          (srems-field id packages (entries_of family os_ver packages m) f
              (field_after_all vs key f o)
            ∙ srems-field id cves (entries_of family os_ver cves m) f o)

  -- One definition's removals, found or not.
  found-member :
      (new old : Deps) (id : Text) (q : Option (Map (Map (Unit {0})))) (j : Text) (k : Kind)
      (y : Text) (b : Bool)
      → lookup id old ≡ q
      → member_after_all (removal family os_ver new id q) (index_key family os_ver k y) j b
        ≡ (b && not (text_eq id j && has old j k y))
  found-member new old id none j k y b e = unfold removal in ground (arith, e, text_eq_iff id j)
  found-member new old id (some m) j k y b e =
      removal-member new id m j k y b ∙ ground (arith, e, text_eq_iff id j)

  found-field :
      (new old : Deps) (id : Text) (q : Option (Map (Map (Unit {0})))) (f : Text) (o : Option Text)
      → lookup id old ≡ q
      → field_after_all (removal family os_ver new id q) (def_key family os_ver) f o
        ≡ (if text_eq id f && (present old f && not (present new f)) then none else o)
  found-field new old id none f o e = unfold removal in ground (arith, e, text_eq_iff id f)
  found-field new old id (some m) f o e =
      removal-field new id m f o ∙ ground (arith, e, text_eq_iff id f)

  removals_of-member :
      (new old : Deps) (ids : List Text) (j : Text) (k : Kind) (y : Text) (b : Bool)
      → member_after_all (removals family os_ver new old ids) (index_key family os_ver k y) j b
        ≡ (b && not (elem j ids && has old j k y))
  unfolding removals elem
  removals_of-member new old [] j k y b = ground arith
  removals_of-member new old (id ∷ ids) j k y b =
      let key = index_key family os_ver k y in
      let one = removal family os_ver new id (lookup id old) in
      member_after_all-append one (removals family os_ver new old ids) key j b
      ∙ removals_of-member new old ids j k y (member_after_all one key j b)
      ∙ ground (arith, found-member new old id (lookup id old) j k y b refl)

  removals_of-field :
      (new old : Deps) (ids : List Text) (f : Text) (o : Option Text)
      → field_after_all (removals family os_ver new old ids) (def_key family os_ver) f o
        ≡ (if elem f ids && (present old f && not (present new f)) then none else o)
  unfolding removals elem
  removals_of-field new old [] f o = ground arith
  removals_of-field new old (id ∷ ids) f o =
      let key = def_key family os_ver in
      let one = removal family os_ver new id (lookup id old) in
      field_after_all-append one (removals family os_ver new old ids) key f o
      ∙ removals_of-field new old ids f (field_after_all one key f o)
      ∙ ground (arith, found-field new old id (lookup id old) f o refl)

  -- Exactly the entries that oldDeps still holds go.
  pub removals-member :
      (new old : Deps) (j : Text) (k : Kind) (y : Text) (b : Bool)
      → member_after_all
          (removals family os_ver new old (keys old))
          (index_key family os_ver k y)
          j
          b
        ≡ (b && not (has old j k y))
  removals-member new old j k y b =
      removals_of-member new old (keys old) j k y b ∙ ground (arith, elem-keys j old)

  -- Exactly the definitions that oldDeps still holds and newDeps does not hold go.
  pub removals-field :
      (new old : Deps) (f : Text) (o : Option Text)
      → field_after_all (removals family os_ver new old (keys old)) (def_key family os_ver) f o
        ≡ (if present old f && not (present new f) then none else o)
  removals-field new old f o =
      removals_of-field new old (keys old) f o ∙ ground (arith, elem-keys f old)
