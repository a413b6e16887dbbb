-- ===== src/Db/Redis/Query/Laws.antt =====
-- What the queries return on a database that mirrors a list of definitions.
use goval_dictionary_v.Prelude.{
  ◌≡◌, refl, true, Option, none, some, List, [], ◌∷◌, arith, inl, inr, Bool-cases, All,
  if◌then◌else◌,
}
use goval_dictionary_v.Text.{Text, text_eq}
use goval_dictionary_v.Models.{Definition}
use goval_dictionary_v.Db.Redis.Server.{Codec, strip}
use goval_dictionary_v.Db.Redis.Keys.{Kind}
use goval_dictionary_v.Db.Redis.Insert.Spec.{covers, has_id, stored}
use goval_dictionary_v.Db.Redis.Query.{narrow}

-- The last of the definitions with an id.
abbrev pub latest : List Definition → Text → Option Definition → Option Definition
latest [] id o = o
latest (d ∷ ds) id o = latest ds id (if text_eq d.definition_id id then some d else o)

-- For each id in turn, the definition inserted last under it, without its database ids and
-- narrowed to the architecture or the major version.
abbrev pub Restores : Text → Text → Text → List Definition → List Text → List Definition → Type 0
Restores family os_ver arch ds [] [] = Unit
Restores family os_ver arch ds [] (r ∷ rs) = ⊥
Restores family os_ver arch ds (id ∷ ids) [] = ⊥
Restores family os_ver arch ds (id ∷ ids) (r ∷ rs) =
    ((d : Definition) × (latest ds id none ≡ some d) × (r ≡ narrow family os_ver arch (strip d)))
    × Restores family os_ver arch ds ids rs

-- Every definition can be encoded without loss.
abbrev pub Encodes : Codec → List Definition → Type 0
Encodes codec ds = All (λ d. codec.IsEncodable d × ((t : Text) × (codec.marshal d ≡ some t))) ds

module _ (codec : Codec) where
  -- What is stored under an id decodes to the latest definition with that id.
  abbrev pub Decodes : Option Text → Option Definition → Type 0
  Decodes none none = Unit
  Decodes none (some d) = ⊥
  Decodes (some t) none = ⊥
  Decodes (some t) (some d) = codec.unmarshal t ≡ some (strip d)

  pub stored-Decodes :
      (ds : List Definition) (id : Text) (o : Option Text) (q : Option Definition)
      → Encodes codec ds
      → Decodes o q
      → Decodes (stored codec ds id o) (latest ds id q)
  stored-Decodes [] id o q e h = h
  stored-Decodes (d ∷ ds) id o q e h = elim (Bool-cases (text_eq d.definition_id id)) [
    | inl y ↦ rw y (
        stored-Decodes ds id (codec.marshal d) (some d) e.1
          (rw e.0.1.1 (codec.unmarshal-marshal d e.0.1.0 e.0.0 e.0.1.1)))
    | inr n ↦ rw n (stored-Decodes ds id o q e.1 h)
  ]

  pub covers-has_id :
      (family : Text) (ds : List Definition) (id : Text) (k : Kind) (x : Text)
      → covers family ds id k x ≡ true
      → has_id ds id ≡ true
  covers-has_id family [] id k x h = cc
  covers-has_id family (d ∷ ds) id k x h = ground (arith, covers-has_id family ds id k x)

  latest-some :
      (ds : List Definition) (id : Text) (d : Definition)
      → (e : Definition) × (latest ds id (some d) ≡ some e)
  latest-some [] id d = (d, refl)
  latest-some (a ∷ ds) id d = elim (Bool-cases (text_eq a.definition_id id)) [
    | inl y ↦ rw y (latest-some ds id a)
    | inr n ↦ rw n (latest-some ds id d)
  ]

  pub latest-has_id :
      (ds : List Definition) (id : Text)
      → has_id ds id ≡ true
      → (e : Definition) × (latest ds id none ≡ some e)
  latest-has_id [] id h = cc
  latest-has_id (a ∷ ds) id h = elim (Bool-cases (text_eq a.definition_id id)) [
    | inl y ↦ rw y (latest-some ds id a)
    | inr n ↦ rw n (latest-has_id ds id (ground arith))
  ]

  pub Decodes-some :
      (o : Option Text) (d : Definition)
      → Decodes o (some d)
      → (t : Text) × (o ≡ some t) × (codec.unmarshal t ≡ some (strip d))
  Decodes-some none d h = absurd h
  Decodes-some (some t) d h = (t, refl, h)
