-- ===== src/GoMap.antt =====
-- Go's maps with text keys, as association lists. A `range` visits the keys and looks each one up.
use goval_dictionary_v.Prelude.{
  ◌≡◌, refl, Bool, true, false, ◌||◌, Option, none, some, List, [], ◌∷◌, arith, if◌then◌else◌, inl,
  inr, Bool-cases, collect,
}
use goval_dictionary_v.Text.{Text, text_eq}
use goval_dictionary_v.Text.Equality.{text_eq_iff, eq_of_text_eq, text_eq_sym}

abbrev pub Map {ℓ} : Type ℓ → Type ℓ
Map V = List (Text × V)

abbrev pub is_some {ℓ} : {A : Type ℓ} → Option A → Bool
is_some none = false
is_some (some a) = true

module _ {ℓ} {V : Type ℓ} where
  unfoldable pub lookup : Text → Map V → Option V
  lookup k [] = none
  lookup k ((j, v) ∷ m) = if text_eq j k then some v else lookup k m

  -- m[k] = v
  unfoldable pub insert : Text → V → Map V → Map V
  insert k v [] = (k, v) ∷ []
  insert k v ((j, w) ∷ m) = if text_eq j k then (k, v) ∷ m else (j, w) ∷ insert k v m

  -- delete(m, k)
  unfoldable pub delete : Text → Map V → Map V
  delete k [] = []
  delete k ((j, v) ∷ m) = let rest = delete k m in if text_eq j k then rest else (j, v) ∷ rest

  unfoldable pub keys : Map V → List Text
  keys [] = []
  keys ((j, v) ∷ m) = j ∷ keys m

  pub lookup-insert :
      (k j : Text) (v : V) (m : Map V)
      → lookup j (insert k v m) ≡ (if text_eq k j then some v else lookup j m)
  unfolding lookup insert
  lookup-insert k j v [] = refl
  lookup-insert k j v ((i, w) ∷ m) =
      ground (arith, text_eq_iff k j, text_eq_iff i k, text_eq_iff i j, lookup-insert k j v m)

  pub lookup-delete :
      (k j : Text) (m : Map V) → lookup j (delete k m) ≡ (if text_eq k j then none else lookup j m)
  unfolding lookup delete
  lookup-delete k j [] = ground arith
  lookup-delete k j ((i, v) ∷ m) =
      ground (arith, text_eq_iff k j, text_eq_iff i k, text_eq_iff i j, lookup-delete k j m)

-- Whether a list of texts holds a text.
unfoldable pub elem : Text → List Text → Bool
elem k [] = false
elem k (j ∷ ks) = text_eq j k || elem k ks

pub elem-keys {ℓ} : {V : Type ℓ} (k : Text) (m : Map V) → elem k (keys m) ≡ is_some (lookup k m)
unfolding elem keys lookup
elem-keys k [] = refl
elem-keys k ((j, v) ∷ m) = ground (arith, elem-keys k m)

module _ {ℓ} {V : Type ℓ} where
  -- m[k] of a map to slices, which is the empty slice where there is no entry
  abbrev pub values : Text → Map (List V) → List V
  values k m = elim (lookup k m) [ none ↦ [] | some vs ↦ vs ]

module _ {ℓ} {V : Type ℓ} where
  -- No key has two entries.
  abbrev pub Distinct : Map V → Type ℓ
  Distinct [] = Unit
  Distinct ((k, v) ∷ m) = (lookup k m ≡ none) × Distinct m

  -- The values of all the entries of a key.
  abbrev pub entry : Text → Text × V → Option V
  entry k p = if text_eq p.0 k then some p.1 else none

  pub insert-Distinct : (k : Text) (v : V) (m : Map V) → Distinct m → Distinct (insert k v m)
  unfolding insert lookup
  insert-Distinct k v [] h = (refl, tt)
  insert-Distinct k v ((j, w) ∷ m) h = elim (Bool-cases (text_eq j k)) [
    | inl y ↦ rw y ((rw (eq_of_text_eq j k y) at h.0), h.1)
    | inr n ↦
        rw n
          ((ground (arith, h.0, lookup-insert k j v m, text_eq_sym j k)), insert-Distinct k v m h.1)
  ]

  pub collect-Distinct :
      (k : Text) (m : Map V)
      → Distinct m
      → collect (entry k) m ≡ elim (lookup k m) [ none ↦ [] | some v ↦ v ∷ [] ]
  unfolding lookup
  collect-Distinct k [] h = refl
  collect-Distinct k ((j, v) ∷ m) h = elim (Bool-cases (text_eq j k)) [
    | inl y ↦
        let absent : lookup k m ≡ none = rw (eq_of_text_eq j k y) at h.0 in
        ground (arith, absent, collect-Distinct k m h.1)
    | inr n ↦ ground (arith, collect-Distinct k m h.1)
  ]

module _ {ℓ} {V : Type ℓ} where
  -- maps.Values
  unfoldable pub map_values : Map V → List V
  map_values [] = []
  map_values ((k, v) ∷ m) = v ∷ map_values m
