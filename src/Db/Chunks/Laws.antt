-- ===== src/Db/Chunks/Laws.antt =====
-- The batches of chunkSlice cover the slice, each element once and in order.
use mathlib.Core.List.{flatten}
use goval_dictionary_v.Prelude.{
  ℕ, zero, suc, ◌+◌, ◌-◌, ◌≤◌, ◌<◌, ◌≡◌, refl, sym, ap, inl, inr, List, [], ◌∷◌, ◌++◌, append-nil,
  arith, length, take, drop, take-append-drop, length-drop, length-take, ltb, Bool-cases, All, ◌∙◌,
  true, false, ◌||◌, if◌then◌else◌,
}
use goval_dictionary_v.Outcome.{ok}
use goval_dictionary_v.Db.Chunks.{
  IndexChunk, chunk_loop, chunk_slice, slice, slices, batched, batches,
}

-- the indices of one batch are in order and not beyond the length
in_range :
    (i size n : ℕ)
    → ltb i n ≡ true
    → (ltb (if ltb n (i + size) then n else i + size) i
        || ltb n (if ltb n (i + size) then n else i + size))
      ≡ false
in_range i size n more = ground arith

module _ {ℓ} {A : Type ℓ} where
  -- the part of a list between two indices
  abbrev piece : List A → IndexChunk → List A
  piece xs c = take (c.to - c.from) (drop c.from xs)

  abbrev pieces : List A → List IndexChunk → List (List A)
  pieces xs [] = []
  pieces xs (c ∷ cs) = piece xs c ∷ pieces xs cs

  drop-nil : (m : ℕ) → drop {A = A} m [] ≡ []
  drop-nil zero = refl
  drop-nil (suc m) = refl

  drop-add : (i m : ℕ) (xs : List A) → drop (i + m) xs ≡ drop m (drop i xs)
  drop-add zero m xs = let e : 0 + m ≡ m = omega arith in rw e
  drop-add (suc i) m [] = let e : suc i + m ≡ suc (i + m) = omega arith in rw e (sym (drop-nil m))
  drop-add (suc i) m (x ∷ xs) =
      let e : suc i + m ≡ suc (i + m) = omega arith in rw e (drop-add i m xs)

  drop_all : (n : ℕ) (xs : List A) → length xs ≤ n → drop n xs ≡ []
  drop_all zero [] h = refl
  drop_all zero (x ∷ xs) h = absurd (omega arith)
  drop_all (suc n) [] h = refl
  drop_all (suc n) (x ∷ xs) h = drop_all n xs (omega arith)

  take_all : (n : ℕ) (xs : List A) → length xs ≤ n → take n xs ≡ xs
  take_all zero [] h = refl
  take_all zero (x ∷ xs) h = absurd (omega arith)
  take_all (suc n) [] h = refl
  take_all (suc n) (x ∷ xs) h = ap (λ t. x ∷ t) (take_all n xs (omega arith))

  -- One batch from `i`, and what comes behind it.
  batch-append :
      (size i : ℕ) (xs : List A)
      → piece xs
            (record { from = i; to = if ltb (length xs) (i + size) then length xs else i + size })
          ++ drop (i + size) xs
        ≡ drop i xs
  batch-append size i xs = elim (Bool-cases (ltb (length xs) (i + size))) [
    | inl over ↦
        let fits : length (drop i xs) ≤ length xs - i = omega (arith, length-drop i xs) in
        rw
          (
            over,
            take_all (length xs - i) (drop i xs) fits,
            drop_all (i + size) xs (ground (arith, over)),
            append-nil,
          )
          refl
    | inr within ↦
        let e : i + size - i ≡ size = omega arith in
        rw (within, e, drop-add i size xs) (take-append-drop size (drop i xs))
  ]

  concat_loop :
      (fuel size i : ℕ) (xs : List A)
      → 0 < size
      → length xs - i ≤ fuel
      → flatten (pieces xs (chunk_loop fuel (length xs) size i)) ≡ drop i xs
  unfolding chunk_loop flatten
  concat_loop zero size i xs pos h = sym (drop_all i xs (omega arith))
  concat_loop (suc fuel) size i xs pos h = elim (Bool-cases (ltb i (length xs))) [
    | inl more ↦
        rw (more, concat_loop fuel size (i + size) xs pos (ground arith)) (batch-append size i xs)
    | inr done ↦ rw done (sym (drop_all i xs (ground arith)))
  ]

  slice_in_range :
      (i size : ℕ) (xs : List A)
      → ltb i (length xs) ≡ true
      → slice xs
          (record { from = i; to = if ltb (length xs) (i + size) then length xs else i + size })
        ≡ ok (
            piece xs (record {
              from = i;
              to = if ltb (length xs) (i + size) then length xs else i + size;
            }))
  unfolding slice
  slice_in_range i size xs more = rw (in_range i size (length xs) more) refl

  slices_loop :
      (fuel size i : ℕ) (xs : List A)
      → slices xs (chunk_loop fuel (length xs) size i)
        ≡ ok (pieces xs (chunk_loop fuel (length xs) size i))
  unfolding chunk_loop slices
  slices_loop zero size i xs = refl
  slices_loop (suc fuel) size i xs = elim (Bool-cases (ltb i (length xs))) [
    | inl more ↦ rw (more, slice_in_range i size xs more, slices_loop fuel size (i + size) xs) refl
    | inr done ↦ rw done refl
  ]

  slices_chunks :
      (xs : List A) (size : ℕ)
      → slices xs (chunk_slice (length xs) size) ≡ ok (pieces xs (chunk_slice (length xs) size))
  unfolding chunk_slice
  slices_chunks xs size = slices_loop (length xs) size 0 xs

  batches-pieces :
      (xs : List A) (size : ℕ) → batches xs size ≡ pieces xs (chunk_slice (length xs) size)
  unfolding batches
  batches-pieces xs size = ap batched (slices_chunks xs size)

  pub flatten-batches : (xs : List A) (size : ℕ) → 0 < size → flatten (batches xs size) ≡ xs
  unfolding chunk_slice
  flatten-batches xs size pos =
      ap flatten (batches-pieces xs size) ∙ concat_loop (length xs) size 0 xs pos (omega arith)

  -- For a batch size of 1 or more, none of the slices between the indices that chunkSlice gives is
  -- out of range, and concatenating these batches gives the slice back: no element is lost,
  -- repeated or moved.
  pub batches_exact :
      (xs : List A) (size : ℕ)
      → 0 < size
      → (slices xs (chunk_slice (length xs) size) ≡ ok (batches xs size))
        × (flatten (batches xs size) ≡ xs)
  batches_exact xs size pos =
      (slices_chunks xs size ∙ ap ok (sym (batches-pieces xs size)), flatten-batches xs size pos)

  batch_size :
      (size i : ℕ) (xs : List A)
      → 0 < size
      → i < length xs
      → (0
          < length (
              piece xs (record {
                from = i;
                to = if ltb (length xs) (i + size) then length xs else i + size;
              })))
        × (length (
              piece xs (record {
                from = i;
                to = if ltb (length xs) (i + size) then length xs else i + size;
              }))
            ≤ size)
  batch_size size i xs pos more = elim (Bool-cases (ltb (length xs) (i + size))) [
    | inl over ↦
        rw over (ground (arith, over, length-take (length xs - i) (drop i xs), length-drop i xs))
    | inr within ↦
        rw within (ground (arith, within, length-take (i + size - i) (drop i xs), length-drop i xs))
  ]

  batch_sizes :
      (fuel size i : ℕ) (xs : List A)
      → 0 < size
      → All
          (λ b. (0 < length b) × (length b ≤ size))
          (pieces xs (chunk_loop fuel (length xs) size i))
  unfolding chunk_loop
  batch_sizes zero size i xs pos = tt
  batch_sizes (suc fuel) size i xs pos = elim (Bool-cases (ltb i (length xs))) [
    | inl more ↦
        rw more
          (batch_size size i xs pos (ground (arith, more)), batch_sizes fuel size (i + size) xs pos)
    | inr done ↦ rw done tt
  ]

  -- For a batch size of 1 or more, no batch is empty, and none is longer than the batch size.
  pub batches-All :
      (xs : List A) (size : ℕ)
      → 0 < size
      → All (λ b. (0 < length b) × (length b ≤ size)) (batches xs size)
  unfolding chunk_slice
  batches-All xs size pos = rw (batches-pieces xs size) (batch_sizes (length xs) size 0 xs pos)
