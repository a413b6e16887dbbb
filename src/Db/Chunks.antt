-- ===== src/Db/Chunks.antt =====
-- chunkSlice of db/db.go: the index ranges of the batches, in the order in which the channel
-- delivers them.
pub mod Laws
use goval_dictionary_v.Prelude.{
  ℕ, zero, suc, ◌+◌, ◌-◌, ◌≤◌, ◌<◌, ◌≡◌, refl, List, [], ◌∷◌, ◌++◌, arith, length, take, drop, ltb,
  ◌||◌, if◌then◌else◌,
}
use goval_dictionary_v.Outcome.{Outcome, ok, err, panic, ◌>>=◌}

pub record IndexChunk : Type 0 where
  pub from : ℕ
  pub to : ℕ

-- The loop from `i`, on fuel. Every round moves on by `size`, so for `size` of 1 or more
-- `length` rounds are enough; with size 0 the loop of the source does not end.
chunk_loop : ℕ → ℕ → ℕ → ℕ → List IndexChunk
chunk_loop zero n size i = []
chunk_loop (suc fuel) n size i =
    let rest = chunk_loop fuel n size (i + size) in
    let to = if ltb n (i + size) then n else i + size in
    if ltb i n then record { from = i; to = to } ∷ rest else []

unfoldable pub chunk_slice : ℕ → ℕ → List IndexChunk
unfolding chunk_loop
chunk_slice n size = chunk_loop n n size 0

-- xs[from:to]. Beyond the length Go panics, or reads what the capacity holds; here it panics.
unfoldable pub slice {ℓ} : {A : Type ℓ} → List A → IndexChunk → Outcome (List A)
slice xs c =
    if ltb c.to c.from || ltb (length xs) c.to
    then panic
    else ok (take (c.to - c.from) (drop c.from xs))

-- `for idx := range chunkSlice(len(xs), size) { xs[idx.From:idx.To] }`
unfoldable pub slices {ℓ} : {A : Type ℓ} → List A → List IndexChunk → Outcome (List (List A))
slices xs [] = ok []
slices xs (c ∷ cs) = slice xs c >>= (λ b. slices xs cs >>= (λ bs. ok (b ∷ bs)))

abbrev pub batched {ℓ} : {A : Type ℓ} → Outcome (List (List A)) → List (List A)
batched (ok bs) = bs
batched (err e) = []
batched panic = []

-- The batches where no slice panics, for the callers, all of which have a size of 1 or more.
unfoldable pub batches {ℓ} : {A : Type ℓ} → List A → ℕ → List (List A)
batches xs size = batched (slices xs (chunk_slice (length xs) size))
