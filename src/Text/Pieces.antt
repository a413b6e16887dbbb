-- ===== src/Text/Pieces.antt =====
-- Splitting at a separator of one byte.
use goval_dictionary_v.Prelude.{
  ℕ, zero, ◌≡◌, refl, ◌≢◌, inl, inr, List, [], ◌∷◌, ◌++◌, arith, ◌==◌, Bool-cases, All,
}
use goval_dictionary_v.Text.{Text, push, pieces, split}

abbrev pub Lacks : ℕ → Text → Type 0
Lacks d = All (λ c. c ≢ d)

module _ (d : ℕ) where
  pieces_at_sep : (s : Text) → pieces (d ∷ []) (d ∷ s) zero ≡ [] ∷ pieces (d ∷ []) s zero
  unfolding pieces
  pieces_at_sep s = ground arith

  pieces_at_other :
      (c : ℕ) (s : Text) → c ≢ d → pieces (d ∷ []) (c ∷ s) zero ≡ push c (pieces (d ∷ []) s zero)
  unfolding pieces
  pieces_at_other c s h = ground arith

  -- A text without the separator is one piece.
  pub split-Lacks : (s : Text) → Lacks d s → split s (d ∷ []) ≡ s ∷ []
  unfolding split
  split-Lacks [] h = unfold pieces in refl
  split-Lacks (c ∷ s) h = rw (pieces_at_other c s h.0, split-Lacks s h.1)

  pub split-at_first : (p s : Text) → Lacks d p → split (p ++ d ∷ s) (d ∷ []) ≡ p ∷ split s (d ∷ [])
  unfolding split
  split-at_first [] s h = pieces_at_sep s
  split-at_first (c ∷ p) s h = rw (pieces_at_other c (p ++ d ∷ s) h.0, split-at_first p s h.1)

  push-Lacks : (c : ℕ) (ps : List Text) → c ≢ d → All (Lacks d) ps → All (Lacks d) (push c ps)
  push-Lacks c [] h _ = ((h, tt), tt)
  push-Lacks c (p ∷ ps) h k = ((h, k.0), k.1)

  -- No piece holds the separator.
  pub split-All : (s : Text) → All (Lacks d) (split s (d ∷ []))
  unfolding split
  split-All [] = unfold pieces in (tt, tt)
  split-All (c ∷ s) = elim (Bool-cases (c == d)) [
    | inl e ↦ let q : c ≡ d = ground arith in rw (q, pieces_at_sep s) (tt, split-All s)
    | inr e ↦
        let q : c ≢ d = ground arith in
        rw (pieces_at_other c s q) (push-Lacks c (split s (d ∷ [])) q (split-All s))
  ]

  push-ne-nil : (c : ℕ) (ps : List Text) → push c ps ≢ []
  push-ne-nil c [] = cc
  push-ne-nil c (p ∷ ps) = cc

  pub split-ne-nil : (s : Text) → split s (d ∷ []) ≢ []
  unfolding split
  split-ne-nil [] = unfold pieces in (cc)
  split-ne-nil (c ∷ s) = elim (Bool-cases (c == d)) [
    | inl e ↦ let q : c ≡ d = ground arith in rw (q, pieces_at_sep s) (cc)
    | inr e ↦
        let q : c ≢ d = ground arith in
        rw (pieces_at_other c s q) (push-ne-nil c (pieces (d ∷ []) s zero))
  ]
