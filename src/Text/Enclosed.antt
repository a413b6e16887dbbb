-- ===== src/Text/Enclosed.antt =====
-- Texts put together from a prefix, a suffix or a separator, as Go's functions take them apart.
use mathlib.Core.List.{reverse, reverse-append}
use goval_dictionary_v.Prelude.{
  ℕ, zero, ◌-◌, ◌≡◌, ◌≢◌, refl, sym, ◌∙◌, ap, true, false, [], ◌∷◌, ◌++◌, append_assoc, arith,
  length, take, length-append, take-append,
}
use goval_dictionary_v.Text.{
  Text, has_prefix, has_suffix, contains, trim_prefix, trim_suffix, pieces, push, split,
}
use goval_dictionary_v.Text.Equality.{has_prefix-append, trim_prefix-append}
use goval_dictionary_v.Text.Pieces.{Lacks}

pub has_suffix-append : (l s : Text) → has_suffix (l ++ s) s ≡ true
unfolding has_suffix
has_suffix-append l s = rw (reverse-append l s) (has_prefix-append (reverse s) (reverse l))

take_all_but : (l s : Text) → take (length (l ++ s) - length s) (l ++ s) ≡ l
take_all_but l s =
    let e : length (l ++ s) - length s ≡ length l = omega (arith, length-append l s) in
    rw e (take-append l s)

pub trim_suffix-append : (l s : Text) → trim_suffix (l ++ s) s ≡ l
unfolding trim_suffix
trim_suffix-append l s = rw (has_suffix-append l s) (take_all_but l s)

-- what stands between a prefix and a suffix
pub has_suffix-enclosed : (p l s : Text) → has_suffix (p ++ (l ++ s)) s ≡ true
has_suffix-enclosed p l s = rw (sym (append_assoc p l s)) (has_suffix-append (p ++ l) s)

pub trim-enclosed : (p l s : Text) → trim_suffix (trim_prefix (p ++ (l ++ s)) p) s ≡ l
trim-enclosed p l s = rw (trim_prefix-append p (l ++ s)) (trim_suffix-append l s)

module _ (d : ℕ) (sep : Text) where
  pieces_other :
      (c : ℕ) (s : Text)
      → has_prefix (c ∷ s) (d ∷ sep) ≡ false
      → pieces (d ∷ sep) (c ∷ s) zero ≡ push c (pieces (d ∷ sep) s zero)
  unfolding pieces
  pieces_other c s h = ground arith

  pieces_sep :
      (s : Text)
      → has_prefix (d ∷ s) (d ∷ sep) ≡ true
      → pieces (d ∷ sep) (d ∷ s) zero ≡ [] ∷ pieces (d ∷ sep) s (length sep)
  unfolding pieces
  pieces_sep s h = let e : length (d ∷ sep) - 1 ≡ length sep = omega arith in ground (arith, e)

  pieces_skip : (xs v : Text) → pieces (d ∷ sep) (xs ++ v) (length xs) ≡ pieces (d ∷ sep) v zero
  unfolding pieces
  pieces_skip [] v = refl
  pieces_skip (x ∷ xs) v = pieces_skip xs v

  contains_head :
      (c : ℕ) (s : Text)
      → contains (c ∷ s) (d ∷ sep) ≡ false
      → (has_prefix (c ∷ s) (d ∷ sep) ≡ false) × (contains s (d ∷ sep) ≡ false)
  unfolding contains
  contains_head c s h = ground arith

  pieces_end : pieces (d ∷ sep) [] zero ≡ [] ∷ []
  unfolding pieces
  pieces_end = refl

  -- A text that does not contain the separator is one piece.
  pub split-without : (s : Text) → contains s (d ∷ sep) ≡ false → split s (d ∷ sep) ≡ s ∷ []
  unfolding split
  split-without [] h = pieces_end
  split-without (c ∷ s) h =
      let k = contains_head c s h in rw (pieces_other c s k.0, split-without s k.1) refl

  pub contains-Lacks : (s : Text) → Lacks d s → contains s (d ∷ sep) ≡ false
  unfolding contains has_prefix
  contains-Lacks [] h = refl
  contains-Lacks (c ∷ s) h = ground (arith, contains-Lacks s h.1, h.0)

  not_here : (c : ℕ) (s : Text) → c ≢ d → has_prefix (c ∷ s) (d ∷ sep) ≡ false
  unfolding has_prefix
  not_here c s h = ground arith

  -- A first piece without the byte that the separator begins with.
  pub split-word :
      (n v : Text) → Lacks d n → split (n ++ ((d ∷ sep) ++ v)) (d ∷ sep) ≡ n ∷ split v (d ∷ sep)
  unfolding split
  split-word [] v h =
      pieces_sep (sep ++ v) (has_prefix-append (d ∷ sep) v) ∙ ap (λ t. [] ∷ t) (pieces_skip sep v)
  split-word (c ∷ n) v h =
      rw (pieces_other c (n ++ ((d ∷ sep) ++ v)) (not_here c _ h.0), split-word n v h.1) refl
