-- ===== src/Text/Cut.antt =====
-- Cutting a text at the first or the last byte of its kind: strings.Cut, strings.Index and
-- strings.LastIndex.
use goval_dictionary_v.Prelude.{ℕ, true, false, Option, none, some, [], ◌∷◌, ◌==◌, if◌then◌else◌}
use goval_dictionary_v.Text.{Text}

-- what comes before the byte, and what after it
unfoldable pub cut_first : ℕ → Text → Option (Text × Text)
cut_first d [] = none
cut_first d (c ∷ s) = elim (c == d) [
  | true ↦ some ([], s)
  | false ↦ elim (cut_first d s) [ none ↦ none | some p ↦ some (c ∷ p.0, p.1) ]
]

unfoldable pub cut_last : ℕ → Text → Option (Text × Text)
cut_last d [] = none
cut_last d (c ∷ s) = elim (cut_last d s) [
  | some p ↦ some (c ∷ p.0, p.1)
  | none ↦ if c == d then some ([], s) else none
]
