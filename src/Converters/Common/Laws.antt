-- ===== src/Converters/Common/Laws.antt =====
-- The dates that cannot be read.
use goval_dictionary_v.Prelude.{
  ◌≡◌, ◌≢◌, refl, List, [], ◌∷◌, ◌++◌, Option, none, some, arith, All, ◌⊎◌, inl, inr,
}
use goval_dictionary_v.Text.{Text, codes}
use goval_dictionary_v.Text.Equality.{text_eq_iff}
use goval_dictionary_v.Models.{Time, default_time}
use goval_dictionary_v.Converters.Common.{first_parsed, parsed_or_default_time}

module _ (parse : Text → Text → Option Time) where
  first_parsed-first :
      (before after : List Text) (layout value : Text) (t : Time)
      → All (λ l. parse l value ≡ none) before
      → parse layout value ≡ some t
      → first_parsed parse (before ++ (layout ∷ after)) value ≡ t
  unfolding first_parsed
  first_parsed-first [] after layout value t h e = ground arith
  first_parsed-first (l ∷ before) after layout value t h e =
      ground (arith, h.0, first_parsed-first before after layout value t h.1 e)

  first_parsed-none :
      (layouts : List Text) (value : Text)
      → All (λ l. parse l value ≡ none) layouts
      → first_parsed parse layouts value ≡ default_time
  unfolding first_parsed
  first_parsed-none [] value h = refl
  first_parsed-none (l ∷ layouts) value h = ground (arith, h.0, first_parsed-none layouts value h.1)

  -- A value that is neither empty nor "unknown" is read with the first of the layouts that it fits.
  pub parsed_or_default_time-first :
      (before after : List Text) (layout value : Text) (t : Time)
      → value ≢ []
      → value ≢ codes "unknown"
      → All (λ l. parse l value ≡ none) before
      → parse layout value ≡ some t
      → parsed_or_default_time parse (before ++ (layout ∷ after)) value ≡ t
  unfolding parsed_or_default_time
  parsed_or_default_time-first before after layout value t e u h p = ground (
    arith,
    text_eq_iff value [],
    text_eq_iff value (codes "unknown"),
    e,
    u,
    first_parsed-first before after layout value t h p,
  )

  -- A value that fits none of the layouts gives the default time, and so do "" and "unknown",
  -- whatever the layouts are.
  parsed_or_default_time-none :
      (layouts : List Text) (value : Text)
      → ((value ≡ []) ⊎ (value ≡ codes "unknown")) ⊎ All (λ l. parse l value ≡ none) layouts
      → parsed_or_default_time parse layouts value ≡ default_time
  unfolding parsed_or_default_time
  parsed_or_default_time-none layouts value (inl h) =
      ground (arith, text_eq_iff value [], text_eq_iff value (codes "unknown"), h)
  parsed_or_default_time-none layouts value (inr h) =
      ground (arith, first_parsed-none layouts value h)
