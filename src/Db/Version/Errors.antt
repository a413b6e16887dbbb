-- ===== src/Db/Version/Errors.antt =====
-- When formatFamilyAndOSVer comes to no result.
use goval_dictionary_v.Prelude.{
  ◌≡◌, refl, ◌≢◌, ◌↔◌, List, [], ◌∷◌, All, inl, inr, Bool, true, false, if◌then◌else◌,
}
use goval_dictionary_v.Text.{Text, codes, text_eq, fields}
use goval_dictionary_v.Text.Equality.{text_eq-cases}
use goval_dictionary_v.Outcome.{Outcome, ok, err, panic, unknown_family, ◌>>=◌}
use goval_dictionary_v.Config
use goval_dictionary_v.Db.Version.{
  first, major_dot_minor, amazon_release, get_amazon_linux_ver, switch, families, format_cases,
  format_family_and_os_ver,
}
use goval_dictionary_v.Db.Version.Format.{switch_rule, format_switch}

-- What the outcome says of the family and the release.
abbrev Tells : Text → Text → Outcome (Text × Text) → Type 0
Tells f v (ok p) = Unit
Tells f v (err e) = (e ≡ unknown_family) × All (λ k. f ≢ k) families
Tells f v panic = (f ≡ Config.amazon) × (fields v ≡ [])

if_Tells : (f v : Text) (b : Bool) (p q : Text × Text) → Tells f v (if b then ok p else ok q)
if_Tells f v true p q = tt
if_Tells f v false p q = tt

amazon-Tells :
    (f v : Text) → f ≡ Config.amazon → Tells f v (get_amazon_linux_ver v >>= λ w. ok (f, w))
unfolding get_amazon_linux_ver
amazon-Tells f v e = go (fields v) refl
  where
    go :
        (fs : List Text)
        → fields v ≡ fs
        → Tells f v ((first fs >>= λ s. ok (amazon_release s)) >>= λ w. ok (f, w))
    go [] k = (e, k)
    go (s ∷ fs) k = tt

tells : (f v : Text) → Tells f v (format_family_and_os_ver f v)
tells f v = rw format_switch (
    switch_rule (Tells f v) f (format_cases f v) (err unknown_family)
      (
        (λ _. tt),
        (
          (λ _. tt),
          (
            (λ _. tt),
            (
              (λ _. tt),
              (
                (λ _. tt),
                (
                  (λ _. tt),
                  (
                    amazon-Tells f v,
                    (
                      (λ _. tt),
                      (
                        (λ _. tt),
                        (
                          (λ _.
                              if_Tells f v (text_eq v (codes "tumbleweed")) (f, v)
                                (f, major_dot_minor v)),
                          ((λ _. tt), ((λ _. tt), ((λ _. tt), tt))),
                        ),
                      ),
                    ),
                  ),
                ),
              ),
            ),
          ),
        ),
      )
      (λ ne. (refl, ne)))

switch_miss {ℓ} :
    {A : Type ℓ} (x : Text) (cases : List (Text × A)) (default : A)
    → All (λ c. x ≢ c.0) cases
    → switch x cases default ≡ default
switch_miss x [] d ne = refl
switch_miss x ((k, a) ∷ cases) d ne = elim (text_eq-cases x k) [
  | inl e ↦ absurd (ne.0 e)
  | inr e ↦ rw e (switch_miss x cases d ne.1)
]

-- The call fails exactly for a family that no case of the switch names.
pub format_unknown_iff :
    (f v : Text) → (format_family_and_os_ver f v ≡ err unknown_family) ↔ All (λ k. f ≢ k) families
format_unknown_iff f v = (
  λ h. (rw h at (tells f v)).1,
  λ ne. rw format_switch (switch_miss f (format_cases f v) (err unknown_family) ne),
)

format_panics :
    (f v : Text) → (f ≡ Config.amazon) × (fields v ≡ []) → format_family_and_os_ver f v ≡ panic
unfolding format_family_and_os_ver get_amazon_linux_ver text_eq
format_panics f v (e, k) = rw (e, k) refl

-- The call panics exactly for Amazon with a release of nothing but white space: the index into
-- the fields of the release is out of range.
pub format_panic_iff :
    (f v : Text) → (format_family_and_os_ver f v ≡ panic) ↔ ((f ≡ Config.amazon) × (fields v ≡ []))
format_panic_iff f v = (λ h. rw h at (tells f v), format_panics f v)
