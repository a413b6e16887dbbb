-- ===== src/Db/Version/Format.antt =====
-- The theorems on formatFamilyAndOSVer.
use goval_dictionary_v.Prelude.{
  ◌≡◌, refl, ◌≢◌, inl, inr, List, [], ◌∷◌, Bool, true, false, Bool-cases, All, if◌then◌else◌,
}
use goval_dictionary_v.Text.{Text, codes, text_eq}
use goval_dictionary_v.Text.Equality.{eq_of_text_eq, text_eq_refl}
use goval_dictionary_v.Outcome.{Outcome, ok, err, panic, unknown_family, ◌>>=◌}
use goval_dictionary_v.Config
use goval_dictionary_v.Db.Version.{
  major, major_dot_minor, get_amazon_linux_ver, switch, format_cases, format_family_and_os_ver,
}
use goval_dictionary_v.Db.Version.Laws.{major_idem, major_dot_minor_idem, get_amazon_linux_ver_idem}

module _ {ℓ κ} {A : Type ℓ} (P : A → Type κ) (x : Text) where
  -- What holds of each case at its own text, and of the default where no case fits, holds of a
  -- switch.
  pub switch_rule :
      (cases : List (Text × A)) (default : A)
      → All (λ c. x ≡ c.0 → P c.1) cases
      → (All (λ c. x ≢ c.0) cases → P default)
      → P (switch x cases default)
  switch_rule [] d h p = p tt
  switch_rule ((k, a) ∷ cases) d h p = elim (Bool-cases (text_eq x k)) [
    | inl e ↦ rw e (h.0 (eq_of_text_eq x k e))
    | inr e ↦ rw e (switch_rule cases d h.1 (λ rest. p ((λ q. cc (text_eq_refl k, q, e)), rest)))
  ]

-- What a successful outcome satisfies.
abbrev IfOk {ℓ κ} : {A : Type ℓ} → (A → Type κ) → Outcome A → Type κ
IfOk P (ok a) = P a
IfOk P (err e) = Unit
IfOk P panic = Unit

abbrev IsFormatted : Text × Text → Type 0
IsFormatted p = format_family_and_os_ver p.0 p.1 ≡ ok p

-- How each family's own name is formatted.
by_family :
    (v : Text)
    → All
        (λ k. format_family_and_os_ver k v ≡ ok (k, major v))
        (Config.debian ∷ Config.redhat ∷ Config.oracle ∷ Config.fedora ∷ [])
unfolding format_family_and_os_ver text_eq
by_family v = (refl, (refl, (refl, (refl, tt))))

by_family_minor :
    (v : Text)
    → All
        (λ k. format_family_and_os_ver k v ≡ ok (k, major_dot_minor v))
        (Config.ubuntu ∷ Config.alpine ∷ Config.opensuse_leap ∷ Config.suse_enterprise_desktop
          ∷ Config.suse_enterprise_server ∷ [])
unfolding format_family_and_os_ver text_eq
by_family_minor v = (refl, (refl, (refl, (refl, (refl, tt)))))

major-IsFormatted :
    (v : Text) (k : Text)
    → ((w : Text) → format_family_and_os_ver k w ≡ ok (k, major w))
    → IsFormatted (k, major v)
major-IsFormatted v k h = rw (h (major v), major_idem v)

minor-IsFormatted :
    (v : Text) (k : Text)
    → ((w : Text) → format_family_and_os_ver k w ≡ ok (k, major_dot_minor w))
    → IsFormatted (k, major_dot_minor v)
minor-IsFormatted v k h = rw (h (major_dot_minor v), major_dot_minor_idem v)

by_amazon :
    (v : Text)
    → format_family_and_os_ver Config.amazon v
      ≡ (get_amazon_linux_ver v >>= λ w. ok (Config.amazon, w))
unfolding format_family_and_os_ver text_eq
by_amazon v = refl

by_opensuse :
    (v : Text)
    → format_family_and_os_ver Config.opensuse v ≡ (
        if text_eq v (codes "tumbleweed")
        then ok (Config.opensuse, v)
        else ok (Config.opensuse, major_dot_minor v))
by_opensuse v = unfold format_family_and_os_ver text_eq in refl

tumbleweed_fixed : IsFormatted (Config.opensuse, codes "tumbleweed")
unfolding format_family_and_os_ver text_eq
tumbleweed_fixed = refl

either {ℓ} : {A : Type ℓ} {x : A} (b : Bool) → (if b then x else x) ≡ x
either true = refl
either false = refl

amazon-IsFormatted :
    (v : Text) → IfOk IsFormatted (get_amazon_linux_ver v >>= λ w. ok (Config.amazon, w))
amazon-IsFormatted v = go (get_amazon_linux_ver v) refl
  where
    go :
        (o : Outcome Text)
        → get_amazon_linux_ver v ≡ o
        → IfOk IsFormatted (o >>= λ w. ok (Config.amazon, w))
    go (ok w) e = rw (by_amazon w, get_amazon_linux_ver_idem v w e) refl
    go (err x) e = tt
    go panic e = tt

opensuse-IsFormatted :
    (v : Text)
    → IfOk IsFormatted (
        if text_eq v (codes "tumbleweed")
        then ok (Config.opensuse, v)
        else ok (Config.opensuse, major_dot_minor v))
opensuse-IsFormatted v = elim (Bool-cases (text_eq v (codes "tumbleweed"))) [
  | inl e ↦ rw (e, eq_of_text_eq v (codes "tumbleweed") e) tumbleweed_fixed
  | inr e ↦
      rw (e, by_opensuse (major_dot_minor v), major_dot_minor_idem v)
        (either (text_eq (major_dot_minor v) (codes "tumbleweed")))
]

module _ (f v : Text) where
  pub format_switch :
      format_family_and_os_ver f v ≡ switch f (format_cases f v) (err unknown_family)
  unfolding format_family_and_os_ver
  format_switch = refl

  major_case :
      (k : Text)
      → ((w : Text) → format_family_and_os_ver k w ≡ ok (k, major w))
      → f ≡ k
      → IfOk IsFormatted (ok (f, major v))
  major_case k h e = rw e (major-IsFormatted v k h)

  minor_case :
      (k : Text)
      → ((w : Text) → format_family_and_os_ver k w ≡ ok (k, major_dot_minor w))
      → f ≡ k
      → IfOk IsFormatted (ok (f, major_dot_minor v))
  minor_case k h e = rw e (minor-IsFormatted v k h)

  formatted : IfOk IsFormatted (format_family_and_os_ver f v)
  formatted = rw format_switch (
      switch_rule (IfOk IsFormatted) f (format_cases f v) (err unknown_family)
        (
          major_case _ (λ w. (by_family w).0),
          (
            minor_case _ (λ w. (by_family_minor w).0),
            (
              (λ e. major-IsFormatted v _ (λ w. (by_family w).0)),
              (
                major_case _ (λ w. (by_family w).1.0),
                (
                  (λ e. major-IsFormatted v _ (λ w. (by_family w).1.0)),
                  (
                    major_case _ (λ w. (by_family w).1.1.0),
                    (
                      (λ e. rw e (amazon-IsFormatted v)),
                      (
                        minor_case _ (λ w. (by_family_minor w).1.0),
                        (
                          major_case _ (λ w. (by_family w).1.1.1.0),
                          (
                            (λ e. rw e (opensuse-IsFormatted v)),
                            (
                              minor_case _ (λ w. (by_family_minor w).1.1.0),
                              (
                                minor_case _ (λ w. (by_family_minor w).1.1.1.0),
                                (minor_case _ (λ w. (by_family_minor w).1.1.1.1.0), tt),
                              ),
                            ),
                          ),
                        ),
                      ),
                    ),
                  ),
                ),
              ),
            ),
          ),
        )
        (λ _. tt))

-- Formatting is idempotent: a family and a release that came out of it are stored and looked up
-- as they are.
pub format_family_and_os_ver_idem :
    (f v : Text) (p : Text × Text)
    → format_family_and_os_ver f v ≡ ok p
    → format_family_and_os_ver p.0 p.1 ≡ ok p
format_family_and_os_ver_idem f v p h = rw h at (formatted f v)
