-- ===== src/Fetcher/Fedora/Rpm/Laws.antt =====
-- The parts of the name of an RPM are read back.
use mathlib.Core.List.{reverse-append}
use goval_dictionary_v.Prelude.{
  ℕ, ◌≡◌, refl, none, some, [], ◌∷◌, ◌++◌, arith, length, length-append, take-append, reverse, ◌-◌,
  true,
}
use goval_dictionary_v.Outcome.{ok}
use goval_dictionary_v.Text.{Text, codes, has_suffix, trim_suffix}
use goval_dictionary_v.Text.Equality.{has_prefix-append}
use goval_dictionary_v.Text.Pieces.{Lacks}
use goval_dictionary_v.Converters.Updates.{UpdatePackage}
use goval_dictionary_v.Text.Cut.{cut_first, cut_last}
use goval_dictionary_v.Fetcher.Fedora.Rpm.{epoch_and_version, new_package_from_rpm}

cut_first-at : (d : ℕ) (a b : Text) → Lacks d a → cut_first d (a ++ (d ∷ b)) ≡ some (a, b)
unfolding cut_first
cut_first-at d [] b h = ground arith
cut_first-at d (c ∷ a) b h = ground (arith, h.0, cut_first-at d a b h.1)

cut_last-Lacks : (d : ℕ) (b : Text) → Lacks d b → cut_last d b ≡ none
unfolding cut_last
cut_last-Lacks d [] h = refl
cut_last-Lacks d (c ∷ b) h = ground (arith, h.0, cut_last-Lacks d b h.1)

cut_last-at : (d : ℕ) (a b : Text) → Lacks d b → cut_last d (a ++ (d ∷ b)) ≡ some (a, b)
unfolding cut_last
cut_last-at d [] b h = ground (arith, cut_last-Lacks d b h)
cut_last-at d (c ∷ a) b h = ground (arith, cut_last-at d a b h)

has_suffix-append : (s suffix : Text) → has_suffix (s ++ suffix) suffix ≡ true
unfolding has_suffix
has_suffix-append s suffix =
    rw (reverse-append s suffix) (has_prefix-append (reverse suffix) (reverse s))

trim_suffix-append : (s suffix : Text) → trim_suffix (s ++ suffix) suffix ≡ s
unfolding trim_suffix
trim_suffix-append s suffix =
    let e : length (s ++ suffix) - length suffix ≡ length s =
      omega (arith, length-append s suffix) in
    rw (has_suffix-append s suffix, e) (take-append s suffix)

-- name-epoch:version-release.arch
abbrev pub rpm_name : UpdatePackage → Text
rpm_name p = ((p.name ++ (45 ∷ (p.epoch ++ (58 ∷ p.version)))) ++ (45 ∷ p.release)) ++ (46 ∷ p.arch)

epoch_and_version-at :
    (epoch version : Text)
    → Lacks 58 epoch
    → epoch_and_version (epoch ++ (58 ∷ version)) ≡ (epoch, version)
unfolding epoch_and_version
epoch_and_version-at epoch version h = ground (arith, cut_first-at 58 epoch version h)

-- The name of an RPM, of a package whose epoch has no ":", whose epoch and version and whose release
-- have no "-" and whose architecture has no ".", is read back into the package, with the name of
-- the file less the suffix ".rpm".
pub new_package_from_rpm-rpm_name :
    (p : UpdatePackage)
    → Lacks 58 p.epoch
    → Lacks 45 (p.epoch ++ (58 ∷ p.version))
    → Lacks 45 p.release
    → Lacks 46 p.arch
    → new_package_from_rpm (rpm_name p ++ codes ".rpm") ≡ ok (record p { filename = rpm_name p })
unfolding new_package_from_rpm
new_package_from_rpm-rpm_name p he hv hr ha =
    let x = (p.name ++ (45 ∷ (p.epoch ++ (58 ∷ p.version)))) ++ (45 ∷ p.release) in
    let y = p.name ++ (45 ∷ (p.epoch ++ (58 ∷ p.version))) in
    rw
      (
        trim_suffix-append (rpm_name p) (codes ".rpm"),
        cut_last-at 46 x p.arch ha,
        cut_last-at 45 y p.release hr,
        cut_last-at 45 p.name (p.epoch ++ (58 ∷ p.version)) hv,
        epoch_and_version-at p.epoch p.version he,
      )
      refl
