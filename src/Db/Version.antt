-- ===== src/Db/Version.antt =====
-- formatFamilyAndOSVer of db/db.go and what it calls: the family and the release under which
-- definitions are stored and looked up.
pub mod Laws
pub mod Format
pub mod Errors
use goval_dictionary_v.Prelude.{ℕ, Bool, List, [], ◌∷◌, take, length, ltb, if◌then◌else◌}
use goval_dictionary_v.Text.{Text, codes, text_eq, split, join, fields}
use goval_dictionary_v.Outcome.{Outcome, ok, err, panic, unknown_family, ◌>>=◌}
use goval_dictionary_v.Config

abbrev pub dot : Text
dot = codes "."

-- Indexing the first element; Go panics on an empty slice.
abbrev pub first {ℓ} : {A : Type ℓ} → List A → Outcome A
first [] = panic
first (x ∷ xs) = ok x

-- strings.Split never returns an empty slice, so the index 0 is always there.
abbrev first_piece : List Text → Text
first_piece [] = []
first_piece (p ∷ ps) = p

unfoldable pub major : Text → Text
unfolding split
major os_ver = first_piece (split os_ver dot)

unfoldable pub major_dot_minor : Text → Text
major_dot_minor os_ver =
    let ss = split os_ver dot in if ltb (length ss) 3 then os_ver else join (take 2 ss) dot

amazon_release : Text → Text
amazon_release s =
    if text_eq s (codes "2023")
    then codes "2023"
    else if text_eq s (codes "2022")
    then codes "2022"
    else if text_eq s (codes "2")
    then codes "2"
    else codes "1"

unfoldable pub get_amazon_linux_ver : Text → Outcome Text
unfolding amazon_release
get_amazon_linux_ver os_version = do s ← first (fields os_version); ok (amazon_release s)

-- A `switch` on a text: the first case with that text, or the default.
abbrev pub switch {ℓ} : {A : Type ℓ} → Text → List (Text × A) → A → A
switch x [] default = default
switch x ((k, a) ∷ cases) default = if text_eq x k then a else switch x cases default

abbrev with_major : Text → Text → Outcome (Text × Text)
with_major family os_ver = ok (family, major os_ver)

abbrev with_major_dot_minor : Text → Text → Outcome (Text × Text)
with_major_dot_minor family os_ver = ok (family, major_dot_minor os_ver)

-- The families that the switch names, in its order.
abbrev pub families : List Text
families =
    Config.debian ∷ Config.ubuntu ∷ Config.raspbian ∷ Config.redhat ∷ Config.centos ∷ Config.oracle
    ∷ Config.amazon ∷ Config.alpine ∷ Config.fedora ∷ Config.opensuse ∷ Config.opensuse_leap
    ∷ Config.suse_enterprise_desktop ∷ Config.suse_enterprise_server ∷ []

-- The cases of the switch, with the family and the release that each returns.
abbrev pub format_cases : Text → Text → List (Text × Outcome (Text × Text))
format_cases family os_ver =
    (Config.debian, with_major family os_ver)
    ∷ (Config.ubuntu, with_major_dot_minor family os_ver)
    ∷ (Config.raspbian, with_major Config.debian os_ver)
    ∷ (Config.redhat, with_major family os_ver)
    ∷ (Config.centos, with_major Config.redhat os_ver)
    ∷ (Config.oracle, with_major family os_ver)
    ∷ (Config.amazon, (do v ← get_amazon_linux_ver os_ver; ok (family, v)))
    ∷ (Config.alpine, with_major_dot_minor family os_ver)
    ∷ (Config.fedora, with_major family os_ver)
    ∷ (
      Config.opensuse,
      (if text_eq os_ver (codes "tumbleweed")
          then ok (family, os_ver)
          else with_major_dot_minor family os_ver),
    )
    ∷ (Config.opensuse_leap, with_major_dot_minor family os_ver)
    ∷ (Config.suse_enterprise_desktop, with_major_dot_minor family os_ver)
    ∷ (Config.suse_enterprise_server, with_major_dot_minor family os_ver)
    ∷ []

unfoldable pub format_family_and_os_ver : Text → Text → Outcome (Text × Text)
format_family_and_os_ver family os_ver =
    switch family (format_cases family os_ver) (err unknown_family)
