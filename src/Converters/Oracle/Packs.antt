-- ===== src/Converters/Oracle/Packs.antt =====
-- The packages that walkOracle finds.
use goval_dictionary_v.Prelude.{◌≡◌, ◌++◌, Option, none, some, false, if◌then◌else◌}
use goval_dictionary_v.Text.{Text, codes, text_eq, has_prefix, has_suffix, contains, trim_space}
use goval_dictionary_v.Models.{new_package}
use goval_dictionary_v.Text.Pieces.{Lacks}
use goval_dictionary_v.Converters.Oval.Said.{Agrees}
use goval_dictionary_v.Converters.Oval.{Criterion}
use goval_dictionary_v.Converters.Releases.{ReleasePackage}
use goval_dictionary_v.Converters.Oracle.{next_platform, criterion_oracle_pack}

-- What a criterion stands for, next to the release and the architecture in force.
abbrev oracle_pack_at : (Text × Text) × Criterion → Option ReleasePackage
oracle_pack_at p = criterion_oracle_pack p.0 p.1

-- What a comment says: the release, the architecture, a package with the version that fixes it, or
-- none of these.
pub data Saying : Type 0 where
  names_release : Text → Saying
  names_arch : Text → Saying
  earlier : Text → Text → Saying
  other : Saying

-- How a comment says it: `Oracle Linux RELEASE is installed`, `Oracle Linux arch is ARCH` with an
-- architecture without white space around it, and `NAME is earlier than VERSION` with a name and a
-- version without spaces; what says none of these does not look like any.
abbrev pub IsSaid : Text → Saying → Type 0
IsSaid comment (names_release l) =
    (comment ≡ codes "Oracle Linux " ++ (l ++ codes " is installed"))
    × (has_prefix comment (codes "Oracle Linux arch is ") ≡ false)
    × (contains comment (codes " is earlier than ") ≡ false)
IsSaid comment (names_arch a) =
    (comment ≡ codes "Oracle Linux arch is " ++ a)
    × (trim_space a ≡ a)
    × (has_suffix comment (codes " is installed") ≡ false)
    × (contains comment (codes " is earlier than ") ≡ false)
IsSaid comment (earlier n v) =
    (comment ≡ n ++ (codes " is earlier than " ++ v))
    × Lacks 32 n
    × Lacks 32 v
    × (has_prefix comment (codes "Oracle Linux ") ≡ false)
    × (has_prefix comment (codes "Oracle Linux arch is ") ≡ false)
IsSaid comment other =
    (has_prefix comment (codes "Oracle Linux ") ≡ false)
    × (has_prefix comment (codes "Oracle Linux arch is ") ≡ false)
    × (contains comment (codes " is earlier than ") ≡ false)

-- the release and the architecture after a criterion, and the package that it stands for with
-- these; a package that is not fixed has the version 0
abbrev pub platform_after : Text × Text → Saying → Text × Text
platform_after p (names_release l) = (l, p.1)
platform_after p (names_arch a) = (p.0, a)
platform_after p (earlier n v) = p
platform_after p other = p

abbrev pub package_on : Text × Text → Saying → Option ReleasePackage
package_on p (names_release l) = none
package_on p (names_arch a) = none
package_on p (earlier n v) =
    if text_eq v (codes "0")
    then none
    else some
        (record { os_ver = p.0; pack = record new_package { name = n; version = v; arch = p.1 } })
package_on p other = none

module _ (say : Criterion → Saying) where
  abbrev Reads : Criterion → Type 0
  Reads =
      Agrees next_platform (λ p c. platform_after p (say c)) oracle_pack_at
        (λ p. package_on p.0 (say p.1))
