-- ===== src/Converters/Debian/Packs.antt =====
-- The packages that walkDebian finds.
use goval_dictionary_v.Prelude.{◌≡◌, ◌++◌, Option, none, some, false, if◌then◌else◌}
use goval_dictionary_v.Text.{Text, codes, text_eq, has_prefix, contains}
use goval_dictionary_v.Models.{new_package}
use goval_dictionary_v.Text.Pieces.{Lacks}
use goval_dictionary_v.Converters.Oval.Said.{Saying, names, earlier, other, Agrees}
use goval_dictionary_v.Converters.Oval.{Criterion}
use goval_dictionary_v.Converters.Debian.{DistroPackage, next_os_ver, criterion_pack}

-- What a criterion stands for, next to the release in force.
abbrev pack_at : Text × Criterion → Option DistroPackage
pack_at p = criterion_pack p.0 p.1

-- How a comment says it: `Debian RELEASE is installed`, and `NAME DPKG is earlier than VERSION` with
-- a name and a version without spaces; what says neither does not look like either.
abbrev pub IsSaid : Text → Saying → Type 0
IsSaid comment (names l) =
    (comment ≡ codes "Debian " ++ (l ++ codes " is installed"))
    × (contains comment (codes " DPKG is earlier than ") ≡ false)
IsSaid comment (earlier n v) =
    (comment ≡ n ++ (codes " DPKG is earlier than " ++ v))
    × Lacks 32 n
    × Lacks 32 v
    × (has_prefix comment (codes "Debian ") ≡ false)
IsSaid comment other =
    (has_prefix comment (codes "Debian ") ≡ false)
    × (contains comment (codes " DPKG is earlier than ") ≡ false)

-- the release after a criterion, and the package that it stands for in a release; a package that
-- is not fixed has the version 0
abbrev pub release_after : Text → Saying → Text
release_after os_ver (names l) = l
release_after os_ver (earlier n v) = os_ver
release_after os_ver other = os_ver

abbrev pub package_in : Text → Saying → Option DistroPackage
package_in os_ver (names l) = none
package_in os_ver (earlier n v) =
    if text_eq v (codes "0")
    then none
    else some (record { os_ver = os_ver; pack = record new_package { name = n; version = v } })
package_in os_ver other = none

module _ (say : Criterion → Saying) where
  abbrev Reads : Criterion → Type 0
  Reads =
      Agrees next_os_ver (λ os_ver c. release_after os_ver (say c)) pack_at
        (λ p. package_in p.0 (say p.1))
