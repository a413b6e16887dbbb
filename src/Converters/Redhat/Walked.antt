-- ===== src/Converters/Redhat/Walked.antt =====
-- The packages that walkRedHat finds.
use goval_dictionary_v.Prelude.{◌≡◌, ◌++◌, Option, none, some, false}
use goval_dictionary_v.Text.{Text, codes, has_prefix, contains}
use goval_dictionary_v.Text.Pieces.{Lacks}
use goval_dictionary_v.Converters.Oval.Said.{Saying, names, earlier, other, Agrees}
use goval_dictionary_v.Models.{Package, new_package}
use goval_dictionary_v.Converters.Oval.{Criterion}
use goval_dictionary_v.Converters.Redhat.{next_label, criterion_redhat_pack}

-- What a criterion stands for, next to the module label in force.
abbrev redhat_pack_at : Text × Criterion → Option Package
redhat_pack_at p = criterion_redhat_pack p.0 p.1

-- How a comment says it: `Module LABEL is enabled`, and `NAME is earlier than VERSION` with a name
-- and a version without spaces; what says neither does not look like either.
abbrev pub IsSaid : Text → Saying → Type 0
IsSaid comment (names l) =
    (comment ≡ codes "Module " ++ (l ++ codes " is enabled"))
    × (contains comment (codes " is earlier than ") ≡ false)
IsSaid comment (earlier n v) =
    (comment ≡ n ++ (codes " is earlier than " ++ v))
    × Lacks 32 n
    × Lacks 32 v
    × (has_prefix comment (codes "Module ") ≡ false)
IsSaid comment other =
    (has_prefix comment (codes "Module ") ≡ false)
    × (contains comment (codes " is earlier than ") ≡ false)

-- the label after a criterion, and the package that it stands for under a label
abbrev pub label_after : Text → Saying → Text
label_after label (names l) = l
label_after label (earlier n v) = label
label_after label other = label

abbrev pub package_under : Text → Saying → Option Package
package_under label (names l) = none
package_under label (earlier n v) =
    some (record new_package { name = n; version = v; modularity_label = label })
package_under label other = none

module _ (say : Criterion → Saying) where
  abbrev Reads : Criterion → Type 0
  Reads =
      Agrees next_label (λ label c. label_after label (say c)) redhat_pack_at
        (λ p. package_under p.0 (say p.1))
