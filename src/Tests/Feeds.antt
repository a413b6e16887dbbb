-- ===== src/Tests/Feeds.antt =====
-- The theorems on the converters, applied to small feeds.
use goval_dictionary_v.Prelude.{
  ◌≡◌, refl, true, false, Option, none, some, [], ◌∷◌, map, collect, All, if◌then◌else◌,
}
use goval_dictionary_v.Text.{Text, codes, text_eq}
use goval_dictionary_v.GoMap.{values}
use goval_dictionary_v.Models.{Time, zero_time}
use goval_dictionary_v.Converters.Common.{parsed_or_default_time}
use goval_dictionary_v.Converters.Common.Laws.{parsed_or_default_time-first}
use goval_dictionary_v.Converters.Oval.{Criterion, Criteria, criteria, no_criterias, more_criterias}
use goval_dictionary_v.Converters.Debian.{OvalDefinition, convert_debian}
use goval_dictionary_v.Converters.Debian.Packs as DebianPacks
use goval_dictionary_v.Converters.Oval.Said.{Saying, names, earlier}
use goval_dictionary_v.Converters.Debian.Laws.{bare, convert_debian-no_details}
use goval_dictionary_v.Converters.Oracle.{OracleDefinition, convert_oracle}
use goval_dictionary_v.Converters.Oracle.Packs.{names_release, names_arch}
use goval_dictionary_v.Converters.Oracle.Packs as OraclePacks
use goval_dictionary_v.Converters.Oracle.Releases.{release_definition, convert_oracle-values}

abbrev says : Text → Criterion
says comment = record { test_ref = codes "t1"; comment = comment }

-- A release, and below it a package.
abbrev debian_criteria : Criteria
debian_criteria =
    criteria (codes "AND")
      (more_criterias
        (criteria (codes "OR") no_criterias (says (codes "bash DPKG is earlier than 5.1-2") ∷ []))
        no_criterias)
      (says (codes "Debian 11 is installed") ∷ [])

abbrev say_debian : Criterion → Saying
say_debian c =
    if text_eq c.comment (codes "Debian 11 is installed")
    then names (codes "11")
    else earlier (codes "bash") (codes "5.1-2")

abbrev debian_definition : OvalDefinition
debian_definition = record {
  id = codes "D1";
  class = [];
  title = codes "bash";
  references = [];
  description = codes "old";
  debian = record { dsa = []; more_info = []; date = [] };
  criteria = debian_criteria;
}

abbrev no_parse : Text → Text → Option Time
no_parse layout value = none

convert_debian-no_details_example :
    convert_debian no_parse true (debian_definition ∷ [])
    ≡ map bare (convert_debian no_parse false (debian_definition ∷ []))
convert_debian-no_details_example = convert_debian-no_details no_parse (debian_definition ∷ [])

-- A layout is fitted by a value that is the layout.
abbrev same_parse : Text → Text → Option Time
same_parse layout value = elim (text_eq layout value) [ true ↦ some zero_time | false ↦ none ]

day_first : All (λ l. same_parse l (codes "minute") ≡ none) (codes "day" ∷ [])
unfolding text_eq
day_first = (refl, tt)

minute_fits : same_parse (codes "minute") (codes "minute") ≡ some zero_time
unfolding text_eq
minute_fits = refl

parsed_or_default_time-first_example :
    parsed_or_default_time same_parse (codes "day" ∷ codes "minute" ∷ []) (codes "minute")
    ≡ zero_time
parsed_or_default_time-first_example =
    parsed_or_default_time-first same_parse (codes "day" ∷ []) [] (codes "minute") (codes "minute")
      zero_time (λ h. cc) (λ h. cc) day_first minute_fits

abbrev oracle_criteria : Criteria
oracle_criteria =
    criteria (codes "AND")
      (more_criterias
        (criteria (codes "AND") no_criterias (
          says (codes "Oracle Linux arch is x86_64")
          ∷ says (codes "bash is earlier than 5.1-2")
          ∷ []))
        no_criterias)
      (says (codes "Oracle Linux 8 is installed") ∷ [])

abbrev say_oracle : Criterion → OraclePacks.Saying
say_oracle c =
    if text_eq c.comment (codes "Oracle Linux 8 is installed")
    then names_release (codes "8")
    else if text_eq c.comment (codes "Oracle Linux arch is x86_64")
    then names_arch (codes "x86_64")
    else OraclePacks.earlier (codes "bash") (codes "5.1-2")

abbrev oracle_definition : OracleDefinition
oracle_definition = record {
  id = codes "E1";
  class = [];
  title = codes "bash";
  references = [];
  description = codes "old";
  advisory = record { severity = []; rights = []; cves = []; issued = [] };
  criteria = oracle_criteria;
}

convert_oracle-values_example :
    values (codes "8") (convert_oracle false (oracle_definition ∷ []))
    ≡ collect (release_definition false (codes "8")) (oracle_definition ∷ [])
convert_oracle-values_example = convert_oracle-values false (oracle_definition ∷ []) (codes "8")
