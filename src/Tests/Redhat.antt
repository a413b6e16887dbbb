-- ===== src/Tests/Redhat.antt =====
-- The theorems on the Red Hat converter, applied to small feeds.
use goval_dictionary_v.Prelude.{
  ◌≡◌, refl, Bool, true, false, Option, none, some, List, [], ◌∷◌, length, ltb, arith,
  if◌then◌else◌,
}
use goval_dictionary_v.Text.{Text, codes, contains, text_eq}
use goval_dictionary_v.GoMap.{lookup}
use goval_dictionary_v.Models.{Time, Package, new_package}
use goval_dictionary_v.Converters.Oval.{Criterion, Criteria, criteria, no_criterias, more_criterias}
use goval_dictionary_v.Converters.Redhat.{
  RedhatDefinition, is_for_release, pack_key, newest_packs, add_redhat_roots, collect_redhat_packs,
}
use goval_dictionary_v.Converters.Oval.Said.{Saying, names, earlier}
use goval_dictionary_v.Converters.Redhat.Newest.{IsOrder, Among, newest_packs-newest}
use goval_dictionary_v.Converters.Redhat.Definitions.{
  converted, first_definition, all_definitions, add_redhat_roots-first,
}
use goval_dictionary_v.Db.Filters.{filter_by_redhat_major}
use goval_dictionary_v.Db.Filters.Releases.{filter_by_redhat_major-collect_redhat_packs}

abbrev says : Text → Criterion
says comment = record { test_ref = codes "t1"; comment = comment }

abbrev redhat_criteria : Criteria
redhat_criteria =
    criteria (codes "AND")
      (more_criterias
        (criteria (codes "OR") no_criterias
          (says (codes "perl is earlier than 5.30.module+el8") ∷ []))
        (more_criterias
          (criteria (codes "OR") no_criterias (says (codes "bash is earlier than 5.1.el8") ∷ []))
          no_criterias))
      (says (codes "Module perl:5.30 is enabled") ∷ [])

abbrev say_redhat : Criterion → Saying
say_redhat c =
    if text_eq c.comment (codes "Module perl:5.30 is enabled")
    then names (codes "perl:5.30")
    else if text_eq c.comment (codes "perl is earlier than 5.30.module+el8")
    then earlier (codes "perl") (codes "5.30.module+el8")
    else earlier (codes "bash") (codes "5.1.el8")

-- The longer a version, the newer it is.
abbrev longer : Text → Text → Bool
longer a b = ltb (length b) (length a)

longer-IsOrder : IsOrder longer
longer-IsOrder = record {
  irreflexive = λ a. ground arith;
  chained = λ a b c h k. ground arith;
  asymmetric = λ a b h. ground arith;
}

abbrev bash_1 : Package
bash_1 = record new_package { name = codes "bash"; version = codes "1.el8" }

abbrev bash_12 : Package
bash_12 = record new_package { name = codes "bash"; version = codes "12.el8" }

bash_1-is_for_release : is_for_release (codes "8") bash_1 ≡ true
unfolding is_for_release contains
bash_1-is_for_release = refl

newest_packs-newest_example :
    (q : Package) × (lookup
        (pack_key bash_1)
        (newest_packs longer (codes "8") (bash_12 ∷ bash_1 ∷ []) [])
      ≡ some q)
    × (longer bash_1.version q.version ≡ false)
    × Among longer (codes "8") (pack_key bash_1) (bash_12 ∷ bash_1 ∷ []) (some q)
newest_packs-newest_example =
    newest_packs-newest longer (codes "8") (bash_12 ∷ []) [] bash_1 longer-IsOrder
      bash_1-is_for_release

filter_by_redhat_major-collect_redhat_packs_example :
    filter_by_redhat_major (collect_redhat_packs longer (codes "8") redhat_criteria) (codes "8")
    ≡ collect_redhat_packs longer (codes "8") redhat_criteria
filter_by_redhat_major-collect_redhat_packs_example =
    filter_by_redhat_major-collect_redhat_packs (codes "8") longer redhat_criteria

abbrev redhat_definition : RedhatDefinition
redhat_definition = record {
  id = codes "R1";
  class = [];
  title = codes "perl";
  references = [];
  description = codes "old";
  advisory = record {
    severity = [];
    rights = [];
    cves = [];
    bugzillas = [];
    affected_cpe_list = [];
    affected = record { state = []; component = [] };
    issued = [];
    updated = [];
  };
  criteria = redhat_criteria;
}

abbrev redhat_roots : List (List RedhatDefinition)
redhat_roots =
    (redhat_definition ∷ []) ∷ (record redhat_definition { title = codes "again" } ∷ []) ∷ []

abbrev no_parse : Text → Text → Option Time
no_parse layout value = none

add_redhat_roots-first_example :
    lookup (codes "R1") (add_redhat_roots longer no_parse false (codes "8") redhat_roots [])
    ≡ converted longer no_parse false
        (codes "8")
        (first_definition (codes "R1") (all_definitions redhat_roots))
add_redhat_roots-first_example =
    add_redhat_roots-first longer no_parse false (codes "8") redhat_roots (codes "R1")
