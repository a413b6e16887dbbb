-- ===== src/Tests/Ubuntu.antt =====
-- The theorems on the Ubuntu, Amazon, Fedora and Alpine converters, applied to small feeds.
use goval_dictionary_v.Prelude.{
  ◌≡◌, ◌≢◌, ◌↔◌, ◌⊎◌, refl, false, Option, none, List, [], ◌∷◌, collect,
}
use goval_dictionary_v.Text.{Text, codes, text_eq}
use goval_dictionary_v.Outcome.{ok, err, panic, missing_ref}
use goval_dictionary_v.GoMap.{Map, lookup, values}
use goval_dictionary_v.Models.{Time}
use goval_dictionary_v.Converters.Oval.{Criterion, Criteria, criteria, no_criterias, more_criterias}
use goval_dictionary_v.Converters.Oval.Walk.{criterions_of}
use goval_dictionary_v.Converters.Ubuntu.{
  Textfilecontent54Test, Textfilecontent54Object, Textfilecontent54State, UbuntuRoot, DpkgInfoTest,
  follow_state_ref, follow_test_refs, follow_all, walk_criterion, convert_ubuntu,
}
use goval_dictionary_v.Converters.Ubuntu.References.{
  last_test, follow_all-last, follow_all-missing, follow_test_refs-missing,
}
use goval_dictionary_v.Converters.Ubuntu.Packs.{reported, walk_criterion-criterions_of}
use goval_dictionary_v.Converters.Ubuntu.Objects.{convert_ubuntu-panic}
use goval_dictionary_v.Converters.Updates.{AmazonUpdate}
use goval_dictionary_v.Converters.Alpine.{Pkg, packs_by_cve}
use goval_dictionary_v.Converters.Alpine.Laws.{fix_of, all_fixes, packs_by_cve-values}

abbrev says : Text → Criterion
says comment = record { test_ref = codes "t1"; comment = comment }

abbrev bash_test : Textfilecontent54Test
bash_test = record {
  id = codes "t1";
  check = [];
  check_existence = [];
  comment = [];
  object_ref = codes "o1";
  state_ref = [];
}

abbrev lost_test : Textfilecontent54Test
lost_test = record bash_test { id = codes "t2"; object_ref = codes "o2" }

abbrev objects : Map Text
objects = (codes "o1", codes "bash") ∷ []

abbrev no_states : Map Textfilecontent54State
no_states = []

bash_test-resolved :
    follow_test_refs bash_test objects no_states
    ≡ ok (record { name = codes "bash"; fixed_version = [] })
unfolding follow_test_refs follow_state_ref text_eq lookup
bash_test-resolved = refl

lost_test-missing : follow_test_refs lost_test objects no_states ≡ err missing_ref
unfolding follow_test_refs text_eq lookup
lost_test-missing = refl

follow_all-last_example :
    (n : Map DpkgInfoTest) × (follow_all objects no_states (bash_test ∷ []) [] ≡ ok n)
    × ((id : Text) → lookup id n ≡ last_test objects no_states id (bash_test ∷ []) none)
follow_all-last_example =
    follow_all-last objects no_states (bash_test ∷ []) ((_, bash_test-resolved), tt)

follow_all-missing_example :
    follow_all objects no_states (bash_test ∷ lost_test ∷ bash_test ∷ []) [] ≡ err missing_ref
follow_all-missing_example =
    follow_all-missing objects no_states (bash_test ∷ []) (bash_test ∷ []) lost_test []
      ((_, bash_test-resolved), tt) lost_test-missing

follow_test_refs-missing_example :
    (follow_test_refs lost_test objects no_states ≡ err missing_ref) ↔ (
      (codes "o2" ≢ [])
      × ((lookup (codes "o2") objects ≡ none)
          ⊎ ((lost_test.state_ref ≢ []) × (lookup lost_test.state_ref no_states ≡ none))))
follow_test_refs-missing_example = follow_test_refs-missing objects no_states lost_test

abbrev ubuntu_criteria : Criteria
ubuntu_criteria =
    criteria (codes "OR")
      (more_criterias
        (criteria (codes "AND") no_criterias
          (says (codes "bash is affected and needs fixing") ∷ []))
        no_criterias)
      (says (codes "bash was vulnerable but has been fixed") ∷ [])

abbrev bash_tests : Map DpkgInfoTest
bash_tests = (codes "t1", record { name = codes "bash"; fixed_version = codes "5.1" }) ∷ []

walk_criterion-criterions_of_example :
    walk_criterion ubuntu_criteria bash_tests
    ≡ collect (reported bash_tests) (criterions_of ubuntu_criteria)
walk_criterion-criterions_of_example = walk_criterion-criterions_of bash_tests ubuntu_criteria

abbrev no_match : Text → List (List Text)
no_match comment = []

abbrev no_parse : Text → Text → Option Time
no_parse layout value = none

abbrev odd_object : Textfilecontent54Object
odd_object = record { id = codes "o1"; comment = codes "bash" }

abbrev odd_root : UbuntuRoot
odd_root = record { definitions = []; tests = []; objects = odd_object ∷ []; states = [] }

convert_ubuntu-panic_example : convert_ubuntu no_parse false no_match odd_root ≡ panic
convert_ubuntu-panic_example =
    convert_ubuntu-panic no_match no_parse false odd_root [] [] odd_object refl refl

abbrev alas : AmazonUpdate
alas = record {
  id = codes "ALAS-1";
  title = [];
  issued = [];
  updated = [];
  severity = codes "low";
  description = codes "old";
  packages = [];
  references = [];
  cve_ids = codes "CVE-1" ∷ [];
  repository = codes "core";
}

abbrev alpine_packages : List Pkg
alpine_packages =
    record {
      name = codes "bash";
      secfixes = (codes "5.1", codes "CVE-1 CVE-2" ∷ codes "XSA-1" ∷ []) ∷ [];
    }
    ∷ []

packs_by_cve-values_example :
    values (codes "CVE-1") (packs_by_cve alpine_packages [])
    ≡ collect (fix_of (codes "CVE-1")) (all_fixes alpine_packages)
packs_by_cve-values_example = packs_by_cve-values alpine_packages (codes "CVE-1")
