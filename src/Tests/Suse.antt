-- ===== src/Tests/Suse.antt =====
-- The theorems on the converter of SUSE, applied to a small feed.
use goval_dictionary_v.Prelude.{
  ◌≡◌, refl, sym, ◌∙◌, Bool, true, none, some, [], ◌∷◌, All, flat_map, length, ◌↔◌, ◌≤◌, ◌<◌, ◌++◌,
  arith, inr, if◌then◌else◌,
}
use goval_dictionary_v.Outcome.{ok, err, panic, bad_version, ok-ne-panic}
use goval_dictionary_v.Text.{
  Text, codes, text_eq, split, pieces, has_prefix, has_suffix, contains, trim_prefix, trim_suffix,
  fields,
}
use goval_dictionary_v.Text.Numbers.{atoi, format_int}
use goval_dictionary_v.GoMap.{Map}
use goval_dictionary_v.Converters.Oval.{Criterion, Criteria, criteria, no_criterias, more_criterias}
use goval_dictionary_v.Converters.Oval.Walk.{criterions_of}
use goval_dictionary_v.Converters.Suse.{
  SuseDefinition, SuseRoot, RpminfoTest, RpminfoObject, RpminfoState, RpmInfoTest,
}
use goval_dictionary_v.Converters.Suse.Platform.{
  is_os_comment, get_os_version, enterprise_release, numbered_pack, is_int, checked,
}
use goval_dictionary_v.Converters.Suse.Platform.Laws.{
  first_piece, get_os_version-service_pack, get_os_version-panic,
}
use goval_dictionary_v.Converters.Suse.Walk.{
  read_os_comment, found_version, walk_criterion, walk_criterions, walk_criteria,
}
use goval_dictionary_v.Converters.Suse.Walk.Flat.{
  Readable, os_release, walk_criterion-criterions_of,
}
use goval_dictionary_v.Converters.Suse.Walk.Products.{
  and_criterias, products, and_criterias-Readable, walk_criteria-products,
}

abbrev any_version : Text → Bool
any_version v = true

abbrev server_12_1 : Criterion
server_12_1 = record {
  test_ref = codes "t0";
  comment = codes "SUSE Linux Enterprise Server 12 SP1-LTSS is installed";
}

abbrev old_bash : Criterion
old_bash = record { test_ref = codes "t1"; comment = codes "bash-4.3-1 is installed" }

abbrev suse_criteria : Criteria
suse_criteria =
    criteria (codes "OR")
      (more_criterias
        (criteria (codes "AND")
          (more_criterias (criteria (codes "OR") no_criterias (old_bash ∷ [])) no_criterias)
          (server_12_1 ∷ []))
        no_criterias)
      []

abbrev suse_definition : SuseDefinition
suse_definition = record {
  id = codes "oval:org.opensuse.security:def:1";
  class = codes "vulnerability";
  title = codes "CVE-2014-6271";
  references = [];
  description = codes "bash";
  advisory = record {
    severity = codes "Critical";
    cves = [];
    bugzillas = [];
    affected_cpe_list = [];
  };
  criteria = suse_criteria;
}

abbrev bash_test : RpminfoTest
bash_test = record {
  id = codes "t1";
  comment = codes "bash is <4.3-1";
  check = codes "at least one";
  object_ref = codes "o1";
  state_ref = codes "s1";
}

abbrev bash_object : RpminfoObject
bash_object = record { id = codes "o1"; name = codes "bash" }

abbrev bash_state : RpminfoState
bash_state = record {
  id = codes "s1";
  signature_keyid = record { text = []; operation = [] };
  version = record { text = []; datatype = []; operation = [] };
  arch = record {
    text = codes "(aarch64|x86_64)";
    datatype = codes "string";
    operation = codes "pattern match";
  };
  evr = record {
    text = codes "0:4.3-1";
    datatype = codes "evr_string";
    operation = codes "less than";
  };
}

abbrev suse_root : SuseRoot
suse_root = record {
  definitions = suse_definition ∷ [];
  tests = bash_test ∷ [];
  objects = bash_object ∷ [];
  states = bash_state ∷ [];
}

abbrev bash_info : RpmInfoTest
bash_info = record {
  name = codes "bash";
  signature_keyid = record { text = []; operation = [] };
  fixed_version = codes "0:4.3-1";
  arch = codes "aarch64" ∷ codes "x86_64" ∷ [];
}

abbrev suse_tests : Map RpmInfoTest
suse_tests = (codes "t1", bash_info) ∷ []

server_12_1-os_release : os_release any_version server_12_1 ≡ ok (some (codes "12.1"))
unfolding is_os_comment read_os_comment get_os_version has_prefix has_suffix contains trim_prefix
    trim_suffix fields enterprise_release numbered_pack split pieces atoi format_int found_version
    is_int checked text_eq
server_12_1-os_release = refl

old_bash-os_release : os_release any_version old_bash ≡ ok none
unfolding is_os_comment has_suffix has_prefix contains text_eq
old_bash-os_release = refl

suse_criteria-Readable : All (Readable any_version) (criterions_of suse_criteria)
unfolding criterions_of
suse_criteria-Readable = (
  λ h. ok-ne-panic (some (codes "12.1")) (sym server_12_1-os_release ∙ h),
  (λ h. ok-ne-panic none (sym old_bash-os_release ∙ h), tt),
)

walk_criterion-criterions_of_example :
    walk_criterion any_version suse_tests suse_criteria ([], [])
    ≡ walk_criterions any_version suse_tests (criterions_of suse_criteria) ([], [])
walk_criterion-criterions_of_example =
    walk_criterion-criterions_of any_version suse_tests suse_criteria ([], [])

walk_criteria-products_example :
    walk_criteria any_version suse_tests suse_criteria []
    ≡ ok (flat_map (products any_version suse_tests) (and_criterias suse_criteria))
walk_criteria-products_example =
    walk_criteria-products any_version suse_tests suse_criteria []
      (and_criterias-Readable any_version suse_criteria suse_criteria-Readable)

get_os_version-service_pack_example :
    get_os_version any_version (codes "sles" ++ (codes "10" ++ (codes "-sp" ++ codes "2")))
    ≡ (if true then ok (codes "10.2") else err bad_version)
get_os_version-service_pack_example =
    get_os_version-service_pack any_version (codes "sles") (codes "10") (codes "2") (inr refl)
      (omega arith, (omega arith, tt)) (omega arith, tt)

get_os_version-panic_example : (get_os_version any_version (codes "suse1-x") ≡ panic) ↔ (
    (has_prefix (codes "suse1-x") (codes "suse") ≡ true)
    × (3 ≤ 3)
    × (length (first_piece (split (codes "1-x") (codes "-"))) < 2))
get_os_version-panic_example = get_os_version-panic any_version (codes "suse1-x")
