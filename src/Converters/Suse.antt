-- ===== src/Converters/Suse.antt =====
-- models/suse: the types that the converter reads and suse.go. The list of affected platforms, the
-- texts of the references to objects and states, and the dates of an advisory, which no function
-- reads, are left out. The warning on a platform whose release is not found is not modelled: the
-- criterion is passed over.
pub mod Platform
pub mod Walk
pub mod Convert
use goval_dictionary_v.Prelude.{
  Bool, true, false, ◌&&◌, ◌||◌, List, [], ◌∷◌, ◌++◌, Option, none, some, map, if◌then◌else◌,
  length, ltb, take, drop, ℕ, ◌-◌,
}
use goval_dictionary_v.Outcome.{Outcome, ok, err, panic, ◌>>=◌, missing_ref}
use goval_dictionary_v.Text.{
  Text, codes, text_eq, contains, has_prefix, has_suffix, trim_prefix, trim_suffix, split,
}
use goval_dictionary_v.GoMap.{Map, lookup, insert}
use goval_dictionary_v.Models.{
  default_time, Cve, new_cve, Bugzilla, new_bugzilla, Cpe, Package, new_package, new_advisory,
  Definition, new_definition,
}
use goval_dictionary_v.Converters.Common.{is_rejected, with_details, new_ref}
use goval_dictionary_v.Converters.Releases.{ReleasePackage, packs_by_release, add_releases}
use goval_dictionary_v.Converters.Oval.{
  Criterion, Criteria, criteria, Criterias, no_criterias, more_criterias, OvalReference,
}
use goval_dictionary_v.Converters.Oval.Walk.{append_some}
use goval_dictionary_v.Converters.Suse.Platform.{is_os_comment, get_os_version}

pub record SuseCve : Type 0 where
  pub cve_id : Text
  pub cvss3 : Text
  pub impact : Text
  pub href : Text

pub record SuseBugzilla : Type 0 where
  pub url : Text
  pub title : Text

pub record SuseAdvisory : Type 0 where
  pub severity : Text
  pub cves : List SuseCve
  pub bugzillas : List SuseBugzilla
  pub affected_cpe_list : List Text

pub record SuseDefinition : Type 0 where
  pub id : Text
  pub class : Text
  pub title : Text
  pub references : List OvalReference
  pub description : Text
  pub advisory : SuseAdvisory
  pub criteria : Criteria

pub record RpminfoTest : Type 0 where
  pub id : Text
  pub comment : Text
  pub check : Text
  pub object_ref : Text
  pub state_ref : Text

pub record RpminfoObject : Type 0 where
  pub id : Text
  pub name : Text

pub record SignatureKeyid : Type 0 where
  pub text : Text
  pub operation : Text

-- the elements version, arch and evr of a state; the first has no datatype
pub record StateValue : Type 0 where
  pub text : Text
  pub datatype : Text
  pub operation : Text

pub record RpminfoState : Type 0 where
  pub id : Text
  pub signature_keyid : SignatureKeyid
  pub version : StateValue
  pub arch : StateValue
  pub evr : StateValue

pub record SuseRoot : Type 0 where
  pub definitions : List SuseDefinition
  pub tests : List RpminfoTest
  pub objects : List RpminfoObject
  pub states : List RpminfoState

pub record RpmInfoTest : Type 0 where
  pub name : Text
  pub signature_keyid : SignatureKeyid
  pub fixed_version : Text
  pub arch : List Text

-- rpmInfoTest{}
abbrev pub new_rpm_info_test : RpmInfoTest
new_rpm_info_test = record {
  name = [];
  signature_keyid = record { text = []; operation = [] };
  fixed_version = [];
  arch = [];
}

unfoldable pub parse_objects_from : List RpminfoObject → Map Text → Map Text
parse_objects_from [] m = m
parse_objects_from (o ∷ os) m = parse_objects_from os (insert o.id o.name m)

unfoldable pub parse_objects : List RpminfoObject → Map Text
parse_objects os = parse_objects_from os []

unfoldable pub parse_states_from : List RpminfoState → Map RpminfoState → Map RpminfoState
parse_states_from [] m = m
parse_states_from (s ∷ ss) m = parse_states_from ss (insert s.id s m)

unfoldable pub parse_states : List RpminfoState → Map RpminfoState
parse_states ss = parse_states_from ss []

-- state.Arch.Text[1:len(state.Arch.Text)-1], out of range where the text has fewer than 2 bytes
unfoldable pub inner : Text → Outcome Text
inner s = if ltb (length s) 2 then panic else ok (take (length s - 2) (drop 1 s))

unfoldable pub state_archs : StateValue → Outcome (List Text)
state_archs a =
    if text_eq a.datatype (codes "string")
      && (text_eq a.operation (codes "pattern match") || text_eq a.operation (codes "equals"))
    then inner a.text >>= (λ s. ok (split s (codes "|")))
    else ok []

unfoldable pub state_version : StateValue → Text
state_version e =
    if text_eq e.datatype (codes "evr_string") && text_eq e.operation (codes "less than")
    then e.text
    else []

-- The state's part of followTestRefs.
unfoldable pub follow_state : Text → RpminfoTest → Option RpminfoState → Outcome RpmInfoTest
follow_state name test none = err missing_ref
follow_state name test (some state) = do
  archs ← state_archs state.arch
  ok (record {
    name = name;
    signature_keyid = state.signature_keyid;
    fixed_version = state_version state.evr;
    arch = archs;
  })

unfoldable pub follow_object : RpminfoTest → Option Text → Map RpminfoState → Outcome RpmInfoTest
follow_object test none states = err missing_ref
follow_object test (some name) states =
    if text_eq test.state_ref []
    then ok (record new_rpm_info_test { name = name })
    else follow_state name test (lookup test.state_ref states)

unfoldable pub follow_test_refs : RpminfoTest → Map Text → Map RpminfoState → Outcome RpmInfoTest
follow_test_refs test objects states =
    if text_eq test.object_ref []
    then ok new_rpm_info_test
    else follow_object test (lookup test.object_ref objects) states

unfoldable pub parse_tests_from :
    Map Text → Map RpminfoState → List RpminfoTest → Map RpmInfoTest → Outcome (Map RpmInfoTest)
parse_tests_from objects states [] m = ok m
parse_tests_from objects states (test ∷ tests) m = do
  t ← follow_test_refs test objects states
  parse_tests_from objects states tests (insert test.id t m)

unfoldable pub parse_tests : SuseRoot → Outcome (Map RpmInfoTest)
parse_tests root =
    parse_tests_from (parse_objects root.objects) (parse_states root.states) root.tests []
