-- ===== src/Converters/Ubuntu.antt =====
-- models/ubuntu: the types that the converter reads and ubuntu.go. Left out is what no function
-- reads: the platforms and notes of a definition, the path, pattern and instance of an object, and
-- the generator and variables of the root. The two references of a test are fields of it. The
-- regular expression of parseObjects and time.Parse are parameters.
pub mod Packs
pub mod References
pub mod Objects
use goval_dictionary_v.Prelude.{
  Bool, true, false, ◌&&◌, ◌||◌, List, [], ◌∷◌, ◌++◌, Option, none, some, map, if◌then◌else◌,
}
use goval_dictionary_v.Text.{Text, codes, text_eq, contains}
use goval_dictionary_v.GoMap.{Map, lookup, insert}
use goval_dictionary_v.Outcome.{Outcome, ok, err, panic, missing_ref, ◌>>=◌}
use goval_dictionary_v.Models.{
  Time, Cve, new_cve, Reference, new_reference, Package, new_package, new_advisory, Definition,
  new_definition,
}
use goval_dictionary_v.Converters.Common.{
  is_rejected, parsed_or_default_time, with_details, convert_references,
}
use goval_dictionary_v.Converters.Oval.{
  Criterion, Criteria, criteria, Criterias, no_criterias, more_criterias, OvalReference,
}

pub record UbuntuAdvisory : Type 0 where
  pub severity : Text
  pub rights : Text
  pub public_date : Text
  pub refs : List Text
  pub bugs : List Text

pub record UbuntuDefinition : Type 0 where
  pub id : Text
  pub class : Text
  pub title : Text
  pub references : List OvalReference
  pub description : Text
  pub advisory : UbuntuAdvisory
  pub criteria : Criteria

pub record Textfilecontent54Test : Type 0 where
  pub id : Text
  pub check : Text
  pub check_existence : Text
  pub comment : Text
  pub object_ref : Text
  pub state_ref : Text

pub record Textfilecontent54Object : Type 0 where
  pub id : Text
  pub comment : Text

pub record Subexpression : Type 0 where
  pub text : Text
  pub datatype : Text
  pub operation : Text

pub record Textfilecontent54State : Type 0 where
  pub id : Text
  pub comment : Text
  pub subexpression : Subexpression

pub record UbuntuRoot : Type 0 where
  pub definitions : List UbuntuDefinition
  pub tests : List Textfilecontent54Test
  pub objects : List Textfilecontent54Object
  pub states : List Textfilecontent54State

pub record DpkgInfoTest : Type 0 where
  pub name : Text
  pub fixed_version : Text

-- What a match with its groups adds to the objects: nothing unless it has one group.
unfoldable pub add_object : Text → List Text → Map Text → Map Text
add_object id [] objs = objs
add_object id (whole ∷ []) objs = objs
add_object id (whole ∷ name ∷ []) objs = insert id name objs
add_object id (whole ∷ name ∷ more ∷ groups) objs = objs

-- parseObjects: `find_submatches` is FindAllStringSubmatch, of which the first match is indexed.
unfoldable pub parse_objects :
    (Text → List (List Text)) → List Textfilecontent54Object → Map Text → Outcome (Map Text)
parse_objects find_submatches [] objs = ok objs
parse_objects find_submatches (obj ∷ rest) objs = elim (find_submatches obj.comment) [
  | [] ↦ panic
  | matched ∷ more ↦ parse_objects find_submatches rest (add_object obj.id matched objs)
]

unfoldable pub parse_states :
    List Textfilecontent54State → Map Textfilecontent54State → Map Textfilecontent54State
parse_states [] states = states
parse_states (state ∷ rest) states = parse_states rest (insert state.id state states)

-- The version of a state, where it is an upper bound.
unfoldable pub fixed_version_of : Textfilecontent54State → Text
fixed_version_of state =
    if text_eq state.subexpression.datatype (codes "debian_evr_string")
      && text_eq state.subexpression.operation (codes "less than")
    then state.subexpression.text
    else []

-- The second half of followTestRefs, for the package name found.
unfoldable pub follow_state_ref :
    Textfilecontent54Test → Text → Map Textfilecontent54State → Outcome DpkgInfoTest
follow_state_ref test pkg_name states =
    if text_eq test.state_ref []
    then ok (record { name = pkg_name; fixed_version = [] })
    else elim (lookup test.state_ref states) [
      | none ↦ err missing_ref
      | some state ↦ ok (record { name = pkg_name; fixed_version = fixed_version_of state })
    ]

unfoldable pub follow_test_refs :
    Textfilecontent54Test → Map Text → Map Textfilecontent54State → Outcome DpkgInfoTest
follow_test_refs test objects states =
    if text_eq test.object_ref []
    then ok (record { name = []; fixed_version = [] })
    else elim (lookup test.object_ref objects) [
      | none ↦ err missing_ref
      | some pkg_name ↦ follow_state_ref test pkg_name states
    ]

-- The loop of parseTests.
unfoldable pub follow_all :
    Map Text
    → Map Textfilecontent54State
    → List Textfilecontent54Test
    → Map DpkgInfoTest
    → Outcome (Map DpkgInfoTest)
follow_all objs states [] tests = ok tests
follow_all objs states (test ∷ rest) tests = elim (follow_test_refs test objs states) [
  | ok t ↦ follow_all objs states rest (insert test.id t tests)
  | err e ↦ err e
  | panic ↦ panic
]

unfoldable pub parse_tests : (Text → List (List Text)) → UbuntuRoot → Outcome (Map DpkgInfoTest)
parse_tests find_submatches root = do
  objs ← parse_objects find_submatches root.objects []
  follow_all objs (parse_states root.states []) root.tests []

abbrev pub is_unaffected : Text → Bool
is_unaffected comment =
    contains comment (codes "is related to the CVE in some way and has been fixed")
    || contains comment (codes "is affected and may need fixing")

abbrev pub is_unfixed : Text → Bool
is_unfixed comment =
    contains comment (codes "is affected and needs fixing")
    || (contains comment (codes "is affected, but a decision has been made to defer addressing it")
        || (contains comment (
              codes
                "is affected. An update containing the fix has been completed and is pending publication")
            || contains comment (
                codes
                  "while related to the CVE in some way, a decision has been made to ignore this issue")))

abbrev pub is_fixed : Text → Bool
is_fixed comment =
    contains comment (codes "was vulnerable but has been fixed")
    || contains comment (codes "was vulnerable and has been fixed")

-- What a comment says of the package of its test: the loop body after the two `continue`s.
unfoldable pub patch_of : DpkgInfoTest → Text → Option Package
patch_of t comment =
    if is_unaffected comment
    then none
    else if is_unfixed comment
    then some (record new_package { name = t.name; not_fixed_yet = true })
    else if is_fixed comment
    then some
        (record new_package { name = t.name; version = t.fixed_version; not_fixed_yet = false })
    else none

-- The loop body over the criterions.
unfoldable pub criterion_patch : Map DpkgInfoTest → Criterion → Option Package
criterion_patch tests c = elim (lookup c.test_ref tests) [
  | none ↦ none
  | some t ↦ patch_of t c.comment
]

abbrev pub put_some : Option Package → List Package → List Package
put_some none ps = ps
put_some (some p) ps = p ∷ ps

unfoldable pub walk_patches : List Criterion → Map DpkgInfoTest → List Package
walk_patches [] tests = []
walk_patches (c ∷ cs) tests = put_some (criterion_patch tests c) (walk_patches cs tests)

unfoldable mutual
  pub walk_criterion : Criteria → Map DpkgInfoTest → List Package
  walk_criterion (criteria operator nested cs) tests =
      walk_patches cs tests ++ walk_nested nested tests

  -- the loop over the nested criterias
  pub walk_nested : Criterias → Map DpkgInfoTest → List Package
  walk_nested no_criterias tests = []
  walk_nested (more_criterias c cs) tests = walk_criterion c tests ++ walk_nested cs tests

-- The layouts of a publication date.
abbrev pub date_layouts : List Text
date_layouts =
    codes "2006-01-02"
    ∷ codes "2006-01-02 15:04:05"
    ∷ codes "2006-01-02 15:04:05 +0000"
    ∷ codes "2006-01-02 15:04:05 UTC"
    ∷ []

abbrev pub link : Text → Text → Reference
link source url = record new_reference { source = source; ref_url = url }

module _ (parse : Text → Text → Option Time) (no_details : Bool) where
  unfoldable pub new_ubuntu_definition : Map DpkgInfoTest → UbuntuDefinition → Definition
  new_ubuntu_definition tests d =
      let refs = convert_references d.references in
      let date = parsed_or_default_time parse date_layouts d.advisory.public_date in
      with_details no_details (record new_definition {
        definition_id = d.id;
        title = d.title;
        description = d.description;
        advisory = record new_advisory {
          severity = d.advisory.severity;
          cves = refs.0;
          issued = date;
          updated = date;
        };
        affected_packs = walk_criterion d.criteria tests;
        references =
            refs.1
            ++ (map (link (codes "Ref")) d.advisory.refs
                ++ map (link (codes "Bug")) d.advisory.bugs);
      })

  unfoldable pub parse_definitions : List UbuntuDefinition → Map DpkgInfoTest → List Definition
  parse_definitions [] tests = []
  parse_definitions (d ∷ ds) tests =
      let rest = parse_definitions ds tests in
      if is_rejected d.description then rest else new_ubuntu_definition tests d ∷ rest

  -- ConvertToModel
  unfoldable pub convert_ubuntu : (Text → List (List Text)) → UbuntuRoot → Outcome (List Definition)
  convert_ubuntu find_submatches root = do
    tests ← parse_tests find_submatches root
    ok (parse_definitions root.definitions tests)
