-- ===== src/Converters/Suse/Walk.antt =====
-- models/suse/suse.go: walkCriterion, walkCriteria and collectSUSEPacks.
pub mod Flat
pub mod Products
use goval_dictionary_v.Prelude.{
  Bool, true, false, ◌&&◌, ◌||◌, List, [], ◌∷◌, ◌++◌, Option, none, some, if◌then◌else◌,
}
use goval_dictionary_v.Outcome.{Outcome, ok, err, panic, ◌>>=◌}
use goval_dictionary_v.Text.{Text, codes, text_eq, contains, has_suffix, trim_prefix, trim_suffix}
use goval_dictionary_v.GoMap.{Map, lookup}
use goval_dictionary_v.Models.{Package, new_package}
use goval_dictionary_v.Converters.Releases.{ReleasePackage}
use goval_dictionary_v.Converters.Oval.{
  Criterion, Criteria, criteria, Criterias, no_criterias, more_criterias,
}
use goval_dictionary_v.Converters.Oval.Walk.{append_some}
use goval_dictionary_v.Converters.Suse.{RpmInfoTest}
use goval_dictionary_v.Converters.Suse.Platform.{is_os_comment, get_os_version}

-- The package of a criterion that names no platform; one on a signature has none.
unfoldable pub read_suse_pack : Map RpmInfoTest → Criterion → Option Package
read_suse_pack tests c =
    if has_suffix c.comment (codes "is not affected")
    then none
    else elim (lookup c.test_ref tests) [
      | none ↦ none
      | some t ↦
          if text_eq t.signature_keyid.text []
          then some (record new_package { name = t.name; version = t.fixed_version })
          else none
    ]

-- `append` of a release that is not empty
unfoldable pub found_version : Text → Option Text
found_version [] = none
found_version (c ∷ v) = some (c ∷ v)

abbrev pub Found : Type 0
Found = List Text × List Package

-- The two loops over the packages found by walkCriterion.
unfoldable pub for_release : Text → List Package → List ReleasePackage
for_release v [] = []
for_release v (p ∷ ps) = record { os_ver = v; pack = p } ∷ for_release v ps

unfoldable pub for_releases : List Text → List Package → List ReleasePackage
for_releases [] ps = []
for_releases (v ∷ vs) ps = for_release v ps ++ for_releases vs ps

module _ (is_version : Text → Bool) where
  -- The release that a platform's comment names, if getOSVersion finds one.
  unfoldable pub read_os_comment : Criterion → Outcome (Option Text)
  read_os_comment c =
      elim (get_os_version is_version (trim_suffix c.comment (codes " is installed"))) [
        | ok v ↦ ok (found_version v)
        | err e ↦ ok none
        | panic ↦ panic
      ]

  -- The body of the loop over the criterions.
  unfoldable pub read_criterion : Map RpmInfoTest → Criterion → Found → Outcome Found
  read_criterion tests c found =
      if is_os_comment c.comment
      then read_os_comment c >>= (λ v. ok (append_some found.0 v, found.1))
      else ok (found.0, append_some found.1 (read_suse_pack tests c))

  unfoldable pub walk_criterions : Map RpmInfoTest → List Criterion → Found → Outcome Found
  walk_criterions tests [] found = ok found
  walk_criterions tests (c ∷ cs) found = read_criterion tests c found >>= walk_criterions tests cs

  unfoldable mutual
    pub walk_criterion : Map RpmInfoTest → Criteria → Found → Outcome Found
    walk_criterion tests (criteria operator nested cs) found =
        walk_criterions tests cs found >>= walk_criterion_all tests nested

    -- the loop over the nested criterias
    pub walk_criterion_all : Map RpmInfoTest → Criterias → Found → Outcome Found
    walk_criterion_all tests no_criterias found = ok found
    walk_criterion_all tests (more_criterias c cs) found =
        walk_criterion tests c found >>= walk_criterion_all tests cs

  unfoldable mutual
    pub walk_criteria :
        Map RpmInfoTest → Criteria → List ReleasePackage → Outcome (List ReleasePackage)
    walk_criteria tests (criteria operator nested cs) acc = elim (text_eq operator (codes "AND")) [
      | true ↦
          walk_criterion tests (criteria operator nested cs) ([], [])
          >>= (λ found. ok (acc ++ for_releases found.0 found.1))
      | false ↦ walk_criteria_all tests nested acc
    ]

    pub walk_criteria_all :
        Map RpmInfoTest → Criterias → List ReleasePackage → Outcome (List ReleasePackage)
    walk_criteria_all tests no_criterias acc = ok acc
    walk_criteria_all tests (more_criterias c cs) acc =
        walk_criteria tests c acc >>= walk_criteria_all tests cs

  unfoldable pub collect_suse_packs :
      Text → Criteria → Map RpmInfoTest → Outcome (List ReleasePackage)
  collect_suse_packs xml_name cri tests =
      if contains xml_name (codes "opensuse.12")
      then walk_criterion tests cri ([], []) >>= (λ found. ok (
          for_release (trim_suffix (trim_prefix xml_name (codes "opensuse.")) (codes ".xml"))
            found.1))
      else walk_criteria tests cri []
