-- ===== src/Converters/Oracle.antt =====
-- models/oracle: the types that the converter reads and oracle.go. The list of affected platforms,
-- which no function reads, is left out; the date of issue is a text of its own.
pub mod Packs
pub mod Releases
use goval_dictionary_v.Prelude.{
  Bool, true, false, ◌&&◌, List, [], ◌∷◌, ◌++◌, Option, none, some, map, if◌then◌else◌,
}
use goval_dictionary_v.Text.{
  Text, codes, text_eq, has_prefix, has_suffix, trim_prefix, trim_suffix, trim_space, split,
}
use goval_dictionary_v.GoMap.{Map, values, insert}
use goval_dictionary_v.Models.{
  default_time, Cve, new_cve, Package, new_package, new_advisory, Definition, new_definition,
}
use goval_dictionary_v.Converters.Common.{is_rejected, with_details, new_ref, first_word}
use goval_dictionary_v.Converters.Releases.{ReleasePackage, packs_by_release, add_releases}
use goval_dictionary_v.Converters.Oval.{
  Criterion, Criteria, criteria, Criterias, no_criterias, more_criterias, OvalReference,
}
use goval_dictionary_v.Converters.Oval.Walk.{append_some}

pub record OracleCve : Type 0 where
  pub cve_id : Text
  pub href : Text

pub record OracleAdvisory : Type 0 where
  pub severity : Text
  pub rights : Text
  pub cves : List OracleCve
  pub issued : Text

pub record OracleDefinition : Type 0 where
  pub id : Text
  pub class : Text
  pub title : Text
  pub references : List OvalReference
  pub description : Text
  pub advisory : OracleAdvisory
  pub criteria : Criteria

-- The two tests at the head of the loop body of walkOracle: the release and the architecture.
unfoldable pub next_platform : Text × Text → Criterion → Text × Text
next_platform p c =
    let os_ver =
      if has_prefix c.comment (codes "Oracle Linux ")
        && has_suffix c.comment (codes " is installed")
      then trim_suffix (trim_prefix c.comment (codes "Oracle Linux ")) (codes " is installed")
      else p.0 in
    let arch =
      if has_prefix c.comment (codes "Oracle Linux arch is ")
      then trim_space (trim_prefix c.comment (codes "Oracle Linux arch is "))
      else p.1 in
    (os_ver, arch)

-- The rest of the loop body, on the pieces of the comment.
unfoldable pub read_oracle_pack : Text × Text → List Text → Option ReleasePackage
read_oracle_pack p [] = none
read_oracle_pack p (name ∷ []) = none
read_oracle_pack p (name ∷ fixed ∷ []) =
    if text_eq fixed (codes "0")
    then none
    else some (record {
      os_ver = p.0;
      pack = record new_package { name = name; version = first_word fixed; arch = p.1 };
    })
read_oracle_pack p (name ∷ fixed ∷ more ∷ ps) = none

unfoldable pub criterion_oracle_pack : Text × Text → Criterion → Option ReleasePackage
criterion_oracle_pack p c = read_oracle_pack p (split c.comment (codes " is earlier than "))

-- The loop over the criterions, with the release, the architecture and the packages it leaves.
unfoldable pub walk_oracle_criterions :
    List Criterion → Text × Text → List ReleasePackage → (Text × Text) × List ReleasePackage
walk_oracle_criterions [] p acc = (p, acc)
walk_oracle_criterions (c ∷ cs) p acc =
    let seen = next_platform p c in
    walk_oracle_criterions cs seen (append_some acc (criterion_oracle_pack seen c))

unfoldable mutual
  pub walk_oracle : Criteria → Text × Text → List ReleasePackage → List ReleasePackage
  walk_oracle (criteria operator nested cs) p acc =
      let found = walk_oracle_criterions cs p acc in walk_oracles nested found.0 found.1

  -- the loop over the nested criterias
  pub walk_oracles : Criterias → Text × Text → List ReleasePackage → List ReleasePackage
  walk_oracles no_criterias p acc = acc
  walk_oracles (more_criterias c cs) p acc = walk_oracles cs p (walk_oracle c p acc)

unfoldable pub collect_oracle_packs : Criteria → List ReleasePackage
collect_oracle_packs cri = walk_oracle cri ([], []) []

module _ (no_details : Bool) where
  unfoldable pub new_oracle_definition : OracleDefinition → List Package → Definition
  new_oracle_definition d packs = with_details no_details (record new_definition {
    definition_id = d.id;
    title = trim_space d.title;
    description = trim_space d.description;
    advisory = record new_advisory {
      severity = d.advisory.severity;
      cves =
          map (λ (c : OracleCve). record new_cve { cve_id = c.cve_id; href = c.href })
            d.advisory.cves;
      issued = default_time;
      updated = default_time;
    };
    affected_packs = packs;
    references = map new_ref d.references;
  })

  unfoldable pub convert_oracle_from :
      List OracleDefinition → Map (List Definition) → Map (List Definition)
  convert_oracle_from [] m = m
  convert_oracle_from (d ∷ ds) m = convert_oracle_from ds (
      if is_rejected d.description
      then m
      else add_releases (new_oracle_definition d)
          (packs_by_release (collect_oracle_packs d.criteria) []) m)

  -- ConvertToModel, on the definitions of the root.
  unfoldable pub convert_oracle : List OracleDefinition → Map (List Definition)
  convert_oracle ds = convert_oracle_from ds []
