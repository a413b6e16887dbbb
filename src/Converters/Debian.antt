-- ===== src/Converters/Debian.antt =====
-- models/debian: the types that the converter reads and debian.go. The list of affected platforms,
-- which no function reads, is left out.
pub mod Packs
pub mod Laws
use goval_dictionary_v.Prelude.{
  Bool, true, false, ◌&&◌, List, [], ◌∷◌, ◌++◌, Option, none, some, map, if◌then◌else◌,
}
use goval_dictionary_v.Text.{
  Text, codes, text_eq, has_prefix, has_suffix, trim_prefix, trim_suffix, split,
}
use goval_dictionary_v.Models.{
  Time, default_time, Cve, new_cve, Reference, new_reference, Package, new_package, Advisory,
  new_advisory, Definition, new_definition,
}
use goval_dictionary_v.Models
use goval_dictionary_v.Converters.Common.{
  is_rejected, parsed_or_default_time, with_details, first_word, convert_references,
}
use goval_dictionary_v.Converters.Oval.{
  Criterion, Criteria, criteria, Criterias, no_criterias, more_criterias, OvalReference,
}
use goval_dictionary_v.Converters.Oval.Walk.{append_some}

pub record DebianInfo : Type 0 where
  pub dsa : Text
  pub more_info : Text
  pub date : Text

pub record OvalDefinition : Type 0 where
  pub id : Text
  pub class : Text
  pub title : Text
  pub references : List OvalReference
  pub description : Text
  pub debian : DebianInfo
  pub criteria : Criteria

pub record DistroPackage : Type 0 where
  pub os_ver : Text
  pub pack : Package

-- The test at the head of the loop body of walkDebian.
unfoldable pub next_os_ver : Text → Criterion → Text
next_os_ver os_ver c =
    if has_prefix c.comment (codes "Debian ") && has_suffix c.comment (codes " is installed")
    then trim_suffix (trim_prefix c.comment (codes "Debian ")) (codes " is installed")
    else os_ver

-- The rest of the loop body, on the pieces of the comment.
unfoldable pub read_pack : Text → List Text → Option DistroPackage
read_pack os_ver [] = none
read_pack os_ver (name ∷ []) = none
read_pack os_ver (name ∷ fixed ∷ []) =
    if text_eq fixed (codes "0")
    then none
    else some (record {
      os_ver = os_ver;
      pack = record new_package { name = name; version = first_word fixed };
    })
read_pack os_ver (name ∷ fixed ∷ more ∷ ps) = none

unfoldable pub criterion_pack : Text → Criterion → Option DistroPackage
criterion_pack os_ver c = read_pack os_ver (split c.comment (codes " DPKG is earlier than "))

-- The loop over the criterions, with the release and the packages it leaves.
unfoldable pub walk_criterions :
    List Criterion → Text → List DistroPackage → Text × List DistroPackage
walk_criterions [] os_ver acc = (os_ver, acc)
walk_criterions (c ∷ cs) os_ver acc =
    let seen = next_os_ver os_ver c in
    walk_criterions cs seen (append_some acc (criterion_pack seen c))

unfoldable mutual
  pub walk_debian : Criteria → Text → List DistroPackage → List DistroPackage
  walk_debian (criteria operator nested cs) os_ver acc =
      let found = walk_criterions cs os_ver acc in walk_debians nested found.0 found.1

  -- the loop over the nested criterias
  pub walk_debians : Criterias → Text → List DistroPackage → List DistroPackage
  walk_debians no_criterias os_ver acc = acc
  walk_debians (more_criterias c cs) os_ver acc = walk_debians cs os_ver (walk_debian c os_ver acc)

unfoldable pub collect_debian_packs : Criteria → List Package
collect_debian_packs cri = map (λ (p : DistroPackage). p.pack) (walk_debian cri [] [])

-- time.Parse and the no-details flag are parameters.
module _ (parse : Text → Text → Option Time) (no_details : Bool) where
  unfoldable pub new_debian_definition : OvalDefinition → Definition
  new_debian_definition d =
      let refs = convert_references d.references in
      record new_definition {
        definition_id = d.id;
        title = d.title;
        description = d.description;
        advisory = record new_advisory {
          cves = refs.0;
          issued = default_time;
          updated = default_time;
        };
        debian = some (record {
          id = 0;
          definition_id = 0;
          more_info = d.debian.more_info;
          date = parsed_or_default_time parse (codes "2006-01-02" ∷ []) d.debian.date;
        });
        affected_packs = collect_debian_packs d.criteria;
        references = refs.1;
      }

  unfoldable pub convert_debian_definition : OvalDefinition → Definition
  convert_debian_definition d =
      let def = with_details no_details (new_debian_definition d) in
      if no_details then record def { debian = none } else def

  -- ConvertToModel, on the definitions of the root.
  unfoldable pub convert_debian : List OvalDefinition → List Definition
  convert_debian [] = []
  convert_debian (d ∷ ds) =
      let rest = convert_debian ds in
      if is_rejected d.description then rest else convert_debian_definition d ∷ rest
