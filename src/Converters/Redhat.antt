-- ===== src/Converters/Redhat.antt =====
-- models/redhat: the types that the converter reads and redhat.go. The list of affected platforms,
-- which no function reads, is left out; the two dates of an advisory are texts of their own. The
-- comparison of go-rpm-version is a parameter. Go's `range` over a map has no order of its own;
-- maps.Values is given here in the order of insertion.
pub mod Walked
pub mod Newest
pub mod Definitions
use goval_dictionary_v.Prelude.{
  Bool, true, false, ◌&&◌, ◌||◌, not, List, [], ◌∷◌, ◌++◌, Option, none, some, map, if◌then◌else◌,
}
use goval_dictionary_v.Text.{
  Text, codes, text_eq, has_prefix, has_suffix, trim_prefix, trim_suffix, contains, split,
}
use goval_dictionary_v.GoMap.{Map, lookup, insert, map_values}
use goval_dictionary_v.Models.{
  Time, Cve, new_cve, Bugzilla, new_bugzilla, Cpe, Package, new_package, new_advisory, Definition,
  new_definition,
}
use goval_dictionary_v.Converters.Common.{
  is_rejected, parsed_or_default_time, with_details, new_ref, first_word,
}
use goval_dictionary_v.Converters.Oval.{
  Criterion, Criteria, criteria, Criterias, no_criterias, more_criterias, OvalReference,
}
use goval_dictionary_v.Converters.Oval.Walk.{append_some}

pub record RedhatCve : Type 0 where
  pub cve_id : Text
  pub cvss2 : Text
  pub cvss3 : Text
  pub cwe : Text
  pub impact : Text
  pub href : Text
  pub public : Text

pub record RedhatBugzilla : Type 0 where
  pub id : Text
  pub url : Text
  pub title : Text

pub record AffectedPkgs : Type 0 where
  pub state : Text
  pub component : List Text

pub record RedhatAdvisory : Type 0 where
  pub severity : Text
  pub rights : Text
  pub cves : List RedhatCve
  pub bugzillas : List RedhatBugzilla
  pub affected_cpe_list : List Text
  pub affected : AffectedPkgs
  pub issued : Text
  pub updated : Text

pub record RedhatDefinition : Type 0 where
  pub id : Text
  pub class : Text
  pub title : Text
  pub references : List OvalReference
  pub description : Text
  pub advisory : RedhatAdvisory
  pub criteria : Criteria

-- The test at the head of the loop body of walkRedHat.
unfoldable pub next_label : Text → Criterion → Text
next_label label c =
    if has_prefix c.comment (codes "Module ") && has_suffix c.comment (codes " is enabled")
    then trim_suffix (trim_prefix c.comment (codes "Module ")) (codes " is enabled")
    else label

-- The rest of the loop body, on the pieces of the comment.
unfoldable pub read_redhat_pack : Text → List Text → Option Package
read_redhat_pack label [] = none
read_redhat_pack label (name ∷ []) = none
read_redhat_pack label (name ∷ fixed ∷ []) =
    some (record new_package { name = name; version = first_word fixed; modularity_label = label })
read_redhat_pack label (name ∷ fixed ∷ more ∷ ps) = none

unfoldable pub criterion_redhat_pack : Text → Criterion → Option Package
criterion_redhat_pack label c = read_redhat_pack label (split c.comment (codes " is earlier than "))

-- The loop over the criterions, with the label and the packages it leaves.
unfoldable pub walk_redhat_criterions : List Criterion → Text → List Package → Text × List Package
walk_redhat_criterions [] label acc = (label, acc)
walk_redhat_criterions (c ∷ cs) label acc =
    let seen = next_label label c in
    walk_redhat_criterions cs seen (append_some acc (criterion_redhat_pack seen c))

unfoldable mutual
  pub walk_redhat : Criteria → Text → List Package → List Package
  walk_redhat (criteria operator nested cs) label acc =
      let found = walk_redhat_criterions cs label acc in walk_redhats nested found.0 found.1

  -- the loop over the nested criterias
  pub walk_redhats : Criterias → Text → List Package → List Package
  walk_redhats no_criterias label acc = acc
  walk_redhats (more_criterias c cs) label acc = walk_redhats cs label (walk_redhat c label acc)

-- Whether a package is for the release `v`.
unfoldable pub is_for_release : Text → Package → Bool
is_for_release v p =
    contains p.version (codes ".el" ++ v) || contains p.version (codes ".module+el" ++ v)

-- The key of a package.
unfoldable pub pack_key : Package → Text
pack_key p =
    if text_eq p.modularity_label [] then p.name else p.modularity_label ++ (codes "::" ++ p.name)

abbrev pub new_cpe : Text → Cpe
new_cpe t = record { id = 0; advisory_id = 0; cpe = t }

module _ (greater_than : Text → Text → Bool) where
  -- What is stored for a package after the entry that is there already, if any.
  unfoldable pub newer : Option Package → Package → Package
  newer none p = p
  newer (some base) p = if greater_than base.version p.version then base else p

  -- The loop of collectRedHatPacks.
  unfoldable pub newest_packs : Text → List Package → Map Package → Map Package
  newest_packs v [] pkgs = pkgs
  newest_packs v (p ∷ ps) pkgs = newest_packs v ps (
      if is_for_release v p
      then insert (pack_key p) (newer (lookup (pack_key p) pkgs) p) pkgs
      else pkgs)

  unfoldable pub collect_redhat_packs : Text → Criteria → List Package
  collect_redhat_packs v cri = map_values (newest_packs v (walk_redhat cri [] []) [])

  module _ (parse : Text → Text → Option Time) (no_details : Bool) where
    unfoldable pub new_redhat_definition : Text → RedhatDefinition → Definition
    new_redhat_definition v d = with_details no_details (record new_definition {
      definition_id = d.id;
      title = d.title;
      description = d.description;
      advisory = record new_advisory {
        severity = d.advisory.severity;
        cves =
            map
              (λ (c : RedhatCve). record new_cve {
                cve_id = c.cve_id;
                cvss2 = c.cvss2;
                cvss3 = c.cvss3;
                cwe = c.cwe;
                impact = c.impact;
                href = c.href;
                public = c.public;
              })
              d.advisory.cves;
        bugzillas =
            map
              (λ (b : RedhatBugzilla). record new_bugzilla {
                bugzilla_id = b.id;
                url = b.url;
                title = b.title;
              })
              d.advisory.bugzillas;
        affected_cpe_list = map new_cpe d.advisory.affected_cpe_list;
        issued = parsed_or_default_time parse (codes "2006-01-02" ∷ []) d.advisory.issued;
        updated = parsed_or_default_time parse (codes "2006-01-02" ∷ []) d.advisory.updated;
      };
      affected_packs = collect_redhat_packs v d.criteria;
      references = map new_ref d.references;
    })

    -- The loop over the definitions of a root; one that is there already is kept.
    unfoldable pub add_redhat_definitions :
        Text → List RedhatDefinition → Map Definition → Map Definition
    add_redhat_definitions v [] defs = defs
    add_redhat_definitions v (d ∷ ds) defs = add_redhat_definitions v ds (
        if is_rejected d.description then defs else elim (lookup d.id defs) [
          | none ↦ insert d.id (new_redhat_definition v d) defs
          | some first ↦ defs
        ])

    -- The loop over the roots.
    unfoldable pub add_redhat_roots :
        Text → List (List RedhatDefinition) → Map Definition → Map Definition
    add_redhat_roots v [] defs = defs
    add_redhat_roots v (ds ∷ roots) defs =
        add_redhat_roots v roots (add_redhat_definitions v ds defs)

    -- ConvertToModel, on the definitions of each root.
    unfoldable pub convert_redhat : Text → List (List RedhatDefinition) → List Definition
    convert_redhat v roots = map_values (add_redhat_roots v roots [])
