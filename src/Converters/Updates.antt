-- ===== src/Converters/Updates.antt =====
-- models/amazon and models/fedora: the converters of the update lists. The dates of issue and update
-- are texts, not structs of one text; the attribute `type` is called `kind`.
pub mod Laws
use goval_dictionary_v.Prelude.{Bool, true, false, List, [], ◌∷◌, ◌++◌, Option, map, if◌then◌else◌}
use goval_dictionary_v.Text.{Text, codes, text_eq}
use goval_dictionary_v.Models.{
  Time, Cve, new_cve, Reference, new_reference, Bugzilla, new_bugzilla, Package, new_package,
  new_advisory, Definition, new_definition,
}
use goval_dictionary_v.Converters.Common.{is_rejected, parsed_or_default_time, with_details}

pub record UpdateReference : Type 0 where
  pub href : Text
  pub id : Text
  pub title : Text
  pub kind : Text

pub record UpdatePackage : Type 0 where
  pub name : Text
  pub epoch : Text
  pub version : Text
  pub release : Text
  pub arch : Text
  pub filename : Text

pub record AmazonUpdate : Type 0 where
  pub id : Text
  pub title : Text
  pub issued : Text
  pub updated : Text
  pub severity : Text
  pub description : Text
  pub packages : List UpdatePackage
  pub references : List UpdateReference
  pub cve_ids : List Text
  pub repository : Text

pub record FedoraUpdate : Type 0 where
  pub id : Text
  pub title : Text
  pub kind : Text
  pub issued : Text
  pub updated : Text
  pub severity : Text
  pub description : Text
  pub packages : List UpdatePackage
  pub modularity_label : Text
  pub references : List UpdateReference
  pub cve_ids : List Text

-- https://cve.mitre.org/cgi-bin/cvename.cgi?name=%s
unfoldable pub cve_url : Text → Text
cve_url cve_id = codes "https://cve.mitre.org/cgi-bin/cvename.cgi?name=" ++ cve_id

abbrev pub cve_of : Text → Cve
cve_of cve_id = record new_cve { cve_id = cve_id; href = cve_url cve_id }

-- %s:%s-%s of the epoch, the version and the release
unfoldable pub evr : UpdatePackage → Text
evr p = p.epoch ++ (codes ":" ++ (p.version ++ (codes "-" ++ p.release)))

unfoldable pub amazon_package : UpdatePackage → Package
amazon_package p = record new_package { name = p.name; version = evr p; arch = p.arch }

unfoldable pub fedora_package : Text → UpdatePackage → Package
fedora_package label p = record new_package {
  name = p.name;
  version = evr p;
  arch = p.arch;
  modularity_label = label;
}

abbrev pub update_reference : UpdateReference → Reference
update_reference r = record new_reference { source = r.kind; ref_id = r.id; ref_url = r.href }

-- The Bugzilla entries among the references.
unfoldable pub bugzillas_of : List UpdateReference → List Bugzilla
bugzillas_of [] = []
bugzillas_of (r ∷ rs) =
    let rest = bugzillas_of rs in
    if text_eq r.kind (codes "bugzilla")
    then record new_bugzilla { bugzilla_id = r.id; url = r.href; title = r.title } ∷ rest
    else rest

module _ (parse : Text → Text → Option Time) (no_details : Bool) where
  unfoldable pub new_amazon_definition : AmazonUpdate → Definition
  new_amazon_definition alas = with_details no_details (record new_definition {
    definition_id = codes "def-" ++ alas.id;
    title = alas.id;
    description = alas.description;
    advisory = record new_advisory {
      severity = alas.severity;
      cves = map cve_of alas.cve_ids;
      affected_repository = alas.repository;
      issued = parsed_or_default_time parse (codes "2006-01-02 15:04" ∷ []) alas.issued;
      updated = parsed_or_default_time parse (codes "2006-01-02 15:04" ∷ []) alas.updated;
    };
    affected_packs = map amazon_package alas.packages;
    references = map update_reference alas.references;
  })

  -- ConvertToModel of models/amazon
  unfoldable pub convert_amazon : List AmazonUpdate → List Definition
  convert_amazon [] = []
  convert_amazon (alas ∷ rest) =
      let defs = convert_amazon rest in
      if is_rejected alas.description then defs else new_amazon_definition alas ∷ defs

  unfoldable pub new_fedora_definition : FedoraUpdate → Definition
  new_fedora_definition update = with_details no_details (record new_definition {
    definition_id = codes "def-" ++ update.id;
    title = update.id;
    description = update.description;
    advisory = record new_advisory {
      severity = update.severity;
      cves = map cve_of update.cve_ids;
      bugzillas = bugzillas_of update.references;
      issued = parsed_or_default_time parse (codes "2006-01-02 15:04:05" ∷ []) update.issued;
      updated = parsed_or_default_time parse (codes "2006-01-02 15:04:05" ∷ []) update.updated;
    };
    affected_packs = map (fedora_package update.modularity_label) update.packages;
    references = map update_reference update.references;
  })

  -- ConvertToModel of models/fedora
  unfoldable pub convert_fedora : List FedoraUpdate → List Definition
  convert_fedora [] = []
  convert_fedora (update ∷ rest) =
      let defs = convert_fedora rest in
      if is_rejected update.description then defs else new_fedora_definition update ∷ defs
