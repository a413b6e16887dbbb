-- ===== src/Converters/Suse/Convert.antt =====
-- models/suse/suse.go: parseDefinitions and ConvertToModel.
pub mod Releases
use goval_dictionary_v.Prelude.{Bool, true, false, ◌||◌, List, [], ◌∷◌, ◌++◌, map, if◌then◌else◌}
use goval_dictionary_v.Outcome.{Outcome, ok, err, panic, ◌>>=◌}
use goval_dictionary_v.Text.{Text, codes, contains, has_prefix}
use goval_dictionary_v.GoMap.{Map}
use goval_dictionary_v.Models.{
  default_time, Cve, new_cve, Bugzilla, new_bugzilla, Cpe, Package, new_advisory, Definition,
  new_definition,
}
use goval_dictionary_v.Converters.Common.{is_rejected, with_details, new_ref}
use goval_dictionary_v.Converters.Releases.{packs_by_release, add_releases}
use goval_dictionary_v.Converters.Suse.{
  SuseCve, SuseBugzilla, SuseDefinition, SuseRoot, RpmInfoTest, parse_tests,
}
use goval_dictionary_v.Converters.Suse.Walk.{collect_suse_packs}

-- The feeds without a list of CVEs, whose title may be one.
unfoldable pub is_titled_by_cve : Text → Bool
is_titled_by_cve xml_name =
    contains xml_name (codes "opensuse.1")
    || contains xml_name (codes "suse.linux.enterprise.desktop.10")
    || contains xml_name (codes "suse.linux.enterprise.server.9")
    || contains xml_name (codes "suse.linux.enterprise.server.10")

unfoldable pub suse_cves : Text → SuseDefinition → List Cve
suse_cves xml_name d =
    if is_titled_by_cve xml_name
    then (if has_prefix d.title (codes "CVE-")
        then record new_cve {
          cve_id = d.title;
          href = codes "https://cve.mitre.org/cgi-bin/cvename.cgi?name=" ++ d.title;
        }
          ∷ []
        else [])
    else map
        (λ (c : SuseCve). record new_cve {
          cve_id = c.cve_id;
          cvss3 = c.cvss3;
          impact = c.impact;
          href = c.href;
        })
        d.advisory.cves

unfoldable pub new_suse_definition : Bool → Text → SuseDefinition → List Package → Definition
new_suse_definition no_details xml_name d packs = with_details no_details (record new_definition {
  definition_id = d.id;
  title = d.title;
  description = d.description;
  advisory = record new_advisory {
    severity = d.advisory.severity;
    cves = suse_cves xml_name d;
    bugzillas =
        map (λ (b : SuseBugzilla). record new_bugzilla { url = b.url; title = b.title })
          d.advisory.bugzillas;
    affected_cpe_list =
        map (λ (c : Text). record { id = 0; advisory_id = 0; cpe = c })
          d.advisory.affected_cpe_list;
    issued = default_time;
    updated = default_time;
  };
  affected_packs = packs;
  references = map new_ref d.references;
})

module _ (is_version : Text → Bool) (no_details : Bool) where
  unfoldable pub parse_definitions_from :
      Text
      → Map RpmInfoTest
      → List SuseDefinition
      → Map (List Definition)
      → Outcome (Map (List Definition))
  parse_definitions_from xml_name tests [] m = ok m
  parse_definitions_from xml_name tests (d ∷ ds) m = elim (is_rejected d.description) [
    | true ↦ parse_definitions_from xml_name tests ds m
    | false ↦ collect_suse_packs is_version xml_name d.criteria tests >>= (λ ps.
        parse_definitions_from xml_name tests ds
          (add_releases (new_suse_definition no_details xml_name d) (packs_by_release ps []) m))
  ]

  unfoldable pub convert_suse : Text → SuseRoot → Outcome (Map (List Definition))
  convert_suse xml_name root = do
    tests ← parse_tests root
    parse_definitions_from xml_name tests root.definitions []
