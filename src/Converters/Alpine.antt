-- ===== src/Converters/Alpine.antt =====
-- models/alpine. The two maps that the converter ranges over are taken in the order of their
-- entries.
pub mod Laws
use goval_dictionary_v.Prelude.{
  Bool, true, false, List, [], ◌∷◌, ◌++◌, Option, none, some, map, if◌then◌else◌,
}
use goval_dictionary_v.Text.{Text, codes, text_eq, has_prefix}
use goval_dictionary_v.GoMap.{Map, lookup, insert}
use goval_dictionary_v.Models.{
  default_time, new_reference, Package, new_package, new_advisory, Definition, new_definition,
}
use goval_dictionary_v.Converters.Common.{with_details, first_word}
use goval_dictionary_v.Converters.Updates.{cve_url, cve_of}

pub record Pkg : Type 0 where
  pub name : Text
  pub secfixes : Map (List Text)

pub record SecDb : Type 0 where
  pub distroversion : Text
  pub reponame : Text
  pub urlprefix : Text
  pub apkurl : Text
  pub packages : List Pkg

-- Either branch on whether the CVE has packages already.
unfoldable pub add_pack : Text → Package → Map (List Package) → Map (List Package)
add_pack cve_id pack m = elim (lookup cve_id m) [
  | none ↦ insert cve_id (pack ∷ []) m
  | some packs ↦ insert cve_id (packs ++ (pack ∷ [])) m
]

abbrev pub fixed_in : Text → Text → Package
fixed_in name ver = record new_package { name = name; version = ver }

-- The loop over the ids of one version.
unfoldable pub add_vuln_ids : Text → Text → List Text → Map (List Package) → Map (List Package)
add_vuln_ids name ver [] m = m
add_vuln_ids name ver (s ∷ ss) m = add_vuln_ids name ver ss (
    if has_prefix (first_word s) (codes "CVE")
    then add_pack (first_word s) (fixed_in name ver) m
    else m)

-- The loop over Secfixes.
unfoldable pub add_secfixes : Text → Map (List Text) → Map (List Package) → Map (List Package)
add_secfixes name [] m = m
add_secfixes name ((ver, ids) ∷ rest) m = add_secfixes name rest (add_vuln_ids name ver ids m)

-- The loop over the packages.
unfoldable pub packs_by_cve : List Pkg → Map (List Package) → Map (List Package)
packs_by_cve [] m = m
packs_by_cve (p ∷ ps) m = packs_by_cve ps (add_secfixes p.name p.secfixes m)

-- def-%s-%s-%s
unfoldable pub alpine_id : SecDb → Text → Text
alpine_id data_ cve_id =
    codes "def-"
    ++ (data_.reponame ++ (codes "-" ++ (data_.distroversion ++ (codes "-" ++ cve_id))))

unfoldable pub new_alpine_definition : Bool → SecDb → Text × List Package → Definition
new_alpine_definition no_details data_ p = with_details no_details (record new_definition {
  definition_id = alpine_id data_ p.0;
  title = p.0;
  advisory = record new_advisory {
    cves = cve_of p.0 ∷ [];
    issued = default_time;
    updated = default_time;
  };
  affected_packs = p.1;
  references =
      record new_reference { source = codes "CVE"; ref_id = p.0; ref_url = cve_url p.0 } ∷ [];
})

-- ConvertToModel
unfoldable pub convert_alpine : Bool → SecDb → List Definition
convert_alpine no_details data_ =
    map (new_alpine_definition no_details data_) (packs_by_cve data_.packages [])
