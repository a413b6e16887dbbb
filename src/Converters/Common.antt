-- ===== src/Converters/Common.antt =====
-- What the converters share: models/util/util.go, the filter on rejected definitions, and the
-- erasure of the details.
pub mod Laws
use goval_dictionary_v.Prelude.{
  Bool, true, false, ◌||◌, List, [], ◌∷◌, Option, none, some, if◌then◌else◌,
}
use goval_dictionary_v.Text.{Text, codes, text_eq, contains, split}
use goval_dictionary_v.Models.{
  Time, zero_time, default_time, Definition, Reference, new_reference, Cve, new_cve,
}
use goval_dictionary_v.Converters.Oval.{OvalReference}

-- The loop over the layouts, with time.Parse of the Go library as a parameter.
unfoldable pub first_parsed : (Text → Text → Option Time) → List Text → Text → Time
first_parsed parse [] value = default_time
first_parsed parse (layout ∷ layouts) value = elim (parse layout value) [
  | none ↦ first_parsed parse layouts value
  | some t ↦ t
]

unfoldable pub parsed_or_default_time : (Text → Text → Option Time) → List Text → Text → Time
parsed_or_default_time parse layouts value =
    if text_eq value [] || text_eq value (codes "unknown")
    then default_time
    else first_parsed parse layouts value

unfoldable pub is_rejected : Text → Bool
is_rejected description = contains description (codes "** REJECT **")

-- The assignments under `no-details`, which are the same in every converter but for the Debian
-- record.
unfoldable pub erase_details : Definition → Definition
erase_details def = record def {
  title = [];
  description = [];
  advisory = record def.advisory {
    severity = [];
    bugzillas = [];
    affected_cpe_list = [];
    issued = zero_time;
    updated = zero_time;
  };
  references = [];
}

unfoldable pub with_details : Bool → Definition → Definition
with_details no_details def = if no_details then erase_details def else def

-- strings.Split(s, " ")[0]
unfoldable pub first_word : Text → Text
first_word s = elim (split s (codes " ")) [ [] ↦ [] | p ∷ ps ↦ p ]

-- The references, copied field by field.
abbrev pub new_ref : OvalReference → Reference
new_ref r = record new_reference { source = r.source; ref_id = r.ref_id; ref_url = r.ref_url }

-- The references of a definition, and those of them that are CVEs.
unfoldable pub convert_references : List OvalReference → List Cve × List Reference
convert_references [] = ([], [])
convert_references (r ∷ rs) =
    let rest = convert_references rs in
    let cves =
      if text_eq r.source (codes "CVE")
      then record new_cve { cve_id = r.ref_id; href = r.ref_url } ∷ rest.0
      else rest.0 in
    (cves, new_ref r ∷ rest.1)
