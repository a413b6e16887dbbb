-- ===== src/Converters/Debian/Laws.antt =====
-- The definitions that ConvertToModel of models/debian returns.
use goval_dictionary_v.Prelude.{
  ◌≡◌, refl, Bool, true, false, List, [], ◌∷◌, Option, map, if◌then◌else◌,
}
use goval_dictionary_v.Text.{Text}
use goval_dictionary_v.Models.{Time, Definition, new_advisory, new_definition}
use goval_dictionary_v.Converters.Common.{is_rejected, erase_details, with_details}
use goval_dictionary_v.Converters.Debian.{
  OvalDefinition, new_debian_definition, convert_debian_definition, convert_debian,
}

-- A definition without its details: of the Debian converter's fields, these are left.
abbrev pub bare : Definition → Definition
bare d = record new_definition {
  id = d.id;
  root_id = d.root_id;
  definition_id = d.definition_id;
  advisory = record new_advisory {
    id = d.advisory.id;
    definition_id = d.advisory.definition_id;
    cves = d.advisory.cves;
    affected_repository = d.advisory.affected_repository;
  };
  affected_packs = d.affected_packs;
}

module _ (parse : Text → Text → Option Time) where
  keep_or_drop :
      (b : Bool) (d e : Definition) (ds es : List Definition)
      → e ≡ bare d
      → es ≡ map bare ds
      → (if b then es else e ∷ es) ≡ map bare (if b then ds else d ∷ ds)
  keep_or_drop true d e ds es g h = h
  keep_or_drop false d e ds es g h = cc

  -- The Debian converter under no-details gives the definitions that it gives otherwise, but
  -- only with their ids, CVEs, repositories and packages: in the same order, with empty titles,
  -- descriptions and references, with the zero time for both dates, and without the Debian record.
  pub convert_debian-no_details :
      (ds : List OvalDefinition)
      → convert_debian parse true ds ≡ map bare (convert_debian parse false ds)
  unfolding convert_debian convert_debian_definition with_details erase_details
      new_debian_definition
  convert_debian-no_details [] = refl
  convert_debian-no_details (d ∷ ds) =
      keep_or_drop (is_rejected d.description) (convert_debian_definition parse false d)
        (convert_debian_definition parse true d) (convert_debian parse false ds)
        (convert_debian parse true ds) refl (convert_debian-no_details ds)
