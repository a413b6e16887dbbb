-- ===== src/Converters/Suse/Convert/Releases.antt =====
-- The map from releases to definitions that ConvertToModel of models/suse returns.
use goval_dictionary_v.Prelude.{
  ◌≡◌, Bool, false, List, [], Option, collect, unless, All, if◌then◌else◌, flat_map,
}
use goval_dictionary_v.Text.{Text, codes, contains, trim_prefix, trim_suffix}
use goval_dictionary_v.GoMap.{Map}
use goval_dictionary_v.Models.{Definition}
use goval_dictionary_v.Converters.Common.{is_rejected}
use goval_dictionary_v.Converters.Releases.{ReleasePackage, packs_by_release, add_releases}
use goval_dictionary_v.Converters.Releases.Laws.{of_packs, nonempty_packs, pack_for}
use goval_dictionary_v.Converters.Oval.Walk.{criterions_of}
use goval_dictionary_v.Converters.Suse.{SuseDefinition, RpmInfoTest}
use goval_dictionary_v.Converters.Suse.Walk.{for_release}
use goval_dictionary_v.Converters.Suse.Walk.Flat.{Readable, pack_of}
use goval_dictionary_v.Converters.Suse.Walk.Products.{products, and_criterias}
use goval_dictionary_v.Converters.Suse.Convert.{new_suse_definition}

module _ (is_version : Text → Bool) (no_details : Bool) (xml_name : Text)
    (tests : Map RpmInfoTest) where
  -- The packages of a definition: in the feeds of openSUSE 12 all of them for the release in the
  -- name of the feed, else those of each outermost AND for the releases below it.
  abbrev pub suse_packs : SuseDefinition → List ReleasePackage
  suse_packs d =
      if contains xml_name (codes "opensuse.12")
      then for_release (trim_suffix (trim_prefix xml_name (codes "opensuse.")) (codes ".xml"))
          (collect (pack_of tests) (criterions_of d.criteria))
      else flat_map (products is_version tests) (and_criterias d.criteria)

  -- no comment of the definition, where it is not rejected, makes getOSVersion panic
  abbrev pub ReadableDefinition : SuseDefinition → Type 0
  ReadableDefinition d =
      is_rejected d.description ≡ false → All (Readable is_version) (criterions_of d.criteria)

  -- The definition for one release: with the packages found for it, and none where there are none
  -- or where the definition is rejected.
  abbrev pub suse_release_definition : Text → SuseDefinition → Option Definition
  suse_release_definition v d = unless (is_rejected d.description) (
      of_packs (new_suse_definition no_details xml_name d)
        (nonempty_packs (collect (pack_for v) (suse_packs d))))

  -- the map after one definition
  abbrev after : SuseDefinition → Map (List Definition) → Map (List Definition)
  after d m =
      if is_rejected d.description
      then m
      else add_releases (new_suse_definition no_details xml_name d)
          (packs_by_release (suse_packs d) []) m
