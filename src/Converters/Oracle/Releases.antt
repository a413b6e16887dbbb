-- ===== src/Converters/Oracle/Releases.antt =====
-- The map from releases to definitions that ConvertToModel of models/oracle returns.
use goval_dictionary_v.Prelude.{
  ◌≡◌, ap, sym, ◌∙◌, Bool, List, [], ◌∷◌, ◌++◌, append-nil, append_assoc, Option, collect,
  collect-cons, to_list, unless,
}
use goval_dictionary_v.Text.{Text}
use goval_dictionary_v.GoMap.{Map, values, lookup}
use goval_dictionary_v.Models.{Definition}
use goval_dictionary_v.Converters.Common.{is_rejected}
use goval_dictionary_v.Converters.Oracle.{
  OracleDefinition, collect_oracle_packs, new_oracle_definition, convert_oracle_from,
  convert_oracle,
}
use goval_dictionary_v.Converters.Releases.Laws.{
  of_packs, unless-add_releases, pack_for, nonempty_packs,
}

module _ (no_details : Bool) where
  -- The definition for one release: with the packages found for it, and none where there are none
  -- or where the definition is rejected.
  abbrev pub release_definition : Text → OracleDefinition → Option Definition
  release_definition os_ver d = unless (is_rejected d.description) (
      of_packs (new_oracle_definition no_details d)
        (nonempty_packs (collect (pack_for os_ver) (collect_oracle_packs d.criteria))))

  convert_oracle_from-values :
      (ds : List OracleDefinition) (m : Map (List Definition)) (v : Text)
      → values v (convert_oracle_from no_details ds m)
        ≡ values v m ++ collect (release_definition v) ds
  unfolding convert_oracle_from
  convert_oracle_from-values [] m v = sym (append-nil (values v m))
  convert_oracle_from-values (d ∷ ds) m v =
      convert_oracle_from-values ds _ v
      ∙ ap (λ t. t ++ collect (release_definition v) ds)
          (unless-add_releases (is_rejected d.description) (new_oracle_definition no_details d)
            (collect_oracle_packs d.criteria) m v)
      ∙ append_assoc (values v m) (to_list (release_definition v d))
          (collect (release_definition v) ds)
      ∙ ap (λ t. values v m ++ t) (sym (collect-cons (release_definition v) d ds))

  -- Under each release the converted map holds, in document order, one definition for each
  -- definition that is not rejected and names a package for the release, with all of these packages
  -- and no other.
  pub convert_oracle-values :
      (ds : List OracleDefinition) (v : Text)
      → values v (convert_oracle no_details ds) ≡ collect (release_definition v) ds
  unfolding convert_oracle lookup
  convert_oracle-values ds v = convert_oracle_from-values ds [] v
