-- ===== src/Converters/Updates/Laws.antt =====
-- The converters with and without the details.
use goval_dictionary_v.Prelude.{
  ◌≡◌, refl, ap, Bool, true, false, List, [], ◌∷◌, Option, map, if◌then◌else◌,
}
use goval_dictionary_v.Text.{Text}
use goval_dictionary_v.Models.{Time, Definition}
use goval_dictionary_v.Converters.Common.{is_rejected, erase_details, with_details}
use goval_dictionary_v.Converters.Updates.{
  AmazonUpdate, FedoraUpdate, new_amazon_definition, new_fedora_definition, convert_amazon,
  convert_fedora,
}

module _ (parse : Text → Text → Option Time) where
  keep_or_drop :
      (b : Bool) (d : Definition) (ds es : List Definition)
      → es ≡ map erase_details ds
      → (if b then es else erase_details d ∷ es) ≡ map erase_details (if b then ds else d ∷ ds)
  keep_or_drop true d ds es h = h
  keep_or_drop false d ds es h = ap (λ t. erase_details d ∷ t) h

  -- The Amazon converter under no-details gives the definitions that it gives otherwise, with the
  -- details erased: the same ones, in the same order, with their ids, CVEs and packages.
  pub convert_amazon-no_details :
      (updates : List AmazonUpdate)
      → convert_amazon parse true updates ≡ map erase_details (convert_amazon parse false updates)
  unfolding convert_amazon new_amazon_definition with_details
  convert_amazon-no_details [] = refl
  convert_amazon-no_details (u ∷ us) =
      keep_or_drop (is_rejected u.description) (new_amazon_definition parse false u)
        (convert_amazon parse false us) (convert_amazon parse true us)
        (convert_amazon-no_details us)

  -- The Fedora converter under no-details gives the definitions that it gives otherwise, with the
  -- details erased: the same ones, in the same order, with their ids, CVEs and packages.
  convert_fedora-no_details :
      (updates : List FedoraUpdate)
      → convert_fedora parse true updates ≡ map erase_details (convert_fedora parse false updates)
  unfolding convert_fedora new_fedora_definition with_details
  convert_fedora-no_details [] = refl
  convert_fedora-no_details (u ∷ us) =
      keep_or_drop (is_rejected u.description) (new_fedora_definition parse false u)
        (convert_fedora parse false us) (convert_fedora parse true us)
        (convert_fedora-no_details us)
