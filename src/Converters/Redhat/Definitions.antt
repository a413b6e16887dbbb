-- ===== src/Converters/Redhat/Definitions.antt =====
-- Which definitions ConvertToModel of models/redhat returns.
use goval_dictionary_v.Prelude.{
  ◌≡◌, refl, ap, sym, ◌∙◌, Bool, List, [], ◌∷◌, ◌++◌, Option, none, some, arith, if◌then◌else◌,
}
use goval_dictionary_v.Text.{Text, text_eq}
use goval_dictionary_v.Text.Equality.{text_eq_iff}
use goval_dictionary_v.GoMap.{Map, lookup, lookup-insert}
use goval_dictionary_v.Models.{Time, Definition}
use goval_dictionary_v.Converters.Common.{is_rejected}
use goval_dictionary_v.Converters.Redhat.{
  RedhatDefinition, new_redhat_definition, add_redhat_definitions, add_redhat_roots,
}

-- The first definition with an id that is not rejected.
abbrev pub first_definition : Text → List RedhatDefinition → Option RedhatDefinition
first_definition id [] = none
first_definition id (d ∷ ds) =
    let rest = first_definition id ds in
    if is_rejected d.description then rest else if text_eq d.id id then some d else rest

-- The definitions of all the roots, in order.
abbrev pub all_definitions : List (List RedhatDefinition) → List RedhatDefinition
all_definitions [] = []
all_definitions (ds ∷ roots) = ds ++ all_definitions roots

abbrev pub or_else {ℓ} : {A : Type ℓ} → Option A → Option A → Option A
or_else none o = o
or_else (some a) o = some a

module _ (greater_than : Text → Text → Bool) (parse : Text → Text → Option Time) (no_details : Bool)
    (v : Text) where
  -- The conversion of a definition, if there is one.
  abbrev pub converted : Option RedhatDefinition → Option Definition
  converted none = none
  converted (some d) = some (new_redhat_definition greater_than parse no_details v d)

  add_redhat_definitions-lookup :
      (ds : List RedhatDefinition) (m : Map Definition) (id : Text)
      → lookup id (add_redhat_definitions greater_than parse no_details v ds m)
        ≡ or_else (lookup id m) (converted (first_definition id ds))
  unfolding add_redhat_definitions
  add_redhat_definitions-lookup [] m id = ground arith
  add_redhat_definitions-lookup (d ∷ ds) m id =
      add_redhat_definitions-lookup ds _ id
      ∙ ground (
        arith,
        lookup-insert d.id id (new_redhat_definition greater_than parse no_details v d) m,
        text_eq_iff d.id id,
      )

  or_else_assoc {ℓ} :
      {A : Type ℓ} (a b c : Option A) → or_else (or_else a b) c ≡ or_else a (or_else b c)
  or_else_assoc none b c = refl
  or_else_assoc (some a) b c = refl

  first_definition-append :
      (xs ys : List RedhatDefinition) (id : Text)
      → converted (first_definition id (xs ++ ys))
        ≡ or_else (converted (first_definition id xs)) (converted (first_definition id ys))
  first_definition-append [] ys id = refl
  first_definition-append (x ∷ xs) ys id = ground (arith, first_definition-append xs ys id)

  add_redhat_roots-lookup :
      (roots : List (List RedhatDefinition)) (m : Map Definition) (id : Text)
      → lookup id (add_redhat_roots greater_than parse no_details v roots m)
        ≡ or_else (lookup id m) (converted (first_definition id (all_definitions roots)))
  unfolding add_redhat_roots
  add_redhat_roots-lookup [] m id = ground arith
  add_redhat_roots-lookup (ds ∷ roots) m id =
      add_redhat_roots-lookup roots (add_redhat_definitions greater_than parse no_details v ds m) id
      ∙ ap (λ t. or_else t (converted (first_definition id (all_definitions roots))))
          (add_redhat_definitions-lookup ds m id)
      ∙ or_else_assoc (lookup id m) (converted (first_definition id ds)) _
      ∙ ap (or_else (lookup id m)) (sym (first_definition-append ds (all_definitions roots) id))

  -- Over all the roots, an id stands for the conversion of the first definition with it that is
  -- not rejected; ids of rejected definitions alone, and ids that do not occur, stand for nothing.
  pub add_redhat_roots-first :
      (roots : List (List RedhatDefinition)) (id : Text)
      → lookup id (add_redhat_roots greater_than parse no_details v roots [])
        ≡ converted (first_definition id (all_definitions roots))
  unfolding lookup
  add_redhat_roots-first roots id = add_redhat_roots-lookup roots [] id
