-- ===== src/Converters/Ubuntu/Objects.antt =====
-- The comments of the objects.
use goval_dictionary_v.Prelude.{◌≡◌, refl, List, [], ◌∷◌, ◌++◌, Option, Bool, arith}
use goval_dictionary_v.Text.{Text}
use goval_dictionary_v.GoMap.{Map}
use goval_dictionary_v.Outcome.{panic}
use goval_dictionary_v.Models.{Time}
use goval_dictionary_v.Converters.Ubuntu.{
  Textfilecontent54Object, UbuntuRoot, add_object, parse_objects, parse_tests, convert_ubuntu,
}

module _ (find_submatches : Text → List (List Text)) where
  skip_object :
      (b : Textfilecontent54Object) (rest : List Textfilecontent54Object)
      → ((m : Map Text) → parse_objects find_submatches rest m ≡ panic)
      → (m : Map Text) → parse_objects find_submatches (b ∷ rest) m ≡ panic
  unfolding parse_objects
  skip_object b rest h m = go (find_submatches b.comment)
    where
      go :
          (found : List (List Text))
          → elim found [
            | [] ↦ panic
            | matched ∷ more ↦ parse_objects find_submatches rest (add_object b.id matched m)
          ]
            ≡ panic
      go [] = refl
      go (matched ∷ more) = h (add_object b.id matched m)

  parse_objects-panic :
      (before after : List Textfilecontent54Object) (obj : Textfilecontent54Object) (m : Map Text)
      → find_submatches obj.comment ≡ []
      → parse_objects find_submatches (before ++ (obj ∷ after)) m ≡ panic
  unfolding parse_objects
  parse_objects-panic [] after obj m h = ground arith
  parse_objects-panic (b ∷ before) after obj m h =
      skip_object b (before ++ (obj ∷ after)) (λ n. parse_objects-panic before after obj n h) m

  -- One object with a comment that the regular expression does not match makes the conversion
  -- of the whole root panic, since the first match is indexed without a test.
  pub convert_ubuntu-panic :
      (parse : Text → Text → Option Time) (no_details : Bool) (root : UbuntuRoot)
      (before after : List Textfilecontent54Object) (obj : Textfilecontent54Object)
      → root.objects ≡ before ++ (obj ∷ after)
      → find_submatches obj.comment ≡ []
      → convert_ubuntu parse no_details find_submatches root ≡ panic
  unfolding convert_ubuntu parse_tests
  convert_ubuntu-panic parse no_details root before after obj split h =
      let objects : parse_objects find_submatches root.objects [] ≡ panic =
        rw split (parse_objects-panic before after obj [] h) in
      ground (arith, objects)
