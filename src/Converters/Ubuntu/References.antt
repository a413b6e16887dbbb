-- ===== src/Converters/Ubuntu/References.antt =====
-- The references between the tests, objects and states of a root.
use goval_dictionary_v.Prelude.{
  ◌≡◌, refl, ap, ◌∙◌, List, [], ◌∷◌, ◌++◌, Option, none, some, arith, All, ◌↔◌, ◌⊎◌, ◌≢◌,
  if◌then◌else◌,
}
use goval_dictionary_v.Text.{Text, text_eq}
use goval_dictionary_v.Text.Equality.{text_eq_iff}
use goval_dictionary_v.GoMap.{Map, lookup, insert, lookup-insert}
use goval_dictionary_v.Outcome.{ok, err, panic, missing_ref}
use goval_dictionary_v.Converters.Ubuntu.{
  Textfilecontent54Test, Textfilecontent54State, DpkgInfoTest, follow_state_ref, follow_test_refs,
  follow_all,
}

module _ (objs : Map Text) (states : Map Textfilecontent54State) where
  abbrev test_value : Textfilecontent54Test → Option DpkgInfoTest
  test_value test = elim (follow_test_refs test objs states) [
    | ok t ↦ some t
    | err e ↦ none
    | panic ↦ none
  ]

  -- The last test with an id, followed; what was there before is kept for other ids.
  abbrev pub last_test :
      Text → List Textfilecontent54Test → Option DpkgInfoTest → Option DpkgInfoTest
  last_test id [] o = o
  last_test id (test ∷ tests) o =
      last_test id tests (if text_eq test.id id then test_value test else o)

  -- Every reference of a test is found.
  abbrev pub IsResolved : Textfilecontent54Test → Type 0
  IsResolved test = (t : DpkgInfoTest) × (follow_test_refs test objs states ≡ ok t)

  follow_all-resolved :
      (test : Textfilecontent54Test) (rest : List Textfilecontent54Test) (m : Map DpkgInfoTest)
      (t : DpkgInfoTest)
      → follow_test_refs test objs states ≡ ok t
      → follow_all objs states (test ∷ rest) m ≡ follow_all objs states rest (insert test.id t m)
  unfolding follow_all
  follow_all-resolved test rest m t e = ground arith

  follow_all-err :
      (test : Textfilecontent54Test) (rest : List Textfilecontent54Test) (m : Map DpkgInfoTest)
      → follow_test_refs test objs states ≡ err missing_ref
      → follow_all objs states (test ∷ rest) m ≡ err missing_ref
  unfolding follow_all
  follow_all-err test rest m e = ground arith

  follow_all-lookup :
      (tests : List Textfilecontent54Test) (m : Map DpkgInfoTest)
      → All IsResolved tests
      → (n : Map DpkgInfoTest) × (follow_all objs states tests m ≡ ok n)
        × ((id : Text) → lookup id n ≡ last_test id tests (lookup id m))
  unfolding follow_all
  follow_all-lookup [] m h = (m, refl, λ id. refl)
  follow_all-lookup (test ∷ tests) m h =
      let (t, e) = h.0 in
      let (n, q, l) = follow_all-lookup tests (insert test.id t m) h.1 in
      (
        n,
        follow_all-resolved test tests m t e ∙ q,
        λ id.
            l id
            ∙ ap (last_test id tests)
                (ground (arith, e, lookup-insert test.id id t m, text_eq_iff test.id id)),
      )

  -- If every reference of every test is found, the loop of parseTests succeeds, and its map holds
  -- for each id what the last test with that id refers to, and nothing else.
  pub follow_all-last :
      (tests : List Textfilecontent54Test)
      → All IsResolved tests
      → (n : Map DpkgInfoTest) × (follow_all objs states tests [] ≡ ok n)
        × ((id : Text) → lookup id n ≡ last_test id tests none)
  unfolding lookup
  follow_all-last tests h = follow_all-lookup tests [] h

  -- A test with a reference that is not found makes the loop of parseTests fail with that error, if
  -- the tests before it are in order, whatever follows.
  pub follow_all-missing :
      (before after : List Textfilecontent54Test) (test : Textfilecontent54Test)
      (m : Map DpkgInfoTest)
      → All IsResolved before
      → follow_test_refs test objs states ≡ err missing_ref
      → follow_all objs states (before ++ (test ∷ after)) m ≡ err missing_ref
  follow_all-missing [] after test m h e = follow_all-err test after m e
  follow_all-missing (b ∷ before) after test m h e =
      let (t, q) = h.0 in
      follow_all-resolved b (before ++ (test ∷ after)) m t q
      ∙ follow_all-missing before after test (insert b.id t m) h.1 e

  -- A test refers to something missing exactly where it names an object that is not there, or
  -- names one that is and also names a state that is not.
  pub follow_test_refs-missing :
      (test : Textfilecontent54Test)
      → (follow_test_refs test objs states ≡ err missing_ref) ↔ (
          (test.object_ref ≢ [])
          × ((lookup test.object_ref objs ≡ none)
              ⊎ ((test.state_ref ≢ []) × (lookup test.state_ref states ≡ none))))
  unfolding follow_test_refs follow_state_ref
  follow_test_refs-missing test =
      ground (arith, text_eq_iff test.object_ref [], text_eq_iff test.state_ref [])
