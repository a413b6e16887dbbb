-- ===== src/Converters/Ubuntu/Packs.antt =====
-- The packages that walkCriterion finds, against the statuses of the Ubuntu CVE tracker.
use goval_dictionary_v.Prelude.{
  ◌≡◌, refl, ap, sym, ◌∙◌, List, [], ◌∷◌, ◌++◌, collect, collect-append, arith, Option, none, some,
  true, if◌then◌else◌,
}
use goval_dictionary_v.Text.{Text, codes, contains}
use goval_dictionary_v.GoMap.{Map, lookup}
use goval_dictionary_v.Models.{Package, new_package}
use goval_dictionary_v.Converters.Oval.{
  Criterion, Criteria, criteria, Criterias, no_criterias, more_criterias,
}
use goval_dictionary_v.Converters.Oval.Walk.{criterions_of, criterions_of_all}
use goval_dictionary_v.Converters.Ubuntu.{
  DpkgInfoTest, patch_of, criterion_patch, walk_patches, walk_criterion, walk_nested,
}

-- The status of a package for a CVE.
pub data Status : Type 0 where
  not_affected needs_triage needed deferred pending_publication ignored released : Status

-- The phrase that states each status, in the order in which they are looked for.
abbrev pub phrases : List (Text × Status)
phrases =
    (codes "is related to the CVE in some way and has been fixed", not_affected)
    ∷ (codes "is affected and may need fixing", needs_triage)
    ∷ (codes "is affected and needs fixing", needed)
    ∷ (codes "is affected, but a decision has been made to defer addressing it", deferred)
    ∷ (
      codes
          "is affected. An update containing the fix has been completed and is pending publication",
      pending_publication,
    )
    ∷ (
      codes "while related to the CVE in some way, a decision has been made to ignore this issue",
      ignored,
    )
    ∷ (codes "was vulnerable but has been fixed", released)
    ∷ (codes "was vulnerable and has been fixed", released)
    ∷ []

abbrev pub first_said : Text → List (Text × Status) → Option Status
first_said comment [] = none
first_said comment ((phrase, status) ∷ ps) =
    if contains comment phrase then some status else first_said comment ps

-- The package by its status: one that waits for its fix has no version.
abbrev pub package_of : DpkgInfoTest → Status → Option Package
package_of t not_affected = none
package_of t needs_triage = none
package_of t needed = some (record new_package { name = t.name; not_fixed_yet = true })
package_of t deferred = some (record new_package { name = t.name; not_fixed_yet = true })
package_of t pending_publication = some (record new_package { name = t.name; not_fixed_yet = true })
package_of t ignored = some (record new_package { name = t.name; not_fixed_yet = true })
package_of t released = some (record new_package { name = t.name; version = t.fixed_version })

abbrev pub and_so {ℓ} : {A B : Type ℓ} → Option A → (A → Option B) → Option B
and_so none k = none
and_so (some a) k = k a

abbrev pub reported : Map DpkgInfoTest → Criterion → Option Package
reported tests c =
    and_so (lookup c.test_ref tests) (λ t. and_so (first_said c.comment phrases) (package_of t))

patch_of-eq :
    (t : DpkgInfoTest) (comment : Text)
    → patch_of t comment ≡ and_so (first_said comment phrases) (package_of t)
unfolding patch_of
patch_of-eq t comment = ground arith

criterion_patch-eq :
    (tests : Map DpkgInfoTest) (c : Criterion) → criterion_patch tests c ≡ reported tests c
unfolding criterion_patch
criterion_patch-eq tests c = by_test (lookup c.test_ref tests)
  where
    by_test :
        (o : Option DpkgInfoTest)
        → elim o [ none ↦ none | some t ↦ patch_of t c.comment ]
          ≡ and_so o (λ t. and_so (first_said c.comment phrases) (package_of t))
    by_test none = refl
    by_test (some t) = patch_of-eq t c.comment

collect-eq :
    (tests : Map DpkgInfoTest) (cs : List Criterion)
    → collect (criterion_patch tests) cs ≡ collect (reported tests) cs
collect-eq tests [] = refl
collect-eq tests (c ∷ cs) = ground (arith, criterion_patch-eq tests c, collect-eq tests cs)

module _ (tests : Map DpkgInfoTest) where
  walk_patches-eq :
      (cs : List Criterion) → walk_patches cs tests ≡ collect (criterion_patch tests) cs
  unfolding walk_patches
  walk_patches-eq [] = refl
  walk_patches-eq (c ∷ cs) = ground (arith, walk_patches-eq cs)

  mutual
    unfolding walk_criterion walk_nested criterions_of criterions_of_all

    criteria-eq :
        (cri : Criteria)
        → walk_criterion cri tests ≡ collect (criterion_patch tests) (criterions_of cri)
    criteria-eq (criteria operator nested cs) =
        ap (λ t. t ++ walk_nested nested tests) (walk_patches-eq cs)
        ∙ ap (λ t. collect (criterion_patch tests) cs ++ t) (criterias-eq nested)
        ∙ sym (collect-append (criterion_patch tests) cs (criterions_of_all nested))

    criterias-eq :
        (cs : Criterias)
        → walk_nested cs tests ≡ collect (criterion_patch tests) (criterions_of_all cs)
    criterias-eq no_criterias = refl
    criterias-eq (more_criterias c cs) =
        ap (λ t. t ++ walk_nested cs tests) (criteria-eq c)
        ∙ ap (λ t. collect (criterion_patch tests) (criterions_of c) ++ t) (criterias-eq cs)
        ∙ sym (collect-append (criterion_patch tests) (criterions_of c) (criterions_of_all cs))

  -- The packages of a criteria are those that its criterions report, at any depth, the criterions
  -- of a criteria before those of the criterias in it: by the first phrase that the comment
  -- contains, a package that waits for its fix has no version, a released one has that of its test,
  -- and one that is not affected or not yet looked at is not reported.
  pub walk_criterion-criterions_of :
      (cri : Criteria) → walk_criterion cri tests ≡ collect (reported tests) (criterions_of cri)
  walk_criterion-criterions_of cri = criteria-eq cri ∙ collect-eq tests (criterions_of cri)
