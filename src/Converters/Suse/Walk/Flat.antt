-- ===== src/Converters/Suse/Walk/Flat.antt =====
-- walkCriterion as a pass over the criterions of the tree.
use goval_dictionary_v.Prelude.{
  ◌≡◌, ◌≢◌, refl, ap, sym, ◌∙◌, Bool, true, false, List, [], ◌∷◌, ◌++◌, append-nil, Option, none,
  collect, All, arith, if◌then◌else◌,
}
use goval_dictionary_v.Outcome.{Error, Outcome, ok, err, panic, ◌>>=◌, bind_assoc, bind_cong}
use goval_dictionary_v.Text.{Text}
use goval_dictionary_v.GoMap.{Map}
use goval_dictionary_v.Models.{Package}
use goval_dictionary_v.Converters.Oval.{
  Criterion, Criteria, criteria, Criterias, no_criterias, more_criterias,
}
use goval_dictionary_v.Converters.Oval.Walk.{
  append_some, append_some-append, criterions_of, criterions_of_all,
}
use goval_dictionary_v.Converters.Suse.{RpmInfoTest}
use goval_dictionary_v.Converters.Suse.Platform.{is_os_comment}
use goval_dictionary_v.Converters.Suse.Walk.{
  Found, read_suse_pack, read_os_comment, read_criterion, walk_criterions, walk_criterion,
  walk_criterion_all,
}

-- The package that a criterion stands for, where it is not a platform's.
abbrev pub pack_of : Map RpmInfoTest → Criterion → Option Package
pack_of tests c = if is_os_comment c.comment then none else read_suse_pack tests c

module _ (is_version : Text → Bool) where
  -- The release that a criterion names, where it is a platform's.
  abbrev pub os_release : Criterion → Outcome (Option Text)
  os_release c = if is_os_comment c.comment then read_os_comment is_version c else ok none

  abbrev pub Readable : Criterion → Type 0
  Readable c = os_release c ≢ panic

  abbrev pub named_version : Criterion → Option Text
  named_version c = elim (os_release c) [ ok v ↦ v | err e ↦ none | panic ↦ none ]

  read_os_comment-ne-err : (c : Criterion) (e : Error) → read_os_comment is_version c ≢ err e
  unfolding read_os_comment
  read_os_comment-ne-err c e = ground arith

module _ (is_version : Text → Bool) (tests : Map RpmInfoTest) where
  walk_criterions-append :
      (cs ds : List Criterion) (found : Found)
      → walk_criterions is_version tests (cs ++ ds) found
        ≡ walk_criterions is_version tests cs found >>= walk_criterions is_version tests ds
  unfolding walk_criterions
  walk_criterions-append [] ds found = refl
  walk_criterions-append (c ∷ cs) ds found =
      bind_cong (read_criterion is_version tests c found) _ _ (walk_criterions-append cs ds)
      ∙ sym (bind_assoc (read_criterion is_version tests c found) _ _)

  mutual
    unfolding walk_criterion walk_criterion_all criterions_of criterions_of_all walk_criterions

    -- walkCriterion reads the criterions of the whole tree one after the other, in document order,
    -- whatever the operators are, and ends at the first that makes it panic.
    pub walk_criterion-criterions_of :
        (cri : Criteria) (found : Found)
        → walk_criterion is_version tests cri found
          ≡ walk_criterions is_version tests (criterions_of cri) found
    walk_criterion-criterions_of (criteria operator nested cs) found =
        bind_cong (walk_criterions is_version tests cs found) _ _
          (walk_criterion_all-criterions_of nested)
        ∙ sym (walk_criterions-append cs (criterions_of_all nested) found)

    walk_criterion_all-criterions_of :
        (cs : Criterias) (found : Found)
        → walk_criterion_all is_version tests cs found
          ≡ walk_criterions is_version tests (criterions_of_all cs) found
    walk_criterion_all-criterions_of no_criterias found = refl
    walk_criterion_all-criterions_of (more_criterias c cs) found =
        ap (λ o. o >>= walk_criterion_all is_version tests cs)
          (walk_criterion-criterions_of c found)
        ∙ bind_cong (walk_criterions is_version tests (criterions_of c) found) _ _
            (walk_criterion_all-criterions_of cs)
        ∙ sym (walk_criterions-append (criterions_of c) (criterions_of_all cs) found)

  readable_step :
      (b : Bool) (o : Outcome (Option Text)) (p : Option Package) (found : Found)
      → ((e : Error) → o ≢ err e)
      → (if b then o else ok none) ≢ panic
      → (if b
          then ◌>>=◌ {B = Found} o (λ v. ok (append_some found.0 v, found.1))
          else ok (found.0, append_some found.1 p))
        ≡ ok (
          append_some found.0
              (elim (if b then o else ok none) [ ok v ↦ v | err e ↦ none | panic ↦ none ]),
          append_some found.1 (if b then none else p),
        )
  readable_step true (ok v) p found k h = refl
  readable_step true (err e) p found k h = ground (arith, k e)
  readable_step true panic p found k h = ground (arith, h)
  readable_step false o p found k h = refl

  read_criterion-Readable :
      (c : Criterion) (found : Found)
      → Readable is_version c
      → read_criterion is_version tests c found
        ≡ ok (
          append_some found.0 (named_version is_version c),
          append_some found.1 (pack_of tests c),
        )
  unfolding read_criterion
  read_criterion-Readable c found h =
      readable_step (is_os_comment c.comment) (read_os_comment is_version c)
        (read_suse_pack tests c) found (read_os_comment-ne-err is_version c) h

  walk_criterions-Readable :
      (cs : List Criterion) (found : Found)
      → All (Readable is_version) cs
      → walk_criterions is_version tests cs found
        ≡ ok (
          found.0 ++ collect (named_version is_version) cs,
          found.1 ++ collect (pack_of tests) cs,
        )
  unfolding walk_criterions
  walk_criterions-Readable [] found h =
      ap (λ t. ok (t, found.1)) (sym (append-nil found.0))
      ∙ ap (λ t. ok (found.0 ++ [], t)) (sym (append-nil found.1))
  walk_criterions-Readable (c ∷ cs) found h =
      let next : Found =
        (append_some found.0 (named_version is_version c), append_some found.1 (pack_of tests c)) in
      ap (λ o. o >>= walk_criterions is_version tests cs) (read_criterion-Readable c found h.0)
      ∙ walk_criterions-Readable cs next h.1
      ∙ ap (λ t. ok (t, next.1 ++ collect (pack_of tests) cs))
          (append_some-append (named_version is_version) c cs found.0)
      ∙ ap (λ t. ok (found.0 ++ collect (named_version is_version) (c ∷ cs), t))
          (append_some-append (pack_of tests) c cs found.1)

  -- Where no comment makes getOSVersion panic, walkCriterion adds the releases that the comments of
  -- the tree name and the packages that its other criterions stand for, both in document order.
  pub walk_criterion-Readable :
      (cri : Criteria) (found : Found)
      → All (Readable is_version) (criterions_of cri)
      → walk_criterion is_version tests cri found
        ≡ ok (
          found.0 ++ collect (named_version is_version) (criterions_of cri),
          found.1 ++ collect (pack_of tests) (criterions_of cri),
        )
  walk_criterion-Readable cri found h =
      walk_criterion-criterions_of cri found ∙ walk_criterions-Readable (criterions_of cri) found h
