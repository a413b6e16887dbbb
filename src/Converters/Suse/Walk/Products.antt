-- ===== src/Converters/Suse/Walk/Products.antt =====
-- walkCriteria as a pass over the outermost criterias with the operator AND.
use goval_dictionary_v.Prelude.{
  ◌≡◌, ap, sym, ◌∙◌, Bool, true, false, List, [], ◌∷◌, ◌++◌, append-nil, append_assoc, collect, All,
  All-append, All-split, flat_map, flat_map-append, arith, inl, inr, Bool-cases,
}
use goval_dictionary_v.Outcome.{ok, ◌>>=◌}
use goval_dictionary_v.Text.{Text, codes, text_eq}
use goval_dictionary_v.GoMap.{Map}
use goval_dictionary_v.Converters.Releases.{ReleasePackage}
use goval_dictionary_v.Converters.Oval.{
  Criterion, Criteria, criteria, Criterias, no_criterias, more_criterias,
}
use goval_dictionary_v.Converters.Oval.Walk.{criterions_of, criterions_of_all}
use goval_dictionary_v.Converters.Suse.{RpmInfoTest}
use goval_dictionary_v.Converters.Suse.Walk.{
  walk_criterion, walk_criteria, walk_criteria_all, for_releases,
}
use goval_dictionary_v.Converters.Suse.Walk.Flat.{
  Readable, named_version, pack_of, walk_criterion-Readable,
}

-- The outermost criterias with the operator AND, in document order.
unfoldable mutual
  pub and_criterias : Criteria → List Criteria
  and_criterias (criteria operator nested cs) = elim (text_eq operator (codes "AND")) [
    | true ↦ criteria operator nested cs ∷ []
    | false ↦ and_criterias_all nested
  ]

  pub and_criterias_all : Criterias → List Criteria
  and_criterias_all no_criterias = []
  and_criterias_all (more_criterias c cs) = and_criterias c ++ and_criterias_all cs

and_criterias-and :
    (operator : Text) (nested : Criterias) (cs : List Criterion)
    → text_eq operator (codes "AND") ≡ true
    → and_criterias (criteria operator nested cs) ≡ criteria operator nested cs ∷ []
unfolding and_criterias
and_criterias-and operator nested cs y = ground arith

and_criterias-other :
    (operator : Text) (nested : Criterias) (cs : List Criterion)
    → text_eq operator (codes "AND") ≡ false
    → and_criterias (criteria operator nested cs) ≡ and_criterias_all nested
unfolding and_criterias
and_criterias-other operator nested cs n = ground arith

module _ (is_version : Text → Bool) where
  -- no comment below one of the outermost ANDs makes getOSVersion panic
  abbrev pub AllReadable : List Criteria → Type 0
  AllReadable = All (λ c. All (Readable is_version) (criterions_of c))

  mutual
    unfolding and_criterias and_criterias_all criterions_of criterions_of_all

    pub and_criterias-Readable :
        (cri : Criteria)
        → All (Readable is_version) (criterions_of cri)
        → AllReadable (and_criterias cri)
    and_criterias-Readable (criteria operator nested cs) h =
        elim (Bool-cases (text_eq operator (codes "AND"))) [
          | inl y ↦ rw (and_criterias-and operator nested cs y) ((h, tt))
          | inr n ↦
              let (here, below) = All-split _ cs (criterions_of_all nested) h in
              rw (and_criterias-other operator nested cs n)
                (and_criterias_all-Readable nested below)
        ]

    and_criterias_all-Readable :
        (cs : Criterias)
        → All (Readable is_version) (criterions_of_all cs)
        → AllReadable (and_criterias_all cs)
    and_criterias_all-Readable no_criterias h = tt
    and_criterias_all-Readable (more_criterias c cs) h =
        let (here, there) = All-split _ (criterions_of c) (criterions_of_all cs) h in
        All-append _ (and_criterias c) (and_criterias_all cs) (and_criterias-Readable c here)
          (and_criterias_all-Readable cs there)

module _ (is_version : Text → Bool) (tests : Map RpmInfoTest) where
  -- What one AND stands for: each of its packages for each of its releases.
  abbrev pub products : Criteria → List ReleasePackage
  products cri =
      for_releases (collect (named_version is_version) (criterions_of cri))
        (collect (pack_of tests) (criterions_of cri))

  walk_criteria-and :
      (operator : Text) (nested : Criterias) (cs : List Criterion) (acc : List ReleasePackage)
      → text_eq operator (codes "AND") ≡ true
      → walk_criteria is_version tests (criteria operator nested cs) acc
        ≡ walk_criterion is_version tests (criteria operator nested cs) ([], [])
          >>= (λ found. ok (acc ++ for_releases found.0 found.1))
  unfolding walk_criteria
  walk_criteria-and operator nested cs acc y = ground arith

  walk_criteria-other :
      (operator : Text) (nested : Criterias) (cs : List Criterion) (acc : List ReleasePackage)
      → text_eq operator (codes "AND") ≡ false
      → walk_criteria is_version tests (criteria operator nested cs) acc
        ≡ walk_criteria_all is_version tests nested acc
  unfolding walk_criteria
  walk_criteria-other operator nested cs acc n = ground arith

  mutual
    unfolding walk_criteria walk_criteria_all and_criterias and_criterias_all

    -- Where no comment below an outermost AND makes getOSVersion panic, walkCriteria adds, for each
    -- outermost AND in document order, each of the packages below it for each of the releases below
    -- it.
    pub walk_criteria-products :
        (cri : Criteria) (acc : List ReleasePackage)
        → AllReadable is_version (and_criterias cri)
        → walk_criteria is_version tests cri acc ≡ ok (acc ++ flat_map products (and_criterias cri))
    walk_criteria-products (criteria operator nested cs) acc h =
        elim (Bool-cases (text_eq operator (codes "AND"))) [
          | inl y ↦
              let here = rw (and_criterias-and operator nested cs y) at (h) in
              walk_criteria-and operator nested cs acc y
              ∙ ap (λ o. o >>= (λ found. ok (acc ++ for_releases found.0 found.1)))
                  (walk_criterion-Readable is_version tests (criteria operator nested cs) ([], [])
                    here.0)
              ∙ ap (λ t. ok (acc ++ t))
                  (sym (append-nil _)
                    ∙ ap (flat_map products) (sym (and_criterias-and operator nested cs y)))
          | inr n ↦
              let below = rw (and_criterias-other operator nested cs n) at (h) in
              walk_criteria-other operator nested cs acc n
              ∙ walk_criteria_all-products nested acc below
              ∙ ap (λ t. ok (acc ++ flat_map products t))
                  (sym (and_criterias-other operator nested cs n))
        ]

    walk_criteria_all-products :
        (cs : Criterias) (acc : List ReleasePackage)
        → AllReadable is_version (and_criterias_all cs)
        → walk_criteria_all is_version tests cs acc
          ≡ ok (acc ++ flat_map products (and_criterias_all cs))
    walk_criteria_all-products no_criterias acc h = ap ok (sym (append-nil acc))
    walk_criteria_all-products (more_criterias c cs) acc h =
        let (here, there) = All-split _ (and_criterias c) (and_criterias_all cs) h in
        ap (λ o. o >>= walk_criteria_all is_version tests cs) (walk_criteria-products c acc here)
        ∙ walk_criteria_all-products cs (acc ++ flat_map products (and_criterias c)) there
        ∙ ap ok (
            append_assoc acc _ _
            ∙ ap (λ t. acc ++ t)
                (sym (flat_map-append products (and_criterias c) (and_criterias_all cs))))
