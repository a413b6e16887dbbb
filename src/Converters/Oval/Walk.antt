-- ===== src/Converters/Oval/Walk.antt =====
-- The tree that a recursive walk visits, as the list of its criterions in document order, each
-- with the state that the walk reaches it with.
use goval_dictionary_v.Prelude.{
  ◌≡◌, refl, ap, sym, ◌∙◌, List, [], ◌∷◌, ◌++◌, append_assoc, append-nil, Option, none, some,
  collect, collect-append,
}
use goval_dictionary_v.Text.{Text}
use goval_dictionary_v.Converters.Oval.{
  Criterion, Criteria, criteria, Criterias, no_criterias, more_criterias,
}

-- A walk that carries a state of type `S` along the criterions of one criteria, from the first to
-- the last, and hands its state after the last one to each of the nested criterias: what one of
-- them does to the state is not seen by the next.
module _ {S : Type 0} (note : S → Criterion → S) where
  unfoldable pub noted : S → List Criterion → S
  noted s [] = s
  noted s (c ∷ cs) = noted (note s c) cs

  -- each criterion with the state just after it was read
  unfoldable pub labelled : S → List Criterion → List (S × Criterion)
  labelled s [] = []
  labelled s (c ∷ cs) = (note s c, c) ∷ labelled (note s c) cs

  unfoldable mutual
    pub in_scope : S → Criteria → List (S × Criterion)
    in_scope s (criteria operator nested cs) = labelled s cs ++ in_scopes (noted s cs) nested

    pub in_scopes : S → Criterias → List (S × Criterion)
    in_scopes s no_criterias = []
    in_scopes s (more_criterias c cs) = in_scope s c ++ in_scopes s cs

-- A package at most, put behind those found before: Go's `continue` and `append`.
abbrev pub append_some {ℓ} : {A : Type ℓ} → List A → Option A → List A
append_some acc none = acc
append_some acc (some p) = acc ++ (p ∷ [])

module _ {ℓ} {A : Type ℓ} where
  append_one :
      (o : Option A) (acc rest : List A)
      → append_some acc o ++ rest ≡ acc ++ elim o [ none ↦ rest | some p ↦ p ∷ rest ]
  append_one none acc rest = refl
  append_one (some p) acc rest = append_assoc acc (p ∷ []) rest

module _ {ℓ κ} {A : Type ℓ} {B : Type κ} where
  pub append_some-append :
      (f : B → Option A) (b : B) (bs : List B) (acc : List A)
      → append_some acc (f b) ++ collect f bs ≡ acc ++ collect f (b ∷ bs)
  append_some-append f b bs acc = append_one (f b) acc (collect f bs)

-- A walk with an accumulator, known by its three equations, finds what its criterions stand for,
-- each read with the state in force, in document order.
module _ {S A : Type 0} (note : S → Criterion → S) (read : S × Criterion → Option A)
    (walk : Criteria → S → List A → List A) (walks : Criterias → S → List A → List A)
    (walk-criteria : (operator : Text) (nested : Criterias) (cs : List Criterion) (s : S)
        (acc : List A)
      → walk (criteria operator nested cs) s acc
        ≡ walks nested (noted note s cs) (acc ++ collect read (labelled note s cs)))
    (walks-none : (s : S) (acc : List A) → walks no_criterias s acc ≡ acc)
    (walks-more : (c : Criteria) (cs : Criterias) (s : S) (acc : List A)
      → walks (more_criterias c cs) s acc ≡ walks cs s (walk c s acc)) where
  mutual
    unfolding in_scope in_scopes

    pub walk-in_scope :
        (c : Criteria) (s : S) (acc : List A)
        → walk c s acc ≡ acc ++ collect read (in_scope note s c)
    walk-in_scope (criteria operator nested cs) s acc =
        walk-criteria operator nested cs s acc
        ∙ walks-in_scopes nested (noted note s cs) (acc ++ collect read (labelled note s cs))
        ∙ append_assoc acc _ _
        ∙ ap (λ t. acc ++ t)
            (sym
              (collect-append read (labelled note s cs) (in_scopes note (noted note s cs) nested)))

    pub walks-in_scopes :
        (cs : Criterias) (s : S) (acc : List A)
        → walks cs s acc ≡ acc ++ collect read (in_scopes note s cs)
    walks-in_scopes no_criterias s acc = walks-none s acc ∙ sym (append-nil acc)
    walks-in_scopes (more_criterias c cs) s acc =
        walks-more c cs s acc
        ∙ ap (walks cs s) (walk-in_scope c s acc)
        ∙ walks-in_scopes cs s (acc ++ collect read (in_scope note s c))
        ∙ append_assoc acc _ _
        ∙ ap (λ t. acc ++ t) (sym (collect-append read (in_scope note s c) (in_scopes note s cs)))

-- All the criterions of a criteria, in document order.
unfoldable mutual
  pub criterions_of : Criteria → List Criterion
  criterions_of (criteria operator nested cs) = cs ++ criterions_of_all nested

  pub criterions_of_all : Criterias → List Criterion
  criterions_of_all no_criterias = []
  criterions_of_all (more_criterias c cs) = criterions_of c ++ criterions_of_all cs
