-- ===== src/Converters/Oval/Said.antt =====
-- What the criterions of an OVAL document say, apart from how a converter reads their comments.
use goval_dictionary_v.Prelude.{
  ◌≡◌, refl, ap, ◌∙◌, sym, List, [], ◌∷◌, ◌++◌, Option, collect, collect-append, All, All-split,
  arith,
}
use goval_dictionary_v.Text.{Text, split}
use goval_dictionary_v.Text.Pieces.{Lacks, split-Lacks}
use goval_dictionary_v.Text.Enclosed.{split-word, split-without, contains-Lacks}
use goval_dictionary_v.Converters.Common.{first_word}
use goval_dictionary_v.Converters.Oval.{
  Criterion, Criteria, criteria, Criterias, no_criterias, more_criterias,
}
use goval_dictionary_v.Converters.Oval.Walk.{
  noted, labelled, in_scope, in_scopes, criterions_of, criterions_of_all,
}

collect-cons :
    {A B : Type 0} (f g : B → Option A) (x : B) (xs ys : List B)
    → f x ≡ g x
    → collect f xs ≡ collect g ys
    → collect f (x ∷ xs) ≡ collect g (x ∷ ys)
collect-cons f g x xs ys e h = ground (arith, e, h)

-- Two readings that agree on every criterion of a criteria find the same in it.
module _ {S A : Type 0} (note note' : S → Criterion → S)
    (read read' : S × Criterion → Option A) where
  abbrev pub Agrees : Criterion → Type 0
  Agrees c = ((s : S) → note s c ≡ note' s c) × ((s : S) → read (s, c) ≡ read' (s, c))

  noted-Agrees : (cs : List Criterion) (s : S) → All Agrees cs → noted note s cs ≡ noted note' s cs
  unfolding noted
  noted-Agrees [] s h = refl
  noted-Agrees (c ∷ cs) s h = ap (λ t. noted note t cs) (h.0.0 s) ∙ noted-Agrees cs (note' s c) h.1

  labelled-Agrees :
      (cs : List Criterion) (s : S)
      → All Agrees cs
      → collect read (labelled note s cs) ≡ collect read' (labelled note' s cs)
  unfolding labelled
  labelled-Agrees [] s h = refl
  labelled-Agrees (c ∷ cs) s h =
      ap (λ t. collect read ((t, c) ∷ labelled note t cs)) (h.0.0 s)
      ∙ collect-cons read read' (note' s c, c) (labelled note (note' s c) cs)
          (labelled note' (note' s c) cs) (h.0.1 (note' s c)) (labelled-Agrees cs (note' s c) h.1)

  mutual
    unfolding in_scope in_scopes criterions_of criterions_of_all

    pub in_scope-Agrees :
        (c : Criteria) (s : S)
        → All Agrees (criterions_of c)
        → collect read (in_scope note s c) ≡ collect read' (in_scope note' s c)
    in_scope-Agrees (criteria operator nested cs) s h =
        let k = All-split Agrees cs (criterions_of_all nested) h in
        collect-append read (labelled note s cs) (in_scopes note (noted note s cs) nested)
        ∙ ap (λ t. t ++ collect read (in_scopes note (noted note s cs) nested))
            (labelled-Agrees cs s k.0)
        ∙ ap (λ t. collect read' (labelled note' s cs) ++ collect read (in_scopes note t nested))
            (noted-Agrees cs s k.0)
        ∙ ap (λ t. collect read' (labelled note' s cs) ++ t)
            (in_scopes-Agrees nested (noted note' s cs) k.1)
        ∙ sym
            (collect-append read' (labelled note' s cs) (in_scopes note' (noted note' s cs) nested))

    in_scopes-Agrees :
        (cs : Criterias) (s : S)
        → All Agrees (criterions_of_all cs)
        → collect read (in_scopes note s cs) ≡ collect read' (in_scopes note' s cs)
    in_scopes-Agrees no_criterias s h = refl
    in_scopes-Agrees (more_criterias c cs) s h =
        let k = All-split Agrees (criterions_of c) (criterions_of_all cs) h in
        collect-append read (in_scope note s c) (in_scopes note s cs)
        ∙ ap (λ t. t ++ collect read (in_scopes note s cs)) (in_scope-Agrees c s k.0)
        ∙ ap (λ t. collect read' (in_scope note' s c) ++ t) (in_scopes-Agrees cs s k.1)
        ∙ sym (collect-append read' (in_scope note' s c) (in_scopes note' s cs))

-- A version without a space is its own first word.
pub first_word-Lacks : (v : Text) → Lacks 32 v → first_word v ≡ v
unfolding first_word
first_word-Lacks v h = ground (arith, split-Lacks 32 v h)

-- `name SEPARATOR version`, where neither holds a space, with which the separator begins
pub split-earlier :
    (sep n v : Text)
    → Lacks 32 n
    → Lacks 32 v
    → split (n ++ ((32 ∷ sep) ++ v)) (32 ∷ sep) ≡ n ∷ v ∷ []
split-earlier sep n v hn hv =
    split-word 32 sep n v hn ∙ ap (λ t. n ∷ t) (split-without 32 sep v (contains-Lacks 32 sep v hv))

-- What a comment says: the name of a scope, a package with the version that fixes it, or neither.
pub data Saying : Type 0 where
  names : Text → Saying
  earlier : Text → Text → Saying
  other : Saying
