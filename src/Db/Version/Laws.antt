-- ===== src/Db/Version/Laws.antt =====
-- Normalising the family and the release.
use goval_dictionary_v.Prelude.{
  ◌≡◌, refl, ◌≢◌, inl, inr, List, [], ◌∷◌, ◌++◌, arith, Bool-cases, All, length, ltb, if◌then◌else◌,
  take,
}
use goval_dictionary_v.Text.{Text, codes, text_eq, split, join, fields}
use goval_dictionary_v.Text.Pieces.{Lacks, split-Lacks, split-at_first, split-All, split-ne-nil}
use goval_dictionary_v.Outcome.{ok, ◌>>=◌}
use goval_dictionary_v.Db.Version.{
  dot, first, major, major_dot_minor, amazon_release, get_amazon_linux_ver,
}

major_of_Lacks : (v : Text) → Lacks b'.' v → major v ≡ v
unfolding major
major_of_Lacks v h = rw (split-Lacks b'.' v h)

Lacks-major : (v : Text) → Lacks b'.' (major v)
unfolding major
Lacks-major v = go (split v dot) (split-All b'.' v)
  where
    go : (ps : List Text) → All (Lacks b'.') ps → Lacks b'.' (elim ps [ [] ↦ [] | p ∷ ps ↦ p ])
    go [] h = tt
    go (p ∷ ps) h = h.0

-- A release that is a major version already is left as it is.
pub major_idem : (v : Text) → major (major v) ≡ major v
major_idem v = major_of_Lacks (major v) (Lacks-major v)

-- The result for a release by the pieces of its text.
minor_of : Text → List Text → Text
minor_of v (a ∷ b ∷ c ∷ ps) = a ++ (dot ++ b)
minor_of v ps = v

major_dot_minor-eq : (v : Text) → major_dot_minor v ≡ minor_of v (split v dot)
unfolding major_dot_minor
major_dot_minor-eq v = go (split v dot)
  where
    go : (ss : List Text) → (if ltb (length ss) 3 then v else join (take 2 ss) dot) ≡ minor_of v ss
    go [] = unfold minor_of in refl
    go (a ∷ []) = unfold minor_of in refl
    go (a ∷ b ∷ []) = unfold minor_of in refl
    go (a ∷ b ∷ c ∷ ps) = unfold minor_of join in ground arith

minor_of_three : (v a b c : Text) (ps : List Text) → minor_of v (a ∷ b ∷ c ∷ ps) ≡ a ++ (dot ++ b)
unfolding minor_of
minor_of_three v a b c ps = refl

major_dot_minor_of_pair :
    (a b : Text) → Lacks b'.' a → Lacks b'.' b → major_dot_minor (a ++ (dot ++ b)) ≡ a ++ (dot ++ b)
unfolding minor_of
major_dot_minor_of_pair a b ha hb =
    rw (major_dot_minor-eq (a ++ (dot ++ b)), split-at_first b'.' a b ha, split-Lacks b'.' b hb)
      refl

-- Of a release with three parts or more the first two are left.
pub major_dot_minor_lem :
    (a b c : Text)
    → Lacks b'.' a
    → Lacks b'.' b
    → major_dot_minor (a ++ (dot ++ (b ++ (dot ++ c)))) ≡ a ++ (dot ++ b)
major_dot_minor_lem a b c ha hb =
    rw
      (
        major_dot_minor-eq (a ++ (dot ++ (b ++ (dot ++ c)))),
        split-at_first b'.' a (b ++ (dot ++ c)) ha,
        split-at_first b'.' b c hb,
      )
      (three (split c dot) (split-ne-nil b'.' c))
  where
    three :
        (ps : List Text)
        → ps ≢ []
        → minor_of (a ++ (dot ++ (b ++ (dot ++ c)))) (a ∷ b ∷ ps) ≡ a ++ (dot ++ b)
    three [] h = absurd (h refl)
    three (p ∷ ps) h = minor_of_three _ a b p ps

minor_of_idem :
    (v : Text) (ps : List Text)
    → major_dot_minor v ≡ minor_of v ps
    → All (Lacks b'.') ps
    → major_dot_minor (minor_of v ps) ≡ minor_of v ps
unfolding minor_of
minor_of_idem v [] e h = e
minor_of_idem v (a ∷ []) e h = e
minor_of_idem v (a ∷ b ∷ []) e h = e
minor_of_idem v (a ∷ b ∷ c ∷ ps) e h = major_dot_minor_of_pair a b h.0 h.1.0

pub major_dot_minor_idem : (v : Text) → major_dot_minor (major_dot_minor v) ≡ major_dot_minor v
major_dot_minor_idem v =
    let e = major_dot_minor-eq v in rw e (minor_of_idem v (split v dot) e (split-All b'.' v))

amazon_fixed :
    All
      (λ w. get_amazon_linux_ver w ≡ ok w)
      (codes "2023" ∷ codes "2022" ∷ codes "2" ∷ codes "1" ∷ [])
unfolding get_amazon_linux_ver fields text_eq
amazon_fixed = (refl, (refl, (refl, (refl, tt))))

-- Every release that comes out is one of the four, and is left as it is.
amazon_release-fixed : (s : Text) → get_amazon_linux_ver (amazon_release s) ≡ ok (amazon_release s)
unfolding amazon_release
amazon_release-fixed s = elim (Bool-cases (text_eq s (codes "2023"))) [
  | inl e ↦ rw e amazon_fixed.0
  | inr e ↦ rw e (elim (Bool-cases (text_eq s (codes "2022"))) [
    | inl k ↦ rw k amazon_fixed.1.0
    | inr k ↦ rw k (elim (Bool-cases (text_eq s (codes "2"))) [
      | inl l ↦ rw l amazon_fixed.1.1.0
      | inr l ↦ rw l amazon_fixed.1.1.1.0
    ])
  ])
]

pub get_amazon_linux_ver_idem :
    (v w : Text) → get_amazon_linux_ver v ≡ ok w → get_amazon_linux_ver w ≡ ok w
get_amazon_linux_ver_idem v w h = go (fields v) (unfold get_amazon_linux_ver in h)
  where
    go :
        (fs : List Text)
        → (first fs >>= λ s. ok (amazon_release s)) ≡ ok w
        → get_amazon_linux_ver w ≡ ok w
    go [] h = cc
    go (s ∷ fs) h = let e : amazon_release s ≡ w = cc in rw (← e) (amazon_release-fixed s)
