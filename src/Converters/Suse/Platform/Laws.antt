-- ===== src/Converters/Suse/Platform/Laws.antt =====
-- The releases that getOSVersion reads, and the names that it cannot be given.
use goval_dictionary_v.Prelude.{
  ◌≤◌, ◌<◌, ◌≡◌, ◌≢◌, ◌↔◌, ◌⊎◌, inl, inr, refl, ap, ◌∙◌, Bool, true, false, ◌||◌, some, List, [],
  ◌∷◌, ◌++◌, arith, Bool-cases, length, drop, reverse, if◌then◌else◌,
}
use mathlib.Core.List.{reverse-cons}
use goval_dictionary_v.Outcome.{Outcome, ok, err, panic, bad_version, ok-ne-panic, err-ne-panic}
use goval_dictionary_v.Text.{Text, codes, has_prefix, trim_prefix, split, fields}
use goval_dictionary_v.Text.Equality.{has_prefix-split}
use goval_dictionary_v.Text.Pieces.{Lacks, split-Lacks, split-at_first, split-ne-nil}
use goval_dictionary_v.Converters.Suse.Platform.{
  dotted, checked, suse_piece, suse_release, service_pack, leap_release, opensuse_release,
  numbered_pack, enterprise_release, get_os_version,
}

pieces_of_pack :
    (major sp : Text)
    → Lacks 45 major
    → Lacks 45 sp
    → split (major ++ (codes "-sp" ++ sp)) (codes "-") ≡ major ∷ (codes "sp" ++ sp) ∷ []
pieces_of_pack major sp h k =
    split-at_first 45 major (codes "sp" ++ sp) h
    ∙ ap (λ t. major ∷ t) (split-Lacks 45 (codes "sp" ++ sp) (omega arith, (omega arith, k)))

-- the first piece, which a split always has
abbrev pub first_piece : List Text → Text
first_piece [] = []
first_piece (p ∷ ps) = p

module _ (is_version : Text → Bool) where
  -- The release of SUSE Linux Enterprise Desktop or Server 10, of a major version and a service
  -- pack without a "-": both, with a dot between them, where NewVersion accepts this.
  pub get_os_version-service_pack :
      (name major sp : Text)
      → (name ≡ codes "sled") ⊎ (name ≡ codes "sles")
      → Lacks 45 major
      → Lacks 45 sp
      → get_os_version is_version (name ++ (major ++ (codes "-sp" ++ sp)))
        ≡ (if is_version (dotted major sp) then ok (dotted major sp) else err bad_version)
  unfolding get_os_version has_prefix trim_prefix service_pack checked
  get_os_version-service_pack name major sp (inl e) h k =
      rw e (ap (service_pack is_version) (pieces_of_pack major sp h k))
  get_os_version-service_pack name major sp (inr e) h k =
      rw e (ap (service_pack is_version) (pieces_of_pack major sp h k))

  checked-ne-panic : (v : Text) → checked is_version v ≢ panic
  unfolding checked
  checked-ne-panic v = ground arith

  service_pack-ne-panic : (ps : List Text) → service_pack is_version ps ≢ panic
  unfolding service_pack checked
  service_pack-ne-panic [] = ground arith
  service_pack-ne-panic (a ∷ []) = ground arith
  service_pack-ne-panic (a ∷ b ∷ []) = ground arith
  service_pack-ne-panic (a ∷ b ∷ c ∷ ps) = ground arith

  leap_release-ne-panic : (ws : List Text) → leap_release is_version ws ≢ panic
  unfolding leap_release checked
  leap_release-ne-panic [] = ground arith
  leap_release-ne-panic (a ∷ []) = ground arith
  leap_release-ne-panic (a ∷ b ∷ []) = ground arith
  leap_release-ne-panic (a ∷ b ∷ c ∷ ws) = ground arith

  opensuse_release-ne-panic : (ws : List Text) → opensuse_release is_version ws ≢ panic
  unfolding opensuse_release checked
  opensuse_release-ne-panic [] = ground arith
  opensuse_release-ne-panic (a ∷ []) = ground arith
  opensuse_release-ne-panic (a ∷ b ∷ ws) = ground arith

  numbered_pack-ne-panic :
      (major : Text) (ps : List Text) → ps ≢ [] → numbered_pack is_version (some major) ps ≢ panic
  unfolding numbered_pack
  numbered_pack-ne-panic major [] h = ground (arith, h)
  numbered_pack-ne-panic major (p ∷ ps) h = ground arith

  enterprise_release-ne-panic :
      (last major : Text) (ws : List Text)
      → enterprise_release is_version (last ∷ major ∷ ws) ≢ panic
  unfolding enterprise_release checked
  enterprise_release-ne-panic last major ws =
      ground (arith, numbered_pack-ne-panic major (split last (45 ∷ [])) (split-ne-nil 45 last))

  two_words :
      (r : List Text) (x y : Text)
      → (a : Text) × (b : Text) × (ws : List Text) × (r ++ (y ∷ []) ++ (x ∷ []) ≡ a ∷ b ∷ ws)
  two_words [] x y = (y, x, [], refl)
  two_words (c ∷ []) x y = (c, y, x ∷ [], refl)
  two_words (c ∷ d ∷ r) x y = (c, d, r ++ (y ∷ []) ++ (x ∷ []), refl)

  enterprise_words :
      (rest : Text)
      → (ws : List Text) × (fields (codes "SUSE Linux Enterprise" ++ rest)
          ≡ codes "SUSE" ∷ codes "Linux" ∷ ws)
  unfolding fields
  enterprise_words rest = (_, refl)

  enterprise-ne-panic :
      (rest : Text)
      → enterprise_release is_version (reverse (fields (codes "SUSE Linux Enterprise" ++ rest)))
        ≢ panic
  enterprise-ne-panic rest =
      let (ws, e) = enterprise_words rest in
      let (a, b, vs, f) = two_words (reverse ws) (codes "SUSE") (codes "Linux") in
      let g =
        ap reverse e
        ∙ reverse-cons (codes "SUSE") (codes "Linux" ∷ ws)
        ∙ ap (λ t. t ++ (codes "SUSE" ∷ [])) (reverse-cons (codes "Linux") ws)
        ∙ f in
      rw g (enterprise_release-ne-panic a b vs)

  enterprise_name-ne-panic :
      (name : Text)
      → has_prefix name (codes "SUSE Linux Enterprise") ≡ true
      → enterprise_release is_version (reverse (fields name)) ≢ panic
  enterprise_name-ne-panic name h =
      rw (has_prefix-split (codes "SUSE Linux Enterprise") name h)
        (enterprise-ne-panic (drop (length (codes "SUSE Linux Enterprise")) name))

  suse_piece-panic :
      (ps : List Text) → (suse_piece is_version ps ≡ panic) ↔ (length (first_piece ps) < 2)
  unfolding suse_piece checked
  suse_piece-panic [] = ground arith
  suse_piece-panic (p ∷ ps) = ground arith

  -- a choice between two results neither of which is a panic
  choice-ne-panic :
      (b : Bool) (x y : Outcome Text)
      → (b ≡ true → x ≢ panic)
      → (b ≡ false → y ≢ panic)
      → (if b then x else y) ≢ panic
  choice-ne-panic true x y h k = h refl
  choice-ne-panic false x y h k = k refl

  other_name-ne-panic :
      (name : Text)
      → has_prefix name (codes "suse") ≡ false
      → get_os_version is_version name ≢ panic
  unfolding get_os_version
  other_name-ne-panic name h = rw h (
      choice-ne-panic (has_prefix name (codes "sled")) _ _ (λ _. service_pack-ne-panic _)
        (λ _.
          choice-ne-panic (has_prefix name (codes "sles")) _ _ (λ _. service_pack-ne-panic _)
            (λ _.
              choice-ne-panic (has_prefix name (codes "core9")) _ _ (λ _. ok-ne-panic _)
                (λ _.
                  choice-ne-panic (has_prefix name (codes "openSUSE")) _ _
                    (λ _.
                      choice-ne-panic (has_prefix name (codes "openSUSE Leap")) _ _
                        (λ _. leap_release-ne-panic _) (λ _. opensuse_release-ne-panic _))
                    (λ _.
                      choice-ne-panic (has_prefix name (codes "SUSE Linux Enterprise")) _ _
                        (λ e.
                          choice-ne-panic
                            (has_prefix name (codes "SUSE Linux Enterprise Storage")
                              || has_prefix name (codes "SUSE Linux Enterprise Micro"))
                            (ok []) (enterprise_release is_version (reverse (fields name)))
                            (λ _. ok-ne-panic []) (λ _. enterprise_name-ne-panic name e))
                        (λ _.
                          choice-ne-panic (has_prefix name (codes "SUSE Manager")) _ _
                            (λ _. ok-ne-panic _) (λ _. err-ne-panic bad_version)))))))

  suse_name :
      (name : Text)
      → has_prefix name (codes "suse") ≡ true
      → get_os_version is_version name ≡ suse_release is_version (drop 4 name)
  unfolding get_os_version trim_prefix
  suse_name name h = rw h refl

  suse_release-panic :
      (s : Text)
      → (suse_release is_version s ≡ panic)
        ↔ ((3 ≤ length s) × (length (first_piece (split s (codes "-"))) < 2))
  unfolding suse_release
  suse_release-panic s = ground (arith, suse_piece-panic (split s (codes "-")))

  -- getOSVersion panics for the names that begin with "suse", go on for 3 bytes or more, and have
  -- fewer than 2 of these before the first "-", as in "suse1-x"; for every other name it returns a
  -- release or an error.
  pub get_os_version-panic :
      (name : Text)
      → (get_os_version is_version name ≡ panic) ↔ (
          (has_prefix name (codes "suse") ≡ true)
          × (3 ≤ length (drop 4 name))
          × (length (first_piece (split (drop 4 name) (codes "-"))) < 2))
  get_os_version-panic name = elim (Bool-cases (has_prefix name (codes "suse"))) [
    | inl y ↦ ground (arith, y, suse_name name y, suse_release-panic (drop 4 name))
    | inr n ↦ ground (arith, n, other_name-ne-panic name n)
  ]
