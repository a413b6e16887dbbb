-- ===== src/Db/Redis/Query/Scan.antt =====
-- The SCAN loop of GetByPackName.
use goval_dictionary_v.Prelude.{
  ℕ, zero, suc, ◌<◌, ◌≡◌, ◌≢◌, refl, sym, ap, ◌∙◌, Bool, true, false, ◌||◌, ◌/◌, some, List, [],
  ◌∷◌, ◌++◌, map, arith, All,
}
use goval_dictionary_v.Text.{Text, codes, text_eq}
use goval_dictionary_v.Text.Equality.{text_eq_refl}
use goval_dictionary_v.GoMap.{elem}
use goval_dictionary_v.Outcome.{ok}
use goval_dictionary_v.Models.{Definition}
use goval_dictionary_v.Db.Version.{format_family_and_os_ver}
use goval_dictionary_v.Db.Redis.Server.{Server, Codec}
use goval_dictionary_v.Db.Redis.Keys.{packages, pkg_key}
use goval_dictionary_v.Db.Redis.Insert.{uses_arch}
use goval_dictionary_v.Db.Redis.Insert.Spec.{covers, has_id}
use goval_dictionary_v.Db.Redis.Insert.Laws.{Mirrors}
use goval_dictionary_v.Db.Redis.Query.{
  scan_all, members_all, pkg_keys, get_by_formatted_pack, get_by_pack_name, get_definitions,
}
use goval_dictionary_v.Db.Redis.Query.Laws.{Restores, Encodes, covers-has_id}
use goval_dictionary_v.Db.Redis.Query.Correct.{
  IsReadable, get_definitions-Restores, members-cover, get_by_pack_name_formatted,
}

module _ (server : Server) (codec : Codec) where
  -- A scan from a cursor that ends after the given number of further rounds, with the keys of all
  -- of its rounds.
  abbrev pub Rounds : ℕ → ℕ → Text → ℕ → server.State → List Text → Type 0
  Rounds zero cursor pattern count s keys = server.scan s cursor pattern count ≡ some (keys, 0)
  Rounds (suc n) cursor pattern count s keys =
      (page : List Text) × (next : ℕ) × (more : List Text) × (server.scan s cursor pattern count
        ≡ some (page, next))
      × (next ≢ 0)
      × Rounds n next pattern count s more
      × (keys ≡ page ++ more)

  scan_last :
      (fuel cursor : ℕ) (pattern : Text) (count : ℕ) (s : server.State) (keys : List Text)
      → server.scan s cursor pattern count ≡ some (keys, 0)
      → scan_all server codec (suc fuel) cursor pattern count s ≡ some (ok keys)
  unfolding scan_all
  scan_last fuel cursor pattern count s keys h = ground arith

  scan_step :
      (fuel cursor : ℕ) (pattern : Text) (count : ℕ) (s : server.State) (page : List Text)
      (next : ℕ) (more : List Text)
      → server.scan s cursor pattern count ≡ some (page, next)
      → next ≢ 0
      → scan_all server codec fuel next pattern count s ≡ some (ok more)
      → scan_all server codec (suc fuel) cursor pattern count s ≡ some (ok (page ++ more))
  unfolding scan_all
  scan_step fuel cursor pattern count s page next more h ne rest = ground arith

  scan_all-Rounds :
      (n fuel cursor : ℕ) (pattern : Text) (count : ℕ) (s : server.State) (keys : List Text)
      → n < fuel
      → Rounds n cursor pattern count s keys
      → scan_all server codec fuel cursor pattern count s ≡ some (ok keys)
  scan_all-Rounds n zero cursor pattern count s keys lt r = absurd (omega (arith, lt))
  scan_all-Rounds zero (suc fuel) cursor pattern count s keys lt r =
      scan_last fuel cursor pattern count s keys r
  scan_all-Rounds (suc n) (suc fuel) cursor pattern count s keys lt r =
      let (page, next, more, h, ne, rest, e) = r in
      scan_step fuel cursor pattern count s page next more h ne
        (scan_all-Rounds n fuel next pattern count s more (omega (arith, lt)) rest)
      ∙ ap (λ t. some (ok t)) (sym e)

  -- Some of the names covers the id.
  abbrev pub any_covers : Text → List Definition → Text → List Text → Bool
  any_covers family ds i [] = false
  any_covers family ds i (x ∷ xs) = covers family ds i packages x || any_covers family ds i xs

  elem-append : (i : Text) (xs ys : List Text) → elem i (xs ++ ys) ≡ (elem i xs || elem i ys)
  unfolding elem
  elem-append i [] ys = refl
  elem-append i (x ∷ xs) ys = ground (arith, elem-append i xs ys)

  members_step :
      (k : Text) (ks ids more : List Text) (s : server.State)
      → server.smembers s k ≡ some ids
      → members_all server codec ks s ≡ ok more
      → members_all server codec (k ∷ ks) s ≡ ok (ids ++ more)
  unfolding members_all
  members_step k ks ids more s h rest = ground arith

  module _ (family os_ver arch : Text) (ds : List Definition) (s : server.State)
      (e : Encodes codec ds) (m : Mirrors server codec family os_ver ds s)
      (r : IsReadable server s) where
    members_all-covers :
        (xs : List Text)
        → (ids : List Text) × (members_all server codec (map (pkg_key family os_ver) xs) s ≡ ok ids)
          × ((i : Text) → elem i ids ≡ any_covers family ds i xs)
    unfolding members_all elem
    members_all-covers [] = ([], refl, λ i. refl)
    members_all-covers (x ∷ xs) =
        let (ids, found) = r.smembers (pkg_key family os_ver x) in
        let (more, rest, mem) = members_all-covers xs in
        (
          ids ++ more,
          members_step (pkg_key family os_ver x) _ ids more s found rest,
          λ i. elem-append i ids more ∙ (λ j.
              members-cover server codec family os_ver arch ds s e m r packages x ids found i j
              || mem i j),
        )

    any_covers-has_id :
        (i : Text) (xs : List Text) → any_covers family ds i xs ≡ true → has_id ds i ≡ true
    any_covers-has_id i [] h = cc
    any_covers-has_id i (x ∷ xs) h =
        ground (arith, any_covers-has_id i xs, covers-has_id codec family ds i packages x)

    All-elem :
        (ids : List Text)
        → ((i : Text) → elem i ids ≡ true → has_id ds i ≡ true)
        → All (λ i. has_id ds i ≡ true) ids
    unfolding elem
    All-elem [] h = tt
    All-elem (i ∷ ids) h =
        (h i (ground (arith, text_eq_refl i)), All-elem ids (λ j q. h j (ground arith)))

    formatted_eq :
        (fuel : ℕ) (pack_name : Text) (ks ids : List Text) (rs : List Definition)
        → pkg_keys server codec fuel family os_ver pack_name arch s ≡ some (ok ks)
        → members_all server codec ks s ≡ ok ids
        → get_definitions server codec family os_ver arch ids s ≡ ok rs
        → get_by_formatted_pack server codec fuel family os_ver pack_name arch s ≡ some (ok rs)
    unfolding get_by_formatted_pack
    formatted_eq fuel pack_name ks ids rs q found g = ground arith

    get_by_formatted_pack-scanned :
        (fuel : ℕ) (pack_name : Text) (xs : List Text)
        → pkg_keys server codec fuel family os_ver pack_name arch s
          ≡ some (ok (map (pkg_key family os_ver) xs))
        → (ids : List Text) × (rs : List Definition) × (get_by_formatted_pack server codec fuel
              family os_ver pack_name arch s
            ≡ some (ok rs))
          × ((i : Text) → elem i ids ≡ any_covers family ds i xs)
          × Restores family os_ver arch ds ids rs
    get_by_formatted_pack-scanned fuel pack_name xs q =
        let (ids, found, mem) = members_all-covers xs in
        let (rs, g, rest) =
          get_definitions-Restores server codec family os_ver arch ds s e m r ids
            (All-elem ids (λ i w. any_covers-has_id i xs (sym (mem i) ∙ w))) in
        (ids, rs, formatted_eq fuel pack_name _ ids rs q found g, mem, rest)

  pkg_keys-scan :
      (fuel size : ℕ) (family os_ver pack_name : Text) (s : server.State) (keys : List Text)
      → uses_arch family ≡ true
      → server.dbsize s ≡ some size
      → scan_all server codec fuel 0 (pkg_key family os_ver pack_name ++ codes "#*") (size / 5) s
        ≡ some (ok keys)
      → pkg_keys server codec fuel family os_ver pack_name [] s ≡ some (ok keys)
  unfolding pkg_keys text_eq
  pkg_keys-scan fuel size family os_ver pack_name s keys u d h = ground arith

  -- On a database that mirrors the definitions `ds`, where no read fails, GetByPackName without an
  -- architecture, for a family that indexes packages by one, ends if the SCAN of the server does,
  -- with fuel for more rounds than it goes on for. If the keys of the rounds are those of the
  -- packages `xs`, it returns, for every id of their sets in turn, the definition inserted last
  -- under that id, less its database ids and with all its packages; the ids are exactly those of
  -- the definitions with one of these packages.
  pub get_by_pack_name-scan :
      (n fuel size : ℕ) (fam os family os_ver pack_name : Text) (xs : List Text)
      (ds : List Definition) (s : server.State)
      → Encodes codec ds
      → Mirrors server codec family os_ver ds s
      → IsReadable server s
      → format_family_and_os_ver fam os ≡ ok (family, os_ver)
      → uses_arch family ≡ true
      → server.dbsize s ≡ some size
      → Rounds n 0
          (pkg_key family os_ver pack_name ++ codes "#*")
          (size / 5)
          s
          (map (pkg_key family os_ver) xs)
      → n < fuel
      → (ids : List Text) × (rs : List Definition) × (get_by_pack_name server codec fuel fam os
            pack_name [] s
          ≡ some (ok rs))
        × ((i : Text) → elem i ids ≡ any_covers family ds i xs)
        × Restores family os_ver [] ds ids rs
  get_by_pack_name-scan n fuel size fam os family os_ver pack_name xs ds s e m r f u d rounds lt =
      let scanned =
        scan_all-Rounds n fuel 0 (pkg_key family os_ver pack_name ++ codes "#*") (size / 5) s
          (map (pkg_key family os_ver) xs) lt rounds in
      rw (get_by_pack_name_formatted server codec fuel fam os family os_ver pack_name [] s f) (
        get_by_formatted_pack-scanned family os_ver [] ds s e m r fuel pack_name xs
          (pkg_keys-scan fuel size family os_ver pack_name s _ u d scanned))
