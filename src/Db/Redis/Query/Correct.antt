-- ===== src/Db/Redis/Query/Correct.antt =====
-- The theorems on GetByCveID and GetByPackName.
use goval_dictionary_v.Prelude.{
  ℕ, ◌≡◌, refl, sym, ap, ◌∙◌, true, false, ◌&&◌, Option, none, some, List, [], ◌∷◌, ◌++◌, map,
  arith, inl, inr, Bool-cases, All, if◌then◌else◌, append-nil, append_assoc,
}
use goval_dictionary_v.Text.{Text, codes, text_eq}
use goval_dictionary_v.Text.Equality.{text_eq_refl}
use goval_dictionary_v.GoMap.{elem}
use goval_dictionary_v.Outcome.{ok}
use goval_dictionary_v.Models.{Definition}
use goval_dictionary_v.Db.Version.{format_family_and_os_ver}
use goval_dictionary_v.Db.Redis.Server.{Server, Codec, strip}
use goval_dictionary_v.Db.Redis.Keys.{Kind, cves, packages, index_key, pkg_key, def_key, scope}
use goval_dictionary_v.Db.Redis.Insert.{uses_arch}
use goval_dictionary_v.Db.Redis.Insert.Spec.{covers, has_id, stored}
use goval_dictionary_v.Db.Redis.Insert.Laws.{Mirrors}
use goval_dictionary_v.Db.Redis.Query.{
  narrow, restore_definition, restore_all, get_definitions, get_by_cve_id, pkg_keys, members_all,
  get_by_formatted_pack, get_by_pack_name,
}
use goval_dictionary_v.Db.Redis.Query.Laws.{
  latest, latest-has_id, Restores, Encodes, Decodes-some, stored-Decodes, covers-has_id,
}

-- No read fails.
pub record IsReadable (server : Server) (s : server.State) : Type 0 where
  pub smembers : (k : Text) → (ms : List Text) × (server.smembers s k ≡ some ms)
  pub hmget :
      (k : Text) (fs : List Text) → (vs : List (Option Text)) × (server.hmget s k fs ≡ some vs)

module _ (server : Server) (codec : Codec) (family os_ver arch : Text) (ds : List Definition)
    (s : server.State) (e : Encodes codec ds) (m : Mirrors server codec family os_ver ds s)
    (r : IsReadable server s) where
  abbrev field_at : Text → Option Text
  field_at = server.field s (def_key family os_ver)

  restore_one :
      (id : Text)
      → has_id ds id ≡ true
      → (t : Text) × (field_at id ≡ some t)
        × (d : Definition) × (latest ds id none ≡ some d)
        × (restore_definition codec t family os_ver arch ≡ ok (narrow family os_ver arch (strip d)))
  restore_one id h =
      let (d, l) = latest-has_id codec ds id h in
      let dec = rw l at (stored-Decodes codec ds id none none e tt) in
      let (t, st, un) = Decodes-some codec (stored codec ds id none) d dec in
      (t, m.fields id ∙ st, d, l, unfold restore_definition in ground arith)

  restore_all-Restores :
      (ids : List Text)
      → All (λ id. has_id ds id ≡ true) ids
      → (rs : List Definition) × (restore_all codec family os_ver arch (map field_at ids) ≡ ok rs)
        × Restores family os_ver arch ds ids rs
  unfolding restore_all
  restore_all-Restores [] h = ([], refl, tt)
  restore_all-Restores (id ∷ ids) h =
      let (t, f, d, l, q) = restore_one id h.0 in
      let (rs, g, rest) = restore_all-Restores ids h.1 in
      (narrow family os_ver arch (strip d) ∷ rs, rw (f, q, g) refl, ((d, l, refl), rest))

  pub get_definitions-Restores :
      (ids : List Text)
      → All (λ id. has_id ds id ≡ true) ids
      → (rs : List Definition) × (get_definitions server codec family os_ver arch ids s ≡ ok rs)
        × Restores family os_ver arch ds ids rs
  unfolding get_definitions
  get_definitions-Restores [] h = ([], refl, tt)
  get_definitions-Restores (id ∷ ids) h =
      let (vs, q) = r.hmget (def_key family os_ver) (id ∷ ids) in
      let vs_eq = server.hmget-field s (def_key family os_ver) (id ∷ ids) vs q in
      let (rs, g, rest) = restore_all-Restores (id ∷ ids) h in (rs, ground arith, rest)

  All-present :
      (k : Kind) (x : Text) (ids : List Text)
      → ((i : Text) → elem i ids ≡ true → covers family ds i k x ≡ true)
      → All (λ id. has_id ds id ≡ true) ids
  unfolding elem
  All-present k x [] h = tt
  All-present k x (id ∷ ids) h = (
    covers-has_id codec family ds id k x (h id (ground (arith, text_eq_refl id))),
    All-present k x ids (λ i q. h i (ground arith)),
  )

  -- The ids of one set are those of the definitions that the set is for.
  pub members-cover :
      (k : Kind) (x : Text) (ids : List Text)
      → server.smembers s (index_key family os_ver k x) ≡ some ids
      → (i : Text) → elem i ids ≡ covers family ds i k x
  members-cover k x ids q i =
      server.smembers-member s (index_key family os_ver k x) ids q i ∙ m.index i k x

  pack_eq :
      (fuel : ℕ) (pack_name key : Text) (ids : List Text) (rs : List Definition)
      → pkg_keys server codec fuel family os_ver pack_name arch s ≡ some (ok (key ∷ []))
      → server.smembers s key ≡ some ids
      → get_definitions server codec family os_ver arch ids s ≡ ok rs
      → get_by_formatted_pack server codec fuel family os_ver pack_name arch s ≡ some (ok rs)
  unfolding get_by_formatted_pack members_all
  pack_eq fuel pack_name key ids rs q found g = ground (arith, append-nil ids)

  get_by_formatted_pack-one_key :
      (fuel : ℕ) (pack_name x : Text)
      → pkg_keys server codec fuel family os_ver pack_name arch s
        ≡ some (ok (index_key family os_ver packages x ∷ []))
      → (ids : List Text) × (rs : List Definition) × (get_by_formatted_pack server codec fuel family
            os_ver pack_name arch s
          ≡ some (ok rs))
        × ((i : Text) → elem i ids ≡ covers family ds i packages x)
        × Restores family os_ver arch ds ids rs
  get_by_formatted_pack-one_key fuel pack_name x q =
      let (ids, found) = r.smembers (index_key family os_ver packages x) in
      let (rs, g, rest) =
        get_definitions-Restores ids
          (All-present packages x ids (λ i w. sym (members-cover packages x ids found i) ∙ w)) in
      (
        ids,
        rs,
        pack_eq fuel pack_name (index_key family os_ver packages x) ids rs q found g,
        members-cover packages x ids found,
        rest,
      )

  get_by_cve_id_formatted :
      (fam os cve_id : Text)
      → format_family_and_os_ver fam os ≡ ok (family, os_ver)
      → (ids : List Text) × (rs : List Definition) × (get_by_cve_id server codec fam os cve_id arch
            s
          ≡ ok rs)
        × ((i : Text) → elem i ids ≡ covers family ds i cves cve_id)
        × Restores family os_ver arch ds ids rs
  unfolding get_by_cve_id
  get_by_cve_id_formatted fam os cve_id f =
      let (ids, found) = r.smembers (index_key family os_ver cves cve_id) in
      let (rs, g, rest) =
        get_definitions-Restores ids
          (All-present cves cve_id ids (λ i w. sym (members-cover cves cve_id ids found i) ∙ w)) in
      (ids, rs, rw f (rw found g), members-cover cves cve_id ids found, rest)

-- The set of a package is read under its name alone, or under name#arch where the family indexes
-- packages by architecture.
unfoldable pub pack_entry : Text → Text → Text → Text
pack_entry family pack_name arch =
    if uses_arch family then pack_name ++ (codes "#" ++ arch) else pack_name

module _ (server : Server) (codec : Codec) where
  pkg_keys-one :
      (fuel : ℕ) (family os_ver pack_name arch : Text) (s : server.State)
      → (text_eq arch [] && uses_arch family) ≡ false
      → pkg_keys server codec fuel family os_ver pack_name arch s
        ≡ some (ok (index_key family os_ver packages (pack_entry family pack_name arch) ∷ []))
  unfolding pkg_keys pack_entry pkg_key
  pkg_keys-one fuel family os_ver pack_name arch s h = elim (Bool-cases (uses_arch family)) [
    | inl y ↦ elim (Bool-cases (text_eq arch [])) [
      | inl w ↦ ground arith
      | inr n ↦
          rw (y, n)
            (ap (λ k. some (ok (k ∷ [])))
              (append_assoc (scope family os_ver) (codes "PKG#" ++ pack_name) (codes "#" ++ arch)))
    ]
    | inr n ↦ rw n refl
  ]

  -- On a database that mirrors the definitions `ds`, where no read fails, GetByCveID returns, for
  -- every id of the set of the CVE in turn, the definition inserted last under that id, less its
  -- database ids and narrowed as restoreDefinition does; the set has exactly the ids of the
  -- definitions that name the CVE.
  pub get_by_cve_id_correct :
      (fam os family os_ver cve_id arch : Text) (ds : List Definition) (s : server.State)
      → Encodes codec ds
      → Mirrors server codec family os_ver ds s
      → IsReadable server s
      → format_family_and_os_ver fam os ≡ ok (family, os_ver)
      → (ids : List Text) × (rs : List Definition) × (get_by_cve_id server codec fam os cve_id arch
            s
          ≡ ok rs)
        × ((i : Text) → elem i ids ≡ covers family ds i cves cve_id)
        × Restores family os_ver arch ds ids rs
  get_by_cve_id_correct fam os family os_ver cve_id arch ds s e m r f =
      get_by_cve_id_formatted server codec family os_ver arch ds s e m r fam os cve_id f

  pub get_by_pack_name_formatted :
      (fuel : ℕ) (fam os family os_ver pack_name arch : Text) (s : server.State)
      → format_family_and_os_ver fam os ≡ ok (family, os_ver)
      → get_by_pack_name server codec fuel fam os pack_name arch s
        ≡ get_by_formatted_pack server codec fuel family os_ver pack_name arch s
  unfolding get_by_pack_name
  get_by_pack_name_formatted fuel fam os family os_ver pack_name arch s f = ground arith

  -- On a database that mirrors the definitions `ds`, where no read fails, GetByPackName of a
  -- package, given an architecture where the family indexes packages by one, needs no SCAN and
  -- returns, for every id of the one set that it reads in turn, the definition inserted last under
  -- that id, less its database ids and narrowed as restoreDefinition does; the set has exactly the
  -- ids of the definitions with that package.
  pub get_by_pack_name_correct :
      (fuel : ℕ) (fam os family os_ver pack_name arch : Text) (ds : List Definition)
      (s : server.State)
      → Encodes codec ds
      → Mirrors server codec family os_ver ds s
      → IsReadable server s
      → format_family_and_os_ver fam os ≡ ok (family, os_ver)
      → (text_eq arch [] && uses_arch family) ≡ false
      → (ids : List Text) × (rs : List Definition) × (get_by_pack_name server codec fuel fam os
            pack_name arch s
          ≡ some (ok rs))
        × ((i : Text) → elem i ids ≡ covers family ds i packages (pack_entry family pack_name arch))
        × Restores family os_ver arch ds ids rs
  get_by_pack_name_correct fuel fam os family os_ver pack_name arch ds s e m r f h =
      rw (get_by_pack_name_formatted fuel fam os family os_ver pack_name arch s f) (
        get_by_formatted_pack-one_key server codec family os_ver arch ds s e m r fuel pack_name
          (pack_entry family pack_name arch) (pkg_keys-one fuel family os_ver pack_name arch s h))
