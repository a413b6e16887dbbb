-- ===== src/Db/Rdb/Query/Narrow.antt =====
-- The definitions that the two queries of db/rdb.go return, next to those of db/redis.go.
use goval_dictionary_v.Prelude.{
  ℕ, ◌≡◌, ◌⊎◌, inl, inr, refl, ap, sym, ◌∙◌, Bool, false, ◌||◌, none, some, List, [], ◌∷◌, ◌++◌,
  append_assoc, append-nil, map, arith, Bool-cases, flat_map, if◌then◌else◌,
}
use goval_dictionary_v.Text.{Text, codes, text_eq}
use goval_dictionary_v.Text.Equality.{eq_of_text_eq}
use goval_dictionary_v.Outcome.{ok}
use goval_dictionary_v.Config
use goval_dictionary_v.Models.{Definition, Advisory, new_advisory, Package}
use goval_dictionary_v.Db.Version.{format_family_and_os_ver}
use goval_dictionary_v.Db.Filters.{fileter_packs_by_arch}
use goval_dictionary_v.Db.Redis.Insert.{uses_arch}
use goval_dictionary_v.Db.Redis.Query.{narrow}
use goval_dictionary_v.Db.Rdb.Gorm.{Gorm, found, Query, Preload}
use goval_dictionary_v.Db.Rdb.Query.{
  common_preloads, family_preloads, pack_query, cve_query, narrow_redhat, append_batches,
  rdb_get_by_pack_name, rdb_get_by_cve_id,
}

-- whether an association is loaded
abbrev pub loads : Text → List Preload → Bool
loads name [] = false
loads name (p ∷ ps) = text_eq p.association name || loads name ps

-- the packages that are loaded: with a condition on the architecture those for it
abbrev pub loaded_packs : List Preload → List Package → List Package
loaded_packs [] packs = []
loaded_packs (p ∷ ps) packs =
    if text_eq p.association (codes "AffectedPacks")
    then elim p.arch [ none ↦ packs | some arch ↦ fileter_packs_by_arch packs arch ]
    else loaded_packs ps packs

abbrev pub loaded_advisory : List Preload → Advisory → Advisory
loaded_advisory ps a =
    if loads (codes "Advisory") ps
    then record a {
      cves = if loads (codes "Advisory.Cves") ps then a.cves else [];
      bugzillas = if loads (codes "Advisory.Bugzillas") ps then a.bugzillas else [];
      affected_cpe_list =
          if loads (codes "Advisory.AffectedCPEList") ps then a.affected_cpe_list else [];
    }
    else new_advisory

-- A stored definition as a query returns it: with the associations that it loads.
abbrev pub loaded : List Preload → Definition → Definition
loaded ps d = record d {
  advisory = loaded_advisory ps d.advisory;
  debian = if loads (codes "Debian") ps then d.debian else none;
  affected_packs = loaded_packs ps d.affected_packs;
  references = if loads (codes "References") ps then d.references else [];
}

-- What gorm documents of Find, FindInBatches and Preload: the rows of a query, in the order of the
-- database, with the associations that are named; the batches are these rows, cut up.
pub record IsLoading (g : Gorm) : Type 1 where
  pub rows : Query → g.Db → List Definition
  pub rows-find :
      (q : Query) (db : g.Db) (ds : List Definition)
      → g.find q db ≡ found ds
      → ds ≡ map (loaded q.preloads) (rows q db)
  pub rows-find_in_batches :
      (q : Query) (n : ℕ) (db : g.Db) (bs : List (List Definition))
      → g.find_in_batches q n db ≡ some bs
      → flat_map (λ b. b) bs ≡ map (loaded q.preloads) (rows q db)

-- The part on Debian is stored and loaded for Debian alone.
abbrev pub shown : Text → Definition → Definition
shown family d = record d { debian = if text_eq family Config.debian then d.debian else none }

-- what a query makes of one stored definition, as one step of narrow_redhat sees it
abbrev answered : Text → Text → Text → Definition → Definition
answered family os_ver arch d = narrow family os_ver arch (shown family d)

-- the two families that are told apart by name
loaded-narrow_named :
    (family os_ver arch : Text) (d : Definition)
    → (family ≡ Config.debian) ⊎ (family ≡ Config.redhat)
    → narrow_redhat family os_ver (loaded (common_preloads ++ family_preloads family arch) d ∷ [])
      ≡ answered family os_ver arch d ∷ []
unfolding narrow_redhat family_preloads narrow uses_arch text_eq
loaded-narrow_named family os_ver arch d (inl e) = rw e refl
loaded-narrow_named family os_ver arch d (inr e) = rw e refl

no_arch : (packs : List Package) → fileter_packs_by_arch packs [] ≡ packs
unfolding fileter_packs_by_arch text_eq
no_arch packs = refl

loaded-narrow_other :
    (family os_ver arch : Text) (d : Definition)
    → text_eq family Config.debian ≡ false
    → text_eq family Config.redhat ≡ false
    → narrow_redhat family os_ver (loaded (common_preloads ++ family_preloads family arch) d ∷ [])
      ≡ answered family os_ver arch d ∷ []
unfolding narrow_redhat family_preloads narrow text_eq
loaded-narrow_other family os_ver arch d n r = elim (Bool-cases (uses_arch family)) [
  | inl u ↦ elim (Bool-cases (text_eq arch [])) [
    | inl a ↦ let e = eq_of_text_eq arch [] a in rw (n, r, u, e, no_arch d.affected_packs) refl
    | inr a ↦ rw (n, r, u, a) refl
  ]
  | inr u ↦ rw (n, r, u) refl
]

loaded-narrow :
    (family os_ver arch : Text) (d : Definition)
    → narrow_redhat family os_ver (loaded (common_preloads ++ family_preloads family arch) d ∷ [])
      ≡ answered family os_ver arch d ∷ []
loaded-narrow family os_ver arch d = elim (Bool-cases (text_eq family Config.debian)) [
  | inl y ↦ loaded-narrow_named family os_ver arch d (inl (eq_of_text_eq family Config.debian y))
  | inr n ↦ elim (Bool-cases (text_eq family Config.redhat)) [
    | inl y ↦ loaded-narrow_named family os_ver arch d (inr (eq_of_text_eq family Config.redhat y))
    | inr r ↦ loaded-narrow_other family os_ver arch d n r
  ]
]

narrow_redhat-cons :
    (family os_ver : Text) (d : Definition) (ds : List Definition)
    → narrow_redhat family os_ver (d ∷ ds)
      ≡ narrow_redhat family os_ver (d ∷ []) ++ narrow_redhat family os_ver ds
unfolding narrow_redhat
narrow_redhat-cons family os_ver d ds = elim (Bool-cases (text_eq family Config.redhat)) [
  | inl y ↦ rw y refl
  | inr n ↦ rw n refl
]

narrow_redhat-nil : (family os_ver : Text) → narrow_redhat family os_ver [] ≡ []
unfolding narrow_redhat
narrow_redhat-nil family os_ver = ground arith

narrow_redhat-loaded :
    (family os_ver arch : Text) (ds : List Definition)
    → narrow_redhat family os_ver (map (loaded (common_preloads ++ family_preloads family arch)) ds)
      ≡ map (answered family os_ver arch) ds
narrow_redhat-loaded family os_ver arch [] = narrow_redhat-nil family os_ver
narrow_redhat-loaded family os_ver arch (d ∷ ds) =
    narrow_redhat-cons family os_ver (loaded (common_preloads ++ family_preloads family arch) d)
      (map (loaded (common_preloads ++ family_preloads family arch)) ds)
    ∙ ap
        (λ t.
          t
          ++ narrow_redhat family os_ver
              (map (loaded (common_preloads ++ family_preloads family arch)) ds))
        (loaded-narrow family os_ver arch d)
    ∙ ap (λ t. answered family os_ver arch d ∷ t) (narrow_redhat-loaded family os_ver arch ds)

append_batches-flat :
    (bs : List (List Definition)) (defs : List Definition)
    → append_batches defs bs ≡ defs ++ flat_map (λ b. b) bs
unfolding append_batches
append_batches-flat [] defs = sym (append-nil defs)
append_batches-flat (b ∷ bs) defs =
    append_batches-flat bs (defs ++ b) ∙ append_assoc defs b (flat_map (λ b. b) bs)

module _ (g : Gorm) (laws : IsLoading g) where
  -- Where the family and the release are known and its statement succeeds, GetByCveID of the
  -- relational driver returns the definitions that the joins select, each narrowed down to the
  -- architecture or the release as the Redis driver does it, and with the part on Debian for the
  -- family debian alone.
  pub rdb_get_by_cve_id-narrow :
      (family os_ver cve arch : Text) (p : Text × Text) (db : g.Db) (ds : List Definition)
      → format_family_and_os_ver family os_ver ≡ ok p
      → g.find (cve_query p.0 p.1 cve arch) db ≡ found ds
      → rdb_get_by_cve_id g family os_ver cve arch db
        ≡ ok (
            map
              (λ d. narrow p.0 p.1 arch (shown p.0 d))
              (laws.rows (cve_query p.0 p.1 cve arch) db))
  unfolding rdb_get_by_cve_id cve_query
  rdb_get_by_cve_id-narrow family os_ver cve arch p db ds e f =
      let l = laws.rows-find (cve_query p.0 p.1 cve arch) db ds f in
      rw (e, f, l) (ap ok (narrow_redhat-loaded p.0 p.1 arch _))

  -- The same of GetByPackName, for the definitions that come in batches.
  pub rdb_get_by_pack_name-narrow :
      (family os_ver pack_name arch : Text) (p : Text × Text) (db : g.Db)
      (bs : List (List Definition))
      → format_family_and_os_ver family os_ver ≡ ok p
      → g.find_in_batches (pack_query p.0 p.1 pack_name arch) 998 db ≡ some bs
      → rdb_get_by_pack_name g family os_ver pack_name arch db
        ≡ ok (
            map
              (λ d. narrow p.0 p.1 arch (shown p.0 d))
              (laws.rows (pack_query p.0 p.1 pack_name arch) db))
  unfolding rdb_get_by_pack_name pack_query
  rdb_get_by_pack_name-narrow family os_ver pack_name arch p db bs e f =
      let l =
        append_batches-flat bs []
        ∙ laws.rows-find_in_batches (pack_query p.0 p.1 pack_name arch) 998 db bs f in
      rw (e, f, l) (ap ok (narrow_redhat-loaded p.0 p.1 arch _))
