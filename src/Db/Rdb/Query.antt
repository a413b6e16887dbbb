-- ===== src/Db/Rdb/Query.antt =====
-- GetByPackName and GetByCveID of db/rdb.go.
pub mod Narrow
use goval_dictionary_v.Prelude.{
  ℕ, String, Bool, true, false, Option, none, some, List, [], ◌∷◌, ◌++◌, map, if◌then◌else◌,
}
use goval_dictionary_v.Text.{Text, codes, text_eq}
use goval_dictionary_v.Outcome.{Outcome, ok, err, panic, ◌>>=◌, failed_query}
use goval_dictionary_v.Config
use goval_dictionary_v.Models.{Definition}
use goval_dictionary_v.Db.Version.{major, format_family_and_os_ver}
use goval_dictionary_v.Db.Filters.{filter_by_redhat_major}
use goval_dictionary_v.Db.Redis.Insert.{uses_arch}
use goval_dictionary_v.Db.Rdb.Gorm.{
  Gorm, Reply, found, not_found, failed, Query, Preload, Condition, by_name, by_name_and_arch,
  by_cve,
}

abbrev pub all_of : String → Preload
all_of association = record { association = codes association; arch = none }

abbrev pub common_preloads : List Preload
common_preloads =
    all_of "Advisory"
    ∷ all_of "Advisory.Cves"
    ∷ all_of "Advisory.Bugzillas"
    ∷ all_of "Advisory.AffectedCPEList"
    ∷ all_of "References"
    ∷ []

-- The switch on the family, in both queries.
unfoldable pub family_preloads : Text → Text → List Preload
family_preloads family arch =
    if text_eq family Config.debian
    then all_of "Debian" ∷ all_of "AffectedPacks" ∷ []
    else if uses_arch family
    then (if text_eq arch []
        then all_of "AffectedPacks" ∷ []
        else record { association = codes "AffectedPacks"; arch = some arch } ∷ [])
    else all_of "AffectedPacks" ∷ []

unfoldable pub pack_condition : Text → Text → Text → Condition
pack_condition family pack_name arch =
    if text_eq family Config.debian
    then by_name pack_name
    else if uses_arch family
    then (if text_eq arch [] then by_name pack_name else by_name_and_arch pack_name arch)
    else by_name pack_name

unfoldable pub pack_query : Text → Text → Text → Text → Query
pack_query family os_ver pack_name arch = record {
  family = family;
  os_ver = os_ver;
  where_ = pack_condition family pack_name arch;
  preloads = common_preloads ++ family_preloads family arch;
}

unfoldable pub cve_query : Text → Text → Text → Text → Query
cve_query family os_ver cve arch = record {
  family = family;
  os_ver = os_ver;
  where_ = by_cve cve;
  preloads = common_preloads ++ family_preloads family arch;
}

-- The loop over the definitions of Red Hat.
unfoldable pub narrow_redhat : Text → Text → List Definition → List Definition
narrow_redhat family os_ver defs =
    if text_eq family Config.redhat
    then map
        (λ (d : Definition). record d {
          affected_packs = filter_by_redhat_major d.affected_packs (major os_ver);
        })
        defs
    else defs

-- `defs = append(defs, tmpDefs...)` in the callback
unfoldable pub append_batches : List Definition → List (List Definition) → List Definition
append_batches defs [] = defs
append_batches defs (tmp_defs ∷ rest) = append_batches (defs ++ tmp_defs) rest

module _ (g : Gorm) where
  unfoldable pub rdb_get_by_pack_name : Text → Text → Text → Text → g.Db → Outcome (List Definition)
  rdb_get_by_pack_name family os_ver pack_name arch db = do
    p ← format_family_and_os_ver family os_ver
    elim (g.find_in_batches (pack_query p.0 p.1 pack_name arch) 998 db) [
      | none ↦ err failed_query
      | some batches ↦ ok (narrow_redhat p.0 p.1 (append_batches [] batches))
    ]

  unfoldable pub rdb_get_by_cve_id : Text → Text → Text → Text → g.Db → Outcome (List Definition)
  rdb_get_by_cve_id family os_ver cve arch db = do
    p ← format_family_and_os_ver family os_ver
    elim (g.find (cve_query p.0 p.1 cve arch) db) [
      | found defs ↦ ok (narrow_redhat p.0 p.1 defs)
      | not_found ↦ ok (narrow_redhat p.0 p.1 [])
      | failed ↦ err failed_query
    ]
