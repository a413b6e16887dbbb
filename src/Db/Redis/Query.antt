-- ===== src/Db/Redis/Query.antt =====
-- GetByPackName, GetByCveID and restoreDefinition of db/redis.go.
pub mod Laws
pub mod Correct
pub mod Scan
use goval_dictionary_v.Prelude.{
  ℕ, zero, suc, ◌/◌, Bool, true, false, Option, none, some, List, [], ◌∷◌, ◌++◌, ◌==◌,
  if◌then◌else◌,
}
use goval_dictionary_v.Text.{Text, codes, text_eq}
use goval_dictionary_v.Outcome.{
  Outcome, ok, err, panic, failed_query, failed_command, failed_unmarshal, broken_relationship,
  ◌>>=◌,
}
use goval_dictionary_v.Config
use goval_dictionary_v.Models.{Definition}
use goval_dictionary_v.Db.Version.{major, format_family_and_os_ver}
use goval_dictionary_v.Db.Filters.{filter_by_redhat_major, fileter_packs_by_arch}
use goval_dictionary_v.Db.Redis.Server.{Server, Codec}
use goval_dictionary_v.Db.Redis.Keys.{cve_key, pkg_key, def_key}
use goval_dictionary_v.Db.Redis.Insert.{uses_arch}

-- The switch of restoreDefinition on the family.
unfoldable pub narrow : Text → Text → Text → Definition → Definition
narrow family version arch def =
    if uses_arch family
    then record def { affected_packs = fileter_packs_by_arch def.affected_packs arch }
    else if text_eq family Config.redhat
    then record def { affected_packs = filter_by_redhat_major def.affected_packs (major version) }
    else def

module _ (codec : Codec) where
  unfoldable pub restore_definition : Text → Text → Text → Text → Outcome Definition
  restore_definition defstr family version arch = elim (codec.unmarshal defstr) [
    | none ↦ err failed_unmarshal
    | some def ↦ ok (narrow family version arch def)
  ]

  -- The loop over the replies of HMGET.
  unfoldable pub restore_all : Text → Text → Text → List (Option Text) → Outcome (List Definition)
  restore_all family os_ver arch [] = ok []
  restore_all family os_ver arch (none ∷ defstrs) = err broken_relationship
  restore_all family os_ver arch (some defstr ∷ defstrs) =
      let rest = restore_all family os_ver arch defstrs in
      do def ← restore_definition defstr family os_ver arch; defs ← rest; ok (def ∷ defs)

module _ (server : Server) (codec : Codec) where
  -- What both queries do with the ids that they have found.
  unfoldable pub get_definitions :
      Text → Text → Text → List Text → server.State → Outcome (List Definition)
  get_definitions family os_ver arch [] s = ok []
  get_definitions family os_ver arch (id ∷ ids) s =
      elim (server.hmget s (def_key family os_ver) (id ∷ ids)) [
        | none ↦ err failed_query
        | some defstrs ↦ restore_all codec family os_ver arch defstrs
      ]

  unfoldable pub get_by_cve_id :
      Text → Text → Text → Text → server.State → Outcome (List Definition)
  get_by_cve_id family os_ver cve_id arch s = do
    p ← format_family_and_os_ver family os_ver
    elim (server.smembers s (cve_key p.0 p.1 cve_id)) [
      | none ↦ err failed_query
      | some ids ↦ get_definitions p.0 p.1 arch ids s
    ]

  -- The loop around SCAN, which goes on until the cursor is 0 again. The number of its rounds is
  -- up to the server, so it is on fuel, and `none` means that the fuel ran out.
  unfoldable pub scan_all : ℕ → ℕ → Text → ℕ → server.State → Option (Outcome (List Text))
  scan_all zero cursor pattern count s = none
  scan_all (suc fuel) cursor pattern count s = elim (server.scan s cursor pattern count) [
    | none ↦ some (err failed_query)
    | some (keys, next) ↦ elim (next == 0) [
      | true ↦ some (ok keys)
      | false ↦ elim (scan_all fuel next pattern count s) [
        | none ↦ none
        | some more ↦ some (more >>= λ rest. ok (keys ++ rest))
      ]
    ]
  ]

  -- The keys of the sets to read.
  unfoldable pub pkg_keys :
      ℕ → Text → Text → Text → Text → server.State → Option (Outcome (List Text))
  pkg_keys fuel family os_ver pack_name arch s =
      let key = pkg_key family os_ver pack_name in
      if uses_arch family
      then (if text_eq arch []
          then elim (server.dbsize s) [
            | none ↦ some (err failed_query)
            | some n ↦ scan_all fuel 0 (key ++ codes "#*") (n / 5) s
          ]
          else some (ok ((key ++ (codes "#" ++ arch)) ∷ [])))
      else some (ok (key ∷ []))

  -- The pipeline of SMEMBERS, and the concatenation of its replies.
  unfoldable pub members_all : List Text → server.State → Outcome (List Text)
  members_all [] s = ok []
  members_all (k ∷ ks) s =
      let rest = members_all ks s in
      elim (server.smembers s k) [
        | none ↦ err failed_command
        | some ids ↦ (do more ← rest; ok (ids ++ more))
      ]

  -- What follows the normalisation of the family and the release.
  unfoldable pub get_by_formatted_pack :
      ℕ → Text → Text → Text → Text → server.State → Option (Outcome (List Definition))
  get_by_formatted_pack fuel family os_ver pack_name arch s =
      elim (pkg_keys fuel family os_ver pack_name arch s) [
        | none ↦ none
        | some found ↦
            some (do ks ← found; ids ← members_all ks s; get_definitions family os_ver arch ids s)
      ]

  unfoldable pub get_by_pack_name :
      ℕ → Text → Text → Text → Text → server.State → Option (Outcome (List Definition))
  get_by_pack_name fuel family os_ver pack_name arch s =
      elim (format_family_and_os_ver family os_ver) [
        | ok p ↦ get_by_formatted_pack fuel p.0 p.1 pack_name arch s
        | err e ↦ some (err e)
        | panic ↦ some panic
      ]
