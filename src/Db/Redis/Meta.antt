-- ===== src/Db/Redis/Meta.antt =====
-- CountDefs, GetLastModified, IsGovalDictModelV1, GetFetchMeta and UpsertFetchMeta of db/redis.go.
-- Parameters are the revision of the build, the date that is a hundred years ago, and time.Parse and
-- Time.Format.
pub mod Laws
pub mod Timestamp
use goval_dictionary_v.Prelude.{
  ℕ, zero, suc, ◌+◌, ◌*◌, ◌-◌, ◌/◌, Bool, true, false, ◌&&◌, Option, none, some, List, [], ◌∷◌,
  ◌++◌, leb, ltb, if◌then◌else◌,
}
use goval_dictionary_v.Text.Numbers.{parse_digits}
use goval_dictionary_v.Text.{Text, codes, text_eq}
use goval_dictionary_v.Outcome.{
  Outcome, ok, err, panic, failed_query, failed_command, failed_unmarshal, ◌>>=◌,
}
use goval_dictionary_v.Models.{Time, default_time, FetchMeta, latest_schema_version}
use goval_dictionary_v.Db.Version.{format_family_and_os_ver}
use goval_dictionary_v.Db.Redis.Server.{Command, hset, Server}
use goval_dictionary_v.Db.Redis.Keys.{def_key, last_modified_key}
use goval_dictionary_v.Db.Redis.Insert.{run_all}

abbrev pub fetch_meta_key : Text
fetch_meta_key = codes "OVAL#FETCHMETA"

-- strconv.ParseUint(s, 10, 8): digits alone, at least one, and a number of 8 bits.
unfoldable pub in_byte : Option ℕ → Option ℕ
in_byte none = none
in_byte (some n) = if ltb n 256 then some n else none

unfoldable pub parse_uint8 : Text → Option ℕ
parse_uint8 [] = none
parse_uint8 (c ∷ s) = in_byte (parse_digits 0 (c ∷ s))

-- The decimal text of the schema version, one digit.
unfoldable pub schema_text : Text
schema_text = (48 + latest_schema_version) ∷ []

module _ (server : Server) where
  unfoldable pub count_defs : Text → Text → server.State → Outcome ℕ
  count_defs family os_ver s = do
    p ← format_family_and_os_ver family os_ver
    elim (server.hlen s (def_key p.0 p.1)) [ none ↦ err failed_query | some n ↦ ok n ]

  unfoldable pub is_goval_dict_model_v1 : server.State → Outcome Bool
  is_goval_dict_model_v1 s = elim (server.exists s fetch_meta_key) [
    | none ↦ err failed_query
    | some true ↦ ok false
    | some false ↦ elim (server.scan s 0 (codes "OVAL#*") 1) [
      | none ↦ err failed_query
      | some ([], cursor) ↦ ok false
      | some (k ∷ ks, cursor) ↦ ok true
    ]
  ]

  module _ (parse : Text → Text → Option Time) (format : Text → Time → Text) where
    abbrev parsed : Text → Text → Outcome Time
    parsed layout value = elim (parse layout value) [ none ↦ err failed_unmarshal | some t ↦ ok t ]

    unfoldable pub get_last_modified : Time → Text → Text → server.State → Outcome Time
    get_last_modified century_ago family os_ver s = do
      p ← format_family_and_os_ver family os_ver
      elim (server.get s (last_modified_key p.0 p.1)) [
        | none ↦ err failed_query
        | some none ↦ ok century_ago
        | some (some t) ↦ parsed (codes "2006-01-02T15:04:05Z") t
      ]

    -- HGET of a field that has to be there.
    abbrev required : Option (Option Text) → Outcome Text
    required none = err failed_query
    required (some none) = err failed_query
    required (some (some t)) = ok t

    -- HGET of the date, with the default date where there is none.
    abbrev fetched_text : Option (Option Text) → Outcome Text
    fetched_text none = err failed_query
    fetched_text (some none) = ok (format (codes "RFC3339") default_time)
    fetched_text (some (some t)) = ok t

    abbrev version_of : Text → Outcome ℕ
    version_of t = elim (parse_uint8 t) [ none ↦ err failed_unmarshal | some n ↦ ok n ]

    -- The three fields of a key that is there.
    unfoldable pub read_fetch_meta : server.State → Outcome FetchMeta
    read_fetch_meta s = do
      revision ← required (server.hget s fetch_meta_key (codes "Revision"))
      verstr ← required (server.hget s fetch_meta_key (codes "SchemaVersion"))
      version ← version_of verstr
      datestr ← fetched_text (server.hget s fetch_meta_key (codes "LastFetchedAt"))
      date ← parsed (codes "RFC3339") datestr
      ok (record {
        goval_dict_revision = revision;
        schema_version = version;
        last_fetched_at = date;
      })

    unfoldable pub get_fetch_meta : Text → server.State → Outcome FetchMeta
    get_fetch_meta revision s = elim (server.exists s fetch_meta_key) [
      | none ↦ err failed_query
      | some false ↦ ok (record {
        goval_dict_revision = revision;
        schema_version = latest_schema_version;
        last_fetched_at = default_time;
      })
      | some true ↦ read_fetch_meta s
    ]

    -- One HSET of three fields, as three of one field each; the client writes a time in the layout
    -- RFC3339Nano.
    unfoldable pub upsert_fetch_meta :
        Text → FetchMeta → server.State → server.State × Outcome (Unit {0})
    upsert_fetch_meta revision fetch_meta s =
        let done = run_all server s (
          hset fetch_meta_key (codes "Revision") revision
          ∷ hset fetch_meta_key (codes "SchemaVersion") schema_text
          ∷ hset fetch_meta_key (codes "LastFetchedAt")
              (format (codes "RFC3339Nano") fetch_meta.last_fetched_at)
          ∷ []) in
        (done.0, (if done.1 then ok tt else err failed_command))
