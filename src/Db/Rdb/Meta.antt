-- ===== src/Db/Rdb/Meta.antt =====
-- CountDefs, GetLastModified, IsGovalDictModelV1, GetFetchMeta and UpsertFetchMeta of db/rdb.go. The
-- revision of the build and the time a hundred years ago are parameters.
pub mod Inserted
use goval_dictionary_v.Prelude.{ℕ, Bool, none, some}
use goval_dictionary_v.Text.{Text, codes}
use goval_dictionary_v.Outcome.{Outcome, ok, err, ◌>>=◌, failed_query, failed_command}
use goval_dictionary_v.Models.{Time, Root, FetchMeta, latest_schema_version, default_time}
use goval_dictionary_v.Db.Version.{format_family_and_os_ver}
use goval_dictionary_v.Db.Rdb.Gorm.{Gorm, Reply, found, not_found, failed}

module _ (g : Gorm) where
  unfoldable pub count_of_root : Reply Root → g.Db → Outcome ℕ
  count_of_root failed db = err failed_query
  count_of_root not_found db = ok 0
  count_of_root (found root) db = elim (g.count_definitions root.id db) [
    | none ↦ err failed_query
    | some n ↦ ok n
  ]

  unfoldable pub rdb_count_defs : Text → Text → g.Db → Outcome ℕ
  rdb_count_defs family os_ver db = do
    p ← format_family_and_os_ver family os_ver
    count_of_root (g.take_root p.0 p.1 db) db

  unfoldable pub rdb_get_last_modified : Time → Text → Text → g.Db → Outcome Time
  rdb_get_last_modified century_ago family os_ver db = do
    p ← format_family_and_os_ver family os_ver
    elim (g.first_root p.0 p.1 db) [
      | failed ↦ err failed_query
      | not_found ↦ ok century_ago
      | found root ↦ ok root.timestamp
    ]

  unfoldable pub rdb_is_goval_dict_model_v1 : g.Db → Outcome Bool
  rdb_is_goval_dict_model_v1 db = ok (g.has_column (codes "file_name") db)

  unfoldable pub rdb_get_fetch_meta : Text → g.Db → Outcome FetchMeta
  rdb_get_fetch_meta revision db = elim (g.take_fetch_meta db) [
    | failed ↦ err failed_query
    | not_found ↦ ok (record {
      goval_dict_revision = revision;
      schema_version = latest_schema_version;
      last_fetched_at = default_time;
    })
    | found meta ↦ ok meta
  ]

  unfoldable pub rdb_upsert_fetch_meta : Text → FetchMeta → g.Db → Outcome {0} Unit × g.Db
  rdb_upsert_fetch_meta revision meta db =
      elim (g.save_fetch_meta
        (record meta { goval_dict_revision = revision; schema_version = latest_schema_version })
        db) [ none ↦ (err failed_command, db) | some db' ↦ (ok tt, db') ]
