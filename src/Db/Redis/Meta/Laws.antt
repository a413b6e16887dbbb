-- ===== src/Db/Redis/Meta/Laws.antt =====
-- What is read back of the fetch record.
use goval_dictionary_v.Prelude.{
  ◌≡◌, refl, ap, ◌∙◌, Bool, true, false, Option, some, List, [], ◌∷◌, arith,
}
use goval_dictionary_v.Text.Numbers.{parse_digits}
use goval_dictionary_v.Text.{Text, codes, text_eq}
use goval_dictionary_v.Outcome.{ok}
use goval_dictionary_v.Models.{Time, FetchMeta, latest_schema_version, outdated}
use goval_dictionary_v.Db.Redis.Server.{Command, hset, Server}
use goval_dictionary_v.Db.Redis.Insert.{run_all}
use goval_dictionary_v.Db.Redis.Insert.Batches.{run_all-field}
use goval_dictionary_v.Db.Redis.Meta.{
  fetch_meta_key, in_byte, parse_uint8, schema_text, is_goval_dict_model_v1, read_fetch_meta,
  get_fetch_meta, upsert_fetch_meta,
}

-- No read of the fetch record fails.
pub record IsMetaReadable (server : Server) (s : server.State) : Type 0 where
  pub exists : (k : Text) → (b : Bool) × (server.exists s k ≡ some b)
  pub hget : (k f : Text) → (o : Option Text) × (server.hget s k f ≡ some o)

schema_text-parse : parse_uint8 schema_text ≡ some latest_schema_version
unfolding parse_uint8 schema_text parse_digits in_byte
schema_text-parse = refl

module _ (server : Server) (parse : Text → Text → Option Time) (format : Text → Time → Text)
    (s : server.State) where
  hget-some :
      (f v : Text)
      → IsMetaReadable server s
      → server.field s fetch_meta_key f ≡ some v
      → server.hget s fetch_meta_key f ≡ some (some v)
  hget-some f v r h =
      let (o, q) = r.hget fetch_meta_key f in
      q ∙ ap some (server.hget-field s fetch_meta_key f o q ∙ h)

  exists-some :
      (f v : Text)
      → IsMetaReadable server s
      → server.field s fetch_meta_key f ≡ some v
      → server.exists s fetch_meta_key ≡ some true
  exists-some f v r h =
      let (b, q) = r.exists fetch_meta_key in
      q ∙ ap some (server.exists-field s fetch_meta_key f v b q h)

  get_fetch_meta-fields :
      (revision build d : Text) (t : Time)
      → server.exists s fetch_meta_key ≡ some true
      → server.hget s fetch_meta_key (codes "Revision") ≡ some (some revision)
      → server.hget s fetch_meta_key (codes "SchemaVersion") ≡ some (some schema_text)
      → server.hget s fetch_meta_key (codes "LastFetchedAt") ≡ some (some d)
      → parse (codes "RFC3339") d ≡ some t
      → get_fetch_meta server parse format build s
        ≡ ok (record {
          goval_dict_revision = revision;
          schema_version = latest_schema_version;
          last_fetched_at = t;
        })
  unfolding get_fetch_meta read_fetch_meta
  get_fetch_meta-fields revision build d t e a b c p = ground (arith, schema_text-parse)

  model_v1-exists :
      server.exists s fetch_meta_key ≡ some true → is_goval_dict_model_v1 server s ≡ ok false
  unfolding is_goval_dict_model_v1
  model_v1-exists e = ground arith

module _ (server : Server) (parse : Text → Text → Option Time) (format : Text → Time → Text)
    (revision build : Text) (fetch_meta : FetchMeta) (s : server.State) (t : Time) where
  abbrev commands : List Command
  commands =
      hset fetch_meta_key (codes "Revision") revision
      ∷ hset fetch_meta_key (codes "SchemaVersion") schema_text
      ∷ hset fetch_meta_key (codes "LastFetchedAt")
          (format (codes "RFC3339Nano") fetch_meta.last_fetched_at)
      ∷ []

  upsert_done :
      (upsert_fetch_meta server parse format revision fetch_meta s).1 ≡ ok tt
      → (run_all server s commands).1 ≡ true
  unfolding upsert_fetch_meta
  upsert_done h = ground arith

  -- After a successful UpsertFetchMeta, where no read fails and the date that was written can be
  -- parsed, GetFetchMeta of any build returns the revision and the schema version that were written
  -- and that date; the record is not outdated, and the database does not count as one of model v1.
  pub upsert_fetch_meta-get_fetch_meta :
      (upsert_fetch_meta server parse format revision fetch_meta s).1 ≡ ok tt
      → IsMetaReadable server (upsert_fetch_meta server parse format revision fetch_meta s).0
      → parse (codes "RFC3339") (format (codes "RFC3339Nano") fetch_meta.last_fetched_at) ≡ some t
      → (m : FetchMeta) × (get_fetch_meta server parse format build
            (upsert_fetch_meta server parse format revision fetch_meta s).0
          ≡ ok m)
        × (m.goval_dict_revision ≡ revision)
        × (m.last_fetched_at ≡ t)
        × (outdated m ≡ false)
        × (is_goval_dict_model_v1 server
              (upsert_fetch_meta server parse format revision fetch_meta s).0
            ≡ ok false)
  unfolding upsert_fetch_meta outdated text_eq
  upsert_fetch_meta-get_fetch_meta h r p =
      let s' = (run_all server s commands).0 in
      let written = run_all-field server commands s (upsert_done h) fetch_meta_key in
      let there =
        exists-some server parse format s' (codes "Revision") revision r
          (written (codes "Revision")) in
      (
        _,
        get_fetch_meta-fields server parse format s' revision build _ t there
            (hget-some server parse format s' (codes "Revision") _ r (written (codes "Revision")))
            (hget-some server parse format s' (codes "SchemaVersion") _ r
              (written (codes "SchemaVersion")))
            (hget-some server parse format s' (codes "LastFetchedAt") _ r
              (written (codes "LastFetchedAt")))
            p,
        refl,
        refl,
        refl,
        model_v1-exists server parse format s' there,
      )
