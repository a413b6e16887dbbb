-- ===== src/Tests/Meta.antt =====
-- The theorems on the fetch record and on LASTMODIFIED, applied to the server in memory.
use goval_dictionary_v.Prelude.{◌≡◌, refl, false, Option, none, some, List, [], if◌then◌else◌}
use goval_dictionary_v.Text.{Text, codes, text_eq}
use goval_dictionary_v.Outcome.{ok}
use goval_dictionary_v.Models.{Time, FetchMeta, default_time, outdated}
use goval_dictionary_v.Db.Redis.Server.{Command}
use goval_dictionary_v.Db.Redis.Meta.{is_goval_dict_model_v1, get_fetch_meta, upsert_fetch_meta}
use goval_dictionary_v.Db.Redis.Meta.Laws.{IsMetaReadable, upsert_fetch_meta-get_fetch_meta}
use goval_dictionary_v.Tests.Memory.{memory}

-- One date is written "now", and nothing else is read.
abbrev parse_now : Text → Text → Option Time
parse_now layout value = if text_eq value (codes "now") then some default_time else none

abbrev format_now : Text → Time → Text
format_now layout t = codes "now"

now-parse : (layout : Text) → parse_now layout (codes "now") ≡ some default_time
unfolding text_eq
now-parse layout = refl

abbrev last_fetch : FetchMeta
last_fetch = record {
  goval_dict_revision = codes "old";
  schema_version = 1;
  last_fetched_at = default_time;
}

memory-IsMetaReadable : (s : List Command) → IsMetaReadable memory s
memory-IsMetaReadable s = record { exists = λ k. (_, refl); hget = λ k f. (_, refl) }

upserted : (upsert_fetch_meta memory parse_now format_now (codes "new") last_fetch []).1 ≡ ok tt
unfolding upsert_fetch_meta goval_dictionary_v.Db.Redis.Insert.run_all
upserted = refl

upsert_fetch_meta-get_fetch_meta_example :
    (m : FetchMeta) × (get_fetch_meta memory parse_now format_now
        (codes "later")
        (upsert_fetch_meta memory parse_now format_now (codes "new") last_fetch []).0
      ≡ ok m)
    × (m.goval_dict_revision ≡ codes "new")
    × (m.last_fetched_at ≡ default_time)
    × (outdated m ≡ false)
    × (is_goval_dict_model_v1 memory
          (upsert_fetch_meta memory parse_now format_now (codes "new") last_fetch []).0
        ≡ ok false)
upsert_fetch_meta-get_fetch_meta_example =
    upsert_fetch_meta-get_fetch_meta memory parse_now format_now (codes "new") (codes "later")
      last_fetch [] default_time upserted (memory-IsMetaReadable _) (now-parse (codes "RFC3339"))
