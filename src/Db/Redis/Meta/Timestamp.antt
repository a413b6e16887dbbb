-- ===== src/Db/Redis/Meta/Timestamp.antt =====
-- LASTMODIFIED after an insertion.
use goval_dictionary_v.Prelude.{◌≡◌, some}
use goval_dictionary_v.Text.{Text}
use goval_dictionary_v.Text.Numbers.{pos}
use goval_dictionary_v.Outcome.{Outcome}
use goval_dictionary_v.Models.{Root, Time}
use goval_dictionary_v.Db.Redis.Server.{Server, Codec}
use goval_dictionary_v.Db.Redis.Keys.{last_modified_key}
use goval_dictionary_v.Db.Redis.Deps.{Deps}

-- What the layout with a literal Z keeps of a time, read back as UTC.
abbrev pub as_written : Time → Time
as_written t = record t { nanosecond = 0; offset = pos 0 }

module _ (server : Server) (codec : Codec) (family os_ver : Text) where
  -- the string that the last pipeline leaves, as a property of a run
  abbrev Stamped : Root → server.State × Outcome (Unit {0}) → Type 0
  Stamped root run =
      server.string run.0 (last_modified_key family os_ver)
      ≡ some (codec.format_timestamp root.timestamp)
