-- ===== src/Db/Redis/Server.antt =====
-- What the driver relies on: the Redis server and its client library, and the encodings of
-- packages json and time. Each is a parameter, with its documented behaviour as laws.
use goval_dictionary_v.Prelude.{
  ℕ, ◌≡◌, Bool, true, false, ◌&&◌, Option, none, some, List, [], map, if◌then◌else◌,
}
use goval_dictionary_v.Text.{Text, codes, text_eq}
use goval_dictionary_v.GoMap.{elem}
use goval_dictionary_v.Db.Redis.Deps.{Deps, SameDeps}
use goval_dictionary_v.Models.{
  Time, Cve, Bugzilla, Cpe, Advisory, Debian, Package, Reference, Definition,
}
use mathlib.Core.Option

-- The commands that the driver writes with.
pub data Command : Type 0 where
  hset : Text → Text → Text → Command
  sadd : Text → Text → Command
  srem : Text → Text → Command
  hdel : Text → Text → Command
  set : Text → Text → Command

-- What a command that succeeded does to the member `m` of the set at `k`; SET replaces a value of
-- any type.
abbrev pub member_after : Command → Text → Text → Bool → Bool
member_after (hset key field value) k m b = b
member_after (sadd key member) k m b = if text_eq key k && text_eq member m then true else b
member_after (srem key member) k m b = if text_eq key k && text_eq member m then false else b
member_after (hdel key field) k m b = b
member_after (set key value) k m b = if text_eq key k then false else b

-- The same for the field `f` of the hash at `k`, and for the string at `k`.
abbrev pub field_after : Command → Text → Text → Option Text → Option Text
field_after (hset key field value) k f o =
    if text_eq key k && text_eq field f then some value else o
field_after (sadd key member) k f o = o
field_after (srem key member) k f o = o
field_after (hdel key field) k f o = if text_eq key k && text_eq field f then none else o
field_after (set key value) k f o = if text_eq key k then none else o

abbrev pub string_after : Command → Text → Option Text → Option Text
string_after (hset key field value) k o = o
string_after (sadd key member) k o = o
string_after (srem key member) k o = o
string_after (hdel key field) k o = o
string_after (set key value) k o = if text_eq key k then some value else o

-- A write reports whether it succeeded; nothing is assumed of one that failed. A read fails
-- with `none`.
pub record Server : Type 1 where
  pub State : Type 0
  pub run : State → Command → State × Bool
  pub member : State → Text → Text → Bool
  pub field : State → Text → Text → Option Text
  pub string : State → Text → Option Text
  pub smembers : State → Text → Option (List Text)
  pub hmget : State → Text → List Text → Option (List (Option Text))
  pub get : State → Text → Option (Option Text)
  pub dbsize : State → Option ℕ
  pub hlen : State → Text → Option ℕ
  pub exists : State → Text → Option Bool
  pub hget : State → Text → Text → Option (Option Text)
  -- the keys and the next cursor, by the cursor, the pattern and the count
  pub scan : State → ℕ → Text → ℕ → Option (List Text × ℕ)
  pub run-member :
      (s : State) (c : Command)
      → (run s c).1 ≡ true
      → (k m : Text) → member (run s c).0 k m ≡ member_after c k m (member s k m)
  pub run-field :
      (s : State) (c : Command)
      → (run s c).1 ≡ true
      → (k f : Text) → field (run s c).0 k f ≡ field_after c k f (field s k f)
  pub run-string :
      (s : State) (c : Command)
      → (run s c).1 ≡ true
      → (k : Text) → string (run s c).0 k ≡ string_after c k (string s k)
  pub smembers-member :
      (s : State) (k : Text) (ms : List Text)
      → smembers s k ≡ some ms
      → (m : Text) → elem m ms ≡ member s k m
  pub hmget-field :
      (s : State) (k : Text) (fs : List Text) (vs : List (Option Text))
      → hmget s k fs ≡ some vs
      → vs ≡ map (field s k) fs
  pub hget-field :
      (s : State) (k f : Text) (o : Option Text) → hget s k f ≡ some o → o ≡ field s k f
  -- a hash with a field is there
  pub exists-field :
      (s : State) (k f v : Text) (b : Bool) → exists s k ≡ some b → field s k f ≡ some v → b ≡ true
  pub get-string : (s : State) (k : Text) (o : Option Text) → get s k ≡ some o → o ≡ string s k

-- The fields with the tag `json:"-"` are left out.
abbrev pub strip_cve : Cve → Cve
strip_cve c = record c { id = 0; advisory_id = 0 }

abbrev pub strip_bugzilla : Bugzilla → Bugzilla
strip_bugzilla b = record b { id = 0; advisory_id = 0 }

abbrev pub strip_cpe : Cpe → Cpe
strip_cpe c = record c { id = 0; advisory_id = 0 }

abbrev pub strip_advisory : Advisory → Advisory
strip_advisory a = record a {
  id = 0;
  definition_id = 0;
  cves = map strip_cve a.cves;
  bugzillas = map strip_bugzilla a.bugzillas;
  affected_cpe_list = map strip_cpe a.affected_cpe_list;
}

abbrev pub strip_debian : Debian → Debian
strip_debian d = record d { id = 0; definition_id = 0 }

abbrev pub strip_package : Package → Package
strip_package p = record p { id = 0; definition_id = 0 }

abbrev pub strip_reference : Reference → Reference
strip_reference r = record r { id = 0; definition_id = 0 }

abbrev pub strip : Definition → Definition
strip d = record d {
  id = 0;
  root_id = 0;
  advisory = strip_advisory d.advisory;
  debian = Option.map strip_debian d.debian;
  affected_packs = map strip_package d.affected_packs;
  references = map strip_reference d.references;
}

-- json.Marshal and json.Unmarshal at the types that the driver stores. A definition comes back
-- but for the fields left out if it is encodable: its texts are UTF-8 and its times in range.
pub record Codec : Type 1 where
  pub IsEncodable : Definition → Type 0
  pub marshal : Definition → Option Text
  pub unmarshal : Text → Option Definition
  pub marshal_deps : Deps → Option Text
  pub unmarshal_deps : Text → Option Deps
  pub format_timestamp : Time → Text
  pub unmarshal-marshal :
      (d : Definition) (t : Text)
      → IsEncodable d
      → marshal d ≡ some t
      → unmarshal t ≡ some (strip d)
  pub unmarshal-marshal_deps :
      (d : Deps) (t : Text)
      → marshal_deps d ≡ some t
      → (e : Deps) × (unmarshal_deps t ≡ some e) × SameDeps e d
  pub unmarshal-empty : unmarshal_deps (codes "{}") ≡ some []
