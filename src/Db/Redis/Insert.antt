-- ===== src/Db/Redis/Insert.antt =====
-- InsertOval of db/redis.go.
pub mod Spec
pub mod Entries
pub mod Definitions
pub mod Batches
pub mod Removals
pub mod Finish
pub mod Oval
pub mod Total
pub mod Laws
use goval_dictionary_v.Prelude.{
  ℕ, Bool, true, false, ◌&&◌, ◌||◌, Option, none, some, List, [], ◌∷◌, ◌++◌, map, ltb,
  if◌then◌else◌,
}
use goval_dictionary_v.Text.{Text, codes, text_eq}
use goval_dictionary_v.Outcome.{
  Outcome, ok, err, panic, bad_batch_size, failed_query, failed_command, failed_marshal,
  failed_unmarshal, ◌>>=◌,
}
use goval_dictionary_v.Config
use goval_dictionary_v.GoMap.{Map, lookup, keys}
use goval_dictionary_v.Models.{Package, Definition, Root}
use goval_dictionary_v.Db.Version.{format_family_and_os_ver}
use goval_dictionary_v.Db.Chunks.{batches}
use goval_dictionary_v.Db.Redis.Server.{Command, hset, sadd, srem, hdel, set, Server, Codec}
use goval_dictionary_v.Db.Redis.Keys.{
  Kind, cves, packages, kind_key, index_key, def_key, dep_key, last_modified_key,
}
use goval_dictionary_v.Db.Redis.Deps.{Deps, present, open_deps, add_dep, drop_dep, prune_deps}

-- The families whose package sets are kept by architecture.
unfoldable pub uses_arch : Text → Bool
uses_arch family =
    text_eq family Config.amazon || text_eq family Config.oracle || text_eq family Config.fedora

unfoldable pub package_name : Text → Package → Text
package_name family pack =
    if uses_arch family then pack.name ++ (codes "#" ++ pack.arch) else pack.name

-- The commands queued for the pipeline, and the two maps.
pub record Progress : Type 0 where
  pub commands : List Command
  pub new_deps : Deps
  pub old_deps : Deps

module _ (family os_ver : Text) where
  -- The body of the loops over the CVEs and over the packages of a definition.
  unfoldable pub add_entry : Text → Kind → Text → Progress → Progress
  add_entry id kind x p = record {
    commands = p.commands ++ sadd (index_key family os_ver kind x) id ∷ [];
    new_deps = add_dep id kind x p.new_deps;
    old_deps = drop_dep id kind x p.old_deps;
  }

  unfoldable pub add_entries : Text → Kind → List Text → Progress → Progress
  add_entries id kind [] p = p
  add_entries id kind (x ∷ xs) p = add_entries id kind xs (add_entry id kind x p)

  -- What is queued for a definition before its loops.
  unfoldable pub open_definition : Text → Text → Progress → Progress
  open_definition id dj p = record {
    commands = p.commands ++ hset (def_key family os_ver) id dj ∷ [];
    new_deps = open_deps id p.new_deps;
    old_deps = p.old_deps;
  }

  unfoldable pub add_definition : Text → Definition → Progress → Progress
  add_definition dj def p =
      let opened = open_definition def.definition_id dj p in
      let with_cves =
        add_entries def.definition_id cves (map (λ c. c.cve_id) def.advisory.cves) opened in
      let with_packs =
        add_entries def.definition_id packages (map (package_name family) def.affected_packs)
          with_cves in
      record with_packs { old_deps = prune_deps def.definition_id with_packs.old_deps }

  module _ (codec : Codec) where
    unfoldable pub add_definitions : List Definition → Progress → Outcome Progress
    add_definitions [] p = ok p
    add_definitions (def ∷ defs) p = elim (codec.marshal def) [
      | none ↦ err failed_marshal
      | some dj ↦ add_definitions defs (add_definition dj def p)
    ]

  -- `for x := range definitions[kind] { pipe.SRem(...) }`; ranging over a missing map does nothing.
  unfoldable pub entries_of : Kind → Map (Map (Unit {0})) → List Text
  entries_of kind m = elim (lookup (kind_key kind) m) [ none ↦ [] | some s ↦ keys s ]

  unfoldable pub srems : Text → Kind → List Text → List Command
  srems id kind [] = []
  srems id kind (x ∷ xs) = srem (index_key family os_ver kind x) id ∷ srems id kind xs

  -- What is queued for one definition that oldDeps still holds.
  unfoldable pub removal : Deps → Text → Option (Map (Map (Unit {0}))) → List Command
  removal new id none = []
  removal new id (some m) =
      srems id cves (entries_of cves m)
      ++ (srems id packages (entries_of packages m)
          ++ (if present new id then [] else hdel (def_key family os_ver) id ∷ []))

  unfoldable pub removals : Deps → Deps → List Text → List Command
  removals new old [] = []
  removals new old (id ∷ ids) = removal new id (lookup id old) ++ removals new old ids

module _ (server : Server) where
  -- A pipeline runs all of its commands; it succeeds if each of them does.
  unfoldable pub run_all : server.State → List Command → server.State × Bool
  run_all s [] = (s, true)
  run_all s (c ∷ cs) =
      let (s', done) = server.run s c in let (s'', rest) = run_all s' cs in (s'', done && rest)

-- The text of DEP, or an empty object if the key is not there (redis.Nil).
abbrev pub old_deps_text : Option Text → Text
old_deps_text none = codes "{}"
old_deps_text (some t) = t

module _ (server : Server) (codec : Codec) (family os_ver : Text) where
  -- The loop over the chunks, a pipeline for each.
  unfoldable pub insert_batches :
      List (List Definition) → Deps → Deps → server.State → server.State × Outcome (Deps × Deps)
  insert_batches [] new old s = (s, ok (new, old))
  insert_batches (b ∷ bs) new old s =
      elim (add_definitions family os_ver codec b
        (record { commands = []; new_deps = new; old_deps = old })) [
          | ok p ↦
              let done = run_all server s p.commands in
              let rest = insert_batches bs p.new_deps p.old_deps done.0 in
              if done.1 then rest else (done.0, err failed_command)
          | err e ↦ (s, err e)
          | panic ↦ (s, panic)
        ]

  -- The last pipeline: stale entries, DEP and LASTMODIFIED.
  unfoldable pub finish : Root → Deps → Deps → server.State → server.State × Outcome (Unit {0})
  finish root new old s = elim (codec.marshal_deps new) [
    | none ↦ (s, err failed_marshal)
    | some dj ↦
        let done = run_all server s (
          removals family os_ver new old (keys old)
          ++ set (dep_key family os_ver) dj
            ∷ set (last_modified_key family os_ver) (codec.format_timestamp root.timestamp)
            ∷ []) in
        (done.0, (if done.1 then ok tt else err failed_command))
  ]

  -- What follows the reading of oldDeps.
  unfoldable pub refresh : ℕ → Root → Deps → server.State → server.State × Outcome (Unit {0})
  refresh size root old s =
      let looped = insert_batches (batches root.definitions size) [] old s in
      elim looped.1 [
        | ok deps ↦ finish root deps.0 deps.1 looped.0
        | err e ↦ (looped.0, err e)
        | panic ↦ (looped.0, panic)
      ]

  -- What follows the checks of the batch size and of the family.
  unfoldable pub insert_formatted : ℕ → Root → server.State → server.State × Outcome (Unit {0})
  insert_formatted size root s = elim (server.get s (dep_key family os_ver)) [
    | none ↦ (s, err failed_query)
    | some reply ↦ elim (codec.unmarshal_deps (old_deps_text reply)) [
      | none ↦ (s, err failed_unmarshal)
      | some old ↦ refresh size root old s
    ]
  ]

module _ (server : Server) (codec : Codec) where
  unfoldable pub insert_oval : ℕ → Root → server.State → server.State × Outcome (Unit {0})
  insert_oval batch_size root s =
      if ltb batch_size 1
      then (s, err bad_batch_size)
      else elim (format_family_and_os_ver root.family root.os_version) [
        | ok p ↦ insert_formatted server codec p.0 p.1 batch_size root s
        | err e ↦ (s, err e)
        | panic ↦ (s, panic)
      ]
