-- ===== src/Db/Redis/Insert/Total.antt =====
-- InsertOval succeeds where the server, the encodings and the stored DEP do.
use goval_dictionary_v.Prelude.{ℕ, ◌<◌, ◌≡◌, refl, true, Option, some, List, [], ◌∷◌, ◌++◌, arith}
use goval_dictionary_v.Text.{Text}
use goval_dictionary_v.GoMap.{keys}
use goval_dictionary_v.Outcome.{ok}
use goval_dictionary_v.Models.{Definition, Root}
use goval_dictionary_v.Db.Version.{format_family_and_os_ver}
use goval_dictionary_v.Db.Chunks.{batches}
use goval_dictionary_v.Db.Redis.Server.{Command, set, Server, Codec}
use goval_dictionary_v.Db.Redis.Keys.{dep_key, last_modified_key}
use goval_dictionary_v.Db.Redis.Deps.{Deps}
use goval_dictionary_v.Db.Redis.Insert.{
  Progress, add_definition, add_definitions, run_all, insert_batches, finish, refresh,
  old_deps_text, insert_formatted, insert_oval, removals,
}
use goval_dictionary_v.Db.Redis.Insert.Laws.{IsIndexed}
use goval_dictionary_v.Db.Redis.Insert.Oval.{insert_oval_formatted}

-- No command and no encoding fails.
pub record IsReliable (server : Server) (codec : Codec) : Type 0 where
  pub run : (s : server.State) (c : Command) → (server.run s c).1 ≡ true
  pub get : (s : server.State) (k : Text) → (o : Option Text) × (server.get s k ≡ some o)
  pub marshal : (d : Definition) → (t : Text) × (codec.marshal d ≡ some t)
  pub marshal_deps : (d : Deps) → (t : Text) × (codec.marshal_deps d ≡ some t)

module _ (server : Server) (codec : Codec) (r : IsReliable server codec) where
  run_all-true : (cs : List Command) (s : server.State) → (run_all server s cs).1 ≡ true
  unfolding run_all
  run_all-true [] s = refl
  run_all-true (c ∷ cs) s = ground (arith, r.run s c, run_all-true cs (server.run s c).0)

  module _ (family os_ver : Text) where
    add_definitions-ok :
        (ds : List Definition) (p : Progress)
        → (q : Progress) × (add_definitions family os_ver codec ds p ≡ ok q)
    unfolding add_definitions
    add_definitions-ok [] p = (p, refl)
    add_definitions-ok (d ∷ ds) p =
        let (t, e) = r.marshal d in
        let (q, h) = add_definitions-ok ds (add_definition family os_ver t d p) in (q, ground arith)

    insert_batches-ok :
        (bs : List (List Definition)) (new old : Deps) (s : server.State)
        → (deps : Deps × Deps) × ((insert_batches server codec family os_ver bs new old s).1
            ≡ ok deps)
    unfolding insert_batches
    insert_batches-ok [] new old s = ((new, old), refl)
    insert_batches-ok (b ∷ bs) new old s =
        let (p, e) =
          add_definitions-ok b (record { commands = []; new_deps = new; old_deps = old }) in
        let done = run_all-true p.commands s in
        let (deps, h) =
          insert_batches-ok bs p.new_deps p.old_deps (run_all server s p.commands).0 in
        (deps, ground arith)

    finish-ok :
        (root : Root) (new old : Deps) (s : server.State)
        → (finish server codec family os_ver root new old s).1 ≡ ok tt
    unfolding finish
    finish-ok root new old s =
        let (dj, e) = r.marshal_deps new in
        let last =
          removals family os_ver new old (keys old)
          ++ set (dep_key family os_ver) dj
            ∷ set (last_modified_key family os_ver) (codec.format_timestamp root.timestamp)
            ∷ [] in
        ground (arith, run_all-true last s)

    refresh-ok :
        (size : ℕ) (root : Root) (old : Deps) (s : server.State)
        → (refresh server codec family os_ver size root old s).1 ≡ ok tt
    unfolding refresh
    refresh-ok size root old s =
        let (deps, e) = insert_batches-ok (batches root.definitions size) [] old s in
        let s₁ =
          (insert_batches server codec family os_ver (batches root.definitions size) [] old s).0 in
        ground (arith, finish-ok root deps.0 deps.1 s₁)

  -- Where no command and no encoding fails, InsertOval of a family and release that can be
  -- normalised succeeds on every indexed database, for every batch size of 1 or more.
  pub insert_oval-ok :
      (size : ℕ) (root : Root) (s : server.State) (f v : Text)
      → 0 < size
      → format_family_and_os_ver root.family root.os_version ≡ ok (f, v)
      → IsIndexed server codec f v s
      → (insert_oval server codec size root s).1 ≡ ok tt
  insert_oval-ok size root s f v pos e i =
      let (reply, got) = r.get s (dep_key f v) in
      let str = server.get-string s (dep_key f v) reply got in
      let read : codec.unmarshal_deps (old_deps_text reply) ≡ some i.deps = rw str i.decoded in
      rw (insert_oval_formatted server codec size root s f v pos e)
        (unfold insert_formatted in ground (arith, refresh-ok f v size root i.deps s))
