-- ===== src/Db/Redis/Insert/Laws.antt =====
-- What InsertOval leaves on the server.

use goval_dictionary_v.Prelude.{
  ℕ, ◌<◌, ◌≡◌, refl, ◌∙◌, true, false, not, ◌&&◌, Option, none, some, List, [], arith, inl, inr,
  Bool-cases, Option-cases, if◌then◌else◌,
}
use goval_dictionary_v.Text.{Text}
use goval_dictionary_v.GoMap.{lookup}
use goval_dictionary_v.Outcome.{ok}
use goval_dictionary_v.Models.{Definition, Root}
use goval_dictionary_v.Db.Chunks.{batches}
use goval_dictionary_v.Db.Chunks.Laws.{flatten-batches}
use goval_dictionary_v.Db.Redis.Server.{Server, Codec}
use goval_dictionary_v.Db.Redis.Keys.{Kind, index_key, def_key, dep_key}
use goval_dictionary_v.Db.Redis.Deps.{Deps, has, present}
use goval_dictionary_v.Db.Redis.Deps.Complete.{IsComplete-nil}
use goval_dictionary_v.Db.Redis.Insert.{
  run_all, finish, refresh, insert_batches, insert_formatted, old_deps_text,
}
use goval_dictionary_v.Db.Redis.Insert.Spec.{covers, has_id, stored}
use goval_dictionary_v.Db.Redis.Insert.Finish.{
  stored_absent, stored_present, final_commands, finish_succeeds, final-member, final-field,
  final-string,
}
use goval_dictionary_v.Db.Redis.Insert.Batches.{
  Inserted, insert_batches-Inserted, run_all-member, run_all-field, run_all-string,
}

module _ (server : Server) (codec : Codec) (family os_ver : Text) where
  -- DEP covers the index: every member of a set and every field of the hash is recorded there.
  pub record IsIndexed (s : server.State) : Type 0 where
    pub deps : Deps
    pub decoded :
        codec.unmarshal_deps (old_deps_text (server.string s (dep_key family os_ver))) ≡ some deps
    pub entries :
        (j : Text) (k : Kind) (y : Text)
        → server.member s (index_key family os_ver k y) j ≡ true
        → has deps j k y ≡ true
    pub defined :
        (j t : Text) → server.field s (def_key family os_ver) j ≡ some t → present deps j ≡ true

  -- The sets and the hash hold exactly what the definitions say.
  pub record Mirrors (ds : List Definition) (s : server.State) : Type 0 where
    pub index :
        (j : Text) (k : Kind) (y : Text)
        → server.member s (index_key family os_ver k y) j ≡ covers family ds j k y
    pub fields : (j : Text) → server.field s (def_key family os_ver) j ≡ stored codec ds j none

  module _ (root : Root) (s : server.State) (old new' old' : Deps) (s₁ : server.State) where
    nothing : (j : Text) → present [] j ≡ false
    nothing j = unfold lookup in refl

    -- After the loops and the last pipeline the index is what the definitions say.
    finish-Mirrors :
        (s₂ : server.State)
        → ((j : Text) (k : Kind) (y : Text)
            → server.member s (index_key family os_ver k y) j ≡ true
            → has old j k y ≡ true)
        → ((j t : Text) → server.field s (def_key family os_ver) j ≡ some t → present old j ≡ true)
        → Inserted server codec family os_ver root.definitions [] old s new' old' s₁
        → ((j : Text) (k : Kind) (y : Text)
            → server.member s₂ (index_key family os_ver k y) j
              ≡ (server.member s₁ (index_key family os_ver k y) j && not (has old' j k y)))
        → ((j : Text)
            → server.field s₂ (def_key family os_ver) j ≡ (
                if present old' j && not (present new' j)
                then none
                else server.field s₁ (def_key family os_ver) j))
        → Mirrors root.definitions s₂
    finish-Mirrors s₂ entries defined ins member field = record {
      index = λ j k y.
          member j k y ∙ ground (arith, ins.index j k y, ins.old_entries j k y, entries j k y);
      fields = λ j. elim (Bool-cases (has_id root.definitions j)) [
        | inl e ↦ ground (
          arith,
          field j,
          ins.new_present j,
          ins.fields j,
          e,
          stored_present codec root.definitions j (server.field s (def_key family os_ver) j) none e,
        )
        | inr e ↦ elim (Option-cases (server.field s (def_key family os_ver) j)) [
          | inl n ↦
              ground
                (arith, field j, ins.fields j, e, n, stored_absent codec root.definitions j none e)
          | inr (t, n) ↦ ground (
            arith,
            field j,
            ins.new_present j,
            ins.old_present j e,
            e,
            nothing j,
            defined j t n,
            stored_absent codec root.definitions j none e,
          )
        ]
      ];
    }

    -- newDeps, which is written to DEP, covers the index.
    finish-IsIndexed :
        (dj : Text) (s₂ : server.State)
        → codec.marshal_deps new' ≡ some dj
        → Inserted server codec family os_ver root.definitions [] old s new' old' s₁
        → server.string s₂ (dep_key family os_ver) ≡ some dj
        → Mirrors root.definitions s₂
        → IsIndexed s₂
    finish-IsIndexed dj s₂ m ins str mirror =
        let (deps, decoded, same) = codec.unmarshal-marshal_deps new' dj m in
        record {
          deps = deps;
          decoded = rw str decoded;
          entries = λ j k y h.
              same.1 j k y ∙ ground (arith, ins.new_entries j k y, mirror.index j k y, h);
          defined = λ j t h. same.0 j ∙ (elim (Bool-cases (has_id root.definitions j)) [
            | inl e ↦ ground (arith, ins.new_present j, e)
            | inr e ↦ cc (mirror.fields j, h, stored_absent codec root.definitions j none e)
          ]);
        }

  pub refresh_succeeds :
      (size : ℕ) (root : Root) (old : Deps) (s : server.State)
      → (refresh server codec family os_ver size root old s).1 ≡ ok tt
      → (deps : Deps × Deps) × ((insert_batches server codec family os_ver
            (batches root.definitions size)
            []
            old
            s).1
          ≡ ok deps)
        × (refresh server codec family os_ver size root old s
            ≡ finish server codec family os_ver root deps.0 deps.1
                (insert_batches server codec family os_ver
                  (batches root.definitions size)
                  []
                  old
                  s).0)
  unfolding refresh
  refresh_succeeds size root old s h = ground arith

  pub read_succeeds :
      (size : ℕ) (root : Root) (s : server.State)
      → (insert_formatted server codec family os_ver size root s).1 ≡ ok tt
      → (reply : Option Text) × (server.get s (dep_key family os_ver) ≡ some reply)
        × (old : Deps) × (codec.unmarshal_deps (old_deps_text reply) ≡ some old)
        × (insert_formatted server codec family os_ver size root s
            ≡ refresh server codec family os_ver size root old s)
  unfolding insert_formatted
  read_succeeds size root s h = ground arith

  module _ (root : Root) (s : server.State) (i : IsIndexed s) (old : Deps) (reply : Option Text)
      (got : server.get s (dep_key family os_ver) ≡ some reply)
      (read : codec.unmarshal_deps (old_deps_text reply) ≡ some old) where
    same_old : i.deps ≡ old
    same_old =
        let e = server.get-string s (dep_key family os_ver) reply got in cc (i.decoded, read, e)

    pub finish_correct :
        (new' old' : Deps) (s₁ : server.State)
        → Inserted server codec family os_ver root.definitions [] old s new' old' s₁
        → (finish server codec family os_ver root new' old' s₁).1 ≡ ok tt
        → Mirrors root.definitions (finish server codec family os_ver root new' old' s₁).0
          × IsIndexed (finish server codec family os_ver root new' old' s₁).0
    finish_correct new' old' s₁ ins h =
        let (dj, m, done, e) = finish_succeeds server codec family os_ver root new' old' s₁ h in
        let cs = final_commands server codec family os_ver root new' old' dj in
        let s₂ = (run_all server s₁ cs).0 in
        let mirror =
          finish-Mirrors root s old new' old' s₁ s₂ (λ j k y t. rw same_old at (i.entries j k y t))
            (λ j t q. rw same_old at (i.defined j t q)) ins
            (λ j k y.
              run_all-member server cs s₁ done (index_key family os_ver k y) j
              ∙ final-member server codec family os_ver root new' old' dj j k y
                  (server.member s₁ (index_key family os_ver k y) j))
            (λ j.
              run_all-field server cs s₁ done (def_key family os_ver) j
              ∙ final-field server codec family os_ver root new' old' dj j
                  (server.field s₁ (def_key family os_ver) j)) in
        rw e (
          mirror,
          finish-IsIndexed root s old new' old' s₁ dj s₂ m ins
              (run_all-string server cs s₁ done (dep_key family os_ver)
                ∙ final-string server codec family os_ver root new' old' dj
                    (server.string s₁ (dep_key family os_ver)))
              mirror,
        )

  pub insert_formatted_correct :
      (size : ℕ) (root : Root) (s : server.State)
      → 0 < size
      → IsIndexed s
      → (insert_formatted server codec family os_ver size root s).1 ≡ ok tt
      → Mirrors root.definitions (insert_formatted server codec family os_ver size root s).0
        × IsIndexed (insert_formatted server codec family os_ver size root s).0
  insert_formatted_correct size root s pos i h =
      let (reply, got, old, read, e) = read_succeeds size root s h in
      let h₁ : (refresh server codec family os_ver size root old s).1 ≡ ok tt = rw e at h in
      let (deps, b, e₁) = refresh_succeeds size root old s h₁ in
      let ins =
        insert_batches-Inserted server codec family os_ver (batches root.definitions size) [] old s
          deps IsComplete-nil b in
      let ins' = rw (flatten-batches root.definitions size pos) at ins in
      rw (e, e₁)
        (finish_correct root s i old reply got read deps.0 deps.1
          (insert_batches server codec family os_ver (batches root.definitions size) [] old s).0
          ins' (rw e₁ at h₁))
