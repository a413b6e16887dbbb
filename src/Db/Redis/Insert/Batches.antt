-- ===== src/Db/Redis/Insert/Batches.antt =====
-- What the pipelines of all chunks do to the server and to the two maps.
use mathlib.Core.List.{flatten}
use goval_dictionary_v.Prelude.{
  ◌≡◌, refl, sym, subst, ap, ◌∙◌, true, false, not, ◌&&◌, ◌||◌, Option, List, [], ◌∷◌, ◌++◌, arith,
}
use goval_dictionary_v.Text.{Text}
use goval_dictionary_v.Outcome.{ok}
use goval_dictionary_v.Models.{Definition}
use goval_dictionary_v.Db.Redis.Server.{Command, Server, Codec}
use goval_dictionary_v.Db.Redis.Keys.{Kind, index_key, def_key}
use goval_dictionary_v.Db.Redis.Deps.{Deps, has, present}
use goval_dictionary_v.Db.Redis.Deps.Complete.{IsComplete}
use goval_dictionary_v.Db.Redis.Insert.{Progress, add_definitions, run_all, insert_batches}
use goval_dictionary_v.Db.Redis.Insert.Spec.{
  covers, has_id, stored, member_after_all, field_after_all, string_after_all,
}
use goval_dictionary_v.Db.Redis.Insert.Definitions.{add_definitions-Adds, add_definitions-Holds}

module _ (server : Server) where
  pub run_all-member :
      (cs : List Command) (s : server.State)
      → (run_all server s cs).1 ≡ true
      → (k m : Text)
      → server.member (run_all server s cs).0 k m ≡ member_after_all cs k m (server.member s k m)
  unfolding run_all
  run_all-member [] s h k m = refl
  run_all-member (c ∷ cs) s h k m =
      let first : (server.run s c).1 ≡ true = ground arith in
      let rest : (run_all server (server.run s c).0 cs).1 ≡ true = ground arith in
      run_all-member cs (server.run s c).0 rest k m
      ∙ ap (member_after_all cs k m) (server.run-member s c first k m)

  pub run_all-field :
      (cs : List Command) (s : server.State)
      → (run_all server s cs).1 ≡ true
      → (k f : Text)
      → server.field (run_all server s cs).0 k f ≡ field_after_all cs k f (server.field s k f)
  unfolding run_all
  run_all-field [] s h k f = refl
  run_all-field (c ∷ cs) s h k f =
      let first : (server.run s c).1 ≡ true = ground arith in
      let rest : (run_all server (server.run s c).0 cs).1 ≡ true = ground arith in
      run_all-field cs (server.run s c).0 rest k f
      ∙ ap (field_after_all cs k f) (server.run-field s c first k f)

  pub run_all-string :
      (cs : List Command) (s : server.State)
      → (run_all server s cs).1 ≡ true
      → (k : Text)
      → server.string (run_all server s cs).0 k ≡ string_after_all cs k (server.string s k)
  unfolding run_all
  run_all-string [] s h k = refl
  run_all-string (c ∷ cs) s h k =
      let first : (server.run s c).1 ≡ true = ground arith in
      let rest : (run_all server (server.run s c).0 cs).1 ≡ true = ground arith in
      run_all-string cs (server.run s c).0 rest k
      ∙ ap (string_after_all cs k) (server.run-string s c first k)

covers-append :
    (family : Text) (xs ys : List Definition) (j : Text) (k : Kind) (y : Text)
    → covers family (xs ++ ys) j k y ≡ (covers family xs j k y || covers family ys j k y)
covers-append family [] ys j k y = refl
covers-append family (x ∷ xs) ys j k y = ground (arith, covers-append family xs ys j k y)

has_id-append :
    (xs ys : List Definition) (j : Text) → has_id (xs ++ ys) j ≡ (has_id xs j || has_id ys j)
has_id-append [] ys j = refl
has_id-append (x ∷ xs) ys j = ground (arith, has_id-append xs ys j)

stored-append :
    (codec : Codec) (xs ys : List Definition) (j : Text) (o : Option Text)
    → stored codec (xs ++ ys) j o ≡ stored codec ys j (stored codec xs j o)
stored-append codec [] ys j o = refl
stored-append codec (x ∷ xs) ys j o = stored-append codec xs ys j _

module _ (server : Server) (codec : Codec) (family os_ver : Text) where
  -- The definitions `ds` were inserted between the two states.
  pub record Inserted (ds : List Definition) (new old : Deps) (s : server.State) (new' old' : Deps)
      (s' : server.State) : Type 0 where
    pub complete : IsComplete new'
    pub new_entries :
        (j : Text) (k : Kind) (y : Text)
        → has new' j k y ≡ (covers family ds j k y || has new j k y)
    pub old_entries :
        (j : Text) (k : Kind) (y : Text)
        → has old' j k y ≡ (has old j k y && not (covers family ds j k y))
    pub index :
        (j : Text) (k : Kind) (y : Text)
        → server.member s' (index_key family os_ver k y) j
          ≡ (covers family ds j k y || server.member s (index_key family os_ver k y) j)
    pub new_present : (j : Text) → present new' j ≡ (has_id ds j || present new j)
    pub old_present : (j : Text) → has_id ds j ≡ false → present old' j ≡ present old j
    pub fields :
        (j : Text)
        → server.field s' (def_key family os_ver) j
          ≡ stored codec ds j (server.field s (def_key family os_ver) j)

  start : Deps → Deps → Progress
  start new old = record { commands = []; new_deps = new; old_deps = old }

  Inserted-trans :
      (xs ys : List Definition) (n₀ o₀ n₁ o₁ n₂ o₂ : Deps) (s₀ s₁ s₂ : server.State)
      → Inserted xs n₀ o₀ s₀ n₁ o₁ s₁
      → Inserted ys n₁ o₁ s₁ n₂ o₂ s₂
      → Inserted (xs ++ ys) n₀ o₀ s₀ n₂ o₂ s₂
  Inserted-trans xs ys n₀ o₀ n₁ o₁ n₂ o₂ s₀ s₁ s₂ a b = record {
    complete = b.complete;
    new_entries = λ j k y.
        ground (arith, a.new_entries j k y, b.new_entries j k y, covers-append family xs ys j k y);
    old_entries = λ j k y.
        ground (arith, a.old_entries j k y, b.old_entries j k y, covers-append family xs ys j k y);
    index = λ j k y. ground (arith, a.index j k y, b.index j k y, covers-append family xs ys j k y);
    new_present = λ j. ground (arith, a.new_present j, b.new_present j, has_id-append xs ys j);
    old_present = λ j n. ground (arith, a.old_present j, b.old_present j, has_id-append xs ys j, n);
    fields = λ j.
        rw (b.fields j, a.fields j)
          (sym (stored-append codec xs ys j (server.field s₀ (def_key family os_ver) j)));
  }

  one_batch :
      (b : List Definition) (new old : Deps) (s : server.State) (p : Progress)
      → IsComplete new
      → add_definitions family os_ver codec b (start new old) ≡ ok p
      → (run_all server s p.commands).1 ≡ true
      → Inserted b new old s p.new_deps p.old_deps (run_all server s p.commands).0
  unfolding start
  one_batch b new old s p c e done =
      let a = add_definitions-Adds family os_ver codec b (start new old) p e c in
      let h = add_definitions-Holds family os_ver codec b (start new old) p e c in
      record {
        complete = a.complete;
        new_entries = a.new;
        old_entries = a.old;
        index = λ j k y.
            run_all-member server p.commands s done (index_key family os_ver k y) j
            ∙ a.index j k y (server.member s (index_key family os_ver k y) j);
        new_present = h.new;
        old_present = h.old;
        fields = λ j.
            run_all-field server p.commands s done (def_key family os_ver) j
            ∙ h.fields j (server.field s (def_key family os_ver) j);
      }

  batch_steps :
      (b : List Definition) (bs : List (List Definition)) (new old : Deps) (s : server.State)
      (p : Progress)
      → add_definitions family os_ver codec b (start new old) ≡ ok p
      → (run_all server s p.commands).1 ≡ true
      → insert_batches server codec family os_ver (b ∷ bs) new old s
        ≡ insert_batches server codec family os_ver bs p.new_deps p.old_deps
            (run_all server s p.commands).0
  unfolding insert_batches start
  batch_steps b bs new old s p e done = ground arith

  batch_succeeds :
      (b : List Definition) (bs : List (List Definition)) (new old : Deps) (s : server.State)
      (deps : Deps × Deps)
      → (insert_batches server codec family os_ver (b ∷ bs) new old s).1 ≡ ok deps
      → (p : Progress) × (add_definitions family os_ver codec b (start new old) ≡ ok p)
        × ((run_all server s p.commands).1 ≡ true)
  unfolding insert_batches start
  batch_succeeds b bs new old s deps h = ground arith

  pub insert_batches-Inserted :
      (bs : List (List Definition)) (new old : Deps) (s : server.State) (deps : Deps × Deps)
      → IsComplete new
      → (insert_batches server codec family os_ver bs new old s).1 ≡ ok deps
      → Inserted
          (flatten bs)
          new
          old
          s
          deps.0
          deps.1
          (insert_batches server codec family os_ver bs new old s).0
  unfolding flatten
  insert_batches-Inserted [] new old s deps c h =
      let e : ◌≡◌ {A = Deps × Deps} (new, old) deps = unfold insert_batches in cc in
      subst
        (λ d.
          Inserted [] new old s d.0 d.1 (insert_batches server codec family os_ver [] new old s).0)
        e
        (unfold insert_batches in
          record {
            complete = c;
            new_entries = λ j k y. refl;
            old_entries = λ j k y. ground arith;
            index = λ j k y. refl;
            new_present = λ j. refl;
            old_present = λ j _. refl;
            fields = λ j. refl;
          })
  insert_batches-Inserted (b ∷ bs) new old s deps c h =
      let (p, e, done) = batch_succeeds b bs new old s deps h in
      let first = one_batch b new old s p c e done in
      let steps = batch_steps b bs new old s p e done in
      let s₁ = (run_all server s p.commands).0 in
      rw steps (
        Inserted-trans b (flatten bs) new old p.new_deps p.old_deps deps.0 deps.1 s s₁
          (insert_batches server codec family os_ver bs p.new_deps p.old_deps s₁).0 first
          (insert_batches-Inserted bs p.new_deps p.old_deps s₁ deps first.complete (rw steps at h)))
