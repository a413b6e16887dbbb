-- ===== src/Db/Redis/Insert/Finish.antt =====
-- The last pipeline of InsertOval.

use goval_dictionary_v.Prelude.{
  ◌≡◌, refl, ◌∙◌, Bool, true, false, not, ◌&&◌, Option, none, some, List, [], ◌∷◌, ◌++◌, arith, inl,
  inr, Bool-cases, if◌then◌else◌,
}
use goval_dictionary_v.Text.{Text, text_eq}
use goval_dictionary_v.Text.Equality.{text_eq_refl}
use goval_dictionary_v.GoMap.{keys}
use goval_dictionary_v.Outcome.{ok}
use goval_dictionary_v.Models.{Definition, Root}
use goval_dictionary_v.Db.Redis.Server.{Command, set, Server, Codec}
use goval_dictionary_v.Db.Redis.Keys.{
  Kind, index_key, def_key, dep_key, last_modified_key, dep-ne-index, last-ne-index, dep-ne-def,
  last-ne-def, last-ne-dep,
}
use goval_dictionary_v.Db.Redis.Deps.{Deps, has, present}
use goval_dictionary_v.Db.Redis.Insert.{run_all, removals, finish}
use goval_dictionary_v.Db.Redis.Insert.Spec.{
  has_id, stored, member_after_all, field_after_all, string_after_all,
}
use goval_dictionary_v.Db.Redis.Insert.Entries.{member_after_all-append, field_after_all-append}
use goval_dictionary_v.Db.Redis.Insert.Removals.{removals-member, removals-field}

pub stored_absent :
    (codec : Codec) (ds : List Definition) (j : Text) (o : Option Text)
    → has_id ds j ≡ false
    → stored codec ds j o ≡ o
stored_absent codec [] j o h = refl
stored_absent codec (d ∷ ds) j o h =
    let e : text_eq d.definition_id j ≡ false = ground arith in
    rw e (stored_absent codec ds j o (ground arith))

-- What was there before does not matter to a definition that is written.
pub stored_present :
    (codec : Codec) (ds : List Definition) (j : Text) (o p : Option Text)
    → has_id ds j ≡ true
    → stored codec ds j o ≡ stored codec ds j p
stored_present codec [] j o p h = cc
stored_present codec (d ∷ ds) j o p h = elim (Bool-cases (text_eq d.definition_id j)) [
  | inl e ↦ rw e refl
  | inr e ↦ rw e (stored_present codec ds j o p (ground arith))
]

string_after_all-append :
    (cs ds : List Command) (k : Text) (o : Option Text)
    → string_after_all (cs ++ ds) k o ≡ string_after_all ds k (string_after_all cs k o)
string_after_all-append [] ds k o = refl
string_after_all-append (c ∷ cs) ds k o = string_after_all-append cs ds k _

module _ (server : Server) (codec : Codec) (family os_ver : Text) where
  last_commands : Root → Text → List Command
  last_commands root dj =
      set (dep_key family os_ver) dj
      ∷ set (last_modified_key family os_ver) (codec.format_timestamp root.timestamp)
      ∷ []

  pub final_commands : Root → Deps → Deps → Text → List Command
  unfolding last_commands
  final_commands root new old dj =
      removals family os_ver new old (keys old) ++ last_commands root dj

  pub finish_succeeds :
      (root : Root) (new old : Deps) (s : server.State)
      → (finish server codec family os_ver root new old s).1 ≡ ok tt
      → (dj : Text) × (codec.marshal_deps new ≡ some dj)
        × ((run_all server s (final_commands root new old dj)).1 ≡ true)
        × ((finish server codec family os_ver root new old s).0
            ≡ (run_all server s (final_commands root new old dj)).0)
  unfolding finish final_commands
  finish_succeeds root new old s h = ground arith

  pub final-member :
      (root : Root) (new old : Deps) (dj : Text) (j : Text) (k : Kind) (y : Text) (b : Bool)
      → member_after_all (final_commands root new old dj) (index_key family os_ver k y) j b
        ≡ (b && not (has old j k y))
  unfolding final_commands
  final-member root new old dj j k y b =
      member_after_all-append (removals family os_ver new old (keys old)) (last_commands root dj)
        (index_key family os_ver k y) j b
      ∙ rw (dep-ne-index family os_ver k y, last-ne-index family os_ver k y)
          (removals-member family os_ver new old j k y b)

  pub final-field :
      (root : Root) (new old : Deps) (dj : Text) (j : Text) (o : Option Text)
      → field_after_all (final_commands root new old dj) (def_key family os_ver) j o
        ≡ (if present old j && not (present new j) then none else o)
  unfolding final_commands
  final-field root new old dj j o =
      field_after_all-append (removals family os_ver new old (keys old)) (last_commands root dj)
        (def_key family os_ver) j o
      ∙ rw (dep-ne-def family os_ver, last-ne-def family os_ver)
          (removals-field family os_ver new old j o)

  pub final-string :
      (root : Root) (new old : Deps) (dj : Text) (o : Option Text)
      → string_after_all (final_commands root new old dj) (dep_key family os_ver) o ≡ some dj
  unfolding final_commands
  final-string root new old dj o =
      string_after_all-append (removals family os_ver new old (keys old)) (last_commands root dj)
        (dep_key family os_ver) o
      ∙ rw (last-ne-dep family os_ver, text_eq_refl (dep_key family os_ver)) refl

  pub final-last_modified :
      (root : Root) (new old : Deps) (dj : Text) (o : Option Text)
      → string_after_all (final_commands root new old dj) (last_modified_key family os_ver) o
        ≡ some (codec.format_timestamp root.timestamp)
  unfolding final_commands
  final-last_modified root new old dj o =
      string_after_all-append (removals family os_ver new old (keys old)) (last_commands root dj)
        (last_modified_key family os_ver) o
      ∙ rw (text_eq_refl (last_modified_key family os_ver)) refl
