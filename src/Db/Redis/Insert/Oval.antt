-- ===== src/Db/Redis/Insert/Oval.antt =====
-- The theorems on InsertOval.
use goval_dictionary_v.Prelude.{ℕ, suc, zero, ◌⊎◌, ◌<◌, ◌≡◌, refl, arith, inl, inr}
use goval_dictionary_v.Text.{Text}
use goval_dictionary_v.Outcome.{ok, err, unknown_family, bad_batch_size}
use goval_dictionary_v.Models.{Root}
use goval_dictionary_v.Db.Version.{format_family_and_os_ver}
use goval_dictionary_v.Db.Redis.Server.{Server, Codec}
use goval_dictionary_v.Db.Redis.Insert.{insert_formatted, insert_oval}
use goval_dictionary_v.Db.Redis.Insert.Laws.{IsIndexed, Mirrors, insert_formatted_correct}

size-cases : (n : ℕ) → (n ≡ 0) ⊎ (0 < n)
size-cases zero = inl refl
size-cases (suc n) = inr (omega arith)

module _ (server : Server) (codec : Codec) (size : ℕ) (root : Root) (s : server.State) where
  -- Past the two checks the insertion goes on with the normalised names.
  pub insert_oval_formatted :
      (f v : Text)
      → 0 < size
      → format_family_and_os_ver root.family root.os_version ≡ ok (f, v)
      → insert_oval server codec size root s ≡ insert_formatted server codec f v size root s
  unfolding insert_oval
  insert_oval_formatted f v pos e = ground arith

  insert_oval_zero : size ≡ 0 → insert_oval server codec size root s ≡ (s, err bad_batch_size)
  unfolding insert_oval
  insert_oval_zero e = ground arith

  size_pos : (insert_oval server codec size root s).1 ≡ ok tt → 0 < size
  unfolding insert_oval
  size_pos h = ground arith

  -- If InsertOval succeeds on an indexed database, then afterwards every index set of the family
  -- and release holds exactly the ids of the inserted definitions with that CVE or package, and
  -- the hash holds exactly the inserted definitions: stale ones are gone. DEP covers the index
  -- again.
  pub insert_oval_correct :
      (f v : Text)
      → format_family_and_os_ver root.family root.os_version ≡ ok (f, v)
      → IsIndexed server codec f v s
      → (insert_oval server codec size root s).1 ≡ ok tt
      → Mirrors server codec f v root.definitions (insert_oval server codec size root s).0
        × IsIndexed server codec f v (insert_oval server codec size root s).0
  insert_oval_correct f v e i h =
      let pos = size_pos h in
      let q = insert_oval_formatted f v pos e in
      rw q (insert_formatted_correct server codec f v size root s pos i (rw q at h))

  insert_oval_unknown :
      0 < size
      → format_family_and_os_ver root.family root.os_version ≡ err unknown_family
      → insert_oval server codec size root s ≡ (s, err unknown_family)
  unfolding insert_oval
  insert_oval_unknown pos e = ground arith
