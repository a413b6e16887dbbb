-- ===== src/Tests/Scan.antt =====
-- The query with SCAN, on a server in memory that hands out its keys in two rounds.
use goval_dictionary_v.Prelude.{
  ◌≡◌, refl, true, ◌==◌, some, List, [], ◌∷◌, ◌++◌, arith, if◌then◌else◌,
}
use goval_dictionary_v.Text.{Text, codes, text_eq}
use goval_dictionary_v.Outcome.{ok}
use goval_dictionary_v.GoMap.{elem}
use goval_dictionary_v.Models.{Definition, Root}
use goval_dictionary_v.Db.Version.{format_family_and_os_ver}
use goval_dictionary_v.Db.Redis.Server.{Command, Server}
use goval_dictionary_v.Db.Redis.Keys.{pkg_key}
use goval_dictionary_v.Db.Redis.Insert.{insert_oval, uses_arch}
use goval_dictionary_v.Db.Redis.Insert.Laws.{IsIndexed, Mirrors}
use goval_dictionary_v.Db.Redis.Insert.Oval.{insert_oval_correct}
use goval_dictionary_v.Db.Redis.Insert.Total.{IsReliable, insert_oval-ok}
use goval_dictionary_v.Db.Redis.Query.{get_by_pack_name}
use goval_dictionary_v.Db.Redis.Query.Laws.{Restores}
use goval_dictionary_v.Db.Redis.Query.Correct.{IsReadable}
use goval_dictionary_v.Db.Redis.Query.Scan.{Rounds, any_covers, get_by_pack_name-scan}
use goval_dictionary_v.Tests.Memory.{memory}
use goval_dictionary_v.Tests.Samples.{samples, old_root}
use goval_dictionary_v.Tests.Redis.{old_root-Encodes}

abbrev bash_key : Text
bash_key = pkg_key (codes "oracle") (codes "8") (codes "bash#")

abbrev paged : Server
paged = record memory {
  scan = λ s cursor pattern count. if cursor == 0 then some (bash_key ∷ [], 7) else some ([], 0);
}

abbrev oracle_root : Root
oracle_root = record old_root { family = codes "oracle"; os_version = codes "8" }

oracle_8 : format_family_and_os_ver (codes "oracle") (codes "8") ≡ ok (codes "oracle", codes "8")
unfolding format_family_and_os_ver text_eq goval_dictionary_v.Db.Version.major
oracle_8 = refl

oracle-uses_arch : uses_arch (codes "oracle") ≡ true
unfolding uses_arch text_eq
oracle-uses_arch = refl

nothing_there : IsIndexed paged samples (codes "oracle") (codes "8") []
nothing_there = record { deps = []; decoded = refl; entries = λ j k y h. cc; defined = λ j t h. cc }

paged-IsReliable : IsReliable paged samples
paged-IsReliable = record {
  run = λ s c. refl;
  get = λ s k. (_, refl);
  marshal = λ d. (_, refl);
  marshal_deps = λ d. (_, refl);
}

paged-IsReadable : (s : List Command) → IsReadable paged s
paged-IsReadable s = record { smembers = λ k. (_, refl); hmget = λ k fs. (_, refl) }

abbrev oracle_state : List Command
oracle_state = (insert_oval paged samples 1 oracle_root []).0

oracle_root-Mirrors :
    Mirrors paged samples (codes "oracle") (codes "8") oracle_root.definitions oracle_state
oracle_root-Mirrors =
    (insert_oval_correct paged samples 1 oracle_root [] (codes "oracle") (codes "8") oracle_8
      nothing_there
      (insert_oval-ok paged samples paged-IsReliable 1 oracle_root [] (codes "oracle") (codes "8")
        (omega arith) oracle_8 nothing_there)).0

abbrev bash_pattern : Text
bash_pattern = pkg_key (codes "oracle") (codes "8") (codes "bash") ++ codes "#*"

two-Rounds : Rounds paged samples 1 0 bash_pattern 0 oracle_state (bash_key ∷ [])
two-Rounds = (bash_key ∷ [], 7, [], refl, (λ h. omega (arith, h)), refl, refl)

get_by_pack_name-scan_example :
    (ids : List Text) × (rs : List Definition) × (get_by_pack_name paged samples 2
        (codes "oracle")
        (codes "8")
        (codes "bash")
        []
        oracle_state
      ≡ some (ok rs))
    × ((i : Text)
        → elem i ids
          ≡ any_covers paged samples
              (codes "oracle")
              oracle_root.definitions
              i
              (codes "bash#" ∷ []))
    × Restores (codes "oracle") (codes "8") [] oracle_root.definitions ids rs
get_by_pack_name-scan_example =
    get_by_pack_name-scan paged samples 1 2 0 (codes "oracle") (codes "8") (codes "oracle")
      (codes "8") (codes "bash") (codes "bash#" ∷ []) oracle_root.definitions oracle_state
      old_root-Encodes oracle_root-Mirrors (paged-IsReadable oracle_state) oracle_8 oracle-uses_arch
      refl two-Rounds (omega arith)
