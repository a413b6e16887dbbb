-- ===== src/Tests/Redis.antt =====
-- The theorems on the driver, applied to the server in memory.
use mathlib.Core.List.{flatten}
use goval_dictionary_v.Config
use goval_dictionary_v.Prelude.{
  ℕ, ◌≡◌, ◌≢◌, ◌<◌, ◌≤◌, ◌↔◌, refl, false, ◌&&◌, some, List, [], ◌∷◌, arith, length, All, ◌++◌,
}
use goval_dictionary_v.Text.{Text, codes, text_eq, fields}
use goval_dictionary_v.Outcome.{ok, err, panic, unknown_family}
use goval_dictionary_v.GoMap.{elem}
use goval_dictionary_v.Models.{Definition, Package, new_package}
use goval_dictionary_v.Db.Version.{format_family_and_os_ver, families}
use goval_dictionary_v.Db.Version.Format.{format_family_and_os_ver_idem}
use goval_dictionary_v.Db.Version.Errors.{format_unknown_iff, format_panic_iff}
use goval_dictionary_v.Db.Chunks.{chunk_slice, slices, batches}
use goval_dictionary_v.Db.Chunks.Laws.{batches_exact, batches-All}
use goval_dictionary_v.Db.Filters.{fileter_packs_by_arch}
use goval_dictionary_v.Db.Filters.Laws.{fileter_packs_by_arch-exact}
use goval_dictionary_v.Db.Redis.Server.{Command}
use goval_dictionary_v.Db.Redis.Keys.{cves, packages}
use goval_dictionary_v.Db.Redis.Insert.{insert_oval, uses_arch}
use goval_dictionary_v.Db.Redis.Insert.Spec.{covers}
use goval_dictionary_v.Db.Redis.Insert.Laws.{IsIndexed, Mirrors}
use goval_dictionary_v.Db.Redis.Insert.Oval.{insert_oval_correct}
use goval_dictionary_v.Db.Redis.Insert.Total.{IsReliable, insert_oval-ok}
use goval_dictionary_v.Db.Redis.Query.{get_by_cve_id, get_by_pack_name}
use goval_dictionary_v.Db.Redis.Query.Laws.{Restores, Encodes}
use goval_dictionary_v.Db.Redis.Query.Correct.{
  IsReadable, get_by_cve_id_correct, get_by_pack_name_correct, pack_entry,
}
use goval_dictionary_v.Tests.Memory.{memory}
use goval_dictionary_v.Tests.Samples.{samples, old_root, new_root, kernel_definition}

pub debian_11 :
    format_family_and_os_ver (codes "debian") (codes "11.2") ≡ ok (codes "debian", codes "11")
unfolding format_family_and_os_ver text_eq goval_dictionary_v.Db.Version.major
debian_11 = refl

pub raspbian_11 :
    format_family_and_os_ver (codes "raspbian") (codes "11") ≡ ok (codes "debian", codes "11")
unfolding format_family_and_os_ver text_eq goval_dictionary_v.Db.Version.major
raspbian_11 = refl

nothing-IsIndexed : IsIndexed memory samples (codes "debian") (codes "11") []
nothing-IsIndexed = record {
  deps = [];
  decoded = refl;
  entries = λ j k y h. cc;
  defined = λ j t h. cc;
}

memory-IsReliable : IsReliable memory samples
memory-IsReliable = record {
  run = λ s c. refl;
  get = λ s k. (_, refl);
  marshal = λ d. (_, refl);
  marshal_deps = λ d. (_, refl);
}

-- The database after both definitions were inserted.
abbrev old_state : List Command
old_state = (insert_oval memory samples 1 old_root []).0

pub old_root-ok : (insert_oval memory samples 1 old_root []).1 ≡ ok tt
old_root-ok =
    insert_oval-ok memory samples memory-IsReliable 1 old_root [] (codes "debian") (codes "11")
      (omega arith) debian_11 nothing-IsIndexed

old_state-lem :
    Mirrors memory samples (codes "debian") (codes "11") old_root.definitions old_state
    × IsIndexed memory samples (codes "debian") (codes "11") old_state
old_state-lem =
    insert_oval_correct memory samples 1 old_root [] (codes "debian") (codes "11") debian_11
      nothing-IsIndexed old_root-ok

new_root-ok : (insert_oval memory samples 1 new_root old_state).1 ≡ ok tt
new_root-ok =
    insert_oval-ok memory samples memory-IsReliable 1 new_root old_state (codes "debian")
      (codes "11") (omega arith) debian_11 old_state-lem.1

insert_oval-ok_example : (insert_oval memory samples 2 new_root old_state).1 ≡ ok tt
insert_oval-ok_example =
    insert_oval-ok memory samples memory-IsReliable 2 new_root old_state (codes "debian")
      (codes "11") (omega arith) debian_11 old_state-lem.1

insert_oval_correct_example :
    Mirrors memory samples
      (codes "debian")
      (codes "11")
      (kernel_definition ∷ [])
      (insert_oval memory samples 1 new_root old_state).0
    × IsIndexed memory samples
        (codes "debian")
        (codes "11")
        (insert_oval memory samples 1 new_root old_state).0
insert_oval_correct_example =
    insert_oval_correct memory samples 1 new_root old_state (codes "debian") (codes "11") debian_11
      old_state-lem.1 new_root-ok

memory-IsReadable : (s : List Command) → IsReadable memory s
memory-IsReadable s = record { smembers = λ k. (_, refl); hmget = λ k fs. (_, refl) }

pub old_root-Encodes : Encodes samples old_root.definitions
unfolding text_eq
old_root-Encodes = ((refl, (_, refl)), ((refl, (_, refl)), tt))

get_by_cve_id_correct_example :
    (ids : List Text) × (rs : List Definition) × (get_by_cve_id memory samples
        (codes "debian")
        (codes "11.2")
        (codes "CVE-1")
        []
        old_state
      ≡ ok rs)
    × ((i : Text)
        → elem i ids ≡ covers (codes "debian") old_root.definitions i cves (codes "CVE-1"))
    × Restores (codes "debian") (codes "11") [] old_root.definitions ids rs
get_by_cve_id_correct_example =
    get_by_cve_id_correct memory samples (codes "debian") (codes "11.2") (codes "debian")
      (codes "11") (codes "CVE-1") [] old_root.definitions old_state old_root-Encodes
      old_state-lem.0 (memory-IsReadable old_state) debian_11

debian_one_key : (text_eq [] [] && uses_arch (codes "debian")) ≡ false
unfolding text_eq uses_arch
debian_one_key = refl

get_by_pack_name_correct_example :
    (ids : List Text) × (rs : List Definition) × (get_by_pack_name memory samples 1
        (codes "debian")
        (codes "11.2")
        (codes "bash")
        []
        old_state
      ≡ some (ok rs))
    × ((i : Text)
        → elem i ids
          ≡ covers
              (codes "debian")
              old_root.definitions
              i
              packages
              (pack_entry (codes "debian") (codes "bash") []))
    × Restores (codes "debian") (codes "11") [] old_root.definitions ids rs
get_by_pack_name_correct_example =
    get_by_pack_name_correct memory samples 1 (codes "debian") (codes "11.2") (codes "debian")
      (codes "11") (codes "bash") [] old_root.definitions old_state old_root-Encodes old_state-lem.0
      (memory-IsReadable old_state) debian_11 debian_one_key

centos_7 : format_family_and_os_ver (codes "centos") (codes "7.4") ≡ ok (codes "redhat", codes "7")
unfolding format_family_and_os_ver text_eq goval_dictionary_v.Db.Version.major
centos_7 = refl

format_family_and_os_ver_idem_example :
    format_family_and_os_ver (codes "redhat") (codes "7") ≡ ok (codes "redhat", codes "7")
format_family_and_os_ver_idem_example =
    format_family_and_os_ver_idem (codes "centos") (codes "7.4") (codes "redhat", codes "7")
      centos_7

format_unknown_iff_example :
    (format_family_and_os_ver (codes "freebsd") (codes "13.1") ≡ err unknown_family)
    ↔ All (λ k. codes "freebsd" ≢ k) families
format_unknown_iff_example = format_unknown_iff (codes "freebsd") (codes "13.1")

format_panic_iff_example :
    (format_family_and_os_ver (codes "amazon") (codes " ") ≡ panic)
    ↔ ((codes "amazon" ≡ Config.amazon) × (fields (codes " ") ≡ []))
format_panic_iff_example = format_panic_iff (codes "amazon") (codes " ")

abbrev numbers : List ℕ
numbers = 5 ∷ 6 ∷ 7 ∷ []

batches_exact_example :
    (slices numbers (chunk_slice (length numbers) 2) ≡ ok (batches numbers 2))
    × (flatten (batches numbers 2) ≡ numbers)
batches_exact_example = batches_exact numbers 2 (omega arith)

batches-All_example : All (λ b. (0 < length b) × (length b ≤ 2)) (batches numbers 2)
batches-All_example = batches-All numbers 2 (omega arith)

abbrev bash_package : Package
bash_package = record new_package { name = codes "bash"; arch = codes "i686" }

abbrev x86_package : Package
x86_package = record bash_package { arch = codes "x86_64" }

fileter_packs_by_arch-exact_example :
    (fileter_packs_by_arch (bash_package ∷ x86_package ∷ []) (codes "x86_64")
      ≡ fileter_packs_by_arch (bash_package ∷ []) (codes "x86_64")
        ++ (x86_package ∷ fileter_packs_by_arch [] (codes "x86_64")))
    × All
        (λ (q : Package). q.arch ≡ codes "x86_64")
        (fileter_packs_by_arch (bash_package ∷ x86_package ∷ []) (codes "x86_64"))
fileter_packs_by_arch-exact_example =
    fileter_packs_by_arch-exact (codes "x86_64") (λ h. cc) (bash_package ∷ []) [] x86_package refl
