-- ===== src/Tests/Rdb.antt =====
-- A relational database in memory, and the theorems on its driver applied to it.
use goval_dictionary_v.Prelude.{
  ℕ, ◌≡◌, refl, sym, true, false, Option, none, some, List, [], ◌∷◌, ◌++◌, map, flat_map,
  append-nil, if◌then◌else◌, ◌==◌, arith,
}
use goval_dictionary_v.Text.{codes, text_eq}
use goval_dictionary_v.Outcome.{ok}
use goval_dictionary_v.Models.{Definition, new_definition, Package, new_package, Root, default_time}
use goval_dictionary_v.Db.Rdb.Gorm.{Gorm, IsTransactional, Reply, found, not_found}
use goval_dictionary_v.Db.Rdb.Insert.{rdb_insert_oval}
use goval_dictionary_v.Db.Rdb.Insert.Tables.{find_root, without, count_of_id, row, IsTables}
use goval_dictionary_v.Db.Rdb.Insert.Atomic.{AllOrNothing, rdb_insert_oval-AllOrNothing}
use goval_dictionary_v.Db.Rdb.Query.{rdb_get_by_pack_name}
use goval_dictionary_v.Db.Rdb.Query.Narrow.{IsLoading, loaded, shown, rdb_get_by_pack_name-narrow}
use goval_dictionary_v.Db.Redis.Query.{narrow}
use goval_dictionary_v.Db.Version.{format_family_and_os_ver, major}

abbrev definitions_in : List Root → List Definition
definitions_in rs = flat_map (λ (r : Root). r.definitions) rs

abbrev first_of : List Root → Reply Root
first_of [] = not_found
first_of (r ∷ rs) = found r

-- Every root is of the one family and release; no package can be stored.
abbrev memory : Gorm
memory = record {
  Db = List Root;
  Tx = List Root × List Root;
  find_in_batches = λ q n db. some (map (loaded q.preloads) (definitions_in db) ∷ []);
  find = λ q db. found (map (loaded q.preloads) (definitions_in db));
  take_root = λ f v db. first_of db;
  first_root = λ f v db. first_of db;
  count_definitions = λ id db. some 0;
  has_column = λ c db. false;
  take_fetch_meta = λ db. not_found;
  save_fetch_meta = λ m db. some db;
  begin = λ db. (db, db);
  rollback = λ t. t.0;
  commit = λ t. (t.1, true);
  first_old_root = λ f v t. first_of t.1;
  definitions_of = λ r t. some r.definitions;
  advisories_of = λ ds t. some (map (λ (d : Definition). d.advisory) ds);
  delete_advisories = λ advs t. some t;
  delete_definitions = λ ds t. some t;
  delete_root = λ id t. some (t.0, []);
  create_root = λ r t. some (1, (t.0, r ∷ t.1));
  create_definitions = λ ds t. some (ds, t);
  create_packages = λ ps t. none;
}

memory-IsTransactional : IsTransactional memory
memory-IsTransactional = record {
  before = λ t. t.0;
  before-begin = λ d. refl;
  before-rollback = λ t. refl;
  before-commit = λ t h. cc;
  before-delete_advisories = λ advs t t' e. cc;
  before-delete_definitions = λ ds t t' e. cc;
  before-delete_root = λ id t t' e. cc;
  before-create_root = λ r t t' id e. cc;
  before-create_definitions = λ ds es t t' e. cc;
  before-create_packages = λ ps t t' e. cc;
}

one_batch :
    (ds : List Definition) (bs : List (List Definition))
    → some (ds ∷ []) ≡ some bs
    → flat_map (λ b. b) bs ≡ ds
one_batch ds bs e = let k : ds ∷ [] ≡ bs = cc in rw (sym k) (append-nil ds)

found_one : (ds es : List Definition) → found ds ≡ found es → es ≡ ds
found_one ds es e = cc

abbrev memory_loading : IsLoading memory
memory_loading = record {
  rows = λ q db. definitions_in db;
  rows-find = λ q db ds e. found_one (map (loaded q.preloads) (definitions_in db)) ds e;
  rows-find_in_batches =
      λ q n db bs e. one_batch (map (loaded q.preloads) (definitions_in db)) bs e;
}

abbrev bash_rpm : Package
bash_rpm = record new_package { name = codes "bash"; arch = codes "x86_64" }

abbrev bash_definition : Definition
bash_definition = record new_definition {
  definition_id = codes "def-1";
  affected_packs = bash_rpm ∷ [];
}

abbrev oracle_8 : Root
oracle_8 = record {
  id = 1;
  family = codes "oracle";
  os_version = codes "8";
  definitions = bash_definition ∷ [];
  timestamp = default_time;
}

rdb_insert_oval-AllOrNothing_example :
    AllOrNothing memory memory-IsTransactional
      (oracle_8 ∷ [])
      oracle_8
      (rdb_insert_oval memory 25 oracle_8 (oracle_8 ∷ []))
rdb_insert_oval-AllOrNothing_example =
    rdb_insert_oval-AllOrNothing memory memory-IsTransactional (oracle_8 ∷ []) 25 oracle_8

oracle_8-formatted :
    format_family_and_os_ver (codes "oracle") (codes "8") ≡ ok (codes "oracle", codes "8")
unfolding format_family_and_os_ver text_eq major
oracle_8-formatted = refl

rdb_get_by_pack_name-narrow_example :
    rdb_get_by_pack_name memory
      (codes "oracle")
      (codes "8")
      (codes "bash")
      (codes "x86_64")
      (oracle_8 ∷ [])
    ≡ ok (
        map
          (λ d. narrow (codes "oracle") (codes "8") (codes "x86_64") (shown (codes "oracle") d))
          (bash_definition ∷ []))
rdb_get_by_pack_name-narrow_example =
    rdb_get_by_pack_name-narrow memory memory_loading (codes "oracle") (codes "8") (codes "bash")
      (codes "x86_64") (codes "oracle", codes "8") (oracle_8 ∷ []) _ oracle_8-formatted refl

-- The two tables alone: the rows of roots, and the root_id of each definition. There is one root at
-- most with definitions, with the id 1.
abbrev Rows : Type 0
Rows = List Root × List ℕ

abbrev new_root : Root → Rows → Option (ℕ × Rows)
new_root r t = if count_of_id 1 t.1 == 0 then some (1, (t.0 ++ (row 1 r ∷ []), t.1)) else none

abbrev tables : Gorm
tables = record {
  Db = Rows;
  Tx = Rows;
  find_in_batches = λ q n db. some [];
  find = λ q db. found [];
  take_root = λ f v db. find_root f v db.0;
  first_root = λ f v db. find_root f v db.0;
  count_definitions = λ id db. some (count_of_id id db.1);
  has_column = λ c db. false;
  take_fetch_meta = λ db. not_found;
  save_fetch_meta = λ m db. some db;
  begin = λ db. db;
  rollback = λ t. t;
  commit = λ t. (t, true);
  first_old_root = λ f v t. find_root f v t.0;
  definitions_of = λ r t. some (new_definition ∷ []);
  advisories_of = λ ds t. some (map (λ (d : Definition). d.advisory) ds);
  delete_advisories = λ advs t. some t;
  delete_definitions = λ ds t. some (t.0, []);
  delete_root = λ id t. some (without id t.0, t.1);
  create_root = new_root;
  create_definitions = λ ds t. some (ds, (t.0, t.1 ++ map (λ (d : Definition). d.root_id) ds));
  create_packages = λ ps t. some t;
}

new_root-roots :
    (r : Root) (id : ℕ) (t t' : Rows) → new_root r t ≡ some (id, t') → t'.0 ≡ t.0 ++ (row id r ∷ [])
new_root-roots r id t t' e = ground arith

new_root-fresh :
    (r : Root) (id : ℕ) (t t' : Rows) → new_root r t ≡ some (id, t') → count_of_id id t'.1 ≡ 0
new_root-fresh r id t t' e = ground arith

tables-IsTables : IsTables tables
tables-IsTables = record {
  roots = λ t. t.0;
  root_ids = λ t. t.1;
  stored_roots = λ d. d.0;
  stored_root_ids = λ d. d.1;
  roots-begin = λ d. refl;
  roots-commit = λ t h. refl;
  root_ids-commit = λ t h. refl;
  first_old_root-find = λ f v t hf hv h. refl;
  take_root-find = λ f v d hf hv h. refl;
  first_root-find = λ f v d hf hv h. refl;
  count_definitions-count = λ id n d e. cc;
  roots-delete_advisories = λ advs t t' e. cc;
  roots-delete_definitions = λ ds t t' e. cc;
  roots-delete_root = λ id t t' e. cc;
  roots-create_root = new_root-roots;
  fresh-create_root = new_root-fresh;
  roots-create_definitions = λ ds es t t' e. cc;
  root_ids-create_definitions = λ ds es t t' e. cc;
  roots-create_packages = λ ps t t' e. cc;
  root_ids-create_packages = λ ps t t' e. cc;
}

-- the definition for Oracle 8 is stored already, and stored again
abbrev stored_before : Rows
stored_before = (row 1 oracle_8 ∷ [], 1 ∷ [])
