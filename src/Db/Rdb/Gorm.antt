-- ===== src/Db/Rdb/Gorm.antt =====
-- What db/rdb.go calls of gorm, as an interface: the statements by what they ask for, on the state
-- of a database and on that of a transaction. A statement that fails has no result.
use goval_dictionary_v.Prelude.{ℕ, ◌≡◌, Bool, false, Option, some, List}
use goval_dictionary_v.Text.{Text}
use goval_dictionary_v.Models.{Definition, Advisory, Package, Root, FetchMeta}

-- The answer to a query for one row: the row, gorm.ErrRecordNotFound, or another error.
pub data Reply {ℓ} (A : Type ℓ) : Type ℓ where
  found : A → Reply A
  not_found failed : Reply A

-- The condition of a query for definitions, on the tables that it joins.
pub data Condition : Type 0 where
  by_name : Text → Condition
  by_name_and_arch : Text → Text → Condition
  by_cve : Text → Condition

-- An association that is loaded with the definitions, under its name, with the condition
-- "arch = ?" on its rows, if it has one.
pub record Preload : Type 0 where
  pub association : Text
  pub arch : Option Text

-- A query for the definitions of the root with the family and the release.
pub record Query : Type 0 where
  pub family : Text
  pub os_ver : Text
  pub where_ : Condition
  pub preloads : List Preload

pub record Gorm : Type 1 where
  pub Db : Type 0
  pub Tx : Type 0
  -- the queries for definitions, FindInBatches with the batches that its callback is given
  pub find_in_batches : Query → ℕ → Db → Option (List (List Definition))
  pub find : Query → Db → Reply (List Definition)
  -- Where(&models.Root{…}).Take, .First, and Count of the definitions with a root
  pub take_root : Text → Text → Db → Reply Root
  pub first_root : Text → Text → Db → Reply Root
  pub count_definitions : ℕ → Db → Option ℕ
  -- Migrator().HasColumn, Take and Save of the row of FetchMeta
  pub has_column : Text → Db → Bool
  pub take_fetch_meta : Db → Reply FetchMeta
  pub save_fetch_meta : FetchMeta → Db → Option Db
  -- a transaction; Commit comes with whether it succeeds
  pub begin : Db → Tx
  pub rollback : Tx → Db
  pub commit : Tx → Db × Bool
  pub first_old_root : Text → Text → Tx → Reply Root
  pub definitions_of : Root → Tx → Option (List Definition)
  pub advisories_of : List Definition → Tx → Option (List Advisory)
  -- deletion with the associations, and of a root by its id
  pub delete_advisories : List Advisory → Tx → Option Tx
  pub delete_definitions : List Definition → Tx → Option Tx
  pub delete_root : ℕ → Tx → Option Tx
  -- Create, which fills in the ids: of a root without its definitions, of definitions without
  -- their packages, and of packages
  pub create_root : Root → Tx → Option (ℕ × Tx)
  pub create_definitions : List Definition → Tx → Option (List Definition × Tx)
  pub create_packages : List Package → Tx → Option Tx

-- Transactions as gorm and database/sql document them: what is done in one is not seen in the
-- database before Commit, and Rollback and a Commit that fails leave the database as it was.
pub record IsTransactional (g : Gorm) : Type 1 where
  pub before : g.Tx → g.Db
  pub before-begin : (d : g.Db) → before (g.begin d) ≡ d
  pub before-rollback : (t : g.Tx) → g.rollback t ≡ before t
  pub before-commit : (t : g.Tx) → (g.commit t).1 ≡ false → (g.commit t).0 ≡ before t
  pub before-delete_advisories :
      (advs : List Advisory) (t t' : g.Tx)
      → g.delete_advisories advs t ≡ some t'
      → before t' ≡ before t
  pub before-delete_definitions :
      (ds : List Definition) (t t' : g.Tx)
      → g.delete_definitions ds t ≡ some t'
      → before t' ≡ before t
  pub before-delete_root :
      (id : ℕ) (t t' : g.Tx) → g.delete_root id t ≡ some t' → before t' ≡ before t
  pub before-create_root :
      (r : Root) (t t' : g.Tx) (id : ℕ) → g.create_root r t ≡ some (id, t') → before t' ≡ before t
  pub before-create_definitions :
      (ds es : List Definition) (t t' : g.Tx)
      → g.create_definitions ds t ≡ some (es, t')
      → before t' ≡ before t
  pub before-create_packages :
      (ps : List Package) (t t' : g.Tx) → g.create_packages ps t ≡ some t' → before t' ≡ before t
