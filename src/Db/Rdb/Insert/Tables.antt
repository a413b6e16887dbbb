-- ===== src/Db/Rdb/Insert/Tables.antt =====
-- The tables of roots and of definitions, as InsertOval of db/rdb.go changes them.
use goval_dictionary_v.Prelude.{
  ℕ, suc, ◌+◌, ◌≡◌, ◌≢◌, refl, ap, true, ◌&&◌, some, List, [], ◌∷◌, ◌++◌, map, arith, ◌==◌, length,
  if◌then◌else◌,
}
use goval_dictionary_v.Text.{Text, text_eq}
use goval_dictionary_v.Text.Equality.{text_eq_refl}
use goval_dictionary_v.Models.{Definition, Advisory, Package, Root}
use goval_dictionary_v.Db.Rdb.Gorm.{Gorm, Reply, found, not_found, failed}

-- the first row of a family and a release
abbrev pub find_root : Text → Text → List Root → Reply Root
find_root family os_ver [] = not_found
find_root family os_ver (r ∷ rs) =
    if text_eq r.family family && text_eq r.os_version os_ver
    then found r
    else find_root family os_ver rs

-- the rows with other ids
abbrev pub without : ℕ → List Root → List Root
without id [] = []
without id (r ∷ rs) = if r.id == id then without id rs else r ∷ without id rs

abbrev pub count_of_id : ℕ → List ℕ → ℕ
count_of_id id [] = 0
count_of_id id (i ∷ is) = if i == id then suc (count_of_id id is) else count_of_id id is

-- a root as a row, with its id and without its definitions
abbrev pub row : ℕ → Root → Root
row id r = record r { id = id; definitions = [] }

-- What gorm documents of the statements, on the rows of roots and on the column root_id of
-- definitions. A condition on a struct is one on its fields that are not zero, so the queries for
-- a root are stated for a family and a release that are not empty; a query may always fail. The id
-- that a root is given is that of no other root and of no definition.
pub record IsTables (g : Gorm) : Type 1 where
  pub roots : g.Tx → List Root
  pub root_ids : g.Tx → List ℕ
  pub stored_roots : g.Db → List Root
  pub stored_root_ids : g.Db → List ℕ
  pub roots-begin : (d : g.Db) → roots (g.begin d) ≡ stored_roots d
  pub roots-commit : (t : g.Tx) → (g.commit t).1 ≡ true → stored_roots (g.commit t).0 ≡ roots t
  pub root_ids-commit :
      (t : g.Tx) → (g.commit t).1 ≡ true → stored_root_ids (g.commit t).0 ≡ root_ids t
  pub first_old_root-find :
      (f v : Text) (t : g.Tx)
      → f ≢ []
      → v ≢ []
      → g.first_old_root f v t ≢ failed
      → g.first_old_root f v t ≡ find_root f v (roots t)
  pub take_root-find :
      (f v : Text) (d : g.Db)
      → f ≢ []
      → v ≢ []
      → g.take_root f v d ≢ failed
      → g.take_root f v d ≡ find_root f v (stored_roots d)
  pub first_root-find :
      (f v : Text) (d : g.Db)
      → f ≢ []
      → v ≢ []
      → g.first_root f v d ≢ failed
      → g.first_root f v d ≡ find_root f v (stored_roots d)
  pub count_definitions-count :
      (id n : ℕ) (d : g.Db)
      → g.count_definitions id d ≡ some n
      → n ≡ count_of_id id (stored_root_ids d)
  pub roots-delete_advisories :
      (advs : List Advisory) (t t' : g.Tx)
      → g.delete_advisories advs t ≡ some t'
      → roots t' ≡ roots t
  pub roots-delete_definitions :
      (ds : List Definition) (t t' : g.Tx)
      → g.delete_definitions ds t ≡ some t'
      → roots t' ≡ roots t
  pub roots-delete_root :
      (id : ℕ) (t t' : g.Tx) → g.delete_root id t ≡ some t' → roots t' ≡ without id (roots t)
  pub roots-create_root :
      (r : Root) (id : ℕ) (t t' : g.Tx)
      → g.create_root r t ≡ some (id, t')
      → roots t' ≡ roots t ++ (row id r ∷ [])
  pub fresh-create_root :
      (r : Root) (id : ℕ) (t t' : g.Tx)
      → g.create_root r t ≡ some (id, t')
      → count_of_id id (root_ids t') ≡ 0
  pub roots-create_definitions :
      (ds es : List Definition) (t t' : g.Tx)
      → g.create_definitions ds t ≡ some (es, t')
      → roots t' ≡ roots t
  pub root_ids-create_definitions :
      (ds es : List Definition) (t t' : g.Tx)
      → g.create_definitions ds t ≡ some (es, t')
      → root_ids t' ≡ root_ids t ++ map (λ (d : Definition). d.root_id) ds
  pub roots-create_packages :
      (ps : List Package) (t t' : g.Tx) → g.create_packages ps t ≡ some t' → roots t' ≡ roots t
  pub root_ids-create_packages :
      (ps : List Package) (t t' : g.Tx)
      → g.create_packages ps t ≡ some t'
      → root_ids t' ≡ root_ids t

-- No two roots are of the family and the release.
abbrev pub AtMostOne : Text → Text → List Root → Type 0
AtMostOne f v rs =
    (r : Root) → find_root f v rs ≡ found r → find_root f v (without r.id rs) ≡ not_found

pub find_root-append :
    (f v : Text) (rs ss : List Root)
    → find_root f v rs ≡ not_found
    → find_root f v (rs ++ ss) ≡ find_root f v ss
find_root-append f v [] ss h = refl
find_root-append f v (r ∷ rs) ss h = ground (arith, find_root-append f v rs ss)

pub count_of_id-append :
    (id : ℕ) (is js : List ℕ) → count_of_id id (is ++ js) ≡ count_of_id id is + count_of_id id js
count_of_id-append id [] js = omega arith
count_of_id-append id (i ∷ is) js = ground (arith, count_of_id-append id is js)

-- all new definitions have the id of their root
pub count_of_id-map :
    (id : ℕ) (ds : List Definition)
    → count_of_id id (
        map
          (λ (d : Definition). d.root_id)
          (map (λ (d : Definition). record d { root_id = id }) ds))
      ≡ length ds
count_of_id-map id [] = refl
count_of_id-map id (d ∷ ds) = ground (arith, count_of_id-map id ds)

pub find_root-without :
    (f v : Text) (id : ℕ) (rs : List Root)
    → find_root f v rs ≡ not_found
    → find_root f v (without id rs) ≡ not_found
find_root-without f v id [] h = h
find_root-without f v id (r ∷ rs) h = ground (arith, find_root-without f v id rs)

pub find_root-row :
    (id : ℕ) (r : Root) → find_root r.family r.os_version (row id r ∷ []) ≡ found (row id r)
find_root-row id r = rw (text_eq_refl r.family, text_eq_refl r.os_version) refl

-- the column root_id of the definitions
abbrev pub root_id_of : List Definition → List ℕ
root_id_of = map (λ (d : Definition). d.root_id)

pub root_id_of-append :
    (ds es : List Definition) → root_id_of (ds ++ es) ≡ root_id_of ds ++ root_id_of es
root_id_of-append [] es = refl
root_id_of-append (d ∷ ds) es = ap (λ t. d.root_id ∷ t) (root_id_of-append ds es)
