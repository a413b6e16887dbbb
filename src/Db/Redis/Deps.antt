-- ===== src/Db/Redis/Deps.antt =====
-- newDeps and oldDeps of InsertOval: nested maps that record which index entries belong to which
-- definition.
pub mod Laws
pub mod Prune
pub mod Complete
use goval_dictionary_v.Prelude.{
  ℕ, ◌≡◌, Bool, true, false, Option, none, some, List, [], ◌∷◌, length, ◌==◌, if◌then◌else◌,
}
use goval_dictionary_v.Text.{Text, codes, text_eq}
use goval_dictionary_v.GoMap.{Map, is_some, lookup, insert, delete}
use goval_dictionary_v.Db.Redis.Keys.{Kind, cves, packages, kind_key}

-- {"DEFID": {"cves": {"CVEID": {}}, "packages": {"PACKNAME": {}}}}
abbrev pub Deps : Type 0
Deps = Map (Map (Map (Unit {0})))

-- deps[id][kind][x] is present.
abbrev pub has_entry : Option (Map (Unit {0})) → Text → Bool
has_entry none x = false
has_entry (some s) x = is_some (lookup x s)

abbrev pub has_kind : Option (Map (Map (Unit {0}))) → Kind → Text → Bool
has_kind none kind x = false
has_kind (some m) kind x = has_entry (lookup (kind_key kind) m) x

abbrev pub has : Deps → Text → Kind → Text → Bool
has d id kind x = has_kind (lookup id d) kind x

-- deps[id] is present.
abbrev pub present : Deps → Text → Bool
present d id = is_some (lookup id d)

-- The two maps hold the same: a map has no order.
abbrev pub SameDeps : Deps → Deps → Type 0
SameDeps d e =
    ((id : Text) → present d id ≡ present e id)
    × ((id : Text) (kind : Kind) (x : Text) → has d id kind x ≡ has e id kind x)

-- `if _, ok := newDeps[id]; !ok { newDeps[id] = {"cves": {}, "packages": {}} }`
unfoldable pub open_deps : Text → Deps → Deps
open_deps id d = elim (lookup id d) [
  | none ↦ insert id ((codes "cves", []) ∷ (codes "packages", []) ∷ []) d
  | some m ↦ d
]

-- `newDeps[id][kind][x] = {}`, where `open_deps` has made both maps.
unfoldable pub add_dep : Text → Kind → Text → Deps → Deps
add_dep id kind x d = elim (lookup id d) [
  | none ↦ d
  | some m ↦ elim (lookup (kind_key kind) m) [
    | none ↦ d
    | some s ↦ insert id (insert (kind_key kind) (insert x tt s) m) d
  ]
]

-- `delete(oldDeps[id][kind], x)` if both maps are there.
unfoldable pub drop_dep : Text → Kind → Text → Deps → Deps
drop_dep id kind x d = elim (lookup id d) [
  | none ↦ d
  | some m ↦ elim (lookup (kind_key kind) m) [
    | none ↦ d
    | some s ↦ insert id (insert (kind_key kind) (delete x s) m) d
  ]
]

-- The map of one definition without the map of a kind, if that is there and empty.
drop_if_empty : Kind → Option (Map (Unit {0})) → Map (Map (Unit {0})) → Map (Map (Unit {0}))
drop_if_empty kind none m = m
drop_if_empty kind (some []) m = delete (kind_key kind) m
drop_if_empty kind (some (e ∷ es)) m = m

without_empty : Kind → Map (Map (Unit {0})) → Map (Map (Unit {0}))
without_empty kind m = drop_if_empty kind (lookup (kind_key kind) m) m

-- The clean-up behind the loops of a definition: empty maps of a kind go first, and the
-- definition goes if nothing is left.
keep_unless_empty : Text → Map (Map (Unit {0})) → Deps → Deps
keep_unless_empty id [] d = delete id d
keep_unless_empty id (e ∷ es) d = insert id (e ∷ es) d

prune_found : Text → Option (Map (Map (Unit {0}))) → Deps → Deps
prune_found id none d = d
prune_found id (some m) d = keep_unless_empty id (without_empty packages (without_empty cves m)) d

unfoldable pub prune_deps : Text → Deps → Deps
unfolding without_empty drop_if_empty keep_unless_empty prune_found
prune_deps id d = prune_found id (lookup id d) d
