-- ===== src/Commands/Select.antt =====
-- commands/select.go, without what it prints.
use goval_dictionary_v.Prelude.{Bool, ◌||◌, ◌&&◌, not, List, [], ◌∷◌, if◌then◌else◌}
use goval_dictionary_v.Text.{Text}
use goval_dictionary_v.Outcome.{
  Outcome, ok, err, ◌>>=◌, outdated_schema, bad_arguments, no_architecture,
}
use goval_dictionary_v.GoMap.{elem}
use goval_dictionary_v.Models.{Definition, outdated}
use goval_dictionary_v.Config
use goval_dictionary_v.Commands.{Database}

-- the arguments: family, release, package or CVE id, and architecture
unfoldable pub select_arguments : List Text → Outcome (Text × Text × Text × Text)
select_arguments (family ∷ release ∷ arg ∷ []) = ok (family, release, arg, [])
select_arguments (family ∷ release ∷ arg ∷ arch ∷ []) =
    if elem family (Config.amazon ∷ Config.oracle ∷ Config.fedora ∷ [])
    then ok (family, release, arg, arch)
    else err no_architecture
select_arguments args = err bad_arguments

module _ (database : Database) where
  unfoldable pub select :
      Bool → Text × Text × Text × Text → database.State → Outcome (List Definition)
  select by_package (family, release, arg, arch) s =
      if by_package
      then database.query_by_pack_name family release arg arch s
      else database.query_by_cve_id family release arg arch s

  -- executeSelect, after NewDB: the definitions that it prints
  unfoldable pub execute_select :
      Bool → Bool → List Text → database.State → Outcome (List Definition)
  execute_select by_package by_cveid args s =
      if (not by_package && not by_cveid) || (by_package && by_cveid)
      then err bad_arguments
      else select_arguments args >>= (λ p.
        database.load_fetch_meta s
        >>= (λ meta. if outdated meta then err outdated_schema else select by_package p s))
