-- ===== src/Converters/Releases.antt =====
-- The packages of one definition by the release they are for, which models/oracle and models/suse
-- collect in the same loops: the map osVerPacks and the loop over it.
pub mod Laws
use goval_dictionary_v.Prelude.{List, [], ◌∷◌, ◌++◌}
use goval_dictionary_v.Text.{Text}
use goval_dictionary_v.GoMap.{Map, values, insert}
use goval_dictionary_v.Models.{Package, Definition}

-- distroPackage
pub record ReleasePackage : Type 0 where
  pub os_ver : Text
  pub pack : Package

-- osVerPacks
unfoldable pub packs_by_release : List ReleasePackage → Map (List Package) → Map (List Package)
packs_by_release [] m = m
packs_by_release (p ∷ ps) m =
    packs_by_release ps (insert p.os_ver (values p.os_ver m ++ (p.pack ∷ [])) m)

-- The loop over osVerPacks, with the literal of the definition as a function of its packages.
unfoldable pub add_releases :
    (List Package → Definition) → Map (List Package) → Map (List Definition) → Map (List Definition)
add_releases new [] m = m
add_releases new ((os_ver, packs) ∷ rest) m =
    add_releases new rest (insert os_ver (values os_ver m ++ (new packs ∷ [])) m)
