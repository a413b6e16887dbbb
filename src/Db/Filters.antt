-- ===== src/Db/Filters.antt =====
-- filterByRedHatMajor of db/db.go and fileterPacksByArch of db/redis.go.
pub mod Laws
pub mod Releases
use goval_dictionary_v.Prelude.{Bool, ◌||◌, List, [], ◌∷◌, ◌++◌, if◌then◌else◌}
use goval_dictionary_v.Text.{Text, codes, text_eq, contains}
use goval_dictionary_v.Models.{Package}

unfoldable pub filter_by_redhat_major : List Package → Text → List Package
filter_by_redhat_major [] major_ver = []
filter_by_redhat_major (p ∷ packs) major_ver =
    let rest = filter_by_redhat_major packs major_ver in
    if contains p.version (codes ".el" ++ major_ver)
      || contains p.version (codes ".module+el" ++ major_ver)
    then p ∷ rest
    else rest

-- The loop of fileterPacksByArch, which is named so in the source.
packs_of_arch : Text → List Package → List Package
packs_of_arch arch [] = []
packs_of_arch arch (p ∷ packs) =
    let rest = packs_of_arch arch packs in if text_eq p.arch arch then p ∷ rest else rest

unfoldable pub fileter_packs_by_arch : List Package → Text → List Package
unfolding packs_of_arch text_eq
fileter_packs_by_arch packs arch = if text_eq arch [] then packs else packs_of_arch arch packs
