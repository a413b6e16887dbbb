-- ===== src/Converters/Alpine/Laws.antt =====
-- Which packages ConvertToModel of models/alpine puts under a CVE.
use goval_dictionary_v.Prelude.{
  ◌≡◌, ap, sym, ◌∙◌, Bool, true, false, ◌&&◌, List, [], ◌∷◌, ◌++◌, append-nil, append_assoc, Option,
  none, some, collect, collect-append, collect-cons, to_list, arith, if◌then◌else◌,
}
use goval_dictionary_v.Text.{Text, codes, text_eq, has_prefix}
use goval_dictionary_v.Text.Equality.{text_eq_iff}
use goval_dictionary_v.GoMap.{Map, lookup, values, lookup-insert}
use goval_dictionary_v.Models.{Package}
use goval_dictionary_v.Converters.Common.{first_word}
use goval_dictionary_v.Converters.Alpine.{
  Pkg, add_pack, fixed_in, add_vuln_ids, add_secfixes, packs_by_cve,
}

-- The fixes that a database lists: package, version and entry, in the order of the loops.
abbrev pub version_fixes : Text → Text → List Text → List (Text × Text × Text)
version_fixes name ver [] = []
version_fixes name ver (s ∷ ss) = (name, ver, s) ∷ version_fixes name ver ss

abbrev pub pkg_fixes : Text → Map (List Text) → List (Text × Text × Text)
pkg_fixes name [] = []
pkg_fixes name ((ver, ids) ∷ rest) = version_fixes name ver ids ++ pkg_fixes name rest

abbrev pub all_fixes : List Pkg → List (Text × Text × Text)
all_fixes [] = []
all_fixes (p ∷ ps) = pkg_fixes p.name p.secfixes ++ all_fixes ps

-- A fix of one CVE: the first word of the entry is its id, which begins with CVE.
abbrev pub fix_of : Text → Text × Text × Text → Option Package
fix_of cve_id f =
    if has_prefix (first_word f.2) (codes "CVE") && text_eq (first_word f.2) cve_id
    then some (fixed_in f.0 f.1)
    else none

add_pack-values :
    (k j : Text) (p : Package) (m : Map (List Package))
    → values j (add_pack k p m) ≡ values j m ++ to_list (if text_eq k j then some p else none)
unfolding add_pack
add_pack-values k j p m = ground (
  arith,
  lookup-insert k j (p ∷ []) m,
  lookup-insert k j (values k m ++ (p ∷ [])) m,
  text_eq_iff k j,
  append-nil (values j m),
)

guarded_add :
    (b : Bool) (k j : Text) (p : Package) (m : Map (List Package))
    → values j (if b then add_pack k p m else m)
      ≡ values j m ++ to_list (if b && text_eq k j then some p else none)
guarded_add true k j p m = add_pack-values k j p m
guarded_add false k j p m = sym (append-nil (values j m))

-- one step of a loop whose map gains the packages of `g`, and then those of `rest`
then_rest {ℓ} :
    {A : Type ℓ} (total before gained rest : List A) {middle : List A}
    → total ≡ middle ++ rest
    → middle ≡ before ++ gained
    → total ≡ before ++ (gained ++ rest)
then_rest total before gained rest h g = h ∙ ap (λ t. t ++ rest) g ∙ append_assoc before gained rest

add_vuln_ids-values :
    (name ver : Text) (ss : List Text) (m : Map (List Package)) (j : Text)
    → values j (add_vuln_ids name ver ss m)
      ≡ values j m ++ collect (fix_of j) (version_fixes name ver ss)
unfolding add_vuln_ids
add_vuln_ids-values name ver [] m j = sym (append-nil (values j m))
add_vuln_ids-values name ver (s ∷ ss) m j =
    then_rest _ (values j m) (to_list (fix_of j (name, ver, s)))
      (collect (fix_of j) (version_fixes name ver ss)) (add_vuln_ids-values name ver ss _ j)
      (guarded_add (has_prefix (first_word s) (codes "CVE")) (first_word s) j (fixed_in name ver) m)
    ∙ ap (λ t. values j m ++ t)
        (sym (collect-cons (fix_of j) (name, ver, s) (version_fixes name ver ss)))

add_secfixes-values :
    (name : Text) (fs : Map (List Text)) (m : Map (List Package)) (j : Text)
    → values j (add_secfixes name fs m) ≡ values j m ++ collect (fix_of j) (pkg_fixes name fs)
unfolding add_secfixes
add_secfixes-values name [] m j = sym (append-nil (values j m))
add_secfixes-values name ((ver, ids) ∷ rest) m j =
    then_rest _ (values j m) (collect (fix_of j) (version_fixes name ver ids))
      (collect (fix_of j) (pkg_fixes name rest)) (add_secfixes-values name rest _ j)
      (add_vuln_ids-values name ver ids m j)
    ∙ ap (λ t. values j m ++ t)
        (sym (collect-append (fix_of j) (version_fixes name ver ids) (pkg_fixes name rest)))

packs_by_cve-grows :
    (ps : List Pkg) (m : Map (List Package)) (j : Text)
    → values j (packs_by_cve ps m) ≡ values j m ++ collect (fix_of j) (all_fixes ps)
unfolding packs_by_cve
packs_by_cve-grows [] m j = sym (append-nil (values j m))
packs_by_cve-grows (p ∷ ps) m j =
    then_rest _ (values j m) (collect (fix_of j) (pkg_fixes p.name p.secfixes))
      (collect (fix_of j) (all_fixes ps)) (packs_by_cve-grows ps _ j)
      (add_secfixes-values p.name p.secfixes m j)
    ∙ ap (λ t. values j m ++ t)
        (sym (collect-append (fix_of j) (pkg_fixes p.name p.secfixes) (all_fixes ps)))

-- Under each id the converter collects one package for every entry of the database whose first
-- word is that id and begins with CVE, with the version that the entry is listed under.
pub packs_by_cve-values :
    (ps : List Pkg) (cve_id : Text)
    → values cve_id (packs_by_cve ps []) ≡ collect (fix_of cve_id) (all_fixes ps)
unfolding lookup
packs_by_cve-values ps cve_id = packs_by_cve-grows ps [] cve_id
