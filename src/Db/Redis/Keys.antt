-- ===== src/Db/Redis/Keys.antt =====
-- The key formats of db/redis.go.
use goval_dictionary_v.Prelude.{◌≡◌, refl, Bool, true, false, ◌&&◌, ◌++◌}
use goval_dictionary_v.Text.{Text, codes, text_eq}
use goval_dictionary_v.Text.Equality.{text_eq-append}

-- OVAL#$OSFAMILY#$VERSION#
unfoldable pub scope : Text → Text → Text
scope family os_ver = codes "OVAL#" ++ (family ++ (codes "#" ++ (os_ver ++ codes "#")))

unfoldable pub def_key : Text → Text → Text
def_key family os_ver = scope family os_ver ++ codes "DEF"

unfoldable pub cve_key : Text → Text → Text → Text
cve_key family os_ver cve_id = scope family os_ver ++ (codes "CVE#" ++ cve_id)

unfoldable pub pkg_key : Text → Text → Text → Text
pkg_key family os_ver name = scope family os_ver ++ (codes "PKG#" ++ name)

unfoldable pub dep_key : Text → Text → Text
dep_key family os_ver = scope family os_ver ++ codes "DEP"

unfoldable pub last_modified_key : Text → Text → Text
last_modified_key family os_ver = scope family os_ver ++ codes "LASTMODIFIED"

-- The two kinds of index, named by their keys in DEP.
pub data Kind : Type 0 where
  cves packages : Kind

abbrev pub kind_key : Kind → Text
kind_key cves = codes "cves"
kind_key packages = codes "packages"

-- The set that an entry of an index is kept in.
abbrev pub index_key : Text → Text → Kind → Text → Text
index_key family os_ver cves x = cve_key family os_ver x
index_key family os_ver packages x = pkg_key family os_ver x

abbrev pub same_kind : Kind → Kind → Bool
same_kind cves cves = true
same_kind cves packages = false
same_kind packages cves = false
same_kind packages packages = true

pub kind_key_eq : (a b : Kind) → text_eq (kind_key a) (kind_key b) ≡ same_kind a b
unfolding text_eq
kind_key_eq cves cves = refl
kind_key_eq cves packages = refl
kind_key_eq packages cves = refl
kind_key_eq packages packages = refl

module _ (f v : Text) where
  -- Entries share a set only if they are the same.
  pub index_key_eq :
      (a b : Kind) (x y : Text)
      → text_eq (index_key f v a x) (index_key f v b y) ≡ (same_kind a b && text_eq x y)
  unfolding cve_key pkg_key
  index_key_eq cves cves x y =
      rw
        (
          text_eq-append (scope f v) (codes "CVE#" ++ x) (codes "CVE#" ++ y),
          text_eq-append (codes "CVE#") x y,
        )
        refl
  index_key_eq cves packages x y =
      rw (text_eq-append (scope f v) (codes "CVE#" ++ x) (codes "PKG#" ++ y))
        (unfold text_eq in refl)
  index_key_eq packages cves x y =
      rw (text_eq-append (scope f v) (codes "PKG#" ++ x) (codes "CVE#" ++ y))
        (unfold text_eq in refl)
  index_key_eq packages packages x y =
      rw
        (
          text_eq-append (scope f v) (codes "PKG#" ++ x) (codes "PKG#" ++ y),
          text_eq-append (codes "PKG#") x y,
        )
        refl

  pub dep-ne-index : (a : Kind) (x : Text) → text_eq (dep_key f v) (index_key f v a x) ≡ false
  unfolding cve_key pkg_key dep_key
  dep-ne-index cves x =
      rw (text_eq-append (scope f v) (codes "DEP") (codes "CVE#" ++ x)) (unfold text_eq in refl)
  dep-ne-index packages x =
      rw (text_eq-append (scope f v) (codes "DEP") (codes "PKG#" ++ x)) (unfold text_eq in refl)

  pub last-ne-index :
      (a : Kind) (x : Text) → text_eq (last_modified_key f v) (index_key f v a x) ≡ false
  unfolding cve_key pkg_key last_modified_key
  last-ne-index cves x =
      rw (text_eq-append (scope f v) (codes "LASTMODIFIED") (codes "CVE#" ++ x))
        (unfold text_eq in refl)
  last-ne-index packages x =
      rw (text_eq-append (scope f v) (codes "LASTMODIFIED") (codes "PKG#" ++ x))
        (unfold text_eq in refl)

  pub dep-ne-def : text_eq (dep_key f v) (def_key f v) ≡ false
  unfolding dep_key def_key
  dep-ne-def = rw (text_eq-append (scope f v) (codes "DEP") (codes "DEF")) (unfold text_eq in refl)

  pub last-ne-def : text_eq (last_modified_key f v) (def_key f v) ≡ false
  unfolding last_modified_key def_key
  last-ne-def =
      rw (text_eq-append (scope f v) (codes "LASTMODIFIED") (codes "DEF")) (unfold text_eq in refl)

  pub last-ne-dep : text_eq (last_modified_key f v) (dep_key f v) ≡ false
  unfolding last_modified_key dep_key
  last-ne-dep =
      rw (text_eq-append (scope f v) (codes "LASTMODIFIED") (codes "DEP")) (unfold text_eq in refl)
