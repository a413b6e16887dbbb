-- ===== src/Converters/Suse/Platform.antt =====
-- models/suse/suse.go: isOSComment, getOSVersion and isInt, which read the release from the comment
-- of a criterion. What NewVersion of hashicorp/go-version accepts is the parameter `is_version`.
pub mod Laws
use goval_dictionary_v.Prelude.{
  ℕ, zero, suc, ◌-◌, Bool, true, false, not, ◌&&◌, ◌||◌, Option, none, some, List, [], ◌∷◌, ◌++◌,
  length, take, drop, leb, ltb, reverse, if◌then◌else◌,
}
use goval_dictionary_v.Outcome.{Outcome, ok, err, panic, ◌>>=◌, bad_version}
use goval_dictionary_v.Text.{
  Text, codes, text_eq, has_prefix, has_suffix, contains, trim_prefix, split, fields,
}
use goval_dictionary_v.Text.Numbers.{atoi, format_int}

unfoldable pub is_os_comment : Text → Bool
is_os_comment comment =
    if not (has_suffix comment (codes "is installed"))
    then false
    else if has_prefix comment (codes "suse1")
        || text_eq comment (codes "core9 is installed")
        || (has_prefix comment (codes "sles10") && not (contains comment (codes "-docker-image-")))
        || has_prefix comment (codes "sled10")
        || has_prefix comment (codes "openSUSE")
        || has_prefix comment (codes "SUSE Linux Enterprise")
        || has_prefix comment (codes "SUSE Manager")
    then true
    else false

unfoldable pub is_int : Text → Bool
is_int s = elim (atoi s) [ none ↦ false | some n ↦ true ]

-- fmt.Sprintf("%s.%s", a, b)
abbrev pub dotted : Text → Text → Text
dotted a b = a ++ (46 ∷ b)

-- strings.NewReplacer with empty replacements: the first of the words that the text goes on with
-- is left out, where the first `skip` bytes belong to a word that is.
first_prefix : List Text → Text → ℕ
first_prefix [] s = 0
first_prefix (w ∷ ws) s = if has_prefix s w then length w else first_prefix ws s

unfoldable pub remove_words : List Text → Text → ℕ → Text
unfolding first_prefix
remove_words ws [] skip = []
remove_words ws (c ∷ s) (suc skip) = remove_words ws s skip
remove_words ws (c ∷ s) zero = elim (first_prefix ws (c ∷ s)) [
  | zero ↦ c ∷ remove_words ws s zero
  | suc n ↦ remove_words ws s n
]

unfoldable pub version_replacer : List Text
version_replacer =
    codes "-SECURITY"
    ∷ codes "-LTSS"
    ∷ codes "-TERADATA"
    ∷ codes "-CLIENT-TOOLS"
    ∷ codes "-PUBCLOUD"
    ∷ []

module _ (is_version : Text → Bool) where
  -- version.NewVersion, and the version where it accepts it
  unfoldable pub checked : Text → Outcome Text
  checked v = if is_version v then ok v else err bad_version

  -- ss[0][:2] and ss[0][2:], which are out of range where the piece has fewer than 2 bytes
  unfoldable pub suse_piece : List Text → Outcome Text
  suse_piece [] = panic
  suse_piece (p ∷ ps) = if ltb (length p) 2 then panic else checked (dotted (take 2 p) (drop 2 p))

  -- the branch of "suse", on what follows
  unfoldable pub suse_release : Text → Outcome Text
  suse_release s = if ltb (length s) 3 then err bad_version else suse_piece (split s (codes "-"))

  -- the branches of "sled" and of "sles", on the pieces of what follows
  unfoldable pub service_pack : List Text → Outcome Text
  service_pack [] = err bad_version
  service_pack (major ∷ []) = checked major
  service_pack (major ∷ sp ∷ []) =
      if has_prefix sp (codes "sp")
      then checked (dotted major (trim_prefix sp (codes "sp")))
      else checked major
  service_pack (major ∷ sp ∷ p ∷ ps) = checked (dotted major (trim_prefix sp (codes "sp")))

  -- "openSUSE Leap 15.0": the third word
  unfoldable pub leap_release : List Text → Outcome Text
  leap_release [] = err bad_version
  leap_release (a ∷ []) = err bad_version
  leap_release (a ∷ b ∷ []) = err bad_version
  leap_release (a ∷ b ∷ v ∷ ws) = checked v

  -- "openSUSE 13.2" and "openSUSE Tumbleweed": the second word
  unfoldable pub opensuse_release : List Text → Outcome Text
  opensuse_release [] = err bad_version
  opensuse_release (a ∷ []) = err bad_version
  opensuse_release (a ∷ v ∷ ws) =
      if text_eq v (codes "Tumbleweed") then ok (codes "tumbleweed") else checked v

  -- the service pack in the last word, without what follows a "-", and the word before it
  unfoldable pub numbered_pack : Option Text → List Text → Outcome Text
  numbered_pack major [] = panic
  numbered_pack major (sp ∷ ps) = elim (atoi (trim_prefix sp (codes "SP"))) [
    | none ↦ err bad_version
    | some n ↦ elim major [ none ↦ panic | some m ↦ ok (dotted m (format_int n)) ]
  ]

  -- "SUSE Linux Enterprise Server 12 SP1-LTSS": on the words in reverse order, of which the code
  -- reads the last, and the last but one
  unfoldable pub enterprise_release : List Text → Outcome Text
  enterprise_release [] = panic
  enterprise_release (last ∷ []) =
      if has_prefix last (codes "SP") then numbered_pack none (split last (codes "-")) else panic
  enterprise_release (last ∷ major ∷ ws) =
      if has_prefix last (codes "SP") || is_int major
      then numbered_pack (some major) (split last (codes "-"))
      else checked (remove_words version_replacer last zero)

  unfoldable pub get_os_version : Text → Outcome Text
  get_os_version name =
      if has_prefix name (codes "suse")
      then suse_release (trim_prefix name (codes "suse"))
      else if has_prefix name (codes "sled")
      then service_pack (split (trim_prefix name (codes "sled")) (codes "-"))
      else if has_prefix name (codes "sles")
      then service_pack (split (trim_prefix name (codes "sles")) (codes "-"))
      else if has_prefix name (codes "core9")
      then ok (codes "9")
      else if has_prefix name (codes "openSUSE")
      then (if has_prefix name (codes "openSUSE Leap")
          then leap_release (fields name)
          else opensuse_release (fields name))
      else if has_prefix name (codes "SUSE Linux Enterprise")
      then (if has_prefix name (codes "SUSE Linux Enterprise Storage")
            || has_prefix name (codes "SUSE Linux Enterprise Micro")
          then ok []
          else enterprise_release (reverse (fields name)))
      else if has_prefix name (codes "SUSE Manager")
      then ok []
      else err bad_version
