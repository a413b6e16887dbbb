-- ===== src/Text.antt =====
-- Go's strings as lists of bytes, and the functions of package strings that the source calls.
pub mod Equality
pub mod Pieces
pub mod Numbers
pub mod Cut
pub mod Enclosed
use Prim.Native.Char.{code}
use Prim.Native.String.{String}
use goval_dictionary_v.Prelude.{
  ℕ, zero, suc, ◌-◌, Bool, true, false, ◌&&◌, ◌||◌, List, [], ◌∷◌, ◌++◌, reverse, length, take,
  drop, leb, ◌==◌, if◌then◌else◌,
}

abbrev pub Text : Type 0
Text = List ℕ

-- The bytes of an ASCII literal.
abbrev pub codes : String → Text
codes String.[] = []
codes (String.◌∷◌ c s) = code c ∷ codes s

unfoldable pub text_eq : Text → Text → Bool
text_eq [] [] = true
text_eq [] (b ∷ t) = false
text_eq (a ∷ s) [] = false
text_eq (a ∷ s) (b ∷ t) = a == b && text_eq s t

-- strings.HasPrefix
unfoldable pub has_prefix : Text → Text → Bool
has_prefix s [] = true
has_prefix [] (p ∷ ps) = false
has_prefix (c ∷ s) (p ∷ ps) = c == p && has_prefix s ps

-- strings.HasSuffix
unfoldable pub has_suffix : Text → Text → Bool
unfolding has_prefix
has_suffix s suffix = has_prefix (reverse s) (reverse suffix)

-- strings.Contains
unfoldable pub contains : Text → Text → Bool
unfolding has_prefix
contains [] sub = has_prefix [] sub
contains (c ∷ s) sub = has_prefix (c ∷ s) sub || contains s sub

-- strings.TrimPrefix and strings.TrimSuffix
unfoldable pub trim_prefix : Text → Text → Text
unfolding has_prefix
trim_prefix s prefix = if has_prefix s prefix then drop (length prefix) s else s

unfoldable pub trim_suffix : Text → Text → Text
unfolding has_suffix
trim_suffix s suffix = if has_suffix s suffix then take (length s - length suffix) s else s

-- A byte put before the first piece.
abbrev pub push : ℕ → List Text → List Text
push c [] = (c ∷ []) ∷ []
push c (p ∷ ps) = (c ∷ p) ∷ ps

-- The pieces between the separators, where the first `skip` bytes belong to one already read.
unfoldable pub pieces : Text → Text → ℕ → List Text
unfolding has_prefix
pieces sep [] skip = [] ∷ []
pieces sep (c ∷ s) (suc skip) = pieces sep s skip
pieces sep (c ∷ s) zero = elim (has_prefix (c ∷ s) sep) [
  | true ↦ [] ∷ pieces sep s (length sep - 1)
  | false ↦ push c (pieces sep s zero)
]

-- strings.Split; the source never calls it with an empty separator.
unfoldable pub split : Text → Text → List Text
unfolding pieces
split s sep = pieces sep s zero

-- strings.Join
unfoldable pub join : List Text → Text → Text
join [] sep = []
join (p ∷ []) sep = p
join (p ∷ q ∷ ps) sep = p ++ (sep ++ join (q ∷ ps) sep)

-- The length of the white space of unicode.IsSpace that a text begins with, and 0 if there is
-- none. No byte after a lead byte is a lead byte, so reading on byte by byte stays in step.
unfoldable pub space_width : Text → ℕ
space_width [] = 0
space_width (a ∷ []) = if (leb 9 a && leb a 13) || a == 32 then 1 else 0
space_width (a ∷ b ∷ []) =
    if (leb 9 a && leb a 13) || a == 32
    then 1
    else if a == 0xc2 && (b == 0x85 || b == 0xa0)
    then 2
    else 0
space_width (a ∷ b ∷ c ∷ s) =
    if (leb 9 a && leb a 13) || a == 32
    then 1
    else if a == 0xc2 && (b == 0x85 || b == 0xa0)
    then 2
    else if (a == 0xe1 && b == 0x9a && c == 0x80)
        || (a == 0xe2
            && b == 0x80
            && ((leb 0x80 c && leb c 0x8a) || c == 0xa8 || c == 0xa9 || c == 0xaf))
        || (a == 0xe2 && b == 0x81 && c == 0x9f)
        || (a == 0xe3 && b == 0x80 && c == 0x80)
    then 3
    else 0

-- strings.Fields: `words` has the open word first, which may be empty.
words : Text → ℕ → List Text
unfolding space_width
words [] skip = [] ∷ []
words (c ∷ s) (suc skip) = words s skip
words (c ∷ s) zero =
    let width = space_width (c ∷ s) in
    elim (width == 0) [ true ↦ push c (words s zero) | false ↦ [] ∷ words s (width - 1) ]

nonempty : List Text → List Text
nonempty [] = []
nonempty ([] ∷ ws) = nonempty ws
nonempty ((c ∷ w) ∷ ws) = (c ∷ w) ∷ nonempty ws

unfoldable pub fields : Text → List Text
unfolding words nonempty
fields s = nonempty (words s zero)

-- strings.TrimSpace: what leads is cut, and then what follows the last word.
trim_left : Text → ℕ → Text
unfolding space_width
trim_left [] skip = []
trim_left (c ∷ s) (suc skip) = trim_left s skip
trim_left (c ∷ s) zero =
    let width = space_width (c ∷ s) in
    elim (width == 0) [ true ↦ c ∷ s | false ↦ trim_left s (width - 1) ]

trim_right : Text → Text
unfolding trim_left
trim_right [] = []
trim_right (c ∷ s) =
    let rest = trim_right s in elim (trim_left (c ∷ s) zero) [ [] ↦ [] | d ∷ t ↦ c ∷ rest ]

unfoldable pub trim_space : Text → Text
unfolding trim_left trim_right
trim_space s = trim_right (trim_left s zero)
