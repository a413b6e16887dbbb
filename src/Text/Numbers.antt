-- ===== src/Text/Numbers.antt =====
-- Numbers in texts: what the source uses of package strconv and of the verb %d of package fmt, with
-- the 64 bits of an int.
use Prim.Native.Nat.{◌%◌}
use goval_dictionary_v.Prelude.{
  ℕ, zero, suc, ◌+◌, ◌-◌, ◌*◌, ◌/◌, ◌≤◌, ◌≡◌, Bool, true, false, ◌&&◌, Option, none, some, [], ◌∷◌,
  arith, leb, ltb, ◌==◌, if◌then◌else◌,
}
use goval_dictionary_v.Text.{Text}

pub data ℤ : Type 0 where
  pos negsuc : ℕ → ℤ

-- The digits read on from the number before them.
unfoldable pub parse_digits : ℕ → Text → Option ℕ
parse_digits n [] = some n
parse_digits n (c ∷ s) =
    let rest = parse_digits (n * 10 + (c - 48)) s in if leb 48 c && leb c 57 then rest else none

-- 2 ^ 63
abbrev pub int_limit : ℕ
int_limit = 9223372036854775808

negated : ℕ → ℤ
negated zero = pos 0
negated (suc n) = negsuc n

in_int : Bool → Option ℕ → Option ℤ
unfolding negated
in_int negative none = none
in_int true (some n) = if leb n int_limit then some (negated n) else none
in_int false (some n) = if ltb n int_limit then some (pos n) else none

unsigned : Bool → Text → Option ℤ
unfolding in_int parse_digits
unsigned negative [] = none
unsigned negative (c ∷ s) = in_int negative (parse_digits 0 (c ∷ s))

-- strconv.Atoi: a sign at most, then digits, at least one.
unfoldable pub atoi : Text → Option ℤ
unfolding unsigned
atoi [] = none
atoi (c ∷ s) =
    if c == 43
    then unsigned false s
    else if c == 45
    then unsigned true s
    else unsigned false (c ∷ s)

-- The digits of a number before those given; a number has at most as many digits as its value, and
-- one where it is 0.
decimal_from : ℕ → ℕ → Text → Text
decimal_from zero n acc = (48 + n % 10) ∷ acc
decimal_from (suc fuel) n acc = elim (ltb n 10) [
  | true ↦ (48 + n) ∷ acc
  | false ↦ decimal_from fuel (n / 10) ((48 + n % 10) ∷ acc)
]

unfoldable pub decimal : ℕ → Text
unfolding decimal_from
decimal n = decimal_from n n []

-- %d
unfoldable pub format_int : ℤ → Text
unfolding decimal
format_int (pos n) = decimal n
format_int (negsuc n) = 45 ∷ decimal (suc n)

decimal_from-parse :
    (fuel n : ℕ) (acc : Text)
    → n ≤ fuel
    → parse_digits 0 (decimal_from fuel n acc) ≡ parse_digits n acc
unfolding decimal_from parse_digits
decimal_from-parse zero n acc h = ground arith
decimal_from-parse (suc fuel) n acc h =
    ground (arith, decimal_from-parse fuel (n / 10) ((48 + n % 10) ∷ acc))

pub decimal-parse_digits : (n : ℕ) → parse_digits 0 (decimal n) ≡ some n
unfolding decimal parse_digits
decimal-parse_digits n = decimal_from-parse n n [] (omega arith)
