-- ===== src/Numbers.antt =====
-- strconv: the decimal integers of Go, which have 64 bits.
use Prim.Native.Char.{Char, code}
use Prim.Native.String.{[], ◌∷◌}
use soarcore.Common.{
  ℕ, zero, suc, ◌+◌, ◌-◌, ◌*◌, String, Bool, ◌&&◌, Option, none, some, leb, ltb, ◌==◌,
  if◌then◌else◌,
}
use soarcore.Common.Int.{ℤ, pos, negsuc}

abbrev pub is_digit : Char → Bool
is_digit c = leb 48 (code c) && leb (code c) 57

-- The digits of a number after its first, by the value so far.
unfoldable pub digits : ℕ → String → Option ℕ
digits n [] = some n
digits n (c ∷ s) = let rest = digits (n * 10 + (code c - 48)) s in if is_digit c then rest else none

abbrev pub number : String → Option ℕ
number [] = none
number (c ∷ s) = digits 0 (c ∷ s)

abbrev pub negative : ℕ → ℤ
negative zero = pos 0
negative (suc n) = negsuc n

-- The bound of an int.
abbrev pub max_int : ℕ
max_int = 9223372036854775807

-- `strconv.Atoi`, none where it reports an error.
abbrev in_range : (ℕ → ℤ) → ℕ → Option ℕ → Option ℤ
in_range sign bound none = none
in_range sign bound (some n) = if ltb bound n then none else some (sign n)

unfoldable pub parse_int : String → Option ℤ
unfolding digits
parse_int [] = none
parse_int (c ∷ s) =
    if code c == b'-'
    then in_range negative (max_int + 1) (number s)
    else if code c == b'+'
    then in_range pos max_int (number s)
    else in_range pos max_int (number (c ∷ s))
