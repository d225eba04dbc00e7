-- ===== src/Base/Decimal.antt =====
-- Decimal text of Go's `strconv`: `Itoa` (also `%d` of an int) and `Atoi`, on 64-bit ints.
pub mod RoundTrip
use Prim.Native.Nat.{ℕ, zero, suc, ◌+◌, ◌-◌, ◌*◌, ◌/◌, ◌%◌, compare, Ordering}
use Prim.Native.Char.{Char, code}
use Prim.Native.String.{String}
use mathlib.Core.Path.{◌≡◌, refl}
use mathlib.Core.Bool.{Bool, true, false, ◌||◌}
use mathlib.Core.Option.{Option, none, some}
use mathlib.Core.List.{List, [], ◌∷◌}
use tekton_kueue.Base.Tests.{ltb, leb, if◌then◌else◌}
use tekton_kueue.Base.Results.{Result, ok, err, errorf}
use tekton_kueue.Base.Int.{ℤ, pos, negsuc, half_word}

-- The digit of a number below ten.
digit : ℕ → Char
digit zero = "0"
digit (suc zero) = "1"
digit (suc (suc zero)) = "2"
digit (suc (suc (suc zero))) = "3"
digit (suc (suc (suc (suc zero)))) = "4"
digit (suc (suc (suc (suc (suc zero))))) = "5"
digit (suc (suc (suc (suc (suc (suc zero)))))) = "6"
digit (suc (suc (suc (suc (suc (suc (suc zero))))))) = "7"
digit (suc (suc (suc (suc (suc (suc (suc (suc zero)))))))) = "8"
digit _ = "9"

-- The digits of `n` in front of `tail`; the fuel is a bound on their number.
print_digits : ℕ → ℕ → String → String
print_digits zero n tail = tail
print_digits (suc fuel) n tail =
    let rest = print_digits fuel (n / 10) (String.◌∷◌ (digit (n % 10)) tail) in
    if leb n 9 then String.◌∷◌ (digit n) tail else rest

-- An int64 has at most 19 digits.
unfoldable pub itoa : ℤ → String
unfolding print_digits digit
itoa (pos n) = print_digits 20 n ""
itoa (negsuc n) = String.◌∷◌ "-" (print_digits 20 (suc n) "")

-- The number that `s` spells behind the digits of `n`; `none` at any other character.
scan_digits : ℕ → String → Option ℕ
scan_digits n String.[] = some n
scan_digits n (String.◌∷◌ c s) =
    if ltb (code c) b'0' || ltb b'9' (code c)
    then none
    else scan_digits (n * 10 + (code c - b'0')) s

-- An empty run of digits is a syntax error.
digits_value : String → Option ℕ
unfolding scan_digits
digits_value String.[] = none
digits_value (String.◌∷◌ c s) = scan_digits 0 (String.◌∷◌ c s)

-- `*NumError`, for bad syntax and for a value out of range.
abbrev bad_number : String → Result ℤ
bad_number s = err (errorf "strconv.Atoi: parsing %q" (s ∷ []))

in_range_pos : String → Option ℕ → Result ℤ
in_range_pos s none = bad_number s
in_range_pos s (some n) = if ltb n half_word then ok (pos n) else bad_number s

in_range_neg : String → Option ℕ → Result ℤ
in_range_neg s none = bad_number s
in_range_neg s (some zero) = ok (pos 0)
in_range_neg s (some (suc n)) = if ltb n half_word then ok (negsuc n) else bad_number s

abbrev is_code : Char → ℕ → Bool
is_code c n = elim (compare (code c) n) [ Ordering.eq ↦ true | _ ↦ false ]

unfoldable pub atoi : String → Result ℤ
unfolding digits_value in_range_pos in_range_neg
atoi String.[] = bad_number ""
atoi (String.◌∷◌ c s) =
    if is_code c b'-'
    then in_range_neg (String.◌∷◌ c s) (digits_value s)
    else if is_code c b'+'
    then in_range_pos (String.◌∷◌ c s) (digits_value s)
    else in_range_pos (String.◌∷◌ c s) (digits_value (String.◌∷◌ c s))

tests :
    (itoa (pos 0) ≡ "0")
    × (itoa (pos 907) ≡ "907")
    × (itoa (negsuc 41) ≡ "-42")
    × (atoi "0042" ≡ ok (pos 42))
    × (atoi "-7" ≡ ok (negsuc 6))
    × (atoi "+3" ≡ ok (pos 3))
    × (atoi "9223372036854775808" ≡ bad_number "9223372036854775808")
    × (atoi "-9223372036854775808" ≡ ok (negsuc 9223372036854775807))
    × (atoi "" ≡ bad_number "")
    × (atoi "1a" ≡ bad_number "1a")
    × (atoi "-" ≡ bad_number "-")
unfolding itoa atoi
tests = (refl, refl, refl, refl, refl, refl, refl, refl, refl, refl, refl)
