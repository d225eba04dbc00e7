-- ===== src/Main/Floats.antt =====
-- cmd/main.go, lines 358-363: the rate of the API client, a float64 from the command line that has to
-- be a float32. Both are their IEEE 754 bit patterns, so that the code runs on numbers.
pub mod Finite
use mathlib.Core.Path.{subst}
use native.Mathlib.Nat.{add-mul, mod-lt, div-add-mod, mul-le-mul_left, pow-le-pow_right}
use tekton_kueue.Base.{
  ℕ, ◌+◌, ◌-◌, ◌*◌, ◌/◌, ◌%◌, ◌^◌, ◌≤◌, ◌<◌, Bool, true, false, ◌&&◌, ◌||◌, ltb, leb, if◌then◌else◌,
  ◌≡◌, refl, ap, ◌∙◌, ◌↔◌, arith, Bool-cases, inl, inr, ◌⊎◌,
}

-- 2 ^ 63, the bit of the sign of a float64; the bits below it are its magnitude, whose order is that of
-- the absolute values.
abbrev pub sign_bit64 : ℕ
sign_bit64 = 9223372036854775808

-- 2 ^ 31, for a float32
abbrev pub sign_bit32 : ℕ
sign_bit32 = 2147483648

-- The magnitudes of the infinities; those of the NaNs are above them.
abbrev pub inf64 : ℕ
inf64 = 9218868437227405312

abbrev pub inf32 : ℕ
inf32 = 2139095040

-- `math.MaxFloat32` as a float64
abbrev pub max_float32 : ℕ
max_float32 = 5183643170566569984

abbrev pub is_negative64 : ℕ → Bool
is_negative64 v = leb sign_bit64 v

abbrev pub magnitude64 : ℕ → ℕ
magnitude64 v = v % sign_bit64

-- `math.IsNaN(v)` and `math.IsInf(v, 0)`
abbrev pub is_nan : ℕ → Bool
is_nan v = ltb inf64 (magnitude64 v)

abbrev pub is_inf : ℕ → Bool
is_inf v = leb inf64 (magnitude64 v) && leb (magnitude64 v) inf64

-- `-v`
abbrev pub negate : ℕ → ℕ
negate v = if is_negative64 v then v - sign_bit64 else v + sign_bit64

-- `v < w`, which is false on a NaN and on two zeros.
abbrev pub less : ℕ → ℕ → Bool
less v w =
    if is_nan v || is_nan w
    then false
    else if is_negative64 v
    then (if is_negative64 w
        then ltb (magnitude64 w) (magnitude64 v)
        else ltb 0 (magnitude64 v + magnitude64 w))
    else if is_negative64 w
    then false
    else ltb (magnitude64 v) (magnitude64 w)

-- `m / d` for an even `d`, rounded to the nearest number, and from the middle to the even one.
abbrev pub round_even : ℕ → ℕ → ℕ
round_even m d =
    if ltb d (2 * (m % d)) || (leb d (2 * (m % d)) && ltb 0 ((m / d) % 2)) then m / d + 1 else m / d

-- `float32(v)` of a finite `v`: 29 bits of the fraction of a float64 are rounded away from a number with
-- an exponent that a float32 has, and those below 2 ^ -149 from a smaller one.
abbrev pub to_float32_magnitude : ℕ → ℕ
to_float32_magnitude m =
    if leb 4039728865751334912 m
    then round_even (m - 4035225266123964416) 536870912
    else if ltb m 4503599627370496
    then 0
    else round_even (4503599627370496 + m % 4503599627370496) (2 ^ (926 - m / 4503599627370496))

abbrev pub to_float32 : ℕ → ℕ
to_float32 v =
    if is_negative64 v
    then sign_bit32 + to_float32_magnitude (magnitude64 v)
    else to_float32_magnitude (magnitude64 v)

unfoldable pub safe_float64_to_float32_or_zero : ℕ → ℕ × Bool
safe_float64_to_float32_or_zero v =
    if is_nan v || is_inf v || less v (negate max_float32) || less max_float32 v
    then (0, false)
    else (to_float32 v, true)

tests :
    (safe_float64_to_float32_or_zero 4591870180066957722 ≡ (1036831949, true))
    × (safe_float64_to_float32_or_zero 4626322717216342016 ≡ (1101004800, true))
    × (safe_float64_to_float32_or_zero 3978451973076164153 ≡ (714, true))
unfolding safe_float64_to_float32_or_zero
tests = (refl, refl, refl)

guard_lem :
    (v : ℕ)
    → v < 2 * sign_bit64
    → (is_nan v || is_inf v || less v (negate max_float32) || less max_float32 v)
      ≡ ltb max_float32 (magnitude64 v)
guard_lem v h = ground arith

-- The value of a float32 as a float64: every normal number has one, and a zero.
abbrev pub to_float64_magnitude : ℕ → ℕ
to_float64_magnitude x = if ltb 0 x then x * 536870912 + 4035225266123964416 else 0

abbrev pub to_float64 : ℕ → ℕ
to_float64 x =
    if leb sign_bit32 x
    then sign_bit64 + to_float64_magnitude (x - sign_bit32)
    else to_float64_magnitude x

-- The bits of a float32 that is a normal number, or a zero, of either sign.
abbrev IsNormal : ℕ → Type 0
IsNormal m = (m ≡ 0) ⊎ ((8388608 ≤ m) × (m < inf32))

abbrev pub IsNormal32 : ℕ → Type 0
IsNormal32 x = (x < 2 * sign_bit32) × IsNormal (x % sign_bit32)

to_float64_magnitude_lem :
    (m : ℕ)
    → IsNormal m
    → (to_float64_magnitude m ≤ max_float32) × (to_float32_magnitude (to_float64_magnitude m) ≡ m)
to_float64_magnitude_lem m (inl e) = rw e (omega arith, refl)
to_float64_magnitude_lem m (inr (low, high)) = (ground arith, ground arith)

to_float64_split :
    (x : ℕ)
    → IsNormal32 x
    → (magnitude64 (to_float64 x) ≡ to_float64_magnitude (x % sign_bit32))
      × (is_negative64 (to_float64 x) ≡ leb sign_bit32 x)
      × (to_float64 x < 2 * sign_bit64)
to_float64_split x h = (ground arith, ground arith, ground arith)

not_below : (m n : ℕ) → m ≤ n → ltb n m ≡ false
not_below m n h = ground arith

to_float32_lem :
    (v x : ℕ)
    → is_negative64 v ≡ leb sign_bit32 x
    → to_float32_magnitude (magnitude64 v) ≡ x % sign_bit32
    → x < 2 * sign_bit32
    → to_float32 v ≡ x
to_float32_lem v x sign back h = elim (Bool-cases (leb sign_bit32 x)) [
  | inl e ↦ rw (sign ∙ e, back) (ground arith)
  | inr e ↦ rw (sign ∙ e, back) (ground arith)
]

-- A rate that a float32 holds exactly, as a zero or a normal number, is passed on as it is.
pub safe_float64_to_float32_or_zero-to_float64 :
    (x : ℕ) → IsNormal32 x → safe_float64_to_float32_or_zero (to_float64 x) ≡ (x, true)
unfolding safe_float64_to_float32_or_zero
safe_float64_to_float32_or_zero-to_float64 x h =
    let (magnitude, sign, fits) = to_float64_split x h in
    let (small, back) = to_float64_magnitude_lem (x % sign_bit32) (h.1) in
    let e : ltb max_float32 (magnitude64 (to_float64 x)) ≡ false =
      rw magnitude (not_below _ _ small) in
    let f : to_float32 (to_float64 x) ≡ x =
      to_float32_lem (to_float64 x) x sign (ap to_float32_magnitude magnitude ∙ back) (h.0) in
    rw (guard_lem (to_float64 x) fits, e, f) refl
