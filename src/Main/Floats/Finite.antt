-- ===== src/Main/Floats/Finite.antt =====
-- cmd/main.go, lines 358-363: the rate as a float32 is finite, and nearest to the given float64.
use mathlib.Core.Path.{subst}
use native.Mathlib.Nat.{add-mul, mod-lt, div-add-mod, mul-le-mul_left, pow-le-pow_right}
use tekton_kueue.Base.{
  ℕ, ◌+◌, ◌-◌, ◌*◌, ◌/◌, ◌%◌, ◌^◌, ◌≤◌, ◌<◌, true, false, ◌&&◌, ◌||◌, ltb, leb, if◌then◌else◌, ◌≡◌,
  refl, ◌↔◌, arith, Bool-cases, inl, inr, ◌⊎◌,
}
use tekton_kueue.Main.Floats.{
  sign_bit64, sign_bit32, inf32, max_float32, magnitude64, round_even, to_float32_magnitude,
  guard_lem, safe_float64_to_float32_or_zero,
}

normal_lem : (m : ℕ) → 4039728865751334912 ≤ m → m ≤ max_float32 → to_float32_magnitude m < inf32
normal_lem m g h = ground arith

small_lem : (m : ℕ) → m < 4503599627370496 → to_float32_magnitude m < inf32
small_lem m h = ground arith

half_lem : (m d : ℕ) → round_even m d ≤ m / d + 1
half_lem m d = ground arith

div_lem : (m d : ℕ) → 1073741824 ≤ d → m < 9007199254740992 → m / d < 8388609
div_lem m d g h = ground (arith, mul-le-mul_left (m / d) g)

subnormal_lem :
    (m : ℕ) → 4503599627370496 ≤ m → m < 4039728865751334912 → to_float32_magnitude m < inf32
subnormal_lem m g h =
    let d : ℕ = 2 ^ (926 - m / 4503599627370496) in
    let big : 1073741824 ≤ d =
      pow-le-pow_right {n = 2} (omega arith) {i = 30} {j = 926 - m / 4503599627370496}
        (omega arith) in
    let n : ℕ = 4503599627370496 + m % 4503599627370496 in
    let small : n < 9007199254740992 = omega arith in
    ground (arith, half_lem n d, div_lem n d big small)

to_float32-IsFinite : (m : ℕ) → m ≤ max_float32 → to_float32_magnitude m < inf32
to_float32-IsFinite m h = elim (Bool-cases (leb 4039728865751334912 m)) [
  | inl e ↦ normal_lem m (ground arith) h
  | inr e ↦ elim (Bool-cases (ltb m 4503599627370496)) [
    | inl f ↦ small_lem m (ground arith)
    | inr f ↦ subnormal_lem m (ground arith) (ground arith)
  ]
]

-- `x` is the number nearest to `n / d`, and of two nearest ones the even one.
pub record IsNearest (n d x : ℕ) : Type 0 where
  pub above : 2 * (x * d) ≤ 2 * n + d
  pub below : 2 * n ≤ 2 * (x * d) + d
  pub even : (2 * (x * d) ≡ 2 * n + d) ⊎ (2 * n ≡ 2 * (x * d) + d) → x % 2 ≡ 0

-- What `float32` makes of a magnitude `m` in its range, in the three ranges of the exponent: the bits of
-- normal numbers are the exponent, moved from the one bias to the other, and 23 bits of the fraction, in
-- place of 52; subnormal numbers are the multiples of 2 ^ -149; subnormal float64s are 0.
pub record IsConverted (m x : ℕ) : Type 0 where
  pub normal : 897 * 2 ^ 52 ≤ m → IsNearest (m - 896 * 2 ^ 52) (2 ^ 29) x
  pub subnormal :
      2 ^ 52 ≤ m → m < 897 * 2 ^ 52 → IsNearest (2 ^ 52 + m % 2 ^ 52) (2 ^ (926 - m / 2 ^ 52)) x
  pub tiny : m < 2 ^ 52 → x ≡ 0

next_lem : (q d : ℕ) → (q + 1) * d ≡ q * d + d
next_lem q d = rw (add-mul q 1 d) (omega arith)

nearest_lem :
    (n d q r : ℕ)
    → n ≡ q * d + r
    → r < d
    → IsNearest n d (if ltb d (2 * r) || (leb d (2 * r) && ltb 0 (q % 2)) then q + 1 else q)
nearest_lem n d q r e h =
    let next : (q + 1) * d ≡ q * d + d = next_lem q d in
    elim (Bool-cases (ltb d (2 * r) || (leb d (2 * r) && ltb 0 (q % 2)))) [
      | inl up ↦ rw up (record {
        above = ground (arith, next);
        below = ground (arith, next);
        even = λ tie. ground (arith, next);
      })
      | inr down ↦
          rw down
            (record { above = ground arith; below = ground arith; even = λ tie. ground arith })
    ]

round_even-IsNearest : (n d : ℕ) → 0 < d → IsNearest n d (round_even n d)
round_even-IsNearest n d h =
    nearest_lem n d (n / d) (n % d) (grind (arith, div-add-mod n d)) (mod-lt n h)

leb_lem : (a m : ℕ) → a ≤ m → leb a m ≡ true
leb_lem a m h = ground arith

normal_range :
    (m : ℕ)
    → 4039728865751334912 ≤ m
    → to_float32_magnitude m ≡ round_even (m - 4035225266123964416) 536870912
normal_range m h = rw (leb_lem 4039728865751334912 m h) refl

subnormal_range :
    (m : ℕ)
    → 4503599627370496 ≤ m
    → m < 4039728865751334912
    → to_float32_magnitude m
      ≡ round_even (4503599627370496 + m % 4503599627370496) (2 ^ (926 - m / 4503599627370496))
subnormal_range m h g =
    let e : leb 4039728865751334912 m ≡ false = ground arith in
    let f : ltb m 4503599627370496 ≡ false = ground arith in rw (e, f) refl

to_float32-IsConverted : (m : ℕ) → IsConverted m (to_float32_magnitude m)
to_float32-IsConverted m = record {
  normal = λ h.
      rw (normal_range m h)
        (round_even-IsNearest (m - 4035225266123964416) 536870912 (omega arith));
  subnormal = λ h g. rw (subnormal_range m h g) (
      round_even-IsNearest (4503599627370496 + m % 4503599627370496)
        (2 ^ (926 - m / 4503599627370496))
        (pow-le-pow_right {n = 2} (omega arith) {i = 0} {j = 926 - m / 4503599627370496}
          (omega arith)));
  tiny = λ h. ground arith;
}

-- The rate that the client gets is a finite float32, never an infinity or a NaN. It is flagged as valid
-- exactly if the given float64 is in the range of a float32: then it has its sign and is the float32
-- nearest to it, with ties to the even one. Else it is 0.
pub safe_float64_to_float32_or_zero-IsFinite :
    (v : ℕ)
    → v < 2 * sign_bit64
    → (((safe_float64_to_float32_or_zero v).0 % sign_bit32) < inf32)
      × (((safe_float64_to_float32_or_zero v).1 ≡ true) ↔ (magnitude64 v ≤ max_float32))
      × (((safe_float64_to_float32_or_zero v).1 ≡ true)
          → IsConverted (magnitude64 v) ((safe_float64_to_float32_or_zero v).0 % sign_bit32)
            × ((sign_bit32 ≤ (safe_float64_to_float32_or_zero v).0) ↔ (sign_bit64 ≤ v)))
      × (((safe_float64_to_float32_or_zero v).1 ≡ false)
          → (safe_float64_to_float32_or_zero v).0 ≡ 0)
unfolding safe_float64_to_float32_or_zero
safe_float64_to_float32_or_zero-IsFinite v h = elim (Bool-cases (ltb max_float32 (magnitude64 v))) [
  | inl e ↦
      rw (guard_lem v h, e) (ground arith, ground arith, λ f. absurd (ground arith), ground arith)
  | inr e ↦
      let fits : to_float32_magnitude (magnitude64 v) < inf32 =
        to_float32-IsFinite (magnitude64 v) (ground arith) in
      let converted = to_float32-IsConverted (magnitude64 v) in
      rw (guard_lem v h, e)
        (
          ground arith,
          ground arith,
          λ _. (subst (IsConverted (magnitude64 v)) (ground arith) converted, ground arith),
          ground arith,
        )
]
