-- ===== src/Base/Int.antt =====
-- Go's `int` on a 64-bit machine: an integer, with sums reduced to the range of int64.
use Prim.Native.Nat.{ℕ, ◌+◌, ◌-◌, ◌%◌, ◌^◌, ◌<◌, ◌≤◌}
use mathlib.Core.Path.{◌≡◌, refl}
use mathlib.Core.Bool.{Bool, true, false}
use native.Mathlib.Omega.{arith}
use tekton_kueue.Base.Tests.{ltb, if◌then◌else◌}

-- `negsuc n` is -(n + 1).
pub data ℤ : Type 0 where
  pos : ℕ → ℤ
  negsuc : ℕ → ℤ

-- 2 ^ 63
abbrev pub half_word : ℕ
half_word = 9223372036854775808

-- 2 ^ 64
abbrev pub word : ℕ
word = 18446744073709551616

-- The bit pattern of an int64, and the value that a pattern stands for.
abbrev pub bits : ℤ → ℕ
bits (pos n) = n % word
bits (negsuc n) = word - 1 - n % word

abbrev pub signed : ℕ → ℤ
signed n = if ltb n half_word then pos n else negsuc (word - 1 - n)

-- `a + b` on int64
unfoldable pub add64 : ℤ → ℤ → ℤ
add64 a b = signed ((bits a + bits b) % word)

abbrev pub is_negative : ℤ → Bool
is_negative (pos n) = false
is_negative (negsuc n) = true

pub add64_of_fits : (m n : ℕ) → m + n < half_word → add64 (pos m) (pos n) ≡ pos (m + n)
unfolding add64
add64_of_fits m n h = ground arith

-- The sum of two non-negative values that does not fit is negative.
pub add64_overflow :
    (m n : ℕ)
    → m < half_word
    → n < half_word
    → half_word ≤ m + n
    → is_negative (add64 (pos m) (pos n)) ≡ true
unfolding add64
add64_overflow m n hm hn h = ground arith

half_word_lem : (half_word ≡ 2 ^ 63) × (word ≡ 2 ^ 64)
half_word_lem = (refl, refl)
