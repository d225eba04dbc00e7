-- ===== src/Base/Decimal/RoundTrip.antt =====
-- Every int is read back from its decimal text.
use Prim.Native.Nat.{ℕ, zero, suc, ◌+◌, ◌*◌, ◌/◌, ◌%◌, ◌^◌, ◌<◌, ◌≤◌}
use Prim.Native.Char.{code}
use Prim.Native.String.{String}
use Prim.Native.String.{len}
use Prim.Native.String.len
use mathlib.Core.Path.{◌≡◌, refl, sym, ◌∙◌, ap}
use mathlib.Core.Logic.{◌≢◌, inl, inr}
use mathlib.Core.Option.{Option, none, some}
use native.Mathlib.Nat.{pow-suc}
use native.Mathlib.Omega.{arith}
use text.Mathlib.TextLemmas.{head-eq_of_cons-eq, cons≢nil}
use tekton_kueue.Base.Tests.{leb, Bool-cases}
use mathlib.Core.List.{[], ◌∷◌}
use tekton_kueue.Base.Results.{Error, errorf, ok, err}
use tekton_kueue.Base.Int.{ℤ, pos, negsuc, half_word}
use tekton_kueue.Base.Decimal.{
  digit, print_digits, scan_digits, digits_value, in_range_pos, in_range_neg, itoa, atoi,
}

code-digit : (d : ℕ) → d < 10 → code (digit d) ≡ b'0' + d
unfolding digit
code-digit zero h = refl
code-digit (suc zero) h = refl
code-digit (suc (suc zero)) h = refl
code-digit (suc (suc (suc zero))) h = refl
code-digit (suc (suc (suc (suc zero)))) h = refl
code-digit (suc (suc (suc (suc (suc zero))))) h = refl
code-digit (suc (suc (suc (suc (suc (suc zero)))))) h = refl
code-digit (suc (suc (suc (suc (suc (suc (suc zero))))))) h = refl
code-digit (suc (suc (suc (suc (suc (suc (suc (suc zero)))))))) h = refl
code-digit (suc (suc (suc (suc (suc (suc (suc (suc (suc zero))))))))) h = refl
code-digit (suc (suc (suc (suc (suc (suc (suc (suc (suc (suc n)))))))))) h = absurd (omega arith)

scan_digits-digit :
    (m d : ℕ) (s : String)
    → d < 10
    → scan_digits m (String.◌∷◌ (digit d) s) ≡ scan_digits (m * 10 + d) s
unfolding scan_digits
scan_digits-digit m d s h = ground (arith, code-digit d h)

-- Reading a printed number leaves the rest to be read behind it.
scan_digits-print_digits :
    (fuel n : ℕ) (s : String)
    → n < 10 ^ fuel
    → scan_digits 0 (print_digits fuel n s) ≡ scan_digits n s
unfolding print_digits
scan_digits-print_digits zero n s h = ap (λ (m : ℕ). scan_digits m s) (omega arith)
scan_digits-print_digits (suc fuel) n s h = elim (Bool-cases (leb n 9)) [
  | inl small ↦
      rw small
        (scan_digits-digit 0 n s (ground arith) ∙ ap (λ (m : ℕ). scan_digits m s) (omega arith))
  | inr large ↦ rw large (
      scan_digits-print_digits fuel (n / 10) _ (omega (arith, pow-suc 10 fuel))
      ∙ scan_digits-digit (n / 10) (n % 10) s (omega arith)
      ∙ ap (λ (m : ℕ). scan_digits m s) (omega arith))
]

-- A text that begins with a digit.
abbrev Leads : String → Type 0
Leads t = (d : ℕ) × (s : String) × (d < 10) × (t ≡ String.◌∷◌ (digit d) s)

print_digits-Leads_onto :
    (fuel n d : ℕ) (s : String) → d < 10 → Leads (print_digits fuel n (String.◌∷◌ (digit d) s))
unfolding print_digits
print_digits-Leads_onto zero n d s h = (d, s, h, refl)
print_digits-Leads_onto (suc fuel) n d s h = elim (Bool-cases (leb n 9)) [
  | inl small ↦ rw small (n, _, ground arith, refl)
  | inr large ↦ rw large (print_digits-Leads_onto fuel (n / 10) (n % 10) _ (omega arith))
]

print_digits-Leads : (fuel n : ℕ) (s : String) → Leads (print_digits (suc fuel) n s)
unfolding print_digits
print_digits-Leads fuel n s = elim (Bool-cases (leb n 9)) [
  | inl small ↦ rw small (n, s, ground arith, refl)
  | inr large ↦ rw large (print_digits-Leads_onto fuel (n / 10) (n % 10) s (omega arith))
]

-- A text that begins with a digit has no sign and is not empty.
digits_value_of_Leads : (t : String) → Leads t → digits_value t ≡ scan_digits 0 t
unfolding digits_value
digits_value_of_Leads String.[] (d, s, h, e) = cc
digits_value_of_Leads (String.◌∷◌ c s) l = refl

atoi_of_Leads : (t : String) → Leads t → atoi t ≡ in_range_pos t (digits_value t)
unfolding atoi
atoi_of_Leads String.[] (d, s, h, e) = cc
atoi_of_Leads (String.◌∷◌ c t) (d, s, h, e) =
    let same : code c ≡ b'0' + d = ap code (head-eq_of_cons-eq e) ∙ code-digit d h in ground arith

digits_value-print_digits :
    (n : ℕ) → n < half_word + 1 → digits_value (print_digits 20 n "") ≡ some n
unfolding scan_digits
digits_value-print_digits n h =
    digits_value_of_Leads _ (print_digits-Leads 19 n "")
    ∙ scan_digits-print_digits 20 n "" (omega arith)

itoa_pos : (n : ℕ) → itoa (pos n) ≡ print_digits 20 n ""
unfolding itoa
itoa_pos n = refl

itoa_negsuc : (n : ℕ) → itoa (negsuc n) ≡ String.◌∷◌ "-" (print_digits 20 (suc n) "")
unfolding itoa
itoa_negsuc n = refl

atoi_minus :
    (s : String) → atoi (String.◌∷◌ "-" s) ≡ in_range_neg (String.◌∷◌ "-" s) (digits_value s)
unfolding atoi
atoi_minus s = refl

in_range_pos_lem : (s : String) (n : ℕ) → n < half_word → in_range_pos s (some n) ≡ ok (pos n)
unfolding in_range_pos
in_range_pos_lem s n h = ground arith

in_range_neg_lem :
    (s : String) (n : ℕ) → n < half_word → in_range_neg s (some (suc n)) ≡ ok (negsuc n)
unfolding in_range_neg
in_range_neg_lem s n h = ground arith

-- Reading the decimal text of an int64 gives that int64.
abbrev pub IsInt64 : ℤ → Type 0
IsInt64 (pos n) = n < half_word
IsInt64 (negsuc n) = n < half_word

pub atoi-itoa : (a : ℤ) → IsInt64 a → atoi (itoa a) ≡ ok a
atoi-itoa (pos n) h = rw itoa_pos (
    atoi_of_Leads _ (print_digits-Leads 19 n "")
    ∙ rw (digits_value-print_digits n (omega arith)) (in_range_pos_lem _ n h))
atoi-itoa (negsuc n) h =
    rw (itoa_negsuc, atoi_minus)
      (rw (digits_value-print_digits (suc n) (omega arith)) (in_range_neg_lem _ n h))

len-digit : (d : ℕ) (s : String) → len (String.◌∷◌ (digit d) s) ≡ 1 + len s
unfolding digit
len-digit zero s = len.cons "0" s
len-digit (suc zero) s = len.cons "1" s
len-digit (suc (suc zero)) s = len.cons "2" s
len-digit (suc (suc (suc zero))) s = len.cons "3" s
len-digit (suc (suc (suc (suc zero)))) s = len.cons "4" s
len-digit (suc (suc (suc (suc (suc zero))))) s = len.cons "5" s
len-digit (suc (suc (suc (suc (suc (suc zero)))))) s = len.cons "6" s
len-digit (suc (suc (suc (suc (suc (suc (suc zero))))))) s = len.cons "7" s
len-digit (suc (suc (suc (suc (suc (suc (suc (suc zero)))))))) s = len.cons "8" s
len-digit (suc (suc (suc (suc (suc (suc (suc (suc (suc n))))))))) s = len.cons "9" s

len-empty : len "" ≡ 0
len-empty = refl

len-print_digits-le : (fuel n : ℕ) (s : String) → len (print_digits fuel n s) ≤ fuel + len s
unfolding print_digits
len-print_digits-le zero n s = omega arith
len-print_digits-le (suc fuel) n s = elim (Bool-cases (leb n 9)) [
  | inl small ↦ rw small (omega (arith, len-digit n s))
  | inr large ↦ rw large (
      omega (
        arith,
        len-digit (n % 10) s,
        len-print_digits-le fuel (n / 10) (String.◌∷◌ (digit (n % 10)) s),
      ))
]

-- The decimal text of an int is short.
pub len-itoa-le : (a : ℤ) → len (itoa a) ≤ 21
len-itoa-le (pos n) = rw itoa_pos (omega (arith, len-print_digits-le 20 n "", len-empty))
len-itoa-le (negsuc n) = rw itoa_negsuc (
    omega (
      arith,
      len.cons "-" (print_digits 20 (suc n) ""),
      len-print_digits-le 20 (suc n) "",
      len-empty,
    ))

not-nil_of_Leads : (t : String) → Leads t → t ≢ ""
not-nil_of_Leads t (d, s, h, shape) e = cons≢nil (sym shape ∙ e)

pub itoa-ne-nil : (a : ℤ) → itoa a ≢ ""
itoa-ne-nil (pos n) = rw itoa_pos (not-nil_of_Leads _ (print_digits-Leads 19 n ""))
itoa-ne-nil (negsuc n) = rw itoa_negsuc (λ e. cons≢nil e)

in_range-error :
    (s : String) (o : Option ℕ) (e : Error)
    → ((in_range_pos s o ≡ err e) → errorf "strconv.Atoi: parsing %q" (s ∷ []) ≡ e)
      × ((in_range_neg s o ≡ err e) → errorf "strconv.Atoi: parsing %q" (s ∷ []) ≡ e)
unfolding in_range_pos in_range_neg
in_range-error s none e = (λ h. cc, λ h. cc)
in_range-error s (some zero) e = (λ h. ground arith, λ h. cc)
in_range-error s (some (suc n)) e = (λ h. ground arith, λ h. ground arith)

-- The only error of `Atoi`.
pub atoi-error :
    (s : String) (e : Error) → atoi s ≡ err e → errorf "strconv.Atoi: parsing %q" (s ∷ []) ≡ e
unfolding atoi
atoi-error String.[] e h = cc
atoi-error (String.◌∷◌ c s) e h = ground (
  arith,
  in_range-error (String.◌∷◌ c s) (digits_value s) e,
  in_range-error (String.◌∷◌ c s) (digits_value (String.◌∷◌ c s)) e,
)
