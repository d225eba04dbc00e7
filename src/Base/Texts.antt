-- ===== src/Base/Texts.antt =====
-- The functions of Go's `strings` package that the program calls.
use Prim.Native.Char.{Char, code}
use Prim.Native.String.{String, ◌++◌}
use mathlib.Core.Path.{◌≡◌, sym, ◌∙◌, ap}
use mathlib.Core.Logic.{◌↔◌, inl, inr}
use native.Mathlib.Omega.{arith}
use text.Mathlib.TextEquality.{Char-path}
use text.Mathlib.TextLemmas.{nil-append, cons-append}
use mathlib.Core.Bool.{Bool, true, false}
use mathlib.Core.Option.{Option, none, some, some-injective}
use tekton_kueue.Base.Tests.{if◌then◌else◌, Bool-cases, some-ne-none}
use Prim.Native.Nat.{compare, Ordering}

abbrev same_char : Char → Char → Bool
same_char c d = elim (compare (code c) (code d)) [ Ordering.eq ↦ true | _ ↦ false ]

-- `strings.CutPrefix(s, prefix)`: what follows the prefix, if it stands there.
unfoldable pub cut_prefix : String → String → Option String
cut_prefix s String.[] = some s
cut_prefix String.[] (String.◌∷◌ p ps) = none
cut_prefix (String.◌∷◌ c s) (String.◌∷◌ p ps) = if same_char c p then cut_prefix s ps else none

-- `strings.HasPrefix(s, prefix)`
unfoldable pub has_prefix : String → String → Bool
unfolding cut_prefix
has_prefix s prefix = elim (cut_prefix s prefix) [ none ↦ false | some rest ↦ true ]

same_char_sound : (c d : Char) → same_char c d ≡ true → c ≡ d
same_char_sound c d h = Char-path c d (ground arith)

same_char_refl : (c : Char) → same_char c c ≡ true
same_char_refl c = ground arith

cut_prefix_sound : (s t r : String) → cut_prefix s t ≡ some r → s ≡ t ++ r
unfolding cut_prefix
cut_prefix_sound s String.[] r h = some-injective _ _ h ∙ sym (nil-append r)
cut_prefix_sound String.[] (String.◌∷◌ p ps) r h = cc
cut_prefix_sound (String.◌∷◌ c s) (String.◌∷◌ p ps) r h = elim (Bool-cases (same_char c p)) [
  | inl e ↦
      ap (λ d. String.◌∷◌ d s) (same_char_sound c p e)
      ∙ ap (λ t. String.◌∷◌ p t) (cut_prefix_sound s ps r (rw (e, cut_prefix) at h))
      ∙ sym (cons-append p ps r)
  | inr e ↦ absurd (some-ne-none (sym (rw (e, cut_prefix) at h)))
]

cut_prefix_complete : (t r : String) → cut_prefix (t ++ r) t ≡ some r
unfolding cut_prefix
cut_prefix_complete String.[] r = rw nil-append
cut_prefix_complete (String.◌∷◌ c t) r =
    rw cons-append (rw (same_char_refl c, cut_prefix) (cut_prefix_complete t r))

-- The prefix is cut exactly if the text is the prefix with the rest behind it.
pub cut_prefix_iff : (s t r : String) → (cut_prefix s t ≡ some r) ↔ (s ≡ t ++ r)
cut_prefix_iff s t r = (cut_prefix_sound s t r, λ e. rw e (cut_prefix_complete t r))
