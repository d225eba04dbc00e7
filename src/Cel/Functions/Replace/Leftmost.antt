-- ===== src/Cel/Functions/Replace/Leftmost.antt =====
-- `strings.ReplaceAll` of internal/cel/compiler.go, line 322, against a description of what it replaces.
use Prim.Native.Nat.{ℕ, zero, suc, ◌+◌, ◌≤◌, ◌<◌}
use Prim.Native.String.{String, count, ◌++◌}
use Prim.Native.Char.{Char}
use mathlib.Core.Path.{subst}
use text.Mathlib.TextLemmas.{length-append, length-cons, length-pos_iff}
use tekton_kueue.Base.{
  ◌≡◌, ◌≢◌, refl, sym, ap, ◌∙◌, ◌↔◌, inl, inr, some-ne-none, Option-cases, ◌==◌, eq_iff, [], ◌∷◌,
  cut_prefix, cut_prefix_iff, arith, Bool-cases,
}
use tekton_kueue.Cel.Values.{val, str}
use tekton_kueue.Cel.Functions.Replace.{replace_binding, replace_from, replace_all}

text_injective : {a b : String} → val (str a) ≡ val (str b) → a ≡ b
text_injective h = cc

module _ (search replacement : String) where
  -- From the left, each search text that does not overlap one before it becomes the replacement, and
  -- every other character stays.
  pub data Replaces : String → String → Type 0 where
    finished : Replaces "" ""
    matched :
        (s rest out : String)
        → s ≢ ""
        → s ≡ search ++ rest
        → Replaces rest out
        → Replaces s (replacement ++ out)
    passed :
        (c : Char) (s out : String)
        → ((rest : String) → String.◌∷◌ c s ≢ search ++ rest)
        → Replaces s out
        → Replaces (String.◌∷◌ c s) (String.◌∷◌ c out)

  tail_le : (c : Char) (s : String) (n : ℕ) → count (String.◌∷◌ c s) ≤ suc n → count s ≤ n
  tail_le c s n h = omega (arith, length-cons c s)

  shorter :
      (s rest : String) (n : ℕ)
      → search ≢ ""
      → s ≡ search ++ rest
      → count s ≤ suc n
      → count rest ≤ n
  shorter s rest n some_search e h =
      let split : count s ≡ count search + count rest = ap count e ∙ length-append search rest in
      let some_char : 0 < count search = length-pos_iff.1 some_search in omega arith

  replace_from-Replaces :
      (fuel : ℕ) (s : String)
      → search ≢ ""
      → count s ≤ fuel
      → Replaces s (replace_from fuel search replacement s)
  unfolding replace_from
  replace_from-Replaces zero String.[] some_search h = finished
  replace_from-Replaces zero (String.◌∷◌ c s) some_search h =
      absurd (omega (arith, length-cons c s))
  replace_from-Replaces (suc fuel) String.[] some_search h = finished
  replace_from-Replaces (suc fuel) (String.◌∷◌ c s) some_search h =
      elim (Option-cases (cut_prefix (String.◌∷◌ c s) search)) [
        | inl e ↦
            rw (e, replace_from)
              (passed c s _
                (λ rest same.
                  some-ne-none (sym ((cut_prefix_iff (String.◌∷◌ c s) search rest).1 same) ∙ e))
                (replace_from-Replaces fuel s some_search (tail_le c s fuel h)))
        | inr (rest, e) ↦
            let same : String.◌∷◌ c s ≡ search ++ rest =
              (cut_prefix_iff (String.◌∷◌ c s) search rest).0 e in
            rw (e, replace_from)
              (matched (String.◌∷◌ c s) rest _ (λ x. cc) same
                (replace_from-Replaces fuel rest some_search
                  (shorter (String.◌∷◌ c s) rest fuel some_search same h)))
      ]

  -- Any more fuel gives the same.
  replace_from_complete :
      (s out : String)
      → search ≢ ""
      → Replaces s out
      → (fuel : ℕ) → count s ≤ fuel
      → replace_from fuel search replacement s ≡ out
  unfolding replace_from
  replace_from_complete _ _ some_search finished zero h = refl
  replace_from_complete _ _ some_search finished (suc fuel) h = refl
  replace_from_complete String.[] _ some_search (matched _ rest out some_char same k) fuel h =
      absurd (some_char refl)
  replace_from_complete (String.◌∷◌ c s) _ some_search (matched _ rest out some_char same k) zero
        h =
      absurd (omega (arith, length-cons c s))
  replace_from_complete (String.◌∷◌ c s) _ some_search (matched _ rest out some_char same k)
        (suc fuel) h =
      rw (replace_from, (cut_prefix_iff (String.◌∷◌ c s) search rest).1 same)
        (ap (λ t. replacement ++ t)
          (replace_from_complete rest out some_search k fuel
            (shorter (String.◌∷◌ c s) rest fuel some_search same h)))
  replace_from_complete _ _ some_search (passed c s out no_match k) zero h =
      absurd (omega (arith, length-cons c s))
  replace_from_complete _ _ some_search (passed c s out no_match k) (suc fuel) h =
      elim (Option-cases (cut_prefix (String.◌∷◌ c s) search)) [
        | inl e ↦
            rw (replace_from, e)
              (ap (λ t. String.◌∷◌ c t)
                (replace_from_complete s out some_search k fuel (tail_le c s fuel h)))
        | inr (rest, e) ↦ absurd (no_match rest ((cut_prefix_iff (String.◌∷◌ c s) search rest).0 e))
      ]

  replace_all_iff :
      (s out : String) → search ≢ "" → (replace_all s search replacement ≡ out) ↔ Replaces s out
  unfolding replace_all
  replace_all_iff s out some_search = elim (Bool-cases (search == "")) [
    | inl e ↦ absurd (some_search ((eq_iff search "").0 e))
    | inr e ↦ rw e (
      λ same. subst (Replaces s) same (replace_from-Replaces (count s) s some_search (omega arith)),
      λ k. replace_from_complete s out some_search k (count s) (omega arith),
    )
  ]

  -- The function `replace` on three texts, the search text not empty, ends, and its result is exactly
  -- the text in which each occurrence from the left that does not overlap one before it is replaced,
  -- and nothing else.
  pub replace_binding_iff :
      (name s out : String)
      → search ≢ ""
      → (replace_binding name (val (str s) ∷ val (str search) ∷ val (str replacement) ∷ [])
          ≡ val (str out))
        ↔ Replaces s out
  unfolding replace_binding
  replace_binding_iff name s out some_search =
      let (sound, complete) = replace_all_iff s out some_search in
      (λ h. sound (text_injective h), λ k. ap (λ t. val (str t)) (complete k))
