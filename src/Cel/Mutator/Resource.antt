-- ===== src/Cel/Mutator/Resource.antt =====
-- Resource mutations: the values for one key add up, and the sum is one of int64.
use tekton_kueue.Base.{
  some-ne-none, ℕ, ◌+◌, ◌≤◌, ◌<◌, String, true, Option, none, some, List, [], ◌∷◌, map, ok, ◌≡◌,
  refl, ◌∙◌, ap, sym, ◌⊎◌, inl, inr, arith, find, find-assign, eq_iff, Dict,
}
use mathlib.Core.Path.{subst}
use tekton_kueue.Base.Int.{ℤ, pos, add64, is_negative, half_word, add64_of_fits, add64_overflow}
use tekton_kueue.Base.Decimal.{itoa, atoi}
use tekton_kueue.Base.Decimal.RoundTrip.{IsInt64, atoi-itoa}
use tekton_kueue.Tekton.{PipelineRun}
use tekton_kueue.Cel.Types.{MutationRequest}
use tekton_kueue.Cel.Mutator.{resource_sum, store_sum, mutate, apply_all}
use tekton_kueue.Cel.Mutator.Apply.{apply_all_cases}

-- What the function `resource` returns for the key and the number.
abbrev pub resource_request : String → ℕ → MutationRequest
resource_request k n = record { type = "resource"; key = k; value = itoa (pos n) }

abbrev pub sum : List ℕ → ℕ
sum [] = 0
sum (n ∷ ns) = n + sum ns

-- An annotation that reads as the number; a missing one reads as 0.
abbrev pub ReadsAs : ℕ → Option String → Type 0
ReadsAs n none = n ≡ 0
ReadsAs n (some text) = atoi text ≡ ok (pos n)

resource_sum_lem :
    (k : String) (n a : ℕ) (m : Option (Dict String))
    → n < half_word
    → ReadsAs a (find m k)
    → (resource_sum (resource_request k n) m ≡ ok (pos n)) × (a ≡ 0)
      ⊎ (resource_sum (resource_request k n) m ≡ ok (add64 (pos n) (pos a)))
unfolding resource_sum
resource_sum_lem k n a m h r = ground (arith, atoi-itoa (pos n) h)

mutate-resource :
    (plr : PipelineRun) (k : String) (n : ℕ) (z : ℤ)
    → resource_sum (resource_request k n) plr.annotations ≡ ok z
    → ((mutate plr (resource_request k n)).1 ≡ none)
      × (find (mutate plr (resource_request k n)).0.annotations k ≡ some (itoa z))
unfolding mutate
mutate-resource plr k n z h =
    rw (h, store_sum) (refl, find-assign plr.annotations k (itoa z) k ∙ ground (arith, eq_iff k k))

-- One resource mutation whose sum fits.
mutate-resource_fits :
    (plr : PipelineRun) (k : String) (n a : ℕ)
    → n + a < half_word
    → ReadsAs a (find plr.annotations k)
    → ((mutate plr (resource_request k n)).1 ≡ none)
      × (find (mutate plr (resource_request k n)).0.annotations k ≡ some (itoa (pos (n + a))))
mutate-resource_fits plr k n a h r = elim (resource_sum_lem k n a plr.annotations (omega arith) r) [
  | inl (e, z) ↦ mutate-resource plr k n _ (e ∙ ap (λ (j : ℕ). ok (pos j)) (omega arith))
  | inr e ↦ mutate-resource plr k n _ (e ∙ ap ok (add64_of_fits n a h))
]

ReadsAs-itoa : (o : Option String) (n : ℕ) → n < half_word → o ≡ some (itoa (pos n)) → ReadsAs n o
ReadsAs-itoa o n h e = rw e (atoi-itoa (pos n) h)

-- Resource mutations for one key whose total, with the value that the annotation had, fits into
-- an int64 are all applied, and the annotation then reads as that total.
pub apply_all-resource :
    (plr : PipelineRun) (k : String) (a : ℕ) (ns : List ℕ)
    → a + sum ns < half_word
    → ReadsAs a (find plr.annotations k)
    → ((apply_all plr (map (resource_request k) ns)).1 ≡ none)
      × ReadsAs (a + sum ns) (find (apply_all plr (map (resource_request k) ns)).0.annotations k)
unfolding apply_all
apply_all-resource plr k a [] h r =
    (refl, subst (λ n. ReadsAs n (find plr.annotations k)) (omega arith) r)
apply_all-resource plr k a (n ∷ ns) h r =
    let (fine, stored) = mutate-resource_fits plr k n a (omega arith) r in
    let plr' : PipelineRun = (mutate plr (resource_request k n)).0 in
    let (fine', total) =
      apply_all-resource plr' k (n + a) ns (omega arith)
        (ReadsAs-itoa _ (n + a) (omega arith) stored) in
    elim (apply_all_cases plr (resource_request k n) (map (resource_request k) ns)) [
      | inl (_, e) ↦ rw e (
        fine',
        subst (λ m. ReadsAs m (find (apply_all plr' (map (resource_request k) ns)).0.annotations k))
            (omega arith) total,
      )
      | inr (x, failed, _) ↦ absurd (some-ne-none (sym failed ∙ fine))
    ]

stored_tail :
    (plr : PipelineRun) (k : String) (a n : ℕ) (ns : List ℕ)
    → a + sum (n ∷ ns) < half_word
    → find plr.annotations k ≡ some (itoa (pos (n + a)))
    → find (apply_all plr (map (resource_request k) ns)).0.annotations k
      ≡ some (itoa (pos (a + sum (n ∷ ns))))
unfolding apply_all
stored_tail plr k a n [] h stored = stored ∙ ap (λ (j : ℕ). some (itoa (pos j))) (omega arith)
stored_tail plr k a n (m ∷ ns) h stored =
    let (fine, next) =
      mutate-resource_fits plr k m (n + a) (omega arith)
        (ReadsAs-itoa _ (n + a) (omega arith) stored) in
    elim (apply_all_cases plr (resource_request k m) (map (resource_request k) ns)) [
      | inl (_, e) ↦ rw e (
          stored_tail (mutate plr (resource_request k m)).0 k (n + a) m ns (omega arith) next
          ∙ ap (λ (j : ℕ). some (itoa (pos j))) (omega arith))
      | inr (x, failed, _) ↦ absurd (some-ne-none (sym failed ∙ fine))
    ]

-- The text that the annotation then holds.
pub apply_all-resource_stored :
    (plr : PipelineRun) (k : String) (a n : ℕ) (ns : List ℕ)
    → a + sum (n ∷ ns) < half_word
    → ReadsAs a (find plr.annotations k)
    → find (apply_all plr (map (resource_request k) (n ∷ ns))).0.annotations k
      ≡ some (itoa (pos (a + sum (n ∷ ns))))
unfolding apply_all
apply_all-resource_stored plr k a n ns h r =
    let (fine, stored) = mutate-resource_fits plr k n a (omega arith) r in
    elim (apply_all_cases plr (resource_request k n) (map (resource_request k) ns)) [
      | inl (_, e) ↦ rw e (stored_tail (mutate plr (resource_request k n)).0 k a n ns h stored)
      | inr (x, failed, _) ↦ absurd (some-ne-none (sym failed ∙ fine))
    ]

IsInt64-add64 : (n a : ℕ) → IsInt64 (add64 (pos n) (pos a))
unfolding add64
IsInt64-add64 n a = ground arith

-- Two values that fit and whose sum does not: the mutation succeeds all the same, and it leaves
-- an annotation that reads as a negative number.
pub mutate-resource_overflow :
    (plr : PipelineRun) (k text : String) (n a : ℕ)
    → n < half_word
    → a < half_word
    → half_word ≤ n + a
    → find plr.annotations k ≡ some text
    → atoi text ≡ ok (pos a)
    → ((mutate plr (resource_request k n)).1 ≡ none)
      × ((z : ℤ) × (stored : String) × (find (mutate plr (resource_request k n)).0.annotations k
            ≡ some stored)
          × (atoi stored ≡ ok z)
          × (is_negative z ≡ true))
mutate-resource_overflow plr k text n a hn ha over found reads =
    elim (resource_sum_lem k n a plr.annotations hn (rw found reads)) [
      | inl (e, z) ↦ absurd (omega arith)
      | inr e ↦
          let (fine, stored) = mutate-resource plr k n _ e in
          (
            fine,
            (
              add64 (pos n) (pos a),
              itoa (add64 (pos n) (pos a)),
              stored,
              atoi-itoa _ (IsInt64-add64 n a),
              add64_overflow n a hn ha over,
            ),
          )
    ]
