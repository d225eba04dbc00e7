-- ===== src/Cel/Mutator/Apply.antt =====
-- What one mutation, and a list of them, do to a PipelineRun: key by key, and what stays.
use mathlib.Core.List.{foldl}
use tekton_kueue.Base.{
  some-ne-none, String, false, Option, none, some, List, [], ◌∷◌, ◌==◌, eq_iff, Error, Result, ok,
  err, wrap, evaluation_error, ◌≡◌, refl, ◌∙◌, ap, sym, ◌⊎◌, inl, inr, arith, Option-cases, find,
  Dict, find-assign, if◌then◌else◌,
}
use tekton_kueue.Base.Int.{ℤ, add64}
use tekton_kueue.Base.Decimal.{itoa, atoi}
use tekton_kueue.Tekton.{PipelineRun, queue_label, managed_by_multi_kueue_label}
use tekton_kueue.Cel.Types.{MutationType, MutationRequest}
use tekton_kueue.Cel.Mutator.{
  Case, label, annotation, resource, managed_by, multi_kueue, case_of, resource_sum, store_sum,
  mutate_case, mutate, apply_all,
}

-- What a mutation makes of the label `k`, of the annotation `k`, and of `managedBy`.
abbrev pub label_effect : String → Option String → MutationRequest → Option String
label_effect k old r =
    if r.type == "label"
    then (if r.key == k then some r.value else old)
    else if r.type == "multiKueue"
    then (if r.value == "" then old else if queue_label == k then some r.value else old)
    else old

abbrev pub managed_by_effect : Option String → MutationRequest → Option String
managed_by_effect old r =
    if r.type == "managedBy"
    then some r.value
    else if r.type == "multiKueue"
    then some managed_by_multi_kueue_label
    else old

-- The decimal text of the sum of two decimal texts; the value alone, if there is no other.
abbrev pub sum_text : String → Option String → Option String
sum_text value none = elim (atoi value) [ ok n ↦ some (itoa n) | err e ↦ none ]
sum_text value (some old) = elim (atoi value) [
  | ok n ↦ elim (atoi old) [ ok m ↦ some (itoa (add64 n m)) | err e ↦ none ]
  | err e ↦ none
]

abbrev pub annotation_effect : String → Option String → MutationRequest → Option String
annotation_effect k old r =
    if r.type == "annotation"
    then (if r.key == k then some r.value else old)
    else if r.type == "resource"
    then (if r.key == k then sum_text r.value old else old)
    else old

-- The same effects by the case that `switch` takes.
abbrev label_of : String → Option String → MutationRequest → Case → Option String
label_of k old r label = if r.key == k then some r.value else old
label_of k old r multi_kueue =
    if r.value == "" then old else if queue_label == k then some r.value else old
label_of k old r _ = old

abbrev managed_by_of : Option String → MutationRequest → Case → Option String
managed_by_of old r managed_by = some r.value
managed_by_of old r multi_kueue = some managed_by_multi_kueue_label
managed_by_of old r _ = old

abbrev annotation_of : String → Option String → MutationRequest → Case → Option String
annotation_of k old r annotation = if r.key == k then some r.value else old
annotation_of k old r resource = if r.key == k then sum_text r.value old else old
annotation_of k old r _ = old

-- The texts of the five types, told apart.
MutationType-cases :
    (t : MutationType)
    → (t ≡ "label")
      ⊎ (t ≡ "annotation")
      ⊎ (t ≡ "resource")
      ⊎ (t ≡ "managedBy")
      ⊎ (t ≡ "multiKueue")
      ⊎ (((t == "label") ≡ false)
          × ((t == "annotation") ≡ false)
          × ((t == "resource") ≡ false)
          × ((t == "managedBy") ≡ false)
          × ((t == "multiKueue") ≡ false))
MutationType-cases t = ground (
  arith,
  eq_iff t "label",
  eq_iff t "annotation",
  eq_iff t "resource",
  eq_iff t "managedBy",
  eq_iff t "multiKueue",
)

abbrev ByCase : String → Option String → MutationRequest → Type 0
ByCase k old r =
    (label_of k old r (case_of r.type) ≡ label_effect k old r)
    × (managed_by_of old r (case_of r.type) ≡ managed_by_effect old r)
    × (annotation_of k old r (case_of r.type) ≡ annotation_effect k old r)

effects-ByCase : (k : String) (old : Option String) (r : MutationRequest) → ByCase k old r
unfolding case_of
effects-ByCase k old r = elim (MutationType-cases r.type) [
  | inl t ↦ simp t (refl, refl, refl)
  | inr (inl t) ↦ simp t (refl, refl, refl)
  | inr (inr (inl t)) ↦ simp t (refl, refl, refl)
  | inr (inr (inr (inl t))) ↦ simp t (refl, refl, refl)
  | inr (inr (inr (inr (inl t)))) ↦ simp t (refl, refl, refl)
  | inr (inr (inr (inr (inr (t1, t2, t3, t4, t5))))) ↦ simp (t1, t2, t3, t4, t5) (refl, refl, refl)
]

mutate_case-labels :
    (k : String) (c : Case) (plr : PipelineRun) (r : MutationRequest)
    → find (mutate_case c plr r).0.labels k ≡ label_of k (find plr.labels k) r c
unfolding mutate_case
mutate_case-labels k label plr r = find-assign plr.labels r.key r.value k
mutate_case-labels k multi_kueue plr r =
    ground (arith, find-assign plr.labels queue_label r.value k)
mutate_case-labels k resource plr r = ground arith
mutate_case-labels k _ plr r = refl

mutate_case-managed_by :
    (c : Case) (plr : PipelineRun) (r : MutationRequest)
    → (mutate_case c plr r).0.managed_by ≡ managed_by_of plr.managed_by r c
unfolding mutate_case
mutate_case-managed_by multi_kueue plr r = ground arith
mutate_case-managed_by resource plr r = ground arith
mutate_case-managed_by _ plr r = refl

resource_sum-sum_text :
    (r : MutationRequest) (m : Option (Dict String)) (n : ℤ)
    → resource_sum r m ≡ ok n
    → sum_text r.value (find m r.key) ≡ some (itoa n)
unfolding resource_sum
resource_sum-sum_text r m n h = ground arith

store_sum-annotations :
    (k : String) (plr : PipelineRun) (r : MutationRequest) (sum : Result ℤ)
    → resource_sum r plr.annotations ≡ sum
    → (store_sum plr r.key sum).1 ≡ none
    → find (store_sum plr r.key sum).0.annotations k
      ≡ annotation_of k (find plr.annotations k) r resource
unfolding store_sum
store_sum-annotations k plr r (err e) summed h = cc
store_sum-annotations k plr r (ok n) summed h = ground (
  arith,
  find-assign plr.annotations r.key (itoa n) k,
  eq_iff r.key k,
  resource_sum-sum_text r plr.annotations n summed,
)

mutate_case-annotations :
    (k : String) (c : Case) (plr : PipelineRun) (r : MutationRequest)
    → (mutate_case c plr r).1 ≡ none
    → find (mutate_case c plr r).0.annotations k ≡ annotation_of k (find plr.annotations k) r c
unfolding mutate_case
mutate_case-annotations k annotation plr r h = find-assign plr.annotations r.key r.value k
mutate_case-annotations k multi_kueue plr r h = ground arith
mutate_case-annotations k resource plr r h = store_sum-annotations k plr r _ refl h
mutate_case-annotations k _ plr r h = refl

mutate_effects :
    (k : String) (plr : PipelineRun) (r : MutationRequest)
    → (mutate plr r).1 ≡ none
    → (find (mutate plr r).0.labels k ≡ label_effect k (find plr.labels k) r)
      × (find (mutate plr r).0.annotations k ≡ annotation_effect k (find plr.annotations k) r)
      × ((mutate plr r).0.managed_by ≡ managed_by_effect plr.managed_by r)
unfolding mutate
mutate_effects k plr r h = (
  mutate_case-labels k (case_of r.type) plr r ∙ (effects-ByCase k (find plr.labels k) r).0,
  mutate_case-annotations k (case_of r.type) plr r h
      ∙ (effects-ByCase k (find plr.annotations k) r).2,
  mutate_case-managed_by (case_of r.type) plr r ∙ (effects-ByCase k plr.managed_by r).1,
)

-- One round of the loop: it goes on, or it ends with the wrapped error.
pub apply_all_cases :
    (plr : PipelineRun) (r : MutationRequest) (rs : List MutationRequest)
    → (((mutate plr r).1 ≡ none) × (apply_all plr (r ∷ rs) ≡ apply_all (mutate plr r).0 rs))
      ⊎ ((e : Error) × ((mutate plr r).1 ≡ some e)
          × (apply_all plr (r ∷ rs) ≡ (
            (mutate plr r).0,
            some (
                evaluation_error (
                  wrap "failed to apply mutation (type: %s, key: %s): %w" (r.type ∷ r.key ∷ []) e)),
          )))
unfolding apply_all
apply_all_cases plr r rs = elim (Option-cases (mutate plr r).1) [
  | inl e ↦ inl (e, rw (e, apply_all))
  | inr (x, e) ↦ inr (x, e, rw (e, apply_all))
]

-- After a loop with no error each label, each annotation and `managedBy` is what the effects of
-- the mutations, in order, make of its value before.
pub apply_all-effects :
    (k : String) (plr : PipelineRun) (rs : List MutationRequest)
    → (apply_all plr rs).1 ≡ none
    → (find (apply_all plr rs).0.labels k ≡ foldl (label_effect k) (find plr.labels k) rs)
      × (find (apply_all plr rs).0.annotations k
          ≡ foldl (annotation_effect k) (find plr.annotations k) rs)
      × ((apply_all plr rs).0.managed_by ≡ foldl managed_by_effect plr.managed_by rs)
unfolding apply_all mutate
apply_all-effects k plr [] h = (refl, refl, refl)
apply_all-effects k plr (r ∷ rs) h = elim (apply_all_cases plr r rs) [
  | inl (fine, e) ↦
      let (l, a, m) = apply_all-effects k (mutate plr r).0 rs (rw e at h) in
      let (l', a', m') = mutate_effects k plr r fine in
      rw e (
        l ∙ ap (λ o. foldl (label_effect k) o rs) l',
        a ∙ ap (λ o. foldl (annotation_effect k) o rs) a',
        m ∙ ap (λ o. foldl managed_by_effect o rs) m',
      )
  | inr (x, _, e) ↦ absurd (some-ne-none (ap (λ (p : PipelineRun × Option Error). p.1) (sym e) ∙ h))
]
