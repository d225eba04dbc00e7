-- ===== src/Cel/Mutator/Again.antt =====
-- The same mutations once more, as when the webhook is called again on what it admitted.
use mathlib.Core.List.{foldl}
use tekton_kueue.Base.{
  String, Bool, true, false, if◌then◌else◌, Option, none, some, List, [], ◌∷◌, ◌==◌, eq_iff, All,
  ◌≡◌, ◌≢◌, refl, sym, ap, ◌∙◌, ◌⊎◌, inl, inr, arith, find,
}
use tekton_kueue.Tekton.{PipelineRun, queue_label, managed_by_multi_kueue_label}
use tekton_kueue.Cel.Types.{MutationRequest}
use tekton_kueue.Cel.Mutator.{apply_all}
use tekton_kueue.Cel.Mutator.Apply.{
  label_effect, managed_by_effect, annotation_effect, apply_all-effects,
}

-- An effect sets a value whatever was there, or keeps what was there.
abbrev IsSetter : (Option String → Option String) → Type 0
IsSetter f =
    ((v : Option String) × ((old : Option String) → f old ≡ v))
    ⊎ ((old : Option String) → f old ≡ old)

IsSetter-twice :
    (f : Option String → Option String) → IsSetter f → (old : Option String) → f (f old) ≡ f old
IsSetter-twice f (inl (v, sets)) old = sets (f old) ∙ sym (sets old)
IsSetter-twice f (inr keeps) old = keeps (f old)

module _ (effect : Option String → MutationRequest → Option String) where
  foldl-IsSetter :
      (rs : List MutationRequest)
      → All (λ r. IsSetter (λ old. effect old r)) rs
      → IsSetter (λ old. foldl effect old rs)
  foldl-IsSetter [] h = inr (λ old. refl)
  foldl-IsSetter (r ∷ rs) (first, rest) = elim (foldl-IsSetter rs rest) [
    | inl (v, sets) ↦ inl (v, λ old. sets (effect old r))
    | inr keeps ↦ elim first [
      | inl (v, set) ↦ inl (v, λ old. keeps (effect old r) ∙ set old)
      | inr kept ↦ inr (λ old. keeps (effect old r) ∙ kept old)
    ]
  ]

abbrev set : (v : String) → IsSetter (λ old. some v)
set v = inl (some v, λ old. refl)

abbrev keep : IsSetter (λ old. old)
keep = inr (λ old. refl)

either :
    (b : Bool) (f g : Option String → Option String)
    → IsSetter f
    → IsSetter g
    → IsSetter (λ old. if b then f old else g old)
either true f g hf hg = hf
either false f g hf hg = hg

label_effect-IsSetter : (k : String) (r : MutationRequest) → IsSetter (λ old. label_effect k old r)
label_effect-IsSetter k r =
    either (r.type == "label") _ _ (either (r.key == k) _ _ (set r.value) keep) (
      either (r.type == "multiKueue") _ _
        (either (r.value == "") _ _ keep (either (queue_label == k) _ _ (set r.value) keep)) keep)

managed_by_effect-IsSetter : (r : MutationRequest) → IsSetter (λ old. managed_by_effect old r)
managed_by_effect-IsSetter r =
    either (r.type == "managedBy") _ _ (set r.value)
      (either (r.type == "multiKueue") _ _ (set managed_by_multi_kueue_label) keep)

-- Not a resource of this key.
abbrev pub IsPlain : String → MutationRequest → Type 0
IsPlain k r = (r.type ≢ "resource") ⊎ (r.key ≢ k)

plain_sum :
    (k : String) (r : MutationRequest)
    → IsPlain k r
    → (old : Option String)
    → annotation_effect k old r
      ≡ (if r.type == "annotation" then (if r.key == k then some r.value else old) else old)
plain_sum k r (inl h) old = ground (arith, eq_iff r.type "resource")
plain_sum k r (inr h) old = ground (arith, eq_iff r.key k)

IsSetter-same :
    (f g : Option String → Option String)
    → ((old : Option String) → f old ≡ g old)
    → IsSetter g
    → IsSetter f
IsSetter-same f g same (inl (v, sets)) = inl (v, λ old. same old ∙ sets old)
IsSetter-same f g same (inr keeps) = inr (λ old. same old ∙ keeps old)

annotation_effect-IsSetter :
    (k : String) (r : MutationRequest) → IsPlain k r → IsSetter (λ old. annotation_effect k old r)
annotation_effect-IsSetter k r h =
    IsSetter-same _ _ (plain_sum k r h)
      (either (r.type == "annotation") _ _ (either (r.key == k) _ _ (set r.value) keep) keep)

All-of :
    {P Q : MutationRequest → Type 0}
    → ((r : MutationRequest) → P r → Q r)
    → (rs : List MutationRequest) → All P rs
    → All Q rs
All-of f [] h = tt
All-of f (r ∷ rs) (p, h) = (f r p, All-of f rs h)

All-each :
    {Q : MutationRequest → Type 0}
    → ((r : MutationRequest) → Q r)
    → (rs : List MutationRequest) → All Q rs
All-each f [] = tt
All-each f (r ∷ rs) = (f r, All-each f rs)

-- The fold of effects that set or keep is the same the second time.
again :
    (effect : Option String → MutationRequest → Option String) (rs : List MutationRequest)
    (old first second : Option String)
    → All (λ r. IsSetter (λ o. effect o r)) rs
    → first ≡ foldl effect old rs
    → second ≡ foldl effect first rs
    → second ≡ first
again effect rs old first second h e f =
    f
    ∙ ap (λ o. foldl effect o rs) e
    ∙ IsSetter-twice (λ o. foldl effect o rs) (foldl-IsSetter effect rs h) old
    ∙ sym e

-- If mutations were applied without an error, and are applied once more without one, then labels and
-- `managedBy` stay, and so does each annotation that no resource mutation has the key of.
pub apply_all-apply_all :
    (plr : PipelineRun) (rs : List MutationRequest) (k j : String)
    → (apply_all plr rs).1 ≡ none
    → (apply_all (apply_all plr rs).0 rs).1 ≡ none
    → All (IsPlain j) rs
    → let p = (apply_all plr rs).0 in
      let q = (apply_all p rs).0 in
      (find q.labels k ≡ find p.labels k)
      × (q.managed_by ≡ p.managed_by)
      × (find q.annotations j ≡ find p.annotations j)
apply_all-apply_all plr rs k j h h' plain =
    let (labels, _, managed) = apply_all-effects k plr rs h in
    let (labels', _, managed') = apply_all-effects k (apply_all plr rs).0 rs h' in
    let (_, annotations, _) = apply_all-effects j plr rs h in
    let (_, annotations', _) = apply_all-effects j (apply_all plr rs).0 rs h' in
    (
      again (label_effect k) rs _ _ _ (All-each (label_effect-IsSetter k) rs) labels labels',
      again managed_by_effect rs _ _ _ (All-each managed_by_effect-IsSetter rs) managed managed',
      again (annotation_effect j) rs _ _ _ (All-of (annotation_effect-IsSetter j) rs plain)
          annotations annotations',
    )
