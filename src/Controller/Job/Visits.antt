-- ===== src/Controller/Job/Visits.antt =====
-- Annotations in the orders in which Go may visit them, and without an order by a quotient.
use mathlib.Core.Path.{subst}
use mathlib.Core.Option.{some-injective}
use mathlib.Core.Quot
use mathlib.Core.Quot.{Quot}
use text.Mathlib.TextEquality.{IsScalar-prop}
use tekton_kueue.Base.{
  String, Option, none, some, [], ◌∷◌, ◌==◌, eq_iff, Dict, lookup, ◌≡◌, sym, ◌∙◌, inl, inr, arith,
  All, Bool-cases, some-ne-none,
}
use tekton_kueue.Controller.Job.Requests.{IsMap}

-- A map as one order of its entries, each key once.
abbrev pub Visit : Type 0
Visit = (m : Dict String) × IsMap m

-- Two orders of one map.
abbrev pub SameMap : Visit → Visit → Type 0
SameMap a b = (k : String) → lookup a.0 k ≡ lookup b.0 k

abbrev pub Annotations : Type 0
Annotations = Quot SameMap

pub String_set : IsSet String
String_set = hlevel IsScalar-prop

unfoldable pub annotation : Annotations → String → Option String
annotation q k = Quot.lift (hlevel String_set) (λ (a : Visit). lookup a.0 k) (λ a b same. same k) q

lookup_here : (m : Dict String) (k v : String) → lookup ((k, v) ∷ m) k ≡ some v
unfolding lookup
lookup_here m k v = ground (arith, eq_iff k k)

lookup_there :
    (m : Dict String) (j w k v : String)
    → lookup m j ≡ none
    → lookup m k ≡ some v
    → lookup ((j, w) ∷ m) k ≡ some v
unfolding lookup
lookup_there m j w k v fresh e = elim (Bool-cases (j == k)) [
  | inl same ↦
      absurd (some-ne-none (sym e ∙ subst (λ i. lookup m i ≡ none) ((eq_iff j k).0 same) fresh))
  | inr other ↦ rw other e
]

module _ {ℓ} (P : String × String → Type ℓ) where
  pub All-lookup : (m : Dict String) (k v : String) → All P m → lookup m k ≡ some v → P (k, v)
  unfolding lookup
  All-lookup [] k v h e = cc
  All-lookup ((j, w) ∷ m) k v (p, h) e = elim (Bool-cases (j == k)) [
    | inl same ↦
        let value : w ≡ v = some-injective w v (rw same at e) in
        subst (λ i. P (i, v)) ((eq_iff j k).0 same) (subst (λ u. P (j, u)) value p)
    | inr other ↦ All-lookup m k v h (rw other at e)
  ]

  pub All-of_lookup :
      (m : Dict String) → IsMap m → ((k v : String) → lookup m k ≡ some v → P (k, v)) → All P m
  All-of_lookup [] h each = tt
  All-of_lookup ((j, w) ∷ m) (fresh, h) each = (
    each j w (lookup_here m j w),
    All-of_lookup m h (λ k v e. each k v (lookup_there m j w k v fresh e)),
  )

  pub All-same : (a b : Visit) → SameMap a b → All P a.0 → All P b.0
  All-same a b same h = All-of_lookup b.0 b.1 (λ k v e. All-lookup a.0 k v h (same k ∙ e))
