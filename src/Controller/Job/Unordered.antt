-- ===== src/Controller/Job/Unordered.antt =====
-- The pod sets as a function of the annotations alone: Go visits a map in any order, and the abstract
-- view forgets that order by a quotient.
use mathlib.Core.Path.{subst}
use mathlib.Core.Logic.{∥∥₁_elim}
use mathlib.Core.Quot
use mathlib.Core.Quot.{Quot}
use tekton_kueue.Base.{
  ℕ, String, Option, none, some, List, [], ◌∷◌, map, ◌==◌, eq_iff, Dict, lookup, Result, ok, err,
  if◌then◌else◌, ◌≡◌, refl, ◌⊎◌, sym, ap, ◌∙◌, inl, inr, ◌↔◌, arith, All, Bool-cases, Result-cases,
  some-ne-none,
}
use tekton_kueue.Controller.Job.{
  Quantities, PodSet, resource_pipeline_run_count, resources_requests, pod_sets,
}
use tekton_kueue.Controller.Job.Visits.{
  Visit, SameMap, String_set, Annotations, annotation, All-lookup, All-of_lookup, All-same,
}
use tekton_kueue.Controller.Job.Requests.{
  requests_key, requested_quantity, resources_requests-lookup,
}
use tekton_kueue.Controller.Job.Refusals.{IsFine, AreFineIf, resources_requests-AreFineIf}

module _ (Q : Quantities) (Quantity_set : IsSet Q.Quantity) where
  -- The requests of a pod set, without their order.
  abbrev pub Requests : Type 0
  Requests = String → Option Q.Quantity

  -- A pod set with its requests in no order: its name, its container's name, its count, its requests.
  abbrev pub PodSetView : Type 0
  PodSetView = String × String × ℕ × Requests

  -- What Kueue reads of pod sets: each of them, or that there are none.
  abbrev pub view : Result (List (PodSet Q.Quantity)) → Option (List PodSetView)
  view (err e) = none
  view (ok sets) = some (map (λ s. (s.name, s.container, s.count, lookup s.requests)) sets)

  -- The one pod set that `PodSets` makes, with these requests.
  abbrev pub pod_set_of : Requests → PodSetView
  pod_set_of requests = ("pod-set-1", "dummy", 1, requests)

  -- The requests that annotations mean: one unit of the token, and the quantities that are asked for.
  abbrev pub meant : (String → Option String) → Requests
  meant value n =
      if n == resource_pipeline_run_count
      then some (Q.must_parse "1")
      else requested_quantity Q (value (requests_key n)) none

  lookup-meant :
      (a : Visit) (rs : Dict Q.Quantity)
      → resources_requests Q a.0 ≡ ok rs
      → (n : String) → lookup rs n ≡ meant (lookup a.0) n
  lookup-meant a rs e n =
      let (token, rest) = resources_requests-lookup Q a.0 rs a.1 e in
      elim (Bool-cases (n == resource_pipeline_run_count)) [
        | inl same ↦ rw same (
            subst (λ k. lookup rs k ≡ some (Q.must_parse "1"))
              (sym ((eq_iff n resource_pipeline_run_count).0 same)) token)
        | inr other ↦ rw other (rest n (ground (arith, eq_iff n resource_pipeline_run_count)))
      ]

  IsViewed : Visit → Option (List PodSetView) → Type 0
  IsViewed a x =
      ((x ≡ some (pod_set_of (meant (lookup a.0)) ∷ [])) × All (IsFine Q) a.0)
      ⊎ ((x ≡ none) × ¬ All (IsFine Q) a.0)

  view-IsViewed : (a : Visit) → IsViewed a (view (pod_sets Q a.0))
  unfolding pod_sets IsViewed
  view-IsViewed a = elim (Result-cases (resources_requests Q a.0)) [
    | inl (rs, e) ↦ inl (
      rw e (ap (λ (f : Requests). some (pod_set_of f ∷ [])) (λ i n. lookup-meant a rs e n i)),
      subst (AreFineIf Q a.0) e (resources_requests-AreFineIf Q a.0),
    )
    | inr (x, e) ↦
        inr (rw e refl, (subst (AreFineIf Q a.0) e (resources_requests-AreFineIf Q a.0)).1)
  ]

  meant-same : (a b : Visit) → SameMap a b → meant (lookup a.0) ≡ meant (lookup b.0)
  meant-same a b same = ap meant (λ i k. same k i)

  IsViewed-same :
      (a b : Visit) (x y : Option (List PodSetView))
      → SameMap a b
      → IsViewed a x
      → IsViewed b y
      → x ≡ y
  unfolding IsViewed
  IsViewed-same a b x y same (inl (e, h)) (inl (f, k)) =
      e ∙ ap (λ (r : Requests). some (pod_set_of r ∷ [])) (meant-same a b same) ∙ sym f
  IsViewed-same a b x y same (inl (e, h)) (inr (f, k)) = absurd (k (All-same (IsFine Q) a b same h))
  IsViewed-same a b x y same (inr (e, h)) (inl (f, k)) =
      absurd (h (All-same (IsFine Q) b a (λ n. sym (same n)) k))
  IsViewed-same a b x y same (inr (e, h)) (inr (f, k)) = e ∙ sym f

  pub view-same : (a b : Visit) → SameMap a b → view (pod_sets Q a.0) ≡ view (pod_sets Q b.0)
  view-same a b same = IsViewed-same a b _ _ same (view-IsViewed a) (view-IsViewed b)

  pub view_set : IsSet (Option (List PodSetView))
  view_set = hlevel (Quantity_set, String_set)

  -- `PodSets` on annotations in no order: `view-same` says that every order gives the same.
  unfoldable pub pod_sets_of : Annotations → Option (List PodSetView)
  pod_sets_of = Quot.lift view_set (λ (a : Visit). view (pod_sets Q a.0)) view-same

  -- Each annotation of a resource is named, not the token, and has a quantity that is not negative.
  abbrev pub AreFine : Annotations → Type 0
  AreFine q = (k v : String) → annotation q k ≡ some v → IsFine Q (k, v)

  view_iff :
      (a : Visit) (x : Option (List PodSetView))
      → IsViewed a x
      → ((x ≡ some (pod_set_of (meant (lookup a.0)) ∷ [])) ↔ ∥ All (IsFine Q) a.0 ∥₁)
        × ((x ≡ none) ↔ (¬ All (IsFine Q) a.0))
  unfolding IsViewed
  view_iff a x (inl (e, h)) =
      ((λ _. ∣ h ∣₁, λ _. e), (λ f. absurd (some-ne-none (sym e ∙ f)), λ k. absurd (k h)))
  view_iff a x (inr (e, h)) = (
    (λ f. absurd (some-ne-none (sym f ∙ e)), λ k. absurd (∥∥₁_elim k (hlevel) h)),
    (λ _. h, λ _. e),
  )

  AreFine-mk : (a : Visit) → AreFine (Quot.mk a) ↔ All (IsFine Q) a.0
  unfolding annotation
  AreFine-mk a = (All-of_lookup (IsFine Q) a.0 a.1, λ h k v e. All-lookup (IsFine Q) a.0 k v h e)

  -- What `PodSets` is to give for annotations: the one pod set, with the requests that they mean, exactly if
  -- all of them are fine, and an error exactly if not, in every order of the annotations.
  abbrev pub IsUnordered : Annotations → Type 0
  IsUnordered q =
      ((a : Visit) → Quot.mk a ≡ q → view (pod_sets Q a.0) ≡ pod_sets_of q)
      × ((pod_sets_of q ≡ some (pod_set_of (meant (annotation q)) ∷ [])) ↔ ∥ AreFine q ∥₁)
      × ((pod_sets_of q ≡ none) ↔ (¬ AreFine q))

  IsUnordered-mk : (a : Visit) → IsUnordered (Quot.mk a)
  unfolding pod_sets_of annotation
  IsUnordered-mk a =
      let (made, refused) = view_iff a _ (view-IsViewed a) in
      let (all, each) = AreFine-mk a in
      (
        λ b e. ap pod_sets_of e,
        (
          λ e. ∥∥₁_elim (made.0 e) (hlevel) (λ h. ∣ each h ∣₁),
          λ h. made.1 (∥∥₁_elim h (hlevel) (λ k. ∣ all k ∣₁)),
        ),
        (λ e k. refused.0 e (all k), λ n. refused.1 (λ h. n (each h))),
      )

  IsUnordered-IsProp : (q : Annotations) → IsProp (IsUnordered q)
  IsUnordered-IsProp q = hlevel view_set

  -- If quantities form a set, `PodSets` is a function of the annotations as a map, whatever the order in
  -- which Go visits them: it gives the one pod set, of count 1 with its fixed names, with one unit of the token and the quantity of each
  -- annotation of a resource, exactly if every such annotation is named, not the token, and has a
  -- quantity that parses and is not negative; it returns an error exactly if not.
  pub pod_sets-IsUnordered : (q : Annotations) → IsUnordered q
  pod_sets-IsUnordered = Quot.ind IsUnordered-IsProp IsUnordered-mk
