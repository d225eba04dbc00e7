-- ===== src/Cel/Mutator/Frame.antt =====
-- What mutations leave alone.
use tekton_kueue.Base.{List, [], ◌∷◌, ◌≡◌, inl, inr, arith}
use tekton_kueue.Tekton.{PipelineRun}
use tekton_kueue.Cel.Types.{MutationRequest}
use tekton_kueue.Cel.Mutator.{Case, label, resource, case_of, mutate_case, mutate, apply_all}
use tekton_kueue.Cel.Mutator.Apply.{apply_all_cases}

-- All but the labels, the annotations and `managedBy` is the same.
pub record IsFramed (plr plr' : PipelineRun) : Type 0 where
  pub same_name : plr'.name ≡ plr.name
  pub same_namespace : plr'.namespace ≡ plr.namespace
  pub same_managed_fields : plr'.managed_fields ≡ plr.managed_fields
  pub same_spec_status : plr'.spec_status ≡ plr.spec_status
  pub same_rest : plr'.rest ≡ plr.rest
  pub same_conditions : plr'.conditions ≡ plr.conditions

pub IsFramed-refl : (plr : PipelineRun) → IsFramed plr plr
IsFramed-refl plr = ground arith

IsFramed-trans : {p q r : PipelineRun} → IsFramed p q → IsFramed q r → IsFramed p r
IsFramed-trans f g = ground arith

mutate_case-IsFramed :
    (c : Case) (plr : PipelineRun) (r : MutationRequest) → IsFramed plr (mutate_case c plr r).0
unfolding mutate_case
mutate_case-IsFramed label plr r = ground arith
mutate_case-IsFramed resource plr r = ground arith
mutate_case-IsFramed _ plr r = ground arith

-- Whatever the mutations and the outcome, the loop changes only labels, annotations and
-- `managedBy`.
pub apply_all-IsFramed :
    (plr : PipelineRun) (rs : List MutationRequest) → IsFramed plr (apply_all plr rs).0
unfolding apply_all mutate
apply_all-IsFramed plr [] = IsFramed-refl plr
apply_all-IsFramed plr (r ∷ rs) =
    let first : IsFramed plr (mutate plr r).0 = mutate_case-IsFramed (case_of r.type) plr r in
    elim (apply_all_cases plr r rs) [
      | inl (_, e) ↦ rw e (IsFramed-trans first (apply_all-IsFramed (mutate plr r).0 rs))
      | inr (x, _, e) ↦ rw e first
    ]
