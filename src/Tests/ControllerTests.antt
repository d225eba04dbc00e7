-- ===== src/Tests/ControllerTests.antt =====
-- The theorems on internal/controller at concrete jobs and clusters.
use tekton_kueue.Base.Decimal.RoundTrip.{atoi-itoa}
use tekton_kueue.Cel.Types.{MutationRequest}
use tekton_kueue.Cel.Mutator.{mutate, apply_all, resource_sum}
use tekton_kueue.Cel.Mutator.Resource.{resource_request, sum, ReadsAs}
use tekton_kueue.Controller.Job.Mutated.{AreDecimal, resources_requests-apply_all}
use tekton_kueue.Base.{
  ◌+◌, List, arith, eq_iff, map, find, assign, true, false, String, true, false, none, some, [],
  ◌∷◌, Dict, lookup, insert, cut_prefix, Error, ok, err, ◌∙◌, ◌≡◌, ◌≢◌, refl, ap, sym, ◌↔◌,
}
use tekton_kueue.Base.Int.{ℤ, pos, add64, is_negative}
use tekton_kueue.Base.Decimal.{itoa, atoi}
use tekton_kueue.Tekton.{PipelineRun, status_pending, managed_by_multi_kueue_label}
use tekton_kueue.Controller.Job.{
  resource_pipeline_run_count, stop, stopped_copy, resources_requests, pod_sets, finished,
  condition_succeeded, parse_resources_requests_annotation, is_suspended, run_with_pod_sets_info,
}
use tekton_kueue.Controller.Job.Requests.{IsMap, requests_key}
use tekton_kueue.Controller.Job.Refusals.{AreFineIf, IsUnretryable, resources_requests-AreFineIf}
use tekton_kueue.Controller.Job.Life.{released, here, later, IsFollowed, Reach-IsFollowed}
use tekton_kueue.Controller.Job.Overflow.{AreSigned, mutate-refused}
use tekton_kueue.Controller.Job.Stopping.{IsStopped, stop-finished}
use tekton_kueue.Controller.Job.Unordered.{IsUnordered, pod_sets-IsUnordered}
use mathlib.Core.Quot
use tekton_kueue.Tests.Toys.{plr, tekton, quantities, client}

abbrev annotations : Dict String
annotations = ("kueue.konflux-ci.dev/requests-cpu", "2") ∷ ("note", "x") ∷ []

abbrev asked : Dict ℤ
asked = (resource_pipeline_run_count, pos 1) ∷ ("cpu", pos 2) ∷ []

annotations-IsMap : IsMap annotations
unfolding lookup
annotations-IsMap = (refl, (refl, tt))

annotations_asked : resources_requests quantities annotations ≡ ok asked
unfolding resources_requests parse_resources_requests_annotation cut_prefix atoi insert
annotations_asked = refl

ℤ_set : IsSet ℤ
ℤ_set = hlevel

pod_sets-IsUnordered_example :
    IsUnordered quantities ℤ_set (Quot.mk (annotations, annotations-IsMap))
pod_sets-IsUnordered_example =
    pod_sets-IsUnordered quantities ℤ_set (Quot.mk (annotations, annotations-IsMap))

-- What the annotations make.
one_pod_set :
    pod_sets quantities annotations
    ≡ ok (record { name = "pod-set-1"; container = "dummy"; requests = asked; count = 1 } ∷ [])
unfolding pod_sets parse_resources_requests_annotation cut_prefix atoi insert
one_pod_set = refl

resources_requests-AreFineIf_example :
    AreFineIf quantities annotations (resources_requests quantities annotations)
resources_requests-AreFineIf_example = resources_requests-AreFineIf quantities annotations

abbrev cpu_requests : List MutationRequest
cpu_requests = map (resource_request (requests_key "cpu")) (3 ∷ 4 ∷ [])

abbrev summed : Dict String
summed = ("kueue.konflux-ci.dev/requests-cpu", "9") ∷ []

abbrev summed_requests : Dict ℤ
summed_requests = (resource_pipeline_run_count, pos 1) ∷ ("cpu", pos 9) ∷ []

quantities-AreDecimal : AreDecimal quantities pos
quantities-AreDecimal n h = atoi-itoa (pos n) h

cpu_read : ReadsAs 2 (find plr.annotations (requests_key "cpu"))
unfolding find lookup atoi
cpu_read = refl

cpu_summed : (apply_all plr cpu_requests).0.annotations ≡ some summed
unfolding apply_all mutate resource_sum atoi itoa find lookup assign insert add64
cpu_summed = refl

summed-IsMap : IsMap summed
unfolding lookup
summed-IsMap = (refl, tt)

cpu-ne-token : ◌≢◌ {A = String} "cpu" resource_pipeline_run_count
cpu-ne-token e = let clash : false ≡ true = (eq_iff "cpu" resource_pipeline_run_count).1 e in cc

summed_made : resources_requests quantities summed ≡ ok summed_requests
unfolding resources_requests parse_resources_requests_annotation cut_prefix atoi insert
summed_made = refl

resources_requests-apply_all_example :
    lookup summed_requests "cpu" ≡ some (ℤ.pos (2 + sum (3 ∷ 4 ∷ [])))
resources_requests-apply_all_example =
    resources_requests-apply_all quantities pos quantities-AreDecimal plr "cpu" 2 3 (4 ∷ []) summed
      summed_requests (omega arith) cpu_read cpu_summed summed-IsMap cpu-ne-token summed_made

quantities-AreSigned : AreSigned quantities
quantities-AreSigned text z q reads negative parsed =
    let same : ok z ≡ ok q = sym reads ∙ parsed in
    let one : z ≡ q = cc in ap is_negative (sym one) ∙ negative

-- The annotation behind a sum of 2 ^ 63 - 1 and 2.
abbrev overflowed : Dict String
overflowed = ("kueue.konflux-ci.dev/requests-cpu", "-9223372036854775807") ∷ []

cpu_text : find plr.annotations (requests_key "cpu") ≡ some "2"
unfolding find lookup
cpu_text = refl

two : atoi "2" ≡ ok (pos 2)
unfolding atoi
two = refl

cpu_overflows :
    (mutate plr (resource_request (requests_key "cpu") 9223372036854775807)).0.annotations
    ≡ some overflowed
unfolding mutate resource_sum atoi itoa find lookup assign insert add64
cpu_overflows = refl

mutate-refused_example :
    ((mutate plr (resource_request (requests_key "cpu") 9223372036854775807)).1 ≡ none)
    × ((e : Error) × (resources_requests quantities overflowed ≡ err e) × IsUnretryable e)
mutate-refused_example =
    mutate-refused quantities quantities-AreSigned plr "cpu" "2" 9223372036854775807 2 overflowed
      (omega arith) (omega arith) (omega arith) cpu_text two cpu_overflows

abbrev pending_plr : PipelineRun
pending_plr = record plr {
  spec_status = status_pending;
  managed_by = some managed_by_multi_kueue_label;
}

pending-is_suspended : is_suspended pending_plr ≡ true
unfolding is_suspended
pending-is_suspended = refl

Reach-IsFollowed_example : IsFollowed tekton pending_plr (run_with_pod_sets_info pending_plr)
Reach-IsFollowed_example =
    Reach-IsFollowed tekton pending_plr (run_with_pod_sets_info pending_plr)
      (later pending_plr (run_with_pod_sets_info pending_plr) here (released pending-is_suspended))

stop-finished_example :
    IsStopped tekton client plr none (stop tekton client plr none)
    × (((finished tekton plr).1.1 ≡ true)
        ↔ ((tekton.is_done plr ≡ true) × (tekton.get_condition plr condition_succeeded ≢ none)))
    × ((finished tekton plr).1.1 ≡ true → stop tekton client plr none ≡ (none, (false, none)))
    × (stop tekton client (stopped_copy tekton plr) none ≡ (none, (false, none)))
stop-finished_example = stop-finished tekton client plr none
