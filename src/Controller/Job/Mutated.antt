-- ===== src/Controller/Job/Mutated.antt =====
-- The requests that the mutations of the webhook make: from internal/cel to the job.
use tekton_kueue.Base.{
  ℕ, ◌+◌, ◌<◌, String, some, List, ◌∷◌, map, find, lookup, Dict, ok, ◌≡◌, ◌≢◌, ◌∙◌, ap, sym, refl,
}
use tekton_kueue.Base.Int.{pos, half_word}
use tekton_kueue.Base.Decimal.{itoa}
use tekton_kueue.Tekton.{PipelineRun}
use tekton_kueue.Cel.Mutator.{apply_all}
use tekton_kueue.Cel.Mutator.Resource.{resource_request, sum, ReadsAs, apply_all-resource_stored}
use tekton_kueue.Controller.Job.{Quantities, resource_pipeline_run_count, resources_requests}
use tekton_kueue.Controller.Job.Requests.{
  IsMap, requests_key, requested_quantity, resources_requests-lookup,
}

-- A decimal number of int64 is a quantity, as the format of Kubernetes has it.
abbrev pub AreDecimal : (Q : Quantities) → (ℕ → Q.Quantity) → Type 0
AreDecimal Q quantity = (n : ℕ) → n < half_word → Q.parse_quantity (itoa (pos n)) ≡ ok (quantity n)

-- If decimal numbers are quantities, and the webhook applied at least one mutation `resource(name, …)`
-- with a total that fits into an int64, then the job requests that total of the resource: the
-- values of the mutations and of the annotation before, together.
pub resources_requests-apply_all :
    (Q : Quantities) (quantity : ℕ → Q.Quantity)
    → AreDecimal Q quantity
    → (plr : PipelineRun) (name : String) (a n : ℕ) (ns : List ℕ) (visited : Dict String)
      (rs : Dict Q.Quantity)
    → a + sum (n ∷ ns) < half_word
    → ReadsAs a (find plr.annotations (requests_key name))
    → (apply_all plr (map (resource_request (requests_key name)) (n ∷ ns))).0.annotations
      ≡ some visited
    → IsMap visited
    → name ≢ resource_pipeline_run_count
    → resources_requests Q visited ≡ ok rs
    → lookup rs name ≡ some (quantity (a + sum (n ∷ ns)))
unfolding find
resources_requests-apply_all Q quantity decimal plr name a n ns visited rs h reads same m other
      made =
    let stored : lookup visited (requests_key name) ≡ some (itoa (pos (a + sum (n ∷ ns)))) =
      ap (λ o. find o (requests_key name)) (sym same)
      ∙ apply_all-resource_stored plr (requests_key name) a n ns h reads in
    (resources_requests-lookup Q visited rs m made).1 name other
    ∙ rw (stored, requested_quantity, decimal (a + sum (n ∷ ns)) h) refl
