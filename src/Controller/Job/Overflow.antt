-- ===== src/Controller/Job/Overflow.antt =====
-- What a sum of resource values that overflows means for the job.
use tekton_kueue.Base.{
  ℕ, ◌+◌, ◌<◌, ◌≤◌, String, true, false, some, Dict, lookup, find, Error, ok, err, Result-cases,
  All, ◌≡◌, refl, sym, ap, ◌∙◌, inl, inr, none,
}
use mathlib.Core.Path.{subst}
use tekton_kueue.Base.Int.{ℤ, pos, is_negative, half_word}
use tekton_kueue.Base.Decimal.{atoi}
use tekton_kueue.Tekton.{PipelineRun}
use tekton_kueue.Cel.Mutator.{mutate}
use tekton_kueue.Cel.Mutator.Resource.{resource_request, mutate-resource_overflow}
use tekton_kueue.Controller.Job.{Quantities, resources_requests}
use tekton_kueue.Controller.Job.Requests.{requests_key}
use tekton_kueue.Controller.Job.Refusals.{
  IsUnretryable, IsFine, AreFineIf, resources_requests-AreFineIf,
}
use tekton_kueue.Controller.Job.Visits.{All-lookup}

-- A text that reads as a negative int is no quantity that is not negative.
abbrev pub AreSigned : Quantities → Type 0
AreSigned Q =
    (text : String) (z : ℤ) (q : Q.Quantity)
    → atoi text ≡ ok z
    → is_negative z ≡ true
    → Q.parse_quantity text ≡ ok q
    → Q.is_negative q ≡ true

module _ (Q : Quantities) (signed : AreSigned Q) where
  negative-refused :
      (visited : Dict String) (name stored : String) (z : ℤ)
      → lookup visited (requests_key name) ≡ some stored
      → atoi stored ≡ ok z
      → is_negative z ≡ true
      → (e : Error) × (resources_requests Q visited ≡ err e) × IsUnretryable e
  negative-refused visited name stored z found reads negative =
      let outcome = resources_requests-AreFineIf Q visited in
      elim (Result-cases (resources_requests Q visited)) [
        | inr (e, same) ↦ (e, same, (subst (AreFineIf Q visited) same outcome).0)
        | inl (rs, same) ↦
            let all : All (IsFine Q) visited = subst (AreFineIf Q visited) same outcome in
            let (q, r) =
              All-lookup (IsFine Q) visited (requests_key name) stored all found name refl in
            let clash : true ≡ false = sym (signed stored z q reads negative r.parsed) ∙ r.signed in
            absurd (cc)
      ]

  -- If a text that reads as a negative int is no quantity that is not negative, and the value of a
  -- mutation `resource(name, n)` and the value that is there fit into int64 and their sum does not, the
  -- webhook applies the mutation without an error, and the job that it admits can not
  -- make its requests: it is refused with an error that is not tried again.
  pub mutate-refused :
      (plr : PipelineRun) (name text : String) (n a : ℕ) (visited : Dict String)
      → n < half_word
      → a < half_word
      → half_word ≤ n + a
      → find plr.annotations (requests_key name) ≡ some text
      → atoi text ≡ ok (pos a)
      → (mutate plr (resource_request (requests_key name) n)).0.annotations ≡ some visited
      → ((mutate plr (resource_request (requests_key name) n)).1 ≡ none)
        × ((e : Error) × (resources_requests Q visited ≡ err e) × IsUnretryable e)
  unfolding find
  mutate-refused plr name text n a visited hn ha over found reads same =
      let (fine, (z, stored, left, read, negative)) =
        mutate-resource_overflow plr (requests_key name) text n a hn ha over found reads in
      (
        fine,
        negative-refused visited name stored z
            (ap (λ o. find o (requests_key name)) (sym same) ∙ left) read negative,
      )
