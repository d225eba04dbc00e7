-- ===== src/Controller/Job/Refusals.antt =====
-- The annotations that stop a job, and the errors that they give.
use mathlib.Core.Path.{subst}
use tekton_kueue.Base.{
  String, Option, [], ◌∷◌, Dict, Error, unretryable, Result, ok, err, ◌>>=◌, ◌≡◌, sym, ◌∙◌, All,
}
use tekton_kueue.Controller.Job.{Quantities, put, requests_loop, resources_requests}
use tekton_kueue.Controller.Job.Requests.{
  requests_key, requests_key-injective, IsRequest, IsParsed, ignored, requested, rejected,
  parse-IsParsed,
}

abbrev pub IsUnretryable : Error → Type 0
IsUnretryable (unretryable format args) = Unit
IsUnretryable _ = ⊥

module _ (Q : Quantities) where
  -- An annotation of no resource, or one that makes a request.
  abbrev pub IsFine : String × String → Type 0
  IsFine (k, v) = (t : String) → k ≡ requests_key t → (q : Q.Quantity) × IsRequest Q k v t q

  abbrev IsFineIf : String × String → Result (Option (String × Q.Quantity)) → Type 0
  IsFineIf a (ok o) = IsFine a
  IsFineIf a (err e) = IsUnretryable e × ¬ IsFine a

  IsParsed-IsFineIf :
      (k v : String) (x : Result (Option (String × Q.Quantity)))
      → IsParsed Q k v x
      → IsFineIf (k, v) x
  IsParsed-IsFineIf k v _ (ignored other) = λ t h. absurd (other t h)
  IsParsed-IsFineIf k v _ (requested t q r) = λ t' h.
      let same : t ≡ t' = requests_key-injective t t' (sym r.keyed ∙ h) in
      subst (λ s. (q : Q.Quantity) × IsRequest Q k v s q) same (q, r)
  IsParsed-IsFineIf k v _ (rejected t format args keyed other) =
      (tt, λ fine. let (q, r) = fine t keyed in other q r)

  abbrev pub AreFineIf : Dict String → Result (Dict Q.Quantity) → Type 0
  AreFineIf visited (ok rs) = All IsFine visited
  AreFineIf visited (err e) = IsUnretryable e × ¬ All IsFine visited

  AreFineIf-fine :
      (k v : String) (visited : Dict String) (x : Result (Dict Q.Quantity))
      → IsFine (k, v)
      → AreFineIf visited x
      → AreFineIf ((k, v) ∷ visited) x
  AreFineIf-fine k v visited (ok rs) fine all = (fine, all)
  AreFineIf-fine k v visited (err e) fine (stop, bad) = (stop, λ (_, all). bad all)

  AreFineIf-cons :
      (k v : String) (visited : Dict String) (x : Result (Option (String × Q.Quantity)))
      (next : Option (String × Q.Quantity) → Result (Dict Q.Quantity))
      → IsFineIf (k, v) x
      → ((o : Option (String × Q.Quantity)) → AreFineIf visited (next o))
      → AreFineIf ((k, v) ∷ visited) (x >>= next)
  AreFineIf-cons k v visited (err e) next (stop, bad) rest = (stop, λ (fine, _). bad fine)
  AreFineIf-cons k v visited (ok o) next fine rest =
      AreFineIf-fine k v visited (next o) fine (rest o)

  requests_loop-AreFineIf :
      (requests : Dict Q.Quantity) (visited : Dict String)
      → AreFineIf visited (requests_loop Q requests visited)
  unfolding requests_loop
  requests_loop-AreFineIf requests [] = tt
  requests_loop-AreFineIf requests ((k, v) ∷ visited) =
      AreFineIf-cons k v visited _ _ (IsParsed-IsFineIf k v _ (parse-IsParsed Q k v))
        (λ o. requests_loop-AreFineIf (put Q requests o) visited)

  -- If requests are returned, each annotation of a resource has a name, not that of the token, and
  -- a quantity that parses and is not negative. If an error is returned, it is unretryable, and not
  -- every annotation of a resource is so.
  pub resources_requests-AreFineIf :
      (visited : Dict String) → AreFineIf visited (resources_requests Q visited)
  unfolding resources_requests
  resources_requests-AreFineIf visited = requests_loop-AreFineIf _ visited
