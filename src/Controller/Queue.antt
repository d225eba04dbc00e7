-- ===== src/Controller/Queue.antt =====
-- The work queue of controller-runtime, as it is documented: the requests of the events, in order.
use tekton_kueue.Base.{
  String, Bool-cases, List, [], ◌∷◌, ◌++◌, ◌==◌, eq_iff, ◌≡◌, ◌⊎◌, inl, inr, arith,
}

-- A namespace and a name.
abbrev pub Request : Type 0
Request = String × String

abbrev pub IsQueued : Request → List Request → Type 0
IsQueued r [] = ⊥
IsQueued r (x ∷ xs) = (x ≡ r) ⊎ IsQueued r xs

pub IsQueued-left : (r : Request) (xs ys : List Request) → IsQueued r xs → IsQueued r (xs ++ ys)
IsQueued-left r [] ys h = absurd h
IsQueued-left r (x ∷ xs) ys (inl h) = inl h
IsQueued-left r (x ∷ xs) ys (inr h) = inr (IsQueued-left r xs ys h)

pub IsQueued-right : (r : Request) (xs ys : List Request) → IsQueued r ys → IsQueued r (xs ++ ys)
IsQueued-right r [] ys h = h
IsQueued-right r (x ∷ xs) ys h = inr (IsQueued-right r xs ys h)

pub IsQueued-other :
    (r x : Request) (xs : List Request) → IsQueued r (x ∷ xs) → (x ≡ r → ⊥) → IsQueued r xs
IsQueued-other r x xs (inl e) other = absurd (other e)
IsQueued-other r x xs (inr h) other = h

pub names-cases :
    (n k namespace name : String)
    → ((n ≡ namespace) × (k ≡ name)) ⊎ ((n ≡ namespace) × (k ≡ name) → ⊥)
names-cases n k namespace name = elim (Bool-cases (n == namespace)) [
  | inr e ↦ inr (λ (f, _). ground (arith, eq_iff n namespace))
  | inl e ↦ elim (Bool-cases (k == name)) [
    | inr e' ↦ inr (λ (_, g). ground (arith, eq_iff k name))
    | inl e' ↦ inl ((eq_iff n namespace).0 e, (eq_iff k name).0 e')
  ]
]
