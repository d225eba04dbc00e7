-- ===== src/Cel/Functions/Accept.antt =====
-- What the functions of expressions accept, and that the evaluator accepts what they return.
use tekton_kueue.Base.{
  String, true, Option, none, some, List, Error, ok, ◌≡◌, ◌≢◌, ◌↔◌, refl, inl, inr, arith, eq_iff,
  if◌then◌else◌, ◌==◌, Bool-cases,
}
use tekton_kueue.Base.Int.{ℤ, is_negative}
use tekton_kueue.Base.Decimal.{itoa}
use tekton_kueue.Base.Decimal.RoundTrip.{itoa-ne-nil}
use text.Mathlib.TextLemmas.{append-ne-nil_of_right_ne-nil}
use tekton_kueue.Cel.Types.{MutationType, MutationRequest, validate, is_valid}
use tekton_kueue.Cel.Values.{RefVal, fault, val, native}
use tekton_kueue.Cel.Functions.{
  Validation, as_string, as_int, mutation_map, unless_err, validate_key, validate_label_value,
  validate_annotation_value, key_error, value_error, mutation_of, mutation_binding, resource_of,
  resource_binding, priority_of, priority_binding, managed_by_of, managed_by_binding,
  multi_kueue_of, multi_kueue_binding, multi_kueue_zero_binding,
}
use tekton_kueue.Cel.Evaluator.{convert_single_mutation}

-- The result of a function call in an expression: a fault, or a map that the evaluator converts to
-- a request of the type, which passes `Validate` under the condition.
abbrev pub IsAccepted : MutationType → (MutationRequest → Type 0) → RefVal → Type 0
IsAccepted t C (fault e) = Unit
IsAccepted t C (val v) =
    (r : MutationRequest) × (convert_single_mutation v ≡ ok r)
    × (r.type ≡ t)
    × ((validate r ≡ none) ↔ C r)

abbrev pub Always : MutationRequest → Type 0
Always r = Unit

abbrev pub HasValue : MutationRequest → Type 0
HasValue r = r.value ≢ ""

mutation_map-IsAccepted :
    (t : MutationType) (C : MutationRequest → Type 0) (k v : String)
    → is_valid t ≡ true
    → k ≢ ""
    → ((validate (record { type = t; key = k; value = v }) ≡ none)
        ↔ C (record { type = t; key = k; value = v }))
    → IsAccepted t C (mutation_map t k v)
unfolding convert_single_mutation
mutation_map-IsAccepted t C k v ht hk c =
    (record { type = t; key = k; value = v }, ground (arith, eq_iff k ""), refl, c)

-- The chain of checks behind the test on the key.
unless_err-IsAccepted :
    (t : MutationType) (C : MutationRequest → Type 0) (format name : String) (x : Option Error)
    (r : RefVal)
    → IsAccepted t C r
    → IsAccepted t C (unless_err format name x r)
unless_err-IsAccepted t C format name none r h = h
unless_err-IsAccepted t C format name (some x) r h = tt

if-IsAccepted :
    (t : MutationType) (C : MutationRequest → Type 0) (s : String) (x : Error) (r : RefVal)
    → (s ≢ "" → IsAccepted t C r)
    → IsAccepted t C (if s == "" then fault x else r)
if-IsAccepted t C s x r h = elim (Bool-cases (s == "")) [
  | inl e ↦ rw e tt
  | inr e ↦ rw e (h (λ p. ground (arith, eq_iff s "")))
]

abbrev Request : MutationType → String → String → MutationRequest
Request t k v = record { type = t; key = k; value = v }

HasValue_iff :
    (k v : String)
    → k ≢ ""
    → ((validate (Request "annotation" k v) ≡ none) ↔ (v ≢ ""))
      × ((validate (Request "label" k v) ≡ none) ↔ (v ≢ ""))
      × ((validate (Request "resource" k v) ≡ none) ↔ (v ≢ ""))
unfolding validate
HasValue_iff k v h = (
  ground (arith, eq_iff k "", eq_iff v ""),
  ground (arith, eq_iff k "", eq_iff v ""),
  ground (arith, eq_iff k "", eq_iff v ""),
)

always : (r : MutationRequest) → validate r ≡ none → (validate r ≡ none) ↔ Unit {0}
always r h = (λ _. tt, λ _. h)

priority_key_given : ◌≢◌ {A = String} "kueue.x-k8s.io/priority-class" ""
priority_key_given e = cc

validate_fixed :
    (v : String)
    → v ≢ ""
    → (validate (Request "managedBy" "managedBy" v) ≡ none)
      × (validate (Request "multiKueue" "managedBy" v) ≡ none)
unfolding validate
validate_fixed v h = (ground (arith, eq_iff v ""), ground (arith, eq_iff v ""))

module _ (V : Validation) where
  mutation_of-IsAccepted :
      (name : String) (key value : Option String)
      → IsAccepted "annotation" HasValue (mutation_of V name "annotation" key value)
        × IsAccepted "label" HasValue (mutation_of V name "label" key value)
  unfolding mutation_of is_valid
  mutation_of-IsAccepted name (some key) (some value) = (
    if-IsAccepted "annotation" HasValue key _ _ λ h.
        unless_err-IsAccepted "annotation" HasValue _ name (key_error V "annotation" key) _ (
          unless_err-IsAccepted "annotation" HasValue _ name (value_error V "annotation" value) _ (
            mutation_map-IsAccepted "annotation" HasValue key value refl h
              (HasValue_iff key value h).0)),
    if-IsAccepted "label" HasValue key _ _ λ h.
        unless_err-IsAccepted "label" HasValue _ name (key_error V "label" key) _ (
          unless_err-IsAccepted "label" HasValue _ name (value_error V "label" value) _ (
            mutation_map-IsAccepted "label" HasValue key value refl h
              (HasValue_iff key value h).1)),
  )
  mutation_of-IsAccepted name (some key) none = (tt, tt)
  mutation_of-IsAccepted name none value = (tt, tt)

  resource_of-IsAccepted :
      (name : String) (key : Option String) (n : Option ℤ)
      → IsAccepted "resource" Always (resource_of V name "resource" key n)
  unfolding resource_of is_valid
  resource_of-IsAccepted name none n = tt
  resource_of-IsAccepted name (some key) none = if-IsAccepted "resource" Always key _ _ λ h. tt
  resource_of-IsAccepted name (some key) (some n) = if-IsAccepted "resource" Always key _ _ λ h.
      elim (Bool-cases (is_negative n)) [
        | inl e ↦ rw e tt
        | inr e ↦ rw e (
            unless_err-IsAccepted "resource" Always _ name
              (validate_key V key "resource annotation") _
              (unless_err-IsAccepted "resource" Always _ name (validate_annotation_value (itoa n)) _
                (let prefixed = append-ne-nil_of_right_ne-nil "kueue.konflux-ci.dev/requests-" h in
                  mutation_map-IsAccepted "resource" Always _ (itoa n) refl prefixed
                    (always _ ((HasValue_iff _ (itoa n) prefixed).2.1 (itoa-ne-nil n))))))
      ]

  multi_kueue_of-IsAccepted :
      (name : String) (queue : Option String)
      → IsAccepted "multiKueue" Always (multi_kueue_of V name queue)
  unfolding multi_kueue_of is_valid
  multi_kueue_of-IsAccepted name none = tt
  multi_kueue_of-IsAccepted name (some queue) = if-IsAccepted "multiKueue" Always queue _ _ λ h.
      unless_err-IsAccepted "multiKueue" Always _ name (validate_label_value V queue) _ (
        mutation_map-IsAccepted "multiKueue" Always "managedBy" queue refl (λ e. cc)
          (always _ (validate_fixed queue h).1))

priority_of-IsAccepted :
    (name : String) (value : Option String) → IsAccepted "label" HasValue (priority_of name value)
unfolding priority_of is_valid
priority_of-IsAccepted name none = tt
priority_of-IsAccepted name (some value) =
    mutation_map-IsAccepted "label" HasValue "kueue.x-k8s.io/priority-class" value refl
      priority_key_given (HasValue_iff "kueue.x-k8s.io/priority-class" value priority_key_given).1

managed_by_of-IsAccepted :
    (name : String) (value : Option String)
    → IsAccepted "managedBy" Always (managed_by_of name value)
unfolding managed_by_of is_valid
managed_by_of-IsAccepted name none = tt
managed_by_of-IsAccepted name (some value) = if-IsAccepted "managedBy" Always value _ _ λ h.
    mutation_map-IsAccepted "managedBy" Always "managedBy" value refl (λ e. cc)
      (always _ (validate_fixed value h).0)

module _ (V : Validation) (name : String) where
  -- Whatever the values that an expression passes, a call of one of the six functions is a fault, or
  -- returns a map that the evaluator converts to a request of the function's type. That request
  -- passes `Validate` exactly if it has a value for `annotation`, `label` and `priority`, and always
  -- for `resource`, `managedBy` and `multiKueue`.
  pub functions-IsAccepted :
      (v w : RefVal) (args : List RefVal)
      → IsAccepted "annotation" HasValue (mutation_binding V name "annotation" v w)
        × IsAccepted "label" HasValue (mutation_binding V name "label" v w)
        × IsAccepted "resource" Always (resource_binding V name "resource" v w)
        × IsAccepted "label" HasValue (priority_binding name v)
        × IsAccepted "managedBy" Always (managed_by_binding name v)
        × IsAccepted "multiKueue" Always (multi_kueue_binding V name v)
        × IsAccepted "multiKueue" Always (multi_kueue_zero_binding args)
  unfolding mutation_binding resource_binding priority_binding managed_by_binding
      multi_kueue_binding is_valid validate
  functions-IsAccepted v w args = (
    (mutation_of-IsAccepted V name (as_string (native v)) (as_string (native w))).0,
    (mutation_of-IsAccepted V name (as_string (native v)) (as_string (native w))).1,
    resource_of-IsAccepted V name (as_string (native v)) (as_int (native w)),
    priority_of-IsAccepted name (as_string (native v)),
    managed_by_of-IsAccepted name (as_string (native v)),
    multi_kueue_of-IsAccepted V name (as_string (native v)),
    mutation_map-IsAccepted "multiKueue" Always "managedBy" "" refl (λ e. cc)
        (always (Request "multiKueue" "managedBy" "") refl),
  )
