-- ===== src/Cel/Functions/Checks.antt =====
-- What the functions of expressions accept: the checks of keys and values in internal/cel/compiler.go.
use Prim.Native.String.{len}
use tekton_kueue.Base.{
  ◌≤◌, String, ◌<>◌, false, none, List, [], ◌∷◌, ◌≡◌, ◌≢◌, ◌↔◌, refl, arith, eq_iff,
}
use tekton_kueue.Base.Int.{ℤ, is_negative}
use tekton_kueue.Base.Decimal.{itoa}
use tekton_kueue.Base.Decimal.RoundTrip.{len-itoa-le}
use tekton_kueue.Cel.Values.{str, int, val}
use tekton_kueue.Cel.Functions.{
  Validation, max_annotation_value_size, mutation_map, complaint, mutation_binding,
  resource_binding,
}

complaint_iff :
    (format : String) (args errs : List String) → (complaint format args errs ≡ none) ↔ (errs ≡ [])
unfolding complaint
complaint_iff format args [] = (λ h. refl, λ h. refl)
complaint_iff format args (e ∷ es) = (λ h. cc, λ h. cc)

regroup : {A B C D : Type 0} → (A ↔ (B × C × D)) → A ↔ ((B × C) × D)
regroup (f, g) = (λ a. let (b, c, d) = f a in ((b, c), d), λ ((b, c), d). g (b, c, d))

module _ (V : Validation) where
  -- `annotation(key, value)` is accepted exactly if the key is a qualified name that is not empty
  -- and the value is no longer than the limit.
  annotation_iff :
      (name key value : String)
      → (mutation_binding V name "annotation" (val (str key)) (val (str value))
          ≡ mutation_map "annotation" key value)
        ↔ ((key ≢ "") × (V.is_qualified_name key ≡ []) × (len value ≤ max_annotation_value_size))
  unfolding mutation_binding
  annotation_iff name key value = ground (
    arith,
    eq_iff key "",
    complaint_iff "%s key '%s' is invalid: %s" ("annotation" ∷ key ∷ []) (V.is_qualified_name key),
  )

  -- `label(key, value)` is accepted exactly if the key is a qualified name that is not empty and
  -- the value is a valid label value.
  label_iff :
      (name key value : String)
      → (mutation_binding V name "label" (val (str key)) (val (str value))
          ≡ mutation_map "label" key value)
        ↔ ((key ≢ "") × (V.is_qualified_name key ≡ []) × (V.is_valid_label_value value ≡ []))
  unfolding mutation_binding
  label_iff name key value = ground (
    arith,
    eq_iff key "",
    complaint_iff "%s key '%s' is invalid: %s" ("label" ∷ key ∷ []) (V.is_qualified_name key),
    complaint_iff "label value '%s' is invalid: %s" (value ∷ []) (V.is_valid_label_value value),
  )

  -- `resource(key, n)` is accepted exactly if the key is a qualified name that is not empty and
  -- the number is not negative.
  resource_iff :
      (name key : String) (n : ℤ)
      → (resource_binding V name "resource" (val (str key)) (val (int n))
          ≡ mutation_map "resource" ("kueue.konflux-ci.dev/requests-" <> key) (itoa n))
        ↔ ((key ≢ "") × (V.is_qualified_name key ≡ []) × (is_negative n ≡ false))
  unfolding resource_binding
  resource_iff name key n = ground (
    arith,
    eq_iff key "",
    len-itoa-le n,
    complaint_iff "%s key '%s' is invalid: %s" ("resource annotation" ∷ key ∷ [])
        (V.is_qualified_name key),
  )

  -- A key that is a qualified name and not empty.
  abbrev pub IsKey : String → Type 0
  IsKey key = (key ≢ "") × (V.is_qualified_name key ≡ [])

  -- `annotation`, `label` and `resource` accept exactly a key that is a qualified name and not empty,
  -- with a value no longer than the limit, a valid label value, or a number that is not negative.
  pub functions-accept_iff :
      (name key : String)
      → ((value : String)
          → (mutation_binding V name "annotation" (val (str key)) (val (str value))
              ≡ mutation_map "annotation" key value)
            ↔ (IsKey key × (len value ≤ max_annotation_value_size)))
        × ((value : String)
            → (mutation_binding V name "label" (val (str key)) (val (str value))
                ≡ mutation_map "label" key value)
              ↔ (IsKey key × (V.is_valid_label_value value ≡ [])))
        × ((n : ℤ)
            → (resource_binding V name "resource" (val (str key)) (val (int n))
                ≡ mutation_map "resource" ("kueue.konflux-ci.dev/requests-" <> key) (itoa n))
              ↔ (IsKey key × (is_negative n ≡ false)))
  functions-accept_iff name key = (
    λ value. regroup (annotation_iff name key value),
    λ value. regroup (label_iff name key value),
    λ n. regroup (resource_iff name key n),
  )
