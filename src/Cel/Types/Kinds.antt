-- ===== src/Cel/Types/Kinds.antt =====
-- The mutation types as a closed type, and their JSON.
use mathlib.Core.Option.{some-injective}
use tekton_kueue.Base.{
  String, true, Option, none, some, ◌==◌, eq_iff, Result, ok, err, >>=-eq-ok, if◌then◌else◌, ◌≡◌,
  refl, sym, ap, ◌∙◌, ◌↔◌, Bool-cases, inl, inr, ◌⊎◌, Error, errorf, err-ne-ok, ◌∷◌, arith,
}
use tekton_kueue.Cel.Types.{
  MutationType, mutation_type_annotation, mutation_type_label, mutation_type_resource,
  mutation_type_managed_by, mutation_type_multi_kueue, valid_types, contains, is_valid,
  unmarshal_json, marshal_json,
}

-- The five mutation types.
pub data Kind : Type 0 where
  annotation : Kind
  label : Kind
  resource : Kind
  managed_by : Kind
  multi_kueue : Kind

abbrev pub name_of : Kind → MutationType
name_of annotation = mutation_type_annotation
name_of label = mutation_type_label
name_of resource = mutation_type_resource
name_of managed_by = mutation_type_managed_by
name_of multi_kueue = mutation_type_multi_kueue

kind_of : String → Option Kind
kind_of s =
    if s == mutation_type_annotation
    then some annotation
    else if s == mutation_type_label
    then some label
    else if s == mutation_type_resource
    then some resource
    else if s == mutation_type_managed_by
    then some managed_by
    else if s == mutation_type_multi_kueue
    then some multi_kueue
    else none

kind_of-name_of : (k : Kind) → kind_of (name_of k) ≡ some k
unfolding kind_of
kind_of-name_of annotation = refl
kind_of-name_of label = refl
kind_of-name_of resource = refl
kind_of-name_of managed_by = refl
kind_of-name_of multi_kueue = refl

-- A text is the name of exactly one kind.
abbrev pub IsKind : String → Type 0
IsKind s = (k : Kind) × (name_of k ≡ s) × ((j : Kind) → name_of j ≡ s → j ≡ k)

IsKind-name_of : (k : Kind) (s : String) → name_of k ≡ s → IsKind s
IsKind-name_of k s e = (
  k,
  e,
  λ j f. some-injective j k (sym (kind_of-name_of j) ∙ ap kind_of (f ∙ sym e) ∙ kind_of-name_of k),
)

is_valid-cases :
    (s : String)
    → is_valid s ≡ true
    → (mutation_type_annotation ≡ s)
      ⊎ (mutation_type_label ≡ s)
      ⊎ (mutation_type_resource ≡ s)
      ⊎ (mutation_type_managed_by ≡ s)
      ⊎ (mutation_type_multi_kueue ≡ s)
unfolding is_valid contains
is_valid-cases s h = ground (
  arith,
  eq_iff mutation_type_annotation s,
  eq_iff mutation_type_label s,
  eq_iff mutation_type_resource s,
  eq_iff mutation_type_managed_by s,
  eq_iff mutation_type_multi_kueue s,
)

is_valid-name_of : (k : Kind) → is_valid (name_of k) ≡ true
unfolding is_valid contains
is_valid-name_of annotation = refl
is_valid-name_of label = refl
is_valid-name_of resource = refl
is_valid-name_of managed_by = refl
is_valid-name_of multi_kueue = refl

-- The valid mutation types are the names of the five kinds.
pub is_valid_iff : (s : String) → (is_valid s ≡ true) ↔ IsKind s
is_valid_iff s = (
  λ h. elim (is_valid-cases s h) [
    | inl e ↦ IsKind-name_of annotation s e
    | inr (inl e) ↦ IsKind-name_of label s e
    | inr (inr (inl e)) ↦ IsKind-name_of resource s e
    | inr (inr (inr (inl e))) ↦ IsKind-name_of managed_by s e
    | inr (inr (inr (inr e))) ↦ IsKind-name_of multi_kueue s e
  ],
  λ (k, e, _). ap is_valid (sym e) ∙ is_valid-name_of k,
)

-- `encoding/json` reads back the text that it made.
abbrev pub ReadsBack : (String → Result String) → (String → Result String) → Type 0
ReadsBack json_marshal json_unmarshal =
    (s t : String) → json_marshal s ≡ ok t → json_unmarshal t ≡ ok s

module _ (json_marshal : String → Result String) (json_unmarshal : String → Result String) where
  -- The error of `UnmarshalJSON` for a text that is no type.
  abbrev pub no_type : String → Error
  no_type s = errorf "invalid mutation type: %q, must be one of: %v" (s ∷ valid_types)

  -- What is read from a text that is JSON of `s`.
  unmarshal_json-read :
      (t s : String)
      → json_unmarshal t ≡ ok s
      → ((unmarshal_json json_marshal json_unmarshal t ≡ ok s) × IsKind s)
        ⊎ ((unmarshal_json json_marshal json_unmarshal t ≡ err (no_type s)) × ¬ IsKind s)
  unfolding unmarshal_json
  unmarshal_json-read t s h = elim (Bool-cases (is_valid s)) [
    | inl v ↦ inl (rw (h, v) refl, (is_valid_iff s).0 v)
    | inr v ↦ inr (rw (h, v) refl, λ k. ground (arith, (is_valid_iff s).1 k))
  ]

  read_iff :
      (t s : String)
      → json_unmarshal t ≡ ok s
      → ((unmarshal_json json_marshal json_unmarshal t ≡ ok s) ↔ IsKind s)
        × ((unmarshal_json json_marshal json_unmarshal t ≡ err (no_type s)) ↔ (¬ IsKind s))
  read_iff t s h = elim (unmarshal_json-read t s h) [
    | inl (e, k) ↦ ((λ _. k, λ _. e), (λ f. absurd (err-ne-ok (sym f ∙ e)), λ n. absurd (n k)))
    | inr (e, n) ↦ ((λ f. absurd (err-ne-ok (sym e ∙ f)), λ k. absurd (n k)), (λ _. n, λ _. e))
  ]

  unmarshal_json-IsKind :
      (t mt : String) → unmarshal_json json_marshal json_unmarshal t ≡ ok mt → IsKind mt
  unfolding unmarshal_json
  unmarshal_json-IsKind t mt h =
      let (s, e, rest) = >>=-eq-ok (json_unmarshal t) _ h in
      elim (Bool-cases (is_valid s)) [
        | inl v ↦ let same : s ≡ mt = cc in (is_valid_iff mt).0 (ap is_valid (sym same) ∙ v)
        | inr v ↦ absurd (err-ne-ok (rw v at rest))
      ]

  -- If JSON reads back what it made, a type that is read from JSON is the name of exactly one of the five
  -- kinds, and the JSON of a type is read back as that type exactly if it is such a name, and refused as
  -- no type exactly if not.
  pub unmarshal_json-marshal_json :
      ReadsBack json_marshal json_unmarshal
      → ((t mt : String) → unmarshal_json json_marshal json_unmarshal t ≡ ok mt → IsKind mt)
        × ((mt t : String)
            → marshal_json json_marshal json_unmarshal mt ≡ ok t
            → ((unmarshal_json json_marshal json_unmarshal t ≡ ok mt) ↔ IsKind mt)
              × ((unmarshal_json json_marshal json_unmarshal t ≡ err (no_type mt)) ↔ (¬ IsKind mt)))
  unfolding marshal_json
  unmarshal_json-marshal_json back = (unmarshal_json-IsKind, λ mt t h. read_iff t mt (back mt t h))
