-- ===== src/Cel/Evaluator/Convert.antt =====
-- What `convertToMutationRequests` accepts, and what it returns.
use tekton_kueue.Base.{
  err-ne-ok, ℕ, suc, String, true, some, List, [], ◌∷◌, ◌++◌, eq_iff, ok, ◌≡◌, ◌≢◌, ◌↔◌, inl, inr,
  ◌∙◌, arith, Result-cases,
}
use mathlib.Core.List.{append_assoc, append-nil}
use tekton_kueue.Cel.Types.{is_valid, MutationRequest}
use tekton_kueue.Cel.Values.{
  Value, str, slice, vals, object, Fields, RefVal, native, to_list, get_field,
}
use tekton_kueue.Cel.Evaluator.{
  extract_string_field, extract_mutation_type, convert_map, convert_single_mutation, convert_loop,
  convert_list_to_mutations, native_list, convert_value, convert_to_mutation_requests,
}

-- The map holds the three texts of the request, under a valid type and a key that is not empty.
abbrev pub Describes : Fields → MutationRequest → Type 0
Describes m r =
    (get_field m "type" ≡ some (str r.type))
    × (is_valid r.type ≡ true)
    × (get_field m "key" ≡ some (str r.key))
    × (r.key ≢ "")
    × (get_field m "value" ≡ some (str r.value))

abbrev pub DescribesValue : Value → MutationRequest → Type 0
DescribesValue (object m) r = Describes m r
DescribesValue v r = ⊥

abbrev pub DescribesAll : List Value → List MutationRequest → Type 0
DescribesAll [] [] = Unit
DescribesAll (v ∷ vs) (r ∷ rs) = DescribesValue v r × DescribesAll vs rs
DescribesAll [] (r ∷ rs) = ⊥
DescribesAll (v ∷ vs) [] = ⊥

-- A map describes one request, and a list of either kind describes its elements in order.
abbrev pub Returns : Value → List MutationRequest → Type 0
Returns (object m) rs = DescribesAll (object m ∷ []) rs
Returns (slice items) rs = DescribesAll (to_list items) rs
Returns (vals items) rs = DescribesAll (native_list items) rs
Returns v rs = ⊥

extract_string_field_iff :
    (m : Fields) (k s : String) → (extract_string_field m k ≡ ok s) ↔ (get_field m k ≡ some (str s))
unfolding extract_string_field
extract_string_field_iff m k s = ground arith

extract_mutation_type_iff :
    (m : Fields) (s : String)
    → (extract_mutation_type m ≡ ok s) ↔ ((get_field m "type" ≡ some (str s)) × (is_valid s ≡ true))
unfolding extract_mutation_type
extract_mutation_type_iff m s = ground arith

-- A map converts to a request exactly if it describes it.
convert_map_iff : (m : Fields) (r : MutationRequest) → (convert_map m ≡ ok r) ↔ Describes m r
unfolding convert_map
convert_map_iff m r = (
  ground (
    arith,
    extract_mutation_type_iff m r.type,
    extract_string_field_iff m "key" r.key,
    extract_string_field_iff m "value" r.value,
    eq_iff r.key "",
  ),
  ground (
    arith,
    extract_mutation_type_iff m r.type,
    extract_string_field_iff m "key" r.key,
    extract_string_field_iff m "value" r.value,
    eq_iff r.key "",
  ),
)

convert_single_mutation_sound :
    (v : Value) (r : MutationRequest) → convert_single_mutation v ≡ ok r → DescribesValue v r
unfolding convert_single_mutation
convert_single_mutation_sound (object m) r h = (convert_map_iff m r).0 h
convert_single_mutation_sound _ r h = cc

convert_single_mutation_complete :
    (v : Value) (r : MutationRequest) → DescribesValue v r → convert_single_mutation v ≡ ok r
unfolding convert_single_mutation
convert_single_mutation_complete (object m) r h = (convert_map_iff m r).1 h
convert_single_mutation_complete _ r h = absurd h

convert_loop_sound :
    (i : ℕ) (done rs : List MutationRequest) (vs : List Value)
    → convert_loop i done vs ≡ ok rs
    → (ts : List MutationRequest) × (rs ≡ done ++ ts) × DescribesAll vs ts
unfolding convert_loop
convert_loop_sound i done rs [] h = ([], rw append-nil (cc), tt)
convert_loop_sound i done rs (v ∷ vs) h = elim (Result-cases (convert_single_mutation v)) [
  | inl (r, e) ↦
      let (ts, same, all) =
        convert_loop_sound (suc i) (done ++ (r ∷ [])) rs vs (rw (e, convert_loop) at h) in
      (r ∷ ts, same ∙ append_assoc done (r ∷ []) ts, (convert_single_mutation_sound v r e, all))
  | inr (e, failed) ↦ absurd (err-ne-ok (rw (failed, convert_loop) at h))
]

convert_loop_complete :
    (i : ℕ) (done : List MutationRequest) (vs : List Value) (ts : List MutationRequest)
    → DescribesAll vs ts
    → convert_loop i done vs ≡ ok (done ++ ts)
unfolding convert_loop
convert_loop_complete i done [] [] h = rw append-nil
convert_loop_complete i done [] (r ∷ rs) h = absurd h
convert_loop_complete i done (v ∷ vs) [] h = absurd h
convert_loop_complete i done (v ∷ vs) (r ∷ rs) (d, h) =
    rw (convert_single_mutation_complete v r d, convert_loop)
      (convert_loop_complete (suc i) (done ++ (r ∷ [])) vs rs h ∙ rw append_assoc)

convert_list_to_mutations_iff :
    (vs : List Value) (rs : List MutationRequest)
    → (convert_list_to_mutations vs ≡ ok rs) ↔ DescribesAll vs rs
unfolding convert_list_to_mutations
convert_list_to_mutations_iff vs rs = (
  λ h. let (ts, same, all) = convert_loop_sound 0 [] rs vs h in rw same all,
  convert_loop_complete 0 [] vs rs,
)

convert_value_sound :
    (v : Value) (rs : List MutationRequest) → convert_value v ≡ ok rs → Returns v rs
unfolding convert_value
convert_value_sound (slice items) rs h = (convert_list_to_mutations_iff _ rs).0 h
convert_value_sound (vals items) rs h = (convert_list_to_mutations_iff _ rs).0 h
convert_value_sound (object m) rs h = elim (Result-cases (convert_single_mutation (object m))) [
  | inl (r, e) ↦
      let one : r ∷ [] ≡ rs = ground arith in
      rw (← one) (convert_single_mutation_sound (object m) r e, tt)
  | inr (e, failed) ↦ absurd (ground arith)
]
convert_value_sound _ rs h = cc

convert_value_complete :
    (v : Value) (rs : List MutationRequest) → Returns v rs → convert_value v ≡ ok rs
unfolding convert_value
convert_value_complete (slice items) rs h = (convert_list_to_mutations_iff _ rs).1 h
convert_value_complete (vals items) rs h = (convert_list_to_mutations_iff _ rs).1 h
convert_value_complete (object m) [] h = absurd h
convert_value_complete (object m) (r ∷ []) (d, h) =
    rw (convert_single_mutation_complete (object m) r d)
convert_value_complete (object m) (r ∷ s ∷ rs) (d, h) = absurd h
convert_value_complete _ rs h = absurd h

-- What an expression returns is accepted exactly if it is a map that describes a request, or a
-- list of such maps, and the requests are those described, in order.
pub convert_to_mutation_requests_iff :
    (out : RefVal) (rs : List MutationRequest)
    → (convert_to_mutation_requests out ≡ ok rs) ↔ Returns (native out) rs
unfolding convert_to_mutation_requests
convert_to_mutation_requests_iff out rs =
    (convert_value_sound (native out) rs, convert_value_complete (native out) rs)
