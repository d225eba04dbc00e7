-- ===== src/Cel/Types.antt =====
-- internal/cel/types.go: mutation types, which are texts in Go, and mutation requests.
pub mod Kinds
use tekton_kueue.Base.{
  String, Bool, false, ◌&&◌, ◌||◌, not, Option, none, some, List, [], ◌∷◌, ◌==◌, Error, errorf,
  Result, ok, err, ◌>>=◌, if◌then◌else◌,
}

abbrev pub MutationType : Type 0
MutationType = String

abbrev pub mutation_type_annotation : MutationType
mutation_type_annotation = "annotation"

abbrev pub mutation_type_label : MutationType
mutation_type_label = "label"

abbrev pub mutation_type_resource : MutationType
mutation_type_resource = "resource"

abbrev pub mutation_type_managed_by : MutationType
mutation_type_managed_by = "managedBy"

abbrev pub mutation_type_multi_kueue : MutationType
mutation_type_multi_kueue = "multiKueue"

abbrev pub valid_types : List MutationType
valid_types =
    mutation_type_annotation ∷ mutation_type_label ∷ mutation_type_resource
    ∷ mutation_type_managed_by ∷ mutation_type_multi_kueue ∷ []

-- `slices.Contains`
unfoldable pub contains : List String → String → Bool
contains [] s = false
contains (x ∷ xs) s = x == s || contains xs s

unfoldable pub is_valid : MutationType → Bool
unfolding contains
is_valid mt = contains valid_types mt

pub record MutationRequest : Type 0 where
  pub type : MutationType
  pub key : String
  pub value : String

-- `Validate`: nil, or the first complaint.
unfoldable pub validate : MutationRequest → Option Error
unfolding is_valid
validate mr =
    if not (is_valid mr.type)
    then some (errorf "invalid mutation type: %v" (mr.type ∷ []))
    else if mr.key == ""
    then some (errorf "mutation key cannot be empty" [])
    else if mr.value == "" && not (mr.type == mutation_type_multi_kueue)
    then some (errorf "mutation value cannot be empty" [])
    else if mr.type == mutation_type_managed_by && not (mr.key == "managedBy")
    then some (errorf "managedBy mutation must use key %q, got %q" ("managedBy" ∷ mr.key ∷ []))
    else none

-- `String`
abbrev pub string : MutationType → String
string mt = mt

-- `encoding/json` on texts is a parameter.
module _ (json_marshal : String → Result String) (json_unmarshal : String → Result String) where
  -- `UnmarshalJSON`: the new value of the receiver.
  unfoldable pub unmarshal_json : String → Result MutationType
  unfolding is_valid
  unmarshal_json data' = do
    s ← json_unmarshal data'
    if is_valid s
        then ok s
        else err (errorf "invalid mutation type: %q, must be one of: %v" (s ∷ valid_types))

  unfoldable pub marshal_json : MutationType → Result String
  marshal_json mt = json_marshal mt
