-- ===== src/Cel/Functions.antt =====
-- internal/cel/compiler.go, lines 13-15, 77-298 and 376-409: the functions that expressions call, and the
-- checks on keys and values. Each `create…` function is a declaration with its binding; the
-- bindings are named, so that theorems can speak of them.
pub mod Replace
pub mod Checks
pub mod Accept
use Prim.Native.String.{len}
use tekton_kueue.Base.{
  ℕ, ◌*◌, String, ◌<>◌, Bool, true, false, Option, none, some, List, [], ◌∷◌, ◌==◌, Error, errorf,
  errorv, ltb, if◌then◌else◌,
}
use tekton_kueue.Base.Int.{ℤ, pos, negsuc, is_negative}
use tekton_kueue.Base.Decimal.{itoa}
use tekton_kueue.Cel.Types.{
  MutationType, mutation_type_annotation, mutation_type_label, mutation_type_resource,
  mutation_type_managed_by, mutation_type_multi_kueue,
}
use tekton_kueue.Cel.Values.{
  Value, str, int, object, Fields, no_fields, field, RefVal, fault, val, native, CelType,
  string_type, int_type, Binding, unary, binary, function, Overload, EnvOption, declare,
}

-- k8s.io/apimachinery/pkg/util/validation: each gives a list of complaints.
pub record Validation : Type 0 where
  pub is_qualified_name : String → List String
  pub is_valid_label_value : String → List String

-- 256 * 1024 bytes
abbrev pub max_annotation_value_size : ℕ
max_annotation_value_size = 262144

-- `v.(string)` and `v.(int64)`
abbrev pub as_string : Value → Option String
as_string (str s) = some s
as_string _ = none

abbrev pub as_int : Value → Option ℤ
as_int (int n) = some n
as_int _ = none

-- `strings.Join(errs, ", ")`
join_errs : List String → String
join_errs [] = ""
join_errs (e ∷ []) = e
join_errs (e ∷ f ∷ es) = e <> (", " <> join_errs (f ∷ es))

-- `types.NewStringInterfaceMap` of a map with the three keys of a request
abbrev pub mutation_map : MutationType → String → String → RefVal
mutation_map type key value =
    val (
      object
        (field "type" (str type) (field "key" (str key) (field "value" (str value) no_fields))))

unfoldable pub validate_annotation_value : String → Option Error
validate_annotation_value value =
    if ltb max_annotation_value_size (len value)
    then some (errorf "annotation value is too long: %d bytes, maximum allowed is %d bytes" [])
    else none

-- The result of a check that ends in `len(errs) > 0`.
unfoldable pub complaint : String → List String → List String → Option Error
unfolding join_errs
complaint format args [] = none
complaint format args (e ∷ es) = some (errorv format args (errorf (join_errs (e ∷ es)) []))

-- The binding of the overload of `multiKueue` that takes no argument.
abbrev pub multi_kueue_zero_binding : List RefVal → RefVal
multi_kueue_zero_binding args = mutation_map mutation_type_multi_kueue "managedBy" ""

-- `err` is returned as a fault of the function, if it is not nil.
abbrev pub unless_err : String → String → Option Error → RefVal → RefVal
unless_err format name none r = r
unless_err format name (some e) r = fault (errorv format (name ∷ []) e)

module _ (V : Validation) where
  unfoldable pub validate_key : String → String → Option Error
  unfolding complaint
  validate_key key key_type =
      if key == ""
      then some (errorf "%s key cannot be empty" (key_type ∷ []))
      else complaint "%s key '%s' is invalid: %s" (key_type ∷ key ∷ []) (V.is_qualified_name key)

  unfoldable pub validate_label_value : String → Option Error
  unfolding complaint
  validate_label_value value =
      complaint "label value '%s' is invalid: %s" (value ∷ []) (V.is_valid_label_value value)

  -- The two `switch mutationType` statements of `createMutationFunction`.
  unfoldable pub key_error : MutationType → String → Option Error
  unfolding validate_key
  key_error mutation_type key =
      if mutation_type == mutation_type_annotation
      then validate_key key "annotation"
      else if mutation_type == mutation_type_label
      then validate_key key "label"
      else none

  unfoldable pub value_error : MutationType → String → Option Error
  unfolding validate_annotation_value validate_label_value
  value_error mutation_type value =
      if mutation_type == mutation_type_annotation
      then validate_annotation_value value
      else if mutation_type == mutation_type_label
      then validate_label_value value
      else none

  mutation_of : String → MutationType → Option String → Option String → RefVal
  mutation_of name mutation_type (some key) (some value) =
      if key == ""
      then fault (errorf "%s key cannot be empty" (name ∷ []))
      else unless_err "%s key validation failed: %v" name (key_error mutation_type key) (
          unless_err "%s value validation failed: %v" name (value_error mutation_type value)
            (mutation_map mutation_type key value))
  mutation_of name mutation_type _ _ =
      fault (errorf "%s function requires string arguments" (name ∷ []))

  -- The binding of `createMutationFunction`.
  unfoldable pub mutation_binding : String → MutationType → RefVal → RefVal → RefVal
  unfolding mutation_of key_error value_error
  mutation_binding name mutation_type lhs rhs =
      mutation_of name mutation_type (as_string (native lhs)) (as_string (native rhs))

  unfoldable pub create_mutation_function : String → MutationType → CelType → EnvOption
  create_mutation_function name mutation_type return_type = declare name (
      record {
        id = name <> "_string_string_to_mutation";
        args = string_type ∷ string_type ∷ [];
        result = return_type;
        binding = binary (mutation_binding name mutation_type);
      }
      ∷ [])

  resource_of : String → MutationType → Option String → Option ℤ → RefVal
  resource_of name mutation_type none n =
      fault (errorf "%s function requires string key argument" (name ∷ []))
  resource_of name mutation_type (some key) none =
      if key == ""
      then fault (errorf "%s key cannot be empty" (name ∷ []))
      else fault (errorf "%s function requires int value argument" (name ∷ []))
  resource_of name mutation_type (some key) (some n) =
      if key == ""
      then fault (errorf "%s key cannot be empty" (name ∷ []))
      else if is_negative n
      then fault (errorf "%s value must be positive (>= 0), got %d" (name ∷ itoa n ∷ []))
      else unless_err "%s key validation failed: %v" name (validate_key key "resource annotation") (
          unless_err "%s value validation failed: %v" name (validate_annotation_value (itoa n))
            (mutation_map mutation_type ("kueue.konflux-ci.dev/requests-" <> key) (itoa n)))

  -- The binding of `createResourceMutationFunction`.
  unfoldable pub resource_binding : String → MutationType → RefVal → RefVal → RefVal
  unfolding resource_of validate_key validate_annotation_value
  resource_binding name mutation_type lhs rhs =
      resource_of name mutation_type (as_string (native lhs)) (as_int (native rhs))

  unfoldable pub create_resource_mutation_function : String → MutationType → CelType → EnvOption
  create_resource_mutation_function name mutation_type return_type = declare name (
      record {
        id = name <> "_string_int_to_mutation";
        args = string_type ∷ int_type ∷ [];
        result = return_type;
        binding = binary (resource_binding name mutation_type);
      }
      ∷ [])

  multi_kueue_of : String → Option String → RefVal
  multi_kueue_of name none =
      fault (errorf "%s function requires string argument for queue name" (name ∷ []))
  multi_kueue_of name (some queue_name) =
      if queue_name == ""
      then fault (errorf "%s queue name cannot be empty" (name ∷ []))
      else unless_err "%s queue name validation failed: %v" name (validate_label_value queue_name)
          (mutation_map mutation_type_multi_kueue "managedBy" queue_name)

  -- The binding of the other overload of `multiKueue`.
  unfoldable pub multi_kueue_binding : String → RefVal → RefVal
  unfolding multi_kueue_of validate_label_value
  multi_kueue_binding name v = multi_kueue_of name (as_string (native v))

  unfoldable pub create_multi_kueue_function : String → CelType → EnvOption
  create_multi_kueue_function name return_type = declare name (
      record {
        id = name <> "_to_mutation";
        args = [];
        result = return_type;
        binding = function multi_kueue_zero_binding;
      }
      ∷ record {
        id = name <> "_string_to_mutation";
        args = string_type ∷ [];
        result = return_type;
        binding = unary (multi_kueue_binding name);
      }
      ∷ [])

priority_of : String → Option String → RefVal
priority_of name none = fault (errorf "%s function requires string argument" (name ∷ []))
priority_of name (some value) =
    mutation_map mutation_type_label "kueue.x-k8s.io/priority-class" value

-- The binding of `createPriorityMutationFunction`.
unfoldable pub priority_binding : String → RefVal → RefVal
unfolding priority_of
priority_binding name v = priority_of name (as_string (native v))

unfoldable pub create_priority_mutation_function : String → CelType → EnvOption
create_priority_mutation_function name return_type = declare name (
    record {
      id = name <> "_string_to_mutation";
      args = string_type ∷ [];
      result = return_type;
      binding = unary (priority_binding name);
    }
    ∷ [])

managed_by_of : String → Option String → RefVal
managed_by_of name none = fault (errorf "%s function requires string argument" (name ∷ []))
managed_by_of name (some value) =
    if value == ""
    then fault (errorf "%s value cannot be empty" (name ∷ []))
    else mutation_map mutation_type_managed_by "managedBy" value

-- The binding of `createManagedByFunction`.
unfoldable pub managed_by_binding : String → RefVal → RefVal
unfolding managed_by_of
managed_by_binding name v = managed_by_of name (as_string (native v))

unfoldable pub create_managed_by_function : String → CelType → EnvOption
create_managed_by_function name return_type = declare name (
    record {
      id = name <> "_string_to_mutation";
      args = string_type ∷ [];
      result = return_type;
      binding = unary (managed_by_binding name);
    }
    ∷ [])
