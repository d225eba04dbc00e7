-- ===== src/Cel/Compiler.antt =====
-- internal/cel/compiler.go: the environment of the expressions, and their compilation.
pub mod Laws
use tekton_kueue.Base.{
  ℕ, suc, String, Bool, true, false, ◌&&◌, Option, none, some, List, [], ◌∷◌, ◌++◌, ◌==◌, Error,
  errorf, wrap, Result, ok, err, ◌>>=◌, if◌then◌else◌,
}
use tekton_kueue.Base.Int.{pos}
use tekton_kueue.Base.Decimal.{itoa}
use tekton_kueue.Cel.Types.{mutation_type_annotation, mutation_type_label, mutation_type_resource}
use tekton_kueue.Cel.Values.{
  CelType, string_type, any_type, map_type, list_type, EnvOption, variable, std_lib, Engine,
}
use tekton_kueue.Cel.Functions.{
  Validation, create_mutation_function, create_resource_mutation_function,
  create_priority_mutation_function, create_managed_by_function, create_multi_kueue_function,
}
use tekton_kueue.Cel.Functions.Replace.{create_replace_function}

-- `(*cel.Type).Kind()`; only the kinds that the program names are told apart.
pub data Kind : Type 0 where
  string_kind map_kind list_kind other_kind : Kind

abbrev pub kind : CelType → Kind
kind string_type = string_kind
kind (map_type k v) = map_kind
kind (list_type e) = list_kind
kind _ = other_kind

-- `Parameters()[0]`, which the program reads at maps and lists alone.
abbrev pub first_parameter : CelType → CelType
first_parameter (map_type k v) = k
first_parameter (list_type e) = e
first_parameter t = t

abbrev is_string_kind : Kind → Bool
is_string_kind string_kind = true
is_string_kind _ = false

abbrev is_map_kind : Kind → Bool
is_map_kind map_kind = true
is_map_kind _ = false

unfoldable pub is_valid_output_type : CelType → Bool
is_valid_output_type output_type = elim (kind output_type) [
  | map_kind ↦ is_string_kind (kind (first_parameter output_type))
  | list_kind ↦
      let element_type = first_parameter output_type in
      is_map_kind (kind element_type) && is_string_kind (kind (first_parameter element_type))
  | _ ↦ false
]

-- The options that `createCELEnvironment` gives to `cel.NewEnv`.
abbrev pub mutation_request_type : CelType
mutation_request_type = map_type string_type any_type

pub cel_environment_options : Validation → List EnvOption
cel_environment_options V =
    variable "pipelineRun" (map_type string_type any_type)
    ∷ variable "plrNamespace" string_type
    ∷ variable "pacEventType" string_type
    ∷ variable "pacTestEventType" string_type
    ∷ create_mutation_function V "annotation" mutation_type_annotation mutation_request_type
    ∷ create_mutation_function V "label" mutation_type_label mutation_request_type
    ∷ create_resource_mutation_function V "resource" mutation_type_resource mutation_request_type
    ∷ create_priority_mutation_function "priority" mutation_request_type
    ∷ create_managed_by_function "managedBy" mutation_request_type
    ∷ create_multi_kueue_function V "multiKueue" mutation_request_type
    ∷ create_replace_function "replace"
    ∷ std_lib
    ∷ []

-- The error that `f` makes of an error of `r`, if there is one.
abbrev pub map_err {ℓ} : {A : Type ℓ} → (Error → Error) → Result A → Result A
map_err f (ok a) = ok a
map_err f (err e) = err (f e)

pub record CompiledProgram (E : Engine) : Type 0 where
  pub program : E.Program
  pub ast : E.Ast
  pub expression : String

module _ (E : Engine) where
  abbrev pub get_expression : CompiledProgram E → String
  get_expression cp = cp.expression

  unfoldable pub create_cel_environment : Validation → Result E.Env
  unfolding cel_environment_options
  create_cel_environment V =
      map_err (wrap "failed to create type-safe CEL environment: %w" [])
        (E.new_env (cel_environment_options V))

  unfoldable pub validate_expression_return_type : E.Ast → Option Error
  unfolding is_valid_output_type
  validate_expression_return_type ast =
      if is_valid_output_type (E.output_type ast)
      then none
      else some (
          errorf
            "expression must return MutationRequest-compatible map<string, any> or list<map<string, any>>, got %v"
            [])

  check_return_type : String → E.Ast → Option Error → Result E.Ast
  check_return_type expression ast none = ok ast
  check_return_type expression ast (some e) =
      err (wrap "invalid return type for expression %q: %w" (expression ∷ []) e)

  unfoldable pub compile_single_expression : E.Env → String → Result (CompiledProgram E)
  unfolding check_return_type validate_expression_return_type
  compile_single_expression env expression = do
    ast ←
        map_err (wrap "type checking failed for expression %q: %w" (expression ∷ []))
          (E.compile env expression)
    checked ← check_return_type expression ast (validate_expression_return_type ast)
    program ←
        map_err (wrap "program creation failed for expression %q: %w" (expression ∷ []))
          (E.new_program env checked)
    ok (record { program = program; ast = checked; expression = expression })

  -- The loop of `CompileCELPrograms`, at index `i`.
  compile_loop :
      E.Env → ℕ → List (CompiledProgram E) → List String → Result (List (CompiledProgram E))
  compile_loop env i programs [] = ok programs
  compile_loop env i programs (expr ∷ exprs) =
      if expr == ""
      then err (errorf "expression %d cannot be empty" (itoa (pos i) ∷ []))
      else elim (compile_single_expression env expr) [
        | err e ↦ err (wrap "failed to compile expression %d (%q): %w" (itoa (pos i) ∷ expr ∷ []) e)
        | ok program ↦ compile_loop env (suc i) (programs ++ (program ∷ [])) exprs
      ]

  unfoldable pub compile_cel_programs : Validation → List String → Result (List (CompiledProgram E))
  unfolding create_cel_environment compile_single_expression compile_loop
  compile_cel_programs V [] = err (errorf "expressions list cannot be empty" [])
  compile_cel_programs V (e ∷ es) = do
    env ← map_err (wrap "failed to create CEL environment: %w" []) (create_cel_environment V)
    compile_loop env 0 [] (e ∷ es)
