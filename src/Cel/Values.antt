-- ===== src/Cel/Values.antt =====
-- What flows between the program and cel-go: values, types, overloads and the engine itself.
-- cel-go is not part of the repository, so its engine is a record of operations.
use tekton_kueue.Base.{
  String, Dict, List, [], ◌∷◌, Option, none, some, Error, Result, ◌==◌, if◌then◌else◌,
}
use tekton_kueue.Base.Int.{ℤ}

-- A Go `interface{}` as `ref.Val.Value()` returns it, and the `ref.Val`s that lists hold.
mutual
  pub data Value : Type 0 where
    str : String → Value
    int : ℤ → Value
    -- `[]interface{}`
    slice : Items → Value
    -- `[]ref.Val`
    vals : Vals → Value
    -- `map[string]interface{}`
    object : Fields → Value
    -- a value of any other Go type, named by it
    other : String → Value

  pub data Items : Type 0 where
    no_items : Items
    item : Value → Items → Items

  pub data Fields : Type 0 where
    no_fields : Fields
    field : String → Value → Fields → Fields

  pub data Vals : Type 0 where
    no_vals : Vals
    ref_val : RefVal → Vals → Vals

  -- `types.NewErr` makes a fault; any other `ref.Val` stands for a native value.
  pub data RefVal : Type 0 where
    fault : Error → RefVal
    val : Value → RefVal

-- `Value()`
abbrev pub native : RefVal → Value
native (fault e) = other "error"
native (val v) = v

abbrev pub to_list : Items → List Value
to_list no_items = []
to_list (item v vs) = v ∷ to_list vs

-- `m[k]` of a `map[string]interface{}`
unfoldable pub get_field : Fields → String → Option Value
get_field no_fields k = none
get_field (field j v fs) k = if j == k then some v else get_field fs k

pub data CelType : Type 0 where
  string_type int_type any_type : CelType
  map_type : CelType → CelType → CelType
  list_type : CelType → CelType
  other_type : String → CelType

pub data Binding : Type 0 where
  unary : (RefVal → RefVal) → Binding
  binary : (RefVal → RefVal → RefVal) → Binding
  function : (List RefVal → RefVal) → Binding

pub record Overload : Type 0 where
  pub id : String
  pub args : List CelType
  pub result : CelType
  pub binding : Binding

pub data EnvOption : Type 0 where
  variable : String → CelType → EnvOption
  declare : String → List Overload → EnvOption
  std_lib : EnvOption

-- cel-go: `NewEnv`, `Compile`, `OutputType`, `Program` and `Eval`.
pub record Engine : Type 1 where
  pub Env : Type 0
  pub Ast : Type 0
  pub Program : Type 0
  pub new_env : List EnvOption → Result Env
  pub compile : Env → String → Result Ast
  pub output_type : Ast → CelType
  pub new_program : Env → Ast → Result Program
  pub eval : Program → Dict Value → Result RefVal
