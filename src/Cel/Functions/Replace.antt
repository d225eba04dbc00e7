-- ===== src/Cel/Functions/Replace.antt =====
-- internal/cel/compiler.go, lines 300-326: the `replace` function, with `strings.ReplaceAll`.
pub mod Leftmost
use Prim.Native.Nat.{ℕ, zero, suc}
use Prim.Native.String.{String, count, ◌++◌}
use tekton_kueue.Base.{
  ◌≡◌, refl, Option, none, some, List, [], ◌∷◌, ◌==◌, errorf, cut_prefix, if◌then◌else◌,
}
use tekton_kueue.Cel.Values.{
  Value, str, RefVal, fault, val, native, string_type, function, EnvOption, declare,
}

-- Go's rule for an empty search text: the replacement stands before each character and at the end.
intersperse : String → String → String
intersperse replacement String.[] = replacement
intersperse replacement (String.◌∷◌ c s) = replacement ++ String.◌∷◌ c (intersperse replacement s)

-- The matches from the left that do not overlap; each round passes a character at least, so that
-- `count s` rounds are enough.
replace_from : ℕ → String → String → String → String
replace_from zero search replacement s = s
replace_from (suc fuel) search replacement String.[] = String.[]
replace_from (suc fuel) search replacement (String.◌∷◌ c s) =
    elim (cut_prefix (String.◌∷◌ c s) search) [
      | some rest ↦ replacement ++ replace_from fuel search replacement rest
      | none ↦ String.◌∷◌ c (replace_from fuel search replacement s)
    ]

-- `strings.ReplaceAll`
unfoldable pub replace_all : String → String → String → String
unfolding intersperse replace_from cut_prefix
replace_all s search replacement =
    if search == "" then intersperse replacement s else replace_from (count s) search replacement s

abbrev as_string : Value → Option String
as_string (str s) = some s
as_string _ = none

replaced : String → Option String → Option String → Option String → RefVal
replaced name (some source) (some search) (some replacement) =
    val (str (replace_all source search replacement))
replaced name _ _ _ = fault (errorf "%s function requires string arguments" (name ∷ []))

-- The binding of `createReplaceFunction`.
unfoldable pub replace_binding : String → List RefVal → RefVal
unfolding replaced replace_all
replace_binding name (source ∷ search ∷ replacement ∷ []) =
    replaced name (as_string (native source)) (as_string (native search))
      (as_string (native replacement))
replace_binding name _ = fault (errorf "%s function requires exactly 3 arguments" (name ∷ []))

unfoldable pub create_replace_function : String → EnvOption
create_replace_function name = declare name (
    record {
      id = name ++ "_string_string_string_to_string";
      args = string_type ∷ string_type ∷ string_type ∷ [];
      result = string_type;
      binding = function (replace_binding name);
    }
    ∷ [])

tests :
    (replace_all "a/b/c" "/" "--" ≡ "a--b--c")
    × (replace_all "aaa" "aa" "b" ≡ "ba")
    × (replace_all "ab" "" "-" ≡ "-a-b-")
    × (replace_all "abc" "x" "y" ≡ "abc")
unfolding replace_all
tests = (refl, refl, refl, refl)
