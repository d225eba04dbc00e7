-- ===== src/DeepCopy.antt =====
-- pkg/config/zz_generated.deepcopy.go: the deep copies of a configuration, over a memory. A call
-- gives the memory that it leaves.
pub mod Reads
pub mod Copies
pub mod Configs
pub mod Independent
pub mod Writes
use tekton_kueue.Base.{ℕ, Option, none, some}
use tekton_kueue.Memory.{
  Slice, Memory, CelPointer, alone, field_of, write, load, store, new_cel, new_config, make_slice,
  make, copy,
}

-- `*out = make(…)` for the field `Expressions` of `*out`
abbrev set_expressions : Memory → CelPointer → Slice → Memory
set_expressions m to s = store m to (record (load m to) { expressions = some s })

-- `copy(*out, *in)` for the fields `Expressions`; it does nothing if one is nil.
copy_slices : Memory → Option Slice → Option Slice → Memory
copy_slices m (some to) (some from) = copy m to from
copy_slices m none from = m
copy_slices m (some to) none = m

-- `copy(*out, *in)`
abbrev copy_expressions : CelPointer → CelPointer → Memory → Memory
copy_expressions from to m = copy_slices m (load m to).expressions (load m from).expressions

-- The branch of expressions that are not nil.
abbrev renew_expressions : CelPointer → CelPointer → Memory → Option Slice → Memory
renew_expressions from to m none = m
renew_expressions from to m (some s) =
    copy_expressions from to (set_expressions (make m s.len) to (make_slice m s.len))

-- `DeepCopyInto` of a `CEL`
unfoldable pub cel_deep_copy_into : CelPointer → CelPointer → Memory → Memory
unfolding copy_slices
cel_deep_copy_into from to m =
    let m' = store m to (load m from) in renew_expressions from to m' (load m' from).expressions

-- `DeepCopy` of a `CEL`
unfoldable pub cel_deep_copy : Option CelPointer → Memory → Option CelPointer × Memory
unfolding cel_deep_copy_into
cel_deep_copy none m = (none, m)
cel_deep_copy (some from) m =
    (some (alone m.next), cel_deep_copy_into from (alone m.next) (new_cel m))

-- `DeepCopyInto` of a `Config`
unfoldable pub config_deep_copy_into : ℕ → ℕ → Memory → Memory
unfolding cel_deep_copy_into
config_deep_copy_into from to m =
    cel_deep_copy_into (field_of from) (field_of to)
      (record m { configs = write m.configs to (m.configs from) })

-- `DeepCopy` of a `Config`
unfoldable pub config_deep_copy : Option ℕ → Memory → Option ℕ × Memory
unfolding config_deep_copy_into
config_deep_copy none m = (none, m)
config_deep_copy (some from) m = (some m.next, config_deep_copy_into from m.next (new_config m))
