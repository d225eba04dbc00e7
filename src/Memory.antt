-- ===== src/Memory.antt =====
-- Go's memory as far as a configuration needs it: structs and arrays at addresses, and slices. A
-- pointer is an address, and nil is no address.
use tekton_kueue.Base.{
  ℕ, suc, ◌+◌, String, Bool, false, Option, none, List, ◌++◌, length, set, take, drop, replicate,
  if◌then◌else◌, eqb,
}

-- `[]string` that is not nil: a part of an array.
pub record Slice : Type 0 where
  pub array : ℕ
  pub offset : ℕ
  pub len : ℕ

-- `CEL` of pkg/config
pub record CelStruct : Type 0 where
  pub expressions : Option Slice

-- `Config` of pkg/config
pub record ConfigStruct : Type 0 where
  pub queue_name : String
  pub multi_kueue_override : Bool
  pub cel : CelStruct

-- What each address holds; nothing is at `next` or behind it yet.
pub record Memory : Type 0 where
  pub arrays : ℕ → List String
  pub cels : ℕ → CelStruct
  pub configs : ℕ → ConfigStruct
  pub next : ℕ

-- `*CEL`: to a struct of its own, or to the field of a `Config`.
pub data CelPointer : Type 0 where
  alone : ℕ → CelPointer
  field_of : ℕ → CelPointer

unfoldable pub write : {A : Type 0} → (ℕ → A) → ℕ → A → ℕ → A
write h a v b = if eqb b a then v else h b

-- `*p`, and `*p = c`
unfoldable pub load : Memory → CelPointer → CelStruct
load m (alone a) = m.cels a
load m (field_of a) = (m.configs a).cel

unfoldable pub store : Memory → CelPointer → CelStruct → Memory
store m (alone a) c = record m { cels = write m.cels a c }
store m (field_of a) c = record m { configs = write m.configs a (record (m.configs a) { cel = c }) }

abbrev pub zero_cel : CelStruct
zero_cel = record { expressions = none }

abbrev pub zero_config : ConfigStruct
zero_config = record { queue_name = ""; multi_kueue_override = false; cel = zero_cel }

-- `new(CEL)` and `new(Config)`
abbrev pub new_cel : Memory → Memory
new_cel m = record m { cels = write m.cels m.next zero_cel; next = suc m.next }

abbrev pub new_config : Memory → Memory
new_config m = record m { configs = write m.configs m.next zero_config; next = suc m.next }

-- `make([]string, n)`: the slice is `make_slice m n`.
abbrev pub make_slice : Memory → ℕ → Slice
make_slice m n = record { array = m.next; offset = 0; len = n }

abbrev pub make : Memory → ℕ → Memory
make m n = record m { arrays = write m.arrays m.next (replicate n ""); next = suc m.next }

unfoldable pub elements : Memory → Slice → List String
elements m s = take s.len (drop s.offset (m.arrays s.array))

abbrev pub overwrite : List String → ℕ → List String → List String
overwrite texts offset new = take offset texts ++ (new ++ drop (offset + length new) texts)

-- `copy(to, from)`, which stops where the shorter slice ends
unfoldable pub copy : Memory → Slice → Slice → Memory
copy m to from = record m {
  arrays =
      write m.arrays to.array
        (overwrite (m.arrays to.array) to.offset (take to.len (elements m from)));
}

-- `s[i] = text`
unfoldable pub set_element : Memory → Slice → ℕ → String → Memory
set_element m s i text = record m {
  arrays = write m.arrays s.array (set (m.arrays s.array) (s.offset + i) text);
}
