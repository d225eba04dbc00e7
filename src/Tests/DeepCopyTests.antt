-- ===== src/Tests/DeepCopyTests.antt =====
-- The deep copies at a memory with one configuration.
use tekton_kueue.Base.{true, none, some, [], ◌∷◌, ◌≡◌, refl, arith}
use tekton_kueue.Memory.{
  Slice, CelStruct, Memory, alone, field_of, load, store, write, copy, elements,
}
use tekton_kueue.DeepCopy.{
  cel_deep_copy, cel_deep_copy_into, config_deep_copy, config_deep_copy_into,
}
use tekton_kueue.DeepCopy.Configs.{read, IsConfig}
use tekton_kueue.DeepCopy.Independent.{IsIndependent, config_deep_copy-IsIndependent}

abbrev two_texts : Slice
two_texts = record { array = 0; offset = 1; len = 2 }

abbrev cel : CelStruct
cel = record { expressions = some two_texts }

-- The slice is the last two of three texts.
abbrev memory : Memory
memory = record {
  arrays = λ a. "x" ∷ "a" ∷ "b" ∷ [];
  cels = λ a. cel;
  configs = λ a. record { queue_name = "queue"; multi_kueue_override = true; cel = cel };
  next = 1;
}

memory-IsConfig : IsConfig memory 0
memory-IsConfig = record { there = omega arith; bound = (omega arith, omega arith) }

config_deep_copy-IsIndependent_example : IsIndependent memory 0 (config_deep_copy (some 0) memory)
config_deep_copy-IsIndependent_example = config_deep_copy-IsIndependent memory 0 memory-IsConfig

-- A copy has the two texts in an array of its own; nil is copied to nil.
copies :
    ((cel_deep_copy (some (field_of 0)) memory).0 ≡ some (alone 1))
    × ((config_deep_copy_into 0 1 memory).arrays 1 ≡ ("a" ∷ "b" ∷ []))
    × (config_deep_copy none memory ≡ (none, memory))
    × (cel_deep_copy none memory ≡ (none, memory))
unfolding cel_deep_copy cel_deep_copy_into config_deep_copy_into config_deep_copy load store write
    copy elements
copies = (refl, refl, refl, refl)

-- `c.DeepCopyInto(c)` loses the texts: it makes the new array before it reads the old one.
blanked : (read (config_deep_copy_into 0 0 memory) 0).expressions ≡ some ("" ∷ "" ∷ [])
unfolding config_deep_copy_into cel_deep_copy_into load store write copy elements
blanked = refl
