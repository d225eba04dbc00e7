-- ===== src/DeepCopy/Reads.antt =====
-- What slices and structs read as behind stores, `make` and `copy`.
use mathlib.Core.Path.{subst}
use tekton_kueue.Base.{
  ℕ, ◌+◌, ◌≤◌, ◌<◌, ◌≡◌, ◌≢◌, refl, String, Option, none, some, List, length, take, drop, arith,
  length-take, length-drop, take-append, take-length, eqb, false, true, replicate, ◌++◌,
}
use tekton_kueue.Memory.{
  Slice, CelStruct, Memory, CelPointer, alone, field_of, write, load, store, make, make_slice, copy,
  elements, overwrite,
}

-- What the expressions of a `CEL` read as: nil, or texts.
abbrev pub texts : Memory → Option Slice → Option (List String)
texts m none = none
texts m (some s) = some (elements m s)

-- A slice lies in its array, which is there.
abbrev pub IsBound : Memory → Option Slice → Type 0
IsBound m none = Unit
IsBound m (some s) = (s.array < m.next) × (s.offset + s.len ≤ length (m.arrays s.array))

abbrev pub IsFrom : ℕ → Option Slice → Type 0
IsFrom n none = Unit
IsFrom n (some s) = n ≤ s.array

-- Two pointers to different structs.
abbrev pub AreApart : CelPointer → CelPointer → Type 0
AreApart (alone a) (alone b) = a ≢ b
AreApart (field_of a) (field_of b) = a ≢ b
AreApart (alone a) (field_of b) = Unit
AreApart (field_of a) (alone b) = Unit

pub load-store : (m : Memory) (p : CelPointer) (c : CelStruct) → load (store m p c) p ≡ c
unfolding load store write
load-store m (alone a) c = ground arith
load-store m (field_of a) c = ground arith

pub load-store_apart :
    (m : Memory) (p q : CelPointer) (c : CelStruct) → AreApart q p → load (store m p c) q ≡ load m q
unfolding load store write
load-store_apart m (alone a) (alone b) c h = ground arith
load-store_apart m (field_of a) (field_of b) c h = ground arith
load-store_apart m (alone a) (field_of b) c h = refl
load-store_apart m (field_of a) (alone b) c h = refl

-- A store to a `CEL` keeps the arrays, and what a `Config` has beside its `CEL`.
pub store-keeps :
    (m : Memory) (p : CelPointer) (c : CelStruct)
    → ((store m p c).arrays ≡ m.arrays)
      × ((store m p c).next ≡ m.next)
      × ((a : ℕ)
          → (((store m p c).configs a).queue_name ≡ (m.configs a).queue_name)
            × (((store m p c).configs a).multi_kueue_override ≡ (m.configs a).multi_kueue_override))
unfolding store write
store-keeps m (alone b) c = (refl, refl, λ a. (refl, refl))
store-keeps m (field_of b) c = (refl, refl, λ a. ground arith)

pub length-elements : (m : Memory) (s : Slice) → IsBound m (some s) → length (elements m s) ≡ s.len
unfolding elements
length-elements m s (there, h) = ground (
  arith,
  length-take s.len (drop s.offset (m.arrays s.array)),
  length-drop s.offset (m.arrays s.array),
)

pub take-overwrite :
    (n : ℕ) (ts : List String)
    → length ts ≡ n
    → take n (overwrite (replicate n "") 0 (take n ts)) ≡ ts
take-overwrite n ts h =
    let whole : take n ts ≡ ts = subst (λ k. take k ts ≡ ts) h (take-length ts) in
    rw whole (
      subst (λ k. take k (ts ++ drop (0 + length ts) (replicate n "")) ≡ ts) h
        (take-append ts (drop (0 + length ts) (replicate n ""))))

-- In a memory with the arrays that `make` leaves, `copy` to the new slice gives it the texts.
pub elements-copy :
    (m made : Memory) (s : Slice)
    → IsBound m (some s)
    → made.arrays ≡ (make m s.len).arrays
    → elements (copy made (make_slice m s.len) s) (make_slice m s.len) ≡ elements m s
unfolding elements copy write
elements-copy m made s h same =
    let here : eqb m.next m.next ≡ true = ground arith in
    let there : eqb s.array m.next ≡ false = ground arith in
    rw (same, here, there) (take-overwrite s.len (elements m s) (length-elements m s h))
