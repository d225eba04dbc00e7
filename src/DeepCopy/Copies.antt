-- ===== src/DeepCopy/Copies.antt =====
-- What a deep copy reads as, and what it leaves of the memory before.
use mathlib.Core.Path.{subst}
use tekton_kueue.Base.{
  ℕ, zero, suc, ◌∷◌, ◌≤◌, ◌<◌, ◌≡◌, refl, sym, ap, ◌∙◌, String, Option, none, some, List, [],
  length, take, arith, eqb, false,
}
use tekton_kueue.Memory.{
  Slice, CelStruct, Memory, CelPointer, alone, field_of, write, load, store, make, make_slice, copy,
  elements,
}
use tekton_kueue.DeepCopy.{copy_slices, set_expressions, renew_expressions, cel_deep_copy_into}
use tekton_kueue.DeepCopy.Reads.{
  texts, IsBound, IsFrom, AreApart, load-store, load-store_apart, store-keeps, length-elements,
  elements-copy,
}

-- What `renew_expressions` leaves of a memory in which the target reads as the source: the target has a
-- slice of its own with the same texts, and all else is as it was.
record IsRenewed (to : CelPointer) (m m' : Memory) : Type 0 where
  same_arrays : (a : ℕ) → a < m.next → m'.arrays a ≡ m.arrays a
  same_loads : (q : CelPointer) → AreApart q to → load m' q ≡ load m q
  same_fields :
      (a : ℕ)
      → ((m'.configs a).queue_name ≡ (m.configs a).queue_name)
        × ((m'.configs a).multi_kueue_override ≡ (m.configs a).multi_kueue_override)
  grown : m.next ≤ m'.next
  same_texts : texts m' (load m' to).expressions ≡ texts m (load m to).expressions
  own : IsFrom m.next (load m' to).expressions
  bound : IsBound m' (load m' to).expressions

load-make : (m : Memory) (n : ℕ) (p : CelPointer) → load (make m n) p ≡ load m p
unfolding load
load-make m n (alone a) = refl
load-make m n (field_of a) = refl

load-copy : (m : Memory) (to from : Slice) (p : CelPointer) → load (copy m to from) p ≡ load m p
unfolding load copy
load-copy m to from (alone a) = refl
load-copy m to from (field_of a) = refl

le-length-take : (n : ℕ) (ts : List String) → length (take n ts) ≡ n → n ≤ length ts
le-length-take zero ts h = omega arith
le-length-take (suc n) [] h = omega arith
le-length-take (suc n) (t ∷ ts) h = ground (arith, le-length-take n ts)

-- The memory with the new slice before and after its texts are copied.
module _ (to : CelPointer) (m : Memory) (s : Slice) where
  abbrev with_slice : Memory
  with_slice = set_expressions (make m s.len) to (make_slice m s.len)

  abbrev with_texts : Memory
  with_texts = copy with_slice (make_slice m s.len) s

  with_texts-own : (load with_texts to).expressions ≡ some (make_slice m s.len)
  with_texts-own =
      ap (λ (c : CelStruct). c.expressions)
        (load-copy with_slice (make_slice m s.len) s to ∙ load-store (make m s.len) to _)

  with_texts-arrays : (a : ℕ) → a < m.next → with_texts.arrays a ≡ m.arrays a
  unfolding copy write
  with_texts-arrays a h =
      let same : with_slice.arrays a ≡ (make m s.len).arrays a =
        ap (λ (f : ℕ → List String). f a) (store-keeps (make m s.len) to _).0 in
      let other : eqb a m.next ≡ false = ground arith in rw other (same ∙ rw other refl)

  with_texts-same : IsBound m (some s) → elements with_texts (make_slice m s.len) ≡ elements m s
  with_texts-same bound = elements-copy m with_slice s bound (store-keeps (make m s.len) to _).0

  with_texts-IsBound : IsBound m (some s) → IsBound with_texts (some (make_slice m s.len))
  unfolding copy elements
  with_texts-IsBound bound = (
    rw (store-keeps (make m s.len) to _).1 (omega arith),
    omega (
      arith,
      le-length-take s.len (with_texts.arrays m.next)
          (ap length (with_texts-same bound) ∙ length-elements m s bound),
    ),
  )

  with_texts-IsRenewed :
      (load m to).expressions ≡ some s → IsBound m (some s) → IsRenewed to m with_texts
  unfolding copy
  with_texts-IsRenewed same bound = record {
    same_arrays = with_texts-arrays;
    same_loads = λ q h.
        load-copy with_slice (make_slice m s.len) s q
        ∙ load-store_apart (make m s.len) to q _ h
        ∙ load-make m s.len q;
    same_fields = (store-keeps (make m s.len) to _).2;
    grown = rw (store-keeps (make m s.len) to _).1 (omega arith);
    same_texts = rw (with_texts-own, same) (ap some (with_texts-same bound));
    own = rw with_texts-own (omega arith);
    bound = rw with_texts-own (with_texts-IsBound bound);
  }

renew_expressions-IsRenewed :
    (from to : CelPointer) (m : Memory) (x : Option Slice)
    → AreApart from to
    → (load m from).expressions ≡ x
    → (load m to).expressions ≡ x
    → IsBound m x
    → IsRenewed to m (renew_expressions from to m x)
unfolding copy_slices
renew_expressions-IsRenewed from to m none apart read same bound = record {
  same_arrays = λ a h. refl;
  same_loads = λ q h. refl;
  same_fields = λ a. (refl, refl);
  grown = omega arith;
  same_texts = refl;
  own = subst (IsFrom m.next) (sym same) tt;
  bound = subst (IsBound m) (sym same) tt;
}
renew_expressions-IsRenewed from to m (some s) apart read same bound =
    let from_read : (load (with_slice to m s) from).expressions ≡ some s =
      ap (λ (c : CelStruct). c.expressions)
        (load-store_apart (make m s.len) to from _ apart ∙ load-make m s.len from)
      ∙ read in
    let to_read : (load (with_slice to m s) to).expressions ≡ some (make_slice m s.len) =
      ap (λ (c : CelStruct). c.expressions) (load-store (make m s.len) to _) in
    rw (to_read, from_read) (with_texts-IsRenewed to m s same bound)

IsBound-same :
    (m n : Memory) (x : Option Slice)
    → n.arrays ≡ m.arrays
    → n.next ≡ m.next
    → IsBound m x
    → IsBound n x
IsBound-same m n none arrays next h = tt
IsBound-same m n (some s) arrays next h = rw (arrays, next) h

pub texts-same : (m n : Memory) (x : Option Slice) → n.arrays ≡ m.arrays → texts n x ≡ texts m x
unfolding elements
texts-same m n none arrays = refl
texts-same m n (some s) arrays = rw arrays refl

-- What `DeepCopyInto` of a `CEL` leaves of a memory: the target reads as the source did, by a slice of
-- its own, and all else is as it was.
pub record IsCopied (from to : CelPointer) (m m' : Memory) : Type 0 where
  pub same_arrays : (a : ℕ) → a < m.next → m'.arrays a ≡ m.arrays a
  pub same_loads : (q : CelPointer) → AreApart q to → load m' q ≡ load m q
  pub same_fields :
      (a : ℕ)
      → ((m'.configs a).queue_name ≡ (m.configs a).queue_name)
        × ((m'.configs a).multi_kueue_override ≡ (m.configs a).multi_kueue_override)
  pub grown : m.next ≤ m'.next
  pub same_texts : texts m' (load m' to).expressions ≡ texts m (load m from).expressions
  pub own : IsFrom m.next (load m' to).expressions
  pub bound : IsBound m' (load m' to).expressions

pub cel_deep_copy_into-IsCopied :
    (from to : CelPointer) (m : Memory)
    → AreApart from to
    → IsBound m (load m from).expressions
    → IsCopied from to m (cel_deep_copy_into from to m)
unfolding cel_deep_copy_into
cel_deep_copy_into-IsCopied from to m apart bound =
    let m1 : Memory = store m to (load m from) in
    let (arrays, next, fields) = store-keeps m to (load m from) in
    let source : load m1 from ≡ load m from = load-store_apart m to from _ apart in
    let target : load m1 to ≡ load m from = load-store m to _ in
    let x : Option Slice = (load m1 from).expressions in
    let r : IsRenewed to m1 (renew_expressions from to m1 x) =
      renew_expressions-IsRenewed from to m1 x apart refl
        (ap (λ (c : CelStruct). c.expressions) (target ∙ sym source))
        (IsBound-same m m1 x arrays next (rw source bound)) in
    record {
      same_arrays = λ a h. r.same_arrays a (rw next h) ∙ ap (λ (f : ℕ → List String). f a) arrays;
      same_loads = λ q h. r.same_loads q h ∙ load-store_apart m to q _ h;
      same_fields = λ a. ground (arith, r.same_fields a, fields a);
      grown = ground (arith, r.grown, next);
      same_texts =
          r.same_texts
          ∙ ap (λ (c : CelStruct). texts m1 c.expressions) target
          ∙ texts-same m m1 (load m from).expressions arrays;
      own = subst (λ n. IsFrom n (load (renew_expressions from to m1 x) to).expressions) next r.own;
      bound = r.bound;
    }
