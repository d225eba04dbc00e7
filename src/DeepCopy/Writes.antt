-- ===== src/DeepCopy/Writes.antt =====
-- Writes through a pointer to a configuration, and what they leave of the others.
use mathlib.Core.Path.{subst}
use tekton_kueue.Base.{
  ℕ, ◌≤◌, ◌<◌, ◌≡◌, ◌≢◌, refl, sym, ap, ◌∙◌, String, Bool, true, false, Option, none, some, eqb,
  arith,
}
use tekton_kueue.Memory.{
  Slice, ConfigStruct, Memory, zero_cel, write, elements, make, make_slice, set_element,
}
use tekton_kueue.DeepCopy.Reads.{texts, IsBound}
use tekton_kueue.DeepCopy.Copies.{texts-same}
use tekton_kueue.DeepCopy.Configs.{read}

abbrev pub expressions : Memory → ℕ → Option Slice
expressions m a = (m.configs a).cel.expressions

-- `*p = c` for a `Config`
abbrev put : Memory → ℕ → ConfigStruct → Memory
put m b c = record m { configs = write m.configs b c }

-- What a program can do with a pointer `b` to a `Config`: set a field, set its expressions to nil or to
-- a new slice, or write an element of them.
pub data Write (b : ℕ) (m : Memory) : Memory → Type 0 where
  queue_named : (text : String) → Write b m (put m b (record (m.configs b) { queue_name = text }))
  overridden :
      (flag : Bool) → Write b m (put m b (record (m.configs b) { multi_kueue_override = flag }))
  emptied : Write b m (put m b (record (m.configs b) { cel = zero_cel }))
  renewed :
      (n : ℕ)
      → Write b m (
          put
            (make m n)
            b
            (record (m.configs b) { cel = record { expressions = some (make_slice m n) } }))
  element_set :
      (s : Slice) (i : ℕ) (text : String)
      → expressions m b ≡ some s
      → i < s.len
      → Write b m (set_element m s i text)

pub data Writes (b : ℕ) (m : Memory) : Memory → Type 0 where
  done : Writes b m m
  then : (n n' : Memory) → Writes b m n → Write b n n' → Writes b m n'

abbrev pub AreSeparate : Option Slice → Option Slice → Type 0
AreSeparate none y = Unit
AreSeparate (some s) none = Unit
AreSeparate (some s) (some t) = s.array ≢ t.array

-- Two configurations with no struct and no array in common.
pub record IsApart (m : Memory) (a b : ℕ) : Type 0 where
  pub other : a ≢ b
  pub separate : AreSeparate (expressions m a) (expressions m b)
  pub bound : IsBound m (expressions m a)

abbrev IsNotAt : ℕ → Option Slice → Type 0
IsNotAt k none = Unit
IsNotAt k (some s) = s.array ≢ k

module _ (m m' : Memory) (k : ℕ) (same : (a : ℕ) → a ≢ k → m'.arrays a ≡ m.arrays a) where
  texts-write : (x : Option Slice) → IsNotAt k x → texts m' x ≡ texts m x
  unfolding elements
  texts-write none h = refl
  texts-write (some s) h = rw (same s.array h) refl

  IsBound-write : (x : Option Slice) → m.next ≤ m'.next → IsNotAt k x → IsBound m x → IsBound m' x
  IsBound-write none grown h bound = tt
  IsBound-write (some s) grown h (there, bound) = (omega arith, rw (same s.array h) bound)

module _ (m : Memory) (a b : ℕ) where
  put_apart : (c : ConfigStruct) → a ≢ b → (put m b c).configs a ≡ m.configs a
  unfolding write
  put_apart c h = let other : eqb a b ≡ false = ground arith in rw other refl

  put_here : (c : ConfigStruct) → (put m b c).configs b ≡ c
  unfolding write
  put_here c = let here : eqb b b ≡ true = ground arith in rw here refl

  -- What keeps the struct and the texts of `a` keeps all that counts.
  IsApart-keep :
      (m' : Memory)
      → IsApart m a b
      → m'.configs a ≡ m.configs a
      → texts m' (expressions m a) ≡ texts m (expressions m a)
      → IsBound m' (expressions m a)
      → AreSeparate (expressions m a) (expressions m' b)
      → IsApart m' a b × (read m' a ≡ read m a)
  IsApart-keep m' h same same_texts bound separate =
      let e : expressions m' a ≡ expressions m a =
        ap (λ (c : ConfigStruct). c.cel.expressions) same in
      (
        record {
          other = h.other;
          separate = subst (λ x. AreSeparate x (expressions m' b)) (sym e) separate;
          bound = subst (IsBound m') (sym e) bound;
        },
        rw (same, same_texts) refl,
      )

  IsBound-put : (c : ConfigStruct) (x : Option Slice) → IsBound m x → IsBound (put m b c) x
  IsBound-put c none h = tt
  IsBound-put c (some s) h = h

  put-IsApart :
      (c : ConfigStruct)
      → IsApart m a b
      → AreSeparate (expressions m a) c.cel.expressions
      → IsApart (put m b c) a b × (read (put m b c) a ≡ read m a)
  put-IsApart c h separate =
      IsApart-keep (put m b c) h (put_apart c h.other)
        (texts-same m (put m b c) (expressions m a) refl) (IsBound-put c (expressions m a) h.bound)
        (subst (λ (d : ConfigStruct). AreSeparate (expressions m a) d.cel.expressions)
          (sym (put_here c)) separate)

AreSeparate-none : (x : Option Slice) → AreSeparate x none
AreSeparate-none none = tt
AreSeparate-none (some s) = tt

IsNotAt-next : (m : Memory) (x : Option Slice) → IsBound m x → IsNotAt m.next x
IsNotAt-next m none h = tt
IsNotAt-next m (some s) (there, h) = λ e. omega arith

AreSeparate-IsNotAt : (x : Option Slice) (s : Slice) → IsNotAt s.array x → AreSeparate x (some s)
AreSeparate-IsNotAt none s h = tt
AreSeparate-IsNotAt (some t) s h = h

IsNotAt-AreSeparate : (x : Option Slice) (s : Slice) → AreSeparate x (some s) → IsNotAt s.array x
IsNotAt-AreSeparate none s h = tt
IsNotAt-AreSeparate (some t) s h = h

module _ (m : Memory) (a b : ℕ) where
  make-IsApart : (n : ℕ) → IsApart m a b → IsApart (make m n) a b × (read (make m n) a ≡ read m a)
  unfolding write
  make-IsApart n h =
      let fresh : IsNotAt m.next (expressions m a) = IsNotAt-next m (expressions m a) h.bound in
      let same : (k : ℕ) → k ≢ m.next → (make m n).arrays k ≡ m.arrays k = λ k e. ground arith in
      IsApart-keep m a b (make m n) h refl (texts-write m (make m n) m.next same _ fresh)
        (IsBound-write m (make m n) m.next same _ (omega arith) fresh h.bound) h.separate

  set_element-IsApart :
      (s : Slice) (i : ℕ) (text : String)
      → IsApart m a b
      → expressions m b ≡ some s
      → IsApart (set_element m s i text) a b × (read (set_element m s i text) a ≡ read m a)
  unfolding set_element write
  set_element-IsApart s i text h e =
      let away : IsNotAt s.array (expressions m a) =
        IsNotAt-AreSeparate _ s (subst (AreSeparate (expressions m a)) e h.separate) in
      let same : (k : ℕ) → k ≢ s.array → (set_element m s i text).arrays k ≡ m.arrays k =
        λ k d. ground arith in
      IsApart-keep m a b (set_element m s i text) h refl
        (texts-write m (set_element m s i text) s.array same _ away)
        (IsBound-write m (set_element m s i text) s.array same _ (omega arith) away h.bound)
        h.separate

  -- A write through `b` keeps `a` apart, and as it reads.
  Write-IsApart :
      (m' : Memory) → Write b m m' → IsApart m a b → IsApart m' a b × (read m' a ≡ read m a)
  Write-IsApart _ (queue_named text) h = put-IsApart m a b _ h h.separate
  Write-IsApart _ (overridden flag) h = put-IsApart m a b _ h h.separate
  Write-IsApart _ emptied h = put-IsApart m a b _ h (AreSeparate-none _)
  Write-IsApart _ (renewed n) h =
      let (apart, same) = make-IsApart n h in
      let (apart', same') =
        put-IsApart (make m n) a b _ apart
          (AreSeparate-IsNotAt _ (make_slice m n) (IsNotAt-next m (expressions m a) h.bound)) in
      (apart', same' ∙ same)
  Write-IsApart _ (element_set s i text e k) h = set_element-IsApart s i text h e

pub Writes-IsApart :
    (a b : ℕ) (m m' : Memory)
    → Writes b m m'
    → IsApart m a b
    → IsApart m' a b × (read m' a ≡ read m a)
Writes-IsApart a b m _ done h = (h, refl)
Writes-IsApart a b m m' (then n _ writes write') h =
    let (apart, same) = Writes-IsApart a b m n writes h in
    let (apart', same') = Write-IsApart n a b m' write' apart in (apart', same' ∙ same)
