-- ===== src/DeepCopy/Configs.antt =====
-- The deep copy of a `Config`, which its own array makes independent.
use mathlib.Core.Path.{subst}
use tekton_kueue.Base.{
  ℕ, suc, ◌≤◌, ◌<◌, ◌≡◌, refl, sym, ap, ◌∙◌, String, Bool, true, false, Option, none, some, List,
  eqb, arith,
}
use tekton_kueue.Memory.{
  Slice, ConfigStruct, Memory, alone, field_of, write, load, elements, new_config,
}
use tekton_kueue.DeepCopy.{config_deep_copy, config_deep_copy_into}
use tekton_kueue.DeepCopy.Reads.{texts, IsBound, IsFrom}
use tekton_kueue.DeepCopy.Copies.{IsCopied, cel_deep_copy_into-IsCopied}

-- What a `Config` reads as.
pub record ConfigView : Type 0 where
  pub queue_name : String
  pub multi_kueue_override : Bool
  pub expressions : Option (List String)

abbrev pub read : Memory → ℕ → ConfigView
read m a = record {
  queue_name = (m.configs a).queue_name;
  multi_kueue_override = (m.configs a).multi_kueue_override;
  expressions = texts m (m.configs a).cel.expressions;
}

-- A `Config` that is there, with expressions that are there.
pub record IsConfig (m : Memory) (a : ℕ) : Type 0 where
  pub there : a < m.next
  pub bound : IsBound m (m.configs a).cel.expressions

-- What is there before is there behind, and unchanged.
pub record IsKept (m m' : Memory) : Type 0 where
  pub arrays : (a : ℕ) → a < m.next → m'.arrays a ≡ m.arrays a
  pub cels : (a : ℕ) → a < m.next → m'.cels a ≡ m.cels a
  pub configs : (a : ℕ) → a < m.next → m'.configs a ≡ m.configs a
  pub grown : m.next ≤ m'.next

-- `b` is new, reads as `a` did, and has an array of its own.
pub record IsDeepCopy (a b : ℕ) (m m' : Memory) : Type 0 where
  pub kept : IsKept m m'
  pub fresh : b ≡ m.next
  pub same : read m' b ≡ read m a
  pub own : IsFrom m.next (m'.configs b).cel.expressions
  pub bound : IsBound m' (m'.configs b).cel.expressions

module _ (m : Memory) (a : ℕ) (h : IsConfig m a) where
  -- The memory once `*out = *in` is done.
  abbrev shallow : Memory
  shallow = let n = new_config m in record n { configs = write n.configs m.next (n.configs a) }

  shallow-a : shallow.configs a ≡ m.configs a
  unfolding write
  shallow-a = let other : eqb a m.next ≡ false = ground (arith, h.there) in rw other refl

  shallow-IsBound : (x : Option Slice) → IsBound m x → IsBound shallow x
  shallow-IsBound none k = tt
  shallow-IsBound (some s) (there, k) = (omega arith, k)

  shallow-IsCopied :
      IsCopied
        (field_of a)
        (field_of m.next)
        shallow
        (config_deep_copy_into a m.next (new_config m))
  unfolding config_deep_copy_into load
  shallow-IsCopied =
      cel_deep_copy_into-IsCopied (field_of a) (field_of m.next) shallow
        (λ e. ground (arith, h.there))
        (subst (λ (c : ConfigStruct). IsBound shallow c.cel.expressions) (sym shallow-a)
          (shallow-IsBound _ h.bound))

IsFrom-suc : (n : ℕ) (x : Option Slice) → IsFrom (suc n) x → IsFrom n x
IsFrom-suc n none h = tt
IsFrom-suc n (some s) h = omega arith

ConfigStruct-ext :
    (c d : ConfigStruct)
    → c.queue_name ≡ d.queue_name
    → c.multi_kueue_override ≡ d.multi_kueue_override
    → c.cel ≡ d.cel
    → c ≡ d
ConfigStruct-ext c d q o e i = record { queue_name = q i; multi_kueue_override = o i; cel = e i }

ConfigView-ext :
    (c d : ConfigView)
    → c.queue_name ≡ d.queue_name
    → c.multi_kueue_override ≡ d.multi_kueue_override
    → c.expressions ≡ d.expressions
    → c ≡ d
ConfigView-ext c d q o e i = record {
  queue_name = q i;
  multi_kueue_override = o i;
  expressions = e i;
}

module _ (m : Memory) (a : ℕ) (h : IsConfig m a) where
  -- The memory that a deep copy leaves.
  abbrev pub copied : Memory
  copied = config_deep_copy_into a m.next (new_config m)

  shallow-old : (b : ℕ) → b < m.next → (shallow m a h).configs b ≡ m.configs b
  unfolding write
  shallow-old b k = let other : eqb b m.next ≡ false = ground arith in rw other refl

  shallow-new : (shallow m a h).configs m.next ≡ m.configs a
  unfolding write
  shallow-new =
      let here : eqb m.next m.next ≡ true = ground arith in
      let other : eqb a m.next ≡ false = ground (arith, h.there) in rw here (rw other refl)

  copied-IsKept : IsKept m copied
  unfolding load
  copied-IsKept =
      let c = shallow-IsCopied m a h in
      record {
        arrays = λ b k. c.same_arrays b (omega arith);
        cels = λ b k. c.same_loads (alone b) tt;
        configs = λ b k.
            ConfigStruct-ext (copied.configs b) ((shallow m a h).configs b) (c.same_fields b).0
              (c.same_fields b).1 (c.same_loads (field_of b) (λ e. ground arith))
            ∙ shallow-old b k;
        grown = ground (arith, c.grown);
      }

  texts-shallow : (x : Option Slice) → texts (shallow m a h) x ≡ texts m x
  unfolding elements
  texts-shallow none = refl
  texts-shallow (some s) = refl

  copied-read : read copied m.next ≡ read m a
  unfolding load
  copied-read =
      let c = shallow-IsCopied m a h in
      ConfigView-ext (read copied m.next) (read m a)
        ((c.same_fields m.next).0 ∙ ap (λ (d : ConfigStruct). d.queue_name) shallow-new)
        ((c.same_fields m.next).1 ∙ ap (λ (d : ConfigStruct). d.multi_kueue_override) shallow-new)
        (c.same_texts
          ∙ ap (λ (d : ConfigStruct). texts (shallow m a h) d.cel.expressions) (shallow-a m a h)
          ∙ texts-shallow (m.configs a).cel.expressions)

  copied-own : IsFrom m.next (copied.configs m.next).cel.expressions
  unfolding load
  copied-own = IsFrom-suc m.next _ (shallow-IsCopied m a h).own

  pub config_deep_copy-IsDeepCopy :
      (config_deep_copy (some a) m ≡ (some m.next, copied)) × IsDeepCopy a m.next m copied
  unfolding config_deep_copy load
  config_deep_copy-IsDeepCopy = (
    refl,
    record {
      kept = copied-IsKept;
      fresh = refl;
      same = copied-read;
      own = copied-own;
      bound = (shallow-IsCopied m a h).bound;
    },
  )
