-- ===== src/DeepCopy/Independent.antt =====
-- A deep copy and the configurations that were there have nothing in common.
use mathlib.Core.Path.{subst}
use tekton_kueue.Base.{ℕ, ◌≡◌, refl, sym, ap, ◌∙◌, Option, none, some, arith}
use tekton_kueue.Memory.{Slice, ConfigStruct, Memory, elements}
use tekton_kueue.DeepCopy.{config_deep_copy}
use tekton_kueue.DeepCopy.Reads.{texts, IsBound, IsFrom}
use tekton_kueue.DeepCopy.Configs.{
  read, IsConfig, IsKept, IsDeepCopy, copied, config_deep_copy-IsDeepCopy,
}
use tekton_kueue.DeepCopy.Writes.{expressions, Writes, AreSeparate, IsApart, Writes-IsApart}

module _ (m m' : Memory) (kept : IsKept m m') where
  IsBound-kept : (x : Option Slice) → IsBound m x → IsBound m' x
  IsBound-kept none h = tt
  IsBound-kept (some s) (there, h) = (omega (arith, kept.grown), rw (kept.arrays s.array there) h)

  texts-kept : (x : Option Slice) → IsBound m x → texts m' x ≡ texts m x
  unfolding elements
  texts-kept none h = refl
  texts-kept (some s) (there, h) = rw (kept.arrays s.array there) refl

  read-kept : (c : ℕ) → IsConfig m c → read m' c ≡ read m c
  read-kept c h = rw (kept.configs c h.there, texts-kept (expressions m c) h.bound) refl

AreSeparate-from :
    (m : Memory) (x y : Option Slice) → IsBound m x → IsFrom m.next y → AreSeparate x y
AreSeparate-from m none y h k = tt
AreSeparate-from m (some s) none h k = tt
AreSeparate-from m (some s) (some t) (there, h) k = λ e. omega arith

AreSeparate-sym : (x y : Option Slice) → AreSeparate x y → AreSeparate y x
AreSeparate-sym none none h = tt
AreSeparate-sym none (some t) h = tt
AreSeparate-sym (some s) none h = tt
AreSeparate-sym (some s) (some t) h = λ e. h (sym e)

module _ (m m' : Memory) (a b c : ℕ) (d : IsDeepCopy a b m m') (h : IsConfig m c) where
  old_expressions : expressions m' c ≡ expressions m c
  old_expressions = ap (λ (s : ConfigStruct). s.cel.expressions) (d.kept.configs c h.there)

  old_separate : AreSeparate (expressions m' c) (expressions m' b)
  old_separate =
      subst (λ x. AreSeparate x (expressions m' b)) (sym old_expressions)
        (AreSeparate-from m (expressions m c) (expressions m' b) h.bound d.own)

  old_IsApart : IsApart m' c b
  old_IsApart = record {
    other = λ e. omega (arith, d.fresh, h.there);
    separate = old_separate;
    bound = subst (IsBound m') (sym old_expressions) (IsBound-kept m m' d.kept _ h.bound);
  }

  copy_IsApart : IsApart m' b c
  copy_IsApart = record {
    other = λ e. omega (arith, d.fresh, h.there);
    separate = AreSeparate-sym _ _ old_separate;
    bound = d.bound;
  }

-- What a call of `DeepCopy` on the `Config` at `a` leaves: a copy that reads as `a`, and every `Config`
-- that was there as it read. Whatever is then written through the copy, they read the same, and whatever
-- is written through one of them, the copy reads the same.
abbrev pub IsIndependent : Memory → ℕ → Option ℕ × Memory → Type 0
IsIndependent m a (none, m') = ⊥
IsIndependent m a (some b, m') =
    (read m' b ≡ read m a)
    × ((c : ℕ)
        → IsConfig m c
        → (read m' c ≡ read m c)
          × ((n : Memory) → Writes b m' n → read n c ≡ read m c)
          × ((n : Memory) → Writes c m' n → read n b ≡ read m a))

-- The deep copy of a `Config` reads as that `Config`, nil expressions included, and every `Config` that
-- was there reads as before; then no writes through the copy change how one of those reads, and no
-- writes through one of those change how the copy reads.
pub config_deep_copy-IsIndependent :
    (m : Memory) (a : ℕ) → IsConfig m a → IsIndependent m a (config_deep_copy (some a) m)
config_deep_copy-IsIndependent m a h =
    let (e, d) = config_deep_copy-IsDeepCopy m a h in
    subst (IsIndependent m a) (sym e) (
      d.same,
      λ c k. (
        read-kept m (copied m a h) d.kept c k,
        λ n writes.
            (Writes-IsApart c m.next (copied m a h) n writes
              (old_IsApart m (copied m a h) a m.next c d k)).1
            ∙ read-kept m (copied m a h) d.kept c k,
        λ n writes.
            (Writes-IsApart m.next c (copied m a h) n writes
              (copy_IsApart m (copied m a h) a m.next c d k)).1
            ∙ d.same,
      ),
    )
