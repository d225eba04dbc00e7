-- ===== src/Webhook/ConfigStore/Locking.antt =====
-- The lock of internal/webhook/v1/config_store.go: an update in its steps, interleaved with any
-- number of readers. `Update` holds the write lock from its first line to its return, and
-- `GetConfigAndMutators` reads both fields under the read lock.
use tekton_kueue.Base.{
  ℕ, suc, ◌<◌, String, none, some, ◌≡◌, refl, sym, ◌∙◌, ap, ◌⊎◌, inl, inr, arith, Error,
  some-ne-none,
}
use mathlib.Core.Path.{subst}
use tekton_kueue.Metrics.{Metrics}
use tekton_kueue.Webhook.ConfigStore.{ConfigStore, empty_store, Libraries, update}
use tekton_kueue.Webhook.ConfigStore.Update.{IsGood, kept, swapped, update-IsUpdated}

-- Where the writer stands: outside, at work on a text, or between the two assignments that swap
-- in the store `t`.
pub data Writer : Type 0 where
  outside : Writer
  locked : String → Metrics → Writer
  half_way : String → ConfigStore → Writer

pub record System : Type 0 where
  pub store : ConfigStore
  pub writer : Writer
  pub readers : ℕ

abbrev pub start : System
start = record { store = empty_store; writer = outside; readers = 0 }

module _ (L : Libraries) where
  pub data Step (x y : System) : Type 0 where
    -- `s.mu.Lock()`
    lock :
        (raw : String) (m : Metrics)
        → x.writer ≡ outside
        → x.readers ≡ 0
        → y ≡ record x { writer = locked raw m }
        → Step x y
    -- an early return, and its deferred `Unlock`
    give_up :
        (raw : String) (m : Metrics) (e : Error)
        → x.writer ≡ locked raw m
        → (update L x.store raw m).error ≡ some e
        → y ≡ record x { writer = outside }
        → Step x y
    -- `s.mutators = mutators`
    set_mutators :
        (raw : String) (m : Metrics)
        → x.writer ≡ locked raw m
        → (update L x.store raw m).error ≡ none
        → y ≡ record x {
          store = record (x.store) { mutators = (update L x.store raw m).store.mutators };
          writer = half_way raw (update L x.store raw m).store;
        }
        → Step x y
    -- `s.config = &cfg`, and the deferred `Unlock`
    set_config :
        (raw : String) (t : ConfigStore)
        → x.writer ≡ half_way raw t
        → y ≡ record x { store = record (x.store) { config = t.config }; writer = outside }
        → Step x y
    -- `s.mu.RLock()` and `s.mu.RUnlock()`
    read_lock : x.writer ≡ outside → y ≡ record x { readers = suc x.readers } → Step x y
    read_unlock : (n : ℕ) → x.readers ≡ suc n → y ≡ record x { readers = n } → Step x y

  pub data Reach (x : System) : System → Type 0 where
    here : Reach x x
    next : {y z : System} → Reach x y → Step y z → Reach x z

  -- The store is empty, or the store of one good text, configuration and mutators both.
  abbrev pub IsConsistent : ConfigStore → Type 0
  IsConsistent s = (s ≡ empty_store) ⊎ ((raw : String) × IsGood L raw s)

  abbrev IsSafeAt : ConfigStore → ℕ → Writer → Type 0
  IsSafeAt s readers outside = IsConsistent s
  IsSafeAt s readers (locked raw m) = IsConsistent s × (readers ≡ 0)
  IsSafeAt s readers (half_way raw t) = (s.mutators ≡ t.mutators) × IsGood L raw t × (readers ≡ 0)

  abbrev IsSafe : System → Type 0
  IsSafe x = IsSafeAt x.store x.readers x.writer

  update-IsGood :
      (s : ConfigStore) (raw : String) (m : Metrics)
      → (update L s raw m).error ≡ none
      → IsGood L raw (update L s raw m).store
  update-IsGood s raw m h = elim (update-IsUpdated L s raw m) [
    | kept e bad same ↦ absurd (some-ne-none (sym (ap (λ u. u.error) same) ∙ h))
    | swapped t good same ↦ subst (IsGood L raw) (sym (ap (λ u. u.store) same)) good
  ]

  IsSafeAt-fewer :
      (s : ConfigStore) (n r : ℕ) (w : Writer) → r ≡ suc n → IsSafeAt s r w → IsSafeAt s n w
  IsSafeAt-fewer s n r outside e h = h
  IsSafeAt-fewer s n r (locked raw m) e h = absurd (omega arith)
  IsSafeAt-fewer s n r (half_way raw t) e h = absurd (omega arith)

  Step-IsSafe : {x y : System} → Step x y → IsSafe x → IsSafe y
  Step-IsSafe {x} (lock raw m w r e) s =
      subst IsSafe (sym e) (subst (IsSafeAt x.store x.readers) w s, r)
  Step-IsSafe {x} (give_up raw m x' w u e) s =
      subst IsSafe (sym e) (subst (IsSafeAt x.store x.readers) w s).0
  Step-IsSafe {x} (set_mutators raw m w u e) s =
      subst IsSafe (sym e)
        (refl, update-IsGood x.store raw m u, (subst (IsSafeAt x.store x.readers) w s).1)
  Step-IsSafe {x} (set_config raw t w e) s =
      let (same, good, _) = subst (IsSafeAt x.store x.readers) w s in
      subst IsSafe (sym e) (
        inr (
          raw,
          subst (IsGood L raw) (ap (λ ms. record { config = t.config; mutators = ms }) (sym same))
              good,
        ))
  Step-IsSafe {x} (read_lock w e) s =
      subst IsSafe (sym e)
        (subst (IsSafeAt x.store (suc x.readers)) (sym w) (subst (IsSafeAt x.store x.readers) w s))
  Step-IsSafe {x} (read_unlock n r e) s =
      subst IsSafe (sym e) (IsSafeAt-fewer x.store n x.readers x.writer r s)

  Reach-IsSafe : {x y : System} → IsSafe x → Reach x y → IsSafe y
  Reach-IsSafe s here = s
  Reach-IsSafe s (next r st) = Step-IsSafe st (Reach-IsSafe s r)

  IsConsistent-of_readers :
      (s : ConfigStore) (r : ℕ) (w : Writer)
      → 0 < r
      → IsSafeAt s r w
      → IsConsistent s × (w ≡ outside)
  IsConsistent-of_readers s r outside h safe = (safe, refl)
  IsConsistent-of_readers s r (locked raw m) h safe = absurd (omega arith)
  IsConsistent-of_readers s r (half_way raw t) h safe = absurd (omega arith)

  -- In every interleaving that starts with the empty store, a reader that holds the lock sees the
  -- empty store, or configuration and mutators of one and the same good text; no update is under
  -- way at that moment.
  pub readers-IsConsistent :
      (x : System) → Reach start x → 0 < x.readers → IsConsistent x.store × (x.writer ≡ outside)
  readers-IsConsistent x r h =
      IsConsistent-of_readers x.store x.readers x.writer h (Reach-IsSafe (inl refl) r)
