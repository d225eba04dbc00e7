-- ===== src/Webhook/ConfigStore/Serial.antt =====
-- The interleavings under the lock are sequences of whole updates, and no update waits for another
-- step once it holds the lock.
use mathlib.Core.Path.{subst}
use tekton_kueue.Base.{
  ℕ, ◌<◌, String, some, List, [], ◌∷◌, ◌++◌, ◌≡◌, ◌≢◌, refl, sym, ap, ◌∙◌, inl, inr, arith, Error,
  Result-cases, Option-cases, some-ne-none,
}
use tekton_kueue.Metrics.{Metrics, no_metrics}
use tekton_kueue.Webhook.ConfigStore.{
  ConfigStore, empty_store, Libraries, parse_config, build_mutators, validate_config, swap_in,
  update_parsed, update,
}
use tekton_kueue.Webhook.ConfigStore.Update.{run_updates, kept, swapped, update-IsUpdated}
use tekton_kueue.Webhook.ConfigStore.Locking.{
  Writer, outside, locked, half_way, System, start, Step, lock, give_up, set_mutators, set_config,
  read_lock, read_unlock, Reach, here, next,
}

module _ (L : Libraries) where
  -- The store that an update leaves does not depend on the counters.
  update-metrics :
      (s : ConfigStore) (raw : String) (m n : Metrics)
      → (update L s raw m).store ≡ (update L s raw n).store
  unfolding update
  update-metrics s raw m n = elim (Result-cases (parse_config L raw)) [
    | inr (e, p) ↦ rw (p, update_parsed) refl
    | inl (cfg, p) ↦ elim (Option-cases (validate_config cfg)) [
      | inr (e, v) ↦ rw (p, v, update_parsed) refl
      | inl v ↦ elim (Result-cases (build_mutators L cfg.expressions)) [
        | inr (e, b) ↦ rw (p, v, b, update_parsed, swap_in) refl
        | inl (ms, b) ↦ rw (p, v, b, update_parsed, swap_in) refl
      ]
    ]
  ]

  update-kept :
      (s : ConfigStore) (raw : String) (m : Metrics) (e : Error)
      → (update L s raw m).error ≡ some e
      → (update L s raw m).store ≡ s
  update-kept s raw m e h = elim (update-IsUpdated L s raw m) [
    | kept x bad same ↦ ap (λ u. u.store) same
    | swapped t good same ↦ absurd (some-ne-none (sym h ∙ ap (λ u. u.error) same))
  ]

  run_updates-append :
      (s : ConfigStore) (raws : List String) (raw : String) (m n : Metrics)
      → run_updates L s (raws ++ (raw ∷ [])) m ≡ (update L (run_updates L s raws m) raw n).store
  run_updates-append s [] raw m n = update-metrics s raw m n
  run_updates-append s (r ∷ raws) raw m n =
      run_updates-append (update L s r m).store raws raw (update L s r m).metrics n

  -- The store after whole updates, one after the other.
  abbrev pub serial : List String → ConfigStore
  serial raws = run_updates L empty_store raws no_metrics

  serial-append :
      (raws : List String) (raw : String) (m : Metrics) (s : ConfigStore)
      → s ≡ serial raws
      → serial (raws ++ (raw ∷ [])) ≡ (update L s raw m).store
  serial-append raws raw m s e =
      run_updates-append empty_store raws raw no_metrics m
      ∙ ap (λ t. (update L t raw m).store) (sym e)

  -- The texts of the updates that have got the lock, in this order.
  abbrev pub begun_by : {x y : System} → Step L x y → List String → List String
  begun_by (lock raw m w r e) raws = raws ++ (raw ∷ [])
  begun_by (give_up raw m x' w u e) raws = raws
  begun_by (set_mutators raw m w u e) raws = raws
  begun_by (set_config raw t w e) raws = raws
  begun_by (read_lock w e) raws = raws
  begun_by (read_unlock n r e) raws = raws

  abbrev pub begun : {x y : System} → Reach L x y → List String
  begun here = []
  begun (next reach step) = begun_by step (begun reach)

  -- An update under way is the last of those that have begun; the others are done.
  abbrev IsSerialAt : ConfigStore → List String → Writer → Type 0
  IsSerialAt s raws outside = s ≡ serial raws
  IsSerialAt s raws (locked raw m) =
      (before : List String) × (raws ≡ before ++ (raw ∷ [])) × (s ≡ serial before)
  IsSerialAt s raws (half_way raw t) = (t ≡ serial raws) × (s.mutators ≡ t.mutators)

  abbrev IsSerial : System → List String → Type 0
  IsSerial x raws = IsSerialAt x.store raws x.writer

  gave_up :
      (s : ConfigStore) (raws : List String) (raw : String) (m : Metrics) (e : Error)
      → (update L s raw m).error ≡ some e
      → IsSerialAt s raws (locked raw m)
      → s ≡ serial raws
  gave_up s raws raw m e h (before, same, done) =
      sym (update-kept s raw m e h) ∙ sym (serial-append before raw m s done) ∙ ap serial (sym same)

  set_half_way :
      (s : ConfigStore) (raws : List String) (raw : String) (m : Metrics)
      → IsSerialAt s raws (locked raw m)
      → IsSerialAt
          (record s { mutators = (update L s raw m).store.mutators })
          raws
          (half_way raw (update L s raw m).store)
  set_half_way s raws raw m (before, same, done) =
      (sym (ap serial same ∙ serial-append before raw m s done), refl)

  set_whole :
      (s t : ConfigStore) (raws : List String) (raw : String)
      → IsSerialAt s raws (half_way raw t)
      → record s { config = t.config } ≡ serial raws
  set_whole s t raws raw (done, same) =
      (λ i. record { config = t.config; mutators = same i }) ∙ done

  Step-IsSerial :
      {x y : System} (step : Step L x y) (raws : List String)
      → IsSerial x raws
      → IsSerial y (begun_by step raws)
  Step-IsSerial {x} (lock raw m w r e) raws h =
      subst (λ y. IsSerial y (raws ++ (raw ∷ []))) (sym e)
        (raws, refl, subst (IsSerialAt x.store raws) w h)
  Step-IsSerial {x} (give_up raw m x' w u e) raws h =
      subst (λ y. IsSerial y raws) (sym e)
        (gave_up x.store raws raw m x' u (subst (IsSerialAt x.store raws) w h))
  Step-IsSerial {x} (set_mutators raw m w u e) raws h =
      subst (λ y. IsSerial y raws) (sym e)
        (set_half_way x.store raws raw m (subst (IsSerialAt x.store raws) w h))
  Step-IsSerial {x} (set_config raw t w e) raws h =
      subst (λ y. IsSerial y raws) (sym e)
        (set_whole x.store t raws raw (subst (IsSerialAt x.store raws) w h))
  Step-IsSerial {x} (read_lock w e) raws h = subst (λ y. IsSerial y raws) (sym e) h
  Step-IsSerial {x} (read_unlock n r e) raws h = subst (λ y. IsSerial y raws) (sym e) h

  Reach-IsSerial_lem : {x : System} (reach : Reach L start x) → IsSerial x (begun reach)
  Reach-IsSerial_lem here = refl
  Reach-IsSerial_lem (next reach step) = Step-IsSerial step (begun reach) (Reach-IsSerial_lem reach)

  -- The steps that the writer has before it.
  abbrev pub steps_left : Writer → ℕ
  steps_left outside = 0
  steps_left (locked raw m) = 2
  steps_left (half_way raw t) = 1

  -- The writer can go on at once, and comes nearer to its return.
  abbrev pub CanGoOn : System → Type 0
  CanGoOn x = (y : System) × Step L x y × (steps_left y.writer < steps_left x.writer)

  CanGoOn-at :
      (s : ConfigStore) (w : Writer) (n : ℕ)
      → w ≢ outside
      → CanGoOn (record { store = s; writer = w; readers = n })
  CanGoOn-at s outside n h = absurd (h refl)
  CanGoOn-at s (half_way raw t) n h = (_, set_config raw t refl refl, omega arith)
  CanGoOn-at s (locked raw m) n h = elim (Option-cases (update L s raw m).error) [
    | inl fine ↦ (_, set_mutators raw m refl fine refl, omega arith)
    | inr (e, failed) ↦ (_, give_up raw m e refl failed refl, omega arith)
  ]

  -- In every interleaving that starts with the empty store: whenever no update is under way, the store is
  -- that of whole updates with the texts that have got the lock, one after the other in that order; and
  -- an update under way can always take its next step, of which it has at most two.
  pub Reach-IsSerial :
      {x : System} (reach : Reach L start x)
      → (x.writer ≡ outside → x.store ≡ serial (begun reach)) × (x.writer ≢ outside → CanGoOn x)
  Reach-IsSerial {x} reach = (
    λ w. subst (IsSerialAt x.store (begun reach)) w (Reach-IsSerial_lem reach),
    λ h. CanGoOn-at x.store x.writer x.readers h,
  )
