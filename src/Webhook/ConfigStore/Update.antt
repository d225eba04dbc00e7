-- ===== src/Webhook/ConfigStore/Update.antt =====
-- What an update, and any number of them, make of the store.
use mathlib.Core.Path.{subst}
use tekton_kueue.Base.{
  String, none, some, List, [], ◌∷◌, eq_iff, ◌≡◌, ◌≢◌, refl, ◌⊎◌, inl, inr, ◌↔◌, Error, ok, err,
  arith, Result-cases, Option-cases, ◌∙◌, ap, sym, some-ne-none, err-ne-ok, All, ◌++◌,
}
use tekton_kueue.Metrics.{Metrics, record_reload_failure, record_reload_success}
use tekton_kueue.Webhook.ConfigStore.{
  Config, ConfigStore, validate_config, Libraries, Updated, parse_config, build_mutators,
  update_parsed, update,
}

validate_config_iff : (cfg : Config) → (validate_config cfg ≡ none) ↔ (cfg.queue_name ≢ "")
unfolding validate_config
validate_config_iff cfg = ground (arith, eq_iff cfg.queue_name "")

module _ (L : Libraries) where
  -- The text is a configuration with a queue name, and its expressions compile to the mutators.
  abbrev pub IsGood : String → ConfigStore → Type 0
  IsGood raw s =
      (cfg : Config) × (parse_config L raw ≡ ok cfg)
      × (cfg.queue_name ≢ "")
      × (build_mutators L cfg.expressions ≡ ok s.mutators)
      × (s.config ≡ some cfg)

  pub data IsUpdated (s : ConfigStore) (raw : String) (m : Metrics) (u : Updated) : Type 0 where
    -- the previous store is preserved
    kept :
        (e : Error)
        → ((t : ConfigStore) → ¬ IsGood raw t)
        → u ≡ record { store = s; metrics = record_reload_failure m; error = some e }
        → IsUpdated s raw m u
    swapped :
        (t : ConfigStore)
        → IsGood raw t
        → u ≡ record { store = t; metrics = record_reload_success m; error = none }
        → IsUpdated s raw m u

  not-IsGood_of_invalid :
      (raw : String) (cfg : Config) (e : Error)
      → parse_config L raw ≡ ok cfg
      → validate_config cfg ≡ some e
      → (t : ConfigStore) → ¬ IsGood raw t
  not-IsGood_of_invalid raw cfg e p v t (cfg', parsed, named, _, _) =
      let same : cfg' ≡ cfg = cc in
      some-ne-none (sym v ∙ ap validate_config (sym same) ∙ (validate_config_iff cfg').1 named)

  not-IsGood_of_uncompiled :
      (raw : String) (cfg : Config) (e : Error)
      → parse_config L raw ≡ ok cfg
      → build_mutators L cfg.expressions ≡ err e
      → (t : ConfigStore) → ¬ IsGood raw t
  not-IsGood_of_uncompiled raw cfg e p b t (cfg', parsed, _, built, _) =
      let same : cfg' ≡ cfg = cc in
      err-ne-ok (sym b ∙ ap (λ c. build_mutators L c.expressions) (sym same) ∙ built)

  -- An update swaps in the store of a good text, and counts a success; on any other text it
  -- returns an error, keeps the store whole, and counts a failure.
  pub update-IsUpdated :
      (s : ConfigStore) (raw : String) (m : Metrics) → IsUpdated s raw m (update L s raw m)
  unfolding update
  update-IsUpdated s raw m = elim (Result-cases (parse_config L raw)) [
    | inr (e, p) ↦
        kept e (λ t (cfg, parsed, _, _, _). err-ne-ok (sym p ∙ parsed)) (rw (p, update_parsed))
    | inl (cfg, p) ↦ elim (Option-cases (validate_config cfg)) [
      | inr (e, v) ↦ kept e (not-IsGood_of_invalid raw cfg e p v) (rw (p, v, update_parsed))
      | inl v ↦ elim (Result-cases (build_mutators L cfg.expressions)) [
        | inr (e, b) ↦ kept e (not-IsGood_of_uncompiled raw cfg e p b) (rw (p, v, b, update_parsed))
        | inl (ms, b) ↦
            swapped (record { config = some cfg; mutators = ms })
              (cfg, p, (validate_config_iff cfg).0 v, b, refl) (rw (p, v, b, update_parsed))
      ]
    ]
  ]

  abbrev pub IsBad : String → Type 0
  IsBad raw = (t : ConfigStore) → ¬ IsGood raw t

  -- The store after a list of updates.
  abbrev pub run_updates : ConfigStore → List String → Metrics → ConfigStore
  run_updates s [] m = s
  run_updates s (raw ∷ raws) m = let u = update L s raw m in run_updates u.store raws u.metrics

  -- `t` is the store of the last good text; with no good text it is the store before.
  pub data IsLatest (s : ConfigStore) (raws : List String) (t : ConfigStore) : Type 0 where
    unchanged : All IsBad raws → t ≡ s → IsLatest s raws t
    latest :
        (before later : List String) (raw : String)
        → raws ≡ before ++ (raw ∷ later)
        → IsGood raw t
        → All IsBad later
        → IsLatest s raws t

  IsLatest-cons :
      (s t u : ConfigStore) (raw : String) (raws : List String)
      → (IsGood raw u ⊎ (IsBad raw × (u ≡ s)))
      → IsLatest u raws t
      → IsLatest s (raw ∷ raws) t
  IsLatest-cons s t u raw raws (inl good) (unchanged bad same) =
      latest [] raws raw refl (subst (IsGood raw) (sym same) good) bad
  IsLatest-cons s t u raw raws (inr (b, e)) (unchanged bad same) = unchanged (b, bad) (same ∙ e)
  IsLatest-cons s t u raw raws h (latest before later raw' e good bad) =
      latest (raw ∷ before) later raw' (ap (λ l. raw ∷ l) e) good bad

  update-IsGood :
      (s : ConfigStore) (raw : String) (m : Metrics)
      → IsGood raw (update L s raw m).store ⊎ (IsBad raw × ((update L s raw m).store ≡ s))
  update-IsGood s raw m = elim (update-IsUpdated s raw m) [
    | kept e bad same ↦ inr (bad, ap (λ u. u.store) same)
    | swapped t good same ↦ inl (subst (IsGood raw) (sym (ap (λ u. u.store) same)) good)
  ]

  -- Last-known-good: after any list of updates the store is that of the last good text, its
  -- configuration and its mutators both, and with no good text it is unchanged.
  pub run_updates-IsLatest :
      (s : ConfigStore) (raws : List String) (m : Metrics) → IsLatest s raws (run_updates s raws m)
  run_updates-IsLatest s [] m = unchanged tt refl
  run_updates-IsLatest s (raw ∷ raws) m =
      IsLatest-cons s _ (update L s raw m).store raw raws (update-IsGood s raw m)
        (run_updates-IsLatest (update L s raw m).store raws (update L s raw m).metrics)
