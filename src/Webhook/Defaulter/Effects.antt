-- ===== src/Webhook/Defaulter/Effects.antt =====
-- What an admitted PipelineRun looks like, key by key, and when a call panics.
use mathlib.Core.List.{foldl}
use mathlib.Core.Path.{subst}
use tekton_kueue.Base.{
  Error, some, String, none, List, [], ◌∷◌, ◌++◌, find, ok, ◌≡◌, ◌≢◌, refl, ◌∙◌, ap, ◌⊎◌, inl, inr,
  ◌↔◌, All,
}
use tekton_kueue.Tekton.{PipelineRun, status_pending}
use tekton_kueue.Metrics.{Metrics}
use tekton_kueue.Cel.Types.{MutationRequest}
use tekton_kueue.Cel.Compiler.{CompiledProgram, compile_cel_programs}
use tekton_kueue.Cel.Compiler.Laws.{AreCompiled, compile_cel_programs_iff}
use tekton_kueue.Cel.Mutator.{Outcome, apply_all, mutate_all}
use tekton_kueue.Cel.Mutator.Apply.{
  label_effect, annotation_effect, managed_by_effect, apply_all-effects,
}
use tekton_kueue.Cel.Mutator.Frame.{apply_all-IsFramed}
use tekton_kueue.Cel.Mutator.Phases.{
  AreRequests, IsEnded, refused, not_marshalled, not_evaluated, not_applied, applied,
  mutate_all-IsEnded,
}
use tekton_kueue.Webhook.ConfigStore.{Config, ConfigStore, Libraries, empty_store}
use tekton_kueue.Webhook.ConfigStore.Update.{
  IsGood, IsBad, run_updates, unchanged, latest, run_updates-IsLatest,
}
use tekton_kueue.Webhook.Defaulter.{
  status_error, pipeline_run, Defaulted, panicked, returned, after_mutator, run_mutators,
  set_defaults, default_with, default,
}
use tekton_kueue.Webhook.Defaulter.Defaults.{
  default_label, default_managed_by, IsCarried, set_defaults-IsDefaulted,
}
use tekton_kueue.Webhook.Defaulter.Admit.{IsHandled, build_mutators_cases, default-IsHandled}

-- `result` is the PipelineRun `plr` with the webhook's defaults and then the mutations `rs`; all else
-- is as in `plr`.
abbrev pub IsMutated : Config → PipelineRun → List MutationRequest → PipelineRun → Type 0
IsMutated cfg plr rs result =
    ((k : String)
      → (find result.labels k ≡ foldl (label_effect k) (default_label cfg plr k) rs)
        × (find result.annotations k ≡ foldl (annotation_effect k) (find plr.annotations k) rs))
    × (result.managed_by ≡ foldl managed_by_effect (default_managed_by cfg plr) rs)
    × (result.spec_status ≡ status_pending)
    × IsCarried plr result

apply_all-IsCarried :
    (cfg : Config) (plr : PipelineRun) (rs : List MutationRequest)
    → IsCarried plr (apply_all (set_defaults cfg plr) rs).0
apply_all-IsCarried cfg plr rs =
    let f = apply_all-IsFramed (set_defaults cfg plr) rs in
    let c = (set_defaults-IsDefaulted cfg plr).carried in
    record {
      same_name = f.same_name ∙ c.same_name;
      same_namespace = f.same_namespace ∙ c.same_namespace;
      same_managed_fields = f.same_managed_fields ∙ c.same_managed_fields;
      same_rest = f.same_rest ∙ c.same_rest;
      same_conditions = f.same_conditions ∙ c.same_conditions;
    }

apply_all-IsMutated :
    (cfg : Config) (plr : PipelineRun) (rs : List MutationRequest)
    → (apply_all (set_defaults cfg plr) rs).1 ≡ none
    → IsMutated cfg plr rs (apply_all (set_defaults cfg plr) rs).0
apply_all-IsMutated cfg plr rs fine =
    let d = set_defaults cfg plr in
    let made = set_defaults-IsDefaulted cfg plr in
    (
      λ k.
          let (l, n, _) = apply_all-effects k d rs fine in
          (
            l ∙ ap (λ o. foldl (label_effect k) o rs) (made.label k),
            n ∙ ap (λ o. foldl (annotation_effect k) (find o k) rs) made.same_annotations,
          ),
      (apply_all-effects "" d rs fine).2 ∙ ap (λ o. foldl managed_by_effect o rs) made.managed_by,
      (apply_all-IsFramed d rs).same_spec_status ∙ made.pending,
      apply_all-IsCarried cfg plr rs,
    )

IsHandled-ne-panicked : (d : PipelineRun) (x : Defaulted) → IsHandled d x → x ≢ panicked
IsHandled-ne-panicked d x h e = subst (IsHandled d) e h

module _ (L : Libraries) where
  AreCompiled-nil :
      (env : L.engine.Env) (es : List String) → AreCompiled L.engine env es [] → es ≡ []
  AreCompiled-nil env [] h = refl
  AreCompiled-nil env (e ∷ es) h = absurd h

  -- A list that compiles has a program.
  compiled-ne-nil : (es : List String) → ¬ (compile_cel_programs L.engine L.validation es ≡ ok [])
  compiled-ne-nil es h =
      let (some_es, (env, _, all)) = (compile_cel_programs_iff L.engine L.validation es []).0 h in
      some_es (AreCompiled-nil env es all)

  -- Where the requests come from: nowhere, if there are no expressions; else the expressions compile,
  -- and their programs are evaluated on the PipelineRun with the webhook's defaults.
  abbrev pub ArePlanned : Config → PipelineRun → Metrics → List MutationRequest → Type 0
  ArePlanned cfg plr m rs =
      ((cfg.expressions ≡ []) × (rs ≡ []))
      ⊎ ((ps : List (CompiledProgram L.engine)) × (compile_cel_programs L.engine L.validation
              cfg.expressions
            ≡ ok ps)
          × (cfg.expressions ≢ [])
          × AreRequests L.engine L.json L.spec ps (set_defaults cfg plr) m rs)

  -- Where an error comes from: there are expressions, and the call of `Mutate` with their programs on
  -- the PipelineRun with the webhook's defaults failed.
  abbrev pub IsFailed : Config → PipelineRun → Metrics → Error → Type 0
  IsFailed cfg plr m e =
      (cfg.expressions ≢ [])
      × ((ps : List (CompiledProgram L.engine)) × (compile_cel_programs L.engine L.validation
              cfg.expressions
            ≡ ok ps)
          × ((x : Error) × ((mutate_all L.engine L.json L.spec ps (set_defaults cfg plr) m).error
                ≡ some x)
              × (e ≡ status_error x)))

  -- What a call has done that returns no error, and why a call returns an error.
  abbrev pub IsAdmitted : Config → PipelineRun → Metrics → Defaulted → Type 0
  IsAdmitted cfg plr m (returned (pipeline_run plr') m' none) =
      (rs : List MutationRequest) × ArePlanned cfg plr m rs × IsMutated cfg plr rs plr'
  IsAdmitted cfg plr m (returned (pipeline_run plr') m' (some e)) = IsFailed cfg plr m e
  IsAdmitted cfg plr m _ = ⊥

  ended-IsAdmitted :
      (cfg : Config) (plr : PipelineRun) (m : Metrics) (ps : List (CompiledProgram L.engine))
      (o : Outcome)
      → cfg.expressions ≢ []
      → compile_cel_programs L.engine L.validation cfg.expressions ≡ ok ps
      → mutate_all L.engine L.json L.spec ps (set_defaults cfg plr) m ≡ o
      → IsEnded L.engine L.json L.spec ps (set_defaults cfg plr) m o
      → IsAdmitted cfg plr m (after_mutator o (run_mutators []) o.error)
  unfolding after_mutator run_mutators
  ended-IsAdmitted cfg plr m ps o some_es compiled run (refused e _ same) =
      rw same (some_es, (ps, compiled, (_, ap (λ (x : Outcome). x.error) (run ∙ same), refl)))
  ended-IsAdmitted cfg plr m ps o some_es compiled run (not_marshalled e _ _ same) =
      rw same (some_es, (ps, compiled, (_, ap (λ (x : Outcome). x.error) (run ∙ same), refl)))
  ended-IsAdmitted cfg plr m ps o some_es compiled run (not_evaluated e _ _ same) =
      rw same (some_es, (ps, compiled, (_, ap (λ (x : Outcome). x.error) (run ∙ same), refl)))
  ended-IsAdmitted cfg plr m ps o some_es compiled run (not_applied rs e _ failed same) =
      rw same (some_es, (ps, compiled, (_, ap (λ (x : Outcome). x.error) (run ∙ same), refl)))
  ended-IsAdmitted cfg plr m ps o some_es compiled run (applied rs requests fine same) =
      rw same (rs, inr (ps, compiled, some_es, requests), apply_all-IsMutated cfg plr rs fine)

  -- Under the store of a good text, a PipelineRun that is admitted is the submitted one with the
  -- webhook's defaults (pending, a queue label if it has none, `managedBy` under the override) and
  -- then, in order, the mutations that the compiled expressions return for it: this gives each label,
  -- each annotation and `managedBy`, the status is pending, and the name, the namespace, the managed
  -- fields, the conditions and the rest are as submitted. If the call returns an error, there are
  -- expressions, and `Mutate` with their programs failed on the PipelineRun with the webhook's defaults.
  pub default-IsAdmitted :
      (s : ConfigStore) (raw : String) (plr : PipelineRun) (m : Metrics)
      → (good : IsGood L raw s) → IsAdmitted good.0 plr m (default s (pipeline_run plr) m)
  unfolding default default_with mutate_all apply_all
  default-IsAdmitted s raw plr m (cfg, parsed, named, built, stored) =
      elim (build_mutators_cases L cfg.expressions s.mutators built) [
        | inl (no_es, empty) ↦
            rw (stored, empty) ([], inl (no_es, refl), apply_all-IsMutated cfg plr [] refl)
        | inr ([], compiled, some_es, one) ↦ absurd (compiled-ne-nil cfg.expressions compiled)
        | inr (p ∷ ps, compiled, some_es, one) ↦
            rw (stored, one)
              (ended-IsAdmitted cfg plr m (p ∷ ps) _ some_es compiled refl
                (mutate_all-IsEnded L.engine L.json L.spec (p ∷ ps) (set_defaults cfg plr) m))
      ]

  All-middle :
      (before later : List String) (raw : String)
      → All (IsBad L) (before ++ (raw ∷ later))
      → IsBad L raw
  All-middle [] later raw h = h.0
  All-middle (b ∷ before) later raw h = All-middle before later raw h.1

  -- After any updates of a fresh store, admitting a PipelineRun panics exactly if none of the texts
  -- was a good configuration.
  pub default-panicked_iff :
      (raws : List String) (m m' : Metrics) (plr : PipelineRun)
      → (default (run_updates L empty_store raws m) (pipeline_run plr) m' ≡ panicked)
        ↔ All (IsBad L) raws
  unfolding default default_with
  default-panicked_iff raws m m' plr = elim (run_updates-IsLatest L empty_store raws m) [
    | unchanged bad same ↦ (λ _. bad, λ _. rw same refl)
    | latest before later raw e good bad ↦ (
      λ h. absurd (IsHandled-ne-panicked _ _ ((default-IsHandled L _ raw plr m' good).2) h),
      λ all. absurd (All-middle before later raw (subst (All (IsBad L)) e all) _ good),
    )
  ]
