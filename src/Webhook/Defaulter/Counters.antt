-- ===== src/Webhook/Defaulter/Counters.antt =====
-- What admissions count, under a store that holds a good configuration.
use tekton_kueue.Base.{
  ℕ, suc, ◌+◌, ◌≤◌, String, Option, none, some, List, [], ◌∷◌, length, Error, bad_request,
  internal_error, evaluation_error, ok, as_validation_error, as_evaluation_error, ◌≡◌, ◌≢◌, refl,
  ap, inl, inr, arith, Option-cases,
}
use tekton_kueue.Tekton.{PipelineRun}
use tekton_kueue.Metrics.{
  Metrics, record_evaluation_success, record_evaluation_failure, record_mutation_success,
  record_mutation_failure,
}
use tekton_kueue.Cel.Values.{Engine}
use tekton_kueue.Cel.Functions.{Validation}
use tekton_kueue.Cel.Compiler.{CompiledProgram, compile_cel_programs}
use tekton_kueue.Cel.Compiler.Laws.{AreCompiled, compile_cel_programs_iff}
use tekton_kueue.Cel.Evaluator.{Json}
use tekton_kueue.Cel.Mutator.{Spec, Outcome, mutate_all}
use tekton_kueue.Cel.Mutator.Phases.{
  IsEnded, refused, not_marshalled, not_evaluated, not_applied, applied, mutate_all-IsEnded,
}
use tekton_kueue.Webhook.ConfigStore.{ConfigStore, Libraries}
use tekton_kueue.Webhook.ConfigStore.Update.{IsGood}
use tekton_kueue.Webhook.Defaulter.{
  Defaulted, pipeline_run, panicked, returned, internal_or_same, status_error, after_mutator,
  run_mutators, default_with, default, set_defaults,
}
use tekton_kueue.Webhook.Defaulter.Admit.{build_mutators_cases, status_error-apply_all}

-- How one admission counts under these expressions, by the error that it returns.
pub data IsCounted (es : List String) (m : Metrics) : Metrics → Option Error → Type 0 where
  -- without expressions there is no mutator, and nothing is counted
  plain : es ≡ [] → IsCounted es m m none
  admitted : es ≢ [] → IsCounted es m (record_mutation_success (record_evaluation_success m)) none
  bad : (e : Error) → es ≢ [] → IsCounted es m m (some (bad_request e))
  bad_evaluation :
      (e : Error) → es ≢ [] → IsCounted es m (record_evaluation_failure m) (some (bad_request e))
  unevaluated :
      (e : Error) → es ≢ [] → IsCounted es m (record_evaluation_failure m) (some (internal_error e))
  unapplied :
      (e : Error)
      → es ≢ []
      → IsCounted es m
          (record_mutation_failure (record_evaluation_success m))
          (some (internal_error e))

-- The same of what a call of `Default` leaves; it does not panic.
abbrev IsCountedBy : List String → Metrics → Defaulted → Type 0
IsCountedBy es m panicked = ⊥
IsCountedBy es m (returned object m' e) = IsCounted es m m' e

evaluation_error-IsCounted :
    (es : List String) (m : Metrics) (e : Error)
    → es ≢ []
    → IsCounted es m (record_evaluation_failure m) (some (status_error (evaluation_error e)))
unfolding status_error as_validation_error as_evaluation_error internal_or_same
evaluation_error-IsCounted es m e some_es = elim (Option-cases (as_validation_error e)) [
  | inl h ↦ rw (h, status_error) (unevaluated (evaluation_error e) some_es)
  | inr (x, h) ↦ rw (h, status_error) (bad_evaluation x some_es)
]

module _ (E : Engine) (J : Json) (S : Spec) where
  ended-IsCounted :
      (es : List String) (ps : List (CompiledProgram E)) (d : PipelineRun) (m : Metrics)
      (o : Outcome)
      → es ≢ []
      → IsEnded E J S ps d m o
      → IsCountedBy es m (after_mutator o (run_mutators []) o.error)
  unfolding after_mutator run_mutators
  ended-IsCounted es ps d m o h (refused e _ same) = rw same (bad _ h)
  ended-IsCounted es ps d m o h (not_marshalled e _ _ same) = rw same (bad _ h)
  ended-IsCounted es ps d m o h (not_evaluated e _ _ same) =
      rw same (evaluation_error-IsCounted es m e h)
  ended-IsCounted es ps d m o h (not_applied rs e _ failed same) =
      rw (same, status_error-apply_all d rs e failed) (unapplied e h)
  ended-IsCounted es ps d m o h (applied rs _ fine same) = rw same (admitted h)

compiled-ne-nil :
    (E : Engine) (V : Validation) (es : List String) → compile_cel_programs E V es ≢ ok []
compiled-ne-nil E V es = λ h.
    let (some_es, (env, made, all)) = (compile_cel_programs_iff E V es []).0 h in
    clash es env some_es all
  where
    clash : (es : List String) (env : E.Env) → es ≢ [] → AreCompiled E env es [] → ⊥
    clash [] env some_es all = some_es refl
    clash (e ∷ es) env some_es all = all

-- The numbers of answers of a kind.
abbrev pub count_admitted : List (Option Error) → ℕ
count_admitted [] = 0
count_admitted (none ∷ es) = suc (count_admitted es)
count_admitted (some e ∷ es) = count_admitted es

abbrev is_internal : Error → ℕ
is_internal (internal_error e) = 1
is_internal _ = 0

abbrev pub count_internal : List (Option Error) → ℕ
count_internal [] = 0
count_internal (none ∷ es) = count_internal es
count_internal (some e ∷ es) = is_internal e + count_internal es

-- What a list of answers counts in all, from `m` to `m'`.
pub record IsTallied (es : List String) (m : Metrics) (answers : List (Option Error)) (m' : Metrics)
    : Type 0 where
  pub nothing : es ≡ [] → (m' ≡ m) × (count_admitted answers ≡ length answers)
  pub admissions : es ≢ [] → m'.mutation_success ≡ m.mutation_success + count_admitted answers
  pub evaluations :
      es ≢ []
      → m'.evaluation_success + (m.mutation_success + m.mutation_failure)
        ≡ m.evaluation_success + (m'.mutation_success + m'.mutation_failure)
  pub internal :
      m.evaluation_failure + m.mutation_failure + count_internal answers
      ≤ m'.evaluation_failure + m'.mutation_failure
  pub failures :
      m'.evaluation_failure + m'.mutation_failure + count_admitted answers
      ≤ m.evaluation_failure + m.mutation_failure + length answers
  pub reloads : (m'.reload_success ≡ m.reload_success) × (m'.reload_failure ≡ m.reload_failure)

IsTallied-refl : (es : List String) (m : Metrics) → IsTallied es m [] m
IsTallied-refl es m = ground arith

IsTallied-cons :
    (es : List String) (m n m' : Metrics) (e : Option Error) (answers : List (Option Error))
    → IsCounted es m n e
    → IsTallied es n answers m'
    → IsTallied es m (e ∷ answers) m'
IsTallied-cons es m _ m' _ answers (plain h) t = ground arith
IsTallied-cons es m _ m' _ answers (admitted h) t = ground arith
IsTallied-cons es m _ m' _ answers (bad e h) t = ground arith
IsTallied-cons es m _ m' _ answers (bad_evaluation e h) t = ground arith
IsTallied-cons es m _ m' _ answers (unevaluated e h) t = ground arith
IsTallied-cons es m _ m' _ answers (unapplied e h) t = ground arith

module _ (L : Libraries) (s : ConfigStore) where
  abbrev pub answer_next :
      Defaulted
      → (Metrics → Option (List (Option Error) × Metrics))
      → Option (List (Option Error) × Metrics)
  answer_next panicked rest = none
  answer_next (returned object m e) rest = answer_first e (rest m)
    where
      answer_first :
          Option Error
          → Option (List (Option Error) × Metrics)
          → Option (List (Option Error) × Metrics)
      answer_first e none = none
      answer_first e (some (es, m)) = some (e ∷ es, m)

  -- The answers to PipelineRuns, one after the other, and the counters; none if a call panics.
  pub answer_all : List PipelineRun → Metrics → Option (List (Option Error) × Metrics)
  answer_all [] m = some ([], m)
  answer_all (plr ∷ plrs) m = answer_next (default s (pipeline_run plr) m) (answer_all plrs)

  module _ (raw : String) (good : IsGood L raw s) where
    default-IsCounted :
        (plr : PipelineRun) (m : Metrics)
        → IsCountedBy good.0.expressions m (default s (pipeline_run plr) m)
    unfolding default default_with mutate_all
    default-IsCounted plr m =
        let (cfg, parsed, named, built, stored) = good in
        let d = set_defaults cfg plr in
        elim (build_mutators_cases L cfg.expressions s.mutators built) [
          | inl (e, empty) ↦ rw (stored, empty) (plain e)
          | inr ([], compiled, _, one) ↦
              absurd (compiled-ne-nil L.engine L.validation cfg.expressions compiled)
          | inr (p ∷ ps, compiled, some_es, one) ↦
              rw (stored, one)
                (ended-IsCounted L.engine L.json L.spec cfg.expressions (p ∷ ps) d m _ some_es
                  (mutate_all-IsEnded L.engine L.json L.spec (p ∷ ps) d m))
        ]

    -- All calls return, and what they count is the tally of their answers.
    abbrev pub AreTallied : List PipelineRun → Metrics → Type 0
    AreTallied plrs m =
        (answers : List (Option Error)) × (m' : Metrics) × (answer_all plrs m ≡ some (answers, m'))
        × (length answers ≡ length plrs)
        × IsTallied good.0.expressions m answers m'

    answer_next-AreTallied :
        (plr : PipelineRun) (plrs : List PipelineRun) (m : Metrics) (d : Defaulted)
        → default s (pipeline_run plr) m ≡ d
        → IsCountedBy good.0.expressions m d
        → ((n : Metrics) → AreTallied plrs n)
        → AreTallied (plr ∷ plrs) m
    unfolding answer_all
    answer_next-AreTallied plr plrs m panicked e h rest = absurd h
    answer_next-AreTallied plr plrs m (returned object n x) e h rest =
        let (answers, m', all, same, tallied) = rest n in
        (
          x ∷ answers,
          m',
          rw (e, all) refl,
          ap suc same,
          IsTallied-cons _ m n m' x answers h tallied,
        )

    -- Under the store of a good text, PipelineRuns that are admitted one after the other are all answered.
    -- Without expressions all are admitted, and nothing is counted. With some, as many mutations succeed
    -- as PipelineRuns are admitted; an evaluation that succeeds is followed by one mutation that succeeds
    -- or fails; the failures of evaluations and mutations are at least the internal errors, and with the
    -- admissions at most the PipelineRuns; no reload is counted.
    pub answer_all-AreTallied : (plrs : List PipelineRun) (m : Metrics) → AreTallied plrs m
    unfolding answer_all
    answer_all-AreTallied [] m = ([], m, refl, refl, IsTallied-refl _ m)
    answer_all-AreTallied (plr ∷ plrs) m =
        answer_next-AreTallied plr plrs m _ refl (default-IsCounted plr m)
          (answer_all-AreTallied plrs)
