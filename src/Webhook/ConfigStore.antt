-- ===== src/Webhook/ConfigStore.antt =====
-- internal/webhook/v1/config_store.go and pkg/config/config_type.go: the current configuration
-- with its mutators. An update runs under the write lock, so it is one step here; the steps inside
-- it, and the readers, are in `ConfigStore.Locking`.
pub mod Update
pub mod Locking
pub mod Serial
use tekton_kueue.Base.{
  String, Bool, Option, none, some, List, [], ◌∷◌, ◌==◌, Error, errorf, Result, ok, err, ◌>>=◌,
  if◌then◌else◌,
}
use tekton_kueue.Tekton.{PipelineRun}
use tekton_kueue.Metrics.{Metrics, record_reload_failure, record_reload_success}
use tekton_kueue.Cel.Values.{Engine}
use tekton_kueue.Cel.Functions.{Validation}
use tekton_kueue.Cel.Compiler.{CompiledProgram, compile_cel_programs}
use tekton_kueue.Cel.Evaluator.{Json}
use tekton_kueue.Cel.Mutator.{Spec, Outcome, mutate_all}

-- `Config`, with the expressions of its field `CEL`.
pub record Config : Type 0 where
  pub queue_name : String
  pub multi_kueue_override : Bool
  pub expressions : List String

-- The interface `PipelineRunMutator`: its one method.
abbrev pub PipelineRunMutator : Type 0
PipelineRunMutator = PipelineRun → Metrics → Outcome

-- `config` is a pointer, nil before the first update.
pub record ConfigStore : Type 0 where
  pub config : Option Config
  pub mutators : List PipelineRunMutator

abbrev pub empty_store : ConfigStore
empty_store = record { config = none; mutators = [] }

abbrev pub get_config_and_mutators : ConfigStore → Option Config × List PipelineRunMutator
get_config_and_mutators s = (s.config, s.mutators)

unfoldable pub validate_config : Config → Option Error
validate_config config =
    if config.queue_name == ""
    then some (errorf "queue name is not set in the PipelineRunCustomDefaulter" [])
    else none

-- The libraries below the webhook: cel-go, validation, JSON, Tekton and YAML.
pub record Libraries : Type 1 where
  pub engine : Engine
  pub validation : Validation
  pub json : Json
  pub spec : Spec
  pub yaml_unmarshal : String → Result Config

-- What a call of `Update` leaves: the store, the counters, the error.
pub record Updated : Type 0 where
  pub store : ConfigStore
  pub metrics : Metrics
  pub error : Option Error

module _ (L : Libraries) where
  abbrev pub parse_config : String → Result Config
  parse_config raw = L.yaml_unmarshal raw

  -- `cel.NewCELMutator(programs)`
  abbrev pub new_cel_mutator : List (CompiledProgram L.engine) → PipelineRunMutator
  new_cel_mutator programs = mutate_all L.engine L.json L.spec programs

  -- The mutators of a configuration: none, or one with all compiled expressions.
  unfoldable pub build_mutators : List String → Result (List PipelineRunMutator)
  build_mutators [] = ok []
  build_mutators (e ∷ es) = do
    programs ← compile_cel_programs L.engine L.validation (e ∷ es)
    ok (new_cel_mutator programs ∷ [])

  abbrev failed : ConfigStore → Metrics → Error → Updated
  failed s m e = record { store = s; metrics = record_reload_failure m; error = some e }

  swap_in : ConfigStore → Config → Metrics → Result (List PipelineRunMutator) → Updated
  swap_in s cfg m (err e) = failed s m e
  swap_in s cfg m (ok mutators) = record {
    store = record { config = some cfg; mutators = mutators };
    metrics = record_reload_success m;
    error = none;
  }

  update_parsed : ConfigStore → Metrics → Result Config → Updated
  unfolding swap_in validate_config build_mutators
  update_parsed s m (err e) = failed s m e
  update_parsed s m (ok cfg) = elim (validate_config cfg) [
    | some e ↦ failed s m e
    | none ↦ swap_in s cfg m (build_mutators cfg.expressions)
  ]

  unfoldable pub update : ConfigStore → String → Metrics → Updated
  unfolding update_parsed
  update s raw m = update_parsed s m (parse_config raw)
