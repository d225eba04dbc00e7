-- ===== src/Metrics/Registry.antt =====
-- internal/cel/metrics.go and internal/webhook/v1/metrics.go: the counters, and their registration
-- when the program starts. Prometheus' `MustRegister` panics on a name that is registered already.
use mathlib.Core.Option.{bind}
use tekton_kueue.Base.{
  String, Bool, false, ◌||◌, Option, none, some, List, [], ◌∷◌, ◌++◌, ◌==◌, if◌then◌else◌, ◌≡◌,
  refl,
}

-- A `prometheus.CounterVec`: its name, its help, and its labels.
pub record Counter : Type 0 where
  pub name : String
  pub help : String
  pub labels : List String

abbrev pub cel_evaluations_total : Counter
cel_evaluations_total = record {
  name = "tekton_kueue_cel_evaluations_total";
  help = "Total number of CEL evaluations";
  labels = "result" ∷ [];
}

abbrev pub cel_mutations_total : Counter
cel_mutations_total = record {
  name = "tekton_kueue_cel_mutations_total";
  help = "Total number of CEL mutation operations applied to PipelineRuns";
  labels = "result" ∷ [];
}

abbrev pub config_reload_total : Counter
config_reload_total = record {
  name = "tekton_kueue_config_reload_total";
  help = "Total number of Config reloads";
  labels = "result" ∷ [];
}

abbrev pub config_reload_failure_total : Counter
config_reload_failure_total = record {
  name = "tekton_kueue_config_reload_failure_total";
  help = "Total number of Config reload failures";
  labels = "result" ∷ [];
}

unfoldable pub is_registered : List Counter → String → Bool
is_registered [] name = false
is_registered (c ∷ cs) name = c.name == name || is_registered cs name

-- `metrics.Registry.MustRegister`, with `none` for a panic
unfoldable pub must_register : Counter → List Counter → Option (List Counter)
unfolding is_registered
must_register c registry =
    if is_registered registry c.name then none else some (registry ++ (c ∷ []))

-- The two `init` functions.
abbrev pub init_cel : List Counter → Option (List Counter)
init_cel registry =
    bind (must_register cel_evaluations_total registry) (must_register cel_mutations_total)

abbrev pub init_webhook : List Counter → Option (List Counter)
init_webhook registry =
    bind (must_register config_reload_total registry) (must_register config_reload_failure_total)

-- Neither panics, in the order of Go's imports or in the other.
tests :
    (bind (init_cel []) init_webhook
      ≡ some (
          cel_evaluations_total ∷ cel_mutations_total ∷ config_reload_total
          ∷ config_reload_failure_total ∷ []))
    × (bind (init_webhook []) init_cel
        ≡ some (
            config_reload_total ∷ config_reload_failure_total ∷ cel_evaluations_total
            ∷ cel_mutations_total ∷ []))
unfolding must_register bind
tests = (refl, refl)
