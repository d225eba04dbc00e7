-- ===== src/Tekton.antt =====
-- The parts of a Tekton PipelineRun that the program reads or writes, and its shared constants
-- (pkg/common/constants.go). Tekton's own code is not here: it enters by parameters.
use tekton_kueue.Base.{String, Option, List, Dict}

-- A condition of `Status.Conditions`, without its transition time.
pub record Condition : Type 0 where
  pub type : String
  pub status : String
  pub reason : String
  pub message : String

-- `rest` is the text of everything that the program carries along and never looks at.
pub record PipelineRun : Type 0 where
  pub name : String
  pub namespace : String
  pub labels : Option (Dict String)
  pub annotations : Option (Dict String)
  pub managed_fields : List String
  pub spec_status : String
  pub managed_by : Option String
  pub rest : String
  pub conditions : List Condition

abbrev pub managed_by_multi_kueue_label : String
managed_by_multi_kueue_label = "kueue.x-k8s.io/multikueue"

abbrev pub queue_label : String
queue_label = "kueue.x-k8s.io/queue-name"

abbrev pub config_key : String
config_key = "config.yaml"

abbrev pub config_map_name : String
config_map_name = "tekton-kueue-config"

-- The values of `Spec.Status` in Tekton's API that the program names; a running one has "".
abbrev pub status_pending : String
status_pending = "PipelineRunPending"

abbrev pub status_stopped_run_finally : String
status_stopped_run_finally = "StoppedRunFinally"
