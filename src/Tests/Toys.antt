-- ===== src/Tests/Toys.antt =====
-- Concrete parameters, and the data that the tests share.
use tekton_kueue.Base.{
  String, true, false, Option, none, some, List, [], ◌∷◌, errorf, Result, ok, err,
}
use tekton_kueue.Base.Decimal.{atoi}
use tekton_kueue.Base.Int.{ℤ, is_negative}
use tekton_kueue.Tekton.{Condition, PipelineRun}
use tekton_kueue.Cel.Types.{MutationRequest}
use tekton_kueue.Cel.Values.{Engine, map_type, string_type, any_type, no_fields}
use tekton_kueue.Cel.Functions.{Validation, mutation_map}
use tekton_kueue.Cel.Compiler.{CompiledProgram}
use tekton_kueue.Cel.Evaluator.{Json}
use tekton_kueue.Cel.Mutator.{Spec}
use tekton_kueue.Webhook.ConfigStore.{Config, ConfigStore, Libraries, new_cel_mutator}
use tekton_kueue.Controller.Job.{Tekton, Quantities, Client}
use tekton_kueue.Main.{Certificates}
use tekton_kueue.Mutate.{Files}

-- An engine whose programs are texts: each returns the label `team` with that text.
abbrev pub engine : Engine
engine = record {
  Env = String;
  Ast = String;
  Program = String;
  new_env = λ options. ok "env";
  compile = λ env text. ok text;
  output_type = λ ast. map_type string_type any_type;
  new_program = λ env ast. ok ast;
  eval = λ program vars. ok (mutation_map "label" "team" program);
}

abbrev pub validation : Validation
validation = record { is_qualified_name = λ key. []; is_valid_label_value = λ value. [] }

abbrev pub json : Json
json = record { marshal = λ plr. ok plr.name; unmarshal = λ text. ok no_fields }

abbrev pub spec : Spec
spec = record { set_defaults = λ plr. plr; validate_spec = λ plr. none }

abbrev pub config : Config
config = record { queue_name = "queue"; multi_kueue_override = true; expressions = "a" ∷ [] }

abbrev pub libraries : Libraries
libraries = record {
  engine = engine;
  validation = validation;
  json = json;
  spec = spec;
  yaml_unmarshal = λ raw. ok config;
}

abbrev pub program : CompiledProgram engine
program = record { program = "a"; ast = "a"; expression = "a" }

abbrev pub store : ConfigStore
store = record { config = some config; mutators = new_cel_mutator libraries (program ∷ []) ∷ [] }

abbrev pub plr : PipelineRun
plr = record {
  name = "run";
  namespace = "ns";
  labels = some (("app", "x") ∷ []);
  annotations = some (("kueue.konflux-ci.dev/requests-cpu", "2") ∷ []);
  managed_fields = [];
  spec_status = "";
  managed_by = none;
  rest = "";
  conditions = [];
}

abbrev pub requests : List MutationRequest
requests =
    record { type = "label"; key = "team"; value = "a" }
    ∷ record { type = "resource"; key = "kueue.konflux-ci.dev/requests-cpu"; value = "3" }
    ∷ record { type = "multiKueue"; key = "managedBy"; value = "far" }
    ∷ []

abbrev first_condition : List Condition → Option Condition
first_condition [] = none
first_condition (c ∷ cs) = some c

abbrev pub tekton : Tekton
tekton = record {
  reason_successful = "Succeeded";
  reason_completed = "Completed";
  is_done = λ plr. false;
  has_started = λ plr. true;
  get_condition = λ plr type. first_condition plr.conditions;
  set_condition = λ plr c. record plr { conditions = c ∷ plr.conditions };
}

abbrev pub quantities : Quantities
quantities = record {
  Quantity = ℤ;
  parse_quantity = atoi;
  must_parse = λ text. ℤ.pos 1;
  is_negative = is_negative;
}

abbrev found : Option PipelineRun → Result PipelineRun
found none = err (errorf "no PipelineRun" [])
found (some plr) = ok plr

-- A cluster of at most one PipelineRun.
abbrev pub client : Client
client = record {
  Cluster = Option PipelineRun;
  get_pipeline_run = λ cluster namespace name. found cluster;
  get_config_map = λ cluster namespace name. ok (("config.yaml", "text") ∷ []);
  apply = λ owner plr cluster. (some plr, none);
  update_status = λ plr cluster. (some plr, none);
}

abbrev pub files : Files
files = record {
  read_file = λ path. ok path;
  path_join = λ dir name. name;
  unmarshal_pipeline_run = λ text. ok plr;
  marshal = λ object. ok "text";
}

abbrev pub certificates : Certificates
certificates = record {
  CertWatcher = String;
  new_watcher = λ certificate key. ok certificate;
  path_join = λ dir name. name;
}
