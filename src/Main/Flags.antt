-- ===== src/Main/Flags.antt =====
-- cmd/main.go, lines 71-168: the flags of the subcommands, their names and defaults, and how the
-- fields are read from them behind the parsing. The logger's flags and those of the API client's
-- configuration are the libraries'.
pub mod Names
pub mod Defaults
use mathlib.Core.Option.{bind}
use tekton_kueue.Base.{
  ℕ, ◌*◌, String, Bool, true, false, Option, none, some, List, [], ◌∷◌, ◌++◌, ◌==◌, Dict, lookup,
  insert, Result, ok, err, All, if◌then◌else◌, ◌≡◌, refl, ap, ◌∙◌, eq_iff, arith,
}
use tekton_kueue.Base.Int.{ℤ, pos}
use tekton_kueue.Main.{SharedFlags, WebhookFlags}
use tekton_kueue.Main.RunMutate.{MutateFlags}

-- The value of a flag, of the type that its `Var` method has. A float64 is its bits, a duration its
-- nanoseconds.
pub data FlagValue : Type 0 where
  string_value : String → FlagValue
  bool_value : Bool → FlagValue
  float64_value : ℕ → FlagValue
  int_value : ℤ → FlagValue
  duration_value : ℤ → FlagValue

-- The flags of a `flag.FlagSet` in the order of their definitions.
abbrev pub FlagSet : Type 0
FlagSet = Dict FlagValue

-- `fs.…Var(&field, name, value, usage)`, which panics on a name that is defined already.
unfoldable pub var : String → FlagValue → FlagSet → Option FlagSet
var name value fs = elim (lookup fs name) [ some old ↦ none | none ↦ some (insert fs name value) ]

-- Such calls, one for each row, in their order.
unfoldable pub vars : FlagSet → FlagSet → Option FlagSet
vars [] fs = some fs
vars ((name, value) ∷ rows) fs = bind (var name value fs) (λ fs'. vars rows fs')

-- `time.Second`
abbrev second : ℕ
second = 1000000000

abbrev pub shared_flags : FlagSet
shared_flags =
    ("config-dir", string_value "")
    ∷ ("metrics-bind-address", string_value "0")
    ∷ ("metrics-cert-path", string_value "")
    ∷ ("metrics-cert-name", string_value "tls.crt")
    ∷ ("metrics-cert-key", string_value "tls.key")
    ∷ ("metrics-secure", bool_value true)
    ∷ ("health-probe-bind-address", string_value ":8081")
    ∷ ("enable-http2", bool_value false)
    ∷ ("qps", float64_value 0)
    ∷ ("burst", int_value (pos 0))
    ∷ []

abbrev pub leader_flags : FlagSet
leader_flags =
    ("leader-elect", bool_value false)
    ∷ ("leader-elect-lease-duration", duration_value (pos (15 * second)))
    ∷ ("leader-elect-renew-deadline", duration_value (pos (10 * second)))
    ∷ ("leader-elect-retry-period", duration_value (pos (2 * second)))
    ∷ []

abbrev pub webhook_cert_flags : FlagSet
webhook_cert_flags =
    ("webhook-cert-path", string_value "")
    ∷ ("webhook-cert-name", string_value "tls.crt")
    ∷ ("webhook-cert-key", string_value "tls.key")
    ∷ []

abbrev pub mutate_flags : FlagSet
mutate_flags = ("pipelinerun-file", string_value "") ∷ ("config-dir", string_value "") ∷ []

-- `zap.Options.BindFlags`, `config.RegisterFlags` and `fs.Parse`.
pub record FlagLibraries : Type 0 where
  pub bind_flags : FlagSet → Option FlagSet
  pub register_flags : FlagSet → Option FlagSet
  pub parse : FlagSet → List String → Result FlagSet

-- The four `AddFlags` on a new flag set.
module _ (F : FlagLibraries) where
  unfoldable pub add_shared_flags : FlagSet → Option FlagSet
  add_shared_flags fs =
      bind (vars shared_flags fs) (λ fs'. bind (F.bind_flags fs') F.register_flags)

  unfoldable pub add_controller_flags : FlagSet → Option FlagSet
  add_controller_flags fs = bind (add_shared_flags fs) (vars leader_flags)

  unfoldable pub add_webhook_flags : FlagSet → Option FlagSet
  add_webhook_flags fs = bind (add_shared_flags fs) (vars webhook_cert_flags)

  unfoldable pub add_mutate_flags : FlagSet → Option FlagSet
  add_mutate_flags fs = bind (vars mutate_flags fs) F.bind_flags

-- A field that no flag of its type is bound to keeps the zero value.
abbrev pub get_string : FlagSet → String → String
get_string fs name = elim (lookup fs name) [ some (string_value v) ↦ v | _ ↦ "" ]

abbrev pub get_bool : FlagSet → String → Bool
get_bool fs name = elim (lookup fs name) [ some (bool_value v) ↦ v | _ ↦ false ]

abbrev pub get_float64 : FlagSet → String → ℕ
get_float64 fs name = elim (lookup fs name) [ some (float64_value v) ↦ v | _ ↦ 0 ]

abbrev pub get_int : FlagSet → String → ℤ
get_int fs name = elim (lookup fs name) [ some (int_value v) ↦ v | _ ↦ pos 0 ]

abbrev pub get_duration : FlagSet → String → ℤ
get_duration fs name = elim (lookup fs name) [ some (duration_value v) ↦ v | _ ↦ pos 0 ]

-- The fields behind the parsing, each from the flag that its address was given to.
unfoldable pub read_shared_flags : FlagSet → SharedFlags
read_shared_flags fs = record {
  config_dir = get_string fs "config-dir";
  metrics_addr = get_string fs "metrics-bind-address";
  metrics_cert_path = get_string fs "metrics-cert-path";
  metrics_cert_name = get_string fs "metrics-cert-name";
  metrics_cert_key = get_string fs "metrics-cert-key";
  secure_metrics = get_bool fs "metrics-secure";
  probe_addr = get_string fs "health-probe-bind-address";
  enable_http2 = get_bool fs "enable-http2";
  qps = get_float64 fs "qps";
  burst = get_int fs "burst";
}

-- The flags of the controller beside the shared ones.
pub record ControllerFlags : Type 0 where
  pub enable_leader_election : Bool
  pub lease_duration : ℤ
  pub renew_deadline : ℤ
  pub retry_period : ℤ

unfoldable pub read_controller_flags : FlagSet → ControllerFlags
read_controller_flags fs = record {
  enable_leader_election = get_bool fs "leader-elect";
  lease_duration = get_duration fs "leader-elect-lease-duration";
  renew_deadline = get_duration fs "leader-elect-renew-deadline";
  retry_period = get_duration fs "leader-elect-retry-period";
}

unfoldable pub read_webhook_flags : FlagSet → WebhookFlags
read_webhook_flags fs = record {
  webhook_cert_path = get_string fs "webhook-cert-path";
  webhook_cert_name = get_string fs "webhook-cert-name";
  webhook_cert_key = get_string fs "webhook-cert-key";
}

unfoldable pub read_mutate_flags : FlagSet → MutateFlags
read_mutate_flags fs = record {
  pipeline_run_file = get_string fs "pipelinerun-file";
  config_dir = get_string fs "config-dir";
}
