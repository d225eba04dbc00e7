-- ===== src/Tests/MainTests.antt =====
-- Witnesses of the theorems on the command line.
use mathlib.Core.Option.{bind}
use tekton_kueue.Base.{
  String, true, false, none, some, List, ◌⊎◌, [], ◌∷◌, ◌++◌, ok, ◌≡◌, ◌≤◌, ◌<◌, ◌%◌, ◌↔◌, refl,
  arith, inr, lookup, insert,
}
use tekton_kueue.Manager.{register}
use tekton_kueue.Controller.ConfigMap.{read_namespace}
use tekton_kueue.Controller.Setup.{
  setup_with_manager, setup_pending_status_with_manager, setup_indexer,
  setup_config_map_with_manager,
}
use tekton_kueue.Webhook.Setup.{setup_pipeline_run_webhook_with_manager}
use tekton_kueue.Main.{
  get_tls_opts, get_metrics_server_options, get_webhook_server_options, disable_http2,
  MetricsServerOptions,
}
use tekton_kueue.Main.Floats.{
  sign_bit64, safe_float64_to_float32_or_zero, to_float64, magnitude64, max_float32, sign_bit32,
  inf32, safe_float64_to_float32_or_zero-to_float64,
}
use tekton_kueue.Main.Floats.Finite.{IsConverted, safe_float64_to_float32_or_zero-IsFinite}
use tekton_kueue.Main.Flags.{
  FlagSet, bool_value, string_value, FlagLibraries, var, vars, add_shared_flags,
  add_controller_flags, add_webhook_flags, add_mutate_flags, read_shared_flags,
  read_controller_flags, read_webhook_flags, read_mutate_flags,
}
use tekton_kueue.Main.Flags.Names.{AreApart-of_All, AreDistinct-of_lookups, register_missing}
use tekton_kueue.Main.Flags.Defaults.{
  program_flags, HasFlags, HasDefaults, shared_defaults, controller_defaults, webhook_defaults,
  add_flags-AreDefined,
}
use tekton_kueue.Main.Setup.{
  Host, served, make_manager, add_ready_and_health_checks_to_mgr_or_die, add_runnable_or_die,
}
use tekton_kueue.Main.RunController.{
  controller_options, controller_registrations, run_controller, make_controller,
  register_controllers, run_controller-served_iff, IsControllerServed,
}
use tekton_kueue.Main.RunWebhook.{webhook_options, run_webhook, make_webhook, register_webhook}
use tekton_kueue.Main.RunWebhook.Served.{
  webhook_handler, webhook_registrations, run_webhook-served_iff, IsWebhookServed,
}
use mathlib.Core.Option.{bind}
use tekton_kueue.Metrics.Registry.{init_cel, init_webhook, must_register}
use tekton_kueue.Metrics.Free.{AreFree, with_counters}
use tekton_kueue.Main.Program.{IsExplained, crashed}
use tekton_kueue.Main.Start.{
  Schemes, AreAdded, init_scheme, start_program, start_program-IsExplained,
}
use tekton_kueue.Tests.Toys.{certificates, files, libraries}

safe_float64_to_float32_or_zero-IsFinite_example :
    (((safe_float64_to_float32_or_zero 4626322717216342016).0 % sign_bit32) < inf32)
    × (((safe_float64_to_float32_or_zero 4626322717216342016).1 ≡ true)
        ↔ (magnitude64 4626322717216342016 ≤ max_float32))
    × (((safe_float64_to_float32_or_zero 4626322717216342016).1 ≡ true)
        → IsConverted
            (magnitude64 4626322717216342016)
            ((safe_float64_to_float32_or_zero 4626322717216342016).0 % sign_bit32)
          × ((sign_bit32 ≤ (safe_float64_to_float32_or_zero 4626322717216342016).0)
              ↔ (sign_bit64 ≤ 4626322717216342016)))
    × (((safe_float64_to_float32_or_zero 4626322717216342016).1 ≡ false)
        → (safe_float64_to_float32_or_zero 4626322717216342016).0 ≡ 0)
safe_float64_to_float32_or_zero-IsFinite_example =
    safe_float64_to_float32_or_zero-IsFinite 4626322717216342016 (omega arith)

safe_float64_to_float32_or_zero-to_float64_example :
    safe_float64_to_float32_or_zero (to_float64 1101004800) ≡ (1101004800, true)
safe_float64_to_float32_or_zero-to_float64_example =
    safe_float64_to_float32_or_zero-to_float64 1101004800
      (omega arith, inr (omega arith, omega arith))

abbrev zap : FlagSet
zap = ("zap-devel", bool_value true) ∷ []

abbrev kube : FlagSet
kube = ("kubeconfig", string_value "") ∷ []

abbrev flag_libraries : FlagLibraries
flag_libraries = record {
  bind_flags = vars zap;
  register_flags = λ fs. some (register_missing kube fs);
  parse = λ fs args. ok fs;
}

has_flags : HasFlags flag_libraries zap kube
unfolding lookup
has_flags = record {
  binds = λ fs. refl;
  registers = λ fs. refl;
  zap_distinct = AreDistinct-of_lookups zap (tt, tt);
  kube_distinct = AreDistinct-of_lookups kube (tt, tt);
  zap_apart = AreApart-of_All program_flags zap (refl, tt);
  kube_apart = AreApart-of_All (program_flags ++ zap) kube (refl, tt);
}

add_flags-AreDefined_example :
    HasDefaults (add_controller_flags flag_libraries []) (λ fs.
      (read_shared_flags fs ≡ shared_defaults) × (read_controller_flags fs ≡ controller_defaults))
    × HasDefaults (add_webhook_flags flag_libraries []) (λ fs.
      (read_shared_flags fs ≡ shared_defaults) × (read_webhook_flags fs ≡ webhook_defaults))
    × HasDefaults
        (add_mutate_flags flag_libraries [])
        (λ fs. read_mutate_flags fs ≡ record { pipeline_run_file = ""; config_dir = "" })
add_flags-AreDefined_example = add_flags-AreDefined flag_libraries zap kube has_flags

abbrev host : Host certificates
host = record {
  flags = flag_libraries;
  read_file = λ path. ok "ns";
  trim_space = λ text. text;
  get_config = none;
  new_manager = λ options. none;
  manager = record { answer = λ done r. none; start = λ done. none };
}

abbrev metrics_off : MetricsServerOptions certificates
metrics_off = record {
  bind_address = "0";
  secure_serving = true;
  tls_opts = disable_http2 ∷ [];
  with_authentication = true;
}

run_controller-served_iff_example :
    (run_controller host []
      ≡ served
          (controller_options host shared_defaults controller_defaults metrics_off)
          (controller_registrations host none)
          none)
    ↔ IsControllerServed host []
        (controller_options host shared_defaults controller_defaults metrics_off)
        (controller_registrations host none)
        none
run_controller-served_iff_example =
    run_controller-served_iff host []
      (controller_options host shared_defaults controller_defaults metrics_off)
      (controller_registrations host none) none

run_webhook-served_iff_example :
    (run_webhook host []
      ≡ served
          (webhook_options host shared_defaults metrics_off [] "ns")
          (webhook_handler host ∷ webhook_registrations host "ns" none none)
          none)
    ↔ IsWebhookServed host []
        (webhook_options host shared_defaults metrics_off [] "ns")
        (webhook_handler host ∷ webhook_registrations host "ns" none none)
        none
run_webhook-served_iff_example =
    run_webhook-served_iff host [] (webhook_options host shared_defaults metrics_off [] "ns")
      (webhook_handler host ∷ webhook_registrations host "ns" none none) none

served_by_default :
    (run_controller host []
      ≡ served
          (controller_options host shared_defaults controller_defaults metrics_off)
          (controller_registrations host none)
          none)
    × (run_webhook host []
        ≡ served
            (webhook_options host shared_defaults metrics_off [] "ns")
            (webhook_handler host ∷ webhook_registrations host "ns" none none)
            none)
unfolding run_controller run_webhook add_controller_flags add_webhook_flags add_shared_flags vars
    var lookup insert bind read_shared_flags read_controller_flags read_webhook_flags
    make_controller make_webhook get_tls_opts get_metrics_server_options get_webhook_server_options
    make_manager register_controllers register_webhook setup_with_manager
    setup_pending_status_with_manager setup_indexer setup_config_map_with_manager
    setup_pipeline_run_webhook_with_manager register add_ready_and_health_checks_to_mgr_or_die
    add_runnable_or_die read_namespace safe_float64_to_float32_or_zero register_missing
served_by_default = (refl, refl)

-- A scheme as the names of what was added to it.
abbrev schemes : Schemes
schemes = record {
  Scheme = List String;
  new_scheme = [];
  add_client_go = λ scheme. ok ("client-go" ∷ scheme);
  add_kueue = λ scheme. ok ("kueue" ∷ scheme);
  add_tekton = λ scheme. ok ("tekton" ∷ scheme);
}

start_program-IsExplained_example :
    (AreFree []
      × AreAdded schemes
      × IsExplained host libraries files
          ("kueue" ∷ "controller" ∷ [])
          (start_program host libraries files schemes [] ("kueue" ∷ "controller" ∷ [])))
    ⊎ ((¬ (AreFree [] × AreAdded schemes))
        × (start_program host libraries files schemes [] ("kueue" ∷ "controller" ∷ []) ≡ crashed))
start_program-IsExplained_example =
    start_program-IsExplained host libraries files schemes zap kube has_flags []
      ("kueue" ∷ "controller" ∷ [])

-- The counters are registered and the types are added.
initialised :
    (bind (init_cel []) init_webhook ≡ some (with_counters []))
    × (init_scheme schemes ≡ some ("tekton" ∷ "kueue" ∷ "client-go" ∷ []))
unfolding init_scheme bind must_register
initialised = (refl, refl)
