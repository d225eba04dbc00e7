-- ===== src/Main/RunController.antt =====
-- cmd/main.go, lines 190-278: the subcommand `controller`.
pub mod Runs
use mathlib.Core.Path.{subst}
use tekton_kueue.Base.{
  String, Option, none, some, List, [], ◌∷◌, ◌++◌, Error, ok, ◌≡◌, sym, ◌∙◌, ◌↔◌,
}
use tekton_kueue.Manager.{
  Registration, register, register_all, register_all_iff, AreAccepted, new_generic_reconciler,
  generic_reconciler, controller, workload_owner_index, pipeline_runs, pending_status,
}
use tekton_kueue.Controller.Status.{needs_pending_status_condition}
use tekton_kueue.Controller.Setup.{
  setup_with_manager, setup_pending_status_with_manager, setup_indexer,
}
use tekton_kueue.Main.{
  Certificates, configured, SharedFlags, MetricsServerOptions, get_tls_opts,
  get_metrics_server_options,
}
use tekton_kueue.Main.Flags.{
  FlagSet, ControllerFlags, add_controller_flags, read_shared_flags, read_controller_flags,
}
use tekton_kueue.Main.Setup.{
  Startup, going, ◌▸◌, or_abort, or_die, or_exit, Host, ManagerOptions, Ended, served,
  parse_flags_or_die, client_config, add_ready_and_health_checks_to_mgr_or_die,
  add_metrics_cert_watcher, make_manager, start_manager, runnables, health_checks,
}
use tekton_kueue.Main.Setup.Steps.{
  or_die-register_all, add_runnable-register_all, add_ready_and_health_checks-register_all,
  or_die->>=, or_die_iff, parsed_iff, or_exit_iff, make_manager_iff, start_manager_iff,
}

abbrev pub leader_election_id : String
leader_election_id = "f2ddafa2.konflux-ci.dev"

module _ {W : Certificates} (H : Host W) where
  abbrev pub controller_options :
      SharedFlags → ControllerFlags → MetricsServerOptions W → ManagerOptions W
  controller_options s c metrics = record {
    client = client_config s.burst s.qps;
    metrics = metrics;
    health_probe_bind_address = s.probe_addr;
    webhook_server = none;
    leader_election = c.enable_leader_election;
    leader_election_id = leader_election_id;
    lease_duration = some c.lease_duration;
    renew_deadline = some c.renew_deadline;
    retry_period = some c.retry_period;
    default_namespaces = [];
  }

  -- The registrations with a new manager.
  unfoldable pub register_controllers :
      Option W.CertWatcher → Startup (List (Registration W.CertWatcher))
  register_controllers watcher = or_die (setup_with_manager H.manager []) ▸ λ workloads.
      or_die (setup_pending_status_with_manager H.manager workloads) ▸ λ statuses.
      or_die (setup_indexer H.manager statuses) ▸ λ indexed.
      add_metrics_cert_watcher H.manager watcher indexed ▸ λ watched.
      add_ready_and_health_checks_to_mgr_or_die H.manager watched

  -- The manager of the parsed flags, and its registrations.
  with_metrics :
      SharedFlags
      → ControllerFlags
      → MetricsServerOptions W × Option W.CertWatcher
      → Startup (ManagerOptions W × List (Registration W.CertWatcher))
  with_metrics s c (metrics, watcher) =
      make_manager H (controller_options s c metrics) (register_controllers watcher)

  unfoldable pub make_controller :
      SharedFlags → ControllerFlags → Startup (ManagerOptions W × List (Registration W.CertWatcher))
  unfolding with_metrics
  make_controller s c =
      or_exit (get_metrics_server_options W s (get_tls_opts W s)) ▸ with_metrics s c

  unfoldable pub run_controller : List String → Ended W
  run_controller args = start_manager H (
      or_abort (add_controller_flags H.flags []) ▸ λ fs.
      parse_flags_or_die H.flags fs args ▸ λ parsed.
      make_controller (read_shared_flags parsed) (read_controller_flags parsed))

  -- What the controller registers, in order.
  abbrev pub controller_registrations : Option W.CertWatcher → List (Registration W.CertWatcher)
  controller_registrations watcher =
      new_generic_reconciler "kueue-plr"
      ∷ generic_reconciler "PipelineRunWorkloads"
      ∷ controller "PipelineRunStatus" (pipeline_runs needs_pending_status_condition) pending_status
      ∷ workload_owner_index "PipelineRun"
      ∷ (runnables H.manager watcher ++ health_checks H.manager)

  register_controllers_lem :
      (watcher : Option W.CertWatcher)
      → register_controllers watcher
        ≡ or_die (register_all H.manager (controller_registrations watcher) [])
  unfolding register_controllers setup_with_manager setup_pending_status_with_manager setup_indexer
  register_controllers_lem watcher =
      or_die->>= (register H.manager (new_generic_reconciler "kueue-plr") []) _ _
      ∙ or_die-register_all H.manager _ _ [] _ (λ factory.
        or_die-register_all H.manager _ _ factory _ (λ workloads.
          or_die-register_all H.manager _ _ workloads _ (λ statuses.
            or_die-register_all H.manager _ _ statuses _ (λ indexed.
              add_runnable-register_all H.manager watcher _ indexed _
                (λ watched. add_ready_and_health_checks-register_all H.manager watched)))))

  register_controllers_iff :
      (watcher : Option W.CertWatcher) (done : List (Registration W.CertWatcher))
      → (register_controllers watcher ≡ going done)
        ↔ (AreAccepted H.manager [] done × (done ≡ controller_registrations watcher))
  register_controllers_iff watcher done =
      let registered = register_all_iff H.manager (controller_registrations watcher) [] done in
      rw (register_controllers_lem watcher) (
        λ h.
            let (a, e) = registered.0 ((or_die_iff _ done).0 h) in
            (subst (AreAccepted H.manager []) (sym e) a, e),
        λ (a, e). (or_die_iff _ done).1 (registered.1 (subst (AreAccepted H.manager []) e a, e)),
      )

  -- The manager with its options and registrations, for the flags.
  abbrev pub IsMade :
      SharedFlags → ControllerFlags → ManagerOptions W → List (Registration W.CertWatcher) → Type 0
  IsMade s c options done =
      (metrics : MetricsServerOptions W) × (watcher : Option W.CertWatcher)
      × (get_metrics_server_options W s (get_tls_opts W s) ≡ configured metrics watcher)
      × (H.get_config ≡ none)
      × (H.new_manager (controller_options s c metrics) ≡ none)
      × (options ≡ controller_options s c metrics)
      × (AreAccepted H.manager [] done × (done ≡ controller_registrations watcher))

  make_controller_iff :
      (s : SharedFlags) (c : ControllerFlags) (options : ManagerOptions W)
      (done : List (Registration W.CertWatcher))
      → (make_controller s c ≡ going (options, done)) ↔ IsMade s c options done
  unfolding make_controller with_metrics
  make_controller_iff s c options done = (
    λ h.
        let (metrics, watcher, secured, h1) =
          (or_exit_iff (get_metrics_server_options W s (get_tls_opts W s)) (with_metrics s c)
              (options, done)).0
            h in
        let (config, made, same, h2) =
          (make_manager_iff H (register_controllers watcher) (controller_options s c metrics)
              options done).0
            h1 in
        (
          metrics,
          watcher,
          secured,
          config,
          made,
          same,
          (register_controllers_iff watcher done).0 h2,
        ),
    λ (metrics, watcher, secured, config, made, same, h2).
        (or_exit_iff (get_metrics_server_options W s (get_tls_opts W s)) (with_metrics s c)
            (options, done)).1
          (
            metrics,
            watcher,
            secured,
            (make_manager_iff H (register_controllers watcher) (controller_options s c metrics)
                  options done).1
                (config, made, same, (register_controllers_iff watcher done).1 h2),
          ),
  )

  -- What has been done when the manager is started with these options and registrations, and returns.
  abbrev pub IsControllerServed :
      List String → ManagerOptions W → List (Registration W.CertWatcher) → Option Error → Type 0
  IsControllerServed args options done e =
      (fs : FlagSet) × (parsed : FlagSet) × (add_controller_flags H.flags [] ≡ some fs)
      × (H.flags.parse fs args ≡ ok parsed)
      × IsMade (read_shared_flags parsed) (read_controller_flags parsed) options done
      × (e ≡ H.manager.start done)

  -- The subcommand starts a manager exactly if the flags are defined and parsed, the options of the
  -- metrics server made, the configuration of the API client found, and the manager and each of its
  -- registrations accepted: these are then the four of the reconcilers and the index, a watcher of the
  -- metrics' certificate exactly if there is one, and both checks, in this order.
  pub run_controller-served_iff :
      (args : List String) (options : ManagerOptions W) (done : List (Registration W.CertWatcher))
      (e : Option Error)
      → (run_controller args ≡ served options done e) ↔ IsControllerServed args options done e
  unfolding run_controller
  run_controller-served_iff args options done e = (
    λ h.
        let (h1, ended) = (start_manager_iff H _ options done e).0 h in
        let (fs, parsed, defined, was_parsed, h2) =
          (parsed_iff (add_controller_flags H.flags []) (λ fs. H.flags.parse fs args)
              (λ p. make_controller (read_shared_flags p) (read_controller_flags p))
              (options, done)).0
            h1 in
        (
          fs,
          parsed,
          defined,
          was_parsed,
          (make_controller_iff (read_shared_flags parsed) (read_controller_flags parsed) options
                done).0
              h2,
          ended,
        ),
    λ (fs, parsed, defined, was_parsed, made, ended). (start_manager_iff H _ options done e).1 (
      (parsed_iff (add_controller_flags H.flags []) (λ fs. H.flags.parse fs args)
            (λ p. make_controller (read_shared_flags p) (read_controller_flags p))
            (options, done)).1
          (
            fs,
            parsed,
            defined,
            was_parsed,
            (make_controller_iff (read_shared_flags parsed) (read_controller_flags parsed) options
                  done).1
                made,
          ),
      ended,
    ),
  )
