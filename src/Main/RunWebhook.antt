-- ===== src/Main/RunWebhook.antt =====
-- cmd/main.go, lines 280-356: the subcommand `webhook`. The files are those at its start.
pub mod Runs
pub mod Served
use tekton_kueue.Base.{String, false, Option, none, some, List, [], ◌∷◌, ◌++◌, Error, ok, ◌≡◌, ◌↔◌}
use tekton_kueue.Manager.{
  Address, custom_defaulter, patch_filtering, handler, Registration, register_all, register_all_iff,
  AreAccepted, controller, config_maps, config_map,
}
use tekton_kueue.Controller.ConfigMap.{is_watched, get_current_namespace}
use tekton_kueue.Controller.Setup.{setup_config_map_with_manager}
use tekton_kueue.Webhook.Setup.{new_custom_defaulter, setup_pipeline_run_webhook_with_manager}
use tekton_kueue.Main.{
  Certificates, configured, SharedFlags, WebhookFlags, MetricsServerOptions, TlsOpt, get_tls_opts,
  get_metrics_server_options, get_webhook_server_options,
}
use tekton_kueue.Main.Flags.{FlagSet, add_webhook_flags, read_shared_flags, read_webhook_flags}
use tekton_kueue.Main.Setup.{
  Startup, going, ◌▸◌, or_abort, or_die, or_exit, Host, ManagerOptions, Ended, served,
  parse_flags_or_die, client_config, add_ready_and_health_checks_to_mgr_or_die, add_runnable_or_die,
  add_metrics_cert_watcher, add_config_watcher, make_manager, start_manager, runnables,
  health_checks,
}
use tekton_kueue.Main.Setup.Steps.{
  or_die-register_all, add_runnable-register_all, add_ready_and_health_checks-register_all,
  or_die_iff, or_die_step_iff, parsed_iff, or_exit_iff, make_manager_iff, start_manager_iff,
}

-- `&webhookv1.ConfigStore{}`, the one store of the program.
abbrev pub cfg_store : Address
cfg_store = 0

module _ {W : Certificates} (H : Host W) where
  abbrev pub webhook_options :
      SharedFlags → MetricsServerOptions W → List (TlsOpt W) → String → ManagerOptions W
  webhook_options s metrics opts namespace = record {
    client = client_config s.burst s.qps;
    metrics = metrics;
    health_probe_bind_address = s.probe_addr;
    webhook_server = some opts;
    leader_election = false;
    leader_election_id = "";
    lease_duration = none;
    renew_deadline = none;
    retry_period = none;
    default_namespaces = namespace ∷ [];
  }

  -- The registrations with a new manager, for the watchers of the webhook's and of the metrics'
  -- certificate.
  unfoldable pub register_webhook :
      Option W.CertWatcher → Option W.CertWatcher → Startup (List (Registration W.CertWatcher))
  register_webhook webhook_watcher metrics_watcher =
      or_die (new_custom_defaulter cfg_store) ▸ λ defaulter.
      or_die (setup_pipeline_run_webhook_with_manager defaulter []) ▸ λ handled.
      add_config_watcher H.manager H.read_file H.trim_space cfg_store handled ▸ λ config.
      add_runnable_or_die H.manager webhook_watcher config ▸ λ watched.
      add_metrics_cert_watcher H.manager metrics_watcher watched ▸ λ both.
      add_ready_and_health_checks_to_mgr_or_die H.manager both

  with_namespace :
      SharedFlags
      → MetricsServerOptions W × Option W.CertWatcher
      → List (TlsOpt W) × Option W.CertWatcher
      → String
      → Startup (ManagerOptions W × List (Registration W.CertWatcher))
  with_namespace s (metrics, metrics_watcher) (opts, webhook_watcher) namespace =
      make_manager H (webhook_options s metrics opts namespace)
        (register_webhook webhook_watcher metrics_watcher)

  with_webhook :
      SharedFlags
      → MetricsServerOptions W × Option W.CertWatcher
      → List (TlsOpt W) × Option W.CertWatcher
      → Startup (ManagerOptions W × List (Registration W.CertWatcher))
  unfolding with_namespace
  with_webhook s metrics opts =
      or_die (get_current_namespace H.read_file H.trim_space) ▸ with_namespace s metrics opts

  with_metrics :
      SharedFlags
      → WebhookFlags
      → MetricsServerOptions W × Option W.CertWatcher
      → Startup (ManagerOptions W × List (Registration W.CertWatcher))
  unfolding with_webhook
  with_metrics s w metrics =
      or_exit (get_webhook_server_options W w (get_tls_opts W s)) ▸ with_webhook s metrics

  -- The manager of the parsed flags, and its registrations.
  unfoldable pub make_webhook :
      SharedFlags → WebhookFlags → Startup (ManagerOptions W × List (Registration W.CertWatcher))
  unfolding with_metrics
  make_webhook s w = or_exit (get_metrics_server_options W s (get_tls_opts W s)) ▸ with_metrics s w

  unfoldable pub run_webhook : List String → Ended W
  run_webhook args = start_manager H (
      or_abort (add_webhook_flags H.flags []) ▸ λ fs. parse_flags_or_die H.flags fs args ▸ λ parsed.
      make_webhook (read_shared_flags parsed) (read_webhook_flags parsed))
