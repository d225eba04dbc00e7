-- ===== src/Main/RunWebhook/Runs.antt =====
-- cmd/main.go, lines 280-356: the subcommand `webhook` never panics once its flags are defined.
use tekton_kueue.Base.{String, Option, some, List, [], ◌≡◌, ◌≢◌}
use tekton_kueue.Main.{
  Certificates, SharedFlags, WebhookFlags, get_tls_opts, get_metrics_server_options,
  get_webhook_server_options,
}
use tekton_kueue.Main.Flags.{FlagSet, add_webhook_flags, read_shared_flags, read_webhook_flags}
use tekton_kueue.Controller.ConfigMap.{get_current_namespace}
use tekton_kueue.Controller.Setup.{setup_config_map_with_manager}
use tekton_kueue.Webhook.Setup.{setup_pipeline_run_webhook_with_manager}
use tekton_kueue.Main.Setup.{Host, aborted, or_die, or_exit, panicked, add_runnable_or_die}
use tekton_kueue.Main.Setup.Aborts.{
  ▸-ne-aborted, or_die-ne-aborted, or_exit-ne-aborted, make_manager-ne-aborted,
  start_manager-ne-panicked, add_runnable_or_die-ne-aborted, add_ready_and_health_checks-ne-aborted,
}
use tekton_kueue.Main.RunWebhook.{
  cfg_store, webhook_options, register_webhook, with_namespace, with_webhook, with_metrics,
  make_webhook, run_webhook,
}

module _ {W : Certificates} (H : Host W) where
  register_webhook-ne-aborted :
      (webhook_watcher metrics_watcher : Option W.CertWatcher)
      → register_webhook H webhook_watcher metrics_watcher ≢ aborted
  unfolding register_webhook setup_pipeline_run_webhook_with_manager
  register_webhook-ne-aborted webhook_watcher metrics_watcher =
      ▸-ne-aborted
        (or_die (setup_config_map_with_manager H.manager H.read_file H.trim_space cfg_store _)) _
        (or_die-ne-aborted _)
        λ config.
          ▸-ne-aborted (add_runnable_or_die H.manager webhook_watcher config) _
            (add_runnable_or_die-ne-aborted H.manager webhook_watcher config)
            λ watched.
              ▸-ne-aborted (add_runnable_or_die H.manager metrics_watcher watched) _
                (add_runnable_or_die-ne-aborted H.manager metrics_watcher watched)
                λ both. add_ready_and_health_checks-ne-aborted H.manager both

  make_webhook-ne-aborted : (s : SharedFlags) (w : WebhookFlags) → make_webhook H s w ≢ aborted
  unfolding make_webhook with_metrics with_webhook with_namespace
  make_webhook-ne-aborted s w =
      ▸-ne-aborted (or_exit (get_metrics_server_options W s (get_tls_opts W s)))
        (with_metrics H s w)
        (or_exit-ne-aborted (get_metrics_server_options W s (get_tls_opts W s)))
        λ metrics.
          ▸-ne-aborted (or_exit (get_webhook_server_options W w (get_tls_opts W s)))
            (with_webhook H s metrics)
            (or_exit-ne-aborted (get_webhook_server_options W w (get_tls_opts W s)))
            λ opts.
              ▸-ne-aborted (or_die (get_current_namespace H.read_file H.trim_space))
                (with_namespace H s metrics opts)
                (or_die-ne-aborted (get_current_namespace H.read_file H.trim_space))
                λ namespace.
                  make_manager-ne-aborted H (webhook_options H s (metrics.0) (opts.0) namespace)
                    (register_webhook H (opts.1) (metrics.1))
                    (register_webhook-ne-aborted (opts.1) (metrics.1))

  pub run_webhook-ne-panicked :
      (fs : FlagSet) (args : List String)
      → add_webhook_flags H.flags [] ≡ some fs
      → run_webhook H args ≢ panicked
  unfolding run_webhook
  run_webhook-ne-panicked fs args defined =
      rw (run_webhook, defined)
        (start_manager-ne-panicked H _ (
          ▸-ne-aborted (or_die (H.flags.parse fs args)) _
            (or_die-ne-aborted (H.flags.parse fs args))
            λ parsed.
              make_webhook-ne-aborted (read_shared_flags parsed) (read_webhook_flags parsed)))
