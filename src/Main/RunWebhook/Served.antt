-- ===== src/Main/RunWebhook/Served.antt =====
-- cmd/main.go, lines 280-356: when the subcommand `webhook` starts its manager, and with what.
use tekton_kueue.Base.{String, Option, none, some, List, [], ◌∷◌, ◌++◌, Error, ok, ◌≡◌, ◌↔◌}
use tekton_kueue.Manager.{
  custom_defaulter, patch_filtering, handler, Registration, register_all, register_all_iff,
  AreAccepted, controller, config_maps, config_map,
}
use tekton_kueue.Controller.ConfigMap.{is_watched, get_current_namespace}
use tekton_kueue.Controller.Setup.{setup_config_map_with_manager}
use tekton_kueue.Webhook.Setup.{setup_pipeline_run_webhook_with_manager}
use tekton_kueue.Main.{
  Certificates, configured, SharedFlags, WebhookFlags, MetricsServerOptions, TlsOpt, get_tls_opts,
  get_metrics_server_options, get_webhook_server_options,
}
use tekton_kueue.Main.Flags.{FlagSet, add_webhook_flags, read_shared_flags, read_webhook_flags}
use tekton_kueue.Main.Setup.{going, or_die, Host, ManagerOptions, served, runnables, health_checks}
use tekton_kueue.Main.Setup.Steps.{
  or_die-register_all, add_runnable-register_all, add_ready_and_health_checks-register_all,
  or_die_iff, or_die_step_iff, parsed_iff, or_exit_iff, make_manager_iff, start_manager_iff,
}
use tekton_kueue.Main.RunWebhook.{
  cfg_store, webhook_options, register_webhook, with_namespace, with_webhook, with_metrics,
  make_webhook, run_webhook,
}

module _ {W : Certificates} (H : Host W) where
  -- The handler of the webhook, with the patch filter around the defaulter.
  abbrev pub webhook_handler : Registration W.CertWatcher
  webhook_handler =
      handler "/mutate-tekton-dev-v1-pipelinerun" (patch_filtering (custom_defaulter cfg_store))

  -- What the webhook registers behind its handler, in order.
  abbrev pub webhook_registrations :
      String → Option W.CertWatcher → Option W.CertWatcher → List (Registration W.CertWatcher)
  webhook_registrations namespace webhook_watcher metrics_watcher =
      controller "webhook-config" (config_maps (is_watched namespace)) (config_map cfg_store)
      ∷ (runnables H.manager webhook_watcher
          ++ (runnables H.manager metrics_watcher ++ health_checks H.manager))

  register_webhook_lem :
      (namespace : String) (webhook_watcher metrics_watcher : Option W.CertWatcher)
      → get_current_namespace H.read_file H.trim_space ≡ ok namespace
      → register_webhook H webhook_watcher metrics_watcher
        ≡ or_die (
            register_all H.manager
              (webhook_registrations namespace webhook_watcher metrics_watcher)
              (webhook_handler ∷ []))
  unfolding register_webhook setup_config_map_with_manager setup_pipeline_run_webhook_with_manager
  register_webhook_lem namespace webhook_watcher metrics_watcher e = rw e (
      or_die-register_all H.manager _ _ (webhook_handler ∷ []) _ (λ config.
        add_runnable-register_all H.manager webhook_watcher _ config _ (λ watched.
          add_runnable-register_all H.manager metrics_watcher _ watched _
            (λ both. add_ready_and_health_checks-register_all H.manager both))))

  -- The manager accepts all of `rs` behind the handler, and holds these registrations.
  abbrev pub AreRegistered :
      List (Registration W.CertWatcher) → List (Registration W.CertWatcher) → Type 0
  AreRegistered rs done =
      AreAccepted H.manager (webhook_handler ∷ []) rs × (done ≡ (webhook_handler ∷ []) ++ rs)

  -- The manager with its options and registrations, for the flags.
  abbrev pub IsMade :
      SharedFlags → WebhookFlags → ManagerOptions W → List (Registration W.CertWatcher) → Type 0
  IsMade s w options done =
      (metrics : MetricsServerOptions W) × (metrics_watcher : Option W.CertWatcher) × (opts : List
        (TlsOpt W))
      × (webhook_watcher : Option W.CertWatcher) × (namespace : String)
      × (get_metrics_server_options W s (get_tls_opts W s) ≡ configured metrics metrics_watcher)
      × (get_webhook_server_options W w (get_tls_opts W s) ≡ configured opts webhook_watcher)
      × (get_current_namespace H.read_file H.trim_space ≡ ok namespace)
      × (H.get_config ≡ none)
      × (H.new_manager (webhook_options H s metrics opts namespace) ≡ none)
      × (options ≡ webhook_options H s metrics opts namespace)
      × AreRegistered (webhook_registrations namespace webhook_watcher metrics_watcher) done

  register_webhook_iff :
      (namespace : String) (webhook_watcher metrics_watcher : Option W.CertWatcher)
      (done : List (Registration W.CertWatcher))
      → get_current_namespace H.read_file H.trim_space ≡ ok namespace
      → (register_webhook H webhook_watcher metrics_watcher ≡ going done)
        ↔ AreRegistered (webhook_registrations namespace webhook_watcher metrics_watcher) done
  register_webhook_iff namespace webhook_watcher metrics_watcher done e =
      let rs : List (Registration W.CertWatcher) =
        webhook_registrations namespace webhook_watcher metrics_watcher in
      let registered = register_all_iff H.manager rs (webhook_handler ∷ []) done in
      rw (register_webhook_lem namespace webhook_watcher metrics_watcher e)
        (λ h. registered.0 ((or_die_iff _ done).0 h), λ h. (or_die_iff _ done).1 (registered.1 h))

  make_webhook_sound :
      (s : SharedFlags) (w : WebhookFlags) (options : ManagerOptions W)
      (done : List (Registration W.CertWatcher))
      → make_webhook H s w ≡ going (options, done)
      → IsMade s w options done
  unfolding make_webhook with_metrics with_webhook with_namespace
  make_webhook_sound s w options done h =
      let (metrics, metrics_watcher, secured, h1) =
        (or_exit_iff (get_metrics_server_options W s (get_tls_opts W s)) (with_metrics H s w)
            (options, done)).0
          h in
      let (opts, webhook_watcher, served_by, h2) =
        (or_exit_iff (get_webhook_server_options W w (get_tls_opts W s))
            (with_webhook H s (metrics, metrics_watcher)) (options, done)).0
          h1 in
      let (namespace, inside, h3) =
        (or_die_step_iff (get_current_namespace H.read_file H.trim_space)
            (with_namespace H s (metrics, metrics_watcher) (opts, webhook_watcher))
            (options, done)).0
          h2 in
      let (config, made, same, h4) =
        (make_manager_iff H (register_webhook H webhook_watcher metrics_watcher)
            (webhook_options H s metrics opts namespace) options done).0
          h3 in
      (
        metrics,
        metrics_watcher,
        opts,
        webhook_watcher,
        namespace,
        secured,
        served_by,
        inside,
        config,
        made,
        same,
        (register_webhook_iff namespace webhook_watcher metrics_watcher done inside).0 h4,
      )

  make_webhook_complete :
      (s : SharedFlags) (w : WebhookFlags) (options : ManagerOptions W)
      (done : List (Registration W.CertWatcher))
      → IsMade s w options done
      → make_webhook H s w ≡ going (options, done)
  unfolding make_webhook with_metrics with_webhook with_namespace
  make_webhook_complete s w options done
        (
          metrics, metrics_watcher, opts, webhook_watcher, namespace, secured, served_by, inside,
          config, made, same, registered,
        ) =
      let h4 =
        (register_webhook_iff namespace webhook_watcher metrics_watcher done inside).1 registered in
      let h3 =
        (make_manager_iff H (register_webhook H webhook_watcher metrics_watcher)
            (webhook_options H s metrics opts namespace) options done).1
          (config, made, same, h4) in
      let h2 =
        (or_die_step_iff (get_current_namespace H.read_file H.trim_space)
            (with_namespace H s (metrics, metrics_watcher) (opts, webhook_watcher))
            (options, done)).1
          (namespace, inside, h3) in
      let h1 =
        (or_exit_iff (get_webhook_server_options W w (get_tls_opts W s))
            (with_webhook H s (metrics, metrics_watcher)) (options, done)).1
          (opts, webhook_watcher, served_by, h2) in
      (or_exit_iff (get_metrics_server_options W s (get_tls_opts W s)) (with_metrics H s w)
          (options, done)).1
        (metrics, metrics_watcher, secured, h1)

  -- What has been done when the manager is started with these options and registrations, and returns.
  abbrev pub IsWebhookServed :
      List String → ManagerOptions W → List (Registration W.CertWatcher) → Option Error → Type 0
  IsWebhookServed args options done e =
      (fs : FlagSet) × (parsed : FlagSet) × (add_webhook_flags H.flags [] ≡ some fs)
      × (H.flags.parse fs args ≡ ok parsed)
      × IsMade (read_shared_flags parsed) (read_webhook_flags parsed) options done
      × (e ≡ H.manager.start done)

  -- The subcommand starts a manager exactly if the flags are defined and parsed, the options of both
  -- servers made, the namespace read, the configuration of the API client found, and the manager and
  -- its registrations accepted. The handler of the webhook, behind the patch filter, and the
  -- reconciler of the ConfigMap then share one store, each watcher of a certificate is added exactly
  -- if there is one, both checks follow, and the cache holds the namespace of the program alone.
  pub run_webhook-served_iff :
      (args : List String) (options : ManagerOptions W) (done : List (Registration W.CertWatcher))
      (e : Option Error)
      → (run_webhook H args ≡ served options done e) ↔ IsWebhookServed args options done e
  unfolding run_webhook
  run_webhook-served_iff args options done e = (
    λ h.
        let (h1, ended) = (start_manager_iff H _ options done e).0 h in
        let (fs, parsed, defined, was_parsed, h2) =
          (parsed_iff (add_webhook_flags H.flags []) (λ fs. H.flags.parse fs args)
              (λ p. make_webhook H (read_shared_flags p) (read_webhook_flags p)) (options, done)).0
            h1 in
        (
          fs,
          parsed,
          defined,
          was_parsed,
          make_webhook_sound (read_shared_flags parsed) (read_webhook_flags parsed) options done h2,
          ended,
        ),
    λ (fs, parsed, defined, was_parsed, made, ended). (start_manager_iff H _ options done e).1 (
      (parsed_iff (add_webhook_flags H.flags []) (λ fs. H.flags.parse fs args)
            (λ p. make_webhook H (read_shared_flags p) (read_webhook_flags p)) (options, done)).1
          (
            fs,
            parsed,
            defined,
            was_parsed,
            make_webhook_complete (read_shared_flags parsed) (read_webhook_flags parsed) options
                done made,
          ),
      ended,
    ),
  )
