-- ===== src/Main.antt =====
-- cmd/main.go: the choice of a subcommand, and the TLS options of the two servers. Below it stand the
-- flags, the rate of the client, the wiring of the manager, and the three subcommands.
pub mod Floats
pub mod Flags
pub mod Setup
pub mod RunController
pub mod RunWebhook
pub mod RunMutate
pub mod Program
pub mod Start
use mathlib.Core.List.{cons-ne-nil}
use tekton_kueue.Base.{
  ℕ, String, Bool, false, Option, none, some, List, [], ◌∷◌, ◌++◌, ◌==◌, eq_iff, Result, ok, err,
  if◌then◌else◌, ◌≡◌, ◌≢◌, refl, sym, ap, ◌∙◌, ◌⊎◌, inl, inr, ◌↔◌, arith, Bool-cases,
}
use tekton_kueue.Base.Int.{ℤ}

-- What `main` does with its arguments: a subcommand with the rest of them, or an exit with 1.
pub data Started : Type 0 where
  run_controller run_webhook run_mutate : List String → Started
  exit_usage : Started

-- `os.Args[1]` and those behind it.
abbrev pub dispatch : String → List String → Started
dispatch subcommand args =
    if subcommand == "controller"
    then run_controller args
    else if subcommand == "webhook"
    then run_webhook args
    else if subcommand == "mutate"
    then run_mutate args
    else exit_usage

unfoldable pub main : List String → Started
main [] = exit_usage
main (program ∷ []) = exit_usage
main (program ∷ subcommand ∷ args) = dispatch subcommand args

-- The flags of both servers, without those of the logger; `qps` is the bits of a float64.
pub record SharedFlags : Type 0 where
  pub config_dir : String
  pub metrics_addr : String
  pub metrics_cert_path : String
  pub metrics_cert_name : String
  pub metrics_cert_key : String
  pub secure_metrics : Bool
  pub probe_addr : String
  pub enable_http2 : Bool
  pub qps : ℕ
  pub burst : ℤ

-- Those of the webhook alone.
pub record WebhookFlags : Type 0 where
  pub webhook_cert_path : String
  pub webhook_cert_name : String
  pub webhook_cert_key : String

-- `certwatcher.New` and `filepath.Join`.
pub record Certificates : Type 1 where
  pub CertWatcher : Type 0
  pub new_watcher : String → String → Result CertWatcher
  pub path_join : String → String → String

module _ (W : Certificates) where
  -- The fields of a `tls.Config` that the options set.
  pub record TlsConfig : Type 0 where
    pub next_protos : List String
    pub get_certificate : Option W.CertWatcher

  -- The two functions on a `tls.Config` that the program makes.
  pub data TlsOpt : Type 0 where
    disable_http2 : TlsOpt
    watch_certificate : W.CertWatcher → TlsOpt

  pub record MetricsServerOptions : Type 0 where
    pub bind_address : String
    pub secure_serving : Bool
    pub tls_opts : List TlsOpt
    pub with_authentication : Bool

  -- The options of a server with the watcher of its certificate, or an exit with 1.
  pub data Configured (Options : Type 0) : Type 0 where
    exited : Configured Options
    configured : Options → Option W.CertWatcher → Configured Options

  abbrev pub run_opt : TlsOpt → TlsConfig → TlsConfig
  run_opt disable_http2 c = record c { next_protos = "http/1.1" ∷ [] }
  run_opt (watch_certificate watcher) c = record c { get_certificate = some watcher }

  -- A server runs its options on its `tls.Config` in their order.
  abbrev pub run_opts : List TlsOpt → TlsConfig → TlsConfig
  run_opts [] c = c
  run_opts (opt ∷ opts) c = run_opts opts (run_opt opt c)

  unfoldable pub get_tls_opts : SharedFlags → List TlsOpt
  get_tls_opts s = if s.enable_http2 then [] else disable_http2 ∷ []

  -- The certificate and the key in a directory.
  abbrev new_cert_watcher : String → String → String → Result W.CertWatcher
  new_cert_watcher dir name key = W.new_watcher (W.path_join dir name) (W.path_join dir key)

  watch_metrics : MetricsServerOptions → Result W.CertWatcher → Configured MetricsServerOptions
  watch_metrics options (err e) = exited
  watch_metrics options (ok watcher) =
      configured
        (record options { tls_opts = options.tls_opts ++ (watch_certificate watcher ∷ []) })
        (some watcher)

  unfoldable pub get_metrics_server_options :
      SharedFlags → List TlsOpt → Configured MetricsServerOptions
  unfolding watch_metrics
  get_metrics_server_options s opts =
      let options : MetricsServerOptions = record {
        bind_address = s.metrics_addr;
        secure_serving = s.secure_metrics;
        tls_opts = opts;
        with_authentication = s.secure_metrics;
      } in
      if s.metrics_cert_path == ""
      then configured options none
      else watch_metrics options
          (new_cert_watcher s.metrics_cert_path s.metrics_cert_name s.metrics_cert_key)

  watch_webhook : List TlsOpt → Result W.CertWatcher → Configured (List TlsOpt)
  watch_webhook opts (err e) = exited
  watch_webhook opts (ok watcher) =
      configured (opts ++ (watch_certificate watcher ∷ [])) (some watcher)

  -- The one field of the webhook's options that is set.
  unfoldable pub get_webhook_server_options : WebhookFlags → List TlsOpt → Configured (List TlsOpt)
  unfolding watch_webhook
  get_webhook_server_options w opts =
      if w.webhook_cert_path == ""
      then configured [] none
      else watch_webhook opts
          (new_cert_watcher w.webhook_cert_path w.webhook_cert_name w.webhook_cert_key)

  -- The protocols that a server with these options offers, beginning with `protos`.
  abbrev pub protocols : List String → List TlsOpt → List String
  protocols protos opts =
      (run_opts opts (record { next_protos = protos; get_certificate = none })).next_protos

  abbrev pub IsDisabled : List TlsOpt → Type 0
  IsDisabled opts = (protos : List String) → protocols protos opts ≡ ("http/1.1" ∷ [])

  get_tls_opts-protocols :
      (s : SharedFlags) (protos : List String)
      → (protocols protos (get_tls_opts s) ≡ (if s.enable_http2 then protos else "http/1.1" ∷ []))
        × ((x : W.CertWatcher)
            → protocols protos (get_tls_opts s ++ (watch_certificate x ∷ []))
              ≡ (if s.enable_http2 then protos else "http/1.1" ∷ []))
  unfolding get_tls_opts
  get_tls_opts-protocols s protos = elim (Bool-cases s.enable_http2) [
    | inl e ↦ rw e (refl, λ x. refl)
    | inr e ↦ rw e (refl, λ x. refl)
  ]

  configured_options :
      {Options : Type 0} {o p : Options} {x y : Option W.CertWatcher}
      → configured o x ≡ configured p y
      → o ≡ p
  configured_options h = cc

  watch_metrics-tls_opts :
      (options o : MetricsServerOptions) (watcher : Option W.CertWatcher) (r : Result W.CertWatcher)
      → watch_metrics options r ≡ configured o watcher
      → (x : W.CertWatcher) × (o.tls_opts ≡ options.tls_opts ++ (watch_certificate x ∷ []))
  unfolding watch_metrics
  watch_metrics-tls_opts options o watcher (err e) h = cc
  watch_metrics-tls_opts options o watcher (ok x) h =
      (x, ap (λ q. q.tls_opts) (sym (configured_options h)))

  watch_webhook-opts :
      (opts o : List TlsOpt) (watcher : Option W.CertWatcher) (r : Result W.CertWatcher)
      → watch_webhook opts r ≡ configured o watcher
      → (x : W.CertWatcher) × (o ≡ opts ++ (watch_certificate x ∷ []))
  unfolding watch_webhook
  watch_webhook-opts opts o watcher (err e) h = cc
  watch_webhook-opts opts o watcher (ok x) h = (x, sym (configured_options h))

  enabled-cases :
      (s : SharedFlags) (x : W.CertWatcher)
      → protocols [] (get_tls_opts s ++ (watch_certificate x ∷ [])) ≡ ("http/1.1" ∷ [])
      → s.enable_http2 ≡ false
  enabled-cases s x h = elim (Bool-cases s.enable_http2) [
    | inl e ↦
        absurd (cons-ne-nil "http/1.1" [] (sym h ∙ (get_tls_opts-protocols s []).1 x ∙ rw e refl))
    | inr e ↦ e
  ]

  get_metrics_server_options-tls_opts :
      (s : SharedFlags) (opts : List TlsOpt) (options : MetricsServerOptions)
      (watcher : Option W.CertWatcher)
      → get_metrics_server_options s opts ≡ configured options watcher
      → (options.tls_opts ≡ opts)
        ⊎ ((x : W.CertWatcher) × (options.tls_opts ≡ opts ++ (watch_certificate x ∷ [])))
  unfolding get_metrics_server_options watch_metrics
  get_metrics_server_options-tls_opts s opts options watcher h =
      elim (Bool-cases (s.metrics_cert_path == "")) [
        | inl e ↦ inl (
            ap (λ q. q.tls_opts)
              (sym (configured_options (rw (e, get_metrics_server_options) at h))))
        | inr e ↦
            inr
              (watch_metrics-tls_opts _ options watcher _ (rw (e, get_metrics_server_options) at h))
      ]

  get_webhook_server_options_cases :
      (w : WebhookFlags) (opts opts' : List TlsOpt) (watcher : Option W.CertWatcher)
      → get_webhook_server_options w opts ≡ configured opts' watcher
      → ((w.webhook_cert_path ≡ "") × (opts' ≡ []))
        ⊎ ((w.webhook_cert_path ≢ "")
            × ((x : W.CertWatcher) × (opts' ≡ opts ++ (watch_certificate x ∷ []))))
  unfolding get_webhook_server_options watch_webhook
  get_webhook_server_options_cases w opts opts' watcher h =
      elim (Bool-cases (w.webhook_cert_path == "")) [
        | inl e ↦ inl (
          (eq_iff w.webhook_cert_path "").0 e,
          sym (configured_options (rw (e, get_webhook_server_options) at h)),
        )
        | inr e ↦ inr (
          ground (arith, eq_iff w.webhook_cert_path ""),
          watch_webhook-opts opts opts' watcher _ (rw (e, get_webhook_server_options) at h),
        )
      ]

  -- If the options of the metrics server are made, it offers HTTP/1.1 alone where HTTP/2 is not
  -- enabled, and what it offered before where it is, whether or not it has a certificate.
  metrics-protocols :
      (s : SharedFlags) (options : MetricsServerOptions) (watcher : Option W.CertWatcher)
      (protos : List String)
      → get_metrics_server_options s (get_tls_opts s) ≡ configured options watcher
      → protocols protos options.tls_opts ≡ (if s.enable_http2 then protos else "http/1.1" ∷ [])
  metrics-protocols s options watcher protos h =
      elim (get_metrics_server_options-tls_opts s (get_tls_opts s) options watcher h) [
        | inl e ↦ rw e ((get_tls_opts-protocols s protos).0)
        | inr (x, e) ↦ rw e ((get_tls_opts-protocols s protos).1 x)
      ]

  -- If the options of the webhook's server are made, they keep it from HTTP/2 exactly if that is not
  -- enabled and there is a path of a certificate.
  pub webhook-IsDisabled_iff :
      (s : SharedFlags) (w : WebhookFlags) (opts : List TlsOpt) (watcher : Option W.CertWatcher)
      → get_webhook_server_options w (get_tls_opts s) ≡ configured opts watcher
      → IsDisabled opts ↔ ((s.enable_http2 ≡ false) × (w.webhook_cert_path ≢ ""))
  webhook-IsDisabled_iff s w opts watcher h =
      elim (get_webhook_server_options_cases w (get_tls_opts s) opts watcher h) [
        | inl (no_path, e) ↦ rw e (
          λ disabled. absurd (cons-ne-nil "http/1.1" [] (sym (disabled []))),
          λ (_, path). absurd (path no_path),
        )
        | inr (path, (x, e)) ↦ rw e (
          λ disabled. (enabled-cases s x (disabled []), path),
          λ (off, _) protos. (get_tls_opts-protocols s protos).1 x ∙ rw off refl,
        )
      ]
