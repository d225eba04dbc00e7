-- ===== src/Main/Setup.antt =====
-- cmd/main.go, lines 365-556: the steps that the subcommands share. A step panics, stops the
-- program by `os.Exit`, or goes on.
pub mod Steps
pub mod Aborts
use tekton_kueue.Base.{
  ℕ, String, Bool, true, false, Option, none, some, List, [], ◌∷◌, ◌++◌, Error, Result, ok, err,
  ◌>>=◌, Result-cases, ◌≡◌, refl, sym, ap, ◌∙◌, inl, inr, ◌↔◌,
}
use tekton_kueue.Base.Int.{ℤ}
use tekton_kueue.Manager.{
  Address, Manager, Registration, runnable, healthz_check, readyz_check, register, register_all,
}
use tekton_kueue.Controller.Setup.{setup_config_map_with_manager}
use tekton_kueue.Main.{Certificates, Configured, exited, configured, MetricsServerOptions, TlsOpt}
use tekton_kueue.Main.Floats.{safe_float64_to_float32_or_zero}
use tekton_kueue.Main.Flags.{FlagSet, FlagLibraries}

pub data Startup {ℓ} (A : Type ℓ) : Type ℓ where
  aborted : Startup A
  stopped : Startup A
  going : A → Startup A

-- Goes on with the value.
infixl 5 ◌▸◌
abbrev pub ◌▸◌ {ℓ κ} : {A : Type ℓ} {B : Type κ} → Startup A → (A → Startup B) → Startup B
aborted ▸ next = aborted
stopped ▸ next = stopped
going value ▸ next = next value

-- A call that panics.
abbrev pub or_abort {ℓ} : {A : Type ℓ} → Option A → Startup A
or_abort none = aborted
or_abort (some value) = going value

-- `if err != nil { …; os.Exit(1) }`
abbrev pub or_die {ℓ} : {A : Type ℓ} → Result A → Startup A
or_die (err e) = stopped
or_die (ok value) = going value

-- The rates that both servers set on the configuration of the API client: `QPS` as a float32's bits.
pub record ClientConfig : Type 0 where
  pub burst : ℤ
  pub qps : ℕ

-- A call that stops the program on an error, and returns nothing that is modelled.
abbrev pub or_stop : Option Error → Startup (Unit {0})
or_stop none = going tt
or_stop (some e) = stopped

abbrev pub client_config : ℤ → ℕ → ClientConfig
client_config burst qps = record { burst = burst; qps = (safe_float64_to_float32_or_zero qps).0 }

-- `ctrl.Options`, with the configuration of the API client, as the two servers set them; a namespace
-- stands for an entry of `Cache.DefaultNamespaces`.
pub record ManagerOptions (W : Certificates) : Type 0 where
  pub client : ClientConfig
  pub metrics : MetricsServerOptions W
  pub health_probe_bind_address : String
  pub webhook_server : Option (List (TlsOpt W))
  pub leader_election : Bool
  pub leader_election_id : String
  pub lease_duration : Option ℤ
  pub renew_deadline : Option ℤ
  pub retry_period : Option ℤ
  pub default_namespaces : List String

-- What the subcommands call: flags, files, `ctrl.GetConfigOrDie`, which stops the program on an error,
-- `ctrl.NewManager`, and the manager.
pub record Host (W : Certificates) : Type 0 where
  pub flags : FlagLibraries
  pub read_file : String → Result String
  pub trim_space : String → String
  pub get_config : Option Error
  pub new_manager : ManagerOptions W → Option Error
  pub manager : Manager W.CertWatcher

-- How a server ends: by a panic, by `os.Exit` before the manager is started, or, with the options
-- and the registrations of the manager that it started, when that returns: by an exit with 1 if it
-- returns an error.
pub data Ended (W : Certificates) : Type 0 where
  panicked : Ended W
  failed : Ended W
  served : ManagerOptions W → List (Registration W.CertWatcher) → Option Error → Ended W

-- `parseFlagsOrDie`. The flag sets are made with `flag.ExitOnError`, by which the flag package exits
-- itself where `parse` has an error
abbrev pub parse_flags_or_die : FlagLibraries → FlagSet → List String → Startup FlagSet
parse_flags_or_die F fs args = or_die (F.parse fs args)

module _ {W : Certificates} where
  -- The options of a server and the watcher of its certificate, if there are any.
  abbrev pub or_exit :
      {Options : Type 0} → Configured W Options → Startup (Options × Option W.CertWatcher)
  or_exit exited = stopped
  or_exit (configured options watcher) = going (options, watcher)

module _ {X : Type 0} (M : Manager X) where
  unfoldable pub add_ready_and_health_checks_to_mgr_or_die :
      List (Registration X) → Startup (List (Registration X))
  add_ready_and_health_checks_to_mgr_or_die done =
      or_die (register M (healthz_check "healthz") done) ▸ λ made.
      or_die (register M (readyz_check "readyz") made)

  -- A nil runnable is not added.
  unfoldable pub add_runnable_or_die :
      Option X → List (Registration X) → Startup (List (Registration X))
  add_runnable_or_die none done = going done
  add_runnable_or_die (some watcher) done = or_die (register M (runnable watcher) done)

  abbrev pub add_metrics_cert_watcher :
      Option X → List (Registration X) → Startup (List (Registration X))
  add_metrics_cert_watcher watcher done = add_runnable_or_die watcher done

  abbrev pub add_config_watcher :
      (String → Result String)
      → (String → String)
      → Address
      → List (Registration X)
      → Startup (List (Registration X))
  add_config_watcher read_file trim_space store done =
      or_die (setup_config_map_with_manager M read_file trim_space store done)

  -- The registrations of the last step.
  abbrev pub health_checks : List (Registration X)
  health_checks = healthz_check "healthz" ∷ readyz_check "readyz" ∷ []

  -- A watcher of a certificate, if there is one.
  abbrev pub runnables : Option X → List (Registration X)
  runnables none = []
  runnables (some watcher) = runnable watcher ∷ []

module _ {W : Certificates} (H : Host W) where
  unfoldable pub with_options :
      ManagerOptions W
      → List (Registration W.CertWatcher)
      → Startup (ManagerOptions W × List (Registration W.CertWatcher))
  with_options options done = going (options, done)

  -- The manager of the options, and the registrations with it.
  unfoldable pub make_manager :
      ManagerOptions W
      → Startup (List (Registration W.CertWatcher))
      → Startup (ManagerOptions W × List (Registration W.CertWatcher))
  unfolding with_options
  make_manager options registering = or_stop H.get_config ▸ λ _.
      or_stop (H.new_manager options) ▸ λ _. registering ▸ with_options options

  -- `mgr.Start` behind the steps before it.
  abbrev pub start_manager :
      Startup (ManagerOptions W × List (Registration W.CertWatcher)) → Ended W
  start_manager aborted = panicked
  start_manager stopped = failed
  start_manager (going (options, done)) = served options done (H.manager.start done)
