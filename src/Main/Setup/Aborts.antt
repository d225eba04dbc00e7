-- ===== src/Main/Setup/Aborts.antt =====
-- cmd/main.go: the steps behind the definition of the flags never panic.
use mathlib.Core.Path.{subst}
use tekton_kueue.Base.{◌≢◌, Option, none, some, List, Error, Result, ok, err, refl, sym}
use tekton_kueue.Manager.{Manager, Registration, runnable, register, register_all}
use tekton_kueue.Main.{Certificates, Configured, exited, configured}
use tekton_kueue.Main.Setup.{
  Startup, aborted, stopped, going, ◌▸◌, or_die, or_stop, or_exit, Host, ManagerOptions,
  add_ready_and_health_checks_to_mgr_or_die, add_runnable_or_die, health_checks, with_options,
  make_manager, start_manager,
}
use tekton_kueue.Main.Setup.{panicked}
use tekton_kueue.Main.Setup.Steps.{add_ready_and_health_checks-register_all}

-- Steps that never panic, one after the other.
module _ {A B : Type 0} where
  pub ▸-ne-aborted :
      (r : Startup A) (next : A → Startup B)
      → r ≢ aborted
      → ((a : A) → next a ≢ aborted)
      → (r ▸ next) ≢ aborted
  ▸-ne-aborted aborted next h k = λ e. h refl
  ▸-ne-aborted stopped next h k = λ e. cc
  ▸-ne-aborted (going a) next h k = k a

pub or_die-ne-aborted : {A : Type 0} (r : Result A) → or_die r ≢ aborted
or_die-ne-aborted (err e) h = cc
or_die-ne-aborted (ok a) h = cc

pub or_exit-ne-aborted :
    {W : Certificates} {Options : Type 0} (c : Configured W Options) → or_exit c ≢ aborted
or_exit-ne-aborted exited h = cc
or_exit-ne-aborted (configured options watcher) h = cc

or_stop-ne-aborted : (o : Option Error) → or_stop o ≢ aborted
or_stop-ne-aborted none h = cc
or_stop-ne-aborted (some e) h = cc

module _ {X : Type 0} (M : Manager X) where
  pub add_runnable_or_die-ne-aborted :
      (watcher : Option X) (done : List (Registration X))
      → add_runnable_or_die M watcher done ≢ aborted
  unfolding add_runnable_or_die
  add_runnable_or_die-ne-aborted none done = λ h. cc
  add_runnable_or_die-ne-aborted (some watcher) done =
      or_die-ne-aborted (register M (runnable watcher) done)

  pub add_ready_and_health_checks-ne-aborted :
      (done : List (Registration X)) → add_ready_and_health_checks_to_mgr_or_die M done ≢ aborted
  add_ready_and_health_checks-ne-aborted done =
      subst (λ r. r ≢ aborted) (sym (add_ready_and_health_checks-register_all M done))
        (or_die-ne-aborted (register_all M (health_checks M) done))

module _ {W : Certificates} (H : Host W) where
  pub make_manager-ne-aborted :
      (options : ManagerOptions W) (registering : Startup (List (Registration W.CertWatcher)))
      → registering ≢ aborted
      → make_manager H options registering ≢ aborted
  unfolding make_manager with_options
  make_manager-ne-aborted options registering h =
      ▸-ne-aborted (or_stop H.get_config) _ (or_stop-ne-aborted H.get_config) λ _.
        ▸-ne-aborted (or_stop (H.new_manager options)) _
          (or_stop-ne-aborted (H.new_manager options))
          λ _. ▸-ne-aborted registering _ h λ done e. cc

  pub start_manager-ne-panicked :
      (r : Startup (ManagerOptions W × List (Registration W.CertWatcher)))
      → r ≢ aborted
      → start_manager H r ≢ panicked
  start_manager-ne-panicked aborted h e = h refl
  start_manager-ne-panicked stopped h e = cc
  start_manager-ne-panicked (going x) h e = cc
