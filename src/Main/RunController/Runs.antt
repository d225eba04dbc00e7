-- ===== src/Main/RunController/Runs.antt =====
-- cmd/main.go, lines 190-278: the subcommand `controller` never panics once its flags are defined.
use tekton_kueue.Base.{String, some, List, [], ◌≡◌, ◌≢◌}
use tekton_kueue.Main.{Certificates, SharedFlags, get_tls_opts, get_metrics_server_options}
use tekton_kueue.Main.Flags.{
  FlagSet, ControllerFlags, add_controller_flags, read_shared_flags, read_controller_flags,
}
use tekton_kueue.Manager.{register_all}
use tekton_kueue.Main.Setup.{Host, aborted, or_die, or_exit, panicked}
use tekton_kueue.Main.Setup.Aborts.{
  ▸-ne-aborted, or_die-ne-aborted, or_exit-ne-aborted, make_manager-ne-aborted,
  start_manager-ne-panicked,
}
use tekton_kueue.Main.RunController.{
  controller_options, controller_registrations, register_controllers, register_controllers_lem,
  with_metrics, make_controller, run_controller,
}

module _ {W : Certificates} (H : Host W) where
  make_controller-ne-aborted :
      (s : SharedFlags) (c : ControllerFlags) → make_controller H s c ≢ aborted
  unfolding make_controller with_metrics
  make_controller-ne-aborted s c =
      ▸-ne-aborted (or_exit (get_metrics_server_options W s (get_tls_opts W s)))
        (with_metrics H s c)
        (or_exit-ne-aborted (get_metrics_server_options W s (get_tls_opts W s)))
        λ (metrics, watcher).
          make_manager-ne-aborted H (controller_options H s c metrics)
            (register_controllers H watcher)
            (rw (register_controllers_lem H watcher)
              (or_die-ne-aborted (register_all H.manager (controller_registrations H watcher) [])))

  pub run_controller-ne-panicked :
      (fs : FlagSet) (args : List String)
      → add_controller_flags H.flags [] ≡ some fs
      → run_controller H args ≢ panicked
  unfolding run_controller
  run_controller-ne-panicked fs args defined =
      rw (run_controller, defined)
        (start_manager-ne-panicked H _ (
          ▸-ne-aborted (or_die (H.flags.parse fs args)) _
            (or_die-ne-aborted (H.flags.parse fs args))
            λ parsed.
              make_controller-ne-aborted (read_shared_flags parsed) (read_controller_flags parsed)))
