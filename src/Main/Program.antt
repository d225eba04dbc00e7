-- ===== src/Main/Program.antt =====
-- cmd/main.go, lines 170-188: the whole program, from its arguments to its exit.
use mathlib.Core.Path.{subst}
use tekton_kueue.Base.{
  String, Option, none, some, List, [], ◌∷◌, ◌==◌, Bool-cases, eq_iff, Result, ok, err, ◌≡◌, ◌≢◌,
  refl, sym, ◌⊎◌, inl, inr,
}
use tekton_kueue.Metrics.{no_metrics}
use tekton_kueue.Webhook.ConfigStore.{Libraries}
use tekton_kueue.Mutate.{Files}
use tekton_kueue.Manager.{Registration}
use tekton_kueue.Main.{
  Certificates, Started, exit_usage, dispatch, main, run_controller as to_controller,
  run_webhook as to_webhook, run_mutate as to_mutate,
}
use tekton_kueue.Main.Flags.{
  FlagSet, FlagLibraries, add_controller_flags, add_webhook_flags, add_mutate_flags,
  read_mutate_flags,
}
use tekton_kueue.Main.Flags.Defaults.{HasFlags, add_flags-AreDefined}
use tekton_kueue.Main.Setup.{Host, Ended, panicked, failed, served, ManagerOptions}
use tekton_kueue.Main.RunController.{run_controller, IsControllerServed, run_controller-served_iff}
use tekton_kueue.Main.RunController.Runs.{run_controller-ne-panicked}
use tekton_kueue.Main.RunWebhook.{run_webhook}
use tekton_kueue.Main.RunWebhook.Served.{IsWebhookServed, run_webhook-served_iff}
use tekton_kueue.Main.RunWebhook.Runs.{run_webhook-ne-panicked}
use tekton_kueue.Main.RunMutate.{
  MutateFlags, Ran, panicked as ran_panicked, exited, printed, run_mutate, IsPrinted,
  run_mutate-IsPrinted,
}

-- How the program ends: by a panic, by a call of `os.Exit` (its own with 1, or that of the flag package,
-- which exits itself on arguments that it refuses or that ask for help), or as `main` returns, perhaps
-- with a text on the output.
pub data Exit : Type 0 where
  crashed : Exit
  died : Exit
  returned : Exit
  returned_with : String → Exit

-- `parseFlagsOrDie` and the fields of the flags, for the subcommand `mutate`.
abbrev pub parse_mutate : FlagLibraries → FlagSet → List String → Result MutateFlags
parse_mutate F fs args = elim (F.parse fs args) [
  | err e ↦ err e
  | ok parsed ↦ ok (read_mutate_flags parsed)
]

module _ {W : Certificates} (H : Host W) (L : Libraries) (F : Files) where
  abbrev server_exit : Ended W → Exit
  server_exit panicked = crashed
  server_exit failed = died
  server_exit (served options done none) = returned
  server_exit (served options done (some e)) = died

  abbrev mutate_exit : Ran → Exit
  mutate_exit ran_panicked = crashed
  mutate_exit exited = died
  mutate_exit (printed text) = returned_with text

  start_mutate : Option FlagSet → List String → Exit
  start_mutate none args = crashed
  start_mutate (some fs) args =
      mutate_exit (run_mutate L F (parse_mutate H.flags fs) args no_metrics)

  finish_main : Started → Exit
  unfolding start_mutate
  finish_main (to_controller args) = server_exit (run_controller H args)
  finish_main (to_webhook args) = server_exit (run_webhook H args)
  finish_main (to_mutate args) = start_mutate (add_mutate_flags H.flags []) args
  finish_main exit_usage = died

  -- `main` with the subcommands that it calls.
  unfoldable pub run_program : List String → Exit
  unfolding finish_main
  run_program args = finish_main (main args)

  -- What it says that `main` returned: a server was started, and its manager returned no error; or, with
  -- a text, the subcommand `mutate` has done its work.
  abbrev pub IsExplained : List String → Exit → Type 0
  IsExplained args crashed = ⊥
  IsExplained args returned =
      (program : String) × (rest : List String) × (options : ManagerOptions W) × (done : List
        (Registration W.CertWatcher))
      × (((args ≡ (program ∷ "controller" ∷ rest)) × IsControllerServed H rest options done none)
          ⊎ ((args ≡ (program ∷ "webhook" ∷ rest)) × IsWebhookServed H rest options done none))
  IsExplained args died = Unit
  IsExplained args (returned_with text) =
      (program : String) × (rest : List String) × (fs : FlagSet) × (args
        ≡ (program ∷ "mutate" ∷ rest))
      × (add_mutate_flags H.flags [] ≡ some fs)
      × IsPrinted L F (parse_mutate H.flags fs) rest (printed text)

  server_exit-IsExplained :
      (args : List String) (x : Ended W)
      → x ≢ panicked
      → ((options : ManagerOptions W) (done : List (Registration W.CertWatcher))
          → x ≡ served options done none
          → IsExplained args returned)
      → IsExplained args (server_exit x)
  server_exit-IsExplained args panicked h k = absurd (h refl)
  server_exit-IsExplained args failed h k = tt
  server_exit-IsExplained args (served options done none) h k = k options done refl
  server_exit-IsExplained args (served options done (some e)) h k = tt

  mutate_exit-IsExplained :
      (program : String) (rest : List String) (fs : FlagSet) (x : Ran)
      → add_mutate_flags H.flags [] ≡ some fs
      → IsPrinted L F (parse_mutate H.flags fs) rest x
      → IsExplained (program ∷ "mutate" ∷ rest) (mutate_exit x)
  mutate_exit-IsExplained program rest fs ran_panicked defined h = h
  mutate_exit-IsExplained program rest fs exited defined h = tt
  mutate_exit-IsExplained program rest fs (printed text) defined h =
      (program, rest, fs, refl, defined, h)

  -- The three flag sets are made without a panic.
  abbrev pub AreDefined : Type 0
  AreDefined =
      ((fs : FlagSet) × (add_controller_flags H.flags [] ≡ some fs))
      × ((fs : FlagSet) × (add_webhook_flags H.flags [] ≡ some fs))
      × ((fs : FlagSet) × (add_mutate_flags H.flags [] ≡ some fs))

  controller-IsExplained :
      (program : String) (rest : List String) (fs : FlagSet)
      → add_controller_flags H.flags [] ≡ some fs
      → IsExplained (program ∷ "controller" ∷ rest) (server_exit (run_controller H rest))
  controller-IsExplained program rest fs defined =
      server_exit-IsExplained (program ∷ "controller" ∷ rest) (run_controller H rest)
        (run_controller-ne-panicked H fs rest defined)
        λ options done e. (
          program,
          rest,
          options,
          done,
          inl (refl, (run_controller-served_iff H rest options done none).0 e),
        )

  webhook-IsExplained :
      (program : String) (rest : List String) (fs : FlagSet)
      → add_webhook_flags H.flags [] ≡ some fs
      → IsExplained (program ∷ "webhook" ∷ rest) (server_exit (run_webhook H rest))
  webhook-IsExplained program rest fs defined =
      server_exit-IsExplained (program ∷ "webhook" ∷ rest) (run_webhook H rest)
        (run_webhook-ne-panicked H fs rest defined)
        λ options done e. (
          program,
          rest,
          options,
          done,
          inr (refl, (run_webhook-served_iff H rest options done none).0 e),
        )

  mutate-IsExplained :
      (program : String) (rest : List String) (fs : FlagSet)
      → add_mutate_flags H.flags [] ≡ some fs
      → IsExplained (program ∷ "mutate" ∷ rest) (start_mutate (add_mutate_flags H.flags []) rest)
  unfolding start_mutate
  mutate-IsExplained program rest fs defined =
      subst (λ o. IsExplained (program ∷ "mutate" ∷ rest) (start_mutate o rest)) (sym defined)
        (mutate_exit-IsExplained program rest fs _ defined
          (run_mutate-IsPrinted L F (parse_mutate H.flags fs) rest no_metrics))

  finish_main-IsExplained :
      (program subcommand : String) (rest : List String)
      → AreDefined
      → IsExplained (program ∷ subcommand ∷ rest) (finish_main (dispatch subcommand rest))
  unfolding finish_main start_mutate
  finish_main-IsExplained program subcommand rest ((cs, c), (ws, w), (ms, m)) =
      elim (Bool-cases (subcommand == "controller")) [
        | inl e ↦
            rw (e, (eq_iff subcommand "controller").0 e) (controller-IsExplained program rest cs c)
        | inr e ↦ elim (Bool-cases (subcommand == "webhook")) [
          | inl f ↦
              rw (e, f, (eq_iff subcommand "webhook").0 f) (webhook-IsExplained program rest ws w)
          | inr f ↦ elim (Bool-cases (subcommand == "mutate")) [
            | inl g ↦
                rw (e, f, g, (eq_iff subcommand "mutate").0 g)
                  (mutate-IsExplained program rest ms m)
            | inr g ↦ rw (e, f, g) tt
          ]
        ]
      ]

  -- If the libraries' flags have names of their own, the program never panics, whatever its arguments,
  -- the cluster and the files are. It calls `os.Exit`, or `main` returns: then it was called with
  -- `controller` or `webhook`, and that server's manager was started with all its registrations and
  -- returned no error, or with `mutate`, and it has printed the text of the PipelineRun admitted under
  -- the configuration.
  pub run_program-IsExplained :
      (zap kube : FlagSet)
      → HasFlags H.flags zap kube
      → (args : List String) → IsExplained args (run_program args)
  unfolding run_program main finish_main
  run_program-IsExplained zap kube h [] = tt
  run_program-IsExplained zap kube h (program ∷ []) = tt
  run_program-IsExplained zap kube h (program ∷ subcommand ∷ rest) =
      let ((cs, c, _), (ws, w, _), (ms, m, _)) = add_flags-AreDefined H.flags zap kube h in
      finish_main-IsExplained program subcommand rest ((cs, c), (ws, w), (ms, m))
