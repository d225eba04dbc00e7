-- ===== src/Main/RunMutate.antt =====
-- cmd/main.go, lines 365-393 and 551-556: the subcommand `mutate`, whose flags a library parses.
use tekton_kueue.Base.{
  String, List, Result, ok, err, ◌==◌, Bool-cases, Result-cases, if◌then◌else◌, ◌≡◌, ◌≢◌, inl, inr,
  eq_iff, arith,
}
use tekton_kueue.Metrics.{Metrics}
use tekton_kueue.Webhook.ConfigStore.{Libraries}
use tekton_kueue.Mutate.{
  Files, Mutated, crashed, completed, mutate_pipeline_run, IsRun, mutate_pipeline_run-IsRun,
}

-- The flags that are read behind the parsing.
pub record MutateFlags : Type 0 where
  pub pipeline_run_file : String
  pub config_dir : String

-- The subcommand panics, calls `os.Exit`, or prints a text.
pub data Ran : Type 0 where
  panicked : Ran
  exited : Ran
  printed : String → Ran

module _ (L : Libraries) (F : Files) (parse : List String → Result MutateFlags) where
  finish_run : Mutated → Ran
  finish_run crashed = panicked
  finish_run (completed (err e)) = exited
  finish_run (completed (ok text)) = printed text

  run_with_flags : Metrics → MutateFlags → Ran
  unfolding finish_run
  run_with_flags m flags =
      if flags.pipeline_run_file == ""
      then exited
      else if flags.config_dir == ""
      then exited
      else finish_run (mutate_pipeline_run L F flags.pipeline_run_file flags.config_dir m)

  -- `runMutate`. Arguments that the flag package refuses, or that ask for help, make it exit itself.
  unfoldable pub run_mutate : List String → Metrics → Ran
  unfolding run_with_flags
  run_mutate args m = elim (parse args) [ err e ↦ exited | ok flags ↦ run_with_flags m flags ]

  -- How a run ends: with an exit, or with the text of a call that has done its whole work.
  abbrev pub IsPrinted : List String → Ran → Type 0
  IsPrinted args panicked = ⊥
  IsPrinted args exited = Unit
  IsPrinted args (printed text) =
      (flags : MutateFlags) × (parse args ≡ ok flags)
      × (flags.pipeline_run_file ≢ "")
      × (flags.config_dir ≢ "")
      × IsRun L F flags.pipeline_run_file flags.config_dir (completed (ok text))

  finish_run-IsPrinted :
      (args : List String) (flags : MutateFlags) (x : Mutated)
      → parse args ≡ ok flags
      → flags.pipeline_run_file ≢ ""
      → flags.config_dir ≢ ""
      → IsRun L F flags.pipeline_run_file flags.config_dir x
      → IsPrinted args (finish_run x)
  unfolding finish_run
  finish_run-IsPrinted args flags crashed parsed file dir run = run
  finish_run-IsPrinted args flags (completed (err e)) parsed file dir run = tt
  finish_run-IsPrinted args flags (completed (ok text)) parsed file dir run =
      (flags, parsed, file, dir, run)

  run_with_flags-IsPrinted :
      (args : List String) (flags : MutateFlags) (m : Metrics)
      → parse args ≡ ok flags
      → IsPrinted args (run_with_flags m flags)
  unfolding run_with_flags
  run_with_flags-IsPrinted args flags m parsed = elim (Bool-cases (flags.pipeline_run_file == "")) [
    | inl e ↦ rw (e, run_with_flags) tt
    | inr e ↦ elim (Bool-cases (flags.config_dir == "")) [
      | inl f ↦ rw (e, f, run_with_flags) tt
      | inr f ↦
          rw (e, f, run_with_flags)
            (finish_run-IsPrinted args flags _ parsed
              (ground (arith, eq_iff flags.pipeline_run_file ""))
              (ground (arith, eq_iff flags.config_dir ""))
              (mutate_pipeline_run-IsRun L F flags.pipeline_run_file flags.config_dir m))
    ]
  ]

  -- The subcommand never panics. It exits, or it prints a text, and then both flags were given, and
  -- the text is that of the PipelineRun of the one, admitted with a good configuration of the other.
  pub run_mutate-IsPrinted : (args : List String) (m : Metrics) → IsPrinted args (run_mutate args m)
  unfolding run_mutate
  run_mutate-IsPrinted args m = elim (Result-cases (parse args)) [
    | inl (flags, e) ↦ rw (e, run_mutate) (run_with_flags-IsPrinted args flags m e)
    | inr (x, e) ↦ rw (e, run_mutate) tt
  ]
