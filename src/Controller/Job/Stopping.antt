-- ===== src/Controller/Job/Stopping.antt =====
-- All that `Stop` and `Finished` say of a PipelineRun, and what `Stop` does.
use tekton_kueue.Base.{
  Bool, true, false, Option, none, some, Error, ◌≡◌, ◌≢◌, ◌⊎◌, ◌↔◌, eq_iff, arith,
}
use tekton_kueue.Tekton.{PipelineRun, status_pending}
use tekton_kueue.Controller.Job.{
  Tekton, Client, stop_patch, stopped_copy, send_patch, stop, finished, controller_name,
  condition_succeeded,
}

module _ (T : Tekton) (C : Client) (plr : PipelineRun) where
  -- A PipelineRun that is not done, and pending or running.
  abbrev pub IsStoppable : Type 0
  IsStoppable =
      (T.is_done plr ≡ false) × ((plr.spec_status ≡ "") ⊎ (plr.spec_status ≡ status_pending))

  -- What `Stop` does, of the cluster and the results that it leaves.
  pub record IsStopped (cluster : C.Cluster) (left : C.Cluster × (Bool × Option Error))
      : Type 0 where
    pub stopped :
        (left.1.0 ≡ true)
        ↔ (IsStoppable × ((C.apply controller_name (stopped_copy T plr) cluster).1 ≡ none))
    pub failed :
        (e : Error)
        → (left.1.1 ≡ some e)
          ↔ (IsStoppable × ((C.apply controller_name (stopped_copy T plr) cluster).1 ≡ some e))
    pub applied : IsStoppable → left.0 ≡ (C.apply controller_name (stopped_copy T plr) cluster).0
    pub untouched : ¬ IsStoppable → left.0 ≡ cluster

  stop-IsStopped : (cluster : C.Cluster) → IsStopped cluster (stop T C plr cluster)
  unfolding stop stop_patch send_patch
  stop-IsStopped cluster = record {
    stopped = ground (arith, eq_iff plr.spec_status "", eq_iff plr.spec_status status_pending);
    failed = λ e. ground (arith, eq_iff plr.spec_status "", eq_iff plr.spec_status status_pending);
    applied = λ h. ground (arith, eq_iff plr.spec_status "", eq_iff plr.spec_status status_pending);
    untouched =
        λ h. ground (arith, eq_iff plr.spec_status "", eq_iff plr.spec_status status_pending);
  }

  finished_iff :
      (finished T plr).1.1 ≡ true
      ↔ ((T.is_done plr ≡ true) × (T.get_condition plr condition_succeeded ≢ none))
  unfolding finished
  finished_iff = ground arith

  stop_copy :
      (cluster : C.Cluster) → stop T C (stopped_copy T plr) cluster ≡ (cluster, (false, none))
  unfolding stop stop_patch send_patch
  stop_copy cluster = ground arith

  stop_done :
      (cluster : C.Cluster) → T.is_done plr ≡ true → stop T C plr cluster ≡ (cluster, (false, none))
  unfolding stop stop_patch send_patch
  stop_done cluster h = ground arith

  -- `Stop` applies the copy with the new status exactly to a PipelineRun that is not done and pending or
  -- running, says that it stopped it exactly if that had no error, and returns that error otherwise.
  -- `Finished` says that a PipelineRun finished exactly if it is done and has a condition `Succeeded`;
  -- then, and for a PipelineRun as `Stop` left it, `Stop` does nothing.
  pub stop-finished :
      (cluster : C.Cluster)
      → IsStopped cluster (stop T C plr cluster)
        × (((finished T plr).1.1 ≡ true)
            ↔ ((T.is_done plr ≡ true) × (T.get_condition plr condition_succeeded ≢ none)))
        × ((finished T plr).1.1 ≡ true → stop T C plr cluster ≡ (cluster, (false, none)))
        × (stop T C (stopped_copy T plr) cluster ≡ (cluster, (false, none)))
  stop-finished cluster = (
    stop-IsStopped cluster,
    finished_iff,
    λ h. stop_done cluster (finished_iff.0 h).0,
    stop_copy cluster,
  )
