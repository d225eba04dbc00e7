-- ===== src/Controller/Job/Life.antt =====
-- The life of a PipelineRun under Kueue: suspended, released, stopped.
use tekton_kueue.Base.{String, true, false, none, some, List, eq_iff, ◌≡◌, ◌⊎◌, ◌↔◌, arith}
use tekton_kueue.Tekton.{Condition, PipelineRun, status_pending, status_stopped_run_finally}
use tekton_kueue.Controller.Job.{
  Tekton, Client, stop_patch, stopped_copy, send_patch, stop, is_suspended, run_with_pod_sets_info,
  controller_name,
}

-- The status `b` is the same as `a`, or a later one.
abbrev pub CanFollow : String → String → Type 0
CanFollow a b =
    (a ≡ b)
    ⊎ ((a ≡ status_pending) × ((b ≡ "") ⊎ (b ≡ status_stopped_run_finally)))
    ⊎ ((a ≡ "") × (b ≡ status_stopped_run_finally))

CanFollow-trans : (a b c : String) → CanFollow a b → CanFollow b c → CanFollow a c
CanFollow-trans a b c h k = ground (arith, eq_iff a b)

module _ (T : Tekton) where
  stop_patch-some :
      (plr copy : PipelineRun)
      → stop_patch T plr ≡ some copy
      → ((plr.spec_status ≡ "") ⊎ (plr.spec_status ≡ status_pending))
        × (T.is_done plr ≡ false)
        × (copy ≡ stopped_copy T plr)
  unfolding stop_patch
  stop_patch-some plr copy h =
      ground (arith, eq_iff plr.spec_status "", eq_iff plr.spec_status status_pending)

  -- What Kueue does to a PipelineRun by this job: it releases one that is suspended, and it stops one
  -- by a server-side apply of a copy without managed fields. The server merges the copy and keeps its
  -- own managed fields, which are as it decides. In between Tekton reports conditions. The versions
  -- that the server counts are not compared.
  pub data Step (plr : PipelineRun) : PipelineRun → Type 0 where
    released : is_suspended plr ≡ true → Step plr (run_with_pod_sets_info plr)
    stopped :
        (copy : PipelineRun) (managed_fields : List String)
        → stop_patch T plr ≡ some copy
        → Step plr (record copy { managed_fields = managed_fields })
    reported : (conditions : List Condition) → Step plr (record plr { conditions = conditions })

  pub data Reach (plr : PipelineRun) : PipelineRun → Type 0 where
    here : Reach plr plr
    later : (p q : PipelineRun) → Reach plr p → Step p q → Reach plr q

  -- What all steps keep.
  abbrev pub IsFollowed : PipelineRun → PipelineRun → Type 0
  IsFollowed p q =
      CanFollow p.spec_status q.spec_status
      × (q.name ≡ p.name)
      × (q.namespace ≡ p.namespace)
      × (q.labels ≡ p.labels)
      × (q.annotations ≡ p.annotations)
      × (q.managed_by ≡ p.managed_by)
      × (q.rest ≡ p.rest)

  Step-IsFollowed : (p q : PipelineRun) → Step p q → IsFollowed p q
  unfolding is_suspended run_with_pod_sets_info
  Step-IsFollowed p _ (released h) = ground (arith, eq_iff p.spec_status status_pending)
  Step-IsFollowed p _ (stopped copy fields h) = ground (arith, stop_patch-some p copy h)
  Step-IsFollowed p _ (reported cs) = ground arith

  -- By any number of these steps, a PipelineRun that was released is never suspended again, one that
  -- was stopped stays stopped, and its name, namespace, labels, annotations, `managedBy` and the rest of
  -- it stay; its managed fields and conditions may change.
  pub Reach-IsFollowed : (p q : PipelineRun) → Reach p q → IsFollowed p q
  Reach-IsFollowed p _ here = ground arith
  Reach-IsFollowed p q (later r _ reach step) = ground (
    arith,
    CanFollow-trans p.spec_status r.spec_status q.spec_status,
    Reach-IsFollowed p r reach,
    Step-IsFollowed r q step,
  )

  -- `Stop` says that it stopped a PipelineRun exactly if that was not done, was pending or running,
  -- and the patch with the new status was applied.
  stop_iff :
      (C : Client) (plr : PipelineRun) (cluster : C.Cluster)
      → ((stop T C plr cluster).1.0 ≡ true) ↔ (
          (T.is_done plr ≡ false)
          × ((plr.spec_status ≡ "") ⊎ (plr.spec_status ≡ status_pending))
          × ((C.apply controller_name (stopped_copy T plr) cluster).1 ≡ none))
  unfolding stop stop_patch send_patch
  stop_iff C plr cluster =
      ground (arith, eq_iff plr.spec_status "", eq_iff plr.spec_status status_pending)
