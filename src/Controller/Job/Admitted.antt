-- ===== src/Controller/Job/Admitted.antt =====
-- A PipelineRun that the webhook admits, in the hands of the controller: from internal/webhook/v1 to
-- the job and to the pending status.
use mathlib.Core.Path.{subst}
use tekton_kueue.Base.{String, true, none, some, find, eq_iff, ◌≡◌, ap, ◌∙◌, ◌⊎◌, ◌↔◌, arith}
use tekton_kueue.Tekton.{
  PipelineRun, status_pending, status_stopped_run_finally, queue_label,
  managed_by_multi_kueue_label,
}
use tekton_kueue.Metrics.{Metrics}
use tekton_kueue.Webhook.ConfigStore.{ConfigStore, Libraries}
use tekton_kueue.Webhook.ConfigStore.Update.{IsGood}
use tekton_kueue.Webhook.Defaulter.{default, pipeline_run, returned}
use tekton_kueue.Webhook.Defaulter.Admit.{IsAnswered, default-IsHandled}
use tekton_kueue.Controller.Job.{Tekton, is_suspended}
use tekton_kueue.Controller.Job.Life.{CanFollow, Reach, Reach-IsFollowed}
use tekton_kueue.Controller.Status.{
  needs_pending_status_condition, needs_pending_status_condition_iff,
}

-- A PipelineRun that waits, runs or was stopped.
abbrev pub IsKnownStatus : String → Type 0
IsKnownStatus status =
    (status ≡ status_pending) ⊎ (status ≡ "") ⊎ (status ≡ status_stopped_run_finally)

follows_pending : (status : String) → CanFollow status_pending status → IsKnownStatus status
follows_pending status h = ground arith

module _ (L : Libraries) (T : Tekton) where
  -- A PipelineRun that the webhook admits under a good configuration is suspended for Kueue, and the
  -- pending-status controller watches it exactly if it is MultiKueue's. It has a queue, and whatever
  -- Kueue's releases and stops and Tekton's conditions make of it, it keeps the queue, and it waits,
  -- runs or was stopped.
  pub default-IsSuspended :
      (s : ConfigStore) (raw : String) (plr admitted : PipelineRun) (m m' : Metrics)
      → IsGood L raw s
      → default s (pipeline_run plr) m ≡ returned (pipeline_run admitted) m' none
      → (is_suspended admitted ≡ true)
        × ((needs_pending_status_condition (pipeline_run admitted) ≡ true)
            ↔ (admitted.managed_by ≡ some managed_by_multi_kueue_label))
        × ((queue : String) × (find admitted.labels queue_label ≡ some queue)
            × ((p : PipelineRun)
                → Reach T admitted p
                → (find p.labels queue_label ≡ some queue) × IsKnownStatus p.spec_status))
  unfolding is_suspended
  default-IsSuspended s raw plr admitted m m' good e =
      let (_, made, (framed, (queue, queued))) =
        subst (IsAnswered good.0 plr) e (default-IsHandled L s raw plr m good) in
      let pending : admitted.spec_status ≡ status_pending =
        framed.same_spec_status ∙ made.pending in
      let needs = needs_pending_status_condition_iff admitted in
      (
        (eq_iff admitted.spec_status status_pending).1 pending,
        (λ h. (needs.0 h).0, λ h. needs.1 (h, pending)),
        (
          queue,
          queued,
          λ p reach.
              let (follows, _, _, labels, _, _, _) = Reach-IsFollowed T admitted p reach in
              (
                ap (λ o. find o queue_label) labels ∙ queued,
                follows_pending p.spec_status
                    (subst (λ x. CanFollow x p.spec_status) pending follows),
              ),
        ),
      )
