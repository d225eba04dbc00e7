-- ===== src/Controller/Status.antt =====
-- internal/controller/pipelinerun_status_reconciler.go: a status for PipelineRuns that wait for
-- MultiKueue, which Tekton's own controller ignores.
pub mod Effects
pub mod Convergence
use tekton_kueue.Base.{
  String, Bool, true, false, ◌↔◌, eq_iff, Option, none, some, ◌==◌, Error, not_found, ok, err,
  if◌then◌else◌, ◌≡◌, sym, ap, ◌∙◌, inl, inr, ◌⊎◌, arith,
}
use tekton_kueue.Tekton.{Condition, PipelineRun, status_pending, managed_by_multi_kueue_label}
use tekton_kueue.Webhook.Defaulter.{Object, pipeline_run, other_object}
use tekton_kueue.Controller.Job.{Tekton, Client, condition_succeeded}

is_managed : Option String → Bool
is_managed none = false
is_managed (some managed_by) = managed_by == managed_by_multi_kueue_label

unfoldable pub needs_pending_status_condition : Object → Bool
unfolding is_managed
needs_pending_status_condition (other_object type) = false
needs_pending_status_condition (pipeline_run plr) =
    if is_managed plr.managed_by then plr.spec_status == status_pending else false

is_managed_iff :
    (o : Option String) → (is_managed o ≡ true) ↔ (o ≡ some managed_by_multi_kueue_label)
unfolding is_managed
is_managed_iff none = ground arith
is_managed_iff (some v) = ground (arith, eq_iff v managed_by_multi_kueue_label)

-- The predicate passes the PipelineRuns of MultiKueue that are pending.
pub needs_pending_status_condition_iff :
    (plr : PipelineRun)
    → (needs_pending_status_condition (pipeline_run plr) ≡ true)
      ↔ ((plr.managed_by ≡ some managed_by_multi_kueue_label) × (plr.spec_status ≡ status_pending))
unfolding needs_pending_status_condition is_managed
needs_pending_status_condition_iff plr =
    ground (arith, is_managed_iff plr.managed_by, eq_iff plr.spec_status status_pending)

-- `client.IgnoreNotFound`
abbrev pub ignore_not_found : Error → Option Error
ignore_not_found (not_found message) = none
ignore_not_found e = some e

abbrev pub pending_condition : Condition
pending_condition = record {
  type = condition_succeeded;
  status = "Unknown";
  reason = "PipelineRunPending";
  message = "PipelineRun is pending, waiting for MultiKueue admission";
}

module _ (T : Tekton) (C : Client) where
  reconcile_unset : PipelineRun → Option Condition → C.Cluster → C.Cluster × Option Error
  reconcile_unset plr (some condition) cluster = (cluster, none)
  reconcile_unset plr none cluster = C.update_status (T.set_condition plr pending_condition) cluster

  reconcile_found : PipelineRun → C.Cluster → C.Cluster × Option Error
  unfolding is_managed reconcile_unset
  reconcile_found plr cluster =
      if is_managed plr.managed_by
      then (if plr.spec_status == status_pending
          then reconcile_unset plr (T.get_condition plr condition_succeeded) cluster
          else (cluster, none))
      else (cluster, none)

  unfoldable pub reconcile : String → String → C.Cluster → C.Cluster × Option Error
  unfolding reconcile_found
  reconcile namespace name cluster = elim (C.get_pipeline_run cluster namespace name) [
    | err e ↦ (cluster, ignore_not_found e)
    | ok plr ↦ reconcile_found plr cluster
  ]
