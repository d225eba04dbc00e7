-- ===== src/Controller/Job.antt =====
-- internal/controller/pipelinerun_controller.go: a PipelineRun as a Kueue job. Tekton, Kueue, the
-- client and the quantities of Kubernetes are parameters.
pub mod Requests
pub mod Refusals
pub mod Life
pub mod Mutated
pub mod Admitted
pub mod Visits
pub mod Unordered
pub mod Overflow
pub mod Stopping
use tekton_kueue.Base.{
  ℕ, String, Bool, true, false, Option, none, some, List, [], ◌∷◌, ◌++◌, ◌==◌, cut_prefix, Dict,
  insert, Error, unretryable, Result, ok, err, ◌>>=◌, if◌then◌else◌,
}
use tekton_kueue.Webhook.Defaulter.{Object, pipeline_run}
use tekton_kueue.Tekton.{Condition, PipelineRun, status_pending, status_stopped_run_finally}

-- The methods of Tekton's PipelineRun and of its status, and the texts of two of its reasons.
pub record Tekton : Type 0 where
  pub reason_successful : String
  pub reason_completed : String
  pub is_done : PipelineRun → Bool
  pub has_started : PipelineRun → Bool
  pub get_condition : PipelineRun → String → Option Condition
  pub set_condition : PipelineRun → Condition → PipelineRun

-- `resource.Quantity`; `is_negative` is `Sign() < 0`.
pub record Quantities : Type 1 where
  pub Quantity : Type 0
  pub parse_quantity : String → Result Quantity
  pub must_parse : String → Quantity
  pub is_negative : Quantity → Bool

-- What the program calls of the client: a call of a write leaves the cluster and an error.
pub record Client : Type 1 where
  pub Cluster : Type 0
  pub get_pipeline_run : Cluster → String → String → Result PipelineRun
  pub get_config_map : Cluster → String → String → Result (Dict String)
  pub apply : String → PipelineRun → Cluster → Cluster × Option Error
  pub update_status : PipelineRun → Cluster → Cluster × Option Error

abbrev pub controller_name : String
controller_name = "KueuePipelineRunController"

abbrev pub resource_pipeline_run_count : String
resource_pipeline_run_count = "tekton.dev/pipelineruns"

abbrev pub annotation_resources_requests : String
annotation_resources_requests = "kueue.konflux-ci.dev/requests-"

abbrev pub condition_succeeded : String
condition_succeeded = "Succeeded"

-- The `Count` and the requests of the one container of the pod set.
pub record PodSet (Quantity : Type 0) : Type 0 where
  pub name : String
  pub container : String
  pub requests : Dict Quantity
  pub count : ℕ

module _ (T : Tekton) where
  -- The copy that `Stop` sends, when it sends one.
  abbrev pub stopped_copy : PipelineRun → PipelineRun
  stopped_copy plr = record plr { managed_fields = []; spec_status = status_stopped_run_finally }

  unfoldable pub stop_patch : PipelineRun → Option PipelineRun
  stop_patch plr =
      if T.is_done plr
      then none
      else if plr.spec_status == ""
      then some (stopped_copy plr)
      else if plr.spec_status == status_pending
      then some (stopped_copy plr)
      else none

  abbrev stopped {ℓ} : {Cluster : Type ℓ} → Cluster × Option Error → Cluster × (Bool × Option Error)
  stopped (cluster, none) = (cluster, (true, none))
  stopped (cluster, some e) = (cluster, (false, some e))

  send_patch : (C : Client) → Option PipelineRun → C.Cluster → C.Cluster × (Bool × Option Error)
  send_patch C none cluster = (cluster, (false, none))
  send_patch C (some copy) cluster = stopped (C.apply controller_name copy cluster)

  unfoldable pub stop : (C : Client) → PipelineRun → C.Cluster → C.Cluster × (Bool × Option Error)
  unfolding stop_patch send_patch
  stop C plr cluster = send_patch C (stop_patch plr) cluster

  abbrev is_success : String → Bool
  is_success reason = if reason == T.reason_successful then true else reason == T.reason_completed

  -- The message, whether it succeeded, and whether it finished.
  unfoldable pub finished : PipelineRun → String × (Bool × Bool)
  finished plr = elim (T.get_condition plr condition_succeeded) [
    | none ↦ ("", (false, false))
    | some condition ↦ (condition.message, (is_success condition.reason, T.is_done plr))
  ]

  abbrev pub is_active : PipelineRun → Bool
  is_active plr = T.has_started plr

unfoldable pub is_suspended : PipelineRun → Bool
is_suspended plr = plr.spec_status == status_pending

unfoldable pub run_with_pod_sets_info : PipelineRun → PipelineRun
run_with_pod_sets_info plr = record plr { spec_status = "" }

-- `RestorePodSetsInfo` and `Suspend` do nothing.
abbrev pub restore_pod_sets_info : PipelineRun → PipelineRun × Bool
restore_pod_sets_info plr = (plr, false)

abbrev pub suspend : PipelineRun → PipelineRun
suspend plr = plr

-- `PodsReady` panics: Kueue does not call it, since waiting for pods is off.
abbrev pub pods_ready : PipelineRun → Option Bool
pods_ready plr = none

-- `Object`, as a `client.Object`
abbrev pub object : PipelineRun → Object
object plr = pipeline_run plr

module _ (Q : Quantities) where
  parse_requested_quantity : String → String → String → Result (Option (String × Q.Quantity))
  parse_requested_quantity k v t = elim (Q.parse_quantity v) [
    | err e ↦ err (unretryable "invalid resource quantity in annotation %s=%q: %v" (k ∷ v ∷ []))
    | ok q ↦
        if Q.is_negative q
        then err (
            unretryable "negative resource quantity in annotation %s=%q is not allowed"
              (k ∷ v ∷ []))
        else ok (some (t, q))
  ]

  parse_resource_name : String → String → Option String → Result (Option (String × Q.Quantity))
  unfolding parse_requested_quantity
  parse_resource_name k v none = ok none
  parse_resource_name k v (some t) =
      if t == ""
      then err (unretryable "empty resource name in annotation %s" (k ∷ []))
      else if t == resource_pipeline_run_count
      then err (
          unretryable "overriding the concurrency token %q via annotation is not allowed"
            (resource_pipeline_run_count ∷ []))
      else parse_requested_quantity k v t

  unfoldable pub parse_resources_requests_annotation :
      String → String → Result (Option (String × Q.Quantity))
  unfolding parse_resource_name
  parse_resources_requests_annotation k v =
      parse_resource_name k v (cut_prefix k annotation_resources_requests)

  abbrev put : Dict Q.Quantity → Option (String × Q.Quantity) → Dict Q.Quantity
  put requests none = requests
  put requests (some (n, q)) = insert requests n q

  -- The loop, over the annotations in the order that `range` visits them.
  requests_loop : Dict Q.Quantity → Dict String → Result (Dict Q.Quantity)
  requests_loop requests [] = ok requests
  requests_loop requests ((k, v) ∷ annotations) =
      parse_resources_requests_annotation k v >>= λ parsed.
      requests_loop (put requests parsed) annotations

  unfoldable pub resources_requests : Dict String → Result (Dict Q.Quantity)
  unfolding requests_loop
  resources_requests visited =
      requests_loop ((resource_pipeline_run_count, Q.must_parse "1") ∷ []) visited

  unfoldable pub pod_sets : Dict String → Result (List (PodSet Q.Quantity))
  unfolding resources_requests
  pod_sets visited = resources_requests visited >>= λ requests.
      ok (record { name = "pod-set-1"; container = "dummy"; requests = requests; count = 1 } ∷ [])
