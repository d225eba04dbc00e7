-- ===== src/Tests/JointTests.antt =====
-- The theorems on the webhook and the controller together, and on the watch of the ConfigMap.
use mathlib.Core.Path.{subst}
use tekton_kueue.Base.{
  String, true, false, Option, none, some, [], ◌∷◌, ◌==◌, Dict, lookup, assign, insert, find,
  not_found, Result, ok, err, eq_iff, if◌then◌else◌, ◌≡◌, refl, ◌↔◌, inr, List, arith,
}
use tekton_kueue.Tekton.{
  PipelineRun, queue_label, config_key, config_map_name, managed_by_multi_kueue_label,
}
use tekton_kueue.Metrics.{Metrics, no_metrics}
use tekton_kueue.Cel.Types.{validate}
use tekton_kueue.Cel.Compiler.{compile_cel_programs}
use tekton_kueue.Cel.Mutator.{mutate_all, evaluate_all, apply_all, mutate}
use tekton_kueue.Cel.Evaluator.{evaluate}
use tekton_kueue.Webhook.ConfigStore.{empty_store, build_mutators, update}
use tekton_kueue.Webhook.ConfigStore.Update.{IsGood}
use tekton_kueue.Webhook.Defaulter.{pipeline_run, returned, default}
use tekton_kueue.Controller.Queue.{Request}
use tekton_kueue.Controller.Job.{Client, is_suspended}
use tekton_kueue.Controller.Job.Life.{Reach}
use tekton_kueue.Controller.Job.Admitted.{IsKnownStatus, default-IsSuspended}
use tekton_kueue.Controller.Status.{needs_pending_status_condition}
use tekton_kueue.Controller.ConfigMap.{is_watched, reconcile}
use tekton_kueue.Controller.ConfigMap.Convergence.{
  Watching, current, IsCurrent, AreOwn, IsSettled, Reach as ReachWatching, take_request, taken,
  observe, edited, here, later, IsTaken, Reach-IsSettled,
}
use tekton_kueue.Controller.ConfigMap.Serving.{IsServed, Reach-IsServed}
use tekton_kueue.Tests.Toys.{libraries, config, store, plr, tekton}

store_built : build_mutators libraries ("a" ∷ []) ≡ ok store.mutators
unfolding build_mutators compile_cel_programs
store_built = refl

store_good : IsGood libraries "text" store
store_good = (
  config,
  refl,
  (λ e. let clash : false ≡ true = (eq_iff "queue" "").1 e in cc),
  store_built,
  refl,
)

abbrev admitted : PipelineRun
admitted = record plr {
  labels = some (("app", "x") ∷ (queue_label, "queue") ∷ ("team", "a") ∷ []);
  spec_status = "PipelineRunPending";
  managed_by = some managed_by_multi_kueue_label;
}

abbrev counted : Metrics
counted = record no_metrics { evaluation_success = 1; mutation_success = 1 }

plr_admitted :
    default store (pipeline_run plr) no_metrics ≡ returned (pipeline_run admitted) counted none
unfolding default mutate_all evaluate_all evaluate apply_all mutate validate lookup assign insert
plr_admitted = refl

default-IsSuspended_example :
    (is_suspended admitted ≡ true)
    × ((needs_pending_status_condition (pipeline_run admitted) ≡ true)
        ↔ (admitted.managed_by ≡ some managed_by_multi_kueue_label))
    × ((queue : String) × (find admitted.labels queue_label ≡ some queue)
        × ((p : PipelineRun)
            → Reach tekton admitted p
            → (find p.labels queue_label ≡ some queue) × IsKnownStatus p.spec_status))
default-IsSuspended_example =
    default-IsSuspended libraries tekton store "text" plr admitted no_metrics counted store_good
      plr_admitted

-- A cluster of at most the webhook's ConfigMap.
abbrev read : Option (Dict String) → Result (Dict String)
read none = err (not_found "no ConfigMap")
read (some cm) = ok cm

abbrev config_client : Client
config_client = record {
  Cluster = Option (Dict String);
  get_pipeline_run = λ cluster namespace name. err (not_found "no PipelineRun");
  get_config_map = λ cluster namespace name.
      if name == config_map_name
      then (if namespace == "ns" then read cluster else err (not_found "no ConfigMap"))
      else err (not_found "no ConfigMap");
  apply = λ owner plr cluster. (cluster, none);
  update_status = λ plr cluster. (cluster, none);
}

abbrev own : Request
own = ("ns", config_map_name)

abbrev fresh : Watching libraries config_client "ns"
fresh = record { cluster = none; store = empty_store; metrics = no_metrics; queue = [] }

abbrev config_map : Dict String
config_map = (config_key, "text") ∷ []

fresh-IsSettled : IsSettled libraries config_client "ns" fresh
fresh-IsSettled = (tt, inr (λ cm raw got text. cc))

-- The ConfigMap is made, behind an event about another one.
abbrev other_seen : Watching libraries config_client "ns"
other_seen = observe libraries config_client "ns" fresh none ("ns", "other")

abbrev written : Watching libraries config_client "ns"
written = observe libraries config_client "ns" other_seen (some config_map) own

others_same :
    (n k : String)
    → ((n ≡ "ns") × (k ≡ config_map_name) → ⊥)
    → config_client.get_config_map (some config_map) n k ≡ config_client.get_config_map none n k
others_same n k h = ground (arith, eq_iff n "ns", eq_iff k config_map_name)

written_reached : ReachWatching libraries config_client "ns" fresh written
written_reached =
    later other_seen written
      (later fresh other_seen here (edited none "ns" "other" (λ n k h. refl)))
      (edited (some config_map) "ns" config_map_name others_same)

Reach-IsSettled_example :
    AreOwn libraries config_client "ns" written.queue
    × (written.queue ≡ [] → IsCurrent libraries config_client "ns" written)
    × ((r : Request) (rest : List Request) (cm : Dict String) (raw : String)
        → written.queue ≡ (r ∷ rest)
        → current libraries config_client "ns" written ≡ ok cm
        → lookup cm config_key ≡ some raw
        → IsTaken libraries config_client "ns" raw written.store (
            reconcile libraries config_client written.cluster r.0 r.1 written.store
              written.metrics))
Reach-IsSettled_example =
    Reach-IsSettled libraries config_client "ns" fresh written fresh-IsSettled written_reached

-- Only the event of the webhook's ConfigMap queued a request.
written_queue : written.queue ≡ (own ∷ [])
unfolding is_watched
written_queue = refl

abbrev loaded : Watching libraries config_client "ns"
loaded = record {
  cluster = some config_map;
  store = store;
  metrics = record no_metrics { reload_success = 1 };
  queue = [];
}

written_taken : take_request libraries config_client "ns" written own [] ≡ loaded
unfolding reconcile update build_mutators compile_cel_programs lookup
written_taken = refl

loaded_reached : ReachWatching libraries config_client "ns" fresh loaded
loaded_reached =
    subst (ReachWatching libraries config_client "ns" fresh) written_taken
      (later written _ written_reached (taken own [] written_queue))

Reach-IsServed_example : IsServed libraries "text" loaded.store
unfolding lookup
Reach-IsServed_example =
    Reach-IsServed libraries config_client "ns" fresh loaded config_map "text" fresh-IsSettled
      loaded_reached refl refl refl
