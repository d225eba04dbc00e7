-- ===== src/Controller/ConfigMap.antt =====
-- internal/controller/configmap_controller.go and pkg/common/common_utils.go: the watch of the
-- webhook's ConfigMap.
pub mod Convergence
pub mod Serving
use tekton_kueue.Base.{
  ℕ, String, Bool, false, Option, none, some, [], ◌∷◌, ◌==◌, Dict, lookup, Error, wrap, not_found,
  Result, ok, err, if◌then◌else◌, ◌≡◌, inl, inr, ◌≢◌, Option-cases, Result-cases,
}
use tekton_kueue.Tekton.{config_key, config_map_name}
use tekton_kueue.Metrics.{Metrics, record_reload_failure, record_reload_success}
use tekton_kueue.Webhook.ConfigStore.{ConfigStore, Libraries, Updated, update}
use tekton_kueue.Webhook.ConfigStore.Update.{IsGood, IsBad, kept, swapped, update-IsUpdated}
use tekton_kueue.Controller.Job.{Client}

-- `readNamespace`: `read_file` is `os.ReadFile`, `trim_space` is `strings.TrimSpace`.
unfoldable pub read_namespace :
    (String → Result String) → (String → String) → String → Result String
read_namespace read_file trim_space path = elim (read_file path) [
  | err e ↦ err (wrap "not able to read namespace file %s: %w" (path ∷ []) e)
  | ok bytes ↦ ok (trim_space bytes)
]

abbrev pub namespace_file : String
namespace_file = "/var/run/secrets/kubernetes.io/serviceaccount/namespace"

abbrev pub get_current_namespace : (String → Result String) → (String → String) → Result String
get_current_namespace read_file trim_space = read_namespace read_file trim_space namespace_file

-- The predicate of the watch, with the namespace that the setup read.
unfoldable pub is_watched : String → String → String → Bool
is_watched namespace object_namespace object_name =
    if object_name == config_map_name then object_namespace == namespace else false

-- What a call of `Reconcile` leaves: the store, the counters, the seconds to the next try, the error.
pub record Reconciled : Type 0 where
  pub store : ConfigStore
  pub metrics : Metrics
  pub requeue_after : ℕ
  pub error : Option Error

module _ (L : Libraries) where
  finish_update : Updated → Reconciled
  finish_update u = elim u.error [
    | some e ↦ record { store = u.store; metrics = u.metrics; requeue_after = 10; error = some e }
    | none ↦ record { store = u.store; metrics = u.metrics; requeue_after = 0; error = none }
  ]

  abbrev unchanged_store : ConfigStore → Metrics → Option Error → Reconciled
  unchanged_store s m e = record { store = s; metrics = m; requeue_after = 0; error = e }

  reconcile_error : ConfigStore → Metrics → Error → Reconciled
  reconcile_error s m (not_found message) = unchanged_store s m none
  reconcile_error s m e = unchanged_store s m (some e)

  reconcile_data : ConfigStore → Metrics → Dict String → Reconciled
  unfolding finish_update
  reconcile_data s m cm = elim (lookup cm config_key) [
    | none ↦ unchanged_store s m none
    | some raw ↦ finish_update (update L s raw m)
  ]

  unfoldable pub reconcile :
      (C : Client) → C.Cluster → String → String → ConfigStore → Metrics → Reconciled
  unfolding reconcile_data reconcile_error
  reconcile C cluster namespace name s m = elim (C.get_config_map cluster namespace name) [
    | err e ↦ reconcile_error s m e
    | ok cm ↦ reconcile_data s m cm
  ]

  -- How a call of `Reconcile` ends, for what the client returns.
  pub data IsReconciled (s : ConfigStore) (m : Metrics)
      : Result (Dict String) → Reconciled → Type 0 where
    gone :
        (message : String) → IsReconciled s m (err (not_found message)) (unchanged_store s m none)
    unread :
        (e : Error)
        → ((message : String) → e ≢ not_found message)
        → IsReconciled s m (err e) (unchanged_store s m (some e))
    no_key :
        (cm : Dict String)
        → lookup cm config_key ≡ none
        → IsReconciled s m (ok cm) (unchanged_store s m none)
    retried :
        (cm : Dict String) (raw : String) (e : Error)
        → lookup cm config_key ≡ some raw
        → IsBad L raw
        → IsReconciled s m (ok cm) (record {
          store = s;
          metrics = record_reload_failure m;
          requeue_after = 10;
          error = some e;
        })
    loaded :
        (cm : Dict String) (raw : String) (t : ConfigStore)
        → lookup cm config_key ≡ some raw
        → IsGood L raw t
        → IsReconciled s m (ok cm) (record {
          store = t;
          metrics = record_reload_success m;
          requeue_after = 0;
          error = none;
        })

  reconcile_error-IsReconciled :
      (s : ConfigStore) (m : Metrics) (e : Error) → IsReconciled s m (err e) (reconcile_error s m e)
  unfolding reconcile_error
  reconcile_error-IsReconciled s m (not_found message) = gone message
  reconcile_error-IsReconciled s m e = unread e (λ _ h. cc)

  reconcile_data-IsReconciled :
      (s : ConfigStore) (m : Metrics) (cm : Dict String)
      → IsReconciled s m (ok cm) (reconcile_data s m cm)
  unfolding reconcile_data finish_update
  reconcile_data-IsReconciled s m cm = elim (Option-cases (lookup cm config_key)) [
    | inl e ↦ rw (e, reconcile_data) (no_key cm e)
    | inr (raw, e) ↦ elim (update-IsUpdated L s raw m) [
      | kept x bad same ↦ rw (e, same, reconcile_data) (retried cm raw x e bad)
      | swapped t good same ↦ rw (e, same, reconcile_data) (loaded cm raw t e good)
    ]
  ]

  -- A reconcile loads a good text of the ConfigMap into the store. On a bad text it keeps the store
  -- and asks for another try in ten seconds; with no ConfigMap, or no text, it keeps the store and is
  -- content; on another error of the client it keeps the store and returns the error.
  pub reconcile-IsReconciled :
      (C : Client) (cluster : C.Cluster) (namespace name : String) (s : ConfigStore) (m : Metrics)
      → IsReconciled s m
          (C.get_config_map cluster namespace name)
          (reconcile C cluster namespace name s m)
  unfolding reconcile
  reconcile-IsReconciled C cluster namespace name s m =
      elim (Result-cases (C.get_config_map cluster namespace name)) [
        | inr (e, got) ↦ rw (got, reconcile) (reconcile_error-IsReconciled s m e)
        | inl (cm, got) ↦ rw (got, reconcile) (reconcile_data-IsReconciled s m cm)
      ]
