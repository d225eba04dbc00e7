-- ===== src/Controller/Setup.antt =====
-- internal/controller: the registrations of the three controllers and of the field index.
use tekton_kueue.Base.{String, List, Result, ◌>>=◌}
use tekton_kueue.Manager.{
  Address, Manager, Registration, new_generic_reconciler, generic_reconciler, controller,
  workload_owner_index, pipeline_runs, config_maps, pending_status, config_map, register,
}
use tekton_kueue.Controller.Status.{needs_pending_status_condition}
use tekton_kueue.Controller.ConfigMap.{is_watched, get_current_namespace}

module _ {X : Type 0} (M : Manager X) where
  -- `SetupWithManager` of the PipelineRuns as Kueue's jobs
  unfoldable pub setup_with_manager : List (Registration X) → Result (List (Registration X))
  setup_with_manager done = do
    made ← register M (new_generic_reconciler "kueue-plr") done
    register M (generic_reconciler "PipelineRunWorkloads") made

  unfoldable pub setup_pending_status_with_manager :
      List (Registration X) → Result (List (Registration X))
  setup_pending_status_with_manager done =
      register M
        (controller "PipelineRunStatus" (pipeline_runs needs_pending_status_condition)
          pending_status)
        done

  unfoldable pub setup_indexer : List (Registration X) → Result (List (Registration X))
  setup_indexer done = register M (workload_owner_index "PipelineRun") done

  -- `SetupWithManager` of the ConfigMap reconciler with the store behind `store`
  unfoldable pub setup_config_map_with_manager :
      (String → Result String)
      → (String → String)
      → Address
      → List (Registration X)
      → Result (List (Registration X))
  setup_config_map_with_manager read_file trim_space store done = do
    namespace ← get_current_namespace read_file trim_space
    register M (controller "webhook-config" (config_maps (is_watched namespace)) (config_map store))
        done
