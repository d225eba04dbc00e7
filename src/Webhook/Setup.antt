-- ===== src/Webhook/Setup.antt =====
-- internal/webhook/v1/pipelinerun_webhook.go, lines 39-53 and 101-127: the registration of the webhook,
-- and the values that its log lines carry.
use tekton_kueue.Base.{
  String, Option, none, some, List, [], ◌∷◌, ◌++◌, ◌==◌, Result, ok, err, if◌then◌else◌, ◌≡◌, refl,
}
use tekton_kueue.Manager.{
  Address, Handler, custom_defaulter, patch_filtering, Registration, handler,
}

-- `NewCustomDefaulter`
abbrev pub new_custom_defaulter : Address → Result Handler
new_custom_defaulter store = ok (custom_defaulter store)

-- `Register` of the webhook's server returns no error.
unfoldable pub setup_pipeline_run_webhook_with_manager :
    {X : Type 0} → Handler → List (Registration X) → Result (List (Registration X))
setup_pipeline_run_webhook_with_manager defaulter done =
    ok (done ++ (handler "/mutate-tekton-dev-v1-pipelinerun" (patch_filtering defaulter) ∷ []))

-- The parts of an `admission.Request` that are logged; `object_names` are the name and the generate
-- name that `meta.Accessor` finds.
pub record Request : Type 0 where
  pub namespace : String
  pub name : String
  pub resource : String
  pub username : String
  pub uid : String
  pub object_names : Result (String × String)

-- Tekton's group and kind of a PipelineRun, its scheme's group, and `klog.KRef`.
pub record LogLibraries : Type 0 where
  pub gvk_group : String
  pub gvk_kind : String
  pub scheme_group : String
  pub k_ref : String → String → String

-- A logger is known by its values, the last ones at the end.
abbrev pub Logger : Type 0
Logger = List (String × String)

module _ (K : LogLibraries) where
  with_generate_name : Result (String × String) → Logger → Logger
  with_generate_name (err e) log = log
  with_generate_name (ok (name, generate_name)) log =
      if name == "" then log ++ (("generateName", generate_name) ∷ []) else log

  unfoldable pub log_constructor : Logger → Option Request → Logger
  unfolding with_generate_name
  log_constructor base none =
      base ++ (("webhookGroup", K.gvk_group) ∷ ("webhookKind", K.gvk_kind) ∷ [])
  log_constructor base (some req) = with_generate_name req.object_names (
      (base ++ (("webhookGroup", K.gvk_group) ∷ ("webhookKind", K.gvk_kind) ∷ []))
      ++ (("webhookGroup", K.scheme_group)
          ∷ ("webhookKind", K.gvk_kind)
          ∷ (K.gvk_kind, K.k_ref req.namespace req.name)
          ∷ ("namespace", req.namespace)
          ∷ ("name", req.name)
          ∷ ("resource", req.resource)
          ∷ ("user", req.username)
          ∷ ("requestID", req.uid)
          ∷ []))

abbrev unnamed : Request
unnamed = record {
  namespace = "ns";
  name = "";
  resource = "pipelineruns";
  username = "user";
  uid = "1";
  object_names = ok ("", "run-");
}

abbrev tekton : LogLibraries
tekton = record {
  gvk_group = "tekton.dev";
  gvk_kind = "PipelineRun";
  scheme_group = "tekton.dev";
  k_ref = λ namespace name. namespace;
}

abbrev kind_values : Logger
kind_values = ("webhookGroup", "tekton.dev") ∷ ("webhookKind", "PipelineRun") ∷ []

-- Of an object with no name the generate name is logged, and of no request the kind alone.
tests :
    (log_constructor tekton [] none ≡ kind_values)
    × (log_constructor tekton [] (some unnamed)
        ≡ kind_values
          ++ (kind_values
              ++ (("PipelineRun", "ns")
                  ∷ ("namespace", "ns")
                  ∷ ("name", "")
                  ∷ ("resource", "pipelineruns")
                  ∷ ("user", "user")
                  ∷ ("requestID", "1")
                  ∷ ("generateName", "run-")
                  ∷ [])))
unfolding log_constructor
tests = (refl, refl)
