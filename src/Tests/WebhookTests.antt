-- ===== src/Tests/WebhookTests.antt =====
-- The theorems on internal/webhook, pkg/mutate and cmd at concrete configurations and objects.
use tekton_kueue.Base.{
  String, true, false, none, some, [], ◌∷◌, ok, ◌≡◌, ◌≢◌, refl, eq_iff, ◌↔◌, All, arith,
}
use tekton_kueue.Base.Int.{pos}
use tekton_kueue.Metrics.{no_metrics}
use tekton_kueue.Cel.Compiler.{compile_cel_programs}
use tekton_kueue.Webhook.ConfigStore.{ConfigStore, empty_store, build_mutators, update}
use tekton_kueue.Webhook.ConfigStore.Update.{
  IsGood, IsBad, IsUpdated, update-IsUpdated, run_updates, IsLatest, run_updates-IsLatest,
}
use tekton_kueue.Webhook.ConfigStore.Locking.{
  System, outside, locked, half_way, start, Reach, here, next, read_lock, lock, set_mutators,
  set_config, IsConsistent, readers-IsConsistent,
}
use tekton_kueue.Webhook.ConfigStore.Serial.{serial, begun, CanGoOn, Reach-IsSerial}
use tekton_kueue.Webhook.PatchFilter.{Response, filter_response, is_patch_allowed}
use tekton_kueue.Webhook.PatchFilter.Filter.{keep, expected, StartsWith, filter_response-IsFiltered}
use tekton_kueue.Webhook.Defaulter.Counters.{AreTallied, answer_all-AreTallied}
use tekton_kueue.Webhook.Defaulter.{pipeline_run, panicked, default}
use tekton_kueue.Webhook.Defaulter.Admit.{IsAnswered, default-IsHandled}
use tekton_kueue.Webhook.Defaulter.Effects.{IsAdmitted, default-IsAdmitted, default-panicked_iff}
use tekton_kueue.Mutate.{mutate_pipeline_run, IsRun, mutate_pipeline_run-IsRun}
use tekton_kueue.Main.{
  SharedFlags, WebhookFlags, disable_http2, watch_certificate, MetricsServerOptions, configured,
  get_tls_opts, get_metrics_server_options, get_webhook_server_options, IsDisabled,
  webhook-IsDisabled_iff,
}
use tekton_kueue.Tests.Toys.{libraries, config, store, plr, files, certificates}

store_built : build_mutators libraries ("a" ∷ []) ≡ ok store.mutators
unfolding build_mutators compile_cel_programs
store_built = refl

queue-ne-nil : config.queue_name ≢ ""
queue-ne-nil e = let clash : false ≡ true = (eq_iff "queue" "").1 e in cc

abbrev store_good : IsGood libraries "text" store
store_good = (config, refl, queue-ne-nil, store_built, refl)

default-IsAdmitted_example :
    IsAdmitted libraries config plr no_metrics (default store (pipeline_run plr) no_metrics)
default-IsAdmitted_example = default-IsAdmitted libraries store "text" plr no_metrics store_good

default-IsHandled_example : IsAnswered config plr (default store (pipeline_run plr) no_metrics)
default-IsHandled_example = default-IsHandled libraries store "text" plr no_metrics store_good

default-panicked_iff_example :
    (default (run_updates libraries empty_store [] no_metrics) (pipeline_run plr) no_metrics
      ≡ panicked)
    ↔ All (IsBad libraries) []
default-panicked_iff_example = default-panicked_iff libraries [] no_metrics no_metrics plr

update-IsUpdated_example :
    IsUpdated libraries empty_store "text" no_metrics
      (update libraries empty_store "text" no_metrics)
update-IsUpdated_example = update-IsUpdated libraries empty_store "text" no_metrics

run_updates-IsLatest_example :
    IsLatest libraries empty_store
      ("one" ∷ "two" ∷ [])
      (run_updates libraries empty_store ("one" ∷ "two" ∷ []) no_metrics)
run_updates-IsLatest_example =
    run_updates-IsLatest libraries empty_store ("one" ∷ "two" ∷ []) no_metrics

abbrev reading : System
reading = record { store = empty_store; writer = outside; readers = 1 }

abbrev one_reader : Reach libraries start reading
one_reader = next here (read_lock refl refl)

readers-IsConsistent_example : IsConsistent libraries reading.store × (reading.writer ≡ outside)
readers-IsConsistent_example = readers-IsConsistent libraries reading one_reader (omega arith)

-- One update, from its lock to its return.
abbrev taken_up : System
taken_up = record { store = empty_store; writer = locked "text" no_metrics; readers = 0 }

abbrev updated_store : ConfigStore
updated_store = (update libraries empty_store "text" no_metrics).store

abbrev in_between : System
in_between = record {
  store = record { config = none; mutators = updated_store.mutators };
  writer = half_way "text" updated_store;
  readers = 0;
}

abbrev updated : System
updated = record { store = updated_store; writer = outside; readers = 0 }

text_taken : (update libraries empty_store "text" no_metrics).error ≡ none
unfolding update build_mutators compile_cel_programs
text_taken = refl

abbrev one_update : Reach libraries start updated
one_update =
    next {y = in_between}
      (next {y = taken_up} (next here (lock "text" no_metrics refl refl refl))
        (set_mutators "text" no_metrics refl text_taken refl))
      (set_config "text" updated_store refl refl)

Reach-IsSerial_example :
    (updated.writer ≡ outside → updated.store ≡ serial libraries (begun libraries one_update))
    × (updated.writer ≢ outside → CanGoOn libraries updated)
Reach-IsSerial_example = Reach-IsSerial libraries one_update

abbrev response : Response
response = record {
  patches =
      record { operation = "add"; path = "/metadata/labels/a"; value = "1" }
      ∷ record { operation = "add"; path = "/spec/timeouts"; value = "2" }
      ∷ [];
  patch_type = some "JSONPatch";
  patch = none;
  rest = "";
}

filter_response-IsFiltered_example :
    (filter_response response ≡ expected response response.patches (keep response.patches))
    × ((path : String)
        → (is_patch_allowed path ≡ true)
          ↔ StartsWith
              ("/metadata/labels" ∷ "/metadata/annotations" ∷ "/spec/status" ∷ "/spec/managedBy"
                ∷ [])
              path)
filter_response-IsFiltered_example = filter_response-IsFiltered response

answer_all-AreTallied_example :
    AreTallied libraries store "text" store_good (plr ∷ plr ∷ []) no_metrics
answer_all-AreTallied_example =
    answer_all-AreTallied libraries store "text" store_good (plr ∷ plr ∷ []) no_metrics

mutate_pipeline_run-IsRun_example :
    IsRun libraries files "run.yaml" "dir"
      (mutate_pipeline_run libraries files "run.yaml" "dir" no_metrics)
mutate_pipeline_run-IsRun_example =
    mutate_pipeline_run-IsRun libraries files "run.yaml" "dir" no_metrics

abbrev flags : SharedFlags
flags = record {
  config_dir = "";
  metrics_addr = ":8443";
  metrics_cert_path = "dir";
  metrics_cert_name = "tls.crt";
  metrics_cert_key = "tls.key";
  secure_metrics = true;
  probe_addr = ":8081";
  enable_http2 = false;
  qps = 0;
  burst = pos 0;
}

abbrev metrics_options : MetricsServerOptions certificates
metrics_options = record {
  bind_address = ":8443";
  secure_serving = true;
  tls_opts = disable_http2 ∷ watch_certificate "tls.crt" ∷ [];
  with_authentication = true;
}

metrics_configured :
    get_metrics_server_options certificates flags (get_tls_opts certificates flags)
    ≡ configured metrics_options (some "tls.crt")
unfolding get_metrics_server_options get_tls_opts
metrics_configured = refl

abbrev webhook_flags : WebhookFlags
webhook_flags = record {
  webhook_cert_path = "";
  webhook_cert_name = "tls.crt";
  webhook_cert_key = "tls.key";
}

webhook_configured :
    get_webhook_server_options certificates webhook_flags (get_tls_opts certificates flags)
    ≡ configured [] none
unfolding get_webhook_server_options
webhook_configured = refl

webhook-IsDisabled_iff_example :
    IsDisabled certificates []
    ↔ ((flags.enable_http2 ≡ false) × (webhook_flags.webhook_cert_path ≢ ""))
webhook-IsDisabled_iff_example =
    webhook-IsDisabled_iff certificates flags webhook_flags [] none webhook_configured
