-- ===== src/Controller/ConfigMap/Serving.antt =====
-- From the ConfigMap to the admissions: the reconciler and the defaulter on one store.
use tekton_kueue.Base.{String, [], Dict, lookup, ok, some, ◌≡◌}
use tekton_kueue.Tekton.{PipelineRun, config_key}
use tekton_kueue.Metrics.{Metrics}
use tekton_kueue.Webhook.ConfigStore.{Config, ConfigStore, Libraries, parse_config}
use tekton_kueue.Webhook.Defaulter.{default, pipeline_run}
use tekton_kueue.Webhook.Defaulter.Admit.{IsAnswered, default-IsHandled}
use tekton_kueue.Webhook.Defaulter.Effects.{IsAdmitted, default-IsAdmitted}
use tekton_kueue.Controller.Job.{Client}
use tekton_kueue.Controller.ConfigMap.Convergence.{
  Watching, current, IsSettled, Reach, Reach-IsSettled,
}

module _ (L : Libraries) where
  -- Every admission under the store follows the configuration of the text.
  abbrev pub IsServed : String → ConfigStore → Type 0
  IsServed raw s =
      (cfg : Config) × (parse_config L raw ≡ ok cfg)
      × ((plr : PipelineRun) (m : Metrics)
          → IsAnswered cfg plr (default s (pipeline_run plr) m)
            × IsAdmitted L cfg plr m (default s (pipeline_run plr) m))

  -- If at first all queued requests are for the ConfigMap of the webhook, and one is queued or the store
  -- is that of its text, if there is one, then after any edits of ConfigMaps and any reconciles that
  -- leave nothing queued, with a text in the ConfigMap of the webhook: this text is a configuration, and
  -- every admission is handled under it, with no panic, and with its defaults and mutations, and nothing
  -- else changed, when the PipelineRun is admitted.
  pub Reach-IsServed :
      (C : Client) (namespace : String) (w v : Watching L C namespace) (cm : Dict String)
      (raw : String)
      → IsSettled L C namespace w
      → Reach L C namespace w v
      → current L C namespace v ≡ ok cm
      → lookup cm config_key ≡ some raw
      → v.queue ≡ []
      → IsServed raw v.store
  Reach-IsServed C namespace w v cm raw settled reach got text idle =
      let good = (Reach-IsSettled L C namespace w v settled reach).1 idle cm raw got text in
      (
        good.0,
        good.1,
        λ plr m. (
          default-IsHandled L v.store raw plr m good,
          default-IsAdmitted L v.store raw plr m good,
        ),
      )
