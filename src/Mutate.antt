-- ===== src/Mutate.antt =====
-- pkg/mutate/mutate.go: the `mutate` command, which runs the webhook's defaulter on a file.
use mathlib.Core.Path.{subst}
use tekton_kueue.Base.{
  eq_iff, String, none, some, [], ◌∷◌, ◌==◌, Error, errorf, wrap, Result, ok, err, ◌>>=◌, >>=-eq-ok,
  if◌then◌else◌, ◌≡◌, refl, sym, ap, ◌∙◌, inl, inr, Result-cases, Bool-cases, err-ne-ok,
}
use tekton_kueue.Tekton.{PipelineRun}
use tekton_kueue.Cel.Compiler.{map_err}
use tekton_kueue.Metrics.{Metrics, record_reload_success}
use tekton_kueue.Webhook.ConfigStore.{ConfigStore, Libraries, empty_store, Updated, update}
use tekton_kueue.Webhook.ConfigStore.Update.{IsGood, IsBad, kept, swapped, update-IsUpdated}
use tekton_kueue.Webhook.Defaulter.{
  Object, pipeline_run, other_object, Defaulted, panicked, returned, default,
}
use tekton_kueue.Webhook.Defaulter.Admit.{IsAnswered, default-IsHandled}
use tekton_kueue.Webhook.Defaulter.Effects.{IsAdmitted, default-IsAdmitted}

-- `os.ReadFile`, `path.Join`, and YAML to a PipelineRun and from an object.
pub record Files : Type 0 where
  pub read_file : String → Result String
  pub path_join : String → String → String
  pub unmarshal_pipeline_run : String → Result PipelineRun
  pub marshal : Object → Result String

-- A call of `MutatePipelineRun` panics, or leaves a text or an error.
pub data Mutated : Type 0 where
  crashed : Mutated
  completed : Result String → Mutated

module _ (L : Libraries) (F : Files) where
  loaded_store : Updated → Result (ConfigStore × Metrics)
  loaded_store u = elim u.error [
    | some e ↦ err (wrap "failed to update config: %w" [] e)
    | none ↦ ok (u.store, u.metrics)
  ]

  -- The store is new, so with an error nothing of it is left.
  unfoldable pub load_defaulter : String → Metrics → Result (ConfigStore × Metrics)
  unfolding loaded_store
  load_defaulter config_dir m =
      if config_dir == ""
      then err (errorf "configDir cannot be empty" [])
      else (let config_path = F.path_join config_dir "config.yaml" in
          map_err (wrap "failed to read config file %q: %w" (config_path ∷ []))
            (F.read_file config_path)
          >>= λ data_. loaded_store (update L empty_store data_ m))

  -- What follows the call of the defaulter.
  marshalled : Defaulted → Mutated
  marshalled panicked = crashed
  marshalled (returned object m (some e)) =
      completed (err (wrap "failed to apply mutation to PipelineRun: %w" [] e))
  marshalled (returned object m none) =
      completed
        (map_err (wrap "failed to marshal mutated PipelineRun to YAML: %w" []) (F.marshal object))

  -- `NewCustomDefaulter` returns no error.
  default_loaded : PipelineRun → Result (ConfigStore × Metrics) → Mutated
  unfolding marshalled
  default_loaded plr (err e) = completed (err e)
  default_loaded plr (ok (store, m)) = marshalled (default store (pipeline_run plr) m)

  read_pipeline_run : String → Result PipelineRun
  read_pipeline_run file =
      map_err (wrap "failed to read PipelineRun file %q: %w" (file ∷ [])) (F.read_file file)
      >>= λ content.
          map_err (wrap "failed to parse PipelineRun YAML: %w" [])
            (F.unmarshal_pipeline_run content)

  mutate_parsed : String → Metrics → Result PipelineRun → Mutated
  unfolding default_loaded
  mutate_parsed config_dir m (err e) = completed (err e)
  mutate_parsed config_dir m (ok plr) = default_loaded plr (load_defaulter config_dir m)

  unfoldable pub mutate_pipeline_run : String → String → Metrics → Mutated
  unfolding mutate_parsed read_pipeline_run
  mutate_pipeline_run pipeline_run_file config_dir m =
      if pipeline_run_file == ""
      then completed (err (errorf "pipelineRunFile cannot be empty" []))
      else if config_dir == ""
      then completed (err (errorf "configDir cannot be empty" []))
      else mutate_parsed config_dir m (read_pipeline_run pipeline_run_file)

  map_err-ok {ℓ} :
      {A : Type ℓ} (f : Error → Error) (r : Result A) (a : A) → map_err f r ≡ ok a → r ≡ ok a
  map_err-ok f (ok b) a h = h
  map_err-ok f (err e) a h = absurd (err-ne-ok h)

  loaded_store-IsGood :
      (raw : String) (m : Metrics) (s : ConfigStore) (m' : Metrics)
      → loaded_store (update L empty_store raw m) ≡ ok (s, m')
      → IsGood L raw s
  unfolding loaded_store
  loaded_store-IsGood raw m s m' h = elim (update-IsUpdated L empty_store raw m) [
    | kept e bad same ↦ absurd (err-ne-ok (rw (same, loaded_store) at h))
    | swapped t good same ↦
        let loaded : ◌≡◌ {A = Result (ConfigStore × Metrics)} (ok (t, record_reload_success m))
            (ok (s, m')) =
          sym (ap loaded_store same) ∙ h in
        subst (IsGood L raw) (cc) good
  ]

  -- A store that was loaded is that of a good text of the configuration's file.
  load_defaulter-IsGood :
      (dir : String) (m : Metrics) (s : ConfigStore) (m' : Metrics)
      → load_defaulter dir m ≡ ok (s, m')
      → (raw : String) × (F.read_file (F.path_join dir "config.yaml") ≡ ok raw) × IsGood L raw s
  unfolding load_defaulter
  load_defaulter-IsGood dir m s m' h = elim (Bool-cases (dir == "")) [
    | inl e ↦ absurd (err-ne-ok (rw (e, load_defaulter) at h))
    | inr e ↦
        let path = F.path_join dir "config.yaml" in
        let (raw, read, loaded) =
          >>=-eq-ok
            (map_err (wrap "failed to read config file %q: %w" (path ∷ [])) (F.read_file path)) _
            (rw (e, load_defaulter) at h) in
        (raw, map_err-ok _ _ raw read, loaded_store-IsGood raw m s m' loaded)
  ]

  read_pipeline_run-ok :
      (file : String) (plr : PipelineRun)
      → read_pipeline_run file ≡ ok plr
      → (content : String) × (F.read_file file ≡ ok content)
        × (F.unmarshal_pipeline_run content ≡ ok plr)
  unfolding read_pipeline_run
  read_pipeline_run-ok file plr h =
      let (content, read, parsed) =
        >>=-eq-ok
          (map_err (wrap "failed to read PipelineRun file %q: %w" (file ∷ [])) (F.read_file file)) _
          h in
      (content, map_err-ok _ _ content read, map_err-ok _ _ plr parsed)

  -- The file holds this PipelineRun.
  abbrev pub IsRead : String → PipelineRun → Type 0
  IsRead file plr =
      (content : String) × (F.read_file file ≡ ok content)
      × (F.unmarshal_pipeline_run content ≡ ok plr)

  -- The reasons for an error of a call: a file that is not named, not read or not parsed, a bad
  -- configuration, an error of the defaulter, or a PipelineRun that cannot be written.
  pub data IsRefused (file dir : String) : Type 0 where
    no_file : file ≡ "" → IsRefused file dir
    no_dir : dir ≡ "" → IsRefused file dir
    unread : (e : Error) → F.read_file file ≡ err e → IsRefused file dir
    unparsed :
        (content : String) (e : Error)
        → F.read_file file ≡ ok content
        → F.unmarshal_pipeline_run content ≡ err e
        → IsRefused file dir
    no_config :
        (e : Error) → F.read_file (F.path_join dir "config.yaml") ≡ err e → IsRefused file dir
    bad_config :
        (raw : String)
        → F.read_file (F.path_join dir "config.yaml") ≡ ok raw
        → IsBad L raw
        → IsRefused file dir
    not_admitted :
        (plr : PipelineRun) (raw : String) (s : ConfigStore) (m m' : Metrics) (object : Object)
        (e : Error)
        → IsRead file plr
        → F.read_file (F.path_join dir "config.yaml") ≡ ok raw
        → IsGood L raw s
        → default s (pipeline_run plr) m ≡ returned object m' (some e)
        → IsRefused file dir
    unwritten :
        (plr plr' : PipelineRun) (raw : String) (s : ConfigStore) (m m' : Metrics) (e : Error)
        → IsRead file plr
        → F.read_file (F.path_join dir "config.yaml") ≡ ok raw
        → IsGood L raw s
        → default s (pipeline_run plr) m ≡ returned (pipeline_run plr') m' none
        → F.marshal (pipeline_run plr') ≡ err e
        → IsRefused file dir

  load_defaulter-IsRefused :
      (file dir : String) (m : Metrics) (e : Error)
      → load_defaulter dir m ≡ err e
      → IsRefused file dir
  unfolding load_defaulter loaded_store
  load_defaulter-IsRefused file dir m e h = elim (Bool-cases (dir == "")) [
    | inl f ↦ no_dir ((eq_iff dir "").0 f)
    | inr f ↦ elim (Result-cases (F.read_file (F.path_join dir "config.yaml"))) [
      | inr (x, got) ↦ no_config x got
      | inl (raw, got) ↦ elim (update-IsUpdated L empty_store raw m) [
        | kept x bad same ↦ bad_config raw got bad
        | swapped t good same ↦
            absurd (err-ne-ok (sym (rw (f, got, same, load_defaulter, loaded_store) at h)))
      ]
    ]
  ]

  read_pipeline_run-IsRefused :
      (file dir : String) (e : Error) → read_pipeline_run file ≡ err e → IsRefused file dir
  unfolding read_pipeline_run
  read_pipeline_run-IsRefused file dir e h = elim (Result-cases (F.read_file file)) [
    | inr (x, got) ↦ unread x got
    | inl (content, got) ↦ elim (Result-cases (F.unmarshal_pipeline_run content)) [
      | inr (x, f) ↦ unparsed content x got f
      | inl (plr, f) ↦ absurd (err-ne-ok (sym (rw (got, f, read_pipeline_run) at h)))
    ]
  ]

  -- What a call that completes has done: with an error there is a reason, with a text the whole work.
  abbrev pub IsRun : String → String → Mutated → Type 0
  IsRun file dir crashed = ⊥
  IsRun file dir (completed (err e)) = IsRefused file dir
  IsRun file dir (completed (ok text)) =
      (plr : PipelineRun) × IsRead file plr
      × ((raw : String) × (F.read_file (F.path_join dir "config.yaml") ≡ ok raw)
          × ((s : ConfigStore) × (good : IsGood L raw s) × (plr' : PipelineRun) × (m : Metrics)
              × (m' : Metrics) × IsAdmitted L good.0 plr m (returned (pipeline_run plr') m' none)
              × (F.marshal (pipeline_run plr') ≡ ok text)))

  marshalled-IsRun :
      (file dir : String) (plr : PipelineRun)
      → ((content : String) × (F.read_file file ≡ ok content)
          × (F.unmarshal_pipeline_run content ≡ ok plr))
      → (raw : String) → F.read_file (F.path_join dir "config.yaml") ≡ ok raw
      → (s : ConfigStore) (good : IsGood L raw s) (m : Metrics) (x : Defaulted)
      → default s (pipeline_run plr) m ≡ x
      → IsAnswered good.0 plr x
      → IsAdmitted L good.0 plr m x
      → IsRun file dir (marshalled x)
  unfolding marshalled
  marshalled-IsRun file dir plr read raw config s good m panicked same handled admitted = handled.2
  marshalled-IsRun file dir plr read raw config s good m (returned (other_object type) m' e) same
        handled admitted =
      absurd (handled.2)
  marshalled-IsRun file dir plr read raw config s good m (returned (pipeline_run plr') m' (some e))
        same handled admitted =
      not_admitted plr raw s m m' (pipeline_run plr') e read config good same
  marshalled-IsRun file dir plr read raw config s good m (returned (pipeline_run plr') m' none) same
        handled admitted =
      elim (Result-cases (F.marshal (pipeline_run plr'))) [
        | inl (text, e) ↦
            rw (e, map_err) (plr, read, (raw, config, (s, good, plr', m, m', admitted, e)))
        | inr (x, e) ↦ rw (e, map_err) (unwritten plr plr' raw s m m' x read config good same e)
      ]

  default_loaded-IsRun :
      (file dir : String) (plr : PipelineRun) (m : Metrics)
      → ((content : String) × (F.read_file file ≡ ok content)
          × (F.unmarshal_pipeline_run content ≡ ok plr))
      → (x : Result (ConfigStore × Metrics)) → load_defaulter dir m ≡ x
      → IsRun file dir (default_loaded plr x)
  unfolding default_loaded
  default_loaded-IsRun file dir plr m read (err e) h = load_defaulter-IsRefused file dir m e h
  default_loaded-IsRun file dir plr m read (ok (s, m')) h =
      let (raw, config, good) = load_defaulter-IsGood dir m s m' h in
      marshalled-IsRun file dir plr read raw config s good m' _ refl
        (default-IsHandled L s raw plr m' good) (default-IsAdmitted L s raw plr m' good)

  mutate_parsed-IsRun :
      (file dir : String) (m : Metrics) (x : Result PipelineRun)
      → read_pipeline_run file ≡ x
      → IsRun file dir (mutate_parsed dir m x)
  unfolding mutate_parsed
  mutate_parsed-IsRun file dir m (err e) h = read_pipeline_run-IsRefused file dir e h
  mutate_parsed-IsRun file dir m (ok plr) h =
      default_loaded-IsRun file dir plr m (read_pipeline_run-ok file plr h) _ refl

  -- The command never panics. If it writes a text, that is the text of the PipelineRun that the file
  -- holds, with the webhook's defaults and then the mutations under a good configuration from the
  -- directory's file, and with nothing else changed. If it returns an error, there is a reason: a name
  -- that is empty, a file that is not read or parsed, a bad configuration, an error of the defaulter on
  -- that PipelineRun, or an error of writing what the defaulter admitted.
  pub mutate_pipeline_run-IsRun :
      (file dir : String) (m : Metrics) → IsRun file dir (mutate_pipeline_run file dir m)
  unfolding mutate_pipeline_run
  mutate_pipeline_run-IsRun file dir m = elim (Bool-cases (file == "")) [
    | inl e ↦ rw (e, mutate_pipeline_run) (no_file ((eq_iff file "").0 e))
    | inr e ↦ elim (Bool-cases (dir == "")) [
      | inl f ↦ rw (e, f, mutate_pipeline_run) (no_dir ((eq_iff dir "").0 f))
      | inr f ↦ rw (e, f, mutate_pipeline_run) (mutate_parsed-IsRun file dir m _ refl)
    ]
  ]
