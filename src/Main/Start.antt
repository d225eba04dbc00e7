-- ===== src/Main/Start.antt =====
-- The `init` functions that Go runs before `main`: those of internal/cel/metrics.go and
-- internal/webhook/v1/metrics.go, in the order of the imports, and that of cmd/main.go, lines 58-69.
use mathlib.Core.Option.{bind}
use tekton_kueue.Base.{
  String, Option, none, some, List, Result, ok, err, Result-cases, err-ne-ok, ◌≡◌, ◌⊎◌, inl, inr,
  sym, ◌∙◌, refl,
}
use tekton_kueue.Metrics.Registry.{Counter, init_cel, init_webhook}
use tekton_kueue.Metrics.Free.{AreFree, init-IsRegistered}
use tekton_kueue.Webhook.ConfigStore.{Libraries}
use tekton_kueue.Mutate.{Files}
use tekton_kueue.Main.{Certificates}
use tekton_kueue.Main.Setup.{Host}
use tekton_kueue.Main.Flags.{FlagSet}
use tekton_kueue.Main.Flags.Defaults.{HasFlags}
use tekton_kueue.Main.Program.{Exit, crashed, run_program, IsExplained, run_program-IsExplained}

-- `runtime.NewScheme`, and what the `AddToScheme` of client-go, Kueue and Tekton do to a scheme.
pub record Schemes : Type 1 where
  pub Scheme : Type 0
  pub new_scheme : Scheme
  pub add_client_go : Scheme → Result Scheme
  pub add_kueue : Scheme → Result Scheme
  pub add_tekton : Scheme → Result Scheme

-- `utilruntime.Must`, which panics on an error
abbrev must {ℓ} : {A : Type ℓ} → Result A → Option A
must (err e) = none
must (ok value) = some value

module _ (S : Schemes) where
  -- The `init` of package main.
  unfoldable pub init_scheme : Option S.Scheme
  unfolding bind
  init_scheme =
      bind (must (S.add_client_go S.new_scheme))
        λ scheme. bind (must (S.add_kueue scheme)) λ scheme'. must (S.add_tekton scheme')

  -- The three libraries add their types.
  pub record AreAdded : Type 0 where
    pub with_client_go : S.Scheme
    pub with_kueue : S.Scheme
    pub with_tekton : S.Scheme
    pub client_go_added : S.add_client_go S.new_scheme ≡ ok with_client_go
    pub kueue_added : S.add_kueue with_client_go ≡ ok with_kueue
    pub tekton_added : S.add_tekton with_kueue ≡ ok with_tekton

  init_scheme-cases :
      (AreAdded × ((scheme : S.Scheme) × (init_scheme ≡ some scheme)))
      ⊎ ((¬ AreAdded) × (init_scheme ≡ none))
  unfolding init_scheme bind
  init_scheme-cases = elim (Result-cases (S.add_client_go S.new_scheme)) [
    | inr (e, p) ↦ inr (λ a. err-ne-ok (sym p ∙ a.client_go_added), rw p refl)
    | inl (s, p) ↦ elim (Result-cases (S.add_kueue s)) [
      | inr (e, q) ↦
          inr (λ a. let h = a.client_go_added in let k = a.kueue_added in cc, rw (p, q) refl)
      | inl (t, q) ↦ elim (Result-cases (S.add_tekton t)) [
        | inr (e, r) ↦ inr (
          λ a. let h = a.client_go_added in let k = a.kueue_added in let l = a.tekton_added in cc,
          rw (p, q, r) refl,
        )
        | inl (u, r) ↦ inl (
          record {
            with_client_go = s;
            with_kueue = t;
            with_tekton = u;
            client_go_added = p;
            kueue_added = q;
            tekton_added = r;
          },
          (u, rw (p, q, r) refl),
        )
      ]
    ]
  ]

module _ {W : Certificates} (H : Host W) (L : Libraries) (F : Files) (S : Schemes) where
  after_init : Option (List Counter) → Option S.Scheme → List String → Exit
  after_init none scheme args = crashed
  after_init (some registry) none args = crashed
  after_init (some registry) (some scheme) args = run_program H L F args

  -- The whole program on a registry of Prometheus that holds what the libraries registered.
  unfoldable pub start_program : List Counter → List String → Exit
  unfolding bind after_init
  start_program registry args =
      after_init (bind (init_cel registry) init_webhook) (init_scheme S) args

  -- If the libraries' flags have names of their own, the program panics exactly if the name of one of its
  -- counters is taken, or a library does not add its types to the scheme. Else it calls `os.Exit`, or
  -- `main` returns: then a server was started with all its registrations and its manager returned no
  -- error, or `mutate` has printed the text of the PipelineRun admitted under the configuration.
  pub start_program-IsExplained :
      (zap kube : FlagSet)
      → HasFlags H.flags zap kube
      → (registry : List Counter) (args : List String)
      → (AreFree registry × AreAdded S × IsExplained H L F args (start_program registry args))
        ⊎ ((¬ (AreFree registry × AreAdded S)) × (start_program registry args ≡ crashed))
  unfolding start_program after_init
  start_program-IsExplained zap kube h registry args = elim (init-IsRegistered registry) [
    | inr (taken, e) ↦ inr (λ (f, _). taken f, rw e refl)
    | inl (free, e) ↦ elim (init_scheme-cases S) [
      | inr (missing, p) ↦ inr (λ (_, a). missing a, rw (e, p) refl)
      | inl (added, (scheme, p)) ↦
          inl (free, added, rw (e, p) (run_program-IsExplained H L F zap kube h args))
    ]
  ]
