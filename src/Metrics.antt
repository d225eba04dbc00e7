-- ===== src/Metrics.antt =====
-- The counters of internal/cel/metrics.go and internal/webhook/v1/metrics.go, and calls that may
-- fail and that count on the way.
pub mod Registry
pub mod Free
use tekton_kueue.Base.{ℕ, suc, Error, Result, ok, err}

pub record Metrics : Type 0 where
  pub evaluation_success : ℕ
  pub evaluation_failure : ℕ
  pub mutation_success : ℕ
  pub mutation_failure : ℕ
  pub reload_success : ℕ
  pub reload_failure : ℕ

abbrev pub no_metrics : Metrics
no_metrics = record {
  evaluation_success = 0;
  evaluation_failure = 0;
  mutation_success = 0;
  mutation_failure = 0;
  reload_success = 0;
  reload_failure = 0;
}

abbrev pub record_evaluation_failure : Metrics → Metrics
record_evaluation_failure m = record m { evaluation_failure = suc m.evaluation_failure }

abbrev pub record_evaluation_success : Metrics → Metrics
record_evaluation_success m = record m { evaluation_success = suc m.evaluation_success }

abbrev pub record_mutation_failure : Metrics → Metrics
record_mutation_failure m = record m { mutation_failure = suc m.mutation_failure }

abbrev pub record_mutation_success : Metrics → Metrics
record_mutation_success m = record m { mutation_success = suc m.mutation_success }

abbrev pub record_reload_failure : Metrics → Metrics
record_reload_failure m = record m { reload_failure = suc m.reload_failure }

abbrev pub record_reload_success : Metrics → Metrics
record_reload_success m = record m { reload_success = suc m.reload_success }

abbrev pub Counted {ℓ} : Type ℓ → Type ℓ
Counted A = Metrics → Result A × Metrics

abbrev pub return {ℓ} : {A : Type ℓ} → A → Counted A
return a m = (ok a, m)

abbrev pub fail {ℓ} : {A : Type ℓ} → Error → Counted A
fail e m = (err e, m)

-- Counts by `record_…`, and goes on.
abbrev pub counting {ℓ} : {A : Type ℓ} → (Metrics → Metrics) → Counted A → Counted A
counting f k m = k (f m)

abbrev pub continue {ℓ κ} :
    {A : Type ℓ} {B : Type κ} → Result A × Metrics → (A → Counted B) → Result B × Metrics
continue (ok a, m) f = f a m
continue (err e, m) f = (err e, m)

-- The bind of counted calls, beside the one of `Result`.
infixl 5 ◌▹◌
abbrev pub ◌▹◌ {ℓ κ} : {A : Type ℓ} {B : Type κ} → Counted A → (A → Counted B) → Counted B
◌▹◌ m f s = continue (m s) f
