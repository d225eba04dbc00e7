-- ===== src/Manager.antt =====
-- What the program registers with controller-runtime's manager, in order. The manager is a
-- parameter: it answers each registration with an error or without, given those before it.
use mathlib.Core.List.{append_assoc, append-nil}
use tekton_kueue.Base.{
  String, Bool, ℕ, Option, none, some, List, [], ◌∷◌, ◌++◌, Error, Result, ok, err, ◌>>=◌,
  err-ne-ok, Option-cases, ◌≡◌, sym, ap, ◌∙◌, ◌↔◌, inl, inr,
}
use tekton_kueue.Webhook.Defaulter.{Object}

-- A `ConfigStore` behind a pointer is known by its address.
abbrev pub Address : Type 0
Address = ℕ

-- `admission.WithCustomDefaulter` with the webhook's defaulter, and the patch filter around a handler.
pub data Handler : Type 0 where
  custom_defaulter : Address → Handler
  patch_filtering : Handler → Handler

-- What a controller watches: the objects that its predicate lets pass.
pub data Watched : Type 0 where
  pipeline_runs : (Object → Bool) → Watched
  config_maps : (String → String → Bool) → Watched

-- What a controller calls: the pending-status reconciler, or the ConfigMap reconciler with its store.
pub data Reconciler : Type 0 where
  pending_status : Reconciler
  config_map : Address → Reconciler

pub data Registration (CertWatcher : Type 0) : Type 0 where
  -- Kueue's reconciler factory, with the name of the recorder of its events
  new_generic_reconciler : String → Registration CertWatcher
  -- that reconciler, with the name it is built with
  generic_reconciler : String → Registration CertWatcher
  -- `ctrl.NewControllerManagedBy(mgr).Named(…).For(…).Complete(…)`
  controller : String → Watched → Reconciler → Registration CertWatcher
  -- `jobframework.SetupWorkloadOwnerIndex` of a kind
  workload_owner_index : String → Registration CertWatcher
  -- a path of the webhook's server
  handler : String → Handler → Registration CertWatcher
  -- `mgr.Add`
  runnable : CertWatcher → Registration CertWatcher
  healthz_check readyz_check : String → Registration CertWatcher

pub record Manager (CertWatcher : Type 0) : Type 0 where
  pub answer : List (Registration CertWatcher) → Registration CertWatcher → Option Error
  pub start : List (Registration CertWatcher) → Option Error

ok-injective : {A : Type 0} {a b : A} → ok a ≡ ok b → a ≡ b
ok-injective h = cc

module _ {X : Type 0} (M : Manager X) where
  -- A call that registers `r` behind `done`.
  unfoldable pub register : Registration X → List (Registration X) → Result (List (Registration X))
  register r done = elim (M.answer done r) [ none ↦ ok (done ++ (r ∷ [])) | some e ↦ err e ]

  -- Such calls up to the first error.
  unfoldable pub register_all :
      List (Registration X) → List (Registration X) → Result (List (Registration X))
  register_all [] done = ok done
  register_all (r ∷ rs) done = register r done >>= register_all rs

  -- The manager accepts each of `rs` behind those before it and `done`.
  abbrev pub AreAccepted : List (Registration X) → List (Registration X) → Type 0
  AreAccepted done [] = Unit
  AreAccepted done (r ∷ rs) = (M.answer done r ≡ none) × AreAccepted (done ++ (r ∷ [])) rs

  register_accepted :
      (rs done : List (Registration X))
      → AreAccepted done rs
      → register_all rs done ≡ ok (done ++ rs)
  unfolding register_all register
  register_accepted [] done h = ap ok (sym (append-nil done))
  register_accepted (r ∷ rs) done (e, h) =
      rw (register, e)
        (register_accepted rs (done ++ (r ∷ [])) h ∙ ap ok (append_assoc done (r ∷ []) rs))

  registered-AreAccepted :
      (rs done all : List (Registration X)) → register_all rs done ≡ ok all → AreAccepted done rs
  unfolding register_all register
  registered-AreAccepted [] done all h = tt
  registered-AreAccepted (r ∷ rs) done all h = elim (Option-cases (M.answer done r)) [
    | inl e ↦ (e, registered-AreAccepted rs (done ++ (r ∷ [])) all (rw (register, e) at h))
    | inr (x, e) ↦ absurd (err-ne-ok (rw (register, e) at h))
  ]

  -- Registrations succeed exactly if the manager accepts each, and then they are all made, in order.
  pub register_all_iff :
      (rs done all : List (Registration X))
      → (register_all rs done ≡ ok all) ↔ (AreAccepted done rs × (all ≡ done ++ rs))
  register_all_iff rs done all = (
    λ h.
        let a : AreAccepted done rs = registered-AreAccepted rs done all h in
        (a, ok-injective (sym h ∙ register_accepted rs done a)),
    λ (a, e). register_accepted rs done a ∙ ap ok (sym e),
  )
