-- ===== src/Controller/Status/Effects.antt =====
-- What one reconcile of the pending status does, and what it leaves to a client that reads from a cache.
use mathlib.Core.Path.{subst}
use tekton_kueue.Base.{
  String, Bool-cases, ◌==◌, some-ne-none, Option, none, some, Option-cases, Error, not_found, err,
  Result-cases, ok, eq_iff, ◌≡◌, ◌≢◌, refl, sym, ap, ◌∙◌, ◌⊎◌, inl, inr, arith,
}
use tekton_kueue.Tekton.{Condition, PipelineRun, status_pending, managed_by_multi_kueue_label}
use tekton_kueue.Controller.Queue.{Request}
use tekton_kueue.Controller.Job.{Tekton, Client, condition_succeeded}
use tekton_kueue.Controller.Status.{
  is_managed, is_managed_iff, ignore_not_found, pending_condition, reconcile_unset, reconcile_found,
  reconcile,
}

-- The documented behaviour of the status: a condition that was set is there, and setting one leaves the
-- names.
pub record IsFaithful (T : Tekton) : Type 0 where
  pub set_is_get :
      (plr : PipelineRun) (c : Condition) → T.get_condition (T.set_condition plr c) c.type ≡ some c
  pub set_keeps_name :
      (plr : PipelineRun) (c : Condition)
      → ((T.set_condition plr c).name ≡ plr.name)
        × ((T.set_condition plr c).namespace ≡ plr.namespace)

-- One of MultiKueue's that is pending, without a condition.
pub record IsLacking (T : Tekton) (plr : PipelineRun) : Type 0 where
  pub managed : plr.managed_by ≡ some managed_by_multi_kueue_label
  pub pending : plr.spec_status ≡ status_pending
  pub unset : T.get_condition plr condition_succeeded ≡ none

module _ (T : Tekton) (C : Client) where
  -- The documented behaviour of the manager's client: it reads from a cache, which only the events of
  -- the watch change, and it writes to the API server. `IsDue` says that the server has made an event of a
  -- PipelineRun that the cache has not seen. Behind an update that is accepted the server has the
  -- condition that was written, so that an event is due if the cache has another condition.
  pub record IsCaching (IsDue : C.Cluster → Request → Type 0) : Type 0 where
    pub got_is_named :
        (cluster : C.Cluster) (namespace name : String) (plr : PipelineRun)
        → C.get_pipeline_run cluster namespace name ≡ ok plr
        → (plr.namespace ≡ namespace) × (plr.name ≡ name)
    pub reads_are_kept :
        (written : PipelineRun) (cluster : C.Cluster) (namespace name : String)
        → C.get_pipeline_run (C.update_status written cluster).0 namespace name
          ≡ C.get_pipeline_run cluster namespace name
    pub due_is_kept :
        (written : PipelineRun) (cluster : C.Cluster) (r : Request)
        → IsDue cluster r
        → IsDue (C.update_status written cluster).0 r
    pub update_is_due :
        (cluster : C.Cluster) (plr written : PipelineRun)
        → C.get_pipeline_run cluster written.namespace written.name ≡ ok plr
        → T.get_condition written condition_succeeded ≢ T.get_condition plr condition_succeeded
        → (C.update_status written cluster).1 ≡ none
        → IsDue (C.update_status written cluster).0 (written.namespace, written.name)

  -- What a call of `Reconcile` does, for what the client returns.
  pub data IsReconciled (namespace name : String) (cluster : C.Cluster)
      (x : C.Cluster × Option Error) : Type 0 where
    gone :
        (message : String)
        → C.get_pipeline_run cluster namespace name ≡ err (not_found message)
        → x ≡ (cluster, none)
        → IsReconciled namespace name cluster x
    unread :
        (e : Error)
        → C.get_pipeline_run cluster namespace name ≡ err e
        → ((message : String) → e ≢ not_found message)
        → x ≡ (cluster, some e)
        → IsReconciled namespace name cluster x
    left :
        (plr : PipelineRun)
        → C.get_pipeline_run cluster namespace name ≡ ok plr
        → ¬ IsLacking T plr
        → x ≡ (cluster, none)
        → IsReconciled namespace name cluster x
    wrote :
        (plr : PipelineRun)
        → C.get_pipeline_run cluster namespace name ≡ ok plr
        → IsLacking T plr
        → x ≡ C.update_status (T.set_condition plr pending_condition) cluster
        → IsReconciled namespace name cluster x

  IsLacking-cases :
      (plr : PipelineRun)
      → (IsLacking T plr
          × ((cluster : C.Cluster)
              → reconcile_found T C plr cluster
                ≡ C.update_status (T.set_condition plr pending_condition) cluster))
        ⊎ ((¬ IsLacking T plr)
            × ((cluster : C.Cluster) → reconcile_found T C plr cluster ≡ (cluster, none)))
  unfolding reconcile_found reconcile_unset
  IsLacking-cases plr = elim (Bool-cases (is_managed plr.managed_by)) [
    | inr e ↦ inr (λ h. ground (arith, is_managed_iff plr.managed_by, h.managed), λ c. rw e refl)
    | inl e ↦ elim (Bool-cases (plr.spec_status == status_pending)) [
      | inr f ↦ inr (
        λ h. ground (arith, eq_iff plr.spec_status status_pending, h.pending),
        λ c. rw (e, f) refl,
      )
      | inl f ↦ elim (Option-cases (T.get_condition plr condition_succeeded)) [
        | inr (x, g) ↦
            inr (
              λ h. absurd (some-ne-none (sym g ∙ h.unset)),
              λ c. rw (e, f, g, reconcile_unset) refl,
            )
        | inl g ↦ inl (
          record {
            managed = (is_managed_iff plr.managed_by).0 e;
            pending = (eq_iff plr.spec_status status_pending).0 f;
            unset = g;
          },
          λ c. rw (e, f, g, reconcile_unset) refl,
        )
      ]
    ]
  ]

  failed-IsReconciled :
      (namespace name : String) (cluster : C.Cluster) (e : Error)
      → C.get_pipeline_run cluster namespace name ≡ err e
      → IsReconciled namespace name cluster (cluster, ignore_not_found e)
  failed-IsReconciled namespace name cluster (not_found message) got = gone message got refl
  failed-IsReconciled namespace name cluster e got = unread e got (λ _ h. cc) refl

  -- `Reconcile` writes the pending condition to the PipelineRun that the client returns exactly if that
  -- is MultiKueue's, pending, and without such a condition, and it returns what the update returns. With
  -- another PipelineRun, or none, it changes nothing and returns no error; another error of the client
  -- is returned and nothing is changed.
  pub reconcile-IsReconciled :
      (namespace name : String) (cluster : C.Cluster)
      → IsReconciled namespace name cluster (reconcile T C namespace name cluster)
  unfolding reconcile
  reconcile-IsReconciled namespace name cluster =
      elim (Result-cases (C.get_pipeline_run cluster namespace name)) [
        | inr (e, got) ↦ rw (got, reconcile) (failed-IsReconciled namespace name cluster e got)
        | inl (plr, got) ↦
            rw (got, reconcile)
              (elim (IsLacking-cases plr) [
                | inl (lacking, same) ↦ wrote plr got lacking (same cluster)
                | inr (other, same) ↦ left plr got other (same cluster)
              ])
      ]

  -- A PipelineRun that the client returns has the same names as the one that is written.
  written_names :
      (IsDue : C.Cluster → Request → Type 0)
      → IsFaithful T
      → IsCaching IsDue
      → (namespace name : String) (cluster : C.Cluster) (plr : PipelineRun)
      → C.get_pipeline_run cluster namespace name ≡ ok plr
      → ((T.set_condition plr pending_condition).namespace ≡ namespace)
        × ((T.set_condition plr pending_condition).name ≡ name)
  written_names IsDue faithful caching namespace name cluster plr got =
      let (same_name, same_namespace) = faithful.set_keeps_name plr pending_condition in
      let (in_namespace, named) = caching.got_is_named cluster namespace name plr got in
      (same_namespace ∙ in_namespace, same_name ∙ named)

  -- The condition that is written is a change.
  set-ne-unset :
      IsFaithful T
      → (plr : PipelineRun) → IsLacking T plr
      → T.get_condition (T.set_condition plr pending_condition) condition_succeeded
        ≢ T.get_condition plr condition_succeeded
  set-ne-unset faithful plr lacking same =
      some-ne-none (sym (faithful.set_is_get plr pending_condition) ∙ same ∙ lacking.unset)

  -- A reconcile changes nothing that is read, and forgets no event.
  pub reconcile-reads :
      (IsDue : C.Cluster → Request → Type 0)
      → IsCaching IsDue
      → (namespace name : String) (cluster : C.Cluster)
      → ((n k : String)
          → C.get_pipeline_run (reconcile T C namespace name cluster).0 n k
            ≡ C.get_pipeline_run cluster n k)
        × ((r : Request) → IsDue cluster r → IsDue (reconcile T C namespace name cluster).0 r)
  reconcile-reads IsDue caching namespace name cluster =
      elim (reconcile-IsReconciled namespace name cluster) [
        | gone _ _ same ↦ rw same (λ n k. refl, λ r h. h)
        | unread _ _ _ same ↦ rw same (λ n k. refl, λ r h. h)
        | left _ _ _ same ↦ rw same (λ n k. refl, λ r h. h)
        | wrote plr _ _ same ↦ rw same (
          caching.reads_are_kept (T.set_condition plr pending_condition) cluster,
          caching.due_is_kept (T.set_condition plr pending_condition) cluster,
        )
      ]

  -- If the client returns a PipelineRun that lacks the condition, then behind a reconcile with no error
  -- there is an event for it.
  pub reconcile-IsDue :
      (IsDue : C.Cluster → Request → Type 0)
      → IsFaithful T
      → IsCaching IsDue
      → (namespace name : String) (cluster : C.Cluster) (plr : PipelineRun)
      → C.get_pipeline_run cluster namespace name ≡ ok plr
      → IsLacking T plr
      → (reconcile T C namespace name cluster).1 ≡ none
      → IsDue (reconcile T C namespace name cluster).0 (namespace, name)
  reconcile-IsDue IsDue faithful caching namespace name cluster plr got lacking done =
      elim (reconcile-IsReconciled namespace name cluster) [
        | gone _ other _ ↦ let clash = sym got ∙ other in cc
        | unread _ other _ _ ↦ let clash = sym got ∙ other in cc
        | left plr' got' other _ ↦
            let same : plr ≡ plr' = let e = sym got ∙ got' in cc in
            absurd (other (subst (IsLacking T) same lacking))
        | wrote plr' got' lacking' same ↦
            let written = T.set_condition plr' pending_condition in
            let (f, g) = written_names IsDue faithful caching namespace name cluster plr' got' in
            let read : C.get_pipeline_run cluster written.namespace written.name ≡ ok plr' =
              ap (λ n. C.get_pipeline_run cluster n written.name) f
              ∙ ap (C.get_pipeline_run cluster namespace) g
              ∙ got' in
            let made =
              caching.update_is_due cluster plr' written read (set-ne-unset faithful plr' lacking')
                (ap (λ (x : C.Cluster × Option Error). x.1) (sym same) ∙ done) in
            subst (λ (x : C.Cluster × Option Error). IsDue x.0 (namespace, name)) (sym same)
              (subst (λ r. IsDue (C.update_status written cluster).0 r) (λ i. (f i, g i)) made)
      ]
