-- ===== src/Controller/Status/Convergence.antt =====
-- The reconciler of the pending status behind its watch, as controller-runtime is documented: the
-- client reads from a cache that the events of the watch change, an event that passes the predicate
-- queues a request, and one whose `Reconcile` returns an error is queued again. A reconcile is one
-- step.
use mathlib.Core.Path.{subst}
use tekton_kueue.Base.{
  String, true, Option, none, some, List, [], ◌∷◌, ◌++◌, Error, ok, if◌then◌else◌, ◌≡◌, refl, sym,
  ap, ◌∙◌, ◌⊎◌, inl, inr,
}
use tekton_kueue.Tekton.{PipelineRun}
use tekton_kueue.Webhook.Defaulter.{Object, pipeline_run}
use tekton_kueue.Controller.Queue.{
  Request, IsQueued, IsQueued-left, IsQueued-right, IsQueued-other, names-cases,
}
use tekton_kueue.Controller.Job.{Tekton, Client}
use tekton_kueue.Controller.Status.{
  needs_pending_status_condition, needs_pending_status_condition_iff, reconcile,
}
use tekton_kueue.Controller.Status.Effects.{
  IsFaithful, IsLacking, IsCaching, gone, unread, left, wrote, reconcile-IsReconciled,
  reconcile-reads, reconcile-IsDue,
}

-- What is queued again behind a reconcile.
abbrev pub again : Request → Option Error → List Request
again r none = []
again r (some e) = r ∷ []

module _ (T : Tekton) (C : Client) (IsDue : C.Cluster → Request → Type 0) where
  pub record Watching : Type 0 where
    pub cluster : C.Cluster
    pub queue : List Request

  abbrev pub observe : Watching → C.Cluster → Request → Object → Watching
  observe w cluster r object = record {
    cluster = cluster;
    queue = w.queue ++ (if needs_pending_status_condition object then r ∷ [] else []);
  }

  abbrev pub take_request : Watching → Request → List Request → Watching
  take_request w r rest =
      let done = reconcile T C r.0 r.1 w.cluster in
      record { cluster = done.0; queue = rest ++ again r done.1 }

  -- Nothing but the PipelineRun of these names differs for the client.
  abbrev pub AreOthersKept : C.Cluster → C.Cluster → String → String → Type 0
  AreOthersKept before after namespace name =
      (n k : String)
      → ((n ≡ namespace) × (k ≡ name) → ⊥)
      → (C.get_pipeline_run after n k ≡ C.get_pipeline_run before n k)
        × (IsDue before (n, k) → IsDue after (n, k))

  pub data Step (w : Watching) : Watching → Type 0 where
    -- PipelineRuns are made, edited or deleted at the server, and the cache has not seen it
    edited :
        (cluster : C.Cluster)
        → ((n k : String) → C.get_pipeline_run cluster n k ≡ C.get_pipeline_run w.cluster n k)
        → ((r : Request) → IsDue w.cluster r → IsDue cluster r)
        → Step w (record w { cluster = cluster })
    -- the cache sees an event, or is synchronised again: the predicate has the object that the cache then
    -- has, if there is one
    seen :
        (cluster : C.Cluster) (namespace name : String) (object : Object)
        → AreOthersKept w.cluster cluster namespace name
        → ((plr : PipelineRun)
            → C.get_pipeline_run cluster namespace name ≡ ok plr
            → object ≡ pipeline_run plr)
        → Step w (observe w cluster (namespace, name) object)
    taken :
        (r : Request) (rest : List Request) → w.queue ≡ (r ∷ rest) → Step w (take_request w r rest)

  pub data Reach (w : Watching) : Watching → Type 0 where
    here : Reach w w
    later : (u v : Watching) → Reach w u → Step u v → Reach w v

  -- For every PipelineRun that the client returns without the condition, a request is queued or an event
  -- is due.
  abbrev pub IsCovered : Watching → Type 0
  IsCovered w =
      (n k : String) (plr : PipelineRun)
      → C.get_pipeline_run w.cluster n k ≡ ok plr
      → IsLacking T plr
      → IsQueued (n, k) w.queue ⊎ IsDue w.cluster (n, k)

  observed-IsQueued :
      (w : Watching) (cluster : C.Cluster) (r : Request) (object : Object) (plr : PipelineRun)
      → object ≡ pipeline_run plr
      → IsLacking T plr
      → IsQueued r (observe w cluster r object).queue
  observed-IsQueued w cluster r object plr same lacking =
      let needs : needs_pending_status_condition (pipeline_run plr) ≡ true =
        (needs_pending_status_condition_iff plr).1 (lacking.managed, lacking.pending) in
      IsQueued-right r w.queue _ (rw (same, needs) (inl refl))

  edited-IsCovered :
      (w : Watching) (cluster : C.Cluster)
      → ((n k : String) → C.get_pipeline_run cluster n k ≡ C.get_pipeline_run w.cluster n k)
      → ((r : Request) → IsDue w.cluster r → IsDue cluster r)
      → IsCovered w
      → IsCovered (record w { cluster = cluster })
  edited-IsCovered w cluster same kept h n k plr got lacking =
      elim (h n k plr (sym (same n k) ∙ got) lacking) [
        | inl queued ↦ inl queued
        | inr event ↦ inr (kept (n, k) event)
      ]

  seen-IsCovered :
      (w : Watching) (cluster : C.Cluster) (namespace name : String) (object : Object)
      → AreOthersKept w.cluster cluster namespace name
      → ((plr : PipelineRun)
          → C.get_pipeline_run cluster namespace name ≡ ok plr
          → object ≡ pipeline_run plr)
      → IsCovered w
      → IsCovered (observe w cluster (namespace, name) object)
  seen-IsCovered w cluster namespace name object kept fresh h n k plr got lacking =
      elim (names-cases n k namespace name) [
        | inr other ↦
            let (same, stays) = kept n k other in
            elim (h n k plr (sym same ∙ got) lacking) [
              | inl queued ↦ inl (IsQueued-left (n, k) w.queue _ queued)
              | inr event ↦ inr (stays event)
            ]
        | inl (e, f) ↦
            let own : C.get_pipeline_run cluster namespace name ≡ ok plr =
              ap (C.get_pipeline_run cluster namespace) (sym f)
              ∙ ap (λ m. C.get_pipeline_run cluster m k) (sym e)
              ∙ got in
            let queued =
              observed-IsQueued w cluster (namespace, name) object plr (fresh plr own) lacking in
            inl (
              subst (λ r. IsQueued r (observe w cluster (namespace, name) object).queue)
                (λ i. (sym e i, sym f i)) queued)
      ]

  module _ (faithful : IsFaithful T) (caching : IsCaching T C IsDue) where
    -- The own request is queued again, or its event is due.
    own-IsCovered :
        (r : Request) (rest : List Request) (cluster : C.Cluster) (plr : PipelineRun)
        (e : Option Error)
        → (reconcile T C r.0 r.1 cluster).1 ≡ e
        → C.get_pipeline_run cluster r.0 r.1 ≡ ok plr
        → IsLacking T plr
        → IsQueued r (rest ++ again r e) ⊎ IsDue (reconcile T C r.0 r.1 cluster).0 r
    own-IsCovered r rest cluster plr (some e) h got lacking =
        inl (IsQueued-right r rest (r ∷ []) (inl refl))
    own-IsCovered r rest cluster plr none h got lacking =
        inr (reconcile-IsDue T C IsDue faithful caching r.0 r.1 cluster plr got lacking h)

    taken-IsCovered :
        (w : Watching) (r : Request) (rest : List Request)
        → w.queue ≡ (r ∷ rest)
        → IsCovered w
        → IsCovered (take_request w r rest)
    taken-IsCovered w r rest e h n k plr got lacking =
        let (same, stays) = reconcile-reads T C IsDue caching r.0 r.1 w.cluster in
        let before : C.get_pipeline_run w.cluster n k ≡ ok plr = sym (same n k) ∙ got in
        elim (names-cases r.0 r.1 n k) [
          | inl (f, g) ↦
              let one : r ≡ (n, k) = λ i. (f i, g i) in
              let v = take_request w r rest in
              subst (λ x. IsQueued x v.queue ⊎ IsDue v.cluster x) one
                (own-IsCovered r rest w.cluster plr _ refl
                  (ap (λ (x : Request). C.get_pipeline_run w.cluster x.0 x.1) one ∙ before) lacking)
          | inr other ↦ elim (h n k plr before lacking) [
            | inr event ↦ inr (stays (n, k) event)
            | inl queued ↦ inl (
                IsQueued-left (n, k) rest _
                  (IsQueued-other (n, k) r rest (subst (IsQueued (n, k)) e queued)
                    (λ same'.
                      other (ap (λ (x : Request). x.0) same', ap (λ (x : Request). x.1) same'))))
          ]
        ]

    Reach-IsCovered : (w v : Watching) → IsCovered w → Reach w v → IsCovered v
    Reach-IsCovered w _ h here = h
    Reach-IsCovered w v h (later u _ reach (edited cluster same kept)) =
        edited-IsCovered u cluster same kept (Reach-IsCovered w u h reach)
    Reach-IsCovered w v h (later u _ reach (seen cluster n k object kept fresh)) =
        seen-IsCovered u cluster n k object kept fresh (Reach-IsCovered w u h reach)
    Reach-IsCovered w v h (later u _ reach (taken r rest e)) =
        taken-IsCovered u r rest e (Reach-IsCovered w u h reach)

    -- A PipelineRun that does not lack the condition is left alone.
    reconcile-unlacking :
        (n k : String) (cluster : C.Cluster)
        → ((plr : PipelineRun) → C.get_pipeline_run cluster n k ≡ ok plr → ¬ IsLacking T plr)
        → (reconcile T C n k cluster).0 ≡ cluster
    reconcile-unlacking n k cluster none_lacking = elim (reconcile-IsReconciled T C n k cluster) [
      | gone _ _ same ↦ ap (λ (x : C.Cluster × Option Error). x.0) same
      | unread _ _ _ same ↦ ap (λ (x : C.Cluster × Option Error). x.0) same
      | left _ _ _ same ↦ ap (λ (x : C.Cluster × Option Error). x.0) same
      | wrote plr got lacking _ ↦ absurd (none_lacking plr got lacking)
    ]

    -- With a faithful status and a client that reads from a cache, if at first for every PipelineRun of
    -- MultiKueue that is pending without a condition a request is queued or an event is due, then after any
    -- edits at the server, events that the cache sees, and reconciles: with nothing queued, no PipelineRun
    -- for which no event is due is so, and a reconcile of one changes nothing in the cluster.
    pub Reach-IsShown :
        (w v : Watching)
        → IsCovered w
        → Reach w v
        → v.queue ≡ []
        → (n k : String) → ¬ IsDue v.cluster (n, k)
        → ((plr : PipelineRun) → C.get_pipeline_run v.cluster n k ≡ ok plr → ¬ IsLacking T plr)
          × ((reconcile T C n k v.cluster).0 ≡ v.cluster)
    Reach-IsShown w v h reach idle n k seen_all =
        let shown : (plr : PipelineRun)
            → C.get_pipeline_run v.cluster n k ≡ ok plr
            → ¬ IsLacking T plr =
          λ plr got lacking. elim (Reach-IsCovered w v h reach n k plr got lacking) [
            | inl queued ↦ subst (IsQueued (n, k)) idle queued
            | inr event ↦ seen_all event
          ] in
        (shown, reconcile-unlacking n k v.cluster shown)
