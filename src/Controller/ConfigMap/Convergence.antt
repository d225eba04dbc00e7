-- ===== src/Controller/ConfigMap/Convergence.antt =====
-- The ConfigMap reconciler behind its watch: edits of ConfigMaps, the predicate of the watch, and the
-- work queue of controller-runtime. That queue is a parameter's behaviour, as it is documented: a
-- change that passes the predicate queues a request for the object that was changed, and a request is
-- queued again if `Reconcile` returns an error or asks for another try. The cluster is what the client
-- reads, so that an edit here is one that the cache has seen.
use mathlib.Core.Path.{subst}
use tekton_kueue.Base.{
  List, [], ◌∷◌, ◌++◌, All, All-append, ltb, String, Bool, true, false, Bool-cases, none, some,
  Dict, lookup, Result, ok, eq_iff, if◌then◌else◌, ◌≡◌, refl, sym, ◌∙◌, ◌⊎◌, inl, inr, arith,
}
use tekton_kueue.Tekton.{config_key, config_map_name}
use tekton_kueue.Metrics.{Metrics}
use tekton_kueue.Webhook.ConfigStore.{ConfigStore, Libraries}
use tekton_kueue.Webhook.ConfigStore.Update.{IsGood, IsBad}
use tekton_kueue.Controller.Queue.{Request, IsQueued, IsQueued-left, IsQueued-right}
use tekton_kueue.Controller.Job.{Client}
use tekton_kueue.Controller.ConfigMap.{
  is_watched, Reconciled, reconcile, IsReconciled, gone, unread, no_key, retried, loaded,
  reconcile-IsReconciled,
}

-- Whether controller-runtime queues the request again.
abbrev pub is_requeued : Reconciled → Bool
is_requeued r = elim r.error [ some e ↦ true | none ↦ ltb 0 r.requeue_after ]

module _ (L : Libraries) (C : Client) (namespace : String) where
  pub record Watching : Type 0 where
    pub cluster : C.Cluster
    pub store : ConfigStore
    pub metrics : Metrics
    pub queue : List Request

  -- The request for the ConfigMap of the webhook.
  abbrev pub own_request : Request
  own_request = (namespace, config_map_name)

  -- What the client returns for the ConfigMap of the webhook.
  abbrev pub current : Watching → Result (Dict String)
  current w = C.get_config_map w.cluster namespace config_map_name

  -- A request is taken from the queue, and queued again at the end if it is to be.
  abbrev pub take_request : Watching → Request → List Request → Watching
  take_request w r rest =
      let done = reconcile L C w.cluster r.0 r.1 w.store w.metrics in
      record {
        cluster = w.cluster;
        store = done.store;
        metrics = done.metrics;
        queue = rest ++ (if is_requeued done then r ∷ [] else []);
      }

  -- An event of the watch, about an object: its own name and namespace are queued.
  abbrev pub observe : Watching → C.Cluster → Request → Watching
  observe w cluster r = record w {
    cluster = cluster;
    queue = w.queue ++ (if is_watched namespace r.0 r.1 then r ∷ [] else []);
  }

  pub data Step (w : Watching) : Watching → Type 0 where
    -- one ConfigMap is made, edited or deleted
    edited :
        (cluster : C.Cluster) (object_namespace object_name : String)
        → ((n k : String)
            → ((n ≡ object_namespace) × (k ≡ object_name) → ⊥)
            → C.get_config_map cluster n k ≡ C.get_config_map w.cluster n k)
        → Step w (observe w cluster (object_namespace, object_name))
    taken :
        (r : Request) (rest : List Request) → w.queue ≡ (r ∷ rest) → Step w (take_request w r rest)

  pub data Reach (w : Watching) : Watching → Type 0 where
    here : Reach w w
    later : (u v : Watching) → Reach w u → Step u v → Reach w v

  -- The store is that of the current text, if there is a text.
  abbrev pub IsCurrent : Watching → Type 0
  IsCurrent w =
      (cm : Dict String) (raw : String)
      → current w ≡ ok cm
      → lookup cm config_key ≡ some raw
      → IsGood L raw w.store

  abbrev pub AreOwn : List Request → Type 0
  AreOwn queue = All (λ (r : Request). r ≡ own_request) queue

  -- All queued requests are for the ConfigMap of the webhook, and one is queued, or the store is that of
  -- the current text.
  abbrev pub IsSettled : Watching → Type 0
  IsSettled w = AreOwn w.queue × (IsQueued own_request w.queue ⊎ IsCurrent w)

  -- An event that does not pass the predicate is not about the ConfigMap of the webhook.
  is_watched-other :
      (object_namespace object_name : String)
      → is_watched namespace object_namespace object_name ≡ false
      → (namespace ≡ object_namespace) × (config_map_name ≡ object_name)
      → ⊥
  unfolding is_watched
  is_watched-other object_namespace object_name e h =
      ground (arith, eq_iff object_namespace namespace, eq_iff object_name config_map_name)

  -- One that passes it is about that ConfigMap.
  is_watched-own :
      (object_namespace object_name : String)
      → is_watched namespace object_namespace object_name ≡ true
      → ◌≡◌ {A = Request} (object_namespace, object_name) own_request
  unfolding is_watched
  is_watched-own object_namespace object_name e =
      let f : object_namespace ≡ namespace =
        ground (arith, eq_iff object_namespace namespace, eq_iff object_name config_map_name) in
      let g : object_name ≡ config_map_name =
        ground (arith, eq_iff object_namespace namespace, eq_iff object_name config_map_name) in
      λ i. (f i, g i)

  -- What a reconcile of a text leaves: a good text is in the store and nothing is queued, a bad one
  -- leaves the store and is tried again.
  abbrev pub IsTaken : String → ConfigStore → Reconciled → Type 0
  IsTaken raw s r =
      (IsGood L raw r.store × (is_requeued r ≡ false))
      ⊎ (IsBad L raw × (is_requeued r ≡ true) × (r.store ≡ s))

  same_text :
      {cm cm' : Dict String} {raw raw' : String}
      → ok cm ≡ ok cm'
      → lookup cm config_key ≡ some raw
      → lookup cm' config_key ≡ some raw'
      → raw ≡ raw'
  same_text e f g = cc

  reconciled-IsTaken :
      (s : ConfigStore) (m : Metrics) (got : Result (Dict String)) (r : Reconciled)
      (cm : Dict String) (raw : String)
      → IsReconciled L s m got r
      → got ≡ ok cm
      → lookup cm config_key ≡ some raw
      → IsTaken raw s r
  reconciled-IsTaken s m _ _ cm raw (gone message) e f = cc
  reconciled-IsTaken s m _ _ cm raw (unread x _) e f = cc
  reconciled-IsTaken s m _ _ cm raw (no_key cm' h) e f = cc
  reconciled-IsTaken s m _ _ cm raw (retried cm' raw' x h bad) e f =
      inr (subst (IsBad L) (same_text e h f) bad, refl, refl)
  reconciled-IsTaken s m _ _ cm raw (loaded cm' raw' t h good) e f =
      inl (subst (λ x. IsGood L x t) (same_text e h f) good, refl)

  take_request-IsTaken :
      (w : Watching) (cm : Dict String) (raw : String)
      → current w ≡ ok cm
      → lookup cm config_key ≡ some raw
      → IsTaken raw w.store (reconcile L C w.cluster namespace config_map_name w.store w.metrics)
  take_request-IsTaken w cm raw =
      reconciled-IsTaken w.store w.metrics (current w) _ cm raw
        (reconcile-IsReconciled L C w.cluster namespace config_map_name w.store w.metrics)

  -- Behind a reconcile of the own request.
  taken_own-IsSettled :
      (w : Watching) (rest : List Request)
      → AreOwn rest
      → IsSettled (take_request w own_request rest)
  taken_own-IsSettled w rest own =
      let done = reconcile L C w.cluster namespace config_map_name w.store w.metrics in
      elim (Bool-cases (is_requeued done)) [
        | inl e ↦ rw e (
          All-append (λ (r : Request). r ≡ own_request) rest (own_request ∷ []) own (refl, tt),
          inl (IsQueued-right own_request rest (own_request ∷ []) (inl refl)),
        )
        | inr e ↦ (
          rw e (All-append (λ (r : Request). r ≡ own_request) rest [] own tt),
          inr (λ cm raw got text. elim (take_request-IsTaken w cm raw got text) [
            | inl (good, _) ↦ good
            | inr (_, f, _) ↦ let clash : true ≡ false = sym f ∙ e in cc
          ]),
        )
      ]

  taken-IsSettled :
      (w : Watching) (r : Request) (rest : List Request)
      → w.queue ≡ (r ∷ rest)
      → IsSettled w
      → IsSettled (take_request w r rest)
  taken-IsSettled w r rest e (own, _) =
      let (same, others) = subst AreOwn e own in
      subst (λ x. IsSettled (take_request w x rest)) (sym same) (taken_own-IsSettled w rest others)

  edited-IsSettled :
      (w : Watching) (cluster : C.Cluster) (object_namespace object_name : String)
      → ((n k : String)
          → ((n ≡ object_namespace) × (k ≡ object_name) → ⊥)
          → C.get_config_map cluster n k ≡ C.get_config_map w.cluster n k)
      → IsSettled w
      → IsSettled (observe w cluster (object_namespace, object_name))
  edited-IsSettled w cluster object_namespace object_name same (own, h) =
      let r : Request = (object_namespace, object_name) in
      elim (Bool-cases (is_watched namespace object_namespace object_name)) [
        | inl e ↦
            let one = is_watched-own object_namespace object_name e in
            rw e (
              All-append (λ (x : Request). x ≡ own_request) w.queue (r ∷ []) own (one, tt),
              inl (IsQueued-right own_request w.queue (r ∷ []) (inl one)),
            )
        | inr e ↦ rw e (
          All-append (λ (x : Request). x ≡ own_request) w.queue [] own tt,
          elim h [
            | inl queued ↦ inl (IsQueued-left own_request w.queue [] queued)
            | inr settled ↦ inr (λ cm raw got text.
                settled cm raw
                  (sym (
                      same namespace config_map_name
                        (is_watched-other object_namespace object_name e))
                    ∙ got)
                  text)
          ],
        )
      ]

  Reach-IsSettled_lem : (w v : Watching) → IsSettled w → Reach w v → IsSettled v
  Reach-IsSettled_lem w _ h here = h
  Reach-IsSettled_lem w v h (later u _ reach (edited cluster n k same)) =
      edited-IsSettled u cluster n k same (Reach-IsSettled_lem w u h reach)
  Reach-IsSettled_lem w v h (later u _ reach (taken r rest e)) =
      taken-IsSettled u r rest e (Reach-IsSettled_lem w u h reach)

  -- If at first all queued requests are for the ConfigMap of the webhook, and one is queued or the store
  -- is that of its text, if there is one, then after any edits of ConfigMaps, this one or others, and any
  -- reconciles: no other ConfigMap is ever asked for; with nothing queued, the store is that of the
  -- current text, if there is one, and this is good; and the next request that is taken loads a good
  -- text, and is not queued again, or keeps the store on a bad text, and is.
  pub Reach-IsSettled :
      (w v : Watching)
      → IsSettled w
      → Reach w v
      → AreOwn v.queue
        × (v.queue ≡ [] → IsCurrent v)
        × ((r : Request) (rest : List Request) (cm : Dict String) (raw : String)
            → v.queue ≡ (r ∷ rest)
            → current v ≡ ok cm
            → lookup cm config_key ≡ some raw
            → IsTaken raw v.store (reconcile L C v.cluster r.0 r.1 v.store v.metrics))
  Reach-IsSettled w v h reach =
      let (own, settled) = Reach-IsSettled_lem w v h reach in
      (
        own,
        λ idle. elim settled [
          | inl queued ↦ absurd (subst (IsQueued own_request) idle queued)
          | inr current_store ↦ current_store
        ],
        λ r rest cm raw e got text.
            subst
              (λ (x : Request).
                IsTaken raw v.store (reconcile L C v.cluster x.0 x.1 v.store v.metrics))
              (sym ((subst AreOwn e own).0)) (take_request-IsTaken v cm raw got text),
      )
