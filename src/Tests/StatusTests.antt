-- ===== src/Tests/StatusTests.antt =====
-- The reconciler of the pending status over a cluster with at most one PipelineRun, which the client
-- reads from a cache.
use tekton_kueue.Base.{
  String, Option, none, some, List, [], ◌∷◌, ◌&&◌, ◌==◌, eq_iff, errorf, Error, Result, ok, err,
  if◌then◌else◌, ◌≡◌, refl, sym, ap, inl, inr, arith,
}
use tekton_kueue.Tekton.{PipelineRun, status_pending, managed_by_multi_kueue_label}
use tekton_kueue.Webhook.Defaulter.{pipeline_run}
use tekton_kueue.Controller.Queue.{Request, IsQueued}
use tekton_kueue.Controller.Job.{Client}
use tekton_kueue.Controller.Status.{needs_pending_status_condition, pending_condition, reconcile}
use tekton_kueue.Controller.Status.Effects.{
  IsFaithful, IsLacking, IsCaching, IsReconciled, reconcile-IsReconciled,
}
use tekton_kueue.Controller.Status.Convergence.{
  Watching, IsCovered, Reach, here, later, taken, seen, observe, take_request, Reach-IsShown,
}
use tekton_kueue.Tests.Toys.{plr, tekton}

-- What the cache and the server have, and the events that the cache has not seen.
record Cached : Type 0 where
  pub cache : Option PipelineRun
  pub server : Option PipelineRun
  pub events : List Request

abbrev get : Option PipelineRun → String → String → Result PipelineRun
get none namespace name = err (errorf "not found" [])
get (some p) namespace name =
    if p.namespace == namespace && p.name == name then ok p else err (errorf "not found" [])

abbrev conflict : Option Error
conflict = some (errorf "the object has been modified" [])

-- An update is accepted if the cache has the server's version.
abbrev put : PipelineRun → Cached → Cached × Option Error
put written c = elim c.events [
  | x ∷ xs ↦ (c, conflict)
  | [] ↦ (record c { server = some written; events = (written.namespace, written.name) ∷ [] }, none)
]

abbrev named_client : Client
named_client = record {
  Cluster = Cached;
  get_pipeline_run = λ c namespace name. get c.cache namespace name;
  get_config_map = λ c namespace name. ok [];
  apply = λ owner written c. put written c;
  update_status = put;
}

abbrev IsDue : Cached → Request → Type 0
IsDue c r = IsQueued r c.events

got_is_named :
    (o : Option PipelineRun) (namespace name : String) (p : PipelineRun)
    → get o namespace name ≡ ok p
    → (p.namespace ≡ namespace) × (p.name ≡ name)
got_is_named none namespace name p got = cc
got_is_named (some q) namespace name p got =
    ground (arith, eq_iff q.namespace namespace, eq_iff q.name name)

put-cache : (written : PipelineRun) (c : Cached) → (put written c).0.cache ≡ c.cache
put-cache written c = ground arith

put-IsDue :
    (written : PipelineRun) (cache server : Option PipelineRun) (events : List Request)
    (r : Request)
    → IsQueued r events
    → IsDue (put written (record { cache = cache; server = server; events = events })).0 r
put-IsDue written cache server [] r h = absurd h
put-IsDue written cache server (x ∷ xs) r h = h

put-makes :
    (written : PipelineRun) (cache server : Option PipelineRun) (events : List Request)
    → (put written (record { cache = cache; server = server; events = events })).1 ≡ none
    → IsDue
        (put written (record { cache = cache; server = server; events = events })).0
        (written.namespace, written.name)
put-makes written cache server [] h = inl refl
put-makes written cache server (x ∷ xs) h = cc

named-IsCaching : IsCaching tekton named_client IsDue
named-IsCaching = record {
  got_is_named = λ c. got_is_named c.cache;
  reads_are_kept = λ written c namespace name i. get (put-cache written c i) namespace name;
  due_is_kept = λ written c. put-IsDue written c.cache c.server c.events;
  update_is_due = λ c p written got other done. put-makes written c.cache c.server c.events done;
}

named-IsFaithful : IsFaithful tekton
named-IsFaithful = record { set_is_get = λ p c. refl; set_keeps_name = λ p c. (refl, refl) }

abbrev pending_plr : PipelineRun
pending_plr = record plr {
  spec_status = status_pending;
  managed_by = some managed_by_multi_kueue_label;
}

abbrev own : Request
own = ("ns", "run")

-- The PipelineRun waits, and a request for it is queued.
abbrev waiting : Watching tekton named_client IsDue
waiting = record {
  cluster = record { cache = some pending_plr; server = some pending_plr; events = [] };
  queue = own ∷ [];
}

-- The status is written, the cache sees it, and the request of that event finds nothing to do.
abbrev written : Watching tekton named_client IsDue
written = take_request tekton named_client IsDue waiting own []

abbrev shown_plr : PipelineRun
shown_plr = tekton.set_condition pending_plr pending_condition

abbrev synchronised : Cached
synchronised = record { cache = some shown_plr; server = some shown_plr; events = [] }

abbrev observed : Watching tekton named_client IsDue
observed = observe tekton named_client IsDue written synchronised own (pipeline_run shown_plr)

abbrev shown : Watching tekton named_client IsDue
shown = take_request tekton named_client IsDue observed own []

named_lem :
    (p q : PipelineRun) (n k : String)
    → get (some p) n k ≡ ok q
    → p.namespace ≡ "ns"
    → p.name ≡ "run"
    → ("ns" ≡ n) × ("run" ≡ k)
named_lem p q n k got e f = ground (arith, eq_iff p.namespace n, eq_iff p.name k)

waiting-IsCovered : IsCovered tekton named_client IsDue waiting
waiting-IsCovered n k p got lacking =
    let (f, g) = named_lem pending_plr p n k got refl refl in inl (inl (λ i. (f i, g i)))

others_kept :
    (n k : String)
    → ((n ≡ "ns") × (k ≡ "run") → ⊥)
    → (named_client.get_pipeline_run synchronised n k
        ≡ named_client.get_pipeline_run written.cluster n k)
      × (IsDue written.cluster (n, k) → IsDue synchronised (n, k))
unfolding reconcile
others_kept n k other = (
  ground (arith, eq_iff "ns" n, eq_iff "run" k),
  λ h. elim h [
    | inl e ↦ absurd (other (ap (λ (x : Request). x.0) (sym e), ap (λ (x : Request). x.1) (sym e)))
    | inr e ↦ e
  ],
)

shown_reached : Reach tekton named_client IsDue waiting shown
unfolding reconcile needs_pending_status_condition
shown_reached =
    later observed shown
      (later written observed (later waiting written here (taken own [] refl))
        (seen synchronised "ns" "run" (pipeline_run shown_plr) others_kept (λ p got. cc)))
      (taken own [] refl)

shown_idle : shown.queue ≡ []
unfolding reconcile needs_pending_status_condition
shown_idle = refl

nothing_due : ¬ IsDue shown.cluster own
unfolding reconcile
nothing_due h = h

Reach-IsShown_example :
    ((p : PipelineRun)
      → named_client.get_pipeline_run shown.cluster "ns" "run" ≡ ok p
      → ¬ IsLacking tekton p)
    × ((reconcile tekton named_client "ns" "run" shown.cluster).0 ≡ shown.cluster)
Reach-IsShown_example =
    Reach-IsShown tekton named_client IsDue named-IsFaithful named-IsCaching waiting shown
      waiting-IsCovered shown_reached shown_idle "ns" "run" nothing_due

reconcile-IsReconciled_example :
    IsReconciled tekton named_client "ns" "run" waiting.cluster
      (reconcile tekton named_client "ns" "run" waiting.cluster)
reconcile-IsReconciled_example =
    reconcile-IsReconciled tekton named_client "ns" "run" waiting.cluster
