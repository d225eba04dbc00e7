-- ===== src/Main/Setup/Steps.antt =====
-- cmd/main.go: when a sequence of steps goes on, and what it has registered then.
use tekton_kueue.Base.{
  Option, none, some, List, [], ◌∷◌, ◌++◌, Error, Result, ok, err, ◌>>=◌, Result-cases, ◌≡◌, refl,
  sym, ap, ◌∙◌, inl, inr, ◌↔◌,
}
use tekton_kueue.Manager.{
  Manager, Registration, runnable, healthz_check, readyz_check, register, register_all,
}
use tekton_kueue.Main.{Certificates, Configured, exited, configured}
use tekton_kueue.Main.Setup.{
  Startup, aborted, stopped, going, ◌▸◌, or_abort, or_die, or_stop, or_exit, Host, ManagerOptions,
  served, add_ready_and_health_checks_to_mgr_or_die, add_runnable_or_die, health_checks, runnables,
  with_options, make_manager, start_manager,
}

module _ {X : Type 0} (M : Manager X) where
  last_register :
      (r : Registration X) (done : List (Registration X))
      → or_die (register M r done) ≡ or_die (register_all M (r ∷ []) done)
  unfolding register_all
  last_register r done = elim (Result-cases (register M r done)) [
    | inl (made, e) ↦ rw e refl
    | inr (x, e) ↦ rw e refl
  ]

  -- One step of a sequence of registrations, each of which stops the program on an error.
  pub or_die-register_all :
      (r : Registration X) (rs done : List (Registration X))
      (next : List (Registration X) → Startup (List (Registration X)))
      → ((made : List (Registration X)) → next made ≡ or_die (register_all M rs made))
      → (or_die (register M r done) ▸ next) ≡ or_die (register_all M (r ∷ rs) done)
  unfolding register_all
  or_die-register_all r rs done next h = elim (Result-cases (register M r done)) [
    | inl (made, e) ↦ rw e (h made)
    | inr (x, e) ↦ rw e refl
  ]

  pub add_ready_and_health_checks-register_all :
      (done : List (Registration X))
      → add_ready_and_health_checks_to_mgr_or_die M done
        ≡ or_die (register_all M (health_checks M) done)
  unfolding add_ready_and_health_checks_to_mgr_or_die register_all
  add_ready_and_health_checks-register_all done =
      or_die-register_all (healthz_check "healthz") (readyz_check "readyz" ∷ []) done
        (λ made. or_die (register M (readyz_check "readyz") made))
        (last_register (readyz_check "readyz"))

  pub add_runnable-register_all :
      (watcher : Option X) (rs done : List (Registration X))
      (next : List (Registration X) → Startup (List (Registration X)))
      → ((made : List (Registration X)) → next made ≡ or_die (register_all M rs made))
      → (add_runnable_or_die M watcher done ▸ next)
        ≡ or_die (register_all M (runnables M watcher ++ rs) done)
  unfolding add_runnable_or_die
  add_runnable-register_all none rs done next h = h done
  add_runnable-register_all (some watcher) rs done next h =
      or_die-register_all (runnable watcher) rs done next h

-- Two calls whose first error is returned, before a step.
pub or_die->>= :
    {A B C : Type 0} (r : Result A) (f : A → Result B) (next : B → Startup C)
    → (or_die (r >>= f) ▸ next) ≡ (or_die r ▸ λ a. or_die (f a) ▸ next)
or_die->>= (err e) f next = refl
or_die->>= (ok a) f next = refl

going-injective : {A : Type 0} {a b : A} → going a ≡ going b → a ≡ b
going-injective h = cc

pair_lem : {A B : Type 0} {a b : A} {x y : B} → a ≡ b → x ≡ y → ◌≡◌ {A = A × B} (a, x) (b, y)
pair_lem p q = λ i. (p i, q i)

served-injective :
    {W : Certificates} {o p : ManagerOptions W} {d c : List (Registration W.CertWatcher)}
    {x y : Option Error}
    → served o d x ≡ served p c y
    → (o ≡ p) × (d ≡ c) × (x ≡ y)
served-injective h = (cc, cc, cc)

pub or_die_iff : {A : Type 0} (r : Result A) (a : A) → (or_die r ≡ going a) ↔ (r ≡ ok a)
or_die_iff (err e) a = (λ h. cc, λ h. cc)
or_die_iff (ok b) a = (λ h. ap ok (going-injective h), λ h. cc)

-- The parsing of flags that are defined without a panic, before a step.
pub parsed_iff :
    {A B C : Type 0} (o : Option A) (parse : A → Result B) (next : B → Startup C) (c : C)
    → ((or_abort o ▸ λ fs. or_die (parse fs) ▸ next) ≡ going c)
      ↔ ((fs : A) × (parsed : B) × (o ≡ some fs) × (parse fs ≡ ok parsed) × (next parsed ≡ going c))
parsed_iff none parse next c = (λ h. cc, λ (fs, parsed, e, f, h). cc)
parsed_iff (some fs) parse next c = elim (Result-cases (parse fs)) [
  | inl (parsed, e) ↦ rw e (λ h. (fs, parsed, refl, e, h), λ (fs', parsed', f, g, h). cc)
  | inr (x, e) ↦ rw e (λ h. cc, λ (fs', parsed, f, g, h). cc)
]

-- The options of a server, before a step.
pub or_exit_iff :
    {W : Certificates} {Options B : Type 0} (c : Configured W Options)
    (next : Options × Option W.CertWatcher → Startup B) (b : B)
    → ((or_exit c ▸ next) ≡ going b) ↔ (
        (options : Options) × (watcher : Option W.CertWatcher) × (c ≡ configured options watcher)
        × (next (options, watcher) ≡ going b))
or_exit_iff exited next b = (λ h. cc, λ (o, w, e, h). cc)
or_exit_iff (configured options watcher) next b =
    (λ h. (options, watcher, refl, h), λ (o, w, e, h). cc)

-- A call whose error stops the program, before a step.
pub or_die_step_iff :
    {A B : Type 0} (r : Result A) (next : A → Startup B) (b : B)
    → ((or_die r ▸ next) ≡ going b) ↔ ((a : A) × (r ≡ ok a) × (next a ≡ going b))
or_die_step_iff (err e) next b = (λ h. cc, λ (a, e, h). cc)
or_die_step_iff (ok a) next b = (λ h. (a, refl, h), λ (c, e, h). cc)

module _ {W : Certificates} (H : Host W) where
  made_iff :
      (a b : Option Error) (registering : Startup (List (Registration W.CertWatcher)))
      (options o : ManagerOptions W) (done : List (Registration W.CertWatcher))
      → ((or_stop a ▸ λ _. or_stop b ▸ λ _. registering ▸ with_options H options) ≡ going (o, done))
        ↔ ((a ≡ none) × (b ≡ none) × (o ≡ options) × (registering ≡ going done))
  unfolding with_options
  made_iff (some e) b registering options o done = (λ h. cc, λ (h, _, _, _). cc)
  made_iff none (some e) registering options o done = (λ h. cc, λ (_, h, _, _). cc)
  made_iff none none aborted options o done = (λ h. cc, λ (_, _, _, h). cc)
  made_iff none none stopped options o done = (λ h. cc, λ (_, _, _, h). cc)
  made_iff none none (going d) options o done = (
    λ h. let e = going-injective h in (refl, refl, sym (ap (λ x. x.0) e), ap (λ x. going (x.1)) e),
    λ (_, _, e, h). ap going (pair_lem (sym e) (going-injective h)),
  )

  pub make_manager_iff :
      (registering : Startup (List (Registration W.CertWatcher))) (options o : ManagerOptions W)
      (done : List (Registration W.CertWatcher))
      → (make_manager H options registering ≡ going (o, done)) ↔ (
          (H.get_config ≡ none)
          × (H.new_manager options ≡ none)
          × (o ≡ options)
          × (registering ≡ going done))
  unfolding make_manager with_options
  make_manager_iff registering options o done =
      made_iff H.get_config (H.new_manager options) registering options o done

  pub start_manager_iff :
      (r : Startup (ManagerOptions W × List (Registration W.CertWatcher)))
      (options : ManagerOptions W) (done : List (Registration W.CertWatcher)) (e : Option Error)
      → (start_manager H r ≡ served options done e)
        ↔ ((r ≡ going (options, done)) × (e ≡ H.manager.start done))
  start_manager_iff aborted options done e = (λ h. cc, λ (h, _). cc)
  start_manager_iff stopped options done e = (λ h. cc, λ (h, _). cc)
  start_manager_iff (going (o, d)) options done e = (
    λ h.
        let (p, q, r) = served-injective h in
        (ap going (λ i. (p i, q i)), sym r ∙ ap H.manager.start q),
    λ (h, r).
        let g = going-injective h in
        λ i. served ((g i).0) ((g i).1) ((ap H.manager.start (ap (λ x. x.1) g) ∙ sym r) i),
  )
