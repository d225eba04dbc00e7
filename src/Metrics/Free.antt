-- ===== src/Metrics/Free.antt =====
-- When the registration of the counters panics.
use mathlib.Core.Option.{bind}
use tekton_kueue.Base.{
  String, Bool, true, false, ◌||◌, none, some, List, [], ◌∷◌, ◌++◌, ◌==◌, eq_iff, All, Bool-cases,
  ◌≡◌, ◌≢◌, refl, sym, ◌∙◌, inl, inr, ◌⊎◌, ◌↔◌, Option, arith,
}
use tekton_kueue.Metrics.Registry.{
  Counter, is_registered, must_register, cel_evaluations_total, cel_mutations_total,
  config_reload_total, config_reload_failure_total, init_cel, init_webhook,
}

-- No counter has the name.
abbrev pub IsFree : List Counter → String → Type 0
IsFree registry name = All (λ (c : Counter). c.name ≢ name) registry

IsFree-registered :
    (registry : List Counter) (name : String)
    → IsFree registry name
    → is_registered registry name ≡ false
unfolding is_registered
IsFree-registered [] name h = refl
IsFree-registered (c ∷ cs) name (h, hs) =
    ground (arith, eq_iff c.name name, IsFree-registered cs name hs)

or-false : (a b : Bool) → (a || b) ≡ false → (a ≡ false) × (b ≡ false)
or-false false b h = (refl, h)
or-false true b h = cc

registered-IsFree :
    (registry : List Counter) (name : String)
    → is_registered registry name ≡ false
    → IsFree registry name
unfolding is_registered
registered-IsFree [] name h = tt
registered-IsFree (c ∷ cs) name h =
    let (first, rest) = or-false (c.name == name) (is_registered cs name) h in
    (λ e. ground (arith, eq_iff c.name name), registered-IsFree cs name rest)

registered-append :
    (registry : List Counter) (c : Counter) (name : String)
    → (c.name == name) ≡ false
    → is_registered (registry ++ (c ∷ [])) name ≡ is_registered registry name
unfolding is_registered
registered-append [] c name h = ground arith
registered-append (d ∷ ds) c name h = ground (arith, registered-append ds c name h)

must_register-free :
    (c : Counter) (registry : List Counter)
    → is_registered registry c.name ≡ false
    → must_register c registry ≡ some (registry ++ (c ∷ []))
unfolding must_register
must_register-free c registry h = rw h refl

must_register-taken :
    (c : Counter) (registry : List Counter)
    → is_registered registry c.name ≡ true
    → must_register c registry ≡ none
unfolding must_register
must_register-taken c registry h = rw h refl

-- The names of the program's counters are free.
abbrev pub AreFree : List Counter → Type 0
AreFree registry =
    IsFree registry cel_evaluations_total.name
    × IsFree registry cel_mutations_total.name
    × IsFree registry config_reload_total.name
    × IsFree registry config_reload_failure_total.name

IsFree-append :
    (registry : List Counter) (c : Counter) (name : String)
    → (c.name == name) ≡ false
    → IsFree (registry ++ (c ∷ [])) name ↔ IsFree registry name
IsFree-append registry c name h =
    let same = registered-append registry c name h in
    (
      λ f.
          registered-IsFree registry name
            (sym same ∙ IsFree-registered (registry ++ (c ∷ [])) name f),
      λ f. registered-IsFree (registry ++ (c ∷ [])) name (same ∙ IsFree-registered registry name f),
    )

-- What a registration gives, and what it asks for.
abbrev pub IsRegistered : Option (List Counter) → List Counter → Type 0 → Type 0
IsRegistered x registry P = (P × (x ≡ some registry)) ⊎ ((¬ P) × (x ≡ none))

must_register-IsRegistered :
    (c : Counter) (registry : List Counter)
    → IsRegistered (must_register c registry) (registry ++ (c ∷ [])) (IsFree registry c.name)
must_register-IsRegistered c registry = elim (Bool-cases (is_registered registry c.name)) [
  | inr h ↦ inl (registered-IsFree registry c.name h, must_register-free c registry h)
  | inl h ↦
      inr
        (λ f. ground (arith, IsFree-registered registry c.name f), must_register-taken c registry h)
]

-- Two registrations, as each of the `init` functions makes.
pair-IsRegistered :
    (c d : Counter) (registry : List Counter)
    → (c.name == d.name) ≡ false
    → IsRegistered
        (bind (must_register c registry) (must_register d))
        ((registry ++ (c ∷ [])) ++ (d ∷ []))
        (IsFree registry c.name × IsFree registry d.name)
unfolding bind
pair-IsRegistered c d registry h = elim (must_register-IsRegistered c registry) [
  | inr (taken, e) ↦ inr (λ (f, _). taken f, rw e refl)
  | inl (free, e) ↦ elim (must_register-IsRegistered d (registry ++ (c ∷ []))) [
    | inr (taken, g) ↦ inr (λ (_, f). taken ((IsFree-append registry c d.name h).1 f), rw e g)
    | inl (free', g) ↦ inl ((free, (IsFree-append registry c d.name h).0 free'), rw e g)
  ]
]

-- The registry behind both `init` functions.
abbrev pub with_counters : List Counter → List Counter
with_counters registry =
    (((registry ++ (cel_evaluations_total ∷ [])) ++ (cel_mutations_total ∷ []))
      ++ (config_reload_total ∷ []))
    ++ (config_reload_failure_total ∷ [])

after_cel :
    (registry : List Counter) (name : String)
    → (cel_evaluations_total.name == name) ≡ false
    → (cel_mutations_total.name == name) ≡ false
    → IsFree ((registry ++ (cel_evaluations_total ∷ [])) ++ (cel_mutations_total ∷ [])) name
      ↔ IsFree registry name
after_cel registry name h k =
    let (to, fro) = IsFree-append registry cel_evaluations_total name h in
    let (to', fro') =
      IsFree-append (registry ++ (cel_evaluations_total ∷ [])) cel_mutations_total name k in
    (λ f. to (to' f), λ f. fro' (fro f))

abbrev with_cel_counters : List Counter → List Counter
with_cel_counters registry =
    (registry ++ (cel_evaluations_total ∷ [])) ++ (cel_mutations_total ∷ [])

init_webhook-IsRegistered :
    (registry : List Counter)
    → IsRegistered (init_webhook (with_cel_counters registry)) (with_counters registry) (
        IsFree registry config_reload_total.name × IsFree registry config_reload_failure_total.name)
init_webhook-IsRegistered registry =
    let (to, fro) = after_cel registry config_reload_total.name refl refl in
    let (to', fro') = after_cel registry config_reload_failure_total.name refl refl in
    elim (pair-IsRegistered config_reload_total config_reload_failure_total
      (with_cel_counters registry) refl) [
        | inl ((f, g), e) ↦ inl ((to f, to' g), e)
        | inr (taken, e) ↦ inr (λ (f, g). taken (fro f, fro' g), e)
      ]

-- The two `init` functions register the four counters if their names are free, and panic if not.
pub init-IsRegistered :
    (registry : List Counter)
    → IsRegistered
        (bind (init_cel registry) init_webhook)
        (with_counters registry)
        (AreFree registry)
unfolding bind
init-IsRegistered registry =
    elim (pair-IsRegistered cel_evaluations_total cel_mutations_total registry refl) [
      | inr (taken, e) ↦ inr (λ (f, g, _, _). taken (f, g), rw e refl)
      | inl ((f, g), e) ↦ elim (init_webhook-IsRegistered registry) [
        | inl ((h, k), d) ↦ inl ((f, g, h, k), rw e d)
        | inr (taken, d) ↦ inr (λ (_, _, h, k). taken (h, k), rw e d)
      ]
    ]
