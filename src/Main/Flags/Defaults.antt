-- ===== src/Main/Flags/Defaults.antt =====
-- cmd/main.go, lines 85-168: the flags of each subcommand are defined once, and hold their defaults.
use mathlib.Core.Option.{bind}
use tekton_kueue.Base.{String, Bool, true, false, Option, some, [], ◌++◌, lookup, insert, ◌≡◌, refl}
use tekton_kueue.Base.Int.{ℤ, pos}
use tekton_kueue.Main.{SharedFlags, WebhookFlags}
use tekton_kueue.Main.Flags.{
  FlagSet, string_value, bool_value, duration_value, get_bool, get_string, get_duration,
  FlagLibraries, var, vars, shared_flags, leader_flags, webhook_cert_flags, mutate_flags,
  add_shared_flags, add_controller_flags, add_webhook_flags, add_mutate_flags, ControllerFlags,
  read_shared_flags, read_controller_flags, read_webhook_flags, read_mutate_flags,
}
use tekton_kueue.Main.Flags.Names.{
  AreApart, AreDistinct, AreApart-sym, AreApart-append, AreApart-of_append, AreApart-of_All,
  AreDistinct-of_lookups, vars_lem, register_missing, register_missing_lem, lookup_behind,
}

abbrev pub program_flags : FlagSet
program_flags = shared_flags ++ (leader_flags ++ (webhook_cert_flags ++ mutate_flags))

program_apart :
    (zs : FlagSet)
    → AreApart program_flags zs
    → AreApart shared_flags zs
      × AreApart leader_flags zs
      × AreApart webhook_cert_flags zs
      × AreApart mutate_flags zs
program_apart zs h =
    let (s, h1) =
      AreApart-of_append shared_flags (leader_flags ++ (webhook_cert_flags ++ mutate_flags)) zs h in
    let (l, h2) = AreApart-of_append leader_flags (webhook_cert_flags ++ mutate_flags) zs h1 in
    let (w, m) = AreApart-of_append webhook_cert_flags mutate_flags zs h2 in (s, l, w, m)

abbrev pub shared_defaults : SharedFlags
shared_defaults = record {
  config_dir = "";
  metrics_addr = "0";
  metrics_cert_path = "";
  metrics_cert_name = "tls.crt";
  metrics_cert_key = "tls.key";
  secure_metrics = true;
  probe_addr = ":8081";
  enable_http2 = false;
  qps = 0;
  burst = pos 0;
}

abbrev pub controller_defaults : ControllerFlags
controller_defaults = record {
  enable_leader_election = false;
  lease_duration = pos 15000000000;
  renew_deadline = pos 10000000000;
  retry_period = pos 2000000000;
}

abbrev pub webhook_defaults : WebhookFlags
webhook_defaults = record {
  webhook_cert_path = "";
  webhook_cert_name = "tls.crt";
  webhook_cert_key = "tls.key";
}

get_bool_lem :
    (fs : FlagSet) (k : String) (v : Bool) → lookup fs k ≡ some (bool_value v) → get_bool fs k ≡ v
get_bool_lem fs k v e = rw (get_bool, e) refl

get_string_lem :
    (fs : FlagSet) (k : String) (v : String)
    → lookup fs k ≡ some (string_value v)
    → get_string fs k ≡ v
get_string_lem fs k v e = rw (get_string, e) refl

get_duration_lem :
    (fs : FlagSet) (k : String) (v : ℤ)
    → lookup fs k ≡ some (duration_value v)
    → get_duration fs k ≡ v
get_duration_lem fs k v e = rw (get_duration, e) refl

read_controller_flags_lem :
    (fs : FlagSet)
    → AreApart fs leader_flags
    → read_controller_flags (fs ++ leader_flags) ≡ controller_defaults
unfolding read_controller_flags lookup
read_controller_flags_lem fs h =
    let duration : (k : String) (v : ℤ)
        → lookup leader_flags k ≡ some (duration_value v)
        → get_duration (fs ++ leader_flags) k ≡ v =
      λ k v e. get_duration_lem (fs ++ leader_flags) k v (lookup_behind fs leader_flags k h e) in
    let elect : get_bool (fs ++ leader_flags) "leader-elect" ≡ false =
      get_bool_lem (fs ++ leader_flags) "leader-elect" false
        (lookup_behind fs leader_flags "leader-elect" h refl) in
    λ i. record {
      enable_leader_election = elect i;
      lease_duration = duration "leader-elect-lease-duration" (pos 15000000000) refl i;
      renew_deadline = duration "leader-elect-renew-deadline" (pos 10000000000) refl i;
      retry_period = duration "leader-elect-retry-period" (pos 2000000000) refl i;
    }

read_webhook_flags_lem :
    (fs : FlagSet)
    → AreApart fs webhook_cert_flags
    → read_webhook_flags (fs ++ webhook_cert_flags) ≡ webhook_defaults
unfolding read_webhook_flags lookup
read_webhook_flags_lem fs h =
    let found : (k v : String)
        → lookup webhook_cert_flags k ≡ some (string_value v)
        → get_string (fs ++ webhook_cert_flags) k ≡ v =
      λ k v e.
        get_string_lem (fs ++ webhook_cert_flags) k v (lookup_behind fs webhook_cert_flags k h e) in
    λ i. record {
      webhook_cert_path = found "webhook-cert-path" "" refl i;
      webhook_cert_name = found "webhook-cert-name" "tls.crt" refl i;
      webhook_cert_key = found "webhook-cert-key" "tls.key" refl i;
    }

-- A flag set that was made without a panic, and what holds of it.
abbrev pub HasDefaults : Option FlagSet → (FlagSet → Type 0) → Type 0
HasDefaults made P = (fs : FlagSet) × (made ≡ some fs) × P fs

module _ (F : FlagLibraries) where
  -- The libraries define the flags `zap` and `kube`, all of different names, and none with a name of
  -- the program's: zap's `BindFlags` in the way of `vars`, and controller-runtime's `RegisterFlags`
  -- "if not already registered".
  pub record HasFlags (zap kube : FlagSet) : Type 0 where
    pub binds : (fs : FlagSet) → F.bind_flags fs ≡ vars zap fs
    pub registers : (fs : FlagSet) → F.register_flags fs ≡ some (register_missing kube fs)
    pub zap_distinct : AreDistinct zap
    pub kube_distinct : AreDistinct kube
    pub zap_apart : AreApart program_flags zap
    pub kube_apart : AreApart (program_flags ++ zap) kube

  module _ (zap kube : FlagSet) (H : HasFlags zap kube) where
    abbrev both : FlagSet
    both = (shared_flags ++ zap) ++ kube

    add_shared_flags_lem : add_shared_flags F [] ≡ some both
    unfolding add_shared_flags vars var bind lookup insert
    add_shared_flags_lem =
        let a = (program_apart zap H.zap_apart).0 in
        let (b, c) = AreApart-of_append program_flags zap kube H.kube_apart in
        let d = (program_apart kube b).0 in
        rw
          (
            H.binds shared_flags,
            vars_lem zap shared_flags H.zap_distinct a,
            H.registers (shared_flags ++ zap),
            register_missing_lem kube (shared_flags ++ zap) H.kube_distinct
                (AreApart-append shared_flags zap kube d c),
          )
          refl

    both_apart :
        (rows : FlagSet)
        → AreApart shared_flags rows
        → AreApart rows zap
        → AreApart rows kube
        → AreApart both rows
    both_apart rows s z k =
        AreApart-append (shared_flags ++ zap) kube rows
          (AreApart-append shared_flags zap rows s (AreApart-sym rows zap z))
          (AreApart-sym rows kube k)

    -- More flags of the program's behind the shared ones and the libraries'.
    vars-both :
        (rows : FlagSet)
        → AreDistinct rows
        → AreApart both rows
        → bind (add_shared_flags F []) (vars rows) ≡ some (both ++ rows)
    unfolding bind
    vars-both rows d a = rw add_shared_flags_lem (vars_lem rows both d a)

    kube_program : AreApart program_flags kube
    kube_program = (AreApart-of_append program_flags zap kube H.kube_apart).0

    leader_apart : AreApart both leader_flags
    unfolding lookup
    leader_apart =
        both_apart leader_flags
          (AreApart-of_All shared_flags leader_flags (refl, (refl, (refl, (refl, tt)))))
          ((program_apart zap H.zap_apart).1) ((program_apart kube kube_program).1)

    webhook_apart : AreApart both webhook_cert_flags
    unfolding lookup
    webhook_apart =
        both_apart webhook_cert_flags
          (AreApart-of_All shared_flags webhook_cert_flags (refl, (refl, (refl, tt))))
          ((program_apart zap H.zap_apart).2) ((program_apart kube kube_program).2)

    controller_flags_lem : add_controller_flags F [] ≡ some (both ++ leader_flags)
    unfolding add_controller_flags lookup
    controller_flags_lem =
        vars-both leader_flags
          (AreDistinct-of_lookups leader_flags
            ((refl, (refl, (refl, tt))), ((refl, (refl, tt)), ((refl, tt), (tt, tt)))))
          leader_apart

    webhook_flags_lem : add_webhook_flags F [] ≡ some (both ++ webhook_cert_flags)
    unfolding add_webhook_flags lookup
    webhook_flags_lem =
        vars-both webhook_cert_flags
          (AreDistinct-of_lookups webhook_cert_flags ((refl, (refl, tt)), ((refl, tt), (tt, tt))))
          webhook_apart

    mutate_flags_lem : add_mutate_flags F [] ≡ some (mutate_flags ++ zap)
    unfolding add_mutate_flags vars var lookup insert bind
    mutate_flags_lem =
        rw (H.binds mutate_flags)
          (vars_lem zap mutate_flags H.zap_distinct ((program_apart zap H.zap_apart).3))

    -- No flag is defined twice, whatever the libraries' flags are, as long as their names are their own:
    -- each subcommand gets its flag set, and before the arguments are parsed the fields read the defaults.
    pub add_flags-AreDefined :
        HasDefaults (add_controller_flags F []) (λ fs.
          (read_shared_flags fs ≡ shared_defaults)
          × (read_controller_flags fs ≡ controller_defaults))
        × HasDefaults (add_webhook_flags F []) (λ fs.
          (read_shared_flags fs ≡ shared_defaults) × (read_webhook_flags fs ≡ webhook_defaults))
        × HasDefaults
            (add_mutate_flags F [])
            (λ fs. read_mutate_flags fs ≡ record { pipeline_run_file = ""; config_dir = "" })
    unfolding read_shared_flags read_mutate_flags lookup
    add_flags-AreDefined = (
      (
        both ++ leader_flags,
        controller_flags_lem,
        (refl, read_controller_flags_lem both leader_apart),
      ),
      (
        both ++ webhook_cert_flags,
        webhook_flags_lem,
        (refl, read_webhook_flags_lem both webhook_apart),
      ),
      (mutate_flags ++ zap, mutate_flags_lem, refl),
    )
