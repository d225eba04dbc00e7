-- ===== src/Controller/Job/Requests.antt =====
-- The resource requests that annotations make.
use mathlib.Core.Path.{subst}
use mathlib.Core.Option.{some-injective}
use tekton_kueue.Base.{
  String, false, Option, none, some, List, [], ◌∷◌, ◌==◌, eq_iff, ◌<>◌, cut_prefix, cut_prefix_iff,
  Dict, lookup, lookup-insert, unretryable, Result, ok, err, >>=-eq-ok, if◌then◌else◌, ◌≡◌, ◌≢◌,
  refl, sym, ap, ◌∙◌, inl, inr, arith, Option-cases, Result-cases, Bool-cases, some-ne-none,
  err-ne-ok,
}
use tekton_kueue.Controller.Job.{
  Quantities, resource_pipeline_run_count, annotation_resources_requests, parse_requested_quantity,
  parse_resource_name, parse_resources_requests_annotation, put, requests_loop, resources_requests,
}

-- A map has each key once.
abbrev pub IsMap : Dict String → Type 0
IsMap [] = Unit
IsMap ((k, v) ∷ m) = (lookup m k ≡ none) × IsMap m

-- The annotation key of a resource.
abbrev pub requests_key : String → String
requests_key n = annotation_resources_requests <> n

pub requests_key-injective : (n t : String) → requests_key n ≡ requests_key t → n ≡ t
requests_key-injective n t h = some-injective _ _ (
    sym ((cut_prefix_iff (requests_key n) annotation_resources_requests n).1 refl)
    ∙ (cut_prefix_iff (requests_key n) annotation_resources_requests t).1 h)

module _ (Q : Quantities) where
  -- What an annotation of a resource must be: named, not the token, with a quantity that parses and is
  -- not negative.
  pub record IsRequest (k v t : String) (q : Q.Quantity) : Type 0 where
    pub keyed : k ≡ requests_key t
    pub named : t ≢ ""
    pub no_token : t ≢ resource_pipeline_run_count
    pub parsed : Q.parse_quantity v ≡ ok q
    pub signed : Q.is_negative q ≡ false

  pub data IsParsed (k v : String) : Result (Option (String × Q.Quantity)) → Type 0 where
    ignored : ((t : String) → k ≢ requests_key t) → IsParsed k v (ok none)
    requested : (t : String) (q : Q.Quantity) → IsRequest k v t q → IsParsed k v (ok (some (t, q)))
    rejected :
        (t format : String) (args : List String)
        → k ≡ requests_key t
        → ((q : Q.Quantity) → ¬ IsRequest k v t q)
        → IsParsed k v (err (unretryable format args))

  parse_requested_quantity-IsParsed :
      (k v t : String)
      → k ≡ requests_key t
      → t ≢ ""
      → t ≢ resource_pipeline_run_count
      → IsParsed k v (parse_requested_quantity Q k v t)
  unfolding parse_requested_quantity
  parse_requested_quantity-IsParsed k v t keyed named token =
      elim (Result-cases (Q.parse_quantity v)) [
        | inr (e, p) ↦
            rw (p, parse_requested_quantity)
              (rejected t _ _ keyed (λ q r. err-ne-ok (sym p ∙ r.parsed)))
        | inl (q, p) ↦ elim (Bool-cases (Q.is_negative q)) [
          | inl n ↦
              rw (p, n, parse_requested_quantity)
                (rejected t _ _ keyed (λ q' r. ground (arith, r.parsed, r.signed)))
          | inr n ↦
              rw (p, n, parse_requested_quantity)
                (requested t q (record {
                  keyed = keyed;
                  named = named;
                  no_token = token;
                  parsed = p;
                  signed = n;
                }))
        ]
      ]

  parse_resource_name-IsParsed :
      (k v t : String) → k ≡ requests_key t → IsParsed k v (parse_resource_name Q k v (some t))
  unfolding parse_resource_name
  parse_resource_name-IsParsed k v t keyed = elim (Bool-cases (t == "")) [
    | inl e ↦
        rw (e, parse_resource_name) (rejected t _ _ keyed (λ q r. r.named ((eq_iff t "").0 e)))
    | inr e ↦ elim (Bool-cases (t == resource_pipeline_run_count)) [
      | inl f ↦
          rw (e, f, parse_resource_name)
            (rejected t _ _ keyed (λ q r. r.no_token ((eq_iff t resource_pipeline_run_count).0 f)))
      | inr f ↦
          rw (e, f, parse_resource_name)
            (parse_requested_quantity-IsParsed k v t keyed (ground (arith, eq_iff t ""))
              (ground (arith, eq_iff t resource_pipeline_run_count)))
    ]
  ]

  pub parse-IsParsed : (k v : String) → IsParsed k v (parse_resources_requests_annotation Q k v)
  unfolding parse_resources_requests_annotation
  parse-IsParsed k v = elim (Option-cases (cut_prefix k annotation_resources_requests)) [
    | inl e ↦
        rw (e, parse_resource_name)
          (ignored (λ t h.
            some-ne-none (sym ((cut_prefix_iff k annotation_resources_requests t).1 h) ∙ e)))
    | inr (t, e) ↦ rw e (
        parse_resource_name-IsParsed k v t ((cut_prefix_iff k annotation_resources_requests t).0 e))
  ]

  -- The quantity that an annotation's value asks for; without one the request that was there stays.
  abbrev pub requested_quantity : Option String → Option Q.Quantity → Option Q.Quantity
  requested_quantity none old = old
  requested_quantity (some v) old = elim (Q.parse_quantity v) [ ok q ↦ some q | err e ↦ none ]

  abbrev IsPut :
      Dict Q.Quantity → String → String → String → Result (Option (String × Q.Quantity)) → Type 0
  IsPut requests n k v (err e) = Unit
  IsPut requests n k v (ok o) = lookup (put Q requests o) n ≡ (
      if k == requests_key n
      then requested_quantity (some v) (lookup requests n)
      else lookup requests n)

  IsParsed-IsPut :
      (requests : Dict Q.Quantity) (n k v : String) (x : Result (Option (String × Q.Quantity)))
      → IsParsed k v x
      → IsPut requests n k v x
  IsParsed-IsPut requests n k v _ (ignored other) =
      ground (arith, eq_iff k (requests_key n), other n)
  IsParsed-IsPut requests n k v _ (rejected t format args keyed other) = tt
  IsParsed-IsPut requests n k v _ (requested t q r) = ground (
    arith,
    lookup-insert requests t q n,
    eq_iff k (requests_key n),
    eq_iff t n,
    r.keyed,
    r.parsed,
    requests_key-injective t n,
  )

  abbrev IsTokenKept : Dict Q.Quantity → Result (Option (String × Q.Quantity)) → Type 0
  IsTokenKept requests (err e) = Unit
  IsTokenKept requests (ok o) =
      lookup (put Q requests o) resource_pipeline_run_count
      ≡ lookup requests resource_pipeline_run_count

  IsParsed-IsTokenKept :
      (requests : Dict Q.Quantity) (k v : String) (x : Result (Option (String × Q.Quantity)))
      → IsParsed k v x
      → IsTokenKept requests x
  IsParsed-IsTokenKept requests k v _ (ignored other) = refl
  IsParsed-IsTokenKept requests k v _ (rejected t format args keyed other) = tt
  IsParsed-IsTokenKept requests k v _ (requested t q r) = ground (
    arith,
    lookup-insert requests t q resource_pipeline_run_count,
    eq_iff t resource_pipeline_run_count,
    r.no_token,
  )

  requests_loop-token :
      (requests : Dict Q.Quantity) (visited : Dict String) (rs : Dict Q.Quantity)
      → requests_loop Q requests visited ≡ ok rs
      → lookup rs resource_pipeline_run_count ≡ lookup requests resource_pipeline_run_count
  unfolding requests_loop
  requests_loop-token requests [] rs h = ground arith
  requests_loop-token requests ((k, v) ∷ visited) rs h =
      let (o, p, rest) = >>=-eq-ok (parse_resources_requests_annotation Q k v) _ h in
      let kept : IsTokenKept requests (ok o) =
        subst (IsTokenKept requests) p (IsParsed-IsTokenKept requests k v _ (parse-IsParsed k v)) in
      requests_loop-token (put Q requests o) visited rs rest ∙ kept

  lookup_cons :
      (requests : Dict Q.Quantity) (n k v : String) (visited : Dict String)
      (o : Option (String × Q.Quantity))
      → lookup visited k ≡ none
      → IsPut requests n k v (ok o)
      → requested_quantity (lookup visited (requests_key n)) (lookup (put Q requests o) n)
        ≡ requested_quantity (lookup ((k, v) ∷ visited) (requests_key n)) (lookup requests n)
  unfolding lookup
  lookup_cons requests n k v visited o fresh is_put = elim (Bool-cases (k == requests_key n)) [
    | inl e ↦
        let empty : lookup visited (requests_key n) ≡ none =
          subst (λ j. lookup visited j ≡ none) ((eq_iff k (requests_key n)).0 e) fresh in
        rw (empty, e) (rw e at is_put)
    | inr e ↦
        rw e (ap (λ old. requested_quantity (lookup visited (requests_key n)) old) (rw e at is_put))
  ]

  requests_loop-lookup :
      (n : String) (requests : Dict Q.Quantity) (visited : Dict String) (rs : Dict Q.Quantity)
      → IsMap visited
      → requests_loop Q requests visited ≡ ok rs
      → lookup rs n ≡ requested_quantity (lookup visited (requests_key n)) (lookup requests n)
  unfolding requests_loop lookup
  requests_loop-lookup n requests [] rs m h = ground arith
  requests_loop-lookup n requests ((k, v) ∷ visited) rs (fresh, m) h =
      let (o, p, rest) = >>=-eq-ok (parse_resources_requests_annotation Q k v) _ h in
      requests_loop-lookup n (put Q requests o) visited rs m rest
      ∙ lookup_cons requests n k v visited o fresh
          (subst (IsPut requests n k v) p (IsParsed-IsPut requests n k v _ (parse-IsParsed k v)))

  -- If annotations with each key once make requests, these are, whatever the order in which the
  -- annotations are visited: one unit of the token, and for each other resource the quantity of its
  -- annotation, if there is one.
  pub resources_requests-lookup :
      (visited : Dict String) (rs : Dict Q.Quantity)
      → IsMap visited
      → resources_requests Q visited ≡ ok rs
      → (lookup rs resource_pipeline_run_count ≡ some (Q.must_parse "1"))
        × ((n : String)
            → n ≢ resource_pipeline_run_count
            → lookup rs n ≡ requested_quantity (lookup visited (requests_key n)) none)
  unfolding resources_requests lookup
  resources_requests-lookup visited rs m h = (
    requests_loop-token _ visited rs h,
    λ n other.
        requests_loop-lookup n _ visited rs m h
        ∙ ap (requested_quantity (lookup visited (requests_key n)))
            (ground (arith, eq_iff resource_pipeline_run_count n)),
  )
