-- ===== src/Webhook/PatchFilter/Filter.antt =====
-- The loop that compacts the slice in place is a filter.
use mathlib.Core.List.{append_assoc, append-nil}
use mathlib.Core.Path.{subst₂}
use tekton_kueue.Base.{
  ℕ, suc, ◌+◌, true, false, List, [], ◌∷◌, ◌++◌, length, get_elem?, set, if◌then◌else◌, ◌≡◌, ◌⊎◌,
  inl, inr, refl, sym, ◌∙◌, ap, get_elem?-append, set-append, take-append, Bool-cases, arith,
  length-append, String, none, some, ◌<>◌, ◌↔◌, has_prefix, cut_prefix, cut_prefix_iff,
  Option-cases, some-ne-none,
}
use tekton_kueue.Webhook.PatchFilter.{
  any_prefix, allowed_patch_prefixes, Patch, Response, is_patch_allowed, compact_step, compact, cut,
  filter_patches, filter_response,
}

-- The patches that stay, in their order.
pub keep : List Patch → List Patch
keep [] = []
keep (p ∷ ps) = let rest = keep ps in if is_patch_allowed p.path then p ∷ rest else rest

set_middle :
    (ks js rs : List Patch) (p : Patch)
    → (js' : List Patch) × (length js' ≡ length js)
      × (set (ks ++ (js ++ (p ∷ rs))) (length ks) p ≡ (ks ++ (p ∷ [])) ++ (js' ++ rs))
set_middle ks [] rs p = ([], refl, set-append ks rs p p ∙ sym (append_assoc ks (p ∷ []) rs))
set_middle ks (j ∷ js) rs p = (
  js ++ (p ∷ []),
  length-append js (p ∷ []) ∙ omega arith,
  set-append ks (js ++ (p ∷ rs)) j p
      ∙ ap (λ l. ks ++ (p ∷ l)) (sym (append_assoc js (p ∷ []) rs))
      ∙ sym (append_assoc ks (p ∷ []) _),
)

get_elem?_middle :
    (ks js rs : List Patch) (p : Patch) (i : ℕ)
    → i ≡ length ks + length js
    → get_elem? (ks ++ (js ++ (p ∷ rs))) i ≡ some p
get_elem?_middle ks js rs p i h =
    ap (λ (j : ℕ). get_elem? (ks ++ (js ++ (p ∷ rs))) j) (h ∙ sym (length-append ks js))
    ∙ ap (λ l. get_elem? l (length (ks ++ js))) (sym (append_assoc ks js (p ∷ rs)))
    ∙ get_elem?-append (ks ++ js) rs p

compact_step_kept :
    (ks js rs : List Patch) (p : Patch) (i n : ℕ)
    → i ≡ length ks + length js
    → n ≡ length ks
    → is_patch_allowed p.path ≡ true
    → compact_step (get_elem? (ks ++ (js ++ (p ∷ rs))) i) n (ks ++ (js ++ (p ∷ rs)))
      ≡ (suc n, (ks ++ (p ∷ [])) ++ ((set_middle ks js rs p).0 ++ rs))
unfolding compact_step
compact_step_kept ks js rs p i n hi hn e =
    rw (get_elem?_middle ks js rs p i hi, compact_step, e)
      (ap (λ l. (suc n, l))
        (ap (λ (j : ℕ). set (ks ++ (js ++ (p ∷ rs))) j p) hn ∙ (set_middle ks js rs p).2))

compact_step_skipped :
    (ks js rs : List Patch) (p : Patch) (i n : ℕ)
    → i ≡ length ks + length js
    → is_patch_allowed p.path ≡ false
    → compact_step (get_elem? (ks ++ (js ++ (p ∷ rs))) i) n (ks ++ (js ++ (p ∷ rs)))
      ≡ (n, ks ++ ((js ++ (p ∷ [])) ++ rs))
unfolding compact_step
compact_step_skipped ks js rs p i n hi e =
    rw (get_elem?_middle ks js rs p i hi, compact_step, e)
      (ap (λ l. (n, ks ++ l)) (sym (append_assoc js (p ∷ []) rs)))

-- What the loop leaves: the kept patches in front, and their number.
abbrev IsCompacted : List Patch → ℕ × List Patch → Type 0
IsCompacted ks r = (junk : List Patch) × (r ≡ (length ks, ks ++ junk))

compact_round :
    (rounds i n : ℕ) (patches : List Patch) (r : ℕ × List Patch)
    → compact_step (get_elem? patches i) n patches ≡ r
    → compact (suc rounds) i n patches ≡ compact rounds (suc i) r.0 r.1
unfolding compact
compact_round rounds i n patches r e = ap (λ (s : ℕ × List Patch). compact rounds (suc i) s.0 s.1) e

keep_cons :
    (ks ps : List Patch) (p : Patch)
    → ((is_patch_allowed p.path ≡ true) × ((ks ++ (p ∷ [])) ++ keep ps ≡ ks ++ keep (p ∷ ps)))
      ⊎ ((is_patch_allowed p.path ≡ false) × (ks ++ keep ps ≡ ks ++ keep (p ∷ ps)))
unfolding keep
keep_cons ks ps p = elim (Bool-cases (is_patch_allowed p.path)) [
  | inl e ↦ inl (e, rw (append_assoc, e))
  | inr e ↦ inr (e, rw e)
]

-- The slice is what was kept, what was overwritten or skipped, and what is still to be read.
compact_lem :
    (ks js rs : List Patch) (i n : ℕ)
    → i ≡ length ks + length js
    → n ≡ length ks
    → IsCompacted (ks ++ keep rs) (compact (length rs) i n (ks ++ (js ++ rs)))
unfolding compact keep
compact_lem ks js [] i n hi hn =
    (js, rw (append-nil ks, append-nil js) (ap (λ m. (m, ks ++ js)) hn))
compact_lem ks js (p ∷ rs) i n hi hn = elim (keep_cons ks rs p) [
  | inl (e, kept) ↦
      subst₂ IsCompacted kept
        (sym (compact_round (length rs) i n _ _ (compact_step_kept ks js rs p i n hi hn e)))
        (compact_lem (ks ++ (p ∷ [])) (set_middle ks js rs p).0 rs (suc i) (suc n)
          (omega (arith, (set_middle ks js rs p).1, length-append ks (p ∷ [])))
          (omega (arith, length-append ks (p ∷ []))))
  | inr (e, kept) ↦
      subst₂ IsCompacted kept
        (sym (compact_round (length rs) i n _ _ (compact_step_skipped ks js rs p i n hi e)))
        (compact_lem ks (js ++ (p ∷ [])) rs (suc i) n (omega (arith, length-append js (p ∷ []))) hn)
]

-- What a filtered response is: the kept patches alone, with no patch and no patch type if there
-- were patches and none is kept.
pub expected : Response → List Patch → List Patch → Response
expected resp [] kept = resp
expected resp (p ∷ ps) [] = record resp { patches = []; patch_type = none; patch = none }
expected resp (p ∷ ps) (q ∷ qs) = record resp { patches = q ∷ qs }

cut-expected :
    (resp : Response) (p : Patch) (ps kept : List Patch) (r : ℕ × List Patch)
    → IsCompacted kept r
    → cut resp r ≡ expected resp (p ∷ ps) kept
unfolding cut expected
cut-expected resp p ps [] r (junk, e) = rw (e, cut)
cut-expected resp p ps (q ∷ qs) r (junk, e) =
    rw (e, cut) (ap (λ l. record resp { patches = q ∷ l }) (take-append qs junk))

filter_patches-expected :
    (resp : Response) (ps : List Patch) → filter_patches resp ps ≡ expected resp ps (keep ps)
unfolding filter_patches expected
filter_patches-expected resp [] = refl
filter_patches-expected resp (p ∷ ps) =
    cut-expected resp p ps (keep (p ∷ ps)) _ (compact_lem [] [] (p ∷ ps) 0 0 refl refl)

-- The response keeps the allowed patches and no other, in their order, and all its other fields;
-- if it had patches and none stays, patch and patch type are dropped.
filter_response-expected :
    (resp : Response) → filter_response resp ≡ expected resp resp.patches (keep resp.patches)
unfolding filter_response
filter_response-expected resp = filter_patches-expected resp resp.patches

has_prefix_iff :
    (s prefix : String) → (has_prefix s prefix ≡ true) ↔ ((rest : String) × (s ≡ prefix <> rest))
unfolding has_prefix
has_prefix_iff s prefix = elim (Option-cases (cut_prefix s prefix)) [
  | inl e ↦
      rw (e, has_prefix)
        (
          λ h. cc,
          λ (rest, same). absurd (some-ne-none (sym ((cut_prefix_iff s prefix rest).1 same) ∙ e)),
        )
  | inr (rest, e) ↦ rw (e, has_prefix) (λ h. (rest, (cut_prefix_iff s prefix rest).0 e), λ h. refl)
]

-- The path begins with one of the texts.
abbrev pub StartsWith : List String → String → Type 0
StartsWith [] path = ⊥
StartsWith (prefix ∷ prefixes) path =
    ((rest : String) × (path ≡ prefix <> rest)) ⊎ StartsWith prefixes path

any_prefix_iff :
    (prefixes : List String) (path : String)
    → (any_prefix prefixes path ≡ true) ↔ StartsWith prefixes path
unfolding any_prefix
any_prefix_iff [] path = (λ h. cc, λ h. absurd h)
any_prefix_iff (prefix ∷ prefixes) path = elim (Bool-cases (has_prefix path prefix)) [
  | inl e ↦ rw e (λ _. inl ((has_prefix_iff path prefix).0 e), λ _. refl)
  | inr e ↦ rw e (
    λ h. inr ((any_prefix_iff prefixes path).0 h),
    λ h. elim h [
      | inl found ↦
          absurd (let clash : true ≡ false = sym ((has_prefix_iff path prefix).1 found) ∙ e in cc)
      | inr more ↦ (any_prefix_iff prefixes path).1 more
    ],
  )
]

-- A path is allowed exactly if it begins with one of the four prefixes.
is_patch_allowed_iff :
    (path : String)
    → (is_patch_allowed path ≡ true)
      ↔ StartsWith
          ("/metadata/labels" ∷ "/metadata/annotations" ∷ "/spec/status" ∷ "/spec/managedBy" ∷ [])
          path
unfolding is_patch_allowed
is_patch_allowed_iff path = any_prefix_iff allowed_patch_prefixes path

-- The response keeps, in their order, the patches whose path begins with one of the four prefixes, and
-- no other, and all its other fields; if it had patches and none stays, patch and patch type are
-- dropped.
pub filter_response-IsFiltered :
    (resp : Response)
    → (filter_response resp ≡ expected resp resp.patches (keep resp.patches))
      × ((path : String)
          → (is_patch_allowed path ≡ true)
            ↔ StartsWith
                ("/metadata/labels" ∷ "/metadata/annotations" ∷ "/spec/status" ∷ "/spec/managedBy"
                  ∷ [])
                path)
filter_response-IsFiltered resp = (filter_response-expected resp, is_patch_allowed_iff)
