-- ===== src/Webhook/PatchFilter.antt =====
-- internal/webhook/v1/pipelinerun_webhook.go, lines 55-99: the handler that strips patches outside
-- the fields that the webhook means to modify.
pub mod Filter
use tekton_kueue.Base.{
  ℕ, zero, suc, ◌+◌, String, Bool, true, false, Option, none, some, List, [], ◌∷◌, has_prefix,
  length, get_elem?, set, take, ltb, if◌then◌else◌,
}

-- A JSON patch operation.
pub record Patch : Type 0 where
  pub operation : String
  pub path : String
  pub value : String

-- `rest` is the text of the fields that the filter leaves alone.
pub record Response : Type 0 where
  pub patches : List Patch
  pub patch_type : Option String
  pub patch : Option String
  pub rest : String

abbrev pub allowed_patch_prefixes : List String
allowed_patch_prefixes =
    "/metadata/labels" ∷ "/metadata/annotations" ∷ "/spec/status" ∷ "/spec/managedBy" ∷ []

any_prefix : List String → String → Bool
any_prefix [] path = false
any_prefix (prefix ∷ prefixes) path =
    let rest = any_prefix prefixes path in if has_prefix path prefix then true else rest

unfoldable pub is_patch_allowed : String → Bool
unfolding any_prefix has_prefix
is_patch_allowed path = any_prefix allowed_patch_prefixes path

-- One round of the loop, at the element `p` of index `i`: `resp.Patches[n] = p` and `n++`.
compact_step : Option Patch → ℕ → List Patch → ℕ × List Patch
compact_step none n patches = (n, patches)
compact_step (some p) n patches =
    if is_patch_allowed p.path then (suc n, set patches n p) else (n, patches)

-- The loop with `rounds` left: it writes into the slice that it reads.
compact : ℕ → ℕ → ℕ → List Patch → ℕ × List Patch
compact zero i n patches = (n, patches)
compact (suc rounds) i n patches =
    let (n', patches') = compact_step (get_elem? patches i) n patches in
    compact rounds (suc i) n' patches'

-- What follows the loop: the slice is cut to `n`, and an empty patch is no patch.
cut : Response → ℕ × List Patch → Response
cut resp (zero, patches) = record resp { patches = []; patch_type = none; patch = none }
cut resp (suc n, patches) = record resp { patches = take (suc n) patches }

filter_patches : Response → List Patch → Response
filter_patches resp [] = resp
filter_patches resp (p ∷ ps) = cut resp (compact (length (p ∷ ps)) 0 0 (p ∷ ps))

-- `Handle` on the response of the inner handler.
unfoldable pub filter_response : Response → Response
unfolding filter_patches compact cut compact_step is_patch_allowed
filter_response resp = filter_patches resp resp.patches

-- `w.inner` is controller-runtime's handler, from a request to a response.
unfoldable pub handle {ℓ} : {Request : Type ℓ} → (Request → Response) → Request → Response
unfolding filter_response
handle inner req = filter_response (inner req)
