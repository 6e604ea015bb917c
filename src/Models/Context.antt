-- ===== src/Models/Context.antt =====
-- The context limits that a pool promises.
use imperial_auto_governor.Common.{
  ℕ, ◌≤◌, ◌≡◌, subst, Bool, Option, none, some, List, [], ◌∷◌, arith, min, All,
}
use imperial_auto_governor.Models.{
  ModelEndpoint, PoolRuntime, ProviderFilter, candidates, context_endpoint, least,
}

weaker :
    (f : ModelEndpoint → ℕ) (a b : ℕ) (es : List ModelEndpoint)
    → a ≤ b
    → All (λ d. b ≤ f d) es
    → All (λ d. a ≤ f d) es
weaker f a b [] h below = tt
weaker f a b (e ∷ es) h (first, below) = (omega arith, weaker f a b es h below)

least_bounds :
    (f : ModelEndpoint → ℕ) (e : ModelEndpoint) (es : List ModelEndpoint)
    → All (λ d. least f e es ≤ f d) (e ∷ es)
least_bounds f e [] = (omega arith, tt)
least_bounds f e (d ∷ es) =
    let (first, below) = least_bounds f d es in
    (
      omega arith,
      (
        omega (arith, first),
        weaker f (min (f e) (least f d es)) (least f d es) es (omega arith) below,
      ),
    )

-- Limits within those of an endpoint.
pub record IsWithin (c d : ModelEndpoint) : Type 0 where
  pub window : c.context_window ≤ d.context_window
  pub output : c.max_output ≤ d.max_output

IsWithin-both :
    (c : ModelEndpoint) (es : List ModelEndpoint)
    → All (λ (d : ModelEndpoint). c.context_window ≤ d.context_window) es
    → All (λ (d : ModelEndpoint). c.max_output ≤ d.max_output) es
    → All (IsWithin c) es
IsWithin-both c [] windows outputs = tt
IsWithin-both c (e ∷ es) (w, windows) (o, outputs) =
    (record { window = w; output = o }, IsWithin-both c es windows outputs)

abbrev limited : ModelEndpoint → List ModelEndpoint → ModelEndpoint
limited e rest = record e {
  context_window = least (λ (d : ModelEndpoint). d.context_window) e rest;
  max_output =
      min (least (λ (d : ModelEndpoint). d.max_output) e rest)
        (least (λ (d : ModelEndpoint). d.context_window) e rest);
}

endpoint-eq : (c d : ModelEndpoint) → ◌≡◌ {A = Option ModelEndpoint} (some c) (some d) → c ≡ d
endpoint-eq c d h = cc

limited-IsWithin :
    (es : List ModelEndpoint) (c : ModelEndpoint)
    → elim es [ [] ↦ none | e ∷ rest ↦ some (limited e rest) ] ≡ some c
    → All (IsWithin c) es × (c.max_output ≤ c.context_window)
limited-IsWithin [] c h = absurd (ground arith)
limited-IsWithin (e ∷ rest) c h =
    let promised = limited e rest in
    let reserve = least (λ (d : ModelEndpoint). d.max_output) e rest in
    let windows = least_bounds (λ (d : ModelEndpoint). d.context_window) e rest in
    let outputs =
      weaker (λ (d : ModelEndpoint). d.max_output) promised.max_output reserve (e ∷ rest)
        (omega arith) (least_bounds (λ (d : ModelEndpoint). d.max_output) e rest) in
    subst (λ (x : ModelEndpoint). All (IsWithin x) (e ∷ rest) × (x.max_output ≤ x.context_window))
      (endpoint-eq promised c h) (IsWithin-both promised (e ∷ rest) windows outputs, omega arith)

-- The endpoint that `context_endpoint` gives promises a context window and an output that every candidate
-- has, so that the context still fits after a change of endpoint, and its output fits into its window.
pub context_endpoint-IsWithin :
    (now : ℕ) (provider : ProviderFilter) (require_tools : Bool) (r : PoolRuntime)
    (c : ModelEndpoint)
    → context_endpoint now provider require_tools r ≡ some c
    → All (IsWithin c) (candidates now provider require_tools r) × (c.max_output ≤ c.context_window)
unfolding context_endpoint
context_endpoint-IsWithin now provider require_tools r c h =
    limited-IsWithin (candidates now provider require_tools r) c h
