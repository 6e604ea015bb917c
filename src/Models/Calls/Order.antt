-- ===== src/Models/Calls/Order.antt =====
-- Which endpoint answers, and which were tried before it.
use imperial_auto_governor.Common.{
  ℕ, ◌≡◌, refl, sym, subst, ap, Bool, true, false, List, [], ◌∷◌, ◌++◌, All, ◌⊎◌, inl, inr,
  Bool-cases,
}
use imperial_auto_governor.Models.{
  ModelEndpoint, RequestError, PoolRuntime, ProviderFilter, classify_request_error, candidates,
  record_failure, record_success,
}
use imperial_auto_governor.Models.Calls.{
  Reply, result, raised, Attempt, Answer, returned, reraised, exhausted, Operation, attempt_of,
  try_each, execute,
}

-- A call that failed in a way that another endpoint may be tried after.
pub record FailedSafely {A : Type 0} (operation : Operation A) (e : ModelEndpoint) : Type 0 where
  pub error : RequestError
  pub failed : (operation e).1 ≡ raised error
  pub safe : (classify_request_error error e).safe_to_failover ≡ true

-- The endpoints that were tried in vain, and what ended the search.
pub record Ended {A : Type 0} (operation : Operation A) (es : List ModelEndpoint) (last : Reply A)
    : Type 0 where
  pub front : List ModelEndpoint
  pub endpoint : ModelEndpoint
  pub behind : List ModelEndpoint
  pub order : es ≡ front ++ endpoint ∷ behind
  pub before : All (FailedSafely operation) front
  pub replied : (operation endpoint).1 ≡ last

-- What an answer says of the candidates.
unfoldable pub IsTried : {A : Type 0} → Operation A → List ModelEndpoint → Answer A → Type 0
IsTried operation es (returned value) = Ended operation es (result value)
IsTried operation es (reraised error) =
    (t : Ended operation es (raised error)) × ((classify_request_error error
        t.endpoint).safe_to_failover
      ≡ false)
IsTried operation es (exhausted attempts) = All (FailedSafely operation) es

IsTried-next :
    {A : Type 0} (operation : Operation A) (e : ModelEndpoint) (es : List ModelEndpoint)
    (a : Answer A)
    → FailedSafely operation e
    → IsTried operation es a
    → IsTried operation (e ∷ es) a
unfolding IsTried
IsTried-next operation e es (returned value) own t = record {
  front = e ∷ t.front;
  endpoint = t.endpoint;
  behind = t.behind;
  order = ap (λ (x : List ModelEndpoint). e ∷ x) t.order;
  before = (own, t.before);
  replied = t.replied;
}
IsTried-next operation e es (reraised error) own (t, unsafe) = (
  record {
    front = e ∷ t.front;
    endpoint = t.endpoint;
    behind = t.behind;
    order = ap (λ (x : List ModelEndpoint). e ∷ x) t.order;
    before = (own, t.before);
    replied = t.replied;
  },
  unsafe,
)
IsTried-next operation e es (exhausted attempts) own t = (own, t)

Ended-here :
    {A : Type 0} (operation : Operation A) (e : ModelEndpoint) (es : List ModelEndpoint)
    (last : Reply A)
    → (operation e).1 ≡ last
    → Ended operation (e ∷ es) last
Ended-here operation e es last h = record {
  front = [];
  endpoint = e;
  behind = es;
  order = refl;
  before = tt;
  replied = h;
}

refused_here :
    {A : Type 0} (operation : Operation A) (e : ModelEndpoint) (es : List ModelEndpoint)
    (error : RequestError)
    → (operation e).1 ≡ raised error
    → (classify_request_error error e).safe_to_failover ≡ false
    → IsTried operation (e ∷ es) (reraised error)
unfolding IsTried
refused_here operation e es error h unsafe = (
  record { front = []; endpoint = e; behind = es; order = refl; before = tt; replied = h },
  unsafe,
)

pub Reply-cases :
    {A : Type 0} (x : Reply A) → ((a : A) × (x ≡ result a)) ⊎ ((e : RequestError) × (x ≡ raised e))
Reply-cases (result a) = inl (a, refl)
Reply-cases (raised e) = inr (e, refl)

pub try_each-result :
    {A : Type 0} (operation : Operation A) (e : ModelEndpoint) (es : List ModelEndpoint)
    (attempts : List Attempt) (r : PoolRuntime) (a : A)
    → (operation e).1 ≡ result a
    → try_each operation (e ∷ es) attempts r ≡ (returned a, record_success (operation e).0 e r)
unfolding try_each
try_each-result operation e es attempts r a h = rw (h, try_each) refl

pub try_each-unsafe :
    {A : Type 0} (operation : Operation A) (e : ModelEndpoint) (es : List ModelEndpoint)
    (attempts : List Attempt) (r : PoolRuntime) (error : RequestError)
    → (operation e).1 ≡ raised error
    → (classify_request_error error e).safe_to_failover ≡ false
    → try_each operation (e ∷ es) attempts r
      ≡ (reraised error, record_failure (operation e).0 e (classify_request_error error e) r)
unfolding try_each
try_each-unsafe operation e es attempts r error h unsafe = simp (h, unsafe, try_each)

pub try_each-safe :
    {A : Type 0} (operation : Operation A) (e : ModelEndpoint) (es : List ModelEndpoint)
    (attempts : List Attempt) (r : PoolRuntime) (error : RequestError)
    → (operation e).1 ≡ raised error
    → (classify_request_error error e).safe_to_failover ≡ true
    → try_each operation (e ∷ es) attempts r
      ≡ try_each operation es
          (attempts ++ attempt_of e (classify_request_error error e) ∷ [])
          (record_failure (operation e).0 e (classify_request_error error e) r)
unfolding try_each
try_each-safe operation e es attempts r error h safe = simp (h, safe, try_each)

pub try_each-nil :
    {A : Type 0} (operation : Operation A) (attempts : List Attempt) (r : PoolRuntime)
    → try_each operation [] attempts r ≡ (exhausted attempts, r)
unfolding try_each
try_each-nil operation attempts r = refl

try_each-IsTried :
    {A : Type 0} (operation : Operation A) (es : List ModelEndpoint) (attempts : List Attempt)
    (r : PoolRuntime)
    → IsTried operation es (try_each operation es attempts r).0
unfolding IsTried
try_each-IsTried {A = A} operation [] attempts r =
    subst (λ (p : Answer A × PoolRuntime). IsTried operation [] p.0)
      (sym (try_each-nil operation attempts r)) tt
try_each-IsTried {A = A} operation (e ∷ es) attempts r = elim (Reply-cases (operation e).1) [
  | inl (a, h) ↦
      subst (λ (p : Answer A × PoolRuntime). IsTried operation (e ∷ es) p.0)
        (sym (try_each-result operation e es attempts r a h))
        (Ended-here operation e es (result a) h)
  | inr (error, h) ↦ elim (Bool-cases (classify_request_error error e).safe_to_failover) [
    | inl safe ↦
        subst (λ (p : Answer A × PoolRuntime). IsTried operation (e ∷ es) p.0)
          (sym (try_each-safe operation e es attempts r error h safe))
          (IsTried-next operation e es _ (record { error = error; failed = h; safe = safe })
            (try_each-IsTried operation es _ _))
    | inr unsafe ↦
        subst (λ (p : Answer A × PoolRuntime). IsTried operation (e ∷ es) p.0)
          (sym (try_each-unsafe operation e es attempts r error h unsafe))
          (refused_here operation e es error h unsafe)
  ]
]

-- `execute` calls the candidates in their order and goes on only after a failure that is safe to replay.
-- What it returns is the reply of a candidate, before which each candidate failed safely; an error that
-- it raises is that of such a candidate, and is not safe to replay; it is exhausted only when every
-- candidate failed safely.
pub execute-IsTried :
    {A : Type 0} (operation : Operation A) (now : ℕ) (provider : ProviderFilter)
    (require_tools : Bool) (r : PoolRuntime)
    → IsTried operation
        (candidates now provider require_tools r)
        (execute operation now provider require_tools r).0
unfolding execute
execute-IsTried operation now provider require_tools r =
    try_each-IsTried operation (candidates now provider require_tools r) [] r
