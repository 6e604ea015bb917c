-- ===== src/Models/Calls/Cooling.antt =====
-- An endpoint that failed is left alone until its cooldown ends.
use imperial_auto_governor.Common.{
  ℕ, ◌+◌, ◌≤◌, ◌<◌, ◌≡◌, refl, sym, subst, ap, ◌∙◌, Bool, true, false, Option, String, str_eq,
  eq_iff, eq_refl, List, [], ◌∷◌, ◌++◌, arith, All, In, inl, inr, Bool-cases,
}
use imperial_auto_governor.Models.{
  ModelEndpoint, EndpointHealth, RequestError, RequestFailure, PoolRuntime, Slots, ProviderFilter,
  classify_request_error, candidates, record_failure, record_success, update_health, failed_health,
  succeeded_health, cooldown_from, seconds, may_call, is_cooling,
}
use imperial_auto_governor.Models.Calls.{raised, Attempt, Answer, Operation, try_each, execute}
use imperial_auto_governor.Models.Calls.Unique.{
  IsUnique, endpoints_of, candidates-IsUnique, candidates-In,
}
use imperial_auto_governor.Models.Calls.Order.{
  FailedSafely, Reply-cases, try_each-nil, try_each-result, try_each-unsafe, try_each-safe,
}

-- The slot of an identifier has a cooldown.
unfoldable pub HasCooldown : String → Option ℕ → ModelEndpoint × EndpointHealth → Type 0
HasCooldown id until s = str_eq s.0.endpoint_id id ≡ true → s.1.cooldown_until ≡ until

update_health-own :
    (id : String) (f : EndpointHealth → EndpointHealth) (until : Option ℕ) (slots : Slots)
    → ((h : EndpointHealth) → (f h).cooldown_until ≡ until)
    → All (HasCooldown id until) (update_health id f slots)
unfolding update_health HasCooldown
update_health-own id f until [] sets = tt
update_health-own id f until ((e, h) ∷ slots) sets =
    (λ same. rw same (sets h), update_health-own id f until slots sets)

update_health-other :
    (id other : String) (f : EndpointHealth → EndpointHealth) (until : Option ℕ) (slots : Slots)
    → str_eq id other ≡ false
    → All (HasCooldown id until) slots
    → All (HasCooldown id until) (update_health other f slots)
unfolding update_health HasCooldown
update_health-other id other f until [] differ kept = tt
update_health-other id other f until ((e, h) ∷ slots) differ (own, kept) = (
  λ same.
      let apart : str_eq e.endpoint_id other ≡ false =
        ground (arith, eq_iff e.endpoint_id id, eq_iff e.endpoint_id other, eq_iff id other) in
      rw apart (own same),
  update_health-other id other f until slots differ kept,
)

record_failure-other :
    (id : String) (now : ℕ) (e : ModelEndpoint) (f : RequestFailure) (until : Option ℕ)
    (r : PoolRuntime)
    → str_eq id e.endpoint_id ≡ false
    → All (HasCooldown id until) r.slots
    → All (HasCooldown id until) (record_failure now e f r).slots
unfolding record_failure
record_failure-other id now e f until r differ kept =
    update_health-other id e.endpoint_id (failed_health now f) until r.slots differ kept

record_success-other :
    (id : String) (now : ℕ) (e : ModelEndpoint) (until : Option ℕ) (r : PoolRuntime)
    → str_eq id e.endpoint_id ≡ false
    → All (HasCooldown id until) r.slots
    → All (HasCooldown id until) (record_success now e r).slots
unfolding record_success
record_success-other id now e until r differ kept =
    update_health-other id e.endpoint_id (succeeded_health now) until r.slots differ kept

-- Calls of other endpoints leave a cooldown as it is.
try_each-other :
    {A : Type 0} (operation : Operation A) (id : String) (until : Option ℕ)
    (es : List ModelEndpoint) (attempts : List Attempt) (r : PoolRuntime)
    → All (λ (d : ModelEndpoint). str_eq id d.endpoint_id ≡ false) es
    → All (HasCooldown id until) r.slots
    → All (HasCooldown id until) (try_each operation es attempts r).1.slots
try_each-other {A = A} operation id until [] attempts r differ kept =
    subst (λ (p : Answer A × PoolRuntime). All (HasCooldown id until) p.1.slots)
      (sym (try_each-nil operation attempts r)) kept
try_each-other {A = A} operation id until (e ∷ es) attempts r (own, differ) kept =
    elim (Reply-cases (operation e).1) [
      | inl (a, h) ↦
          subst (λ (p : Answer A × PoolRuntime). All (HasCooldown id until) p.1.slots)
            (sym (try_each-result operation e es attempts r a h))
            (record_success-other id (operation e).0 e until r own kept)
      | inr (error, h) ↦
          let f = classify_request_error error e in
          let failed = record_failure-other id (operation e).0 e f until r own kept in
          elim (Bool-cases f.safe_to_failover) [
            | inl safe ↦
                subst (λ (p : Answer A × PoolRuntime). All (HasCooldown id until) p.1.slots)
                  (sym (try_each-safe operation e es attempts r error h safe))
                  (try_each-other operation id until es _ _ differ failed)
            | inr unsafe ↦
                subst (λ (p : Answer A × PoolRuntime). All (HasCooldown id until) p.1.slots)
                  (sym (try_each-unsafe operation e es attempts r error h unsafe)) failed
          ]
    ]

record_failure-own :
    (now : ℕ) (e : ModelEndpoint) (f : RequestFailure) (r : PoolRuntime)
    → All
        (HasCooldown e.endpoint_id (cooldown_from now f.cooldown_seconds))
        (record_failure now e f r).slots
unfolding record_failure
record_failure-own now e f r =
    update_health-own e.endpoint_id (failed_health now f) (cooldown_from now f.cooldown_seconds)
      r.slots (λ h. refl)

-- The endpoint at which the search stands has its cooldown when the search has ended.
try_each-HasCooldown :
    {A : Type 0} (operation : Operation A) (front : List ModelEndpoint) (e : ModelEndpoint)
    (behind : List ModelEndpoint) (error : RequestError) (attempts : List Attempt) (r : PoolRuntime)
    → IsUnique (front ++ e ∷ behind)
    → All (FailedSafely operation) front
    → (operation e).1 ≡ raised error
    → All
        (HasCooldown e.endpoint_id
          (cooldown_from (operation e).0 (classify_request_error error e).cooldown_seconds))
        (try_each operation (front ++ e ∷ behind) attempts r).1.slots
unfolding IsUnique
try_each-HasCooldown {A = A} operation [] e behind error attempts r (own, unique) before h =
    let f = classify_request_error error e in
    let until = cooldown_from (operation e).0 f.cooldown_seconds in
    let failed = record_failure-own (operation e).0 e f r in
    elim (Bool-cases f.safe_to_failover) [
      | inl safe ↦
          subst (λ (p : Answer A × PoolRuntime). All (HasCooldown e.endpoint_id until) p.1.slots)
            (sym (try_each-safe operation e behind attempts r error h safe))
            (try_each-other operation e.endpoint_id until behind _ _ own failed)
      | inr unsafe ↦
          subst (λ (p : Answer A × PoolRuntime). All (HasCooldown e.endpoint_id until) p.1.slots)
            (sym (try_each-unsafe operation e behind attempts r error h unsafe)) failed
    ]
try_each-HasCooldown {A = A} operation (d ∷ front) e behind error attempts r (_, unique)
      (first, before) h =
    subst
      (λ (p : Answer A × PoolRuntime).
        All
          (HasCooldown e.endpoint_id
            (cooldown_from (operation e).0 (classify_request_error error e).cooldown_seconds))
          p.1.slots)
      (sym (
        try_each-safe operation d (front ++ e ∷ behind) attempts r first.error first.failed
          first.safe))
      (try_each-HasCooldown operation front e behind error _ _ unique before h)

not_cooling :
    (later : ℕ) (provider : ProviderFilter) (require_tools : Bool)
    (s : ModelEndpoint × EndpointHealth) (at cooldown : ℕ)
    → may_call later provider require_tools s ≡ true
    → s.1.cooldown_until ≡ cooldown_from at cooldown
    → 0 < cooldown
    → at + seconds cooldown ≤ later
unfolding may_call
not_cooling later provider require_tools s at cooldown may until positive =
    let cooled : is_cooling later s.1.cooldown_until ≡ false = ground arith in
    let known : is_cooling later (cooldown_from at cooldown) ≡ false =
      ap (is_cooling later) (sym until) ∙ cooled in
    ground arith

-- In a pool whose endpoints have different identifiers, an endpoint that `execute` calls and that raises
-- an error with a cooldown is no candidate, whatever is asked for, until the cooldown that began with the
-- error has ended, whichever endpoints were called after it.
pub execute-cooling :
    {A : Type 0} (operation : Operation A) (now : ℕ) (provider : ProviderFilter)
    (require_tools : Bool) (r : PoolRuntime) (front : List ModelEndpoint) (e : ModelEndpoint)
    (behind : List ModelEndpoint) (error : RequestError)
    → IsUnique (endpoints_of r.slots)
    → candidates now provider require_tools r ≡ front ++ e ∷ behind
    → All (FailedSafely operation) front
    → (operation e).1 ≡ raised error
    → 0 < (classify_request_error error e).cooldown_seconds
    → (later : ℕ) (other : ProviderFilter) (tools : Bool)
    → In e (candidates later other tools (execute operation now provider require_tools r).1)
    → (operation e).0 + seconds (classify_request_error error e).cooldown_seconds ≤ later
unfolding execute HasCooldown
execute-cooling {A = A} operation now provider require_tools r front e behind error unique order
      before failed positive later other tools there =
    let at = (operation e).0 in
    let cooldown = (classify_request_error error e).cooldown_seconds in
    let P = HasCooldown e.endpoint_id (cooldown_from at cooldown) in
    let tried = candidates now provider require_tools r in
    let cools : All P (try_each operation tried [] r).1.slots =
      subst (λ (es : List ModelEndpoint). All P (try_each operation es [] r).1.slots) (sym order)
        (try_each-HasCooldown operation front e behind error [] r
          (subst IsUnique order (candidates-IsUnique now provider require_tools r unique)) before
          failed) in
    let (h, own, may) =
      candidates-In later other tools (try_each operation tried [] r).1 P e cools there in
    not_cooling later other tools (e, h) at cooldown may (own (eq_refl e.endpoint_id)) positive
