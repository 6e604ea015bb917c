-- ===== src/Models/Calls.antt =====
-- src/iag/infrastructure/llm/model_pool_runtime.py: calls of the endpoints. The operation and the probe are
-- parameters, with the clock's time when they come back.
pub mod Cooling
pub mod Order
pub mod Unique
mod Tests
use imperial_auto_governor.Common.{
  ℕ, ◌+◌, String, Bool, true, false, Option, none, some, List, [], ◌∷◌, ◌++◌, str_eq, ◌==◌,
  if◌then◌else◌,
}
use imperial_auto_governor.Models.{
  ModelEndpoint, EndpointHealth, Status, unknown, available, reachable_unconfirmed,
  probe_unsupported, authentication_failed, rate_limited, temporarily_unhealthy, unreachable,
  RequestError, RequestFailure, PoolRuntime, Slots, ProviderFilter, classify_request_error,
  candidates, record_failure, record_success, find_health, update_health, first_chars,
  cooldown_from, or_else,
}

pub data Reply (A : Type 0) : Type 0 where
  result : A → Reply A
  raised : RequestError → Reply A

pub record Attempt : Type 0 where
  pub endpoint_id : String
  pub status : Status
  pub code : Option ℕ

pub data Answer (A : Type 0) : Type 0 where
  returned : A → Answer A
  reraised : RequestError → Answer A
  exhausted : List Attempt → Answer A

abbrev pub Operation : Type 0 → Type 0
Operation A = ModelEndpoint → ℕ × Reply A

abbrev pub attempt_of : ModelEndpoint → RequestFailure → Attempt
attempt_of e f = record { endpoint_id = e.endpoint_id; status = f.status; code = f.status_code }

-- The loop of `execute` over the candidates that are left.
unfoldable pub try_each :
    {A : Type 0}
    → Operation A
    → List ModelEndpoint
    → List Attempt
    → PoolRuntime
    → Answer A × PoolRuntime
try_each operation [] attempts r = (exhausted attempts, r)
try_each operation (e ∷ es) attempts r = elim (operation e).1 [
  | result value ↦ (returned value, record_success (operation e).0 e r)
  | raised error ↦
      let f = classify_request_error error e in
      let failed = record_failure (operation e).0 e f r in
      elim f.safe_to_failover [
        | true ↦ try_each operation es (attempts ++ attempt_of e f ∷ []) failed
        | false ↦ (reraised error, failed)
      ]
]

-- `execute`; without a candidate it is exhausted at once.
unfoldable pub execute :
    {A : Type 0} → Operation A → ℕ → ProviderFilter → Bool → PoolRuntime → Answer A × PoolRuntime
execute operation now provider require_tools r =
    try_each operation (candidates now provider require_tools r) [] r

pub record ProbeResult : Type 0 where
  pub endpoint_id : String
  pub status : Status
  pub detail : String
  pub checked_at : ℕ
  pub probe_url : Option String
  pub http_status : Option ℕ
  pub model_found : Option Bool
  pub discovered_model_count : ℕ
  pub retry_after : Option ℕ

unfoldable pub find_endpoint : String → Slots → Option ModelEndpoint
find_endpoint id [] = none
find_endpoint id ((e, h) ∷ rest) = if str_eq e.endpoint_id id then some e else find_endpoint id rest

-- The cooldown after a probe.
abbrev pub probe_cooldown : ProbeResult → ModelEndpoint → ℕ
probe_cooldown p e = elim p.status [
  | rate_limited ↦ or_else p.retry_after e.rate_limit_cooldown
  | authentication_failed ↦ 300
  | temporarily_unhealthy ↦ 30
  | unreachable ↦ 30
  | _ ↦ 0
]

abbrev pub probe_failures : Status → ℕ → ℕ
probe_failures available n = 0
probe_failures reachable_unconfirmed n = n
probe_failures probe_unsupported n = n
probe_failures _ n = n + 1

abbrev pub probed_health : ℕ → ProbeResult → ModelEndpoint → EndpointHealth → EndpointHealth
probed_health now p e h = record h {
  status = p.status;
  detail = first_chars 1000 p.detail;
  last_checked_at = some p.checked_at;
  http_status = p.http_status;
  model_found = p.model_found;
  discovered_model_count = p.discovered_model_count;
  retry_after = p.retry_after;
  probe_url = p.probe_url;
  cooldown_until = cooldown_from now (probe_cooldown p e);
  consecutive_failures = probe_failures p.status h.consecutive_failures;
}

-- `_apply_probe`; `none` where the result names no endpoint of the pool.
unfoldable pub apply_probe : ℕ → ProbeResult → PoolRuntime → Option PoolRuntime
unfolding find_endpoint update_health first_chars
apply_probe now p r = elim (find_endpoint p.endpoint_id r.slots) [
  | none ↦ none
  | some e ↦ some (record r { slots = update_health p.endpoint_id (probed_health now p e) r.slots })
]

-- `probe`; `none` where it raises.
unfoldable pub probe : (ModelEndpoint → ℕ × ProbeResult) → String → PoolRuntime → Option PoolRuntime
unfolding find_endpoint apply_probe
probe probe_function id r = elim (find_endpoint id r.slots) [
  | none ↦ none
  | some e ↦ apply_probe (probe_function e).0 (probe_function e).1 r
]

abbrev pub enabled_ids : Slots → List String
enabled_ids [] = []
enabled_ids ((e, h) ∷ rest) =
    let later = enabled_ids rest in if e.enabled then e.endpoint_id ∷ later else later

unfoldable pub probe_each :
    (ModelEndpoint → ℕ × ProbeResult) → List String → PoolRuntime → Option PoolRuntime
unfolding probe
probe_each probe_function [] r = some r
probe_each probe_function (id ∷ ids) r = elim (probe probe_function id r) [
  | none ↦ none
  | some next ↦ probe_each probe_function ids next
]

-- `probe_all`
unfoldable pub probe_all : (ModelEndpoint → ℕ × ProbeResult) → PoolRuntime → Option PoolRuntime
unfolding probe_each
probe_all probe_function r = probe_each probe_function (enabled_ids r.slots) r
