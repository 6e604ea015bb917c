-- ===== src/Models.antt =====
-- src/iag/infrastructure/llm/model_pool_runtime.py: the endpoints of a model pool with their health, the
-- classification of a failed request, and which endpoints may be called. Times are whole microseconds.
-- The dict `_health` has the endpoints' identifiers as its keys, so each endpoint stands beside its health.
pub mod Calls
pub mod Context
use Prim.Native.Char.{code}
use Prim.Native.String.{◌++◌ as text_append}
use imperial_auto_governor.Common.{
  ℕ, zero, suc, ◌+◌, ◌*◌, String, Bool, true, false, not, ◌&&◌, ◌||◌, Option, none, some, List, [],
  ◌∷◌, str_eq, ◌==◌, ltb, leb, if◌then◌else◌, contains, map, min, select,
}
use imperial_auto_governor.Common.Text.{sort}

pub record ModelEndpoint : Type 0 where
  pub endpoint_id : String
  pub provider : String
  pub priority : ℕ
  pub enabled : Bool
  pub supports_tools : Bool
  pub context_window : ℕ
  pub max_output : ℕ
  pub rate_limit_cooldown : ℕ

pub data Status : Type 0 where
  unknown available reachable_unconfirmed probe_unsupported : Status
  authentication_failed model_unavailable rate_limited temporarily_unhealthy : Status
  unreachable request_rejected unknown_error : Status

pub record RequestFailure : Type 0 where
  pub status : Status
  pub detail : String
  pub safe_to_failover : Bool
  pub cooldown_seconds : ℕ
  pub status_code : Option ℕ

pub record EndpointHealth : Type 0 where
  pub status : Status
  pub detail : String
  pub last_checked_at : Option ℕ
  pub last_success_at : Option ℕ
  pub last_failure_at : Option ℕ
  pub cooldown_until : Option ℕ
  pub consecutive_failures : ℕ
  pub http_status : Option ℕ
  pub model_found : Option Bool
  pub discovered_model_count : ℕ
  pub retry_after : Option ℕ
  pub probe_url : Option String

abbrev pub fresh_health : EndpointHealth
fresh_health = record {
  status = unknown;
  detail = "Not checked yet.";
  last_checked_at = none;
  last_success_at = none;
  last_failure_at = none;
  cooldown_until = none;
  consecutive_failures = 0;
  http_status = none;
  model_found = none;
  discovered_model_count = 0;
  retry_after = none;
  probe_url = none;
}

-- What the code reads of an exception: the name of its type, its text, what `_status_code` and
-- `_retry_after` find in it, and whether it is one of the two errors of the providers' module.
pub record RequestError : Type 0 where
  pub type_name : String
  pub text : String
  pub code : Option ℕ
  pub retry_after : Option ℕ
  pub is_llm_timeout : Bool
  pub is_llm_connection : Bool

abbrev pub failure : Status → RequestError → Bool → ℕ → RequestFailure
failure status e safe cooldown = record {
  status = status;
  detail = text_append e.type_name (text_append ": " e.text);
  safe_to_failover = safe;
  cooldown_seconds = cooldown;
  status_code = e.code;
}

-- `a or b` of an optional number and a number.
abbrev pub or_else : Option ℕ → ℕ → ℕ
or_else none b = b
or_else (some a) b = if a == 0 then b else a

abbrev pub is_timeout : RequestError → Bool
is_timeout e = e.is_llm_timeout || str_eq e.type_name "APITimeoutError"

abbrev pub is_named_connection : RequestError → Bool
is_named_connection e =
    contains e.type_name ("APIConnectionError" ∷ "ConnectError" ∷ "ConnectionError" ∷ [])

-- An error with a status code.
unfoldable pub classify_code : RequestError → ModelEndpoint → ℕ → RequestFailure
classify_code e endpoint code =
    if code == 401 || code == 403
    then failure authentication_failed e true 300
    else if code == 404
    then failure model_unavailable e true 300
    else if code == 429
    then failure rate_limited e true (or_else e.retry_after endpoint.rate_limit_cooldown)
    else if leb 500 code || is_timeout e
    then failure temporarily_unhealthy e false 30
    else if e.is_llm_connection
    then failure unreachable e true 30
    else failure request_rejected e false 0

-- An error without one.
unfoldable pub classify_plain : RequestError → RequestFailure
classify_plain e =
    if is_timeout e
    then failure temporarily_unhealthy e false 30
    else if e.is_llm_connection || is_named_connection e
    then failure unreachable e true 30
    else failure unknown_error e false 0

-- `classify_request_error`
unfoldable pub classify_request_error : RequestError → ModelEndpoint → RequestFailure
unfolding classify_code classify_plain
classify_request_error e endpoint = elim e.code [
  | none ↦ classify_plain e
  | some code ↦ classify_code e endpoint code
]

abbrev pub Slots : Type 0
Slots = List (ModelEndpoint × EndpointHealth)

pub record PoolRuntime : Type 0 where
  pub pool_id : String
  pub slots : Slots
  pub last_selected : Option String

-- `ModelPoolRuntime` of a pool.
unfoldable pub runtime : String → List ModelEndpoint → PoolRuntime
runtime id endpoints = record {
  pool_id = id;
  slots = map (λ (e : ModelEndpoint). (e, fresh_health)) endpoints;
  last_selected = none;
}

unfoldable pub find_health : String → Slots → Option EndpointHealth
find_health id [] = none
find_health id ((e, h) ∷ rest) = if str_eq e.endpoint_id id then some h else find_health id rest

abbrev pub kept_health : Bool → Slots → ModelEndpoint → ModelEndpoint × EndpointHealth
kept_health reset previous e = (
  e,
  elim (find_health e.endpoint_id previous) [
    | none ↦ fresh_health
    | some h ↦ if reset then fresh_health else h
  ],
)

abbrev pub kept_selection : Option String → List ModelEndpoint → Option String
kept_selection none endpoints = none
kept_selection (some id) endpoints =
    if contains id (map (λ (e : ModelEndpoint). e.endpoint_id) endpoints) then some id else none

-- `replace_pool`
unfoldable pub replace_pool : String → List ModelEndpoint → Bool → PoolRuntime → PoolRuntime
unfolding find_health
replace_pool id endpoints reset r = record {
  pool_id = id;
  slots = map (kept_health reset r.slots) endpoints;
  last_selected = kept_selection r.last_selected endpoints;
}

pub data ProviderFilter : Type 0 where
  any_provider : ProviderFilter
  one_provider : String → ProviderFilter
  some_providers : List String → ProviderFilter

-- `_provider_matches`
abbrev pub provider_matches : String → ProviderFilter → Bool
provider_matches provider any_provider = true
provider_matches provider (one_provider p) = str_eq provider p
provider_matches provider (some_providers ps) = contains provider ps

abbrev pub is_cooling : ℕ → Option ℕ → Bool
is_cooling now none = false
is_cooling now (some until) = ltb now until

abbrev pub earlier_slot : ModelEndpoint × EndpointHealth → ModelEndpoint × EndpointHealth → Bool
earlier_slot a b = leb a.0.priority b.0.priority

-- The tests of `candidates`.
unfoldable pub may_call : ℕ → ProviderFilter → Bool → ModelEndpoint × EndpointHealth → Bool
may_call now provider require_tools s =
    s.0.enabled
    && (provider_matches s.0.provider provider
        && ((not require_tools || s.0.supports_tools) && not (is_cooling now s.1.cooldown_until)))

-- `candidates`
unfoldable pub candidates : ℕ → ProviderFilter → Bool → PoolRuntime → List ModelEndpoint
unfolding may_call sort
candidates now provider require_tools r =
    map (λ (s : ModelEndpoint × EndpointHealth). s.0)
      (select (may_call now provider require_tools) (sort earlier_slot r.slots))

-- `preferred_endpoint`; `none` where it raises.
unfoldable pub preferred_endpoint : ℕ → ProviderFilter → Bool → PoolRuntime → Option ModelEndpoint
unfolding candidates
preferred_endpoint now provider require_tools r = elim (candidates now provider require_tools r) [
  | [] ↦ none
  | e ∷ rest ↦ some e
]

abbrev pub least : (ModelEndpoint → ℕ) → ModelEndpoint → List ModelEndpoint → ℕ
least f e [] = f e
least f e (d ∷ ds) = min (f e) (least f d ds)

-- `context_endpoint`; `none` where it raises.
unfoldable pub context_endpoint : ℕ → ProviderFilter → Bool → PoolRuntime → Option ModelEndpoint
unfolding candidates
context_endpoint now provider require_tools r = elim (candidates now provider require_tools r) [
  | [] ↦ none
  | e ∷ rest ↦
      let maximum = least (λ (d : ModelEndpoint). d.context_window) e rest in
      let reserve = least (λ (d : ModelEndpoint). d.max_output) e rest in
      some (record e { context_window = maximum; max_output = min reserve maximum })
]

-- `text[:1000]`
unfoldable pub first_chars : ℕ → String → String
first_chars zero s = ""
first_chars (suc n) String.[] = ""
first_chars (suc n) (String.◌∷◌ c s) = String.◌∷◌ c (first_chars n s)

abbrev pub seconds : ℕ → ℕ
seconds n = n * 1000000

-- A cooldown of some seconds from a time, of which zero is none.
abbrev pub cooldown_from : ℕ → ℕ → Option ℕ
cooldown_from now cooldown = if cooldown == 0 then none else some (now + seconds cooldown)

unfoldable pub update_health : String → (EndpointHealth → EndpointHealth) → Slots → Slots
update_health id f [] = []
update_health id f ((e, h) ∷ rest) =
    (e, if str_eq e.endpoint_id id then f h else h) ∷ update_health id f rest

abbrev pub failed_health : ℕ → RequestFailure → EndpointHealth → EndpointHealth
failed_health now f h = record h {
  status = f.status;
  detail = first_chars 1000 f.detail;
  last_checked_at = some now;
  last_failure_at = some now;
  consecutive_failures = h.consecutive_failures + 1;
  http_status = f.status_code;
  retry_after = if f.cooldown_seconds == 0 then none else some f.cooldown_seconds;
  cooldown_until = cooldown_from now f.cooldown_seconds;
}

-- `_record_failure`
unfoldable pub record_failure : ℕ → ModelEndpoint → RequestFailure → PoolRuntime → PoolRuntime
unfolding update_health first_chars
record_failure now e f r = record r {
  slots = update_health e.endpoint_id (failed_health now f) r.slots;
}

abbrev pub succeeded_health : ℕ → EndpointHealth → EndpointHealth
succeeded_health now h = record h {
  status = available;
  detail = "The latest model request completed successfully.";
  last_checked_at = some now;
  last_success_at = some now;
  cooldown_until = none;
  consecutive_failures = 0;
  http_status = some 200;
  retry_after = none;
}

-- `_record_success`
unfoldable pub record_success : ℕ → ModelEndpoint → PoolRuntime → PoolRuntime
unfolding update_health
record_success now e r = record r {
  slots = update_health e.endpoint_id (succeeded_health now) r.slots;
  last_selected = some e.endpoint_id;
}
