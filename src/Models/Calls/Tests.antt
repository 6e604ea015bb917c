-- ===== src/Models/Calls/Tests.antt =====
-- A pool of two endpoints, the first of which is rate limited.
use imperial_auto_governor.Common.{
  ℕ, ◌+◌, ◌≤◌, ◌≡◌, refl, str_eq, true, false, none, some, List, [], ◌∷◌, arith, if◌then◌else◌, All,
  inl,
}
use imperial_auto_governor.Models.{
  ModelEndpoint, RequestError, PoolRuntime, any_provider, runtime, candidates, context_endpoint,
  classify_request_error, record_failure, record_success,
}
use imperial_auto_governor.Models.Calls.{Operation, result, raised, returned, execute, try_each}
use imperial_auto_governor.Models.Calls.Cooling.{execute-cooling}
use imperial_auto_governor.Models.Calls.Order.{IsTried, execute-IsTried}
use imperial_auto_governor.Models.Calls.Unique.{IsUnique}
use imperial_auto_governor.Models.Context.{IsWithin, context_endpoint-IsWithin}

evaluated : Unit {0}
unfolding candidates context_endpoint classify_request_error record_failure record_success execute
    try_each runtime IsUnique
evaluated = tt

abbrev first_choice : ModelEndpoint
first_choice = record {
  endpoint_id = "first";
  provider = "chat_completions_compatible";
  priority = 1;
  enabled = true;
  supports_tools = true;
  context_window = 64000;
  max_output = 8000;
  rate_limit_cooldown = 60;
}

abbrev second_choice : ModelEndpoint
second_choice = record first_choice {
  endpoint_id = "second";
  priority = 2;
  context_window = 32000;
  max_output = 9000;
}

abbrev pool : PoolRuntime
pool = runtime "main" (second_choice ∷ first_choice ∷ [])

abbrev limited : RequestError
limited = record {
  type_name = "APIStatusError";
  text = "APIStatusError: slow down";
  code = some 429;
  retry_after = none;
  is_llm_timeout = false;
  is_llm_connection = false;
}

-- The first endpoint fails after a second, the second answers after two.
abbrev operation : Operation ℕ
operation e =
    if str_eq e.endpoint_id "first" then (11000000, raised limited) else (12000000, result 7)

order_known :
    ◌≡◌ {A = List ModelEndpoint}
      (candidates 10000000 any_provider true pool)
      (first_choice ∷ second_choice ∷ [])
unfolding evaluated
order_known = refl

answered : (execute operation 10000000 any_provider true pool).0 ≡ returned 7
unfolding evaluated
answered = refl

abbrev left : PoolRuntime
left = (execute operation 10000000 any_provider true pool).1

only_second : candidates 70000000 any_provider true left ≡ second_choice ∷ []
unfolding evaluated
only_second = refl

both_again : candidates 71000000 any_provider true left ≡ first_choice ∷ second_choice ∷ []
unfolding evaluated
both_again = refl

execute-IsTried_example :
    IsTried operation
      (candidates 10000000 any_provider true pool)
      (execute operation 10000000 any_provider true pool).0
execute-IsTried_example = execute-IsTried operation 10000000 any_provider true pool

execute-cooling_example : 11000000 + 60000000 ≤ 71000000
unfolding evaluated
execute-cooling_example =
    execute-cooling operation 10000000 any_provider true pool [] first_choice (second_choice ∷ [])
      limited ((refl, tt), (tt, tt)) order_known tt refl (omega arith) 71000000 any_provider true
      (inl refl)

abbrev context_known : ModelEndpoint
context_known = record first_choice { context_window = 32000; max_output = 8000 }

context_found : context_endpoint 10000000 any_provider true pool ≡ some context_known
unfolding evaluated
context_found = refl

common_context :
    All (IsWithin context_known) (candidates 10000000 any_provider true pool) × (8000 ≤ 32000)
common_context =
    context_endpoint-IsWithin 10000000 any_provider true pool context_known context_found
