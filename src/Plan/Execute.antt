-- ===== src/Plan/Execute.antt =====
-- src/iag/core/application_plan.py: `ApplicationPlanBook.execute_due_action`. The toolbox is a parameter:
-- a call of it acts on a world of its own and may change the book, which is why the plan is read again.
pub mod Records
use imperial_auto_governor.Common.{
  ◌||◌, select, ℕ, suc, ◌+◌, String, Bool, true, false, not, ◌&&◌, ◌||◌, Option, none, some, List,
  [], ◌∷◌, str_eq, ◌==◌, if◌then◌else◌, contains,
}
use imperial_auto_governor.Common.Dict.{Dict, insert}
use imperial_auto_governor.Plan.Json.{
  Json, Builtins, null, boolean, object, field, end, member, is_truthy,
}
use imperial_auto_governor.Plan.Condition.{execution_is_provisional}
use imperial_auto_governor.Plan.Node.{
  PlanNode, PlanAction, Status, active, completed, CompletionMode, after_success,
  wait_for_conditions, Error, Result, ok, err, bad_action, stale_revision, prepare_failed,
  execute_failed, plan_disappeared, validate_action,
}
use imperial_auto_governor.Plan.Graph.{ids}
use imperial_auto_governor.Plan.Book.{
  Plan, NodeRuntime, Book, Event, deterministic_action_executed, application_tool_observed,
  record_event, save,
}
use imperial_auto_governor.Plan.Evaluate.{entry_at, set_status}
use imperial_auto_governor.Plan.Decide.{Decision, proceed}
use imperial_auto_governor.Plan.Substitute.{substitute}

-- `dispatch` returns a result and a summary, or raises. `assert_world_snapshot_current` raises or not;
-- a toolbox without it never raises.
pub record Toolbox {ℓ} (W : Type ℓ) : Type ℓ where
  pub dispatch : String → Json → Book × W → Result (Json × String) × (Book × W)
  pub assert_current : Book × W → Result (Unit {0})

-- What is returned: for no due node, without leave to execute, and after the run.
pub data Outcome : Type 0 where
  not_executed : Outcome
  requires_execute_mode : String → String → Outcome
  executed : String → String → String → String → Bool → Json → Outcome

pub record Ran : Type 0 where
  pub result : Json
  pub prepare_summary : String
  pub execute_summary : String

-- `result.get("success") is False`
abbrev pub has_failed : Json → Bool
has_failed result = elim (member "success" result) [ boolean b ↦ not b | _ ↦ false ]

abbrev is_none : Json → Bool
is_none null = true
is_none _ = false

-- Empty arguments become the run of the prepared result.
abbrev pub arguments_for : Json → Json → Json
arguments_for arguments prepared =
    if not (is_truthy arguments) && not (is_none (member "run_id" prepared))
    then object (field "run_id" (member "run_id" prepared) end)
    else arguments

module _ {ℓ} {W : Type ℓ} where
  abbrev pub then_do {κ κ'} :
      {A : Type κ} {B : Type κ'}
      → Result A × (Book × W)
      → (A → Book × W → Result B × (Book × W))
      → Result B × (Book × W)
  then_do (r, s) k = elim r [ err e ↦ (err e, s) | ok a ↦ k a s ]

  abbrev pub lift {κ} : {A : Type κ} → Result A → Book × W → Result A × (Book × W)
  lift r s = (r, s)

  abbrev pub raise_if : Bool → Error → Book × W → Result (Unit {0}) × (Book × W)
  raise_if test e s = (if test then err e else ok tt, s)

module _ {ℓ} {W : Type ℓ} (py : Builtins) (tools : Toolbox W) where
  -- The execute tool, after the prepare tool returned `prepared`.
  unfoldable pub run_execute :
      PlanAction → String → Json → String → Book × W → Result Ran × (Book × W)
  unfolding substitute execution_is_provisional
  run_execute a tool prepared summary s =
      then_do (lift (substitute prepared a.execute_arguments) s) λ arguments s₁.
        then_do (lift (tools.assert_current s₁) s₁) λ _ s₂.
          then_do (tools.dispatch tool (arguments_for arguments prepared) s₂) λ answer s₃.
            then_do
              (raise_if (has_failed answer.0 && not (execution_is_provisional py answer.0))
                execute_failed s₃)
              λ _ s₄. (
                ok (record {
                  result = answer.0;
                  prepare_summary = summary;
                  execute_summary = answer.1;
                }),
                s₄,
              )

  -- The body of `with context`.
  unfoldable pub run_tools : PlanAction → Book × W → Result Ran × (Book × W)
  unfolding run_execute
  run_tools a s = then_do (lift (tools.assert_current s) s) λ _ s₁.
      then_do (tools.dispatch a.prepare_tool a.prepare_arguments s₁) λ answer s₂.
        then_do (raise_if (has_failed answer.0) prepare_failed s₂) λ _ s₃. elim a.execute_tool [
          | none ↦ (
            ok (record { result = answer.0; prepare_summary = answer.1; execute_summary = "" }),
            s₃,
          )
          | some tool ↦ run_execute a tool answer.0 answer.1 s₃
        ]

-- `item["status"] = ...` of the node that ran.
unfoldable pub nodes_after : Bool → PlanAction → String → List PlanNode → List PlanNode
unfolding set_status
nodes_after provisional a id nodes =
    if provisional then set_status id active nodes else elim a.completion_mode [
      | after_success ↦ set_status id completed nodes
      | wait_for_conditions ↦ nodes
    ]

unfoldable pub entry_after : String → Bool → PlanAction → String → Json → Plan → NodeRuntime
entry_after now provisional a id result p =
    let entry = entry_at id p.runtime.nodes in
    let completes : Bool = elim a.completion_mode [
      | after_success ↦ true
      | wait_for_conditions ↦ false
    ] in
    record entry {
      last_action_id = some a.action_id;
      last_action_at = some now;
      last_fact_revision = some p.runtime.fact_revision;
      result = result;
      provisional = provisional;
      completed_at =
          if completes && (not provisional && contains id (ids p.nodes))
          then some now
          else entry.completed_at;
    }

unfoldable pub ran_plan : String → Bool → PlanAction → String → Json → Plan → Plan
unfolding nodes_after entry_after
ran_plan now provisional a id result p = record p {
  nodes = nodes_after provisional a id p.nodes;
  runtime = record p.runtime {
    nodes = insert id (entry_after now provisional a id result p) p.runtime.nodes;
  };
}

-- What follows the tools: the plan is read again, and the run is written to it.
unfoldable pub record_run {ℓ} :
    {W : Type ℓ}
    → Builtins
    → String
    → String
    → PlanAction
    → Ran
    → Book × W
    → Result Outcome × (Book × W)
unfolding ran_plan save record_event execution_is_provisional
record_run py now id a ran (b, w) =
    let provisional = execution_is_provisional py ran.result in
    elim b.current [
      | none ↦ (err plan_disappeared, (b, w))
      | some p ↦ (
        ok (executed id a.action_id ran.prepare_summary ran.execute_summary provisional ran.result),
        (
          record_event now
              (deterministic_action_executed p.plan_id id a.action_id provisional ran.result)
              (save now (ran_plan now provisional a id ran.result p) b),
          w,
        ),
      )
    ]

-- The plan is still the one that was evaluated.
abbrev pub is_current : String → ℕ → Book → Bool
is_current plan_id revision b = elim b.current [
  | none ↦ false
  | some p ↦ str_eq p.plan_id plan_id && p.revision == revision
]

module _ {ℓ} {W : Type ℓ} (py : Builtins) (now : String) (tools : Toolbox W)
    (allow_execute : Bool) where
  -- From `if not allow_execute` on.
  unfoldable pub perform : PlanNode → PlanAction → Book × W → Result Outcome × (Book × W)
  unfolding run_tools record_run
  perform n a s =
      if not allow_execute
      then (ok (requires_execute_mode n.node_id a.action_id), s)
      else then_do (run_tools py tools a s) λ ran s₁. record_run py now n.node_id a ran s₁

  unfoldable pub execute_node : String → ℕ → PlanNode → Book × W → Result Outcome × (Book × W)
  unfolding perform validate_action
  execute_node plan_id revision n (b, w) =
      if not (is_current plan_id revision b) then (err stale_revision, (b, w)) else elim n.action [
        | none ↦ (err bad_action, (b, w))
        | some a ↦ then_do (validate_action a, (b, w)) λ _ s. perform n a s
      ]

  -- `execute_due_action`, with the evaluation that it is given.
  unfoldable pub execute_due_action : Decision → Book × W → Result Outcome × (Book × W)
  unfolding execute_node
  execute_due_action (proceed plan_id revision (n ∷ rest) changed done) s =
      execute_node plan_id revision n s
  execute_due_action _ s = (ok not_executed, s)

-- The node's action prepares or executes with the tool.
abbrev uses_tool : String → PlanNode → Bool
uses_tool tool n = elim n.action [
  | none ↦ false
  | some a ↦
      str_eq tool a.prepare_tool || elim a.execute_tool [ none ↦ false | some t ↦ str_eq tool t ]
]

-- `record_application_tool_event`; the run and the action are members of the result.
unfoldable pub record_application_tool_event : String → String → Json → String → Book → Book
unfolding record_event
record_application_tool_event now tool result summary b = elim b.current [
  | none ↦ b
  | some p ↦
      record_event now
        (application_tool_observed p.plan_id tool (ids (select (uses_tool tool) p.nodes))
          (not (has_failed result)) summary result)
        b
]
