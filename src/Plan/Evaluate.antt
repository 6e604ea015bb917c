-- ===== src/Plan/Evaluate.antt =====
-- src/iag/core/application_plan.py: the loop of `ApplicationPlanBook.evaluate` over affected nodes.
-- The nodes of a stored plan have distinct identifiers, which every write of one has checked, so the
-- list of them is the dict `nodes`. `now` is what `now_iso` returns during the call.
pub mod Moves
pub mod Waivers
use Prim.Native.String.{◌++◌ as text_append}
use imperial_auto_governor.Common.{
  ℕ, suc, ◌+◌, String, Bool, true, false, not, ◌&&◌, ◌||◌, Option, none, some, List, [], ◌∷◌, ◌++◌,
  str_eq, ◌==◌, if◌then◌else◌, any, select, map, contains,
}
use imperial_auto_governor.Common.Dict.{Dict, lookup, insert}
use imperial_auto_governor.Plan.Json.{
  Json, Builtins, null, boolean, text, object, field, end, member,
}
use imperial_auto_governor.Plan.Condition.{
  PlanCondition, Facts, eq, fact_at, is_some, conditions_pass, condition_result, waiver_matches,
}
use imperial_auto_governor.Plan.Node.{
  PlanNode, PlanAction, Status, planned, active, completed, blocked, cancelled, Cadence, once,
  each_state_change, CompletionMode, after_success, wait_for_conditions, Policy, deterministic,
  model_on_activation, Error, Result, ok, err, ◌>>=◌, ◌>>◌, refuse_if, key_error,
  exception_not_current, rejected_not_waivable,
}
use imperial_auto_governor.Plan.Graph.{ids, find_node, dependents}
use imperial_auto_governor.Plan.Book.{
  Plan, PlanStatus, Runtime, NodeRuntime, Book, Review, Event, Failure, FailureKind,
  expectation_failed, stop_condition_met, provisional_execution_rejected, Anomaly, AnomalyReport,
  record_event, save, plan_anomaly, nodes_completed, localized_anomaly_accepted,
}
use imperial_auto_governor.Plan.Watch.{
  is_known, directly_affected, readiness, is_ready, Resolution, pending, confirmed, rejected,
  provisional_resolution,
}

-- What the loop over the affected nodes has done.
pub record Progress : Type 0 where
  pub nodes : List PlanNode
  pub entries : Dict NodeRuntime
  pub anomalies : List Anomaly
  pub completed_ids : List String

abbrev pub fresh_entry : NodeRuntime
fresh_entry = record {
  provisional = false;
  confirmation_fact = none;
  completed_at = none;
  last_action_id = none;
  last_action_at = none;
  last_fact_revision = none;
  result = null;
}

-- `runtime_nodes.get(node_id, {})`
abbrev pub entry_at : String → Dict NodeRuntime → NodeRuntime
entry_at id entries = elim (lookup id entries) [ none ↦ fresh_entry | some e ↦ e ]

-- `nodes[node_id]["status"] = status`
unfoldable pub set_status : String → Status → List PlanNode → List PlanNode
set_status id status [] = []
set_status id status (n ∷ ns) =
    if str_eq n.node_id id then record n { status = status } ∷ ns else n ∷ set_status id status ns

abbrev kind_name : FailureKind → String
kind_name expectation_failed = "expectation_failed"
kind_name stop_condition_met = "stop_condition_met"
kind_name provisional_execution_rejected = "provisional_execution_rejected"

-- `f"{node_id}|{kind}|{fact}"`
abbrev pub waiver_key : String → FailureKind → String → String
waiver_key id kind fact =
    text_append id (text_append "|" (text_append (kind_name kind) (text_append "|" fact)))

abbrev waiver_at : String → Dict Json → Json
waiver_at key waivers = elim (lookup key waivers) [ none ↦ null | some w ↦ w ]

-- The failures of one group: a condition whose result is `failing`, unless it is waived.
unfoldable pub failures_of :
    Builtins → Facts → Dict Json → String → FailureKind → Bool → List PlanCondition → List Failure
unfolding condition_result waiver_matches
failures_of py facts waivers id kind failing [] = []
failures_of py facts waivers id kind failing (c ∷ cs) =
    let rest = failures_of py facts waivers id kind failing cs in
    let (passed, actual) = condition_result py c facts in
    let waived =
      waiver_matches (waiver_at (waiver_key id kind c.fact) waivers) facts c.fact actual in
    if (if passed then failing else not failing) && not waived
    then record { kind = kind; condition = c; actual = actual; exists = is_known facts c.fact }
      ∷ rest
    else rest

abbrev pub failures : Builtins → Facts → Dict Json → PlanNode → List Failure
failures py facts waivers n =
    failures_of py facts waivers n.node_id expectation_failed false n.expectations
    ++ failures_of py facts waivers n.node_id stop_condition_met true n.stop_conditions

unfoldable pub complete : String → String → Progress → Progress
unfolding set_status
complete now id pr = record pr {
  nodes = set_status id completed pr.nodes;
  entries = insert id (record (entry_at id pr.entries) { completed_at = some now }) pr.entries;
  completed_ids = pr.completed_ids ++ id ∷ [];
}

abbrev pub report : String → List Failure → Progress → Progress
report id found pr = record pr {
  anomalies = pr.anomalies ++ record { node_id = id; failures = found } ∷ [];
}

abbrev pub is_empty {ℓ} : {A : Type ℓ} → List A → Bool
is_empty [] = true
is_empty (x ∷ xs) = false

-- The expectations, stop and completion conditions of an active node.
unfoldable pub inspect_node : Builtins → String → Facts → Dict Json → PlanNode → Progress → Progress
unfolding failures_of conditions_pass complete
inspect_node py now facts waivers n pr =
    let found = failures py facts waivers n in
    if not (is_empty found)
    then report n.node_id found pr
    else if not (is_empty n.completion_conditions)
        && conditions_pass py n.completion_conditions facts
    then complete now n.node_id pr
    else pr

abbrev pub rejection : Facts → Option String × Json → Failure
rejection facts (path, actual) = record {
  kind = provisional_execution_rejected;
  condition = record {
    fact = elim path [
      | none ↦ "/execution/state"
      | some p ↦ if str_eq p "" then "/execution/state" else p
    ];
    operator = eq;
    value = text "confirmed_by_save";
    tolerance = none;
    description = "已提交动作必须由新存档确认。";
  };
  actual = actual;
  exists = elim path [ none ↦ false | some p ↦ is_known facts p ];
}

abbrev pub completes_on_success : PlanNode → Bool
completes_on_success n =
    elim n.action [
      | none ↦ false
      | some a ↦ elim a.completion_mode [ after_success ↦ true | wait_for_conditions ↦ false ]
    ]
    && is_empty n.completion_conditions

-- An active node: a submitted run is settled first.
unfoldable pub review_active :
    Builtins → String → Facts → Dict Json → PlanNode → Progress → Progress
unfolding inspect_node provisional_resolution complete
review_active py now facts waivers n pr =
    let entry = entry_at n.node_id pr.entries in
    let kept = record pr { entries = insert n.node_id entry pr.entries } in
    let (resolution, evidence) = provisional_resolution py facts (member "run_id" entry.result) in
    let settled_entry = record entry { provisional = false; confirmation_fact = evidence.0 } in
    let settled_pr = record pr { entries = insert n.node_id settled_entry pr.entries } in
    if not entry.provisional then inspect_node py now facts waivers n kept else elim resolution [
      | pending ↦ inspect_node py now facts waivers n kept
      | confirmed ↦
          if completes_on_success n
          then complete now n.node_id settled_pr
          else inspect_node py now facts waivers n settled_pr
      | rejected ↦ report n.node_id (rejection facts evidence ∷ []) kept
    ]

unfoldable pub review_node :
    Builtins → String → Facts → Dict Json → Dict Bool → PlanNode → Progress → Progress
unfolding review_active conditions_pass set_status
review_node py now facts waivers ready n pr =
    let activated = record pr { nodes = set_status n.node_id active pr.nodes } in
    elim n.status [
      | completed ↦ pr
      | cancelled ↦ pr
      | blocked ↦ pr
      | active ↦ review_active py now facts waivers n pr
      | planned ↦
          if is_ready ready n.node_id && conditions_pass py n.activation_conditions facts
          then review_active py now facts waivers n activated
          else pr
    ]

-- `for node_id in sorted(affected)`
unfoldable pub review_all :
    Builtins → String → Facts → Dict Json → Dict Bool → List String → Progress → Result Progress
unfolding review_node find_node
review_all py now facts waivers ready [] pr = ok pr
review_all py now facts waivers ready (i ∷ is) pr = elim (find_node i pr.nodes) [
  | none ↦ err (key_error i)
  | some n ↦ review_all py now facts waivers ready is (review_node py now facts waivers ready n pr)
]
