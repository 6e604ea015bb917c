-- ===== src/Plan/Decide.antt =====
-- src/iag/core/application_plan.py: the decision of `ApplicationPlanBook.evaluate`, after its loop over
-- affected nodes, and `accept_localized_anomaly`. `now` is what `now_iso` returns during the call.
pub mod Due
pub mod Keeps
use imperial_auto_governor.Common.{
  ℕ, suc, ◌+◌, String, Bool, true, false, not, ◌&&◌, ◌||◌, Option, none, some, List, [], ◌∷◌, ◌++◌,
  str_eq, ◌==◌, if◌then◌else◌, any, select, map, contains, take,
}
use imperial_auto_governor.Common.Dict.{Dict, lookup, insert}
use imperial_auto_governor.Common.Text.{sorted_set}
use imperial_auto_governor.Plan.Json.{Json, Builtins, boolean, object, field, end}
use imperial_auto_governor.Plan.Condition.{PlanCondition, Facts, fact_at, conditions_pass}
use imperial_auto_governor.Plan.Node.{
  PlanNode, PlanAction, Status, planned, active, completed, blocked, cancelled, Cadence, once,
  each_state_change, Policy, deterministic, model_on_activation, Error, Result, ok, err, ◌>>=◌,
  ◌>>◌, refuse_if, exception_not_current, rejected_not_waivable,
}
use imperial_auto_governor.Plan.Graph.{ids, dependents}
use imperial_auto_governor.Plan.Book.{
  Plan, PlanStatus, Runtime, NodeRuntime, Book, Review, Event, Failure, FailureKind,
  expectation_failed, stop_condition_met, provisional_execution_rejected, Anomaly, AnomalyReport,
  record_event, save, plan_anomaly, nodes_completed, localized_anomaly_accepted,
}
use imperial_auto_governor.Plan.Watch.{
  taken, watched, current_facts, current_presence, changed_facts, directly_affected, readiness,
  is_ready,
}
use imperial_auto_governor.Plan.Evaluate.{Progress, entry_at, waiver_key, is_empty, review_all}

-- What `evaluate` returns. `proceed` is "execute" when a node is due and "continue" when none is.
pub data Decision : Type 0 where
  external_joint_review :
      Option String → Option ℕ → List Review → List PlanNode → List String → Facts → Decision
  no_active_plan : Option Plan → Decision
  localized_anomaly : String → ℕ → AnomalyReport → List PlanNode → Facts → Decision
  model_decision : String → ℕ → List PlanNode → List String → Facts → Decision
  proceed : String → ℕ → List PlanNode → List String → List String → Decision

abbrev concat_map {ℓ κ} : {A : Type ℓ} {B : Type κ} → (A → List B) → List A → List B
concat_map f [] = []
concat_map f (x ∷ xs) = f x ++ concat_map f xs

-- `sorted(set(nodes) - chosen)`
abbrev others : List PlanNode → List String → List String
others nodes chosen = sorted_set (select (λ i. not (contains i chosen)) (ids nodes))

abbrev all_of : List PlanNode → List String → List PlanNode
all_of nodes keys = taken (λ _. true) nodes keys

-- The answer while reviews of other Applications wait.
unfoldable pub review_decision : Book → Decision
unfolding taken
review_decision b =
    let nodes : List PlanNode = elim b.current [ none ↦ [] | some p ↦ p.nodes ] in
    let affected_ids = concat_map (λ (r : Review). r.affected_node_ids) b.inbox in
    external_joint_review (elim b.current [ none ↦ none | some p ↦ some p.plan_id ])
      (elim b.current [ none ↦ none | some p ↦ some p.revision ]) b.inbox
      (all_of nodes (sorted_set (select (λ i. contains i affected_ids) (ids nodes))))
      (others nodes affected_ids) (elim b.current [ none ↦ [] | some p ↦ p.runtime.last_facts ])

-- What a loop that found anomalies leaves and returns.
unfoldable pub anomaly_decision :
    String → Facts → List String → List String → Plan → Progress → Book → Decision × Book
unfolding record_event save taken
anomaly_decision now facts paths changed p pr b =
    let invalidated = dependents pr.nodes (map (λ (a : Anomaly). a.node_id) pr.anomalies) in
    let report : AnomalyReport = record {
      anomalies = pr.anomalies;
      invalidated_node_ids = sorted_set invalidated;
      preserved_node_ids = others pr.nodes invalidated;
      changed_facts = sorted_set changed;
    } in
    let failed =
      concat_map (λ (a : Anomaly). map (λ (f : Failure). f.condition.fact) a.failures)
        pr.anomalies in
    let runtime = record p.runtime {
      nodes = pr.entries;
      last_facts = current_facts facts paths;
      last_fact_presence = sorted_set (current_presence facts paths);
      evaluated_at = some now;
      last_anomaly = some report;
      invalidated_node_ids = some (sorted_set invalidated);
    } in
    (
      localized_anomaly p.plan_id p.revision report (all_of pr.nodes (sorted_set invalidated))
          (current_facts facts (sorted_set (changed ++ failed))),
      record_event now (plan_anomaly p.plan_id report)
          (save now (record p { nodes = pr.nodes; runtime = runtime }) b),
    )

-- `sorted(nodes.items(), key=lambda item: item[0] != resume_from)`
abbrev pub resume_first : Option String → List String → List String
resume_first none keys = keys
resume_first (some i) keys = select (λ k. str_eq k i) keys ++ select (λ k. not (str_eq k i)) keys

abbrev pub is_open : Status → Bool
is_open planned = true
is_open active = true
is_open _ = false

-- The node is open, its dependencies are complete and its activation conditions pass.
unfoldable pub is_candidate : Builtins → Facts → Dict Bool → PlanNode → Bool
unfolding conditions_pass
is_candidate py facts ready n =
    is_open n.status
    && (is_ready ready n.node_id && conditions_pass py n.activation_conditions facts)

abbrev is_model_node : PlanNode → Bool
is_model_node n = elim n.decision_policy [ deterministic ↦ false | model_on_activation ↦ true ]

abbrev pub already_ran : NodeRuntime → PlanAction → Bool
already_ran entry a = elim entry.last_action_id [ none ↦ false | some i ↦ str_eq i a.action_id ]

abbrev pub ran_at : NodeRuntime → ℕ → Bool
ran_at entry revision = elim entry.last_fact_revision [ none ↦ false | some r ↦ r == revision ]

-- Whether the cadence of an action lets it run now.
unfoldable pub may_run : NodeRuntime → PlanAction → Bool → ℕ → Bool
may_run entry a facts_changed revision = elim a.cadence [
  | once ↦ not (already_ran entry a)
  | each_state_change ↦
      not (already_ran entry a && not (facts_changed && not (ran_at entry revision)))
]

unfoldable pub is_due : Builtins → Facts → Dict Bool → Dict NodeRuntime → Bool → ℕ → PlanNode → Bool
unfolding is_candidate may_run
is_due py facts ready entries facts_changed revision n =
    is_candidate py facts ready n
    && (not (is_model_node n) && elim n.action [
      | none ↦ false
      | some a ↦ may_run (entry_at n.node_id entries) a facts_changed revision
    ])

abbrev pub next_revision : Runtime → List String → ℕ
next_revision runtime changed = runtime.fact_revision + (if is_empty changed then 0 else 1)

-- `due_nodes`
unfoldable pub due_nodes :
    Builtins → Facts → List String → Dict Bool → Plan → Progress → List PlanNode
unfolding taken is_due
due_nodes py facts changed ready p pr =
    taken
      (is_due py facts ready pr.entries (not (is_empty changed)) (next_revision p.runtime changed))
      pr.nodes (resume_first p.resume_from_node_id (ids pr.nodes))

-- `decision_nodes`
unfoldable pub deciding_nodes : Builtins → Facts → Dict Bool → Plan → Progress → List PlanNode
unfolding taken is_candidate
deciding_nodes py facts ready p pr =
    taken (λ n. is_candidate py facts ready n && is_model_node n) pr.nodes
      (resume_first p.resume_from_node_id (ids pr.nodes))

unfoldable pub progressed_plan : String → Facts → List String → List String → Plan → Progress → Plan
progressed_plan now facts paths changed p pr = record p {
  nodes = pr.nodes;
  runtime = record p.runtime {
    nodes = pr.entries;
    last_facts = current_facts facts paths;
    last_fact_presence = sorted_set (current_presence facts paths);
    evaluated_at = some now;
    fact_revision = next_revision p.runtime changed;
    invalidated_node_ids = none;
  };
}

-- What a loop that found no anomaly leaves and returns.
unfoldable pub progress_decision :
    Builtins
    → String
    → Facts
    → List String
    → List String
    → Dict Bool
    → Plan
    → Progress
    → Book
    → Decision × Book
unfolding record_event save due_nodes deciding_nodes progressed_plan
progress_decision py now facts paths changed ready p pr b =
    let deciding = deciding_nodes py facts ready p pr in
    let saved = save now (progressed_plan now facts paths changed p pr) b in
    let left =
      if is_empty pr.completed_ids
      then saved
      else record_event now (nodes_completed p.plan_id pr.completed_ids) saved in
    (
      (if is_empty deciding
          then proceed p.plan_id p.revision (take 1 (due_nodes py facts changed ready p pr))
              (sorted_set changed) pr.completed_ids
          else model_decision p.plan_id p.revision deciding (sorted_set changed)
              (current_facts facts (sorted_set changed))),
      left,
    )

abbrev pub is_active : PlanStatus → Bool
is_active PlanStatus.active = true
is_active _ = false

-- The loop, from the plan as it is stored.
unfoldable pub reviewed : Builtins → String → Facts → Plan → Dict Bool → Result Progress
unfolding changed_facts directly_affected review_all
reviewed py now facts p ready =
    let changed = changed_facts p.runtime facts p.nodes in
    let affected = dependents p.nodes (directly_affected p.runtime changed p.nodes) in
    review_all py now facts p.runtime.waivers ready (sorted_set affected)
      (record { nodes = p.nodes; entries = p.runtime.nodes; anomalies = []; completed_ids = [] })

unfoldable pub concluded :
    Builtins → String → Facts → Plan → Book → Dict Bool → Progress → Result (Decision × Book)
unfolding changed_facts anomaly_decision progress_decision
concluded py now facts p b ready pr =
    let changed = changed_facts p.runtime facts p.nodes in
    let paths = watched p.nodes in
    ok (
      if is_empty pr.anomalies
      then progress_decision py now facts paths changed ready p pr b
      else anomaly_decision now facts paths changed p pr b)

unfoldable pub evaluate_plan : Builtins → String → Facts → Plan → Book → Result (Decision × Book)
unfolding readiness reviewed concluded
evaluate_plan py now facts p b = do
  ready ← readiness p.nodes p.nodes
  pr ← reviewed py now facts p ready
  concluded py now facts p b ready pr

-- `evaluate`; `facts` is what `_raw_facts` returns.
unfoldable pub evaluate : Builtins → String → Facts → Book → Result (Decision × Book)
unfolding evaluate_plan review_decision
evaluate py now facts b =
    if not (is_empty b.inbox) then ok (review_decision b, b) else elim b.current [
      | none ↦ ok (no_active_plan none, b)
      | some p ↦
          if is_active p.status
          then evaluate_plan py now facts p b
          else ok (no_active_plan (some p), b)
    ]

-- The waivers that accepting a report adds, each with the values that were observed.
unfoldable pub waived_failures : String → List Failure → Dict Json → Dict Json
waived_failures id [] waivers = waivers
waived_failures id (f ∷ fs) waivers = waived_failures id fs (
    insert (waiver_key id f.kind f.condition.fact)
      (object (field "exists" (boolean f.exists) (field "value" f.actual end))) waivers)

unfoldable pub waived_anomalies : List Anomaly → Dict Json → Dict Json
unfolding waived_failures
waived_anomalies [] waivers = waivers
waived_anomalies (a ∷ rest) waivers =
    waived_anomalies rest (waived_failures a.node_id a.failures waivers)

abbrev accepted_keys : List Anomaly → List String
accepted_keys anomalies =
    concat_map
      (λ (a : Anomaly).
        map (λ (f : Failure). waiver_key a.node_id f.kind f.condition.fact) a.failures)
      anomalies

abbrev is_rejection : Failure → Bool
is_rejection f = elim f.kind [
  | expectation_failed ↦ false
  | stop_condition_met ↦ false
  | provisional_execution_rejected ↦ true
]

unfoldable pub accept_in_plan : String → String → List Anomaly → Plan → Book → Result Book
unfolding waived_anomalies record_event save
accept_in_plan now plan_id anomalies p b = do
  refuse_if (not (str_eq p.plan_id plan_id)) exception_not_current
  refuse_if (any (λ (a : Anomaly). any is_rejection a.failures) anomalies) rejected_not_waivable
  ok (
      record_event now (localized_anomaly_accepted p.plan_id (accepted_keys anomalies)) (
        save now
          (record p {
            runtime = record p.runtime {
              waivers = waived_anomalies anomalies p.runtime.waivers;
              invalidated_node_ids = none;
            };
          })
          b))

-- `accept_localized_anomaly`, with the plan and the anomalies of the evaluation that it is given.
unfoldable pub accept_localized_anomaly : String → String → List Anomaly → Book → Result Book
unfolding accept_in_plan
accept_localized_anomaly now plan_id anomalies b = elim b.current [
  | none ↦ err exception_not_current
  | some p ↦ accept_in_plan now plan_id anomalies p b
]
