-- ===== src/Plan/Edit.antt =====
-- src/iag/core/application_plan.py: `ApplicationPlanBook.edit`.
pub mod Kept
use imperial_auto_governor.Common.{
  ℕ, suc, ◌+◌, String, Bool, true, false, not, ◌&&◌, ◌||◌, Option, none, some, List, [], ◌∷◌, ◌++◌,
  str_eq, ◌==◌, if◌then◌else◌, any, all, select, map, contains,
}
use imperial_auto_governor.Common.Dict.{Dict}
use imperial_auto_governor.Common.Text.{strip, sorted_set}
use imperial_auto_governor.Plan.Node.{
  PlanNode, Status, completed, blocked, Error, Result, ok, err, ◌>>=◌, ◌>>◌, refuse_if,
  no_current_plan, plan_mismatch, stale_revision, missing_edit_reason, preserved_and_changed,
  unknown_nodes, dependent_preserved, completed_removed, completed_immutable, resume_unknown,
  validate_node,
}
use imperial_auto_governor.Plan.Graph.{ids, find_node, dependents, validate_graph}
use imperial_auto_governor.Plan.Book.{
  Plan, PlanStatus, Runtime, NodeRuntime, Book, Event, plan_edited, record_event, save,
  validate_nodes,
}

pub record EditRequest : Type 0 where
  pub plan_id : String
  pub expected_revision : ℕ
  pub observed_change : String
  pub reason : String
  pub invalidate_node_ids : List String
  pub preserve_node_ids : List String
  pub remove_node_ids : List String
  pub upsert_nodes : List PlanNode
  pub resume_from_node_id : Option String
  pub plan_status : Option PlanStatus

-- `a.intersection(b)` is not empty.
abbrev pub meets : List String → List String → Bool
meets xs ys = any (λ x. contains x ys) xs

abbrev pub is_completed : PlanNode → Bool
is_completed n = elim n.status [ completed ↦ true | _ ↦ false ]

unfoldable pub block : List String → PlanNode → PlanNode
block invalid n =
    if contains n.node_id invalid && not (is_completed n) then record n { status = blocked } else n

-- `nodes.pop(node_id)` for every removed node.
unfoldable pub without : List String → List PlanNode → List PlanNode
without removed nodes = select (λ (n : PlanNode). not (contains n.node_id removed)) nodes

-- `nodes[node.node_id] = node` of a dict keeps the place of an old key.
unfoldable pub put_node : PlanNode → List PlanNode → List PlanNode
put_node n [] = n ∷ []
put_node n (m ∷ ms) = if str_eq m.node_id n.node_id then n ∷ ms else m ∷ put_node n ms

-- The loop over `upsert_nodes`.
unfoldable pub upsert_all : List PlanNode → List PlanNode → Result (List PlanNode)
upsert_all [] nodes = ok nodes
upsert_all (n ∷ ns) nodes = do
  validate_node n
  refuse_if (elim (find_node n.node_id nodes) [ none ↦ false | some m ↦ is_completed m ])
      completed_immutable
  upsert_all ns (put_node n nodes)

-- `_dependents(nodes, invalidate) - remove`
unfoldable pub invalidated : EditRequest → List PlanNode → List String
invalidated q nodes =
    select (λ i. not (contains i q.remove_node_ids)) (dependents nodes q.invalidate_node_ids)

-- The nodes of the plan after the edit, or the refusal.
unfoldable pub edited_nodes : EditRequest → List PlanNode → Result (List PlanNode)
edited_nodes q nodes = do
  refuse_if
      (meets q.invalidate_node_ids q.preserve_node_ids
        || meets q.remove_node_ids q.preserve_node_ids)
      preserved_and_changed
  refuse_if
      (any (λ i. not (contains i (ids nodes)))
        (q.invalidate_node_ids ++ (q.preserve_node_ids ++ q.remove_node_ids)))
      unknown_nodes
  refuse_if (meets (invalidated q nodes) q.preserve_node_ids) dependent_preserved
  refuse_if (any (λ (n : PlanNode). contains n.node_id q.remove_node_ids && is_completed n) nodes)
      completed_removed
  result ←
      upsert_all q.upsert_nodes
        (without q.remove_node_ids (map (block (invalidated q nodes)) nodes))
  validate_nodes result
  validate_graph result
  refuse_if (elim q.resume_from_node_id [ none ↦ false | some i ↦ not (contains i (ids result)) ])
      resume_unknown
  ok result

-- `runtime.pop(node_id, None)` for every changed node.
unfoldable pub forget : List String → Dict NodeRuntime → Dict NodeRuntime
forget changed entries = select (λ (e : String × NodeRuntime). not (contains e.0 changed)) entries

unfoldable pub edited_plan : EditRequest → Plan → List PlanNode → Plan
edited_plan q p nodes = record p {
  nodes = nodes;
  revision = p.revision + 1;
  resume_from_node_id = q.resume_from_node_id;
  status = elim q.plan_status [ none ↦ p.status | some s ↦ s ];
  runtime = record p.runtime {
    nodes =
        forget (invalidated q p.nodes ++ (q.remove_node_ids ++ ids q.upsert_nodes)) p.runtime.nodes;
    invalidated_node_ids = none;
  };
}

unfoldable pub edited_book : String → EditRequest → Plan → Book → List PlanNode → Result Book
unfolding record_event save edited_plan
edited_book now q p b nodes = ok (
    record_event now
      (plan_edited p.plan_id (p.revision + 1) (sorted_set (invalidated q p.nodes))
        (sorted_set q.preserve_node_ids) (sorted_set q.remove_node_ids) (ids q.upsert_nodes))
      (save now (edited_plan q p nodes) b))

unfoldable pub edit_plan : String → EditRequest → Plan → Book → Result Book
unfolding edited_nodes edited_book strip
edit_plan now q p b = do
  refuse_if (not (str_eq q.plan_id p.plan_id)) plan_mismatch
  refuse_if (not (q.expected_revision == p.revision)) stale_revision
  refuse_if (str_eq (strip q.observed_change) "" || str_eq (strip q.reason) "") missing_edit_reason
  nodes ← edited_nodes q p.nodes
  edited_book now q p b nodes

unfoldable pub edit : String → EditRequest → Book → Result Book
unfolding edit_plan
edit now q b = elim b.current [ none ↦ err no_current_plan | some p ↦ edit_plan now q p b ]
