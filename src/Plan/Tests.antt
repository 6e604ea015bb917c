-- ===== src/Plan/Tests.antt =====
-- Runs of the plan book, and its theorems at a plan of two nodes.
use imperial_auto_governor.Common.{
  ℕ, suc, ◌+◌, String, ◌≡◌, ◌≢◌, refl, true, false, none, some, List, [], ◌∷◌, arith, str_eq,
  eq_iff, if◌then◌else◌, length, ◌≤◌,
}
use imperial_auto_governor.Common.Int.{pos, ◌+ℤ◌, ◌-ℤ◌, dist_ℤ}
use imperial_auto_governor.Common.Text.{strip, sorted_set, distinct}
use imperial_auto_governor.Plan.Json.{Json, null, boolean, integer, object, field, end, Builtins}
use imperial_auto_governor.Plan.Condition.{PlanCondition, gte, Facts, execution_is_provisional}
use imperial_auto_governor.Plan.Node.{
  PlanNode, PlanAction, Status, planned, active, completed, once, after_success, deterministic,
  Result, ok, err, ◌>>=◌, has_repeat,
}
use imperial_auto_governor.Plan.Graph.{
  ids, find_node, dependents, validate_graph, references_known, search_order,
}
use imperial_auto_governor.Plan.Graph.Closure.{IsWithin, IsClosed, dependents_least}
use imperial_auto_governor.Plan.Graph.Acyclic.{
  IsOrdered, Falls, validate_graph_sound, validate_graph_complete,
}
use imperial_auto_governor.Plan.Book.{
  Review, queue_external_review, Plan, PlanStatus, Book, expectation_failed, empty_runtime,
  validate_nodes,
}
use imperial_auto_governor.Plan.Book.Reviews.{has_review, queue_external_review-again}
use imperial_auto_governor.Plan.Edit.{
  EditRequest, edit, invalidated, upsert_all, without, block, put_node,
}
use imperial_auto_governor.Plan.Edit.Kept.{edit-completed, edit-unnamed, edit-next_revision}
use imperial_auto_governor.Plan.Watch.{watched_all}
use imperial_auto_governor.Plan.Evaluate.{entry_at, failures_of}
use imperial_auto_governor.Plan.Evaluate.Moves.{Forward}
use imperial_auto_governor.Plan.Evaluate.Waivers.{null_fact-not_reported}
use imperial_auto_governor.Plan.Decide.{Decision, proceed, evaluate}
use imperial_auto_governor.Plan.Decide.Due.{Runnable, evaluate-due}
use imperial_auto_governor.Plan.Decide.Keeps.{evaluate-Forward, evaluate-last_action}
use imperial_auto_governor.Plan.Lifecycle.{
  Call, editing, evaluating, accepting, after_calls, HasNode, after_calls-HasNode,
}
use imperial_auto_governor.Plan.Execute.{Toolbox, executed, execute_due_action}
use imperial_auto_governor.Plan.Execute.Records.{
  Recorded, execute-guarded, execute-Recorded, execute-evaluate_once,
}

-- What a run of the book computes with.
evaluated : Unit {0}
unfolding after_calls edit evaluate execute_due_action dependents validate_graph validate_nodes
    find_node strip execution_is_provisional ◌+ℤ◌ ◌-ℤ◌ dist_ℤ invalidated sorted_set distinct
    watched_all upsert_all without block put_node has_repeat references_known search_order
    queue_external_review
evaluated = tt

-- No text is a float, and letters stay as they are.
abbrev plain : Builtins
plain = record { float_of = λ _. none; rendered = λ _. ""; lower = λ s. s }

abbrev stocked : PlanCondition
stocked = record {
  fact = "/stock";
  operator = gte;
  value = integer (pos 3);
  tolerance = none;
  description = "";
}

abbrev build : PlanAction
build = record {
  action_id = "build";
  prepare_tool = "prepare_build";
  prepare_arguments = object end;
  execute_tool = some "execute_build";
  execute_arguments = object end;
  cadence = once;
  completion_mode = after_success;
}

abbrev first : PlanNode
first = record {
  node_id = "first";
  parent_id = none;
  title = "First";
  objective = "";
  status = planned;
  depends_on = [];
  activation_conditions = stocked ∷ [];
  expectations = [];
  stop_conditions = [];
  completion_conditions = [];
  action = some build;
  decision_policy = deterministic;
  details = null;
}

abbrev second : PlanNode
second = record first { node_id = "second"; depends_on = "first" ∷ [] }

abbrev two_nodes : List PlanNode
two_nodes = first ∷ second ∷ []

abbrev two : Plan
two = record {
  plan_id = "p";
  title = "Two";
  objective = "";
  nodes = two_nodes;
  domain_context = null;
  status = PlanStatus.active;
  revision = 1;
  created_at = "t0";
  updated_at = "t0";
  resume_from_node_id = none;
  runtime = empty_runtime;
  original_plan = record {
    plan_id = "p";
    title = "Two";
    objective = "";
    nodes = two_nodes;
    domain_context = null;
  };
}

abbrev start : Book
start = record { current = some two; audit = []; messages = []; inbox = []; archive = [] }

abbrev facts : Facts
facts = ("/stock", integer (pos 5)) ∷ []

abbrev plan_of : Book → Plan
plan_of b = elim b.current [ none ↦ two | some p ↦ p ]

abbrev book_of : Result (Decision × Book) → Book
book_of r = elim r [ ok a ↦ a.1 | err e ↦ start ]

-- A toolbox that succeeds and counts its calls.
abbrev counting : Toolbox ℕ
counting = record {
  dispatch = λ tool arguments s.
      (ok (object (field "success" (boolean true) end), "done"), (s.0, suc s.1));
  assert_current = λ s. ok tt;
}

abbrev result : Json
result = object (field "success" (boolean true) end)

abbrev after_first : Book
after_first = book_of (evaluate plain "t1" facts start)

abbrev active_first : PlanNode
active_first = record first { status = active }

abbrev after_run : Book
after_run =
    (execute_due_action plain "t2" counting true
      (proceed "p" 1 (active_first ∷ []) ("/stock" ∷ []) []) (after_first, 0)).1.0

abbrev after_second : Book
after_second = book_of (evaluate plain "t3" facts after_run)

abbrev retitle : EditRequest
retitle = record {
  plan_id = "p";
  expected_revision = 1;
  observed_change = "a change";
  reason = "a reason";
  invalidate_node_ids = [];
  preserve_node_ids = "first" ∷ [];
  remove_node_ids = [];
  upsert_nodes = record second { title = "Second" } ∷ [];
  resume_from_node_id = none;
  plan_status = none;
}

abbrev after_edit : Book
after_edit = elim (edit "t4" retitle after_run) [ ok b ↦ b | err e ↦ start ]

is_due :
    evaluate plain "t1" facts start
    ≡ ok (proceed "p" 1 (active_first ∷ []) ("/stock" ∷ []) [], after_first)
unfolding evaluated
is_due = refl

has_run :
    execute_due_action plain "t2" counting true
      (proceed "p" 1 (active_first ∷ []) ("/stock" ∷ []) [])
      (after_first, 0)
    ≡ (ok (executed "first" "build" "done" "done" false result), (after_run, 2))
unfolding evaluated
has_run = refl

is_next : evaluate plain "t3" facts after_run ≡ ok (proceed "p" 1 (second ∷ []) [] [], after_second)
unfolding evaluated
is_next = refl

is_edited : edit "t4" retitle after_run ≡ ok after_edit
unfolding evaluated
is_edited = refl

has_after_first : after_first.current ≡ some (plan_of after_first)
unfolding evaluated
has_after_first = refl

has_after_run : after_run.current ≡ some (plan_of after_run)
unfolding evaluated
has_after_run = refl

has_after_second : after_second.current ≡ some (plan_of after_second)
unfolding evaluated
has_after_second = refl

has_after_edit : after_edit.current ≡ some (plan_of after_edit)
unfolding evaluated
has_after_edit = refl

evaluate-due_example :
    (◌≡◌ {A = List PlanNode} [] []) × Runnable plain facts two (plan_of after_first) active_first
evaluate-due_example =
    evaluate-due plain "t1" facts two (plan_of after_first) start after_first "p" 1 active_first []
      ("/stock" ∷ []) [] refl is_due has_after_first

evaluate-Forward_example :
    (s : Status) × (find_node "first" (plan_of after_first).nodes
      ≡ some (record first { status = s }))
    × Forward planned s
unfolding evaluated
evaluate-Forward_example =
    evaluate-Forward plain "t1" facts two (plan_of after_first) start after_first
      (proceed "p" 1 (active_first ∷ []) ("/stock" ∷ []) []) refl is_due has_after_first "first"
      first refl

evaluate-last_action_example :
    ((plan_of after_second).revision ≡ (plan_of after_run).revision)
    × ((id : String)
        → (entry_at id (plan_of after_second).runtime.nodes).last_action_id
          ≡ (entry_at id (plan_of after_run).runtime.nodes).last_action_id)
evaluate-last_action_example =
    evaluate-last_action plain "t3" facts (plan_of after_run) (plan_of after_second) after_run
      after_second (proceed "p" 1 (second ∷ []) [] []) has_after_run is_next has_after_second

execute-guarded_example :
    (execute_due_action plain "t2" counting true
      (proceed "p" 2 (active_first ∷ []) [] [])
      (after_first, 0)).1
    ≡ (after_first, 0)
unfolding evaluated
execute-guarded_example =
    execute-guarded plain "t2" counting true "p" 2 (active_first ∷ []) [] [] after_first 0 refl

execute-Recorded_example :
    (◌≡◌ {A = String} "first" "first")
    × (false ≡ execution_is_provisional plain result)
    × ((a : PlanAction) × (some build ≡ some a) × ("build" ≡ a.action_id))
    × Recorded (plan_of after_run) "first" "build" false result
execute-Recorded_example =
    execute-Recorded plain "t2" counting true "p" 1 active_first [] ("/stock" ∷ []) [] after_first
      after_run 0 2 (plan_of after_run) "first" "build" "done" "done" false result has_run
      has_after_run

execute-evaluate_once_example : ◌≢◌ {A = String} "second" "first"
execute-evaluate_once_example =
    execute-evaluate_once plain "t2" counting true "p" "p" 1 1 active_first second [] []
      ("/stock" ∷ []) [] [] [] after_first after_run after_second 0 2 (plan_of after_run)
      (plan_of after_second) build "first" "build" "done" "done" false result "t3" facts has_run
      has_after_run is_next has_after_second refl refl refl

done_first :
    find_node "first" (plan_of after_run).nodes ≡ some (record first { status = completed })
unfolding evaluated
done_first = refl

still_done :
    find_node "first" (plan_of after_edit).nodes ≡ some (record first { status = completed })
still_done =
    edit-completed "t4" retitle (plan_of after_run) (plan_of after_edit) after_run after_edit
      "first" (record first { status = completed }) has_after_run is_edited has_after_edit
      done_first refl

abbrev calls : List Call
calls =
    editing retitle "t4" ∷ evaluating facts "t5" ∷ accepting "p" [] "t6" ∷ editing retitle "t7" ∷ []

has_first : HasNode "first" (record first { status = completed }) after_run
has_first = record { plan = plan_of after_run; current = has_after_run; found = done_first }

after_calls-HasNode_example :
    HasNode "first" (record first { status = completed }) (after_calls plain calls after_run)
after_calls-HasNode_example =
    after_calls-HasNode plain calls "first" (record first { status = completed }) after_run refl
      has_first

edit-unnamed_example :
    find_node "first" (plan_of after_edit).nodes ≡ find_node "first" (plan_of after_run).nodes
unfolding evaluated
edit-unnamed_example =
    edit-unnamed "t4" retitle (plan_of after_run) (plan_of after_edit) after_run after_edit "first"
      has_after_run is_edited has_after_edit refl refl refl

edit-next_revision_example :
    ("p" ≡ (plan_of after_run).plan_id)
    × (1 ≡ (plan_of after_run).revision)
    × ((plan_of after_edit).revision ≡ (plan_of after_run).revision + 1)
    × (validate_graph (plan_of after_edit).nodes ≡ ok tt)
edit-next_revision_example =
    edit-next_revision "t4" retitle (plan_of after_run) (plan_of after_edit) after_run after_edit
      has_after_run is_edited has_after_edit

dependents_least_example :
    IsWithin ("first" ∷ []) (dependents two_nodes ("first" ∷ []))
    × IsClosed two_nodes (dependents two_nodes ("first" ∷ []))
    × ((t : List String)
        → IsWithin ("first" ∷ []) t
        → IsClosed two_nodes t
        → IsWithin (dependents two_nodes ("first" ∷ [])) t)
dependents_least_example = dependents_least two_nodes ("first" ∷ [])

validate_graph_sound_example :
    (order : List String) × IsOrdered two_nodes order × IsWithin (ids two_nodes) order
unfolding evaluated
validate_graph_sound_example = validate_graph_sound two_nodes refl

abbrev rank : String → ℕ
rank id = if str_eq id "first" then 0 else 1

falls : Falls two_nodes rank
unfolding find_node
falls id r h =
    ground (arith, eq_iff "first" id, eq_iff "second" id, eq_iff id "first", eq_iff r "first")

validate_graph_complete_example : validate_graph two_nodes ≡ ok tt
unfolding evaluated
validate_graph_complete_example =
    validate_graph_complete two_nodes rank refl refl falls (omega arith, (omega arith, tt))

-- The stock is there and is None, so that the expectation of at least three is not met.
null_fact_unreported :
    failures_of plain (("/stock", null) ∷ []) [] "first" expectation_failed false (stocked ∷ [])
    ≡ []
null_fact_unreported =
    null_fact-not_reported plain (("/stock", null) ∷ []) [] "first" expectation_failed false stocked
      refl refl

abbrev advice : Review
advice = record {
  review_id = "r1";
  application_id = "economy";
  affected_node_ids = "first" ∷ [];
  queued_at = "";
}

abbrev after_advice : Book
after_advice = elim (queue_external_review "economy" "t1" advice start) [ ok b ↦ b | err e ↦ start ]

queue_external_review-again_example :
    (has_review "r1" after_advice ≡ true)
    × (length after_advice.inbox ≤ 20)
    × (queue_external_review "economy" "t2" advice after_advice ≡ ok after_advice)
unfolding evaluated
queue_external_review-again_example =
    queue_external_review-again "economy" "t1" "t2" advice start after_advice refl (omega arith)
      refl

abbrev padded : Review
padded = record advice { review_id = " r1" }

abbrev size_of : Result Book → ℕ
size_of r = elim r [ ok b ↦ length b.inbox | err e ↦ 0 ]

-- The identifier that is compared is stripped and the one that is stored is not: such a review is
-- queued twice.
padded_twice :
    size_of (
      queue_external_review "economy" "t1" padded start
      >>= queue_external_review "economy" "t2" padded)
    ≡ 2
unfolding evaluated
padded_twice = refl
