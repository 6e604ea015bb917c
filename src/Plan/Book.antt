-- ===== src/Plan/Book.antt =====
-- src/iag/core/application_plan.py: the state of `ApplicationPlanBook` in the conversation store, and
-- its audit (an event keeps what identifies it, not the copies of nodes and not every text), its inbox of
-- external reviews and the creation of a plan.
-- `now` is what `now_iso` returns during a call.
pub mod Reviews
use imperial_auto_governor.Common.{
  ℕ, ◌-◌, String, Bool, true, false, not, Option, none, some, List, [], ◌∷◌, ◌++◌, str_eq,
  if◌then◌else◌, any, select, contains, length, drop,
}
use imperial_auto_governor.Common.Dict.{Dict}
use imperial_auto_governor.Common.Text.{strip, sorted_set}
use imperial_auto_governor.Plan.Json.{Json}
use imperial_auto_governor.Plan.Condition.{PlanCondition, Facts}
use imperial_auto_governor.Plan.Node.{
  PlanNode, PlanDraft, Result, ok, err, ◌>>◌, refuse_if, missing_reason, active_plan_exists,
  missing_review_id, foreign_review, validate_node,
}
use imperial_auto_governor.Plan.Graph.{ids, validate_draft}

pub data PlanStatus : Type 0 where
  active completed suspended cancelled : PlanStatus
  -- Any other text that an edit stores.
  other_status : String → PlanStatus

-- An entry of `runtime["nodes"]`; an absent key of the dict is `none`, or false for `provisional`.
pub record NodeRuntime : Type 0 where
  pub provisional : Bool
  pub confirmation_fact : Option String
  pub completed_at : Option String
  pub last_action_id : Option String
  pub last_action_at : Option String
  pub last_fact_revision : Option ℕ
  pub result : Json

pub data FailureKind : Type 0 where
  expectation_failed stop_condition_met provisional_execution_rejected : FailureKind

pub record Failure : Type 0 where
  pub kind : FailureKind
  pub condition : PlanCondition
  pub actual : Json
  pub exists : Bool

pub record Anomaly : Type 0 where
  pub node_id : String
  pub failures : List Failure

pub record AnomalyReport : Type 0 where
  pub anomalies : List Anomaly
  pub invalidated_node_ids : List String
  pub preserved_node_ids : List String
  pub changed_facts : List String

pub record Runtime : Type 0 where
  pub nodes : Dict NodeRuntime
  pub last_facts : Facts
  pub last_fact_presence : List String
  pub evaluated_at : Option String
  pub fact_revision : ℕ
  pub waivers : Dict Json
  pub last_anomaly : Option AnomalyReport
  pub invalidated_node_ids : Option (List String)

pub record Plan : Type 0 where
  pub plan_id : String
  pub title : String
  pub objective : String
  pub nodes : List PlanNode
  pub domain_context : Json
  pub status : PlanStatus
  pub revision : ℕ
  pub created_at : String
  pub updated_at : String
  pub resume_from_node_id : Option String
  pub runtime : Runtime
  pub original_plan : PlanDraft

-- A directive of another Application's review; its free text is not read by the book.
pub record Review : Type 0 where
  pub review_id : String
  pub application_id : String
  pub affected_node_ids : List String
  pub queued_at : String

pub data Event : Type 0 where
  external_review_queued : String → List String → Event
  external_review_completed : List String → Event
  plan_created : String → ℕ → String → List String → Event
  plan_edited : String → ℕ → List String → List String → List String → List String → Event
  localized_anomaly_accepted : String → List String → Event
  plan_anomaly : String → AnomalyReport → Event
  nodes_completed : String → List String → Event
  deterministic_action_executed : String → String → String → Bool → Json → Event
  application_tool_observed : String → String → List String → Bool → String → Json → Event

pub record Archived : Type 0 where
  pub archived_at : String
  pub reason : String
  pub superseded_by_plan_id : String
  pub plan : Plan

-- What the store holds for one Application; `messages` are the invisible ones that `_audit` appends.
pub record Book : Type 0 where
  pub current : Option Plan
  pub audit : List (String × Event)
  pub messages : List (String × Event)
  pub inbox : List Review
  pub archive : List Archived

-- `xs[-n:]`
abbrev pub last_n {ℓ} : {A : Type ℓ} → ℕ → List A → List A
last_n n xs = drop (length xs - n) xs

-- `_audit`
unfoldable pub record_event : String → Event → Book → Book
record_event now e b = record b {
  audit = last_n 500 (b.audit ++ (now, e) ∷ []);
  messages = b.messages ++ (now, e) ∷ [];
}

-- `_save`
unfoldable pub save : String → Plan → Book → Book
save now p b = record b { current = some (record p { updated_at = now }) }

abbrev pub empty_runtime : Runtime
empty_runtime = record {
  nodes = [];
  last_facts = [];
  last_fact_presence = [];
  evaluated_at = none;
  fact_revision = 0;
  waivers = [];
  last_anomaly = none;
  invalidated_node_ids = none;
}

unfoldable pub with_review : String → String → Review → Book → Book
unfolding record_event
with_review now review_id directive b =
    record_event now (external_review_queued review_id directive.affected_node_ids)
      (record b { inbox = last_n 20 (b.inbox ++ record directive { queued_at = now } ∷ []) })

-- `queue_external_review`, for the book of one Application.
unfoldable pub queue_external_review : String → String → Review → Book → Result Book
unfolding with_review strip
queue_external_review application now directive b =
    let review_id = strip directive.review_id in
    if str_eq review_id ""
    then err missing_review_id
    else if not (str_eq directive.application_id application)
    then err foreign_review
    else if any (λ (r : Review). str_eq r.review_id review_id) b.inbox
    then ok b
    else ok (with_review now review_id directive b)

-- `complete_external_reviews`
unfoldable pub complete_external_reviews : String → List String → Book → Book
unfolding record_event
complete_external_reviews now review_ids b =
    let selected = select (λ i. not (str_eq i "")) review_ids in
    let done = select (λ i. any (λ (r : Review). str_eq r.review_id i) b.inbox) selected in
    if elim done [ [] ↦ true | _ ∷ _ ↦ false ]
    then b
    else record_event now (external_review_completed (sorted_set done))
        (record b { inbox = select (λ (r : Review). not (contains r.review_id selected)) b.inbox })

unfoldable pub validate_nodes : List PlanNode → Result (Unit {0})
unfolding validate_node
validate_nodes [] = ok tt
validate_nodes (n ∷ ns) = validate_node n >> validate_nodes ns

-- `previous.get("status") in {"active", "suspended"}`
abbrev is_open : PlanStatus → Bool
is_open active = true
is_open suspended = true
is_open completed = false
is_open cancelled = false
is_open (other_status text) = false

abbrev has_open_plan : Book → Bool
has_open_plan b = elim b.current [ none ↦ false | some p ↦ is_open p.status ]

unfoldable pub archived_before : String → String → PlanDraft → Book → List Archived
archived_before now reason d b = elim b.current [
  | none ↦ b.archive
  | some previous ↦ last_n 50 (
      b.archive
      ++ record {
        archived_at = now;
        reason = reason;
        superseded_by_plan_id = d.plan_id;
        plan = previous;
      }
        ∷ [])
]

unfoldable pub new_plan : String → PlanDraft → Plan
new_plan now d = record {
  plan_id = d.plan_id;
  title = d.title;
  objective = d.objective;
  nodes = d.nodes;
  domain_context = d.domain_context;
  status = active;
  revision = 1;
  created_at = now;
  updated_at = now;
  resume_from_node_id = none;
  runtime = empty_runtime;
  original_plan = d;
}

-- `create`
unfoldable pub create : String → String → PlanDraft → Book → Result Book
unfolding validate_nodes validate_draft archived_before new_plan save record_event strip
create now reason d b = do
  refuse_if (str_eq (strip reason) "") missing_reason
  validate_nodes d.nodes
  validate_draft d
  refuse_if (has_open_plan b) active_plan_exists
  ok (
      record_event now (plan_created d.plan_id 1 (strip reason) (ids d.nodes))
        (save now (new_plan now d) (record b { archive = archived_before now (strip reason) d b })))
