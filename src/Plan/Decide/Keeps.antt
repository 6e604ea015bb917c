-- ===== src/Plan/Decide/Keeps.antt =====
-- What an evaluation, whatever it decides, leaves of the plan.
use imperial_auto_governor.Common.{
  String, ◌≡◌, refl, sym, ap, ◌∙◌, Bool, none, some, List, [], arith, Bool-cases, ◌⊎◌, inl, inr,
}
use imperial_auto_governor.Common.Dict.{Dict}
use imperial_auto_governor.Plan.Json.{Builtins}
use imperial_auto_governor.Plan.Condition.{Facts}
use imperial_auto_governor.Plan.Node.{PlanNode, Status, Result, ok, >>=-eq-ok}
use imperial_auto_governor.Plan.Graph.{find_node}
use imperial_auto_governor.Plan.Book.{Plan, Book, record_event, save}
use imperial_auto_governor.Plan.Edit.Kept.{plan-some}
use imperial_auto_governor.Plan.Watch.{watched, changed_facts, readiness}
use imperial_auto_governor.Plan.Evaluate.{Progress, entry_at, is_empty}
use imperial_auto_governor.Plan.Evaluate.Moves.{Forward, Moves, stays, review_all-Moves}
use imperial_auto_governor.Plan.Decide.{
  Decision, review_decision, is_active, progressed_plan, progress_decision, anomaly_decision,
  reviewed, concluded, evaluate_plan, evaluate,
}

-- The plan that a finished loop leaves.
record Saved (p : Plan) (pr : Progress) (b' : Book) : Type 0 where
  plan : Plan
  current : b'.current ≡ some plan
  nodes : plan.nodes ≡ pr.nodes
  entries : plan.runtime.nodes ≡ pr.entries
  plan_id : plan.plan_id ≡ p.plan_id
  revision : plan.revision ≡ p.revision

anomaly_decision-Saved :
    (now : String) (facts : Facts) (paths changed : List String) (p : Plan) (pr : Progress)
    (b : Book)
    → Saved p pr (anomaly_decision now facts paths changed p pr b).1
unfolding anomaly_decision record_event save
anomaly_decision-Saved now facts paths changed p pr b = record {
  plan = elim (anomaly_decision now facts paths changed p pr b).1.current [ none ↦ p | some q ↦ q ];
  current = refl;
  nodes = refl;
  entries = refl;
  plan_id = refl;
  revision = refl;
}

progress_decision-Saved :
    (py : Builtins) (now : String) (facts : Facts) (paths changed : List String) (ready : Dict Bool)
    (p : Plan) (pr : Progress) (b : Book)
    → Saved p pr (progress_decision py now facts paths changed ready p pr b).1
unfolding progress_decision progressed_plan record_event save
progress_decision-Saved py now facts paths changed ready p pr b = record {
  plan = record (progressed_plan now facts paths changed p pr) { updated_at = now };
  current = elim (Bool-cases (is_empty pr.completed_ids)) [
    | inl e ↦ ground arith
    | inr e ↦ ground arith
  ];
  nodes = refl;
  entries = refl;
  plan_id = refl;
  revision = refl;
}

answer-ok : (a c : Decision × Book) → ◌≡◌ {A = Result (Decision × Book)} (ok a) (ok c) → a ≡ c
answer-ok a c h = cc

concluded-Saved :
    (py : Builtins) (now : String) (facts : Facts) (p : Plan) (b : Book) (ready : Dict Bool)
    (pr : Progress) (answer : Decision × Book)
    → concluded py now facts p b ready pr ≡ ok answer
    → Saved p pr answer.1
unfolding concluded
concluded-Saved py now facts p b ready pr answer h =
    let changed = changed_facts p.runtime facts p.nodes in
    let paths = watched p.nodes in
    elim (Bool-cases (is_empty pr.anomalies)) [
      | inl e ↦
          let same : progress_decision py now facts paths changed ready p pr b ≡ answer =
            answer-ok _ _ (ground arith) in
          rw (← same) (progress_decision-Saved py now facts paths changed ready p pr b)
      | inr e ↦
          let same : anomaly_decision now facts paths changed p pr b ≡ answer =
            answer-ok _ _ (ground arith) in
          rw (← same) (anomaly_decision-Saved now facts paths changed p pr b)
    ]

-- A call of `evaluate` either leaves the book as it is or saves what its loop did.
record Evaluated (py : Builtins) (now : String) (facts : Facts) (p : Plan) (b' : Book)
    : Type 0 where
  before : Progress
  after : Progress
  nodes : before.nodes ≡ p.nodes
  entries : before.entries ≡ p.runtime.nodes
  moves : Moves before after
  saved : Saved p after b'

evaluate_plan-Evaluated :
    (py : Builtins) (now : String) (facts : Facts) (p : Plan) (b : Book) (answer : Decision × Book)
    → evaluate_plan py now facts p b ≡ ok answer
    → Evaluated py now facts p answer.1
unfolding evaluate_plan reviewed
evaluate_plan-Evaluated py now facts p b answer h =
    let (ready, complete_nodes, h₁) = >>=-eq-ok (readiness p.nodes p.nodes) _ h in
    let (pr, loop, h₂) = >>=-eq-ok (reviewed py now facts p ready) _ h₁ in
    record {
      before = record {
        nodes = p.nodes;
        entries = p.runtime.nodes;
        anomalies = [];
        completed_ids = [];
      };
      after = pr;
      nodes = refl;
      entries = refl;
      moves = review_all-Moves py now facts p.runtime.waivers ready _ _ pr loop;
      saved = concluded-Saved py now facts p b ready pr answer h₂;
    }

evaluate-cases :
    (py : Builtins) (now : String) (facts : Facts) (p : Plan) (b : Book) (answer : Decision × Book)
    → b.current ≡ some p
    → evaluate py now facts b ≡ ok answer
    → (answer.1 ≡ b) ⊎ (evaluate_plan py now facts p b ≡ ok answer)
unfolding evaluate
evaluate-cases py now facts p b answer has h = elim (Bool-cases (is_empty b.inbox)) [
  | inr e ↦
      inl
        (ap (λ (a : Decision × Book). a.1) (answer-ok answer (review_decision b, b) (ground arith)))
  | inl e ↦ elim (Bool-cases (is_active p.status)) [
    | inl s ↦ inr (ground arith)
    | inr s ↦ inl (
        ap (λ (a : Decision × Book). a.1)
          (answer-ok answer (Decision.no_active_plan (some p), b) (ground arith)))
  ]
]

-- A call of `evaluate` leaves a plan where there was one.
pub evaluate-current :
    (py : Builtins) (now : String) (facts : Facts) (p : Plan) (b : Book) (answer : Decision × Book)
    → b.current ≡ some p
    → evaluate py now facts b ≡ ok answer
    → (p' : Plan) × (answer.1.current ≡ some p')
evaluate-current py now facts p b answer has h =
    elim (evaluate-cases py now facts p b answer has h) [
      | inl same ↦ (p, ap (λ (x : Book). x.current) same ∙ has)
      | inr planned ↦
          let saved = (evaluate_plan-Evaluated py now facts p b answer planned).saved in
          (saved.plan, saved.current)
    ]

module _ (py : Builtins) (now : String) (facts : Facts) (p p' : Plan) (b b' : Book) (d : Decision)
    (has : b.current ≡ some p) (h : evaluate py now facts b ≡ ok (d, b'))
    (has' : b'.current ≡ some p') where
  -- `evaluate` keeps every node of the plan, and all of it but the status, which stays or goes from
  -- planned to active, from active to completed, or from planned to completed.
  pub evaluate-Forward :
      (id : String) (n : PlanNode)
      → find_node id p.nodes ≡ some n
      → (s : Status) × (find_node id p'.nodes ≡ some (record n { status = s })) × Forward n.status s
  evaluate-Forward id n found = elim (evaluate-cases py now facts p b (d, b') has h) [
    | inl same ↦
        let plan : p ≡ p' =
          plan-some p p' (sym has ∙ (ap (λ (x : Book). x.current) (sym same) ∙ has')) in
        (n.status, rw (← plan) found, stays)
    | inr planned ↦
        let run = evaluate_plan-Evaluated py now facts p b (d, b') planned in
        let plan : run.saved.plan ≡ p' = plan-some _ _ (sym run.saved.current ∙ has') in
        let nodes : p'.nodes ≡ run.after.nodes =
          ap (λ (x : Plan). x.nodes) (sym plan) ∙ run.saved.nodes in
        rw nodes (run.moves.forward id n (rw run.nodes found))
  ]

  -- `evaluate` changes neither the revision of the plan nor the last action that ran for a node.
  pub evaluate-last_action :
      (p'.revision ≡ p.revision)
      × ((id : String)
          → (entry_at id p'.runtime.nodes).last_action_id
            ≡ (entry_at id p.runtime.nodes).last_action_id)
  evaluate-last_action = elim (evaluate-cases py now facts p b (d, b') has h) [
    | inl same ↦
        let plan : p ≡ p' =
          plan-some p p' (sym has ∙ (ap (λ (x : Book). x.current) (sym same) ∙ has')) in
        (rw plan refl, λ id. rw plan refl)
    | inr planned ↦
        let run = evaluate_plan-Evaluated py now facts p b (d, b') planned in
        let plan : run.saved.plan ≡ p' = plan-some _ _ (sym run.saved.current ∙ has') in
        let entries : p'.runtime.nodes ≡ run.after.entries =
          ap (λ (x : Plan). x.runtime.nodes) (sym plan) ∙ run.saved.entries in
        (
          ap (λ (x : Plan). x.revision) (sym plan) ∙ run.saved.revision,
          λ id. rw (entries, ← run.entries) (run.moves.last_action id),
        )
  ]
