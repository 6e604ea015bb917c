-- ===== src/Plan/Decide/Due.antt =====
-- The node that an evaluation reports due: it is open, its dependencies are complete, its activation
-- conditions pass and its cadence lets it run.
use imperial_auto_governor.Common.{
  ℕ, String, ◌≡◌, ◌≢◌, sym, ap, Bool, true, false, not, some, List, [], ◌∷◌, str_eq, eq_iff, arith,
  contains, take, Option-cases, inl, inr, Bool-cases,
}
use imperial_auto_governor.Common.Dict.{Dict}
use imperial_auto_governor.Plan.Json.{Builtins}
use imperial_auto_governor.Plan.Condition.{Facts, conditions_pass}
use imperial_auto_governor.Plan.Node.{PlanNode, PlanAction, once, Result, ok, >>=-eq-ok}
use imperial_auto_governor.Plan.Graph.{find_node}
use imperial_auto_governor.Plan.Book.{Plan, Book, NodeRuntime, save, record_event}
use imperial_auto_governor.Plan.Edit.{is_completed}
use imperial_auto_governor.Plan.Edit.Kept.{plan-some}
use imperial_auto_governor.Plan.Graph.Find.{find_node_self}
use imperial_auto_governor.Plan.Watch.{
  taken, watched, changed_facts, readiness, is_ready, dependencies_complete,
}
use imperial_auto_governor.Plan.Evaluate.{Progress, entry_at, is_empty}
use imperial_auto_governor.Plan.Decide.{
  Decision, proceed, review_decision, anomaly_decision, is_candidate, is_due, due_nodes,
  progressed_plan, is_open, already_ran, may_run, next_revision, progress_decision, reviewed,
  concluded, evaluate_plan, evaluate,
}

head : (m n : PlanNode) (ms ns : List PlanNode) → m ∷ ms ≡ n ∷ ns → m ≡ n
head m n ms ns h = cc

taken-first :
    (test : PlanNode → Bool) (nodes : List PlanNode) (keys : List String) (n : PlanNode)
    (rest : List PlanNode)
    → taken test nodes keys ≡ n ∷ rest
    → (test n ≡ true) × (find_node n.node_id nodes ≡ some n)
unfolding taken
taken-first test nodes [] n rest h = cc
taken-first test nodes (i ∷ is) n rest h = elim (Option-cases (find_node i nodes)) [
  | inl e ↦ taken-first test nodes is n rest (ground arith)
  | inr (m, e) ↦ elim (Bool-cases (test m)) [
    | inl t ↦
        let same : m ≡ n = head m n (taken test nodes is) rest (ground arith) in
        (rw (← same) t, rw (← same) (find_node_self i nodes m e))
    | inr t ↦ taken-first test nodes is n rest (ground arith)
  ]
]

dependencies_complete-all :
    (nodes : List PlanNode) (ds : List String) (d : String)
    → dependencies_complete nodes ds ≡ ok true
    → contains d ds ≡ true
    → (m : PlanNode) × (find_node d nodes ≡ some m) × (is_completed m ≡ true)
unfolding dependencies_complete
dependencies_complete-all nodes [] d h c = cc
dependencies_complete-all nodes (x ∷ xs) d h c = elim (Option-cases (find_node x nodes)) [
  | inl e ↦ ground arith
  | inr (m, e) ↦ elim (Bool-cases (str_eq x d)) [
    | inl same ↦ (m, rw (← (eq_iff x d).0 same) e, ground arith)
    | inr other ↦
        dependencies_complete-all nodes xs d (ground arith) (ground (arith, eq_iff x d, eq_iff d x))
  ]
]

readiness_complete :
    (nodes ns : List PlanNode) (ready : Dict Bool) (id : String)
    → readiness nodes ns ≡ ok ready
    → is_ready ready id ≡ true
    → (m : PlanNode) × (find_node id ns ≡ some m)
      × (dependencies_complete nodes m.depends_on ≡ ok true)
unfolding readiness find_node
readiness_complete nodes [] ready id h r = ground arith
readiness_complete nodes (n ∷ ns) ready id h r =
    let (complete, own, h₁) = >>=-eq-ok (dependencies_complete nodes n.depends_on) _ h in
    let (rest, below, h₂) = >>=-eq-ok (readiness nodes ns) _ h₁ in
    elim (Bool-cases (str_eq n.node_id id)) [
      | inl same ↦ (n, ground arith, ground arith)
      | inr other ↦
          let (m, found, complete_m) = readiness_complete nodes ns rest id below (ground arith) in
          (m, ground arith, complete_m)
    ]

-- An evaluation of a plan that reports no anomaly: the loop's result, and the decision made from it.
record Proceeded (py : Builtins) (now : String) (facts : Facts) (p : Plan) (b : Book)
    (answer : Decision × Book) : Type 0 where
  ready : Dict Bool
  pr : Progress
  complete_nodes : readiness p.nodes p.nodes ≡ ok ready
  loop : reviewed py now facts p ready ≡ ok pr
  decided :
      progress_decision py now facts
        (watched p.nodes)
        (changed_facts p.runtime facts p.nodes)
        ready
        p
        pr
        b
      ≡ answer

evaluate-plan :
    (py : Builtins) (now : String) (facts : Facts) (p : Plan) (b b' : Book) (plan_id : String)
    (revision : ℕ) (due : List PlanNode) (changed done : List String)
    → b.current ≡ some p
    → evaluate py now facts b ≡ ok (proceed plan_id revision due changed done, b')
    → evaluate_plan py now facts p b ≡ ok (proceed plan_id revision due changed done, b')
unfolding evaluate review_decision
evaluate-plan py now facts p b b' plan_id revision due changed done has h = ground arith

result_eq : (a c : Decision × Book) → ◌≡◌ {A = Result (Decision × Book)} (ok a) (ok c) → a ≡ c
result_eq a c h = cc

anomaly_decision-reports :
    (now : String) (facts : Facts) (paths changed : List String) (p : Plan) (pr : Progress)
    (b b' : Book) (plan_id : String) (revision : ℕ) (due : List PlanNode)
    (changed' done : List String)
    → anomaly_decision now facts paths changed p pr b
      ≢ (proceed plan_id revision due changed' done, b')
unfolding anomaly_decision
anomaly_decision-reports now facts paths changed p pr b b' plan_id revision due changed' done h =
    let d = ap (λ (a : Decision × Book). a.0) h in ground arith

concluded-proceed :
    (py : Builtins) (now : String) (facts : Facts) (p : Plan) (b b' : Book) (ready : Dict Bool)
    (pr : Progress) (plan_id : String) (revision : ℕ) (due : List PlanNode)
    (changed done : List String)
    → concluded py now facts p b ready pr ≡ ok (proceed plan_id revision due changed done, b')
    → progress_decision py now facts
        (watched p.nodes)
        (changed_facts p.runtime facts p.nodes)
        ready
        p
        pr
        b
      ≡ (proceed plan_id revision due changed done, b')
unfolding concluded
concluded-proceed py now facts p b b' ready pr plan_id revision due changed done h =
    elim (Bool-cases (is_empty pr.anomalies)) [
      | inl e ↦ result_eq _ _ (ground arith)
      | inr e ↦
          let reports =
            anomaly_decision-reports now facts (watched p.nodes)
              (changed_facts p.runtime facts p.nodes) p pr b b' plan_id revision due changed done
              (result_eq _ _ (ground arith)) in
          ground arith
    ]

proceeded :
    (py : Builtins) (now : String) (facts : Facts) (p : Plan) (b b' : Book) (plan_id : String)
    (revision : ℕ) (due : List PlanNode) (changed done : List String)
    → evaluate_plan py now facts p b ≡ ok (proceed plan_id revision due changed done, b')
    → Proceeded py now facts p b (proceed plan_id revision due changed done, b')
unfolding evaluate_plan
proceeded py now facts p b b' plan_id revision due changed done h =
    let (ready, complete_nodes, h₁) = >>=-eq-ok (readiness p.nodes p.nodes) _ h in
    let (pr, loop, h₂) = >>=-eq-ok (reviewed py now facts p ready) _ h₁ in
    record {
      ready = ready;
      pr = pr;
      complete_nodes = complete_nodes;
      loop = loop;
      decided = concluded-proceed py now facts p b b' ready pr plan_id revision due changed done h₂;
    }

take-first :
    (ns : List PlanNode) (n : PlanNode) (rest : List PlanNode)
    → take 1 ns ≡ n ∷ rest
    → (rest ≡ []) × ((ms : List PlanNode) × (ns ≡ n ∷ ms))
take-first [] n rest h = cc
take-first (m ∷ ms) n rest h = (ground arith, (ms, ground arith))

module _ (py : Builtins) (now : String) (facts : Facts) (paths changes : List String)
    (ready : Dict Bool) (p : Plan) (pr : Progress) (b b' : Book) (plan_id : String) (revision : ℕ)
    (due : List PlanNode) (changed done : List String)
    (h : progress_decision py now facts paths changes ready p pr b
      ≡ (proceed plan_id revision due changed done, b')) where
  progress_decision-due : due ≡ take 1 (due_nodes py facts changes ready p pr)
  unfolding progress_decision
  progress_decision-due = let d = ap (λ (a : Decision × Book). a.0) h in ground arith

  progress_decision-saves :
      b'.current ≡ some (record (progressed_plan now facts paths changes p pr) { updated_at = now })
  unfolding progress_decision save record_event
  progress_decision-saves =
      let d = ap (λ (a : Decision × Book). a.1) h in
      elim (Bool-cases (is_empty pr.completed_ids)) [ inl e ↦ ground arith | inr e ↦ ground arith ]

-- What is known of the node that `evaluate` reports due; `p` is the plan before and `p'` the plan after.
pub record Runnable (py : Builtins) (facts : Facts) (p p' : Plan) (n : PlanNode) : Type 0 where
  pub stored : find_node n.node_id p'.nodes ≡ some n
  pub opened : is_open n.status ≡ true
  pub activated : conditions_pass py n.activation_conditions facts ≡ true
  pub before : PlanNode
  pub found_before : find_node n.node_id p.nodes ≡ some before
  pub dependencies :
      (d : String)
      → contains d before.depends_on ≡ true
      → (m : PlanNode) × (find_node d p.nodes ≡ some m) × (is_completed m ≡ true)
  pub action : PlanAction
  pub has_action : n.action ≡ some action
  pub not_repeated :
      action.cadence ≡ once → already_ran (entry_at n.node_id p'.runtime.nodes) action ≡ false

due_test-holds :
    (py : Builtins) (facts : Facts) (ready : Dict Bool) (entries : Dict NodeRuntime)
    (changed : Bool) (revision : ℕ) (n : PlanNode)
    → is_due py facts ready entries changed revision n ≡ true
    → (is_open n.status ≡ true)
      × (is_ready ready n.node_id ≡ true)
      × (conditions_pass py n.activation_conditions facts ≡ true)
      × ((a : PlanAction) × (n.action ≡ some a)
          × (a.cadence ≡ once → already_ran (entry_at n.node_id entries) a ≡ false))
unfolding is_due is_candidate may_run
due_test-holds py facts ready entries changed revision n h = elim (Option-cases n.action) [
  | inl e ↦ ground arith
  | inr (a, e) ↦ (ground arith, ground arith, ground arith, (a, e, λ is_once. ground arith))
]

-- `evaluate` reports at most one node due. It is the stored node of its identifier and open; the nodes
-- that it depends on were complete before the call; its activation conditions pass on the facts; and
-- it has an action, which, if it runs once, is not the last that ran for the node.
pub evaluate-due :
    (py : Builtins) (now : String) (facts : Facts) (p p' : Plan) (b b' : Book) (plan_id : String)
    (revision : ℕ) (n : PlanNode) (rest : List PlanNode) (changed done : List String)
    → b.current ≡ some p
    → evaluate py now facts b ≡ ok (proceed plan_id revision (n ∷ rest) changed done, b')
    → b'.current ≡ some p'
    → (rest ≡ []) × Runnable py facts p p' n
unfolding due_nodes progressed_plan
evaluate-due py now facts p p' b b' plan_id revision n rest changed done has h has' =
    let run =
      proceeded py now facts p b b' plan_id revision (n ∷ rest) changed done
        (evaluate-plan py now facts p b b' plan_id revision (n ∷ rest) changed done has h) in
    let changes = changed_facts p.runtime facts p.nodes in
    let paths = watched p.nodes in
    let (single, (more, first)) =
      take-first (due_nodes py facts changes run.ready p run.pr) n rest (
        sym (
          progress_decision-due py now facts paths changes run.ready p run.pr b b' plan_id revision
            (n ∷ rest) changed done run.decided)) in
    let saved =
      progress_decision-saves py now facts paths changes run.ready p run.pr b b' plan_id revision
        (n ∷ rest) changed done run.decided in
    let left : p' ≡ record (progressed_plan now facts paths changes p run.pr) { updated_at = now } =
      plan-some _ _ (rw (← has') saved) in
    let (due, found) = taken-first _ run.pr.nodes _ n more first in
    let (opened, ready, passes, (action, has_action, not_repeated)) =
      due_test-holds py facts run.ready run.pr.entries (not (is_empty changes))
        (next_revision p.runtime changes) n due in
    let (before, found_before, complete_before) =
      readiness_complete p.nodes p.nodes run.ready n.node_id run.complete_nodes ready in
    (
      single,
      record {
        stored = rw (ap (λ (x : Plan). x.nodes) left) found;
        opened = opened;
        activated = passes;
        before = before;
        found_before = found_before;
        dependencies =
            λ d c. dependencies_complete-all p.nodes before.depends_on d complete_before c;
        action = action;
        has_action = has_action;
        not_repeated =
            λ is_once. rw (ap (λ (x : Plan). x.runtime.nodes) left) (not_repeated is_once);
      },
    )
