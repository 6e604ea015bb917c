-- ===== src/Plan/Execute/Records.antt =====
-- What a call of `execute_due_action` leaves: nothing changed where it may not run, and otherwise the
-- run written to the plan.
use imperial_auto_governor.Common.{
  ℕ, String, ◌≡◌, ◌≢◌, refl, sym, ap, ◌∙◌, Bool, true, false, ◌&&◌, Option, some, List, [], ◌∷◌,
  eq_refl, arith, Option-cases, Bool-cases, inl, inr,
}
use imperial_auto_governor.Common.Dict.{lookup-insert}
use imperial_auto_governor.Plan.Json.{Json, Builtins}
use imperial_auto_governor.Plan.Condition.{Facts, execution_is_provisional}
use imperial_auto_governor.Plan.Node.{
  PlanNode, PlanAction, Status, active, once, Result, ok, err, validate_action,
}
use imperial_auto_governor.Plan.Graph.{find_node}
use imperial_auto_governor.Plan.Book.{Plan, Book, NodeRuntime, record_event, save}
use imperial_auto_governor.Plan.Edit.Kept.{plan-some}
use imperial_auto_governor.Plan.Evaluate.{entry_at, set_status}
use imperial_auto_governor.Plan.Evaluate.Moves.{find_node-set_status}
use imperial_auto_governor.Plan.Decide.{proceed, already_ran, evaluate}
use imperial_auto_governor.Plan.Decide.Due.{evaluate-due}
use imperial_auto_governor.Plan.Decide.Keeps.{evaluate-last_action}
use imperial_auto_governor.Plan.Execute.{
  Toolbox, Outcome, executed, Ran, then_do, run_tools, nodes_after, entry_after, ran_plan,
  record_run, is_current, perform, execute_node, execute_due_action,
}

then_do-ok {ℓ κ κ'} :
    {W : Type ℓ} {A : Type κ} {B : Type κ'} (m : Result A × (Book × W))
    (k : A → Book × W → Result B × (Book × W)) {x : B} {s' : Book × W}
    → then_do m k ≡ (ok x, s')
    → (a : A) × (s₁ : Book × W) × (m ≡ (ok a, s₁)) × (k a s₁ ≡ (ok x, s'))
then_do-ok (ok a, s) k h = (a, s, refl, h)
then_do-ok (err e, s) k h = let d = ap (λ (r : Result _ × _). r.0) h in cc

module _ {ℓ} {W : Type ℓ} (py : Builtins) (now : String) (tools : Toolbox W) where
  perform-planning :
      (n : PlanNode) (a : PlanAction) (s : Book × W) → (perform py now tools false n a s).1 ≡ s
  unfolding perform
  perform-planning n a s = refl

  validated-planning :
      (n : PlanNode) (a : PlanAction) (checked : Result (Unit {0})) (s : Book × W)
      → (then_do (checked, s) λ _ s₁. perform py now tools false n a s₁).1 ≡ s
  validated-planning n a (ok u) s = perform-planning n a s
  validated-planning n a (err e) s = refl

  execute_node-planning :
      (plan_id : String) (revision : ℕ) (n : PlanNode) (b : Book) (w : W)
      → (execute_node py now tools false plan_id revision n (b, w)).1 ≡ (b, w)
  unfolding execute_node
  execute_node-planning plan_id revision n b w = elim (Bool-cases (is_current plan_id revision b)) [
    | inr e ↦ rw e refl
    | inl e ↦ elim (Option-cases n.action) [
      | inl none_there ↦ rw (e, none_there) refl
      | inr (a, there) ↦ rw (e, there) (validated-planning n a (validate_action a) (b, w))
    ]
  ]

  execute_node-stale :
      (allow : Bool) (plan_id : String) (revision : ℕ) (n : PlanNode) (b : Book) (w : W)
      → is_current plan_id revision b ≡ false
      → (execute_node py now tools allow plan_id revision n (b, w)).1 ≡ (b, w)
  unfolding execute_node
  execute_node-stale allow plan_id revision n b w h = rw h refl

  -- Without leave to execute, or on a plan or a revision other than the evaluated one, the call
  -- dispatches no tool and leaves the book and the world as they are.
  pub execute-guarded :
      (allow : Bool) (plan_id : String) (revision : ℕ) (due : List PlanNode)
      (changed done : List String) (b : Book) (w : W)
      → (allow && is_current plan_id revision b) ≡ false
      → (execute_due_action py now tools allow (proceed plan_id revision due changed done) (b, w)).1
        ≡ (b, w)
  unfolding execute_due_action
  execute-guarded allow plan_id revision [] changed done b w h = refl
  execute-guarded false plan_id revision (n ∷ rest) changed done b w h =
      execute_node-planning plan_id revision n b w
  execute-guarded true plan_id revision (n ∷ rest) changed done b w h =
      execute_node-stale true plan_id revision n b w h

  -- The run behind an outcome `executed`.
  record Run (n : PlanNode) (answer : Result Outcome × (Book × W)) : Type ℓ where
    action : PlanAction
    has_action : n.action ≡ some action
    ran : Ran
    state : Book × W
    recorded : record_run py now n.node_id action ran state ≡ answer

  perform-Run :
      (allow : Bool) (n : PlanNode) (a : PlanAction) (s s' : Book × W)
      (id action_id summary summary' : String) (provisional : Bool) (result : Json)
      → n.action ≡ some a
      → perform py now tools allow n a s
        ≡ (ok (executed id action_id summary summary' provisional result), s')
      → Run n (ok (executed id action_id summary summary' provisional result), s')
  unfolding perform
  perform-Run false n a s s' id action_id summary summary' provisional result there h =
      let d = ap (λ (x : Result Outcome × (Book × W)). x.0) h in ground arith
  perform-Run true n a s s' id action_id summary summary' provisional result there h =
      let (ran, s₁, ran_ok, recorded) =
        then_do-ok (run_tools py tools a s) (λ ran s₁. record_run py now n.node_id a ran s₁) h in
      record { action = a; has_action = there; ran = ran; state = s₁; recorded = recorded }

  execute_node-Run :
      (allow : Bool) (plan_id : String) (revision : ℕ) (n : PlanNode) (b : Book) (w : W)
      (id action_id summary summary' : String) (provisional : Bool) (result : Json) (s' : Book × W)
      → execute_node py now tools allow plan_id revision n (b, w)
        ≡ (ok (executed id action_id summary summary' provisional result), s')
      → Run n (ok (executed id action_id summary summary' provisional result), s')
  unfolding execute_node
  execute_node-Run allow plan_id revision n b w id action_id summary summary' provisional result s'
        h =
      let d = ap (λ (x : Result Outcome × (Book × W)). x.0) h in
      elim (Bool-cases (is_current plan_id revision b)) [
        | inr e ↦ ground arith
        | inl e ↦ elim (Option-cases n.action) [
          | inl none_there ↦ ground arith
          | inr (a, there) ↦
              let (u, s₁, checked, done) =
                then_do-ok (validate_action a, (b, w)) (λ _ s. perform py now tools allow n a s)
                  (ground arith) in
              perform-Run allow n a s₁ s' id action_id summary summary' provisional result there
                done
        ]
      ]

outcome-eq :
    (id id' a a' s s' t t' : String) (v v' : Bool) (r r' : Json)
    → ◌≡◌ {A = Result Outcome} (ok (executed id a s t v r)) (ok (executed id' a' s' t' v' r'))
    → (id ≡ id') × (a ≡ a') × (v ≡ v') × (r ≡ r')
outcome-eq id id' a a' s s' t t' v v' r r' h = (cc, cc, cc, cc)

-- What a recorded run of a node leaves in the plan.
pub record Recorded (p' : Plan) (id action_id : String) (provisional : Bool) (result : Json)
    : Type 0 where
  pub last_action : (entry_at id p'.runtime.nodes).last_action_id ≡ some action_id
  pub kept_result : (entry_at id p'.runtime.nodes).result ≡ result
  pub kept_provisional : (entry_at id p'.runtime.nodes).provisional ≡ provisional
  pub stays_active :
      (n : PlanNode) → provisional ≡ true → find_node id p'.nodes ≡ some n → n.status ≡ active

set_status-status :
    (id : String) (s : Status) (ns : List PlanNode) (n : PlanNode)
    → find_node id (set_status id s ns) ≡ some n
    → n.status ≡ s
set_status-status id s ns n h = ground (arith, find_node-set_status id id s ns, eq_refl id)

ran_plan-Recorded :
    (now : String) (provisional : Bool) (a : PlanAction) (id : String) (result : Json) (p : Plan)
    → Recorded
        (record (ran_plan now provisional a id result p) { updated_at = now })
        id
        a.action_id
        provisional
        result
unfolding ran_plan entry_after nodes_after
ran_plan-Recorded now provisional a id result p = record {
  last_action = ground (
    arith,
    lookup-insert id id (entry_after now provisional a id result p) p.runtime.nodes,
    eq_refl id,
  );
  kept_result = ground (
    arith,
    lookup-insert id id (entry_after now provisional a id result p) p.runtime.nodes,
    eq_refl id,
  );
  kept_provisional = ground (
    arith,
    lookup-insert id id (entry_after now provisional a id result p) p.runtime.nodes,
    eq_refl id,
  );
  stays_active = λ n is_provisional found. set_status-status id active p.nodes n (ground arith);
}

already_ran-last :
    (e : NodeRuntime) (a : PlanAction) (action_id : String)
    → e.last_action_id ≡ some action_id
    → a.action_id ≡ action_id
    → already_ran e a ≡ true
already_ran-last e a action_id last same = ground (arith, eq_refl action_id)

true≢false : true ≢ false
true≢false h = cc

action-some : (a c : PlanAction) → ◌≡◌ {A = Option PlanAction} (some a) (some c) → a ≡ c
action-some a c h = cc

module _ {ℓ} {W : Type ℓ} (py : Builtins) (now : String) where
  record_run-Recorded :
      (i : String) (a : PlanAction) (ran : Ran) (s : Book × W) (b' : Book) (w' : W) (p' : Plan)
      (id action_id summary summary' : String) (provisional : Bool) (result : Json)
      → record_run py now i a ran s
        ≡ (ok (executed id action_id summary summary' provisional result), (b', w'))
      → b'.current ≡ some p'
      → (id ≡ i)
        × (action_id ≡ a.action_id)
        × (provisional ≡ execution_is_provisional py result)
        × Recorded p' id action_id provisional result
  unfolding record_run save record_event
  record_run-Recorded i a ran (b, w) b' w' p' id action_id summary summary' provisional result h
        has =
      let d = ap (λ (x : Result Outcome × (Book × W)). x.0) h in
      let e = ap (λ (x : Result Outcome × (Book × W)). x.1.0.current) h in
      elim (Option-cases b.current) [
        | inl none_there ↦ ground arith
        | inr (p, there) ↦
            let v = execution_is_provisional py ran.result in
            let (same_id, same_action, same_v, same_r) =
              outcome-eq i id a.action_id action_id ran.prepare_summary summary ran.execute_summary
                summary' v provisional ran.result result (ground arith) in
            let plan : p' ≡ record (ran_plan now v a i ran.result p) { updated_at = now } =
              plan-some _ _ (ground arith) in
            let written = ran_plan-Recorded now v a i ran.result p in
            (
              sym same_id,
              sym same_action,
              sym same_v ∙ ap (λ x. execution_is_provisional py x) same_r,
              rw (← same_id, ← same_action, ← same_v, ← same_r, plan) written,
            )
      ]

module _ {ℓ} {W : Type ℓ} (py : Builtins) (now : String) (tools : Toolbox W) (allow : Bool) where
  -- An outcome `executed` is that of the due node and of its action. In the plan that is left, the
  -- action is the last of the node, with its result; the result is provisional just when the outcome
  -- says so, and then the node is active.
  pub execute-Recorded :
      (plan_id : String) (revision : ℕ) (n : PlanNode) (rest : List PlanNode)
      (changed done : List String) (b b' : Book) (w w' : W) (p' : Plan)
      (id action_id summary summary' : String) (provisional : Bool) (result : Json)
      → execute_due_action py now tools allow
          (proceed plan_id revision (n ∷ rest) changed done)
          (b, w)
        ≡ (ok (executed id action_id summary summary' provisional result), (b', w'))
      → b'.current ≡ some p'
      → (id ≡ n.node_id)
        × (provisional ≡ execution_is_provisional py result)
        × ((a : PlanAction) × (n.action ≡ some a) × (action_id ≡ a.action_id))
        × Recorded p' id action_id provisional result
  unfolding execute_due_action
  execute-Recorded plan_id revision n rest changed done b b' w w' p' id action_id summary summary'
        provisional result h has =
      let run =
        execute_node-Run py now tools allow plan_id revision n b w id action_id summary summary'
          provisional result (b', w') h in
      let (same_id, same_action, same_v, written) =
        record_run-Recorded py now n.node_id run.action run.ran run.state b' w' p' id action_id
          summary summary' provisional result run.recorded has in
      (same_id, same_v, (run.action, run.has_action, same_action), written)

  -- A node whose once-only action was executed is not due with that action in the next evaluation,
  -- whatever the facts are then.
  pub execute-evaluate_once :
      (plan_id plan_id' : String) (revision revision' : ℕ) (n m : PlanNode)
      (rest rest' : List PlanNode) (changed changed' done done' : List String) (b b' b'' : Book)
      (w w' : W) (p' p'' : Plan) (a : PlanAction) (id action_id summary summary' : String)
      (provisional : Bool) (result : Json) (now' : String) (facts : Facts)
      → execute_due_action py now tools allow
          (proceed plan_id revision (n ∷ rest) changed done)
          (b, w)
        ≡ (ok (executed id action_id summary summary' provisional result), (b', w'))
      → b'.current ≡ some p'
      → evaluate py now' facts b' ≡ ok (proceed plan_id' revision' (m ∷ rest') changed' done', b'')
      → b''.current ≡ some p''
      → m.action ≡ some a
      → a.cadence ≡ once
      → a.action_id ≡ action_id
      → m.node_id ≢ n.node_id
  execute-evaluate_once plan_id plan_id' revision revision' n m rest rest' changed changed' done
        done' b b' b'' w w' p' p'' a id action_id summary summary' provisional result now' facts h
        has h' has' there is_once same same_node =
      let (same_id, _, _, written) =
        execute-Recorded plan_id revision n rest changed done b b' w w' p' id action_id summary
          summary' provisional result h has in
      let (_, run) =
        evaluate-due py now' facts p' p'' b' b'' plan_id' revision' m rest' changed' done' has h'
          has' in
      let (_, kept) = evaluate-last_action py now' facts p' p'' b' b'' _ has h' has' in
      let last : (entry_at m.node_id p''.runtime.nodes).last_action_id ≡ some action_id =
        kept m.node_id ∙ rw (same_node, ← same_id) written.last_action in
      let one : run.action ≡ a = action-some run.action a (sym run.has_action ∙ there) in
      let not_run = run.not_repeated (rw one is_once) in
      let again =
        already_ran-last (entry_at m.node_id p''.runtime.nodes) run.action action_id last
          (rw one same) in
      true≢false (sym again ∙ not_run)
