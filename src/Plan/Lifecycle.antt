-- ===== src/Plan/Lifecycle.antt =====
-- The life of a plan under any calls of `edit`, `evaluate` and `accept_localized_anomaly`. A call that
-- raises leaves the book as it was.
use imperial_auto_governor.Common.{
  String, ◌≡◌, refl, sym, ap, ◌∙◌, subst, some, List, [], ◌∷◌, arith,
}
use imperial_auto_governor.Plan.Json.{Builtins}
use imperial_auto_governor.Plan.Condition.{Facts}
use imperial_auto_governor.Plan.Node.{
  PlanNode, Status, completed, Result, ok, err, guard-eq-ok, exception_not_current,
  rejected_not_waivable,
}
use imperial_auto_governor.Plan.Graph.{find_node}
use imperial_auto_governor.Plan.Book.{Plan, Book, Anomaly, record_event, save}
use imperial_auto_governor.Plan.Edit.{EditRequest, edit}
use imperial_auto_governor.Plan.Edit.Kept.{edit-Accepted, edit-completed}
use imperial_auto_governor.Plan.Evaluate.Moves.{Forward, stays}
use imperial_auto_governor.Plan.Decide.{
  Decision, evaluate, accept_in_plan, accept_localized_anomaly,
}
use imperial_auto_governor.Plan.Decide.Keeps.{evaluate-current, evaluate-Forward}

-- A call, with the time that `now_iso` returns.
pub data Call : Type 0 where
  editing : EditRequest → String → Call
  evaluating : Facts → String → Call
  accepting : String → List Anomaly → String → Call

abbrev pub book_or : Book → Result Book → Book
book_or b (err e) = b
book_or b (ok b') = b'

abbrev pub answered_book : Book → Result (Decision × Book) → Book
answered_book b (err e) = b
answered_book b (ok (d, b')) = b'

unfoldable pub after_call : Builtins → Call → Book → Book
unfolding edit evaluate accept_localized_anomaly
after_call py (editing q now) b = book_or b (edit now q b)
after_call py (evaluating facts now) b = answered_book b (evaluate py now facts b)
after_call py (accepting plan_id anomalies now) b =
    book_or b (accept_localized_anomaly now plan_id anomalies b)

unfoldable pub after_calls : Builtins → List Call → Book → Book
unfolding after_call
after_calls py [] b = b
after_calls py (k ∷ ks) b = after_calls py ks (after_call py k b)

-- A node that stands in the plan of a book.
pub record HasNode (id : String) (n : PlanNode) (b : Book) : Type 0 where
  pub plan : Plan
  pub current : b.current ≡ some plan
  pub found : find_node id plan.nodes ≡ some n

ended_stays : (s : Status) → Forward completed s → s ≡ completed
ended_stays s stays = refl

book-ok : (a b : Book) → ◌≡◌ {A = Result Book} (ok a) (ok b) → a ≡ b
book-ok a b h = cc

edit-HasNode :
    (now : String) (q : EditRequest) (id : String) (n : PlanNode) (b : Book) (r : Result Book)
    → edit now q b ≡ r
    → n.status ≡ completed
    → HasNode id n b
    → HasNode id n (book_or b r)
edit-HasNode now q id n b (err e) h done it = it
edit-HasNode now q id n b (ok b') h done it =
    let accepted = edit-Accepted now q it.plan b b' it.current h in
    record {
      plan = _;
      current = accepted.current;
      found = edit-completed now q it.plan _ b b' id n it.current h accepted.current it.found done;
    }

evaluate-HasNode :
    (py : Builtins) (now : String) (facts : Facts) (id : String) (n : PlanNode) (b : Book)
    (r : Result (Decision × Book))
    → evaluate py now facts b ≡ r
    → n.status ≡ completed
    → HasNode id n b
    → HasNode id n (answered_book b r)
evaluate-HasNode py now facts id n b (err e) h done it = it
evaluate-HasNode py now facts id n b (ok (d, b')) h done it =
    let (p', has') = evaluate-current py now facts it.plan b (d, b') it.current h in
    let (s, there, move) =
      evaluate-Forward py now facts it.plan p' b b' d it.current h has' id n it.found in
    let same : s ≡ n.status = ended_stays s (subst (λ t. Forward t s) done move) ∙ sym done in
    record {
      plan = p';
      current = has';
      found = there ∙ ap (λ (t : Status). some (record n { status = t })) same;
    }

accept_in_plan-HasNode :
    (now plan_id : String) (anomalies : List Anomaly) (id : String) (n : PlanNode) (p : Plan)
    (b b' : Book)
    → accept_in_plan now plan_id anomalies p b ≡ ok b'
    → find_node id p.nodes ≡ some n
    → HasNode id n b'
unfolding accept_in_plan record_event save
accept_in_plan-HasNode now plan_id anomalies id n p b b' h found =
    let (_, h₁) = guard-eq-ok _ exception_not_current _ h in
    let (_, h₂) = guard-eq-ok _ rejected_not_waivable _ h₁ in
    let same = book-ok _ b' h₂ in
    subst (HasNode id n) same (record { plan = _; current = refl; found = found })

accept-HasNode :
    (now plan_id : String) (anomalies : List Anomaly) (id : String) (n : PlanNode) (b : Book)
    (r : Result Book)
    → accept_localized_anomaly now plan_id anomalies b ≡ r
    → HasNode id n b
    → HasNode id n (book_or b r)
unfolding accept_localized_anomaly
accept-HasNode now plan_id anomalies id n b (err e) h it = it
accept-HasNode now plan_id anomalies id n b (ok b') h it =
    let has = it.current in
    let in_plan : accept_in_plan now plan_id anomalies it.plan b ≡ ok b' = ground arith in
    accept_in_plan-HasNode now plan_id anomalies id n it.plan b b' in_plan it.found

after_call-HasNode :
    (py : Builtins) (k : Call) (id : String) (n : PlanNode) (b : Book)
    → n.status ≡ completed
    → HasNode id n b
    → HasNode id n (after_call py k b)
unfolding after_call
after_call-HasNode py (editing q now) id n b done it =
    edit-HasNode now q id n b (edit now q b) refl done it
after_call-HasNode py (evaluating facts now) id n b done it =
    evaluate-HasNode py now facts id n b (evaluate py now facts b) refl done it
after_call-HasNode py (accepting plan_id anomalies now) id n b done it =
    accept-HasNode now plan_id anomalies id n b _ refl it

-- A completed node of the plan is the node it was after any sequence of calls of `edit`, `evaluate` and
-- `accept_localized_anomaly`, whether the calls raise or not.
pub after_calls-HasNode :
    (py : Builtins) (ks : List Call) (id : String) (n : PlanNode) (b : Book)
    → n.status ≡ completed
    → HasNode id n b
    → HasNode id n (after_calls py ks b)
unfolding after_calls
after_calls-HasNode py [] id n b done it = it
after_calls-HasNode py (k ∷ ks) id n b done it =
    after_calls-HasNode py ks id n (after_call py k b) done (after_call-HasNode py k id n b done it)
