-- ===== src/Plan/Evaluate/Moves.antt =====
-- What the loop of an evaluation may change of a node and of the last action that ran for it.
use imperial_auto_governor.Common.{
  String, ◌≡◌, refl, sym, ap, ◌∙◌, Bool, false, not, ◌&&◌, Option, none, some, List, [], ◌∷◌,
  str_eq, eq_iff, eq_refl, if◌then◌else◌, arith, Option-cases, Bool-cases, ◌⊎◌, inl, inr,
}
use imperial_auto_governor.Common.Dict.{Dict, insert, lookup-insert}
use imperial_auto_governor.Plan.Json.{Json, Builtins, member}
use imperial_auto_governor.Plan.Condition.{Facts, conditions_pass}
use imperial_auto_governor.Plan.Node.{
  PlanNode, Status, planned, active, completed, blocked, cancelled, Result, ok,
}
use imperial_auto_governor.Plan.Graph.{find_node}
use imperial_auto_governor.Plan.Graph.Find.{find_node_self}
use imperial_auto_governor.Plan.Book.{NodeRuntime, Failure}
use imperial_auto_governor.Plan.Watch.{
  is_ready, Resolution, pending, confirmed, rejected, provisional_resolution,
}
use imperial_auto_governor.Plan.Evaluate.{
  Progress, entry_at, set_status, failures, is_empty, complete, report, inspect_node,
  completes_on_success, review_active, review_node, review_all,
}

-- The moves of a status that an evaluation can make.
pub data Forward : Status → Status → Type 0 where
  stays : {s : Status} → Forward s s
  starts : Forward planned active
  ends : Forward active completed
  runs_through : Forward planned completed

pub Forward-trans : {a b c : Status} → Forward a b → Forward b c → Forward a c
Forward-trans stays g = g
Forward-trans starts stays = starts
Forward-trans starts ends = runs_through
Forward-trans ends stays = ends
Forward-trans runs_through stays = runs_through

-- Every node is there still, but for its status, and the last action of each node is the same.
pub record Moves (before after : Progress) : Type 0 where
  pub forward :
      (id : String) (n : PlanNode)
      → find_node id before.nodes ≡ some n
      → (s : Status) × (find_node id after.nodes ≡ some (record n { status = s }))
        × Forward n.status s
  pub last_action :
      (id : String)
      → (entry_at id after.entries).last_action_id ≡ (entry_at id before.entries).last_action_id

Moves-refl : (pr : Progress) → Moves pr pr
Moves-refl pr = record {
  forward = λ id n found. (n.status, found, stays);
  last_action = λ id. refl;
}

Moves-trans : (a b c : Progress) → Moves a b → Moves b c → Moves a c
Moves-trans a b c f g = record {
  forward = λ id n found.
      let (s, there, move) = f.forward id n found in
      let (t, there', move') = g.forward id (record n { status = s }) there in
      (t, there', Forward-trans move move');
  last_action = λ id. g.last_action id ∙ f.last_action id;
}

pub find_node-set_status :
    (id i : String) (s : Status) (ns : List PlanNode)
    → find_node id (set_status i s ns) ≡ elim (find_node id ns) [
      | none ↦ none
      | some n ↦ some (if str_eq i id then record n { status = s } else n)
    ]
unfolding find_node set_status
find_node-set_status id i s [] = refl
find_node-set_status id i s (n ∷ ns) =
    ground
      (arith, find_node-set_status id i s ns, eq_iff n.node_id i, eq_iff n.node_id id, eq_iff i id)

found-some : (m n : PlanNode) → ◌≡◌ {A = Option PlanNode} (some m) (some n) → m ≡ n
found-some m n h = cc

set_status-Forward :
    (i : String) (s : Status) (ns : List PlanNode) (m : PlanNode)
    → find_node i ns ≡ some m
    → Forward m.status s
    → (id : String) (n : PlanNode) → find_node id ns ≡ some n
    → (t : Status) × (find_node id (set_status i s ns) ≡ some (record n { status = t }))
      × Forward n.status t
set_status-Forward i s ns m here move id n found = elim (Bool-cases (str_eq i id)) [
  | inl same ↦
      let one : m ≡ n =
        found-some m n (sym here ∙ (ap (λ k. find_node k ns) ((eq_iff i id).0 same) ∙ found)) in
      (s, rw (find_node-set_status id i s ns, found, same) refl, rw (← one) move)
  | inr other ↦ (n.status, rw (find_node-set_status id i s ns, found, other) refl, stays)
]

last_action-insert :
    (i : String) (e : NodeRuntime) (entries : Dict NodeRuntime)
    → e.last_action_id ≡ (entry_at i entries).last_action_id
    → (id : String)
    → (entry_at id (insert i e entries)).last_action_id ≡ (entry_at id entries).last_action_id
last_action-insert i e entries same id = ground (arith, lookup-insert i id e entries, eq_iff i id)

complete-Moves :
    (now i : String) (pr : Progress) (m : PlanNode)
    → find_node i pr.nodes ≡ some m
    → Forward m.status completed
    → Moves pr (complete now i pr)
unfolding complete
complete-Moves now i pr m here move = record {
  forward = set_status-Forward i completed pr.nodes m here move;
  last_action = last_action-insert i _ pr.entries refl;
}

report-Moves : (i : String) (found : List Failure) (pr : Progress) → Moves pr (report i found pr)
report-Moves i found pr = record {
  forward = λ id n there. (n.status, there, stays);
  last_action = λ id. refl;
}

entry-Moves :
    (i : String) (e : NodeRuntime) (pr : Progress)
    → e.last_action_id ≡ (entry_at i pr.entries).last_action_id
    → Moves pr (record pr { entries = insert i e pr.entries })
entry-Moves i e pr same = record {
  forward = λ id n there. (n.status, there, stays);
  last_action = last_action-insert i e pr.entries same;
}

Resolution-cases : (r : Resolution) → (r ≡ pending) ⊎ ((r ≡ confirmed) ⊎ (r ≡ rejected))
Resolution-cases pending = inl refl
Resolution-cases confirmed = inr (inl refl)
Resolution-cases rejected = inr (inr refl)

Status-cases :
    (s : Status)
    → (s ≡ planned) ⊎ ((s ≡ active) ⊎ ((s ≡ completed) ⊎ ((s ≡ blocked) ⊎ (s ≡ cancelled))))
Status-cases planned = inl refl
Status-cases active = inr (inl refl)
Status-cases completed = inr (inr (inl refl))
Status-cases blocked = inr (inr (inr (inl refl)))
Status-cases cancelled = inr (inr (inr (inr refl)))

progress-ok : (a b : Progress) → ◌≡◌ {A = Result Progress} (ok a) (ok b) → a ≡ b
progress-ok a b h = cc

module _ (py : Builtins) (now : String) (facts : Facts) (waivers : Dict Json) where
  inspect_node-Moves :
      (n m : PlanNode) (pr : Progress)
      → find_node n.node_id pr.nodes ≡ some m
      → Forward m.status completed
      → Moves pr (inspect_node py now facts waivers n pr)
  unfolding inspect_node
  inspect_node-Moves n m pr here move = elim (Bool-cases (is_empty (failures py facts waivers n))) [
    | inr e ↦ rw e (report-Moves n.node_id (failures py facts waivers n) pr)
    | inl e ↦
        elim (Bool-cases (
          not (is_empty n.completion_conditions)
          && conditions_pass py n.completion_conditions facts)) [
            | inl c ↦ rw (e, c) (complete-Moves now n.node_id pr m here move)
            | inr c ↦ rw (e, c) (Moves-refl pr)
          ]
  ]

  review_active-Moves :
      (n m : PlanNode) (pr : Progress)
      → find_node n.node_id pr.nodes ≡ some m
      → Forward m.status completed
      → Moves pr (review_active py now facts waivers n pr)
  unfolding review_active
  review_active-Moves n m pr here move =
      let entry = entry_at n.node_id pr.entries in
      let kept = record pr { entries = insert n.node_id entry pr.entries } in
      let to_kept = entry-Moves n.node_id entry pr refl in
      let outcome = provisional_resolution py facts (member "run_id" entry.result) in
      let settled = record entry { provisional = false; confirmation_fact = outcome.1.0 } in
      let settled_pr = record pr { entries = insert n.node_id settled pr.entries } in
      let to_settled = entry-Moves n.node_id settled pr refl in
      let by_conditions = Moves-trans pr kept _ to_kept (inspect_node-Moves n m kept here move) in
      elim (Bool-cases entry.provisional) [
        | inr e ↦ rw e by_conditions
        | inl e ↦ elim (Resolution-cases outcome.0) [
          | inl r ↦ rw (e, r) by_conditions
          | inr (inl r) ↦ elim (Bool-cases (completes_on_success n)) [
            | inl c ↦
                rw (e, r, c)
                  (Moves-trans pr settled_pr _ to_settled
                    (complete-Moves now n.node_id settled_pr m here move))
            | inr c ↦
                rw (e, r, c)
                  (Moves-trans pr settled_pr _ to_settled
                    (inspect_node-Moves n m settled_pr here move))
          ]
          | inr (inr r) ↦ rw (e, r) (Moves-trans pr kept _ to_kept (report-Moves n.node_id _ kept))
        ]
      ]

  review_node-Moves :
      (ready : Dict Bool) (n : PlanNode) (pr : Progress)
      → find_node n.node_id pr.nodes ≡ some n
      → Moves pr (review_node py now facts waivers ready n pr)
  unfolding review_node
  review_node-Moves ready n pr here = elim (Status-cases n.status) [
    | inl s ↦
        elim (Bool-cases
          (is_ready ready n.node_id && conditions_pass py n.activation_conditions facts)) [
            | inl t ↦
                rw (s, t)
                  (Moves-trans pr (record pr { nodes = set_status n.node_id active pr.nodes }) _
                    (record {
                      forward = set_status-Forward n.node_id active pr.nodes n here (rw s starts);
                      last_action = λ id. refl;
                    })
                    (review_active-Moves (record n { status = planned })
                      (record n { status = active }) _
                      (rw
                        (
                          find_node-set_status n.node_id n.node_id active pr.nodes,
                          here,
                          eq_refl n.node_id,
                        )
                        refl)
                      ends))
            | inr t ↦ rw (s, t) (Moves-refl pr)
          ]
    | inr (inl s) ↦ rw s (review_active-Moves n n pr here (rw s ends))
    | inr (inr (inl s)) ↦ rw s (Moves-refl pr)
    | inr (inr (inr (inl s))) ↦ rw s (Moves-refl pr)
    | inr (inr (inr (inr s))) ↦ rw s (Moves-refl pr)
  ]

  pub review_all-Moves :
      (ready : Dict Bool) (is : List String) (pr after : Progress)
      → review_all py now facts waivers ready is pr ≡ ok after
      → Moves pr after
  unfolding review_all
  review_all-Moves ready [] pr after h =
      let same : pr ≡ after = progress-ok pr after h in rw (← same) (Moves-refl pr)
  review_all-Moves ready (i ∷ is) pr after h = elim (Option-cases (find_node i pr.nodes)) [
    | inl e ↦ ground arith
    | inr (n, e) ↦
        Moves-trans pr (review_node py now facts waivers ready n pr) after
          (review_node-Moves ready n pr (find_node_self i pr.nodes n e))
          (review_all-Moves ready is (review_node py now facts waivers ready n pr) after
            (ground arith))
  ]
