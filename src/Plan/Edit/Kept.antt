-- ===== src/Plan/Edit/Kept.antt =====
-- What an edit leaves alone: completed nodes, and nodes that it does not touch.
use imperial_auto_governor.Common.{
  ◌+◌, String, ◌≡◌, refl, ap, ◌∙◌, Bool, true, false, not, ◌&&◌, ◌||◌, Option, none, some, List, [],
  ◌∷◌, str_eq, eq_iff, ◌==◌, if◌then◌else◌, arith, any, map, contains, Option-cases, inl, inr,
}
use imperial_auto_governor.Common.Text.{strip}
use imperial_auto_governor.Plan.Node.{
  PlanNode, completed, Result, ok, validate_node, >>=-eq-ok, guard-eq-ok, >>-eq-ok, stale_revision,
  plan_mismatch, preserved_and_changed, unknown_nodes, dependent_preserved, completed_removed,
  completed_immutable, resume_unknown, missing_edit_reason,
}
use imperial_auto_governor.Plan.Graph.{ids, find_node, validate_graph}
use imperial_auto_governor.Plan.Graph.Find.{find_node-id}
use imperial_auto_governor.Plan.Book.{Plan, Book, validate_nodes, save, record_event}
use imperial_auto_governor.Plan.Edit.{
  EditRequest, is_completed, block, without, put_node, upsert_all, invalidated, edited_nodes,
  edited_plan, edited_book, edit_plan, edit,
}

find_node-map-block :
    (inv : List String) (id : String) (ns : List PlanNode)
    → find_node id (map (block inv) ns)
      ≡ elim (find_node id ns) [ none ↦ none | some n ↦ some (block inv n) ]
unfolding find_node block
find_node-map-block inv id [] = refl
find_node-map-block inv id (n ∷ ns) = ground (arith, find_node-map-block inv id ns)

find_node-without :
    (removed : List String) (id : String) (ns : List PlanNode)
    → contains id removed ≡ false
    → find_node id (without removed ns) ≡ find_node id ns
unfolding find_node without
find_node-without removed id [] h = refl
find_node-without removed id (n ∷ ns) h =
    ground (arith, find_node-without removed id ns, eq_iff n.node_id id)

find_node-put_node :
    (id : String) (n : PlanNode) (ns : List PlanNode)
    → find_node id (put_node n ns) ≡ (if str_eq n.node_id id then some n else find_node id ns)
unfolding find_node put_node
find_node-put_node id n [] = refl
find_node-put_node id n (m ∷ ms) = ground (
  arith,
  find_node-put_node id n ms,
  eq_iff m.node_id n.node_id,
  eq_iff m.node_id id,
  eq_iff n.node_id id,
)

upsert_all-completed :
    (id : String) (m : PlanNode) (us ns result : List PlanNode)
    → is_completed m ≡ true
    → find_node id ns ≡ some m
    → upsert_all us ns ≡ ok result
    → find_node id result ≡ some m
unfolding upsert_all
upsert_all-completed id m [] ns result c f h = cc
upsert_all-completed id m (u ∷ us) ns result c f h =
    let (_, guarded) = >>-eq-ok (validate_node u) _ h in
    let (open_node, rest) = guard-eq-ok _ completed_immutable _ guarded in
    upsert_all-completed id m us (put_node u ns) result c
      (rw (find_node-put_node id u ns) (ground (arith, eq_iff u.node_id id))) rest

upsert_all-unnamed :
    (id : String) (us ns result : List PlanNode)
    → contains id (ids us) ≡ false
    → upsert_all us ns ≡ ok result
    → find_node id result ≡ find_node id ns
unfolding upsert_all
upsert_all-unnamed id [] ns result u h = cc
upsert_all-unnamed id (u ∷ us) ns result unnamed h =
    let (_, guarded) = >>-eq-ok (validate_node u) _ h in
    let (_, rest) = guard-eq-ok _ completed_immutable _ guarded in
    upsert_all-unnamed id us (put_node u ns) result (ground arith) rest
    ∙ (find_node-put_node id u ns ∙ ground (arith, eq_iff u.node_id id, eq_iff id u.node_id))

-- What an accepted edit has passed: its guards, and the checks of the nodes that it leaves.
record Passed (q : EditRequest) (nodes result : List PlanNode) : Type 0 where
  kept_completed :
      any (λ (n : PlanNode). contains n.node_id q.remove_node_ids && is_completed n) nodes ≡ false
  upserted :
      upsert_all q.upsert_nodes
        (without q.remove_node_ids (map (block (invalidated q nodes)) nodes))
      ≡ ok result
  graph : validate_graph result ≡ ok tt

passed :
    (q : EditRequest) (nodes result : List PlanNode)
    → edited_nodes q nodes ≡ ok result
    → Passed q nodes result
unfolding edited_nodes
passed q nodes result h =
    let (_, h₁) = guard-eq-ok _ preserved_and_changed _ h in
    let (_, h₂) = guard-eq-ok _ unknown_nodes _ h₁ in
    let (_, h₃) = guard-eq-ok _ dependent_preserved _ h₂ in
    let (kept, h₄) = guard-eq-ok _ completed_removed _ h₃ in
    let (r, up, h₅) =
      >>=-eq-ok
        (upsert_all q.upsert_nodes
          (without q.remove_node_ids (map (block (invalidated q nodes)) nodes)))
        _ h₄ in
    let (_, h₆) = >>-eq-ok (validate_nodes r) _ h₅ in
    let (valid, h₇) = >>-eq-ok (validate_graph r) _ h₆ in
    let (_, last) = guard-eq-ok _ resume_unknown _ h₇ in finish r kept up valid last
  where
    finish :
        (r : List PlanNode)
        → any (λ (n : PlanNode). contains n.node_id q.remove_node_ids && is_completed n) nodes
          ≡ false
        → upsert_all q.upsert_nodes
            (without q.remove_node_ids (map (block (invalidated q nodes)) nodes))
          ≡ ok r
        → validate_graph r ≡ ok tt
        → ◌≡◌ {A = Result (List PlanNode)} (ok r) (ok result)
        → Passed q nodes result
    finish r kept up valid last =
        let e : r ≡ result = cc in
        record { kept_completed = kept; upserted = rw (← e) up; graph = rw (← e) valid }

any-false :
    (f : PlanNode → Bool) (id : String) (ns : List PlanNode) (n : PlanNode)
    → any f ns ≡ false
    → find_node id ns ≡ some n
    → f n ≡ false
unfolding find_node
any-false f id [] n h k = cc
any-false f id (m ∷ ms) n h k = ground (arith, any-false f id ms n, ap f)

block-unnamed :
    (inv : List String) (id : String) (ns : List PlanNode)
    → contains id inv ≡ false
    → elim (find_node id ns) [ none ↦ none | some n ↦ some (block inv n) ] ≡ find_node id ns
unfolding block
block-unnamed inv id ns h = elim (Option-cases (find_node id ns)) [
  | inl e ↦ rw e
  | inr (n, e) ↦ rw e (ground (arith, find_node-id id ns n e))
]

module _ (q : EditRequest) (nodes result : List PlanNode)
    (h : edited_nodes q nodes ≡ ok result) where
  edited_nodes-completed :
      (id : String) (n : PlanNode)
      → find_node id nodes ≡ some n
      → is_completed n ≡ true
      → find_node id result ≡ some n
  unfolding block
  edited_nodes-completed id n found c =
      let ok_edit = passed q nodes result h in
      let inv = invalidated q nodes in
      let kept = any-false _ id nodes n ok_edit.kept_completed found in
      let named : n.node_id ≡ id = find_node-id id nodes n found in
      let stays : contains id q.remove_node_ids ≡ false = rw (← named) (ground arith) in
      upsert_all-completed id n q.upsert_nodes _ result c
        (rw
          (
            find_node-without q.remove_node_ids id (map (block inv) nodes) stays,
            find_node-map-block inv id nodes,
            found,
          )
          (ground arith))
        ok_edit.upserted

  edited_nodes-unnamed :
      (id : String)
      → contains id (invalidated q nodes) ≡ false
      → contains id q.remove_node_ids ≡ false
      → contains id (ids q.upsert_nodes) ≡ false
      → find_node id result ≡ find_node id nodes
  unfolding block
  edited_nodes-unnamed id not_invalid stays unnamed =
      let ok_edit = passed q nodes result h in
      let inv = invalidated q nodes in
      upsert_all-unnamed id q.upsert_nodes _ result unnamed ok_edit.upserted
      ∙ (find_node-without q.remove_node_ids id (map (block inv) nodes) stays
          ∙ (find_node-map-block inv id nodes ∙ block-unnamed inv id nodes not_invalid))

-- The nodes of the edit behind an accepted call, and the book that it leaves.
pub record Accepted (now : String) (q : EditRequest) (p : Plan) (b' : Book) : Type 0 where
  pub result : List PlanNode
  pub nodes : edited_nodes q p.nodes ≡ ok result
  pub current : b'.current ≡ some (record (edited_plan q p result) { updated_at = now })
  pub same_plan : q.plan_id ≡ p.plan_id
  pub same_revision : q.expected_revision ≡ p.revision

edit_plan-Accepted :
    (now : String) (q : EditRequest) (p : Plan) (b b' : Book)
    → edit_plan now q p b ≡ ok b'
    → Accepted now q p b'
unfolding edit_plan edited_book save record_event
edit_plan-Accepted now q p b b' h =
    let (same_plan, h₁) = guard-eq-ok (not (str_eq q.plan_id p.plan_id)) plan_mismatch _ h in
    let (same_revision, h₂) =
      guard-eq-ok (not (q.expected_revision == p.revision)) stale_revision _ h₁ in
    let (_, h₃) =
      guard-eq-ok (str_eq (strip q.observed_change) "" || str_eq (strip q.reason) "")
        missing_edit_reason _ h₂ in
    let (result, nodes, last) = >>=-eq-ok (edited_nodes q p.nodes) (edited_book now q p b) h₃ in
    record {
      result = result;
      nodes = nodes;
      current = ground arith;
      same_plan = ground (arith, eq_iff q.plan_id p.plan_id);
      same_revision = ground arith;
    }

pub edit-Accepted :
    (now : String) (q : EditRequest) (p : Plan) (b b' : Book)
    → b.current ≡ some p
    → edit now q b ≡ ok b'
    → Accepted now q p b'
unfolding edit
edit-Accepted now q p b b' has h = edit_plan-Accepted now q p b b' (ground arith)

pub plan-some : (a b : Plan) → ◌≡◌ {A = Option Plan} (some a) (some b) → a ≡ b
plan-some a b h = cc

left_plan :
    (now : String) (q : EditRequest) (p p' : Plan) (b' : Book) (a : Accepted now q p b')
    → b'.current ≡ some p'
    → p' ≡ record (edited_plan q p a.result) { updated_at = now }
left_plan now q p p' b' a has = plan-some _ _ (rw (← has) a.current)

-- A completed node is, in the plan that an accepted edit leaves, the node it was.
pub edit-completed :
    (now : String) (q : EditRequest) (p p' : Plan) (b b' : Book) (id : String) (n : PlanNode)
    → b.current ≡ some p
    → edit now q b ≡ ok b'
    → b'.current ≡ some p'
    → find_node id p.nodes ≡ some n
    → n.status ≡ completed
    → find_node id p'.nodes ≡ some n
unfolding edited_plan
edit-completed now q p p' b b' id n has h has' found done =
    let accepted_edit = edit-Accepted now q p b b' has h in
    let new = accepted_edit.result in
    let same : p'.nodes ≡ new =
      ap (λ (x : Plan). x.nodes) (left_plan now q p p' b' accepted_edit has') in
    rw same (edited_nodes-completed q p.nodes new accepted_edit.nodes id n found (rw done refl))

-- A node that an accepted edit neither removes nor puts, and that is not among the dependents of an
-- invalidated node, is in the new plan the node it was.
pub edit-unnamed :
    (now : String) (q : EditRequest) (p p' : Plan) (b b' : Book) (id : String)
    → b.current ≡ some p
    → edit now q b ≡ ok b'
    → b'.current ≡ some p'
    → contains id (invalidated q p.nodes) ≡ false
    → contains id q.remove_node_ids ≡ false
    → contains id (ids q.upsert_nodes) ≡ false
    → find_node id p'.nodes ≡ find_node id p.nodes
unfolding edited_plan
edit-unnamed now q p p' b b' id has h has' valid stays unnamed =
    let accepted_edit = edit-Accepted now q p b b' has h in
    let new = accepted_edit.result in
    let same : p'.nodes ≡ new =
      ap (λ (x : Plan). x.nodes) (left_plan now q p p' b' accepted_edit has') in
    rw same (edited_nodes-unnamed q p.nodes new accepted_edit.nodes id valid stays unnamed)

-- An accepted edit was made for the plan and the revision that it names; the plan that it leaves has
-- the next revision and a graph that validates.
pub edit-next_revision :
    (now : String) (q : EditRequest) (p p' : Plan) (b b' : Book)
    → b.current ≡ some p
    → edit now q b ≡ ok b'
    → b'.current ≡ some p'
    → (q.plan_id ≡ p.plan_id)
      × (q.expected_revision ≡ p.revision)
      × (p'.revision ≡ p.revision + 1)
      × (validate_graph p'.nodes ≡ ok tt)
unfolding edited_plan
edit-next_revision now q p p' b b' has h has' =
    let accepted_edit = edit-Accepted now q p b b' has h in
    let new = accepted_edit.result in
    let same : p'.nodes ≡ new =
      ap (λ (x : Plan). x.nodes) (left_plan now q p p' b' accepted_edit has') in
    let revision : p'.revision ≡ p.revision + 1 =
      ap (λ (x : Plan). x.revision) (left_plan now q p p' b' accepted_edit has') in
    (
      accepted_edit.same_plan,
      accepted_edit.same_revision,
      revision,
      rw same (passed q p.nodes new accepted_edit.nodes).graph,
    )
