-- ===== src/Plan/Graph/Acyclic.antt =====
-- `validate_graph` accepts exactly the plans whose nodes can be put in an order in which each node
-- stands behind all that it refers to.
use imperial_auto_governor.Common.{
  ℕ, zero, suc, ◌≤◌, ◌<◌, String, ◌≡◌, refl, ap, ◌∙◌, true, false, not, List, [], ◌∷◌, none, some,
  str_eq, eq_iff, eq_refl, if◌then◌else◌, arith, all, contains, length, All, Bool-cases,
  Option-cases, inl, inr,
}
use imperial_auto_governor.Plan.Node.{
  PlanNode, references, Result, ok, ◌>>=◌, has_repeat, >>=-eq-ok, guard-eq-ok, unknown_reference,
  duplicate_node,
}
use imperial_auto_governor.Plan.Graph.{
  ids, find_node, visit_each, visit, search_order, references_known, validate_graph,
}
use imperial_auto_governor.Plan.Graph.Closure.{IsWithin}

-- `find_node` has the references that the search follows.
abbrev pub references_of : List PlanNode → String → List String
references_of nodes id = elim (find_node id nodes) [ none ↦ [] | some n ↦ references n ]

-- The head of the list was finished last: all that it refers to stands behind it.
abbrev pub IsOrdered : List PlanNode → List String → Type 0
IsOrdered nodes [] = Unit
IsOrdered nodes (id ∷ rest) = IsWithin (references_of nodes id) rest × IsOrdered nodes rest

-- What a search that returns `after` from `before` has done, for a list of starting points.
abbrev Finishes : List PlanNode → List String → List String → List String → Type 0
Finishes nodes starts before after =
    IsOrdered nodes after × IsWithin before after × IsWithin starts after

module _ (nodes : List PlanNode) where
  visit_each-Finishes :
      (step : String → List String → Result (List String))
      → ((id : String) (v after : List String)
          → IsOrdered nodes v
          → step id v ≡ ok after
          → Finishes nodes (id ∷ []) v after)
      → (rs v after : List String) → IsOrdered nodes v
      → visit_each step rs v ≡ ok after
      → Finishes nodes rs v after
  unfolding visit_each
  visit_each-Finishes step each [] v after o h =
      let e : v ≡ after = cc in (rw (← e) o, λ x k. rw (← e) k, λ x k. cc)
  visit_each-Finishes step each (r ∷ rs) v after o h =
      let (v', here, later) = >>=-eq-ok (step r v) (λ v. visit_each step rs v) h in
      let (o', grew, found) = each r v v' o here in
      let (o'', grew', found') = visit_each-Finishes step each rs v' after o' later in
      (o'', λ x k. grew' x (grew x k), λ x k. ground (arith, found x, grew' x, found' x))

  finish :
      (id : String) (n : PlanNode) (v v' after : List String)
      → find_node id nodes ≡ some n
      → ◌≡◌ {A = Result (List String)} (ok (id ∷ v')) (ok after)
      → Finishes nodes (references n) v v'
      → Finishes nodes (id ∷ []) v after
  finish id n v v' after found last (o', grew, refs) =
      let e : id ∷ v' ≡ after = cc in
      rw (← e)
        ((rw (found, references_of) refs, o'), λ x k. ground (arith, grew x), λ x k. ground arith)

  visit-Finishes :
      (fuel : ℕ) (visiting : List String) (id : String) (v after : List String)
      → IsOrdered nodes v
      → visit fuel nodes visiting id v ≡ ok after
      → Finishes nodes (id ∷ []) v after
  unfolding visit
  visit-Finishes zero visiting id v after o h = cc
  visit-Finishes (suc fuel) visiting id v after o h = elim (Bool-cases (contains id visiting)) [
    | inl on_path ↦ cc (rw on_path at h)
    | inr off_path ↦ elim (Bool-cases (contains id v)) [
      | inl seen ↦
          let e : v ≡ after = cc (rw (off_path, seen) at h) in
          (rw (← e) o, λ x k. rw (← e) k, λ x k. rw (← e) (ground (arith, eq_iff x id)))
      | inr fresh ↦ elim (Option-cases (find_node id nodes)) [
        | inl missing ↦ cc (rw (off_path, fresh, missing) at h)
        | inr (n, found) ↦
            let deeper = visit fuel nodes (id ∷ visiting) in
            let (v', below, last) =
              >>=-eq-ok (visit_each deeper (references n) v) (λ v. ok (id ∷ v))
                (rw (off_path, fresh, found) at h) in
            finish id n v v' after found last (
              visit_each-Finishes deeper (λ i w a. visit-Finishes fuel (id ∷ visiting) i w a)
                (references n) v v' o below)
      ]
    ]
  ]

  visit_each_total :
      (step : String → List String → Result (List String)) (rs v : List String)
      → ((r : String) (v : List String)
          → contains r rs ≡ true
          → (after : List String) × (step r v ≡ ok after))
      → (after : List String) × (visit_each step rs v ≡ ok after)
  unfolding visit_each
  visit_each_total step [] v h = (v, refl)
  visit_each_total step (r ∷ rs) v h =
      let (v', here) = h r v (ground (arith, eq_refl r)) in
      let (after, later) = visit_each_total step rs v' (λ x w k. h x w (ground arith)) in
      (after, rw here later)

-- A rank that falls along every reference.
abbrev pub Falls : List PlanNode → (String → ℕ) → Type 0
Falls nodes rank = (id r : String) → contains r (references_of nodes id) ≡ true → rank r < rank id

visit-fresh :
    (nodes : List PlanNode) (fuel : ℕ) (visiting v : List String) (id : String) (n : PlanNode)
    → contains id visiting ≡ false
    → contains id v ≡ false
    → find_node id nodes ≡ some n
    → visit (suc fuel) nodes visiting id v
      ≡ (visit_each (visit fuel nodes (id ∷ visiting)) (references n) v >>= λ w. ok (id ∷ w))
unfolding visit
visit-fresh nodes fuel visiting v id n off_path fresh found = rw (off_path, fresh, found)

visit-seen :
    (nodes : List PlanNode) (fuel : ℕ) (visiting v : List String) (id : String)
    → contains id visiting ≡ false
    → contains id v ≡ true
    → visit (suc fuel) nodes visiting id v ≡ ok v
unfolding visit
visit-seen nodes fuel visiting v id off_path seen = rw (off_path, seen)

module _ (rank : String → ℕ) where
  off_path_of :
      (id : String) (path : List String)
      → All (λ p. rank id < rank p) path
      → contains id path ≡ false
  off_path_of id [] h = refl
  off_path_of id (p ∷ ps) h = ground (arith, off_path_of id ps, eq_iff id p, ap rank)

  path-weaken :
      (r id : String) (path : List String)
      → rank r < rank id
      → All (λ p. rank id < rank p) path
      → All (λ p. rank r < rank p) path
  path-weaken r id [] low h = tt
  path-weaken r id (p ∷ ps) low h = (omega arith, path-weaken r id ps low h.1)

module _ (nodes : List PlanNode) (rank : String → ℕ) (falls : Falls nodes rank) where
  -- On the path of the search every node has a greater rank, so none is met twice.
  visit_total :
      (fuel : ℕ) (visiting : List String) (id : String) (v : List String)
      → rank id < fuel
      → All (λ p. rank id < rank p) visiting
      → ((i r : String)
          → contains r (references_of nodes i) ≡ true
          → (n : PlanNode) × (find_node r nodes ≡ some n))
      → (n : PlanNode) × (find_node id nodes ≡ some n)
      → (after : List String) × (visit fuel nodes visiting id v ≡ ok after)
  visit_total zero visiting id v low path known here = absurd (omega arith)
  visit_total (suc fuel) visiting id v low path known (n, found) =
      let off_path = off_path_of rank id visiting path in
      elim (Bool-cases (contains id v)) [
        | inl seen ↦ (v, visit-seen nodes fuel visiting v id off_path seen)
        | inr fresh ↦
            let same : references_of nodes id ≡ references n = rw (found, references_of) in
            let (after, done) =
              visit_each_total nodes (visit fuel nodes (id ∷ visiting)) (references n) v λ r w k.
                let k' = rw (← same) at k in
                let low' = falls id r k' in
                visit_total fuel (id ∷ visiting) r w (omega arith)
                  (low', path-weaken rank r id visiting low' path) known (known id r k') in
            (id ∷ after, visit-fresh nodes fuel visiting v id n off_path fresh found ∙ rw done)
      ]

find_node-of_known :
    (r : String) (nodes : List PlanNode)
    → contains r (ids nodes) ≡ true
    → (n : PlanNode) × (find_node r nodes ≡ some n)
unfolding find_node
find_node-of_known r [] h = cc
find_node-of_known r (n ∷ ns) h = elim (Bool-cases (str_eq n.node_id r)) [
  | inl same ↦ (n, rw same)
  | inr other ↦
      rw other (find_node-of_known r ns (ground (arith, eq_iff r n.node_id, eq_iff n.node_id r)))
]

known-of_all :
    (r : String) (rs known : List String)
    → all (λ x. contains x known) rs ≡ true
    → contains r rs ≡ true
    → contains r known ≡ true
known-of_all r [] known h k = cc
known-of_all r (x ∷ rs) known h k = ground (arith, known-of_all r rs known, eq_iff r x)

references_of-nil : (id : String) → references_of [] id ≡ []
unfolding find_node
references_of-nil id = refl

references_of-cons :
    (n : PlanNode) (ns : List PlanNode) (id : String)
    → references_of (n ∷ ns) id
      ≡ (if str_eq n.node_id id then references n else references_of ns id)
unfolding find_node
references_of-cons n ns id = ground arith

-- A plan whose references are known, searched node by node.
known-of_references_known :
    (nodes ns : List PlanNode) (id r : String)
    → references_known nodes ns ≡ true
    → contains r (references_of ns id) ≡ true
    → contains r (ids nodes) ≡ true
unfolding references_known
known-of_references_known nodes [] id r h k = cc (references_of-nil id)
known-of_references_known nodes (n ∷ ns) id r h k = elim (Bool-cases (str_eq n.node_id id)) [
  | inl same ↦
      known-of_all r (references n) (ids nodes) (ground arith)
        (rw (references_of-cons n ns id, same) at k)
  | inr other ↦
      known-of_references_known nodes ns id r (ground arith)
        (rw (references_of-cons n ns id, other) at k)
]

-- An accepted plan has an order of all its nodes in which each one stands behind every node that it
-- depends on and behind its parent.
pub validate_graph_sound :
    (nodes : List PlanNode)
    → validate_graph nodes ≡ ok tt
    → (order : List String) × IsOrdered nodes order × IsWithin (ids nodes) order
unfolding validate_graph
validate_graph_sound nodes h =
    let searched =
      guard-eq-ok (not (references_known nodes nodes)) unknown_reference _
        (guard-eq-ok (has_repeat (ids nodes)) duplicate_node _ h).1 in
    let (order, found, _) = >>=-eq-ok (search_order nodes) (λ _. ok tt) searched.1 in
    let (ordered, _, reached) =
      visit_each-Finishes nodes (visit (suc (length nodes)) nodes [])
        (λ i w a. visit-Finishes nodes (suc (length nodes)) [] i w a) (ids nodes) [] order tt
        found in
    (order, ordered, reached)

-- A plan is accepted if its identifiers are distinct, its references are known, and a rank, at most the
-- number of nodes, falls along every reference.
pub validate_graph_complete :
    (nodes : List PlanNode) (rank : String → ℕ)
    → has_repeat (ids nodes) ≡ false
    → references_known nodes nodes ≡ true
    → Falls nodes rank
    → All (λ id. rank id ≤ length nodes) (ids nodes)
    → validate_graph nodes ≡ ok tt
unfolding validate_graph
validate_graph_complete nodes rank distinct known falls low =
    let (order, found) =
      visit_each_total nodes (visit (suc (length nodes)) nodes []) (ids nodes) [] (λ r v k.
        visit_total nodes rank falls (suc (length nodes)) [] r v
          (omega (arith, low_of r (ids nodes) low k)) tt
          (λ i x m. find_node-of_known x nodes (known-of_references_known nodes nodes i x known m))
          (find_node-of_known r nodes k)) in
    rw (distinct, known, found)
  where
    low_of :
        (r : String) (xs : List String)
        → All (λ id. rank id ≤ length nodes) xs
        → contains r xs ≡ true
        → rank r ≤ length nodes
    low_of r [] l k = cc
    low_of r (x ∷ xs) l k = ground (arith, low_of r xs l.1, eq_iff r x, ap rank)
