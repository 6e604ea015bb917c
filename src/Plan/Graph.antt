-- ===== src/Plan/Graph.antt =====
-- src/iag/core/application_plan.py: `_validate_graph` and `ApplicationPlanBook._dependents`.
-- A set of identifiers is a list of which only membership is read. The depth-first search takes as
-- fuel the number of nodes plus one, which is the length of the longest path with no repetition.
pub mod Acyclic
pub mod Closure
pub mod Find
use imperial_auto_governor.Common.{
  ℕ, zero, suc, ◌+◌, String, Bool, true, false, not, ◌&&◌, Option, none, some, List, [], ◌∷◌, ◌++◌,
  str_eq, ◌==◌, leb, if◌then◌else◌, any, all, contains, length, map,
}
use imperial_auto_governor.Plan.Node.{
  PlanNode, PlanDraft, references, is_node_id, Error, Result, ok, err, ◌>>=◌, ◌>>◌, refuse_if,
  duplicate_node, unknown_reference, bad_size, cycle, bad_identifier, has_repeat,
}

abbrev pub ids : List PlanNode → List String
ids [] = []
ids (n ∷ ns) = n.node_id ∷ ids ns

-- `by_id[node_id]`
unfoldable pub find_node : String → List PlanNode → Option PlanNode
find_node id [] = none
find_node id (n ∷ ns) = if str_eq n.node_id id then some n else find_node id ns

-- The loop `for reference in references: visit(reference)`, over the set of visited nodes.
unfoldable pub visit_each :
    (String → List String → Result (List String)) → List String → List String → Result (List String)
visit_each visit [] visited = ok visited
visit_each visit (r ∷ rs) visited = visit r visited >>= λ v. visit_each visit rs v

-- `visit`: `visiting` holds the path from the node where the search began; a call that returns has
-- taken its own node off again.
unfoldable pub visit : ℕ → List PlanNode → List String → String → List String → Result (List String)
unfolding visit_each find_node
visit zero nodes visiting id visited = err cycle
visit (suc fuel) nodes visiting id visited =
    let deeper = visit fuel nodes (id ∷ visiting) in
    let below : Result (List String) = elim (find_node id nodes) [
      | none ↦ err unknown_reference
      | some n ↦ visit_each deeper (references n) visited
    ] in
    if contains id visiting
    then err cycle
    else if contains id visited
    then ok visited
    else (below >>= λ v. ok (id ∷ v))

unfoldable pub references_known : List PlanNode → List PlanNode → Bool
references_known nodes [] = true
references_known nodes (n ∷ ns) =
    all (λ r. contains r (ids nodes)) (references n) && references_known nodes ns

unfoldable pub search_order : List PlanNode → Result (List String)
unfolding visit
search_order nodes = visit_each (visit (suc (length nodes)) nodes []) (ids nodes) []

unfoldable pub validate_graph : List PlanNode → Result (Unit {0})
unfolding search_order references_known has_repeat
validate_graph nodes = do
  refuse_if (has_repeat (ids nodes)) duplicate_node
  refuse_if (not (references_known nodes nodes)) unknown_reference
  search_order nodes >>= λ _. ok tt

unfoldable pub validate_draft : PlanDraft → Result (Unit {0})
unfolding validate_graph is_node_id
validate_draft d = do
  refuse_if (not (leb 1 (length d.nodes) && leb (length d.nodes) 256)) bad_size
  refuse_if (not (is_node_id d.plan_id)) bad_identifier
  validate_graph d.nodes

-- The references that `_dependents` follows: `if parent_id:` passes over an empty text.
abbrev pub linked : PlanNode → List String
linked n =
    n.depends_on ++ elim n.parent_id [ none ↦ [] | some p ↦ if str_eq p "" then [] else p ∷ [] ]

unfoldable pub touches : PlanNode → List String → Bool
touches n affected = any (λ r. contains r affected) (linked n)

-- One round of the loop, in the order of the nodes.
unfoldable pub spread : List PlanNode → List String → List String
unfolding touches
spread [] affected = affected
spread (n ∷ ns) affected = spread ns (
    if not (contains n.node_id affected) && touches n affected
    then n.node_id ∷ affected
    else affected)

-- `while changed`: a round that adds nothing is the last.
unfoldable pub spread_rounds : ℕ → List PlanNode → List String → List String
unfolding spread
spread_rounds zero nodes affected = affected
spread_rounds (suc fuel) nodes affected =
    let next = spread nodes affected in
    let rest = spread_rounds fuel nodes next in
    if length next == length affected then affected else rest

-- Each round but the last adds a node, so one round more than there are nodes is enough.
unfoldable pub dependents : List PlanNode → List String → List String
unfolding spread_rounds
dependents nodes seeds = spread_rounds (suc (length nodes)) nodes seeds
