-- ===== src/Plan/Graph/Find.antt =====
-- A node that is found has the identifier that was looked up.
use imperial_auto_governor.Common.{String, ◌≡◌, ap, ◌∙◌, some, List, [], ◌∷◌, eq_iff, arith}
use imperial_auto_governor.Plan.Node.{PlanNode}
use imperial_auto_governor.Plan.Graph.{find_node}

pub find_node-id :
    (id : String) (ns : List PlanNode) (n : PlanNode) → find_node id ns ≡ some n → n.node_id ≡ id
unfolding find_node
find_node-id id [] n h = cc
find_node-id id (m ∷ ms) n h = ground (arith, find_node-id id ms n, eq_iff m.node_id id)

pub find_node_self :
    (id : String) (ns : List PlanNode) (n : PlanNode)
    → find_node id ns ≡ some n
    → find_node n.node_id ns ≡ some n
find_node_self id ns n h = ap (λ k. find_node k ns) (find_node-id id ns n h) ∙ h
