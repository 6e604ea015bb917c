-- ===== src/Plan/Graph/Closure.antt =====
-- `dependents` is the least set that holds the seeds and is closed under dependence.
use imperial_auto_governor.Common.{
  ℕ, zero, suc, ◌+◌, ◌≤◌, ◌<◌, String, ◌≡◌, true, false, not, ◌&&◌, List, [], ◌∷◌, eq_iff, eq_refl,
  ◌==◌, if◌then◌else◌, arith, any, contains, length, All, Bool-cases, inl, inr,
}
use imperial_auto_governor.Plan.Node.{PlanNode}
use imperial_auto_governor.Plan.Graph.{touches, spread, spread_rounds, dependents, ids, linked}

-- A node that refers to a member is a member.
abbrev pub IsClosed : List PlanNode → List String → Type 0
IsClosed nodes s = All (λ n. touches n s ≡ true → contains n.node_id s ≡ true) nodes

abbrev pub IsWithin : List String → List String → Type 0
IsWithin xs ys = (x : String) → contains x xs ≡ true → contains x ys ≡ true

IsWithin-cons : (x : String) (xs : List String) → IsWithin xs (x ∷ xs)
IsWithin-cons x xs y h = ground arith

spread-grows : (nodes : List PlanNode) (s : List String) → IsWithin s (spread nodes s)
unfolding spread
spread-grows [] s x h = h
spread-grows (n ∷ ns) s x h =
    ground
      (arith, spread-grows ns s x, spread-grows ns (n.node_id ∷ s) x, IsWithin-cons n.node_id s x)

length-spread : (nodes : List PlanNode) (s : List String) → length s ≤ length (spread nodes s)
unfolding spread
length-spread [] s = omega arith
length-spread (n ∷ ns) s = ground (arith, length-spread ns s, length-spread ns (n.node_id ∷ s))

-- A round that adds nothing has found a closed set.
spread-IsClosed :
    (nodes : List PlanNode) (s : List String)
    → length (spread nodes s) ≡ length s
    → IsClosed nodes s
unfolding spread
spread-IsClosed [] s h = tt
spread-IsClosed (n ∷ ns) s h =
    ground (arith, length-spread ns (n.node_id ∷ s), spread-IsClosed ns s)

-- The nodes that are not members yet: each addition makes them fewer.
abbrev outside : List PlanNode → List String → ℕ
outside [] s = 0
outside (n ∷ ns) s = if contains n.node_id s then outside ns s else suc (outside ns s)

outside-cons-le :
    (ns : List PlanNode) (x : String) (s : List String) → outside ns (x ∷ s) ≤ outside ns s
outside-cons-le [] x s = omega arith
outside-cons-le (n ∷ ns) x s = ground (arith, outside-cons-le ns x s)

outside-cons-lt :
    (ns : List PlanNode) (x : String) (s : List String)
    → contains x (ids ns) ≡ true
    → contains x s ≡ false
    → outside ns (x ∷ s) < outside ns s
outside-cons-lt [] x s h k = cc
outside-cons-lt (n ∷ ns) x s h k =
    ground (
      arith,
      outside-cons-le ns x s,
      outside-cons-lt ns x s,
      eq_iff x n.node_id,
      eq_iff n.node_id x,
    )

outside-spread :
    (all_nodes ns : List PlanNode) (s : List String)
    → IsWithin (ids ns) (ids all_nodes)
    → outside all_nodes (spread ns s) + length (spread ns s) ≤ outside all_nodes s + length s
unfolding spread
outside-spread all_nodes [] s h = omega arith
outside-spread all_nodes (n ∷ ns) s h =
    let rest =
      λ (x : String) (k : contains x (ids ns) ≡ true). h x (IsWithin-cons n.node_id (ids ns) x k) in
    let here : contains n.node_id (ids all_nodes) ≡ true =
      h n.node_id (ground (arith, eq_refl n.node_id)) in
    ground (
      arith,
      outside-spread all_nodes ns s rest,
      outside-spread all_nodes ns (n.node_id ∷ s) rest,
      outside-cons-lt all_nodes n.node_id s here,
    )

spread_rounds-IsClosed :
    (fuel : ℕ) (nodes : List PlanNode) (s : List String)
    → outside nodes s < fuel
    → IsClosed nodes (spread_rounds fuel nodes s)
unfolding spread_rounds
spread_rounds-IsClosed zero nodes s h = absurd (omega arith)
spread_rounds-IsClosed (suc fuel) nodes s h =
    elim (Bool-cases (length (spread nodes s) == length s)) [
      | inl same ↦ rw same (spread-IsClosed nodes s (ground arith))
      | inr more ↦ rw more (
          spread_rounds-IsClosed fuel nodes (spread nodes s)
            (ground (arith, outside-spread nodes nodes s (λ x k. k), length-spread nodes s)))
    ]

outside-le-length : (ns : List PlanNode) (s : List String) → outside ns s ≤ length ns
outside-le-length [] s = omega arith
outside-le-length (n ∷ ns) s = ground (arith, outside-le-length ns s)

spread_rounds-grows :
    (fuel : ℕ) (nodes : List PlanNode) (s : List String) → IsWithin s (spread_rounds fuel nodes s)
unfolding spread_rounds
spread_rounds-grows zero nodes s x h = h
spread_rounds-grows (suc fuel) nodes s x h =
    ground (arith, spread-grows nodes s x, spread_rounds-grows fuel nodes (spread nodes s) x)

any-IsWithin :
    (rs s t : List String)
    → IsWithin s t
    → any (λ r. contains r s) rs ≡ true
    → any (λ r. contains r t) rs ≡ true
any-IsWithin [] s t w h = h
any-IsWithin (r ∷ rs) s t w h = ground (arith, w r, any-IsWithin rs s t w)

step-IsWithin :
    (n : PlanNode) (s t : List String)
    → IsWithin s t
    → (touches n t ≡ true → contains n.node_id t ≡ true)
    → IsWithin (if not (contains n.node_id s) && touches n s then n.node_id ∷ s else s) t
unfolding touches
step-IsWithin n s t w closed x h =
    ground (arith, w x, any-IsWithin (linked n) s t w, closed, eq_iff x n.node_id)

spread-least :
    (nodes : List PlanNode) (s t : List String)
    → IsClosed nodes t
    → IsWithin s t
    → IsWithin (spread nodes s) t
unfolding spread
spread-least [] s t closed w = w
spread-least (n ∷ ns) s t closed w =
    spread-least ns (if not (contains n.node_id s) && touches n s then n.node_id ∷ s else s) t
      closed.1 (step-IsWithin n s t w closed.0)

spread_rounds-least :
    (fuel : ℕ) (nodes : List PlanNode) (s t : List String)
    → IsClosed nodes t
    → IsWithin s t
    → IsWithin (spread_rounds fuel nodes s) t
unfolding spread_rounds
spread_rounds-least zero nodes s t closed w x h = w x h
spread_rounds-least (suc fuel) nodes s t closed w x h = ground (
  arith,
  w x,
  spread_rounds-least fuel nodes (spread nodes s) t closed (spread-least nodes s t closed w) x,
)

-- The nodes that an edit or an anomaly affects: the seeds are among them, a node that depends on one of
-- them or has one as its parent is one of them, and every set with these two properties holds them all.
pub dependents_least :
    (nodes : List PlanNode) (seeds : List String)
    → IsWithin seeds (dependents nodes seeds)
      × IsClosed nodes (dependents nodes seeds)
      × ((t : List String)
          → IsWithin seeds t
          → IsClosed nodes t
          → IsWithin (dependents nodes seeds) t)
unfolding dependents
dependents_least nodes seeds = (
  spread_rounds-grows (suc (length nodes)) nodes seeds,
  spread_rounds-IsClosed (suc (length nodes)) nodes seeds
      (omega (arith, outside-le-length nodes seeds)),
  λ t w closed. spread_rounds-least (suc (length nodes)) nodes seeds t closed w,
)
