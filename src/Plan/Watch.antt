-- ===== src/Plan/Watch.antt =====
-- src/iag/core/application_plan.py: what `ApplicationPlanBook.evaluate` reads before it decides: the
-- facts that the nodes watch, which of them changed, which nodes a change affects, and whether a save
-- has settled a submitted run. A set is a list without repetition; `sorted` of one sorts it.
use Prim.Native.String.{◌++◌ as text_append}
use imperial_auto_governor.Common.{
  String, Bool, true, false, not, ◌||◌, Option, none, some, List, [], ◌∷◌, ◌++◌, str_eq,
  if◌then◌else◌, any, select, map, contains,
}
use imperial_auto_governor.Common.Dict.{Dict, lookup}
use imperial_auto_governor.Common.Text.{strip, distinct}
use imperial_auto_governor.Plan.Json.{Json, Builtins, null, json_eq, str_or_empty}
use imperial_auto_governor.Plan.Condition.{PlanCondition, Facts, fact_at, is_some, normalized}
use imperial_auto_governor.Plan.Node.{PlanNode, Result, ok, err, ◌>>=◌, key_error}
use imperial_auto_governor.Plan.Graph.{find_node}
use imperial_auto_governor.Plan.Book.{NodeRuntime, Runtime}
use imperial_auto_governor.Plan.Edit.{is_completed}

-- The nodes of some keys that pass a test, in the order of the keys.
unfoldable pub taken : (PlanNode → Bool) → List PlanNode → List String → List PlanNode
unfolding find_node
taken test nodes [] = []
taken test nodes (i ∷ is) =
    let rest = taken test nodes is in
    elim (find_node i nodes) [ none ↦ rest | some n ↦ if test n then n ∷ rest else rest ]

-- The facts of the four groups of conditions of a node.
abbrev pub watched_by : PlanNode → List String
watched_by n =
    map (λ (c : PlanCondition). c.fact)
      (n.activation_conditions
        ++ (n.expectations ++ (n.stop_conditions ++ n.completion_conditions)))

unfoldable pub watched_all : List PlanNode → List String
watched_all [] = []
watched_all (n ∷ ns) = watched_by n ++ watched_all ns

abbrev pub watched : List PlanNode → List String
watched nodes = distinct (watched_all nodes)

-- `path in facts`
abbrev pub is_known : Facts → String → Bool
is_known facts path = is_some (lookup path facts)

-- `current` and `current_presence`
abbrev pub current_facts : Facts → List String → Facts
current_facts facts paths = map (λ path. (path, fact_at path facts)) paths

abbrev pub current_presence : Facts → List String → List String
current_presence facts paths = select (is_known facts) paths

unfoldable pub has_changed : Facts → List String → Facts → String → Bool
unfolding json_eq
has_changed previous presence facts path =
    not (is_known previous path)
    || (not (json_eq (fact_at path previous) (fact_at path facts))
        || not (if contains path presence then is_known facts path else not (is_known facts path)))

unfoldable pub changed_facts : Runtime → Facts → List PlanNode → List String
unfolding has_changed
changed_facts runtime facts nodes =
    select (has_changed runtime.last_facts runtime.last_fact_presence facts) (watched nodes)

abbrev pub is_first : Runtime → Bool
is_first runtime = elim runtime.evaluated_at [ none ↦ true | some s ↦ str_eq s "" ]

abbrev pub provisional_nodes : Dict NodeRuntime → List String
provisional_nodes entries =
    map (λ (e : String × NodeRuntime). e.0)
      (select (λ (e : String × NodeRuntime). e.1.provisional) entries)

-- `directly_affected`
unfoldable pub directly_affected : Runtime → List String → List PlanNode → List String
directly_affected runtime changed nodes =
    map (λ (n : PlanNode). n.node_id)
      (select (λ (n : PlanNode). is_first runtime || any (λ f. contains f changed) (watched_by n))
        nodes)
    ++ provisional_nodes runtime.nodes

-- One value of `dependencies_complete`: `all` stops at the first dependency that is open.
unfoldable pub dependencies_complete : List PlanNode → List String → Result Bool
unfolding find_node
dependencies_complete nodes [] = ok true
dependencies_complete nodes (d ∷ ds) =
    let rest = dependencies_complete nodes ds in
    elim (find_node d nodes) [
      | none ↦ err (key_error d)
      | some m ↦ if is_completed m then rest else ok false
    ]

unfoldable pub readiness : List PlanNode → List PlanNode → Result (Dict Bool)
unfolding dependencies_complete
readiness nodes [] = ok []
readiness nodes (n ∷ ns) = do
  complete ← dependencies_complete nodes n.depends_on
  rest ← readiness nodes ns
  ok ((n.node_id, complete) ∷ rest)

abbrev pub is_ready : Dict Bool → String → Bool
is_ready ready id = elim (lookup id ready) [ none ↦ false | some b ↦ b ]

-- `path.removesuffix(suffix)` of a path that ends with it.
unfoldable pub without_suffix : String → String → Option String
without_suffix suffix String.[] = if str_eq "" suffix then some "" else none
without_suffix suffix (String.◌∷◌ c s) =
    let rest = without_suffix suffix s in
    if str_eq (String.◌∷◌ c s) suffix
    then some ""
    else elim rest [ none ↦ none | some r ↦ some (String.◌∷◌ c r) ]

pub data Resolution : Type 0 where
  pending confirmed rejected : Resolution

abbrev pub rejections : List String
rejections = "rejected_by_save" ∷ "rejected" ∷ "failed" ∷ []

abbrev pub confirmations : List String
confirmations = "confirmed_by_save" ∷ "confirmed_by_packet" ∷ "completed" ∷ []

-- The paths where the states of a run stand, in the order of the loops.
unfoldable pub state_paths : Builtins → String → Facts → List String
unfolding without_suffix str_or_empty
state_paths py run [] = []
state_paths py run ((path, value) ∷ facts) =
    let rest = state_paths py run facts in
    elim (without_suffix "/run_id" path) [
      | none ↦ rest
      | some prefix ↦
          if str_eq (str_or_empty py value) run
          then text_append prefix "/state" ∷ text_append prefix "/confirmation_state" ∷ rest
          else rest
    ]

unfoldable pub settled :
    Builtins
    → Facts
    → Resolution × (Option String × Json)
    → List String
    → Resolution × (Option String × Json)
unfolding normalized
settled py facts seen [] = seen
settled py facts seen (path ∷ paths) =
    let actual = fact_at path facts in
    let word = normalized py actual in
    let rest =
      settled py facts (if str_eq word "" then seen else (pending, (some path, actual))) paths in
    if contains word rejections
    then (rejected, (some path, actual))
    else if contains word confirmations
    then (confirmed, (some path, actual))
    else rest

-- `_provisional_resolution`
unfoldable pub provisional_resolution :
    Builtins → Facts → Json → Resolution × (Option String × Json)
unfolding settled state_paths strip str_or_empty
provisional_resolution py facts run_id =
    let run = strip (str_or_empty py run_id) in
    let nothing : Resolution × (Option String × Json) = (pending, (none, null)) in
    if str_eq run "" then nothing else settled py facts nothing (state_paths py run facts)
