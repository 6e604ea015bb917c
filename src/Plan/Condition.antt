-- ===== src/Plan/Condition.antt =====
-- src/iag/core/application_plan.py: conditions on facts, waivers, and the classification of the
-- results of tools.
use imperial_auto_governor.Common.{
  ℕ, String, Bool, true, false, not, ◌&&◌, Option, none, some, List, [], ◌∷◌, leb, if◌then◌else◌,
  all, contains,
}
use imperial_auto_governor.Common.Int.{ℤ, pos, ◌+ℤ◌, ◌-ℤ◌, leb_ℤ, ltb_ℤ, dist_ℤ}
use imperial_auto_governor.Common.Dict.{Dict, lookup}
use imperial_auto_governor.Common.Text.{strip}
use imperial_auto_governor.Plan.Json.{
  Json, null, boolean, integer, array, object, nil, cons, end, field, Builtins, number_of,
  float_value, json_eq, in_items, is_truthy, member, str_or_empty, get_field, fields_of,
}

pub data Operator : Type 0 where
  eq ne gt gte lt lte between is_in not_in exists not_exists truthy falsy : Operator

-- `tolerance` is at least 0, in millionths.
pub record PlanCondition : Type 0 where
  pub fact : String
  pub operator : Operator
  pub value : Json
  pub tolerance : Option ℕ
  pub description : String

abbrev pub Facts : Type 0
Facts = Dict Json

abbrev pub is_some {ℓ} : {A : Type ℓ} → Option A → Bool
is_some none = false
is_some (some a) = true

-- `facts.get(path)`
abbrev pub fact_at : String → Facts → Json
fact_at path facts = elim (lookup path facts) [ none ↦ null | some v ↦ v ]

abbrev tolerance_of : PlanCondition → ℕ
tolerance_of c = elim c.tolerance [ none ↦ 0 | some t ↦ t ]

-- eq and ne: numbers within the tolerance, anything else by `==`.
unfoldable pub agree : ℕ → Json → Json → Bool
unfolding number_of json_eq dist_ℤ
agree t actual expected = elim (number_of actual) [
  | none ↦ json_eq actual expected
  | some a ↦ elim (number_of expected) [
    | none ↦ json_eq actual expected
    | some e ↦ leb (dist_ℤ a e) t
  ]
]

-- gt, gte, lt and lte: both are numbers and the test passes.
unfoldable pub compared : (ℤ → ℤ → Bool) → Json → Json → Bool
unfolding number_of
compared test actual expected = elim (number_of actual) [
  | none ↦ false
  | some a ↦ elim (number_of expected) [ none ↦ false | some e ↦ test a e ]
]

unfoldable pub is_between : Builtins → ℤ → Json → Json → Bool
unfolding float_value ◌-ℤ◌ ◌+ℤ◌
is_between py t actual (array (cons low (cons high nil))) = elim (float_value py low) [
  | none ↦ false
  | some lower ↦ elim (float_value py high) [
    | none ↦ false
    | some upper ↦ elim (float_value py actual) [
      | none ↦ false
      | some n ↦ leb_ℤ (lower -ℤ t) n && leb_ℤ n (upper +ℤ t)
    ]
  ]
]
is_between py t actual _ = false

unfoldable pub is_member : Json → Json → Bool
unfolding in_items
is_member actual (array xs) = in_items actual xs
is_member actual _ = false

unfoldable pub is_array : Json → Bool
is_array (array xs) = true
is_array _ = false

-- The operators that want the fact to be there.
unfoldable pub value_passes : Builtins → Operator → ℕ → Json → Json → Bool
unfolding agree compared is_between is_member is_array is_truthy ◌-ℤ◌ ◌+ℤ◌
value_passes py truthy t actual expected = is_truthy actual
value_passes py falsy t actual expected = not (is_truthy actual)
value_passes py eq t actual expected = agree t actual expected
value_passes py ne t actual expected = not (agree t actual expected)
value_passes py gt t actual expected = compared (λ a e. ltb_ℤ (e -ℤ pos t) a) actual expected
value_passes py gte t actual expected = compared (λ a e. leb_ℤ (e -ℤ pos t) a) actual expected
value_passes py lt t actual expected = compared (λ a e. ltb_ℤ a (e +ℤ pos t)) actual expected
value_passes py lte t actual expected = compared (λ a e. leb_ℤ a (e +ℤ pos t)) actual expected
value_passes py between t actual expected = is_between py (pos t) actual expected
value_passes py is_in t actual expected = is_array expected && is_member actual expected
value_passes py not_in t actual expected = is_array expected && not (is_member actual expected)
value_passes py exists t actual expected = true
value_passes py not_exists t actual expected = false

-- `_condition_result`: whether the condition passes, and the value that was compared.
unfoldable pub condition_result : Builtins → PlanCondition → Facts → Bool × Json
unfolding value_passes
condition_result py c facts = elim (lookup c.fact facts) [
  | none ↦ (elim c.operator [ not_exists ↦ true | _ ↦ false ], null)
  | some actual ↦ (value_passes py c.operator (tolerance_of c) actual c.value, actual)
]

unfoldable pub conditions_pass : Builtins → List PlanCondition → Facts → Bool
unfolding condition_result
conditions_pass py conditions facts = all (λ c. (condition_result py c facts).0) conditions

-- `_waiver_matches`; `waivers.get(key)` of a missing key is None.
unfoldable pub waiver_matches : Json → Facts → String → Json → Bool
unfolding json_eq get_field
waiver_matches waiver facts path actual =
    let there = is_some (lookup path facts) in
    let structured : Bool = elim (fields_of waiver) [
      | none ↦ false
      | some fs ↦ is_some (get_field "exists" fs) && is_some (get_field "value" fs)
    ] in
    if structured
    then json_eq waiver (object (field "exists" (boolean there) (field "value" actual end)))
    else there && json_eq waiver actual

-- `str(value or "").strip().lower()`
unfoldable pub normalized : Builtins → Json → String
unfolding str_or_empty strip
normalized py v = py.lower (strip (str_or_empty py v))

abbrev is_true : Json → Bool
is_true (boolean b) = b
is_true _ = false

-- `isinstance(value, int)`: a bool is one.
unfoldable pub int_of : Json → Option ℤ
int_of (boolean b) = some (if b then pos 1 else pos 0)
int_of (integer n) = some n
int_of _ = none

abbrev pub confirmation_states : List String
confirmation_states =
    "pending_save_confirmation" ∷ "provisional_pending_save" ∷ "awaiting_fresh_save" ∷ []

abbrev pub pending_states : List String
pending_states =
    "prepared" ∷ "pending" ∷ "provisional" ∷ "awaiting_save" ∷ "awaiting_confirmation" ∷ []

unfoldable pub execution_is_provisional : Builtins → Json → Bool
unfolding normalized member int_of
execution_is_provisional py result =
    if is_true (member "awaiting_fresh_save_confirmation" result)
    then true
    else if is_true (member "pending_save_confirmation" result)
    then true
    else if is_true (member "awaiting_save_confirmation" result)
    then true
    else if is_true (member "provisional_recorded" result)
    then true
    else if contains (normalized py (member "confirmation_state" result)) confirmation_states
    then true
    else if contains (normalized py (member "state" result)) pending_states
    then true
    else elim (int_of (member "requested_protocol_steps" result)) [
      | none ↦ false
      | some requested ↦ elim (int_of (member "confirmed_protocol_steps" result)) [
        | none ↦ false
        | some confirmed ↦ ltb_ℤ confirmed requested
      ]
    ]
