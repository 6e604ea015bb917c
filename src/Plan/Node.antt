-- ===== src/Plan/Node.antt =====
-- src/iag/core/application_plan.py: plan nodes, actions and drafts, with what their validators refuse.
-- A value of the record types has the types that pydantic enforces; the limits on the lengths of
-- texts and of inner lists are pydantic's and are not modelled.
use Prim.Native.Char.{code}
use text.Mathlib.Text.{starts_with}
use imperial_auto_governor.Common.{
  ℕ, String, ◌≡◌, refl, Bool, true, false, not, ◌&&◌, ◌||◌, Option, none, some, List, [], ◌∷◌, ◌++◌,
  str_eq, leb, ◌==◌, any, contains,
}
use imperial_auto_governor.Common.Text.{text_length}
use imperial_auto_governor.Plan.Json.{Json}
use imperial_auto_governor.Plan.Condition.{PlanCondition}

pub data Error : Type 0 where
  bad_action bad_identifier own_reference repeated_dependency : Error
  duplicate_node unknown_reference cycle bad_size : Error
  missing_reason active_plan_exists no_current_plan plan_mismatch stale_revision : Error
  missing_edit_reason preserved_and_changed unknown_nodes dependent_preserved : Error
  completed_removed completed_immutable resume_unknown : Error
  missing_review_id foreign_review exception_not_current rejected_not_waivable : Error
  prepare_failed execute_failed plan_disappeared : Error
  missing_interpolation key_error : String → Error

-- What a call of the book gives back: the error that it raises, or a value.
pub data Result {κ} (Value : Type κ) : Type κ where
  err : Error → Result Value
  ok : Value → Result Value

-- `if test: raise error`
abbrev pub refuse_if : Bool → Error → Result (Unit {0})
refuse_if true e = err e
refuse_if false e = ok tt

-- What follows a call runs on its value alone.
infixl 5 ◌>>=◌
abbrev pub ◌>>=◌ {κ μ} :
    {Value : Type κ} {Next : Type μ} → Result Value → (Value → Result Next) → Result Next
err raised >>= next = err raised
ok value >>= next = next value

pub >>=-eq-ok {κ μ} :
    {Value : Type κ} {Next : Type μ} (call : Result Value) (next : Value → Result Next)
    {last : Next}
    → (call >>= next) ≡ ok last
    → (value : Value) × (call ≡ ok value) × (next value ≡ ok last)
>>=-eq-ok (err raised) next returned = cc
>>=-eq-ok (ok value) next returned = (value, refl, returned)

infixl 5 ◌>>◌
abbrev pub ◌>>◌ {κ} : {Next : Type κ} → Result (Unit {0}) → Result Next → Result Next
check >> rest = check >>= λ _. rest

pub >>-eq-ok {ℓ} :
    {B : Type ℓ} (m : Result (Unit {0})) (k : Result B) {x : B}
    → (m >> k) ≡ ok x
    → (m ≡ ok tt) × (k ≡ ok x)
>>-eq-ok (ok u) k h = (refl, h)
>>-eq-ok (err e) k h = cc

pub guard-eq-ok {ℓ} :
    {B : Type ℓ} (b : Bool) (e : Error) (m : Result B) {x : B}
    → (refuse_if b e >> m) ≡ ok x
    → (b ≡ false) × (m ≡ ok x)
guard-eq-ok true e m h = cc
guard-eq-ok false e m h = (refl, h)

pub data Cadence : Type 0 where
  once each_state_change : Cadence

pub data CompletionMode : Type 0 where
  after_success wait_for_conditions : CompletionMode

pub record PlanAction : Type 0 where
  pub action_id : String
  pub prepare_tool : String
  pub prepare_arguments : Json
  pub execute_tool : Option String
  pub execute_arguments : Json
  pub cadence : Cadence
  pub completion_mode : CompletionMode

pub data Status : Type 0 where
  planned active completed blocked cancelled : Status

pub data Policy : Type 0 where
  deterministic model_on_activation : Policy

pub record PlanNode : Type 0 where
  pub node_id : String
  pub parent_id : Option String
  pub title : String
  pub objective : String
  pub status : Status
  pub depends_on : List String
  pub activation_conditions : List PlanCondition
  pub expectations : List PlanCondition
  pub stop_conditions : List PlanCondition
  pub completion_conditions : List PlanCondition
  pub action : Option PlanAction
  pub decision_policy : Policy
  pub details : Json

pub record PlanDraft : Type 0 where
  pub plan_id : String
  pub title : String
  pub objective : String
  pub nodes : List PlanNode
  pub domain_context : Json

-- PLAN_NODE_ID_RE: 1 to 80 of A-Z a-z 0-9 _ . : -
unfoldable pub is_id_char : ℕ → Bool
is_id_char c =
    (leb b'A' c && leb c b'Z')
    || ((leb b'a' c && leb c b'z')
        || ((leb b'0' c && leb c b'9') || (c == b'_' || (c == b'.' || (c == b':' || c == b'-')))))

unfoldable pub only_id_chars : String → Bool
unfolding is_id_char
only_id_chars String.[] = true
only_id_chars (String.◌∷◌ c s) = is_id_char (code c) && only_id_chars s

unfoldable pub is_node_id : String → Bool
unfolding only_id_chars text_length
is_node_id s = only_id_chars s && (leb 1 (text_length s) && leb (text_length s) 80)

unfoldable pub validate_action : PlanAction → Result (Unit {0})
validate_action a = do
  refuse_if (not (starts_with a.prepare_tool "prepare_")) bad_action
  refuse_if (elim a.execute_tool [ none ↦ false | some t ↦ not (starts_with t "execute_") ])
      bad_action

-- `references`: the dependencies and the parent.
abbrev pub references : PlanNode → List String
references n = n.depends_on ++ elim n.parent_id [ none ↦ [] | some p ↦ p ∷ [] ]

unfoldable pub has_repeat : List String → Bool
has_repeat [] = false
has_repeat (x ∷ xs) = contains x xs || has_repeat xs

unfoldable pub validate_node : PlanNode → Result (Unit {0})
unfolding is_node_id has_repeat validate_action
validate_node n = do
  elim n.action [ none ↦ ok tt | some a ↦ validate_action a ]
  refuse_if (any (λ i. not (is_node_id i)) (n.node_id ∷ references n)) bad_identifier
  refuse_if
      (contains n.node_id n.depends_on
        || elim n.parent_id [ none ↦ false | some p ↦ str_eq p n.node_id ])
      own_reference
  refuse_if (has_repeat n.depends_on) repeated_dependency
