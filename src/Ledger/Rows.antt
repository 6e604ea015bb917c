-- ===== src/Ledger/Rows.antt =====
-- The rows of the table `resource_reservations`, their selection and their summary.
use imperial_auto_governor.Common.{
  ℕ, suc, ◌+◌, String, Bool, true, false, not, ◌&&◌, Option, none, some, List, [], ◌∷◌, map, str_eq,
  if◌then◌else◌, any, select,
}
use imperial_auto_governor.Common.Int.{ℤ, pos, ◌-ℤ◌, max_ℤ}
use imperial_auto_governor.Common.Dict.{Dict, lookup, insert}
use imperial_auto_governor.Common.Text.{text_le, sort}

-- A value of a JSON object, as `isinstance(value, (int, float))` and `math.isfinite` see it.
pub data Raw : Type 0 where
  num : ℤ → Raw
  not_finite not_number : Raw

-- `_normalized_amounts` on the items of a dict: its keys are distinct, so that each assignment
-- makes a new item.
unfoldable pub amounts_of : Dict Raw → Dict ℕ
amounts_of [] = []
amounts_of ((resource, num (pos (suc n))) ∷ rest) = (resource, suc n) ∷ amounts_of rest
amounts_of ((resource, _) ∷ rest) = amounts_of rest

-- What is no dict has no amounts.
unfoldable pub normalized_amounts : Option (Dict Raw) → Dict ℕ
unfolding amounts_of
normalized_amounts none = []
normalized_amounts (some d) = amounts_of d

-- What `json.loads` reads back from the dumped amounts.
unfoldable pub as_json : Dict ℕ → Dict Raw
as_json [] = []
as_json ((resource, amount) ∷ rest) = (resource, num (pos amount)) ∷ as_json rest

pub data RowState : Type 0 where
  active superseded released : RowState

pub record Reservation : Type 0 where
  pub reservation_id : String
  pub campaign_id : String
  pub application_id : String
  pub action : String
  pub source_save_sha256 : String
  pub source_game_date : Option String
  pub costs_json : Dict Raw
  pub exclusive : Bool
  pub state : RowState
  pub created_at : String
  pub updated_at : String

abbrev pub is_active : Reservation → Bool
is_active r = elim r.state [ active ↦ true | _ ↦ false ]

-- `_supersede_stale`, on one row.
unfoldable pub supersede_row : String → String → String → Reservation → Reservation
supersede_row campaign now digest r =
    if str_eq r.campaign_id campaign && (is_active r && not (str_eq r.source_save_sha256 digest))
    then record r { state = superseded; updated_at = now }
    else r

unfoldable pub supersede_stale : String → String → String → List Reservation → List Reservation
unfolding supersede_row
supersede_stale campaign now digest = map (supersede_row campaign now digest)

abbrev pub selected : String → String → Reservation → Bool
selected campaign digest r =
    str_eq r.campaign_id campaign && (is_active r && str_eq r.source_save_sha256 digest)

-- ORDER BY created_at, reservation_id
unfoldable pub listed_before : Reservation → Reservation → Bool
unfolding text_le
listed_before a b =
    if str_eq a.created_at b.created_at
    then text_le a.reservation_id b.reservation_id
    else text_le a.created_at b.created_at

unfoldable pub active_rows : String → String → List Reservation → List Reservation
unfolding sort listed_before
active_rows campaign digest rows = sort listed_before (select (selected campaign digest) rows)

abbrev pub get_or_zero : String → Dict ℕ → ℕ
get_or_zero k d = elim (lookup k d) [ none ↦ 0 | some n ↦ n ]

unfoldable pub add_costs : Dict ℕ → Dict ℕ → Dict ℕ
add_costs reserved [] = reserved
add_costs reserved ((resource, amount) ∷ rest) =
    add_costs (insert resource (get_or_zero resource reserved + amount) reserved) rest

unfoldable pub reserved_by : Dict ℕ → List Reservation → Dict ℕ
unfolding add_costs amounts_of
reserved_by reserved [] = reserved
reserved_by reserved (r ∷ rows) = reserved_by (add_costs reserved (amounts_of r.costs_json)) rows

-- What is left of a numeric stock. A finite stock is assumed: a save holds no other.
unfoldable pub available_of : Dict ℕ → Dict Raw → Dict ℤ
unfolding max_ℤ ◌-ℤ◌
available_of reserved [] = []
available_of reserved ((resource, num n) ∷ rest) =
    (resource, max_ℤ (n -ℤ pos (get_or_zero resource reserved)) (pos 0))
    ∷ available_of reserved rest
available_of reserved ((resource, _) ∷ rest) = available_of reserved rest

-- One entry of the summary's list.
pub record Reserved : Type 0 where
  pub reservation_id : String
  pub application_id : String
  pub action : String
  pub costs : Dict ℕ
  pub exclusive : Bool
  pub source_game_date : Option String

unfoldable pub entry_of : Reservation → Reserved
unfolding amounts_of
entry_of r = record {
  reservation_id = r.reservation_id;
  application_id = r.application_id;
  action = r.action;
  costs = amounts_of r.costs_json;
  exclusive = r.exclusive;
  source_game_date = r.source_game_date;
}

pub record Summary : Type 0 where
  pub source_save_sha256 : String
  pub reserved : Dict ℕ
  pub available : Dict ℤ
  pub exclusive_spender_active : Bool
  pub spending_allowed : Bool
  pub reservations : List Reserved

unfoldable pub summary : List Reservation → Dict Raw → String → Summary
unfolding reserved_by available_of entry_of
summary rows stockpile digest =
    let totals = reserved_by [] rows in
    let entries = map entry_of rows in
    let exclusive = any (λ (e : Reserved). e.exclusive) entries in
    record {
      source_save_sha256 = digest;
      reserved = totals;
      available = available_of totals stockpile;
      exclusive_spender_active = exclusive;
      spending_allowed = not exclusive;
      reservations = entries;
    }
