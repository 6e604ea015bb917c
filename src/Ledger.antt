-- ===== src/Ledger.antt =====
-- src/iag/core/resource_ledger.py: reservations of resources against one authoritative save.
-- Amounts are numbers of 1e-9 units, the tolerance of the source, in exact arithmetic. A row of the
-- table is a `Reservation`; a call that raises rolls its transaction back, so it returns the old rows.
mod Rows
mod Sums
pub mod Coverage
pub mod Exclusive
pub mod Calls
pub mod Reached
mod Tests
pub use Rows.{
  Raw, num, not_finite, not_number, RowState, active, superseded, released, Reservation, Summary,
  Reserved,
}
unfoldable pub use Rows.{
  amounts_of, normalized_amounts, as_json, is_active, selected, active_rows, supersede_stale,
  get_or_zero, add_costs, reserved_by, available_of, summary,
}
use imperial_auto_governor.Common.{
  ℕ, suc, ◌+◌, ◌≤◌, String, ◌≡◌, Bool, true, false, not, ◌&&◌, ◌||◌, Option, none, some, List, [],
  ◌∷◌, ◌++◌, map, str_eq, ◌==◌, if◌then◌else◌, any, select,
}
use imperial_auto_governor.Common.Int.{ℤ, pos, ◌+ℤ◌, ltb_ℤ}
use imperial_auto_governor.Common.Dict.{Dict, lookup, insert}
use imperial_auto_governor.Common.Text.{strip}

pub data Error : Type 0 where
  campaign_unbound missing_digest missing_identifier reservation_taken exclusive_spender : Error
  reserved_already : Error
  insufficient : String → Error

pub data Result {ℓ} (A : Type ℓ) : Type ℓ where
  ok : A → Result A
  err : Error → Result A

-- `__init__`: the campaign of the conversation, which an unbound store lacks.
unfoldable pub open_ledger : Option String → Result String
open_ledger none = err campaign_unbound
open_ledger (some campaign_id) =
    if str_eq campaign_id "" then err campaign_unbound else ok campaign_id

pub record Request : Type 0 where
  pub reservation_id : String
  pub application_id : String
  pub action : String
  pub source_save_sha256 : String
  pub source_game_date : Option String
  pub stockpile : Dict Raw
  pub costs : Option (Dict Raw)
  pub exclusive : Bool

-- The first cost that the save does not cover.
unfoldable pub short_of : Dict ℤ → Dict ℕ → Option String
short_of available [] = none
short_of available ((resource, amount) ∷ rest) =
    let later = short_of available rest in
    elim (lookup resource available) [
      | none ↦ some resource
      | some left ↦ if ltb_ℤ (left +ℤ pos 1) (pos amount) then some resource else later
    ]

unfoldable pub find_row : String → List Reservation → Option Reservation
find_row id [] = none
find_row id (r ∷ rows) = if str_eq r.reservation_id id then some r else find_row id rows

unfoldable pub release_row : String → String → String → Reservation → Reservation
release_row campaign now id r =
    if str_eq r.reservation_id id && (str_eq r.campaign_id campaign && is_active r)
    then record r { state = released; updated_at = now }
    else r

-- `dict.update` of the stockpile with the numbers that are left.
unfoldable pub update : Dict Raw → Dict ℤ → Dict Raw
update d [] = d
update d ((k, v) ∷ rest) = update (insert k (num v) d) rest

-- `_connect`: an exception rolls back, a return commits.
abbrev pub commit :
    List Reservation → Result Summary × List Reservation → Result Summary × List Reservation
commit before (ok s, after) = (ok s, after)
commit before (err e, after) = (err e, before)

-- The methods, over the campaign of the ledger. `now` and `later` are what the two calls of
-- `now_iso` in one `reserve` return.
module _ (campaign : String) where
  unfoldable pub status : String → Dict Raw → List Reservation → Result Summary
  unfolding summary
  status source_save_sha256 stockpile rows =
      let digest = strip source_save_sha256 in
      if str_eq digest ""
      then err missing_digest
      else ok (summary (active_rows campaign digest rows) stockpile digest)

  -- The row that `reserve` inserts.
  unfoldable pub new_row : String → String → Dict ℕ → Request → String → Reservation
  new_row reservation digest normalized q now = record {
    reservation_id = reservation;
    campaign_id = campaign;
    application_id = q.application_id;
    action = q.action;
    source_save_sha256 = digest;
    source_game_date = q.source_game_date;
    costs_json = as_json normalized;
    exclusive = q.exclusive;
    state = active;
    created_at = now;
    updated_at = now;
  }

  -- The part of the transaction after the look-up of the identifier: `rows` are superseded already.
  unfoldable pub admit :
      String
      → String
      → Dict ℕ
      → Request
      → String
      → List Reservation
      → Result Summary × List Reservation
  unfolding new_row
  admit reservation digest normalized q now rows =
      let held = active_rows campaign digest rows in
      let current = summary held q.stockpile digest in
      let inserted = rows ++ new_row reservation digest normalized q now ∷ [] in
      if current.exclusive_spender_active
      then (err exclusive_spender, rows)
      else if q.exclusive && not (elim held [ [] ↦ true | _ ∷ _ ↦ false ])
      then (err reserved_already, rows)
      else elim (short_of current.available normalized) [
        | some resource ↦ (err (insufficient resource), rows)
        | none ↦ (ok (summary (active_rows campaign digest inserted) q.stockpile digest), inserted)
      ]

  -- The body of the transaction: what it returns, and the rows that it leaves uncommitted.
  unfoldable pub transaction :
      String
      → String
      → Dict ℕ
      → Request
      → String
      → String
      → List Reservation
      → Result Summary × List Reservation
  unfolding admit
  transaction reservation digest normalized q now later rows =
      let kept = supersede_stale campaign now digest rows in
      elim (find_row reservation kept) [
        | some existing ↦ (
          if str_eq existing.campaign_id campaign
                && (str_eq existing.source_save_sha256 digest && is_active existing)
              then ok (summary (active_rows campaign digest kept) q.stockpile digest)
              else err reservation_taken,
          kept,
        )
        | none ↦ admit reservation digest normalized q later kept
      ]

  unfoldable pub reserve :
      Request → String → String → List Reservation → Result Summary × List Reservation
  unfolding transaction status
  reserve q now later rows =
      let reservation = strip q.reservation_id in
      let digest = strip q.source_save_sha256 in
      let normalized = normalized_amounts q.costs in
      if str_eq reservation "" || str_eq digest ""
      then (err missing_identifier, rows)
      else if elim normalized [ [] ↦ true | _ ∷ _ ↦ false ] && not q.exclusive
      then (status digest q.stockpile rows, rows)
      else commit rows (transaction reservation digest normalized q now later rows)

  unfoldable pub release : String → String → List Reservation → List Reservation
  unfolding release_row
  release id now = map (release_row campaign now id)

  -- `apply_to_stockpile`: the stockpile that the caller's dict becomes.
  unfoldable pub apply_to_stockpile :
      String → Dict Raw → List Reservation → Result (Summary × Dict Raw)
  unfolding status update
  apply_to_stockpile source_save_sha256 stockpile rows =
      elim (status source_save_sha256 stockpile rows) [
        | ok s ↦ ok (s, update stockpile s.available)
        | err e ↦ err e
      ]
