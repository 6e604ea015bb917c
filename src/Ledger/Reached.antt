-- ===== src/Ledger/Reached.antt =====
-- The tables that the calls of a campaign reach from an empty one: `reserve` and `release` are the calls
-- that write.
use imperial_auto_governor.Common.{String, ◌≡◌, List, [], ◌∷◌, All, arith}
use imperial_auto_governor.Common.Dict.{Dict}
use imperial_auto_governor.Common.Text.{strip}
use imperial_auto_governor.Ledger.Coverage.{IsCovered, reserve-IsCovered, release-IsCovered}
use imperial_auto_governor.Ledger.Exclusive.{IsExclusive, reserve-IsExclusive, release-IsExclusive}
use imperial_auto_governor.Ledger.Rows.{Raw, Reservation, active_rows, reserved_by}
use imperial_auto_governor.Ledger.Sums.{IsDict, option_list}
use imperial_auto_governor.Ledger.{Request, reserve, release}

-- A call with what it is given and the times of the clock.
pub data Call : Type 0 where
  reserving : Request → String → String → Call
  releasing : String → String → Call

unfoldable pub after_call : String → Call → List Reservation → List Reservation
unfolding reserve release
after_call c (reserving q now later) rows = (reserve c q now later rows).1
after_call c (releasing id now) rows = release c id now rows

unfoldable pub after_calls : String → List Call → List Reservation → List Reservation
unfolding after_call
after_calls c [] rows = rows
after_calls c (k ∷ ks) rows = after_calls c ks (after_call c k rows)

-- A call whose stockpile is that of the save it names, and whose costs are a dict.
abbrev pub Fits : (String → Dict Raw) → Call → Type 0
Fits save (reserving q now later) =
    All IsDict (option_list q.costs) × (q.stockpile ≡ save (strip q.source_save_sha256))
Fits save (releasing id now) = Unit

pub record IsKept (c : String) (save : String → Dict Raw) (rows : List Reservation) : Type 0 where
  pub covered : IsCovered c save rows
  pub alone : IsExclusive c rows

after_call-IsKept :
    (c : String) (save : String → Dict Raw) (k : Call) (rows : List Reservation)
    → Fits save k
    → IsKept c save rows
    → IsKept c save (after_call c k rows)
unfolding after_call
after_call-IsKept c save (reserving q now later) rows (dict, stock) h = record {
  covered = reserve-IsCovered c save q now later rows dict stock h.covered;
  alone = reserve-IsExclusive c q now later rows h.alone;
}
after_call-IsKept c save (releasing id now) rows fits h = record {
  covered = release-IsCovered c save id now rows h.covered;
  alone = release-IsExclusive c id now rows h.alone;
}

after_calls_from :
    (c : String) (save : String → Dict Raw) (ks : List Call) (rows : List Reservation)
    → All (Fits save) ks
    → IsKept c save rows
    → IsKept c save (after_calls c ks rows)
unfolding after_calls
after_calls_from c save [] rows fits h = h
after_calls_from c save (k ∷ ks) rows (own, fits) h =
    after_calls_from c save ks (after_call c k rows) fits (after_call-IsKept c save k rows own h)

empty-IsKept : (c : String) (save : String → Dict Raw) → IsKept c save []
unfolding active_rows reserved_by
empty-IsKept c save = record { covered = λ digest r. omega arith; alone = λ digest e. cc }

-- Whatever calls of `reserve` and `release` a campaign makes on an empty table, if each `reserve` is given
-- the stockpile of the save it names and its costs are a dict: the active reservations of every save hold,
-- of every resource, at most the stock plus 1e-9 for each reservation that holds some, and an active
-- exclusive reservation is the only active one of its save.
pub after_calls-IsKept :
    (c : String) (save : String → Dict Raw) (ks : List Call)
    → All (Fits save) ks
    → IsKept c save (after_calls c ks [])
after_calls-IsKept c save ks fits = after_calls_from c save ks [] fits (empty-IsKept c save)
