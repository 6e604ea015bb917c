-- ===== src/Ledger/Tests.antt =====
-- Runs of the ledger, and its theorems at concrete reservations.
use imperial_auto_governor.Common.{
  ◌≡◌, refl, false, true, none, some, inl, List, [], ◌∷◌, length, arith, eq_iff,
}
use imperial_auto_governor.Common.Dict.{Dict, lookup}
use imperial_auto_governor.Common.Int.{pos, ◌-ℤ◌, ◌+ℤ◌}
use imperial_auto_governor.Common.Text.{strip}
use imperial_auto_governor.Ledger.{
  Raw, num, not_number, Reservation, Summary, Request, ok, err, insufficient, exclusive_spender,
  active_rows, normalized_amounts, reserve, release, apply_to_stockpile, find_row, supersede_stale,
  short_of, reserved_by, as_json,
}
use imperial_auto_governor.Ledger.Coverage.{IsCovered, reserve-IsCovered, release-IsCovered}
use imperial_auto_governor.Ledger.Exclusive.{IsExclusive, reserve-IsExclusive, release-IsExclusive}
use imperial_auto_governor.Ledger.Reached.{
  Call, reserving, releasing, after_calls, IsKept, after_calls-IsKept,
}
use imperial_auto_governor.Ledger.Calls.{
  reserve_retry, reserve-only_current, lookup-apply_to_stockpile,
}

-- What a run of the ledger computes with.
evaluated : Unit {0}
unfolding reserve release after_calls apply_to_stockpile strip normalized_amounts find_row
    supersede_stale active_rows short_of reserved_by as_json ◌+ℤ◌ ◌-ℤ◌
evaluated = tt

abbrev stock : Dict Raw
stock = ("minerals", num (pos 100)) ∷ ("note", not_number) ∷ ("alloys", num (pos 40)) ∷ []

abbrev build : Request
build = record {
  reservation_id = " run-1 ";
  application_id = "economy_governance";
  action = "build";
  source_save_sha256 = "s1";
  source_game_date = some "2200.01.01";
  stockpile = stock;
  costs = some (("minerals", num (pos 60)) ∷ []);
  exclusive = false;
}

abbrev again : Request
again = record build { reservation_id = "run-2" }

abbrev design : Request
design = record build { reservation_id = "run-3"; costs = none; exclusive = true }

abbrev one : List Reservation
one = (reserve "c" build "t1" "t2" []).1

abbrev summary_of_one : Summary
summary_of_one = record {
  source_save_sha256 = "s1";
  reserved = ("minerals", 60) ∷ [];
  available = ("minerals", pos 40) ∷ ("alloys", pos 40) ∷ [];
  exclusive_spender_active = false;
  spending_allowed = true;
  reservations =
      record {
        reservation_id = "run-1";
        application_id = "economy_governance";
        action = "build";
        costs = ("minerals", 60) ∷ [];
        exclusive = false;
        source_game_date = some "2200.01.01";
      }
      ∷ [];
}

covers_one : (reserve "c" build "t1" "t2" []).0 ≡ ok summary_of_one
unfolding evaluated
covers_one = refl

second_is_short : reserve "c" again "t3" "t4" one ≡ (err (insufficient "minerals"), one)
unfolding evaluated
second_is_short = refl

exclusive_after_new_save :
    (reserve "c" again "t5" "t6"
      (reserve "c" (record design { source_save_sha256 = "s1" }) "t3" "t4" []).1).0
    ≡ err exclusive_spender
unfolding evaluated
exclusive_after_new_save = refl

empty-IsCovered : IsCovered "c" (λ _. stock) []
unfolding evaluated
empty-IsCovered digest r = omega arith

stock_after_one : IsCovered "c" (λ _. stock) one
stock_after_one =
    reserve-IsCovered "c" (λ _. stock) build "t1" "t2" [] ((refl, tt), tt) refl empty-IsCovered

released_stock : IsCovered "c" (λ _. stock) (release "c" "run-1" "t9" one)
released_stock = release-IsCovered "c" (λ _. stock) "run-1" "t9" one stock_after_one

empty-IsExclusive : IsExclusive "c" []
unfolding evaluated
empty-IsExclusive digest e = cc

sole_after_one : IsExclusive "c" (reserve "c" design "t1" "t2" []).1
sole_after_one = reserve-IsExclusive "c" design "t1" "t2" [] empty-IsExclusive

released_alone : IsExclusive "c" (release "c" "run-3" "t9" (reserve "c" design "t1" "t2" []).1)
released_alone =
    release-IsExclusive "c" "run-3" "t9" (reserve "c" design "t1" "t2" []).1 sole_after_one

abbrev calls : List Call
calls =
    reserving build "t1" "t2"
    ∷ reserving again "t3" "t4"
    ∷ releasing "run-1" "t5"
    ∷ reserving again "t6" "t7"
    ∷ []

-- The second call finds too little; after the release it goes through.
reserved_again : length (active_rows "c" "s1" (after_calls "c" calls [])) ≡ 1
unfolding evaluated
reserved_again = refl

after_calls-IsKept_example : IsKept "c" (λ _. stock) (after_calls "c" calls [])
after_calls-IsKept_example =
    after_calls-IsKept "c" (λ _. stock) calls
      ((((refl, tt), tt), refl), ((((refl, tt), tt), refl), (tt, ((((refl, tt), tt), refl), tt))))

reserve_retry_example : reserve "c" build "t7" "t8" one ≡ (ok summary_of_one, one)
unfolding evaluated
reserve_retry_example = reserve_retry "c" build "t1" "t2" "t7" "t8" [] one summary_of_one refl

reserve-only_current_example : active_rows "c" "s0" one ≡ []
unfolding evaluated
reserve-only_current_example =
    reserve-only_current "c" build "t1" "t2" [] one summary_of_one "s0" refl
      (inl (λ e. ground arith)) (λ e. ground (arith, eq_iff "s0" "s1"))

abbrev planned : Dict Raw
planned = ("minerals", num (pos 40)) ∷ ("note", not_number) ∷ ("alloys", num (pos 40)) ∷ []

lookup-apply_to_stockpile_example : lookup "minerals" planned ≡ some (num (pos 40))
unfolding evaluated
lookup-apply_to_stockpile_example =
    lookup-apply_to_stockpile "c" "s1" stock planned one summary_of_one "minerals"
      (refl, (refl, (refl, tt))) refl
