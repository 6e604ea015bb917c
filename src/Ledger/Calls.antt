-- ===== src/Ledger/Calls.antt =====
-- What a call returns and changes: retries, the other saves and the stockpile.
use imperial_auto_governor.Common.{
  ℕ, String, ◌≡◌, ◌≢◌, refl, ap, Bool, true, false, not, ◌&&◌, ◌||◌, none, some, List, [], ◌∷◌,
  ◌++◌, str_eq, eq_iff, eq_refl, arith, Bool-cases, Option-cases, ◌⊎◌, inl, inr,
}
use imperial_auto_governor.Common.Dict.{Dict, lookup, insert, lookup-insert}
use imperial_auto_governor.Common.Int.{ℤ, pos, ◌-ℤ◌, max_ℤ}
use imperial_auto_governor.Common.Text.{strip, sort}
use imperial_auto_governor.Ledger.Rows.{
  Raw, num, Reservation, Summary, active_rows, listed_before, supersede_stale, summary,
  normalized_amounts, get_or_zero, reserved_by, available_of, active,
}
use imperial_auto_governor.Ledger.Coverage.{held, held-supersede_ne, held-append_new, reserved_for}
use imperial_auto_governor.Ledger.Sums.{IsDict}
use imperial_auto_governor.Ledger.{
  Request, Result, ok, err, new_row, admit, transaction, commit, status, reserve, find_row, update,
  apply_to_stockpile,
}

commit-eq-ok :
    (before : List Reservation) (x : Result Summary × List Reservation) (s : Summary)
    (after : List Reservation)
    → commit before x ≡ (ok s, after)
    → x ≡ (ok s, after)
commit-eq-ok before (ok s', after') s after h = h
commit-eq-ok before (err e, after') s after h =
    cc (ap (λ (t : Result Summary × List Reservation). t.0) h)

not_nothing :
    (costs : Dict ℕ) (exclusive : Bool)
    → (costs ≢ []) ⊎ (exclusive ≡ true)
    → (elim costs [ [] ↦ true | _ ∷ _ ↦ false ] && not exclusive) ≡ true
    → ⊥
not_nothing [] exclusive (inl h) e = h refl
not_nothing [] exclusive (inr h) e = ground arith
not_nothing (x ∷ costs) exclusive h e = cc

module _ (c : String) where
  supersede_twice :
      (now now' d : String) (rows : List Reservation)
      → supersede_stale c now' d (supersede_stale c now d rows) ≡ supersede_stale c now d rows
  unfolding supersede_stale
  supersede_twice now now' d [] = refl
  supersede_twice now now' d (r ∷ rows) = ground (arith, supersede_twice now now' d rows)

  supersede-append_new :
      (now id d : String) (costs : Dict ℕ) (q : Request) (t : String) (rows : List Reservation)
      → supersede_stale c now d (rows ++ new_row c id d costs q t ∷ [])
        ≡ supersede_stale c now d rows ++ new_row c id d costs q t ∷ []
  unfolding supersede_stale new_row
  supersede-append_new now id d costs q t [] = ground (arith, eq_refl c, eq_refl d)
  supersede-append_new now id d costs q t (r ∷ rows) =
      ground (arith, supersede-append_new now id d costs q t rows)

  find_row-append_new :
      (id d : String) (costs : Dict ℕ) (q : Request) (t : String) (rows : List Reservation)
      → find_row id rows ≡ none
      → find_row id (rows ++ new_row c id d costs q t ∷ []) ≡ some (new_row c id d costs q t)
  unfolding find_row new_row
  find_row-append_new id d costs q t [] h = ground (arith, eq_refl id)
  find_row-append_new id d costs q t (r ∷ rows) h =
      ground (arith, find_row-append_new id d costs q t rows)

  new_row-fields :
      (id d : String) (costs : Dict ℕ) (q : Request) (t : String)
      → let r = new_row c id d costs q t in
        (r.campaign_id ≡ c) × (r.source_save_sha256 ≡ d) × (r.state ≡ active)
  unfolding new_row
  new_row-fields id d costs q t = (refl, refl, refl)

  transaction_twice :
      (id d : String) (costs : Dict ℕ) (q : Request) (now later now' later' : String)
      (rows after : List Reservation) (s : Summary)
      → transaction c id d costs q now later rows ≡ (ok s, after)
      → transaction c id d costs q now' later' after ≡ (ok s, after)
  unfolding transaction admit
  transaction_twice id d costs q now later now' later' rows after s h =
      let kept = supersede_stale c now d rows in
      elim (Option-cases (find_row id kept)) [
        | inl new ↦ ground (
          arith,
          supersede_twice now now' d rows,
          supersede-append_new now' id d costs q later kept,
          find_row-append_new id d costs q later kept,
          new_row-fields id d costs q later,
          eq_refl c,
          eq_refl d,
        )
        | inr (x, found) ↦ ground (arith, supersede_twice now now' d rows)
      ]

  -- A reservation that went through can be repeated, at any later time: the repeated call returns the
  -- same summary and leaves every row as it is.
  pub reserve_retry :
      (q : Request) (now later now' later' : String) (rows after : List Reservation) (s : Summary)
      → reserve c q now later rows ≡ (ok s, after)
      → reserve c q now' later' after ≡ (ok s, after)
  unfolding reserve
  reserve_retry q now later now' later' rows after s h =
      let id = strip q.reservation_id in
      let d = strip q.source_save_sha256 in
      let costs = normalized_amounts q.costs in
      let first = transaction c id d costs q now later rows in
      elim (Bool-cases (str_eq id "" || str_eq d "")) [
        | inl bad ↦ cc (ap (λ (t : Result Summary × List Reservation). t.0) (rw bad at h))
        | inr good ↦
            elim (Bool-cases (elim costs [ [] ↦ true | _ ∷ _ ↦ false ] && not q.exclusive)) [
              | inl nothing ↦ rw (good, nothing) (cc (rw (good, nothing) at h))
              | inr spends ↦
                  let done = commit-eq-ok rows first s after (rw (good, spends) at h) in
                  rw (good, spends)
                    (ap (commit after)
                      (transaction_twice id d costs q now later now' later' rows after s done))
            ]
      ]

  -- After a reservation that touches the table, no other save of the campaign has active rows.
  pub transaction-only_current :
      (id d : String) (costs : Dict ℕ) (q : Request) (now later : String) (rows : List Reservation)
      (e : String)
      → e ≢ d
      → held c e (transaction c id d costs q now later rows).1 ≡ []
  unfolding transaction admit
  transaction-only_current id d costs q now later rows e ne = ground (
    arith,
    eq_iff e d,
    eq_iff d e,
    held-supersede_ne c now d e rows,
    held-append_new c id d e costs q later (supersede_stale c now d rows),
  )

  -- A reservation that goes through and names a cost, or is exclusive, ends the active rows of every
  -- other save of the campaign.
  pub reserve-only_current :
      (q : Request) (now later : String) (rows after : List Reservation) (s : Summary) (e : String)
      → reserve c q now later rows ≡ (ok s, after)
      → (normalized_amounts q.costs ≢ []) ⊎ (q.exclusive ≡ true)
      → e ≢ strip q.source_save_sha256
      → active_rows c e after ≡ []
  unfolding reserve active_rows
  reserve-only_current q now later rows after s e h some_cost ne =
      let id = strip q.reservation_id in
      let d = strip q.source_save_sha256 in
      let costs = normalized_amounts q.costs in
      let first = transaction c id d costs q now later rows in
      elim (Bool-cases (str_eq id "" || str_eq d "")) [
        | inl bad ↦ cc (ap (λ (t : Result Summary × List Reservation). t.0) (rw bad at h))
        | inr good ↦
            elim (Bool-cases (elim costs [ [] ↦ true | _ ∷ _ ↦ false ] && not q.exclusive)) [
              | inl nothing ↦ absurd (not_nothing costs q.exclusive some_cost nothing)
              | inr spends ↦
                  let done = commit-eq-ok rows first s after (rw (good, spends) at h) in
                  let table = ap (λ (t : Result Summary × List Reservation). t.1) done in
                  ap (sort listed_before)
                    (rw table at (transaction-only_current id d costs q now later rows e ne))
            ]
      ]

lookup-update :
    (r : String) (d : Dict Raw) (a : Dict ℤ)
    → IsDict a
    → lookup r (update d a) ≡ elim (lookup r a) [ none ↦ lookup r d | some v ↦ some (num v) ]
unfolding update
lookup-update r d [] h = refl
lookup-update r d ((k, v) ∷ a) h =
    ground
      (arith, lookup-update r (insert k (num v) d) a h.1, lookup-insert k r (num v) d, eq_iff k r)

lookup-available_of_dict :
    (r : String) (res : Dict ℕ) (d : Dict Raw)
    → IsDict d
    → lookup r (available_of res d) ≡ elim (lookup r d) [
      | some (num n) ↦ some (max_ℤ (n -ℤ pos (get_or_zero r res)) (pos 0))
      | _ ↦ none
    ]
unfolding available_of
lookup-available_of_dict r res [] h = refl
lookup-available_of_dict r res ((k, num n) ∷ d) h =
    ground (arith, eq_iff k r, lookup-available_of_dict r res d h.1)
lookup-available_of_dict r res ((k, _) ∷ d) h =
    ground (arith, eq_iff k r, lookup-available_of_dict r res d h.1)

available_of-IsDict : (res : Dict ℕ) (d : Dict Raw) → IsDict d → IsDict (available_of res d)
unfolding available_of
available_of-IsDict res [] h = tt
available_of-IsDict res ((k, num n) ∷ d) h =
    (ground (arith, lookup-available_of_dict k res d h.1), available_of-IsDict res d h.1)
available_of-IsDict res ((k, _) ∷ d) h = available_of-IsDict res d h.1

-- The stockpile that an Application plans with after `apply_to_stockpile`: each numeric stock is less
-- what the active reservations of the save hold of it, at least zero; what is no number stays.
pub lookup-apply_to_stockpile :
    (c digest : String) (stock stock' : Dict Raw) (rows : List Reservation) (s : Summary)
    (r : String)
    → IsDict stock
    → apply_to_stockpile c digest stock rows ≡ ok (s, stock')
    → lookup r stock' ≡ elim (lookup r stock) [
      | some (num n) ↦
          some (num (max_ℤ (n -ℤ pos (reserved_for r (active_rows c (strip digest) rows))) (pos 0)))
      | other ↦ other
    ]
unfolding apply_to_stockpile status summary
lookup-apply_to_stockpile c digest stock stock' rows s r dict h =
    let held = reserved_by [] (active_rows c (strip digest) rows) in
    ground (
      arith,
      lookup-update r stock (available_of held stock) (available_of-IsDict held stock dict),
      lookup-available_of_dict r held stock dict,
    )
