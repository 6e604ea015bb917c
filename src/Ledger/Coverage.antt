-- ===== src/Ledger/Coverage.antt =====
-- No overspending: what the active reservations of one save hold, against its stockpile.
use imperial_auto_governor.Common.{
  ℕ, ◌+◌, ◌≤◌, ◌-◌, String, ◌≡◌, refl, Bool, true, false, not, Option, none, some, List, [], ◌∷◌,
  ◌++◌, ◌&&◌, ◌||◌, All, str_eq, eq_iff, eq_refl, if◌then◌else◌, arith, select, ap, Bool-cases, inl,
  inr, append-nil,
}
use imperial_auto_governor.Common.Int.{ℤ, pos, ◌-ℤ◌, ◌+ℤ◌, max_ℤ, pos_part}
use imperial_auto_governor.Common.Dict.{Dict, lookup}
use imperial_auto_governor.Common.Text.{strip}
use imperial_auto_governor.Ledger.Rows.{
  Raw, num, Reservation, amounts_of, as_json, reserved_by, get_or_zero, available_of,
  normalized_amounts, active_rows, listed_before, selected, supersede_stale, summary, Summary,
}
use imperial_auto_governor.Ledger.Sums.{
  IsDict, option_list, sum_for, cost_of, spends, weigh, weigh-append, weigh-sort,
  get_or_zero-reserved_by, amounts_of-as_json-amounts_of, amounts_of-IsDict, sum_for-absent,
}
use imperial_auto_governor.Ledger.{
  short_of, new_row, admit, transaction, commit, reserve, release, Request, Result, ok, err,
}

-- The first numeric stock of a resource, and what a save can spend of it.
abbrev pub stock_of : String → Dict Raw → Option ℤ
stock_of r [] = none
stock_of r ((k, num n) ∷ d) = if str_eq k r then some n else stock_of r d
stock_of r ((k, _) ∷ d) = stock_of r d

abbrev pub budget : String → Dict Raw → ℕ
budget r d = elim (stock_of r d) [ none ↦ 0 | some n ↦ pos_part n ]

-- What the summary of the rows reports as reserved, and how many of the rows hold some.
abbrev pub reserved_for : String → List Reservation → ℕ
reserved_for r rows = get_or_zero r (reserved_by [] rows)

abbrev pub spenders : String → List Reservation → ℕ
spenders r rows = weigh (spends r) rows

-- Every active reservation of a save is covered by its stockpile, up to one unit of 1e-9 each.
abbrev pub IsCovered : String → (String → Dict Raw) → List Reservation → Type 0
IsCovered campaign save rows =
    (digest r : String)
    → reserved_for r (active_rows campaign digest rows)
      ≤ budget r (save digest) + spenders r (active_rows campaign digest rows)

lookup-available_of :
    (r : String) (reserved : Dict ℕ) (d : Dict Raw)
    → lookup r (available_of reserved d) ≡ elim (stock_of r d) [
      | none ↦ none
      | some n ↦ some (max_ℤ (n -ℤ pos (get_or_zero r reserved)) (pos 0))
    ]
unfolding available_of
lookup-available_of r res [] = refl
lookup-available_of r res ((k, num n) ∷ d) = ground (arith, eq_iff k r, lookup-available_of r res d)
lookup-available_of r res ((k, _) ∷ d) = lookup-available_of r res d

-- What `short_of` lets pass is at most one unit above what is left.
abbrev left_of : String → Dict ℤ → ℕ
left_of r available = elim (lookup r available) [ none ↦ 0 | some n ↦ pos_part n ]

sum_for-le-left :
    (r : String) (available : Dict ℤ) (costs : Dict ℕ)
    → IsDict costs
    → short_of available costs ≡ none
    → sum_for r costs ≤ left_of r available + 1
unfolding short_of ◌+ℤ◌
sum_for-le-left r a [] h e = omega arith
sum_for-le-left r a ((k, n) ∷ costs) h e =
    ground (arith, sum_for-le-left r a costs h.1, eq_iff k r, sum_for-absent r costs)

-- The active rows of one save in the order of the table; `active_rows` lists them by creation.
abbrev pub held : String → String → List Reservation → List Reservation
held campaign digest rows = select (selected campaign digest) rows

reserved_for-active_rows :
    (c d r : String) (rows : List Reservation)
    → reserved_for r (active_rows c d rows) ≡ weigh (cost_of r) (held c d rows)
unfolding active_rows
reserved_for-active_rows c d r rows = omega (
  arith,
  get_or_zero-reserved_by r [] (active_rows c d rows),
  weigh-sort listed_before (cost_of r) (held c d rows),
)

spenders-active_rows :
    (c d r : String) (rows : List Reservation)
    → spenders r (active_rows c d rows) ≡ weigh (spends r) (held c d rows)
unfolding active_rows
spenders-active_rows c d r rows = weigh-sort listed_before (spends r) (held c d rows)

abbrev HoldsWithin : String → (String → Dict Raw) → List Reservation → Type 0
HoldsWithin c save rows =
    (d r : String)
    → weigh (cost_of r) (held c d rows) ≤ budget r (save d) + weigh (spends r) (held c d rows)

IsCovered-of :
    (c : String) (save : String → Dict Raw) (rows : List Reservation)
    → HoldsWithin c save rows
    → IsCovered c save rows
IsCovered-of c save rows h d r =
    omega (arith, h d r, reserved_for-active_rows c d r rows, spenders-active_rows c d r rows)

HoldsWithin-of :
    (c : String) (save : String → Dict Raw) (rows : List Reservation)
    → IsCovered c save rows
    → HoldsWithin c save rows
HoldsWithin-of c save rows h d r =
    omega (arith, h d r, reserved_for-active_rows c d r rows, spenders-active_rows c d r rows)

pub held-supersede_self :
    (c now d : String) (rows : List Reservation)
    → held c d (supersede_stale c now d rows) ≡ held c d rows
unfolding supersede_stale
held-supersede_self c now d [] = refl
held-supersede_self c now d (row ∷ rows) = ground (arith, held-supersede_self c now d rows)

pub held-supersede_ne :
    (c now d e : String) (rows : List Reservation)
    → str_eq e d ≡ false
    → held c e (supersede_stale c now d rows) ≡ []
unfolding supersede_stale
held-supersede_ne c now d e [] h = refl
held-supersede_ne c now d e (row ∷ rows) h = ground (
  arith,
  held-supersede_ne c now d e rows,
  eq_iff row.source_save_sha256 e,
  eq_iff row.source_save_sha256 d,
  eq_iff e d,
)

pub select-append :
    {A : Type 0} (p : A → Bool) (xs ys : List A) → select p (xs ++ ys) ≡ select p xs ++ select p ys
select-append p [] ys = refl
select-append p (x ∷ xs) ys = ground (arith, select-append p xs ys)

pub held-append_new :
    (c id d e : String) (costs : Dict ℕ) (q : Request) (now : String) (rows : List Reservation)
    → held c e (rows ++ new_row c id d costs q now ∷ [])
      ≡ (if str_eq d e then held c e rows ++ new_row c id d costs q now ∷ [] else held c e rows)
unfolding new_row
held-append_new c id d e costs q now rows =
    rw (select-append (selected c e) rows (new_row c id d costs q now ∷ []))
      (ground (arith, eq_refl c, append-nil (held c e rows)))

module _ (c : String) (save : String → Dict Raw) where
  supersede-HoldsWithin :
      (now d : String) (rows : List Reservation)
      → HoldsWithin c save rows
      → HoldsWithin c save (supersede_stale c now d rows)
  supersede-HoldsWithin now d rows h e r = elim (Bool-cases (str_eq e d)) [
    | inl same ↦
        let p : e ≡ d = (eq_iff e d).0 same in rw p (rw (held-supersede_self c now d rows) (h d r))
    | inr other ↦ rw (held-supersede_ne c now d e rows other) (omega arith)
  ]

  left_of-available_of :
      (r : String) (reserved : Dict ℕ) (d : Dict Raw)
      → left_of r (available_of reserved d) ≡ budget r d - get_or_zero r reserved
  unfolding max_ℤ ◌-ℤ◌
  left_of-available_of r reserved d = ground (arith, lookup-available_of r reserved d)

  -- A new row that `short_of` let pass keeps what is held within the budget.
  append-HoldsWithin :
      (id d : String) (costs : Dict ℕ) (q : Request) (now : String) (rows : List Reservation)
      (e r : String)
      → IsDict costs
      → amounts_of (as_json costs) ≡ costs
      → HoldsWithin c save rows
      → short_of (available_of (reserved_by [] (active_rows c d rows)) (save d)) costs ≡ none
      → let after = held c e (rows ++ new_row c id d costs q now ∷ []) in
        weigh (cost_of r) after ≤ budget r (save e) + weigh (spends r) after
  unfolding new_row
  append-HoldsWithin id d costs q now rows e r dict json h fits = elim (Bool-cases (str_eq d e)) [
    | inl same ↦
        let p : d ≡ e = (eq_iff d e).0 same in
        rw (← p, held-append_new c id d d costs q now rows, eq_refl d)
          (omega (
            arith,
            h d r,
            weigh-append (cost_of r) (held c d rows) (new_row c id d costs q now ∷ []),
            weigh-append (spends r) (held c d rows) (new_row c id d costs q now ∷ []),
            ap (sum_for r) json,
            sum_for-le-left r _ costs dict fits,
            left_of-available_of r (reserved_by [] (active_rows c d rows)) (save d),
            reserved_for-active_rows c d r rows,
          ))
    | inr other ↦ rw (held-append_new c id d e costs q now rows, other) (h e r)
  ]

  admit-HoldsWithin :
      (id d : String) (q : Request) (now : String) (rows : List Reservation)
      → IsDict (normalized_amounts q.costs)
      → amounts_of (as_json (normalized_amounts q.costs)) ≡ normalized_amounts q.costs
      → q.stockpile ≡ save d
      → HoldsWithin c save rows
      → HoldsWithin c save (admit c id d (normalized_amounts q.costs) q now rows).1
  unfolding admit summary
  admit-HoldsWithin id d q now rows dict json stock h e r = ground (
    arith,
    h e r,
    append-HoldsWithin id d (normalized_amounts q.costs) q now rows e r dict json h,
  )

  transaction-HoldsWithin :
      (id d : String) (q : Request) (now later : String) (rows : List Reservation)
      → IsDict (normalized_amounts q.costs)
      → amounts_of (as_json (normalized_amounts q.costs)) ≡ normalized_amounts q.costs
      → q.stockpile ≡ save d
      → HoldsWithin c save rows
      → HoldsWithin c save (transaction c id d (normalized_amounts q.costs) q now later rows).1
  unfolding transaction
  transaction-HoldsWithin id d q now later rows dict json stock h e r =
      let kept = supersede-HoldsWithin now d rows h in
      ground (
        arith,
        kept e r,
        admit-HoldsWithin id d q later (supersede_stale c now d rows) dict json stock kept e r,
      )

pub commit-keeps :
    (P : List Reservation → Type 0) (before : List Reservation)
    (x : Result Summary × List Reservation)
    → P before
    → P x.1
    → P (commit before x).1
commit-keeps P before (ok s, after) p q = q
commit-keeps P before (err e, after) p q = p

normalized-IsDict :
    (costs : Option (Dict Raw)) → All IsDict (option_list costs) → IsDict (normalized_amounts costs)
unfolding normalized_amounts
normalized-IsDict none h = tt
normalized-IsDict (some d) h = amounts_of-IsDict d h.0

normalized-as_json :
    (costs : Option (Dict Raw))
    → amounts_of (as_json (normalized_amounts costs)) ≡ normalized_amounts costs
unfolding normalized_amounts as_json amounts_of
normalized-as_json none = refl
normalized-as_json (some d) = amounts_of-as_json-amounts_of d

-- A reservation against the stockpile of the save that it names keeps the active reservations of
-- every save covered: for each resource, what they hold is at most the save's stock, plus one unit
-- of 1e-9 for each of them that holds some. This is so whether the call reserves, repeats or raises.
pub reserve-IsCovered :
    (c : String) (save : String → Dict Raw) (q : Request) (now later : String)
    (rows : List Reservation)
    → All IsDict (option_list q.costs)
    → q.stockpile ≡ save (strip q.source_save_sha256)
    → IsCovered c save rows
    → IsCovered c save (reserve c q now later rows).1
unfolding reserve
reserve-IsCovered c save q now later rows dict stock h =
    let id = strip q.reservation_id in
    let d = strip q.source_save_sha256 in
    let done =
      commit-keeps (IsCovered c save) rows
        (transaction c id d (normalized_amounts q.costs) q now later rows) h
        (IsCovered-of c save _ (
          transaction-HoldsWithin c save id d q now later rows (normalized-IsDict q.costs dict)
            (normalized-as_json q.costs) stock (HoldsWithin-of c save rows h))) in
    elim (Bool-cases (str_eq id "" || str_eq d "")) [
      | inl bad ↦ rw bad h
      | inr good ↦
          elim (Bool-cases
            (elim (normalized_amounts q.costs) [ [] ↦ true | _ ∷ _ ↦ false ] && not q.exclusive)) [
              | inl nothing ↦ rw (good, nothing) h
              | inr some_cost ↦ rw (good, some_cost) done
            ]
    ]

release_row-weigh :
    (c d r : String) (id now : String) (rows : List Reservation)
    → let after = held c d (release c id now rows) in
      let before = held c d rows in
      weigh (cost_of r) after + weigh (spends r) before
      ≤ weigh (cost_of r) before + weigh (spends r) after
unfolding release
release_row-weigh c d r id now [] = omega arith
release_row-weigh c d r id now (row ∷ rows) = ground (arith, release_row-weigh c d r id now rows)

-- Releasing a reservation keeps the active reservations of every save covered by its stockpile.
pub release-IsCovered :
    (c : String) (save : String → Dict Raw) (id now : String) (rows : List Reservation)
    → IsCovered c save rows
    → IsCovered c save (release c id now rows)
release-IsCovered c save id now rows h =
    IsCovered-of c save _
      λ d r. omega (arith, HoldsWithin-of c save rows h d r, release_row-weigh c d r id now rows)
