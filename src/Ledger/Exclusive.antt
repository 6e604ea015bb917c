-- ===== src/Ledger/Exclusive.antt =====
-- A reservation of unknown price excludes every other spender of its save.
use imperial_auto_governor.Common.{
  ℕ, ◌≤◌, String, ◌≡◌, refl, Bool, true, false, not, ◌&&◌, ◌||◌, List, [], ◌∷◌, ◌++◌, str_eq,
  eq_iff, arith, any, length, Bool-cases, inl, inr, map,
}
use imperial_auto_governor.Common.Dict.{Dict}
use imperial_auto_governor.Common.Text.{strip, length-sort, any-sort}
use imperial_auto_governor.Ledger.Rows.{
  Reservation, active_rows, listed_before, supersede_stale, summary, normalized_amounts, Reserved,
  entry_of,
}
use imperial_auto_governor.Ledger.Coverage.{
  held-supersede_self, held-supersede_ne, held-append_new, held, commit-keeps,
}
use imperial_auto_governor.Ledger.{Request, new_row, admit, transaction, reserve, release}

abbrev pub exclusive_in : List Reservation → Bool
exclusive_in rows = any (λ (r : Reservation). r.exclusive) rows

-- If some active reservation of a save is exclusive, then it is the only active one of that save.
abbrev pub IsExclusive : String → List Reservation → Type 0
IsExclusive campaign rows =
    (digest : String)
    → exclusive_in (active_rows campaign digest rows) ≡ true
    → length (active_rows campaign digest rows) ≡ 1

any-active_rows :
    (c d : String) (rows : List Reservation)
    → exclusive_in (active_rows c d rows) ≡ exclusive_in (held c d rows)
unfolding active_rows
any-active_rows c d rows = any-sort listed_before (λ (r : Reservation). r.exclusive) (held c d rows)

length-active_rows :
    (c d : String) (rows : List Reservation)
    → length (active_rows c d rows) ≡ length (held c d rows)
unfolding active_rows
length-active_rows c d rows = length-sort listed_before (held c d rows)

any-entries :
    (rows : List Reservation)
    → any (λ (e : Reserved). e.exclusive) (map entry_of rows) ≡ exclusive_in rows
unfolding entry_of
any-entries [] = refl
any-entries (r ∷ rows) = ground (arith, any-entries rows)

-- What `IsExclusive` says of the rows that are held.
abbrev IsSole : List Reservation → Type 0
IsSole rows = exclusive_in rows ≡ true → length rows ≡ 1

IsSole-held : (c d : String) (rows : List Reservation) → IsExclusive c rows → IsSole (held c d rows)
IsSole-held c d rows h e =
    ground (arith, h d, any-active_rows c d rows, length-active_rows c d rows)

supersede-IsSole :
    (c now d e : String) (rows : List Reservation)
    → IsExclusive c rows
    → IsSole (held c e (supersede_stale c now d rows))
supersede-IsSole c now d e rows h = elim (Bool-cases (str_eq e d)) [
  | inl same ↦
      let p : e ≡ d = (eq_iff e d).0 same in
      rw (p, held-supersede_self c now d rows) (IsSole-held c d rows h)
  | inr other ↦ rw (held-supersede_ne c now d e rows other) (λ p. cc)
]

exclusive_in-append :
    (x : Reservation) (rows : List Reservation)
    → exclusive_in (rows ++ x ∷ []) ≡ (exclusive_in rows || x.exclusive)
exclusive_in-append x [] = ground arith
exclusive_in-append x (r ∷ rows) = ground (arith, exclusive_in-append x rows)

append-IsSole :
    (x : Reservation) (rows : List Reservation)
    → exclusive_in rows ≡ false
    → (x.exclusive ≡ true → rows ≡ [])
    → IsSole (rows ++ x ∷ [])
append-IsSole x [] plain first e = refl
append-IsSole x (r ∷ rows) plain first e = ground (arith, exclusive_in-append x (r ∷ rows), first)

nil_of_flag {ℓ} :
    {A : Type ℓ} (xs : List A) → elim xs [ [] ↦ true | _ ∷ _ ↦ false ] ≡ true → xs ≡ []
nil_of_flag [] e = refl
nil_of_flag (x ∷ xs) e = cc

nil_of_length {ℓ} : {A : Type ℓ} (xs ys : List A) → length xs ≡ length ys → xs ≡ [] → ys ≡ []
nil_of_length xs [] e h = refl
nil_of_length xs (y ∷ ys) e h = ground arith

module _ (c : String) where
  admit-IsSole :
      (id d : String) (costs : Dict ℕ) (q : Request) (now : String) (rows : List Reservation)
      (e : String)
      → ((e : String) → IsSole (held c e rows))
      → IsSole (held c e (admit c id d costs q now rows).1)
  unfolding admit summary new_row
  admit-IsSole id d costs q now rows e h p = ground (
    arith,
    h e,
    any-entries (active_rows c d rows),
    any-active_rows c d rows,
    length-active_rows c d rows,
    nil_of_flag (active_rows c d rows),
    nil_of_length (active_rows c d rows) (held c d rows),
    held-append_new c id d e costs q now rows,
    eq_iff d e,
    append-IsSole (new_row c id d costs q now) (held c d rows),
  )

  IsExclusive-of :
      (rows : List Reservation) → ((e : String) → IsSole (held c e rows)) → IsExclusive c rows
  IsExclusive-of rows h d e =
      ground (arith, h d, any-active_rows c d rows, length-active_rows c d rows)

  transaction-IsSole :
      (id d : String) (costs : Dict ℕ) (q : Request) (now later : String) (rows : List Reservation)
      (e : String)
      → IsExclusive c rows
      → IsSole (held c e (transaction c id d costs q now later rows).1)
  unfolding transaction
  transaction-IsSole id d costs q now later rows e h p =
      let kept : (f : String) → IsSole (held c f (supersede_stale c now d rows)) =
        λ f. supersede-IsSole c now d f rows h in
      ground (arith, kept e, admit-IsSole id d costs q later (supersede_stale c now d rows) e kept)

  -- A reservation keeps, for every save, that an active exclusive reservation is the only active one.
  pub reserve-IsExclusive :
      (q : Request) (now later : String) (rows : List Reservation)
      → IsExclusive c rows
      → IsExclusive c (reserve c q now later rows).1
  unfolding reserve
  reserve-IsExclusive q now later rows h =
      let id = strip q.reservation_id in
      let d = strip q.source_save_sha256 in
      let costs = normalized_amounts q.costs in
      let done =
        commit-keeps (IsExclusive c) rows (transaction c id d costs q now later rows) h
          (IsExclusive-of _ (λ e. transaction-IsSole id d costs q now later rows e h)) in
      elim (Bool-cases (str_eq id "" || str_eq d "")) [
        | inl bad ↦ rw bad h
        | inr good ↦
            elim (Bool-cases (elim costs [ [] ↦ true | _ ∷ _ ↦ false ] && not q.exclusive)) [
              | inl nothing ↦ rw (good, nothing) h
              | inr spends ↦ rw (good, spends) done
            ]
      ]

  held-release :
      (d id now : String) (rows : List Reservation)
      → let after = held c d (release c id now rows) in
        let before = held c d rows in
        (length after ≤ length before) × (exclusive_in after ≡ true → exclusive_in before ≡ true)
  unfolding release
  held-release d id now [] = (omega arith, λ e. e)
  held-release d id now (row ∷ rows) = ground (arith, held-release d id now rows)

  length-of_exclusive : (rows : List Reservation) → exclusive_in rows ≡ true → 1 ≤ length rows
  length-of_exclusive [] e = cc
  length-of_exclusive (r ∷ rows) e = omega arith

  -- If for every save an active exclusive reservation is the only active one, then that is so after a
  -- release.
  pub release-IsExclusive :
      (id now : String) (rows : List Reservation)
      → IsExclusive c rows
      → IsExclusive c (release c id now rows)
  release-IsExclusive id now rows h = IsExclusive-of _ λ d e. omega (
    arith,
    IsSole-held c d rows h ((held-release d id now rows).1 e),
    (held-release d id now rows).0,
    length-of_exclusive (held c d (release c id now rows)) e,
  )
