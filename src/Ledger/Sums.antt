-- ===== src/Ledger/Sums.antt =====
-- Sums over the rows of the ledger: what the summary's `reserved` holds for one resource.
use imperial_auto_governor.Common.{
  ℕ, suc, ◌+◌, String, ◌≡◌, refl, Bool, Option, none, some, List, [], ◌∷◌, ◌++◌, str_eq, eq_iff,
  if◌then◌else◌, arith, min, ap,
}
use imperial_auto_governor.Common.Int.{pos}
use imperial_auto_governor.Common.Dict.{Dict, lookup, insert, lookup-insert}
use imperial_auto_governor.Common.Text.{sort, insert_ordered}
use imperial_auto_governor.Ledger.Rows.{
  Raw, num, Reservation, amounts_of, as_json, add_costs, reserved_by, get_or_zero,
}

-- A dict has each key once.
abbrev pub IsDict {ℓ} : {V : Type ℓ} → Dict V → Type ℓ
IsDict [] = Unit
IsDict ((k, v) ∷ d) = (lookup k d ≡ none) × IsDict d

-- The dict of an optional argument, as a list to quantify over.
abbrev pub option_list {ℓ} : {A : Type ℓ} → Option A → List A
option_list none = []
option_list (some a) = a ∷ []

abbrev pub sum_for : String → Dict ℕ → ℕ
sum_for r [] = 0
sum_for r ((k, n) ∷ d) = if str_eq k r then n + sum_for r d else sum_for r d

-- What one row reserves of a resource, and whether it reserves any.
abbrev pub cost_of : String → Reservation → ℕ
cost_of r row = sum_for r (amounts_of row.costs_json)

abbrev pub spends : String → Reservation → ℕ
spends r row = min 1 (cost_of r row)

abbrev pub weigh : (Reservation → ℕ) → List Reservation → ℕ
weigh w [] = 0
weigh w (row ∷ rows) = w row + weigh w rows

pub weigh-append :
    (w : Reservation → ℕ) (xs ys : List Reservation) → weigh w (xs ++ ys) ≡ weigh w xs + weigh w ys
weigh-append w [] ys = omega arith
weigh-append w (x ∷ xs) ys = omega (arith, weigh-append w xs ys)

module _ (le : Reservation → Reservation → Bool) (w : Reservation → ℕ) where
  weigh-insert_ordered :
      (x : Reservation) (xs : List Reservation)
      → weigh w (insert_ordered le x xs) ≡ w x + weigh w xs
  unfolding insert_ordered
  weigh-insert_ordered x [] = refl
  weigh-insert_ordered x (y ∷ ys) = ground (arith, weigh-insert_ordered x ys)

  pub weigh-sort : (xs : List Reservation) → weigh w (sort le xs) ≡ weigh w xs
  unfolding sort
  weigh-sort [] = refl
  weigh-sort (x ∷ xs) = omega (arith, weigh-insert_ordered x (sort le xs), weigh-sort xs)

get_or_zero-add_costs :
    (r : String) (d cs : Dict ℕ) → get_or_zero r (add_costs d cs) ≡ get_or_zero r d + sum_for r cs
unfolding add_costs
get_or_zero-add_costs r d [] = omega arith
get_or_zero-add_costs r d ((k, n) ∷ cs) = ground (
  arith,
  get_or_zero-add_costs r (insert k (get_or_zero k d + n) d) cs,
  lookup-insert k r (get_or_zero k d + n) d,
  eq_iff k r,
)

pub get_or_zero-reserved_by :
    (r : String) (d : Dict ℕ) (rows : List Reservation)
    → get_or_zero r (reserved_by d rows) ≡ get_or_zero r d + weigh (cost_of r) rows
unfolding reserved_by
get_or_zero-reserved_by r d [] = omega arith
get_or_zero-reserved_by r d (row ∷ rows) = omega (
  arith,
  get_or_zero-reserved_by r (add_costs d (amounts_of row.costs_json)) rows,
  get_or_zero-add_costs r d (amounts_of row.costs_json),
)

-- Dumping and reading back the amounts that were kept changes nothing.
pub amounts_of-as_json-amounts_of :
    (d : Dict Raw) → amounts_of (as_json (amounts_of d)) ≡ amounts_of d
unfolding amounts_of as_json
amounts_of-as_json-amounts_of [] = refl
amounts_of-as_json-amounts_of ((r, num (pos (suc n))) ∷ d) =
    ap (λ (t : Dict ℕ). (r, suc n) ∷ t) (amounts_of-as_json-amounts_of d)
amounts_of-as_json-amounts_of ((r, _) ∷ d) = amounts_of-as_json-amounts_of d

lookup-amounts_of : (r : String) (d : Dict Raw) → lookup r d ≡ none → lookup r (amounts_of d) ≡ none
unfolding amounts_of
lookup-amounts_of r [] h = refl
lookup-amounts_of r ((k, num (pos (suc n))) ∷ d) h = ground (arith, lookup-amounts_of r d)
lookup-amounts_of r ((k, _) ∷ d) h = ground (arith, lookup-amounts_of r d)

pub amounts_of-IsDict : (d : Dict Raw) → IsDict d → IsDict (amounts_of d)
unfolding amounts_of
amounts_of-IsDict [] h = tt
amounts_of-IsDict ((k, num (pos (suc n))) ∷ d) h =
    (lookup-amounts_of k d h.0, amounts_of-IsDict d h.1)
amounts_of-IsDict ((k, _) ∷ d) h = amounts_of-IsDict d h.1

pub sum_for-absent : (r : String) (d : Dict ℕ) → lookup r d ≡ none → sum_for r d ≡ 0
sum_for-absent r [] h = refl
sum_for-absent r ((k, n) ∷ d) h = ground (arith, sum_for-absent r d)
