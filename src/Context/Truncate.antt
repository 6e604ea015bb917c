-- ===== src/Context/Truncate.antt =====
-- The binary search of `_truncate_to_tokens` finds the longest prefix that fits.
use imperial_auto_governor.Common.{
  ℕ, zero, suc, ◌+◌, ◌-◌, ◌/◌, ◌≤◌, ◌<◌, ◌≡◌, refl, sym, subst, Bool, true, false, List, [], ◌∷◌,
  arith, length, take, leb, ltb, Bool-cases, inl, inr,
}
use imperial_auto_governor.Context.{
  count, is_cjk, is_other, is_blank, estimate_text_tokens, search_length, fits_in, kept_length,
}

-- A length up to a bound that fits, while no greater one does.
pub record IsLongest (fits : ℕ → Bool) (bound n : ℕ) : Type 0 where
  pub within : n ≤ bound
  pub enough : fits n ≡ true
  pub greatest : (i : ℕ) → n < i → i ≤ bound → fits i ≡ false

both : (b : Bool) → b ≡ true → b ≡ false → ⊥
both b t f = cc

module _ (fits : ℕ → Bool) (bound : ℕ)
    (falls : (i j : ℕ) → i ≤ j → fits j ≡ true → fits i ≡ true) where
  no_longer : (i j : ℕ) → i ≤ j → fits i ≡ false → fits j ≡ false
  no_longer i j below h = elim (Bool-cases (fits j)) [
    | inl e ↦ absurd (both (fits i) (falls i j below e) h)
    | inr e ↦ e
  ]

  search_stops :
      (fuel low high : ℕ) → ltb low high ≡ false → search_length fits (suc fuel) low high ≡ low
  unfolding search_length
  search_stops fuel low high e = simp (e, search_length)

  search_rises :
      (fuel low high : ℕ)
      → ltb low high ≡ true
      → fits ((low + high + 1) / 2) ≡ true
      → search_length fits (suc fuel) low high ≡ search_length fits fuel ((low + high + 1) / 2) high
  unfolding search_length
  search_rises fuel low high e f = simp (e, f, search_length)

  search_falls :
      (fuel low high : ℕ)
      → ltb low high ≡ true
      → fits ((low + high + 1) / 2) ≡ false
      → search_length fits (suc fuel) low high
        ≡ search_length fits fuel low ((low + high + 1) / 2 - 1)
  unfolding search_length
  search_falls fuel low high e f = simp (e, f, search_length)

  search_length-zero : (low high : ℕ) → search_length fits zero low high ≡ low
  unfolding search_length
  search_length-zero low high = refl

  search_length-IsLongest :
      (fuel low high : ℕ)
      → low ≤ high
      → high ≤ bound
      → high ≤ low + fuel
      → fits low ≡ true
      → ((i : ℕ) → high < i → i ≤ bound → fits i ≡ false)
      → IsLongest fits bound (search_length fits fuel low high)
  search_length-IsLongest zero low high order room fuel_enough fit beyond =
      subst (IsLongest fits bound) (sym (search_length-zero low high)) (record {
        within = omega arith;
        enough = fit;
        greatest = λ i h b. beyond i (omega arith) b;
      })
  search_length-IsLongest (suc fuel) low high order room fuel_enough fit beyond =
      elim (Bool-cases (ltb low high)) [
        | inr e ↦
            let same : high ≤ low = ground arith in
            subst (IsLongest fits bound) (sym (search_stops fuel low high e)) (record {
              within = omega arith;
              enough = fit;
              greatest = λ i h b. beyond i (omega arith) b;
            })
        | inl e ↦
            let middle = (low + high + 1) / 2 in
            let above : low < high = ground arith in
            elim (Bool-cases (fits middle)) [
              | inl f ↦ subst (IsLongest fits bound) (sym (search_rises fuel low high e f)) (
                  search_length-IsLongest fuel middle high (omega arith) room (omega arith) f
                    beyond)
              | inr f ↦ subst (IsLongest fits bound) (sym (search_falls fuel low high e f)) (
                  search_length-IsLongest fuel low (middle - 1) (omega arith) (omega arith)
                    (omega arith) fit (λ i h b. no_longer middle i (omega arith) f))
            ]
      ]

count-take :
    (p : ℕ → Bool) (i j : ℕ) (text : List ℕ) → i ≤ j → count p (take i text) ≤ count p (take j text)
unfolding count
count-take p zero j text h = omega arith
count-take p (suc i) zero text h = absurd (ground arith)
count-take p (suc i) (suc j) [] h = omega arith
count-take p (suc i) (suc j) (c ∷ cs) h = omega (arith, count-take p i j cs (omega arith))

-- A longer prefix has at least the tokens of a shorter one.
estimate-take :
    (i j : ℕ) (text : List ℕ)
    → i ≤ j
    → estimate_text_tokens (take i text) ≤ estimate_text_tokens (take j text)
unfolding estimate_text_tokens
estimate-take zero j text h = omega arith
estimate-take (suc i) zero text h = absurd (ground arith)
estimate-take (suc i) (suc j) [] h = omega arith
estimate-take (suc i) (suc j) (c ∷ cs) h = omega (
  arith,
  count-take is_cjk (suc i) (suc j) (c ∷ cs) h,
  count-take is_other (suc i) (suc j) (c ∷ cs) h,
  count-take is_blank (suc i) (suc j) (c ∷ cs) h,
)

leb_falls : (a b m : ℕ) → a ≤ b → leb b m ≡ true → leb a m ≡ true
leb_falls a b m h e = ground arith

estimate-nil : (maximum : ℕ) → leb (estimate_text_tokens []) maximum ≡ true
unfolding estimate_text_tokens
estimate-nil maximum = ground arith

-- The prefix that `_truncate_to_tokens` keeps is the longest one whose estimate is within the budget: the
-- estimate grows with the prefix, and as many steps as the text has code points are enough.
pub kept_length-IsLongest :
    (maximum : ℕ) (text : List ℕ)
    → IsLongest (fits_in maximum text) (length text) (kept_length maximum text)
unfolding kept_length
kept_length-IsLongest maximum text =
    search_length-IsLongest (fits_in maximum text) (length text)
      (λ i j below fit.
        leb_falls (estimate_text_tokens (take i text)) (estimate_text_tokens (take j text)) maximum
          (estimate-take i j text below) fit)
      (length text) 0 (length text) (omega arith) (omega arith) (omega arith) (estimate-nil maximum)
      (λ i above within. absurd (omega arith))
