-- ===== src/Context/Tests.antt =====
-- A text of twelve characters, and four segments of which the newest does not fit.
use imperial_auto_governor.Common.{ℕ, ◌≡◌, refl, List, [], ◌∷◌}
use imperial_auto_governor.Context.{
  estimate_text_tokens, kept_length, fits_in, truncate_to_tokens, choose, choose_recent,
}
use imperial_auto_governor.Context.Choice.{IsChosen, choose_all-IsChosen}
use imperial_auto_governor.Context.Truncate.{IsLongest, kept_length-IsLongest}

evaluated : Unit {0}
unfolding estimate_text_tokens kept_length truncate_to_tokens choose choose_recent
evaluated = tt

abbrev text : List ℕ
text = 32 ∷ 0x4e2d ∷ 0x6587 ∷ 97 ∷ 98 ∷ 99 ∷ 100 ∷ 101 ∷ 32 ∷ 102 ∷ 0x4e2d ∷ 32 ∷ []

estimated : estimate_text_tokens text ≡ 6
unfolding evaluated
estimated = refl

kept : kept_length 4 text ≡ 6
unfolding evaluated
kept = refl

truncated : truncate_to_tokens (33 ∷ []) 4 text ≡ 32 ∷ 0x4e2d ∷ 0x6587 ∷ 97 ∷ 98 ∷ 99 ∷ 33 ∷ []
unfolding evaluated
truncated = refl

whole :
    truncate_to_tokens (33 ∷ []) 6 text
    ≡ 0x4e2d ∷ 0x6587 ∷ 97 ∷ 98 ∷ 99 ∷ 100 ∷ 101 ∷ 32 ∷ 102 ∷ 0x4e2d ∷ []
unfolding evaluated
whole = refl

abbrev cost : ℕ → ℕ
cost n = n

chosen : choose cost 10 100 (95 ∷ 40 ∷ 30 ∷ 25 ∷ []) [] 0 ≡ 40 ∷ 30 ∷ []
unfolding evaluated
chosen = refl

recent : choose_recent cost 2 50 (40 ∷ 30 ∷ 25 ∷ []) [] 0 ≡ 40 ∷ 30 ∷ []
unfolding evaluated
recent = refl

kept_length-IsLongest_example : IsLongest (fits_in 4 text) 12 (kept_length 4 text)
kept_length-IsLongest_example = kept_length-IsLongest 4 text

choose_all-IsChosen_example :
    IsChosen cost 10 100 (95 ∷ 40 ∷ 30 ∷ 25 ∷ []) (choose cost 10 100 (95 ∷ 40 ∷ 30 ∷ 25 ∷ []) [] 0)
choose_all-IsChosen_example = choose_all-IsChosen cost 10 100 (95 ∷ 40 ∷ 30 ∷ 25 ∷ [])
