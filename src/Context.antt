-- ===== src/Context.antt =====
-- src/iag/core/context_window.py: the estimate of tokens, the truncation of a summary and the choice of
-- the segments that are replayed. A text is the list of its code points.
pub mod Choice
pub mod Truncate
mod Tests
use imperial_auto_governor.Common.{
  ℕ, zero, suc, ◌+◌, ◌-◌, ◌*◌, ◌/◌, Bool, true, false, not, ◌&&◌, ◌||◌, List, [], ◌∷◌, ◌++◌, leb,
  ltb, ◌==◌, if◌then◌else◌, length, take, max, select,
}
use imperial_auto_governor.Common.Text.{is_space}

-- CJK_RE
unfoldable pub is_cjk : ℕ → Bool
is_cjk c =
    (leb 0x3400 c && leb c 0x4dbf)
    || ((leb 0x4e00 c && leb c 0x9fff)
        || ((leb 0xf900 c && leb c 0xfaff)
            || ((leb 0x3040 c && leb c 0x30ff) || (leb 0xac00 c && leb c 0xd7af))))

-- How many code points pass a test.
unfoldable pub count : (ℕ → Bool) → List ℕ → ℕ
count p [] = 0
count p (c ∷ cs) = (if p c then 1 else 0) + count p cs

abbrev pub is_other : ℕ → Bool
is_other c = not (is_cjk c) && not (is_space c)

abbrev pub is_blank : ℕ → Bool
is_blank c = not (is_cjk c) && is_space c

-- `estimate_text_tokens` of a text, where `ceil(n / 3.5)` is the ceiling of 2 n / 7.
unfoldable pub estimate_text_tokens : List ℕ → ℕ
unfolding count is_cjk is_space
estimate_text_tokens [] = 0
estimate_text_tokens (c ∷ cs) = max 1 (
    count is_cjk (c ∷ cs)
    + (2 * count is_other (c ∷ cs) + 6) / 7
    + (count is_blank (c ∷ cs) + 11) / 12)

-- The binary search of `_truncate_to_tokens`, between a length that fits and one that is large enough.
unfoldable pub search_length : (ℕ → Bool) → ℕ → ℕ → ℕ → ℕ
search_length fits zero low high = low
search_length fits (suc fuel) low high =
    let middle = (low + high + 1) / 2 in
    elim (ltb low high) [
      | false ↦ low
      | true ↦ elim (fits middle) [
        | true ↦ search_length fits fuel middle high
        | false ↦ search_length fits fuel low (middle - 1)
      ]
    ]

abbrev pub fits_in : ℕ → List ℕ → ℕ → Bool
fits_in maximum text n = leb (estimate_text_tokens (take n text)) maximum

-- The length of the prefix that is kept.
unfoldable pub kept_length : ℕ → List ℕ → ℕ
unfolding search_length estimate_text_tokens
kept_length maximum text = search_length (fits_in maximum text) (length text) 0 (length text)

unfoldable pub lstrip_points : List ℕ → List ℕ
unfolding is_space
lstrip_points [] = []
lstrip_points (c ∷ cs) = let rest = lstrip_points cs in if is_space c then rest else c ∷ cs

abbrev pub before_stripped : ℕ → List ℕ → List ℕ
before_stripped c [] = if is_space c then [] else c ∷ []
before_stripped c (d ∷ ds) = c ∷ d ∷ ds

unfoldable pub rstrip_points : List ℕ → List ℕ
unfolding is_space
rstrip_points [] = []
rstrip_points (c ∷ cs) = before_stripped c (rstrip_points cs)

-- `_truncate_to_tokens`, with the note that the source appends.
unfoldable pub truncate_to_tokens : List ℕ → ℕ → List ℕ → List ℕ
unfolding kept_length estimate_text_tokens lstrip_points rstrip_points
truncate_to_tokens note maximum text =
    if leb (estimate_text_tokens text) maximum
    then rstrip_points (lstrip_points text)
    else rstrip_points (take (kept_length maximum text) text) ++ note

module _ {A : Type 0} (cost : A → ℕ) where
  -- The last loop of `build_context_messages`, on the segments from the newest on: what is selected, in
  -- that order. Nothing is selected before the first segment that fits.
  unfoldable pub choose : ℕ → ℕ → List A → List A → ℕ → List A
  choose base usable [] selected tokens = selected
  choose base usable (s ∷ rest) [] tokens = elim (leb (base + cost s) usable) [
    | true ↦ choose base usable rest (s ∷ []) (tokens + cost s)
    | false ↦ choose base usable rest [] tokens
  ]
  choose base usable (s ∷ rest) (d ∷ ds) tokens = elim (leb (base + tokens + cost s) usable) [
    | true ↦ choose base usable rest ((d ∷ ds) ++ s ∷ []) (tokens + cost s)
    | false ↦ d ∷ ds
  ]

  -- The first loop, which takes a number of segments in any case, and further ones within a budget.
  unfoldable pub choose_recent : ℕ → ℕ → List A → List A → ℕ → List A
  choose_recent minimum budget [] recent tokens = recent
  choose_recent minimum budget (s ∷ rest) recent tokens =
      elim (leb minimum (length recent) && ltb budget (tokens + cost s)) [
        | true ↦ recent
        | false ↦ choose_recent minimum budget rest (recent ++ s ∷ []) (tokens + cost s)
      ]

  -- The cost of a list of segments.
  unfoldable pub total : List A → ℕ
  total [] = 0
  total (s ∷ ss) = cost s + total ss
