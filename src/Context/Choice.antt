-- ===== src/Context/Choice.antt =====
-- The segments that the last loop of `build_context_messages` selects.
use imperial_auto_governor.Common.{
  ℕ, ◌+◌, ◌≤◌, ◌<◌, ◌≡◌, refl, sym, subst, ap, ◌∙◌, ◌⊎◌, inl, inr, true, false, List, [], ◌∷◌, ◌++◌,
  arith, leb, All, Bool-cases,
}
use imperial_auto_governor.Context.{choose, total}

module _ {A : Type 0} (cost : A → ℕ) (base usable : ℕ) where
  -- What is selected of the segments from the newest on: a run of them that fits, behind segments that
  -- do not fit alone, and up to the first one that does not fit any more.
  pub record IsChosen (segments selected : List A) : Type 0 where
    pub skipped : List A
    pub older : List A
    pub order : segments ≡ skipped ++ (selected ++ older)
    pub too_large : All (λ s. usable < base + cost s) skipped
    pub fits : (selected ≡ []) ⊎ (base + total cost selected ≤ usable)
    pub stopped :
        (older ≡ [])
        ⊎ ((next : A) × (rest : List A) × (older ≡ next ∷ rest)
            × (usable < base + total cost selected + cost next))

  total-snoc : (xs : List A) (s : A) → total cost (xs ++ s ∷ []) ≡ total cost xs + cost s
  unfolding total
  total-snoc [] s = omega arith
  total-snoc (x ∷ xs) s = omega (arith, total-snoc xs s)

  one : (s : A) → 0 + cost s ≡ total cost (s ∷ [])
  unfolding total
  one s = omega arith

  snoc-append : (xs : List A) (s : A) (ys : List A) → (xs ++ s ∷ []) ++ ys ≡ xs ++ s ∷ ys
  snoc-append [] s ys = refl
  snoc-append (x ∷ xs) s ys = ap (λ (t : List A). x ∷ t) (snoc-append xs s ys)

  takes :
      (s d : A) (rest ds : List A) (tokens : ℕ)
      → leb (base + tokens + cost s) usable ≡ true
      → choose cost base usable (s ∷ rest) (d ∷ ds) tokens
        ≡ choose cost base usable rest ((d ∷ ds) ++ s ∷ []) (tokens + cost s)
  unfolding choose
  takes s d rest ds tokens e = simp (e, choose)

  breaks :
      (s d : A) (rest ds : List A) (tokens : ℕ)
      → leb (base + tokens + cost s) usable ≡ false
      → choose cost base usable (s ∷ rest) (d ∷ ds) tokens ≡ d ∷ ds
  unfolding choose
  breaks s d rest ds tokens e = simp (e, choose)

  begins :
      (s : A) (rest : List A) (tokens : ℕ)
      → leb (base + cost s) usable ≡ true
      → choose cost base usable (s ∷ rest) [] tokens
        ≡ choose cost base usable rest (s ∷ []) (tokens + cost s)
  unfolding choose
  begins s rest tokens e = simp (e, choose)

  skips :
      (s : A) (rest : List A) (tokens : ℕ)
      → leb (base + cost s) usable ≡ false
      → choose cost base usable (s ∷ rest) [] tokens ≡ choose cost base usable rest [] tokens
  unfolding choose
  skips s rest tokens e = simp (e, choose)

  ends : (selected : List A) (tokens : ℕ) → choose cost base usable [] selected tokens ≡ selected
  unfolding choose
  ends selected tokens = refl

  -- From a segment on that is selected.
  choose-IsChosen :
      (rest : List A) (d : A) (ds : List A) (tokens : ℕ)
      → tokens ≡ total cost (d ∷ ds)
      → base + tokens ≤ usable
      → IsChosen ((d ∷ ds) ++ rest) (choose cost base usable rest (d ∷ ds) tokens)
  choose-IsChosen [] d ds tokens sum room =
      subst (IsChosen ((d ∷ ds) ++ [])) (sym (ends (d ∷ ds) tokens)) (record {
        skipped = [];
        older = [];
        order = refl;
        too_large = tt;
        fits = inr (omega (arith, sum));
        stopped = inl refl;
      })
  choose-IsChosen (s ∷ rest) d ds tokens sum room =
      elim (Bool-cases (leb (base + tokens + cost s) usable)) [
        | inl e ↦ subst (IsChosen ((d ∷ ds) ++ s ∷ rest)) (sym (takes s d rest ds tokens e)) (
            subst
              (λ (xs : List A).
                IsChosen xs (choose cost base usable rest ((d ∷ ds) ++ s ∷ []) (tokens + cost s)))
              (snoc-append (d ∷ ds) s rest)
              (choose-IsChosen rest d (ds ++ s ∷ []) (tokens + cost s)
                (ap (λ n. n + cost s) sum ∙ sym (total-snoc (d ∷ ds) s)) (ground arith)))
        | inr e ↦
            subst (IsChosen ((d ∷ ds) ++ s ∷ rest)) (sym (breaks s d rest ds tokens e)) (record {
              skipped = [];
              older = s ∷ rest;
              order = refl;
              too_large = tt;
              fits = inr (omega (arith, sum));
              stopped = inr (s, rest, refl, ground (arith, sum));
            })
      ]

  skip-IsChosen :
      (s : A) (rest selected : List A)
      → usable < base + cost s
      → IsChosen rest selected
      → IsChosen (s ∷ rest) selected
  skip-IsChosen s rest selected large c = record {
    skipped = s ∷ c.skipped;
    older = c.older;
    order = ap (λ (t : List A). s ∷ t) c.order;
    too_large = (large, c.too_large);
    fits = c.fits;
    stopped = c.stopped;
  }

  -- The segments that the last loop of `build_context_messages` selects fit into what is usable, beside
  -- the base; they are a run of the segments, of which only newer ones that do not fit alone are left out;
  -- and the run ends only where the next segment does not fit any more.
  pub choose_all-IsChosen :
      (segments : List A) → IsChosen segments (choose cost base usable segments [] 0)
  choose_all-IsChosen [] = subst (IsChosen []) (sym (ends [] 0)) (record {
    skipped = [];
    older = [];
    order = refl;
    too_large = tt;
    fits = inl refl;
    stopped = inl refl;
  })
  choose_all-IsChosen (s ∷ rest) = elim (Bool-cases (leb (base + cost s) usable)) [
    | inl e ↦
        subst (IsChosen (s ∷ rest)) (sym (begins s rest 0 e))
          (choose-IsChosen rest s [] (0 + cost s) (one s) (ground arith))
    | inr e ↦
        subst (IsChosen (s ∷ rest)) (sym (skips s rest 0 e))
          (skip-IsChosen s rest _ (ground arith) (choose_all-IsChosen rest))
  ]
