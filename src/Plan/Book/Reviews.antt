-- ===== src/Plan/Book/Reviews.antt =====
-- The inbox of external reviews: its size, and a review that is queued again.
use imperial_auto_governor.Common.{
  ℕ, zero, suc, ◌-◌, ◌≤◌, String, ◌≡◌, Bool, true, List, [], ◌∷◌, ◌++◌, str_eq, eq_refl, arith, any,
  length, drop, length-append, length-drop, Bool-cases, inl, inr,
}
use imperial_auto_governor.Common.Text.{strip}
use imperial_auto_governor.Plan.Node.{Result, ok}
use imperial_auto_governor.Plan.Book.{
  Book, Review, last_n, record_event, with_review, queue_external_review,
}

any-drop-last :
    (f : Review → Bool) (n : ℕ) (xs : List Review) (x : Review)
    → n ≤ length xs
    → f x ≡ true
    → any f (drop n (xs ++ x ∷ [])) ≡ true
any-drop-last f zero [] x h t = ground arith
any-drop-last f zero (y ∷ ys) x h t = ground (arith, any-drop-last f zero ys x (omega arith) t)
any-drop-last f (suc n) [] x h t = ground arith
any-drop-last f (suc n) (y ∷ ys) x h t = any-drop-last f n ys x (ground arith) t

any-last_n :
    (f : Review → Bool) (xs : List Review) (x : Review)
    → f x ≡ true
    → any f (last_n 20 (xs ++ x ∷ [])) ≡ true
any-last_n f xs x t =
    any-drop-last f (length (xs ++ x ∷ []) - 20) xs x (omega (arith, length-append xs (x ∷ []))) t

length-last_n : (xs : List Review) → length (last_n 20 xs) ≤ 20
length-last_n xs = omega (arith, length-drop (length xs - 20) xs)

book-ok : (a c : Book) → ◌≡◌ {A = Result Book} (ok a) (ok c) → a ≡ c
book-ok a c h = cc

abbrev pub has_review : String → Book → Bool
has_review id b = any (λ (s : Review). str_eq s.review_id id) b.inbox

with_review-inbox :
    (now id : String) (r : Review) (b : Book)
    → (has_review r.review_id (with_review now id r b) ≡ true)
      × (length (with_review now id r b).inbox ≤ 20)
unfolding with_review record_event
with_review-inbox now id r b = (
  any-last_n (λ (s : Review). str_eq s.review_id r.review_id) b.inbox (record r { queued_at = now })
      (eq_refl r.review_id),
  length-last_n (b.inbox ++ record r { queued_at = now } ∷ []),
)

-- A review whose identifier has no white space around it stands in the inbox after a call that queues
-- it; an inbox of at most twenty stays so; and queueing the review again changes nothing.
pub queue_external_review-again :
    (application now now' : String) (r : Review) (b b' : Book)
    → strip r.review_id ≡ r.review_id
    → length b.inbox ≤ 20
    → queue_external_review application now r b ≡ ok b'
    → (has_review r.review_id b' ≡ true)
      × (length b'.inbox ≤ 20)
      × (queue_external_review application now' r b' ≡ ok b')
unfolding queue_external_review
queue_external_review-again application now now' r b b' clean small h =
    elim (Bool-cases (str_eq r.review_id "")) [
      | inl e ↦ ground arith
      | inr e ↦ elim (Bool-cases (str_eq r.application_id application)) [
        | inr f ↦ ground arith
        | inl f ↦ elim (Bool-cases (has_review r.review_id b)) [
          | inl g ↦ let same = book-ok b b' (ground arith) in rw (← same) (g, small, ground arith)
          | inr g ↦
              let same = book-ok (with_review now (strip r.review_id) r b) b' (ground arith) in
              let (there, bounded) = with_review-inbox now (strip r.review_id) r b in
              let found : has_review r.review_id b' ≡ true = rw (← same) there in
              (found, rw (← same) bounded, ground arith)
        ]
      ]
    ]
