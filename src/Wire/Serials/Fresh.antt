-- ===== src/Wire/Serials/Fresh.antt =====
-- The serial of an inserted command is above those that were seen.
use imperial_auto_governor.Common.{
  ℕ, ap, ◌+◌, ◌≤◌, ◌<◌, ◌≡◌, refl, Bool, true, false, ◌&&◌, List, [], ◌∷◌, ◌++◌, arith, ◌==◌,
  if◌then◌else◌, In, inl, inr, Bool-cases,
}
use imperial_auto_governor.Flow.{outbound}
use imperial_auto_governor.Stream.{Bytes, is_reliable_packet}
use imperial_auto_governor.Wire.{done}
use imperial_auto_governor.Wire.Serials.{
  Sender, Serials, Observed, same_sender, is_outbound, put_last, outbound_serials, max_default,
  previous_serial, next_actor_serial, put_observed, observe_command_serials,
}

max_default-bounds : (floor : ℕ) (ns : List ℕ) (n : ℕ) → In n ns → n ≤ max_default floor ns
unfolding max_default
max_default-bounds floor [] n h = elim h [ ]
max_default-bounds floor (m ∷ []) n (inl same) = ground arith
max_default-bounds floor (m ∷ []) n (inr below) = elim below [ ]
max_default-bounds floor (m ∷ k ∷ rest) n (inl same) = ground arith
max_default-bounds floor (m ∷ k ∷ rest) n (inr below) =
    ground (arith, max_default-bounds floor (k ∷ rest) n below)

-- What `next_actor_serial` returns, or why it raises.
next_cases :
    (last : Serials) (actor floor reserved synthetic n : ℕ)
    → next_actor_serial last actor floor reserved synthetic ≡ done n
    → (n ≡ previous_serial last actor floor reserved synthetic + 1)
      × (previous_serial last actor floor reserved synthetic < 0xffffffff)
unfolding next_actor_serial
next_cases last actor floor reserved synthetic n h = ground arith

next_above :
    (last : Serials) (actor floor reserved synthetic n : ℕ)
    → next_actor_serial last actor floor reserved synthetic ≡ done n
    → (m : ℕ) → In m (outbound_serials actor last)
    → m + reserved < n
unfolding previous_serial
next_above last actor floor reserved synthetic n h m below =
    let (value, small) = next_cases last actor floor reserved synthetic n h in
    ground (arith, max_default-bounds floor (outbound_serials actor last) m below)

In-first : (b : Bool) (n : ℕ) (later : List ℕ) → b ≡ true → In n (if b then n ∷ later else later)
In-first true n later h = inl refl
In-first false n later h = cc

In-later :
    (b : Bool) (m n : ℕ) (later : List ℕ) → In n later → In n (if b then m ∷ later else later)
In-later true m n later h = inr h
In-later false m n later h = h

own_serial :
    (s t : Sender)
    → same_sender t s ≡ true
    → s.direction ≡ outbound
    → (is_outbound t.direction && t.actor == s.actor) ≡ true
own_serial s t same out = ground arith

outbound_serials-In :
    (last : Serials) (s : Sender) (m : ℕ)
    → In (s, m) last
    → s.direction ≡ outbound
    → In m (outbound_serials s.actor last)
unfolding outbound_serials
outbound_serials-In [] s m h out = elim h [ ]
outbound_serials-In ((t, n) ∷ rest) s m (inl same) out =
    let number : n ≡ m = ap (λ (p : Sender × ℕ). p.1) same in
    let sender : t ≡ s = ap (λ (p : Sender × ℕ). p.0) same in
    rw (number, sender)
      (In-first (is_outbound s.direction && s.actor == s.actor) m (outbound_serials s.actor rest)
        (ground arith))
outbound_serials-In ((t, n) ∷ rest) s m (inr below) out =
    In-later (is_outbound t.direction && t.actor == s.actor) n m (outbound_serials s.actor rest)
      (outbound_serials-In rest s m below out)

-- The serial that `next_actor_serial` returns is above every outbound serial that `last_serials` holds for
-- the actor, whatever its origin, by more than the reserved ones, above the floor and the last synthetic
-- serial, and it fits into 32 bits.
pub next_actor_serial_fresh :
    (last : Serials) (actor floor reserved synthetic n : ℕ)
    → next_actor_serial last actor floor reserved synthetic ≡ done n
    → ((s : Sender) (m : ℕ)
        → In (s, m) last
        → s.direction ≡ outbound
        → s.actor ≡ actor
        → m + reserved < n)
      × (floor < n)
      × (synthetic < n)
      × (n ≤ 0xffffffff)
unfolding previous_serial
next_actor_serial_fresh last actor floor reserved synthetic n h =
    let (value, small) = next_cases last actor floor reserved synthetic n h in
    (
      λ s m there out own.
          next_above last actor floor reserved synthetic n h m
            (rw (← own) (outbound_serials-In last s m there out)),
      ground arith,
      ground arith,
      ground arith,
    )

put_last-In :
    (s : Sender) (n : ℕ) (last : Serials)
    → s.direction ≡ outbound
    → In n (outbound_serials s.actor (put_last s n last))
unfolding put_last outbound_serials
put_last-In s n [] out =
    In-first (is_outbound s.direction && s.actor == s.actor) n [] (ground arith)
put_last-In s n ((t, m) ∷ rest) out = elim (Bool-cases (same_sender t s)) [
  | inl e ↦ rw e (
      In-first (is_outbound t.direction && t.actor == s.actor) n (outbound_serials s.actor rest)
        (own_serial s t e out))
  | inr e ↦
      rw e
        (In-later (is_outbound t.direction && t.actor == s.actor) m n _ (put_last-In s n rest out))
]

put_observed-In :
    (front : List Observed) (o : Observed) (last : Serials)
    → In o.serial (outbound_serials o.actor (put_observed outbound (front ++ o ∷ []) last))
unfolding put_observed
put_observed-In [] o last =
    put_last-In (record { direction = outbound; actor = o.actor; origin = o.origin }) o.serial last
      refl
put_observed-In (p ∷ front) o last = put_observed-In front o (put_last _ p.serial last)

append_not_nil :
    (front : List Observed) (o : Observed) → ◌≡◌ {A = List Observed} [] (front ++ o ∷ []) → ⊥
append_not_nil [] o h = cc
append_not_nil (p ∷ front) o h = cc

observe_put :
    (payload : Bytes) (last after : Serials) (front : List Observed) (o : Observed)
    → observe_command_serials payload outbound last ≡ (front ++ o ∷ [], after)
    → after ≡ put_observed outbound (front ++ o ∷ []) last
unfolding observe_command_serials
observe_put payload last after front o h = elim (Bool-cases (is_reliable_packet payload)) [
  | inr e ↦ absurd (append_not_nil front o (ground arith))
  | inl e ↦ ground arith
]

-- If the last command that is seen in an outbound packet is of the actor, then the next serial for the
-- actor is above that command's by more than the reserved ones.
pub next_actor_serial-observe :
    (payload : Bytes) (last after : Serials) (front : List Observed) (o : Observed)
    (floor reserved synthetic n : ℕ)
    → observe_command_serials payload outbound last ≡ (front ++ o ∷ [], after)
    → next_actor_serial after o.actor floor reserved synthetic ≡ done n
    → o.serial + reserved < n
next_actor_serial-observe payload last after front o floor reserved synthetic n seen next =
    let same = observe_put payload last after front o seen in
    next_above after o.actor floor reserved synthetic n next o.serial
      (rw same (put_observed-In front o last))
