-- ===== src/Stream/Commands/Found.antt =====
-- The search for command records finds what a test at every single place would find.
use imperial_auto_governor.Common.{
  ℕ, zero, suc, ◌+◌, ◌≡◌, refl, Bool, true, false, Option, none, some, List, [], ◌∷◌, drop, In, inl,
  inr, if◌then◌else◌, arith,
}
use imperial_auto_governor.Stream.{Bytes, starts_with, command_marker}
use imperial_auto_governor.Stream.Commands.{CommandRecord, added, record_at, records_at, offsets_of}

In-rest : (b : Bool) (n k : ℕ) (later : List ℕ) → In n later → In n (if b then k ∷ later else later)
In-rest true n k later h = inr h
In-rest false n k later h = h

In-added :
    (found : Option CommandRecord) (r : CommandRecord) (later : List CommandRecord)
    → In r later
    → In r (added found later)
In-added none r later h = h
In-added (some f) r later h = inr h

pub offsets_of-In :
    (m : ℕ) (marker : Bytes) (n k : ℕ) (bytes : Bytes)
    → starts_with (m ∷ marker) (drop n bytes) ≡ true
    → In (k + n) (offsets_of (m ∷ marker) k bytes)
unfolding offsets_of starts_with
offsets_of-In m marker zero k [] h = absurd cc
offsets_of-In m marker (suc n) k [] h = absurd cc
offsets_of-In m marker zero k (b ∷ bytes) h =
    let same : k + 0 ≡ k = omega arith in rw (h, same) (inl refl)
offsets_of-In m marker (suc n) k (b ∷ bytes) h =
    let next : k + suc n ≡ suc k + n = omega arith in
    rw next (
      In-rest (starts_with (m ∷ marker) (b ∷ bytes)) _ k _
        (offsets_of-In m marker n (suc k) bytes h))

pub records_at-In :
    (bytes : Bytes) (ms : List ℕ) (m : ℕ) (r : CommandRecord)
    → In m ms
    → record_at bytes m ≡ some r
    → In r (records_at bytes ms)
unfolding records_at
records_at-In bytes [] m r there h = absurd there
records_at-In bytes (n ∷ ms) m r (inl same) h = rw (same, h) (inl refl)
records_at-In bytes (n ∷ ms) m r (inr there) h =
    In-added (record_at bytes n) r _ (records_at-In bytes ms m r there h)

-- The marker stands at some place, and the record is the one that is read there.
unfoldable pub IsMarked : Bytes → CommandRecord → Type 0
IsMarked bytes c =
    (m : ℕ) × (starts_with command_marker (drop m bytes) ≡ true) × (record_at bytes m ≡ some c)
