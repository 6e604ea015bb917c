-- ===== src/Wire/Serials/Apart.antt =====
-- The command records of a byte range lie apart: the marker does not overlap its first bytes.
use imperial_auto_governor.Common.{
  ℕ, suc, ◌+◌, ◌-◌, ◌≤◌, ◌≡◌, refl, Bool, true, false, Option, none, some, List, [], ◌∷◌, arith,
  All, ◌==◌, if◌then◌else◌,
}
use imperial_auto_governor.Stream.{Bytes, command_marker, starts_with}
use imperial_auto_governor.Stream.Commands.{
  CommandRecord, offsets_of, record_at, records_at, added, find_command_records,
}

-- Numbers from a bound on, each at least four above the one before.
unfoldable AreApart : ℕ → List ℕ → Type 0
AreApart low [] = Unit
AreApart low (n ∷ ns) = (low ≤ n) × AreApart (n + 4) ns

-- Records whose offsets are so.
unfoldable pub IsApart : ℕ → List CommandRecord → Type 0
IsApart low [] = Unit
IsApart low (c ∷ cs) = (low ≤ c.offset) × IsApart (c.offset + 4) cs

lower_kept :
    (b : Bool) (k : ℕ) (ns : List ℕ)
    → All (λ n. suc k ≤ n) ns
    → All (λ n. k ≤ n) (if b then k ∷ ns else ns)
lower_kept b k ns h = kept b (weaker ns h)
  where
    weaker : (ms : List ℕ) → All (λ n. suc k ≤ n) ms → All (λ n. k ≤ n) ms
    weaker [] h' = tt
    weaker (m ∷ ms) (first, h') = (omega arith, weaker ms h')

    kept : (c : Bool) → All (λ n. k ≤ n) ns → All (λ n. k ≤ n) (if c then k ∷ ns else ns)
    kept true h' = (omega arith, h')
    kept false h' = h'

offsets_lower :
    (marker : Bytes) (k : ℕ) (bytes : Bytes) → All (λ n. k ≤ n) (offsets_of marker k bytes)
unfolding offsets_of
offsets_lower marker k [] = tt
offsets_lower marker k (b ∷ bytes) =
    lower_kept (starts_with marker (b ∷ bytes)) k (offsets_of marker (suc k) bytes)
      (offsets_lower marker (suc k) bytes)

-- The marker does not begin at the three bytes behind its first.
delayed :
    (k : ℕ) (b : ℕ) (bytes : Bytes)
    → starts_with command_marker (b ∷ bytes) ≡ true
    → All (λ n. k + 4 ≤ n) (offsets_of command_marker (suc k) bytes)
unfolding starts_with offsets_of
delayed k b [] h = tt
delayed k b (c ∷ []) h = absurd (ground arith)
delayed k b (c ∷ d ∷ []) h = absurd (ground arith)
delayed k b (c ∷ d ∷ e ∷ bytes) h =
    let one : (0xf3 == c) ≡ false = ground arith in
    let two : (0xf3 == d) ≡ false = ground arith in
    let three : (0xf3 == e) ≡ false = ground arith in
    let four : suc (suc (suc (suc k))) ≡ k + 4 = omega arith in
    rw (one, two, three, four) (offsets_lower command_marker (k + 4) bytes)

raised_bound :
    (low high : ℕ) (ns : List ℕ) → AreApart low ns → All (λ n. high ≤ n) ns → AreApart high ns
unfolding AreApart
raised_bound low high [] h above = tt
raised_bound low high (n ∷ ns) (first, h) (own, above) = (own, h)

lowered_bound : (low high : ℕ) (ns : List ℕ) → low ≤ high → AreApart high ns → AreApart low ns
unfolding AreApart
lowered_bound low high [] below h = tt
lowered_bound low high (n ∷ ns) below (first, h) = (omega arith, h)

AreApart-if :
    (b : Bool) (k : ℕ) (ns : List ℕ)
    → (b ≡ true → AreApart (k + 4) ns)
    → AreApart k ns
    → AreApart k (if b then k ∷ ns else ns)
unfolding AreApart
AreApart-if true k ns far near = (omega arith, far refl)
AreApart-if false k ns far near = near

offsets-AreApart : (k : ℕ) (bytes : Bytes) → AreApart k (offsets_of command_marker k bytes)
unfolding offsets_of AreApart
offsets-AreApart k [] = tt
offsets-AreApart k (b ∷ bytes) =
    let rest = offsets_of command_marker (suc k) bytes in
    let next = offsets-AreApart (suc k) bytes in
    AreApart-if (starts_with command_marker (b ∷ bytes)) k rest
      (λ h. raised_bound (suc k) (k + 4) rest next (delayed k b bytes h))
      (lowered_bound k (suc k) rest (omega arith) next)

pub IsApart-low :
    (low high : ℕ) (cs : List CommandRecord) → low ≤ high → IsApart high cs → IsApart low cs
unfolding IsApart
IsApart-low low high [] below h = tt
IsApart-low low high (c ∷ cs) below (first, h) = (omega arith, h)

record_place :
    (bytes : Bytes) (m : ℕ) (c : CommandRecord)
    → record_at bytes m ≡ some c
    → (12 ≤ m) × (c.offset ≡ m - 12)
unfolding record_at
record_place bytes m c h = (ground arith, ground arith)

added-IsApart :
    (found : Option CommandRecord) (cs : List CommandRecord) (low m : ℕ)
    → low ≤ m
    → ((c : CommandRecord) → found ≡ some c → (12 ≤ m) × (c.offset ≡ m - 12))
    → IsApart (m + 4 - 12) cs
    → IsApart (low - 12) (added found cs)
unfolding IsApart
added-IsApart none cs low m below place h = IsApart-low (low - 12) (m + 4 - 12) cs (omega arith) h
added-IsApart (some c) cs low m below place h =
    let (large, at) = place c refl in
    (omega (arith, at), IsApart-low (c.offset + 4) (m + 4 - 12) cs (omega (arith, at)) h)

records-IsApart :
    (bytes : Bytes) (low : ℕ) (ms : List ℕ)
    → AreApart low ms
    → IsApart (low - 12) (records_at bytes ms)
unfolding records_at AreApart IsApart
records-IsApart bytes low [] h = tt
records-IsApart bytes low (m ∷ ms) (first, h) =
    added-IsApart (record_at bytes m) (records_at bytes ms) low m first (record_place bytes m)
      (records-IsApart bytes (m + 4) ms h)

-- The records that `find_command_records` finds come in the order of their offsets, each at least four
-- bytes behind the one before, so that the four bytes of their serials do not overlap.
pub find_command_records-IsApart : (bytes : Bytes) → IsApart 0 (find_command_records bytes)
unfolding find_command_records
find_command_records-IsApart bytes =
    records-IsApart bytes 0 (offsets_of command_marker 0 bytes) (offsets-AreApart 0 bytes)
