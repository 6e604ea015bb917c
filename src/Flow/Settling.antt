-- ===== src/Flow/Settling.antt =====
-- A flow that stays the only eligible one is locked after the settling time.
use imperial_auto_governor.Common.{
  leb, sym, subst, ℕ, ◌+◌, ◌≤◌, ◌≡◌, refl, ap, ◌∙◌, true, false, none, some, List, [], ◌∷◌, All,
  ◌⊎◌, inl, inr, Bool-cases, eq_refl, arith, select,
}
use imperial_auto_governor.Flow.{FlowKey, same_key, is_direct}
use imperial_auto_governor.Flow.Discovery.{
  FlowDiscovery, lock, same_provisional, eligible_candidates, fallback_candidates, only, keys_of,
  consider_unique, consider_lock,
}
use imperial_auto_governor.Flow.Lock.{SameEvidence, consider_lock-SameEvidence}

eligible-SameEvidence :
    (now : ℕ) (d d' : FlowDiscovery)
    → SameEvidence d d'
    → (eligible_candidates now d' ≡ eligible_candidates now d)
      × (fallback_candidates now d' ≡ fallback_candidates now d)
unfolding eligible_candidates fallback_candidates
eligible-SameEvidence now d d' same = (
  rw (same.candidates, same.minimum, same.window) refl,
  rw (same.candidates, same.settle, same.window) refl,
)

consider_lock_unique :
    (now : ℕ) (d : FlowDiscovery) (k : FlowKey)
    → keys_of (eligible_candidates now d) ≡ k ∷ []
    → is_direct k.route ≡ false
    → only (fallback_candidates now d) ≡ none
    → consider_lock now d ≡ consider_unique now (some k) d
unfolding consider_lock
consider_lock_unique now d k unique brokered none_now =
    let no_direct : only
          (select (λ (j : FlowKey). is_direct j.route) (keys_of (eligible_candidates now d)))
        ≡ none =
      ap (λ ks. only (select (λ (j : FlowKey). is_direct j.route) ks)) unique ∙ rw brokered refl in
    let one : only (keys_of (eligible_candidates now d)) ≡ some k = ap only unique in ground arith

same_key_refl : (k : FlowKey) → same_key k k ≡ true
unfolding same_key
same_key_refl k = ground (arith, eq_refl k.local_ip, eq_refl k.host_ip)

-- Considerations at several times.
unfoldable pub consider_each : List ℕ → FlowDiscovery → FlowDiscovery
unfolding consider_lock
consider_each [] d = d
consider_each (t ∷ ts) d = consider_each ts (consider_lock t d)

-- At a time, a flow is the only eligible candidate, and no direct fallback decides.
pub record IsSole (d : FlowDiscovery) (k : FlowKey) (now : ℕ) : Type 0 where
  pub eligible : keys_of (eligible_candidates now d) ≡ k ∷ []
  pub no_fallback : only (fallback_candidates now d) ≡ none

nothing_changed : (d : FlowDiscovery) → SameEvidence d d
nothing_changed d = record { candidates = refl; minimum = refl; window = refl; settle = refl }

SameEvidence-trans :
    (d e f : FlowDiscovery) → SameEvidence d e → SameEvidence e f → SameEvidence d f
SameEvidence-trans d e f h g = record {
  candidates = g.candidates ∙ h.candidates;
  minimum = g.minimum ∙ h.minimum;
  window = g.window ∙ h.window;
  settle = g.settle ∙ h.settle;
}

-- The flow is locked, or it is the provisional one since a time that is not later than `first`.
abbrev Waits : ℕ → FlowKey → FlowDiscovery → Type 0
Waits first k d =
    (d.locked ≡ some k)
    ⊎ ((same_provisional d.provisional k ≡ true) × (d.provisional_since ≤ first))

begins :
    (now : ℕ) (d : FlowDiscovery) (k : FlowKey)
    → d.provisional_since ≤ now
    → Waits now k (consider_unique now (some k) d)
unfolding consider_unique lock
begins now d k since = elim (Bool-cases (same_provisional d.provisional k)) [
  | inr e ↦ rw e (inr (same_key_refl k, omega arith))
  | inl e ↦ elim (Bool-cases (leb (d.provisional_since + d.relay_settle) now)) [
    | inl f ↦ rw (e, f) (inl refl)
    | inr f ↦ rw (e, f) (inr (e, since))
  ]
]

-- A lock of the flow stays.
locked_stays :
    (now : ℕ) (d : FlowDiscovery) (k : FlowKey)
    → d.locked ≡ some k
    → (consider_unique now (some k) d).locked ≡ some k
unfolding consider_unique lock
locked_stays now d k h = elim (Bool-cases (same_provisional d.provisional k)) [
  | inr e ↦ rw e h
  | inl e ↦ elim (Bool-cases (leb (d.provisional_since + d.relay_settle) now)) [
    | inl f ↦ rw (e, f) refl
    | inr f ↦ rw (e, f) h
  ]
]

kept_waiting :
    (first now : ℕ) (d : FlowDiscovery) (k : FlowKey)
    → Waits first k d
    → Waits first k (consider_unique now (some k) d)
unfolding consider_unique lock
kept_waiting first now d k (inl h) = inl (locked_stays now d k h)
kept_waiting first now d k (inr (e, since)) =
    elim (Bool-cases (leb (d.provisional_since + d.relay_settle) now)) [
      | inl f ↦ rw (e, f) (inl refl)
      | inr f ↦ rw (e, f) (inr (e, since))
    ]

settles :
    (first later : ℕ) (d : FlowDiscovery) (k : FlowKey)
    → first + d.relay_settle ≤ later
    → Waits first k d
    → (consider_unique later (some k) d).locked ≡ some k
unfolding consider_unique lock
settles first later d k apart (inl h) = locked_stays later d k h
settles first later d k apart (inr (e, since)) =
    let passed : leb (d.provisional_since + d.relay_settle) later ≡ true = ground arith in
    rw (e, passed) refl

-- A consideration of a state with the same evidence.
considered :
    (now : ℕ) (d d' : FlowDiscovery) (k : FlowKey)
    → is_direct k.route ≡ false
    → SameEvidence d d'
    → IsSole d k now
    → consider_lock now d' ≡ consider_unique now (some k) d'
considered now d d' k brokered same sole =
    let (eligible, fallback) = eligible-SameEvidence now d d' same in
    consider_lock_unique now d' k (ap keys_of eligible ∙ sole.eligible) brokered
      (ap only fallback ∙ sole.no_fallback)

each-Waits :
    (first : ℕ) (ts : List ℕ) (d d' : FlowDiscovery) (k : FlowKey)
    → is_direct k.route ≡ false
    → SameEvidence d d'
    → All (IsSole d k) ts
    → Waits first k d'
    → SameEvidence d (consider_each ts d') × Waits first k (consider_each ts d')
unfolding consider_each
each-Waits first [] d d' k brokered same soles h = (same, h)
each-Waits first (t ∷ ts) d d' k brokered same (sole, soles) h =
    each-Waits first ts d (consider_lock t d') k brokered
      (SameEvidence-trans d d' (consider_lock t d') same (consider_lock-SameEvidence t d')) soles
      (subst (Waits first k) (sym (considered t d d' k brokered same sole))
        (kept_waiting first t d' k h))

-- Let a flow that is not direct be the only eligible candidate, with no direct fallback that decides, at
-- every one of a sequence of considerations between which no packet changes the evidence, and let the last
-- be at least the settling time after the first, at which no provisional flow was set later than that.
-- Then the flow is locked after the last consideration.
pub consider_each-settles :
    (now later : ℕ) (between : List ℕ) (d : FlowDiscovery) (k : FlowKey)
    → IsSole d k now
    → All (IsSole d k) between
    → IsSole d k later
    → is_direct k.route ≡ false
    → d.provisional_since ≤ now
    → now + d.relay_settle ≤ later
    → (consider_lock later (consider_each between (consider_lock now d))).locked ≡ some k
consider_each-settles now later between d k first soles last brokered since apart =
    let d₁ = consider_lock now d in
    let start = considered now d d k brokered (nothing_changed d) first in
    let (same, waits) =
      each-Waits now between d d₁ k brokered (consider_lock-SameEvidence now d) soles
        (subst (Waits now k) (sym start) (begins now d k since)) in
    let d₂ = consider_each between d₁ in
    ap (λ (x : FlowDiscovery). x.locked) (considered later d d₂ k brokered same last)
    ∙ settles now later d₂ k (rw same.settle apart) waits
