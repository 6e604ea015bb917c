-- ===== src/Flow/Lock.antt =====
-- Which flow `FlowDiscovery` locks, when it locks one, and what it never takes back.
use imperial_auto_governor.Common.{
  ℕ, ◌≡◌, ◌≢◌, refl, ap, ◌∙◌, true, Option, none, some, List, [], ◌∷◌, arith, select, In, In-select,
  Option-cases, Bool-cases, ◌⊎◌, inl, inr,
}
use imperial_auto_governor.Flow.{FlowKey, Direction, Platform, Owners, is_direct}
use imperial_auto_governor.Flow.Candidates.{
  FlowEvidence, Candidates, Fallback, is_eligible, fallback_of,
}
use imperial_auto_governor.Flow.Discovery.{
  FlowDiscovery, Observation, lock, eligible_candidates, fallbacks, fallback_candidates, only,
  keys_of, consider_unique, consider_lock, promote, forget_stale, count_packet, observe_flow,
  observe_packet, observe, observe_all, known_flow, new_flow,
}

locked-eq : (j k : FlowKey) → ◌≡◌ {A = Option FlowKey} (some j) (some k) → j ≡ k
locked-eq j k h = cc

only-In : {A : Type 0} (xs : List A) (x : A) → only xs ≡ some x → In x xs
only-In [] x h = cc
only-In (y ∷ []) x h = inl cc
only-In (y ∷ z ∷ xs) x h = cc

In-keys_of : (cs : Candidates) (k : FlowKey) → In k (keys_of cs) → (e : FlowEvidence) × In (k, e) cs
In-keys_of [] k h = elim h [ ]
In-keys_of ((j, e) ∷ cs) k (inl same) = (e, inl (rw same refl))
In-keys_of ((j, e) ∷ cs) k (inr below) = let (f, there) = In-keys_of cs k below in (f, inr there)

In-fallback :
    (o : Option Fallback) (j : FlowKey) (rest : List (FlowKey × Fallback)) (k : FlowKey)
    (f : Fallback)
    → In (k, f) (elim o [ none ↦ rest | some g ↦ (j, g) ∷ rest ])
    → ((j ≡ k) × (o ≡ some f)) ⊎ In (k, f) rest
In-fallback none j rest k f h = inr h
In-fallback (some g) j rest k f (inl same) =
    inl (ap (λ (p : FlowKey × Fallback). p.0) same, ap (λ (p : FlowKey × Fallback). some p.1) same)
In-fallback (some g) j rest k f (inr below) = inr below

In-fallbacks :
    (settle window now : ℕ) (cs : Candidates) (k : FlowKey) (f : Fallback)
    → In (k, f) (fallbacks settle window now cs)
    → (e : FlowEvidence) × In (k, e) cs × (fallback_of settle window now k e ≡ some f)
unfolding fallbacks
In-fallbacks settle window now [] k f h = elim h [ ]
In-fallbacks settle window now ((j, e) ∷ cs) k f h =
    elim (In-fallback (fallback_of settle window now j e) j (fallbacks settle window now cs) k f
      h) [
        | inl (same, found) ↦ (e, inl (rw same refl), rw (← same) found)
        | inr below ↦
            let (e', there, found) = In-fallbacks settle window now cs k f below in
            (e', inr there, found)
      ]

-- The evidence on which a flow is locked automatically.
pub record Justified (now : ℕ) (d : FlowDiscovery) (k : FlowKey) : Type 0 where
  pub evidence : FlowEvidence
  pub observed : In (k, evidence) d.candidates
  pub enough :
      (is_eligible d.minimum_each_direction d.candidate_window now k evidence ≡ true)
      ⊎ ((f : Fallback) × (fallback_of d.relay_settle d.candidate_window now k evidence ≡ some f))

eligible-Justified :
    (now : ℕ) (d : FlowDiscovery) (k : FlowKey)
    → In k (keys_of (eligible_candidates now d))
    → Justified now d k
unfolding eligible_candidates
eligible-Justified now d k h =
    let (e, kept) = In-keys_of (eligible_candidates now d) k h in
    let (there, passes) = In-select _ d.candidates (k, e) kept in
    record { evidence = e; observed = there; enough = inl passes }

fallback-Justified :
    (now : ℕ) (d : FlowDiscovery) (k : FlowKey) (f : Fallback)
    → In (k, f) (fallback_candidates now d)
    → Justified now d k
unfolding fallback_candidates
fallback-Justified now d k f h =
    let (e, there, found) = In-fallbacks d.relay_settle d.candidate_window now d.candidates k f h in
    record { evidence = e; observed = there; enough = inr (f, found) }

consider_unique-locks :
    (now : ℕ) (unique : Option FlowKey) (d : FlowDiscovery) (k : FlowKey)
    → d.locked ≡ none
    → (consider_unique now unique d).locked ≡ some k
    → unique ≡ some k
unfolding consider_unique lock
consider_unique-locks now none d k open_flow h = ground arith
consider_unique-locks now (some j) d k open_flow h = ground arith

consider_lock-Justified :
    (now : ℕ) (d : FlowDiscovery) (k : FlowKey)
    → d.locked ≡ none
    → (consider_lock now d).locked ≡ some k
    → Justified now d k
unfolding consider_lock lock
consider_lock-Justified now d k open_flow h =
    let eligible = keys_of (eligible_candidates now d) in
    elim (Option-cases (only (select (λ (j : FlowKey). is_direct j.route) eligible))) [
      | inr (j, e) ↦
          let same : j ≡ k = locked-eq j k (ground arith) in
          eligible-Justified now d k (rw (← same) (In-select _ eligible j (only-In _ j e)).0)
      | inl e ↦ elim (Option-cases (only (fallback_candidates now d))) [
        | inr ((j, f), g) ↦
            let same : j ≡ k = locked-eq j k (ground arith) in
            rw (← same) (fallback-Justified now d j f (only-In _ (j, f) g))
        | inl g ↦
            eligible-Justified now d k
              (only-In _ k (consider_unique-locks now (only eligible) d k open_flow (ground arith)))
      ]
    ]

count_packet-locked :
    (o : Observation) (k : FlowKey) (dir : Direction) (d : FlowDiscovery)
    → (count_packet o k dir d).locked ≡ d.locked
unfolding count_packet
count_packet-locked o k dir d = refl

promote-locked :
    (k : FlowKey) (owners : Owners) (d : FlowDiscovery) → (promote k owners d).1.locked ≡ d.locked
unfolding promote
promote-locked k owners d = ground arith

pub record SameEvidence (d d' : FlowDiscovery) : Type 0 where
  pub candidates : d'.candidates ≡ d.candidates
  pub minimum : d'.minimum_each_direction ≡ d.minimum_each_direction
  pub settle : d'.relay_settle ≡ d.relay_settle
  pub window : d'.candidate_window ≡ d.candidate_window

pub consider_lock-SameEvidence :
    (now : ℕ) (d : FlowDiscovery) → SameEvidence d (consider_lock now d)
unfolding consider_lock consider_unique lock
consider_lock-SameEvidence now d = record {
  candidates = ground arith;
  minimum = ground arith;
  settle = ground arith;
  window = ground arith;
}

Justified-SameEvidence :
    (now : ℕ) (d d' : FlowDiscovery) (k : FlowKey)
    → SameEvidence d d'
    → Justified now d k
    → Justified now d' k
Justified-SameEvidence now d d' k same j = record {
  evidence = j.evidence;
  observed = rw same.candidates j.observed;
  enough = rw (same.minimum, same.settle, same.window) j.enough;
}

considered-Justified :
    (now : ℕ) (d : FlowDiscovery) (k : FlowKey)
    → d.locked ≡ none
    → (consider_lock now d).locked ≡ some k
    → Justified now (consider_lock now d) k
considered-Justified now d k unlocked h =
    Justified-SameEvidence now d _ k (consider_lock-SameEvidence now d)
      (consider_lock-Justified now d k unlocked h)

none-some : (a : Option FlowKey) (k : FlowKey) → a ≡ none → a ≢ some k
none-some a k e h = cc

observe_flow-Justified :
    (os : Platform) (o : Observation) (key : FlowKey) (dir : Direction) (d : FlowDiscovery)
    (k : FlowKey)
    → d.locked ≡ none
    → (observe_flow os o key dir d).locked ≡ some k
    → Justified o.observed_at (observe_flow os o key dir d) k
unfolding observe_flow forget_stale count_packet
observe_flow-Justified os o key dir d k unlocked h = elim (Bool-cases (os.is_peer key.host_ip)) [
  | inr e ↦ absurd (none-some d.locked k unlocked (ground arith))
  | inl e ↦ rw e (
      considered-Justified o.observed_at (count_packet o key dir (forget_stale o.observed_at key d))
        k unlocked (ground arith))
]

observe_packet-Justified :
    (os : Platform) (o : Observation) (d : FlowDiscovery) (k : FlowKey)
    → d.locked ≡ none
    → (observe_packet os o d).locked ≡ some k
    → Justified o.observed_at (observe_packet os o d) k
unfolding observe_packet
observe_packet-Justified os o d k unlocked h =
    elim (Option-cases (known_flow o.packet d.candidates)) [
      | inr ((key, dir), e) ↦
          let kept = promote-locked key o.owners d in
          let same : observe_packet os o d
              ≡ observe_flow os o (promote key o.owners d).0 dir (promote key o.owners d).1 =
            ground arith in
          rw same (
            observe_flow-Justified os o (promote key o.owners d).0 dir (promote key o.owners d).1 k
              (kept ∙ unlocked) (ground arith))
      | inl e ↦ elim (Option-cases (new_flow os o)) [
        | inr ((key, dir), f) ↦
            let same : observe_packet os o d ≡ observe_flow os o key dir d = ground arith in
            rw same (observe_flow-Justified os o key dir d k unlocked (ground arith))
        | inl f ↦
            let same : observe_packet os o d ≡ consider_lock o.observed_at d = ground arith in
            rw same (considered-Justified o.observed_at d k unlocked (ground arith))
      ]
    ]

-- A flow that `observe` locks is a candidate that it leaves, with evidence that is enough at the time of
-- the packet: packets of both directions within the window and a reliable one, or one of the two bases
-- for a direct flow on a port that the game owns.
pub observe-Justified :
    (os : Platform) (o : Observation) (d : FlowDiscovery) (k : FlowKey)
    → d.locked ≡ none
    → (observe os o d).locked ≡ some k
    → Justified o.observed_at (observe os o d) k
unfolding observe
observe-Justified os o d k unlocked h = elim (Bool-cases o.game_process_present) [
  | inr e ↦ absurd (none-some d.locked k unlocked (ground arith))
  | inl e ↦ elim (Option-cases (consider_lock o.observed_at d).locked) [
    | inr (j, f) ↦
        let same : observe os o d ≡ consider_lock o.observed_at d = ground arith in
        rw same (considered-Justified o.observed_at d k unlocked (ground arith))
    | inl f ↦
        let same : observe os o d ≡ observe_packet os o (consider_lock o.observed_at d) =
          ground arith in
        rw same (observe_packet-Justified os o (consider_lock o.observed_at d) k f (ground arith))
  ]
]

observe-locked :
    (os : Platform) (o : Observation) (d : FlowDiscovery) (k : FlowKey)
    → d.locked ≡ some k
    → observe os o d ≡ d
unfolding observe
observe-locked os o d k h = ground arith

-- A locked flow stays locked, and its candidates stay as they are, whatever is observed then.
pub observe_all-locked :
    (os : Platform) (os' : List Observation) (d : FlowDiscovery) (k : FlowKey)
    → d.locked ≡ some k
    → observe_all os os' d ≡ d
unfolding observe_all
observe_all-locked os [] d k h = refl
observe_all-locked os (o ∷ rest) d k h =
    ap (observe_all os rest) (observe-locked os o d k h) ∙ observe_all-locked os rest d k h
