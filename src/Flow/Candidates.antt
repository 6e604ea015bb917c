-- ===== src/Flow/Candidates.antt =====
-- src/iag/stellaris/execution/session_proxy.py: the evidence for each candidate flow, in a dict that
-- keeps the order of insertion.
use imperial_auto_governor.Common.{
  ℕ, ◌+◌, Bool, not, ◌&&◌, ◌||◌, Option, none, some, List, [], ◌∷◌, ◌==◌, ltb, leb, if◌then◌else◌,
  select,
}
use imperial_auto_governor.Flow.{
  FlowKey, Direction, outbound, inbound, direct_peer_ip_owned_port, same_key, same_route,
  is_process_owned,
}

pub record FlowEvidence : Type 0 where
  pub outbound_packets : ℕ
  pub inbound_packets : ℕ
  pub reliable_outbound_packets : ℕ
  pub reliable_inbound_packets : ℕ
  pub first_seen : ℕ
  pub last_seen : ℕ
  pub last_outbound_seen : ℕ
  pub last_inbound_seen : ℕ

abbrev pub no_evidence : FlowEvidence
no_evidence = record {
  outbound_packets = 0;
  inbound_packets = 0;
  reliable_outbound_packets = 0;
  reliable_inbound_packets = 0;
  first_seen = 0;
  last_seen = 0;
  last_outbound_seen = 0;
  last_inbound_seen = 0;
}

abbrev pub Candidates : Type 0
Candidates = List (FlowKey × FlowEvidence)

unfoldable pub find_evidence : FlowKey → Candidates → Option FlowEvidence
unfolding same_key
find_evidence k [] = none
find_evidence k ((j, e) ∷ rest) = if same_key j k then some e else find_evidence k rest

unfoldable pub put_evidence : FlowKey → FlowEvidence → Candidates → Candidates
unfolding same_key
put_evidence k e [] = (k, e) ∷ []
put_evidence k e ((j, f) ∷ rest) =
    if same_key j k then (j, e) ∷ rest else (j, f) ∷ put_evidence k e rest

-- `candidates.pop(key)`
unfoldable pub drop_evidence : FlowKey → Candidates → Candidates
unfolding same_key
drop_evidence k cs = select (λ (c : FlowKey × FlowEvidence). not (same_key c.0 k)) cs

abbrev pub max_ℕ : ℕ → ℕ → ℕ
max_ℕ a b = if ltb a b then b else a

-- `observed_at - seen <= window`
abbrev pub within : ℕ → ℕ → ℕ → Bool
within window now seen = leb now (seen + window)

-- The earlier of two times, of which zero is none.
abbrev pub earlier : ℕ → ℕ → ℕ
earlier a b = if a == 0 then b else if b == 0 then a else if ltb b a then b else a

-- The sums that `_promote_direct_candidate` writes into `existing`.
unfoldable pub merged : FlowEvidence → FlowEvidence → FlowEvidence
merged a b = record {
  outbound_packets = a.outbound_packets + b.outbound_packets;
  inbound_packets = a.inbound_packets + b.inbound_packets;
  reliable_outbound_packets = a.reliable_outbound_packets + b.reliable_outbound_packets;
  reliable_inbound_packets = a.reliable_inbound_packets + b.reliable_inbound_packets;
  first_seen = earlier a.first_seen b.first_seen;
  last_seen = max_ℕ a.last_seen b.last_seen;
  last_outbound_seen = max_ℕ a.last_outbound_seen b.last_outbound_seen;
  last_inbound_seen = max_ℕ a.last_inbound_seen b.last_inbound_seen;
}

-- The test of `_eligible_candidates`.
unfoldable pub is_eligible : ℕ → ℕ → ℕ → FlowKey → FlowEvidence → Bool
is_eligible minimum window now k e =
    let least : ℕ = if is_process_owned k.route then 1 else minimum in
    within window now e.last_seen
    && (within window now e.last_outbound_seen
        && (within window now e.last_inbound_seen
            && (leb least e.outbound_packets
                && (leb least e.inbound_packets
                    && (ltb 0 e.reliable_outbound_packets || ltb 0 e.reliable_inbound_packets)))))

pub data Fallback : Type 0 where
  bidirectional reliable : Fallback

-- The basis on which `_direct_fallback_candidates` takes a candidate.
unfoldable pub fallback_of : ℕ → ℕ → ℕ → FlowKey → FlowEvidence → Option Fallback
fallback_of settle window now k e =
    let outbound_fresh = ltb 0 e.outbound_packets && within window now e.last_outbound_seen in
    let inbound_fresh = ltb 0 e.inbound_packets && within window now e.last_inbound_seen in
    let reliable_fresh =
      (ltb 0 e.reliable_outbound_packets && outbound_fresh)
      || (ltb 0 e.reliable_inbound_packets && inbound_fresh) in
    if not (same_route k.route direct_peer_ip_owned_port) || not (within window now e.last_seen)
    then none
    else if outbound_fresh && inbound_fresh
    then some bidirectional
    else if reliable_fresh
        && (leb 2 (e.outbound_packets + e.inbound_packets) && leb (e.first_seen + settle) now)
    then some reliable
    else none

-- One packet of a direction: a count starts again after a silence longer than the window.
unfoldable pub counted : ℕ → ℕ → Direction → Bool → FlowEvidence → FlowEvidence
counted window now direction is_reliable e =
    let first : ℕ = if e.first_seen == 0 then now else e.first_seen in
    let one : ℕ = if is_reliable then 1 else 0 in
    let out_stale =
      not (e.last_outbound_seen == 0) && not (within window now e.last_outbound_seen) in
    let in_stale = not (e.last_inbound_seen == 0) && not (within window now e.last_inbound_seen) in
    elim direction [
      | outbound ↦ record e {
        first_seen = first;
        last_seen = now;
        outbound_packets = (if out_stale then 0 else e.outbound_packets) + 1;
        last_outbound_seen = now;
        reliable_outbound_packets = (if out_stale then 0 else e.reliable_outbound_packets) + one;
      }
      | inbound ↦ record e {
        first_seen = first;
        last_seen = now;
        inbound_packets = (if in_stale then 0 else e.inbound_packets) + 1;
        last_inbound_seen = now;
        reliable_inbound_packets = (if in_stale then 0 else e.reliable_inbound_packets) + one;
      }
    ]
