-- ===== src/Flow/Counts.antt =====
-- The counts of a candidate: reliable packets are among the packets of their direction.
use imperial_auto_governor.Common.{
  ℕ, ◌≤◌, ◌≡◌, Bool, true, false, not, ◌||◌, Option, none, some, [], ◌∷◌, if◌then◌else◌, arith, All,
  All-select, Option-cases, Bool-cases, inl, inr,
}
use imperial_auto_governor.Flow.{
  is_empty, direct_peer_ip, direct_peer_ip_owned_port, steam_brokered_udp_port,
  stellaris_process_udp_port, FlowKey, Direction, outbound, inbound, Platform, Owners, same_key,
  Route,
}
use imperial_auto_governor.Flow.Candidates.{
  FlowEvidence, Candidates, find_evidence, put_evidence, drop_evidence, merged, counted,
}
use imperial_auto_governor.Flow.Discovery.{
  FlowDiscovery, Observation, consider_lock, promote, forget_stale, count_packet, observe_flow,
  observe_packet, is_locked, observe, known_flow, new_flow, evidence_or_none, promoted_key,
}
use imperial_auto_governor.Flow.Lock.{consider_lock-SameEvidence}

abbrev pub IsCounted : FlowKey × FlowEvidence → Type 0
IsCounted c =
    (c.1.reliable_outbound_packets ≤ c.1.outbound_packets)
    × (c.1.reliable_inbound_packets ≤ c.1.inbound_packets)

abbrev HasCounts : Option FlowEvidence → Type 0
HasCounts none = Unit
HasCounts (some e) =
    (e.reliable_outbound_packets ≤ e.outbound_packets)
    × (e.reliable_inbound_packets ≤ e.inbound_packets)

put_evidence-IsCounted :
    (k : FlowKey) (e : FlowEvidence) (cs : Candidates)
    → IsCounted (k, e)
    → All IsCounted cs
    → All IsCounted (put_evidence k e cs)
unfolding put_evidence
put_evidence-IsCounted k e [] own h = (own, tt)
put_evidence-IsCounted k e ((j, f) ∷ cs) own (first, h) = elim (Bool-cases (same_key j k)) [
  | inl s ↦ rw s (own, h)
  | inr s ↦ rw s (first, put_evidence-IsCounted k e cs own h)
]

find_evidence-HasCounts :
    (k : FlowKey) (cs : Candidates) → All IsCounted cs → HasCounts (find_evidence k cs)
unfolding find_evidence
find_evidence-HasCounts k [] h = tt
find_evidence-HasCounts k ((j, e) ∷ cs) (first, h) = elim (Bool-cases (same_key j k)) [
  | inl s ↦ rw s first
  | inr s ↦ rw s (find_evidence-HasCounts k cs h)
]

counted-IsCounted :
    (window now : ℕ) (dir : Direction) (is_reliable : Bool) (k : FlowKey) (e : FlowEvidence)
    → IsCounted (k, e)
    → IsCounted (k, counted window now dir is_reliable e)
unfolding counted
counted-IsCounted window now outbound is_reliable k e h = ground arith
counted-IsCounted window now inbound is_reliable k e h = ground arith

evidence_or :
    (o : Option FlowEvidence) (k : FlowKey) → HasCounts o → IsCounted (k, evidence_or_none o)
evidence_or none k h = omega arith
evidence_or (some e) k h = h

merged_or :
    (o : Option FlowEvidence) (k : FlowKey) (e : FlowEvidence)
    → HasCounts o
    → IsCounted (k, e)
    → IsCounted (k, elim o [ none ↦ e | some f ↦ merged f e ])
unfolding merged
merged_or none k e h own = own
merged_or (some f) k e h own = omega arith

either_way :
    (r : Route) (unowned : Bool) (x y : FlowKey × FlowDiscovery)
    → All IsCounted x.1.candidates
    → All IsCounted y.1.candidates
    → All IsCounted (if unowned then y else elim r [ direct_peer_ip ↦ x | _ ↦ y ]).1.candidates
either_way r true x y hx hy = hy
either_way direct_peer_ip false x y hx hy = hx
either_way direct_peer_ip_owned_port false x y hx hy = hy
either_way steam_brokered_udp_port false x y hx hy = hy
either_way stellaris_process_udp_port false x y hx hy = hy

promote-IsCounted :
    (k : FlowKey) (owners : Owners) (d : FlowDiscovery)
    → All IsCounted d.candidates
    → All IsCounted (promote k owners d).1.candidates
unfolding promote drop_evidence
promote-IsCounted k owners d h =
    let rest = drop_evidence k d.candidates in
    let rest_counted : All IsCounted rest = All-select IsCounted _ d.candidates h in
    let own =
      evidence_or (find_evidence k d.candidates) k (find_evidence-HasCounts k d.candidates h) in
    let joined =
      merged_or (find_evidence (promoted_key k) rest) (promoted_key k)
        (evidence_or_none (find_evidence k d.candidates))
        (find_evidence-HasCounts (promoted_key k) rest rest_counted) own in
    either_way k.route (is_empty (owners k.local_port))
      (
        promoted_key k,
        record d { candidates = put_evidence (promoted_key k) _ rest; provisional = _ },
      )
      (k, d) (put_evidence-IsCounted (promoted_key k) _ rest joined rest_counted) h

observe_flow-IsCounted :
    (os : Platform) (o : Observation) (k : FlowKey) (dir : Direction) (d : FlowDiscovery)
    → All IsCounted d.candidates
    → All IsCounted (observe_flow os o k dir d).candidates
unfolding observe_flow count_packet forget_stale
observe_flow-IsCounted os o k dir d h =
    let fresh : All IsCounted (forget_stale o.observed_at k d).candidates =
      All-select IsCounted _ d.candidates h in
    let fresh_d = forget_stale o.observed_at k d in
    let evidence = evidence_or_none (find_evidence k fresh_d.candidates) in
    let own =
      evidence_or (find_evidence k fresh_d.candidates) k
        (find_evidence-HasCounts k fresh_d.candidates fresh) in
    let counts : All IsCounted (count_packet o k dir fresh_d).candidates =
      put_evidence-IsCounted k (counted d.candidate_window o.observed_at dir o.is_reliable evidence)
        fresh_d.candidates
        (counted-IsCounted d.candidate_window o.observed_at dir o.is_reliable k evidence own)
        fresh in
    elim (Bool-cases (os.is_peer k.host_ip)) [
      | inr e ↦ rw e h
      | inl e ↦
          rw
            (
              e,
              (consider_lock-SameEvidence o.observed_at (count_packet o k dir fresh_d)).candidates,
            )
            counts
    ]

observe_packet-IsCounted :
    (os : Platform) (o : Observation) (d : FlowDiscovery)
    → All IsCounted d.candidates
    → All IsCounted (observe_packet os o d).candidates
unfolding observe_packet
observe_packet-IsCounted os o d h = elim (Option-cases (known_flow o.packet d.candidates)) [
  | inr ((key, dir), e) ↦
      let same : observe_packet os o d
          ≡ observe_flow os o (promote key o.owners d).0 dir (promote key o.owners d).1 =
        ground arith in
      rw same (observe_flow-IsCounted os o _ dir _ (promote-IsCounted key o.owners d h))
  | inl e ↦ elim (Option-cases (new_flow os o)) [
    | inr ((key, dir), f) ↦
        let same : observe_packet os o d ≡ observe_flow os o key dir d = ground arith in
        rw same (observe_flow-IsCounted os o key dir d h)
    | inl f ↦
        let same : observe_packet os o d ≡ consider_lock o.observed_at d = ground arith in
        rw (same, (consider_lock-SameEvidence o.observed_at d).candidates) h
  ]
]

-- If the reliable packets of every candidate are at most its packets, in each direction, then that is so
-- after any call of `observe`.
pub observe-IsCounted :
    (os : Platform) (o : Observation) (d : FlowDiscovery)
    → All IsCounted d.candidates
    → All IsCounted (observe os o d).candidates
unfolding observe
observe-IsCounted os o d h =
    let considered = consider_lock o.observed_at d in
    let kept : All IsCounted considered.candidates =
      rw (consider_lock-SameEvidence o.observed_at d).candidates h in
    elim (Bool-cases (is_locked d || not o.game_process_present)) [
      | inl e ↦ let same : observe os o d ≡ d = ground arith in rw same h
      | inr e ↦ elim (Bool-cases (is_locked considered)) [
        | inl f ↦ let same : observe os o d ≡ considered = ground arith in rw same kept
        | inr f ↦
            let same : observe os o d ≡ observe_packet os o considered = ground arith in
            rw same (observe_packet-IsCounted os o considered kept)
      ]
    ]
