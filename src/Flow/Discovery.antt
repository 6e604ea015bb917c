-- ===== src/Flow/Discovery.antt =====
-- src/iag/stellaris/execution/session_proxy.py: the state of `FlowDiscovery` and its methods.
use imperial_auto_governor.Common.{
  ℕ, ◌+◌, String, Bool, true, false, not, ◌&&◌, ◌||◌, Option, none, some, List, [], ◌∷◌, str_eq,
  leb, if◌then◌else◌, select, map,
}
use imperial_auto_governor.Flow.{
  FlowKey, Route, direct_peer_ip, direct_peer_ip_owned_port, Direction, outbound, inbound, Packet,
  Platform, Owners, same_key, packet_direction, is_direct, is_empty, brokered_route,
}
use imperial_auto_governor.Flow.Candidates.{
  FlowEvidence, Candidates, Fallback, bidirectional, reliable, no_evidence, find_evidence,
  put_evidence, drop_evidence, merged, within, is_eligible, fallback_of, counted,
}

pub data Method : Type 0 where
  automatic_direct_reliable automatic_direct_owned_bidirectional automatic_direct_owned_reliable :
      Method
  automatic_unique_reliable manual_player_confirmed : Method

pub record FlowDiscovery : Type 0 where
  pub minimum_each_direction : ℕ
  pub relay_settle : ℕ
  pub candidate_window : ℕ
  pub candidates : Candidates
  pub locked : Option FlowKey
  pub lock_method : Option Method
  pub provisional : Option FlowKey
  pub provisional_since : ℕ

abbrev pub discovery : ℕ → ℕ → ℕ → FlowDiscovery
discovery minimum settle window = record {
  minimum_each_direction = minimum;
  relay_settle = settle;
  candidate_window = window;
  candidates = [];
  locked = none;
  lock_method = none;
  provisional = none;
  provisional_since = 0;
}

-- `_lock`
unfoldable pub lock : FlowKey → Method → FlowDiscovery → FlowDiscovery
lock k m d = record d {
  locked = some k;
  lock_method = some m;
  provisional = none;
  provisional_since = 0;
}

-- `_eligible_candidates`
unfoldable pub eligible_candidates : ℕ → FlowDiscovery → Candidates
unfolding is_eligible
eligible_candidates now d =
    select
      (λ (c : FlowKey × FlowEvidence).
        is_eligible d.minimum_each_direction d.candidate_window now c.0 c.1)
      d.candidates

unfoldable pub fallbacks : ℕ → ℕ → ℕ → Candidates → List (FlowKey × Fallback)
unfolding fallback_of
fallbacks settle window now [] = []
fallbacks settle window now ((k, e) ∷ cs) =
    let rest = fallbacks settle window now cs in
    elim (fallback_of settle window now k e) [ none ↦ rest | some f ↦ (k, f) ∷ rest ]

-- `_direct_fallback_candidates`
unfoldable pub fallback_candidates : ℕ → FlowDiscovery → List (FlowKey × Fallback)
unfolding fallbacks
fallback_candidates now d = fallbacks d.relay_settle d.candidate_window now d.candidates

abbrev pub method_of : Fallback → Method
method_of bidirectional = automatic_direct_owned_bidirectional
method_of reliable = automatic_direct_owned_reliable

-- The only item of a list.
abbrev pub only {ℓ} : {A : Type ℓ} → List A → Option A
only (x ∷ []) = some x
only _ = none

abbrev pub same_provisional : Option FlowKey → FlowKey → Bool
same_provisional none k = false
same_provisional (some j) k = same_key j k

-- The last part of `_consider_lock`, where no direct candidate decides.
unfoldable pub consider_unique : ℕ → Option FlowKey → FlowDiscovery → FlowDiscovery
unfolding lock same_key
consider_unique now unique d = elim unique [
  | none ↦ record d { provisional = none; provisional_since = 0 }
  | some k ↦
      if not (same_provisional d.provisional k)
      then record d { provisional = some k; provisional_since = now }
      else if leb (d.provisional_since + d.relay_settle) now
      then lock k automatic_unique_reliable d
      else d
]

-- The keys of the eligible candidates.
abbrev pub keys_of : Candidates → List FlowKey
keys_of cs = map (λ (c : FlowKey × FlowEvidence). c.0) cs

-- `_consider_lock`; what it returns is the field `locked` that it leaves.
unfoldable pub consider_lock : ℕ → FlowDiscovery → FlowDiscovery
unfolding eligible_candidates fallback_candidates consider_unique lock
consider_lock now d =
    let eligible = keys_of (eligible_candidates now d) in
    elim (only (select (λ (k : FlowKey). is_direct k.route) eligible)) [
      | some k ↦ lock k automatic_direct_reliable d
      | none ↦ elim (only (fallback_candidates now d)) [
        | some (k, f) ↦ lock k (method_of f) d
        | none ↦ consider_unique now (only eligible) d
      ]
    ]

unfoldable pub first_with_id : Platform → String → Candidates → Option FlowKey
first_with_id os id [] = none
first_with_id os id ((k, e) ∷ cs) =
    if str_eq (os.candidate_id k) id then some k else first_with_id os id cs

-- `lock_confirmed_candidate`; `none` where it raises.
unfoldable pub lock_confirmed_candidate : Platform → String → FlowDiscovery → Option FlowDiscovery
unfolding first_with_id lock
lock_confirmed_candidate os id d = elim (first_with_id os id d.candidates) [
  | none ↦ none
  | some k ↦ some (lock k manual_player_confirmed d)
]

-- `candidates[key]` of the defaultdict.
abbrev pub evidence_or_none : Option FlowEvidence → FlowEvidence
evidence_or_none none = no_evidence
evidence_or_none (some e) = e

abbrev pub promoted_key : FlowKey → FlowKey
promoted_key k = record k { route = direct_peer_ip_owned_port }

-- `_promote_direct_candidate` of a candidate that is there.
unfoldable pub promote : FlowKey → Owners → FlowDiscovery → FlowKey × FlowDiscovery
unfolding drop_evidence put_evidence find_evidence merged same_key
promote k owners d =
    let rest = drop_evidence k d.candidates in
    let evidence = evidence_or_none (find_evidence k d.candidates) in
    let joined : FlowEvidence = elim (find_evidence (promoted_key k) rest) [
      | none ↦ evidence
      | some e ↦ merged e evidence
    ] in
    if is_empty (owners k.local_port) then (k, d) else elim k.route [
      | direct_peer_ip ↦ (
        promoted_key k,
        record d {
          candidates = put_evidence (promoted_key k) joined rest;
          provisional =
              if same_provisional d.provisional k then some (promoted_key k) else d.provisional;
        },
      )
      | _ ↦ (k, d)
    ]

-- One call of `observe`, with what the caller knows of the packet and of the process table.
pub record Observation : Type 0 where
  pub packet : Packet
  pub local_ip : String
  pub host_ip : String
  pub owners : Owners
  pub game_process_present : Bool
  pub is_outbound : Bool
  pub is_inbound : Bool
  pub is_reliable : Bool
  pub observed_at : ℕ

unfoldable pub known_flow : Packet → Candidates → Option (FlowKey × Direction)
unfolding packet_direction
known_flow p [] = none
known_flow p ((k, e) ∷ cs) = elim (packet_direction k p) [
  | none ↦ known_flow p cs
  | some dir ↦ some (k, dir)
]

abbrev pub owned_route : Platform → Bool → List String → Route
owned_route os direct names =
    if direct
    then (if is_empty names then direct_peer_ip else direct_peer_ip_owned_port)
    else brokered_route os names

abbrev pub sent_flow : Packet → Route → FlowKey × Direction
sent_flow p route = (
  record {
    local_ip = p.src_ip;
    local_port = p.src_port;
    host_ip = p.dst_ip;
    host_port = p.dst_port;
    route = route;
  },
  outbound,
)

abbrev pub received_flow : Packet → Route → FlowKey × Direction
received_flow p route = (
  record {
    local_ip = p.dst_ip;
    local_port = p.dst_port;
    host_ip = p.src_ip;
    host_port = p.src_port;
    route = route;
  },
  inbound,
)

-- The flow of a packet that no candidate has.
unfoldable pub new_flow : Platform → Observation → Option (FlowKey × Direction)
unfolding brokered_route
new_flow os o =
    let p = o.packet in
    let src_owners = o.owners p.src_port in
    let dst_owners = o.owners p.dst_port in
    let direct_out = str_eq p.src_ip o.local_ip && str_eq p.dst_ip o.host_ip in
    let direct_in = str_eq p.src_ip o.host_ip && str_eq p.dst_ip o.local_ip in
    if direct_out || (not (is_empty src_owners) && is_empty dst_owners)
    then some (sent_flow p (owned_route os direct_out src_owners))
    else if direct_in || (not (is_empty dst_owners) && is_empty src_owners)
    then some (received_flow p (owned_route os direct_in dst_owners))
    else if not (is_empty src_owners)
        && (not (is_empty dst_owners) && (if o.is_outbound then not o.is_inbound else o.is_inbound))
    then (if o.is_outbound
        then some (sent_flow p (brokered_route os src_owners))
        else some (received_flow p (brokered_route os dst_owners)))
    else none

-- Candidates that are silent for longer than the window are forgotten, but for the packet's own.
unfoldable pub forget_stale : ℕ → FlowKey → FlowDiscovery → FlowDiscovery
unfolding same_key
forget_stale now k d = record d {
  candidates =
      select
        (λ (c : FlowKey × FlowEvidence).
          same_key c.0 k || within d.candidate_window now c.1.last_seen)
        d.candidates;
}

unfoldable pub count_packet : Observation → FlowKey → Direction → FlowDiscovery → FlowDiscovery
unfolding put_evidence find_evidence counted
count_packet o k dir d =
    let evidence = evidence_or_none (find_evidence k d.candidates) in
    record d {
      candidates =
          put_evidence k (counted d.candidate_window o.observed_at dir o.is_reliable evidence)
            d.candidates;
    }

-- From the checks of the peer on.
unfoldable pub observe_flow :
    Platform → Observation → FlowKey → Direction → FlowDiscovery → FlowDiscovery
unfolding consider_lock count_packet forget_stale
observe_flow os o k dir d =
    if not (os.is_peer k.host_ip)
    then d
    else consider_lock o.observed_at (count_packet o k dir (forget_stale o.observed_at k d))

unfoldable pub observe_packet : Platform → Observation → FlowDiscovery → FlowDiscovery
unfolding observe_flow promote known_flow new_flow consider_lock
observe_packet os o d = elim (known_flow o.packet d.candidates) [
  | some (k, dir) ↦ observe_flow os o (promote k o.owners d).0 dir (promote k o.owners d).1
  | none ↦ elim (new_flow os o) [
    | some (k, dir) ↦ observe_flow os o k dir d
    | none ↦ consider_lock o.observed_at d
  ]
]

abbrev pub is_locked : FlowDiscovery → Bool
is_locked d = elim d.locked [ none ↦ false | some k ↦ true ]

-- `observe`; what it returns is the field `locked` that it leaves.
unfoldable pub observe : Platform → Observation → FlowDiscovery → FlowDiscovery
unfolding observe_packet consider_lock
observe os o d =
    let considered = consider_lock o.observed_at d in
    if is_locked d || not o.game_process_present
    then d
    else if is_locked considered
    then considered
    else observe_packet os o considered

unfoldable pub observe_all : Platform → List Observation → FlowDiscovery → FlowDiscovery
unfolding observe
observe_all os [] d = d
observe_all os (o ∷ rest) d = observe_all os rest (observe os o d)
