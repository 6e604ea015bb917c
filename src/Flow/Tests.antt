-- ===== src/Flow/Tests.antt =====
-- Two packets of a direct flow on the game's port, and a relayed flow that settles.
use imperial_auto_governor.Common.{
  ◌≡◌, refl, true, false, none, some, [], ◌∷◌, if◌then◌else◌, ◌==◌, All, arith,
}
use imperial_auto_governor.Flow.{
  FlowKey, direct_peer_ip_owned_port, steam_brokered_udp_port, Platform, Owners, packet_direction,
}
use imperial_auto_governor.Flow.Counts.{IsCounted, observe-IsCounted}
use imperial_auto_governor.Flow.Discovery.{
  FlowDiscovery, Observation, discovery, observe, observe_all, consider_lock, eligible_candidates,
  fallback_candidates,
}
use imperial_auto_governor.Flow.Lock.{Justified, observe-Justified}
use imperial_auto_governor.Flow.Settling.{IsSole, consider_each, consider_each-settles}

evaluated : Unit {0}
unfolding observe observe_all consider_lock eligible_candidates fallback_candidates packet_direction
evaluated = tt

abbrev platform : Platform
platform = record { folded_stem = λ s. s; is_peer = λ s. true; candidate_id = λ k. k.host_ip }

abbrev owners : Owners
owners port = if port == 1000 then "stellaris" ∷ [] else []

abbrev sent : Observation
sent = record {
  packet = record { src_ip = "10.0.0.1"; src_port = 1000; dst_ip = "10.0.0.2"; dst_port = 2000 };
  local_ip = "10.0.0.1";
  host_ip = "10.0.0.2";
  owners = owners;
  game_process_present = true;
  is_outbound = true;
  is_inbound = false;
  is_reliable = true;
  observed_at = 1000000;
}

abbrev received : Observation
received = record sent {
  packet = record { src_ip = "10.0.0.2"; src_port = 2000; dst_ip = "10.0.0.1"; dst_port = 1000 };
  is_outbound = false;
  is_inbound = true;
  observed_at = 1200000;
}

abbrev flow : FlowKey
flow = record {
  local_ip = "10.0.0.1";
  local_port = 1000;
  host_ip = "10.0.0.2";
  host_port = 2000;
  route = direct_peer_ip_owned_port;
}

abbrev start : FlowDiscovery
start = discovery 3 500000 5000000

abbrev after_sent : FlowDiscovery
after_sent = observe platform sent start

abbrev after_received : FlowDiscovery
after_received = observe platform received after_sent

unlocked_first : after_sent.locked ≡ none
unfolding evaluated
unlocked_first = refl

locked_then : after_received.locked ≡ some flow
unfolding evaluated
locked_then = refl

observe-Justified_example : Justified 1200000 after_received flow
observe-Justified_example =
    observe-Justified platform received after_sent flow unlocked_first locked_then

observe-IsCounted_example : All IsCounted after_sent.candidates
observe-IsCounted_example = observe-IsCounted platform sent start tt

-- A relayed flow with a reliable packet in each direction.
abbrev relayed : FlowDiscovery
relayed = record start {
  candidates =
      (
        record flow { route = steam_brokered_udp_port },
        record {
          outbound_packets = 2;
          inbound_packets = 1;
          reliable_outbound_packets = 1;
          reliable_inbound_packets = 0;
          first_seen = 1000000;
          last_seen = 1500000;
          last_outbound_seen = 1400000;
          last_inbound_seen = 1500000;
        },
      )
      ∷ [];
}

abbrev brokered : FlowKey
brokered = record flow { route = steam_brokered_udp_port }

alone_at_first : IsSole relayed brokered 1600000
unfolding evaluated
alone_at_first = record { eligible = refl; no_fallback = refl }

alone_between : IsSole relayed brokered 1800000
unfolding evaluated
alone_between = record { eligible = refl; no_fallback = refl }

alone_at_last : IsSole relayed brokered 2100000
unfolding evaluated
alone_at_last = record { eligible = refl; no_fallback = refl }

consider_each-settles_example :
    (consider_lock 2100000 (consider_each (1800000 ∷ []) (consider_lock 1600000 relayed))).locked
    ≡ some brokered
consider_each-settles_example =
    consider_each-settles 1600000 2100000 (1800000 ∷ []) relayed brokered alone_at_first
      (alone_between, tt) alone_at_last refl (omega arith) (omega arith)
