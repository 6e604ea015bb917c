-- ===== src/Flow.antt =====
-- src/iag/stellaris/execution/session_proxy.py: `FlowDiscovery`, which finds the game's UDP flow among
-- the packets it observes. Times are whole microseconds. Ports are mapped to the names of the processes
-- that own them; what the library of addresses, the paths and the hash say is in `Platform`.
pub mod Candidates
pub mod Counts
pub mod Discovery
pub mod Lock
pub mod Settling
mod Tests
use imperial_auto_governor.Common.{
  ℕ, ◌+◌, String, Bool, true, false, not, ◌&&◌, ◌||◌, Option, none, some, List, [], ◌∷◌, str_eq,
  ◌==◌, ltb, leb, if◌then◌else◌, contains, map,
}

pub data Route : Type 0 where
  direct_peer_ip direct_peer_ip_owned_port steam_brokered_udp_port stellaris_process_udp_port :
      Route

pub data Direction : Type 0 where
  outbound inbound : Direction

pub record FlowKey : Type 0 where
  pub local_ip : String
  pub local_port : ℕ
  pub host_ip : String
  pub host_port : ℕ
  pub route : Route

-- What the source takes from elsewhere: `Path(value).stem.casefold()`, whether a text is an IPv4 address
-- that is neither unspecified nor multicast, and the identifier that the hash of a flow's text gives.
pub record Platform : Type 0 where
  pub folded_stem : String → String
  pub is_peer : String → Bool
  pub candidate_id : FlowKey → String

-- `port_owners.get(port, set())`
abbrev pub Owners : Type 0
Owners = ℕ → List String

pub record Packet : Type 0 where
  pub src_ip : String
  pub src_port : ℕ
  pub dst_ip : String
  pub dst_port : ℕ

abbrev pub same_route : Route → Route → Bool
same_route direct_peer_ip r = elim r [ direct_peer_ip ↦ true | _ ↦ false ]
same_route direct_peer_ip_owned_port r = elim r [ direct_peer_ip_owned_port ↦ true | _ ↦ false ]
same_route steam_brokered_udp_port r = elim r [ steam_brokered_udp_port ↦ true | _ ↦ false ]
same_route stellaris_process_udp_port r = elim r [ stellaris_process_udp_port ↦ true | _ ↦ false ]

-- `==` of two keys.
unfoldable pub same_key : FlowKey → FlowKey → Bool
same_key a b =
    str_eq a.local_ip b.local_ip
    && (a.local_port == b.local_port
        && (str_eq a.host_ip b.host_ip
            && (a.host_port == b.host_port && same_route a.route b.route)))

-- `flow_packet_direction`
unfoldable pub packet_direction : FlowKey → Packet → Option Direction
packet_direction f p =
    if str_eq p.src_ip f.local_ip
      && (p.src_port == f.local_port && (str_eq p.dst_ip f.host_ip && p.dst_port == f.host_port))
    then some outbound
    else if str_eq p.src_ip f.host_ip
        && (p.src_port == f.host_port && (str_eq p.dst_ip f.local_ip && p.dst_port == f.local_port))
    then some inbound
    else none

-- PROCESS_OWNED_ROUTES
abbrev pub is_process_owned : Route → Bool
is_process_owned direct_peer_ip = false
is_process_owned _ = true

-- `route.startswith("direct_peer_ip")`
abbrev pub is_direct : Route → Bool
is_direct direct_peer_ip = true
is_direct direct_peer_ip_owned_port = true
is_direct _ = false

abbrev pub is_empty : List String → Bool
is_empty [] = true
is_empty (x ∷ xs) = false

-- `_brokered_route`
unfoldable pub brokered_route : Platform → List String → Route
brokered_route os names =
    if contains "steam" (map os.folded_stem names)
    then steam_brokered_udp_port
    else stellaris_process_udp_port
