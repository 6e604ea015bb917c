-- ===== src/Session/Tests.antt =====
-- A fleet move that is armed, inserted at an acknowledgement, sent again with its carrier, and timed out.
use imperial_auto_governor.Common.{
  ◌<◌, ◌≡◌, refl, ◌⊎◌, true, false, Option, some, List, [], ◌∷◌, ◌++◌, arith, length,
}
use imperial_auto_governor.Common.Int.{pos, negsuc}
use imperial_auto_governor.Flow.{Packet, direct_peer_ip, inbound, packet_direction}
use imperial_auto_governor.Stream.{Bytes, reliable_marker, same_bytes}
use imperial_auto_governor.Wire.{done, fail, value_error}
use imperial_auto_governor.Wire.Boundary.{move_to}
use imperial_auto_governor.Wire.Serials.{translate_each}
use imperial_auto_governor.Session.{
  SessionRequest, ArmFile, Proxy, started, state_name, armed, translating,
}
use imperial_auto_governor.Session.Kept.{Untouched}
use imperial_auto_governor.Session.Once.{Inserted, handle-once}
use imperial_auto_governor.Session.Packets.{
  Settings, Event, packet_seen, file_written, handle, run, has_passed,
}
use imperial_auto_governor.Session.Replays.{IsReplay, handle-replays}
use imperial_auto_governor.Session.Sends.{IsSentOn, handle-sends}
use imperial_auto_governor.Session.Reached.{run_from_start-IsSound}
use imperial_auto_governor.Session.Sound.{IsSound}
use imperial_auto_governor.Session.Timeouts.{IsEnded, waits_since, handle-ends}

evaluated : Unit {0}
unfolding handle run state_name translate_each same_bytes
evaluated = tt

abbrev settings : Settings
settings = record {
  flow = record {
    local_ip = "10.0.0.1";
    local_port = 1000;
    host_ip = "10.0.0.2";
    host_port = 2000;
    route = direct_peer_ip;
  };
  max_payload = 1200;
  response_timeout_seconds = 30;
}

abbrev sent_packet : Packet
sent_packet = record { src_ip = "10.0.0.1"; src_port = 1000; dst_ip = "10.0.0.2"; dst_port = 2000 }

abbrev host_packet : Packet
host_packet = record { src_ip = "10.0.0.2"; src_port = 2000; dst_ip = "10.0.0.1"; dst_port = 1000 }

abbrev request : SessionRequest
request = record {
  request_id = "first";
  action = "move_fleet";
  host_actor = pos 1;
  serial_floor = 40;
  command = record {
    source_actor = pos 2;
    request_origin = pos 0;
    asked =
        move_to
          (record {
            source_fleet = pos 3;
            destination_tag = "0c3a01001400";
            destination = pos 77000;
          })
          [];
  };
}

abbrev file : Option ArmFile
file = some (record { signature = (1, 2); parsed = done request })

-- A pure acknowledgement.
abbrev carrier : Bytes
carrier =
    reliable_marker
    ++ 0 ∷ 0 ∷ 0 ∷ 9 ∷ 0 ∷ 0 ∷ 0 ∷ 7 ∷ 0 ∷ 0 ∷ 0 ∷ 0 ∷ 0 ∷ 0 ∷ 0 ∷ 0 ∷ 0 ∷ 0 ∷ 0 ∷ 0 ∷ []

abbrev written : List Event
written = file_written file ∷ []

abbrev before : Proxy
before = run settings written started

abbrev after : Proxy
after = (handle settings 10 sent_packet carrier before).1

abbrev answered : List Event
answered = file_written file ∷ packet_seen 10 sent_packet carrier ∷ []

injected : after.injected_serial ≡ some 41
unfolding evaluated
injected = refl

waiting : state_name true after ≡ armed
unfolding evaluated
waiting = refl

one_translator : length after.translators ≡ 1
unfolding evaluated
one_translator = refl

-- The next packet from the host comes after the timeout.
timed_out : state_name true (handle settings 40 host_packet carrier after).1 ≡ translating
unfolding evaluated
timed_out = refl

-- A file that cannot be read is rejected once.
rejected :
    ((run settings
      (file_written (some (record { signature = (1, 2); parsed = fail value_error }))
        ∷ packet_seen 10 sent_packet carrier
        ∷ [])
      started).arm_error)
    ≡ some (1, 2)
unfolding evaluated
rejected = refl

-- A later acknowledgement of the game's.
abbrev next_carrier : Bytes
next_carrier =
    reliable_marker
    ++ 0 ∷ 0 ∷ 0 ∷ 200 ∷ 0 ∷ 0 ∷ 0 ∷ 7 ∷ 0 ∷ 0 ∷ 0 ∷ 0 ∷ 0 ∷ 0 ∷ 0 ∷ 0 ∷ 0 ∷ 0 ∷ 0 ∷ 0 ∷ []

abbrev broken : Option ArmFile
broken = some (record {
  signature = (3, 2);
  parsed = done (record request {
    command = record request.command {
      asked =
          move_to
            (record {
              source_fleet = negsuc 4;
              destination_tag = "0c3a01001400";
              destination = pos 77000;
            })
            [];
    };
  });
})

abbrev later : Proxy
later = (handle settings 40 host_packet carrier after).1

abbrev armed_again : Proxy
armed_again = run settings (file_written broken ∷ []) later

-- Without a request that is armed, the packet is sent with its place behind the insertion.
translated :
    (handle settings 41 sent_packet next_carrier later).0
    ≡ translate_each later.translators next_carrier ∷ []
unfolding evaluated
translated = refl

moved : same_bytes (translate_each later.translators next_carrier) next_carrier ≡ false
unfolding evaluated
moved = refl

-- With one whose record cannot be built, it is sent as it came.
untranslated : (handle settings 41 sent_packet next_carrier armed_again).0 ≡ next_carrier ∷ []
unfolding evaluated
untranslated = refl

run_from_start-IsSound_example : IsSound (run settings answered started)
run_from_start-IsSound_example = run_from_start-IsSound settings answered

handle-sends_example :
    IsSentOn carrier (handle settings 10 sent_packet carrier (run settings written started))
handle-sends_example = handle-sends settings written 10 sent_packet carrier

handle-once_example : Untouched before after ⊎ Inserted 10 before after
handle-once_example = handle-once settings 10 sent_packet carrier before

no_translators : length before.translators ≡ 0
unfolding evaluated
no_translators = refl

one_more : length before.translators < length after.translators
one_more = omega (arith, no_translators, one_translator)

handle-replays_example :
    IsReplay settings 50 sent_packet carrier
      (handle settings 10 sent_packet carrier before).0
      (run settings written after)
handle-replays_example = handle-replays settings 10 50 sent_packet carrier before written one_more

from_host : packet_direction settings.flow host_packet ≡ some inbound
unfolding packet_direction
from_host = refl

still_armed : (run settings answered started).arm_request ≡ some request
unfolding evaluated
still_armed = refl

late : has_passed 30 40 (waits_since (run settings answered started)) ≡ true
unfolding evaluated
late = refl

handle-ends_example :
    IsEnded request (handle settings 40 host_packet carrier (run settings answered started)).1
handle-ends_example =
    handle-ends settings answered 40 host_packet carrier request from_host still_armed late
