-- ===== src/Wire/Responses/Tests.antt =====
-- A fleet move that the host sends back, for the host's actor.
use imperial_auto_governor.Common.{◌≡◌, refl, Option, some, [], ◌∷◌, ◌++◌}
use imperial_auto_governor.Common.Int.{pos}
use imperial_auto_governor.Stream.{Bytes, reliable_marker}
use imperial_auto_governor.Wire.{Outcome, fail, done}
use imperial_auto_governor.Wire.Boundary.{
  ArmRequest, move_to, build_request_record, application_prefix,
}
use imperial_auto_governor.Wire.Responses.{Response, retag_matching_response}
use imperial_auto_governor.Wire.Responses.Retagged.{IsRetagged, retag_matching_response-IsRetagged}

evaluated : Unit {0}
unfolding retag_matching_response build_request_record application_prefix
evaluated = tt

abbrev request : ArmRequest
request = record {
  source_actor = pos 2;
  request_origin = pos 0;
  asked =
      move_to
        (record { source_fleet = pos 3; destination_tag = "0c3a01001400"; destination = pos 77000 })
        [];
}

abbrev bytes_of : Outcome Bytes → Bytes
bytes_of (fail f) = []
bytes_of (done b) = b

abbrev command : Bytes
command = bytes_of (build_request_record request (pos 41))

abbrev packet : Bytes
packet =
    reliable_marker
    ++ (0 ∷ 0 ∷ 0 ∷ 9 ∷ 0 ∷ 0 ∷ 0 ∷ 7 ∷ 0 ∷ 0 ∷ 0 ∷ 0 ∷ 0 ∷ 0 ∷ 0 ∷ 0 ∷ 0 ∷ 0 ∷ 0 ∷ 0 ∷ [])
    ++ (bytes_of (application_prefix command) ++ command)

abbrev response_of : Outcome (Option Response) → Response
response_of (done (some r)) = r
response_of o = record {
  payload = [];
  carrier = record {
    command = record { offset = 0; size = 0; serial = 0 };
    actor_offset = 0;
    serial = 0;
  };
}

abbrev response : Response
response = response_of (retag_matching_response request (pos 1) packet)

retagged : retag_matching_response request (pos 1) packet ≡ done (some response)
unfolding evaluated
retagged = refl

carried : response.carrier.serial ≡ 41
unfolding evaluated
carried = refl

retag_matching_response-IsRetagged_example : IsRetagged request (pos 1) packet response
retag_matching_response-IsRetagged_example =
    retag_matching_response-IsRetagged request (pos 1) packet response retagged
