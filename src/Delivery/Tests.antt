-- ===== src/Delivery/Tests.antt =====
-- master/src/router.c and worker/src/transport.c: an answer to a join, and messages that do not get through.
use void_os_merger.Base.{refl, true, false, List, [], ◌∷◌, ◌++◌, arith}
use void_os_merger.Wire.{Envelope, chunk_assign, chunk_report, parts_of, encode}
use void_os_merger.Wire.RoundTrip.{IsEnvelope}
use void_os_merger.Router
use void_os_merger.Router.{Router}
use void_os_merger.Worker.Transport
use void_os_merger.Worker.Transport.{Transport, poll, no_config}
use void_os_merger.Delivery.{IsPolled, poll-IsPolled}
use void_os_merger.Delivery.Links.{Message, reports, assigns}

abbrev ready : Router
ready = record { has_socket = true; socket_type = 4; next_seq_id = 4; is_running = true }

abbrev online : Transport
online = record {
  has_socket = true;
  config = no_config;
  next_seq_id = 1;
  is_connected = true;
  is_authenticated = false;
  is_joined = false;
}

abbrev answer : Envelope
answer = record {
  protocol_version = 1;
  message_code = 4;
  payload_length = 1;
  sequence_id = 4;
  timestamp_ms = 1000;
}

answer-IsEnvelope : IsEnvelope answer
answer-IsEnvelope = record {
  protocol_version = omega arith;
  message_code = omega arith;
  payload_length = omega arith;
  sequence_id = omega arith;
  timestamp_ms = omega arith;
}

poll-IsPolled_example :
    IsPolled answer
      (7 ∷ [])
      []
      online
      (poll (parts_of ((encode answer ++ 7 ∷ []) ∷ []) ++ []) online)
poll-IsPolled_example =
    poll-IsPolled answer (7 ∷ []) [] online answer-IsEnvelope refl refl (omega arith) refl

abbrev messages : List Message
messages =
    reports 1000 chunk_report (7 ∷ []) online ∷ assigns 1100 (119 ∷ []) chunk_assign (8 ∷ []) ∷ []
