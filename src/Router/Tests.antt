-- ===== src/Router/Tests.antt =====
-- master/src/router.c: a message that is handed on, and one that is too long.
use void_os_merger.Base.{
  ℕ, ◌<◌, ◌≡◌, refl, sym, true, [], ◌∷◌, ◌++◌, arith, length, take, replicate, Bytes, c_string,
}
use void_os_merger.Wire.{Envelope, payload_max_len, parts_of, encode}
use void_os_merger.Wire.RoundTrip.{IsEnvelope}
use void_os_merger.Router.{Router, run_once, timestamp_of}
use void_os_merger.Router.Dispatch.{IsHandedOn, run_once_dispatches, run_once_truncates}

abbrev ready : Router
ready = record { has_socket = true; socket_type = 4; next_seq_id = 1; is_running = true }

abbrev report : ℕ → Envelope
report size = record {
  protocol_version = 1;
  message_code = 8;
  payload_length = size;
  sequence_id = 3;
  timestamp_ms = 1000;
}

abbrev two_bytes : Bytes
two_bytes = 7 ∷ 9 ∷ []

one_letter : c_string (119 ∷ []) ≡ 119 ∷ []
unfolding c_string
one_letter = refl

report-IsEnvelope : IsEnvelope (report 2)
report-IsEnvelope = record {
  protocol_version = omega arith;
  message_code = omega arith;
  payload_length = omega arith;
  sequence_id = omega arith;
  timestamp_ms = omega arith;
}

long-IsEnvelope : IsEnvelope (report 4097)
long-IsEnvelope = record {
  protocol_version = omega arith;
  message_code = omega arith;
  payload_length = omega arith;
  sequence_id = omega arith;
  timestamp_ms = omega arith;
}

run_once_dispatches_example :
    IsHandedOn
      (119 ∷ [])
      (report 2)
      two_bytes
      []
      (run_once ready (parts_of ((119 ∷ []) ∷ [] ∷ (encode (report 2) ++ two_bytes) ∷ []) ++ []))
run_once_dispatches_example =
    run_once_dispatches ready (119 ∷ []) [] (report 2) two_bytes [] refl refl (omega arith)
      one_letter report-IsEnvelope refl refl (omega arith)

abbrev zeros : Bytes
zeros = replicate 4097 0

length-zeros : length zeros ≡ 4097
length-zeros = refl

run_once_truncates_example :
    IsHandedOn
      (119 ∷ [])
      (report 4097)
      (take payload_max_len zeros)
      []
      (run_once ready (parts_of ((119 ∷ []) ∷ [] ∷ (encode (report 4097) ++ zeros) ∷ []) ++ []))
    × (length (take payload_max_len zeros) < 4097)
run_once_truncates_example =
    run_once_truncates ready (119 ∷ []) [] (report 4097) zeros [] refl refl (omega arith) one_letter
      long-IsEnvelope refl (sym length-zeros) (omega (arith, length-zeros))
      (omega (arith, length-zeros))

half_second : timestamp_of 5 500000 ≡ 5500
unfolding timestamp_of
half_second = refl
