-- ===== src/Delivery.antt =====
-- worker/src/transport.c: what the worker makes of a message. `Links` is about what passes between the router and
-- the workers.
pub mod Links
mod Tests
use void_os_merger.Base.{
  ℕ, ◌+◌, ◌≤◌, ◌<◌, ◌≡◌, ◌≢◌, ◌^◌, refl, ap, subst, sym, ◌∙◌, Bool, true, false, not, ◌||◌, ◌&&◌,
  Option, none, some, is_some, List, [], ◌∷◌, ◌++◌, arith, ltb, leb, ◌==◌, if◌then◌else◌, length,
  take, drop, add32, Bytes, c_string, take_all, Bool-cases, inl, inr,
}
use void_os_merger.Wire.{
  Envelope, MessageCode, code_of, Part, encode, decode, envelope_size, payload_max_len, parts_of,
  int_length,
}
use void_os_merger.Wire.RoundTrip.{
  IsEnvelope, length-encode, drop-encode, decode-encode, int_length-encode,
}
use void_os_merger.Router
use void_os_merger.Router.{
  Router, Outcome, buffered, send_to_worker, send_parts, run_once, read_parts, refuses,
  envelope_for,
}
use void_os_merger.Router.Dispatch.{buffered-encode}
use void_os_merger.Worker.Transport
use void_os_merger.Worker.Transport.{
  Transport, TransportEvent, Polled, poll, read_part, note_message, faults, send,
}

-- A part that holds an envelope of version 1 and as many bytes as it says.
read_part-encode :
    (e : Envelope) (payload : Bytes) (more : Bool) (rest : List Part) (t : Transport)
    → IsEnvelope e
    → e.protocol_version ≡ 1
    → e.payload_length ≡ length payload
    → length payload ≤ payload_max_len
    → read_part (record { content = encode e ++ payload; has_more = more }) rest t ≡ record {
      transport = (note_message e.message_code t).0;
      status = Transport.success;
      events = (note_message e.message_code t).1;
      messages = (e, payload) ∷ [];
      rest = rest;
    }
unfolding read_part
read_part-encode e payload more rest t v one same fits =
    let whole : buffered (encode e ++ payload) ≡ encode e ++ payload =
      buffered-encode e payload ∙ ap (λ s. encode e ++ s) (take_all payload_max_len payload fits) in
    let read : decode (buffered (encode e ++ payload)) ≡ e =
      ap decode whole ∙ decode-encode e payload v in
    let left : drop envelope_size (buffered (encode e ++ payload)) ≡ payload =
      ap (drop envelope_size) whole ∙ drop-encode e payload in
    let size = int_length-encode e payload (omega (arith, fits)) in
    let long : ltb (int_length (encode e ++ payload)) envelope_size ≡ false =
      ground (arith, size) in
    let first : (e.protocol_version == 1) ≡ true = ground (arith, one) in
    let exact : (envelope_size + e.payload_length == int_length (encode e ++ payload)) ≡ true =
      ground (arith, same, size) in
    rw (read, left, long, first, exact) refl

poll-read_part :
    (p : Part) (rest : List Part) (t : Transport)
    → t.has_socket ≡ true
    → int_length p.content < 2 ^ 31
    → poll (p ∷ rest) t ≡ read_part p rest t
unfolding poll
poll-read_part p rest t s h =
    let small : leb 2147483648 (int_length p.content) ≡ false = ground (arith, h) in
    rw (s, small) refl

-- The events that a message with this code makes at the worker.
abbrev pub IsEventsOf : ℕ → List TransportEvent → Type 0
IsEventsOf code events =
    (code ≡ 2 → events ≡ Transport.authenticated ∷ [])
    × (code ≡ 4 → events ≡ Transport.joined ∷ [])
    × (code ≡ 5 → events ≡ Transport.heartbeat_acked ∷ [])
    × (code ≢ 2 → code ≢ 4 → code ≢ 5 → events ≡ [])

-- What a poll makes of a message.
pub record IsPolled (e : Envelope) (payload : Bytes) (rest : List Part) (t : Transport) (p : Polled)
    : Type 0 where
  pub status : p.status ≡ Transport.success
  pub message : p.messages ≡ (e, payload) ∷ []
  pub left : p.rest ≡ rest
  pub events : IsEventsOf e.message_code p.events
  pub authenticated : p.transport.is_authenticated ≡ (t.is_authenticated || (e.message_code == 2))
  pub joined : p.transport.is_joined ≡ (t.is_joined || (e.message_code == 4))
  pub others :
      (p.transport.has_socket ≡ t.has_socket)
      × (p.transport.config ≡ t.config)
      × (p.transport.next_seq_id ≡ t.next_seq_id)
      × (p.transport.is_connected ≡ t.is_connected)

noted-IsPolled :
    (e : Envelope) (payload : Bytes) (rest : List Part) (t : Transport)
    → IsPolled e payload rest t (record {
      transport = (note_message e.message_code t).0;
      status = Transport.success;
      events = (note_message e.message_code t).1;
      messages = (e, payload) ∷ [];
      rest = rest;
    })
unfolding note_message
noted-IsPolled e payload rest t = record {
  status = refl;
  message = refl;
  left = refl;
  events = ground arith;
  authenticated = ground arith;
  joined = ground arith;
  others = ground arith;
}

-- A message in one part, of an envelope of version 1 and a payload of at most 4096 bytes that is as long as the envelope
-- says, is handed on once by a worker with a socket, as it was sent; the worker counts as authenticated after the
-- code 2 and as joined after the code 4, or if it did before, with the event of that code, that of an acknowledged
-- heartbeat after 5 and none after another code; nothing else of its state changes.
pub poll-IsPolled :
    (e : Envelope) (payload : Bytes) (rest : List Part) (t : Transport)
    → IsEnvelope e
    → e.protocol_version ≡ 1
    → e.payload_length ≡ length payload
    → length payload ≤ payload_max_len
    → t.has_socket ≡ true
    → IsPolled e payload rest t (poll (parts_of ((encode e ++ payload) ∷ []) ++ rest) t)
unfolding parts_of
poll-IsPolled e payload rest t v one same fits s =
    subst (IsPolled e payload rest t)
      (sym (
        poll-read_part _ rest t s
          (omega (arith, int_length-encode e payload (omega (arith, fits)), fits))
        ∙ read_part-encode e payload false rest t v one same fits))
      (noted-IsPolled e payload rest t)
