-- ===== src/Router/Dispatch.antt =====
-- master/src/router.c: which of the messages that are received are handed on.
use void_os_merger.Base.{
  ℕ, ◌≢◌, ◌+◌, ◌≤◌, ◌<◌, ◌≡◌, refl, ap, subst, sym, ◌∙◌, Bool, true, false, List, [], ◌∷◌, ◌++◌,
  arith, leb, ◌==◌, length, take, drop, add32, Bytes, c_string, take_all, length-take_le, ◌^◌,
}
use void_os_merger.Wire.{
  Envelope, Part, encode, decode, envelope_size, payload_max_len, parts_of, bytes_of, int_length,
  holds_envelope,
}
use void_os_merger.Wire.RoundTrip.{
  IsEnvelope, int_length-encode, holds_envelope-encode, drop-encode, decode-encode,
}
use void_os_merger.Router.{
  Outcome, Received, RouterEvent, worker_joined, worker_heartbeat, chunk_result, buffered, Router,
  success, returns, events_for, read_message, read_delimited, read_parts, run_once,
  router_id_max_len,
}

-- What the buffer holds of a message with an envelope.
pub buffered-encode :
    (e : Envelope) (s : Bytes) → buffered (encode e ++ s) ≡ encode e ++ take payload_max_len s
unfolding buffered encode bytes_of
buffered-encode e s = refl

-- A message whose envelope is of version 1 and whose length is the one it says.
read_message_accepts :
    (id : Bytes) (p : Part) (rest : List Part) (e : Envelope) (payload : Bytes)
    → decode (buffered p.content) ≡ e
    → drop envelope_size (buffered p.content) ≡ payload
    → holds_envelope p.content ≡ true
    → e.protocol_version ≡ 1
    → add32 envelope_size e.payload_length ≡ int_length p.content
    → read_message id p rest
      ≡ returns (record {
        status = success;
        events = events_for id e.message_code;
        messages = (id, e, payload) ∷ [];
        rest = rest;
      })
unfolding read_message
read_message_accepts id p rest e payload d s l v f =
    let one : (e.protocol_version == 1) ≡ true = ground (arith, v) in
    let exact : (add32 envelope_size e.payload_length == int_length p.content) ≡ true =
      ground (arith, f) in
    rw (d, s, l, one, exact) refl

read_message-encode :
    (id : Bytes) (e : Envelope) (payload : Bytes) (more : Bool) (rest : List Part)
    → IsEnvelope e
    → e.protocol_version ≡ 1
    → e.payload_length ≡ length payload
    → envelope_size + length payload < 2 ^ 31
    → read_message id (record { content = encode e ++ payload; has_more = more }) rest
      ≡ returns (record {
        status = success;
        events = events_for id e.message_code;
        messages = (id, e, take payload_max_len payload) ∷ [];
        rest = rest;
      })
read_message-encode id e payload more rest v one same fits =
    read_message_accepts id _ rest e (take payload_max_len payload)
      (ap decode (buffered-encode e payload) ∙ decode-encode e _ v)
      (ap (drop envelope_size) (buffered-encode e payload) ∙ drop-encode e _)
      (holds_envelope-encode e payload fits) one
      (says e payload same fits ∙ sym (int_length-encode e payload fits))
  where
    says :
        (e : Envelope) (payload : Bytes)
        → e.payload_length ≡ length payload
        → envelope_size + length payload < 2 ^ 31
        → add32 envelope_size e.payload_length ≡ envelope_size + length payload
    says e payload same fits = omega (arith, same, fits)

-- A whole message, of an identity, a delimiter and an envelope with its payload.
pub run_once-encode :
    (r : Router) (id delimiter : Bytes) (e : Envelope) (payload : Bytes) (rest : List Part)
    → r.has_socket ≡ true
    → r.is_running ≡ true
    → length id < router_id_max_len
    → IsEnvelope e
    → e.protocol_version ≡ 1
    → e.payload_length ≡ length payload
    → envelope_size + length payload < 2 ^ 31
    → run_once r (parts_of (id ∷ delimiter ∷ (encode e ++ payload) ∷ []) ++ rest)
      ≡ returns (record {
        status = success;
        events = events_for (c_string id) e.message_code;
        messages = (c_string id, e, take payload_max_len payload) ∷ [];
        rest = rest;
      })
unfolding run_once read_parts read_delimited parts_of
run_once-encode r id delimiter e payload rest s u l v one same fits =
    let short : leb router_id_max_len (length id) ≡ false = ground (arith, l) in
    rw (s, u, short) (read_message-encode (c_string id) e payload false rest v one same fits)

-- The events that a message with this code makes.
abbrev pub IsEventsOf : Bytes → ℕ → List (Bytes × RouterEvent) → Type 0
IsEventsOf id code events =
    (code ≡ 3 → events ≡ (id, worker_joined) ∷ [])
    × (code ≡ 5 → events ≡ (id, worker_heartbeat) ∷ [])
    × (code ≡ 8 → events ≡ (id, chunk_result) ∷ [])
    × (code ≢ 3 → code ≢ 5 → code ≢ 8 → events ≡ [])

events_for-IsEventsOf : (id : Bytes) (code : ℕ) → IsEventsOf id code (events_for id code)
unfolding events_for
events_for-IsEventsOf id code = ground arith

-- What a call hands on of one message.
pub record IsHandedOn (id : Bytes) (e : Envelope) (payload : Bytes) (rest : List Part) (o : Outcome)
    : Type 0 where
  pub received : Received
  pub returned : o ≡ returns received
  pub status : received.status ≡ success
  pub message : received.messages ≡ (id, e, payload) ∷ []
  pub events : IsEventsOf id e.message_code received.events
  pub left : received.rest ≡ rest

run_once-IsHandedOn :
    (r : Router) (id delimiter : Bytes) (e : Envelope) (payload : Bytes) (rest : List Part)
    → r.has_socket ≡ true
    → r.is_running ≡ true
    → length id < router_id_max_len
    → c_string id ≡ id
    → IsEnvelope e
    → e.protocol_version ≡ 1
    → e.payload_length ≡ length payload
    → envelope_size + length payload < 2 ^ 31
    → IsHandedOn id e
        (take payload_max_len payload)
        rest
        (run_once r (parts_of (id ∷ delimiter ∷ (encode e ++ payload) ∷ []) ++ rest))
run_once-IsHandedOn r id delimiter e payload rest s u l whole v one same fits = record {
  received = record {
    status = success;
    events = events_for id e.message_code;
    messages = (id, e, take payload_max_len payload) ∷ [];
    rest = rest;
  };
  returned =
      run_once-encode r id delimiter e payload rest s u l v one same fits
      ∙ ap
          (λ i. returns (record {
            status = success;
            events = events_for i e.message_code;
            messages = (i, e, take payload_max_len payload) ∷ [];
            rest = rest;
          }))
          whole;
  status = refl;
  message = refl;
  events = events_for-IsEventsOf id e.message_code;
  left = refl;
}

-- A message to a running router, of an identity of at most 63 bytes of which none is 0, a delimiter, and an envelope
-- of version 1 with a payload of at most 4096 bytes that is as long as the envelope says, is handed on once,
-- with the identity, the envelope and the payload as they were sent: with the event of a join, a heartbeat or a
-- chunk's result for the codes 3, 5 and 8, and no event for another code; the parts behind it are left.
pub run_once_dispatches :
    (r : Router) (id delimiter : Bytes) (e : Envelope) (payload : Bytes) (rest : List Part)
    → r.has_socket ≡ true
    → r.is_running ≡ true
    → length id < router_id_max_len
    → c_string id ≡ id
    → IsEnvelope e
    → e.protocol_version ≡ 1
    → e.payload_length ≡ length payload
    → length payload ≤ payload_max_len
    → IsHandedOn id e payload rest
        (run_once r (parts_of (id ∷ delimiter ∷ (encode e ++ payload) ∷ []) ++ rest))
run_once_dispatches r id delimiter e payload rest s u l whole v one same fits =
    subst
      (λ p.
        IsHandedOn id e p rest
          (run_once r (parts_of (id ∷ delimiter ∷ (encode e ++ payload) ∷ []) ++ rest)))
      (take_all payload_max_len payload fits)
      (run_once-IsHandedOn r id delimiter e payload rest s u l whole v one same
        (omega (arith, fits)))

-- A message to a running router, of an identity of at most 63 bytes of which none is 0, a delimiter, and a part of less than
-- 2 ^ 31 bytes with an envelope of version 1 and a payload of more than 4096 bytes that is as long as the envelope says, is
-- handed on as well, with the envelope as it was sent but only the first 4096 bytes of the payload: fewer than the envelope
-- says.
pub run_once_truncates :
    (r : Router) (id delimiter : Bytes) (e : Envelope) (payload : Bytes) (rest : List Part)
    → r.has_socket ≡ true
    → r.is_running ≡ true
    → length id < router_id_max_len
    → c_string id ≡ id
    → IsEnvelope e
    → e.protocol_version ≡ 1
    → e.payload_length ≡ length payload
    → payload_max_len < length payload
    → envelope_size + length payload < 2 ^ 31
    → IsHandedOn id e
        (take payload_max_len payload)
        rest
        (run_once r (parts_of (id ∷ delimiter ∷ (encode e ++ payload) ∷ []) ++ rest))
      × (length (take payload_max_len payload) < e.payload_length)
run_once_truncates r id delimiter e payload rest s u l whole v one same long fits = (
  run_once-IsHandedOn r id delimiter e payload rest s u l whole v one same fits,
  omega (arith, same, long, length-take_le payload_max_len payload),
)
