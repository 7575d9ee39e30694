-- ===== src/Router.antt =====
-- master/src/router.c: the messages to the workers and from them. `Dispatch` is about what is received.
-- ZeroMQ is a parameter: whether a socket is made, bound and written to, and the parts that are received. The
-- callbacks are not null: what they are called with is listed.
pub mod Dispatch
mod Tests
use void_os_merger.Base.{
  ℕ, ◌+◌, ◌*◌, ◌/◌, ◌%◌, Bool, true, false, not, ◌&&◌, Option, none, some, List, [], ◌∷◌, ◌++◌, ltb,
  leb, ◌==◌, if◌then◌else◌, length, take, drop, add32, add64, u64_mod, u32_mod, Bytes, c_string,
}
use void_os_merger.Wire.{
  Envelope, MessageCode, code_of, Part, encode, decode, envelope_size, payload_max_len, int_length,
  holds_envelope,
}

abbrev pub router_id_max_len : ℕ
router_id_max_len = 64

pub data RouterEvent : Type 0 where
  worker_joined worker_heartbeat chunk_progress chunk_result worker_failure cli_control_req :
      RouterEvent
  transport_fault : RouterEvent

pub data RouterStatus : Type 0 where
  success err_version err_size err_socket err_timeout : RouterStatus

-- The type is that of the socket, where there is one.
pub record Router : Type 0 where
  pub has_socket : Bool
  pub socket_type : ℕ
  pub next_seq_id : ℕ
  pub is_running : Bool

-- The context of ZeroMQ is made or not.
unfoldable pub create : Bool → Option Router
create false = none
create true =
    some (record { has_socket = false; socket_type = 0; next_seq_id = 1; is_running = false })

-- The type of the socket that is asked for, which is ZMQ_REP in ZeroMQ.
abbrev pub socket_type_number : ℕ
socket_type_number = 4

unfoldable pub start : Bool → Bool → Router → Router × RouterStatus
start socket_made bound r =
    if not socket_made
    then (record r { has_socket = false }, err_socket)
    else if not bound
    then (record r { has_socket = false }, err_socket)
    else (
      record r { has_socket = true; socket_type = socket_type_number; is_running = true },
      success,
    )

unfoldable pub stop : Router → Router
stop r = record r { is_running = false }

-- The time of `gettimeofday` in milliseconds.
unfoldable pub timestamp_of : ℕ → ℕ → ℕ
timestamp_of tv_sec tv_usec = add64 ((tv_sec * 1000) % u64_mod) (tv_usec / 1000)

-- Whether the socket takes each of the three parts.
pub record Sends : Type 0 where
  pub identity_sent : Bool
  pub delimiter_sent : Bool
  pub message_sent : Bool

-- The parts that the socket took.
pub record Sent : Type 0 where
  pub router : Router
  pub status : RouterStatus
  pub frames : List Bytes

unfoldable pub envelope_for : ℕ → MessageCode → Bytes → ℕ → Envelope
envelope_for seq code payload now = record {
  protocol_version = 1;
  message_code = code_of code;
  payload_length = length payload % u32_mod;
  sequence_id = seq;
  timestamp_ms = now;
}

-- The three sends, with the identifier of the worker as its bytes.
unfoldable pub send_parts : Sends → Bytes → Bytes → Router → Sent
send_parts sends id message r =
    if not sends.identity_sent
    then record { router = r; status = err_socket; frames = [] }
    else if not sends.delimiter_sent
    then record { router = r; status = err_socket; frames = id ∷ [] }
    else if not sends.message_sent
    then record { router = r; status = err_socket; frames = id ∷ [] ∷ [] }
    else record { router = r; status = success; frames = id ∷ [] ∷ message ∷ [] }

unfoldable pub send_to_worker : Sends → ℕ → Bytes → MessageCode → Bytes → Router → Sent
send_to_worker sends now worker_id code payload r =
    if not (r.has_socket && r.is_running)
    then record { router = r; status = err_socket; frames = [] }
    else if ltb payload_max_len (length payload)
    then record { router = r; status = err_size; frames = [] }
    else send_parts sends (c_string worker_id)
        (encode (envelope_for r.next_seq_id code payload now) ++ payload)
        (record r { next_seq_id = add64 r.next_seq_id 1 })

-- What a call returns: its status, the calls of the callbacks, and the parts that are left.
pub record Received : Type 0 where
  pub status : RouterStatus
  pub events : List (Bytes × RouterEvent)
  pub messages : List (Bytes × Envelope × Bytes)
  pub rest : List Part

-- An identity of 64 bytes or more makes the terminator overrun its buffer: `zmq_recv` returns the length of
-- the part, not of what fits. A read of a part waits where there is none.
pub data Outcome : Type 0 where
  overruns blocks : Outcome
  returns : Received → Outcome

abbrev pub refuses : RouterStatus → List (Bytes × RouterEvent) → List Part → Outcome
refuses status events rest =
    returns (record { status = status; events = events; messages = []; rest = rest })

unfoldable pub events_for : Bytes → ℕ → List (Bytes × RouterEvent)
events_for id code =
    if code == 3
    then (id, worker_joined) ∷ []
    else if code == 5
    then (id, worker_heartbeat) ∷ []
    else if code == 8
    then (id, chunk_result) ∷ []
    else []

-- What the buffer holds of a message: the envelope and 4096 bytes.
unfoldable pub buffered : Bytes → Bytes
buffered s = take (envelope_size + payload_max_len) s

-- The message proper.
unfoldable pub read_message : Bytes → Part → List Part → Outcome
read_message id p rest =
    let env = decode (buffered p.content) in
    if not (holds_envelope p.content)
    then refuses err_size ((id, transport_fault) ∷ []) rest
    else if not (env.protocol_version == 1)
    then refuses err_version ((id, transport_fault) ∷ []) rest
    else if not (add32 envelope_size env.payload_length == int_length p.content)
    then refuses err_size ((id, transport_fault) ∷ []) rest
    else returns (record {
      status = success;
      events = events_for id env.message_code;
      messages = (id, env, drop envelope_size (buffered p.content)) ∷ [];
      rest = rest;
    })

unfoldable pub read_delimited : Bytes → List Part → Outcome
read_delimited id [] = blocks
read_delimited id (d ∷ []) = if d.has_more then blocks else refuses err_size [] []
read_delimited id (d ∷ p ∷ ps) =
    if d.has_more then read_message id p ps else refuses err_size [] (p ∷ ps)

unfoldable pub read_parts : List Part → Outcome
read_parts [] = refuses success [] []
read_parts (i ∷ ps) =
    if leb router_id_max_len (length i.content)
    then overruns
    else if not i.has_more
    then refuses err_size [] ps
    else read_delimited (c_string i.content) ps

unfoldable pub run_once : Router → List Part → Outcome
run_once r parts =
    if not (r.has_socket && r.is_running) then refuses err_socket [] parts else read_parts parts
