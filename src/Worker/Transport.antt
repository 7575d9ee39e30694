-- ===== src/Worker/Transport.antt =====
-- worker/src/transport.c: the worker's side of the connection to the master.
-- ZeroMQ is a parameter: whether a socket is made, connected and written to, and the parts that are received.
-- The callbacks are not null: what they are called with is listed.
use void_os_merger.Base.{
  ℕ, ◌+◌, Bool, true, false, not, ◌&&◌, Option, none, some, List, [], ◌∷◌, ◌++◌, ltb, leb, ◌==◌,
  if◌then◌else◌, length, drop, add64, Bytes,
}
use void_os_merger.Wire.{
  Envelope, MessageCode, Part, encode, decode, envelope_size, payload_max_len, int_length,
}
use void_os_merger.Router.{buffered, envelope_for}

pub data TransportEvent : Type 0 where
  connected authenticated joined heartbeat_sent heartbeat_acked disconnected reconnecting :
      TransportEvent
  error : TransportEvent

pub data TransportStatus : Type 0 where
  success err_version err_auth err_size err_timeout err_disconnect : TransportStatus

pub record TransportConfig : Type 0 where
  pub worker_id : Bytes
  pub server_public_key : Bytes
  pub client_public_key : Bytes
  pub client_secret_key : Bytes

pub record Transport : Type 0 where
  pub has_socket : Bool
  pub config : TransportConfig
  pub next_seq_id : ℕ
  pub is_connected : Bool
  pub is_authenticated : Bool
  pub is_joined : Bool

abbrev pub no_config : TransportConfig
no_config = record {
  worker_id = [];
  server_public_key = [];
  client_public_key = [];
  client_secret_key = [];
}

-- The context of ZeroMQ is made or not.
unfoldable pub create : Bool → Option Transport
create false = none
create true = some (record {
  has_socket = false;
  config = no_config;
  next_seq_id = 1;
  is_connected = false;
  is_authenticated = false;
  is_joined = false;
})

unfoldable pub configure : TransportConfig → Transport → Transport × TransportStatus
configure config t = (record t { config = config }, success)

abbrev pub is_set : Bytes → Bool
is_set [] = false
is_set (b ∷ bs) = true

-- The options of the socket that depend on the configuration, by their numbers.
unfoldable pub options : TransportConfig → List (ℕ × Bytes)
options config =
    let identity = if is_set config.worker_id then (6, config.worker_id) ∷ [] else [] in
    if is_set config.server_public_key && is_set config.client_secret_key
    then identity
      ++ ((46, config.server_public_key)
          ∷ (44, config.client_public_key)
          ∷ (45, config.client_secret_key)
          ∷ [])
    else identity

unfoldable pub connect : Bool → Bool → Transport → Transport × TransportStatus
connect socket_made reached t =
    if not socket_made
    then (record t { has_socket = false }, err_disconnect)
    else if not reached
    then (record t { has_socket = false }, err_disconnect)
    else (record t { has_socket = true; is_connected = true }, success)

unfoldable pub disconnect : Transport → Transport × TransportStatus
disconnect t = if not t.has_socket then (t, err_disconnect) else (
  record t {
    has_socket = false;
    is_connected = false;
    is_authenticated = false;
    is_joined = false;
  },
  success,
)

-- The parts that the socket took.
pub record Sent : Type 0 where
  pub transport : Transport
  pub status : TransportStatus
  pub frames : List Bytes

-- `sent` is whether the socket takes the message, `now` the time in milliseconds.
unfoldable pub send : Bool → ℕ → MessageCode → Bytes → Transport → Sent
send sent now code payload t =
    let next = record t { next_seq_id = add64 t.next_seq_id 1 } in
    if not (t.has_socket && t.is_connected)
    then record { transport = t; status = err_disconnect; frames = [] }
    else if ltb payload_max_len (length payload)
    then record { transport = t; status = err_size; frames = [] }
    else if not sent
    then record { transport = next; status = err_disconnect; frames = [] }
    else record {
      transport = next;
      status = success;
      frames = (encode (envelope_for t.next_seq_id code payload now) ++ payload) ∷ [];
    }

pub record Polled : Type 0 where
  pub transport : Transport
  pub status : TransportStatus
  pub events : List TransportEvent
  pub messages : List (Envelope × Bytes)
  pub rest : List Part

-- What a message makes of the state, and the event of its code.
unfoldable pub note_message : ℕ → Transport → Transport × List TransportEvent
note_message code t =
    if code == 2
    then (record t { is_authenticated = true }, authenticated ∷ [])
    else if code == 4
    then (record t { is_joined = true }, joined ∷ [])
    else if code == 5
    then (t, heartbeat_acked ∷ [])
    else (t, [])

abbrev pub faults : TransportStatus → List Part → Transport → Polled
faults status rest t = record {
  transport = t;
  status = status;
  events = error ∷ [];
  messages = [];
  rest = rest;
}

unfoldable pub read_part : Part → List Part → Transport → Polled
read_part p rest t =
    let env = decode (buffered p.content) in
    let noted = note_message env.message_code t in
    if ltb (int_length p.content) envelope_size
    then faults err_size rest t
    else if not (env.protocol_version == 1)
    then faults err_version rest t
    else if not (envelope_size + env.payload_length == int_length p.content)
    then faults err_size rest t
    else record {
      transport = noted.0;
      status = success;
      events = noted.1;
      messages = (env, drop envelope_size (buffered p.content)) ∷ [];
      rest = rest;
    }

unfoldable pub poll : List Part → Transport → Polled
poll parts t =
    if not t.has_socket
    then record { transport = t; status = err_disconnect; events = []; messages = []; rest = parts }
    else elim parts [
      | [] ↦ record { transport = t; status = success; events = []; messages = []; rest = [] }
      | p ∷ rest ↦
          if leb 2147483648 (int_length p.content)
          then record { transport = t; status = success; events = []; messages = []; rest = rest }
          else read_part p rest t
    ]
