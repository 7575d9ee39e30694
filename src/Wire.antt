-- ===== src/Wire.antt =====
-- master/src/router.c, worker/src/transport.c and both main.c: the envelope before each message, and the
-- parts of messages as a ZeroMQ socket gives them. `RoundTrip` is about the envelope in memory.
-- The structure has no padding, and the machines are little-endian.
pub mod RoundTrip
use void_os_merger.Base.{
  ℕ, zero, suc, ◌+◌, ◌*◌, ◌/◌, ◌%◌, Bool, true, false, List, [], ◌∷◌, ◌++◌, take, drop, Bytes,
  length, u32_mod, leb, ltb, ◌&&◌, str_eq, if◌then◌else◌,
}

abbrev pub envelope_size : ℕ
envelope_size = 24

abbrev pub payload_max_len : ℕ
payload_max_len = 4096

pub record Envelope : Type 0 where
  pub protocol_version : ℕ
  pub message_code : ℕ
  pub payload_length : ℕ
  pub sequence_id : ℕ
  pub timestamp_ms : ℕ

pub data MessageCode : Type 0 where
  auth_req auth_resp join_req join_resp heartbeat chunk_assign chunk_ack chunk_report : MessageCode

abbrev pub code_of : MessageCode → ℕ
code_of auth_req = 1
code_of auth_resp = 2
code_of join_req = 3
code_of join_resp = 4
code_of heartbeat = 5
code_of chunk_assign = 6
code_of chunk_ack = 7
code_of chunk_report = 8

-- An integer of so many bytes in memory, and the integer that bytes in memory are.
unfoldable pub bytes_of : ℕ → ℕ → Bytes
bytes_of zero n = []
bytes_of (suc width) n = n % 256 ∷ bytes_of width (n / 256)

unfoldable pub number_of : Bytes → ℕ
number_of [] = 0
number_of (b ∷ bs) = b + 256 * number_of bs

-- The envelope as it is copied into a message, and out of one.
unfoldable pub encode : Envelope → Bytes
encode e =
    bytes_of 2 e.protocol_version
    ++ bytes_of 2 e.message_code
    ++ bytes_of 4 e.payload_length
    ++ bytes_of 8 e.sequence_id
    ++ bytes_of 8 e.timestamp_ms

unfoldable pub decode : Bytes → Envelope
decode s = record {
  protocol_version = number_of (take 2 s);
  message_code = number_of (take 2 (drop 2 s));
  payload_length = number_of (take 4 (drop 4 s));
  sequence_id = number_of (take 8 (drop 8 s));
  timestamp_ms = number_of (take 8 (drop 16 s));
}

-- A part of a message as it is received, with `ZMQ_RCVMORE` after it: whether more parts follow.
pub record Part : Type 0 where
  pub content : Bytes
  pub has_more : Bool

-- The `int` that `zmq_recv` returns for a part, by its bits: from 2 ^ 31 on it is negative.
abbrev pub int_length : Bytes → ℕ
int_length s = length s % u32_mod

-- The test of an `int` that is not less than the size of the envelope.
abbrev pub holds_envelope : Bytes → Bool
holds_envelope s = leb envelope_size (int_length s) && ltb (int_length s) 2147483648

-- A message of these parts.
unfoldable pub parts_of : List Bytes → List Part
parts_of [] = []
parts_of (p ∷ []) = record { content = p; has_more = false } ∷ []
parts_of (p ∷ q ∷ ps) = record { content = p; has_more = true } ∷ parts_of (q ∷ ps)

-- What the peer of this identity receives of parts that a socket of type ROUTER is given: the first part names the
-- receiver, and a message to another name is discarded.
abbrev pub to_worker : Bytes → List Bytes → List Part
to_worker identity [] = []
to_worker identity (receiver ∷ frames) = if str_eq receiver identity then parts_of frames else []

-- What a socket of type ROUTER receives of what the peer of this identity sends.
abbrev pub to_router : Bytes → List Bytes → List Part
to_router identity frames = parts_of (identity ∷ frames)
