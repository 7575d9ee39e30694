-- ===== src/Worker/Main.antt =====
-- worker/src/main.c: the worker's arguments, its messages, the wait for the answer to its join, and its loop.
-- What the socket and the clock give is a parameter, and so is what the buffer on the stack holds from
-- before. The self-test, the signals, the identifier from hardware and the options of the socket are left out.
use void_os_merger.Base.{
  ℕ, zero, suc, ◌*◌, ◌%◌, Bool, true, false, not, ◌||◌, Option, none, some, List, [], ◌∷◌, ◌++◌,
  ltb, leb, ◌==◌, if◌then◌else◌, length, take, drop, sub64, u64_mod, u32_mod, Bytes, str_eq,
  strncpy,
}
use void_os_merger.Wire.{
  Envelope, MessageCode, join_req, heartbeat, chunk_ack, code_of, Part, bytes_of, encode, decode,
  envelope_size, payload_max_len, holds_envelope,
}
use void_os_merger.Router.{buffered}

pub record Names : Type 0 where
  pub master_endpoint : Bytes
  pub worker_id : Bytes

-- "--connect", "--id", "--help" and "-h".
abbrev pub connect_option : Bytes
connect_option = 45 ∷ 45 ∷ 99 ∷ 111 ∷ 110 ∷ 110 ∷ 101 ∷ 99 ∷ 116 ∷ []

abbrev pub id_option : Bytes
id_option = 45 ∷ 45 ∷ 105 ∷ 100 ∷ []

abbrev pub help_option : Bytes
help_option = 45 ∷ 45 ∷ 104 ∷ 101 ∷ 108 ∷ 112 ∷ []

abbrev pub short_help_option : Bytes
short_help_option = 45 ∷ 104 ∷ []

abbrev pub asks_help : Bytes → Bool
asks_help arg = str_eq arg help_option || str_eq arg short_help_option

-- The arguments behind the name of the program. None is the end of the program after its help.
unfoldable pub cli_parse : List Bytes → Names → Option Names
cli_parse [] n = some n
cli_parse (arg ∷ []) n = if asks_help arg then none else some n
cli_parse (arg ∷ val ∷ rest) n = elim (str_eq arg connect_option) [
  | true ↦ cli_parse rest (record n { master_endpoint = strncpy 256 val })
  | false ↦ elim (str_eq arg id_option) [
    | true ↦ cli_parse rest (record n { worker_id = strncpy 64 val })
    | false ↦ elim (asks_help arg) [ true ↦ none | false ↦ cli_parse (val ∷ rest) n ]
  ]
]

unfoldable pub worker_envelope : ℕ → MessageCode → Bytes → Envelope
worker_envelope time code payload = record {
  protocol_version = 1;
  message_code = code_of code;
  payload_length = length payload % u32_mod;
  sequence_id = 0;
  timestamp_ms = (time * 1000) % u64_mod;
}

-- The parts that the socket takes, which is one or, where there is no memory or the socket refuses it, none.
unfoldable pub send_envelope : Bool → ℕ → MessageCode → Bytes → List Bytes × Bool
send_envelope taken time code payload =
    if taken
    then ((encode (worker_envelope time code payload) ++ payload) ∷ [], true)
    else ([], false)

-- The payload of the join: the cores and the memory.
unfoldable pub join_payload : ℕ → ℕ → Bytes
join_payload cores mem = bytes_of 4 cores ++ bytes_of 8 mem

-- What `recv_envelope` gives: it waits where no part is there; else false, or an envelope and its payload.
pub data Reading : Type 0 where
  waits : Reading
  fails : List Part → Reading
  reads : Envelope → Bytes → List Part → Reading

-- `stale` is what the buffer holds behind the part.
unfoldable pub recv_envelope : Bytes → List Part → Reading
recv_envelope stale [] = waits
recv_envelope stale (p ∷ rest) =
    let env = decode (buffered p.content) in
    if not (holds_envelope p.content)
    then fails rest
    else if ltb payload_max_len env.payload_length
    then fails rest
    else reads env (take env.payload_length (drop envelope_size (buffered p.content ++ stale))) rest

-- The wait for the answer to the join: whether it came, and the parts that are left.
pub data Waiting : Type 0 where
  stays : Waiting
  ends : Bool → List Part → Waiting

unfoldable pub await_join : ℕ → Bytes → List Part → Waiting
await_join zero stale parts = ends false parts
await_join (suc n) stale parts = elim (recv_envelope stale parts) [
  | waits ↦ stays
  | fails rest ↦ await_join n stale rest
  | reads env payload rest ↦ elim (env.message_code == 4) [
    | true ↦ ends true rest
    | false ↦ await_join n stale rest
  ]
]

pub record Worker : Type 0 where
  pub inbox : List Part
  pub outbox : List (List Bytes)
  pub last_heartbeat_ms : ℕ

pub record WorkerRound : Type 0 where
  pub time : ℕ
  pub arrivals : List Part
  pub stale : Bytes
  pub taken : Bool

pub data WorkerStep : Type 0 where
  is_stuck : Worker → WorkerStep
  goes_on : Worker → WorkerStep

abbrev pub post : List Bytes × Bool → Worker → Worker
post sent w = record w { outbox = sent.0 ∷ w.outbox }

unfoldable pub beat : WorkerRound → Worker → Worker
beat r w =
    let now = (r.time * 1000) % u64_mod in
    if leb 5000 (sub64 now w.last_heartbeat_ms)
    then post (send_envelope r.taken r.time heartbeat []) (record w { last_heartbeat_ms = now })
    else w

-- A chunk that is assigned is acknowledged, and not run.
unfoldable pub answer : WorkerRound → Envelope → Worker → Worker
answer r env w =
    if env.message_code == 6 then post (send_envelope r.taken r.time chunk_ack []) w else w

unfoldable pub work_round : WorkerRound → Worker → WorkerStep
work_round r w =
    let beaten = beat r (record w { inbox = w.inbox ++ r.arrivals }) in
    elim (recv_envelope r.stale beaten.inbox) [
      | waits ↦ is_stuck beaten
      | fails rest ↦ goes_on (record beaten { inbox = rest })
      | reads env payload rest ↦ goes_on (answer r env (record beaten { inbox = rest }))
    ]

-- The rounds until the signal to stop.
unfoldable pub work : List WorkerRound → WorkerStep → WorkerStep
work [] s = s
work (r ∷ rs) (is_stuck w) = is_stuck w
work (r ∷ rs) (goes_on w) = work rs (work_round r w)

-- What the start meets: whether there is a context, a socket and a connection, and whether the join is taken;
-- the time of the join and that of the loop, the parts that come in, and the buffer.
pub record Launch : Type 0 where
  pub context_made : Bool
  pub socket_made : Bool
  pub connected : Bool
  pub taken : Bool
  pub join_time : ℕ
  pub loop_time : ℕ
  pub arrivals : List Part
  pub stale : Bytes

-- The end of the program with 1, the wait for an answer that does not end, or the start of the loop, which is
-- the same whether the answer came or not.
pub data Launched : Type 0 where
  fails_early keeps_waiting : Launched
  enters_loop : Worker → Launched

abbrev pub joined_worker : Launch → List Bytes → List Part → Worker
joined_worker l sent inbox = record {
  inbox = inbox;
  outbox = sent ∷ [];
  last_heartbeat_ms = (l.loop_time * 1000) % u64_mod;
}

unfoldable pub await_answer : Launch → List Bytes → Launched
await_answer l sent = elim (await_join 50 l.stale l.arrivals) [
  | stays ↦ keeps_waiting
  | ends joined rest ↦ enters_loop (joined_worker l sent rest)
]

unfoldable pub launch_worker : Launch → Launched
launch_worker l =
    let joins = send_envelope l.taken l.join_time join_req (join_payload 4 4294967296) in
    if not l.context_made
    then fails_early
    else if not l.socket_made
    then fails_early
    else if not l.connected
    then fails_early
    else if not joins.1
    then fails_early
    else await_answer l joins.0
