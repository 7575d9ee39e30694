-- ===== src/Master.antt =====
-- master/src/main.c: the loop of the master, which takes messages from the workers into the state of the cluster
-- and writes its journal. `Framing` is about the parts that a round reads, `Joins` and `Registration` about a worker that joins, `Collisions` about two,
-- and `Running` about the loop; `Boot` has what
-- precedes it.
-- What the sockets, the clock and the file system give is a parameter, and so is what the buffers on the
-- stack hold from before. The output, the signal handlers and the options of the socket are left out.
pub mod Boot
pub mod Framing
pub mod Joins
pub mod Registration
pub mod Running
pub mod Collisions
mod Tests
use void_os_merger.Base.{
  ℕ, ◌+◌, ◌*◌, ◌%◌, Bool, true, false, not, Option, none, some, List, [], ◌∷◌, ◌++◌, ltb, leb, ◌==◌,
  if◌then◌else◌, length, take, drop, add64, sub64, u64_mod, Bytes, c_string, atoi32,
}
use void_os_merger.Wire.{Envelope, Part, number_of, encode, decode, envelope_size, holds_envelope}
use void_os_merger.Router.{buffered}
use void_os_merger.Cluster.{
  Snapshot, WorkerMember, WorkerResources, online, register_worker, process_heartbeat,
}
use void_os_merger.Cluster.Snapshots.{
  System, Journal, Writing, step, started, recovers, acquires, releases, persists, with_state,
  acquire_snapshot,
}

abbrev pub id_buffer_size : ℕ
id_buffer_size = 64

abbrev pub scheduler_tick_interval_ms : ℕ
scheduler_tick_interval_ms = 1000

-- What the buffers hold behind the bytes that are received.
pub record Stack : Type 0 where
  pub identity_tail : Bytes
  pub message_tail : Bytes

-- `outbox` is what was given to the socket to send, in parts, the last message first.
pub record Master : Type 0 where
  pub system : System
  pub inbox : List Part
  pub outbox : List (List Bytes)
  pub simulated_tick_count : ℕ
  pub last_wal_persist_ms : ℕ
  pub last_scheduler_tick_ms : ℕ

-- `atoi(id_buf + 7)`, where 0 counts as 1.
unfoldable pub worker_number : Stack → Bytes → ℕ
worker_number stack identity =
    let id = atoi32 (c_string (drop 7 (identity ++ 0 ∷ stack.identity_tail))) in
    if id == 0 then 1 else id

-- The capabilities that a join brings, or those taken where it says that it brings too few bytes.
unfoldable pub join_resources : Envelope → Bytes → WorkerResources
join_resources env payload =
    if leb 24 env.payload_length
    then record {
      total_memory_bytes = number_of (take 8 (drop 4 payload));
      reserved_memory_bytes = 0;
      total_cores = number_of (take 4 payload);
      reserved_cores = 0;
    }
    else record {
      total_memory_bytes = 4294967296;
      reserved_memory_bytes = 0;
      total_cores = 4;
      reserved_cores = 0;
    }

unfoldable pub joining_worker : ℕ → Stack → Bytes → Envelope → Bytes → WorkerMember
joining_worker now stack identity env payload = record {
  worker_id = worker_number stack identity;
  health = online;
  last_seen_timestamp_ms = now;
  resources = join_resources env payload;
}

-- `state_generation_version++`.
abbrev pub bump : Snapshot → Snapshot
bump s = record s { state_generation_version = add64 s.state_generation_version 1 }

abbrev pub join_response : ℕ → Envelope → Envelope
join_response now env = record {
  protocol_version = 1;
  message_code = 4;
  payload_length = 0;
  sequence_id = env.sequence_id;
  timestamp_ms = now;
}

unfoldable pub handle_join : ℕ → Stack → Bytes → Envelope → Bytes → Master → Master
handle_join now stack identity env payload m =
    let registered =
      register_worker (joining_worker now stack identity env payload)
        m.system.context.master_state in
    record m {
      system = with_state m.system (bump registered.0);
      outbox = (c_string identity ∷ [] ∷ encode (join_response now env) ∷ []) ∷ m.outbox;
    }

unfoldable pub handle_heartbeat : ℕ → Stack → Bytes → Master → Master
handle_heartbeat now stack identity m = record m {
  system =
      with_state m.system (
        bump
          (process_heartbeat (worker_number stack identity) now m.system.context.master_state).0);
}

-- The report of a chunk and the other codes change nothing.
unfoldable pub handle_envelope : ℕ → Stack → Bytes → Envelope → Bytes → Master → Master
handle_envelope now stack identity env payload m =
    if env.message_code == 3
    then handle_join now stack identity env payload m
    else if env.message_code == 5
    then handle_heartbeat now stack identity m
    else m

unfoldable pub handle_message : ℕ → Stack → Bytes → Bytes → Master → Master
handle_message now stack identity message m =
    let env = decode (buffered message) in
    if not (holds_envelope message)
    then m
    else if not (env.protocol_version == 1)
    then m
    else handle_envelope now stack identity env
        (drop envelope_size (buffered message ++ stack.message_tail)) m

-- An identity of 64 bytes or more makes the terminator overrun its buffer. Where a part is read that is not
-- there, the loop waits for it.
pub data Step : Type 0 where
  overruns waits : Step
  goes_on : Master → Step

unfoldable pub receive_rest : ℕ → Stack → Bytes → List Part → Master → Step
receive_rest now stack identity (delimiter ∷ p ∷ rest) m =
    goes_on (handle_message now stack identity p.content (record m { inbox = rest }))
receive_rest now stack identity _ m = waits

-- The first read does not wait, and nothing more is read after an empty identity.
unfoldable pub receive : ℕ → Stack → List Part → Master → Step
receive now stack [] m = goes_on (record m { inbox = [] })
receive now stack (i ∷ rest) m =
    if length i.content == 0
    then goes_on (record m { inbox = rest })
    else if leb id_buffer_size (length i.content)
    then overruns
    else receive_rest now stack i.content rest m

unfoldable pub tick_scheduler : ℕ → Master → Master
tick_scheduler now m =
    if leb scheduler_tick_interval_ms (sub64 now m.last_scheduler_tick_ms)
    then record m { last_scheduler_tick_ms = now }
    else m

unfoldable pub persist_periodically : ℕ → Writing → Master → Master
persist_periodically now writing m =
    if leb 1000 (sub64 now m.last_wal_persist_ms)
    then record m { system = step m.system (persists writing); last_wal_persist_ms = now }
    else m

-- What one round of the loop meets: the time, the parts that came in since the last, the buffers, and what the
-- file system does if the journal is written.
pub record Round : Type 0 where
  pub now_ms : ℕ
  pub arrivals : List Part
  pub stack : Stack
  pub writing : Writing

abbrev pub finish_round : Round → Step → Step
finish_round r overruns = overruns
finish_round r waits = waits
finish_round r (goes_on m) =
    goes_on (persist_periodically r.now_ms r.writing (tick_scheduler r.now_ms m))

unfoldable pub round : Round → Master → Step
round r m =
    let arrived = record m {
      inbox = m.inbox ++ r.arrivals;
      simulated_tick_count = add64 m.simulated_tick_count 1;
    } in
    finish_round r (receive r.now_ms r.stack arrived.inbox arrived)

-- The rounds until the signal to shut down.
unfoldable pub loop : List Round → Step → Step
loop [] s = s
loop (r ∷ rs) overruns = overruns
loop (r ∷ rs) waits = waits
loop (r ∷ rs) (goes_on m) = loop rs (round r m)
