-- ===== src/Master/Tests.antt =====
-- master/src/main.c: a master that starts, and workers that join it.
use void_os_merger.Base.{
  ℕ, ◌<◌, length, ◌≡◌, ◌&&◌, ◌==◌, refl, true, some, none, List, [], ◌∷◌, ◌++◌, arith, All,
  if◌then◌else◌, Bytes, c_string, atoi32, signed_digits, skip_space, digits, is_space,
}
use void_os_merger.Wire.{Envelope, parts_of, to_router, encode, join_req, chunk_report}
use void_os_merger.Wire.RoundTrip.{IsEnvelope}
use void_os_merger.Master.Framing.{IsFramed}
use void_os_merger.Cluster.Members.{worker_of}
use void_os_merger.Cluster.Snapshots.{
  whole, refused, step, started, create, recover_from_wal, acquire_snapshot, release_snapshot,
}
use void_os_merger.Worker.Main.{worker_envelope, send_envelope, join_payload}
use void_os_merger.Master.{
  Master, Stack, Round, goes_on, waits, loop, receive, handle_join, handle_message, join_response,
  worker_number,
}
use void_os_merger.Master.Boot.{start_up}
use void_os_merger.Master.Running.{IsRunning, backlog, loop-start_up-IsRunning}
use void_os_merger.Master.Joins.{IsJoined, receive-IsJoined, receive-send_envelope}
use void_os_merger.Cluster.{WorkerMember, cluster_max_workers, created, recalculate_aggregates}
use void_os_merger.Worker.Identity.{IsLettered, generate_worker_id}
use void_os_merger.Master.Collisions.{handle_join-collides}
use void_os_merger.Master.Registration.{
  is_taken, IsNumberOf, IsEntryOf, handle_join-IsEntryOf, handle_message_ignores_capabilities,
}

-- "worker-7".
abbrev seventh : Bytes
seventh = 119 ∷ 111 ∷ 114 ∷ 107 ∷ 101 ∷ 114 ∷ 45 ∷ 55 ∷ []

abbrev clean : Stack
clean = record { identity_tail = []; message_tail = [] }

abbrev join : Envelope
join = record {
  protocol_version = 1;
  message_code = 3;
  payload_length = 0;
  sequence_id = 9;
  timestamp_ms = 500;
}

join-IsEnvelope : IsEnvelope join
join-IsEnvelope = record {
  protocol_version = omega arith;
  message_code = omega arith;
  payload_length = omega arith;
  sequence_id = omega arith;
  timestamp_ms = omega arith;
}

abbrev fresh : Master
fresh = start_up (118 ∷ []) 1000 none

abbrev rounds : List Round
rounds =
    record {
      now_ms = 2000;
      arrivals = parts_of (seventh ∷ [] ∷ (encode join ++ []) ∷ []);
      stack = clean;
      writing = whole;
    }
    ∷ record { now_ms = 2500; arrivals = []; stack = clean; writing = refused }
    ∷ []

rounds-AllFramed : All (λ r. IsFramed r.arrivals) rounds
unfolding parts_of
rounds-AllFramed = ((omega arith, omega arith, tt), (tt, tt))

loop-start_up-IsRunning_example :
    IsRunning (backlog rounds 0) (loop rounds (goes_on (start_up (118 ∷ []) 1000 none)))
loop-start_up-IsRunning_example =
    loop-start_up-IsRunning (118 ∷ []) 1000 none rounds tt rounds-AllFramed

whole_seventh : c_string seventh ≡ seventh
unfolding c_string
whole_seventh = refl

receive-IsJoined_example :
    IsJoined seventh [] 50
      (receive 2000 clean (parts_of (seventh ∷ [] ∷ (encode join ++ []) ∷ [])) fresh)
      fresh
receive-IsJoined_example =
    receive-IsJoined 2000 clean seventh [] join [] fresh 48 [] (omega arith) (omega arith)
      join-IsEnvelope refl refl (omega arith) whole_seventh (omega arith)

receive-send_envelope_example :
    receive 2000 clean (to_router seventh (send_envelope true 2 chunk_report (7 ∷ [])).0) fresh
    ≡ waits
receive-send_envelope_example =
    receive-send_envelope 2000 2 clean seventh chunk_report (7 ∷ []) fresh (omega arith)
      (omega arith)

handle_join-IsEntryOf_example :
    let n = handle_join 2000 clean seventh join [] fresh in
    (w : WorkerMember) × (number : ℕ) × IsNumberOf clean seventh number
    × IsEntryOf 2000 number join [] w
    × ((id : ℕ)
        → worker_of n.system.context.master_state id ≡ (
            if is_taken fresh.system.context.master_state number && (id == number)
            then some w
            else worker_of fresh.system.context.master_state id))
    × (n.outbox
        ≡ (c_string seventh
            ∷ []
            ∷ encode (record {
              protocol_version = 1;
              message_code = 4;
              payload_length = 0;
              sequence_id = 9;
              timestamp_ms = 2000;
            })
            ∷ [])
          ∷ fresh.outbox)
handle_join-IsEntryOf_example = handle_join-IsEntryOf 2000 clean seventh join [] fresh

handle_message_ignores_capabilities_example :
    handle_message 2000 clean seventh
      (encode (worker_envelope 2 join_req (join_payload 4 4294967296)) ++ join_payload 4 4294967296)
      fresh
    ≡ handle_message 2000 clean seventh
        (encode (worker_envelope 2 join_req (join_payload 64 8)) ++ join_payload 64 8)
        fresh
handle_message_ignores_capabilities_example =
    handle_message_ignores_capabilities 2000 2 4 4294967296 64 8 clean seventh fresh

number_of_seventh : worker_number clean seventh ≡ 7
unfolding worker_number atoi32 signed_digits skip_space digits is_space c_string
number_of_seventh = refl

-- "0a:1b:2c:ad:45:67" and "00:00:00:be:ef:01".
abbrev one_address : Bytes
one_address =
    48 ∷ 97 ∷ 58 ∷ 49 ∷ 98 ∷ 58 ∷ 50 ∷ 99 ∷ 58 ∷ 97 ∷ 100 ∷ 58 ∷ 52 ∷ 53 ∷ 58 ∷ 54 ∷ 55 ∷ []

abbrev other_address : Bytes
other_address =
    48 ∷ 48 ∷ 58 ∷ 48 ∷ 48 ∷ 58 ∷ 48 ∷ 48 ∷ 58 ∷ 98 ∷ 101 ∷ 58 ∷ 101 ∷ 102 ∷ 58 ∷ 48 ∷ 49 ∷ []

one_address-IsLettered : IsLettered one_address
one_address-IsLettered = record {
  letter = 97;
  tenth = refl;
  from_a = omega arith;
  to_f = omega arith;
}

other_address-IsLettered : IsLettered other_address
other_address-IsLettered = record {
  letter = 98;
  tenth = refl;
  from_a = omega arith;
  to_f = omega arith;
}

fresh_room : length fresh.system.context.master_state.active_workers < cluster_max_workers
unfolding start_up step started create created recover_from_wal acquire_snapshot release_snapshot
    recalculate_aggregates
fresh_room = omega arith

handle_join-collides_example :
    let id = generate_worker_id (some one_address) 11 1000 in
    let id' = generate_worker_id (some other_address) 12 1001 in
    let first = handle_join 2000 clean id join [] fresh in
    let second = handle_join 2100 clean id' join [] first in
    ((n : ℕ)
      → worker_of second.system.context.master_state n
        ≡ worker_of first.system.context.master_state n)
    × (second.outbox ≡ (c_string id' ∷ [] ∷ encode (join_response 2100 join) ∷ []) ∷ first.outbox)
handle_join-collides_example =
    handle_join-collides 2000 2100 clean clean one_address other_address 11 12 1000 1001 join join
      [] [] fresh one_address-IsLettered other_address-IsLettered fresh_room
