-- ===== src/Master/Registration.antt =====
-- master/src/main.c and master/src/cluster_state.c: what a join makes of the table of workers.
use void_os_merger.Base.{
  ◌+◌, ◌^◌, ◌≤◌, ◌≢◌, drop, atoi32, ℕ, ◌<◌, ◌≡◌, refl, sym, ap, ◌∙◌, Bool, false, not, ◌&&◌, List,
  [], ◌∷◌, ◌++◌, arith, leb, ◌==◌, if◌then◌else◌, length, take, Bytes, c_string, is_some,
  find_first, Bool-cases, inl, inr, some,
}
use void_os_merger.Wire.{
  Envelope, join_req, encode, bytes_of, number_of, payload_max_len, envelope_size,
}
use void_os_merger.Wire.RoundTrip.{IsEnvelope}
use void_os_merger.Cluster.{
  Snapshot, WorkerMember, online, register_worker, recalculate_aggregates, is_worker,
  cluster_max_workers,
}
use void_os_merger.Cluster.Members.{worker_of}
use void_os_merger.Worker.Main.{worker_envelope, join_payload}
use void_os_merger.Master.{
  Master, Stack, joining_worker, join_resources, worker_number, handle_join, handle_message,
}
use void_os_merger.Master.Joins.{handle_message-encode, handle_envelope-handle_join}

-- A worker is taken into the table if there is room and its number is not there yet.
abbrev pub is_taken : Snapshot → ℕ → Bool
is_taken s id =
    not (leb cluster_max_workers (length s.active_workers)) && not (is_some (worker_of s id))

find-added :
    (w : WorkerMember) (id : ℕ) (ws : List WorkerMember)
    → is_some (find_first (is_worker w.worker_id) ws) ≡ false
    → find_first (is_worker id) (ws ++ w ∷ [])
      ≡ (if id == w.worker_id then some w else find_first (is_worker id) ws)
unfolding find_first
find-added w id [] h = ground arith
find-added w id (v ∷ ws) h = ground (arith, find-added w id ws)

register_worker-worker_of :
    (w : WorkerMember) (id : ℕ) (s : Snapshot)
    → worker_of (register_worker w s).0 id
      ≡ (if is_taken s w.worker_id && (id == w.worker_id) then some w else worker_of s id)
unfolding register_worker recalculate_aggregates
register_worker-worker_of w id s =
    elim (Bool-cases (leb cluster_max_workers (length s.active_workers))) [
      | inl full ↦ rw full refl
      | inr room ↦ rw room (elim (Bool-cases (is_some (worker_of s w.worker_id))) [
        | inl known ↦ rw known refl
        | inr new ↦ rw new (find-added w id s.active_workers new)
      ])
    ]

pub handle_join-worker_of :
    (now : ℕ) (stack : Stack) (identity : Bytes) (e : Envelope) (payload : Bytes) (m : Master)
    (id : ℕ)
    → let old = m.system.context.master_state in
      let w = joining_worker now stack identity e payload in
      let n = handle_join now stack identity e payload m in
      worker_of n.system.context.master_state id
      ≡ (if is_taken old w.worker_id && (id == w.worker_id) then some w else worker_of old id)
unfolding handle_join
handle_join-worker_of now stack identity e payload m id =
    register_worker-worker_of (joining_worker now stack identity e payload) id
      m.system.context.master_state

-- The entry of a worker that joins with this envelope and payload.
pub record IsEntryOf (now number : ℕ) (e : Envelope) (payload : Bytes) (w : WorkerMember)
    : Type 0 where
  pub worker_id : w.worker_id ≡ number
  pub health : w.health ≡ online
  pub seen : w.last_seen_timestamp_ms ≡ now
  pub brought :
      24 ≤ e.payload_length
      → (w.resources.total_cores ≡ number_of (take 4 payload))
        × (w.resources.total_memory_bytes ≡ number_of (take 8 (drop 4 payload)))
  pub assumed :
      e.payload_length < 24
      → (w.resources.total_cores ≡ 4) × (w.resources.total_memory_bytes ≡ 4294967296)
  pub unreserved : (w.resources.reserved_cores ≡ 0) × (w.resources.reserved_memory_bytes ≡ 0)

joining_worker-IsEntryOf :
    (now : ℕ) (stack : Stack) (identity : Bytes) (e : Envelope) (payload : Bytes) (number : ℕ)
    → worker_number stack identity ≡ number
    → IsEntryOf now number e payload (joining_worker now stack identity e payload)
unfolding joining_worker join_resources
joining_worker-IsEntryOf now stack identity e payload number h = record {
  worker_id = h;
  health = refl;
  seen = refl;
  brought = λ l. ground (arith, l);
  assumed = λ l. ground (arith, l);
  unreserved = ground arith;
}

-- The decimal number behind the first seven bytes of an identity, or 1 where that is 0.
abbrev pub IsNumberOf : Stack → Bytes → ℕ → Type 0
IsNumberOf stack identity number =
    let read = atoi32 (c_string (drop 7 (identity ++ 0 ∷ stack.identity_tail))) in
    (read ≡ 0 → number ≡ 1) × (read ≢ 0 → number ≡ read)

worker_number-IsNumberOf :
    (stack : Stack) (identity : Bytes) → IsNumberOf stack identity (worker_number stack identity)
unfolding worker_number
worker_number-IsNumberOf stack identity = ground arith

-- A join gives the worker an entry under the decimal number behind the first seven bytes of its identity, or 1 if that
-- is 0: online, seen at the time of the round, with the cores and the memory that it brings in 24 bytes or more, or else
-- 4 cores and 4 GB, none reserved. The table takes the entry if it has room and none under that number; else it keeps
-- all entries, and it keeps the others in either case. The worker is answered with the code 4, the number of its
-- message and the time of the round in all cases.
pub handle_join-IsEntryOf :
    (now : ℕ) (stack : Stack) (identity : Bytes) (e : Envelope) (payload : Bytes) (m : Master)
    → let old = m.system.context.master_state in
      let n = handle_join now stack identity e payload m in
      (w : WorkerMember) × (number : ℕ) × IsNumberOf stack identity number
      × IsEntryOf now number e payload w
      × ((id : ℕ)
          → worker_of n.system.context.master_state id
            ≡ (if is_taken old number && (id == number) then some w else worker_of old id))
      × (n.outbox
          ≡ (c_string identity
              ∷ []
              ∷ encode (record {
                protocol_version = 1;
                message_code = 4;
                payload_length = 0;
                sequence_id = e.sequence_id;
                timestamp_ms = now;
              })
              ∷ [])
            ∷ m.outbox)
unfolding handle_join joining_worker
handle_join-IsEntryOf now stack identity e payload m = (
  joining_worker now stack identity e payload,
  worker_number stack identity,
  worker_number-IsNumberOf stack identity,
  joining_worker-IsEntryOf now stack identity e payload (worker_number stack identity) refl,
  handle_join-worker_of now stack identity e payload m,
  refl,
)

worker_envelope-IsEnvelope :
    (time cores mem : ℕ) → IsEnvelope (worker_envelope time join_req (join_payload cores mem))
unfolding worker_envelope
worker_envelope-IsEnvelope time cores mem = record {
  protocol_version = omega arith;
  message_code = omega arith;
  payload_length = omega arith;
  sequence_id = omega arith;
  timestamp_ms = omega arith;
}

same_envelope :
    (time cores mem cores' mem' : ℕ)
    → worker_envelope time join_req (join_payload cores mem)
      ≡ worker_envelope time join_req (join_payload cores' mem')
unfolding worker_envelope join_payload bytes_of
same_envelope time cores mem cores' mem' = refl

-- The payload of an envelope that says fewer than 24 bytes is not looked at.
handle_join_short :
    (now : ℕ) (stack : Stack) (identity : Bytes) (e : Envelope) (p q : Bytes) (m : Master)
    → e.payload_length < 24
    → handle_join now stack identity e p m ≡ handle_join now stack identity e q m
unfolding handle_join joining_worker join_resources
handle_join_short now stack identity e p q m h =
    let short : leb 24 e.payload_length ≡ false = ground (arith, h) in rw short refl

join_handled :
    (now time cores mem : ℕ) (stack : Stack) (identity : Bytes) (m : Master)
    → handle_message now stack identity
        (encode (worker_envelope time join_req (join_payload cores mem)) ++ join_payload cores mem)
        m
      ≡ handle_join now stack identity (worker_envelope time join_req (join_payload 0 0)) [] m
unfolding worker_envelope
join_handled now time cores mem stack identity m =
    let e = worker_envelope time join_req (join_payload cores mem) in
    let payload = take payload_max_len (join_payload cores mem) ++ stack.message_tail in
    handle_message-encode now stack identity e (join_payload cores mem) m
      (worker_envelope-IsEnvelope time cores mem) refl twelve_bytes
    ∙ (handle_envelope-handle_join now stack identity e payload m refl
        ∙ (ap (λ e. handle_join now stack identity e payload m) (same_envelope time cores mem 0 0)
            ∙ handle_join_short now stack identity
                (worker_envelope time join_req (join_payload 0 0)) payload [] m says_twelve))
  where
    twelve_bytes : envelope_size + length (join_payload cores mem) < 2 ^ 31
    twelve_bytes = unfold join_payload bytes_of in omega arith

    says_twelve : (worker_envelope time join_req (join_payload 0 0)).payload_length < 24
    says_twelve = unfold worker_envelope join_payload bytes_of in omega arith

-- The cores and the memory that a worker brings with its join have no effect: it says that it brings 12 bytes,
-- and the master takes none where there are fewer than 24.
pub handle_message_ignores_capabilities :
    (now time cores mem cores' mem' : ℕ) (stack : Stack) (identity : Bytes) (m : Master)
    → handle_message now stack identity
        (encode (worker_envelope time join_req (join_payload cores mem)) ++ join_payload cores mem)
        m
      ≡ handle_message now stack identity
          (encode (worker_envelope time join_req (join_payload cores' mem'))
            ++ join_payload cores' mem')
          m
handle_message_ignores_capabilities now time cores mem cores' mem' stack identity m =
    join_handled now time cores mem stack identity m
    ∙ sym (join_handled now time cores' mem' stack identity m)
