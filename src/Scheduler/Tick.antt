-- ===== src/Scheduler/Tick.antt =====
-- master/src/scheduler.c: `vom_scheduler_tick`, `vom_scheduler_release_lease`, and the calls of the
-- module in any order.
use void_os_merger.Base.{
  ℕ, ◌-◌, Bool, true, false, not, Option, none, some, List, [], ◌∷◌, ◌++◌, ltb, ◌==◌, if◌then◌else◌,
  is_some, length, get_elem?, modify, find_first, update_first, remove_first, add64, strncpy,
}
use void_os_merger.Scheduler.{
  Platform, WorkerView, ChunkPlan, Lease, State, max_schunks, holds, is_chunk, best_worker, no_best,
  give_back, reserve, register_worker, submit_ready_chunk,
}

abbrev pub deactivate : Lease → Lease
deactivate l = record l { is_active = false }

-- The table with the new lease, in the first inactive slot or at the end; none if it is full.
unfoldable pub place_lease : Lease → List Lease → Option (List Lease)
place_lease new leases =
    if is_some (find_first (λ l. not l.is_active) leases)
    then some (update_first (λ l. not l.is_active) (λ _. new) leases)
    else if ltb (length leases) max_schunks
    then some (leases ++ new ∷ [])
    else none

module _ {F : Type 0} where
  -- A lease whose time is over becomes inactive, and its worker gets back what it held.
  unfoldable pub expire : ChunkPlan → Lease → State F → State F
  expire chunk l s = record s {
    leases = update_first (holds chunk.chunk_id) deactivate s.leases;
    workers = give_back chunk l.assigned_worker_id s.workers;
  }

  -- The search for a lease of the chunk: `already_leased`, and the tables after an expiry.
  unfoldable pub check_lease : ℕ → ChunkPlan → State F → Bool × State F
  check_lease now chunk s = elim (find_first (holds chunk.chunk_id) s.leases) [
    | none ↦ (false, s)
    | some l ↦ if ltb l.lease_expires_ms now then (false, expire chunk l s) else (true, s)
  ]

  unfoldable pub new_lease : ℕ → ChunkPlan → WorkerView F → Lease
  new_lease now chunk w = record {
    chunk_id = chunk.chunk_id;
    assigned_worker_id = strncpy 64 w.worker_id;
    lease_expires_ms = add64 now 30000;
    is_active = true;
  }

  -- The reservation is made before the slot is looked for, and stays if there is none.
  unfoldable pub grant : ℕ → ChunkPlan → ℕ → WorkerView F → State F → State F × List Lease
  grant now chunk i w s =
      let lease = new_lease now chunk w in
      let reserved = record s { workers = modify (reserve chunk) i s.workers } in
      elim (place_lease lease s.leases) [
        | none ↦ (reserved, [])
        | some leases ↦ (record reserved { leases = leases }, lease ∷ [])
      ]

  unfoldable pub assign : Platform F → ℕ → ChunkPlan → State F → State F × List Lease
  assign d now chunk s = elim (best_worker d chunk s.workers 0 (no_best d)).index [
    | none ↦ (s, [])
    | some i ↦ elim (get_elem? s.workers i) [ none ↦ (s, []) | some w ↦ grant now chunk i w s ]
  ]

  abbrev pub after_check : Platform F → ℕ → ChunkPlan → Bool × State F → State F × List Lease
  after_check d now chunk (true, s) = (s, [])
  after_check d now chunk (false, s) = assign d now chunk s

  -- One round of the loop over the chunks, with the leases that it adds to `out_leases`.
  unfoldable pub tick_chunk : Platform F → ℕ → ChunkPlan → State F → State F × List Lease
  tick_chunk d now chunk s =
      if chunk.is_blocked then (s, []) else after_check d now chunk (check_lease now chunk s)

  -- The loop; `room` is `max_leases - dispatched_count`, which stops it at 0.
  unfoldable pub tick_loop : Platform F → ℕ → List ChunkPlan → ℕ → State F → State F × List Lease
  tick_loop d now [] room s = (s, [])
  tick_loop d now (chunk ∷ chunks) room s =
      let round = tick_chunk d now chunk s in
      let rest = tick_loop d now chunks (room - length round.1) round.0 in
      if room == 0 then (s, []) else (rest.0, round.1 ++ rest.1)

  -- A `max_leases` below 0 acts as 0. No call in the loop changes the chunks.
  unfoldable pub tick : Platform F → ℕ → ℕ → State F → State F × List Lease
  tick d now max_leases s = tick_loop d now s.chunks max_leases s

  unfoldable pub release_lease : ℕ → State F → State F
  release_lease id s = elim (find_first (holds id) s.leases) [
    | none ↦ s
    | some l ↦
        let leases = update_first (holds id) deactivate s.leases in
        elim (find_first (is_chunk id) s.chunks) [
          | none ↦ record s { leases = leases }
          | some c ↦ record s {
            leases = leases;
            workers = give_back c l.assigned_worker_id s.workers;
            chunks = remove_first (is_chunk id) s.chunks;
          }
        ]
  ]

-- The calls of the module, in any order. A call that is refused changes nothing.
pub data Call (F : Type 0) : Type 0 where
  registers : WorkerView F → Call F
  submits : ChunkPlan → Call F
  ticks : ℕ → ℕ → Call F
  releases : ℕ → Call F

abbrev pub after {ℓ} : {A : Type ℓ} → A → Option A → A
after s none = s
after s (some t) = t

module _ {F : Type 0} where
  unfoldable pub step : Platform F → State F → Call F → State F
  step d s (registers w) = after s (register_worker w s)
  step d s (submits c) = after s (submit_ready_chunk c s)
  step d s (ticks now max_leases) = (tick d now max_leases s).0
  step d s (releases id) = release_lease id s

  unfoldable pub run : Platform F → State F → List (Call F) → State F
  run d s [] = s
  run d s (c ∷ cs) = run d (step d s c) cs
