-- ===== src/Scheduler/Capacity.antt =====
-- master/src/scheduler.c: what is reserved on a worker stays within what the worker has.
use void_os_merger.Base.{
  ℕ, ◌+◌, ◌≤◌, ◌<◌, ◌≡◌, inl, inr, List, [], ◌∷◌, arith, All, All-append, All-All, All-modify,
  All-update_first, find_first, is_some, length, leb, u8_mod, u64_mod, Bool-cases, subst,
}
use void_os_merger.Scheduler.{
  Platform, WorkerView, ChunkPlan, Lease, State, init, reserve, free_reservation, give_back, has_id,
  register_worker, submit_ready_chunk, max_sworkers,
}
use void_os_merger.Scheduler.Tick.{
  Call, registers, submits, ticks, releases, after, expire, assign, tick_chunk, tick, release_lease,
  step, run,
}
use void_os_merger.Scheduler.Filters.{IsEligible}
use void_os_merger.Scheduler.Cases.{
  release_cases, grant_cases, assign_cases, tick_chunk_cases, tick_loop_keeps,
}

-- The fields of a uint8_t and a uint64_t are in range, and no more is reserved than there is.
pub record IsWithin {F : Type 0} (w : WorkerView F) : Type 0 where
  pub cpu_range : w.cpu_units < u8_mod
  pub memory_range : w.free_memory_mb < u64_mod
  pub cpu : w.reserv_cpu ≤ w.cpu_units
  pub memory : w.reserv_mem_mb ≤ w.free_memory_mb

module _ {F : Type 0} where
  -- On an eligible worker the sums do not wrap.
  pub reserve-exact :
      (c : ChunkPlan) (w : WorkerView F)
      → IsWithin w
      → IsEligible c w
      → ((reserve c w).reserv_cpu ≡ w.reserv_cpu + c.required_cpu)
        × ((reserve c w).reserv_mem_mb ≡ w.reserv_mem_mb + c.required_memory_mb)
  unfolding reserve
  reserve-exact c w v e = ground arith

  reserve-IsWithin :
      (c : ChunkPlan) (w : WorkerView F) → IsEligible c w → IsWithin w → IsWithin (reserve c w)
  unfolding reserve
  reserve-IsWithin c w e v = ground arith

  free_reservation-IsWithin :
      (c : ChunkPlan) (w : WorkerView F) → IsWithin w → IsWithin (free_reservation c w)
  unfolding free_reservation
  free_reservation-IsWithin c w v = ground arith

  abbrev pub AllWithin : State F → Type 0
  AllWithin s = All IsWithin s.workers

  give_back-AllWithin :
      (c : ChunkPlan) (id : List ℕ) (ws : List (WorkerView F))
      → All IsWithin ws
      → All IsWithin (give_back c id ws)
  unfolding give_back
  give_back-AllWithin c id ws h =
      All-update_first IsWithin (has_id id) (free_reservation c) ws
        (λ w _ v. free_reservation-IsWithin c w v) h

  assign-AllWithin :
      (d : Platform F) (now : ℕ) (c : ChunkPlan) (s : State F)
      → AllWithin s
      → AllWithin (assign d now c s).0
  assign-AllWithin d now c s h =
      assign_cases (λ r. AllWithin r.0) d now c s h
        λ i w at e.
          let reserved =
            All-modify IsWithin (reserve c) i s.workers
              (λ v at' within.
                let same : w ≡ v = cc in reserve-IsWithin c v (subst (IsEligible c) same e) within)
              h in
          grant_cases (λ r. AllWithin r.0) now c i w s (λ _. reserved) (λ ls _. reserved)

  expire-AllWithin :
      (c : ChunkPlan) (l : Lease) (s : State F) → AllWithin s → AllWithin (expire c l s)
  unfolding expire
  expire-AllWithin c l s h = give_back-AllWithin c l.assigned_worker_id s.workers h

  tick_chunk-AllWithin :
      (d : Platform F) (now : ℕ) (c : ChunkPlan) (s : State F)
      → AllWithin s
      → AllWithin (tick_chunk d now c s).0
  tick_chunk-AllWithin d now c s h =
      tick_chunk_cases (λ r. AllWithin r.0) d now c s h (λ _. assign-AllWithin d now c s h)
        (λ l _ _. assign-AllWithin d now c (expire c l s) (expire-AllWithin c l s h))

  release-AllWithin : (id : ℕ) (s : State F) → AllWithin s → AllWithin (release_lease id s)
  release-AllWithin id s h =
      release_cases AllWithin id s h (λ l _. h)
        (λ l c _ _. give_back-AllWithin c l.assigned_worker_id s.workers h)

  register-AllWithin :
      (w : WorkerView F) (s : State F)
      → IsWithin w
      → AllWithin s
      → AllWithin (after s (register_worker w s))
  unfolding register_worker
  register-AllWithin w s v h =
      elim (Bool-cases (is_some (find_first (has_id w.worker_id) s.workers))) [
        | inl e ↦
            rw e (All-update_first IsWithin (has_id w.worker_id) (λ _. w) s.workers (λ _ _ _. v) h)
        | inr e ↦ rw e (elim (Bool-cases (leb max_sworkers (length s.workers))) [
          | inl full ↦ rw full h
          | inr room ↦ rw room (All-append IsWithin s.workers (w ∷ []) h (v, tt))
        ])
      ]

  submit-AllWithin :
      (c : ChunkPlan) (s : State F) → AllWithin s → AllWithin (after s (submit_ready_chunk c s))
  unfolding submit_ready_chunk
  submit-AllWithin c s h = ground arith

  -- The workers that a call registers are within their own capacity.
  abbrev pub RegistersWithin : Call F → Type 0
  RegistersWithin (registers w) = IsWithin w
  RegistersWithin _ = Unit

  step-AllWithin :
      (d : Platform F) (s : State F) (c : Call F)
      → RegistersWithin c
      → AllWithin s
      → AllWithin (step d s c)
  unfolding step tick
  step-AllWithin d s (registers w) v h = register-AllWithin w s v h
  step-AllWithin d s (submits c) v h = submit-AllWithin c s h
  step-AllWithin d s (ticks now max_leases) v h =
      tick_loop_keeps AllWithin (λ _. Unit {0}) d now (λ c t _. tick_chunk-AllWithin d now c t)
        s.chunks max_leases s (All-All (λ _. tt) s.chunks) h
  step-AllWithin d s (releases id) v h = release-AllWithin id s h

  run-AllWithin :
      (d : Platform F) (s : State F) (cs : List (Call F))
      → All RegistersWithin cs
      → AllWithin s
      → AllWithin (run d s cs)
  unfolding run
  run-AllWithin d s [] v h = h
  run-AllWithin d s (c ∷ cs) v h = run-AllWithin d (step d s c) cs v.1 (step-AllWithin d s c v.0 h)

-- After any sequence of calls from the empty tables, in which each registered worker is within its
-- capacity, no worker has more CPU units or memory reserved than it has.
pub run-init-AllWithin :
    {F : Type 0} (d : Platform F) (cs : List (Call F))
    → All RegistersWithin cs
    → AllWithin (run d init cs)
unfolding init
run-init-AllWithin d cs v = run-AllWithin d _ cs v tt
