-- ===== src/Scheduler/Invariant.antt =====
-- master/src/scheduler.c: the tables keep their bounds, no chunk stands in them twice, and each active
-- lease is of a chunk in the table, one lease at most for a chunk. So the lease table cannot be full
-- when a lease is granted: what a tick reserves is always covered by a lease.
use void_os_merger.Base.{
  ℕ, ◌≤◌, ◌<◌, ◌≡◌, refl, none, some, List, arith, length, length-modify, length-update_first,
  find_first, count, length-lt_of_counts,
}
use void_os_merger.Scheduler.{
  Platform, WorkerView, ChunkPlan, Lease, State, reserve, give_back, has_id, max_sworkers,
  max_schunks, holds, free_reservation,
}
use void_os_merger.Scheduler.Tick.{
  expire, grant, assign, tick_chunk, new_lease, place_lease, deactivate,
}
use void_os_merger.Scheduler.Cases.{grant_cases, assign_cases, tick_chunk_cases}
use void_os_merger.Scheduler.Actives.{
  actives, chunk_ids, count-actives_absent, count-actives-deactivate, count-actives-place_lease,
  length-place_lease, length-actives_no_place, length-chunk_ids,
}

pub record IsSound {F : Type 0} (s : State F) : Type 0 where
  pub workers_fit : length s.workers ≤ max_sworkers
  pub chunks_fit : length s.chunks ≤ max_schunks
  pub leases_fit : length s.leases ≤ max_schunks
  pub distinct : (id : ℕ) → count id (chunk_ids s.chunks) ≤ 1
  pub covered : (id : ℕ) → count id (actives s.leases) ≤ count id (chunk_ids s.chunks)

-- A chunk of the table that has no active lease.
pub record IsWaiting {F : Type 0} (c : ChunkPlan) (s : State F) : Type 0 where
  pub known : 0 < count c.chunk_id (chunk_ids s.chunks)
  pub unleased : count c.chunk_id (actives s.leases) ≡ 0

module _ {F : Type 0} where
  -- A lease for a waiting chunk always finds a place.
  pub place_lease-ne-none :
      (new : Lease) (c : ChunkPlan) (s : State F)
      → IsSound s
      → IsWaiting c s
      → place_lease new s.leases ≡ none
      → ⊥
  place_lease-ne-none new c s v w e = omega (
    arith,
    length-actives_no_place new s.leases e,
    length-chunk_ids s.chunks,
    v.chunks_fit,
    length-lt_of_counts c.chunk_id (actives s.leases) (chunk_ids s.chunks) v.covered
        (omega (arith, w.known, w.unleased)),
  )

  grant-IsSound :
      (now : ℕ) (c : ChunkPlan) (i : ℕ) (w : WorkerView F) (s : State F)
      → IsSound s
      → IsWaiting c s
      → IsSound (grant now c i w s).0
  unfolding new_lease
  grant-IsSound now c i w s v wait =
      grant_cases (λ r. IsSound r.0) now c i w s
        (λ e. absurd (place_lease-ne-none (new_lease now c w) c s v wait e))
        λ ls e. record {
          workers_fit = omega (arith, length-modify (reserve c) i s.workers, v.workers_fit);
          chunks_fit = v.chunks_fit;
          leases_fit = length-place_lease (new_lease now c w) s.leases ls v.leases_fit e;
          distinct = v.distinct;
          covered = λ b. ground (
            arith,
            count-actives-place_lease b (new_lease now c w) s.leases ls refl e,
            v.covered b,
            wait.known,
            wait.unleased,
          );
        }

  assign-IsSound :
      (d : Platform F) (now : ℕ) (c : ChunkPlan) (s : State F)
      → IsSound s
      → IsWaiting c s
      → IsSound (assign d now c s).0
  assign-IsSound d now c s v wait =
      assign_cases (λ r. IsSound r.0) d now c s v (λ i w _ _. grant-IsSound now c i w s v wait)

  pub length-give_back :
      (c : ChunkPlan) (id : List ℕ) (ws : List (WorkerView F))
      → length (give_back c id ws) ≡ length ws
  unfolding give_back
  length-give_back c id ws = length-update_first (has_id id) (free_reservation c) ws

  expire-IsSound :
      (c : ChunkPlan) (l : Lease) (s : State F)
      → find_first (holds c.chunk_id) s.leases ≡ some l
      → IsSound s
      → IsSound (expire c l s)
  unfolding expire
  expire-IsSound c l s e v = record {
    workers_fit = omega (arith, length-give_back c l.assigned_worker_id s.workers, v.workers_fit);
    chunks_fit = v.chunks_fit;
    leases_fit =
        omega (arith, length-update_first (holds c.chunk_id) deactivate s.leases, v.leases_fit);
    distinct = v.distinct;
    covered = λ b. omega (arith, count-actives-deactivate c.chunk_id b s.leases l e, v.covered b);
  }

  expire-IsWaiting :
      (c : ChunkPlan) (l : Lease) (s : State F)
      → find_first (holds c.chunk_id) s.leases ≡ some l
      → IsSound s
      → 0 < count c.chunk_id (chunk_ids s.chunks)
      → IsWaiting c (expire c l s)
  unfolding expire
  expire-IsWaiting c l s e v known = record {
    known = known;
    unleased = ground (
      arith,
      count-actives-deactivate c.chunk_id c.chunk_id s.leases l e,
      v.covered c.chunk_id,
      v.distinct c.chunk_id,
    );
  }

  pub tick_chunk-IsSound :
      (d : Platform F) (now : ℕ) (c : ChunkPlan) (s : State F)
      → 0 < count c.chunk_id (chunk_ids s.chunks)
      → IsSound s
      → IsSound (tick_chunk d now c s).0
  tick_chunk-IsSound d now c s known v =
      tick_chunk_cases (λ r. IsSound r.0) d now c s v
        (λ e.
          assign-IsSound d now c s v
            (record { known = known; unleased = count-actives_absent c.chunk_id s.leases e }))
        (λ l e _.
          assign-IsSound d now c (expire c l s) (expire-IsSound c l s e v)
            (expire-IsWaiting c l s e v known))
