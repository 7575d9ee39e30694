-- ===== src/Scheduler.antt =====
-- master/src/scheduler.c: the tables of workers, chunks and leases, the hard filters, the score,
-- and the tick that leases ready chunks to workers. The mutex makes each call one step. Doubles
-- and `atoi` are the platform's: the record `Platform` has the operations that are used. `Tick`
-- has the tick itself and the sequences of calls, `Cases` the ways that a call can go. `Filters`
-- is about the hard filters, `Choice` about the worker chosen, `Capacity` about the reservations,
-- `Actives`, `Invariant` and `Reachable` about the tables, `Holders` and `Dispatch` about the
-- leases of a tick.
pub mod Tick
pub mod Filters
pub mod Cases
pub mod Actives
pub mod Choice
pub mod Capacity
pub mod Invariant
pub mod Reachable
pub mod Holders
pub mod Dispatch
mod Tests
use void_os_merger.Base.{
  ℕ, suc, ◌+◌, ◌-◌, Bool, true, false, not, ◌&&◌, ◌||◌, Option, none, some, List, [], ◌∷◌, ◌++◌,
  ltb, leb, ◌==◌, if◌then◌else◌, is_some, length, get_elem?, drop, modify, find_first, update_first,
  remove_first, add8, add64, truthy, ℤ, pos, negsuc, incr, decr, sub_ℕ, Bytes, str_eq, strncpy,
}

abbrev pub max_sworkers : ℕ
max_sworkers = 64

abbrev pub max_schunks : ℕ
max_schunks = 128

-- The arithmetic of `double` on values of a type `F`, the conversion of an `int` to it, the
-- comparisons `>` and `>=`, and the C library's `atoi` cast to uint32_t.
pub record Platform (F : Type 0) : Type 0 where
  pub of_int : ℤ → F
  pub add : F → F → F
  pub mul : F → F → F
  pub div : F → F → F
  pub gtb : F → F → Bool
  pub geb : F → F → Bool
  pub atoi : Bytes → ℕ

-- An `int` that is only compared or tested stands as its bit pattern, a number.
pub record WorkerView (F : Type 0) : Type 0 where
  pub worker_id : Bytes
  pub platform : ℕ
  pub runtime : ℕ
  pub cpu_units : ℕ
  pub reserv_cpu : ℕ
  pub free_memory_mb : ℕ
  pub reserv_mem_mb : ℕ
  pub battery_pct : F
  pub active_chunks : ℤ
  pub has_touch_input : ℕ
  pub draining : ℕ
  pub healthy : ℕ
  pub reliability_score : F

pub record ChunkPlan : Type 0 where
  pub chunk_id : ℕ
  pub workload_id : ℕ
  pub required_platform : ℕ
  pub required_runtime : ℕ
  pub required_cpu : ℕ
  pub required_memory_mb : ℕ
  pub requires_touch : ℕ
  pub is_blocked : Bool
  pub preferred_node : ℕ

pub record Lease : Type 0 where
  pub chunk_id : ℕ
  pub assigned_worker_id : Bytes
  pub lease_expires_ms : ℕ
  pub is_active : Bool

-- The globals `g_workers`, `g_chunks` and `g_leases` with their counts.
pub record State (F : Type 0) : Type 0 where
  pub workers : List (WorkerView F)
  pub chunks : List ChunkPlan
  pub leases : List Lease

module _ {F : Type 0} where
  unfoldable pub init : State F
  init = record { workers = []; chunks = []; leases = [] }

  abbrev pub has_id : Bytes → WorkerView F → Bool
  has_id id w = str_eq w.worker_id id

  -- `none` is the result -1, which leaves the tables as they are.
  unfoldable pub register_worker : WorkerView F → State F → Option (State F)
  register_worker worker s =
      if is_some (find_first (has_id worker.worker_id) s.workers)
      then some
          (record s { workers = update_first (has_id worker.worker_id) (λ _. worker) s.workers })
      else if leb max_sworkers (length s.workers)
      then none
      else some (record s { workers = s.workers ++ worker ∷ [] })

-- `best_worker_idx`, none for -1, and `highest_score`.
pub record Best (F : Type 0) : Type 0 where
  pub index : Option ℕ
  pub score : F

abbrev pub is_chunk : ℕ → ChunkPlan → Bool
is_chunk id c = c.chunk_id == id

abbrev pub holds : ℕ → Lease → Bool
holds id l = (l.chunk_id == id) && l.is_active

module _ {F : Type 0} where
  unfoldable pub submit_ready_chunk : ChunkPlan → State F → Option (State F)
  submit_ready_chunk chunk s =
      if is_some (find_first (is_chunk chunk.chunk_id) s.chunks)
      then some (record s { chunks = update_first (is_chunk chunk.chunk_id) (λ _. chunk) s.chunks })
      else if leb max_schunks (length s.chunks)
      then none
      else some (record s { chunks = s.chunks ++ chunk ∷ [] })

  unfoldable pub available_cpu : WorkerView F → ℕ
  available_cpu w = if ltb w.reserv_cpu w.cpu_units then w.cpu_units - w.reserv_cpu else 0

  unfoldable pub available_mem : WorkerView F → ℕ
  available_mem w =
      if ltb w.reserv_mem_mb w.free_memory_mb then w.free_memory_mb - w.reserv_mem_mb else 0

  unfoldable pub evaluate_hard_filters : ChunkPlan → WorkerView F → Bool
  unfolding available_cpu available_mem
  evaluate_hard_filters chunk worker =
      if not (truthy worker.healthy) || truthy worker.draining
      then false
      else if not (worker.platform == chunk.required_platform)
      then false
      else if not (worker.runtime == chunk.required_runtime)
      then false
      else if truthy chunk.requires_touch && not (truthy worker.has_touch_input)
      then false
      else if ltb (available_cpu worker) chunk.required_cpu
      then false
      else if ltb (available_mem worker) chunk.required_memory_mb
      then false
      else true

  -- The literals 40.0, 100.0 and so on are conversions of integers.
  unfoldable pub calculate_worker_score : Platform F → ChunkPlan → WorkerView F → F
  calculate_worker_score d chunk worker =
      let free_cpu_ratio =
        d.div (d.of_int (sub_ℕ worker.cpu_units worker.reserv_cpu))
          (d.of_int (pos worker.cpu_units)) in
      let by_cpu = d.add (d.of_int (pos 0)) (d.mul free_cpu_ratio (d.of_int (pos 40))) in
      let by_trust = d.add by_cpu (d.mul worker.reliability_score (d.of_int (pos 30))) in
      let by_node =
        if d.atoi (drop 7 worker.worker_id) == chunk.preferred_node
        then d.add by_trust (d.of_int (pos 20))
        else by_trust in
      if d.geb worker.battery_pct (d.of_int (pos 0))
      then d.add by_node (d.mul (d.div worker.battery_pct (d.of_int (pos 100))) (d.of_int (pos 10)))
      else d.add by_node (d.of_int (pos 10))

  unfoldable pub consider : Platform F → ChunkPlan → WorkerView F → ℕ → Best F → Best F
  consider d chunk w i best =
      let score = calculate_worker_score d chunk w in
      if evaluate_hard_filters chunk w && d.gtb score best.score
      then record { index = some i; score = score }
      else best

  -- The scan of the workers from index `i` on.
  unfoldable pub best_worker : Platform F → ChunkPlan → List (WorkerView F) → ℕ → Best F → Best F
  best_worker d chunk [] i best = best
  best_worker d chunk (w ∷ ws) i best = best_worker d chunk ws (suc i) (consider d chunk w i best)

  unfoldable pub no_best : Platform F → Best F
  no_best d = record { index = none; score = d.of_int (negsuc 0) }

  -- A worker gets back what a lease of the chunk held.
  unfoldable pub free_reservation : ChunkPlan → WorkerView F → WorkerView F
  free_reservation chunk w = record w {
    reserv_cpu =
        if leb chunk.required_cpu w.reserv_cpu
        then w.reserv_cpu - chunk.required_cpu
        else w.reserv_cpu;
    reserv_mem_mb =
        if leb chunk.required_memory_mb w.reserv_mem_mb
        then w.reserv_mem_mb - chunk.required_memory_mb
        else w.reserv_mem_mb;
    active_chunks = decr w.active_chunks;
  }

  unfoldable pub give_back : ChunkPlan → Bytes → List (WorkerView F) → List (WorkerView F)
  give_back chunk id = update_first (has_id id) (free_reservation chunk)

  unfoldable pub reserve : ChunkPlan → WorkerView F → WorkerView F
  reserve chunk w = record w {
    reserv_cpu = add8 w.reserv_cpu chunk.required_cpu;
    reserv_mem_mb = add64 w.reserv_mem_mb chunk.required_memory_mb;
    active_chunks = incr w.active_chunks;
  }
