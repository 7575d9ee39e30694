-- ===== src/Scheduler/Tests.antt =====
-- master/src/scheduler.c: the scheduler at two workers and two chunks, in a platform whose doubles are
-- numbers (an integer n stands as n + 1, and -1 as 0).
use void_os_merger.Base.{
  ℕ, suc, ◌+◌, ◌*◌, ◌/◌, ◌≡◌, refl, false, List, [], ◌∷◌, arith, ltb, leb, ℤ, pos, negsuc,
  find_first, update_first, count, str_eq, modify, ◌≤◌,
}
use void_os_merger.Scheduler.{
  Platform, WorkerView, ChunkPlan, init, register_worker, submit_ready_chunk, evaluate_hard_filters,
  calculate_worker_score, best_worker, no_best, consider, reserve,
}
use void_os_merger.Scheduler.Tick.{
  Call, registers, submits, ticks, step, run, tick, tick_loop, tick_chunk, check_lease, assign,
  grant, new_lease, place_lease,
}
use void_os_merger.Scheduler.Choice.{IsStrict, IsBest, best_worker-IsBest}
use void_os_merger.Scheduler.Capacity.{IsWithin, AllWithin, run-init-AllWithin}
use void_os_merger.Scheduler.Invariant.{IsSound}
use void_os_merger.Scheduler.Reachable.{run-init-IsSound}
use void_os_merger.Scheduler.Dispatch.{Dispatch, lease_ids, tick-Dispatch}

abbrev small_int : ℤ → ℕ
small_int (pos n) = suc n
small_int (negsuc n) = 0

abbrev numbers : Platform ℕ
numbers = record {
  of_int = small_int;
  add = λ a b. a + b;
  mul = λ a b. a * b;
  div = λ a b. a / b;
  gtb = λ a b. ltb b a;
  geb = λ a b. leb b a;
  atoi = λ s. elim s [ [] ↦ 0 | c ∷ _ ↦ c ];
}

numbers-IsStrict : IsStrict numbers
numbers-IsStrict = record { irrefl = λ a. ground arith; trans = λ a b c h k. ground arith }

abbrev worker : ℕ → WorkerView ℕ
worker n = record {
  worker_id = 119 ∷ 111 ∷ 114 ∷ 107 ∷ 101 ∷ 114 ∷ 45 ∷ n ∷ [];
  platform = 1;
  runtime = 2;
  cpu_units = 8;
  reserv_cpu = 0;
  free_memory_mb = 1000;
  reserv_mem_mb = 0;
  battery_pct = 50;
  active_chunks = pos 0;
  has_touch_input = 0;
  draining = 0;
  healthy = 1;
  reliability_score = 3;
}

abbrev chunk : ℕ → ChunkPlan
chunk n = record {
  chunk_id = n;
  workload_id = 1;
  required_platform = 1;
  required_runtime = 2;
  required_cpu = 6;
  required_memory_mb = 300;
  requires_touch = 0;
  is_blocked = false;
  preferred_node = 49;
}

abbrev history : List (Call ℕ)
history =
    registers (worker 48)
    ∷ registers (worker 49)
    ∷ submits (chunk 100)
    ∷ submits (chunk 200)
    ∷ ticks 5000 1
    ∷ []

-- The preferred node is worker 49, the second one.
tick_assigns : lease_ids (tick numbers 6000 8 (run numbers init history)).1 ≡ 200 ∷ []
unfolding run step init register_worker submit_ready_chunk tick tick_loop tick_chunk check_lease
    assign grant new_lease place_lease best_worker no_best consider calculate_worker_score
    evaluate_hard_filters reserve find_first update_first modify str_eq
tick_assigns = refl

best_worker-IsBest_example :
    IsBest numbers
      (chunk 100)
      (worker 48 ∷ worker 49 ∷ [])
      (best_worker numbers (chunk 100) (worker 48 ∷ worker 49 ∷ []) 0 (no_best numbers)).index
best_worker-IsBest_example =
    best_worker-IsBest numbers (chunk 100) (worker 48 ∷ worker 49 ∷ []) numbers-IsStrict

worker-IsWithin : (n : ℕ) → IsWithin (worker n)
worker-IsWithin n = omega arith

run-init-AllWithin_example : AllWithin (run numbers init history)
run-init-AllWithin_example =
    run-init-AllWithin numbers history
      (worker-IsWithin 48, (worker-IsWithin 49, (tt, (tt, (tt, tt)))))

run-init-IsSound_example : IsSound (run numbers init history)
run-init-IsSound_example = run-init-IsSound numbers history

tick-Dispatch_example :
    Dispatch 6000
      (run numbers init history).chunks
      8
      (run numbers init history)
      (tick numbers 6000 8 (run numbers init history))
    × ((id : ℕ) → count id (lease_ids (tick numbers 6000 8 (run numbers init history)).1) ≤ 1)
tick-Dispatch_example =
    tick-Dispatch numbers 6000 8 (run numbers init history) (run-init-IsSound numbers history)
