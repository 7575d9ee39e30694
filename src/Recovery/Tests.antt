-- ===== src/Recovery/Tests.antt =====
-- master/src/recovery.c: one worker and two leases, a sweep and a report.
use void_os_merger.Base.{Both, ℕ, ◌≡◌, refl, true, false, List, [], ◌∷◌, find_first, Bytes, str_eq}
use void_os_merger.Recovery.{
  Context, Lease, WorkerObs, init, retry_immediate, retry_none, active, uncertain, is_lease, has_id,
  process_incoming_result, inject_test_lease, register_worker_heartbeat,
}
use void_os_merger.Recovery.Timeouts.{Call, heartbeats, sweeps, injects, run, sweep_timeouts}
use void_os_merger.Recovery.Sweep.{IsSwept, IsObserved, sweep_timeouts-IsSwept}
use void_os_merger.Recovery.Results.{process_incoming_result_once}

abbrev tablet : Bytes
tablet = 116 ∷ 97 ∷ 98 ∷ []

abbrev history : List Call
history =
    heartbeats tablet 10000
    ∷ injects 7001 501 tablet 15000 retry_immediate
    ∷ injects 7002 502 tablet 90000 retry_none
    ∷ []

abbrev start : Context
start = record {
  workers = record { worker_id = tablet; last_heartbeat_ms = 10000; is_healthy = true } ∷ [];
  leases = lease 7001 501 15000 ∷ [];
  summary_health = void_os_merger.Recovery.health_ok;
  operational_status_text = void_os_merger.Recovery.healthy;
  active_recovery_jobs = 0;
}
  where
    lease : ℕ → ℕ → ℕ → Lease
    lease id chunk expires = record {
      lease_id = id;
      chunk_id = chunk;
      workload_id = 999;
      assigned_worker_id = tablet;
      lease_expires_ms = expires;
      state = active;
      retry_count = 0;
      retry_policy = retry_immediate;
    }

sweep_timeouts-IsSwept_example :
    Both (IsSwept 25000 5000 start.workers) start.leases (sweep_timeouts 25000 5000 start).leases
    × Both (IsObserved 25000 5000) start.workers (sweep_timeouts 25000 5000 start).workers
sweep_timeouts-IsSwept_example = sweep_timeouts-IsSwept 25000 5000 start

accepts_start : (process_incoming_result 7001 tablet start).1 ≡ true
unfolding process_incoming_result find_first str_eq
accepts_start = refl

process_incoming_result_once_example :
    (process_incoming_result 7001 tablet
      (run (process_incoming_result 7001 tablet start).0 (sweeps 25000 5000 ∷ history))).1
    ≡ false
process_incoming_result_once_example =
    process_incoming_result_once 7001 tablet tablet start (sweeps 25000 5000 ∷ history)
      accepts_start
