-- ===== src/Worker/Tests.antt =====
-- worker/src: a worker that connects, drains and reconnects, and its leases.
use void_os_merger.Base.{◌≡◌, ◌↔◌, true, false, none, some, [], ◌∷◌, arith, replicate, ◌≤◌}
use void_os_merger.Worker.Leases
use void_os_merger.Worker.Monitor
use void_os_merger.Worker.Monitor.Samples
use void_os_merger.Worker.Monitor.{
  latest, aged, is_fresh, execute_hardware_metrics_probe, get_latest_availability, record_sample,
  update_reservations,
}
use void_os_merger.Worker.Monitor.Samples.{samples, IsRead, get_latest_availability-record_sample}
use void_os_merger.Worker.Monitor.Deductions.{record_all, free_ram-record_all}
use void_os_merger.Worker.Executor
use void_os_merger.Worker.Executor.{Assignment, World, Poll, posix_subproc}
use void_os_merger.Worker.Executor.Account.{
  IsAccounted, run_events, idle_system, run_events-idle_system-IsAccounted, begins, ends,
}
use void_os_merger.Worker.Executor.Courses.{IsRunFrom}
use void_os_merger.Worker.Executor.Runs.{run-IsRunFrom}
use void_os_merger.Worker.Machine.{Machine, terminate, running, transition}
use void_os_merger.Worker.Diagram.{Allows, IsMoved, transition-Allows}
use void_os_merger.Worker.Leases.{
  Lease, Context, ChunkState, accepted, claim_result, complete_chunk, reconnect_reconcile,
  on_disconnect, revoke, is_lease, is_listed, accept_new_chunk, reconcile_loop, confirm, complete,
  worker_max_active_leases,
}
use void_os_merger.Worker.Leases.Reconcile.{IsReconciledTo, reconnect_reconcile-IsReconciledTo}
use void_os_merger.Worker.Leases.Exhaustion.{count_revoked, run_refuses_when_revoked}

abbrev busy : Machine
busy = record {
  current_state = running;
  last_transition_ms = 1100;
  active_tasks_count = 2;
  master_endpoint = 116 ∷ [];
}

transition-Allows_example :
    (((transition terminate 5 none busy).1 ≡ true) ↔ Allows terminate running)
    × (Allows terminate running
        → IsMoved terminate 5 none busy (transition terminate 5 none busy).0)
    × ((transition terminate 5 none busy).1 ≡ false → (transition terminate 5 none busy).0 ≡ busy)
transition-Allows_example = transition-Allows terminate 5 none busy

abbrev at_work : Context
at_work = record {
  active_leases = accepted 1 101 true ∷ revoke (accepted 2 102 false) ∷ accepted 3 103 true ∷ [];
  is_draining = false;
  is_connected_to_master = true;
}

reconnect_reconcile-IsReconciledTo_example :
    IsReconciledTo
      (3 ∷ [])
      at_work.active_leases
      (reconnect_reconcile (3 ∷ []) at_work).active_leases
    × ((reconnect_reconcile (3 ∷ []) at_work).is_connected_to_master ≡ true)
reconnect_reconcile-IsReconciledTo_example = reconnect_reconcile-IsReconciledTo (3 ∷ []) at_work

abbrev exhausted : Context
exhausted = record at_work { active_leases = replicate 16 (revoke (accepted 1 101 true)) }

all_revoked : worker_max_active_leases ≤ count_revoked exhausted.active_leases
unfolding count_revoked revoke
all_revoked = omega arith

run_refuses_when_revoked_example :
    (accept_new_chunk 9 109 true (Leases.run exhausted (Leases.reconnects [] ∷ []))).1 ≡ false
run_refuses_when_revoked_example =
    run_refuses_when_revoked 9 109 true exhausted (Leases.reconnects [] ∷ []) all_revoked

abbrev encoder : Assignment
encoder = record {
  chunk_id = 5;
  workload_id = 1;
  runtime_type = posix_subproc;
  binary_path = 47 ∷ 97 ∷ [];
  required_cores = 6;
  required_memory_bytes = 1024;
  timeout_seconds = 2;
  is_idempotent = true;
  expected_input_sha256 = [];
}

abbrev begins_encoder : Executor.Account.Event
begins_encoder = begins (λ _. true) encoder

-- The second encoder does not fit beside the first, and begins after its end.
run_events-idle_system-IsAccounted_example :
    IsAccounted
      (run_events idle_system (begins_encoder ∷ begins_encoder ∷ ends 0 ∷ begins_encoder ∷ []))
run_events-idle_system-IsAccounted_example =
    run_events-idle_system-IsAccounted
      (begins_encoder ∷ begins_encoder ∷ ends 0 ∷ begins_encoder ∷ [])

-- A process that writes at each round, and never ends.
abbrev never_ends : World
never_ends = record {
  executable = λ _. true;
  pipe_made = true;
  forked = true;
  polls = λ i. record {
    is_cancelled = false;
    elapsed_seconds = i;
    has_output = true;
    waited = Executor.Waited.pending;
  };
  dev_null = some [];
}

run-IsRunFrom_example :
    IsRunFrom never_ends encoder idle_system.reserved
      (Executor.run 3 never_ends encoder idle_system.reserved)
run-IsRunFrom_example =
    run-IsRunFrom 3 never_ends encoder idle_system.reserved 2 (omega arith) (omega arith)
      (omega arith) (omega arith)

get_latest_availability-record_sample_example :
    IsRead 5500 21000 (Samples.run (samples 5000 ∷ []) Monitor.init) (
      get_latest_availability 21000 (
        update_reservations 1 512
          (record_sample 5500 (Samples.run (samples 5000 ∷ []) Monitor.init))))
get_latest_availability-record_sample_example =
    get_latest_availability-record_sample (samples 5000 ∷ []) 5500 21000 1 512

free_ram-record_all_example :
    (latest
      (record_all (5000 ∷ 5500 ∷ 6000 ∷ []) (update_reservations 2 1024 Monitor.init))).free_ram_mb
    ≡ 1024
free_ram-record_all_example =
    free_ram-record_all 5000 2 1024 (5500 ∷ 6000 ∷ []) (omega arith) (omega arith)
      ((omega arith, omega arith), ((omega arith, omega arith), tt))
