-- ===== src/Cluster/Tests.antt =====
-- master/src/cluster_state.c: a cluster of two workers, its journal and its readers.
use void_os_merger.Base.{
  ℕ, ◌≡◌, refl, true, some, none, List, [], ◌∷◌, arith, find_first, update_first, get_elem?, add64,
  subst, sym, replicate, zero, suc, ◌<◌,
}
use void_os_merger.Ring.{snapshot_ring_size, is_held, find_slot}
use void_os_merger.Cluster.{
  WorkerMember, online, offline, failed, created, register_worker, add_workers, add_worker,
  no_metrics, process_heartbeat, recalculate_aggregates, seen,
}
use void_os_merger.Cluster.Snapshots.{
  System, Call, registers, leases, heartbeats, persists, recovers, acquires, whole, started, step,
  run, acquire_snapshot, create, Context,
}
use void_os_merger.Cluster.Reachable.{IsSoundSystem, run-started-IsSoundSystem}
use void_os_merger.Cluster.Readers.{
  AllRespectReader, acquire_snapshot-IsReading_on, acquire_snapshot_full,
}
use void_os_merger.Cluster.Ring.{HasRoom, IsReading}
use void_os_merger.Cluster.Crash.{run-recovers}

abbrev laptop : WorkerMember
laptop = record {
  worker_id = 42;
  health = online;
  last_seen_timestamp_ms = 1000;
  resources = record {
    total_memory_bytes = 8192;
    reserved_memory_bytes = 1024;
    total_cores = 4;
    reserved_cores = 1;
  };
}

abbrev phone : WorkerMember
phone = record laptop { worker_id = 7; health = offline }

abbrev history : List Call
history =
    registers laptop
    ∷ registers phone
    ∷ leases 5 failed 0
    ∷ persists whole
    ∷ heartbeats 7 2000
    ∷ acquires
    ∷ recovers
    ∷ []

abbrev cluster : System
cluster = run (started (99 ∷ []) 100 none) history

-- The phone is back online after its heartbeat, and no longer after the journal is read back.
total_of_cluster :
    (run
      (started [] 1 none)
      (registers laptop ∷ registers phone ∷ heartbeats 7 2000 ∷ [])).context.master_state.metrics
    ≡ record {
      cluster_aggregate_memory_bytes = 16384;
      cluster_allocated_memory_bytes = 2048;
      cluster_aggregate_cores = 8;
      cluster_allocated_cores = 2;
      active_worker_count = 2;
    }
unfolding run step process_heartbeat find_first register_worker started create created
    recalculate_aggregates add_workers update_first add_worker seen no_metrics
total_of_cluster = refl

run-started-IsSoundSystem_example : IsSoundSystem cluster
run-started-IsSoundSystem_example = run-started-IsSoundSystem (99 ∷ []) 100 none history tt

sound_at_start : IsSoundSystem (started [] 1 none)
unfolding run
sound_at_start = run-started-IsSoundSystem [] 1 none [] tt

room_at_start : HasRoom (started [] 1 none).context
unfolding started create is_held
room_at_start = (0, omega arith, refl)

changes_respect :
    AllRespectReader 0 (step (started [] 1 none) acquires) (registers laptop ∷ recovers ∷ [])
unfolding AllRespectReader
changes_respect = (tt, (tt, tt))

first_slot : (acquire_snapshot (started [] 1 none).context).1 ≡ 0
unfolding acquire_snapshot started create find_slot is_held
first_slot = refl

acquire_snapshot-IsReading_on_example :
    IsReading
      (acquire_snapshot (started [] 1 none).context).1
      (started [] 1 none).context.master_state
      (run (step (started [] 1 none) acquires) (registers laptop ∷ recovers ∷ [])).context.pool
acquire_snapshot-IsReading_on_example =
    acquire_snapshot-IsReading_on (started [] 1 none) (registers laptop ∷ recovers ∷ [])
      sound_at_start room_at_start
      (subst
        (λ t.
          AllRespectReader t (step (started [] 1 none) acquires) (registers laptop ∷ recovers ∷ []))
        (sym first_slot) changes_respect)

abbrev busy : Context
busy = record {
  master_state = created [] 2;
  pool = replicate 4 (record { image = created [] 1; ref_count = 1 });
  pool_tail_idx = 0;
}

all_held : (i : ℕ) → i < snapshot_ring_size → is_held busy.pool i ≡ true
unfolding is_held
all_held zero h = refl
all_held (suc zero) h = refl
all_held (suc (suc zero)) h = refl
all_held (suc (suc (suc zero))) h = refl
all_held (suc (suc (suc (suc i)))) h = absurd (omega arith)

acquire_snapshot_full_example :
    ((acquire_snapshot busy).1 ≡ 0)
    × (get_elem? (acquire_snapshot busy).0.pool 0
        ≡ some (record { image = created [] 2; ref_count = 2 }))
acquire_snapshot_full_example =
    acquire_snapshot_full busy (record { image = created [] 1; ref_count = 1 }) all_held
      (omega arith) refl

run-recovers_example :
    (run
      (started [] 9 (run (step cluster (persists whole)) (acquires ∷ [])).journal)
      (recovers ∷ [])).context.master_state
    ≡ record (cluster.context.master_state) {
      state_generation_version = add64 cluster.context.master_state.state_generation_version 1;
    }
run-recovers_example = run-recovers [] 9 cluster (acquires ∷ []) (tt, tt)
