-- ===== src/Ui/Tests.antt =====
-- ui/src/model.c: a snapshot with a worker that drains and one that is lost, and a lease that failed.
use void_os_merger.Base.{ℕ, ◌*◌, ◌/◌, ◌≡◌, refl, [], ◌∷◌, map}
use void_os_merger.Ui.{
  Platform, Snapshot, WorkerResources, draining, offline, degraded, failed, crit, warn, NodeRecord,
  ui_model_transform_snapshot, node_loop, node_of, node_health,
}
use void_os_merger.Ui.Faithful.{IsViewOf, ui_model_transform_snapshot-IsViewOf}

-- Doubles as fractions, and floats as numbers.
abbrev fractions : Platform (ℕ × ℕ) ℕ
fractions = record {
  zeroed = (0, 1);
  double = λ n. (n, 1);
  quotient = λ a b. (a.0 * b.1, a.1 * b.0);
  product = λ a b. (a.0 * b.0, a.1 * b.1);
  normalized = λ p. p / 100;
}

abbrev half_used : WorkerResources
half_used = record {
  total_memory_bytes = 4096;
  reserved_memory_bytes = 2048;
  total_cores = 0;
  reserved_cores = 0;
}

abbrev two_workers : Snapshot ℕ
two_workers = record {
  cluster_uuid = 97 ∷ [];
  master_epoch = 7;
  state_generation_version = 42;
  global_status = degraded;
  active_workers =
      record {
        worker_id = 1;
        hostname = 98 ∷ [];
        health = draining;
        last_heartbeat_monotonic_ms = 900;
        resources = half_used;
      }
      ∷ record {
        worker_id = 2;
        hostname = 99 ∷ [];
        health = offline;
        last_heartbeat_monotonic_ms = 2000;
        resources = half_used;
      }
      ∷ [];
  active_leases =
      record {
        chunk_id = 5;
        workload_id = 1;
        assigned_worker_id = 2;
        status = failed;
        progress_percentage = 100;
        failure_retry_count = 3;
      }
      ∷ [];
  metrics = record {
    cluster_aggregate_memory_bytes = 8192;
    cluster_allocated_memory_bytes = 4096;
    cluster_aggregate_cores = 0;
    cluster_allocated_cores = 0;
    active_worker_count = 1;
  };
}

ui_model_transform_snapshot-IsViewOf_example :
    IsViewOf fractions two_workers 1000 (ui_model_transform_snapshot fractions two_workers 1000)
ui_model_transform_snapshot-IsViewOf_example =
    ui_model_transform_snapshot-IsViewOf fractions two_workers 1000

healths :
    map
      (λ (n : NodeRecord (ℕ × ℕ)). n.health)
      (ui_model_transform_snapshot fractions two_workers 1000).nodes
    ≡ warn ∷ crit ∷ []
unfolding ui_model_transform_snapshot node_loop node_of node_health
healths = refl

ages :
    map
      (λ (n : NodeRecord (ℕ × ℕ)). n.ms_since_last_heartbeat)
      (ui_model_transform_snapshot fractions two_workers 1000).nodes
    ≡ 100 ∷ 0 ∷ []
unfolding ui_model_transform_snapshot node_loop node_of
ages = refl
