-- ===== src/Cluster/Metrics.antt =====
-- master/src/cluster_state.c: the aggregates are the sums over the workers that are not offline.
use void_os_merger.Base.{
  ℕ, ◌+◌, ◌%◌, ◌<◌, ◌≡◌, List, [], ◌∷◌, arith, if◌then◌else◌, u32_mod, u64_mod,
}
use void_os_merger.Cluster.{
  WorkerMember, ClusterMetrics, Snapshot, is_present, add_worker, add_workers, no_metrics,
  recalculate_aggregates,
}

-- The sum of a number over the workers that are not offline.
unfoldable pub total : (WorkerMember → ℕ) → List WorkerMember → ℕ
total f [] = 0
total f (w ∷ ws) = (if is_present w.health then f w else 0) + total f ws

pub record IsTotal (ws : List WorkerMember) (m : ClusterMetrics) : Type 0 where
  pub memory :
      m.cluster_aggregate_memory_bytes ≡ total (λ w. w.resources.total_memory_bytes) ws % u64_mod
  pub allocated_memory :
      m.cluster_allocated_memory_bytes ≡ total (λ w. w.resources.reserved_memory_bytes) ws % u64_mod
  pub cores : m.cluster_aggregate_cores ≡ total (λ w. w.resources.total_cores) ws % u32_mod
  pub allocated_cores :
      m.cluster_allocated_cores ≡ total (λ w. w.resources.reserved_cores) ws % u32_mod
  pub workers : m.active_worker_count ≡ total (λ w. 1) ws % u32_mod

add_workers-memory :
    (ws : List WorkerMember) (m : ClusterMetrics)
    → m.cluster_aggregate_memory_bytes < u64_mod
    → (add_workers ws m).cluster_aggregate_memory_bytes
      ≡ (m.cluster_aggregate_memory_bytes + total (λ w. w.resources.total_memory_bytes) ws)
        % u64_mod
unfolding add_workers add_worker total
add_workers-memory [] m h = omega arith
add_workers-memory (w ∷ ws) m h =
    ground (arith, add_workers-memory ws (add_worker w m) (ground arith))

add_workers-allocated_memory :
    (ws : List WorkerMember) (m : ClusterMetrics)
    → m.cluster_allocated_memory_bytes < u64_mod
    → (add_workers ws m).cluster_allocated_memory_bytes
      ≡ (m.cluster_allocated_memory_bytes + total (λ w. w.resources.reserved_memory_bytes) ws)
        % u64_mod
unfolding add_workers add_worker total
add_workers-allocated_memory [] m h = omega arith
add_workers-allocated_memory (w ∷ ws) m h =
    ground (arith, add_workers-allocated_memory ws (add_worker w m) (ground arith))

add_workers-cores :
    (ws : List WorkerMember) (m : ClusterMetrics)
    → m.cluster_aggregate_cores < u32_mod
    → (add_workers ws m).cluster_aggregate_cores
      ≡ (m.cluster_aggregate_cores + total (λ w. w.resources.total_cores) ws) % u32_mod
unfolding add_workers add_worker total
add_workers-cores [] m h = omega arith
add_workers-cores (w ∷ ws) m h =
    ground (arith, add_workers-cores ws (add_worker w m) (ground arith))

add_workers-allocated_cores :
    (ws : List WorkerMember) (m : ClusterMetrics)
    → m.cluster_allocated_cores < u32_mod
    → (add_workers ws m).cluster_allocated_cores
      ≡ (m.cluster_allocated_cores + total (λ w. w.resources.reserved_cores) ws) % u32_mod
unfolding add_workers add_worker total
add_workers-allocated_cores [] m h = omega arith
add_workers-allocated_cores (w ∷ ws) m h =
    ground (arith, add_workers-allocated_cores ws (add_worker w m) (ground arith))

add_workers-active :
    (ws : List WorkerMember) (m : ClusterMetrics)
    → m.active_worker_count < u32_mod
    → (add_workers ws m).active_worker_count ≡ (m.active_worker_count + total (λ w. 1) ws) % u32_mod
unfolding add_workers add_worker total
add_workers-active [] m h = omega arith
add_workers-active (w ∷ ws) m h =
    ground (arith, add_workers-active ws (add_worker w m) (ground arith))

-- The aggregates that are computed are the sums, over the workers that are online or draining, of their
-- memory, reserved memory, cores and reserved cores, and the number of these workers, as words.
pub recalculate_aggregates-IsTotal :
    (s : Snapshot) → IsTotal s.active_workers (recalculate_aggregates s).metrics
unfolding recalculate_aggregates no_metrics
recalculate_aggregates-IsTotal s = record {
  memory = omega (arith, add_workers-memory s.active_workers no_metrics (omega arith));
  allocated_memory =
      omega (arith, add_workers-allocated_memory s.active_workers no_metrics (omega arith));
  cores = omega (arith, add_workers-cores s.active_workers no_metrics (omega arith));
  allocated_cores =
      omega (arith, add_workers-allocated_cores s.active_workers no_metrics (omega arith));
  workers = omega (arith, add_workers-active s.active_workers no_metrics (omega arith));
}
