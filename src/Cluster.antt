-- ===== src/Cluster.antt =====
-- master/src/cluster_state.c: the master's view of the cluster, with the aggregates over the
-- workers, the workers and leases by identifier, the journal, and the ring of snapshots for
-- readers. `Snapshots` has the journal, the ring and the sequences of calls. `Metrics` is about
-- the aggregates, `Members` about what a call changes, `Invariant` and `Reachable` about the
-- tables, `Ring` and `Readers` about the snapshots and `Crash` about the journal.
pub mod Snapshots
pub mod Metrics
pub mod Members
pub mod Invariant
pub mod Reachable
pub mod Ring
pub mod Readers
pub mod Crash
mod Tests
use void_os_merger.Base.{
  ℕ, suc, Bool, true, false, ◌||◌, List, [], ◌∷◌, ◌++◌, leb, ◌==◌, if◌then◌else◌, is_some, length,
  find_first, update_first, add32, add64, Bytes, strncpy, ◌&&◌,
}

abbrev pub cluster_max_workers : ℕ
cluster_max_workers = 32

abbrev pub cluster_max_active_leases : ℕ
cluster_max_active_leases = 128

abbrev pub uuid_str_max : ℕ
uuid_str_max = 64

pub data WorkerHealth : Type 0 where
  online draining offline : WorkerHealth

pub data ClusterStatus : Type 0 where
  bootstrap operational degraded : ClusterStatus

pub data LeaseStatus : Type 0 where
  running completed failed timed_out : LeaseStatus

pub record WorkerResources : Type 0 where
  pub total_memory_bytes : ℕ
  pub reserved_memory_bytes : ℕ
  pub total_cores : ℕ
  pub reserved_cores : ℕ

pub record WorkerMember : Type 0 where
  pub worker_id : ℕ
  pub health : WorkerHealth
  pub last_seen_timestamp_ms : ℕ
  pub resources : WorkerResources

-- The progress is a float that is only stored: it stands as its bit pattern.
pub record ChunkLease : Type 0 where
  pub chunk_id : ℕ
  pub status : LeaseStatus
  pub progress_percentage : ℕ
  pub failure_retry_count : ℕ

pub record ClusterMetrics : Type 0 where
  pub cluster_aggregate_memory_bytes : ℕ
  pub cluster_allocated_memory_bytes : ℕ
  pub cluster_aggregate_cores : ℕ
  pub cluster_allocated_cores : ℕ
  pub active_worker_count : ℕ

pub record Snapshot : Type 0 where
  pub cluster_uuid : Bytes
  pub master_epoch : ℕ
  pub state_generation_version : ℕ
  pub global_status : ClusterStatus
  pub active_workers : List WorkerMember
  pub active_leases : List ChunkLease
  pub metrics : ClusterMetrics

unfoldable pub no_metrics : ClusterMetrics
no_metrics = record {
  cluster_aggregate_memory_bytes = 0;
  cluster_allocated_memory_bytes = 0;
  cluster_aggregate_cores = 0;
  cluster_allocated_cores = 0;
  active_worker_count = 0;
}

abbrev pub is_present : WorkerHealth → Bool
is_present online = true
is_present draining = true
is_present offline = false

abbrev pub is_bootstrap : ClusterStatus → Bool
is_bootstrap bootstrap = true
is_bootstrap _ = false

abbrev pub is_failure : LeaseStatus → Bool
is_failure failed = true
is_failure timed_out = true
is_failure _ = false

-- What one worker adds to the aggregates.
unfoldable pub add_worker : WorkerMember → ClusterMetrics → ClusterMetrics
add_worker w m =
    if is_present w.health
    then record {
      cluster_aggregate_memory_bytes =
          add64 m.cluster_aggregate_memory_bytes w.resources.total_memory_bytes;
      cluster_allocated_memory_bytes =
          add64 m.cluster_allocated_memory_bytes w.resources.reserved_memory_bytes;
      cluster_aggregate_cores = add32 m.cluster_aggregate_cores w.resources.total_cores;
      cluster_allocated_cores = add32 m.cluster_allocated_cores w.resources.reserved_cores;
      active_worker_count = add32 m.active_worker_count 1;
    }
    else m

unfoldable pub add_workers : List WorkerMember → ClusterMetrics → ClusterMetrics
add_workers [] m = m
add_workers (w ∷ ws) m = add_workers ws (add_worker w m)

unfoldable pub recalculate_aggregates : Snapshot → Snapshot
recalculate_aggregates s = record s { metrics = add_workers s.active_workers no_metrics }

-- The state of `cluster_state_create`.
unfoldable pub created : Bytes → ℕ → Snapshot
unfolding no_metrics
created uuid epoch = record {
  cluster_uuid = strncpy uuid_str_max uuid;
  master_epoch = epoch;
  state_generation_version = 1;
  global_status = bootstrap;
  active_workers = [];
  active_leases = [];
  metrics = no_metrics;
}

abbrev pub is_worker : ℕ → WorkerMember → Bool
is_worker id w = w.worker_id == id

abbrev pub is_lease : ℕ → ChunkLease → Bool
is_lease id l = l.chunk_id == id

unfoldable pub register_worker : WorkerMember → Snapshot → Snapshot × Bool
register_worker worker s =
    if leb cluster_max_workers (length s.active_workers)
    then (s, false)
    else if is_some (find_first (is_worker worker.worker_id) s.active_workers)
    then (s, false)
    else let workers = s.active_workers ++ worker ∷ [] in
      (
        recalculate_aggregates (record s {
          active_workers = workers;
          state_generation_version = add64 s.state_generation_version 1;
          global_status =
              if is_bootstrap s.global_status && leb 1 (length workers)
              then operational
              else s.global_status;
        }),
        true,
      )

-- A new entry, zeroed, for a chunk that has no lease.
unfoldable pub blank_lease : ℕ → ChunkLease
blank_lease id = record {
  chunk_id = id;
  status = running;
  progress_percentage = 0;
  failure_retry_count = 0;
}

unfoldable pub set_lease : LeaseStatus → ℕ → ChunkLease → ChunkLease
set_lease status progress l = record l {
  status = status;
  progress_percentage = progress;
  failure_retry_count =
      if is_failure status then add32 l.failure_retry_count 1 else l.failure_retry_count;
}

unfoldable pub update_lease : ℕ → LeaseStatus → ℕ → Snapshot → Snapshot × Bool
update_lease id status progress s =
    let version = add64 s.state_generation_version 1 in
    if is_some (find_first (is_lease id) s.active_leases)
    then (
      record s {
        active_leases = update_first (is_lease id) (set_lease status progress) s.active_leases;
        state_generation_version = version;
      },
      true,
    )
    else if leb cluster_max_active_leases (length s.active_leases)
    then (s, false)
    else (
      record s {
        active_leases = s.active_leases ++ set_lease status progress (blank_lease id) ∷ [];
        state_generation_version = version;
      },
      true,
    )

abbrev pub revive : WorkerHealth → WorkerHealth
revive offline = online
revive online = online
revive draining = draining

unfoldable pub seen : ℕ → WorkerMember → WorkerMember
seen now w = record w { last_seen_timestamp_ms = now; health = revive w.health }

unfoldable pub process_heartbeat : ℕ → ℕ → Snapshot → Snapshot × Bool
process_heartbeat id now s =
    if is_some (find_first (is_worker id) s.active_workers)
    then (
      recalculate_aggregates (record s {
        active_workers = update_first (is_worker id) (seen now) s.active_workers;
        state_generation_version = add64 s.state_generation_version 1;
      }),
      true,
    )
    else (s, false)
