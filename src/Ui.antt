-- ===== src/Ui.antt =====
-- ui/src/model.c: the view of a snapshot of the cluster that the user interface shows.
-- `Faithful` is about what it shows. Floats and doubles are the platform's: the record `Platform` has the
-- operations that are used. The pointers are not null.
pub mod Faithful
mod Tests
use void_os_merger.Base.{
  ℕ, zero, suc, ◌-◌, Bool, true, false, List, [], ◌∷◌, ◌++◌, ltb, leb, if◌then◌else◌, length, Bytes,
  strncpy,
}

abbrev pub ui_max_nodes : ℕ
ui_max_nodes = 64

abbrev pub ui_max_active_tasks : ℕ
ui_max_active_tasks = 256

abbrev pub ui_max_active_leases : ℕ
ui_max_active_leases = 256

abbrev pub ui_short_string_len : ℕ
ui_short_string_len = 32

abbrev pub uuid_str_max : ℕ
uuid_str_max = 64

pub data WorkerHealth : Type 0 where
  online draining offline suspect : WorkerHealth

pub data ClusterStatus : Type 0 where
  bootstrap operational degraded maintenance panic : ClusterStatus

pub data LeaseStatus : Type 0 where
  idle assigned executing committed timed_out failed : LeaseStatus

pub record WorkerResources : Type 0 where
  pub total_memory_bytes : ℕ
  pub reserved_memory_bytes : ℕ
  pub total_cores : ℕ
  pub reserved_cores : ℕ

pub record WorkerMember : Type 0 where
  pub worker_id : ℕ
  pub hostname : Bytes
  pub health : WorkerHealth
  pub last_heartbeat_monotonic_ms : ℕ
  pub resources : WorkerResources

pub record ClusterMetrics : Type 0 where
  pub cluster_aggregate_memory_bytes : ℕ
  pub cluster_allocated_memory_bytes : ℕ
  pub cluster_aggregate_cores : ℕ
  pub cluster_allocated_cores : ℕ
  pub active_worker_count : ℕ

pub data UiHealth : Type 0 where
  unknown ok warn crit : UiHealth

-- `F` is the type of floats.
pub record ChunkLease (F : Type 0) : Type 0 where
  pub chunk_id : ℕ
  pub workload_id : ℕ
  pub assigned_worker_id : ℕ
  pub status : LeaseStatus
  pub progress_percentage : F
  pub failure_retry_count : ℕ

pub record Snapshot (F : Type 0) : Type 0 where
  pub cluster_uuid : Bytes
  pub master_epoch : ℕ
  pub state_generation_version : ℕ
  pub global_status : ClusterStatus
  pub active_workers : List WorkerMember
  pub active_leases : List (ChunkLease F)
  pub metrics : ClusterMetrics

-- `D` is the type of doubles.
pub record NodeRecord (D : Type 0) : Type 0 where
  pub node_id : ℕ
  pub display_name : Bytes
  pub health : UiHealth
  pub memory_utilization_pct : D
  pub cpu_utilization_pct : D
  pub is_draining : Bool
  pub ms_since_last_heartbeat : ℕ

pub record TaskRecord (F : Type 0) : Type 0 where
  pub chunk_id : ℕ
  pub workload_id : ℕ
  pub assigned_node_id : ℕ
  pub status_text : Bytes
  pub progress_normalized : F
  pub requires_attention : Bool

pub record ViewModel (D F : Type 0) : Type 0 where
  pub device_uuid : Bytes
  pub logical_epoch : ℕ
  pub last_version_seen : ℕ
  pub summary_health : UiHealth
  pub operational_status_text : Bytes
  pub cluster_total_memory_gb : D
  pub cluster_used_memory_gb : D
  pub cluster_overall_cpu_pct : D
  pub nodes : List (NodeRecord D)
  pub tasks : List (TaskRecord F)

-- The double 0, the conversion of an integer, the operators `/` and `*`, and `/ 100.0f` on floats.
pub record Platform (D F : Type 0) : Type 0 where
  pub zeroed : D
  pub double : ℕ → D
  pub quotient : D → D → D
  pub product : D → D → D
  pub normalized : F → F

-- The switch on the global status.
unfoldable pub summary_health_of : ClusterStatus → UiHealth
summary_health_of bootstrap = warn
summary_health_of operational = ok
summary_health_of degraded = warn
summary_health_of maintenance = unknown
summary_health_of panic = crit

abbrev pub global_text : ClusterStatus → Bytes
global_text bootstrap =
    82 ∷ 69 ∷ 67 ∷ 79 ∷ 86 ∷ 69 ∷ 82 ∷ 73 ∷ 78 ∷ 71 ∷ 47 ∷ 66 ∷ 79 ∷ 79 ∷ 84 ∷ []
global_text operational = 72 ∷ 69 ∷ 65 ∷ 76 ∷ 84 ∷ 72 ∷ 89 ∷ []
global_text degraded = 68 ∷ 69 ∷ 71 ∷ 82 ∷ 65 ∷ 68 ∷ 69 ∷ 68 ∷ []
global_text maintenance = 77 ∷ 65 ∷ 73 ∷ 78 ∷ 84 ∷ 69 ∷ 78 ∷ 65 ∷ 78 ∷ 67 ∷ 69 ∷ []
global_text panic =
    67 ∷ 82 ∷ 73 ∷ 84 ∷ 73 ∷ 67 ∷ 65 ∷ 76 ∷ 32 ∷ 70 ∷ 65 ∷ 73 ∷ 76 ∷ 85 ∷ 82 ∷ 69 ∷ []

unfoldable pub node_health : WorkerHealth → UiHealth
node_health online = ok
node_health suspect = warn
node_health offline = crit
node_health draining = warn

abbrev pub lease_text : LeaseStatus → Bytes
lease_text idle = 81 ∷ 85 ∷ 69 ∷ 85 ∷ 69 ∷ 68 ∷ []
lease_text assigned = 68 ∷ 73 ∷ 83 ∷ 80 ∷ 65 ∷ 84 ∷ 67 ∷ 72 ∷ 69 ∷ 68 ∷ []
lease_text executing = 82 ∷ 85 ∷ 78 ∷ 78 ∷ 73 ∷ 78 ∷ 71 ∷ []
lease_text committed = 70 ∷ 73 ∷ 78 ∷ 73 ∷ 83 ∷ 72 ∷ 69 ∷ 68 ∷ []
lease_text timed_out = 84 ∷ 73 ∷ 77 ∷ 69 ∷ 79 ∷ 85 ∷ 84 ∷ []
lease_text failed = 70 ∷ 65 ∷ 73 ∷ 76 ∷ 69 ∷ 68 ∷ []

abbrev pub is_draining_health : WorkerHealth → Bool
is_draining_health draining = true
is_draining_health _ = false

-- How many of the entries are taken.
abbrev pub limited : ℕ → ℕ → ℕ
limited total limit = if ltb total limit then total else limit

module _ {D F : Type 0} (platform : Platform D F) where
  -- `(double)used / (double)total * 100.0` where the total is not 0; else the 0 of the `memset`.
  unfoldable pub percentage : ℕ → ℕ → D
  percentage used total =
      if ltb 0 total
      then platform.product (platform.quotient (platform.double used) (platform.double total))
          (platform.double 100)
      else platform.zeroed

  -- `bytes / gb`.
  abbrev pub in_gb : ℕ → D
  in_gb bytes = platform.quotient (platform.double bytes) (platform.double 1073741824)

  unfoldable pub node_of : ℕ → WorkerMember → NodeRecord D
  node_of now src = record {
    node_id = src.worker_id;
    display_name = strncpy ui_short_string_len src.hostname;
    health = node_health src.health;
    memory_utilization_pct =
        percentage src.resources.reserved_memory_bytes src.resources.total_memory_bytes;
    cpu_utilization_pct = percentage src.resources.reserved_cores src.resources.total_cores;
    is_draining = is_draining_health src.health;
    ms_since_last_heartbeat =
        if leb src.last_heartbeat_monotonic_ms now
        then now - src.last_heartbeat_monotonic_ms
        else 0;
  }

  unfoldable pub task_of : ChunkLease F → TaskRecord F
  task_of src = record {
    chunk_id = src.chunk_id;
    workload_id = src.workload_id;
    assigned_node_id = src.assigned_worker_id;
    status_text = strncpy ui_short_string_len (lease_text src.status);
    progress_normalized = platform.normalized src.progress_percentage;
    requires_attention = leb 3 src.failure_retry_count;
  }

  -- The loop over the workers: the number is how many it still takes.
  unfoldable pub node_loop : ℕ → ℕ → List WorkerMember → List (NodeRecord D) → List (NodeRecord D)
  node_loop zero now workers nodes = nodes
  node_loop (suc n) now [] nodes = nodes
  node_loop (suc n) now (src ∷ workers) nodes =
      node_loop n now workers (nodes ++ node_of now src ∷ [])

  unfoldable pub task_loop : ℕ → List (ChunkLease F) → List (TaskRecord F) → List (TaskRecord F)
  task_loop zero leases tasks = tasks
  task_loop (suc n) [] tasks = tasks
  task_loop (suc n) (src ∷ leases) tasks =
      let rest = task_loop n leases (tasks ++ task_of src ∷ []) in
      if leb ui_max_active_tasks (length tasks) then tasks else rest

  unfoldable pub ui_model_transform_snapshot : Snapshot F → ℕ → ViewModel D F
  ui_model_transform_snapshot snapshot now = record {
    device_uuid = strncpy uuid_str_max snapshot.cluster_uuid;
    logical_epoch = snapshot.master_epoch;
    last_version_seen = snapshot.state_generation_version;
    summary_health = summary_health_of snapshot.global_status;
    operational_status_text = strncpy ui_short_string_len (global_text snapshot.global_status);
    cluster_total_memory_gb = in_gb snapshot.metrics.cluster_aggregate_memory_bytes;
    cluster_used_memory_gb = in_gb snapshot.metrics.cluster_allocated_memory_bytes;
    cluster_overall_cpu_pct =
        percentage snapshot.metrics.cluster_allocated_cores
          snapshot.metrics.cluster_aggregate_cores;
    nodes =
        node_loop (limited (length snapshot.active_workers) ui_max_nodes) now
          snapshot.active_workers [];
    tasks =
        task_loop (limited (length snapshot.active_leases) ui_max_active_leases)
          snapshot.active_leases [];
  }
