-- ===== src/Workload.antt =====
-- master/src/workload.c: the workloads that were submitted, their chunks, and the results that
-- drive them to their end. The mutex makes each call one step, and no pointer argument but
-- `checksum` is NULL. The planner is the one that the file calls, `mock_invoke_chunk_planner`.
-- `Lifecycle` has the calls, `Ready` is about the chunks made ready, `Progress` about the state
-- that results lead to, `Pipeline` and `Course` about the run of a submitted workload,
-- `Identifiers` about the ids.
pub mod Lifecycle
pub mod Ready
pub mod Progress
pub mod Pipeline
pub mod Course
pub mod Identifiers
mod Tests
use void_os_merger.Base.{
  ℕ, zero, suc, ◌+◌, ◌-◌, ◌*◌, ◌/◌, ◌%◌, Bool, true, false, not, ◌&&◌, ◌||◌, Option, none, some,
  List, [], ◌∷◌, ◌++◌, ltb, leb, ◌==◌, if◌then◌else◌, is_some, length, find_first, update_first,
  modify, map, add64, sub64, u64_mod, bit_xor, Bytes, strncpy,
}

abbrev pub max_active_workloads : ℕ
max_active_workloads = 32

abbrev pub short_str_len : ℕ
short_str_len = 64

pub data WorkloadState : Type 0 where
  submitted planning executing completed failed cancelled : WorkloadState

pub data ChunkState : Type 0 where
  pending ready running completed failed : ChunkState

pub data WorkloadStrategy : Type 0 where
  batch pipeline : WorkloadStrategy

pub record UserWorkloadDesc : Type 0 where
  pub workload_name : Bytes
  pub strategy : WorkloadStrategy
  pub total_size_bytes : ℕ
  pub intensity_factor : ℕ
  pub is_splittable : Bool
  pub data_node_hint : ℕ
  pub deadline_seconds : ℕ

-- The locality score is only ever 1.0; it stands as the number 1.
pub record Chunk : Type 0 where
  pub chunk_id : ℕ
  pub memory_demand_bytes : ℕ
  pub cpu_cores_demand : ℕ
  pub target_node_id : ℕ
  pub data_locality_score : ℕ
  pub state : ChunkState
  pub assigned_worker : Bytes
  pub output_checksum : Bytes

pub record Edge : Type 0 where
  pub src_chunk_id : ℕ
  pub dst_chunk_id : ℕ

-- A float that is the quotient of two counts.
pub record Quotient : Type 0 where
  pub num : ℕ
  pub den : ℕ

pub record Job : Type 0 where
  pub workload_id : ℕ
  pub name : Bytes
  pub state : WorkloadState
  pub start_timestamp_ms : ℕ
  pub deadline_seconds : ℕ
  pub chunks : List Chunk
  pub edges : List Edge
  pub overall_progress : Quotient
  pub aggregated_result_hash : Bytes

pub record Context : Type 0 where
  pub jobs : List Job
  pub next_workload_id : ℕ

unfoldable pub init : Context
init = record { jobs = []; next_workload_id = 1001 }

abbrev pub is_pending : ChunkState → Bool
is_pending pending = true
is_pending _ = false

abbrev pub is_completed : ChunkState → Bool
is_completed completed = true
is_completed _ = false

abbrev pub is_failed : ChunkState → Bool
is_failed failed = true
is_failed _ = false

abbrev pub is_executing : WorkloadState → Bool
is_executing executing = true
is_executing _ = false

abbrev pub has_chunk_id : ℕ → Chunk → Bool
has_chunk_id id c = c.chunk_id == id

-- `(wl_id << 16) | i` for an i below 2 ^ 16, on uint64_t.
unfoldable pub mock_chunk_id : ℕ → ℕ → ℕ
mock_chunk_id wl_id i = (wl_id * 65536) % u64_mod + i

unfoldable pub mock_chunk : UserWorkloadDesc → ℕ → ℕ → Chunk
mock_chunk desc wl_id i = record {
  chunk_id = mock_chunk_id wl_id i;
  memory_demand_bytes = desc.total_size_bytes / 3;
  cpu_cores_demand = desc.intensity_factor;
  target_node_id = desc.data_node_hint;
  data_locality_score = 1;
  state = pending;
  assigned_worker = [];
  output_checksum = [];
}

unfoldable pub mock_invoke_chunk_planner : UserWorkloadDesc → ℕ → Job → Job
mock_invoke_chunk_planner desc wl_id job =
    let id = mock_chunk_id wl_id in
    record job {
      chunks = mock_chunk desc wl_id 0 ∷ mock_chunk desc wl_id 1 ∷ mock_chunk desc wl_id 2 ∷ [];
      edges =
          record { src_chunk_id = id 0; dst_chunk_id = id 1 }
          ∷ record { src_chunk_id = id 1; dst_chunk_id = id 2 }
          ∷ [];
    }

-- The parent of an edge is completed, or is no chunk of the job.
unfoldable pub parent_completed : List Chunk → Edge → Bool
parent_completed chunks e = elim (find_first (has_chunk_id e.src_chunk_id) chunks) [
  | none ↦ true
  | some c ↦ is_completed c.state
]

unfoldable pub parents_completed : List Chunk → List Edge → ℕ → Bool
parents_completed chunks [] id = true
parents_completed chunks (e ∷ es) id =
    (not (e.dst_chunk_id == id) || parent_completed chunks e) && parents_completed chunks es id

unfoldable pub make_ready : List Edge → List Chunk → Chunk → Chunk
make_ready edges chunks c =
    if is_pending c.state && parents_completed chunks edges c.chunk_id
    then record c { state = ready }
    else c

-- The loop over the indices from i on, n of them, which reads the chunks as it changes them.
unfoldable pub ready_loop : List Edge → ℕ → ℕ → List Chunk → List Chunk
ready_loop edges zero i chunks = chunks
ready_loop edges (suc n) i chunks =
    ready_loop edges n (suc i) (modify (make_ready edges chunks) i chunks)

unfoldable pub evaluate_ready_chunks : Job → Job
evaluate_ready_chunks job = record job {
  chunks = ready_loop job.edges (length job.chunks) 0 job.chunks;
}
