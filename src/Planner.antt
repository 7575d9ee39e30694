-- ===== src/Planner.antt =====
-- master/src/chunk_planner.c: the identifiers of chunks, the planning strategies and their registry.
-- `Topology` has the check that a plan has no cycle, `Identifiers` is about the identifiers, and `Plans`
-- about the plans that the strategies make.
pub mod Identifiers
pub mod Topology
pub mod Plans
mod Tests
use void_os_merger.Base.{
  ℕ, zero, suc, ◌+◌, ◌-◌, ◌*◌, ◌/◌, ◌%◌, ◌^◌, Bool, true, false, not, ◌&&◌, Option, none, some,
  List, [], ◌∷◌, ◌++◌, ltb, leb, ◌==◌, if◌then◌else◌, length, is_some, add64, u64_mod, bit_xor,
  shr33, Bytes,
}

abbrev pub max_strategies : ℕ
max_strategies = 16

pub data StrategyType : Type 0 where
  independent_batch sequential_pipeline map_reduce unsupported : StrategyType

-- The number that the enumeration gives a strategy.
abbrev pub strategy_index : StrategyType → ℕ
strategy_index independent_batch = 0
strategy_index sequential_pipeline = 1
strategy_index map_reduce = 2
strategy_index unsupported = 3

pub record Workload : Type 0 where
  pub workload_name : Bytes
  pub strategy_type : StrategyType
  pub total_input_size_bytes : ℕ
  pub compute_intensity_factor : ℕ
  pub is_splittable : Bool
  pub raw_data_node_id : ℕ

-- The score is 0.0 or 1.0, and stands as that number.
pub record Chunk : Type 0 where
  pub chunk_id : ℕ
  pub memory_demand_bytes : ℕ
  pub cpu_cores_demand : ℕ
  pub target_node_id : ℕ
  pub data_locality_score : ℕ

pub record Edge : Type 0 where
  pub src_chunk_id : ℕ
  pub dst_chunk_id : ℕ

pub record Plan : Type 0 where
  pub chunks : List Chunk
  pub edges : List Edge
  pub is_valid : Bool

-- `memset(out_plan, 0, sizeof(ExecutionPlan))`.
abbrev pub blank_plan : Plan
blank_plan = record { chunks = []; edges = []; is_valid = false }

-- A strategy fills in the plan that it is given and says whether it could.
abbrev pub PlanFn : Type 0
PlanFn = Workload → Plan → Plan × Bool

-- A function pointer may be null.
pub record Strategy : Type 0 where
  pub type : StrategyType
  pub plan_fn : Option PlanFn

abbrev pub mul64 : ℕ → ℕ → ℕ
mul64 a b = (a * b) % u64_mod

unfoldable pub generate_deterministic_chunk_id : ℕ → ℕ → ℕ
generate_deterministic_chunk_id base_hash chunk_index =
    let a = bit_xor base_hash chunk_index in
    let b = mul64 (bit_xor a (shr33 a)) 0xff51afd7ed558ccd in
    let c = mul64 (bit_xor b (shr33 b)) 0xc4ceb9fe1a85ec53 in bit_xor c (shr33 c)

-- A `char` is signed, as on x86: as a uint64_t a byte from 128 on has its upper bits set.
abbrev pub widen : ℕ → ℕ
widen b = if ltb b 128 then b else (b + (2 ^ 64 - 256)) % u64_mod

unfoldable pub hash_name : ℕ → Bytes → ℕ
hash_name hash [] = hash
hash_name hash (b ∷ bs) = hash_name (mul64 (bit_xor hash (widen b)) 1099511628211) bs

unfoldable pub compute_workload_base_hash : Workload → ℕ
compute_workload_base_hash wl =
    bit_xor (bit_xor (hash_name 0x9E3779B97F4A7C15 wl.workload_name) wl.total_input_size_bytes)
      (strategy_index wl.strategy_type)

unfoldable pub register_planning_strategy :
    StrategyType → Option PlanFn → List Strategy → List Strategy × Bool
register_planning_strategy type fn registry =
    if leb max_strategies (length registry)
    then (registry, false)
    else (registry ++ record { type = type; plan_fn = fn } ∷ [], true)

unfoldable pub find_strategy : StrategyType → List Strategy → Option PlanFn
find_strategy type [] = none
find_strategy type (s ∷ ss) =
    let rest = find_strategy type ss in
    if (strategy_index s.type == strategy_index type) && is_some s.plan_fn then s.plan_fn else rest

-- The node of chunk i is i % 4; the 64 MB are 1024 * 1024 * 64 bytes.
unfoldable pub batch_chunk : Workload → ℕ → ℕ → Chunk
batch_chunk wl base_hash i =
    let node = i % 4 in
    record {
      chunk_id = generate_deterministic_chunk_id base_hash i;
      memory_demand_bytes = add64 (wl.total_input_size_bytes / 4) (1024 * 1024 * 64);
      cpu_cores_demand = mul64 wl.compute_intensity_factor 2;
      target_node_id = node;
      data_locality_score = if node == wl.raw_data_node_id then 1 else 0;
    }

unfoldable pub plan_independent_batch_strategy : PlanFn
plan_independent_batch_strategy wl plan =
    let base_hash = compute_workload_base_hash wl in
    (
      record {
        chunks =
            batch_chunk wl base_hash 0
            ∷ batch_chunk wl base_hash 1
            ∷ batch_chunk wl base_hash 2
            ∷ batch_chunk wl base_hash 3
            ∷ [];
        edges = [];
        is_valid = true;
      },
      true,
    )

unfoldable pub pipeline_chunk : Workload → ℕ → ℕ → Chunk
pipeline_chunk wl base_hash i = record {
  chunk_id = generate_deterministic_chunk_id base_hash i;
  memory_demand_bytes = wl.total_input_size_bytes / 2;
  cpu_cores_demand = wl.compute_intensity_factor;
  target_node_id = wl.raw_data_node_id;
  data_locality_score = 1;
}

-- Chunk i before chunk i + 1.
abbrev pub follows : Chunk → Chunk → Edge
follows c d = record { src_chunk_id = c.chunk_id; dst_chunk_id = d.chunk_id }

unfoldable pub plan_sequential_pipeline_strategy : PlanFn
plan_sequential_pipeline_strategy wl plan =
    let chunk = pipeline_chunk wl (compute_workload_base_hash wl) in
    (
      record {
        chunks = chunk 0 ∷ chunk 1 ∷ chunk 2 ∷ chunk 3 ∷ [];
        edges =
            follows (chunk 0) (chunk 1)
            ∷ follows (chunk 1) (chunk 2)
            ∷ follows (chunk 2) (chunk 3)
            ∷ [];
        is_valid = true;
      },
      true,
    )

-- The plan that is left, and the result.
unfoldable pub generate_chunk_graph : List Strategy → Workload → Plan × Bool
generate_chunk_graph registry wl =
    if not wl.is_splittable
    then (blank_plan, false)
    else elim (find_strategy wl.strategy_type registry) [
      | none ↦ (blank_plan, false)
      | some strategy_call ↦ strategy_call wl blank_plan
    ]
