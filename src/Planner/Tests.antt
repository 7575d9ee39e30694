-- ===== src/Planner/Tests.antt =====
-- master/src/chunk_planner.c: the plans of its test suite, and one with a repeated identifier.
use void_os_merger.Base.{
  ℕ, ◌+◌, ◌*◌, ◌≤◌, ◌<◌, ◌≡◌, ◌↔◌, refl, true, false, some, inl, inr, List, [], ◌∷◌, arith, length,
  is_some, count,
}
use void_os_merger.Planner.{
  Workload, Chunk, Edge, Plan, Strategy, independent_batch, sequential_pipeline, find_strategy,
  plan_independent_batch_strategy, plan_sequential_pipeline_strategy, generate_chunk_graph,
}
use void_os_merger.Planner.Topology.{
  start, drain, verify_plan_topology_is_dag, in_degrees, count_in, zero_indices, relax, visit,
  round,
}
use void_os_merger.Planner.Topology.Ready.{IsDistinct}
use void_os_merger.Planner.Topology.Drain.{drain_ends}
use void_os_merger.Planner.Topology.Decides.{IsRanked}
use void_os_merger.Planner.Topology.Verdict.{verify_plan_topology_is_dag-IsRanked}
use void_os_merger.Planner.Plans.{IsSoundPlan, generate_chunk_graph-IsSoundPlan}

abbrev chunk : ℕ → Chunk
chunk id = record {
  chunk_id = id;
  memory_demand_bytes = 0;
  cpu_cores_demand = 0;
  target_node_id = 0;
  data_locality_score = 0;
}

abbrev edge : ℕ → ℕ → Edge
edge a b = record { src_chunk_id = a; dst_chunk_id = b }

abbrev cyclic : Plan
cyclic = record {
  chunks = chunk 0xDEADE ∷ chunk 0xBEEFE ∷ [];
  edges = edge 0xDEADE 0xBEEFE ∷ edge 0xBEEFE 0xDEADE ∷ [];
  is_valid = true;
}

cyclic_rejected : verify_plan_topology_is_dag cyclic ≡ false
unfolding verify_plan_topology_is_dag start drain in_degrees count_in zero_indices relax visit round
cyclic_rejected = refl

-- Two chunks named 1 feed chunk 3 twice over one edge, which hides that chunk 2 is behind it: the cycle
-- of 2 and 3 is accepted.
abbrev repeated : Plan
repeated = record {
  chunks = chunk 1 ∷ chunk 1 ∷ chunk 2 ∷ chunk 3 ∷ [];
  edges = edge 1 3 ∷ edge 2 3 ∷ edge 3 2 ∷ [];
  is_valid = true;
}

repeated_accepted : verify_plan_topology_is_dag repeated ≡ true
unfolding verify_plan_topology_is_dag start drain in_degrees count_in zero_indices relax visit round
repeated_accepted = refl

cyclic-IsDistinct : IsDistinct cyclic.chunks
unfolding count
cyclic-IsDistinct = λ k. ground arith

verify_plan_topology_is_dag-IsRanked_example : (verify_plan_topology_is_dag cyclic ≡ true) ↔ (
    (true ≡ true)
    × (0 < length cyclic.chunks)
    × ((rank : ℕ → ℕ) × IsRanked cyclic.chunks cyclic.edges rank))
verify_plan_topology_is_dag-IsRanked_example =
    verify_plan_topology_is_dag-IsRanked cyclic cyclic-IsDistinct

drain_ends_example :
    let s = drain 2 cyclic.edges cyclic.chunks (start cyclic.edges cyclic.chunks) in
    (s.processed + length s.queue ≤ 2) × (2 ≤ 2 → s.queue ≡ [])
drain_ends_example = drain_ends 2 cyclic.edges cyclic.chunks

abbrev etl : Workload
etl = record {
  workload_name = 69 ∷ 84 ∷ 76 ∷ [];
  strategy_type = sequential_pipeline;
  total_input_size_bytes = 1024 * 1024 * 1024 * 16;
  compute_intensity_factor = 3;
  is_splittable = true;
  raw_data_node_id = 2;
}

abbrev both : List Strategy
both =
    record { type = independent_batch; plan_fn = some plan_independent_batch_strategy }
    ∷ record { type = sequential_pipeline; plan_fn = some plan_sequential_pipeline_strategy }
    ∷ []

generate_chunk_graph-IsSoundPlan_example :
    let r = generate_chunk_graph both etl in
    ((r.1 ≡ true) ↔ ((true ≡ true) × (is_some (find_strategy sequential_pipeline both) ≡ true)))
    × (r.1 ≡ true → IsSoundPlan r.0)
generate_chunk_graph-IsSoundPlan_example =
    generate_chunk_graph-IsSoundPlan both etl (inr (inl refl), (inr (inr refl), tt)) (omega arith)
