-- ===== src/Planner/Plans.antt =====
-- master/src/chunk_planner.c: the plans that the two strategies make.
use void_os_merger.Base.{
  ℕ, ◌≤◌, ◌<◌, ◌≡◌, ◌≢◌, ◌↔◌, ◌⊎◌, inl, inr, refl, ap, ◌∙◌, sym, subst, true, ◌&&◌, Option, none,
  some, is_some, List, [], ◌∷◌, arith, ◌==◌, if◌then◌else◌, count, All, Bool-cases, Option-cases,
  u64_mod, bit_xor, bit_xor-lt, Bytes,
}
use void_os_merger.Planner.{
  Workload, Chunk, Plan, PlanFn, Strategy, StrategyType, generate_deterministic_chunk_id, hash_name,
  widen, mul64, compute_workload_base_hash, find_strategy, batch_chunk, pipeline_chunk,
  strategy_index, plan_independent_batch_strategy, plan_sequential_pipeline_strategy,
  generate_chunk_graph, blank_plan,
}
use void_os_merger.Planner.Identifiers.{generate_deterministic_chunk_id_injective}
use void_os_merger.Planner.Topology.{verify_plan_topology_is_dag}
use void_os_merger.Planner.Topology.Ready.{IsDistinct}
use void_os_merger.Planner.Topology.Decides.{IsRanked, chunk_ids}
use void_os_merger.Planner.Topology.Verdict.{ranked-verify}

hash_name-lt : (hash : ℕ) (name : Bytes) → hash < u64_mod → hash_name hash name < u64_mod
unfolding hash_name
hash_name-lt hash [] h = h
hash_name-lt hash (b ∷ bs) h =
    hash_name-lt (mul64 (bit_xor hash (widen b)) 1099511628211) bs (omega arith)

strategy_index_lt : (t : StrategyType) → strategy_index t < 4
strategy_index_lt t = ground arith

base_hash-lt :
    (wl : Workload) → wl.total_input_size_bytes < u64_mod → compute_workload_base_hash wl < u64_mod
unfolding compute_workload_base_hash
base_hash-lt wl h =
    bit_xor-lt _ _
      (bit_xor-lt _ _ (hash_name-lt 0x9E3779B97F4A7C15 wl.workload_name (omega arith)) h)
      (omega (arith, strategy_index_lt wl.strategy_type))

-- The plan of a strategy: valid, with distinct identifiers, and ranked.
pub record IsSoundPlan (plan : Plan) : Type 0 where
  pub valid : plan.is_valid ≡ true
  pub distinct : IsDistinct plan.chunks
  pub verified : verify_plan_topology_is_dag plan ≡ true

distinct_four :
    (a b c d k : ℕ)
    → a ≢ b
    → a ≢ c
    → a ≢ d
    → b ≢ c
    → b ≢ d
    → c ≢ d
    → count k (a ∷ b ∷ c ∷ d ∷ []) ≤ 1
unfolding count
distinct_four a b c d k ab ac ad bc bd cd = ground arith

differ_ids :
    (base i j : ℕ)
    → base < u64_mod
    → i < 4
    → j < 4
    → i ≢ j
    → generate_deterministic_chunk_id base i ≢ generate_deterministic_chunk_id base j
differ_ids base i j h p q n e =
    n (generate_deterministic_chunk_id_injective base i j h (omega arith) (omega arith) e)

distinct_ids :
    (base k : ℕ)
    → base < u64_mod
    → count k (
        generate_deterministic_chunk_id base 0
        ∷ generate_deterministic_chunk_id base 1
        ∷ generate_deterministic_chunk_id base 2
        ∷ generate_deterministic_chunk_id base 3
        ∷ [])
      ≤ 1
distinct_ids base k h =
    distinct_four _ _ _ _ k (differ_ids base 0 1 h (omega arith) (omega arith) (omega arith))
      (differ_ids base 0 2 h (omega arith) (omega arith) (omega arith))
      (differ_ids base 0 3 h (omega arith) (omega arith) (omega arith))
      (differ_ids base 1 2 h (omega arith) (omega arith) (omega arith))
      (differ_ids base 1 3 h (omega arith) (omega arith) (omega arith))
      (differ_ids base 2 3 h (omega arith) (omega arith) (omega arith))

batch-IsSoundPlan :
    (wl : Workload) (plan : Plan)
    → wl.total_input_size_bytes < u64_mod
    → IsSoundPlan (plan_independent_batch_strategy wl plan).0
unfolding plan_independent_batch_strategy batch_chunk
batch-IsSoundPlan wl plan h = record {
  valid = refl;
  distinct = λ k. distinct_ids (compute_workload_base_hash wl) k (base_hash-lt wl h);
  verified =
      ranked-verify (plan_independent_batch_strategy wl plan).0 (λ k. 0) refl (omega arith)
        (record { known = tt; rises = tt });
}

-- The rank of an identifier in a row of four.
four_rank : ℕ → ℕ → ℕ → ℕ → ℕ
four_rank a b c k = if k == a then 0 else if k == b then 1 else if k == c then 2 else 3

four_in_row :
    (a b c d : ℕ)
    → a ≢ b
    → a ≢ c
    → a ≢ d
    → b ≢ c
    → b ≢ d
    → c ≢ d
    → (four_rank a b c a < four_rank a b c b)
      × (four_rank a b c b < four_rank a b c c)
      × (four_rank a b c c < four_rank a b c d)
unfolding four_rank
four_in_row a b c d ab ac ad bc bd cd = ground arith

four-IsRanked :
    (cs : List Chunk) (a b c d : ℕ)
    → chunk_ids cs ≡ a ∷ b ∷ c ∷ d ∷ []
    → a ≢ b
    → a ≢ c
    → a ≢ d
    → b ≢ c
    → b ≢ d
    → c ≢ d
    → IsRanked cs
        (record { src_chunk_id = a; dst_chunk_id = b }
          ∷ record { src_chunk_id = b; dst_chunk_id = c }
          ∷ record { src_chunk_id = c; dst_chunk_id = d }
          ∷ [])
        (four_rank a b c)
unfolding count
four-IsRanked cs a b c d e ab ac ad bc bd cd =
    let (p, q, r) = four_in_row a b c d ab ac ad bc bd cd in
    record {
      known = rw e ((λ _. ground arith), ((λ _. ground arith), ((λ _. ground arith), tt)));
      rises = ((λ _. p), ((λ _. q), ((λ _. r), tt)));
    }

pipeline-IsSoundPlan :
    (wl : Workload) (plan : Plan)
    → wl.total_input_size_bytes < u64_mod
    → IsSoundPlan (plan_sequential_pipeline_strategy wl plan).0
unfolding plan_sequential_pipeline_strategy pipeline_chunk
pipeline-IsSoundPlan wl plan h =
    let base = compute_workload_base_hash wl in
    let b = base_hash-lt wl h in
    record {
      valid = refl;
      distinct = λ k. distinct_ids base k b;
      verified = ranked-verify (plan_sequential_pipeline_strategy wl plan).0 _ refl (omega arith) (
          four-IsRanked _ _ _ _ _ refl
            (differ_ids base 0 1 b (omega arith) (omega arith) (omega arith))
            (differ_ids base 0 2 b (omega arith) (omega arith) (omega arith))
            (differ_ids base 0 3 b (omega arith) (omega arith) (omega arith))
            (differ_ids base 1 2 b (omega arith) (omega arith) (omega arith))
            (differ_ids base 1 3 b (omega arith) (omega arith) (omega arith))
            (differ_ids base 2 3 b (omega arith) (omega arith) (omega arith)));
    }

-- A registered function that is null or one of the two strategies of the file.
abbrev pub IsBuiltin : Strategy → Type 0
IsBuiltin s =
    (s.plan_fn ≡ none)
    ⊎ (s.plan_fn ≡ some plan_independent_batch_strategy)
    ⊎ (s.plan_fn ≡ some plan_sequential_pipeline_strategy)

find_strategy_head :
    (s : Strategy) (ss : List Strategy) (type : StrategyType) (f : PlanFn)
    → find_strategy type (s ∷ ss) ≡ some f
    → (s.plan_fn ≡ some f) ⊎ (find_strategy type ss ≡ some f)
unfolding find_strategy
find_strategy_head s ss type f e =
    elim (Bool-cases ((strategy_index s.type == strategy_index type) && is_some s.plan_fn)) [
      | inl q ↦ inl (rw q at e)
      | inr q ↦ inr (rw q at e)
    ]

get : PlanFn → Option PlanFn → PlanFn
get f none = f
get f (some g) = g

get_some : (f g : PlanFn) (o : Option PlanFn) → o ≡ some f → o ≡ some g → f ≡ g
unfolding get
get_some f g o p q = ap (get f) (sym p ∙ q)

found-IsBuiltin :
    (registry : List Strategy) (type : StrategyType) (f : PlanFn)
    → All IsBuiltin registry
    → find_strategy type registry ≡ some f
    → (f ≡ plan_independent_batch_strategy) ⊎ (f ≡ plan_sequential_pipeline_strategy)
found-IsBuiltin [] type f v e = absurd (unfold find_strategy in ground arith)
found-IsBuiltin (s ∷ ss) type f v e = elim (find_strategy_head s ss type f e) [
  | inl p ↦ elim v.0 [
    | inl n ↦ absurd (not_none (sym p ∙ n))
    | inr (inl m) ↦ inl (get_some f plan_independent_batch_strategy s.plan_fn p m)
    | inr (inr m) ↦ inr (get_some f plan_sequential_pipeline_strategy s.plan_fn p m)
  ]
  | inr q ↦ found-IsBuiltin ss type f v.1 q
]
  where
    not_none : some f ≡ none → ⊥
    not_none h = ground arith

built :
    (f : PlanFn) (wl : Workload)
    → wl.total_input_size_bytes < u64_mod
    → (f ≡ plan_independent_batch_strategy) ⊎ (f ≡ plan_sequential_pipeline_strategy)
    → ((f wl blank_plan).1 ≡ true) × IsSoundPlan (f wl blank_plan).0
built f wl h (inl e) =
    subst (λ (g : PlanFn). ((g wl blank_plan).1 ≡ true) × IsSoundPlan (g wl blank_plan).0) (sym e)
      (unfold plan_independent_batch_strategy in refl, batch-IsSoundPlan wl blank_plan h)
built f wl h (inr e) =
    subst (λ (g : PlanFn). ((g wl blank_plan).1 ≡ true) × IsSoundPlan (g wl blank_plan).0) (sym e)
      (unfold plan_sequential_pipeline_strategy in refl, pipeline-IsSoundPlan wl blank_plan h)

-- With only the two strategies of the file registered, under whatever types, a plan is made exactly for a
-- workload that is splittable and whose type has a strategy; the plan is then valid, its chunks have
-- distinct identifiers, and the check of its topology accepts it.
pub generate_chunk_graph-IsSoundPlan :
    (registry : List Strategy) (wl : Workload)
    → All IsBuiltin registry
    → wl.total_input_size_bytes < u64_mod
    → let r = generate_chunk_graph registry wl in
      ((r.1 ≡ true)
        ↔ ((wl.is_splittable ≡ true) × (is_some (find_strategy wl.strategy_type registry) ≡ true)))
      × (r.1 ≡ true → IsSoundPlan r.0)
unfolding generate_chunk_graph
generate_chunk_graph-IsSoundPlan registry wl v h = elim (Bool-cases wl.is_splittable) [
  | inr q ↦
      rw q ((λ e. absurd (ground arith), λ e. absurd (ground arith)), λ e. absurd (ground arith))
  | inl q ↦ elim (Option-cases (find_strategy wl.strategy_type registry)) [
    | inl n ↦
        rw (q, n)
          ((λ e. absurd (ground arith), λ e. absurd (ground arith)), λ e. absurd (ground arith))
    | inr (f, p) ↦
        let (made, sound) = built f wl h (found-IsBuiltin registry wl.strategy_type f v p) in
        rw (q, p) ((λ e. (refl, refl), λ e. made), λ e. sound)
  ]
]
