-- ===== src/Planner/Topology.antt =====
-- master/src/chunk_planner.c: `verify_plan_topology_is_dag`, which takes away the chunks without open
-- predecessors, one after the other, and compares their number with that of all chunks.
-- `Counting` and `Ready` are about the in-degrees and the chunks without open predecessors, `Fed` and
-- `Rounds` about what holds between the rounds, `Drain` about the end of the loop, `Decides` and `Verdict`
-- about what the check decides.
pub mod Counting
pub mod Ready
pub mod Fed
pub mod Rounds
pub mod Drain
pub mod Decides
pub mod Verdict
use void_os_merger.Base.{
  ℕ, zero, suc, Bool, true, false, not, ◌||◌, Option, none, some, List, [], ◌∷◌, ◌++◌, ◌==◌,
  if◌then◌else◌, length, get_elem?, replicate, ℤ, pos, negsuc, incr, decr,
}
use void_os_merger.Planner.{Chunk, Edge, Plan}

-- `in_degree[j]++` for each chunk with the identifier.
unfoldable pub count_in : ℕ → List Chunk → List ℤ → List ℤ
count_in dest (c ∷ cs) (d ∷ ds) = (if c.chunk_id == dest then incr d else d) ∷ count_in dest cs ds
count_in dest _ _ = []

unfoldable pub in_degrees : List Edge → List Chunk → List ℤ → List ℤ
in_degrees [] cs ds = ds
in_degrees (e ∷ es) cs ds = in_degrees es cs (count_in e.dst_chunk_id cs ds)

abbrev pub is_zero : ℤ → Bool
is_zero (pos zero) = true
is_zero (pos (suc n)) = false
is_zero (negsuc n) = false

-- The indices from j on whose degree is 0.
unfoldable pub zero_indices : ℕ → List ℤ → List ℕ
zero_indices j [] = []
zero_indices j (d ∷ ds) = let rest = zero_indices (suc j) ds in if is_zero d then j ∷ rest else rest

-- `queue` is `processing_queue[head .. tail)`, and `processed` counts along with `head`: the tail is
-- `processed + length queue`.
pub record Search : Type 0 where
  pub degrees : List ℤ
  pub queue : List ℕ
  pub processed : ℕ

unfoldable pub start : List Edge → List Chunk → Search
start es cs =
    let degrees = in_degrees es cs (replicate (length cs) (pos 0)) in
    record { degrees = degrees; queue = zero_indices 0 degrees; processed = 0 }

-- `in_degree[j]--` for each chunk with the identifier, from index j on, and the indices it puts into
-- the queue.
unfoldable pub relax : ℕ → ℕ → List Chunk → List ℤ → List ℤ × List ℕ
relax neighbor j (c ∷ cs) (d ∷ ds) =
    let rest = relax neighbor (suc j) cs ds in
    if c.chunk_id == neighbor
    then (decr d ∷ rest.0, if is_zero (decr d) then j ∷ rest.1 else rest.1)
    else (d ∷ rest.0, rest.1)
relax neighbor j _ _ = ([], [])

-- The edges out of the chunk that was taken.
unfoldable pub visit : ℕ → List Edge → List Chunk → Search → Search
visit current [] cs s = s
visit current (e ∷ es) cs s =
    let r = relax e.dst_chunk_id 0 cs s.degrees in
    visit current es cs
      (if e.src_chunk_id == current then record s { degrees = r.0; queue = s.queue ++ r.1 } else s)

-- One round, for the index at the head of the queue, which is that of a chunk.
unfoldable pub round : List Edge → List Chunk → ℕ → List ℕ → Search → Search
round es cs i rest s = elim (get_elem? cs i) [
  | none ↦ record s { queue = rest; processed = suc s.processed }
  | some c ↦ visit c.chunk_id es cs (record s { queue = rest; processed = suc s.processed })
]

-- The loop. No index is ever put into the queue twice, so as many rounds as chunks are enough.
unfoldable pub drain : ℕ → List Edge → List Chunk → Search → Search
drain zero es cs s = s
drain (suc n) es cs s = elim s.queue [ [] ↦ s | i ∷ rest ↦ drain n es cs (round es cs i rest s) ]

unfoldable pub verify_plan_topology_is_dag : Plan → Bool
verify_plan_topology_is_dag plan =
    let n = length plan.chunks in
    let found = drain n plan.edges plan.chunks (start plan.edges plan.chunks) in
    if not plan.is_valid || (n == 0) then false else found.processed == n
