-- ===== src/Planner/Topology/Decides.antt =====
-- master/src/chunk_planner.c: what the check decides.
use void_os_merger.Base.{
  ℕ, zero, suc, ◌≤◌, ◌<◌, ◌≡◌, refl, ap, ◌∙◌, subst, inl, inr, some, List, [], ◌∷◌, map, arith,
  ◌==◌, ==_iff, length, get_elem?, count, count-append, All, Bool-cases,
}
use void_os_merger.Planner.{Chunk, Edge}
use void_os_merger.Planner.Topology.{start, drain}
use void_os_merger.Planner.Topology.Counting.{into, ready_at}
use void_os_merger.Planner.Topology.Ready.{ids_of, count-ids_of, ready_at-has}
use void_os_merger.Planner.Topology.Fed.{IsFed, into_le_fed}
use void_os_merger.Planner.Topology.Drain.{Drained}

abbrev pub chunk_ids : List Chunk → List ℕ
chunk_ids cs = map (λ c. c.chunk_id) cs

-- Each edge into a chunk of the plan comes from a chunk of the plan, and the chunks have ranks that rise
-- along these edges: so they form no cycle.
pub record IsRanked (cs : List Chunk) (es : List Edge) (rank : ℕ → ℕ) : Type 0 where
  pub known :
      All
        (λ e. 0 < count e.dst_chunk_id (chunk_ids cs) → 0 < count e.src_chunk_id (chunk_ids cs))
        es
  pub rises :
      All
        (λ e. 0 < count e.dst_chunk_id (chunk_ids cs) → rank e.src_chunk_id < rank e.dst_chunk_id)
        es

-- First the converse direction: ranked plans are taken whole.
pub count-chunk_ids :
    (id : ℕ) (cs : List Chunk)
    → 0 < count id (chunk_ids cs)
    → (k : ℕ) × (c : Chunk) × (get_elem? cs k ≡ some c) × (c.chunk_id ≡ id)
unfolding count
count-chunk_ids id [] h = absurd (omega arith)
count-chunk_ids id (c ∷ cs) h = elim (Bool-cases (c.chunk_id == id)) [
  | inl e ↦ (0, c, refl, (==_iff c.chunk_id id).0 e)
  | inr e ↦ let (k, d, p, q) = count-chunk_ids id cs (ground arith) in (suc k, d, p, q)
]

pub chunk_ids-count :
    (cs : List Chunk) (k : ℕ) (c : Chunk)
    → get_elem? cs k ≡ some c
    → 0 < count c.chunk_id (chunk_ids cs)
unfolding count
chunk_ids-count [] k c e = absurd (ground arith)
chunk_ids-count (d ∷ cs) zero c e = let same : d ≡ c = ground arith in rw same (ground arith)
chunk_ids-count (d ∷ cs) (suc k) c e = ground (arith, chunk_ids-count cs k c e)

-- The source of an edge into a chunk is taken, if chunks of a lower rank are.
IsFed-by_lower :
    (cs : List Chunk) (rank : ℕ → ℕ) (taken : List ℕ) (n id : ℕ)
    → ((j : ℕ) (b : Chunk)
        → get_elem? cs j ≡ some b
        → rank b.chunk_id < n
        → 0 < count b.chunk_id taken)
    → 0 < count id (chunk_ids cs)
    → rank id ≤ n
    → (es : List Edge) → IsRanked cs es rank
    → IsFed es taken id
IsFed-by_lower cs rank taken n id lower listed h [] r = tt
IsFed-by_lower cs rank taken n id lower listed h (e ∷ es) r = (
  λ same.
      let dst_listed : 0 < count e.dst_chunk_id (chunk_ids cs) = rw same listed in
      let (j, b, found, named) = count-chunk_ids e.src_chunk_id cs (r.known.0 dst_listed) in
      let low : rank b.chunk_id < n =
        omega (arith, r.rises.0 dst_listed, ap rank named, ap rank same) in
      subst (λ i. 0 < count i taken) named (lower j b found low),
  IsFed-by_lower cs rank taken n id lower listed h es
      (record { known = r.known.1; rises = r.rises.1 }),
)

-- The whole run of the loop.
abbrev pub Finished : List Edge → List Chunk → Type 0
Finished all cs = Drained all cs (length cs) (drain (length cs) all cs (start all cs))

pub taken_counts :
    (all : List Edge) (cs : List Chunk) (d : Finished all cs) (i : ℕ)
    → count i d.taken ≡ count i (ready_at all d.inv.done 0 cs)
taken_counts all cs d i = omega (
  arith,
  d.inv.opened.queued i,
  count-append i d.taken (drain (length cs) all cs (start all cs)).queue,
  ap (count i) (d.empty (omega arith)) ∙ count_nil,
)
  where
    count_nil : count i [] ≡ 0
    count_nil = unfold count in refl

-- A chunk whose edges are all taken away has been taken.
pub taken_if_ready :
    (all : List Edge) (cs : List Chunk) (d : Finished all cs) (k : ℕ) (c : Chunk)
    → get_elem? cs k ≡ some c
    → into all c.chunk_id ≤ into d.inv.done c.chunk_id
    → 0 < count c.chunk_id (ids_of cs d.taken)
taken_if_ready all cs d k c at h =
    let has : 0 < count k (ready_at all d.inv.done 0 cs) =
      subst (λ i. 0 < count i (ready_at all d.inv.done 0 cs)) (omega arith)
        (ready_at-has all d.inv.done k 0 cs c at h) in
    count-ids_of cs d.taken k c at (omega (arith, has, taken_counts all cs d k))

-- In a ranked plan every chunk is ready in the end, by induction on a bound for its rank.
pub ranked_ready :
    (all : List Edge) (cs : List Chunk) (d : Finished all cs) (rank : ℕ → ℕ)
    → IsRanked cs all rank
    → (n k : ℕ) (c : Chunk) → get_elem? cs k ≡ some c
    → rank c.chunk_id < n
    → into all c.chunk_id ≤ into d.inv.done c.chunk_id
ranked_ready all cs d rank r zero k c at h = absurd (omega arith)
ranked_ready all cs d rank r (suc n) k c at h = omega (
  arith,
  d.inv.taken_away c.chunk_id,
  into_le_fed all (ids_of cs d.taken) c.chunk_id (
      IsFed-by_lower cs rank (ids_of cs d.taken) n c.chunk_id
        (λ j b found low.
          taken_if_ready all cs d j b found (ranked_ready all cs d rank r n j b found low))
        (chunk_ids-count cs k c at) (omega arith) all r),
)
