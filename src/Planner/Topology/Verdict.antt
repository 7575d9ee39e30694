-- ===== src/Planner/Topology/Verdict.antt =====
-- master/src/chunk_planner.c: the check accepts exactly the plans that can be ranked.
use void_os_merger.Base.{
  append_nil, append_assoc, ℕ, zero, suc, ◌≤◌, ◌<◌, ◌≡◌, ◌↔◌, refl, sym, ap, ◌∙◌, subst, inl, inr,
  true, some, List, [], ◌∷◌, ◌++◌, arith, ◌==◌, ==_iff, if◌then◌else◌, length, get_elem?, count,
  count-append, All, Bool-cases, Option-cases, length-le_of_counts,
}
use void_os_merger.Planner.{Chunk, Edge, Plan}
use void_os_merger.Planner.Topology.{verify_plan_topology_is_dag}
use void_os_merger.Planner.Topology.Counting.{into, ready_at}
use void_os_merger.Planner.Topology.Ready.{
  ids_of, IsDistinct, ids_of_once, ready_at_once, length-ready_at,
}
use void_os_merger.Planner.Topology.Fed.{IsFed, fed-IsFed, InOrder}
use void_os_merger.Planner.Topology.Drain.{drained, Inv-fits}
use void_os_merger.Planner.Topology.Decides.{
  IsRanked, Finished, chunk_ids, count-chunk_ids, chunk_ids-count, taken_counts, taken_if_ready,
  ranked_ready,
}

-- All chunks are ready if as many are, and conversely.
ready_all :
    (all done : List Edge) (j k : ℕ) (cs : List Chunk) (c : Chunk)
    → length cs ≤ length (ready_at all done j cs)
    → get_elem? cs k ≡ some c
    → into all c.chunk_id ≤ into done c.chunk_id
unfolding ready_at
ready_all all done j k [] c h e = absurd (ground arith)
ready_all all done j zero (b ∷ cs) c h e =
    let same : b ≡ c = ground arith in
    subst (λ (x : Chunk). into all x.chunk_id ≤ into done x.chunk_id) same
      (ground (arith, length-ready_at all done (suc j) cs))
ready_all all done j (suc k) (b ∷ cs) c h e =
    ready_all all done (suc j) k cs c (ground (arith, length-ready_at all done (suc j) cs)) e

all_ready :
    (all done : List Edge) (j : ℕ) (cs : List Chunk)
    → ((k : ℕ) (c : Chunk) → get_elem? cs k ≡ some c → into all c.chunk_id ≤ into done c.chunk_id)
    → length (ready_at all done j cs) ≡ length cs
unfolding ready_at
all_ready all done j [] h = refl
all_ready all done j (c ∷ cs) h =
    let rest = all_ready all done (suc j) cs (λ k b e. h (suc k) b e) in
    ground (arith, h 0 c refl, rest)

ids_of_known :
    (cs : List Chunk) (is : List ℕ) (x : ℕ)
    → 0 < count x (ids_of cs is)
    → 0 < count x (chunk_ids cs)
unfolding ids_of count
ids_of_known cs [] x h = absurd (omega arith)
ids_of_known cs (i ∷ is) x h = elim (Option-cases (get_elem? cs i)) [
  | inl e ↦ ids_of_known cs is x (ground arith)
  | inr (c, e) ↦ elim (Bool-cases (c.chunk_id == x)) [
    | inl q ↦
        subst (λ y. 0 < count y (chunk_ids cs)) ((==_iff c.chunk_id x).0 q)
          (chunk_ids-count cs i c e)
    | inr q ↦ ids_of_known cs is x (ground arith)
  ]
]

-- The place of a number in a list.
unfoldable pub place : ℕ → List ℕ → ℕ
place k [] = 0
place k (x ∷ xs) = if x == k then 0 else suc (place k xs)

-- One edge leads forwards in a list that comes after `seen`.
unfoldable pub Forwards : Edge → List ℕ → List ℕ → Type 0
Forwards e seen [] = Unit
Forwards e seen (x ∷ xs) =
    (e.dst_chunk_id ≡ x → 0 < count e.src_chunk_id seen) × Forwards e (seen ++ x ∷ []) xs

InOrder-first :
    (e : Edge) (es : List Edge) (seen xs : List ℕ) → InOrder (e ∷ es) seen xs → Forwards e seen xs
unfolding Forwards InOrder
InOrder-first e es seen [] h = tt
InOrder-first e es seen (x ∷ xs) h = (h.0.0, InOrder-first e es (seen ++ x ∷ []) xs h.1)

InOrder-rest :
    (e : Edge) (es : List Edge) (seen xs : List ℕ) → InOrder (e ∷ es) seen xs → InOrder es seen xs
unfolding InOrder
InOrder-rest e es seen [] h = tt
InOrder-rest e es seen (x ∷ xs) h = (h.0.1, InOrder-rest e es (seen ++ x ∷ []) xs h.1)

InOrder-Forwards :
    (es : List Edge) (seen xs : List ℕ) → InOrder es seen xs → All (λ e. Forwards e seen xs) es
InOrder-Forwards [] seen xs h = tt
InOrder-Forwards (e ∷ es) seen xs h =
    (InOrder-first e es seen xs h, InOrder-Forwards es seen xs (InOrder-rest e es seen xs h))

place_in : (k : ℕ) (xs ys : List ℕ) → 0 < count k xs → place k (xs ++ ys) < length xs
unfolding place count
place_in k [] ys h = absurd (omega arith)
place_in k (x ∷ xs) ys h = ground (arith, place_in k xs ys)

place_after : (k : ℕ) (xs ys : List ℕ) → count k xs ≡ 0 → length xs ≤ place k (xs ++ ys)
unfolding place count
place_after k [] ys h = omega arith
place_after k (x ∷ xs) ys h = ground (arith, place_after k xs ys)

-- Its source has an earlier place than its destination.
Forwards-place :
    (e : Edge) (seen xs : List ℕ)
    → Forwards e seen xs
    → count e.dst_chunk_id seen ≡ 0
    → 0 < count e.dst_chunk_id xs
    → place e.src_chunk_id (seen ++ xs) < place e.dst_chunk_id (seen ++ xs)
unfolding Forwards count
Forwards-place e seen [] f h k = absurd (omega arith)
Forwards-place e seen (x ∷ xs) f h k = elim (Bool-cases (x == e.dst_chunk_id)) [
  | inl q ↦ omega (
    arith,
    place_in e.src_chunk_id seen (x ∷ xs) (f.0 (sym ((==_iff x e.dst_chunk_id).0 q))),
    place_after e.dst_chunk_id seen (x ∷ xs) h,
  )
  | inr q ↦
      subst (λ l. place e.src_chunk_id l < place e.dst_chunk_id l) (append_assoc seen (x ∷ []) xs)
        (Forwards-place e (seen ++ x ∷ []) xs f.1
          (ground (arith, count-append e.dst_chunk_id seen (x ∷ []), h)) (ground arith))
]

whole_queue : (xs q : List ℕ) → q ≡ [] → xs ++ q ≡ xs
whole_queue xs q e = ap (λ l. xs ++ l) e ∙ append_nil xs

-- A run that took every chunk.
module _ (all : List Edge) (cs : List Chunk) (d : Finished all cs) where
  taken_sound :
      IsDistinct cs
      → length cs ≤ length d.taken
      → IsRanked cs all (λ k. place k (ids_of cs d.taken))
  taken_sound distinct whole = record { known = known all fed_all; rises = rises all forwards }
    where
      ready : length cs ≤ length (ready_at all d.inv.done 0 cs)
      ready = omega (
        arith,
        whole,
        length-le_of_counts d.taken (ready_at all d.inv.done 0 cs)
            (λ i. omega (arith, taken_counts all cs d i)),
      )

      once : (k : ℕ) → count k (ids_of cs d.taken) ≤ 1
      once =
          ids_of_once cs d.taken distinct
            (λ i. omega (arith, taken_counts all cs d i, ready_at_once all d.inv.done i 0 cs))

      taken_id : (id : ℕ) → 0 < count id (chunk_ids cs) → 0 < count id (ids_of cs d.taken)
      taken_id id h =
          let (k, c, at, named) = count-chunk_ids id cs h in
          subst (λ i. 0 < count i (ids_of cs d.taken)) named
            (taken_if_ready all cs d k c at (ready_all all d.inv.done 0 k cs c ready at))

      fed_all : (id : ℕ) → 0 < count id (chunk_ids cs) → IsFed all (ids_of cs d.taken) id
      fed_all id h =
          let (k, c, at, named) = count-chunk_ids id cs h in
          subst (IsFed all (ids_of cs d.taken)) named (
            fed-IsFed all (ids_of cs d.taken) c.chunk_id once (
              omega
                (arith, d.inv.taken_away c.chunk_id, ready_all all d.inv.done 0 k cs c ready at)))

      known :
          (es : List Edge)
          → ((id : ℕ) → 0 < count id (chunk_ids cs) → IsFed es (ids_of cs d.taken) id)
          → All
              (λ e.
                0 < count e.dst_chunk_id (chunk_ids cs) → 0 < count e.src_chunk_id (chunk_ids cs))
              es
      known [] h = tt
      known (e ∷ es) h = (
        λ k. ids_of_known cs d.taken e.src_chunk_id ((h e.dst_chunk_id k).0 refl),
        known es (λ id k. (h id k).1),
      )

      forwards : All (λ e. Forwards e [] (ids_of cs d.taken)) all
      forwards = InOrder-Forwards all [] (ids_of cs d.taken) (
          subst (λ q. InOrder all [] (ids_of cs q)) (whole_queue d.taken _ (d.empty (omega arith)))
            (d.inv.ordered distinct))

      rises :
          (es : List Edge)
          → All (λ e. Forwards e [] (ids_of cs d.taken)) es
          → All
              (λ e.
                0 < count e.dst_chunk_id (chunk_ids cs)
                → place e.src_chunk_id (ids_of cs d.taken)
                  < place e.dst_chunk_id (ids_of cs d.taken))
              es
      rises [] h = tt
      rises (e ∷ es) h = (
        λ k.
            Forwards-place e [] (ids_of cs d.taken) h.0 (unfold count in refl)
              (taken_id e.dst_chunk_id k),
        rises es h.1,
      )

-- A run that takes every chunk is one of a plan that can be ranked, and conversely.
ranked_whole :
    (all : List Edge) (cs : List Chunk) (d : Finished all cs) (rank : ℕ → ℕ)
    → IsRanked cs all rank
    → length d.taken ≡ length cs
ranked_whole all cs d rank r = omega (
  arith,
  Inv-fits all cs d.taken _ d.inv,
  all_ready all d.inv.done 0 cs
      (λ k c at. ranked_ready all cs d rank r (suc (rank c.chunk_id)) k c at (omega arith)),
  length-le_of_counts (ready_at all d.inv.done 0 cs) d.taken
      (λ i. omega (arith, taken_counts all cs d i)),
)

-- A ranked plan is accepted, also where identifiers are repeated.
pub ranked-verify :
    (plan : Plan) (rank : ℕ → ℕ)
    → plan.is_valid ≡ true
    → 0 < length plan.chunks
    → IsRanked plan.chunks plan.edges rank
    → verify_plan_topology_is_dag plan ≡ true
unfolding verify_plan_topology_is_dag
ranked-verify plan rank valid some_chunk r =
    let d = drained (length plan.chunks) plan.edges plan.chunks in
    ground (arith, d.inv.counted, ranked_whole plan.edges plan.chunks d rank r)

-- Of the plans whose chunks have distinct identifiers the check accepts exactly those that are valid, have
-- a chunk, and can be ranked: each edge into a chunk comes from a chunk of the plan, of a lower rank.
pub verify_plan_topology_is_dag-IsRanked :
    (plan : Plan)
    → IsDistinct plan.chunks
    → (verify_plan_topology_is_dag plan ≡ true) ↔ (
        (plan.is_valid ≡ true)
        × (0 < length plan.chunks)
        × ((rank : ℕ → ℕ) × IsRanked plan.chunks plan.edges rank))
unfolding verify_plan_topology_is_dag
verify_plan_topology_is_dag-IsRanked plan distinct =
    let d = drained (length plan.chunks) plan.edges plan.chunks in
    (
      λ h. (
        ground arith,
        ground arith,
        (
          λ k. place k (ids_of plan.chunks d.taken),
          taken_sound plan.edges plan.chunks d distinct (ground (arith, d.inv.counted)),
        ),
      ),
      λ (valid, some_chunk, (rank, r)). ranked-verify plan rank valid some_chunk r,
    )
