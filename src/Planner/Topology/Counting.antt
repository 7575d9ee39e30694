-- ===== src/Planner/Topology/Counting.antt =====
-- master/src/chunk_planner.c: the degrees and the queue of the check, as counts of edges.
use void_os_merger.Base.{
  ℕ, suc, ◌+◌, ◌≡◌, refl, ap, ◌∙◌, List, [], ◌∷◌, arith, leb, ◌==◌, if◌then◌else◌, length,
  replicate, count, ℤ, pos, incr, decr, sub_ℕ,
}
use void_os_merger.Planner.{Chunk, Edge}
use void_os_merger.Planner.Topology.{count_in, in_degrees, zero_indices, relax}

-- How many of the edges lead to the identifier.
unfoldable pub into : List Edge → ℕ → ℕ
into [] id = 0
into (e ∷ es) id = if e.dst_chunk_id == id then suc (into es id) else into es id

-- The indices from j on of the chunks into which at least as many edges of `done` lead as of `all`.
unfoldable pub ready_at : List Edge → List Edge → ℕ → List Chunk → List ℕ
ready_at all done j [] = []
ready_at all done j (c ∷ cs) =
    let rest = ready_at all done (suc j) cs in
    if leb (into all c.chunk_id) (into done c.chunk_id) then j ∷ rest else rest

-- A number for each chunk, by its identifier.
unfoldable pub table : (ℕ → ℤ) → List Chunk → List ℤ
table f [] = []
table f (c ∷ cs) = f c.chunk_id ∷ table f cs

table_ext : (f g : ℕ → ℤ) → ((id : ℕ) → f id ≡ g id) → (cs : List Chunk) → table f cs ≡ table g cs
unfolding table
table_ext f g h [] = refl
table_ext f g h (c ∷ cs) = cong2 (h c.chunk_id) (table_ext f g h cs)
  where
    cong2 : {a b : ℤ} {as' bs : List ℤ} → a ≡ b → as' ≡ bs → a ∷ as' ≡ b ∷ bs
    cong2 e e' = rw (e, e') refl

-- The degrees when the edges of `done` have been taken away.
abbrev pub open_degree : List Edge → List Edge → ℕ → ℤ
open_degree all done id = sub_ℕ (into all id) (into done id)

count_in-table :
    (f g : ℕ → ℤ) (dest : ℕ)
    → ((id : ℕ) → (if id == dest then incr (f id) else f id) ≡ g id)
    → (cs : List Chunk) → count_in dest cs (table f cs) ≡ table g cs
unfolding count_in table
count_in-table f g dest h [] = refl
count_in-table f g dest h (c ∷ cs) = ground (arith, h c.chunk_id, count_in-table f g dest h cs)

in_degrees-table :
    (es acc : List Edge) (cs : List Chunk)
    → in_degrees es cs (table (λ id. pos (into acc id)) cs)
      ≡ table (λ id. pos (into es id + into acc id)) cs
unfolding in_degrees into
in_degrees-table [] acc cs = table_ext _ _ (λ id. ground arith) cs
in_degrees-table (e ∷ es) acc cs =
    ap (in_degrees es cs) (
      count_in-table (λ id. pos (into acc id)) (λ id. pos (into (e ∷ acc) id)) e.dst_chunk_id
        (λ id. ground arith) cs)
    ∙ in_degrees-table es (e ∷ acc) cs
    ∙ table_ext _ _ (λ id. ground arith) cs

replicate-table : (cs : List Chunk) → replicate (length cs) (pos 0) ≡ table (λ id. pos 0) cs
unfolding table
replicate-table [] = refl
replicate-table (c ∷ cs) = ap (◌∷◌ (pos 0)) (replicate-table cs)

-- The degrees at the start.
pub in_degrees-open :
    (es : List Edge) (cs : List Chunk)
    → in_degrees es cs (replicate (length cs) (pos 0)) ≡ table (open_degree es []) cs
unfolding into
in_degrees-open es cs =
    ap (in_degrees es cs) (replicate-table cs)
    ∙ in_degrees-table es [] cs
    ∙ table_ext _ _ (λ id. ground arith) cs

-- The indices without open edges are put into the queue at the start.
pub zero_indices-ready :
    (es : List Edge) (j : ℕ) (cs : List Chunk)
    → zero_indices j (table (open_degree es []) cs) ≡ ready_at es [] j cs
unfolding zero_indices table ready_at into
zero_indices-ready es j [] = refl
zero_indices-ready es j (c ∷ cs) = ground (arith, zero_indices-ready es (suc j) cs)

decr-sub : (a b : ℕ) → decr (sub_ℕ a b) ≡ sub_ℕ a (suc b)
decr-sub a b = ground arith

-- Taking one edge more lowers the degrees of the chunks that it leads to, ...
pub relax-open :
    (all done : List Edge) (e : Edge) (j : ℕ) (cs : List Chunk)
    → (relax e.dst_chunk_id j cs (table (open_degree all done) cs)).0
      ≡ table (open_degree all (e ∷ done)) cs
unfolding relax table into
relax-open all done e j [] = refl
relax-open all done e j (c ∷ cs) =
    ground (
      arith,
      relax-open all done e (suc j) cs,
      decr-sub (into all c.chunk_id) (into done c.chunk_id),
    )

-- ... and puts those into the queue that are ready with it and were not before.
pub relax-ready :
    (all done : List Edge) (e : Edge) (j i : ℕ) (cs : List Chunk)
    → count i (relax e.dst_chunk_id j cs (table (open_degree all done) cs)).1
        + count i (ready_at all done j cs)
      ≡ count i (ready_at all (e ∷ done) j cs)
unfolding relax table into ready_at count
relax-ready all done e j i [] = refl
relax-ready all done e j i (c ∷ cs) = ground (
  arith,
  relax-ready all done e (suc j) i cs,
  decr-sub (into all c.chunk_id) (into done c.chunk_id),
)
