-- ===== src/Workload/Ready.antt =====
-- master/src/workload.c: `evaluate_ready_chunks` makes ready exactly the pending chunks whose parents
-- are completed, in any order of the chunks.
use mathlib.Core.Path.{fun_ext}
use void_os_merger.Base.{
  Both, Both-map, ℕ, zero, suc, ◌+◌, ◌≤◌, ◌≡◌, ◌↔◌, refl, sym, ap, ◌∙◌, true, some, List, [], ◌∷◌,
  arith, map, length, modify, find_first, Option-cases, Bool-cases, inl, inr, ℕ_discrete, ◌≢◌,
  subst,
}
use void_os_merger.Workload.{
  Chunk, Edge, Job, pending, ready, completed, is_completed, is_pending, has_chunk_id,
  parent_completed, parents_completed, make_ready, ready_loop, evaluate_ready_chunks,
}

-- The same ids, completed in the same places.
abbrev SameDone : List Chunk → List Chunk → Type 0
SameDone [] [] = Unit
SameDone (c ∷ cs) (d ∷ ds) =
    (c.chunk_id ≡ d.chunk_id) × (is_completed c.state ≡ is_completed d.state) × SameDone cs ds
SameDone _ _ = ⊥

SameDone-refl : (cs : List Chunk) → SameDone cs cs
SameDone-refl [] = tt
SameDone-refl (c ∷ cs) = (refl, refl, SameDone-refl cs)

parent_completed-same :
    (cs ds : List Chunk) (e : Edge) → SameDone cs ds → parent_completed cs e ≡ parent_completed ds e
unfolding parent_completed find_first
parent_completed-same [] [] e h = refl
parent_completed-same (c ∷ cs) (d ∷ ds) e h =
    ground (arith, h.0, h.1, parent_completed-same cs ds e h.2)
parent_completed-same [] (d ∷ ds) e h = absurd h
parent_completed-same (c ∷ cs) [] e h = absurd h

parents_completed-same :
    (cs ds : List Chunk) (es : List Edge) (id : ℕ)
    → SameDone cs ds
    → parents_completed cs es id ≡ parents_completed ds es id
unfolding parents_completed
parents_completed-same cs ds [] id h = refl
parents_completed-same cs ds (e ∷ es) id h =
    rw (parent_completed-same cs ds e h, parents_completed-same cs ds es id h)

make_ready-same :
    (es : List Edge) (cs ds : List Chunk) → SameDone cs ds → make_ready es cs ≡ make_ready es ds
unfolding make_ready
make_ready-same es cs ds h = fun_ext λ c. rw (parents_completed-same cs ds es c.chunk_id h)

SameDone-modify :
    (es : List Edge) (all : List Chunk) (i : ℕ) (cs ds : List Chunk)
    → SameDone cs ds
    → SameDone (modify (make_ready es all) i cs) ds
unfolding modify make_ready
SameDone-modify es all i [] [] h = h
SameDone-modify es all zero (c ∷ cs) (d ∷ ds) h = (ground arith, ground arith, h.2)
SameDone-modify es all (suc i) (c ∷ cs) (d ∷ ds) h = (h.0, h.1, SameDone-modify es all i cs ds h.2)
SameDone-modify es all i [] (d ∷ ds) h = absurd h
SameDone-modify es all i (c ∷ cs) [] h = absurd h

-- A function at the indices from i on.
map_from : (Chunk → Chunk) → ℕ → List Chunk → List Chunk
map_from f i [] = []
map_from f zero (c ∷ cs) = f c ∷ map_from f zero cs
map_from f (suc i) (c ∷ cs) = c ∷ map_from f i cs

map_from_end : (f : Chunk → Chunk) (i : ℕ) (cs : List Chunk) → length cs ≤ i → map_from f i cs ≡ cs
unfolding map_from
map_from_end f i [] h = refl
map_from_end f zero (c ∷ cs) h = absurd (omega arith)
map_from_end f (suc i) (c ∷ cs) h = ap (◌∷◌ c) (map_from_end f i cs (omega arith))

map_from-modify :
    (f : Chunk → Chunk) (i : ℕ) (cs : List Chunk)
    → map_from f (suc i) (modify f i cs) ≡ map_from f i cs
unfolding map_from modify
map_from-modify f i [] = refl
map_from-modify f zero (c ∷ cs) = refl
map_from-modify f (suc i) (c ∷ cs) = ap (◌∷◌ c) (map_from-modify f i cs)

map_from_zero : (f : Chunk → Chunk) (cs : List Chunk) → map_from f 0 cs ≡ map f cs
unfolding map_from
map_from_zero f [] = refl
map_from_zero f (c ∷ cs) = ap (◌∷◌ (f c)) (map_from_zero f cs)

length-modify_ready :
    (f : Chunk → Chunk) (i : ℕ) (cs : List Chunk) → length (modify f i cs) ≡ length cs
unfolding modify
length-modify_ready f i [] = refl
length-modify_ready f zero (c ∷ cs) = refl
length-modify_ready f (suc i) (c ∷ cs) = ap suc (length-modify_ready f i cs)

ready_loop_all :
    (es : List Edge) (all : List Chunk) (n i : ℕ) (cs : List Chunk)
    → SameDone cs all
    → length cs ≡ i + n
    → ready_loop es n i cs ≡ map_from (make_ready es all) i cs
unfolding ready_loop
ready_loop_all es all zero i cs h e = sym (map_from_end (make_ready es all) i cs (omega arith))
ready_loop_all es all (suc n) i cs h e = rw (make_ready-same es cs all h) (
    ready_loop_all es all n (suc i) (modify (make_ready es all) i cs)
      (SameDone-modify es all i cs all h)
      (omega (arith, length-modify_ready (make_ready es all) i cs))
    ∙ map_from-modify (make_ready es all) i cs)

-- The loop changes the chunks as it reads them; the result is the one of reading them all first.
pub evaluate_ready_chunks-map :
    (job : Job)
    → (evaluate_ready_chunks job).chunks ≡ map (make_ready job.edges job.chunks) job.chunks
unfolding evaluate_ready_chunks
evaluate_ready_chunks-map job =
    ready_loop_all job.edges job.chunks (length job.chunks) 0 job.chunks (SameDone-refl job.chunks)
      (omega arith)
    ∙ map_from_zero (make_ready job.edges job.chunks) job.chunks

-- Every edge to the id comes from a completed chunk, or from none of the list.
abbrev pub ParentsDone : List Chunk → ℕ → List Edge → Type 0
ParentsDone cs id [] = Unit
ParentsDone cs id (e ∷ es) =
    (e.dst_chunk_id ≡ id
      → (p : Chunk) → find_first (has_chunk_id e.src_chunk_id) cs ≡ some p
      → p.state ≡ completed)
    × ParentsDone cs id es

parent_completed_iff :
    (cs : List Chunk) (e : Edge)
    → (parent_completed cs e ≡ true)
      ↔ ((p : Chunk) → find_first (has_chunk_id e.src_chunk_id) cs ≡ some p → p.state ≡ completed)
unfolding parent_completed
parent_completed_iff cs e = elim (Option-cases (find_first (has_chunk_id e.src_chunk_id) cs)) [
  | inl absent ↦ (λ h p found. absurd (ground arith), λ h. rw (absent, parent_completed))
  | inr (q, found) ↦ (λ h p found'. ground arith, λ h. let done = h q found in ground arith)
]

parents_completed-ParentsDone :
    (cs : List Chunk) (es : List Edge) (id : ℕ)
    → (parents_completed cs es id ≡ true) ↔ ParentsDone cs id es
unfolding parents_completed
parents_completed-ParentsDone cs [] id = (λ _. tt, λ _. refl)
parents_completed-ParentsDone cs (e ∷ es) id =
    let rest = parents_completed-ParentsDone cs es id in
    let parent = parent_completed_iff cs e in
    (
      λ h. (λ d. parent.0 (ground arith), rest.0 (ground arith)),
      λ k. elim (ℕ_discrete e.dst_chunk_id id) [
        | yes d ↦ ground (arith, parent.1 (k.0 d), rest.1 k.1)
        | no d ↦ ground (arith, rest.1 k.1)
      ],
    )

-- What becomes of one chunk: a pending one whose parents are all completed becomes ready, and any
-- other chunk stays as it is.
pub data Evaluated (job : Job) (c d : Chunk) : Type 0 where
  readied :
      c.state ≡ pending
      → ParentsDone job.chunks c.chunk_id job.edges
      → d ≡ record c { state = ready }
      → Evaluated job c d
  waits :
      c.state ≡ pending → ¬ ParentsDone job.chunks c.chunk_id job.edges → d ≡ c → Evaluated job c d
  settled : c.state ≢ pending → d ≡ c → Evaluated job c d

make_ready-Evaluated : (job : Job) (c : Chunk) → Evaluated job c (make_ready job.edges job.chunks c)
unfolding make_ready
make_ready-Evaluated job c =
    let parents = parents_completed-ParentsDone job.chunks job.edges c.chunk_id in
    elim (Bool-cases (is_pending c.state)) [
      | inr old ↦ settled (ground arith) (ground arith)
      | inl new ↦ elim (Bool-cases (parents_completed job.chunks job.edges c.chunk_id)) [
        | inl done ↦ readied (ground arith) (parents.0 done) (ground arith)
        | inr wait ↦ waits (ground arith) (λ k. ground (arith, parents.1 k)) (ground arith)
      ]
    ]

-- After `evaluate_ready_chunks` the chunks are the same, in their places, but that every pending chunk
-- whose parents were all completed is ready; no other chunk changes.
pub evaluate_ready_chunks-Evaluated :
    (job : Job) → Both (Evaluated job) job.chunks (evaluate_ready_chunks job).chunks
evaluate_ready_chunks-Evaluated job =
    subst (Both (Evaluated job) job.chunks) (sym (evaluate_ready_chunks-map job)) (
      Both-map (Evaluated job) (make_ready job.edges job.chunks) (make_ready-Evaluated job)
        job.chunks)
