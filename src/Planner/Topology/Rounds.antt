-- ===== src/Planner/Topology/Rounds.antt =====
-- master/src/chunk_planner.c: what holds of the degrees and of the queue after each round.
use void_os_merger.Base.{
  append_nil, append_assoc, ℕ, suc, ◌≤◌, ◌<◌, ◌≡◌, refl, sym, ap, ◌∙◌, subst, true, false, some,
  List, [], ◌∷◌, ◌++◌, arith, ◌==◌, length, get_elem?, count, count-append, Bool-cases, inl, inr,
  All, length-append,
}
use void_os_merger.Planner.{Chunk, Edge}
use void_os_merger.Planner.Topology.{Search, start, relax, visit, round, zero_indices}
use void_os_merger.Planner.Topology.Counting.{
  into, ready_at, table, open_degree, in_degrees-open, zero_indices-ready, relax-open, relax-ready,
}
use void_os_merger.Planner.Topology.Ready.{
  ids_of, ids_of-append, ids_of_one, IsDistinct, ids_of_once, ready_at-some, ready_at_once,
}
use void_os_merger.Planner.Topology.Fed.{
  leave, fed, fed_none, into-leave, fed-append, IsFed, fed-IsFed, IsFed-append, InOrder,
  InOrder-append, All-InOrder,
}

-- The degrees are those without the edges of `done`, and the indices taken and waiting are those ready.
pub record IsOpen (all done : List Edge) (cs : List Chunk) (taken : List ℕ) (s : Search)
    : Type 0 where
  pub degrees : s.degrees ≡ table (open_degree all done) cs
  pub queued : (i : ℕ) → count i (taken ++ s.queue) ≡ count i (ready_at all done 0 cs)

relaxed-IsOpen :
    (all done : List Edge) (cs : List Chunk) (taken : List ℕ) (e : Edge) (s : Search)
    → IsOpen all done cs taken s
    → let r = relax e.dst_chunk_id 0 cs s.degrees in
      IsOpen all (e ∷ done) cs taken (record s { degrees = r.0; queue = s.queue ++ r.1 })
relaxed-IsOpen all done cs taken e s v = record {
  degrees = rw v.degrees (relax-open all done e 0 cs);
  queued = λ i. rw v.degrees (
      omega (
        arith,
        count-append i taken
            (s.queue ++ (relax e.dst_chunk_id 0 cs (table (open_degree all done) cs)).1),
        count-append i s.queue (relax e.dst_chunk_id 0 cs (table (open_degree all done) cs)).1,
        count-append i taken s.queue,
        v.queued i,
        relax-ready all done e 0 i cs,
      ));
}

visit-IsOpen :
    (all done : List Edge) (cs : List Chunk) (taken : List ℕ) (current : ℕ) (es : List Edge)
    (s : Search)
    → IsOpen all done cs taken s
    → IsOpen all (leave current es done) cs taken (visit current es cs s)
unfolding leave visit
visit-IsOpen all done cs taken current [] s v = v
visit-IsOpen all done cs taken current (e ∷ es) s v =
    elim (Bool-cases (e.src_chunk_id == current)) [
      | inl q ↦ rw q (
          visit-IsOpen all (e ∷ done) cs taken current es _
            (relaxed-IsOpen all done cs taken e s v))
      | inr q ↦ rw q (visit-IsOpen all done cs taken current es s v)
    ]

-- A visit only adds to the queue.
abbrev Extends : Search → Search → Type 0
Extends s t = ((more : List ℕ) × (t.queue ≡ s.queue ++ more)) × (t.processed ≡ s.processed)

visit-Extends :
    (current : ℕ) (es : List Edge) (cs : List Chunk) (s : Search)
    → Extends s (visit current es cs s)
visit-Extends current [] cs s = unfold visit in (([], sym (append_nil s.queue)), refl)
visit-Extends current (e ∷ es) cs s =
    let r = relax e.dst_chunk_id 0 cs s.degrees in
    let t = record s { degrees = r.0; queue = s.queue ++ r.1 } in
    elim (Bool-cases (e.src_chunk_id == current)) [
      | inl q ↦
          let ((more, p), k) = visit-Extends current es cs t in
          subst (Extends s) (sym (taken_edge q))
            ((r.1 ++ more, p ∙ append_assoc s.queue r.1 more), k)
      | inr q ↦ subst (Extends s) (sym (other_edge q)) (visit-Extends current es cs s)
    ]
  where
    taken_edge :
        (e.src_chunk_id == current) ≡ true
        → visit current (e ∷ es) cs s
          ≡ visit current es cs (record s {
            degrees = (relax e.dst_chunk_id 0 cs s.degrees).0;
            queue = s.queue ++ (relax e.dst_chunk_id 0 cs s.degrees).1;
          })
    taken_edge q = unfold visit in rw q refl

    other_edge :
        (e.src_chunk_id == current) ≡ false → visit current (e ∷ es) cs s ≡ visit current es cs s
    other_edge q = unfold visit in rw q refl

-- The edges taken away are those out of the chunks taken, and each chunk in the queue comes after all
-- of its predecessors.
pub record Inv (all : List Edge) (cs : List Chunk) (taken : List ℕ) (s : Search) : Type 0 where
  pub done : List Edge
  pub opened : IsOpen all done cs taken s
  pub taken_away : (id : ℕ) → into done id ≡ fed all (ids_of cs taken) id
  pub counted : s.processed ≡ length taken
  pub ordered : IsDistinct cs → InOrder all [] (ids_of cs (taken ++ s.queue))

-- The identifiers of ready indices are fed by what is taken.
ready-IsFed :
    (all done : List Edge) (cs : List Chunk) (taken : List ℕ)
    → ((k : ℕ) → count k (ids_of cs taken) ≤ 1)
    → ((id : ℕ) → into done id ≡ fed all (ids_of cs taken) id)
    → (js : List ℕ) → ((i : ℕ) → count i js ≤ count i (ready_at all done 0 cs))
    → All (IsFed all (ids_of cs taken)) (ids_of cs js)
unfolding count
ready-IsFed all done cs taken once away [] h = unfold ids_of in tt
ready-IsFed all done cs taken once away (j ∷ js) h =
    let (k, c, p, q, r) = ready_at-some all done j 0 cs (ground (arith, h j)) in
    let at : get_elem? cs j ≡ some c = subst (λ n. get_elem? cs n ≡ some c) (omega arith) q in
    let first =
      fed-IsFed all (ids_of cs taken) c.chunk_id once (omega (arith, r, away c.chunk_id)) in
    subst (All (IsFed all (ids_of cs taken)))
      (sym (ids_of-append cs (j ∷ []) js ∙ ap (λ xs. xs ++ ids_of cs js) (ids_of_one cs j c at)))
      (first, ready-IsFed all done cs taken once away js (λ i. ground (arith, h i)))

IsFed-All_append :
    (all : List Edge) (xs ys zs : List ℕ) → All (IsFed all xs) zs → All (IsFed all (xs ++ ys)) zs
IsFed-All_append all xs ys [] h = tt
IsFed-All_append all xs ys (z ∷ zs) h =
    (IsFed-append all xs ys z h.0, IsFed-All_append all xs ys zs h.1)

-- What is put into the queue in a round comes after all of its predecessors.
extended-InOrder :
    (all done : List Edge) (cs : List Chunk) (taken rest more : List ℕ)
    → IsDistinct cs
    → InOrder all [] (ids_of cs (taken ++ rest))
    → ((id : ℕ) → into done id ≡ fed all (ids_of cs taken) id)
    → ((i : ℕ) → count i (taken ++ (rest ++ more)) ≡ count i (ready_at all done 0 cs))
    → InOrder all [] (ids_of cs (taken ++ (rest ++ more)))
extended-InOrder all done cs taken rest more d ordered away q =
    let once : (k : ℕ) → count k (ids_of cs taken) ≤ 1 = ids_of_once cs taken d (λ i.
      omega (arith, q i, count-append i taken (rest ++ more), ready_at_once all done i 0 cs)) in
    let fresh : All (IsFed all (ids_of cs taken)) (ids_of cs more) =
      ready-IsFed all done cs taken once away more
        (λ i. omega (arith, q i, count-append i taken (rest ++ more), count-append i rest more)) in
    let split : ids_of cs (taken ++ (rest ++ more)) ≡ ids_of cs (taken ++ rest) ++ ids_of cs more =
      ap (ids_of cs) (sym (append_assoc taken rest more)) ∙ ids_of-append cs (taken ++ rest) more in
    let seen : All (IsFed all (ids_of cs (taken ++ rest))) (ids_of cs more) =
      subst (λ xs. All (IsFed all xs) (ids_of cs more)) (sym (ids_of-append cs taken rest))
        (IsFed-All_append all (ids_of cs taken) (ids_of cs rest) (ids_of cs more) fresh) in
    subst (InOrder all []) (sym split) (
      InOrder-append all [] (ids_of cs (taken ++ rest)) (ids_of cs more) ordered
        (All-InOrder all (ids_of cs (taken ++ rest)) (ids_of cs more) seen))

visited-Inv :
    (all : List Edge) (cs : List Chunk) (taken rest : List ℕ) (i : ℕ) (c : Chunk) (s : Search)
    → get_elem? cs i ≡ some c
    → s.queue ≡ i ∷ rest
    → Inv all cs taken s
    → Inv all cs
        (taken ++ i ∷ [])
        (visit c.chunk_id all cs (record s { queue = rest; processed = suc s.processed }))
visited-Inv all cs taken rest i c s at q v =
    let s0 = record s { queue = rest; processed = suc s.processed } in
    let taken' = taken ++ i ∷ [] in
    let same : taken' ++ rest ≡ taken ++ s.queue =
      append_assoc taken (i ∷ []) rest ∙ ap (λ xs. taken ++ xs) (sym q) in
    let before : IsOpen all v.done cs taken' s0 = record {
      degrees = v.opened.degrees;
      queued = λ k. rw same (v.opened.queued k);
    } in
    let after = visit-IsOpen all v.done cs taken' c.chunk_id all s0 before in
    let ((more, grown), kept) = visit-Extends c.chunk_id all cs s0 in
    let away : (id : ℕ) → into (leave c.chunk_id all v.done) id ≡ fed all (ids_of cs taken') id =
      λ id.
        rw (ids_of-append cs taken (i ∷ []), ids_of_one cs i c at)
          (omega (
            arith,
            into-leave c.chunk_id all v.done id,
            v.taken_away id,
            fed-append all (ids_of cs taken) (c.chunk_id ∷ []) id,
          )) in
    record {
      done = leave c.chunk_id all v.done;
      opened = after;
      taken_away = away;
      counted = omega (arith, kept, v.counted, length-append taken (i ∷ []));
      ordered = λ d. rw grown (
          extended-InOrder all (leave c.chunk_id all v.done) cs taken' rest more d
            (rw same (v.ordered d)) away (λ k. rw (sym grown) (after.queued k)));
    }

-- A round for the index at the head of the queue, which is that of a chunk.
pub round-Inv :
    (all : List Edge) (cs : List Chunk) (taken rest : List ℕ) (i : ℕ) (s : Search)
    → s.queue ≡ i ∷ rest
    → Inv all cs taken s
    → Inv all cs (taken ++ i ∷ []) (round all cs i rest s)
round-Inv all cs taken rest i s q v =
    let (k, c, p, at, _) = ready_at-some all v.done i 0 cs listed in
    let at_i : get_elem? cs i ≡ some c = subst (λ n. get_elem? cs n ≡ some c) (omega arith) at in
    subst (Inv all cs (taken ++ i ∷ [])) (sym (as_visit c at_i))
      (visited-Inv all cs taken rest i c s at_i q v)
  where
    listed : 0 < count i (ready_at all v.done 0 cs)
    listed = unfold count in ground (arith, v.opened.queued i, q, count-append i taken s.queue)

    as_visit :
        (c : Chunk)
        → get_elem? cs i ≡ some c
        → round all cs i rest s
          ≡ visit c.chunk_id all cs (record s { queue = rest; processed = suc s.processed })
    as_visit c e = unfold round in ground arith

pub start-Inv : (all : List Edge) (cs : List Chunk) → Inv all cs [] (start all cs)
start-Inv all cs = record {
  done = [];
  opened = record {
    degrees = unfold start in in_degrees-open all cs;
    queued = λ i. ap (count i) waiting;
  };
  taken_away = away;
  counted = unfold start in refl;
  ordered = λ d.
      extended-InOrder all [] cs [] [] (start all cs).queue d (unfold InOrder ids_of in tt) away
        (λ i. ap (count i) waiting);
}
  where
    waiting : (start all cs).queue ≡ ready_at all [] 0 cs
    waiting =
        unfold start in ap (zero_indices 0) (in_degrees-open all cs) ∙ zero_indices-ready all 0 cs

    away : (id : ℕ) → into [] id ≡ fed all (ids_of cs []) id
    away id = unfold into ids_of in sym (fed_none all id)
