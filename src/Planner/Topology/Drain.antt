-- ===== src/Planner/Topology/Drain.antt =====
-- master/src/chunk_planner.c: the loop of the check ends, and its queue fits its array.
use void_os_merger.Base.{
  ℕ, zero, suc, ◌+◌, ◌≤◌, ◌≡◌, refl, sym, subst, ◌⊎◌, inl, inr, List, [], ◌∷◌, ◌++◌, arith, length,
  length-append, length-le_of_counts,
}
use void_os_merger.Planner.{Chunk, Edge}
use void_os_merger.Planner.Topology.{Search, start, round, drain}
use void_os_merger.Planner.Topology.Counting.{ready_at}
use void_os_merger.Planner.Topology.Ready.{length-ready_at}
use void_os_merger.Planner.Topology.Rounds.{Inv, round-Inv, start-Inv}

-- No index is in the queue twice, so there are at most as many as chunks.
pub Inv-fits :
    (all : List Edge) (cs : List Chunk) (taken : List ℕ) (s : Search)
    → Inv all cs taken s
    → length taken + length s.queue ≤ length cs
Inv-fits all cs taken s v = omega (
  arith,
  length-append taken s.queue,
  length-le_of_counts (taken ++ s.queue) (ready_at all v.done 0 cs)
      (λ i. omega (arith, v.opened.queued i)),
  length-ready_at all v.done 0 cs,
)

drain_step :
    (n i : ℕ) (rest : List ℕ) (all : List Edge) (cs : List Chunk) (s : Search)
    → s.queue ≡ i ∷ rest
    → drain (suc n) all cs s ≡ drain n all cs (round all cs i rest s)
unfolding drain
drain_step n i rest all cs s q = rw q refl

drain_stop :
    (n : ℕ) (all : List Edge) (cs : List Chunk) (s : Search) → s.queue ≡ [] → drain n all cs s ≡ s
unfolding drain
drain_stop zero all cs s q = refl
drain_stop (suc n) all cs s q = rw q refl

pub record Drained (all : List Edge) (cs : List Chunk) (room : ℕ) (s : Search) : Type 0 where
  pub taken : List ℕ
  pub inv : Inv all cs taken s
  pub empty : length cs ≤ room → s.queue ≡ []

List-cases : (xs : List ℕ) → (xs ≡ []) ⊎ ((x : ℕ) × (ys : List ℕ) × (xs ≡ x ∷ ys))
List-cases [] = inl refl
List-cases (x ∷ xs) = inr (x, xs, refl)

nothing_left : (xs : List ℕ) → length xs ≤ 0 → xs ≡ []
nothing_left [] h = refl
nothing_left (x ∷ xs) h = absurd (omega arith)

drain_none : (all : List Edge) (cs : List Chunk) (s : Search) → drain zero all cs s ≡ s
unfolding drain
drain_none all cs s = refl

-- The state of the loop after at most n rounds.
drain-Drained :
    (n : ℕ) (all : List Edge) (cs : List Chunk) (taken : List ℕ) (s : Search)
    → Inv all cs taken s
    → Drained all cs (length taken + n) (drain n all cs s)
drain-Drained zero all cs taken s v =
    subst (Drained all cs (length taken + 0)) (sym (drain_none all cs s)) (record {
      taken = taken;
      inv = v;
      empty = λ h. nothing_left s.queue (omega (arith, h, Inv-fits all cs taken s v));
    })
drain-Drained (suc n) all cs taken s v = elim (List-cases s.queue) [
  | inl e ↦
      subst (Drained all cs (length taken + suc n)) (sym (drain_stop (suc n) all cs s e))
        (record { taken = taken; inv = v; empty = λ _. e })
  | inr (i, rest, e) ↦
      subst (Drained all cs (length taken + suc n)) (sym (drain_step n i rest all cs s e)) (
        subst (λ k. Drained all cs k (drain n all cs (round all cs i rest s)))
          (omega (arith, length-append taken (i ∷ [])))
          (drain-Drained n all cs (taken ++ i ∷ []) (round all cs i rest s)
            (round-Inv all cs taken rest i s e v)))
]

pub drained :
    (n : ℕ) (all : List Edge) (cs : List Chunk) → Drained all cs n (drain n all cs (start all cs))
drained n all cs =
    subst (λ k. Drained all cs k (drain n all cs (start all cs))) (omega arith)
      (drain-Drained n all cs [] (start all cs) (start-Inv all cs))

-- After any number of rounds the chunks taken and the queue are together no more than the chunks of the
-- plan, so the queue never outgrows its array; and after as many rounds as chunks the queue is empty.
pub drain_ends :
    (n : ℕ) (all : List Edge) (cs : List Chunk)
    → let s = drain n all cs (start all cs) in
      (s.processed + length s.queue ≤ length cs) × (length cs ≤ n → s.queue ≡ [])
drain_ends n all cs =
    let d = drained n all cs in
    (omega (arith, d.inv.counted, Inv-fits all cs d.taken _ d.inv), d.empty)
