-- ===== src/Scheduler/Dispatch.antt =====
-- master/src/scheduler.c: what `vom_scheduler_tick` hands out.
use void_os_merger.Base.{
  ℕ, suc, ◌-◌, ◌≤◌, ◌<◌, ◌≡◌, refl, ap, inl, inr, some, List, [], ◌∷◌, ◌++◌, arith, All, All-append,
  length, length-append, count, count-append, if◌then◌else◌, ℕ_discrete, count_le_length, ◌∙◌, sym,
  map, Bool-cases, ◌==◌, subst, ==_self,
}
use void_os_merger.Scheduler.{Platform, ChunkPlan, Lease, State}
use void_os_merger.Scheduler.Tick.{tick_chunk, tick_loop, tick}
use void_os_merger.Scheduler.Actives.{chunk_ids}
use void_os_merger.Scheduler.Invariant.{IsSound, tick_chunk-IsSound}
use void_os_merger.Scheduler.Reachable.{tick_chunk-chunks}
use void_os_merger.Scheduler.Holders.{
  holder, IsGranted, Round, tick_chunk-Round, tick_chunk_running,
}

abbrev pub lease_ids : List Lease → List ℕ
lease_ids = map (λ l. l.chunk_id)

lease_ids-append : (ls ms : List Lease) → lease_ids (ls ++ ms) ≡ lease_ids ls ++ lease_ids ms
lease_ids-append [] ms = refl
lease_ids-append (l ∷ ls) ms = ap (◌∷◌ l.chunk_id) (lease_ids-append ls ms)

length-lease_ids : (ls : List Lease) → length (lease_ids ls) ≡ length ls
length-lease_ids [] = refl
length-lease_ids (l ∷ ls) = ap suc (length-lease_ids ls)

-- Every lease handed out is the one that the table holds for its chunk, and runs 30 seconds.
abbrev pub IsCurrent : ℕ → List Lease → Lease → Type 0
IsCurrent now table l = IsGranted now l.chunk_id table l

-- A tick over chunks: what it hands out and what it leaves.
pub record Dispatch {F : Type 0} (now : ℕ) (cs : List ChunkPlan) (room : ℕ) (s : State F)
    (r : State F × List Lease) : Type 0 where
  pub bounded : length r.1 ≤ room
  pub current : All (IsCurrent now r.0.leases) r.1
  pub of_chunks : (id : ℕ) → count id (lease_ids r.1) ≤ count id (chunk_ids cs)
  pub untouched : (id : ℕ) → count id (chunk_ids cs) ≡ 0 → holder id r.0.leases ≡ holder id s.leases
  pub running :
      (id : ℕ) (l : Lease)
      → holder id s.leases ≡ some l
      → now ≤ l.lease_expires_ms
      → (holder id r.0.leases ≡ some l) × (count id (lease_ids r.1) ≡ 0)

nothing :
    {F : Type 0} (now : ℕ) (cs : List ChunkPlan) (room : ℕ) (s : State F)
    → Dispatch now cs room s (s, [])
unfolding count
nothing now cs room s = record {
  bounded = omega arith;
  current = tt;
  of_chunks = λ id. omega arith;
  untouched = λ id h. refl;
  running = λ id l e h. (e, refl);
}

-- The ids handed out by a round are the chunk's.
count_granted :
    (now id b : ℕ) (table ls : List Lease)
    → All (IsGranted now id table) ls
    → length ls ≤ 1
    → count b (lease_ids ls) ≤ (if id == b then 1 else 0)
unfolding count
count_granted now id b table [] g h = ground arith
count_granted now id b table (l ∷ []) g h = ground (arith, g.0.chunk)
count_granted now id b table (l ∷ m ∷ ls) g h = absurd (omega arith)

granted-IsCurrent :
    (now id : ℕ) (table table' ls : List Lease)
    → holder id table' ≡ holder id table
    → All (IsGranted now id table) ls
    → All (IsCurrent now table') ls
granted-IsCurrent now id table table' [] e g = tt
granted-IsCurrent now id table table' (l ∷ ls) e g = (
  record {
    chunk = refl;
    held = subst (λ k. holder k table' ≡ some l) (sym g.0.chunk) (e ∙ g.0.held);
    expiry = g.0.expiry;
  },
  granted-IsCurrent now id table table' ls e g.1,
)

then_rest-running :
    {F : Type 0} (now room : ℕ) (c : ChunkPlan) (cs : List ChunkPlan) (s : State F)
    (round rest : State F × List Lease)
    → count c.chunk_id (chunk_ids cs) ≡ 0
    → Round now c s round
    → ((l : Lease)
        → holder c.chunk_id s.leases ≡ some l
        → now ≤ l.lease_expires_ms
        → round ≡ (s, []))
    → Dispatch now cs (room - length round.1) round.0 rest
    → (id : ℕ) (l : Lease) → holder id s.leases ≡ some l
    → now ≤ l.lease_expires_ms
    → (holder id rest.0.leases ≡ some l) × (count id (lease_ids (round.1 ++ rest.1)) ≡ 0)
then_rest-running now room c cs s round rest once a skip b id l e h =
    rw (lease_ids-append round.1 rest.1, count-append id (lease_ids round.1) (lease_ids rest.1))
      (elim (ℕ_discrete c.chunk_id id) [
        | yes same ↦
            let own = subst (λ k. holder k s.leases ≡ some l) (sym same) e in
            let skipped = skip l own h in
            let none_here = ap (λ (r : State _ × List Lease). length r.1) skipped in
            let free = subst (λ k. count k (chunk_ids cs) ≡ 0) same once in
            (
              b.untouched id free
                  ∙ ap (λ (r : State _ × List Lease). holder id r.0.leases) skipped
                  ∙ e,
              omega (
                arith,
                b.of_chunks id,
                count_le_length id (lease_ids round.1),
                length-lease_ids round.1,
              ),
            )
        | no other ↦
            let kept = b.running id l (a.others id other ∙ e) h in
            (
              kept.0,
              ground (
                arith,
                count_granted now c.chunk_id id round.0.leases round.1 a.granted a.single,
              ),
            )
      ])

-- A round followed by the rest of the loop.
then_rest :
    {F : Type 0} (now room : ℕ) (c : ChunkPlan) (cs : List ChunkPlan) (s : State F)
    (round rest : State F × List Lease)
    → 0 < room
    → count c.chunk_id (chunk_ids cs) ≡ 0
    → Round now c s round
    → ((l : Lease)
        → holder c.chunk_id s.leases ≡ some l
        → now ≤ l.lease_expires_ms
        → round ≡ (s, []))
    → Dispatch now cs (room - length round.1) round.0 rest
    → Dispatch now (c ∷ cs) room s (rest.0, round.1 ++ rest.1)
unfolding count
then_rest now room c cs s round rest pos once a skip b = record {
  bounded = omega (arith, length-append round.1 rest.1, a.single, b.bounded);
  current =
      All-append (IsCurrent now rest.0.leases) round.1 rest.1
        (granted-IsCurrent now c.chunk_id round.0.leases rest.0.leases round.1
          (b.untouched c.chunk_id once) a.granted)
        b.current;
  of_chunks = λ id. rw (lease_ids-append round.1 rest.1) (
      ground (
        arith,
        count-append id (lease_ids round.1) (lease_ids rest.1),
        count_granted now c.chunk_id id round.0.leases round.1 a.granted a.single,
        b.of_chunks id,
      ));
  untouched = λ id h. b.untouched id (ground arith) ∙ a.others id (λ e. ground (arith, ==_self id));
  running = then_rest-running now room c cs s round rest once a skip b;
}

loop-Dispatch :
    {F : Type 0} (d : Platform F) (now : ℕ) (cs : List ChunkPlan) (room : ℕ) (s : State F)
    → IsSound s
    → ((id : ℕ) → count id (chunk_ids cs) ≤ 1)
    → ((id : ℕ) → count id (chunk_ids cs) ≤ count id (chunk_ids s.chunks))
    → Dispatch now cs room s (tick_loop d now cs room s)
unfolding tick_loop count
loop-Dispatch d now [] room s v distinct known = nothing now [] room s
loop-Dispatch {F} d now (c ∷ cs) room s v distinct known =
    let round = tick_chunk d now c s in
    let rest = tick_loop d now cs (room - length round.1) round.0 in
    let own = ==_self c.chunk_id in
    let in_table : 0 < count c.chunk_id (chunk_ids s.chunks) = ground (arith, known c.chunk_id) in
    elim (Bool-cases (room == 0)) [
      | inl e ↦ rw e (nothing now (c ∷ cs) room s)
      | inr e ↦ rw e (
          then_rest now room c cs s round rest (ground arith) (ground (arith, distinct c.chunk_id))
            (tick_chunk-Round d now c s v) (tick_chunk_running d now c s)
            (loop-Dispatch d now cs (room - length round.1) round.0
              (tick_chunk-IsSound d now c s in_table v) (λ id. ground (arith, distinct id))
              (λ id. rw (tick_chunk-chunks d now c s) (ground (arith, known id)))))
    ]

-- In sound tables a tick hands out at most `max_leases` leases, at most one for each chunk; each is
-- the active lease that the table then holds for its chunk, and expires 30 seconds after the tick; and
-- a chunk whose lease still runs keeps that lease and gets no other.
pub tick-Dispatch :
    {F : Type 0} (d : Platform F) (now max_leases : ℕ) (s : State F)
    → IsSound s
    → Dispatch now s.chunks max_leases s (tick d now max_leases s)
      × ((id : ℕ) → count id (lease_ids (tick d now max_leases s).1) ≤ 1)
unfolding tick
tick-Dispatch d now max_leases s v =
    let all = loop-Dispatch d now s.chunks max_leases s v v.distinct (λ id. omega arith) in
    (all, λ id. omega (arith, all.of_chunks id, v.distinct id))
