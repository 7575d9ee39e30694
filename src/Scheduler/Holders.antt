-- ===== src/Scheduler/Holders.antt =====
-- master/src/scheduler.c: the lease that the table holds for a chunk, through one round of a tick.
use void_os_merger.Base.{
  ℕ, ◌≤◌, ◌≡◌, ◌≢◌, refl, true, not, Option, none, some, List, [], ◌∷◌, ◌++◌, arith, All, length,
  find_first, is_some, update_first, count, add64, ◌∙◌,
}
use void_os_merger.Scheduler.{Platform, ChunkPlan, Lease, State, holds}
use void_os_merger.Scheduler.Tick.{
  expire, assign, check_lease, tick_chunk, new_lease, place_lease, deactivate,
}
use void_os_merger.Scheduler.Cases.{grant_cases, assign_cases, tick_chunk_cases}
use void_os_merger.Scheduler.Actives.{actives, count-actives-deactivate}
use void_os_merger.Scheduler.Invariant.{IsSound}

-- The active lease of a chunk, none if there is none.
abbrev pub holder : ℕ → List Lease → Option Lease
holder id ls = find_first (holds id) ls

holder-none : (id : ℕ) (ls : List Lease) → count id (actives ls) ≡ 0 → holder id ls ≡ none
unfolding find_first actives count
holder-none id [] h = refl
holder-none id (l ∷ ls) h = ground (arith, holder-none id ls)

holder-deactivate :
    (c b : ℕ) (ls : List Lease)
    → c ≢ b
    → holder b (update_first (holds c) deactivate ls) ≡ holder b ls
unfolding find_first update_first
holder-deactivate c b [] h = refl
holder-deactivate c b (l ∷ ls) h = ground (arith, holder-deactivate c b ls)

holder-slot :
    (b : ℕ) (new : Lease) (ls : List Lease)
    → new.chunk_id ≢ b
    → holder b (update_first (λ l. not l.is_active) (λ _. new) ls) ≡ holder b ls
unfolding find_first update_first
holder-slot b new [] h = refl
holder-slot b new (l ∷ ls) h = ground (arith, holder-slot b new ls)

holder-append :
    (b : ℕ) (new : Lease) (ls : List Lease)
    → new.chunk_id ≢ b
    → holder b (ls ++ new ∷ []) ≡ holder b ls
unfolding find_first
holder-append b new [] h = ground arith
holder-append b new (l ∷ ls) h = ground (arith, holder-append b new ls)

holder-place_lease :
    (b : ℕ) (new : Lease) (ls ms : List Lease)
    → new.chunk_id ≢ b
    → place_lease new ls ≡ some ms
    → holder b ms ≡ holder b ls
unfolding place_lease
holder-place_lease b new ls ms h e = ground (arith, holder-slot b new ls, holder-append b new ls)

holder-slot_self :
    (new : Lease) (ls : List Lease)
    → new.is_active ≡ true
    → holder new.chunk_id ls ≡ none
    → is_some (find_first (λ l. not l.is_active) ls) ≡ true
    → holder new.chunk_id (update_first (λ l. not l.is_active) (λ _. new) ls) ≡ some new
unfolding find_first update_first
holder-slot_self new [] a h e = absurd (ground arith)
holder-slot_self new (l ∷ ls) a h e = ground (arith, holder-slot_self new ls)

holder-append_self :
    (new : Lease) (ls : List Lease)
    → new.is_active ≡ true
    → holder new.chunk_id ls ≡ none
    → holder new.chunk_id (ls ++ new ∷ []) ≡ some new
unfolding find_first
holder-append_self new [] a h = ground arith
holder-append_self new (l ∷ ls) a h = ground (arith, holder-append_self new ls)

holder-place_lease_self :
    (new : Lease) (ls ms : List Lease)
    → new.is_active ≡ true
    → holder new.chunk_id ls ≡ none
    → place_lease new ls ≡ some ms
    → holder new.chunk_id ms ≡ some new
unfolding place_lease
holder-place_lease_self new ls ms a h e =
    ground (arith, holder-slot_self new ls, holder-append_self new ls)

-- A lease handed out at a time for a chunk, which the table holds for it.
pub record IsGranted (now id : ℕ) (ls : List Lease) (l : Lease) : Type 0 where
  pub chunk : l.chunk_id ≡ id
  pub held : holder id ls ≡ some l
  pub expiry : l.lease_expires_ms ≡ add64 now 30000

module _ {F : Type 0} where
  -- What a round for a chunk does to the leases, and what it hands out.
  pub record Round (now : ℕ) (c : ChunkPlan) (s : State F) (r : State F × List Lease) : Type 0 where
    pub others : (b : ℕ) → c.chunk_id ≢ b → holder b r.0.leases ≡ holder b s.leases
    pub granted : All (IsGranted now c.chunk_id r.0.leases) r.1
    pub single : length r.1 ≤ 1

  assign-Round :
      (d : Platform F) (now : ℕ) (c : ChunkPlan) (s t : State F)
      → ((b : ℕ) → c.chunk_id ≢ b → holder b t.leases ≡ holder b s.leases)
      → holder c.chunk_id t.leases ≡ none
      → Round now c s (assign d now c t)
  unfolding new_lease
  assign-Round d now c s t others free =
      assign_cases (Round now c s) d now c t
        (record { others = others; granted = tt; single = omega arith })
        λ i w _ _.
          grant_cases (Round now c s) now c i w t
            (λ _. record { others = others; granted = tt; single = omega arith })
            λ ls e. record {
              others = λ b h. holder-place_lease b (new_lease now c w) t.leases ls h e ∙ others b h;
              granted = (
                record {
                  chunk = refl;
                  held = holder-place_lease_self (new_lease now c w) t.leases ls refl free e;
                  expiry = refl;
                },
                tt,
              );
              single = omega arith;
            }

  pub tick_chunk-Round :
      (d : Platform F) (now : ℕ) (c : ChunkPlan) (s : State F)
      → IsSound s
      → Round now c s (tick_chunk d now c s)
  unfolding expire
  tick_chunk-Round d now c s v =
      tick_chunk_cases (Round now c s) d now c s
        (record { others = λ b h. refl; granted = tt; single = omega arith })
        (λ e. assign-Round d now c s s (λ b h. refl) e)
        λ l e _.
          assign-Round d now c s (expire c l s) (λ b h. holder-deactivate c.chunk_id b s.leases h)
            (holder-none c.chunk_id _ (
              ground (
                arith,
                count-actives-deactivate c.chunk_id c.chunk_id s.leases l e,
                v.covered c.chunk_id,
                v.distinct c.chunk_id,
              )))

  -- A chunk whose lease still runs is skipped.
  pub tick_chunk_running :
      (d : Platform F) (now : ℕ) (c : ChunkPlan) (s : State F) (l : Lease)
      → holder c.chunk_id s.leases ≡ some l
      → now ≤ l.lease_expires_ms
      → tick_chunk d now c s ≡ (s, [])
  unfolding tick_chunk check_lease
  tick_chunk_running d now c s l e h = ground arith
