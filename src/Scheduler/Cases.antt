-- ===== src/Scheduler/Cases.antt =====
-- master/src/scheduler.c: how the parts of a tick's round end, as rules for properties of the result.
use void_os_merger.Base.{
  All, ℕ, Bool, ◌++◌, ◌-◌, ◌==◌, length, if◌then◌else◌, ◌≡◌, ◌≤◌, ◌<◌, inl, inr, true, false, none,
  some, List, [], ◌∷◌, arith, get_elem?, modify, find_first, update_first, remove_first, Bool-cases,
  Option-cases, ltb,
}
use void_os_merger.Scheduler.{
  Platform, WorkerView, ChunkPlan, Lease, State, holds, best_worker, no_best, reserve, is_chunk,
  give_back,
}
use void_os_merger.Scheduler.Tick.{
  place_lease, deactivate, release_lease, expire, check_lease, new_lease, grant, assign,
  after_check, tick_chunk, tick_loop,
}
use void_os_merger.Scheduler.Filters.{IsEligible}
use void_os_merger.Scheduler.Choice.{best_worker-IsEligible}

module _ {F : Type 0} where
  pub grant_cases {ℓ} :
      (P : State F × List Lease → Type ℓ) (now : ℕ) (c : ChunkPlan) (i : ℕ) (w : WorkerView F)
      (s : State F)
      → (place_lease (new_lease now c w) s.leases ≡ none
          → P (record s { workers = modify (reserve c) i s.workers }, []))
      → ((ls : List Lease)
          → place_lease (new_lease now c w) s.leases ≡ some ls
          → P (
            record s { workers = modify (reserve c) i s.workers; leases = ls },
            new_lease now c w ∷ [],
          ))
      → P (grant now c i w s)
  unfolding grant
  grant_cases P now c i w s full placed =
      elim (Option-cases (place_lease (new_lease now c w) s.leases)) [
        | inl e ↦ rw (e, grant) (full e)
        | inr (ls, e) ↦ rw (e, grant) (placed ls e)
      ]

  pub assign_cases {ℓ} :
      (P : State F × List Lease → Type ℓ) (d : Platform F) (now : ℕ) (c : ChunkPlan) (s : State F)
      → P (s, [])
      → ((i : ℕ) (w : WorkerView F)
          → get_elem? s.workers i ≡ some w
          → IsEligible c w
          → P (grant now c i w s))
      → P (assign d now c s)
  unfolding assign
  assign_cases P d now c s pending granted =
      elim (Option-cases (best_worker d c s.workers 0 (no_best d)).index) [
        | inl e ↦ rw (e, assign) pending
        | inr (i, e) ↦
            let (w, at, fit) = best_worker-IsEligible d c s.workers i e in
            rw (e, assign) (rw (at, assign) (granted i w at fit))
      ]

  pub check_lease_cases {ℓ} :
      (P : Bool × State F → Type ℓ) (now : ℕ) (c : ChunkPlan) (s : State F)
      → (find_first (holds c.chunk_id) s.leases ≡ none → P (false, s))
      → ((l : Lease)
          → find_first (holds c.chunk_id) s.leases ≡ some l
          → l.lease_expires_ms < now
          → P (false, expire c l s))
      → ((l : Lease)
          → find_first (holds c.chunk_id) s.leases ≡ some l
          → now ≤ l.lease_expires_ms
          → P (true, s))
      → P (check_lease now c s)
  unfolding check_lease
  check_lease_cases P now c s absent expired running =
      elim (Option-cases (find_first (holds c.chunk_id) s.leases)) [
        | inl e ↦ rw (e, check_lease) (absent e)
        | inr (l, e) ↦ elim (Bool-cases (ltb l.lease_expires_ms now)) [
          | inl t ↦ rw (e, check_lease) (rw t (expired l e (ground arith)))
          | inr t ↦ rw (e, check_lease) (rw t (running l e (ground arith)))
        ]
      ]

  -- A round skips the chunk, or assigns it, after an expiry if its lease is over.
  pub tick_chunk_cases {ℓ} :
      (P : State F × List Lease → Type ℓ) (d : Platform F) (now : ℕ) (c : ChunkPlan) (s : State F)
      → P (s, [])
      → (find_first (holds c.chunk_id) s.leases ≡ none → P (assign d now c s))
      → ((l : Lease)
          → find_first (holds c.chunk_id) s.leases ≡ some l
          → l.lease_expires_ms < now
          → P (assign d now c (expire c l s)))
      → P (tick_chunk d now c s)
  unfolding tick_chunk
  tick_chunk_cases P d now c s skip absent expired =
      elim c.is_blocked
        as (λ b. P (if b then (s, []) else after_check d now c (check_lease now c s))) [
          | true ↦ skip
          | false ↦
              check_lease_cases (λ r. P (after_check d now c r)) now c s absent expired
                (λ l e h. skip)
        ]

  -- A property of the tables that every round keeps for a chunk of a kind holds after the loop over
  -- chunks of the kind.
  pub tick_loop_keeps {ℓ κ} :
      (Q : State F → Type ℓ) (C : ChunkPlan → Type κ) (d : Platform F) (now : ℕ)
      → ((c : ChunkPlan) (s : State F) → C c → Q s → Q (tick_chunk d now c s).0)
      → (cs : List ChunkPlan) (room : ℕ) (s : State F) → All C cs
      → Q s
      → Q (tick_loop d now cs room s).0
  unfolding tick_loop
  tick_loop_keeps Q C d now keep [] room s kind q = q
  tick_loop_keeps Q C d now keep (c ∷ cs) room s kind q =
      let round = tick_chunk d now c s in
      let rest = tick_loop d now cs (room - length round.1) round.0 in
      elim (room == 0)
        as (λ b.
          Q (if◌then◌else◌ {A = State F × List Lease} b (s, []) (rest.0, round.1 ++ rest.1)).0) [
            | true ↦ q
            | false ↦
                tick_loop_keeps Q C d now keep cs (room - length round.1) round.0 kind.1
                  (keep c s kind.0 q)
          ]

  pub release_cases {ℓ} :
      (P : State F → Type ℓ) (id : ℕ) (s : State F)
      → P s
      → ((l : Lease)
          → find_first (holds id) s.leases ≡ some l
          → P (record s { leases = update_first (holds id) deactivate s.leases }))
      → ((l : Lease) (c : ChunkPlan)
          → find_first (holds id) s.leases ≡ some l
          → find_first (is_chunk id) s.chunks ≡ some c
          → P (record s {
            leases = update_first (holds id) deactivate s.leases;
            workers = give_back c l.assigned_worker_id s.workers;
            chunks = remove_first (is_chunk id) s.chunks;
          }))
      → P (release_lease id s)
  unfolding release_lease
  release_cases P id s missing stray released =
      elim (Option-cases (find_first (holds id) s.leases)) [
        | inl e ↦ rw (e, release_lease) missing
        | inr (l, e) ↦ elim (Option-cases (find_first (is_chunk id) s.chunks)) [
          | inl e' ↦ rw (e, release_lease) (rw (e', release_lease) (stray l e))
          | inr (c, e') ↦ rw (e, release_lease) (rw (e', release_lease) (released l c e e'))
        ]
      ]
