-- ===== src/Scheduler/Reachable.antt =====
-- master/src/scheduler.c: the tables after any sequence of calls.
use void_os_merger.Base.{
  ℕ, ◌≤◌, ◌<◌, ◌≡◌, refl, inl, inr, List, [], ◌∷◌, arith, All, length, length-append,
  length-update_first, length-remove_first, find_first, is_some, count, count-append, Bool-cases,
  leb, sym, subst, ◌∙◌, ==_self,
}
use void_os_merger.Scheduler.{
  Platform, WorkerView, ChunkPlan, State, init, has_id, register_worker, submit_ready_chunk,
  max_schunks, is_chunk, holds,
}
use void_os_merger.Scheduler.Tick.{
  Call, registers, submits, ticks, releases, after, expire, assign, tick_chunk, tick, release_lease,
  step, run, deactivate,
}
use void_os_merger.Scheduler.Cases.{
  release_cases, grant_cases, assign_cases, tick_chunk_cases, tick_loop_keeps,
}
use void_os_merger.Scheduler.Actives.{
  actives, chunk_ids, count-actives-deactivate, count-chunk_ids_absent, chunk_ids-replace,
  chunk_ids-append, count-chunk_ids-remove,
}
use void_os_merger.Scheduler.Invariant.{IsSound, tick_chunk-IsSound, length-give_back}

known-All :
    (cs : List ChunkPlan) (ids : List ℕ)
    → ((id : ℕ) → count id (chunk_ids cs) ≤ count id ids)
    → All (λ c. 0 < count c.chunk_id ids) cs
unfolding count
known-All [] ids h = tt
known-All (c ∷ cs) ids h = (
  ground (arith, h c.chunk_id, ==_self c.chunk_id),
  known-All cs ids (λ id. ground (arith, h id)),
)

module _ {F : Type 0} where
  -- No round of a tick changes the chunks.
  pub tick_chunk-chunks :
      (d : Platform F) (now : ℕ) (c : ChunkPlan) (s : State F)
      → (tick_chunk d now c s).0.chunks ≡ s.chunks
  unfolding expire
  tick_chunk-chunks d now c s =
      tick_chunk_cases (λ r. r.0.chunks ≡ s.chunks) d now c s refl (λ _. assigned s refl)
        (λ l _ _. assigned (expire c l s) refl)
    where
      assigned : (t : State F) → t.chunks ≡ s.chunks → (assign d now c t).0.chunks ≡ s.chunks
      assigned t e =
          assign_cases (λ r. r.0.chunks ≡ s.chunks) d now c t e
            λ i w _ _. grant_cases (λ r. r.0.chunks ≡ s.chunks) now c i w t (λ _. e) (λ _ _. e)

  tick-IsSound :
      (d : Platform F) (now max_leases : ℕ) (s : State F)
      → IsSound s
      → IsSound (tick d now max_leases s).0
  unfolding tick
  tick-IsSound d now max_leases s v =
      (tick_loop_keeps (λ t. IsSound t × (t.chunks ≡ s.chunks))
        (λ c. 0 < count c.chunk_id (chunk_ids s.chunks)) d now
        (λ c t known q. (
          tick_chunk-IsSound d now c t
              (subst (λ cs. 0 < count c.chunk_id (chunk_ids cs)) (sym q.1) known) q.0,
          tick_chunk-chunks d now c t ∙ q.1,
        ))
        s.chunks max_leases s (known-All s.chunks (chunk_ids s.chunks) (λ id. omega arith))
        (v, refl)).0

  register-IsSound :
      (w : WorkerView F) (s : State F) → IsSound s → IsSound (after s (register_worker w s))
  unfolding register_worker
  register-IsSound w s v = record {
    workers_fit = ground (
      arith,
      v.workers_fit,
      length-update_first (has_id w.worker_id) (λ _. w) s.workers,
      length-append s.workers (w ∷ []),
    );
    chunks_fit = ground (arith, v.chunks_fit);
    leases_fit = ground (arith, v.leases_fit);
    distinct = λ id. ground (arith, v.distinct id);
    covered = λ id. ground (arith, v.covered id);
  }

  submit-IsSound :
      (c : ChunkPlan) (s : State F) → IsSound s → IsSound (after s (submit_ready_chunk c s))
  unfolding submit_ready_chunk count
  submit-IsSound c s v = elim (Bool-cases (is_some (find_first (is_chunk c.chunk_id) s.chunks))) [
    | inl e ↦ rw e (record {
      workers_fit = v.workers_fit;
      chunks_fit =
          omega (arith, v.chunks_fit, length-update_first (is_chunk c.chunk_id) (λ _. c) s.chunks);
      leases_fit = v.leases_fit;
      distinct = λ id. rw (chunk_ids-replace c s.chunks) (v.distinct id);
      covered = λ id. rw (chunk_ids-replace c s.chunks) (v.covered id);
    })
    | inr e ↦ rw e (elim (Bool-cases (leb max_schunks (length s.chunks))) [
      | inl full ↦ rw full v
      | inr room ↦ rw room (record {
        workers_fit = v.workers_fit;
        chunks_fit = ground (arith, length-append s.chunks (c ∷ []));
        leases_fit = v.leases_fit;
        distinct = λ id. rw (chunk_ids-append s.chunks (c ∷ [])) (
            ground (
              arith,
              count-append id (chunk_ids s.chunks) (c.chunk_id ∷ []),
              v.distinct id,
              count-chunk_ids_absent c.chunk_id s.chunks e,
            ));
        covered = λ id.
            rw (chunk_ids-append s.chunks (c ∷ [])) (
              ground (arith, count-append id (chunk_ids s.chunks) (c.chunk_id ∷ []), v.covered id));
      })
    ])
  ]

  release-IsSound : (id : ℕ) (s : State F) → IsSound s → IsSound (release_lease id s)
  release-IsSound id s v =
      release_cases IsSound id s v
        (λ l e. record {
          workers_fit = v.workers_fit;
          chunks_fit = v.chunks_fit;
          leases_fit =
              omega (arith, length-update_first (holds id) deactivate s.leases, v.leases_fit);
          distinct = v.distinct;
          covered = λ b. omega (arith, count-actives-deactivate id b s.leases l e, v.covered b);
        })
        λ l c e found. record {
          workers_fit =
              omega (arith, length-give_back c l.assigned_worker_id s.workers, v.workers_fit);
          chunks_fit = omega (arith, length-remove_first (is_chunk id) s.chunks, v.chunks_fit);
          leases_fit =
              omega (arith, length-update_first (holds id) deactivate s.leases, v.leases_fit);
          distinct = λ b. omega (arith, count-chunk_ids-remove id b s.chunks c found, v.distinct b);
          covered = λ b. omega (
            arith,
            count-actives-deactivate id b s.leases l e,
            count-chunk_ids-remove id b s.chunks c found,
            v.covered b,
          );
        }

  pub step-IsSound : (d : Platform F) (s : State F) (c : Call F) → IsSound s → IsSound (step d s c)
  unfolding step
  step-IsSound d s (registers w) v = register-IsSound w s v
  step-IsSound d s (submits c) v = submit-IsSound c s v
  step-IsSound d s (ticks now max_leases) v = tick-IsSound d now max_leases s v
  step-IsSound d s (releases id) v = release-IsSound id s v

  pub run-IsSound :
      (d : Platform F) (s : State F) (cs : List (Call F)) → IsSound s → IsSound (run d s cs)
  unfolding run
  run-IsSound d s [] v = v
  run-IsSound d s (c ∷ cs) v = run-IsSound d (step d s c) cs (step-IsSound d s c v)

  pub init-IsSound : IsSound (init {F = F})
  unfolding init actives count
  init-IsSound = record {
    workers_fit = omega arith;
    chunks_fit = omega arith;
    leases_fit = omega arith;
    distinct = λ id. omega arith;
    covered = λ id. omega arith;
  }

-- After any sequence of calls from the empty tables there are at most 64 workers, 128 chunks and 128
-- leases, no two chunks have one id, and every active lease is of a chunk in the table, at most one
-- for each chunk.
pub run-init-IsSound : {F : Type 0} (d : Platform F) (cs : List (Call F)) → IsSound (run d init cs)
run-init-IsSound d cs = run-IsSound d init cs init-IsSound
