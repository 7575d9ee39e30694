-- ===== src/Recovery/Identity.antt =====
-- master/src/recovery.c: heartbeats and the names of workers. A record holds 63 bytes of a name.
use void_os_merger.Base.{
  ℕ, ◌+◌, ◌≤◌, ◌<◌, ◌≡◌, refl, true, false, List, [], ◌∷◌, ◌++◌, arith, All, length, length-append,
  length-update_first, find_first, is_some, update_first, str_eq_iff, str_eq_self, Bytes, take,
  take_all, if◌then◌else◌, some, ap, lt→ltb, Bool-cases, inl, inr,
}
use void_os_merger.Recovery.{
  Context, WorkerObs, has_id, rec_max_workers, rec_name_max, register_worker_heartbeat,
}

-- The names in the table are as strncpy leaves them.
abbrev pub IsNamed : WorkerObs → Type 0
IsNamed w = length w.worker_id < rec_name_max

no_match :
    (id : Bytes) (ws : List WorkerObs)
    → rec_name_max ≤ length id
    → All IsNamed ws
    → is_some (find_first (has_id id) ws) ≡ false
unfolding find_first
no_match id [] h v = refl
no_match id (w ∷ ws) h v =
    ground (arith, str_eq_iff w.worker_id id, differ w v.0, no_match id ws h v.1)
  where
    differ : (w : WorkerObs) → IsNamed w → w.worker_id ≡ id → ⊥
    differ w n e = omega (arith, ap length e)

-- The heartbeats of a worker whose name has 64 bytes or more never find its record: while the table
-- has room, each adds one more record, under the first 63 bytes of the name.
pub register_worker_heartbeat_long :
    (id : Bytes) (now : ℕ) (ctx : Context)
    → rec_name_max ≤ length id
    → All IsNamed ctx.workers
    → length ctx.workers < rec_max_workers
    → (register_worker_heartbeat id now ctx).workers
      ≡ ctx.workers
        ++ record { worker_id = take 63 id; last_heartbeat_ms = now; is_healthy = true } ∷ []
unfolding register_worker_heartbeat
register_worker_heartbeat_long id now ctx h v room =
    rw (no_match id ctx.workers h v) (rw (lt→ltb _ _ room))

found_after :
    (id : Bytes) (now : ℕ) (ws : List WorkerObs)
    → is_some (find_first (has_id id) ws) ≡ true
    → find_first
        (has_id id)
        (update_first (has_id id) (λ w. record w { last_heartbeat_ms = now; is_healthy = true }) ws)
      ≡ some (record { worker_id = id; last_heartbeat_ms = now; is_healthy = true })
unfolding find_first update_first
found_after id now [] h = absurd (ground arith)
found_after id now (w ∷ ws) h = ground (arith, str_eq_iff w.worker_id id, found_after id now ws)

found_at_end :
    (id : Bytes) (now : ℕ) (ws : List WorkerObs)
    → is_some (find_first (has_id id) ws) ≡ false
    → find_first
        (has_id id)
        (ws ++ record { worker_id = id; last_heartbeat_ms = now; is_healthy = true } ∷ [])
      ≡ some (record { worker_id = id; last_heartbeat_ms = now; is_healthy = true })
unfolding find_first
found_at_end id now [] h = ground (arith, str_eq_self id)
found_at_end id now (w ∷ ws) h = ground (arith, found_at_end id now ws)

-- A heartbeat of a worker whose name has at most 63 bytes, in a table with room, leaves a record under
-- that name with the time of the heartbeat, healthy; and the table grows only if there was none.
pub register_worker_heartbeat_recorded :
    (id : Bytes) (now : ℕ) (ctx : Context)
    → length id < rec_name_max
    → length ctx.workers < rec_max_workers
    → (find_first (has_id id) (register_worker_heartbeat id now ctx).workers
        ≡ some (record { worker_id = id; last_heartbeat_ms = now; is_healthy = true }))
      × (length (register_worker_heartbeat id now ctx).workers
          ≡ length ctx.workers + (if is_some (find_first (has_id id) ctx.workers) then 0 else 1))
unfolding register_worker_heartbeat
register_worker_heartbeat_recorded id now ctx h room =
    elim (Bool-cases (is_some (find_first (has_id id) ctx.workers))) [
      | inl e ↦ rw e (
        found_after id now ctx.workers e,
        omega (
          arith,
          length-update_first (has_id id)
              (λ w. record w { last_heartbeat_ms = now; is_healthy = true }) ctx.workers,
        ),
      )
      | inr e ↦
          rw (e, lt→ltb _ _ room, take_all 63 id (omega arith))
            (found_at_end id now ctx.workers e, length-append ctx.workers _)
    ]
