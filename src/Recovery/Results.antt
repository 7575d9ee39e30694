-- ===== src/Recovery/Results.antt =====
-- master/src/recovery.c: which reported results are accepted, and that no lease is settled twice.
use void_os_merger.Base.{
  ℕ, ◌≡◌, ◌≢◌, ◌↔◌, refl, ap, Bool, true, false, List, [], ◌∷◌, ◌++◌, ℕ_discrete, arith, map,
  str_eq_iff, Bool-cases, Option-cases, ◌∙◌, inl, inr, find_first, update_first, some, Bytes, ◌⊎◌,
  ltb, length,
}
use void_os_merger.Recovery.{
  Lease, WorkerObs, Context, active, uncertain, reconciled, is_stale, is_lease,
  process_incoming_result, inject_test_lease, register_worker_heartbeat, rec_max_leases,
}
use void_os_merger.Recovery.Timeouts.{
  is_due, settle, Call, heartbeats, sweeps, reports, injects, step, run,
}
use void_os_merger.Recovery.Passes.{swept, sweep_timeouts-swept}

-- A result is accepted exactly for a lease of the table that is not settled yet, from the worker that
-- the lease names.
pub process_incoming_result_accepts :
    (id : ℕ) (worker : Bytes) (ctx : Context)
    → ((process_incoming_result id worker ctx).1 ≡ true) ↔ (
        (l : Lease) × (find_first (is_lease id) ctx.leases ≡ some l)
        × ((l.state ≡ active) ⊎ (l.state ≡ uncertain))
        × (l.assigned_worker_id ≡ worker))
unfolding process_incoming_result
process_incoming_result_accepts id worker ctx =
    elim (Option-cases (find_first (is_lease id) ctx.leases)) [
      | inl e ↦ (λ h. absurd (ground arith), λ (m, e', open_state, named). absurd (ground arith))
      | inr (l, e) ↦ (
        λ h. (l, e, ground arith, ground (arith, str_eq_iff l.assigned_worker_id worker)),
        λ (m, e', open_state, named). ground (arith, str_eq_iff l.assigned_worker_id worker),
      )
    ]

swept-id :
    (now timeout : ℕ) (ws : List WorkerObs) (l : Lease)
    → (swept now timeout ws l).lease_id ≡ l.lease_id
unfolding swept settle
swept-id now timeout ws l = ground arith

swept_stale :
    (now timeout : ℕ) (ws : List WorkerObs) (l : Lease)
    → is_stale l.state ≡ true
    → swept now timeout ws l ≡ l
unfolding swept is_due
swept_stale now timeout ws l h = ground arith

find-map-swept :
    (id now timeout : ℕ) (ws : List WorkerObs) (ls : List Lease) (l : Lease)
    → find_first (is_lease id) ls ≡ some l
    → find_first (is_lease id) (map (swept now timeout ws) ls) ≡ some (swept now timeout ws l)
unfolding find_first
find-map-swept id now timeout ws [] l h = absurd (ground arith)
find-map-swept id now timeout ws (x ∷ ls) l h =
    ground (arith, swept-id now timeout ws x, find-map-swept id now timeout ws ls l)

find-append :
    (id : ℕ) (ls ms : List Lease) (l : Lease)
    → find_first (is_lease id) ls ≡ some l
    → find_first (is_lease id) (ls ++ ms) ≡ some l
unfolding find_first
find-append id [] ms l h = absurd (ground arith)
find-append id (x ∷ ls) ms l h = ground (arith, find-append id ls ms l)

find-reconcile_other :
    (id j : ℕ) (ls : List Lease) (l : Lease)
    → id ≢ j
    → find_first (is_lease id) ls ≡ some l
    → find_first (is_lease id) (update_first (is_lease j) (λ m. record m { state = reconciled }) ls)
      ≡ some l
unfolding find_first update_first
find-reconcile_other id j [] l n h = absurd (ground arith)
find-reconcile_other id j (x ∷ ls) l n h = ground (arith, find-reconcile_other id j ls l n)

find-reconcile :
    (id : ℕ) (ls : List Lease) (l : Lease)
    → find_first (is_lease id) ls ≡ some l
    → find_first
        (is_lease id)
        (update_first (is_lease id) (λ m. record m { state = reconciled }) ls)
      ≡ some (record l { state = reconciled })
unfolding find_first update_first
find-reconcile id [] l h = absurd (ground arith)
find-reconcile id (x ∷ ls) l h = ground (arith, find-reconcile id ls l)

-- A settled lease of the table, for an id.
abbrev IsSettled : ℕ → Context → Type 0
IsSettled id ctx =
    (l : Lease) × (find_first (is_lease id) ctx.leases ≡ some l) × (is_stale l.state ≡ true)

settled_rejects :
    (id : ℕ) (worker : Bytes) (ctx : Context)
    → IsSettled id ctx
    → process_incoming_result id worker ctx ≡ (ctx, false)
unfolding process_incoming_result
settled_rejects id worker ctx (l, e, h) = rw (e, process_incoming_result) (rw h)

reports-IsSettled :
    (id j : ℕ) (worker : Bytes) (ctx : Context)
    → IsSettled id ctx
    → IsSettled id (process_incoming_result j worker ctx).0
unfolding process_incoming_result
reports-IsSettled id j worker ctx (l, e, h) = elim (ℕ_discrete id j) [
  | yes same ↦ rw (← same, settled_rejects id worker ctx (l, e, h)) (l, e, h)
  | no other ↦ (l, ground (arith, find-reconcile_other id j ctx.leases l other e), h)
]

IsSettled-step : (id : ℕ) (ctx : Context) (c : Call) → IsSettled id ctx → IsSettled id (step ctx c)
unfolding step register_worker_heartbeat inject_test_lease
IsSettled-step id ctx (heartbeats w now) (l, e, h) = (l, ground arith, h)
IsSettled-step id ctx (sweeps now timeout) (l, e, h) = (
  l,
  rw ((sweep_timeouts-swept now timeout ctx).0) (
      find-map-swept id now timeout ctx.workers ctx.leases l e
      ∙ ap some (swept_stale now timeout ctx.workers l h)),
  h,
)
IsSettled-step id ctx (reports j worker) s = reports-IsSettled id j worker ctx s
IsSettled-step id ctx (injects lease chunk worker expires policy) (l, e, h) =
    elim (Bool-cases (ltb (length ctx.leases) rec_max_leases)) [
      | inl room ↦ rw room (l, find-append id ctx.leases _ l e, h)
      | inr full ↦ rw full (l, e, h)
    ]

IsSettled-run :
    (id : ℕ) (ctx : Context) (cs : List Call) → IsSettled id ctx → IsSettled id (run ctx cs)
unfolding run
IsSettled-run id ctx [] s = s
IsSettled-run id ctx (c ∷ cs) s = IsSettled-run id (step ctx c) cs (IsSettled-step id ctx c s)

accepted-IsSettled :
    (id : ℕ) (worker : Bytes) (ctx : Context)
    → (process_incoming_result id worker ctx).1 ≡ true
    → IsSettled id (process_incoming_result id worker ctx).0
unfolding process_incoming_result
accepted-IsSettled id worker ctx h =
    let (l, e, _, _) = (process_incoming_result_accepts id worker ctx).0 h in
    (record l { state = reconciled }, ground (arith, find-reconcile id ctx.leases l e), refl)

-- After a result for a lease is accepted, no later result for that lease is, from any worker and
-- after any calls in between.
pub process_incoming_result_once :
    (id : ℕ) (worker worker' : Bytes) (ctx : Context) (cs : List Call)
    → (process_incoming_result id worker ctx).1 ≡ true
    → (process_incoming_result id worker' (run (process_incoming_result id worker ctx).0 cs)).1
      ≡ false
process_incoming_result_once id worker worker' ctx cs h =
    ap (λ (r : Context × Bool). r.1)
      (settled_rejects id worker' _ (IsSettled-run id _ cs (accepted-IsSettled id worker ctx h)))
