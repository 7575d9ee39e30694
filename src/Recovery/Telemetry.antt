-- ===== src/Recovery/Telemetry.antt =====
-- master/src/recovery.c: what holds of every lease and of the count of recovery jobs between calls.
use void_os_merger.Base.{
  ℕ, suc, ◌+◌, ◌≤◌, ◌≡◌, ◌≢◌, refl, true, List, [], ◌∷◌, arith, map, if◌then◌else◌, str_eq,
  Bool-cases, Option-cases, inl, inr, find_first, Bytes, All, All-append, All-update_first, ltb,
  length, add32,
}
use void_os_merger.Recovery.{
  Lease, WorkerObs, Context, active, uncertain, expired, reconciled, is_stale, is_uncertain,
  is_lease, process_incoming_result, inject_test_lease, register_worker_heartbeat, init,
  permits_retry, rec_max_leases,
}
use void_os_merger.Recovery.Timeouts.{
  is_due, settle, sweep_timeouts, Call, heartbeats, sweeps, reports, injects, step, run,
  mark_uncertain, count_active_on, lose, sweep_workers, settle_leases, is_lost,
}
use void_os_merger.Recovery.Passes.{swept, sweep_timeouts-swept}

-- A lease between calls: none is uncertain, an active one has not been retried, none was retried twice.
pub record IsOrderly (l : Lease) : Type 0 where
  pub certain : l.state ≢ uncertain
  pub fresh : l.state ≡ active → l.retry_count ≡ 0
  pub once : l.retry_count ≤ 1
  pub requeued : l.state ≡ expired → (permits_retry l.retry_policy ≡ true) × (l.retry_count ≡ 1)

swept-IsOrderly :
    (now timeout : ℕ) (ws : List WorkerObs) (l : Lease)
    → IsOrderly l
    → IsOrderly (swept now timeout ws l)
unfolding swept is_due settle
swept-IsOrderly now timeout ws l v = ground arith

map-swept-IsOrderly :
    (now timeout : ℕ) (ws : List WorkerObs) (ls : List Lease)
    → All IsOrderly ls
    → All IsOrderly (map (swept now timeout ws) ls)
map-swept-IsOrderly now timeout ws [] h = tt
map-swept-IsOrderly now timeout ws (l ∷ ls) h =
    (swept-IsOrderly now timeout ws l h.0, map-swept-IsOrderly now timeout ws ls h.1)

-- How many leases are uncertain.
count_uncertain : List Lease → ℕ
count_uncertain [] = 0
count_uncertain (l ∷ ls) =
    if is_uncertain l.state then suc (count_uncertain ls) else count_uncertain ls

count_uncertain-mark :
    (id : Bytes) (ls : List Lease)
    → count_uncertain (mark_uncertain id ls) ≡ count_uncertain ls + count_active_on id ls
unfolding count_uncertain mark_uncertain count_active_on
count_uncertain-mark id [] = omega arith
count_uncertain-mark id (l ∷ ls) = ground (arith, count_uncertain-mark id ls)

sweep_workers-jobs :
    (now timeout : ℕ) (ws : List WorkerObs) (ls : List Lease) (jobs : ℕ)
    → jobs ≤ count_uncertain ls
    → (sweep_workers now timeout ws ls jobs).jobs
      ≤ count_uncertain (sweep_workers now timeout ws ls jobs).leases
unfolding sweep_workers lose
sweep_workers-jobs now timeout [] ls jobs h = h
sweep_workers-jobs now timeout (w ∷ ws) ls jobs h = elim (Bool-cases (is_lost now timeout w)) [
  | inl e ↦ rw e (
      sweep_workers-jobs now timeout ws (mark_uncertain w.worker_id ls)
        (add32 jobs (count_active_on w.worker_id ls))
        (omega (arith, count_uncertain-mark w.worker_id ls)))
  | inr e ↦ rw e (sweep_workers-jobs now timeout ws ls jobs h)
]

settle_leases-jobs :
    (now : ℕ) (ls : List Lease) (jobs : ℕ)
    → jobs ≤ count_uncertain ls
    → (settle_leases now ls jobs).1 ≡ 0
unfolding settle_leases count_uncertain is_due
settle_leases-jobs now [] jobs h = omega arith
settle_leases-jobs now (l ∷ ls) jobs h = settle_leases-jobs now ls _ (ground arith)

-- What holds between calls.
pub record IsSettledDown (ctx : Context) : Type 0 where
  pub leases : All IsOrderly ctx.leases
  pub jobs : ctx.active_recovery_jobs ≡ 0

sweep_timeouts-jobs :
    (now timeout : ℕ) (ctx : Context)
    → ctx.active_recovery_jobs ≤ count_uncertain ctx.leases
    → (sweep_timeouts now timeout ctx).active_recovery_jobs ≡ 0
unfolding sweep_timeouts
sweep_timeouts-jobs now timeout ctx h =
    settle_leases-jobs now _ _
      (sweep_workers-jobs now timeout ctx.workers ctx.leases ctx.active_recovery_jobs h)

reconcile-IsOrderly : (l : Lease) → IsOrderly l → IsOrderly (record l { state = reconciled })
reconcile-IsOrderly l v = record {
  certain = λ e. cc;
  fresh = λ e. absurd (ground arith);
  once = v.once;
  requeued = λ e. absurd (ground arith);
}

reports-IsSettledDown :
    (id : ℕ) (worker : Bytes) (ctx : Context)
    → IsSettledDown ctx
    → IsSettledDown (process_incoming_result id worker ctx).0
unfolding process_incoming_result
reports-IsSettledDown id worker ctx v = elim (Option-cases (find_first (is_lease id) ctx.leases)) [
  | inl e ↦ rw (e, process_incoming_result) v
  | inr (l, e) ↦
      rw (e, process_incoming_result)
        (elim (Bool-cases (is_stale l.state)) [
          | inl stale ↦ rw stale v
          | inr open_lease ↦ rw open_lease (elim (Bool-cases (str_eq l.assigned_worker_id worker)) [
            | inl same ↦ rw same (record {
              leases =
                  All-update_first IsOrderly (is_lease id) (λ m. record m { state = reconciled })
                    ctx.leases (λ m _ o. reconcile-IsOrderly m o) v.leases;
              jobs = v.jobs;
            })
            | inr other ↦ rw other v
          ])
        ])
]

step-IsSettledDown : (ctx : Context) (c : Call) → IsSettledDown ctx → IsSettledDown (step ctx c)
unfolding step register_worker_heartbeat inject_test_lease process_incoming_result
step-IsSettledDown ctx (heartbeats id now) v = ground arith
step-IsSettledDown ctx (sweeps now timeout) v = record {
  leases =
      rw (sweep_timeouts-swept now timeout ctx).0
        (map-swept-IsOrderly now timeout ctx.workers ctx.leases v.leases);
  jobs = sweep_timeouts-jobs now timeout ctx (omega (arith, v.jobs));
}
step-IsSettledDown ctx (reports id worker) v = reports-IsSettledDown id worker ctx v
step-IsSettledDown ctx (injects lease chunk worker expires policy) v =
    elim (Bool-cases (ltb (length ctx.leases) rec_max_leases)) [
      | inl room ↦ rw room (record {
        leases = All-append IsOrderly ctx.leases _ v.leases (ground arith, tt);
        jobs = v.jobs;
      })
      | inr full ↦ rw full v
    ]

run-IsSettledDown :
    (ctx : Context) (cs : List Call) → IsSettledDown ctx → IsSettledDown (run ctx cs)
unfolding run
run-IsSettledDown ctx [] v = v
run-IsSettledDown ctx (c ∷ cs) v = run-IsSettledDown (step ctx c) cs (step-IsSettledDown ctx c v)

-- After any sequence of calls no lease is uncertain, an active lease has never been retried, no lease
-- was retried more than once, an expired lease is one whose policy permits a retry, and the count of
-- active recovery jobs is 0.
pub run-init-IsSettledDown : (cs : List Call) → IsSettledDown (run init cs)
unfolding init
run-init-IsSettledDown cs = run-IsSettledDown _ cs (record { leases = tt; jobs = refl })
