-- ===== src/Recovery/Timeouts.antt =====
-- master/src/recovery.c: `vom_recovery_sweep_timeouts`, and the calls of the module in any order.
use void_os_merger.Base.{
  ℕ, suc, ◌-◌, Bool, false, not, ◌&&◌, ◌||◌, List, [], ◌∷◌, ltb, leb, if◌then◌else◌, map, add32,
  sub64, Bytes, str_eq,
}
use void_os_merger.Recovery.{
  RetryAction, health_ok, health_warn, uncertain, expired, reconciled, Lease, WorkerObs, healthy,
  degraded_recovering, Context, is_active, is_uncertain, permits_retry, register_worker_heartbeat,
  process_incoming_result, inject_test_lease,
}

-- A healthy worker with no heartbeat within the window; the difference of the times wraps.
unfoldable pub is_lost : ℕ → ℕ → WorkerObs → Bool
is_lost now timeout w = w.is_healthy && ltb timeout (sub64 now w.last_heartbeat_ms)

abbrev pub active_on : Bytes → Lease → Bool
active_on id l = str_eq l.assigned_worker_id id && is_active l.state

-- The loop that marks the active leases of a lost worker, and how many it marks.
unfoldable pub mark_uncertain : Bytes → List Lease → List Lease
mark_uncertain id = map λ l. if active_on id l then record l { state = uncertain } else l

unfoldable pub count_active_on : Bytes → List Lease → ℕ
count_active_on id [] = 0
count_active_on id (l ∷ ls) =
    if active_on id l then suc (count_active_on id ls) else count_active_on id ls

-- The workers, leases and count of jobs that the loops of a sweep change.
pub record Observed : Type 0 where
  pub workers : List WorkerObs
  pub leases : List Lease
  pub jobs : ℕ

-- One round of the loop over the workers, for its leases and count.
unfoldable pub lose : ℕ → ℕ → WorkerObs → List Lease → ℕ → List Lease × ℕ
unfolding is_lost mark_uncertain count_active_on
lose now timeout w leases jobs =
    if is_lost now timeout w
    then (mark_uncertain w.worker_id leases, add32 jobs (count_active_on w.worker_id leases))
    else (leases, jobs)

unfoldable pub observe : ℕ → ℕ → WorkerObs → WorkerObs
observe now timeout w = if is_lost now timeout w then record w { is_healthy = false } else w

-- The loop over the workers.
unfoldable pub sweep_workers : ℕ → ℕ → List WorkerObs → List Lease → ℕ → Observed
sweep_workers now timeout [] leases jobs = record { workers = []; leases = leases; jobs = jobs }
sweep_workers now timeout (w ∷ ws) leases jobs =
    let lost = lose now timeout w leases jobs in
    let rest = sweep_workers now timeout ws lost.0 lost.1 in
    record rest { workers = observe now timeout w ∷ rest.workers }

unfoldable pub is_degraded : List WorkerObs → Bool
is_degraded [] = false
is_degraded (w ∷ ws) = not w.is_healthy || is_degraded ws

unfoldable pub is_due : ℕ → Lease → Bool
is_due now l = is_uncertain l.state || (is_active l.state && ltb l.lease_expires_ms now)

-- Requeue or terminate.
unfoldable pub settle : Lease → Lease
settle l =
    let retries = add32 l.retry_count 1 in
    record l {
      retry_count = retries;
      state = if permits_retry l.retry_policy && leb retries 3 then expired else reconciled;
    }

-- The loop over the leases. The count of jobs falls by one for each due lease, unless it is 0.
unfoldable pub settle_leases : ℕ → List Lease → ℕ → List Lease × ℕ
settle_leases now [] jobs = ([], jobs)
settle_leases now (l ∷ ls) jobs =
    let due = is_due now l in
    let rest = settle_leases now ls (if due then jobs - 1 else jobs) in
    ((if due then settle l else l) ∷ rest.0, rest.1)

unfoldable pub sweep_timeouts : ℕ → ℕ → Context → Context
sweep_timeouts now timeout ctx =
    let observed = sweep_workers now timeout ctx.workers ctx.leases ctx.active_recovery_jobs in
    let settled = settle_leases now observed.leases observed.jobs in
    let degraded = is_degraded observed.workers in
    record {
      workers = observed.workers;
      leases = settled.0;
      summary_health = if degraded then health_warn else health_ok;
      operational_status_text = if degraded then degraded_recovering else healthy;
      active_recovery_jobs = settled.1;
    }

-- The calls of the module, in any order.
pub data Call : Type 0 where
  heartbeats : Bytes → ℕ → Call
  sweeps : ℕ → ℕ → Call
  reports : ℕ → Bytes → Call
  injects : ℕ → ℕ → Bytes → ℕ → RetryAction → Call

unfoldable pub step : Context → Call → Context
step ctx (heartbeats id now) = register_worker_heartbeat id now ctx
step ctx (sweeps now timeout) = sweep_timeouts now timeout ctx
step ctx (reports id worker) = (process_incoming_result id worker ctx).0
step ctx (injects lease chunk worker expires policy) =
    inject_test_lease lease chunk worker expires policy ctx

unfoldable pub run : Context → List Call → Context
run ctx [] = ctx
run ctx (c ∷ cs) = run (step ctx c) cs
