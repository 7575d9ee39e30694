-- ===== src/Recovery.antt =====
-- master/src/recovery.c: heartbeats of workers, leases on chunks, the sweep that finds lost workers
-- and expired leases, and the results that workers report. The mutex makes each call one step, and
-- no pointer argument is NULL. `Timeouts` has the sweep and the sequences
-- of calls, `Sweep` is about the sweep, `Results` about reported results,
-- `Telemetry` about the counters and flags for the dashboard, `Identity` about long worker names.
pub mod Timeouts
pub mod Passes
pub mod Sweep
pub mod Results
pub mod Telemetry
pub mod Identity
mod Tests
use void_os_merger.Base.{
  ℕ, suc, ◌+◌, ◌-◌, Bool, true, false, not, ◌&&◌, ◌||◌, Option, none, some, List, [], ◌∷◌, ◌++◌,
  ltb, leb, ◌==◌, if◌then◌else◌, is_some, length, find_first, update_first, map, add32, sub64,
  Bytes, str_eq, strncpy,
}

abbrev pub rec_max_workers : ℕ
rec_max_workers = 64

abbrev pub rec_max_leases : ℕ
rec_max_leases = 128

abbrev pub rec_name_max : ℕ
rec_name_max = 64

pub data RetryAction : Type 0 where
  retry_none retry_immediate retry_backoff retry_replan : RetryAction

pub data UiHealth : Type 0 where
  health_ok health_warn health_critical : UiHealth

pub data LeaseState : Type 0 where
  active uncertain expired reconciled : LeaseState

pub record Lease : Type 0 where
  pub lease_id : ℕ
  pub chunk_id : ℕ
  pub workload_id : ℕ
  pub assigned_worker_id : Bytes
  pub lease_expires_ms : ℕ
  pub state : LeaseState
  pub retry_count : ℕ
  pub retry_policy : RetryAction

pub record WorkerObs : Type 0 where
  pub worker_id : Bytes
  pub last_heartbeat_ms : ℕ
  pub is_healthy : Bool

-- The text `operational_status_text` takes two values, named here.
pub data StatusText : Type 0 where
  healthy degraded_recovering : StatusText

pub record Context : Type 0 where
  pub workers : List WorkerObs
  pub leases : List Lease
  pub summary_health : UiHealth
  pub operational_status_text : StatusText
  pub active_recovery_jobs : ℕ

unfoldable pub init : Context
init = record {
  workers = [];
  leases = [];
  summary_health = health_ok;
  operational_status_text = healthy;
  active_recovery_jobs = 0;
}

abbrev pub has_id : Bytes → WorkerObs → Bool
has_id id w = str_eq w.worker_id id

unfoldable pub register_worker_heartbeat : Bytes → ℕ → Context → Context
register_worker_heartbeat id now ctx =
    if is_some (find_first (has_id id) ctx.workers)
    then record ctx {
      workers =
          update_first (has_id id) (λ w. record w { last_heartbeat_ms = now; is_healthy = true })
            ctx.workers;
    }
    else if ltb (length ctx.workers) rec_max_workers
    then record ctx {
      workers =
          ctx.workers
          ++ record {
            worker_id = strncpy rec_name_max id;
            last_heartbeat_ms = now;
            is_healthy = true;
          }
            ∷ [];
    }
    else ctx

abbrev pub is_active : LeaseState → Bool
is_active active = true
is_active _ = false

abbrev pub is_uncertain : LeaseState → Bool
is_uncertain uncertain = true
is_uncertain _ = false

abbrev pub permits_retry : RetryAction → Bool
permits_retry retry_none = false
permits_retry _ = true

abbrev pub is_lease : ℕ → Lease → Bool
is_lease id l = l.lease_id == id

abbrev pub is_stale : LeaseState → Bool
is_stale expired = true
is_stale reconciled = true
is_stale _ = false

-- The result's hash is only printed. The Boolean is what the call returns.
unfoldable pub process_incoming_result : ℕ → Bytes → Context → Context × Bool
process_incoming_result id worker ctx = elim (find_first (is_lease id) ctx.leases) [
  | none ↦ (ctx, false)
  | some l ↦
      if is_stale l.state
      then (ctx, false)
      else if not (str_eq l.assigned_worker_id worker)
      then (ctx, false)
      else (
        record ctx {
          leases = update_first (is_lease id) (λ m. record m { state = reconciled }) ctx.leases;
        },
        true,
      )
]

unfoldable pub inject_test_lease : ℕ → ℕ → Bytes → ℕ → RetryAction → Context → Context
inject_test_lease lease_id chunk_id worker_id expires_ms policy ctx =
    if ltb (length ctx.leases) rec_max_leases
    then record ctx {
      leases =
          ctx.leases
          ++ record {
            lease_id = lease_id;
            chunk_id = chunk_id;
            workload_id = 999;
            assigned_worker_id = strncpy rec_name_max worker_id;
            lease_expires_ms = expires_ms;
            state = active;
            retry_count = 0;
            retry_policy = policy;
          }
            ∷ [];
    }
    else ctx
