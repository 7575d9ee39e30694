-- ===== src/Cluster/Invariant.antt =====
-- master/src/cluster_state.c: what holds of the state of the cluster after each call.
use void_os_merger.Base.{
  ℕ, ◌≤◌, ◌≡◌, refl, true, ◌↔◌, List, [], ◌∷◌, ◌++◌, arith, if◌then◌else◌, is_some, Bool-cases, inl,
  inr, find_first, update_first, length, map, count, length-append, length-update_first,
  map-update_first, count-map_fresh, leb, Bytes, ◌&&◌,
}
use void_os_merger.Cluster.{
  Snapshot, WorkerMember, LeaseStatus, is_worker, is_lease, seen, set_lease, blank_lease, created,
  no_metrics, is_bootstrap, operational, process_heartbeat, update_lease, register_worker,
  recalculate_aggregates, cluster_max_active_leases, cluster_max_workers,
}
use void_os_merger.Cluster.Metrics.{IsTotal, total, recalculate_aggregates-IsTotal}

worker_ids : Snapshot → List ℕ
worker_ids s = map (λ w. w.worker_id) s.active_workers

lease_ids : Snapshot → List ℕ
lease_ids s = map (λ l. l.chunk_id) s.active_leases

pub record IsSound (s : Snapshot) : Type 0 where
  pub workers_fit : length s.active_workers ≤ cluster_max_workers
  pub leases_fit : length s.active_leases ≤ cluster_max_active_leases
  pub workers_distinct : (id : ℕ) → count id (map (λ w. w.worker_id) s.active_workers) ≤ 1
  pub leases_distinct : (id : ℕ) → count id (map (λ l. l.chunk_id) s.active_leases) ≤ 1
  pub metrics : IsTotal s.active_workers s.metrics
  pub status : (is_bootstrap s.global_status ≡ true) ↔ (length s.active_workers ≡ 0)

pub created-IsSound : (uuid : Bytes) (epoch : ℕ) → IsSound (created uuid epoch)
unfolding created no_metrics count total
created-IsSound uuid epoch = record {
  workers_fit = omega arith;
  leases_fit = omega arith;
  workers_distinct = λ id. omega arith;
  leases_distinct = λ id. omega arith;
  metrics = record {
    memory = omega arith;
    allocated_memory = omega arith;
    cores = omega arith;
    allocated_cores = omega arith;
    workers = omega arith;
  };
  status = (λ e. refl, λ e. refl);
}

-- Aggregates computed anew are right whatever they were.
recalculated-IsSound :
    (s : Snapshot)
    → length s.active_workers ≤ cluster_max_workers
    → length s.active_leases ≤ cluster_max_active_leases
    → ((id : ℕ) → count id (worker_ids s) ≤ 1)
    → ((id : ℕ) → count id (lease_ids s) ≤ 1)
    → ((is_bootstrap s.global_status ≡ true) ↔ (length s.active_workers ≡ 0))
    → IsSound (recalculate_aggregates s)
unfolding recalculate_aggregates worker_ids lease_ids
recalculated-IsSound s wf lf wd ld st = record {
  workers_fit = wf;
  leases_fit = lf;
  workers_distinct = wd;
  leases_distinct = ld;
  metrics = recalculate_aggregates-IsTotal s;
  status = st;
}

operates :
    (w : WorkerMember) (s : Snapshot)
    → IsSound s
    → (is_bootstrap (
          if is_bootstrap s.global_status && leb 1 (length (s.active_workers ++ w ∷ []))
          then operational
          else s.global_status)
        ≡ true)
      ↔ (length (s.active_workers ++ w ∷ []) ≡ 0)
operates w s v = ground (arith, v.status, length-append s.active_workers (w ∷ []))

pub register_worker-IsSound :
    (w : WorkerMember) (s : Snapshot) → IsSound s → IsSound (register_worker w s).0
unfolding register_worker worker_ids lease_ids
register_worker-IsSound w s v =
    elim (Bool-cases (leb cluster_max_workers (length s.active_workers))) [
      | inl full ↦ rw full v
      | inr room ↦
          rw room
            (elim (Bool-cases (is_some (find_first (is_worker w.worker_id) s.active_workers))) [
              | inl e ↦ rw e v
              | inr e ↦ rw e (
                  recalculated-IsSound _ (ground (arith, length-append s.active_workers (w ∷ [])))
                    v.leases_fit
                    (count-map_fresh (λ m. m.worker_id) w s.active_workers e v.workers_distinct)
                    v.leases_distinct (operates w s v))
            ])
    ]

pub update_lease-IsSound :
    (id p : ℕ) (st : LeaseStatus) (s : Snapshot) → IsSound s → IsSound (update_lease id st p s).0
unfolding update_lease set_lease blank_lease
update_lease-IsSound id p st s v =
    elim (Bool-cases (is_some (find_first (is_lease id) s.active_leases))) [
      | inl e ↦ rw e (record {
        workers_fit = v.workers_fit;
        leases_fit = omega (
          arith,
          v.leases_fit,
          length-update_first (is_lease id) (set_lease st p) s.active_leases,
        );
        workers_distinct = v.workers_distinct;
        leases_distinct = λ k.
            rw
              (map-update_first (λ l. l.chunk_id) (is_lease id) (set_lease st p) (λ l. refl)
                s.active_leases)
              (v.leases_distinct k);
        metrics = v.metrics;
        status = v.status;
      })
      | inr e ↦ rw e (elim (Bool-cases (leb cluster_max_active_leases (length s.active_leases))) [
        | inl full ↦ rw full v
        | inr room ↦ rw room (record {
          workers_fit = v.workers_fit;
          leases_fit =
              ground (arith, length-append s.active_leases (set_lease st p (blank_lease id) ∷ []));
          workers_distinct = v.workers_distinct;
          leases_distinct =
              count-map_fresh (λ l. l.chunk_id) (set_lease st p (blank_lease id)) s.active_leases e
                v.leases_distinct;
          metrics = v.metrics;
          status = v.status;
        })
      ])
    ]

pub process_heartbeat-IsSound :
    (id now : ℕ) (s : Snapshot) → IsSound s → IsSound (process_heartbeat id now s).0
unfolding process_heartbeat worker_ids lease_ids seen
process_heartbeat-IsSound id now s v =
    elim (Bool-cases (is_some (find_first (is_worker id) s.active_workers))) [
      | inl e ↦ rw e (
          recalculated-IsSound _ (omega (arith, v.workers_fit, same)) v.leases_fit
            (λ k.
              rw
                (map-update_first (λ w. w.worker_id) (is_worker id) (seen now) (λ w. refl)
                  s.active_workers)
                (v.workers_distinct k))
            v.leases_distinct (rw same v.status))
      | inr e ↦ rw e v
    ]
  where
    same :
        length (update_first (is_worker id) (seen now) s.active_workers) ≡ length s.active_workers
    same = length-update_first (is_worker id) (seen now) s.active_workers
