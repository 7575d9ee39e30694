-- ===== src/Ui/Faithful.antt =====
-- ui/src/model.c: each worker and each lease of the snapshot, beside what the view shows of it.
use void_os_merger.Base.{
  ℕ, zero, suc, ◌+◌, ◌≤◌, ◌<◌, ◌≡◌, ◌↔◌, refl, sym, ◌∙◌, ap, subst, true, false, List, [], ◌∷◌,
  ◌++◌, arith, ltb, leb, length, take, take_all, map, strncpy, append_nil, append_assoc, Bool-cases,
  inl, inr, length-append, Both, Both-map, length-take_le, length-map,
}
use void_os_merger.Ui.{
  online, draining, offline, LeaseStatus, ClusterStatus, bootstrap, operational, degraded,
  maintenance, panic, ok, crit, Platform, WorkerMember, ChunkLease, Snapshot, NodeRecord,
  TaskRecord, ViewModel, node_health, lease_text, percentage, node_of, task_of, node_loop,
  task_loop, limited, ui_max_nodes, ui_max_active_tasks, ui_max_active_leases, ui_short_string_len,
  summary_health_of, global_text, ui_model_transform_snapshot, idle, assigned, executing, committed,
  timed_out, failed,
}

lease_text_injective : (s t : LeaseStatus) → lease_text s ≡ lease_text t → s ≡ t
lease_text_injective s t e = ground arith

global_text_injective : (s t : ClusterStatus) → global_text s ≡ global_text t → s ≡ t
global_text_injective s t e = ground arith

-- The texts fit in their fields.
short_lease_text : (s : LeaseStatus) → strncpy ui_short_string_len (lease_text s) ≡ lease_text s
short_lease_text idle = refl
short_lease_text assigned = refl
short_lease_text executing = refl
short_lease_text committed = refl
short_lease_text timed_out = refl
short_lease_text failed = refl

short_global_text :
    (s : ClusterStatus) → strncpy ui_short_string_len (global_text s) ≡ global_text s
short_global_text bootstrap = refl
short_global_text operational = refl
short_global_text degraded = refl
short_global_text maintenance = refl
short_global_text panic = refl

module _ {D F : Type 0} (platform : Platform D F) where
  -- What a percentage shows of its two numbers.
  pub record IsPercentage (used total : ℕ) (pct : D) : Type 0 where
    pub whole : total ≡ 0 → pct ≡ platform.zeroed
    pub part :
        0 < total
        → pct
          ≡ platform.product
              (platform.quotient (platform.double used) (platform.double total))
              (platform.double 100)

  percentage-IsPercentage :
      (used total : ℕ) → IsPercentage used total (percentage platform used total)
  unfolding percentage
  percentage-IsPercentage used total = record {
    whole = λ h. ground arith;
    part = λ h. ground arith;
  }

  pub record IsNodeOf (now : ℕ) (w : WorkerMember) (n : NodeRecord D) : Type 0 where
    pub identified : n.node_id ≡ w.worker_id
    pub named : n.display_name ≡ take 31 w.hostname
    pub alarmed : (n.health ≡ crit) ↔ (w.health ≡ offline)
    pub healthy : (n.health ≡ ok) ↔ (w.health ≡ online)
    pub drains : (n.is_draining ≡ true) ↔ (w.health ≡ draining)
    pub aged :
        w.last_heartbeat_monotonic_ms ≤ now
        → n.ms_since_last_heartbeat + w.last_heartbeat_monotonic_ms ≡ now
    pub ahead : now < w.last_heartbeat_monotonic_ms → n.ms_since_last_heartbeat ≡ 0
    pub memory :
        IsPercentage w.resources.reserved_memory_bytes w.resources.total_memory_bytes
          n.memory_utilization_pct
    pub cores :
        IsPercentage w.resources.reserved_cores w.resources.total_cores n.cpu_utilization_pct

  node_of-IsNodeOf : (now : ℕ) (w : WorkerMember) → IsNodeOf now w (node_of platform now w)
  unfolding node_of node_health
  node_of-IsNodeOf now w = record {
    identified = refl;
    named = refl;
    alarmed = ground arith;
    healthy = ground arith;
    drains = ground arith;
    aged = λ h. ground arith;
    ahead = λ h. ground arith;
    memory = percentage-IsPercentage _ _;
    cores = percentage-IsPercentage _ _;
  }

  pub record IsTaskOf (l : ChunkLease F) (t : TaskRecord F) : Type 0 where
    pub chunk : t.chunk_id ≡ l.chunk_id
    pub workload : t.workload_id ≡ l.workload_id
    pub assigned_to : t.assigned_node_id ≡ l.assigned_worker_id
    pub told : (st : LeaseStatus) → (t.status_text ≡ lease_text st) ↔ (l.status ≡ st)
    pub progress : t.progress_normalized ≡ platform.normalized l.progress_percentage
    pub attention : (t.requires_attention ≡ true) ↔ (3 ≤ l.failure_retry_count)

  task_of-IsTaskOf : (l : ChunkLease F) → IsTaskOf l (task_of platform l)
  unfolding task_of
  task_of-IsTaskOf l = record {
    chunk = refl;
    workload = refl;
    assigned_to = refl;
    told = λ st. (
      λ e. lease_text_injective l.status st (sym (short_lease_text l.status) ∙ e),
      λ e. short_lease_text l.status ∙ ap lease_text e,
    );
    progress = refl;
    attention = ground arith;
  }

  node_loop-map :
      (n now : ℕ) (ws : List WorkerMember) (nodes : List (NodeRecord D))
      → node_loop platform n now ws nodes ≡ nodes ++ map (node_of platform now) (take n ws)
  unfolding node_loop
  node_loop-map zero now ws nodes = sym (append_nil nodes)
  node_loop-map (suc n) now [] nodes = sym (append_nil nodes)
  node_loop-map (suc n) now (w ∷ ws) nodes =
      node_loop-map n now ws (nodes ++ node_of platform now w ∷ [])
      ∙ append_assoc nodes (node_of platform now w ∷ []) _

  -- The loop breaks where the table is full; with no more rounds than places it never does.
  task_loop-map :
      (n : ℕ) (ls : List (ChunkLease F)) (tasks : List (TaskRecord F))
      → length tasks + n ≤ ui_max_active_tasks
      → task_loop platform n ls tasks ≡ tasks ++ map (task_of platform) (take n ls)
  unfolding task_loop
  task_loop-map zero ls tasks h = sym (append_nil tasks)
  task_loop-map (suc n) [] tasks h = sym (append_nil tasks)
  task_loop-map (suc n) (l ∷ ls) tasks h =
      let room : leb ui_max_active_tasks (length tasks) ≡ false = ground (arith, h) in
      let added = tasks ++ task_of platform l ∷ [] in
      rw room (
        task_loop-map n ls added (omega (arith, h, length-append tasks (task_of platform l ∷ [])))
        ∙ append_assoc tasks (task_of platform l ∷ []) _)

take-limited :
    {A : Type 0} (xs : List A) (limit : ℕ) → take (limited (length xs) limit) xs ≡ take limit xs
take-limited xs limit = elim (Bool-cases (ltb (length xs) limit)) [
  | inl e ↦ rw e (take_all (length xs) xs (omega arith) ∙ sym (take_all limit xs (ground arith)))
  | inr e ↦ rw e refl
]

module _ {D F : Type 0} (platform : Platform D F) where
  pub record IsViewOf (s : Snapshot F) (now : ℕ) (v : ViewModel D F) : Type 0 where
    pub nodes_shown : Both (IsNodeOf platform now) (take ui_max_nodes s.active_workers) v.nodes
    pub tasks_shown : Both (IsTaskOf platform) (take ui_max_active_tasks s.active_leases) v.tasks
    pub nodes_fit : length v.nodes ≤ ui_max_nodes
    pub tasks_fit : length v.tasks ≤ ui_max_active_tasks
    pub alarm : (v.summary_health ≡ crit) ↔ (s.global_status ≡ panic)
    pub calm : (v.summary_health ≡ ok) ↔ (s.global_status ≡ operational)
    pub told :
        (st : ClusterStatus) → (v.operational_status_text ≡ global_text st) ↔ (s.global_status ≡ st)
    pub cpu :
        IsPercentage platform s.metrics.cluster_allocated_cores s.metrics.cluster_aggregate_cores
          v.cluster_overall_cpu_pct

  shown_nodes :
      (s : Snapshot F) (now : ℕ)
      → (ui_model_transform_snapshot platform s now).nodes
        ≡ map (node_of platform now) (take ui_max_nodes s.active_workers)
  unfolding ui_model_transform_snapshot
  shown_nodes s now =
      node_loop-map platform _ now s.active_workers []
      ∙ ap (map (node_of platform now)) (take-limited s.active_workers ui_max_nodes)

  shown_tasks :
      (s : Snapshot F) (now : ℕ)
      → (ui_model_transform_snapshot platform s now).tasks
        ≡ map (task_of platform) (take ui_max_active_tasks s.active_leases)
  unfolding ui_model_transform_snapshot
  shown_tasks s now =
      task_loop-map platform _ s.active_leases [] (ground arith)
      ∙ ap (map (task_of platform)) (take-limited s.active_leases ui_max_active_leases)

  -- The view shows of each of the first 64 workers and 256 leases, in their places, what the snapshot says of
  -- it, a name cut to 31 bytes: the node is critical exactly if the worker is offline, fine exactly if it is online, draining exactly
  -- if it drains, with the time since its heartbeat, or 0 if that is ahead, and the parts in use; the text of
  -- a task tells the status of its lease and it asks for attention exactly after three retries. Both tables
  -- keep to their sizes, and the summary is critical exactly in a panic and tells the status of the cluster.
  pub ui_model_transform_snapshot-IsViewOf :
      (s : Snapshot F) (now : ℕ) → IsViewOf s now (ui_model_transform_snapshot platform s now)
  ui_model_transform_snapshot-IsViewOf s now = record {
    nodes_shown =
        subst (Both (IsNodeOf platform now) _) (sym (shown_nodes s now))
          (Both-map _ (node_of platform now) (node_of-IsNodeOf platform now) _);
    tasks_shown =
        subst (Both (IsTaskOf platform) _) (sym (shown_tasks s now))
          (Both-map _ (task_of platform) (task_of-IsTaskOf platform) _);
    nodes_fit =
        rw
          (
            shown_nodes s now,
            length-map (node_of platform now) (take ui_max_nodes s.active_workers),
          )
          (length-take_le ui_max_nodes s.active_workers);
    tasks_fit =
        rw
          (
            shown_tasks s now,
            length-map (task_of platform) (take ui_max_active_tasks s.active_leases),
          )
          (length-take_le ui_max_active_tasks s.active_leases);
    alarm = unfold ui_model_transform_snapshot summary_health_of in ground arith;
    calm = unfold ui_model_transform_snapshot summary_health_of in ground arith;
    told =
        unfold ui_model_transform_snapshot in
        λ st. (
          λ e.
              global_text_injective s.global_status st
                (sym (short_global_text s.global_status) ∙ e),
          λ e. short_global_text s.global_status ∙ ap global_text e,
        );
    cpu = unfold ui_model_transform_snapshot in percentage-IsPercentage platform _ _;
  }
