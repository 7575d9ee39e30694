-- ===== src/Cluster/Reachable.antt =====
-- master/src/cluster_state.c: the state, the journal and the snapshots after any calls.
use void_os_merger.Base.{
  ℕ, zero, suc, ◌<◌, ◌≡◌, refl, none, some, List, [], ◌∷◌, arith, length, All, All-modify,
  length-modify, Bytes, Bool-cases, inl, inr,
}
use void_os_merger.Ring.{Slot, snapshot_ring_size, is_held, next_slot, find_slot, hold, let_go}
use void_os_merger.Cluster.{Snapshot}
use void_os_merger.Cluster.Invariant.{
  IsSound, created-IsSound, register_worker-IsSound, update_lease-IsSound,
  process_heartbeat-IsSound,
}
use void_os_merger.Cluster.Snapshots.{
  System, Journal, Writing, refused, short, whole, Call, registers, leases, heartbeats, persists,
  recovers, acquires, releases, zeroed, create, started, persist_to_wal, recover_from_wal,
  acquire_snapshot, release_snapshot, with_state, step, run,
}

abbrev pub IsSoundJournal : Journal → Type 0
IsSoundJournal none = Unit
IsSoundJournal (some s) = IsSound s

-- The state, the journal and every image in the ring are sound.
pub record IsSoundSystem (sys : System) : Type 0 where
  pub state : IsSound sys.context.master_state
  pub journal : IsSoundJournal sys.journal
  pub images : All (λ slot. IsSound slot.image) sys.context.pool
  pub ring : length sys.context.pool ≡ snapshot_ring_size
  pub tail : sys.context.pool_tail_idx < snapshot_ring_size

pub find_slot_lt :
    (n : ℕ) (pool : List (Slot Snapshot)) (i : ℕ)
    → i < snapshot_ring_size
    → find_slot n pool i < snapshot_ring_size
unfolding find_slot
find_slot_lt zero pool i h = h
find_slot_lt (suc n) pool i h = elim (Bool-cases (is_held pool i)) [
  | inl e ↦ rw e (find_slot_lt n pool (next_slot i) (omega arith))
  | inr e ↦ rw e h
]

zeroed-IsSound : IsSound zeroed
unfolding zeroed
zeroed-IsSound =
    let v = created-IsSound [] 0 in
    record {
      workers_fit = v.workers_fit;
      leases_fit = v.leases_fit;
      workers_distinct = v.workers_distinct;
      leases_distinct = v.leases_distinct;
      metrics = v.metrics;
      status = v.status;
    }

pub started-IsSoundSystem :
    (uuid : Bytes) (epoch : ℕ) (journal : Journal)
    → IsSoundJournal journal
    → IsSoundSystem (started uuid epoch journal)
unfolding started create
started-IsSoundSystem uuid epoch journal h = record {
  state = created-IsSound uuid epoch;
  journal = h;
  images = (zeroed-IsSound, (zeroed-IsSound, (zeroed-IsSound, (zeroed-IsSound, tt))));
  ring = refl;
  tail = omega arith;
}

recover_from_wal-IsSound :
    (journal : Journal) (s : Snapshot)
    → IsSoundJournal journal
    → IsSound s
    → IsSound (recover_from_wal journal s).0
unfolding recover_from_wal
recover_from_wal-IsSound none s j v = v
recover_from_wal-IsSound (some saved) s j v = record {
  workers_fit = j.workers_fit;
  leases_fit = j.leases_fit;
  workers_distinct = j.workers_distinct;
  leases_distinct = j.leases_distinct;
  metrics = j.metrics;
  status = j.status;
}

persist_to_wal-IsSoundJournal :
    (w : Writing) (journal : Journal) (s : Snapshot)
    → IsSoundJournal journal
    → IsSound s
    → IsSoundJournal (persist_to_wal w s journal).0
unfolding persist_to_wal
persist_to_wal-IsSoundJournal refused journal s j v = j
persist_to_wal-IsSoundJournal short journal s j v = tt
persist_to_wal-IsSoundJournal whole journal s j v = v

pub with_state-IsSoundSystem :
    (sys : System) (s : Snapshot) → IsSoundSystem sys → IsSound s → IsSoundSystem (with_state sys s)
with_state-IsSoundSystem sys s v h = record {
  state = h;
  journal = v.journal;
  images = v.images;
  ring = v.ring;
  tail = v.tail;
}

pub step-IsSoundSystem : (sys : System) (c : Call) → IsSoundSystem sys → IsSoundSystem (step sys c)
unfolding step acquire_snapshot release_snapshot hold let_go
step-IsSoundSystem sys (registers w) v =
    with_state-IsSoundSystem sys _ v (register_worker-IsSound w sys.context.master_state v.state)
step-IsSoundSystem sys (leases id status p) v =
    with_state-IsSoundSystem sys _ v
      (update_lease-IsSound id p status sys.context.master_state v.state)
step-IsSoundSystem sys (heartbeats id now) v =
    with_state-IsSoundSystem sys _ v
      (process_heartbeat-IsSound id now sys.context.master_state v.state)
step-IsSoundSystem sys (persists w) v = record {
  state = v.state;
  journal = persist_to_wal-IsSoundJournal w sys.journal sys.context.master_state v.journal v.state;
  images = v.images;
  ring = v.ring;
  tail = v.tail;
}
step-IsSoundSystem sys recovers v =
    with_state-IsSoundSystem sys _ v
      (recover_from_wal-IsSound sys.journal sys.context.master_state v.journal v.state)
step-IsSoundSystem sys acquires v = record {
  state = v.state;
  journal = v.journal;
  images =
      All-modify (λ slot. IsSound slot.image) (hold sys.context.master_state) _ sys.context.pool
        (λ slot _ _. v.state) v.images;
  ring = omega (arith, v.ring, length-modify (hold sys.context.master_state) _ sys.context.pool);
  tail = omega arith;
}
step-IsSoundSystem sys (releases i) v = record {
  state = v.state;
  journal = v.journal;
  images =
      All-modify (λ slot. IsSound slot.image) let_go i sys.context.pool (λ slot _ h. h) v.images;
  ring = omega (arith, v.ring, length-modify let_go i sys.context.pool);
  tail = v.tail;
}

run-IsSoundSystem : (sys : System) (cs : List Call) → IsSoundSystem sys → IsSoundSystem (run sys cs)
unfolding run
run-IsSoundSystem sys [] v = v
run-IsSoundSystem sys (c ∷ cs) v = run-IsSoundSystem (step sys c) cs (step-IsSoundSystem sys c v)

-- From a start with a journal that is sound or cannot be read, after any sequence of calls the
-- state, the journal and each image in the ring of snapshots are sound: there are at most 32
-- workers and 128 leases, with distinct ids, the aggregates are the sums over the workers that are
-- not offline, and the cluster is still starting up exactly as long as it has no worker.
pub run-started-IsSoundSystem :
    (uuid : Bytes) (epoch : ℕ) (journal : Journal) (cs : List Call)
    → IsSoundJournal journal
    → IsSoundSystem (run (started uuid epoch journal) cs)
run-started-IsSoundSystem uuid epoch journal cs h =
    run-IsSoundSystem _ cs (started-IsSoundSystem uuid epoch journal h)
