-- ===== src/Cluster/Snapshots.antt =====
-- master/src/cluster_state.c: the journal, the ring of snapshots, and the calls in any order.
use void_os_merger.Base.{
  ℕ, Bool, true, false, Option, none, some, List, [], ◌∷◌, replicate, modify, add64, Bytes,
}
use void_os_merger.Ring.{Slot, snapshot_ring_size, next_slot, find_slot, hold, let_go}
use void_os_merger.Cluster.{
  Snapshot, WorkerMember, LeaseStatus, created, register_worker, update_lease, process_heartbeat,
}

pub record Context : Type 0 where
  pub master_state : Snapshot
  pub pool : List (Slot Snapshot)
  pub pool_tail_idx : ℕ

unfoldable pub zeroed : Snapshot
zeroed = record (created [] 0) { state_generation_version = 0 }

unfoldable pub create : Bytes → ℕ → Context
create uuid epoch = record {
  master_state = created uuid epoch;
  pool = replicate snapshot_ring_size (record { image = zeroed; ref_count = 0 });
  pool_tail_idx = 0;
}

-- The journal file: none if it cannot be read as one snapshot.
abbrev pub Journal : Type 0
Journal = Option Snapshot

-- What the file system does when the journal is written: it does not open the file, writes less than
-- the whole snapshot, or writes it all.
pub data Writing : Type 0 where
  refused short whole : Writing

unfoldable pub persist_to_wal : Writing → Snapshot → Journal → Journal × Bool
persist_to_wal refused s journal = (journal, false)
persist_to_wal short s journal = (none, false)
persist_to_wal whole s journal = (some s, true)

unfoldable pub recover_from_wal : Journal → Snapshot → Snapshot × Bool
recover_from_wal none s = (s, false)
recover_from_wal (some saved) s =
    (record saved { state_generation_version = add64 saved.state_generation_version 1 }, true)

-- The number is the slot of the pointer that is returned.
unfoldable pub acquire_snapshot : Context → Context × ℕ
acquire_snapshot ctx =
    let slot = find_slot snapshot_ring_size ctx.pool ctx.pool_tail_idx in
    (
      record ctx {
        pool = modify (hold ctx.master_state) slot ctx.pool;
        pool_tail_idx = next_slot slot;
      },
      slot,
    )

-- A pointer to no slot of the ring is a number that is out of range.
unfoldable pub release_snapshot : ℕ → Context → Context
release_snapshot i ctx = record ctx { pool = modify let_go i ctx.pool }

pub record System : Type 0 where
  pub context : Context
  pub journal : Journal

pub data Call : Type 0 where
  registers : WorkerMember → Call
  leases : ℕ → LeaseStatus → ℕ → Call
  heartbeats : ℕ → ℕ → Call
  persists : Writing → Call
  recovers : Call
  acquires : Call
  releases : ℕ → Call

abbrev pub with_state : System → Snapshot → System
with_state sys s = record sys { context = record (sys.context) { master_state = s } }

unfoldable pub step : System → Call → System
step sys (registers w) = with_state sys (register_worker w sys.context.master_state).0
step sys (leases id status progress) =
    with_state sys (update_lease id status progress sys.context.master_state).0
step sys (heartbeats id now) = with_state sys (process_heartbeat id now sys.context.master_state).0
step sys (persists w) = record sys {
  journal = (persist_to_wal w sys.context.master_state sys.journal).0;
}
step sys recovers = with_state sys (recover_from_wal sys.journal sys.context.master_state).0
step sys acquires = record sys { context = (acquire_snapshot sys.context).0 }
step sys (releases i) = record sys { context = release_snapshot i sys.context }

unfoldable pub run : System → List Call → System
run sys [] = sys
run sys (c ∷ cs) = run (step sys c) cs

-- A master that has just started, with whatever journal is there.
unfoldable pub started : Bytes → ℕ → Journal → System
started uuid epoch journal = record { context = create uuid epoch; journal = journal }
