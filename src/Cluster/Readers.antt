-- ===== src/Cluster/Readers.antt =====
-- master/src/cluster_state.c: what readers of snapshots see, and the journal.
use void_os_merger.Base.{ℕ, ◌<◌, ◌≡◌, ◌≢◌, ◌∙◌, true, some, List, [], ◌∷◌, arith, get_elem?, add32}
use void_os_merger.Ring.{Slot, snapshot_ring_size, is_held, next_slot, find_slot, hold, let_go}
use void_os_merger.Cluster.{Snapshot}
use void_os_merger.Cluster.Reachable.{IsSoundSystem}
use void_os_merger.Cluster.Snapshots.{
  Context, acquire_snapshot, System, Call, registers, leases, heartbeats, persists, recovers,
  acquires, releases, step, run, release_snapshot,
}
use void_os_merger.Cluster.Ring.{
  HasRoom, IsReading, get_elem?-modify_other, get_elem?-modify, acquire_snapshot-IsReading,
  acquire_snapshot-keeps,
}

-- A snapshot that a reader does not release is not released by others, and is acquired with room.
abbrev pub RespectsReader : ℕ → System → Call → Type 0
RespectsReader t sys acquires = HasRoom sys.context
RespectsReader t sys (releases i) = i ≢ t
RespectsReader t sys (registers w) = Unit
RespectsReader t sys (leases id status p) = Unit
RespectsReader t sys (heartbeats id now) = Unit
RespectsReader t sys (persists w) = Unit
RespectsReader t sys recovers = Unit

unfoldable pub AllRespectReader : ℕ → System → List Call → Type 0
AllRespectReader t sys [] = Unit
AllRespectReader t sys (c ∷ cs) = RespectsReader t sys c × AllRespectReader t (step sys c) cs

step-IsReading :
    (t : ℕ) (s : Snapshot) (sys : System) (c : Call)
    → sys.context.pool_tail_idx < snapshot_ring_size
    → RespectsReader t sys c
    → IsReading t s sys.context.pool
    → IsReading t s (step sys c).context.pool
unfolding step release_snapshot
step-IsReading t s sys (registers w) h r v = v
step-IsReading t s sys (leases id status p) h r v = v
step-IsReading t s sys (heartbeats id now) h r v = v
step-IsReading t s sys (persists w) h r v = v
step-IsReading t s sys recovers h r v = v
step-IsReading t s sys acquires h r v = acquire_snapshot-keeps t s sys.context h r v
step-IsReading t s sys (releases i) h r v = record {
  slot = v.slot;
  stands = get_elem?-modify_other let_go i t sys.context.pool r ∙ v.stands;
  shows = v.shows;
  counted = v.counted;
}

step-tail :
    (sys : System) (c : Call)
    → sys.context.pool_tail_idx < snapshot_ring_size
    → (step sys c).context.pool_tail_idx < snapshot_ring_size
unfolding step acquire_snapshot release_snapshot
step-tail sys (registers w) h = h
step-tail sys (leases id status p) h = h
step-tail sys (heartbeats id now) h = h
step-tail sys (persists w) h = h
step-tail sys recovers h = h
step-tail sys acquires h = omega arith
step-tail sys (releases i) h = h

run-IsReading :
    (t : ℕ) (s : Snapshot) (sys : System) (cs : List Call)
    → sys.context.pool_tail_idx < snapshot_ring_size
    → AllRespectReader t sys cs
    → IsReading t s sys.context.pool
    → IsReading t s (run sys cs).context.pool
unfolding run AllRespectReader
run-IsReading t s sys [] h r v = v
run-IsReading t s sys (c ∷ cs) h r v =
    run-IsReading t s (step sys c) cs (step-tail sys c h) r.1 (step-IsReading t s sys c h r.0 v)

-- In a sound system with a slot of the ring that is not held, a snapshot that is acquired shows
-- the state of that moment, and goes on to show it through any calls, changes of the state among
-- them, as long as its slot is not released and each further snapshot is acquired while some slot
-- is not held.
pub acquire_snapshot-IsReading_on :
    (sys : System) (cs : List Call)
    → IsSoundSystem sys
    → HasRoom sys.context
    → let t = (acquire_snapshot sys.context).1 in
      AllRespectReader t (step sys acquires) cs
      → IsReading t sys.context.master_state (run (step sys acquires) cs).context.pool
unfolding step
acquire_snapshot-IsReading_on sys cs v room h =
    run-IsReading (acquire_snapshot sys.context).1 sys.context.master_state (step sys acquires) cs
      (step-tail sys acquires v.tail) h (acquire_snapshot-IsReading sys.context v.ring v.tail room)

-- When all four slots are held, the next snapshot overwrites the one in the slot at the tail, which a
-- reader still holds: it shows the new state.
pub acquire_snapshot_full :
    (ctx : Context) (slot : Slot Snapshot)
    → ((i : ℕ) → i < snapshot_ring_size → is_held ctx.pool i ≡ true)
    → ctx.pool_tail_idx < snapshot_ring_size
    → get_elem? ctx.pool ctx.pool_tail_idx ≡ some slot
    → ((acquire_snapshot ctx).1 ≡ ctx.pool_tail_idx)
      × (get_elem? (acquire_snapshot ctx).0.pool ctx.pool_tail_idx
          ≡ some (record { image = ctx.master_state; ref_count = add32 slot.ref_count 1 }))
unfolding acquire_snapshot hold
acquire_snapshot_full ctx slot h tail e =
    let same = comes_back ctx.pool ctx.pool_tail_idx tail h in
    (same, rw same (get_elem?-modify (hold ctx.master_state) ctx.pool_tail_idx ctx.pool slot e))
  where
    comes_back :
        (pool : List (Slot Snapshot)) (t : ℕ)
        → t < snapshot_ring_size
        → ((i : ℕ) → i < snapshot_ring_size → is_held pool i ≡ true)
        → find_slot snapshot_ring_size pool t ≡ t
    comes_back pool t ht h =
        unfold find_slot in
        rw
          (
            h t ht,
            h (next_slot t) (omega arith),
            h (next_slot (next_slot t)) (omega arith),
            h (next_slot (next_slot (next_slot t))) (omega arith),
          )
          (omega arith)
