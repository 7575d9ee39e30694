-- ===== src/Cluster/Crash.antt =====
-- master/src/cluster_state.c: what a restarted master reads back from the journal.
use void_os_merger.Base.{ℕ, ◌≡◌, refl, ◌∙◌, List, [], ◌∷◌, All, add64, Bytes}
use void_os_merger.Cluster.Snapshots.{
  System, Call, registers, leases, heartbeats, persists, recovers, acquires, releases, whole,
  refused, short, step, run, started, recover_from_wal, persist_to_wal,
}

-- A call that does not change the journal: any but a write that is not refused.
abbrev pub LeavesJournal : Call → Type 0
LeavesJournal (persists refused) = Unit
LeavesJournal (persists short) = ⊥
LeavesJournal (persists whole) = ⊥
LeavesJournal _ = Unit

step-journal : (sys : System) (c : Call) → LeavesJournal c → (step sys c).journal ≡ sys.journal
unfolding step persist_to_wal
step-journal sys (registers w) h = refl
step-journal sys (leases id status p) h = refl
step-journal sys (heartbeats id now) h = refl
step-journal sys (persists refused) h = refl
step-journal sys (persists short) h = absurd h
step-journal sys (persists whole) h = absurd h
step-journal sys recovers h = refl
step-journal sys acquires h = refl
step-journal sys (releases i) h = refl

run-journal :
    (sys : System) (cs : List Call) → All LeavesJournal cs → (run sys cs).journal ≡ sys.journal
unfolding run
run-journal sys [] h = refl
run-journal sys (c ∷ cs) h = run-journal (step sys c) cs h.1 ∙ step-journal sys c h.0

-- After the state is written whole to the journal, and any calls that do not write it again, a master
-- that starts anew and recovers has the state that was written, with the next version.
pub run-recovers :
    (uuid : Bytes) (epoch : ℕ) (sys : System) (cs : List Call)
    → All LeavesJournal cs
    → let journal = (run (step sys (persists whole)) cs).journal in
      (run (started uuid epoch journal) (recovers ∷ [])).context.master_state
      ≡ record (sys.context.master_state) {
        state_generation_version = add64 sys.context.master_state.state_generation_version 1;
      }
unfolding run step persist_to_wal started recover_from_wal
run-recovers uuid epoch sys cs h = rw (run-journal (step sys (persists whole)) cs h) refl
