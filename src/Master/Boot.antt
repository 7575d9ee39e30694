-- ===== src/Master/Boot.antt =====
-- master/src/main.c: what the master does before its loop.
use void_os_merger.Base.{ℕ, ◌%◌, Bool, not, Option, none, some, [], if◌then◌else◌, u64_mod, Bytes}
use void_os_merger.Cluster.Snapshots.{
  System, Journal, step, started, recovers, acquires, releases, acquire_snapshot,
}
use void_os_merger.Master.{Master}

-- The state of the cluster, recovered from the journal if that can be read.
abbrev pub recovered_state : Bytes → ℕ → Journal → System
recovered_state uuid epoch journal = step (started uuid epoch journal) recovers

-- The state before the loop, with a snapshot taken and given back.
unfoldable pub start_up : Bytes → ℕ → Journal → Master
start_up uuid epoch journal =
    let recovered = recovered_state uuid epoch journal in
    record {
      system = step (step recovered acquires) (releases (acquire_snapshot recovered.context).1);
      inbox = [];
      outbox = [];
      simulated_tick_count = 0;
      last_wal_persist_ms = 0;
      last_scheduler_tick_ms = 0;
    }

-- What the set-up meets: whether there is memory for the state, and a context, a socket and its address.
pub record SetUp : Type 0 where
  pub state_made : Bool
  pub context_made : Bool
  pub socket_made : Bool
  pub bound : Bool

-- None is the end of the program with `EXIT_FAILURE`. The time in seconds is the epoch.
unfoldable pub set_up : SetUp → Bytes → ℕ → Journal → Option Master
set_up a uuid time journal =
    if not a.state_made
    then none
    else if not a.context_made
    then none
    else if not a.socket_made
    then none
    else if not a.bound
    then none
    else some (start_up uuid (time % u64_mod) journal)
