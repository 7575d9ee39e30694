-- ===== src/Worker/Diagram.antt =====
-- worker/src/worker_state.c: the events that the machine allows, and the end of its life.
use void_os_merger.Base.{
  refl, some, none, take, ℕ, ◌≡◌, ◌≢◌, ◌⊎◌, ◌↔◌, true, false, is_some, Option, arith, Bytes,
}
use void_os_merger.Worker.Machine.{
  WorkerState, WorkerEvent, Machine, endpoint_after, next, transition, offline, connected,
  registered, running, draining, shutdown, connect, register_success, start_drain, stop_drain,
  disconnect, terminate,
}

-- The events that a state allows, by event.
abbrev pub Allows : WorkerEvent → WorkerState → Type 0
Allows connect s = s ≡ offline
Allows register_success s = s ≡ connected
Allows start_drain s = (s ≡ registered) ⊎ (s ≡ running)
Allows stop_drain s = s ≡ draining
Allows disconnect s = (s ≢ offline) × (s ≢ shutdown)
Allows terminate s = (s ≡ registered) ⊎ (s ≡ running) ⊎ (s ≡ draining)

is_some-next : (e : WorkerEvent) (s : WorkerState) → (is_some (next s e) ≡ true) ↔ Allows e s
unfolding next
is_some-next connect s = ground arith
is_some-next register_success s = ground arith
is_some-next start_drain s = ground arith
is_some-next stop_drain s = ground arith
is_some-next disconnect s = ground arith
is_some-next terminate s = ground arith

transition-is_some :
    (e : WorkerEvent) (now : ℕ) (endpoint : Option Bytes) (m : Machine)
    → (transition e now endpoint m).1 ≡ is_some (next m.current_state e)
unfolding transition
transition-is_some e now endpoint m = ground arith

refused-stays :
    (e : WorkerEvent) (now : ℕ) (endpoint : Option Bytes) (m : Machine)
    → (transition e now endpoint m).1 ≡ false
    → (transition e now endpoint m).0 ≡ m
unfolding transition
refused-stays e now endpoint m h = ground arith

-- The state that an event leads to.
abbrev pub target : WorkerEvent → WorkerState
target connect = connected
target register_success = registered
target start_drain = draining
target stop_drain = registered
target disconnect = offline
target terminate = shutdown

-- The machine after a move: only a connection changes the endpoint, to 127 bytes at most of one that is given.
pub record IsMoved (e : WorkerEvent) (now : ℕ) (endpoint : Option Bytes) (m n : Machine)
    : Type 0 where
  pub state : n.current_state ≡ target e
  pub stamped : n.last_transition_ms ≡ now
  pub tasks : n.active_tasks_count ≡ m.active_tasks_count
  pub given : (s : Bytes) → e ≡ connect → endpoint ≡ some s → n.master_endpoint ≡ take 127 s
  pub kept : (e ≢ connect) ⊎ (endpoint ≡ none) → n.master_endpoint ≡ m.master_endpoint

next-target :
    (s : WorkerState) (e : WorkerEvent) → is_some (next s e) ≡ true → next s e ≡ some (target e)
unfolding next
next-target s e h = ground (arith, h)

endpoint_given :
    (e : WorkerEvent) (s : Bytes) (old : Bytes) (st : WorkerState)
    → Allows e st
    → e ≡ connect
    → endpoint_after st e (some s) old ≡ take 127 s
unfolding endpoint_after
endpoint_given e s old st a c = ground (arith, a, c)

endpoint_kept :
    (e : WorkerEvent) (endpoint : Option Bytes) (old : Bytes) (st : WorkerState)
    → (e ≢ connect) ⊎ (endpoint ≡ none)
    → endpoint_after st e endpoint old ≡ old
unfolding endpoint_after
endpoint_kept e endpoint old st h = ground (arith, h)

transition-moved :
    (e : WorkerEvent) (now : ℕ) (endpoint : Option Bytes) (m : Machine)
    → Allows e m.current_state
    → (transition e now endpoint m).0 ≡ record m {
      current_state = target e;
      last_transition_ms = now;
      master_endpoint = endpoint_after m.current_state e endpoint m.master_endpoint;
    }
unfolding transition
transition-moved e now endpoint m a =
    ground (arith, next-target m.current_state e ((is_some-next e m.current_state).1 a))

transition-IsMoved :
    (e : WorkerEvent) (now : ℕ) (endpoint : Option Bytes) (m : Machine)
    → Allows e m.current_state
    → IsMoved e now endpoint m (transition e now endpoint m).0
transition-IsMoved e now endpoint m a = rw (transition-moved e now endpoint m a) (record {
  state = refl;
  stamped = refl;
  tasks = refl;
  given = λ s c g. rw g (endpoint_given e s m.master_endpoint m.current_state a c);
  kept = λ h. endpoint_kept e endpoint m.master_endpoint m.current_state h;
})

-- The machine moves exactly on the events that its state allows: a connection from offline, a
-- registration once connected, a drain from registered or running, its end while draining, a
-- disconnection from any state but offline and shutdown, and a termination from registered,
-- running or draining; else it stays as it is. A move leads to connected, registered, draining,
-- registered, offline and shutdown, in this order, and takes the time; only a connection with an
-- endpoint changes the endpoint, to its first 127 bytes, and the count of tasks stays.
pub transition-Allows :
    (e : WorkerEvent) (now : ℕ) (endpoint : Option Bytes) (m : Machine)
    → (((transition e now endpoint m).1 ≡ true) ↔ Allows e m.current_state)
      × (Allows e m.current_state → IsMoved e now endpoint m (transition e now endpoint m).0)
      × ((transition e now endpoint m).1 ≡ false → (transition e now endpoint m).0 ≡ m)
transition-Allows e now endpoint m = (
  rw (transition-is_some e now endpoint m) (is_some-next e m.current_state),
  transition-IsMoved e now endpoint m,
  refused-stays e now endpoint m,
)
