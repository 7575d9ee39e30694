-- ===== src/Worker/Machine.antt =====
-- worker/src/worker_state.c: the state machine of a worker, its count of tasks, and the calls in any
-- order.
use void_os_merger.Base.{
  ℕ, suc, ◌-◌, Bool, true, false, ◌&&◌, Option, none, some, List, [], ◌∷◌, leb, ◌==◌, if◌then◌else◌,
  add32, ℤ, pos, negsuc, zero, Bytes, strncpy,
}

pub data WorkerState : Type 0 where
  offline connected registered running draining shutdown : WorkerState

pub data WorkerEvent : Type 0 where
  connect register_success start_drain stop_drain disconnect terminate : WorkerEvent

pub record Machine : Type 0 where
  pub current_state : WorkerState
  pub last_transition_ms : ℕ
  pub active_tasks_count : ℕ
  pub master_endpoint : Bytes

unfoldable pub init : Machine
init = record {
  current_state = offline;
  last_transition_ms = 0;
  active_tasks_count = 0;
  master_endpoint = [];
}

-- The switch: the next state, or none if the event is not allowed.
unfoldable pub next : WorkerState → WorkerEvent → Option WorkerState
next offline connect = some connected
next connected register_success = some registered
next connected disconnect = some offline
next registered start_drain = some draining
next registered disconnect = some offline
next registered terminate = some shutdown
next running start_drain = some draining
next running disconnect = some offline
next running terminate = some shutdown
next draining stop_drain = some registered
next draining disconnect = some offline
next draining terminate = some shutdown
next _ _ = none

-- Only a connection that is allowed sets the endpoint.
unfoldable pub endpoint_after : WorkerState → WorkerEvent → Option Bytes → Bytes → Bytes
endpoint_after offline connect (some endpoint) old = strncpy 128 endpoint
endpoint_after _ _ _ old = old

unfoldable pub transition : WorkerEvent → ℕ → Option Bytes → Machine → Machine × Bool
transition event now endpoint m = elim (next m.current_state event) [
  | none ↦ (m, false)
  | some state ↦ (
    record m {
      current_state = state;
      last_transition_ms = now;
      master_endpoint = endpoint_after m.current_state event endpoint m.master_endpoint;
    },
    true,
  )
]

abbrev pub is_registered : WorkerState → Bool
is_registered registered = true
is_registered _ = false

abbrev pub is_running : WorkerState → Bool
is_running running = true
is_running _ = false

unfoldable pub update_tasks : ℤ → Machine → Machine
update_tasks (pos zero) m = m
update_tasks (pos (suc n)) m = record m {
  active_tasks_count = add32 m.active_tasks_count (suc n);
  current_state = if is_registered m.current_state then running else m.current_state;
}
update_tasks (negsuc n) m =
    let left = if leb (suc n) m.active_tasks_count then m.active_tasks_count - suc n else 0 in
    record m {
      active_tasks_count = left;
      current_state =
          if (left == 0) && is_running m.current_state then registered else m.current_state;
    }

pub data Call : Type 0 where
  moves : WorkerEvent → ℕ → Option Bytes → Call
  tasks : ℤ → Call

unfoldable pub step : Machine → Call → Machine
step m (moves event now endpoint) = (transition event now endpoint m).0
step m (tasks delta) = update_tasks delta m

unfoldable pub run : Machine → List Call → Machine
run m [] = m
run m (c ∷ cs) = run (step m c) cs
