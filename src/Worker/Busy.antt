-- ===== src/Worker/Busy.antt =====
-- worker/src/worker_state.c: the state and the count of tasks through any calls.
use void_os_merger.Base.{
  ℕ, zero, suc, ◌+◌, ◌<◌, ◌≡◌, ◌≢◌, refl, Option, some, List, [], ◌∷◌, arith, Bytes, u32_mod, pos,
  negsuc, subst, sym,
}
use void_os_merger.Worker.Machine.{
  WorkerState, WorkerEvent, Machine, Call, moves, tasks, next, transition, update_tasks, step, run,
  registered, running, shutdown, start_drain, stop_drain, init, endpoint_after,
}

-- A worker that is running has tasks.
abbrev pub IsBusy : Machine → Type 0
IsBusy m = m.current_state ≡ running → 0 < m.active_tasks_count

-- The count of tasks does not wrap.
abbrev pub FitsTasks : Machine → Call → Type 0
FitsTasks m (tasks (pos n)) = m.active_tasks_count + n < u32_mod
FitsTasks m (tasks (negsuc n)) = Unit
FitsTasks m (moves e now endpoint) = Unit

unfoldable pub AllFitTasks : Machine → List Call → Type 0
AllFitTasks m [] = Unit
AllFitTasks m (c ∷ cs) = FitsTasks m c × AllFitTasks (step m c) cs

next-ne-running : (s : WorkerState) (e : WorkerEvent) → next s e ≢ some running
unfolding next
next-ne-running s e h = ground arith

-- No event leads to running: a machine that is running after an event has not moved.
not_moved :
    (e : WorkerEvent) (now : ℕ) (endpoint : Option Bytes) (m : Machine)
    → (transition e now endpoint m).0.current_state ≡ running
    → (transition e now endpoint m).0 ≡ m
unfolding transition
not_moved e now endpoint m h = ground (arith, next-ne-running m.current_state e)

step-IsBusy : (m : Machine) (c : Call) → FitsTasks m c → IsBusy m → IsBusy (step m c)
unfolding step update_tasks
step-IsBusy m (tasks (pos zero)) f h = h
step-IsBusy m (tasks (pos (suc n))) f h = λ e. omega arith
step-IsBusy m (tasks (negsuc n)) f h = λ e. ground arith
step-IsBusy m (moves e now endpoint) f h = λ r.
    let same = not_moved e now endpoint m r in
    subst (λ n. 0 < n.active_tasks_count) (sym same)
      (h (subst (λ n. n.current_state ≡ running) same r))

run-IsBusy : (m : Machine) (cs : List Call) → AllFitTasks m cs → IsBusy m → IsBusy (run m cs)
unfolding run AllFitTasks
run-IsBusy m [] f h = h
run-IsBusy m (c ∷ cs) f h = run-IsBusy (step m c) cs f.1 (step-IsBusy m c f.0 h)

-- After any calls from the start, in which the count of tasks never wraps, a worker that is
-- running has at least one task.
pub run-init-IsBusy : (cs : List Call) → AllFitTasks init cs → IsBusy (run init cs)
unfolding init
run-init-IsBusy cs f = run-IsBusy _ cs f (λ h. absurd (ground arith))

step-shutdown :
    (m : Machine) (c : Call) → m.current_state ≡ shutdown → (step m c).current_state ≡ shutdown
unfolding step update_tasks transition next
step-shutdown m (tasks (pos zero)) h = h
step-shutdown m (tasks (pos (suc n))) h = ground arith
step-shutdown m (tasks (negsuc n)) h = ground arith
step-shutdown m (moves e now endpoint) h = rw h (ground arith)

-- A worker that is shut down stays so through any calls.
pub run-shutdown :
    (m : Machine) (cs : List Call)
    → m.current_state ≡ shutdown
    → (run m cs).current_state ≡ shutdown
unfolding run
run-shutdown m [] h = h
run-shutdown m (c ∷ cs) h = run-shutdown (step m c) cs (step-shutdown m c h)

-- A drain of a running worker that is stopped again leaves it registered, with the tasks that it
-- still has: registered although it is busy.
pub stop_drain-registered :
    (m : Machine) (now later : ℕ) (a b : Option Bytes)
    → m.current_state ≡ running
    → let n = (transition stop_drain later b (transition start_drain now a m).0).0 in
      (n.current_state ≡ registered) × (n.active_tasks_count ≡ m.active_tasks_count)
unfolding transition next endpoint_after
stop_drain-registered m now later a b h = rw h (refl, refl)
