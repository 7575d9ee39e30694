-- ===== src/Worker/Executor/Waiting.antt =====
-- worker/src/executor.c: the loop that waits for the process.
use void_os_merger.Base.{
  ℕ, zero, suc, ◌+◌, ◌≤◌, ◌<◌, ◌≡◌, refl, sym, ◌∙◌, subst, inl, inr, true, false, none, some, List,
  [], ◌∷◌, ◌++◌, map, arith, leb, Bool-cases, Option-cases, if◌then◌else◌, replicate,
}
use void_os_merger.Worker.Executor.{
  ErrorMessage, ExecState, progress, completed, failed, cancelled, Status, Poll, Waited, Waits,
  fail_with, advance, ended, wait_loop, in_state,
}

abbrev pub states : List Status → List ExecState
states = map (λ (s : Status). s.state)

-- The state in which a process ends by what the wait answers.
abbrev pub IsEnd : Waited → ExecState → Type 0
IsEnd Waited.pending st = ⊥
IsEnd (Waited.exited zero) st = st ≡ completed
IsEnd (Waited.exited (suc n)) st = st ≡ failed
IsEnd Waited.signalled st = st ≡ failed
IsEnd Waited.wait_error st = st ≡ failed

-- The rounds from one on, by what they see: how many report output before the end, and the state at the end.
pub data Watched (timeout : ℕ) (polls : ℕ → Poll) : ℕ → ℕ → ExecState → Type 0 where
  cancels : (i : ℕ) → (polls i).is_cancelled ≡ true → Watched timeout polls i 0 cancelled
  times_out :
      (i : ℕ)
      → (polls i).is_cancelled ≡ false
      → timeout ≤ (polls i).elapsed_seconds
      → Watched timeout polls i 0 failed
  ends :
      (i : ℕ) (st : ExecState)
      → (polls i).is_cancelled ≡ false
      → (polls i).elapsed_seconds < timeout
      → IsEnd (polls i).waited st
      → Watched timeout polls i (if (polls i).has_output then 1 else 0) st
  goes_on :
      (i n : ℕ) (st : ExecState)
      → (polls i).is_cancelled ≡ false
      → (polls i).elapsed_seconds < timeout
      → (polls i).waited ≡ Waited.pending
      → Watched timeout polls (suc i) n st
      → Watched timeout polls i (if (polls i).has_output then suc n else n) st

-- The end of the waiting loop from a round on.
pub record Stopped (timeout : ℕ) (polls : ℕ → Poll) (i : ℕ) (waits : Waits) : Type 0 where
  pub last_status : Status
  pub stopped : waits.last ≡ some last_status
  pub reports : ℕ
  pub reported : states waits.calls ≡ replicate reports progress
  pub watched : Watched timeout polls i reports last_status.state

ended-IsEnd : (w : Waited) (s t : Status) → ended w s ≡ some t → IsEnd w t.state
unfolding ended
ended-IsEnd Waited.pending s t e = absurd (ground arith)
ended-IsEnd (Waited.exited zero) s t e = ground arith
ended-IsEnd (Waited.exited (suc n)) s t e = ground arith
ended-IsEnd Waited.signalled s t e = ground arith
ended-IsEnd Waited.wait_error s t e = ground arith

not_ended : (w : Waited) (s : Status) → ended w s ≡ none → w ≡ Waited.pending
unfolding ended
not_ended Waited.pending s e = refl
not_ended (Waited.exited zero) s e = absurd (ground arith)
not_ended (Waited.exited (suc n)) s e = absurd (ground arith)
not_ended Waited.signalled s e = absurd (ground arith)
not_ended Waited.wait_error s e = absurd (ground arith)

-- What a round makes of the status, and its call of the callback.
abbrev polled : Poll → Status → Status
polled p s = if p.has_output then advance s else s

abbrev poll_calls : Poll → Status → List Status
poll_calls p s = if p.has_output then polled p s ∷ [] else []

advance_state : (s : Status) → (advance s).state ≡ s.state
unfolding advance
advance_state s = ground arith

polled_state : (p : Poll) (s : Status) → (polled p s).state ≡ s.state
unfolding advance
polled_state p s = ground arith

-- One round of the loop, by what it sees.
loop_cancelled :
    (n timeout : ℕ) (polls : ℕ → Poll) (i : ℕ) (s : Status)
    → (polls i).is_cancelled ≡ true
    → wait_loop (suc n) timeout polls i s
      ≡ record { last = some (in_state cancelled s); calls = [] }
unfolding wait_loop
loop_cancelled n timeout polls i s c = ground arith

loop_timeout :
    (n timeout : ℕ) (polls : ℕ → Poll) (i : ℕ) (s : Status)
    → (polls i).is_cancelled ≡ false
    → leb timeout (polls i).elapsed_seconds ≡ true
    → wait_loop (suc n) timeout polls i s
      ≡ record { last = some (fail_with ErrorMessage.timeout_exceeded s); calls = [] }
unfolding wait_loop
loop_timeout n timeout polls i s c t = ground arith

loop_ended :
    (n timeout : ℕ) (polls : ℕ → Poll) (i : ℕ) (s t : Status)
    → (polls i).is_cancelled ≡ false
    → leb timeout (polls i).elapsed_seconds ≡ false
    → ended (polls i).waited (polled (polls i) s) ≡ some t
    → wait_loop (suc n) timeout polls i s ≡ record { last = some t; calls = poll_calls (polls i) s }
unfolding wait_loop
loop_ended n timeout polls i s t c o e = ground arith

loop_goes_on :
    (n timeout : ℕ) (polls : ℕ → Poll) (i : ℕ) (s : Status)
    → (polls i).is_cancelled ≡ false
    → leb timeout (polls i).elapsed_seconds ≡ false
    → ended (polls i).waited (polled (polls i) s) ≡ none
    → let rest = wait_loop n timeout polls (suc i) (polled (polls i) s) in
      wait_loop (suc n) timeout polls i s
      ≡ record { last = rest.last; calls = poll_calls (polls i) s ++ rest.calls }
unfolding wait_loop
loop_goes_on n timeout polls i s c o e = ground arith

abbrev report_count : Poll → ℕ → ℕ
report_count p n = if p.has_output then suc n else n

states-poll_calls :
    (p : Poll) (s : Status)
    → s.state ≡ progress
    → (rest : List Status) (n : ℕ) → states rest ≡ replicate n progress
    → states (poll_calls p s ++ rest) ≡ replicate (report_count p n) progress
states-poll_calls p s e rest n r = elim (Bool-cases p.has_output) [
  | inl h ↦ rw h (rw r (rw (advance_state s) (rw e refl)))
  | inr h ↦ rw h r
]

states_last_call :
    (p : Poll) (s : Status)
    → s.state ≡ progress
    → states (poll_calls p s) ≡ replicate (report_count p 0) progress
states_last_call p s e = elim (Bool-cases p.has_output) [
  | inl h ↦ rw h (rw (advance_state s) (rw e refl))
  | inr h ↦ rw h refl
]

stops_now :
    (timeout : ℕ) (polls : ℕ → Poll) (i : ℕ) (t : Status) (calls : List Status) (n : ℕ)
    → Watched timeout polls i n t.state
    → states calls ≡ replicate n progress
    → Stopped timeout polls i (record { last = some t; calls = calls })
stops_now timeout polls i t calls n w r = record {
  last_status = t;
  stopped = refl;
  reports = n;
  reported = r;
  watched = w;
}

-- A round that does not see the timeout is not the round that does.
later_round :
    (timeout : ℕ) (polls : ℕ → Poll) (i k : ℕ)
    → timeout ≤ (polls (k + i)).elapsed_seconds
    → leb timeout (polls i).elapsed_seconds ≡ false
    → (j : ℕ) × (suc j ≡ k) × (timeout ≤ (polls (j + suc i)).elapsed_seconds)
later_round timeout polls i zero t o = absurd (ground arith)
later_round timeout polls i (suc k) t o =
    (k, refl, subst (λ m. timeout ≤ (polls m).elapsed_seconds) (omega arith) t)

-- The loop ends at the latest in the round whose clock reaches the timeout.
pub wait_loop-Stopped :
    (n timeout : ℕ) (polls : ℕ → Poll) (i : ℕ) (s : Status) (k : ℕ)
    → k < n
    → timeout ≤ (polls (k + i)).elapsed_seconds
    → s.state ≡ progress
    → Stopped timeout polls i (wait_loop n timeout polls i s)
wait_loop-Stopped zero timeout polls i s k l t e = absurd (omega (arith, l))
wait_loop-Stopped (suc n) timeout polls i s k l t e = elim (Bool-cases (polls i).is_cancelled) [
  | inl c ↦
      subst (Stopped timeout polls i) (sym (loop_cancelled n timeout polls i s c))
        (stops_now timeout polls i (in_state cancelled s) [] 0 (cancels i c) refl)
  | inr c ↦ elim (Bool-cases (leb timeout (polls i).elapsed_seconds)) [
    | inl o ↦ subst (Stopped timeout polls i) (sym (loop_timeout n timeout polls i s c o)) (
        stops_now timeout polls i (fail_with ErrorMessage.timeout_exceeded s) [] 0
          (times_out i c (ground (arith, o))) refl)
    | inr o ↦ elim (Option-cases (ended (polls i).waited (polled (polls i) s))) [
      | inr (u, f) ↦
          subst (Stopped timeout polls i) (sym (loop_ended n timeout polls i s u c o f)) (
            stops_now timeout polls i u (poll_calls (polls i) s) (report_count (polls i) 0)
              (ends i u.state c (ground (arith, o))
                (ended-IsEnd (polls i).waited (polled (polls i) s) u f))
              (states_last_call (polls i) s e))
      | inl f ↦
          let (j, p, q) = later_round timeout polls i k t o in
          let rest =
            wait_loop-Stopped n timeout polls (suc i) (polled (polls i) s) j (omega arith) q
              (polled_state (polls i) s ∙ e) in
          subst (Stopped timeout polls i) (sym (loop_goes_on n timeout polls i s c o f)) (record {
            last_status = rest.last_status;
            stopped = rest.stopped;
            reports = report_count (polls i) rest.reports;
            reported = states-poll_calls (polls i) s e _ rest.reports rest.reported;
            watched =
                goes_on i rest.reports rest.last_status.state c (ground (arith, o))
                  (not_ended (polls i).waited (polled (polls i) s) f) rest.watched;
          })
    ]
  ]
]
