-- ===== src/Worker/Executor/Runs.antt =====
-- worker/src/executor.c: one execution, from its validation to its last report.
use void_os_merger.Base.{
  ℕ, ◌≤◌, ◌<◌, ◌≡◌, refl, sym, ◌∙◌, subst, inl, inr, true, false, none, some, List, [], ◌∷◌, ◌++◌,
  arith, Bool-cases, Option-cases, replicate,
}
use void_os_merger.Worker.Executor.{
  accepted, started, progress, Assignment, Status, Reserved, World, host_caps, ErrorMessage,
  fail_with, validate, reserve_local_resources, release_local_resources, wait_loop, is_completed,
  finish, in_state, fresh_status, supervise, launch, run,
}
use void_os_merger.Worker.Executor.Account.{validated_fits, reserve-Granted, release-Granted}
use void_os_merger.Worker.Executor.Waiting.{states, Stopped, wait_loop-Stopped}
use void_os_merger.Worker.Executor.Courses.{
  IsValid, HasRoom, invalid, rejected, no_pipe, no_fork, watched, IsRunFrom, validate_iff,
  reserve_none, reserve_some, last_state_cons,
}

-- The calls before the fork and those of the loop and of the end.
begun : Assignment → List Status
begun a = in_state accepted (fresh_status a) ∷ in_state started (fresh_status a) ∷ []

finish_state : (w : World) (s : Status) → (finish w s).state ≡ s.state
unfolding finish
finish_state w s = ground arith

map_append : (xs ys : List Status) → states (xs ++ ys) ≡ states xs ++ states ys
map_append [] ys = refl
map_append (x ∷ xs) ys = rw (map_append xs ys) refl

-- The part after the fork, by the end of its loop.
supervise_ended :
    (rounds : ℕ) (w : World) (a : Assignment) (held : Reserved) (before : List Status) (s : Status)
    → let waits =
        wait_loop rounds a.timeout_seconds w.polls 0 (in_state progress (fresh_status a)) in
      waits.last ≡ some s
      → supervise rounds w a held before ≡ record {
        reserved = release_local_resources a held;
        calls = before ++ (waits.calls ++ finish w s ∷ []);
        result = some (is_completed s.state);
      }
unfolding supervise
supervise_ended rounds w a held before s e = ground arith

supervise-IsRunFrom :
    (rounds : ℕ) (w : World) (a : Assignment) (r held : Reserved)
    → IsValid w a
    → HasRoom a r
    → w.pipe_made ≡ true
    → w.forked ≡ true
    → release_local_resources a held ≡ r
    → Stopped a.timeout_seconds w.polls 0
        (wait_loop rounds a.timeout_seconds w.polls 0 (in_state progress (fresh_status a)))
    → IsRunFrom w a r (supervise rounds w a held (begun a))
unfolding begun
supervise-IsRunFrom rounds w a r held v room p f g st =
    let waits = wait_loop rounds a.timeout_seconds w.polls 0 (in_state progress (fresh_status a)) in
    let loop_calls : states (waits.calls ++ finish w st.last_status ∷ [])
        ≡ replicate st.reports progress ++ st.last_status.state ∷ [] =
      map_append waits.calls (finish w st.last_status ∷ [])
      ∙ rw st.reported (rw (finish_state w st.last_status) refl) in
    subst (IsRunFrom w a r)
      (sym (supervise_ended rounds w a held (begun a) st.last_status st.stopped))
      (record {
        answer = is_completed st.last_status.state;
        returned = refl;
        restored = g;
        course = rw loop_calls (watched st.reports st.last_status.state v room p f st.watched);
        answered = rw (loop_calls, last_state_cons started st.reports st.last_status.state) refl;
      })

launch_forked :
    (rounds : ℕ) (w : World) (a : Assignment) (held : Reserved)
    → w.pipe_made ≡ true
    → w.forked ≡ true
    → launch rounds w a held ≡ supervise rounds w a held (begun a)
unfolding launch begun
launch_forked rounds w a held p f = ground arith

launch_no_pipe :
    (rounds : ℕ) (w : World) (a : Assignment) (held : Reserved)
    → w.pipe_made ≡ false
    → launch rounds w a held ≡ record {
      reserved = release_local_resources a held;
      calls =
          in_state accepted (fresh_status a)
          ∷ fail_with ErrorMessage.pipe_failed (in_state accepted (fresh_status a))
          ∷ [];
      result = some false;
    }
unfolding launch
launch_no_pipe rounds w a held p = ground arith

launch_no_fork :
    (rounds : ℕ) (w : World) (a : Assignment) (held : Reserved)
    → w.pipe_made ≡ true
    → w.forked ≡ false
    → launch rounds w a held
      ≡ record { reserved = release_local_resources a held; calls = begun a; result = some false }
unfolding launch begun
launch_no_fork rounds w a held p f = ground arith

launch-IsRunFrom :
    (rounds : ℕ) (w : World) (a : Assignment) (r held : Reserved)
    → IsValid w a
    → HasRoom a r
    → release_local_resources a held ≡ r
    → Stopped a.timeout_seconds w.polls 0
        (wait_loop rounds a.timeout_seconds w.polls 0 (in_state progress (fresh_status a)))
    → IsRunFrom w a r (launch rounds w a held)
unfolding begun
launch-IsRunFrom rounds w a r held v room g st = elim (Bool-cases w.pipe_made) [
  | inr p ↦ subst (IsRunFrom w a r) (sym (launch_no_pipe rounds w a held p)) (record {
    answer = false;
    returned = refl;
    restored = g;
    course = no_pipe v room p;
    answered = refl;
  })
  | inl p ↦ elim (Bool-cases w.forked) [
    | inr f ↦ subst (IsRunFrom w a r) (sym (launch_no_fork rounds w a held p f)) (record {
      answer = false;
      returned = refl;
      restored = g;
      course = no_fork v room p f;
      answered = refl;
    })
    | inl f ↦
        subst (IsRunFrom w a r) (sym (launch_forked rounds w a held p f))
          (supervise-IsRunFrom rounds w a r held v room p f g st)
  ]
]

run_invalid :
    (rounds : ℕ) (w : World) (a : Assignment) (r : Reserved)
    → validate w.executable a host_caps ≡ false
    → IsRunFrom w a r (run rounds w a r)
unfolding run
run_invalid rounds w a r v = rw v (record {
  answer = false;
  returned = refl;
  restored = refl;
  course = invalid (λ h. absurd (ground (arith, v, (validate_iff w a).1 h)));
  answered = refl;
})

run_refused :
    (rounds : ℕ) (w : World) (a : Assignment) (r : Reserved)
    → validate w.executable a host_caps ≡ true
    → reserve_local_resources a host_caps r ≡ none
    → IsRunFrom w a r (run rounds w a r)
unfolding run
run_refused rounds w a r v n =
    let h = (validate_iff w a).0 v in
    rw (v, n)
      (record {
        answer = false;
        returned = refl;
        restored = refl;
        course = rejected h (reserve_none w a r h n);
        answered = refl;
      })

run_granted :
    (rounds : ℕ) (w : World) (a : Assignment) (r held : Reserved)
    → validate w.executable a host_caps ≡ true
    → reserve_local_resources a host_caps r ≡ some held
    → run rounds w a r ≡ launch rounds w a held
unfolding run
run_granted rounds w a r held v e = rw (v, e) refl

-- A run with the host's resources not exceeded and whose clock reaches the timeout in one of the rounds returns, with what
-- is reserved as before it. The callback sees a failure alone if the task is not valid here; an acceptance and a
-- failure if it has no room beside what is reserved, or if the pipe is not made; an acceptance and a start if the fork
-- fails; and otherwise an acceptance, a start, a report of progress for each round with output before the end, and one
-- end: cancelled or failed in the first round that is cancelled or sees the timeout, and completed or failed, after the
-- report of that round, if the process exits with 0 or ends otherwise before. The call returns true exactly if the last
-- state seen is completed.
pub run-IsRunFrom :
    (rounds : ℕ) (w : World) (a : Assignment) (r : Reserved) (k : ℕ)
    → r.cores ≤ 8
    → r.memory_bytes ≤ 17179869184
    → k < rounds
    → a.timeout_seconds ≤ (w.polls k).elapsed_seconds
    → IsRunFrom w a r (run rounds w a r)
run-IsRunFrom rounds w a r k c m l t = elim (Bool-cases (validate w.executable a host_caps)) [
  | inr v ↦ run_invalid rounds w a r v
  | inl v ↦ elim (Option-cases (reserve_local_resources a host_caps r)) [
    | inl n ↦ run_refused rounds w a r v n
    | inr (held, e) ↦ subst (IsRunFrom w a r) (sym (run_granted rounds w a r held v e)) (
        launch-IsRunFrom rounds w a r held ((validate_iff w a).0 v)
          (reserve_some w a r held c m ((validate_iff w a).0 v) e)
          (release-Granted a r held
            (reserve-Granted a r held (validated_fits w.executable a v) c m e))
          (wait_loop-Stopped rounds a.timeout_seconds w.polls 0 (in_state progress (fresh_status a))
            k l (subst (λ j. a.timeout_seconds ≤ (w.polls j).elapsed_seconds) (omega arith) t)
            refl))
  ]
]
