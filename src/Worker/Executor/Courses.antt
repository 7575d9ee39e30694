-- ===== src/Worker/Executor/Courses.antt =====
-- worker/src/executor.c: the courses that one execution can take, and the tests that choose among them.
use void_os_merger.Base.{
  ◌+◌, ◌↔◌, str_eq_iff, ℕ, zero, suc, ◌≤◌, ◌≡◌, refl, Bool, true, false, none, some, List, [], ◌∷◌,
  ◌++◌, arith, replicate,
}
use void_os_merger.Worker.Executor.{
  ExecState, idle, accepted, started, progress, failed, Assignment, Reserved, World, Run,
  posix_subproc, ram_bytes, host_caps, validate, reserve_local_resources, is_completed,
}
use void_os_merger.Worker.Executor.Waiting.{Watched, states}

-- A task that may run here at all: of the runtime that there is, within the 8 cores and 16 GB of the host, and with a file that
-- may be executed.
abbrev pub IsValid : World → Assignment → Type 0
IsValid w a =
    (a.runtime_type ≡ posix_subproc)
    × (a.required_cores ≤ 8)
    × (a.required_memory_bytes ≤ 17179869184)
    × (w.executable a.binary_path ≡ true)

-- A task that fits beside what is reserved.
abbrev pub HasRoom : Assignment → Reserved → Type 0
HasRoom a r =
    (r.cores + a.required_cores ≤ 8) × (r.memory_bytes + a.required_memory_bytes ≤ 17179869184)

-- The states that the callback is called with, by what the run meets.
pub data Course (w : World) (a : Assignment) (r : Reserved) : List ExecState → Type 0 where
  invalid : ¬ IsValid w a → Course w a r (failed ∷ [])
  rejected : IsValid w a → ¬ HasRoom a r → Course w a r (accepted ∷ failed ∷ [])
  no_pipe : IsValid w a → HasRoom a r → w.pipe_made ≡ false → Course w a r (accepted ∷ failed ∷ [])
  no_fork :
      IsValid w a
      → HasRoom a r
      → w.pipe_made ≡ true
      → w.forked ≡ false
      → Course w a r (accepted ∷ started ∷ [])
  watched :
      (n : ℕ) (t : ExecState)
      → IsValid w a
      → HasRoom a r
      → w.pipe_made ≡ true
      → w.forked ≡ true
      → Watched a.timeout_seconds w.polls 0 n t
      → Course w a r (accepted ∷ started ∷ (replicate n progress ++ t ∷ []))

abbrev pub last_state : List ExecState → ExecState
last_state [] = idle
last_state (st ∷ []) = st
last_state (_ ∷ st ∷ sts) = last_state (st ∷ sts)

-- What a run leaves: it returns, with the reservations as before it; the callback was called with the states
-- of its course; and the answer tells whether the last of them is completed.
pub record IsRunFrom (w : World) (a : Assignment) (r : Reserved) (o : Run) : Type 0 where
  pub answer : Bool
  pub returned : o.result ≡ some answer
  pub restored : o.reserved ≡ r
  pub course : Course w a r (states o.calls)
  pub answered : answer ≡ is_completed (last_state (states o.calls))

pub validate_iff :
    (w : World) (a : Assignment) → (validate w.executable a host_caps ≡ true) ↔ IsValid w a
unfolding validate host_caps ram_bytes
validate_iff w a = ground (arith, str_eq_iff a.runtime_type posix_subproc)

pub reserve_none :
    (w : World) (a : Assignment) (r : Reserved)
    → IsValid w a
    → reserve_local_resources a host_caps r ≡ none
    → ¬ HasRoom a r
unfolding reserve_local_resources host_caps ram_bytes
reserve_none w a r v e h = ground (arith, v, e, h)

pub reserve_some :
    (w : World) (a : Assignment) (r held : Reserved)
    → r.cores ≤ 8
    → r.memory_bytes ≤ 17179869184
    → IsValid w a
    → reserve_local_resources a host_caps r ≡ some held
    → HasRoom a r
unfolding reserve_local_resources host_caps ram_bytes
reserve_some w a r held c m v e = ground (arith, c, m, v, e)

pub last_state_snoc : (n : ℕ) (t : ExecState) → last_state (replicate n progress ++ t ∷ []) ≡ t
last_state_snoc zero t = refl
last_state_snoc (suc zero) t = refl
last_state_snoc (suc (suc n)) t = last_state_snoc (suc n) t

pub last_state_cons :
    (s : ExecState) (n : ℕ) (t : ExecState) → last_state (s ∷ (replicate n progress ++ t ∷ [])) ≡ t
last_state_cons s zero t = refl
last_state_cons s (suc n) t = last_state_snoc (suc n) t
