-- ===== src/Worker/Executor.antt =====
-- worker/src/executor.c: the execution of a chunk in a sub-process, and the cores and the memory that are
-- reserved for it. `Account` is about the reservations of executions that run at the same time, `Waiting`
-- about the loop that waits for a process, `Courses` and `Runs` about one execution.
-- What the operating system answers is a parameter: whether the program can be executed, a pipe made and
-- a process forked, and what each round of the waiting loop sees. The callback is not null: what it is
-- called with is listed.
pub mod Account
pub mod Courses
pub mod Runs
pub mod Waiting
use void_os_merger.Base.{
  ℕ, zero, suc, ◌+◌, ◌-◌, ◌*◌, ◌%◌, Bool, true, false, not, ◌||◌, Option, none, some, List, [], ◌∷◌,
  ◌++◌, ltb, leb, ◌==◌, if◌then◌else◌, add32, add64, u64_mod, bit_xor, Bytes, str_eq, hex,
}

pub data ExecState : Type 0 where
  idle accepted started progress completed failed cancelled : ExecState

pub record Assignment : Type 0 where
  pub chunk_id : ℕ
  pub workload_id : ℕ
  pub runtime_type : Bytes
  pub binary_path : Bytes
  pub required_cores : ℕ
  pub required_memory_bytes : ℕ
  pub timeout_seconds : ℕ
  pub is_idempotent : Bool
  pub expected_input_sha256 : Bytes

-- The text of `error_message`.
pub data ErrorMessage : Type 0 where
  no_error validation_failed reservation_rejected pipe_failed timeout_exceeded : ErrorMessage
  runtime_error_code : ℕ → ErrorMessage
  terminated_abnormally : ErrorMessage

-- The progress is a float that takes the values 0, 10 and so on to 100 only: it stands as that number.
pub record Status : Type 0 where
  pub chunk_id : ℕ
  pub state : ExecState
  pub progress_percentage : ℕ
  pub exit_code : ℕ
  pub result_sha256 : Bytes
  pub error_message : ErrorMessage

-- `g_reserved_cores` and `g_reserved_memory_bytes`.
pub record Reserved : Type 0 where
  pub cores : ℕ
  pub memory_bytes : ℕ

-- The capabilities that are read.
pub record HostCaps : Type 0 where
  pub cores_online : ℕ
  pub ram_total_mb : ℕ

-- `vom_sys_info_collect` of this file.
unfoldable pub host_caps : HostCaps
host_caps = record { cores_online = 8; ram_total_mb = 16384 }

unfoldable pub ram_bytes : HostCaps → ℕ
ram_bytes caps = (((caps.ram_total_mb * 1024) % u64_mod) * 1024) % u64_mod

-- "posix_subproc".
abbrev pub posix_subproc : Bytes
posix_subproc = 112 ∷ 111 ∷ 115 ∷ 105 ∷ 120 ∷ 95 ∷ 115 ∷ 117 ∷ 98 ∷ 112 ∷ 114 ∷ 111 ∷ 99 ∷ []

-- `executable` is the answer of `access` for a path.
unfoldable pub validate : (Bytes → Bool) → Assignment → HostCaps → Bool
validate executable a caps =
    if not (str_eq a.runtime_type posix_subproc)
    then false
    else if ltb caps.cores_online a.required_cores
    then false
    else if ltb (ram_bytes caps) a.required_memory_bytes
    then false
    else if not (executable a.binary_path)
    then false
    else true

-- None where the reservation is refused.
unfoldable pub reserve_local_resources : Assignment → HostCaps → Reserved → Option Reserved
reserve_local_resources a caps r =
    if ltb caps.cores_online (add32 r.cores a.required_cores)
      || ltb (ram_bytes caps) (add64 r.memory_bytes a.required_memory_bytes)
    then none
    else some (record {
      cores = add32 r.cores a.required_cores;
      memory_bytes = add64 r.memory_bytes a.required_memory_bytes;
    })

unfoldable pub release_local_resources : Assignment → Reserved → Reserved
release_local_resources a r = record {
  cores = if leb a.required_cores r.cores then r.cores - a.required_cores else r.cores;
  memory_bytes =
      if leb a.required_memory_bytes r.memory_bytes
      then r.memory_bytes - a.required_memory_bytes
      else r.memory_bytes;
}

abbrev pub fnv : ℕ → ℕ → ℕ → ℕ
fnv prime hash b = (bit_xor hash b * prime) % u64_mod

unfoldable pub hash_file : ℕ → ℕ → Bytes → Bytes
hash_file hash1 hash2 [] =
    hex 16 hash1 (hex 16 hash2 (hex 16 (bit_xor hash1 hash2) (hex 16 (add64 hash1 hash2) [])))
hash_file hash1 hash2 (b ∷ bs) =
    hash_file (fnv 0x100000001b3 hash1 b) (fnv 0xcbf29ce484222325 hash2 b) bs

-- A file that cannot be opened is hashed as an empty one.
unfoldable pub compute_deterministic_integrity : Option Bytes → Bytes
compute_deterministic_integrity none = hash_file 0xcbf29ce484222325 0x517cc1b727220a95 []
compute_deterministic_integrity (some content) =
    hash_file 0xcbf29ce484222325 0x517cc1b727220a95 content

-- The answer of `waitpid`: 0 or an error ECHILD, which both leave the loop running; an exit with a code;
-- the end by a signal; another error.
pub data Waited : Type 0 where
  pending : Waited
  exited : ℕ → Waited
  signalled : Waited
  wait_error : Waited

-- What one round of the loop sees.
pub record Poll : Type 0 where
  pub is_cancelled : Bool
  pub elapsed_seconds : ℕ
  pub has_output : Bool
  pub waited : Waited

pub record World : Type 0 where
  pub executable : Bytes → Bool
  pub pipe_made : Bool
  pub forked : Bool
  pub polls : ℕ → Poll
  pub dev_null : Option Bytes

abbrev pub fail_with : ErrorMessage → Status → Status
fail_with m s = record s { state = failed; error_message = m }

unfoldable pub advance : Status → Status
advance s =
    if ltb s.progress_percentage 90
    then record s { progress_percentage = s.progress_percentage + 10 }
    else s

-- The status when the process has ended, and none while it runs.
unfoldable pub ended : Waited → Status → Option Status
ended pending s = none
ended (exited zero) s =
    some (record s { exit_code = 0; state = completed; progress_percentage = 100 })
ended (exited (suc n)) s =
    some (fail_with (runtime_error_code (suc n)) (record s { exit_code = suc n }))
ended signalled s = some (fail_with terminated_abnormally s)
ended wait_error s = some (record s { state = failed })

-- The end of the loop: the last status, or none if the rounds ran out, and the calls of the callback.
pub record Waits : Type 0 where
  pub last : Option Status
  pub calls : List Status

unfoldable pub wait_loop : ℕ → ℕ → (ℕ → Poll) → ℕ → Status → Waits
wait_loop zero timeout polls i s = record { last = none; calls = [] }
wait_loop (suc n) timeout polls i s =
    let p = polls i in
    let s' = if p.has_output then advance s else s in
    let called = if p.has_output then s' ∷ [] else [] in
    elim p.is_cancelled [
      | true ↦ record { last = some (record s { state = cancelled }); calls = [] }
      | false ↦ elim (leb timeout p.elapsed_seconds) [
        | true ↦ record { last = some (fail_with timeout_exceeded s); calls = [] }
        | false ↦ elim (ended p.waited s') [
          | some t ↦ record { last = some t; calls = called }
          | none ↦
              let rest = wait_loop n timeout polls (suc i) s' in
              record { last = rest.last; calls = called ++ rest.calls }
        ]
      ]
    ]

abbrev pub is_completed : ExecState → Bool
is_completed completed = true
is_completed _ = false

-- The result hash is that of /dev/null.
unfoldable pub finish : World → Status → Status
finish w s =
    if is_completed s.state
    then record s { result_sha256 = compute_deterministic_integrity w.dev_null }
    else s

-- `result` is what the call returns, and none if the loop did not end in the rounds given.
pub record Run : Type 0 where
  pub reserved : Reserved
  pub calls : List Status
  pub result : Option Bool

abbrev pub fresh_status : Assignment → Status
fresh_status a = record {
  chunk_id = a.chunk_id;
  state = idle;
  progress_percentage = 0;
  exit_code = 0;
  result_sha256 = [];
  error_message = no_error;
}

abbrev pub in_state : ExecState → Status → Status
in_state st s = record s { state = st }

-- The part after the fork, where the reservation is held.
unfoldable pub supervise : ℕ → World → Assignment → Reserved → List Status → Run
supervise rounds w a held before =
    let waits = wait_loop rounds a.timeout_seconds w.polls 0 (in_state progress (fresh_status a)) in
    elim waits.last [
      | none ↦ record { reserved = held; calls = before ++ waits.calls; result = none }
      | some s ↦ record {
        reserved = release_local_resources a held;
        calls = before ++ (waits.calls ++ finish w s ∷ []);
        result = some (is_completed s.state);
      }
    ]

-- The calls from the pipe on.
unfoldable pub launch : ℕ → World → Assignment → Reserved → Run
launch rounds w a held =
    let s = fresh_status a in
    let accepted_call = in_state accepted s ∷ [] in
    if not w.pipe_made
    then record {
      reserved = release_local_resources a held;
      calls = accepted_call ++ fail_with pipe_failed s ∷ [];
      result = some false;
    }
    else if not w.forked
    then record {
      reserved = release_local_resources a held;
      calls = accepted_call ++ in_state started s ∷ [];
      result = some false;
    }
    else supervise rounds w a held (accepted_call ++ in_state started s ∷ [])

unfoldable pub run : ℕ → World → Assignment → Reserved → Run
run rounds w a r =
    let s = fresh_status a in
    if not (validate w.executable a host_caps)
    then record { reserved = r; calls = fail_with validation_failed s ∷ []; result = some false }
    else elim (reserve_local_resources a host_caps r) [
      | none ↦ record {
        reserved = r;
        calls = in_state accepted s ∷ fail_with reservation_rejected s ∷ [];
        result = some false;
      }
      | some held ↦ launch rounds w a held
    ]
