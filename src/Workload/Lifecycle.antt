-- ===== src/Workload/Lifecycle.antt =====
-- master/src/workload.c: the progress of a job, and the calls of the module in any order.
use void_os_merger.Base.{
  ℕ, suc, ◌*◌, ◌/◌, ◌%◌, Bool, true, false, not, ◌&&◌, Option, none, some, List, [], ◌∷◌, ◌++◌, ltb,
  leb, ◌==◌, if◌then◌else◌, is_some, length, find_first, update_first, map, add64, sub64, u64_mod,
  bit_xor, Bytes, strncpy, hex,
}
use void_os_merger.Workload.{
  WorkloadState, planning, executing, cancelled, ChunkState, UserWorkloadDesc, Chunk, Quotient, Job,
  Context, is_completed, is_failed, is_executing, has_chunk_id, short_str_len, max_active_workloads,
  mock_invoke_chunk_planner, evaluate_ready_chunks,
}

unfoldable pub count_state : (ChunkState → Bool) → List Chunk → ℕ
count_state p [] = 0
count_state p (c ∷ cs) = if p c.state then suc (count_state p cs) else count_state p cs

-- FNV-1a over a checksum, and over the checksums of the chunks in order.
unfoldable pub hash_bytes : ℕ → Bytes → ℕ
hash_bytes h [] = h
hash_bytes h (b ∷ bs) = hash_bytes ((bit_xor h b * 0x100000001b3) % u64_mod) bs

unfoldable pub hash_chunks : ℕ → List Chunk → ℕ
hash_chunks h [] = h
hash_chunks h (c ∷ cs) = hash_chunks (hash_bytes h c.output_checksum) cs

-- "sha256-" before the digits.
unfoldable pub sha256_text : ℕ → Bytes
sha256_text h = 115 ∷ 104 ∷ 97 ∷ 50 ∷ 53 ∷ 54 ∷ 45 ∷ hex 16 h []

unfoldable pub recalculate_job_progress : Job → Job
recalculate_job_progress job =
    let done = count_state is_completed job.chunks in
    let bad = count_state is_failed job.chunks in
    let total = length job.chunks in
    let progress : Quotient =
      if ltb 0 total then record { num = done; den = total } else record { num = 0; den = 1 } in
    if ltb 0 bad
    then record job { overall_progress = progress; state = WorkloadState.failed }
    else if done == total
    then record job {
      overall_progress = progress;
      state = WorkloadState.completed;
      aggregated_result_hash = sha256_text (hash_chunks 0xcbf29ce484222325 job.chunks);
    }
    else record job { overall_progress = progress }

unfoldable pub blank_job : UserWorkloadDesc → ℕ → ℕ → Job
blank_job desc id now = record {
  workload_id = id;
  name = strncpy short_str_len desc.workload_name;
  state = planning;
  start_timestamp_ms = now;
  deadline_seconds = desc.deadline_seconds;
  chunks = [];
  edges = [];
  overall_progress = record { num = 0; den = 1 };
  aggregated_result_hash = [];
}

-- The job of an accepted submission.
unfoldable pub submitted_job : UserWorkloadDesc → ℕ → ℕ → Job
submitted_job desc id now =
    evaluate_ready_chunks
      (record (mock_invoke_chunk_planner desc id (blank_job desc id now)) { state = executing })

-- The result is the id, or 0 for a refusal.
unfoldable pub submit : UserWorkloadDesc → ℕ → Context → Context × ℕ
submit input now ctx =
    if not input.is_splittable
    then (ctx, 0)
    else if leb max_active_workloads (length ctx.jobs)
    then (ctx, 0)
    else (let id = ctx.next_workload_id in
        (
          record {
            jobs = ctx.jobs ++ submitted_job input id now ∷ [];
            next_workload_id = add64 id 1;
          },
          id,
        ))

abbrev pub is_job : ℕ → Job → Bool
is_job id j = j.workload_id == id

unfoldable pub cancel : ℕ → Context → Context × Bool
cancel id ctx =
    if is_some (find_first (is_job id) ctx.jobs)
    then (
      record ctx { jobs = update_first (is_job id) (λ j. record j { state = cancelled }) ctx.jobs },
      true,
    )
    else (ctx, false)

-- The result for a chunk, with its checksum if one is given.
unfoldable pub report : ChunkState → Option Bytes → Chunk → Chunk
report result none c = record c { state = result }
report result (some sum) c = record c {
  state = result;
  output_checksum = strncpy short_str_len sum;
}

unfoldable pub report_job : ℕ → ChunkState → Option Bytes → Job → Job
report_job chunk_id result checksum job = recalculate_job_progress (
    evaluate_ready_chunks (record job {
      chunks = update_first (has_chunk_id chunk_id) (report result checksum) job.chunks;
    }))

-- A job with the id that has the chunk; one that has not is passed over.
abbrev pub takes : ℕ → ℕ → Job → Bool
takes workload_id chunk_id j =
    (j.workload_id == workload_id) && is_some (find_first (has_chunk_id chunk_id) j.chunks)

unfoldable pub update_chunk_result : ℕ → ℕ → ChunkState → Option Bytes → Context → Context × Bool
update_chunk_result workload_id chunk_id result checksum ctx =
    if is_some (find_first (takes workload_id chunk_id) ctx.jobs)
    then (
      record ctx {
        jobs =
            update_first (takes workload_id chunk_id) (report_job chunk_id result checksum)
              ctx.jobs;
      },
      true,
    )
    else (ctx, false)

unfoldable pub check_deadline : ℕ → Job → Job
check_deadline now job =
    if is_executing job.state && leb job.deadline_seconds (sub64 now job.start_timestamp_ms / 1000)
    then record job { state = WorkloadState.failed }
    else job

unfoldable pub check_deadlines : ℕ → Context → Context
check_deadlines now ctx = record ctx { jobs = map (check_deadline now) ctx.jobs }

-- The calls of the module, in any order.
pub data Call : Type 0 where
  submits : UserWorkloadDesc → ℕ → Call
  cancels : ℕ → Call
  updates : ℕ → ℕ → ChunkState → Option Bytes → Call
  checks : ℕ → Call

unfoldable pub step : Context → Call → Context
step ctx (submits desc now) = (submit desc now ctx).0
step ctx (cancels id) = (cancel id ctx).0
step ctx (updates job chunk result checksum) = (update_chunk_result job chunk result checksum ctx).0
step ctx (checks now) = check_deadlines now ctx

unfoldable pub run : Context → List Call → Context
run ctx [] = ctx
run ctx (c ∷ cs) = run (step ctx c) cs
