-- ===== src/Workload/Progress.antt =====
-- master/src/workload.c: the state that `recalculate_job_progress` and a result lead to.
use void_os_merger.Base.{
  ℕ, ◌≤◌, ◌<◌, ◌≡◌, ◌↔◌, ◌⊎◌, refl, ◌∙◌, Option, List, [], ◌∷◌, arith, map, length, update_first,
  ◌==◌, All, Bool-cases, inl, inr, Bytes, ltb,
}
use void_os_merger.Workload.{
  Chunk, Edge, Job, ChunkState, WorkloadState, completed, is_completed, is_failed, has_chunk_id,
  make_ready, evaluate_ready_chunks,
}
use void_os_merger.Workload.Lifecycle.{
  count_state, recalculate_job_progress, report, report_job, hash_chunks, sha256_text,
}
use void_os_merger.Workload.Ready.{evaluate_ready_chunks-map}

abbrev pub IsDone : Chunk → Type 0
IsDone c = c.state ≡ completed

abbrev pub HasFailed : List Chunk → Type 0
HasFailed [] = ⊥
HasFailed (c ∷ cs) = (c.state ≡ ChunkState.failed) ⊎ HasFailed cs

count_failed_iff : (cs : List Chunk) → (0 < count_state is_failed cs) ↔ HasFailed cs
unfolding count_state
count_failed_iff [] = (λ h. absurd (omega arith), λ h. absurd h)
count_failed_iff (c ∷ cs) = ground (arith, count_failed_iff cs)

pub count_done_le : (cs : List Chunk) → count_state is_completed cs ≤ length cs
unfolding count_state
count_done_le [] = omega arith
count_done_le (c ∷ cs) = ground (arith, count_done_le cs)

pub count-IsDone_iff : (cs : List Chunk) → (count_state is_completed cs ≡ length cs) ↔ All IsDone cs
unfolding count_state
count-IsDone_iff [] = (λ _. tt, λ _. refl)
count-IsDone_iff (c ∷ cs) = ground (arith, count-IsDone_iff cs, count_done_le cs)

-- The result of recalculating a job.
pub data Outcome (j k : Job) : Type 0 where
  fails : HasFailed j.chunks → k.state ≡ WorkloadState.failed → Outcome j k
  finishes :
      All IsDone j.chunks
      → k.state ≡ WorkloadState.completed
      → k.aggregated_result_hash ≡ sha256_text (hash_chunks 0xcbf29ce484222325 j.chunks)
      → Outcome j k
  goes_on :
      ¬ HasFailed j.chunks
      → ¬ All IsDone j.chunks
      → k.state ≡ j.state
      → k.aggregated_result_hash ≡ j.aggregated_result_hash
      → Outcome j k

-- A job with a failed chunk fails; else one whose chunks are all completed is completed, with the
-- result of `hash_chunks`; else its state and hash stay. The progress counts the completed chunks,
-- and is no more than 1.
pub recalculate_job_progress-Outcome :
    (j : Job)
    → Outcome j (recalculate_job_progress j)
      × ((recalculate_job_progress j).overall_progress.num
          ≤ (recalculate_job_progress j).overall_progress.den)
      × ((recalculate_job_progress j).overall_progress.num ≡ count_state is_completed j.chunks)
unfolding recalculate_job_progress
recalculate_job_progress-Outcome j =
    let failing = count_failed_iff j.chunks in
    let done = count-IsDone_iff j.chunks in
    (
      elim (Bool-cases (ltb 0 (count_state is_failed j.chunks))) [
        | inl bad ↦ rw bad (fails (failing.0 (ground arith)) refl)
        | inr fine ↦
            rw fine (elim (Bool-cases (count_state is_completed j.chunks == length j.chunks)) [
              | inl all ↦ rw all (finishes (done.0 (ground arith)) refl refl)
              | inr some_left ↦ rw some_left (
                  goes_on (λ h. ground (arith, failing.1 h)) (λ h. ground (arith, done.1 h)) refl
                    refl)
            ])
      ],
      ground (arith, count_done_le j.chunks),
      ground (arith, count_done_le j.chunks),
    )

pub recalculate-chunks : (j : Job) → (recalculate_job_progress j).chunks ≡ j.chunks
unfolding recalculate_job_progress
recalculate-chunks j = ground arith

map-make_ready-done :
    (es : List Edge) (all cs : List Chunk) → All IsDone cs → map (make_ready es all) cs ≡ cs
unfolding make_ready
map-make_ready-done es all [] h = refl
map-make_ready-done es all (c ∷ cs) h = ground (arith, map-make_ready-done es all cs h.1)

no_failed : (cs : List Chunk) → All IsDone cs → count_state is_failed cs ≡ 0
unfolding count_state
no_failed [] h = refl
no_failed (c ∷ cs) h = ground (arith, no_failed cs h.1)

-- A job of chunks that are all completed ends as completed, whatever its state was.
pub recalculate_done :
    (j : Job)
    → All IsDone j.chunks
    → (recalculate_job_progress (evaluate_ready_chunks j)).state ≡ WorkloadState.completed
unfolding recalculate_job_progress
recalculate_done j h =
    let same : (evaluate_ready_chunks j).chunks ≡ j.chunks =
      evaluate_ready_chunks-map j ∙ map-make_ready-done j.edges j.chunks j.chunks h in
    rw same (rw (no_failed j.chunks h, (count-IsDone_iff j.chunks).1 h) (ground arith))

-- A result that completes the last open chunk of a job makes the job completed, whatever state it was
-- in: also when it had been cancelled, or had failed at its deadline.
pub report_job_revives :
    (chunk_id : ℕ) (sum : Option Bytes) (j : Job)
    → All IsDone (update_first (has_chunk_id chunk_id) (report completed sum) j.chunks)
    → (report_job chunk_id completed sum j).state ≡ WorkloadState.completed
unfolding report_job
report_job_revives chunk_id sum j h = recalculate_done _ h
