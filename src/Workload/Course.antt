-- ===== src/Workload/Course.antt =====
-- master/src/workload.c: the states of a submitted workload as its chunks are reported in order.
use void_os_merger.Base.{
  ℕ, ◌≡◌, ◌≢◌, refl, sym, ◌∙◌, Option, arith, update_first, Bytes, subst, All,
}
use void_os_merger.Workload.{
  UserWorkloadDesc, Job, ChunkState, WorkloadState, executing, pending, ready, completed,
  mock_chunk_id, has_chunk_id, evaluate_ready_chunks,
}
use void_os_merger.Workload.Progress.{
  HasFailed, IsDone, Outcome, fails, finishes, goes_on, recalculate-chunks,
  recalculate_job_progress-Outcome,
}
use void_os_merger.Workload.Lifecycle.{submitted_job, recalculate_job_progress, report, report_job}
use void_os_merger.Workload.Pipeline.{
  IsPipeline, submitted_job-IsPipeline_first, first_done, second_done, third_done,
}

-- The state after a report, from the chunks after it.
report_job-Outcome :
    (chunk_id : ℕ) (result : ChunkState) (sum : Option Bytes) (j : Job)
    → Outcome
        (record j { chunks = (report_job chunk_id result sum j).chunks })
        (report_job chunk_id result sum j)
unfolding report_job evaluate_ready_chunks
report_job-Outcome chunk_id result sum j =
    let evaluated =
      evaluate_ready_chunks
        (record j { chunks = update_first (has_chunk_id chunk_id) (report result sum) j.chunks }) in
    subst (λ cs. Outcome (record j { chunks = cs }) (recalculate_job_progress evaluated))
      (sym (recalculate-chunks evaluated)) (recalculate_job_progress-Outcome evaluated).0

-- A pipeline with no failed chunk and an open one goes on.
still_executing :
    (id : ℕ) (s t : ChunkState) (j k : Job)
    → IsPipeline id completed s t k
    → s ≢ ChunkState.failed
    → t ≢ ChunkState.failed
    → t ≢ completed
    → Outcome (record j { chunks = k.chunks }) k
    → k.state ≡ j.state
still_executing id s t j k p s_ok t_ok t_open (goes_on _ _ same _) = same
still_executing id s t j k p s_ok t_ok t_open (fails bad _) =
    let bad' = subst HasFailed p.chunks bad in
    absurd (ground (arith, p.first_state, p.second_state, p.third_state))
still_executing id s t j k p s_ok t_ok t_open (finishes all _ _) =
    let all' = subst (All IsDone) p.chunks all in
    absurd (ground (arith, p.first_state, p.second_state, p.third_state))

all_completed :
    (id : ℕ) (j k : Job)
    → IsPipeline id completed completed completed k
    → Outcome (record j { chunks = k.chunks }) k
    → k.state ≡ WorkloadState.completed
all_completed id j k p (finishes _ ended _) = ended
all_completed id j k p (fails bad _) =
    let bad' = subst HasFailed p.chunks bad in
    absurd (ground (arith, p.first_state, p.second_state, p.third_state))
all_completed id j k p (goes_on _ open_chunk _ _) = absurd (
    open_chunk
      (subst (All IsDone) (sym p.chunks) (p.first_state, (p.second_state, (p.third_state, tt)))))

-- A submitted workload starts executing with its first chunk ready and the other two pending. When the
-- chunks are reported completed in order, each report makes the next chunk ready and leaves the
-- workload executing, until the last report completes it.
pub report_job-IsPipeline_in_order :
    (desc : UserWorkloadDesc) (id now : ℕ) (a b c : Option Bytes)
    → let j = submitted_job desc id now in
      let k = report_job (mock_chunk_id id 0) completed a j in
      let l = report_job (mock_chunk_id id 1) completed b k in
      let m = report_job (mock_chunk_id id 2) completed c l in
      (IsPipeline id ready pending pending j × (j.state ≡ executing))
      × (IsPipeline id completed ready pending k × (k.state ≡ executing))
      × (IsPipeline id completed completed ready l × (l.state ≡ executing))
      × (IsPipeline id completed completed completed m × (m.state ≡ WorkloadState.completed))
report_job-IsPipeline_in_order desc id now a b c =
    let j = submitted_job desc id now in
    let k = report_job (mock_chunk_id id 0) completed a j in
    let l = report_job (mock_chunk_id id 1) completed b k in
    let m = report_job (mock_chunk_id id 2) completed c l in
    let pj = submitted_job-IsPipeline_first desc id now in
    let pk = first_done id a j pj in
    let pl = second_done id b k pk in
    let pm = third_done id c l pl in
    let started : j.state ≡ executing = unfold submitted_job evaluate_ready_chunks in refl in
    let after_first =
      still_executing id ready pending j k pk (λ e. cc) (λ e. cc) (λ e. cc)
        (report_job-Outcome (mock_chunk_id id 0) completed a j) in
    let after_second =
      still_executing id completed ready k l pl (λ e. cc) (λ e. cc) (λ e. cc)
        (report_job-Outcome (mock_chunk_id id 1) completed b k) in
    (
      (pj, started),
      (pk, after_first ∙ started),
      (pl, after_second ∙ after_first ∙ started),
      (pm, all_completed id l m pm (report_job-Outcome (mock_chunk_id id 2) completed c l)),
    )
