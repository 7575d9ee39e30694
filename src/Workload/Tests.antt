-- ===== src/Workload/Tests.antt =====
-- master/src/workload.c: one workload, submitted, run and cancelled.
use void_os_merger.Base.{Both, ℕ, ◌≡◌, refl, true, none, List, [], ◌∷◌, update_first, All}
use void_os_merger.Workload.{
  UserWorkloadDesc, pipeline, Job, Chunk, ChunkState, WorkloadState, completed, cancelled,
  executing, ready, pending, mock_chunk_id, evaluate_ready_chunks, has_chunk_id, init,
}
use void_os_merger.Workload.Lifecycle.{
  submitted_job, report, report_job, Call, submits, cancels, updates, checks, run,
}
use void_os_merger.Workload.Ready.{Evaluated, evaluate_ready_chunks-Evaluated}
use void_os_merger.Workload.Progress.{IsDone, report_job_revives}
use void_os_merger.Workload.Pipeline.{IsPipeline}
use void_os_merger.Workload.Course.{report_job-IsPipeline_in_order}
use void_os_merger.Workload.Identifiers.{IsNumbered, run-init-IsNumbered}

abbrev desc : UserWorkloadDesc
desc = record {
  workload_name = 101 ∷ 116 ∷ 108 ∷ [];
  strategy = pipeline;
  total_size_bytes = 3000;
  intensity_factor = 2;
  is_splittable = true;
  data_node_hint = 1;
  deadline_seconds = 60;
}

abbrev chunk : ℕ → ChunkState → Chunk
chunk n st = record {
  chunk_id = n;
  memory_demand_bytes = 1;
  cpu_cores_demand = 1;
  target_node_id = 1;
  data_locality_score = 1;
  state = st;
  assigned_worker = [];
  output_checksum = [];
}

abbrev cancelled_job : Job
cancelled_job = record {
  workload_id = 1001;
  name = [];
  state = cancelled;
  start_timestamp_ms = 0;
  deadline_seconds = 60;
  chunks = chunk 1 completed ∷ chunk 2 ready ∷ [];
  edges = record { src_chunk_id = 1; dst_chunk_id = 2 } ∷ [];
  overall_progress = record { num = 1; den = 2 };
  aggregated_result_hash = [];
}

abbrev history : List Call
history =
    submits desc 0
    ∷ updates 1001 65601536 completed none
    ∷ cancels 1001
    ∷ checks 90000
    ∷ submits desc 5
    ∷ []

evaluate_ready_chunks-Evaluated_example :
    Both (Evaluated cancelled_job) cancelled_job.chunks (evaluate_ready_chunks cancelled_job).chunks
evaluate_ready_chunks-Evaluated_example = evaluate_ready_chunks-Evaluated cancelled_job

last_chunk : All IsDone (update_first (has_chunk_id 2) (report completed none) cancelled_job.chunks)
unfolding update_first report
last_chunk = (refl, (refl, tt))

report_job_revives_example :
    (report_job 2 completed none cancelled_job).state ≡ WorkloadState.completed
report_job_revives_example = report_job_revives 2 none cancelled_job last_chunk

report_job-IsPipeline_in_order_example :
    let j = submitted_job desc 1001 0 in
    let k = report_job (mock_chunk_id 1001 0) completed none j in
    let l = report_job (mock_chunk_id 1001 1) completed none k in
    let m = report_job (mock_chunk_id 1001 2) completed none l in
    (IsPipeline 1001 ready pending pending j × (j.state ≡ executing))
    × (IsPipeline 1001 completed ready pending k × (k.state ≡ executing))
    × (IsPipeline 1001 completed completed ready l × (l.state ≡ executing))
    × (IsPipeline 1001 completed completed completed m × (m.state ≡ WorkloadState.completed))
report_job-IsPipeline_in_order_example = report_job-IsPipeline_in_order desc 1001 0 none none none

run-init-IsNumbered_example : IsNumbered (run init history)
run-init-IsNumbered_example = run-init-IsNumbered history
