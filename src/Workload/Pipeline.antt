-- ===== src/Workload/Pipeline.antt =====
-- master/src/workload.c: the run of a submitted workload. Its three chunks go in order.
use void_os_merger.Base.{
  ℕ, ◌≡◌, refl, ◌∙◌, Bool, true, Option, none, some, List, [], ◌∷◌, arith, map, find_first,
  update_first, if◌then◌else◌, Bytes, modify, ◌&&◌,
}
use void_os_merger.Workload.{
  UserWorkloadDesc, Chunk, Edge, Job, ChunkState, pending, ready, completed, mock_chunk,
  mock_chunk_id, mock_invoke_chunk_planner, has_chunk_id, parent_completed, parents_completed,
  make_ready, ready_loop, evaluate_ready_chunks, is_pending, is_completed,
}
use void_os_merger.Workload.Ready.{evaluate_ready_chunks-map}
use void_os_merger.Workload.Lifecycle.{submitted_job, recalculate_job_progress, report, report_job}

-- Three chunks in a row, with the states given.
pub record IsPipeline (id : ℕ) (r s t : ChunkState) (j : Job) : Type 0 where
  pub first : Chunk
  pub second : Chunk
  pub third : Chunk
  pub chunks : j.chunks ≡ first ∷ second ∷ third ∷ []
  pub edges :
      j.edges
      ≡ record { src_chunk_id = mock_chunk_id id 0; dst_chunk_id = mock_chunk_id id 1 }
        ∷ record { src_chunk_id = mock_chunk_id id 1; dst_chunk_id = mock_chunk_id id 2 }
        ∷ []
  pub first_id : first.chunk_id ≡ mock_chunk_id id 0
  pub second_id : second.chunk_id ≡ mock_chunk_id id 1
  pub third_id : third.chunk_id ≡ mock_chunk_id id 2
  pub first_state : first.state ≡ r
  pub second_state : second.state ≡ s
  pub third_state : third.state ≡ t

pub submitted_job-IsPipeline_first :
    (desc : UserWorkloadDesc) (id now : ℕ)
    → IsPipeline id ready pending pending (submitted_job desc id now)
unfolding submitted_job evaluate_ready_chunks mock_invoke_chunk_planner mock_chunk mock_chunk_id
    ready_loop make_ready parents_completed parent_completed find_first modify
submitted_job-IsPipeline_first desc id now = record {
  first = record (mock_chunk desc id 0) { state = ready };
  second = mock_chunk desc id 1;
  third = mock_chunk desc id 2;
  chunks = ground arith;
  edges = refl;
  first_id = refl;
  second_id = refl;
  third_id = refl;
  first_state = refl;
  second_state = refl;
  third_state = refl;
}

abbrev row : ℕ → List Edge
row id =
    record { src_chunk_id = mock_chunk_id id 0; dst_chunk_id = mock_chunk_id id 1 }
    ∷ record { src_chunk_id = mock_chunk_id id 1; dst_chunk_id = mock_chunk_id id 2 }
    ∷ []

abbrev if_ready : Bool → Chunk → Chunk
if_ready b c = if is_pending c.state && b then record c { state = ready } else c

map-make_ready-row :
    (id : ℕ) (a b c : Chunk)
    → a.chunk_id ≡ mock_chunk_id id 0
    → b.chunk_id ≡ mock_chunk_id id 1
    → c.chunk_id ≡ mock_chunk_id id 2
    → map (make_ready (row id) (a ∷ b ∷ c ∷ [])) (a ∷ b ∷ c ∷ [])
      ≡ if_ready true a ∷ if_ready (is_completed a.state) b ∷ if_ready (is_completed b.state) c ∷ []
unfolding make_ready parents_completed parent_completed find_first mock_chunk_id
map-make_ready-row id a b c p q r = ground arith

report_job_parts :
    (chunk_id : ℕ) (result : ChunkState) (sum : Option Bytes) (j : Job)
    → ((report_job chunk_id result sum j).chunks
        ≡ map
            (make_ready j.edges (update_first (has_chunk_id chunk_id) (report result sum) j.chunks))
            (update_first (has_chunk_id chunk_id) (report result sum) j.chunks))
      × ((report_job chunk_id result sum j).edges ≡ j.edges)
unfolding report_job recalculate_job_progress
report_job_parts chunk_id result sum j =
    let reported = record j {
      chunks = update_first (has_chunk_id chunk_id) (report result sum) j.chunks;
    } in
    let evaluated = evaluate_ready_chunks-map reported in
    (ground arith, unfold evaluate_ready_chunks in ground arith)

report_parts :
    (result : ChunkState) (sum : Option Bytes) (c : Chunk)
    → ((report result sum c).chunk_id ≡ c.chunk_id) × ((report result sum c).state ≡ result)
unfolding report
report_parts result none c = (refl, refl)
report_parts result (some s) c = (refl, refl)

report-row :
    (id chunk_id : ℕ) (result : ChunkState) (sum : Option Bytes) (j : Job) (a b c : Chunk)
    → update_first (has_chunk_id chunk_id) (report result sum) j.chunks ≡ a ∷ b ∷ c ∷ []
    → j.edges ≡ row id
    → a.chunk_id ≡ mock_chunk_id id 0
    → b.chunk_id ≡ mock_chunk_id id 1
    → c.chunk_id ≡ mock_chunk_id id 2
    → (report_job chunk_id result sum j).chunks
      ≡ if_ready true a ∷ if_ready (is_completed a.state) b ∷ if_ready (is_completed b.state) c ∷ []
report-row id chunk_id result sum j a b c us es p q r =
    rw ((report_job_parts chunk_id result sum j).0, us, es) (map-make_ready-row id a b c p q r)

module _ (id : ℕ) (sum : Option Bytes) (j : Job) where
  pub first_done :
      IsPipeline id ready pending pending j
      → IsPipeline id completed ready pending (report_job (mock_chunk_id id 0) completed sum j)
  unfolding update_first
  first_done p =
      let done = report completed sum p.first in
      let kept = report_parts completed sum p.first in
      let us : update_first (has_chunk_id (mock_chunk_id id 0)) (report completed sum) j.chunks
          ≡ done ∷ p.second ∷ p.third ∷ [] =
        rw p.chunks (ground (arith, p.first_id)) in
      let row =
        report-row id (mock_chunk_id id 0) completed sum j done p.second p.third us p.edges
          (kept.0 ∙ p.first_id) p.second_id p.third_id in
      record {
        first = done;
        second = record p.second { state = ready };
        third = p.third;
        chunks = ground (arith, row, kept.1, p.second_state, p.third_state);
        edges = (report_job_parts (mock_chunk_id id 0) completed sum j).1 ∙ p.edges;
        first_id = kept.0 ∙ p.first_id;
        second_id = p.second_id;
        third_id = p.third_id;
        first_state = kept.1;
        second_state = refl;
        third_state = p.third_state;
      }

  pub second_done :
      IsPipeline id completed ready pending j
      → IsPipeline id completed completed ready (report_job (mock_chunk_id id 1) completed sum j)
  unfolding update_first mock_chunk_id
  second_done p =
      let done = report completed sum p.second in
      let kept = report_parts completed sum p.second in
      let us : update_first (has_chunk_id (mock_chunk_id id 1)) (report completed sum) j.chunks
          ≡ p.first ∷ done ∷ p.third ∷ [] =
        rw p.chunks (ground (arith, p.first_id, p.second_id)) in
      let row =
        report-row id (mock_chunk_id id 1) completed sum j p.first done p.third us p.edges
          p.first_id (kept.0 ∙ p.second_id) p.third_id in
      record {
        first = p.first;
        second = done;
        third = record p.third { state = ready };
        chunks = ground (arith, row, kept.1, p.first_state, p.third_state);
        edges = (report_job_parts (mock_chunk_id id 1) completed sum j).1 ∙ p.edges;
        first_id = p.first_id;
        second_id = kept.0 ∙ p.second_id;
        third_id = p.third_id;
        first_state = p.first_state;
        second_state = kept.1;
        third_state = refl;
      }

  pub third_done :
      IsPipeline id completed completed ready j
      → IsPipeline id completed completed completed
          (report_job (mock_chunk_id id 2) completed sum j)
  unfolding update_first mock_chunk_id
  third_done p =
      let done = report completed sum p.third in
      let kept = report_parts completed sum p.third in
      let us : update_first (has_chunk_id (mock_chunk_id id 2)) (report completed sum) j.chunks
          ≡ p.first ∷ p.second ∷ done ∷ [] =
        rw p.chunks (ground (arith, p.first_id, p.second_id, p.third_id)) in
      let row =
        report-row id (mock_chunk_id id 2) completed sum j p.first p.second done us p.edges
          p.first_id p.second_id (kept.0 ∙ p.third_id) in
      record {
        first = p.first;
        second = p.second;
        third = done;
        chunks = ground (arith, row, kept.1, p.first_state, p.second_state);
        edges = (report_job_parts (mock_chunk_id id 2) completed sum j).1 ∙ p.edges;
        first_id = p.first_id;
        second_id = p.second_id;
        third_id = kept.0 ∙ p.third_id;
        first_state = p.first_state;
        second_state = p.second_state;
        third_state = kept.1;
      }
