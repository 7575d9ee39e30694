-- ===== src/Workload/Identifiers.antt =====
-- master/src/workload.c: the ids of workloads, through any sequence of calls.
use void_os_merger.Base.{
  ℕ, suc, ◌+◌, ◌≤◌, ◌<◌, ◌≡◌, ◌≢◌, refl, ap, ◌∙◌, Bool, true, Option, none, some, List, [], ◌∷◌,
  ◌++◌, arith, map, length, length-append, find_first, update_first, leb, is_some, Bool-cases, inl,
  inr, Bytes, add64,
}
use void_os_merger.Workload.{
  ChunkState, cancelled, evaluate_ready_chunks, mock_invoke_chunk_planner, Job, Context,
  UserWorkloadDesc, init, max_active_workloads,
}
use void_os_merger.Workload.Lifecycle.{
  submit, cancel, update_chunk_result, report_job, check_deadline, check_deadlines, blank_job,
  is_job, takes, submitted_job, Call, submits, cancels, updates, checks, step, run,
  recalculate_job_progress,
}

-- The ids count up from n along the list.
abbrev pub CountUp : ℕ → List Job → Type 0
CountUp n [] = Unit
CountUp n (j ∷ js) = (j.workload_id ≡ n) × CountUp (suc n) js

pub record IsNumbered (ctx : Context) : Type 0 where
  pub fit : length ctx.jobs ≤ max_active_workloads
  pub ids : CountUp 1001 ctx.jobs
  pub next : ctx.next_workload_id ≡ 1001 + length ctx.jobs

CountUp-update :
    (p : Job → Bool) (f : Job → Job) (n : ℕ) (js : List Job)
    → ((j : Job) → (f j).workload_id ≡ j.workload_id)
    → CountUp n js
    → CountUp n (update_first p f js)
unfolding update_first
CountUp-update p f n [] h c = tt
CountUp-update p f n (j ∷ js) h c = elim (Bool-cases (p j)) [
  | inl e ↦ rw e (h j ∙ c.0, c.1)
  | inr e ↦ rw e (c.0, CountUp-update p f (suc n) js h c.1)
]

CountUp-map :
    (f : Job → Job) (n : ℕ) (js : List Job)
    → ((j : Job) → (f j).workload_id ≡ j.workload_id)
    → CountUp n js
    → CountUp n (map f js)
CountUp-map f n [] h c = tt
CountUp-map f n (j ∷ js) h c = (h j ∙ c.0, CountUp-map f (suc n) js h c.1)

CountUp-append :
    (n : ℕ) (js : List Job) (j : Job)
    → CountUp n js
    → j.workload_id ≡ n + length js
    → CountUp n (js ++ j ∷ [])
CountUp-append n [] j c e = (omega arith, tt)
CountUp-append n (k ∷ js) j c e = (c.0, CountUp-append (suc n) js j c.1 (omega arith))

length-update_jobs :
    (p : Job → Bool) (f : Job → Job) (js : List Job) → length (update_first p f js) ≡ length js
unfolding update_first
length-update_jobs p f [] = refl
length-update_jobs p f (j ∷ js) = ground (arith, length-update_jobs p f js)

length-map_jobs : (f : Job → Job) (js : List Job) → length (map f js) ≡ length js
length-map_jobs f [] = refl
length-map_jobs f (j ∷ js) = ap suc (length-map_jobs f js)

update-IsNumbered :
    (p : Job → Bool) (f : Job → Job) (ctx : Context)
    → ((j : Job) → (f j).workload_id ≡ j.workload_id)
    → IsNumbered ctx
    → IsNumbered (record ctx { jobs = update_first p f ctx.jobs })
update-IsNumbered p f ctx h v = record {
  fit = omega (arith, v.fit, length-update_jobs p f ctx.jobs);
  ids = CountUp-update p f 1001 ctx.jobs h v.ids;
  next = omega (arith, v.next, length-update_jobs p f ctx.jobs);
}

report_job-id :
    (chunk_id : ℕ) (result : ChunkState) (sum : Option Bytes) (j : Job)
    → (report_job chunk_id result sum j).workload_id ≡ j.workload_id
unfolding report_job recalculate_job_progress evaluate_ready_chunks
report_job-id chunk_id result sum j = ground arith

check_deadline-id : (now : ℕ) (j : Job) → (check_deadline now j).workload_id ≡ j.workload_id
unfolding check_deadline
check_deadline-id now j = ground arith

submitted_job-id :
    (desc : UserWorkloadDesc) (id now : ℕ) → (submitted_job desc id now).workload_id ≡ id
unfolding submitted_job evaluate_ready_chunks mock_invoke_chunk_planner blank_job
submitted_job-id desc id now = refl

submit-IsNumbered :
    (desc : UserWorkloadDesc) (now : ℕ) (ctx : Context)
    → IsNumbered ctx
    → IsNumbered (submit desc now ctx).0
unfolding submit
submit-IsNumbered desc now ctx v = elim (Bool-cases desc.is_splittable) [
  | inr whole ↦ rw whole v
  | inl split ↦ rw split (elim (Bool-cases (leb max_active_workloads (length ctx.jobs))) [
    | inl full ↦ rw full v
    | inr room ↦ rw room (record {
      fit =
          ground (arith, length-append ctx.jobs (submitted_job desc ctx.next_workload_id now ∷ []));
      ids = CountUp-append 1001 ctx.jobs _ v.ids (omega (arith, v.next, submitted_job-id));
      next = ground (
        arith,
        v.next,
        length-append ctx.jobs (submitted_job desc ctx.next_workload_id now ∷ []),
      );
    })
  ])
]

cancel-IsNumbered : (id : ℕ) (ctx : Context) → IsNumbered ctx → IsNumbered (cancel id ctx).0
unfolding cancel
cancel-IsNumbered id ctx v = elim (Bool-cases (is_some (find_first (is_job id) ctx.jobs))) [
  | inl e ↦
      rw e (update-IsNumbered (is_job id) (λ j. record j { state = cancelled }) ctx (λ j. refl) v)
  | inr e ↦ rw e v
]

update_chunk_result-IsNumbered :
    (id chunk_id : ℕ) (result : ChunkState) (sum : Option Bytes) (ctx : Context)
    → IsNumbered ctx
    → IsNumbered (update_chunk_result id chunk_id result sum ctx).0
unfolding update_chunk_result
update_chunk_result-IsNumbered id chunk_id result sum ctx v =
    elim (Bool-cases (is_some (find_first (takes id chunk_id) ctx.jobs))) [
      | inl e ↦ rw e (
          update-IsNumbered (takes id chunk_id) (report_job chunk_id result sum) ctx
            (report_job-id chunk_id result sum) v)
      | inr e ↦ rw e v
    ]

step-IsNumbered : (ctx : Context) (c : Call) → IsNumbered ctx → IsNumbered (step ctx c)
unfolding step check_deadlines
step-IsNumbered ctx (submits desc now) v = submit-IsNumbered desc now ctx v
step-IsNumbered ctx (cancels id) v = cancel-IsNumbered id ctx v
step-IsNumbered ctx (updates id chunk_id result sum) v =
    update_chunk_result-IsNumbered id chunk_id result sum ctx v
step-IsNumbered ctx (checks now) v = record {
  fit = omega (arith, v.fit, length-map_jobs (check_deadline now) ctx.jobs);
  ids = CountUp-map (check_deadline now) 1001 ctx.jobs (check_deadline-id now) v.ids;
  next = omega (arith, v.next, length-map_jobs (check_deadline now) ctx.jobs);
}

run-IsNumbered : (ctx : Context) (cs : List Call) → IsNumbered ctx → IsNumbered (run ctx cs)
unfolding run
run-IsNumbered ctx [] v = v
run-IsNumbered ctx (c ∷ cs) v = run-IsNumbered (step ctx c) cs (step-IsNumbered ctx c v)

-- After any sequence of calls there are at most 32 workloads, with the ids 1001, 1002 and so on in
-- order, and the next id is the one after them.
pub run-init-IsNumbered : (cs : List Call) → IsNumbered (run init cs)
unfolding init
run-init-IsNumbered cs =
    run-IsNumbered _ cs (record { fit = omega arith; ids = tt; next = omega arith })

find_fresh :
    (n id : ℕ) (js : List Job)
    → CountUp n js
    → n + length js ≤ id
    → find_first (is_job id) js ≡ none
unfolding find_first
find_fresh n id [] c h = refl
find_fresh n id (j ∷ js) c h = ground (arith, c.0, find_fresh (suc n) id js c.1)

find_last :
    (id : ℕ) (js : List Job) (j : Job)
    → find_first (is_job id) js ≡ none
    → j.workload_id ≡ id
    → find_first (is_job id) (js ++ j ∷ []) ≡ some j
unfolding find_first
find_last id [] j h e = ground arith
find_last id (k ∷ js) j h e = ground (arith, find_last id js j)

-- With room for it, a splittable workload is accepted under an id that is not 0 and that no workload
-- had before, and stands under that id afterwards.
pub submit_fresh :
    (desc : UserWorkloadDesc) (now : ℕ) (ctx : Context)
    → IsNumbered ctx
    → desc.is_splittable ≡ true
    → length ctx.jobs < max_active_workloads
    → let r = submit desc now ctx in
      (r.1 ≢ 0)
      × (find_first (is_job r.1) ctx.jobs ≡ none)
      × (find_first (is_job r.1) r.0.jobs ≡ some (submitted_job desc r.1 now))
unfolding submit
submit_fresh desc now ctx v split room =
    let next = ctx.next_workload_id in
    let before = find_fresh 1001 next ctx.jobs v.ids (omega (arith, v.next)) in
    let accepted : submit desc now ctx ≡ (
      record {
        jobs = ctx.jobs ++ submitted_job desc next now ∷ [];
        next_workload_id = add64 next 1;
      },
      next,
    ) =
      ground arith in
    rw accepted (
      omega (arith, v.next),
      before,
      find_last next ctx.jobs (submitted_job desc next now) before (submitted_job-id desc next now),
    )
