-- ===== src/Worker/Executor/Account.antt =====
-- worker/src/executor.c: the reservations of executions that begin and end in any order.
use void_os_merger.Base.{
  ℕ, zero, suc, ◌+◌, ◌≤◌, ◌≡◌, refl, sym, subst, Bool, true, none, some, List, [], ◌∷◌, arith,
  get_elem?, Bool-cases, Option-cases, inl, inr, if◌then◌else◌, Bytes,
}
use void_os_merger.Worker.Executor.{
  Assignment, Reserved, host_caps, ram_bytes, validate, reserve_local_resources,
  release_local_resources,
}

-- The executions between their reservation and its release.
pub record System : Type 0 where
  pub reserved : Reserved
  pub running : List Assignment

abbrev pub idle_system : System
idle_system = record { reserved = record { cores = 0; memory_bytes = 0 }; running = [] }

pub data Event : Type 0 where
  begins : (Bytes → Bool) → Assignment → Event
  ends : ℕ → Event

unfoldable pub without : ℕ → List Assignment → List Assignment
without i [] = []
without zero (a ∷ as') = as'
without (suc i) (a ∷ as') = a ∷ without i as'

unfoldable pub step : System → Event → System
step sys (begins executable a) =
    if validate executable a host_caps
    then elim (reserve_local_resources a host_caps sys.reserved) [
      | none ↦ sys
      | some r ↦ record { reserved = r; running = a ∷ sys.running }
    ]
    else sys
step sys (ends i) = elim (get_elem? sys.running i) [
  | none ↦ sys
  | some a ↦ record {
    reserved = release_local_resources a sys.reserved;
    running = without i sys.running;
  }
]

unfoldable pub run_events : System → List Event → System
run_events sys [] = sys
run_events sys (e ∷ es) = run_events (step sys e) es

unfoldable pub total_cores : List Assignment → ℕ
total_cores [] = 0
total_cores (a ∷ as') = a.required_cores + total_cores as'

unfoldable pub total_memory : List Assignment → ℕ
total_memory [] = 0
total_memory (a ∷ as') = a.required_memory_bytes + total_memory as'

-- What is reserved is what the running executions asked for, and within the host: 8 cores and 16 GB.
pub record IsAccounted (sys : System) : Type 0 where
  pub cores : sys.reserved.cores ≡ total_cores sys.running
  pub memory : sys.reserved.memory_bytes ≡ total_memory sys.running
  pub cores_fit : sys.reserved.cores ≤ 8
  pub memory_fits : sys.reserved.memory_bytes ≤ 17179869184

-- What passes validation asks for no more than the host has.
pub validated_fits :
    (executable : Bytes → Bool) (a : Assignment)
    → validate executable a host_caps ≡ true
    → (a.required_cores ≤ 8) × (a.required_memory_bytes ≤ 17179869184)
unfolding validate host_caps ram_bytes
validated_fits executable a h = ground arith

pub record Granted (a : Assignment) (r s : Reserved) : Type 0 where
  pub cores : s.cores ≡ r.cores + a.required_cores
  pub memory : s.memory_bytes ≡ r.memory_bytes + a.required_memory_bytes
  pub cores_fit : s.cores ≤ 8
  pub memory_fits : s.memory_bytes ≤ 17179869184

-- A reservation that is granted is added, without a wrap, and within the host.
pub reserve-Granted :
    (a : Assignment) (r s : Reserved)
    → (a.required_cores ≤ 8) × (a.required_memory_bytes ≤ 17179869184)
    → r.cores ≤ 8
    → r.memory_bytes ≤ 17179869184
    → reserve_local_resources a host_caps r ≡ some s
    → Granted a r s
unfolding reserve_local_resources host_caps ram_bytes
reserve-Granted a r s (p, q) c m e = record {
  cores = ground arith;
  memory = ground arith;
  cores_fit = ground arith;
  memory_fits = ground arith;
}

-- The release of a reservation gives it back exactly.
pub release-Granted :
    (a : Assignment) (r s : Reserved) → Granted a r s → release_local_resources a s ≡ r
unfolding release_local_resources
release-Granted a r s g = ground (arith, g.cores, g.memory)

total_without :
    (i : ℕ) (a : Assignment) (as' : List Assignment)
    → get_elem? as' i ≡ some a
    → (total_cores as' ≡ a.required_cores + total_cores (without i as'))
      × (total_memory as' ≡ a.required_memory_bytes + total_memory (without i as'))
unfolding total_cores total_memory without
total_without i a [] e = absurd (ground arith)
total_without zero a (b ∷ as') e = let same : b ≡ a = ground arith in rw same (refl, refl)
total_without (suc i) a (b ∷ as') e =
    let (p, q) = total_without i a as' e in (omega arith, omega arith)

step-begins :
    (executable : Bytes → Bool) (a : Assignment) (sys : System)
    → IsAccounted sys
    → IsAccounted (step sys (begins executable a))
unfolding step total_cores total_memory
step-begins executable a sys v = elim (Bool-cases (validate executable a host_caps)) [
  | inr e ↦ rw e v
  | inl e ↦ rw e (elim (Option-cases (reserve_local_resources a host_caps sys.reserved)) [
    | inl n ↦ rw n v
    | inr (r, p) ↦
        let g =
          reserve-Granted a sys.reserved r (validated_fits executable a e) v.cores_fit v.memory_fits
            p in
        rw p (record {
          cores = omega (arith, g.cores, v.cores);
          memory = omega (arith, g.memory, v.memory);
          cores_fit = g.cores_fit;
          memory_fits = g.memory_fits;
        })
  ])
]

ended_system : ℕ → Assignment → System → System
ended_system i a sys = record {
  reserved = release_local_resources a sys.reserved;
  running = without i sys.running;
}

step_ends_none : (i : ℕ) (sys : System) → get_elem? sys.running i ≡ none → step sys (ends i) ≡ sys
unfolding step
step_ends_none i sys e = ground arith

step_ends_some :
    (i : ℕ) (a : Assignment) (sys : System)
    → get_elem? sys.running i ≡ some a
    → step sys (ends i) ≡ ended_system i a sys
unfolding step ended_system
step_ends_some i a sys e = ground arith

ended_system-IsAccounted :
    (i : ℕ) (a : Assignment) (sys : System)
    → get_elem? sys.running i ≡ some a
    → IsAccounted sys
    → IsAccounted (ended_system i a sys)
unfolding ended_system release_local_resources
ended_system-IsAccounted i a sys e v =
    let (p, q) = total_without i a sys.running e in
    record {
      cores = ground (arith, p, v.cores);
      memory = ground (arith, q, v.memory);
      cores_fit = ground (arith, v.cores_fit);
      memory_fits = ground (arith, v.memory_fits);
    }

step-ends : (i : ℕ) (sys : System) → IsAccounted sys → IsAccounted (step sys (ends i))
step-ends i sys v = elim (Option-cases (get_elem? sys.running i)) [
  | inl n ↦ subst IsAccounted (sym (step_ends_none i sys n)) v
  | inr (a, e) ↦
      subst IsAccounted (sym (step_ends_some i a sys e)) (ended_system-IsAccounted i a sys e v)
]

run_events-IsAccounted :
    (sys : System) (es : List Event) → IsAccounted sys → IsAccounted (run_events sys es)
unfolding run_events
run_events-IsAccounted sys [] v = v
run_events-IsAccounted sys (begins x a ∷ es) v =
    run_events-IsAccounted (step sys (begins x a)) es (step-begins x a sys v)
run_events-IsAccounted sys (ends i ∷ es) v =
    run_events-IsAccounted (step sys (ends i)) es (step-ends i sys v)

-- However executions begin and end, from none on, the reserved cores and memory are exactly the sums of
-- what those between their begin and end asked for, and never more than the 8 cores and 16 GB of the host.
pub run_events-idle_system-IsAccounted : (es : List Event) → IsAccounted (run_events idle_system es)
run_events-idle_system-IsAccounted es = run_events-IsAccounted idle_system es (record {
  cores = unfold total_cores in refl;
  memory = unfold total_memory in refl;
  cores_fit = omega arith;
  memory_fits = omega arith;
})
