-- ===== src/Scheduler/Filters.antt =====
-- master/src/scheduler.c: what `evaluate_hard_filters` lets through.
use void_os_merger.Base.{ℕ, ◌+◌, ◌≤◌, ◌≡◌, ◌≢◌, ◌↔◌, ◌⊎◌, true, arith}
use void_os_merger.Scheduler.{WorkerView, ChunkPlan, evaluate_hard_filters}

-- A demand that an amount with a part reserved can meet: the free part covers it, or it is 0.
abbrev pub Covers : ℕ → ℕ → ℕ → Type 0
Covers total reserved demand = (reserved + demand ≤ total) ⊎ (demand ≡ 0)

-- The worker a chunk asks for.
pub record IsEligible {F : Type 0} (c : ChunkPlan) (w : WorkerView F) : Type 0 where
  pub healthy : w.healthy ≢ 0
  pub not_draining : w.draining ≡ 0
  pub platform : w.platform ≡ c.required_platform
  pub runtime : w.runtime ≡ c.required_runtime
  pub touch : (c.requires_touch ≡ 0) ⊎ (w.has_touch_input ≢ 0)
  pub cpu : Covers w.cpu_units w.reserv_cpu c.required_cpu
  pub memory : Covers w.free_memory_mb w.reserv_mem_mb c.required_memory_mb

-- The hard filters pass exactly the workers that a chunk may run on: healthy, not draining, of its
-- platform and runtime, with touch if it asks for it, and with its demands free, or of size 0.
pub evaluate_hard_filters-IsEligible :
    {F : Type 0} (c : ChunkPlan) (w : WorkerView F)
    → (evaluate_hard_filters c w ≡ true) ↔ IsEligible c w
unfolding evaluate_hard_filters
evaluate_hard_filters-IsEligible c w = (λ h. ground arith, λ e. ground arith)
