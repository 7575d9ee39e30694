-- ===== src/Agent/Load.antt =====
-- agent/src/heartbeat.c: the share of the processor that is busy.
use void_os_merger.Base.{ℕ, ◌+◌, ◌^◌, ◌<◌, ◌≤◌, ◌≡◌, ◌↔◌, arith}
use void_os_merger.Agent.{CpuTicks, calculate_cpu_percentage}

-- The sums of the counters, as numbers.
abbrev pub idle_ticks : CpuTicks → ℕ
idle_ticks t = t.idle + t.iowait

abbrev pub busy_ticks : CpuTicks → ℕ
busy_ticks t = t.user + t.nice + t.system + t.irq + t.softirq + t.steal

-- Of two samples whose sums fit 64 bits and grow, the busy ticks not going down, the share is at most 1 exactly if the
-- ticks of idle and waiting time have not gone down either, and then its parts are the busy ticks and all ticks
-- in between.
pub calculate_cpu_percentage_le_iff :
    (prev curr : CpuTicks)
    → idle_ticks curr + busy_ticks curr < 2 ^ 64
    → idle_ticks prev + busy_ticks prev < idle_ticks curr + busy_ticks curr
    → busy_ticks prev ≤ busy_ticks curr
    → let share = calculate_cpu_percentage prev curr in
      ((share.busy ≤ share.total) ↔ (idle_ticks prev ≤ idle_ticks curr))
      × (idle_ticks prev ≤ idle_ticks curr
          → (share.busy + busy_ticks prev ≡ busy_ticks curr)
            × (share.total + (idle_ticks prev + busy_ticks prev)
                ≡ idle_ticks curr + busy_ticks curr))
unfolding calculate_cpu_percentage
calculate_cpu_percentage_le_iff prev curr fits grows works = ground (arith, fits, grows, works)
