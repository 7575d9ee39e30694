-- ===== src/Agent/Tests.antt =====
-- agent/src/heartbeat.c: two samples of the processor.
use void_os_merger.Base.{◌+◌, ◌≤◌, ◌≡◌, ◌↔◌, arith}
use void_os_merger.Agent.{CpuTicks, calculate_cpu_percentage}
use void_os_merger.Agent.Load.{idle_ticks, busy_ticks, calculate_cpu_percentage_le_iff}

abbrev earlier : CpuTicks
earlier = record {
  user = 100;
  nice = 0;
  system = 50;
  idle = 800;
  iowait = 20;
  irq = 0;
  softirq = 5;
  steal = 0;
}

abbrev later : CpuTicks
later = record {
  user = 160;
  nice = 0;
  system = 60;
  idle = 850;
  iowait = 25;
  irq = 1;
  softirq = 6;
  steal = 0;
}

calculate_cpu_percentage_le_iff_example :
    let share = calculate_cpu_percentage earlier later in
    ((share.busy ≤ share.total) ↔ (idle_ticks earlier ≤ idle_ticks later))
    × (idle_ticks earlier ≤ idle_ticks later
        → (share.busy + busy_ticks earlier ≡ busy_ticks later)
          × (share.total + (idle_ticks earlier + busy_ticks earlier)
              ≡ idle_ticks later + busy_ticks later))
calculate_cpu_percentage_le_iff_example =
    calculate_cpu_percentage_le_iff earlier later (omega arith) (omega arith) (omega arith)
