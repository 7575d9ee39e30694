-- ===== src/Agent.antt =====
-- agent/src/heartbeat.c: the agent, which reports the load of its machine. `Load` is about the share of the
-- processor that is busy.
-- What /proc/stat holds, what `poll` and `read` give and whether a thread is made are parameters. A double is kept
-- as the two numbers that it is the quotient of, before the factor of 100. The time-out of the poll is left out.
pub mod Load
mod Tests
use void_os_merger.Base.{
  ℕ, ◌+◌, ◌%◌, Bool, true, false, Option, none, some, List, [], ◌∷◌, leb, ltb, if◌then◌else◌, add64,
  sub64,
}

pub data CpuArch : Type 0 where
  x86_64 aarch64 armv7 arch_unknown : CpuArch

pub data LinkType : Type 0 where
  eth wifi cellular link_unknown : LinkType

pub record Capabilities : Type 0 where
  pub arch : CpuArch
  pub cores_online : ℕ
  pub cores_total : ℕ
  pub feature_bitmap : ℕ
  pub ram_total_mb : ℕ
  pub ram_free_mb : ℕ
  pub battery_percent : ℕ
  pub is_charging : Bool
  pub is_ac_online : Bool
  pub display_attached : Bool
  pub display_width : ℕ
  pub display_height : ℕ
  pub touch_supported : Bool
  pub network_link_type : LinkType
  pub network_bandwidth_kbps : ℕ

pub record CpuTicks : Type 0 where
  pub user : ℕ
  pub nice : ℕ
  pub system : ℕ
  pub idle : ℕ
  pub iowait : ℕ
  pub irq : ℕ
  pub softirq : ℕ
  pub steal : ℕ

-- The capabilities that are kept, and whether the thread that refreshes them runs.
pub record Probe : Type 0 where
  pub cached_caps : Capabilities
  pub thread_active : Bool

-- The bitmap is left as it was.
unfoldable pub sys_info_collect : Capabilities → Capabilities
sys_info_collect out = record {
  arch = x86_64;
  cores_online = 8;
  cores_total = 8;
  feature_bitmap = out.feature_bitmap;
  ram_total_mb = 16384;
  ram_free_mb = 8192;
  battery_percent = 95;
  is_charging = true;
  is_ac_online = true;
  display_attached = true;
  display_width = 1920;
  display_height = 1080;
  touch_supported = true;
  network_link_type = eth;
  network_bandwidth_kbps = 1000000;
}

-- One turn of the thread, with what its variable on the stack holds from before.
unfoldable pub caps_refresh : Capabilities → Probe → Probe
caps_refresh stale p =
    if p.thread_active then record p { cached_caps = sys_info_collect stale } else p

unfoldable pub caps_init : Bool → Probe → Probe × Bool
caps_init thread_made p =
    let caps = sys_info_collect p.cached_caps in
    if p.thread_active
    then (p, true)
    else if thread_made
    then (record { cached_caps = caps; thread_active = true }, true)
    else (record { cached_caps = caps; thread_active = false }, false)

abbrev pub caps_snapshot : Probe → Capabilities
caps_snapshot p = p.cached_caps

unfoldable pub caps_deinit : Probe → Probe
caps_deinit p = record p { thread_active = false }

abbrev pub idle_of : CpuTicks → ℕ
idle_of t = add64 t.idle t.iowait

abbrev pub non_idle_of : CpuTicks → ℕ
non_idle_of t = add64 (add64 (add64 (add64 (add64 t.user t.nice) t.system) t.irq) t.softirq) t.steal

abbrev pub total_of : CpuTicks → ℕ
total_of t = add64 (idle_of t) (non_idle_of t)

pub record Share : Type 0 where
  pub busy : ℕ
  pub total : ℕ

abbrev pub no_share : Share
no_share = record { busy = 0; total = 1 }

unfoldable pub calculate_cpu_percentage : CpuTicks → CpuTicks → Share
calculate_cpu_percentage prev curr =
    let total_delta = sub64 (total_of curr) (total_of prev) in
    let idle_delta = sub64 (idle_of curr) (idle_of prev) in
    if leb (total_of curr) (total_of prev)
    then no_share
    else record { busy = sub64 total_delta idle_delta; total = total_delta }

-- `heartbeats` is what was printed, the share and the free memory, the last one first.
pub record Agent : Type 0 where
  pub prev_ticks : CpuTicks
  pub is_running : Bool
  pub heartbeats : List (Share × ℕ)

unfoldable pub heartbeat_emit : Share → Probe → Agent → Agent
heartbeat_emit share p a = record a {
  heartbeats = (share, (caps_snapshot p).ram_free_mb) ∷ a.heartbeats;
}

-- What the poll gives: an error, no input in time, or a descriptor that is ready, with whether input is there and
-- whether `read` returned some of it.
pub data Polled : Type 0 where
  fails times_out : Polled
  is_ready : Bool → Bool → Polled

-- A share that cannot be sampled is reported as 0.
unfoldable pub sampled : Option CpuTicks → Probe → Agent → Agent
sampled none p a = heartbeat_emit no_share p a
sampled (some curr) p a = record (heartbeat_emit (calculate_cpu_percentage a.prev_ticks curr) p a) {
  prev_ticks = curr;
}

unfoldable pub agent_round : Polled → Option CpuTicks → Probe → Agent → Agent
agent_round fails sample p a = record a { is_running = false }
agent_round times_out sample p a = sampled sample p a
agent_round (is_ready has_input was_read) sample p a =
    if has_input then if was_read then record a { is_running = false } else a else a

-- What a round meets: the answer of the poll, the sample if one is taken, and the probe as the thread left it.
pub record AgentRound : Type 0 where
  pub polled : Polled
  pub sample : Option CpuTicks
  pub probe : Probe

unfoldable pub agent_loop : List AgentRound → Agent → Agent
agent_loop [] a = a
agent_loop (r ∷ rs) a = elim a.is_running [
  | true ↦ agent_loop rs (agent_round r.polled r.sample r.probe a)
  | false ↦ a
]
