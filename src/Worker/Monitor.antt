-- ===== src/Worker/Monitor.antt =====
-- worker/src/resource_monitor.c: the last samples of the resources of a worker, in a ring. `Samples` is about
-- what is read back from the ring, `Deductions` about what becomes of a sample that is used again.
-- The two floats of a sample are set to constants and copied, no more: they stand in tenths.
pub mod Samples
pub mod Deductions
use void_os_merger.Base.{
  ℕ, ◌+◌, ◌-◌, ◌%◌, Bool, true, false, Option, none, some, List, ltb, leb, ◌==◌, if◌then◌else◌,
  length, get_elem?, modify, replicate, sub64,
}

abbrev pub max_samples : ℕ
max_samples = 10

abbrev pub probe_cooldown_ms : ℕ
probe_cooldown_ms = 2000

abbrev pub stale_threshold_ms : ℕ
stale_threshold_ms = 10000

pub data SampleFreshness : Type 0 where
  fresh stale unavailable : SampleFreshness

pub data ThermalTier : Type 0 where
  nominal throttled critical : ThermalTier

pub record ResourceSample : Type 0 where
  pub timestamp_ms : ℕ
  pub status : SampleFreshness
  pub cpu_utilization_pct : ℕ
  pub effective_cpu_units_available : ℕ
  pub free_ram_mb : ℕ
  pub reclaimable_ram_mb : ℕ
  pub free_storage_mb : ℕ
  pub current_io_read_mbps : ℕ
  pub battery_percentage : ℕ
  pub thermal_state : ThermalTier

pub record Monitor : Type 0 where
  pub history : List ResourceSample
  pub head_idx : ℕ
  pub sample_count : ℕ
  pub reserved_cpu_units : ℕ
  pub reserved_memory_mb : ℕ
  pub last_heavy_probe_timestamp_ms : ℕ

-- A sample of zeros.
abbrev pub blank_sample : ResourceSample
blank_sample = record {
  timestamp_ms = 0;
  status = fresh;
  cpu_utilization_pct = 0;
  effective_cpu_units_available = 0;
  free_ram_mb = 0;
  reclaimable_ram_mb = 0;
  free_storage_mb = 0;
  current_io_read_mbps = 0;
  battery_percentage = 0;
  thermal_state = nominal;
}

unfoldable pub init : Monitor
init = record {
  history = replicate max_samples blank_sample;
  head_idx = 0;
  sample_count = 0;
  reserved_cpu_units = 0;
  reserved_memory_mb = 0;
  last_heavy_probe_timestamp_ms = 0;
}

unfoldable pub previous_idx : ℕ → ℕ
previous_idx head = if ltb 0 head then head - 1 else max_samples - 1

-- `history[i]`; the index is always one of the ring.
abbrev pub sample_or_blank : Option ResourceSample → ResourceSample
sample_or_blank none = blank_sample
sample_or_blank (some s) = s

-- The sample before the head.
unfoldable pub latest : Monitor → ResourceSample
latest m = sample_or_blank (get_elem? m.history (previous_idx m.head_idx))

abbrev pub heavy_probe : ResourceSample
heavy_probe = record blank_sample {
  cpu_utilization_pct = 225;
  free_ram_mb = 4096;
  reclaimable_ram_mb = 512;
  free_storage_mb = 250000;
  current_io_read_mbps = 45;
  battery_percentage = 880;
  thermal_state = nominal;
}

abbrev pub used_again : ResourceSample → ResourceSample
used_again last = record blank_sample {
  cpu_utilization_pct = last.cpu_utilization_pct;
  free_ram_mb = last.free_ram_mb;
  reclaimable_ram_mb = last.reclaimable_ram_mb;
  free_storage_mb = last.free_storage_mb;
  current_io_read_mbps = last.current_io_read_mbps;
  battery_percentage = last.battery_percentage;
  thermal_state = last.thermal_state;
}

-- The reservations are taken off, and the sample gets its time.
unfoldable pub deduct : ℕ → Monitor → ResourceSample → ResourceSample
deduct now m s = record s {
  effective_cpu_units_available =
      if ltb m.reserved_cpu_units 4 then 4 - m.reserved_cpu_units else 0;
  free_ram_mb =
      if ltb m.reserved_memory_mb s.free_ram_mb then s.free_ram_mb - m.reserved_memory_mb else 0;
  timestamp_ms = now;
  status = fresh;
}

unfoldable pub execute_hardware_metrics_probe : ℕ → Monitor → ResourceSample × Monitor
execute_hardware_metrics_probe now m =
    if leb probe_cooldown_ms (sub64 now m.last_heavy_probe_timestamp_ms)
    then (deduct now m heavy_probe, record m { last_heavy_probe_timestamp_ms = now })
    else if ltb 0 m.sample_count
    then (deduct now m (used_again (latest m)), m)
    else (record blank_sample { status = unavailable }, m)

unfoldable pub store : ResourceSample → Monitor → Monitor
store s m = record m {
  history = modify (λ _. s) m.head_idx m.history;
  head_idx = (m.head_idx + 1) % max_samples;
  sample_count = if ltb m.sample_count max_samples then m.sample_count + 1 else m.sample_count;
}

unfoldable pub record_sample : ℕ → Monitor → Monitor
record_sample now m = let probed = execute_hardware_metrics_probe now m in store probed.0 probed.1

unfoldable pub update_reservations : ℕ → ℕ → Monitor → Monitor
update_reservations cpu_units memory_mb m = record m {
  reserved_cpu_units = cpu_units;
  reserved_memory_mb = memory_mb;
}

abbrev pub is_fresh : SampleFreshness → Bool
is_fresh fresh = true
is_fresh stale = false
is_fresh unavailable = false

unfoldable pub aged : ℕ → ResourceSample → ResourceSample
aged now s =
    if ltb stale_threshold_ms (sub64 now s.timestamp_ms) then record s { status = stale } else s

-- The sample, or none where there is none, and whether it is fresh.
unfoldable pub get_latest_availability : ℕ → Monitor → Option ResourceSample × Bool
get_latest_availability now m =
    let found = aged now (latest m) in
    if m.sample_count == 0 then (none, false) else (some found, is_fresh found.status)
