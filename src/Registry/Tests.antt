-- ===== src/Registry/Tests.antt =====
-- master/src/registry.c: two workers that join, and a sweep after one falls silent.
use void_os_merger.Base.{Both, Bytes, true, false, ◌≡◌, List, [], ◌∷◌, arith, take}
use void_os_merger.Registry.{Capabilities, sweep_stale}
use void_os_merger.Registry.Sweep.{IsSwept, AreNames, sweep_stale-IsSwept}
use void_os_merger.Registry.History.{joins, heartbeats, tracks}
use void_os_merger.Registry.Snapshots.{
  Access, calls, acquires, releases, opened, access_all, IsSoundContext,
  access_all-opened-IsSoundContext,
}

abbrev tablet : Capabilities
tablet = record {
  arch = 1;
  cores_online = 4;
  cores_total = 8;
  feature_bitmap = 0;
  ram_total_mb = 4096;
  ram_free_mb = 1024;
  battery_percent = 80;
  is_charging = false;
  is_ac_online = false;
  display_attached = true;
  display_width = 1920;
  display_height = 1080;
  touch_supported = true;
  network_link_type = 1;
  network_bandwidth_kbps = 50000;
}

abbrev history : List Access
history =
    calls (joins (97 ∷ []) (116 ∷ []) tablet 100)
    ∷ calls (joins (98 ∷ []) (116 ∷ []) tablet 100)
    ∷ calls (heartbeats (98 ∷ []) tablet 9000)
    ∷ calls (tracks (97 ∷ []) 5)
    ∷ acquires
    ∷ releases 0
    ∷ []

access_all-opened-IsSoundContext_example : IsSoundContext (access_all opened history)
access_all-opened-IsSoundContext_example = access_all-opened-IsSoundContext history

sweep_stale-IsSwept_example :
    let s = (access_all opened history).state in
    Both (IsSwept 10000 5000) s.records (sweep_stale 10000 5000 1 s).0.records
    × (names : List Bytes) × AreNames 10000 5000 s.records names
    × ((sweep_stale 10000 5000 1 s).1 ≡ take 1 names)
sweep_stale-IsSwept_example =
    sweep_stale-IsSwept 10000 5000 1 (access_all opened history).state (omega arith)
