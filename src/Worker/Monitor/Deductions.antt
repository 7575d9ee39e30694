-- ===== src/Worker/Monitor/Deductions.antt =====
-- worker/src/resource_monitor.c: a sample that is used again within the cooldown of the probe.
use void_os_merger.Base.{
  ℕ, suc, ◌+◌, ◌*◌, ◌-◌, ◌^◌, ◌<◌, ◌≤◌, ◌≡◌, refl, sym, subst, ap, ◌∙◌, List, [], ◌∷◌, arith, All,
  length, ltb, leb, sub64, true, false,
}
use void_os_merger.Worker.Monitor.{
  Monitor, ResourceSample, init, latest, store, deduct, used_again, heavy_probe, record_sample,
  update_reservations, execute_hardware_metrics_probe, probe_cooldown_ms,
}
use void_os_merger.Worker.Monitor.Samples.{
  IsRing, latest-store, store-IsRing, init-IsRing, run-IsRing, run, after, reserves,
}

unfoldable pub record_all : List ℕ → Monitor → Monitor
record_all [] m = m
record_all (t ∷ ts) m = record_all ts (record_sample t m)

-- The state after a heavy probe at this time, with samples in the ring and this memory reserved.
record IsProbed (start memory_mb free : ℕ) (m : Monitor) : Type 0 where
  pub ring : IsRing m
  pub counted : ltb 0 m.sample_count ≡ true
  pub probed : m.last_heavy_probe_timestamp_ms ≡ start
  pub reserved : m.reserved_memory_mb ≡ memory_mb
  pub free_ram : (latest m).free_ram_mb ≡ free

abbrev pub IsWithin : ℕ → ℕ → Type 0
IsWithin start t = (start ≤ t) × (t < start + probe_cooldown_ms)

cooldown :
    (start t : ℕ) → IsWithin start t → t < 2 ^ 64 → leb probe_cooldown_ms (sub64 t start) ≡ false
cooldown start t w fits = ground (arith, w.0, w.1, fits)

free_ram-deduct :
    (now : ℕ) (m : Monitor) (s : ResourceSample)
    → (deduct now m s).free_ram_mb ≡ s.free_ram_mb - m.reserved_memory_mb
unfolding deduct
free_ram-deduct now m s = ground arith

store-IsProbed :
    (start memory_mb free : ℕ) (s : ResourceSample) (m : Monitor)
    → IsRing m
    → m.last_heavy_probe_timestamp_ms ≡ start
    → m.reserved_memory_mb ≡ memory_mb
    → s.free_ram_mb ≡ free
    → IsProbed start memory_mb free (store s m)
store-IsProbed start memory_mb free s m v l r f = record {
  ring = store-IsRing s m v;
  counted = unfold store in ground arith;
  probed = unfold store in l;
  reserved = unfold store in r;
  free_ram = ap (λ x. x.free_ram_mb) (latest-store s m v) ∙ f;
}

record_sample_reuses :
    (now : ℕ) (m : Monitor)
    → leb probe_cooldown_ms (sub64 now m.last_heavy_probe_timestamp_ms) ≡ false
    → ltb 0 m.sample_count ≡ true
    → record_sample now m ≡ store (deduct now m (used_again (latest m))) m
unfolding record_sample execute_hardware_metrics_probe
record_sample_reuses now m soon counted = rw (soon, counted) refl

record_sample_probes :
    (now : ℕ) (m : Monitor)
    → leb probe_cooldown_ms (sub64 now m.last_heavy_probe_timestamp_ms) ≡ true
    → record_sample now m
      ≡ store (deduct now m heavy_probe) (record m { last_heavy_probe_timestamp_ms = now })
unfolding record_sample execute_hardware_metrics_probe
record_sample_probes now m over = rw over refl

heavy_IsRing :
    (now : ℕ) (m : Monitor) → IsRing m → IsRing (record m { last_heavy_probe_timestamp_ms = now })
heavy_IsRing now m v = record { slots = v.slots; head = v.head; filled = v.filled }

record_sample-IsProbed :
    (start memory_mb free t : ℕ) (m : Monitor)
    → IsWithin start t
    → t < 2 ^ 64
    → IsProbed start memory_mb free m
    → IsProbed start memory_mb (free - memory_mb) (record_sample t m)
record_sample-IsProbed start memory_mb free t m w fits p =
    let soon : leb probe_cooldown_ms (sub64 t m.last_heavy_probe_timestamp_ms) ≡ false =
      ap (λ l. leb probe_cooldown_ms (sub64 t l)) p.probed ∙ cooldown start t w fits in
    subst (IsProbed start memory_mb (free - memory_mb))
      (sym (record_sample_reuses t m soon p.counted))
      (store-IsProbed start memory_mb (free - memory_mb) _ m p.ring p.probed p.reserved (
        free_ram-deduct t m (used_again (latest m))
        ∙ ap (λ f. f - m.reserved_memory_mb) p.free_ram
        ∙ ap (λ r. free - r) p.reserved))

take_off : (free r n : ℕ) → free - r - n * r ≡ free - suc n * r
take_off free r n = omega arith

record_all-IsProbed :
    (start memory_mb free : ℕ) (ts : List ℕ) (m : Monitor)
    → All (IsWithin start) ts
    → start + probe_cooldown_ms ≤ 2 ^ 64
    → IsProbed start memory_mb free m
    → IsProbed start memory_mb (free - length ts * memory_mb) (record_all ts m)
unfolding record_all
record_all-IsProbed start memory_mb free [] m a fits p =
    subst (λ f. IsProbed start memory_mb f m) (omega arith) p
record_all-IsProbed start memory_mb free (t ∷ ts) m a fits p =
    subst (λ f. IsProbed start memory_mb f (record_all ts (record_sample t m)))
      (take_off free memory_mb (length ts))
      (record_all-IsProbed start memory_mb (free - memory_mb) ts (record_sample t m) a.1 fits
        (record_sample-IsProbed start memory_mb free t m a.0 (omega (arith, a.0.1, fits)) p))

update_reservations-IsRing :
    (cpu_units memory_mb : ℕ) → IsRing (update_reservations cpu_units memory_mb init)
update_reservations-IsRing cpu_units memory_mb =
    unfold run after in run-IsRing (reserves cpu_units memory_mb ∷ []) init init-IsRing

record_sample-first :
    (start cpu_units memory_mb : ℕ)
    → probe_cooldown_ms ≤ start
    → start < 2 ^ 64
    → IsProbed start memory_mb
        (4096 - memory_mb)
        (record_sample start (update_reservations cpu_units memory_mb init))
record_sample-first start cpu_units memory_mb late fits =
    let m = update_reservations cpu_units memory_mb init in
    subst (IsProbed start memory_mb (4096 - memory_mb))
      (sym (
        record_sample_probes start m
          (unfold update_reservations init in ground (arith, late, fits))))
      (store-IsProbed start memory_mb (4096 - memory_mb) _
        (record m { last_heavy_probe_timestamp_ms = start })
        (heavy_IsRing start m (update_reservations-IsRing cpu_units memory_mb)) refl
        (unfold update_reservations in refl)
        (free_ram-deduct start m heavy_probe
          ∙ ap (λ r. 4096 - r) (unfold update_reservations in refl)))

-- After a probe of 4096 MB, the samples of the next two seconds take the memory that is reserved off once more
-- each: of n samples, the last one has 4096 MB less n times the reserved memory, or nothing left, though
-- the reservations are as they were.
pub free_ram-record_all :
    (start cpu_units memory_mb : ℕ) (ts : List ℕ)
    → probe_cooldown_ms ≤ start
    → start + probe_cooldown_ms ≤ 2 ^ 64
    → All (IsWithin start) ts
    → (latest (record_all (start ∷ ts) (update_reservations cpu_units memory_mb init))).free_ram_mb
      ≡ 4096 - length (start ∷ ts) * memory_mb
free_ram-record_all start cpu_units memory_mb ts late fits a =
    let m = update_reservations cpu_units memory_mb init in
    let probed : IsProbed start memory_mb (4096 - memory_mb - length ts * memory_mb)
        (record_all (start ∷ ts) m) =
      unfold record_all in
      record_all-IsProbed start memory_mb (4096 - memory_mb) ts (record_sample start m) a fits
        (record_sample-first start cpu_units memory_mb late (omega (arith, fits))) in
    probed.free_ram ∙ take_off 4096 memory_mb (length ts)
