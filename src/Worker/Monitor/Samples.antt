-- ===== src/Worker/Monitor/Samples.antt =====
-- worker/src/resource_monitor.c: the ring gives back the sample that was stored last.
use void_os_merger.Base.{
  ◌-◌, Bool, true, Option, ◌⊎◌, subst, sym, ℕ, zero, suc, ◌+◌, ◌<◌, ◌≤◌, ◌≡◌, ◌%◌, refl, ap, false,
  ◌∙◌, some, List, [], ◌∷◌, arith, length, get_elem?, modify, length-modify, Bool-cases, inl, inr,
  ltb, leb, ◌==◌, sub64,
}
use void_os_merger.Worker.Monitor.{
  SampleFreshness, fresh, stale, deduct, heavy_probe, used_again, Monitor, ResourceSample, init,
  previous_idx, sample_or_blank, latest, store, record_sample, update_reservations,
  execute_hardware_metrics_probe, probe_cooldown_ms, get_latest_availability, aged, is_fresh,
  max_samples,
}

-- The ring has its ten slots, the head is one of them, and the count is one of the ring.
pub record IsRing (m : Monitor) : Type 0 where
  pub slots : length m.history ≡ max_samples
  pub head : m.head_idx < max_samples
  pub filled : m.sample_count ≤ max_samples

-- What a call may be.
pub data Event : Type 0 where
  samples : ℕ → Event
  reserves : ℕ → ℕ → Event

unfoldable pub after : Event → Monitor → Monitor
after (samples now) m = record_sample now m
after (reserves cpu_units memory_mb) m = update_reservations cpu_units memory_mb m

unfoldable pub run : List Event → Monitor → Monitor
run [] m = m
run (e ∷ es) m = run es (after e m)

get_elem?-modify :
    (s : ResourceSample) (i : ℕ) (ss : List ResourceSample)
    → i < length ss
    → get_elem? (modify (λ _. s) i ss) i ≡ some s
unfolding modify
get_elem?-modify s i [] h = ground (arith, h)
get_elem?-modify s zero (x ∷ xs) h = refl
get_elem?-modify s (suc i) (x ∷ xs) h = get_elem?-modify s i xs (omega (arith, h))

previous_idx-next : (i : ℕ) → i < max_samples → previous_idx ((i + 1) % max_samples) ≡ i
unfolding previous_idx
previous_idx-next i h = ground (arith, h)

pub latest-store : (s : ResourceSample) (m : Monitor) → IsRing m → latest (store s m) ≡ s
unfolding latest store
latest-store s m v =
    ap (λ i. sample_or_blank (get_elem? (modify (λ _. s) m.head_idx m.history) i))
      (previous_idx-next m.head_idx v.head)
    ∙ ap sample_or_blank (get_elem?-modify s m.head_idx m.history (omega (arith, v.slots, v.head)))

pub store-IsRing : (s : ResourceSample) (m : Monitor) → IsRing m → IsRing (store s m)
unfolding store
store-IsRing s m v = record {
  slots = length-modify (λ _. s) m.head_idx m.history ∙ v.slots;
  head = omega arith;
  filled = ground (arith, v.filled);
}

execute_hardware_metrics_probe-IsRing :
    (now : ℕ) (m : Monitor) → IsRing m → IsRing (execute_hardware_metrics_probe now m).1
unfolding execute_hardware_metrics_probe
execute_hardware_metrics_probe-IsRing now m v =
    elim (Bool-cases (leb probe_cooldown_ms (sub64 now m.last_heavy_probe_timestamp_ms))) [
      | inl over ↦ rw over (record { slots = v.slots; head = v.head; filled = v.filled })
      | inr soon ↦ rw soon (elim (Bool-cases (ltb 0 m.sample_count)) [
        | inl some_samples ↦ rw some_samples v
        | inr no_samples ↦ rw no_samples v
      ])
    ]

pub after-IsRing : (e : Event) (m : Monitor) → IsRing m → IsRing (after e m)
unfolding after record_sample update_reservations
after-IsRing (samples now) m v = store-IsRing _ _ (execute_hardware_metrics_probe-IsRing now m v)
after-IsRing (reserves cpu_units memory_mb) m v = record {
  slots = v.slots;
  head = v.head;
  filled = v.filled;
}

pub run-IsRing : (es : List Event) (m : Monitor) → IsRing m → IsRing (run es m)
unfolding run
run-IsRing [] m v = v
run-IsRing (e ∷ es) m v = run-IsRing es (after e m) (after-IsRing e m v)

pub init-IsRing : IsRing init
unfolding init
init-IsRing = record { slots = refl; head = omega arith; filled = omega arith }

latest-record_sample :
    (now : ℕ) (m : Monitor)
    → IsRing m
    → latest (record_sample now m) ≡ (execute_hardware_metrics_probe now m).0
unfolding record_sample
latest-record_sample now m v = latest-store _ _ (execute_hardware_metrics_probe-IsRing now m v)

store_counted : (s : ResourceSample) (m : Monitor) → ((store s m).sample_count == 0) ≡ false
unfolding store
store_counted s m = ground arith

latest-update_reservations :
    (cpu_units memory_mb : ℕ) (m : Monitor)
    → latest (update_reservations cpu_units memory_mb m) ≡ latest m
unfolding latest update_reservations
latest-update_reservations cpu_units memory_mb m = refl

get_latest_availability_counted :
    (later : ℕ) (m : Monitor)
    → (m.sample_count == 0) ≡ false
    → get_latest_availability later m
      ≡ (some (aged later (latest m)), is_fresh (aged later (latest m)).status)
unfolding get_latest_availability
get_latest_availability_counted later m h = rw h refl

-- A probe has something to give: the cooldown is over, or there is a sample to use again.
abbrev pub IsAvailable : ℕ → Monitor → Type 0
IsAvailable now m =
    (2000 ≤ (now + 18446744073709551616 - m.last_heavy_probe_timestamp_ms) % 18446744073709551616)
    ⊎ (0 < m.sample_count)

-- What is read at `later` of a sample that was recorded at `now`, on a clock of 64 bits.
abbrev pub IsAged : ℕ → ℕ → ResourceSample → Bool → Type 0
IsAged now later s answer =
    let age = (later + 18446744073709551616 - now) % 18446744073709551616 in
    (age ≤ 10000 → (s.status ≡ fresh) × (answer ≡ true))
    × (10000 < age → (s.status ≡ stale) × (answer ≡ false))

-- The sample that is read after a probe, and the answer.
pub record IsRead (now later : ℕ) (m : Monitor) (result : Option ResourceSample × Bool)
    : Type 0 where
  pub sample : ResourceSample
  pub found : result.0 ≡ some sample
  pub available :
      IsAvailable now m
      → (sample.timestamp_ms ≡ now)
        × (sample.effective_cpu_units_available ≡ 4 - m.reserved_cpu_units)
        × IsAged now later sample result.1
  pub unavailable : ¬ IsAvailable now m → (sample.timestamp_ms ≡ 0) × (result.1 ≡ false)

-- The sample of a probe.
record IsProbed (now : ℕ) (m : Monitor) (s : ResourceSample) : Type 0 where
  pub available :
      IsAvailable now m
      → (s.timestamp_ms ≡ now)
        × (s.status ≡ fresh)
        × (s.effective_cpu_units_available ≡ 4 - m.reserved_cpu_units)
  pub unavailable :
      ¬ IsAvailable now m → (s.timestamp_ms ≡ 0) × (s.status ≡ SampleFreshness.unavailable)

deduct-IsProbed :
    (now : ℕ) (m : Monitor) (s : ResourceSample)
    → IsAvailable now m
    → IsProbed now m (deduct now m s)
unfolding deduct
deduct-IsProbed now m s a = record {
  available = λ _. (refl, refl, ground arith);
  unavailable = λ n. absurd (n a);
}

probe-IsProbed : (now : ℕ) (m : Monitor) → IsProbed now m (execute_hardware_metrics_probe now m).0
unfolding execute_hardware_metrics_probe
probe-IsProbed now m =
    elim (Bool-cases (leb probe_cooldown_ms (sub64 now m.last_heavy_probe_timestamp_ms))) [
      | inl over ↦ rw over (deduct-IsProbed now m heavy_probe (inl (ground (arith, over))))
      | inr soon ↦ rw soon (elim (Bool-cases (ltb 0 m.sample_count)) [
        | inl some_samples ↦
            rw some_samples
              (deduct-IsProbed now m (used_again (latest m)) (inr (ground (arith, some_samples))))
        | inr no_samples ↦ rw no_samples (record {
          available = λ a. absurd (ground (arith, a, soon, no_samples));
          unavailable = λ _. (refl, refl);
        })
      ])
    ]

aged_fresh :
    (now later : ℕ) (m : Monitor) (s : ResourceSample)
    → s.timestamp_ms ≡ now
    → s.status ≡ fresh
    → s.effective_cpu_units_available ≡ 4 - m.reserved_cpu_units
    → ((aged later s).timestamp_ms ≡ now)
      × ((aged later s).effective_cpu_units_available ≡ 4 - m.reserved_cpu_units)
      × IsAged now later (aged later s) (is_fresh (aged later s).status)
unfolding aged
aged_fresh now later m s t f c = ground (arith, t, f, c)

aged-IsRead :
    (now later : ℕ) (m : Monitor) (s : ResourceSample)
    → IsProbed now m s
    → IsRead now later m (some (aged later s), is_fresh (aged later s).status)
unfolding aged
aged-IsRead now later m s p = record {
  sample = aged later s;
  found = refl;
  available = λ a. let q = p.available a in aged_fresh now later m s q.0 q.1 q.2;
  unavailable = λ n. ground (arith, p.unavailable n);
}

-- After any calls, and whatever is reserved after the last probe, what is read back is a sample. If the cooldown was over
-- or a sample was there, it has the time of the probe and the four cores less those that were reserved, and is
-- fresh, with the answer true, if the probe is at most 10 seconds ago, or else stale, with the answer false.
-- Otherwise it has no time, and the answer is false.
pub get_latest_availability-record_sample :
    (es : List Event) (now later cpu_units memory_mb : ℕ)
    → IsRead now later (run es init) (
        get_latest_availability later
          (update_reservations cpu_units memory_mb (record_sample now (run es init))))
get_latest_availability-record_sample es now later cpu_units memory_mb =
    let p = execute_hardware_metrics_probe now (run es init) in
    let m = update_reservations cpu_units memory_mb (record_sample now (run es init)) in
    let counted : (m.sample_count == 0) ≡ false =
      unfold update_reservations record_sample in store_counted p.0 p.1 in
    let kept : latest m ≡ p.0 =
      latest-update_reservations cpu_units memory_mb (record_sample now (run es init))
      ∙ latest-record_sample now (run es init) (run-IsRing es init init-IsRing) in
    subst (IsRead now later (run es init))
      (sym (
        get_latest_availability_counted later m counted
        ∙ ap (λ s. (some (aged later s), is_fresh (aged later s).status)) kept))
      (aged-IsRead now later (run es init) p.0 (probe-IsProbed now (run es init)))
