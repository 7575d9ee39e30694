-- ===== src/Registry/Sweep.antt =====
-- master/src/registry.c: what a sweep changes and what it reports.
use void_os_merger.Base.{
  ◌+◌, ◌-◌, ◌%◌, ◌≢◌, ◌↔◌, true, false, sym, subst, Both, Both-map, ℕ, zero, suc, ◌<◌, ◌≡◌, refl,
  List, [], ◌∷◌, map, arith, if◌then◌else◌, take, Bytes, strncpy, add64, ap, Bool-cases, inl, inr,
  lt→ltb,
}
use void_os_merger.Registry.{
  WorkerRecord, State, disconnect, disconnected, is_stale, sweep_records, sweep_stale, pred,
  reg_name_max,
}

-- The names of the stale workers, in order.
unfoldable pub stale_names : ℕ → ℕ → List WorkerRecord → List Bytes
stale_names now timeout [] = []
stale_names now timeout (r ∷ rs) =
    if is_stale now timeout r
    then strncpy reg_name_max r.worker_id ∷ stale_names now timeout rs
    else stale_names now timeout rs

abbrev pub swept : ℕ → ℕ → WorkerRecord → WorkerRecord
swept now timeout r = if is_stale now timeout r then disconnect r else r

sweep_records-records :
    (now timeout : ℕ) (rs : List WorkerRecord) (room version : ℕ)
    → (sweep_records now timeout room rs version).records ≡ map (swept now timeout) rs
unfolding sweep_records
sweep_records-records now timeout [] room version = refl
sweep_records-records now timeout (r ∷ rs) room version = ap (◌∷◌ (swept now timeout r)) (
    sweep_records-records now timeout rs (if is_stale now timeout r then pred room else room)
      (if is_stale now timeout r then add64 version 1 else version))

sweep_records-names :
    (now timeout : ℕ) (rs : List WorkerRecord) (room version : ℕ)
    → (sweep_records now timeout room rs version).dead_workers
      ≡ take room (stale_names now timeout rs)
unfolding sweep_records stale_names
sweep_records-names now timeout [] zero version = refl
sweep_records-names now timeout [] (suc n) version = refl
sweep_records-names now timeout (r ∷ rs) zero version = elim (Bool-cases (is_stale now timeout r)) [
  | inl e ↦ rw e (sweep_records-names now timeout rs zero (add64 version 1))
  | inr e ↦ rw e (sweep_records-names now timeout rs zero version)
]
sweep_records-names now timeout (r ∷ rs) (suc n) version =
    elim (Bool-cases (is_stale now timeout r)) [
      | inl e ↦
          rw (e, lt→ltb 0 (suc n) (omega arith))
            (ap (◌∷◌ (strncpy reg_name_max r.worker_id))
              (sweep_records-names now timeout rs n (add64 version 1)))
      | inr e ↦ rw e (sweep_records-names now timeout rs (suc n) version)
    ]

pub sweep_stale-swept :
    (now timeout max_out : ℕ) (s : State)
    → 0 < max_out
    → ((sweep_stale now timeout max_out s).0.records ≡ map (swept now timeout) s.records)
      × ((sweep_stale now timeout max_out s).1 ≡ take max_out (stale_names now timeout s.records))
unfolding sweep_stale
sweep_stale-swept now timeout max_out s h = (
  ground (arith, sweep_records-records now timeout s.records max_out s.snapshot_version),
  ground (arith, sweep_records-names now timeout s.records max_out s.snapshot_version),
)

-- A worker that is connected and was not heard of for longer than the timeout, on a clock of 64 bits.
abbrev pub IsSilent : ℕ → ℕ → WorkerRecord → Type 0
IsSilent now timeout r =
    (r.status ≢ disconnected)
    × (timeout < (now + 18446744073709551616 - r.last_seen_ms) % 18446744073709551616)

-- What a sweep makes of a record.
pub record IsSwept (now timeout : ℕ) (r k : WorkerRecord) : Type 0 where
  pub gone : IsSilent now timeout r → k.status ≡ disconnected
  pub stays : ¬ IsSilent now timeout r → k.status ≡ r.status
  pub others :
      (k.worker_id ≡ r.worker_id)
      × (k.transport_endpoint ≡ r.transport_endpoint)
      × (k.last_seen_ms ≡ r.last_seen_ms)
      × (k.capabilities ≡ r.capabilities)
      × (k.active_chunk_ids ≡ r.active_chunk_ids)

-- The names of the silent workers in the order of the table, as far as 63 bytes go.
pub data AreNames (now timeout : ℕ) : List WorkerRecord → List Bytes → Type 0 where
  no_more : AreNames now timeout [] []
  named :
      (r : WorkerRecord) (rs : List WorkerRecord) (names : List Bytes)
      → IsSilent now timeout r
      → AreNames now timeout rs names
      → AreNames now timeout (r ∷ rs) (take 63 r.worker_id ∷ names)
  passed :
      (r : WorkerRecord) (rs : List WorkerRecord) (names : List Bytes)
      → ¬ IsSilent now timeout r
      → AreNames now timeout rs names
      → AreNames now timeout (r ∷ rs) names

is_stale_iff :
    (now timeout : ℕ) (r : WorkerRecord) → (is_stale now timeout r ≡ true) ↔ IsSilent now timeout r
unfolding is_stale
is_stale_iff now timeout r = ground arith

not-IsSilent :
    (now timeout : ℕ) (r : WorkerRecord) → is_stale now timeout r ≡ false → ¬ IsSilent now timeout r
not-IsSilent now timeout r e h = ground (arith, e, (is_stale_iff now timeout r).1 h)

swept-IsSwept : (now timeout : ℕ) (r : WorkerRecord) → IsSwept now timeout r (swept now timeout r)
swept-IsSwept now timeout r = elim (Bool-cases (is_stale now timeout r)) [
  | inl e ↦ rw e (record {
    gone = λ _. refl;
    stays = λ n. absurd (n ((is_stale_iff now timeout r).0 e));
    others = (refl, refl, refl, refl, refl);
  })
  | inr e ↦ rw e (record {
    gone = λ h. absurd (not-IsSilent now timeout r e h);
    stays = λ _. refl;
    others = (refl, refl, refl, refl, refl);
  })
]

stale_names-AreNames :
    (now timeout : ℕ) (rs : List WorkerRecord)
    → AreNames now timeout rs (stale_names now timeout rs)
unfolding stale_names
stale_names-AreNames now timeout [] = no_more
stale_names-AreNames now timeout (r ∷ rs) =
    let rest = stale_names-AreNames now timeout rs in
    elim (Bool-cases (is_stale now timeout r)) [
      | inl e ↦ rw e (named r rs _ ((is_stale_iff now timeout r).0 e) rest)
      | inr e ↦ rw e (passed r rs _ (not-IsSilent now timeout r e) rest)
    ]

-- With room for a name at least, a sweep disconnects exactly the workers that are connected and were not heard of for
-- longer than the timeout, and changes nothing else of the records; but of their names, in the order of the table and
-- cut to 63 bytes, it reports only the first `max_out`.
pub sweep_stale-IsSwept :
    (now timeout max_out : ℕ) (s : State)
    → 0 < max_out
    → Both (IsSwept now timeout) s.records (sweep_stale now timeout max_out s).0.records
      × (names : List Bytes) × AreNames now timeout s.records names
      × ((sweep_stale now timeout max_out s).1 ≡ take max_out names)
sweep_stale-IsSwept now timeout max_out s h =
    let swept_all = sweep_stale-swept now timeout max_out s h in
    (
      subst (Both (IsSwept now timeout) s.records) (sym swept_all.0)
          (Both-map (IsSwept now timeout) _ (swept-IsSwept now timeout) s.records),
      stale_names now timeout s.records,
      stale_names-AreNames now timeout s.records,
      swept_all.1,
    )
