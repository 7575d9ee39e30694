-- ===== src/Registry/Bounds.antt =====
-- master/src/registry.c: the tables keep their bounds through any calls.
use void_os_merger.Base.{
  ℕ, ◌≤◌, ◌<◌, ◌≡◌, ◌⊎◌, Bool, true, false, some, List, [], ◌∷◌, arith, All, All-append,
  All-update_first, length, length-append, length-update_first, length-take_le, leb, is_some,
  find_first, update_first, Bool-cases, Option-cases, inl, inr, Bytes, subst, sym,
}
use void_os_merger.Registry.{
  WorkerRecord, State, Capabilities, has_id, change, joined, rejoin, on_worker_join, add_chunk,
  track_chunk, reg_max_workers, reg_max_chunks, reg_name_max,
}

-- A record has room for 63 bytes of a name and for 32 chunks.
pub record IsBounded (r : WorkerRecord) : Type 0 where
  pub named : length r.worker_id < reg_name_max
  pub chunks_fit : length r.active_chunk_ids ≤ reg_max_chunks

pub record IsSound (s : State) : Type 0 where
  pub workers_fit : length s.records ≤ reg_max_workers
  pub bounded : All IsBounded s.records

pub change-IsSound :
    (test : WorkerRecord → Bool) (f : WorkerRecord → WorkerRecord) (s : State)
    → ((r : WorkerRecord) → test r ≡ true → IsBounded r → IsBounded (f r))
    → IsSound s
    → IsSound (change test f s).0
unfolding change
change-IsSound test f s h v = elim (Bool-cases (is_some (find_first test s.records))) [
  | inl e ↦ rw e (record {
    workers_fit = omega (arith, v.workers_fit, length-update_first test f s.records);
    bounded = All-update_first IsBounded test f s.records h v.bounded;
  })
  | inr e ↦ rw e v
]

pub on_worker_join-IsSound :
    (id transport : Bytes) (caps : Capabilities) (now : ℕ) (s : State)
    → IsSound s
    → IsSound (on_worker_join id transport caps now s).0
unfolding on_worker_join joined rejoin
on_worker_join-IsSound id transport caps now s v =
    elim (Bool-cases (is_some (find_first (has_id id) s.records))) [
      | inl e ↦ rw e (
          change-IsSound (has_id id) (rejoin caps now) s
            (λ r _ b. record { named = b.named; chunks_fit = b.chunks_fit }) v)
      | inr e ↦ rw e (elim (Bool-cases (leb reg_max_workers (length s.records))) [
        | inl full ↦ rw full v
        | inr room ↦ rw room (record {
          workers_fit = ground (arith, length-append s.records (joined id transport caps now ∷ []));
          bounded = All-append IsBounded s.records (joined id transport caps now ∷ []) v.bounded (
            record { named = omega (arith, length-take_le 63 id); chunks_fit = omega arith },
            tt,
          );
        })
      ])
    ]

All-find :
    (p : WorkerRecord → Bool) (rs : List WorkerRecord) (r : WorkerRecord)
    → find_first p rs ≡ some r
    → All IsBounded rs
    → IsBounded r
unfolding find_first
All-find p [] r e v = absurd (ground arith)
All-find p (q ∷ rs) r e v = elim (Bool-cases (p q)) [
  | inl h ↦ let same : q ≡ r = ground arith in subst IsBounded same v.0
  | inr h ↦ let later : find_first p rs ≡ some r = ground arith in All-find p rs r later v.1
]

All-update_found :
    (p : WorkerRecord → Bool) (f : WorkerRecord → WorkerRecord) (rs : List WorkerRecord)
    (r : WorkerRecord)
    → find_first p rs ≡ some r
    → IsBounded (f r)
    → All IsBounded rs
    → All IsBounded (update_first p f rs)
unfolding find_first update_first
All-update_found p f [] r e b v = tt
All-update_found p f (q ∷ rs) r e b v = elim (Bool-cases (p q)) [
  | inl h ↦ rw h (subst (λ x. IsBounded (f x)) (sym (same h)) b, v.1)
  | inr h ↦ rw h (v.0, All-update_found p f rs r (later h) b v.1)
]
  where
    same : p q ≡ true → q ≡ r
    same h = ground arith

    later : p q ≡ false → find_first p rs ≡ some r
    later h = ground arith

-- What tracking changes: nothing without a record or without room, else the first record of the name.
track_chunk-records :
    (id : Bytes) (chunk : ℕ) (s : State)
    → ((track_chunk id chunk s).0 ≡ s)
      ⊎ ((r : WorkerRecord) × (find_first (has_id id) s.records ≡ some r)
          × (length r.active_chunk_ids < reg_max_chunks)
          × ((track_chunk id chunk s).0.records
              ≡ update_first (has_id id) (add_chunk chunk) s.records))
unfolding track_chunk change
track_chunk-records id chunk s = elim (Option-cases (find_first (has_id id) s.records)) [
  | inl e ↦ inl (ground arith)
  | inr (r, e) ↦ elim (Bool-cases (leb reg_max_chunks (length r.active_chunk_ids))) [
    | inl full ↦ inl (ground arith)
    | inr room ↦ inr (r, e, ground arith, ground arith)
  ]
]

pub track_chunk-IsSound :
    (id : Bytes) (chunk : ℕ) (s : State) → IsSound s → IsSound (track_chunk id chunk s).0
track_chunk-IsSound id chunk s v = elim (track_chunk-records id chunk s) [
  | inl e ↦ rw e v
  | inr (r, e, room, q) ↦ record {
    workers_fit =
        rw q (
          omega
            (arith, v.workers_fit, length-update_first (has_id id) (add_chunk chunk) s.records));
    bounded = rw q (
        All-update_found (has_id id) (add_chunk chunk) s.records r e
          (record {
            named = (All-find (has_id id) s.records r e v.bounded).named;
            chunks_fit = omega (arith, length-append r.active_chunk_ids (chunk ∷ []));
          })
          v.bounded);
  }
]
