-- ===== src/Registry/History.antt =====
-- master/src/registry.c: the calls that change the tables.
use void_os_merger.Base.{
  ℕ, ◌≡◌, refl, List, [], ◌∷◌, arith, map, All, length, length-remove_first, Bool-cases, inl, inr,
  Bytes, ◌==◌, leb,
}
use void_os_merger.Registry.{
  WorkerRecord, State, Capabilities, has_id, on_worker_join, heard, on_worker_heartbeat, disconnect,
  on_worker_leave, track_chunk, remove_chunk, works_on, untrack_chunk, is_stale, sweep_stale,
}
use void_os_merger.Registry.Sweep.{swept, sweep_stale-swept}
use void_os_merger.Registry.Bounds.{
  IsBounded, IsSound, change-IsSound, on_worker_join-IsSound, track_chunk-IsSound,
}

length-swept :
    (now timeout : ℕ) (rs : List WorkerRecord) → length (map (swept now timeout) rs) ≡ length rs
length-swept now timeout [] = refl
length-swept now timeout (r ∷ rs) = omega (arith, length-swept now timeout rs)

swept-IsBounded :
    (now timeout : ℕ) (rs : List WorkerRecord)
    → All IsBounded rs
    → All IsBounded (map (swept now timeout) rs)
swept-IsBounded now timeout [] v = tt
swept-IsBounded now timeout (r ∷ rs) v = (
  elim (Bool-cases (is_stale now timeout r)) [
    | inl e ↦ rw e (record { named = v.0.named; chunks_fit = v.0.chunks_fit })
    | inr e ↦ rw e v.0
  ],
  swept-IsBounded now timeout rs v.1,
)

sweep_stale-IsSound :
    (now timeout max_out : ℕ) (s : State)
    → IsSound s
    → IsSound (sweep_stale now timeout max_out s).0
sweep_stale-IsSound now timeout max_out s v = elim (Bool-cases (leb max_out 0)) [
  | inl e ↦ unfold sweep_stale in rw e v
  | inr e ↦
      let q = sweep_stale-swept now timeout max_out s (ground arith) in
      record {
        workers_fit = rw (q.0, length-swept now timeout s.records) v.workers_fit;
        bounded = rw q.0 (swept-IsBounded now timeout s.records v.bounded);
      }
]

pub data Call : Type 0 where
  joins : Bytes → Bytes → Capabilities → ℕ → Call
  heartbeats : Bytes → Capabilities → ℕ → Call
  leaves : Bytes → Call
  tracks : Bytes → ℕ → Call
  untracks : Bytes → ℕ → Call
  sweeps : ℕ → ℕ → ℕ → Call

unfoldable pub step : State → Call → State
step s (joins id transport caps now) = (on_worker_join id transport caps now s).0
step s (heartbeats id caps now) = (on_worker_heartbeat id caps now s).0
step s (leaves id) = (on_worker_leave id s).0
step s (tracks id chunk) = (track_chunk id chunk s).0
step s (untracks id chunk) = (untrack_chunk id chunk s).0
step s (sweeps now timeout max_out) = (sweep_stale now timeout max_out s).0

pub step-IsSound : (s : State) (c : Call) → IsSound s → IsSound (step s c)
unfolding step on_worker_heartbeat on_worker_leave untrack_chunk heard
step-IsSound s (joins id transport caps now) v = on_worker_join-IsSound id transport caps now s v
step-IsSound s (heartbeats id caps now) v =
    change-IsSound (has_id id) (heard caps now) s
      (λ r _ b. record { named = b.named; chunks_fit = b.chunks_fit }) v
step-IsSound s (leaves id) v =
    change-IsSound (has_id id) disconnect s
      (λ r _ b. record { named = b.named; chunks_fit = b.chunks_fit }) v
step-IsSound s (tracks id chunk) v = track_chunk-IsSound id chunk s v
step-IsSound s (untracks id chunk) v =
    change-IsSound (works_on id chunk) (remove_chunk chunk) s
      (λ r _ b. record {
        named = b.named;
        chunks_fit =
            omega (arith, b.chunks_fit, length-remove_first (λ c. c == chunk) r.active_chunk_ids);
      })
      v
step-IsSound s (sweeps now timeout max_out) v = sweep_stale-IsSound now timeout max_out s v
