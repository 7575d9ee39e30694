-- ===== src/Scheduler/Choice.antt =====
-- master/src/scheduler.c: the worker that the scan of `vom_scheduler_tick` chooses for a chunk.
use native.Mathlib.Nat.{add-zero}
use void_os_merger.Base.{
  ℕ, zero, suc, ◌+◌, ◌≡◌, refl, inl, inr, true, false, Option, none, some, List, [], ◌∷◌, arith,
  subst, sym, get_elem?, Bool-cases, negsuc,
}
use void_os_merger.Scheduler.{
  Platform, WorkerView, ChunkPlan, Best, evaluate_hard_filters, calculate_worker_score, consider,
  best_worker, no_best,
}
use void_os_merger.Scheduler.Filters.{IsEligible, evaluate_hard_filters-IsEligible}

-- What the comparison of doubles gives, also where an operand is no number.
pub record IsStrict {F : Type 0} (d : Platform F) : Type 0 where
  pub irrefl : (a : F) → d.gtb a a ≡ false
  pub trans : (a b c : F) → d.gtb a b ≡ true → d.gtb b c ≡ true → d.gtb a c ≡ true

module _ {F : Type 0} (d : Platform F) (c : ChunkPlan) where
  abbrev score : WorkerView F → F
  score = calculate_worker_score d c

  -- What the scan returns: the start, or a worker of the list that passes the filters.
  data Scanned (ws : List (WorkerView F)) (i : ℕ) (b r : Best F) : Type 0 where
    kept : r ≡ b → Scanned ws i b r
    chosen :
        (k : ℕ) (w : WorkerView F)
        → get_elem? ws k ≡ some w
        → evaluate_hard_filters c w ≡ true
        → r ≡ record { index = some (k + i); score = score w }
        → Scanned ws i b r

  later :
      (v : WorkerView F) (ws : List (WorkerView F)) (i : ℕ) (b r : Best F)
      → Scanned ws (suc i) (consider d c v i b) r
      → Scanned (v ∷ ws) i b r
  unfolding consider
  later v ws i b r (chosen k w e h q) = chosen (suc k) w e h (ground arith)
  later v ws i b r (kept q) = elim (Bool-cases (evaluate_hard_filters c v)) [
    | inl p ↦ elim (Bool-cases (d.gtb (calculate_worker_score d c v) b.score)) [
      | inl g ↦ chosen 0 v refl p (ground arith)
      | inr g ↦ kept (ground arith)
    ]
    | inr p ↦ kept (ground arith)
  ]

  best_worker-Scanned :
      (ws : List (WorkerView F)) (i : ℕ) (b : Best F) → Scanned ws i b (best_worker d c ws i b)
  unfolding best_worker
  best_worker-Scanned [] i b = kept refl
  best_worker-Scanned (v ∷ ws) i b =
      later v ws i b _ (best_worker-Scanned ws (suc i) (consider d c v i b))

module _ {F : Type 0} (d : Platform F) (c : ChunkPlan) (strict : IsStrict d) where
  consider-rises :
      (w : WorkerView F) (i : ℕ) (b : Best F) (x : F)
      → d.gtb x b.score ≡ false
      → d.gtb x (consider d c w i b).score ≡ false
  unfolding consider
  consider-rises w i b x h = ground (arith, strict.trans x (calculate_worker_score d c w) b.score)

  best_worker-rises :
      (ws : List (WorkerView F)) (i : ℕ) (b : Best F) (x : F)
      → d.gtb x b.score ≡ false
      → d.gtb x (best_worker d c ws i b).score ≡ false
  unfolding best_worker
  best_worker-rises [] i b x h = h
  best_worker-rises (w ∷ ws) i b x h =
      best_worker-rises ws (suc i) (consider d c w i b) x (consider-rises w i b x h)

  consider-beats :
      (w : WorkerView F) (i : ℕ) (b : Best F)
      → evaluate_hard_filters c w ≡ true
      → d.gtb (score d c w) (consider d c w i b).score ≡ false
  unfolding consider
  consider-beats w i b h = ground (arith, strict.irrefl (calculate_worker_score d c w))

  -- No worker that passes the filters scores more than the best.
  best_worker-beats :
      (ws : List (WorkerView F)) (i : ℕ) (b : Best F) (j : ℕ) (w : WorkerView F)
      → get_elem? ws j ≡ some w
      → evaluate_hard_filters c w ≡ true
      → d.gtb (score d c w) (best_worker d c ws i b).score ≡ false
  unfolding best_worker
  best_worker-beats [] i b j w e h = absurd (ground arith)
  best_worker-beats (v ∷ ws) i b zero w e h =
      best_worker-rises ws (suc i) (consider d c v i b) (score d c w)
        (ground (arith, consider-beats v i b))
  best_worker-beats (v ∷ ws) i b (suc j) w e h =
      best_worker-beats ws (suc i) (consider d c v i b) j w e h

-- What the scan returns is the index of a worker that passes the filters.
pub best_worker-IsEligible :
    {F : Type 0} (d : Platform F) (c : ChunkPlan) (ws : List (WorkerView F)) (i : ℕ)
    → (best_worker d c ws 0 (no_best d)).index ≡ some i
    → (w : WorkerView F) × (get_elem? ws i ≡ some w) × IsEligible c w
unfolding no_best
best_worker-IsEligible {F} d c ws i e = go _ (best_worker-Scanned d c ws 0 (no_best d)) e
  where
    go :
        (r : Best F)
        → Scanned d c ws 0 (no_best d) r
        → r.index ≡ some i
        → (w : WorkerView F) × (get_elem? ws i ≡ some w) × IsEligible c w
    go r (kept q) e = absurd (ground arith)
    go r (chosen k w g p q) e =
        let k_eq : k ≡ i = ground arith in
        (w, subst (λ j. get_elem? ws j ≡ some w) k_eq g, (evaluate_hard_filters-IsEligible c w).0 p)

-- The choice for a chunk among workers: no eligible worker scores above -1.0, or an eligible worker
-- at the index, which no eligible worker outscores.
pub data IsBest {F : Type 0} (d : Platform F) (c : ChunkPlan) (ws : List (WorkerView F))
    : Option ℕ → Type 0 where
  nobody :
      ((j : ℕ) (w : WorkerView F)
        → get_elem? ws j ≡ some w
        → IsEligible c w
        → d.gtb (calculate_worker_score d c w) (d.of_int (negsuc 0)) ≡ false)
      → IsBest d c ws none
  somebody :
      (i : ℕ) (v : WorkerView F)
      → get_elem? ws i ≡ some v
      → IsEligible c v
      → ((j : ℕ) (w : WorkerView F)
          → get_elem? ws j ≡ some w
          → IsEligible c w
          → d.gtb (calculate_worker_score d c w) (calculate_worker_score d c v) ≡ false)
      → IsBest d c ws (some i)

IsBest-Scanned :
    {F : Type 0} (d : Platform F) (c : ChunkPlan) (ws : List (WorkerView F)) (r : Best F)
    → Scanned d c ws 0 (no_best d) r
    → ((j : ℕ) (w : WorkerView F)
        → get_elem? ws j ≡ some w
        → IsEligible c w
        → d.gtb (calculate_worker_score d c w) r.score ≡ false)
    → IsBest d c ws r.index
unfolding no_best
IsBest-Scanned d c ws r (kept q) h =
    subst (λ t. IsBest d c ws t.index) (sym q)
      (nobody λ j w e p. subst (λ t. d.gtb (score d c w) t.score ≡ false) q (h j w e p))
IsBest-Scanned d c ws r (chosen k w e p q) h =
    let best =
      somebody k w e ((evaluate_hard_filters-IsEligible c w).0 p)
        (λ j v e' p'. subst (λ t. d.gtb (score d c v) t.score ≡ false) q (h j v e' p')) in
    subst (λ t. IsBest d c ws t.index) (sym q) (rw add-zero best)

-- Where `>` on doubles is irreflexive and transitive, the scan of a tick chooses the index of a worker
-- that passes the hard filters and that no other such worker outscores; it chooses none only if no
-- worker that passes them scores above -1.0.
pub best_worker-IsBest :
    {F : Type 0} (d : Platform F) (c : ChunkPlan) (ws : List (WorkerView F))
    → IsStrict d
    → IsBest d c ws (best_worker d c ws 0 (no_best d)).index
best_worker-IsBest d c ws strict =
    IsBest-Scanned d c ws _ (best_worker-Scanned d c ws 0 (no_best d)) λ j w e h.
      best_worker-beats d c strict ws 0 (no_best d) j w e
        ((evaluate_hard_filters-IsEligible c w).1 h)
