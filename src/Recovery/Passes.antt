-- ===== src/Recovery/Passes.antt =====
-- master/src/recovery.c: the nested loops of `vom_recovery_sweep_timeouts` in one pass.
use void_os_merger.Base.{
  ℕ, ◌-◌, ◌≡◌, refl, ap, Bool, true, false, ◌&&◌, ◌||◌, List, [], ◌∷◌, arith, map, if◌then◌else◌,
  str_eq, Bool-cases, ◌∙◌, inl, inr,
}
use void_os_merger.Recovery.{Lease, WorkerObs, Context, LeaseState, uncertain, is_active}
use void_os_merger.Recovery.Timeouts.{
  active_on, is_lost, mark_uncertain, lose, observe, sweep_workers, is_due, settle, settle_leases,
  sweep_timeouts,
}

-- Some worker with the lease's name is lost.
unfoldable pub is_abandoned : ℕ → ℕ → List WorkerObs → Lease → Bool
is_abandoned now timeout [] l = false
is_abandoned now timeout (w ∷ ws) l =
    (is_lost now timeout w && str_eq l.assigned_worker_id w.worker_id)
    || is_abandoned now timeout ws l

-- A lease after a sweep: settled if it is uncertain, past its time, or active on a lost worker.
unfoldable pub swept : ℕ → ℕ → List WorkerObs → Lease → Lease
swept now timeout ws l =
    if is_due now l || (is_active l.state && is_abandoned now timeout ws l) then settle l else l

unfoldable pub marked : ℕ → ℕ → List WorkerObs → Lease → Lease
marked now timeout ws l =
    if is_active l.state && is_abandoned now timeout ws l then record l { state = uncertain } else l

is_abandoned-state :
    (now timeout : ℕ) (ws : List WorkerObs) (l : Lease) (st : LeaseState)
    → is_abandoned now timeout ws (record l { state = st }) ≡ is_abandoned now timeout ws l
unfolding is_abandoned
is_abandoned-state now timeout [] l st = refl
is_abandoned-state now timeout (w ∷ ws) l st =
    ap (λ b. (is_lost now timeout w && str_eq l.assigned_worker_id w.worker_id) || b)
      (is_abandoned-state now timeout ws l st)

marked-cons :
    (now timeout : ℕ) (w : WorkerObs) (ws : List WorkerObs) (l : Lease)
    → is_lost now timeout w ≡ true
    → marked now timeout ws (if active_on w.worker_id l then record l { state = uncertain } else l)
      ≡ marked now timeout (w ∷ ws) l
unfolding marked is_abandoned
marked-cons now timeout w ws l h = ground (arith, is_abandoned-state now timeout ws l uncertain)

map-marked-lost :
    (now timeout : ℕ) (w : WorkerObs) (ws : List WorkerObs) (ls : List Lease)
    → is_lost now timeout w ≡ true
    → map (marked now timeout ws) (mark_uncertain w.worker_id ls)
      ≡ map (marked now timeout (w ∷ ws)) ls
unfolding mark_uncertain
map-marked-lost now timeout w ws [] h = refl
map-marked-lost now timeout w ws (l ∷ ls) h =
    ground (arith, marked-cons now timeout w ws l h, map-marked-lost now timeout w ws ls h)

marked-kept :
    (now timeout : ℕ) (w : WorkerObs) (ws : List WorkerObs) (l : Lease)
    → is_lost now timeout w ≡ false
    → marked now timeout ws l ≡ marked now timeout (w ∷ ws) l
unfolding marked is_abandoned
marked-kept now timeout w ws l h = ground arith

map-marked-kept :
    (now timeout : ℕ) (w : WorkerObs) (ws : List WorkerObs) (ls : List Lease)
    → is_lost now timeout w ≡ false
    → map (marked now timeout ws) ls ≡ map (marked now timeout (w ∷ ws)) ls
map-marked-kept now timeout w ws [] h = refl
map-marked-kept now timeout w ws (l ∷ ls) h =
    ground (arith, marked-kept now timeout w ws l h, map-marked-kept now timeout w ws ls h)

map-marked_nobody : (now timeout : ℕ) (ls : List Lease) → map (marked now timeout []) ls ≡ ls
unfolding marked is_abandoned
map-marked_nobody now timeout [] = refl
map-marked_nobody now timeout (l ∷ ls) = ground (arith, map-marked_nobody now timeout ls)

pub sweep_workers-leases :
    (now timeout : ℕ) (ws : List WorkerObs) (ls : List Lease) (jobs : ℕ)
    → (sweep_workers now timeout ws ls jobs).leases ≡ map (marked now timeout ws) ls
unfolding sweep_workers lose
sweep_workers-leases now timeout [] ls jobs = ground (arith, map-marked_nobody now timeout ls)
sweep_workers-leases now timeout (w ∷ ws) ls jobs = elim (Bool-cases (is_lost now timeout w)) [
  | inl h ↦ rw h (sweep_workers-leases now timeout ws _ _ ∙ map-marked-lost now timeout w ws ls h)
  | inr h ↦
      rw h (sweep_workers-leases now timeout ws ls jobs ∙ map-marked-kept now timeout w ws ls h)
]

pub sweep_workers-workers :
    (now timeout : ℕ) (ws : List WorkerObs) (ls : List Lease) (jobs : ℕ)
    → (sweep_workers now timeout ws ls jobs).workers ≡ map (observe now timeout) ws
unfolding sweep_workers
sweep_workers-workers now timeout [] ls jobs = refl
sweep_workers-workers now timeout (w ∷ ws) ls jobs =
    ap (◌∷◌ (observe now timeout w)) (sweep_workers-workers now timeout ws _ _)

swept-marked :
    (now timeout : ℕ) (ws : List WorkerObs) (l : Lease)
    → (let m = marked now timeout ws l in if is_due now m then settle m else m)
      ≡ swept now timeout ws l
unfolding marked swept is_due settle
swept-marked now timeout ws l = ground arith

settle_leases-swept :
    (now timeout : ℕ) (ws : List WorkerObs) (ls : List Lease) (jobs : ℕ)
    → (settle_leases now (map (marked now timeout ws) ls) jobs).0 ≡ map (swept now timeout ws) ls
unfolding settle_leases
settle_leases-swept now timeout ws [] jobs = refl
settle_leases-swept now timeout ws (l ∷ ls) jobs = ground (
  arith,
  swept-marked now timeout ws l,
  settle_leases-swept now timeout ws ls
      (if is_due now (marked now timeout ws l) then jobs - 1 else jobs),
)

pub sweep_timeouts-swept :
    (now timeout : ℕ) (ctx : Context)
    → ((sweep_timeouts now timeout ctx).leases ≡ map (swept now timeout ctx.workers) ctx.leases)
      × ((sweep_timeouts now timeout ctx).workers ≡ map (observe now timeout) ctx.workers)
unfolding sweep_timeouts
sweep_timeouts-swept now timeout ctx = (
  rw (sweep_workers-leases now timeout ctx.workers ctx.leases ctx.active_recovery_jobs)
      (settle_leases-swept now timeout ctx.workers ctx.leases _),
  sweep_workers-workers now timeout ctx.workers ctx.leases ctx.active_recovery_jobs,
)
