-- ===== src/Recovery/Sweep.antt =====
-- master/src/recovery.c: what each lease and each worker becomes in `vom_recovery_sweep_timeouts`.
use void_os_merger.Base.{
  ◌+◌, ◌%◌, ◌<◌, ◌≤◌, ◌≢◌, ◌⊎◌, ◌↔◌, sym, subst, Both, Both-map, Bytes, str_eq_iff, or_iff, and_iff,
  ltb, ℕ, ◌-◌, ◌≡◌, refl, true, false, ◌&&◌, ◌||◌, List, [], ◌∷◌, arith, Bool-cases, inl, inr,
}
use void_os_merger.Recovery.{
  Lease, WorkerObs, Context, active, uncertain, expired, reconciled, retry_none, is_active,
  is_uncertain,
}
use void_os_merger.Recovery.Timeouts.{is_lost, observe, is_due, settle, sweep_timeouts}
use void_os_merger.Recovery.Passes.{is_abandoned, swept, sweep_timeouts-swept}

-- A worker that counts as healthy and was not heard of for longer than the window, on a clock of 64 bits.
abbrev pub IsMissing : ℕ → ℕ → WorkerObs → Type 0
IsMissing now timeout w =
    (w.is_healthy ≡ true)
    × (timeout < (now + 18446744073709551616 - w.last_heartbeat_ms) % 18446744073709551616)

-- Some missing worker has this name.
abbrev pub HasMissing : ℕ → ℕ → List WorkerObs → Bytes → Type 0
HasMissing now timeout [] id = ⊥
HasMissing now timeout (w ∷ ws) id =
    (IsMissing now timeout w × (w.worker_id ≡ id)) ⊎ HasMissing now timeout ws id

abbrev pub IsObserved : ℕ → ℕ → WorkerObs → WorkerObs → Type 0
IsObserved now timeout w v =
    (v.worker_id ≡ w.worker_id)
    × (v.last_heartbeat_ms ≡ w.last_heartbeat_ms)
    × (IsMissing now timeout w → v.is_healthy ≡ false)
    × (¬ IsMissing now timeout w → v.is_healthy ≡ w.is_healthy)

-- The leases that a sweep settles.
abbrev pub IsLost : ℕ → ℕ → List WorkerObs → Lease → Type 0
IsLost now timeout ws l =
    (l.state ≡ uncertain)
    ⊎ ((l.state ≡ active)
        × ((l.lease_expires_ms < now) ⊎ HasMissing now timeout ws l.assigned_worker_id))

-- The lease that is settled has one retry more, on 32 bits, and expires if its policy has retries and these are
-- at most three, or else is reconciled.
pub record IsSettled (l k : Lease) : Type 0 where
  pub lease_id : k.lease_id ≡ l.lease_id
  pub chunk_id : k.chunk_id ≡ l.chunk_id
  pub workload_id : k.workload_id ≡ l.workload_id
  pub worker : k.assigned_worker_id ≡ l.assigned_worker_id
  pub expiry : k.lease_expires_ms ≡ l.lease_expires_ms
  pub policy : k.retry_policy ≡ l.retry_policy
  pub retried : k.retry_count ≡ (l.retry_count + 1) % 4294967296
  pub expires : l.retry_policy ≢ retry_none → k.retry_count ≤ 3 → k.state ≡ expired
  pub ends : (l.retry_policy ≡ retry_none) ⊎ (3 < k.retry_count) → k.state ≡ reconciled

abbrev pub IsSwept : ℕ → ℕ → List WorkerObs → Lease → Lease → Type 0
IsSwept now timeout ws l k =
    (IsLost now timeout ws l → IsSettled l k) × (¬ IsLost now timeout ws l → k ≡ l)

is_lost_iff :
    (now timeout : ℕ) (w : WorkerObs) → (is_lost now timeout w ≡ true) ↔ IsMissing now timeout w
unfolding is_lost
is_lost_iff now timeout w = ground arith

is_abandoned_iff :
    (now timeout : ℕ) (ws : List WorkerObs) (l : Lease)
    → (is_abandoned now timeout ws l ≡ true) ↔ HasMissing now timeout ws l.assigned_worker_id
unfolding is_abandoned
is_abandoned_iff now timeout [] l = ground arith
is_abandoned_iff now timeout (w ∷ ws) l =
    let rest = is_abandoned_iff now timeout ws l in
    let missing = is_lost_iff now timeout w in
    let named = str_eq_iff l.assigned_worker_id w.worker_id in
    or_iff _ _ (and_iff _ _ missing (λ e. sym (named.0 e), λ e. named.1 (sym e))) rest

observe-IsObserved :
    (now timeout : ℕ) (w : WorkerObs) → IsObserved now timeout w (observe now timeout w)
unfolding observe is_lost
observe-IsObserved now timeout w = ground arith

settle-IsSettled : (l : Lease) → IsSettled l (settle l)
unfolding settle
settle-IsSettled l = record {
  lease_id = refl;
  chunk_id = refl;
  workload_id = refl;
  worker = refl;
  expiry = refl;
  policy = refl;
  retried = refl;
  expires = λ p r. ground (arith, p, r);
  ends = λ h. ground (arith, h);
}

swept_iff :
    (now timeout : ℕ) (ws : List WorkerObs) (l : Lease)
    → ((is_due now l || (is_active l.state && is_abandoned now timeout ws l)) ≡ true)
      ↔ IsLost now timeout ws l
unfolding is_due
swept_iff now timeout ws l =
    let abandoned = is_abandoned_iff now timeout ws l in
    let waiting : (is_uncertain l.state ≡ true) ↔ (l.state ≡ uncertain) = ground arith in
    let working : (is_active l.state ≡ true) ↔ (l.state ≡ active) = ground arith in
    let late : (ltb l.lease_expires_ms now ≡ true) ↔ (l.lease_expires_ms < now) = ground arith in
    let joined =
      or_iff _ _ (or_iff _ _ waiting (and_iff _ _ working late)) (and_iff _ _ working abandoned) in
    (
      λ h. elim (joined.0 h) [
        | inl p ↦ elim p [ inl u ↦ inl u | inr q ↦ inr (q.0, inl q.1) ]
        | inr q ↦ inr (q.0, inr q.1)
      ],
      λ h. joined.1 (elim h [
        | inl u ↦ inl (inl u)
        | inr (a, q) ↦ elim q [ inl e ↦ inl (inr (a, e)) | inr m ↦ inr (a, m) ]
      ]),
    )

swept-IsSwept :
    (now timeout : ℕ) (ws : List WorkerObs) (l : Lease)
    → IsSwept now timeout ws l (swept now timeout ws l)
unfolding swept
swept-IsSwept now timeout ws l =
    let h = swept_iff now timeout ws l in
    elim (Bool-cases (is_due now l || (is_active l.state && is_abandoned now timeout ws l))) [
      | inl hit ↦ rw hit (λ _. settle-IsSettled l, λ n. absurd (n (h.0 hit)))
      | inr missed ↦ rw missed (λ y. absurd (ground (arith, missed, h.1 y)), λ _. refl)
    ]

-- A sweep settles exactly the leases that are uncertain, or active and either past their time or on a worker that is
-- missing: one that counts as healthy and was not heard of for longer than the window. Each is settled once, and
-- the other leases stay as they are. Exactly the missing workers are marked as unhealthy.
pub sweep_timeouts-IsSwept :
    (now timeout : ℕ) (ctx : Context)
    → Both (IsSwept now timeout ctx.workers) ctx.leases (sweep_timeouts now timeout ctx).leases
      × Both (IsObserved now timeout) ctx.workers (sweep_timeouts now timeout ctx).workers
sweep_timeouts-IsSwept now timeout ctx =
    let h = sweep_timeouts-swept now timeout ctx in
    (
      subst (Both (IsSwept now timeout ctx.workers) ctx.leases) (sym h.0) (
          Both-map (IsSwept now timeout ctx.workers) _ (swept-IsSwept now timeout ctx.workers)
            ctx.leases),
      subst (Both (IsObserved now timeout) ctx.workers) (sym h.1)
          (Both-map (IsObserved now timeout) _ (observe-IsObserved now timeout) ctx.workers),
    )
