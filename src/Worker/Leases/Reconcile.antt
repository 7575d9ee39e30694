-- ===== src/Worker/Leases/Reconcile.antt =====
-- worker/src/recovery.c: what each lease becomes in a reconnection.
use void_os_merger.Base.{
  not, ◌↔◌, ==_iff, or_iff, ℕ, ◌≡◌, ◌≢◌, ◌⊎◌, refl, true, false, List, [], ◌∷◌, arith, Bool-cases,
  inl, inr, All, subst, sym,
}
use void_os_merger.Worker.Leases.{
  Lease, Context, running, revoked, completed, reconciled, is_completed, is_running, revoke,
  is_listed, is_revoked, revoke_running, confirm, reconnect_reconcile,
}
use void_os_merger.Worker.Leases.Passes.{reconciled_leases, reconnect_reconcile_pass}

-- What a lease is after a reconnection.
abbrev pub IsAgreed : List ℕ → Lease → Type 0
IsAgreed as' l = ((is_listed as' l.lease_id ≡ true) × (l.state ≢ completed)) ⊎ (l.state ≡ revoked)

pass-IsAgreed : (as' : List ℕ) (ls : List Lease) → All (IsAgreed as') (reconciled_leases as' ls)
unfolding reconciled_leases
pass-IsAgreed as' [] = tt
pass-IsAgreed as' (l ∷ ls) = elim (Bool-cases (is_listed as' l.lease_id)) [
  | inl e ↦ rw e (inl (listed e), pass-IsAgreed as' ls)
  | inr e ↦ rw e (elim (Bool-cases (is_revoked (revoke_running l).state)) [
    | inl r ↦ rw r (inr (ground arith), pass-IsAgreed as' ls)
    | inr r ↦ rw r (pass-IsAgreed as' ls)
  ])
]
  where
    listed :
        is_listed as' l.lease_id ≡ true
        → (is_listed as' (confirm l).lease_id ≡ true) × ((confirm l).state ≢ completed)
    listed e = unfold confirm in ground arith

-- After a reconnection each lease is on the master's list, with no result still waiting to be
-- reconciled, or is revoked.
pub reconnect_reconcile-IsAgreed :
    (as' : List ℕ) (ctx : Context) → All (IsAgreed as') (reconnect_reconcile as' ctx).active_leases
reconnect_reconcile-IsAgreed as' ctx =
    subst (All (IsAgreed as')) (sym (reconnect_reconcile_pass as' ctx))
      (pass-IsAgreed as' ctx.active_leases)

-- The list of the master has the lease.
abbrev pub IsOn : ℕ → List ℕ → Type 0
IsOn id [] = ⊥
IsOn id (a ∷ as') = (a ≡ id) ⊎ IsOn id as'

is_listed_iff : (as' : List ℕ) (id : ℕ) → (is_listed as' id ≡ true) ↔ IsOn id as'
unfolding is_listed
is_listed_iff [] id = ground arith
is_listed_iff (a ∷ as') id = or_iff _ _ (==_iff a id) (is_listed_iff as' id)

-- The leases after a reconnection, lease by lease.
pub data IsReconciledTo (as' : List ℕ) : List Lease → List Lease → Type 0 where
  no_more : IsReconciledTo as' [] []
  confirms :
      (l : Lease) (ls ks : List Lease)
      → IsOn l.lease_id as'
      → l.state ≡ completed
      → IsReconciledTo as' ls ks
      → IsReconciledTo as' (l ∷ ls) (record l { state = reconciled } ∷ ks)
  keeps :
      (l : Lease) (ls ks : List Lease)
      → IsOn l.lease_id as'
      → l.state ≢ completed
      → IsReconciledTo as' ls ks
      → IsReconciledTo as' (l ∷ ls) (l ∷ ks)
  revokes :
      (l : Lease) (ls ks : List Lease)
      → ¬ IsOn l.lease_id as'
      → l.state ≡ running
      → IsReconciledTo as' ls ks
      → IsReconciledTo as' (l ∷ ls) (
          record l { state = revoked; partial_output_preserved = not l.policy_discard_on_cancel }
          ∷ ks)
  stays_revoked :
      (l : Lease) (ls ks : List Lease)
      → ¬ IsOn l.lease_id as'
      → l.state ≡ revoked
      → IsReconciledTo as' ls ks
      → IsReconciledTo as' (l ∷ ls) (l ∷ ks)
  drops :
      (l : Lease) (ls ks : List Lease)
      → ¬ IsOn l.lease_id as'
      → (l.state ≡ completed) ⊎ (l.state ≡ reconciled)
      → IsReconciledTo as' ls ks
      → IsReconciledTo as' (l ∷ ls) ks

listed_one :
    (as' : List ℕ) (l : Lease) (ls ks : List Lease)
    → IsOn l.lease_id as'
    → IsReconciledTo as' ls ks
    → IsReconciledTo as' (l ∷ ls) (confirm l ∷ ks)
unfolding confirm
listed_one as' l ls ks h r = elim (Bool-cases (is_completed l.state)) [
  | inl c ↦ rw c (confirms l ls ks h (ground (arith, c)) r)
  | inr c ↦ rw c (keeps l ls ks h (ground (arith, c)) r)
]

revoked_one :
    (as' : List ℕ) (l : Lease) (ls ks : List Lease)
    → ¬ IsOn l.lease_id as'
    → is_revoked (revoke_running l).state ≡ true
    → IsReconciledTo as' ls ks
    → IsReconciledTo as' (l ∷ ls) (revoke_running l ∷ ks)
unfolding revoke_running revoke
revoked_one as' l ls ks h v r = elim (Bool-cases (is_running l.state)) [
  | inl c ↦ rw c (revokes l ls ks h (ground (arith, c)) r)
  | inr c ↦ rw c (stays_revoked l ls ks h (ground (arith, c, v)) r)
]

dropped_state :
    (l : Lease)
    → is_revoked (revoke_running l).state ≡ false
    → (l.state ≡ completed) ⊎ (l.state ≡ reconciled)
unfolding revoke_running revoke
dropped_state l v = ground (arith, v)

pass-IsReconciledTo :
    (as' : List ℕ) (ls : List Lease) → IsReconciledTo as' ls (reconciled_leases as' ls)
unfolding reconciled_leases
pass-IsReconciledTo as' [] = no_more
pass-IsReconciledTo as' (l ∷ ls) =
    let rest = pass-IsReconciledTo as' ls in
    elim (Bool-cases (is_listed as' l.lease_id)) [
      | inl e ↦ rw e (listed_one as' l ls _ ((is_listed_iff as' l.lease_id).0 e) rest)
      | inr e ↦
          let off : ¬ IsOn l.lease_id as' =
            λ h. absurd (ground (arith, e, (is_listed_iff as' l.lease_id).1 h)) in
          rw e (elim (Bool-cases (is_revoked (revoke_running l).state)) [
            | inl r ↦ rw r (revoked_one as' l ls _ off r rest)
            | inr r ↦ rw r (drops l ls _ off (dropped_state l r) rest)
          ])
    ]

-- The loop that closes gaps as it goes settles each lease once: one on the master's list stays as it is, or is reconciled
-- if it was completed; of the others a running one is revoked, with its partial output preserved unless its policy is
-- to discard it, a revoked one stays, and a completed or reconciled one is dropped. The worker counts as connected.
pub reconnect_reconcile-IsReconciledTo :
    (as' : List ℕ) (ctx : Context)
    → IsReconciledTo as' ctx.active_leases (reconnect_reconcile as' ctx).active_leases
      × ((reconnect_reconcile as' ctx).is_connected_to_master ≡ true)
reconnect_reconcile-IsReconciledTo as' ctx = (
  subst (IsReconciledTo as' ctx.active_leases) (sym (reconnect_reconcile_pass as' ctx))
      (pass-IsReconciledTo as' ctx.active_leases),
  unfold reconnect_reconcile in refl,
)
