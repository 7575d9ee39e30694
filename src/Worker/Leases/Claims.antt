-- ===== src/Worker/Leases/Claims.antt =====
-- worker/src/recovery.c: a result that is reported stays claimable over a reconnection.
use void_os_merger.Base.{
  ℕ, ◌<◌, ◌≡◌, refl, true, Option, none, some, List, [], ◌∷◌, arith, Bool-cases, inl, inr, length,
  find_first, update_first, Bytes, take_all, ◌==◌, ==_iff, ◌&&◌, subst, sym,
}
use void_os_merger.Worker.Leases.{
  Lease, Context, running, is_listed, is_lease, is_running, revoke_running, confirm, revoke,
  complete, complete_chunk, claim_result, on_disconnect, reconnect_reconcile, identity_name_max,
}
use void_os_merger.Worker.Leases.Passes.{reconciled_leases, reconnect_reconcile_pass}

abbrev confirmed : Option Lease → Option Lease
confirmed none = none
confirmed (some l) = some (confirm l)

-- A lease on the master's list is found again after the pass.
find-reconciled :
    (as' : List ℕ) (id : ℕ) (ls : List Lease)
    → is_listed as' id ≡ true
    → find_first (is_lease id) (reconciled_leases as' ls) ≡ confirmed (find_first (is_lease id) ls)
unfolding find_first reconciled_leases confirm revoke_running revoke
find-reconciled as' id [] h = refl
find-reconciled as' id (l ∷ ls) h = elim (Bool-cases (l.lease_id == id)) [
  | inl e ↦ ground (arith, find-reconciled as' id ls h, listed e)
  | inr e ↦ ground (arith, find-reconciled as' id ls h)
]
  where
    listed : (l.lease_id == id) ≡ true → is_listed as' l.lease_id ≡ true
    listed e = subst (λ k. is_listed as' k ≡ true) (sym ((==_iff l.lease_id id).0 e)) h

find-complete :
    (id : ℕ) (sum : Bytes) (ls : List Lease) (l : Lease)
    → find_first (is_lease id) ls ≡ some l
    → l.state ≡ running
    → find_first
        (is_lease id)
        (update_first (λ m. is_lease id m && is_running m.state) (complete sum) ls)
      ≡ some (complete sum l)
unfolding find_first update_first complete
find-complete id sum [] l e r = absurd (ground arith)
find-complete id sum (m ∷ ls) l e r = elim (Bool-cases (m.lease_id == id)) [
  | inl q ↦ ground arith
  | inr q ↦ ground (arith, find-complete id sum ls l (ground arith) r)
]

-- A result of less than 64 bytes that is reported for a running lease can be claimed, as it was
-- reported, also after a disconnection and a reconnection in which the master still lists the
-- lease.
pub claim_result-reconnect_reconcile :
    (as' : List ℕ) (id : ℕ) (sum : Bytes) (ctx : Context) (l : Lease)
    → find_first (is_lease id) ctx.active_leases ≡ some l
    → l.state ≡ running
    → length sum < identity_name_max
    → is_listed as' id ≡ true
    → (claim_result id (complete_chunk id sum ctx) ≡ some sum)
      × (claim_result id (reconnect_reconcile as' (on_disconnect (complete_chunk id sum ctx)))
          ≡ some sum)
unfolding claim_result complete_chunk on_disconnect confirm complete
claim_result-reconnect_reconcile as' id sum ctx l e r short h =
    let short' = take_all 63 sum (omega arith) in
    let found = find-complete id sum ctx.active_leases l e r in
    let kept =
      find-reconciled as' id
        (update_first (λ m. is_lease id m && is_running m.state) (complete sum) ctx.active_leases)
        h in
    (
      ground (arith, found, short'),
      ground (
        arith,
        found,
        short',
        kept,
        reconnect_reconcile_pass as' (on_disconnect (complete_chunk id sum ctx)),
      ),
    )
