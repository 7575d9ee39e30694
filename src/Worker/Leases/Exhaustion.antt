-- ===== src/Worker/Leases/Exhaustion.antt =====
-- worker/src/recovery.c: the table of leases never holds more than 16, and a revoked lease never
-- leaves it.
use void_os_merger.Base.{
  ℕ, suc, ◌≤◌, ◌≡◌, Bool, false, List, [], ◌∷◌, ◌++◌, arith, if◌then◌else◌, length, length-append,
  length-update_first, update_first, subst, sym, ap, Bytes, ◌&&◌,
}
use void_os_merger.Worker.Leases.{
  Lease, Context, Call, drains, accepts, revokes, disconnects, reconnects, completes, init, step,
  run, accepted, accept_new_chunk, handle_revocation, revoke, revoke_running, is_revoked,
  is_running, is_lease, complete, complete_chunk, on_disconnect, set_drain,
  worker_max_active_leases, confirm,
}
use void_os_merger.Worker.Leases.Passes.{reconciled_leases, reconnect_reconcile_pass}

unfoldable pub count_revoked : List Lease → ℕ
count_revoked [] = 0
count_revoked (l ∷ ls) = if is_revoked l.state then suc (count_revoked ls) else count_revoked ls

count_revoked_le_length : (ls : List Lease) → count_revoked ls ≤ length ls
unfolding count_revoked
count_revoked_le_length [] = omega arith
count_revoked_le_length (l ∷ ls) = ground (arith, count_revoked_le_length ls)

count_revoked-append :
    (ls : List Lease) (l : Lease) → count_revoked ls ≤ count_revoked (ls ++ l ∷ [])
unfolding count_revoked
count_revoked-append [] l = omega arith
count_revoked-append (m ∷ ls) l = ground (arith, count_revoked-append ls l)

count_revoked-revoke :
    (id : ℕ) (ls : List Lease)
    → count_revoked ls ≤ count_revoked (update_first (is_lease id) revoke ls)
unfolding count_revoked update_first revoke
count_revoked-revoke id [] = omega arith
count_revoked-revoke id (l ∷ ls) = ground (arith, count_revoked-revoke id ls)

count_revoked-complete :
    (id : ℕ) (sum : Bytes) (ls : List Lease)
    → count_revoked ls
      ≤ count_revoked (update_first (λ l. is_lease id l && is_running l.state) (complete sum) ls)
unfolding count_revoked update_first complete
count_revoked-complete id sum [] = omega arith
count_revoked-complete id sum (l ∷ ls) = ground (arith, count_revoked-complete id sum ls)

count_revoked-reconciled :
    (as' : List ℕ) (ls : List Lease) → count_revoked ls ≤ count_revoked (reconciled_leases as' ls)
unfolding count_revoked reconciled_leases confirm revoke_running revoke
count_revoked-reconciled as' [] = omega arith
count_revoked-reconciled as' (l ∷ ls) = ground (arith, count_revoked-reconciled as' ls)

length-reconciled : (as' : List ℕ) (ls : List Lease) → length (reconciled_leases as' ls) ≤ length ls
unfolding reconciled_leases
length-reconciled as' [] = omega arith
length-reconciled as' (l ∷ ls) = ground (arith, length-reconciled as' ls)

step-revoked :
    (ctx : Context) (c : Call)
    → count_revoked ctx.active_leases ≤ count_revoked (step ctx c).active_leases
unfolding step set_drain accept_new_chunk handle_revocation on_disconnect complete_chunk
step-revoked ctx (drains b) = omega arith
step-revoked ctx (accepts id chunk d) =
    ground (arith, count_revoked-append ctx.active_leases (accepted id chunk d))
step-revoked ctx (revokes id) = count_revoked-revoke id ctx.active_leases
step-revoked ctx disconnects = omega arith
step-revoked ctx (reconnects as') =
    subst (λ ls. count_revoked ctx.active_leases ≤ count_revoked ls)
      (sym (reconnect_reconcile_pass as' ctx)) (count_revoked-reconciled as' ctx.active_leases)
step-revoked ctx (completes id sum) = count_revoked-complete id sum ctx.active_leases

run-revoked :
    (ctx : Context) (cs : List Call)
    → count_revoked ctx.active_leases ≤ count_revoked (run ctx cs).active_leases
unfolding run
run-revoked ctx [] = omega arith
run-revoked ctx (c ∷ cs) = omega (arith, step-revoked ctx c, run-revoked (step ctx c) cs)

full-refuses :
    (id chunk : ℕ) (d : Bool) (ctx : Context)
    → worker_max_active_leases ≤ length ctx.active_leases
    → (accept_new_chunk id chunk d ctx).1 ≡ false
unfolding accept_new_chunk
full-refuses id chunk d ctx h = ground arith

-- No call removes a revoked lease: once 16 leases have been revoked, the worker accepts no chunk
-- any more, whatever calls follow.
pub run_refuses_when_revoked :
    (id chunk : ℕ) (d : Bool) (ctx : Context) (cs : List Call)
    → worker_max_active_leases ≤ count_revoked ctx.active_leases
    → (accept_new_chunk id chunk d (run ctx cs)).1 ≡ false
run_refuses_when_revoked id chunk d ctx cs h =
    full-refuses id chunk d (run ctx cs)
      (omega (arith, h, run-revoked ctx cs, count_revoked_le_length (run ctx cs).active_leases))

abbrev pub FitsTable : Context → Type 0
FitsTable ctx = length ctx.active_leases ≤ worker_max_active_leases

step-FitsTable : (ctx : Context) (c : Call) → FitsTable ctx → FitsTable (step ctx c)
unfolding step set_drain accept_new_chunk handle_revocation on_disconnect complete_chunk
step-FitsTable ctx (drains b) h = h
step-FitsTable ctx (accepts id chunk d) h =
    ground (arith, length-append ctx.active_leases (accepted id chunk d ∷ []))
step-FitsTable ctx (revokes id) h =
    omega (arith, length-update_first (is_lease id) revoke ctx.active_leases)
step-FitsTable ctx disconnects h = h
step-FitsTable ctx (reconnects as') h =
    omega
      (arith, ap length (reconnect_reconcile_pass as' ctx), length-reconciled as' ctx.active_leases)
step-FitsTable ctx (completes id sum) h = omega (
  arith,
  length-update_first (λ l. is_lease id l && is_running l.state) (complete sum) ctx.active_leases,
)

run-FitsTable : (ctx : Context) (cs : List Call) → FitsTable ctx → FitsTable (run ctx cs)
unfolding run
run-FitsTable ctx [] h = h
run-FitsTable ctx (c ∷ cs) h = run-FitsTable (step ctx c) cs (step-FitsTable ctx c h)

-- After any calls from the start a worker has at most 16 leases.
pub run-init-FitsTable : (cs : List Call) → FitsTable (run init cs)
unfolding init
run-init-FitsTable cs = run-FitsTable _ cs (omega arith)
