-- ===== src/Worker/Leases/Passes.antt =====
-- worker/src/recovery.c: the loop over the leases after a reconnection, against one pass over them.
use void_os_merger.Base.{
  ℕ, zero, suc, ◌≤◌, ◌≡◌, refl, true, false, none, some, List, [], ◌∷◌, ◌++◌, arith, Bool-cases,
  inl, inr, if◌then◌else◌, length, get_elem?, modify, ap, sym, ◌∙◌,
}
use void_os_merger.Worker.Leases.{
  Lease, Context, is_listed, is_revoked, revoke_running, confirm, remove_at, reconcile_loop,
  reconnect_reconcile,
}

-- One pass: a lease on the master's list stays, reconciled if its result was waiting; of the
-- others those that were running are revoked, those that are revoked stay, and finished ones are
-- dropped.
unfoldable pub reconciled_leases : List ℕ → List Lease → List Lease
reconciled_leases as' [] = []
reconciled_leases as' (l ∷ ls) =
    let rest = reconciled_leases as' ls in
    if is_listed as' l.lease_id
    then confirm l ∷ rest
    else if is_revoked (revoke_running l).state
    then revoke_running l ∷ rest
    else rest

get_elem?-after :
    (pre : List Lease) (l : Lease) (ls : List Lease)
    → get_elem? (pre ++ l ∷ ls) (length pre) ≡ some l
get_elem?-after [] l ls = refl
get_elem?-after (p ∷ pre) l ls = get_elem?-after pre l ls

get_elem?-end : (pre : List Lease) → get_elem? (pre ++ []) (length pre) ≡ none
get_elem?-end [] = refl
get_elem?-end (p ∷ pre) = get_elem?-end pre

modify-after :
    (f : Lease → Lease) (pre : List Lease) (l : Lease) (ls : List Lease)
    → modify f (length pre) (pre ++ l ∷ ls) ≡ (pre ++ f l ∷ []) ++ ls
unfolding modify
modify-after f [] l ls = refl
modify-after f (p ∷ pre) l ls = ap (◌∷◌ p) (modify-after f pre l ls)

remove_at-after :
    (pre : List Lease) (l : Lease) (ls : List Lease)
    → remove_at (length pre) (pre ++ l ∷ ls) ≡ pre ++ ls
unfolding remove_at
remove_at-after [] l ls = refl
remove_at-after (p ∷ pre) l ls = ap (◌∷◌ p) (remove_at-after pre l ls)

length-snoc : (pre : List Lease) (l : Lease) → length (pre ++ l ∷ []) ≡ suc (length pre)
length-snoc [] l = refl
length-snoc (p ∷ pre) l = ap suc (length-snoc pre l)

append-snoc :
    (pre : List Lease) (l : Lease) (ls : List Lease) → (pre ++ l ∷ []) ++ ls ≡ pre ++ l ∷ ls
append-snoc [] l ls = refl
append-snoc (p ∷ pre) l ls = ap (◌∷◌ p) (append-snoc pre l ls)

-- One round of the loop, by what it finds.
loop_end :
    (as' : List ℕ) (n i : ℕ) (ls : List Lease)
    → get_elem? ls i ≡ none
    → reconcile_loop as' (suc n) i ls ≡ ls
unfolding reconcile_loop
loop_end as' n i ls e = ground arith

loop_listed :
    (as' : List ℕ) (n i : ℕ) (l : Lease) (ls : List Lease)
    → get_elem? ls i ≡ some l
    → is_listed as' l.lease_id ≡ true
    → reconcile_loop as' (suc n) i ls ≡ reconcile_loop as' n (suc i) (modify confirm i ls)
unfolding reconcile_loop
loop_listed as' n i l ls e h = ground arith

loop_revoked :
    (as' : List ℕ) (n i : ℕ) (l : Lease) (ls : List Lease)
    → get_elem? ls i ≡ some l
    → is_listed as' l.lease_id ≡ false
    → is_revoked (revoke_running l).state ≡ true
    → reconcile_loop as' (suc n) i ls ≡ reconcile_loop as' n (suc i) (modify revoke_running i ls)
unfolding reconcile_loop
loop_revoked as' n i l ls e h r = ground arith

loop_dropped :
    (as' : List ℕ) (n i : ℕ) (l : Lease) (ls : List Lease)
    → get_elem? ls i ≡ some l
    → is_listed as' l.lease_id ≡ false
    → is_revoked (revoke_running l).state ≡ false
    → reconcile_loop as' (suc n) i ls ≡ reconcile_loop as' n i (remove_at i ls)
unfolding reconcile_loop
loop_dropped as' n i l ls e h r = ground arith

loop_done : (as' : List ℕ) (i : ℕ) (ls : List Lease) → reconcile_loop as' zero i ls ≡ ls
unfolding reconcile_loop
loop_done as' i ls = refl

-- A round that keeps a lease, changed by f, goes on behind it.
pass_kept :
    (as' : List ℕ) (n : ℕ) (f : Lease → Lease) (pre : List Lease) (l : Lease) (ls : List Lease)
    → (reconcile_loop as' n (length (pre ++ f l ∷ [])) ((pre ++ f l ∷ []) ++ ls)
        ≡ (pre ++ f l ∷ []) ++ reconciled_leases as' ls)
    → reconcile_loop as' n (suc (length pre)) (modify f (length pre) (pre ++ l ∷ ls))
      ≡ pre ++ f l ∷ reconciled_leases as' ls
pass_kept as' n f pre l ls h =
    rw (modify-after f pre l ls)
      (rw (sym (length-snoc pre (f l))) (h ∙ append-snoc pre (f l) (reconciled_leases as' ls)))

loop-pass :
    (as' : List ℕ) (n : ℕ) (pre ls : List Lease)
    → length ls ≤ n
    → reconcile_loop as' n (length pre) (pre ++ ls) ≡ pre ++ reconciled_leases as' ls
unfolding reconciled_leases
loop-pass as' zero pre [] h = loop_done as' (length pre) (pre ++ [])
loop-pass as' zero pre (l ∷ ls) h = absurd (omega arith)
loop-pass as' (suc n) pre [] h = loop_end as' n (length pre) (pre ++ []) (get_elem?-end pre)
loop-pass as' (suc n) pre (l ∷ ls) h = elim (Bool-cases (is_listed as' l.lease_id)) [
  | inl e ↦ rw e (
      loop_listed as' n _ l _ (get_elem?-after pre l ls) e
      ∙ pass_kept as' n confirm pre l ls (loop-pass as' n (pre ++ confirm l ∷ []) ls (omega arith)))
  | inr e ↦ rw e (elim (Bool-cases (is_revoked (revoke_running l).state)) [
    | inl r ↦ rw r (
        loop_revoked as' n _ l _ (get_elem?-after pre l ls) e r
        ∙ pass_kept as' n revoke_running pre l ls
            (loop-pass as' n (pre ++ revoke_running l ∷ []) ls (omega arith)))
    | inr r ↦ rw r (
        loop_dropped as' n _ l _ (get_elem?-after pre l ls) e r
        ∙ ap (reconcile_loop as' n (length pre)) (remove_at-after pre l ls)
        ∙ loop-pass as' n pre ls (omega arith))
  ])
]

pub reconnect_reconcile_pass :
    (as' : List ℕ) (ctx : Context)
    → (reconnect_reconcile as' ctx).active_leases ≡ reconciled_leases as' ctx.active_leases
unfolding reconnect_reconcile
reconnect_reconcile_pass as' ctx =
    loop-pass as' (length ctx.active_leases) [] ctx.active_leases (omega arith)
