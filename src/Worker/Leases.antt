-- ===== src/Worker/Leases.antt =====
-- worker/src/recovery.c: the leases that a worker works on, their revocation, and their
-- reconciliation with the master's list after a reconnection. `Reconcile` is about that
-- reconciliation, `Claims` about the results and `Exhaustion` about revoked leases.
pub mod Passes
pub mod Reconcile
pub mod Claims
pub mod Exhaustion
use void_os_merger.Base.{
  ℕ, zero, suc, Bool, true, false, not, ◌||◌, Option, none, some, List, [], ◌∷◌, ◌++◌, leb, ◌==◌,
  ◌&&◌, if◌then◌else◌, is_some, length, get_elem?, modify, find_first, update_first, Bytes, strncpy,
}

abbrev pub worker_max_active_leases : ℕ
worker_max_active_leases = 16

abbrev pub identity_name_max : ℕ
identity_name_max = 64

pub data ChunkState : Type 0 where
  running revoked completed reconciled : ChunkState

pub record Lease : Type 0 where
  pub lease_id : ℕ
  pub chunk_id : ℕ
  pub state : ChunkState
  pub output_checksum : Bytes
  pub partial_output_preserved : Bool
  pub policy_discard_on_cancel : Bool

pub record Context : Type 0 where
  pub active_leases : List Lease
  pub is_draining : Bool
  pub is_connected_to_master : Bool

unfoldable pub init : Context
init = record { active_leases = []; is_draining = false; is_connected_to_master = true }

unfoldable pub set_drain : Bool → Context → Context
set_drain drain_active ctx = record ctx { is_draining = drain_active }

unfoldable pub accepted : ℕ → ℕ → Bool → Lease
accepted id chunk discard = record {
  lease_id = id;
  chunk_id = chunk;
  state = running;
  output_checksum = [];
  partial_output_preserved = false;
  policy_discard_on_cancel = discard;
}

unfoldable pub accept_new_chunk : ℕ → ℕ → Bool → Context → Context × Bool
accept_new_chunk id chunk discard ctx =
    if ctx.is_draining
    then (ctx, false)
    else if leb worker_max_active_leases (length ctx.active_leases)
    then (ctx, false)
    else (record ctx { active_leases = ctx.active_leases ++ accepted id chunk discard ∷ [] }, true)

abbrev pub is_lease : ℕ → Lease → Bool
is_lease id l = l.lease_id == id

unfoldable pub revoke : Lease → Lease
revoke l = record l { state = revoked; partial_output_preserved = not l.policy_discard_on_cancel }

unfoldable pub handle_revocation : ℕ → Context → Context
handle_revocation id ctx = record ctx {
  active_leases = update_first (is_lease id) revoke ctx.active_leases;
}

unfoldable pub on_disconnect : Context → Context
on_disconnect ctx = record ctx { is_connected_to_master = false }

abbrev pub is_running : ChunkState → Bool
is_running running = true
is_running _ = false

abbrev pub is_revoked : ChunkState → Bool
is_revoked revoked = true
is_revoked _ = false

abbrev pub is_completed : ChunkState → Bool
is_completed completed = true
is_completed _ = false

abbrev pub is_reconciled : ChunkState → Bool
is_reconciled reconciled = true
is_reconciled _ = false

-- `matched`: the master's list has the lease.
unfoldable pub is_listed : List ℕ → ℕ → Bool
is_listed [] id = false
is_listed (a ∷ as') id = (a == id) || is_listed as' id

unfoldable pub revoke_running : Lease → Lease
revoke_running l = if is_running l.state then revoke l else l

unfoldable pub confirm : Lease → Lease
confirm l = if is_completed l.state then record l { state = reconciled } else l

-- The `memmove` that closes the gap at an index.
unfoldable pub remove_at : ℕ → List Lease → List Lease
remove_at i [] = []
remove_at zero (l ∷ ls) = ls
remove_at (suc i) (l ∷ ls) = l ∷ remove_at i ls

-- The loop from index i on; the first number bounds the rounds that it may still make.
unfoldable pub reconcile_loop : List ℕ → ℕ → ℕ → List Lease → List Lease
reconcile_loop authoritative zero i ls = ls
reconcile_loop authoritative (suc n) i ls = elim (get_elem? ls i) [
  | none ↦ ls
  | some l ↦ elim (is_listed authoritative l.lease_id) [
    | true ↦ reconcile_loop authoritative n (suc i) (modify confirm i ls)
    | false ↦ elim (is_revoked (revoke_running l).state) [
      | true ↦ reconcile_loop authoritative n (suc i) (modify revoke_running i ls)
      | false ↦ reconcile_loop authoritative n i (remove_at i ls)
    ]
  ]
]

-- Each round settles one lease, so as many rounds as leases are enough.
unfoldable pub reconnect_reconcile : List ℕ → Context → Context
reconnect_reconcile authoritative ctx = record ctx {
  is_connected_to_master = true;
  active_leases = reconcile_loop authoritative (length ctx.active_leases) 0 ctx.active_leases;
}

-- The checksum that is copied out, or none where the call returns false.
unfoldable pub claim_result : ℕ → Context → Option Bytes
claim_result id ctx = elim (find_first (is_lease id) ctx.active_leases) [
  | none ↦ none
  | some l ↦
      if not (is_reconciled l.state) && not (is_completed l.state)
      then none
      else some (strncpy identity_name_max l.output_checksum)
]

unfoldable pub complete : Bytes → Lease → Lease
complete sum l = record l { state = completed; output_checksum = strncpy identity_name_max sum }

unfoldable pub complete_chunk : ℕ → Bytes → Context → Context
complete_chunk id sum ctx = record ctx {
  active_leases =
      update_first (λ l. is_lease id l && is_running l.state) (complete sum) ctx.active_leases;
}

pub data Call : Type 0 where
  drains : Bool → Call
  accepts : ℕ → ℕ → Bool → Call
  revokes : ℕ → Call
  disconnects : Call
  reconnects : List ℕ → Call
  completes : ℕ → Bytes → Call

unfoldable pub step : Context → Call → Context
step ctx (drains b) = set_drain b ctx
step ctx (accepts id chunk discard) = (accept_new_chunk id chunk discard ctx).0
step ctx (revokes id) = handle_revocation id ctx
step ctx disconnects = on_disconnect ctx
step ctx (reconnects authoritative) = reconnect_reconcile authoritative ctx
step ctx (completes id sum) = complete_chunk id sum ctx

unfoldable pub run : Context → List Call → Context
run ctx [] = ctx
run ctx (c ∷ cs) = run (step ctx c) cs
