-- ===== src/Registry/Snapshots.antt =====
-- master/src/registry.c: the ring of snapshots, and the calls in any order.
use void_os_merger.Base.{
  ℕ, ◌<◌, ◌≡◌, refl, List, [], ◌∷◌, arith, length, replicate, modify, All, All-modify,
  length-modify,
}
use void_os_merger.Ring.{Slot, snapshot_ring_size, next_slot, find_slot, hold, let_go}
use void_os_merger.Registry.{State, create}
use void_os_merger.Registry.Bounds.{IsSound}
use void_os_merger.Registry.History.{Call, step, step-IsSound}

-- The ring has `REG_RING_SIZE` slots, as many as that of the cluster state.
pub record Context : Type 0 where
  pub state : State
  pub pool : List (Slot State)
  pub pool_tail : ℕ

abbrev pub cleared : State
cleared = record { records = []; snapshot_version = 0 }

-- `vom_registry_create` with its ring.
unfoldable pub opened : Context
opened = record {
  state = create;
  pool = replicate snapshot_ring_size (record { image = cleared; ref_count = 0 });
  pool_tail = 0;
}

-- The number is the slot of the pointer that is returned.
unfoldable pub acquire_snapshot : Context → Context × ℕ
acquire_snapshot ctx =
    let slot = find_slot snapshot_ring_size ctx.pool ctx.pool_tail in
    (record ctx { pool = modify (hold ctx.state) slot ctx.pool; pool_tail = next_slot slot }, slot)

-- A pointer to no slot of the ring is a number that is out of range.
unfoldable pub release_snapshot : ℕ → Context → Context
release_snapshot i ctx = record ctx { pool = modify let_go i ctx.pool }

pub data Access : Type 0 where
  calls : Call → Access
  acquires : Access
  releases : ℕ → Access

unfoldable pub access : Context → Access → Context
access ctx (calls c) = record ctx { state = step ctx.state c }
access ctx acquires = (acquire_snapshot ctx).0
access ctx (releases i) = release_snapshot i ctx

unfoldable pub access_all : Context → List Access → Context
access_all ctx [] = ctx
access_all ctx (a ∷ as') = access_all (access ctx a) as'

-- The registry and every image in the ring keep the bounds.
pub record IsSoundContext (ctx : Context) : Type 0 where
  pub state : IsSound ctx.state
  pub images : All (λ slot. IsSound slot.image) ctx.pool
  pub ring : length ctx.pool ≡ snapshot_ring_size
  pub tail : ctx.pool_tail < snapshot_ring_size

access-IsSoundContext :
    (ctx : Context) (a : Access) → IsSoundContext ctx → IsSoundContext (access ctx a)
unfolding access acquire_snapshot release_snapshot hold let_go
access-IsSoundContext ctx (calls c) v = record {
  state = step-IsSound ctx.state c v.state;
  images = v.images;
  ring = v.ring;
  tail = v.tail;
}
access-IsSoundContext ctx acquires v = record {
  state = v.state;
  images =
      All-modify (λ slot. IsSound slot.image) (hold ctx.state) _ ctx.pool (λ slot _ _. v.state)
        v.images;
  ring = omega (arith, v.ring, length-modify (hold ctx.state) _ ctx.pool);
  tail = omega arith;
}
access-IsSoundContext ctx (releases i) v = record {
  state = v.state;
  images = All-modify (λ slot. IsSound slot.image) let_go i ctx.pool (λ slot _ h. h) v.images;
  ring = omega (arith, v.ring, length-modify let_go i ctx.pool);
  tail = v.tail;
}

access_all-IsSoundContext :
    (ctx : Context) (as' : List Access) → IsSoundContext ctx → IsSoundContext (access_all ctx as')
unfolding access_all
access_all-IsSoundContext ctx [] v = v
access_all-IsSoundContext ctx (a ∷ as') v =
    access_all-IsSoundContext (access ctx a) as' (access-IsSoundContext ctx a v)

-- After any calls from the start the registry, and each snapshot of it in the ring of four, has at most 64
-- workers, each with a name of at most 63 bytes and at most 32 chunks.
pub access_all-opened-IsSoundContext : (as' : List Access) → IsSoundContext (access_all opened as')
unfolding opened create
access_all-opened-IsSoundContext as' =
    let empty : IsSound cleared = record { workers_fit = omega arith; bounded = tt } in
    access_all-IsSoundContext _ as' (record {
      state = record { workers_fit = omega arith; bounded = tt };
      images = (empty, (empty, (empty, (empty, tt))));
      ring = refl;
      tail = omega arith;
    })
