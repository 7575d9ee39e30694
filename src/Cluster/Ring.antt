-- ===== src/Cluster/Ring.antt =====
-- master/src/cluster_state.c: the search for a slot of the ring, and the slots that readers hold.
use void_os_merger.Base.{
  ℕ, zero, suc, ◌<◌, ◌≡◌, ◌≢◌, ◌⊎◌, subst, ◌∙◌, refl, true, false, some, List, [], ◌∷◌, arith,
  length, get_elem?, modify, inl, inr,
}
use void_os_merger.Ring.{Slot, snapshot_ring_size, is_held, next_slot, find_slot, hold}
use void_os_merger.Cluster.{Snapshot}
use void_os_merger.Cluster.Reachable.{find_slot_lt}
use void_os_merger.Cluster.Snapshots.{Context, acquire_snapshot}

-- Some slot of the ring is held by no reader.
abbrev pub HasRoom : Context → Type 0
HasRoom ctx = (i : ℕ) × (i < snapshot_ring_size) × (is_held ctx.pool i ≡ false)

reaches :
    (t i : ℕ)
    → t < snapshot_ring_size
    → i < snapshot_ring_size
    → (i ≡ t)
      ⊎ (i ≡ next_slot t)
      ⊎ (i ≡ next_slot (next_slot t))
      ⊎ (i ≡ next_slot (next_slot (next_slot t)))
reaches t i ht hi = omega arith

-- The search ends at a slot that is not held, if there is one.
find_slot_free :
    (pool : List (Slot Snapshot)) (t i : ℕ)
    → t < snapshot_ring_size
    → i < snapshot_ring_size
    → is_held pool i ≡ false
    → is_held pool (find_slot snapshot_ring_size pool t) ≡ false
find_slot_free pool t i ht hi h = elim (reaches t i ht hi) [
  | inl e ↦ stops pool t (inl (at e))
  | inr (inl e) ↦ stops pool t (inr (inl (at e)))
  | inr (inr (inl e)) ↦ stops pool t (inr (inr (inl (at e))))
  | inr (inr (inr e)) ↦ stops pool t (inr (inr (inr (at e))))
]
  where
    at : {k : ℕ} → i ≡ k → is_held pool k ≡ false
    at e = subst (λ j. is_held pool j ≡ false) e h

    stops :
        (pool : List (Slot Snapshot)) (t : ℕ)
        → (is_held pool t ≡ false)
          ⊎ (is_held pool (next_slot t) ≡ false)
          ⊎ (is_held pool (next_slot (next_slot t)) ≡ false)
          ⊎ (is_held pool (next_slot (next_slot (next_slot t))) ≡ false)
        → is_held pool (find_slot snapshot_ring_size pool t) ≡ false
    stops pool t h = unfold find_slot in ground arith

pub get_elem?-modify_other :
    (f : Slot Snapshot → Slot Snapshot) (i j : ℕ) (xs : List (Slot Snapshot))
    → i ≢ j
    → get_elem? (modify f i xs) j ≡ get_elem? xs j
unfolding modify
get_elem?-modify_other f i j [] h = refl
get_elem?-modify_other f zero zero (x ∷ xs) h = absurd (h refl)
get_elem?-modify_other f zero (suc j) (x ∷ xs) h = refl
get_elem?-modify_other f (suc i) zero (x ∷ xs) h = refl
get_elem?-modify_other f (suc i) (suc j) (x ∷ xs) h =
    get_elem?-modify_other f i j xs (λ e. h (omega arith))

pub get_elem?-modify :
    (f : Slot Snapshot → Slot Snapshot) (i : ℕ) (xs : List (Slot Snapshot)) (a : Slot Snapshot)
    → get_elem? xs i ≡ some a
    → get_elem? (modify f i xs) i ≡ some (f a)
unfolding modify
get_elem?-modify f i [] a h = absurd (ground arith)
get_elem?-modify f zero (x ∷ xs) a h = ground arith
get_elem?-modify f (suc i) (x ∷ xs) a h = get_elem?-modify f i xs a h

get_elem?-some :
    (i : ℕ) (xs : List (Slot Snapshot))
    → i < length xs
    → (a : Slot Snapshot) × (get_elem? xs i ≡ some a)
get_elem?-some i [] h = absurd (omega arith)
get_elem?-some zero (x ∷ xs) h = (x, refl)
get_elem?-some (suc i) (x ∷ xs) h = get_elem?-some i xs (omega arith)

-- A reader holds slot t, with this image.
pub record IsReading (t : ℕ) (image : Snapshot) (pool : List (Slot Snapshot)) : Type 0 where
  pub slot : Slot Snapshot
  pub stands : get_elem? pool t ≡ some slot
  pub shows : slot.image ≡ image
  pub counted : 0 < slot.ref_count

IsReading-held :
    (t : ℕ) (s : Snapshot) (pool : List (Slot Snapshot))
    → IsReading t s pool
    → is_held pool t ≡ true
unfolding is_held
IsReading-held t s pool v = ground (arith, v.stands, v.counted)

unheld_zero :
    (pool : List (Slot Snapshot)) (t : ℕ) (a : Slot Snapshot)
    → get_elem? pool t ≡ some a
    → is_held pool t ≡ false
    → a.ref_count ≡ 0
unfolding is_held
unheld_zero pool t a e h = ground arith

-- An acquired slot was free, and shows the state.
pub acquire_snapshot-IsReading :
    (ctx : Context)
    → length ctx.pool ≡ snapshot_ring_size
    → ctx.pool_tail_idx < snapshot_ring_size
    → HasRoom ctx
    → IsReading (acquire_snapshot ctx).1 ctx.master_state (acquire_snapshot ctx).0.pool
unfolding acquire_snapshot hold
acquire_snapshot-IsReading ctx full tail (i, inside, free) =
    let t = find_slot snapshot_ring_size ctx.pool ctx.pool_tail_idx in
    let (a, e) =
      get_elem?-some t ctx.pool
        (omega (arith, find_slot_lt snapshot_ring_size ctx.pool ctx.pool_tail_idx tail)) in
    let unheld = find_slot_free ctx.pool ctx.pool_tail_idx i tail inside free in
    record {
      slot = hold ctx.master_state a;
      stands = get_elem?-modify (hold ctx.master_state) t ctx.pool a e;
      shows = refl;
      counted = omega (arith, unheld_zero ctx.pool t a e unheld);
    }

-- A slot that is held stays as it is when a snapshot is acquired with room.
pub acquire_snapshot-keeps :
    (t : ℕ) (s : Snapshot) (ctx : Context)
    → ctx.pool_tail_idx < snapshot_ring_size
    → HasRoom ctx
    → IsReading t s ctx.pool
    → IsReading t s (acquire_snapshot ctx).0.pool
unfolding acquire_snapshot
acquire_snapshot-keeps t s ctx tail (i, inside, free) v =
    let unheld = find_slot_free ctx.pool ctx.pool_tail_idx i tail inside free in
    record {
      slot = v.slot;
      stands =
          get_elem?-modify_other (hold ctx.master_state) _ t ctx.pool (λ e. absurd (
            ground (
              arith,
              IsReading-held t s ctx.pool v,
              subst (λ k. is_held ctx.pool k ≡ false) e unheld,
            )))
          ∙ v.stands;
      shows = v.shows;
      counted = v.counted;
    }
