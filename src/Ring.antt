-- ===== src/Ring.antt =====
-- master/src/cluster_state.c and master/src/registry.c: the ring of four snapshots with their counts of
-- readers, which both files have in the same form, over the type of the snapshots.
use void_os_merger.Base.{
  ℕ, zero, suc, ◌+◌, ◌-◌, ◌%◌, Bool, false, none, some, List, ltb, if◌then◌else◌, get_elem?, add32,
}

abbrev pub snapshot_ring_size : ℕ
snapshot_ring_size = 4

-- `snapshot_pool[i]` with `snapshot_ref_counts[i]`.
pub record Slot (A : Type 0) : Type 0 where
  pub image : A
  pub ref_count : ℕ

abbrev pub next_slot : ℕ → ℕ
next_slot i = (i + 1) % snapshot_ring_size

module _ {A : Type 0} where
  unfoldable pub is_held : List (Slot A) → ℕ → Bool
  is_held pool i = elim (get_elem? pool i) [ none ↦ false | some slot ↦ ltb 0 slot.ref_count ]

  -- The search from slot i on; the number is how many steps it may still make.
  unfoldable pub find_slot : ℕ → List (Slot A) → ℕ → ℕ
  find_slot zero pool i = i
  find_slot (suc n) pool i =
      let rest = find_slot n pool (next_slot i) in if is_held pool i then rest else i

  unfoldable pub hold : A → Slot A → Slot A
  hold s slot = record { image = s; ref_count = add32 slot.ref_count 1 }

  unfoldable pub let_go : Slot A → Slot A
  let_go slot = record slot {
    ref_count = if ltb 0 slot.ref_count then slot.ref_count - 1 else slot.ref_count;
  }
