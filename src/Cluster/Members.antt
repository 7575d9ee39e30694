-- ===== src/Cluster/Members.antt =====
-- master/src/cluster_state.c: what a heartbeat and a lease update change, as maps by identifier.
use void_os_merger.Base.{
  ℕ, ◌≡◌, refl, true, false, Bool, ◌↔◌, Option, none, some, List, [], ◌∷◌, ◌++◌, arith, ◌==◌,
  if◌then◌else◌, is_some, Bool-cases, inl, inr, ◌||◌, ◌&&◌, not, ap, find_first, update_first,
  length, ==_iff, leb,
}
use void_os_merger.Cluster.{
  Snapshot, WorkerMember, ChunkLease, LeaseStatus, is_worker, is_lease, seen, set_lease,
  blank_lease, process_heartbeat, update_lease, recalculate_aggregates, cluster_max_active_leases,
}

-- The table as a map.
abbrev pub worker_of : Snapshot → ℕ → Option WorkerMember
worker_of s id = find_first (is_worker id) s.active_workers

abbrev pub lease_of : Snapshot → ℕ → Option ChunkLease
lease_of s id = find_first (is_lease id) s.active_leases

abbrev pub or_blank : ℕ → Option ChunkLease → ChunkLease
or_blank id none = blank_lease id
or_blank id (some l) = l

abbrev pub change_if {ℓ} : {A : Type ℓ} → Bool → (A → A) → Option A → Option A
change_if b f none = none
change_if b f (some a) = if b then some (f a) else some a

find-seen :
    (id id' now : ℕ) (ws : List WorkerMember)
    → find_first (is_worker id') (update_first (is_worker id) (seen now) ws)
      ≡ change_if (id' == id) (seen now) (find_first (is_worker id') ws)
unfolding find_first update_first seen
find-seen id id' now [] = refl
find-seen id id' now (w ∷ ws) = ground (arith, find-seen id id' now ws)

find-set :
    (id id' p : ℕ) (st : LeaseStatus) (ls : List ChunkLease)
    → find_first (is_lease id') (update_first (is_lease id) (set_lease st p) ls)
      ≡ change_if (id' == id) (set_lease st p) (find_first (is_lease id') ls)
unfolding find_first update_first set_lease
find-set id id' p st [] = refl
find-set id id' p st (l ∷ ls) = ground (arith, find-set id id' p st ls)

find-absent :
    (id id' now : ℕ) (ws : List WorkerMember)
    → is_some (find_first (is_worker id) ws) ≡ false
    → find_first (is_worker id') ws
      ≡ change_if (id' == id) (seen now) (find_first (is_worker id') ws)
unfolding find_first
find-absent id id' now [] h = refl
find-absent id id' now (w ∷ ws) h = ground (arith, find-absent id id' now ws)

find-added :
    (id id' p : ℕ) (st : LeaseStatus) (ls : List ChunkLease)
    → is_some (find_first (is_lease id) ls) ≡ false
    → find_first (is_lease id') (ls ++ set_lease st p (blank_lease id) ∷ [])
      ≡ (if id' == id then some (set_lease st p (blank_lease id)) else find_first (is_lease id') ls)
unfolding find_first set_lease blank_lease
find-added id id' p st [] h = ground arith
find-added id id' p st (l ∷ ls) h = ground (arith, find-added id id' p st ls)

find_same :
    (id id' : ℕ) (ls : List ChunkLease)
    → (id' == id) ≡ true
    → find_first (is_lease id') ls ≡ find_first (is_lease id) ls
find_same id id' ls h = ap (λ k. find_first (is_lease k) ls) ((==_iff id' id).0 h)

find-replaced :
    (id id' p : ℕ) (st : LeaseStatus) (ls : List ChunkLease)
    → is_some (find_first (is_lease id) ls) ≡ true
    → find_first (is_lease id') (update_first (is_lease id) (set_lease st p) ls) ≡ (
        if id' == id
        then some (set_lease st p (or_blank id (find_first (is_lease id) ls)))
        else find_first (is_lease id') ls)
find-replaced id id' p st ls h = elim (Bool-cases (id' == id)) [
  | inl e ↦ ground (arith, find-set id id' p st ls, find_same id id' ls e)
  | inr e ↦ rw e (ground (arith, find-set id id' p st ls))
]

find-placed :
    (id id' p : ℕ) (st : LeaseStatus) (ls : List ChunkLease)
    → is_some (find_first (is_lease id) ls) ≡ false
    → find_first (is_lease id') (ls ++ set_lease st p (blank_lease id) ∷ []) ≡ (
        if id' == id
        then some (set_lease st p (or_blank id (find_first (is_lease id) ls)))
        else find_first (is_lease id') ls)
find-placed id id' p st ls h = ground (arith, find-added id id' p st ls)

-- A heartbeat of a worker in the table records its time and brings it back online if it was offline;
-- it changes no other worker, and the heartbeat of an unknown worker changes nothing and is refused.
pub process_heartbeat-worker_of :
    (id id' now : ℕ) (s : Snapshot)
    → (worker_of (process_heartbeat id now s).0 id'
        ≡ change_if (id' == id) (seen now) (worker_of s id'))
      × ((process_heartbeat id now s).1 ≡ is_some (worker_of s id))
unfolding process_heartbeat recalculate_aggregates
process_heartbeat-worker_of id id' now s = elim (Bool-cases (is_some (worker_of s id))) [
  | inl e ↦ rw e (find-seen id id' now s.active_workers, refl)
  | inr e ↦ rw e (find-absent id id' now s.active_workers e, refl)
]

-- An update of the lease of a chunk that has one, or for which there is room, sets its status and
-- progress and counts a failure, on a new lease if the chunk had none; no other lease changes. An
-- update without room is refused, and changes nothing.
pub update_lease-lease_of :
    (id id' p : ℕ) (st : LeaseStatus) (s : Snapshot)
    → let r = update_lease id st p s in
      ((r.1 ≡ true) ↔ (
        (is_some (lease_of s id) || not (leb cluster_max_active_leases (length s.active_leases)))
        ≡ true))
      × (lease_of r.0 id' ≡ (
          if r.1 && (id' == id)
          then some (set_lease st p (or_blank id (lease_of s id)))
          else lease_of s id'))
unfolding update_lease
update_lease-lease_of id id' p st s = elim (Bool-cases (is_some (lease_of s id))) [
  | inl e ↦ rw e ((λ _. refl, λ _. refl), find-replaced id id' p st s.active_leases e)
  | inr e ↦ rw e (elim (Bool-cases (leb cluster_max_active_leases (length s.active_leases))) [
    | inl full ↦ rw full ((λ h. h, λ h. h), refl)
    | inr room ↦ rw room ((λ _. refl, λ _. refl), find-placed id id' p st s.active_leases e)
  ])
]
