-- ===== src/Scheduler/Actives.antt =====
-- master/src/scheduler.c: the chunks with an active lease, counted, and what each operation on the
-- tables of leases and chunks does to the counts.
use void_os_merger.Base.{
  ℕ, ◌+◌, ◌≤◌, ◌<◌, ◌≡◌, refl, true, false, not, none, some, List, [], ◌∷◌, ◌++◌, arith, map,
  length, find_first, is_some, update_first, remove_first, count, count-append, ◌==◌, if◌then◌else◌,
  length-append, length-update_first,
}
use void_os_merger.Scheduler.{ChunkPlan, Lease, holds, is_chunk, max_schunks}
use void_os_merger.Scheduler.Tick.{place_lease, deactivate}

-- The chunks of the active leases, one entry for each lease.
unfoldable pub actives : List Lease → List ℕ
actives [] = []
actives (l ∷ ls) = if l.is_active then l.chunk_id ∷ actives ls else actives ls

abbrev pub chunk_ids : List ChunkPlan → List ℕ
chunk_ids = map (λ c. c.chunk_id)

-- 1 at the number itself.
abbrev pub one_at : ℕ → ℕ → ℕ
one_at a b = if a == b then 1 else 0

pub count-actives_absent :
    (id : ℕ) (ls : List Lease) → find_first (holds id) ls ≡ none → count id (actives ls) ≡ 0
unfolding find_first actives count
count-actives_absent id [] h = refl
count-actives_absent id (l ∷ ls) h = ground (arith, count-actives_absent id ls)

pub count-actives_present :
    (id : ℕ) (ls : List Lease) (l : Lease)
    → find_first (holds id) ls ≡ some l
    → 0 < count id (actives ls)
unfolding find_first actives count
count-actives_present id [] l h = absurd (ground arith)
count-actives_present id (x ∷ ls) l h = ground (arith, count-actives_present id ls l)

pub count-actives-deactivate :
    (id b : ℕ) (ls : List Lease) (l : Lease)
    → find_first (holds id) ls ≡ some l
    → count b (actives (update_first (holds id) deactivate ls)) + one_at id b ≡ count b (actives ls)
unfolding find_first update_first actives count
count-actives-deactivate id b [] l h = absurd (ground arith)
count-actives-deactivate id b (x ∷ ls) l h = ground (arith, count-actives-deactivate id b ls l)

count-actives_slot :
    (b : ℕ) (new : Lease) (ls : List Lease)
    → new.is_active ≡ true
    → is_some (find_first (λ l. not l.is_active) ls) ≡ true
    → count b (actives (update_first (λ l. not l.is_active) (λ _. new) ls))
      ≡ count b (actives ls) + one_at new.chunk_id b
unfolding find_first update_first actives count
count-actives_slot b new [] a h = absurd (ground arith)
count-actives_slot b new (l ∷ ls) a h = ground (arith, count-actives_slot b new ls a)

actives-append : (ls ms : List Lease) → actives (ls ++ ms) ≡ actives ls ++ actives ms
unfolding actives
actives-append [] ms = refl
actives-append (l ∷ ls) ms = ground (arith, actives-append ls ms)

pub count-actives-place_lease :
    (b : ℕ) (new : Lease) (ls ms : List Lease)
    → new.is_active ≡ true
    → place_lease new ls ≡ some ms
    → count b (actives ms) ≡ count b (actives ls) + one_at new.chunk_id b
unfolding place_lease actives count
count-actives-place_lease b new ls ms a h = ground (
  arith,
  count-actives_slot b new ls a,
  actives-append ls (new ∷ []),
  count-append b (actives ls) (new.chunk_id ∷ []),
)

pub length-place_lease :
    (new : Lease) (ls ms : List Lease)
    → length ls ≤ max_schunks
    → place_lease new ls ≡ some ms
    → length ms ≤ max_schunks
unfolding place_lease
length-place_lease new ls ms fit h = ground (
  arith,
  length-update_first (λ (l : Lease). not l.is_active) (λ _. new) ls,
  length-append ls (new ∷ []),
)

length-actives_full :
    (ls : List Lease)
    → is_some (find_first (λ l. not l.is_active) ls) ≡ false
    → length (actives ls) ≡ length ls
unfolding find_first actives
length-actives_full [] h = refl
length-actives_full (l ∷ ls) h = ground (arith, length-actives_full ls)

-- There is no place only if every slot of the table holds an active lease.
pub length-actives_no_place :
    (new : Lease) (ls : List Lease) → place_lease new ls ≡ none → max_schunks ≤ length (actives ls)
unfolding place_lease
length-actives_no_place new ls h = ground (arith, length-actives_full ls)

pub length-chunk_ids : (cs : List ChunkPlan) → length (chunk_ids cs) ≡ length cs
length-chunk_ids [] = refl
length-chunk_ids (c ∷ cs) = omega (arith, length-chunk_ids cs)

pub count-chunk_ids_absent :
    (id : ℕ) (cs : List ChunkPlan)
    → is_some (find_first (is_chunk id) cs) ≡ false
    → count id (chunk_ids cs) ≡ 0
unfolding find_first count
count-chunk_ids_absent id [] h = refl
count-chunk_ids_absent id (c ∷ cs) h = ground (arith, count-chunk_ids_absent id cs)

pub chunk_ids-replace :
    (c : ChunkPlan) (cs : List ChunkPlan)
    → chunk_ids (update_first (is_chunk c.chunk_id) (λ _. c) cs) ≡ chunk_ids cs
unfolding update_first
chunk_ids-replace c [] = refl
chunk_ids-replace c (x ∷ cs) = ground (arith, chunk_ids-replace c cs)

pub chunk_ids-append :
    (cs ds : List ChunkPlan) → chunk_ids (cs ++ ds) ≡ chunk_ids cs ++ chunk_ids ds
chunk_ids-append [] ds = refl
chunk_ids-append (c ∷ cs) ds = ground (arith, chunk_ids-append cs ds)

pub count-chunk_ids-remove :
    (id b : ℕ) (cs : List ChunkPlan) (c : ChunkPlan)
    → find_first (is_chunk id) cs ≡ some c
    → count b (chunk_ids (remove_first (is_chunk id) cs)) + one_at id b ≡ count b (chunk_ids cs)
unfolding find_first remove_first count
count-chunk_ids-remove id b [] c h = absurd (ground arith)
count-chunk_ids-remove id b (x ∷ cs) c h = ground (arith, count-chunk_ids-remove id b cs c)
