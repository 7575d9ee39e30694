-- ===== src/Planner/Topology/Ready.antt =====
-- master/src/chunk_planner.c: the indices that are ready, and the identifiers of a list of indices.
use void_os_merger.Base.{
  ℕ, zero, suc, ◌+◌, ◌≤◌, ◌<◌, ◌≡◌, refl, sym, ap, ◌∙◌, subst, ◌⊎◌, inl, inr, none, some, List, [],
  ◌∷◌, ◌++◌, map, arith, ◌==◌, ==_iff, length, get_elem?, count, Bool-cases, Option-cases,
}
use void_os_merger.Planner.{Chunk, Edge}
use void_os_merger.Planner.Topology.Counting.{into, ready_at}

pub length-ready_at :
    (all done : List Edge) (j : ℕ) (cs : List Chunk) → length (ready_at all done j cs) ≤ length cs
unfolding ready_at
length-ready_at all done j [] = omega arith
length-ready_at all done j (c ∷ cs) = ground (arith, length-ready_at all done (suc j) cs)

ready_at_before :
    (all done : List Edge) (i j : ℕ) (cs : List Chunk)
    → i < j
    → count i (ready_at all done j cs) ≡ 0
unfolding ready_at count
ready_at_before all done i j [] h = refl
ready_at_before all done i j (c ∷ cs) h =
    ground (arith, ready_at_before all done i (suc j) cs (omega arith))

pub ready_at_once :
    (all done : List Edge) (i j : ℕ) (cs : List Chunk) → count i (ready_at all done j cs) ≤ 1
unfolding ready_at count
ready_at_once all done i j [] = omega arith
ready_at_once all done i j (c ∷ cs) = ground (
  arith,
  ready_at_once all done i (suc j) cs,
  ready_at_before all done j (suc j) cs (omega arith),
)

-- A ready index is that of a chunk ...
pub ready_at-some :
    (all done : List Edge) (i j : ℕ) (cs : List Chunk)
    → 0 < count i (ready_at all done j cs)
    → (k : ℕ) × (c : Chunk) × (i ≡ j + k)
      × (get_elem? cs k ≡ some c)
      × (into all c.chunk_id ≤ into done c.chunk_id)
unfolding ready_at count
ready_at-some all done i j [] h = absurd (omega arith)
ready_at-some all done i j (c ∷ cs) h = elim (Bool-cases (j == i)) [
  | inl e ↦ (
    0,
    c,
    ground arith,
    refl,
    ground (arith, ready_at_before all done i (suc j) cs (ground arith)),
  )
  | inr e ↦
      let (k, d, p, q, r) = ready_at-some all done i (suc j) cs (ground arith) in
      (suc k, d, omega arith, q, r)
]

-- ... and conversely.
pub ready_at-has :
    (all done : List Edge) (k j : ℕ) (cs : List Chunk) (c : Chunk)
    → get_elem? cs k ≡ some c
    → into all c.chunk_id ≤ into done c.chunk_id
    → 0 < count (j + k) (ready_at all done j cs)
unfolding ready_at count
ready_at-has all done k j [] c e h = absurd (ground arith)
ready_at-has all done zero j (d ∷ cs) c e h =
    let same : d ≡ c = ground arith in rw same (ground arith)
ready_at-has all done (suc k) j (d ∷ cs) c e h =
    ground (arith, ready_at-has all done k (suc j) cs c e h)

-- The identifiers of the chunks at the indices.
unfoldable pub ids_of : List Chunk → List ℕ → List ℕ
ids_of cs [] = []
ids_of cs (i ∷ is) = elim (get_elem? cs i) [
  | none ↦ ids_of cs is
  | some c ↦ c.chunk_id ∷ ids_of cs is
]

ids_of-none :
    (cs : List Chunk) (i : ℕ) (is : List ℕ)
    → get_elem? cs i ≡ none
    → ids_of cs (i ∷ is) ≡ ids_of cs is
unfolding ids_of
ids_of-none cs i is e = ground arith

ids_of-some :
    (cs : List Chunk) (i : ℕ) (is : List ℕ) (c : Chunk)
    → get_elem? cs i ≡ some c
    → ids_of cs (i ∷ is) ≡ c.chunk_id ∷ ids_of cs is
unfolding ids_of
ids_of-some cs i is c e = ground arith

pub ids_of-append :
    (cs : List Chunk) (is js : List ℕ) → ids_of cs (is ++ js) ≡ ids_of cs is ++ ids_of cs js
ids_of-append cs [] js = unfold ids_of in refl
ids_of-append cs (i ∷ is) js = elim (Option-cases (get_elem? cs i)) [
  | inl e ↦ rw (ids_of-none cs i (is ++ js) e, ids_of-none cs i is e) (ids_of-append cs is js)
  | inr (c, e) ↦
      rw (ids_of-some cs i (is ++ js) c e, ids_of-some cs i is c e)
        (ap (◌∷◌ c.chunk_id) (ids_of-append cs is js))
]

pub ids_of_one :
    (cs : List Chunk) (i : ℕ) (c : Chunk)
    → get_elem? cs i ≡ some c
    → ids_of cs (i ∷ []) ≡ c.chunk_id ∷ []
ids_of_one cs i c e = rw (ids_of-some cs i [] c e) (unfold ids_of in refl)

pub count-ids_of :
    (cs : List Chunk) (is : List ℕ) (i : ℕ) (c : Chunk)
    → get_elem? cs i ≡ some c
    → 0 < count i is
    → 0 < count c.chunk_id (ids_of cs is)
unfolding count
count-ids_of cs [] i c e h = absurd (omega arith)
count-ids_of cs (j ∷ is) i c e h = elim (Bool-cases (j == i)) [
  | inl q ↦
      let same : i ≡ j = ground arith in
      rw (ids_of-some cs j is c (subst (λ k. get_elem? cs k ≡ some c) same e)) (ground arith)
  | inr q ↦
      let rest = count-ids_of cs is i c e (ground arith) in
      elim (Option-cases (get_elem? cs j)) [
        | inl n ↦ rw (ids_of-none cs j is n) rest
        | inr (d, n) ↦ rw (ids_of-some cs j is d n) (ground (arith, rest))
      ]
]

abbrev pub IsDistinct : List Chunk → Type 0
IsDistinct cs = (k : ℕ) → count k (map (λ c. c.chunk_id) cs) ≤ 1

count-map_at :
    (cs : List Chunk) (j : ℕ) (d : Chunk)
    → get_elem? cs j ≡ some d
    → 0 < count d.chunk_id (map (λ c. c.chunk_id) cs)
unfolding count
count-map_at [] j d e = absurd (ground arith)
count-map_at (c ∷ cs) zero d e = let same : c ≡ d = ground arith in rw same (ground arith)
count-map_at (c ∷ cs) (suc j) d e = ground (arith, count-map_at cs j d e)

-- Where the identifiers are distinct, an identifier has one index.
same_index :
    (cs : List Chunk) (i j : ℕ) (c d : Chunk)
    → IsDistinct cs
    → get_elem? cs i ≡ some c
    → get_elem? cs j ≡ some d
    → c.chunk_id ≡ d.chunk_id
    → i ≡ j
unfolding count
same_index [] i j c d v p q e = absurd (ground arith)
same_index (b ∷ cs) zero zero c d v p q e = refl
same_index (b ∷ cs) zero (suc j) c d v p q e =
    let same : b ≡ c = ground arith in
    absurd
      (ground (arith, v d.chunk_id, count-map_at cs j d q, ap (λ (x : Chunk). x.chunk_id) same))
same_index (b ∷ cs) (suc i) zero c d v p q e =
    let same : b ≡ d = ground arith in
    absurd
      (ground (arith, v c.chunk_id, count-map_at cs i c p, ap (λ (x : Chunk). x.chunk_id) same))
same_index (b ∷ cs) (suc i) (suc j) c d v p q e =
    ap suc (same_index cs i j c d (λ k. ground (arith, v k)) p q e)

count-ids_of_index :
    (cs : List Chunk) (k : ℕ) (is : List ℕ)
    → IsDistinct cs
    → (count k (ids_of cs is) ≡ 0)
      ⊎ ((i : ℕ) × (c : Chunk) × (get_elem? cs i ≡ some c)
          × (c.chunk_id ≡ k)
          × (count k (ids_of cs is) ≤ count i is))
unfolding count
count-ids_of_index cs k [] v = inl (unfold ids_of in refl)
count-ids_of_index cs k (j ∷ js) v = elim (Option-cases (get_elem? cs j)) [
  | inl n ↦ rw (ids_of-none cs j js n) (elim (count-ids_of_index cs k js v) [
    | inl z ↦ inl z
    | inr (i, c, p, q, r) ↦ inr (i, c, p, q, ground (arith, r))
  ])
  | inr (d, n) ↦ rw (ids_of-some cs j js d n) (elim (Bool-cases (d.chunk_id == k)) [
    | inl e ↦ elim (count-ids_of_index cs k js v) [
      | inl z ↦ inr (j, d, n, (==_iff d.chunk_id k).0 e, ground (arith, z))
      | inr (i, c, p, q, r) ↦
          let at : j ≡ i = same_index cs j i d c v n p ((==_iff d.chunk_id k).0 e ∙ sym q) in
          inr (i, c, p, q, ground (arith, r, at))
    ]
    | inr e ↦ elim (count-ids_of_index cs k js v) [
      | inl z ↦ inl (ground (arith, z))
      | inr (i, c, p, q, r) ↦ inr (i, c, p, q, ground (arith, r))
    ]
  ])
]

pub ids_of_once :
    (cs : List Chunk) (is : List ℕ)
    → IsDistinct cs
    → ((i : ℕ) → count i is ≤ 1)
    → (k : ℕ) → count k (ids_of cs is) ≤ 1
ids_of_once cs is v h k = elim (count-ids_of_index cs k is v) [
  | inl z ↦ omega arith
  | inr (i, c, p, q, r) ↦ omega (arith, r, h i)
]
