-- ===== src/Planner/Topology/Fed.antt =====
-- master/src/chunk_planner.c: the edges that are taken away when the chunks of a list are taken, and the
-- order in which chunks are taken.
use void_os_merger.Base.{
  append_nil, append_assoc, ℕ, ◌+◌, ◌≤◌, ◌<◌, ◌≡◌, refl, subst, List, [], ◌∷◌, ◌++◌, arith, ◌==◌,
  if◌then◌else◌, count, count-append, All, Bool-cases, inl, inr, ==_iff,
}
use void_os_merger.Planner.{Edge}
use void_os_merger.Planner.Topology.Counting.{into}

-- The edges of `es` out of a chunk, put before those of `done`.
unfoldable pub leave : ℕ → List Edge → List Edge → List Edge
leave current [] done = done
leave current (e ∷ es) done =
    leave current es (if e.src_chunk_id == current then e ∷ done else done)

-- The edges into an identifier, each as often as its source is taken.
unfoldable pub fed : List Edge → List ℕ → ℕ → ℕ
fed [] taken id = 0
fed (e ∷ es) taken id =
    (if e.dst_chunk_id == id then count e.src_chunk_id taken else 0) + fed es taken id

pub fed_none : (es : List Edge) (id : ℕ) → fed es [] id ≡ 0
unfolding fed count
fed_none [] id = refl
fed_none (e ∷ es) id = ground (arith, fed_none es id)

pub into-leave :
    (current : ℕ) (es done : List Edge) (id : ℕ)
    → into (leave current es done) id ≡ into done id + fed es (current ∷ []) id
unfolding leave into fed count
into-leave current [] done id = omega arith
into-leave current (e ∷ es) done id =
    ground (arith, into-leave current es (if e.src_chunk_id == current then e ∷ done else done) id)

pub fed-append :
    (es : List Edge) (xs ys : List ℕ) (id : ℕ) → fed es (xs ++ ys) id ≡ fed es xs id + fed es ys id
unfolding fed
fed-append [] xs ys id = refl
fed-append (e ∷ es) xs ys id =
    ground (arith, fed-append es xs ys id, count-append e.src_chunk_id xs ys)

-- Every edge into the identifier comes from one that is taken.
abbrev pub IsFed : List Edge → List ℕ → ℕ → Type 0
IsFed es taken id = All (λ e. e.dst_chunk_id ≡ id → 0 < count e.src_chunk_id taken) es

pub into_le_fed :
    (es : List Edge) (taken : List ℕ) (id : ℕ) → IsFed es taken id → into es id ≤ fed es taken id
unfolding into fed
into_le_fed [] taken id h = omega arith
into_le_fed (e ∷ es) taken id h = elim (Bool-cases (e.dst_chunk_id == id)) [
  | inl q ↦ ground (arith, into_le_fed es taken id h.1, h.0 ((==_iff e.dst_chunk_id id).0 q))
  | inr q ↦ ground (arith, into_le_fed es taken id h.1)
]

fed_le_into :
    (es : List Edge) (taken : List ℕ) (id : ℕ)
    → ((k : ℕ) → count k taken ≤ 1)
    → fed es taken id ≤ into es id
unfolding into fed
fed_le_into [] taken id h = omega arith
fed_le_into (e ∷ es) taken id h = ground (arith, fed_le_into es taken id h, h e.src_chunk_id)

-- Where nothing is taken twice, as many edges as there are means all edges.
pub fed-IsFed :
    (es : List Edge) (taken : List ℕ) (id : ℕ)
    → ((k : ℕ) → count k taken ≤ 1)
    → into es id ≤ fed es taken id
    → IsFed es taken id
unfolding into fed
fed-IsFed [] taken id h k = tt
fed-IsFed (e ∷ es) taken id h k = (
  λ q. ground (arith, fed_le_into es taken id h, q),
  fed-IsFed es taken id h (ground (arith, h e.src_chunk_id)),
)

pub IsFed-append :
    (es : List Edge) (xs ys : List ℕ) (id : ℕ) → IsFed es xs id → IsFed es (xs ++ ys) id
IsFed-append [] xs ys id h = tt
IsFed-append (e ∷ es) xs ys id h =
    (λ q. omega (arith, h.0 q, count-append e.src_chunk_id xs ys), IsFed-append es xs ys id h.1)

-- Each identifier is fed by those before it.
unfoldable pub InOrder : List Edge → List ℕ → List ℕ → Type 0
InOrder es seen [] = Unit
InOrder es seen (x ∷ xs) = IsFed es seen x × InOrder es (seen ++ x ∷ []) xs

pub InOrder-append :
    (es : List Edge) (seen xs ys : List ℕ)
    → InOrder es seen xs
    → InOrder es (seen ++ xs) ys
    → InOrder es seen (xs ++ ys)
unfolding InOrder
InOrder-append es seen [] ys h k = subst (λ s. InOrder es s ys) (append_nil seen) k
InOrder-append es seen (x ∷ xs) ys h k =
    (h.0, InOrder-append es (seen ++ x ∷ []) xs ys h.1 (rw (append_assoc seen (x ∷ []) xs) k))

pub All-InOrder : (es : List Edge) (seen xs : List ℕ) → All (IsFed es seen) xs → InOrder es seen xs
unfolding InOrder
All-InOrder es seen [] h = tt
All-InOrder es seen (x ∷ xs) h = (h.0, All-InOrder es (seen ++ x ∷ []) xs (later xs h.1))
  where
    later : (ys : List ℕ) → All (IsFed es seen) ys → All (IsFed es (seen ++ x ∷ [])) ys
    later [] k = tt
    later (y ∷ ys) k = (IsFed-append es seen (x ∷ []) y k.0, later ys k.1)
