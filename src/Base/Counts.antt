-- ===== src/Base/Counts.antt =====
-- How often a number stands in a list, and the pigeonhole principle for lists compared by counts.
use Prim.Native.Nat.{ℕ, suc, ◌+◌, ◌≤◌, ◌<◌}
use mathlib.Core.Path.{◌≡◌}
use mathlib.Core.List.{List, [], ◌∷◌, ◌++◌}
use native.Mathlib.Omega.{arith}
use void_os_merger.Base.Tests.{◌==◌, if◌then◌else◌, ==_self}
use void_os_merger.Base.Lists.{length}

unfoldable pub count : ℕ → List ℕ → ℕ
count a [] = 0
count a (x ∷ xs) = if x == a then suc (count a xs) else count a xs

erase : ℕ → List ℕ → List ℕ
erase a [] = []
erase a (x ∷ xs) = if x == a then xs else x ∷ erase a xs

pub count-append : (a : ℕ) (xs ys : List ℕ) → count a (xs ++ ys) ≡ count a xs + count a ys
unfolding count
count-append a [] ys = omega arith
count-append a (x ∷ xs) ys = ground (arith, count-append a xs ys)

count-erase :
    (a b : ℕ) (xs : List ℕ) → count b xs ≤ count b (erase a xs) + (if a == b then 1 else 0)
unfolding count erase
count-erase a b [] = ground arith
count-erase a b (x ∷ xs) = ground (arith, count-erase a b xs)

length-erase : (a : ℕ) (xs : List ℕ) → 0 < count a xs → suc (length (erase a xs)) ≡ length xs
unfolding count erase
length-erase a [] h = absurd (omega arith)
length-erase a (x ∷ xs) h = ground (arith, length-erase a xs)

-- A list that holds no number more often than another is not longer.
pub length-le_of_counts :
    (xs ys : List ℕ) → ((a : ℕ) → count a xs ≤ count a ys) → length xs ≤ length ys
unfolding count
length-le_of_counts [] ys h = omega arith
length-le_of_counts (x ∷ xs) ys h = omega (
  arith,
  length-erase x ys (ground (arith, h x, ==_self x)),
  length-le_of_counts xs (erase x ys) (λ a. ground (arith, h a, count-erase x a ys)),
)

-- It is shorter if some number stands in it less often.
pub length-lt_of_counts :
    (a : ℕ) (xs ys : List ℕ)
    → ((b : ℕ) → count b xs ≤ count b ys)
    → count a xs < count a ys
    → length xs < length ys
unfolding count
length-lt_of_counts a xs ys h k = length-le_of_counts (a ∷ xs) ys (λ b. ground (arith, h b))

pub count_le_length : (a : ℕ) (xs : List ℕ) → count a xs ≤ length xs
unfolding count
count_le_length a [] = omega arith
count_le_length a (x ∷ xs) = ground (arith, count_le_length a xs)
