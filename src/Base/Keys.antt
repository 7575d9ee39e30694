-- ===== src/Base/Keys.antt =====
-- Tables whose entries have a number as their key: the keys after a change, and counts of keys.
use Prim.Native.Nat.{ℕ, ◌≤◌}
use mathlib.Core.Path.{◌≡◌, refl, ap}
use mathlib.Core.Logic.{inl, inr}
use mathlib.Core.Bool.{Bool, false}
use mathlib.Core.List.{List, [], ◌∷◌, ◌++◌, map}
use native.Mathlib.Omega.{arith}
use void_os_merger.Base.Tests.{◌==◌, is_some, Bool-cases}
use void_os_merger.Base.Lists.{find_first, update_first}
use void_os_merger.Base.Counts.{count, count-append}

module _ {ℓ} {A : Type ℓ} (key : A → ℕ) where
  pub map-append : (xs ys : List A) → map key (xs ++ ys) ≡ map key xs ++ map key ys
  map-append [] ys = refl
  map-append (x ∷ xs) ys = ap (◌∷◌ (key x)) (map-append xs ys)

  -- A change that keeps the key of an entry keeps the keys of the table.
  pub map-update_first :
      (p : A → Bool) (f : A → A)
      → ((a : A) → key (f a) ≡ key a)
      → (xs : List A) → map key (update_first p f xs) ≡ map key xs
  unfolding update_first
  map-update_first p f h [] = refl
  map-update_first p f h (x ∷ xs) = elim (Bool-cases (p x)) [
    | inl e ↦ rw e (ap (λ k. k ∷ map key xs) (h x))
    | inr e ↦ rw e (ap (◌∷◌ (key x)) (map-update_first p f h xs))
  ]

  pub count-map_absent :
      (k : ℕ) (xs : List A)
      → is_some (find_first (λ a. key a == k) xs) ≡ false
      → count k (map key xs) ≡ 0
  unfolding find_first count
  count-map_absent k [] h = refl
  count-map_absent k (x ∷ xs) h = ground (arith, count-map_absent k xs)

  -- A new entry under a key that no entry has keeps the keys distinct.
  pub count-map_fresh :
      (x : A) (xs : List A)
      → is_some (find_first (λ a. key a == key x) xs) ≡ false
      → ((k : ℕ) → count k (map key xs) ≤ 1)
      → (k : ℕ) → count k (map key (xs ++ x ∷ [])) ≤ 1
  unfolding count
  count-map_fresh x xs h v k =
      rw (map-append xs (x ∷ [])) (
        ground
          (arith, count-append k (map key xs) (key x ∷ []), v k, count-map_absent (key x) xs h))
