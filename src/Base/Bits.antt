-- ===== src/Base/Bits.antt =====
-- Exclusive or and right shift on machine words, from the digits that they stand for.
use Prim.Native.Nat.{
  ℕ, zero, suc, ◌+◌, ◌*◌, ◌/◌, ◌%◌, ◌^◌, ◌≤◌, ◌<◌, bit_xor, bit_xor-bitwise, digits, differ,
}
use mathlib.Core.Path.{◌≡◌, refl, sym, ap, ◌∙◌}
use native.Mathlib.Omega.{arith}
use void_os_merger.Base.Words.{u64_mod}

abbrev xor_digits : ℕ → ℕ → ℕ → ℕ
xor_digits n a b = digits (λ b. b) differ n a b

xor_digits_fuel : (n m a b : ℕ) → a ≤ n → a ≤ m → xor_digits n a b ≡ xor_digits m a b
xor_digits_fuel zero zero a b p q = refl
xor_digits_fuel zero (suc m) zero b p q = refl
xor_digits_fuel zero (suc m) (suc a) b p q = absurd (omega arith)
xor_digits_fuel (suc n) zero zero b p q = refl
xor_digits_fuel (suc n) zero (suc a) b p q = absurd (omega arith)
xor_digits_fuel (suc n) (suc m) zero b p q = refl
xor_digits_fuel (suc n) (suc m) (suc a) b p q =
    omega (arith, xor_digits_fuel n m (suc a / 2) (b / 2) (omega arith) (omega arith))

pub zero-bit_xor : (b : ℕ) → bit_xor 0 b ≡ b
zero-bit_xor b = bit_xor-bitwise 0 b

-- One binary digit of an exclusive or.
abbrev pub bit_differ : ℕ → ℕ → ℕ
bit_differ zero y = y
bit_differ (suc x) zero = 1
bit_differ (suc x) (suc y) = 0

differ_bits : (a b : ℕ) → differ (a % 2) (b % 2) ≡ bit_differ (a % 2) (b % 2)
differ_bits a b = small (a % 2) (b % 2) (omega arith) (omega arith)
  where
    small : (x y : ℕ) → x < 2 → y < 2 → differ x y ≡ bit_differ x y
    small zero y p q = refl
    small (suc zero) zero p q = refl
    small (suc zero) (suc zero) p q = refl
    small (suc zero) (suc (suc y)) p q = absurd (omega arith)
    small (suc (suc x)) y p q = absurd (omega arith)

pub bit_xor_step :
    (a b : ℕ) → bit_xor a b ≡ bit_xor (a / 2) (b / 2) * 2 + bit_differ (a % 2) (b % 2)
bit_xor_step zero b = omega (arith, zero-bit_xor b, zero-bit_xor (b / 2))
bit_xor_step (suc a) b = omega (
  arith,
  bit_xor-bitwise (suc a) b,
  bit_xor-bitwise (suc a / 2) (b / 2),
  xor_digits_fuel a (suc a / 2) (suc a / 2) (b / 2) (omega arith) (omega arith),
  differ_bits (suc a) b,
)

bit_differ_lt : (x y : ℕ) → x < 2 → y < 2 → bit_differ x y < 2
bit_differ_lt zero y p q = q
bit_differ_lt (suc x) zero p q = omega arith
bit_differ_lt (suc x) (suc y) p q = omega arith

pub bit_xor-half : (a b : ℕ) → bit_xor a b / 2 ≡ bit_xor (a / 2) (b / 2)
bit_xor-half a b =
    omega (arith, bit_xor_step a b, bit_differ_lt (a % 2) (b % 2) (omega arith) (omega arith))

bit_xor-parity : (a b : ℕ) → bit_xor a b % 2 ≡ bit_differ (a % 2) (b % 2)
bit_xor-parity a b =
    omega (arith, bit_xor_step a b, bit_differ_lt (a % 2) (b % 2) (omega arith) (omega arith))

-- Exclusive or with the same number twice changes nothing: on digits, then on numbers of n digits.
bit_differ_twice : (x y : ℕ) → x < 2 → y < 2 → bit_differ x (bit_differ x y) ≡ y
bit_differ_twice zero y p q = refl
bit_differ_twice (suc x) zero p q = refl
bit_differ_twice (suc x) (suc zero) p q = refl
bit_differ_twice (suc x) (suc (suc y)) p q = absurd (omega arith)

bit_xor_twice_fuel : (n a b : ℕ) → a ≤ n → bit_xor a (bit_xor a b) ≡ b
bit_xor_twice_fuel n zero b h = zero-bit_xor (bit_xor 0 b) ∙ zero-bit_xor b
bit_xor_twice_fuel zero (suc a) b h = absurd (omega arith)
bit_xor_twice_fuel (suc n) (suc a) b h =
    bit_xor_step (suc a) (bit_xor (suc a) b)
    ∙ rw (bit_xor-half (suc a) b, bit_xor-parity (suc a) b)
        (omega (
          arith,
          bit_xor_twice_fuel n (suc a / 2) (b / 2) (omega arith),
          bit_differ_twice (suc a % 2) (b % 2) (omega arith) (omega arith),
        ))

pub bit_xor_twice : (a b : ℕ) → bit_xor a (bit_xor a b) ≡ b
bit_xor_twice a b = bit_xor_twice_fuel a a b (omega arith)

bit_differ_comm : (x y : ℕ) → x < 2 → y < 2 → bit_differ x y ≡ bit_differ y x
bit_differ_comm zero zero p q = refl
bit_differ_comm zero (suc zero) p q = refl
bit_differ_comm (suc zero) zero p q = refl
bit_differ_comm (suc x) (suc y) p q = refl
bit_differ_comm zero (suc (suc y)) p q = absurd (omega arith)
bit_differ_comm (suc (suc x)) zero p q = absurd (omega arith)

bit_xor-zero_fuel : (n a : ℕ) → a ≤ n → bit_xor a 0 ≡ a
bit_xor-zero_fuel n zero h = zero-bit_xor 0
bit_xor-zero_fuel zero (suc a) h = absurd (omega arith)
bit_xor-zero_fuel (suc n) (suc a) h = omega (
  arith,
  bit_xor_step (suc a) 0,
  bit_xor-zero_fuel n (suc a / 2) (omega arith),
  bit_differ_comm (suc a % 2) 0 (omega arith) (omega arith),
)

bit_xor_comm_fuel : (n a b : ℕ) → a ≤ n → bit_xor a b ≡ bit_xor b a
bit_xor_comm_fuel n zero b h = zero-bit_xor b ∙ sym (bit_xor-zero_fuel b b (omega arith))
bit_xor_comm_fuel zero (suc a) b h = absurd (omega arith)
bit_xor_comm_fuel (suc n) (suc a) b h = omega (
  arith,
  bit_xor_step (suc a) b,
  bit_xor_step b (suc a),
  bit_xor_comm_fuel n (suc a / 2) (b / 2) (omega arith),
  bit_differ_comm (suc a % 2) (b % 2) (omega arith) (omega arith),
)

pub bit_xor_comm : (a b : ℕ) → bit_xor a b ≡ bit_xor b a
bit_xor_comm a b = bit_xor_comm_fuel a a b (omega arith)

-- 2 ^ n.
power : ℕ → ℕ
power zero = 1
power (suc n) = power n * 2

bit_xor_lt_power : (n a b : ℕ) → a < power n → b < power n → bit_xor a b < power n
unfolding power
bit_xor_lt_power zero zero zero p q = omega (arith, zero-bit_xor 0)
bit_xor_lt_power zero zero (suc b) p q = absurd (omega arith)
bit_xor_lt_power zero (suc a) b p q = absurd (omega arith)
bit_xor_lt_power (suc n) a b p q = omega (
  arith,
  bit_xor_step a b,
  bit_differ_lt (a % 2) (b % 2) (omega arith) (omega arith),
  bit_xor_lt_power n (a / 2) (b / 2) (omega arith) (omega arith),
)

pub bit_xor-lt : (a b : ℕ) → a < u64_mod → b < u64_mod → bit_xor a b < u64_mod
unfolding power
bit_xor-lt a b p q = bit_xor_lt_power 64 a b p q

-- `hash >> 33`.
abbrev pub shr33 : ℕ → ℕ
shr33 a = a / 2 ^ 33

halves : ℕ → ℕ → ℕ
halves zero a = a
halves (suc n) a = halves n (a / 2)

bit_xor-halves : (n a b : ℕ) → halves n (bit_xor a b) ≡ bit_xor (halves n a) (halves n b)
unfolding halves
bit_xor-halves zero a b = refl
bit_xor-halves (suc n) a b = rw (bit_xor-half a b) (bit_xor-halves n (a / 2) (b / 2))

halves-shr33 : (a : ℕ) → halves 33 a ≡ shr33 a
unfolding halves
halves-shr33 a = omega arith

pub bit_xor-shr33 : (a b : ℕ) → shr33 (bit_xor a b) ≡ bit_xor (shr33 a) (shr33 b)
bit_xor-shr33 a b =
    sym (halves-shr33 (bit_xor a b))
    ∙ bit_xor-halves 33 a b
    ∙ rw (halves-shr33 a, halves-shr33 b) refl

-- `hash ^= hash >> 33` is undone by itself.
pub bit_xor-shr33_twice :
    (x : ℕ) → x < u64_mod → let y = bit_xor x (shr33 x) in bit_xor y (shr33 y) ≡ x
bit_xor-shr33_twice x h =
    let gone : shr33 (shr33 x) ≡ 0 = omega arith in
    let same : shr33 (bit_xor x (shr33 x)) ≡ shr33 x =
      bit_xor-shr33 x (shr33 x)
      ∙ ap (bit_xor (shr33 x)) gone
      ∙ bit_xor-zero_fuel (shr33 x) (shr33 x) (omega arith) in
    ap (bit_xor (bit_xor x (shr33 x))) same
    ∙ bit_xor_comm (bit_xor x (shr33 x)) (shr33 x)
    ∙ ap (bit_xor (shr33 x)) (bit_xor_comm x (shr33 x))
    ∙ bit_xor_twice (shr33 x) x
