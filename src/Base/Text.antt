-- ===== src/Base/Text.antt =====
-- C strings: the bytes before the terminator.
use Prim.Native.Nat.{ℕ, zero, suc, ◌+◌, ◌-◌, ◌*◌, ◌/◌, ◌%◌}
use mathlib.Core.Path.{◌≡◌, refl}
use mathlib.Core.Logic.{◌↔◌}
use mathlib.Core.Bool.{Bool, true, false, ◌&&◌, ◌||◌}
use mathlib.Core.List.{List, [], ◌∷◌}
use native.Mathlib.Omega.{arith}
use void_os_merger.Base.Tests.{◌==◌, ltb, leb, if◌then◌else◌}
use void_os_merger.Base.Lists.{take}
use void_os_merger.Base.Words.{u64_mod, u32_mod}

abbrev pub Bytes : Type 0
Bytes = List ℕ

-- `strcmp(a, b) == 0`.
unfoldable pub str_eq : Bytes → Bytes → Bool
str_eq [] [] = true
str_eq (x ∷ xs) (y ∷ ys) = (x == y) && str_eq xs ys
str_eq _ _ = false

-- `strncpy(dst, s, size - 1)` into a zeroed buffer of `size` bytes.
abbrev pub strncpy : ℕ → Bytes → Bytes
strncpy size s = take (size - 1) s

-- `%016llx`, most significant digit first.
unfoldable pub hex_digit : ℕ → ℕ
hex_digit d = if ltb d 10 then 48 + d else 87 + d

unfoldable pub hex : ℕ → ℕ → Bytes → Bytes
hex zero h tail = tail
hex (suc n) h tail = hex n (h / 16) (hex_digit (h % 16) ∷ tail)

-- `isspace` in the C locale.
unfoldable pub is_space : ℕ → Bool
is_space b = (b == 32) || (leb 9 b && leb b 13)

unfoldable pub skip_space : Bytes → Bytes
skip_space [] = []
skip_space (b ∷ bs) = let rest = skip_space bs in if is_space b then rest else b ∷ bs

-- The value of the decimal digits at the start.
unfoldable pub digits : ℕ → Bytes → ℕ
digits value [] = value
digits value (b ∷ bs) =
    let rest = digits (value * 10 + (b - 48)) bs in if leb 48 b && leb b 57 then rest else value

unfoldable pub signed_digits : Bytes → Bool × ℕ
signed_digits [] = (false, 0)
signed_digits (b ∷ bs) =
    if b == 45
    then (true, digits 0 bs)
    else if b == 43
    then (false, digits 0 bs)
    else (false, digits 0 (b ∷ bs))

-- `strtoul(s, NULL, 10)` with a `long` of 64 bits: the largest number where the value does not fit.
unfoldable pub strtoul : Bytes → ℕ
strtoul s =
    let (negative, value) = signed_digits (skip_space s) in
    if leb u64_mod value
    then u64_mod - 1
    else if negative
    then (u64_mod - value) % u64_mod
    else value

-- The bytes before the terminator.
unfoldable pub c_string : Bytes → Bytes
c_string [] = []
c_string (b ∷ bs) = let rest = c_string bs in if b == 0 then [] else b ∷ rest

-- `(uint32_t)atoi(s)`: the value of a number that an `int` holds; others are undefined, and stand as
-- their value with its wrap.
unfoldable pub atoi32 : Bytes → ℕ
atoi32 s =
    let (negative, value) = signed_digits (skip_space s) in
    if negative then (u32_mod - value % u32_mod) % u32_mod else value % u32_mod

pub str_eq_iff : (a b : Bytes) → (str_eq a b ≡ true) ↔ (a ≡ b)
unfolding str_eq
str_eq_iff [] [] = ground arith
str_eq_iff (x ∷ xs) (y ∷ ys) = ground (arith, str_eq_iff xs ys)
str_eq_iff [] (y ∷ ys) = ground arith
str_eq_iff (x ∷ xs) [] = ground arith

pub str_eq_self : (a : Bytes) → str_eq a a ≡ true
str_eq_self a = (str_eq_iff a a).1 refl
