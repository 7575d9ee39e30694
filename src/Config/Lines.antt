-- ===== src/Config/Lines.antt =====
-- common/src/config.c: what the reader makes of the text of a line.
use void_os_merger.Base.{
  is_space, skip_space, c_string, ℕ, suc, ◌-◌, ◌<◌, ◌≡◌, refl, ap, Bool, true, false, none, some,
  [], ◌∷◌, ◌++◌, arith, ltb, leb, ◌==◌, take, drop, length, Bytes, Bool-cases, Option-cases, inl,
  inr,
}
use void_os_merger.Config.{
  trim_end, trim_whitespace, strchr, strip_comment, fgets_lines, hash_sign, semicolon, max_line_len,
}

-- A byte that does not occur.
abbrev pub IsWithout : ℕ → Bytes → Type 0
IsWithout c s = strchr c s ≡ none

IsWithout-cons : (c b : ℕ) (s : Bytes) → IsWithout c (b ∷ s) → ((b == c) ≡ false) × IsWithout c s
unfolding strchr
IsWithout-cons c b s h = (ground arith, ground arith)

pub strchr-append : (c : ℕ) (s t : Bytes) → IsWithout c s → IsWithout c t → IsWithout c (s ++ t)
unfolding strchr
strchr-append c [] t h k = k
strchr-append c (b ∷ s) t h k =
    let (e, r) = IsWithout-cons c b s h in rw (e, strchr-append c s t r k) refl

-- The first c after a text without it.
pub strchr_after : (c : ℕ) (s t : Bytes) → IsWithout c s → strchr c (s ++ c ∷ t) ≡ some (length s)
unfolding strchr
strchr_after c [] t h = ground arith
strchr_after c (b ∷ s) t h =
    let (e, r) = IsWithout-cons c b s h in rw (e, strchr_after c s t r) refl

pub take-length : (s t : Bytes) → take (length s) (s ++ t) ≡ s
take-length [] t = refl
take-length (b ∷ s) t = ap (λ r. b ∷ r) (take-length s t)

pub drop-length : (s t : Bytes) (c : ℕ) → drop (suc (length s)) (s ++ c ∷ t) ≡ t
drop-length [] t c = refl
drop-length (b ∷ s) t c = drop-length s t c

pub c_string_self : (s : Bytes) → IsWithout 0 s → c_string s ≡ s
unfolding c_string strchr
c_string_self [] h = refl
c_string_self (b ∷ s) h = let (e, r) = IsWithout-cons 0 b s h in rw (e, c_string_self s r) refl

pub strip_comment_self :
    (s : Bytes) → IsWithout hash_sign s → IsWithout semicolon s → strip_comment s ≡ s
unfolding strip_comment
strip_comment_self s h k = ground arith

-- A comment from the first byte on leaves nothing.
pub strip_comment_hash : (s : Bytes) → strip_comment (hash_sign ∷ s) ≡ []
unfolding strip_comment strchr
strip_comment_hash s = elim (Option-cases (strchr semicolon s)) [
  | inl e ↦ rw e refl
  | inr (i, e) ↦ let first : ltb 0 (suc i) ≡ true = ground arith in rw (e, first) refl
]

-- Whether a text starts, and ends, with a space.
unfoldable pub starts_with_space : Bytes → Bool
starts_with_space [] = false
starts_with_space (b ∷ bs) = is_space b

unfoldable pub ends_with_space : Bytes → Bool
ends_with_space [] = false
ends_with_space (b ∷ []) = is_space b
ends_with_space (b ∷ c ∷ s) = ends_with_space (c ∷ s)

trim_end_self : (s : Bytes) → ends_with_space s ≡ false → trim_end s ≡ s
unfolding trim_end ends_with_space
trim_end_self [] h = refl
trim_end_self (b ∷ []) h = rw h refl
trim_end_self (b ∷ c ∷ s) h = rw (trim_end_self (c ∷ s) h) refl

skip_space_self : (s : Bytes) → starts_with_space s ≡ false → skip_space s ≡ s
unfolding skip_space starts_with_space
skip_space_self [] h = refl
skip_space_self (b ∷ s) h = rw h refl

pub trim_whitespace_self :
    (s : Bytes) → starts_with_space s ≡ false → ends_with_space s ≡ false → trim_whitespace s ≡ s
unfolding trim_whitespace
trim_whitespace_self s h k = rw (skip_space_self s h) (trim_end_self s k)

trim_end_newline : (s : Bytes) → trim_end (s ++ 10 ∷ []) ≡ trim_end s
unfolding trim_end is_space
trim_end_newline [] = refl
trim_end_newline (b ∷ s) = rw (trim_end_newline s) refl

pub trim_whitespace_newline : (s : Bytes) → trim_whitespace (s ++ 10 ∷ []) ≡ trim_whitespace s
unfolding trim_whitespace skip_space is_space
trim_whitespace_newline [] = refl
trim_whitespace_newline (b ∷ s) = elim (Bool-cases (is_space b)) [
  | inl e ↦ rw e (trim_whitespace_newline s)
  | inr e ↦ rw e (trim_end_newline (b ∷ s))
]

pub ends_with_space-append :
    (s t : Bytes) (b : ℕ)
    → is_space b ≡ false
    → ends_with_space t ≡ false
    → ends_with_space (s ++ b ∷ t) ≡ false
unfolding ends_with_space
ends_with_space-append [] [] b h k = h
ends_with_space-append [] (c ∷ t) b h k = k
ends_with_space-append (a ∷ []) t b h k = ends_with_space-append [] t b h k
ends_with_space-append (a ∷ c ∷ s) t b h k = ends_with_space-append (c ∷ s) t b h k

-- A line without a newline that fits is read whole.
pub fgets_lines_line :
    (room : ℕ) (s rest : Bytes)
    → IsWithout 10 s
    → length s < room
    → fgets_lines room (s ++ 10 ∷ rest) ≡ (s ++ 10 ∷ []) ∷ fgets_lines (max_line_len - 1) rest
unfolding fgets_lines strchr
fgets_lines_line room [] rest h k = ground arith
fgets_lines_line room (b ∷ s) rest h k =
    let (e, r) = IsWithout-cons 10 b s h in
    let more : leb room 1 ≡ false = ground arith in
    rw (e, more, fgets_lines_line (room - 1) s rest r (omega arith)) refl
