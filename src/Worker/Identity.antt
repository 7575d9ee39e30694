-- ===== src/Worker/Identity.antt =====
-- worker/src/main.c: the name that a worker takes from its hardware.
-- What the file of the network address holds is a parameter, and so are the process and the time.
use void_os_merger.Base.{
  ℕ, zero, suc, ◌+◌, ◌/◌, ◌%◌, ◌≤◌, ◌<◌, ◌≡◌, refl, ap, ◌∙◌, none, some, Option, [], ◌∷◌, ◌++◌,
  arith, ltb, if◌then◌else◌, get_elem?, take, drop, Bytes, c_string, atoi32, signed_digits, digits,
  skip_space, is_space,
}

-- "worker-".
abbrev pub worker_prefix : Bytes
worker_prefix = 119 ∷ 111 ∷ 114 ∷ 107 ∷ 101 ∷ 114 ∷ 45 ∷ []

-- `%lld` of a number of at most so many digits, before what follows it.
unfoldable pub decimal : ℕ → ℕ → Bytes → Bytes
decimal zero n tail = tail
decimal (suc k) n tail =
    let rest = decimal k (n / 10) ((48 + n % 10) ∷ tail) in
    if ltb n 10 then (48 + n) ∷ tail else rest

-- The first word of the file, if there is one. A buffer of 64 bytes takes what is printed.
unfoldable pub generate_worker_id : Option Bytes → ℕ → ℕ → Bytes
generate_worker_id none pid time =
    take 63 (worker_prefix ++ decimal 20 pid (45 ∷ decimal 20 time []))
generate_worker_id (some word) pid time =
    take 63 (worker_prefix ++ c_string (drop 9 (take 17 word)))

-- An address whose tenth character is a letter, as of aa:bb:cc:dd:ee:ff.
pub record IsLettered (word : Bytes) : Type 0 where
  pub letter : ℕ
  pub tenth : get_elem? word 9 ≡ some letter
  pub from_a : 97 ≤ letter
  pub to_f : letter ≤ 102

drop-get_elem? :
    (i : ℕ) (s : Bytes) (b : ℕ) → get_elem? s i ≡ some b → drop i s ≡ b ∷ drop (suc i) s
drop-get_elem? i [] b h = ground (arith, h)
drop-get_elem? zero (x ∷ xs) b h = ground (arith, h)
drop-get_elem? (suc i) (x ∷ xs) b h = drop-get_elem? i xs b h

get_elem?-take : (n i : ℕ) (s : Bytes) → i < n → get_elem? (take n s) i ≡ get_elem? s i
get_elem?-take zero i s h = ground (arith, h)
get_elem?-take (suc n) i [] h = refl
get_elem?-take (suc n) zero (x ∷ xs) h = refl
get_elem?-take (suc n) (suc i) (x ∷ xs) h = get_elem?-take n i xs (omega (arith, h))

pub generate_worker_id_lettered :
    (word : Bytes) (pid time : ℕ) (v : IsLettered word)
    → generate_worker_id (some word) pid time
      ≡ worker_prefix ++ take 56 (c_string (v.letter ∷ drop 10 (take 17 word)))
unfolding generate_worker_id
generate_worker_id_lettered word pid time v =
    ap (λ s. worker_prefix ++ take 56 (c_string s))
      (drop-get_elem? 9 (take 17 word) v.letter (get_elem?-take 17 9 word (omega arith) ∙ v.tenth))

pub atoi32_letter :
    (b : ℕ) (s tail : Bytes)
    → 97 ≤ b
    → b ≤ 102
    → atoi32 (c_string (take 56 (c_string (b ∷ s)) ++ tail)) ≡ 0
unfolding atoi32 signed_digits digits skip_space is_space c_string
atoi32_letter b s tail low high = ground (arith, low, high)
