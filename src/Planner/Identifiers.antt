-- ===== src/Planner/Identifiers.antt =====
-- master/src/chunk_planner.c: the identifiers that one workload gives its chunks are distinct.
use void_os_merger.Base.{
  ℕ, ◌<◌, ◌≡◌, sym, ap, ◌∙◌, arith, u64_mod, bit_xor, shr33, bit_xor_twice, bit_xor-lt,
  bit_xor-shr33_twice,
}
use void_os_merger.Planner.{generate_deterministic_chunk_id, mul64}

-- The two multipliers have inverses modulo 2 ^ 64.
first_unmul : (x : ℕ) → x < u64_mod → mul64 (mul64 x 0xff51afd7ed558ccd) 0x4f74430c22a54005 ≡ x
first_unmul x h = omega arith

second_unmul : (x : ℕ) → x < u64_mod → mul64 (mul64 x 0xc4ceb9fe1a85ec53) 0x9cb4b2f8129337db ≡ x
second_unmul x h = omega arith

shift_injective :
    (x y : ℕ) → x < u64_mod → y < u64_mod → bit_xor x (shr33 x) ≡ bit_xor y (shr33 y) → x ≡ y
shift_injective x y p q e =
    sym (bit_xor-shr33_twice x p) ∙ ap (λ z. bit_xor z (shr33 z)) e ∙ bit_xor-shr33_twice y q

shifted-lt : (x : ℕ) → x < u64_mod → bit_xor x (shr33 x) < u64_mod
shifted-lt x p = bit_xor-lt x (shr33 x) p (omega arith)

-- For one base hash, different indices have different identifiers.
pub generate_deterministic_chunk_id_injective :
    (base i j : ℕ)
    → base < u64_mod
    → i < u64_mod
    → j < u64_mod
    → generate_deterministic_chunk_id base i ≡ generate_deterministic_chunk_id base j
    → i ≡ j
unfolding generate_deterministic_chunk_id
generate_deterministic_chunk_id_injective base i j hb hi hj e =
    let ai = bit_xor base i in
    let aj = bit_xor base j in
    let ui = bit_xor ai (shr33 ai) in
    let uj = bit_xor aj (shr33 aj) in
    let bi = mul64 ui 0xff51afd7ed558ccd in
    let bj = mul64 uj 0xff51afd7ed558ccd in
    let vi = bit_xor bi (shr33 bi) in
    let vj = bit_xor bj (shr33 bj) in
    let ai_lt = bit_xor-lt base i hb hi in
    let aj_lt = bit_xor-lt base j hb hj in
    let bi_lt : bi < u64_mod = omega arith in
    let bj_lt : bj < u64_mod = omega arith in
    let third = shift_injective _ _ (omega arith) (omega arith) e in
    let second : vi ≡ vj =
      sym (second_unmul vi (shifted-lt bi bi_lt))
      ∙ ap (λ z. mul64 z 0x9cb4b2f8129337db) third
      ∙ second_unmul vj (shifted-lt bj bj_lt) in
    let middle = shift_injective bi bj bi_lt bj_lt second in
    let first : ui ≡ uj =
      sym (first_unmul ui (shifted-lt ai ai_lt))
      ∙ ap (λ z. mul64 z 0x4f74430c22a54005) middle
      ∙ first_unmul uj (shifted-lt aj aj_lt) in
    let start = shift_injective ai aj ai_lt aj_lt first in
    sym (bit_xor_twice base i) ∙ ap (bit_xor base) start ∙ bit_xor_twice base j
