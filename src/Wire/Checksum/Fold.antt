-- ===== src/Wire/Checksum/Fold.antt =====
-- The Internet checksum: the loop that folds the sum, and the sum with its own checksum.
use internet.Prelude.{
  ℕ, ◌+◌, ◌*◌, ◌/◌, ◌%◌, ◌<◌, ◌≡◌, arith, ltb, if◌then◌else◌, u16_mod, u32_mod, add32,
}
use internet.Wire.Checksum.{InternetChecksum, fold, value}

-- Two rounds of the loop are enough for a 32-bit sum: the result has 16 bits, it is 0 only for the
-- sum 0, and it is the sum modulo 2^16 - 1.
pub fold_small : (ret : ℕ) → ret < u32_mod → fold 2 ret < u16_mod
unfolding fold
fold_small ret lt = ground arith

pub fold_mod : (ret : ℕ) → ret < u32_mod → (k : ℕ) × (ret ≡ fold 2 ret + 0xffff * k)
unfolding fold
fold_mod ret lt =
    let next = add32 (ret / u16_mod) (ret % u16_mod) in
    (
      if ltb 0xffff ret then ret / u16_mod + (if ltb 0xffff next then next / u16_mod else 0) else 0,
      ground arith,
    )

pub fold_positive : (ret : ℕ) → ret < u32_mod → 0 < ret → 0 < fold 2 ret
unfolding fold
fold_positive ret lt e = ground arith

-- A sum to which its own checksum is added, within 32 bits, has the checksum 0.
pub value_complement :
    (c : InternetChecksum)
    → c.sum + value c < u32_mod
    → value (record c { sum = c.sum + value c }) ≡ 0
unfolding value
value_complement c lt =
    let small : c.sum < u32_mod = omega (arith, lt) in
    let (k, e) = fold_mod c.sum small in
    let (k', e') = fold_mod (c.sum + value c) lt in
    let positive : 0 < c.sum + value c = omega (arith, e, fold_small c.sum small) in
    omega (
      arith,
      e,
      e',
      fold_small c.sum small,
      fold_small (c.sum + value c) lt,
      fold_positive (c.sum + value c) lt positive,
    )
