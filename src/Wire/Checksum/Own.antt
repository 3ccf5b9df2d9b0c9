-- ===== src/Wire/Checksum/Own.antt =====
-- The Internet checksum of bytes that hold their own checksum.
use internet.Prelude.{
  ℕ, zero, suc, ◌+◌, ◌*◌, ◌<◌, ◌≡◌, ap, ◌∙◌, false, ◌++◌, arith, length, All, Bytes, u16_mod,
  u32_mod,
}
use internet.Wire.Serializer.{big_endian}
use internet.Wire.Checksum
use internet.Wire.Checksum.{InternetChecksum, add, value}
use internet.Wire.Checksum.Fold.{value_complement}
use internet.Wire.Checksum.Sum.{
  parity_after, parity-add, add-append, sum-add, add-shift, add-word, plus,
}

pub big_endian-All : (n v : ℕ) → All (λ b. b < 256) (big_endian n v)
unfolding big_endian
big_endian-All zero v = tt
big_endian-All (suc n) v = (omega arith, big_endian-All n v)

-- Bytes with a 16-bit field among them.
abbrev pub with_field : Bytes → ℕ → Bytes → Bytes
with_field before v after = before ++ (big_endian 2 v ++ after)

-- The field, at an even place, adds its value to the sum.
add-with_field :
    (before after : Bytes) (v p : ℕ)
    → All (λ b. b < 256) before
    → All (λ b. b < 256) after
    → parity_after (length before) false ≡ false
    → v < u16_mod
    → p + 65280 * (length before + length after) + 0xffff < u32_mod
    → add (with_field before v after) (Checksum.init p)
      ≡ plus v (add after (add before (Checksum.init p)))
unfolding Checksum.init
add-with_field before after v p small small' even lt room =
    let c = add before (Checksum.init p) in
    let (upper, _) = sum-add before (Checksum.init p) small (omega arith) in
    add-append before (big_endian 2 v ++ after) (Checksum.init p)
    ∙ add-append (big_endian 2 v) after c
    ∙ ap (add after)
        (add-word v c lt (parity-add before (Checksum.init p) ∙ even) (omega (arith, upper)))
    ∙ add-shift after c v small' (omega (arith, upper))

pub value_width : (c : InternetChecksum) → value c < u16_mod
unfolding value
value_width c = omega arith

-- With the checksum of the bytes in the field that was 0, the checksum of the bytes is 0.
pub value-with_field :
    (before after : Bytes) (p : ℕ)
    → All (λ b. b < 256) before
    → All (λ b. b < 256) after
    → parity_after (length before) false ≡ false
    → p + 65280 * (length before + length after) + 0xffff < u32_mod
    → let own = value (add (with_field before 0 after) (Checksum.init p)) in
      value (add (with_field before own after) (Checksum.init p)) ≡ 0
unfolding Checksum.init
value-with_field before after p small small' even room =
    let c = add after (add before (Checksum.init p)) in
    let (upper, _) = sum-add before (Checksum.init p) small (omega arith) in
    let (upper', _) = sum-add after (add before (Checksum.init p)) small' (omega (arith, upper)) in
    let zero_field : value (add (with_field before 0 after) (Checksum.init p)) ≡ value c =
      ap value (add-with_field before after 0 p small small' even (omega arith) room)
      ∙ ap (λ n. value (record { sum = n; parity = c.parity })) {x = c.sum + 0} (omega arith) in
    let width : value c < u16_mod = value_width c in
    ap (λ v. value (add (with_field before v after) (Checksum.init p))) zero_field
    ∙ ap value (add-with_field before after (value c) p small small' even width room)
    ∙ value_complement c (omega (arith, upper, upper', width))
