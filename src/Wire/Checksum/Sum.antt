-- ===== src/Wire/Checksum/Sum.antt =====
-- The Internet checksum: how the sum grows with the bytes that are added.
use internet.Prelude.{
  ℕ, zero, suc, ◌+◌, ◌*◌, ◌/◌, ◌%◌, ◌≤◌, ◌<◌, ◌≡◌, refl, sym, ap, ◌∙◌, Bool, false, not, List, [],
  ◌∷◌, ◌++◌, arith, if_elim, length, All, Bytes, u16_mod, u32_mod, add32,
}
use internet.Wire.Parser.{flatten}
use internet.Wire.Serializer.{big_endian}
use internet.Wire.Checksum.{InternetChecksum, add, add_all}

-- The parity after so many bytes.
abbrev pub parity_after : ℕ → Bool → Bool
parity_after zero p = p
parity_after (suc n) p = parity_after n (not p)

pub parity-add :
    (bs : Bytes) (c : InternetChecksum) → (add bs c).parity ≡ parity_after (length bs) c.parity
unfolding add
parity-add [] c = refl
parity-add (b ∷ bs) c = parity-add bs _

pub add-append : (xs ys : Bytes) (c : InternetChecksum) → add (xs ++ ys) c ≡ add ys (add xs c)
unfolding add
add-append [] ys c = refl
add-append (x ∷ xs) ys c = add-append xs ys _

pub add_all-flatten : (bs : List Bytes) (c : InternetChecksum) → add_all bs c ≡ add (flatten bs) c
unfolding add add_all
add_all-flatten [] c = refl
add_all-flatten (b ∷ bs) c = add_all-flatten bs (add b c) ∙ sym (add-append b (flatten bs) c)

-- A sum far enough from 2^32 only grows, by at most 255 * 256 for each byte.
abbrev pub Room : Bytes → ℕ → Type 0
Room bs sum = sum + 65280 * length bs < u32_mod

-- One more byte, which adds `d`.
abbrev with_byte : ℕ → InternetChecksum → InternetChecksum
with_byte d c = record { sum = add32 c.sum d; parity = not c.parity }

abbrev Grows : Bytes → InternetChecksum → Type 0
Grows bs c = ((add bs c).sum ≤ c.sum + 65280 * length bs) × (c.sum ≤ (add bs c).sum)

grow-byte :
    (n d : ℕ) (bs : Bytes) (c : InternetChecksum)
    → n ≡ length bs
    → d ≤ 65280
    → c.sum + 65280 * suc n < u32_mod
    → (Room bs (add32 c.sum d) → Grows bs (with_byte d c))
    → ((add bs (with_byte d c)).sum ≤ c.sum + 65280 * suc n)
      × (c.sum ≤ (add bs (with_byte d c)).sum)
grow-byte n d bs c e le room ih =
    let (upper, lower) = ih (omega arith) in (omega (arith, upper), omega (arith, lower))

pub sum-add :
    (bs : Bytes) (c : InternetChecksum) → All (λ b. b < 256) bs → Room bs c.sum → Grows bs c
unfolding add
sum-add [] c small room = (omega arith, omega arith)
sum-add (b ∷ bs) c (lt, small) room =
    if_elim
      (λ d.
        ((add bs (with_byte d c)).sum ≤ c.sum + 65280 * suc (length bs))
        × (c.sum ≤ (add bs (with_byte d c)).sum))
      c.parity b (b * 256 % u16_mod)
      (λ _.
        grow-byte (length bs) b bs c refl (omega arith) room
          λ r. sum-add bs (with_byte b c) small r)
      λ _.
        grow-byte (length bs) (b * 256 % u16_mod) bs c refl (omega arith) room
          λ r. sum-add bs (with_byte (b * 256 % u16_mod) c) small r

-- The checksum with `v` more in the sum.
abbrev pub plus : ℕ → InternetChecksum → InternetChecksum
plus v c = record { sum = c.sum + v; parity = c.parity }

shift-byte :
    (n d v : ℕ) (bs : Bytes) (c : InternetChecksum)
    → n ≡ length bs
    → d ≤ 65280
    → c.sum + v + 65280 * suc n < u32_mod
    → (Room bs (add32 c.sum d + v)
        → add bs (plus v (with_byte d c)) ≡ plus v (add bs (with_byte d c)))
    → add bs (with_byte d (plus v c)) ≡ plus v (add bs (with_byte d c))
shift-byte n d v bs c e le room ih =
    ap (λ s. add bs (record { sum = s; parity = not c.parity })) {x = add32 (c.sum + v) d}
      {y = add32 c.sum d + v} (omega arith)
    ∙ ih (omega arith)

-- What is added to the sum first is added to the result.
pub add-shift :
    (bs : Bytes) (c : InternetChecksum) (v : ℕ)
    → All (λ b. b < 256) bs
    → Room bs (c.sum + v)
    → add bs (plus v c) ≡ plus v (add bs c)
unfolding add
add-shift [] c v small room = refl
add-shift (b ∷ bs) c v (lt, small) room =
    if_elim (λ d. add bs (with_byte d (plus v c)) ≡ plus v (add bs (with_byte d c))) c.parity b
      (b * 256 % u16_mod)
      (λ _.
        shift-byte (length bs) b v bs c refl (omega arith) room
          λ r. add-shift bs (with_byte b c) v small r)
      λ _.
        shift-byte (length bs) (b * 256 % u16_mod) v bs c refl (omega arith) room
          λ r. add-shift bs (with_byte (b * 256 % u16_mod) c) v small r

-- A 16-bit field at an even place adds its value.
pub add-word :
    (v : ℕ) (c : InternetChecksum)
    → v < u16_mod
    → c.parity ≡ false
    → c.sum + v < u32_mod
    → add (big_endian 2 v) c ≡ plus v c
unfolding add big_endian
add-word v c lt even room =
    let total : add32 (add32 c.sum (v / 256 % 256 * 256 % u16_mod)) (v / 1 % 256) ≡ c.sum + v =
      omega arith in
    rw even (ap (λ s. record { sum = s; parity = false }) total)
