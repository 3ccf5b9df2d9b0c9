-- ===== src/Wire/Checksum.antt =====
-- util/checksum.hh: the Internet checksum.
pub mod Fold
pub mod Sum
pub mod Own
use internet.Prelude.{
  ℕ, zero, suc, ◌-◌, ◌*◌, ◌/◌, ◌%◌, Bool, false, not, List, [], ◌∷◌, ltb, if◌then◌else◌, Bytes,
  u16_mod, add32,
}

pub record InternetChecksum : Type 0 where
  pub sum : ℕ
  pub parity : Bool

unfoldable pub init : ℕ → InternetChecksum
init sum = record { sum = sum; parity = false }

unfoldable pub add : Bytes → InternetChecksum → InternetChecksum
add [] c = c
add (b ∷ bs) c = add bs (record {
  sum = add32 c.sum (if c.parity then b else b * 256 % u16_mod);
  parity = not c.parity;
})

unfoldable pub add_all : List Bytes → InternetChecksum → InternetChecksum
unfolding add
add_all [] c = c
add_all (b ∷ bs) c = add_all bs (add b c)

-- The loop of `value`. After one round a 32-bit sum is below 2^17, after two below 2^16.
unfoldable pub fold : ℕ → ℕ → ℕ
fold zero ret = ret
fold (suc fuel) ret =
    let next = fold fuel (add32 (ret / u16_mod) (ret % u16_mod)) in
    if ltb 0xffff ret then next else ret

-- The lower half of `~ret`.
unfoldable pub value : InternetChecksum → ℕ
unfolding fold
value c = u16_mod - 1 - fold 2 c.sum % u16_mod
