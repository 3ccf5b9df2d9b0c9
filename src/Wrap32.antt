-- ===== src/Wrap32.antt =====
-- src/wrapping_integers.hh and src/wrapping_integers.cc: 32-bit sequence numbers that wrap, counted
-- from an arbitrary zero point.
pub mod Unwrap
use internet.Prelude.{
  ℕ, ◌*◌, ◌/◌, ◌%◌, Bool, ◌&&◌, ltb, leb, ◌==◌, if◌then◌else◌, u32_mod, add64, sub64, add32, sub32,
}

pub record Wrap32 : Type 0 where
  pub raw_value : ℕ

-- `operator+` with a uint32_t.
unfoldable pub add : Wrap32 → ℕ → Wrap32
add w n = record { raw_value = add32 w.raw_value n }

-- `operator==`.
unfoldable pub equals : Wrap32 → Wrap32 → Bool
equals a b = a.raw_value == b.raw_value

unfoldable pub wrap : ℕ → Wrap32 → Wrap32
unfolding add
wrap n zero_point = add zero_point (n % u32_mod)

-- `a > b ? a - b : b - a`.
abbrev pub distance : ℕ → ℕ → ℕ
distance a b = if ltb b a then sub64 a b else sub64 b a

unfoldable pub unwrap : Wrap32 → Wrap32 → ℕ → ℕ
unwrap w zero_point checkpoint =
    let remainder = sub32 w.raw_value zero_point.raw_value in
    let med = add64 (checkpoint / u32_mod * u32_mod) remainder in
    let low = sub64 med u32_mod in
    let high = add64 med u32_mod in
    let diffmed = distance med checkpoint in
    let difflow = distance low checkpoint in
    let diffhigh = distance high checkpoint in
    let unwrapped = if ltb diffhigh diffmed then high else med in
    if leb u32_mod med && ltb difflow diffmed && ltb difflow diffhigh then low else unwrapped
