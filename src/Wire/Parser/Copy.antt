-- ===== src/Wire/Parser/Copy.antt =====
-- The loop of `string` on an empty buffer.
use internet.Prelude.{ℕ, zero, suc, ◌-◌, ◌≡◌, refl, List, [], ◌∷◌, arith, Bytes, fault, out_of_fuel}
use internet.Wire.Parser.{copy_from, peek, peek_at, substr, remove_prefix, remove_from}

-- When bytes are wanted and the first buffer is empty, no number of rounds is enough: each copies
-- nothing and leaves the buffer where it is.
copy_from_stuck :
    (fuel want size : ℕ) (buffers : List Bytes)
    → copy_from fuel (suc want) (record { size = size; buffer = [] ∷ buffers; skip = 0 })
      ≡ fault out_of_fuel
unfolding copy_from peek peek_at substr remove_prefix remove_from
copy_from_stuck zero want size buffers = refl
copy_from_stuck (suc fuel) want size buffers =
    let same : suc want - 0 ≡ suc want = omega arith in
    rw same (rw (copy_from_stuck fuel want size buffers) refl)
