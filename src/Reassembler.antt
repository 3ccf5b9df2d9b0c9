-- ===== src/Reassembler.antt =====
-- src/reassembler.hh and src/reassembler.cc: indexed substrings, in any order and overlapping, are
-- put together into the stream `output`.
pub mod Slices
pub mod Stream
pub mod Insert
pub mod Delivery
pub mod Bounds
pub mod Complete
use internet.Prelude.{
  ℕ, zero, suc, ◌-◌, Bool, none, some, [], ◌∷◌, ltb, leb, ◌==◌, if◌then◌else◌, length, Bytes,
  u64_mod, add64, sub64,
}
use internet.Map.{Map, lookup, insert as map_insert, erase}
use internet.ByteStream.{ByteStream, push, close, bytes_pushed, available_capacity}

pub record Reassembler : Type 0 where
  pub output : ByteStream
  pub unassembled : Map ℕ
  pub end_of_stream : ℕ

-- `end_of_stream` is -1 at first.
unfoldable pub init : ByteStream → Reassembler
init output = record { output = output; unassembled = []; end_of_stream = u64_mod - 1 }

-- SECTION 1 of `insert`: the bytes of the data, the first at index `i`, are stored from
-- `index_needed` on, and the loop ends at `first_unacceptable_index`.
unfoldable pub store : ℕ → ℕ → ℕ → Bytes → Map ℕ → Map ℕ
store index_needed first_unacceptable_index i [] m = m
store index_needed first_unacceptable_index i (c ∷ rest) m =
    if leb first_unacceptable_index i
    then m
    else store index_needed first_unacceptable_index (add64 i 1) rest
        (if ltb i index_needed then m else map_insert i c m)

-- SECTION 2: bytes that are next in line are pushed. Each round takes an entry out of the table, so
-- `suc (length m)` rounds are enough (`Stream.assemble_stops`).
unfoldable pub assemble : ℕ → ℕ → ByteStream → Map ℕ → ℕ × ByteStream × Map ℕ
assemble zero index_needed output m = (index_needed, output, m)
assemble (suc fuel) index_needed output m = elim (lookup index_needed m) [
  | none ↦ (index_needed, output, m)
  | some c ↦ assemble fuel (add64 index_needed 1) (push (c ∷ []) output) (erase index_needed m)
]

-- What follows the first section.
unfoldable pub flush : ℕ → ByteStream → Map ℕ → ℕ → Reassembler
unfolding assemble
flush index_needed output m end_of_stream =
    let (needed, output', m') = assemble (suc (length m)) index_needed output m in
    record {
      output = if needed == end_of_stream then close output' else output';
      unassembled = m';
      end_of_stream = end_of_stream;
    }

unfoldable pub insert : ℕ → Bytes → Bool → Reassembler → Reassembler
unfolding flush store bytes_pushed available_capacity
insert first_index bytes is_last_substring r =
    let last_index_stored = sub64 (add64 first_index (length bytes)) 1 in
    let index_needed = bytes_pushed r.output in
    let end_of_stream = if is_last_substring then add64 last_index_stored 1 else r.end_of_stream in
    let first_unacceptable_index = add64 index_needed (available_capacity r.output) in
    flush index_needed r.output
      (store index_needed first_unacceptable_index first_index bytes r.unassembled) end_of_stream

unfoldable pub count_bytes_pending : Reassembler → ℕ
count_bytes_pending r = length r.unassembled
