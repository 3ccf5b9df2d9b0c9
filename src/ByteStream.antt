-- ===== src/ByteStream.antt =====
-- src/byte_stream.hh, src/byte_stream.cc and src/byte_stream_helpers.cc: a bounded byte queue with
-- a writing and a reading end. `Reader` and `Writer` add no data to `ByteStream`, so `reader()` and
-- `writer()` are the stream itself.
pub mod Invariant
pub mod Fifo
pub mod Read
use internet.Prelude.{
  ℕ, zero, suc, ◌+◌, Bool, true, false, ◌&&◌, not, [], ◌∷◌, ◌++◌, Bytes, length, take, drop, ltb,
  ◌==◌, if◌then◌else◌, add64, sub64, Exec, ok, fault, runtime_error, out_of_fuel,
}

pub record ByteStream : Type 0 where
  pub capacity : ℕ
  pub has_error : Bool
  pub total_pushed : ℕ
  pub buffer : Bytes
  pub stream_closed : Bool
  pub total_popped : ℕ

unfoldable pub init : ℕ → ByteStream
init capacity = record {
  capacity = capacity;
  has_error = false;
  total_pushed = 0;
  buffer = [];
  stream_closed = false;
  total_popped = 0;
}

unfoldable pub set_error : ByteStream → ByteStream
set_error s = record s { has_error = true }

unfoldable pub push_byte : ℕ → ByteStream → ByteStream
push_byte b s = record s { buffer = s.buffer ++ b ∷ []; total_pushed = add64 s.total_pushed 1 }

-- The loop takes the bytes of `data` from the front while there is room.
unfoldable pub push : Bytes → ByteStream → ByteStream
unfolding push_byte
push [] s = s
push (b ∷ rest) s = if ltb (length s.buffer) s.capacity then push rest (push_byte b s) else s

unfoldable pub close : ByteStream → ByteStream
close s = record s { stream_closed = true }

unfoldable pub is_closed : ByteStream → Bool
is_closed s = s.stream_closed

unfoldable pub available_capacity : ByteStream → ℕ
available_capacity s = sub64 s.capacity (length s.buffer)

unfoldable pub bytes_pushed : ByteStream → ℕ
bytes_pushed s = s.total_pushed

unfoldable pub peek : ByteStream → Bytes
peek s = s.buffer

-- `std::string::erase` stops at the end of the string, the counter does not: a caller asks for no
-- more than what is held.
unfoldable pub pop : ℕ → ByteStream → ByteStream
pop len s = record s { buffer = drop len s.buffer; total_popped = add64 s.total_popped len }

unfoldable pub is_finished : ByteStream → Bool
is_finished s = s.stream_closed && (s.total_pushed == s.total_popped)

unfoldable pub bytes_buffered : ByteStream → ℕ
bytes_buffered s = sub64 s.total_pushed s.total_popped

unfoldable pub bytes_popped : ByteStream → ℕ
bytes_popped s = s.total_popped

-- `string::empty()`.
abbrev pub is_empty : Bytes → Bool
is_empty [] = true
is_empty (b ∷ bs) = false

-- The loop of `read`, on fuel: `peek` shows all that is buffered, so one round reads it and a
-- second one stops.
unfoldable pub read_loop : ℕ → ByteStream → ℕ → Bytes → Exec (Bytes × ByteStream)
unfolding bytes_buffered peek pop
read_loop zero s max_len out = fault out_of_fuel
read_loop (suc fuel) s max_len out =
    let view = take (sub64 max_len (length out)) (peek s) in
    let next = read_loop fuel (pop (length view) s) max_len (out ++ view) in
    if not (bytes_buffered s == 0) && ltb (length out) max_len
    then (if is_empty (peek s) then fault runtime_error else next)
    else ok (out, s)

unfoldable pub read : ByteStream → ℕ → Exec (Bytes × ByteStream)
unfolding read_loop
read s max_len = read_loop 2 s max_len []
