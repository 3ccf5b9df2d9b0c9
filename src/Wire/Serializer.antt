-- ===== src/Wire/Serializer.antt =====
-- The Serializer of util/parser.hh and util/parser.cc, and `serialize` of util/helpers.hh.
pub mod Layout
use internet.Prelude.{ℕ, zero, suc, ◌/◌, ◌%◌, ◌^◌, List, [], ◌∷◌, ◌++◌, Bytes}

pub record Serializer : Type 0 where
  pub output : List Bytes
  pub buffer : Bytes

abbrev pub empty : Serializer
empty = record { output = []; buffer = [] }

-- The `n` bytes of a number, the most significant first: `val >> ( ( len - i - 1 ) * 8 )`.
unfoldable pub big_endian : ℕ → ℕ → Bytes
big_endian zero v = []
big_endian (suc n) v = (v / 256 ^ n % 256) ∷ big_endian n v

unfoldable pub integer : ℕ → ℕ → Serializer → Serializer
unfolding big_endian
integer n v s = record s { buffer = s.buffer ++ big_endian n v }

-- `for ( const auto& b : bytes ) serializer.integer( b )`.
unfoldable pub bytes : Bytes → Serializer → Serializer
unfolding integer
bytes [] s = s
bytes (b ∷ bs) s = bytes bs (integer 1 b s)

-- `flush` with what is in the buffer.
unfoldable pub flushed : List Bytes → Bytes → List Bytes
flushed output [] = output
flushed output (b ∷ bs) = output ++ (b ∷ bs) ∷ []

unfoldable pub flush : Serializer → Serializer
unfolding flushed
flush s = record { output = flushed s.output s.buffer; buffer = [] }

unfoldable pub append_buffer : Bytes → Serializer → Serializer
unfolding flush
append_buffer [] s = s
append_buffer (b ∷ bs) s = record (flush s) { output = (flush s).output ++ (b ∷ bs) ∷ [] }

unfoldable pub append_buffers : List Bytes → Serializer → Serializer
unfolding append_buffer
append_buffers [] s = s
append_buffers (b ∷ bs) s = append_buffers bs (append_buffer b s)

unfoldable pub finish : Serializer → List Bytes
unfolding flush
finish s = (flush s).output
