-- ===== src/Wire/Ipv4.antt =====
-- util/ipv4_header.hh, util/ipv4_header.cc and util/ipv4_datagram.hh. Fields are taken out of words
-- by division and remainder, and put together by sums of disjoint bits.
pub mod Total
pub mod RoundTrip
use internet.Prelude.{
  ℕ, ◌+◌, ◌-◌, ◌*◌, ◌/◌, ◌%◌, Bool, true, false, ◌||◌, not, Option, none, some, List, [], ltb, ◌==◌,
  if◌then◌else◌, Bytes, u16_mod, sub64, add32, Exec, ok, fault, runtime_error, ◌>>=◌, ◌>>◌,
}
use internet.Wire.Parser
use internet.Wire.Parser.{Parser, set_error, skip_bytes, truncate_input, all_remaining, of_input}
use internet.Wire.Serializer
use internet.Wire.Serializer.{Serializer, finish, append_buffers}
use internet.Wire.Checksum
use internet.Wire.Checksum.{add_all, value}

pub record Ipv4Header : Type 0 where
  pub ver : ℕ
  pub hlen : ℕ
  pub tos : ℕ
  pub len : ℕ
  pub id : ℕ
  pub df : Bool
  pub mf : Bool
  pub offset : ℕ
  pub ttl : ℕ
  pub proto : ℕ
  pub cksum : ℕ
  pub src : ℕ
  pub dst : ℕ

abbrev pub header_length : ℕ
header_length = 20

abbrev pub proto_tcp : ℕ
proto_tcp = 6

-- The member initialisers.
abbrev pub default_header : Ipv4Header
default_header = record {
  ver = 4;
  hlen = 5;
  tos = 0;
  len = 0;
  id = 0;
  df = true;
  mf = false;
  offset = 0;
  ttl = 128;
  proto = proto_tcp;
  cksum = 0;
  src = 0;
  dst = 0;
}

-- `x & k` as a condition, for `k` a power of 2.
abbrev pub test_bit : ℕ → ℕ → Bool
test_bit k x = x / k % 2 == 1

unfoldable pub first_byte : Ipv4Header → ℕ
first_byte h = h.ver * 16 % 256 + h.hlen % 16

unfoldable pub fragment_word : Ipv4Header → ℕ
fragment_word h = (if h.df then 0x4000 else 0) + (if h.mf then 0x2000 else 0) + h.offset % 0x2000

unfoldable pub write_fields : Ipv4Header → Serializer → Serializer
unfolding Serializer.integer first_byte fragment_word
write_fields h s = Serializer.integer 4 h.dst (
    Serializer.integer 4 h.src (
      Serializer.integer 2 h.cksum (
        Serializer.integer 1 h.proto (
          Serializer.integer 1 h.ttl (
            Serializer.integer 2 (fragment_word h) (
              Serializer.integer 2 h.id (
                Serializer.integer 2 h.len
                  (Serializer.integer 1 h.tos (Serializer.integer 1 (first_byte h) s)))))))))

unfoldable pub serialize_header : Ipv4Header → Serializer → Exec Serializer
unfolding write_fields
serialize_header h s = if h.ver == 4 then ok (write_fields h s) else fault runtime_error

-- `len - ( 4 * hlen )` in 16 bits.
unfoldable pub payload_length : Ipv4Header → ℕ
payload_length h = (h.len + u16_mod - 4 * h.hlen) % u16_mod

unfoldable pub pseudo_checksum : Ipv4Header → ℕ
unfolding payload_length
pseudo_checksum h =
    add32
      (add32
        (add32 (add32 (h.src / u16_mod) (h.src % u16_mod))
          (add32 (h.dst / u16_mod) (h.dst % u16_mod)))
        h.proto)
      (payload_length h)

unfoldable pub compute_checksum : Ipv4Header → Exec Ipv4Header
unfolding serialize_header finish Checksum.init add_all value
compute_checksum h = do
  s ← serialize_header (record h { cksum = 0 }) Serializer.empty
  ok (record h { cksum = value (add_all (finish s) (Checksum.init 0)) })

-- The fields in the order in which they are read.
unfoldable pub parse_fields : Ipv4Header → Parser → Exec (Ipv4Header × Parser)
unfolding Parser.integer
parse_fields h p = do
  (first, p₁) ← Parser.integer 1 0 p
  (tos, p₂) ← Parser.integer 1 h.tos p₁
  (len, p₃) ← Parser.integer 2 h.len p₂
  (id, p₄) ← Parser.integer 2 h.id p₃
  (fo_val, p₅) ← Parser.integer 2 0 p₄
  (ttl, p₆) ← Parser.integer 1 h.ttl p₅
  (proto, p₇) ← Parser.integer 1 h.proto p₆
  (cksum, p₈) ← Parser.integer 2 h.cksum p₇
  (src, p₉) ← Parser.integer 4 h.src p₈
  (dst, p₁₀) ← Parser.integer 4 h.dst p₉
  ok (
    record {
      ver = first / 16;
      hlen = first % 16;
      tos = tos;
      len = len;
      id = id;
      df = test_bit 0x4000 fo_val;
      mf = test_bit 0x2000 fo_val;
      offset = fo_val % 0x2000;
      ttl = ttl;
      proto = proto;
      cksum = cksum;
      src = src;
      dst = dst;
    },
    p₁₀,
  )

-- Options are skipped, and the checksum is computed again.
unfoldable pub verify : Ipv4Header → Parser → Exec (Ipv4Header × Parser)
unfolding skip_bytes compute_checksum set_error
verify h p = do
  p' ← skip_bytes (sub64 (h.hlen * 4) header_length) p
  h' ← compute_checksum h
  ok (h', if h'.cksum == h.cksum then p' else set_error p')

unfoldable pub parse_header : Ipv4Header → Parser → Exec (Ipv4Header × Parser)
unfolding parse_fields verify set_error
parse_header h p = do
  (h', p') ← parse_fields h p
  let p'' = if not (h'.ver == 4) || ltb h'.hlen 5 then set_error p' else p'
  if p''.has_error then ok (h', p'') else verify h' p''

pub record Ipv4Datagram : Type 0 where
  pub header : Ipv4Header
  pub payload : List Bytes

unfoldable pub parse_datagram : Ipv4Datagram → Parser → Exec (Ipv4Datagram × Parser)
unfolding parse_header truncate_input payload_length all_remaining
parse_datagram d p = do
  (header, p') ← parse_header d.header p
  let p'' = truncate_input (payload_length header) p'
  payload ← all_remaining p''
  ok (record { header = header; payload = payload }, p'')

unfoldable pub serialize_datagram : Ipv4Datagram → Serializer → Exec Serializer
unfolding serialize_header append_buffers
serialize_datagram d s = serialize_header d.header s >>= λ s'. ok (append_buffers d.payload s')

-- `serialize( datagram )` and `parse( datagram, buffers )` of util/helpers.hh.
unfoldable pub serialize : Ipv4Datagram → Exec (List Bytes)
unfolding serialize_datagram finish
serialize d = serialize_datagram d Serializer.empty >>= λ s. ok (finish s)

unfoldable pub parse : List Bytes → Exec (Option Ipv4Datagram)
unfolding parse_datagram of_input
parse buffers =
    parse_datagram (record { header = default_header; payload = [] }) (of_input buffers)
    >>= λ (d, p). ok (if p.has_error then none else some d)
