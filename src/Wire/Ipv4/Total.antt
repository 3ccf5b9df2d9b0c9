-- ===== src/Wire/Ipv4/Total.antt =====
-- When IPv4 headers and datagrams can be serialized.
use internet.Prelude.{
  ℕ, ◌≡◌, ap, List, if◌then◌else◌, ==_iff, Bytes, ok, fault, runtime_error, ◌>>=◌,
}
use internet.Wire.Serializer
use internet.Wire.Serializer.{finish, append_buffers}
use internet.Wire.Checksum
use internet.Wire.Checksum.{add_all, value}
use internet.Wire.Ipv4.{Ipv4Header, Ipv4Datagram, write_fields, compute_checksum, serialize}

-- The buffers of a datagram.
unfoldable pub datagram_buffers : Ipv4Datagram → List Bytes
datagram_buffers d = finish (append_buffers d.payload (write_fields d.header Serializer.empty))

-- A datagram of version 4 is always serialized.
pub serialize-ok : (d : Ipv4Datagram) → d.header.ver ≡ 4 → serialize d ≡ ok (datagram_buffers d)
unfolding serialize datagram_buffers
serialize-ok d v = rw ((==_iff d.header.ver 4).1 v)

-- The sum over the header's bytes, with a checksum of 0.
unfoldable pub header_checksum : Ipv4Header → ℕ
header_checksum h =
    value
      (add_all (finish (write_fields (record h { cksum = 0 }) Serializer.empty)) (Checksum.init 0))

-- The header with the right checksum.
unfoldable pub with_checksum : Ipv4Header → Ipv4Header
with_checksum h = record h { cksum = header_checksum h }

-- Of a header of version 4 the checksum is always computed.
pub compute_checksum-ok : (h : Ipv4Header) → h.ver ≡ 4 → compute_checksum h ≡ ok (with_checksum h)
unfolding with_checksum compute_checksum header_checksum
compute_checksum-ok h v =
    ap
      (λ b.
        (if b
          then ok (write_fields (record h { cksum = 0 }) Serializer.empty)
          else fault runtime_error)
        >>= λ s. ok (record h { cksum = value (add_all (finish s) (Checksum.init 0)) }))
      ((==_iff h.ver 4).1 v)
