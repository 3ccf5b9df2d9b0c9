-- ===== src/Wire/TcpOverIp/Buffers.antt =====
-- The buffers of a wrapped message, as they are written and as they are read again.
use internet.Prelude.{
  ℕ, ◌+◌, ◌<◌, ◌≡◌, refl, ap, ◌∙◌, some, List, [], ◌∷◌, ◌++◌, arith, length, All, Bytes, ok,
}
use internet.Tcp.Messages.{TcpMessage}
use internet.Wire.Parser.{flatten, total_size}
use internet.Wire.Checksum.Own.{value_width}
use internet.Wire.Ipv4
use internet.Wire.Ipv4.{Ipv4Header, pseudo_checksum}
use internet.Wire.Ipv4.Total.{with_checksum, header_checksum, datagram_buffers}
use internet.Wire.Ipv4.RoundTrip.{HeaderFits, parse-header_bytes, one_header}
use internet.Wire.Ipv4.RoundTrip
use internet.Wire.TcpSegment
use internet.Wire.TcpSegment.Layout
use internet.Wire.TcpSegment.Layout.{
  payload_buffers, serialize_lem, payload_buffers-All, total_size-payload_buffers,
  flatten-payload_buffers,
}
use internet.Wire.TcpSegment.RoundTrip.{parse-two_buffers}
use internet.Wire.TcpOverIp.{TcpOverIpv4Adapter, unwrap_tcp_in_ip}
use internet.Wire.TcpOverIp.Delivery.{
  MessageFits, EndpointFits, Meets, opposite, wrapped_header, wrapped_segment, checked_segment,
  delivered, wrapped, wrapped_segment-SegmentFits, pseudo_checksum-small, unwrap-delivered,
}

-- The header is complete, however its payload is divided.
pub header-HeaderFits :
    (m : TcpMessage) (a : TcpOverIpv4Adapter)
    → EndpointFits a.source
    → EndpointFits a.destination
    → HeaderFits (with_checksum (wrapped_header m a))
unfolding with_checksum header_checksum
header-HeaderFits m a f g = record {
  ver = refl;
  hlen = refl;
  tos = omega arith;
  len = omega arith;
  id = omega arith;
  offset = omega arith;
  ttl = omega arith;
  proto = omega arith;
  cksum = value_width _;
  src = f.ip;
  dst = g.ip;
}

-- The buffers that are written, and those that are read.
abbrev pub tcp_header : TcpMessage → TcpOverIpv4Adapter → Bytes
tcp_header m a = Layout.header_bytes (checked_segment m a)

abbrev pub ip_header : TcpMessage → TcpOverIpv4Adapter → Bytes
ip_header m a = RoundTrip.header_bytes (with_checksum (wrapped_header m a))

abbrev pub written : TcpMessage → TcpOverIpv4Adapter → List Bytes
written m a = ip_header m a ∷ tcp_header m a ∷ payload_buffers m.sender.payload

abbrev pub arrived : TcpMessage → TcpOverIpv4Adapter → List Bytes
arrived m a = tcp_header m a ∷ m.sender.payload ∷ []

pub length-ip_header : (m : TcpMessage) (a : TcpOverIpv4Adapter) → length (ip_header m a) ≡ 20
length-ip_header m a = RoundTrip.length-header_bytes (with_checksum (wrapped_header m a))

pub length-tcp_header : (m : TcpMessage) (a : TcpOverIpv4Adapter) → length (tcp_header m a) ≡ 20
length-tcp_header m a = Layout.length-header_bytes (checked_segment m a)

pub written-All : (m : TcpMessage) (a : TcpOverIpv4Adapter) → All (λ b. 0 < length b) (written m a)
written-All m a = (
  omega (arith, length-ip_header m a),
  (omega (arith, length-tcp_header m a), payload_buffers-All m.sender.payload),
)

pub total_size-written :
    (m : TcpMessage) (a : TcpOverIpv4Adapter)
    → total_size (written m a) ≡ 40 + length m.sender.payload
total_size-written m a = omega (
  arith,
  length-ip_header m a,
  length-tcp_header m a,
  total_size-payload_buffers m.sender.payload,
)

pub flatten-written :
    (m : TcpMessage) (a : TcpOverIpv4Adapter)
    → flatten (written m a) ≡ ip_header m a ++ (tcp_header m a ++ m.sender.payload)
flatten-written m a =
    ap (λ b. ip_header m a ++ (tcp_header m a ++ b)) (flatten-payload_buffers m.sender.payload)

pub datagram_buffers-wrapped :
    (m : TcpMessage) (a : TcpOverIpv4Adapter) → datagram_buffers (wrapped m a) ≡ written m a
unfolding TcpSegment.compute_checksum
datagram_buffers-wrapped m a =
    let (_, rest) = written-All m a in
    let e = serialize_lem (checked_segment m a) in
    ap (λ b. datagram_buffers (delivered b m a)) e
    ∙ one_header (delivered (tcp_header m a ∷ payload_buffers m.sender.payload) m a) rest

pub checksum_lem :
    (h : Ipv4Header)
    → ((with_checksum h).cksum ≡ header_checksum (with_checksum h))
      × ((with_checksum h).len ≡ h.len)
unfolding with_checksum header_checksum
checksum_lem h = (refl, refl)

-- What arrives is parsed as the datagram, and that as the segment.
pub parse-arrived :
    (m : TcpMessage) (a : TcpOverIpv4Adapter)
    → EndpointFits a.source
    → EndpointFits a.destination
    → MessageFits m
    → Ipv4.parse (ip_header m a ∷ arrived m a) ≡ ok (some (delivered (arrived m a) m a))
parse-arrived m a f g fm =
    let size = length-tcp_header m a in
    let (cksum, len) = checksum_lem (wrapped_header m a) in
    let room = fm.room in
    parse-header_bytes (delivered (arrived m a) m a) (header-HeaderFits m a f g) cksum
      (len ∙ omega (arith, size)) (omega (arith, size))

pub unwrap-arrived :
    (junk : ℕ) (m : TcpMessage) (a b : TcpOverIpv4Adapter)
    → EndpointFits a.source
    → EndpointFits a.destination
    → MessageFits m
    → Meets a b m
    → unwrap_tcp_in_ip junk (delivered (arrived m a) m a) b ≡ ok (some m, opposite a)
unwrap-arrived junk m a b f g fm meets =
    unwrap-delivered junk (arrived m a) m a b
      (parse-two_buffers (pseudo_checksum (wrapped_header m a)) junk (wrapped_segment m a)
        (wrapped_segment-SegmentFits m a fm f g) (pseudo_checksum-small m a f g))
      meets
