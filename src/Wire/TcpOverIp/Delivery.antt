-- ===== src/Wire/TcpOverIp/Delivery.antt =====
-- What one adapter wraps, the adapter of the peer unwraps.
use internet.Prelude.{
  ℕ, ◌+◌, ◌*◌, ◌%◌, ◌≤◌, ◌<◌, ◌≡◌, refl, ap, ◌∙◌, ◌⊎◌, inl, inr, true, false, none, some, List,
  arith, ◌==◌, ==_iff, length, All, Bytes, u16_mod, u32_mod, ok, ◌>>=◌,
}
use internet.Tcp.Messages.{TcpMessage}
use internet.Wire.Ipv4.{Ipv4Header, Ipv4Datagram, default_header, pseudo_checksum, payload_length}
use internet.Wire.Ipv4.Total.{with_checksum, compute_checksum-ok}
use internet.Wire.TcpSegment
use internet.Wire.TcpSegment.{TcpSegment, raw_ackno}
use internet.Wire.TcpSegment.RoundTrip.{parse-compute_checksum}
use internet.Wire.TcpSegment.Fields.{SegmentFits}
use internet.Wire.TcpOverIp.{
  Endpoint, TcpOverIpv4Adapter, accepts_datagram, accept_segment, bind_peer, unwrap_tcp_in_ip,
  wrap_tcp_in_ip,
}

-- A message whose fields have their widths, with one reset flag for both directions, and whose
-- payload fits into a datagram.
pub record MessageFits (m : TcpMessage) : Type 0 where
  pub seqno : m.sender.seqno.raw_value < u32_mod
  pub ackno : raw_ackno m < u32_mod
  pub window_size : m.receiver.window_size < u16_mod
  pub reset : m.receiver.rst ≡ m.sender.rst
  pub bytes : All (λ b. b < 256) m.sender.payload
  pub room : length m.sender.payload ≤ 65495

pub record EndpointFits (e : Endpoint) : Type 0 where
  pub ip : e.ip < u32_mod
  pub port : e.port < u16_mod

-- The adapter of the peer: either bound to the same two endpoints, or listening at the port, and
-- then the message opens a connection.
abbrev pub Meets : TcpOverIpv4Adapter → TcpOverIpv4Adapter → TcpMessage → Type 0
Meets a b m =
    ((b.listening ≡ false) × (b.source ≡ a.destination) × (b.destination ≡ a.source))
    ⊎ ((b.listening ≡ true)
        × (b.source.port ≡ a.destination.port)
        × (m.sender.syn ≡ true)
        × (m.sender.rst ≡ false))

-- The peer's adapter, bound to the two endpoints.
abbrev pub opposite : TcpOverIpv4Adapter → TcpOverIpv4Adapter
opposite a = record { source = a.destination; destination = a.source; listening = false }

abbrev pub wrapped_header : TcpMessage → TcpOverIpv4Adapter → Ipv4Header
wrapped_header m a = record default_header {
  src = a.source.ip;
  dst = a.destination.ip;
  len = (default_header.hlen * 4 + 20 + length m.sender.payload) % u16_mod;
}

abbrev pub wrapped_segment : TcpMessage → TcpOverIpv4Adapter → TcpSegment
wrapped_segment m a = record {
  message = m;
  udinfo = record { src_port = a.source.port; dst_port = a.destination.port; cksum = 0 };
}

abbrev pub checked_segment : TcpMessage → TcpOverIpv4Adapter → TcpSegment
checked_segment m a =
    TcpSegment.compute_checksum (pseudo_checksum (wrapped_header m a)) (wrapped_segment m a)

-- The datagram, whose payload may have been divided into other buffers.
abbrev pub delivered : List Bytes → TcpMessage → TcpOverIpv4Adapter → Ipv4Datagram
delivered buffers m a = record { header = with_checksum (wrapped_header m a); payload = buffers }

abbrev pub wrapped : TcpMessage → TcpOverIpv4Adapter → Ipv4Datagram
wrapped m a = delivered (TcpSegment.serialize (checked_segment m a)) m a

pub wrap_tcp_in_ip_lem :
    (m : TcpMessage) (a : TcpOverIpv4Adapter) → wrap_tcp_in_ip m a ≡ ok (wrapped m a)
unfolding wrap_tcp_in_ip
wrap_tcp_in_ip_lem m a =
    ap
      (λ o.
        o >>= λ h. ok (record { header = h; payload = TcpSegment.serialize (checked_segment m a) }))
      (compute_checksum-ok (wrapped_header m a) refl)

pub pseudo_checksum-small :
    (m : TcpMessage) (a : TcpOverIpv4Adapter)
    → EndpointFits a.source
    → EndpointFits a.destination
    → pseudo_checksum (wrapped_header m a) < 0x100000
unfolding pseudo_checksum payload_length
pseudo_checksum-small m a f g = let x = f.ip in let y = g.ip in omega arith

pseudo_checksum-same : (h : Ipv4Header) → pseudo_checksum (with_checksum h) ≡ pseudo_checksum h
unfolding pseudo_checksum payload_length with_checksum
pseudo_checksum-same h = refl

pub wrapped_segment-SegmentFits :
    (m : TcpMessage) (a : TcpOverIpv4Adapter)
    → MessageFits m
    → EndpointFits a.source
    → EndpointFits a.destination
    → SegmentFits (wrapped_segment m a)
wrapped_segment-SegmentFits m a fm f g =
    let r = fm.room in
    record {
      src_port = f.port;
      dst_port = g.port;
      seqno = fm.seqno;
      ackno = fm.ackno;
      window_size = fm.window_size;
      reset = fm.reset;
      bytes = fm.bytes;
      room = omega arith;
    }

same : (n : ℕ) → (n == n) ≡ true
same n = (==_iff n n).1 refl

-- The two kinds of adapter of the peer.
bound_lem :
    (a b : TcpOverIpv4Adapter)
    → b.listening ≡ false
    → b.source ≡ a.destination
    → b.destination ≡ a.source
    → b ≡ opposite a
bound_lem a b l s d =
    ap (λ x. record b { listening = x }) l
    ∙ ap (λ x. record b { listening = false; source = x }) s
    ∙ ap (λ x. record { source = a.destination; destination = x; listening = false }) d

accepts_bound :
    (bs : List Bytes) (m : TcpMessage) (a : TcpOverIpv4Adapter)
    → accepts_datagram (delivered bs m a) (opposite a) ≡ true
unfolding accepts_datagram with_checksum
accepts_bound bs m a = rw (same a.destination.ip, same a.source.ip) refl

accept_bound :
    (bs : List Bytes) (m : TcpMessage) (a : TcpOverIpv4Adapter)
    → accept_segment (delivered bs m a) (checked_segment m a) (opposite a) ≡ (some m, opposite a)
unfolding accept_segment bind_peer with_checksum TcpSegment.compute_checksum
accept_bound bs m a = rw (same a.destination.port, same a.source.port) refl

accepts_listening :
    (bs : List Bytes) (m : TcpMessage) (a b : TcpOverIpv4Adapter)
    → b.listening ≡ true
    → accepts_datagram (delivered bs m a) b ≡ true
unfolding accepts_datagram with_checksum
accepts_listening bs m a b l = rw l refl

accept_listening :
    (bs : List Bytes) (m : TcpMessage) (a b : TcpOverIpv4Adapter)
    → b.listening ≡ true
    → b.source.port ≡ a.destination.port
    → m.sender.syn ≡ true
    → m.sender.rst ≡ false
    → accept_segment (delivered bs m a) (checked_segment m a) b ≡ (some m, opposite a)
unfolding accept_segment bind_peer with_checksum TcpSegment.compute_checksum
accept_listening bs m a b l p s r =
    rw (l, p, same a.destination.port) (simp (s, r) (rw (same a.source.port) refl))

received :
    (bs : List Bytes) (m : TcpMessage) (a b : TcpOverIpv4Adapter)
    → Meets a b m
    → (accepts_datagram (delivered bs m a) b ≡ true)
      × (accept_segment (delivered bs m a) (checked_segment m a) b ≡ (some m, opposite a))
received bs m a b (inl (l, s, d)) =
    let e = bound_lem a b l s d in
    (
      ap (accepts_datagram (delivered bs m a)) e ∙ accepts_bound bs m a,
      ap (accept_segment (delivered bs m a) (checked_segment m a)) e ∙ accept_bound bs m a,
    )
received bs m a b (inr (l, p, s, r)) =
    (accepts_listening bs m a b l, accept_listening bs m a b l p s r)

pub unwrap-delivered :
    (junk : ℕ) (bs : List Bytes) (m : TcpMessage) (a b : TcpOverIpv4Adapter)
    → TcpSegment.parse (pseudo_checksum (wrapped_header m a)) junk bs
      ≡ ok (some (checked_segment m a))
    → Meets a b m
    → unwrap_tcp_in_ip junk (delivered bs m a) b ≡ ok (some m, opposite a)
unfolding unwrap_tcp_in_ip
unwrap-delivered junk bs m a b parsed meets =
    let (accepts, accept) = received bs m a b meets in
    let same_sum = pseudo_checksum-same (wrapped_header m a) in
    rw accepts (
      ap
        (λ n. TcpSegment.parse n junk bs >>= λ o. elim o [
          | none ↦ ok (none, b)
          | some t ↦ ok (accept_segment (delivered bs m a) t b)
        ])
        same_sum
      ∙ rw parsed (ap ok accept))

-- An adapter reads the message that the other end wraps, and is then bound to the two endpoints:
-- the same conditions as for the adapters over a device.
unwrap_tcp_in_ip-wrap_tcp_in_ip :
    (junk : ℕ) (m : TcpMessage) (a b : TcpOverIpv4Adapter)
    → MessageFits m
    → EndpointFits a.source
    → EndpointFits a.destination
    → Meets a b m
    → (wrap_tcp_in_ip m a >>= λ d. unwrap_tcp_in_ip junk d b) ≡ ok (some m, opposite a)
unwrap_tcp_in_ip-wrap_tcp_in_ip junk m a b fm f g meets =
    let parsed =
      parse-compute_checksum (pseudo_checksum (wrapped_header m a)) junk (wrapped_segment m a)
        (wrapped_segment-SegmentFits m a fm f g) (pseudo_checksum-small m a f g) in
    rw (wrap_tcp_in_ip_lem m a)
      (unwrap-delivered junk (TcpSegment.serialize (checked_segment m a)) m a b parsed meets)
