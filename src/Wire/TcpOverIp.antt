-- ===== src/Wire/TcpOverIp.antt =====
-- util/tcp_over_ip.hh, util/tcp_over_ip.cc and util/fd_adapter.hh: TCP messages in IPv4 datagrams.
-- An `Address` is an IPv4 number and a port: that `inet_ntoa` and the parser of `Address` undo one
-- another is documented behaviour of the system's library.
pub mod Delivery
pub mod Buffers
use internet.Prelude.{
  ℕ, ◌+◌, ◌*◌, ◌%◌, Bool, false, ◌&&◌, ◌||◌, not, Option, none, some, ◌==◌, if◌then◌else◌, length,
  u16_mod, Exec, ok, ◌>>=◌,
}
use internet.Tcp.Messages.{TcpMessage}
use internet.Wire.Ipv4
use internet.Wire.Ipv4.{Ipv4Datagram, default_header, proto_tcp, pseudo_checksum}
use internet.Wire.TcpSegment
use internet.Wire.TcpSegment.{TcpSegment, UserDatagramInfo}

pub record Endpoint : Type 0 where
  pub ip : ℕ
  pub port : ℕ

pub record TcpOverIpv4Adapter : Type 0 where
  pub source : Endpoint
  pub destination : Endpoint
  pub listening : Bool

-- Is the datagram for us, from our peer, and does it claim to hold a TCP segment?
unfoldable pub accepts_datagram : Ipv4Datagram → TcpOverIpv4Adapter → Bool
accepts_datagram d a =
    (a.listening || (d.header.dst == a.source.ip))
    && (a.listening || (d.header.src == a.destination.ip))
    && (d.header.proto == proto_tcp)

-- A listening adapter takes the addresses and the port of a SYN; any other segment is dropped.
unfoldable pub bind_peer :
    Ipv4Datagram → TcpSegment → TcpOverIpv4Adapter → Option TcpOverIpv4Adapter
bind_peer d t a =
    if a.listening
    then (if t.message.sender.syn && not t.message.sender.rst
        then some (record {
          source = record { ip = d.header.dst; port = a.source.port };
          destination = record { ip = d.header.src; port = t.udinfo.src_port };
          listening = false;
        })
        else none)
    else some a

-- What follows a successful parse.
unfoldable pub accept_segment :
    Ipv4Datagram → TcpSegment → TcpOverIpv4Adapter → Option TcpMessage × TcpOverIpv4Adapter
unfolding bind_peer
accept_segment d t a =
    if t.udinfo.dst_port == a.source.port
    then elim (bind_peer d t a) [
      | none ↦ (none, a)
      | some a' ↦ (if t.udinfo.src_port == a'.destination.port then some t.message else none, a')
    ]
    else (none, a)

unfoldable pub unwrap_tcp_in_ip :
    ℕ → Ipv4Datagram → TcpOverIpv4Adapter → Exec (Option TcpMessage × TcpOverIpv4Adapter)
unfolding accepts_datagram accept_segment TcpSegment.parse pseudo_checksum
unwrap_tcp_in_ip junk d a =
    if accepts_datagram d a
    then (TcpSegment.parse (pseudo_checksum d.header) junk d.payload >>= λ o. elim o [
      | none ↦ ok (none, a)
      | some t ↦ ok (accept_segment d t a)
    ])
    else ok (none, a)

unfoldable pub wrap_tcp_in_ip : TcpMessage → TcpOverIpv4Adapter → Exec Ipv4Datagram
unfolding pseudo_checksum TcpSegment.compute_checksum TcpSegment.serialize Ipv4.compute_checksum
wrap_tcp_in_ip msg a =
    let segment : TcpSegment = record {
      message = msg;
      udinfo = record { src_port = a.source.port; dst_port = a.destination.port; cksum = 0 };
    } in
    let header = record default_header {
      src = a.source.ip;
      dst = a.destination.ip;
      len = (default_header.hlen * 4 + 20 + length msg.sender.payload) % u16_mod;
    } in
    let checked = TcpSegment.compute_checksum (pseudo_checksum header) segment in
    Ipv4.compute_checksum header >>= λ h.
    ok (record { header = h; payload = TcpSegment.serialize checked })
