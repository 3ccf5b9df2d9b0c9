-- ===== src/Tests/Adapters.antt =====
-- The theorems on segments and on the adapters that carry them, at concrete inputs.
use internet.Prelude.{
  ℕ, ◌<◌, ◌≡◌, refl, sym, subst, inr, true, false, Option, none, some, List, [], ◌∷◌, ◌++◌, arith,
  Bytes, ok, ◌>>=◌, Ensures,
}
use internet.EthernetAdapter
use internet.EthernetAdapter.{EthernetAdapter, reply_to, ticked, tick_network_interface}
use internet.EthernetAdapter.Frames as Network
use internet.EthernetAdapter.Delivery.{read-write_ethernet}
use internet.FileDescriptor.{FdWrapper, Input, Returned, returned, input, input_again}
use internet.Map.{lookup}
use internet.NetworkInterface
use internet.NetworkInterface.{NetworkInterface, ArpEntry}
use internet.Socket.{Received, received, received_again}
use internet.Tcp.Messages.{TcpMessage}
use internet.TunAdapter
use internet.TunAdapter.{TunAdapter}
use internet.TunAdapter.Delivery as Device
use internet.TunAdapter.Delivery.{read-write_tun}
use internet.Wire.Ethernet.{EthernetAddress}
use internet.Wire.Ethernet.RoundTrip.{IsAddress}
use internet.Wire.Parser.{total_size, flatten}
use internet.Wire.TcpOverIp.{Endpoint, TcpOverIpv4Adapter}
use internet.Wire.TcpOverIp.Delivery.{MessageFits, EndpointFits, opposite}
use internet.Wire.TcpSegment
use internet.Wire.TcpSegment.{TcpSegment, raw_ackno}
use internet.Wire.TcpSegment.RoundTrip.{parse-compute_checksum}
use internet.Wire.TcpSegment.Fields.{SegmentFits}

-- A segment that opens a connection.
abbrev opening : TcpMessage
opening = record {
  sender = record {
    seqno = record { raw_value = 70000 };
    syn = true;
    payload = 1 ∷ 2 ∷ 3 ∷ [];
    fin = false;
    rst = false;
  };
  receiver = record { ackno = none; window_size = 1000; rst = false };
}

abbrev segment : TcpSegment
segment = record {
  message = opening;
  udinfo = record { src_port = 1000; dst_port = 80; cksum = 0 };
}

segment-SegmentFits : SegmentFits segment
unfolding raw_ackno
segment-SegmentFits = record {
  src_port = omega arith;
  dst_port = omega arith;
  seqno = omega arith;
  ackno = omega arith;
  window_size = omega arith;
  reset = refl;
  bytes = (omega arith, (omega arith, (omega arith, tt)));
  room = omega arith;
}

parse-compute_checksum_example :
    TcpSegment.parse 1234 7 (TcpSegment.serialize (TcpSegment.compute_checksum 1234 segment))
    ≡ ok (some (TcpSegment.compute_checksum 1234 segment))
parse-compute_checksum_example =
    parse-compute_checksum 1234 7 segment segment-SegmentFits (omega arith)

opening-MessageFits : MessageFits opening
unfolding raw_ackno
opening-MessageFits = record {
  seqno = omega arith;
  ackno = omega arith;
  window_size = omega arith;
  reset = refl;
  bytes = (omega arith, (omega arith, (omega arith, tt)));
  room = omega arith;
}

-- A client that knows its peer, and a server that listens.
abbrev here : Endpoint
here = record { ip = 0x0a000001; port = 1000 }

abbrev there : Endpoint
there = record { ip = 0x0a000105; port = 80 }

here-EndpointFits : EndpointFits here
here-EndpointFits = record { ip = omega arith; port = omega arith }

there-EndpointFits : EndpointFits there
there-EndpointFits = record { ip = omega arith; port = omega arith }

abbrev client_side : TcpOverIpv4Adapter
client_side = record { source = here; destination = there; listening = false }

abbrev server_side : TcpOverIpv4Adapter
server_side = record {
  source = record { ip = 0; port = 80 };
  destination = record { ip = 0; port = 0 };
  listening = true;
}

abbrev descriptor : FdWrapper
descriptor = record {
  fd = 3;
  eof = false;
  closed = false;
  non_blocking = false;
  read_count = 0;
  write_count = 0;
}

-- A device with a queue of datagrams.
abbrev queue_readv : List ℕ → List Bytes → Input × List Bytes
queue_readv sizes [] = (input_again, [])
queue_readv sizes (b ∷ bs) = (input b, bs)

abbrev queue_writev : List Bytes → List Bytes → Returned × List Bytes
queue_writev buffers k = (returned (total_size buffers), k ++ flatten buffers ∷ [])

queue-Carries : Device.Carries queue_readv queue_writev (λ k. k ≡ [])
queue-Carries = record {
  accepts = λ _ _. refl;
  delivers = λ bs k sizes idle le.
      subst (λ q. (queue_readv sizes (q ++ flatten bs ∷ [])).0 ≡ input (flatten bs)) (sym idle)
        refl;
}

abbrev tun_end : TcpOverIpv4Adapter → TunAdapter (List Bytes)
tun_end a = record {
  adapter = a;
  loss_rate_dn = 0;
  loss_rate_up = 0;
  tun = descriptor;
  system = [];
}

read-write_tun_example :
    Ensures
      (λ (o, y). (o ≡ some opening) × (y.adapter ≡ opposite client_side))
      (TunAdapter.write 0 queue_readv queue_writev opening (tun_end client_side) >>= λ x.
        TunAdapter.read 0 queue_readv queue_writev
          (record (tun_end server_side) { system = x.system }))
read-write_tun_example =
    read-write_tun queue_readv queue_writev (λ k. k ≡ []) queue-Carries 0 opening
      (tun_end client_side) (tun_end server_side) here-EndpointFits there-EndpointFits
      opening-MessageFits (omega arith) refl (inr (refl, refl, refl, refl))

-- A network with a queue of datagrams, the sender of which has the address 5; its clock stands.
abbrev queue_recvmsg : List ℕ → List Bytes → Received ℕ × List Bytes
queue_recvmsg sizes [] = (received_again 0, [])
queue_recvmsg sizes (b ∷ bs) = (received b false (some 5), bs)

abbrev queue_sendmsg : List Bytes → Option ℕ → List Bytes → Returned × List Bytes
queue_sendmsg buffers to k = (returned (total_size buffers), k ++ flatten buffers ∷ [])

queue_network-Carries : Network.Carries queue_recvmsg queue_sendmsg (λ k. k ≡ []) 5
queue_network-Carries = record {
  accepts = λ _ _ _. refl;
  delivers = λ bs to k sizes idle le.
      subst
        (λ q. (queue_recvmsg sizes (q ++ flatten bs ∷ [])).0 ≡ received (flatten bs) false (some 5))
        (sym idle) refl;
}

abbrev host_address : ℕ → EthernetAddress
host_address n = 2 ∷ 0 ∷ 0 ∷ 0 ∷ 0 ∷ n ∷ []

host_address-IsAddress : (n : ℕ) → n < 256 → IsAddress (host_address n)
host_address-IsAddress n lt =
    (refl, (omega arith, (omega arith, (omega arith, (omega arith, (omega arith, (lt, tt)))))))

abbrev known : ArpEntry
known = record { ether_addr = host_address 9; time_created = 0 }

abbrev ethernet_end :
    TcpOverIpv4Adapter → NetworkInterface → Option ℕ → EthernetAdapter ℕ (List Bytes)
ethernet_end a n to = record {
  adapter = a;
  loss_rate_dn = 0;
  loss_rate_up = 0;
  output = record { socket = descriptor; physical_dest = to };
  interface = n;
  next_hop = 0x0a000105;
  last_tick = 0;
  system = [];
}

abbrev client_end : EthernetAdapter ℕ (List Bytes)
client_end =
    ethernet_end client_side
      (record (NetworkInterface.init (host_address 7) 0x0a000001) {
        ip_ether_map = (0x0a000105, known) ∷ [];
      })
      (some 6)

abbrev server_end : EthernetAdapter ℕ (List Bytes)
server_end = ethernet_end server_side (NetworkInterface.init (host_address 9) 0x0a000105) none

read-write_ethernet_example :
    Ensures
      (λ (o, y).
        (o ≡ some opening)
        × (y.adapter ≡ opposite client_side)
        × (y.interface.datagrams_received ≡ [])
        × (y.output.physical_dest ≡ (reply_to 5 server_end.output).physical_dest))
      (EthernetAdapter.write 0 (λ _. 0) queue_recvmsg queue_sendmsg opening client_end >>= λ x.
        EthernetAdapter.read 0
          (λ _. 0)
          queue_recvmsg
          queue_sendmsg
          (record server_end { system = x.system }))
unfolding NetworkInterface.init tick_network_interface ticked lookup
read-write_ethernet_example =
    read-write_ethernet 0 (λ _. 0) queue_recvmsg queue_sendmsg (λ k. k ≡ []) 5 queue_network-Carries
      opening client_end server_end 6 known here-EndpointFits there-EndpointFits opening-MessageFits
      (omega arith) refl (host_address-IsAddress 7 (omega arith))
      (host_address-IsAddress 9 (omega arith)) refl refl refl refl (inr (refl, refl, refl, refl))
