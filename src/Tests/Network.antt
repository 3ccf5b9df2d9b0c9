-- ===== src/Tests/Network.antt =====
-- The theorems on packets, interfaces and routes at concrete inputs.
use internet.Prelude.{◌≡◌, refl, true, false, none, some, List, [], ◌∷◌, arith, Ensures}
use internet.Map.{lookup}
use internet.Wire.Checksum.{InternetChecksum}
use internet.Wire.Ethernet.{EthernetAddress}
use internet.Wire.Arp.{ArpMessage, default_message, opcode_request}
use internet.Wire.Ipv4.{Ipv4Datagram, Ipv4Header}
use internet.NetworkInterface.{NetworkInterface, send_datagram, recv_arp, tick}
use internet.NetworkInterface.Sending.{SentTo, send_datagram-SentTo, waiting_for}
use internet.NetworkInterface.Waiting.{IsCoherent, Resolved, recv_arp-Resolved}
use internet.NetworkInterface.Expiry.{tick-left}
use internet.Router.{Route, best_route, forward}
use internet.Router.LongestPrefix.{Best, best_route_lem}
use internet.Router.Forwarding.{Forwarded, forward-Forwarded}

abbrev summed : InternetChecksum
summed = record { sum = 0x2abcd; parity = false }

abbrev header : Ipv4Header
header = record {
  ver = 4;
  hlen = 5;
  tos = 0;
  len = 22;
  id = 1;
  df = true;
  mf = false;
  offset = 0;
  ttl = 64;
  proto = 6;
  cksum = 0;
  src = 0x0a000001;
  dst = 0x0a000105;
}

abbrev datagram : Ipv4Datagram
datagram = record { header = header; payload = (1 ∷ 2 ∷ []) ∷ [] }

abbrev our_address : EthernetAddress
our_address = 2 ∷ 0 ∷ 0 ∷ 0 ∷ 0 ∷ 1 ∷ []

abbrev eth0 : NetworkInterface
eth0 = record {
  ethernet_address = our_address;
  ip_address = 0x0a000001;
  datagrams_received = [];
  datagrams_waiting = (0x0a000105, datagram ∷ []) ∷ [];
  arp_requests_waiting = (0x0a000105, 100) ∷ [];
  ip_ether_map = [];
  current_time = 200;
}

eth0-IsCoherent : IsCoherent eth0
unfolding lookup
eth0-IsCoherent ip w = ground (arith, w)

send_datagram_example :
    Ensures (SentTo datagram 0x0a000105 eth0) (send_datagram datagram 0x0a000105 eth0)
send_datagram_example = send_datagram-SentTo datagram 0x0a000105 eth0 refl

abbrev request : ArpMessage
request = record default_message {
  opcode = opcode_request;
  sender_ethernet_address = 2 ∷ 0 ∷ 0 ∷ 0 ∷ 0 ∷ 5 ∷ [];
  sender_ip_address = 0x0a000105;
  target_ip_address = 0x0a000001;
}

recv_arp_example : Ensures (Resolved request eth0) (recv_arp request eth0)
unfolding waiting_for lookup
recv_arp_example = recv_arp-Resolved request eth0 (refl, tt)

-- At 30150 ms the request of 100 ms is too old, with its queue.
abbrev aged : NetworkInterface
aged = record eth0 {
  ip_ether_map =
      (0x0a000107, record { ether_addr = our_address; time_created = 40 })
      ∷ (0x0a000106, record { ether_addr = our_address; time_created = 200 })
      ∷ [];
}

tick_left_example :
    let n = tick 29950 aged in
    (n.current_time ≡ 30150)
    × (lookup 0x0a000105 n.ip_ether_map ≡ none)
    × (lookup 0x0a000105 n.arp_requests_waiting ≡ none)
    × (lookup 0x0a000105 n.datagrams_waiting ≡ none)
    × (n.ethernet_address ≡ our_address)
    × (n.ip_address ≡ 0x0a000001)
    × (n.datagrams_received ≡ [])
unfolding lookup
tick_left_example =
    tick-left 29950 0x0a000105 aged (ground arith) (refl, (refl, tt)) (refl, tt)
      (ground arith, (ground arith, tt)) (ground arith, tt)

-- Two routes match, the second with the longer prefix.
abbrev routes : List Route
routes =
    record { route_prefix = 0x0a000000; prefix_length = 8; next_hop = some 7; interface_num = 0 }
    ∷ record { route_prefix = 0x0a000100; prefix_length = 24; next_hop = none; interface_num = 0 }
    ∷ []

best_route_example : Best 0x0a000105 routes (best_route 0x0a000105 routes none)
best_route_example = best_route_lem 0x0a000105 routes

forward_example : Forwarded routes datagram (eth0 ∷ []) (forward routes datagram (eth0 ∷ []))
forward_example = forward-Forwarded routes datagram (eth0 ∷ []) refl
