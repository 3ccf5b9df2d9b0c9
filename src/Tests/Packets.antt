-- ===== src/Tests/Packets.antt =====
-- The theorems on packets that are written and read again, and on two interfaces, at concrete
-- inputs.
use internet.Prelude.{ℕ, ◌<◌, ◌≡◌, refl, true, false, some, [], ◌∷◌, arith, ok, ◌>>=◌, Ensures}
use internet.Map.{lookup, contains}
use internet.Wire.Checksum
use internet.Wire.Serializer
use internet.Wire.Ethernet
use internet.Wire.Ethernet.{EthernetAddress, EthernetFrame, type_ipv4}
use internet.Wire.Ethernet.RoundTrip.{IsAddress, frame_round_trip}
use internet.Wire.Arp
use internet.Wire.Arp.{ArpMessage, default_message, opcode_request, supported}
use internet.Wire.Arp.RoundTrip.{message_round_trip}
use internet.Wire.Ipv4
use internet.Wire.Ipv4.{Ipv4Datagram, Ipv4Header}
use internet.Wire.Ipv4.Total.{header_checksum}
use internet.Wire.Ipv4.RoundTrip.{IsComplete, datagram_round_trip}
use internet.NetworkInterface
use internet.NetworkInterface.{NetworkInterface}
use internet.NetworkInterface.Sending.{waiting_for}
use internet.NetworkInterface.Resolution.{exchange, Exchanged, exchange-Exchanged}

abbrev address : ℕ → EthernetAddress
address n = 2 ∷ 0 ∷ 0 ∷ 0 ∷ 0 ∷ n ∷ []

address-IsAddress : (n : ℕ) → n < 256 → IsAddress (address n)
address-IsAddress n lt =
    (refl, (omega arith, (omega arith, (omega arith, (omega arith, (omega arith, (lt, tt)))))))

abbrev frame : EthernetFrame
frame = record {
  header = record { dst = address 7; src = address 9; type = type_ipv4 };
  payload = (1 ∷ 2 ∷ []) ∷ (3 ∷ []) ∷ [];
}

frame_example : Ethernet.parse (Ethernet.serialize frame) ≡ ok (some frame)
frame_example =
    frame_round_trip frame
      (address-IsAddress 7 (omega arith), address-IsAddress 9 (omega arith), omega arith)
      (omega arith, (omega arith, tt)) (omega arith)

abbrev request : ArpMessage
request = record default_message {
  opcode = opcode_request;
  sender_ethernet_address = address 5;
  sender_ip_address = 0x0a000105;
  target_ethernet_address = address 0;
  target_ip_address = 0x0a000001;
}

message_example : (Arp.serialize request >>= Arp.parse) ≡ ok (some request)
unfolding supported
message_example =
    message_round_trip request refl (
      address-IsAddress 5 (omega arith),
      omega arith,
      address-IsAddress 0 (omega arith),
      omega arith,
    )

abbrev header : Ipv4Header
header = record {
  ver = 4;
  hlen = 5;
  tos = 0;
  len = 23;
  id = 1;
  df = true;
  mf = false;
  offset = 0;
  ttl = 64;
  proto = 6;
  cksum = 9691;
  src = 0x0a000001;
  dst = 0x0a000105;
}

abbrev datagram : Ipv4Datagram
datagram = record { header = header; payload = (1 ∷ 2 ∷ []) ∷ (3 ∷ []) ∷ [] }

datagram-IsComplete : IsComplete datagram
unfolding header_checksum Checksum.value Checksum.add_all Serializer.finish Ipv4.write_fields
    Checksum.init
datagram-IsComplete = (
  record {
    ver = refl;
    hlen = refl;
    tos = omega arith;
    len = omega arith;
    id = omega arith;
    offset = omega arith;
    ttl = omega arith;
    proto = omega arith;
    cksum = omega arith;
    src = omega arith;
    dst = omega arith;
  },
  refl,
  refl,
  (omega arith, (omega arith, tt)),
)

datagram_example : (Ipv4.serialize datagram >>= Ipv4.parse) ≡ ok (some datagram)
datagram_example = datagram_round_trip datagram datagram-IsComplete

abbrev client : NetworkInterface
client = NetworkInterface.init (address 7) 0x0a000001

abbrev server : NetworkInterface
server = NetworkInterface.init (address 9) 0x0a000105

exchange_example : Ensures (Exchanged datagram client server) (exchange datagram client server)
unfolding NetworkInterface.init lookup contains waiting_for
exchange_example =
    exchange-Exchanged datagram client server datagram-IsComplete
      (address-IsAddress 7 (omega arith), omega arith)
      (address-IsAddress 9 (omega arith), omega arith) refl refl refl
