-- ===== src/NetworkInterface.antt =====
-- src/network_interface.hh and src/network_interface.cc. What is transmitted through the output
-- port is a list of frames, in order. An address of the internet layer is its number,
-- `Address::ipv4_numeric()`; the constructor's and the interface's `Address` are of that family.
pub mod Sending
pub mod Waiting
pub mod Expiry
pub mod Resolution
pub mod Histories
use internet.Prelude.{
  ℕ, ◌+◌, Bool, ◌&&◌, ◌||◌, Option, none, some, List, [], ◌∷◌, ◌++◌, ltb, ◌==◌, if◌then◌else◌,
  Bytes, add64, sub64, Exec, ok, ◌>>=◌, ◌>>◌,
}
use internet.Map.{Map, lookup, insert, erase, contains}
use internet.Wire.Ethernet.{
  EthernetAddress, ethernet_broadcast, same_address, type_ipv4, type_arp, EthernetHeader,
  EthernetFrame,
}
use internet.Wire.Arp
use internet.Wire.Arp.{ArpMessage, default_message, opcode_request, opcode_reply}
use internet.Wire.Ipv4
use internet.Wire.Ipv4.{Ipv4Datagram}

pub record ArpEntry : Type 0 where
  pub ether_addr : EthernetAddress
  pub time_created : ℕ

pub record NetworkInterface : Type 0 where
  pub ethernet_address : EthernetAddress
  pub ip_address : ℕ
  pub datagrams_received : List Ipv4Datagram
  pub datagrams_waiting : Map (List Ipv4Datagram)
  pub arp_requests_waiting : Map ℕ
  pub ip_ether_map : Map ArpEntry
  pub current_time : ℕ

unfoldable pub init : EthernetAddress → ℕ → NetworkInterface
init ethernet_address ip_address = record {
  ethernet_address = ethernet_address;
  ip_address = ip_address;
  datagrams_received = [];
  datagrams_waiting = [];
  arp_requests_waiting = [];
  ip_ether_map = [];
  current_time = 0;
}

-- A datagram in a frame to `dst`.
unfoldable pub datagram_frame :
    EthernetAddress → Ipv4Datagram → NetworkInterface → Exec EthernetFrame
datagram_frame dst d n = Ipv4.serialize d >>= λ payload. ok (record {
  header = record { dst = dst; src = n.ethernet_address; type = type_ipv4 };
  payload = payload;
})

-- An ARP message in a frame to `dst`.
unfoldable pub arp_frame : EthernetAddress → ArpMessage → NetworkInterface → Exec EthernetFrame
arp_frame dst m n = Arp.serialize m >>= λ payload. ok (record {
  header = record { dst = dst; src = n.ethernet_address; type = type_arp };
  payload = payload;
})

unfoldable pub arp_request : ℕ → NetworkInterface → ArpMessage
arp_request target n = record default_message {
  opcode = opcode_request;
  sender_ethernet_address = n.ethernet_address;
  sender_ip_address = n.ip_address;
  target_ip_address = target;
}

abbrev pub or_empty : Option (List Ipv4Datagram) → List Ipv4Datagram
or_empty none = []
or_empty (some q) = q

-- `datagrams_waiting_[ip].push( dgram )`, where `[]` makes an empty queue if there is none.
unfoldable pub enqueue : ℕ → Ipv4Datagram → NetworkInterface → NetworkInterface
enqueue ip d n = record n {
  datagrams_waiting =
      insert ip (or_empty (lookup ip n.datagrams_waiting) ++ d ∷ []) n.datagrams_waiting;
}

-- An ARP request for `ip` was broadcast: its queue starts empty, and the time is logged.
unfoldable pub log_request : ℕ → NetworkInterface → NetworkInterface
log_request ip n = record n {
  datagrams_waiting = insert ip [] n.datagrams_waiting;
  arp_requests_waiting = insert ip n.current_time n.arp_requests_waiting;
}

-- The Ethernet address of the next hop is not known.
unfoldable pub send_unresolved :
    Ipv4Datagram → ℕ → NetworkInterface → Exec (List EthernetFrame × NetworkInterface)
send_unresolved d next_hop n =
    if contains next_hop n.arp_requests_waiting
    then ok ([], enqueue next_hop d n)
    else (arp_frame ethernet_broadcast (arp_request next_hop n) n >>= λ f.
        ok (f ∷ [], enqueue next_hop d (log_request next_hop n)))

unfoldable pub send_datagram :
    Ipv4Datagram → ℕ → NetworkInterface → Exec (List EthernetFrame × NetworkInterface)
send_datagram d next_hop n = elim (lookup next_hop n.ip_ether_map) [
  | some e ↦ datagram_frame e.ether_addr d n >>= λ f. ok (f ∷ [], n)
  | none ↦ send_unresolved d next_hop n
]

unfoldable pub learn : ArpMessage → NetworkInterface → NetworkInterface
learn m n = record n {
  ip_ether_map =
      insert m.sender_ip_address
        (record { ether_addr = m.sender_ethernet_address; time_created = n.current_time })
        n.ip_ether_map;
}

unfoldable pub arp_reply : ArpMessage → NetworkInterface → ArpMessage
arp_reply m n = record default_message {
  opcode = opcode_reply;
  sender_ethernet_address = n.ethernet_address;
  sender_ip_address = n.ip_address;
  target_ethernet_address = m.sender_ethernet_address;
  target_ip_address = m.sender_ip_address;
}

-- The reply to a request for our address.
unfoldable pub answer_request : ArpMessage → NetworkInterface → Exec (List EthernetFrame)
answer_request m n =
    if (m.opcode == opcode_request) && (m.target_ip_address == n.ip_address)
    then (arp_frame m.sender_ethernet_address (arp_reply m n) n >>= λ f. ok (f ∷ []))
    else ok []

-- The loop over the queue of an address that has become known.
unfoldable pub send_queue :
    EthernetAddress → List Ipv4Datagram → NetworkInterface → Exec (List EthernetFrame)
send_queue dst [] n = ok []
send_queue dst (d ∷ ds) n = do f ← datagram_frame dst d n; fs ← send_queue dst ds n; ok (f ∷ fs)

unfoldable pub send_waiting :
    ArpMessage → NetworkInterface → Exec (List EthernetFrame × NetworkInterface)
send_waiting m n = elim (lookup m.sender_ip_address n.datagrams_waiting) [
  | none ↦ ok ([], n)
  | some queue ↦ send_queue m.sender_ethernet_address queue n >>= λ fs.
      ok (fs, record n { datagrams_waiting = erase m.sender_ip_address n.datagrams_waiting })
]

unfoldable pub recv_arp :
    ArpMessage → NetworkInterface → Exec (List EthernetFrame × NetworkInterface)
recv_arp m n = do
  let n' = learn m n
  reply ← answer_request m n'
  (fs, n'') ← send_waiting m n'
  ok (reply ++ fs, n'')

unfoldable pub recv_datagram : Ipv4Datagram → NetworkInterface → NetworkInterface
recv_datagram d n = record n { datagrams_received = n.datagrams_received ++ d ∷ [] }

-- Is the frame for this interface, or for all?
unfoldable pub is_for : EthernetAddress → NetworkInterface → Bool
is_for dst n = same_address dst n.ethernet_address || same_address dst ethernet_broadcast

unfoldable pub recv_ipv4 :
    List Bytes → NetworkInterface → Exec (List EthernetFrame × NetworkInterface)
recv_ipv4 payload n =
    Ipv4.parse payload >>= λ o. elim o [ none ↦ ok ([], n) | some d ↦ ok ([], recv_datagram d n) ]

unfoldable pub recv_arp_payload :
    List Bytes → NetworkInterface → Exec (List EthernetFrame × NetworkInterface)
recv_arp_payload payload n =
    Arp.parse payload >>= λ o. elim o [ none ↦ ok ([], n) | some m ↦ recv_arp m n ]

unfoldable pub recv_frame :
    EthernetFrame → NetworkInterface → Exec (List EthernetFrame × NetworkInterface)
recv_frame f n =
    if is_for f.header.dst n
    then (if f.header.type == type_ipv4
        then recv_ipv4 f.payload n
        else (if f.header.type == type_arp then recv_arp_payload f.payload n else ok ([], n)))
    else ok ([], n)

-- Mappings older than 30 seconds go.
unfoldable pub expire_mappings : ℕ → Map ArpEntry → Map ArpEntry
expire_mappings now [] = []
expire_mappings now ((ip, e) ∷ m) =
    if ltb 30000 (sub64 now e.time_created)
    then expire_mappings now m
    else (ip, e) ∷ expire_mappings now m

-- Requests older than 5 seconds go, and so do the datagrams that waited for the reply.
unfoldable pub expire_requests :
    ℕ → Map ℕ → Map (List Ipv4Datagram) → Map ℕ × Map (List Ipv4Datagram)
expire_requests now [] waiting = ([], waiting)
expire_requests now ((ip, sent) ∷ m) waiting =
    let old = ltb 5000 (sub64 now sent) in
    let (m', waiting') = expire_requests now m (if old then erase ip waiting else waiting) in
    (if old then m' else (ip, sent) ∷ m', waiting')

unfoldable pub tick : ℕ → NetworkInterface → NetworkInterface
tick ms_since_last_tick n =
    let now = add64 n.current_time ms_since_last_tick in
    let (requests, waiting) = expire_requests now n.arp_requests_waiting n.datagrams_waiting in
    record n {
      current_time = now;
      ip_ether_map = expire_mappings now n.ip_ether_map;
      arp_requests_waiting = requests;
      datagrams_waiting = waiting;
    }
