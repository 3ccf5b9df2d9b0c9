-- ===== src/NetworkInterface/Resolution.antt =====
-- Two interfaces on one network: what the frames of one do at the other.
use internet.Prelude.{
  ◌<◌, ◌≡◌, refl, ◌∙◌, Bool, true, false, ◌||◌, none, some, List, [], ◌∷◌, ◌++◌, u32_mod, Exec, ok,
  ◌>>=◌, Ensures,
}
use internet.Map.{lookup, lookup-erase, erase}
use internet.Wire.Ethernet.{EthernetAddress, ethernet_broadcast, same_address, EthernetFrame}
use internet.Wire.Ethernet.RoundTrip.{IsAddress, no_address-IsAddress}
use internet.Wire.Arp.{ArpMessage, supported}
use internet.Wire.Arp.RoundTrip.{AddressesFit, parse-message_buffers}
use internet.Wire.Ipv4.{Ipv4Datagram}
use internet.Wire.Ipv4.RoundTrip.{IsComplete, parse-datagram_buffers}
use internet.NetworkInterface.{
  NetworkInterface, arp_request, arp_reply, enqueue, log_request, learn, is_for, recv_arp,
  recv_datagram, recv_ipv4, recv_arp_payload, recv_frame, send_datagram,
}
use internet.NetworkInterface.Sending.{
  frame_of, arp_frame_of, waiting_for, asked, eq_self, send_fresh, waiting-enqueue,
  waiting-log_request,
}
use internet.NetworkInterface.Waiting.{recv_arp-ok, learn-keeps}

or_true : (x : Bool) → (x || true) ≡ true
or_true true = refl
or_true false = refl

-- The frames arrive in order.
unfoldable pub recv_frames :
    List EthernetFrame → NetworkInterface → Exec (List EthernetFrame × NetworkInterface)
unfolding recv_frame
recv_frames [] n = ok ([], n)
recv_frames (f ∷ fs) n = do
  (out, n') ← recv_frame f n
  (outs, n'') ← recv_frames fs n'
  ok (out ++ outs, n'')

pub same_address_self : (a : EthernetAddress) → same_address a a ≡ true
unfolding same_address
same_address_self [] = refl
same_address_self (b ∷ a) = rw (eq_self b, same_address_self a)

recv_frame_arp :
    (dst : EthernetAddress) (from n : NetworkInterface) (m : ArpMessage)
    → is_for dst n ≡ true
    → supported m ≡ true
    → AddressesFit m
    → recv_frame (arp_frame_of dst from m) n ≡ recv_arp m n
unfolding recv_frame arp_frame_of recv_arp_payload
recv_frame_arp dst from n m to s h = rw to (rw (parse-message_buffers m s h) refl)

recv_frame_datagram :
    (dst : EthernetAddress) (from n : NetworkInterface) (d : Ipv4Datagram)
    → is_for dst n ≡ true
    → IsComplete d
    → recv_frame (frame_of dst from d) n ≡ ok ([], recv_datagram d n)
unfolding recv_frame frame_of recv_ipv4
recv_frame_datagram dst from n d to h = rw to (rw (parse-datagram_buffers d h) refl)

-- A datagram is sent to the address of the other interface, and each frame is delivered.
unfoldable pub exchange :
    Ipv4Datagram → NetworkInterface → NetworkInterface → Exec (NetworkInterface × NetworkInterface)
unfolding send_datagram recv_frames
exchange d a b = do
  (request, a₁) ← send_datagram d b.ip_address a
  (reply, b₁) ← recv_frames request b
  (released, a₂) ← recv_frames reply a₁
  (_, b₂) ← recv_frames released b₁
  ok (a₂, b₂)

-- The addresses of an interface have their widths.
abbrev pub IsAddressed : NetworkInterface → Type 0
IsAddressed n = IsAddress n.ethernet_address × (n.ip_address < u32_mod)

module _ (d : Ipv4Datagram) (a b : NetworkInterface) where
  -- The request, and the sender once it has sent it.
  abbrev request : ArpMessage
  request = arp_request b.ip_address a

  abbrev waiting : NetworkInterface
  waiting = enqueue b.ip_address d (log_request b.ip_address a)

  abbrev reply : ArpMessage
  reply = arp_reply request b

  -- The interfaces once they have read the other's message.
  abbrev answered : NetworkInterface
  answered = record (learn request b) { datagrams_waiting = erase a.ip_address b.datagrams_waiting }

  abbrev resolved : NetworkInterface
  resolved = record (learn reply waiting) {
    datagrams_waiting = erase b.ip_address waiting.datagrams_waiting;
  }

  only_waiting : waiting_for b.ip_address waiting ≡ d ∷ []
  only_waiting = rw (
    waiting-enqueue b.ip_address b.ip_address d (log_request b.ip_address a),
    waiting-log_request b.ip_address b.ip_address a,
    eq_self b.ip_address,
  )

  nothing_left : waiting_for b.ip_address resolved ≡ []
  unfolding waiting_for
  nothing_left =
      rw (lookup-erase b.ip_address b.ip_address waiting.datagrams_waiting, eq_self b.ip_address)

  sender_learned :
      lookup b.ip_address resolved.ip_ether_map
      ≡ some (record { ether_addr = b.ethernet_address; time_created = a.current_time })
  unfolding arp_reply enqueue log_request
  sender_learned = rw (learn-keeps reply waiting b.ip_address, eq_self b.ip_address)

  receiver_learned :
      lookup a.ip_address answered.ip_ether_map
      ≡ some (record { ether_addr = a.ethernet_address; time_created = b.current_time })
  unfolding arp_request
  receiver_learned = rw (learn-keeps request b a.ip_address, eq_self a.ip_address)

  datagram_heard :
      IsComplete d
      → recv_frame (frame_of b.ethernet_address waiting d) answered
        ≡ ok ([], recv_datagram d answered)
  unfolding is_for learn
  datagram_heard c =
      recv_frame_datagram b.ethernet_address waiting answered d
        (rw (same_address_self b.ethernet_address) refl) c

  request_heard :
      IsAddressed a
      → IsAddressed b
      → waiting_for a.ip_address b ≡ []
      → recv_frame (arp_frame_of ethernet_broadcast a request) b
        ≡ ok (arp_frame_of a.ethernet_address b reply ∷ [], answered)
  unfolding arp_request supported is_for same_address
  request_heard fa fb none_waiting =
      recv_frame_arp ethernet_broadcast a b request
        (or_true (same_address ethernet_broadcast b.ethernet_address)) refl
        (fa.0, fa.1, no_address-IsAddress, fb.1)
      ∙ recv_arp-ok request b (rw none_waiting tt)
      ∙ rw (eq_self b.ip_address, none_waiting) refl

  reply_heard :
      IsAddressed a
      → IsAddressed b
      → d.header.ver ≡ 4
      → recv_frame (arp_frame_of a.ethernet_address b reply) waiting
        ≡ ok (frame_of b.ethernet_address waiting d ∷ [], resolved)
  unfolding arp_request arp_reply supported is_for enqueue log_request
  reply_heard fa fb v =
      recv_frame_arp a.ethernet_address b waiting reply
        (rw (same_address_self a.ethernet_address) refl) refl (fb.0, fb.1, fa.0, fa.1)
      ∙ recv_arp-ok reply waiting (rw only_waiting (v, tt))
      ∙ rw (only_waiting) refl

-- The other interface has the datagram, and each knows the address of the other.
abbrev pub Exchanged :
    Ipv4Datagram
    → NetworkInterface
    → NetworkInterface
    → NetworkInterface × NetworkInterface
    → Type 0
Exchanged d a b (a', b') =
    (b'.datagrams_received ≡ b.datagrams_received ++ d ∷ [])
    × (waiting_for b.ip_address a' ≡ [])
    × (lookup b.ip_address a'.ip_ether_map
        ≡ some (record { ether_addr = b.ethernet_address; time_created = a.current_time }))
    × (lookup a.ip_address b'.ip_ether_map
        ≡ some (record { ether_addr = a.ethernet_address; time_created = b.current_time }))

-- A complete datagram that is sent to an address neither known nor asked for arrives at the
-- interface that has it, once each frame is delivered, and both interfaces know the other's
-- address; the other interface has nothing waiting for the sender, and the addresses have their
-- widths.
pub exchange-Exchanged :
    (d : Ipv4Datagram) (a b : NetworkInterface)
    → IsComplete d
    → IsAddressed a
    → IsAddressed b
    → lookup b.ip_address a.ip_ether_map ≡ none
    → asked b.ip_address a ≡ false
    → waiting_for a.ip_address b ≡ []
    → Ensures (Exchanged d a b) (exchange d a b)
unfolding exchange recv_frames recv_datagram learn
exchange-Exchanged d a b c fa fb unknown not_asked none_waiting =
    rw (send_fresh d b.ip_address a unknown not_asked) (
      rw (request_heard d a b fa fb none_waiting) (
        rw (reply_heard d a b fa fb c.0.ver) (
          rw (datagram_heard d a b c)
            (refl, nothing_left d a b, sender_learned d a b, receiver_learned d a b))))
