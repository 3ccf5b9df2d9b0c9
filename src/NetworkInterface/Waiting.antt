-- ===== src/NetworkInterface/Waiting.antt =====
-- Which datagrams wait, and what an ARP message sets free.
use internet.Prelude.{
  ℕ, ◌≡◌, refl, subst, ◌≢◌, inl, inr, true, false, ◌&&◌, none, some, List, [], ◌∷◌, ◌++◌, map,
  arith, ◌==◌, if◌then◌else◌, Bool-cases, Option-cases, All, ok, Ensures, Ensures-of_eq,
}
use internet.Map.{
  Map, lookup, erase, lookup-insert, lookup-erase, erase_of_absent, contains, contains-lookup,
}
use internet.Wire.Ethernet.{EthernetFrame}
use internet.Wire.Arp.{ArpMessage, supported, opcode_request}
use internet.Wire.Ipv4.{Ipv4Datagram}
use internet.NetworkInterface.{
  NetworkInterface, or_empty, enqueue, log_request, send_datagram, learn, arp_reply, answer_request,
  send_waiting, recv_arp,
}
use internet.NetworkInterface.Sending.{
  frame_of, arp_frame_of, arp_frame-ok, send_queue-ok, waiting_for, asked, eq_self, send_known,
  send_asked, send_fresh,
}

-- Datagrams wait only for an address that is not known and has been asked for.
abbrev pub IsCoherent : NetworkInterface → Type 0
IsCoherent n =
    (ip : ℕ)
    → lookup ip n.datagrams_waiting ≢ none
    → (lookup ip n.arp_requests_waiting ≢ none) × (lookup ip n.ip_ether_map ≡ none)

enqueue-IsCoherent :
    (hop : ℕ) (d : Ipv4Datagram) (n : NetworkInterface)
    → lookup hop n.arp_requests_waiting ≢ none
    → lookup hop n.ip_ether_map ≡ none
    → IsCoherent n
    → IsCoherent (enqueue hop d n)
unfolding enqueue
enqueue-IsCoherent hop d n r u c ip w = ground (
  arith,
  c ip,
  λ (e : hop ≡ ip). subst (λ k. lookup k n.ip_ether_map ≡ none) e u,
  λ (e : hop ≡ ip). subst (λ k. lookup k n.arp_requests_waiting ≢ none) e r,
  lookup-insert hop ip (or_empty (lookup hop n.datagrams_waiting) ++ d ∷ []) n.datagrams_waiting,
)

log_request-IsCoherent :
    (hop : ℕ) (n : NetworkInterface)
    → lookup hop n.ip_ether_map ≡ none
    → IsCoherent n
    → IsCoherent (log_request hop n)
unfolding log_request
log_request-IsCoherent hop n u c ip w = ground (
  arith,
  c ip,
  λ (e : hop ≡ ip). subst (λ k. lookup k n.ip_ether_map ≡ none) e u,
  lookup-insert hop ip [] n.datagrams_waiting,
  lookup-insert hop ip n.current_time n.arp_requests_waiting,
)

pub learn-keeps :
    (m : ArpMessage) (n : NetworkInterface) (ip : ℕ)
    → lookup ip (learn m n).ip_ether_map ≡ (
        if m.sender_ip_address == ip
        then some (record { ether_addr = m.sender_ethernet_address; time_created = n.current_time })
        else lookup ip n.ip_ether_map)
unfolding learn
learn-keeps m n ip = lookup-insert m.sender_ip_address ip _ n.ip_ether_map

learn-requests :
    (m : ArpMessage) (n : NetworkInterface)
    → (learn m n).arp_requests_waiting ≡ n.arp_requests_waiting
unfolding learn
learn-requests m n = refl

-- What an ARP message does: its sender's address is known, a request for the interface's own
-- address is answered, and the datagrams that waited for the sender go out in order; no other
-- queue changes.
pub record Resolved (m : ArpMessage) (n : NetworkInterface)
    (out : List EthernetFrame × NetworkInterface) : Type 0 where
  pub frames :
      out.0
      ≡ (if (m.opcode == opcode_request) && (m.target_ip_address == n.ip_address)
          then arp_frame_of m.sender_ethernet_address n (arp_reply m n) ∷ []
          else [])
        ++ map (frame_of m.sender_ethernet_address n) (waiting_for m.sender_ip_address n)
  pub learned :
      lookup m.sender_ip_address out.1.ip_ether_map
      ≡ some (record { ether_addr = m.sender_ethernet_address; time_created = n.current_time })
  pub drained : lookup m.sender_ip_address out.1.datagrams_waiting ≡ none
  pub others :
      (ip : ℕ)
      → (m.sender_ip_address == ip) ≡ false
      → (lookup ip out.1.datagrams_waiting ≡ lookup ip n.datagrams_waiting)
        × (lookup ip out.1.ip_ether_map ≡ lookup ip n.ip_ether_map)
  pub requests : out.1.arp_requests_waiting ≡ n.arp_requests_waiting

answer_request-ok :
    (m : ArpMessage) (n : NetworkInterface)
    → answer_request m n
      ≡ ok (
          if (m.opcode == opcode_request) && (m.target_ip_address == n.ip_address)
          then arp_frame_of m.sender_ethernet_address n (arp_reply m n) ∷ []
          else [])
unfolding answer_request arp_reply supported
answer_request-ok m n =
    elim (Bool-cases ((m.opcode == opcode_request) && (m.target_ip_address == n.ip_address))) [
      | inl e ↦ rw e (rw (arp_frame-ok m.sender_ethernet_address (arp_reply m n) n refl))
      | inr e ↦ rw e
    ]

send_waiting-ok :
    (m : ArpMessage) (n : NetworkInterface)
    → All (λ d. d.header.ver ≡ 4) (waiting_for m.sender_ip_address n)
    → send_waiting m n
      ≡ ok (
        map (frame_of m.sender_ethernet_address n) (waiting_for m.sender_ip_address n),
        record n { datagrams_waiting = erase m.sender_ip_address n.datagrams_waiting },
      )
unfolding send_waiting waiting_for
send_waiting-ok m n v = elim (Option-cases (lookup m.sender_ip_address n.datagrams_waiting)) [
  | inl h ↦ rw (h, send_waiting, erase_of_absent m.sender_ip_address n.datagrams_waiting h)
  | inr (q, h) ↦
      rw (h, send_waiting)
        (rw (
          send_queue-ok m.sender_ethernet_address q n
            (subst (λ o. All (λ d. d.header.ver ≡ 4) (or_empty o)) h v)))
]

-- What an ARP message is answered with.
abbrev pub replies : ArpMessage → NetworkInterface → List EthernetFrame
replies m n =
    if (m.opcode == opcode_request) && (m.target_ip_address == n.ip_address)
    then arp_frame_of m.sender_ethernet_address n (arp_reply m n) ∷ []
    else []

pub recv_arp-ok :
    (m : ArpMessage) (n : NetworkInterface)
    → All (λ d. d.header.ver ≡ 4) (waiting_for m.sender_ip_address n)
    → recv_arp m n
      ≡ ok (
        replies m n
            ++ map (frame_of m.sender_ethernet_address n) (waiting_for m.sender_ip_address n),
        record (learn m n) { datagrams_waiting = erase m.sender_ip_address n.datagrams_waiting },
      )
unfolding recv_arp learn arp_reply frame_of arp_frame_of waiting_for
recv_arp-ok m n v = rw (answer_request-ok m (learn m n)) (rw (send_waiting-ok m (learn m n) v))

-- Reading an ARP message never throws if the datagrams that wait for its sender are of version 4,
-- and does what `Resolved` says: it learns the address, answers a request for ours, and sends in
-- order what waited.
pub recv_arp-Resolved :
    (m : ArpMessage) (n : NetworkInterface)
    → All (λ d. d.header.ver ≡ 4) (waiting_for m.sender_ip_address n)
    → Ensures (Resolved m n) (recv_arp m n)
recv_arp-Resolved m n v = Ensures-of_eq (Resolved m n) _ _ (recv_arp-ok m n v) (record {
  frames = refl;
  learned = rw (learn-keeps m n m.sender_ip_address, eq_self m.sender_ip_address);
  drained = rw (
    lookup-erase m.sender_ip_address m.sender_ip_address n.datagrams_waiting,
    eq_self m.sender_ip_address,
  );
  others = λ ip ne. (
    rw (lookup-erase m.sender_ip_address ip n.datagrams_waiting, ne),
    rw (learn-keeps m n ip, ne),
  );
  requests = learn-requests m n;
})

present : {V : Type 0} (k : ℕ) (m : Map V) → contains k m ≡ true → lookup k m ≢ none
present k m h e = ground (arith, h, e, contains-lookup k m)

logged :
    (hop : ℕ) (n : NetworkInterface) → lookup hop (log_request hop n).arp_requests_waiting ≢ none
unfolding log_request
logged hop n =
    ground (arith, lookup-insert hop hop n.current_time n.arp_requests_waiting, eq_self hop)

pub send_unresolved-IsCoherent :
    (d : Ipv4Datagram) (hop : ℕ) (n : NetworkInterface)
    → lookup hop n.ip_ether_map ≡ none
    → IsCoherent n
    → Ensures (λ out. IsCoherent out.1) (send_datagram d hop n)
unfolding log_request
send_unresolved-IsCoherent d hop n h c = elim (Bool-cases (asked hop n)) [
  | inl a ↦
      Ensures-of_eq (λ out. IsCoherent out.1) _ _ (send_asked d hop n h a)
        (enqueue-IsCoherent hop d n (present hop n.arp_requests_waiting a) h c)
  | inr a ↦
      Ensures-of_eq (λ out. IsCoherent out.1) _ _ (send_fresh d hop n h a)
        (enqueue-IsCoherent hop d (log_request hop n) (logged hop n) h
          (log_request-IsCoherent hop n h c))
]

-- Once the queue of a message's sender is gone, its address may be known.
pub learn-IsCoherent :
    (m : ArpMessage) (n : NetworkInterface)
    → IsCoherent n
    → IsCoherent
        (record (learn m n) { datagrams_waiting = erase m.sender_ip_address n.datagrams_waiting })
unfolding learn
learn-IsCoherent m n c ip w = ground (
  arith,
  c ip,
  lookup-erase m.sender_ip_address ip n.datagrams_waiting,
  lookup-insert m.sender_ip_address ip
      (record { ether_addr = m.sender_ethernet_address; time_created = n.current_time })
      n.ip_ether_map,
)

-- Sending a datagram of version 4 keeps it true that datagrams wait only for unknown addresses that
-- have been asked for.
send_datagram-IsCoherent :
    (d : Ipv4Datagram) (hop : ℕ) (n : NetworkInterface)
    → d.header.ver ≡ 4
    → IsCoherent n
    → Ensures (λ out. IsCoherent out.1) (send_datagram d hop n)
send_datagram-IsCoherent d hop n v c = elim (Option-cases (lookup hop n.ip_ether_map)) [
  | inr (e, h) ↦ Ensures-of_eq (λ out. IsCoherent out.1) _ _ (send_known d hop n e v h) c
  | inl h ↦ send_unresolved-IsCoherent d hop n h c
]

-- If the datagrams that wait for its sender are of version 4, reading an ARP message keeps it true
-- that datagrams wait only for unknown addresses that have been asked for.
recv_arp-IsCoherent :
    (m : ArpMessage) (n : NetworkInterface)
    → All (λ d. d.header.ver ≡ 4) (waiting_for m.sender_ip_address n)
    → IsCoherent n
    → Ensures (λ out. IsCoherent out.1) (recv_arp m n)
recv_arp-IsCoherent m n v c =
    Ensures-of_eq (λ out. IsCoherent out.1) _ _ (recv_arp-ok m n v) (learn-IsCoherent m n c)
