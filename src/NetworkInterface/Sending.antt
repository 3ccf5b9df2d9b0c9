-- ===== src/NetworkInterface/Sending.antt =====
-- `send_datagram`: what is transmitted, what waits, and what is asked for.
use internet.Prelude.{
  ℕ, ◌≡◌, refl, sym, ap, ◌∙◌, inl, inr, Bool, true, false, Option, none, some, List, [], ◌∷◌, ◌++◌,
  map, arith, ◌==◌, if◌then◌else◌, Bool-cases, Option-cases, All, ok, Ensures, Ensures-of_eq,
}
use internet.Map.{lookup, contains, lookup-insert}
use internet.Wire.Ethernet.{EthernetAddress, ethernet_broadcast, type_ipv4, type_arp, EthernetFrame}
use internet.Wire.Arp.{ArpMessage, supported}
use internet.Wire.Arp.Total.{message_buffers, serialize-ok as arp_serialize-ok}
use internet.Wire.Ipv4.{Ipv4Datagram}
use internet.Wire.Ipv4.Total.{datagram_buffers, serialize-ok as ipv4_serialize-ok}
use internet.NetworkInterface.{
  NetworkInterface, ArpEntry, or_empty, datagram_frame, arp_frame, arp_request, enqueue,
  log_request, send_unresolved, send_datagram, send_queue,
}

-- A datagram's bytes in a frame from the interface to `dst`.
unfoldable pub frame_of : EthernetAddress → NetworkInterface → Ipv4Datagram → EthernetFrame
frame_of dst n d = record {
  header = record { dst = dst; src = n.ethernet_address; type = type_ipv4 };
  payload = datagram_buffers d;
}

-- An ARP message in a frame from the interface to `dst`.
unfoldable pub arp_frame_of : EthernetAddress → NetworkInterface → ArpMessage → EthernetFrame
arp_frame_of dst n m = record {
  header = record { dst = dst; src = n.ethernet_address; type = type_arp };
  payload = message_buffers m;
}

pub datagram_frame-ok :
    (dst : EthernetAddress) (d : Ipv4Datagram) (n : NetworkInterface)
    → d.header.ver ≡ 4
    → datagram_frame dst d n ≡ ok (frame_of dst n d)
unfolding datagram_frame frame_of
datagram_frame-ok dst d n v = rw (ipv4_serialize-ok d v)

pub arp_frame-ok :
    (dst : EthernetAddress) (m : ArpMessage) (n : NetworkInterface)
    → supported m ≡ true
    → arp_frame dst m n ≡ ok (arp_frame_of dst n m)
unfolding arp_frame arp_frame_of
arp_frame-ok dst m n s = rw (arp_serialize-ok m s)

pub send_queue-ok :
    (dst : EthernetAddress) (ds : List Ipv4Datagram) (n : NetworkInterface)
    → All (λ d. d.header.ver ≡ 4) ds
    → send_queue dst ds n ≡ ok (map (frame_of dst n) ds)
unfolding send_queue
send_queue-ok dst [] n a = refl
send_queue-ok dst (d ∷ ds) n a = rw (datagram_frame-ok dst d n a.0, send_queue-ok dst ds n a.1)

-- The datagrams that wait for an address.
unfoldable pub waiting_for : ℕ → NetworkInterface → List Ipv4Datagram
waiting_for ip n = or_empty (lookup ip n.datagrams_waiting)

-- Whether a request for the address was sent and has not expired.
abbrev pub asked : ℕ → NetworkInterface → Bool
asked ip n = contains ip n.arp_requests_waiting

-- What `send_datagram` does.
pub record SentTo (d : Ipv4Datagram) (hop : ℕ) (n : NetworkInterface)
    (out : List EthernetFrame × NetworkInterface) : Type 0 where
  -- To a known address the datagram goes at once, in one frame, and nothing else changes.
  pub known :
      (e : ArpEntry)
      → lookup hop n.ip_ether_map ≡ some e
      → out ≡ (frame_of e.ether_addr n d ∷ [], n)
  -- To an unknown one that has been asked for nothing is sent.
  pub pending :
      lookup hop n.ip_ether_map ≡ none
      → asked hop n ≡ true
      → (out.0 ≡ [])
        × (waiting_for hop out.1 ≡ waiting_for hop n ++ d ∷ [])
        × (out.1.arp_requests_waiting ≡ n.arp_requests_waiting)
  -- Otherwise the address is asked for by one broadcast.
  pub fresh :
      lookup hop n.ip_ether_map ≡ none
      → asked hop n ≡ false
      → (out.0 ≡ arp_frame_of ethernet_broadcast n (arp_request hop n) ∷ [])
        × (waiting_for hop out.1 ≡ d ∷ [])
        × (lookup hop out.1.arp_requests_waiting ≡ some n.current_time)
  -- Other queues, the received datagrams and the known addresses stay.
  pub others : (ip : ℕ) → (hop == ip) ≡ false → waiting_for ip out.1 ≡ waiting_for ip n
  pub received : out.1.datagrams_received ≡ n.datagrams_received
  pub mappings : out.1.ip_ether_map ≡ n.ip_ether_map

some_inj {ℓ} : {A : Type ℓ} {a b : A} → some a ≡ some b → a ≡ b
some_inj e = cc

pub or_empty_if :
    (b : Bool) (x y : Option (List Ipv4Datagram))
    → or_empty (if b then x else y) ≡ (if b then or_empty x else or_empty y)
or_empty_if true x y = refl
or_empty_if false x y = refl

pub send_known :
    (d : Ipv4Datagram) (hop : ℕ) (n : NetworkInterface) (e : ArpEntry)
    → d.header.ver ≡ 4
    → lookup hop n.ip_ether_map ≡ some e
    → send_datagram d hop n ≡ ok (frame_of e.ether_addr n d ∷ [], n)
unfolding send_datagram
send_known d hop n e v h = rw (h, send_datagram) (rw (datagram_frame-ok e.ether_addr d n v))

pub send_asked :
    (d : Ipv4Datagram) (hop : ℕ) (n : NetworkInterface)
    → lookup hop n.ip_ether_map ≡ none
    → asked hop n ≡ true
    → send_datagram d hop n ≡ ok ([], enqueue hop d n)
unfolding send_datagram send_unresolved
send_asked d hop n h a = rw (h, send_datagram) (rw (a, send_unresolved))

pub send_fresh :
    (d : Ipv4Datagram) (hop : ℕ) (n : NetworkInterface)
    → lookup hop n.ip_ether_map ≡ none
    → asked hop n ≡ false
    → send_datagram d hop n
      ≡ ok (
        arp_frame_of ethernet_broadcast n (arp_request hop n) ∷ [],
        enqueue hop d (log_request hop n),
      )
unfolding send_datagram send_unresolved arp_request supported
send_fresh d hop n h a =
    rw (h, send_datagram)
      (rw (a, send_unresolved) (rw (arp_frame-ok ethernet_broadcast (arp_request hop n) n refl)))

pub waiting-enqueue :
    (hop ip : ℕ) (d : Ipv4Datagram) (n : NetworkInterface)
    → waiting_for ip (enqueue hop d n)
      ≡ (if hop == ip then waiting_for hop n ++ d ∷ [] else waiting_for ip n)
unfolding waiting_for enqueue
waiting-enqueue hop ip d n =
    ap or_empty (
      lookup-insert hop ip (or_empty (lookup hop n.datagrams_waiting) ++ d ∷ [])
        n.datagrams_waiting)
    ∙ or_empty_if (hop == ip) _ _

pub waiting-log_request :
    (hop ip : ℕ) (n : NetworkInterface)
    → waiting_for ip (log_request hop n) ≡ (if hop == ip then [] else waiting_for ip n)
unfolding waiting_for log_request
waiting-log_request hop ip n =
    ap or_empty (lookup-insert hop ip [] n.datagrams_waiting) ∙ or_empty_if (hop == ip) _ _

pub eq_self : (k : ℕ) → (k == k) ≡ true
eq_self k = ground arith

-- `send_datagram` of a datagram of version 4 never throws, and does what `SentTo` says: it sends
-- the datagram to a known address, queues it for one that has been asked for, and otherwise asks
-- by one broadcast and queues it.
pub send_datagram-SentTo :
    (d : Ipv4Datagram) (hop : ℕ) (n : NetworkInterface)
    → d.header.ver ≡ 4
    → Ensures (SentTo d hop n) (send_datagram d hop n)
unfolding enqueue log_request
send_datagram-SentTo d hop n v = elim (Option-cases (lookup hop n.ip_ether_map)) [
  | inr (e, h) ↦ Ensures-of_eq (SentTo d hop n) _ _ (send_known d hop n e v h) (record {
    known = λ e' h'. ap (λ x. (frame_of x.ether_addr n d ∷ [], n)) (some_inj (sym h ∙ h'));
    pending = λ h'. cc;
    fresh = λ h'. cc;
    others = λ ip ne. refl;
    received = refl;
    mappings = refl;
  })
  | inl h ↦ elim (Bool-cases (asked hop n)) [
    | inl a ↦ Ensures-of_eq (SentTo d hop n) _ _ (send_asked d hop n h a) (queued h a)
    | inr a ↦ Ensures-of_eq (SentTo d hop n) _ _ (send_fresh d hop n h a) (requested h a)
  ]
]
  where
    queued :
        lookup hop n.ip_ether_map ≡ none → asked hop n ≡ true → SentTo d hop n ([], enqueue hop d n)
    queued h a = record {
      known = λ e' h'. cc;
      pending = λ _ _. (refl, rw (waiting-enqueue hop hop d n, eq_self hop), refl);
      fresh = λ _ a'. cc;
      others = λ ip ne. rw (waiting-enqueue hop ip d n, ne);
      received = refl;
      mappings = refl;
    }

    requested :
        lookup hop n.ip_ether_map ≡ none
        → asked hop n ≡ false
        → SentTo d hop n (
          arp_frame_of ethernet_broadcast n (arp_request hop n) ∷ [],
          enqueue hop d (log_request hop n),
        )
    requested h a = record {
      known = λ e' h'. cc;
      pending = λ _ a'. cc;
      fresh = λ _ _. (
        refl,
        rw (
          waiting-enqueue hop hop d (log_request hop n),
          waiting-log_request hop hop n,
          eq_self hop,
        ),
        lookup-insert hop hop n.current_time n.arp_requests_waiting
            ∙ ap (λ b. if b then some n.current_time else lookup hop n.arp_requests_waiting)
                (eq_self hop),
      );
      others = λ ip ne.
          rw (waiting-enqueue hop ip d (log_request hop n), ne, waiting-log_request hop ip n)
            (rw ne);
      received = refl;
      mappings = refl;
    }
