-- ===== src/NetworkInterface/Histories.antt =====
-- What holds of an interface after any history of calls.
use internet.Prelude.{
  ℕ, ◌≡◌, refl, sym, ap, subst, inl, inr, Option, none, some, List, [], ◌∷◌, ◌==◌, Option-cases,
  if_elim, Exec, ok, fault, ◌>>=◌, Ensures, Holds, Holds-bind, Holds-ok, Holds-any,
}
use internet.Map.{Map, lookup, erase, erase_of_absent}
use internet.Wire.Ethernet.{EthernetFrame, type_ipv4, type_arp}
use internet.Wire.Arp
use internet.Wire.Arp.{ArpMessage}
use internet.Wire.Ipv4
use internet.Wire.Ipv4.{Ipv4Datagram}
use internet.NetworkInterface.{
  NetworkInterface, datagram_frame, send_datagram, send_unresolved, learn, answer_request,
  send_queue, send_waiting, recv_arp, recv_datagram, recv_ipv4, recv_arp_payload, is_for,
  recv_frame, tick,
}
use internet.NetworkInterface.Waiting.{IsCoherent, learn-IsCoherent, send_unresolved-IsCoherent}
use internet.NetworkInterface.Expiry.{tick-IsCoherent}

-- A call of an interface; the frames that it transmits are left aside.
pub data Op : Type 0 where
  sends : Ipv4Datagram → (next_hop : ℕ) → Op
  receives : EthernetFrame → Op
  ticks : ℕ → Op

unfoldable pub step : Op → NetworkInterface → Exec NetworkInterface
unfolding send_datagram recv_frame tick
step (sends d next_hop) n = send_datagram d next_hop n >>= λ (_, n'). ok n'
step (receives f) n = recv_frame f n >>= λ (_, n'). ok n'
step (ticks ms) n = ok (tick ms n)

unfoldable pub run : List Op → NetworkInterface → Exec NetworkInterface
unfolding step
run [] n = ok n
run (o ∷ os) n = step o n >>= λ n'. run os n'

-- The state beside the frames.
abbrev Coherent : List EthernetFrame × NetworkInterface → Type 0
Coherent (_, n) = IsCoherent n

Holds-ensured : {A : Type 0} (P : A → Type 0) (m : Exec A) → Ensures P m → Holds P m
Holds-ensured P (ok a) h = h
Holds-ensured P (fault e) h = absurd h

Holds-option :
    {A B : Type 0} (P : A → Type 0) (o : Option B) (m : Exec A) (k : B → Exec A)
    → Holds P m
    → ((b : B) → Holds P (k b))
    → Holds P (elim o [ none ↦ m | some b ↦ k b ])
Holds-option P none m k h h' = h
Holds-option P (some b) m k h h' = h' b

send_datagram-Holds :
    (d : Ipv4Datagram) (hop : ℕ) (n : NetworkInterface)
    → IsCoherent n
    → Holds Coherent (send_datagram d hop n)
unfolding send_datagram
send_datagram-Holds d hop n c = elim (Option-cases (lookup hop n.ip_ether_map)) [
  | inl h ↦ Holds-ensured Coherent (send_datagram d hop n) (send_unresolved-IsCoherent d hop n h c)
  | inr (e, h) ↦
      subst
        (λ o. Holds Coherent (elim o [
          | some e ↦ datagram_frame e.ether_addr d n >>= λ f. ok (f ∷ [], n)
          | none ↦ send_unresolved d hop n
        ]))
        (sym h)
        (Holds-bind (λ _. Unit {0}) Coherent (datagram_frame e.ether_addr d n) _
          (Holds-any (datagram_frame e.ether_addr d n)) λ f _. c)
]

send_waiting-Holds :
    (m : ArpMessage) (n : NetworkInterface)
    → Holds
        (λ (_, n').
          n' ≡ record n { datagrams_waiting = erase m.sender_ip_address n.datagrams_waiting })
        (send_waiting m n)
unfolding send_waiting
send_waiting-Holds m n = go (lookup m.sender_ip_address n.datagrams_waiting) refl
  where
    P : List EthernetFrame × NetworkInterface → Type 0
    P (_, n') = n' ≡ record n { datagrams_waiting = erase m.sender_ip_address n.datagrams_waiting }

    go :
        (o : Option (List Ipv4Datagram))
        → lookup m.sender_ip_address n.datagrams_waiting ≡ o
        → Holds P (elim o [
          | none ↦ ok ([], n)
          | some queue ↦ send_queue m.sender_ethernet_address queue n >>= λ fs.
              ok
                (fs, record n { datagrams_waiting = erase m.sender_ip_address n.datagrams_waiting })
        ])
    go none e =
        ap (λ (w : Map (List Ipv4Datagram)). record n { datagrams_waiting = w })
          (sym (erase_of_absent m.sender_ip_address n.datagrams_waiting e))
    go (some queue) e =
        Holds-bind (λ _. Unit {0}) P (send_queue m.sender_ethernet_address queue n) _
          (Holds-any (send_queue m.sender_ethernet_address queue n)) λ fs _. refl

recv_arp-Holds :
    (m : ArpMessage) (n : NetworkInterface) → IsCoherent n → Holds Coherent (recv_arp m n)
unfolding recv_arp learn
recv_arp-Holds m n c =
    Holds-bind (λ _. Unit {0}) Coherent (answer_request m (learn m n)) _
      (Holds-any (answer_request m (learn m n)))
      λ reply _.
        Holds-bind
          (λ (_, n'). n' ≡ record (learn m n) {
            datagrams_waiting = erase m.sender_ip_address n.datagrams_waiting;
          })
          Coherent (send_waiting m (learn m n)) _ (send_waiting-Holds m (learn m n))
          λ (fs, n') e. subst IsCoherent (sym e) (learn-IsCoherent m n c)

recv_frame-Holds :
    (f : EthernetFrame) (n : NetworkInterface) → IsCoherent n → Holds Coherent (recv_frame f n)
unfolding recv_frame recv_ipv4 recv_arp_payload recv_datagram
recv_frame-Holds f n c =
    if_elim (Holds Coherent) (is_for f.header.dst n) _ _
      (λ _.
        if_elim (Holds Coherent) (f.header.type == type_ipv4) _ _
          (λ _.
            Holds-bind (λ _. Unit {0}) Coherent (Ipv4.parse f.payload) _
              (Holds-any (Ipv4.parse f.payload))
              λ o _.
                Holds-option Coherent o (ok ([], n)) (λ d. ok ([], recv_datagram d n)) c λ d. c)
          λ _.
            if_elim (Holds Coherent) (f.header.type == type_arp) _ _
              (λ _.
                Holds-bind (λ _. Unit {0}) Coherent (Arp.parse f.payload) _
                  (Holds-any (Arp.parse f.payload))
                  λ o _.
                    Holds-option Coherent o (ok ([], n)) (λ m. recv_arp m n) c
                      λ m. recv_arp-Holds m n c)
              λ _. c)
      λ _. c

step-Holds : (o : Op) (n : NetworkInterface) → IsCoherent n → Holds IsCoherent (step o n)
unfolding step
step-Holds (sends d hop) n c =
    Holds-bind Coherent IsCoherent (send_datagram d hop n) _ (send_datagram-Holds d hop n c)
      λ (_, n') h. h
step-Holds (receives f) n c =
    Holds-bind Coherent IsCoherent (recv_frame f n) _ (recv_frame-Holds f n c) λ (_, n') h. h
step-Holds (ticks ms) n c = tick-IsCoherent ms n c

run-Holds : (os : List Op) (n : NetworkInterface) → IsCoherent n → Holds IsCoherent (run os n)
unfolding run
run-Holds [] n c = c
run-Holds (o ∷ os) n c =
    Holds-bind IsCoherent IsCoherent (step o n) _ (step-Holds o n c) λ n' c'. run-Holds os n' c'

-- After every history of datagrams that are sent, frames that arrive and time that passes, in which
-- nothing was thrown, datagrams wait only for addresses that are not known and have been asked for,
-- where that was so before.
pub run-IsCoherent :
    (os : List Op) (n n' : NetworkInterface) → run os n ≡ ok n' → IsCoherent n → IsCoherent n'
run-IsCoherent os n n' e c = Holds-ok IsCoherent (run os n) n' (run-Holds os n c) e
