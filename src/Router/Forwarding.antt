-- ===== src/Router/Forwarding.antt =====
-- What the router does with one datagram.
use internet.Prelude.{
  ℕ, ◌-◌, ◌≤◌, ◌<◌, ◌≡◌, refl, sym, subst, inl, inr, false, Option, none, some, List, [], arith,
  leb, if◌then◌else◌, Bool-cases, Option-cases, get_elem?, set, All, Exec, ok, fault, Ensures,
}
use internet.Wire.Ipv4.{Ipv4Datagram}
use internet.Wire.Ipv4.Total.{with_checksum, compute_checksum-ok}
use internet.Wire.Ethernet.{EthernetFrame}
use internet.NetworkInterface.{NetworkInterface, send_datagram}
use internet.NetworkInterface.Sending.{SentTo, send_datagram-SentTo}
use internet.Router.{Route, Sent, tagged, matches, best_route, send_on, forward}
use internet.Router.LongestPrefix.{IsBest, Best, best_route_lem}

-- The datagram as the router passes it on: a hop less, with a new checksum.
unfoldable pub aged : Ipv4Datagram → Ipv4Datagram
aged d = record d { header = with_checksum (record (d.header) { ttl = d.header.ttl - 1 }) }

unfoldable pub next_hop_of : Route → Ipv4Datagram → ℕ
next_hop_of r d = elim r.next_hop [ some a ↦ a | none ↦ d.header.dst ]

-- The three fates of a datagram: no route matches it, its time is up, or it goes one hop older
-- through the interface of the longest match, to that route's next hop or else to its destination.
pub data Forwarded (routes : List Route) (d : Ipv4Datagram) (interfaces : List NetworkInterface)
    (out : Exec (Sent × List NetworkInterface)) : Type 0 where
  unreachable :
      All (λ q. matches d.header.dst q ≡ false) routes
      → out ≡ ok ([], interfaces)
      → Forwarded routes d interfaces out
  expired : d.header.ttl ≤ 1 → out ≡ ok ([], interfaces) → Forwarded routes d interfaces out
  passed_on :
      (r : Route)
      → IsBest d.header.dst routes r
      → 1 < d.header.ttl
      → out ≡ send_on r.interface_num (aged d) (next_hop_of r d) interfaces
      → Forwarded routes d interfaces out

-- `forward` by the route that was found.
abbrev along :
    Option Route → Ipv4Datagram → List NetworkInterface → Exec (Sent × List NetworkInterface)
along none d interfaces = ok ([], interfaces)
along (some r) d interfaces =
    if leb d.header.ttl 1
    then ok ([], interfaces)
    else send_on r.interface_num (aged d) (next_hop_of r d) interfaces

forward-along :
    (routes : List Route) (d : Ipv4Datagram) (interfaces : List NetworkInterface)
    → d.header.ver ≡ 4
    → forward routes d interfaces ≡ along (best_route d.header.dst routes none) d interfaces
unfolding forward aged next_hop_of
forward-along routes d interfaces v = elim (Option-cases (best_route d.header.dst routes none)) [
  | inl e ↦ rw (e, forward)
  | inr (r, e) ↦
      rw (e, forward) (rw (compute_checksum-ok (record (d.header) { ttl = d.header.ttl - 1 }) v))
]

along-Forwarded :
    (routes : List Route) (d : Ipv4Datagram) (interfaces : List NetworkInterface) (o : Option Route)
    → Best d.header.dst routes o
    → Forwarded routes d interfaces (along o d interfaces)
along-Forwarded routes d interfaces none b = unreachable b refl
along-Forwarded routes d interfaces (some r) b = elim (Bool-cases (leb d.header.ttl 1)) [
  | inl e ↦ expired (ground arith) (rw e refl)
  | inr e ↦ passed_on r b (ground arith) (rw e refl)
]

-- Every datagram of version 4 has one of the three fates of `Forwarded`: no route matches and it is
-- dropped, its time is up and it is dropped, or it goes one hop older along the longest match.
pub forward-Forwarded :
    (routes : List Route) (d : Ipv4Datagram) (interfaces : List NetworkInterface)
    → d.header.ver ≡ 4
    → Forwarded routes d interfaces (forward routes d interfaces)
forward-Forwarded routes d interfaces v =
    subst (Forwarded routes d interfaces) (sym (forward-along routes d interfaces v))
      (along-Forwarded routes d interfaces _ (best_route_lem d.header.dst routes))

-- Through an interface that exists, a datagram of version 4 goes out as `SentTo` says, and the
-- other interfaces stay.
pub send_on-SentTo :
    (i : ℕ) (d : Ipv4Datagram) (hop : ℕ) (interfaces : List NetworkInterface) (n : NetworkInterface)
    → d.header.ver ≡ 4
    → get_elem? interfaces i ≡ some n
    → (out : List EthernetFrame × NetworkInterface) × SentTo d hop n out
      × (send_on i d hop interfaces ≡ ok (tagged i out.0, set interfaces i out.1))
unfolding send_on
send_on-SentTo i d hop interfaces n v e =
    go (send_datagram d hop n) refl (send_datagram-SentTo d hop n v)
  where
    go :
        (m : Exec (List EthernetFrame × NetworkInterface))
        → send_datagram d hop n ≡ m
        → Ensures (SentTo d hop n) m
        → (out : List EthernetFrame × NetworkInterface) × SentTo d hop n out
          × (send_on i d hop interfaces ≡ ok (tagged i out.0, set interfaces i out.1))
    go (ok out) h s = (out, s, rw (e, send_on) (rw h))
    go (fault f) h s = absurd s
