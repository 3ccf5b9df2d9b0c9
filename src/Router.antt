-- ===== src/Router.antt =====
-- src/router.hh and src/router.cc: longest-prefix-match routing between network interfaces. The
-- interfaces are distinct objects; a transmitted frame stands beside the index of its interface.
pub mod LongestPrefix
pub mod Forwarding
use Prim.Native.Nat.{bit_and}
use internet.Prelude.{
  ℕ, zero, suc, ◌+◌, ◌-◌, ◌*◌, ◌%◌, ◌^◌, Bool, true, ◌&&◌, Option, none, some, List, [], ◌∷◌, ◌++◌,
  map, ltb, leb, ◌==◌, if◌then◌else◌, length, get_elem?, set, u32_mod, Exec, ok, fault,
  out_of_range, ◌>>=◌, ◌>>◌,
}
use internet.Wire.Ethernet.{EthernetFrame}
use internet.Wire.Ipv4.{Ipv4Datagram, compute_checksum}
use internet.NetworkInterface.{NetworkInterface, send_datagram}

pub record Route : Type 0 where
  pub route_prefix : ℕ
  pub prefix_length : ℕ
  pub next_hop : Option ℕ
  pub interface_num : ℕ

pub record Router : Type 0 where
  pub interfaces : List NetworkInterface
  pub routes : List Route

unfoldable pub add_interface : NetworkInterface → Router → ℕ × Router
add_interface i r = (length r.interfaces, record r { interfaces = r.interfaces ++ i ∷ [] })

unfoldable pub add_route : ℕ → ℕ → Option ℕ → ℕ → Router → Router
add_route route_prefix prefix_length next_hop interface_num r = record r {
  routes =
      r.routes
      ++ record {
        route_prefix = route_prefix;
        prefix_length = prefix_length;
        next_hop = next_hop;
        interface_num = interface_num;
      }
        ∷ [];
}

-- The mask of a prefix of at most 32 bits; a longer one would be shifted by a negative number.
unfoldable pub mask : ℕ → ℕ
mask prefix_length =
    if prefix_length == 0 then 0 else (u32_mod - 1) * 2 ^ (32 - prefix_length) % u32_mod

unfoldable pub matches : ℕ → Route → Bool
matches dest r =
    bit_and dest (mask r.prefix_length) == bit_and r.route_prefix (mask r.prefix_length)

-- `route.prefix_length > max_length`, where -1 is `none`.
unfoldable pub is_longer : Route → Option Route → Bool
is_longer r none = true
is_longer r (some best) = ltb best.prefix_length r.prefix_length

-- The loop over the table; the best route so far stands for its index and length.
unfoldable pub best_route : ℕ → List Route → Option Route → Option Route
best_route dest [] best = best
best_route dest (r ∷ rs) best =
    best_route dest rs (if matches dest r && is_longer r best then some r else best)

abbrev pub Sent : Type 0
Sent = List (ℕ × EthernetFrame)

abbrev pub tagged : ℕ → List EthernetFrame → Sent
tagged i fs = map (λ f. (i, f)) fs

-- `interface( i )->send_datagram( … )`; `at` throws beyond the end.
unfoldable pub send_on :
    ℕ → Ipv4Datagram → ℕ → List NetworkInterface → Exec (Sent × List NetworkInterface)
send_on i d next_hop interfaces = elim (get_elem? interfaces i) [
  | none ↦ fault out_of_range
  | some n ↦ send_datagram d next_hop n >>= λ (fs, n'). ok (tagged i fs, set interfaces i n')
]

-- One datagram: dropped without a route or when its time is up, else sent to the next hop.
unfoldable pub forward :
    List Route → Ipv4Datagram → List NetworkInterface → Exec (Sent × List NetworkInterface)
forward routes d interfaces = elim (best_route d.header.dst routes none) [
  | none ↦ ok ([], interfaces)
  | some r ↦
      let aged = record (d.header) { ttl = d.header.ttl - 1 } in
      let next_hop : ℕ = elim r.next_hop [ some a ↦ a | none ↦ d.header.dst ] in
      let sent : Exec (Sent × List NetworkInterface) = compute_checksum aged >>= λ h.
      send_on r.interface_num (record d { header = h }) next_hop interfaces in
      if leb d.header.ttl 1 then ok ([], interfaces) else sent
]

-- The queue of received datagrams of an interface, taken out of it.
unfoldable pub forward_all :
    List Route → List Ipv4Datagram → List NetworkInterface → Exec (Sent × List NetworkInterface)
forward_all routes [] interfaces = ok ([], interfaces)
forward_all routes (d ∷ ds) interfaces = do
  (fs, interfaces') ← forward routes d interfaces
  (later, interfaces'') ← forward_all routes ds interfaces'
  ok (fs ++ later, interfaces'')

unfoldable pub take_queue : ℕ → List NetworkInterface → List Ipv4Datagram × List NetworkInterface
take_queue i interfaces = elim (get_elem? interfaces i) [
  | none ↦ ([], interfaces)
  | some n ↦ (n.datagrams_received, set interfaces i (record n { datagrams_received = [] }))
]

-- The loop over the interfaces: `todo` of them from index `i` on.
unfoldable pub route_from :
    List Route → ℕ → ℕ → List NetworkInterface → Exec (Sent × List NetworkInterface)
route_from routes zero i interfaces = ok ([], interfaces)
route_from routes (suc todo) i interfaces = do
  let (queue, emptied) = take_queue i interfaces
  (fs, interfaces') ← forward_all routes queue emptied
  (later, interfaces'') ← route_from routes todo (i + 1) interfaces'
  ok (fs ++ later, interfaces'')

unfoldable pub route : Router → Exec (Sent × Router)
route r = route_from r.routes (length r.interfaces) 0 r.interfaces >>= λ (fs, interfaces).
    ok (fs, record r { interfaces = interfaces })
