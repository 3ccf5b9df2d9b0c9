-- ===== src/NetworkInterface/Expiry.antt =====
-- `tick`: what becomes of the mappings, the requests and the datagrams that wait.
use internet.Prelude.{
  ℕ, ◌+◌, ◌≤◌, ◌<◌, ◌≡◌, refl, subst, ◌≢◌, Option, none, some, List, [], ◌∷◌, arith, ltb,
  if◌then◌else◌, All, u64_mod, add64, sub64,
}
use internet.Map.{Map, Distinct, lookup, erase, lookup-erase}
use internet.NetworkInterface.{NetworkInterface, ArpEntry, expire_mappings, expire_requests, tick}
use internet.NetworkInterface.Waiting.{IsCoherent}
use internet.Wire.Ipv4.{Ipv4Datagram}

expire_mappings-none :
    (now ip : ℕ) (m : Map ArpEntry) → lookup ip m ≡ none → lookup ip (expire_mappings now m) ≡ none
unfolding lookup expire_mappings
expire_mappings-none now ip [] h = refl
expire_mappings-none now ip ((k, e) ∷ m) h = ground (arith, expire_mappings-none now ip m)

-- What is left at `now` of an entry that lasts `limit` milliseconds.
module _ {V : Type 0} (time : V → ℕ) (limit now : ℕ) where
  abbrev pub left : Option V → Option V
  left none = none
  left (some v) = if ltb (time v + limit) now then none else some v

-- Nothing was made after `now`.
abbrev pub Past : {V : Type 0} → (V → ℕ) → ℕ → Map V → Type 0
Past time now = All (λ (k, v). time v ≤ now)

Past-mono :
    {V : Type 0} (time : V → ℕ) (now later : ℕ) (m : Map V)
    → now ≤ later
    → Past time now m
    → Past time later m
Past-mono time now later [] h a = tt
Past-mono time now later ((k, v) ∷ m) h a = (omega arith, Past-mono time now later m h a.1)

lookup-expire_mappings :
    (now ip : ℕ) (m : Map ArpEntry)
    → now < u64_mod
    → Distinct m
    → Past (λ e. e.time_created) now m
    → lookup ip (expire_mappings now m) ≡ left (λ e. e.time_created) 30000 now (lookup ip m)
unfolding lookup expire_mappings
lookup-expire_mappings now ip [] w d p = refl
lookup-expire_mappings now ip ((k, e) ∷ m) w d p = ground (
  arith,
  lookup-expire_mappings now ip m w d.1 p.1,
  λ (h : k ≡ ip). subst (λ j. lookup j m ≡ none) h d.0,
)

-- A queue that is left was there, and so was and is its request.
expire_requests-kept :
    (now ip : ℕ) (m : Map ℕ) (w : Map _)
    → lookup ip (expire_requests now m w).1 ≢ none
    → (lookup ip w ≢ none) × (lookup ip m ≢ none → lookup ip (expire_requests now m w).0 ≢ none)
unfolding lookup expire_requests
expire_requests-kept now ip [] w h = (h, λ r. r)
expire_requests-kept now ip ((k, sent) ∷ m) w h =
    let later =
      expire_requests-kept now ip m (if ltb 5000 (sub64 now sent) then erase k w else w) h in
    (
      ground (arith, later.0, lookup-erase k ip w),
      λ r. ground (arith, r, later.0, later.1, lookup-erase k ip w),
    )

-- `tick` keeps it true that datagrams wait only for unknown addresses that have been asked for.
pub tick-IsCoherent : (ms : ℕ) (n : NetworkInterface) → IsCoherent n → IsCoherent (tick ms n)
unfolding tick
tick-IsCoherent ms n c ip w =
    let kept =
      expire_requests-kept (add64 n.current_time ms) ip n.arp_requests_waiting n.datagrams_waiting
        w in
    (
      kept.1 (c ip kept.0).0,
      expire_mappings-none (add64 n.current_time ms) ip n.ip_ether_map (c ip kept.0).1,
    )

-- What is left at `now` of a queue that waits for the reply to a request.
abbrev pub queue_left :
    (now : ℕ) → (request : Option ℕ) → Option (List Ipv4Datagram) → Option (List Ipv4Datagram)
queue_left now none queue = queue
queue_left now (some sent) queue = if ltb (sent + 5000) now then none else queue

-- The requests that are left, and their queues.
lookup-expire_requests :
    (now ip : ℕ) (m : Map ℕ) (w : Map (List Ipv4Datagram))
    → now < u64_mod
    → Distinct m
    → Past (λ sent. sent) now m
    → (lookup ip (expire_requests now m w).0 ≡ left (λ sent. sent) 5000 now (lookup ip m))
      × (lookup ip (expire_requests now m w).1 ≡ queue_left now (lookup ip m) (lookup ip w))
unfolding lookup expire_requests
lookup-expire_requests now ip [] w h d p = (refl, refl)
lookup-expire_requests now ip ((k, sent) ∷ m) w h d p =
    let later =
      lookup-expire_requests now ip m (if ltb 5000 (sub64 now sent) then erase k w else w) h d.1
        p.1 in
    (
      ground (arith, later.0, λ (e : k ≡ ip). subst (λ j. lookup j m ≡ none) e d.0),
      ground (
        arith,
        later.1,
        lookup-erase k ip w,
        λ (e : k ≡ ip). subst (λ j. lookup j m ≡ none) e d.0,
      ),
    )

-- Where the tables have one entry for each address, none of them from the future, and the time stays
-- below 2^64, `tick` adds the milliseconds to the time and keeps for every address exactly the
-- mapping that is at most 30 seconds old then, the request that is at most 5 seconds old, and the
-- queue of datagrams, unless it waits for a request that is older. The interface's addresses and
-- the datagrams it has received stay.
pub tick-left :
    (ms ip : ℕ) (n : NetworkInterface)
    → n.current_time + ms < u64_mod
    → Distinct n.ip_ether_map
    → Distinct n.arp_requests_waiting
    → Past (λ e. e.time_created) n.current_time n.ip_ether_map
    → Past (λ sent. sent) n.current_time n.arp_requests_waiting
    → let now = n.current_time + ms in
      let n' = tick ms n in
      (n'.current_time ≡ now)
      × (lookup ip n'.ip_ether_map
          ≡ left (λ e. e.time_created) 30000 now (lookup ip n.ip_ether_map))
      × (lookup ip n'.arp_requests_waiting
          ≡ left (λ sent. sent) 5000 now (lookup ip n.arp_requests_waiting))
      × (lookup ip n'.datagrams_waiting
          ≡ queue_left now (lookup ip n.arp_requests_waiting) (lookup ip n.datagrams_waiting))
      × (n'.ethernet_address ≡ n.ethernet_address)
      × (n'.ip_address ≡ n.ip_address)
      × (n'.datagrams_received ≡ n.datagrams_received)
unfolding tick
tick-left ms ip n w dm dr pm pr =
    let now = n.current_time + ms in
    let requests =
      lookup-expire_requests now ip n.arp_requests_waiting n.datagrams_waiting w dr
        (Past-mono (λ sent. sent) n.current_time now n.arp_requests_waiting (omega arith) pr) in
    rw (time_lem n.current_time ms w) (
      refl,
      lookup-expire_mappings now ip n.ip_ether_map w dm
          (Past-mono (λ e. e.time_created) n.current_time now n.ip_ether_map (omega arith) pm),
      requests.0,
      requests.1,
      refl,
      refl,
      refl,
    )
  where
    time_lem : (now ms : ℕ) → now + ms < u64_mod → add64 now ms ≡ now + ms
    time_lem now ms h = omega arith
