-- ===== src/FunRouter.antt =====
-- apps/fun_router.cc: the router program, whose network interfaces send Ethernet frames in UDP
-- datagrams. How texts are read as addresses and numbers, the random bytes, the sockets, the system
-- of states `K` and its clock are parameters, and so is the type `A` of physical addresses. Ports
-- and interfaces are shared objects, which the program and the router know by their index.
pub mod Configuration
use internet.Prelude.{
  ℕ, ◌%◌, Bool, true, false, ◌&&◌, Option, none, some, List, [], ◌∷◌, ◌++◌, map, ◌==◌,
  if◌then◌else◌, length, get_elem?, set, Bytes, Exec, ok, fault, runtime_error, out_of_range, ◌>>=◌,
}
use internet.EthernetAdapter.{ticked}
use internet.FileDescriptor.{FdWrapper, Returned, enlarge_last}
use internet.NetworkInterface
use internet.NetworkInterface.{NetworkInterface, recv_frame}
use internet.Router.{Router, Sent, add_interface, add_route, route}
use internet.Socket.{Received, recv_buffers, send_buffers}
use internet.Wire.Ethernet
use internet.Wire.Ethernet.{EthernetAddress, EthernetFrame}

-- The loop of `split_config`; `field` is what has been read since the last colon. The source's
-- indices have 32 bits, which a text of less than 2^32 bytes does not exceed.
unfoldable pub split_from : Bytes → Bytes → List Bytes
split_from field [] = field ∷ []
split_from field (ch ∷ rest) =
    let next = split_from [] rest in
    let longer = split_from (field ++ ch ∷ []) rest in if ch == 58 then field ∷ next else longer

unfoldable pub split_config : Bytes → List Bytes
unfolding split_from
split_config str = split_from [] str

unfoldable pub same_string : Bytes → Bytes → Bool
same_string [] [] = true
same_string [] (b ∷ bs) = false
same_string (a ∷ as') [] = false
same_string (a ∷ as') (b ∷ bs) = (a == b) && same_string as' bs

-- "interface" and "route".
abbrev pub interface_word : Bytes
interface_word = 105 ∷ 110 ∷ 116 ∷ 101 ∷ 114 ∷ 102 ∷ 97 ∷ 99 ∷ 101 ∷ []

abbrev pub route_word : Bytes
route_word = 114 ∷ 111 ∷ 117 ∷ 116 ∷ 101 ∷ []

-- `iface_name_to_idx`.
unfoldable pub index_of : Bytes → List (Bytes × ℕ) → Option ℕ
unfolding same_string
index_of name [] = none
index_of name ((other, i) ∷ names) = if same_string other name then some i else index_of name names

-- The first three bytes of a random address are set.
unfoldable pub random_router_ethernet_address : EthernetAddress → EthernetAddress
random_router_ethernet_address addr = set (set (set addr 0 2) 1 0) 2 0

-- `Ethernet_over_UDP`.
pub record EthernetOverUdp (A : Type 0) : Type 0 where
  pub socket : FdWrapper
  pub physical_dest : A

pub record Setup (A : Type 0) : Type 0 where
  pub router : Router
  pub ports : List (EthernetOverUdp A)
  pub interfaces : List ℕ
  pub iface_name_to_idx : List (Bytes × ℕ)

module _ {A : Type 0} (address : Bytes → Exec ℕ) (stoi : Bytes → Exec ℕ)
    (physical_address : Bytes → Bytes → Exec A) (bound_socket : Bytes → Exec FdWrapper)
    (random : ℕ → EthernetAddress) where
  -- A new interface, which is the next in all three sequences.
  unfoldable pub new_interface :
      (name virtual_addr physical_local_port physical_dest_addr physical_dest_port : Bytes)
      → Setup A
      → Exec (Setup A)
  unfolding index_of random_router_ethernet_address NetworkInterface.init add_interface
  new_interface name virtual_addr local_port dest_addr dest_port s =
      elim (index_of name s.iface_name_to_idx) [
        | some i ↦ fault runtime_error
        | none ↦ physical_address dest_addr dest_port >>= λ physical_dest.
            bound_socket local_port >>= λ socket. address virtual_addr >>= λ ip.
            let ethernet = random_router_ethernet_address (random (length s.interfaces)) in
            let (i, router) = add_interface (NetworkInterface.init ethernet ip) s.router in
            ok (record {
              router = router;
              ports = s.ports ++ record { socket = socket; physical_dest = physical_dest } ∷ [];
              interfaces = s.interfaces ++ i ∷ [];
              iface_name_to_idx = (name, length s.interfaces) ∷ s.iface_name_to_idx;
            })
      ]

  -- The next hop is the fifth field, if there is one.
  unfoldable pub next_hop_of : List Bytes → Exec (Option ℕ)
  next_hop_of [] = ok none
  next_hop_of (hop ∷ more) = address hop >>= λ a. ok (some a)

  unfoldable pub new_route :
      (prefix_addr prefix_len iface_name : Bytes) → List Bytes → Setup A → Exec (Setup A)
  unfolding index_of next_hop_of add_route
  new_route prefix_addr prefix_len iface_name hop s = next_hop_of hop >>= λ next_hop.
      elim (index_of iface_name s.iface_name_to_idx) [
        | none ↦ fault runtime_error
        | some i ↦ address prefix_addr >>= λ route_prefix. stoi prefix_len >>= λ prefix_length.
            ok (record s {
              router = add_route route_prefix (prefix_length % 256) next_hop i s.router;
            })
      ]

  -- The numbers of fields that each kind has.
  unfoldable pub interface_fields : List Bytes → Setup A → Exec (Setup A)
  unfolding new_interface
  interface_fields (name ∷ addr ∷ local ∷ dest ∷ port ∷ []) s =
      new_interface name addr local dest port s
  interface_fields fields s = fault runtime_error

  unfoldable pub route_fields : List Bytes → Setup A → Exec (Setup A)
  unfolding new_route
  route_fields (addr ∷ len ∷ name ∷ []) s = new_route addr len name [] s
  route_fields (addr ∷ len ∷ name ∷ hop ∷ []) s = new_route addr len name (hop ∷ []) s
  route_fields fields s = fault runtime_error

  unfoldable pub apply_fields : List Bytes → Setup A → Exec (Setup A)
  unfolding interface_fields route_fields same_string
  apply_fields [] s = fault out_of_range
  apply_fields (word ∷ fields) s =
      if same_string word interface_word
      then interface_fields fields s
      else (if same_string word route_word then route_fields fields s else fault runtime_error)

  unfoldable pub apply_each : List Bytes → Setup A → Exec (Setup A)
  unfolding apply_fields split_config
  apply_each [] s = ok s
  apply_each (config ∷ configs) s =
      apply_fields (split_config config) s >>= λ s'. apply_each configs s'

  -- `configs` are the arguments behind the program's name.
  unfoldable pub apply_configs : List Bytes → Setup A → Exec (Setup A)
  unfolding apply_each
  apply_configs [] s = fault runtime_error
  apply_configs (config ∷ configs) s = apply_each (config ∷ configs) s

abbrev pub no_setup : {A : Type 0} → Setup A
no_setup = record {
  router = record { interfaces = []; routes = [] };
  ports = [];
  interfaces = [];
  iface_name_to_idx = [];
}

-- The running program.
pub record Program (A K : Type 0) : Type 0 where
  pub router : Router
  pub ports : List (EthernetOverUdp A)
  pub last_tick : ℕ
  pub system : K

module _ {A K : Type 0} (timestamp_ms : K → ℕ) (sys_recvmsg : List ℕ → K → Received A × K)
    (sys_sendmsg : List Bytes → Option A → K → Returned × K) where
  unfoldable pub transmit : ℕ → EthernetFrame → Program A K → Exec (Program A K)
  unfolding send_buffers Ethernet.serialize
  transmit i x p = elim (get_elem? p.ports i) [
    | none ↦ fault out_of_range
    | some port ↦
        send_buffers sys_sendmsg (Ethernet.serialize x) (some port.physical_dest) port.socket
          p.system
        >>= λ (socket, system).
            ok (record p {
              ports = set p.ports i (record port { socket = socket });
              system = system;
            })
  ]

  unfoldable pub transmit_all : Sent → Program A K → Exec (Program A K)
  unfolding transmit
  transmit_all [] p = ok p
  transmit_all ((i, x) ∷ xs) p = transmit i x p >>= λ p'. transmit_all xs p'

  -- A frame for an interface.
  unfoldable pub hand_off : ℕ → EthernetFrame → Program A K → Exec (Program A K)
  unfolding recv_frame transmit_all
  hand_off i frame p = elim (get_elem? p.router.interfaces i) [
    | none ↦ fault out_of_range
    | some iface ↦ recv_frame frame iface >>= λ (frames, iface').
        transmit_all (map (λ f. (i, f)) frames) (record p {
          router = record (p.router) { interfaces = set p.router.interfaces i iface' };
        })
  ]

  -- The callback of the rule of an interface.
  unfoldable pub incoming : ℕ → Program A K → Exec (Program A K)
  unfolding recv_buffers enlarge_last Ethernet.parse hand_off
  incoming i p = elim (get_elem? p.ports i) [
    | none ↦ fault out_of_range
    | some port ↦ do
      let sizes = 14 ∷ 0 ∷ []
      let system = (sys_recvmsg (enlarge_last sizes) p.system).1
      (_, buffers, socket) ←
          recv_buffers sizes (λ sizes. (sys_recvmsg sizes p.system).0) port.socket
      let p' = record p { ports = set p.ports i (record port { socket = socket }); system = system }
      frame ← Ethernet.parse buffers
      elim frame [ none ↦ ok p' | some f ↦ hand_off i f p' ]
  ]

  -- The body of the loop after the event.
  unfoldable pub after_event : Program A K → Exec (Program A K)
  unfolding ticked route transmit_all
  after_event p =
      let new_tick = timestamp_ms p.system in
      let router = record (p.router) {
        interfaces = map (ticked new_tick p.last_tick) p.router.interfaces;
      } in
      route router >>= λ (sent, router').
      transmit_all sent (record p { router = router'; last_tick = new_tick })
