-- ===== src/EthernetAdapter.antt =====
-- apps/tcp_eth_udp.cc: the adapter that carries TCP messages in IPv4 datagrams, these in Ethernet
-- frames, and these in UDP datagrams. The system, of states `K`, its clock and what its calls return
-- are parameters, and so is the type `A` of physical addresses. The frames that the interface
-- transmits are sent in order after the operation that transmits them. The socket class at the end
-- has the addresses it sets; what it inherits is MinnowSocket.
pub mod Frames
pub mod Delivery
use internet.Prelude.{
  ℕ, ◌*◌, ◌%◌, Bool, true, false, Option, none, some, List, [], ◌∷◌, ltb, if◌then◌else◌, Bytes,
  u64_mod, sub64, Exec, ok, fault, runtime_error, ◌>>=◌, ◌&&◌, not, ◌==◌, u16_mod,
}
use internet.FileDescriptor.{FdWrapper, Returned, enlarge_last}
use internet.LossyFdAdapter.{Adapter}
use internet.NetworkInterface
use internet.NetworkInterface.{NetworkInterface, recv_frame, send_datagram}
use internet.Socket.{Received, recv_buffers, send_buffers}
use internet.Tcp.Messages.{TcpMessage}
use internet.Wire.Ethernet
use internet.Wire.Ethernet.{EthernetFrame}
use internet.Wire.Ipv4.{Ipv4Datagram, header_length}
use internet.Wire.TcpOverIp.{Endpoint, TcpOverIpv4Adapter, unwrap_tcp_in_ip, wrap_tcp_in_ip}

-- `Ethernet_over_UDP`, the output port.
pub record EthernetOverUdp (A : Type 0) : Type 0 where
  pub socket : FdWrapper
  pub physical_dest : Option A

pub record EthernetAdapter (A K : Type 0) : Type 0 where
  pub adapter : TcpOverIpv4Adapter
  pub loss_rate_dn : ℕ
  pub loss_rate_up : ℕ
  pub output : EthernetOverUdp A
  pub interface : NetworkInterface
  pub next_hop : ℕ
  pub last_tick : ℕ
  pub system : K

-- The sizes of the four strings: the headers of Ethernet, IPv4 and TCP, and one that is made larger.
-- The strings are a member, but every call finds these sizes: the first three are set, and the last
-- is empty, since the parser has moved it out, or has after an exception the size to which it was
-- made larger.
abbrev pub incoming_datagram : List ℕ
incoming_datagram = 14 ∷ header_length ∷ 20 ∷ 0 ∷ []

unfoldable pub connect_output : {A : Type 0} → A → EthernetOverUdp A → EthernetOverUdp A
connect_output physical_dest o = record o { physical_dest = some physical_dest }

-- The physical reply address is set if there is none.
unfoldable pub reply_to : {A : Type 0} → A → EthernetOverUdp A → EthernetOverUdp A
unfolding connect_output
reply_to incoming_address o = elim o.physical_dest [
  | none ↦ connect_output incoming_address o
  | some to ↦ o
]

-- The time that has passed, at five times the speed.
unfoldable pub ticked : ℕ → ℕ → NetworkInterface → NetworkInterface
unfolding NetworkInterface.tick
ticked new_tick last_tick n =
    if ltb last_tick new_tick
    then NetworkInterface.tick (sub64 new_tick last_tick * 5 % u64_mod) n
    else n

unfoldable pub none_ready : List Ipv4Datagram → Bool
none_ready [] = true
none_ready (d ∷ ds) = false

module _ {A K : Type 0} (junk : ℕ) (timestamp_ms : K → ℕ)
    (sys_recvmsg : List ℕ → K → Received A × K)
    (sys_sendmsg : List Bytes → Option A → K → Returned × K) where
  unfoldable pub tick_network_interface : EthernetAdapter A K → EthernetAdapter A K
  unfolding ticked
  tick_network_interface t =
      let new_tick = timestamp_ms t.system in
      record t { interface = ticked new_tick t.last_tick t.interface; last_tick = new_tick }

  unfoldable pub transmit : EthernetFrame → EthernetAdapter A K → Exec (EthernetAdapter A K)
  unfolding send_buffers Ethernet.serialize
  transmit x t = elim t.output.physical_dest [
    | none ↦ fault runtime_error
    | some to ↦
        send_buffers sys_sendmsg (Ethernet.serialize x) (some to) t.output.socket t.system
        >>= λ (socket, system).
            ok (record t { output = record (t.output) { socket = socket }; system = system })
  ]

  unfoldable pub transmit_all :
      List EthernetFrame → EthernetAdapter A K → Exec (EthernetAdapter A K)
  unfolding transmit
  transmit_all [] t = ok t
  transmit_all (x ∷ xs) t = transmit x t >>= λ t'. transmit_all xs t'

  -- The datagram that the interface has received, if there is one.
  unfoldable pub take_datagram :
      List Ipv4Datagram → EthernetAdapter A K → Exec (Option TcpMessage × EthernetAdapter A K)
  unfolding unwrap_tcp_in_ip
  take_datagram [] t = ok (none, t)
  take_datagram (dgram ∷ []) t = unwrap_tcp_in_ip junk dgram t.adapter >>= λ (message, adapter).
      ok (
        message,
        record t {
          adapter = adapter;
          interface = record (t.interface) { datagrams_received = [] };
        },
      )
  take_datagram (dgram ∷ other ∷ others) t = fault runtime_error

  -- A frame from a physical address.
  unfoldable pub receive :
      A → EthernetFrame → EthernetAdapter A K → Exec (Option TcpMessage × EthernetAdapter A K)
  unfolding reply_to recv_frame transmit_all take_datagram
  receive incoming_address frame t = do
    let connected = record t { output = reply_to incoming_address t.output }
    (frames, interface) ← recv_frame frame connected.interface
    t' ← transmit_all frames (record connected { interface = interface })
    take_datagram t'.interface.datagrams_received t'

  unfoldable pub receive_buffers :
      A → List Bytes → EthernetAdapter A K → Exec (Option TcpMessage × EthernetAdapter A K)
  unfolding Ethernet.parse receive
  receive_buffers incoming_address buffers t = Ethernet.parse buffers >>= λ o. elim o [
    | none ↦ ok (none, t)
    | some frame ↦ receive incoming_address frame t
  ]

  unfoldable pub read : EthernetAdapter A K → Exec (Option TcpMessage × EthernetAdapter A K)
  unfolding tick_network_interface none_ready recv_buffers enlarge_last receive_buffers
  read t₀ =
      let t = tick_network_interface t₀ in
      let system = (sys_recvmsg (enlarge_last incoming_datagram) t.system).1 in
      if none_ready t.interface.datagrams_received
      then (recv_buffers incoming_datagram (λ sizes. (sys_recvmsg sizes t.system).0) t.output.socket
          >>= λ (incoming_address, buffers, socket).
              receive_buffers incoming_address buffers
                (record t { output = record (t.output) { socket = socket }; system = system }))
      else fault runtime_error

  unfoldable pub write : TcpMessage → EthernetAdapter A K → Exec (EthernetAdapter A K)
  unfolding tick_network_interface wrap_tcp_in_ip send_datagram transmit_all
  write msg t₀ = do
    let t = tick_network_interface t₀
    dgram ← wrap_tcp_in_ip msg t.adapter
    (frames, interface) ← send_datagram dgram t.next_hop t.interface
    transmit_all frames (record t { interface = interface })

  -- What the socket uses.
  unfoldable pub ethernet_adapter : Adapter (EthernetAdapter A K)
  unfolding read write NetworkInterface.tick
  ethernet_adapter = record {
    fd = λ t. t.output.socket;
    loss_rate_dn = λ t. t.loss_rate_dn;
    loss_rate_up = λ t. t.loss_rate_up;
    read = read;
    write = write;
    set_listening = λ l t. record t { adapter = record (t.adapter) { listening = l } };
    tick = λ ms t. record t { interface = NetworkInterface.tick ms t.interface };
  }

-- The socket over the adapter, without what it inherits: its virtual address. What `connect` and
-- `listen_and_accept` give to the inherited operation is the configuration of the adapter.
pub record EthernetSocket : Type 0 where
  pub virtual_src : Endpoint

-- The configuration that the inherited `connect` and `listen_and_accept` copy into the adapter.
unfoldable pub with_config : Endpoint → Endpoint → TcpOverIpv4Adapter → TcpOverIpv4Adapter
with_config source destination a = record a { source = source; destination = destination }

-- `connect` before the inherited one, for the random number of the source port.
unfoldable pub prepare_connect :
    {A K : Type 0}
    → (physical_dest : A) → (virtual_dest : Endpoint) → (random : ℕ) → EthernetSocket
    → EthernetAdapter A K
    → EthernetSocket × EthernetAdapter A K
unfolding connect_output with_config
prepare_connect physical_dest virtual_dest random s t =
    let source : Endpoint = record { ip = s.virtual_src.ip; port = random % u16_mod } in
    (
      record { virtual_src = source },
      record t {
        output = connect_output physical_dest t.output;
        adapter = with_config source virtual_dest t.adapter;
      },
    )

unfoldable pub bind : Endpoint → EthernetSocket → Exec EthernetSocket
bind virtual_src s =
    if not (virtual_src.ip == s.virtual_src.ip) && not (virtual_src.ip == 0)
    then fault runtime_error
    else ok (record { virtual_src = record { ip = s.virtual_src.ip; port = virtual_src.port } })

-- `listen_and_accept` before the inherited one; the destination is that of a new configuration.
unfoldable pub prepare_listen :
    {A K : Type 0} → EthernetSocket → EthernetAdapter A K → EthernetAdapter A K
unfolding with_config
prepare_listen s t = record t {
  adapter = with_config s.virtual_src (record { ip = 0; port = 0 }) t.adapter;
}
