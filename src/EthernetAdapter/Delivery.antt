-- ===== src/EthernetAdapter/Delivery.antt =====
-- A message that one end writes over Ethernet, read by the other end.
use internet.Prelude.{
  ℕ, ◌+◌, ◌≤◌, ◌<◌, ◌≡◌, refl, sym, ap, subst, ◌∙◌, false, Option, none, some, List, [], ◌∷◌, ◌++◌,
  arith, if◌then◌else◌, length, Bytes, ok, fault, runtime_error, ◌>>=◌, Ensures, Ensures-of_eq,
}
use internet.FileDescriptor.{Returned, enlarge_last, register_read, register_write}
use internet.Map.{lookup}
use internet.NetworkInterface.{ArpEntry, send_datagram, recv_datagram}
use internet.Socket.{Received, received, recv_buffers, send_buffers}
use internet.Socket.Datagrams.{send_buffers_lem}
use internet.Tcp.Messages.{TcpMessage}
use internet.Wire.Parser.{flatten, total_size}
use internet.Wire.Ethernet
use internet.Wire.Ethernet.{EthernetAddress}
use internet.Wire.Ethernet.RoundTrip.{
  IsAddress, header_bytes, length-header_bytes, serialize_lem, parse-header_bytes,
}
use internet.Wire.TcpOverIp.{TcpOverIpv4Adapter}
use internet.Wire.TcpOverIp.Delivery.{
  MessageFits, EndpointFits, Meets, opposite, delivered, wrap_tcp_in_ip_lem,
}
use internet.Wire.TcpOverIp.Buffers.{
  length-ip_header, length-tcp_header, ip_header, tcp_header, written, arrived, written-All,
  total_size-written, flatten-written, unwrap-arrived,
}
use internet.EthernetAdapter.{
  EthernetAdapter, incoming_datagram, reply_to, tick_network_interface, transmit, transmit_all,
  take_datagram, receive, receive_buffers, none_ready, read, write,
}
use internet.EthernetAdapter.Frames.{
  frame_header, sent_frame, heard_frame, ticked_keeps, reply_to-dest, recv_heard_frame, send_known,
  Carries, incoming_lem, recv_buffers_lem, frame-HeaderFits,
}

module _ {A K : Type 0} (junk : ℕ) (timestamp_ms : K → ℕ)
    (sys_recvmsg : List ℕ → K → Received A × K)
    (sys_sendmsg : List Bytes → Option A → K → Returned × K) (IsIdle : K → Type 0) (from : A)
    (carries : Carries sys_recvmsg sys_sendmsg IsIdle from) where
  abbrev time : EthernetAdapter A K → EthernetAdapter A K
  time = tick_network_interface junk timestamp_ms sys_recvmsg sys_sendmsg

  -- What is handed to the system.
  abbrev sent : EthernetAddress → EthernetAddress → TcpMessage → TcpOverIpv4Adapter → List Bytes
  sent dst src m a = header_bytes (frame_header dst src) ∷ written m a

  total_size-sent :
      (dst src : EthernetAddress) (m : TcpMessage) (a : TcpOverIpv4Adapter)
      → IsAddress dst
      → IsAddress src
      → total_size (sent dst src m a) ≡ 54 + length m.sender.payload
  total_size-sent dst src m a d s = omega (
    arith,
    length-header_bytes (frame_header dst src) (d, s, omega arith),
    total_size-written m a,
  )

  transmit-frame :
      (dst src : EthernetAddress) (m : TcpMessage) (a : TcpOverIpv4Adapter) (to : A)
      (t : EthernetAdapter A K)
      → IsAddress dst
      → IsAddress src
      → MessageFits m
      → t.output.physical_dest ≡ some to
      → transmit junk timestamp_ms sys_recvmsg sys_sendmsg (sent_frame dst src m a) t
        ≡ ok (record t {
          output = record (t.output) { socket = register_write t.output.socket };
          system = (sys_sendmsg (sent dst src m a) (some to) t.system).1;
        })
  unfolding transmit
  transmit-frame dst src m a to t d s fm connected =
      let fits = frame-HeaderFits dst src d s in
      let room = fm.room in
      let nonempty = written-All m a in
      let pos : 0 < length (header_bytes (frame_header dst src)) =
        omega (arith, length-header_bytes (frame_header dst src) fits) in
      let bytes = sent dst src m a in
      ap
        (λ o. elim o [
          | none ↦ fault runtime_error
          | some to ↦
              (send_buffers sys_sendmsg (Ethernet.serialize (sent_frame dst src m a)) (some to)
                  t.output.socket t.system
                >>= λ (socket, system).
                    ok (record t {
                      output = record (t.output) { socket = socket };
                      system = system;
                    }))
        ])
        connected
      ∙ ap
          (λ b.
            send_buffers sys_sendmsg b (some to) t.output.socket t.system >>= λ (socket, system).
            ok (record t { output = record (t.output) { socket = socket }; system = system }))
          (serialize_lem (sent_frame dst src m a) fits nonempty)
      ∙ ap
          (λ o. o >>= λ (socket, system).
            ok (record t { output = record (t.output) { socket = socket }; system = system }))
          (send_buffers_lem sys_sendmsg (header_bytes (frame_header dst src)) (written m a)
            (some to) t.output.socket t.system (pos, nonempty)
            (omega (arith, total_size-sent dst src m a d s))
            (carries.accepts bytes (some to) t.system))

  write_lem :
      (m : TcpMessage) (x : EthernetAdapter A K) (to : A) (entry : ArpEntry)
      → MessageFits m
      → IsAddress entry.ether_addr
      → IsAddress (time x).interface.ethernet_address
      → x.output.physical_dest ≡ some to
      → lookup x.next_hop (time x).interface.ip_ether_map ≡ some entry
      → write junk timestamp_ms sys_recvmsg sys_sendmsg m x
        ≡ ok (record (time x) {
          output = record (x.output) { socket = register_write x.output.socket };
          system =
              (sys_sendmsg
                (sent entry.ether_addr (time x).interface.ethernet_address m x.adapter)
                (some to)
                x.system).1;
        })
  unfolding write tick_network_interface transmit_all
  write_lem m x to entry fm d s connected known =
      let n = (time x).interface in
      ap
        (λ o. o >>= λ dgram. send_datagram dgram x.next_hop n >>= λ (frames, interface).
          transmit_all junk timestamp_ms sys_recvmsg sys_sendmsg frames
            (record (time x) { interface = interface }))
        (wrap_tcp_in_ip_lem m x.adapter)
      ∙ ap
          (λ o. o >>= λ (frames, interface).
            transmit_all junk timestamp_ms sys_recvmsg sys_sendmsg frames
              (record (time x) { interface = interface }))
          (send_known m x.adapter x.next_hop n entry known)
      ∙ ap (λ o. o >>= λ t'. ok t')
          (transmit-frame entry.ether_addr n.ethernet_address m x.adapter to (time x) d s fm
            connected)

  receive_lem :
      (dst src : EthernetAddress) (m : TcpMessage) (a : TcpOverIpv4Adapter)
      (t : EthernetAdapter A K)
      → EndpointFits a.source
      → EndpointFits a.destination
      → MessageFits m
      → dst ≡ t.interface.ethernet_address
      → t.interface.datagrams_received ≡ []
      → Meets a t.adapter m
      → receive junk timestamp_ms sys_recvmsg sys_sendmsg from (heard_frame dst src m a) t
        ≡ ok (
          some m,
          record t {
            adapter = opposite a;
            output = reply_to from t.output;
            interface = record (t.interface) { datagrams_received = [] };
          },
        )
  unfolding receive transmit_all take_datagram recv_datagram
  receive_lem dst src m a t f g fm to empty meets =
      let d = delivered (arrived m a) m a in
      let t' = record t {
        output = reply_to from t.output;
        interface = recv_datagram d t.interface;
      } in
      ap
        (λ o. o >>= λ (frames, interface).
          transmit_all junk timestamp_ms sys_recvmsg sys_sendmsg frames
            (record t { output = reply_to from t.output; interface = interface })
          >>= λ t'.
              take_datagram junk timestamp_ms sys_recvmsg sys_sendmsg
                t'.interface.datagrams_received t')
        (recv_heard_frame dst src m a t.interface to f g fm)
      ∙ ap (λ l. take_datagram junk timestamp_ms sys_recvmsg sys_sendmsg (l ++ d ∷ []) t') empty
      ∙ ap
          (λ o. o >>= λ (message, adapter). ok (
            message,
            record t' {
              adapter = adapter;
              interface = record (t.interface) { datagrams_received = [] };
            },
          ))
          (unwrap-arrived junk m a t.adapter f g fm meets)

  receive_buffers_lem :
      (dst src : EthernetAddress) (m : TcpMessage) (a : TcpOverIpv4Adapter)
      (t : EthernetAdapter A K)
      → IsAddress dst
      → IsAddress src
      → MessageFits m
      → receive_buffers junk timestamp_ms sys_recvmsg sys_sendmsg from
          (header_bytes (frame_header dst src) ∷ ip_header m a ∷ arrived m a)
          t
        ≡ receive junk timestamp_ms sys_recvmsg sys_sendmsg from (heard_frame dst src m a) t
  unfolding receive_buffers
  receive_buffers_lem dst src m a t d s fm =
      let ip = length-ip_header m a in
      let tcp = length-tcp_header m a in
      let room = fm.room in
      ap
        (λ o. o >>= λ o. elim o [
          | none ↦ ok (none, t)
          | some frame ↦ receive junk timestamp_ms sys_recvmsg sys_sendmsg from frame t
        ])
        (parse-header_bytes (heard_frame dst src m a) (frame-HeaderFits dst src d s) (omega arith)
          (omega arith))

  read_lem :
      (dst src : EthernetAddress) (m : TcpMessage) (a : TcpOverIpv4Adapter)
      (y : EthernetAdapter A K)
      → EndpointFits a.source
      → EndpointFits a.destination
      → MessageFits m
      → length m.sender.payload ≤ 16384
      → IsAddress dst
      → IsAddress src
      → dst ≡ y.interface.ethernet_address
      → y.interface.datagrams_received ≡ []
      → Meets a y.adapter m
      → (sys_recvmsg (enlarge_last incoming_datagram) y.system).0
        ≡ received (flatten (sent dst src m a)) false (some from)
      → Ensures
          (λ (o, y').
            (o ≡ some m)
            × (y'.adapter ≡ opposite a)
            × (y'.interface.datagrams_received ≡ [])
            × (y'.output.physical_dest ≡ (reply_to from y.output).physical_dest))
          (read junk timestamp_ms sys_recvmsg sys_sendmsg y)
  unfolding read tick_network_interface
  read_lem dst src m a y f g fm le d s to empty meets answer =
      let t = time y in
      let (queue, address) = ticked_keeps (timestamp_ms y.system) y.last_tick y.interface in
      let k = (sys_recvmsg (enlarge_last incoming_datagram) y.system).1 in
      let w = register_read y.output.socket in
      let t' = record t { output = record (y.output) { socket = w }; system = k } in
      let e = header_bytes (frame_header dst src) in
      let result =
        ap
          (λ b.
            if b
            then (recv_buffers incoming_datagram (λ sizes. (sys_recvmsg sizes y.system).0)
                  y.output.socket
                >>= λ (incoming_address, buffers, socket).
                    receive_buffers junk timestamp_ms sys_recvmsg sys_sendmsg incoming_address
                      buffers
                      (record t { output = record (y.output) { socket = socket }; system = k }))
            else fault runtime_error)
          (ap none_ready (queue ∙ empty))
        ∙ ap
            (λ o. o >>= λ (incoming_address, buffers, socket).
              receive_buffers junk timestamp_ms sys_recvmsg sys_sendmsg incoming_address buffers
                (record t { output = record (y.output) { socket = socket }; system = k }))
            (recv_buffers_lem sys_recvmsg from e (ip_header m a) (tcp_header m a) m.sender.payload
              y.output.socket y.system
              (length-header_bytes (frame_header dst src) (frame-HeaderFits dst src d s))
              (length-ip_header m a) (length-tcp_header m a) le
              (answer ∙ ap (λ b. received (e ++ b) false (some from)) (flatten-written m a)))
        ∙ receive_buffers_lem dst src m a t' d s fm
        ∙ receive_lem dst src m a t' f g fm (to ∙ sym address) (queue ∙ empty) meets in
      Ensures-of_eq _ (read junk timestamp_ms sys_recvmsg sys_sendmsg y) _ result (
        refl,
        refl,
        refl,
        reply_to-dest from (register_read y.output.socket) y.output.socket y.output.physical_dest,
      )

  -- A message that an end writes is read by the other end, and is the same message; the reader's
  -- adapter is then bound to the two endpoints, its interface has no datagram left, and it replies
  -- to the physical address of the sender, if it had no other. The fields of the message and the
  -- endpoints have their widths, one reset flag serves both directions, and the payload fits into
  -- the last buffer of the read. The writer has a physical destination and knows the Ethernet
  -- address of the next hop, which is the reader's; the reader's interface has no datagram; the
  -- reader's adapter is bound to the same endpoints, or listens at the port and the message opens a
  -- connection; and the network, on which nothing waits, carries a datagram whole.
  pub read-write_ethernet :
      (m : TcpMessage) (x y : EthernetAdapter A K) (to : A) (entry : ArpEntry)
      → EndpointFits x.adapter.source
      → EndpointFits x.adapter.destination
      → MessageFits m
      → length m.sender.payload ≤ 16384
      → IsIdle x.system
      → IsAddress x.interface.ethernet_address
      → IsAddress y.interface.ethernet_address
      → x.output.physical_dest ≡ some to
      → lookup x.next_hop (time x).interface.ip_ether_map ≡ some entry
      → entry.ether_addr ≡ y.interface.ethernet_address
      → y.interface.datagrams_received ≡ []
      → Meets x.adapter y.adapter m
      → Ensures
          (λ (o, y').
            (o ≡ some m)
            × (y'.adapter ≡ opposite x.adapter)
            × (y'.interface.datagrams_received ≡ [])
            × (y'.output.physical_dest ≡ (reply_to from y.output).physical_dest))
          (write junk timestamp_ms sys_recvmsg sys_sendmsg m x >>= λ x'.
            read junk timestamp_ms sys_recvmsg sys_sendmsg (record y { system = x'.system }))
  unfolding tick_network_interface
  read-write_ethernet m x y to entry f g fm le idle xa ya connected known next empty meets =
      let dst = entry.ether_addr in
      let src = (time x).interface.ethernet_address in
      let bytes = sent dst src m x.adapter in
      let (_, address) = ticked_keeps (timestamp_ms x.system) x.last_tick x.interface in
      let d = subst IsAddress (sym next) ya in
      let s = subst IsAddress (sym address) xa in
      let size = total_size-sent dst src m x.adapter d s in
      let answer =
        carries.delivers bytes (some to) x.system (enlarge_last incoming_datagram) idle
          (omega (arith, size, incoming_lem)) in
      rw (write_lem m x to entry fm d s connected known) (
        read_lem dst src m x.adapter
          (record y { system = (sys_sendmsg bytes (some to) x.system).1 }) f g fm le d s next empty
          meets answer)
