-- ===== src/EthernetAdapter/Frames.antt =====
-- The frames of the Ethernet adapter: what sends one, and what a receiver makes of its bytes.
use internet.Prelude.{
  ℕ, ◌+◌, ◌≤◌, ◌≡◌, refl, sym, ap, ◌∙◌, true, false, ◌||◌, Option, none, some, List, [], ◌∷◌, ◌++◌,
  arith, ltb, if◌then◌else◌, if_elim, length, length-append, Bytes, ok, fault, runtime_error, ◌>>=◌,
}
use internet.FileDescriptor.{
  FdWrapper, Returned, returned, enlarge_last, buffer_size, to_iovecs, sizes_from, resize_buffers,
  check_fd_system_call, register_read,
}
use internet.FileDescriptor.Transfers.{sum}
use internet.FileDescriptor.Datagrams.{resize_buffers-append, resize_buffers_last}
use internet.Map.{lookup}
use internet.NetworkInterface
use internet.NetworkInterface.{
  NetworkInterface, ArpEntry, datagram_frame, send_datagram, send_unresolved, recv_frame, recv_ipv4,
  recv_datagram, is_for,
}
use internet.NetworkInterface.Sending.{frame_of, datagram_frame-ok}
use internet.NetworkInterface.Resolution.{same_address_self}
use internet.Socket.{
  Received, received, recv_len, payload_of, is_truncated, sender_of, source_address, recv_buffers,
}
use internet.Tcp.Messages.{TcpMessage}
use internet.Wire.Parser.{flatten, total_size}
use internet.Wire.Ethernet.{
  EthernetAddress, EthernetHeader, EthernetFrame, type_ipv4, same_address, ethernet_broadcast,
}
use internet.Wire.Ethernet.RoundTrip.{IsAddress, HeaderFits}
use internet.Wire.Ipv4.Total.{with_checksum}
use internet.Wire.TcpOverIp.{TcpOverIpv4Adapter}
use internet.Wire.TcpOverIp.Delivery.{MessageFits, EndpointFits, wrapped, delivered}
use internet.Wire.TcpOverIp.Buffers.{
  ip_header, written, arrived, datagram_buffers-wrapped, parse-arrived,
}
use internet.EthernetAdapter.{incoming_datagram, connect_output, reply_to, ticked}

-- The header of the frame.
abbrev pub frame_header : EthernetAddress → EthernetAddress → EthernetHeader
frame_header dst src = record { dst = dst; src = src; type = type_ipv4 }

abbrev pub sent_frame :
    EthernetAddress → EthernetAddress → TcpMessage → TcpOverIpv4Adapter → EthernetFrame
sent_frame dst src m a = record { header = frame_header dst src; payload = written m a }

-- The frame that is parsed, whose payload is divided as the buffers are.
abbrev pub heard_frame :
    EthernetAddress → EthernetAddress → TcpMessage → TcpOverIpv4Adapter → EthernetFrame
heard_frame dst src m a = record {
  header = frame_header dst src;
  payload = ip_header m a ∷ arrived m a;
}

pub ticked_keeps :
    (now last : ℕ) (n : NetworkInterface)
    → ((ticked now last n).datagrams_received ≡ n.datagrams_received)
      × ((ticked now last n).ethernet_address ≡ n.ethernet_address)
unfolding ticked NetworkInterface.tick
ticked_keeps now last n =
    if_elim
      (λ (n' : NetworkInterface).
        (n'.datagrams_received ≡ n.datagrams_received) × (n'.ethernet_address ≡ n.ethernet_address))
      (ltb last now) _ _ (λ _. (refl, refl)) λ _. (refl, refl)

-- Where the reply goes does not depend on the descriptor.
pub reply_to-dest :
    {A : Type 0} (from : A) (w w' : FdWrapper) (dest : Option A)
    → (reply_to from (record { socket = w; physical_dest = dest })).physical_dest
      ≡ (reply_to from (record { socket = w'; physical_dest = dest })).physical_dest
unfolding reply_to connect_output
reply_to-dest from w w' none = refl
reply_to-dest from w w' (some to) = refl

pub recv_heard_frame :
    (dst src : EthernetAddress) (m : TcpMessage) (a : TcpOverIpv4Adapter) (n : NetworkInterface)
    → dst ≡ n.ethernet_address
    → EndpointFits a.source
    → EndpointFits a.destination
    → MessageFits m
    → recv_frame (heard_frame dst src m a) n
      ≡ ok ([], recv_datagram (delivered (arrived m a) m a) n)
unfolding recv_frame is_for recv_ipv4
recv_heard_frame dst src m a n to f g fm =
    let mine : (same_address dst n.ethernet_address || same_address dst ethernet_broadcast) ≡ true =
      ap (λ b. b || same_address dst ethernet_broadcast)
        (ap (same_address dst) (sym to) ∙ same_address_self dst) in
    rw mine (rw (parse-arrived m a f g fm) refl)

pub send_known :
    (m : TcpMessage) (a : TcpOverIpv4Adapter) (hop : ℕ) (n : NetworkInterface) (e : ArpEntry)
    → lookup hop n.ip_ether_map ≡ some e
    → send_datagram (wrapped m a) hop n
      ≡ ok (sent_frame e.ether_addr n.ethernet_address m a ∷ [], n)
unfolding send_datagram frame_of with_checksum
send_known m a hop n e known =
    ap
      (λ o. elim o [
        | some e' ↦ datagram_frame e'.ether_addr (wrapped m a) n >>= λ f. ok (f ∷ [], n)
        | none ↦ send_unresolved (wrapped m a) hop n
      ])
      known
    ∙ ap (λ o. o >>= λ f. ok (f ∷ [], n)) (datagram_frame-ok e.ether_addr (wrapped m a) n refl)
    ∙ ap
        (λ b.
          ok
            (record { header = frame_header e.ether_addr n.ethernet_address; payload = b } ∷ [], n))
        (datagram_buffers-wrapped m a)

-- A network on which nothing waits takes a datagram as a whole, and gives it to the next receiver,
-- if it fits there, with the address `from` of its sender.
pub record Carries {A K : Type 0} (sys_recvmsg : List ℕ → K → Received A × K)
    (sys_sendmsg : List Bytes → Option A → K → Returned × K) (IsIdle : K → Type 0) (from : A)
    : Type 0 where
  pub accepts :
      (bs : List Bytes) (to : Option A) (k : K) → (sys_sendmsg bs to k).0 ≡ returned (total_size bs)
  pub delivers :
      (bs : List Bytes) (to : Option A) (k : K) (sizes : List ℕ)
      → IsIdle k
      → total_size bs ≤ sum sizes
      → (sys_recvmsg sizes (sys_sendmsg bs to k).1).0 ≡ received (flatten bs) false (some from)

pub incoming_lem : sum (enlarge_last incoming_datagram) ≡ 16438
unfolding enlarge_last buffer_size
incoming_lem = refl

pub recv_buffers_lem :
    {A K : Type 0} (sys_recvmsg : List ℕ → K → Received A × K) (from : A) (e h g p : Bytes)
    (w : FdWrapper) (k : K)
    → length e ≡ 14
    → length h ≡ 20
    → length g ≡ 20
    → length p ≤ 16384
    → (sys_recvmsg (enlarge_last incoming_datagram) k).0
      ≡ received (e ++ (h ++ (g ++ p))) false (some from)
    → recv_buffers incoming_datagram (λ sizes. (sys_recvmsg sizes k).0) w
      ≡ ok (from, e ∷ h ∷ g ∷ p ∷ [], register_read w)
unfolding recv_buffers enlarge_last buffer_size to_iovecs sizes_from check_fd_system_call recv_len
    payload_of is_truncated source_address sender_of
recv_buffers_lem sys_recvmsg from e h g p w k ee eh eg le answer =
    let sizes = 14 ∷ 20 ∷ 20 ∷ 16384 ∷ [] in
    let bytes = e ++ (h ++ (g ++ p)) in
    let size : length bytes ≡ 54 + length p =
      omega (arith, length-append e (h ++ (g ++ p)), length-append h (g ++ p), length-append g p) in
    let fits : ltb 16438 (length bytes) ≡ false = ground arith in
    let divided : resize_buffers sizes bytes ≡ e ∷ h ∷ g ∷ p ∷ [] =
      resize_buffers-append e (h ++ (g ++ p)) 14 (20 ∷ 20 ∷ 16384 ∷ []) ee
      ∙ ap (◌∷◌ e) (resize_buffers-append h (g ++ p) 20 (20 ∷ 16384 ∷ []) eh)
      ∙ ap (λ b. e ∷ h ∷ b) (resize_buffers-append g p 20 (16384 ∷ []) eg)
      ∙ ap (λ b. e ∷ h ∷ g ∷ b) (resize_buffers_last p 16384 le) in
    ap
      (λ answer. check_fd_system_call (recv_len answer) w >>= λ count.
        if ltb 16438 count || is_truncated answer
        then fault runtime_error
        else (source_address answer >>= λ from.
            ok (from, resize_buffers sizes (payload_of answer), register_read w)))
      answer
    ∙ rw fits (ap (λ b. ok (from, b, register_read w)) divided)

pub frame-HeaderFits :
    (dst src : EthernetAddress) → IsAddress dst → IsAddress src → HeaderFits (frame_header dst src)
frame-HeaderFits dst src d s = (d, s, omega arith)
