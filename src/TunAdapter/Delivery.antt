-- ===== src/TunAdapter/Delivery.antt =====
-- A message that one adapter writes to the device, read by the adapter at the other end.
use internet.Prelude.{
  ℕ, ◌+◌, ◌≤◌, ◌<◌, ◌≡◌, refl, ap, ◌∙◌, true, false, some, List, [], ◌∷◌, ◌++◌, arith, ltb, ◌==◌,
  if◌then◌else◌, length, All, length-append, Bytes, u64_mod, ok, fault, runtime_error, ◌>>=◌,
  Ensures,
}
use internet.FileDescriptor.{
  FdWrapper, Input, Returned, returned, input, enlarge_last, buffer_size, to_iovecs, sizes_from,
  resize_buffers, read_buffers, write_buffers, check_written, check_fd_system_call, check_read,
  count_of, bytes_of, register_read, register_write,
}
use internet.FileDescriptor.Transfers.{sum}
use internet.Tcp.Messages.{TcpMessage}
use internet.Wire.Parser.{flatten, total_size}
use internet.FileDescriptor.Datagrams.{resize_buffers-append, resize_buffers_last, to_iovecs-map}
use internet.Wire.TcpOverIp.Buffers.{
  length-ip_header, length-tcp_header, ip_header, tcp_header, written, written-All,
  total_size-written, flatten-written, datagram_buffers-wrapped, parse-arrived, unwrap-arrived,
}
use internet.Wire.Ipv4
use internet.Wire.Ipv4.Total.{with_checksum, serialize-ok}
use internet.Wire.TcpSegment.Layout.{payload_buffers}
use internet.Wire.TcpOverIp.Delivery.{
  MessageFits, EndpointFits, Meets, opposite, wrapped, wrap_tcp_in_ip_lem,
}
use internet.TunAdapter.{TunAdapter, strs, receive, read, write}

strs_lem : sum (enlarge_last strs) ≡ 16424
unfolding enlarge_last buffer_size
strs_lem = refl

-- A device on which nothing waits takes a datagram as a whole, and gives it to the next read, if it
-- fits there.
pub record Carries {K : Type 0} (sys_readv : List ℕ → K → Input × K)
    (sys_writev : List Bytes → K → Returned × K) (IsIdle : K → Type 0) : Type 0 where
  pub accepts : (bs : List Bytes) (k : K) → (sys_writev bs k).0 ≡ returned (total_size bs)
  pub delivers :
      (bs : List Bytes) (k : K) (sizes : List ℕ)
      → IsIdle k
      → total_size bs ≤ sum sizes
      → (sys_readv sizes (sys_writev bs k).1).0 ≡ input (flatten bs)

module _ {K : Type 0} (sys_readv : List ℕ → K → Input × K)
    (sys_writev : List Bytes → K → Returned × K) (IsIdle : K → Type 0)
    (carries : Carries sys_readv sys_writev IsIdle) where
  write_buffers_lem :
      (b : Bytes) (bs : List Bytes) (w : FdWrapper) (k : K)
      → All (λ b. 0 < length b) (b ∷ bs)
      → total_size (b ∷ bs) < u64_mod
      → write_buffers sys_writev (b ∷ bs) w k
        ≡ ok (total_size (b ∷ bs), register_write w, (sys_writev (b ∷ bs) k).1)
  unfolding write_buffers check_written check_fd_system_call
  write_buffers_lem b bs w k nonempty fits =
      let nonzero : (total_size (b ∷ bs) == 0) ≡ false = ground (arith, nonempty.0) in
      let whole : ltb (total_size (b ∷ bs)) (total_size (b ∷ bs)) ≡ false = ground arith in
      rw (to_iovecs-map b bs nonempty fits)
        (rw (carries.accepts (b ∷ bs) k) (rw nonzero (rw whole refl)))

  read_buffers_lem :
      (h g p : Bytes) (w : FdWrapper) (k : K)
      → length h ≡ 20
      → length g ≡ 20
      → length p ≤ 16384
      → (sys_readv (enlarge_last strs) k).0 ≡ input (h ++ (g ++ p))
      → (w' : FdWrapper) × (read_buffers strs (λ sizes. (sys_readv sizes k).0) w
          ≡ ok (h ∷ g ∷ p ∷ [], w'))
  unfolding read_buffers enlarge_last buffer_size to_iovecs sizes_from check_read count_of bytes_of
  read_buffers_lem h g p w k eh eg le e =
      let sizes = 20 ∷ 20 ∷ 16384 ∷ [] in
      let bytes = h ++ (g ++ p) in
      let size : length bytes ≡ 40 + length p =
        omega (arith, length-append h (g ++ p), length-append g p) in
      let fits : ltb 16424 (length bytes) ≡ false = ground arith in
      let divided : resize_buffers sizes bytes ≡ h ∷ g ∷ p ∷ [] =
        resize_buffers-append h (g ++ p) 20 (20 ∷ 16384 ∷ []) eh
        ∙ ap (◌∷◌ h) (resize_buffers-append g p 20 (16384 ∷ []) eg)
        ∙ ap (λ b. h ∷ g ∷ b) (resize_buffers_last p 16384 le) in
      let w' = if length bytes == 0 then record w { eof = true } else w in
      (
        register_read w',
        ap
              (λ answer. check_read (count_of answer) w >>= λ (count, w').
                if ltb 16424 count
                then fault runtime_error
                else ok (resize_buffers sizes (bytes_of answer), register_read w'))
              e
            ∙ rw fits (ap (λ b. ok (b, register_read w')) divided),
      )

  write_lem :
      (junk : ℕ) (m : TcpMessage) (x : TunAdapter K)
      → EndpointFits x.adapter.source
      → EndpointFits x.adapter.destination
      → MessageFits m
      → let buffers = written m x.adapter in
        write junk sys_readv sys_writev m x
        ≡ ok (record x { tun = register_write x.tun; system = (sys_writev buffers x.system).1 })
  unfolding write with_checksum
  write_lem junk m x f g fm =
      let a = x.adapter in
      let e = serialize-ok (wrapped m a) refl ∙ ap ok (datagram_buffers-wrapped m a) in
      let room = fm.room in
      let sent =
        write_buffers_lem (ip_header m a) (tcp_header m a ∷ payload_buffers m.sender.payload) x.tun
          x.system (written-All m a) (omega (arith, total_size-written m a)) in
      ap
        (λ o. o >>= λ d. Ipv4.serialize d >>= λ buffers.
          write_buffers sys_writev buffers x.tun x.system >>= λ (_, tun, system).
          ok (record x { tun = tun; system = system }))
        (wrap_tcp_in_ip_lem m a)
      ∙ ap
          (λ o. o >>= λ buffers.
            write_buffers sys_writev buffers x.tun x.system >>= λ (_, tun, system).
            ok (record x { tun = tun; system = system }))
          e
      ∙ ap (λ o. o >>= λ (_, tun, system). ok (record x { tun = tun; system = system })) sent

  -- A message that an adapter writes to a device is read by the adapter at the other end, and is
  -- the same message; that adapter is then bound to the two endpoints. The fields of the message
  -- and the endpoints have their widths, one reset flag serves both directions, and the payload
  -- fits into the last buffer of the read; the reader is bound to the same endpoints, or listens at
  -- the port and the message opens a connection; and the device, on which nothing waits, carries a
  -- datagram whole.
  pub read-write_tun :
      (junk : ℕ) (m : TcpMessage) (x y : TunAdapter K)
      → EndpointFits x.adapter.source
      → EndpointFits x.adapter.destination
      → MessageFits m
      → length m.sender.payload ≤ 16384
      → IsIdle x.system
      → Meets x.adapter y.adapter m
      → Ensures
          (λ (o, y'). (o ≡ some m) × (y'.adapter ≡ opposite x.adapter))
          (write junk sys_readv sys_writev m x >>= λ x'.
            read junk sys_readv sys_writev (record y { system = x'.system }))
  unfolding read receive
  read-write_tun junk m x y f g fm le idle meets =
      let a = x.adapter in
      let k = (sys_writev (written m a) x.system).1 in
      let size = total_size-written m a in
      let given =
        carries.delivers (written m a) x.system (enlarge_last strs) idle
          (omega (arith, size, strs_lem))
        ∙ ap input (flatten-written m a) in
      let (w', e) =
        read_buffers_lem (ip_header m a) (tcp_header m a) m.sender.payload y.tun k
          (length-ip_header m a) (length-tcp_header m a) le given in
      rw (write_lem junk m x f g fm) (
        rw e (
          rw (parse-arrived m a f g fm)
            (rw (unwrap-arrived junk m a y.adapter f g fm meets) (refl, refl))))
