-- ===== src/Socket.antt =====
-- util/socket.hh and util/socket.cc: sockets over descriptors. What the system calls return is a
-- parameter, and so is the type `A` of addresses.
pub mod Datagrams
use internet.Prelude.{
  ℕ, zero, suc, ◌-◌, Bool, false, ◌||◌, not, Option, none, some, List, [], ◌∷◌, ◌++◌, map, ltb,
  ◌==◌, if◌then◌else◌, length, drop, Bytes, Exec, ok, fault, runtime_error, ◌>>=◌,
}
use internet.FileDescriptor.{
  FdWrapper, Returned, returned, again, failed, check_system_call, check_fd_system_call,
  register_read, register_write, buffer_size, enlarge_last, to_iovecs, resize_buffers, open_wrapper,
}

-- What `getsockopt` gives: what it returns, the length of the value, and the value.
pub data SockOption : Type 0 where
  so_domain so_type so_protocol so_error : SockOption

pub record SockValue : Type 0 where
  pub result : Returned
  pub len : ℕ
  pub value : ℕ

abbrev pub size_of_int : ℕ
size_of_int = 4

unfoldable pub getsockopt : (SockOption → SockValue) → SockOption → Exec (ℕ × ℕ)
unfolding check_system_call
getsockopt sys option =
    let got = sys option in check_system_call got.result >>= λ _. ok (got.len, got.value)

-- One of the three checks of the constructor.
unfoldable pub verify_option : (SockOption → SockValue) → SockOption → ℕ → Exec (Unit {0})
unfolding getsockopt
verify_option sys option expected = getsockopt sys option >>= λ (len, actual_value).
    if not (len == size_of_int) || not (actual_value == expected)
    then fault runtime_error
    else ok tt

-- The constructor from a descriptor.
unfoldable pub of_descriptor : (SockOption → SockValue) → FdWrapper → ℕ → ℕ → ℕ → Exec FdWrapper
unfolding verify_option
of_descriptor sys fd domain type protocol = do
  _ ← verify_option sys so_domain domain
  _ ← verify_option sys so_type type
  _ ← verify_option sys so_protocol protocol
  ok fd

unfoldable pub throw_if_error : (SockOption → SockValue) → Exec (Unit {0})
unfolding getsockopt
throw_if_error sys = getsockopt sys so_error >>= λ (len, socket_error).
    if not (len == size_of_int)
    then fault runtime_error
    else (if socket_error == 0 then ok tt else fault runtime_error)

unfoldable pub bind : Returned → FdWrapper → Exec FdWrapper
unfolding check_system_call
bind result w = check_system_call result >>= λ _. ok w

unfoldable pub connect : Returned → FdWrapper → Exec FdWrapper
unfolding check_fd_system_call
connect result w = check_fd_system_call result w >>= λ _. ok w

pub data How : Type 0 where
  shut_rd shut_wr shut_rdwr other_how : How

unfoldable pub shutdown : How → Returned → FdWrapper → Exec FdWrapper
unfolding check_system_call register_read register_write
shutdown shut_rd result w = check_system_call result >>= λ _. ok (register_read w)
shutdown shut_wr result w = check_system_call result >>= λ _. ok (register_write w)
shutdown shut_rdwr result w =
    check_system_call result >>= λ _. ok (register_write (register_read w))
shutdown other_how result w = check_system_call result >>= λ _. fault runtime_error

unfoldable pub listen : Returned → FdWrapper → Exec FdWrapper
unfolding check_system_call
listen result w = check_system_call result >>= λ _. ok w

-- What `accept` returns is a descriptor, which is checked as a TCP socket: `AF_INET`,
-- `SOCK_STREAM` and `IPPROTO_TCP` are the numbers 2, 1 and 6.
unfoldable pub accept :
    Option ℕ
    → Returned
    → (ℕ → Bool)
    → (SockOption → SockValue)
    → FdWrapper
    → Exec (FdWrapper × FdWrapper)
unfolding register_read open_wrapper of_descriptor
accept fd flags nonblock sys w = do
  opened ← open_wrapper fd flags nonblock
  accepted ← of_descriptor sys opened 2 1 6
  ok (accepted, register_read w)

-- What `recvfrom` and `recvmsg` give when they are asked for the length of the whole datagram: its
-- bytes, whether they say that it was cut off, and the sender, `none` if the length of its address
-- is not valid. If there is nothing yet, the address is indeterminate.
pub data Received (A : Type 0) : Type 0 where
  received : Bytes → Bool → Option A → Received A
  received_again : A → Received A
  received_failed : Received A

-- What `resize` appends.
abbrev pub zeros : ℕ → Bytes
zeros zero = []
zeros (suc n) = 0 ∷ zeros n

module _ {A : Type 0} where
  unfoldable pub recv_len : Received A → Returned
  recv_len (received bs truncated from) = returned (length bs)
  recv_len (received_again from) = again
  recv_len received_failed = failed

  unfoldable pub payload_of : Received A → Bytes
  payload_of (received bs truncated from) = bs
  payload_of (received_again from) = []
  payload_of received_failed = []

  unfoldable pub is_truncated : Received A → Bool
  is_truncated (received bs truncated from) = truncated
  is_truncated (received_again from) = false
  is_truncated received_failed = false

  unfoldable pub sender_of : Received A → Option A
  sender_of (received bs truncated from) = from
  sender_of (received_again from) = some from
  sender_of received_failed = none

  unfoldable pub source_address : Received A → Exec A
  unfolding sender_of
  source_address answer = elim (sender_of answer) [ none ↦ fault runtime_error | some a ↦ ok a ]

  -- `recv` into a string. The string keeps its size: what was in it behind the datagram stays.
  unfoldable pub recv : Bytes → (ℕ → Received A) → FdWrapper → Exec (A × Bytes × FdWrapper)
  unfolding recv_len payload_of source_address check_fd_system_call register_read buffer_size
  recv payload sys_recvfrom w =
      let size = buffer_size (length payload) in
      let answer = sys_recvfrom size in
      check_fd_system_call (recv_len answer) w >>= λ n.
      if ltb size n
      then fault runtime_error
      else (source_address answer >>= λ from. ok (
        from,
        payload_of answer ++ drop n (payload ++ zeros (size - length payload)),
        register_read w,
      ))

  -- `recv` into several strings of the given sizes.
  unfoldable pub recv_buffers :
      List ℕ → (List ℕ → Received A) → FdWrapper → Exec (A × List Bytes × FdWrapper)
  unfolding enlarge_last to_iovecs check_fd_system_call recv_len payload_of is_truncated
      source_address register_read resize_buffers
  recv_buffers [] sys_recvmsg w = fault runtime_error
  recv_buffers (n ∷ ns) sys_recvmsg w = do
    let sizes = enlarge_last (n ∷ ns)
    total_size ← to_iovecs sizes
    let answer = sys_recvmsg sizes
    count ← check_fd_system_call (recv_len answer) w
    if ltb total_size count || is_truncated answer
        then fault runtime_error
        else (source_address answer >>= λ from.
            ok (from, resize_buffers sizes (payload_of answer), register_read w))

-- The checks of both kinds of `send`, for `size` bytes.
unfoldable pub check_sent : ℕ → Returned → FdWrapper → Exec FdWrapper
unfolding check_fd_system_call register_write
check_sent size result w = check_fd_system_call result w >>= λ n.
    if n == size then ok (register_write w) else fault runtime_error

-- Over a system of states `K`; no destination is that of a connected socket.
module _ {A K : Type 0} (sys_send : List Bytes → Option A → K → Returned × K) where
  unfoldable pub send : Bytes → Option A → FdWrapper → K → Exec (FdWrapper × K)
  unfolding check_sent
  send payload destination w k =
      let (result, k') = sys_send (payload ∷ []) destination k in
      check_sent (length payload) result w >>= λ w'. ok (w', k')

  unfoldable pub send_buffers : List Bytes → Option A → FdWrapper → K → Exec (FdWrapper × K)
  unfolding check_sent to_iovecs
  send_buffers payloads destination w k = to_iovecs (map length payloads) >>= λ total_size.
      let (result, k') = sys_send payloads destination k in
      check_sent total_size result w >>= λ w'. ok (w', k')
