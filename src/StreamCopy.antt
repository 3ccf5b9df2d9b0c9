-- ===== src/StreamCopy.antt =====
-- apps/bidirectional_stream_copy.cc: the copy between a socket and the standard streams, by four
-- rules of the event loop. What the system answers is a parameter; what is printed is left out.
pub mod Transfers
pub mod Conservation
use internet.Prelude.{
  ℕ, Bool, true, false, ◌&&◌, ◌||◌, not, List, [], ◌∷◌, ltb, ◌==◌, if◌then◌else◌, Bytes, Exec, ok,
  ◌>>=◌,
}
use internet.ByteStream
use internet.ByteStream.{
  ByteStream, available_capacity, bytes_buffered, is_closed, is_finished, peek, pop,
}
use internet.FileDescriptor
use internet.FileDescriptor.{FdWrapper, Returned, Input, buffer_size, set_blocking}
use internet.EventLoop.{
  EventLoop, Store, success, timeout, exit, direction_in, direction_out, PollFd, Revents,
  SocketOption, add_category, add_fd_rule, wait_next_event,
}
use internet.Socket.{shut_wr, shutdown}

-- What the callbacks share; `system` is what is behind the descriptors.
pub record StreamCopy (E : Type 0) : Type 0 where
  pub outbound : ByteStream
  pub inbound : ByteStream
  pub outbound_shutdown : Bool
  pub inbound_shutdown : Bool
  pub system : E

abbrev pub copy_buffer_size : ℕ
copy_buffer_size = 1048576

-- The keys of the descriptors.
abbrev pub input_fd : ℕ
input_fd = 0

abbrev pub output_fd : ℕ
output_fd = 1

abbrev pub socket_fd : ℕ
socket_fd = 2

-- One turn of the last loop: what the system answers in it.
pub record Turn : Type 0 where
  pub poll : List PollFd → ℕ → Exec (ℕ × List (PollFd × Revents))
  pub getsockopt : ℕ → SocketOption

-- The interest of the rules that read into `stream`.
unfoldable pub has_room : ByteStream → ByteStream → Bool
unfolding available_capacity is_closed
has_room stream other =
    not stream.has_error
    && not other.has_error
    && ltb 0 (available_capacity stream)
    && not (is_closed stream)

-- The interest of the rules that write out of `stream`.
unfoldable pub has_output : ByteStream → Bool → Bool
unfolding bytes_buffered is_finished
has_output stream done = not (bytes_buffered stream == 0) || (is_finished stream && not done)

module _ {E : Type 0} where
  -- From a descriptor into a stream, which is closed at the end of the input.
  unfoldable pub fill :
      (ℕ → E → Input × E) → FdWrapper → E → ByteStream → Exec (ByteStream × FdWrapper × E)
  unfolding FileDescriptor.read ByteStream.push ByteStream.close available_capacity buffer_size
  fill sys_read w e stream =
      let size = available_capacity stream in
      let (answer, e') = sys_read (buffer_size size) e in
      FileDescriptor.read size (λ _. answer) w >>= λ (bytes, w').
      let pushed = ByteStream.push bytes stream in
      ok (if w'.eof then ByteStream.close pushed else pushed, w', e')

  -- From a stream to a descriptor, as far as it takes it.
  unfoldable pub drain :
      (Bytes → E → Returned × E) → FdWrapper → E → ByteStream → Exec (ByteStream × FdWrapper × E)
  unfolding FileDescriptor.write bytes_buffered peek pop
  drain sys_write w e stream =
      if bytes_buffered stream == 0
      then ok (stream, w, e)
      else (FileDescriptor.write sys_write (peek stream) w e >>= λ (n, w', e').
          ok (pop n stream, w', e'))

  unfoldable pub with_file : ℕ → FdWrapper → Store (StreamCopy E) → Store (StreamCopy E)
  with_file key w s = record s { files = λ k. if k == key then w else s.files k }

  -- The four cancellations close a stream, and the four error callbacks mark both.
  unfoldable pub close_outbound : Store (StreamCopy E) → Exec (Store (StreamCopy E))
  unfolding ByteStream.close
  close_outbound s =
      ok (record s { world = record (s.world) { outbound = ByteStream.close s.world.outbound } })

  unfoldable pub close_inbound : Store (StreamCopy E) → Exec (Store (StreamCopy E))
  unfolding ByteStream.close
  close_inbound s =
      ok (record s { world = record (s.world) { inbound = ByteStream.close s.world.inbound } })

  unfoldable pub set_errors : Store (StreamCopy E) → Exec (Store (StreamCopy E))
  unfolding ByteStream.set_error
  set_errors s = ok (record s {
    world = record (s.world) {
      outbound = ByteStream.set_error s.world.outbound;
      inbound = ByteStream.set_error s.world.inbound;
    };
  })

  -- By the key of the descriptor.
  module _ (sys_read : ℕ → ℕ → E → Input × E) (sys_write : ℕ → Bytes → E → Returned × E)
      (sys_shutdown sys_close : E → Returned × E) where
    unfoldable pub read_stdin : Store (StreamCopy E) → Exec (Store (StreamCopy E))
    unfolding fill with_file
    read_stdin s =
        fill (sys_read input_fd) (s.files input_fd) s.world.system s.world.outbound
        >>= λ (stream, w, e). ok (
            with_file input_fd w
              (record s { world = record (s.world) { outbound = stream; system = e } }))

    unfoldable pub read_socket : Store (StreamCopy E) → Exec (Store (StreamCopy E))
    unfolding fill with_file
    read_socket s =
        fill (sys_read socket_fd) (s.files socket_fd) s.world.system s.world.inbound
        >>= λ (stream, w, e). ok (
            with_file socket_fd w
              (record s { world = record (s.world) { inbound = stream; system = e } }))

    -- The second half of the second rule.
    unfoldable pub finish_outbound : Store (StreamCopy E) → Exec (Store (StreamCopy E))
    unfolding is_finished shutdown with_file
    finish_outbound s =
        let (result, e) = sys_shutdown s.world.system in
        let done : Exec (Store (StreamCopy E)) =
          shutdown shut_wr result (s.files socket_fd) >>= λ w. ok (
            with_file socket_fd w
              (record s { world = record (s.world) { outbound_shutdown = true; system = e } })) in
        if is_finished s.world.outbound then done else ok s

    unfoldable pub write_socket : Store (StreamCopy E) → Exec (Store (StreamCopy E))
    unfolding drain with_file finish_outbound
    write_socket s =
        drain (sys_write socket_fd) (s.files socket_fd) s.world.system s.world.outbound
        >>= λ (stream, w, e). finish_outbound (
            with_file socket_fd w
              (record s { world = record (s.world) { outbound = stream; system = e } }))

    -- The second half of the fourth rule.
    unfoldable pub finish_inbound : Store (StreamCopy E) → Exec (Store (StreamCopy E))
    unfolding is_finished FileDescriptor.close with_file
    finish_inbound s =
        let (result, e) = sys_close s.world.system in
        let done : Exec (Store (StreamCopy E)) =
          FileDescriptor.close result (s.files output_fd) >>= λ w. ok (
            with_file output_fd w
              (record s { world = record (s.world) { inbound_shutdown = true; system = e } })) in
        if is_finished s.world.inbound then done else ok s

    unfoldable pub write_stdout : Store (StreamCopy E) → Exec (Store (StreamCopy E))
    unfolding drain with_file finish_inbound
    write_stdout s =
        drain (sys_write output_fd) (s.files output_fd) s.world.system s.world.inbound
        >>= λ (stream, w, e). finish_inbound (
            with_file output_fd w
              (record s { world = record (s.world) { inbound = stream; system = e } }))

    -- The four rules; their names only appear in messages.
    unfoldable pub add_rules : Bytes → EventLoop (StreamCopy E) → Exec (EventLoop (StreamCopy E))
    unfolding add_category add_fd_rule read_stdin write_socket read_socket write_stdout
        close_outbound close_inbound set_errors has_room has_output
    add_rules name l = do
      (c₁, l₁) ← add_category name l
      (_, l₂) ←
          add_fd_rule c₁ input_fd direction_in read_stdin
            (λ s. has_room s.world.outbound s.world.inbound) close_outbound set_errors l₁
      (c₂, l₃) ← add_category name l₂
      (_, l₄) ←
          add_fd_rule c₂ socket_fd direction_out write_socket
            (λ s. has_output s.world.outbound s.world.outbound_shutdown) close_outbound set_errors
            l₃
      (c₃, l₅) ← add_category name l₄
      (_, l₆) ←
          add_fd_rule c₃ socket_fd direction_in read_socket
            (λ s. has_room s.world.inbound s.world.outbound) close_inbound set_errors l₅
      (c₄, l₇) ← add_category name l₆
      (_, l₈) ←
          add_fd_rule c₄ output_fd direction_out write_stdout
            (λ s. has_output s.world.inbound s.world.inbound_shutdown) close_inbound set_errors l₇
      ok l₈

  -- The state before the loop: the three descriptors do not block. What `fcntl` returns is given by
  -- the key.
  unfoldable pub start :
      (ℕ → Returned × Returned)
      → (input output socket : FdWrapper) → E
      → Exec (Store (StreamCopy E))
  unfolding ByteStream.init set_blocking
  start fcntl input output socket e = do
    socket' ← set_blocking false (fcntl socket_fd).0 (fcntl socket_fd).1 socket
    input' ← set_blocking false (fcntl input_fd).0 (fcntl input_fd).1 input
    output' ← set_blocking false (fcntl output_fd).0 (fcntl output_fd).1 output
    ok (record {
      world = record {
        outbound = ByteStream.init copy_buffer_size;
        inbound = ByteStream.init copy_buffer_size;
        outbound_shutdown = false;
        inbound_shutdown = false;
        system = e;
      };
      files = λ k. if k == input_fd then input' else (if k == output_fd then output' else socket');
      cancel_requested = λ _. false;
    })

  -- The last loop, over the turns that happen. The timeout -1 of `poll` is a parameter.
  unfoldable pub copy_loop :
      List Turn
      → (forever : ℕ) → EventLoop (StreamCopy E)
      → Store (StreamCopy E)
      → Exec (EventLoop (StreamCopy E) × Store (StreamCopy E))
  unfolding wait_next_event
  copy_loop [] forever l s = ok (l, s)
  copy_loop (t ∷ ts) forever l s =
      wait_next_event t.poll t.getsockopt forever l s >>= λ (result, l', s'). elim result [
        | exit ↦ ok (l', s')
        | success ↦ copy_loop ts forever l' s'
        | timeout ↦ copy_loop ts forever l' s'
      ]
