-- ===== src/MinnowSocket.antt =====
-- util/tcp_minnow_socket.hh and util/tcp_minnow_socket_impl.hh: a TCP peer between a datagram
-- adapter and a stream socket to its owner, driven by the event loop. The adapter is a parameter,
-- as in the template, and so is what the system answers on the stream socket. The owner's thread
-- is not modelled.
pub mod Streams
use internet.Prelude.{
  ℕ, Bool, true, false, ◌&&◌, ◌||◌, not, Option, none, some, List, [], ◌∷◌, ltb, ◌==◌,
  if◌then◌else◌, Bytes, sub64, Exec, ok, fault, runtime_error, undefined, ◌>>=◌,
}
use internet.ByteStream
use internet.ByteStream.{ByteStream, available_capacity, bytes_buffered, is_finished, peek, pop}
use internet.FileDescriptor
use internet.FileDescriptor.{
  FdWrapper, Returned, Input, buffer_size, check_system_call, register_write,
}
use internet.EventLoop.{
  EventLoop, Store, Result, exit, direction_in, direction_out, PollFd, Revents, SocketOption,
  add_category, add_fd_rule, wait_next_event,
}
use internet.LossyFdAdapter.{Adapter}
use internet.Tcp.Messages.{TcpConfig, TcpMessage}
use internet.Tcp.Peer
use internet.Tcp.Peer.{TcpPeer, active, has_ackno}
use internet.Tcp.Sender.{sequence_numbers_in_flight}

-- The state that the event loop's callbacks share; `system` is what is behind the stream socket.
pub record TcpMinnowSocket (S E : Type 0) : Type 0 where
  pub datagram_adapter : S
  pub tcp : Option TcpPeer
  pub system : E
  pub abort : Bool
  pub inbound_shutdown : Bool
  pub outbound_shutdown : Bool
  pub fully_acked : Bool

-- One round of `_tcp_loop`: what the system answers in it, the owner's flag, and the time
-- afterwards.
pub record Round : Type 0 where
  pub poll : List PollFd → ℕ → Exec (ℕ × List (PollFd × Revents))
  pub getsockopt : ℕ → SocketOption
  pub aborted : Bool
  pub now : ℕ

abbrev pub tick_ms : ℕ
tick_ms = 10

-- The keys of the two descriptors.
abbrev pub adapter_fd : ℕ
adapter_fd = 0

abbrev pub thread_data : ℕ
thread_data = 1

-- `*_tcp` of an optional that is empty has no meaning.
unfoldable pub peer_of : Option TcpPeer → Exec TcpPeer
peer_of none = fault undefined
peer_of (some p) = ok p

-- `_tcp.value()` throws.
unfoldable pub value_of : Option TcpPeer → Exec TcpPeer
value_of none = fault runtime_error
value_of (some p) = ok p

-- The streams of the peer towards the owner.
abbrev pub outbound : TcpPeer → ByteStream
outbound p = p.sender.input

abbrev pub with_outbound : ByteStream → TcpPeer → TcpPeer
with_outbound b p = record p { sender = record (p.sender) { input = b } }

abbrev pub inbound : TcpPeer → ByteStream
inbound p = p.receiver.reassembler.output

abbrev pub with_inbound : ByteStream → TcpPeer → TcpPeer
with_inbound b p = record p {
  receiver = record (p.receiver) { reassembler = record (p.receiver.reassembler) { output = b } };
}

-- The second rule without its last line: what the owner has written goes into the outbound stream,
-- which is closed when there will be no more. The result tells whether it was.
unfoldable pub fill_outbound :
    {E : Type 0}
    → (ℕ → E → Input × E)
    → FdWrapper
    → E
    → TcpPeer
    → Exec (TcpPeer × FdWrapper × E × Bool)
unfolding FileDescriptor.read ByteStream.push ByteStream.close available_capacity buffer_size
fill_outbound sys_read w e p =
    let size = available_capacity (outbound p) in
    let (answer, e') = sys_read (buffer_size size) e in
    FileDescriptor.read size (λ _. answer) w >>= λ (bytes, w').
    let stream = ByteStream.push bytes (outbound p) in
    ok (with_outbound (if w'.eof then ByteStream.close stream else stream) p, w', e', w'.eof)

-- `shutdown( SHUT_WR )` of util/socket.cc.
unfoldable pub shutdown_write :
    {E : Type 0} → (E → Returned × E) → FdWrapper → E → Exec (FdWrapper × E)
unfolding check_system_call register_write
shutdown_write sys_shutdown w e =
    let (result, e') = sys_shutdown e in check_system_call result >>= λ _. ok (register_write w, e')

-- The first half of the third rule: the owner gets what is in the inbound stream, as far as it
-- takes it.
unfoldable pub drain_inbound :
    {E : Type 0}
    → (Bytes → E → Returned × E)
    → FdWrapper
    → E
    → TcpPeer
    → Exec (TcpPeer × FdWrapper × E)
unfolding FileDescriptor.write bytes_buffered peek pop
drain_inbound sys_write w e p =
    if bytes_buffered (inbound p) == 0
    then ok (p, w, e)
    else (FileDescriptor.write sys_write (peek (inbound p)) w e >>= λ (n, w', e').
        ok (with_inbound (pop n (inbound p)) p, w', e'))

-- Is the inbound stream over, in one way or the other?
unfoldable pub inbound_over : TcpPeer → Bool
unfolding is_finished
inbound_over p = is_finished (inbound p) || (inbound p).has_error

module _ {S E : Type 0} (adapter : Adapter S) (sys_read : ℕ → E → Input × E)
    (sys_write : Bytes → E → Returned × E) (sys_shutdown : E → Returned × E) where
  -- `_datagram_adapter.write( x )` for each message.
  unfoldable pub write_segments : List TcpMessage → S → Exec S
  write_segments [] a = ok a
  write_segments (m ∷ ms) a = adapter.write m a >>= λ a'. write_segments ms a'

  -- The adapter's new state, and what its descriptor now says of itself.
  unfoldable pub with_adapter : S → Store (TcpMinnowSocket S E) → Store (TcpMinnowSocket S E)
  with_adapter a s = record s {
    world = record (s.world) { datagram_adapter = a };
    files = λ key. if key == adapter_fd then adapter.fd a else s.files key;
  }

  unfoldable pub with_peer : TcpPeer → Store (TcpMinnowSocket S E) → Store (TcpMinnowSocket S E)
  with_peer p s = record s { world = record (s.world) { tcp = some p } }

  unfoldable pub with_thread_data :
      FdWrapper → E → Store (TcpMinnowSocket S E) → Store (TcpMinnowSocket S E)
  with_thread_data w e s = record s {
    world = record (s.world) { system = e };
    files = λ key. if key == thread_data then w else s.files key;
  }

  -- What the peer made is transmitted, and the peer has its new state.
  unfoldable pub transmit :
      List TcpMessage × TcpPeer → Store (TcpMinnowSocket S E) → Exec (Store (TcpMinnowSocket S E))
  unfolding write_segments with_adapter with_peer
  transmit (ms, p) s =
      write_segments ms s.world.datagram_adapter >>= λ a. ok (with_adapter a (with_peer p s))

  -- The note that all outbound bytes were acknowledged.
  unfoldable pub note_acked : Store (TcpMinnowSocket S E) → Exec (Store (TcpMinnowSocket S E))
  unfolding value_of sequence_numbers_in_flight
  note_acked s =
      if (s.files thread_data).eof
      then (value_of s.world.tcp >>= λ p. ok (
          if (sequence_numbers_in_flight p.sender == 0) && not s.world.fully_acked
          then record s { world = record (s.world) { fully_acked = true } }
          else s))
      else ok s

  -- The callback of the first rule: a segment goes from the adapter to the peer.
  unfoldable pub receive_segment : Store (TcpMinnowSocket S E) → Exec (Store (TcpMinnowSocket S E))
  unfolding with_adapter peer_of Peer.receive transmit note_acked
  receive_segment s = adapter.read s.world.datagram_adapter >>= λ (seg, a).
      let s' = with_adapter a s in
      (elim seg [
        | none ↦ ok s'
        | some m ↦ peer_of s'.world.tcp >>= λ p. Peer.receive m p >>= λ out. transmit out s'
      ])
      >>= λ s''. note_acked s''

  unfoldable pub receive_interest : Store (TcpMinnowSocket S E) → Bool
  unfolding active
  receive_interest s = elim s.world.tcp [ none ↦ false | some p ↦ active p ]

  -- The callback of the second rule.
  unfoldable pub push_bytes : Store (TcpMinnowSocket S E) → Exec (Store (TcpMinnowSocket S E))
  unfolding peer_of fill_outbound with_thread_data with_peer Peer.push transmit
  push_bytes s = do
    p ← peer_of s.world.tcp
    (p', w, e, over) ← fill_outbound sys_read (s.files thread_data) s.world.system p
    let s' = with_peer p' (with_thread_data w e s)
    out ← Peer.push p'
    transmit out (record s' {
      world = record (s'.world) { outbound_shutdown = over || s'.world.outbound_shutdown };
    })

  unfoldable pub push_interest : Store (TcpMinnowSocket S E) → Bool
  unfolding active available_capacity
  push_interest s = elim s.world.tcp [
    | none ↦ false
    | some p ↦ active p && not s.world.outbound_shutdown && ltb 0 (available_capacity (outbound p))
  ]

  unfoldable pub push_cancel : Store (TcpMinnowSocket S E) → Exec (Store (TcpMinnowSocket S E))
  unfolding peer_of ByteStream.close
  push_cancel s = peer_of s.world.tcp >>= λ p. ok (record s {
    world = record (s.world) {
      tcp = some (with_outbound (ByteStream.close (outbound p)) p);
      outbound_shutdown = true;
    };
  })

  unfoldable pub push_error : Store (TcpMinnowSocket S E) → Exec (Store (TcpMinnowSocket S E))
  unfolding peer_of ByteStream.set_error with_peer
  push_error s = peer_of s.world.tcp >>= λ p.
      ok (with_peer (with_outbound (ByteStream.set_error (outbound p)) p) s)

  -- The callback of the third rule.
  unfoldable pub read_inbound : Store (TcpMinnowSocket S E) → Exec (Store (TcpMinnowSocket S E))
  unfolding peer_of drain_inbound inbound_over shutdown_write with_thread_data with_peer
  read_inbound s = do
    p ← peer_of s.world.tcp
    (p', w, e) ← drain_inbound sys_write (s.files thread_data) s.world.system p
    let s' = with_peer p' (with_thread_data w e s)
    if inbound_over p'
        then (shutdown_write sys_shutdown w e >>= λ (w', e').
            let s'' = with_thread_data w' e' s' in
            ok (record s'' { world = record (s''.world) { inbound_shutdown = true } }))
        else ok s'

  unfoldable pub read_interest : Store (TcpMinnowSocket S E) → Bool
  unfolding bytes_buffered inbound_over
  read_interest s = elim s.world.tcp [
    | none ↦ false
    | some p ↦
        not (bytes_buffered (inbound p) == 0) || (inbound_over p && not s.world.inbound_shutdown)
  ]

  unfoldable pub read_error : Store (TcpMinnowSocket S E) → Exec (Store (TcpMinnowSocket S E))
  unfolding peer_of ByteStream.set_error with_peer
  read_error s = peer_of s.world.tcp >>= λ p.
      ok (with_peer (with_inbound (ByteStream.set_error (inbound p)) p) s)

  -- The names of the rules' categories are parameters: they only appear in messages.
  unfoldable pub initialize_tcp :
      (names : Bytes × Bytes × Bytes)
      → TcpConfig
      → ℕ
      → EventLoop (TcpMinnowSocket S E)
      → Store (TcpMinnowSocket S E)
      → Exec (EventLoop (TcpMinnowSocket S E) × Store (TcpMinnowSocket S E))
  unfolding Peer.init add_category add_fd_rule receive_segment receive_interest push_bytes
      push_interest push_cancel push_error read_inbound read_interest read_error with_peer
  initialize_tcp (name₁, name₂, name₃) config indeterminate l s = do
    (c₁, l₁) ← add_category name₁ l
    (_, l₂) ←
        add_fd_rule c₁ adapter_fd direction_in receive_segment receive_interest (λ s'. ok s')
          (λ s'. ok s') l₁
    (c₂, l₃) ← add_category name₂ l₂
    (_, l₄) ←
        add_fd_rule c₂ thread_data direction_in push_bytes push_interest push_cancel push_error l₃
    (c₃, l₅) ← add_category name₃ l₄
    (_, l₆) ←
        add_fd_rule c₃ thread_data direction_out read_inbound read_interest (λ s'. ok s') read_error
          l₅
    ok (l₆, with_peer (Peer.init config indeterminate) s)

  -- The body of `_tcp_loop` after the event: whether to go on, the time it counts from, and the
  -- state.
  unfoldable pub after_event :
      Result
      → (now base_time : ℕ) → Store (TcpMinnowSocket S E)
      → Exec (Bool × ℕ × Store (TcpMinnowSocket S E))
  unfolding active Peer.tick transmit with_adapter
  after_event exit now base_time s = ok (false, base_time, s)
  after_event result now base_time s =
      if s.world.abort then ok (false, base_time, s) else elim s.world.tcp [
        | none ↦ fault runtime_error
        | some p ↦
            if active p
            then (Peer.tick (sub64 now base_time) p >>= λ out. transmit out s >>= λ s'. ok (
              true,
              now,
              with_adapter (adapter.tick (sub64 now base_time) s'.world.datagram_adapter) s',
            ))
            else ok (true, base_time, s)
      ]

  -- `_tcp_loop` over the rounds that happen: it ends when the condition does not hold or a round
  -- says so, and is still running when there are no more.
  unfoldable pub tcp_loop :
      (Store (TcpMinnowSocket S E) → Exec Bool)
      → List Round
      → (base_time : ℕ) → EventLoop (TcpMinnowSocket S E)
      → Store (TcpMinnowSocket S E)
      → Exec (EventLoop (TcpMinnowSocket S E) × Store (TcpMinnowSocket S E))
  unfolding wait_next_event after_event
  tcp_loop condition [] base_time l s = ok (l, s)
  tcp_loop condition (r ∷ rs) base_time l s = condition s >>= λ holds.
      if holds
      then (wait_next_event r.poll r.getsockopt tick_ms l s >>= λ (result, l', s').
          let s'' = record s' {
            world = record (s'.world) { abort = r.aborted || s'.world.abort };
          } in
          after_event result r.now base_time s'' >>= λ (goes_on, base_time', s''').
          if goes_on then tcp_loop condition rs base_time' l' s''' else ok (l', s'''))
      else ok (l, s)

  -- The conditions of `connect` and of `listen_and_accept`.
  unfoldable pub is_connecting : Store (TcpMinnowSocket S E) → Exec Bool
  unfolding peer_of sequence_numbers_in_flight
  is_connecting s = peer_of s.world.tcp >>= λ p. ok (sequence_numbers_in_flight p.sender == 1)

  unfoldable pub is_accepting : Store (TcpMinnowSocket S E) → Exec Bool
  unfolding peer_of has_ackno sequence_numbers_in_flight
  is_accepting s = peer_of s.world.tcp >>= λ p.
      ok (not (has_ackno p) || not (sequence_numbers_in_flight p.sender == 0))

  -- `connect` up to the start of the thread.
  unfoldable pub connect :
      (names : Bytes × Bytes × Bytes)
      → (config : TcpConfig) → (indeterminate : ℕ) → (configure : S → S) → List Round
      → (base_time : ℕ) → EventLoop (TcpMinnowSocket S E)
      → Store (TcpMinnowSocket S E)
      → Exec (EventLoop (TcpMinnowSocket S E) × Store (TcpMinnowSocket S E))
  unfolding initialize_tcp with_adapter peer_of Peer.push transmit sequence_numbers_in_flight
      tcp_loop is_connecting
  connect names config indeterminate configure rounds base_time l s = elim s.world.tcp [
    | some _ ↦ fault runtime_error
    | none ↦ initialize_tcp names config indeterminate l s >>= λ (l', s').
        let s'' = with_adapter (configure s'.world.datagram_adapter) s' in
        peer_of s''.world.tcp >>= λ p. Peer.push p >>= λ out. transmit out s'' >>= λ s'''.
        if sequence_numbers_in_flight (out.1).sender == 1
        then tcp_loop is_connecting rounds base_time l' s'''
        else fault runtime_error
  ]

  unfoldable pub listen_and_accept :
      (names : Bytes × Bytes × Bytes)
      → (config : TcpConfig) → (indeterminate : ℕ) → (configure : S → S) → List Round
      → (base_time : ℕ) → EventLoop (TcpMinnowSocket S E)
      → Store (TcpMinnowSocket S E)
      → Exec (EventLoop (TcpMinnowSocket S E) × Store (TcpMinnowSocket S E))
  unfolding initialize_tcp with_adapter tcp_loop is_accepting
  listen_and_accept names config indeterminate configure rounds base_time l s = elim s.world.tcp [
    | some _ ↦ fault runtime_error
    | none ↦ initialize_tcp names config indeterminate l s >>= λ (l', s').
        let listening = adapter.set_listening true (configure s'.world.datagram_adapter) in
        tcp_loop is_accepting rounds base_time l' (with_adapter listening s')
  ]
