-- ===== src/Tcp/Peer.antt =====
-- util/tcp_peer.hh: a sender and a receiver that share a connection. The lambda of `make_send`
-- turns each message of the sender into a segment with the receiver's current state.
pub mod Replies
pub mod Opening
use internet.Prelude.{
  ◌>>=◌, ℕ, ◌+◌, ◌*◌, ◌%◌, Bool, true, false, ◌&&◌, ◌||◌, not, none, some, List, [], ◌∷◌, ◌++◌, ltb,
  ◌==◌, if◌then◌else◌, u64_mod, add64, Exec, ok,
}
use internet.ByteStream
use internet.ByteStream.{is_finished, is_closed}
use internet.Reassembler
use internet.Wrap32.{Wrap32, add, equals}
use internet.Tcp.Messages.{
  TcpConfig, TcpSenderMessage, sequence_length, TcpReceiverMessage, TcpMessage,
}
use internet.Tcp.Receiver
use internet.Tcp.Receiver.{TcpReceiver}
use internet.Tcp.Sender
use internet.Tcp.Sender.{TcpSender, sequence_numbers_in_flight, make_empty_message}

pub record TcpPeer : Type 0 where
  pub cfg : TcpConfig
  pub sender : TcpSender
  pub receiver : TcpReceiver
  pub need_send : Bool
  pub linger_after_streams_finish : Bool
  pub cumulative_time : ℕ
  pub time_of_last_receipt : ℕ

unfoldable pub init : TcpConfig → ℕ → TcpPeer
unfolding Sender.init Receiver.init Reassembler.init ByteStream.init
init cfg indeterminate = record {
  cfg = cfg;
  sender = Sender.init (ByteStream.init cfg.send_capacity) cfg.isn cfg.rt_timeout indeterminate;
  receiver = Receiver.init (Reassembler.init (ByteStream.init cfg.recv_capacity));
  need_send = false;
  linger_after_streams_finish = true;
  cumulative_time = 0;
  time_of_last_receipt = 0;
}

-- `send` for each message in turn.
unfoldable pub send_all : List TcpSenderMessage → TcpPeer → List TcpMessage × TcpPeer
unfolding Receiver.send
send_all [] p = ([], p)
send_all (m ∷ ms) p =
    let (later, p') = send_all ms (record p { need_send = false }) in
    (record { sender = m; receiver = Receiver.send p.receiver } ∷ later, p')

unfoldable pub push : TcpPeer → Exec (List TcpMessage × TcpPeer)
unfolding Sender.push send_all
push p = do (ms, sender) ← Sender.push p.sender; ok (send_all ms (record p { sender = sender }))

unfoldable pub tick : ℕ → TcpPeer → Exec (List TcpMessage × TcpPeer)
unfolding Sender.tick send_all
tick t p = do
  (ms, sender) ← Sender.tick t p.sender
  ok (send_all ms (record p { sender = sender; cumulative_time = add64 p.cumulative_time t }))

unfoldable pub has_ackno : TcpPeer → Bool
unfolding Receiver.send
has_ackno p = elim (Receiver.send p.receiver).ackno [ none ↦ false | some a ↦ true ]

unfoldable pub active : TcpPeer → Bool
unfolding sequence_numbers_in_flight is_finished is_closed
active p =
    let any_errors = p.receiver.reassembler.output.has_error || p.sender.input.has_error in
    let sender_active =
      not (sequence_numbers_in_flight p.sender == 0) || not (is_finished p.sender.input) in
    let receiver_active = not (is_closed p.receiver.reassembler.output) in
    let lingering =
      p.linger_after_streams_finish
      && ltb p.cumulative_time (add64 p.time_of_last_receipt ((10 * p.cfg.rt_timeout) % u64_mod)) in
    not any_errors && (sender_active || receiver_active || lingering)

-- A "keep-alive" has the sequence number before the one that is awaited.
unfoldable pub keep_alive : TcpSenderMessage → TcpReceiver → Bool
unfolding Receiver.send add equals
keep_alive m r = elim (Receiver.send r).ackno [
  | none ↦ false
  | some our_ackno ↦ equals (add m.seqno 1) our_ackno
]

-- The reply: `push`, then an empty message if nothing has been sent and a reply is owed.
unfoldable pub reply : TcpPeer → Exec (List TcpMessage × TcpPeer)
unfolding push send_all make_empty_message
reply p = do
  (ms, p') ← push p
  let (more, p'') = send_all (make_empty_message p'.sender ∷ []) p'
  ok (if p'.need_send then (ms ++ more, p'') else (ms, p'))

-- Did the inbound stream finish before the outbound stream?
unfoldable pub update_linger : TcpPeer → TcpPeer
unfolding is_closed is_finished
update_linger p =
    if is_closed p.receiver.reassembler.output && not (is_finished p.sender.input)
    then record p { linger_after_streams_finish = false }
    else p

-- `receive` of an active peer.
unfoldable pub handle : TcpMessage → TcpPeer → Exec (List TcpMessage × TcpPeer)
unfolding keep_alive reply Receiver.receive Sender.receive update_linger
handle msg p = do
  let need_send =
      p.need_send || ltb 0 (sequence_length msg.sender) || keep_alive msg.sender p.receiver
  let receiver = Receiver.receive msg.sender p.receiver
  sender ← Sender.receive msg.receiver p.sender
  (ms, p') ← reply (record p {
    time_of_last_receipt = p.cumulative_time;
    need_send = need_send;
    receiver = receiver;
    sender = sender;
  })
  ok (ms, update_linger p')

unfoldable pub receive : TcpMessage → TcpPeer → Exec (List TcpMessage × TcpPeer)
unfolding active handle
receive msg p = if active p then handle msg p else ok ([], p)
