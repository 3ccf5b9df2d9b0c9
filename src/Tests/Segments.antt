-- ===== src/Tests/Segments.antt =====
-- The theorems on TCP's receiver, sender and peer at concrete inputs.
use internet.Prelude.{
  ℕ, ◌-◌, ◌*◌, ◌%◌, ◌<◌, min, ◌≡◌, refl, inl, inr, true, false, none, some, [], ◌∷◌, arith, length,
  fault, undefined, Ensures,
}
use internet.ByteStream
use internet.ByteStream.{ByteStream, bytes_popped}
use internet.ByteStream.Invariant.{IsValid}
use internet.Reassembler
use internet.Reassembler.Insert.{Piece, HoldsAll, Inserted}
use internet.Reassembler.Delivery.{fresh, fresh-Holds}
use internet.Wrap32.{Wrap32, wrap, unwrap}
use internet.Wrap32.Unwrap.{unwrap-wrap}
use internet.Tcp.Messages.{TcpSenderMessage, TcpMessage, sequence_length, default_config}
use internet.Tcp.Receiver
use internet.Tcp.Receiver.{TcpReceiver}
use internet.Tcp.Receiver.Segments.{segment, Fits, receive-Inserted}
use internet.Tcp.Receiver.Silence.{receive_each, any_rst, with_error, silent_before_syn}
use internet.Tcp.Receiver.Acks.{awaited, misplaced, synchronised, send_lem, closes_early}
use internet.Tcp.Sender
use internet.Tcp.Sender.{
  TcpSender, sequence_numbers_in_flight, total_length, receive_ackno, take_window,
}
use internet.Tcp.Sender.Push.{IsConsistent, Pushed, push-Pushed}
use internet.Tcp.Sender.Receive.{Acked, receive_ackno-Acked, accepts_unsent}
use internet.Tcp.Sender.Timer.{Ticked, tick-Ticked}
use internet.Tcp.Peer
use internet.Tcp.Peer.{TcpPeer, active}
use internet.Tcp.Peer.Opening.{push-receive_undefined}
use internet.Tcp.Peer.Replies.{InReach, acked_number, Handled, receive-Handled}

-- The last sequence number before they wrap.
abbrev isn : Wrap32
isn = record { raw_value = 4294967295 }

abbrev stream : ℕ → ℕ
stream i = (7 * i) % 256

abbrev opening : Piece
opening = record { first = 0; size = 3; is_last = false }

abbrev listening : TcpReceiver
listening = record { reassembler = fresh 16; isn = none }

fresh-HoldsAll : HoldsAll stream (fresh 16)
fresh-HoldsAll = fresh-Holds stream 16 (ground arith)

opening-Fits : Fits isn true opening listening
unfolding fresh Reassembler.init ByteStream.init
opening-Fits = record {
  word = ground arith;
  known = refl;
  near = ground arith;
  range = ground arith;
}

receive-Inserted_example :
    let r = Receiver.receive (segment stream isn true opening) listening in
    Inserted stream opening (fresh 16) r.reassembler × (r.isn ≡ some isn)
receive-Inserted_example =
    receive-Inserted stream isn true opening listening fresh-HoldsAll opening-Fits

abbrev stray : TcpSenderMessage
stray = record { seqno = isn; syn = false; payload = 1 ∷ []; fin = false; rst = true }

silent_before_syn_example :
    let r = receive_each (stray ∷ record stray { rst = false; fin = true } ∷ []) listening in
    (r ≡ record listening { reassembler = with_error true (fresh 16) })
    × ((Receiver.send r).ackno ≡ none)
    × ((Receiver.send r).rst ≡ true)
unfolding any_rst
silent_before_syn_example =
    silent_before_syn (stray ∷ record stray { rst = false; fin = true } ∷ []) listening refl
      (refl, (refl, tt))

abbrev synced : TcpReceiver
synced = record { reassembler = fresh 16; isn = some isn }

send_example :
    (ackno : Wrap32) × ((Receiver.send synced).ackno ≡ some ackno)
    × (unwrap ackno isn 5 ≡ awaited synced)
    × ((Receiver.send synced).window_size
        ≡ min (synced.reassembler.output.capacity - length synced.reassembler.output.buffer) 65535)
    × ((Receiver.send synced).rst ≡ synced.reassembler.output.has_error)
unfolding fresh Reassembler.init ByteStream.init awaited
send_example =
    send_lem synced isn 5 fresh-HoldsAll.valid refl (ground arith) (ground arith) (ground arith)
      (ground arith)

closes_early_example :
    let r = Receiver.receive (misplaced isn 7) (synchronised isn 16) in
    (r.reassembler.output.stream_closed ≡ true)
    × (r.reassembler.output.total_pushed ≡ 0)
    × ((Receiver.send r).ackno ≡ some (wrap 2 isn))
closes_early_example = closes_early isn 16 7 (ground arith)

-- A sender of three bytes that has sent nothing.
abbrev input : ByteStream
input = record {
  capacity = 64;
  has_error = false;
  total_pushed = 3;
  buffer = 1 ∷ 2 ∷ 3 ∷ [];
  stream_closed = false;
  total_popped = 0;
}

input-IsValid : IsValid input
input-IsValid = record {
  width = ground arith;
  bounded = ground arith;
  pushed_width = ground arith;
  popped_width = ground arith;
  counted = refl;
}

abbrev closed : TcpSender
closed = record {
  input = input;
  isn = isn;
  initial_rto_ms = 1000;
  outstanding = [];
  rto = 1000;
  timer_time = 0;
  timer_on = false;
  abs_seqno = 0;
  abs_ackno = 0;
  consecutive_retransmissions = 0;
  window_size = 1;
  fin_sent = false;
}

closed-IsConsistent : IsConsistent 0 closed
closed-IsConsistent = record {
  input_valid = input-IsValid;
  chained = refl;
  window_width = ground arith;
  timed = inr refl;
}

push-Pushed_example : Ensures (Pushed 0 closed) (Sender.push closed)
push-Pushed_example = push-Pushed 0 closed (ground arith) (ground arith) closed-IsConsistent

-- The same sender with a segment of three numbers in flight.
abbrev first_segment : TcpSenderMessage
first_segment = record {
  seqno = wrap 0 isn;
  syn = true;
  payload = 8 ∷ 9 ∷ [];
  fin = false;
  rst = false;
}

abbrev in_flight : TcpSender
in_flight = record closed {
  outstanding = first_segment ∷ [];
  timer_on = true;
  abs_seqno = 3;
  window_size = 10;
}

in_flight-IsConsistent : IsConsistent 0 in_flight
unfolding sequence_length
in_flight-IsConsistent = record {
  input_valid = input-IsValid;
  chained = (refl, ground arith, ground arith, refl);
  window_width = ground arith;
  timed = inl refl;
}

receive_ackno_example : Acked 0 3 in_flight (receive_ackno 3 in_flight)
unfolding sequence_length sequence_numbers_in_flight total_length bytes_popped ByteStream.init
receive_ackno_example =
    receive_ackno-Acked 0 3 in_flight (ground arith) (ground arith, ground arith, ground arith)
      (ground arith) (ground arith) (ground arith) (ground arith) in_flight-IsConsistent

-- Two of the three numbers are acknowledged.
abbrev partly_acked : TcpSender
partly_acked = record in_flight { abs_ackno = 2 }

partly_acked-IsConsistent : IsConsistent 0 partly_acked
unfolding sequence_length
partly_acked-IsConsistent = record {
  input_valid = input-IsValid;
  chained = (refl, ground arith, ground arith, refl);
  window_width = ground arith;
  timed = inl refl;
}

accepts_unsent_example :
    let s = receive_ackno 4 partly_acked in
    (s.abs_ackno ≡ 4) × (s.abs_seqno < s.abs_ackno) × (s.outstanding ≡ [])
unfolding sequence_length sequence_numbers_in_flight total_length bytes_popped ByteStream.init
accepts_unsent_example =
    accepts_unsent 0 4 partly_acked (ground arith) (ground arith, ground arith, ground arith)
      (ground arith) (ground arith) (ground arith) (ground arith) (ground arith) (ground arith)
      (ground arith) partly_acked-IsConsistent

tick_example : Ensures (Ticked 1000 in_flight) (Sender.tick 1000 in_flight)
tick_example = tick-Ticked 1000 in_flight (λ on e. cc)

abbrev peer : TcpPeer
peer = record {
  cfg = default_config;
  sender = in_flight;
  receiver = synced;
  need_send = false;
  linger_after_streams_finish = true;
  cumulative_time = 20;
  time_of_last_receipt = 10;
}

abbrev answer : TcpMessage
answer = record {
  sender = record { seqno = wrap 1 isn; syn = false; payload = 5 ∷ []; fin = false; rst = false };
  receiver = record { ackno = some (wrap 3 isn); window_size = 20; rst = false };
}

answer-InReach :
    InReach 0 (acked_number answer (wrap 3 isn) peer) (take_window answer.receiver peer.sender)
unfolding sequence_length sequence_numbers_in_flight total_length bytes_popped take_window
answer-InReach =
    let answered : acked_number answer (wrap 3 isn) peer ≡ 3 =
      unwrap-wrap 3 isn 0 (ground arith) (ground arith) (ground arith) (ground arith) in
    record {
      word = ground arith;
      near = (ground arith, ground arith, ground arith);
      width = ground arith;
      no_wrap = ground arith;
      sent = omega (arith, answered);
      front = ground arith;
      room = ground arith;
    }

receive-Handled_example : Ensures (Handled answer peer) (Peer.receive answer peer)
unfolding active sequence_numbers_in_flight total_length sequence_length fresh Reassembler.init
    ByteStream.init
receive-Handled_example =
    receive-Handled 0 answer (wrap 3 isn) peer refl refl (ground arith) in_flight-IsConsistent
      answer-InReach

push-receive_undefined_example :
    Ensures
      (λ (out, p).
        (msg : TcpMessage) × (out ≡ msg ∷ [])
        × (msg.sender.syn ≡ true)
        × (msg.sender.seqno ≡ wrap 0 default_config.isn)
        × (Peer.receive msg (Peer.init default_config 5) ≡ fault undefined))
      (Peer.push (Peer.init default_config 3))
unfolding active Peer.init
push-receive_undefined_example =
    push-receive_undefined default_config 3 (Peer.init default_config 5) refl
