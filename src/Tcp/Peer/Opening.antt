-- ===== src/Tcp/Peer/Opening.antt =====
-- The first segment between two peers.
use internet.Prelude.{◌≡◌, refl, ℕ, true, none, [], ◌∷◌, fault, undefined, Ensures}
use internet.ByteStream
use internet.ByteStream.{bytes_buffered, is_finished, is_closed, read, read_loop}
use internet.Reassembler
use internet.Wrap32.{wrap}
use internet.Tcp.Messages.{TcpConfig, sequence_length, TcpMessage}
use internet.Tcp.Receiver
use internet.Tcp.Sender
use internet.Tcp.Sender.{
  push_loop, push_round, make_segment, record_segment, remaining_window_size,
  sequence_numbers_in_flight, total_length,
}
use internet.Tcp.Peer.{TcpPeer, init, send_all, push, active, handle, receive}

receive_without_ackno :
    (msg : TcpMessage) (p : TcpPeer)
    → active p ≡ true
    → msg.receiver.ackno ≡ none
    → receive msg p ≡ fault undefined
unfolding receive handle Sender.receive
receive_without_ackno msg p a e = rw (a, e)

-- The first `push` of a new peer, whatever its configuration, returns and sends one segment, the
-- SYN. A peer that receives it while it is active, a new one for instance, reads an empty
-- `std::optional`.
pub push-receive_undefined :
    (cfg : TcpConfig) (indeterminate : ℕ) (other : TcpPeer)
    → active other ≡ true
    → Ensures
        (λ (out, p).
          (msg : TcpMessage) × (out ≡ msg ∷ [])
          × (msg.sender.syn ≡ true)
          × (msg.sender.seqno ≡ wrap 0 cfg.isn)
          × (receive msg other ≡ fault undefined))
        (push (init cfg indeterminate))
unfolding push init send_all Receiver.send Receiver.init Reassembler.init ByteStream.init
    Sender.init Sender.push push_loop push_round make_segment record_segment remaining_window_size
    sequence_numbers_in_flight total_length sequence_length bytes_buffered is_finished read
    read_loop is_closed
push-receive_undefined cfg indeterminate other a =
    (_, refl, refl, refl, receive_without_ackno _ other a refl)
