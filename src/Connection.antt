-- ===== src/Connection.antt =====
-- One direction of a TCP connection: src/tcp_sender.cc and src/tcp_receiver.cc with a network
-- between them that may lose, repeat, delay and reorder segments, and an application at each end.
pub mod Segments
pub mod Sending
pub mod Control
pub mod Receiving
pub mod Safety
use internet.Prelude.{
  ℕ, ◌+◌, ◌^◌, ◌≤◌, ◌<◌, ◌≡◌, ◌≢◌, ◌⊎◌, false, List, [], ◌∷◌, ◌++◌, length, Bytes, u16_mod, ok,
}
use internet.ByteStream
use internet.ByteStream.{ByteStream, close}
use internet.Reassembler
use internet.Reassembler.{Reassembler}
use internet.Reassembler.Slices.{slice}
use internet.Reassembler.Delivery.{read_some}
use internet.Wrap32.{Wrap32}
use internet.Wrap32.Unwrap.{gap}
use internet.Tcp.Messages.{TcpSenderMessage, TcpReceiverMessage, sequence_length}
use internet.Tcp.Sender
use internet.Tcp.Sender.{TcpSender}
use internet.Tcp.Receiver
use internet.Tcp.Receiver.{TcpReceiver}

-- A segment that was transmitted, with the absolute number of its first sequence number.
abbrev pub Numbered : Type 0
Numbered = ℕ × TcpSenderMessage

abbrev pub numbered : ℕ → List TcpSenderMessage → List Numbered
numbered start [] = []
numbered start (m ∷ ms) = (start, m) ∷ numbered (start + sequence_length m) ms

abbrev pub Among : {A : Type 0} → A → List A → Type 0
Among x [] = ⊥
Among x (y ∷ ys) = (x ≡ y) ⊎ Among x ys

-- `network` holds all that was ever transmitted; `got` is what the reader has received.
pub record Connection : Type 0 where
  pub sender : TcpSender
  pub network : List Numbered
  pub receiver : TcpReceiver
  pub got : Bytes

-- The application writes to the sender's stream and reads from the receiver's.
abbrev pub write : Bytes → TcpSender → TcpSender
write bs s = record s { input = ByteStream.push bs s.input }

abbrev pub finish : TcpSender → TcpSender
finish s = record s { input = close s.input }

-- What may happen to a connection over which the `size` bytes of `stream` are to be sent.
pub data Step (stream : ℕ → ℕ) (size : ℕ) (c : Connection) : Connection → Type 0 where
  -- The application writes the next bytes, and what does not fit is dropped.
  writes :
      (n : ℕ)
      → c.sender.input.stream_closed ≡ false
      → c.sender.input.total_pushed + n ≤ size
      → Step stream size c
          (record c { sender = write (slice stream c.sender.input.total_pushed n) c.sender })
  -- It closes the stream when everything has been written.
  closes :
      c.sender.input.total_pushed ≡ size
      → Step stream size c (record c { sender = finish c.sender })
  pushes :
      {ms : List TcpSenderMessage} {s : TcpSender}
      → Sender.push c.sender ≡ ok (ms, s)
      → Step stream size c
          (record c { sender = s; network = numbered c.sender.abs_seqno ms ++ c.network })
  -- An empty message, as the peer sends to acknowledge once the SYN has been sent.
  replies :
      c.sender.abs_seqno ≢ 0
      → Step stream size c (record c {
        network = (c.sender.abs_seqno, Sender.make_empty_message c.sender) ∷ c.network;
      })
  -- A retransmission puts nothing new on the network, which repeats segments as it likes.
  ticks :
      (t : ℕ) {ms : List TcpSenderMessage} {s : TcpSender}
      → Sender.tick t c.sender ≡ ok (ms, s)
      → Step stream size c (record c { sender = s })
  -- Any acknowledgment at all may arrive.
  acknowledges :
      (m : TcpReceiverMessage) {s : TcpSender}
      → m.window_size < u16_mod
      → Sender.receive m c.sender ≡ ok s
      → Step stream size c (record c { sender = s })
  -- A segment arrives that is less than 2^31 away from what has been pushed.
  arrives :
      (k : ℕ) (m : TcpSenderMessage)
      → Among (k, m) c.network
      → gap k c.receiver.reassembler.output.total_pushed + 1 < 2 ^ 31
      → Step stream size c (record c { receiver = Receiver.receive m c.receiver })
  -- The reader takes some of the bytes that are buffered.
  reads :
      (n : ℕ)
      → n ≤ length c.receiver.reassembler.output.buffer
      → Step stream size c (record c {
        receiver = record (c.receiver) { reassembler = (read_some n c.receiver.reassembler).1 };
        got = c.got ++ (read_some n c.receiver.reassembler).0;
      })

-- A connection of which nothing has happened; `indeterminate` is what `abs_ackno_` holds.
unfoldable pub opened : Wrap32 → ℕ → ℕ → ℕ → ℕ → Connection
opened isn send_capacity recv_capacity rto indeterminate = record {
  sender = Sender.init (ByteStream.init send_capacity) isn rto indeterminate;
  network = [];
  receiver = Receiver.init (Reassembler.init (ByteStream.init recv_capacity));
  got = [];
}

pub data Reach (stream : ℕ → ℕ) (size : ℕ) (start : Connection) : Connection → Type 0 where
  here : Reach stream size start start
  next :
      {c d : Connection}
      → Reach stream size start c
      → Step stream size c d
      → Reach stream size start d
