-- ===== src/Tests/Connections.antt =====
-- A connection of one segment, step by step.
use internet.Prelude.{
  ℕ, ◌+◌, ◌≤◌, ◌≡◌, refl, inl, true, false, some, List, [], ◌++◌, arith, ok, fault,
}
use internet.ByteStream
use internet.Reassembler
use internet.Map.{lookup, insert, erase}
use internet.Wrap32.{wrap, unwrap}
use internet.Reassembler.Slices.{slice}
use internet.Reassembler.Delivery.{read_some}
use internet.Tcp.Messages.{TcpSenderMessage, TcpReceiverMessage, sequence_length}
use internet.Tcp.Sender
use internet.Tcp.Sender.{TcpSender}
use internet.Tcp.Receiver
use internet.Connection.{
  Connection, Step, writes, pushes, acknowledges, arrives, reads, Reach, here, next, opened,
  numbered, write,
}
use internet.Connection.Safety.{delivered_safely}

abbrev stream : ℕ → ℕ
stream n = n + 65

abbrev start : Connection
start = opened (record { raw_value = 100 }) 64 16 1000 0

-- What the sender makes of a push.
abbrev pushed : TcpSender → List TcpSenderMessage × TcpSender
pushed s = elim (Sender.push s) [ ok out ↦ out | fault e ↦ ([], s) ]

abbrev written : TcpSender
written = write (slice stream 0 3) start.sender

abbrev first : List TcpSenderMessage × TcpSender
first = pushed written

first-ok : Sender.push written ≡ ok (first.0, first.1)
unfolding Sender.push opened Sender.init ByteStream.init slice ByteStream.push ByteStream.read
    sequence_length
first-ok = refl

abbrev syn : TcpSenderMessage
syn = record {
  seqno = record { raw_value = 100 };
  syn = true;
  payload = [];
  fin = false;
  rst = false;
}

abbrev acknowledgment : TcpReceiverMessage
acknowledgment = record {
  ackno = some (record { raw_value = 101 });
  window_size = 1000;
  rst = false;
}

-- What the sender makes of an acknowledgment.
abbrev acknowledged : TcpReceiverMessage → TcpSender → TcpSender
acknowledged m s = elim (Sender.receive m s) [ ok s' ↦ s' | fault e ↦ s ]

abbrev second : List TcpSenderMessage × TcpSender
second = pushed (acknowledged acknowledgment first.1)

abbrev bytes : TcpSenderMessage
bytes = record {
  seqno = record { raw_value = 101 };
  syn = false;
  payload = slice stream 0 3;
  fin = false;
  rst = false;
}

-- The bytes are written, the SYN is sent and arrives, an acknowledgment comes back, the bytes are
-- sent and arrive, and two of them are read.
abbrev after_writing : Connection
after_writing = record start { sender = written }

abbrev after_first : Connection
after_first = record after_writing { sender = first.1; network = numbered 0 first.0 }

abbrev after_syn : Connection
after_syn = record after_first { receiver = Receiver.receive syn after_first.receiver }

abbrev after_acknowledgment : Connection
after_acknowledgment = record after_syn { sender = acknowledged acknowledgment first.1 }

abbrev after_second : Connection
after_second = record after_acknowledgment {
  sender = second.1;
  network = numbered 1 second.0 ++ after_acknowledgment.network;
}

abbrev after_bytes : Connection
after_bytes = record after_second { receiver = Receiver.receive bytes after_second.receiver }

abbrev after_reading : Connection
after_reading = record after_bytes {
  receiver = record (after_bytes.receiver) {
    reassembler = (read_some 2 after_bytes.receiver.reassembler).1;
  };
  got = (read_some 2 after_bytes.receiver.reassembler).0;
}

writing : Step stream 3 start after_writing
unfolding opened Sender.init ByteStream.init
writing = writes 3 refl (omega arith)

sending_syn : Step stream 3 after_writing after_first
unfolding Sender.push Sender.receive opened Sender.init ByteStream.init slice ByteStream.push
    ByteStream.read sequence_length Receiver.init Receiver.receive Reassembler.init
    Reassembler.insert lookup insert erase wrap unwrap read_some
sending_syn = pushes first-ok

syn_arriving : Step stream 3 after_first after_syn
unfolding Sender.push Sender.receive opened Sender.init ByteStream.init slice ByteStream.push
    ByteStream.read sequence_length Receiver.init Receiver.receive Reassembler.init
    Reassembler.insert lookup insert erase wrap unwrap read_some
syn_arriving = arrives 0 syn (inl refl) (omega arith)

acknowledging : Step stream 3 after_syn after_acknowledgment
unfolding Sender.push Sender.receive opened Sender.init ByteStream.init slice ByteStream.push
    ByteStream.read sequence_length Receiver.init Receiver.receive Reassembler.init
    Reassembler.insert lookup insert erase wrap unwrap read_some
acknowledging = acknowledges acknowledgment (omega arith) refl

sending_bytes : Step stream 3 after_acknowledgment after_second
unfolding Sender.push Sender.receive opened Sender.init ByteStream.init slice ByteStream.push
    ByteStream.read sequence_length Receiver.init Receiver.receive Reassembler.init
    Reassembler.insert lookup insert erase wrap unwrap read_some
sending_bytes = pushes refl

bytes_arriving : Step stream 3 after_second after_bytes
unfolding Sender.push Sender.receive opened Sender.init ByteStream.init slice ByteStream.push
    ByteStream.read sequence_length Receiver.init Receiver.receive Reassembler.init
    Reassembler.insert lookup insert erase wrap unwrap read_some
bytes_arriving = arrives 1 bytes (inl refl) (omega arith)

reading : Step stream 3 after_bytes after_reading
unfolding Sender.push Sender.receive opened Sender.init ByteStream.init slice ByteStream.push
    ByteStream.read sequence_length Receiver.init Receiver.receive Reassembler.init
    Reassembler.insert lookup insert erase wrap unwrap read_some
reading = reads 2 (omega arith)

reached : Reach stream 3 start after_reading
reached =
    next
      (next
        (next (next (next (next (next here writing) sending_syn) syn_arriving) acknowledging)
          sending_bytes)
        bytes_arriving)
      reading

delivered_safely_example :
    let output = after_reading.receiver.reassembler.output in
    (after_reading.got ++ output.buffer ≡ slice stream 0 output.total_pushed)
    × (output.total_pushed ≤ 3)
    × (output.stream_closed ≡ true → after_reading.got ++ output.buffer ≡ slice stream 0 3)
delivered_safely_example =
    delivered_safely stream 3 (record { raw_value = 100 }) 64 16 1000 0 (omega arith) (omega arith)
      (omega arith) (omega arith) reached
