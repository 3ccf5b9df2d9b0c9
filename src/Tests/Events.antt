-- ===== src/Tests/Events.antt =====
-- The theorems on descriptors, the event loop and adapters at concrete inputs.
use internet.Prelude.{
  ℕ, suc, ◌+◌, ◌≡◌, refl, ap, true, false, none, List, [], ◌∷◌, ◌++◌, map, arith, ltb, length, take,
  Bytes, Exec, ok, Ensures,
}
use internet.FileDescriptor.{FdWrapper, Returned, returned, write_all}
use internet.FileDescriptor.Transfers.{Accepts, write_all_lem}
use internet.EventLoop
use internet.EventLoop.{EventLoop, BasicRule, Store, PollFd, Revents, not_socket, wait_next_event}
use internet.EventLoop.Safety.{InRange, StaysValid, wait_next_event-StaysValid}
use internet.LossyFdAdapter.{Adapter}
use internet.LossyFdAdapter.Losses.{Op, reads, writes}
use internet.MinnowSocket.{drain_inbound, inbound}
use internet.MinnowSocket.Streams.{drain_inbound_lem}
use internet.Tcp.Messages.{TcpMessage, default_config}
use internet.Tcp.Peer
use internet.Tcp.Peer.{TcpPeer}

abbrev wrapper : FdWrapper
wrapper = record {
  fd = 3;
  eof = false;
  closed = false;
  non_blocking = false;
  read_count = 0;
  write_count = 0;
}

-- A system that takes one byte at a time; its state is what it has.
abbrev one_byte : Bytes → Bytes → Returned × Bytes
one_byte b got = (returned 1, got ++ take 1 b)

one_byte-Accepts : Accepts one_byte (λ got. got)
one_byte-Accepts = record {
  taken = λ _ _. 1;
  next = λ b got. got ++ take 1 b;
  answers = λ _ _ _. refl;
  some_taken = λ _ _ _. omega arith;
  no_more = λ b got pos. omega arith;
  grows = λ _ _ _. refl;
}

write_all_example :
    Ensures
      (λ (_, got). got ≡ (9 ∷ []) ++ (1 ∷ 2 ∷ 3 ∷ []))
      (write_all one_byte (1 ∷ 2 ∷ 3 ∷ []) wrapper (9 ∷ []))
write_all_example =
    write_all_lem one_byte (λ got. got) one_byte-Accepts (1 ∷ 2 ∷ 3 ∷ []) wrapper (9 ∷ []) refl

-- A rule that counts, is always interested, and belongs to the only category.
abbrev counting : BasicRule ℕ
counting = record {
  handle = 0;
  category_id = 0;
  interest = λ _. true;
  callback = λ s. ok (record s { world = s.world + 1 });
}

abbrev event_loop : EventLoop ℕ
event_loop = record {
  rule_categories = (97 ∷ []) ∷ [];
  capacity = 64;
  fd_rules =
      record {
        rule = record counting { handle = 1 };
        fd = 0;
        direction = EventLoop.direction_in;
        cancel = λ s. ok s;
        error = λ s. ok s;
      }
      ∷ [];
  non_fd_rules = record counting { interest = λ s. ltb s.world 5 } ∷ [];
  next_handle = 2;
}

abbrev store : Store ℕ
store = record { world = 0; files = λ _. wrapper; cancel_requested = λ _. false }

-- Every descriptor that is polled can be read.
abbrev readable : PollFd → PollFd × Revents
readable p = (
  p,
  record { pollin = true; pollout = false; pollerr = false; pollnval = false; pollhup = false },
)

abbrev poll : List PollFd → ℕ → Exec (ℕ × List (PollFd × Revents))
poll fds timeout_ms = ok (length fds, map readable fds)

length-map-readable : (fds : List PollFd) → length (map readable fds) ≡ length fds
length-map-readable [] = refl
length-map-readable (f ∷ fds) = ap suc (length-map-readable fds)

wait_next_event_example :
    InRange (StaysValid event_loop) (wait_next_event poll (λ _. not_socket) 10 event_loop store)
wait_next_event_example =
    wait_next_event-StaysValid poll (λ _. not_socket) 10 event_loop store
      (record {
        basic = ((omega arith, λ s. tt), tt);
        fd = (((omega arith, λ s. tt), (λ s. tt), (λ s. tt)), tt);
      })
      λ fds timeout_ms. length-map-readable fds

-- An adapter that loses half of what is written and nothing that is read; its state is what was
-- written.
abbrev adapter : Adapter (List TcpMessage)
adapter = record {
  fd = λ _. wrapper;
  loss_rate_dn = λ _. 0;
  loss_rate_up = λ _. 32768;
  read = λ ms. ok (none, ms);
  write = λ m ms. ok (m ∷ ms);
  set_listening = λ _ ms. ms;
  tick = λ _ ms. ms;
}

abbrev segment : TcpMessage
segment = record {
  sender = record {
    seqno = record { raw_value = 7 };
    syn = false;
    payload = 1 ∷ 2 ∷ [];
    fin = false;
    rst = false;
  };
  receiver = record { ackno = none; window_size = 10; rst = false };
}

-- The random engine counts.
abbrev next : ℕ → ℕ × ℕ
next n = (n, n + 1)

-- The numbers 32767 and 32768 are drawn.
abbrev calls : List Op
calls = writes segment ∷ reads ∷ writes segment ∷ []

abbrev peer : TcpPeer
peer = Peer.init default_config 0

abbrev holding : TcpPeer
holding = record peer {
  receiver = record (peer.receiver) {
    reassembler = record (peer.receiver.reassembler) {
      output = record {
        capacity = 10;
        has_error = false;
        total_pushed = 3;
        buffer = 1 ∷ 2 ∷ 3 ∷ [];
        stream_closed = false;
        total_popped = 0;
      };
    };
  };
}

drain_inbound_example :
    Ensures
      (λ (p, _, got). got ++ (inbound p).buffer ≡ (9 ∷ []) ++ (1 ∷ 2 ∷ 3 ∷ []))
      (drain_inbound one_byte wrapper (9 ∷ []) holding)
drain_inbound_example =
    drain_inbound_lem one_byte (λ got. got) one_byte-Accepts wrapper (9 ∷ []) holding
      (record {
        width = omega arith;
        bounded = omega arith;
        pushed_width = omega arith;
        popped_width = omega arith;
        counted = refl;
      })
