-- ===== src/Tcp/Receiver/Acks.antt =====
-- `TCPReceiver::send`: the acknowledgment, the window and the reset flag.
use internet.Prelude.{
  ℕ, ◌+◌, ◌-◌, ◌^◌, ◌<◌, min, ◌≡◌, refl, ap, ◌↔◌, true, false, none, some, [], ◌∷◌, arith, leb, bit,
  length, u64_mod, add64, sub64,
}
use internet.Map.{lookup}
use internet.Wrap32.{Wrap32, wrap, unwrap}
use internet.Wrap32.Unwrap.{IsWord, gap, unwrap-wrap}
use internet.ByteStream.{ByteStream, bytes_pushed, is_closed, available_capacity}
use internet.ByteStream.Invariant.{IsValid, available_capacity_lem}
use internet.Reassembler.{Reassembler}
use internet.Tcp.Receiver.{TcpReceiver, send, receive}
use internet.Tcp.Messages.{TcpSenderMessage}
use internet.Reassembler
use internet.ByteStream

-- The next sequence number awaited, counted from the SYN: the bytes pushed, the SYN, and the FIN
-- once the stream is closed.
abbrev pub awaited : TcpReceiver → ℕ
awaited r = r.reassembler.output.total_pushed + 1 + bit r.reassembler.output.stream_closed

-- Once the SYN has been seen and the output is valid, the message tells a peer that unwraps the
-- acknowledgment with a checkpoint less than 2^31 away what is awaited, and offers the room that
-- the output has, as far as 16 bits go; the reset flag is the output's error.
pub send_lem :
    (r : TcpReceiver) (isn : Wrap32) (checkpoint : ℕ)
    → IsValid r.reassembler.output
    → r.isn ≡ some isn
    → IsWord isn
    → awaited r < u64_mod
    → checkpoint < u64_mod
    → gap (awaited r) checkpoint < 2 ^ 31
    → (ackno : Wrap32) × ((send r).ackno ≡ some ackno)
      × (unwrap ackno isn checkpoint ≡ awaited r)
      × ((send r).window_size
          ≡ min (r.reassembler.output.capacity - length r.reassembler.output.buffer) 65535)
      × ((send r).rst ≡ r.reassembler.output.has_error)
unfolding send bytes_pushed is_closed
send_lem r isn checkpoint v e word w hc near = (
  wrap (awaited r) isn,
  rw e (ap (λ k. some (wrap k isn)) (ground arith)),
  unwrap-wrap (awaited r) isn checkpoint word w hc near,
  omega (arith, available_capacity_lem v),
  refl,
)

-- The acknowledgment is there exactly when a SYN has been seen.
pub ackno_iff : (r : TcpReceiver) → ((send r).ackno ≡ none) ↔ (r.isn ≡ none)
unfolding send
ackno_iff r = ground arith

unwrap_zero : (isn : Wrap32) → IsWord isn → unwrap isn isn 0 ≡ 0
unfolding unwrap
unwrap_zero isn word = ground arith

below_index : (capacity : ℕ) → leb (add64 0 (sub64 capacity 0)) (u64_mod - 1) ≡ true
below_index capacity = ground arith

-- A receiver that has seen the SYN `isn` and nothing else.
abbrev pub synchronised : Wrap32 → ℕ → TcpReceiver
synchronised isn capacity = record {
  reassembler = Reassembler.init (ByteStream.init capacity);
  isn = some isn;
}

-- The number of the SYN without the SYN flag, the byte `b`, and the FIN.
abbrev pub misplaced : Wrap32 → ℕ → TcpSenderMessage
misplaced isn b = record { seqno = isn; syn = false; payload = b ∷ []; fin = true; rst = false }

-- A segment without the SYN whose number is the SYN's own, with one byte and the FIN, closes a
-- stream of which nothing has arrived: its index, -1, and the byte wrap round to the end index 0.
-- The receiver then acknowledges a FIN.
pub closes_early :
    (isn : Wrap32) (capacity b : ℕ)
    → IsWord isn
    → let r = receive (misplaced isn b) (synchronised isn capacity) in
      (r.reassembler.output.stream_closed ≡ true)
      × (r.reassembler.output.total_pushed ≡ 0)
      × ((send r).ackno ≡ some (wrap 2 isn))
unfolding receive send Reassembler.insert Reassembler.init ByteStream.init ByteStream.close lookup
closes_early isn capacity b word =
    rw (unwrap_zero isn word) (rw (below_index capacity) (refl, refl, refl))
