-- ===== src/Tcp/Receiver/Segments.antt =====
-- `TCPReceiver::receive` on the segments of a sender's stream.
use internet.Prelude.{
  ℕ, ◌+◌, ◌^◌, ◌<◌, ◌≡◌, refl, sym, ap, Bool, true, false, none, some, arith, if◌then◌else◌,
  u64_mod,
}
use internet.Wrap32.{Wrap32, wrap}
use internet.Wrap32.Unwrap.{IsWord, gap, unwrap-wrap}
use internet.Reassembler.{insert}
use internet.Reassembler.Slices.{slice}
use internet.Reassembler.Insert.{Piece, insert_piece, HoldsAll, Inserted, insert-Inserted}
use internet.Tcp.Messages.{TcpSenderMessage}
use internet.Tcp.Receiver.{TcpReceiver, fail, receive}

-- The segment that carries a piece of the stream: the SYN has the number `isn` itself, and the byte
-- at index `i` of the stream the number `isn + i + 1`.
unfoldable pub segment : (ℕ → ℕ) → Wrap32 → Bool → Piece → TcpSenderMessage
segment stream isn syn p = record {
  seqno = if syn then isn else wrap (p.first + 1) isn;
  syn = syn;
  payload = slice stream p.first p.size;
  fin = p.is_last;
  rst = false;
}

-- The receiver waits for the SYN, or has seen the one of this stream; a segment with the SYN is at
-- the stream's beginning; and a segment is less than 2^31 away from what has been pushed.
pub record Fits (isn : Wrap32) (syn : Bool) (p : Piece) (r : TcpReceiver) : Type 0 where
  pub word : IsWord isn
  pub known : if syn then p.first ≡ 0 else r.isn ≡ some isn
  pub near : gap (p.first + 1) r.reassembler.output.total_pushed < 2 ^ 31
  pub range : p.first + p.size + 1 < u64_mod

-- `receive` inserts the payload of such a segment at its index in the stream.
pub receive-segment :
    (stream : ℕ → ℕ) (isn : Wrap32) (syn : Bool) (p : Piece) (r : TcpReceiver)
    → r.reassembler.output.total_pushed < u64_mod
    → Fits isn syn p r
    → receive (segment stream isn syn p) r
      ≡ record { reassembler = insert_piece stream p r.reassembler; isn = some isn }
unfolding receive segment insert_piece
receive-segment stream isn true p r w f =
    ap
      (λ k. record {
        reassembler = insert k (slice stream p.first p.size) p.is_last r.reassembler;
        isn = some isn;
      })
      (sym f.known)
receive-segment stream isn false p r w f =
    rw
      (
        f.known,
        unwrap-wrap (p.first + 1) isn r.reassembler.output.total_pushed f.word (omega arith) w
            f.near,
      )
      (ap
        (λ k. record {
          reassembler = insert k (slice stream p.first p.size) p.is_last r.reassembler;
          isn = some isn;
        })
        (omega arith))

-- Where a segment `Fits` and the reassembler holds bytes of the stream, `receive` puts the
-- segment's piece into the reassembler at its place in the stream, with all that `Inserted` says,
-- and the zero point is known.
pub receive-Inserted :
    (stream : ℕ → ℕ) (isn : Wrap32) (syn : Bool) (p : Piece) (r : TcpReceiver)
    → HoldsAll stream r.reassembler
    → Fits isn syn p r
    → let r' = receive (segment stream isn syn p) r in
      Inserted stream p r.reassembler r'.reassembler × (r'.isn ≡ some isn)
receive-Inserted stream isn syn p r h f =
    rw (receive-segment stream isn syn p r h.valid.pushed_width f)
      (insert-Inserted stream p r.reassembler (omega arith) h, refl)

-- Before the SYN no segment reaches the reassembler: at most the error flag is set.
pub receive_before_syn :
    (m : TcpSenderMessage) (r : TcpReceiver)
    → r.isn ≡ none
    → m.syn ≡ false
    → receive m r
      ≡ record { reassembler = if m.rst then fail r.reassembler else r.reassembler; isn = none }
unfolding receive
receive_before_syn m r e n = rw (n, e)
