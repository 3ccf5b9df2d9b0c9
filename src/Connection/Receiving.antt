-- ===== src/Connection/Receiving.antt =====
-- What the receiver makes of segments of the stream, and what its reader gets.
use internet.Prelude.{
  ℕ, ◌+◌, ◌-◌, ◌^◌, ◌≤◌, ◌<◌, ◌≡◌, refl, sym, ap, subst, ◌∙◌, ◌⊎◌, inl, inr, Bool, true, false,
  none, some, ◌++◌, arith, ltb, if◌then◌else◌, bit, ltb→lt, Bool-cases, length, Bytes, u64_mod,
}
use mathlib.Core.Path.{ap₂}
use internet.Wrap32.{Wrap32}
use internet.Wrap32.Unwrap.{IsWord, gap}
use internet.ByteStream.{pop}
use internet.ByteStream.Invariant.{set_error-IsValid}
use internet.Reassembler.{Reassembler}
use internet.Reassembler.Slices.{slice, slice-append}
use internet.Reassembler.Stream.{Known, total_pushed_lem}
use internet.Reassembler.Insert.{Piece, insert_piece, HoldsAll, Inserted, insert-Inserted}
use internet.Reassembler.Bounds.{Bounded, insert_piece-Bounded}
use internet.Reassembler.Delivery.{read_some, read_some-Stepped, Stepped}
use internet.Tcp.Messages.{TcpSenderMessage}
use internet.Tcp.Receiver.{TcpReceiver, fail, receive}
use internet.Tcp.Receiver.Segments.{segment, receive-segment, receive_before_syn}
use internet.Connection.{Numbered}
use internet.Connection.Segments.{Carried, bit_le}

-- The receiver's side of the bargain.
pub record Hears (stream : ℕ → ℕ) (total : ℕ) (isn : Wrap32) (r : TcpReceiver) (got : Bytes)
    : Type 0 where
  pub holds : HoldsAll stream r.reassembler
  pub bounded : Bounded total r.reassembler.output.total_pushed r.reassembler.unassembled
  pub known : (r.isn ≡ none) ⊎ (r.isn ≡ some isn)
  pub ends : (r.reassembler.end_of_stream ≡ u64_mod - 1) ⊎ (r.reassembler.end_of_stream ≡ total)
  pub closed : r.reassembler.output.stream_closed ≡ true → r.reassembler.output.total_pushed ≡ total
  pub reader : got ≡ slice stream 0 r.reassembler.output.total_popped
  pub room : total + r.reassembler.output.capacity + r.reassembler.output.capacity < u64_mod

-- What was pushed stays pushed.
pushed_le :
    {stream : ℕ → ℕ} {p : Piece} {r r' : Reassembler}
    → Inserted stream p r r'
    → r.output.total_pushed ≤ r'.output.total_pushed
pushed_le {r} {r'} i = elim (Bool-cases (ltb r'.output.total_pushed r.output.total_pushed)) [
  | inr e ↦ ground arith
  | inl e ↦ absurd (known (i.keeps r'.output.total_pushed (inl (ltb→lt _ _ e))))
]
  where
    known : Known r'.output.total_pushed r'.output.total_pushed r'.unassembled → ⊥
    known (inl h) = omega arith
    known (inr h) = h i.stopped

closed_lem :
    {stream : ℕ → ℕ} {total : ℕ} {p : Piece} {r r' : Reassembler}
    → total + 3 < u64_mod
    → Inserted stream p r r'
    → r'.output.total_pushed ≤ total
    → (p.is_last ≡ true → p.first + p.size ≡ total)
    → (r.end_of_stream ≡ u64_mod - 1) ⊎ (r.end_of_stream ≡ total)
    → (r.output.stream_closed ≡ true → r.output.total_pushed ≡ total)
    → ((r'.end_of_stream ≡ u64_mod - 1) ⊎ (r'.end_of_stream ≡ total))
      × (r'.output.stream_closed ≡ true → r'.output.total_pushed ≡ total)
closed_lem small i b last ends closed =
    (ground (arith, i.ends), λ e. ground (arith, i.ends, i.closes, pushed_le i, e))

insert-Hears :
    (stream : ℕ → ℕ) (total : ℕ) (isn : Wrap32) (p : Piece) (r : TcpReceiver) (got : Bytes)
    → total + 3 < u64_mod
    → (p.size ≡ 0) ⊎ (p.first + p.size ≤ total)
    → p.first + p.size ≤ total + 1
    → (p.is_last ≡ true → p.first + p.size ≡ total)
    → Hears stream total isn r got
    → Hears stream total isn
        (record { reassembler = insert_piece stream p r.reassembler; isn = some isn })
        got
insert-Hears stream total isn p r got small within range last h = record {
  holds = i.holds;
  bounded = b;
  known = inr refl;
  ends = (closed_lem small i b.0 last h.ends h.closed).0;
  closed = (closed_lem small i b.0 last h.ends h.closed).1;
  reader = h.reader ∙ ap (slice stream 0) (sym i.same_popped);
  room = omega (arith, h.room, i.same_capacity);
}
  where
    i : Inserted stream p r.reassembler (insert_piece stream p r.reassembler)
    i = insert-Inserted stream p r.reassembler (omega arith) h.holds

    b :
        Bounded total
          (insert_piece stream p r.reassembler).output.total_pushed
          (insert_piece stream p r.reassembler).unassembled
    b =
        insert_piece-Bounded stream total p r.reassembler within (omega arith) (omega arith) h.holds
          h.bounded

-- The reset flag only marks the output.
fail-Hears :
    (stream : ℕ → ℕ) (total : ℕ) (isn : Wrap32) (b : Bool) (r : TcpReceiver) (got : Bytes)
    → Hears stream total isn r got
    → Hears stream total isn
        (record r { reassembler = if b then fail r.reassembler else r.reassembler })
        got
unfolding fail
fail-Hears stream total isn false r got h = h
fail-Hears stream total isn true r got h = record {
  holds = record {
    valid = set_error-IsValid h.holds.valid;
    fits = h.holds.fits;
    bytes = h.holds.bytes;
    agrees = h.holds.agrees;
    distinct = h.holds.distinct;
    within = h.holds.within;
  };
  bounded = h.bounded;
  known = h.known;
  ends = h.ends;
  closed = h.closed;
  reader = h.reader;
  room = h.room;
}

receive-rst :
    (m : TcpSenderMessage) (r : TcpReceiver)
    → receive m r
      ≡ receive
          (record m { rst = false })
          (record r { reassembler = if m.rst then fail r.reassembler else r.reassembler })
unfolding receive
receive-rst m r = refl

segment-Hears :
    (stream : ℕ → ℕ) (total : ℕ) (isn : Wrap32) (syn : Bool) (p : Piece) (k : ℕ) (r : TcpReceiver)
    (got : Bytes)
    → IsWord isn
    → total + 3 < u64_mod
    → gap k r.reassembler.output.total_pushed + 1 < 2 ^ 31
    → k + bit syn ≡ p.first + 1
    → (syn ≡ true → p.first ≡ 0)
    → (p.size ≡ 0) ⊎ (p.first + p.size ≤ total)
    → p.first + p.size ≤ total + 1
    → (p.is_last ≡ true → p.first + p.size ≡ total)
    → Hears stream total isn r got
    → Hears stream total isn (receive (segment stream isn syn p) r) got
unfolding segment
segment-Hears stream total isn syn p k r got word small near place start within range last h =
    go syn place start h.known
  where
    placed :
        (b : Bool)
        → k + bit b ≡ p.first + 1
        → (if b then p.first ≡ 0 else r.isn ≡ some isn)
        → Hears stream total isn (receive (segment stream isn b p) r) got
    placed b e known =
        rw
          (receive-segment stream isn b p r h.holds.valid.pushed_width (record {
            word = word;
            known = known;
            near = omega (arith, near, e, bit_le b);
            range = omega (arith, range, small);
          }))
          (insert-Hears stream total isn p r got small within range last h)

    go :
        (b : Bool)
        → k + bit b ≡ p.first + 1
        → (b ≡ true → p.first ≡ 0)
        → (r.isn ≡ none) ⊎ (r.isn ≡ some isn)
        → Hears stream total isn (receive (segment stream isn b p) r) got
    go true e z known = placed true e (z refl)
    go false e z (inr i) = placed false e i
    go false e z (inl n) = rw (receive_before_syn (segment stream isn false p) r n refl) (
        subst (λ o. Hears stream total isn (record { reassembler = r.reassembler; isn = o }) got) n
          h)

-- A segment that carries a piece of the stream and is near enough.
pub receive-Hears :
    (stream : ℕ → ℕ) (total : ℕ) (isn : Wrap32) (e : Numbered) (r : TcpReceiver) (got : Bytes)
    → IsWord isn
    → total + 3 < u64_mod
    → gap e.0 r.reassembler.output.total_pushed + 1 < 2 ^ 31
    → Carried stream total isn e
    → Hears stream total isn r got
    → Hears stream total isn (receive e.1 r) got
unfolding segment fail
receive-Hears stream total isn e r got word small near c h =
    subst (λ (r' : TcpReceiver). Hears stream total isn r' got) (sym by_shape)
      (segment-Hears stream total isn c.syn c.piece e.0 marked got word small
        (marked_near e.1.rst near) c.place c.start c.within c.range c.last
        (fail-Hears stream total isn e.1.rst r got h))
  where
    marked : TcpReceiver
    marked = record r { reassembler = if e.1.rst then fail r.reassembler else r.reassembler }

    marked_near :
        (b : Bool)
        → gap e.0 r.reassembler.output.total_pushed + 1 < 2 ^ 31
        → gap e.0 (if b then fail r.reassembler else r.reassembler).output.total_pushed + 1 < 2 ^ 31
    marked_near true n = n
    marked_near false n = n

    by_shape : receive e.1 r ≡ receive (segment stream isn c.syn c.piece) marked
    by_shape = receive-rst e.1 r ∙ ap (λ m. receive (record m { rst = false }) marked) c.shape

-- The reader takes bytes out.
pub read-Hears :
    (stream : ℕ → ℕ) (total : ℕ) (isn : Wrap32) (n : ℕ) (r : TcpReceiver) (got : Bytes)
    → n ≤ length r.reassembler.output.buffer
    → Hears stream total isn r got
    → Hears stream total isn
        (record r { reassembler = (read_some n r.reassembler).1 })
        (got ++ (read_some n r.reassembler).0)
unfolding read_some pop
read-Hears stream total isn n r got le h = record {
  holds = s.holds;
  bounded = h.bounded;
  known = h.known;
  ends = h.ends;
  closed = h.closed;
  reader =
      ap₂ ◌++◌ h.reader s.bytes
      ∙ ap
          (λ k.
            slice stream 0 r.reassembler.output.total_popped
            ++ slice stream k (length (read_some n r.reassembler).0))
          (omega arith)
      ∙ slice-append stream 0 r.reassembler.output.total_popped
          (length (read_some n r.reassembler).0)
      ∙ ap (slice stream 0) (sym s.advance);
  room = h.room;
}
  where
    s : Stepped stream r.reassembler n (read_some n r.reassembler)
    s =
        read_some-Stepped stream n r.reassembler
          (omega (arith, total_pushed_lem h.holds, h.bounded.0, h.room, h.holds.valid.bounded))
          h.holds
