-- ===== src/Connection/Control.antt =====
-- The sender's other steps: writes, the end of the stream, acknowledgments, retransmissions.
use internet.Prelude.{
  ℕ, ◌+◌, ◌-◌, ◌≤◌, ◌<◌, min, ◌≡◌, refl, sym, ap, ◌∙◌, ◌≢◌, inl, inr, false, Option, none, some,
  List, [], ◌∷◌, ◌++◌, arith, ltb, leb, ◌==◌, if◌then◌else◌, leb→le, Bool-cases, if_elim, length,
  take, All, length-append, length-take, take_all, Bytes, u16_mod, u64_mod, add64, ok, fault,
  undefined, ◌>>=◌,
}
use mathlib.Core.Path.{ap₂}
use internet.Wrap32.{Wrap32, wrap, unwrap}
use internet.Wrap32.Unwrap.{IsWord}
use internet.ByteStream.{ByteStream, close, set_error, bytes_popped}
use internet.ByteStream
use internet.ByteStream.Invariant.{push-IsValid, close-IsValid}
use internet.ByteStream.Fifo.{buffer-push, total_pushed-push, push_frame}
use internet.Reassembler.Slices.{slice, length-slice, take-slice, slice-append}
use internet.Tcp.Messages.{TcpSenderMessage, TcpReceiverMessage, sequence_length}
use internet.Tcp.Receiver.Segments.{segment}
use internet.Tcp.Sender
use internet.Tcp.Sender.{
  TcpSender, remove_acked, acknowledge, stop_timer, receive_ackno, take_window, retransmit, front,
  make_empty_message, total_length, sequence_numbers_in_flight,
}
use internet.Connection.{write, finish}
use internet.Connection.Segments.{Carried, Speaks, Allows, bit_le}

-- The application writes the next `n` bytes.
pub write-Speaks :
    (stream : ℕ → ℕ) (total n : ℕ) (isn : Wrap32) (s : TcpSender)
    → total + 3 < u64_mod
    → s.input.stream_closed ≡ false
    → s.input.total_pushed + n ≤ total
    → Speaks stream total isn s
    → Speaks stream total isn (write (slice stream s.input.total_pushed n) s)
write-Speaks stream total n isn s small live le h = record {
  valid = push-IsValid bs h.valid;
  same_isn = h.same_isn;
  bytes =
      buffer-push bs s.input
      ∙ ap₂ ◌++◌ h.bytes
          (take-slice-min s.input.total_pushed n (s.input.capacity - length s.input.buffer))
      ∙ ap (λ k. slice stream s.input.total_popped (length s.input.buffer) ++ slice stream k taken)
          (sym h.place)
      ∙ slice-append stream s.input.total_popped (length s.input.buffer) taken
      ∙ ap₂ (slice stream) (sym frame.3) (omega (arith, grown));
  place = omega (arith, frame, grown, pushed_lem, h.place);
  bound = omega (arith, pushed_lem);
  number = ground (arith, frame, h.number);
  done = λ e. frame.3 ∙ h.done e;
  ended = λ e. absurd (ground (arith, frame.2, live, e));
  window_width = h.window_width;
}
  where
    bs : Bytes
    bs = slice stream s.input.total_pushed n

    frame :
        ((ByteStream.push bs s.input).capacity ≡ s.input.capacity)
        × ((ByteStream.push bs s.input).has_error ≡ s.input.has_error)
        × ((ByteStream.push bs s.input).stream_closed ≡ s.input.stream_closed)
        × ((ByteStream.push bs s.input).total_popped ≡ s.input.total_popped)
    frame = push_frame bs s.input

    taken : ℕ
    taken = min n (s.input.capacity - length s.input.buffer)

    take-slice-min : (i k room : ℕ) → take room (slice stream i k) ≡ slice stream i (min k room)
    take-slice-min i k room = elim (Bool-cases (leb room k)) [
      | inl e ↦
          take-slice stream i k room (leb→le room k e)
          ∙ ap (slice stream i) (omega (arith, leb→le room k e))
      | inr e ↦
          let lt : k < room = ground arith in
          take_all room (slice stream i k) (omega (arith, length-slice stream i k))
          ∙ ap (slice stream i) (omega arith)
    ]

    pushed_lem : (ByteStream.push bs s.input).total_pushed ≡ s.input.total_pushed + taken
    pushed_lem =
        omega (arith, total_pushed-push bs h.valid, length-slice stream s.input.total_pushed n)

    grown : length (ByteStream.push bs s.input).buffer ≡ length s.input.buffer + taken
    grown =
        ap length (buffer-push bs s.input)
        ∙ length-append s.input.buffer (take (s.input.capacity - length s.input.buffer) bs)
        ∙ ap (λ k. length s.input.buffer + k)
            (omega (
              arith,
              length-take (s.input.capacity - length s.input.buffer) bs,
              length-slice stream s.input.total_pushed n,
            ))

pub finish-Speaks :
    (stream : ℕ → ℕ) (total : ℕ) (isn : Wrap32) (s : TcpSender)
    → s.input.total_pushed ≡ total
    → Speaks stream total isn s
    → Speaks stream total isn (finish s)
unfolding close
finish-Speaks stream total isn s e h = record {
  valid = close-IsValid h.valid;
  same_isn = h.same_isn;
  bytes = h.bytes;
  place = h.place;
  bound = h.bound;
  number = h.number;
  done = h.done;
  ended = λ _. e;
  window_width = h.window_width;
}

-- What an acknowledgment or the passage of time leaves of a sender.
pub record Controlled (P : TcpSenderMessage → Type 0) (s t : TcpSender) : Type 0 where
  pub buffer : t.input.buffer ≡ s.input.buffer
  pub capacity : t.input.capacity ≡ s.input.capacity
  pub pushed : t.input.total_pushed ≡ s.input.total_pushed
  pub popped : t.input.total_popped ≡ s.input.total_popped
  pub closed : t.input.stream_closed ≡ s.input.stream_closed
  pub same_isn : t.isn ≡ s.isn
  pub same_seqno : t.abs_seqno ≡ s.abs_seqno
  pub same_fin : t.fin_sent ≡ s.fin_sent
  pub window_width : t.window_size < u16_mod
  pub queue : All P s.outstanding → All P t.outstanding

pub Controlled-Speaks :
    (stream : ℕ → ℕ) (total : ℕ) (isn : Wrap32) (P : TcpSenderMessage → Type 0) (s t : TcpSender)
    → Controlled P s t
    → Speaks stream total isn s
    → Speaks stream total isn t
Controlled-Speaks stream total isn P s t c h = record {
  valid = record {
    width = omega (arith, c.capacity, h.valid.width);
    bounded = omega (arith, c.capacity, ap length c.buffer, h.valid.bounded);
    pushed_width = omega (arith, c.pushed, h.valid.pushed_width);
    popped_width = omega (arith, c.popped, h.valid.popped_width);
    counted = omega (arith, c.popped, c.pushed, ap length c.buffer, h.valid.counted);
  };
  same_isn = c.same_isn ∙ h.same_isn;
  bytes = c.buffer ∙ h.bytes ∙ ap₂ (slice stream) (sym c.popped) (ap length (sym c.buffer));
  place = omega (arith, c.popped, c.pushed, ap length c.buffer, h.place);
  bound = omega (arith, c.pushed, h.bound);
  number = ground (arith, c.popped, c.same_seqno, c.same_fin, h.number);
  done = λ e. c.popped ∙ h.done (sym c.same_fin ∙ e);
  ended = λ e. c.pushed ∙ h.ended (sym c.closed ∙ e);
  window_width = c.window_width;
}

remove_acked_keeps :
    (P : TcpSenderMessage → Type 0) (isn : Wrap32) (checkpoint a : ℕ) (ms : List TcpSenderMessage)
    → All P ms
    → All P (remove_acked isn checkpoint a ms)
unfolding remove_acked
remove_acked_keeps P isn checkpoint a [] h = tt
remove_acked_keeps P isn checkpoint a (m ∷ ms) h =
    if_elim (All P) (ltb 0 (total_length 0 (m ∷ ms))) _ (m ∷ ms)
      (λ _.
        if_elim (All P) (leb (add64 (unwrap m.seqno isn checkpoint) (sequence_length m)) a)
          (remove_acked isn checkpoint a ms) (m ∷ ms)
          (λ _. remove_acked_keeps P isn checkpoint a ms h.1) λ _. h)
      λ _. h

module _ (P : TcpSenderMessage → Type 0) (s : TcpSender) where
  same-Controlled :
      (t u : TcpSender)
      → u.input ≡ t.input
      → u.isn ≡ t.isn
      → u.abs_seqno ≡ t.abs_seqno
      → u.fin_sent ≡ t.fin_sent
      → u.window_size ≡ t.window_size
      → (All P t.outstanding → All P u.outstanding)
      → Controlled P s t
      → Controlled P s u
  same-Controlled t u i n k f w q c = record {
    buffer = ap (λ (b : ByteStream). b.buffer) i ∙ c.buffer;
    capacity = ap (λ (b : ByteStream). b.capacity) i ∙ c.capacity;
    pushed = ap (λ (b : ByteStream). b.total_pushed) i ∙ c.pushed;
    popped = ap (λ (b : ByteStream). b.total_popped) i ∙ c.popped;
    closed = ap (λ (b : ByteStream). b.stream_closed) i ∙ c.closed;
    same_isn = n ∙ c.same_isn;
    same_seqno = k ∙ c.same_seqno;
    same_fin = f ∙ c.same_fin;
    window_width = omega (arith, w, c.window_width);
    queue = λ a. q (c.queue a);
  }

  receive_ackno-Controlled :
      (a : ℕ) (t : TcpSender) → Controlled P s t → Controlled P s (receive_ackno a t)
  unfolding receive_ackno stop_timer acknowledge
  receive_ackno-Controlled a t c =
      if_elim (Controlled P s) (ltb (add64 t.abs_ackno (sequence_numbers_in_flight t)) a) t _
        (λ _. c)
        λ _. stopped (if ltb t.abs_ackno a then acknowledge a t else t) (
          if_elim (Controlled P s) (ltb t.abs_ackno a) (acknowledge a t) t
            (λ _.
              same-Controlled t (acknowledge a t) refl refl refl refl refl
                (remove_acked_keeps P t.isn (bytes_popped t.input) a t.outstanding) c)
            λ _. c)
    where
      stopped : (u : TcpSender) → Controlled P s u → Controlled P s (stop_timer u)
      stopped u d =
          if_elim (Controlled P s) (sequence_numbers_in_flight u == 0) _ u
            (λ _.
              same-Controlled u (record u { timer_on = false }) refl refl refl refl refl (λ q. q) d)
            λ _. d

  take_window-Controlled :
      (m : TcpReceiverMessage) → m.window_size < u16_mod → Controlled P s (take_window m s)
  unfolding take_window set_error
  take_window-Controlled m w =
      if_elim
        (λ (i : ByteStream). Controlled P s (record s { input = i; window_size = m.window_size }))
        m.rst _ _ (λ _. plain) λ _. plain'
    where
      plain : Controlled P s (record s { input = set_error s.input; window_size = m.window_size })
      plain = record {
        buffer = refl;
        capacity = refl;
        pushed = refl;
        popped = refl;
        closed = refl;
        same_isn = refl;
        same_seqno = refl;
        same_fin = refl;
        window_width = w;
        queue = λ q. q;
      }

      plain' : Controlled P s (record s { window_size = m.window_size })
      plain' = record {
        buffer = refl;
        capacity = refl;
        pushed = refl;
        popped = refl;
        closed = refl;
        same_isn = refl;
        same_seqno = refl;
        same_fin = refl;
        window_width = w;
        queue = λ q. q;
      }

  pub receive-Controlled :
      (m : TcpReceiverMessage)
      → m.window_size < u16_mod
      → Allows (Controlled P s) (Sender.receive m s)
  unfolding Sender.receive
  receive-Controlled m w = go m.ackno
    where
      go :
          (o : Option Wrap32)
          → Allows (Controlled P s) (elim o [
            | none ↦ fault undefined
            | some ackno ↦ ok (
                receive_ackno
                  (unwrap ackno (take_window m s).isn (bytes_popped (take_window m s).input))
                  (take_window m s))
          ])
      go none = tt
      go (some a) =
          receive_ackno-Controlled
            (unwrap a (take_window m s).isn (bytes_popped (take_window m s).input))
            (take_window m s) (take_window-Controlled m w)

  abbrev pub Told : List TcpSenderMessage × TcpSender → Type 0
  Told out = Controlled P s out.1 × (All P s.outstanding → All P out.0)

  -- What `tick` transmits stands in the queue.
  pub tick-Controlled : (t : ℕ) → s.window_size < u16_mod → Allows Told (Sender.tick t s)
  unfolding Sender.tick retransmit front
  tick-Controlled t w =
      if_elim (Allows Told) s.timer_on _ _
        (λ _.
          if_elim (Allows Told) (leb s.rto (add64 s.timer_time t)) _ _
            (λ _.
              late _
                (if_elim (Controlled P s) (ltb 0 s.window_size) _ _
                  (λ _. same-Controlled s _ refl refl refl refl refl (λ q. q) self)
                  λ _. same-Controlled s _ refl refl refl refl refl (λ q. q) self)
                s.outstanding (λ q. q))
            λ _. (same-Controlled s _ refl refl refl refl refl (λ q. q) self, λ _. tt))
        λ _. (self, λ _. tt)
    where
      self : Controlled P s s
      self = record {
        buffer = refl;
        capacity = refl;
        pushed = refl;
        popped = refl;
        closed = refl;
        same_isn = refl;
        same_seqno = refl;
        same_fin = refl;
        window_width = w;
        queue = λ q. q;
      }

      late :
          (u : TcpSender)
          → Controlled P s u
          → (ms : List TcpSenderMessage) → (All P s.outstanding → All P ms)
          → Allows Told (front ms >>= λ m. ok (m ∷ [], u))
      late u c [] q = tt
      late u c (m ∷ ms) q = (c, λ a. ((q a).0, tt))

-- The empty message of a sender that has sent its SYN.
pub empty-Carried :
    (stream : ℕ → ℕ) (total : ℕ) (isn : Wrap32) (s : TcpSender)
    → IsWord isn
    → s.abs_seqno ≢ 0
    → Speaks stream total isn s
    → Carried stream total isn (s.abs_seqno, make_empty_message s)
unfolding make_empty_message segment slice
empty-Carried stream total isn s word ne h = record {
  syn = false;
  piece = record { first = s.abs_seqno - 1; size = 0; is_last = false };
  shape =
      ap
        (λ n. record { seqno = n; syn = false; payload = []; fin = false; rst = s.input.has_error })
        (ap₂ wrap (omega arith) h.same_isn);
  place = omega arith;
  start = λ e. cc;
  within = inl refl;
  range = ground (arith, h.number, h.place, h.bound, bit_le s.fin_sent);
  last = λ e. cc;
}
