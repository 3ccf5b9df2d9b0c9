-- ===== src/Tcp/Sender/Push.antt =====
-- `TCPSender::push`: what it sends, and what it leaves outstanding.
use internet.Prelude.{
  ℕ, zero, suc, ◌+◌, ◌≤◌, ◌<◌, max, ◌≡◌, refl, sym, ap, subst, ◌∙◌, ◌≢◌, ◌⊎◌, inl, inr, Bool, true,
  false, List, [], ◌∷◌, ◌++◌, append-nil, append_assoc, arith, ◌==◌, if◌then◌else◌, Bool-cases,
  if_elim, length, Bytes, u16_mod, u64_mod, add64, Exec, ok, ◌>>=◌, Ensures, Ensures-bind,
}
use internet.Wrap32.{Wrap32, wrap}
use internet.ByteStream.Invariant.{IsValid, nil_of_length}
use internet.Tcp.Messages.{max_payload_size, TcpSenderMessage, sequence_length}
use internet.Tcp.Sender.{
  TcpSender, total_length, sequence_numbers_in_flight, remaining_window_size, record_segment,
  push_round, push_loop, push,
}
use internet.Tcp.Sender.Segment.{Made, make_segment-Made}

-- Segments that follow one another without a gap from the absolute number `start` to `stop`.
abbrev pub Chained : Wrap32 → ℕ → List TcpSenderMessage → ℕ → Type 0
Chained isn start [] stop = start ≡ stop
Chained isn start (m ∷ ms) stop =
    (m.seqno ≡ wrap start isn)
    × (0 < sequence_length m)
    × (length m.payload ≤ max_payload_size)
    × Chained isn (start + sequence_length m) ms stop

pub Chained-le :
    (isn : Wrap32) (start : ℕ) (ms : List TcpSenderMessage) (stop : ℕ)
    → Chained isn start ms stop
    → start ≤ stop
Chained-le isn start [] stop c = omega arith
Chained-le isn start (m ∷ ms) stop c =
    omega (arith, Chained-le isn (start + sequence_length m) ms stop c.3)

pub Chained-append :
    (isn : Wrap32) (start mid stop : ℕ) (ms ns : List TcpSenderMessage)
    → Chained isn start ms mid
    → Chained isn mid ns stop
    → Chained isn start (ms ++ ns) stop
Chained-append isn start mid stop [] ns c d = subst (λ k. Chained isn k ns stop) (sym c) d
Chained-append isn start mid stop (m ∷ ms) ns c d =
    (c.0, c.1, c.2, Chained-append isn (start + sequence_length m) mid stop ms ns c.3 d)

pub total_length_lem :
    (isn : Wrap32) (total start : ℕ) (ms : List TcpSenderMessage) (stop : ℕ)
    → Chained isn start ms stop
    → total + stop < u64_mod + start
    → total_length total ms + start ≡ total + stop
unfolding total_length
total_length_lem isn total start [] stop c h = omega arith
total_length_lem isn total start (m ∷ ms) stop c h = omega (
  arith,
  total_length_lem isn (add64 total (sequence_length m)) (start + sequence_length m) ms stop c.3
      (omega (arith, Chained-le isn (start + sequence_length m) ms stop c.3)),
  Chained-le isn (start + sequence_length m) ms stop c.3,
)

-- A sender whose outstanding segments run from `base` to the next number to send.
pub record IsConsistent (base : ℕ) (s : TcpSender) : Type 0 where
  pub input_valid : IsValid s.input
  pub chained : Chained s.isn base s.outstanding s.abs_seqno
  pub window_width : s.window_size < u16_mod
  pub timed : (s.timer_on ≡ true) ⊎ (s.outstanding ≡ [])

-- What is in flight is the distance between the two.
pub in_flight_lem :
    (base : ℕ) (s : TcpSender)
    → s.abs_seqno < u64_mod
    → IsConsistent base s
    → sequence_numbers_in_flight s + base ≡ s.abs_seqno
unfolding sequence_numbers_in_flight
in_flight_lem base s w c =
    omega (arith, total_length_lem s.isn 0 base s.outstanding s.abs_seqno c.chained)

abbrev pub payloads : List TcpSenderMessage → Bytes
payloads [] = []
payloads (m ∷ ms) = m.payload ++ payloads ms

-- The window that `push` respects: 0 counts as 1.
abbrev pub window : TcpSender → ℕ
window s = max s.window_size 1

-- What a call has done: `ms` was transmitted and the sender is now `s'`.
pub record Pushed (base : ℕ) (s : TcpSender) (out : List TcpSenderMessage × TcpSender)
    : Type 0 where
  pub consistent : IsConsistent base out.1
  pub outstanding : out.1.outstanding ≡ s.outstanding ++ out.0
  pub chained : Chained s.isn s.abs_seqno out.0 out.1.abs_seqno
  pub bytes : payloads out.0 ++ out.1.input.buffer ≡ s.input.buffer
  pub in_window : out.1.abs_seqno ≤ max s.abs_seqno (base + window s)
  pub same_isn : out.1.isn ≡ s.isn
  pub same_window : out.1.window_size ≡ s.window_size
  pub same_ackno : out.1.abs_ackno ≡ s.abs_ackno

nothing-Pushed : (base : ℕ) (s : TcpSender) → IsConsistent base s → Pushed base s ([], s)
nothing-Pushed base s c = record {
  consistent = c;
  outstanding = sym (append-nil s.outstanding);
  chained = refl;
  bytes = refl;
  in_window = omega arith;
  same_isn = refl;
  same_window = refl;
  same_ackno = refl;
}

remaining_bound :
    (base : ℕ) (s : TcpSender)
    → s.abs_seqno < u64_mod
    → IsConsistent base s
    → remaining_window_size s ≢ 0
    → (s.abs_seqno + remaining_window_size s ≤ base + window s)
      × (remaining_window_size s < u64_mod)
unfolding remaining_window_size
remaining_bound base s w c r = ground (arith, in_flight_lem base s w c, c.window_width)

-- One segment was transmitted.
sent-Pushed :
    (base remaining : ℕ) (s : TcpSender) (out : Bool × TcpSenderMessage × TcpSender)
    → base + window s < u64_mod
    → s.abs_seqno + remaining ≤ base + window s
    → IsConsistent base s
    → Made remaining s out
    → sequence_length out.1 ≢ 0
    → Pushed base s (out.1 ∷ [], record_segment out.1 out.2)
unfolding record_segment
sent-Pushed base remaining s out w r c m pos = record {
  consistent = record {
    input_valid = m.valid;
    chained =
        subst
          (λ t.
            Chained t.isn base (t.outstanding ++ out.1 ∷ [])
              (add64 t.abs_seqno (sequence_length out.1)))
          (sym m.frame)
          (Chained-append s.isn base s.abs_seqno _ s.outstanding (out.1 ∷ []) c.chained next);
    window_width = omega (arith, ap (λ t. t.window_size) m.frame, c.window_width);
    timed = inl refl;
  };
  outstanding = ap (λ t. t.outstanding ++ out.1 ∷ []) m.frame;
  chained =
      subst
        (λ t. Chained s.isn s.abs_seqno (out.1 ∷ []) (add64 t.abs_seqno (sequence_length out.1)))
        (sym m.frame) next;
  bytes = rw append-nil m.bytes;
  in_window = omega (arith, m.size, m.fits, ap (λ t. t.abs_seqno) m.frame);
  same_isn = ap (λ t. t.isn) m.frame;
  same_window = ap (λ t. t.window_size) m.frame;
  same_ackno = ap (λ t. t.abs_ackno) m.frame;
}
  where
    next : Chained s.isn s.abs_seqno (out.1 ∷ []) (add64 s.abs_seqno (sequence_length out.1))
    next = (m.seqno, omega arith, m.short, omega (arith, m.size, m.fits))

-- Nothing was transmitted, though an empty payload was read.
empty-Pushed :
    (base remaining : ℕ) (s : TcpSender) (out : Bool × TcpSenderMessage × TcpSender)
    → IsConsistent base s
    → Made remaining s out
    → sequence_length out.1 ≡ 0
    → Pushed base s ([], out.2)
empty-Pushed base remaining s out c m zero_length = record {
  consistent = record {
    input_valid = m.valid;
    chained = subst (λ t. Chained t.isn base t.outstanding t.abs_seqno) (sym m.frame) c.chained;
    window_width = omega (arith, ap (λ t. t.window_size) m.frame, c.window_width);
    timed = subst (λ t. (t.timer_on ≡ true) ⊎ (t.outstanding ≡ [])) (sym m.frame) c.timed;
  };
  outstanding = ap (λ t. t.outstanding) m.frame ∙ sym (append-nil s.outstanding);
  chained = sym (ap (λ t. t.abs_seqno) m.frame);
  bytes = ap (λ bs. bs ++ out.2.input.buffer) (sym no_payload) ∙ m.bytes;
  in_window = omega (arith, ap (λ t. t.abs_seqno) m.frame);
  same_isn = ap (λ t. t.isn) m.frame;
  same_window = ap (λ t. t.window_size) m.frame;
  same_ackno = ap (λ t. t.abs_ackno) m.frame;
}
  where
    no_payload : out.1.payload ≡ []
    no_payload = nil_of_length out.1.payload (omega (arith, m.size))

more-Pushed :
    (base : ℕ) (s t : TcpSender) (m : TcpSenderMessage) (out : List TcpSenderMessage × TcpSender)
    → Pushed base s (m ∷ [], t)
    → Pushed base t out
    → Pushed base s (m ∷ out.0, out.1)
more-Pushed base s t m out p q = record {
  consistent = q.consistent;
  outstanding =
      q.outstanding
      ∙ ap (λ ms. ms ++ out.0) p.outstanding
      ∙ append_assoc s.outstanding (m ∷ []) out.0;
  chained =
      Chained-append s.isn s.abs_seqno t.abs_seqno out.1.abs_seqno (m ∷ []) out.0 p.chained
        (subst (λ i. Chained i t.abs_seqno out.0 out.1.abs_seqno) p.same_isn q.chained);
  bytes =
      append_assoc m.payload (payloads out.0) out.1.input.buffer
      ∙ ap (◌++◌ m.payload) q.bytes
      ∙ ap (λ bs. bs ++ t.input.buffer) (sym (append-nil m.payload))
      ∙ p.bytes;
  in_window = omega (arith, p.in_window, q.in_window, p.same_window);
  same_isn = q.same_isn ∙ p.same_isn;
  same_window = q.same_window ∙ p.same_window;
  same_ackno = q.same_ackno ∙ p.same_ackno;
}

-- A round, given that the rest of the loop does as it should on a shorter input.
push_round-Pushed :
    (base : ℕ) (s : TcpSender) (more : TcpSender → Exec (List TcpSenderMessage × TcpSender))
    → base + window s < u64_mod
    → (s.abs_seqno + remaining_window_size s ≤ base + window s)
      × (remaining_window_size s < u64_mod)
    → remaining_window_size s ≢ 0
    → IsConsistent base s
    → ((t : TcpSender) (m : TcpSenderMessage)
        → length t.input.buffer < length s.input.buffer
        → Pushed base s (m ∷ [], t)
        → Ensures (Pushed base t) (more t))
    → Ensures (Pushed base s) (push_round more (remaining_window_size s) s)
unfolding push_round
push_round-Pushed base s more w r pos c rest =
    Ensures-bind (Made (remaining_window_size s) s) (Pushed base s) _ _
      (make_segment-Made (remaining_window_size s) s (omega arith) r.1 c.input_valid) after
  where
    sent :
        (out : Bool × TcpSenderMessage × TcpSender)
        → Made (remaining_window_size s) s out
        → (sequence_length out.1 == 0) ≡ false
        → Pushed base s (out.1 ∷ [], record_segment out.1 out.2)
    sent out m e = sent-Pushed base (remaining_window_size s) s out w r.0 c m (ground arith)

    after :
        (out : Bool × TcpSenderMessage × TcpSender)
        → Made (remaining_window_size s) s out
        → Ensures (Pushed base s) (
            if sequence_length out.1 == 0
            then ok ([], out.2)
            else (if out.0
                then ok (out.1 ∷ [], record_segment out.1 out.2)
                else (more (record_segment out.1 out.2) >>= λ (later, t). ok (out.1 ∷ later, t))))
    after out m = elim (Bool-cases (sequence_length out.1 == 0)) [
      | inl e ↦ rw e (empty-Pushed base (remaining_window_size s) s out c m (ground arith))
      | inr e ↦ elim (Bool-cases out.0) [
        | inl last ↦ rw (e, last) (sent out m e)
        | inr more_rounds ↦
            rw (e, more_rounds)
              (Ensures-bind (Pushed base (record_segment out.1 out.2)) (Pushed base s) _ _
                (rest (record_segment out.1 out.2) out.1 (shorter out.0 m.progress more_rounds)
                  (sent out m e))
                (λ later q.
                  more-Pushed base s (record_segment out.1 out.2) out.1 later (sent out m e) q))
      ]
    ]
      where
        shorter :
            (last : Bool)
            → (last ≡ true) ⊎ (length out.2.input.buffer < length s.input.buffer)
            → last ≡ false
            → length (record_segment out.1 out.2).input.buffer < length s.input.buffer
        shorter last (inl e) f = cc
        shorter last (inr h) f = h

push_loop-Pushed :
    (fuel base : ℕ) (s : TcpSender)
    → length s.input.buffer < fuel
    → s.abs_seqno < u64_mod
    → base + window s < u64_mod
    → IsConsistent base s
    → Ensures (Pushed base s) (push_loop fuel s)
unfolding push_loop
push_loop-Pushed zero base s l a w c = absurd (omega arith)
push_loop-Pushed (suc fuel) base s l a w c =
    if_elim (Ensures (Pushed base s)) (remaining_window_size s == 0) _ _
      (λ e. nothing-Pushed base s c)
      λ e.
        if_elim (Ensures (Pushed base s)) s.fin_sent _ _ (λ f. nothing-Pushed base s c)
          λ f.
            push_round-Pushed base s (push_loop fuel) w (remaining_bound base s a c (ground arith))
              (ground arith) c
              λ t m h p.
                push_loop-Pushed fuel base t (omega arith)
                  (omega (arith, p.in_window, p.same_window)) (omega (arith, p.same_window))
                  p.consistent

-- `push` returns, on every consistent sender whose numbers and window fit in 64 bits: the segments
-- that it transmits follow one another without a gap from the next sequence number on and are
-- appended to the queue, none carries more than 1000 bytes, their payloads are the first bytes of
-- the input, in order, and no number is sent beyond the window, where a window of 0 counts as 1.
pub push-Pushed :
    (base : ℕ) (s : TcpSender)
    → s.abs_seqno < u64_mod
    → base + window s < u64_mod
    → IsConsistent base s
    → Ensures (Pushed base s) (push s)
unfolding push
push-Pushed base s a w c = push_loop-Pushed (suc (length s.input.buffer)) base s (omega arith) a w c
