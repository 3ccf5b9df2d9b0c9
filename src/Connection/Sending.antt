-- ===== src/Connection/Sending.antt =====
-- What the sender puts on the network: segments of the stream that the application writes.
use internet.Prelude.{
  ℕ, zero, suc, ◌+◌, ◌<◌, ◌≡◌, refl, sym, ap, subst, ◌∙◌, inl, inr, Bool, true, false, List, [],
  ◌∷◌, ◌++◌, append-nil, append_assoc, arith, ◌==◌, if◌then◌else◌, bit, Bool-cases, if_elim, length,
  take, drop, All, length-append, take_all, take-append_left, Bytes, u16_mod, u64_mod, Exec, ok,
  ◌>>=◌,
}
use mathlib.Core.Path.{ap₂}
use internet.Wrap32.{Wrap32, wrap}
use internet.Wrap32.Unwrap.{IsWord}
use internet.ByteStream.{ByteStream, is_finished}
use internet.ByteStream.Invariant.{IsValid}
use internet.Reassembler.Slices.{slice, take-slice, drop-slice}
use internet.Tcp.Messages.{TcpSenderMessage, sequence_length}
use internet.Tcp.Receiver.Segments.{segment}
use internet.Tcp.Sender.{
  TcpSender, remaining_window_size, record_segment, push_round, push_loop, push,
}
use internet.Tcp.Sender.Segment.{Made, make_segment-Made}
use internet.Connection.{numbered}
use internet.Connection.Segments.{Carried, Speaks, Allows, Allows-bind, Allows-map, bit_le, Spoken}

wrap_zero : (isn : Wrap32) → IsWord isn → wrap 0 isn ≡ isn
unfolding wrap
wrap_zero isn w = ground arith

pub seqno_of :
    (isn : Wrap32) (syn : Bool) (k first : ℕ)
    → IsWord isn
    → k + bit syn ≡ first + 1
    → (syn ≡ true → first ≡ 0)
    → wrap k isn ≡ (if syn then isn else wrap (first + 1) isn)
seqno_of isn true k first w e z = ap (λ n. wrap n isn) (omega (arith, e, z refl)) ∙ wrap_zero isn w
seqno_of isn false k first w e z = ap (λ n. wrap n isn) (omega (arith, e))

front_of : (bs cs : Bytes) → bs ≡ take (length bs) (bs ++ cs)
front_of bs cs =
    sym (take-append_left (length bs) bs cs (omega arith) ∙ take_all (length bs) bs (omega arith))

back_of : (bs cs : Bytes) → cs ≡ drop (length bs) (bs ++ cs)
back_of [] cs = refl
back_of (b ∷ bs) cs = back_of bs cs

module _ (stream : ℕ → ℕ) (total : ℕ) (isn : Wrap32) (s : TcpSender) (word : IsWord isn)
    (small : total + 3 < u64_mod) (h : Speaks stream total isn s)
    (out : Bool × TcpSenderMessage × TcpSender) (remaining : ℕ) (m : Made remaining s out)
    (open_ : s.fin_sent ≡ false) where
  abbrev len : ℕ
  len = length out.1.payload

  sizes : len + length out.2.input.buffer ≡ length s.input.buffer
  sizes = omega (arith, ap length m.bytes, length-append out.1.payload out.2.input.buffer)

  payload_slice : out.1.payload ≡ slice stream s.input.total_popped len
  payload_slice =
      front_of out.1.payload out.2.input.buffer
      ∙ ap (take len) (m.bytes ∙ h.bytes)
      ∙ take-slice stream s.input.total_popped (length s.input.buffer) len (omega (arith, sizes))

  popped_lem : out.2.input.total_popped ≡ s.input.total_popped + len
  popped_lem = omega (arith, m.popped, sizes, h.place, h.bound)

  buffer_slice :
      out.2.input.buffer ≡ slice stream out.2.input.total_popped (length out.2.input.buffer)
  buffer_slice =
      back_of out.1.payload out.2.input.buffer
      ∙ ap (drop len) (m.bytes ∙ h.bytes)
      ∙ drop-slice stream s.input.total_popped (length s.input.buffer) len (omega (arith, sizes))
      ∙ ap₂ (slice stream) (sym popped_lem) (omega (arith, sizes))

  place_lem :
      (out.2.input.total_popped + length out.2.input.buffer ≡ out.2.input.total_pushed)
      × (out.2.input.total_pushed ≡ s.input.total_pushed)
  place_lem = omega (arith, popped_lem, sizes, h.place, h.bound, m.valid.counted)

  finished : out.1.fin ≡ true → (s.input.total_popped + len ≡ total)
  unfolding is_finished
  finished e = all_read (ended_of e)
    where
      ended_of :
          out.1.fin ≡ true
          → (out.2.input.stream_closed ≡ true)
            × (out.2.input.total_pushed ≡ out.2.input.total_popped)
      ended_of e = ground (arith, m.fin)

      all_read :
          (out.2.input.stream_closed ≡ true) × (out.2.input.total_pushed ≡ out.2.input.total_popped)
          → s.input.total_popped + len ≡ total
      all_read (closed, same) =
          omega (arith, same, popped_lem, place_lem, h.ended (sym m.same_closed ∙ closed))

  -- The number and the flag of the segment.
  numbered_lem :
      (s.abs_seqno + bit out.1.syn ≡ s.input.total_popped + 1)
      × (out.1.syn ≡ true → s.input.total_popped ≡ 0)
  numbered_lem = ground (arith, m.syn, h.number, open_)

  carried : Carried stream total isn (s.abs_seqno, out.1)
  unfolding segment
  carried = record {
    syn = out.1.syn;
    piece = record { first = s.input.total_popped; size = len; is_last = out.1.fin };
    shape = shape_lem;
    place = numbered_lem.0;
    start = numbered_lem.1;
    within = inr (omega (arith, sizes, h.place, h.bound));
    range = omega (arith, sizes, h.place, h.bound);
    last = finished;
  }
    where
      seqno_lem : out.1.seqno ≡ (if out.1.syn then isn else wrap (s.input.total_popped + 1) isn)
      seqno_lem =
          m.seqno
          ∙ (ap (wrap s.abs_seqno) h.same_isn
              ∙ seqno_of isn out.1.syn s.abs_seqno s.input.total_popped word numbered_lem.0
                  numbered_lem.1)

      shape_lem :
          out.1
          ≡ record (segment stream isn out.1.syn
              (record { first = s.input.total_popped; size = len; is_last = out.1.fin })) {
                rst = out.1.rst;
              }
      shape_lem = ap₂ (λ n b. record (out.1) { seqno = n; payload = b }) seqno_lem payload_slice

  -- The sender after the round, whether or not it has transmitted.
  Speaks-after :
      (t : TcpSender)
      → t.input ≡ out.2.input
      → t.isn ≡ s.isn
      → t.window_size ≡ s.window_size
      → t.fin_sent ≡ out.1.fin
      → t.abs_seqno ≡ s.abs_seqno + bit out.1.syn + len + bit out.1.fin
      → Speaks stream total isn t
  Speaks-after t input same_isn same_window fin number = record {
    valid = subst IsValid (sym input) m.valid;
    same_isn = same_isn ∙ h.same_isn;
    bytes =
        subst (λ (i : ByteStream). i.buffer ≡ slice stream i.total_popped (length i.buffer))
          (sym input) buffer_slice;
    place =
        subst (λ (i : ByteStream). i.total_popped + length i.buffer ≡ i.total_pushed) (sym input)
          place_lem.0;
    bound = omega (arith, ap (λ (i : ByteStream). i.total_pushed) input, place_lem, h.bound);
    number = inr (
        omega (
          arith,
          number,
          ap (λ (i : ByteStream). i.total_popped) input,
          popped_lem,
          numbered_lem,
          ap bit fin,
        ));
    done = λ e. ap (λ (i : ByteStream). i.total_popped) input ∙ popped_lem ∙ finished (sym fin ∙ e);
    ended = λ e.
        ap (λ (i : ByteStream). i.total_pushed) input
        ∙ place_lem.1
        ∙ h.ended (sym m.same_closed ∙ ap (λ (i : ByteStream). i.stream_closed) (sym input) ∙ e);
    window_width = omega (arith, same_window, h.window_width);
  }

  fin_sent_lem : out.2.fin_sent ≡ out.1.fin
  fin_sent_lem = ground (arith, m.fin_sent, open_)

  next_number : (record_segment out.1 out.2).abs_seqno ≡ s.abs_seqno + sequence_length out.1
  unfolding record_segment
  next_number = omega (
    arith,
    ap (λ t. t.abs_seqno) m.frame,
    m.size,
    numbered_lem,
    sizes,
    h.place,
    h.bound,
    bit_le out.1.fin,
  )

  sent-Speaks : Speaks stream total isn (record_segment out.1 out.2)
  unfolding record_segment
  sent-Speaks =
      Speaks-after (record_segment out.1 out.2) refl (ap (λ t. t.isn) m.frame)
        (ap (λ t. t.window_size) m.frame) fin_sent_lem (omega (arith, next_number, m.size))

  sent_Spoken : Spoken stream total isn s (out.1 ∷ [], record_segment out.1 out.2)
  unfolding record_segment
  sent_Spoken = record {
    speaks = sent-Speaks;
    carried = (carried, tt);
    queued = ap (λ t. t.outstanding ++ out.1 ∷ []) m.frame;
  }

  empty_Spoken : sequence_length out.1 ≡ 0 → Spoken stream total isn s ([], out.2)
  empty_Spoken e = record {
    speaks =
        Speaks-after out.2 refl (ap (λ t. t.isn) m.frame) (ap (λ t. t.window_size) m.frame)
          fin_sent_lem (omega (arith, ap (λ t. t.abs_seqno) m.frame, m.size, e));
    carried = tt;
    queued = ap (λ t. t.outstanding) m.frame ∙ sym (append-nil s.outstanding);
  }

  more_Spoken :
      (later : List TcpSenderMessage × TcpSender)
      → Spoken stream total isn (record_segment out.1 out.2) later
      → Spoken stream total isn s (out.1 ∷ later.0, later.1)
  unfolding record_segment
  more_Spoken later q = record {
    speaks = q.speaks;
    carried = (
      carried,
      subst (λ k. All (Carried stream total isn) (numbered k later.0)) next_number q.carried,
    );
    queued =
        q.queued
        ∙ ap (λ t. (t.outstanding ++ out.1 ∷ []) ++ later.0) m.frame
        ∙ append_assoc s.outstanding (out.1 ∷ []) later.0;
  }

module _ (stream : ℕ → ℕ) (total : ℕ) (isn : Wrap32) (word : IsWord isn)
    (small : total + 3 < u64_mod) where
  push_round-Spoken :
      (more : TcpSender → Exec (List TcpSenderMessage × TcpSender)) (s : TcpSender) (remaining : ℕ)
      → Speaks stream total isn s
      → s.fin_sent ≡ false
      → 0 < remaining
      → remaining < u64_mod
      → ((t : TcpSender) → Speaks stream total isn t → Allows (Spoken stream total isn t) (more t))
      → Allows (Spoken stream total isn s) (push_round more remaining s)
  unfolding push_round record_segment
  push_round-Spoken more s remaining h open_ pos width rest =
      Allows-bind (Made remaining s) (Spoken stream total isn s) _ _
        (make_segment-Made remaining s pos width h.valid) after
    where
      after :
          (out : Bool × TcpSenderMessage × TcpSender)
          → Made remaining s out
          → Allows (Spoken stream total isn s) (
              if sequence_length out.1 == 0
              then ok ([], out.2)
              else (if out.0
                  then ok (out.1 ∷ [], record_segment out.1 out.2)
                  else (more (record_segment out.1 out.2) >>= λ (later, t). ok (out.1 ∷ later, t))))
      after out m = elim (Bool-cases (sequence_length out.1 == 0)) [
        | inl e ↦
            rw e (empty_Spoken stream total isn s word small h out remaining m open_ (ground arith))
        | inr e ↦ elim (Bool-cases out.0) [
          | inl last ↦
              rw (e, last) (sent_Spoken stream total isn s word small h out remaining m open_)
          | inr next ↦
              rw (e, next)
                (Allows-map (Spoken stream total isn (record_segment out.1 out.2))
                  (Spoken stream total isn s) _ _
                  (rest (record_segment out.1 out.2)
                    (sent-Speaks stream total isn s word small h out remaining m open_))
                  λ later q.
                    more_Spoken stream total isn s word small h out remaining m open_ later q)
        ]
      ]

  remaining_lt : (s : TcpSender) → s.window_size < u16_mod → remaining_window_size s < u64_mod
  unfolding remaining_window_size
  remaining_lt s w = ground arith

  push_loop-Spoken :
      (fuel : ℕ) (s : TcpSender)
      → Speaks stream total isn s
      → Allows (Spoken stream total isn s) (push_loop fuel s)
  unfolding push_loop
  push_loop-Spoken zero s h = tt
  push_loop-Spoken (suc fuel) s h =
      if_elim (Allows (Spoken stream total isn s)) (remaining_window_size s == 0) _ _ (λ _. quiet)
        λ e.
          if_elim (Allows (Spoken stream total isn s)) s.fin_sent _ _ (λ _. quiet)
            λ f.
              push_round-Spoken (push_loop fuel) s (remaining_window_size s) h f (ground arith)
                (remaining_lt s h.window_width) (push_loop-Spoken fuel)
    where
      quiet : Spoken stream total isn s ([], s)
      quiet = record { speaks = h; carried = tt; queued = sym (append-nil s.outstanding) }

  -- All that `push` transmits is segments of the stream.
  pub push-Spoken :
      (s : TcpSender) → Speaks stream total isn s → Allows (Spoken stream total isn s) (push s)
  unfolding push
  push-Spoken s h = push_loop-Spoken (suc (length s.input.buffer)) s h
