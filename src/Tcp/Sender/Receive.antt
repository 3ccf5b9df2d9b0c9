-- ===== src/Tcp/Sender/Receive.antt =====
-- `TCPSender::receive`: which segments an acknowledgment takes out of the queue.
use internet.Prelude.{
  ℕ, ◌+◌, ◌≤◌, ◌<◌, max, ◌≡◌, refl, sym, ap, subst, ◌∙◌, ◌≢◌, ◌⊎◌, inl, inr, Bool, true, false,
  List, [], ◌∷◌, ◌++◌, arith, ltb, ◌==◌, if◌then◌else◌, if_elim, u64_mod, add64,
}
use internet.Wrap32.{Wrap32}
use internet.Wrap32.Unwrap.{IsWord}
use internet.ByteStream.{bytes_popped}
use internet.Tcp.Messages.{TcpSenderMessage, sequence_length}
use internet.Tcp.Sender.{
  TcpSender, total_length, sequence_numbers_in_flight, remove_acked, acknowledge, stop_timer,
  receive_ackno,
}
use internet.Tcp.Sender.Push.{Chained, Chained-le, total_length_lem, IsConsistent}
use internet.Tcp.Sender.Removal.{Kept, Removed, Near, remove_acked-Removed}

-- The timer is stopped exactly when the queue is empty, if the acknowledgment was looked at.
pub record Acked (base a : ℕ) (s s' : TcpSender) : Type 0 where
  pub removed : Removed s.isn a base s.abs_seqno s.outstanding s'.outstanding
  pub consistent : IsConsistent removed.mid s'
  pub stopped : (s'.outstanding ≡ []) ⊎ (s'.timer_on ≡ s.timer_on)
  pub idle : s'.timer_on ≡ true → s'.outstanding ≢ []
  pub ackno : s'.abs_ackno ≡ max s.abs_ackno a
  pub same_seqno : s'.abs_seqno ≡ s.abs_seqno
  pub timer :
      (s'.rto ≡ (if ltb s.abs_ackno a then s.initial_rto_ms else s.rto))
      × (s'.timer_time ≡ (if ltb s.abs_ackno a then 0 else s.timer_time))
      × (s'.consecutive_retransmissions
          ≡ (if ltb s.abs_ackno a then 0 else s.consecutive_retransmissions))

none_in_flight :
    (isn : Wrap32) (base : ℕ) (ms : List TcpSenderMessage) (stop : ℕ)
    → stop < u64_mod
    → Chained isn base ms stop
    → (total_length 0 ms == 0) ≡ true
    → ms ≡ []
none_in_flight isn base [] stop w c e = refl
none_in_flight isn base (m ∷ ms) stop w c e = absurd (
    ground (
      arith,
      total_length_lem isn 0 base (m ∷ ms) stop c (omega arith),
      Chained-le isn (base + sequence_length m) ms stop c.3,
      c.1,
    ))

some_in_flight : (ms : List TcpSenderMessage) → (total_length 0 ms == 0) ≡ false → ms ≢ []
unfolding total_length
some_in_flight [] e h = cc
some_in_flight (m ∷ ms) e h = cc

-- What `stop_timer` changes.
record Stopped (mid : ℕ) (t t' : TcpSender) : Type 0 where
  consistent : IsConsistent mid t'
  frame : t' ≡ record t { timer_on = t'.timer_on }
  stopped : (t'.outstanding ≡ []) ⊎ (t'.timer_on ≡ t.timer_on)
  idle : t'.timer_on ≡ true → t'.outstanding ≢ []

stop_timer-Stopped :
    (mid : ℕ) (t : TcpSender)
    → t.abs_seqno < u64_mod
    → IsConsistent mid t
    → Stopped mid t (stop_timer t)
unfolding stop_timer sequence_numbers_in_flight
stop_timer-Stopped mid t w c =
    if_elim (Stopped mid t) (total_length 0 t.outstanding == 0) _ _
      (λ e.
        let empty = none_in_flight t.isn mid t.outstanding t.abs_seqno w c.chained e in
        record {
          consistent = record {
            input_valid = c.input_valid;
            chained = c.chained;
            window_width = c.window_width;
            timed = inr empty;
          };
          frame = refl;
          stopped = inl empty;
          idle = λ h. cc;
        })
      λ e. record {
        consistent = c;
        frame = refl;
        stopped = inr refl;
        idle = λ h. some_in_flight t.outstanding e;
      }

-- The state before `stop_timer`, and what of `Acked` it settles.
record Counted (base a : ℕ) (s t : TcpSender) : Type 0 where
  removed : Removed s.isn a base s.abs_seqno s.outstanding t.outstanding
  consistent : IsConsistent removed.mid t
  ackno : t.abs_ackno ≡ max s.abs_ackno a
  same_seqno : t.abs_seqno ≡ s.abs_seqno
  same_timer : t.timer_on ≡ s.timer_on
  timer :
      (t.rto ≡ (if ltb s.abs_ackno a then s.initial_rto_ms else s.rto))
      × (t.timer_time ≡ (if ltb s.abs_ackno a then 0 else s.timer_time))
      × (t.consecutive_retransmissions
          ≡ (if ltb s.abs_ackno a then 0 else s.consecutive_retransmissions))

emptied :
    {isn : Wrap32} {a base stop : ℕ} (before after : List TcpSenderMessage) (on : Bool)
    → Removed isn a base stop before after
    → (on ≡ true) ⊎ (before ≡ [])
    → (on ≡ true) ⊎ (after ≡ [])
emptied before after on r (inl e) = inl e
emptied before after on r (inr e) = inr (second r.gone after (sym r.split ∙ e))
  where
    second : (xs ys : List TcpSenderMessage) → xs ++ ys ≡ [] → ys ≡ []
    second [] ys h = h
    second (x ∷ xs) ys h = cc

acknowledge-Counted :
    (base a : ℕ) (s : TcpSender)
    → IsWord s.isn
    → Near base s.abs_seqno (bytes_popped s.input)
    → bytes_popped s.input < u64_mod
    → ltb s.abs_ackno a ≡ true
    → IsConsistent base s
    → Counted base a s (acknowledge a s)
unfolding acknowledge
acknowledge-Counted base a s w n k e c = record {
  removed = r;
  consistent = record {
    input_valid = c.input_valid;
    chained = r.rest;
    window_width = c.window_width;
    timed = emptied s.outstanding _ s.timer_on r c.timed;
  };
  ackno = ground arith;
  same_seqno = refl;
  same_timer = refl;
  timer = rw e (refl, refl, refl);
}
  where
    r :
        Removed s.isn a base s.abs_seqno s.outstanding
          (remove_acked s.isn (bytes_popped s.input) a s.outstanding)
    r =
        remove_acked-Removed s.isn (bytes_popped s.input) a base s.abs_seqno s.outstanding w k n
          c.chained

Kept-mono : (a a' base : ℕ) (ms : List TcpSenderMessage) → a ≤ a' → Kept a' base ms → Kept a base ms
Kept-mono a a' base [] h k = tt
Kept-mono a a' base (m ∷ ms) h k = omega arith

same-Counted :
    (base a : ℕ) (s : TcpSender)
    → ltb s.abs_ackno a ≡ false
    → Kept s.abs_ackno base s.outstanding
    → IsConsistent base s
    → Counted base a s s
same-Counted base a s e k c = record {
  removed = record {
    mid = base;
    gone = [];
    split = refl;
    acked = refl;
    rest = c.chained;
    covered = inl refl;
    kept = Kept-mono a s.abs_ackno base s.outstanding (ground arith) k;
  };
  consistent = c;
  ackno = ground arith;
  same_seqno = refl;
  same_timer = refl;
  timer = rw e (refl, refl, refl);
}

finish-Acked :
    (base a : ℕ) (s t : TcpSender)
    → s.abs_seqno < u64_mod
    → Counted base a s t
    → Acked base a s (stop_timer t)
finish-Acked base a s t w k = record {
  removed =
      subst (Removed s.isn a base s.abs_seqno s.outstanding) (sym (ap (λ u. u.outstanding) z.frame))
        k.removed;
  consistent = z.consistent;
  stopped = later z.stopped;
  idle = z.idle;
  ackno = ap (λ u. u.abs_ackno) z.frame ∙ k.ackno;
  same_seqno = ap (λ u. u.abs_seqno) z.frame ∙ k.same_seqno;
  timer = (
    ap (λ u. u.rto) z.frame ∙ k.timer.0,
    ap (λ u. u.timer_time) z.frame ∙ k.timer.1,
    ap (λ u. u.consecutive_retransmissions) z.frame ∙ k.timer.2,
  );
}
  where
    z : Stopped k.removed.mid t (stop_timer t)
    z = stop_timer-Stopped k.removed.mid t (omega (arith, k.same_seqno)) k.consistent

    later :
        ((stop_timer t).outstanding ≡ []) ⊎ ((stop_timer t).timer_on ≡ t.timer_on)
        → ((stop_timer t).outstanding ≡ []) ⊎ ((stop_timer t).timer_on ≡ s.timer_on)
    later (inl e) = inl e
    later (inr e) = inr (e ∙ k.same_timer)

-- On a consistent sender whose numbers are near enough to be unwrapped, an acknowledgment in range
-- takes from the front of the queue exactly the segments that it covers as a whole; the queue still
-- runs without a gap up to the next number to send. The timer stops when the queue is empty, and
-- new data resets the timeout, the elapsed time and the count of retransmissions; otherwise these
-- stay.
pub receive_ackno-Acked :
    (base a : ℕ) (s : TcpSender)
    → IsWord s.isn
    → Near base s.abs_seqno (bytes_popped s.input)
    → bytes_popped s.input < u64_mod
    → s.abs_ackno + sequence_numbers_in_flight s < u64_mod
    → a ≤ s.abs_ackno + sequence_numbers_in_flight s
    → Kept s.abs_ackno base s.outstanding
    → IsConsistent base s
    → Acked base a s (receive_ackno a s)
unfolding receive_ackno
receive_ackno-Acked base a s w n k nowrap le front c =
    if_elim (Acked base a s) (ltb (add64 s.abs_ackno (sequence_numbers_in_flight s)) a) _ _
      (λ e. absurd (ground arith))
      λ _. finish-Acked base a s _ n.2 (
        if_elim (Counted base a s) (ltb s.abs_ackno a) _ _
          (λ e. acknowledge-Counted base a s w n k e c) λ e. same-Counted base a s e front c)

-- The check against acknowledgments of what was never sent adds all that is in flight to the last
-- acknowledgment. Once an acknowledgment has covered the first segment in part (`base <
-- abs_ackno`), a later one beyond every number that was sent passes, and empties the queue.
pub accepts_unsent :
    (base a : ℕ) (s : TcpSender)
    → IsWord s.isn
    → Near base s.abs_seqno (bytes_popped s.input)
    → bytes_popped s.input < u64_mod
    → s.abs_ackno + sequence_numbers_in_flight s < u64_mod
    → base < s.abs_ackno
    → s.abs_ackno ≤ s.abs_seqno
    → s.abs_seqno < a
    → a ≤ s.abs_ackno + sequence_numbers_in_flight s
    → Kept s.abs_ackno base s.outstanding
    → IsConsistent base s
    → let s' = receive_ackno a s in
      (s'.abs_ackno ≡ a) × (s'.abs_seqno < s'.abs_ackno) × (s'.outstanding ≡ [])
accepts_unsent base a s w n k nowrap partial le beyond inside front c =
    (omega (arith, r.ackno), omega (arith, r.ackno, r.same_seqno), all_gone r.removed)
  where
    r : Acked base a s (receive_ackno a s)
    r = receive_ackno-Acked base a s w n k nowrap inside front c

    none_left :
        (mid : ℕ) (after : List TcpSenderMessage)
        → Chained s.isn mid after s.abs_seqno
        → Kept a mid after
        → after ≡ []
    none_left mid [] q h = refl
    none_left mid (m ∷ ms) q h =
        absurd (omega (arith, Chained-le s.isn (mid + sequence_length m) ms s.abs_seqno q.3))

    all_gone :
        {after : List TcpSenderMessage}
        → Removed s.isn a base s.abs_seqno s.outstanding after
        → after ≡ []
    all_gone {after} q = none_left q.mid after q.rest q.kept
