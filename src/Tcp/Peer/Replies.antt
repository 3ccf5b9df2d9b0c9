-- ===== src/Tcp/Peer/Replies.antt =====
-- What a peer answers to a segment.
use internet.Prelude.{
  ℕ, ◌+◌, ◌≤◌, ◌<◌, ◌≡◌, refl, sym, ap, subst, ◌∙◌, ◌≢◌, ◌⊎◌, Bool, true, false, ◌||◌, some, List,
  [], ◌∷◌, ◌++◌, map, arith, ltb, if◌then◌else◌, if_elim, All, All-append, u16_mod, u64_mod, ok,
  ◌>>=◌, Ensures, Ensures-bind, Ensures-of_eq,
}
use internet.ByteStream.{bytes_popped}
use internet.ByteStream.Invariant.{IsValid, set_error-IsValid}
use internet.Wrap32.{Wrap32, unwrap}
use internet.Wrap32.Unwrap.{IsWord}
use internet.Tcp.Messages.{TcpSenderMessage, sequence_length, TcpReceiverMessage, TcpMessage}
use internet.Tcp.Receiver
use internet.Tcp.Sender
use internet.Tcp.Sender.{
  TcpSender, make_empty_message, take_window, receive_ackno, sequence_numbers_in_flight,
}
use internet.Tcp.Sender.Push.{Chained-le, IsConsistent, Pushed, window, push-Pushed}
use internet.Tcp.Sender.Receive.{Acked, receive_ackno-Acked}
use internet.Tcp.Sender.Removal.{Near, Kept}
use internet.Tcp.Peer.{
  TcpPeer, send_all, push, active, keep_alive, reply, update_linger, handle, receive,
}

-- A peer that is not active ignores what comes.
pub receive_inactive :
    (msg : TcpMessage) (p : TcpPeer) → active p ≡ false → receive msg p ≡ ok ([], p)
unfolding receive
receive_inactive msg p a = rw a

-- Every segment carries the state of the receiver.
abbrev pub Carries : TcpPeer → List TcpMessage → Type 0
Carries p = All (λ m. m.receiver ≡ Receiver.send p.receiver)

-- Whether a reply is owed after `ms` has been sent.
abbrev owed_after : List TcpSenderMessage → Bool → Bool
owed_after [] b = b
owed_after (m ∷ ms) b = false

owed_after-false : (ms : List TcpSenderMessage) → owed_after ms false ≡ false
owed_after-false [] = refl
owed_after-false (m ∷ ms) = refl

-- What `send_all` does: as many segments as messages, each with the state of the receiver, and no
-- reply is owed once there was one.
record Sent (ms : List TcpSenderMessage) (p : TcpPeer) (out : List TcpMessage × TcpPeer)
    : Type 0 where
  frame : out.1 ≡ record p { need_send = out.1.need_send }
  settled : out.1.need_send ≡ owed_after ms p.need_send
  contents : map (λ m. m.sender) out.0 ≡ ms
  carries : Carries p out.0

send_all-Sent : (ms : List TcpSenderMessage) (p : TcpPeer) → Sent ms p (send_all ms p)
unfolding send_all
send_all-Sent [] p = record { frame = refl; settled = refl; contents = refl; carries = tt }
send_all-Sent (m ∷ ms) p =
    let r = send_all-Sent ms (record p { need_send = false }) in
    record {
      frame = r.frame;
      settled = r.settled ∙ owed_after-false ms;
      contents = ap (◌∷◌ m) r.contents;
      carries = (refl, r.carries);
    }

-- The reply of a peer.
record Replied (p : TcpPeer) (out : List TcpMessage × TcpPeer) : Type 0 where
  same_receiver : out.1.receiver ≡ p.receiver
  carries : Carries p out.0
  answered : p.need_send ≡ true → out.0 ≢ []
  settled : out.1.need_send ≡ false
  same_time : out.1.time_of_last_receipt ≡ p.time_of_last_receipt

reply-Replied :
    (base : ℕ) (p : TcpPeer)
    → p.sender.abs_seqno < u64_mod
    → base + window p.sender < u64_mod
    → IsConsistent base p.sender
    → Ensures (Replied p) (reply p)
unfolding reply push
reply-Replied base p a w c =
    Ensures-bind Sent_some (Replied p) (push p) _
      (Ensures-bind (Pushed base p.sender) Sent_some (Sender.push p.sender) _
        (push-Pushed base p.sender a w c)
        λ out q. (out, send_all-Sent out.0 (record p { sender = out.1 })))
      λ r s. after s.0 r s.1 _ (send_all-Sent (make_empty_message r.1.sender ∷ []) r.1)
  where
    Sent_some : List TcpMessage × TcpPeer → Type 0
    Sent_some r =
        (out : List TcpSenderMessage × TcpSender) × Sent out.0 (record p { sender = out.1 }) r

    after :
        (out : List TcpSenderMessage × TcpSender)
        → (r : List TcpMessage × TcpPeer) → Sent out.0 (record p { sender = out.1 }) r
        → (more : List TcpMessage × TcpPeer) → Sent (make_empty_message r.1.sender ∷ []) r.1 more
        → Replied p (if r.1.need_send then (r.0 ++ more.0, more.1) else r)
    after out r s more t =
        if_elim (Replied p) r.1.need_send _ _
          (λ e. record {
            same_receiver = ap (λ q. q.receiver) t.frame ∙ ap (λ q. q.receiver) s.frame;
            carries = All-append _ r.0 more.0 s.carries (
                subst (λ q. All (λ m. m.receiver ≡ Receiver.send q) more.0)
                  (ap (λ q. q.receiver) s.frame) t.carries);
            answered = λ h. ne r.0 more.0 t.contents;
            settled = t.settled;
            same_time =
                ap (λ q. q.time_of_last_receipt) t.frame ∙ ap (λ q. q.time_of_last_receipt) s.frame;
          })
          λ e. record {
            same_receiver = ap (λ q. q.receiver) s.frame;
            carries = s.carries;
            answered = λ h. sent out.0 r.0 s.contents (sym s.settled ∙ e) h;
            settled = e;
            same_time = ap (λ q. q.time_of_last_receipt) s.frame;
          }
      where
        ne :
            (xs ys : List TcpMessage) {m : TcpSenderMessage}
            → map (λ m. m.sender) ys ≡ m ∷ []
            → xs ++ ys ≢ []
        ne [] [] e h = cc
        ne [] (y ∷ ys) e h = cc
        ne (x ∷ xs) ys e h = cc

        sent :
            (ms : List TcpSenderMessage) (xs : List TcpMessage)
            → map (λ m. m.sender) xs ≡ ms
            → owed_after ms p.need_send ≡ false
            → p.need_send ≡ true
            → xs ≢ []
        sent [] xs e f h = cc
        sent (m ∷ ms) [] e f h = cc
        sent (m ∷ ms) (x ∷ xs) e f h = λ k. cc

-- What a peer has done on a segment: the receiver has the segment, the reply carries the receiver's
-- state, there is a reply if one was owed, and none is owed afterwards.
pub record Handled (msg : TcpMessage) (p : TcpPeer) (out : List TcpMessage × TcpPeer) : Type 0 where
  pub received : out.1.receiver ≡ Receiver.receive msg.sender p.receiver
  pub carries : Carries out.1 out.0
  pub answered :
      (0 < sequence_length msg.sender) ⊎ (keep_alive msg.sender p.receiver ≡ true) → out.0 ≢ []
  pub settled : out.1.need_send ≡ false
  pub timed : out.1.time_of_last_receipt ≡ p.cumulative_time

take_window-IsConsistent :
    (base : ℕ) (msg : TcpReceiverMessage) (s : TcpSender)
    → msg.window_size < u16_mod
    → IsConsistent base s
    → IsConsistent base (take_window msg s)
unfolding take_window
take_window-IsConsistent base msg s w c = record {
  input_valid =
      if_elim IsValid msg.rst _ _ (λ e. set_error-IsValid c.input_valid) λ e. c.input_valid;
  chained = c.chained;
  window_width = w;
  timed = c.timed;
}

-- What an acknowledgment is checked against: the sender's numbers are near enough to be unwrapped
-- and do not wrap at 64 bits.
pub record InReach (base a : ℕ) (s : TcpSender) : Type 0 where
  pub word : IsWord s.isn
  pub near : Near base s.abs_seqno (bytes_popped s.input)
  pub width : bytes_popped s.input < u64_mod
  pub no_wrap : s.abs_ackno + sequence_numbers_in_flight s < u64_mod
  pub sent : a ≤ s.abs_ackno + sequence_numbers_in_flight s
  pub front : Kept s.abs_ackno base s.outstanding
  pub room : s.abs_seqno + u16_mod < u64_mod

-- The acknowledgment of a segment that arrives at `p`, as an absolute number.
abbrev pub acked_number : TcpMessage → Wrap32 → TcpPeer → ℕ
acked_number msg ackno p =
    let s = take_window msg.receiver p.sender in unwrap ackno s.isn (bytes_popped s.input)

owes : (owed keep : Bool) (n : ℕ) → (0 < n) ⊎ (keep ≡ true) → (owed || ltb 0 n || keep) ≡ true
owes owed keep n h = ground arith

-- `update_linger` leaves the rest alone.
update_linger_frame :
    (p : TcpPeer)
    → update_linger p
      ≡ record p { linger_after_streams_finish = (update_linger p).linger_after_streams_finish }
unfolding update_linger
update_linger_frame p = ground arith

receive-active : (msg : TcpMessage) (p : TcpPeer) → active p ≡ true → receive msg p ≡ handle msg p
unfolding receive
receive-active msg p a = rw a

receive-some :
    (msg : TcpReceiverMessage) (ackno : Wrap32) (s : TcpSender)
    → msg.ackno ≡ some ackno
    → Sender.receive msg s
      ≡ ok (
          receive_ackno
            (unwrap ackno (take_window msg s).isn (bytes_popped (take_window msg s).input))
            (take_window msg s))
unfolding Sender.receive
receive-some msg ackno s e = rw e

-- An active peer whose sender is consistent handles a segment that acknowledges numbers in reach
-- without a fault: it hands the segment to its receiver, it answers if the segment takes up
-- sequence numbers or is a keep-alive, every segment that it sends carries the receiver's state
-- after the segment, and no reply is left owing.
pub receive-Handled :
    (base : ℕ) (msg : TcpMessage) (ackno : Wrap32) (p : TcpPeer)
    → active p ≡ true
    → msg.receiver.ackno ≡ some ackno
    → msg.receiver.window_size < u16_mod
    → IsConsistent base p.sender
    → InReach base (acked_number msg ackno p) (take_window msg.receiver p.sender)
    → Ensures (Handled msg p) (receive msg p)
unfolding handle
receive-Handled base msg ackno p active_p acks w c r =
    subst (Ensures (Handled msg p)) (sym (receive-active msg p active_p)) (
      Ensures-bind (λ t. t ≡ q.sender) (Handled msg p) (Sender.receive msg.receiver p.sender) _
        (Ensures-of_eq (λ t. t ≡ q.sender) _ q.sender
          (receive-some msg.receiver ackno p.sender acks) refl)
        λ t e.
          subst
            (λ u.
              Ensures (Handled msg p)
                (reply (record q { sender = u }) >>= λ (ms, p'). ok (ms, update_linger p')))
            (sym e) answer)
  where
    s : TcpSender
    s = take_window msg.receiver p.sender

    acked : Acked base (acked_number msg ackno p) s (receive_ackno (acked_number msg ackno p) s)
    acked =
        receive_ackno-Acked base (acked_number msg ackno p) s r.word r.near r.width r.no_wrap r.sent
          r.front (take_window-IsConsistent base msg.receiver p.sender w c)

    q : TcpPeer
    q = record p {
      time_of_last_receipt = p.cumulative_time;
      need_send =
          p.need_send || ltb 0 (sequence_length msg.sender) || keep_alive msg.sender p.receiver;
      receiver = Receiver.receive msg.sender p.receiver;
      sender = receive_ackno (acked_number msg ackno p) s;
    }

    finish :
        (out : List TcpMessage × TcpPeer)
        → Replied q out
        → Handled msg p (out.0, update_linger out.1)
    finish out t = record {
      received = ap (λ u. u.receiver) frame ∙ t.same_receiver;
      carries =
          subst (λ k. All (λ m. m.receiver ≡ Receiver.send k) out.0)
            (sym (ap (λ u. u.receiver) frame ∙ t.same_receiver)) t.carries;
      answered = λ h.
          t.answered
            (owes p.need_send (keep_alive msg.sender p.receiver) (sequence_length msg.sender) h);
      settled = ap (λ u. u.need_send) frame ∙ t.settled;
      timed = ap (λ u. u.time_of_last_receipt) frame ∙ t.same_time;
    }
      where
        frame : update_linger out.1 ≡ record (out.1) {
          linger_after_streams_finish = (update_linger out.1).linger_after_streams_finish;
        }
        frame = update_linger_frame out.1

    answer : Ensures (Handled msg p) (reply q >>= λ (ms, p'). ok (ms, update_linger p'))
    answer =
        Ensures-bind (Replied q) (Handled msg p) (reply q) _
          (reply-Replied acked.removed.mid q (omega (arith, acked.same_seqno, r.room))
            (omega (
              arith,
              acked.consistent.window_width,
              Chained-le s.isn acked.removed.mid q.sender.outstanding s.abs_seqno
                  acked.removed.rest,
              r.room,
            ))
            acked.consistent)
          finish
