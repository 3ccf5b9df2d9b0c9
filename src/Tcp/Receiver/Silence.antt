-- ===== src/Tcp/Receiver/Silence.antt =====
-- A receiver before the SYN.
use internet.Prelude.{
  ◌≡◌, refl, sym, ap, ◌∙◌, Bool, true, false, ◌||◌, none, List, [], ◌∷◌, All, if◌then◌else◌,
}
use internet.Reassembler.{Reassembler}
use internet.Tcp.Messages.{TcpSenderMessage}
use internet.Tcp.Receiver.{TcpReceiver, fail, receive, send}
use internet.Tcp.Receiver.Segments.{receive_before_syn}

-- Segments in turn.
unfoldable pub receive_each : List TcpSenderMessage → TcpReceiver → TcpReceiver
receive_each [] r = r
receive_each (m ∷ ms) r = receive_each ms (receive m r)

unfoldable pub any_rst : List TcpSenderMessage → Bool
any_rst [] = false
any_rst (m ∷ ms) = m.rst || any_rst ms

-- A reassembler that has seen a reset, or not.
abbrev reset_if : Bool → Reassembler → Reassembler
reset_if b r = if b then fail r else r

reset_if_or : (a b : Bool) (r : Reassembler) → reset_if b (reset_if a r) ≡ reset_if (a || b) r
unfolding fail
reset_if_or true true r = refl
reset_if_or true false r = refl
reset_if_or false b r = refl

-- The reassembler with an error if there was one or `b` says so, and otherwise the same.
abbrev pub with_error : Bool → Reassembler → Reassembler
with_error b r = record r { output = record (r.output) { has_error = b || r.output.has_error } }

reset_if-with_error : (b : Bool) (r : Reassembler) → reset_if b r ≡ with_error b r
unfolding fail
reset_if-with_error true r = refl
reset_if-with_error false r = refl

receive_each-eq :
    (ms : List TcpSenderMessage) (r : TcpReceiver)
    → r.isn ≡ none
    → All (λ m. m.syn ≡ false) ms
    → receive_each ms r ≡ record { reassembler = reset_if (any_rst ms) r.reassembler; isn = none }
unfolding receive_each any_rst
receive_each-eq [] r e a = ap (λ o. record { reassembler = r.reassembler; isn = o }) e
receive_each-eq (m ∷ ms) r e a =
    ap (receive_each ms) (receive_before_syn m r e a.0)
    ∙ receive_each-eq ms (record { reassembler = reset_if m.rst r.reassembler; isn = none }) refl
        a.1
    ∙ ap (λ t. record { reassembler = t; isn = none })
        (reset_if_or m.rst (any_rst ms) r.reassembler)

-- However many segments without the SYN come before it, whatever they carry, the receiver stays as
-- it was, with its indices, counters and closing, but that its output has an error exactly if it
-- had one or one of the segments was a reset. Its message has this as its reset flag and no
-- acknowledgment.
pub silent_before_syn :
    (ms : List TcpSenderMessage) (r : TcpReceiver)
    → r.isn ≡ none
    → All (λ m. m.syn ≡ false) ms
    → let r' = receive_each ms r in
      (r' ≡ record r { reassembler = with_error (any_rst ms) r.reassembler })
      × ((send r').ackno ≡ none)
      × ((send r').rst ≡ (any_rst ms || r.reassembler.output.has_error))
unfolding send
silent_before_syn ms r e a =
    rw (receive_each-eq ms r e a, reset_if-with_error (any_rst ms) r.reassembler)
      (
        ap (λ o. record { reassembler = with_error (any_rst ms) r.reassembler; isn = o }) (sym e),
        refl,
        refl,
      )
