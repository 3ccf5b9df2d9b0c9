-- ===== src/Connection/Safety.antt =====
-- What the application at the far end gets, in every state that a connection can reach.
use internet.Prelude.{
  ℕ, ◌+◌, ◌≤◌, ◌<◌, ◌≡◌, refl, sym, ap, subst, ◌∙◌, inl, inr, true, List, [], ◌∷◌, ◌++◌, arith,
  length, All, All-append, u64_mod, ok,
}
use mathlib.Core.Path.{ap₂}
use internet.Wrap32.{Wrap32}
use internet.Wrap32.Unwrap.{IsWord}
use internet.ByteStream
use internet.ByteStream.Invariant.{init-IsValid}
use internet.Reassembler
use internet.Reassembler.Slices.{slice, slice-append}
use internet.Reassembler.Stream.{total_pushed_lem}
use internet.Reassembler.Delivery.{fresh, fresh-Holds}
use internet.Tcp.Messages.{TcpSenderMessage, sequence_length}
use internet.Tcp.Sender
use internet.Tcp.Sender.{TcpSender}
use internet.Tcp.Receiver
use internet.Connection.{
  Numbered, numbered, Among, Connection, Step, writes, closes, pushes, replies, ticks, acknowledges,
  arrives, reads, Reach, here, next, opened,
}
use internet.Connection.Segments.{Carried, Speaks, Spoken, Allows}
use internet.Connection.Sending.{push-Spoken}
use internet.Connection.Control.{
  Controlled, Told, write-Speaks, finish-Speaks, Controlled-Speaks, receive-Controlled,
  tick-Controlled, empty-Carried,
}
use internet.Connection.Receiving.{Hears, receive-Hears, read-Hears}

-- The message has been transmitted under some number.
abbrev pub Transmitted : List Numbered → TcpSenderMessage → Type 0
Transmitted network m = (k : ℕ) × Among (k, m) network

pub record Sound (stream : ℕ → ℕ) (total : ℕ) (isn : Wrap32) (c : Connection) : Type 0 where
  pub speaks : Speaks stream total isn c.sender
  pub carried : All (Carried stream total isn) c.network
  pub queued : All (Transmitted c.network) c.sender.outstanding
  pub hears : Hears stream total isn c.receiver c.got

among_All : {A : Type 0} (P : A → Type 0) (x : A) (xs : List A) → Among x xs → All P xs → P x
among_All P x [] m a = absurd m
among_All P x (y ∷ ys) (inl e) a = subst P (sym e) a.0
among_All P x (y ∷ ys) (inr m) a = among_All P x ys m a.1

Among-right : {A : Type 0} (x : A) (xs ys : List A) → Among x ys → Among x (xs ++ ys)
Among-right x [] ys m = m
Among-right x (z ∷ xs) ys m = inr (Among-right x xs ys m)

Among-left : {A : Type 0} (x : A) (xs ys : List A) → Among x xs → Among x (xs ++ ys)
Among-left x [] ys m = absurd m
Among-left x (z ∷ xs) ys (inl e) = inl e
Among-left x (z ∷ xs) ys (inr m) = inr (Among-left x xs ys m)

All-map :
    {A : Type 0} {P Q : A → Type 0} (xs : List A) → ((x : A) → P x → Q x) → All P xs → All Q xs
All-map [] f a = tt
All-map (x ∷ xs) f a = (f x a.0, All-map xs f a.1)

numbered-Transmitted :
    (ms : List TcpSenderMessage) (start : ℕ) → All (Transmitted (numbered start ms)) ms
numbered-Transmitted [] start = tt
numbered-Transmitted (m ∷ ms) start = (
  (start, inl refl),
  All-map ms (λ x t. (t.0, inr t.1)) (numbered-Transmitted ms (start + sequence_length m)),
)

module _ (stream : ℕ → ℕ) (total : ℕ) (isn : Wrap32) (word : IsWord isn)
    (small : total + 3 < u64_mod) where
  pub Step-Sound :
      {c d : Connection}
      → Step stream total c d
      → Sound stream total isn c
      → Sound stream total isn d
  Step-Sound {c} (writes n live le) h = record {
    speaks = write-Speaks stream total n isn c.sender small live le h.speaks;
    carried = h.carried;
    queued = h.queued;
    hears = h.hears;
  }
  Step-Sound {c} (closes e) h = record {
    speaks = finish-Speaks stream total isn c.sender e h.speaks;
    carried = h.carried;
    queued = h.queued;
    hears = h.hears;
  }
  Step-Sound {c} (pushes {ms} {s} e) h =
      let q : Spoken stream total isn c.sender (ms, s) =
        subst (Allows (Spoken stream total isn c.sender)) e
          (push-Spoken stream total isn word small c.sender h.speaks) in
      record {
        speaks = q.speaks;
        carried =
            All-append (Carried stream total isn) (numbered c.sender.abs_seqno ms) c.network
              q.carried h.carried;
        queued =
            subst (All (Transmitted (numbered c.sender.abs_seqno ms ++ c.network))) (sym q.queued) (
              All-append (Transmitted (numbered c.sender.abs_seqno ms ++ c.network))
                c.sender.outstanding ms
                (All-map c.sender.outstanding
                  (λ m t.
                    (t.0, Among-right (t.0, m) (numbered c.sender.abs_seqno ms) c.network t.1))
                  h.queued)
                (All-map ms
                  (λ m t. (t.0, Among-left (t.0, m) (numbered c.sender.abs_seqno ms) c.network t.1))
                  (numbered-Transmitted ms c.sender.abs_seqno)));
        hears = h.hears;
      }
  Step-Sound {c} (replies ne) h = record {
    speaks = h.speaks;
    carried = (empty-Carried stream total isn c.sender word ne h.speaks, h.carried);
    queued = All-map c.sender.outstanding (λ m t. (t.0, inr t.1)) h.queued;
    hears = h.hears;
  }
  Step-Sound {c} (ticks t {ms} {s} e) h =
      let q : Told (Transmitted c.network) c.sender (ms, s) =
        subst (Allows (Told (Transmitted c.network) c.sender)) e
          (tick-Controlled (Transmitted c.network) c.sender t h.speaks.window_width) in
      record {
        speaks = Controlled-Speaks stream total isn (Transmitted c.network) c.sender s q.0 h.speaks;
        carried = h.carried;
        queued = q.0.queue h.queued;
        hears = h.hears;
      }
  Step-Sound {c} (acknowledges m {s} w e) h =
      let q : Controlled (Transmitted c.network) c.sender s =
        subst (Allows (Controlled (Transmitted c.network) c.sender)) e
          (receive-Controlled (Transmitted c.network) c.sender m w) in
      record {
        speaks = Controlled-Speaks stream total isn (Transmitted c.network) c.sender s q h.speaks;
        carried = h.carried;
        queued = q.queue h.queued;
        hears = h.hears;
      }
  Step-Sound {c} (arrives k m a near) h = record {
    speaks = h.speaks;
    carried = h.carried;
    queued = h.queued;
    hears =
        receive-Hears stream total isn (k, m) c.receiver c.got word small near
          (among_All (Carried stream total isn) (k, m) c.network a h.carried) h.hears;
  }
  Step-Sound {c} (reads n le) h = record {
    speaks = h.speaks;
    carried = h.carried;
    queued = h.queued;
    hears = read-Hears stream total isn n c.receiver c.got le h.hears;
  }

  opened-Sound :
      (send_capacity recv_capacity rto indeterminate : ℕ)
      → send_capacity < u64_mod
      → total + recv_capacity + recv_capacity < u64_mod
      → Sound stream total isn (opened isn send_capacity recv_capacity rto indeterminate)
  unfolding opened Sender.init Receiver.init Reassembler.init ByteStream.init slice fresh
  opened-Sound send_capacity recv_capacity rto indeterminate ws wr = record {
    speaks = record {
      valid = init-IsValid send_capacity ws;
      same_isn = refl;
      bytes = refl;
      place = omega arith;
      bound = omega arith;
      number = inl (refl, refl, refl);
      done = λ e. cc;
      ended = λ e. cc;
      window_width = omega arith;
    };
    carried = tt;
    queued = tt;
    hears = record {
      holds = fresh-Holds stream recv_capacity (omega arith);
      bounded = (omega arith, tt);
      known = inl refl;
      ends = inl refl;
      closed = λ e. cc;
      reader = refl;
      room = wr;
    };
  }

  pub Reach-Sound :
      {c d : Connection}
      → Sound stream total isn c
      → Reach stream total c d
      → Sound stream total isn d
  Reach-Sound h here = h
  Reach-Sound h (next r st) = Step-Sound st (Reach-Sound h r)

-- In every state that a connection can reach, over a network that loses, repeats, delays and
-- reorders segments and with any acknowledgments, what the reader has received, followed by what
-- is buffered, is the beginning of the stream that is written, and no longer than it. Once the
-- receiver's stream is closed it is all of it. A segment arrives only where its number is less
-- than 2^31 away from the bytes pushed; the stream's length, with both capacities, is within 64
-- bits.
pub delivered_safely :
    (stream : ℕ → ℕ) (total : ℕ) (isn : Wrap32) (send_capacity recv_capacity rto indeterminate : ℕ)
    → IsWord isn
    → total + 3 < u64_mod
    → send_capacity < u64_mod
    → total + recv_capacity + recv_capacity < u64_mod
    → {c : Connection}
    → Reach stream total (opened isn send_capacity recv_capacity rto indeterminate) c
    → let output = c.receiver.reassembler.output in
      (c.got ++ output.buffer ≡ slice stream 0 output.total_pushed)
      × (output.total_pushed ≤ total)
      × (output.stream_closed ≡ true → c.got ++ output.buffer ≡ slice stream 0 total)
delivered_safely stream total isn send_capacity recv_capacity rto indeterminate word small ws wr {c}
      r =
    (all_got, sound.hears.bounded.0, λ e. all_got ∙ ap (slice stream 0) (sound.hears.closed e))
  where
    sound : Sound stream total isn c
    sound =
        Reach-Sound stream total isn word small
          (opened-Sound stream total isn word small send_capacity recv_capacity rto indeterminate ws
            wr)
          r

    all_got :
        c.got ++ c.receiver.reassembler.output.buffer
        ≡ slice stream 0 c.receiver.reassembler.output.total_pushed
    all_got =
        ap₂ ◌++◌ sound.hears.reader sound.hears.holds.bytes
        ∙ ap
            (λ k.
              slice stream 0 c.receiver.reassembler.output.total_popped
              ++ slice stream k (length c.receiver.reassembler.output.buffer))
            (omega arith)
        ∙ slice-append stream 0 c.receiver.reassembler.output.total_popped
            (length c.receiver.reassembler.output.buffer)
        ∙ ap (slice stream 0) (omega (arith, total_pushed_lem sound.hears.holds))

-- In every state that a connection can reach, what the timer makes the sender transmit has been
-- transmitted before, under its number.
retransmits_known :
    (stream : ℕ → ℕ) (total : ℕ) (isn : Wrap32) (send_capacity recv_capacity rto indeterminate : ℕ)
    → IsWord isn
    → total + 3 < u64_mod
    → send_capacity < u64_mod
    → total + recv_capacity + recv_capacity < u64_mod
    → {c : Connection}
    → Reach stream total (opened isn send_capacity recv_capacity rto indeterminate) c
    → (t : ℕ) {ms : List TcpSenderMessage} {s : TcpSender} → Sender.tick t c.sender ≡ ok (ms, s)
    → All (Transmitted c.network) ms
retransmits_known stream total isn send_capacity recv_capacity rto indeterminate word small ws wr
      {c} r t {ms} {s} e =
    (subst (Allows (Told (Transmitted c.network) c.sender)) e
        (tick-Controlled (Transmitted c.network) c.sender t sound.speaks.window_width)).1
      sound.queued
  where
    sound : Sound stream total isn c
    sound =
        Reach-Sound stream total isn word small
          (opened-Sound stream total isn word small send_capacity recv_capacity rto indeterminate ws
            wr)
          r
