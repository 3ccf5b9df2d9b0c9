-- ===== src/Tcp/Sender/Segment.antt =====
-- The segment that one round of `push` makes.
use internet.Prelude.{
  ℕ, zero, suc, ◌+◌, ◌-◌, ◌≤◌, ◌<◌, min, max, ◌≡◌, refl, ap, ◌⊎◌, Bool, true, false, ◌&&◌, ◌||◌, [],
  ◌∷◌, ◌++◌, arith, ltb, ◌==◌, if◌then◌else◌, bit, length, take, drop, length-take, length-drop,
  Bytes, u64_mod, add64, sub64, Ensures,
}
use internet.Wrap32.{wrap}
use internet.ByteStream.{is_finished, pop}
use internet.ByteStream.Invariant.{IsValid, pop-IsValid, available_capacity_lem}
use internet.ByteStream.Read.{read_lem}
use internet.Tcp.Messages.{max_payload_size, TcpSenderMessage, sequence_length}
use internet.Tcp.Sender.{TcpSender, make_segment}

pub record Made (remaining : ℕ) (s : TcpSender) (out : Bool × TcpSenderMessage × TcpSender)
    : Type 0 where
  pub seqno : out.1.seqno ≡ wrap s.abs_seqno s.isn
  pub syn : out.1.syn ≡ (s.abs_seqno == 0)
  pub rst : out.1.rst ≡ s.input.has_error
  pub short : length out.1.payload ≤ max_payload_size
  pub size : sequence_length out.1 ≡ bit out.1.syn + length out.1.payload + bit out.1.fin
  pub fits : bit out.1.syn + length out.1.payload + bit out.1.fin ≤ remaining
  pub bytes : out.1.payload ++ out.2.input.buffer ≡ s.input.buffer
  pub valid : IsValid out.2.input
  pub popped : out.2.input.total_popped ≡ add64 s.input.total_popped (length out.1.payload)
  pub same_closed : out.2.input.stream_closed ≡ s.input.stream_closed
  pub progress : (out.0 ≡ true) ⊎ (length out.2.input.buffer < length s.input.buffer)
  pub last :
      (out.0 ≡ false)
      ⊎ (length out.1.payload ≡ min (length s.input.buffer) (remaining - bit out.1.syn))
  pub fin :
      out.1.fin
      ≡ (is_finished out.2.input && ltb (length out.1.payload) (remaining - bit out.1.syn))
  pub fin_sent : out.2.fin_sent ≡ (out.1.fin || s.fin_sent)
  pub frame : out.2 ≡ record s { input = out.2.input; fin_sent = out.2.fin_sent }

room-lt :
    (remaining : ℕ) (b : Bool)
    → 0 < remaining
    → remaining < u64_mod
    → sub64 remaining (bit b) ≡ remaining - bit b
room-lt remaining true h w = omega arith
room-lt remaining false h w = omega arith

-- What is taken and what is left after taking as much.
take-append-take : (n : ℕ) (bs : Bytes) → take n bs ++ drop (length (take n bs)) bs ≡ bs
take-append-take zero bs = refl
take-append-take (suc n) [] = refl
take-append-take (suc n) (b ∷ bs) = ap (◌∷◌ b) (take-append-take n bs)

made_size :
    (syn fin : Bool) (len : ℕ)
    → len ≤ max_payload_size
    → add64 (add64 (bit syn) len) (bit fin) ≡ bit syn + len + bit fin
made_size true true len h = omega arith
made_size true false len h = omega arith
made_size false true len h = omega arith
made_size false false len h = omega arith

made_fin :
    (remaining : ℕ) (syn done : Bool) (len : ℕ)
    → remaining < u64_mod
    → len ≤ remaining - bit syn
    → (done && ltb 0 (max 0 (sub64 (remaining - bit syn) len)))
      ≡ (done && ltb len (remaining - bit syn))
made_fin remaining syn false len w h = refl
made_fin remaining syn true len w h = ground arith

made_fits :
    (remaining : ℕ) (syn done : Bool) (len : ℕ)
    → 0 < remaining
    → remaining < u64_mod
    → len ≤ remaining - bit syn
    → bit syn + len + bit (done && ltb 0 (max 0 (sub64 (remaining - bit syn) len))) ≤ remaining
made_fits remaining true false len p w h = omega arith
made_fits remaining false false len p w h = omega arith
made_fits remaining true true len p w h = ground arith
made_fits remaining false true len p w h = ground arith

made_progress :
    (held n len most : ℕ) {left taken : ℕ}
    → left ≡ held - taken
    → taken ≡ len
    → len ≡ (if ltb n most then n else most)
    → (n ≤ held) × (0 < most)
    → (ltb n most ≡ true) ⊎ (left < held)
made_progress held n len most e f g h = ground arith

made_last :
    (n len : ℕ) {taken : ℕ}
    → len ≡ (if ltb n max_payload_size then n else max_payload_size)
    → taken ≡ len
    → (ltb n max_payload_size ≡ false) ⊎ (taken ≡ n)
made_last n len e f = ground arith

-- A round with some window left makes a segment: it never throws.
pub make_segment-Made :
    (remaining : ℕ) (s : TcpSender)
    → 0 < remaining
    → remaining < u64_mod
    → IsValid s.input
    → Ensures (Made remaining s) (make_segment remaining s)
unfolding make_segment sequence_length pop
make_segment-Made remaining s pos w v =
    rw
      (
        room-lt remaining (s.abs_seqno == 0) pos w,
        (available_capacity_lem v).1,
        read_lem len (ground arith) v,
      )
      (record {
        seqno = refl;
        syn = refl;
        rst = refl;
        short = omega (arith, taken, bounds);
        size = rw taken (made_size (s.abs_seqno == 0) _ len bounds.1);
        fits = rw taken (made_fits remaining (s.abs_seqno == 0) _ len pos w bounds.0);
        bytes = take-append-take len s.input.buffer;
        valid = pop-IsValid (length (take len s.input.buffer)) (omega (arith, taken, bounds)) v;
        popped = refl;
        same_closed = refl;
        progress =
            made_progress (length s.input.buffer) n len max_payload_size
              (length-drop (length (take len s.input.buffer)) s.input.buffer) taken refl
              (omega arith);
        last = made_last n len refl taken;
        fin = rw taken (made_fin remaining (s.abs_seqno == 0) _ len w bounds.0);
        fin_sent = refl;
        frame = refl;
      })
  where
    n : ℕ
    n = min (length s.input.buffer) (remaining - bit (s.abs_seqno == 0))

    len : ℕ
    len = if ltb n max_payload_size then n else max_payload_size

    bounds :
        (len ≤ remaining - bit (s.abs_seqno == 0))
        × (len ≤ max_payload_size)
        × (len ≤ length s.input.buffer)
    bounds = ground arith

    taken : length (take len s.input.buffer) ≡ len
    taken = omega (arith, length-take len s.input.buffer, bounds)
