-- ===== src/Tcp/Sender/Timer.antt =====
-- The retransmission timer: `TCPSender::tick`.
use internet.Prelude.{
  ℕ, zero, suc, ◌+◌, ◌*◌, ◌%◌, ◌^◌, ◌≤◌, ◌<◌, ◌≡◌, refl, ap, ◌∙◌, ◌≢◌, inr, true, false, List, [],
  ◌∷◌, ◌++◌, arith, ltb, leb, if◌then◌else◌, if_elim, length, take, u64_mod, add64, Exec, ok, ◌>>=◌,
  Ensures, Ensures-bind,
}
use native.Mathlib.Nat.{pow-suc, one-le-pow}
use internet.ByteStream
use internet.Wrap32.{Wrap32}
use internet.ByteStream.Invariant.{init-IsValid}
use internet.Tcp.Messages.{TcpSenderMessage}
use internet.Tcp.Sender.{TcpSender, init, front, retransmit, tick}
use internet.Tcp.Sender.Push.{IsConsistent}

-- A new sender has nothing outstanding, whatever `abs_ackno_` holds.
pub init-IsConsistent :
    (capacity : ℕ) (isn : Wrap32) (rto indeterminate : ℕ)
    → capacity < u64_mod
    → IsConsistent 0 (init (ByteStream.init capacity) isn rto indeterminate)
unfolding init
init-IsConsistent capacity isn rto indeterminate w = record {
  input_valid = init-IsValid capacity w;
  chained = refl;
  window_width = omega arith;
  timed = inr refl;
}

-- What `tick` may do: nothing, count the time, or retransmit the oldest outstanding segment.
pub record Ticked (ms : ℕ) (s : TcpSender) (out : List TcpSenderMessage × TcpSender) : Type 0 where
  pub off : s.timer_on ≡ false → out ≡ ([], s)
  pub running :
      s.timer_on ≡ true
      → add64 s.timer_time ms < s.rto
      → out ≡ ([], record s { timer_time = add64 s.timer_time ms })
  pub expired :
      s.timer_on ≡ true
      → s.rto ≤ add64 s.timer_time ms
      → (out.0 ≡ take 1 s.outstanding)
        × (length out.0 ≡ 1)
        × (out.1.outstanding ≡ s.outstanding)
        × (out.1.timer_time ≡ 0)
        × (out.1.rto ≡ (if ltb 0 s.window_size then 2 * s.rto % u64_mod else s.rto))

-- A sender whose timer runs only while something is outstanding never reads an empty queue, and
-- `tick` retransmits the first segment, and no other, exactly when the timer has run out. The
-- timeout is doubled unless the window is 0.
pub tick-Ticked :
    (ms : ℕ) (s : TcpSender)
    → (s.timer_on ≡ true → s.outstanding ≢ [])
    → Ensures (Ticked ms s) (tick ms s)
unfolding tick retransmit
tick-Ticked ms s busy =
    if_elim (Ensures (Ticked ms s)) s.timer_on _ _
      (λ on.
        if_elim (Ensures (Ticked ms s)) (leb s.rto (add64 s.timer_time ms)) _ _
          (λ late. expires on late s.outstanding refl (busy on))
          λ early. record {
            off = λ h. cc;
            running = λ h lt. refl;
            expired = λ h le. absurd (ground arith);
          })
      λ off. record { off = λ h. refl; running = λ h. cc; expired = λ h. cc }
  where
    expires :
        s.timer_on ≡ true
        → leb s.rto (add64 s.timer_time ms) ≡ true
        → (q : List TcpSenderMessage) → s.outstanding ≡ q
        → q ≢ []
        → Ensures (Ticked ms s) (retransmit s)
    expires on late [] e ne = absurd (ne refl)
    expires on late (m ∷ rest) e ne =
        rw (e, retransmit, front)
          (record {
            off = λ h. cc;
            running = λ h lt. absurd (ground arith);
            expired = λ h le. ground arith;
          })

-- `n` ticks in a row, each as long as the timeout at that time.
unfoldable pub expire : ℕ → TcpSender → Exec (List TcpSenderMessage × TcpSender)
unfolding tick
expire zero s = ok ([], s)
expire (suc n) s =
    tick s.rto s >>= λ (ms, s'). expire n s' >>= λ (later, s''). ok (ms ++ later, s'')

-- The first segment again and again.
abbrev pub replicate : ℕ → TcpSenderMessage → List TcpSenderMessage
replicate zero m = []
replicate (suc n) m = m ∷ replicate n m

tick_expired :
    (s : TcpSender) (m : TcpSenderMessage) (rest : List TcpSenderMessage)
    → s.outstanding ≡ m ∷ rest
    → s.timer_on ≡ true
    → 0 < s.window_size
    → s.timer_time + s.rto < u64_mod
    → 2 * s.rto < u64_mod
    → s.consecutive_retransmissions + 1 < u64_mod
    → tick s.rto s
      ≡ ok (
        m ∷ [],
        record s {
          consecutive_retransmissions = s.consecutive_retransmissions + 1;
          rto = 2 * s.rto;
          timer_time = 0;
        },
      )
unfolding tick retransmit front
tick_expired s m rest e on open_window time width count = ground arith

doubled : (r k b : ℕ) → 1 ≤ k → r * (k * 2) < b → (2 * r < b) × (2 * r * k < b)
doubled r k b h w = grind arith

-- While no acknowledgment comes, the window is open and the timeout fits in 64 bits, the `n`-th
-- expiry comes after a timeout that has doubled each time, retransmits the oldest segment each
-- time, and is counted.
expire_lem :
    (n : ℕ) (s : TcpSender) (m : TcpSenderMessage) (rest : List TcpSenderMessage)
    → s.outstanding ≡ m ∷ rest
    → s.timer_on ≡ true
    → 0 < s.window_size
    → s.timer_time + s.rto < u64_mod
    → s.rto * 2 ^ n < u64_mod
    → s.consecutive_retransmissions + n < u64_mod
    → Ensures
        (λ out.
          (out.0 ≡ replicate n m)
          × (out.1.rto ≡ s.rto * 2 ^ n)
          × (out.1.consecutive_retransmissions ≡ s.consecutive_retransmissions + n)
          × (out.1.outstanding ≡ s.outstanding))
        (expire n s)
unfolding expire
expire_lem zero s m rest e on open_window time width count = (refl, omega arith, omega arith, refl)
expire_lem (suc n) s m rest e on open_window time width count =
    rw (tick_expired s m rest e on open_window time d.0 (omega arith)) (
      Ensures-bind P Q (expire n next) _
        (expire_lem n next m rest e on open_window (omega (arith, d)) (omega (arith, d))
          (omega arith))
        λ out h. (ap (◌∷◌ m) h.0, h.1 ∙ shift, h.2 ∙ omega arith, h.3))
  where
    next : TcpSender
    next = record s {
      consecutive_retransmissions = s.consecutive_retransmissions + 1;
      rto = 2 * s.rto;
      timer_time = 0;
    }

    d : (2 * s.rto < u64_mod) × (2 * s.rto * 2 ^ n < u64_mod)
    d = doubled s.rto (2 ^ n) u64_mod (one-le-pow n 2 (omega arith)) (rw (pow-suc 2 n) at width)

    shift : 2 * s.rto * 2 ^ n ≡ s.rto * 2 ^ suc n
    shift = rw (pow-suc 2 n) (omega arith)

    P : List TcpSenderMessage × TcpSender → Type 0
    P out =
        (out.0 ≡ replicate n m)
        × (out.1.rto ≡ 2 * s.rto * 2 ^ n)
        × (out.1.consecutive_retransmissions ≡ s.consecutive_retransmissions + 1 + n)
        × (out.1.outstanding ≡ s.outstanding)

    Q : List TcpSenderMessage × TcpSender → Type 0
    Q out =
        (out.0 ≡ replicate (suc n) m)
        × (out.1.rto ≡ s.rto * 2 ^ suc n)
        × (out.1.consecutive_retransmissions ≡ s.consecutive_retransmissions + suc n)
        × (out.1.outstanding ≡ s.outstanding)
