-- ===== src/Tcp/Sender/Removal.antt =====
-- What an acknowledgment takes out of the queue of `TCPSender`.
use internet.Prelude.{
  ℕ, ◌+◌, ◌^◌, ◌≤◌, ◌<◌, ◌≡◌, refl, ap, ◌∙◌, ◌⊎◌, inl, inr, true, List, [], ◌∷◌, ◌++◌, arith, ltb,
  leb, lt→ltb, leb→le, if_elim, u64_mod, add64,
}
use internet.Wrap32.{Wrap32, unwrap}
use internet.Wrap32.Unwrap.{IsWord, gap, unwrap-wrap}
use internet.Tcp.Messages.{TcpSenderMessage, sequence_length}
use internet.Tcp.Sender.{total_length, remove_acked}
use internet.Tcp.Sender.Push.{Chained, Chained-le, total_length_lem}

-- The first segment that is kept is not acknowledged as a whole.
abbrev pub Kept : ℕ → ℕ → List TcpSenderMessage → Type 0
Kept a base [] = Unit
Kept a base (m ∷ ms) = a < base + sequence_length m

-- A queue that ran from `base` to `stop` has lost the segments `gone`, up to `mid`.
pub record Removed (isn : Wrap32) (a base stop : ℕ) (before after : List TcpSenderMessage)
    : Type 0 where
  pub mid : ℕ
  pub gone : List TcpSenderMessage
  pub split : before ≡ gone ++ after
  pub acked : Chained isn base gone mid
  pub rest : Chained isn mid after stop
  pub covered : (gone ≡ []) ⊎ (mid ≤ a)
  pub kept : Kept a mid after

-- Sequence numbers of the queue are near enough to the checkpoint to be unwrapped.
abbrev pub Near : ℕ → ℕ → ℕ → Type 0
Near base stop checkpoint =
    (gap base checkpoint < 2 ^ 31) × (gap stop checkpoint < 2 ^ 31) × (stop < u64_mod)

pub remove_acked-Removed :
    (isn : Wrap32) (checkpoint a base stop : ℕ) (ms : List TcpSenderMessage)
    → IsWord isn
    → checkpoint < u64_mod
    → Near base stop checkpoint
    → Chained isn base ms stop
    → Removed isn a base stop ms (remove_acked isn checkpoint a ms)
unfolding remove_acked
remove_acked-Removed isn checkpoint a base stop [] w k n c = record {
  mid = base;
  gone = [];
  split = refl;
  acked = refl;
  rest = c;
  covered = inl refl;
  kept = tt;
}
remove_acked-Removed isn checkpoint a base stop (m ∷ ms) w k n c =
    rw (number, busy)
      (if_elim (Removed isn a base stop (m ∷ ms)) (leb (add64 base (sequence_length m)) a) _ _
        (λ e. drop_first (leb→le (add64 base (sequence_length m)) a e) (
          remove_acked-Removed isn checkpoint a (base + sequence_length m) stop ms w k
            (omega (arith, n, ends)) c.3))
        λ e. record {
          mid = base;
          gone = [];
          split = refl;
          acked = refl;
          rest = c;
          covered = inl refl;
          kept = ground (arith, n, ends);
        })
  where
    ends : base + sequence_length m ≤ stop
    ends = Chained-le isn (base + sequence_length m) ms stop c.3

    number : unwrap m.seqno isn checkpoint ≡ base
    number =
        ap (λ q. unwrap q isn checkpoint) c.0
        ∙ unwrap-wrap base isn checkpoint w (omega (arith, n, ends)) k n.0

    busy : ltb 0 (total_length 0 (m ∷ ms)) ≡ true
    busy =
        lt→ltb 0 (total_length 0 (m ∷ ms))
          (omega (arith, total_length_lem isn 0 base (m ∷ ms) stop c (omega (arith, n)), ends))

    drop_first :
        add64 base (sequence_length m) ≤ a
        → {after : List TcpSenderMessage} → Removed isn a (base + sequence_length m) stop ms after
        → Removed isn a base stop (m ∷ ms) after
    drop_first e r = record {
      mid = r.mid;
      gone = m ∷ r.gone;
      split = ap (◌∷◌ m) r.split;
      acked = (c.0, c.1, c.2, r.acked);
      rest = r.rest;
      covered = inr (up_to r.gone r.acked r.covered);
      kept = r.kept;
    }
      where
        up_to :
            (gone : List TcpSenderMessage)
            → Chained isn (base + sequence_length m) gone r.mid
            → (gone ≡ []) ⊎ (r.mid ≤ a)
            → r.mid ≤ a
        up_to [] q h = omega (arith, n, ends)
        up_to (g ∷ gs) q (inl h) = cc
        up_to (g ∷ gs) q (inr h) = h
