-- ===== src/Connection/Segments.antt =====
-- What a segment on the network and the sender at its end promise about the stream.
use internet.Prelude.{
  ℕ, ◌+◌, ◌≤◌, ◌<◌, ◌≡◌, ◌⊎◌, Bool, true, false, List, ◌++◌, arith, bit, length, All, u16_mod, Exec,
  ok, fault, ◌>>=◌, Ensures,
}
use internet.Wrap32.{Wrap32}
use internet.ByteStream.Invariant.{IsValid}
use internet.Reassembler.Slices.{slice}
use internet.Reassembler.Insert.{Piece}
use internet.Tcp.Messages.{TcpSenderMessage}
use internet.Tcp.Receiver.Segments.{segment}
use internet.Tcp.Sender.{TcpSender}
use internet.Connection.{Numbered, numbered}

-- A segment that carries a piece of the `total` bytes of the stream: the SYN at the beginning, the
-- FIN at the end, and its bytes at their place. A segment without bytes may stand past the FIN.
pub record Carried (stream : ℕ → ℕ) (total : ℕ) (isn : Wrap32) (e : Numbered) : Type 0 where
  pub syn : Bool
  pub piece : Piece
  pub shape : e.1 ≡ record (segment stream isn syn piece) { rst = e.1.rst }
  pub place : e.0 + bit syn ≡ piece.first + 1
  pub start : syn ≡ true → piece.first ≡ 0
  pub within : (piece.size ≡ 0) ⊎ (piece.first + piece.size ≤ total)
  pub range : piece.first + piece.size ≤ total + 1
  pub last : piece.is_last ≡ true → piece.first + piece.size ≡ total

-- The sender's side of the bargain.
pub record Speaks (stream : ℕ → ℕ) (total : ℕ) (isn : Wrap32) (s : TcpSender) : Type 0 where
  pub valid : IsValid s.input
  pub same_isn : s.isn ≡ isn
  pub bytes : s.input.buffer ≡ slice stream s.input.total_popped (length s.input.buffer)
  pub place : s.input.total_popped + length s.input.buffer ≡ s.input.total_pushed
  pub bound : s.input.total_pushed ≤ total
  pub number :
      ((s.abs_seqno ≡ 0) × (s.input.total_popped ≡ 0) × (s.fin_sent ≡ false))
      ⊎ (s.abs_seqno ≡ s.input.total_popped + 1 + bit s.fin_sent)
  pub done : s.fin_sent ≡ true → s.input.total_popped ≡ total
  pub ended : s.input.stream_closed ≡ true → s.input.total_pushed ≡ total
  pub window_width : s.window_size < u16_mod

-- `P` holds of the result, if there is one.
abbrev pub Allows {ℓ} : {A : Type ℓ} → (A → Type 0) → Exec A → Type 0
Allows P (ok a) = P a
Allows P (fault e) = Unit

pub Allows-bind {ℓ κ} :
    {A : Type ℓ} {B : Type κ} (P : A → Type 0) (Q : B → Type 0) (m : Exec A) (f : A → Exec B)
    → Ensures P m
    → ((a : A) → P a → Allows Q (f a))
    → Allows Q (m >>= f)
Allows-bind P Q (ok a) f p q = q a p
Allows-bind P Q (fault e) f p q = tt

pub Allows-map {ℓ κ} :
    {A : Type ℓ} {B : Type κ} (P : A → Type 0) (Q : B → Type 0) (m : Exec A) (f : A → B)
    → Allows P m
    → ((a : A) → P a → Q (f a))
    → Allows Q (m >>= λ a. ok (f a))
Allows-map P Q (ok a) f p q = q a p
Allows-map P Q (fault e) f p q = tt

pub bit_le : (b : Bool) → bit b ≤ 1
bit_le true = omega arith
bit_le false = omega arith

-- What a call that transmits `out.0` leaves behind.
pub record Spoken (stream : ℕ → ℕ) (total : ℕ) (isn : Wrap32) (s : TcpSender)
    (out : List TcpSenderMessage × TcpSender) : Type 0 where
  pub speaks : Speaks stream total isn out.1
  pub carried : All (Carried stream total isn) (numbered s.abs_seqno out.0)
  pub queued : out.1.outstanding ≡ s.outstanding ++ out.0
