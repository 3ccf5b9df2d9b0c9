-- ===== src/LossyFdAdapter/Losses.antt =====
-- What a history of calls on the lossy adapter is on the adapter below it.
use internet.Prelude.{
  ℕ, ◌%◌, ◌≤◌, ◌<◌, ◌≡◌, Bool, true, false, Option, none, List, [], ◌∷◌, if◌then◌else◌, u16_mod,
  Exec, ok, ◌>>=◌,
}
use internet.Tcp.Messages.{TcpMessage}
use internet.LossyFdAdapter.{Adapter, Lossy, read, write}

-- The calls of a client.
pub data Op : Type 0 where
  reads : Op
  writes : TcpMessage → Op
  listens : Bool → Op
  ticks : ℕ → Op

-- The calls in turn on an adapter, and what the reads return.
unfoldable pub run : {S : Type 0} → Adapter S → List Op → S → Exec (List (Option TcpMessage) × S)
run a [] s = ok ([], s)
run a (reads ∷ os) s = a.read s >>= λ (m, s'). run a os s' >>= λ (ms, s''). ok (m ∷ ms, s'')
run a (writes m ∷ os) s = a.write m s >>= run a os
run a (listens b ∷ os) s = run a os (a.set_listening b s)
run a (ticks t ∷ os) s = run a os (a.tick t s)

-- The calls on an adapter without losses, of which some are lost: a lost read takes place and
-- returns nothing, and a lost write does not take place.
unfoldable pub run_losing :
    {S : Type 0} → Adapter S → List Op → List Bool → S → Exec (List (Option TcpMessage) × S)
run_losing a [] ls s = ok ([], s)
run_losing a (o ∷ os) [] s = ok ([], s)
run_losing a (reads ∷ os) (lost ∷ ls) s = a.read s >>= λ (m, s').
    run_losing a os ls s' >>= λ (ms, s''). ok ((if lost then none else m) ∷ ms, s'')
run_losing a (writes m ∷ os) (true ∷ ls) s = run_losing a os ls s
run_losing a (writes m ∷ os) (false ∷ ls) s = a.write m s >>= run_losing a os ls
run_losing a (listens b ∷ os) (lost ∷ ls) s = run_losing a os ls (a.set_listening b s)
run_losing a (ticks t ∷ os) (lost ∷ ls) s = run_losing a os ls (a.tick t s)

-- How many of the 2^16 values of the low bits of a random number lose the call.
abbrev pub rate_of : (up dn : ℕ) → Op → ℕ
rate_of up dn reads = dn
rate_of up dn (writes m) = up
rate_of up dn (listens b) = 0
rate_of up dn (ticks t) = 0

-- Whether a call is lost, and the engine afterwards. Without a rate no number is drawn.
pub data Drawn {R : Type 0} (next : R → ℕ × R) (rate : ℕ) (r : R) : Bool → R → Type 0 where
  undrawn : rate ≡ 0 → Drawn next rate r false r
  lost : (next r).0 % u16_mod < rate → Drawn next rate r true (next r).1
  passed : 0 < rate → rate ≤ (next r).0 % u16_mod → Drawn next rate r false (next r).1

-- Which calls of a history are lost, and the engine afterwards.
pub data Losing {R : Type 0} (next : R → ℕ × R) (up dn : ℕ)
    : List Op → List Bool → R → R → Type 0 where
  done : {r : R} → Losing next up dn [] [] r r
  call :
      {o : Op} {os : List Op} {b : Bool} {ls : List Bool} {r r' r'' : R}
      → Drawn next (rate_of up dn o) r b r'
      → Losing next up dn os ls r' r''
      → Losing next up dn (o ∷ os) (b ∷ ls) r r''

-- What an adapter returns, beside the state of an engine.
abbrev pub with_engine : {A R S : Type 0} → R → Exec (A × S) → Exec (A × Lossy R S)
with_engine rand m = m >>= λ (a, s). ok (a, record { rand = rand; adapter = s })

module _ {R S : Type 0} (next : R → ℕ × R) (below : Adapter S) (up dn : ℕ) where
  -- The configuration stays.
  abbrev pub HasRates : Type 0
  HasRates = (s : S) → (below.loss_rate_up s ≡ up) × (below.loss_rate_dn s ≡ dn)
