-- ===== src/LossyFdAdapter.antt =====
-- util/lossy_fd_adapter.hh: an adapter for datagrams, and one that drops some of what passes. The
-- adapter below is a parameter, as in the template, and so is the random engine.
pub mod Losses
use internet.Prelude.{
  ℕ, ◌%◌, Bool, true, false, Option, none, ltb, ◌==◌, if◌then◌else◌, u16_mod, Exec, ok, ◌>>=◌,
}
use internet.FileDescriptor.{FdWrapper}
use internet.Tcp.Messages.{TcpMessage}

-- What an adapter offers, over states `S`.
pub record Adapter (S : Type 0) : Type 0 where
  pub fd : S → FdWrapper
  pub loss_rate_dn : S → ℕ
  pub loss_rate_up : S → ℕ
  pub read : S → Exec (Option TcpMessage × S)
  pub write : TcpMessage → S → Exec S
  pub set_listening : Bool → S → S
  pub tick : ℕ → S → S

pub record Lossy (R S : Type 0) : Type 0 where
  pub rand : R
  pub adapter : S

module _ {R S : Type 0} (next : R → ℕ × R) (below : Adapter S) where
  -- The engine is asked only if there is a loss rate.
  unfoldable pub should_drop : Bool → Lossy R S → Bool × Lossy R S
  should_drop uplink l =
      let loss = if uplink then below.loss_rate_up l.adapter else below.loss_rate_dn l.adapter in
      let (drawn, rand) = next l.rand in
      if loss == 0 then (false, l) else (ltb (drawn % u16_mod) loss, record l { rand = rand })

  unfoldable pub read : Lossy R S → Exec (Option TcpMessage × Lossy R S)
  unfolding should_drop
  read l = below.read l.adapter >>= λ (ret, adapter).
      let (dropped, l') = should_drop false (record l { adapter = adapter }) in
      ok (if dropped then none else ret, l')

  unfoldable pub write : TcpMessage → Lossy R S → Exec (Lossy R S)
  unfolding should_drop
  write seg l =
      let (dropped, l') = should_drop true l in
      if dropped
      then ok l'
      else (below.write seg l'.adapter >>= λ adapter. ok (record l' { adapter = adapter }))

  -- The lossy adapter is an adapter.
  unfoldable pub lossy : Adapter (Lossy R S)
  unfolding read write
  lossy = record {
    fd = λ l. below.fd l.adapter;
    loss_rate_dn = λ l. below.loss_rate_dn l.adapter;
    loss_rate_up = λ l. below.loss_rate_up l.adapter;
    read = read;
    write = write;
    set_listening = λ b l. record l { adapter = below.set_listening b l.adapter };
    tick = λ t l. record l { adapter = below.tick t l.adapter };
  }
