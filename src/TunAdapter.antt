-- ===== src/TunAdapter.antt =====
-- util/tuntap_adapter.hh and util/tuntap_adapter.cc: an adapter over a TUN device. The system, of
-- states `K`, and what its calls return are parameters; so are the indeterminate ports of a segment
-- before it is parsed, `junk`.
pub mod Delivery
use internet.Prelude.{ℕ, Option, none, some, List, [], ◌∷◌, Bytes, Exec, ok, ◌>>=◌}
use internet.FileDescriptor.{FdWrapper, Input, Returned, enlarge_last, read_buffers, write_buffers}
use internet.LossyFdAdapter.{Adapter}
use internet.Tcp.Messages.{TcpMessage}
use internet.Wire.Ipv4
use internet.Wire.Ipv4.{header_length}
use internet.Wire.TcpOverIp.{TcpOverIpv4Adapter, unwrap_tcp_in_ip, wrap_tcp_in_ip}

-- The loss rates are those of the configuration.
pub record TunAdapter (K : Type 0) : Type 0 where
  pub adapter : TcpOverIpv4Adapter
  pub loss_rate_dn : ℕ
  pub loss_rate_up : ℕ
  pub tun : FdWrapper
  pub system : K

-- The sizes of the three strings: an IPv4 header, a TCP header, and one that is made larger.
abbrev pub strs : List ℕ
strs = header_length ∷ 20 ∷ 0 ∷ []

module _ {K : Type 0} (junk : ℕ) (sys_readv : List ℕ → K → Input × K)
    (sys_writev : List Bytes → K → Returned × K) where
  -- What follows the read from the device.
  unfoldable pub receive : List Bytes → TunAdapter K → Exec (Option TcpMessage × TunAdapter K)
  unfolding Ipv4.parse unwrap_tcp_in_ip
  receive buffers t = Ipv4.parse buffers >>= λ o. elim o [
    | none ↦ ok (none, t)
    | some ip_dgram ↦
        (unwrap_tcp_in_ip junk ip_dgram t.adapter >>= λ (message, adapter).
        ok (message, record t { adapter = adapter }))
  ]

  unfoldable pub read : TunAdapter K → Exec (Option TcpMessage × TunAdapter K)
  unfolding read_buffers enlarge_last receive
  read t =
      let system = (sys_readv (enlarge_last strs) t.system).1 in
      read_buffers strs (λ sizes. (sys_readv sizes t.system).0) t.tun >>= λ (buffers, tun).
      receive buffers (record t { tun = tun; system = system })

  unfoldable pub write : TcpMessage → TunAdapter K → Exec (TunAdapter K)
  unfolding wrap_tcp_in_ip Ipv4.serialize write_buffers
  write seg t = do
    ip_dgram ← wrap_tcp_in_ip seg t.adapter
    buffers ← Ipv4.serialize ip_dgram
    (_, tun, system) ← write_buffers sys_writev buffers t.tun t.system
    ok (record t { tun = tun; system = system })

  -- What the lossy adapter and the socket use.
  unfoldable pub tun_adapter : Adapter (TunAdapter K)
  unfolding read write
  tun_adapter = record {
    fd = λ t. t.tun;
    loss_rate_dn = λ t. t.loss_rate_dn;
    loss_rate_up = λ t. t.loss_rate_up;
    read = read;
    write = write;
    set_listening = λ l t. record t { adapter = record (t.adapter) { listening = l } };
    tick = λ _ t. t;
  }
