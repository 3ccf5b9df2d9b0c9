-- ===== src/Tcp/Receiver.antt =====
-- src/tcp_receiver.hh and src/tcp_receiver.cc.
pub mod Segments
pub mod Acks
pub mod Silence
use internet.Prelude.{◌-◌, min, Option, none, some, if◌then◌else◌, u16_mod, add64, sub64}
use internet.Wrap32.{Wrap32, wrap, unwrap}
use internet.ByteStream.{ByteStream, set_error, bytes_pushed, is_closed, available_capacity}
use internet.Reassembler.{Reassembler, insert}
use internet.Tcp.Messages.{TcpSenderMessage, TcpReceiverMessage}

pub record TcpReceiver : Type 0 where
  pub reassembler : Reassembler
  pub isn : Option Wrap32

unfoldable pub init : Reassembler → TcpReceiver
init reassembler = record { reassembler = reassembler; isn = none }

-- `reassembler_.reader().set_error()`.
unfoldable pub fail : Reassembler → Reassembler
unfolding set_error
fail r = record r { output = set_error r.output }

unfoldable pub receive : TcpSenderMessage → TcpReceiver → TcpReceiver
unfolding fail bytes_pushed
receive message r =
    let isn = if message.syn then some message.seqno else r.isn in
    let reassembler = if message.rst then fail r.reassembler else r.reassembler in
    elim isn [
      | none ↦ record { reassembler = reassembler; isn = none }
      | some zero_point ↦
          let checkpoint = bytes_pushed reassembler.output in
          let abs_seqno = unwrap message.seqno zero_point checkpoint in
          let stream_index = if message.syn then 0 else sub64 abs_seqno 1 in
          record {
            reassembler = insert stream_index message.payload message.fin reassembler;
            isn = some zero_point;
          }
    ]

unfoldable pub send : TcpReceiver → TcpReceiverMessage
unfolding bytes_pushed is_closed available_capacity
send r =
    let output = r.reassembler.output in
    let after_syn = add64 (bytes_pushed output) 1 in
    let abs_ackno = if is_closed output then add64 after_syn 1 else after_syn in
    record {
      ackno = elim r.isn [ none ↦ none | some zero_point ↦ some (wrap abs_ackno zero_point) ];
      window_size = min (available_capacity output) (u16_mod - 1);
      rst = output.has_error;
    }
