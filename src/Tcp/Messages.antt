-- ===== src/Tcp/Messages.antt =====
-- util/tcp_config.hh, util/tcp_sender_message.hh, util/tcp_receiver_message.hh, and the TCPMessage
-- of util/tcp_segment.hh.
use internet.Prelude.{ℕ, Bool, Option, bit, length, Bytes, add64}
use internet.Wrap32.{Wrap32}

abbrev pub max_payload_size : ℕ
max_payload_size = 1000

pub record TcpConfig : Type 0 where
  pub rt_timeout : ℕ
  pub recv_capacity : ℕ
  pub send_capacity : ℕ
  pub isn : Wrap32

-- The member initialisers: TIMEOUT_DFLT, DEFAULT_CAPACITY and the default sequence number.
abbrev pub default_config : TcpConfig
default_config = record {
  rt_timeout = 1000;
  recv_capacity = 64000;
  send_capacity = 64000;
  isn = record { raw_value = 137 };
}

pub record TcpSenderMessage : Type 0 where
  pub seqno : Wrap32
  pub syn : Bool
  pub payload : Bytes
  pub fin : Bool
  pub rst : Bool

-- A flag is added as 0 or 1.
unfoldable pub sequence_length : TcpSenderMessage → ℕ
sequence_length m = add64 (add64 (bit m.syn) (length m.payload)) (bit m.fin)

pub record TcpReceiverMessage : Type 0 where
  pub ackno : Option Wrap32
  pub window_size : ℕ
  pub rst : Bool

pub record TcpMessage : Type 0 where
  pub sender : TcpSenderMessage
  pub receiver : TcpReceiverMessage
