-- ===== src/Wire/TcpSegment.antt =====
-- util/tcp_segment.hh, util/tcp_segment.cc and util/udinfo.hh.
pub mod Layout
pub mod Fields
pub mod RoundTrip
use internet.Prelude.{
  ℕ, ◌+◌, ◌*◌, ◌/◌, false, ◌||◌, Option, none, some, List, [], ltb, ◌==◌, if◌then◌else◌, bit, Bytes,
  sub64, Exec, ok, ◌>>=◌,
}
use internet.Tcp.Messages.{TcpMessage}
use internet.Wire.Parser
use internet.Wire.Parser.{
  Parser, set_error, skip_bytes, buffer_views, concatenate_all_remaining, of_input,
}
use internet.Wire.Serializer
use internet.Wire.Serializer.{Serializer, append_buffer, finish}
use internet.Wire.Checksum
use internet.Wire.Checksum.{add_all, value}
use internet.Wire.Ipv4.{test_bit}

pub record UserDatagramInfo : Type 0 where
  pub src_port : ℕ
  pub dst_port : ℕ
  pub cksum : ℕ

pub record TcpSegment : Type 0 where
  pub message : TcpMessage
  pub udinfo : UserDatagramInfo

-- A segment as it is before `parse`; the ports are indeterminate, `junk`.
abbrev pub default_segment : ℕ → TcpSegment
default_segment junk = record {
  message = record {
    sender = record {
      seqno = record { raw_value = 0 };
      syn = false;
      payload = [];
      fin = false;
      rst = false;
    };
    receiver = record { ackno = none; window_size = 0; rst = false };
  };
  udinfo = record { src_port = junk; dst_port = junk; cksum = junk };
}

-- The fixed part of the header, read into a segment; beside it, the data offset.
unfoldable pub parse_fields : TcpSegment → Parser → Exec (ℕ × TcpSegment × Parser)
unfolding Parser.integer
parse_fields t p = do
  (src_port, p₁) ← Parser.integer 2 t.udinfo.src_port p
  (dst_port, p₂) ← Parser.integer 2 t.udinfo.dst_port p₁
  (seqno, p₃) ← Parser.integer 4 0 p₂
  (ackno, p₄) ← Parser.integer 4 seqno p₃
  (octet, p₅) ← Parser.integer 1 0 p₄
  (flags, p₆) ← Parser.integer 1 octet p₅
  (window_size, p₇) ← Parser.integer 2 t.message.receiver.window_size p₆
  (cksum, p₈) ← Parser.integer 2 t.udinfo.cksum p₇
  (urgent, p₉) ← Parser.integer 2 0 p₈
  ok (
    octet / 16,
    record {
      message = record {
        sender = record {
          seqno = record { raw_value = seqno };
          syn = test_bit 2 flags;
          payload = t.message.sender.payload;
          fin = test_bit 1 flags;
          rst = test_bit 4 flags;
        };
        receiver = record {
          ackno = if test_bit 16 flags then some (record { raw_value = ackno }) else none;
          window_size = window_size;
          rst = test_bit 4 flags;
        };
      };
      udinfo = record { src_port = src_port; dst_port = dst_port; cksum = cksum };
    },
    p₉,
  )

-- Options are skipped, and the rest is the payload.
unfoldable pub parse_payload : ℕ → TcpSegment → Parser → Exec (TcpSegment × Parser)
unfolding skip_bytes concatenate_all_remaining set_error
parse_payload data_offset t p =
    if ltb data_offset 5
    then ok (t, set_error p)
    else (skip_bytes (sub64 (data_offset * 4) 20) p >>= λ p'.
        concatenate_all_remaining p' >>= λ payload. ok (
          record t {
            message = record (t.message) {
              sender = record (t.message.sender) { payload = payload };
            };
          },
          p',
        ))

unfoldable pub parse_segment : ℕ → TcpSegment → Parser → Exec (TcpSegment × Parser)
unfolding buffer_views Checksum.init add_all value parse_fields parse_payload set_error
parse_segment datagram_layer_pseudo_checksum t p = do
  buffers ← buffer_views p.input
  let check = add_all buffers (Checksum.init datagram_layer_pseudo_checksum)
  if value check == 0
      then (parse_fields t p >>= λ (data_offset, t', p'). parse_payload data_offset t' p')
      else ok (t, set_error p)

unfoldable pub flags_octet : TcpMessage → ℕ
flags_octet m =
    elim m.receiver.ackno [ none ↦ 0 | some a ↦ 0x10 ]
    + 4 * bit (m.sender.rst || m.receiver.rst)
    + 2 * bit m.sender.syn
    + bit m.sender.fin

-- `ackno.value_or( Wrap32 { 0 } )`.
unfoldable pub raw_ackno : TcpMessage → ℕ
raw_ackno m = elim m.receiver.ackno [ none ↦ 0 | some a ↦ a.raw_value ]

unfoldable pub serialize_segment : TcpSegment → Serializer → Serializer
unfolding Serializer.integer append_buffer flags_octet raw_ackno
serialize_segment t s = append_buffer t.message.sender.payload (
    Serializer.integer 2 0 (
      Serializer.integer 2 t.udinfo.cksum (
        Serializer.integer 2 t.message.receiver.window_size (
          Serializer.integer 1 (flags_octet t.message) (
            Serializer.integer 1 0x50 (
              Serializer.integer 4 (raw_ackno t.message) (
                Serializer.integer 4 t.message.sender.seqno.raw_value (
                  Serializer.integer 2 t.udinfo.dst_port
                    (Serializer.integer 2 t.udinfo.src_port s)))))))))

unfoldable pub serialize : TcpSegment → List Bytes
unfolding serialize_segment finish
serialize t = finish (serialize_segment t Serializer.empty)

unfoldable pub compute_checksum : ℕ → TcpSegment → TcpSegment
unfolding serialize Checksum.init add_all value
compute_checksum datagram_layer_pseudo_checksum t =
    let cleared = record t { udinfo = record (t.udinfo) { cksum = 0 } } in
    let check = add_all (serialize cleared) (Checksum.init datagram_layer_pseudo_checksum) in
    record t { udinfo = record (t.udinfo) { cksum = value check } }

-- `parse( segment, buffers, pseudo_checksum )` of util/helpers.hh.
unfoldable pub parse : ℕ → ℕ → List Bytes → Exec (Option TcpSegment)
unfolding parse_segment of_input
parse datagram_layer_pseudo_checksum junk buffers =
    parse_segment datagram_layer_pseudo_checksum (default_segment junk) (of_input buffers)
    >>= λ (t, p). ok (if p.has_error then none else some t)
