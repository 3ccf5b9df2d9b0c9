-- ===== src/Wire/TcpSegment/Fields.antt =====
-- The fields of a TCP segment, read from the bytes they are written in.
use internet.Prelude.{
  ℕ, ◌+◌, ◌*◌, ◌≤◌, ◌<◌, ◌≡◌, refl, sym, ap, subst, ◌∙◌, Bool, true, false, ◌||◌, Option, none,
  some, List, [], ◌++◌, append-nil, append_assoc, arith, ◌==◌, if◌then◌else◌, bit, length, set, All,
  Bytes, u16_mod, u32_mod, ok,
}
use internet.Wrap32.{Wrap32}
use internet.Wire.Parser.{Parser, concatenate_all_remaining}
use internet.Wire.Parser.Reads.{Reads, integer-Reads, skip_bytes_none}
use internet.Wire.Serializer.{big_endian}
use internet.Wire.Ipv4.{test_bit}
use internet.Wire.TcpSegment.{
  TcpSegment, default_segment, flags_octet, raw_ackno, parse_fields, parse_payload,
}
use internet.Wire.TcpSegment.Layout.{header_bytes}

-- A segment whose fields have their widths, with one reset flag for both directions.
pub record SegmentFits (t : TcpSegment) : Type 0 where
  pub src_port : t.udinfo.src_port < u16_mod
  pub dst_port : t.udinfo.dst_port < u16_mod
  pub seqno : t.message.sender.seqno.raw_value < u32_mod
  pub ackno : raw_ackno t.message < u32_mod
  pub window_size : t.message.receiver.window_size < u16_mod
  pub reset : t.message.receiver.rst ≡ t.message.sender.rst
  pub bytes : All (λ b. b < 256) t.message.sender.payload
  pub room : length t.message.sender.payload ≤ 65515

bit_le : (b : Bool) → bit b ≤ 1
bit_le true = omega arith
bit_le false = omega arith

test-bit : (x : ℕ) (b : Bool) → x ≡ bit b → (x == 1) ≡ b
test-bit x true e = rw e refl
test-bit x false e = rw e refl

-- The octet of the flags, and what is taken out of it.
abbrev octet_of : ℕ → Bool → Bool → Bool → ℕ
octet_of a rst syn fin = a + 4 * bit rst + 2 * bit syn + bit fin

bits_lem :
    (ack rst syn fin : Bool)
    → let w = octet_of (16 * bit ack) rst syn fin in
      (w < 256)
      × (test_bit 16 w ≡ ack)
      × (test_bit 4 w ≡ rst)
      × (test_bit 2 w ≡ syn)
      × (test_bit 1 w ≡ fin)
bits_lem ack rst syn fin =
    let a = bit_le ack in
    let r = bit_le rst in
    let s = bit_le syn in
    let f = bit_le fin in
    (
      omega arith,
      test-bit _ ack (omega arith),
      test-bit _ rst (omega arith),
      test-bit _ syn (omega arith),
      test-bit _ fin (omega arith),
    )

flags_lem :
    (o : Option Wrap32) (rst syn fin : Bool)
    → let w = octet_of (elim o [ none ↦ 0 | some a ↦ 0x10 ]) rst syn fin in
      (w < 256)
      × ((if test_bit 16 w
            then some (record { raw_value = elim o [ none ↦ 0 | some a ↦ a.raw_value ] })
            else none)
          ≡ o)
      × (test_bit 4 w ≡ rst)
      × (test_bit 2 w ≡ syn)
      × (test_bit 1 w ≡ fin)
flags_lem none rst syn fin =
    let (width, unset, r, s, f) = bits_lem false rst syn fin in
    (width, ap (λ b. if b then some (record { raw_value = 0 }) else none) unset, r, s, f)
flags_lem (some a) rst syn fin =
    let (width, set, r, s, f) = bits_lem true rst syn fin in
    (width, ap (λ b. if b then some a else none) set, r, s, f)

-- The header, field by field.
abbrev fields_after : TcpSegment → Bytes
fields_after t =
    big_endian 1 0x50
    ++ (big_endian 1 (flags_octet t.message)
        ++ (big_endian 2 t.message.receiver.window_size
            ++ (big_endian 2 t.udinfo.cksum ++ (big_endian 2 0 ++ []))))

abbrev all_fields : TcpSegment → Bytes
all_fields t =
    big_endian 2 t.udinfo.src_port
    ++ (big_endian 2 t.udinfo.dst_port
        ++ (big_endian 4 t.message.sender.seqno.raw_value
            ++ (big_endian 4 (raw_ackno t.message) ++ fields_after t)))

all_fields_lem : (t : TcpSegment) → header_bytes t ≡ all_fields t
all_fields_lem t = simp (append_assoc, append-nil) refl

-- The segment without its payload, as the fields of the header say it.
abbrev without_payload : TcpSegment → TcpSegment
without_payload t = record t {
  message = record (t.message) { sender = record (t.message.sender) { payload = [] } };
}

-- What is read, from the octet of flags and the raw acknowledgment number.
read_segment : ℕ → ℕ → TcpSegment → TcpSegment
read_segment flags ackno t = record {
  message = record {
    sender = record {
      seqno = t.message.sender.seqno;
      syn = test_bit 2 flags;
      payload = [];
      fin = test_bit 1 flags;
      rst = test_bit 4 flags;
    };
    receiver = record {
      ackno = if test_bit 16 flags then some (record { raw_value = ackno }) else none;
      window_size = t.message.receiver.window_size;
      rst = test_bit 4 flags;
    };
  };
  udinfo = t.udinfo;
}

or_same : (b : Bool) → (b || b) ≡ b
or_same true = refl
or_same false = refl

flags_octet_lem :
    (t : TcpSegment)
    → SegmentFits t
    → flags_octet t.message
      ≡ octet_of
          (elim t.message.receiver.ackno [ none ↦ 0 | some a ↦ 0x10 ])
          t.message.sender.rst
          t.message.sender.syn
          t.message.sender.fin
unfolding flags_octet
flags_octet_lem t f =
    let s = t.message.sender in
    ap
      (λ b.
        elim t.message.receiver.ackno [ none ↦ 0 | some a ↦ 0x10 ]
        + 4 * bit b
        + 2 * bit s.syn
        + bit s.fin)
      (ap (λ b. s.rst || b) f.reset ∙ or_same s.rst)

read_segment_lem :
    (t : TcpSegment)
    → SegmentFits t
    → read_segment (flags_octet t.message) (raw_ackno t.message) t ≡ without_payload t
unfolding read_segment raw_ackno
read_segment_lem t f =
    let m = t.message in
    let (_, ack, rst, syn, fin) =
      flags_lem m.receiver.ackno m.sender.rst m.sender.syn m.sender.fin in
    rw (flags_octet_lem t f) (
      rw (ack, rst, syn, fin)
        (ap
          (λ b. record (without_payload t) {
            message = record m {
              sender = record (m.sender) { payload = [] };
              receiver = record (m.receiver) { rst = b };
            };
          })
          (sym f.reset)))

pub parse_fields_lem :
    (junk : ℕ) (t : TcpSegment) (p : Parser) (others : List Bytes)
    → SegmentFits t
    → t.udinfo.cksum < u16_mod
    → Reads p (header_bytes t) others
    → (p' : Parser) × (parse_fields (default_segment junk) p ≡ ok (5, without_payload t, p'))
      × Reads p' [] others
unfolding parse_fields read_segment
parse_fields_lem junk t p others f ck r =
    let m = t.message in
    let width = (flags_lem m.receiver.ackno m.sender.rst m.sender.syn m.sender.fin).0 in
    let flags = flags_octet m in
    let small : flags < 256 = omega (arith, flags_octet_lem t f, width) in
    let r₀ = subst (λ b. Reads p b others) (all_fields_lem t) r in
    let (p₁, e₁, r₁) = integer-Reads 2 junk t.udinfo.src_port p _ others f.src_port r₀ in
    let (p₂, e₂, r₂) = integer-Reads 2 junk t.udinfo.dst_port p₁ _ others f.dst_port r₁ in
    let (p₃, e₃, r₃) = integer-Reads 4 0 m.sender.seqno.raw_value p₂ _ others f.seqno r₂ in
    let (p₄, e₄, r₄) =
      integer-Reads 4 m.sender.seqno.raw_value (raw_ackno m) p₃ _ others f.ackno r₃ in
    let (p₅, e₅, r₅) = integer-Reads 1 0 0x50 p₄ _ others (omega arith) r₄ in
    let (p₆, e₆, r₆) = integer-Reads 1 0x50 flags p₅ _ others small r₅ in
    let (p₇, e₇, r₇) = integer-Reads 2 0 m.receiver.window_size p₆ _ others f.window_size r₆ in
    let (p₈, e₈, r₈) = integer-Reads 2 junk t.udinfo.cksum p₇ _ others ck r₇ in
    let (p₉, e₉, r₉) = integer-Reads 2 0 0 p₈ [] others (omega arith) r₈ in
    (
      p₉,
      rw e₁ (
          rw e₂ (
            rw e₃ (
              rw e₄ (
                rw e₅ (
                  rw e₆
                    (rw e₇ (rw e₈ (rw e₉ (ap (λ x. ok (5, x, p₉)) (read_segment_lem t f)))))))))),
      r₉,
    )

pub parse_payload_lem :
    (t : TcpSegment) (p : Parser)
    → concatenate_all_remaining p ≡ ok t.message.sender.payload
    → parse_payload 5 (without_payload t) p ≡ ok (t, p)
unfolding parse_payload
parse_payload_lem t p e = rw (skip_bytes_none p) (rw e refl)
