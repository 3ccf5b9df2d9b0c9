-- ===== src/Wire/TcpSegment/Layout.antt =====
-- The bytes of a TCP segment.
use internet.Prelude.{
  ℕ, ◌+◌, ◌≤◌, ◌<◌, ◌≡◌, refl, ap, ◌∙◌, false, List, [], ◌∷◌, ◌++◌, append-nil, append_assoc, arith,
  length, All, length-append, All-append, Bytes,
}
use internet.Wire.Parser.{total_size, flatten}
use internet.Wire.Parser.Reads.{length-big_endian}
use internet.Wire.Serializer
use internet.Wire.Serializer.{Serializer, big_endian, finish, append_buffer, flush, flushed}
use internet.Wire.Checksum
use internet.Wire.Checksum.{InternetChecksum, add, add_all, value}
use internet.Wire.Checksum.Sum.{parity_after, add_all-flatten}
use internet.Wire.Checksum.Own.{big_endian-All, with_field, value-with_field}
use internet.Wire.TcpSegment.{
  TcpSegment, flags_octet, raw_ackno, serialize_segment, serialize, compute_checksum,
}

-- What stands before the checksum.
abbrev pub fields_before : TcpSegment → Bytes
fields_before t =
    big_endian 2 t.udinfo.src_port
    ++ (big_endian 2 t.udinfo.dst_port
        ++ (big_endian 4 t.message.sender.seqno.raw_value
            ++ (big_endian 4 (raw_ackno t.message)
                ++ (big_endian 1 0x50
                    ++ (big_endian 1 (flags_octet t.message)
                        ++ big_endian 2 t.message.receiver.window_size)))))

abbrev pub header_bytes : TcpSegment → Bytes
header_bytes t = fields_before t ++ (big_endian 2 t.udinfo.cksum ++ (big_endian 2 0 ++ []))

-- A payload makes a buffer of its own, unless it is empty.
abbrev pub payload_buffers : Bytes → List Bytes
payload_buffers [] = []
payload_buffers (b ∷ bs) = (b ∷ bs) ∷ []

pub length-fields_before : (t : TcpSegment) → length (fields_before t) ≡ 16
length-fields_before t = simp (length-append, length-big_endian) refl

pub length-header_bytes : (t : TcpSegment) → length (header_bytes t) ≡ 20
length-header_bytes t = simp (length-append, length-big_endian) refl

pub flatten-payload_buffers : (bs : Bytes) → flatten (payload_buffers bs) ≡ bs
flatten-payload_buffers [] = refl
flatten-payload_buffers (b ∷ bs) = append-nil (b ∷ bs)

pub total_size-payload_buffers : (bs : Bytes) → total_size (payload_buffers bs) ≡ length bs
total_size-payload_buffers [] = refl
total_size-payload_buffers (b ∷ bs) = omega arith

pub payload_buffers-All : (bs : Bytes) → All (λ b. 0 < length b) (payload_buffers bs)
payload_buffers-All [] = tt
payload_buffers-All (b ∷ bs) = (omega arith, tt)

finish_lem :
    (payload header : Bytes)
    → 0 < length header
    → finish (append_buffer payload (record { output = []; buffer = header }))
      ≡ header ∷ payload_buffers payload
unfolding finish append_buffer flush flushed
finish_lem payload [] pos = absurd (omega arith)
finish_lem [] (h ∷ hs) pos = refl
finish_lem (b ∷ bs) (h ∷ hs) pos = refl

pub serialize_lem :
    (t : TcpSegment) → serialize t ≡ header_bytes t ∷ payload_buffers t.message.sender.payload
unfolding serialize serialize_segment Serializer.integer
serialize_lem t =
    ap (λ b. finish (append_buffer t.message.sender.payload (record { output = []; buffer = b })))
      (simp (append_assoc, append-nil) refl)
    ∙ finish_lem t.message.sender.payload (header_bytes t) (omega (arith, length-header_bytes t))

field-All :
    (n v : ℕ) (rest : Bytes) → All (λ b. b < 256) rest → All (λ b. b < 256) (big_endian n v ++ rest)
field-All n v rest h = All-append (λ b. b < 256) (big_endian n v) rest (big_endian-All n v) h

pub fields_before-All : (t : TcpSegment) → All (λ b. b < 256) (fields_before t)
fields_before-All t =
    let last = big_endian-All 2 t.message.receiver.window_size in
    let flags = field-All 1 (flags_octet t.message) _ last in
    let offset = field-All 1 0x50 _ flags in
    let ackno = field-All 4 (raw_ackno t.message) _ offset in
    let seqno = field-All 4 t.message.sender.seqno.raw_value _ ackno in
    field-All 2 t.udinfo.src_port _ (field-All 2 t.udinfo.dst_port _ seqno)

-- The sum over a segment is that over its bytes, in which the checksum is a field.
pub add_all-serialize :
    (t : TcpSegment) (c : InternetChecksum)
    → add_all (serialize t) c
      ≡ add
          (with_field (fields_before t) t.udinfo.cksum (big_endian 2 0 ++ t.message.sender.payload))
          c
add_all-serialize t c =
    let payload = t.message.sender.payload in
    ap (λ b. add_all b c) (serialize_lem t)
    ∙ add_all-flatten (header_bytes t ∷ payload_buffers payload) c
    ∙ ap (λ b. add b c)
        (ap (λ b. header_bytes t ++ b) (flatten-payload_buffers payload)
          ∙ simp (append_assoc, append-nil) refl)

-- With its checksum, a segment passes the test of `parse`.
pub value-compute_checksum :
    (p : ℕ) (t : TcpSegment)
    → p < 0x100000
    → All (λ b. b < 256) t.message.sender.payload
    → length t.message.sender.payload ≤ 65515
    → value (add_all (serialize (compute_checksum p t)) (Checksum.init p)) ≡ 0
unfolding compute_checksum
value-compute_checksum p t small bytes room =
    let payload = t.message.sender.payload in
    let cleared = record t { udinfo = record (t.udinfo) { cksum = 0 } } in
    let after = big_endian 2 0 ++ payload in
    let own = ap value (add_all-serialize cleared (Checksum.init p)) in
    let size : length after ≡ 2 + length payload =
      omega (arith, length-append (big_endian 2 0) payload, length-big_endian 2 0) in
    ap value (add_all-serialize (compute_checksum p t) (Checksum.init p))
    ∙ ap (λ v. value (add (with_field (fields_before t) v after) (Checksum.init p))) own
    ∙ value-with_field (fields_before t) after p (fields_before-All t) (field-All 2 0 payload bytes)
        (ap (λ n. parity_after n false) (length-fields_before t))
        (omega (arith, size, length-fields_before t))
