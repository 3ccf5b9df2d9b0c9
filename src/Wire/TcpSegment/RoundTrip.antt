-- ===== src/Wire/TcpSegment/RoundTrip.antt =====
-- TCP segments, serialized with their checksum and parsed again.
use internet.Prelude.{
  ℕ, ◌+◌, ◌<◌, ◌≡◌, refl, sym, ap, ◌∙◌, false, some, List, [], ◌∷◌, arith, ltb, ◌==◌, length, Bytes,
  u16_mod, ok,
}
use internet.Wire.Parser.{
  Parser, total_size, of_input, concatenate_all_remaining, buffer_views, views, substr, of_buffers,
}
use internet.Wire.Parser.Reads.{
  Reads, of_input-Reads, all_remaining_lem, all-FirstNonempty, concatenate_one,
}
use internet.Wire.Checksum
use internet.Wire.Checksum.{InternetChecksum, add, add_all, value}
use internet.Wire.Checksum.Own.{value_width}
use internet.Wire.TcpSegment.{TcpSegment, serialize, compute_checksum, parse_segment, parse}
use internet.Wire.TcpSegment.Layout.{
  header_bytes, payload_buffers, length-header_bytes, flatten-payload_buffers,
  total_size-payload_buffers, payload_buffers-All, serialize_lem, value-compute_checksum,
}
use internet.Wire.TcpSegment.Fields.{SegmentFits, parse_fields_lem, parse_payload_lem}

-- An empty buffer adds nothing.
add_all-one :
    (bs : Bytes) (c : InternetChecksum) → add_all (bs ∷ []) c ≡ add_all (payload_buffers bs) c
unfolding add_all add
add_all-one [] c = refl
add_all-one (b ∷ bs) c = refl

concatenate_payload :
    (p : Parser) (payload : Bytes)
    → Reads p [] (payload_buffers payload)
    → concatenate_all_remaining p ≡ ok payload
unfolding concatenate_all_remaining
concatenate_payload p payload r =
    let nonempty = all-FirstNonempty (payload_buffers payload) (payload_buffers-All payload) in
    rw (all_remaining_lem p (payload_buffers payload) nonempty r)
      (ap ok (flatten-payload_buffers payload))

buffer_views_lem :
    (b : Bytes) (bs : List Bytes)
    → 0 < length b
    → buffer_views (of_input (b ∷ bs)).input ≡ ok (b ∷ bs)
unfolding buffer_views views substr of_input of_buffers
buffer_views_lem b bs pos =
    let some_left : (length b + total_size bs == 0) ≡ false = ground arith in
    let inside : ltb (length b) 0 ≡ false = ground arith in rw some_left (rw inside refl)

fits : (pseudo : ℕ) (t : TcpSegment) → SegmentFits t → SegmentFits (compute_checksum pseudo t)
unfolding compute_checksum
fits pseudo t f = record {
  src_port = f.src_port;
  dst_port = f.dst_port;
  seqno = f.seqno;
  ackno = f.ackno;
  window_size = f.window_size;
  reset = f.reset;
  bytes = f.bytes;
  room = f.room;
}

cksum_width : (pseudo : ℕ) (t : TcpSegment) → (compute_checksum pseudo t).udinfo.cksum < u16_mod
unfolding compute_checksum
cksum_width pseudo t = value_width (
    add_all (serialize (record t { udinfo = record (t.udinfo) { cksum = 0 } }))
      (Checksum.init pseudo))

-- Buffers, the first of which is the header, and from which the payload is read.
pub parse-buffers :
    (pseudo junk : ℕ) (t : TcpSegment) (others : List Bytes)
    → SegmentFits t
    → t.udinfo.cksum < u16_mod
    → total_size others ≡ length t.message.sender.payload
    → ((p : Parser) → Reads p [] others → concatenate_all_remaining p ≡ ok t.message.sender.payload)
    → value (add_all (header_bytes t ∷ others) (Checksum.init pseudo)) ≡ 0
    → parse pseudo junk (header_bytes t ∷ others) ≡ ok (some t)
unfolding parse parse_segment
parse-buffers pseudo junk t others f ck total payload sum =
    let size = length-header_bytes t in
    let room = f.room in
    let start =
      of_input-Reads (header_bytes t) others (omega (arith, size)) (omega (arith, size)) in
    let (p, e, r) = parse_fields_lem junk t _ _ f ck start in
    rw (buffer_views_lem (header_bytes t) others (omega (arith, size)))
      (rw sum (rw e (rw (parse_payload_lem t p (payload p r)) (rw r.fine refl))))

-- The header and the payload in a buffer each, even an empty one, with the checksum of the segment.
pub parse-two_buffers :
    (pseudo junk : ℕ) (t : TcpSegment)
    → SegmentFits t
    → pseudo < 0x100000
    → parse pseudo junk (header_bytes (compute_checksum pseudo t) ∷ t.message.sender.payload ∷ [])
      ≡ ok (some (compute_checksum pseudo t))
unfolding compute_checksum add_all
parse-two_buffers pseudo junk t f small =
    let checked = compute_checksum pseudo t in
    let payload = t.message.sender.payload in
    let e = serialize_lem checked in
    let total : total_size (payload ∷ []) ≡ length payload = omega arith in
    parse-buffers pseudo junk checked (payload ∷ []) (fits pseudo t f) (cksum_width pseudo t) total
      (λ p r. concatenate_one p payload r)
      (ap value (add_all-one payload (add (header_bytes checked) (Checksum.init pseudo)))
        ∙ ap (λ b. value (add_all b (Checksum.init pseudo))) (sym e)
        ∙ value-compute_checksum pseudo t small f.bytes f.room)

-- A segment with its checksum is parsed as it was serialized, whatever the indeterminate fields
-- are, where the fields have their widths, one reset flag serves both directions, the payload has
-- at most 65515 bytes, and the sum of the pseudo-header is less than 2^20.
pub parse-compute_checksum :
    (pseudo junk : ℕ) (t : TcpSegment)
    → SegmentFits t
    → pseudo < 0x100000
    → parse pseudo junk (serialize (compute_checksum pseudo t))
      ≡ ok (some (compute_checksum pseudo t))
parse-compute_checksum pseudo junk t f small =
    let checked = compute_checksum pseudo t in
    let payload = checked.message.sender.payload in
    let e = serialize_lem checked in
    ap (parse pseudo junk) e
    ∙ parse-buffers pseudo junk checked (payload_buffers payload) (fits pseudo t f)
        (cksum_width pseudo t) (total_size-payload_buffers payload)
        (λ p r. concatenate_payload p payload r)
        (ap (λ b. value (add_all b (Checksum.init pseudo))) (sym e)
          ∙ value-compute_checksum pseudo t small f.bytes f.room)
