-- ===== src/Wire/Ipv4/RoundTrip.antt =====
-- IPv4 datagrams, serialized and parsed again.
use internet.Prelude.{
  ℕ, ◌+◌, ◌*◌, ◌/◌, ◌%◌, ◌<◌, ◌≡◌, refl, sym, ap, ◌∙◌, Bool, true, false, ◌||◌, not, some, List, [],
  ◌∷◌, ◌++◌, append-nil, append_assoc, arith, ltb, ◌==◌, if◌then◌else◌, ==_iff, length, All,
  length-append, Bytes, u16_mod, u32_mod, sub64, ok, ◌>>=◌,
}
use internet.Wire.Parser.{Parser, total_size, of_input, skip_bytes, set_error, all_remaining}
use internet.Wire.Parser.Reads.{
  Reads, integer-Reads, length-big_endian, of_input-Reads, all_remaining_lem, skip_bytes_none,
  FirstNonempty, all-FirstNonempty, truncate_input_whole,
}
use internet.Wire.Serializer
use internet.Wire.Serializer.{Serializer, big_endian, finish, append_buffers}
use internet.Wire.Serializer.Layout.{finish-append_buffers}
use internet.Wire.Ipv4.{
  Ipv4Header, Ipv4Datagram, default_header, test_bit, first_byte, fragment_word, write_fields,
  payload_length, compute_checksum, parse_fields, verify, parse_header, parse_datagram, serialize,
  parse,
}
use internet.Wire.Ipv4.Total.{
  datagram_buffers, serialize-ok, with_checksum, header_checksum, compute_checksum-ok,
}

-- A header without options, whose fields have their widths.
pub record HeaderFits (h : Ipv4Header) : Type 0 where
  pub ver : h.ver ≡ 4
  pub hlen : h.hlen ≡ 5
  pub tos : h.tos < 256
  pub len : h.len < u16_mod
  pub id : h.id < u16_mod
  pub offset : h.offset < 0x2000
  pub ttl : h.ttl < 256
  pub proto : h.proto < 256
  pub cksum : h.cksum < u16_mod
  pub src : h.src < u32_mod
  pub dst : h.dst < u32_mod

abbrev address_bytes : Ipv4Header → Bytes
address_bytes h = big_endian 2 h.cksum ++ (big_endian 4 h.src ++ (big_endian 4 h.dst ++ []))

abbrev pub header_bytes : Ipv4Header → Bytes
header_bytes h =
    big_endian 1 (first_byte h)
    ++ (big_endian 1 h.tos
        ++ (big_endian 2 h.len
            ++ (big_endian 2 h.id
                ++ (big_endian 2 (fragment_word h)
                    ++ (big_endian 1 h.ttl ++ (big_endian 1 h.proto ++ address_bytes h))))))

pub length-header_bytes : (h : Ipv4Header) → length (header_bytes h) ≡ 20
length-header_bytes h = simp (length-append, length-big_endian) refl

write_fields_lem :
    (h : Ipv4Header)
    → write_fields h Serializer.empty ≡ record { output = []; buffer = header_bytes h }
unfolding write_fields Serializer.integer
write_fields_lem h =
    ap (λ (b : Bytes). record { output = []; buffer = b }) (simp (append_assoc, append-nil) refl)

-- The words in which several fields are packed have their widths, and the fields are taken out
-- again.
packed :
    (df mf : Bool) (offset : ℕ)
    → offset < 0x2000
    → let word = (if df then 0x4000 else 0) + (if mf then 0x2000 else 0) + offset % 0x2000 in
      (word < u16_mod)
      × (test_bit 0x4000 word ≡ df)
      × (test_bit 0x2000 word ≡ mf)
      × (word % 0x2000 ≡ offset)
packed true true offset lt = (ground arith, ground arith, ground arith, ground arith)
packed true false offset lt = (ground arith, ground arith, ground arith, ground arith)
packed false true offset lt = (ground arith, ground arith, ground arith, ground arith)
packed false false offset lt = (ground arith, ground arith, ground arith, ground arith)

first_byte_lem : (h : Ipv4Header) → HeaderFits h → first_byte h ≡ 69
unfolding first_byte
first_byte_lem h f = rw (f.ver, f.hlen) refl

-- The fields as they are read, before the checksum is verified.
read_fields : ℕ → ℕ → Ipv4Header → Ipv4Header
read_fields first word h = record h {
  ver = first / 16;
  hlen = first % 16;
  df = test_bit 0x4000 word;
  mf = test_bit 0x2000 word;
  offset = word % 0x2000;
}

word_width : (h : Ipv4Header) → HeaderFits h → fragment_word h < u16_mod
unfolding fragment_word
word_width h f = (packed h.df h.mf h.offset f.offset).0

read_fields_lem :
    (h : Ipv4Header) → HeaderFits h → read_fields (first_byte h) (fragment_word h) h ≡ h
unfolding read_fields fragment_word
read_fields_lem h f =
    let (_, df, mf, offset) = packed h.df h.mf h.offset f.offset in
    rw (first_byte_lem h f, df, mf, offset) (rw⁻¹ (f.ver, f.hlen) refl)

parse_fields_lem :
    (h : Ipv4Header) (p : Parser) (others : List Bytes)
    → HeaderFits h
    → Reads p (header_bytes h) others
    → (p' : Parser) × (parse_fields default_header p ≡ ok (h, p')) × Reads p' [] others
unfolding parse_fields read_fields
parse_fields_lem h p others f r =
    let word : fragment_word h < u16_mod = word_width h f in
    let (p₁, e₁, r₁) =
      integer-Reads 1 0 (first_byte h) p _ others (omega (arith, first_byte_lem h f)) r in
    let (p₂, e₂, r₂) = integer-Reads 1 0 h.tos p₁ _ others f.tos r₁ in
    let (p₃, e₃, r₃) = integer-Reads 2 0 h.len p₂ _ others f.len r₂ in
    let (p₄, e₄, r₄) = integer-Reads 2 0 h.id p₃ _ others f.id r₃ in
    let (p₅, e₅, r₅) = integer-Reads 2 0 (fragment_word h) p₄ _ others word r₄ in
    let (p₆, e₆, r₆) = integer-Reads 1 128 h.ttl p₅ _ others f.ttl r₅ in
    let (p₇, e₇, r₇) = integer-Reads 1 6 h.proto p₆ (address_bytes h) others f.proto r₆ in
    let (p₈, e₈, r₈) = integer-Reads 2 0 h.cksum p₇ _ others f.cksum r₇ in
    let (p₉, e₉, r₉) = integer-Reads 4 0 h.src p₈ _ others f.src r₈ in
    let (p₁₀, e₁₀, r₁₀) = integer-Reads 4 0 h.dst p₉ [] others f.dst r₉ in
    (
      p₁₀,
      rw e₁ (
          rw e₂ (
            rw e₃ (
              rw e₄ (
                rw e₅ (
                  rw e₆ (
                    rw e₇
                      (rw e₈ (rw e₉ (rw e₁₀ (ap (λ x. ok (x, p₁₀)) (read_fields_lem h f))))))))))),
      r₁₀,
    )

verify_lem :
    (h : Ipv4Header) (p : Parser)
    → HeaderFits h
    → h.cksum ≡ header_checksum h
    → verify h p ≡ ok (h, p)
unfolding verify with_checksum
verify_lem h p f c =
    ap
      (λ m. m >>= λ p'.
        compute_checksum h >>= λ h'. ok (h', if h'.cksum == h.cksum then p' else set_error p'))
      (ap (λ k. skip_bytes (sub64 (k * 4) 20) p) f.hlen ∙ skip_bytes_none p)
    ∙ ap (λ m. m >>= λ h'. ok (h', if h'.cksum == h.cksum then p else set_error p))
        (compute_checksum-ok h f.ver ∙ ap (λ k. ok (record h { cksum = k })) (sym c))
    ∙ ap (λ b. ok (h, if b then p else set_error p)) ((==_iff h.cksum h.cksum).1 refl)

parse_header_lem :
    (h : Ipv4Header) (p : Parser) (others : List Bytes)
    → HeaderFits h
    → h.cksum ≡ header_checksum h
    → Reads p (header_bytes h) others
    → (p' : Parser) × (parse_header default_header p ≡ ok (h, p')) × Reads p' [] others
unfolding parse_header
parse_header_lem h p others f c r =
    let (p', e, r') = parse_fields_lem h p others f r in
    let good : (not (h.ver == 4) || ltb h.hlen 5) ≡ false = rw (f.ver, f.hlen) refl in
    (
      p',
      rw e
          (rw good (ap (λ b. if b then ok (h, p') else verify h p') r'.fine ∙ verify_lem h p' f c)),
      r',
    )

parse_datagram_lem :
    (d : Ipv4Datagram) (p : Parser)
    → HeaderFits d.header
    → d.header.cksum ≡ header_checksum d.header
    → d.header.len ≡ 20 + total_size d.payload
    → FirstNonempty d.payload
    → Reads p (header_bytes d.header) d.payload
    → (p' : Parser) × (parse_datagram (record { header = default_header; payload = [] }) p
        ≡ ok (d, p'))
      × (p'.has_error ≡ false)
unfolding parse_datagram payload_length
parse_datagram_lem d p f c len nonempty r =
    let (p', e, r') = parse_header_lem d.header p d.payload f c r in
    let whole : payload_length d.header ≡ total_size d.payload =
      omega (arith, f.hlen, f.len, len) in
    (
      p',
      rw e (
          ap
            (λ q. all_remaining q >>= λ payload.
              ok (record { header = d.header; payload = payload }, q))
            (truncate_input_whole (payload_length d.header) p'
              (omega (arith, whole, r'.shows.total)))
          ∙ ap (λ m. m >>= λ payload. ok (record { header = d.header; payload = payload }, p'))
              (all_remaining_lem p' d.payload nonempty r')),
      r'.fine,
    )

-- A datagram whose first buffer is the header is parsed.
pub parse-header_bytes :
    (d : Ipv4Datagram)
    → HeaderFits d.header
    → d.header.cksum ≡ header_checksum d.header
    → d.header.len ≡ 20 + total_size d.payload
    → FirstNonempty d.payload
    → parse (header_bytes d.header ∷ d.payload) ≡ ok (some d)
unfolding parse
parse-header_bytes d f c len nonempty =
    let size = length-header_bytes d.header in
    let (p, e, fine) =
      parse_datagram_lem d (of_input (header_bytes d.header ∷ d.payload)) f c len nonempty (
        of_input-Reads (header_bytes d.header) d.payload (omega (arith, size))
          (omega (arith, size, f.len, len))) in
    rw e (rw fine refl)

pub one_header :
    (d : Ipv4Datagram)
    → All (λ b. 0 < length b) d.payload
    → datagram_buffers d ≡ header_bytes d.header ∷ d.payload
unfolding datagram_buffers
one_header d nonempty =
    ap (λ s. finish (append_buffers d.payload s)) (write_fields_lem d.header)
    ∙ finish-append_buffers (header_bytes d.header) d.payload
        (omega (arith, length-header_bytes d.header)) nonempty

-- What the round trip asks of a datagram: no options, the widths of the fields, the right checksum
-- and length, and no empty buffer.
abbrev pub IsComplete : Ipv4Datagram → Type 0
IsComplete d =
    HeaderFits d.header
    × (d.header.cksum ≡ header_checksum d.header)
    × (d.header.len ≡ 20 + total_size d.payload)
    × All (λ b. 0 < length b) d.payload

pub parse-datagram_buffers :
    (d : Ipv4Datagram) → IsComplete d → parse (datagram_buffers d) ≡ ok (some d)
parse-datagram_buffers d (f, c, len, nonempty) =
    ap parse (one_header d nonempty)
    ∙ parse-header_bytes d f c len (all-FirstNonempty d.payload nonempty)

-- A datagram is read back as it was written, where its header has no options, has the widths of
-- its fields, its checksum and its length, and no buffer of the payload is empty.
pub datagram_round_trip : (d : Ipv4Datagram) → IsComplete d → (serialize d >>= parse) ≡ ok (some d)
datagram_round_trip d h =
    ap (λ b. b >>= parse) (serialize-ok d h.0.ver) ∙ parse-datagram_buffers d h
