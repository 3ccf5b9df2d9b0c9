-- ===== src/Wire/Ethernet/RoundTrip.antt =====
-- Ethernet frames, serialized and parsed again.
use internet.Prelude.{
  ◌+◌, ◌<◌, ◌≡◌, refl, sym, ap, ◌∙◌, false, some, List, [], ◌∷◌, ◌++◌, append-nil, append_assoc,
  arith, length, All, length-append, Bytes, u16_mod, u64_mod, ok,
}
use internet.Wire.Parser.{Parser, total_size, of_input}
use internet.Wire.Parser.Reads.{
  Reads, integer-Reads, bytes-Reads, length-big_endian, of_input-Reads, all_remaining_lem,
  FirstNonempty, all-FirstNonempty,
}
use internet.Wire.Serializer
use internet.Wire.Serializer.{Serializer, big_endian, finish, append_buffers}
use internet.Wire.Serializer.Layout
use internet.Wire.Serializer.Layout.{finish-append_buffers}
use internet.Wire.Ethernet.{
  EthernetAddress, EthernetHeader, EthernetFrame, no_address, default_frame, parse_header,
  serialize_header, serialize_frame, parse_frame, serialize, parse,
}

-- An array of six bytes.
abbrev pub IsAddress : EthernetAddress → Type 0
IsAddress a = (length a ≡ 6) × All (λ b. b < 256) a

pub no_address-IsAddress : IsAddress no_address
no_address-IsAddress =
    let byte : 0 < 256 = omega arith in (refl, (byte, (byte, (byte, (byte, (byte, (byte, tt)))))))

abbrev pub HeaderFits : EthernetHeader → Type 0
HeaderFits h = IsAddress h.dst × IsAddress h.src × (h.type < u16_mod)

abbrev pub header_bytes : EthernetHeader → Bytes
header_bytes h = h.dst ++ (h.src ++ (big_endian 2 h.type ++ []))

serialize_header_lem :
    (h : EthernetHeader)
    → HeaderFits h
    → serialize_header h Serializer.empty ≡ record { output = []; buffer = header_bytes h }
unfolding serialize_header Serializer.integer
serialize_header_lem h (dst, src, _) = rw (Layout.bytes_lem h.dst Serializer.empty dst.1) (
    rw (Layout.bytes_lem h.src (record { output = []; buffer = h.dst }) src.1) (
      ap (λ (b : Bytes). record { output = []; buffer = b })
        (simp (append_assoc, append-nil) refl)))

parse_header_lem :
    (h : EthernetHeader) (p : Parser) (others : List Bytes)
    → HeaderFits h
    → Reads p (header_bytes h) others
    → (p' : Parser) × (parse_header default_frame.header p ≡ ok (h, p')) × Reads p' [] others
unfolding parse_header
parse_header_lem h p others (dst, src, type) r =
    let (p₁, e₁, r₁) =
      bytes-Reads no_address h.dst p (h.src ++ (big_endian 2 h.type ++ [])) others (sym dst.0) dst.1
        r in
    let (p₂, e₂, r₂) =
      bytes-Reads no_address h.src p₁ (big_endian 2 h.type ++ []) others (sym src.0) src.1 r₁ in
    let (p₃, e₃, r₃) = integer-Reads 2 0 h.type p₂ [] others type r₂ in
    (p₃, rw e₁ (rw e₂ (rw e₃ refl)), r₃)

pub length-header_bytes : (h : EthernetHeader) → HeaderFits h → length (header_bytes h) ≡ 14
length-header_bytes h (dst, src, type) = omega (
  arith,
  length-append h.dst (h.src ++ (big_endian 2 h.type ++ [])),
  length-append h.src (big_endian 2 h.type ++ []),
  length-append (big_endian 2 h.type) [],
  length-big_endian 2 h.type,
  dst.0,
  src.0,
)

-- One buffer for the header, and those of the payload.
pub serialize_lem :
    (f : EthernetFrame)
    → HeaderFits f.header
    → All (λ b. 0 < length b) f.payload
    → serialize f ≡ header_bytes f.header ∷ f.payload
unfolding serialize serialize_frame
serialize_lem f h nonempty =
    ap (λ s. finish (append_buffers f.payload s)) (serialize_header_lem f.header h)
    ∙ finish-append_buffers (header_bytes f.header) f.payload
        (omega (arith, length-header_bytes f.header h)) nonempty

parse_frame_lem :
    (f : EthernetFrame) (p : Parser)
    → HeaderFits f.header
    → FirstNonempty f.payload
    → Reads p (header_bytes f.header) f.payload
    → (p' : Parser) × (parse_frame default_frame p ≡ ok (f, p')) × (p'.has_error ≡ false)
unfolding parse_frame
parse_frame_lem f p h nonempty r =
    let (p', e, r') = parse_header_lem f.header p f.payload h r in
    (p', rw e (rw (all_remaining_lem p' f.payload nonempty r') refl), r'.fine)

-- A frame whose first buffer is the header is parsed.
pub parse-header_bytes :
    (f : EthernetFrame)
    → HeaderFits f.header
    → FirstNonempty f.payload
    → 14 + total_size f.payload < u64_mod
    → parse (header_bytes f.header ∷ f.payload) ≡ ok (some f)
unfolding parse
parse-header_bytes f h nonempty fits =
    let len = length-header_bytes f.header h in
    let (p, e, fine) = parse_frame_lem f (of_input (header_bytes f.header ∷ f.payload)) h nonempty (
      of_input-Reads (header_bytes f.header) f.payload (omega (arith, len)) (omega (arith, len))) in
    rw e (rw fine refl)

-- A frame is read back as it was written, where the fields have their widths, no buffer of the
-- payload is empty and the sizes add up to less than 2^64.
pub frame_round_trip :
    (f : EthernetFrame)
    → HeaderFits f.header
    → All (λ b. 0 < length b) f.payload
    → 14 + total_size f.payload < u64_mod
    → parse (serialize f) ≡ ok (some f)
frame_round_trip f h nonempty fits =
    ap parse (serialize_lem f h nonempty)
    ∙ parse-header_bytes f h (all-FirstNonempty f.payload nonempty) fits
