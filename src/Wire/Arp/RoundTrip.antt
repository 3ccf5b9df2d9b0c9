-- ===== src/Wire/Arp/RoundTrip.antt =====
-- ARP messages, serialized and parsed again.
use internet.Prelude.{
  ◌<◌, ◌≡◌, refl, sym, ap, ◌∙◌, true, false, some, [], ◌∷◌, ◌++◌, append-nil, append_assoc, arith,
  length, length-append, Bytes, u16_mod, u32_mod, ok, ◌>>=◌,
}
use internet.Wire.Parser.{Parser, of_input}
use internet.Wire.Parser.Reads.{
  Reads, integer-Reads, bytes-Reads, length-big_endian, of_input-Reads,
}
use internet.Wire.Serializer
use internet.Wire.Serializer.{Serializer, big_endian, finish, append_buffers}
use internet.Wire.Serializer.Layout
use internet.Wire.Serializer.Layout.{finish-append_buffers}
use internet.Wire.Ethernet.{no_address, type_ipv4}
use internet.Wire.Ethernet.RoundTrip.{IsAddress}
use internet.Wire.Arp.{
  ArpMessage, default_message, supported, parse_types, parse_addresses, parse_message, write_fields,
  serialize, parse,
}
use internet.Wire.Arp.Total.{message_buffers, serialize-ok}

-- The fields that `supported` says nothing of have their widths.
abbrev pub AddressesFit : ArpMessage → Type 0
AddressesFit m =
    IsAddress m.sender_ethernet_address
    × (m.sender_ip_address < u32_mod)
    × IsAddress m.target_ethernet_address
    × (m.target_ip_address < u32_mod)

abbrev pub TypesFit : ArpMessage → Type 0
TypesFit m =
    (m.hardware_type < u16_mod)
    × (m.protocol_type < u16_mod)
    × (m.hardware_address_size < 256)
    × (m.protocol_address_size < 256)
    × (m.opcode < u16_mod)

supported-TypesFit : (m : ArpMessage) → supported m ≡ true → TypesFit m
unfolding supported
supported-TypesFit m s =
    (ground (arith, s), ground (arith, s), ground (arith, s), ground (arith, s), ground (arith, s))

abbrev address_bytes : ArpMessage → Bytes
address_bytes m =
    m.sender_ethernet_address
    ++ (big_endian 4 m.sender_ip_address
        ++ (m.target_ethernet_address ++ (big_endian 4 m.target_ip_address ++ [])))

abbrev message_bytes : ArpMessage → Bytes
message_bytes m =
    big_endian 2 m.hardware_type
    ++ (big_endian 2 m.protocol_type
        ++ (big_endian 1 m.hardware_address_size
            ++ (big_endian 1 m.protocol_address_size
                ++ (big_endian 2 m.opcode ++ address_bytes m))))

write_fields_lem :
    (m : ArpMessage)
    → AddressesFit m
    → write_fields m Serializer.empty ≡ record { output = []; buffer = message_bytes m }
unfolding write_fields Serializer.integer
write_fields_lem m (sender, _, target, _) =
    rw (Layout.bytes_lem m.sender_ethernet_address _ sender.1) (
      rw (Layout.bytes_lem m.target_ethernet_address _ target.1) (
        ap (λ (b : Bytes). record { output = []; buffer = b })
          (simp (append_assoc, append-nil) refl)))

parse_types_lem :
    (m : ArpMessage) (p : Parser)
    → TypesFit m
    → Reads p (message_bytes m) []
    → (p' : Parser) × (parse_types default_message p
        ≡ ok (
          record default_message {
            hardware_type = m.hardware_type;
            protocol_type = m.protocol_type;
            hardware_address_size = m.hardware_address_size;
            protocol_address_size = m.protocol_address_size;
            opcode = m.opcode;
          },
          p',
        ))
      × Reads p' (address_bytes m) []
unfolding parse_types
parse_types_lem m p (w₁, w₂, w₃, w₄, w₅) r =
    let (p₁, e₁, r₁) = integer-Reads 2 1 m.hardware_type p _ [] w₁ r in
    let (p₂, e₂, r₂) = integer-Reads 2 type_ipv4 m.protocol_type p₁ _ [] w₂ r₁ in
    let (p₃, e₃, r₃) = integer-Reads 1 6 m.hardware_address_size p₂ _ [] w₃ r₂ in
    let (p₄, e₄, r₄) = integer-Reads 1 4 m.protocol_address_size p₃ _ [] w₄ r₃ in
    let (p₅, e₅, r₅) = integer-Reads 2 0 m.opcode p₄ (address_bytes m) [] w₅ r₄ in
    (p₅, rw e₁ (rw e₂ (rw e₃ (rw e₄ (rw e₅ refl)))), r₅)

parse_addresses_lem :
    (m old : ArpMessage) (p : Parser)
    → AddressesFit m
    → length old.sender_ethernet_address ≡ 6
    → length old.target_ethernet_address ≡ 6
    → Reads p (address_bytes m) []
    → (p' : Parser) × (parse_addresses old p
        ≡ ok (
          record old {
            sender_ethernet_address = m.sender_ethernet_address;
            sender_ip_address = m.sender_ip_address;
            target_ethernet_address = m.target_ethernet_address;
            target_ip_address = m.target_ip_address;
          },
          p',
        ))
      × Reads p' [] []
unfolding parse_addresses
parse_addresses_lem m old p (s, w₂, t, w₄) a b r =
    let (p₁, e₁, r₁) =
      bytes-Reads old.sender_ethernet_address m.sender_ethernet_address p _ [] (a ∙ sym s.0) s.1
        r in
    let (p₂, e₂, r₂) = integer-Reads 4 old.sender_ip_address m.sender_ip_address p₁ _ [] w₂ r₁ in
    let (p₃, e₃, r₃) =
      bytes-Reads old.target_ethernet_address m.target_ethernet_address p₂ _ [] (b ∙ sym t.0) t.1
        r₂ in
    let (p₄, e₄, r₄) = integer-Reads 4 old.target_ip_address m.target_ip_address p₃ [] [] w₄ r₃ in
    (p₄, rw e₁ (rw e₂ (rw e₃ (rw e₄ refl))), r₄)

parse_message_lem :
    (m : ArpMessage) (p : Parser)
    → supported m ≡ true
    → AddressesFit m
    → Reads p (message_bytes m) []
    → (p' : Parser) × (parse_message default_message p ≡ ok (m, p')) × (p'.has_error ≡ false)
unfolding parse_message supported
parse_message_lem m p s h r =
    let (p₁, e₁, r₁) = parse_types_lem m p (supported-TypesFit m s) r in
    let (p₂, e₂, r₂) =
      parse_addresses_lem m
        (record m {
          sender_ethernet_address = no_address;
          sender_ip_address = 0;
          target_ethernet_address = no_address;
          target_ip_address = 0;
        })
        p₁ h refl refl r₁ in
    (p₂, rw e₁ (rw s (rw e₂ refl)), r₂.fine)

length-message_bytes : (m : ArpMessage) → AddressesFit m → length (message_bytes m) ≡ 28
length-message_bytes m (s, _, t, _) = simp (length-append, length-big_endian, s.0, t.0) refl

one_buffer : (m : ArpMessage) → AddressesFit m → message_buffers m ≡ message_bytes m ∷ []
unfolding message_buffers append_buffers
one_buffer m h =
    ap finish (write_fields_lem m h)
    ∙ finish-append_buffers (message_bytes m) [] (omega (arith, length-message_bytes m h)) tt

pub parse-message_buffers :
    (m : ArpMessage) → supported m ≡ true → AddressesFit m → parse (message_buffers m) ≡ ok (some m)
unfolding parse
parse-message_buffers m s h =
    let len = length-message_bytes m h in
    let (p, e, fine) =
      parse_message_lem m (of_input (message_bytes m ∷ [])) s h
        (of_input-Reads (message_bytes m) [] (omega (arith, len)) (omega (arith, len))) in
    rw (one_buffer m h) (rw e (rw fine refl))

-- A supported message is read back as it was written, where its addresses have their widths.
pub message_round_trip :
    (m : ArpMessage) → supported m ≡ true → AddressesFit m → (serialize m >>= parse) ≡ ok (some m)
message_round_trip m s h = ap (λ b. b >>= parse) (serialize-ok m s) ∙ parse-message_buffers m s h
