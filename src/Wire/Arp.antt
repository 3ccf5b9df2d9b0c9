-- ===== src/Wire/Arp.antt =====
-- util/arp_message.hh and util/arp_message.cc.
pub mod Total
pub mod RoundTrip
use internet.Prelude.{
  ℕ, Bool, ◌&&◌, ◌||◌, Option, none, some, List, ◌==◌, if◌then◌else◌, Bytes, Exec, ok, fault,
  runtime_error, ◌>>=◌, ◌>>◌,
}
use internet.Wire.Parser
use internet.Wire.Parser.{Parser, set_error, of_input}
use internet.Wire.Serializer
use internet.Wire.Serializer.{Serializer, finish}
use internet.Wire.Ethernet.{EthernetAddress, no_address, type_ipv4}

abbrev pub opcode_request : ℕ
opcode_request = 1

abbrev pub opcode_reply : ℕ
opcode_reply = 2

pub record ArpMessage : Type 0 where
  pub hardware_type : ℕ
  pub protocol_type : ℕ
  pub hardware_address_size : ℕ
  pub protocol_address_size : ℕ
  pub opcode : ℕ
  pub sender_ethernet_address : EthernetAddress
  pub sender_ip_address : ℕ
  pub target_ethernet_address : EthernetAddress
  pub target_ip_address : ℕ

-- The member initialisers.
abbrev pub default_message : ArpMessage
default_message = record {
  hardware_type = 1;
  protocol_type = type_ipv4;
  hardware_address_size = 6;
  protocol_address_size = 4;
  opcode = 0;
  sender_ethernet_address = no_address;
  sender_ip_address = 0;
  target_ethernet_address = no_address;
  target_ip_address = 0;
}

unfoldable pub supported : ArpMessage → Bool
supported m =
    (m.hardware_type == 1)
    && (m.protocol_type == type_ipv4)
    && (m.hardware_address_size == 6)
    && (m.protocol_address_size == 4)
    && ((m.opcode == opcode_request) || (m.opcode == opcode_reply))

-- The addresses that follow the fixed part.
unfoldable pub parse_addresses : ArpMessage → Parser → Exec (ArpMessage × Parser)
unfolding Parser.bytes Parser.integer
parse_addresses m p = do
  (sender_ethernet, p₁) ← Parser.bytes m.sender_ethernet_address p
  (sender_ip, p₂) ← Parser.integer 4 m.sender_ip_address p₁
  (target_ethernet, p₃) ← Parser.bytes m.target_ethernet_address p₂
  (target_ip, p₄) ← Parser.integer 4 m.target_ip_address p₃
  ok (
    record m {
      sender_ethernet_address = sender_ethernet;
      sender_ip_address = sender_ip;
      target_ethernet_address = target_ethernet;
      target_ip_address = target_ip;
    },
    p₄,
  )

-- The fixed part.
unfoldable pub parse_types : ArpMessage → Parser → Exec (ArpMessage × Parser)
unfolding Parser.integer
parse_types m p = do
  (hardware_type, p₁) ← Parser.integer 2 m.hardware_type p
  (protocol_type, p₂) ← Parser.integer 2 m.protocol_type p₁
  (hardware_size, p₃) ← Parser.integer 1 m.hardware_address_size p₂
  (protocol_size, p₄) ← Parser.integer 1 m.protocol_address_size p₃
  (opcode, p₅) ← Parser.integer 2 m.opcode p₄
  ok (
    record m {
      hardware_type = hardware_type;
      protocol_type = protocol_type;
      hardware_address_size = hardware_size;
      protocol_address_size = protocol_size;
      opcode = opcode;
    },
    p₅,
  )

unfoldable pub parse_message : ArpMessage → Parser → Exec (ArpMessage × Parser)
unfolding parse_types supported parse_addresses
parse_message m p = do
  (m', p') ← parse_types m p
  if supported m' then parse_addresses m' p' else ok (m', set_error p')

unfoldable pub write_fields : ArpMessage → Serializer → Serializer
unfolding Serializer.bytes Serializer.integer
write_fields m s = Serializer.integer 4 m.target_ip_address (
    Serializer.bytes m.target_ethernet_address (
      Serializer.integer 4 m.sender_ip_address (
        Serializer.bytes m.sender_ethernet_address (
          Serializer.integer 2 m.opcode (
            Serializer.integer 1 m.protocol_address_size (
              Serializer.integer 1 m.hardware_address_size (
                Serializer.integer 2 m.protocol_type (Serializer.integer 2 m.hardware_type s))))))))

unfoldable pub serialize_message : ArpMessage → Serializer → Exec Serializer
unfolding write_fields supported
serialize_message m s = if supported m then ok (write_fields m s) else fault runtime_error

-- `serialize( message )` and `parse( message, buffers )` of util/helpers.hh; `none` is the result
-- false.
unfoldable pub serialize : ArpMessage → Exec (List Bytes)
unfolding serialize_message finish
serialize m = serialize_message m Serializer.empty >>= λ s. ok (finish s)

unfoldable pub parse : List Bytes → Exec (Option ArpMessage)
unfolding parse_message of_input
parse buffers = parse_message default_message (of_input buffers) >>= λ (m, p).
    ok (if p.has_error then none else some m)
