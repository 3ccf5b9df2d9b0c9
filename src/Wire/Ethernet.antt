-- ===== src/Wire/Ethernet.antt =====
-- util/ethernet_header.hh, util/ethernet_header.cc and util/ethernet_frame.hh.
pub mod RoundTrip
use internet.Prelude.{
  Option, none, some, if◌then◌else◌, ◌>>=◌, ℕ, Bool, true, false, ◌&&◌, List, [], ◌∷◌, ◌==◌, Bytes,
  Exec, ok,
}
use internet.Wire.Parser
use internet.Wire.Parser.{Parser, all_remaining, of_input}
use internet.Wire.Serializer
use internet.Wire.Serializer.{Serializer, append_buffers, finish}

-- An array of six bytes.
abbrev pub EthernetAddress : Type 0
EthernetAddress = Bytes

abbrev pub ethernet_broadcast : EthernetAddress
ethernet_broadcast = 0xff ∷ 0xff ∷ 0xff ∷ 0xff ∷ 0xff ∷ 0xff ∷ []

abbrev pub no_address : EthernetAddress
no_address = 0 ∷ 0 ∷ 0 ∷ 0 ∷ 0 ∷ 0 ∷ []

-- `operator==` of arrays.
unfoldable pub same_address : EthernetAddress → EthernetAddress → Bool
same_address [] [] = true
same_address [] (b ∷ bs) = false
same_address (a ∷ as') [] = false
same_address (a ∷ as') (b ∷ bs) = (a == b) && same_address as' bs

abbrev pub type_ipv4 : ℕ
type_ipv4 = 0x800

abbrev pub type_arp : ℕ
type_arp = 0x806

pub record EthernetHeader : Type 0 where
  pub dst : EthernetAddress
  pub src : EthernetAddress
  pub type : ℕ

unfoldable pub parse_header : EthernetHeader → Parser → Exec (EthernetHeader × Parser)
unfolding Parser.bytes Parser.integer
parse_header h p = do
  (dst, p₁) ← Parser.bytes h.dst p
  (src, p₂) ← Parser.bytes h.src p₁
  (type, p₃) ← Parser.integer 2 h.type p₂
  ok (record { dst = dst; src = src; type = type }, p₃)

unfoldable pub serialize_header : EthernetHeader → Serializer → Serializer
unfolding Serializer.bytes Serializer.integer
serialize_header h s =
    Serializer.integer 2 h.type (Serializer.bytes h.src (Serializer.bytes h.dst s))

pub record EthernetFrame : Type 0 where
  pub header : EthernetHeader
  pub payload : List Bytes

unfoldable pub parse_frame : EthernetFrame → Parser → Exec (EthernetFrame × Parser)
unfolding parse_header all_remaining
parse_frame f p = do
  (header, p') ← parse_header f.header p
  payload ← all_remaining p'
  ok (record { header = header; payload = payload }, p')

unfoldable pub serialize_frame : EthernetFrame → Serializer → Serializer
unfolding serialize_header append_buffers
serialize_frame f s = append_buffers f.payload (serialize_header f.header s)

abbrev pub default_frame : EthernetFrame
default_frame = record {
  header = record { dst = no_address; src = no_address; type = 0 };
  payload = [];
}

-- `serialize( frame )` and `parse( frame, buffers )` of util/helpers.hh.
unfoldable pub serialize : EthernetFrame → List Bytes
unfolding serialize_frame finish
serialize f = finish (serialize_frame f Serializer.empty)

unfoldable pub parse : List Bytes → Exec (Option EthernetFrame)
unfolding parse_frame of_input
parse buffers = parse_frame default_frame (of_input buffers) >>= λ (f, p).
    ok (if p.has_error then none else some f)
