-- ===== src/Wire/Arp/Total.antt =====
-- When ARP messages can be serialized.
use internet.Prelude.{◌≡◌, true, List, Bytes, ok}
use internet.Wire.Serializer
use internet.Wire.Serializer.{finish}
use internet.Wire.Arp.{ArpMessage, write_fields, supported, serialize}

-- The buffers of a message.
unfoldable pub message_buffers : ArpMessage → List Bytes
message_buffers m = finish (write_fields m Serializer.empty)

-- A supported message is always serialized.
pub serialize-ok : (m : ArpMessage) → supported m ≡ true → serialize m ≡ ok (message_buffers m)
unfolding serialize message_buffers
serialize-ok m s = rw s
