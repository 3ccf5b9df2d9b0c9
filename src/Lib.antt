-- ===== src/Lib.antt =====
-- A model of the network stack of this repository, from the byte stream to the router, and theorems on it.
--
-- The parts, from the application downwards, and the file that models each:
--
-- * ByteStream (src/byte_stream.hh, .cc, byte_stream_helpers.cc): a bounded queue of bytes between a
--   Writer and a Reader. A function per method; the stream is a record with the source's fields.
-- * Reassembler (src/reassembler.hh, .cc): puts indexed substrings together and pushes them into a
--   ByteStream. `insert` has the source's two sections, `store` and `assemble`.
-- * Wrap32 (src/wrapping_integers.hh, .cc): 32-bit sequence numbers, `wrap` and `unwrap`.
-- * Tcp.Messages (util/tcp_config.hh, util/tcp_sender_message.hh, util/tcp_receiver_message.hh).
-- * Tcp.Receiver (src/tcp_receiver.hh, .cc): gives the payload of segments to a Reassembler, and
--   acknowledges.
-- * Tcp.Sender (src/tcp_sender.hh, .cc): cuts a ByteStream into segments, keeps what is outstanding, and
--   retransmits. A callback `transmit` is modelled by the list of what it is given, in order.
-- * Tcp.Peer (util/tcp_peer.hh): a sender and a receiver on one connection.
-- * Wire.Parser, Wire.Serializer (util/parser.hh, .cc), Wire.Checksum (util/checksum.hh), Wire.Ethernet,
--   Wire.Arp, Wire.Ipv4, Wire.TcpSegment (the headers and messages of util/ of those names) and
--   Wire.TcpOverIp (util/tcp_over_ip.cc, util/fd_adapter.hh): the formats on the wire.
-- * Connection (no file of its own in the sources): one direction of a TCP connection, as a relation
--   between the states of a Tcp.Sender, a network that loses, repeats, delays and reorders segments, and
--   a Tcp.Receiver. A segment stays on the network once it is there, and each arrival takes one of them.
-- * NetworkInterface (src/network_interface.hh, .cc): sends datagrams in frames, and finds addresses out
--   by ARP.
-- * Router (src/router.hh, .cc): forwards datagrams between interfaces.
-- * FileDescriptor (util/file_descriptor.hh, .cc): what is kept of a descriptor, and its reads and
--   writes, over what the system calls return.
-- * EventLoop (util/eventloop.hh, .cc): rules with callbacks over a store that they share, and a round of
--   `wait_next_event` over what `poll` returns.
-- * LossyFdAdapter (util/lossy_fd_adapter.hh): an adapter that drops datagrams, over any adapter, which is
--   a record of operations.
-- * Socket (util/socket.hh, .cc): what the calls on sockets check, and the datagrams that are sent and
--   received, over what the system calls return.
-- * TunAdapter (util/tuntap_adapter.hh, .cc) and EthernetAdapter (apps/tcp_eth_udp.cc): the two adapters,
--   over a TUN device, and over a NetworkInterface whose frames go in UDP datagrams. Each fills the record
--   of operations that LossyFdAdapter and MinnowSocket take as a parameter. EthernetAdapter also has the
--   addresses that the socket class of that file sets before the operations it inherits.
-- * MinnowSocket (util/tcp_minnow_socket.hh, tcp_minnow_socket_impl.hh): the rules that connect a
--   Tcp.Peer, an adapter and a stream socket to its owner, and the loop that runs them.
-- * StreamCopy (apps/bidirectional_stream_copy.cc): the rules of the event loop that copy between a socket
--   and the standard streams.
-- * FunRouter (apps/fun_router.cc): the configuration of the router program, and what it does with each
--   datagram and after each event.
-- * Ref (util/ref.hh): references that own or borrow, over a store of objects. Elsewhere a `Ref` is the value
--   that is read from it.
-- * Prelude and Map are helpers: numbers of 16, 32 and 64 bits with their wrap-around written out,
--   lists, outcomes (`Exec`: a result, an exception, or an access that C++ gives no meaning), and the
--   association lists that stand for std::unordered_map.
--
-- A file below the file of a part holds theorems on it. Tests applies the theorems at concrete inputs.
--
-- Loops run on structural recursion or on fuel. `Reassembler.assemble` has one round per entry of the
-- table and one more, since each round but the last takes an entry out. `Tcp.Sender.push` has one round
-- per buffered byte and one more, since each round but the last takes 1000 bytes. `ByteStream.read` needs
-- two rounds, since `peek` shows all that is buffered. The loop of the checksum needs two rounds for a
-- sum of 32 bits. `FileDescriptor.write_all` has a round per byte, since each writes one at least. The
-- loop over a rule of the event loop has the source's bound of 128. `MinnowSocket.tcp_loop` runs over a
-- list of rounds, what the system answers in each, as it has no end of its own, and so does
-- `StreamCopy.copy_loop`.
--
-- Not modelled: the system calls themselves and their arguments, what only passes arguments to them
-- (names and options of sockets, how a device is opened), callbacks that add rules to the event loop that
-- runs them, the thread of the stream socket and its owner's side, name resolution (util/address.cc), the
-- random engine's seed, diagnostic text, and the command lines under apps/.
pub mod Prelude
pub mod Map
pub mod ByteStream
pub mod Reassembler
pub mod Wrap32
pub mod Tcp
pub mod Wire
pub mod Connection
pub mod NetworkInterface
pub mod Router
pub mod FileDescriptor
pub mod Socket
pub mod EventLoop
pub mod LossyFdAdapter
pub mod TunAdapter
pub mod EthernetAdapter
pub mod MinnowSocket
pub mod StreamCopy
pub mod FunRouter
pub mod Ref
pub mod Tests
