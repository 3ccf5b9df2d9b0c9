-- ===== src/Tests/Programs.antt =====
-- The theorems on the programs and on histories of an interface, at concrete inputs.
use internet.Prelude.{
  ℕ, ◌≡◌, refl, sym, ap, ◌∙◌, ◌≢◌, true, false, none, List, [], ◌∷◌, ◌++◌, arith, ◌==◌,
  if◌then◌else◌, ==_iff, length, take, All, length-take, Bytes, ok, ◌>>=◌,
}
use internet.ByteStream
use internet.ByteStream.{ByteStream, available_capacity}
use internet.ByteStream.Invariant.{init-IsValid}
use internet.EventLoop.{Store}
use internet.FileDescriptor
use internet.FileDescriptor.{
  FdWrapper, Input, Returned, returned, input, register_read, register_write,
}
use internet.FunRouter.{
  Setup, split_config, split_from, same_string, index_of, random_router_ethernet_address,
  new_interface, next_hop_of, new_route, interface_fields, route_fields, apply_fields, apply_each,
  apply_configs,
}
use internet.FunRouter.Configuration.{
  join, HasNoColon, join-split_config, IsConfigured, apply_configs-IsConfigured,
}
use internet.Map.{lookup, contains}
use internet.NetworkInterface
use internet.NetworkInterface.{NetworkInterface, enqueue, log_request, tick}
use internet.NetworkInterface.Sending.{send_fresh}
use internet.NetworkInterface.Waiting.{IsCoherent}
use internet.NetworkInterface.Histories.{sends, ticks, step, run, run-IsCoherent}
use internet.Router.{add_interface, add_route}
use internet.StreamCopy.{
  StreamCopy, input_fd, socket_fd, with_file, fill, drain, read_stdin, write_socket,
  finish_outbound,
}
use internet.StreamCopy.Conservation.{
  Lawful, Steps, stdin_read, socket_written, no_step, then_step, IsConserved, Steps-IsConserved,
}
use internet.Wire.Ethernet.{EthernetAddress}
use internet.Wire.Ipv4.{Ipv4Datagram, default_header}

-- "a:b::c".
join-split_config_example :
    (join (split_config (97 ∷ 58 ∷ 98 ∷ 58 ∷ 58 ∷ 99 ∷ [])) ≡ 97 ∷ 58 ∷ 98 ∷ 58 ∷ 58 ∷ 99 ∷ [])
    × All HasNoColon (split_config (97 ∷ 58 ∷ 98 ∷ 58 ∷ 58 ∷ 99 ∷ []))
join-split_config_example = join-split_config (97 ∷ 58 ∷ 98 ∷ 58 ∷ 58 ∷ 99 ∷ [])

abbrev host_socket : FdWrapper
host_socket = record {
  fd = 3;
  eof = false;
  closed = false;
  non_blocking = true;
  read_count = 0;
  write_count = 0;
}

-- "interface:a:b:c:d:e" and "route:b:f:a".
abbrev configs : List Bytes
configs =
    (105 ∷ 110 ∷ 116 ∷ 101 ∷ 114 ∷ 102 ∷ 97 ∷ 99 ∷ 101 ∷ 58 ∷ 97 ∷ 58 ∷ 98 ∷ 58 ∷ 99 ∷ 58 ∷ 100 ∷ 58
      ∷ 101 ∷ [])
    ∷ (114 ∷ 111 ∷ 117 ∷ 116 ∷ 101 ∷ 58 ∷ 98 ∷ 58 ∷ 102 ∷ 58 ∷ 97 ∷ [])
    ∷ []

abbrev random_bytes : ℕ → EthernetAddress
random_bytes _ = 9 ∷ 9 ∷ 9 ∷ 9 ∷ 9 ∷ 9 ∷ []

abbrev configured : Setup ℕ
configured = record {
  router = record {
    interfaces = NetworkInterface.init (2 ∷ 0 ∷ 0 ∷ 9 ∷ 9 ∷ 9 ∷ []) 1 ∷ [];
    routes =
        record { route_prefix = 1; prefix_length = 24; next_hop = none; interface_num = 0 } ∷ [];
  };
  ports = record { socket = host_socket; physical_dest = 5 } ∷ [];
  interfaces = 0 ∷ [];
  iface_name_to_idx = (97 ∷ [], 0) ∷ [];
}

apply_configs_example : IsConfigured configured
unfolding apply_configs apply_each apply_fields split_config split_from same_string interface_fields
    route_fields new_interface new_route index_of next_hop_of random_router_ethernet_address
    add_interface add_route
apply_configs_example =
    apply_configs-IsConfigured (λ _. ok 1) (λ _. ok 24) (λ _ _. ok 5) (λ _. ok host_socket)
      random_bytes configs configured refl

abbrev some_datagram : Ipv4Datagram
some_datagram = record { header = default_header; payload = [] }

abbrev gateway : NetworkInterface
gateway = NetworkInterface.init (2 ∷ 0 ∷ 0 ∷ 0 ∷ 0 ∷ 7 ∷ []) 1

gateway-IsCoherent : IsCoherent gateway
unfolding NetworkInterface.init lookup
gateway-IsCoherent ip w = absurd (w refl)

history :
    run (sends some_datagram 2 ∷ ticks 6000 ∷ []) gateway
    ≡ ok (tick 6000 (enqueue 2 some_datagram (log_request 2 gateway)))
unfolding run step NetworkInterface.init lookup contains
history =
    ap (λ o. (o >>= λ (_, n). ok n) >>= λ n. run (ticks 6000 ∷ []) n)
      (send_fresh some_datagram 2 gateway refl refl)

run-IsCoherent_example : IsCoherent (tick 6000 (enqueue 2 some_datagram (log_request 2 gateway)))
run-IsCoherent_example =
    run-IsCoherent (sends some_datagram 2 ∷ ticks 6000 ∷ []) gateway
      (tick 6000 (enqueue 2 some_datagram (log_request 2 gateway))) history gateway-IsCoherent

-- A system that gives the byte 7 at each read and takes one byte at each write, with all that it
-- has given and received.
record Wires : Type 0 where
  given : ℕ → Bytes
  received : ℕ → Bytes

abbrev extended : ℕ → Bytes → (ℕ → Bytes) → ℕ → Bytes
extended fd bs f k = if fd == k then f k ++ bs else f k

abbrev seven : ℕ → ℕ → Wires → Input × Wires
seven fd n e = (input (take n (7 ∷ [])), record e { given = extended fd (take n (7 ∷ [])) e.given })

abbrev one_taken : ℕ → Bytes → Wires → Returned × Wires
one_taken fd b e =
    (returned (length (take 1 b)), record e { received = extended fd (take 1 b) e.received })

abbrev agreed : Wires → Returned × Wires
agreed e = (returned 0, e)

extended_here : (fd : ℕ) (bs : Bytes) (f : ℕ → Bytes) → extended fd bs f fd ≡ f fd ++ bs
extended_here fd bs f = ap (λ b. if b then f fd ++ bs else f fd) ((==_iff fd fd).1 refl)

extended_there :
    (fd other : ℕ) (bs : Bytes) (f : ℕ → Bytes) → fd ≢ other → extended fd bs f other ≡ f other
extended_there fd other bs f ne =
    (let e : (fd == other) ≡ false = ground (arith, ne) in
      ap (λ b. if b then f other ++ bs else f other) e)

take_one : (b : Bytes) → take (length (take 1 b)) b ≡ take 1 b
take_one [] = refl
take_one (x ∷ b) = refl

wires-Lawful : Lawful seven one_taken agreed agreed (λ fd e. e.given fd) (λ fd e. e.received fd)
unfolding FileDescriptor.bytes_of
wires-Lawful = record {
  read_bound = λ fd n e. omega (arith, length-take {A = ℕ} n (7 ∷ []));
  read_given = λ fd n e. extended_here fd (take n (7 ∷ [])) e.given;
  read_others = λ fd other n e ne. extended_there fd other (take n (7 ∷ [])) e.given ne;
  read_received = λ fd other n e. refl;
  write_received = λ fd b e.
      extended_here fd (take 1 b) e.received ∙ ap (λ t. e.received fd ++ t) (sym (take_one b));
  write_others = λ fd other b e ne. extended_there fd other (take 1 b) e.received ne;
  write_given = λ fd other b e. refl;
  shutdown_given = λ fd e. refl;
  shutdown_received = λ fd e. refl;
  close_given = λ fd e. refl;
  close_received = λ fd e. refl;
}

abbrev wires : Wires
wires = record { given = λ _. []; received = λ _. [] }

abbrev fresh : Store (StreamCopy Wires)
fresh = record {
  world = record {
    outbound = ByteStream.init 4;
    inbound = ByteStream.init 4;
    outbound_shutdown = false;
    inbound_shutdown = false;
    system = wires;
  };
  files = λ _. host_socket;
  cancel_requested = λ _. false;
}

-- A byte has been read from the standard input.
abbrev one_read : Store (StreamCopy Wires)
one_read = with_file input_fd (register_read host_socket) (record fresh {
  world = record (fresh.world) {
    outbound = ByteStream.push (7 ∷ []) (ByteStream.init 4);
    system = (seven input_fd 4 wires).1;
  };
})

-- And written to the socket.
abbrev one_written : Store (StreamCopy Wires)
one_written = with_file socket_fd (register_write host_socket) (record one_read {
  world = record (one_read.world) {
    outbound = ByteStream.pop 1 (ByteStream.push (7 ∷ []) (ByteStream.init 4));
    system = (one_taken socket_fd (7 ∷ []) (seven input_fd 4 wires).1).1;
  };
})

fresh-IsConserved :
    IsConserved seven one_taken agreed agreed
      (λ fd e. e.given fd)
      (λ fd e. e.received fd)
      wires-Lawful
      fresh
unfolding ByteStream.init
fresh-IsConserved = ((init-IsValid 4 (omega arith), refl), (init-IsValid 4 (omega arith), refl))

read_then_written : Steps seven one_taken agreed agreed fresh one_written
unfolding read_stdin write_socket finish_outbound fill drain with_file ByteStream.init
    ByteStream.push ByteStream.pop available_capacity
read_then_written =
    then_step (then_step no_step (stdin_read {s' = one_read} (omega arith) refl))
      (socket_written {s' = one_written} refl)

Steps-IsConserved_example :
    IsConserved seven one_taken agreed agreed
      (λ fd e. e.given fd)
      (λ fd e. e.received fd)
      wires-Lawful
      one_written
Steps-IsConserved_example =
    Steps-IsConserved seven one_taken agreed agreed (λ fd e. e.given fd) (λ fd e. e.received fd)
      wires-Lawful fresh one_written read_then_written fresh-IsConserved
