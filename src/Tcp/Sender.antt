-- ===== src/Tcp/Sender.antt =====
-- src/tcp_sender.hh and src/tcp_sender.cc. What the callback `transmit` is given is a list of
-- messages, in the order of the calls.
pub mod Segment
pub mod Push
pub mod Removal
pub mod Receive
pub mod Timer
use internet.Prelude.{
  ℕ, zero, suc, ◌+◌, ◌*◌, ◌%◌, min, max, Bool, true, false, ◌&&◌, ◌||◌, none, some, List, [], ◌∷◌,
  ◌++◌, ltb, leb, ◌==◌, if◌then◌else◌, bit, length, u64_mod, add64, sub64, Exec, ok, fault,
  undefined, out_of_fuel, ◌>>=◌, ◌>>◌,
}
use internet.Wrap32.{Wrap32, wrap, unwrap}
use internet.ByteStream.{ByteStream, set_error, bytes_buffered, bytes_popped, is_finished, read}
use internet.Tcp.Messages.{max_payload_size, TcpSenderMessage, sequence_length, TcpReceiverMessage}

pub record TcpSender : Type 0 where
  pub input : ByteStream
  pub isn : Wrap32
  pub initial_rto_ms : ℕ
  pub outstanding : List TcpSenderMessage
  pub rto : ℕ
  pub timer_time : ℕ
  pub timer_on : Bool
  pub abs_seqno : ℕ
  pub abs_ackno : ℕ
  pub consecutive_retransmissions : ℕ
  pub window_size : ℕ
  pub fin_sent : Bool

-- The constructor leaves `abs_ackno_` with whatever was in memory: `indeterminate`.
unfoldable pub init : ByteStream → Wrap32 → ℕ → ℕ → TcpSender
init input isn initial_rto_ms indeterminate = record {
  input = input;
  isn = isn;
  initial_rto_ms = initial_rto_ms;
  outstanding = [];
  rto = initial_rto_ms;
  timer_time = 0;
  timer_on = false;
  abs_seqno = 0;
  abs_ackno = indeterminate;
  consecutive_retransmissions = 0;
  window_size = 1;
  fin_sent = false;
}

unfoldable pub total_length : ℕ → List TcpSenderMessage → ℕ
total_length total [] = total
total_length total (m ∷ rest) = total_length (add64 total (sequence_length m)) rest

unfoldable pub sequence_numbers_in_flight : TcpSender → ℕ
unfolding total_length
sequence_numbers_in_flight s = total_length 0 s.outstanding

-- The window left, where a window of 0 counts as 1 while nothing is in flight.
unfoldable pub remaining_window_size : TcpSender → ℕ
unfolding sequence_numbers_in_flight
remaining_window_size s =
    if (s.window_size == 0) && (sequence_numbers_in_flight s == 0)
    then 1
    else if ltb (sequence_numbers_in_flight s) s.window_size
    then sub64 s.window_size (sequence_numbers_in_flight s)
    else 0

-- One round of `push` up to the call of `transmit`: whether it is the last round, the message, and
-- the sender after reading the payload. `remaining` is the window left.
unfoldable pub make_segment : ℕ → TcpSender → Exec (Bool × TcpSenderMessage × TcpSender)
unfolding bytes_buffered is_finished
make_segment remaining s = do
  let syn = s.abs_seqno == 0
  let room = sub64 remaining (bit syn)
  let num_bytes_to_read = min (bytes_buffered s.input) room
  let is_last_msg = ltb num_bytes_to_read max_payload_size
  let len = if is_last_msg then num_bytes_to_read else max_payload_size
  (payload, input) ← read s.input len
  let fin = is_finished input && ltb 0 (max 0 (sub64 room len))
  ok (
    is_last_msg,
    record {
      seqno = wrap s.abs_seqno s.isn;
      syn = syn;
      payload = payload;
      fin = fin;
      rst = s.input.has_error;
    },
    record s { input = input; fin_sent = fin || s.fin_sent },
  )

-- What follows `transmit( msg )` in the round.
unfoldable pub record_segment : TcpSenderMessage → TcpSender → TcpSender
record_segment msg s = record s {
  outstanding = s.outstanding ++ msg ∷ [];
  abs_seqno = add64 s.abs_seqno (sequence_length msg);
  timer_on = true;
  timer_time = if s.timer_on then s.timer_time else 0;
}

-- One round of `push` with some window left; `more` is the rest of the loop.
unfoldable pub push_round :
    (TcpSender → Exec (List TcpSenderMessage × TcpSender))
    → ℕ
    → TcpSender
    → Exec (List TcpSenderMessage × TcpSender)
unfolding make_segment record_segment
push_round more remaining s = do
  (is_last_msg, msg, s') ← make_segment remaining s
  let s'' = record_segment msg s'
  if sequence_length msg == 0
      then ok ([], s')
      else (if is_last_msg
          then ok (msg ∷ [], s'')
          else (more s'' >>= λ (later, t). ok (msg ∷ later, t)))

-- The loop, on fuel. Each round but the last takes 1000 bytes out of the input.
unfoldable pub push_loop : ℕ → TcpSender → Exec (List TcpSenderMessage × TcpSender)
unfolding remaining_window_size push_round
push_loop zero s = fault out_of_fuel
push_loop (suc fuel) s =
    if remaining_window_size s == 0
    then ok ([], s)
    else (if s.fin_sent
        then ok ([], s)
        else push_round (push_loop fuel) (remaining_window_size s) s)

unfoldable pub push : TcpSender → Exec (List TcpSenderMessage × TcpSender)
unfolding push_loop
push s = push_loop (suc (length s.input.buffer)) s

unfoldable pub make_empty_message : TcpSender → TcpSenderMessage
make_empty_message s = record {
  seqno = wrap s.abs_seqno s.isn;
  syn = false;
  payload = [];
  fin = false;
  rst = s.input.has_error;
}

-- The loop that takes acknowledged segments from the front of the queue.
unfoldable pub remove_acked : Wrap32 → ℕ → ℕ → List TcpSenderMessage → List TcpSenderMessage
unfolding total_length
remove_acked isn checkpoint msg_abs_ackno [] = []
remove_acked isn checkpoint msg_abs_ackno (m ∷ rest) =
    let start = unwrap m.seqno isn checkpoint in
    let popped = remove_acked isn checkpoint msg_abs_ackno rest in
    if ltb 0 (total_length 0 (m ∷ rest))
    then (if leb (add64 start (sequence_length m)) msg_abs_ackno then popped else m ∷ rest)
    else m ∷ rest

-- New data was acknowledged.
unfoldable pub acknowledge : ℕ → TcpSender → TcpSender
unfolding remove_acked bytes_popped
acknowledge msg_abs_ackno s = record s {
  rto = s.initial_rto_ms;
  timer_time = 0;
  abs_ackno = msg_abs_ackno;
  consecutive_retransmissions = 0;
  outstanding = remove_acked s.isn (bytes_popped s.input) msg_abs_ackno s.outstanding;
}

-- The timer stops when nothing is outstanding.
unfoldable pub stop_timer : TcpSender → TcpSender
unfolding sequence_numbers_in_flight
stop_timer s = if sequence_numbers_in_flight s == 0 then record s { timer_on = false } else s

unfoldable pub receive_ackno : ℕ → TcpSender → TcpSender
unfolding acknowledge stop_timer sequence_numbers_in_flight
receive_ackno msg_abs_ackno s =
    if ltb (add64 s.abs_ackno (sequence_numbers_in_flight s)) msg_abs_ackno
    then s
    else stop_timer (if ltb s.abs_ackno msg_abs_ackno then acknowledge msg_abs_ackno s else s)

-- The error flag and the window are taken from the message first.
unfoldable pub take_window : TcpReceiverMessage → TcpSender → TcpSender
unfolding set_error
take_window msg s = record s {
  input = if msg.rst then set_error s.input else s.input;
  window_size = msg.window_size;
}

-- `msg.ackno->unwrap` has no meaning when `ackno` is empty.
unfoldable pub receive : TcpReceiverMessage → TcpSender → Exec TcpSender
unfolding take_window receive_ackno bytes_popped
receive msg s = elim msg.ackno [
  | none ↦ fault undefined
  | some ackno ↦
      let s' = take_window msg s in
      ok (receive_ackno (unwrap ackno s'.isn (bytes_popped s'.input)) s')
]

-- `outstanding_.front()` has no meaning when the queue is empty.
unfoldable pub front : List TcpSenderMessage → Exec TcpSenderMessage
front [] = fault undefined
front (m ∷ rest) = ok m

-- The timer has run out.
unfoldable pub retransmit : TcpSender → Exec (List TcpSenderMessage × TcpSender)
unfolding front
retransmit s = do
  m ← front s.outstanding
  let backed_off = record s {
    consecutive_retransmissions = add64 s.consecutive_retransmissions 1;
    rto = (2 * s.rto) % u64_mod;
    timer_time = 0;
  }
  ok (m ∷ [], if ltb 0 s.window_size then backed_off else record s { timer_time = 0 })

unfoldable pub tick : ℕ → TcpSender → Exec (List TcpSenderMessage × TcpSender)
unfolding retransmit
tick ms_since_last_tick s =
    let time = add64 s.timer_time ms_since_last_tick in
    if s.timer_on
    then (if leb s.rto time then retransmit s else ok ([], record s { timer_time = time }))
    else ok ([], s)
