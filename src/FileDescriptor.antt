-- ===== src/FileDescriptor.antt =====
-- util/file_descriptor.hh and util/file_descriptor.cc: what a `FileDescriptor` keeps of a
-- descriptor of the system, and its reads and writes. What the system calls return is a parameter.
-- Copies of a `FileDescriptor` share one wrapper, so a wrapper is passed on from each operation to
-- the next.
pub mod Transfers
pub mod Datagrams
use internet.Prelude.{
  ℕ, zero, suc, Bool, true, false, ◌&&◌, not, Option, none, some, List, [], ◌∷◌, map, ltb, leb,
  ◌==◌, if◌then◌else◌, length, take, drop, Bytes, add64, add32, Exec, ok, fault, runtime_error,
  out_of_fuel, ◌>>=◌,
}

-- `FDWrapper`.
pub record FdWrapper : Type 0 where
  pub fd : ℕ
  pub eof : Bool
  pub closed : Bool
  pub non_blocking : Bool
  pub read_count : ℕ
  pub write_count : ℕ

-- What a system call returns: a count, or -1 with one of the three codes that mean "later", or -1
-- with another.
pub data Returned : Type 0 where
  returned : ℕ → Returned
  again failed : Returned

-- `CheckSystemCall` of util/exception.hh.
unfoldable pub check_system_call : Returned → Exec ℕ
check_system_call (returned n) = ok n
check_system_call again = fault runtime_error
check_system_call failed = fault runtime_error

unfoldable pub check_fd_system_call : Returned → FdWrapper → Exec ℕ
check_fd_system_call (returned n) w = ok n
check_fd_system_call again w = if w.non_blocking then ok 0 else fault runtime_error
check_fd_system_call failed w = fault runtime_error

unfoldable pub check_read : Returned → FdWrapper → Exec (ℕ × FdWrapper)
unfolding check_fd_system_call
check_read (returned n) w = ok (n, if n == 0 then record w { eof = true } else w)
check_read again w = check_fd_system_call again w >>= λ n. ok (n, w)
check_read failed w = check_fd_system_call failed w >>= λ n. ok (n, w)

-- The constructor, for what `fcntl` returns and the flag O_NONBLOCK in it; `none` is a negative
-- number.
unfoldable pub open_wrapper : Option ℕ → Returned → (ℕ → Bool) → Exec FdWrapper
unfolding check_system_call
open_wrapper none flags nonblock = fault runtime_error
open_wrapper (some fd) flags nonblock = check_system_call flags >>= λ f. ok (record {
  fd = fd;
  eof = false;
  closed = false;
  non_blocking = nonblock f;
  read_count = 0;
  write_count = 0;
})

unfoldable pub close : Returned → FdWrapper → Exec FdWrapper
unfolding check_system_call
close result w = check_system_call result >>= λ _. ok (record w { eof = true; closed = true })

-- The destructor closes what is not closed, and throws nothing.
unfoldable pub destruct : Returned → FdWrapper → FdWrapper
unfolding close
destruct result w = if w.closed then w else elim (close result w) [ ok w' ↦ w' | fault e ↦ w ]

unfoldable pub register_read : FdWrapper → FdWrapper
register_read w = record w { read_count = add32 w.read_count 1 }

unfoldable pub register_write : FdWrapper → FdWrapper
register_write w = record w { write_count = add32 w.write_count 1 }

unfoldable pub set_eof : FdWrapper → FdWrapper
set_eof w = record w { eof = true }

abbrev pub read_buffer_size : ℕ
read_buffer_size = 16384

-- An empty buffer is made larger.
unfoldable pub buffer_size : ℕ → ℕ
buffer_size n = if n == 0 then read_buffer_size else n

-- What `read` and `readv` do: the bytes that they put into the buffers, or a code.
pub data Input : Type 0 where
  input : Bytes → Input
  input_again input_failed : Input

unfoldable pub count_of : Input → Returned
count_of (input bs) = returned (length bs)
count_of input_again = again
count_of input_failed = failed

unfoldable pub bytes_of : Input → Bytes
bytes_of (input bs) = bs
bytes_of input_again = []
bytes_of input_failed = []

-- `read` into one buffer of `size` bytes.
unfoldable pub read : ℕ → (ℕ → Input) → FdWrapper → Exec (Bytes × FdWrapper)
unfolding buffer_size count_of bytes_of check_read register_read
read size sys_read w =
    let answer = sys_read (buffer_size size) in
    check_read (count_of answer) w >>= λ (n, w').
    let w'' = register_read w' in
    if ltb (buffer_size size) n then fault runtime_error else ok (bytes_of answer, w'')

-- The last of the buffers is made larger if it is empty.
unfoldable pub enlarge_last : List ℕ → List ℕ
unfolding buffer_size
enlarge_last [] = []
enlarge_last (n ∷ []) = buffer_size n ∷ []
enlarge_last (n ∷ m ∷ ns) = n ∷ enlarge_last (m ∷ ns)

unfoldable pub sizes_from : List ℕ → ℕ → Exec ℕ
sizes_from [] total = ok total
sizes_from (n ∷ ns) total =
    let rest = sizes_from ns (add64 total n) in if n == 0 then fault runtime_error else rest

-- `to_iovecs`: the sizes of the buffers, none of them 0, and their sum.
unfoldable pub to_iovecs : List ℕ → Exec ℕ
unfolding sizes_from
to_iovecs [] = fault runtime_error
to_iovecs (n ∷ ns) =
    sizes_from (n ∷ ns) 0 >>= λ total. if total == 0 then fault runtime_error else ok total

-- The loop that makes the buffers as large as what was read into each: the system fills one after
-- the other.
unfoldable pub resize_buffers : List ℕ → Bytes → List Bytes
resize_buffers [] bs = []
resize_buffers (n ∷ ns) bs =
    if leb n (length bs)
    then take n bs ∷ resize_buffers ns (drop n bs)
    else bs ∷ resize_buffers ns []

-- `read` into several buffers of the given sizes.
unfoldable pub read_buffers : List ℕ → (List ℕ → Input) → FdWrapper → Exec (List Bytes × FdWrapper)
unfolding enlarge_last to_iovecs check_read register_read count_of bytes_of resize_buffers
read_buffers [] sys_readv w = fault runtime_error
read_buffers (n ∷ ns) sys_readv w = do
  let sizes = enlarge_last (n ∷ ns)
  total ← to_iovecs sizes
  let answer = sys_readv sizes
  (count, w') ← check_read (count_of answer) w
  if ltb total count
      then fault runtime_error
      else ok (resize_buffers sizes (bytes_of answer), register_read w')

-- The checks of both kinds of `write`, for `size` bytes.
unfoldable pub check_written : ℕ → Returned → FdWrapper → Exec (ℕ × FdWrapper)
unfolding check_fd_system_call register_write
check_written size result w = check_fd_system_call result w >>= λ n.
    if (n == 0) && not (size == 0)
    then fault runtime_error
    else (if ltb size n then fault runtime_error else ok (n, register_write w))

-- The loop of `write_all` over a system of states `K`. Each turn writes at least one byte, so
-- there are no more turns than bytes.
module _ {K : Type 0} (sys_write : Bytes → K → Returned × K) where
  unfoldable pub write : Bytes → FdWrapper → K → Exec (ℕ × FdWrapper × K)
  unfolding check_written
  write buffer w k =
      let (result, k') = sys_write buffer k in
      check_written (length buffer) result w >>= λ (n, w'). ok (n, w', k')

  unfoldable pub write_loop : ℕ → Bytes → FdWrapper → K → Exec (FdWrapper × K)
  unfolding write
  write_loop fuel [] w k = ok (w, k)
  write_loop zero (b ∷ bs) w k = fault out_of_fuel
  write_loop (suc fuel) (b ∷ bs) w k =
      write (b ∷ bs) w k >>= λ (n, w', k'). write_loop fuel (drop n (b ∷ bs)) w' k'

  unfoldable pub write_all : Bytes → FdWrapper → K → Exec (FdWrapper × K)
  unfolding write_loop
  write_all buffer w k =
      if w.non_blocking then fault runtime_error else write_loop (length buffer) buffer w k

-- `write` from several buffers, none of them empty.
module _ {K : Type 0} (sys_writev : List Bytes → K → Returned × K) where
  unfoldable pub write_buffers : List Bytes → FdWrapper → K → Exec (ℕ × FdWrapper × K)
  unfolding to_iovecs check_written
  write_buffers buffers w k = to_iovecs (map length buffers) >>= λ total.
      let (result, k') = sys_writev buffers k in
      check_written total result w >>= λ (n, w'). ok (n, w', k')

-- `set_blocking`, for what the two calls of `fcntl` return.
unfoldable pub set_blocking : Bool → Returned → Returned → FdWrapper → Exec FdWrapper
unfolding check_system_call
set_blocking blocking flags result w = check_system_call flags >>= λ _.
    check_system_call result >>= λ _. ok (record w { non_blocking = not blocking })
