-- ===== src/StreamCopy/Conservation.antt =====
-- The bytes that are copied: none is lost, doubled or moved before another.
use internet.Prelude.{
  ℕ, ◌≤◌, ◌<◌, ◌≡◌, sym, ap, subst, ◌∙◌, ◌≢◌, ◌⊎◌, inl, inr, ◌++◌, append_assoc, arith, if_elim,
  length, take, take-append-drop, Bytes, ok, Holds, Holds-bind, Holds-map, Holds-ok, Holds-any,
}
use mathlib.Core.Path.{ap₂}
use internet.ByteStream
use internet.ByteStream.{ByteStream, available_capacity, is_finished, close}
use internet.ByteStream.Invariant.{IsValid, close-IsValid, set_error-IsValid}
use internet.FileDescriptor
use internet.FileDescriptor.{FdWrapper, Returned, Input, bytes_of}
use internet.EventLoop.{Store}
use internet.StreamCopy.{
  StreamCopy, input_fd, output_fd, socket_fd, fill, drain, with_file, read_stdin, read_socket,
  write_socket, write_stdout, finish_outbound, finish_inbound, close_outbound, close_inbound,
  set_errors,
}
use internet.Socket.{shutdown, shut_wr}
use internet.StreamCopy.Transfers.{count, fill-Holds, drain-Holds}

-- What the system has given from each descriptor and received on it so far, by the key, and how its
-- calls change that.
pub record Lawful {E : Type 0} (sys_read : ℕ → ℕ → E → Input × E)
    (sys_write : ℕ → Bytes → E → Returned × E) (sys_shutdown sys_close : E → Returned × E)
    (given received : ℕ → E → Bytes) : Type 0 where
  pub read_bound : (fd n : ℕ) (e : E) → length (bytes_of (sys_read fd n e).0) ≤ n
  pub read_given :
      (fd n : ℕ) (e : E) → given fd (sys_read fd n e).1 ≡ given fd e ++ bytes_of (sys_read fd n e).0
  pub read_others :
      (fd other n : ℕ) (e : E) → fd ≢ other → given other (sys_read fd n e).1 ≡ given other e
  pub read_received :
      (fd other n : ℕ) (e : E) → received other (sys_read fd n e).1 ≡ received other e
  pub write_received :
      (fd : ℕ) (b : Bytes) (e : E)
      → received fd (sys_write fd b e).1 ≡ received fd e ++ take (count (sys_write fd b e).0) b
  pub write_others :
      (fd other : ℕ) (b : Bytes) (e : E)
      → fd ≢ other
      → received other (sys_write fd b e).1 ≡ received other e
  pub write_given :
      (fd other : ℕ) (b : Bytes) (e : E) → given other (sys_write fd b e).1 ≡ given other e
  pub shutdown_given : (fd : ℕ) (e : E) → given fd (sys_shutdown e).1 ≡ given fd e
  pub shutdown_received : (fd : ℕ) (e : E) → received fd (sys_shutdown e).1 ≡ received fd e
  pub close_given : (fd : ℕ) (e : E) → given fd (sys_close e).1 ≡ given fd e
  pub close_received : (fd : ℕ) (e : E) → received fd (sys_close e).1 ≡ received fd e

module _ {E : Type 0} (sys_read : ℕ → ℕ → E → Input × E) (sys_write : ℕ → Bytes → E → Returned × E)
    (sys_shutdown sys_close : E → Returned × E) where
  -- One callback, cancellation or error of the rules. A callback that reads runs where its stream
  -- has room, as its interest asks.
  pub data Step (s : Store (StreamCopy E)) : Store (StreamCopy E) → Type 0 where
    stdin_read :
        {s' : Store (StreamCopy E)}
        → 0 < available_capacity s.world.outbound
        → read_stdin sys_read sys_write sys_shutdown sys_close s ≡ ok s'
        → Step s s'
    socket_read :
        {s' : Store (StreamCopy E)}
        → 0 < available_capacity s.world.inbound
        → read_socket sys_read sys_write sys_shutdown sys_close s ≡ ok s'
        → Step s s'
    socket_written :
        {s' : Store (StreamCopy E)}
        → write_socket sys_read sys_write sys_shutdown sys_close s ≡ ok s'
        → Step s s'
    stdout_written :
        {s' : Store (StreamCopy E)}
        → write_stdout sys_read sys_write sys_shutdown sys_close s ≡ ok s'
        → Step s s'
    outbound_closed : {s' : Store (StreamCopy E)} → close_outbound s ≡ ok s' → Step s s'
    inbound_closed : {s' : Store (StreamCopy E)} → close_inbound s ≡ ok s' → Step s s'
    errors_set : {s' : Store (StreamCopy E)} → set_errors s ≡ ok s' → Step s s'

  pub data Steps (s : Store (StreamCopy E)) : Store (StreamCopy E) → Type 0 where
    no_step : Steps s s
    then_step : {s' s'' : Store (StreamCopy E)} → Steps s s' → Step s' s'' → Steps s s''

  module _ (given received : ℕ → E → Bytes)
      (lawful : Lawful sys_read sys_write sys_shutdown sys_close given received) where
    -- What one end has received and what is in the stream are together what the other end has given.
    abbrev pub Carried : ℕ → ℕ → ByteStream → E → Type 0
    Carried from to stream e = IsValid stream × (received to e ++ stream.buffer ≡ given from e)

    -- In both directions.
    abbrev pub IsConserved : Store (StreamCopy E) → Type 0
    IsConserved s =
        Carried input_fd socket_fd s.world.outbound s.world.system
        × Carried socket_fd output_fd s.world.inbound s.world.system

    Filled : ℕ → ℕ → ByteStream → E → ByteStream × FdWrapper × E → Type 0
    Filled from to s e (s', _, e') =
        Carried from to s' e' × (e' ≡ (sys_read from (available_capacity s) e).1)

    Drained : ℕ → ℕ → ByteStream → E → ByteStream × FdWrapper × E → Type 0
    Drained from to s e (s', _, e') =
        Carried from to s' e' × ((e' ≡ e) ⊎ (e' ≡ (sys_write to s.buffer e).1))

    fill-Carried :
        (from to : ℕ) (w : FdWrapper) (e : E) (s : ByteStream)
        → 0 < available_capacity s
        → Carried from to s e
        → Holds (Filled from to s e) (fill (sys_read from) w e s)
    unfolding Filled
    fill-Carried from to w e s room (v, kept) =
        let size = available_capacity s in
        let (answer, after) = sys_read from size e in
        let Q : ByteStream × FdWrapper × E → Type 0 = Filled from to s e in
        Holds-map _ Q (fill (sys_read from) w e s)
          (fill-Holds (sys_read from) w e s v room (lawful.read_bound from size e))
          λ (s', w', e') (buffer, v', same). (
            (
              v',
              subst (λ x. received to x ++ s'.buffer ≡ given from x) (sym same)
                  (ap₂ (λ r b. r ++ b) (lawful.read_received from to size e) buffer
                    ∙ sym (append_assoc (received to e) s.buffer (bytes_of answer))
                    ∙ ap (λ x. x ++ bytes_of answer) kept
                    ∙ sym (lawful.read_given from size e)),
            ),
            same,
          )

    drain-Carried :
        (from to : ℕ) (w : FdWrapper) (e : E) (s : ByteStream)
        → Carried from to s e
        → Holds (Drained from to s e) (drain (sys_write to) w e s)
    unfolding Drained
    drain-Carried from to w e s (v, kept) =
        Holds-map _ (Drained from to s e) (drain (sys_write to) w e s)
          (drain-Holds (sys_write to) w e s v)
          λ (s', w', e') (v', how). elim how [
            | inl (same, stays) ↦ (
              (
                v',
                ap₂ (λ x t. received to x ++ t.buffer) stays same
                    ∙ kept
                    ∙ ap (given from) (sym stays),
              ),
              inl stays,
            )
            | inr (buffer, after) ↦ (
              (
                v',
                subst (λ x. received to x ++ s'.buffer ≡ given from x) (sym after)
                    (ap₂ (λ r b. r ++ b) (lawful.write_received to s.buffer e) buffer
                      ∙ append_assoc (received to e)
                          (take (count (sys_write to s.buffer e).0) s.buffer) _
                      ∙ ap (λ x. received to e ++ x)
                          (take-append-drop (count (sys_write to s.buffer e).0) s.buffer)
                      ∙ kept
                      ∙ sym (lawful.write_given to from s.buffer e)),
              ),
              inr after,
            )
          ]

    -- The other direction, where neither of its two ends is touched.
    untouched :
        (from to : ℕ) (s : ByteStream) (e e' : E)
        → received to e' ≡ received to e
        → given from e' ≡ given from e
        → Carried from to s e
        → Carried from to s e'
    untouched from to s e e' r g (v, kept) = (v, ap (λ x. x ++ s.buffer) r ∙ kept ∙ sym g)

    untouched-filled :
        (from to from' to' : ℕ) (s s' : ByteStream) (e e' : E)
        → from ≢ from'
        → e' ≡ (sys_read from (available_capacity s) e).1
        → Carried from' to' s' e
        → Carried from' to' s' e'
    untouched-filled from to from' to' s s' e e' other same h =
        subst (Carried from' to' s') (sym same) (
          untouched from' to' s' e _ (lawful.read_received from to' (available_capacity s) e)
            (lawful.read_others from from' (available_capacity s) e other) h)

    untouched-drained :
        (to from' to' : ℕ) (s s' : ByteStream) (e e' : E)
        → to ≢ to'
        → (e' ≡ e) ⊎ (e' ≡ (sys_write to s.buffer e).1)
        → Carried from' to' s' e
        → Carried from' to' s' e'
    untouched-drained to from' to' s s' e e' other (inl same) h =
        subst (Carried from' to' s') (sym same) h
    untouched-drained to from' to' s s' e e' other (inr same) h =
        subst (Carried from' to' s') (sym same) (
          untouched from' to' s' e _ (lawful.write_others to to' s.buffer e other)
            (lawful.write_given to from' s.buffer e) h)

    read_stdin_lem :
        (s : Store (StreamCopy E))
        → 0 < available_capacity s.world.outbound
        → IsConserved s
        → Holds IsConserved (read_stdin sys_read sys_write sys_shutdown sys_close s)
    unfolding read_stdin with_file Filled
    read_stdin_lem s room (out, into) =
        let stream = s.world.outbound in
        let e = s.world.system in
        Holds-bind (Filled input_fd socket_fd stream e) IsConserved
          (fill (sys_read input_fd) (s.files input_fd) e stream) _
          (fill-Carried input_fd socket_fd (s.files input_fd) e stream room out)
          λ (stream', w, e') (out', same). (
            out',
            untouched-filled input_fd socket_fd socket_fd output_fd stream s.world.inbound e e'
                (omega arith) same into,
          )

    read_socket_lem :
        (s : Store (StreamCopy E))
        → 0 < available_capacity s.world.inbound
        → IsConserved s
        → Holds IsConserved (read_socket sys_read sys_write sys_shutdown sys_close s)
    unfolding read_socket with_file Filled
    read_socket_lem s room (out, into) =
        let stream = s.world.inbound in
        let e = s.world.system in
        Holds-bind (Filled socket_fd output_fd stream e) IsConserved
          (fill (sys_read socket_fd) (s.files socket_fd) e stream) _
          (fill-Carried socket_fd output_fd (s.files socket_fd) e stream room into)
          λ (stream', w, e') (into', same). (
            untouched-filled socket_fd output_fd input_fd socket_fd stream s.world.outbound e e'
                (omega arith) same out,
            into',
          )

    finish_outbound_lem :
        (s : Store (StreamCopy E))
        → IsConserved s
        → Holds IsConserved (finish_outbound sys_read sys_write sys_shutdown sys_close s)
    unfolding finish_outbound with_file
    finish_outbound_lem s (out, into) =
        let e = s.world.system in
        let (result, e') = sys_shutdown e in
        let done = shutdown shut_wr result (s.files socket_fd) in
        if_elim (Holds IsConserved) (is_finished s.world.outbound) _ _
          (λ _.
            Holds-bind (λ _. Unit {0}) IsConserved done _ (Holds-any done)
              λ w _. (
                untouched input_fd socket_fd s.world.outbound e e'
                    (lawful.shutdown_received socket_fd e) (lawful.shutdown_given input_fd e) out,
                untouched socket_fd output_fd s.world.inbound e e'
                    (lawful.shutdown_received output_fd e) (lawful.shutdown_given socket_fd e) into,
              ))
          λ _. (out, into)

    finish_inbound_lem :
        (s : Store (StreamCopy E))
        → IsConserved s
        → Holds IsConserved (finish_inbound sys_read sys_write sys_shutdown sys_close s)
    unfolding finish_inbound with_file
    finish_inbound_lem s (out, into) =
        let e = s.world.system in
        let (result, e') = sys_close e in
        let done = FileDescriptor.close result (s.files output_fd) in
        if_elim (Holds IsConserved) (is_finished s.world.inbound) _ _
          (λ _.
            Holds-bind (λ _. Unit {0}) IsConserved done _ (Holds-any done)
              λ w _. (
                untouched input_fd socket_fd s.world.outbound e e'
                    (lawful.close_received socket_fd e) (lawful.close_given input_fd e) out,
                untouched socket_fd output_fd s.world.inbound e e'
                    (lawful.close_received output_fd e) (lawful.close_given socket_fd e) into,
              ))
          λ _. (out, into)

    write_socket_lem :
        (s : Store (StreamCopy E))
        → IsConserved s
        → Holds IsConserved (write_socket sys_read sys_write sys_shutdown sys_close s)
    unfolding write_socket with_file Drained
    write_socket_lem s (out, into) =
        let stream = s.world.outbound in
        let e = s.world.system in
        Holds-bind (Drained input_fd socket_fd stream e) IsConserved
          (drain (sys_write socket_fd) (s.files socket_fd) e stream) _
          (drain-Carried input_fd socket_fd (s.files socket_fd) e stream out)
          λ (stream', w, e') (out', how).
            finish_outbound_lem
              (with_file socket_fd w
                (record s { world = record (s.world) { outbound = stream'; system = e' } }))
              (
                out',
                untouched-drained socket_fd socket_fd output_fd stream s.world.inbound e e'
                    (omega arith) how into,
              )

    write_stdout_lem :
        (s : Store (StreamCopy E))
        → IsConserved s
        → Holds IsConserved (write_stdout sys_read sys_write sys_shutdown sys_close s)
    unfolding write_stdout with_file Drained
    write_stdout_lem s (out, into) =
        let stream = s.world.inbound in
        let e = s.world.system in
        Holds-bind (Drained socket_fd output_fd stream e) IsConserved
          (drain (sys_write output_fd) (s.files output_fd) e stream) _
          (drain-Carried socket_fd output_fd (s.files output_fd) e stream into)
          λ (stream', w, e') (into', how).
            finish_inbound_lem
              (with_file output_fd w
                (record s { world = record (s.world) { inbound = stream'; system = e' } }))
              (
                untouched-drained output_fd input_fd socket_fd stream s.world.outbound e e'
                    (omega arith) how out,
                into',
              )

    closed-IsConserved :
        (s : Store (StreamCopy E))
        → IsConserved s
        → Holds IsConserved (close_outbound s)
          × Holds IsConserved (close_inbound s)
          × Holds IsConserved (set_errors s)
    unfolding close_outbound close_inbound set_errors close ByteStream.set_error
    closed-IsConserved s ((v, kept), (v', kept')) = (
      ((close-IsValid v, kept), (v', kept')),
      ((v, kept), (close-IsValid v', kept')),
      ((set_error-IsValid v, kept), (set_error-IsValid v', kept')),
    )

    step-IsConserved : (s s' : Store (StreamCopy E)) → Step s s' → IsConserved s → IsConserved s'
    step-IsConserved s s' (stdin_read room e) h = Holds-ok _ _ s' (read_stdin_lem s room h) e
    step-IsConserved s s' (socket_read room e) h = Holds-ok _ _ s' (read_socket_lem s room h) e
    step-IsConserved s s' (socket_written e) h = Holds-ok _ _ s' (write_socket_lem s h) e
    step-IsConserved s s' (stdout_written e) h = Holds-ok _ _ s' (write_stdout_lem s h) e
    step-IsConserved s s' (outbound_closed e) h = Holds-ok _ _ s' (closed-IsConserved s h).0 e
    step-IsConserved s s' (inbound_closed e) h = Holds-ok _ _ s' (closed-IsConserved s h).1 e
    step-IsConserved s s' (errors_set e) h = Holds-ok _ _ s' (closed-IsConserved s h).2 e

    -- Whatever the order in which callbacks, cancellations and errors of the rules run, and however
    -- much the system takes or gives at each call, in each direction what one end has received and
    -- what waits in the stream are together, in order, what the other end has given, where that
    -- holds at first. A read gives no more than it is asked for, and a callback that reads runs
    -- where its stream has room.
    pub Steps-IsConserved :
        (s s' : Store (StreamCopy E)) → Steps s s' → IsConserved s → IsConserved s'
    Steps-IsConserved s s' no_step h = h
    Steps-IsConserved s s' (then_step {s' = t} before last) h =
        step-IsConserved t s' last (Steps-IsConserved s t before h)
