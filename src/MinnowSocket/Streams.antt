-- ===== src/MinnowSocket/Streams.antt =====
-- The bytes between the owner of a socket and its streams.
use internet.Prelude.{
  ℕ, ◌-◌, ◌≤◌, ◌<◌, ◌≡◌, refl, sym, ap, subst, ◌∙◌, Bool, true, false, ◌++◌, append_assoc, arith,
  ◌==◌, if◌then◌else◌, if_elim, length, take, drop, take-append-drop, take_all, Bytes, Exec, ok,
  ◌>>=◌, Ensures,
}
use internet.ByteStream
use internet.ByteStream.{ByteStream, available_capacity, bytes_buffered, peek, pop, close}
use internet.ByteStream.Invariant
use internet.ByteStream.Fifo.{buffer-push}
use internet.FileDescriptor
use internet.FileDescriptor.{FdWrapper, Returned, Input, input}
use internet.FileDescriptor.Transfers.{Accepts, write_lem, read_lem, buffer_size_lem, after_read}
use internet.Tcp.Peer.{TcpPeer}
use internet.MinnowSocket.{outbound, inbound, with_outbound, fill_outbound, drain_inbound}

close_if : (b : Bool) (s : ByteStream) → (if b then close s else s).buffer ≡ s.buffer
unfolding close
close_if true s = refl
close_if false s = refl

room_lem :
    (s : ByteStream) (n : ℕ)
    → Invariant.IsValid s
    → n ≤ available_capacity s
    → n ≤ s.capacity - length s.buffer
unfolding available_capacity
room_lem s n v le = omega (arith, v.width, v.bounded)

-- When there is room, all that the owner's socket gives goes into the outbound stream, in order
-- and after what was there, if the system gives no more bytes than it is asked for.
fill_outbound_lem :
    {E : Type 0} (sys_read : ℕ → E → Input × E) (w : FdWrapper) (e e' : E) (p : TcpPeer)
    (bs : Bytes)
    → Invariant.IsValid (outbound p)
    → 0 < available_capacity (outbound p)
    → sys_read (available_capacity (outbound p)) e ≡ (input bs, e')
    → length bs ≤ available_capacity (outbound p)
    → Ensures
        (λ (p', _, e'', _). ((outbound p').buffer ≡ (outbound p).buffer ++ bs) × (e'' ≡ e'))
        (fill_outbound sys_read w e p)
unfolding fill_outbound
fill_outbound_lem {E} sys_read w e e' p bs v room answers fits =
    subst (λ (x : Input × E). Ensures Filled (go x.1 (FileDescriptor.read size (λ _. x.0) w)))
      (sym (ap (λ n. sys_read n e) (buffer_size_lem size room) ∙ answers))
      (subst (λ m. Ensures Filled (go e' m)) (sym (read_lem size bs w room fits))
        (close_if (after_read (length bs) w).eof (ByteStream.push bs (outbound p)) ∙ all_fit, refl))
  where
    size : ℕ
    size = available_capacity (outbound p)

    Filled : TcpPeer × FdWrapper × E × Bool → Type 0
    Filled (p', _, e'', _) = ((outbound p').buffer ≡ (outbound p).buffer ++ bs) × (e'' ≡ e')

    go : E → Exec (Bytes × FdWrapper) → Exec (TcpPeer × FdWrapper × E × Bool)
    go e m = m >>= λ (bytes, w').
        let stream = ByteStream.push bytes (outbound p) in
        ok (with_outbound (if w'.eof then close stream else stream) p, w', e, w'.eof)

    all_fit : (ByteStream.push bs (outbound p)).buffer ≡ (outbound p).buffer ++ bs
    all_fit =
        buffer-push bs (outbound p)
        ∙ ap (λ x. (outbound p).buffer ++ x)
            (take_all _ bs (room_lem (outbound p) (length bs) v fits))

-- What the owner's socket takes and what stays in the inbound stream are together what was there,
-- in order, and nothing is thrown, if the stream is valid and the system takes at least one byte
-- and at most what it is given.
pub drain_inbound_lem :
    {E : Type 0} (sys_write : Bytes → E → Returned × E) (received : E → Bytes)
    → Accepts sys_write received
    → (w : FdWrapper) (e : E) (p : TcpPeer) → Invariant.IsValid (inbound p)
    → Ensures
        (λ (p', _, e'). received e' ++ (inbound p').buffer ≡ received e ++ (inbound p).buffer)
        (drain_inbound sys_write w e p)
unfolding drain_inbound bytes_buffered peek pop
drain_inbound_lem sys_write received accepts w e p v =
    if_elim
      (Ensures
        (λ (p', _, e'). received e' ++ (inbound p').buffer ≡ received e ++ (inbound p).buffer))
      (bytes_buffered (inbound p) == 0) _ _ (λ _. refl)
      λ some_left.
        let pos : 0 < length (inbound p).buffer = ground (arith, some_left, v.counted) in
        rw (write_lem sys_write received accepts (inbound p).buffer w e pos) (
          ap (λ x. x ++ drop (accepts.taken (inbound p).buffer e) (inbound p).buffer)
            (accepts.grows (inbound p).buffer e pos)
          ∙ append_assoc (received e) (take (accepts.taken (inbound p).buffer e) (inbound p).buffer)
              _
          ∙ ap (λ x. received e ++ x)
              (take-append-drop (accepts.taken (inbound p).buffer e) (inbound p).buffer))
