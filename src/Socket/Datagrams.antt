-- ===== src/Socket/Datagrams.antt =====
-- What datagram sockets send and receive.
use internet.Prelude.{
  ℕ, suc, ◌+◌, ◌≤◌, ◌<◌, ◌≡◌, refl, Bool, true, false, Option, some, List, ◌∷◌, arith, ltb, ◌==◌,
  ==_iff, length, All, Bytes, u64_mod, ok, fault, runtime_error, Ensures,
}
use internet.FileDescriptor.{
  FdWrapper, Returned, returned, check_fd_system_call, register_read, register_write,
}
use internet.FileDescriptor.Transfers.{sum, to_iovecs_lem, enlarge_last_lem, resize_buffers_lem}
use internet.FileDescriptor.Datagrams.{to_iovecs-map}
use internet.Wire.Parser.{total_size, flatten}
use internet.Socket.{
  received, recv_len, payload_of, is_truncated, sender_of, source_address, recv_buffers, check_sent,
  send_buffers,
}

module _ {A K : Type 0} (sys_send : List Bytes → Option A → K → Returned × K) where
  -- A datagram is sent where the system takes all of it.
  pub send_buffers_lem :
      (b : Bytes) (bs : List Bytes) (destination : Option A) (w : FdWrapper) (k : K)
      → All (λ b. 0 < length b) (b ∷ bs)
      → total_size (b ∷ bs) < u64_mod
      → (sys_send (b ∷ bs) destination k).0 ≡ returned (total_size (b ∷ bs))
      → send_buffers sys_send (b ∷ bs) destination w k
        ≡ ok (register_write w, (sys_send (b ∷ bs) destination k).1)
  unfolding send_buffers check_sent check_fd_system_call
  send_buffers_lem b bs destination w k nonempty fits e =
      let same : (total_size (b ∷ bs) == total_size (b ∷ bs)) ≡ true = (==_iff _ _).1 refl in
      rw (to_iovecs-map b bs nonempty fits) (rw e (rw same refl))

-- A datagram that fits into the buffers and was not cut off is in the buffers, in order, beside
-- the address of its sender.
pub recv_buffers-flatten :
    {A : Type 0} (n : ℕ) (ns : List ℕ) (bs : Bytes) (from : A) (w : FdWrapper)
    → All (λ k. 0 < k) (n ∷ ns)
    → sum (n ∷ ns) < u64_mod
    → length bs ≤ sum (n ∷ ns)
    → Ensures
        (λ (address, buffers, w').
          (address ≡ from)
          × (flatten buffers ≡ bs)
          × (length buffers ≡ suc (length ns))
          × (w' ≡ register_read w))
        (recv_buffers (n ∷ ns) (λ _. received bs false (some from)) w)
unfolding recv_buffers check_fd_system_call recv_len payload_of is_truncated source_address
    sender_of
recv_buffers-flatten n ns bs from w pos fits le =
    let enough : ltb (n + sum ns) (length bs) ≡ false = ground arith in
    let (all, same) = resize_buffers_lem (n ∷ ns) bs le in
    rw (enlarge_last_lem (n ∷ ns) pos, to_iovecs_lem n ns pos fits)
      (rw enough (refl, all, same, refl))

-- A datagram that is larger than the buffers is not received: the call throws.
pub recv_buffers_oversized :
    {A : Type 0} (n : ℕ) (ns : List ℕ) (bs : Bytes) (truncated : Bool) (from : Option A)
    (w : FdWrapper)
    → All (λ k. 0 < k) (n ∷ ns)
    → sum (n ∷ ns) < length bs
    → length bs < u64_mod
    → recv_buffers (n ∷ ns) (λ _. received bs truncated from) w ≡ fault runtime_error
unfolding recv_buffers check_fd_system_call recv_len
recv_buffers_oversized n ns bs truncated from w pos lt fits =
    let over : ltb (n + sum ns) (length bs) ≡ true = ground arith in
    rw (enlarge_last_lem (n ∷ ns) pos, to_iovecs_lem n ns pos (omega arith)) (rw over refl)
