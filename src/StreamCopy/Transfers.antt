-- ===== src/StreamCopy/Transfers.antt =====
-- What one read into a stream and one write out of it transfer.
use internet.Prelude.{
  ℕ, ◌≤◌, ◌<◌, ◌≡◌, refl, sym, ap, subst, ◌∙◌, ◌⊎◌, inl, inr, Bool, true, false, ◌&&◌, not, ◌++◌,
  arith, ltb, ◌==◌, if◌then◌else◌, if_elim, length, drop, take_all, Bytes, Exec, ok, fault,
  runtime_error, ◌>>=◌, Holds, Holds-bind, Holds-any,
}
use internet.ByteStream
use internet.ByteStream.{ByteStream, available_capacity, bytes_buffered, peek, pop, close}
use internet.ByteStream.Invariant.{
  IsValid, available_capacity_lem, push-IsValid, pop-IsValid, close-IsValid,
}
use internet.ByteStream.Fifo.{buffer-push}
use internet.FileDescriptor.{
  FdWrapper, Returned, returned, again, failed, Input, bytes_of, buffer_size, read, write,
  check_written, check_read, check_fd_system_call, count_of,
}
use internet.FileDescriptor.Transfers.{buffer_size_lem}
use internet.StreamCopy.{fill, drain}

-- How much a call of the system has transferred.
abbrev pub count : Returned → ℕ
count (returned n) = n
count again = 0
count failed = 0

pub read-Holds :
    (size : ℕ) (answer : Input) (w : FdWrapper)
    → Holds (λ (bs, _). bs ≡ bytes_of answer) (read size (λ _. answer) w)
unfolding read
read-Holds size answer w =
    let P : Bytes × FdWrapper → Type 0 = λ (bs, _). bs ≡ bytes_of answer in
    Holds-bind (λ _. Unit {0}) P (check_read (count_of answer) w) _
      (Holds-any (check_read (count_of answer) w))
      λ (n, w') _. if_elim (Holds P) (ltb (buffer_size size) n) _ _ (λ _. tt) λ _. refl

pub check_fd-Holds :
    (r : Returned) (w : FdWrapper) → Holds (λ n. n ≡ count r) (check_fd_system_call r w)
unfolding check_fd_system_call
check_fd-Holds (returned n) w = refl
check_fd-Holds again w =
    if_elim (Holds (λ n. n ≡ 0)) w.non_blocking (ok 0) (fault runtime_error) (λ _. refl) λ _. tt
check_fd-Holds failed w = tt

pub check_written-Holds :
    (size : ℕ) (r : Returned) (w : FdWrapper)
    → Holds (λ (n, _). (n ≡ count r) × (n ≤ size)) (check_written size r w)
unfolding check_written
check_written-Holds size r w =
    let P : ℕ × FdWrapper → Type 0 = λ (n, _). (n ≡ count r) × (n ≤ size) in
    Holds-bind (λ n. n ≡ count r) P (check_fd_system_call r w) _ (check_fd-Holds r w)
      λ n same.
        if_elim (Holds P) ((n == 0) && not (size == 0)) _ _ (λ _. tt)
          λ _. if_elim (Holds P) (ltb size n) _ _ (λ _. tt) λ h. (same, ground (arith, h))

pub write-Holds :
    {E : Type 0} (sys_write : Bytes → E → Returned × E) (b : Bytes) (w : FdWrapper) (e : E)
    → Holds
        (λ (n, _, e'). (n ≡ count (sys_write b e).0) × (n ≤ length b) × (e' ≡ (sys_write b e).1))
        (write sys_write b w e)
unfolding write
write-Holds {E} sys_write b w e =
    let (r, after) = sys_write b e in
    let Q : ℕ × FdWrapper × E → Type 0 =
      λ (n, _, e'). (n ≡ count (sys_write b e).0) × (n ≤ length b) × (e' ≡ (sys_write b e).1) in
    Holds-bind (λ (n, _). (n ≡ count r) × (n ≤ length b)) Q (check_written (length b) r w) _
      (check_written-Holds (length b) r w) λ (n, w') (same, le). (same, le, refl)

pub closed_lem :
    (b : Bool) (s : ByteStream)
    → IsValid s
    → ((if b then close s else s).buffer ≡ s.buffer) × IsValid (if b then close s else s)
unfolding close
closed_lem true s v = (refl, close-IsValid v)
closed_lem false s v = (refl, v)

-- What goes into a stream that has room is what the system gave.
pub fill-Holds :
    {E : Type 0} (sys_read : ℕ → E → Input × E) (w : FdWrapper) (e : E) (s : ByteStream)
    → IsValid s
    → 0 < available_capacity s
    → length (bytes_of (sys_read (available_capacity s) e).0) ≤ available_capacity s
    → Holds
        (λ (s', _, e').
          (s'.buffer ≡ s.buffer ++ bytes_of (sys_read (available_capacity s) e).0)
          × IsValid s'
          × (e' ≡ (sys_read (available_capacity s) e).1))
        (fill sys_read w e s)
unfolding fill
fill-Holds {E} sys_read w e s v room le =
    subst (λ k. Holds Q (go (sys_read k e))) (sym (buffer_size_lem size room))
      (Holds-bind (λ (bs, _). bs ≡ given) Q (read size (λ _. (sys_read size e).0) w) _
        (read-Holds size (sys_read size e).0 w)
        λ (bs, w') same.
          let (buffer, valid) = closed_lem w'.eof (ByteStream.push bs s) (push-IsValid bs v) in
          (buffer ∙ ap (λ b. (ByteStream.push b s).buffer) same ∙ all_fit, valid, refl))
  where
    size : ℕ
    size = available_capacity s

    given : Bytes
    given = bytes_of (sys_read size e).0

    Q : ByteStream × FdWrapper × E → Type 0
    Q (s', _, e') = (s'.buffer ≡ s.buffer ++ given) × IsValid s' × (e' ≡ (sys_read size e).1)

    go : Input × E → Exec (ByteStream × FdWrapper × E)
    go (answer, e') = read size (λ _. answer) w >>= λ (bytes, w').
        let pushed = ByteStream.push bytes s in ok (if w'.eof then close pushed else pushed, w', e')

    all_fit : (ByteStream.push given s).buffer ≡ s.buffer ++ given
    all_fit =
        buffer-push given s
        ∙ ap (λ x. s.buffer ++ x) (take_all _ given (omega (arith, (available_capacity_lem v).0)))

pub popped : (n : ℕ) (s : ByteStream) → (pop n s).buffer ≡ drop n s.buffer
unfolding pop
popped n s = refl

-- What the system takes goes out of a stream.
pub drain-Holds :
    {E : Type 0} (sys_write : Bytes → E → Returned × E) (w : FdWrapper) (e : E) (s : ByteStream)
    → IsValid s
    → Holds
        (λ (s', _, e').
          IsValid s'
          × (((s' ≡ s) × (e' ≡ e))
              ⊎ ((s'.buffer ≡ drop (count (sys_write s.buffer e).0) s.buffer)
                  × (e' ≡ (sys_write s.buffer e).1))))
        (drain sys_write w e s)
unfolding drain peek
drain-Holds {E} sys_write w e s v =
    if_elim (Holds Q) (bytes_buffered s == 0) _ _ (λ _. (v, inl (refl, refl)))
      λ _.
        Holds-bind
          (λ (n, _, e').
            (n ≡ count (sys_write s.buffer e).0)
            × (n ≤ length s.buffer)
            × (e' ≡ (sys_write s.buffer e).1))
          Q (write sys_write s.buffer w e) _ (write-Holds sys_write s.buffer w e)
          λ (n, w', e') (same, le, after).
            (pop-IsValid n le v, inr (popped n s ∙ ap (λ k. drop k s.buffer) same, after))
  where
    Q : ByteStream × FdWrapper × E → Type 0
    Q (s', _, e') =
        IsValid s'
        × (((s' ≡ s) × (e' ≡ e))
            ⊎ ((s'.buffer ≡ drop (count (sys_write s.buffer e).0) s.buffer)
                × (e' ≡ (sys_write s.buffer e).1)))
