-- ===== src/FileDescriptor/Transfers.antt =====
-- What reads and writes of several steps transfer.
use internet.Prelude.{
  ℕ, zero, suc, ◌+◌, ◌≤◌, ◌<◌, ◌≡◌, refl, sym, ap, subst, ◌∙◌, Bool, true, false, ◌||◌, List, [],
  ◌∷◌, ◌++◌, append-nil, append_assoc, arith, ltb, leb, ◌==◌, if◌then◌else◌, leb→le, if_elim,
  length, take, drop, All, take-append-drop, length-drop, Bytes, u64_mod, add64, ok, fault,
  runtime_error, Ensures,
}
use internet.Wire.Parser.{flatten}
use internet.FileDescriptor.{
  FdWrapper, Returned, returned, input, check_fd_system_call, check_read, register_read,
  register_write, check_written, read, write, write_loop, write_all, to_iovecs, sizes_from,
  enlarge_last, buffer_size, count_of, bytes_of, resize_buffers, read_buffers,
}

-- A system that takes at least one byte and at most all of what it is given, `received` being what
-- it has.
pub record Accepts {K : Type 0} (sys_write : Bytes → K → Returned × K) (received : K → Bytes)
    : Type 0 where
  pub taken : Bytes → K → ℕ
  pub next : Bytes → K → K
  pub answers :
      (b : Bytes) (k : K) → 0 < length b → sys_write b k ≡ (returned (taken b k), next b k)
  pub some_taken : (b : Bytes) (k : K) → 0 < length b → 0 < taken b k
  pub no_more : (b : Bytes) (k : K) → 0 < length b → taken b k ≤ length b
  pub grows :
      (b : Bytes) (k : K) → 0 < length b → received (next b k) ≡ received k ++ take (taken b k) b

module _ {K : Type 0} (sys_write : Bytes → K → Returned × K) (received : K → Bytes)
    (accepts : Accepts sys_write received) where
  pub write_lem :
      (b : Bytes) (w : FdWrapper) (k : K)
      → 0 < length b
      → write sys_write b w k ≡ ok (accepts.taken b k, register_write w, accepts.next b k)
  unfolding write check_written check_fd_system_call
  write_lem b w k pos =
      let nonzero : (accepts.taken b k == 0) ≡ false = ground (arith, accepts.some_taken b k pos) in
      let fits : ltb (length b) (accepts.taken b k) ≡ false =
        ground (arith, accepts.no_more b k pos) in
      rw (accepts.answers b k pos) (rw nonzero (rw fits refl))

  write_loop_lem :
      (fuel : ℕ) (b : Bytes) (w : FdWrapper) (k : K)
      → length b ≤ fuel
      → Ensures (λ (_, k'). received k' ≡ received k ++ b) (write_loop sys_write fuel b w k)
  unfolding write_loop
  write_loop_lem fuel [] w k le = sym (append-nil (received k))
  write_loop_lem zero (b ∷ bs) w k le = absurd (omega arith)
  write_loop_lem (suc fuel) (b ∷ bs) w k le =
      let pos : 0 < length (b ∷ bs) = omega arith in
      let n = accepts.taken (b ∷ bs) k in
      rw (write_lem (b ∷ bs) w k pos) (
        subst
          (λ whole.
            Ensures (λ (_, k'). received k' ≡ whole)
              (write_loop sys_write fuel (drop n (b ∷ bs)) (register_write w)
                (accepts.next (b ∷ bs) k)))
          (ap (λ x. x ++ drop n (b ∷ bs)) (accepts.grows (b ∷ bs) k pos)
            ∙ append_assoc (received k) (take n (b ∷ bs)) (drop n (b ∷ bs))
            ∙ ap (λ x. received k ++ x) (take-append-drop n (b ∷ bs)))
          (write_loop_lem fuel (drop n (b ∷ bs)) (register_write w) (accepts.next (b ∷ bs) k)
            (omega (arith, length-drop n (b ∷ bs), accepts.some_taken (b ∷ bs) k pos))))

  -- On a blocking descriptor `write_all` returns, and the system has received the whole buffer in
  -- order, if each call takes at least one byte and at most what it is given.
  pub write_all_lem :
      (b : Bytes) (w : FdWrapper) (k : K)
      → w.non_blocking ≡ false
      → Ensures (λ (_, k'). received k' ≡ received k ++ b) (write_all sys_write b w k)
  unfolding write_all
  write_all_lem b w k blocking =
      subst
        (λ non_blocking.
          Ensures (λ (_, k'). received k' ≡ received k ++ b)
            (if non_blocking then fault runtime_error else write_loop sys_write (length b) b w k))
        (sym blocking) (write_loop_lem (length b) b w k (omega arith))

abbrev pub sum : List ℕ → ℕ
sum [] = 0
sum (n ∷ ns) = n + sum ns

sizes_from_lem :
    (ns : List ℕ) (total : ℕ)
    → All (λ n. 0 < n) ns
    → total + sum ns < u64_mod
    → sizes_from ns total ≡ ok (total + sum ns)
unfolding sizes_from
sizes_from_lem [] total pos fits = ap ok (omega arith)
sizes_from_lem (n ∷ ns) total (pos, rest) fits =
    let nonzero : (n == 0) ≡ false = ground arith in
    let add : add64 total n ≡ total + n = omega arith in
    rw nonzero (rw add (sizes_from_lem ns (total + n) rest (omega arith) ∙ ap ok (omega arith)))

pub to_iovecs_lem :
    (n : ℕ) (ns : List ℕ)
    → All (λ k. 0 < k) (n ∷ ns)
    → sum (n ∷ ns) < u64_mod
    → to_iovecs (n ∷ ns) ≡ ok (sum (n ∷ ns))
unfolding to_iovecs
to_iovecs_lem n ns pos fits =
    let nonzero : (n + sum ns == 0) ≡ false = ground (arith, pos.0) in
    let total : sizes_from (n ∷ ns) 0 ≡ ok (n + sum ns) =
      sizes_from_lem (n ∷ ns) 0 pos (omega arith) ∙ ap ok {y = n + sum ns} (omega arith) in
    rw total (rw nonzero refl)

pub enlarge_last_lem : (ns : List ℕ) → All (λ n. 0 < n) ns → enlarge_last ns ≡ ns
unfolding enlarge_last buffer_size
enlarge_last_lem [] tt = refl
enlarge_last_lem (n ∷ []) (pos, _) =
    (let nonzero : (n == 0) ≡ false = ground arith in rw nonzero refl)
enlarge_last_lem (n ∷ m ∷ ns) (_, pos) = ap (◌∷◌ n) (enlarge_last_lem (m ∷ ns) pos)

-- The buffers hold what was read, in order.
pub resize_buffers_lem :
    (ns : List ℕ) (bs : Bytes)
    → length bs ≤ sum ns
    → (flatten (resize_buffers ns bs) ≡ bs) × (length (resize_buffers ns bs) ≡ length ns)
unfolding resize_buffers
resize_buffers_lem [] [] le = (refl, refl)
resize_buffers_lem [] (b ∷ bs) le = absurd (omega arith)
resize_buffers_lem (n ∷ ns) bs le =
    if_elim (λ (out : List Bytes). (flatten out ≡ bs) × (length out ≡ suc (length ns)))
      (leb n (length bs)) _ _
      (λ h.
        let (all, same) =
          resize_buffers_lem ns (drop n bs) (omega (arith, length-drop n bs, leb→le _ _ h)) in
        (ap (λ x. take n bs ++ x) all ∙ take-append-drop n bs, ap suc same))
      λ h.
        let (all, same) = resize_buffers_lem ns [] (omega arith) in
        (ap (λ x. bs ++ x) all ∙ append-nil bs, ap suc same)

-- A read into several buffers, none of them empty, returns as many buffers, which hold in order
-- the bytes that the system gave, at most what fits in 64 bits of sizes; the end of the input is
-- noted when there were none.
read_buffers_lem :
    (n : ℕ) (ns : List ℕ) (bs : Bytes) (w : FdWrapper)
    → All (λ k. 0 < k) (n ∷ ns)
    → sum (n ∷ ns) < u64_mod
    → length bs ≤ sum (n ∷ ns)
    → Ensures
        (λ (buffers, w').
          (flatten buffers ≡ bs)
          × (length buffers ≡ suc (length ns))
          × (w'.eof ≡ ((length bs == 0) || w.eof)))
        (read_buffers (n ∷ ns) (λ _. input bs) w)
unfolding read_buffers to_iovecs check_read count_of bytes_of register_read
read_buffers_lem n ns bs w pos fits le =
    let enough : ltb (n + sum ns) (length bs) ≡ false = ground arith in
    let (all, same) = resize_buffers_lem (n ∷ ns) bs le in
    rw (enlarge_last_lem (n ∷ ns) pos, to_iovecs_lem n ns pos fits)
      (rw enough (all, same, noted (length bs == 0)))
  where
    noted :
        (none_read : Bool)
        → (if none_read then record w { eof = true } else w).eof ≡ (none_read || w.eof)
    noted true = refl
    noted false = refl

pub buffer_size_lem : (size : ℕ) → 0 < size → buffer_size size ≡ size
unfolding buffer_size
buffer_size_lem size pos = (let nonzero : (size == 0) ≡ false = ground arith in rw nonzero refl)

-- The wrapper after so many bytes were read.
abbrev pub after_read : ℕ → FdWrapper → FdWrapper
after_read n w = register_read (if n == 0 then record w { eof = true } else w)

pub read_lem :
    (size : ℕ) (bs : Bytes) (w : FdWrapper)
    → 0 < size
    → length bs ≤ size
    → read size (λ _. input bs) w ≡ ok (bs, after_read (length bs) w)
unfolding read check_read count_of bytes_of
read_lem size bs w pos le =
    let enough : ltb size (length bs) ≡ false = ground arith in
    rw (buffer_size_lem size pos) (rw enough refl)
