-- ===== src/ByteStream/Fifo.antt =====
-- A stream against its specification: what a bounded FIFO takes from its writers, in order.
use internet.Prelude.{
  ◌≡⟨◌⟩◌, ◌∎, ℕ, zero, suc, ◌+◌, ◌-◌, ◌≤◌, ◌<◌, min, ◌≡◌, refl, sym, ap, ◌∙◌, List, [], ◌∷◌, ◌++◌,
  append-nil, append_assoc, arith, length, take, drop, length-append, take-append-drop, length-take,
  length-drop, take_all, Bytes, add64,
}
use internet.ByteStream.{ByteStream, set_error, push_byte, push, close, peek, pop}
use internet.ByteStream.Invariant.{
  IsValid, push-IsValid, pop-IsValid, push_byte-IsValid, close-IsValid, set_error-IsValid,
}

take-sub_cons : (n : ℕ) (b : ℕ) (bs : Bytes) → 0 < n → take n (b ∷ bs) ≡ b ∷ take (n - 1) bs
take-sub_cons zero b bs h = absurd (omega arith)
take-sub_cons (suc n) b bs h = ap (λ k. b ∷ take k bs) (omega arith)

take-zero : (n : ℕ) (bs : Bytes) → n ≡ 0 → take n bs ≡ []
take-zero zero bs h = refl
take-zero (suc n) bs h = absurd (omega arith)

-- `push` appends the longest prefix of the data that fits.
pub buffer-push :
    (bs : Bytes) (s : ByteStream)
    → (push bs s).buffer ≡ s.buffer ++ take (s.capacity - length s.buffer) bs
unfolding push
buffer-push [] s = rw (take_all {A = ℕ} (s.capacity - length s.buffer) [] (omega arith), append-nil)
buffer-push (b ∷ bs) s = ground (
  arith,
  buffer-push bs (push_byte b s),
  length-append s.buffer (b ∷ []),
  append_assoc s.buffer (b ∷ []) (take (s.capacity - length s.buffer - 1) bs),
  take-sub_cons (s.capacity - length s.buffer) b bs,
  take-zero (s.capacity - length s.buffer) (b ∷ bs),
  append-nil s.buffer,
)

-- `push` counts the bytes that it takes.
pub total_pushed-push :
    (bs : Bytes) {s : ByteStream}
    → IsValid s
    → (push bs s).total_pushed
      ≡ add64 s.total_pushed (min (length bs) (s.capacity - length s.buffer))
unfolding push
total_pushed-push [] v = omega arith
total_pushed-push (b ∷ bs) {s} v = ground (
  arith,
  λ (h : length s.buffer < s.capacity). total_pushed-push bs (push_byte-IsValid b h v),
  length-append s.buffer (b ∷ []),
)

-- `push` changes nothing else.
pub push_frame :
    (bs : Bytes) (s : ByteStream)
    → ((push bs s).capacity ≡ s.capacity)
      × ((push bs s).has_error ≡ s.has_error)
      × ((push bs s).stream_closed ≡ s.stream_closed)
      × ((push bs s).total_popped ≡ s.total_popped)
unfolding push
push_frame [] s = (refl, refl, refl, refl)
push_frame (b ∷ bs) s = ground (arith, push_frame bs (push_byte b s))

-- The calls of a client. A `reads n` is what `read` does: peek, take at most `n` bytes, pop them. A
-- `pops n` is `pop` alone, and what it takes away counts as handed over.
pub data Op : Type 0 where
  writes : Bytes → Op
  reads pops : ℕ → Op
  closes fails : Op

-- A call's new stream, and the bytes that it hands to the reader.
unfoldable pub step : ByteStream → Op → Bytes × ByteStream
unfolding peek
step s (writes bs) = ([], push bs s)
step s (reads n) = (take n (peek s), pop (length (take n (peek s))) s)
step s (pops n) = (take n (peek s), pop n s)
step s closes = ([], close s)
step s fails = ([], set_error s)

unfoldable pub run : ByteStream → List Op → Bytes × ByteStream
run s [] = ([], s)
run s (o ∷ os) = let (got, s') = step s o in let (later, s'') = run s' os in (got ++ later, s'')

-- The specification: what a queue of capacity `cap` that holds `held` bytes takes of the writes.
unfoldable pub accepted : ℕ → ℕ → List Op → Bytes
accepted cap held [] = []
accepted cap held (writes bs ∷ os) =
    take (cap - held) bs ++ accepted cap (held + min (length bs) (cap - held)) os
accepted cap held (reads n ∷ os) = accepted cap (held - min n held) os
accepted cap held (pops n ∷ os) = accepted cap (held - min n held) os
accepted cap held (closes ∷ os) = accepted cap held os
accepted cap held (fails ∷ os) = accepted cap held os

-- A `pop` is asked for no more than what is held, since it counts what it is asked for.
abbrev pub InRange : ByteStream → List Op → Type 0
InRange s [] = Unit
InRange s (pops n ∷ os) = (n ≤ length s.buffer) × InRange (step s (pops n)).1 os
InRange s (o ∷ os) = InRange (step s o).1 os

-- What one call keeps and counts.
abbrev StepKeeps : Op → ByteStream → Type 0
StepKeeps o s =
    IsValid (step s o).1
    × ((step s o).1.capacity ≡ s.capacity)
    × ((step s o).1.total_popped ≡ add64 s.total_popped (length (step s o).0))

step-keeps :
    (o : Op) (os : List Op) {s : ByteStream} → InRange s (o ∷ os) → IsValid s → StepKeeps o s
unfolding step close set_error pop
step-keeps (writes bs) os {s} r v =
    (push-IsValid bs v, (push_frame bs s).0, omega (arith, (push_frame bs s).3, v.popped_width))
step-keeps (reads n) os {s} r v =
    (pop-IsValid _ (omega (arith, length-take n s.buffer)) v, refl, refl)
step-keeps (pops n) os {s} r v =
    (pop-IsValid n r.0 v, refl, omega (arith, length-take n s.buffer, r.0))
step-keeps closes os r v = (close-IsValid v, refl, omega (arith, v.popped_width))
step-keeps fails os r v = (set_error-IsValid v, refl, omega (arith, v.popped_width))

InRange-tail :
    (o : Op) (os : List Op) (s : ByteStream) → InRange s (o ∷ os) → InRange (step s o).1 os
InRange-tail (writes bs) os s r = r
InRange-tail (reads n) os s r = r
InRange-tail (pops n) os s r = r.1
InRange-tail closes os s r = r
InRange-tail fails os s r = r

take-length-take : (n : ℕ) (bs : Bytes) → drop (length (take n bs)) bs ≡ drop n bs
take-length-take zero bs = refl
take-length-take (suc n) [] = refl
take-length-take (suc n) (b ∷ bs) = take-length-take n bs

-- One call: what was held and what is taken is what is handed out and what is held afterwards.
step_lem :
    (o : Op) (os : List Op) (s : ByteStream)
    → s.buffer ++ accepted s.capacity (length s.buffer) (o ∷ os)
      ≡ (step s o).0
        ++ ((step s o).1.buffer ++ accepted (step s o).1.capacity (length (step s o).1.buffer) os)
unfolding step accepted close set_error pop
step_lem (writes bs) os s =
    rw
      (
        buffer-push bs s,
        (push_frame bs s).0,
        append_assoc,
        length-append s.buffer (take (s.capacity - length s.buffer) bs),
        length-take (s.capacity - length s.buffer) bs,
      )
      (ap (λ k. s.buffer ++ (take (s.capacity - length s.buffer) bs ++ accepted s.capacity k os))
        (omega arith))
step_lem (reads n) os s =
    rw (take-length-take n s.buffer, ← append_assoc, take-append-drop)
      (ap (λ k. s.buffer ++ accepted s.capacity k os) (omega (arith, length-drop n s.buffer)))
step_lem (pops n) os s =
    rw (← append_assoc, take-append-drop)
      (ap (λ k. s.buffer ++ accepted s.capacity k os) (omega (arith, length-drop n s.buffer)))
step_lem closes os s = refl
step_lem fails os s = refl

-- No history of calls loses, reorders or invents a byte: what the reader has received, followed by
-- what is still held, is what was held before, followed by what the specification accepts.
pub run_refines :
    (os : List Op) (s : ByteStream)
    → (run s os).0 ++ (run s os).1.buffer ≡ s.buffer ++ accepted s.capacity (length s.buffer) os
unfolding run accepted
run_refines [] s = rw append-nil
run_refines (o ∷ os) s =
    (run s (o ∷ os)).0 ++ (run s (o ∷ os)).1.buffer
    ≡⟨ append_assoc (step s o).0 _ _ ⟩
      (step s o).0 ++ ((run (step s o).1 os).0 ++ (run (step s o).1 os).1.buffer)
    ≡⟨ ap (◌++◌ (step s o).0) (run_refines os (step s o).1) ⟩ _
    ≡⟨ sym (step_lem o os s) ⟩ s.buffer ++ accepted s.capacity (length s.buffer) (o ∷ os) ∎

-- A history of calls on a valid stream, in which no `pop` is asked for more than what is held at the
-- time, leaves a valid stream: never more than the capacity is held, and the counters differ by what
-- is held. The capacity stays, and the bytes handed over are those that the stream has counted.
pub run-IsValid :
    (os : List Op) {s : ByteStream}
    → InRange s os
    → IsValid s
    → IsValid (run s os).1
      × ((run s os).1.capacity ≡ s.capacity)
      × ((run s os).1.total_popped ≡ add64 s.total_popped (length (run s os).0))
unfolding run
run-IsValid [] r v = (v, refl, omega (arith, v.popped_width))
run-IsValid (o ∷ os) {s} r v =
    let one = step-keeps o os r v in
    let later = run-IsValid os (InRange-tail o os s r) one.0 in
    (
      later.0,
      later.1 ∙ one.1,
      omega (arith, later.2, one.2, length-append (step s o).0 (run (step s o).1 os).0),
    )
