-- ===== src/Reassembler/Complete.antt =====
-- What becomes of the bytes that arrive within the capacity of a fresh reassembler.
use internet.Prelude.{
  ℕ, ◌+◌, ◌≤◌, ◌<◌, ◌≡◌, refl, ap, ◌∙◌, ◌⊎◌, inl, inr, none, List, [], ◌∷◌, ◌++◌, arith, ltb,
  ltb→lt, Bool-cases, take, All, u64_mod,
}
use internet.Map.{lookup}
use internet.ByteStream.{pop}
use internet.Reassembler.{Reassembler}
use internet.Reassembler.Slices.{slice, take-slice}
use internet.Reassembler.Stream.{Known}
use internet.Reassembler.Insert.{Piece, insert_piece, HoldsAll, limit, Inserted, insert-Inserted}
use internet.Reassembler.Delivery.{
  Event, arrives, reads, read_some, step, run, reading, InRange, fresh, fresh-Holds,
  read_some-Stepped, arrives-Stepped, delivered_in_order,
}

-- Some piece of the history holds the byte at index `j`.
abbrev pub Covered : ℕ → List Event → Type 0
Covered j [] = ⊥
Covered j (arrives p ∷ es) = ((p.first ≤ j) × (j < p.first + p.size)) ⊎ Covered j es
Covered j (reads n ∷ es) = Covered j es

abbrev KnownTo : ℕ → Reassembler → Type 0
KnownTo j r = Known j r.output.total_pushed r.unassembled

-- The next byte in line is not in the table.
abbrev IsFlushed : Reassembler → Type 0
IsFlushed r = lookup r.output.total_pushed r.unassembled ≡ none

read_some_keeps : (j n : ℕ) (r : Reassembler) → KnownTo j r → KnownTo j (read_some n r).1
unfolding read_some pop
read_some_keeps j n r k = k

read_some-IsFlushed : (n : ℕ) (r : Reassembler) → IsFlushed r → IsFlushed (read_some n r).1
unfolding read_some pop
read_some-IsFlushed n r f = f

arrives_learns :
    (stream : ℕ → ℕ) (p : Piece) (es : List Event) (r : Reassembler) (j : ℕ)
    → Inserted stream p r (insert_piece stream p r)
    → j < limit r
    → KnownTo j r ⊎ Covered j (arrives p ∷ es)
    → KnownTo j (insert_piece stream p r) ⊎ Covered j es
arrives_learns stream p es r j i l (inl k) = inl (i.keeps j k)
arrives_learns stream p es r j i l (inr (inl c)) = inl (i.learns j c.0 c.1 l)
arrives_learns stream p es r j i l (inr (inr c)) = inr c

run_learns :
    (stream : ℕ → ℕ) (es : List Event) (r : Reassembler) (j : ℕ)
    → All InRange es
    → limit r + reading es < u64_mod
    → HoldsAll stream r
    → j < limit r
    → KnownTo j r ⊎ Covered j es
    → KnownTo j (run stream es r).1
unfolding run step reading
run_learns stream [] r j a w h l (inl k) = k
run_learns stream [] r j a w h l (inr c) = absurd c
run_learns stream (arrives p ∷ es) r j a w h l c =
    let s = arrives-Stepped stream p r a.0 h in
    run_learns stream es (insert_piece stream p r) j a.1 (omega (arith, s.advance, s.same_capacity))
      s.holds (omega (arith, s.advance, s.same_capacity))
      (arrives_learns stream p es r j (insert-Inserted stream p r a.0 h) l c)
run_learns stream (reads n ∷ es) r j a w h l c =
    let s = read_some-Stepped stream n r (omega arith) h in
    run_learns stream es (read_some n r).1 j a.1
      (omega (arith, s.advance, s.same_capacity, s.bounded)) s.holds
      (omega (arith, s.advance, s.same_capacity)) (after_read c)
  where
    after_read : KnownTo j r ⊎ Covered j es → KnownTo j (read_some n r).1 ⊎ Covered j es
    after_read (inl k) = inl (read_some_keeps j n r k)
    after_read (inr k) = inr k

run-IsFlushed :
    (stream : ℕ → ℕ) (es : List Event) (r : Reassembler)
    → All InRange es
    → limit r + reading es < u64_mod
    → HoldsAll stream r
    → IsFlushed r
    → IsFlushed (run stream es r).1
unfolding run step reading
run-IsFlushed stream [] r a w h f = f
run-IsFlushed stream (arrives p ∷ es) r a w h f =
    let s = arrives-Stepped stream p r a.0 h in
    run-IsFlushed stream es (insert_piece stream p r) a.1
      (omega (arith, s.advance, s.same_capacity)) s.holds (insert-Inserted stream p r a.0 h).stopped
run-IsFlushed stream (reads n ∷ es) r a w h f =
    let s = read_some-Stepped stream n r (omega arith) h in
    run-IsFlushed stream es (read_some n r).1 a.1
      (omega (arith, s.advance, s.same_capacity, s.bounded)) s.holds (read_some-IsFlushed n r f)

-- If every index below `n` is covered, nothing below `n` is still missing.
pushed_past :
    (n : ℕ) (r : Reassembler)
    → IsFlushed r
    → ((j : ℕ) → j < n → KnownTo j r)
    → n ≤ r.output.total_pushed
pushed_past n r f k = elim (Bool-cases (ltb r.output.total_pushed n)) [
  | inr e ↦ ground arith
  | inl e ↦ absurd (neither (k r.output.total_pushed (ltb→lt r.output.total_pushed n e)))
]
  where
    neither : KnownTo r.output.total_pushed r → ⊥
    neither (inl l) = omega arith
    neither (inr m) = m f

-- If the pieces of a history cover the first `n` bytes of the stream, in whatever order, and `n` is
-- at most the capacity, then those bytes have all been pushed: what the reader has received,
-- followed by what is buffered, begins with them.
pub nothing_lost :
    (stream : ℕ → ℕ) (capacity n : ℕ) (es : List Event)
    → All InRange es
    → capacity + reading es < u64_mod
    → n ≤ capacity
    → ((j : ℕ) → j < n → Covered j es)
    → let (got, r) = run stream es (fresh capacity) in
      (n ≤ r.output.total_pushed) × (take n (got ++ r.output.buffer) ≡ slice stream 0 n)
unfolding fresh lookup
nothing_lost stream capacity n es a w l c = (
  past,
  ap (take n) (delivered_in_order stream capacity es a w).0
      ∙ take-slice stream 0 (run stream es (fresh capacity)).1.output.total_pushed n past,
)
  where
    past : n ≤ (run stream es (fresh capacity)).1.output.total_pushed
    past =
        pushed_past n (run stream es (fresh capacity)).1
          (run-IsFlushed stream es (fresh capacity) a (omega arith)
            (fresh-Holds stream capacity (omega arith)) refl)
          (λ j lt.
            run_learns stream es (fresh capacity) j a (omega arith)
              (fresh-Holds stream capacity (omega arith)) (omega arith) (inr (c j lt)))
