-- ===== src/Reassembler/Insert.antt =====
-- `Reassembler::insert` as a whole, for a reassembler that is fed pieces of one stream.
use mathlib.Core.Path.{ap₂}
use internet.Prelude.{
  ℕ, suc, ◌+◌, ◌≤◌, ◌<◌, ◌≡◌, refl, subst, inl, inr, Bool, ◌||◌, none, arith, ltb, ◌==◌,
  if◌then◌else◌, ltb→lt, Bool-cases, length, u64_mod,
}
use internet.Map.{Map, lookup, length-Within}
use internet.ByteStream.{ByteStream, close, bytes_pushed, available_capacity}
use internet.ByteStream.Invariant.{close-IsValid}
use internet.Reassembler.{Reassembler, store, assemble, flush, insert, count_bytes_pending}
use internet.Reassembler.Slices.{slice, length-slice}
use internet.Reassembler.Stream.{
  Holds, Known, Assembled, assemble_stops, store-Agrees, store-Distinct, store-Within, store_keeps,
  store_learns, total_pushed_lem,
}

-- What a call has done: it started at `r`, and `m` is the table after SECTION 1.
pub record Flushed (stream : ℕ → ℕ) (output : ByteStream) (m : Map ℕ) (eos : ℕ) (r' : Reassembler)
    : Type 0 where
  pub holds : Holds stream r'.output r'.unassembled
  pub stopped : lookup r'.output.total_pushed r'.unassembled ≡ none
  pub ends : r'.end_of_stream ≡ eos
  pub closes : r'.output.stream_closed ≡ ((r'.output.total_pushed == eos) || output.stream_closed)
  pub same_capacity : r'.output.capacity ≡ output.capacity
  pub same_popped : r'.output.total_popped ≡ output.total_popped
  pub same_error : r'.output.has_error ≡ output.has_error
  pub keeps :
      (j : ℕ) → Known j output.total_pushed m → Known j r'.output.total_pushed r'.unassembled

close-Holds :
    {stream : ℕ → ℕ} {output : ByteStream} {m : Map ℕ}
    → Holds stream output m
    → Holds stream (close output) m
unfolding close
close-Holds h = record {
  valid = close-IsValid h.valid;
  fits = h.fits;
  bytes = h.bytes;
  agrees = h.agrees;
  distinct = h.distinct;
  within = h.within;
}

flush-Flushed :
    {stream : ℕ → ℕ} {output : ByteStream} {m : Map ℕ} (eos : ℕ)
    → Holds stream output m
    → Flushed stream output m eos (flush output.total_pushed output m eos)
unfolding flush close
flush-Flushed {stream} {output} {m} eos h =
    finish (assemble (suc (length m)) output.total_pushed output m)
      (assemble_stops (suc (length m)) (omega arith) h)
  where
    finish :
        (out : ℕ × ByteStream × Map ℕ)
        → Assembled stream output m out
        → Flushed stream output m eos (record {
          output = if out.0 == eos then close out.1 else out.1;
          unassembled = out.2;
          end_of_stream = eos;
        })
    finish out a = elim (Bool-cases (out.0 == eos)) [
      | inl e ↦ rw e (record {
        holds = close-Holds a.holds;
        stopped = subst (λ k. lookup k out.2 ≡ none) a.index a.stopped;
        ends = refl;
        closes = rw (← a.index, e);
        same_capacity = a.same_capacity;
        same_popped = a.same_popped;
        same_error = a.same_error;
        keeps = a.keeps;
      })
      | inr e ↦ rw e (record {
        holds = a.holds;
        stopped = subst (λ k. lookup k out.2 ≡ none) a.index a.stopped;
        ends = refl;
        closes = rw (← a.index, e) a.same_closed;
        same_capacity = a.same_capacity;
        same_popped = a.same_popped;
        same_error = a.same_error;
        keeps = a.keeps;
      })
    ]

-- A piece of the stream: its first index, its length, and whether it is the last one.
pub record Piece : Type 0 where
  pub first : ℕ
  pub size : ℕ
  pub is_last : Bool

unfoldable pub insert_piece : (ℕ → ℕ) → Piece → Reassembler → Reassembler
unfolding insert
insert_piece stream p r = insert p.first (slice stream p.first p.size) p.is_last r

-- The window's upper end.
abbrev pub limit : Reassembler → ℕ
limit r = r.output.total_popped + r.output.capacity

abbrev pub HoldsAll : (ℕ → ℕ) → Reassembler → Type 0
HoldsAll stream r = Holds stream r.output r.unassembled

-- The state after a piece of the stream was inserted into `r`: what was pushed is still the
-- stream's bytes in order and the table agrees with it, the next byte in line is not kept back,
-- nothing known was forgotten, every byte of the piece below the window's end is known, and the
-- output is closed if it was or if the end of the stream has been reached.
pub record Inserted (stream : ℕ → ℕ) (p : Piece) (r r' : Reassembler) : Type 0 where
  pub holds : HoldsAll stream r'
  pub stopped : lookup r'.output.total_pushed r'.unassembled ≡ none
  pub ends : r'.end_of_stream ≡ (if p.is_last then p.first + p.size else r.end_of_stream)
  pub closes :
      r'.output.stream_closed
      ≡ ((r'.output.total_pushed == r'.end_of_stream) || r.output.stream_closed)
  pub same_capacity : r'.output.capacity ≡ r.output.capacity
  pub same_popped : r'.output.total_popped ≡ r.output.total_popped
  pub same_error : r'.output.has_error ≡ r.output.has_error
  pub keeps :
      (j : ℕ)
      → Known j r.output.total_pushed r.unassembled
      → Known j r'.output.total_pushed r'.unassembled
  pub learns :
      (j : ℕ)
      → p.first ≤ j
      → j < p.first + p.size
      → j < limit r
      → Known j r'.output.total_pushed r'.unassembled

module _ (stream : ℕ → ℕ) (p : Piece) (r : Reassembler) where
  -- The table after SECTION 1.
  abbrev pub stored : Map ℕ
  stored = store r.output.total_pushed (limit r) p.first (slice stream p.first p.size) r.unassembled

  abbrev pub last : ℕ
  last = if p.is_last then p.first + p.size else r.end_of_stream

  pub stored-Holds : p.first + p.size < u64_mod → HoldsAll stream r → Holds stream r.output stored
  stored-Holds w h = record {
    valid = h.valid;
    fits = h.fits;
    bytes = h.bytes;
    agrees =
        store-Agrees stream r.output.total_pushed (limit r) p.first p.size r.unassembled w h.agrees;
    distinct =
        store-Distinct r.output.total_pushed (limit r) p.first (slice stream p.first p.size)
          r.unassembled h.distinct;
    within =
        store-Within r.output.total_pushed (limit r) p.first (slice stream p.first p.size)
          r.unassembled h.within;
  }

  stored_keeps :
      (j : ℕ) → Known j r.output.total_pushed r.unassembled → Known j r.output.total_pushed stored
  stored_keeps j (inl h) = inl h
  stored_keeps j (inr h) = inr (
      store_keeps r.output.total_pushed (limit r) p.first (slice stream p.first p.size)
        r.unassembled j h)

  stored_learns :
      p.first + p.size < u64_mod
      → (j : ℕ) → p.first ≤ j
      → j < p.first + p.size
      → j < limit r
      → Known j r.output.total_pushed stored
  stored_learns w j lo hi l = elim (Bool-cases (ltb j r.output.total_pushed)) [
    | inl e ↦ inl (ltb→lt j r.output.total_pushed e)
    | inr e ↦ inr (
        store_learns r.output.total_pushed (limit r) p.first (slice stream p.first p.size)
          r.unassembled j (omega (arith, length-slice stream p.first p.size)) lo
          (omega (arith, length-slice stream p.first p.size)) (ground arith) l)
  ]

  -- The code's index computations do not wrap: the call stores into the window, and flushes.
  pub insert_piece-eq :
      p.first + p.size < u64_mod
      → HoldsAll stream r
      → insert_piece stream p r ≡ flush r.output.total_pushed r.output stored last
  unfolding insert_piece bytes_pushed available_capacity
  insert_piece-eq w h =
      ap₂
        (λ l e.
          flush r.output.total_pushed r.output
            (store r.output.total_pushed l p.first (slice stream p.first p.size) r.unassembled) e)
        (omega (arith, total_pushed_lem h, h.valid.bounded, h.fits))
        (ground (arith, length-slice stream p.first p.size))

-- `insert` of a piece of the stream does what `Inserted` says, in any state that pieces of that
-- stream have led to, as long as the piece's indices fit in 64 bits.
pub insert-Inserted :
    (stream : ℕ → ℕ) (p : Piece) (r : Reassembler)
    → p.first + p.size < u64_mod
    → HoldsAll stream r
    → Inserted stream p r (insert_piece stream p r)
insert-Inserted stream p r w h = rw (insert_piece-eq stream p r w h) (record {
  holds = f.holds;
  stopped = f.stopped;
  ends = f.ends;
  closes = rw f.ends f.closes;
  same_capacity = f.same_capacity;
  same_popped = f.same_popped;
  same_error = f.same_error;
  keeps = λ j k. f.keeps j (stored_keeps stream p r j k);
  learns = λ j lo hi l. f.keeps j (stored_learns stream p r w j lo hi l);
})
  where
    f :
        Flushed stream r.output
          (stored stream p r)
          (last stream p r)
          (flush r.output.total_pushed r.output (stored stream p r) (last stream p r))
    f = flush-Flushed (last stream p r) (stored-Holds stream p r w h)

-- What is pending and what is buffered never exceed the capacity together.
pub pending_bound :
    (stream : ℕ → ℕ) (r : Reassembler)
    → HoldsAll stream r
    → count_bytes_pending r + length r.output.buffer ≤ r.output.capacity
unfolding count_bytes_pending
pending_bound stream r h = omega (
  arith,
  total_pushed_lem h,
  h.valid.bounded,
  length-Within r.output.total_pushed (limit r) r.unassembled
      (omega (arith, total_pushed_lem h, h.valid.bounded)) h.distinct h.within,
)
