-- ===== src/Reassembler/Delivery.antt =====
-- Histories of arrivals and reads of a reassembler, and what its reader gets.
use Prim.Native.Nat.add
use mathlib.Core.Path.{ap₂}
use internet.Prelude.{
  ℕ, ◌+◌, ◌-◌, ◌≤◌, ◌<◌, min, ◌≡◌, refl, sym, ap, subst, ◌∙◌, List, [], ◌∷◌, ◌++◌, arith, length,
  take, drop, All, length-append, length-take, length-drop, take-length-take, Bytes, u64_mod, add64,
}
use internet.Map.{Within-mono}
use internet.ByteStream
use internet.ByteStream.{ByteStream, peek, pop}
use internet.ByteStream.Invariant.{init-IsValid, pop-IsValid}
use internet.Reassembler.{Reassembler, init, count_bytes_pending}
use internet.Reassembler.Slices.{slice, slice-append, take-slice, drop-slice}
use internet.Reassembler.Stream.{total_pushed_lem}
use internet.Reassembler.Insert.{
  Piece, insert_piece, HoldsAll, limit, insert-Inserted, pending_bound,
}

pub data Event : Type 0 where
  arrives : Piece → Event
  reads : ℕ → Event

-- The reader peeks, takes at most `n` bytes, and pops them.
unfoldable pub read_some : ℕ → Reassembler → Bytes × Reassembler
unfolding peek
read_some n r =
    (take n (peek r.output), record r { output = pop (length (take n (peek r.output))) r.output })

unfoldable pub step : (ℕ → ℕ) → Event → Reassembler → Bytes × Reassembler
step stream (arrives p) r = ([], insert_piece stream p r)
step stream (reads n) r = read_some n r

unfoldable pub run : (ℕ → ℕ) → List Event → Reassembler → Bytes × Reassembler
run stream [] r = ([], r)
run stream (e ∷ es) r =
    let (got, r') = step stream e r in let (later, r'') = run stream es r' in (got ++ later, r'')

-- What the reader can take at most.
unfoldable pub reading : List Event → ℕ
reading [] = 0
reading (arrives p ∷ es) = reading es
reading (reads n ∷ es) = n + reading es

-- No index of an arriving piece wraps.
abbrev pub InRange : Event → Type 0
InRange (arrives p) = p.first + p.size < u64_mod
InRange (reads n) = Unit

unfoldable pub fresh : ℕ → Reassembler
unfolding init ByteStream.init
fresh capacity = init (ByteStream.init capacity)

pub fresh-Holds :
    (stream : ℕ → ℕ) (capacity : ℕ) → capacity < u64_mod → HoldsAll stream (fresh capacity)
unfolding fresh slice
fresh-Holds stream capacity h = record {
  valid = init-IsValid capacity h;
  fits = omega arith;
  bytes = refl;
  agrees = tt;
  distinct = tt;
  within = tt;
}

-- A call hands out the stream's next bytes.
pub record Stepped (stream : ℕ → ℕ) (r : Reassembler) (n : ℕ) (out : Bytes × Reassembler)
    : Type 0 where
  pub holds : HoldsAll stream out.1
  pub same_capacity : out.1.output.capacity ≡ r.output.capacity
  pub advance : out.1.output.total_popped ≡ r.output.total_popped + length out.0
  pub bounded : length out.0 ≤ n
  pub bytes : out.0 ≡ slice stream r.output.total_popped (length out.0)

pub read_some-Stepped :
    (stream : ℕ → ℕ) (n : ℕ) (r : Reassembler)
    → limit r + n < u64_mod
    → HoldsAll stream r
    → Stepped stream r n (read_some n r)
unfolding read_some pop
read_some-Stepped stream n r w h = record {
  holds = record {
    valid = pop-IsValid k (omega (arith, size)) h.valid;
    fits = omega (arith, size, advance, h.valid.bounded);
    bytes =
        ap (drop k) h.bytes
        ∙ drop-slice stream r.output.total_popped (length r.output.buffer) k (omega (arith, size))
        ∙ ap (λ a. slice stream a (length r.output.buffer - k)) (sym advance)
        ∙ ap (slice stream (add64 r.output.total_popped k)) (sym (length-drop k r.output.buffer));
    agrees = h.agrees;
    distinct = h.distinct;
    within =
        Within-mono r.output.total_pushed (limit r)
          (add64 r.output.total_popped k + r.output.capacity) r.unassembled (omega (arith, advance))
          h.within;
  };
  same_capacity = refl;
  advance = advance;
  bounded = omega (arith, size);
  bytes =
      sym (take-length-take n r.output.buffer)
      ∙ ap (take k) h.bytes
      ∙ take-slice stream r.output.total_popped (length r.output.buffer) k (omega (arith, size));
}
  where
    k : ℕ
    k = length (take n r.output.buffer)

    size : k ≡ min n (length r.output.buffer)
    size = length-take n r.output.buffer

    advance : add64 r.output.total_popped k ≡ r.output.total_popped + k
    advance = omega (arith, size, h.fits, h.valid.bounded)

pub arrives-Stepped :
    (stream : ℕ → ℕ) (p : Piece) (r : Reassembler)
    → p.first + p.size < u64_mod
    → HoldsAll stream r
    → Stepped stream r 0 ([], insert_piece stream p r)
unfolding slice
arrives-Stepped stream p r w h = record {
  holds = (insert-Inserted stream p r w h).holds;
  same_capacity = (insert-Inserted stream p r w h).same_capacity;
  advance = omega (arith, (insert-Inserted stream p r w h).same_popped);
  bounded = omega arith;
  bytes = refl;
}

Stepped-then :
    (stream : ℕ → ℕ) (r : Reassembler) (m n : ℕ) (out later : Bytes × Reassembler)
    → Stepped stream r m out
    → Stepped stream out.1 n later
    → Stepped stream r (m + n) (out.0 ++ later.0, later.1)
Stepped-then stream r m n out later a b = record {
  holds = b.holds;
  same_capacity = b.same_capacity ∙ a.same_capacity;
  advance = omega (arith, a.advance, b.advance, length-append out.0 later.0);
  bounded = omega (arith, a.bounded, b.bounded, length-append out.0 later.0);
  bytes =
      ap₂ ◌++◌ a.bytes (b.bytes ∙ ap (λ k. slice stream k (length later.0)) a.advance)
      ∙ slice-append stream r.output.total_popped (length out.0) (length later.0)
      ∙ ap (slice stream r.output.total_popped) (sym (length-append out.0 later.0));
}

run-Stepped :
    (stream : ℕ → ℕ) (es : List Event) (r : Reassembler)
    → All InRange es
    → limit r + reading es < u64_mod
    → HoldsAll stream r
    → Stepped stream r (reading es) (run stream es r)
unfolding run step reading slice
run-Stepped stream [] r a w h = record {
  holds = h;
  same_capacity = refl;
  advance = omega arith;
  bounded = omega arith;
  bytes = refl;
}
run-Stepped stream (arrives p ∷ es) r a w h =
    let s = arrives-Stepped stream p r a.0 h in
    subst (λ k. Stepped stream r k (run stream (arrives p ∷ es) r)) (add.zero (reading es))
      (Stepped-then stream r 0 (reading es) _ _ s (
        run-Stepped stream es (insert_piece stream p r) a.1
          (omega (arith, s.advance, s.same_capacity)) s.holds))
run-Stepped stream (reads n ∷ es) r a w h =
    let s = read_some-Stepped stream n r (omega arith) h in
    Stepped-then stream r n (reading es) _ _ s (
      run-Stepped stream es (read_some n r).1 a.1
        (omega (arith, s.advance, s.same_capacity, s.bounded)) s.holds)

pub fresh_run :
    (stream : ℕ → ℕ) (capacity : ℕ) (es : List Event)
    → All InRange es
    → capacity + reading es < u64_mod
    → Stepped stream (fresh capacity) (reading es) (run stream es (fresh capacity))
unfolding fresh
fresh_run stream capacity es a w =
    run-Stepped stream es (fresh capacity) a (omega arith)
      (fresh-Holds stream capacity (omega arith))

-- In every history of a fresh reassembler, what the reader has received, followed by what is
-- buffered, is the beginning of the stream, as long as the counters say; and what is buffered and
-- pending never exceeds the capacity. The pieces may overlap, repeat and arrive in any order.
pub delivered_in_order :
    (stream : ℕ → ℕ) (capacity : ℕ) (es : List Event)
    → All InRange es
    → capacity + reading es < u64_mod
    → let (got, r) = run stream es (fresh capacity) in
      (got ++ r.output.buffer ≡ slice stream 0 r.output.total_pushed)
      × (count_bytes_pending r + length r.output.buffer ≤ capacity)
unfolding fresh
delivered_in_order stream capacity es a w =
    let s = fresh_run stream capacity es a w in
    let popped : (run stream es (fresh capacity)).1.output.total_popped
        ≡ 0 + length (run stream es (fresh capacity)).0 =
      omega (arith, s.advance) in
    (
      ap₂ ◌++◌ s.bytes (
            s.holds.bytes
            ∙ ap (λ k. slice stream k (length (run stream es (fresh capacity)).1.output.buffer))
                popped)
          ∙ slice-append stream 0 (length (run stream es (fresh capacity)).0)
              (length (run stream es (fresh capacity)).1.output.buffer)
          ∙ ap (slice stream 0) (omega (arith, total_pushed_lem s.holds, popped)),
      omega
          (arith, pending_bound stream (run stream es (fresh capacity)).1 s.holds, s.same_capacity),
    )
