-- ===== src/Tests/Streams.antt =====
-- The theorems on byte streams, the reassembler and sequence numbers at concrete inputs.
use internet.Prelude.{
  ℕ, ◌+◌, ◌%◌, ◌^◌, ◌≤◌, ◌<◌, ◌≡◌, true, false, List, [], ◌∷◌, ◌++◌, arith, length, take, ok, add64,
  u64_mod,
}
use internet.ByteStream
use internet.ByteStream.{ByteStream, read, pop, push, close}
use internet.ByteStream.Invariant.{IsValid, init-IsValid, push-IsValid, close-IsValid}
use internet.ByteStream.Fifo.{
  Op, writes, reads, pops, closes, step, run, accepted, run_refines, run-IsValid,
}
use internet.ByteStream.Read.{read_lem}
use internet.Reassembler.{count_bytes_pending}
use internet.Reassembler.Slices.{slice}
use internet.Reassembler.Insert.{Piece, insert_piece, Inserted, insert-Inserted}
use internet.Reassembler.Delivery.{
  Event, arrives, reads as fetches, run as run_events, reading, fresh, fresh-Holds,
  delivered_in_order,
}
use internet.Reassembler.Complete.{Covered, nothing_lost}
use internet.Wrap32.{Wrap32, wrap, unwrap}
use internet.Wrap32.Unwrap.{gap, unwrap_nearest, unwrap-wrap}

-- A writer that overruns a capacity of 3, and a reader in between.
abbrev history : List Op
history = writes (1 ∷ 2 ∷ 3 ∷ 4 ∷ []) ∷ reads 2 ∷ writes (5 ∷ 6 ∷ 7 ∷ []) ∷ []

abbrev small : ByteStream
small = ByteStream.init 3

small-IsValid : IsValid small
small-IsValid = init-IsValid 3 (ground arith)

run_refines_example : (run small history).0 ++ (run small history).1.buffer ≡ 1 ∷ 2 ∷ 3 ∷ 5 ∷ 6 ∷ []
unfolding run accepted ByteStream.init
run_refines_example = run_refines history small

-- One byte is popped alone.
abbrev popping : List Op
popping = writes (1 ∷ 2 ∷ 3 ∷ 4 ∷ []) ∷ pops 1 ∷ reads 1 ∷ closes ∷ []

run-IsValid_example :
    IsValid (run small popping).1
    × ((run small popping).1.capacity ≡ 3)
    × ((run small popping).1.total_popped ≡ add64 0 (length (run small popping).0))
unfolding step ByteStream.init push
run-IsValid_example = run-IsValid popping (ground arith, tt) small-IsValid

-- Two bytes, and no more will come.
abbrev ended : ByteStream
ended = close (push (8 ∷ 9 ∷ []) small)

ended-IsValid : IsValid ended
ended-IsValid = close-IsValid (push-IsValid (8 ∷ 9 ∷ []) small-IsValid)

read_example : read ended 1 ≡ ok (take 1 ended.buffer, pop (length (take 1 ended.buffer)) ended)
read_example = read_lem 1 (ground arith) ended-IsValid

-- The stream whose byte at index `i` is `i % 256`, in pieces that overlap and come in disorder.
abbrev counting : ℕ → ℕ
counting i = i % 256

abbrev head : Piece
head = record { first = 0; size = 3; is_last = false }

abbrev tail : Piece
tail = record { first = 2; size = 3; is_last = true }

insert_example : Inserted counting tail (fresh 8) (insert_piece counting tail (fresh 8))
insert_example =
    insert-Inserted counting tail (fresh 8) (ground arith) (fresh-Holds counting 8 (ground arith))

abbrev events : List Event
events = arrives tail ∷ arrives head ∷ fetches 2 ∷ arrives tail ∷ []

delivered_example :
    let (got, r) = run_events counting events (fresh 8) in
    (got ++ r.output.buffer ≡ slice counting 0 r.output.total_pushed)
    × (count_bytes_pending r + length r.output.buffer ≤ 8)
unfolding reading
delivered_example =
    delivered_in_order counting 8 events (ground arith, (ground arith, (tt, (ground arith, tt))))
      (ground arith)

events-Covered : (j : ℕ) → j < 5 → Covered j events
events-Covered j lt = ground arith

nothing_lost_example :
    let (got, r) = run_events counting events (fresh 8) in
    (5 ≤ r.output.total_pushed) × (take 5 (got ++ r.output.buffer) ≡ 0 ∷ 1 ∷ 2 ∷ 3 ∷ 4 ∷ [])
unfolding reading slice
nothing_lost_example =
    nothing_lost counting 8 5 events (ground arith, (ground arith, (tt, (ground arith, tt))))
      (ground arith) (ground arith) events-Covered

unwrap-wrap_example :
    unwrap
      (wrap (2 ^ 32 + 5) (record { raw_value = 4294967290 }))
      (record { raw_value = 4294967290 })
      (2 ^ 32)
    ≡ 2 ^ 32 + 5
unwrap-wrap_example =
    unwrap-wrap (2 ^ 32 + 5) (record { raw_value = 4294967290 }) (2 ^ 32) (ground arith)
      (ground arith) (ground arith) (ground arith)

unwrap_nearest_example :
    let zero_point : Wrap32 = record { raw_value = 4294967290 } in
    let n = unwrap (wrap 7 zero_point) zero_point (2 ^ 33) in
    (n < u64_mod) × (wrap n zero_point ≡ wrap 7 zero_point) × (gap n (2 ^ 33) ≤ gap 7 (2 ^ 33))
unwrap_nearest_example =
    unwrap_nearest 7 (record { raw_value = 4294967290 }) (2 ^ 33) (ground arith) (ground arith)
      (ground arith)
