-- ===== src/Reassembler/Bounds.antt =====
-- Which indices a reassembler can hold: those that pieces have brought.
use internet.Prelude.{
  ℕ, zero, suc, ◌+◌, ◌≤◌, ◌<◌, ◌≡◌, sym, subst, ◌⊎◌, inl, inr, [], ◌∷◌, arith, ltb, leb, ◌==◌,
  if◌then◌else◌, Option-cases, if_elim, length, All, Bytes, u64_mod, add64,
}
use internet.Map.{Map, lookup, erase, All-insert, All-erase, All-lookup}
use internet.ByteStream.{ByteStream, close}
use internet.ByteStream.Invariant.{nil_of_length}
use internet.Reassembler.{Reassembler, store, assemble, flush}
use internet.Reassembler.Slices.{slice, length-slice}
use internet.Reassembler.Stream.{Holds, Assembled, assemble_stops}
use internet.Reassembler.Insert.{
  Piece, insert_piece, HoldsAll, stored, last, limit, insert_piece-eq, stored-Holds,
}

-- Every index that has been pushed or is stored is less than `n`.
abbrev pub Bounded : ℕ → ℕ → Map ℕ → Type 0
Bounded n pushed m = (pushed ≤ n) × All (λ e. e.0 < n) m

store-Bounded :
    (n needed limit i : ℕ) (bs : Bytes) (m : Map ℕ)
    → i + length bs ≤ n
    → n < u64_mod
    → All (λ e. e.0 < n) m
    → All (λ e. e.0 < n) (store needed limit i bs m)
unfolding store
store-Bounded n needed limit i [] m h w a = a
store-Bounded n needed limit i (c ∷ bs) m h w a =
    if_elim (All (λ e. e.0 < n)) (leb limit i) _ _ (λ _. a)
      λ _. store-Bounded n needed limit (add64 i 1) bs _ (omega arith) w (
        if_elim (All (λ e. e.0 < n)) (ltb i needed) _ _ (λ _. a)
          λ _. All-insert (λ e. e.0 < n) i c m (omega arith) a)

assemble-Bounded :
    (fuel n needed : ℕ) (output : ByteStream) (m : Map ℕ)
    → Bounded n needed m
    → Bounded n (assemble fuel needed output m).0 (assemble fuel needed output m).2
unfolding assemble
assemble-Bounded zero n needed output m b = b
assemble-Bounded (suc fuel) n needed output m b = elim (Option-cases (lookup needed m)) [
  | inl e ↦ rw (e, assemble) b
  | inr (c, e) ↦
      rw (e, assemble)
        (assemble-Bounded fuel n (add64 needed 1) _ (erase needed m) (
          omega (arith, All-lookup (λ e. e.0 < n) needed m b.1 e),
          All-erase (λ e. e.0 < n) needed m b.1,
        ))
]

flush-Bounded :
    (stream : ℕ → ℕ) (n eos : ℕ) (output : ByteStream) (m : Map ℕ)
    → Holds stream output m
    → Bounded n output.total_pushed m
    → let r = flush output.total_pushed output m eos in
      Bounded n r.output.total_pushed r.unassembled
unfolding flush close
flush-Bounded stream n eos output m h b =
    finish (assemble (suc (length m)) output.total_pushed output m)
      (assemble_stops (suc (length m)) (omega arith) h)
      (assemble-Bounded (suc (length m)) n output.total_pushed output m b)
  where
    finish :
        (out : ℕ × ByteStream × Map ℕ)
        → Assembled stream output m out
        → Bounded n out.0 out.2
        → Bounded n (if out.0 == eos then close out.1 else out.1).total_pushed out.2
    finish out a c =
        if_elim (λ (o : ByteStream). Bounded n o.total_pushed out.2) (out.0 == eos) _ _
          (λ _. (omega (arith, a.index, c.0), c.1)) λ _. (omega (arith, a.index, c.0), c.1)

-- A piece of the stream's first `n` bytes, or an empty one, brings no index from `n` on.
pub insert_piece-Bounded :
    (stream : ℕ → ℕ) (n : ℕ) (p : Piece) (r : Reassembler)
    → (p.size ≡ 0) ⊎ (p.first + p.size ≤ n)
    → p.first + p.size < u64_mod
    → n < u64_mod
    → HoldsAll stream r
    → Bounded n r.output.total_pushed r.unassembled
    → Bounded n (insert_piece stream p r).output.total_pushed (insert_piece stream p r).unassembled
unfolding store
insert_piece-Bounded stream n p r h range w holds b = rw (insert_piece-eq stream p r range holds) (
    flush-Bounded stream n (last stream p r) r.output (stored stream p r)
      (stored-Holds stream p r range holds) (b.0, table h))
  where
    table : (p.size ≡ 0) ⊎ (p.first + p.size ≤ n) → All (λ e. e.0 < n) (stored stream p r)
    table (inr h) =
        store-Bounded n r.output.total_pushed _ p.first (slice stream p.first p.size) r.unassembled
          (omega (arith, length-slice stream p.first p.size)) w b.1
    table (inl e) =
        subst
          (λ bs.
            All (λ e. e.0 < n) (store r.output.total_pushed (limit r) p.first bs r.unassembled))
          (sym (
            nil_of_length (slice stream p.first p.size)
              (omega (arith, length-slice stream p.first p.size))))
          b.1
