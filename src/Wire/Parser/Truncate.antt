-- ===== src/Wire/Parser/Truncate.antt =====
-- What `truncate` leaves of the buffers.
use internet.Prelude.{
  ℕ, zero, suc, ◌+◌, ◌-◌, ◌≤◌, ◌<◌, ◌≡◌, refl, sym, ap, ◌∙◌, true, List, [], ◌∷◌, ◌++◌, append-nil,
  arith, ltb, leb, ◌==◌, ltb→lt, leb→le, ==_iff, if_elim, length, take, length-append, take_all,
  take-append_left, Bytes, u64_mod, add64, sub64,
}
use internet.Wire.Parser.{BufferList, total_size, flatten, cut, truncate, of_buffers}

take-append_right :
    (n : ℕ) (b xs : Bytes) → length b ≤ n → take n (b ++ xs) ≡ b ++ take (n - length b) xs
take-append_right n [] xs h = ap (λ k. take k xs) (omega arith)
take-append_right zero (x ∷ b) xs h = absurd (omega arith)
take-append_right (suc n) (x ∷ b) xs h =
    ap (◌∷◌ x) (take-append_right n b xs (omega arith) ∙ ap (λ k. b ++ take k xs) (omega arith))

-- The loops keep the first `len` bytes of all the buffers.
cut_lem :
    (bs : List Bytes) (so_far len : ℕ)
    → so_far < len
    → len < u64_mod
    → so_far + total_size bs < u64_mod
    → flatten (cut so_far len bs) ≡ take (len - so_far) (flatten bs)
unfolding cut
cut_lem [] so_far len lt small fits = sym (take_all (len - so_far) [] (omega arith))
cut_lem (b ∷ bs) so_far len lt small fits =
    let sum : add64 so_far (length b) ≡ so_far + length b = omega arith in
    rw sum (
      if_elim (λ kept. flatten kept ≡ take (len - so_far) (b ++ flatten bs))
        (ltb (so_far + length b) len) _ _
        (λ h.
          ap (λ rest. b ++ rest)
            (cut_lem bs (so_far + length b) len (omega (arith, ltb→lt _ _ h)) small (omega arith))
          ∙ whole h)
        λ h.
          if_elim (λ kept. flatten kept ≡ take (len - so_far) (b ++ flatten bs))
            (so_far + length b == len) _ _ (λ e. exact (ground (arith, e)))
            λ e. part (ground (arith, h, e)))
  where
    whole :
        ltb (so_far + length b) len ≡ true
        → b ++ take (len - (so_far + length b)) (flatten bs) ≡ take (len - so_far) (b ++ flatten bs)
    whole h =
        ap (λ k. b ++ take k (flatten bs)) (omega arith)
        ∙ sym (take-append_right (len - so_far) b (flatten bs) (omega (arith, ltb→lt _ _ h)))

    exact : so_far + length b ≡ len → flatten (b ∷ []) ≡ take (len - so_far) (b ++ flatten bs)
    exact e =
        append-nil b
        ∙ sym (take_all (len - so_far) b (omega arith))
        ∙ sym (take-append_left (len - so_far) b (flatten bs) (omega arith))

    part :
        len < so_far + length b
        → flatten (take (sub64 len so_far) b ∷ []) ≡ take (len - so_far) (b ++ flatten bs)
    part l =
        append-nil (take (sub64 len so_far) b)
        ∙ ap (λ k. take k b) (omega arith)
        ∙ sym (take-append_left (len - so_far) b (flatten bs) (omega arith))

length-flatten : (bs : List Bytes) → length (flatten bs) ≡ total_size bs
length-flatten [] = refl
length-flatten (b ∷ bs) = omega (arith, length-append b (flatten bs), length-flatten bs)

-- Before anything is consumed, `truncate` keeps the first `len` bytes of buffers whose sizes add
-- up to less than 2^64.
truncate_fresh :
    (bs : List Bytes) (len : ℕ)
    → total_size bs < u64_mod
    → flatten (truncate len (of_buffers bs)).buffer ≡ take len (flatten bs)
unfolding truncate of_buffers
truncate_fresh bs len fits =
    if_elim (λ (l : BufferList). flatten l.buffer ≡ take len (flatten bs)) (leb (total_size bs) len)
      _ _ (λ h. sym (take_all len (flatten bs) (omega (arith, leb→le _ _ h, length-flatten bs))))
      λ h.
        if_elim (λ (l : BufferList). flatten l.buffer ≡ take len (flatten bs)) (len == 0) _ _
          (λ e. ap (λ k. take k (flatten bs)) (sym ((==_iff len 0).0 e)))
          λ e.
            cut_lem bs 0 len (ground (arith, e)) (ground (arith, h)) (omega arith)
            ∙ ap (λ k. take k (flatten bs)) (omega arith)
