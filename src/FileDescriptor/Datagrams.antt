-- ===== src/FileDescriptor/Datagrams.antt =====
-- The buffers of a datagram, whose sizes are written, and into which it is read.
use internet.Prelude.{
  ℕ, ◌≤◌, ◌<◌, ◌≡◌, refl, sym, ap, ◌∙◌, true, List, [], ◌∷◌, ◌++◌, map, arith, leb, if_elim, length,
  take, drop, All, length-append, take_all, take-append_left, Bytes, u64_mod, ok,
}
use internet.FileDescriptor.{to_iovecs, resize_buffers}
use internet.FileDescriptor.Transfers.{sum, to_iovecs_lem}
use internet.Wire.Parser.{total_size}

pub drop-append : (xs ys : Bytes) → drop (length xs) (xs ++ ys) ≡ ys
drop-append [] ys = refl
drop-append (x ∷ xs) ys = drop-append xs ys

pub resize_buffers-append :
    (b bs : Bytes) (n : ℕ) (ns : List ℕ)
    → length b ≡ n
    → resize_buffers (n ∷ ns) (b ++ bs) ≡ b ∷ resize_buffers ns bs
unfolding resize_buffers
resize_buffers-append b bs n ns e =
    let fits : leb n (length (b ++ bs)) ≡ true = ground (arith, length-append b bs) in
    let kept : take n (b ++ bs) ≡ b =
      take-append_left n b bs (omega arith) ∙ take_all n b (omega arith) in
    let left : drop n (b ++ bs) ≡ bs = ap (λ k. drop k (b ++ bs)) (sym e) ∙ drop-append b bs in
    rw (fits, kept, left) refl

pub resize_buffers_last : (b : Bytes) (n : ℕ) → length b ≤ n → resize_buffers (n ∷ []) b ≡ b ∷ []
unfolding resize_buffers
resize_buffers_last b n le =
    if_elim (λ (out : List Bytes). out ≡ b ∷ []) (leb n (length b)) _ _
      (λ _. ap (λ x. x ∷ []) (take_all n b le)) λ _. refl

pub sum-map : (bs : List Bytes) → sum (map length bs) ≡ total_size bs
sum-map [] = refl
sum-map (b ∷ bs) = omega (arith, sum-map bs)

pub map-All : (bs : List Bytes) → All (λ b. 0 < length b) bs → All (λ n. 0 < n) (map length bs)
map-All [] h = tt
map-All (b ∷ bs) (pos, h) = (pos, map-All bs h)

-- `to_iovecs` of buffers, none of them empty.
pub to_iovecs-map :
    (b : Bytes) (bs : List Bytes)
    → All (λ b. 0 < length b) (b ∷ bs)
    → total_size (b ∷ bs) < u64_mod
    → to_iovecs (map length (b ∷ bs)) ≡ ok (total_size (b ∷ bs))
to_iovecs-map b bs nonempty fits =
    let same = sum-map (b ∷ bs) in
    to_iovecs_lem (length b) (map length bs) (map-All (b ∷ bs) nonempty) (omega (arith, same))
    ∙ ap ok same
