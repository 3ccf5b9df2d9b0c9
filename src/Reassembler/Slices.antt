-- ===== src/Reassembler/Slices.antt =====
-- Pieces of a stream that is given as a function from indices to bytes.
use internet.Prelude.{
  ℕ, zero, suc, ◌+◌, ◌-◌, ◌≤◌, ◌≡◌, refl, ap, ◌∙◌, [], ◌∷◌, ◌++◌, arith, length, take, drop, Bytes,
}

-- The `n` bytes from index `i` on.
unfoldable pub slice : (ℕ → ℕ) → ℕ → ℕ → Bytes
slice stream i zero = []
slice stream i (suc n) = stream i ∷ slice stream (suc i) n

pub length-slice : (stream : ℕ → ℕ) (i n : ℕ) → length (slice stream i n) ≡ n
unfolding slice
length-slice stream i zero = refl
length-slice stream i (suc n) = ap suc (length-slice stream (suc i) n)

pub slice-snoc :
    (stream : ℕ → ℕ) (i n : ℕ) → slice stream i n ++ stream (i + n) ∷ [] ≡ slice stream i (suc n)
unfolding slice
slice-snoc stream i zero = ap (λ k. stream k ∷ []) (omega arith)
slice-snoc stream i (suc n) =
    ap (◌∷◌ (stream i)) (
      ap (λ k. slice stream (suc i) n ++ stream k ∷ []) (omega arith) ∙ slice-snoc stream (suc i) n)

pub slice-append :
    (stream : ℕ → ℕ) (i m n : ℕ)
    → slice stream i m ++ slice stream (i + m) n ≡ slice stream i (m + n)
unfolding slice
slice-append stream i zero n =
    ap (λ k. slice stream k n) (omega arith) ∙ ap (slice stream i) (omega arith)
slice-append stream i (suc m) n =
    ap (◌∷◌ (stream i)) (
      ap (λ k. slice stream (suc i) m ++ slice stream k n) (omega arith)
      ∙ slice-append stream (suc i) m n)
    ∙ ap (slice stream i) (add_suc_lem m n)
  where
    add_suc_lem : (m n : ℕ) → suc (m + n) ≡ suc m + n
    add_suc_lem m n = omega arith

pub drop-slice :
    (stream : ℕ → ℕ) (i n k : ℕ) → k ≤ n → drop k (slice stream i n) ≡ slice stream (i + k) (n - k)
unfolding slice
drop-slice stream i n zero h =
    ap (λ j. slice stream j n) (omega arith) ∙ ap (slice stream (i + 0)) (omega arith)
drop-slice stream i zero (suc k) h = absurd (omega arith)
drop-slice stream i (suc n) (suc k) h =
    drop-slice stream (suc i) n k (omega arith)
    ∙ ap (λ j. slice stream j (n - k)) (omega arith)
    ∙ ap (slice stream (i + suc k)) (omega arith)

pub take-slice : (stream : ℕ → ℕ) (i n k : ℕ) → k ≤ n → take k (slice stream i n) ≡ slice stream i k
unfolding slice
take-slice stream i n zero h = refl
take-slice stream i zero (suc k) h = absurd (omega arith)
take-slice stream i (suc n) (suc k) h =
    ap (◌∷◌ (stream i)) (take-slice stream (suc i) n k (omega arith))
