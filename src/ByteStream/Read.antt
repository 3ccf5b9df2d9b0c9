-- ===== src/ByteStream/Read.antt =====
-- The helper `read` of src/byte_stream_helpers.cc on a valid stream.
use internet.Prelude.{
  ℕ, zero, suc, ◌<◌, ◌≡◌, refl, ◌⊎◌, [], ◌∷◌, arith, ◌==◌, length, take, length-take, length-drop,
  Bytes, u64_mod, ok,
}
use internet.ByteStream.{ByteStream, pop, is_empty, read}
use internet.ByteStream.Invariant.{IsValid, pop-IsValid, available_capacity_lem}

is_empty-length : (bs : Bytes) → is_empty bs ≡ (length bs == 0)
is_empty-length [] = refl
is_empty-length (b ∷ bs) = ground arith

pop-zero : {s : ByteStream} → IsValid s → pop 0 s ≡ s
unfolding pop
pop-zero v = ground arith

take-nil : (n : ℕ) (bs : Bytes) → (n ≡ 0) ⊎ (length bs ≡ 0) → take n bs ≡ []
take-nil zero bs h = refl
take-nil (suc n) [] h = refl
take-nil (suc n) (b ∷ bs) h = absurd (omega arith)

-- On a valid stream and for a 64-bit `max_len`, `read` returns the first `max_len` bytes, or all of
-- them if there are fewer, and pops exactly those: it neither throws nor runs on.
pub read_lem :
    {s : ByteStream} (max_len : ℕ)
    → max_len < u64_mod
    → IsValid s
    → read s max_len ≡ ok (take max_len s.buffer, pop (length (take max_len s.buffer)) s)
unfolding read
read_lem {s} max_len h v = ground (
  arith,
  available_capacity_lem v,
  available_capacity_lem (
      pop-IsValid (length (take max_len s.buffer)) (omega (arith, length-take max_len s.buffer)) v),
  length-take max_len s.buffer,
  length-drop (length (take max_len s.buffer)) s.buffer,
  is_empty-length s.buffer,
  pop-zero v,
  take-nil max_len s.buffer,
)
