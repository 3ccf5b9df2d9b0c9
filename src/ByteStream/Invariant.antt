-- ===== src/ByteStream/Invariant.antt =====
-- The representation invariant of a stream, and what the accessors return under it.
use internet.Prelude.{
  ℕ, ◌-◌, ◌≤◌, ◌<◌, ◌≡◌, ◌↔◌, refl, true, [], ◌∷◌, Bytes, length, length-append, length-drop, arith,
  u64_mod, add64,
}
use internet.ByteStream.{
  ByteStream, init, set_error, push_byte, push, close, pop, available_capacity, bytes_buffered,
  is_finished,
}

-- The counters are 64 bits wide and may wrap; their difference is what is held.
pub record IsValid (s : ByteStream) : Type 0 where
  pub width : s.capacity < u64_mod
  pub bounded : length s.buffer ≤ s.capacity
  pub pushed_width : s.total_pushed < u64_mod
  pub popped_width : s.total_popped < u64_mod
  pub counted : add64 s.total_popped (length s.buffer) ≡ s.total_pushed

pub init-IsValid : (capacity : ℕ) → capacity < u64_mod → IsValid (init capacity)
unfolding init
init-IsValid capacity h = omega arith

pub set_error-IsValid : {s : ByteStream} → IsValid s → IsValid (set_error s)
unfolding set_error
set_error-IsValid v = ground arith

pub close-IsValid : {s : ByteStream} → IsValid s → IsValid (close s)
unfolding close
close-IsValid v = ground arith

pub push_byte-IsValid :
    (b : ℕ) {s : ByteStream} → length s.buffer < s.capacity → IsValid s → IsValid (push_byte b s)
unfolding push_byte
push_byte-IsValid b {s} h v = ground (arith, length-append s.buffer (b ∷ []))

-- `Writer::push` keeps the invariant, whatever the length of the data.
pub push-IsValid : (bs : Bytes) {s : ByteStream} → IsValid s → IsValid (push bs s)
unfolding push
push-IsValid [] v = v
push-IsValid (b ∷ bs) {s} v =
    ground (arith, λ (h : length s.buffer < s.capacity). push-IsValid bs (push_byte-IsValid b h v))

pub pop-IsValid : (n : ℕ) {s : ByteStream} → n ≤ length s.buffer → IsValid s → IsValid (pop n s)
unfolding pop
pop-IsValid n {s} h v = ground (arith, length-drop n s.buffer)

-- Of a valid stream, the capacity that is left is what the bytes held leave of the capacity, and
-- the counters tell how many are held.
pub available_capacity_lem :
    {s : ByteStream}
    → IsValid s
    → (available_capacity s ≡ s.capacity - length s.buffer) × (bytes_buffered s ≡ length s.buffer)
unfolding available_capacity bytes_buffered
available_capacity_lem v = omega arith

pub nil_of_length : (bs : Bytes) → length bs ≡ 0 → bs ≡ []
nil_of_length [] h = refl
nil_of_length (b ∷ bs) h = absurd (omega arith)

-- Of a valid stream `is_finished` says that it is closed and nothing is left to read.
pub is_finished_iff :
    {s : ByteStream}
    → IsValid s
    → (is_finished s ≡ true) ↔ ((s.stream_closed ≡ true) × (s.buffer ≡ []))
unfolding is_finished
is_finished_iff {s} v =
    ((λ h. (ground arith, nil_of_length s.buffer (ground arith))), (λ h. ground arith))
