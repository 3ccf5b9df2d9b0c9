-- ===== src/Reassembler/Stream.antt =====
-- The invariant of a reassembler that is fed pieces of one stream, through both loops of `insert`.
use mathlib.Core.Path.{ap₂}
use internet.Prelude.{
  ℕ, zero, suc, ◌+◌, ◌≤◌, ◌<◌, ◌≡◌, refl, sym, ap, subst, ◌∙◌, ◌≢◌, ◌⊎◌, inl, inr, none, some, [],
  ◌∷◌, ◌++◌, arith, Option-cases, length, All, length-append, Bytes, u64_mod, add64,
}
use internet.Map.{
  Map, lookup, insert as map_insert, erase, Distinct, insert-Distinct, erase-Distinct, All-insert,
  All-erase, All-lookup, Within, Within-insert, Within-erase_first, Within-lookup, lookup-insert,
  lookup-erase, length-erase_lt,
}
use internet.ByteStream.{ByteStream, push, push_byte}
use internet.ByteStream.Invariant.{IsValid, push_byte-IsValid}
use internet.Reassembler.{store, assemble}
use internet.Reassembler.Slices.{slice, slice-snoc}

-- The bytes of the table are those of the stream.
abbrev pub Agrees : (ℕ → ℕ) → Map ℕ → Type 0
Agrees stream = All (λ e. e.1 ≡ stream e.0)

-- The output holds the stream's bytes from `total_popped` to `total_pushed`, and the table some of
-- those that follow, up to the capacity.
pub record Holds (stream : ℕ → ℕ) (output : ByteStream) (m : Map ℕ) : Type 0 where
  pub valid : IsValid output
  pub fits : output.total_popped + output.capacity < u64_mod
  pub bytes : output.buffer ≡ slice stream output.total_popped (length output.buffer)
  pub agrees : Agrees stream m
  pub distinct : Distinct m
  pub within : Within output.total_pushed (output.total_popped + output.capacity) m

-- Under the invariant no index wraps.
pub total_pushed_lem :
    {stream : ℕ → ℕ} {output : ByteStream} {m : Map ℕ}
    → Holds stream output m
    → output.total_popped + length output.buffer ≡ output.total_pushed
total_pushed_lem h = omega (arith, h.valid.counted, h.valid.bounded, h.fits)

push_one : (c : ℕ) (s : ByteStream) → length s.buffer < s.capacity → push (c ∷ []) s ≡ push_byte c s
unfolding push
push_one c s h = ground arith

-- SECTION 1 keeps the table within its range and in agreement with the stream.
pub store-Agrees :
    (stream : ℕ → ℕ) (needed limit i : ℕ) (n : ℕ) (m : Map ℕ)
    → i + n < u64_mod
    → Agrees stream m
    → Agrees stream (store needed limit i (slice stream i n) m)
unfolding store slice
store-Agrees stream needed limit i zero m w a = a
store-Agrees stream needed limit i (suc n) m w a = rw (← succ_index) (
    ground (
      arith,
      store-Agrees stream needed limit (suc i) n (map_insert i (stream i) m) (omega arith)
          (All-insert (λ e. e.1 ≡ stream e.0) i (stream i) m refl a),
      store-Agrees stream needed limit (suc i) n m (omega arith) a,
    ))
  where
    succ_index : suc i ≡ add64 i 1
    succ_index = omega arith

pub store-Distinct :
    (needed limit i : ℕ) (bs : Bytes) (m : Map ℕ)
    → Distinct m
    → Distinct (store needed limit i bs m)
unfolding store
store-Distinct needed limit i [] m d = d
store-Distinct needed limit i (c ∷ bs) m d = ground (
  arith,
  store-Distinct needed limit (add64 i 1) bs (map_insert i c m) (insert-Distinct i c m d),
  store-Distinct needed limit (add64 i 1) bs m d,
)

pub store-Within :
    (needed limit i : ℕ) (bs : Bytes) (m : Map ℕ)
    → Within needed limit m
    → Within needed limit (store needed limit i bs m)
unfolding store
store-Within needed limit i [] m d = d
store-Within needed limit i (c ∷ bs) m d = ground (
  arith,
  store-Within needed limit (add64 i 1) bs (map_insert i c m),
  Within-insert needed limit i c m,
  store-Within needed limit (add64 i 1) bs m d,
)

-- An index is known when its byte has been pushed or is stored.
abbrev pub Known : ℕ → ℕ → Map ℕ → Type 0
Known j pushed m = (j < pushed) ⊎ (lookup j m ≢ none)

-- SECTION 1 forgets nothing,
pub store_keeps :
    (needed limit i : ℕ) (bs : Bytes) (m : Map ℕ) (j : ℕ)
    → lookup j m ≢ none
    → lookup j (store needed limit i bs m) ≢ none
unfolding store
store_keeps needed limit i [] m j h = h
store_keeps needed limit i (c ∷ bs) m j h = ground (
  arith,
  store_keeps needed limit (add64 i 1) bs (map_insert i c m) j,
  lookup-insert i j c m,
  store_keeps needed limit (add64 i 1) bs m j,
)

-- and learns every byte of the data that lies in the window.
pub store_learns :
    (needed limit i : ℕ) (bs : Bytes) (m : Map ℕ) (j : ℕ)
    → i + length bs < u64_mod
    → i ≤ j
    → j < i + length bs
    → needed ≤ j
    → j < limit
    → lookup j (store needed limit i bs m) ≢ none
unfolding store
store_learns needed limit i [] m j w lo hi n l = absurd (omega arith)
store_learns needed limit i (c ∷ bs) m j w lo hi n l = ground (
  arith,
  store_learns needed limit (add64 i 1) bs (map_insert i c m) j,
  store_keeps needed limit (add64 i 1) bs (map_insert i c m) j,
  lookup-insert i j c m,
  store_learns needed limit (add64 i 1) bs m j,
)

-- One round of SECTION 2.
round-Holds :
    {stream : ℕ → ℕ} {output : ByteStream} {m : Map ℕ} {c : ℕ}
    → Holds stream output m
    → lookup output.total_pushed m ≡ some c
    → (push (c ∷ []) output ≡ push_byte c output)
      × (add64 output.total_pushed 1 ≡ suc output.total_pushed)
      × Holds stream (push_byte c output) (erase output.total_pushed m)
unfolding push_byte
round-Holds {stream} {output} {m} {c} h e = (
  push_one c output room,
  next,
  record {
    valid = push_byte-IsValid c room h.valid;
    fits = h.fits;
    bytes =
        ap₂ (λ bs b. bs ++ b ∷ []) h.bytes here
        ∙ slice-snoc stream output.total_popped (length output.buffer)
        ∙ ap (slice stream output.total_popped)
            (omega (arith, length-append output.buffer (c ∷ [])));
    agrees = All-erase (λ e. e.1 ≡ stream e.0) output.total_pushed m h.agrees;
    distinct = erase-Distinct output.total_pushed m h.distinct;
    within =
        subst (λ k. Within k (output.total_popped + output.capacity) (erase output.total_pushed m))
          (sym next)
          (Within-erase_first output.total_pushed (output.total_popped + output.capacity) m
            h.within);
  },
)
  where
    place : output.total_popped + length output.buffer ≡ output.total_pushed
    place = total_pushed_lem h

    bound :
        (output.total_pushed ≤ output.total_pushed)
        × (output.total_pushed < output.total_popped + output.capacity)
    bound =
        Within-lookup output.total_pushed (output.total_popped + output.capacity)
          output.total_pushed m h.within e

    room : length output.buffer < output.capacity
    room = omega (arith, place, bound)

    next : add64 output.total_pushed 1 ≡ suc output.total_pushed
    next = omega (arith, place, bound, h.fits)

    here : c ≡ stream (output.total_popped + length output.buffer)
    here =
        All-lookup (λ e. e.1 ≡ stream e.0) output.total_pushed m h.agrees e ∙ ap stream (sym place)

-- What SECTION 2 has done when it stops.
pub record Assembled (stream : ℕ → ℕ) (output : ByteStream) (m : Map ℕ)
    (out : ℕ × ByteStream × Map ℕ) : Type 0 where
  pub holds : Holds stream out.1 out.2
  pub index : out.0 ≡ out.1.total_pushed
  pub stopped : lookup out.0 out.2 ≡ none
  pub same_capacity : out.1.capacity ≡ output.capacity
  pub same_popped : out.1.total_popped ≡ output.total_popped
  pub same_closed : out.1.stream_closed ≡ output.stream_closed
  pub same_error : out.1.has_error ≡ output.has_error
  pub keeps : (j : ℕ) → Known j output.total_pushed m → Known j out.1.total_pushed out.2

round_keeps : (j n : ℕ) (m : Map ℕ) → Known j n m → Known j (suc n) (erase n m)
round_keeps j n m k = ground (arith, lookup-erase n j m)

Assembled-step :
    {stream : ℕ → ℕ} {output : ByteStream} (m : Map ℕ) (c : ℕ) {out : ℕ × ByteStream × Map ℕ}
    → add64 output.total_pushed 1 ≡ suc output.total_pushed
    → Assembled stream (push_byte c output) (erase output.total_pushed m) out
    → Assembled stream output m out
unfolding push_byte
Assembled-step {stream} {output} m c {out} next a = record {
  holds = a.holds;
  index = a.index;
  stopped = a.stopped;
  same_capacity = a.same_capacity;
  same_popped = a.same_popped;
  same_closed = a.same_closed;
  same_error = a.same_error;
  keeps = λ j k. a.keeps j (
      subst (λ n. Known j n (erase output.total_pushed m)) (sym next)
        (round_keeps j output.total_pushed m k));
}

-- With a round for each entry and one more, the loop ends by its test; it keeps the invariant, and
-- forgets nothing.
pub assemble_stops :
    (fuel : ℕ) {stream : ℕ → ℕ} {output : ByteStream} {m : Map ℕ}
    → length m < fuel
    → Holds stream output m
    → Assembled stream output m (assemble fuel output.total_pushed output m)
unfolding assemble push_byte
assemble_stops zero l h = absurd (omega arith)
assemble_stops (suc fuel) {stream} {output} {m} l h =
    elim (Option-cases (lookup output.total_pushed m)) [
      | inl e ↦
          rw (e, assemble)
            (record {
              holds = h;
              index = refl;
              stopped = e;
              same_capacity = refl;
              same_popped = refl;
              same_closed = refl;
              same_error = refl;
              keeps = λ j k. k;
            })
      | inr (c, e) ↦
          rw (e, assemble, (round-Holds h e).0)
            (Assembled-step m c (round-Holds h e).1 (
              assemble_stops fuel (omega (arith, length-erase_lt output.total_pushed m e))
                (round-Holds h e).2))
    ]
