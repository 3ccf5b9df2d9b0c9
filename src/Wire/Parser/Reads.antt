-- ===== src/Wire/Parser/Reads.antt =====
-- What the parser reads from the bytes that are left of its first buffer.
use internet.Prelude.{
  ℕ, zero, suc, ◌+◌, ◌-◌, ◌*◌, ◌/◌, ◌%◌, ◌^◌, ◌≤◌, ◌<◌, min, ◌≡◌, refl, sym, ap, subst, ◌∙◌, ◌⊎◌,
  inl, inr, true, false, List, [], ◌∷◌, ◌++◌, append-nil, arith, ltb, leb, ◌==◌, ==_iff, if_elim,
  length, drop, All, length-append, length-drop, Bytes, u64_mod, add64, sub64, Exec, ok, ◌>>=◌,
  Ensures, Ensures-bind, Ensures-to_ok,
}
use internet.Wire.Parser
use internet.Wire.Parser.{
  BufferList, Parser, total_size, remove_prefix, remove_from, substr, peek, peek_at, front,
  next_byte, next_bytes, check_size, of_buffers, of_input, dump_all, views, all_remaining,
  skip_bytes, truncate, truncate_input, concatenate_all_remaining, flatten,
}
use internet.Wire.Serializer.{big_endian}
use mathlib.Core.Path.{ap₂}
use native.Mathlib.Nat.{
  div-le_self, pow-suc, div-div-eq-div-mul, div-eq_of_lt, div-one, mod-eq_of_lt,
}

-- After `skip` bytes of the first buffer, `bs` are left of it, and the buffers `others` follow. A
-- buffer that is used up has been removed.
abbrev pub Left : List Bytes → ℕ → Bytes → List Bytes → Type 0
Left buffers skip bs others =
    ((bs ≡ []) × (buffers ≡ others) × (skip ≡ 0))
    ⊎ ((first : Bytes) × (buffers ≡ first ∷ others)
        × (drop skip first ≡ bs)
        × (skip < length first)
        × (length first < u64_mod))

pub record Shows (l : BufferList) (bs : Bytes) (others : List Bytes) : Type 0 where
  pub left : Left l.buffer l.skip bs others
  pub total : l.size ≡ length bs + total_size others
  pub fits : l.size < u64_mod

pub record Reads (p : Parser) (bs : Bytes) (others : List Bytes) : Type 0 where
  pub shows : Shows p.input bs others
  pub fine : p.has_error ≡ false

drop-suc : (n : ℕ) (xs : Bytes) (b : ℕ) (bs : Bytes) → drop n xs ≡ b ∷ bs → drop (suc n) xs ≡ bs
drop-suc zero [] b bs e = cc
drop-suc zero (x ∷ xs) b bs e = cc
drop-suc (suc n) [] b bs e = cc
drop-suc (suc n) (x ∷ xs) b bs e = drop-suc n xs b bs e

length-zero : (bs : Bytes) → length bs ≡ 0 → bs ≡ []
length-zero [] e = refl
length-zero (b ∷ bs) e = absurd (omega arith)

remove_none :
    (bs : List Bytes) (size : ℕ)
    → remove_from bs 0 size 0 ≡ ok (record { size = size; buffer = bs; skip = 0 })
unfolding remove_from
remove_none [] size = refl
remove_none (b ∷ bs) size = refl

-- The next byte, when some of the first buffer is left.
next_byte_at :
    (first : Bytes) (others : List Bytes) (size skip : ℕ) (b : ℕ) (bs : Bytes)
    → drop skip first ≡ b ∷ bs
    → skip < length first
    → length first < u64_mod
    → size ≡ length (b ∷ bs) + total_size others
    → size < u64_mod
    → Ensures
        (λ (x, l). (x ≡ b) × Shows l bs others)
        (next_byte (record { size = size; buffer = first ∷ others; skip = skip }))
unfolding next_byte peek peek_at substr front remove_prefix remove_from
next_byte_at first others size skip b bs e lt width total fits =
    let inside : ltb (length first) skip ≡ false = ground arith in
    let len : length (b ∷ bs) ≡ length first - skip = ap length (sym e) ∙ length-drop skip first in
    let one : min 1 (length (b ∷ bs)) ≡ 1 = omega arith in
    let less : sub64 size 1 ≡ size - 1 = omega arith in
    let next : add64 skip 1 ≡ skip + 1 = omega arith in
    let none_left : skip + 1 ≡ length first → bs ≡ [] = λ h. length-zero bs (omega arith) in
    rw inside (
      rw e (
        rw one (
          rw (remove_none others) (
            rw (less, next)
              (if_elim
                (λ (m : Exec BufferList).
                  Ensures (λ (x, l). (x ≡ b) × Shows l bs others) (m >>= λ l. ok (b, l)))
                (skip + 1 == length first) _ _
                (λ h. (
                  refl,
                  record {
                    left = inl (none_left ((==_iff _ _).0 h), refl, refl);
                    total = omega arith;
                    fits = omega arith;
                  },
                ))
                λ h. (
                  refl,
                  record {
                    left = inr (
                      first,
                      refl,
                      ap (λ k. drop k first) {y = suc skip} (omega arith)
                          ∙ drop-suc skip first b bs e,
                      ground (arith, h),
                      width,
                    );
                    total = omega arith;
                    fits = omega arith;
                  },
                ))))))

-- The next byte is the first that is left.
next_byte_lem :
    (l : BufferList) (b : ℕ) (bs : Bytes) (others : List Bytes)
    → Shows l (b ∷ bs) others
    → Ensures (λ (x, l'). (x ≡ b) × Shows l' bs others) (next_byte l)
next_byte_lem l b bs others h = elim h.left [
  | inl (e, _, _) ↦ absurd cc
  | inr (first, e, left, lt, width) ↦
      subst
        (λ buffers.
          Ensures (λ (x, l'). (x ≡ b) × Shows l' bs others)
            (next_byte (record l { buffer = buffers })))
        (sym e) (next_byte_at first others l.size l.skip b bs left lt width h.total h.fits)
]

-- The digits before the last: `out` is what `v` has in front of its last `n` bytes.
digit : (room n v : ℕ) → v < room → (v / 256 ^ suc n * 256) % room + v / 256 ^ n % 256 ≡ v / 256 ^ n
digit room n v lt =
    let q : v / 256 ^ suc n ≡ v / 256 ^ n / 256 =
      ap (λ k. v / k) (pow-suc 256 n) ∙ sym (div-div-eq-div-mul v (256 ^ n) 256) in
    let small : v / 256 ^ n ≤ v = div-le_self v (256 ^ n) in rw q (kept (v / 256 ^ n) (omega arith))
  where
    kept : (x : ℕ) → x < room → (x / 256 * 256) % room + x % 256 ≡ x
    kept x small = ap (λ k. k + x % 256) (mod-eq_of_lt (omega arith)) ∙ omega arith

next_bytes_lem :
    (room n out v : ℕ) (l : BufferList) (bs : Bytes) (others : List Bytes)
    → v < room
    → out ≡ v / 256 ^ n
    → Shows l (big_endian n v ++ bs) others
    → Ensures (λ (x, l'). (x ≡ v) × Shows l' bs others) (next_bytes room n out l)
unfolding next_bytes big_endian
next_bytes_lem room zero out v l bs others lt e h = (e ∙ div-one v, h)
next_bytes_lem room (suc n) out v l bs others lt e h =
    Ensures-bind (λ (x, l'). (x ≡ v / 256 ^ n % 256) × Shows l' (big_endian n v ++ bs) others) _
      (next_byte l) _ (next_byte_lem l _ _ others h)
      λ (x, l') (same, h').
        next_bytes_lem room n ((out * 256) % room + x) v l' bs others lt
          (ap₂ (λ o y. (o * 256) % room + y) e same ∙ digit room n v lt) h'

pub length-big_endian : (n v : ℕ) → length (big_endian n v) ≡ n
unfolding big_endian
length-big_endian zero v = refl
length-big_endian (suc n) v = omega (arith, length-big_endian n v)

-- `integer` reads back the bytes of a number that its type can hold.
integer_lem :
    (n out v : ℕ) (p : Parser) (bs : Bytes) (others : List Bytes)
    → v < 256 ^ n
    → Reads p (big_endian n v ++ bs) others
    → Ensures (λ (x, p'). (x ≡ v) × Reads p' bs others) (Parser.integer n out p)
unfolding Parser.integer check_size
integer_lem n out v p bs others lt h =
    let enough : ltb p.input.size n ≡ false =
      ground (arith, h.shows.total, length-append (big_endian n v) bs, length-big_endian n v) in
    rw enough (
      rw h.fine (
        Ensures-bind (λ (x, l). (x ≡ v) × Shows l bs others)
          (λ (x, p'). (x ≡ v) × Reads p' bs others) (next_bytes (256 ^ n) n 0 p.input) _
          (next_bytes_lem (256 ^ n) n 0 v p.input bs others lt (sym (div-eq_of_lt lt)) h.shows)
          λ (x, l) (same, shows). (same, record { shows = shows; fine = refl })))

-- So does the loop over an array of bytes.
bytes_lem :
    (old new : Bytes) (p : Parser) (bs : Bytes) (others : List Bytes)
    → length old ≡ length new
    → All (λ b. b < 256) new
    → Reads p (new ++ bs) others
    → Ensures (λ (x, p'). (x ≡ new) × Reads p' bs others) (Parser.bytes old p)
unfolding Parser.bytes big_endian
bytes_lem [] [] p bs others e small h = (refl, h)
bytes_lem [] (x ∷ new) p bs others e small h = absurd (omega arith)
bytes_lem (b ∷ old) [] p bs others e small h = absurd (omega arith)
bytes_lem (b ∷ old) (x ∷ new) p bs others e (lt, small) h =
    let byte : x / 256 ^ 0 % 256 ≡ x = omega arith in
    Ensures-bind (λ (v, p'). (v ≡ x) × Reads p' (new ++ bs) others) _ (Parser.integer 1 b p) _
      (integer_lem 1 b x p (new ++ bs) others (omega arith)
        (subst (λ y. Reads p (y ∷ new ++ bs) others) (sym byte) h))
      λ (v, p') (same, h').
        Ensures-bind (λ (vs, p''). (vs ≡ new) × Reads p'' bs others) _ (Parser.bytes old p') _
          (bytes_lem old new p' bs others (omega arith) small h')
          λ (vs, p'') (same', h''). (ap₂ ◌∷◌ same same', h'')

-- The same as equations.
pub integer-Reads :
    (n out v : ℕ) (p : Parser) (bs : Bytes) (others : List Bytes)
    → v < 256 ^ n
    → Reads p (big_endian n v ++ bs) others
    → (p' : Parser) × (Parser.integer n out p ≡ ok (v, p')) × Reads p' bs others
integer-Reads n out v p bs others lt h =
    let ((x, p'), e, (same, h')) =
      Ensures-to_ok (λ (x, p'). (x ≡ v) × Reads p' bs others) (Parser.integer n out p)
        (integer_lem n out v p bs others lt h) in
    (p', e ∙ ap (λ y. ok (y, p')) same, h')

pub bytes-Reads :
    (old new : Bytes) (p : Parser) (bs : Bytes) (others : List Bytes)
    → length old ≡ length new
    → All (λ b. b < 256) new
    → Reads p (new ++ bs) others
    → (p' : Parser) × (Parser.bytes old p ≡ ok (new, p')) × Reads p' bs others
bytes-Reads old new p bs others e small h =
    let ((x, p'), eq, (same, h')) =
      Ensures-to_ok (λ (x, p'). (x ≡ new) × Reads p' bs others) (Parser.bytes old p)
        (bytes_lem old new p bs others e small h) in
    (p', eq ∙ ap (λ y. ok (y, p')) same, h')

-- A parser over buffers, none of which is empty.
pub of_input-Reads :
    (b : Bytes) (others : List Bytes)
    → 0 < length b
    → total_size (b ∷ others) < u64_mod
    → Reads (of_input (b ∷ others)) b others
unfolding of_input of_buffers
of_input-Reads b others pos fits = record {
  shows = record { left = inr (b, refl, refl, pos, omega arith); total = refl; fits = fits };
  fine = refl;
}

-- The first buffer, if there is one, is not empty.
abbrev pub FirstNonempty : List Bytes → Type 0
FirstNonempty [] = Unit
FirstNonempty (b ∷ bs) = 0 < length b

pub all-FirstNonempty : (bs : List Bytes) → All (λ b. 0 < length b) bs → FirstNonempty bs
all-FirstNonempty [] h = tt
all-FirstNonempty (b ∷ bs) (pos, _) = pos

-- When the first buffer is used up, the others are what remains.
pub all_remaining_lem :
    (p : Parser) (others : List Bytes)
    → FirstNonempty others
    → Reads p [] others
    → all_remaining p ≡ ok others
unfolding all_remaining dump_all views substr
all_remaining_lem p others nonempty h = elim h.shows.left [
  | inr (first, _, e, lt, _) ↦ absurd (omega (arith, length-drop p.input.skip first, ap length e))
  | inl (_, e, zero_skip) ↦ at others nonempty (omega (arith, h.shows.total)) e zero_skip
]
  where
    at :
        (others : List Bytes)
        → FirstNonempty others
        → p.input.size ≡ total_size others
        → p.input.buffer ≡ others
        → p.input.skip ≡ 0
        → dump_all p.input ≡ ok others
    at [] nonempty total e z = rw total refl
    at (b ∷ others) pos total e z =
        let some_left : (p.input.size == 0) ≡ false = ground arith in
        let inside : ltb (length b) 0 ≡ false = ground arith in
        rw (some_left, e, z) (rw inside refl)

-- One buffer, even an empty one, is what remains as a string.
pub concatenate_one :
    (p : Parser) (payload : Bytes)
    → Reads p [] (payload ∷ [])
    → concatenate_all_remaining p ≡ ok payload
unfolding concatenate_all_remaining all_remaining dump_all
concatenate_one p [] h = (let total = h.shows.total in rw total refl)
concatenate_one p (b ∷ bs) h =
    ap (λ m. m >>= λ concat. ok (flatten concat))
      (all_remaining_lem p ((b ∷ bs) ∷ []) (omega arith) h)
    ∙ ap ok (append-nil (b ∷ bs))

-- No bytes are skipped.
pub skip_bytes_none : (p : Parser) → skip_bytes 0 p ≡ ok p
unfolding skip_bytes remove_prefix
skip_bytes_none p =
    ap (λ m. m >>= λ l. ok (record p { input = l })) (stay p.input.buffer p.input.size p.input.skip)
  where
    stay :
        (bs : List Bytes) (size skip : ℕ)
        → remove_from bs skip size 0 ≡ ok (record { size = size; buffer = bs; skip = skip })
    stay [] size skip = refl
    stay (b ∷ bs) size skip = refl

-- What is no longer than the length that is to be kept stays whole.
pub truncate_input_whole : (len : ℕ) (p : Parser) → p.input.size ≤ len → truncate_input len p ≡ p
unfolding truncate_input truncate
truncate_input_whole len p le =
    let fits : leb p.input.size len ≡ true = ground arith in rw fits refl
