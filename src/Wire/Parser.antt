-- ===== src/Wire/Parser.antt =====
-- util/parser.hh and util/parser.cc: a parser over a sequence of buffers. Whether a `Ref` owns or
-- borrows its string makes no difference here, so a buffer is a string of bytes.
pub mod Truncate
pub mod Reads
pub mod Copy
use internet.Prelude.{
  ℕ, zero, suc, ◌+◌, ◌*◌, ◌%◌, ◌^◌, min, Bool, true, false, List, [], ◌∷◌, ◌++◌, ltb, leb, ◌==◌,
  if◌then◌else◌, length, take, drop, Bytes, add64, sub64, Exec, ok, fault, runtime_error,
  out_of_range, undefined, out_of_fuel, ◌-◌, ◌>>=◌, ◌>>◌,
}
use internet.ByteStream.{is_empty}

-- `skip` bytes of the first buffer have been consumed.
pub record BufferList : Type 0 where
  pub size : ℕ
  pub buffer : List Bytes
  pub skip : ℕ

abbrev pub total_size : List Bytes → ℕ
total_size [] = 0
total_size (b ∷ bs) = length b + total_size bs

unfoldable pub of_buffers : List Bytes → BufferList
of_buffers bs = record { size = total_size bs; buffer = bs; skip = 0 }

-- `substr( pos )` of a string view.
unfoldable pub substr : ℕ → Bytes → Exec Bytes
substr pos b = if ltb (length b) pos then fault out_of_range else ok (drop pos b)

unfoldable pub peek_at : List Bytes → ℕ → Exec Bytes
unfolding substr
peek_at [] skip = fault runtime_error
peek_at (b ∷ bs) skip = substr skip b

unfoldable pub peek : BufferList → Exec Bytes
unfolding peek_at
peek l = peek_at l.buffer l.skip

-- The loop of `remove_prefix`. If a buffer is left over in part, `len` has become 0.
unfoldable pub remove_from : List Bytes → ℕ → ℕ → ℕ → Exec BufferList
unfolding substr
remove_from [] skip size len = ok (record { size = size; buffer = []; skip = skip })
remove_from (b ∷ bs) skip size len =
    if len == 0
    then ok (record { size = size; buffer = b ∷ bs; skip = skip })
    else (substr skip b >>= λ view.
        let to_pop_now = min len (length view) in
        let rest = remove_from bs 0 (sub64 size to_pop_now) (sub64 len to_pop_now) in
        if add64 skip to_pop_now == length b
        then rest
        else ok (record {
          size = sub64 size to_pop_now;
          buffer = b ∷ bs;
          skip = add64 skip to_pop_now;
        }))

unfoldable pub remove_prefix : ℕ → BufferList → Exec BufferList
unfolding remove_from
remove_prefix len l = remove_from l.buffer l.skip l.size len

-- The loops of `truncate`: what is before the end of `len` bytes, counted from the beginning of the
-- first buffer.
unfoldable pub cut : ℕ → ℕ → List Bytes → List Bytes
cut size_so_far len [] = []
cut size_so_far len (b ∷ bs) =
    let rest = cut (add64 size_so_far (length b)) len bs in
    if ltb (add64 size_so_far (length b)) len
    then b ∷ rest
    else (if add64 size_so_far (length b) == len
        then b ∷ []
        else take (sub64 len size_so_far) b ∷ [])

unfoldable pub truncate : ℕ → BufferList → BufferList
unfolding cut
truncate len l =
    if leb l.size len
    then l
    else (if len == 0
        then record l { size = 0; buffer = [] }
        else record l { size = len; buffer = cut 0 len l.buffer })

-- The first buffer without what was consumed, then the others.
unfoldable pub views : List Bytes → ℕ → Exec (List Bytes)
unfolding substr
views [] skip = fault undefined
views (b ∷ bs) skip = substr skip b >>= λ view. ok (view ∷ bs)

-- What is left in the list afterwards, buffers that were moved from, is not modelled: nothing reads
-- the list after this call.
unfoldable pub dump_all : BufferList → Exec (List Bytes)
unfolding views
dump_all l = if l.size == 0 then ok [] else views l.buffer l.skip

-- The same views, which leave the buffers where they are.
unfoldable pub buffer_views : BufferList → Exec (List Bytes)
unfolding views
buffer_views l = if l.size == 0 then ok [] else views l.buffer l.skip

pub record Parser : Type 0 where
  pub input : BufferList
  pub has_error : Bool

unfoldable pub of_input : List Bytes → Parser
unfolding of_buffers
of_input bs = record { input = of_buffers bs; has_error = false }

unfoldable pub set_error : Parser → Parser
set_error p = record p { has_error = true }

unfoldable pub check_size : ℕ → Parser → Parser
check_size size p = if ltb p.input.size size then record p { has_error = true } else p

unfoldable pub skip_bytes : ℕ → Parser → Exec Parser
unfolding remove_prefix
skip_bytes n p = remove_prefix n p.input >>= λ input. ok (record p { input = input })

unfoldable pub truncate_input : ℕ → Parser → Parser
unfolding truncate
truncate_input len p = record p { input = truncate len p.input }

unfoldable pub all_remaining : Parser → Exec (List Bytes)
unfolding dump_all
all_remaining p = dump_all p.input

abbrev pub flatten : List Bytes → Bytes
flatten [] = []
flatten (b ∷ bs) = b ++ flatten bs

unfoldable pub concatenate_all_remaining : Parser → Exec Bytes
unfolding all_remaining
concatenate_all_remaining p = all_remaining p >>= λ concat. ok (flatten concat)

-- `front()` of a view has no meaning when the view is empty.
unfoldable pub front : Bytes → Exec ℕ
front [] = fault undefined
front (b ∷ bs) = ok b

unfoldable pub next_byte : BufferList → Exec (ℕ × BufferList)
unfolding peek front remove_prefix
next_byte l = do view ← peek l; b ← front view; l' ← remove_prefix 1 l; ok (b, l')

-- The loop of `integer`: `out <<= 8; out |= byte` in a type of `n` bytes, from `out = 0`, for the
-- `n` bytes; `room` is the number of values of the type.
unfoldable pub next_bytes : ℕ → ℕ → ℕ → BufferList → Exec (ℕ × BufferList)
unfolding next_byte
next_bytes room zero out l = ok (out, l)
next_bytes room (suc n) out l =
    next_byte l >>= λ (b, l'). next_bytes room n ((out * 256) % room + b) l'

-- `integer( out )` for a type of `n` bytes. After an error `out` keeps its value.
unfoldable pub integer : ℕ → ℕ → Parser → Exec (ℕ × Parser)
unfolding check_size next_bytes
integer n out p =
    let p' = check_size n p in
    let read : Exec (ℕ × Parser) =
      next_bytes (256 ^ n) n 0 p'.input >>= λ (v, l). ok (v, record p' { input = l }) in
    if p'.has_error then ok (out, p') else read

-- `for ( auto& b : bytes ) parser.integer( b )`.
unfoldable pub bytes : Bytes → Parser → Exec (Bytes × Parser)
unfolding integer
bytes [] p = ok ([], p)
bytes (b ∷ bs) p = integer 1 b p >>= λ (v, p'). bytes bs p' >>= λ (vs, p''). ok (v ∷ vs, p'')

-- The loop of `string`, on fuel: it copies from the first buffer until `want` bytes are there. A
-- round copies at least one byte unless that buffer is empty.
unfoldable pub copy_from : ℕ → ℕ → BufferList → Exec (Bytes × BufferList)
unfolding peek remove_prefix
copy_from fuel zero l = ok ([], l)
copy_from zero (suc want) l = fault out_of_fuel
copy_from (suc fuel) (suc want) l = do
  view ← peek l
  let next = take (suc want) view
  l' ← remove_prefix (length next) l
  (rest, l'') ← copy_from fuel (suc want - length next) l'
  ok (next ++ rest, l'')

-- `string( out )` for `size` bytes; after an error `out` keeps its value.
unfoldable pub string : ℕ → Bytes → Parser → Exec (Bytes × Parser)
unfolding check_size copy_from
string size out p =
    let p' = check_size size p in
    let copied : Exec (Bytes × Parser) =
      copy_from size size p'.input >>= λ (bs, l). ok (bs, record p' { input = l }) in
    if p'.has_error then ok (out, p') else copied
