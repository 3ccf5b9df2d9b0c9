-- ===== src/Wire/Serializer/Layout.antt =====
-- The buffers that a serializer ends with.
use internet.Prelude.{
  ◌/◌, ◌%◌, ◌^◌, ◌<◌, ◌≡◌, refl, sym, ap, ◌∙◌, List, [], ◌∷◌, ◌++◌, append-nil, append_assoc, arith,
  length, All, Bytes,
}
use internet.Wire.Serializer
use internet.Wire.Serializer.{
  Serializer, big_endian, flush, flushed, finish, append_buffer, append_buffers,
}

-- The loop over an array of bytes adds them as they are.
pub bytes_lem :
    (bs : Bytes) (s : Serializer)
    → All (λ b. b < 256) bs
    → Serializer.bytes bs s ≡ record s { buffer = s.buffer ++ bs }
unfolding Serializer.bytes Serializer.integer big_endian
bytes_lem [] s small = ap (λ (b : Bytes). record s { buffer = b }) (sym (append-nil s.buffer))
bytes_lem (b ∷ bs) s (lt, small) =
    let byte : b / 256 ^ 0 % 256 ≡ b = omega arith in
    rw byte (
      bytes_lem bs (record s { buffer = s.buffer ++ b ∷ [] }) small
      ∙ ap (λ (x : Bytes). record s { buffer = x }) (append_assoc s.buffer (b ∷ []) bs))

append_buffers_lem :
    (output others : List Bytes)
    → All (λ b. 0 < length b) others
    → append_buffers others (record { output = output; buffer = [] })
      ≡ record { output = output ++ others; buffer = [] }
unfolding append_buffers append_buffer flush flushed
append_buffers_lem output [] tt =
    ap (λ (o : List Bytes). record { output = o; buffer = [] }) (sym (append-nil output))
append_buffers_lem output ([] ∷ others) (pos, _) = absurd (omega arith)
append_buffers_lem output ((b ∷ bs) ∷ others) (_, nonempty) =
    append_buffers_lem (output ++ (b ∷ bs) ∷ []) others nonempty
    ∙ ap (λ (o : List Bytes). record { output = o; buffer = [] })
        (append_assoc output ((b ∷ bs) ∷ []) others)

-- A header in the buffer, then a payload: one buffer for the header and those of the payload.
pub finish-append_buffers :
    (header : Bytes) (payload : List Bytes)
    → 0 < length header
    → All (λ b. 0 < length b) payload
    → finish (append_buffers payload (record { output = []; buffer = header })) ≡ header ∷ payload
unfolding finish append_buffers append_buffer flush flushed
finish-append_buffers [] payload pos nonempty = absurd (omega arith)
finish-append_buffers (h ∷ hs) [] pos nonempty = refl
finish-append_buffers (h ∷ hs) ([] ∷ payload) pos (p, _) = absurd (omega arith)
finish-append_buffers (h ∷ hs) ((b ∷ bs) ∷ payload) pos (_, nonempty) =
    rw (append_buffers_lem ((h ∷ hs) ∷ (b ∷ bs) ∷ []) payload nonempty) refl
