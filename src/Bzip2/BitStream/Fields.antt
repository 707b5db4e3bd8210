-- ===== src/Bzip2/BitStream/Fields.antt =====
-- Sequences of fields on the bit streams of src/bzip2.
use orot.Base.{
  ℕ, ◌+◌, ◌*◌, ◌^◌, ◌≤◌, ◌<◌, ◌≡◌, refl, sym, ap, ◌∙◌, List, [], ◌∷◌, ◌++◌, map, arith, length, All,
  true, Option, none, some, leb→le, append_assoc, append-nil,
}
use orot.Base.Digits.{bits}
use orot.Bzip2.BitStream.{Writer, new_writer, write_bits, flush, ok, Reader, new_reader, read_bits}
use orot.Bzip2.BitStream.RoundTrip.{
  IsWritten, write_bits-IsWritten, new_writer-IsWritten, flush-IsFlushed, remaining, IsBytes,
  read_bits_lem,
}

-- A width and a value.
abbrev pub write_all : ℕ → Writer → List (ℕ × ℕ) → Writer
write_all cap w [] = w
write_all cap w (f ∷ fields) = write_all cap (write_bits cap w f.1 f.0) fields

abbrev pub read_all : Reader → List ℕ → Option (List ℕ)
read_all r [] = some []
read_all r (n ∷ widths) = elim (read_bits r n) [
  | none ↦ none
  | some (v, r') ↦ elim (read_all r' widths) [ none ↦ none | some vs ↦ some (v ∷ vs) ]
]

abbrev pub IsField : ℕ × ℕ → Type 0
IsField f = (f.0 ≤ 31) × (f.1 < 2 ^ f.0)

abbrev pub field_bits : List (ℕ × ℕ) → List ℕ
field_bits [] = []
field_bits (f ∷ fields) = bits f.0 f.1 ++ field_bits fields

pub field_bits-append :
    (xs ys : List (ℕ × ℕ)) → field_bits (xs ++ ys) ≡ field_bits xs ++ field_bits ys
field_bits-append [] ys = refl
field_bits-append (x ∷ xs) ys =
    ap (λ t. bits x.0 x.1 ++ t) (field_bits-append xs ys)
    ∙ sym (append_assoc (bits x.0 x.1) (field_bits xs) (field_bits ys))

pub write_all-IsWritten :
    (cap : ℕ) (fields : List (ℕ × ℕ)) (s : List ℕ) (w : Writer)
    → All IsField fields
    → IsWritten cap s w
    → w.buf_bits < 8
    → IsWritten cap (s ++ field_bits fields) (write_all cap w fields)
      × ((write_all cap w fields).buf_bits < 8)
write_all-IsWritten cap [] s w h p small = (rw (append-nil s) p, small)
write_all-IsWritten cap (f ∷ fields) s w h p small =
    let (p', small') = write_bits-IsWritten cap s w f.1 f.0 p small h.0.0 h.0.1 in
    rw (sym (append_assoc s (bits f.0 f.1) (field_bits fields)))
      (write_all-IsWritten cap fields (s ++ bits f.0 f.1) _ h.1 p' small')

read_all_lem :
    (fields : List (ℕ × ℕ)) (r : Reader) (pad : List ℕ)
    → All IsField fields
    → IsBytes r.src
    → remaining r ≡ field_bits fields ++ pad
    → read_all r (map (λ f. f.0) fields) ≡ some (map (λ f. f.1) fields)
read_all_lem [] r pad h b e = refl
read_all_lem (f ∷ fields) r pad h b e =
    let (r', got, rest, b') =
      read_bits_lem r f.0 f.1 (field_bits fields ++ pad) b h.0.0 h.0.1
        (e ∙ append_assoc (bits f.0 f.1) (field_bits fields) pad) in
    rw (read_all, got, read_all_lem fields r' pad h.1 b' rest) refl

-- The reader takes the fields back that were written and flushed, each of at most 31 bits that hold
-- its value, if the writer had room, and the bytes written are just enough for their bits.
pub read_all-write_all :
    (cap : ℕ) (fields : List (ℕ × ℕ))
    → All IsField fields
    → ok cap (flush cap (write_all cap new_writer fields)) ≡ true
    → (read_all
          (new_reader (flush cap (write_all cap new_writer fields)).dst)
          (map (λ f. f.0) fields)
        ≡ some (map (λ f. f.1) fields))
      × ((pad : ℕ) × (pad < 8)
          × (length (field_bits fields) + pad
              ≡ (flush cap (write_all cap new_writer fields)).pos * 8))
unfolding ok
read_all-write_all cap fields h enough =
    let (p, small) =
      write_all-IsWritten cap fields [] new_writer h (new_writer-IsWritten cap) (omega arith) in
    let w = write_all cap new_writer fields in
    let f = flush-IsFlushed cap (field_bits fields) w p small in
    (
      read_all_lem fields (new_reader (flush cap w).dst) _ h f.are_bytes
          (f.bytes (leb→le (flush cap w).pos cap enough)),
      (f.pad, f.short, f.whole),
    )
