-- ===== src/Bzip2/Symbols/Groups.antt =====
-- The symbols that compress_block of src/bzip2/bzip2_compress.cpp writes, decode_block of
-- src/bzip2/bzip2_decompress.cpp reads, through the changes of the table.
use orot.Base.{
  ℕ, zero, suc, ◌+◌, ◌*◌, ◌/◌, ◌%◌, ◌≤◌, ◌<◌, ◌≡◌, refl, ◌∙◌, ◌⊎◌, lt-leb, true, false, Bool-cases,
  inl, inr, List, [], ◌∷◌, some, arith, length, get_or, All, ltb, ◌==◌, ==_iff, ne-==,
  if◌then◌else◌,
}
use orot.Base.Digits.{bits}
use orot.Bzip2.BitStream.{Reader, refill}
use orot.Bzip2.BitStream.RoundTrip.{IsBytes, remaining}
use orot.Bzip2.BitStream.Refill.{refill-IsRefilled}
use orot.Bzip2.Header.Takes.{Takes}
use orot.Bzip2.Huffman.{HuffDecTable, build_codes}
use orot.Bzip2.Huffman.Canonical.{IsAlphabet}
use orot.Bzip2.HuffmanDecode.{decode_sym, decode_sym_hot}
use orot.Bzip2.HuffmanDecode.Slow.{IsCoded}
use orot.Bzip2.HuffmanDecode.Codes.{IsPrefixCode}
use orot.Bzip2.HuffmanDecode.RoundTrip.{build_from_lengths-Takes}
use orot.Bzip2.Symbols.{cons_table, build_tables, next_group, no_table, next_symbol}

-- The lengths of one table.
abbrev pub IsTable : List ℕ → Type 0
IsTable lens = IsAlphabet lens × IsPrefixCode lens

-- Before each symbol the buffer is filled, and the stream stays the same.
refill-keeps :
    (r : Reader) → IsBytes r.src → (remaining (refill r) ≡ remaining r) × IsBytes (refill r).src
unfolding refill
refill-keeps r small = elim (Bool-cases (ltb 56 r.buf_bits)) [
  | inl e ↦ rw e (refl, small)
  | inr e ↦
      let (same, _, _, small') = refill-IsRefilled r small (ground (arith, e)) in (same, small')
]

pub next_symbol-Takes :
    (t : HuffDecTable) (s : List ℕ) (a : ℕ) → Takes (decode_sym t) s a → Takes (next_symbol t) s a
unfolding next_symbol decode_sym_hot
next_symbol-Takes t s a takes r rest small e =
    let (same, small') = refill-keeps r small in takes (refill r) rest small' (same ∙ e)

-- Every table is built, and takes its codes.
pub build_tables-Takes :
    (tables : List (List ℕ))
    → All IsTable tables
    → (ts : List HuffDecTable) × (build_tables tables ≡ some ts)
      × ((k i : ℕ)
          → k < length tables
          → IsCoded (get_or tables k []) i
          → Takes
              (decode_sym (get_or ts k no_table))
              (bits
                (get_or (get_or tables k []) i 0)
                (get_or (build_codes (get_or tables k [])) i 0))
              i)
unfolding build_tables cons_table
build_tables-Takes [] h = ([], refl, λ k i lt. absurd (omega (arith, lt)))
build_tables-Takes (lens ∷ tables) h =
    let (t, built, takes) = build_from_lengths-Takes lens h.0.0 h.0.1 in
    let (ts, rest, later) = build_tables-Takes tables h.1 in
    (t ∷ ts, rw (built, rest) refl, each t ts takes later)
  where
    each :
        (t : HuffDecTable) (ts : List HuffDecTable)
        → ((i : ℕ)
            → IsCoded lens i
            → Takes (decode_sym t) (bits (get_or lens i 0) (get_or (build_codes lens) i 0)) i)
        → ((k i : ℕ)
            → k < length tables
            → IsCoded (get_or tables k []) i
            → Takes
                (decode_sym (get_or ts k no_table))
                (bits
                  (get_or (get_or tables k []) i 0)
                  (get_or (build_codes (get_or tables k [])) i 0))
                i)
        → (k i : ℕ) → k < suc (length tables)
        → IsCoded (get_or (lens ∷ tables) k []) i
        → Takes
            (decode_sym (get_or (t ∷ ts) k no_table))
            (bits
              (get_or (get_or (lens ∷ tables) k []) i 0)
              (get_or (build_codes (get_or (lens ∷ tables) k [])) i 0))
            i
    each t ts takes later zero i lt coded = takes i coded
    each t ts takes later (suc k) i lt coded = later k i (omega (arith, lt)) coded

-- Symbols up to the first that ends the block, each with a code in every table.
abbrev pub IsStream : List (List ℕ) → ℕ → List ℕ → Type 0
IsStream tables eob [] = ⊥
IsStream tables eob (s ∷ []) = (s ≡ eob) × All (λ lens. IsCoded lens s) tables
IsStream tables eob (s ∷ t ∷ syms) =
    (¬ (s ≡ eob)) × All (λ lens. IsCoded lens s) tables × IsStream tables eob (t ∷ syms)

pub get_or-All :
    (P : List ℕ → Type 0) (xs : List (List ℕ)) (k : ℕ)
    → All P xs
    → k < length xs
    → P (get_or xs k [])
get_or-All P [] k h lt = absurd (omega (arith, lt))
get_or-All P (x ∷ xs) zero h lt = h.0
get_or-All P (x ∷ xs) (suc k) h lt = get_or-All P xs k h.1 (omega (arith, lt))

-- Where the decoder stands before the i-th symbol, and the encoder with it.
pub record InStep (selectors : List ℕ) (n i g_enc g g_rem : ℕ) : Type 0 where
  pub place : i + g_rem ≡ 50 * (g + 1)
  pub short : g_rem ≤ 50
  pub inside : g < length selectors
  pub room : i + n ≤ 50 * length selectors
  pub same : g_rem < 50 → g_enc ≡ get_or selectors g 0

-- The table that the encoder takes is that of the group that the decoder is then in.
pub next_group-InStep :
    (selectors : List ℕ) (n i g_enc g g_rem : ℕ)
    → InStep selectors (suc n) i g_enc g g_rem
    → (g' : ℕ) × (rem : ℕ) × (next_group (length selectors) g g_rem ≡ some (g', suc rem))
      × (g' < length selectors)
      × ((if i % 50 == 0 then get_or selectors (i / 50) 0 else g_enc) ≡ get_or selectors g' 0)
      × InStep selectors n (suc i) (get_or selectors g' 0) g' rem
unfolding next_group
next_group-InStep selectors n i g_enc g zero h =
    let start : i ≡ 50 * (g + 1) = omega (arith, h.place) in
    let more : g + 1 < length selectors = omega (arith, start, h.room) in
    let e : i % 50 ≡ 0 = omega (arith, start) in
    let e' : i / 50 ≡ g + 1 = omega (arith, start) in
    (
      g + 1,
      49,
      rw (lt-leb (length selectors) (g + 1) more) refl,
      more,
      rw (e, e') refl,
      record {
        place = omega (arith, start);
        short = omega arith;
        inside = more;
        room = omega (arith, h.room);
        same = λ _. refl;
      },
    )
next_group-InStep selectors n i g_enc g (suc rem) h = (
  g,
  rem,
  rw (ne-== (suc rem) 0 (omega arith)) refl,
  h.inside,
  chosen (Bool-cases (i % 50 == 0)),
  record {
    place = omega (arith, h.place);
    short = omega (arith, h.short);
    inside = h.inside;
    room = omega (arith, h.room);
    same = λ _. refl;
  },
)
  where
    chosen :
        ((i % 50 == 0) ≡ true) ⊎ ((i % 50 == 0) ≡ false)
        → (if i % 50 == 0 then get_or selectors (i / 50) 0 else g_enc) ≡ get_or selectors g 0
    chosen (inl e) =
        let whole = (==_iff (i % 50) 0).0 e in
        let e' : i / 50 ≡ g = omega (arith, whole, h.place, h.short) in rw (e, e') refl
    chosen (inr e) =
        let part : suc rem < 50 = ground (arith, e, h.place, h.short) in rw e (h.same part)
