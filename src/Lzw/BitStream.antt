-- ===== src/Lzw/BitStream.antt =====
-- src/lzw/lzw_block.cpp, BitWriter and BitReader: codes of any width, least significant bit first.
-- The writer's output counts the bytes before its start, and `room` is the capacity with them.
use orot.Base.{
  ℕ, zero, suc, ◌+◌, ◌-◌, ◌*◌, ◌/◌, ◌%◌, ◌^◌, bit_or, List, [], ◌∷◌, ◌++◌, Option, none, some,
  length, ltb, leb, if◌then◌else◌,
}

pub record Writer : Type 0 where
  pub out : List ℕ
  pub buf : ℕ
  pub bits : ℕ

-- while (bits >= 8) store a byte; the fuel is at least the number of whole bytes.
unfoldable pub drain : ℕ → ℕ → Writer → Option Writer
drain zero room w = some w
drain (suc fuel) room w =
    let rest =
      drain fuel room
        (record { out = w.out ++ ((w.buf % 256) ∷ []); buf = w.buf / 256; bits = w.bits - 8 }) in
    if ltb w.bits 8 then some w else if leb room (length w.out) then none else rest

unfoldable pub write : ℕ → ℕ → ℕ → Writer → Option Writer
write room code width w =
    drain (w.bits + width) room
      (record { out = w.out; buf = bit_or w.buf (code * 2 ^ w.bits); bits = w.bits + width })

unfoldable pub flush : ℕ → Writer → Option (List ℕ)
flush room w =
    if ltb 0 w.bits
    then (if leb room (length w.out) then none else some (w.out ++ ((w.buf % 256) ∷ [])))
    else some w.out

-- What is left of the source, and the bits that were taken from it.
pub record Reader : Type 0 where
  pub src : List ℕ
  pub buf : ℕ
  pub bits : ℕ

unfoldable pub fill : List ℕ → ℕ → ℕ → Reader
fill [] buf bits = record { src = []; buf = buf; bits = bits }
fill (b ∷ src) buf bits =
    let rest = fill src (bit_or buf (b * 2 ^ bits)) (bits + 8) in
    if leb bits 56 then rest else record { src = b ∷ src; buf = buf; bits = bits }

unfoldable pub read : ℕ → Reader → Option (ℕ × Reader)
read width r =
    let full = fill r.src r.buf r.bits in
    if ltb full.bits width
    then none
    else some (
      full.buf % 2 ^ width,
      record { src = full.src; buf = full.buf / 2 ^ width; bits = full.bits - width },
    )
