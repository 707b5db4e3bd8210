-- ===== src/Lz4/Length.antt =====
-- The lengths beyond 15 of src/lz4/lz4_block.cpp: write_varint_extra and read_varint_extra.
use mathlib.Core.Option.{some-injective}
use orot.Base.{
  ap, ◌==◌, ℕ, zero, suc, ◌+◌, ◌-◌, ◌/◌, ◌%◌, ◌*◌, ◌≤◌, if-both, ◌<◌, ◌≡◌, List, [], ◌∷◌, ◌++◌,
  some, arith, length,
}
use orot.Lz4.Block.{
  write_extra, write_varint_extra, varint_extra_size, read_extra, read_varint_extra,
}

read_extra-write_extra :
    (fuel extra sum : ℕ) (rest : List ℕ)
    → extra < fuel
    → read_extra sum (write_extra fuel extra ++ rest) ≡ some (sum + extra, rest)
unfolding read_extra write_extra
read_extra-write_extra zero extra sum rest h = absurd (omega arith)
read_extra-write_extra (suc fuel) extra sum rest h =
    ground (arith, read_extra-write_extra fuel (extra - 255) (sum + 255) rest)

-- read_varint_extra reads back what write_varint_extra wrote, and leaves the bytes behind it.
pub read_varint_extra-write_varint_extra :
    (extra : ℕ) (rest : List ℕ)
    → read_varint_extra (write_varint_extra extra ++ rest) ≡ some (extra, rest)
unfolding read_varint_extra write_varint_extra
read_varint_extra-write_varint_extra extra rest =
    ground (arith, read_extra-write_extra (suc extra) extra 0 rest)

length-write_extra :
    (fuel extra : ℕ) → extra < fuel → length (write_extra fuel extra) ≡ extra / 255 + 1
unfolding write_extra
length-write_extra zero extra h = absurd (omega arith)
length-write_extra (suc fuel) extra h = ground (arith, length-write_extra fuel (extra - 255))

-- The space that is reserved is the space that is written.
pub length-write_varint_extra :
    (extra : ℕ) → length (write_varint_extra extra) ≡ varint_extra_size extra
unfolding write_varint_extra varint_extra_size
length-write_varint_extra extra = length-write_extra (suc extra) extra (omega arith)

-- A sum of bytes that were read, and what they leave of the input.
read_extra-le :
    (ip : List ℕ) (sum extra : ℕ) (rest : List ℕ)
    → read_extra sum ip ≡ some (extra, rest)
    → (length rest < length ip) × (extra + 255 * length rest ≤ sum + 255 * length ip)
unfolding read_extra
read_extra-le [] sum extra rest h = absurd (cc)
read_extra-le (b ∷ ip) sum extra rest h =
    if-both
      (λ o.
        o ≡ some (extra, rest)
        → (length rest < length (b ∷ ip))
          × (extra + 255 * length rest ≤ sum + 255 * length (b ∷ ip)))
      (b % 256 == 255) _ _
      (λ full q.
        let later = read_extra-le ip (sum + b % 256) extra rest q in
        (omega (arith, later.0), omega (arith, later.1)))
      (λ _ q.
        let e = some-injective (sum + b % 256, ip) (extra, rest) q in
        (
          omega (arith, ap (λ (t : ℕ × List ℕ). length t.1) e),
          omega (arith, ap (λ (t : ℕ × List ℕ). t.0) e, ap (λ (t : ℕ × List ℕ). length t.1) e),
        ))
      h

-- Reading a length consumes input, and each byte of it counts at most 255.
pub read_varint_extra-le :
    (ip : List ℕ) (extra : ℕ) (rest : List ℕ)
    → read_varint_extra ip ≡ some (extra, rest)
    → (length rest < length ip) × (extra ≤ 255 * length ip)
unfolding read_varint_extra
read_varint_extra-le ip extra rest h =
    let r = read_extra-le ip 0 extra rest h in (r.0, omega (arith, r.1))
