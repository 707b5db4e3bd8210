-- ===== src/Bzip2/Rle1/Bounds.antt =====
-- How much rle1_encode of src/bzip2/bzip2_compress.cpp can add.
use orot.Base.{
  length-replicate, drop-replicate, ℕ, zero, suc, ◌+◌, ◌*◌, ◌≤◌, ◌≡◌, ap, ◌∙◌, inl, inr, List, [],
  ◌∷◌, arith, length, replicate, drop, leb, leb→le, length-append, Bool-cases,
}
use orot.Bzip2.Rle1.{run_bytes, rle1_loop, rle1_encode, count_run, count_run-IsRun}

length-run_bytes : (c more : ℕ) → 4 * length (run_bytes c (suc more)) ≤ 5 * suc more
unfolding run_bytes
length-run_bytes c more = elim (Bool-cases (leb 4 (suc more))) [
  | inl long ↦ rw long (omega (arith, leb→le 4 (suc more) long))
  | inr short ↦ rw short (omega (arith, length-replicate (suc more) c))
]

length-rle1_loop : (fuel : ℕ) (src : List ℕ) → 4 * length (rle1_loop fuel src) ≤ 5 * length src
unfolding rle1_loop
length-rle1_loop zero src = omega arith
length-rle1_loop (suc fuel) [] = omega arith
length-rle1_loop (suc fuel) (c ∷ rest) =
    let r = count_run-IsRun rest c 1 (omega arith) in
    let e : count_run rest c 1 ≡ suc r.more = omega (arith, r.sum) in
    let e' : drop (suc r.more) (c ∷ rest) ≡ r.left =
      ap (λ t. drop r.more t) r.split ∙ drop-replicate r.more c r.left in
    let size : length rest ≡ r.more + length r.left =
      ap length r.split
      ∙ length-append (replicate r.more c) r.left
      ∙ ap (λ (n : ℕ). n + length r.left) (length-replicate r.more c) in
    rw (e, e')
      (omega (
        arith,
        length-append (run_bytes c (suc r.more)) (rle1_loop fuel r.left),
        length-run_bytes c r.more,
        length-rle1_loop fuel r.left,
        size,
      ))

-- The encoded block is at most five quarters of the block.
pub length-rle1_encode : (src : List ℕ) → 4 * length (rle1_encode src) ≤ 5 * length src
unfolding rle1_encode
length-rle1_encode src = length-rle1_loop (length src) src
