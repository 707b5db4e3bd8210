-- ===== src/Parallel/Compressor/Join.antt =====
-- The blocks of src/parallel/parallel_compressor.cpp: the tasks may end in any order, and the blocks
-- together are the source.
use orot.Base.{
  ℕ, zero, suc, ◌+◌, ◌-◌, ◌*◌, ◌≤◌, ◌<◌, ◌≡◌, refl, sym, ap, ◌∙◌, ◌⊎◌, inl, inr, min, Bool, true,
  false, Bool-cases, List, [], ◌∷◌, ◌++◌, arith, length, take, drop, length-drop, take-append-drop,
  count, ltb, ◌==◌, ==_iff, ne-==, if-both, update,
}
use native.Mathlib.Nat.{div-add-mod', mod-lt}
use orot.Parallel.Compressor.{
  BlockEncoder, Settings, count_blocks, block_at, run_tasks, encode_blocks,
}

-- The n blocks from the i-th on, and what they hold.
abbrev pub blocks_from : ℕ → List ℕ → ℕ → ℕ → List (List ℕ)
blocks_from block_size src i zero = []
blocks_from block_size src i (suc n) =
    block_at block_size src i ∷ blocks_from block_size src (suc i) n

abbrev pub concat : List (List ℕ) → List ℕ
concat [] = []
concat (block ∷ blocks) = block ++ concat blocks

abbrev pub is_last : List (List ℕ) → Bool
is_last [] = true
is_last (block ∷ blocks) = false

module _ (encoder : BlockEncoder) where
  -- One block after the other, each compressed where it stands.
  abbrev pub encode_list : ℕ → List (List ℕ) → encoder.BitWriter → encoder.BitWriter
  encode_list level [] bw = bw
  encode_list level (block ∷ blocks) bw =
      encode_list level blocks
        (encoder.encode_block level (encoder.lz77_compress level block) block bw (is_last blocks))

  -- The slot of a block that has a task holds its tokens, whatever the order.
  pub run_tasks-slot :
      (settings : Settings) (src order : List ℕ) (slots : ℕ → encoder.Tokens) (i : ℕ)
      → (0 < count i order)
        ⊎ (slots i ≡ encoder.lz77_compress settings.level (block_at settings.block_size src i))
      → run_tasks encoder settings src order slots i
        ≡ encoder.lz77_compress settings.level (block_at settings.block_size src i)
  unfolding run_tasks
  run_tasks-slot settings src [] slots i (inl h) = absurd (omega (arith, h))
  run_tasks-slot settings src [] slots i (inr h) = h
  run_tasks-slot settings src (j ∷ order) slots i h =
      run_tasks-slot settings src order _ i (elim (Bool-cases (i == j)) [
        | inl e ↦ inr (
            rw e (
              ap (λ k. encoder.lz77_compress settings.level (block_at settings.block_size src k))
                (sym ((==_iff i j).0 e))))
        | inr e ↦ later e h
      ])
    where
      later :
          (i == j) ≡ false
          → (0 < count i (j ∷ order))
            ⊎ (slots i ≡ encoder.lz77_compress settings.level (block_at settings.block_size src i))
          → (0 < count i order)
            ⊎ (update slots j
                  (encoder.lz77_compress settings.level (block_at settings.block_size src j))
                  i
                ≡ encoder.lz77_compress settings.level (block_at settings.block_size src i))
      later e (inl h') = inl (ground (arith, e, h'))
      later e (inr h') = inr (rw e h')

  pub encode_blocks-list :
      (settings : Settings) (src : List ℕ) (slots : ℕ → encoder.Tokens) (n i : ℕ)
      (bw : encoder.BitWriter)
      → ((k : ℕ)
          → k < i + n
          → slots k ≡ encoder.lz77_compress settings.level (block_at settings.block_size src k))
      → encode_blocks encoder settings src slots n i bw
        ≡ encode_list settings.level (blocks_from settings.block_size src i n) bw
  unfolding encode_blocks
  encode_blocks-list settings src slots zero i bw h = refl
  encode_blocks-list settings src slots (suc n) i bw h =
      encode_blocks-list settings src slots n (suc i) _ (λ k lt. h k (omega (arith, lt)))
      ∙ rw (h i (omega arith), flag n) refl
    where
      flag : (m : ℕ) → (m == 0) ≡ is_last (blocks_from settings.block_size src (suc i) m)
      flag zero = refl
      flag (suc m) = ne-== (suc m) 0 (omega arith)

take-min : (n : ℕ) (xs : List ℕ) → take (min n (length xs)) xs ≡ take n xs
take-min zero xs = let e : min 0 (length xs) ≡ 0 = omega arith in rw e refl
take-min (suc n) [] = let e : min (suc n) 0 ≡ 0 = omega arith in rw e refl
take-min (suc n) (x ∷ xs) =
    let e : min (suc n) (suc (length xs)) ≡ suc (min n (length xs)) = omega arith in
    rw e (ap (◌∷◌ x) (take-min n xs))

drop-drop : (m n : ℕ) (xs : List ℕ) → drop m (drop n xs) ≡ drop (n + m) xs
drop-drop m zero xs = let e : 0 + m ≡ m = omega arith in rw e refl
drop-drop zero (suc n) [] = let e : suc n + 0 ≡ suc n = omega arith in rw e refl
drop-drop (suc m) (suc n) [] = let e : suc n + suc m ≡ suc (n + suc m) = omega arith in rw e refl
drop-drop m (suc n) (x ∷ xs) =
    let e : suc n + m ≡ suc (n + m) = omega arith in rw e (drop-drop m n xs)

drop_all : (n : ℕ) (xs : List ℕ) → length xs ≤ n → drop n xs ≡ []
drop_all zero [] h = refl
drop_all zero (x ∷ xs) h = absurd (omega (arith, h))
drop_all (suc n) [] h = refl
drop_all (suc n) (x ∷ xs) h = drop_all n xs (omega (arith, h))

-- The blocks up to one that reaches the end are what is behind the first one's start.
concat-blocks_from :
    (block_size : ℕ) (src : List ℕ) (n i : ℕ)
    → length src ≤ (i + n) * block_size
    → concat (blocks_from block_size src i n) ≡ drop (i * block_size) src
unfolding block_at
concat-blocks_from block_size src zero i enough =
    let e : i + 0 ≡ i = omega arith in sym (drop_all (i * block_size) src (rw e at enough))
concat-blocks_from block_size src (suc n) i enough =
    let start : ℕ = i * block_size in
    let e : i + suc n ≡ suc i + n = omega arith in
    let next : suc i * block_size ≡ start + block_size = grind arith in
    let here : take (min block_size (length src - start)) (drop start src)
        ≡ take block_size (drop start src) =
      ap (λ t. take (min block_size t) (drop start src)) (sym (length-drop start src))
      ∙ take-min block_size (drop start src) in
    ap (λ t. t ++ concat (blocks_from block_size src (suc i) n)) here
    ∙ ap (λ t. take block_size (drop start src) ++ t)
        (concat-blocks_from block_size src n (suc i) (rw e at enough)
          ∙ ap (λ t. drop t src) next
          ∙ sym (drop-drop block_size start src))
    ∙ take-append-drop block_size (drop start src)

-- The blocks that are counted are as many as it takes.
count_blocks-enough :
    (block_size n : ℕ) → 0 < block_size → n ≤ count_blocks block_size n * block_size
unfolding count_blocks
count_blocks-enough block_size n pos =
    if-both (λ k. n ≤ k * block_size) (ltb 0 n) _ 1
      (λ e.
        let whole = div-add-mod' (n + block_size - 1) block_size in
        let part = mod-lt (n + block_size - 1) pos in omega (arith, whole, part, pos))
      (λ e. ground (arith, e))

-- Together the blocks are the source.
pub concat-count_blocks :
    (block_size : ℕ) (src : List ℕ)
    → 0 < block_size
    → concat (blocks_from block_size src 0 (count_blocks block_size (length src))) ≡ src
concat-count_blocks block_size src pos =
    let n = count_blocks block_size (length src) in
    let e : 0 + n ≡ n = omega arith in
    concat-blocks_from block_size src n 0 (rw e (count_blocks-enough block_size (length src) pos))
    ∙ start
  where
    start : drop (0 * block_size) src ≡ src
    start = let e : 0 * block_size ≡ 0 = omega arith in rw e refl
