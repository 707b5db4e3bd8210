-- ===== src/Simd/HashInsert.antt =====
-- scalar_hash_insert_bulk of src/simd/simd_detect.cpp: the tables `head` and `prev` are functions.
use orot.Base.{
  ℕ, zero, suc, ◌+◌, ◌-◌, ◌*◌, ◌/◌, ◌%◌, ◌^◌, ◌≤◌, ◌<◌, ◌≡◌, refl, ap, sym, ◌∙◌, List, [], ◌∷◌,
  arith, length, get_or, All, ltb, ◌==◌, ==_iff, ne-==, inl, inr, Bool-cases, false, subst,
  if◌then◌else◌, if-both, update,
}

-- The four bytes at a position as a little-endian word, hashed.
unfoldable pub hash_at : List ℕ → ℕ → ℕ → ℕ
hash_at bytes hash_bits i =
    let v =
      get_or bytes i 0
      + 2 ^ 8 * get_or bytes (i + 1) 0
      + 2 ^ 16 * get_or bytes (i + 2) 0
      + 2 ^ 24 * get_or bytes (i + 3) 0 in
    v * 0x1E35A7BD % 2 ^ 32 / 2 ^ (32 - hash_bits) % 2 ^ hash_bits

-- The tables after the first n turns of the loop.
unfoldable pub insert_turns : List ℕ → ℕ → ℕ → (ℕ → ℕ) × (ℕ → ℕ) → (ℕ → ℕ) × (ℕ → ℕ)
insert_turns bytes hash_bits zero tables = tables
insert_turns bytes hash_bits (suc i) tables =
    let before = insert_turns bytes hash_bits i tables in
    let h = hash_at bytes hash_bits i in
    let pos = i % 2 ^ 15 in (update before.0 h pos, update before.1 pos (before.0 h))

-- `head` and `prev`.
unfoldable pub scalar_hash_insert_bulk : List ℕ → ℕ → (ℕ → ℕ) × (ℕ → ℕ) → (ℕ → ℕ) × (ℕ → ℕ)
scalar_hash_insert_bulk bytes hash_bits tables =
    if ltb (length bytes) 4 then tables else insert_turns bytes hash_bits (length bytes - 3) tables

-- The first k entries of the chain from a position.
abbrev pub walk : ℕ → (ℕ → ℕ) → ℕ → List ℕ
walk zero prev p = []
walk (suc k) prev p = p ∷ walk k prev (prev p)

-- The positions below n whose four bytes have the hash, the last first.
abbrev pub positions : List ℕ → ℕ → ℕ → ℕ → List ℕ
positions bytes hash_bits zero h = []
positions bytes hash_bits (suc i) h =
    let before = positions bytes hash_bits i h in
    if hash_at bytes hash_bits i == h then i ∷ before else before

walk-update :
    (k p q v : ℕ) (prev : ℕ → ℕ)
    → All (λ j. j < q) (walk k prev p)
    → walk k (update prev q v) p ≡ walk k prev p
walk-update zero p q v prev below = refl
walk-update (suc k) p q v prev below =
    rw (ne-== p q (omega (arith, below.0))) (ap (◌∷◌ p) (walk-update k (prev p) q v prev below.1))

positions-lt :
    (bytes : List ℕ) (hash_bits n h m : ℕ)
    → n ≤ m
    → All (λ j. j < m) (positions bytes hash_bits n h)
positions-lt bytes hash_bits zero h m le = tt
positions-lt bytes hash_bits (suc i) h m le =
    let before = positions-lt bytes hash_bits i h m (omega (arith, le)) in
    if-both (All (λ j. j < m)) (hash_at bytes hash_bits i == h) _ _
      (λ e. (omega (arith, le), before)) (λ e. before)

module _ (bytes : List ℕ) (hash_bits : ℕ) (tables : (ℕ → ℕ) × (ℕ → ℕ)) where
  walk-insert_turns :
      (n h : ℕ)
      → n ≤ 2 ^ 15
      → walk
          (length (positions bytes hash_bits n h))
          (insert_turns bytes hash_bits n tables).1
          ((insert_turns bytes hash_bits n tables).0 h)
        ≡ positions bytes hash_bits n h
  unfolding insert_turns
  walk-insert_turns zero h le = refl
  walk-insert_turns (suc i) h le =
      let before = insert_turns bytes hash_bits i tables in
      let k = hash_at bytes hash_bits i in
      let pos : i % 2 ^ 15 ≡ i = omega (arith, le) in
      let ih = walk-insert_turns i h (omega (arith, le)) in
      let older = positions bytes hash_bits i h in
      let below : All (λ j. j < i) (walk (length older) before.1 (before.0 h)) =
        subst (All (λ j. j < i)) (sym ih) (positions-lt bytes hash_bits i h i (omega arith)) in
      elim (Bool-cases (k == h)) [
        | inl e ↦
            let same : k ≡ h = (==_iff k h).0 e in
            rw (pos, e, same, (==_iff h h).1 refl, (==_iff i i).1 refl)
              (ap (◌∷◌ i)
                (walk-update (length older) (before.0 h) i (before.0 h) before.1 below ∙ ih))
        | inr e ↦
            let other : (h == k) ≡ false = ground (arith, e) in
            rw (pos, e, other)
              (walk-update (length older) (before.0 h) i (before.0 k) before.1 below ∙ ih)
      ]

  -- On at most 32 KB, scalar_hash_insert_bulk leaves in `head` and `prev` for each hash the chain of
  -- the positions whose four bytes have it, the last first.
  pub walk-scalar_hash_insert_bulk :
      (h : ℕ)
      → length bytes ≤ 2 ^ 15
      → walk
          (length (positions bytes hash_bits (length bytes - 3) h))
          (scalar_hash_insert_bulk bytes hash_bits tables).1
          ((scalar_hash_insert_bulk bytes hash_bits tables).0 h)
        ≡ positions bytes hash_bits (length bytes - 3) h
  unfolding scalar_hash_insert_bulk
  walk-scalar_hash_insert_bulk h le = elim (Bool-cases (ltb (length bytes) 4)) [
    | inl e ↦ let none_left : length bytes - 3 ≡ 0 = ground arith in rw none_left refl
    | inr e ↦ rw e (walk-insert_turns (length bytes - 3) h (omega (arith, le)))
  ]
