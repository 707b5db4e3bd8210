-- ===== src/Bzip2/Huffman/Symbols.antt =====
-- The symbols of src/bzip2/bzip2_huffman.cpp in the order of their codes.
use orot.Base.{
  ℕ, zero, suc, ◌+◌, ◌-◌, ◌%◌, ◌^◌, ◌≤◌, ◌<◌, ◌≡◌, refl, sym, ap, subst, ◌∙◌, false, Bool-cases,
  inl, inr, List, [], ◌∷◌, ◌++◌, arith, length, get_or, take, count, length-append,
  get_or-append_right, ◌==◌, ==_iff, ne-==, if◌then◌else◌, update,
}
use orot.Bzip2.Huffman.{next_code, assign_codes, build_codes, symbols_of, perm_of, offset_of}

-- How many symbols before i have the same length.
abbrev pub rank : List ℕ → ℕ → ℕ
rank lens i = count (get_or lens i 0) (take i lens)

pub rank-lt : (lens : List ℕ) (i : ℕ) → i < length lens → rank lens i < count (get_or lens i 0) lens
rank-lt [] i h = absurd (omega arith)
rank-lt (l ∷ lens) zero h = ground arith
rank-lt (l ∷ lens) (suc i) h = ground (arith, rank-lt lens i (omega (arith, h)))

-- The symbols of a length are as many as counted, and the one of rank k is the k-th.
length-symbols_of : (l s : ℕ) (lens : List ℕ) → length (symbols_of l s lens) ≡ count l lens
unfolding symbols_of
length-symbols_of l s [] = refl
length-symbols_of l s (x ∷ lens) = ground (arith, length-symbols_of l (suc s) lens)

symbols_of-rank :
    (lens : List ℕ) (i s l d : ℕ)
    → i < length lens
    → get_or lens i 0 ≡ l
    → get_or (symbols_of l s lens) (count l (take i lens)) d ≡ s + i
unfolding symbols_of
symbols_of-rank [] i s l d h e = absurd (omega arith)
symbols_of-rank (x ∷ lens) zero s l d h e = rw ((==_iff x l).1 e) (omega arith)
symbols_of-rank (x ∷ lens) (suc i) s l d h e =
    let later = symbols_of-rank lens i (suc s) l d (omega (arith, h)) e in
    elim (Bool-cases (x == l)) [
      | inl same ↦
          let shift : 1 + count l (take i lens) ≡ suc (count l (take i lens)) = omega arith in
          rw (same, shift) (omega (arith, later))
      | inr other ↦
          let shift : 0 + count l (take i lens) ≡ count l (take i lens) = omega arith in
          rw (other, shift) (omega (arith, later))
    ]

-- Every entry of the list is a symbol of that length.
symbols_of-get :
    (lens : List ℕ) (s l k d : ℕ)
    → k < count l lens
    → (i : ℕ) × (get_or (symbols_of l s lens) k d ≡ s + i)
      × (i < length lens)
      × (get_or lens i 0 ≡ l)
unfolding symbols_of
symbols_of-get [] s l k d h = absurd (omega arith)
symbols_of-get (x ∷ lens) s l zero d h = elim (Bool-cases (x == l)) [
  | inl same ↦ (0, rw same (omega arith), omega arith, (==_iff x l).0 same)
  | inr other ↦
      let (i, e, lt, eq) = symbols_of-get lens (suc s) l zero d (ground (arith, other)) in
      (suc i, rw other (omega (arith, e)), omega (arith, lt), eq)
]
symbols_of-get (x ∷ lens) s l (suc k) d h = elim (Bool-cases (x == l)) [
  | inl same ↦
      let (i, e, lt, eq) = symbols_of-get lens (suc s) l k d (ground (arith, same)) in
      (suc i, rw same (omega (arith, e)), omega (arith, lt), eq)
  | inr other ↦
      let (i, e, lt, eq) = symbols_of-get lens (suc s) l (suc k) d (ground (arith, other)) in
      (suc i, rw other (omega (arith, e)), omega (arith, lt), eq)
]

get_or-append_left :
    (xs ys : List ℕ) (i d : ℕ) → i < length xs → get_or (xs ++ ys) i d ≡ get_or xs i d
get_or-append_left [] ys i d h = absurd (omega arith)
get_or-append_left (x ∷ xs) ys zero d h = refl
get_or-append_left (x ∷ xs) ys (suc i) d h = get_or-append_left xs ys i d (omega (arith, h))

-- The k-th symbol of a length stands k places behind its offset, whatever longer lengths follow.
perm_of-tower :
    (lens : List ℕ) (l e k d : ℕ)
    → k < count (suc l) lens
    → (length (perm_of lens l) + k < length (perm_of lens (suc l + e)))
      × (get_or (perm_of lens (suc l + e)) (length (perm_of lens l) + k) d
          ≡ get_or (symbols_of (suc l) 0 lens) k d)
unfolding perm_of
perm_of-tower lens l zero k d h =
    let first = perm_of lens l in
    let here = symbols_of (suc l) 0 lens in
    let e : suc l + 0 ≡ suc l = omega arith in
    rw e (
      omega (arith, length-append first here, length-symbols_of (suc l) 0 lens, h),
      get_or-append_right first here k d,
    )
perm_of-tower lens l (suc e) k d h =
    let (lt, same) = perm_of-tower lens l e k d h in
    let so_far = perm_of lens (suc l + e) in
    let here = symbols_of (suc (suc l + e)) 0 lens in
    let shift : suc l + suc e ≡ suc (suc l + e) = omega arith in
    rw shift (
      omega (arith, length-append so_far here, lt),
      get_or-append_left so_far here (length (perm_of lens l) + k) d lt ∙ same,
    )

pub perm_of-offset :
    (lens : List ℕ) (m l k d : ℕ)
    → 0 < l
    → l ≤ m
    → k < count l lens
    → get_or (perm_of lens m) (offset_of lens l + k) d ≡ get_or (symbols_of l 0 lens) k d
unfolding offset_of
perm_of-offset lens m zero k d pos le h = absurd (omega arith)
perm_of-offset lens m (suc l) k d pos le h =
    let e : suc l - 1 ≡ l = omega arith in
    let sum : suc l + (m - suc l) ≡ m = omega (arith, le) in
    rw e (
      subst
        (λ t.
          get_or (perm_of lens t) (length (perm_of lens l) + k) d
          ≡ get_or (symbols_of (suc l) 0 lens) k d)
        sum (perm_of-tower lens l (m - suc l) k d h).1)

-- Behind its offset by its rank stands the symbol.
pub perm_of-rank :
    (lens : List ℕ) (m i d : ℕ)
    → i < length lens
    → 0 < get_or lens i 0
    → get_or lens i 0 ≤ m
    → get_or (perm_of lens m) (offset_of lens (get_or lens i 0) + rank lens i) d ≡ i
perm_of-rank lens m i d h pos le =
    let l = get_or lens i 0 in
    perm_of-offset lens m l (rank lens i) d pos le (rank-lt lens i h)
    ∙ symbols_of-rank lens i 0 l d h refl
    ∙ omega arith

-- Within the count of a length stand only symbols that have it.
pub perm_of-get :
    (lens : List ℕ) (m l k d : ℕ)
    → 0 < l
    → l ≤ m
    → k < count l lens
    → (get_or (perm_of lens m) (offset_of lens l + k) d < length lens)
      × (get_or lens (get_or (perm_of lens m) (offset_of lens l + k) d) 0 ≡ l)
perm_of-get lens m l k d pos le h =
    let (i, e, lt, eq) = symbols_of-get lens 0 l k d h in
    let same : get_or (perm_of lens m) (offset_of lens l + k) d ≡ i =
      perm_of-offset lens m l k d pos le h ∙ e ∙ omega arith in
    rw same (lt, eq)

if_other : (l x a b : ℕ) → (l == x) ≡ false → (if l == x then a else b) ≡ b
if_other l x a b e = rw e refl

-- The code of a symbol is that of the first one of its length plus its rank.
assign_codes-get :
    (lens : List ℕ) (next : ℕ → ℕ) (i : ℕ)
    → i < length lens
    → 0 < get_or lens i 0
    → next (get_or lens i 0) + count (get_or lens i 0) lens < 2 ^ 32
    → get_or (assign_codes next lens) i 0 ≡ next (get_or lens i 0) + rank lens i
unfolding assign_codes
assign_codes-get [] next i h pos small = absurd (omega arith)
assign_codes-get (x ∷ lens) next zero h pos small =
    rw (ne-== x 0 (omega (arith, pos))) (omega arith)
assign_codes-get (x ∷ lens) next (suc i) h pos small =
    let l = get_or lens i 0 in
    let next' = update next x ((next x + 1) % 2 ^ 32) in
    let later = λ (n : ℕ → ℕ) (t : n l + count l lens < 2 ^ 32).
      assign_codes-get lens n i (omega (arith, h)) pos t in
    elim (Bool-cases (x == l)) [
      | inl same ↦
          let xl = (==_iff x l).0 same in
          let moved : next' l ≡ next l + 1 =
            rw ((==_iff l x).1 (sym xl)) (omega (arith, ap next xl, rw same at small)) in
          let some_code : (x == 0) ≡ false = ne-== x 0 (omega (arith, xl, pos)) in
          rw (some_code, same)
            (later next' (omega (arith, moved, rw same at small)) ∙ omega (arith, moved))
      | inr other ↦
          let kept : next' l ≡ next l = if_other l x _ _ (ground (arith, other)) in
          let small' : next l + count l lens < 2 ^ 32 = omega (arith, rw other at small) in
          elim (Bool-cases (x == 0)) [
            | inl e ↦ rw (e, other) (later next small' ∙ omega arith)
            | inr e ↦
                rw (e, other) (later next' (omega (arith, kept, small')) ∙ omega (arith, kept))
          ]
    ]

-- The code that the encoder gives to a symbol.
pub build_codes-get :
    (lens : List ℕ) (i : ℕ)
    → i < length lens
    → 0 < get_or lens i 0
    → next_code lens (get_or lens i 0) + count (get_or lens i 0) lens < 2 ^ 32
    → get_or (build_codes lens) i 0 ≡ next_code lens (get_or lens i 0) + rank lens i
unfolding build_codes
build_codes-get lens i h pos small = assign_codes-get lens (next_code lens) i h pos small
