-- ===== src/Bzip2/HuffmanDecode/Codes.antt =====
-- decode_sym of src/bzip2/bzip2_huffman.cpp, bit by bit, undoes build_codes.
use orot.Base.{
  ℕ, zero, suc, ◌+◌, ◌-◌, ◌*◌, ◌/◌, ◌%◌, ◌^◌, bit_or, ◌≤◌, ◌<◌, ◌≡◌, refl, sym, ap, subst, ◌∙◌,
  true, Bool-cases, inl, inr, List, [], ◌∷◌, ◌++◌, arith, length, get_or, if-both, if◌then◌else◌,
}
use orot.Base.Bits.{two_pow-pos}
use orot.Base.Digits.{bits, bits_split}
use native.Mathlib.Nat.{
  div-eq_of_lt, div-le_self, le-div_iff_mul-le, div-div-eq-div-mul, pow-suc, pow-le-pow_right,
}
use orot.Bzip2.Header.{Parser, give}
use orot.Bzip2.Header.Takes.{Takes, Takes-bind, Takes-give, Takes-as}
use orot.Bzip2.Huffman.{
  find_max_len, build_codes, perm_of, offset_of, bl_count, base_of, limit_of, build_table,
  FastEntry,
}
use orot.Bzip2.Huffman.Canonical.{
  IsAlphabet, base_of-next_code, base_of-fits, get_or-find_max_len, find_max_len-le, bl_count-le,
  base_of-lt, base_of-tower,
}
use orot.Bzip2.Huffman.Symbols.{build_codes-get, rank, rank-lt, perm_of-rank}
use orot.Bzip2.HuffmanDecode.{next_bit, within, symbol_at, decode_from, decode_slow}
use orot.Bzip2.HuffmanDecode.Slow.{
  IsCoded, bit_or-bit, Takes-next_bit, within-below, symbol_at-perm, bl_count-count,
}

bits-one : (x : ℕ) → bits 1 (x % 2) ≡ bits 1 x
bits-one x = let e : x % 2 % 2 ≡ x % 2 = omega arith in ap (λ t. t ∷ []) e

shift_in :
    (c d : ℕ)
    → c / 2 ^ suc d < 2 ^ 31
    → bit_or (c / 2 ^ suc d * 2 % 2 ^ 32) (c / 2 ^ d % 2) ≡ c / 2 ^ d
shift_in c d small =
    let half : c / 2 ^ suc d ≡ c / 2 ^ d / 2 =
      ap (λ t. c / t) (pow-suc 2 d) ∙ sym (div-div-eq-div-mul c (2 ^ d) 2) in
    bit_or-bit (c / 2 ^ suc d) (c / 2 ^ d % 2) small (omega arith) ∙ omega (arith, half)

whole : (c : ℕ) → c ≡ c / 2 ^ 0
whole c = omega arith

module _ (lens : List ℕ) (alphabet : IsAlphabet lens) (m : ℕ) (le : m ≤ 20) (fast : List FastEntry)
    (i : ℕ) (coded : IsCoded lens i) (short : get_or lens i 0 ≤ m) (c : ℕ)
    (code : c ≡ base_of lens (get_or lens i 0) + rank lens i) (fits : c < 2 ^ get_or lens i 0) where
  code_below : c < base_of lens (get_or lens i 0) + bl_count lens (get_or lens i 0)
  code_below = omega (
    arith,
    code,
    rank-lt lens i coded.0,
    bl_count-count lens alphabet m le fast (get_or lens i 0) coded.1,
  )

  -- At the end of a code its symbol is found.
  code_found : symbol_at (build_table lens m fast) (get_or lens i 0) c ≡ i
  code_found =
      let l = get_or lens i 0 in
      let above : base_of lens l ≤ c = omega (arith, code) in
      let k : c - base_of lens l ≡ rank lens i = omega (arith, code) in
      symbol_at-perm lens alphabet m le fast l c (omega (arith, short, le)) above code_below
      ∙ ap (λ t. get_or (perm_of lens m) (offset_of lens l + t) (length lens)) k
      ∙ perm_of-rank lens m i (length lens) coded.0 coded.1 short

  -- One turn: the bit of the code goes over to the prefix.
  turn-Takes :
      (d l k : ℕ)
      → l < 20
      → c / 2 ^ suc d < 2 ^ 31
      → Takes
          (if within (limit_of lens (suc l)) (c / 2 ^ d)
            then give (symbol_at (build_table lens m fast) (suc l) (c / 2 ^ d))
            else decode_from (build_table lens m fast) k (suc (suc l)) (c / 2 ^ d))
          (bits d c)
          i
      → Takes
          (decode_from (build_table lens m fast) (suc k) (suc l) (c / 2 ^ suc d))
          (bits (suc d) c)
          i
  unfolding decode_from build_table
  turn-Takes d l k low small rest =
      let t = build_table lens m fast in
      let bit : ℕ = c / 2 ^ d % 2 in
      let first : Takes next_bit (bits 1 (c / 2 ^ d)) bit =
        Takes-as next_bit (bits 1 bit) (bits 1 (c / 2 ^ d)) bit bit (bits-one (c / 2 ^ d)) refl
          (Takes-next_bit bit (omega arith)) in
      let one_more : 1 + d ≡ suc d = omega arith in
      let split : bits 1 (c / 2 ^ d) ++ bits d c ≡ bits (suc d) c =
        sym (bits_split 1 d c) ∙ ap (λ n. bits n c) one_more in
      Takes-as (decode_from t (suc k) (suc l) (c / 2 ^ suc d)) _ (bits (suc d) c) i i split refl (
        Takes-bind next_bit _ (bits 1 (c / 2 ^ d)) (bits d c) bit i first
          (rw (shift_in c d small) rest))

  prefix-small : (d : ℕ) → c / 2 ^ d < 2 ^ 31
  prefix-small d =
      let top : 2 ^ get_or lens i 0 ≤ 2 ^ 20 =
        pow-le-pow_right {n = 2} (omega arith) {i = get_or lens i 0} {j = 20}
          (omega (arith, short, le)) in
      omega (arith, div-le_self c (2 ^ d), fits, top)

  -- With all its bits the code is within the limit of its length.
  code_hit :
      (l : ℕ)
      → l ≡ get_or lens i 0
      → (miss : Parser ℕ)
      → Takes
          (if within (limit_of lens l) c
            then give (symbol_at (build_table lens m fast) l c)
            else miss)
          []
          i
  code_hit l at miss =
      let L = get_or lens i 0 in
      let above : base_of lens L ≤ c = omega (arith, code) in
      let test = within-below lens alphabet L c (omega (arith, short, le)) above in
      let hit : within (limit_of lens L) c ≡ true = elim (Bool-cases (within (limit_of lens L) c)) [
        | inl e ↦ e
        | inr e ↦ absurd (omega (arith, test.1 e, code_below))
      ] in
      rw (at, hit) (Takes-as (give _) [] [] _ i refl code_found (Takes-give _))

  -- A prefix of the code lies behind the codes of its own length.
  code_miss :
      (l d : ℕ)
      → l + suc d ≡ get_or lens i 0
      → (hit miss : Parser ℕ) (s : List ℕ) → Takes miss s i
      → Takes (if within (limit_of lens l) (c / 2 ^ suc d) then hit else miss) s i
  code_miss l d at hit miss s rest =
      let tower = base_of-tower lens alphabet l d (omega (arith, at, short, le)) in
      let end : (base_of lens l + bl_count lens l) * 2 ^ suc d ≤ c =
        omega (arith, code, rw at at tower) in
      let past = (le-div_iff_mul-le (two_pow-pos (suc d))).1 end in
      let test =
        within-below lens alphabet l (c / 2 ^ suc d) (omega (arith, at, short, le))
          (omega (arith, past)) in
      if-both (λ p. Takes p s i) (within (limit_of lens l) (c / 2 ^ suc d)) hit miss
        (λ e. absurd (omega (arith, test.0 e, past))) (λ e. rest)

  pub decode_from-Takes :
      (d l k : ℕ)
      → l + suc d ≡ get_or lens i 0
      → suc d ≤ k
      → Takes (decode_from (build_table lens m fast) k (suc l) (c / 2 ^ suc d)) (bits (suc d) c) i
  decode_from-Takes d l zero at room = absurd (omega arith)
  decode_from-Takes zero l (suc k) at room =
      turn-Takes zero l k (omega (arith, at, short, le)) (prefix-small 1) (
        subst
          (λ v.
            Takes
              (if within (limit_of lens (suc l)) v
                then give (symbol_at (build_table lens m fast) (suc l) v)
                else decode_from (build_table lens m fast) k (suc (suc l)) v)
              [] i)
          (whole c) (code_hit (suc l) (omega (arith, at)) _))
  decode_from-Takes (suc d) l (suc k) at room =
      turn-Takes (suc d) l k (omega (arith, at, short, le)) (prefix-small (suc (suc d))) (
        code_miss (suc l) d (omega (arith, at)) _ _ (bits (suc d) c)
          (decode_from-Takes d (suc l) k (omega (arith, at)) (omega (arith, room))))

-- The longest length is not used up: the codes form a prefix code.
abbrev pub IsPrefixCode : List ℕ → Type 0
IsPrefixCode lens = let m = find_max_len lens 0 in base_of lens m + bl_count lens m ≤ 2 ^ m

-- A code of the encoder is the first of its length plus its rank, and fits into its length.
pub build_codes-fits :
    (lens : List ℕ) (i : ℕ)
    → IsAlphabet lens
    → IsPrefixCode lens
    → IsCoded lens i
    → (get_or (build_codes lens) i 0 ≡ base_of lens (get_or lens i 0) + rank lens i)
      × (get_or (build_codes lens) i 0 < 2 ^ get_or lens i 0)
build_codes-fits lens i alphabet prefix coded =
    let l = get_or lens i 0 in
    let m = find_max_len lens 0 in
    let longest = find_max_len-le lens 0 (omega arith) alphabet.1 in
    let short = get_or-find_max_len lens 0 i in
    let small = base_of-lt lens alphabet l (omega (arith, short, longest)) in
    let fits = base_of-fits lens alphabet m l longest prefix short in
    let turned = base_of-next_code lens l in
    let c = bl_count-count lens alphabet m longest [] l coded.1 in
    let n = bl_count-le lens l in
    let code = build_codes-get lens i coded.0 coded.1 (omega (arith, small, turned, c, n)) in
    (omega (arith, code, turned), omega (arith, code, turned, fits, c, rank-lt lens i coded.0))

-- For at most 258 lengths up to 20 that leave a prefix code, the loop of decode_sym, bit by bit,
-- takes the code that build_codes gives to a symbol, and just that, and gives the symbol.
pub decode_slow-build_codes :
    (lens : List ℕ) (i : ℕ) (fast : List FastEntry)
    → IsAlphabet lens
    → IsPrefixCode lens
    → IsCoded lens i
    → Takes
        (decode_slow (build_table lens (find_max_len lens 0) fast))
        (bits (get_or lens i 0) (get_or (build_codes lens) i 0))
        i
unfolding decode_slow build_table
decode_slow-build_codes lens i fast alphabet prefix coded =
    let m = find_max_len lens 0 in
    let l = get_or lens i 0 in
    let c = get_or (build_codes lens) i 0 in
    let (code, fits) = build_codes-fits lens i alphabet prefix coded in
    let longest = find_max_len-le lens 0 (omega arith) alphabet.1 in
    let short = get_or-find_max_len lens 0 i in
    let d : ℕ = l - 1 in
    let sum : suc d ≡ l = omega (arith, coded.1) in
    let none_yet : c / 2 ^ suc d ≡ 0 = div-eq_of_lt (rw (sym sum) at fits) in
    let takes =
      decode_from-Takes lens alphabet m longest fast i coded short c code fits d 0 m
        (omega (arith, sum)) (omega (arith, sum, short)) in
    subst (λ v. Takes (decode_from (build_table lens m fast) m 1 v) (bits l c) i) none_yet
      (subst (λ n. Takes (decode_from (build_table lens m fast) m 1 (c / 2 ^ suc d)) (bits n c) i)
        sum takes)
