-- ===== src/Bzip2/Header/InUse.antt =====
-- The map of the bytes in use, written by compress_block and read by decode_block of src/bzip2.
use orot.Base.{
  ℕ, zero, suc, ◌+◌, ◌*◌, ◌/◌, ◌%◌, ◌^◌, ◌<◌, ◌≡◌, refl, sym, ap, ◌∙◌, List, [], ◌∷◌, ◌++◌, Bool,
  true, false, ◌==◌, if◌then◌else◌, arith, length, take, drop, replicate, Bool-cases, inl, inr,
  length-take, length-drop, take-append-drop, append-nil, All,
}
use orot.Base.Bits.{bit_or_low, double_shift}
use orot.Base.Bits.{two_pow-pos}
use orot.Base.Digits.{bits}
use native.Mathlib.Nat.{pow-suc, mul-add-div_right, div-eq_of_lt}
use orot.Bzip2.BitStream.Fields.{field_bits, field_bits-append, IsField}
use orot.Bzip2.Header.{
  Parser, any_of, flag_word, coarse_flags, fine_fields, give, bind, field, word_flags, read_groups,
}
use orot.Bzip2.Header.Takes.{Takes, Takes-field, Takes-give, Takes-bind, Takes-as}

abbrev flag_value : List Bool → ℕ
flag_value [] = 0
flag_value (b ∷ flags) = (if b then 2 ^ length flags else 0) + flag_value flags

flag_value-lt : (flags : List Bool) → flag_value flags < 2 ^ length flags
flag_value-lt [] = omega arith
flag_value-lt (true ∷ flags) = omega (arith, pow-suc 2 (length flags), flag_value-lt flags)
flag_value-lt (false ∷ flags) = omega (arith, pow-suc 2 (length flags), flag_value-lt flags)

-- The word with one more flag behind its upper part.
next_flag : (a k : ℕ) → (2 * a + 1) * 2 ^ k ≡ a * 2 ^ suc k + 2 ^ k
next_flag a k = grind (arith, double_shift a k)

no_flag : (a k : ℕ) → 2 * a * 2 ^ k ≡ a * 2 ^ suc k
no_flag a k = grind (arith, double_shift a k)

flag_word_lem :
    (flags : List Bool) (a : ℕ)
    → flag_word flags (a * 2 ^ length flags) ≡ a * 2 ^ length flags + flag_value flags
unfolding flag_word
flag_word_lem [] a = omega arith
flag_word_lem (true ∷ flags) a =
    let k : ℕ = length flags in
    ap (flag_word flags) (
      bit_or_low (suc k) a (2 ^ k) (omega (arith, pow-suc 2 k, two_pow-pos k))
      ∙ sym (next_flag a k))
    ∙ flag_word_lem flags (2 * a + 1)
    ∙ omega (arith, next_flag a k)
flag_word_lem (false ∷ flags) a =
    let k : ℕ = length flags in
    ap (flag_word flags) (sym (no_flag a k))
    ∙ flag_word_lem flags (2 * a)
    ∙ omega (arith, no_flag a k)

upper_part :
    (flags : List Bool) (c : ℕ) → (c * 2 ^ length flags + flag_value flags) / 2 ^ length flags ≡ c
upper_part flags c =
    mul-add-div_right (two_pow-pos (length flags)) c (flag_value flags)
    ∙ ap (λ (t : ℕ). c + t) (div-eq_of_lt (flag_value-lt flags))
    ∙ omega arith

-- The flags of the word are those that were set.
word_flags_lem :
    (flags : List Bool) (a : ℕ)
    → word_flags (length flags) (a * 2 ^ length flags + flag_value flags) ≡ flags
unfolding word_flags
word_flags_lem [] a = refl
word_flags_lem (true ∷ flags) a =
    let k : ℕ = length flags in
    let e : a * 2 ^ suc k + (2 ^ k + flag_value flags) ≡ (2 * a + 1) * 2 ^ k + flag_value flags =
      omega (arith, next_flag a k) in
    let f : ((2 * a + 1) % 2 == 1) ≡ true = ground arith in
    rw (e, upper_part flags (2 * a + 1), f) (ap (◌∷◌ true) (word_flags_lem flags (2 * a + 1)))
word_flags_lem (false ∷ flags) a =
    let k : ℕ = length flags in
    let e : a * 2 ^ suc k + (0 + flag_value flags) ≡ 2 * a * 2 ^ k + flag_value flags =
      omega (arith, no_flag a k) in
    let f : (2 * a % 2 == 1) ≡ false = ground arith in
    rw (e, upper_part flags (2 * a), f) (ap (◌∷◌ false) (word_flags_lem flags (2 * a)))

-- A word and its flags.
pub word_flags-flag_word :
    (flags : List Bool) (n : ℕ)
    → length flags ≡ n
    → (word_flags n (flag_word flags 0) ≡ flags) × (flag_word flags 0 < 2 ^ n)
word_flags-flag_word flags n e =
    let zeros : 0 * 2 ^ length flags ≡ 0 = omega arith in
    let word : flag_word flags 0 ≡ 0 * 2 ^ length flags + flag_value flags =
      ap (flag_word flags) (sym zeros) ∙ flag_word_lem flags 0 in
    rw (sym e, word) (word_flags_lem flags 0, omega (arith, zeros, flag_value-lt flags))

no_flags : (flags : List Bool) → any_of flags ≡ false → flags ≡ replicate (length flags) false
no_flags [] e = refl
no_flags (true ∷ flags) e = absurd (cc)
no_flags (false ∷ flags) e = ap (◌∷◌ false) (no_flags flags e)

pub fine_fields-IsField :
    (n : ℕ) (in_use : List Bool) → length in_use ≡ 16 * n → All IsField (fine_fields n in_use)
unfolding fine_fields
fine_fields-IsField zero in_use e = tt
fine_fields-IsField (suc n) in_use e =
    let word =
      (word_flags-flag_word (take 16 in_use) 16 (omega (arith, length-take 16 in_use))).1 in
    let rest = fine_fields-IsField n (drop 16 in_use) (omega (arith, length-drop 16 in_use)) in
    elim (Bool-cases (any_of (take 16 in_use))) [
      | inl h ↦ rw h ((omega arith, word), rest)
      | inr h ↦ rw h rest
    ]

Takes-group :
    (g tail : List Bool) (p : Parser (List Bool)) (s : List ℕ) (b : Bool)
    → Takes p s tail
    → length g ≡ 16
    → any_of g ≡ b
    → Takes
        (if b
          then bind (field 16) (λ fine. bind p (λ rest. give (word_flags 16 fine ++ rest)))
          else bind p (λ rest. give (replicate 16 false ++ rest)))
        (field_bits (if b then (16, flag_word g 0) ∷ [] else []) ++ s)
        (g ++ tail)
Takes-group g tail p s true takes size e =
    let (flags, word) = word_flags-flag_word g 16 size in
    let last : Takes (give (word_flags 16 (flag_word g 0) ++ tail)) [] (g ++ tail) =
      rw flags (Takes-give (g ++ tail)) in
    let after : Takes (bind p (λ rest. give (word_flags 16 (flag_word g 0) ++ rest))) (s ++ [])
        (g ++ tail) =
      Takes-bind p _ s [] tail (g ++ tail) takes last in
    Takes-as (bind (field 16) (λ fine. bind p (λ rest. give (word_flags 16 fine ++ rest)))) _ _
      (g ++ tail) _
      (ap (λ t. bits 16 (flag_word g 0) ++ t) (append-nil s)
        ∙ ap (λ t. t ++ s) (sym (append-nil (bits 16 (flag_word g 0)))))
      refl
      (Takes-bind (field 16) (λ fine. bind p (λ rest. give (word_flags 16 fine ++ rest)))
        (bits 16 (flag_word g 0)) (s ++ []) (flag_word g 0) (g ++ tail)
        (Takes-field 16 (flag_word g 0) (omega arith) word) after)
Takes-group g tail p s false takes size e =
    let blank : g ≡ replicate 16 false = no_flags g e ∙ ap (λ n. replicate n false) size in
    let last : Takes (give (replicate 16 false ++ tail)) [] (g ++ tail) =
      rw blank (Takes-give (replicate 16 false ++ tail)) in
    Takes-as (bind p (λ rest. give (replicate 16 false ++ rest))) (s ++ []) s (g ++ tail)
      (g ++ tail) (append-nil s) refl
      (Takes-bind p (λ rest. give (replicate 16 false ++ rest)) s [] tail (g ++ tail) takes last)

-- The groups, of 16 bytes each, are read back.
pub Takes-read_groups :
    (n : ℕ) (in_use : List Bool)
    → length in_use ≡ 16 * n
    → Takes (read_groups (coarse_flags n in_use)) (field_bits (fine_fields n in_use)) in_use
unfolding read_groups coarse_flags fine_fields
Takes-read_groups zero [] e = Takes-give []
Takes-read_groups zero (b ∷ in_use) e = absurd (omega arith)
Takes-read_groups (suc n) in_use e =
    let g = take 16 in_use in
    let rest = Takes-read_groups n (drop 16 in_use) (omega (arith, length-drop 16 in_use)) in
    let group =
      Takes-group g (drop 16 in_use) _ (field_bits (fine_fields n (drop 16 in_use))) (any_of g) rest
        (omega (arith, length-take 16 in_use)) refl in
    let stream =
      field_bits-append (if any_of g then (16, flag_word g 0) ∷ [] else [])
        (fine_fields n (drop 16 in_use)) in
    Takes-as (read_groups (coarse_flags (suc n) in_use)) _ _ _ in_use (sym stream)
      (take-append-drop 16 in_use) group
