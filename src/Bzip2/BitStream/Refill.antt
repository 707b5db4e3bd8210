-- ===== src/Bzip2/BitStream/Refill.antt =====
-- BitReader::refill of src/bzip2/bzip2_decompress.cpp moves bytes of the source into the buffer.
use orot.Base.{
  ℕ, suc, ◌+◌, ◌-◌, ◌*◌, ◌/◌, ◌%◌, ◌^◌, bit_or, ◌≤◌, ◌<◌, ◌≡◌, refl, sym, ap, subst, ◌∙◌, ◌⊎◌,
  Bool-cases, inl, inr, List, [], ◌∷◌, ◌++◌, arith, length, take, drop, All-take, All-drop,
  length-take, length-drop, ltb, leb, if-both, if◌then◌else◌, append_assoc, take-append-drop,
  take_slice, append-nil, ltb→lt, leb→le,
}
use orot.Base.Bits.{two_pow-pos, two_pow-add}
use orot.Base.Digits.{bits, byte_bits, byte_bits-append, bits_split, bits_shift_or, bits-mod}
use native.Mathlib.Nat.{mul-mod_left, div-div-eq-div-mul, div-lt_iff_lt-mul}
use orot.Bzip2.BitStream.{Reader, word_of, refill_bytes, refill_word, refill}
use orot.Bzip2.BitStream.RoundTrip.{IsBytes, remaining}

-- The digits of a word are those of its bytes.
bits-word_of :
    (k acc : ℕ) (bytes : List ℕ)
    → IsBytes bytes
    → bits (k + length bytes * 8) (word_of acc bytes) ≡ bits k acc ++ byte_bits bytes
unfolding word_of
bits-word_of k acc [] small =
    let e : k + 0 ≡ k = omega arith in rw e (sym (append-nil (bits k acc)))
bits-word_of k acc (byte ∷ bytes) small =
    let e : k + suc (length bytes) * 8 ≡ k + 8 + length bytes * 8 = omega arith in
    let high : (acc * 2 ^ 8 + byte) / 2 ^ 8 ≡ acc = omega (arith, small.0) in
    ap (λ n. bits n (word_of (acc * 2 ^ 8 + byte) bytes)) e
    ∙ bits-word_of (k + 8) (acc * 2 ^ 8 + byte) bytes small.1
    ∙ ap (λ t. t ++ byte_bits bytes)
        (bits_split k 8 (acc * 2 ^ 8 + byte)
          ∙ ap (λ t. bits k t ++ bits 8 (acc * 2 ^ 8 + byte)) high
          ∙ ap (λ t. bits k acc ++ t) (low byte acc small.0))
    ∙ append_assoc (bits k acc) (bits 8 byte) (byte_bits bytes)
  where
    low : (b a : ℕ) → b < 256 → bits 8 (a * 2 ^ 8 + b) ≡ bits 8 b
    low b a h =
        let e : (a * 2 ^ 8 + b) % 2 ^ 8 ≡ b = omega (arith, h) in
        sym (bits-mod 8 8 (a * 2 ^ 8 + b) (omega arith)) ∙ ap (bits 8) e

-- The bytes behind the first ones are the lower part of the word.
word_of-div :
    (acc : ℕ) (bytes : List ℕ) → IsBytes bytes → word_of acc bytes / 2 ^ (length bytes * 8) ≡ acc
unfolding word_of
word_of-div acc [] small = omega arith
word_of-div acc (byte ∷ bytes) small =
    let e : suc (length bytes) * 8 ≡ length bytes * 8 + 8 = omega arith in
    let w = word_of (acc * 2 ^ 8 + byte) bytes in
    ap (λ t. w / 2 ^ t) e
    ∙ ap (λ t. w / t) (two_pow-add (length bytes * 8) 8)
    ∙ sym (div-div-eq-div-mul w (2 ^ (length bytes * 8)) (2 ^ 8))
    ∙ ap (λ t. t / 2 ^ 8) (word_of-div (acc * 2 ^ 8 + byte) bytes small.1)
    ∙ omega (arith, small.0)

word_of-append : (acc : ℕ) (xs ys : List ℕ) → word_of acc (xs ++ ys) ≡ word_of (word_of acc xs) ys
unfolding word_of
word_of-append acc [] ys = refl
word_of-append acc (x ∷ xs) ys = word_of-append (acc * 2 ^ 8 + x) xs ys

word_of-lt : (bytes : List ℕ) → IsBytes bytes → word_of 0 bytes < 2 ^ (length bytes * 8)
word_of-lt bytes small =
    (div_zero (word_of 0 bytes) (2 ^ (length bytes * 8)) (two_pow-pos (length bytes * 8)))
      (word_of-div 0 bytes small)
  where
    div_zero : (x y : ℕ) → 0 < y → x / y ≡ 0 → x < y
    div_zero x y pos e = omega (arith, (div-lt_iff_lt-mul {x = x} {y = 1} pos).0 (omega (arith, e)))

-- A shift by the whole width leaves nothing, as the code writes it.
whole_shift :
    (shift buf : ℕ)
    → shift ≤ 64
    → (if ltb shift 64 then buf * 2 ^ shift % 2 ^ 64 else 0) ≡ buf * 2 ^ shift % 2 ^ 64
whole_shift shift buf le = elim (Bool-cases (ltb shift 64)) [
  | inl e ↦ rw e refl
  | inr e ↦
      let all : shift ≡ 64 = ground (arith, e, le) in
      let gone : buf * 2 ^ 64 % 2 ^ 64 ≡ 0 = mul-mod_left buf (2 ^ 64) in
      rw e (sym (ap (λ t. buf * 2 ^ t % 2 ^ 64) all ∙ gone))
]

-- Of eight bytes, the first n as the upper part of their word.
word_of-front :
    (n : ℕ) (src : List ℕ)
    → n ≤ 8
    → 8 ≤ length src
    → IsBytes src
    → word_of 0 (take 8 src) / 2 ^ (64 - n * 8) ≡ word_of 0 (take n src)
word_of-front n src le enough small =
    let later = take (8 - n) (drop n src) in
    let eight : n + (8 - n) ≡ 8 = omega (arith, le) in
    let size : length later ≡ 8 - n =
      omega (arith, length-take (8 - n) (drop n src), length-drop n src, enough, le) in
    let later_small =
      All-take (λ b. b < 256) (8 - n) (drop n src) (All-drop (λ b. b < 256) n src small) in
    let shift : 64 - n * 8 ≡ length later * 8 = omega (arith, size, le) in
    ap (λ t. word_of 0 (take t src) / 2 ^ (64 - n * 8)) (sym eight)
    ∙ ap (λ t. word_of 0 t / 2 ^ (64 - n * 8)) (sym (take_slice n (8 - n) src))
    ∙ ap (λ t. t / 2 ^ (64 - n * 8)) (word_of-append 0 (take n src) later)
    ∙ ap (λ t. word_of (word_of 0 (take n src)) later / 2 ^ t) shift
    ∙ word_of-div (word_of 0 (take n src)) later later_small

-- The stream is the same, and the buffer is full or the source is used up.
abbrev pub IsRefilled : Reader → Reader → Type 0
IsRefilled r r' =
    (remaining r' ≡ remaining r)
    × (r'.buf_bits ≤ 64)
    × ((56 < r'.buf_bits) ⊎ (r'.src ≡ []))
    × IsBytes r'.src

refill_word-IsRefilled :
    (r : Reader) → IsBytes r.src → r.buf_bits ≤ 56 → 8 ≤ length r.src → IsRefilled r (refill_word r)
unfolding refill_word
refill_word-IsRefilled r small room enough =
    let k = r.buf_bits in
    let slots : ℕ = (64 - k) / 8 in
    let shift : ℕ = slots * 8 in
    let few : slots ≤ 8 = omega (arith, room) in
    let front = take slots r.src in
    let front_small = All-take (λ b. b < 256) slots r.src small in
    let size : length front ≡ slots = omega (arith, length-take slots r.src, few, enough) in
    let value : ℕ = word_of 0 (take 8 r.src) / 2 ^ (64 - shift) in
    let upper : value ≡ word_of 0 front = word_of-front slots r.src few enough small in
    let wide : length front * 8 ≡ shift = omega (arith, size) in
    let value_lt : value < 2 ^ shift =
      subst (λ t. value < 2 ^ t) wide (omega (arith, upper, word_of-lt front front_small)) in
    let whole : 0 + length front * 8 ≡ shift = omega (arith, wide) in
    let digits : bits shift value ≡ byte_bits front =
      ap (bits shift) upper
      ∙ ap (λ t. bits t (word_of 0 front)) (sym whole)
      ∙ bits-word_of 0 0 front front_small in
    let shifted = whole_shift shift r.buf (omega (arith, few)) in
    (
      ap (λ t. bits (k + shift) (bit_or t value) ++ byte_bits (drop slots r.src)) shifted
          ∙ ap (λ t. t ++ byte_bits (drop slots r.src))
              (bits_shift_or k shift r.buf value (omega (arith, room)) value_lt)
          ∙ append_assoc (bits k r.buf) (bits shift value) (byte_bits (drop slots r.src))
          ∙ ap (λ t. bits k r.buf ++ (t ++ byte_bits (drop slots r.src))) digits
          ∙ ap (λ t. bits k r.buf ++ t)
              (sym (byte_bits-append front (drop slots r.src))
                ∙ ap byte_bits (take-append-drop slots r.src)),
      omega (arith, room),
      inl (omega (arith, room)),
      All-drop (λ b. b < 256) slots r.src small,
    )

refill_bytes-IsRefilled :
    (src : List ℕ) (buf buf_bits : ℕ)
    → IsBytes src
    → buf_bits ≤ 64
    → IsRefilled
        (record { src = src; buf = buf; buf_bits = buf_bits })
        (refill_bytes src buf buf_bits)
unfolding refill_bytes
refill_bytes-IsRefilled [] buf k small le = (refl, le, inr refl, tt)
refill_bytes-IsRefilled (byte ∷ src) buf k small le =
    if-both (IsRefilled (record { src = byte ∷ src; buf = buf; buf_bits = k })) (leb k 56) _ _
      (λ e.
        let room = leb→le k 56 e in
        let next : ℕ = bit_or (buf * 2 ^ 8 % 2 ^ 64) byte in
        let (same, top, full, rest) =
          refill_bytes-IsRefilled src next (k + 8) small.1 (omega (arith, room)) in
        (
          same
              ∙ ap (λ t. t ++ byte_bits src)
                  (bits_shift_or k 8 buf byte (omega (arith, room)) small.0)
              ∙ append_assoc (bits k buf) (bits 8 byte) (byte_bits src),
          top,
          full,
          rest,
        ))
      (λ e. (refl, le, inl (ground (arith, e)), small))

-- On bytes and a buffer of at most 64 bits, refill keeps the bits that are still to be read, and
-- leaves more than 56 of them in the buffer, at most 64, unless the source is used up.
pub refill-IsRefilled : (r : Reader) → IsBytes r.src → r.buf_bits ≤ 64 → IsRefilled r (refill r)
unfolding refill
refill-IsRefilled r small le =
    if-both (IsRefilled r) (ltb 56 r.buf_bits) _ _
      (λ e. (refl, le, inl (ltb→lt 56 r.buf_bits e), small))
      (λ few.
        if-both (IsRefilled r) (leb 8 (length r.src)) _ _
          (λ e. refill_word-IsRefilled r small (ground (arith, few)) (leb→le 8 (length r.src) e))
          (λ _. refill_bytes-IsRefilled r.src r.buf r.buf_bits small le))
