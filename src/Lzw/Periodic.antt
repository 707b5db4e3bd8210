-- ===== src/Lzw/Periodic.antt =====
-- The periodic form of src/lzw/lzw_block.cpp: what lzw_compress writes for a source that repeats
-- itself, and what lzw_decompress reads.
use orot.Base.{
  ℕ, zero, suc, ◌+◌, ◌-◌, ◌*◌, ◌/◌, ◌%◌, ◌^◌, ◌≤◌, ◌<◌, ◌≡◌, refl, sym, ap, ◌∙◌, inl, inr, true,
  List, [], ◌∷◌, ◌++◌, done, arith, length, take, drop, leb, ◌==◌, if-both, Bool-cases, ==_iff,
  ne-==, ge-ltb, le→leb, lt→ltb, take-append-drop, length-take, length-drop, length-append,
}
use orot.Lzw.Compress.{
  best_period, agrees, le32, write_periodic, lzw_compress, lzw_compress_fixed12,
}
use orot.Lzw.Decompress.{Entry, repeat_period, read_periodic, lzw_decompress}

take_past : (n : ℕ) (w xs : List ℕ) → length w ≤ n → take n (w ++ xs) ≡ w ++ take (n - length w) xs
take_past n [] xs h = let e : n - 0 ≡ n = omega arith in rw e refl
take_past zero (b ∷ w) xs h = absurd (omega arith)
take_past (suc n) (b ∷ w) xs h =
    let e : suc n - suc (length w) ≡ n - length w = omega arith in
    rw e (ap (◌∷◌ b) (take_past n w xs (omega arith)))

take_within : (n : ℕ) (w xs : List ℕ) → n ≤ length w → take n (w ++ xs) ≡ take n w
take_within zero w xs h = refl
take_within (suc n) [] xs h = absurd (omega arith)
take_within (suc n) (b ∷ w) xs h = ap (◌∷◌ b) (take_within n w xs (omega arith))

agrees-take : (later src : List ℕ) → agrees later src ≡ true → later ≡ take (length later) src
unfolding agrees
agrees-take [] src h = refl
agrees-take (b ∷ later) [] h = ground arith
agrees-take (b ∷ later) (a ∷ src) h = elim (Bool-cases (b == a)) [
  | inl p ↦ λ i. (==_iff b a).0 p i ∷ agrees-take later src (ground (arith, h, p)) i
  | inr p ↦ ground (arith, h, p)
]

-- A list that goes on by repeating w is the one that the decoder builds.
repeat_period_lem :
    (fuel left : ℕ) (w xs : List ℕ)
    → left < fuel
    → 1 ≤ length w
    → length xs ≡ left
    → xs ≡ take left (w ++ xs)
    → repeat_period fuel left w ≡ xs
unfolding repeat_period
repeat_period_lem zero left w xs h pos size e = absurd (omega arith)
repeat_period_lem (suc fuel) left w xs h pos size e = elim (Bool-cases (leb (length w) left)) [
  | inl p ↦
      let tail = take (left - length w) xs in
      let whole : xs ≡ w ++ tail = e ∙ take_past left w xs (ground arith) in
      rw p (
        ap (λ r. w ++ r)
          (repeat_period_lem fuel (left - length w) w tail (ground arith) pos
            (ground (arith, length-take (left - length w) xs)) (ap (take (left - length w)) whole))
        ∙ sym whole)
  | inr p ↦ rw p (sym (e ∙ take_within left w xs (ground arith)))
]

-- The source is what repeats its first `period` bytes.
repeat_period-source :
    (period : ℕ) (src : List ℕ)
    → 1 ≤ period
    → period ≤ length src
    → agrees (drop period src) src ≡ true
    → repeat_period (suc (length src)) (length src) (take period src) ≡ src
repeat_period-source period src pos le h =
    repeat_period_lem (suc (length src)) (length src) (take period src) src (omega arith)
      (omega (arith, size)) refl
      (sym (take-append-drop period src)
        ∙ ap (λ r. take period src ++ r) later
        ∙ sym (take_past (length src) (take period src) src (omega (arith, size))))
  where
    size : length (take period src) ≡ period
    size = omega (arith, length-take period src)

    later : drop period src ≡ take (length src - length (take period src)) src
    later =
        agrees-take (drop period src) src h
        ∙ ap (λ n. take n src) (omega (arith, size, length-drop period src))

-- A period of the source, or 0.
data IsPeriod (src : List ℕ) : ℕ → Type 0 where
  no_period : IsPeriod src 0
  a_period :
      {period : ℕ}
      → 1 ≤ period
      → period ≤ 256
      → agrees (drop period src) src ≡ true
      → IsPeriod src period

best_period-IsPeriod :
    (left period : ℕ) (src : List ℕ)
    → 1 ≤ period
    → left + period ≤ 256
    → IsPeriod src (best_period left period src)
unfolding best_period
best_period-IsPeriod zero period src pos le =
    if-both (IsPeriod src) (agrees (drop 256 src) src) _ _
      (λ h. a_period (omega arith) (omega arith) h) (λ _. no_period)
best_period-IsPeriod (suc left) period src pos le =
    if-both (IsPeriod src) (agrees (drop period src) src) _ _ (λ h. a_period pos (omega arith) h)
      (λ _. best_period-IsPeriod left (period + 1) src (omega arith) (omega arith))

period_facts :
    (src : List ℕ) (period : ℕ)
    → IsPeriod src period
    → 0 < period
    → (period ≤ 256) × (agrees (drop period src) src ≡ true)
period_facts src _ no_period h = absurd (omega arith)
period_facts src _ (a_period pos le agree) h = (le, agree)

read_periodic-le32 :
    (dst_cap n period : ℕ) (bytes : List ℕ)
    → n < 2 ^ 32
    → n ≤ dst_cap
    → 1 ≤ period
    → period ≤ 256
    → length bytes ≡ period
    → read_periodic dst_cap (le32 n ++ ((period % 256) ∷ (period / 256 % 256) ∷ bytes))
      ≡ done (repeat_period (suc n) n bytes)
unfolding read_periodic le32
read_periodic-le32 dst_cap n period bytes small fits pos le size =
    let en : n % 256
          + 2 ^ 8 * (n / 2 ^ 8 % 256)
          + 2 ^ 16 * (n / 2 ^ 16 % 256)
          + 2 ^ 24 * (n / 2 ^ 24 % 256)
        ≡ n =
      omega arith in
    let ep : period % 256 + 2 ^ 8 * (period / 256 % 256) ≡ period = omega arith in
    rw
      (
        en,
        ep,
        ne-== period 0 (omega arith),
        ge-ltb 256 period le,
        (==_iff (length bytes) period).1 size,
        ge-ltb dst_cap n fits,
      )
      refl

length-le32 : (n : ℕ) → length (le32 n) ≡ 4
unfolding le32
length-le32 n = refl

-- With codes of at most 12 bits, a source of at least 4096 bytes for which the compressor finds a
-- period is stored as that many bytes and 7 more, if they fit, and lzw_decompress gives it back if
-- it has room for it; whatever the shared tables held. The source is shorter than 2 ^ 31.
pub lzw_decompress-lzw_compress_periodic :
    (codes : ℕ → ℕ) (table : ℕ → Entry) (room dst_cap : ℕ) (src : List ℕ)
    → 4096 ≤ length src
    → length src < 2 ^ 31
    → 0 < best_period 16 1 src
    → best_period 16 1 src + 7 ≤ room
    → length src ≤ dst_cap
    → (packed : List ℕ) × (lzw_compress codes 12 room src ≡ done packed)
      × (length packed ≡ best_period 16 1 src + 7)
      × (lzw_decompress table dst_cap packed ≡ done src)
unfolding lzw_compress lzw_compress_fixed12 write_periodic lzw_decompress le32
lzw_decompress-lzw_compress_periodic codes table room dst_cap src long small found fits le =
    (packed, compressed, packed_size, decompressed)
  where
    period : ℕ
    period = best_period 16 1 src

    facts : (period ≤ 256) × (agrees (drop period src) src ≡ true)
    facts =
        period_facts src period (best_period-IsPeriod 16 1 src (omega arith) (omega arith)) found

    packed : List ℕ
    packed = 0x2C ∷ (le32 (length src) ++ ((period % 256) ∷ (period / 256 % 256) ∷ take period src))

    size : length (take period src) ≡ period
    size = omega (arith, length-take period src, facts.0)

    compressed : lzw_compress codes 12 room src ≡ done packed
    compressed =
        rw
          (
            ge-ltb room 2 (omega arith),
            le→leb 4096 (length src) long,
            lt→ltb 0 period found,
            ge-ltb room (period + 7) fits,
          )
          refl

    packed_size : length packed ≡ period + 7
    packed_size = omega (
      arith,
      size,
      length-le32 (length src),
      length-append (le32 (length src)) ((period % 256) ∷ (period / 256 % 256) ∷ take period src),
    )

    decompressed : lzw_decompress table dst_cap packed ≡ done src
    decompressed =
        read_periodic-le32 dst_cap (length src) period (take period src) (omega arith) le
          (omega arith) facts.0 size
        ∙ ap (λ r. done r)
            (repeat_period-source period src (omega arith) (omega (arith, facts.0)) facts.1)
