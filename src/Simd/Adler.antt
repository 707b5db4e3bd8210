-- ===== src/Simd/Adler.antt =====
-- scalar_adler32 of src/simd/simd_detect.cpp, against the sums of Adler-32 without chunks or wraps.
use orot.Base.{
  ℕ, zero, suc, ◌+◌, ◌*◌, ◌/◌, ◌%◌, ◌^◌, ◌≤◌, ◌<◌, ◌≡◌, refl, sym, ap, ◌∙◌, List, [], ◌∷◌, ◌++◌,
  arith, length, take, drop, All, All-take, All-drop, All-append, length-take, length-drop,
  take-append-drop,
}
use orot.Base.Bits.{bit_or_low}
use orot.Simd.Checksum.{mod_adler, nmax, adler_bytes, adler_chunks, scalar_adler32}
use native.Mathlib.Nat.{mul-le-mul, mul-le-mul_left}

-- The sums of RFC 1950, on numbers without a bound.
abbrev pub sums : ℕ → ℕ → List ℕ → ℕ × ℕ
sums s1 s2 [] = (s1, s2)
sums s1 s2 (b ∷ bytes) = sums (s1 + b) (s2 + (s1 + b)) bytes

abbrev pub reduced : ℕ × ℕ → ℕ × ℕ
reduced s = (s.0 % mod_adler, s.1 % mod_adler)

-- The checksum of the format, from the two sums before the bytes.
abbrev pub adler_of : ℕ → ℕ → List ℕ → ℕ
adler_of s1 s2 bytes = (sums s1 s2 bytes).1 % mod_adler * 2 ^ 16 + (sums s1 s2 bytes).0 % mod_adler

-- A checksum: both halves are reduced.
abbrev pub IsAdler : ℕ → Type 0
IsAdler adler = (adler % 2 ^ 16 < mod_adler) × (adler / 2 ^ 16 < mod_adler)

abbrev pub IsBytes : List ℕ → Type 0
IsBytes bytes = All (λ b. b < 256) bytes

sums-append :
    (s1 s2 : ℕ) (xs ys : List ℕ)
    → sums s1 s2 (xs ++ ys) ≡ sums (sums s1 s2 xs).0 (sums s1 s2 xs).1 ys
sums-append s1 s2 [] ys = refl
sums-append s1 s2 (x ∷ xs) ys = sums-append (s1 + x) (s2 + (s1 + x)) xs ys

-- Only the rest of a start counts.
reduced-sums :
    (s1 s2 t1 t2 : ℕ) (bytes : List ℕ)
    → s1 % mod_adler ≡ t1 % mod_adler
    → s2 % mod_adler ≡ t2 % mod_adler
    → reduced (sums s1 s2 bytes) ≡ reduced (sums t1 t2 bytes)
reduced-sums s1 s2 t1 t2 [] h1 h2 = rw (h1, h2) refl
reduced-sums s1 s2 t1 t2 (b ∷ bytes) h1 h2 =
    reduced-sums (s1 + b) (s2 + (s1 + b)) (t1 + b) (t2 + (t1 + b)) bytes (omega (arith, h1))
      (omega (arith, h1, h2))

-- Twice the largest sum that n bytes can reach.
abbrev reach : ℕ → ℕ → ℕ → ℕ
reach n s1 s2 = 2 * s2 + 2 * (n * s1) + 255 * (n * suc n)

reach_step : (n s1 s2 b : ℕ) → b < 256 → reach n (s1 + b) (s2 + (s1 + b)) ≤ reach (suc n) s1 s2
reach_step n s1 s2 b h =
    let e : n * b ≤ n * 255 = mul-le-mul_left n (omega (arith, h)) in grind (arith, e)

-- A sum that fits in a word does not wrap.
adler_bytes-sums :
    (s1 s2 : ℕ) (bytes : List ℕ)
    → IsBytes bytes
    → s1 + 255 * length bytes < 2 ^ 32
    → reach (length bytes) s1 s2 < 2 ^ 33
    → adler_bytes s1 s2 bytes ≡ sums s1 s2 bytes
unfolding adler_bytes
adler_bytes-sums s1 s2 [] small h1 h2 = refl
adler_bytes-sums s1 s2 (b ∷ bytes) small h1 h2 =
    let step = reach_step (length bytes) s1 s2 b small.0 in
    let e1 : (s1 + b) % 2 ^ 32 ≡ s1 + b = omega (arith, h1, small.0) in
    let e2 : (s2 + (s1 + b)) % 2 ^ 32 ≡ s2 + (s1 + b) = omega (arith, step, h2) in
    rw (e1, e2)
      (adler_bytes-sums (s1 + b) (s2 + (s1 + b)) bytes small.1 (omega (arith, h1, small.0))
        (omega (arith, step, h2)))

-- nmax is chosen for this.
nmax-reach : (n s1 s2 : ℕ) → n ≤ nmax → s1 < 2 ^ 16 → s2 < 2 ^ 16 → reach n s1 s2 < 2 ^ 33
nmax-reach n s1 s2 h h1 h2 =
    let e : n * s1 ≤ 5552 * 65535 = mul-le-mul {m₂ = 65535} h (omega (arith, h1)) in
    let e' : n * suc n ≤ 5552 * 5553 = mul-le-mul {m₂ = 5553} h (omega (arith, h)) in
    omega (arith, e, e', h2)

adler_chunks-sums :
    (fuel s1 s2 : ℕ) (bytes : List ℕ)
    → length bytes ≤ fuel
    → s1 < mod_adler
    → s2 < mod_adler
    → IsBytes bytes
    → adler_chunks fuel s1 s2 bytes ≡ reduced (sums s1 s2 bytes)
unfolding adler_chunks
adler_chunks-sums fuel s1 s2 [] room h1 h2 small =
    let e1 : s1 % mod_adler ≡ s1 = omega (arith, h1) in
    let e2 : s2 % mod_adler ≡ s2 = omega (arith, h2) in rw (e1, e2) refl
adler_chunks-sums zero s1 s2 (b ∷ bytes) room h1 h2 small = absurd (omega arith)
adler_chunks-sums (suc fuel) s1 s2 (b ∷ bytes) room h1 h2 small =
    let all = b ∷ bytes in
    let first = take nmax all in
    let rest = drop nmax all in
    let n = length-take nmax all in
    let first_small = All-take (λ t. t < 256) nmax all small in
    let chunk : adler_bytes s1 s2 first ≡ sums s1 s2 first =
      adler_bytes-sums s1 s2 first first_small (omega (arith, n, h1)) (
        nmax-reach (length first) s1 s2 (omega (arith, n)) (omega (arith, h1))
          (omega (arith, h2))) in
    let t = sums s1 s2 first in
    ap (λ p. adler_chunks fuel (p.0 % mod_adler) (p.1 % mod_adler) rest) chunk
    ∙ (adler_chunks-sums fuel (t.0 % mod_adler) (t.1 % mod_adler) rest
          (omega (arith, length-drop nmax all, room)) (omega arith) (omega arith)
          (All-drop (λ t. t < 256) nmax all small)
        ∙ reduced-sums (t.0 % mod_adler) (t.1 % mod_adler) t.0 t.1 rest (omega arith) (omega arith)
        ∙ ap reduced (sym (sums-append s1 s2 first rest))
        ∙ ap (λ l. reduced (sums s1 s2 l)) (take-append-drop nmax all))

-- On bytes, and from a word whose halves are below 65521, scalar_adler32, which sums chunks of 5552
-- bytes in words of 32 bits and reduces between them, gives the two sums of the format over all the
-- bytes, reduced once.
pub scalar_adler32-adler_of :
    (adler : ℕ) (bytes : List ℕ)
    → IsAdler adler
    → IsBytes bytes
    → scalar_adler32 adler bytes ≡ adler_of (adler % 2 ^ 16) (adler / 2 ^ 16) bytes
unfolding scalar_adler32
scalar_adler32-adler_of adler bytes halves small =
    let s1 = adler % 2 ^ 16 in
    let s2 = adler / 2 ^ 16 in
    let e : s2 % 2 ^ 16 ≡ s2 = omega (arith, halves.1) in
    let chunks =
      adler_chunks-sums (length bytes) s1 s2 bytes (omega arith) halves.0 halves.1 small in
    let t = reduced (sums s1 s2 bytes) in
    let whole : t.1 * 2 ^ 16 % 2 ^ 32 ≡ t.1 * 2 ^ 16 = omega arith in
    rw (e, chunks, whole) (bit_or_low 16 t.1 t.0 (omega arith))

adler_of-halves :
    (s1 s2 : ℕ) (bytes : List ℕ)
    → (adler_of s1 s2 bytes % 2 ^ 16 ≡ (sums s1 s2 bytes).0 % mod_adler)
      × (adler_of s1 s2 bytes / 2 ^ 16 ≡ (sums s1 s2 bytes).1 % mod_adler)
adler_of-halves s1 s2 bytes = (omega arith, omega arith)

pub scalar_adler32-IsAdler :
    (adler : ℕ) (bytes : List ℕ)
    → IsAdler adler
    → IsBytes bytes
    → IsAdler (scalar_adler32 adler bytes)
scalar_adler32-IsAdler adler bytes halves small =
    let e = scalar_adler32-adler_of adler bytes halves small in
    let h = adler_of-halves (adler % 2 ^ 16) (adler / 2 ^ 16) bytes in
    rw e (omega (arith, h.0), omega (arith, h.1))

-- On bytes, and from a word whose halves are below 65521, the checksum of two pieces in turn is that
-- of the whole.
pub scalar_adler32-append :
    (adler : ℕ) (xs ys : List ℕ)
    → IsAdler adler
    → IsBytes xs
    → IsBytes ys
    → scalar_adler32 (scalar_adler32 adler xs) ys ≡ scalar_adler32 adler (xs ++ ys)
scalar_adler32-append adler xs ys halves hx hy =
    let s1 = adler % 2 ^ 16 in
    let s2 = adler / 2 ^ 16 in
    let t = sums s1 s2 xs in
    let ex = scalar_adler32-adler_of adler xs halves hx in
    let h = adler_of-halves s1 s2 xs in
    let again =
      reduced-sums (t.0 % mod_adler) (t.1 % mod_adler) t.0 t.1 ys (omega arith) (omega arith) in
    let ey =
      scalar_adler32-adler_of (scalar_adler32 adler xs) ys
        (scalar_adler32-IsAdler adler xs halves hx) hy in
    let ez =
      scalar_adler32-adler_of adler (xs ++ ys) halves (All-append (λ b. b < 256) xs ys hx hy) in
    let joined = ap reduced (sym (sums-append s1 s2 xs ys)) in
    ey
    ∙ ap (λ w. adler_of (w % 2 ^ 16) (w / 2 ^ 16) ys) ex
    ∙ ap (λ v. adler_of v (adler_of s1 s2 xs / 2 ^ 16) ys) h.0
    ∙ ap (λ v. adler_of (t.0 % mod_adler) v ys) h.1
    ∙ ap (λ p. p.1 * 2 ^ 16 + p.0) (again ∙ joined)
    ∙ sym ez
