-- ===== src/Formats/ZlibStored.antt =====
-- The fast path of zlib_decompress in src/formats/zlib_wrapper.cpp reads streams of stored blocks.
use Prim.Native.Nat.{bit_and}
use orot.Base.{
  ℕ, zero, suc, ◌+◌, ◌-◌, ◌*◌, ◌/◌, ◌%◌, ◌^◌, bit_xor, ◌≤◌, ◌<◌, ◌≡◌, refl, sym, ap, subst, ◌∙◌,
  not, ◌||◌, Bool, true, false, List, [], ◌∷◌, ◌++◌, Option, none, some, arith, length, get_or,
  take, drop, All-take, All-drop, All-append, length-take, length-append, take-append-drop,
  append_assoc, append-nil, ltb, ◌==◌, ==_iff, if-both,
}
use orot.Base.Flags.{bit_and-stored, bit_xor-ones}
use orot.Simd.Checksum.{scalar_adler32}
use orot.Simd.Adler.{IsAdler, scalar_adler32-IsAdler, scalar_adler32-append}
use orot.Formats.StoredBlocks.{IsBytes, Stored, stored_block, last, more}
use orot.Formats.RawDeflate.{is_empty}
use orot.Formats.Zlib.{
  be32_at, le16_at, bad_block, StoredRun, stored_loop, accept_stored, try_stored_zlib_decompress,
}

or-false : (a b : Bool) → (a || b) ≡ false → (a ≡ false) × (b ≡ false)
or-false true b e = absurd (cc)
or-false false b e = (refl, e)

not-false : (a : Bool) → not a ≡ false → a ≡ true
not-false true e = refl
not-false false e = absurd (cc)

not-true : (a : Bool) → not a ≡ true → a ≡ false
not-true false e = refl
not-true true e = absurd (cc)

cons_four :
    {a b c d a' b' c' d' : ℕ} {p p' : List ℕ}
    → a ≡ a'
    → b ≡ b'
    → c ≡ c'
    → d ≡ d'
    → p ≡ p'
    → a ∷ b ∷ c ∷ d ∷ p ≡ a' ∷ b' ∷ c' ∷ d' ∷ p'
cons_four ea eb ec ed ep = cc

-- What the tests on a header leave: the payload, and that the bytes are those of a stored block.
IsBlock : ℕ → ℕ → ℕ → List ℕ → Type 0
IsBlock dst_capacity written hdr p =
    let len = le16_at p 0 in
    let payload = take len (drop 4 p) in
    (hdr ≤ 1)
    × (length payload < 2 ^ 16)
    × (p ≡ stored_block payload ++ drop len (drop 4 p))
    × (written + length payload ≤ dst_capacity)

bad_block-IsBlock_long :
    (dst_capacity written hdr a b c d : ℕ) (rest : List ℕ)
    → IsBytes (hdr ∷ a ∷ b ∷ c ∷ d ∷ rest)
    → bad_block dst_capacity written (hdr ∷ a ∷ b ∷ c ∷ d ∷ rest) ≡ false
    → IsBlock dst_capacity written hdr (a ∷ b ∷ c ∷ d ∷ rest)
unfolding bad_block IsBlock
bad_block-IsBlock_long dst_capacity written hdr a b c d rest small e =
    let len : ℕ = a + 2 ^ 8 * b in
    let p = hdr ∷ a ∷ b ∷ c ∷ d ∷ rest in
    let e5 = or-false _ (ltb dst_capacity (written + len)) e in
    let e4 = or-false _ (ltb (length p) (5 + len)) e5.0 in
    let e3 = or-false _ (not (bit_xor len 0xFFFF == c + 2 ^ 8 * d)) e4.0 in
    let e2 = or-false _ (not (bit_and hdr 0xF8 == 0)) e3.0 in
    let e1 = or-false (ltb (length p) 5) (not (bit_and hdr 0x06 == 0)) e2.0 in
    let inverse = (==_iff (bit_xor len 0xFFFF) (c + 2 ^ 8 * d)).0 (not-false _ e3.1) in
    let fits : len < 2 ^ 16 = omega (arith, small) in
    let ones = bit_xor-ones 16 len fits in
    let room : len ≤ length rest = ground (arith, e4.1) in
    let n : length (take len rest) ≡ len = omega (arith, length-take len rest, room) in
    let ea : a ≡ length (take len rest) % 256 = omega (arith, n, small) in
    let eb : b ≡ length (take len rest) / 256 = omega (arith, n, small) in
    let ec : c ≡ (65535 - length (take len rest)) % 256 = omega (arith, n, small, inverse, ones) in
    let ed : d ≡ (65535 - length (take len rest)) / 256 = omega (arith, n, small, inverse, ones) in
    (
      bit_and-stored hdr small.0 (not-false _ e1.1) (not-false _ e2.1),
      omega (arith, n, fits),
      cons_four ea eb ec ed (sym (take-append-drop len rest)),
      ground (arith, n, e5.1),
    )

bad_block-IsBlock :
    (dst_capacity written : ℕ) (p : List ℕ)
    → IsBytes p
    → bad_block dst_capacity written p ≡ false
    → IsBlock dst_capacity written (get_or p 0 0) (drop 1 p) × (5 ≤ length p)
unfolding bad_block
bad_block-IsBlock dst_capacity written (hdr ∷ a ∷ b ∷ c ∷ d ∷ rest) small e =
    (bad_block-IsBlock_long dst_capacity written hdr a b c d rest small e, omega arith)
bad_block-IsBlock dst_capacity written [] small e = absurd (cc)
bad_block-IsBlock dst_capacity written (hdr ∷ []) small e = absurd (cc)
bad_block-IsBlock dst_capacity written (hdr ∷ a ∷ []) small e = absurd (cc)
bad_block-IsBlock dst_capacity written (hdr ∷ a ∷ b ∷ []) small e = absurd (cc)
bad_block-IsBlock dst_capacity written (hdr ∷ a ∷ b ∷ c ∷ []) small e = absurd (cc)

last_flag :
    (hdr : ℕ)
    → hdr ≤ 1
    → ((bit_and hdr 1 == 0) ≡ true → hdr ≡ 0) × ((bit_and hdr 1 == 0) ≡ false → hdr ≡ 1)
last_flag zero h = (λ e. refl, λ e. absurd (cc))
last_flag (suc zero) h = (λ e. absurd (cc), λ e. refl)
last_flag (suc (suc n)) h = absurd (omega arith)

-- The loop has read a stream of stored blocks, and has appended what they hold.
Ran : ℕ → List ℕ → List ℕ → ℕ → StoredRun → Type 0
Ran dst_capacity ip out adler r =
    (used : List ℕ) × (held : List ℕ) × (ip ≡ used ++ r.ip)
    × Stored used held
    × (r.out ≡ out ++ held)
    × (r.adler ≡ scalar_adler32 adler held)
    × IsBytes held
    × (length r.out ≤ dst_capacity)

module _ (dst_capacity : ℕ) where
  Ran-last :
      (p out payload tail : List ℕ) (adler : ℕ)
      → length payload < 2 ^ 16
      → p ≡ stored_block payload ++ tail
      → IsBytes payload
      → length out + length payload ≤ dst_capacity
      → Ran dst_capacity
          (1 ∷ p)
          out
          adler
          (record { ip = tail; out = out ++ payload; adler = scalar_adler32 adler payload })
  unfolding Ran
  Ran-last p out payload tail adler short e small room = (
    1 ∷ stored_block payload,
    payload,
    ap (◌∷◌ 1) e,
    last payload short,
    refl,
    refl,
    small,
    omega (arith, length-append out payload, room),
  )

  Ran-more :
      (p out payload tail : List ℕ) (adler : ℕ) (r : StoredRun)
      → length payload < 2 ^ 16
      → p ≡ stored_block payload ++ tail
      → IsBytes payload
      → IsAdler adler
      → Ran dst_capacity tail (out ++ payload) (scalar_adler32 adler payload) r
      → Ran dst_capacity (0 ∷ p) out adler r
  unfolding Ran
  Ran-more p out payload tail adler r short e small halves
        (used, held, read, stored, wrote, sum, held_small, room) =
      (
        0 ∷ (stored_block payload ++ used),
        payload ++ held,
        ap (◌∷◌ 0) (
            e
            ∙ ap (λ t. stored_block payload ++ t) read
            ∙ sym (append_assoc (stored_block payload) used r.ip)),
        more payload short stored,
        wrote ∙ append_assoc out payload held,
        sum ∙ scalar_adler32-append adler payload held halves small held_small,
        All-append (λ b. b < 256) payload held small held_small,
        room,
      )

  stored_loop-Ran :
      (fuel : ℕ) (ip out : List ℕ) (adler : ℕ) (r : StoredRun)
      → IsBytes ip
      → IsAdler adler
      → stored_loop dst_capacity fuel (record { ip = ip; out = out; adler = adler }) ≡ some r
      → Ran dst_capacity ip out adler r
  unfolding stored_loop IsBlock bad_block
  stored_loop-Ran zero ip out adler r small halves e = absurd (cc)
  stored_loop-Ran (suc fuel) [] out adler r small halves e = absurd (cc)
  stored_loop-Ran (suc fuel) (hdr ∷ p) out adler r small halves e =
      let payload = take (le16_at p 0) (drop 4 p) in
      let tail = drop (le16_at p 0) (drop 4 p) in
      let next : StoredRun = record {
        ip = tail;
        out = out ++ payload;
        adler = scalar_adler32 adler payload;
      } in
      let bytes = λ (b : ℕ). b < 256 in
      let later = All-drop bytes 4 p small.1 in
      let payload_small = All-take bytes (le16_at p 0) (drop 4 p) later in
      let tail_small = All-drop bytes (le16_at p 0) (drop 4 p) later in
      if-both (λ o. o ≡ some r → Ran dst_capacity (hdr ∷ p) out adler r)
        (bad_block dst_capacity (length out) (hdr ∷ p)) _ _ (λ bad q. absurd (cc))
        (λ good.
          let block = (bad_block-IsBlock dst_capacity (length out) (hdr ∷ p) small good).0 in
          let flag = last_flag hdr block.0 in
          if-both (λ o. o ≡ some r → Ran dst_capacity (hdr ∷ p) out adler r)
            (not (bit_and hdr 1 == 0)) _ _
            (λ final q.
              let here : next ≡ r = cc in
              rw (flag.1 (not-true _ final), sym here)
                (Ran-last p out payload tail adler block.1 block.2 payload_small block.3))
            (λ goes q. rw (flag.0 (not-false _ goes)) (
              Ran-more p out payload tail adler r block.1 block.2 payload_small halves (
                stored_loop-Ran fuel tail (out ++ payload) (scalar_adler32 adler payload) r
                  tail_small (scalar_adler32-IsAdler adler payload halves payload_small) q))))
        e

no_bytes : (bytes : List ℕ) → length bytes ≡ 0 → bytes ≡ []
no_bytes [] e = refl
no_bytes (b ∷ bytes) e = absurd (omega (arith, e))

pub one-IsAdler : IsAdler 1
one-IsAdler = (omega arith, omega arith)

accepted :
    (dst_capacity : ℕ) (body out : List ℕ) (expected : ℕ) (run : Option StoredRun)
    → ((r : StoredRun) → run ≡ some r → Ran dst_capacity body [] 1 r)
    → accept_stored expected run ≡ some out
    → Stored body out × (length out ≤ dst_capacity) × (scalar_adler32 1 out ≡ expected)
unfolding accept_stored is_empty Ran
accepted dst_capacity body out expected none ran e = absurd (cc)
accepted dst_capacity body out expected (some r) ran e =
    if-both
      (λ o.
        o ≡ some out
        → Stored body out × (length out ≤ dst_capacity) × (scalar_adler32 1 out ≡ expected))
      (length r.ip == 0) _ _
      (λ empty.
        if-both
          (λ o.
            o ≡ some out
            → Stored body out × (length out ≤ dst_capacity) × (scalar_adler32 1 out ≡ expected))
          (r.adler == expected) _ _
          (λ same q.
            let (used, held, read, stored, wrote, sum, held_small, room) = ran r refl in
            let nothing : r.ip ≡ [] = no_bytes r.ip ((==_iff (length r.ip) 0).0 empty) in
            let whole : used ≡ body = sym (read ∙ ap (λ t. used ++ t) nothing ∙ append-nil used) in
            let output : r.out ≡ out = cc in
            let out_held : held ≡ out = sym wrote ∙ output in
            (
              subst (λ b. Stored b out) whole (subst (Stored used) out_held stored),
              subst (λ t. length t ≤ dst_capacity) output room,
              ap (scalar_adler32 1) (sym out_held) ∙ sym sum ∙ (==_iff r.adler expected).0 same,
            ))
          (λ _ q. absurd (cc)))
      (λ _ q. absurd (cc)) e

-- What the fast path accepts: stored blocks up to the trailer, whose checksum is that of the output.
pub try_stored_zlib_decompress_lem :
    (dst_capacity : ℕ) (src out : List ℕ)
    → IsBytes src
    → try_stored_zlib_decompress dst_capacity src ≡ some out
    → Stored (take (length src - 6) (drop 2 src)) out
      × (length out ≤ dst_capacity)
      × (scalar_adler32 1 out ≡ be32_at (drop (length src - 4) src))
unfolding try_stored_zlib_decompress
try_stored_zlib_decompress_lem dst_capacity src out small =
    let body = take (length src - 6) (drop 2 src) in
    let body_small =
      All-take (λ b. b < 256) (length src - 6) (drop 2 src) (All-drop (λ b. b < 256) 2 src small) in
    accepted dst_capacity body out (be32_at (drop (length src - 4) src))
      (stored_loop dst_capacity (suc (length body)) (record { ip = body; out = []; adler = 1 }))
      (λ r. stored_loop-Ran dst_capacity (suc (length body)) body [] 1 r body_small one-IsAdler)
