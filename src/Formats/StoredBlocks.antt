-- ===== src/Formats/StoredBlocks.antt =====
-- Streams of stored blocks, as RFC 1951 lays them out: the bytes that the fast path of
-- src/formats/zlib_wrapper.cpp reads.
use orot.Base.{ℕ, ◌-◌, ◌/◌, ◌%◌, ◌^◌, ◌<◌, List, [], ◌∷◌, ◌++◌, arith, length, All, All-append}

abbrev pub IsBytes : List ℕ → Type 0
IsBytes bytes = All (λ b. b < 256) bytes

-- A stored block but for its first byte: the length, its complement and the bytes.
abbrev pub stored_block : List ℕ → List ℕ
stored_block payload =
    let n = length payload in
    (n % 256) ∷ (n / 256) ∷ ((65535 - n) % 256) ∷ ((65535 - n) / 256) ∷ payload

-- A stream of stored blocks, and what they hold; the first byte of the last one is 1.
pub data Stored : List ℕ → List ℕ → Type 0 where
  last : (payload : List ℕ) → length payload < 2 ^ 16 → Stored (1 ∷ stored_block payload) payload
  more :
      (payload : List ℕ) {raw out : List ℕ}
      → length payload < 2 ^ 16
      → Stored raw out
      → Stored (0 ∷ (stored_block payload ++ raw)) (payload ++ out)

digits : (n : ℕ) → n < 2 ^ 16 → (n % 256 < 256) × (n / 256 < 256)
digits n lt = (omega arith, omega arith)

pub All-front : (xs ys : List ℕ) → IsBytes (xs ++ ys) → IsBytes xs × IsBytes ys
All-front [] ys h = (tt, h)
All-front (x ∷ xs) ys h = let r = All-front xs ys h.1 in ((h.0, r.0), r.1)

-- What holds bytes is a stream of bytes.
pub Stored-IsBytes : {raw out : List ℕ} → Stored raw out → IsBytes out → IsBytes raw
Stored-IsBytes (last payload short) h =
    let n = digits (length payload) short in
    let c = digits (65535 - length payload) (omega arith) in
    (omega arith, (n.0, (n.1, (c.0, (c.1, h)))))
Stored-IsBytes (more payload {raw} {out} short rest) h =
    let n = digits (length payload) short in
    let c = digits (65535 - length payload) (omega arith) in
    let parts = All-front payload out h in
    (
      omega arith,
      (
        n.0,
        (
          n.1,
          (c.0, (c.1, All-append (λ b. b < 256) payload raw parts.0 (Stored-IsBytes rest parts.1))),
        ),
      ),
    )

-- What a stream of bytes holds is bytes.
pub held-IsBytes : {raw out : List ℕ} → Stored raw out → IsBytes raw → IsBytes out
held-IsBytes (last payload short) h = h.1.1.1.1.1
held-IsBytes (more payload {raw} {out} short rest) h =
    let parts = All-front payload raw h.1.1.1.1.1 in
    All-append (λ b. b < 256) payload out parts.0 (held-IsBytes rest parts.1)
