-- ===== src/Formats/ZlibAccepts.antt =====
-- The fast path of zlib_decompress in src/formats/zlib_wrapper.cpp accepts what it should.
use Prim.Native.Nat.{bit_and}
use orot.Base.{
  All-take, All-drop, ℕ, zero, suc, ◌+◌, ◌-◌, ◌*◌, ◌/◌, ◌%◌, ◌^◌, bit_xor, ◌≤◌, ◌<◌, ◌≡◌, ◌↔◌, refl,
  true, false, List, [], ◌∷◌, ◌++◌, some, arith, length, take, drop, take-length, drop-length,
  take-append, drop-append, length-append, append_assoc, ge-ltb, ◌==◌, ==_iff,
}
use orot.Base.Flags.{bit_xor-ones}
use orot.Simd.Checksum.{scalar_adler32}
use orot.Simd.Adler.{IsAdler, scalar_adler32-IsAdler, scalar_adler32-append}
use orot.Formats.StoredBlocks.{IsBytes, Stored, last, more, held-IsBytes, All-front}
use orot.Formats.RawDeflate.{is_empty}
use orot.Formats.Zlib.{be32_at, bad_block, stored_loop, accept_stored, try_stored_zlib_decompress}
use orot.Formats.ZlibStored.{one-IsAdler, try_stored_zlib_decompress_lem}

low_high : (n : ℕ) → n % 256 + 2 ^ 8 * (n / 256) ≡ n
low_high n = omega arith

-- A header in front of at least the bytes that it counts, with room for them, is not refused.
bad_block-Stored :
    (dst_capacity written hdr n : ℕ) (held : List ℕ)
    → (bit_and hdr 0x06 == 0) ≡ true
    → (bit_and hdr 0xF8 == 0) ≡ true
    → n < 2 ^ 16
    → n ≤ length held
    → written + n ≤ dst_capacity
    → bad_block dst_capacity written
        (hdr ∷ (n % 256) ∷ (n / 256) ∷ ((65535 - n) % 256) ∷ ((65535 - n) / 256) ∷ held)
      ≡ false
unfolding bad_block
bad_block-Stored dst_capacity written hdr n held kind low short enough room =
    let p = hdr ∷ (n % 256) ∷ (n / 256) ∷ ((65535 - n) % 256) ∷ ((65535 - n) / 256) ∷ held in
    let ones : bit_xor n 0xFFFF ≡ 65535 - n = bit_xor-ones 16 n short in
    rw
      (
        kind,
        low,
        low_high n,
        low_high (65535 - n),
        ones,
        (==_iff (65535 - n) (65535 - n)).1 refl,
        ge-ltb (length p) 5 (omega arith),
        ge-ltb (length p) (5 + n) (omega arith),
        ge-ltb dst_capacity (written + n) room,
      )
      refl

module _ (dst_capacity : ℕ) where
  -- The loop reads a stream of stored blocks to its end.
  stored_loop-Stored :
      (fuel : ℕ) {raw held : List ℕ} (out : List ℕ) (adler : ℕ)
      → Stored raw held
      → IsBytes held
      → IsAdler adler
      → length raw < fuel
      → length out + length held ≤ dst_capacity
      → stored_loop dst_capacity fuel (record { ip = raw; out = out; adler = adler })
        ≡ some (record { ip = []; out = out ++ held; adler = scalar_adler32 adler held })
  unfolding stored_loop
  stored_loop-Stored zero out adler stored small halves lt room = absurd (omega arith)
  stored_loop-Stored (suc fuel) out adler (last payload short) small halves lt room =
      rw
        (
          bad_block-Stored dst_capacity (length out) 1 (length payload) payload refl refl short
              (omega arith) room,
          low_high (length payload),
          take-length payload,
          drop-length payload,
        )
        refl
  stored_loop-Stored (suc fuel) out adler (more payload {raw} {out = held} short rest) small halves
        lt room =
      let n = length payload in
      let parts = All-front payload held small in
      let total = length-append payload raw in
      let sum = length-append payload held in
      let later =
        stored_loop-Stored fuel (out ++ payload) (scalar_adler32 adler payload) rest parts.1
          (scalar_adler32-IsAdler adler payload halves parts.0) (omega (arith, total))
          (omega (arith, sum, length-append out payload)) in
      rw
        (
          bad_block-Stored dst_capacity (length out) 0 n (payload ++ raw) refl refl short
              (omega (arith, total)) (omega (arith, sum)),
          low_high n,
          take-append payload raw,
          drop-append payload raw,
          later,
          append_assoc out payload held,
          scalar_adler32-append adler payload held halves parts.0 parts.1,
        )
        refl

-- On bytes, try_stored_zlib_decompress accepts just the streams whose body is stored blocks up to the
-- trailer, whose output has room, and whose trailer is the Adler-32 checksum of the output, and gives
-- that output.
pub try_stored_zlib_decompress-Stored :
    (dst_capacity : ℕ) (src out : List ℕ)
    → IsBytes src
    → (try_stored_zlib_decompress dst_capacity src ≡ some out) ↔ (
        Stored (take (length src - 6) (drop 2 src)) out
        × (length out ≤ dst_capacity)
        × (scalar_adler32 1 out ≡ be32_at (drop (length src - 4) src)))
unfolding try_stored_zlib_decompress accept_stored is_empty
try_stored_zlib_decompress-Stored dst_capacity src out small = (
  try_stored_zlib_decompress_lem dst_capacity src out small,
  λ (stored, room, sum).
      let body = take (length src - 6) (drop 2 src) in
      let out_small = held-IsBytes stored (
        All-take (λ b. b < 256) (length src - 6) (drop 2 src)
          (All-drop (λ b. b < 256) 2 src small)) in
      let run =
        stored_loop-Stored dst_capacity (suc (length body)) [] 1 stored out_small one-IsAdler
          (omega arith) (omega (arith, room)) in
      rw (run, sum, (==_iff _ _).1 refl) refl,
)
