-- ===== src/Formats/Zlib.antt =====
-- src/formats/zlib_wrapper.cpp over the engine of the raw codec.
use Prim.Native.Nat.{bit_and}
use orot.Base.{
  ℕ, zero, suc, ◌+◌, ◌-◌, ◌*◌, ◌/◌, ◌%◌, ◌^◌, bit_xor, not, ◌||◌, true, Bool, List, [], ◌∷◌, ◌++◌,
  Option, none, some, Outcome, done, fails, stuck, length, get_or, take, drop, ltb, ◌==◌,
  if◌then◌else◌,
}
use orot.Simd.Checksum.{scalar_adler32}
use orot.Formats.Gzip.{Error, data_error}
use orot.Formats.RawDeflate.{
  Engine, Unpacked, raw_compress_bound, raw_compress, raw_decompress_ex, is_empty,
}

unfoldable pub be32 : ℕ → List ℕ
be32 v = (v / 2 ^ 24 % 256) ∷ (v / 2 ^ 16 % 256) ∷ (v / 2 ^ 8 % 256) ∷ (v % 256) ∷ []

-- `expected`, the shifted bytes being disjoint.
abbrev pub be32_at : List ℕ → ℕ
be32_at trailer =
    2 ^ 24 * get_or trailer 0 0
    + 2 ^ 16 * get_or trailer 1 0
    + 2 ^ 8 * get_or trailer 2 0
    + get_or trailer 3 0

unfoldable pub zlib_compress_bound : ℕ → ℕ
zlib_compress_bound src_len = raw_compress_bound src_len + 6

abbrev pub le16_at : List ℕ → ℕ → ℕ
le16_at p i = get_or p i 0 + 2 ^ 8 * get_or p (i + 1) 0

-- The tests on one block header; `p` is from the header to `end`, `written` what the output holds.
unfoldable pub bad_block : ℕ → ℕ → List ℕ → Bool
bad_block dst_capacity written p =
    let hdr = get_or p 0 0 in
    let len = le16_at p 1 in
    ltb (length p) 5
    || not (bit_and hdr 0x06 == 0)
    || not (bit_and hdr 0xF8 == 0)
    || not (bit_xor len 0xFFFF == le16_at p 3)
    || ltb (length p) (5 + len)
    || ltb dst_capacity (written + len)

-- What a run over stored blocks leaves: ip, the output and its checksum.
pub record StoredRun : Type 0 where
  pub ip : List ℕ
  pub out : List ℕ
  pub adler : ℕ

-- One block of the loop: behind it the next, unless it is the last. Each takes five bytes, so that
-- the length is enough fuel.
unfoldable pub stored_loop : ℕ → ℕ → StoredRun → Option StoredRun
stored_loop dst_capacity zero run = none
stored_loop dst_capacity (suc fuel) run =
    let len = le16_at run.ip 1 in
    let payload = take len (drop 5 run.ip) in
    let next : StoredRun = record {
      ip = drop len (drop 5 run.ip);
      out = run.out ++ payload;
      adler = scalar_adler32 run.adler payload;
    } in
    let rest = stored_loop dst_capacity fuel next in
    if bad_block dst_capacity (length run.out) run.ip
    then none
    else if not (bit_and (get_or run.ip 0 0) 1 == 0)
    then some next
    else rest

-- What follows the loop: all is read, and the checksum is that of the trailer.
unfoldable pub accept_stored : ℕ → Option StoredRun → Option (List ℕ)
accept_stored expected none = none
accept_stored expected (some run) =
    if is_empty run.ip then (if run.adler == expected then some run.out else none) else none

unfoldable pub try_stored_zlib_decompress : ℕ → List ℕ → Option (List ℕ)
try_stored_zlib_decompress dst_capacity src =
    let body = take (length src - 6) (drop 2 src) in
    accept_stored (be32_at (drop (length src - 4) src))
      (stored_loop dst_capacity (suc (length body)) (record { ip = body; out = []; adler = 1 }))

-- The checks of the two header bytes.
unfoldable pub bad_header : List ℕ → Bool
bad_header src =
    let cmf = get_or src 0 0 in
    let flg = get_or src 1 0 in
    not (bit_and cmf 0x0F == 8)
    || not ((2 ^ 8 * cmf + flg) % 31 == 0)
    || not (bit_and flg 0x20 == 0)

-- The checksum of the raw decoder if it is exact, and else that of the output.
unfoldable pub accept_raw : ℕ → Outcome Error Unpacked → Outcome Error (List ℕ)
accept_raw expected (done u) =
    let actual = if u.adler_exact then u.adler else scalar_adler32 1 u.bytes in
    if actual == expected then done u.bytes else fails data_error
accept_raw expected (fails e) = fails e
accept_raw expected stuck = stuck

-- The fast path, or what follows it.
unfoldable pub or_else : Option (List ℕ) → Outcome Error (List ℕ) → Outcome Error (List ℕ)
or_else (some out) slow = done out
or_else none slow = slow

-- Around a raw stream, which `none` is 0.
unfoldable pub wrapped : List ℕ → Option (List ℕ) → Option (List ℕ)
wrapped src none = none
wrapped src (some raw) = some (0x78 ∷ 0x9C ∷ (raw ++ be32 (scalar_adler32 1 src)))

module _ (engine : Engine) where
  unfoldable pub zlib_compress : ℕ → ℕ → List ℕ → Option (List ℕ)
  zlib_compress dst_capacity level src =
      if ltb dst_capacity (zlib_compress_bound (length src))
      then none
      else wrapped src (raw_compress engine (dst_capacity - 6) level src true)

  unfoldable pub zlib_decompress : ℕ → List ℕ → Outcome Error (List ℕ)
  zlib_decompress dst_capacity src =
      let n = length src in
      let raw = take (n - 6) (drop 2 src) in
      if ltb n 6
      then fails data_error
      else if bad_header src
      then fails data_error
      else or_else (try_stored_zlib_decompress dst_capacity src)
          (accept_raw (be32_at (drop (n - 4) src)) (raw_decompress_ex engine dst_capacity raw))
