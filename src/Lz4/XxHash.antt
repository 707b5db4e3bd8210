-- ===== src/Lz4/XxHash.antt =====
-- src/lz4/xxhash32.hpp: the one-shot xxh32 and the streaming XXH32State, on 32-bit words.
-- The `buf_used` first bytes of the state's buffer are a list; what stands behind them is never read.
use orot.Base.{
  ℕ, zero, suc, ◌+◌, ◌-◌, ◌*◌, ◌/◌, ◌%◌, ◌^◌, List, [], ◌∷◌, ◌++◌, bit_or, bit_xor, length, get_or,
  take, drop, ltb, leb, if◌then◌else◌,
}

abbrev pub prime1 : ℕ
prime1 = 0x9E3779B1

abbrev pub prime2 : ℕ
prime2 = 0x85EBCA77

abbrev pub prime3 : ℕ
prime3 = 0xC2B2AE3D

abbrev pub prime4 : ℕ
prime4 = 0x27D4EB2F

abbrev pub prime5 : ℕ
prime5 = 0x165667B1

unfoldable pub rotl : ℕ → ℕ → ℕ
rotl x r = bit_or (x * 2 ^ r % 2 ^ 32) (x / 2 ^ (32 - r))

unfoldable pub round : ℕ → ℕ → ℕ
round acc lane = rotl ((acc + lane * prime2) % 2 ^ 32) 13 * prime1 % 2 ^ 32

-- A little-endian word of 4 bytes at an index.
abbrev pub lane_at : List ℕ → ℕ → ℕ
lane_at p i =
    get_or p i 0
    + 2 ^ 8 * get_or p (i + 1) 0
    + 2 ^ 16 * get_or p (i + 2) 0
    + 2 ^ 24 * get_or p (i + 3) 0

pub record Lanes : Type 0 where
  pub v1 : ℕ
  pub v2 : ℕ
  pub v3 : ℕ
  pub v4 : ℕ

unfoldable pub lanes_start : ℕ → Lanes
lanes_start seed = record {
  v1 = (seed + prime1 + prime2) % 2 ^ 32;
  v2 = (seed + prime2) % 2 ^ 32;
  v3 = seed;
  v4 = (seed + 2 ^ 32 - prime1) % 2 ^ 32;
}

-- Four rounds, over the next 16 bytes.
unfoldable pub stripe : Lanes → List ℕ → Lanes
stripe v p = record {
  v1 = round v.v1 (lane_at p 0);
  v2 = round v.v2 (lane_at p 4);
  v3 = round v.v3 (lane_at p 8);
  v4 = round v.v4 (lane_at p 12);
}

-- The loop over whole stripes, and what is left. The fuel is at least the length.
unfoldable pub stripes : ℕ → Lanes → List ℕ → Lanes × List ℕ
stripes zero v p = (v, p)
stripes (suc fuel) v p =
    let rest = stripes fuel (stripe v p) (drop 16 p) in if leb 16 (length p) then rest else (v, p)

unfoldable pub merge_lanes : Lanes → ℕ
merge_lanes v = (rotl v.v1 1 + rotl v.v2 7 + rotl v.v3 12 + rotl v.v4 18) % 2 ^ 32

-- The loop over the last bytes.
unfoldable pub tail_bytes : ℕ → List ℕ → ℕ
tail_bytes h [] = h
tail_bytes h (b ∷ p) = tail_bytes (rotl ((h + b * prime5) % 2 ^ 32) 11 * prime1 % 2 ^ 32) p

-- The loop over the last whole words; the fuel is at least the length.
unfoldable pub tail_words : ℕ → ℕ → List ℕ → ℕ
tail_words zero h p = tail_bytes h p
tail_words (suc fuel) h p =
    let rest =
      tail_words fuel (rotl ((h + lane_at p 0 * prime3) % 2 ^ 32) 17 * prime4 % 2 ^ 32)
        (drop 4 p) in
    if leb 4 (length p) then rest else tail_bytes h p

unfoldable pub avalanche : ℕ → ℕ
avalanche h =
    let a = bit_xor h (h / 2 ^ 15) * prime2 % 2 ^ 32 in
    let b = bit_xor a (a / 2 ^ 13) * prime3 % 2 ^ 32 in bit_xor b (b / 2 ^ 16)

unfoldable pub finish : ℕ → ℕ → List ℕ → ℕ
finish h len p = avalanche (tail_words (length p) ((h + len) % 2 ^ 32) p)

unfoldable pub xxh32 : ℕ → List ℕ → ℕ
xxh32 seed p =
    let (v, rest) = stripes (length p) (lanes_start seed) p in
    if leb 16 (length p)
    then finish (merge_lanes v) (length p % 2 ^ 32) rest
    else finish ((seed + prime5) % 2 ^ 32) (length p % 2 ^ 32) p

pub record State : Type 0 where
  pub lanes : Lanes
  pub total_len : ℕ
  pub buf : List ℕ

unfoldable pub reset : ℕ → State
reset seed = record { lanes = lanes_start seed; total_len = 0; buf = [] }

-- From the buffer on, when it is full: one stripe, if there was a buffer, and then the stripes of
-- the input.
unfoldable pub fill_buffer : State → List ℕ → Lanes × List ℕ
fill_buffer s p =
    let fill = 16 - length s.buf in
    if ltb 0 (length s.buf)
    then (stripe s.lanes (s.buf ++ take fill p), drop fill p)
    else (s.lanes, p)

unfoldable pub update : State → List ℕ → State
update s p =
    let total = (s.total_len + length p) % 2 ^ 32 in
    let (v, p') = fill_buffer s p in
    let (v', rest) = stripes (length p') v p' in
    if ltb (length s.buf + length p) 16
    then record { lanes = s.lanes; total_len = total; buf = s.buf ++ p }
    else record { lanes = v'; total_len = total; buf = rest }

unfoldable pub digest : State → ℕ
digest s =
    if leb 16 s.total_len
    then finish (merge_lanes s.lanes) s.total_len s.buf
    else finish ((s.lanes.v3 + prime5) % 2 ^ 32) s.total_len s.buf

-- One update for each chunk.
unfoldable pub update_all : State → List (List ℕ) → State
update_all s [] = s
update_all s (p ∷ ps) = update_all (update s p) ps
