-- ===== src/Formats/RawDeflate.antt =====
-- src/formats/raw_deflate.cpp over an engine, which the classes BlockCompressor and Decompressor of
-- src/compress and src/decompress provide.
use orot.Base.{
  ℕ, ◌+◌, ◌/◌, ◌^◌, ◌&&◌, Bool, true, List, Option, none, Outcome, done, fails, stuck, length, ltb,
  ◌==◌, if◌then◌else◌,
}
use orot.Formats.Gzip.{Error, data_error, RawCodec}

-- deflate_result, the negative values in one.
pub data Result : Type 0 where
  ok stream_end need_input need_output : Result
  error : Error → Result

-- What a call of decompress leaves: its result, the object, the bytes that it did not read (next_in,
-- avail_in), and those that it wrote.
pub record Turn (State : Type 0) : Type 0 where
  pub result : Result
  pub state : State
  pub avail_in : List ℕ
  pub out : List ℕ

-- BlockCompressor::compress with its capacity and level (`none` is 0); Decompressor.
pub record Engine : Type 1 where
  pub compress : ℕ → ℕ → List ℕ → Bool → Option (List ℕ)
  pub State : Type 0
  pub start : State
  pub decompress : State → List ℕ → ℕ → Turn State
  pub adler : State → ℕ
  pub adler_exact : State → Bool

-- The output, with the two values behind out_adler and out_adler_exact.
pub record Unpacked : Type 0 where
  pub bytes : List ℕ
  pub adler : ℕ
  pub adler_exact : Bool

unfoldable pub raw_compress_bound : ℕ → ℕ
raw_compress_bound n = n + n / 2 ^ 12 + n / 2 ^ 14 + n / 2 ^ 25 + 13

-- The last line of raw_decompress_ex.
unfoldable pub refused : Result → Outcome Error Unpacked
refused (error e) = fails e
refused ok = fails data_error
refused stream_end = fails data_error
refused need_input = fails data_error
refused need_output = fails data_error

unfoldable pub is_empty : List ℕ → Bool
is_empty bytes = length bytes == 0

unfoldable pub bytes_of : Outcome Error Unpacked → Outcome Error (List ℕ)
bytes_of (done u) = done u.bytes
bytes_of (fails e) = fails e
bytes_of stuck = stuck

module _ (engine : Engine) where
  unfoldable pub raw_compress : ℕ → ℕ → List ℕ → Bool → Option (List ℕ)
  raw_compress capacity level src is_last =
      if ltb capacity (raw_compress_bound (length src))
      then none
      else engine.compress capacity level src is_last

  unfoldable pub unpacked : engine.State → List ℕ → Unpacked
  unpacked state out = record {
    bytes = out;
    adler = engine.adler state;
    adler_exact = engine.adler_exact state;
  }

  -- The call with the scratch byte, which has to stay unwritten.
  unfoldable pub scratch_turn : List ℕ → Turn engine.State → Result → Outcome Error Unpacked
  scratch_turn out turn stream_end =
      if is_empty turn.out then done (unpacked turn.state out) else fails data_error
  scratch_turn out turn ok = refused ok
  scratch_turn out turn need_input = refused need_input
  scratch_turn out turn need_output = refused need_output
  scratch_turn out turn (error e) = refused (error e)

  -- By the result of the first call.
  unfoldable pub first_turn : ℕ → Turn engine.State → Result → Outcome Error Unpacked
  first_turn capacity turn stream_end = done (unpacked turn.state turn.out)
  first_turn capacity turn need_output =
      let again = engine.decompress turn.state turn.avail_in 1 in
      if (length turn.out == capacity) && is_empty turn.avail_in
      then scratch_turn turn.out again again.result
      else refused need_output
  first_turn capacity turn ok = refused ok
  first_turn capacity turn need_input = refused need_input
  first_turn capacity turn (error e) = refused (error e)

  unfoldable pub raw_decompress_ex : ℕ → List ℕ → Outcome Error Unpacked
  raw_decompress_ex capacity src =
      let turn = engine.decompress engine.start src capacity in first_turn capacity turn turn.result

  unfoldable pub raw_decompress : ℕ → List ℕ → Outcome Error (List ℕ)
  raw_decompress capacity src = bytes_of (raw_decompress_ex capacity src)

  -- What gzip_wrapper.cpp calls, where is_last has its default.
  abbrev pub raw_codec : RawCodec
  raw_codec = record {
    raw_compress_bound = raw_compress_bound;
    raw_compress = λ capacity level src. raw_compress capacity level src true;
    raw_decompress = raw_decompress;
  }
