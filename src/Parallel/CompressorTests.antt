-- ===== src/Parallel/CompressorTests.antt =====
-- An encoder of stored blocks, and the theorem on src/parallel/parallel_compressor.cpp with it.
use orot.Base.{ℕ, Bool, List, [], ◌∷◌, ◌++◌, if◌then◌else◌}
use orot.Formats.StoredBlocks.{stored_block}
use orot.Parallel.Compressor.{BlockEncoder}

stored_bytes : Bool → List ℕ → List ℕ
stored_bytes final block = (if final then 1 else 0) ∷ stored_block block

abbrev stored_encoder : BlockEncoder
stored_encoder = record {
  Tokens = Unit;
  no_tokens = tt;
  lz77_compress = λ level block. tt;
  BitWriter = List ℕ;
  new_writer = λ capacity. [];
  encode_block = λ level tokens block bw final. bw ++ stored_bytes final block;
  written = λ bw. bw;
}
