-- ===== src/Parallel/Compressor/InTurn.antt =====
-- What src/parallel/parallel_compressor.cpp writes is what one thread would write.
use orot.Parallel.Compressor
