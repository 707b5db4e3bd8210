-- ===== src/Bzip2/Output.antt =====
-- The output loop (phase 3) of decode_block in src/bzip2/bzip2_decompress.cpp with its checksum,
-- over the bytes of the walk: it is updated along the way, or computed at the end.
use orot.Base.{
  ℕ, zero, suc, ◌+◌, ◌-◌, ◌*◌, ◌^◌, ◌≤◌, ◌<◌, ◌≡◌, refl, sym, ap, ◌∙◌, List, [], ◌∷◌, ◌++◌, bit_xor,
  Bool, true, false, ◌&&◌, Option, none, some, arith, length, All, All-append, All-drop, drop,
  replicate, ltb, leb, if◌then◌else◌, if-both, ◌==◌,
}
use orot.Bzip2.Rle1.{Mode, after_byte, expand, rle1_encode, rle1_loop, run_bytes, count_run}
use orot.Bzip2.Rle1.RoundTrip.{expand-rle1_encode}
use orot.Bzip2.Crc.{crc32_update, update_each, crc32_update_repeat, crc32_block, crc32_finalize}
use orot.Bzip2.Crc.Slices.{update_each-append}
use orot.Bzip2.Crc.Updates.{
  update_each-lt, crc32_update_bytes-update_each, crc32_update_repeat-update_each, replicate-All,
}

-- crc32_block of the whole output, behind the loop without checksum.
unfoldable pub with_block_crc : Option (List ℕ) → Option (List ℕ × ℕ)
with_block_crc none = none
with_block_crc (some out) = some (out, crc32_block out)

unfoldable pub output_deferred : ℕ → List ℕ → Mode → List ℕ → Option (List ℕ × ℕ)
output_deferred room bytes mode out = with_block_crc (expand room bytes mode out)

-- CRC_DEFER_RUN_THRESHOLD: much of the output came from runs.
unfoldable pub many_runs : ℕ → ℕ → Bool
many_runs run_extra block_out = leb 512 run_extra && leb block_out (run_extra * 2)

-- The loop with its checksum, up to the jump to the other loop.
unfoldable pub output_hot : ℕ → List ℕ → Mode → List ℕ → ℕ → ℕ → Option (List ℕ × ℕ)
output_hot room [] (Mode.counting run_ch run_cnt) out crc run_extra =
    some (out, bit_xor crc 0xFFFFFFFF)
output_hot room [] (Mode.repeating run_ch) out crc run_extra = none
output_hot room (c ∷ bytes) (Mode.counting run_ch run_cnt) out crc run_extra =
    let rest =
      output_hot room bytes (after_byte c run_ch run_cnt) (out ++ (c ∷ [])) (crc32_update crc c)
        run_extra in
    if ltb (length out) room then rest else none
output_hot room (cnt ∷ bytes) (Mode.repeating run_ch) out crc run_extra =
    let out' = out ++ replicate cnt run_ch in
    let rest =
      output_hot room bytes (Mode.counting run_ch 0) out' (crc32_update_repeat crc run_ch cnt)
        (run_extra + cnt) in
    let deferred = output_deferred room bytes (Mode.counting run_ch 0) out' in
    if leb cnt (room - length out)
    then (if many_runs (run_extra + cnt) (length out + cnt) then deferred else rest)
    else none

-- What the block puts out and its checksum.
unfoldable pub output_block : ℕ → List ℕ → Option (List ℕ × ℕ)
output_block room bytes =
    let hot = output_hot room bytes (Mode.counting 0 0) [] 0xFFFFFFFF 0 in
    if leb 4096 room then output_deferred room bytes (Mode.counting 0 0) [] else hot

-- A state of the loop: bytes, and the checksum of what is out.
abbrev IsModeByte : Mode → Type 0
IsModeByte (Mode.counting run_ch run_cnt) = run_ch < 256
IsModeByte (Mode.repeating run_ch) = run_ch < 256

after_byte-IsModeByte :
    (c run_ch run_cnt : ℕ) → c < 256 → run_ch < 256 → IsModeByte (after_byte c run_ch run_cnt)
unfolding after_byte
after_byte-IsModeByte c run_ch run_cnt lt lt' =
    if-both IsModeByte (c == run_ch) _ (Mode.counting c 1)
      (λ e.
        if-both IsModeByte (run_cnt + 1 == 4) (Mode.repeating run_ch)
          (Mode.counting run_ch (run_cnt + 1)) (λ e. lt') (λ e. lt'))
      (λ e. lt)

if_deferred :
    (b : Bool) (x : Option (List ℕ × ℕ)) (y : Option (List ℕ))
    → x ≡ with_block_crc y
    → (if b then x else none) ≡ with_block_crc (if b then y else none)
unfolding with_block_crc
if_deferred true x y e = e
if_deferred false x y e = refl

output_hot_lem :
    (room : ℕ) (bytes : List ℕ) (mode : Mode) (out : List ℕ) (crc run_extra : ℕ)
    → All (λ x. x < 256) bytes
    → All (λ x. x < 256) out
    → IsModeByte mode
    → crc ≡ update_each 0xFFFFFFFF out
    → output_hot room bytes mode out crc run_extra ≡ output_deferred room bytes mode out
unfolding output_hot output_deferred expand with_block_crc crc32_block crc32_finalize update_each
output_hot_lem room [] (Mode.counting run_ch run_cnt) out crc extra h ho hm e =
    ap (λ t. some (out, bit_xor t 0xFFFFFFFF))
      (e ∙ sym (crc32_update_bytes-update_each out 0xFFFFFFFF ho (omega arith)))
output_hot_lem room [] (Mode.repeating run_ch) out crc extra h ho hm e = refl
output_hot_lem room (c ∷ bytes) (Mode.counting run_ch run_cnt) out crc extra h ho hm e =
    let crc' : crc32_update crc c ≡ update_each 0xFFFFFFFF (out ++ (c ∷ [])) =
      ap (λ t. crc32_update t c) e ∙ sym (update_each-append 0xFFFFFFFF out (c ∷ [])) in
    let rest =
      output_hot_lem room bytes (after_byte c run_ch run_cnt) (out ++ (c ∷ [])) (crc32_update crc c)
        extra h.1 (All-append (λ x. x < 256) out (c ∷ []) ho (h.0, tt))
        (after_byte-IsModeByte c run_ch run_cnt h.0 hm) crc' in
    if_deferred (ltb (length out) room) _
      (expand room bytes (after_byte c run_ch run_cnt) (out ++ (c ∷ []))) rest
output_hot_lem room (cnt ∷ bytes) (Mode.repeating run_ch) out crc extra h ho hm e =
    let run = replicate cnt run_ch in
    let bound : crc < 2 ^ 32 = rw e (update_each-lt out 0xFFFFFFFF ho (omega arith)) in
    let crc' : crc32_update_repeat crc run_ch cnt ≡ update_each 0xFFFFFFFF (out ++ run) =
      crc32_update_repeat-update_each crc run_ch cnt bound hm
      ∙ ap (λ t. update_each t run) e
      ∙ sym (update_each-append 0xFFFFFFFF out run) in
    let rest =
      output_hot_lem room bytes (Mode.counting run_ch 0) (out ++ run)
        (crc32_update_repeat crc run_ch cnt) (extra + cnt) h.1
        (All-append (λ x. x < 256) out run ho (replicate-All cnt run_ch hm)) hm crc' in
    if_deferred (leb cnt (room - length out)) _
      (expand room bytes (Mode.counting run_ch 0) (out ++ run))
      (if-both (λ t. t ≡ with_block_crc (expand room bytes (Mode.counting run_ch 0) (out ++ run)))
        (many_runs (extra + cnt) (length out + cnt)) _ _ (λ jump. refl) (λ stay. rest))

-- Whichever loop runs, and whenever it jumps, the output is that of the run lengths alone, and the
-- checksum is crc32_block of it, for any room and any bytes.
pub output_block-expand :
    (room : ℕ) (bytes : List ℕ)
    → All (λ x. x < 256) bytes
    → output_block room bytes ≡ with_block_crc (expand room bytes (Mode.counting 0 0) [])
unfolding output_block output_deferred update_each
output_block-expand room bytes h =
    if-both (λ t. t ≡ with_block_crc (expand room bytes (Mode.counting 0 0) [])) (leb 4096 room) _ _
      (λ big. refl)
      (λ small.
        output_hot_lem room bytes (Mode.counting 0 0) [] 0xFFFFFFFF 0 h tt (omega arith) refl)

run_bytes-All : (c run : ℕ) → c < 256 → All (λ x. x < 256) (run_bytes c run)
unfolding run_bytes
run_bytes-All c run lt =
    if-both (λ t. All (λ x. x < 256) t) (leb 4 run) _ (replicate run c)
      (λ long. (lt, (lt, (lt, (lt, (omega arith, tt)))))) (λ short. replicate-All run c lt)

rle1_loop-All :
    (fuel : ℕ) (src : List ℕ) → All (λ x. x < 256) src → All (λ x. x < 256) (rle1_loop fuel src)
unfolding rle1_loop
rle1_loop-All zero src h = tt
rle1_loop-All (suc fuel) [] h = tt
rle1_loop-All (suc fuel) (c ∷ rest) h =
    let run = count_run rest c 1 in
    All-append (λ x. x < 256) (run_bytes c run) _ (run_bytes-All c run h.0)
      (rle1_loop-All fuel (drop run (c ∷ rest)) (All-drop (λ x. x < 256) run (c ∷ rest) h))

-- What was encoded comes back with the checksum that the compressor computed of it, if the source is
-- bytes and fits the room.
pub output_block-rle1_encode :
    (room : ℕ) (src : List ℕ)
    → All (λ x. x < 256) src
    → length src ≤ room
    → output_block room (rle1_encode src) ≡ some (src, crc32_block src)
unfolding with_block_crc rle1_encode
output_block-rle1_encode room src h le =
    output_block-expand room (rle1_encode src) (rle1_loop-All (length src) src h)
    ∙ ap with_block_crc (expand-rle1_encode room src le)
