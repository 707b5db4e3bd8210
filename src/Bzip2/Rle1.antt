-- ===== src/Bzip2/Rle1.antt =====
-- src/bzip2/bzip2_compress.cpp, rle1_encode, and the run-length part of the output loop
-- (phase 3) of decode_block in src/bzip2/bzip2_decompress.cpp, over the bytes of the walk.
pub mod RoundTrip
pub mod Bounds
use orot.Base.{
  ℕ, zero, suc, ◌+◌, ◌-◌, ◌*◌, ◌%◌, ◌≤◌, ◌<◌, ◌≡◌, refl, sym, ap, subst, ◌∙◌, ◌⊎◌, inl, inr, List,
  [], ◌∷◌, ◌++◌, Bool, true, false, ◌&&◌, Option, none, some, arith, length, replicate, drop, ltb,
  leb, ◌==◌, if◌then◌else◌, ==_iff, ne-==, lt→ltb, le→leb, lt-leb, leb→le, ltb→lt, ◌≢◌,
  length-append, append_assoc, append-nil, if-both, Bool-cases,
}

-- while (i + run < len && run < 255 + 4 && src[i + run] == c) ++run, on the bytes from i + run on.
unfoldable pub count_run : List ℕ → ℕ → ℕ → ℕ
count_run [] c run = run
count_run (x ∷ rest) c run =
    let more = count_run rest c (run + 1) in if ltb run (255 + 4) && (x == c) then more else run

-- The bytes of one run.
unfoldable pub run_bytes : ℕ → ℕ → List ℕ
run_bytes c run = if leb 4 run then c ∷ c ∷ c ∷ c ∷ (run - 4) % 256 ∷ [] else replicate run c

-- while (i < len), with as much fuel as there are bytes.
unfoldable pub rle1_loop : ℕ → List ℕ → List ℕ
rle1_loop zero src = []
rle1_loop (suc fuel) [] = []
rle1_loop (suc fuel) (c ∷ rest) =
    let run = count_run rest c 1 in run_bytes c run ++ rle1_loop fuel (drop run (c ∷ rest))

unfoldable pub rle1_encode : List ℕ → List ℕ
rle1_encode src = rle1_loop (length src) src

-- c_run_ch and c_run_cnt; after the fourth equal byte, the walk's next byte is a count.
pub data Mode : Type 0 where
  counting : (run_ch run_cnt : ℕ) → Mode
  repeating : (run_ch : ℕ) → Mode

unfoldable pub after_byte : ℕ → ℕ → ℕ → Mode
after_byte c run_ch run_cnt =
    if c == run_ch
    then (if run_cnt + 1 == 4 then Mode.repeating run_ch else Mode.counting run_ch (run_cnt + 1))
    else Mode.counting c 1

-- The output loop: `room` is dst_cap - written, `out` what the block has put out.
unfoldable pub expand : ℕ → List ℕ → Mode → List ℕ → Option (List ℕ)
expand room [] (Mode.counting run_ch run_cnt) out = some out
expand room [] (Mode.repeating run_ch) out = none
expand room (c ∷ bytes) (Mode.counting run_ch run_cnt) out =
    let rest = expand room bytes (after_byte c run_ch run_cnt) (out ++ (c ∷ [])) in
    if ltb (length out) room then rest else none
expand room (cnt ∷ bytes) (Mode.repeating run_ch) out =
    let rest = expand room bytes (Mode.counting run_ch 0) (out ++ replicate cnt run_ch) in
    if leb cnt (room - length out) then rest else none

-- The run ends here: nothing is left, or another byte.
abbrev pub Ends : ℕ → List ℕ → Type 0
Ends c [] = Unit
Ends c (x ∷ rest) = x ≢ c

-- What the search for a run's end gives, from `run` bytes on: `more` copies, and then another byte
-- unless the run is full.
pub record IsRun (c : ℕ) (rest : List ℕ) (run total : ℕ) : Type 0 where
  pub more : ℕ
  pub left : List ℕ
  pub split : rest ≡ replicate more c ++ left
  pub sum : total ≡ run + more
  pub bound : total ≤ 259
  pub ends : (total ≡ 259) ⊎ Ends c left

pub count_run-IsRun :
    (rest : List ℕ) (c run : ℕ) → run ≤ 259 → IsRun c rest run (count_run rest c run)
unfolding count_run
count_run-IsRun [] c run le = record {
  more = 0;
  left = [];
  split = refl;
  sum = omega arith;
  bound = le;
  ends = inr tt;
}
count_run-IsRun (x ∷ rest) c run le =
    if-both (IsRun c (x ∷ rest) run) (ltb run (255 + 4) && (x == c)) _ _
      (λ e.
        let (lt, eq) = both (ltb run (255 + 4)) (x == c) e in
        let h = count_run-IsRun rest c (run + 1) (ground (arith, ltb→lt run (255 + 4) lt)) in
        record {
          more = suc h.more;
          left = h.left;
          split = ap (λ t. t ∷ rest) ((==_iff x c).0 eq) ∙ ap (◌∷◌ c) h.split;
          sum = omega (arith, h.sum);
          bound = h.bound;
          ends = h.ends;
        })
      (λ e. record {
        more = 0;
        left = x ∷ rest;
        split = refl;
        sum = omega arith;
        bound = le;
        ends = stop e;
      })
  where
    both : (a b : Bool) → (a && b) ≡ true → (a ≡ true) × (b ≡ true)
    both true b e = (refl, e)
    both false b e = absurd (cc)

    stop : (ltb run (255 + 4) && (x == c)) ≡ false → (run ≡ 259) ⊎ (x ≢ c)
    stop e = ground arith
