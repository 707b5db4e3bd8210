-- ===== src/Bzip2/Rle1/RoundTrip.antt =====
-- The output loop of src/bzip2/bzip2_decompress.cpp on what rle1_encode gives.
use orot.Base.{
  length-replicate, drop-replicate, ℕ, zero, suc, ◌+◌, ◌-◌, ◌%◌, ◌≤◌, ◌<◌, ◌≡◌, refl, sym, ap,
  subst, ◌∙◌, ◌⊎◌, inl, inr, List, [], ◌∷◌, ◌++◌, some, arith, length, replicate, drop, leb, ◌==◌,
  if◌then◌else◌, ==_iff, ne-==, lt→ltb, le→leb, leb→le, ◌≢◌, length-append, append_assoc,
  append-nil, if-both, Bool-cases,
}
use orot.Bzip2.Rle1.{
  run_bytes, rle1_loop, rle1_encode, count_run, Mode, after_byte, expand, Ends, count_run-IsRun,
}

-- The first byte of a run: the count starts at one.
abbrev pub IsFresh : ℕ → Mode → Type 0
IsFresh c (Mode.counting run_ch run_cnt) = (run_cnt ≡ 0) ⊎ (c ≢ run_ch)
IsFresh c (Mode.repeating run_ch) = ⊥

module _ (room : ℕ) where
  expand-first :
      (c : ℕ) (bytes : List ℕ) (mode : Mode) (out : List ℕ)
      → IsFresh c mode
      → length out < room
      → expand room (c ∷ bytes) mode out ≡ expand room bytes (Mode.counting c 1) (out ++ (c ∷ []))
  unfolding expand after_byte
  expand-first c bytes (Mode.repeating run_ch) out fresh lt = absurd fresh
  expand-first c bytes (Mode.counting run_ch run_cnt) out (inr ne) lt =
      rw (lt→ltb (length out) room lt, ne-== c run_ch ne) refl
  expand-first c bytes (Mode.counting run_ch run_cnt) out (inl e) lt =
      rw (lt→ltb (length out) room lt, e)
        (if-both
          (λ m.
            expand room bytes m (out ++ (c ∷ []))
            ≡ expand room bytes (Mode.counting c 1) (out ++ (c ∷ [])))
          (c == run_ch) _ _
          (λ eq.
            ap (λ t. expand room bytes (Mode.counting t 1) (out ++ (c ∷ [])))
              (sym ((==_iff c run_ch).0 eq)))
          (λ eq. refl))

  -- Another byte of a run that stays below four.
  expand-next :
      (c k : ℕ) (bytes out : List ℕ)
      → k + 1 < 4
      → length out < room
      → expand room (c ∷ bytes) (Mode.counting c k) out
        ≡ expand room bytes (Mode.counting c (k + 1)) (out ++ (c ∷ []))
  unfolding expand after_byte
  expand-next c k bytes out small lt =
      rw (lt→ltb (length out) room lt, (==_iff c c).1 refl, ne-== (k + 1) 4 (omega arith)) refl

  expand-more :
      (n c k : ℕ) (bytes out : List ℕ)
      → k + n < 4
      → length out + n ≤ room
      → expand room (replicate n c ++ bytes) (Mode.counting c k) out
        ≡ expand room bytes (Mode.counting c (k + n)) (out ++ replicate n c)
  expand-more zero c k bytes out small le =
      let e : k ≡ k + 0 = omega arith in
      ap (λ t. expand room bytes (Mode.counting c t) out) e
      ∙ ap (λ t. expand room bytes (Mode.counting c (k + 0)) t) (sym (append-nil out))
  expand-more (suc n) c k bytes out small le =
      let e : k + 1 + n ≡ k + suc n = omega arith in
      expand-next c k (replicate n c ++ bytes) out (omega arith) (omega arith)
      ∙ expand-more n c (k + 1) bytes (out ++ (c ∷ [])) (omega arith)
          (omega (arith, length-append out (c ∷ [])))
      ∙ ap (λ t. expand room bytes (Mode.counting c t) ((out ++ (c ∷ [])) ++ replicate n c)) e
      ∙ ap (λ t. expand room bytes (Mode.counting c (k + suc n)) t)
          (append_assoc out (c ∷ []) (replicate n c))

  -- The fourth byte of a run and the count behind it.
  expand-full :
      (c cnt : ℕ) (bytes out : List ℕ)
      → length out + suc cnt ≤ room
      → expand room (c ∷ cnt ∷ bytes) (Mode.counting c 3) out
        ≡ expand room bytes (Mode.counting c 0) (out ++ replicate (suc cnt) c)
  unfolding expand after_byte
  expand-full c cnt bytes out le =
      rw
        (
          lt→ltb (length out) room (omega arith),
          (==_iff c c).1 refl,
          le→leb cnt (room - length (out ++ (c ∷ []))) (omega (arith, length-append out (c ∷ []))),
        )
        (ap (λ t. expand room bytes (Mode.counting c 0) t)
          (append_assoc out (c ∷ []) (replicate cnt c)))

  -- A whole run, short or with its count.
  expand-run :
      (c more : ℕ) (bytes : List ℕ) (mode : Mode) (out : List ℕ)
      → IsFresh c mode
      → more ≤ 258
      → length out + suc more ≤ room
      → expand room (run_bytes c (suc more) ++ bytes) mode out
        ≡ expand room bytes
            (Mode.counting c (if leb 4 (suc more) then 0 else suc more))
            (out ++ replicate (suc more) c)
  unfolding run_bytes
  expand-run c more bytes mode out fresh le fits = elim (Bool-cases (leb 4 (suc more))) [
    | inl long ↦
        let four = leb→le 4 (suc more) long in
        let e : suc more ≡ suc (suc (suc (suc ((suc more - 4) % 256)))) = omega arith in
        let e' : replicate (suc more) c ≡ c ∷ c ∷ c ∷ replicate (suc ((suc more - 4) % 256)) c =
          ap (λ n. replicate n c) e in
        rw (long) (
          expand-first c _ mode out fresh (omega arith)
          ∙ expand-more 2 c 1 _ (out ++ (c ∷ [])) (omega arith)
              (omega (arith, length-append out (c ∷ [])))
          ∙ expand-full c ((suc more - 4) % 256) bytes ((out ++ (c ∷ [])) ++ replicate 2 c) (
              omega (
                arith,
                length-append out (c ∷ []),
                length-append (out ++ (c ∷ [])) (replicate 2 c),
              ))
          ∙ ap (λ t. expand room bytes (Mode.counting c 0) t)
              (append_assoc (out ++ (c ∷ [])) (replicate 2 c) _
                ∙ append_assoc out (c ∷ []) _
                ∙ ap (λ t. out ++ t) (sym e')))
    | inr short ↦
        let e : 1 + more ≡ suc more = omega arith in
        rw (short) (
          expand-first c (replicate more c ++ bytes) mode out fresh (omega arith)
          ∙ expand-more more c 1 bytes (out ++ (c ∷ [])) (ground arith)
              (omega (arith, length-append out (c ∷ [])))
          ∙ ap (λ n. expand room bytes (Mode.counting c n) ((out ++ (c ∷ [])) ++ replicate more c))
              e
          ∙ ap (λ t. expand room bytes (Mode.counting c (suc more)) t)
              (append_assoc out (c ∷ []) (replicate more c)))
  ]

-- The state in which the bytes of a new run may follow.
abbrev pub IsReady : List ℕ → Mode → Type 0
IsReady src (Mode.repeating run_ch) = ⊥
IsReady [] (Mode.counting run_ch run_cnt) = Unit
IsReady (c ∷ src) (Mode.counting run_ch run_cnt) = IsFresh c (Mode.counting run_ch run_cnt)

ready-IsFresh : (c : ℕ) (src : List ℕ) (mode : Mode) → IsReady (c ∷ src) mode → IsFresh c mode
ready-IsFresh c src (Mode.counting run_ch run_cnt) h = h
ready-IsFresh c src (Mode.repeating run_ch) h = h

IsReady-after :
    (left : List ℕ) (c run : ℕ)
    → (run ≡ 259) ⊎ Ends c left
    → IsReady left (Mode.counting c (if leb 4 run then 0 else run))
IsReady-after [] c run h = tt
IsReady-after (x ∷ left) c run (inr ne) = inr ne
IsReady-after (x ∷ left) c run (inl e) = inl (ground arith)

module _ (room : ℕ) where
  expand-rle1_loop :
      (fuel : ℕ) (src : List ℕ) (mode : Mode) (out : List ℕ)
      → length src ≤ fuel
      → IsReady src mode
      → length out + length src ≤ room
      → expand room (rle1_loop fuel src) mode out ≡ some (out ++ src)
  unfolding expand rle1_loop
  expand-rle1_loop zero [] (Mode.counting k n) out h ready le = ap some (sym (append-nil out))
  expand-rle1_loop (suc fuel) [] (Mode.counting k n) out h ready le = ap some (sym (append-nil out))
  expand-rle1_loop fuel [] (Mode.repeating k) out h ready le = absurd ready
  expand-rle1_loop zero (c ∷ rest) mode out h ready le = absurd (omega arith)
  expand-rle1_loop (suc fuel) (c ∷ rest) mode out h ready le =
      let r = count_run-IsRun rest c 1 (omega arith) in
      let e : count_run rest c 1 ≡ suc r.more = omega (arith, r.sum) in
      let e' : drop (suc r.more) (c ∷ rest) ≡ r.left =
        ap (λ t. drop r.more t) r.split ∙ drop-replicate r.more c r.left in
      let size : length rest ≡ r.more + length r.left =
        ap length r.split
        ∙ length-append (replicate r.more c) r.left
        ∙ ap (λ (n : ℕ). n + length r.left) (length-replicate r.more c) in
      rw (e, e')
        (expand-run room c r.more (rle1_loop fuel r.left) mode out (ready-IsFresh c rest mode ready)
            (omega (arith, r.bound, r.sum)) (omega arith)
          ∙ expand-rle1_loop fuel r.left _ (out ++ replicate (suc r.more) c) (omega arith)
              (IsReady-after r.left c (suc r.more)
                (subst (λ n. (n ≡ 259) ⊎ Ends c r.left) e r.ends))
              (omega
                (arith, length-append out (replicate (suc r.more) c), length-replicate r.more c))
          ∙ ap some (
              append_assoc out (replicate (suc r.more) c) r.left
              ∙ ap (λ t. out ++ (c ∷ t)) (sym r.split)))

  -- The output loop takes the encoded bytes back, from the state in which it starts, when the block
  -- fits the room.
  pub expand-rle1_encode :
      (src : List ℕ)
      → length src ≤ room
      → expand room (rle1_encode src) (Mode.counting 0 0) [] ≡ some src
  unfolding rle1_encode
  expand-rle1_encode src le =
      expand-rle1_loop (length src) src (Mode.counting 0 0) [] (omega arith) (start src)
        (omega arith)
    where
      start : (src : List ℕ) → IsReady src (Mode.counting 0 0)
      start [] = tt
      start (c ∷ src) = inl refl
