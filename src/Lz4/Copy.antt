-- ===== src/Lz4/Copy.antt =====
-- What the decoder's copy of a match computes: the doubling copy is the copy byte by byte.
use orot.Base.{
  ℕ, zero, suc, ◌+◌, ◌-◌, ◌≤◌, ◌<◌, ◌≡◌, refl, sym, ap, ◌∙◌, List, [], ◌∷◌, ◌++◌, append-nil,
  append_assoc, subst, arith, inl, inr, leb, length, get_or, take, drop, length-append,
  take-append-drop, length-drop, drop-append, get_or-append_right, Bool-cases, leb→le,
}
use orot.Lz4.Block.{copy_doubling, copy_match}

-- The meaning of a match in the block format: `n` times the byte `offset` back from the end.
unfoldable pub copy_bytes : ℕ → ℕ → List ℕ → List ℕ
copy_bytes offset zero buf = buf
copy_bytes offset (suc n) buf =
    copy_bytes offset n (buf ++ (get_or buf (length buf - offset) 0 ∷ []))

-- `n` bytes of the window `w` repeated.
stream : ℕ → List ℕ → List ℕ
stream zero w = []
stream (suc n) [] = []
stream (suc n) (x ∷ w) = x ∷ stream n (w ++ (x ∷ []))

stream_window : (a b : List ℕ) (n : ℕ) → stream (length a + n) (a ++ b) ≡ a ++ stream n (b ++ a)
unfolding stream
stream_window [] b n = let e : 0 + n ≡ n = omega arith in rw (e, append-nil)
stream_window (x ∷ a) b n =
    let e : suc (length a) + n ≡ suc (length a + n) = omega arith in
    rw e (
      ap (◌∷◌ x) (
        rw (append_assoc a b (x ∷ [])) (
          stream_window a (b ++ (x ∷ [])) n
          ∙ ap (λ v. a ++ stream n v) (append_assoc b (x ∷ []) a))))

-- A whole turn of the window.
stream_turn : (w : List ℕ) (n : ℕ) → stream (length w + n) w ≡ w ++ stream n w
stream_turn w n = rw append-nil at (stream_window w [] n)

take-stream : (c n : ℕ) (w : List ℕ) → c ≤ n → take c (stream n w) ≡ stream c w
unfolding stream
take-stream zero n w h = refl
take-stream (suc c) zero w h = absurd (omega arith)
take-stream (suc c) (suc n) [] h = refl
take-stream (suc c) (suc n) (x ∷ w) h = ap (◌∷◌ x) (take-stream c n (w ++ (x ∷ [])) (omega arith))

last_of_window :
    (front : List ℕ) (x : ℕ) (w : List ℕ)
    → get_or (front ++ (x ∷ w)) (length (front ++ (x ∷ w)) - suc (length w)) 0 ≡ x
last_of_window front x w =
    let e : length (front ++ (x ∷ w)) - suc (length w) ≡ length front + 0 =
      omega (arith, length-append front (x ∷ w)) in
    rw e (get_or-append_right front (x ∷ w) 0 0)

copy_bytes-stream :
    (n : ℕ) (front w : List ℕ) (offset : ℕ)
    → length w ≡ offset
    → 1 ≤ offset
    → copy_bytes offset n (front ++ w) ≡ (front ++ w) ++ stream n w
unfolding copy_bytes stream
copy_bytes-stream zero front w offset e h = sym (append-nil _)
copy_bytes-stream (suc n) front [] offset e h = absurd (omega arith)
copy_bytes-stream (suc n) front (x ∷ w) offset e h =
    ap (λ b. copy_bytes offset n ((front ++ (x ∷ w)) ++ (b ∷ []))) byte
    ∙ ap (copy_bytes offset n) (simp append_assoc)
    ∙ copy_bytes-stream n (front ++ (x ∷ [])) (w ++ (x ∷ [])) offset
        (omega (arith, length-append w (x ∷ []))) h
    ∙ simp append_assoc
  where
    byte : get_or (front ++ (x ∷ w)) (length (front ++ (x ∷ w)) - offset) 0 ≡ x
    byte = rw (← e) (last_of_window front x w)

-- After some turns of the window the buffer's tail is as long as `chunk`, and the stream starts anew.
record IsTurned (w : List ℕ) (count : ℕ) : Type 0 where
  again : (n : ℕ) → stream (count + n) w ≡ stream count w ++ stream n w

IsTurned-zero : (w : List ℕ) → IsTurned w 0
unfolding stream
IsTurned-zero w = record { again = λ n. let e : 0 + n ≡ n = omega arith in rw e }

IsTurned-double :
    (w : List ℕ) (count : ℕ) → IsTurned w count → IsTurned w (count + (length w + count))
IsTurned-double w count t = record { again = λ n. double n }
  where
    two :
        (n : ℕ)
        → stream (count + (length w + count) + n) w
          ≡ (stream count w ++ (w ++ stream count w)) ++ stream n w
    two n =
        let e : count + (length w + count) + n ≡ count + (length w + (count + n)) = omega arith in
        rw (e, t.again (length w + (count + n)), stream_turn w (count + n), t.again n)
          (simp append_assoc)

    one : stream (count + (length w + count)) w ≡ stream count w ++ (w ++ stream count w)
    one = t.again (length w + count) ∙ ap (λ v. stream count w ++ v) (stream_turn w count)

    double :
        (n : ℕ)
        → stream (count + (length w + count) + n) w
          ≡ stream (count + (length w + count)) w ++ stream n w
    double n = two n ∙ ap (λ v. v ++ stream n w) (sym one)

-- A chunk read from `ref` on, where the buffer holds the window and `count` bytes of its stream.
chunk_of_window :
    (front w : List ℕ) (count c : ℕ)
    → c ≤ length w + count
    → take c (drop (length front) ((front ++ w) ++ stream count w)) ≡ stream c w
chunk_of_window front w count c h =
    ap (take c) (
      ap (drop (length front)) (append_assoc front w (stream count w))
      ∙ drop-append front (w ++ stream count w)
      ∙ sym (stream_turn w count))
    ∙ take-stream c (length w + count) w h

copy_doubling-stream :
    (fuel left count : ℕ) (front w : List ℕ)
    → left < fuel
    → 1 ≤ length w
    → IsTurned w count
    → copy_doubling fuel (length front) (length w + count) left ((front ++ w) ++ stream count w)
      ≡ (front ++ w) ++ stream (count + left) w
unfolding copy_doubling
copy_doubling-stream zero left count front w hf h t = absurd (omega arith)
copy_doubling-stream (suc fuel) left count front w hf h t =
    elim (Bool-cases (leb (length w + count) left)) [
      | inr p ↦ rw p (
          rw (chunk_of_window front w count left (ground arith), t.again left)
            (append_assoc (front ++ w) _ _))
      | inl p ↦ rw p (
          rw
            (
              chunk_of_window front w count (length w + count) (omega arith),
              append_assoc (front ++ w) (stream count w) (stream (length w + count) w),
            )
            (let e1 : length w + count + (length w + count)
                  ≡ length w + (count + (length w + count)) =
                omega arith in
              let e2 : count + left ≡ count + (length w + count) + (left - (length w + count)) =
                omega (arith, leb→le _ _ p) in
              rw (← t.again (length w + count), e1, e2)
                (copy_doubling-stream fuel (left - (length w + count)) (count + (length w + count))
                  front w (omega (arith, leb→le _ _ p)) h (IsTurned-double w count t))))
    ]

copy_match-window :
    (front w : List ℕ) (match_len : ℕ)
    → 1 ≤ length w
    → copy_match (length w) match_len (front ++ w) ≡ (front ++ w) ++ stream match_len w
unfolding copy_match stream
copy_match-window front w match_len h = elim (Bool-cases (leb match_len (length w))) [
  | inl p ↦ rw (ref, p) (ap (λ v. (front ++ w) ++ v) (start match_len (leb→le _ _ p)))
  | inr p ↦ rw (ref, p) (doubled)
]
  where
    ref : length (front ++ w) - length w ≡ length front
    ref = omega (arith, length-append front w)

    start : (c : ℕ) → c ≤ length w → take c (drop (length front) (front ++ w)) ≡ stream c w
    start c le =
        ap (take c) (ap (drop (length front)) (sym (append-nil (front ++ w))))
        ∙ chunk_of_window front w 0 c (omega arith)

    doubled :
        copy_doubling (suc match_len) (length front) (length w) match_len (front ++ w)
        ≡ (front ++ w) ++ stream match_len w
    doubled =
        let e : length w + 0 ≡ length w = omega arith in
        let e' : 0 + match_len ≡ match_len = omega arith in
        rw (append-nil, e, e') at
          (copy_doubling-stream (suc match_len) match_len 0 front w (omega arith) h
            (IsTurned-zero w))

pub copy_match-copy_bytes :
    (offset match_len : ℕ) (buf : List ℕ)
    → 1 ≤ offset
    → offset ≤ length buf
    → copy_match offset match_len buf ≡ copy_bytes offset match_len buf
copy_match-copy_bytes offset match_len buf h le =
    subst (λ b. copy_match offset match_len b ≡ copy_bytes offset match_len b) split
      (subst (λ o. copy_match o match_len (front ++ w) ≡ copy_bytes o match_len (front ++ w)) size
        (copy_match-window front w match_len (omega (arith, size))
          ∙ sym (copy_bytes-stream match_len front w (length w) refl (omega (arith, size)))))
  where
    front : List ℕ
    front = take (length buf - offset) buf

    w : List ℕ
    w = drop (length buf - offset) buf

    split : front ++ w ≡ buf
    split = take-append-drop (length buf - offset) buf

    size : length w ≡ offset
    size = omega (arith, length-drop (length buf - offset) buf)
