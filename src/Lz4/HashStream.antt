-- ===== src/Lz4/HashStream.antt =====
-- The streaming hash of src/lz4/xxhash32.hpp is the one-shot hash, however the input is cut.
use native.Mathlib.Decide.{dec_lt}
use mathlib.Core.List.{flatten}
use orot.Base.{
  ℕ, zero, suc, ◌+◌, ◌-◌, ◌%◌, ◌^◌, ◌≤◌, ◌<◌, ◌≡◌, refl, sym, ap, ◌∙◌, List, [], ◌∷◌, ◌++◌, arith,
  length, get_or, take, drop, le→leb, lt→ltb, ge-ltb, lt-leb, drop-length, take-append-drop,
  append_assoc, append-nil, length-append, length-take, length-drop,
}
use orot.Lz4.XxHash.{
  Lanes, lanes_start, lane_at, round, stripe, stripes, xxh32, State, reset, fill_buffer, update,
  digest, update_all,
}

get_or-append_left : (p q : List ℕ) (i : ℕ) → i < length p → get_or (p ++ q) i 0 ≡ get_or p i 0
get_or-append_left [] q i h = elim h [ ]
get_or-append_left (x ∷ p) q zero h = refl
get_or-append_left (x ∷ p) q (suc i) h = get_or-append_left p q i (omega arith)

drop-append_left : (n : ℕ) (p q : List ℕ) → n ≤ length p → drop n (p ++ q) ≡ drop n p ++ q
drop-append_left zero p q h = refl
drop-append_left (suc n) [] q h = absurd (omega arith)
drop-append_left (suc n) (x ∷ p) q h = drop-append_left n p q (omega arith)

lane_at-append : (p q : List ℕ) (i : ℕ) → i + 3 < length p → lane_at (p ++ q) i ≡ lane_at p i
lane_at-append p q i h = omega (
  arith,
  get_or-append_left p q i (omega arith),
  get_or-append_left p q (i + 1) (omega arith),
  get_or-append_left p q (i + 2) (omega arith),
  get_or-append_left p q (i + 3) (omega arith),
)

drop_exact : (n : ℕ) (p : List ℕ) → length p ≡ n → drop n p ≡ []
drop_exact n p e = ap (λ k. drop k p) (sym e) ∙ drop-length p

-- A stripe reads 16 bytes.
stripe-append : (v : Lanes) (p q : List ℕ) → 16 ≤ length p → stripe v (p ++ q) ≡ stripe v p
unfolding stripe
stripe-append v p q h = λ i. record {
  v1 = round v.v1 (lane_at-append p q 0 (omega arith) i);
  v2 = round v.v2 (lane_at-append p q 4 (omega arith) i);
  v3 = round v.v3 (lane_at-append p q 8 (omega arith) i);
  v4 = round v.v4 (lane_at-append p q 12 (omega arith) i);
}

stripes-fuel :
    (f g : ℕ) (v : Lanes) (p : List ℕ) → length p ≤ f → length p ≤ g → stripes f v p ≡ stripes g v p
unfolding stripes
stripes-fuel zero zero v p hf hg = refl
stripes-fuel zero (suc g) v p hf hg = ground arith
stripes-fuel (suc f) zero v p hf hg = ground arith
stripes-fuel (suc f) (suc g) v p hf hg =
    ground (arith, stripes-fuel f g (stripe v p) (drop 16 p), length-drop 16 p)

stripes_rest : (f : ℕ) (v : Lanes) (p : List ℕ) → length (stripes f v p).1 ≤ length p
unfolding stripes
stripes_rest zero v p = omega arith
stripes_rest (suc f) v p = ground (arith, stripes_rest f (stripe v p) (drop 16 p), length-drop 16 p)

-- What is left is shorter than a stripe.
stripes_left : (f : ℕ) (v : Lanes) (p : List ℕ) → length p ≤ f → length (stripes f v p).1 < 16
unfolding stripes
stripes_left zero v p h = omega arith
stripes_left (suc f) v p h =
    ground (arith, stripes_left f (stripe v p) (drop 16 p), length-drop 16 p)

stripes_step :
    (f : ℕ) (v : Lanes) (p : List ℕ)
    → 16 ≤ length p
    → stripes (suc f) v p ≡ stripes f (stripe v p) (drop 16 p)
unfolding stripes
stripes_step f v p h = rw (le→leb 16 (length p) h)

stripes_stop : (f : ℕ) (v : Lanes) (p : List ℕ) → length p < 16 → stripes f v p ≡ (v, p)
unfolding stripes
stripes_stop zero v p h = refl
stripes_stop (suc f) v p h = ground arith

stripes-append_short :
    (f g k : ℕ) (v : Lanes) (p q : List ℕ)
    → length p < 16
    → length p + length q ≤ g
    → length p + length q ≤ k
    → stripes g v (p ++ q) ≡ stripes k (stripes f v p).0 ((stripes f v p).1 ++ q)
stripes-append_short f g k v p q short hg hk = rw (stripes_stop f v p short) (
    stripes-fuel g k v (p ++ q) (omega (arith, length-append p q))
      (omega (arith, length-append p q)))

-- The stripes of `p` first, and then those of its rest with `q`.
stripes-append :
    (f g k : ℕ) (v : Lanes) (p q : List ℕ)
    → length p ≤ f
    → length p + length q ≤ g
    → length p + length q ≤ k
    → stripes g v (p ++ q) ≡ stripes k (stripes f v p).0 ((stripes f v p).1 ++ q)
stripes-append zero g k v p q hf hg hk = stripes-append_short zero g k v p q (omega arith) hg hk
stripes-append (suc f) zero k v p q hf hg hk =
    stripes-append_short (suc f) zero k v p q (omega arith) hg hk
stripes-append (suc f) (suc g) k v p q hf hg hk = elim (dec_lt (length p) 16) [
  | yes short ↦ stripes-append_short (suc f) (suc g) k v p q short hg hk
  | no long ↦
      let h : 16 ≤ length p = omega arith in
      rw
        (
          stripes_step f v p h,
          stripes_step g v (p ++ q) (omega (arith, length-append p q)),
          stripe-append v p q h,
          drop-append_left 16 p q h,
        )
        (stripes-append f g k (stripe v p) (drop 16 p) q (omega (arith, length-drop 16 p))
          (omega (arith, length-drop 16 p)) (omega (arith, length-drop 16 p)))
]

-- A stripe out of a full buffer is the first stripe of the buffer with the input behind it.
fill_stripe :
    (m : ℕ) (v : Lanes) (buf p : List ℕ)
    → length buf < 16
    → 16 ≤ length buf + length p
    → length buf + length p ≤ suc m
    → stripes
        (length (drop (16 - length buf) p))
        (stripe v (buf ++ take (16 - length buf) p))
        (drop (16 - length buf) p)
      ≡ stripes (suc m) v (buf ++ p)
fill_stripe m v buf p short long enough =
    stripes-fuel _ m _ _ (omega arith) (omega (arith, length-drop (16 - length buf) p))
    ∙ sym (
        ap (stripes (suc m) v) whole
        ∙ stripes_step m v (full ++ left) (omega (arith, full_length, length-append full left))
        ∙ ap (λ w. stripes m w (drop 16 (full ++ left)))
            (stripe-append v full left (omega (arith, full_length)))
        ∙ ap (stripes m (stripe v full)) (
            drop-append_left 16 full left (omega (arith, full_length))
            ∙ ap (λ l. l ++ left) (drop_exact 16 full full_length)))
  where
    full : List ℕ
    full = buf ++ take (16 - length buf) p

    left : List ℕ
    left = drop (16 - length buf) p

    full_length : length full ≡ 16
    full_length =
        omega (arith, length-append buf (take (16 - length buf) p), length-take (16 - length buf) p)

    whole : buf ++ p ≡ full ++ left
    whole =
        ap (λ l. buf ++ l) (sym (take-append-drop (16 - length buf) p))
        ∙ sym (append_assoc buf (take (16 - length buf) p) left)

fill_buffer-stripes :
    (v : Lanes) (t : ℕ) (buf p : List ℕ)
    → length buf < 16
    → 16 ≤ length buf + length p
    → let filled = fill_buffer (record { lanes = v; total_len = t; buf = buf }) p in
      stripes (length filled.1) filled.0 filled.1 ≡ stripes (length buf + length p) v (buf ++ p)
unfolding fill_buffer
fill_buffer-stripes v t [] p short long =
    stripes-fuel (length p) (0 + length p) v p (omega arith) (omega arith)
fill_buffer-stripes v t (b ∷ buf) p short long = rw (lt→ltb 0 (suc (length buf)) (omega arith)) (
    fill_stripe (length buf + length p) v (b ∷ buf) p short long (omega arith)
    ∙ ap (λ n. stripes n v (b ∷ (buf ++ p))) (omega arith))

-- What an update leaves: the stripes of the buffer with the input behind it, and their rest.
update-stripes :
    (s : State) (p : List ℕ)
    → length s.buf < 16
    → update s p ≡ record {
      lanes = (stripes (length s.buf + length p) s.lanes (s.buf ++ p)).0;
      total_len = (s.total_len + length p) % 2 ^ 32;
      buf = (stripes (length s.buf + length p) s.lanes (s.buf ++ p)).1;
    }
unfolding update
update-stripes s p h = elim (dec_lt (length s.buf + length p) 16) [
  | yes short ↦ rw (
    lt→ltb _ 16 short,
    stripes_stop (length s.buf + length p) s.lanes (s.buf ++ p)
        (omega (arith, length-append s.buf p)),
  )
  | no long ↦ rw (
    ge-ltb (length s.buf + length p) 16 (omega arith),
    fill_buffer-stripes s.lanes s.total_len s.buf p h (omega arith),
  )
]

-- The state after the bytes `p`.
record IsAfter (seed : ℕ) (p : List ℕ) (s : State) : Type 0 where
  lanes : s.lanes ≡ (stripes (length p) (lanes_start seed) p).0
  buf : s.buf ≡ (stripes (length p) (lanes_start seed) p).1
  total : s.total_len ≡ length p % 2 ^ 32

reset-IsAfter : (seed : ℕ) → IsAfter seed [] (reset seed)
unfolding reset stripes
reset-IsAfter seed = record { lanes = refl; buf = refl; total = refl }

update-IsAfter :
    (seed : ℕ) (p q : List ℕ) (s : State) → IsAfter seed p s → IsAfter seed (p ++ q) (update s q)
update-IsAfter seed p q s a =
    rw (update-stripes s q short, a.total)
      (record {
        lanes = ap (λ r. r.0) (sym joined);
        buf = ap (λ r. r.1) (sym joined);
        total = omega (arith, length-append p q);
      })
  where
    short : length s.buf < 16
    short = rw a.buf (stripes_left (length p) (lanes_start seed) p (omega arith))

    rest : List ℕ
    rest = (stripes (length p) (lanes_start seed) p).1

    joined :
        stripes (length (p ++ q)) (lanes_start seed) (p ++ q)
        ≡ stripes (length s.buf + length q) s.lanes (s.buf ++ q)
    joined =
        stripes-append (length p) (length (p ++ q)) (length p + length q) (lanes_start seed) p q
          (omega arith) (omega (arith, length-append p q)) (omega arith)
        ∙ stripes-fuel (length p + length q) (length rest + length q) _ (rest ++ q)
            (omega (arith, length-append rest q, stripes_rest (length p) (lanes_start seed) p))
            (omega (arith, length-append rest q))
        ∙ rw (a.lanes, a.buf) refl

update_all-IsAfter :
    (chunks : List (List ℕ)) (seed : ℕ) (p : List ℕ) (s : State)
    → IsAfter seed p s
    → IsAfter seed (p ++ flatten chunks) (update_all s chunks)
unfolding update_all flatten
update_all-IsAfter [] seed p s a = rw append-nil a
update_all-IsAfter (q ∷ chunks) seed p s a =
    rw (← append_assoc p q (flatten chunks))
      (update_all-IsAfter chunks seed (p ++ q) (update s q) (update-IsAfter seed p q s a))

digest-IsAfter :
    (seed : ℕ) (p : List ℕ) (s : State)
    → length p < 2 ^ 32
    → IsAfter seed p s
    → digest s ≡ xxh32 seed p
unfolding digest xxh32 lanes_start
digest-IsAfter seed p s small a = elim (dec_lt (length p) 16) [
  | yes short ↦ rw (
    a.total,
    a.lanes,
    a.buf,
    stripes_stop (length p) (lanes_start seed) p short,
    whole,
    lt-leb 16 (length p) short,
  )
  | no long ↦ rw (a.total, a.lanes, a.buf, whole, le→leb 16 (length p) (omega arith))
]
  where
    whole : length p % 2 ^ 32 ≡ length p
    whole = omega arith

-- The digest after any sequence of updates is the one-shot hash of all the bytes in order, as long
-- as there are fewer than 2 ^ 32.
pub digest-update_all :
    (seed : ℕ) (chunks : List (List ℕ))
    → length (flatten chunks) < 2 ^ 32
    → digest (update_all (reset seed) chunks) ≡ xxh32 seed (flatten chunks)
digest-update_all seed chunks small =
    digest-IsAfter seed (flatten chunks) _ small
      (update_all-IsAfter chunks seed [] (reset seed) (reset-IsAfter seed))
