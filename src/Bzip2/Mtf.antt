-- ===== src/Bzip2/Mtf.antt =====
-- src/bzip2/mtf.hpp. The state is the list of the n in-use symbols, `sym[0..n)`.
use native.Mathlib.Decide.{ℕ_discrete}
use native.Mathlib.Numerals.{add-one}
use orot.Base.{
  ℕ, zero, suc, ◌+◌, ◌%◌, ◌≤◌, ◌<◌, ◌≡◌, refl, sym, ap, ◌∙◌, ◌⊎◌, inl, inr, List, [], ◌∷◌, ◌++◌,
  Option, none, some, arith, length, get_or, take, drop, ltb, ◌==◌, if◌then◌else◌, All, ==_iff,
  ne-==, lt→ltb, ◌≢◌, length-append, length-take, length-drop,
}

-- while (rank < n && sym[rank] != c) ++rank, over the symbols from `rank` on.
unfoldable pub find_rank : List ℕ → ℕ → ℕ → ℕ
find_rank [] c rank = rank
find_rank (x ∷ syms) c rank =
    let rest = find_rank syms c (rank + 1) in if x == c then rank else rest

-- memmove(sym + 1, sym, rank); sym[0] = c.
unfoldable pub move_to_front : List ℕ → ℕ → ℕ → List ℕ
move_to_front syms rank c = c ∷ (take rank syms ++ drop (rank + 1) syms)

-- MTFState::encode; `none` is -1.
unfoldable pub encode : ℕ → List ℕ → Option ℕ × List ℕ
encode c syms =
    let rank = find_rank (drop 1 syms) c 1 in
    if get_or syms 0 0 == c
    then (some 0, syms)
    else if ltb rank (length syms)
    then (some rank, move_to_front syms rank c)
    else (none, syms)

-- MTFState::decode.
unfoldable pub decode : ℕ → List ℕ → ℕ × List ℕ
decode rank syms =
    let c = get_or syms rank 0 in if rank == 0 then (c, syms) else (c, move_to_front syms rank c)

-- The cast of a rank to uint8_t; -1 becomes 255.
unfoldable pub rank_byte : Option ℕ → ℕ
rank_byte none = 255
rank_byte (some rank) = rank % 256

unfoldable pub encode_all : List ℕ → List ℕ → List ℕ
encode_all [] syms = []
encode_all (c ∷ rest) syms = rank_byte (encode c syms).0 ∷ encode_all rest (encode c syms).1

unfoldable pub decode_all : List ℕ → List ℕ → List ℕ
decode_all [] syms = []
decode_all (rank ∷ rest) syms = (decode rank syms).0 ∷ decode_all rest (decode rank syms).1

-- mtf_encode_inuse and mtf_decode_inuse.
unfoldable pub mtf_encode_inuse : List ℕ → List ℕ → List ℕ
mtf_encode_inuse bytes inuse_syms = encode_all bytes inuse_syms

unfoldable pub mtf_decode_inuse : List ℕ → List ℕ → List ℕ
mtf_decode_inuse ranks inuse_syms = decode_all ranks inuse_syms

-- A symbol stands in the list.
abbrev pub IsIn : ℕ → List ℕ → Type 0
IsIn c [] = ⊥
IsIn c (x ∷ syms) = (x ≡ c) ⊎ IsIn c syms

pub find_rank_found :
    (syms : List ℕ) (c rank : ℕ)
    → IsIn c syms
    → (k : ℕ) × (find_rank syms c rank ≡ rank + k) × (k < length syms) × (get_or syms k 0 ≡ c)
unfolding find_rank
find_rank_found [] c rank h = absurd h
find_rank_found (x ∷ syms) c rank h = elim (ℕ_discrete x c) [
  | yes p ↦ (0, ground arith, omega arith, p)
  | no p ↦
      let (k, e, lt, at) = find_rank_found syms c (rank + 1) (not_here h p) in
      (suc k, ground (arith, e), omega arith, at)
]
  where
    not_here : IsIn c (x ∷ syms) → ¬ (x ≡ c) → IsIn c syms
    not_here (inl e) p = absurd (p e)
    not_here (inr m) p = m

removed_or_kept :
    (syms : List ℕ) (d rank : ℕ)
    → IsIn d syms
    → (get_or syms rank 0 ≡ d) ⊎ IsIn d (take rank syms ++ drop (suc rank) syms)
removed_or_kept [] d rank h = absurd h
removed_or_kept (x ∷ syms) d zero (inl e) = inl e
removed_or_kept (x ∷ syms) d zero (inr m) = inr m
removed_or_kept (x ∷ syms) d (suc rank) (inl e) = inr (inl e)
removed_or_kept (x ∷ syms) d (suc rank) (inr m) = elim (removed_or_kept syms d rank m) [
  | inl e ↦ inl e
  | inr k ↦ inr (inr k)
]

-- A move keeps every symbol and their number.
pub move_to_front_keeps :
    (syms : List ℕ) (c d rank : ℕ)
    → get_or syms rank 0 ≡ c
    → IsIn d syms
    → IsIn d (move_to_front syms rank c)
unfolding move_to_front
move_to_front_keeps syms c d rank at m = elim (removed_or_kept syms d rank m) [
  | inl e ↦ inl (sym at ∙ e)
  | inr k ↦ inr (rw add-one k)
]

pub length-move_to_front :
    (syms : List ℕ) (c rank : ℕ)
    → rank < length syms
    → length (move_to_front syms rank c) ≡ length syms
unfolding move_to_front
length-move_to_front syms c rank lt = omega (
  arith,
  length-append (take rank syms) (drop (rank + 1) syms),
  length-take rank syms,
  length-drop (rank + 1) syms,
)

-- What one step of the encoder, with the result `r`, does for a symbol that is in use.
record IsEncoded (c : ℕ) (syms : List ℕ) (r : Option ℕ × List ℕ) : Type 0 where
  decoded : decode (rank_byte r.0) syms ≡ (c, r.1)
  kept : (d : ℕ) → IsIn d syms → IsIn d r.1
  size : length r.1 ≡ length syms
  small : rank_byte r.0 < length syms

moved-IsEncoded :
    (syms : List ℕ) (c rank : ℕ)
    → get_or syms rank 0 ≡ c
    → rank < length syms
    → rank ≢ 0
    → length syms ≤ 256
    → IsEncoded c syms (some rank, move_to_front syms rank c)
unfolding decode rank_byte
moved-IsEncoded syms c rank at lt pos le =
    let e : rank % 256 ≡ rank = omega arith in
    record {
      decoded = rw (e, at, ne-== rank 0 pos);
      kept = λ d m. move_to_front_keeps syms c d rank at m;
      size = length-move_to_front syms c rank lt;
      small = rw e lt;
    }

front-IsEncoded :
    (syms : List ℕ) (c : ℕ)
    → get_or syms 0 0 ≡ c
    → 0 < length syms
    → IsEncoded c syms (some 0, syms)
unfolding decode rank_byte
front-IsEncoded syms c at lt = record { decoded = rw at; kept = λ d m. m; size = refl; small = lt }

encode-IsEncoded :
    (c : ℕ) (syms : List ℕ) → IsIn c syms → length syms ≤ 256 → IsEncoded c syms (encode c syms)
unfolding encode
encode-IsEncoded c [] h le = absurd h
encode-IsEncoded c (x ∷ syms) h le = elim (ℕ_discrete x c) [
  | yes p ↦ rw ((==_iff x c).1 p) (front-IsEncoded (x ∷ syms) c p (omega arith))
  | no p ↦
      let (k, e, lt, at) = find_rank_found syms c 1 (not_here h p) in
      let e' : find_rank syms c 1 ≡ suc k = omega (arith, e) in
      rw (ne-== x c p, e', lt→ltb (suc k) (suc (length syms)) (omega arith))
        (moved-IsEncoded (x ∷ syms) c (suc k) at (omega arith) (omega arith) le)
]
  where
    not_here : IsIn c (x ∷ syms) → ¬ (x ≡ c) → IsIn c syms
    not_here (inl e) p = absurd (p e)
    not_here (inr m) p = m

All-kept :
    (bytes syms syms' : List ℕ)
    → ((d : ℕ) → IsIn d syms → IsIn d syms')
    → All (λ c. IsIn c syms) bytes
    → All (λ c. IsIn c syms') bytes
All-kept [] syms syms' f h = tt
All-kept (c ∷ bytes) syms syms' f h = (f c h.0, All-kept bytes syms syms' f h.1)

decode_all-encode_all :
    (bytes syms : List ℕ)
    → All (λ c. IsIn c syms) bytes
    → length syms ≤ 256
    → decode_all (encode_all bytes syms) syms ≡ bytes
unfolding decode_all encode_all
decode_all-encode_all [] syms h le = refl
decode_all-encode_all (c ∷ bytes) syms h le =
    let s = encode-IsEncoded c syms h.0 le in
    rw s.decoded (
      ap (◌∷◌ c) (
        decode_all-encode_all bytes (encode c syms).1 (All-kept bytes syms _ s.kept h.1)
          (omega (arith, s.size))))

ranks :
    (bytes syms : List ℕ) (n : ℕ)
    → All (λ c. IsIn c syms) bytes
    → length syms ≤ 256
    → length syms ≡ n
    → All (λ rank. rank < n) (encode_all bytes syms)
unfolding encode_all
ranks [] syms n h le e = tt
ranks (c ∷ bytes) syms n h le e =
    let s = encode-IsEncoded c syms h.0 le in
    (
      omega (arith, s.small),
      ranks bytes (encode c syms).1 n (All-kept bytes syms _ s.kept h.1) (omega (arith, s.size))
          (omega (arith, s.size)),
    )

-- mtf_decode_inuse undoes mtf_encode_inuse on bytes that are all in use, when at most 256 symbols
-- are, and every rank in between is below the number of symbols.
pub mtf_decode_inuse-mtf_encode_inuse :
    (bytes inuse_syms : List ℕ)
    → All (λ c. IsIn c inuse_syms) bytes
    → length inuse_syms ≤ 256
    → (mtf_decode_inuse (mtf_encode_inuse bytes inuse_syms) inuse_syms ≡ bytes)
      × All (λ rank. rank < length inuse_syms) (mtf_encode_inuse bytes inuse_syms)
unfolding mtf_decode_inuse mtf_encode_inuse
mtf_decode_inuse-mtf_encode_inuse bytes inuse_syms used le = (
  decode_all-encode_all bytes inuse_syms used le,
  ranks bytes inuse_syms (length inuse_syms) used le refl,
)
