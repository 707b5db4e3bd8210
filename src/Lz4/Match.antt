-- ===== src/Lz4/Match.antt =====
-- Every match that lz4_block_compress takes is one: the bytes at `ip` stand `offset` further back,
-- the offset fits the format's field, and the match ends before the trailing literals.
use orot.Base.{
  ℕ, zero, suc, ◌+◌, ◌-◌, ◌%◌, ◌^◌, ◌≤◌, ◌<◌, ◌≡◌, refl, ◌⊎◌, inl, inr, Bool, false, not, ◌&&◌,
  ◌||◌, List, arith, length, get_or, ltb, leb, ◌==◌, if◌then◌else◌, if-both, All, All-get_or,
  update,
}
use native.Mathlib.Decide.{dec_lt}
use orot.Simd.Match.{scalar_match_length-IsMatchLength, IsMatchLength}
use orot.Lz4.Block.{Config}
use orot.Lz4.Compress.{
  Tables, Best, try_match, follow_chain, search_match, insert, fill_tables, word_at, distance,
  match_length_at,
}

abbrev pub IsByte : ℕ → Type 0
IsByte b = b < 256

pub record IsMatch (src : List ℕ) (ip len offset : ℕ) : Type 0 where
  pub long : 4 ≤ len
  pub before_tail : ip + len + 5 ≤ length src
  pub positive : 1 ≤ offset
  pub in_window : offset < 65536
  pub behind : offset ≤ ip
  pub same : (i : ℕ) → i < len → get_or src (ip + i) 0 ≡ get_or src (ip - offset + i) 0

-- No match yet, or one.
pub record IsFound (src : List ℕ) (ip : ℕ) (best : Best) : Type 0 where
  pub found : (best.len ≡ 0) ⊎ IsMatch src ip best.len best.offset

record Kept (src : List ℕ) (ip : ℕ) (r : Best × Bool) : Type 0 where
  kept : IsFound src ip r.0

module _ (cfg : Config) (src : List ℕ) (bytes : All IsByte src) where
  byte_at-lt : (i : ℕ) → get_or src i 0 < 256
  byte_at-lt i = All-get_or IsByte src i 0 bytes (omega arith)

  word_at_bytes :
      (i j : ℕ)
      → word_at cfg src i ≡ word_at cfg src j
      → (get_or src i 0 ≡ get_or src j 0)
        × (get_or src (i + 1) 0 ≡ get_or src (j + 1) 0)
        × (get_or src (i + 2) 0 ≡ get_or src (j + 2) 0)
        × (get_or src (i + 3) 0 ≡ get_or src (j + 3) 0)
  word_at_bytes i j e = omega (
    arith,
    byte_at-lt i,
    byte_at-lt (i + 1),
    byte_at-lt (i + 2),
    byte_at-lt (i + 3),
    byte_at-lt j,
    byte_at-lt (j + 1),
    byte_at-lt (j + 2),
    byte_at-lt (j + 3),
  )

  word_at_agree :
      (i j : ℕ)
      → word_at cfg src i ≡ word_at cfg src j
      → (k : ℕ) → k < 4
      → get_or src (i + k) 0 ≡ get_or src (j + k) 0
  word_at_agree i j e zero h =
      let z : (m : ℕ) → m + 0 ≡ m = λ m. omega arith in rw (z i, z j) (word_at_bytes i j e).0
  word_at_agree i j e (suc zero) h = (word_at_bytes i j e).1
  word_at_agree i j e (suc (suc zero)) h = (word_at_bytes i j e).2
  word_at_agree i j e (suc (suc (suc zero))) h = (word_at_bytes i j e).3
  word_at_agree i j e (suc (suc (suc (suc k)))) h = absurd (omega arith)

  same_bytes :
      (ip cpos : ℕ)
      → word_at cfg src ip ≡ word_at cfg src cpos
      → (k : ℕ) → k < match_length_at cfg src ip cpos
      → get_or src (ip + k) 0 ≡ get_or src (cpos + k) 0
  same_bytes ip cpos e k h = elim (dec_lt k 4) [
    | yes p ↦ word_at_agree ip cpos e k p
    | no p ↦
        let found : IsMatchLength _ _ _ _ =
          scalar_match_length-IsMatchLength (λ i. get_or src (ip + 4 + i) 0)
            (λ i. get_or src (cpos + 4 + i) 0) (length src - 5 - ip - 4) (λ i. byte_at-lt _)
            (λ i. byte_at-lt _) in
        let e1 : ip + 4 + (k - 4) ≡ ip + k = omega arith in
        let e2 : cpos + 4 + (k - 4) ≡ cpos + k = omega arith in
        rw (e1, e2) at (found.agree (k - 4) (omega arith))
  ]

  -- What passes the tests of try_match is a match.
  tested-IsMatch :
      (ip cpos : ℕ)
      → ip + 12 < length src
      → length src < 2 ^ 31
      → cpos ≤ ip
      → (distance cfg src ip cpos == 0 || ltb 65535 (distance cfg src ip cpos)) ≡ false
      → not (word_at cfg src ip == word_at cfg src cpos) ≡ false
      → IsMatch src ip (match_length_at cfg src ip cpos) (distance cfg src ip cpos)
  tested-IsMatch ip cpos near small le far words =
      let d : distance cfg src ip cpos ≡ ip - cpos = omega arith in
      let back : ip - (ip - cpos) ≡ cpos = omega arith in
      let within =
        (scalar_match_length-IsMatchLength (λ i. get_or src (ip + 4 + i) 0)
          (λ i. get_or src (cpos + 4 + i) 0) (length src - 5 - ip - 4) (λ i. byte_at-lt _)
          (λ i. byte_at-lt _)).within in
      rw d (record {
        long = omega arith;
        before_tail = omega (arith, within);
        positive = ground (arith, d);
        in_window = ground (arith, d);
        behind = omega arith;
        same = λ i lt. rw back (same_bytes ip cpos (ground arith) i lt);
      })

  try_match-Kept :
      (ip cpos : ℕ) (best : Best)
      → ip + 12 < length src
      → length src < 2 ^ 31
      → cpos ≤ ip
      → IsFound src ip best
      → Kept src ip (try_match cfg src ip cpos best)
  unfolding try_match
  try_match-Kept ip cpos best near small le h =
      if-both (Kept src ip) (cpos == 0 && not (ip == 0)) _ _ (λ _. old)
        (λ _.
          if-both (Kept src ip)
            (distance cfg src ip cpos == 0 || ltb 65535 (distance cfg src ip cpos)) _ _ (λ _. old)
            (λ far.
              if-both (Kept src ip) (not (word_at cfg src ip == word_at cfg src cpos)) _ _
                (λ _. old)
                (λ words.
                  if-both (Kept src ip) (ltb best.len (match_length_at cfg src ip cpos)) _ _
                    (λ _. record {
                      kept = record {
                        found = inr (tested-IsMatch ip cpos near small le far words);
                      };
                    })
                    (λ _. old))))
    where
      old : Kept src ip (best, false)
      old = record { kept = h }

  try_match-IsFound :
      (ip cpos : ℕ) (best : Best)
      → ip + 12 < length src
      → length src < 2 ^ 31
      → cpos ≤ ip
      → IsFound src ip best
      → IsFound src ip (try_match cfg src ip cpos best).0
  try_match-IsFound ip cpos best near small le h =
      (try_match-Kept ip cpos best near small le h).kept

  follow_chain-IsFound :
      (left : ℕ) (prev : ℕ → ℕ) (ip cpos misses : ℕ) (best : Best)
      → ip + 12 < length src
      → length src < 2 ^ 31
      → ((k : ℕ) → prev k ≤ ip)
      → cpos ≤ ip
      → IsFound src ip best
      → IsFound src ip (follow_chain cfg src left prev ip cpos misses best)
  unfolding follow_chain
  follow_chain-IsFound zero prev ip cpos misses best near small links le h = h
  follow_chain-IsFound (suc left) prev ip cpos misses best near small links le h =
      let found = try_match-IsFound ip cpos best near small le h in
      let differs = not (word_at cfg src ip == word_at cfg src cpos) in
      if-both (IsFound src ip) (cpos == 0) _ _ (λ _. h)
        (λ _.
          if-both (IsFound src ip) (try_match cfg src ip cpos best).1 _ _ (λ _. found)
            (λ _.
              if-both (IsFound src ip)
                (differs && leb cfg.miss_limit (if differs then misses + 1 else misses)) _ _
                (λ _. found)
                (λ _.
                  if-both (IsFound src ip)
                    (ltb 65535 (distance cfg src ip cpos)
                      && ltb (distance cfg src ip cpos) (2 ^ 31))
                    _ _ (λ _. found)
                    (λ _.
                      follow_chain-IsFound left prev ip (prev (cpos % 65536)) _ _ near small links
                        (links (cpos % 65536)) found))))

  -- All entries of the tables that the search reads are positions up to `ip`.
  pub record IsBounded (ip : ℕ) (t : Tables) : Type 0 where
    pub heads : (h : ℕ) → t.head h ≤ ip
    pub links : cfg.fast_path ≡ false → (k : ℕ) → t.prev k ≤ ip

  none_yet : {ip : ℕ} → IsFound src ip (record { len = 0; offset = 0 })
  none_yet = record { found = inl refl }

  -- If the candidate and the table entries are positions up to ip, and ip lies more than 12 bytes
  -- before the end of a source of bytes shorter than 2 ^ 31, the search finds nothing or a match: at
  -- least 4 bytes equal to those at an offset from 1 to 65535 within the source, which leaves the
  -- last 5 bytes.
  pub search_match-IsFound :
      (t : Tables) (ip candidate : ℕ)
      → ip + 12 < length src
      → length src < 2 ^ 31
      → IsBounded ip t
      → candidate ≤ ip
      → IsFound src ip (search_match cfg src t ip candidate)
  unfolding search_match
  search_match-IsFound t ip candidate near small bounded le =
      if-both (IsFound src ip) cfg.fast_path _ _
        (λ _. try_match-IsFound ip candidate _ near small le none_yet)
        (λ chained.
          follow_chain-IsFound cfg.max_chain t.prev ip candidate 0 _ near small
            (bounded.links chained) le none_yet)

  update-le :
      (f : ℕ → ℕ) (k v bound : ℕ)
      → ((j : ℕ) → f j ≤ bound)
      → v ≤ bound
      → (j : ℕ) → update f k v j ≤ bound
  update-le f k v bound h le j = if-both (λ r. r ≤ bound) (j == k) _ _ (λ _. le) (λ _. h j)

  pub insert-IsBounded :
      (t : Tables) (i bound : ℕ)
      → i ≤ bound
      → IsBounded bound t
      → IsBounded bound (insert cfg src t i)
  unfolding insert
  insert-IsBounded t i bound le b = record {
    heads = update-le t.head _ i bound b.heads le;
    links = λ chained. rw chained (update-le t.prev _ _ bound (b.links chained) (b.heads _));
  }

  pub fill_tables-IsBounded :
      (left fill ip bound : ℕ) (t : Tables)
      → ip ≤ bound
      → IsBounded bound t
      → IsBounded bound (fill_tables cfg src left fill ip t)
  unfolding fill_tables
  fill_tables-IsBounded zero fill ip bound t le b = b
  fill_tables-IsBounded (suc left) fill ip bound t le b =
      if-both (IsBounded bound) _ _ _
        (λ test.
          fill_tables-IsBounded left (fill + 1) ip bound _ le
            (insert-IsBounded t fill bound (ground arith) b))
        (λ _. b)
