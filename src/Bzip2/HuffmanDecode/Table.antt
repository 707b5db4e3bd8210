-- ===== src/Bzip2/HuffmanDecode/Table.antt =====
-- The fast table that build_from_lengths of src/bzip2/bzip2_huffman.cpp fills: what stands where.
use orot.Base.{
  ℕ, zero, suc, ◌+◌, ◌-◌, ◌*◌, ◌/◌, ◌^◌, ◌≤◌, ◌<◌, ◌≡◌, refl, sym, ap, subst, ◌∙◌, Bool-cases, inl,
  inr, List, none, some, arith, length, get_or, replicate, length-replicate, ltb, ltb→lt,
}
use orot.Base.Bits.{double_shift, two_pow-add}
use native.Mathlib.Nat.{div-eq_of_lt-le, mul-le-mul_right}
use orot.Bzip2.Huffman.{FastEntry, bl_count, base_of, offset_of, and_fill, fill_codes, fill_lengths}
use orot.Bzip2.Huffman.Canonical.{IsAlphabet, base_of_step}
use orot.Bzip2.HuffmanDecode.Entries.{IsWrittenAt, fill_entries-IsWrittenAt}

one_more : (x y w : ℕ) → x < y → x * w + w ≤ y * w
one_more x y w h =
    let e : suc x * w ≡ x * w + w = grind arith in
    omega (arith, e, mul-le-mul_right {m = suc x} {n = y} w (omega (arith, h)))

module _ (lens perm : List ℕ) where
  -- The entry of ten bits whose front is a code of at most ten.
  abbrev pub IsEntry : ℕ → FastEntry → Type 0
  IsEntry p e =
      (s : ℕ) × (l : ℕ) × (e ≡ some (s, l))
      × (0 < l)
      × (l ≤ 10)
      × (base_of lens l ≤ p / 2 ^ (10 - l))
      × (p / 2 ^ (10 - l) < base_of lens l + bl_count lens l)
      × (s ≡ get_or perm (offset_of lens l + (p / 2 ^ (10 - l) - base_of lens l)) 0)

  -- Entries up to the bound, and none behind it.
  pub record IsFilled (table : List FastEntry) (bound : ℕ) : Type 0 where
    pub size : length table ≡ 1024
    pub empty : (p : ℕ) → bound ≤ p → get_or table p none ≡ none
    pub entries : (p : ℕ) → p < bound → IsEntry p (get_or table p none)

  -- One code more.
  IsFilled-step :
      (table table' : List FastEntry) (l j : ℕ)
      → 0 < l
      → l ≤ 10
      → j < bl_count lens l
      → IsFilled table ((base_of lens l + j) * 2 ^ (10 - l))
      → IsWrittenAt table table'
          ((base_of lens l + j) * 2 ^ (10 - l))
          (2 ^ (10 - l))
          (some (get_or perm (offset_of lens l + j) 0, l))
      → IsFilled table' ((base_of lens l + suc j) * 2 ^ (10 - l))
  IsFilled-step table table' l j pos short counted filled (same, inside, below, behind) =
      let w : ℕ = 2 ^ (10 - l) in
      let b : ℕ = base_of lens l in
      let next : (b + suc j) * w ≡ (b + j) * w + w = grind arith in
      let top : (b + j + 1) * w ≡ (b + j) * w + w = grind arith in
      record {
        size = same ∙ filled.size;
        empty = λ p h. behind p (omega (arith, h, next)) ∙ filled.empty p (omega (arith, h, next));
        entries = λ p h. elim (Bool-cases (ltb p ((b + j) * w))) [
          | inl q ↦
              rw (below p (ltb→lt p ((b + j) * w) q)) (filled.entries p (ltb→lt p ((b + j) * w) q))
          | inr q ↦
              let low : (b + j) * w ≤ p = ground (arith, q) in
              let code : p / w ≡ b + j =
                div-eq_of_lt-le {k = b + j} w low (omega (arith, h, next, top)) in
              let k : b + j - b ≡ j = omega arith in
              (
                get_or perm (offset_of lens l + j) 0,
                l,
                inside p low (omega (arith, h, next)),
                pos,
                short,
                omega (arith, code),
                omega (arith, code, counted),
                rw (code, k) refl,
              )
        ];
      }

  fill_codes-IsFilled :
      (num j l : ℕ) (table : List FastEntry)
      → 0 < l
      → l ≤ 10
      → j + num ≤ bl_count lens l
      → (base_of lens l + bl_count lens l) * 2 ^ (10 - l) ≤ 1024
      → IsFilled table ((base_of lens l + j) * 2 ^ (10 - l))
      → (table' : List FastEntry) × (fill_codes lens perm l num j table ≡ some table')
        × IsFilled table' ((base_of lens l + (j + num)) * 2 ^ (10 - l))
  unfolding fill_codes and_fill
  fill_codes-IsFilled zero j l table pos short counted room filled =
      let e : j + 0 ≡ j = omega arith in (table, refl, rw e filled)
  fill_codes-IsFilled (suc num) j l table pos short counted room filled =
      let w : ℕ = 2 ^ (10 - l) in
      let b : ℕ = base_of lens l in
      let top : (b + j) * w + w ≤ (b + bl_count lens l) * w =
        one_more (b + j) (b + bl_count lens l) w (omega (arith, counted)) in
      let e : FastEntry = some (get_or perm (offset_of lens l + j) 0, l) in
      let (table', wrote, at) =
        fill_entries-IsWrittenAt w ((b + j) * w) e table (omega (arith, filled.size, top, room)) in
      let (table'', done, filled') =
        fill_codes-IsFilled num (suc j) l table' pos short (omega (arith, counted)) room
          (IsFilled-step table table' l j pos short (omega (arith, counted)) filled at) in
      let sum : suc j + num ≡ j + suc num = omega arith in
      (table'', rw (wrote) done, rw (sym sum) filled')

get_or-replicate : (n p : ℕ) → ◌≡◌ {A = FastEntry} (get_or (replicate n none) p none) none
get_or-replicate zero p = refl
get_or-replicate (suc n) zero = refl
get_or-replicate (suc n) (suc p) = get_or-replicate n p

module _ (lens : List ℕ) (alphabet : IsAlphabet lens) (perm : List ℕ) where
  -- Where the codes of a length end, those of the next begin.
  pub bound_step :
      (l : ℕ)
      → l < 10
      → (base_of lens (suc l) + 0) * 2 ^ (10 - suc l)
        ≡ (base_of lens l + bl_count lens l) * 2 ^ (10 - l)
  bound_step l lt =
      let step = base_of_step lens alphabet l (omega (arith, lt)) in
      let x : ℕ = base_of lens l + bl_count lens l in
      let e : 10 - l ≡ suc (10 - suc l) = omega (arith, lt) in
      let p : x * 2 ^ suc (10 - suc l) ≡ 2 * (x * 2 ^ (10 - suc l)) = double_shift x (10 - suc l) in
      let q : x * 2 * 2 ^ (10 - suc l) ≡ 2 * (x * 2 ^ (10 - suc l)) = grind arith in
      let z : x * 2 + 0 ≡ x * 2 = omega arith in rw (e, step, z) (q ∙ sym p)

  -- If the codes of each length fit into it, every write is in the table, and the codes of up to ten
  -- bits fill it from the front.
  pub fill_lengths-IsFilled :
      (m : ℕ)
      → m ≤ 10
      → ((l : ℕ) → l ≤ m → base_of lens l + bl_count lens l ≤ 2 ^ l)
      → (table : List FastEntry) × (fill_lengths lens perm m ≡ some table)
        × IsFilled lens perm table ((base_of lens m + bl_count lens m) * 2 ^ (10 - m))
  unfolding fill_lengths base_of bl_count and_fill
  fill_lengths-IsFilled zero le fits = (
    replicate 1024 none,
    refl,
    record {
      size = length-replicate {A = FastEntry} 1024 none;
      empty = λ p h. get_or-replicate 1024 p;
      entries = λ p h. absurd (omega (arith, h));
    },
  )
  fill_lengths-IsFilled (suc m) le fits =
      let (table, so_far, filled) =
        fill_lengths-IsFilled m (omega (arith, le)) (λ l h. fits l (omega (arith, h))) in
      let l : ℕ = suc m in
      let ten : l + (10 - l) ≡ 10 = omega (arith, le) in
      let whole : 2 ^ l * 2 ^ (10 - l) ≡ 1024 =
        sym (two_pow-add l (10 - l)) ∙ ap (λ t. 2 ^ t) ten in
      let room : (base_of lens l + bl_count lens l) * 2 ^ (10 - l) ≤ 1024 =
        omega (arith, whole, mul-le-mul_right (2 ^ (10 - l)) (fits l (omega arith))) in
      let (table', wrote, filled') =
        fill_codes-IsFilled lens perm (bl_count lens l) 0 l table (omega arith) le (omega arith)
          room (subst (IsFilled lens perm table) (sym (bound_step m (omega (arith, le)))) filled) in
      let e : 0 + bl_count lens l ≡ bl_count lens l = omega arith in
      (table', rw so_far wrote, rw e at filled')
