-- ===== src/Bzip2/HuffmanDecode/Entries.antt =====
-- The innermost loop of build_from_lengths in src/bzip2/bzip2_huffman.cpp: the writes of one code.
use orot.Base.{
  ℕ, zero, suc, ◌+◌, ◌≤◌, ◌<◌, ◌≡◌, refl, ap, ◌∙◌, ◌⊎◌, true, false, Bool-cases, inl, inr, List, [],
  ◌∷◌, none, some, arith, length, get_or, set, ◌==◌, ==_iff, ne-==, if◌then◌else◌, lt→ltb,
}
use orot.Bzip2.Huffman.{FastEntry, fill_entries}

length-set :
    (table : List FastEntry) (i : ℕ) (e : FastEntry) → length (set table i e) ≡ length table
length-set [] i e = refl
length-set (x ∷ table) zero e = refl
length-set (x ∷ table) (suc i) e = ap suc (length-set table i e)

get_or-set :
    (table : List FastEntry) (i p : ℕ) (e : FastEntry)
    → i < length table
    → get_or (set table i e) p none ≡ (if p == i then e else get_or table p none)
get_or-set [] i p e h = absurd (omega arith)
get_or-set (x ∷ table) zero zero e h = refl
get_or-set (x ∷ table) zero (suc p) e h = rw (ne-== (suc p) 0 (omega arith)) refl
get_or-set (x ∷ table) (suc i) zero e h = rw (ne-== 0 (suc i) (omega arith)) refl
get_or-set (x ∷ table) (suc i) (suc p) e h =
    get_or-set table i p e (omega (arith, h)) ∙ same_test (Bool-cases (p == i))
  where
    same_test :
        ((p == i) ≡ true) ⊎ ((p == i) ≡ false)
        → (if p == i then e else get_or table p none)
          ≡ (if suc p == suc i then e else get_or table p none)
    same_test (inl q) = let s : (suc p == suc i) ≡ true = ground (arith, q) in rw (q, s) refl
    same_test (inr q) = let s : (suc p == suc i) ≡ false = ground (arith, q) in rw (q, s) refl

-- What the writes of one entry leave: inside it, outside what was there.
abbrev pub IsWrittenAt : List FastEntry → List FastEntry → ℕ → ℕ → FastEntry → Type 0
IsWrittenAt table table' idx n e =
    (length table' ≡ length table)
    × ((p : ℕ) → idx ≤ p → p < idx + n → get_or table' p none ≡ e)
    × ((p : ℕ) → p < idx → get_or table' p none ≡ get_or table p none)
    × ((p : ℕ) → idx + n ≤ p → get_or table' p none ≡ get_or table p none)

pub fill_entries-IsWrittenAt :
    (n idx : ℕ) (e : FastEntry) (table : List FastEntry)
    → idx + n ≤ length table
    → (table' : List FastEntry) × (fill_entries n idx e table ≡ some table')
      × IsWrittenAt table table' idx n e
unfolding fill_entries
fill_entries-IsWrittenAt zero idx e table room =
    (table, refl, (refl, (λ p a b. absurd (omega arith)), (λ p a. refl), (λ p a. refl)))
fill_entries-IsWrittenAt (suc n) idx e table room =
    let size = length-set table idx e in
    let one = λ (p : ℕ). get_or-set table idx p e (omega (arith, room)) in
    let (table', filled, (same, inside, below, behind)) =
      fill_entries-IsWrittenAt n (suc idx) e (set table idx e) (omega (arith, size, room)) in
    (
      table',
      rw (lt→ltb idx (length table) (omega (arith, room))) filled,
      (
        same ∙ size,
        (λ p a b. elim (Bool-cases (p == idx)) [
          | inl q ↦ below p (omega (arith, (==_iff p idx).0 q)) ∙ one p ∙ rw q refl
          | inr q ↦ inside p (ground (arith, q, a)) (omega (arith, b))
        ]),
        (λ p a. below p (omega (arith, a)) ∙ one p ∙ rw (ne-== p idx (omega (arith, a))) refl),
        (λ p a. behind p (omega (arith, a)) ∙ one p ∙ rw (ne-== p idx (omega (arith, a))) refl),
      ),
    )
