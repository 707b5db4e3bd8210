-- ===== src/Bzip2/Header/Selectors.antt =====
-- The selectors and the code lengths in the header of a block of src/bzip2.
use orot.Base.{
  ℕ, zero, suc, ◌+◌, ◌<◌, ◌≡◌, refl, sym, ap, ◌∙◌, List, [], ◌∷◌, ◌++◌, arith, length, get_or, set,
  replicate, append_assoc, lt-leb, All,
}
use orot.Base.Digits.{bits}
use orot.Bzip2.Mtf.{
  IsIn, find_rank, move_to_front, find_rank_found, move_to_front_keeps, length-move_to_front,
}
use orot.Bzip2.Rle2.{shift_up}
use orot.Bzip2.Rle2.Moves.{shift_up-move_to_front}
use orot.Bzip2.BitStream.Fields.{field_bits, field_bits-append}
use orot.Bzip2.Header.{
  give, field, selector_mtf_encode, selector_fields, read_unary, read_selectors,
}
use orot.Bzip2.Header.Takes.{Takes, Takes-field, Takes-give, Takes-bind, Takes-as, Takes-map}

all_kept :
    (order order' sel : List ℕ)
    → ((d : ℕ) → IsIn d order → IsIn d order')
    → All (λ t. IsIn t order) sel
    → All (λ t. IsIn t order') sel
all_kept order order' [] f h = tt
all_kept order order' (t ∷ sel) f h = (f t h.0, all_kept order order' sel f h.1)

-- m ones and a zero.
Takes-read_unary :
    (m fuel n_tables pos : ℕ)
    → m < fuel
    → pos + m < n_tables
    → Takes (read_unary fuel n_tables pos) (field_bits (replicate m (1, 1)) ++ bits 1 0) (pos + m)
unfolding read_unary
Takes-read_unary m zero n_tables pos lt room = absurd (omega arith)
Takes-read_unary zero (suc fuel) n_tables pos lt room =
    Takes-as _ (bits 1 0 ++ []) (bits 1 0) pos (pos + 0) refl (omega arith) (
      Takes-bind (field 1) _ (bits 1 0) [] 0 pos (Takes-field 1 0 (omega arith) (omega arith))
        (Takes-give pos))
Takes-read_unary (suc m) (suc fuel) n_tables pos lt room =
    let rest = Takes-read_unary m fuel n_tables (pos + 1) (omega arith) (omega arith) in
    let e : pos + 1 + m ≡ pos + suc m = omega arith in
    Takes-as (read_unary (suc fuel) n_tables pos)
      (bits 1 1 ++ (field_bits (replicate m (1, 1)) ++ bits 1 0)) _ (pos + 1 + m) (pos + suc m) refl
      e
      (Takes-bind (field 1) _ (bits 1 1) (field_bits (replicate m (1, 1)) ++ bits 1 0) 1
        (pos + 1 + m) (Takes-field 1 1 (omega arith) (omega arith))
        (rw (lt-leb n_tables (pos + 1) (omega arith)) rest))

selector_stream :
    (m : ℕ) (mtf_sel : List ℕ)
    → field_bits (selector_fields (m ∷ mtf_sel))
      ≡ (field_bits (replicate m (1, 1)) ++ bits 1 0) ++ field_bits (selector_fields mtf_sel)
unfolding selector_fields
selector_stream m mtf_sel =
    field_bits-append (replicate m (1, 1)) ((1, 0) ∷ selector_fields mtf_sel)
    ∙ sym (
        append_assoc (field_bits (replicate m (1, 1))) (bits 1 0)
          (field_bits (selector_fields mtf_sel)))

pub Takes-read_selectors :
    (sel order : List ℕ) (n_tables : ℕ)
    → All (λ t. IsIn t order) sel
    → length order ≡ n_tables
    → Takes
        (read_selectors (length sel) n_tables order)
        (field_bits (selector_fields (selector_mtf_encode sel order)))
        sel
unfolding read_selectors selector_mtf_encode selector_fields
Takes-read_selectors [] order n_tables h e =
    Takes-as (give []) [] _ [] [] (no_selectors) refl (Takes-give [])
  where
    no_selectors : [] ≡ field_bits (selector_fields [])
    no_selectors = refl
Takes-read_selectors (tbl ∷ sel) order n_tables h e =
    let (k, found, lt, at) = find_rank_found order tbl 0 h.0 in
    let is_k : find_rank order tbl 0 ≡ k = found ∙ omega arith in
    let order' = move_to_front order k tbl in
    let moved : set (shift_up k order) 0 tbl ≡ order' = shift_up-move_to_front k tbl order lt in
    let rest : Takes
        (read_selectors (length sel) n_tables (set (shift_up k order) 0 (get_or order k 0)))
        (field_bits (selector_fields (selector_mtf_encode sel order'))) sel =
      rw (at, moved)
        (Takes-read_selectors sel order' n_tables
          (all_kept order order' sel (λ d m. move_to_front_keeps order tbl d k at m) h.1)
          (length-move_to_front order tbl k lt ∙ e)) in
    let z : 0 + k ≡ k = omega arith in
    let last = Takes-map _ (λ (t : List ℕ). get_or order k 0 ∷ t) _ sel rest in
    Takes-as (read_selectors (length (tbl ∷ sel)) n_tables order)
      ((field_bits (replicate k (1, 1)) ++ bits 1 0)
        ++ field_bits (selector_fields (selector_mtf_encode sel order')))
      _ (get_or order k 0 ∷ sel) (tbl ∷ sel)
      (rw is_k (sym (selector_stream k (selector_mtf_encode sel order')))) (ap (λ t. t ∷ sel) at)
      (Takes-bind (read_unary n_tables n_tables 0) _ _ _ (0 + k) (get_or order k 0 ∷ sel)
        (Takes-read_unary k n_tables n_tables 0 (omega arith) (omega arith)) (rw z last))
