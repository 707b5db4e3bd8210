-- ===== src/Bzip2/Crc/Updates.antt =====
-- Every way to update the checksum of src/bzip2/bzip2_crc.hpp is byte by byte.
use orot.Base.{
  ℕ, zero, suc, ◌+◌, ◌-◌, ◌^◌, ◌<◌, ◌≡◌, refl, sym, ap, ◌∙◌, List, [], ◌∷◌, ◌++◌, arith, All,
  replicate, leb, if-both, leb→le, Bool-cases, inl, inr,
}
use orot.Bzip2.Crc.{
  crc32_update, update_each, crc32_update_bytes, repeat_chunks, crc32_update_repeat,
}
use orot.Bzip2.Crc.Slices.{update_slice_lem, update_each-append, crc32_update-lt}

pub update_each-lt :
    (xs : List ℕ) (c : ℕ) → All (λ x. x < 256) xs → c < 2 ^ 32 → update_each c xs < 2 ^ 32
unfolding update_each
update_each-lt [] c h lt = lt
update_each-lt (x ∷ xs) c h lt =
    update_each-lt xs (crc32_update c x) h.1 (crc32_update-lt c x lt h.0)

-- crc32_update_bytes, with its slices of eight bytes, is one update for each byte, from any word.
pub crc32_update_bytes-update_each :
    (xs : List ℕ) (c : ℕ)
    → All (λ x. x < 256) xs
    → c < 2 ^ 32
    → crc32_update_bytes c xs ≡ update_each c xs
unfolding crc32_update_bytes
crc32_update_bytes-update_each [] c h lt = refl
crc32_update_bytes-update_each (a ∷ []) c h lt = refl
crc32_update_bytes-update_each (a ∷ b ∷ []) c h lt = refl
crc32_update_bytes-update_each (a ∷ b ∷ d ∷ []) c h lt = refl
crc32_update_bytes-update_each (a ∷ b ∷ d ∷ e ∷ []) c h lt = refl
crc32_update_bytes-update_each (a ∷ b ∷ d ∷ e ∷ f ∷ []) c h lt = refl
crc32_update_bytes-update_each (a ∷ b ∷ d ∷ e ∷ f ∷ g ∷ []) c h lt = refl
crc32_update_bytes-update_each (a ∷ b ∷ d ∷ e ∷ f ∷ g ∷ i ∷ []) c h lt = refl
crc32_update_bytes-update_each (a ∷ b ∷ d ∷ e ∷ f ∷ g ∷ i ∷ j ∷ xs) c h lt =
    let slice = a ∷ b ∷ d ∷ e ∷ f ∷ g ∷ i ∷ j ∷ [] in
    let bytes : All (λ x. x < 256) slice = (
      h.0,
      (
        h.1.0,
        (
          h.1.1.0,
          (h.1.1.1.0, (h.1.1.1.1.0, (h.1.1.1.1.1.0, (h.1.1.1.1.1.1.0, (h.1.1.1.1.1.1.1.0, tt))))),
        ),
      ),
    ) in
    let one = update_slice_lem c a b d e f g i j lt bytes in
    ap (λ t. crc32_update_bytes t xs) one
    ∙ crc32_update_bytes-update_each xs (update_each c slice) h.1.1.1.1.1.1.1.1
        (update_each-lt slice c bytes lt)
    ∙ sym (update_each-append c slice xs)

pub replicate-All : (n x : ℕ) → x < 256 → All (λ x. x < 256) (replicate n x)
replicate-All zero x lt = tt
replicate-All (suc n) x lt = (lt, replicate-All n x lt)

replicate_plus : (m n x : ℕ) → replicate (m + n) x ≡ replicate m x ++ replicate n x
replicate_plus zero n x = let e : 0 + n ≡ n = omega arith in ap (λ k. replicate k x) e
replicate_plus (suc m) n x =
    let e : suc m + n ≡ suc (m + n) = omega arith in
    ap (λ k. replicate k x) e ∙ ap (◌∷◌ x) (replicate_plus m n x)

repeat_chunks-update_each :
    (fuel c x len : ℕ)
    → len < fuel
    → c < 2 ^ 32
    → x < 256
    → repeat_chunks fuel c x len ≡ update_each c (replicate len x)
unfolding repeat_chunks update_each
repeat_chunks-update_each zero c x len lt lc lx = absurd (omega arith)
repeat_chunks-update_each (suc fuel) c x len lt lc lx = elim (Bool-cases (leb 64 len)) [
  | inl big ↦
      let le = leb→le 64 len big in
      let chunk : List ℕ = replicate 64 x in
      let bytes = replicate-All 64 x lx in
      let first = crc32_update_bytes-update_each chunk c bytes lc in
      let e : 64 + (len - 64) ≡ len = omega arith in
      rw big (
        ap (λ t. repeat_chunks fuel t x (len - 64)) first
        ∙ repeat_chunks-update_each fuel (update_each c chunk) x (len - 64) (omega arith)
            (update_each-lt chunk c bytes lc) lx
        ∙ sym (update_each-append c chunk (replicate (len - 64) x))
        ∙ ap (update_each c) (sym (replicate_plus 64 (len - 64) x) ∙ ap (λ k. replicate k x) e))
  | inr small ↦ rw small (
      if-both (λ t. t ≡ update_each c (replicate len x)) (leb 1 len) _ c
        (λ some. crc32_update_bytes-update_each (replicate len x) c (replicate-All len x lx) lc)
        (λ none. let e : 0 ≡ len = ground arith in ap (λ k. update_each c (replicate k x)) e))
]

-- crc32_update_repeat, with its chunks of 64 copies, is one update for each copy of the byte, from
-- any word.
pub crc32_update_repeat-update_each :
    (c x len : ℕ)
    → c < 2 ^ 32
    → x < 256
    → crc32_update_repeat c x len ≡ update_each c (replicate len x)
unfolding crc32_update_repeat
crc32_update_repeat-update_each c x len lc lx =
    repeat_chunks-update_each (suc len) c x len (omega arith) lc lx
