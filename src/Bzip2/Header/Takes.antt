-- ===== src/Bzip2/Header/Takes.antt =====
-- What a part of decode_block in src/bzip2/bzip2_decompress.cpp takes from the front of the stream.
use orot.Base.{ℕ, ◌^◌, ◌≤◌, ◌<◌, ◌≡◌, refl, sym, ◌∙◌, List, [], ◌++◌, some, append_assoc}
use orot.Base.Digits.{bits}
use orot.Bzip2.BitStream.{Reader}
use orot.Bzip2.BitStream.RoundTrip.{remaining, IsBytes, read_bits_lem}
use orot.Bzip2.Header.{Parser, give, and_then, bind, field}

-- In front of anything, the parser takes just the bits `s`, and gives `a`.
abbrev pub Takes : {A : Type 0} → Parser A → List ℕ → A → Type 0
Takes p s a =
    (r : Reader) (rest : List ℕ)
    → IsBytes r.src
    → remaining r ≡ s ++ rest
    → (r' : Reader) × (p r ≡ some (a, r')) × (remaining r' ≡ rest) × IsBytes r'.src

pub Takes-field : (n v : ℕ) → n ≤ 31 → v < 2 ^ n → Takes (field n) (bits n v) v
Takes-field n v le lt r rest h e = read_bits_lem r n v rest h le lt e

module _ {A : Type 0} where
  pub Takes-give : (a : A) → Takes (give a) [] a
  Takes-give a r rest h e = (r, refl, e, h)

  pub Takes-bind :
      {B : Type 0} (p : Parser A) (q : A → Parser B) (s t : List ℕ) (a : A) (b : B)
      → Takes p s a
      → Takes (q a) t b
      → Takes (bind p q) (s ++ t) b
  unfolding and_then
  Takes-bind p q s t a b takes takes' r rest h e =
      let (r', got, left, h') = takes r (t ++ rest) h (e ∙ append_assoc s t rest) in
      let (r'', got', left', h'') = takes' r' rest h' left in (r'', rw got got', left', h'')

  -- The same bits and the same value, written in another way.
  pub Takes-as :
      (p : Parser A) (s s' : List ℕ) (a a' : A) → s ≡ s' → a ≡ a' → Takes p s a → Takes p s' a'
  Takes-as p s s' a a' e e' takes = rw (sym e, sym e') takes

  -- A value made of what was read.
  pub Takes-map :
      {B : Type 0} (p : Parser A) (f : A → B) (s : List ℕ) (a : A)
      → Takes p s a
      → Takes (bind p (λ x. give (f x))) s (f a)
  unfolding and_then
  Takes-map p f s a takes r rest h e =
      let (r', got, left, h') = takes r rest h e in (r', rw got refl, left, h')
