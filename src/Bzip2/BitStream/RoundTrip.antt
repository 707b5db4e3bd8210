-- ===== src/Bzip2/BitStream/RoundTrip.antt =====
-- What is shown of the bit streams of src/bzip2: both are the stream of their digits.
use orot.Base.{
  ℕ, zero, suc, ◌+◌, ◌-◌, ◌*◌, ◌/◌, ◌%◌, ◌^◌, ◌≤◌, ◌<◌, ◌≡◌, refl, sym, ap, ◌∙◌, List, [], ◌∷◌,
  ◌++◌, arith, length, All, Bool-cases, inl, inr, some, ltb, leb, lt→ltb, ge-ltb, ltb→lt, leb→le,
  if-both, length-append, append_assoc, append-nil, replicate, All-append, bit_or,
}
use orot.Base.Bits.{two_pow-pos}
use orot.Base.Digits.{
  bits, byte_bits, length-bits, byte_bits-append, bits_split, bits_above, bits-mod, bits-append_inj,
  bits_shift_or, bits-zero,
}
use native.Mathlib.Nat.{mod-lt, mul-div_left, pow-le-pow_right}
use orot.Bzip2.BitStream.{
  Writer, new_writer, store_byte, drain, push_bits, write_bits, flush, Reader, fill_bits, take_bits,
  read_bits,
}

-- A field is a uint32_t.
word_value : (value nbits : ℕ) → nbits ≤ 31 → value < 2 ^ nbits → value % 2 ^ 32 ≡ value
word_value value nbits le lt =
    let pos : 0 < 2 = omega arith in
    let most : 2 ^ nbits ≤ 2 ^ 31 = pow-le-pow_right pos le in omega (arith, most)

module _ (cap : ℕ) where
  -- The writer has been given the bits `s`: those stored and those in the buffer, if they fit.
  pub record IsWritten (s : List ℕ) (w : Writer) : Type 0 where
    pub count : w.pos * 8 + w.buf_bits ≡ length s
    pub stored : w.pos ≤ cap → byte_bits w.dst ++ bits w.buf_bits w.buf ≡ s
    pub total : w.total_bits ≡ length s
    pub are_bytes : All (λ b. b < 256) w.dst

  stored-All :
      (w : Writer) (byte : ℕ)
      → All (λ b. b < 256) w.dst
      → byte < 256
      → All (λ b. b < 256) (store_byte cap w byte).dst
  unfolding store_byte
  stored-All w byte h lt =
      if-both (λ t. All (λ b. b < 256) t) (ltb w.pos cap) (w.dst ++ (byte ∷ [])) w.dst
        (λ e. All-append (λ b. b < 256) w.dst (byte ∷ []) h (lt, tt)) (λ e. h)

  store-IsWritten :
      (s : List ℕ) (w : Writer)
      → IsWritten s w
      → 8 ≤ w.buf_bits
      → IsWritten s (
          store_byte cap
            (record w { buf_bits = w.buf_bits - 8 })
            (w.buf / 2 ^ (w.buf_bits - 8) % 256))
  unfolding store_byte
  store-IsWritten s w h le =
      let k : ℕ = w.buf_bits - 8 in
      let x : ℕ = w.buf / 2 ^ k in
      let e : 8 + k ≡ w.buf_bits = omega arith in
      record {
        count = omega (arith, h.count);
        stored = λ fits. rw (lt→ltb w.pos cap (omega arith)) (
            ap (λ t. t ++ bits k w.buf)
              (byte_bits-append w.dst (x % 256 ∷ [])
                ∙ ap (λ t. byte_bits w.dst ++ t)
                    (append-nil (bits 8 (x % 256)) ∙ bits-mod 8 8 x (omega arith)))
            ∙ append_assoc (byte_bits w.dst) (bits 8 x) (bits k w.buf)
            ∙ ap (λ t. byte_bits w.dst ++ t) (sym (bits_split 8 k w.buf) ∙ ap (λ t. bits t w.buf) e)
            ∙ h.stored (omega arith));
        total = h.total;
        are_bytes =
            stored-All (record w { buf_bits = k }) (x % 256) h.are_bytes (mod-lt x (omega arith));
      }

  drain-IsWritten :
      (fuel : ℕ) (s : List ℕ) (w : Writer)
      → IsWritten s w
      → w.buf_bits ≤ fuel
      → IsWritten s (drain cap fuel w) × ((drain cap fuel w).buf_bits < 8)
  unfolding drain store_byte
  drain-IsWritten zero s w h le = (h, omega arith)
  drain-IsWritten (suc fuel) s w h le =
      if-both (λ t. IsWritten s t × (t.buf_bits < 8)) (leb 8 w.buf_bits) _ w
        (λ e.
          drain-IsWritten fuel s _ (store-IsWritten s w h (leb→le 8 w.buf_bits e))
            (less (leb→le 8 w.buf_bits e)))
        (λ e. (h, ground arith))
    where
      less : 8 ≤ w.buf_bits → w.buf_bits - 8 ≤ fuel
      less big = omega arith

  -- A field goes behind what was written.
  pub write_bits-IsWritten :
      (s : List ℕ) (w : Writer) (value nbits : ℕ)
      → IsWritten s w
      → w.buf_bits < 8
      → nbits ≤ 31
      → value < 2 ^ nbits
      → IsWritten (s ++ bits nbits value) (write_bits cap w value nbits)
        × ((write_bits cap w value nbits).buf_bits < 8)
  unfolding write_bits push_bits
  write_bits-IsWritten s w value nbits h small le lt =
      let word : value % 2 ^ 32 ≡ value = word_value value nbits le lt in
      drain-IsWritten (w.buf_bits + nbits) (s ++ bits nbits value) (push_bits w value nbits)
        (record {
          count =
              omega (arith, h.count, length-append s (bits nbits value), length-bits nbits value);
          stored = λ fits.
              ap (λ t. byte_bits w.dst ++ t)
                (ap (λ t. bits (w.buf_bits + nbits) (bit_or (w.buf * 2 ^ nbits % 2 ^ 64) t)) word
                  ∙ bits_shift_or w.buf_bits nbits w.buf value (omega arith) lt)
              ∙ sym (append_assoc (byte_bits w.dst) (bits w.buf_bits w.buf) (bits nbits value))
              ∙ ap (λ t. t ++ bits nbits value) (h.stored fits);
          total =
              omega (arith, h.total, length-append s (bits nbits value), length-bits nbits value);
          are_bytes = h.are_bytes;
        })
        (omega arith)

  pub new_writer-IsWritten : IsWritten [] new_writer
  new_writer-IsWritten = record {
    count = refl;
    stored = λ fits. refl;
    total = refl;
    are_bytes = tt;
  }

  -- The flush ends the last byte with zeros.
  pub record IsFlushed (s : List ℕ) (w : Writer) : Type 0 where
    pub pad : ℕ
    pub short : pad < 8
    pub whole : length s + pad ≡ w.pos * 8
    pub bytes : w.pos ≤ cap → byte_bits w.dst ≡ s ++ replicate pad 0
    pub total : w.total_bits ≡ w.pos * 8
    pub are_bytes : All (λ b. b < 256) w.dst

  pub flush-IsFlushed :
      (s : List ℕ) (w : Writer) → IsWritten s w → w.buf_bits < 8 → IsFlushed s (flush cap w)
  unfolding flush store_byte
  flush-IsFlushed s w h small =
      if-both (λ t. IsFlushed s t) (ltb 0 w.buf_bits) _ w
        (λ e.
          let pos = ltb→lt 0 w.buf_bits e in
          let p : ℕ = 8 - w.buf_bits in
          let x : ℕ = w.buf * 2 ^ p in
          record {
            pad = p;
            short = omega arith;
            whole = omega (arith, h.count);
            bytes = λ fits. rw (lt→ltb w.pos cap (omega arith)) (
                byte_bits-append w.dst (x % 256 ∷ [])
                ∙ ap (λ t. byte_bits w.dst ++ t)
                    (append-nil (bits 8 (x % 256))
                      ∙ bits-mod 8 8 x (omega arith)
                      ∙ padded w.buf_bits w.buf (omega arith))
                ∙ sym (append_assoc (byte_bits w.dst) (bits w.buf_bits w.buf) (replicate p 0))
                ∙ ap (λ t. t ++ replicate p 0) (h.stored (omega arith)));
            total = omega (arith, h.total, h.count);
            are_bytes = stored-All w (x % 256) h.are_bytes (mod-lt x (omega arith));
          })
        (λ e.
          let none : w.buf_bits ≡ 0 = ground arith in
          record {
            pad = 0;
            short = omega arith;
            whole = omega (arith, h.count);
            bytes = λ fits.
                sym (append-nil (byte_bits w.dst))
                ∙ ap (λ n. byte_bits w.dst ++ bits n w.buf) (sym none)
                ∙ h.stored fits
                ∙ sym (append-nil s);
            total = omega (arith, h.total, h.count);
            are_bytes = h.are_bytes;
          })
    where
      padded : (k x : ℕ) → k ≤ 8 → bits 8 (x * 2 ^ (8 - k)) ≡ bits k x ++ replicate (8 - k) 0
      padded k x le =
          let p : ℕ = 8 - k in
          let e : 8 ≡ k + p = omega arith in
          let e' : x * 2 ^ p ≡ x * 2 ^ p + 0 = omega arith in
          ap (λ n. bits n (x * 2 ^ p)) e
          ∙ bits_split k p (x * 2 ^ p)
          ∙ ap (λ t. bits k t ++ bits p (x * 2 ^ p)) (mul-div_left x (two_pow-pos p))
          ∙ ap (λ t. bits k x ++ t)
              (ap (bits p) e' ∙ bits_above p p x 0 (omega arith) ∙ bits-zero p)

-- What the reader has still to give.
abbrev pub remaining : Reader → List ℕ
remaining r = bits r.buf_bits r.buf ++ byte_bits r.src

abbrev pub IsBytes : List ℕ → Type 0
IsBytes src = All (λ b. b < 256) src

fill_bits_lem :
    (n : ℕ) (src : List ℕ) (buf buf_bits : ℕ)
    → IsBytes src
    → n ≤ 56
    → n ≤ length (bits buf_bits buf ++ byte_bits src)
    → (r : Reader) × (fill_bits n src buf buf_bits ≡ some r)
      × (remaining r ≡ bits buf_bits buf ++ byte_bits src)
      × (n ≤ r.buf_bits)
      × IsBytes r.src
unfolding fill_bits
fill_bits_lem n [] buf buf_bits h le enough =
    let big : n ≤ buf_bits =
      omega (arith, length-append (bits buf_bits buf) [], length-bits buf_bits buf) in
    (
      record { src = []; buf = buf; buf_bits = buf_bits },
      rw (ge-ltb buf_bits n big) refl,
      refl,
      big,
      tt,
    )
fill_bits_lem n (byte ∷ src) buf buf_bits h le enough = elim (Bool-cases (ltb buf_bits n)) [
  | inl e ↦
      let lt = ltb→lt buf_bits n e in
      let shift = bits_shift_or buf_bits 8 buf byte (omega arith) h.0 in
      let same : bits (buf_bits + 8) (bit_or (buf * 2 ^ 8 % 2 ^ 64) byte) ++ byte_bits src
          ≡ bits buf_bits buf ++ byte_bits (byte ∷ src) =
        ap (λ t. t ++ byte_bits src) shift
        ∙ append_assoc (bits buf_bits buf) (bits 8 byte) (byte_bits src) in
      let (r, e', rest, big, bytes) =
        fill_bits_lem n src (bit_or (buf * 2 ^ 8 % 2 ^ 64) byte) (buf_bits + 8) h.1 le
          (omega (arith, ap length same)) in
      (r, rw e e', rest ∙ same, big, bytes)
  | inr e ↦ (
    record { src = byte ∷ src; buf = buf; buf_bits = buf_bits },
    rw e refl,
    refl,
    ground arith,
    h,
  )
]

-- A field at the front of the stream is read, and what stands behind it is left.
pub read_bits_lem :
    (r : Reader) (n v : ℕ) (rest : List ℕ)
    → IsBytes r.src
    → n ≤ 31
    → v < 2 ^ n
    → remaining r ≡ bits n v ++ rest
    → (r' : Reader) × (read_bits r n ≡ some (v, r')) × (remaining r' ≡ rest) × IsBytes r'.src
unfolding read_bits take_bits
read_bits_lem r n v rest h le lt e =
    let (f, filled, same, big, bytes) =
      fill_bits_lem n r.src r.buf r.buf_bits h (omega arith)
        (omega (arith, ap length e, length-append (bits n v) rest, length-bits n v)) in
    let k : ℕ = f.buf_bits - n in
    let x : ℕ = f.buf / 2 ^ k in
    let sum : f.buf_bits ≡ n + k = omega arith in
    let split : bits f.buf_bits f.buf ≡ bits n (x % 2 ^ n) ++ bits k f.buf =
      ap (λ t. bits t f.buf) sum
      ∙ bits_split n k f.buf
      ∙ ap (λ t. t ++ bits k f.buf) (sym (bits-mod n n x (omega arith))) in
    let stream : bits n (x % 2 ^ n) ++ (bits k f.buf ++ byte_bits f.src) ≡ bits n v ++ rest =
      sym (append_assoc (bits n (x % 2 ^ n)) (bits k f.buf) (byte_bits f.src))
      ∙ ap (λ t. t ++ byte_bits f.src) (sym split)
      ∙ same
      ∙ e in
    let (value, tail) =
      bits-append_inj n (x % 2 ^ n) v _ rest (mod-lt x (two_pow-pos n)) lt stream in
    (
      record f { buf_bits = k },
      rw (read_bits, ge-ltb 31 n le, filled) (ap (λ t. some (t, record f { buf_bits = k })) value),
      tail,
      bytes,
    )
