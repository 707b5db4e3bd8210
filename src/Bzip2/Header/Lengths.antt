-- ===== src/Bzip2/Header/Lengths.antt =====
-- The code lengths in the header of a block of src/bzip2.
use orot.Base.{
  ℕ, zero, suc, ◌+◌, ◌-◌, ◌*◌, ◌≤◌, ◌<◌, ◌≡◌, refl, sym, ap, ◌∙◌, subst, List, [], ◌∷◌, ◌++◌, arith,
  length, replicate, lt→ltb, All, length-append,
}
use orot.Base.Digits.{bits, byte_bits, length-bits}
use native.Mathlib.Decide.{dec_lt}
use orot.Bzip2.BitStream.RoundTrip.{remaining}
use orot.Bzip2.BitStream.Fields.{field_bits, field_bits-append}
use orot.Bzip2.Header.{
  field, delta_fields, length_fields, table_fields, read_length, bits_left, next_length,
  read_lengths, read_tables,
}
use orot.Bzip2.Header.Takes.{Takes, Takes-field, Takes-give, Takes-bind, Takes-as, Takes-map}

abbrev pub IsLength : ℕ → Type 0
IsLength n = (1 ≤ n) × (n ≤ 20)

Takes-done : (fuel cur : ℕ) → Takes (read_length (suc fuel) cur) (bits 1 0) cur
unfolding read_length
Takes-done fuel cur =
    Takes-as (read_length (suc fuel) cur) (bits 1 0 ++ []) (bits 1 0) cur cur refl refl (
      Takes-bind (field 1) _ (bits 1 0) [] 0 cur (Takes-field 1 0 (omega arith) (omega arith))
        (Takes-give cur))

-- One step up or down.
Takes-up :
    (fuel cur target : ℕ) (s : List ℕ)
    → cur < 20
    → Takes (read_length fuel (cur + 1)) s target
    → Takes (read_length (suc fuel) cur) (bits 2 2 ++ s) target
unfolding read_length
Takes-up fuel cur target s lt takes =
    Takes-bind (field 1) _ (bits 1 1) (bits 1 0 ++ s) 1 target
      (Takes-field 1 1 (omega arith) (omega arith))
      (Takes-bind (field 1) _ (bits 1 0) s 0 target (Takes-field 1 0 (omega arith) (omega arith))
        (rw (lt→ltb cur 20 lt) takes))

Takes-down :
    (fuel cur target : ℕ) (s : List ℕ)
    → 1 < cur
    → Takes (read_length fuel (cur - 1)) s target
    → Takes (read_length (suc fuel) cur) (bits 2 3 ++ s) target
unfolding read_length
Takes-down fuel cur target s lt takes =
    Takes-bind (field 1) _ (bits 1 1) (bits 1 1 ++ s) 1 target
      (Takes-field 1 1 (omega arith) (omega arith))
      (Takes-bind (field 1) _ (bits 1 1) s 1 target (Takes-field 1 1 (omega arith) (omega arith))
        (rw (lt→ltb 1 cur lt) takes))

Takes-downs :
    (d fuel cur : ℕ)
    → 1 ≤ cur
    → d < fuel
    → Takes (read_length fuel (cur + d)) (field_bits (replicate d (2, 3)) ++ bits 1 0) cur
Takes-downs d zero cur le lt = absurd (omega arith)
Takes-downs zero (suc fuel) cur le lt =
    let e : cur + 0 ≡ cur = omega arith in rw e (Takes-done fuel cur)
Takes-downs (suc d) (suc fuel) cur le lt =
    let e : cur + suc d - 1 ≡ cur + d = omega arith in
    Takes-down fuel (cur + suc d) cur _ (omega arith)
      (rw e (Takes-downs d fuel cur le (omega arith)))

Takes-ups :
    (u fuel cur : ℕ)
    → cur + u ≤ 20
    → u < fuel
    → Takes (read_length fuel cur) (field_bits (replicate u (2, 2)) ++ bits 1 0) (cur + u)
Takes-ups u zero cur le lt = absurd (omega arith)
Takes-ups zero (suc fuel) cur le lt =
    let e : cur + 0 ≡ cur = omega arith in rw e (Takes-done fuel cur)
Takes-ups (suc u) (suc fuel) cur le lt =
    let e : cur + suc u ≡ cur + 1 + u = omega arith in
    rw e (
      Takes-up fuel cur (cur + 1 + u) _ (omega arith)
        (Takes-ups u fuel (cur + 1) (omega arith) (omega arith)))

delta_stream :
    (cur target : ℕ)
    → field_bits (delta_fields cur target)
      ≡ field_bits (replicate (target - cur) (2, 2))
        ++ (field_bits (replicate (cur - target) (2, 3)) ++ bits 1 0)
unfolding delta_fields
delta_stream cur target =
    field_bits-append (replicate (target - cur) (2, 2)) _
    ∙ ap (λ t. field_bits (replicate (target - cur) (2, 2)) ++ t)
        (field_bits-append (replicate (cur - target) (2, 3)) ((1, 0) ∷ []))

-- With fuel for its steps, the loop comes to the next length.
Takes-delta :
    (fuel cur target : ℕ)
    → IsLength cur
    → IsLength target
    → cur - target < fuel
    → target - cur < fuel
    → Takes (read_length fuel cur) (field_bits (delta_fields cur target)) target
Takes-delta fuel cur target c t down up = elim (dec_lt cur target) [
  | yes p ↦
      let e : cur + (target - cur) ≡ target = omega arith in
      let none : cur - target ≡ 0 = omega arith in
      Takes-as (read_length fuel cur) _ (field_bits (delta_fields cur target))
        (cur + (target - cur)) target
        (sym (
          delta_stream cur target
          ∙ ap
              (λ n.
                field_bits (replicate (target - cur) (2, 2))
                ++ (field_bits (replicate n (2, 3)) ++ bits 1 0))
              none))
        e (Takes-ups (target - cur) fuel cur (omega (arith, t.1)) up)
  | no p ↦
      let e : target + (cur - target) ≡ cur = omega arith in
      let none : target - cur ≡ 0 = omega arith in
      let start = Takes-downs (cur - target) fuel target t.0 down in
      Takes-as (read_length fuel cur) _ (field_bits (delta_fields cur target)) target target
        (sym (
          delta_stream cur target
          ∙ ap
              (λ n.
                field_bits (replicate n (2, 2))
                ++ (field_bits (replicate (cur - target) (2, 3)) ++ bits 1 0))
              none))
        refl
        (subst
          (λ n.
            Takes (read_length fuel n) (field_bits (replicate (cur - target) (2, 3)) ++ bits 1 0)
              target)
          e start)
]

pub length-byte_bits : (src : List ℕ) → length (byte_bits src) ≡ 8 * length src
length-byte_bits [] = omega arith
length-byte_bits (b ∷ src) =
    omega (arith, length-append (bits 8 b) (byte_bits src), length-bits 8 b, length-byte_bits src)

length-steps : (n v : ℕ) → length (field_bits (replicate n (2, v))) ≡ 2 * n
length-steps zero v = omega arith
length-steps (suc n) v = omega (
  arith,
  length-append (bits 2 v) (field_bits (replicate n (2, v))),
  length-bits 2 v,
  length-steps n v,
)

-- The bits that are left are enough fuel.
Takes-next_length :
    (cur target : ℕ)
    → IsLength cur
    → IsLength target
    → Takes (next_length cur) (field_bits (delta_fields cur target)) target
unfolding next_length bits_left
Takes-next_length cur target c t r rest h e =
    let ups : List (ℕ × ℕ) = replicate (target - cur) (2, 2) in
    let downs : List (ℕ × ℕ) = replicate (cur - target) (2, 3) in
    let size : r.buf_bits + 8 * length r.src ≡ length (remaining r) = omega (
      arith,
      length-append (bits r.buf_bits r.buf) (byte_bits r.src),
      length-bits r.buf_bits r.buf,
      length-byte_bits r.src,
    ) in
    let whole = ap length e in
    let stream = ap length (delta_stream cur target) in
    let fits : (cur - target) + (target - cur) < suc (r.buf_bits + 8 * length r.src) = omega (
      arith,
      size,
      whole,
      stream,
      length-append (field_bits (delta_fields cur target)) rest,
      length-append (field_bits ups) (field_bits downs ++ bits 1 0),
      length-append (field_bits downs) (bits 1 0),
      length-steps (target - cur) 2,
      length-steps (cur - target) 3,
    ) in
    Takes-delta (suc (r.buf_bits + 8 * length r.src)) cur target c t (omega (arith, fits))
      (omega (arith, fits)) r rest h e

Takes-read_lengths :
    (len : List ℕ) (cur : ℕ)
    → IsLength cur
    → All IsLength len
    → Takes (read_lengths (length len) cur) (field_bits (length_fields cur len)) len
unfolding read_lengths length_fields
Takes-read_lengths [] cur c h = Takes-give []
Takes-read_lengths (target ∷ len) cur c h =
    let rest = Takes-read_lengths len target h.0 h.1 in
    Takes-as (read_lengths (length (target ∷ len)) cur) _
      (field_bits (length_fields cur (target ∷ len))) (target ∷ len) (target ∷ len)
      (sym (field_bits-append (delta_fields cur target) (length_fields target len))) refl
      (Takes-bind (next_length cur) _ (field_bits (delta_fields cur target))
        (field_bits (length_fields target len)) target (target ∷ len)
        (Takes-next_length cur target c h.0) (Takes-map _ (λ t. target ∷ t) _ len rest))

-- A table for an alphabet of n symbols.
abbrev pub IsTable : ℕ → List ℕ → Type 0
IsTable n len = (length len ≡ n) × All IsLength len

pub Takes-read_tables :
    (lens : List (List ℕ)) (n : ℕ)
    → 0 < n
    → All (IsTable n) lens
    → Takes (read_tables (length lens) n) (field_bits (table_fields lens)) lens
unfolding read_tables table_fields
Takes-read_tables [] n pos h = Takes-give []
Takes-read_tables ([] ∷ lens) n pos h = absurd (omega (arith, h.0.0))
Takes-read_tables ((l ∷ len) ∷ lens) n pos h =
    let rest = Takes-read_tables lens n pos h.1 in
    let first = Takes-read_lengths (l ∷ len) l h.0.1.0 h.0.1 in
    let tables = Takes-map (read_tables (length lens) n) (λ t. (l ∷ len) ∷ t) _ lens rest in
    Takes-as (read_tables (length ((l ∷ len) ∷ lens)) n)
      (bits 5 l ++ (field_bits (length_fields l (l ∷ len)) ++ field_bits (table_fields lens)))
      (field_bits (table_fields ((l ∷ len) ∷ lens))) ((l ∷ len) ∷ lens) ((l ∷ len) ∷ lens)
      (ap (λ t. bits 5 l ++ t)
        (sym (field_bits-append (length_fields l (l ∷ len)) (table_fields lens))))
      refl
      (Takes-bind (field 5) _ (bits 5 l) _ l ((l ∷ len) ∷ lens)
        (Takes-field 5 l (omega arith) (omega (arith, h.0.1.0.1)))
        (Takes-bind (read_lengths n l) _ (field_bits (length_fields l (l ∷ len)))
          (field_bits (table_fields lens)) (l ∷ len) ((l ∷ len) ∷ lens)
          (subst (λ k. Takes (read_lengths k l) (field_bits (length_fields l (l ∷ len))) (l ∷ len))
            h.0.0 first)
          tables))
