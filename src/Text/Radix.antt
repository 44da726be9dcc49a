-- ===== src/Text/Radix.antt =====
-- `u8::from_str_radix` with radix 16, and the size of a text in UTF-8, of Rust's standard library.
use falcon_vanity_generator.Base.{
  ℕ, ◌+◌, ◌-◌, ◌*◌, ◌≤◌, ◌<◌, true, false, ◌&&◌, Option, none, some, List, [], ◌∷◌, ◌≡◌, ap, inl,
  inr, arith, ltb, leb, ◌==◌, if◌then◌else◌, Bool-cases, Option-cases,
}

-- `char::to_digit(16)`
unfoldable pub to_digit16 : ℕ → Option ℕ
to_digit16 c =
    if leb 48 c && leb c 57
    then some (c - 48)
    else if leb 97 c && leb c 102
    then some (c - 87)
    else if leb 65 c && leb c 70
    then some (c - 55)
    else none

-- The digits from an accumulator on; `none` is an invalid digit or an overflow of the u8.
unfoldable pub digits16 : ℕ → List ℕ → Option ℕ
digits16 acc [] = some acc
digits16 acc (c ∷ cs) = elim (to_digit16 c) [
  | none ↦ none
  | some d ↦ if ltb (acc * 16 + d) 256 then digits16 (acc * 16 + d) cs else none
]

-- One leading `+` is skipped if something follows it.
unfoldable pub from_str_radix16 : List ℕ → Option ℕ
from_str_radix16 [] = none
from_str_radix16 (c ∷ []) = if c == b'+' then none else digits16 0 (c ∷ [])
from_str_radix16 (c ∷ d ∷ cs) = if c == b'+' then digits16 0 (d ∷ cs) else digits16 0 (c ∷ d ∷ cs)

-- The bytes of a character in UTF-8, and of a text.
unfoldable pub len_utf8 : ℕ → ℕ
len_utf8 c = if ltb c 0x80 then 1 else if ltb c 0x800 then 2 else if ltb c 0x10000 then 3 else 4

unfoldable pub len_bytes : List ℕ → ℕ
len_bytes [] = 0
len_bytes (c ∷ cs) = len_utf8 c + len_bytes cs

digits16-below : (acc : ℕ) (cs : List ℕ) (v : ℕ) → acc < 256 → digits16 acc cs ≡ some v → v < 256
unfolding digits16
digits16-below acc [] v small h = let e : acc ≡ v = cc in omega arith
digits16-below acc (c ∷ cs) v small h = elim (Option-cases (to_digit16 c)) [
  | inl e ↦ (let q = rw (e, digits16) at h in cc)
  | inr (d, e) ↦ elim (Bool-cases (ltb (acc * 16 + d) 256)) [
    | inl fits ↦ digits16-below (acc * 16 + d) cs v (ground arith) (rw (e, digits16, fits) at h)
    | inr over ↦ (let q = rw (e, digits16, over) at h in cc)
  ]
]

-- What is parsed fits a byte.
pub from_str_radix16-below : (s : List ℕ) (v : ℕ) → from_str_radix16 s ≡ some v → v < 256
unfolding from_str_radix16
from_str_radix16-below [] v h = cc
from_str_radix16-below (c ∷ []) v h = elim (Bool-cases (c == b'+')) [
  | inl plus ↦ (let q = rw plus at h in cc)
  | inr other ↦ digits16-below 0 (c ∷ []) v (omega arith) (rw other at h)
]
from_str_radix16-below (c ∷ d ∷ cs) v h = elim (Bool-cases (c == b'+')) [
  | inl plus ↦ digits16-below 0 (d ∷ cs) v (omega arith) (rw plus at h)
  | inr other ↦ digits16-below 0 (c ∷ d ∷ cs) v (omega arith) (rw other at h)
]

-- Two digits spell a byte.
pub from_str_radix16-digits :
    (c d h l : ℕ)
    → to_digit16 c ≡ some h
    → to_digit16 d ≡ some l
    → h < 16
    → l < 16
    → 48 ≤ c
    → from_str_radix16 (c ∷ d ∷ []) ≡ some (16 * h + l)
unfolding from_str_radix16 digits16
from_str_radix16-digits c d h l eh el lh ll digit =
    let other : (c == b'+') ≡ false = ground arith in
    let first : ltb (0 * 16 + h) 256 ≡ true = ground arith in
    let both : ltb ((0 * 16 + h) * 16 + l) 256 ≡ true = ground arith in
    rw (other, digits16, eh, first, digits16, el, both, digits16) (ap some (omega arith))
