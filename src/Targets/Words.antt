-- ===== src/Targets/Words.antt =====
-- What the device words of a pattern are, and what the masks keep of a number.
use falcon_vanity_generator.Base.{
  ℕ, zero, suc, ◌+◌, ◌-◌, ◌*◌, ◌/◌, ◌%◌, ◌^◌, ◌≤◌, ◌<◌, bit_and, true, false, not, ◌||◌, some, List,
  [], ◌∷◌, map, length, take, drop, All, ◌≡◌, refl, sym, ap, ap₂, ◌∙◌, inl, inr, arith, ltb, leb,
  ◌==◌, Option-cases, ◌>>=◌, is_some, take-append-drop, length-take, length-drop, All-take,
  All-drop, length-map,
}
use native.Mathlib.Nat.{
  mod-eq_of_lt, pow-suc, pow-le-pow_right, one-le-pow, mul-lt-mul_of_pos_right,
  mul-add-mod_self_right,
}
use falcon_vanity_generator.Base.Bits.{bit_or_high, bit_and_low, bit_and_high, shl_max, pow-add}
use falcon_vanity_generator.Base.Digits.{value, IsBit, value-append, value-shift, value-lt}
use falcon_vanity_generator.Base32.{base32_alphabet, find, char_of}
use falcon_vanity_generator.Base32.Chars.{holds_from, holds_from_lem, find-char_of, char_of-find}
use falcon_vanity_generator.Targets.{
  pattern_bits, prefix_words, suffix_words, InAlphabet, last_chars, last_char?, ends_well,
}

-- The values of the characters of a pattern.
pub record Indices (cs : List ℕ) : Type 0 where
  pub values : List ℕ
  pub small : All (λ i. i < 32) values
  pub spelled : map char_of values ≡ cs
  pub same_length : length values ≡ length cs

pub indices : (cs : List ℕ) → All InAlphabet cs → Indices cs
indices [] h = record { values = []; small = tt; spelled = refl; same_length = refl }
indices (c ∷ cs) h = elim (Option-cases (find base32_alphabet c)) [
  | inl e ↦ absurd (let f : false ≡ true = rw e at h.0 in cc)
  | inr (i, e) ↦
      let rest = indices cs h.1 in
      let (shown, below) = char_of-find c i e in
      record {
        values = i ∷ rest.values;
        small = (below, rest.small);
        spelled = ap₂ ◌∷◌ shown rest.spelled;
        same_length = ap suc rest.same_length;
      }
]

-- In 25 characters the u128 does not overflow.
pub pattern_bits-eq-value :
    (j acc : ℕ) (is : List ℕ)
    → All (λ i. i < 32) is
    → acc < 32 ^ j
    → j + length is ≤ 25
    → pattern_bits acc (map char_of is) ≡ some (value 32 acc is)
unfolding pattern_bits value
pattern_bits-eq-value j acc [] h lt fits = refl
pattern_bits-eq-value j acc (i ∷ is) h lt fits =
    rw
      (
        find-char_of i h.0,
        ◌>>=◌,
        mod-eq_of_lt {n = acc * 2 ^ 5} {m = 2 ^ 128} small,
        bit_or_high 5 acc i h.0,
      )
      (pattern_bits-eq-value (suc j) (acc * 32 + i) is h.1 (omega (arith, pow-suc 32 j, h.0))
        (omega arith))
  where
    small : acc * 2 ^ 5 < 2 ^ 128
    small = omega (
      arith,
      pow-suc 32 j,
      pow-le-pow_right {n = 32} (omega arith) {i = suc j} {j = 25} (omega arith),
    )

-- The mask of a prefix keeps the leading bits of a 64-bit number.
pub high_bits :
    (n : ℕ) (xs : List ℕ)
    → n ≤ 64
    → length xs ≡ 64
    → All IsBit xs
    → bit_and (value 2 0 xs) ((2 ^ n - 1) * 2 ^ (64 - n)) ≡ value 2 0 (take n xs) * 2 ^ (64 - n)
high_bits n xs le len h =
    ap (λ (v : ℕ). bit_and v ((2 ^ n - 1) * 2 ^ (64 - n))) split
    ∙ bit_and_high (64 - n) n (value 2 0 front) (value 2 0 back) back_lt front_lt
  where
    front : List ℕ
    front = take n xs

    back : List ℕ
    back = drop n xs

    length-back : length back ≡ 64 - n
    length-back = length-drop n xs ∙ ap (λ (k : ℕ). k - n) len

    split : value 2 0 xs ≡ value 2 0 front * 2 ^ (64 - n) + value 2 0 back
    split =
        ap (value 2 0) (sym (take-append-drop n xs))
        ∙ value-append 2 0 front back
        ∙ value-shift 2 (value 2 0 front) back
        ∙ ap (λ (k : ℕ). value 2 0 front * 2 ^ k + value 2 0 back) length-back

    back_lt : value 2 0 back < 2 ^ (64 - n)
    back_lt = rw length-back at (value-lt 2 back (All-drop IsBit n xs h))

    front_lt : value 2 0 front < 2 ^ n
    front_lt = rw (length-take n xs (omega arith)) at (value-lt 2 front (All-take IsBit n xs h))

-- The mask of a suffix keeps the trailing bits.
pub low_bits :
    (n : ℕ) (xs : List ℕ)
    → n ≤ length xs
    → All IsBit xs
    → bit_and (value 2 0 xs) (2 ^ n - 1) ≡ value 2 0 (drop (length xs - n) xs)
low_bits n xs le h =
    bit_and_low n (value 2 0 xs)
    ∙ ap (λ (v : ℕ). v % 2 ^ n) split
    ∙ mul-add-mod_self_right (value 2 0 front) (2 ^ n) (value 2 0 back)
    ∙ mod-eq_of_lt back_lt
  where
    m : ℕ
    m = length xs - n

    front : List ℕ
    front = take m xs

    back : List ℕ
    back = drop m xs

    length-back : length back ≡ n
    length-back = omega (arith, length-drop m xs)

    split : value 2 0 xs ≡ value 2 0 front * 2 ^ n + value 2 0 back
    split =
        ap (value 2 0) (sym (take-append-drop m xs))
        ∙ value-append 2 0 front back
        ∙ value-shift 2 (value 2 0 front) back
        ∙ ap (λ (k : ℕ). value 2 0 front * 2 ^ k + value 2 0 back) length-back

    back_lt : value 2 0 back < 2 ^ n
    back_lt = rw length-back at (value-lt 2 back (All-drop IsBit m xs h))

pow-thirty_two : (n : ℕ) → 32 ^ n ≡ 2 ^ (5 * n)
pow-thirty_two zero = refl
pow-thirty_two (suc n) =
    pow-suc 32 n
    ∙ ap (λ (t : ℕ). t * 32) (pow-thirty_two n)
    ∙ sym (pow-add 2 (5 * n) 5)
    ∙ ap (λ (t : ℕ). 2 ^ t) (omega arith)

value-lt_pow : (is : List ℕ) → All (λ i. i < 32) is → value 32 0 is < 2 ^ (5 * length is)
value-lt_pow is h = rw pow-thirty_two at (value-lt 32 is h)

-- The device words of a prefix of at most 12 characters.
pub prefix_words_lem :
    (is : List ℕ)
    → All (λ i. i < 32) is
    → 1 ≤ length is
    → length is ≤ 12
    → prefix_words (map char_of is)
      ≡ some (
        (2 ^ (5 * length is) - 1) * 2 ^ (64 - 5 * length is),
        value 32 0 is * 2 ^ (64 - 5 * length is),
      )
unfolding prefix_words
prefix_words_lem is h pos fits =
    rw
      (
        length-map char_of is,
        not_empty,
        not_far,
        pattern_bits-eq-value 0 0 is h (omega arith) (omega arith),
        ◌>>=◌,
        mask,
        mod-eq_of_lt {n = value 32 0 is} {m = 2 ^ 64} (omega (arith, value-lt_pow is h, room)),
        mod-eq_of_lt {n = value 32 0 is * 2 ^ k} {m = 2 ^ 64} shifted,
      )
      refl
  where
    n : ℕ
    n = 5 * length is

    k : ℕ
    k = 64 - n

    not_empty : (length is == 0) ≡ false
    not_empty = ground arith

    not_far : ltb 64 (5 * length is) ≡ false
    not_far = ground arith

    whole : 2 ^ n * 2 ^ k ≡ 2 ^ 64
    whole = sym (pow-add 2 n k) ∙ ap (λ (t : ℕ). 2 ^ t) {y = 64} (omega arith)

    room : 2 ^ n ≤ 2 ^ 64
    room = pow-le-pow_right {n = 2} (omega arith) {i = n} {j = 64} (omega arith)

    mask : (2 ^ 64 - 1) * 2 ^ k % 2 ^ 64 ≡ (2 ^ n - 1) * 2 ^ k
    mask = rw (let e : n + k ≡ 64 = omega arith in e) at (shl_max n k)

    shifted : value 32 0 is * 2 ^ k < 2 ^ 64
    shifted =
        omega
          (arith, whole, mul-lt-mul_of_pos_right (value-lt_pow is h) (one-le-pow k 2 (omega arith)))

-- The device words of a suffix of at most 13 characters.
pub suffix_words_lem :
    (is : List ℕ)
    → All (λ i. i < 32) is
    → 1 ≤ length is
    → length is ≤ 13
    → suffix_words (map char_of is) ≡ some (2 ^ (5 * length is - 2) - 1, value 32 0 is / 4)
unfolding suffix_words
suffix_words_lem is h pos fits =
    rw
      (
        length-map char_of is,
        not_empty,
        not_far,
        pattern_bits-eq-value 0 0 is h (omega arith) (omega arith),
        ◌>>=◌,
        mod-eq_of_lt {n = value 32 0 is / 2 ^ 2} {m = 2 ^ 64}
            (omega (arith, value-lt_pow is h, room)),
      )
      refl
  where
    not_empty : (length is == 0) ≡ false
    not_empty = ground arith

    not_far : leb 64 (5 * length is - 2) ≡ false
    not_far = ground arith

    room : 2 ^ (5 * length is) ≤ 2 ^ 65
    room = pow-le-pow_right {n = 2} (omega arith) {i = 5 * length is} {j = 65} (omega arith)

ends_well_table :
    holds_from 0 32 (λ i. not (is_some (find last_chars (char_of i))) || (i % 4 == 0)) ≡ true
unfolding holds_from find char_of
ends_well_table = refl

ends_well_last : (i : ℕ) → i < 32 → is_some (find last_chars (char_of i)) ≡ true → i % 4 ≡ 0
ends_well_last i below h =
    ground (arith, holds_from_lem 32 0 i _ (omega arith) below ends_well_table)

-- A pattern that may end an address stands for a multiple of 4: the two padding bits are zero.
pub ends_well-value :
    (acc : ℕ) (is : List ℕ)
    → All (λ i. i < 32) is
    → 1 ≤ length is
    → ends_well (map char_of is) ≡ true
    → value 32 acc is % 4 ≡ 0
unfolding ends_well last_char? value
ends_well-value acc [] h pos e = absurd (omega arith)
ends_well-value acc (i ∷ []) h pos e = omega (arith, ends_well_last i h.0 e)
ends_well-value acc (i ∷ j ∷ is) h pos e =
    ends_well-value (acc * 32 + i) (j ∷ is) h.1 (omega arith) e
