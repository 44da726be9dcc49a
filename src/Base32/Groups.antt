-- ===== src/Base32/Groups.antt =====
-- What the five-bit groups of a bit string stand for, and which groups a part of it has.
use falcon_vanity_generator.Base.{
  ℕ, zero, suc, ◌+◌, ◌*◌, ◌≤◌, ◌<◌, List, [], ◌∷◌, ◌++◌, length, take, drop, All, All-append, ◌≡◌,
  refl, ap, ◌∙◌, arith,
}
use falcon_vanity_generator.Base.Digits.{value, IsBit, IsByte}
use falcon_vanity_generator.Base32.{byte_bits, bits, groups}

five_more : (n : ℕ) → 5 * suc n ≡ suc (suc (suc (suc (suc (5 * n)))))
five_more n = omega arith

eight_more : (n : ℕ) → 8 * suc n ≡ suc (suc (suc (suc (suc (suc (suc (suc (8 * n))))))))
eight_more n = omega arith

pub bits-append : (xs ys : List ℕ) → bits (xs ++ ys) ≡ bits xs ++ bits ys
unfolding bits
bits-append [] ys = refl
bits-append (x ∷ xs) ys = ap (λ r. byte_bits x ++ r) (bits-append xs ys)

pub length-bits : (xs : List ℕ) → length (bits xs) ≡ 8 * length xs
unfolding bits
length-bits [] = refl
length-bits (x ∷ xs) = omega (arith, length-bits xs)

pub bits-IsBit : (xs : List ℕ) → All IsBit (bits xs)
unfolding bits
bits-IsBit [] = tt
bits-IsBit (x ∷ xs) = All-append IsBit (byte_bits x) (bits xs) (omega arith) (bits-IsBit xs)

pub take-bits : (n : ℕ) (xs : List ℕ) → take (8 * n) (bits xs) ≡ bits (take n xs)
unfolding bits
take-bits zero xs = refl
take-bits (suc n) [] = rw eight_more
take-bits (suc n) (x ∷ xs) = rw eight_more (ap (λ r. byte_bits x ++ r) (take-bits n xs))

pub drop-bits : (n : ℕ) (xs : List ℕ) → drop (8 * n) (bits xs) ≡ bits (drop n xs)
unfolding bits
drop-bits zero xs = refl
drop-bits (suc n) [] = rw eight_more
drop-bits (suc n) (x ∷ xs) = rw eight_more (drop-bits n xs)

-- Bytes and their bits spell the same number.
pub value-bits : (acc : ℕ) (xs : List ℕ) → All IsByte xs → value 2 acc (bits xs) ≡ value 256 acc xs
unfolding bits value
value-bits acc [] h = refl
value-bits acc (x ∷ xs) h =
    ap (λ a. value 2 a (bits xs)) (omega (arith, h.0)) ∙ value-bits (acc * 256 + x) xs h.1

-- A whole number of groups spells the number of its bits.
pub value-groups :
    (k acc : ℕ) (xs : List ℕ) → length xs ≡ 5 * k → value 32 acc (groups xs) ≡ value 2 acc xs
unfolding groups value
value-groups zero acc [] h = refl
value-groups zero acc (a ∷ xs) h = absurd (omega arith)
value-groups (suc k) acc (a ∷ b ∷ c ∷ d ∷ e ∷ xs) h =
    ap (λ v. value 32 v (groups xs)) (omega arith)
    ∙ value-groups k ((((((acc * 2 + a) * 2 + b) * 2 + c) * 2 + d) * 2) + e) xs (omega arith)
value-groups (suc k) acc [] h = absurd (omega arith)
value-groups (suc k) acc (a ∷ []) h = absurd (omega arith)
value-groups (suc k) acc (a ∷ b ∷ []) h = absurd (omega arith)
value-groups (suc k) acc (a ∷ b ∷ c ∷ []) h = absurd (omega arith)
value-groups (suc k) acc (a ∷ b ∷ c ∷ d ∷ []) h = absurd (omega arith)

-- The leading groups depend on their own bits only.
pub take-groups :
    (p : ℕ) (xs : List ℕ) → 5 * p ≤ length xs → take p (groups xs) ≡ groups (take (5 * p) xs)
unfolding groups
take-groups zero xs h = refl
take-groups (suc p) (a ∷ b ∷ c ∷ d ∷ e ∷ xs) h =
    rw five_more
      (ap (λ r. (a * 16 + b * 8 + c * 4 + d * 2 + e) ∷ r) (take-groups p xs (omega arith)))
take-groups (suc k) [] h = absurd (omega arith)
take-groups (suc k) (a ∷ []) h = absurd (omega arith)
take-groups (suc k) (a ∷ b ∷ []) h = absurd (omega arith)
take-groups (suc k) (a ∷ b ∷ c ∷ []) h = absurd (omega arith)
take-groups (suc k) (a ∷ b ∷ c ∷ d ∷ []) h = absurd (omega arith)

pub drop-groups :
    (p : ℕ) (xs : List ℕ) → 5 * p ≤ length xs → drop p (groups xs) ≡ groups (drop (5 * p) xs)
unfolding groups
drop-groups zero xs h = refl
drop-groups (suc p) (a ∷ b ∷ c ∷ d ∷ e ∷ xs) h = rw five_more (drop-groups p xs (omega arith))
drop-groups (suc k) [] h = absurd (omega arith)
drop-groups (suc k) (a ∷ []) h = absurd (omega arith)
drop-groups (suc k) (a ∷ b ∷ []) h = absurd (omega arith)
drop-groups (suc k) (a ∷ b ∷ c ∷ []) h = absurd (omega arith)
drop-groups (suc k) (a ∷ b ∷ c ∷ d ∷ []) h = absurd (omega arith)

-- Three bits in the last group are filled up with two zeros.
pub groups_padded :
    (k : ℕ) (xs : List ℕ) → length xs ≡ 5 * k + 3 → groups xs ≡ groups (xs ++ 0 ∷ 0 ∷ [])
unfolding groups
groups_padded zero (a ∷ b ∷ c ∷ []) h = ap (λ t. t ∷ []) (omega arith)
groups_padded (suc k) (a ∷ b ∷ c ∷ d ∷ e ∷ xs) h =
    ap (λ r. (a * 16 + b * 8 + c * 4 + d * 2 + e) ∷ r) (groups_padded k xs (omega arith))
groups_padded zero [] h = absurd (omega arith)
groups_padded zero (a ∷ []) h = absurd (omega arith)
groups_padded zero (a ∷ b ∷ []) h = absurd (omega arith)
groups_padded zero (a ∷ b ∷ c ∷ d ∷ xs) h = absurd (omega arith)
groups_padded (suc k) [] h = absurd (omega arith)
groups_padded (suc k) (a ∷ []) h = absurd (omega arith)
groups_padded (suc k) (a ∷ b ∷ []) h = absurd (omega arith)
groups_padded (suc k) (a ∷ b ∷ c ∷ []) h = absurd (omega arith)
groups_padded (suc k) (a ∷ b ∷ c ∷ d ∷ []) h = absurd (omega arith)

pub length-groups : (k : ℕ) (xs : List ℕ) → length xs ≡ 5 * k → length (groups xs) ≡ k
unfolding groups
length-groups zero [] h = refl
length-groups zero (a ∷ xs) h = absurd (omega arith)
length-groups (suc k) (a ∷ b ∷ c ∷ d ∷ e ∷ xs) h = ap suc (length-groups k xs (omega arith))
length-groups (suc k) [] h = absurd (omega arith)
length-groups (suc k) (a ∷ []) h = absurd (omega arith)
length-groups (suc k) (a ∷ b ∷ []) h = absurd (omega arith)
length-groups (suc k) (a ∷ b ∷ c ∷ []) h = absurd (omega arith)
length-groups (suc k) (a ∷ b ∷ c ∷ d ∷ []) h = absurd (omega arith)

pub groups-lt : (xs : List ℕ) → All IsBit xs → All (λ g. g < 32) (groups xs)
unfolding groups
groups-lt [] h = tt
groups-lt (a ∷ []) h = omega arith
groups-lt (a ∷ b ∷ []) h = omega arith
groups-lt (a ∷ b ∷ c ∷ []) h = omega arith
groups-lt (a ∷ b ∷ c ∷ d ∷ []) h = omega arith
groups-lt (a ∷ b ∷ c ∷ d ∷ e ∷ xs) h = (omega arith, groups-lt xs h.1.1.1.1.1)
