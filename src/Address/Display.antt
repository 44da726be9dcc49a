-- ===== src/Address/Display.antt =====
-- The display string, character by character, in terms of the bits of an address and its checksum.
use falcon_vanity_generator.Base.{
  ℕ, ◌-◌, ◌*◌, ◌≤◌, ◌<◌, true, List, [], ◌∷◌, ◌++◌, map, length, take, drop, All, ◌≡◌, sym, ap, ap₂,
  ◌∙◌, ◌↔◌, arith, length-append, length-take, length-drop, drop-append_le, All-append, All-take,
  All-drop, length-map, take-map, drop-map, starts_with, ends_with, starts_with_iff, ends_with_iff,
}
use falcon_vanity_generator.Base.Digits.{value, IsByte, value-append, value-injective}
use falcon_vanity_generator.Crates.{Crates}
use falcon_vanity_generator.Address.{Address, IsAddress, checksum, to_address_string}
use falcon_vanity_generator.Base32.{bits, groups, char_of, base32_nopad}
use falcon_vanity_generator.Base32.Groups.{
  length-bits, bits-IsBit, value-groups, take-groups, drop-groups, groups_padded, length-groups,
  groups-lt,
}
use falcon_vanity_generator.Base32.Chars.{map-char_of-injective}

-- Equal values, equal characters.
chars_iff :
    (gs is : List ℕ)
    → length gs ≡ length is
    → All (λ i. i < 32) gs
    → All (λ i. i < 32) is
    → (value 32 0 gs ≡ value 32 0 is) ↔ (map char_of gs ≡ map char_of is)
chars_iff gs is len hg hi = (
  λ e. ap (map char_of) (value-injective 32 0 0 gs is len hg hi e).1,
  λ e. ap (value 32 0) (map-char_of-injective gs is hg hi e),
)

value_padded : (ys : List ℕ) → value 2 0 (ys ++ 0 ∷ 0 ∷ []) ≡ 4 * value 2 0 ys
value_padded ys = value-append 2 0 ys (0 ∷ 0 ∷ []) ∙ (unfold value in omega arith)

abbrev pub full : Crates → Address → List ℕ
full x a = a.bytes ++ checksum x a

abbrev padded : Crates → Address → List ℕ
padded x a = bits (full x a) ++ 0 ∷ 0 ∷ []

abbrev shown : Crates → Address → List ℕ
shown x a = groups (bits (full x a))

-- The 288 bits of an address and its checksum, and the display string in terms of them.
module _ (x : Crates) (a : Address) (ok : IsAddress a) where
  pub length-checksum : length (checksum x a) ≡ 4
  unfolding checksum
  length-checksum = omega (
    arith,
    length-drop (length (x.sha512_256 a.bytes) - 4) (x.sha512_256 a.bytes),
    x.length-sha512_256 a.bytes,
  )

  pub checksum-IsByte : All IsByte (checksum x a)
  unfolding checksum
  checksum-IsByte =
      All-drop IsByte (length (x.sha512_256 a.bytes) - 4) (x.sha512_256 a.bytes)
        (x.sha512_256-IsByte a.bytes)

  pub full-IsByte : All IsByte (full x a)
  full-IsByte = All-append IsByte a.bytes (checksum x a) ok.1 checksum-IsByte

  length-full : length (full x a) ≡ 36
  length-full = omega (arith, length-append a.bytes (checksum x a), length-checksum, ok.0)

  pub length-bits-full : length (bits (full x a)) ≡ 288
  length-bits-full = omega (arith, length-bits (full x a), length-full)

  pub display-eq-groups : to_address_string x a ≡ map char_of (groups (bits (full x a)))
  unfolding to_address_string base32_nopad
  display-eq-groups = x.base32_encode_lem (full x a) full-IsByte

  padded-eq : groups (bits (full x a)) ≡ groups (padded x a)
  padded-eq = groups_padded 57 (bits (full x a)) length-bits-full

  length-padded : length (padded x a) ≡ 290
  length-padded = omega (arith, length-append (bits (full x a)) (0 ∷ 0 ∷ []), length-bits-full)

  length-shown : length (shown x a) ≡ 58
  length-shown = ap length padded-eq ∙ length-groups 58 (padded x a) length-padded

  shown-lt : All (λ g. g < 32) (shown x a)
  shown-lt = groups-lt (bits (full x a)) (bits-IsBit (full x a))

  pub front_iff :
      (is : List ℕ)
      → All (λ i. i < 32) is
      → length is ≤ 57
      → (value 2 0 (take (5 * length is) (bits (full x a))) ≡ value 32 0 is)
        ↔ (starts_with (to_address_string x a) (map char_of is) ≡ true)
  front_iff is h fits = (
    λ e. starts.1 (front_chars ∙ chars.0 (front_value ∙ e)),
    λ e. sym front_value ∙ chars.1 (sym front_chars ∙ starts.0 e),
  )
    where
      n : ℕ
      n = length is

      starts :
          (starts_with (to_address_string x a) (map char_of is) ≡ true)
          ↔ (take (length (map char_of is)) (to_address_string x a) ≡ map char_of is)
      starts = starts_with_iff (to_address_string x a) (map char_of is)

      chars :
          (value 32 0 (take n (shown x a)) ≡ value 32 0 is)
          ↔ (map char_of (take n (shown x a)) ≡ map char_of is)
      chars =
          chars_iff (take n (shown x a)) is
            (length-take n (shown x a) (omega (arith, length-shown)))
            (All-take (λ g. g < 32) n (shown x a) shown-lt) h

      front_value : value 32 0 (take n (shown x a)) ≡ value 2 0 (take (5 * n) (bits (full x a)))
      front_value =
          ap (value 32 0) (take-groups n (bits (full x a)) (omega (arith, length-bits-full)))
          ∙ value-groups n 0 (take (5 * n) (bits (full x a)))
              (length-take (5 * n) (bits (full x a)) (omega (arith, length-bits-full)))

      front_chars :
          take (length (map char_of is)) (to_address_string x a) ≡ map char_of (take n (shown x a))
      front_chars =
          ap₂ (λ (k : ℕ) (s : List ℕ). take k s) (length-map char_of is) display-eq-groups
          ∙ take-map char_of n (shown x a)

  pub back_iff :
      (is : List ℕ)
      → All (λ i. i < 32) is
      → 1 ≤ length is
      → length is ≤ 58
      → (4 * value 2 0 (drop (290 - 5 * length is) (bits (full x a))) ≡ value 32 0 is)
        ↔ (ends_with (to_address_string x a) (map char_of is) ≡ true)
  back_iff is h pos fits = (
    λ e. ends.1 (back_chars ∙ chars.0 (back_value ∙ e)),
    λ e. sym back_value ∙ chars.1 (sym back_chars ∙ ends.0 e),
  )
    where
      n : ℕ
      n = length is

      j : ℕ
      j = 58 - n

      length-display : length (to_address_string x a) ≡ 58
      length-display = ap length display-eq-groups ∙ length-map char_of (shown x a) ∙ length-shown

      ends : (ends_with (to_address_string x a) (map char_of is) ≡ true) ↔ (
          drop (length (to_address_string x a) - length (map char_of is)) (to_address_string x a)
          ≡ map char_of is)
      ends =
          ends_with_iff (to_address_string x a) (map char_of is)
            (omega (arith, length-display, length-map char_of is))

      chars :
          (value 32 0 (drop j (shown x a)) ≡ value 32 0 is)
          ↔ (map char_of (drop j (shown x a)) ≡ map char_of is)
      chars =
          chars_iff (drop j (shown x a)) is (omega (arith, length-drop j (shown x a), length-shown))
            (All-drop (λ g. g < 32) j (shown x a) shown-lt) h

      back_bits : drop (5 * j) (padded x a) ≡ drop (290 - 5 * n) (bits (full x a)) ++ 0 ∷ 0 ∷ []
      back_bits =
          drop-append_le (5 * j) (bits (full x a)) (0 ∷ 0 ∷ []) (omega (arith, length-bits-full))
          ∙ ap (λ (k : ℕ). drop k (bits (full x a)) ++ 0 ∷ 0 ∷ []) (omega arith)

      back_value :
          value 32 0 (drop j (shown x a)) ≡ 4 * value 2 0 (drop (290 - 5 * n) (bits (full x a)))
      back_value =
          ap (λ (s : List ℕ). value 32 0 (drop j s)) padded-eq
          ∙ ap (value 32 0) (drop-groups j (padded x a) (omega (arith, length-padded)))
          ∙ value-groups n 0 (drop (5 * j) (padded x a))
              (omega (arith, length-drop (5 * j) (padded x a), length-padded))
          ∙ ap (value 2 0) back_bits
          ∙ value_padded (drop (290 - 5 * n) (bits (full x a)))

      back_chars :
          drop (length (to_address_string x a) - length (map char_of is)) (to_address_string x a)
          ≡ map char_of (drop j (shown x a))
      back_chars =
          ap₂ (λ (k : ℕ) (s : List ℕ). drop k s)
            (omega (arith, length-display, length-map char_of is)) display-eq-groups
          ∙ drop-map char_of j (shown x a)
