-- ===== src/Targets/Device/Agrees.antt =====
-- The device matcher agrees with matching the display string.
use falcon_vanity_generator.Base.{
  ℕ, ◌-◌, ◌*◌, ◌/◌, ◌%◌, ◌^◌, ◌≤◌, ◌<◌, bit_and, Bool, true, false, not, ◌&&◌, some, List, [], ◌∷◌,
  map, length, take, drop, All, ◌≡◌, refl, sym, ap, ◌∙◌, ◌↔◌, arith, ◌==◌, if◌then◌else◌, ◌>>=◌,
  length-take, length-drop, take-take, drop-drop, All-take, All-drop, starts_with, ends_with,
  ends_with-nil, ==_iff, Bool_ext,
}
use native.Mathlib.Nat.{one-le-pow, pow-le-pow_right, mul-div_cancel}
use falcon_vanity_generator.Base.Bits.{bit_and-zero}
use falcon_vanity_generator.Base.Digits.{value, IsBit}
use falcon_vanity_generator.Crates.{Crates}
use falcon_vanity_generator.Address.{Address, IsAddress, to_address_string}
use falcon_vanity_generator.Base32.{bits, char_of}
use falcon_vanity_generator.Base32.Groups.{bits-IsBit}
use falcon_vanity_generator.Targets.{
  InAlphabet, ends_well, Target, DeviceWords, matches_display, prefix_words, suffix_words,
  device_words, IsTarget, FitsGpu,
}
use falcon_vanity_generator.Targets.Words.{
  Indices, ends_well-value, indices, high_bits, low_bits, prefix_words_lem, suffix_words_lem,
}
use falcon_vanity_generator.Targets.Device.{be64, device_lo, entry_matches}
use falcon_vanity_generator.Address.Display.{full, length-bits-full, front_iff, back_iff}
use falcon_vanity_generator.Targets.Device.Reads.{be64-eq-value, device_lo-eq-value}

mul_cancel : (k u v : ℕ) → 0 < k → u * k ≡ v * k → u ≡ v
mul_cancel k u v pos e = sym (mul-div_cancel u pos) ∙ ap (λ (t : ℕ). t / k) e ∙ mul-div_cancel v pos

same_test : (m n : ℕ) (b : Bool) → (m ≡ n) ↔ (b ≡ true) → (m == n) ≡ b
same_test m n b h = Bool_ext (m == n) b (λ e. h.0 ((==_iff m n).0 e), λ e. (==_iff m n).1 (h.1 e))

both_tests : (p q s e : Bool) → p ≡ s → q ≡ e → (if not p then false else q) ≡ (s && e)
both_tests true q s e hp hq = rw (← hp) hq
both_tests false q s e hp hq = rw (← hp)

module _ (x : Crates) (a : Address) (ok : IsAddress a) where
  prefix_agrees :
      (is : List ℕ)
      → All (λ i. i < 32) is
      → length is ≤ 12
      → (bit_and (be64 a.bytes) ((2 ^ (5 * length is) - 1) * 2 ^ (64 - 5 * length is))
          ≡ value 32 0 is * 2 ^ (64 - 5 * length is))
        ↔ (starts_with (to_address_string x a) (map char_of is) ≡ true)
  prefix_agrees is h fits = (
    λ e.
        (front_iff x a ok is h (omega arith)).0
          (mul_cancel (2 ^ (64 - n)) _ _ (one-le-pow (64 - n) 2 (omega arith)) (sym masked ∙ e)),
    λ e. masked ∙ ap (λ (t : ℕ). t * 2 ^ (64 - n)) ((front_iff x a ok is h (omega arith)).1 e),
  )
    where
      n : ℕ
      n = 5 * length is

      masked :
          bit_and (be64 a.bytes) ((2 ^ n - 1) * 2 ^ (64 - n))
          ≡ value 2 0 (take n (bits (full x a))) * 2 ^ (64 - n)
      masked =
          ap (λ (v : ℕ). bit_and v ((2 ^ n - 1) * 2 ^ (64 - n))) (be64-eq-value x a ok)
          ∙ high_bits n (take 64 (bits (full x a))) (omega arith)
              (length-take 64 (bits (full x a)) (omega (arith, length-bits-full x a ok)))
              (All-take IsBit 64 (bits (full x a)) (bits-IsBit (full x a)))
          ∙ ap (λ (l : List ℕ). value 2 0 l * 2 ^ (64 - n))
              (take-take n 64 (bits (full x a)) (omega arith))

  suffix_agrees :
      (is : List ℕ)
      → All (λ i. i < 32) is
      → 1 ≤ length is
      → length is ≤ 13
      → value 32 0 is % 4 ≡ 0
      → (bit_and (device_lo x a.bytes) (2 ^ (5 * length is - 2) - 1) ≡ value 32 0 is / 4)
        ↔ (ends_with (to_address_string x a) (map char_of is) ≡ true)
  suffix_agrees is h pos fits even = (
    λ e. (back_iff x a ok is h pos (omega arith)).0 (omega (arith, masked)),
    λ e. masked ∙ (let q = (back_iff x a ok is h pos (omega arith)).1 e in omega arith),
  )
    where
      m : ℕ
      m = 5 * length is - 2

      rest : List ℕ
      rest = drop 224 (bits (full x a))

      length-rest : length rest ≡ 64
      length-rest = omega (arith, length-drop 224 (bits (full x a)), length-bits-full x a ok)

      masked :
          bit_and (device_lo x a.bytes) (2 ^ m - 1)
          ≡ value 2 0 (drop (290 - 5 * length is) (bits (full x a)))
      masked =
          ap (λ (v : ℕ). bit_and v (2 ^ m - 1)) (device_lo-eq-value x a ok)
          ∙ low_bits m rest (omega (arith, length-rest))
              (All-drop IsBit 224 (bits (full x a)) (bits-IsBit (full x a)))
          ∙ ap (value 2 0) (
              drop-drop 224 (length rest - m) (bits (full x a))
              ∙ ap (λ (k : ℕ). drop k (bits (full x a))) (omega (arith, length-rest)))

  -- A prefix has device words, and the device's test of them is `starts_with`.
  prefix_test :
      (p : List ℕ)
      → All InAlphabet p
      → length p ≤ 12
      → (w : ℕ × ℕ) × (prefix_words p ≡ some w)
        × ((bit_and (be64 a.bytes) w.0 == w.1) ≡ starts_with (to_address_string x a) p)
  prefix_test [] h fits =
      ((0, 0), unfold prefix_words in refl, unfold starts_with in rw bit_and-zero)
  prefix_test (c ∷ cs) h fits = by_values (indices (c ∷ cs) h)
    where
      by_values :
          Indices (c ∷ cs)
          → (w : ℕ × ℕ) × (prefix_words (c ∷ cs) ≡ some w)
            × ((bit_and (be64 a.bytes) w.0 == w.1) ≡ starts_with (to_address_string x a) (c ∷ cs))
      by_values v = (
        _,
        ap prefix_words (sym v.spelled)
            ∙ prefix_words_lem v.values v.small (omega (arith, v.same_length))
                (omega (arith, v.same_length)),
        same_test _ _ _ (prefix_agrees v.values v.small (omega (arith, v.same_length)))
            ∙ ap (starts_with (to_address_string x a)) v.spelled,
      )

  suffix_test :
      (s : List ℕ)
      → All InAlphabet s
      → ends_well s ≡ true
      → length s ≤ 13
      → (w : ℕ × ℕ) × (suffix_words s ≡ some w)
        × ((if w.0 == 0 then true else bit_and (device_lo x a.bytes) w.0 == w.1)
            ≡ ends_with (to_address_string x a) s)
  suffix_test [] h e fits = ((0, 0), unfold suffix_words in refl, sym (ends_with-nil _))
  suffix_test (c ∷ cs) h e fits = by_values (indices (c ∷ cs) h)
    where
      mask_set : (v : Indices (c ∷ cs)) → (2 ^ (5 * length v.values - 2) - 1 == 0) ≡ false
      mask_set v = ground (
        arith,
        pow-le-pow_right {n = 2} (omega arith) {i = 1} {j = 5 * length v.values - 2}
            (omega (arith, v.same_length)),
      )

      by_values :
          Indices (c ∷ cs)
          → (w : ℕ × ℕ) × (suffix_words (c ∷ cs) ≡ some w)
            × ((if w.0 == 0 then true else bit_and (device_lo x a.bytes) w.0 == w.1)
                ≡ ends_with (to_address_string x a) (c ∷ cs))
      by_values v = (
        _,
        ap suffix_words (sym v.spelled)
            ∙ suffix_words_lem v.values v.small (omega (arith, v.same_length))
                (omega (arith, v.same_length)),
        rw (mask_set v) (
            same_test _ _ _ (
              suffix_agrees v.values v.small (omega (arith, v.same_length))
                (omega (arith, v.same_length))
                (ends_well-value 0 v.values v.small (omega (arith, v.same_length))
                  (rw v.spelled e)))
            ∙ ap (ends_with (to_address_string x a)) v.spelled),
      )

  -- For a 32-byte address and a well-formed target within the device limits there are device words,
  -- and the test of the device with them answers as the display string does.
  pub device_words-agrees :
      (t : Target)
      → IsTarget t
      → FitsGpu t
      → (w : DeviceWords) × (device_words t ≡ some w)
        × (entry_matches x a.bytes w ≡ matches_display t (to_address_string x a))
  unfolding device_words entry_matches matches_display
  device_words-agrees t good fits =
      let (p, ep, hp) = prefix_test t.prefix good.prefix_chars fits.0 in
      let (s, es, hs) = suffix_test t.suffix good.suffix_chars good.suffix_ends fits.1 in
      (
        record { pmask = p.0; pval = p.1; smask = s.0; sval = s.1 },
        rw (ep, es, ◌>>=◌),
        both_tests _ _ _ _ hp hs,
      )
