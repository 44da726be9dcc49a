-- ===== src/Targets/Device/Reads.antt =====
-- The two 64-bit numbers that the device matcher reads from an address.
use falcon_vanity_generator.Base.{
  ℕ, ◌+◌, ◌-◌, ◌*◌, ◌%◌, ◌^◌, ◌<◌, bit_or, List, length, take, drop, All, ◌≡◌, sym, ap, ap₂, ◌∙◌,
  arith, take-append-drop, length-drop, take_all, take-append_le, drop-append_le, drop-drop,
  All-take, All-drop,
}
use native.Mathlib.Nat.{mod-eq_of_lt, mul-add-mod_self_right}
use falcon_vanity_generator.Base.Bits.{bit_or_high}
use falcon_vanity_generator.Base.Digits.{value, IsByte, value-append, value-shift, value-lt}
use falcon_vanity_generator.Crates.{Crates}
use falcon_vanity_generator.Address.{Address, IsAddress, checksum}
use falcon_vanity_generator.Base32.{bits}
use falcon_vanity_generator.Base32.Groups.{
  bits-append, length-bits, take-bits, drop-bits, value-bits,
}
use falcon_vanity_generator.Targets.Device.{be64, device_lo}
use falcon_vanity_generator.Address.Display.{full, length-checksum, checksum-IsByte, full-IsByte}

low_word :
    (ys : List ℕ) → length ys ≡ 8 → All IsByte ys → be64 ys % 2 ^ 32 ≡ value 256 0 (drop 4 ys)
unfolding be64
low_word ys len h =
    ap (λ (v : ℕ). v % 2 ^ 32) split
    ∙ mul-add-mod_self_right (value 256 0 (take 4 ys)) (2 ^ 32) (value 256 0 (drop 4 ys))
    ∙ mod-eq_of_lt {n = value 256 0 (drop 4 ys)} {m = 2 ^ 32} below
  where
    length-back : length (drop 4 ys) ≡ 4
    length-back = omega (arith, length-drop 4 ys)

    split : value 256 0 (take 8 ys) ≡ value 256 0 (take 4 ys) * 2 ^ 32 + value 256 0 (drop 4 ys)
    split =
        ap (value 256 0) (take_all 8 ys (omega arith) ∙ sym (take-append-drop 4 ys))
        ∙ value-append 256 0 (take 4 ys) (drop 4 ys)
        ∙ value-shift 256 (value 256 0 (take 4 ys)) (drop 4 ys)
        ∙ ap (λ (k : ℕ). value 256 0 (take 4 ys) * 256 ^ k + value 256 0 (drop 4 ys)) length-back

    below : value 256 0 (drop 4 ys) < 2 ^ 32
    below = rw length-back at (value-lt 256 (drop 4 ys) (All-drop IsByte 4 ys h))

module _ (x : Crates) (a : Address) (ok : IsAddress a) where
  -- The two numbers that the device reads.
  pub be64-eq-value : be64 a.bytes ≡ value 2 0 (take 64 (bits (full x a)))
  unfolding be64
  be64-eq-value =
      sym (value-bits 0 (take 8 a.bytes) (All-take IsByte 8 a.bytes ok.1))
      ∙ ap (value 2 0) (
          sym (take-bits 8 a.bytes)
          ∙ sym (
              take-append_le 64 (bits a.bytes) (bits (checksum x a))
                (omega (arith, length-bits a.bytes, ok.0)))
          ∙ ap (take 64) (sym (bits-append a.bytes (checksum x a))))

  abbrev last_four : ℕ
  last_four = value 256 0 (drop 28 a.bytes)

  last_four-lt : last_four < 2 ^ 32
  last_four-lt =
      rw (let e : length (drop 28 a.bytes) ≡ 4 = omega (arith, length-drop 28 a.bytes, ok.0) in e)
        at (value-lt 256 (drop 28 a.bytes) (All-drop IsByte 28 a.bytes ok.1))

  checksum-lt : value 256 0 (checksum x a) < 2 ^ 32
  checksum-lt =
      rw (length-checksum x a ok) at (value-lt 256 (checksum x a) (checksum-IsByte x a ok))

  address_word : be64 (drop 24 a.bytes) % 2 ^ 32 ≡ last_four
  address_word =
      low_word (drop 24 a.bytes) (omega (arith, length-drop 24 a.bytes, ok.0))
        (All-drop IsByte 24 a.bytes ok.1)
      ∙ ap (value 256 0) (drop-drop 24 4 a.bytes)

  checksum_word : be64 (drop 24 (x.sha512_256 a.bytes)) % 2 ^ 32 ≡ value 256 0 (checksum x a)
  unfolding checksum
  checksum_word =
      low_word (drop 24 sum) (omega (arith, length-drop 24 sum, x.length-sha512_256 a.bytes))
        (All-drop IsByte 24 sum (x.sha512_256-IsByte a.bytes))
      ∙ ap (value 256 0) (
          drop-drop 24 4 sum ∙ ap (λ (k : ℕ). drop (k - 4) sum) (sym (x.length-sha512_256 a.bytes)))
    where
      sum : List ℕ
      sum = x.sha512_256 a.bytes

  tail_value : last_four * 2 ^ 32 + value 256 0 (checksum x a) ≡ value 256 0 (drop 28 (full x a))
  tail_value =
      ap (λ (k : ℕ). last_four * 256 ^ k + value 256 0 (checksum x a))
        (sym (length-checksum x a ok))
      ∙ sym (value-shift 256 last_four (checksum x a))
      ∙ sym (value-append 256 0 (drop 28 a.bytes) (checksum x a))
      ∙ ap (value 256 0) (sym (drop-append_le 28 a.bytes (checksum x a) (omega (arith, ok.0))))

  pub device_lo-eq-value : device_lo x a.bytes ≡ value 2 0 (drop 224 (bits (full x a)))
  unfolding device_lo
  device_lo-eq-value =
      ap₂ (λ (u v : ℕ). bit_or (u * 2 ^ 32 % 2 ^ 64) v) address_word checksum_word
      ∙ ap (λ (u : ℕ). bit_or u (value 256 0 (checksum x a)))
          (mod-eq_of_lt {n = last_four * 2 ^ 32} {m = 2 ^ 64} (omega (arith, last_four-lt)))
      ∙ bit_or_high 32 last_four (value 256 0 (checksum x a)) checksum-lt
      ∙ tail_value
      ∙ sym (value-bits 0 (drop 28 (full x a)) (All-drop IsByte 28 (full x a) (full-IsByte x a ok)))
      ∙ ap (value 2 0) (sym (drop-bits 28 (full x a)))
