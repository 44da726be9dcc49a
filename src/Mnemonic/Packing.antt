-- ===== src/Mnemonic/Packing.antt =====
-- The packing keeps the number that the bytes spell in little-endian order.
use falcon_vanity_generator.Base.{
  ℕ, ◌+◌, ◌-◌, ◌*◌, ◌/◌, ◌%◌, ◌^◌, ◌≤◌, ◌<◌, bit_or, List, [], ◌∷◌, length, All, ◌≡◌, ap, ◌∙◌, ◌≢◌,
  inl, inr, arith, leb, ◌==◌, Bool-cases, ==_iff,
}
use native.Mathlib.Nat.{mul-le-mul_right, pow-le-pow_right, mod-eq_of_lt}
use falcon_vanity_generator.Base.Bits.{bit_or_low, bit_and_low, pow-add}
use falcon_vanity_generator.Base.Digits.{IsByte}
use falcon_vanity_generator.Base.Endian.{from_le}
use falcon_vanity_generator.Mnemonic.{uint11_loop, to_uint11_array}

-- The number that 11-bit values spell.
unfoldable pub from_le11 : List ℕ → ℕ
from_le11 [] = 0
from_le11 (v ∷ vs) = v + 2048 * from_le11 vs

pub scaled : (P b buffer n : ℕ) → b < n → buffer < P → b * P + buffer < n * P
scaled P b buffer n hb hp = omega (arith, mul-le-mul_right {m = b + 1} {n = n} P (omega arith))

regroup : (P Q V : ℕ) → 2048 * Q ≡ 256 * P → 2048 * (Q * V) ≡ 256 * (P * V)
regroup P Q V e = omega (arith, ap (λ (t : ℕ). t * V) e)

-- What the shift and the `|=` leave in the buffer.
pub joined :
    (buffer bits b : ℕ)
    → buffer < 2 ^ bits
    → bits ≤ 10
    → b < 2048
    → bit_or buffer (b * 2 ^ bits % 2 ^ 32) ≡ b * 2 ^ bits + buffer
joined buffer bits b small few byte =
    ap (bit_or buffer) (mod-eq_of_lt {n = b * 2 ^ bits} {m = 2 ^ 32} fits)
    ∙ bit_or_low bits b buffer small
  where
    fits : b * 2 ^ bits < 2 ^ 32
    fits = omega (
      arith,
      scaled (2 ^ bits) b buffer 2048 byte small,
      pow-le-pow_right {n = 2} (omega arith) {i = bits} {j = 10} few,
    )

-- The state that the loop goes on with, and what it has pushed.
uint11_loop-value :
    (bs : List ℕ) (buffer bits : ℕ)
    → buffer < 2 ^ bits
    → bits ≤ 10
    → All IsByte bs
    → from_le11 (uint11_loop buffer bits bs) ≡ buffer + 2 ^ bits * from_le bs
unfolding from_le11 uint11_loop from_le
uint11_loop-value [] buffer bits small few bytes = elim (Bool-cases (bits == 0)) [
  | inl empty ↦
      let e : bits ≡ 0 = (==_iff bits 0).0 empty in
      let z : buffer < 1 = rw e at small in rw empty (omega arith)
  | inr some_bits ↦ rw some_bits (
      omega (
        arith,
        bit_and_low 11 buffer,
        pow-le-pow_right {n = 2} (omega arith) {i = bits} {j = 10} few,
      ))
]
uint11_loop-value (b ∷ bs) buffer bits small few bytes = elim (Bool-cases (leb 11 (bits + 8))) [
  | inr less ↦
      let short : bits + 8 ≤ 10 = ground arith in
      let pow : 2 ^ (bits + 8) ≡ 256 * P = omega (arith, pow-add 2 bits 8) in
      let ih = uint11_loop-value bs v (bits + 8) (omega (arith, v_eq, v_lt)) short bytes.1 in
      rw less (omega (arith, ih, v_eq, ap (λ (t : ℕ). t * from_le bs) pow))
  | inl full ↦
      let long : 3 ≤ bits = ground arith in
      let pow : 2048 * 2 ^ (bits + 8 - 11) ≡ 256 * P = omega (
        arith,
        pow-add 2 (bits + 8 - 11) 11,
        pow-add 2 bits 8,
        ap (λ (k : ℕ). 2 ^ k) {x = bits + 8 - 11 + 11} {y = bits + 8} (omega arith),
      ) in
      let ih =
        uint11_loop-value bs (v / 2 ^ 11) (bits + 8 - 11) (omega (arith, v_eq, v_lt)) (omega arith)
          bytes.1 in
      rw full (
        omega (arith, ih, v_eq, bit_and_low 11 v, regroup P (2 ^ (bits + 8 - 11)) (from_le bs) pow))
]
  where
    P : ℕ
    P = 2 ^ bits

    v : ℕ
    v = bit_or buffer (b * 2 ^ bits % 2 ^ 32)

    v_eq : v ≡ b * P + buffer
    v_eq = joined buffer bits b small few (let q = bytes.0 in omega arith)

    v_lt : b * P + buffer < 256 * P
    v_lt = scaled P b buffer 256 bytes.0 small

-- The 11-bit values of a byte string spell the same number as its bytes.
pub to_uint11_array-value :
    (bs : List ℕ) → All IsByte bs → from_le11 (to_uint11_array bs) ≡ from_le bs
unfolding to_uint11_array
to_uint11_array-value bs bytes =
    omega (arith, uint11_loop-value bs 0 0 (omega arith) (omega arith) bytes)

-- Eleven bits each, as many as the bits need.
uint11_loop-size :
    (bs : List ℕ) (buffer bits : ℕ)
    → bits ≤ 10
    → (length (uint11_loop buffer bits bs) ≡ (bits + 8 * length bs + 10) / 11)
      × All (λ v. v < 2048) (uint11_loop buffer bits bs)
unfolding uint11_loop
uint11_loop-size [] buffer bits few = elim (Bool-cases (bits == 0)) [
  | inl empty ↦ rw empty (let e = (==_iff bits 0).0 empty in omega arith, tt)
  | inr some_bits ↦
      let pos : bits ≢ 0 = λ e. cc (some_bits, (==_iff bits 0).1 e) in
      rw some_bits (omega arith, (omega (arith, bit_and_low 11 buffer), tt))
]
uint11_loop-size (b ∷ bs) buffer bits few = elim (Bool-cases (leb 11 (bits + 8))) [
  | inr less ↦
      let short : bits + 8 ≤ 10 = ground arith in
      let ih = uint11_loop-size bs (bit_or buffer (b * 2 ^ bits % 2 ^ 32)) (bits + 8) short in
      rw less (omega (arith, ih.0), ih.1)
  | inl full ↦
      let long : 3 ≤ bits = ground arith in
      let v : ℕ = bit_or buffer (b * 2 ^ bits % 2 ^ 32) in
      let ih = uint11_loop-size bs (v / 2 ^ 11) (bits + 8 - 11) (omega arith) in
      rw full (omega (arith, ih.0), (omega (arith, bit_and_low 11 v), ih.1))
]

-- The packed values are below 2048, and as many as the bits of the bytes need.
pub to_uint11_array-size :
    (bs : List ℕ)
    → (length (to_uint11_array bs) ≡ (8 * length bs + 10) / 11)
      × All (λ v. v < 2048) (to_uint11_array bs)
unfolding to_uint11_array
to_uint11_array-size bs = let q = uint11_loop-size bs 0 0 (omega arith) in (omega (arith, q.0), q.1)
