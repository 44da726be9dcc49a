-- ===== src/Mnemonic/Unpacking.antt =====
-- The way back from 11-bit values to bytes, and the round trip.
use falcon_vanity_generator.Base.{
  ℕ, zero, suc, ◌+◌, ◌-◌, ◌*◌, ◌/◌, ◌%◌, ◌^◌, ◌≤◌, ◌<◌, bit_or, List, [], ◌∷◌, ◌++◌, length, All,
  ◌≡◌, sym, ap, ap₂, ◌∙◌, ◌≢◌, inl, inr, arith, leb, ◌==◌, Bool-cases, length-append, All-append,
  ==_iff,
}
use native.Mathlib.Nat.{pow-le-pow_right}
use falcon_vanity_generator.Base.Bits.{bit_and_low, pow-add}
use falcon_vanity_generator.Base.Digits.{IsByte}
use falcon_vanity_generator.Base.Endian.{from_le, to_le, to_le-from_le}
use falcon_vanity_generator.Mnemonic.{to_uint11_array, drain, byte_loop, to_byte_array}
use falcon_vanity_generator.Mnemonic.Packing.{
  from_le11, joined, scaled, to_uint11_array-value, to_uint11_array-size,
}

-- Draining leaves fewer than 8 bits, and what follows it continues the number.
record IsDrained (buffer bits : ℕ) (r : List ℕ × ℕ × ℕ) : Type 0 where
  few : r.2 < 8
  small : r.1 < 2 ^ r.2
  bytes : All IsByte r.0
  size : 8 * length r.0 + r.2 ≡ bits
  spelled :
      (ws : List ℕ) (X : ℕ)
      → from_le ws ≡ r.1 + 2 ^ r.2 * X
      → from_le (r.0 ++ ws) ≡ buffer + 2 ^ bits * X

drain-IsDrained :
    (fuel buffer bits : ℕ)
    → bits < fuel
    → buffer < 2 ^ bits
    → IsDrained buffer bits (drain fuel buffer bits)
unfolding drain from_le
drain-IsDrained zero buffer bits enough small = absurd (omega arith)
drain-IsDrained (suc fuel) buffer bits enough small = elim (Bool-cases (leb 8 bits)) [
  | inr less ↦ rw less (record {
    few = ground arith;
    small = small;
    bytes = tt;
    size = omega arith;
    spelled = λ ws X e. e;
  })
  | inl more ↦
      let long : 8 ≤ bits = ground arith in
      let pow : 256 * 2 ^ (bits - 8) ≡ 2 ^ bits = omega (
        arith,
        pow-add 2 (bits - 8) 8,
        ap (λ (k : ℕ). 2 ^ k) {x = bits - 8 + 8} {y = bits} (omega arith),
      ) in
      let ih = drain-IsDrained fuel (buffer / 2 ^ 8) (bits - 8) (omega arith) (omega arith) in
      rw more (record {
        few = ih.few;
        small = ih.small;
        bytes = (omega (arith, bit_and_low 8 buffer), ih.bytes);
        size = omega (arith, ih.size);
        spelled = λ ws X e.
            omega (arith, ih.spelled ws X e, bit_and_low 8 buffer, ap (λ (t : ℕ). t * X) pow);
      })
]

pub byte_loop-value :
    (vs : List ℕ) (buffer bits : ℕ)
    → buffer < 2 ^ bits
    → bits < 8
    → All (λ v. v < 2048) vs
    → (from_le (byte_loop buffer bits vs) ≡ buffer + 2 ^ bits * from_le11 vs)
      × (length (byte_loop buffer bits vs) ≡ (bits + 11 * length vs + 7) / 8)
      × All IsByte (byte_loop buffer bits vs)
unfolding byte_loop from_le from_le11
byte_loop-value [] buffer bits small few ok_vs = elim (Bool-cases (bits == 0)) [
  | inl empty ↦
      let e : bits ≡ 0 = (==_iff bits 0).0 empty in
      let z : buffer < 1 = rw e at small in rw empty (omega arith, omega arith, tt)
  | inr some_bits ↦
      let pos : bits ≢ 0 = λ e. cc (some_bits, (==_iff bits 0).1 e) in
      let top = pow-le-pow_right {n = 2} (omega arith) {i = bits} {j = 7} (omega arith) in
      rw some_bits (omega (arith, top), omega arith, (omega arith, tt))
]
byte_loop-value (v ∷ vs) buffer bits small few ok_vs =
    let ih = byte_loop-value vs r.1 r.2 d.small d.few ok_vs.1 in
    (
      d.spelled (byte_loop r.1 r.2 vs) (from_le11 vs) ih.0
          ∙ omega (arith, w_eq, ap (λ (t : ℕ). t * from_le11 vs) pow),
      omega (arith, length-append r.0 (byte_loop r.1 r.2 vs), d.size, ih.1),
      All-append IsByte r.0 (byte_loop r.1 r.2 vs) d.bytes ih.2,
    )
  where
    w : ℕ
    w = bit_or buffer (v * 2 ^ bits % 2 ^ 32)

    w_eq : w ≡ v * 2 ^ bits + buffer
    w_eq = joined buffer bits v small (omega arith) ok_vs.0

    pow : 2 ^ (bits + 11) ≡ 2048 * 2 ^ bits
    pow = omega (arith, pow-add 2 bits 11)

    r : List ℕ × ℕ × ℕ
    r = drain (bits + 12) w (bits + 11)

    d : IsDrained w (bits + 11) r
    d =
        drain-IsDrained (bits + 12) w (bits + 11) (omega arith)
          (omega (arith, w_eq, pow, scaled (2 ^ bits) v buffer 2048 ok_vs.0 small))

pub pad-value : (bs : List ℕ) → from_le (bs ++ 0 ∷ []) ≡ from_le bs
unfolding from_le
pad-value [] = omega arith
pad-value (b ∷ bs) = omega (arith, pad-value bs)

-- Unpacking what was packed gives the bytes back, and one zero byte when the bits do not come out
-- even: for the 32 bytes of a key, the 33 bytes that the decoder expects.
pub to_byte_array-to_uint11_array :
    (key : List ℕ)
    → length key ≡ 32
    → All IsByte key
    → to_byte_array (to_uint11_array key) ≡ key ++ 0 ∷ []
unfolding to_byte_array
to_byte_array-to_uint11_array key full bytes =
    let (len, small) = to_uint11_array-size key in
    let (same, size, ok_out) =
      byte_loop-value (to_uint11_array key) 0 0 (omega arith) (omega arith) small in
    let len33 : length (byte_loop 0 0 (to_uint11_array key)) ≡ 33 = omega arith in
    let padded33 : length (key ++ 0 ∷ []) ≡ 33 = omega (arith, length-append key (0 ∷ [])) in
    let padded_bytes : All IsByte (key ++ 0 ∷ []) =
      All-append IsByte key (0 ∷ []) bytes (omega arith, tt) in
    let value_out : from_le (byte_loop 0 0 (to_uint11_array key)) ≡ from_le (key ++ 0 ∷ []) =
      omega (arith, same, to_uint11_array-value key bytes, pad-value key) in
    sym (to_le-from_le (byte_loop 0 0 (to_uint11_array key)) ok_out)
    ∙ ap₂ to_le (len33 ∙ sym padded33) value_out
    ∙ to_le-from_le (key ++ 0 ∷ []) padded_bytes
