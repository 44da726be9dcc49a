-- ===== src/Cli/ParseHex.antt =====
-- crates/pq-vanity/src/main.rs: `parse_hex`. `panicked` is a slice that ends inside a character.
pub mod Accepts
use falcon_vanity_generator.Base.{
  ℕ, ◌+◌, ◌*◌, ◌/◌, ◌%◌, ◌^◌, ◌≤◌, ◌<◌, bit_and, true, false, ◌&&◌, Option, none, some, List, [],
  ◌∷◌, length, All, ◌≡◌, refl, ap, ◌∙◌, ◌≢◌, inl, inr, arith, ltb, leb, ◌==◌, if◌then◌else◌,
  Bool-cases, Option-cases, ◌>>=◌, ==_iff,
}
use mathlib.Core.Path.{subst}
use falcon_vanity_generator.Base.Bits.{bit_and_low}
use falcon_vanity_generator.Base.Digits.{IsByte}
use falcon_vanity_generator.Base.Results.{Result, ok, err, bind, ensure, bind-eq-ok}
use falcon_vanity_generator.Text.{trim, is_whitespace}
use falcon_vanity_generator.Text.Words.{no_whitespace}
use falcon_vanity_generator.Text.Trims.{All-trim, trim-no_whitespace}
use falcon_vanity_generator.Text.Radix.{
  from_str_radix16, len_utf8, len_bytes, to_digit16, from_str_radix16-below,
  from_str_radix16-digits,
}
use falcon_vanity_generator.Cli.{from_digit, hex_lower}

pub data HexError : Type 0 where
  odd_length bad_hex panicked : HexError

unfoldable pub hex_byte : Option ℕ → Result HexError ℕ
hex_byte none = err bad_hex
hex_byte (some b) = ok b

-- The slices `&s[i..i + 2]` of bytes, in order: a character of two bytes, or two of one byte.
unfoldable pub hex_pairs : List ℕ → Result HexError (List ℕ)
hex_pairs [] = ok []
hex_pairs (c ∷ []) =
    if len_utf8 c == 2
    then bind (hex_byte (from_str_radix16 (c ∷ []))) (λ b. ok (b ∷ []))
    else err panicked
hex_pairs (c ∷ d ∷ cs) =
    let rest = hex_pairs cs in
    let tail = hex_pairs (d ∷ cs) in
    if len_utf8 c == 2
    then bind (hex_byte (from_str_radix16 (c ∷ []))) (λ b. bind tail (λ bs. ok (b ∷ bs)))
    else if len_utf8 c == 1 && len_utf8 d == 1
    then bind (hex_byte (from_str_radix16 (c ∷ d ∷ []))) (λ b. bind rest (λ bs. ok (b ∷ bs)))
    else err panicked

unfoldable pub parse_hex : List ℕ → Result HexError (List ℕ)
parse_hex arg =
    let s = trim arg in bind (ensure (len_bytes s % 2 == 0) odd_length) (λ _. hex_pairs s)

-- A character that `hex_lower` writes.
record IsHexDigit (v c : ℕ) : Type 0 where
  value : to_digit16 c ≡ some v
  ascii : len_utf8 c ≡ 1
  visible : is_whitespace c ≡ false
  high : 48 ≤ c

from_digit-IsHexDigit : (v : ℕ) → v < 16 → (c : ℕ) × (from_digit v ≡ some c) × IsHexDigit v c
unfolding from_digit to_digit16 len_utf8 is_whitespace
from_digit-IsHexDigit v lt = elim (Bool-cases (ltb v 10)) [
  | inl low ↦
      let lower : (leb 48 (48 + v) ≡ true) × (leb (48 + v) 57 ≡ true) =
        (ground arith, ground arith) in
      (
        48 + v,
        rw low refl,
        record {
          value = rw (lower.0, lower.1) (ap some (omega arith));
          ascii = ground arith;
          visible = ground arith;
          high = omega arith;
        },
      )
  | inr high ↦
      let below : ltb v 16 ≡ true = ground arith in
      let above : (leb 48 (87 + v) && leb (87 + v) 57) ≡ false = ground arith in
      let lower : (leb 97 (87 + v) ≡ true) × (leb (87 + v) 102 ≡ true) =
        (ground arith, ground arith) in
      (
        87 + v,
        rw (high, below) refl,
        record {
          value = rw (above, lower.0, lower.1) (ap some (omega arith));
          ascii = ground arith;
          visible = ground arith;
          high = omega arith;
        },
      )
]

-- What the digits of some bytes are to the parser.
record IsHexText (bs s : List ℕ) : Type 0 where
  spelled : hex_lower bs ≡ some s
  pairs : hex_pairs s ≡ ok bs
  visible : no_whitespace s ≡ true
  size : len_bytes s ≡ 2 * length bs

hex_lower-IsHexText : (bs : List ℕ) → All IsByte bs → (s : List ℕ) × IsHexText bs s
unfolding hex_lower hex_pairs hex_byte len_bytes no_whitespace
hex_lower-IsHexText [] h =
    ([], record { spelled = refl; pairs = refl; visible = refl; size = refl })
hex_lower-IsHexText (b ∷ bs) h =
    let lt = h.0 in
    let (s, t) = hex_lower-IsHexText bs h.1 in
    let (c, ec, hc) = from_digit-IsHexDigit (b / 2 ^ 4) (omega arith) in
    let (d, ed, hd) = from_digit-IsHexDigit (bit_and b 0xf) (omega (arith, bit_and_low 4 b)) in
    let byte : from_str_radix16 (c ∷ d ∷ []) ≡ some b =
      from_str_radix16-digits c d (b / 2 ^ 4) (bit_and b 0xf) hc.value hd.value (omega arith)
        (omega (arith, bit_and_low 4 b)) hc.high
      ∙ ap some (omega (arith, bit_and_low 4 b)) in
    (
      c ∷ d ∷ s,
      record {
        spelled = rw (ec, ed, t.spelled, ◌>>=◌) refl;
        pairs = rw (hc.ascii, hd.ascii, byte, t.pairs) refl;
        visible = rw (hc.visible, hd.visible) t.visible;
        size = omega (arith, hc.ascii, hd.ascii, t.size);
      },
    )

-- `parse_hex` reads back what `hex_lower` writes, which does not panic on bytes.
pub parse_hex-hex_lower :
    (bs : List ℕ) → All IsByte bs → (s : List ℕ) × (hex_lower bs ≡ some s) × (parse_hex s ≡ ok bs)
unfolding parse_hex
parse_hex-hex_lower bs h =
    let (s, t) = hex_lower-IsHexText bs h in
    let even : len_bytes s % 2 ≡ 0 = omega (arith, t.size) in
    (s, t.spelled, rw (trim-no_whitespace s t.visible, even) t.pairs)
