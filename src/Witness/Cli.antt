-- ===== src/Witness/Cli.antt =====
-- Hex texts of a few bytes.
use falcon_vanity_generator.Base.{ℕ, ◌*◌, some, List, [], ◌∷◌, length, ◌≡◌, arith}
use falcon_vanity_generator.Cli.{hex_lower}
use falcon_vanity_generator.Base.{All, codes, ◌≢◌, refl}
use falcon_vanity_generator.Base.Digits.{IsByte}
use falcon_vanity_generator.Base.Results.{ok, err}
use falcon_vanity_generator.Text.{trim, trim_start, trim_end, is_whitespace}
use falcon_vanity_generator.Text.Radix.{len_bytes, len_utf8, from_str_radix16, digits16, to_digit16}
use falcon_vanity_generator.Cli.ParseHex.{
  parse_hex, hex_pairs, hex_byte, panicked, parse_hex-hex_lower,
}
use falcon_vanity_generator.Cli.ParseHex.Accepts.{parse_hex-size, parse_hex-ascii}

abbrev three_bytes : List ℕ
three_bytes = 0 ∷ 171 ∷ 255 ∷ []

parse_hex-hex_lower_example :
    (s : List ℕ) × (hex_lower three_bytes ≡ some s) × (parse_hex s ≡ ok three_bytes)
parse_hex-hex_lower_example =
    parse_hex-hex_lower three_bytes (omega arith, (omega arith, (omega arith, tt)))

-- A plus sign may stand for the first digit of a pair.
signed : parse_hex (codes " +fA0 ") ≡ ok (15 ∷ 160 ∷ [])
unfolding parse_hex trim trim_start trim_end is_whitespace len_bytes len_utf8 hex_pairs hex_byte
    from_str_radix16 digits16 to_digit16
signed = refl

parse_hex-size_example :
    All IsByte (15 ∷ 160 ∷ [])
    × (2 * length {A = ℕ} (15 ∷ 160 ∷ []) ≡ len_bytes (trim (codes " +fA0 ")))
parse_hex-size_example = parse_hex-size (codes " +fA0 ") (15 ∷ 160 ∷ []) signed

-- `a`, a character of two bytes, and `1`: a slice ends inside the character.
not_ascii : parse_hex (97 ∷ 233 ∷ 49 ∷ []) ≡ err panicked
unfolding parse_hex trim trim_start trim_end is_whitespace len_bytes len_utf8 hex_pairs hex_byte
    from_str_radix16 digits16 to_digit16
not_ascii = refl

parse_hex-ascii_example : parse_hex (codes "a-1f") ≢ err panicked
parse_hex-ascii_example =
    parse_hex-ascii (codes "a-1f") (omega arith, (omega arith, (omega arith, (omega arith, tt))))
