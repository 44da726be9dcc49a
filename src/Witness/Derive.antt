-- ===== src/Witness/Derive.antt =====
-- The derive command on stand-ins for the third-party code.
use falcon_vanity_generator.Base.{ℕ, false, none, some, List, ◌++◌, codes, ◌≡◌, refl, arith}
use falcon_vanity_generator.Base.Results.{ok}
use falcon_vanity_generator.Text.{is_whitespace, trim, trim_start, trim_end}
use falcon_vanity_generator.Text.Words.{split_whitespace, pieces, non_empty}
use falcon_vanity_generator.Text.Radix.{from_str_radix16, digits16, to_digit16, len_utf8, len_bytes}
use falcon_vanity_generator.Mnemonic.{to_uint11_array, uint11_loop}
use falcon_vanity_generator.Mnemonic.Wordlist.{wordlist_raw}
use falcon_vanity_generator.Mnemonic.Words.{wordlist}
use falcon_vanity_generator.Mnemonic.Codec.{key_to_mnemonic, data_words, checksum_word}
use falcon_vanity_generator.Classic.{from_seed, classic_public_key, address, classic_address}
use falcon_vanity_generator.Cli.ParseHex.{parse_hex, hex_pairs, hex_byte}
use falcon_vanity_generator.Cli.Args.{ed25519, DeriveArgs, is_f1}
use falcon_vanity_generator.Cli.Derive.{
  Shown, shown_classic, cmd_derive, entropy_arg, derive_entropy, derive_classic, with_mnemonic,
}
use falcon_vanity_generator.Cli.Derive.Again.{mnemonic_line, cmd_derive-mnemonic_line}
use falcon_vanity_generator.Cli.Derive.Hits.{IsRederived, attempt-IsRederived}
use falcon_vanity_generator.Witness.Demo.{demo, demo_falcon, digest, total}
use falcon_vanity_generator.Witness.Classic.{toy_ed25519}
use falcon_vanity_generator.Witness.Mnemonic.{replicate-IsByte, elite_key}
use falcon_vanity_generator.Witness.Search.{zeros, fronts, fronts-IsTargetSet, found, attempt_finds}

-- 31 zero bytes and a nine, with spaces around them.
abbrev hexed : DeriveArgs
hexed = record {
  scheme = ed25519;
  entropy_byte = 0;
  entropy_hex = some (codes "  00000000000000000000000000000000000000000000000000000000000000+9 ");
  mnemonic = none;
  salt = none;
}

abbrev eleven : List ℕ
eleven =
    codes "abandon abandon abandon abandon abandon abandon abandon abandon abandon abandon abandon "

abbrev elite_shown : Shown
elite_shown =
    shown_classic (eleven ++ eleven ++ codes "elite abandon genuine")
      (classic_public_key toy_ed25519 (from_seed elite_key)) (classic_address toy_ed25519 elite_key)

shows : cmd_derive demo demo_falcon toy_ed25519 hexed ≡ ok elite_shown
unfolding cmd_derive is_f1 entropy_arg parse_hex trim trim_start trim_end is_whitespace len_bytes
    len_utf8 hex_pairs hex_byte from_str_radix16 digits16 to_digit16 derive_entropy derive_classic
    with_mnemonic key_to_mnemonic data_words to_uint11_array uint11_loop wordlist wordlist_raw
    split_whitespace pieces non_empty checksum_word demo digest total from_seed classic_public_key
    address classic_address
shows = refl

cmd_derive-mnemonic_line_example :
    cmd_derive demo demo_falcon toy_ed25519
      (record hexed { mnemonic = some (mnemonic_line elite_shown) })
    ≡ ok elite_shown
cmd_derive-mnemonic_line_example =
    cmd_derive-mnemonic_line demo demo_falcon toy_ed25519 hexed elite_shown (omega arith) shows

attempt-IsRederived_example : IsRederived demo demo_falcon toy_ed25519 false found
attempt-IsRederived_example =
    attempt-IsRederived demo demo_falcon toy_ed25519 (λ n. fronts) (λ n. fronts-IsTargetSet) false 5
      zeros found refl (replicate-IsByte 32 0 (omega arith)) attempt_finds
