-- ===== src/Witness/Mnemonic.antt =====
-- The packing of one key.
use falcon_vanity_generator.Base.{
  ℕ, zero, suc, ◌<◌, List, [], ◌∷◌, ◌++◌, length, replicate, All, ◌≡◌, refl, arith, All-append,
}
use falcon_vanity_generator.Base.Digits.{IsByte}
use falcon_vanity_generator.Mnemonic.{to_uint11_array, to_byte_array, uint11_loop, byte_loop, drain}
use falcon_vanity_generator.Base.{codes, some, list_eq}
use falcon_vanity_generator.Base.Results.{ok, collect}
use falcon_vanity_generator.Text.{is_whitespace}
use falcon_vanity_generator.Text.Words.{split_whitespace, pieces, non_empty}
use falcon_vanity_generator.Mnemonic.Wordlist.{wordlist_raw}
use falcon_vanity_generator.Mnemonic.Words.{wordlist, position}
use falcon_vanity_generator.Mnemonic.Codec.{
  key_to_mnemonic, mnemonic_to_key, decode_words, word_index, check_word, checksum_word,
}
use falcon_vanity_generator.Mnemonic.Codec.Encodes.{mnemonic_to_key-key_to_mnemonic}
use falcon_vanity_generator.Mnemonic.Codec.Decodes.{key_to_mnemonic-mnemonic_to_key}
use falcon_vanity_generator.Witness.Demo.{demo, digest, total}
use falcon_vanity_generator.Mnemonic.Unpacking.{to_byte_array-to_uint11_array}

abbrev key : List ℕ
key = replicate 16 255 ++ replicate 16 7

pub replicate-IsByte : (n v : ℕ) → v < 256 → All IsByte (replicate n v)
replicate-IsByte zero v h = tt
replicate-IsByte (suc n) v h = (h, replicate-IsByte n v h)

key-IsByte : All IsByte key
key-IsByte =
    All-append IsByte (replicate 16 255) (replicate 16 7) (replicate-IsByte 16 255 (omega arith))
      (replicate-IsByte 16 7 (omega arith))

to_byte_array-to_uint11_array_example : to_byte_array (to_uint11_array key) ≡ key ++ 0 ∷ []
to_byte_array-to_uint11_array_example = to_byte_array-to_uint11_array key refl key-IsByte

-- Three bytes of ones are two full values and two bits.
packed : to_uint11_array (255 ∷ 255 ∷ 255 ∷ []) ≡ 2047 ∷ 2047 ∷ 3 ∷ []
unfolding to_uint11_array uint11_loop
packed = refl

mnemonic_to_key-key_to_mnemonic_example :
    (m : List ℕ) × (key_to_mnemonic demo key ≡ some m)
    × (length (split_whitespace m) ≡ 25)
    × (mnemonic_to_key demo m ≡ ok key)
mnemonic_to_key-key_to_mnemonic_example = mnemonic_to_key-key_to_mnemonic demo key refl key-IsByte

abbrev pub elite_key : List ℕ
elite_key = replicate 31 0 ++ 9 ∷ []

abbrev eleven : List ℕ
eleven =
    codes
      "abandon abandon abandon abandon abandon abandon abandon abandon abandon abandon abandon  "

-- Its words with more spaces than the encoder writes.
abbrev spaced : List ℕ
spaced = codes " " ++ eleven ++ eleven ++ codes "elite abandon genuine "

decoded : mnemonic_to_key demo spaced ≡ ok elite_key
unfolding mnemonic_to_key split_whitespace pieces non_empty is_whitespace decode_words collect
    word_index position wordlist wordlist_raw to_byte_array byte_loop drain check_word checksum_word
    to_uint11_array uint11_loop demo digest total list_eq
decoded = refl

key_to_mnemonic-mnemonic_to_key_example :
    (length elite_key ≡ 32)
    × All IsByte elite_key
    × (canon : List ℕ) × (key_to_mnemonic demo elite_key ≡ some canon)
    × (split_whitespace canon ≡ split_whitespace spaced)
key_to_mnemonic-mnemonic_to_key_example =
    key_to_mnemonic-mnemonic_to_key demo spaced elite_key decoded
