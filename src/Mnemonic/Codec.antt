-- ===== src/Mnemonic/Codec.antt =====
-- crates/pq-core/src/mnemonic.rs: `checksum_word`, `key_to_mnemonic` and `mnemonic_to_key`.
pub mod Encodes
pub mod Indices
pub mod Decodes
use falcon_vanity_generator.Base.{
  ℕ, zero, suc, ◌+◌, ◌-◌, ◌*◌, ◌/◌, ◌%◌, ◌^◌, ◌≤◌, ◌<◌, bit_and, bit_or, bit_xor, Bool, true, false,
  not, ◌&&◌, ◌||◌, Option, none, some, List, [], ◌∷◌, ◌++◌, map, append-nil, append_assoc, String,
  codes, length, take, drop, get_elem?, get_or, set, replicate, All, ◌≡◌, refl, sym, ap, ap₂, ◌∙◌,
  ◌≢◌, ◌↔◌, ◌⊎◌, inl, inr, arith, ltb, leb, ◌==◌, if◌then◌else◌, ltb→lt, leb→le, Bool-cases,
  Option-cases, ◌>>=◌, is_some, length-append, take-append-drop, length-take, length-drop, take_all,
  take-take, take-append_le, take-append_self, drop-append_le, drop-append_self, drop-drop,
  length-replicate, All-append, All-take, All-drop, length-map, take-map, drop-map,
  get_or-get_elem?, starts_with, ends_with, list_eq, list_eq_iff, starts_with_iff, ends_with_iff,
  ends_with-nil, ==_iff, Bool_ext, some_inj, get_elem?-below, All-get,
}
use falcon_vanity_generator.Base.Results.{Result, ok, err, bind, ensure, collect}
use falcon_vanity_generator.Crates.{Crates}
use falcon_vanity_generator.Text.Words.{split_whitespace}
use falcon_vanity_generator.Mnemonic.{to_uint11_array, to_byte_array}
use falcon_vanity_generator.Mnemonic.Words.{wordlist, position}

-- The messages of the source; `panicked` is an index out of range.
pub data MnemonicError : Type 0 where
  word_count : ℕ → MnemonicError
  not_in_list : List ℕ → MnemonicError
  wrong_checksum panicked : MnemonicError

-- `wordlist()[to_uint11_array(&h[0..2])[0]]`; `none` is an index out of range.
unfoldable pub checksum_word : Crates → List ℕ → Option (List ℕ)
checksum_word x bytes =
    let h = x.sha512_256 bytes in get_elem? (to_uint11_array (take 2 h)) 0 >>= get_elem? wordlist

-- The loop over the data words, each with a space behind it.
unfoldable pub data_words : List ℕ → Option (List ℕ)
data_words [] = some []
data_words (v ∷ vs) =
    let rest = data_words vs in get_elem? wordlist v >>= λ w. rest >>= λ r. some (w ++ b' ' ∷ r)

unfoldable pub key_to_mnemonic : Crates → List ℕ → Option (List ℕ)
key_to_mnemonic x key =
    data_words (to_uint11_array key) >>= λ s. checksum_word x key >>= λ c. some (s ++ c)

unfoldable pub word_index : List ℕ → Result MnemonicError ℕ
word_index w = elim (position wordlist w) [ none ↦ err (not_in_list w) | some i ↦ ok i ]

-- The last test: `checksum_word(&key) != words[24]`.
unfoldable pub check_word : Crates → List ℕ → List ℕ → Result MnemonicError (List ℕ)
check_word x key w = elim (checksum_word x key) [
  | none ↦ err panicked
  | some c ↦ if not (list_eq c w) then err wrong_checksum else ok key
]

unfoldable pub decode_words : Crates → List (List ℕ) → Result MnemonicError (List ℕ)
decode_words x words = bind (collect word_index (take 24 words)) (λ indices.
    let bytes = to_byte_array indices in
    bind (ensure (length bytes == 33 && get_or bytes 32 0 == 0) wrong_checksum)
      (λ _. check_word x (take 32 bytes) (get_or words 24 [])))

unfoldable pub mnemonic_to_key : Crates → List ℕ → Result MnemonicError (List ℕ)
mnemonic_to_key x mnemonic =
    let words = split_whitespace mnemonic in
    bind (ensure (length words == 25) (word_count (length words))) (λ _. decode_words x words)
