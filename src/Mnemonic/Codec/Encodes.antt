-- ===== src/Mnemonic/Codec/Encodes.antt =====
-- Decoding the mnemonic of a key.
use falcon_vanity_generator.Base.{
  ℕ, zero, suc, ◌<◌, some, List, [], ◌∷◌, ◌++◌, append_assoc, length, take, get_elem?, get_or, All,
  ◌≡◌, refl, sym, ap, ◌∙◌, arith, length-append, length-take, take-append_self, list_eq_iff,
  get_elem?-below, All-get,
}
use falcon_vanity_generator.Base.Results.{ok, collect}
use falcon_vanity_generator.Base.Digits.{IsByte}
use falcon_vanity_generator.Crates.{Crates}
use falcon_vanity_generator.Text.Words.{
  split_whitespace, split_whitespace-append_space, split_whitespace-word,
}
use falcon_vanity_generator.Mnemonic.{to_uint11_array}
use falcon_vanity_generator.Mnemonic.Packing.{to_uint11_array-size}
use falcon_vanity_generator.Mnemonic.Unpacking.{to_byte_array-to_uint11_array}
use falcon_vanity_generator.Mnemonic.Words.{wordlist, position-get, get_elem?-is_word, wordlist_get}
use falcon_vanity_generator.Mnemonic.Codec.{
  checksum_word, data_words, key_to_mnemonic, word_index, check_word, decode_words, mnemonic_to_key,
}

-- The words at some indices.
pub record Spelled (vs : List ℕ) : Type 0 where
  pub words : List (List ℕ)
  pub text : List ℕ
  pub spells : data_words vs ≡ some text
  pub count : length words ≡ length vs
  pub indexed :
      (more : List (List ℕ)) → collect word_index (take (length vs) (words ++ more)) ≡ ok vs
  pub splits : (c : List ℕ) → split_whitespace (text ++ c) ≡ words ++ split_whitespace c

-- A value below 2048 has one word, and the word has the value as its index.
pub word_index-get : (w : List ℕ) (v : ℕ) → get_elem? wordlist v ≡ some w → word_index w ≡ ok v
unfolding word_index
word_index-get w v at = rw (position-get w v at, word_index) refl

pub spelled : (vs : List ℕ) → All (λ v. v < 2048) vs → Spelled vs
unfolding data_words collect word_index
spelled [] h = record {
  words = [];
  text = [];
  spells = refl;
  count = refl;
  indexed = λ more. refl;
  splits = λ c. refl;
}
spelled (v ∷ vs) h =
    let s = spelled vs h.1 in
    let (w, at) = wordlist_get v h.0 in
    record {
      words = w ∷ s.words;
      text = w ++ b' ' ∷ s.text;
      spells = rw (at, s.spells) refl;
      count = ap suc s.count;
      indexed = λ more. rw (word_index-get w v at, s.indexed more) refl;
      splits = λ c.
          ap split_whitespace (append_assoc w (b' ' ∷ s.text) c)
          ∙ split_whitespace-append_space w (s.text ++ c) (get_elem?-is_word w v at)
          ∙ ap (λ l. w ∷ l) (s.splits c);
    }

-- The checksum word is there, whatever is hashed.
pub checksum_word-some :
    (x : Crates) (bytes : List ℕ)
    → (v : ℕ) × (w : List ℕ) × (checksum_word x bytes ≡ some w) × (get_elem? wordlist v ≡ some w)
unfolding checksum_word
checksum_word-some x bytes =
    let h = x.sha512_256 bytes in
    let (size, small) = to_uint11_array-size (take 2 h) in
    let two = length-take 2 h (omega (arith, x.length-sha512_256 bytes)) in
    let (v, at) = get_elem?-below (to_uint11_array (take 2 h)) 0 (omega arith) in
    let (w, found) =
      wordlist_get v (All-get (λ v. v < 2048) (to_uint11_array (take 2 h)) 0 v small at) in
    (v, w, rw (at, found) refl, found)

-- The mnemonic of a key splits into the words of its 11-bit values and the checksum word.
pub key_to_mnemonic-Spelled :
    (x : Crates) (key c : List ℕ) (v : ℕ) (s : Spelled (to_uint11_array key))
    → checksum_word x key ≡ some c
    → get_elem? wordlist v ≡ some c
    → (key_to_mnemonic x key ≡ some (s.text ++ c))
      × (split_whitespace (s.text ++ c) ≡ s.words ++ c ∷ [])
unfolding key_to_mnemonic
key_to_mnemonic-Spelled x key c v s sum at = (
  rw (s.spells, sum) refl,
  s.splits c ∙ ap (λ l. s.words ++ l) (split_whitespace-word c (get_elem?-is_word c v at)),
)

get_or-append_self :
    {A : Type 0} (xs : List A) (y d : A) (n : ℕ) → length xs ≡ n → get_or (xs ++ y ∷ []) n d ≡ y
get_or-append_self [] y d zero e = refl
get_or-append_self [] y d (suc n) e = absurd (omega (arith, e))
get_or-append_self (x ∷ xs) y d zero e = absurd (omega (arith, e))
get_or-append_self (x ∷ xs) y d (suc n) e = get_or-append_self xs y d n (omega (arith, e))

check_word-same :
    (x : Crates) (key c : List ℕ) → checksum_word x key ≡ some c → check_word x key c ≡ ok key
unfolding check_word
check_word-same x key c sum = rw (sum, check_word, (list_eq_iff c c).1 refl) refl

-- With 25 words the decoder goes on.
mnemonic_to_key-words :
    (x : Crates) (m : List ℕ)
    → length (split_whitespace m) ≡ 25
    → mnemonic_to_key x m ≡ decode_words x (split_whitespace m)
unfolding mnemonic_to_key
mnemonic_to_key-words x m count = rw count refl

-- Decoding a text that splits into the words of a key and its checksum word.
decode_words-Spelled :
    (x : Crates) (key c : List ℕ) (s : Spelled (to_uint11_array key))
    → length key ≡ 32
    → All IsByte key
    → checksum_word x key ≡ some c
    → decode_words x (s.words ++ c ∷ []) ≡ ok key
unfolding decode_words
decode_words-Spelled x key c s full bytes sum =
    let n : length (to_uint11_array key) ≡ 24 = omega (arith, (to_uint11_array-size key).0) in
    let indices : collect word_index (take 24 (s.words ++ c ∷ [])) ≡ ok (to_uint11_array key) =
      rw n at s.indexed (c ∷ []) in
    let last : get_or (s.words ++ c ∷ []) 24 [] ≡ c =
      get_or-append_self s.words c [] 24 (s.count ∙ n) in
    let key33 = to_byte_array-to_uint11_array key full bytes in
    let len33 : length (key ++ 0 ∷ []) ≡ 33 = omega (arith, length-append key (0 ∷ [])) in
    let zero33 : get_or (key ++ 0 ∷ []) 32 0 ≡ 0 = get_or-append_self key 0 0 32 full in
    let key32 : take 32 (key ++ 0 ∷ []) ≡ key =
      ap (λ n. take n (key ++ 0 ∷ [])) (sym full) ∙ take-append_self key (0 ∷ []) in
    let checked : check_word x key c ≡ ok key = check_word-same x key c sum in
    rw (indices, key33, len33, zero33, key32, last) checked

-- For a key of 32 bytes there is a mnemonic; it has 25 words, and decoding it gives the key.
pub mnemonic_to_key-key_to_mnemonic :
    (x : Crates) (key : List ℕ)
    → length key ≡ 32
    → All IsByte key
    → (m : List ℕ) × (key_to_mnemonic x key ≡ some m)
      × (length (split_whitespace m) ≡ 25)
      × (mnemonic_to_key x m ≡ ok key)
mnemonic_to_key-key_to_mnemonic x key full bytes =
    let (size, small) = to_uint11_array-size key in
    let s = spelled (to_uint11_array key) small in
    let (v, c, sum, at) = checksum_word-some x key in
    let (same, splits) = key_to_mnemonic-Spelled x key c v s sum at in
    let count : length (split_whitespace (s.text ++ c)) ≡ 25 =
      ap length splits ∙ omega (arith, length-append s.words (c ∷ []), s.count) in
    (
      s.text ++ c,
      same,
      count,
      mnemonic_to_key-words x (s.text ++ c) count
          ∙ ap (decode_words x) splits
          ∙ decode_words-Spelled x key c s full bytes sum,
    )
