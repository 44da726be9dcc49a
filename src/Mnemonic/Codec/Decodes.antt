-- ===== src/Mnemonic/Codec/Decodes.antt =====
-- Which texts decode, and to which key.
use falcon_vanity_generator.Base.{
  ℕ, zero, suc, ◌<◌, ◌&&◌, some, List, [], ◌∷◌, ◌++◌, length, take, get_or, All, ◌≡◌, refl, sym, ap,
  ap₂, ◌∙◌, inl, inr, arith, ◌==◌, Bool-cases, Option-cases, length-take, take-append_self,
  All-take, list_eq, list_eq_iff, ==_iff, some_inj,
}
use falcon_vanity_generator.Base.Results.{Result, ok, bind, ensure, collect, bind-eq-ok}
use falcon_vanity_generator.Base.Digits.{IsByte}
use falcon_vanity_generator.Base.Endian.{from_le}
use falcon_vanity_generator.Crates.{Crates}
use falcon_vanity_generator.Text.Words.{split_whitespace}
use falcon_vanity_generator.Mnemonic.{to_uint11_array, to_byte_array, byte_loop}
use falcon_vanity_generator.Mnemonic.Packing.{
  from_le11, to_uint11_array-value, to_uint11_array-size,
}
use falcon_vanity_generator.Mnemonic.Unpacking.{byte_loop-value, pad-value}
use falcon_vanity_generator.Mnemonic.Codec.Encodes.{
  spelled, checksum_word-some, key_to_mnemonic-Spelled,
}
use falcon_vanity_generator.Mnemonic.Codec.{
  MnemonicError, wrong_checksum, checksum_word, key_to_mnemonic, word_index, check_word,
  decode_words, mnemonic_to_key,
}
use falcon_vanity_generator.Mnemonic.Codec.Indices.{collect-below, collect-inj}

-- 11-bit values are the digits of the number they spell.
from_le11-inj :
    (us vs : List ℕ)
    → length us ≡ length vs
    → All (λ v. v < 2048) us
    → All (λ v. v < 2048) vs
    → from_le11 us ≡ from_le11 vs
    → us ≡ vs
unfolding from_le11
from_le11-inj [] [] n p q e = refl
from_le11-inj [] (v ∷ vs) n p q e = absurd (omega (arith, n))
from_le11-inj (u ∷ us) [] n p q e = absurd (omega (arith, n))
from_le11-inj (u ∷ us) (v ∷ vs) n p q e =
    let a = p.0 in
    let b = q.0 in
    ap₂ (λ c cs. c ∷ cs) (omega (arith, e))
      (from_le11-inj us vs (omega (arith, n)) p.1 q.1 (omega (arith, e)))

-- All but the last element, and the last.
take-get_or :
    {A : Type 0} (k : ℕ) (xs : List A) (d : A)
    → length xs ≡ suc k
    → take k xs ++ get_or xs k d ∷ [] ≡ xs
take-get_or k [] d e = absurd (omega (arith, e))
take-get_or zero (x ∷ []) d e = refl
take-get_or zero (x ∷ y ∷ xs) d e = absurd (omega (arith, e))
take-get_or (suc k) (x ∷ xs) d e = ap (λ ys. x ∷ ys) (take-get_or k xs d (omega (arith, e)))

-- 24 values that unpack to 33 bytes, the last of them 0, are the packing of the first 32.
packed-again :
    (vs : List ℕ)
    → length vs ≡ 24
    → All (λ v. v < 2048) vs
    → get_or (to_byte_array vs) 32 0 ≡ 0
    → (length (take 32 (to_byte_array vs)) ≡ 32)
      × All IsByte (take 32 (to_byte_array vs))
      × (to_uint11_array (take 32 (to_byte_array vs)) ≡ vs)
unfolding to_byte_array
packed-again vs n small zero_last =
    let (value, size, bytes) = byte_loop-value vs 0 0 (omega arith) (omega arith) small in
    let bs = byte_loop 0 0 vs in
    let key = take 32 bs in
    let len33 : length bs ≡ 33 = omega (arith, size) in
    let full : length key ≡ 32 = length-take 32 bs (omega arith) in
    let key_bytes : All IsByte key = All-take IsByte 32 bs bytes in
    let whole : key ++ 0 ∷ [] ≡ bs =
      ap (λ b. key ++ b ∷ []) (sym zero_last) ∙ take-get_or 32 bs 0 len33 in
    let (count, below) = to_uint11_array-size key in
    let number : from_le11 (to_uint11_array key) ≡ from_le11 vs =
      omega (arith, to_uint11_array-value key key_bytes, pad-value key, ap from_le whole, value) in
    (
      full,
      key_bytes,
      from_le11-inj (to_uint11_array key) vs (omega (arith, count)) below small number,
    )

-- What the steps of the decoder have found when it returns a key.
record Decoded (x : Crates) (words : List (List ℕ)) (key : List ℕ) : Type 0 where
  indices : List ℕ
  found : collect word_index (take 24 words) ≡ ok indices
  zero_last : get_or (to_byte_array indices) 32 0 ≡ 0
  first32 : take 32 (to_byte_array indices) ≡ key
  sum : checksum_word x key ≡ some (get_or words 24 [])

check_word-ok :
    (x : Crates) (bytes w key : List ℕ)
    → check_word x bytes w ≡ ok key
    → (bytes ≡ key) × (checksum_word x bytes ≡ some w)
unfolding check_word
check_word-ok x bytes w key h = elim (Option-cases (checksum_word x bytes)) [
  | inl e ↦ (let q = rw (e, check_word) at h in cc)
  | inr (c, e) ↦ elim (Bool-cases (list_eq c w)) [
    | inl same ↦
        (let q = rw (e, check_word, same) at h in
          let z : bytes ≡ key = cc in (z, e ∙ ap some ((list_eq_iff c w).0 same)))
    | inr other ↦ (let q = rw (e, check_word, other) at h in cc)
  ]
]

decode_words-Decoded :
    (x : Crates) (words : List (List ℕ)) (key : List ℕ)
    → decode_words x words ≡ ok key
    → Decoded x words key
unfolding decode_words
decode_words-Decoded x words key h =
    let (vs, found, more) = bind-eq-ok (collect word_index (take 24 words)) (rest x words) key h in
    let test = length (to_byte_array vs) == 33 && get_or (to_byte_array vs) 32 0 == 0 in
    elim (Bool-cases test) [
      | inr bad ↦ (let q = rw bad at more in cc)
      | inl good ↦
          let checked = rw good at more in
          let (first32, sum) =
            check_word-ok x (take 32 (to_byte_array vs)) (get_or words 24 []) key checked in
          record {
            indices = vs;
            found = found;
            zero_last = (==_iff (get_or (to_byte_array vs) 32 0) 0).0 (ground arith);
            first32 = first32;
            sum = ap (checksum_word x) (sym first32) ∙ sum;
          }
    ]
  where
    rest : Crates → List (List ℕ) → List ℕ → Result MnemonicError (List ℕ)
    rest x words indices =
        let bytes = to_byte_array indices in
        bind (ensure (length bytes == 33 && get_or bytes 32 0 == 0) wrong_checksum)
          (λ _. check_word x (take 32 bytes) (get_or words 24 []))

-- A text that decodes has 25 words, and they go through `decode_words`.
mnemonic_to_key-count :
    (x : Crates) (m key : List ℕ)
    → mnemonic_to_key x m ≡ ok key
    → (length (split_whitespace m) ≡ 25) × (decode_words x (split_whitespace m) ≡ ok key)
unfolding mnemonic_to_key
mnemonic_to_key-count x m key h = elim (Bool-cases (length (split_whitespace m) == 25)) [
  | inl all25 ↦ ((==_iff (length (split_whitespace m)) 25).0 all25, rw all25 at h)
  | inr bad ↦ (let q = rw bad at h in cc)
]

-- A text that the decoder accepts gives a key of 32 bytes, and its words are the words of that key's mnemonic.
pub key_to_mnemonic-mnemonic_to_key :
    (x : Crates) (m key : List ℕ)
    → mnemonic_to_key x m ≡ ok key
    → (length key ≡ 32)
      × All IsByte key
      × (canon : List ℕ) × (key_to_mnemonic x key ≡ some canon)
      × (split_whitespace canon ≡ split_whitespace m)
key_to_mnemonic-mnemonic_to_key x m key h =
    let (count, decoded) = mnemonic_to_key-count x m key h in
    let words = split_whitespace m in
    let d = decode_words-Decoded x words key decoded in
    let (below, n) = collect-below (take 24 words) d.indices d.found in
    let n24 : length d.indices ≡ 24 =
      omega (arith, n, length-take 24 words (omega (arith, count))) in
    let (full, bytes, packed) = packed-again d.indices n24 below d.zero_last in
    let again : to_uint11_array key ≡ d.indices = ap to_uint11_array (sym d.first32) ∙ packed in
    let s = spelled (to_uint11_array key) (to_uint11_array-size key).1 in
    let (v, c, sum, at) = checksum_word-some x key in
    let (same, splits) = key_to_mnemonic-Spelled x key c v s sum at in
    let c_last : c ≡ get_or words 24 [] = some_inj (sym sum ∙ d.sum) in
    let own : collect word_index s.words ≡ ok d.indices =
      ap (collect word_index)
        (sym (take-append_self s.words []) ∙ ap (λ k. take k (s.words ++ [])) s.count)
      ∙ s.indexed []
      ∙ ap ok again in
    let all24 : s.words ≡ take 24 words =
      collect-inj s.words (take 24 words) d.indices own d.found in
    (
      rw d.first32 at full,
      rw d.first32 at bytes,
      s.text ++ c,
      same,
      splits ∙ ap₂ (λ ws w. ws ++ w ∷ []) all24 c_last ∙ take-get_or 24 words [] count,
    )
