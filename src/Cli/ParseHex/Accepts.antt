-- ===== src/Cli/ParseHex/Accepts.antt =====
-- What `parse_hex` accepts.
use falcon_vanity_generator.Base.{
  ℕ, ◌+◌, ◌*◌, ◌%◌, ◌<◌, true, ◌&&◌, Option, none, some, List, [], ◌∷◌, length, All, ◌≡◌, refl, ◌≢◌,
  inl, inr, arith, ltb, ◌==◌, Bool-cases, Option-cases, ==_iff,
}
use mathlib.Core.Path.{subst}
use falcon_vanity_generator.Base.Digits.{IsByte}
use falcon_vanity_generator.Base.Results.{Result, ok, err, bind, bind-eq-ok}
use falcon_vanity_generator.Text.{trim}
use falcon_vanity_generator.Text.Trims.{All-trim}
use falcon_vanity_generator.Text.Radix.{
  from_str_radix16, len_utf8, len_bytes, from_str_radix16-below,
}
use falcon_vanity_generator.Cli.ParseHex.{HexError, panicked, hex_byte, hex_pairs, parse_hex}

hex_byte-IsByte : (s : List ℕ) (b : ℕ) → hex_byte (from_str_radix16 s) ≡ ok b → IsByte b
unfolding hex_byte
hex_byte-IsByte s b h = elim (Option-cases (from_str_radix16 s)) [
  | inl e ↦ (let q = rw (e, hex_byte) at h in cc)
  | inr (v, e) ↦
      let q = rw (e, hex_byte) at h in
      let z : v ≡ b = cc in let small = from_str_radix16-below s v e in omega arith
]

-- What a chain of two steps has read when it succeeds.
two_steps :
    (r : Result HexError ℕ) (rest : Result HexError (List ℕ)) (bs : List ℕ)
    → bind r (λ b. bind rest (λ more. ok (b ∷ more))) ≡ ok bs
    → (b : ℕ) × (more : List ℕ) × (r ≡ ok b) × (rest ≡ ok more) × (b ∷ more ≡ bs)
two_steps (err e) rest bs h = cc
two_steps (ok b) (err e) bs h = cc
two_steps (ok b) (ok more) bs h = (b, more, refl, refl, cc)

-- One more byte, for two more bytes of text.
one_more :
    (b n m : ℕ) (more bs : List ℕ)
    → IsByte b
    → All IsByte more × (2 * length more ≡ n)
    → b ∷ more ≡ bs
    → 2 + n ≡ m
    → All IsByte bs × (2 * length bs ≡ m)
one_more b n m more bs byte (bytes, size) z e =
    let both : All IsByte (b ∷ more) × (2 * length (b ∷ more) ≡ m) =
      ((byte, bytes), omega (arith, size)) in
    subst (λ bs. All IsByte bs × (2 * length bs ≡ m)) z both

hex_pairs-ok : (s bs : List ℕ) → hex_pairs s ≡ ok bs → All IsByte bs × (2 * length bs ≡ len_bytes s)
unfolding hex_pairs len_bytes
hex_pairs-ok [] bs h =
    let z : [] ≡ bs = cc in subst (λ bs. All IsByte bs × (2 * length bs ≡ 0)) z (tt, refl)
hex_pairs-ok (c ∷ []) bs h = elim (Bool-cases (len_utf8 c == 2)) [
  | inr other ↦ (let q = rw other at h in cc)
  | inl two ↦
      let (b, byte, z) =
        bind-eq-ok (hex_byte (from_str_radix16 (c ∷ []))) (λ b. ok (b ∷ [])) bs (rw two at h) in
      let w : b ∷ [] ≡ bs = cc in
      one_more b 0 (len_utf8 c + 0) [] bs (hex_byte-IsByte (c ∷ []) b byte) (tt, refl) w
        (omega (arith, (==_iff (len_utf8 c) 2).0 two))
]
hex_pairs-ok (c ∷ d ∷ cs) bs h = elim (Bool-cases (len_utf8 c == 2)) [
  | inl two ↦
      let (b, more, byte, rest, z) =
        two_steps (hex_byte (from_str_radix16 (c ∷ []))) (hex_pairs (d ∷ cs)) bs (rw two at h) in
      one_more b (len_utf8 d + len_bytes cs) (len_utf8 c + (len_utf8 d + len_bytes cs)) more bs
        (hex_byte-IsByte (c ∷ []) b byte) (hex_pairs-ok (d ∷ cs) more rest) z
        (omega (arith, (==_iff (len_utf8 c) 2).0 two))
  | inr other ↦ elim (Bool-cases (len_utf8 c == 1 && len_utf8 d == 1)) [
    | inr bad ↦ (let q = rw (other, bad) at h in cc)
    | inl ones ↦
        let (b, more, byte, rest, z) =
          two_steps (hex_byte (from_str_radix16 (c ∷ d ∷ []))) (hex_pairs cs) bs
            (rw (other, ones) at h) in
        let one_c = (==_iff (len_utf8 c) 1).0 (ground arith) in
        let one_d = (==_iff (len_utf8 d) 1).0 (ground arith) in
        one_more b (len_bytes cs) (len_utf8 c + (len_utf8 d + len_bytes cs)) more bs
          (hex_byte-IsByte (c ∷ d ∷ []) b byte) (hex_pairs-ok cs more rest) z
          (omega (arith, one_c, one_d))
  ]
]

-- What is read are bytes, one for every two bytes of the trimmed text.
pub parse_hex-size :
    (s bs : List ℕ) → parse_hex s ≡ ok bs → All IsByte bs × (2 * length bs ≡ len_bytes (trim s))
unfolding parse_hex
parse_hex-size s bs h = elim (Bool-cases (len_bytes (trim s) % 2 == 0)) [
  | inl even ↦ hex_pairs-ok (trim s) bs (rw even at h)
  | inr odd ↦ (let q = rw odd at h in cc)
]

hex_pairs-ascii :
    (s : List ℕ) → All (λ c. c < 128) s → len_bytes s % 2 ≡ 0 → hex_pairs s ≢ err panicked
unfolding hex_pairs len_bytes len_utf8 hex_byte
hex_pairs-ascii [] small even h = cc
hex_pairs-ascii (c ∷ []) small even h =
    let lt = small.0 in
    let one : ltb c 0x80 ≡ true = ground arith in
    let odd = rw one at even in absurd (omega (arith, odd))
hex_pairs-ascii (c ∷ d ∷ cs) small even h =
    let lt_c = small.0 in
    let lt_d = small.1.0 in
    let one_c : ltb c 0x80 ≡ true = ground arith in
    let one_d : ltb d 0x80 ≡ true = ground arith in
    let rest =
      hex_pairs-ascii cs small.1.1 (let q = rw (one_c, one_d) at even in omega (arith, q)) in
    chained (from_str_radix16 (c ∷ d ∷ [])) (hex_pairs cs) rest (rw (one_c, one_d) at h)
  where
    chained :
        (r : Option ℕ) (rest : Result HexError (List ℕ))
        → rest ≢ err panicked
        → bind (hex_byte r) (λ b. bind rest (λ more. ok (b ∷ more))) ≢ err panicked
    chained none rest good q = cc
    chained (some b) (ok more) good q = cc
    chained (some b) (err e) good q = good q

-- On ASCII no slice ends inside a character.
pub parse_hex-ascii : (s : List ℕ) → All (λ c. c < 128) s → parse_hex s ≢ err panicked
unfolding parse_hex
parse_hex-ascii s small h = elim (Bool-cases (len_bytes (trim s) % 2 == 0)) [
  | inl even ↦
      hex_pairs-ascii (trim s) (All-trim (λ c. c < 128) s small)
        ((==_iff (len_bytes (trim s) % 2) 0).0 even) (rw even at h)
  | inr odd ↦ (let q = rw odd at h in cc)
]
