-- ===== src/Targets.antt =====
-- crates/pq-vanity/src/targets.rs: one search target and its device form. Texts are lists of
-- characters; `none` is a panic (`unwrap` of a character that is not found, a shift too far).
pub mod Words
pub mod Device
pub mod Set
pub mod Parse
use falcon_vanity_generator.Base.{
  ℕ, zero, suc, ◌+◌, ◌-◌, ◌*◌, ◌/◌, ◌%◌, ◌^◌, ◌≤◌, ◌<◌, bit_and, bit_or, bit_xor, Bool, true, false,
  not, ◌&&◌, ◌||◌, Option, none, some, List, [], ◌∷◌, ◌++◌, map, append-nil, append_assoc, String,
  codes, length, take, drop, get_elem?, get_or, set, replicate, All, ◌≡◌, refl, sym, ap, ap₂, ◌∙◌,
  ◌≢◌, ◌↔◌, ◌⊎◌, inl, inr, arith, ltb, leb, ◌==◌, if◌then◌else◌, ltb→lt, leb→le, Bool-cases,
  Option-cases, ◌>>=◌, is_some, length-append, take-append-drop, length-take, length-drop, take_all,
  take-append_le, take-append_self, drop-append_le, drop-append_self, drop-drop, length-replicate,
  All-append, All-take, All-drop, length-map, take-map, drop-map, get_or-get_elem?, starts_with,
  ends_with, list_eq, list_eq_iff, starts_with_iff, ends_with_iff,
}
use falcon_vanity_generator.Base32.{base32_alphabet, find}

abbrev pub max_targets : ℕ
max_targets = 1024

abbrev pub gpu_max_prefix : ℕ
gpu_max_prefix = 12

abbrev pub gpu_max_suffix : ℕ
gpu_max_suffix = 13

abbrev pub last_chars : List ℕ
last_chars = codes "AEIMQUY4"

abbrev pub display_len : ℕ
display_len = 58

abbrev pub addr_only_chars : ℕ
addr_only_chars = 51

pub record Target : Type 0 where
  pub prefix : List ℕ
  pub suffix : List ℕ

-- `[pmask, pval, smask, sval]`
pub record DeviceWords : Type 0 where
  pub pmask : ℕ
  pub pval : ℕ
  pub smask : ℕ
  pub sval : ℕ

unfoldable pub matches_display : Target → List ℕ → Bool
matches_display t display = starts_with display t.prefix && ends_with display t.suffix

-- The closure `bits`: a fold over the bytes in a u128.
unfoldable pub pattern_bits : ℕ → List ℕ → Option ℕ
pattern_bits acc [] = some acc
pattern_bits acc (c ∷ cs) = do
  i ← find base32_alphabet c
  pattern_bits (bit_or (acc * 2 ^ 5 % 2 ^ 128) i) cs

-- `(pmask, pval)`; `64 - 5 * p` is a u32.
unfoldable pub prefix_words : List ℕ → Option (ℕ × ℕ)
prefix_words prefix =
    let p = length prefix in
    if p == 0
    then some (0, 0)
    else if ltb 64 (5 * p)
    then none
    else pattern_bits 0 prefix >>= λ b.
        some ((2 ^ 64 - 1) * 2 ^ (64 - 5 * p) % 2 ^ 64, b % 2 ^ 64 * 2 ^ (64 - 5 * p) % 2 ^ 64)

-- `(smask, sval)`
unfoldable pub suffix_words : List ℕ → Option (ℕ × ℕ)
suffix_words suffix =
    let s = length suffix in
    if s == 0
    then some (0, 0)
    else if leb 64 (5 * s - 2)
    then none
    else pattern_bits 0 suffix >>= λ b. some (2 ^ (5 * s - 2) - 1, b / 2 ^ 2 % 2 ^ 64)

unfoldable pub device_words : Target → Option DeviceWords
device_words t = prefix_words t.prefix >>= λ p. suffix_words t.suffix >>= λ s.
    some (record { pmask = p.0; pval = p.1; smask = s.0; sval = s.1 })

-- What the parser lets through (`check_chars`, and the test of the last character).
abbrev pub InAlphabet : ℕ → Type 0
InAlphabet c = is_some (find base32_alphabet c) ≡ true

unfoldable pub last_char? : List ℕ → Option ℕ
last_char? [] = none
last_char? (c ∷ []) = some c
last_char? (c ∷ d ∷ cs) = last_char? (d ∷ cs)

unfoldable pub ends_well : List ℕ → Bool
ends_well s = elim (last_char? s) [ none ↦ true | some c ↦ is_some (find last_chars c) ]

pub record IsTarget (t : Target) : Type 0 where
  pub prefix_chars : All InAlphabet t.prefix
  pub suffix_chars : All InAlphabet t.suffix
  pub suffix_ends : ends_well t.suffix ≡ true
  pub some_pattern : 1 ≤ length t.prefix + length t.suffix
  pub within_display : length t.prefix + length t.suffix ≤ display_len

abbrev pub FitsGpu : Target → Type 0
FitsGpu t = (length t.prefix ≤ gpu_max_prefix) × (length t.suffix ≤ gpu_max_suffix)
