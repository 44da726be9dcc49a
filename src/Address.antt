-- ===== src/Address.antt =====
-- crates/pq-core/src/address.rs: addresses, their display form, and the salt scan.
pub mod Salt
pub mod Display
use falcon_vanity_generator.Base.{
  ℕ, zero, suc, ◌+◌, ◌-◌, ◌*◌, ◌/◌, ◌%◌, ◌^◌, ◌≤◌, ◌<◌, bit_and, bit_or, bit_xor, Bool, true, false,
  not, ◌&&◌, ◌||◌, Option, none, some, List, [], ◌∷◌, ◌++◌, map, append-nil, append_assoc, String,
  codes, length, take, drop, get_elem?, get_or, set, replicate, All, ◌≡◌, refl, sym, ap, ap₂, ◌∙◌,
  ◌≢◌, ◌↔◌, ◌⊎◌, inl, inr, arith, ltb, leb, ◌==◌, if◌then◌else◌, ltb→lt, leb→le, Bool-cases,
  Option-cases, ◌>>=◌, is_some, length-append, take-append-drop, length-take, length-drop, take_all,
  take-append_le, take-append_self, drop-append_le, drop-append_self, drop-drop, length-replicate,
  All-append, All-take, All-drop, length-map, take-map, drop-map, get_or-get_elem?, starts_with,
  ends_with, list_eq, list_eq_iff, starts_with_iff, ends_with_iff,
}
use falcon_vanity_generator.Base.Digits.{IsByte}
use falcon_vanity_generator.Crates.{Crates}

abbrev pub entropy_size : ℕ
entropy_size = 32

abbrev pub checksum_len : ℕ
checksum_len = 4

abbrev pub addr_len : ℕ
addr_len = 32

abbrev pub hashid_pq_address : List ℕ
hashid_pq_address = codes "PQA"

abbrev pub hashid_pq_key : List ℕ
hashid_pq_key = codes "PQK"

abbrev pub scheme_f1 : List ℕ
scheme_f1 = codes "f1"

pub record Address : Type 0 where
  pub bytes : List ℕ

-- What the array type of the source gives: 32 bytes.
abbrev pub IsAddress : Address → Type 0
IsAddress a = (length a.bytes ≡ addr_len) × All IsByte a.bytes

module _ (x : Crates) where
  unfoldable pub checksum : Address → List ℕ
  checksum a = let h = x.sha512_256 a.bytes in drop (length h - checksum_len) h

  unfoldable pub to_address_string : Address → List ℕ
  to_address_string a = x.base32_encode (a.bytes ++ checksum a)

  unfoldable pub is_edwards25519_point : List ℕ → Bool
  is_edwards25519_point encoded = x.decompresses encoded

  unfoldable pub is_pq_compliant : Address → Bool
  is_pq_compliant a = not (is_edwards25519_point a.bytes)

  unfoldable pub addr32_base32 : Address → List ℕ
  addr32_base32 a = x.base32_encode a.bytes

  -- A digest fed piece by piece is the digest of the pieces in a row.
  unfoldable pub keygen_seed_from_entropy : List ℕ → List ℕ
  keygen_seed_from_entropy entropy = x.sha512_256 (hashid_pq_key ++ scheme_f1 ++ entropy)

  unfoldable pub pq_address : ℕ → List ℕ → Address
  pq_address salt pk = record {
    bytes = x.sha512_256 (hashid_pq_address ++ scheme_f1 ++ (salt ∷ []) ++ pk);
  }

  -- The values of `0u16..=255` from `salt` on, with `left` of them to go.
  unfoldable pub scan_salts : ℕ → ℕ → List ℕ → Option (ℕ × Address)
  scan_salts zero salt pk = none
  scan_salts (suc left) salt pk =
      let rest = scan_salts left (salt + 1) pk in
      let a = pq_address (salt % 2 ^ 8) pk in
      if is_pq_compliant a then some (salt % 2 ^ 8, a) else rest

  unfoldable pub canonical_pq_salt : List ℕ → Option (ℕ × Address)
  canonical_pq_salt pk = scan_salts 256 0 pk

unfoldable pub pq_address_preimage : ℕ → List ℕ → List ℕ
pq_address_preimage salt pk = ((hashid_pq_address ++ scheme_f1) ++ (salt ∷ [])) ++ pk
