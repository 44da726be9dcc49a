-- ===== src/Cli/Derive.antt =====
-- crates/pq-vanity/src/main.rs, `cmd_derive`, and crates/pq-vanity/src/classic.rs, `derive`: what
-- they print, as a value.
pub mod Again
pub mod Hits
use falcon_vanity_generator.Base.{
  ℕ, zero, suc, ◌+◌, ◌-◌, ◌*◌, ◌/◌, ◌%◌, ◌^◌, ◌≤◌, ◌<◌, bit_and, bit_or, bit_xor, Bool, true, false,
  not, ◌&&◌, ◌||◌, Option, none, some, List, [], ◌∷◌, ◌++◌, map, append-nil, append_assoc, String,
  codes, length, take, drop, get_elem?, get_or, set, replicate, All, ◌≡◌, refl, sym, ap, ap₂, ◌∙◌,
  ◌≢◌, ◌↔◌, ◌⊎◌, inl, inr, arith, ltb, leb, ◌==◌, if◌then◌else◌, ltb→lt, leb→le, Bool-cases,
  Option-cases, ◌>>=◌, is_some, length-append, take-append-drop, length-take, length-drop, take_all,
  take-take, take-append_le, take-append_self, drop-append_le, drop-append_self, drop-drop,
  length-replicate, All-append, All-take, All-drop, length-map, take-map, drop-map,
  get_or-get_elem?, starts_with, ends_with, list_eq, list_eq_iff, starts_with_iff, ends_with_iff,
  ends_with-nil, ==_iff, Bool_ext, some_inj, get_elem?-below, All-get,
}
use falcon_vanity_generator.Base.Results.{Result, ok, err, bind, ensure, map_err}
use falcon_vanity_generator.Crates.{Crates}
use falcon_vanity_generator.Falcon.{FalconC, FalconError, keygen_from_seed}
use falcon_vanity_generator.Address.{
  Address, entropy_size, keygen_seed_from_entropy, pq_address, canonical_pq_salt, is_pq_compliant,
}
use falcon_vanity_generator.Classic.{Ed25519, from_seed, classic_public_key, address}
use falcon_vanity_generator.Mnemonic.Codec.{MnemonicError, key_to_mnemonic, mnemonic_to_key}
use falcon_vanity_generator.Cli.ParseHex.{HexError, parse_hex}
use falcon_vanity_generator.Cli.Args.{Scheme, is_f1, f1, ed25519, DeriveArgs}

-- `panicked` is a panic of `key_to_mnemonic`.
pub data DeriveError : Type 0 where
  salt_needs_f1 panicked : DeriveError
  bad_mnemonic : MnemonicError → DeriveError
  bad_hex_arg : HexError → DeriveError
  wrong_size : ℕ → DeriveError
  keygen_failed : FalconError → DeriveError

-- The salt, its address, and the answer of `is_pq_compliant`.
pub record SaltLine : Type 0 where
  pub salt : ℕ
  pub address : Address
  pub compliant : Bool

-- The lines printed. Without `--salt` an f1 key may have no compliant salt to show.
pub data Shown : Type 0 where
  shown_f1 : List ℕ → List ℕ → Option SaltLine → Shown
  shown_classic : List ℕ → List ℕ → Address → Shown

-- The 32 bytes that the arguments stand for.
unfoldable pub entropy_arg : Crates → DeriveArgs → Result DeriveError (List ℕ)
entropy_arg x a = elim a.mnemonic [
  | some m ↦ map_err bad_mnemonic (mnemonic_to_key x m)
  | none ↦ elim a.entropy_hex [
    | some h ↦ bind (map_err bad_hex_arg (parse_hex h)) (λ bytes.
        bind (ensure (length bytes == entropy_size) (wrong_size (length bytes))) (λ _. ok bytes))
    | none ↦ ok (set (replicate entropy_size 0) 0 a.entropy_byte)
  ]
]

unfoldable pub with_mnemonic : Crates → List ℕ → (List ℕ → Shown) → Result DeriveError Shown
with_mnemonic x entropy show = elim (key_to_mnemonic x entropy) [
  | none ↦ err panicked
  | some m ↦ ok (show m)
]

unfoldable pub derive_classic : Crates → Ed25519 → List ℕ → Result DeriveError Shown
derive_classic x d seed =
    let kp = from_seed seed in
    with_mnemonic x seed (λ m. shown_classic m (classic_public_key d kp) (address d kp))

unfoldable pub salt_line : Crates → Option ℕ → List ℕ → Option SaltLine
salt_line x (some salt) pk =
    let addr = pq_address x salt pk in
    some (record { salt = salt; address = addr; compliant = is_pq_compliant x addr })
salt_line x none pk = elim (canonical_pq_salt x pk) [
  | none ↦ none
  | some (salt, addr) ↦
      some (record { salt = salt; address = addr; compliant = is_pq_compliant x addr })
]

unfoldable pub derive_f1 : Crates → FalconC → List ℕ → Option ℕ → Result DeriveError Shown
derive_f1 x c entropy salt =
    bind (map_err keygen_failed (keygen_from_seed c (keygen_seed_from_entropy x entropy))) (λ kp.
      with_mnemonic x entropy (λ m. shown_f1 m kp.public_key (salt_line x salt kp.public_key)))

unfoldable pub derive_entropy :
    Crates → FalconC → Ed25519 → Scheme → Option ℕ → List ℕ → Result DeriveError Shown
derive_entropy x c d ed25519 salt entropy = derive_classic x d entropy
derive_entropy x c d f1 salt entropy = derive_f1 x c entropy salt

unfoldable pub cmd_derive : Crates → FalconC → Ed25519 → DeriveArgs → Result DeriveError Shown
cmd_derive x c d a =
    bind (ensure (is_f1 a.scheme || not (is_some a.salt)) salt_needs_f1)
      (λ _. bind (entropy_arg x a) (derive_entropy x c d a.scheme a.salt))
