-- ===== src/Cli/Derive/Again.antt =====
-- Deriving again from the mnemonic that `cmd_derive` shows.
use falcon_vanity_generator.Base.{
  ℕ, zero, suc, ◌<◌, not, ◌||◌, Option, none, some, List, ◌∷◌, length, replicate, All, ◌≡◌, refl,
  sym, ap, ◌∙◌, inl, inr, arith, ◌==◌, Bool-cases, Option-cases, is_some, ==_iff, some_inj,
}
use mathlib.Core.Path.{subst}
use falcon_vanity_generator.Base.Results.{ok, bind, ensure, map_err, map_err-eq-ok, bind-eq-ok}
use falcon_vanity_generator.Base.Digits.{IsByte}
use falcon_vanity_generator.Crates.{Crates}
use falcon_vanity_generator.Falcon.{FalconC, keygen_from_seed}
use falcon_vanity_generator.Address.{entropy_size, keygen_seed_from_entropy}
use falcon_vanity_generator.Classic.{Ed25519, from_seed, classic_public_key, address}
use falcon_vanity_generator.Mnemonic.Codec.{key_to_mnemonic, mnemonic_to_key}
use falcon_vanity_generator.Mnemonic.Codec.Encodes.{mnemonic_to_key-key_to_mnemonic}
use falcon_vanity_generator.Mnemonic.Codec.Decodes.{key_to_mnemonic-mnemonic_to_key}
use falcon_vanity_generator.Cli.ParseHex.{parse_hex}
use falcon_vanity_generator.Cli.ParseHex.Accepts.{parse_hex-size}
use falcon_vanity_generator.Cli.Args.{Scheme, is_f1, f1, ed25519, DeriveArgs}
use falcon_vanity_generator.Cli.Derive.{
  Shown, shown_f1, shown_classic, bad_mnemonic, bad_hex_arg, wrong_size, keygen_failed, entropy_arg,
  with_mnemonic, derive_classic, salt_line, derive_f1, derive_entropy, cmd_derive,
}

-- The mnemonic line.
unfoldable pub mnemonic_line : Shown → List ℕ
mnemonic_line (shown_f1 m pk line) = m
mnemonic_line (shown_classic m pk addr) = m

All-replicate : {A : Type 0} (P : A → Type 0) (n : ℕ) (v : A) → P v → All P (replicate n v)
All-replicate P zero v h = tt
All-replicate P (suc n) v h = (h, All-replicate P n v h)

-- Whatever the arguments are, 32 bytes.
entropy_arg-IsByte :
    (x : Crates) (a : DeriveArgs) (e : List ℕ)
    → a.entropy_byte < 256
    → entropy_arg x a ≡ ok e
    → (length e ≡ 32) × All IsByte e
unfolding entropy_arg
entropy_arg-IsByte x a e small h = by_source a.mnemonic a.entropy_hex h
  where
    by_hex :
        (s : List ℕ) (bytes : List ℕ)
        → parse_hex s ≡ ok bytes
        → bind (ensure (length bytes == entropy_size) (wrong_size (length bytes))) (λ _. ok bytes)
          ≡ ok e
        → (length e ≡ 32) × All IsByte e
    by_hex s bytes read q = elim (Bool-cases (length bytes == entropy_size)) [
      | inr bad ↦ (let w = rw bad at q in cc)
      | inl full ↦
          let w = rw full at q in
          let z : bytes ≡ e = cc in
          let both : (length bytes ≡ 32) × All IsByte bytes =
            ((==_iff (length bytes) 32).0 full, (parse_hex-size s bytes read).0) in
          subst (λ e. (length e ≡ 32) × All IsByte e) z both
    ]

    by_source :
        (m s : Option (List ℕ))
        → entropy_arg x (record a { mnemonic = m; entropy_hex = s }) ≡ ok e
        → (length e ≡ 32) × All IsByte e
    by_source (some m) s q =
        let r =
          key_to_mnemonic-mnemonic_to_key x m e
            (map_err-eq-ok bad_mnemonic (mnemonic_to_key x m) e q) in
        (r.0, r.1)
    by_source none (some s) q =
        let (bytes, read, rest) =
          bind-eq-ok (map_err bad_hex_arg (parse_hex s))
            (λ bytes.
              bind (ensure (length bytes == entropy_size) (wrong_size (length bytes)))
                (λ _. ok bytes))
            e q in
        by_hex s bytes (map_err-eq-ok bad_hex_arg (parse_hex s) bytes read) rest
    by_source none none q =
        let z : a.entropy_byte ∷ replicate 31 0 ≡ e = cc in
        subst (λ e. (length e ≡ 32) × All IsByte e) z
          (refl, (small, All-replicate IsByte 31 0 (omega arith)))

-- The line is the mnemonic of the entropy.
with_mnemonic-line :
    (x : Crates) (e : List ℕ) (show : List ℕ → Shown) (shown : Shown)
    → ((m : List ℕ) → mnemonic_line (show m) ≡ m)
    → with_mnemonic x e show ≡ ok shown
    → key_to_mnemonic x e ≡ some (mnemonic_line shown)
unfolding with_mnemonic
with_mnemonic-line x e show shown good h = elim (Option-cases (key_to_mnemonic x e)) [
  | inl none_there ↦ (let q = rw (none_there, with_mnemonic) at h in cc)
  | inr (m, there) ↦
      let q = rw (there, with_mnemonic) at h in
      let z : show m ≡ shown = cc in there ∙ ap some (sym (good m) ∙ ap mnemonic_line z)
]

module _ (x : Crates) (c : FalconC) (d : Ed25519) where
  derive_entropy-line :
      (scheme : Scheme) (salt : Option ℕ) (e : List ℕ) (shown : Shown)
      → derive_entropy x c d scheme salt e ≡ ok shown
      → key_to_mnemonic x e ≡ some (mnemonic_line shown)
  unfolding derive_entropy derive_classic derive_f1 mnemonic_line
  derive_entropy-line ed25519 salt e shown h =
      with_mnemonic-line x e
        (λ m. shown_classic m (classic_public_key d (from_seed e)) (address d (from_seed e))) shown
        (λ m. refl) h
  derive_entropy-line f1 salt e shown h =
      let (kp, made, rest) =
        bind-eq-ok (map_err keygen_failed (keygen_from_seed c (keygen_seed_from_entropy x e)))
          (λ kp. with_mnemonic x e (λ m. shown_f1 m kp.public_key (salt_line x salt kp.public_key)))
          shown h in
      with_mnemonic-line x e (λ m. shown_f1 m kp.public_key (salt_line x salt kp.public_key)) shown
        (λ m. refl) rest

  -- If the entropy byte is a byte and the command shows something, then with the mnemonic that it shows
  -- in place of the other entropy arguments it shows the same again, in either scheme.
  pub cmd_derive-mnemonic_line :
      (a : DeriveArgs) (shown : Shown)
      → a.entropy_byte < 256
      → cmd_derive x c d a ≡ ok shown
      → cmd_derive x c d (record a { mnemonic = some (mnemonic_line shown) }) ≡ ok shown
  unfolding cmd_derive entropy_arg
  cmd_derive-mnemonic_line a shown small h =
      elim (Bool-cases (is_f1 a.scheme || not (is_some a.salt))) [
        | inr bad ↦ (let q = rw bad at h in cc)
        | inl fine ↦
            let (e, made, rest) =
              bind-eq-ok (entropy_arg x a) (derive_entropy x c d a.scheme a.salt) shown
                (rw fine at h) in
            let (full, bytes) = entropy_arg-IsByte x a e small made in
            let (m, same, count, back) = mnemonic_to_key-key_to_mnemonic x e full bytes in
            let line : m ≡ mnemonic_line shown =
              some_inj (sym same ∙ derive_entropy-line a.scheme a.salt e shown rest) in
            let again : mnemonic_to_key x (mnemonic_line shown) ≡ ok e = rw line at back in
            rw (fine, entropy_arg, again) rest
      ]
