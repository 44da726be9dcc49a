-- ===== src/Cli/Derive/Hits.antt =====
-- The hits of the CPU search, derived again from what their records hold.
use falcon_vanity_generator.Base.{
  ℕ, Bool, true, Option, none, some, List, length, All, ◌≡◌, refl, ap, ◌∙◌,
}
use mathlib.Core.Path.{subst}
use falcon_vanity_generator.Base.Results.{ok}
use falcon_vanity_generator.Base.Digits.{IsByte}
use falcon_vanity_generator.Crates.{Crates}
use falcon_vanity_generator.Falcon.{FalconC}
use falcon_vanity_generator.Address.Salt.{canonical_pq_salt_iff}
use falcon_vanity_generator.Classic.{Ed25519}
use falcon_vanity_generator.Targets.Set.{TargetSet, IsTargetSet}
use falcon_vanity_generator.Search.{Hit, attempt}
use falcon_vanity_generator.Search.Sound.{IsSound, attempt-IsSound}
use falcon_vanity_generator.Mnemonic.Codec.{key_to_mnemonic, mnemonic_to_key}
use falcon_vanity_generator.Mnemonic.Codec.Encodes.{mnemonic_to_key-key_to_mnemonic}
use falcon_vanity_generator.Cli.{hex_lower}
use falcon_vanity_generator.Cli.ParseHex.{parse_hex, parse_hex-hex_lower}
use falcon_vanity_generator.Cli.Args.{f1, is_f1, DeriveArgs}
use falcon_vanity_generator.Cli.Derive.{
  Shown, shown_f1, entropy_arg, with_mnemonic, salt_line, derive_f1, derive_entropy, cmd_derive,
}

-- `derive --mnemonic` and `derive --entropy-hex`, with a salt or without.
abbrev pub by_mnemonic : List ℕ → Option ℕ → DeriveArgs
by_mnemonic m salt = record {
  scheme = f1;
  entropy_byte = 0;
  entropy_hex = none;
  mnemonic = some m;
  salt = salt;
}

abbrev pub by_hex : List ℕ → Option ℕ → DeriveArgs
by_hex s salt = record {
  scheme = f1;
  entropy_byte = 0;
  entropy_hex = some s;
  mnemonic = none;
  salt = salt;
}

-- What the command shows of a hit, with the mnemonic of its entropy.
abbrev pub hit_shown : List ℕ → Hit → Shown
hit_shown m h =
    shown_f1 m h.kp.public_key (some (record { salt = h.salt; address = h.addr; compliant = true }))

-- What a hit record holds is enough to derive its address again.
pub record IsRederived (x : Crates) (c : FalconC) (d : Ed25519) (canonical : Bool) (h : Hit)
    : Type 0 where
  m : List ℕ
  hex : List ℕ
  mnemonic : key_to_mnemonic x h.entropy ≡ some m
  hexed : hex_lower h.entropy ≡ some hex
  at_salt : cmd_derive x c d (by_mnemonic m (some h.salt)) ≡ ok (hit_shown m h)
  at_salt_hex : cmd_derive x c d (by_hex hex (some h.salt)) ≡ ok (hit_shown m h)
  lowest : canonical ≡ true → cmd_derive x c d (by_mnemonic m none) ≡ ok (hit_shown m h)
  lowest_hex : canonical ≡ true → cmd_derive x c d (by_hex hex none) ≡ ok (hit_shown m h)

with_mnemonic-some :
    (x : Crates) (e m : List ℕ) (show : List ℕ → Shown)
    → key_to_mnemonic x e ≡ some m
    → with_mnemonic x e show ≡ ok (show m)
unfolding with_mnemonic
with_mnemonic-some x e m show there = rw (with_mnemonic, there) refl

module _ (x : Crates) (c : FalconC) (d : Ed25519) where
  cmd_derive-by_mnemonic :
      (m e : List ℕ) (salt : Option ℕ)
      → mnemonic_to_key x m ≡ ok e
      → cmd_derive x c d (by_mnemonic m salt) ≡ derive_f1 x c e salt
  unfolding cmd_derive entropy_arg derive_entropy is_f1
  cmd_derive-by_mnemonic m e salt read = rw read refl

  cmd_derive-by_hex :
      (s e : List ℕ) (salt : Option ℕ)
      → length e ≡ 32
      → parse_hex s ≡ ok e
      → cmd_derive x c d (by_hex s salt) ≡ derive_f1 x c e salt
  unfolding cmd_derive entropy_arg derive_entropy is_f1
  cmd_derive-by_hex s e salt full read = rw (read, full) refl

  derive_f1-shown :
      (seen : ℕ → TargetSet) (canonical : Bool) (e m : List ℕ) (h : Hit) (salt : Option ℕ)
      → IsSound x c seen canonical e h
      → key_to_mnemonic x e ≡ some m
      → salt_line x salt h.kp.public_key
        ≡ some (record { salt = h.salt; address = h.addr; compliant = true })
      → derive_f1 x c e salt ≡ ok (hit_shown m h)
  unfolding derive_f1
  derive_f1-shown seen canonical e m h salt sound there line = rw sound.derives (
      with_mnemonic-some x e m (λ t. shown_f1 t h.kp.public_key (salt_line x salt h.kp.public_key))
        there
      ∙ ap (λ l. ok (shown_f1 m h.kp.public_key l)) line)

  given_salt :
      (seen : ℕ → TargetSet) (canonical : Bool) (e : List ℕ) (h : Hit)
      → IsSound x c seen canonical e h
      → salt_line x (some h.salt) h.kp.public_key
        ≡ some (record { salt = h.salt; address = h.addr; compliant = true })
  unfolding salt_line
  given_salt seen canonical e h sound = rw (← sound.address, sound.compliant) refl

  own_salt :
      (seen : ℕ → TargetSet) (e : List ℕ) (h : Hit)
      → IsSound x c seen true e h
      → salt_line x none h.kp.public_key
        ≡ some (record { salt = h.salt; address = h.addr; compliant = true })
  unfolding salt_line
  own_salt seen e h sound =
      let scanned = (canonical_pq_salt_iff x h.kp.public_key h.salt h.addr).1 (sound.lowest refl) in
      rw (salt_line, scanned, sound.compliant) refl

  -- If the flags that are read belong to well-formed target sets and the entropy is 32 bytes, then from
  -- either form of the entropy in the record of a hit, `derive` with the salt of the hit shows the
  -- public key and the address of the hit, as compliant; if only canonical salts were searched, it
  -- shows them without being told the salt.
  pub attempt-IsRederived :
      (seen : ℕ → TargetSet)
      → ((n : ℕ) → IsTargetSet (seen n))
      → (canonical_only : Bool) (max_salt : ℕ) (entropy : List ℕ) (h : Hit) → length entropy ≡ 32
      → All IsByte entropy
      → (attempt x c seen canonical_only max_salt entropy).hit ≡ some h
      → IsRederived x c d canonical_only h
  attempt-IsRederived seen good canonical_only max_salt entropy h full bytes found =
      let sound = attempt-IsSound x c seen good canonical_only max_salt entropy h found in
      let (m, there, count, back) = mnemonic_to_key-key_to_mnemonic x entropy full bytes in
      let (s, spelled, read) = parse_hex-hex_lower entropy bytes in
      let shown =
        derive_f1-shown seen canonical_only entropy m h (some h.salt) sound there
          (given_salt seen canonical_only entropy h sound) in
      let shown_none : canonical_only ≡ true → derive_f1 x c entropy none ≡ ok (hit_shown m h) =
        λ q.
          derive_f1-shown seen canonical_only entropy m h none sound there
            (own_salt seen entropy h (subst (λ b. IsSound x c seen b entropy h) q sound)) in
      record {
        m = m;
        hex = s;
        mnemonic = ap (key_to_mnemonic x) sound.from_entropy ∙ there;
        hexed = ap hex_lower sound.from_entropy ∙ spelled;
        at_salt = cmd_derive-by_mnemonic m entropy (some h.salt) back ∙ shown;
        at_salt_hex = cmd_derive-by_hex s entropy (some h.salt) full read ∙ shown;
        lowest = λ q. cmd_derive-by_mnemonic m entropy none back ∙ shown_none q;
        lowest_hex = λ q. cmd_derive-by_hex s entropy none full read ∙ shown_none q;
      }
