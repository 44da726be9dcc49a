-- ===== src/Crates.antt =====
-- The third-party code that the model relies on: SHA-512/256 (`sha2`), base32 (`data_encoding`) and
-- point decompression (`curve25519_dalek`), with what is documented of them.
use falcon_vanity_generator.Base.{ℕ, Bool, List, length, All, ◌≡◌}
use falcon_vanity_generator.Base.Digits.{IsByte}
use falcon_vanity_generator.Base32.{base32_nopad}

pub record Crates : Type 0 where
  pub sha512_256 : List ℕ → List ℕ
  -- `BASE32_NOPAD.encode`
  pub base32_encode : List ℕ → List ℕ
  -- `CompressedEdwardsY(bytes).decompress().is_some()`
  pub decompresses : List ℕ → Bool
  pub length-sha512_256 : (m : List ℕ) → length (sha512_256 m) ≡ 32
  pub sha512_256-IsByte : (m : List ℕ) → All IsByte (sha512_256 m)
  -- RFC 4648
  pub base32_encode_lem : (bs : List ℕ) → All IsByte bs → base32_encode bs ≡ base32_nopad bs
