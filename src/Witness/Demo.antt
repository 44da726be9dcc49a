-- ===== src/Witness/Demo.antt =====
-- Stand-ins for the third-party code, small enough to evaluate.
use falcon_vanity_generator.Base.{
  ℕ, zero, suc, ◌+◌, ◌*◌, ◌%◌, true, List, [], ◌∷◌, length, get_or, All, ◌≡◌, refl, ap, arith, ltb,
}
use falcon_vanity_generator.Base.Digits.{IsByte}
use falcon_vanity_generator.Base32.{base32_nopad}
use falcon_vanity_generator.Crates.{Crates}
use falcon_vanity_generator.Falcon.{FalconC}
use falcon_vanity_generator.Address.{Address, pq_address, to_address_string}

unfoldable pub digest : ℕ → ℕ → List ℕ
digest zero v = []
digest (suc n) v = (v % 256) ∷ digest n (v * 5 + 1)

unfoldable pub total : List ℕ → ℕ
total [] = 7
total (b ∷ bs) = b + 3 * total bs

pub length-digest : (n v : ℕ) → length (digest n v) ≡ n
unfolding digest
length-digest zero v = refl
length-digest (suc n) v = ap suc (length-digest n (v * 5 + 1))

pub digest-IsByte : (n v : ℕ) → All IsByte (digest n v)
unfolding digest
digest-IsByte zero v = tt
digest-IsByte (suc n) v = (omega arith, digest-IsByte n (v * 5 + 1))

-- A toy digest; a point is on the curve when its first byte is below 128.
unfoldable pub demo : Crates
unfolding digest total
demo = record {
  sha512_256 = λ m. digest 32 (total m);
  base32_encode = base32_nopad;
  decompresses = λ p. ltb (get_or p 0 0) 128;
  length-sha512_256 = λ m. length-digest 32 (total m);
  sha512_256-IsByte = λ m. digest-IsByte 32 (total m);
  base32_encode_lem = λ bs h. refl;
}

-- No salt is compliant here.
unfoldable pub all_on_curve : Crates
unfolding demo
all_on_curve = record demo { decompresses = λ p. true }

-- A toy key pair that repeats the seed.
unfoldable pub demo_falcon : FalconC
demo_falcon = record {
  det1024_keygen = λ seed. (0, seed, 5 ∷ seed);
  det1024_sign = λ sk msg. (0, sk, length sk);
  det1024_verify = λ sig pk msg. 0;
  det1024_pubkey_coeffs = λ pk. (0, pk);
  pqv_sample_fg = λ seed. (seed, seed);
  pqv_pubkey_from_fg = λ f g. (1, f);
  pqv_complete_from_fg = λ f g. (1, f, g);
  pqv_first_sample_stage = λ f g. 0;
  pqv_first_visible_accept = λ seed n. 0;
}

abbrev pub demo_key : List ℕ
demo_key = 1 ∷ 2 ∷ 3 ∷ []

abbrev pub demo_address : Address
demo_address = pq_address demo 0 demo_key

demo_shown : List ℕ
unfolding to_address_string
demo_shown = to_address_string demo demo_address
