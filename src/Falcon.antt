-- ===== src/Falcon.antt =====
-- crates/pq-core/src/falcon.rs and crates/pq-core/src/fast.rs: the bindings to the C code of Falcon.
-- The C functions are the fields of `FalconC`: each maps its input buffers to its return code and
-- the output buffers. Return codes are the bit patterns of an `int`.
use falcon_vanity_generator.Base.{
  Bool, true, false, ℕ, ◌^◌, not, Option, none, some, List, take, ltb, ◌==◌, if◌then◌else◌,
}
use falcon_vanity_generator.Base.Results.{Result, ok, err, bind}

abbrev pub pubkey_size : ℕ
pubkey_size = 1793

abbrev pub sig_compressed_maxsize : ℕ
sig_compressed_maxsize = 1423

pub record Keypair : Type 0 where
  pub public_key : List ℕ
  pub private_key : List ℕ

-- The secret polynomials.
pub record Fg : Type 0 where
  pub f : List ℕ
  pub g : List ℕ

pub data FalconError : Type 0 where
  keygen sign verify pubkey_decode : ℕ → FalconError

pub data SampleStage : Type 0 where
  accepted coef_limit sq_norm b_norm not_invertible solve_failed : SampleStage

pub record FalconC : Type 0 where
  -- `shake256_init_prng_from_seed` and `falcon_det1024_keygen`: code, private key, public key.
  pub det1024_keygen : List ℕ → ℕ × List ℕ × List ℕ
  -- `falcon_det1024_sign_compressed`: code, signature buffer, length written.
  pub det1024_sign : List ℕ → List ℕ → ℕ × List ℕ × ℕ
  -- `falcon_det1024_verify_compressed` on signature, public key and message.
  pub det1024_verify : List ℕ → List ℕ → List ℕ → ℕ
  -- `falcon_det1024_pubkey_coeffs`
  pub det1024_pubkey_coeffs : List ℕ → ℕ × List ℕ
  -- `pqv_sample_fg`, `pqv_pubkey_from_fg`, `pqv_complete_from_fg` (code, public, private key)
  pub pqv_sample_fg : List ℕ → List ℕ × List ℕ
  pub pqv_pubkey_from_fg : List ℕ → List ℕ → ℕ × List ℕ
  pub pqv_complete_from_fg : List ℕ → List ℕ → ℕ × List ℕ × List ℕ
  -- `pqv_first_sample_stage`, `pqv_first_visible_accept`
  pub pqv_first_sample_stage : List ℕ → List ℕ → ℕ
  pub pqv_first_visible_accept : List ℕ → ℕ → ℕ

module _ (c : FalconC) where
  unfoldable pub keygen_from_seed : List ℕ → Result FalconError Keypair
  keygen_from_seed seed =
      let out = c.det1024_keygen seed in
      if not (out.0 == 0)
      then err (keygen out.0)
      else ok (record { public_key = out.2; private_key = out.1 })

  unfoldable pub pubkey_coeffs : List ℕ → Result FalconError (List ℕ)
  pubkey_coeffs public_key =
      let out = c.det1024_pubkey_coeffs public_key in
      if not (out.0 == 0) then err (pubkey_decode out.0) else ok out.1

  -- `sig.truncate(sig_len)`
  unfoldable pub sign_message : Keypair → List ℕ → Result FalconError (List ℕ)
  sign_message kp msg =
      let out = c.det1024_sign kp.private_key msg in
      if not (out.0 == 0) then err (sign out.0) else ok (take out.2 out.1)

  unfoldable pub verify_with_pubkey : List ℕ → List ℕ → List ℕ → Result FalconError (Unit {0})
  verify_with_pubkey public_key msg sig =
      let rc = c.det1024_verify sig public_key msg in
      if not (rc == 0) then err (verify rc) else ok tt

  unfoldable pub verify_message : Keypair → List ℕ → List ℕ → Result FalconError (Unit {0})
  verify_message kp msg sig = verify_with_pubkey kp.public_key msg sig

  unfoldable pub sample_fg : List ℕ → Fg
  sample_fg seed = let out = c.pqv_sample_fg seed in record { f = out.0; g = out.1 }

  unfoldable pub pubkey_from_fg : Fg → Option (List ℕ)
  pubkey_from_fg fg =
      let out = c.pqv_pubkey_from_fg fg.f fg.g in if not (out.0 == 0) then some out.1 else none

  unfoldable pub complete_from_fg : Fg → Option Keypair
  complete_from_fg fg =
      let out = c.pqv_complete_from_fg fg.f fg.g in
      if not (out.0 == 0) then some (record { public_key = out.1; private_key = out.2 }) else none

  unfoldable pub first_sample_stage : Fg → SampleStage
  first_sample_stage fg =
      let s = c.pqv_first_sample_stage fg.f fg.g in
      if s == 0
      then accepted
      else if s == 1
      then coef_limit
      else if s == 2
      then sq_norm
      else if s == 3
      then b_norm
      else if s == 4
      then not_invertible
      else solve_failed

  -- `u32::try_from(r).ok()` on the C `int` with bit pattern `r`: a negative one has the top bit.
  unfoldable pub first_visible_accept : List ℕ → ℕ → Option ℕ
  first_visible_accept seed max_attempts =
      let r = c.pqv_first_visible_accept seed max_attempts in
      if ltb r (2 ^ 31) then some r else none

  -- `sign(msg).and_then(|sig| verify(msg, &sig)).is_ok()`
  unfoldable pub signs_back : Keypair → List ℕ → Bool
  signs_back kp msg = elim (bind (sign_message kp msg) (verify_message kp msg)) [
    | ok _ ↦ true
    | err _ ↦ false
  ]
