-- ===== src/Witness/SelfTest.antt =====
-- The self-test on a device that agrees with a stand-in for the C code.
use falcon_vanity_generator.Base.{
  ℕ, ◌+◌, List, [], ◌∷◌, ◌++◌, take, drop, get_or, replicate, ◌≡◌, refl, ◌↔◌, list_eq,
}
use falcon_vanity_generator.Base.Results.{ok}
use falcon_vanity_generator.Falcon.{FalconC, sample_fg, pubkey_from_fg}
use falcon_vanity_generator.Address.{pq_address, keygen_seed_from_entropy}
use falcon_vanity_generator.Cuda.{is_negative}
use falcon_vanity_generator.Cuda.Debug.{
  DebugC, dbg_sample_fg, dbg_pubkey, dbg_addr32, flat, checked,
}
use falcon_vanity_generator.SelfTest.{
  pipeline_stages, judge, mismatches, row, sampler_agrees, pubkey_agrees, addr32_agrees,
}
use falcon_vanity_generator.SelfTest.Agrees.{Answers, pipeline_stages_iff}
use falcon_vanity_generator.SelfTest.Rows.{SamplesAt, KeyAt, AddressAt}
use falcon_vanity_generator.Witness.Demo.{demo, demo_falcon, digest, total}

-- `f` and `g` differ, and both depend on the seed, as does the key.
unfoldable seed_falcon : FalconC
seed_falcon = record demo_falcon {
  pqv_sample_fg = λ seed. (replicate 1024 (get_or seed 0 0), replicate 1024 (get_or seed 0 0 + 1));
  pqv_pubkey_from_fg = λ f g. (1, replicate 1793 (get_or g 0 0));
}

-- What the device has for one entropy of 32 bytes.
unfoldable first_byte : List ℕ → ℕ
first_byte entropy = get_or (keygen_seed_from_entropy demo entropy) 0 0

unfoldable samples : List ℕ → List ℕ
samples e = replicate 1024 (first_byte e) ++ replicate 1024 (first_byte e + 1)

unfoldable key : List ℕ → List ℕ
key e = replicate 1793 (first_byte e + 1)

unfoldable address_bytes : ℕ → List ℕ → List ℕ
address_bytes salt e = (pq_address demo salt (key e)).bytes

-- It answers for two entropies.
unfoldable same_device : DebugC
same_device = record {
  pq_cuda_dbg_sample_fg = λ input n. (0, samples (take 32 input) ++ samples (drop 32 input));
  pq_cuda_dbg_pubkey = λ input n. (0, key (take 32 input) ++ key (drop 32 input), 1 ∷ 1 ∷ []);
  pq_cuda_dbg_addr32 = λ input n salt.
      (0, address_bytes salt (take 32 input) ++ address_bytes salt (drop 32 input), 1 ∷ 1 ∷ []);
  pq_cuda_dbg_accept = λ input n. (0, 0 ∷ []);
  pq_cuda_dbg_match = λ input n targets. (0, []);
  ed_cuda_dbg_match = λ input n targets. (0, []);
  ed_cuda_dbg_pubkey = λ input n fast. (0, []);
}

abbrev two_seeds : List (List ℕ)
two_seeds = replicate 32 9 ∷ replicate 32 4 ∷ []

stages_pass : pipeline_stages demo seed_falcon same_device two_seeds ≡ ok tt
unfolding pipeline_stages judge mismatches row sampler_agrees pubkey_agrees addr32_agrees
    dbg_sample_fg dbg_pubkey dbg_addr32 flat checked is_negative sample_fg pubkey_from_fg
    seed_falcon demo_falcon same_device list_eq pq_address keygen_seed_from_entropy demo digest
    total samples key address_bytes first_byte
stages_pass = refl

pipeline_stages_iff_example : (pipeline_stages demo seed_falcon same_device two_seeds ≡ ok tt) ↔ (
    Answers (SamplesAt demo seed_falcon) (dbg_sample_fg same_device two_seeds) two_seeds
    × Answers (KeyAt demo seed_falcon) (dbg_pubkey same_device two_seeds) two_seeds
    × Answers (AddressAt demo seed_falcon 0) (dbg_addr32 same_device two_seeds 0) two_seeds
    × Answers (AddressAt demo seed_falcon 7) (dbg_addr32 same_device two_seeds 7) two_seeds
    × Answers (AddressAt demo seed_falcon 200) (dbg_addr32 same_device two_seeds 200) two_seeds)
pipeline_stages_iff_example = pipeline_stages_iff demo seed_falcon same_device two_seeds
