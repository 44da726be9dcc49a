-- ===== src/Witness/Gpu.antt =====
-- The GPU host loop on stand-ins for the kernel and the third-party code.
use falcon_vanity_generator.Base.{
  ℕ, ◌+◌, ◌^◌, ◌≤◌, true, false, Option, some, List, [], ◌∷◌, ◌++◌, map, codes, length, replicate,
  ◌≡◌, refl, ◌⊎◌, inl, arith, starts_with, ends_with, list_eq,
}
use falcon_vanity_generator.Falcon.{
  complete_from_fg, sample_fg, signs_back, sign_message, verify_message, verify_with_pubkey,
}
use falcon_vanity_generator.Address.{
  checksum, is_edwards25519_point, canonical_pq_salt, scan_salts, pq_address, to_address_string,
  keygen_seed_from_entropy, is_pq_compliant,
}
use falcon_vanity_generator.Targets.{
  device_words, prefix_words, suffix_words, pattern_bits, matches_display,
}
use falcon_vanity_generator.Base32.{find, base32_nopad}
use falcon_vanity_generator.Targets.Set.{
  TargetSet, any_active, any_active_from, is_active, claim, device_table, device_table_from,
  first_match_display, first_match_display_from,
}
use falcon_vanity_generator.Cuda.{CudaC, search_batch, read_hits, is_negative, lesser}
use falcon_vanity_generator.Gpu.{
  Progress, GpuArgs, gpu_loop, finished, verify_one, verify_hits, gpu_batch, emit_hits, emit_one,
  written, satisfied, has_canonical_salt, chunks_of, fill_slots, fill_chunks, survivors,
}
use falcon_vanity_generator.Gpu.Verify.{verify_hits-map}
use falcon_vanity_generator.Gpu.Emit.{IsProgress, reached}
use falcon_vanity_generator.Targets.Set.Tally.{tally}
use falcon_vanity_generator.Gpu.Run.{gpu_loop-IsProgress, gpu_loop-one_each}
use falcon_vanity_generator.Gpu.Ends.{EndsAt, gpu_loop_finished, gpu_loop_stops}
use falcon_vanity_generator.Gpu.{failed, GpuError}
use falcon_vanity_generator.Witness.Demo.{demo, demo_falcon}

abbrev zeros : List ℕ
zeros = replicate 32 0

abbrev fronts : TargetSet
fronts = record {
  list =
      record { prefix = codes "F"; suffix = [] } ∷ record { prefix = codes "7L"; suffix = [] } ∷ [];
  active = true ∷ true ∷ [];
  retire = true;
  max_prefix = 2;
}

-- Two raw hits: the first shows `F` but is on the curve, the second shows `7L`.
abbrev kernels : CudaC
kernels = record {
  pq_cuda_search = λ base start items max_salt targets max_hits. (2, zeros ++ 0 ∷ zeros ++ 4 ∷ []);
  ed_cuda_search = λ base start items targets max_hits. (1, zeros);
}

abbrev args : GpuArgs
args = record {
  count = 1;
  items = 2 ^ 22;
  max_salt = 31;
  canonical_only = true;
  allow_sibling_hits = false;
  max_hits = 1024;
  batches = 0;
  threads = 3;
}

abbrev before : Progress
before = record {
  targets = fronts;
  found = 0;
  raw_hits = 0;
  keys_done = 0;
  siblings_discarded = 0;
  batch_emitted = 0;
  log = [];
}

abbrev outputs : List (Option (List ℕ))
outputs = some zeros ∷ some zeros ∷ []

before-IsProgress : IsProgress demo demo_falcon args fronts before
before-IsProgress = record {
  list = refl;
  retire = refl;
  counted = refl;
  within = omega arith;
  verified = tt;
  once = λ r j. unfold tally in omega arith;
}

abbrev after : Progress
after = reached (gpu_loop demo demo_falcon kernels args 0 outputs before)

ends_after : gpu_loop demo demo_falcon kernels args 0 outputs before ≡ finished after
unfolding gpu_loop gpu_batch emit_hits emit_one written satisfied verify_hits verify_one
    has_canonical_salt chunks_of fill_slots fill_chunks survivors search_batch read_hits is_negative
    lesser device_table device_table_from device_words prefix_words suffix_words pattern_bits find
    first_match_display first_match_display_from is_active any_active any_active_from claim
    matches_display starts_with ends_with list_eq to_address_string checksum pq_address
    is_pq_compliant is_edwards25519_point canonical_pq_salt scan_salts complete_from_fg sample_fg
    signs_back sign_message verify_message verify_with_pubkey demo demo_falcon
    keygen_seed_from_entropy base32_nopad
ends_after = refl

-- One hit, for the second target.
one_hit : map (λ v. v.target) after.log ≡ 1 ∷ []
unfolding gpu_loop gpu_batch emit_hits emit_one written satisfied verify_hits verify_one
    has_canonical_salt chunks_of fill_slots fill_chunks survivors search_batch read_hits is_negative
    lesser device_table device_table_from device_words prefix_words suffix_words pattern_bits find
    first_match_display first_match_display_from is_active any_active any_active_from claim
    matches_display starts_with ends_with list_eq to_address_string checksum pq_address
    is_pq_compliant is_edwards25519_point canonical_pq_salt scan_salts complete_from_fg sample_fg
    signs_back sign_message verify_message verify_with_pubkey demo demo_falcon
    keygen_seed_from_entropy base32_nopad
one_hit = refl

gpu_loop-IsProgress_example :
    IsProgress demo demo_falcon args fronts
      (reached (gpu_loop demo demo_falcon kernels args 0 outputs before))
gpu_loop-IsProgress_example =
    gpu_loop-IsProgress demo demo_falcon kernels args fronts 0 outputs before (omega arith)
      (omega arith) before-IsProgress (omega arith)

gpu_loop-one_each_example :
    length (reached (gpu_loop demo demo_falcon kernels args 0 outputs before)).log
    ≤ length before.log + length outputs
gpu_loop-one_each_example = gpu_loop-one_each demo demo_falcon kernels args 0 outputs before refl

gpu_loop_finished_example : (k : ℕ) × EndsAt demo demo_falcon kernels args k 0 outputs before after
gpu_loop_finished_example =
    gpu_loop_finished demo demo_falcon kernels args 0 outputs before after (inl refl) ends_after

abbrev two_batches : GpuArgs
two_batches = record args { count = 5; batches = 2 }

gpu_loop_stops_example :
    ((p : Progress) × (gpu_loop demo demo_falcon kernels two_batches 0 outputs before ≡ finished p))
    ⊎ ((e : GpuError) × (p : Progress) × (gpu_loop demo demo_falcon kernels two_batches 0 outputs
            before
          ≡ failed e p))
gpu_loop_stops_example =
    gpu_loop_stops demo demo_falcon kernels two_batches 0 outputs before (omega arith) (omega arith)

verify_hits-map_example :
    verify_hits demo demo_falcon fronts true 3
      (record { entropy = zeros; salt = 4 } ∷ record { entropy = zeros; salt = 0 } ∷ [])
    ≡ map
        (verify_one demo demo_falcon fronts true)
        (record { entropy = zeros; salt = 4 } ∷ record { entropy = zeros; salt = 0 } ∷ [])
verify_hits-map_example =
    verify_hits-map demo demo_falcon fronts true 3
      (record { entropy = zeros; salt = 4 } ∷ record { entropy = zeros; salt = 0 } ∷ [])
      (omega arith)
