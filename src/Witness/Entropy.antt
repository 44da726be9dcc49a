-- ===== src/Witness/Entropy.antt =====
-- The entropy mix on constant contributions.
use falcon_vanity_generator.Base.{
  ℕ, ◌+◌, ◌*◌, true, false, none, some, List, [], ◌∷◌, ◌++◌, replicate, ◌≡◌, refl, ◌≢◌, arith,
}
use falcon_vanity_generator.Base.Endian.{to_le}
use falcon_vanity_generator.Base.Digits.{value}
use falcon_vanity_generator.Entropy.{
  EntropyMix, mix_tag, mix_buffer, tpm2_get_random, tpm_response, complete,
}
use falcon_vanity_generator.Entropy.Buffer.{
  IsMix, extra_or_zeros, mix_buffer-layout, mix_buffer-distinct,
}
use falcon_vanity_generator.Base.{map, get_elem?, All}
use falcon_vanity_generator.Entropy.Probe.{new_mix, tpm_probe, probed, jitter32, hash_extra}
use falcon_vanity_generator.Entropy.History.{
  MixOp, draw, renew, IsOp, outputs, buffers, outputs-distinct,
}
use falcon_vanity_generator.Witness.Demo.{demo}
use falcon_vanity_generator.Entropy.Tpm.{Ended, tpm2_get_random-Ended}

abbrev ones : List ℕ
ones = replicate 32 1

abbrev twos : List ℕ
twos = replicate 32 2

abbrev mix : EntropyMix
mix = record {
  tpm_live = true;
  cached = record { tpm = ones; jitter = twos };
  extra = none;
  ctr = 0;
}

mix-IsMix : IsMix mix ones twos
mix-IsMix = record {
  os_length = refl;
  cpu_length = refl;
  tpm_length = refl;
  jitter_length = refl;
  extra_length = refl;
}

mix_buffer-layout_example :
    mix_buffer mix ones twos 300
    ≡ mix_tag ++ ones ++ twos ++ ones ++ twos ++ extra_or_zeros none ++ to_le 8 300
mix_buffer-layout_example = mix_buffer-layout mix ones twos 300 mix-IsMix

zero_not_three_hundred : ◌≢◌ {A = ℕ} 0 300
zero_not_three_hundred e = absurd (omega arith)

mix_buffer-distinct_example : mix_buffer mix ones twos 0 ≢ mix_buffer mix ones twos 300
mix_buffer-distinct_example =
    mix_buffer-distinct mix mix ones twos ones twos 0 300 mix-IsMix mix-IsMix (omega arith)
      (omega arith) zero_not_three_hundred

-- A response of `n` bytes.
abbrev response : ℕ → List ℕ
response n = (0x80 ∷ 1 ∷ 0 ∷ 0 ∷ 0 ∷ (12 + n) ∷ 0 ∷ 0 ∷ 0 ∷ 0 ∷ 0 ∷ n ∷ []) ++ replicate n 7

-- Two responses of 20 bytes do, and the rest of the second is dropped.
two_responses :
    tpm2_get_random (some (response 20) ∷ some (response 20) ∷ []) [] ≡ complete (replicate 32 7)
unfolding tpm2_get_random tpm_response value
two_responses = refl

tpm2_get_random-Ended_example : Ended (tpm2_get_random (replicate 32 (some (response 1))) [])
tpm2_get_random-Ended_example =
    tpm2_get_random-Ended (replicate 32 (some (response 1))) [] (omega arith) (omega arith)

-- The probe of the TPM fails after a response of 20 bytes, which stay in the cache.
abbrev made : EntropyMix
made = record {
  tpm_live = false;
  cached = record { tpm = replicate 20 7 ++ replicate 12 0; jitter = jitter32 demo (λ i. i * 37) };
  extra = hash_extra demo (some (9 ∷ []));
  ctr = 0;
}

partial_probe :
    new_mix demo (some (some (response 20) ∷ none ∷ [])) (λ i. i * 37) (some (9 ∷ [])) ≡ some made
unfolding new_mix tpm_probe probed tpm2_get_random tpm_response value
partial_probe = refl

-- Two outputs from the same bytes, with a refresh and a failure of the OS between them.
abbrev calls : List MixOp
calls = draw (some ones) twos ∷ renew twos [] ∷ draw none twos ∷ draw (some ones) twos ∷ []

calls-IsOp : All IsOp calls
unfolding IsOp
calls-IsOp = ((refl, refl), (refl, (tt, ((refl, refl), tt))))

outputs-distinct_example :
    (outputs demo made calls ≡ map demo.sha512_256 (buffers demo made calls))
    × ((i j : ℕ) (b : List ℕ)
        → get_elem? (buffers demo made calls) i ≡ some b
        → get_elem? (buffers demo made calls) j ≡ some b
        → i ≡ j)
outputs-distinct_example =
    outputs-distinct demo (some (some (response 20) ∷ none ∷ [])) (λ i. i * 37) (some (9 ∷ [])) made
      calls partial_probe calls-IsOp (omega arith)
