-- ===== src/Witness/Classic.antt =====
-- The classic search on stand-ins for the kernel and the third-party code.
use falcon_vanity_generator.Base.{
  ℕ, zero, suc, ◌+◌, ◌%◌, ◌^◌, true, false, none, some, List, [], ◌∷◌, ◌++◌, codes, replicate, All,
  ◌≡◌, refl, ◌≢◌, arith, list_eq,
}
use falcon_vanity_generator.Base.Digits.{IsByte}
use falcon_vanity_generator.Base.Endian.{to_le, from_le}
use falcon_vanity_generator.Targets.Set.{TargetSet}
use falcon_vanity_generator.Targets.Set.Tally.{tally}
use falcon_vanity_generator.Cuda.{CudaC}
use falcon_vanity_generator.Classic.{
  Ed25519, seed_at, run_start, run_keys, cpu_run, ClassicProgress, ClassicArgs, classic_loop,
}
use falcon_vanity_generator.Classic.Seeds.{seed_at-distinct, seed_at-run_start}
use falcon_vanity_generator.Classic.CpuRun.{RunEnds, run_keys-RunEnds}
use falcon_vanity_generator.Classic.GpuRun.{IsClassicProgress, classic_loop-IsClassicProgress}
use falcon_vanity_generator.Witness.Demo.{demo, digest, total, length-digest, digest-IsByte}

abbrev sevens : List ℕ
sevens = replicate 32 7

-- The last 8 bytes are all ones, so the counter wraps at the second key.
abbrev at_the_wrap : List ℕ
at_the_wrap = replicate 24 7 ++ replicate 8 255

unfoldable pub toy_ed25519 : Ed25519
unfolding digest total
toy_ed25519 = record {
  verifying_key = λ s. digest 32 (total s);
  sign = λ s m. m;
  verify = λ p m s. list_eq m s;
  length-verifying_key = λ s. length-digest 32 (total s);
  verifying_key-IsByte = λ s. digest-IsByte 32 (total s);
}

zero_not_five : ◌≢◌ {A = ℕ} 0 5
zero_not_five e = absurd (omega arith)

seed_at-distinct_example :
    seed_at at_the_wrap ((run_start at_the_wrap + 0) % 2 ^ 64)
    ≢ seed_at at_the_wrap ((run_start at_the_wrap + 5) % 2 ^ 64)
seed_at-distinct_example =
    seed_at-distinct at_the_wrap refl 0 5 (omega arith) (omega arith) zero_not_five

sevens-IsByte : (n : ℕ) → All IsByte (replicate n 7)
sevens-IsByte zero = tt
sevens-IsByte (suc n) = (omega arith, sevens-IsByte n)

seed_at-run_start_example : seed_at sevens (run_start sevens) ≡ sevens
seed_at-run_start_example = seed_at-run_start sevens refl (sevens-IsByte 32)

wrapped :
    seed_at at_the_wrap ((run_start at_the_wrap + 1) % 2 ^ 64) ≡ replicate 24 7 ++ replicate 8 0
unfolding seed_at run_start to_le from_le
wrapped = refl

abbrev fronts : TargetSet
fronts = record {
  list =
      record { prefix = codes "Q"; suffix = [] }
      ∷ record { prefix = codes "I5"; suffix = codes "Y" }
      ∷ [];
  active = true ∷ true ∷ [];
  retire = true;
  max_prefix = 2;
}

run_keys-RunEnds_example :
    RunEnds demo toy_ed25519
      (λ n. fronts)
      (λ n. true)
      sevens
      0
      cpu_run
      0
      (run_keys demo toy_ed25519 (λ n. fronts) (λ n. true) sevens)
run_keys-RunEnds_example = run_keys-RunEnds demo toy_ed25519 (λ n. fronts) (λ n. true) sevens

-- The device reports two seeds of its batch.
abbrev kernels : CudaC
kernels = record {
  pq_cuda_search = λ base start items max_salt targets max_hits. (0, []);
  ed_cuda_search = λ base start items targets max_hits. (2, seed_at base 9 ++ base);
}

abbrev args : ClassicArgs
args = record {
  count = 2;
  items = 2 ^ 26;
  allow_sibling_hits = false;
  max_hits = 1024;
  batches = 0;
}

abbrev before : ClassicProgress
before = record {
  targets = fronts;
  found = 0;
  raw_hits = 0;
  keys_done = 0;
  siblings = 0;
  batch_emitted = 0;
  log = [];
}

before-IsClassicProgress : IsClassicProgress demo toy_ed25519 args fronts before
before-IsClassicProgress = record {
  list = refl;
  retire = refl;
  counted = refl;
  within = omega arith;
  matching = tt;
  once = λ r j. unfold tally in omega arith;
}

classic_loop-IsClassicProgress_example :
    IsClassicProgress demo toy_ed25519 args fronts
      (classic_loop demo toy_ed25519 kernels args 0
        (some sevens ∷ some at_the_wrap ∷ none ∷ [])
        before).0
classic_loop-IsClassicProgress_example =
    classic_loop-IsClassicProgress demo toy_ed25519 kernels args fronts 0
      (some sevens ∷ some at_the_wrap ∷ none ∷ []) before (omega arith) before-IsClassicProgress
      (omega arith)
