-- ===== src/Witness/Search.antt =====
-- The CPU search on stand-ins for the third-party code.
use falcon_vanity_generator.Base.{
  ℕ, true, false, none, some, List, [], ◌∷◌, codes, replicate, ◌≡◌, refl, arith, starts_with,
}
use falcon_vanity_generator.Falcon.{Keypair, keygen_from_seed}
use falcon_vanity_generator.Base32.{base32_nopad}
use falcon_vanity_generator.Address.{
  pq_address, is_pq_compliant, is_edwards25519_point, checksum, to_address_string,
  keygen_seed_from_entropy,
}
use falcon_vanity_generator.Targets.{ends_well, last_char?}
use falcon_vanity_generator.Base32.{find}
use falcon_vanity_generator.Targets.Set.{
  TargetSet, IsTargetSet, first_match, first_match_from, is_active, display_or,
}
use falcon_vanity_generator.Search.{Hit, attempt, sweep}
use falcon_vanity_generator.Search.Worker.{Round, worker, IsWork, worker-IsWork}
use falcon_vanity_generator.Search.Sound.{IsSound, attempt-IsSound}
use falcon_vanity_generator.Witness.Demo.{demo, demo_falcon}

abbrev pub zeros : List ℕ
zeros = replicate 32 0

abbrev pub demo_kp : Keypair
demo_kp = record {
  public_key = 5 ∷ keygen_seed_from_entropy demo zeros;
  private_key = keygen_seed_from_entropy demo zeros;
}

abbrev pub fronts : TargetSet
fronts = record {
  list =
      record { prefix = codes "F"; suffix = [] } ∷ record { prefix = codes "6X"; suffix = [] } ∷ [];
  active = true ∷ true ∷ [];
  retire = true;
  max_prefix = 2;
}

pub fronts-IsTargetSet : IsTargetSet fronts
unfolding ends_well last_char? find
fronts-IsTargetSet = record {
  targets = (
    record {
      prefix_chars = (refl, tt);
      suffix_chars = tt;
      suffix_ends = refl;
      some_pattern = omega arith;
      within_display = omega arith;
    },
    (
      record {
        prefix_chars = (refl, (refl, tt));
        suffix_chars = tt;
        suffix_ends = refl;
        some_pattern = omega arith;
        within_display = omega arith;
      },
      tt,
    ),
  );
  prefixes = (omega arith, (omega arith, tt));
  flags = refl;
  some_target = omega arith;
  room = omega arith;
}

-- Salt 0 shows the first pattern but its address is on the curve; salt 4 is the first to do.
abbrev pub found : Hit
found = record {
  entropy = zeros;
  salt = 4;
  addr = pq_address demo 4 demo_kp.public_key;
  kp = demo_kp;
  target = 1;
}

pub attempt_finds : (attempt demo demo_falcon (λ n. fronts) false 5 zeros).hit ≡ some found
unfolding attempt sweep first_match first_match_from is_active display_or to_address_string checksum
    pq_address demo starts_with base32_nopad is_pq_compliant is_edwards25519_point keygen_from_seed
    demo_falcon keygen_seed_from_entropy
attempt_finds = refl

attempt-IsSound_example : IsSound demo demo_falcon (λ n. fronts) false zeros found
attempt-IsSound_example =
    attempt-IsSound demo demo_falcon (λ n. fronts) (λ n. fronts-IsTargetSet) false 5 zeros found
      attempt_finds

-- A round that finds a hit, a round without entropy, and a round that is not reached.
abbrev rounds : List Round
rounds =
    record { stop = false; entropy = some zeros; seen = λ n. fronts }
    ∷ record { stop = false; entropy = none; seen = λ n. fronts }
    ∷ record { stop = false; entropy = some zeros; seen = λ n. fronts }
    ∷ []

worker-IsWork_example :
    IsWork demo demo_falcon false 5 rounds (worker demo demo_falcon false 5 rounds)
worker-IsWork_example =
    worker-IsWork demo demo_falcon false 5 rounds
      ((λ n. fronts-IsTargetSet), ((λ n. fronts-IsTargetSet), ((λ n. fronts-IsTargetSet), tt)))
