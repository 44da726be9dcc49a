-- ===== src/Witness/Start.antt =====
-- A search with two prefixes and two workers.
use falcon_vanity_generator.Base.{
  ◌≤◌, true, false, none, some, [], ◌∷◌, codes, ◌≡◌, refl, ◌↔◌, arith, list_eq,
}
use falcon_vanity_generator.Base.Results.{ok, collect}
use falcon_vanity_generator.Text.{
  is_whitespace, trim, trim_start, trim_end, split, to_ascii_upper, to_ascii_uppercase,
}
use falcon_vanity_generator.Base32.{find}
use falcon_vanity_generator.Targets.{last_char?}
use falcon_vanity_generator.Targets.Set.{is_active, claim, default_count}
use falcon_vanity_generator.Targets.Set.Tally.{tally}
use falcon_vanity_generator.Targets.Parse.{
  parse, expand, split_list, split_entry, is_empty, product, with_suffixes, split_option,
  dedup_loop, check_target, check_chars, check_last, contains, finish, longest_prefix, target_eq,
}
use falcon_vanity_generator.Search.Protocol.{
  Reachable, advance, searching, matched, claimed, granted, writing, deciding, finds, moves, here,
  later, spawned,
}
use falcon_vanity_generator.Search.Protocol.Once.{entry_target}
use falcon_vanity_generator.Cli.{load_extra_entropy, not_empty}
use falcon_vanity_generator.Cli.Args.{f1, SearchArgs}
use falcon_vanity_generator.Cli.Start.{
  Host, SearchConfig, cpu_f1, targets, hit_count, or_else, open_mix, cpu_config, search_scheme,
  cmd_search,
}
use falcon_vanity_generator.Cli.Start.Starts.{IsSearch, cmd_search_iff}
use falcon_vanity_generator.Cli.Start.Runs.{one_hit_per_target, on_cpu}
use falcon_vanity_generator.Witness.Protocol.{fronts, fresh, first_claimed, counted, held, logged}
use falcon_vanity_generator.Entropy.{EntropyMix}
use falcon_vanity_generator.Entropy.Probe.{new_mix, tpm_probe, jitter32, hash_extra}
use falcon_vanity_generator.Cli.Start.{made_mix}
use falcon_vanity_generator.Witness.Demo.{demo}
use falcon_vanity_generator.Base.{replicate}

abbrev host : Host
host = record {
  cores = some 4;
  makes_dir = λ d. true;
  file = λ f. none;
  tpm = none;
  delta = λ i. 5;
  compiled = false;
  linked = false;
  devices = 0;
}

abbrev mix : EntropyMix
mix = record {
  tpm_live = false;
  cached = record { tpm = replicate 32 0; jitter = jitter32 demo (λ i. 5) };
  extra = hash_extra demo (some (codes "dice"));
  ctr = 0;
}

abbrev asked : SearchArgs
asked = record {
  scheme = f1;
  pat = record { prefix = some (codes "f, 7l"); suffix = none; pattern = none; keep_found = false };
  max_salt = 255;
  allow_non_canonical = false;
  threads = 2;
  count = none;
  out = codes "./hits";
  extra_entropy = some (codes "dice");
  quiet = true;
}

abbrev config : SearchConfig
config = record {
  mix = mix;
  targets = fronts;
  max_salt = 255;
  canonical_only = true;
  threads = 2;
  count = 2;
  out_dir = codes "./hits";
  progress = false;
}

starts : cmd_search demo host asked ≡ ok (cpu_f1 config)
unfolding made_mix new_mix tpm_probe cmd_search targets hit_count or_else open_mix cpu_config
    search_scheme load_extra_entropy not_empty default_count parse expand split_list split_entry
    collect split to_ascii_uppercase trim is_empty is_whitespace to_ascii_upper trim_start trim_end
    product with_suffixes split_option dedup_loop check_target check_chars find check_last
    last_char? list_eq contains finish longest_prefix target_eq
starts = refl

cmd_search_iff_example :
    (cmd_search demo host asked ≡ ok (cpu_f1 config)) ↔ IsSearch demo host asked (cpu_f1 config)
cmd_search_iff_example = cmd_search_iff demo host asked (cpu_f1 config)

-- The first worker has written its hit.
one_written :
    Reachable 2
      (spawned fronts 2)
      (record { shared = logged; threads = deciding 0 ∷ searching ∷ [] })
unfolding spawned advance claim is_active
one_written =
    later _ _
      (later _ _
        (later _ _
          (later _ _ (later _ _ here (finds fresh (searching ∷ searching ∷ []) 0 0 refl)) (
            moves fresh first_claimed (matched 0 ∷ searching ∷ []) 0 (matched 0) (claimed 0) refl
              refl))
          (moves first_claimed counted (claimed 0 ∷ searching ∷ []) 0 (claimed 0) (granted 0 0) refl
            refl))
        (moves counted held (granted 0 0 ∷ searching ∷ []) 0 (granted 0 0) (writing 0 0) refl refl))
      (moves held logged (writing 0 0 ∷ searching ∷ []) 0 (writing 0 0) (deciding 0) refl refl)

one_hit_per_target_example : tally entry_target 0 logged.log ≤ 1
unfolding on_cpu
one_hit_per_target_example =
    one_hit_per_target demo host asked (cpu_f1 config) config _ 0 starts refl refl refl
      (omega arith) one_written
