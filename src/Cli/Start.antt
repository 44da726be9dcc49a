-- ===== src/Cli/Start.antt =====
-- crates/pq-vanity/src/main.rs, `cmd_search` and `cmd_gpu`, and crates/pq-vanity/src/classic.rs, the
-- first halves of `cmd_search` and `cmd_gpu`: from the arguments to the search that starts.
pub mod Starts
pub mod Runs
use falcon_vanity_generator.Base.{
  ℕ, zero, suc, ◌+◌, ◌-◌, ◌*◌, ◌/◌, ◌%◌, ◌^◌, ◌≤◌, ◌<◌, bit_and, bit_or, bit_xor, Bool, true, false,
  not, ◌&&◌, ◌||◌, Option, none, some, List, [], ◌∷◌, ◌++◌, map, append-nil, append_assoc, String,
  codes, length, take, drop, get_elem?, get_or, set, replicate, All, ◌≡◌, refl, sym, ap, ap₂, ◌∙◌,
  ◌≢◌, ◌↔◌, ◌⊎◌, inl, inr, arith, ltb, leb, ◌==◌, if◌then◌else◌, ltb→lt, leb→le, Bool-cases,
  Option-cases, ◌>>=◌, is_some, length-append, take-append-drop, length-take, length-drop, take_all,
  take-take, take-append_le, take-append_self, drop-append_le, drop-append_self, drop-drop,
  length-replicate, All-append, All-take, All-drop, length-map, take-map, drop-map,
  get_or-get_elem?, starts_with, ends_with, list_eq, list_eq_iff, starts_with_iff, ends_with_iff,
  ends_with-nil, ==_iff, Bool_ext, some_inj, get_elem?-below, All-get,
}
use falcon_vanity_generator.Base.Results.{Result, ok, err, bind, ensure, map_err}
use falcon_vanity_generator.Crates.{Crates}
use falcon_vanity_generator.Entropy.{EntropyMix}
use falcon_vanity_generator.Entropy.Probe.{new_mix}
use falcon_vanity_generator.Targets.Set.{TargetSet, default_count, check_gpu}
use falcon_vanity_generator.Targets.Parse.{ParseError, parse}
use falcon_vanity_generator.Gpu.{GpuArgs}
use falcon_vanity_generator.Classic.{ClassicArgs}
use falcon_vanity_generator.Cli.{ExtraError, load_extra_entropy}
use falcon_vanity_generator.Cli.Args.{
  Scheme, f1, ed25519, PatternArgs, SearchArgs, GpuOptions, default_threads,
}

-- What the machine answers: the cores, whether `create_dir_all` succeeds, the files, the TPM and the
-- times that `EntropyMix::new` probes, whether CUDA support is compiled in and the kernel linked, and the devices.
pub record Host : Type 0 where
  pub cores : Option ℕ
  pub makes_dir : List ℕ → Bool
  pub file : List ℕ → Option (Option (List ℕ))
  pub tpm : Option (List (Option (List ℕ)))
  pub delta : ℕ → ℕ
  pub compiled : Bool
  pub linked : Bool
  pub devices : ℕ

-- `tpm_waits` is no error of the source: the TPM has yet to answer.
pub data StartError : Type 0 where
  bad_threads bad_count beyond_gpu f1_only not_compiled not_linked no_device no_dir tpm_waits :
      StartError
  bad_pattern : ParseError → StartError
  bad_extra : ExtraError → StartError

-- `progress` is a line every second.
pub record SearchConfig : Type 0 where
  pub mix : EntropyMix
  pub targets : TargetSet
  pub max_salt : ℕ
  pub canonical_only : Bool
  pub threads : ℕ
  pub count : ℕ
  pub out_dir : List ℕ
  pub progress : Bool

-- The search that starts.
pub data Search : Type 0 where
  cpu_f1 cpu_classic : SearchConfig → Search
  gpu_f1 : EntropyMix → TargetSet → GpuArgs → Search
  gpu_classic : EntropyMix → TargetSet → ClassicArgs → Search

unfoldable pub targets : PatternArgs → Result StartError TargetSet
targets p = map_err bad_pattern (parse p.prefix p.suffix p.pattern p.keep_found)

-- `unwrap_or`
unfoldable pub or_else : Option ℕ → ℕ → ℕ
or_else none d = d
or_else (some n) d = n

unfoldable pub hit_count : Option ℕ → TargetSet → Result StartError ℕ
hit_count given s =
    let count = or_else given (default_count s) in
    bind (ensure (leb 1 count) bad_count) (λ _. ok count)

unfoldable pub made_mix : Option EntropyMix → Result StartError EntropyMix
made_mix none = err tpm_waits
made_mix (some m) = ok m

unfoldable pub open_mix : Crates → Host → Option (List ℕ) → Result StartError EntropyMix
open_mix x h arg =
    bind (map_err bad_extra (load_extra_entropy arg h.file))
      (λ e. made_mix (new_mix x h.tpm h.delta e))

unfoldable pub cpu_config : EntropyMix → TargetSet → ℕ → SearchArgs → SearchConfig
cpu_config mix s count a = record {
  mix = mix;
  targets = s;
  max_salt = a.max_salt;
  canonical_only = not a.allow_non_canonical;
  threads = a.threads;
  count = count;
  out_dir = a.out;
  progress = not a.quiet;
}

-- A classic search has no salts.
unfoldable pub search_scheme :
    Crates → Host → SearchArgs → TargetSet → ℕ → Scheme → Result StartError Search
search_scheme x h a s count ed25519 = bind (ensure (not a.allow_non_canonical) f1_only) (λ _.
    bind (open_mix x h a.extra_entropy) (λ mix.
      bind (ensure (h.makes_dir a.out) no_dir) (λ _. ok (cpu_classic (cpu_config mix s count a)))))
search_scheme x h a s count f1 =
    bind (open_mix x h a.extra_entropy) (λ mix.
      bind (ensure (h.makes_dir a.out) no_dir) (λ _. ok (cpu_f1 (cpu_config mix s count a))))

unfoldable pub cmd_search : Crates → Host → SearchArgs → Result StartError Search
cmd_search x h a = bind (ensure (leb 1 a.threads) bad_threads) (λ _.
    bind (targets a.pat)
      (λ s. bind (hit_count a.count s) (λ count. search_scheme x h a s count a.scheme)))

-- The checks before either GPU search, and its entropy.
unfoldable pub open_gpu : Crates → Host → GpuOptions → Result StartError EntropyMix
open_gpu x h a = bind (ensure h.compiled not_compiled) (λ _. bind (ensure h.linked not_linked) (λ _.
    bind (ensure (leb 1 h.devices) no_device)
      (λ _. bind (ensure (h.makes_dir a.out) no_dir) (λ _. open_mix x h a.extra_entropy))))

unfoldable pub f1_args : Host → GpuOptions → ℕ → GpuArgs
f1_args h a count =
    let canonical_only = not a.allow_non_canonical in
    record {
      count = count;
      items = or_else a.items (2 ^ 22);
      max_salt = or_else a.max_salt (if canonical_only then 31 else 255);
      canonical_only = canonical_only;
      allow_sibling_hits = a.allow_sibling_hits;
      max_hits = a.max_hits;
      batches = a.batches;
      threads = default_threads h.cores;
    }

unfoldable pub classic_args : GpuOptions → ℕ → ClassicArgs
classic_args a count = record {
  count = count;
  items = or_else a.items (2 ^ 26);
  allow_sibling_hits = a.allow_sibling_hits;
  max_hits = a.max_hits;
  batches = a.batches;
}

unfoldable pub gpu_scheme :
    Crates → Host → GpuOptions → TargetSet → ℕ → Scheme → Result StartError Search
gpu_scheme x h a s count ed25519 =
    bind (ensure (not a.allow_non_canonical && not (is_some a.max_salt)) f1_only)
      (λ _. bind (open_gpu x h a) (λ mix. ok (gpu_classic mix s (classic_args a count))))
gpu_scheme x h a s count f1 = bind (open_gpu x h a) (λ mix. ok (gpu_f1 mix s (f1_args h a count)))

unfoldable pub cmd_gpu : Crates → Host → GpuOptions → Result StartError Search
cmd_gpu x h a = bind (targets a.pat) (λ s.
    bind (ensure (check_gpu s.list) beyond_gpu)
      (λ _. bind (hit_count a.count s) (λ count. gpu_scheme x h a s count a.scheme)))
