-- ===== src/Cli/Start/Starts.antt =====
-- What a search that starts has been asked for.
use falcon_vanity_generator.Base.{
  ℕ, ◌≤◌, true, not, ◌↔◌, ◌⊎◌, inl, inr, Option, none, some, List, set, ◌≡◌, refl, sym, ap,
  some_inj, ◌∙◌, arith, leb,
}
use mathlib.Core.Path.{subst}
use falcon_vanity_generator.Base.Results.{ok, map_err, map_err-eq-ok, ensure-eq-ok, bind-eq-ok}
use falcon_vanity_generator.Targets.Set.{TargetSet, default_count}
use falcon_vanity_generator.Targets.Parse.{parse}
use falcon_vanity_generator.Entropy.{EntropyMix}
use falcon_vanity_generator.Crates.{Crates}
use falcon_vanity_generator.Cli.{load_extra_entropy}
use falcon_vanity_generator.Entropy.Probe.{new_mix}
use falcon_vanity_generator.Cli.Args.{Scheme, f1, ed25519, SearchArgs}
use falcon_vanity_generator.Cli.Start.{
  Host, SearchConfig, made_mix, bad_extra, bad_threads, bad_count, f1_only, bad_pattern, no_dir,
  Search, cpu_f1, cpu_classic, targets, hit_count, or_else, open_mix, cpu_config, search_scheme,
  cmd_search,
}

-- The configuration that the options ask for, field by field.
pub record IsConfig (x : Crates) (h : Host) (a : SearchArgs) (cfg : SearchConfig) : Type 0 where
  pub parses : parse a.pat.prefix a.pat.suffix a.pat.pattern a.pat.keep_found ≡ ok cfg.targets
  pub some_hit : 1 ≤ cfg.count
  pub counts :
      (a.count ≡ some cfg.count) ⊎ ((a.count ≡ none) × (cfg.count ≡ default_count cfg.targets))
  pub mixes :
      (extra : Option (List ℕ)) × (load_extra_entropy a.extra_entropy h.file ≡ ok extra)
      × (new_mix x h.tpm h.delta extra ≡ some cfg.mix)
  pub some_thread : 1 ≤ cfg.threads
  pub has_dir : h.makes_dir cfg.out_dir ≡ true
  pub max_salt : cfg.max_salt ≡ a.max_salt
  pub canonical_only : cfg.canonical_only ≡ not a.allow_non_canonical
  pub threads : cfg.threads ≡ a.threads
  pub out_dir : cfg.out_dir ≡ a.out
  pub progress : cfg.progress ≡ not a.quiet

-- The search that starts is of the scheme asked for, with canonical salts only for a classic account.
pub data IsSearch (x : Crates) (h : Host) (a : SearchArgs) : Search → Type 0 where
  started_f1 :
      (cfg : SearchConfig) → IsConfig x h a cfg → a.scheme ≡ f1 → IsSearch x h a (cpu_f1 cfg)
  started_classic :
      (cfg : SearchConfig)
      → IsConfig x h a cfg
      → a.scheme ≡ ed25519
      → cfg.canonical_only ≡ true
      → IsSearch x h a (cpu_classic cfg)

made_mix-eq-ok : (o : Option EntropyMix) (mix : EntropyMix) → made_mix o ≡ ok mix → o ≡ some mix
unfolding made_mix
made_mix-eq-ok none mix e = cc
made_mix-eq-ok (some m) mix e = let z : m ≡ mix = cc in ap some z

open_mix_iff :
    (x : Crates) (h : Host) (arg : Option (List ℕ)) (mix : EntropyMix)
    → (open_mix x h arg ≡ ok mix) ↔ (
        (extra : Option (List ℕ)) × (load_extra_entropy arg h.file ≡ ok extra)
        × (new_mix x h.tpm h.delta extra ≡ some mix))
unfolding open_mix made_mix
open_mix_iff x h arg mix = (
  λ e.
      let (extra, loaded, made) =
        bind-eq-ok (map_err bad_extra (load_extra_entropy arg h.file))
          (λ e. made_mix (new_mix x h.tpm h.delta e)) mix e in
      (
        extra,
        map_err-eq-ok bad_extra (load_extra_entropy arg h.file) extra loaded,
        made_mix-eq-ok (new_mix x h.tpm h.delta extra) mix made,
      ),
  λ (extra, loaded, made). rw (loaded, made) refl,
)

hit_count_iff :
    (given : Option ℕ) (s : TargetSet) (count : ℕ)
    → (hit_count given s ≡ ok count)
      ↔ ((1 ≤ count) × ((given ≡ some count) ⊎ ((given ≡ none) × (count ≡ default_count s))))
unfolding hit_count or_else
hit_count_iff none s count = (
  λ k.
      let (pos, e) =
        ensure-eq-ok (leb 1 (default_count s)) bad_count (ok (default_count s)) count k in
      let z : default_count s ≡ count = cc in (ground (arith, z), inr (refl, sym z)),
  λ (pos, from). elim from [
    | inl given ↦ cc
    | inr (e, z) ↦
        let many : leb 1 (default_count s) ≡ true = ground (arith, z) in rw many (ap ok (sym z))
  ],
)
hit_count_iff (some n) s count = (
  λ k.
      let (pos, e) = ensure-eq-ok (leb 1 n) bad_count (ok n) count k in
      let z : n ≡ count = cc in (ground (arith, z), inl (ap some z)),
  λ (pos, from). elim from [
    | inl given ↦
        let z : n ≡ count = some_inj given in
        let many : leb 1 n ≡ true = ground (arith, z) in rw many (ap ok z)
    | inr (e, z) ↦ cc
  ],
)

config_eq :
    (x : Crates) (h : Host) (a : SearchArgs) (cfg : SearchConfig)
    → IsConfig x h a cfg
    → cpu_config cfg.mix cfg.targets cfg.count a ≡ cfg
unfolding cpu_config
config_eq x h a cfg g = λ i. record {
  mix = cfg.mix;
  targets = cfg.targets;
  max_salt = sym g.max_salt i;
  canonical_only = sym g.canonical_only i;
  threads = sym g.threads i;
  count = cfg.count;
  out_dir = sym g.out_dir i;
  progress = sym g.progress i;
}

-- The checks that both schemes pass, in their order.
chosen :
    (x : Crates) (h : Host) (a : SearchArgs) (s : TargetSet) (count : ℕ) (mix : EntropyMix)
    → leb 1 a.threads ≡ true
    → targets a.pat ≡ ok s
    → hit_count a.count s ≡ ok count
    → open_mix x h a.extra_entropy ≡ ok mix
    → h.makes_dir a.out ≡ true
    → IsConfig x h a (cpu_config mix s count a)
unfolding cpu_config targets
chosen x h a s count mix pos set counted opened dir =
    let (some_hit, counts) = (hit_count_iff a.count s count).0 counted in
    record {
      parses =
          map_err-eq-ok bad_pattern (parse a.pat.prefix a.pat.suffix a.pat.pattern a.pat.keep_found)
            s set;
      some_hit = some_hit;
      counts = counts;
      mixes = (open_mix_iff x h a.extra_entropy mix).0 opened;
      some_thread = ground arith;
      has_dir = dir;
      max_salt = refl;
      canonical_only = refl;
      threads = refl;
      out_dir = refl;
      progress = refl;
    }

search_scheme-IsSearch :
    (x : Crates) (h : Host) (a : SearchArgs) (s : TargetSet) (count : ℕ) (scheme : Scheme)
    (search : Search)
    → leb 1 a.threads ≡ true
    → targets a.pat ≡ ok s
    → hit_count a.count s ≡ ok count
    → a.scheme ≡ scheme
    → search_scheme x h a s count scheme ≡ ok search
    → IsSearch x h a search
unfolding search_scheme
search_scheme-IsSearch x h a s count f1 search pos set counted which e =
    let (mix, opened, rest) = bind-eq-ok (open_mix x h a.extra_entropy) _ search e in
    let (dir, last) =
      ensure-eq-ok (h.makes_dir a.out) no_dir (ok (cpu_f1 (cpu_config mix s count a))) search
        rest in
    let z : cpu_f1 (cpu_config mix s count a) ≡ search = cc in
    subst (IsSearch x h a) z (
      started_f1 (cpu_config mix s count a) (chosen x h a s count mix pos set counted opened dir)
        which)
search_scheme-IsSearch x h a s count ed25519 search pos set counted which e =
    let (salts, inner) = ensure-eq-ok (not a.allow_non_canonical) f1_only _ search e in
    let (mix, opened, rest) = bind-eq-ok (open_mix x h a.extra_entropy) _ search inner in
    let (dir, last) =
      ensure-eq-ok (h.makes_dir a.out) no_dir (ok (cpu_classic (cpu_config mix s count a))) search
        rest in
    let z : cpu_classic (cpu_config mix s count a) ≡ search = cc in
    let config = chosen x h a s count mix pos set counted opened dir in
    subst (IsSearch x h a) z
      (started_classic (cpu_config mix s count a) config which (config.canonical_only ∙ salts))

pub cmd_search-IsSearch :
    (x : Crates) (h : Host) (a : SearchArgs) (search : Search)
    → cmd_search x h a ≡ ok search
    → IsSearch x h a search
unfolding cmd_search
cmd_search-IsSearch x h a search e =
    let (pos, r) = ensure-eq-ok (leb 1 a.threads) bad_threads _ search e in
    let (s, set, r2) = bind-eq-ok (targets a.pat) _ search r in
    let (count, counted, last) = bind-eq-ok (hit_count a.count s) _ search r2 in
    search_scheme-IsSearch x h a s count a.scheme search pos set counted refl last

-- What `cmd_search` makes of a configuration that the options ask for.
module _ (x : Crates) (h : Host) (a : SearchArgs) (cfg : SearchConfig)
    (g : IsConfig x h a cfg) where
  reaches_scheme : cmd_search x h a ≡ search_scheme x h a cfg.targets cfg.count a.scheme
  unfolding cmd_search targets
  reaches_scheme =
      let some_thread = g.some_thread in
      let same = g.threads in
      let enough : leb 1 a.threads ≡ true = ground arith in
      let counted = (hit_count_iff a.count cfg.targets cfg.count).1 (g.some_hit, g.counts) in
      rw (enough, g.parses, counted) refl

  starts_f1 : a.scheme ≡ f1 → cmd_search x h a ≡ ok (cpu_f1 cfg)
  unfolding search_scheme
  starts_f1 which =
      let opened = (open_mix_iff x h a.extra_entropy cfg.mix).1 g.mixes in
      let dir : h.makes_dir a.out ≡ true = ap h.makes_dir (sym g.out_dir) ∙ g.has_dir in
      reaches_scheme
      ∙ ap (search_scheme x h a cfg.targets cfg.count) which
      ∙ rw (opened, dir) (ap (λ c. ok (cpu_f1 c)) (config_eq x h a cfg g))

  starts_classic :
      a.scheme ≡ ed25519 → cfg.canonical_only ≡ true → cmd_search x h a ≡ ok (cpu_classic cfg)
  unfolding search_scheme
  starts_classic which canonical =
      let opened = (open_mix_iff x h a.extra_entropy cfg.mix).1 g.mixes in
      let dir : h.makes_dir a.out ≡ true = ap h.makes_dir (sym g.out_dir) ∙ g.has_dir in
      let salts : not a.allow_non_canonical ≡ true = sym g.canonical_only ∙ canonical in
      reaches_scheme
      ∙ ap (search_scheme x h a cfg.targets cfg.count) which
      ∙ rw (salts, opened, dir) (ap (λ c. ok (cpu_classic c)) (config_eq x h a cfg g))

IsSearch-cmd_search :
    (x : Crates) (h : Host) (a : SearchArgs) (search : Search)
    → IsSearch x h a search
    → cmd_search x h a ≡ ok search
IsSearch-cmd_search x h a _ (started_f1 cfg g which) = starts_f1 x h a cfg g which
IsSearch-cmd_search x h a _ (started_classic cfg g which canonical) =
    starts_classic x h a cfg g which canonical

-- `cmd_search` starts a search exactly when it is the one that the options ask for: of the scheme asked
-- for, with the targets that the pattern options parse to, the number of hits given or else the default
-- of the set, which is at least one, the mix that is made with the extra entropy, at least one worker, a
-- directory that can be made, and the largest salt, the workers, the directory and the progress line as
-- given; salts are canonical only unless `--allow-non-canonical` is given, which is for f1 alone.
pub cmd_search_iff :
    (x : Crates) (h : Host) (a : SearchArgs) (search : Search)
    → (cmd_search x h a ≡ ok search) ↔ IsSearch x h a search
cmd_search_iff x h a search = (cmd_search-IsSearch x h a search, IsSearch-cmd_search x h a search)
