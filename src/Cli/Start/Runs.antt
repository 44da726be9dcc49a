-- ===== src/Cli/Start/Runs.antt =====
-- What the options of `search` mean for the hits that its workers write.
use falcon_vanity_generator.Base.{
  ℕ, ◌+◌, ◌^◌, ◌≤◌, ◌<◌, false, Option, none, some, List, [], ◌∷◌, length, ◌≡◌, refl, ◌∙◌, ◌⊎◌, inl,
  inr, arith, Bool-cases, some_inj,
}
use mathlib.Core.Path.{subst}
use falcon_vanity_generator.Base.Results.{ok}
use falcon_vanity_generator.Targets.Set.{TargetSet, default_count}
use falcon_vanity_generator.Targets.Set.Tally.{tally}
use falcon_vanity_generator.Search.Protocol.{System, Reachable, spawned}
use falcon_vanity_generator.Search.Protocol.Counting.{hits_counted}
use falcon_vanity_generator.Search.Protocol.Numbers.{spawned-IsCounted}
use falcon_vanity_generator.Search.Protocol.Once.{entry_target, Reachable-IsOnce}
use falcon_vanity_generator.Crates.{Crates}
use falcon_vanity_generator.Cli.Args.{SearchArgs}
use falcon_vanity_generator.Cli.Start.{
  Host, Search, SearchConfig, cpu_f1, cpu_classic, gpu_f1, gpu_classic, cmd_search,
}
use falcon_vanity_generator.Cli.Start.Starts.{
  IsConfig, IsSearch, started_f1, started_classic, cmd_search-IsSearch,
}

tally_le : {A : Type 0} (w : A → ℕ) (j : ℕ) (xs : List A) → tally w j xs ≤ length xs
unfolding tally
tally_le w j [] = omega arith
tally_le w j (x ∷ xs) = ground (arith, tally_le w j xs)

-- The configuration of a search on the CPU, which both schemes share.
unfoldable pub on_cpu : Search → Option SearchConfig
on_cpu (cpu_f1 cfg) = some cfg
on_cpu (cpu_classic cfg) = some cfg
on_cpu (gpu_f1 mix s a) = none
on_cpu (gpu_classic mix s a) = none

IsSearch-IsConfig :
    (x : Crates) (h : Host) (a : SearchArgs) (search : Search) (cfg : SearchConfig)
    → IsSearch x h a search
    → on_cpu search ≡ some cfg
    → IsConfig x h a cfg
unfolding on_cpu
IsSearch-IsConfig x h a _ cfg (started_f1 c g which) e = subst (IsConfig x h a) (some_inj e) g
IsSearch-IsConfig x h a _ cfg (started_classic c g which canonical) e =
    subst (IsConfig x h a) (some_inj e) g

-- Without `--count` the number is the default of the set.
default_counted :
    (given : Option ℕ) (count d : ℕ)
    → given ≡ none
    → (given ≡ some count) ⊎ ((given ≡ none) × (count ≡ d))
    → count ≡ d
default_counted given count d none_given (inl one) = cc
default_counted given count d none_given (inr (e, z)) = z

not_retiring : (t : TargetSet) → t.retire ≡ false → default_count t ≡ 1
unfolding default_count
not_retiring t keeping = rw keeping refl

-- If `cmd_search` starts a search on the CPU, of either scheme, without `--count` and without
-- `--keep-found`, and the hits asked for and the workers fit a u64, then in every state that the workers
-- reach, each target has been written at most once.
pub one_hit_per_target :
    (x : Crates) (h : Host) (a : SearchArgs) (search : Search) (cfg : SearchConfig) (s : System)
    (j : ℕ)
    → cmd_search x h a ≡ ok search
    → on_cpu search ≡ some cfg
    → a.count ≡ none
    → a.pat.keep_found ≡ false
    → cfg.count + cfg.threads < 2 ^ 64
    → Reachable cfg.count (spawned cfg.targets cfg.threads) s
    → tally entry_target j s.shared.log ≤ 1
one_hit_per_target x h a search cfg s j e c no_count retires machine r =
    let g = IsSearch-IsConfig x h a search cfg (cmd_search-IsSearch x h a search e) c in
    elim (Bool-cases cfg.targets.retire) [
      | inl retiring ↦
          let o = Reachable-IsOnce cfg.count cfg.threads j cfg.targets s retiring r in
          omega (arith, o.once)
      | inr keeping ↦
          let one : cfg.count ≡ 1 =
            default_counted a.count cfg.count (default_count cfg.targets) no_count g.counts
            ∙ not_retiring cfg.targets keeping in
          let counted = spawned-IsCounted cfg.count cfg.threads cfg.targets machine in
          let few = hits_counted cfg.count (spawned cfg.targets cfg.threads) s counted r in
          omega (arith, one, few.0, tally_le entry_target j s.shared.log)
    ]
