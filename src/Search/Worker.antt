-- ===== src/Search/Worker.antt =====
-- crates/pq-vanity/src/search.rs: the loop of `worker`, and what it hands to `record_hit`.
use falcon_vanity_generator.Base.{
  ℕ, suc, ◌+◌, ◌*◌, ◌≤◌, Bool, true, false, Option, none, some, List, [], ◌∷◌, length, get_elem?,
  All, ◌≡◌, refl, sym, inl, inr, arith, if◌then◌else◌, Bool-cases, Option-cases,
}
use mathlib.Core.Path.{subst}
use falcon_vanity_generator.Crates.{Crates}
use falcon_vanity_generator.Falcon.{FalconC}
use falcon_vanity_generator.Targets.Set.{TargetSet, IsTargetSet}
use falcon_vanity_generator.Search.{Hit, Attempt, attempt}
use falcon_vanity_generator.Search.Counts.{IsCountedAttempt, attempt-counts}
use falcon_vanity_generator.Search.Sound.{IsSound, attempt-IsSound}

-- What a round of the loop reads: the stop flag, the entropy mix (`none` is its failure), and the
-- target flags at each salt.
pub record Round : Type 0 where
  pub stop : Bool
  pub entropy : Option (List ℕ)
  pub seen : ℕ → TargetSet

-- What the rounds add to the counters, the hits that they hand on, and whether the worker raises the
-- stop flag.
pub record Work : Type 0 where
  pub keys : ℕ
  pub addrs : ℕ
  pub hits : List Hit
  pub raises_stop : Bool

unfoldable pub handed : Option Hit → List Hit → List Hit
handed none hits = hits
handed (some h) hits = h ∷ hits

module _ (x : Crates) (c : FalconC) (canonical_only : Bool) (max_salt : ℕ) where
  -- The loop on the rounds to come.
  unfoldable pub worker : List Round → Work
  worker [] = record { keys = 0; addrs = 0; hits = []; raises_stop = false }
  worker (r ∷ rs) =
      let rest = worker rs in
      if r.stop
      then record { keys = 0; addrs = 0; hits = []; raises_stop = false }
      else elim r.entropy [
        | none ↦ record { keys = 0; addrs = 0; hits = []; raises_stop = true }
        | some e ↦
            let a = attempt x c r.seen canonical_only max_salt e in
            record {
              keys = a.keys + rest.keys;
              addrs = a.addrs + rest.addrs;
              hits = handed a.hit rest.hits;
              raises_stop = rest.raises_stop;
            }
      ]

-- A hit that is sound for the flags and the entropy of one of the rounds.
abbrev pub FromRound : Crates → FalconC → Bool → List Round → Hit → Type 0
FromRound x c canonical_only rounds h =
    (k : ℕ) × (r : Round) × (e : List ℕ) × (get_elem? rounds k ≡ some r)
    × (r.entropy ≡ some e)
    × IsSound x c r.seen canonical_only e h

-- What the worker does in any rounds.
pub record IsWork (x : Crates) (c : FalconC) (canonical_only : Bool) (max_salt : ℕ)
    (rounds : List Round) (w : Work) : Type 0 where
  pub sound : All (FromRound x c canonical_only rounds) w.hits
  pub per_round : w.keys ≤ length rounds
  pub per_key : w.addrs ≤ w.keys * (max_salt + 1)
  pub one_hit_each : length w.hits ≤ w.keys

module _ (x : Crates) (c : FalconC) (canonical_only : Bool) (max_salt : ℕ) where
  later_rounds :
      (r : Round) (rs : List Round) (hits : List Hit)
      → All (FromRound x c canonical_only rs) hits
      → All (FromRound x c canonical_only (r ∷ rs)) hits
  later_rounds r rs [] h = tt
  later_rounds r rs (v ∷ vs) h =
      let (k, q, e, at, of_round, sound) = h.0 in
      ((suc k, q, e, at, of_round, sound), later_rounds r rs vs h.1)

  handed-IsSound :
      (r : Round) (rs : List Round) (e : List ℕ) (o : Option Hit) (hits : List Hit)
      → r.entropy ≡ some e
      → ((h : Hit) → o ≡ some h → IsSound x c r.seen canonical_only e h)
      → All (FromRound x c canonical_only rs) hits
      → All (FromRound x c canonical_only (r ∷ rs)) (handed o hits)
  unfolding handed
  handed-IsSound r rs e none hits source sound rest = later_rounds r rs hits rest
  handed-IsSound r rs e (some h) hits source sound rest =
      ((0, r, e, refl, source, sound h refl), later_rounds r rs hits rest)

  handed-length :
      (a : Attempt) (o : Option Hit) (hits : List Hit)
      → a.hit ≡ o
      → IsCountedAttempt (max_salt + 1) a
      → length (handed o hits) ≤ a.keys + length hits
  unfolding handed
  handed-length a none hits e q = omega arith
  handed-length a (some h) hits e q = let one = (q.2 h e).0 in omega (arith, one)

  -- A round that finds the flag off and gets its entropy.
  worker_goes_on :
      (r : Round) (rs : List Round) (e : List ℕ)
      → r.stop ≡ false
      → r.entropy ≡ some e
      → worker x c canonical_only max_salt (r ∷ rs) ≡ (
          let rest = worker x c canonical_only max_salt rs in
          let a = attempt x c r.seen canonical_only max_salt e in
          record {
            keys = a.keys + rest.keys;
            addrs = a.addrs + rest.addrs;
            hits = handed a.hit rest.hits;
            raises_stop = rest.raises_stop;
          })
  unfolding worker
  worker_goes_on r rs e going there = rw (going, worker, there) refl

  -- If every set of flags that is read is well-formed, then in any rounds every hit that the worker
  -- hands to `record_hit` is sound for the flags and the entropy of one of them; the worker counts at
  -- most one key for each round, at most `max_salt + 1` addresses for each key, and hands on at most
  -- one hit for each key.
  pub worker-IsWork :
      (rounds : List Round)
      → All (λ r. (n : ℕ) → IsTargetSet (r.seen n)) rounds
      → IsWork x c canonical_only max_salt rounds (worker x c canonical_only max_salt rounds)
  unfolding worker
  worker-IsWork [] good = record {
    sound = tt;
    per_round = omega arith;
    per_key = omega arith;
    one_hit_each = omega arith;
  }
  worker-IsWork (r ∷ rs) good = elim (Bool-cases r.stop) [
    | inl stopped ↦
        rw (stopped, worker)
          (record {
            sound = tt;
            per_round = omega arith;
            per_key = omega arith;
            one_hit_each = omega arith;
          })
    | inr going ↦ elim (Option-cases r.entropy) [
      | inl failed ↦
          rw (going, worker, failed)
            (record {
              sound = tt;
              per_round = omega arith;
              per_key = omega arith;
              one_hit_each = omega arith;
            })
      | inr (e, there) ↦
          let rest = worker-IsWork rs good.1 in
          let a = attempt x c r.seen canonical_only max_salt e in
          let counts = attempt-counts x c r.seen canonical_only max_salt e in
          subst (IsWork x c canonical_only max_salt (r ∷ rs))
            (sym (worker_goes_on r rs e going there))
            (record {
              sound =
                  handed-IsSound r rs e a.hit (worker x c canonical_only max_salt rs).hits there
                    (λ h q. attempt-IsSound x c r.seen good.0 canonical_only max_salt e h q)
                    rest.sound;
              per_round = omega (arith, counts.0, rest.per_round);
              per_key = omega (arith, counts.1, rest.per_key);
              one_hit_each = omega (
                arith,
                handed-length a a.hit (worker x c canonical_only max_salt rs).hits refl counts,
                rest.one_hit_each,
              );
            })
    ]
  ]
