-- ===== src/Classic/CpuRun.antt =====
-- How a run of the CPU search ends, and what it adds to the counter of keys.
use falcon_vanity_generator.Base.{
  ℕ, zero, suc, ◌+◌, ◌-◌, ◌%◌, ◌^◌, ◌≤◌, ◌<◌, Bool, true, false, Option, none, some, List, ◌≡◌, ap,
  ◌∙◌, inl, inr, arith, ◌==◌, Bool-cases, Option-cases, ==_iff,
}
use mathlib.Core.Path.{subst}
use native.Mathlib.Decide.{ℕ_discrete}
use falcon_vanity_generator.Crates.{Crates}
use falcon_vanity_generator.Targets.Set.{TargetSet, first_match}
use falcon_vanity_generator.Classic.{
  Ed25519, address, from_seed, seed_at, run_start, RunOutcome, scan_run, run_keys, cpu_run,
}

module _ (x : Crates) (d : Ed25519) (seen : ℕ → TargetSet) (stop : ℕ → Bool) (base : List ℕ) where
  -- Key `k` of the run, and what the worker finds for it.
  abbrev pub key : ℕ → List ℕ
  key k = seed_at base ((run_start base + k) % 2 ^ 64)

  abbrev pub matched : ℕ → Option ℕ
  matched k = first_match x (seen k) (address d (from_seed (key k)))

  abbrev pub Missed : ℕ → ℕ → Type 0
  Missed from to = (k : ℕ) → from ≤ k → k < to → matched k ≡ none

  -- The ends of a run of keys `i .. i + left` with `pending` keys tested before: at the first key
  -- that matches; at the stop flag, which is read after every 1024 keys; or at the end. The
  -- counter grows by the number of keys tested, the last one included.
  pub data RunEnds (i left pending : ℕ) (r : RunOutcome) : Type 0 where
    by_hit :
        (j t : ℕ)
        → i ≤ j
        → j < i + left
        → Missed i j
        → matched j ≡ some t
        → r ≡ record { keys = pending + (suc j - i); hit = some (key j, t); stopped = false }
        → RunEnds i left pending r
    by_stop :
        (j : ℕ)
        → i ≤ j
        → j < i + left
        → Missed i (suc j)
        → stop j ≡ true
        → (pending + (suc j - i)) % 1024 ≡ 0
        → r ≡ record { keys = pending + (suc j - i); hit = none; stopped = true }
        → RunEnds i left pending r
    by_end :
        Missed i (i + left)
        → r ≡ record { keys = pending + left; hit = none; stopped = false }
        → RunEnds i left pending r

  Missed-earlier : (i to : ℕ) → matched i ≡ none → Missed (i + 1) to → Missed i to
  Missed-earlier i to here later k lo hi = elim (ℕ_discrete i k) [
    | yes e ↦ rw e at here
    | no ne ↦ later k (omega arith) hi
  ]

  RunEnds-earlier :
      (i left pending : ℕ) (r : RunOutcome)
      → matched i ≡ none
      → RunEnds (i + 1) left (pending + 1) r
      → RunEnds i (suc left) pending r
  RunEnds-earlier i left pending r here (by_hit j t lo hi missed m e) =
      by_hit j t (omega arith) (omega arith) (Missed-earlier i j here missed) m (
        e
        ∙ ap (λ (k : ℕ). record { keys = k; hit = some (key j, t); stopped = false }) (omega arith))
  RunEnds-earlier i left pending r here (by_stop j lo hi missed s thousand e) =
      by_stop j (omega arith) (omega arith) (Missed-earlier i (suc j) here missed) s (omega arith)
        (e ∙ ap (λ (k : ℕ). record { keys = k; hit = none; stopped = true }) (omega arith))
  RunEnds-earlier i left pending r here (by_end missed e) =
      by_end (Missed-earlier i (i + suc left) here (λ k lo hi. missed k lo (omega arith)))
        (e ∙ ap (λ (k : ℕ). record { keys = k; hit = none; stopped = false }) (omega arith))

  scan_run-RunEnds :
      (left i done keys : ℕ)
      → done < 1024
      → keys % 1024 ≡ 0
      → RunEnds i left (keys + done) (scan_run x d seen stop base left i done keys)
  unfolding scan_run
  scan_run-RunEnds zero i done keys small even =
      by_end (λ k lo hi. absurd (omega arith))
        (ap (λ (k : ℕ). record { keys = k; hit = none; stopped = false }) (omega arith))
  scan_run-RunEnds (suc left) i done keys small even = elim (Option-cases (matched i)) [
    | inr (t, m) ↦
        by_hit i t (omega arith) (omega arith) (λ k lo hi. absurd (omega arith)) m
          (rw (m, scan_run)
            (ap (λ (k : ℕ). record { keys = k; hit = some (key i, t); stopped = false })
              (omega arith)))
    | inl missed ↦ elim (Bool-cases (done + 1 == 1024)) [
      | inr less ↦
          let lt : done + 1 < 1024 = ground arith in
          rw (missed, scan_run, less)
            (RunEnds-earlier i left (keys + done) _ missed (
              subst
                (λ (n : ℕ).
                  RunEnds (i + 1) left n (scan_run x d seen stop base left (i + 1) (done + 1) keys))
                (let q : keys + (done + 1) ≡ keys + done + 1 = omega arith in q)
                (scan_run-RunEnds left (i + 1) (done + 1) keys lt even)))
      | inl full ↦
          let now : done + 1 ≡ 1024 = (==_iff (done + 1) 1024).0 full in
          elim (Bool-cases (stop i)) [
            | inl stops ↦
                rw (missed, scan_run, full, stops)
                  (by_stop i (omega arith) (omega arith)
                    (Missed-earlier i (suc i) missed (λ k lo hi. absurd (omega arith))) stops
                    (omega arith)
                    (ap (λ (k : ℕ). record { keys = k; hit = none; stopped = true }) (omega arith)))
            | inr goes_on ↦
                rw (missed, scan_run, full, goes_on)
                  (RunEnds-earlier i left (keys + done) _ missed (
                    subst
                      (λ (n : ℕ).
                        RunEnds (i + 1) left n
                          (scan_run x d seen stop base left (i + 1) 0 (keys + (done + 1))))
                      (let q : keys + (done + 1) + 0 ≡ keys + done + 1 = omega arith in q)
                      (scan_run-RunEnds left (i + 1) 0 (keys + (done + 1)) (omega arith)
                        (omega arith))))
          ]
    ]
  ]

  -- A run of `cpu_worker` ends in one of the three ways, with the exact number of keys tested.
  pub run_keys-RunEnds : RunEnds 0 cpu_run 0 (run_keys x d seen stop base)
  unfolding run_keys
  run_keys-RunEnds = scan_run-RunEnds cpu_run 0 0 0 (omega arith) (omega arith)
