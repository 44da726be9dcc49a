-- ===== src/Search/Protocol/Ledger.antt =====
-- The interleaved workers against a ledger to which hits are added one at a time.
use falcon_vanity_generator.Base.{
  ℕ, ◌+◌, ◌^◌, ◌<◌, Bool, true, not, ◌||◌, Option, some, List, [], ◌∷◌, ◌++◌, length, get_elem?,
  ◌≡◌, refl, sym, ap, ◌∙◌, ◌⊎◌, inl, inr, arith, ltb, leb, if◌then◌else◌, Bool-cases, some_inj,
}
use mathlib.Core.Path.{subst}
use falcon_vanity_generator.Targets.Set.{TargetSet, any_active, claim}
use falcon_vanity_generator.Targets.Set.Tally.{tally}
use falcon_vanity_generator.Search.Protocol.{
  Pc, Shared, System, Step, Reachable, advance, searching, over, over_stop, stopping, releasing,
  failing, fails, returned, matched, claimed, granted, writing, deciding, finds, moves, here, later,
  spawned,
}
use falcon_vanity_generator.Search.Protocol.Weights.{total, total-ge}
use falcon_vanity_generator.Search.Protocol.Counting.{pending, all_idle, idle-pending}
use falcon_vanity_generator.Search.Protocol.Once.{claims_target, entry_target, Reachable-IsOnce}
use falcon_vanity_generator.Search.Protocol.Numbers.{
  idle-has_number, has_number, entry_number, Reachable-IsGiven,
}

-- A hit may be added while there are fewer than `count`, with a number up to `count` that no other hit
-- has, and in retiring mode for a target that has none yet.
pub data Adds (count : ℕ) (retire : Bool) : List (ℕ × ℕ) → List (ℕ × ℕ) → Type 0 where
  adds :
      (log : List (ℕ × ℕ)) (n t : ℕ)
      → length log < count
      → n < count
      → tally entry_number (n + 1) log ≡ 0
      → (retire ≡ true → tally entry_target t log ≡ 0)
      → Adds count retire log (log ++ (n + 1, t) ∷ [])

pub data Ledger (count : ℕ) (retire : Bool) : List (ℕ × ℕ) → Type 0 where
  opened : Ledger count retire []
  extended :
      (log log' : List (ℕ × ℕ))
      → Ledger count retire log
      → Adds count retire log log'
      → Ledger count retire log'

-- What an access does to the log.
pub data LogChange (log : List (ℕ × ℕ)) : Pc → List (ℕ × ℕ) → Type 0 where
  same : (pc : Pc) (log' : List (ℕ × ℕ)) → log' ≡ log → LogChange log pc log'
  writes :
      (n t : ℕ) (log' : List (ℕ × ℕ))
      → log' ≡ log ++ (n + 1, t) ∷ []
      → LogChange log (writing n t) log'

kept :
    (s s' : Shared) (pc pc' : Pc) {r : Shared × Pc}
    → ◌≡◌ {A = Option (Shared × Pc)} (some r) (some (s', pc'))
    → r.0.log ≡ s.log
    → LogChange s.log pc s'.log
kept s s' pc pc' e q = same pc s'.log (ap (λ (r : Shared × Pc). r.0.log) (sym (some_inj e)) ∙ q)

pub advance-LogChange :
    (count : ℕ) (s s' : Shared) (pc pc' : Pc)
    → advance count s pc ≡ some (s', pc')
    → LogChange s.log pc s'.log
unfolding advance
advance-LogChange count s s' searching pc' e = elim (Bool-cases s.stop) [
  | inl on ↦ kept s s' searching pc' (rw on at e) refl
  | inr off ↦ (let q = rw off at e in cc)
]
advance-LogChange count s s' over pc' e = kept s s' over pc' e refl
advance-LogChange count s s' over_stop pc' e = kept s s' over_stop pc' e refl
advance-LogChange count s s' stopping pc' e = kept s s' stopping pc' e refl
advance-LogChange count s s' releasing pc' e = kept s s' releasing pc' e refl
advance-LogChange count s s' failing pc' e = kept s s' failing pc' e refl
advance-LogChange count s s' returned pc' e = cc
advance-LogChange count s s' (matched t) pc' e = elim (Bool-cases (claim s.targets t).1) [
  | inl first ↦ kept s s' (matched t) pc' (rw first at e) refl
  | inr lost ↦ kept s s' (matched t) pc' (rw lost at e) refl
]
advance-LogChange count s s' (claimed t) pc' e = elim (Bool-cases (leb count s.hits)) [
  | inl enough ↦ kept s s' (claimed t) pc' (rw enough at e) refl
  | inr more ↦ kept s s' (claimed t) pc' (rw more at e) refl
]
advance-LogChange count s s' (granted n t) pc' e = elim (Bool-cases s.locked) [
  | inl held ↦ (let q = rw held at e in cc)
  | inr free ↦ kept s s' (granted n t) pc' (rw free at e) refl
]
advance-LogChange count s s' (writing n t) pc' e =
    writes n t s'.log (ap (λ (r : Shared × Pc). r.0.log) (sym (some_inj e)))
advance-LogChange count s s' (deciding n) pc' e =
    elim (Bool-cases (leb count (n + 1) || not (any_active s.targets))) [
      | inl last ↦ kept s s' (deciding n) pc' (rw last at e) refl
      | inr more ↦ kept s s' (deciding n) pc' (rw more at e) refl
    ]

-- A worker that is about to write may add its hit to the ledger.
writing-Adds :
    (count threads : ℕ) (targets : TargetSet) (s : Shared) (ts : List Pc) (k n t : ℕ)
    → count + threads < 2 ^ 64
    → Reachable count (spawned targets threads) (record { shared = s; threads = ts })
    → get_elem? ts k ≡ some (writing n t)
    → Adds count targets.retire s.log (s.log ++ (n + 1, t) ∷ [])
writing-Adds count threads targets s ts k n t machine r at =
    let g =
      Reachable-IsGiven count threads n targets (record { shared = s; threads = ts }) machine r in
    let c = g.counted in
    let with_number : has_number n (writing n t) ≡ 1 = unfold has_number in ground arith in
    let with_claim : claims_target t (writing n t) ≡ 1 = unfold claims_target in ground arith in
    let one_pending : pending (writing n t) ≡ 1 = unfold pending in refl in
    let mine = total-ge (has_number n) ts k (writing n t) at in
    let its_claim = total-ge (claims_target t) ts k (writing n t) at in
    let pends = total-ge pending ts k (writing n t) at in
    let once = g.once in
    let numbers : (n < length s.log + total pending ts) × (tally entry_number (n + 1) s.log ≡ 0) =
      (ground (arith, once, mine, with_number), ground (arith, once, mine, with_number)) in
    adds s.log n t (omega (arith, c.bound, pends, one_pending)) (omega (arith, c.bound, numbers.0))
      numbers.1
      (λ retiring.
        let o =
          Reachable-IsOnce count threads t targets (record { shared = s; threads = ts }) retiring
            r in
        omega (arith, o.once, its_claim, with_claim))

changed :
    (count threads : ℕ) (targets : TargetSet) (s : Shared) (ts : List Pc) (k : ℕ) (pc : Pc)
    (log' : List (ℕ × ℕ))
    → count + threads < 2 ^ 64
    → Reachable count (spawned targets threads) (record { shared = s; threads = ts })
    → get_elem? ts k ≡ some pc
    → LogChange s.log pc log'
    → (log' ≡ s.log) ⊎ Adds count targets.retire s.log log'
changed count threads targets s ts k _ log' machine r at (same pc _ e) = inl e
changed count threads targets s ts k _ log' machine r at (writes n t _ e) = inr (
    subst (Adds count targets.retire s.log) (sym e)
      (writing-Adds count threads targets s ts k n t machine r at))

-- Each step of the workers leaves the log as it is, or adds a hit to the ledger.
Step-Adds :
    (count threads : ℕ) (targets : TargetSet) (s s' : System)
    → count + threads < 2 ^ 64
    → Reachable count (spawned targets threads) s
    → Step count s s'
    → (s'.shared.log ≡ s.shared.log) ⊎ Adds count targets.retire s.shared.log s'.shared.log
Step-Adds count threads targets _ _ machine r (finds s ts k t at) = inl refl
Step-Adds count threads targets _ _ machine r (fails s ts k at) = inl refl
Step-Adds count threads targets _ _ machine r (moves s s' ts k pc pc' at e) =
    changed count threads targets s ts k pc s'.log machine r at
      (advance-LogChange count s s' pc pc' e)

Reachable-Ledger :
    (count threads : ℕ) (targets : TargetSet) (s : System)
    → count + threads < 2 ^ 64
    → Reachable count (spawned targets threads) s
    → Ledger count targets.retire s.shared.log
unfolding spawned
Reachable-Ledger count threads targets _ machine here = opened
Reachable-Ledger count threads targets _ machine (later s s' r step) =
    let before = Reachable-Ledger count threads targets s machine r in
    elim (Step-Adds count threads targets s s' machine r step) [
      | inl e ↦ subst (Ledger count targets.retire) (sym e) before
      | inr one ↦ extended s.shared.log s'.shared.log before one
    ]

-- If `count` plus the number of workers fits a u64, the interleaved workers implement the ledger: what
-- is written in any state that they reach is a ledger, and each further step leaves it as it is or adds
-- one hit to it. Whenever no worker is recording a hit, the hits are numbered 1, 2, 3, ..., each number
-- once, up to the value of the counter.
pub workers_refine :
    (count threads : ℕ) (targets : TargetSet) (s : System)
    → count + threads < 2 ^ 64
    → Reachable count (spawned targets threads) s
    → Ledger count targets.retire s.shared.log
      × ((s' : System)
          → Step count s s'
          → (s'.shared.log ≡ s.shared.log) ⊎ Adds count targets.retire s.shared.log s'.shared.log)
      × (all_idle s.threads ≡ true
          → (j : ℕ)
          → tally entry_number (j + 1) s.shared.log ≡ (if ltb j s.shared.hits then 1 else 0))
workers_refine count threads targets s machine r = (
  Reachable-Ledger count threads targets s machine r,
  λ s' step. Step-Adds count threads targets s s' machine r step,
  λ idle j.
      let g = Reachable-IsGiven count threads j targets s machine r in
      let (p, o) = idle-pending s.threads idle in
      let held : total (has_number j) s.threads ≡ 0 = idle-has_number j s.threads idle in
      let hits : s.shared.hits ≡ length s.shared.log + total pending s.threads =
        omega (arith, g.counted.counter, o) in
      omega (arith, held) ∙ g.once ∙ ap (λ (m : ℕ). if ltb j m then 1 else 0) (sym hits),
)
