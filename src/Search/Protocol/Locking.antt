-- ===== src/Search/Protocol/Locking.antt =====
-- The lock under any interleaving, and the steps that a worker has left.
use falcon_vanity_generator.Base.{
  ℕ, ◌+◌, ◌<◌, Bool, not, ◌||◌, Option, some, ◌≡◌, refl, inl, inr, arith, leb, if◌then◌else◌,
  Bool-cases, some_inj,
}
use mathlib.Core.Path.{subst}
use falcon_vanity_generator.Targets.Set.{TargetSet, any_active, claim}
use falcon_vanity_generator.Search.Protocol.{
  Pc, Shared, System, Step, Reachable, advance, searching, over, over_stop, stopping, releasing,
  failing, fails, returned, matched, claimed, granted, writing, deciding, finds, moves, here, later,
  spawned,
}
use falcon_vanity_generator.Search.Protocol.Weights.{total, others, total-replicate}

-- The worker that is between `lock` and the drop of the guard.
unfoldable pub holds : Pc → ℕ
holds (writing n t) = 1
holds (deciding n) = 1
holds stopping = 1
holds releasing = 1
holds pc = 0

unfoldable pub bit : Bool → ℕ
bit b = if b then 1 else 0

-- The steps that a worker can make at most before it is back in its search, and then returns.
unfoldable pub left : Pc → ℕ
left returned = 0
left searching = 1
left failing = 1
left releasing = 2
left over_stop = 2
left stopping = 3
left over = 3
left (deciding n) = 4
left (writing n t) = 5
left (granted n t) = 6
left (claimed t) = 7
left (matched t) = 8

pub result :
    (P : Shared → Pc → Type 0) (s' : Shared) (pc' : Pc) {r : Shared × Pc}
    → ◌≡◌ {A = Option (Shared × Pc)} (some r) (some (s', pc'))
    → P r.0 r.1
    → P s' pc'
result P s' pc' e h = subst (λ r. P r.0 r.1) (some_inj e) h

-- With `R` holders among the others: the lock is held by one worker or free, and the worker has fewer
-- steps left.
abbrev After : ℕ → ℕ → Shared → Pc → Type 0
After R before s pc = (holds pc + R ≡ bit s.locked) × (left pc < before)

pub advance-After :
    (count R : ℕ) (s s' : Shared) (pc pc' : Pc)
    → advance count s pc ≡ some (s', pc')
    → holds pc + R ≡ bit s.locked
    → After R (left pc) s' pc'
unfolding advance holds bit left
advance-After count R s s' searching pc' e h = elim (Bool-cases s.stop) [
  | inl on ↦ result (After R 1) s' pc' (rw on at e) (h, omega arith)
  | inr off ↦ (let q = rw off at e in cc)
]
advance-After count R s s' over pc' e h = result (After R 3) s' pc' e (h, omega arith)
advance-After count R s s' over_stop pc' e h = result (After R 2) s' pc' e (h, omega arith)
advance-After count R s s' returned pc' e h = cc
advance-After count R s s' (matched t) pc' e h = elim (Bool-cases (claim s.targets t).1) [
  | inl first ↦ result (After R 8) s' pc' (rw first at e) (h, omega arith)
  | inr lost ↦ result (After R 8) s' pc' (rw lost at e) (h, omega arith)
]
advance-After count R s s' (claimed t) pc' e h = elim (Bool-cases (leb count s.hits)) [
  | inl enough ↦ result (After R 7) s' pc' (rw enough at e) (h, omega arith)
  | inr more ↦ result (After R 7) s' pc' (rw more at e) (h, omega arith)
]
advance-After count R s s' (granted n t) pc' e h = elim (Bool-cases s.locked) [
  | inl held ↦ (let q = rw held at e in cc)
  | inr free ↦
      result (After R 6) s' pc' (rw free at e)
        (let q = rw free at h in omega (arith, q), omega arith)
]
advance-After count R s s' (writing n t) pc' e h = result (After R 5) s' pc' e (h, omega arith)
advance-After count R s s' (deciding n) pc' e h =
    elim (Bool-cases (leb count (n + 1) || not (any_active s.targets))) [
      | inl last ↦ result (After R 4) s' pc' (rw last at e) (h, omega arith)
      | inr more ↦ result (After R 4) s' pc' (rw more at e) (h, omega arith)
    ]
advance-After count R s s' stopping pc' e h = result (After R 3) s' pc' e (h, omega arith)
advance-After count R s s' releasing pc' e h =
    let none_left : R ≡ 0 = ground arith in
    result (After R 2) s' pc' e (omega (arith, none_left), omega arith)
advance-After count R s s' failing pc' e h = result (After R 1) s' pc' e (h, omega arith)

abbrev pub IsLocked : System → Type 0
IsLocked s = total holds s.threads ≡ bit s.shared.locked

Step-IsLocked : (count : ℕ) (s s' : System) → Step count s s' → IsLocked s → IsLocked s'
unfolding holds
Step-IsLocked count _ _ (finds s ts k t at) h =
    let (R, before, after) = others holds ts k searching at in
    omega (arith, before, after (matched t), h)
Step-IsLocked count _ _ (fails s ts k at) h =
    let (R, before, after) = others holds ts k searching at in
    omega (arith, before, after failing, h)
Step-IsLocked count _ _ (moves s s' ts k pc pc' at e) h =
    let (R, before, after) = others holds ts k pc at in
    let a = advance-After count R s s' pc pc' e (omega (arith, before, h)) in
    omega (arith, after pc', a.0)

-- At most one worker holds the lock, and one does exactly when it is locked.
pub Reachable-IsLocked :
    (count n : ℕ) (targets : TargetSet) (s : System)
    → Reachable count (spawned targets n) s
    → IsLocked s
unfolding spawned holds bit
Reachable-IsLocked count n targets _ here = total-replicate holds n refl
Reachable-IsLocked count n targets _ (later s s' r step) =
    Step-IsLocked count s s' step (Reachable-IsLocked count n targets s r)
