-- ===== src/Search/Protocol/Counting.antt =====
-- The hit counter under any interleaving of the workers.
use falcon_vanity_generator.Base.{
  ℕ, ◌+◌, ◌-◌, ◌^◌, ◌≤◌, ◌<◌, Bool, true, false, not, ◌&&◌, ◌||◌, Option, some, List, [], ◌∷◌,
  length, get_elem?, set, ◌≡◌, refl, inl, inr, arith, leb, Bool-cases, length-append, some_inj,
}
use mathlib.Core.Path.{subst}
use falcon_vanity_generator.Targets.Set.{any_active, claim}
use falcon_vanity_generator.Search.Protocol.Weights.{
  total, total-set, total-le, total-ge, length-set,
}
use falcon_vanity_generator.Search.Protocol.{
  Pc, Shared, System, Step, Reachable, advance, searching, over, over_stop, stopping, releasing,
  failing, fails, returned, matched, claimed, granted, writing, deciding, finds, moves, here, later,
}

-- The workers with a number and no file yet, and those that have counted too far.
unfoldable pub pending : Pc → ℕ
pending (granted n t) = 1
pending (writing n t) = 1
pending pc = 0

unfoldable pub too_far : Pc → ℕ
too_far over = 1
too_far pc = 0

too_far_le : (pc : Pc) → too_far pc ≤ 1
unfolding too_far
too_far_le over = omega arith
too_far_le searching = omega arith
too_far_le over_stop = omega arith
too_far_le stopping = omega arith
too_far_le releasing = omega arith
too_far_le failing = omega arith
too_far_le returned = omega arith
too_far_le (matched t) = omega arith
too_far_le (claimed t) = omega arith
too_far_le (granted n t) = omega arith
too_far_le (writing n t) = omega arith
too_far_le (deciding n) = omega arith

-- One access of one worker, with `P` pending and `O` too far among the others.
abbrev pub Counts : ℕ → ℕ → ℕ → Shared → Pc → Type 0
Counts count P O s pc =
    (s.hits ≡ length s.log + (pending pc + P) + (too_far pc + O))
    × (length s.log + (pending pc + P) ≤ count)

outcome :
    (count P O : ℕ) (s' : Shared) (pc' : Pc) {r : Shared × Pc}
    → ◌≡◌ {A = Option (Shared × Pc)} (some r) (some (s', pc'))
    → Counts count P O r.0 r.1
    → Counts count P O s' pc'
outcome count P O s' pc' e g = subst (λ r. Counts count P O r.0 r.1) (some_inj e) g

pub advance-Counts :
    (count P O : ℕ) (s s' : Shared) (pc pc' : Pc)
    → advance count s pc ≡ some (s', pc')
    → count + O + 1 < 2 ^ 64
    → Counts count P O s pc
    → Counts count P O s' pc'
unfolding advance pending too_far
advance-Counts count P O s s' searching pc' e m g = elim (Bool-cases s.stop) [
  | inl on ↦ outcome count P O s' pc' (rw on at e) g
  | inr off ↦ (let q = rw off at e in cc)
]
advance-Counts count P O s s' over pc' e m g =
    outcome count P O s' pc' e (omega (arith, g.0, g.1), omega (arith, g.1))
advance-Counts count P O s s' over_stop pc' e m g = outcome count P O s' pc' e g
advance-Counts count P O s s' stopping pc' e m g = outcome count P O s' pc' e g
advance-Counts count P O s s' releasing pc' e m g = outcome count P O s' pc' e g
advance-Counts count P O s s' failing pc' e m g = outcome count P O s' pc' e g
advance-Counts count P O s s' returned pc' e m g = cc
advance-Counts count P O s s' (matched t) pc' e m g = elim (Bool-cases (claim s.targets t).1) [
  | inl first ↦ outcome count P O s' pc' (rw first at e) g
  | inr lost ↦ outcome count P O s' pc' (rw lost at e) g
]
advance-Counts count P O s s' (claimed t) pc' e m g = elim (Bool-cases (leb count s.hits)) [
  | inl enough ↦
      outcome count P O s' pc' (rw enough at e) (omega (arith, g.0, g.1), omega (arith, g.1))
  | inr more ↦
      let lt : s.hits < count = ground arith in
      outcome count P O s' pc' (rw more at e) (omega (arith, g.0, g.1), omega (arith, g.0))
]
advance-Counts count P O s s' (granted n t) pc' e m g = elim (Bool-cases s.locked) [
  | inl held ↦ (let q = rw held at e in cc)
  | inr free ↦ outcome count P O s' pc' (rw free at e) g
]
advance-Counts count P O s s' (writing n t) pc' e m g =
    let len = length-append s.log ((n + 1, t) ∷ []) in
    outcome count P O s' pc' e (omega (arith, len, g.0), omega (arith, len, g.1))
advance-Counts count P O s s' (deciding n) pc' e m g =
    elim (Bool-cases (leb count (n + 1) || not (any_active s.targets))) [
      | inl last ↦ outcome count P O s' pc' (rw last at e) g
      | inr more ↦ outcome count P O s' pc' (rw more at e) g
    ]

-- The counter is the number of hits that are written or have their number, and of the workers that
-- have counted too far; the former are at most `count`.
pub record IsCounted (count : ℕ) (s : System) : Type 0 where
  pub counter :
      s.shared.hits ≡ length s.shared.log + total pending s.threads + total too_far s.threads
  pub bound : length s.shared.log + total pending s.threads ≤ count
  pub machine : count + length s.threads < 2 ^ 64

replaced :
    (count : ℕ) (ts : List Pc) (k : ℕ) (pc pc' : Pc) (s s' : Shared)
    → get_elem? ts k ≡ some pc
    → ((P O : ℕ) → count + O + 1 < 2 ^ 64 → Counts count P O s pc → Counts count P O s' pc')
    → IsCounted count (record { shared = s; threads = ts })
    → IsCounted count (record { shared = s'; threads = set ts k pc' })
replaced count ts k pc pc' s s' at step g =
    let p = total-set pending ts k pc pc' at in
    let p_ge = total-ge pending ts k pc at in
    let o = total-set too_far ts k pc pc' at in
    let o_ge = total-ge too_far ts k pc at in
    let others : total too_far ts - too_far pc + 1 ≤ length ts =
      (let one : too_far over ≡ 1 = unfold too_far in refl in
        omega (
          arith,
          one,
          total-set too_far ts k pc over at,
          total-le too_far (set ts k over) too_far_le,
          length-set ts k over,
        )) in
    let after =
      step (total pending ts - pending pc) (total too_far ts - too_far pc)
        (omega (arith, g.machine, others))
        (omega (arith, g.counter, p_ge, o_ge), omega (arith, g.bound, p_ge)) in
    record {
      counter = omega (arith, after.0, p, o, p_ge, o_ge);
      bound = omega (arith, after.1, p, p_ge);
      machine = omega (arith, g.machine, length-set ts k pc');
    }

-- Every step keeps the count.
pub Step-IsCounted :
    (count : ℕ) (s s' : System) → Step count s s' → IsCounted count s → IsCounted count s'
unfolding pending too_far
Step-IsCounted count _ _ (finds s ts k t at) g =
    replaced count ts k searching (matched t) s s at (λ P O m h. h) g
Step-IsCounted count _ _ (fails s ts k at) g =
    replaced count ts k searching failing s s at (λ P O m h. h) g
Step-IsCounted count _ _ (moves s s' ts k pc pc' at e) g =
    replaced count ts k pc pc' s s' at (λ P O m h. advance-Counts count P O s s' pc pc' e m h) g

-- In every reachable state of the workers the counter is right.
pub Reachable-IsCounted :
    (count : ℕ) (start s : System)
    → IsCounted count start
    → Reachable count start s
    → IsCounted count s
Reachable-IsCounted count start _ g here = g
Reachable-IsCounted count start _ g (later s s' r step) =
    Step-IsCounted count s s' step (Reachable-IsCounted count start s g r)

-- A worker that is not recording a hit.
unfoldable pub idle : Pc → Bool
idle searching = true
idle returned = true
idle pc = false

unfoldable pub all_idle : List Pc → Bool
all_idle [] = true
all_idle (pc ∷ ts) = idle pc && all_idle ts

pub idle-total :
    (w : Pc → ℕ) (ts : List Pc)
    → w searching ≡ 0
    → w returned ≡ 0
    → all_idle ts ≡ true
    → total w ts ≡ 0
unfolding all_idle idle total
idle-total w [] zs zr h = refl
idle-total w (searching ∷ ts) zs zr h = omega (arith, zs, idle-total w ts zs zr (ground arith))
idle-total w (returned ∷ ts) zs zr h = omega (arith, zr, idle-total w ts zs zr (ground arith))
idle-total w (over ∷ ts) zs zr h = cc
idle-total w (over_stop ∷ ts) zs zr h = cc
idle-total w (stopping ∷ ts) zs zr h = cc
idle-total w (releasing ∷ ts) zs zr h = cc
idle-total w (failing ∷ ts) zs zr h = cc
idle-total w (matched t ∷ ts) zs zr h = cc
idle-total w (claimed t ∷ ts) zs zr h = cc
idle-total w (granted n t ∷ ts) zs zr h = cc
idle-total w (writing n t ∷ ts) zs zr h = cc
idle-total w (deciding n ∷ ts) zs zr h = cc

pub idle-pending :
    (ts : List Pc) → all_idle ts ≡ true → (total pending ts ≡ 0) × (total too_far ts ≡ 0)
unfolding pending too_far
idle-pending ts h = (idle-total pending ts refl refl h, idle-total too_far ts refl refl h)

-- If the counter is right at the start, then under any interleaving at most `count` hits are
-- written, and whenever no worker is recording a hit, the counter is the number of hits written.
pub hits_counted :
    (count : ℕ) (start s : System)
    → IsCounted count start
    → Reachable count start s
    → (length s.shared.log ≤ count)
      × (all_idle s.threads ≡ true → s.shared.hits ≡ length s.shared.log)
hits_counted count start s g r =
    let c = Reachable-IsCounted count start s g r in
    (
      omega (arith, c.bound),
      λ h. let q = idle-pending s.threads h in omega (arith, c.counter, q.0, q.1),
    )
