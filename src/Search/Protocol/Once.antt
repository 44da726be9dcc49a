-- ===== src/Search/Protocol/Once.antt =====
-- How often a target is written in retiring mode, under any interleaving.
use falcon_vanity_generator.Base.{
  ℕ, ◌+◌, ◌≤◌, true, not, ◌||◌, some, [], ◌∷◌, replicate, ◌≡◌, refl, sym, ◌∙◌, inl, inr, arith, leb,
  ◌==◌, if◌then◌else◌, Bool-cases,
}
use falcon_vanity_generator.Targets.Set.{TargetSet, is_active, any_active, claim}
use falcon_vanity_generator.Targets.Set.Claim.{claim_granted, claim-retire}
use falcon_vanity_generator.Targets.Set.Tally.{tally, flag, flag-claim, tally-append}
use falcon_vanity_generator.Search.Protocol.{
  Pc, Shared, System, Step, Reachable, advance, searching, over, over_stop, stopping, releasing,
  failing, fails, returned, matched, claimed, granted, writing, deciding, finds, moves, here, later,
  spawned,
}
use falcon_vanity_generator.Search.Protocol.Weights.{total, others, total-replicate}
use falcon_vanity_generator.Search.Protocol.Locking.{result}

-- The worker that has claimed target `j` and may write it.
unfoldable pub claims_target : ℕ → Pc → ℕ
claims_target j (claimed t) = if t == j then 1 else 0
claims_target j (granted n t) = if t == j then 1 else 0
claims_target j (writing n t) = if t == j then 1 else 0
claims_target j pc = 0

-- The target of an entry of the log.
abbrev pub entry_target : ℕ × ℕ → ℕ
entry_target e = e.1

-- Target `j`, with `R` claims of it among the other workers.
abbrev AtMostOnce : ℕ → ℕ → Shared → Pc → Type 0
AtMostOnce j R s pc =
    (s.targets.retire ≡ true)
    × (tally entry_target j s.log + (claims_target j pc + R) + flag s.targets j ≤ 1)

advance-AtMostOnce :
    (count j R : ℕ) (s s' : Shared) (pc pc' : Pc)
    → advance count s pc ≡ some (s', pc')
    → AtMostOnce j R s pc
    → AtMostOnce j R s' pc'
unfolding advance claims_target
advance-AtMostOnce count j R s s' searching pc' e h = elim (Bool-cases s.stop) [
  | inl on ↦ result (AtMostOnce j R) s' pc' (rw on at e) h
  | inr off ↦ (let q = rw off at e in cc)
]
advance-AtMostOnce count j R s s' over pc' e h = result (AtMostOnce j R) s' pc' e h
advance-AtMostOnce count j R s s' over_stop pc' e h = result (AtMostOnce j R) s' pc' e h
advance-AtMostOnce count j R s s' stopping pc' e h = result (AtMostOnce j R) s' pc' e h
advance-AtMostOnce count j R s s' releasing pc' e h = result (AtMostOnce j R) s' pc' e h
advance-AtMostOnce count j R s s' failing pc' e h = result (AtMostOnce j R) s' pc' e h
advance-AtMostOnce count j R s s' returned pc' e h = cc
advance-AtMostOnce count j R s s' (matched t) pc' e h = elim (Bool-cases (claim s.targets t).1) [
  | inr lost ↦ result (AtMostOnce j R) s' pc' (rw lost at e) h
  | inl first ↦
      let on : is_active s.targets t ≡ true = sym (claim_granted s.targets t h.0) ∙ first in
      result (AtMostOnce j R) s' pc' (rw first at e)
        (claim-retire s.targets t ∙ h.0, omega (arith, h.1, flag-claim s.targets t j h.0 on))
]
advance-AtMostOnce count j R s s' (claimed t) pc' e h = elim (Bool-cases (leb count s.hits)) [
  | inl enough ↦ result (AtMostOnce j R) s' pc' (rw enough at e) (h.0, omega (arith, h.1))
  | inr more ↦ result (AtMostOnce j R) s' pc' (rw more at e) h
]
advance-AtMostOnce count j R s s' (granted n t) pc' e h = elim (Bool-cases s.locked) [
  | inl held ↦ (let q = rw held at e in cc)
  | inr free ↦ result (AtMostOnce j R) s' pc' (rw free at e) h
]
advance-AtMostOnce count j R s s' (writing n t) pc' e h =
    let one : tally entry_target j ((n + 1, t) ∷ []) ≡ (if t == j then 1 else 0) =
      unfold tally in omega arith in
    result (AtMostOnce j R) s' pc' e
      (h.0, omega (arith, h.1, one, tally-append entry_target j s.log ((n + 1, t) ∷ [])))
advance-AtMostOnce count j R s s' (deciding n) pc' e h =
    elim (Bool-cases (leb count (n + 1) || not (any_active s.targets))) [
      | inl last ↦ result (AtMostOnce j R) s' pc' (rw last at e) h
      | inr more ↦ result (AtMostOnce j R) s' pc' (rw more at e) h
    ]

-- The log, the claims and the flag of a target, together.
pub record IsOnce (j : ℕ) (s : System) : Type 0 where
  pub retiring : s.shared.targets.retire ≡ true
  pub once :
      tally entry_target j s.shared.log
        + total (claims_target j) s.threads
        + flag s.shared.targets j
      ≤ 1

Step-IsOnce : (count j : ℕ) (s s' : System) → Step count s s' → IsOnce j s → IsOnce j s'
unfolding claims_target
Step-IsOnce count j _ _ (finds s ts k t at) g =
    let (R, before, after) = others (claims_target j) ts k searching at in
    record { retiring = g.retiring; once = omega (arith, g.once, before, after (matched t)) }
Step-IsOnce count j _ _ (fails s ts k at) g =
    let (R, before, after) = others (claims_target j) ts k searching at in
    record { retiring = g.retiring; once = omega (arith, g.once, before, after failing) }
Step-IsOnce count j _ _ (moves s s' ts k pc pc' at e) g =
    let (R, before, after) = others (claims_target j) ts k pc at in
    let a =
      advance-AtMostOnce count j R s s' pc pc' e (g.retiring, omega (arith, g.once, before)) in
    record { retiring = a.0; once = omega (arith, a.1, after pc') }

flag_le : (s : TargetSet) (j : ℕ) → flag s j ≤ 1
unfolding flag
flag_le s j = ground arith

pub Reachable-IsOnce :
    (count n j : ℕ) (targets : TargetSet) (s : System)
    → targets.retire ≡ true
    → Reachable count (spawned targets n) s
    → IsOnce j s
unfolding spawned
Reachable-IsOnce count n j targets _ retiring here = record {
  retiring = retiring;
  once =
      let none_claimed : total (claims_target j) (replicate n searching) ≡ 0 =
        total-replicate (claims_target j) n (unfold claims_target in refl) in
      let none_written : tally entry_target j [] ≡ 0 = unfold tally in refl in
      omega (arith, none_claimed, none_written, flag_le targets j);
}
Reachable-IsOnce count n j targets _ retiring (later s s' r step) =
    Step-IsOnce count j s s' step (Reachable-IsOnce count n j targets s retiring r)
