-- ===== src/Targets/Set/Tally.antt =====
-- What has been written out of a list of targets, against the flags.
use falcon_vanity_generator.Base.{
  ℕ, ◌+◌, true, List, [], ◌∷◌, ◌++◌, ◌≡◌, inl, inr, arith, ◌==◌, if◌then◌else◌, Bool-cases, ==_iff,
}
use falcon_vanity_generator.Targets.Set.{TargetSet, is_active, claim}
use falcon_vanity_generator.Targets.Set.Claim.{claim-is_active}

-- How often target `j` occurs among the hits of a log, and whether it is still searched for.
unfoldable pub tally {ℓ} : {A : Type ℓ} → (A → ℕ) → ℕ → List A → ℕ
tally target j [] = 0
tally target j (v ∷ vs) = (if target v == j then 1 else 0) + tally target j vs

unfoldable pub flag : TargetSet → ℕ → ℕ
flag s j = if is_active s j then 1 else 0

pub tally-append {ℓ} :
    {A : Type ℓ} (target : A → ℕ) (j : ℕ) (xs ys : List A)
    → tally target j (xs ++ ys) ≡ tally target j xs + tally target j ys
unfolding tally
tally-append target j [] ys = omega arith
tally-append target j (x ∷ xs) ys = omega (arith, tally-append target j xs ys)

pub flag-claim :
    (s : TargetSet) (i j : ℕ)
    → s.retire ≡ true
    → is_active s i ≡ true
    → (if i == j then 1 else 0) + flag (claim s i).0 j ≡ flag s j
unfolding flag
flag-claim s i j retiring on = elim (Bool-cases (i == j)) [
  | inl same ↦
      let e : i ≡ j = (==_iff i j).0 same in
      let on_j : is_active s j ≡ true = rw (← e) on in
      ground (arith, claim-is_active s i j retiring)
  | inr other ↦ ground (arith, claim-is_active s i j retiring)
]

-- Writing a hit of an active target moves one from the flags to the log.
pub tally-claim {ℓ} :
    {A : Type ℓ} (target : A → ℕ) (s : TargetSet) (log : List A) (v : A) (j start : ℕ)
    → s.retire ≡ true
    → is_active s (target v) ≡ true
    → tally target j log + flag s j ≡ start
    → tally target j (log ++ v ∷ []) + flag (claim s (target v)).0 j ≡ start
tally-claim target s log v j start retiring on e =
    let one : tally target j (v ∷ []) ≡ (if target v == j then 1 else 0) =
      unfold tally in omega arith in
    omega (arith, flag-claim s (target v) j retiring on, one, tally-append target j log (v ∷ []))
