-- ===== src/Targets/Parse/Longest.antt =====
-- The longest prefix among the targets, for `TargetSet::parse`.
use falcon_vanity_generator.Base.{
  ℕ, ◌≤◌, true, List, [], ◌∷◌, length, All, ◌≡◌, refl, inl, inr, arith, ltb, Bool-cases,
  list_eq_iff,
}
use falcon_vanity_generator.Targets.{Target}
use falcon_vanity_generator.Targets.Parse.{target_eq, contains, longest_prefix}

pub longest_prefix-le :
    (ts : List Target) (n : ℕ) → longest_prefix ts ≤ n → All (λ t. length t.prefix ≤ n) ts
unfolding longest_prefix
longest_prefix-le [] n h = tt
longest_prefix-le (t ∷ ts) n h = (ground arith, longest_prefix-le ts n (ground arith))

contains-here : (t : Target) (ts : List Target) → contains (t ∷ ts) t ≡ true
unfolding contains target_eq
contains-here t ts =
    ground (arith, (list_eq_iff t.prefix t.prefix).1 refl, (list_eq_iff t.suffix t.suffix).1 refl)

contains-later :
    (u t : Target) (ts : List Target) → contains ts t ≡ true → contains (u ∷ ts) t ≡ true
unfolding contains
contains-later u t ts h = ground arith

-- Some target has a prefix of that length.
pub longest_prefix-reached :
    (ts : List Target)
    → 1 ≤ length ts
    → (t : Target) × (contains ts t ≡ true) × (length t.prefix ≡ longest_prefix ts)
unfolding longest_prefix
longest_prefix-reached [] h = absurd (omega (arith, h))
longest_prefix-reached (t ∷ []) h = (t, contains-here t [], ground arith)
longest_prefix-reached (t ∷ (u ∷ us)) h =
    let (v, at, e) = longest_prefix-reached (u ∷ us) (omega arith) in
    elim (Bool-cases (ltb (longest_prefix (u ∷ us)) (length t.prefix))) [
      | inl longer ↦ (t, contains-here t (u ∷ us), rw longer refl)
      | inr other ↦ (v, contains-later t v (u ∷ us) at, rw other e)
    ]
