-- ===== src/Search/Protocol/Stuck.antt =====
-- The workers when none of them can make a step.
use falcon_vanity_generator.Base.{
  ℕ, suc, ◌+◌, Bool, true, false, not, ◌&&◌, ◌||◌, none, some, List, [], ◌∷◌, get_elem?, ◌≡◌, refl,
  inl, inr, arith, leb, Bool-cases,
}
use falcon_vanity_generator.Targets.Set.{any_active, claim}
use falcon_vanity_generator.Search.Protocol.{
  Pc, Shared, System, advance, searching, over, over_stop, stopping, releasing, failing, returned,
  matched, claimed, granted, writing, deciding,
}
use falcon_vanity_generator.Search.Protocol.Weights.{total}
use falcon_vanity_generator.Search.Protocol.Counting.{idle, all_idle}
use falcon_vanity_generator.Search.Protocol.Stopping.{gone}
use falcon_vanity_generator.Search.Protocol.Locking.{holds, bit}

-- No worker can make a step.
abbrev pub IsStuck : ℕ → System → Type 0
IsStuck count s =
    (k : ℕ) (pc : Pc) → get_elem? s.threads k ≡ some pc → advance count s.shared pc ≡ none

unfoldable pub has_returned : Pc → Bool
has_returned returned = true
has_returned pc = false

unfoldable pub all_returned : List Pc → Bool
all_returned [] = true
all_returned (pc ∷ ts) = has_returned pc && all_returned ts

unfoldable pub is_searching : Pc → Bool
is_searching searching = true
is_searching pc = false

unfoldable pub all_searching : List Pc → Bool
all_searching [] = true
all_searching (pc ∷ ts) = is_searching pc && all_searching ts

-- A worker that holds the lock can go on.
advance-holds : (count : ℕ) (s : Shared) (pc : Pc) → advance count s pc ≡ none → holds pc ≡ 0
unfolding advance holds
advance-holds count s over e = refl
advance-holds count s searching e = refl
advance-holds count s over_stop e = refl
advance-holds count s stopping e = cc
advance-holds count s releasing e = cc
advance-holds count s failing e = refl
advance-holds count s returned e = refl
advance-holds count s (matched t) e = refl
advance-holds count s (claimed t) e = refl
advance-holds count s (granted n t) e = refl
advance-holds count s (writing n t) e = cc
advance-holds count s (deciding n) e =
    elim (Bool-cases (leb count (n + 1) || not (any_active s.targets))) [
      | inl last ↦ (let q = rw last at e in cc)
      | inr more ↦ (let q = rw more at e in cc)
    ]

-- With the lock free, only a worker in its search cannot go on, and only while the flag is off.
advance-idle :
    (count : ℕ) (s : Shared) (pc : Pc)
    → s.locked ≡ false
    → advance count s pc ≡ none
    → (idle pc ≡ true)
      × (s.stop ≡ true → has_returned pc ≡ true)
      × (gone pc ≡ 0 → is_searching pc ≡ true)
unfolding advance idle has_returned holds gone is_searching
advance-idle count s searching free e = (refl, λ on. (let q = rw on at e in cc), λ z. refl)
advance-idle count s returned free e = (refl, λ on. refl, λ z. absurd (omega (arith, z)))
advance-idle count s over free e = cc
advance-idle count s over_stop free e = cc
advance-idle count s stopping free e = cc
advance-idle count s releasing free e = cc
advance-idle count s failing free e = cc
advance-idle count s (matched t) free e = elim (Bool-cases (claim s.targets t).1) [
  | inl first ↦ (let q = rw first at e in cc)
  | inr lost ↦ (let q = rw lost at e in cc)
]
advance-idle count s (claimed t) free e = elim (Bool-cases (leb count s.hits)) [
  | inl enough ↦ (let q = rw enough at e in cc)
  | inr more ↦ (let q = rw more at e in cc)
]
advance-idle count s (granted n t) free e = (let q = rw free at e in cc)
advance-idle count s (writing n t) free e = cc
advance-idle count s (deciding n) free e = let z = advance-holds count s (deciding n) e in cc

pub stuck-holds :
    (count : ℕ) (s : Shared) (ts : List Pc)
    → IsStuck count (record { shared = s; threads = ts })
    → total holds ts ≡ 0
unfolding total
stuck-holds count s [] stuck = refl
stuck-holds count s (pc ∷ ts) stuck = omega (
  arith,
  advance-holds count s pc (stuck 0 pc refl),
  stuck-holds count s ts (λ k pc' at. stuck (suc k) pc' at),
)

pub stuck-idle :
    (count : ℕ) (s : Shared) (ts : List Pc)
    → s.locked ≡ false
    → IsStuck count (record { shared = s; threads = ts })
    → (all_idle ts ≡ true)
      × (s.stop ≡ true → all_returned ts ≡ true)
      × (total gone ts ≡ 0 → all_searching ts ≡ true)
unfolding all_idle all_returned all_searching total
stuck-idle count s [] free stuck = (refl, λ on. refl, λ z. refl)
stuck-idle count s (pc ∷ ts) free stuck =
    let (one, back, search) = advance-idle count s pc free (stuck 0 pc refl) in
    let (rest, all_back, all_search) =
      stuck-idle count s ts free (λ k pc' at. stuck (suc k) pc' at) in
    (
      rw (one, rest) refl,
      λ on. rw (back on, all_back on) refl,
      λ z. rw (search (omega (arith, z)), all_search (omega (arith, z))) refl,
    )

pub bit-zero : (b : Bool) → bit b ≡ 0 → b ≡ false
unfolding bit
bit-zero true h = absurd (omega (arith, h))
bit-zero false h = refl
