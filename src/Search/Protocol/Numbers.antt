-- ===== src/Search/Protocol/Numbers.antt =====
-- The numbers that the workers give to the hits, under any interleaving.
use falcon_vanity_generator.Base.{
  ℕ, ◌+◌, ◌^◌, ◌≤◌, ◌<◌, true, not, ◌||◌, some, List, [], ◌∷◌, ◌++◌, length, get_elem?, set,
  replicate, ◌≡◌, refl, ◌∙◌, ◌⊎◌, inl, inr, arith, ltb, leb, ◌==◌, if◌then◌else◌, Bool-cases,
  length-append, length-replicate,
}
use falcon_vanity_generator.Targets.Set.{TargetSet, any_active, claim}
use falcon_vanity_generator.Targets.Set.Tally.{tally, tally-append}
use falcon_vanity_generator.Search.Protocol.{
  Pc, Shared, System, Step, Reachable, advance, searching, over, over_stop, stopping, releasing,
  failing, fails, returned, matched, claimed, granted, writing, deciding, finds, moves, here, later,
  spawned,
}
use falcon_vanity_generator.Search.Protocol.Weights.{total, others, total-replicate}
use falcon_vanity_generator.Search.Protocol.Counting.{
  idle-total, all_idle, pending, too_far, Counts, IsCounted, Step-IsCounted,
}
use falcon_vanity_generator.Search.Protocol.Locking.{result}

-- The worker that was given the number `j` and has not written it.
unfoldable pub has_number : ℕ → Pc → ℕ
has_number j (granted n t) = if n == j then 1 else 0
has_number j (writing n t) = if n == j then 1 else 0
has_number j pc = 0

-- The number of an entry of the log, which counts from 1.
abbrev pub entry_number : ℕ × ℕ → ℕ
entry_number e = e.0

-- The number `j`, given once if it is below the numbers given so far. A worker counts too far only
-- when all are given. `P`, `O` and `N` are the sums over the other workers.
abbrev Given : ℕ → ℕ → ℕ → ℕ → ℕ → Shared → Pc → Type 0
Given count j P O N s pc =
    ((too_far pc + O ≡ 0) ⊎ (length s.log + (pending pc + P) ≡ count))
    × (tally entry_number (j + 1) s.log + (has_number j pc + N)
        ≡ (if ltb j (length s.log + (pending pc + P)) then 1 else 0))

advance-Given :
    (count j P O N : ℕ) (s s' : Shared) (pc pc' : Pc)
    → advance count s pc ≡ some (s', pc')
    → Counts count P O s pc
    → Given count j P O N s pc
    → Given count j P O N s' pc'
unfolding advance pending too_far has_number
advance-Given count j P O N s s' searching pc' e c h = elim (Bool-cases s.stop) [
  | inl on ↦ result (Given count j P O N) s' pc' (rw on at e) h
  | inr off ↦ (let q = rw off at e in cc)
]
advance-Given count j P O N s s' over pc' e c h = result (Given count j P O N) s' pc' e (elim h.0 [
  | inl impossible ↦ absurd (omega (arith, impossible))
  | inr all_given ↦ (inr all_given, h.1)
])
advance-Given count j P O N s s' over_stop pc' e c h = result (Given count j P O N) s' pc' e h
advance-Given count j P O N s s' stopping pc' e c h = result (Given count j P O N) s' pc' e h
advance-Given count j P O N s s' releasing pc' e c h = result (Given count j P O N) s' pc' e h
advance-Given count j P O N s s' failing pc' e c h = result (Given count j P O N) s' pc' e h
advance-Given count j P O N s s' returned pc' e c h = cc
advance-Given count j P O N s s' (matched t) pc' e c h = elim (Bool-cases (claim s.targets t).1) [
  | inl first ↦ result (Given count j P O N) s' pc' (rw first at e) h
  | inr lost ↦ result (Given count j P O N) s' pc' (rw lost at e) h
]
advance-Given count j P O N s s' (claimed t) pc' e c h = elim (Bool-cases (leb count s.hits)) [
  | inl enough ↦
      let many : count ≤ s.hits = ground arith in
      result (Given count j P O N) s' pc' (rw enough at e) (elim h.0 [
        | inl exact ↦ (inr (omega (arith, exact, c.0, c.1, many)), h.1)
        | inr all_given ↦ (inr all_given, h.1)
      ])
  | inr fewer ↦
      let few : s.hits < count = ground arith in
      result (Given count j P O N) s' pc' (rw fewer at e) (elim h.0 [
        | inl exact ↦
            let number : s.hits ≡ length s.log + P = omega (arith, exact, c.0) in
            (inl exact, ground (arith, number, h.1))
        | inr all_given ↦ absurd (omega (arith, all_given, c.0, few))
      ])
]
advance-Given count j P O N s s' (granted n t) pc' e c h = elim (Bool-cases s.locked) [
  | inl held ↦ (let q = rw held at e in cc)
  | inr free ↦ result (Given count j P O N) s' pc' (rw free at e) h
]
advance-Given count j P O N s s' (writing n t) pc' e c h =
    let one : tally entry_number (j + 1) ((n + 1, t) ∷ []) ≡ (if n == j then 1 else 0) =
      unfold tally in ground arith in
    let len = length-append s.log ((n + 1, t) ∷ []) in
    let more : length (s.log ++ (n + 1, t) ∷ []) + (0 + P) ≡ length s.log + (1 + P) =
      omega (arith, len) in
    let told : tally entry_number (j + 1) (s.log ++ (n + 1, t) ∷ []) + (0 + N)
        ≡ tally entry_number (j + 1) s.log + ((if n == j then 1 else 0) + N) =
      omega (arith, one, tally-append entry_number (j + 1) s.log ((n + 1, t) ∷ [])) in
    result (Given count j P O N) s' pc' e (rw more (h.0, told ∙ h.1))
advance-Given count j P O N s s' (deciding n) pc' e c h =
    elim (Bool-cases (leb count (n + 1) || not (any_active s.targets))) [
      | inl last ↦ result (Given count j P O N) s' pc' (rw last at e) h
      | inr more ↦ result (Given count j P O N) s' pc' (rw more at e) h
    ]

-- The number `j` is with one worker or in the log, once, if so many are given.
pub record IsGiven (count j : ℕ) (s : System) : Type 0 where
  pub counted : IsCounted count s
  pub too_many :
      (total too_far s.threads ≡ 0) ⊎ (length s.shared.log + total pending s.threads ≡ count)
  pub once :
      tally entry_number (j + 1) s.shared.log + total (has_number j) s.threads
      ≡ (if ltb j (length s.shared.log + total pending s.threads) then 1 else 0)

-- One worker changes; the sums change by what it changes.
replaced :
    (count j : ℕ) (ts : List Pc) (k : ℕ) (pc pc' : Pc) (s s' : Shared)
    → get_elem? ts k ≡ some pc
    → IsCounted count (record { shared = s'; threads = set ts k pc' })
    → ((P O N : ℕ) → Counts count P O s pc → Given count j P O N s pc → Given count j P O N s' pc')
    → IsGiven count j (record { shared = s; threads = ts })
    → IsGiven count j (record { shared = s'; threads = set ts k pc' })
replaced count j ts k pc pc' s s' at counted step g =
    let (P, p, p') = others pending ts k pc at in
    let (O, o, o') = others too_far ts k pc at in
    let (N, n, n') = others (has_number j) ts k pc at in
    let c = g.counted in
    let before : Given count j P O N s pc = (rw (p, o) at g.too_many, rw (p, n) at g.once) in
    let after = step P O N (omega (arith, c.counter, p, o), omega (arith, c.bound, p)) before in
    record {
      counted = counted;
      too_many = rw (p' pc', o' pc') after.0;
      once = rw (p' pc', n' pc') after.1;
    }

Step-IsGiven :
    (count j : ℕ) (s s' : System) → Step count s s' → IsGiven count j s → IsGiven count j s'
unfolding pending too_far has_number
Step-IsGiven count j _ _ (finds s ts k t at) g =
    replaced count j ts k searching (matched t) s s at
      (Step-IsCounted count _ _ (finds s ts k t at) g.counted) (λ P O N c h. h) g
Step-IsGiven count j _ _ (fails s ts k at) g =
    replaced count j ts k searching failing s s at
      (Step-IsCounted count _ _ (fails s ts k at) g.counted) (λ P O N c h. h) g
Step-IsGiven count j _ _ (moves s s' ts k pc pc' at e) g =
    replaced count j ts k pc pc' s s' at
      (Step-IsCounted count _ _ (moves s s' ts k pc pc' at e) g.counted)
      (λ P O N c h. advance-Given count j P O N s s' pc pc' e c h) g

length-replicated : (n : ℕ) → length (replicate n searching) ≡ n
length-replicated n = length-replicate n searching

pub spawned-IsCounted :
    (count n : ℕ) (targets : TargetSet) → count + n < 2 ^ 64 → IsCounted count (spawned targets n)
unfolding spawned
spawned-IsCounted count n targets machine =
    let p : total pending (replicate n searching) ≡ 0 =
      total-replicate pending n (unfold pending in refl) in
    let o : total too_far (replicate n searching) ≡ 0 =
      total-replicate too_far n (unfold too_far in refl) in
    record {
      counter = omega (arith, p, o);
      bound = omega (arith, p);
      machine = omega (arith, machine, length-replicated n);
    }

pub Reachable-IsGiven :
    (count n j : ℕ) (targets : TargetSet) (s : System)
    → count + n < 2 ^ 64
    → Reachable count (spawned targets n) s
    → IsGiven count j s
unfolding spawned
Reachable-IsGiven count n j targets _ machine here =
    let p : total pending (replicate n searching) ≡ 0 =
      total-replicate pending n (unfold pending in refl) in
    let q : total (has_number j) (replicate n searching) ≡ 0 =
      total-replicate (has_number j) n (unfold has_number in refl) in
    let none_written : tally entry_number (j + 1) [] ≡ 0 = unfold tally in refl in
    record {
      counted = spawned-IsCounted count n targets machine;
      too_many = inl (total-replicate too_far n (unfold too_far in refl));
      once = ground (arith, p, q, none_written);
    }
Reachable-IsGiven count n j targets _ machine (later s s' r step) =
    Step-IsGiven count j s s' step (Reachable-IsGiven count n j targets s machine r)

pub idle-has_number : (j : ℕ) (ts : List Pc) → all_idle ts ≡ true → total (has_number j) ts ≡ 0
unfolding has_number
idle-has_number j ts h = idle-total (has_number j) ts refl refl h
