-- ===== src/Search/Protocol/Settles.antt =====
-- The workers when no further match is found.
use falcon_vanity_generator.Base.{
  ℕ, suc, ◌+◌, ◌-◌, ◌*◌, ◌≤◌, true, false, some, List, [], ◌∷◌, length, get_elem?, set, ◌<◌, ◌≢◌,
  ◌⊎◌, ap, ◌^◌, ◌≡◌, refl, sym, ◌∙◌, inl, inr, arith, Bool-cases,
}
use falcon_vanity_generator.Targets.Set.{TargetSet, any_active}
use falcon_vanity_generator.Search.Protocol.{
  Pc, Shared, System, Reachable, moves, later, advance, searching, over, over_stop, stopping,
  releasing, failing, returned, matched, claimed, granted, writing, deciding, spawned,
}
use native.Mathlib.Decide.{dec_lt}
use falcon_vanity_generator.Search.Protocol.Stuck.{
  IsStuck, all_returned, all_searching, stuck-holds, stuck-idle, bit-zero,
}
use falcon_vanity_generator.Search.Protocol.Weights.{total, others, total-ge}
use falcon_vanity_generator.Search.Protocol.Counting.{all_idle, idle-total, idle-pending}
use falcon_vanity_generator.Search.Protocol.Numbers.{Reachable-IsGiven, idle-has_number}
use falcon_vanity_generator.Search.Protocol.Stopping.{
  raises, closes, gone, IsDue, moves-IsDue, Reachable-IsStopping,
}
use falcon_vanity_generator.Search.Protocol.Locking.{
  holds, bit, left, advance-After, IsLocked, Reachable-IsLocked,
}

-- A run of `n` steps in which no worker finds another match and no mix fails.
pub data Moves (count : ℕ) : ℕ → System → System → Type 0 where
  no_moves : (s : System) → Moves count 0 s s
  then_moves :
      (n : ℕ) (s s' : Shared) (ts : List Pc) (k : ℕ) (pc pc' : Pc) (last : System)
      → get_elem? ts k ≡ some pc
      → advance count s pc ≡ some (s', pc')
      → Moves count n (record { shared = s'; threads = set ts k pc' }) last
      → Moves count (suc n) (record { shared = s; threads = ts }) last

Moves-left :
    (count n : ℕ) (s s' : System)
    → Moves count n s s'
    → IsLocked s
    → IsLocked s' × (n + total left s'.threads ≤ total left s.threads)
Moves-left count _ s _ (no_moves _) h = (h, omega arith)
Moves-left count _ _ last (then_moves n s s' ts k pc pc' _ at e rest) h =
    let (R, before, after) = others holds ts k pc at in
    let (L, left_before, left_after) = others left ts k pc at in
    let a = advance-After count R s s' pc pc' e (omega (arith, before, h)) in
    let locked : total holds (set ts k pc') ≡ bit s'.locked = omega (arith, after pc', a.0) in
    let (end_locked, fewer) =
      Moves-left count n (record { shared = s'; threads = set ts k pc' }) last rest locked in
    (end_locked, omega (arith, fewer, left_before, left_after pc', a.1))

left_le : (pc : Pc) → left pc ≤ 8
unfolding left
left_le over = omega arith
left_le searching = omega arith
left_le over_stop = omega arith
left_le stopping = omega arith
left_le releasing = omega arith
left_le failing = omega arith
left_le returned = omega arith
left_le (matched t) = omega arith
left_le (claimed t) = omega arith
left_le (granted n t) = omega arith
left_le (writing n t) = omega arith
left_le (deciding n) = omega arith

total-left : (ts : List Pc) → total left ts ≤ 8 * length ts
unfolding total
total-left [] = omega arith
total-left (pc ∷ ts) = omega (arith, left_le pc, total-left ts)

Moves-Reachable :
    (count n : ℕ) (start s s' : System)
    → Reachable count start s
    → Moves count n s s'
    → Reachable count start s'
Moves-Reachable count _ start s _ r (no_moves _) = r
Moves-Reachable count _ start _ last r (then_moves n s s' ts k pc pc' _ at e rest) =
    Moves-Reachable count n start _ last (later _ _ r (moves s s' ts k pc pc' at e)) rest

Moves-IsDue : (count n : ℕ) (s s' : System) → Moves count n s s' → IsDue count s → IsDue count s'
Moves-IsDue count _ s _ (no_moves _) due = due
Moves-IsDue count _ _ last (then_moves n s s' ts k pc pc' _ at e rest) due =
    Moves-IsDue count n _ last rest (moves-IsDue count s s' ts k pc pc' at e due)

-- No worker of `s` has counted too many hits or got an error from the mix.
abbrev pub NoneStops : System → Type 0
NoneStops s =
    (k : ℕ) (pc : Pc)
    → get_elem? s.threads k ≡ some pc
    → (pc ≢ over) × (pc ≢ over_stop) × (pc ≢ failing)

-- Either the flag is on and all workers have returned, or it is off and all search on, with hits left to
-- find, a target that is active, and no reason to stop in `s`.
abbrev pub IsSettled : ℕ → System → System → Type 0
IsSettled count s s' =
    ((s'.shared.stop ≡ true) × (all_returned s'.threads ≡ true))
    ⊎ ((s'.shared.stop ≡ false)
        × (all_searching s'.threads ≡ true)
        × (length s'.shared.log < count)
        × (any_active s'.shared.targets ≡ true)
        × NoneStops s)

raises-NoneStops : (count : ℕ) (s : System) → total (raises count) s.threads ≡ 0 → NoneStops s
unfolding raises
raises-NoneStops count s none_due k pc at =
    let no_raise : raises count pc ≡ 0 =
      omega (arith, none_due, total-ge (raises count) s.threads k pc at) in
    (
      λ e. let z = ap (raises count) e in omega (arith, z, no_raise),
      λ e. let z = ap (raises count) e in omega (arith, z, no_raise),
      λ e. let z = ap (raises count) e in omega (arith, z, no_raise),
    )

never_due :
    (count n : ℕ) (s s' : System)
    → Moves count n s s'
    → (IsDue count s' → 1 ≤ 0)
    → total (raises count) s.threads ≡ 0
never_due count n s s' run refuted = elim (dec_lt 0 (total (raises count) s.threads)) [
  | yes due ↦ absurd (omega (arith, refuted (Moves-IsDue count n s s' run (omega (arith, due)))))
  | no fewer ↦ omega (arith, fewer)
]

-- A state in which no worker records a hit and the flag is off.
module _ (count threads : ℕ) (targets : TargetSet) (s : System) (machine : count + threads < 2 ^ 64)
    (active : any_active targets ≡ true) (reached : Reachable count (spawned targets threads) s)
    (idling : all_idle s.threads ≡ true) (off : s.shared.stop ≡ false) where
  not_due : IsDue count s → 1 ≤ 0
  unfolding bit raises
  not_due due = let z = idle-total (raises count) s.threads refl refl idling in rw (off, z) at due

  unfinished : 1 ≤ count → length s.shared.log < count
  unfinished some_hit = elim (Reachable-IsStopping count threads targets s active reached).reached [
    | inr due ↦ absurd (omega (arith, not_due due))
    | inl none_yet ↦
        let g = Reachable-IsGiven count threads (count - 1) targets s machine reached in
        let same : count - 1 + 1 ≡ count = omega arith in
        let once = rw same at g.once in
        let held = idle-has_number (count - 1) s.threads idling in
        let pends = (idle-pending s.threads idling).0 in ground (arith, once, none_yet, held, pends)
  ]

  still_active : any_active s.shared.targets ≡ true
  unfolding bit closes
  still_active = elim (Reachable-IsStopping count threads targets s active reached).closed [
    | inl on ↦ on
    | inr due ↦
        let z = idle-total closes s.threads refl refl idling in
        let none_left : 1 ≤ 0 = rw (off, z) at due in absurd (omega (arith, none_left))
  ]

  none_gone : total gone s.threads ≡ 0
  none_gone = elim (Reachable-IsStopping count threads targets s active reached).returns [
    | inl z ↦ z
    | inr on ↦ (let q = rw off at on in cc)
  ]

-- From any state that the workers of a run reach, in any order of their steps, where the run starts with
-- an active target and at least one hit asked for, and the hits asked for and the workers fit a u64: if
-- no further match is found and no mix fails, at most eight steps for each worker follow. Where no worker
-- can make another step, either the stop flag is on and all have returned; or it is off, all are in their
-- search, fewer than `count` hits are written, a target is active, and no worker of the first state had
-- counted too many hits or got an error from the mix.
pub workers_settle :
    (count threads : ℕ) (targets : TargetSet) (s s' : System) (n : ℕ)
    → 1 ≤ count
    → count + threads < 2 ^ 64
    → any_active targets ≡ true
    → Reachable count (spawned targets threads) s
    → Moves count n s s'
    → (n ≤ 8 * length s.threads) × (IsStuck count s' → IsSettled count s s')
workers_settle count threads targets s s' n some_hit machine active reached run =
    let (locked, fewer) =
      Moves-left count n s s' run (Reachable-IsLocked count threads targets s reached) in
    let end = Moves-Reachable count n _ s s' reached run in
    (
      omega (arith, fewer, total-left s.threads),
      λ stuck.
          let zero_held = stuck-holds count s'.shared s'.threads stuck in
          let (idling, back, search) =
            stuck-idle count s'.shared s'.threads
              (bit-zero s'.shared.locked (sym locked ∙ zero_held)) stuck in
          elim (Bool-cases s'.shared.stop) [
            | inl on ↦ inl (on, back on)
            | inr off ↦ inr (
              off,
              search (none_gone count threads targets s' machine active end idling off),
              unfinished count threads targets s' machine active end idling off some_hit,
              still_active count threads targets s' machine active end idling off,
              raises-NoneStops count s (
                  never_due count n s s' run
                    (not_due count threads targets s' machine active end idling off)),
            )
          ],
    )
