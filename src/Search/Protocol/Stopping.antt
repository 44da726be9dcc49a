-- ===== src/Search/Protocol/Stopping.antt =====
-- When the stop flag of the workers is raised, under any interleaving.
use falcon_vanity_generator.Base.{
  ℕ, ◌+◌, ◌≤◌, true, false, not, ◌||◌, some, [], ◌∷◌, ◌≡◌, refl, ap, ◌∙◌, ◌⊎◌, inl, inr, arith, leb,
  ◌==◌, if◌then◌else◌, Bool-cases, get_elem?, set, List,
}
use falcon_vanity_generator.Targets.Set.{TargetSet, any_active, claim}
use falcon_vanity_generator.Targets.Set.Tally.{tally, tally-append}
use falcon_vanity_generator.Search.Protocol.{
  Pc, Shared, System, Step, Reachable, advance, searching, over, over_stop, stopping, releasing,
  failing, fails, returned, matched, claimed, granted, writing, deciding, finds, moves, here, later,
  spawned,
}
use falcon_vanity_generator.Search.Protocol.Weights.{total, others, total-replicate}
use falcon_vanity_generator.Search.Protocol.Numbers.{entry_number}
use falcon_vanity_generator.Search.Protocol.Locking.{bit, result}
use falcon_vanity_generator.Search.Protocol.Ledger.{LogChange, same, writes, advance-LogChange}

-- The worker that will store the stop flag, whatever the others do.
unfoldable pub raises : ℕ → Pc → ℕ
raises count over = 1
raises count over_stop = 1
raises count stopping = 1
raises count failing = 1
raises count (deciding n) = if leb count (n + 1) then 1 else 0
raises count pc = 0

-- The worker that will store the stop flag if no target is active.
unfoldable pub closes : Pc → ℕ
closes over = 1
closes over_stop = 1
closes stopping = 1
closes failing = 1
closes (claimed t) = 1
closes (granted n t) = 1
closes (writing n t) = 1
closes (deciding n) = 1
closes pc = 0

unfoldable pub gone : Pc → ℕ
gone returned = 1
gone pc = 0

-- The flag is on, or one of the workers will store it; `R` is the sum over the others.
abbrev Due : ℕ → ℕ → Shared → Pc → Type 0
Due count R s pc = 1 ≤ bit s.stop + (raises count pc + R)

advance-Due :
    (count R : ℕ) (s s' : Shared) (pc pc' : Pc)
    → advance count s pc ≡ some (s', pc')
    → Due count R s pc
    → Due count R s' pc'
unfolding advance raises bit
advance-Due count R s s' searching pc' e h = elim (Bool-cases s.stop) [
  | inl on ↦ result (Due count R) s' pc' (rw on at e) (omega arith)
  | inr off ↦ (let q = rw off at e in cc)
]
advance-Due count R s s' over pc' e h = result (Due count R) s' pc' e (omega arith)
advance-Due count R s s' over_stop pc' e h = result (Due count R) s' pc' e (omega arith)
advance-Due count R s s' stopping pc' e h = result (Due count R) s' pc' e (omega arith)
advance-Due count R s s' releasing pc' e h = result (Due count R) s' pc' e h
advance-Due count R s s' failing pc' e h = result (Due count R) s' pc' e (omega arith)
advance-Due count R s s' returned pc' e h = cc
advance-Due count R s s' (matched t) pc' e h = elim (Bool-cases (claim s.targets t).1) [
  | inl first ↦ result (Due count R) s' pc' (rw first at e) h
  | inr lost ↦ result (Due count R) s' pc' (rw lost at e) h
]
advance-Due count R s s' (claimed t) pc' e h = elim (Bool-cases (leb count s.hits)) [
  | inl enough ↦ result (Due count R) s' pc' (rw enough at e) (omega arith)
  | inr more ↦ result (Due count R) s' pc' (rw more at e) h
]
advance-Due count R s s' (granted n t) pc' e h = elim (Bool-cases s.locked) [
  | inl held ↦ (let q = rw held at e in cc)
  | inr free ↦ result (Due count R) s' pc' (rw free at e) h
]
advance-Due count R s s' (writing n t) pc' e h = result (Due count R) s' pc' e (omega (arith, h))
advance-Due count R s s' (deciding n) pc' e h =
    elim (Bool-cases (leb count (n + 1) || not (any_active s.targets))) [
      | inl last ↦ result (Due count R) s' pc' (rw last at e) (omega arith)
      | inr more ↦
          let fewer : leb count (n + 1) ≡ false = ground arith in
          result (Due count R) s' pc' (rw more at e) (rw fewer at h)
    ]

-- If no target is active the stop flag is due, and workers return only when it is on. `S` and `G` are
-- the sums over the others.
abbrev Closing : ℕ → ℕ → Shared → Pc → Type 0
Closing S G s pc =
    ((any_active s.targets ≡ true) ⊎ (1 ≤ bit s.stop + (closes pc + S)))
    × ((gone pc + G ≡ 0) ⊎ (s.stop ≡ true))

advance-Closing :
    (count S G : ℕ) (s s' : Shared) (pc pc' : Pc)
    → advance count s pc ≡ some (s', pc')
    → Closing S G s pc
    → Closing S G s' pc'
unfolding advance closes gone bit
advance-Closing count S G s s' searching pc' e h = elim (Bool-cases s.stop) [
  | inl on ↦ result (Closing S G) s' pc' (rw on at e) (inr (omega arith), inr refl)
  | inr off ↦ (let q = rw off at e in cc)
]
advance-Closing count S G s s' over pc' e h = result (Closing S G) s' pc' e (inr (omega arith), h.1)
advance-Closing count S G s s' over_stop pc' e h =
    result (Closing S G) s' pc' e (inr (omega arith), inr refl)
advance-Closing count S G s s' stopping pc' e h =
    result (Closing S G) s' pc' e (inr (omega arith), inr refl)
advance-Closing count S G s s' releasing pc' e h = result (Closing S G) s' pc' e h
advance-Closing count S G s s' failing pc' e h =
    result (Closing S G) s' pc' e (inr (omega arith), inr refl)
advance-Closing count S G s s' returned pc' e h = cc
advance-Closing count S G s s' (matched t) pc' e h = elim (Bool-cases (claim s.targets t).1) [
  | inl first ↦ result (Closing S G) s' pc' (rw first at e) (inr (omega arith), h.1)
  | inr lost ↦ result (Closing S G) s' pc' (rw lost at e) h
]
advance-Closing count S G s s' (claimed t) pc' e h = elim (Bool-cases (leb count s.hits)) [
  | inl enough ↦ result (Closing S G) s' pc' (rw enough at e) h
  | inr more ↦ result (Closing S G) s' pc' (rw more at e) h
]
advance-Closing count S G s s' (granted n t) pc' e h = elim (Bool-cases s.locked) [
  | inl held ↦ (let q = rw held at e in cc)
  | inr free ↦ result (Closing S G) s' pc' (rw free at e) h
]
advance-Closing count S G s s' (writing n t) pc' e h = result (Closing S G) s' pc' e h
advance-Closing count S G s s' (deciding n) pc' e h =
    elim (Bool-cases (leb count (n + 1) || not (any_active s.targets))) [
      | inl last ↦ result (Closing S G) s' pc' (rw last at e) (inr (omega arith), h.1)
      | inr more ↦ result (Closing S G) s' pc' (rw more at e) (inl (ground arith), h.1)
    ]

-- Once the hit with the number `count` is written the stop flag is due.
abbrev Reached : ℕ → ℕ → Shared → Pc → Type 0
Reached count R s pc = (tally entry_number count s.log ≡ 0) ⊎ Due count R s pc

advance-Reached :
    (count R : ℕ) (s s' : Shared) (pc pc' : Pc)
    → advance count s pc ≡ some (s', pc')
    → LogChange s.log pc s'.log
    → Reached count R s pc
    → Reached count R s' pc'
advance-Reached count R s s' pc pc' e (same _ _ q) (inl none_yet) =
    inl (ap (tally entry_number count) q ∙ none_yet)
advance-Reached count R s s' pc pc' e change (inr due) = inr (advance-Due count R s s' pc pc' e due)
advance-Reached count R s s' _ pc' e (writes n t _ q) (inl none_yet) =
    elim (Bool-cases (n + 1 == count)) [
      | inl last ↦ inr (unfold advance raises in result (Due count R) s' pc' e (ground arith))
      | inr other ↦ inl (
          let one : tally entry_number count ((n + 1, t) ∷ []) ≡ 0 =
            unfold tally in rw other refl in
          ap (tally entry_number count) q
          ∙ omega (arith, one, none_yet, tally-append entry_number count s.log ((n + 1, t) ∷ [])))
    ]

-- The flag is on or one of the workers will store it.
abbrev pub IsDue : ℕ → System → Type 0
IsDue count s = 1 ≤ bit s.shared.stop + total (raises count) s.threads

pub record IsStopping (count : ℕ) (s : System) : Type 0 where
  pub reached : (tally entry_number count s.shared.log ≡ 0) ⊎ IsDue count s
  pub closed :
      (any_active s.shared.targets ≡ true) ⊎ (1 ≤ bit s.shared.stop + total closes s.threads)
  pub returns : (total gone s.threads ≡ 0) ⊎ (s.shared.stop ≡ true)

pub moves-IsDue :
    (count : ℕ) (s s' : Shared) (ts : List Pc) (k : ℕ) (pc pc' : Pc)
    → get_elem? ts k ≡ some pc
    → advance count s pc ≡ some (s', pc')
    → IsDue count (record { shared = s; threads = ts })
    → IsDue count (record { shared = s'; threads = set ts k pc' })
moves-IsDue count s s' ts k pc pc' at e due =
    let (R, before, after) = others (raises count) ts k pc at in
    let d : Due count R s' pc' = advance-Due count R s s' pc pc' e (rw before at due) in
    rw (after pc') d

-- A worker in its search finds a match or gets an error: nothing else changes.
left_search :
    (count : ℕ) (s : Shared) (ts : List Pc) (k : ℕ) (pc : Pc)
    → get_elem? ts k ≡ some searching
    → gone pc ≡ 0
    → IsStopping count (record { shared = s; threads = ts })
    → IsStopping count (record { shared = s; threads = set ts k pc })
left_search count s ts k pc at stays g =
    let (R, r, r') = others (raises count) ts k searching at in
    let (S, c, c') = others closes ts k searching at in
    let (G, o, o') = others gone ts k searching at in
    let no_raise : raises count searching ≡ 0 = unfold raises in refl in
    let no_close : closes searching ≡ 0 = unfold closes in refl in
    record {
      reached = elim g.reached [
        | inl none_yet ↦ inl none_yet
        | inr due ↦ inr (omega (arith, due, r, r' pc, no_raise))
      ];
      closed = elim g.closed [
        | inl active ↦ inl active
        | inr due ↦ inr (omega (arith, due, c, c' pc, no_close))
      ];
      returns = elim g.returns [
        | inl stay ↦ inl (omega (arith, stay, o, o' pc, stays))
        | inr on ↦ inr on
      ];
    }

Step-IsStopping :
    (count : ℕ) (s s' : System) → Step count s s' → IsStopping count s → IsStopping count s'
unfolding gone
Step-IsStopping count _ _ (finds s ts k t at) g = left_search count s ts k (matched t) at refl g
Step-IsStopping count _ _ (fails s ts k at) g = left_search count s ts k failing at refl g
Step-IsStopping count _ _ (moves s s' ts k pc pc' at e) g =
    let (R, r, r') = others (raises count) ts k pc at in
    let (S, c, c') = others closes ts k pc at in
    let (G, o, o') = others gone ts k pc at in
    let reached : Reached count R s' pc' =
      advance-Reached count R s s' pc pc' e (advance-LogChange count s s' pc pc' e)
        (rw r at g.reached) in
    let closing : Closing S G s' pc' =
      advance-Closing count S G s s' pc pc' e (rw c at g.closed, rw o at g.returns) in
    record {
      reached = rw (r' pc') reached;
      closed = rw (c' pc') closing.0;
      returns = rw (o' pc') closing.1;
    }

pub Reachable-IsStopping :
    (count n : ℕ) (targets : TargetSet) (s : System)
    → any_active targets ≡ true
    → Reachable count (spawned targets n) s
    → IsStopping count s
unfolding spawned
Reachable-IsStopping count n targets _ active here = record {
  reached = inl (unfold tally in refl);
  closed = inl active;
  returns = inl (total-replicate gone n (unfold gone in refl));
}
Reachable-IsStopping count n targets _ active (later s s' r step) =
    Step-IsStopping count s s' step (Reachable-IsStopping count n targets s active r)
