-- ===== src/Witness/Protocol.antt =====
-- Two workers that find a match each, when one hit is asked for.
use falcon_vanity_generator.Base.{◌≤◌, true, false, [], ◌∷◌, codes, length, ◌≡◌, refl, arith}
use falcon_vanity_generator.Targets.Set.{TargetSet, is_active, claim}
use falcon_vanity_generator.Search.Protocol.{
  Shared, System, Reachable, advance, searching, over, matched, claimed, granted, finds, moves,
  here, later,
}
use falcon_vanity_generator.Search.Protocol.Counting.{
  IsCounted, all_idle, pending, too_far, hits_counted,
}
use falcon_vanity_generator.Search.Protocol.Weights.{total}
use falcon_vanity_generator.Base.{ℕ, ◌+◌, ◌*◌, ◌⊎◌, if◌then◌else◌, ltb}
use falcon_vanity_generator.Targets.Set.{any_active, any_active_from}
use falcon_vanity_generator.Targets.Set.Tally.{tally}
use falcon_vanity_generator.Search.Protocol.{
  Pc, Step, writing, deciding, stopping, releasing, returned, spawned,
}
use falcon_vanity_generator.Search.Protocol.Settles.{
  Moves, no_moves, then_moves, IsSettled, workers_settle,
}
use falcon_vanity_generator.Search.Protocol.Stuck.{IsStuck}
use falcon_vanity_generator.Search.Protocol.Numbers.{entry_number}
use falcon_vanity_generator.Search.Protocol.Ledger.{Ledger, Adds, workers_refine}

abbrev pub fronts : TargetSet
fronts = record {
  list =
      record { prefix = codes "F"; suffix = [] } ∷ record { prefix = codes "7L"; suffix = [] } ∷ [];
  active = true ∷ true ∷ [];
  retire = true;
  max_prefix = 2;
}

abbrev pub fresh : Shared
fresh = record { targets = fronts; hits = 0; stop = false; locked = false; log = [] }

abbrev start : System
start = record { shared = fresh; threads = searching ∷ searching ∷ [] }

start-IsCounted : IsCounted 1 start
unfolding total pending too_far
start-IsCounted = record { counter = refl; bound = omega arith; machine = omega arith }

abbrev pub first_claimed : Shared
first_claimed = record fresh { targets = record fronts { active = false ∷ true ∷ [] } }

abbrev both_claimed : Shared
both_claimed = record fresh { targets = record fronts { active = false ∷ false ∷ [] } }

-- Both claims are granted; the second worker counts past the one hit that is asked for.
schedule :
    Reachable 1 start
      (record { shared = record both_claimed { hits = 2 }; threads = granted 0 0 ∷ over ∷ [] })
unfolding advance claim is_active
schedule =
    later _ _
      (later _ _
        (later _ _
          (later _ _
            (later _ _ (later _ _ here (finds fresh (searching ∷ searching ∷ []) 0 0 refl))
              (finds fresh (matched 0 ∷ searching ∷ []) 1 1 refl))
            (moves fresh first_claimed (matched 0 ∷ matched 1 ∷ []) 0 (matched 0) (claimed 0) refl
              refl))
          (moves first_claimed both_claimed (claimed 0 ∷ matched 1 ∷ []) 1 (matched 1) (claimed 1)
            refl refl))
        (moves both_claimed (record both_claimed { hits = 1 }) (claimed 0 ∷ claimed 1 ∷ []) 0
          (claimed 0) (granted 0 0) refl refl))
      (moves (record both_claimed { hits = 1 }) (record both_claimed { hits = 2 })
        (granted 0 0 ∷ claimed 1 ∷ []) 1 (claimed 1) over refl refl)

hits_counted_example :
    (length (record both_claimed { hits = 2 }).log ≤ 1)
    × (all_idle (granted 0 0 ∷ over ∷ []) ≡ true
        → 2 ≡ length (record both_claimed { hits = 2 }).log)
hits_counted_example = hits_counted 1 start _ start-IsCounted schedule

-- One of two workers finds a match, when one hit is asked for.
matching :
    Reachable 1 (spawned fronts 2) (record { shared = fresh; threads = matched 0 ∷ searching ∷ [] })
unfolding spawned
matching = later _ _ here (finds fresh (searching ∷ searching ∷ []) 0 0 refl)

abbrev pub counted : Shared
counted = record first_claimed { hits = 1 }

abbrev pub held : Shared
held = record counted { locked = true }

abbrev pub logged : Shared
logged = record held { log = (1, 0) ∷ [] }

abbrev raised : Shared
raised = record logged { stop = true }

abbrev stopped : Shared
stopped = record logged { stop = true; locked = false }

abbrev all_back : System
all_back = record { shared = stopped; threads = returned ∷ returned ∷ [] }

-- Its steps up to the drop of the guard, and then both workers see the stop flag.
recording : Moves 1 9 (record { shared = fresh; threads = matched 0 ∷ searching ∷ [] }) all_back
unfolding advance claim is_active any_active any_active_from
recording =
    then_moves 8 fresh first_claimed (matched 0 ∷ searching ∷ []) 0 (matched 0) (claimed 0) _ refl
      refl
      (then_moves 7 first_claimed counted (claimed 0 ∷ searching ∷ []) 0 (claimed 0) (granted 0 0) _
        refl refl
        (then_moves 6 counted held (granted 0 0 ∷ searching ∷ []) 0 (granted 0 0) (writing 0 0) _
          refl refl
          (then_moves 5 held logged (writing 0 0 ∷ searching ∷ []) 0 (writing 0 0) (deciding 0) _
            refl refl stopping_both)))
  where
    stopping_both :
        Moves 1 5 (record { shared = logged; threads = deciding 0 ∷ searching ∷ [] }) all_back
    stopping_both =
        then_moves 4 logged logged (deciding 0 ∷ searching ∷ []) 0 (deciding 0) stopping _ refl refl
          (then_moves 3 logged raised (stopping ∷ searching ∷ []) 0 stopping releasing _ refl refl (
            then_moves 2 raised stopped (releasing ∷ searching ∷ []) 0 releasing searching _ refl
              refl
              (then_moves 1 stopped stopped (searching ∷ searching ∷ []) 0 searching returned _ refl
                refl
                (then_moves 0 stopped stopped (returned ∷ searching ∷ []) 1 searching returned _
                  refl refl (no_moves all_back)))))

workers_settle_example :
    (9 ≤ 8 * length {A = Pc} (matched 0 ∷ searching ∷ []))
    × (IsStuck 1 all_back
        → IsSettled 1 (record { shared = fresh; threads = matched 0 ∷ searching ∷ [] }) all_back)
workers_settle_example =
    workers_settle 1 2 fronts _ all_back 9 (omega arith) (omega arith)
      (unfold any_active any_active_from is_active in refl) matching recording

-- After seven steps the hit is written, and both workers search.
writing_done :
    Reachable 1
      (spawned fronts 2)
      (record { shared = stopped; threads = searching ∷ searching ∷ [] })
unfolding advance claim is_active any_active any_active_from
writing_done =
    later _ _
      (later _ _
        (later _ _
          (later _ _
            (later _ _
              (later _ _
                (later _ _ matching (
                  moves fresh first_claimed (matched 0 ∷ searching ∷ []) 0 (matched 0) (claimed 0)
                    refl refl))
                (moves first_claimed counted (claimed 0 ∷ searching ∷ []) 0 (claimed 0)
                  (granted 0 0) refl refl))
              (moves counted held (granted 0 0 ∷ searching ∷ []) 0 (granted 0 0) (writing 0 0) refl
                refl))
            (moves held logged (writing 0 0 ∷ searching ∷ []) 0 (writing 0 0) (deciding 0) refl
              refl))
          (moves logged logged (deciding 0 ∷ searching ∷ []) 0 (deciding 0) stopping refl refl))
        (moves logged raised (stopping ∷ searching ∷ []) 0 stopping releasing refl refl))
      (moves raised stopped (releasing ∷ searching ∷ []) 0 releasing searching refl refl)

workers_refine_example :
    Ledger 1 true stopped.log
    × ((s' : System)
        → Step 1 (record { shared = stopped; threads = searching ∷ searching ∷ [] }) s'
        → (s'.shared.log ≡ stopped.log) ⊎ Adds 1 true stopped.log s'.shared.log)
    × (all_idle (searching ∷ searching ∷ []) ≡ true
        → (j : ℕ) → tally entry_number (j + 1) stopped.log ≡ (if ltb j 1 then 1 else 0))
workers_refine_example = workers_refine 1 2 fronts _ (omega arith) writing_done
