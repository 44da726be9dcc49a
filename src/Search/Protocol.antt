-- ===== src/Search/Protocol.antt =====
-- crates/pq-vanity/src/search.rs, `record_hit` (and `record_cpu_hit` of crates/pq-vanity/src/
-- classic.rs, which does the same): the workers as threads that share the counters, the stop flag,
-- the target flags and a lock. Each step is one access to what they share, but that `any_active`, which
-- loads the flags one after another, is read in one step.
-- What only the worker itself or the mixer sees (the keys, `refresh`, the files) is no step.
pub mod Weights
pub mod Counting
pub mod Locking
pub mod Stuck
pub mod Settles
pub mod Once
pub mod Numbers
pub mod Ledger
pub mod Stopping
use falcon_vanity_generator.Base.{
  ℕ, zero, suc, ◌+◌, ◌-◌, ◌*◌, ◌/◌, ◌%◌, ◌^◌, ◌≤◌, ◌<◌, bit_and, bit_or, bit_xor, Bool, true, false,
  not, ◌&&◌, ◌||◌, Option, none, some, List, [], ◌∷◌, ◌++◌, map, append-nil, append_assoc, String,
  codes, length, take, drop, get_elem?, get_or, set, replicate, All, ◌≡◌, refl, sym, ap, ap₂, ◌∙◌,
  ◌≢◌, ◌↔◌, ◌⊎◌, inl, inr, arith, ltb, leb, ◌==◌, if◌then◌else◌, ltb→lt, leb→le, Bool-cases,
  Option-cases, ◌>>=◌, is_some, length-append, take-append-drop, length-take, length-drop, take_all,
  take-take, take-append_le, take-append_self, drop-append_le, drop-append_self, drop-drop,
  length-replicate, All-append, All-take, All-drop, length-map, take-map, drop-map,
  get_or-get_elem?, starts_with, ends_with, list_eq, list_eq_iff, starts_with_iff, ends_with_iff,
  ends_with-nil, ==_iff, Bool_ext, some_inj,
}
use falcon_vanity_generator.Targets.Set.{TargetSet, any_active, claim}

-- Where a worker stands: in its search, before the claim of target `t`, before the count, before it
-- undoes the count and before it stores the stop flag with too many hits, before the lock, before the
-- files, before the last test, before it stores the stop flag there, before it drops the guard, before it
-- stores the stop flag since the mix has failed, or returned.
pub data Pc : Type 0 where
  searching over over_stop stopping releasing failing returned : Pc
  matched claimed : ℕ → Pc
  granted writing : ℕ → ℕ → Pc
  deciding : ℕ → Pc

-- `log` has the number and the target of each hit that was written.
pub record Shared : Type 0 where
  pub targets : TargetSet
  pub hits : ℕ
  pub stop : Bool
  pub locked : Bool
  pub log : List (ℕ × ℕ)

pub record System : Type 0 where
  pub shared : Shared
  pub threads : List Pc

-- The next access of a worker outside its search; `none` while it waits for the lock, and when it
-- has nothing to do here. The arithmetic of the counter wraps.
unfoldable pub advance : ℕ → Shared → Pc → Option (Shared × Pc)
advance count s searching = if s.stop then some (s, returned) else none
advance count s (matched t) =
    let r = claim s.targets t in
    if r.1 then some (record s { targets = r.0 }, claimed t) else some (s, searching)
advance count s (claimed t) =
    let s' = record s { hits = (s.hits + 1) % 2 ^ 64 } in
    if leb count s.hits then some (s', over) else some (s', granted s.hits t)
advance count s over = some (record s { hits = (s.hits + (2 ^ 64 - 1)) % 2 ^ 64 }, over_stop)
advance count s over_stop = some (record s { stop = true }, searching)
advance count s (granted n t) =
    if s.locked then none else some (record s { locked = true }, writing n t)
advance count s (writing n t) = some (record s { log = s.log ++ (n + 1, t) ∷ [] }, deciding n)
advance count s (deciding n) =
    if leb count (n + 1) || not (any_active s.targets)
    then some (s, stopping)
    else some (s, releasing)
advance count s stopping = some (record s { stop = true }, releasing)
advance count s releasing = some (record s { locked = false }, searching)
advance count s failing = some (record s { stop = true }, returned)
advance count s returned = none

-- A worker finds a match, gets an error from the mix, or makes its next access.
pub data Step (count : ℕ) : System → System → Type 0 where
  finds :
      (s : Shared) (ts : List Pc) (k t : ℕ)
      → get_elem? ts k ≡ some searching
      → Step count
          (record { shared = s; threads = ts })
          (record { shared = s; threads = set ts k (matched t) })
  fails :
      (s : Shared) (ts : List Pc) (k : ℕ)
      → get_elem? ts k ≡ some searching
      → Step count
          (record { shared = s; threads = ts })
          (record { shared = s; threads = set ts k failing })
  moves :
      (s s' : Shared) (ts : List Pc) (k : ℕ) (pc pc' : Pc)
      → get_elem? ts k ≡ some pc
      → advance count s pc ≡ some (s', pc')
      → Step count
          (record { shared = s; threads = ts })
          (record { shared = s'; threads = set ts k pc' })

pub data Reachable (count : ℕ) (start : System) : System → Type 0 where
  here : Reachable count start start
  later : (s s' : System) → Reachable count start s → Step count s s' → Reachable count start s'

-- `run` before its workers take a step.
unfoldable pub spawned : TargetSet → ℕ → System
spawned targets n = record {
  shared = record { targets = targets; hits = 0; stop = false; locked = false; log = [] };
  threads = replicate n searching;
}
