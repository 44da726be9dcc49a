-- ===== src/Classic.antt =====
-- crates/pq-core/src/classic.rs and crates/pq-vanity/src/classic.rs: Ed25519 accounts, one run of
-- the CPU search (`cpu_worker`) and the host loop of the GPU search (`cmd_gpu`).
pub mod Seeds
pub mod CpuRun
pub mod GpuRun
use falcon_vanity_generator.Base.{
  ℕ, zero, suc, ◌+◌, ◌-◌, ◌*◌, ◌/◌, ◌%◌, ◌^◌, ◌≤◌, ◌<◌, bit_and, bit_or, bit_xor, Bool, true, false,
  not, ◌&&◌, ◌||◌, Option, none, some, List, [], ◌∷◌, ◌++◌, map, append-nil, append_assoc, String,
  codes, length, take, drop, get_elem?, get_or, set, replicate, All, ◌≡◌, refl, sym, ap, ap₂, ◌∙◌,
  ◌≢◌, ◌↔◌, ◌⊎◌, inl, inr, arith, ltb, leb, ◌==◌, if◌then◌else◌, ltb→lt, leb→le, Bool-cases,
  Option-cases, ◌>>=◌, is_some, length-append, take-append-drop, length-take, length-drop, take_all,
  take-take, take-append_le, take-append_self, drop-append_le, drop-append_self, drop-drop,
  length-replicate, All-append, All-take, All-drop, length-map, take-map, drop-map,
  get_or-get_elem?, starts_with, ends_with, list_eq, list_eq_iff, starts_with_iff, ends_with_iff,
  ends_with-nil, ==_iff, Bool_ext, some_inj,
}
use falcon_vanity_generator.Base.Results.{Result, ok, err}
use falcon_vanity_generator.Base.Digits.{IsByte}
use falcon_vanity_generator.Base.Endian.{from_le, to_le}
use falcon_vanity_generator.Crates.{Crates}
use falcon_vanity_generator.Address.{Address, to_address_string}
use falcon_vanity_generator.Targets.{DeviceWords}
use falcon_vanity_generator.Targets.Set.{
  TargetSet, any_active, claim, device_table, first_match, first_match_display,
}
use falcon_vanity_generator.Cuda.{CudaC, CudaError, ed_search_batch}

abbrev pub classic_seed_size : ℕ
classic_seed_size = 32

abbrev pub cpu_run : ℕ
cpu_run = 2 ^ 15

-- The third-party signature code (`ed25519_dalek`): a signing key is the seed it is made from.
pub record Ed25519 : Type 0 where
  pub verifying_key : List ℕ → List ℕ
  pub sign : List ℕ → List ℕ → List ℕ
  pub verify : List ℕ → List ℕ → List ℕ → Bool
  pub length-verifying_key : (s : List ℕ) → length (verifying_key s) ≡ 32
  pub verifying_key-IsByte : (s : List ℕ) → All IsByte (verifying_key s)

pub record ClassicKeypair : Type 0 where
  pub signing : List ℕ

unfoldable pub from_seed : List ℕ → ClassicKeypair
from_seed seed = record { signing = seed }

module _ (d : Ed25519) where
  unfoldable pub classic_public_key : ClassicKeypair → List ℕ
  classic_public_key kp = d.verifying_key kp.signing

  unfoldable pub address : ClassicKeypair → Address
  address kp = record { bytes = classic_public_key kp }

  unfoldable pub roundtrip : ClassicKeypair → List ℕ → Bool
  roundtrip kp msg = d.verify (d.verifying_key kp.signing) msg (d.sign kp.signing msg)

  unfoldable pub classic_address : List ℕ → Address
  classic_address seed = address (from_seed seed)

unfoldable pub seed_at : List ℕ → ℕ → List ℕ
seed_at base counter = take 24 base ++ to_le 8 counter

unfoldable pub run_start : List ℕ → ℕ
run_start base = from_le (take 8 (drop 24 base))

-- What one run of `cpu_worker` adds to the counter of keys, the hit that ends it, if any, and
-- whether the worker returns because it saw the stop flag.
pub record RunOutcome : Type 0 where
  pub keys : ℕ
  pub hit : Option (List ℕ × ℕ)
  pub stopped : Bool

-- The loop over a run: `left` keys from number `i` on, with `done` keys not yet added to the
-- counter `keys`. Other threads change the target flags and the stop flag: `seen i` and `stop i`
-- are what this thread reads at key `i`.
unfoldable pub scan_run :
    Crates → Ed25519 → (ℕ → TargetSet) → (ℕ → Bool) → List ℕ → ℕ → ℕ → ℕ → ℕ → RunOutcome
scan_run x d seen stop base zero i done keys = record {
  keys = keys + done;
  hit = none;
  stopped = false;
}
scan_run x d seen stop base (suc left) i done keys =
    let seed = seed_at base ((run_start base + i) % 2 ^ 64) in
    let full = done + 1 == 1024 in
    let keys' = if full then keys + (done + 1) else keys in
    let done' = if full then 0 else done + 1 in
    let rest = scan_run x d seen stop base left (i + 1) done' keys' in
    elim (first_match x (seen i) (address d (from_seed seed))) [
      | some t ↦ record { keys = keys + (done + 1); hit = some (seed, t); stopped = false }
      | none ↦ if full && stop i then record { keys = keys'; hit = none; stopped = true } else rest
    ]

unfoldable pub run_keys : Crates → Ed25519 → (ℕ → TargetSet) → (ℕ → Bool) → List ℕ → RunOutcome
run_keys x d seen stop base = scan_run x d seen stop base cpu_run 0 0 0

-- A hit that the GPU loop writes out.
pub record ClassicHit : Type 0 where
  pub seed : List ℕ
  pub roundtrip : Bool
  pub target : ℕ

-- The counters of `cmd_gpu`, the target flags, and what has been written out.
pub record ClassicProgress : Type 0 where
  pub targets : TargetSet
  pub found : ℕ
  pub raw_hits : ℕ
  pub keys_done : ℕ
  pub siblings : ℕ
  pub batch_emitted : ℕ
  pub log : List ClassicHit

pub record ClassicArgs : Type 0 where
  pub count : ℕ
  pub items : ℕ
  pub allow_sibling_hits : Bool
  pub max_hits : ℕ
  pub batches : ℕ

unfoldable pub classic_satisfied : ClassicArgs → ClassicProgress → Bool
classic_satisfied a p = leb a.count p.found || not (any_active p.targets)

unfoldable pub classic_written : ClassicProgress → ClassicHit → ClassicProgress
classic_written p v = record p {
  targets = (claim p.targets v.target).0;
  found = (p.found + 1) % 2 ^ 64;
  batch_emitted = (p.batch_emitted + 1) % 2 ^ 64;
  log = p.log ++ v ∷ [];
}

-- One round of the loop over the seeds, and whether it breaks out.
unfoldable pub classic_emit_one :
    Crates → Ed25519 → ClassicArgs → List ℕ → ClassicProgress → ClassicProgress × Bool
classic_emit_one x d a seed p =
    let kp = from_seed seed in
    elim (first_match_display p.targets (to_address_string x (address d kp))) [
      | none ↦ (p, false)
      | some t ↦
          let p' = classic_written p (record {
            seed = seed;
            roundtrip = roundtrip d kp (codes "pq-vanity-classic-emit-check");
            target = t;
          }) in
          if not a.allow_sibling_hits && leb 1 p.batch_emitted
          then (record p { siblings = (p.siblings + 1) % 2 ^ 64 }, false)
          else (p', classic_satisfied a p')
    ]

unfoldable pub classic_emit :
    Crates → Ed25519 → ClassicArgs → List (List ℕ) → ClassicProgress → ClassicProgress
classic_emit x d a [] p = p
classic_emit x d a (seed ∷ seeds) p =
    let r = classic_emit_one x d a seed p in
    let rest = classic_emit x d a seeds r.0 in if r.1 then r.0 else rest

pub data ClassicError : Type 0 where
  no_entropy : ClassicError
  -- `device_words` or the assertion on the number of targets
  panicked : ClassicError
  device : CudaError → ClassicError

-- One round of the loop over the batches: the progress, and whether it was the last.
unfoldable pub classic_batch :
    Crates
    → Ed25519
    → CudaC
    → ClassicArgs
    → ℕ
    → Option (List ℕ)
    → ClassicProgress
    → Result ClassicError (ClassicProgress × Bool)
classic_batch x d g a batch none p = err no_entropy
classic_batch x d g a batch (some base) p = elim (device_table p.targets) [
  | none ↦ err panicked
  | some table ↦ elim (ed_search_batch g base (run_start base) a.items table a.max_hits) [
    | none ↦ err panicked
    | some (err e) ↦ err (device e)
    | some (ok seeds) ↦
        let p' = classic_emit x d a seeds (record p {
          raw_hits = (p.raw_hits + length seeds) % 2 ^ 64;
          keys_done = (p.keys_done + a.items) % 2 ^ 128;
          batch_emitted = 0;
        }) in
        ok (p', classic_satisfied a p' || (not (a.batches == 0) && leb a.batches (batch + 1)))
  ]
]

-- One output of the entropy mix, or its failure, for each batch to come. The second component says
-- whether the loop has ended; a batch that fails ends the command.
unfoldable pub classic_loop :
    Crates
    → Ed25519
    → CudaC
    → ClassicArgs
    → ℕ
    → List (Option (List ℕ))
    → ClassicProgress
    → ClassicProgress × Bool
classic_loop x d g a batch [] p = (p, false)
classic_loop x d g a batch (o ∷ os) p = elim (classic_batch x d g a batch o p) [
  | err e ↦ (p, true)
  | ok (p', last) ↦
      let rest = classic_loop x d g a (batch + 1) os p' in if last then (p', true) else rest
]
