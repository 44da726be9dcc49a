-- ===== src/Gpu.antt =====
-- crates/pq-vanity/src/main.rs, `cmd_gpu` for f1 accounts: the host loop around the kernel.
-- The hits that it writes out are its log, in order.
pub mod Verify
pub mod Emit
pub mod Run
pub mod Ends
use falcon_vanity_generator.Base.{
  ℕ, zero, suc, ◌+◌, ◌-◌, ◌*◌, ◌/◌, ◌%◌, ◌^◌, ◌≤◌, ◌<◌, bit_and, bit_or, bit_xor, Bool, true, false,
  not, ◌&&◌, ◌||◌, Option, none, some, List, [], ◌∷◌, ◌++◌, map, append-nil, append_assoc, String,
  codes, length, take, drop, get_elem?, get_or, set, replicate, All, ◌≡◌, refl, sym, ap, ap₂, ◌∙◌,
  ◌≢◌, ◌↔◌, ◌⊎◌, inl, inr, arith, ltb, leb, ◌==◌, if◌then◌else◌, ltb→lt, leb→le, Bool-cases,
  Option-cases, ◌>>=◌, is_some, length-append, take-append-drop, length-take, length-drop, take_all,
  take-take, take-append_le, take-append_self, drop-append_le, drop-append_self, drop-drop,
  length-replicate, All-append, All-take, All-drop, length-map, take-map, drop-map,
  get_or-get_elem?, starts_with, ends_with, list_eq, list_eq_iff, starts_with_iff, ends_with_iff,
  ends_with-nil, ==_iff, Bool_ext, some_inj,
}
use mathlib.Core.Option
use falcon_vanity_generator.Base.Results.{Result, ok, err, bind}
use falcon_vanity_generator.Base.Endian.{from_le}
use falcon_vanity_generator.Crates.{Crates}
use falcon_vanity_generator.Falcon.{FalconC, Keypair, sample_fg, complete_from_fg, signs_back}
use falcon_vanity_generator.Address.{
  Address, keygen_seed_from_entropy, pq_address, is_pq_compliant, canonical_pq_salt,
  to_address_string,
}
use falcon_vanity_generator.Targets.{DeviceWords}
use falcon_vanity_generator.Targets.Set.{
  TargetSet, is_active, any_active, claim, device_table, first_match_display,
}
use falcon_vanity_generator.Cuda.{CudaC, CudaError, RawHit, search_batch}

pub record VerifiedHit : Type 0 where
  pub entropy : List ℕ
  pub salt : ℕ
  pub addr : Address
  pub kp : Keypair
  pub roundtrip : Bool
  pub target : ℕ

-- `canonical_pq_salt(pk).map(|(s, _)| s) != Some(salt)`, negated.
unfoldable pub has_canonical_salt : Crates → List ℕ → ℕ → Bool
has_canonical_salt x pk salt = elim (canonical_pq_salt x pk) [
  | none ↦ false
  | some (s, a) ↦ s == salt
]

unfoldable pub verify_one : Crates → FalconC → TargetSet → Bool → RawHit → Option VerifiedHit
verify_one x c targets canonical_only hit =
    complete_from_fg c (sample_fg c (keygen_seed_from_entropy x hit.entropy)) >>= λ kp.
    let addr = pq_address x hit.salt kp.public_key in
    first_match_display targets (to_address_string x addr) >>= λ target.
    if not (is_pq_compliant x addr)
    then none
    else if canonical_only && not (has_canonical_salt x kp.public_key hit.salt)
    then none
    else some (record {
      entropy = hit.entropy;
      salt = hit.salt;
      addr = addr;
      kp = kp;
      roundtrip = signs_back c kp (codes "pq-vanity-gpu-emit");
      target = target;
    })

-- `chunks(k)`, on fuel: no list has more chunks than elements.
unfoldable pub chunks_of {ℓ} : {A : Type ℓ} → ℕ → ℕ → List A → List (List A)
chunks_of zero k xs = []
chunks_of (suc fuel) k [] = []
chunks_of (suc fuel) k (x ∷ xs) = take k (x ∷ xs) ∷ chunks_of fuel k (drop k (x ∷ xs))

-- One worker: the slots of its chunk, each written with the outcome for its hit.
unfoldable pub fill_slots {ℓ κ} : {A : Type ℓ} {B : Type κ} → (A → B) → List A → List B → List B
fill_slots f [] slots = slots
fill_slots f (h ∷ hs) [] = []
fill_slots f (h ∷ hs) (slot ∷ slots) = f h ∷ fill_slots f hs slots

-- The workers take disjoint chunks, so their order does not matter: the slots after all of them.
unfoldable pub fill_chunks {ℓ κ} :
    {A : Type ℓ} {B : Type κ} → (A → B) → List (List A) → List (List B) → List B
fill_chunks f [] ochunks = []
fill_chunks f (h ∷ hs) [] = []
fill_chunks f (h ∷ hs) (o ∷ os) = fill_slots f h o ++ fill_chunks f hs os

-- `threads` is `default_threads()`; `n.div_ceil(workers)` is the size of a chunk.
unfoldable pub verify_hits :
    Crates → FalconC → TargetSet → Bool → ℕ → List RawHit → List (Option VerifiedHit)
verify_hits x c targets canonical_only threads hits =
    let n = length hits in
    let workers = if leb threads n then threads else n in
    let chunk = (n + workers - 1) / workers in
    if n == 0
    then []
    else fill_chunks (verify_one x c targets canonical_only) (chunks_of n chunk hits)
        (chunks_of n chunk (replicate n none))

-- `flatten`
unfoldable pub survivors {ℓ} : {A : Type ℓ} → List (Option A) → List A
survivors [] = []
survivors (none ∷ os) = survivors os
survivors (some a ∷ os) = a ∷ survivors os

-- The counters of `cmd_gpu`, the target flags, and what has been written out.
pub record Progress : Type 0 where
  pub targets : TargetSet
  pub found : ℕ
  pub raw_hits : ℕ
  pub keys_done : ℕ
  pub siblings_discarded : ℕ
  pub batch_emitted : ℕ
  pub log : List VerifiedHit

pub record GpuArgs : Type 0 where
  pub count : ℕ
  pub items : ℕ
  pub max_salt : ℕ
  pub canonical_only : Bool
  pub allow_sibling_hits : Bool
  pub max_hits : ℕ
  pub batches : ℕ
  pub threads : ℕ

unfoldable pub written : Progress → VerifiedHit → Progress
written p v = record p {
  targets = (claim p.targets v.target).0;
  found = (p.found + 1) % 2 ^ 64;
  batch_emitted = (p.batch_emitted + 1) % 2 ^ 64;
  log = p.log ++ v ∷ [];
}

-- `found >= count || !targets.any_active()`
unfoldable pub satisfied : GpuArgs → Progress → Bool
satisfied a p = leb a.count p.found || not (any_active p.targets)

-- One round of the loop over the verified hits, and whether it breaks out.
unfoldable pub emit_one : GpuArgs → VerifiedHit → Progress → Progress × Bool
emit_one a v p =
    if not (is_active p.targets v.target)
    then (p, false)
    else if not a.allow_sibling_hits && leb 1 p.batch_emitted
    then (record p { siblings_discarded = (p.siblings_discarded + 1) % 2 ^ 64 }, false)
    else (written p v, satisfied a (written p v))

unfoldable pub emit_hits : GpuArgs → List VerifiedHit → Progress → Progress
emit_hits a [] p = p
emit_hits a (v ∷ vs) p =
    let r = emit_one a v p in let rest = emit_hits a vs r.0 in if r.1 then r.0 else rest

pub data GpuError : Type 0 where
  no_entropy : GpuError
  -- `device_words` or the assertion on the number of targets
  panicked : GpuError
  device : CudaError → GpuError

-- One round of the loop over the batches: the progress, and whether it was the last.
unfoldable pub gpu_batch :
    Crates
    → FalconC
    → CudaC
    → GpuArgs
    → ℕ
    → Option (List ℕ)
    → Progress
    → Result GpuError (Progress × Bool)
gpu_batch x c g a batch none p = err no_entropy
gpu_batch x c g a batch (some base) p = elim (device_table p.targets) [
  | none ↦ err panicked
  | some table ↦
      elim (search_batch g base (from_le (drop 24 base)) a.items a.max_salt table a.max_hits) [
        | none ↦ err panicked
        | some (err e) ↦ err (device e)
        | some (ok hits) ↦
            let verified = survivors (verify_hits x c p.targets a.canonical_only a.threads hits) in
            let p' = emit_hits a verified (record p {
              raw_hits = (p.raw_hits + length hits) % 2 ^ 64;
              keys_done = (p.keys_done + a.items) % 2 ^ 128;
              batch_emitted = 0;
            }) in
            ok (p', satisfied a p' || (not (a.batches == 0) && leb a.batches (batch + 1)))
      ]
]

-- A run that has finished, has failed, or goes on when the given mix outputs are used up.
pub data GpuRun : Type 0 where
  finished running : Progress → GpuRun
  failed : GpuError → Progress → GpuRun

-- One output of the entropy mix, or its failure, for each batch to come.
unfoldable pub gpu_loop :
    Crates → FalconC → CudaC → GpuArgs → ℕ → List (Option (List ℕ)) → Progress → GpuRun
gpu_loop x c g a batch [] p = running p
gpu_loop x c g a batch (o ∷ os) p = elim (gpu_batch x c g a batch o p) [
  | err e ↦ failed e p
  | ok (p', last) ↦
      let rest = gpu_loop x c g a (batch + 1) os p' in if last then finished p' else rest
]
