-- ===== src/Gpu/Run.antt =====
-- Whole runs of the host loop.
use falcon_vanity_generator.Base.{
  ℕ, ◌+◌, ◌%◌, ◌^◌, ◌≤◌, ◌<◌, Bool, false, not, ◌&&◌, ◌||◌, Option, none, some, List, [], ◌∷◌,
  length, drop, All, ◌≡◌, refl, sym, ap, ◌∙◌, inl, inr, arith, leb, ◌==◌, Bool-cases, Option-cases,
  length-append,
}
use mathlib.Core.Path.{subst}
use falcon_vanity_generator.Base.Results.{ok, err, Result-cases}
use falcon_vanity_generator.Base.Endian.{from_le}
use falcon_vanity_generator.Crates.{Crates}
use falcon_vanity_generator.Falcon.{FalconC}
use falcon_vanity_generator.Targets.Set.{TargetSet, is_active, device_table}
use falcon_vanity_generator.Cuda.{CudaC, RawHit, search_batch}
use falcon_vanity_generator.Gpu.{
  VerifiedHit, Progress, GpuArgs, satisfied, written, emit_one, emit_hits, gpu_batch, gpu_loop,
  verify_hits, survivors,
}
use falcon_vanity_generator.Gpu.Verify.{IsVerified, verify_hits-map}
use falcon_vanity_generator.Gpu.Emit.{IsProgress, emit_hits-Good, survivors-IsVerified, reached}

-- The progress with which a batch starts to write hits out.
abbrev batch_start : GpuArgs → List RawHit → Progress → Progress
batch_start a hits p = record p {
  raw_hits = (p.raw_hits + length hits) % 2 ^ 64;
  keys_done = (p.keys_done + a.items) % 2 ^ 128;
  batch_emitted = 0;
}

-- The progress after it.
abbrev batch_end : Crates → FalconC → GpuArgs → List RawHit → Progress → Progress
batch_end x c a hits p =
    emit_hits a (survivors (verify_hits x c p.targets a.canonical_only a.threads hits))
      (batch_start a hits p)

-- A batch that succeeds has got its hits from the device.
pub gpu_batch_ok :
    (x : Crates) (c : FalconC) (g : CudaC) (a : GpuArgs) (batch : ℕ) (o : Option (List ℕ))
    (p p' : Progress) (last : Bool)
    → gpu_batch x c g a batch o p ≡ ok (p', last)
    → (hits : List RawHit) × (batch_end x c a hits p ≡ p')
      × ((satisfied a p' || (not (a.batches == 0) && leb a.batches (batch + 1))) ≡ last)
unfolding gpu_batch
gpu_batch_ok x c g a batch none p p' last e = cc
gpu_batch_ok x c g a batch (some base) p p' last e = elim (Option-cases (device_table p.targets)) [
  | inl broken ↦ (let q = rw (broken, gpu_batch) at e in cc)
  | inr (table, built) ↦
      elim (Option-cases
        (search_batch g base (from_le (drop 24 base)) a.items a.max_salt table a.max_hits)) [
          | inl asserted ↦ (let q = rw (built, gpu_batch, asserted) at e in cc)
          | inr (err error, refused) ↦ (let q = rw (built, gpu_batch, refused) at e in cc)
          | inr (ok hits, searched) ↦
              let q = rw (built, gpu_batch, searched) at e in
              let ep : batch_end x c a hits p ≡ p' = cc in
              (
                hits,
                ep,
                ap (λ r. satisfied a r || (not (a.batches == 0) && leb a.batches (batch + 1)))
                      (sym ep)
                    ∙ cc,
              )
        ]
]

module _ (x : Crates) (c : FalconC) (g : CudaC) (a : GpuArgs) where
  -- If `--count` fits a u64, there is a thread, and the run starts well with fewer hits than asked
  -- for, then it keeps to its specification, whatever the device and the entropy mix return.
  pub gpu_loop-IsProgress :
      (start : TargetSet) (batch : ℕ) (outputs : List (Option (List ℕ))) (p : Progress)
      → a.count < 2 ^ 64
      → 1 ≤ a.threads
      → IsProgress x c a start p
      → p.found < a.count
      → IsProgress x c a start (reached (gpu_loop x c g a batch outputs p))
  unfolding gpu_loop
  gpu_loop-IsProgress start batch [] p small some_thread good lt = good
  gpu_loop-IsProgress start batch (o ∷ os) p small some_thread good lt =
      elim (Result-cases (gpu_batch x c g a batch o p)) [
        | inr (error, refused) ↦ rw (refused, gpu_loop) good
        | inl ((p', last), done) ↦
            let (hits, ended, stops) = gpu_batch_ok x c g a batch o p p' last done in
            let good' : IsProgress x c a start p' =
              subst (IsProgress x c a start) ended (batch_end-IsProgress hits) in
            elim (Bool-cases last) [
              | inl stop ↦ rw (done, gpu_loop, stop) good'
              | inr more ↦
                  rw (done, gpu_loop, more)
                    (gpu_loop-IsProgress start (batch + 1) os p' small some_thread good'
                      (unfold satisfied in ground arith))
            ]
      ]
    where
      batch_end-IsProgress : (hits : List RawHit) → IsProgress x c a start (batch_end x c a hits p)
      batch_end-IsProgress hits =
          emit_hits-Good x c a start small _ (batch_start a hits p)
            (record {
              list = good.list;
              retire = good.retire;
              counted = good.counted;
              within = good.within;
              verified = good.verified;
              once = good.once;
            })
            lt
            (subst (λ l. All (IsVerified x c start.list a.canonical_only) (survivors l))
              (sym (verify_hits-map x c p.targets a.canonical_only a.threads hits some_thread))
              (survivors-IsVerified x c a start small p.targets hits good.list))

  -- Without `--allow-sibling-hits`, a batch writes out at most one hit.
  emit_one-one :
      (v : VerifiedHit) (p : Progress)
      → a.allow_sibling_hits ≡ false
      → p.batch_emitted ≤ 1
      → ((emit_one a v p).0.batch_emitted ≤ 1)
        × (length (emit_one a v p).0.log + p.batch_emitted
            ≡ length p.log + (emit_one a v p).0.batch_emitted)
  unfolding emit_one written
  emit_one-one v p alone at_most = elim (Bool-cases (is_active p.targets v.target)) [
    | inr off ↦ rw off (at_most, refl)
    | inl on ↦ elim (Bool-cases (leb 1 p.batch_emitted)) [
      | inl second ↦ rw (on, alone, second) (at_most, refl)
      | inr first ↦
          let zero_so_far : p.batch_emitted ≡ 0 = ground arith in
          rw (on, alone, first) (omega arith, omega (arith, length-append p.log (v ∷ [])))
    ]
  ]

  emit_hits-one :
      (vs : List VerifiedHit) (p : Progress)
      → a.allow_sibling_hits ≡ false
      → p.batch_emitted ≤ 1
      → length (emit_hits a vs p).log + p.batch_emitted ≤ length p.log + 1
  unfolding emit_hits
  emit_hits-one [] p alone at_most = omega arith
  emit_hits-one (v ∷ vs) p alone at_most =
      let (less, same) = emit_one-one v p alone at_most in
      elim (Bool-cases (emit_one a v p).1) [
        | inl stop ↦ rw stop (omega arith)
        | inr more ↦
            rw more (let rest = emit_hits-one vs (emit_one a v p).0 alone less in omega arith)
      ]

  -- Without `--allow-sibling-hits` a run writes at most one hit for each batch.
  pub gpu_loop-one_each :
      (batch : ℕ) (outputs : List (Option (List ℕ))) (p : Progress)
      → a.allow_sibling_hits ≡ false
      → length (reached (gpu_loop x c g a batch outputs p)).log ≤ length p.log + length outputs
  unfolding gpu_loop
  gpu_loop-one_each batch [] p alone = omega arith
  gpu_loop-one_each batch (o ∷ os) p alone = elim (Result-cases (gpu_batch x c g a batch o p)) [
    | inr (error, refused) ↦ rw (refused, gpu_loop) (omega arith)
    | inl ((p', last), done) ↦
        let (hits, ended, stops) = gpu_batch_ok x c g a batch o p p' last done in
        let one =
          emit_hits-one (survivors (verify_hits x c p.targets a.canonical_only a.threads hits))
            (batch_start a hits p) alone (omega arith) in
        let one' : length p'.log ≤ length p.log + 1 = (let q = rw ended at one in omega arith) in
        elim (Bool-cases last) [
          | inl stop ↦ rw (done, gpu_loop, stop) (omega arith)
          | inr more ↦
              rw (done, gpu_loop, more)
                (let rest = gpu_loop-one_each (batch + 1) os p' alone in omega arith)
        ]
  ]
