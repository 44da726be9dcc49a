-- ===== src/Gpu/Ends.antt =====
-- When the host loop ends, and after how many batches.
use falcon_vanity_generator.Base.{
  ℕ, suc, ◌+◌, ◌≤◌, ◌<◌, true, false, not, ◌&&◌, ◌||◌, Option, List, [], ◌∷◌, length, take, ◌≡◌,
  refl, ◌⊎◌, inl, inr, arith, leb, ◌==◌, Bool-cases,
}
use falcon_vanity_generator.Base.Results.{Result-cases}
use falcon_vanity_generator.Crates.{Crates}
use falcon_vanity_generator.Falcon.{FalconC}
use falcon_vanity_generator.Targets.Set.{any_active}
use falcon_vanity_generator.Cuda.{CudaC}
use falcon_vanity_generator.Gpu.{
  Progress, GpuArgs, satisfied, gpu_batch, gpu_loop, finished, running, failed, GpuError,
}
use falcon_vanity_generator.Gpu.Run.{gpu_batch_ok}

module _ (x : Crates) (c : FalconC) (g : CudaC) (a : GpuArgs) where
  -- What ends a run in the batch after the first `k`, counted from batch `batch`.
  abbrev pub EndsAt : ℕ → ℕ → List (Option (List ℕ)) → Progress → Progress → Type 0
  EndsAt k batch outputs p p' =
      (k < length outputs)
      × ((r : Progress) × (gpu_loop x c g a batch (take k outputs) p ≡ running r))
      × (gpu_loop x c g a batch (take (suc k) outputs) p ≡ finished p')
      × ((a.batches ≡ 0) ⊎ (batch + suc k ≤ a.batches))
      × ((a.count ≤ p'.found) ⊎ ((any_active p'.targets ≡ false) ⊎ (batch + suc k ≡ a.batches)))

  -- A run that finishes does so after a number of batches, not sooner, which is at most the number
  -- given with `--batches` if that is not 0; and then the hits are as many as asked for, no target is
  -- active, or exactly the given number of batches is done.
  pub gpu_loop_finished :
      (batch : ℕ) (outputs : List (Option (List ℕ))) (p p' : Progress)
      → (a.batches ≡ 0) ⊎ (batch < a.batches)
      → gpu_loop x c g a batch outputs p ≡ finished p'
      → (k : ℕ) × EndsAt k batch outputs p p'
  unfolding gpu_loop
  gpu_loop_finished batch [] p p' within e = cc
  gpu_loop_finished batch (o ∷ os) p p' within e =
      elim (Result-cases (gpu_batch x c g a batch o p)) [
        | inr (error, refused) ↦ (let q = rw (refused, gpu_loop) at e in cc)
        | inl ((r, last), done) ↦
            let (hits, ended, stops) = gpu_batch_ok x c g a batch o p r last done in
            elim (Bool-cases last) [
              | inl stop ↦
                  let same : r ≡ p' = (let q = rw (done, gpu_loop, stop) at e in cc) in
                  let stops' : (satisfied a p'
                        || (not (a.batches == 0) && leb a.batches (batch + 1)))
                      ≡ true =
                    rw (same, stop) at stops in
                  (
                    0,
                    (
                      omega arith,
                      (p, refl),
                      rw (done, gpu_loop, stop) (rw same refl),
                      ground arith,
                      unfold satisfied in ground arith,
                    ),
                  )
              | inr more ↦
                  let stops' : (satisfied a r
                        || (not (a.batches == 0) && leb a.batches (batch + 1)))
                      ≡ false =
                    rw more at stops in
                  let (k, (lt, (q, goes_on), ends, few, why)) =
                    gpu_loop_finished (batch + 1) os r p' (ground arith)
                      (rw (done, gpu_loop, more) at e) in
                  (
                    suc k,
                    (
                      omega (arith, lt),
                      (q, rw (done, gpu_loop, more) goes_on),
                      rw (done, gpu_loop, more) ends,
                      ground (arith, few),
                      ground (arith, why),
                    ),
                  )
            ]
      ]

  -- If a number of batches is given, a run that has an output of the mix for each batch that is left
  -- finishes or fails.
  pub gpu_loop_stops :
      (batch : ℕ) (outputs : List (Option (List ℕ))) (p : Progress)
      → batch < a.batches
      → a.batches ≤ batch + length outputs
      → ((p' : Progress) × (gpu_loop x c g a batch outputs p ≡ finished p'))
        ⊎ ((e : GpuError) × (p' : Progress) × (gpu_loop x c g a batch outputs p ≡ failed e p'))
  unfolding gpu_loop
  gpu_loop_stops batch [] p lt enough = absurd (omega (arith, lt, enough))
  gpu_loop_stops batch (o ∷ os) p lt enough = elim (Result-cases (gpu_batch x c g a batch o p)) [
    | inr (error, refused) ↦ inr (error, p, rw (refused, gpu_loop) refl)
    | inl ((p', last), done) ↦
        let (hits, ended, stops) = gpu_batch_ok x c g a batch o p p' last done in
        elim (Bool-cases last) [
          | inl stop ↦ inl (p', rw (done, gpu_loop, stop) refl)
          | inr more ↦
              let stops' : (satisfied a p' || (not (a.batches == 0) && leb a.batches (batch + 1)))
                  ≡ false =
                rw more at stops in
              rw (done, gpu_loop, more)
                (gpu_loop_stops (batch + 1) os p' (ground arith) (omega (arith, enough)))
        ]
  ]
