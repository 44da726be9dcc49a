-- ===== src/Cuda.antt =====
-- crates/pq-cuda/src/lib.rs: the two searches on the device, built with CUDA. The kernels are
-- parameters: each maps its arguments to the return code, as the bit pattern of an `int`, and the
-- buffer of hits that it filled. `none` is a failed assertion.
pub mod Debug
use falcon_vanity_generator.Base.{
  ℕ, zero, suc, ◌+◌, ◌*◌, ◌^◌, Bool, Option, none, some, List, [], ◌∷◌, length, take, drop, get_or,
  ltb, leb, if◌then◌else◌,
}
use falcon_vanity_generator.Base.Results.{Result, ok, err}
use falcon_vanity_generator.Targets.{DeviceWords, max_targets}

abbrev pub stride : ℕ
stride = 33

pub data CudaError : Type 0 where
  not_built : CudaError
  runtime : ℕ → CudaError

-- One raw hit of the device.
pub record RawHit : Type 0 where
  pub entropy : List ℕ
  pub salt : ℕ

pub record CudaC : Type 0 where
  -- base entropy, start counter, items, max salt, targets, max hits
  pub pq_cuda_search : List ℕ → ℕ → ℕ → ℕ → List DeviceWords → ℕ → ℕ × List ℕ
  -- base seed, start counter, items, targets, max hits
  pub ed_cuda_search : List ℕ → ℕ → ℕ → List DeviceWords → ℕ → ℕ × List ℕ

-- `n < 0` on the bit pattern of an `int`.
unfoldable pub is_negative : ℕ → Bool
is_negative n = leb (2 ^ 31) n

-- The rows of `out` from row `i` on, with `left` of them to go.
unfoldable pub read_hits : List ℕ → ℕ → ℕ → List RawHit
read_hits out zero i = []
read_hits out (suc left) i =
    record { entropy = take 32 (drop (i * stride) out); salt = get_or out (i * stride + 32) 0 }
    ∷ read_hits out left (i + 1)

unfoldable pub read_seeds : List ℕ → ℕ → ℕ → List (List ℕ)
read_seeds out zero i = []
read_seeds out (suc left) i = take 32 (drop (i * 32) out) ∷ read_seeds out left (i + 1)

unfoldable pub lesser : ℕ → ℕ → ℕ
lesser m n = if leb m n then m else n

module _ (g : CudaC) where
  unfoldable pub search_batch :
      List ℕ → ℕ → ℕ → ℕ → List DeviceWords → ℕ → Option (Result CudaError (List RawHit))
  search_batch base start items max_salt targets max_hits =
      let r = g.pq_cuda_search base start items max_salt targets max_hits in
      if ltb max_targets (length targets)
      then none
      else if is_negative r.0
      then some (err (runtime r.0))
      else some (ok (read_hits r.1 (lesser r.0 max_hits) 0))

  unfoldable pub ed_search_batch :
      List ℕ → ℕ → ℕ → List DeviceWords → ℕ → Option (Result CudaError (List (List ℕ)))
  ed_search_batch base start items targets max_hits =
      let r = g.ed_cuda_search base start items targets max_hits in
      if ltb max_targets (length targets)
      then none
      else if is_negative r.0
      then some (err (runtime r.0))
      else some (ok (read_seeds r.1 (lesser r.0 max_hits) 0))
