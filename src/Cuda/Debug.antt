-- ===== src/Cuda/Debug.antt =====
-- crates/pq-cuda/src/lib.rs: the entry points for validation, built with CUDA. The kernels are
-- parameters: each maps the flat input and its number of items to the return code, as the bit pattern
-- of an `int`, and the output buffers.
use falcon_vanity_generator.Base.{
  ℕ, Bool, Option, none, some, List, [], ◌∷◌, ◌++◌, length, ltb, if◌then◌else◌,
}
use falcon_vanity_generator.Base.Results.{Result, ok, err}
use falcon_vanity_generator.Targets.{DeviceWords, max_targets}
use falcon_vanity_generator.Cuda.{CudaError, runtime, is_negative}

pub record DebugC : Type 0 where
  pub pq_cuda_dbg_sample_fg : List ℕ → ℕ → ℕ × List ℕ
  -- code, public keys, flags
  pub pq_cuda_dbg_pubkey : List ℕ → ℕ → ℕ × List ℕ × List ℕ
  -- with the salt; code, addresses, flags
  pub pq_cuda_dbg_addr32 : List ℕ → ℕ → ℕ → ℕ × List ℕ × List ℕ
  pub pq_cuda_dbg_accept : List ℕ → ℕ → ℕ × List ℕ
  -- with the targets
  pub pq_cuda_dbg_match : List ℕ → ℕ → List DeviceWords → ℕ × List ℕ
  pub ed_cuda_dbg_match : List ℕ → ℕ → List DeviceWords → ℕ × List ℕ
  -- with `fast`
  pub ed_cuda_dbg_pubkey : List ℕ → ℕ → Bool → ℕ × List ℕ

unfoldable pub flat : List (List ℕ) → List ℕ
flat [] = []
flat (s ∷ ss) = s ++ flat ss

-- `if rc < 0`
unfoldable pub checked {ℓ} : {A : Type ℓ} → ℕ → A → Result CudaError A
checked rc out = if is_negative rc then err (runtime rc) else ok out

module _ (g : DebugC) where
  unfoldable pub dbg_sample_fg : List (List ℕ) → Result CudaError (List ℕ)
  dbg_sample_fg entropies =
      let r = g.pq_cuda_dbg_sample_fg (flat entropies) (length entropies) in checked r.0 r.1

  unfoldable pub dbg_pubkey : List (List ℕ) → Result CudaError (List ℕ × List ℕ)
  dbg_pubkey entropies =
      let r = g.pq_cuda_dbg_pubkey (flat entropies) (length entropies) in checked r.0 (r.1, r.2)

  unfoldable pub dbg_addr32 : List (List ℕ) → ℕ → Result CudaError (List ℕ × List ℕ)
  dbg_addr32 entropies salt =
      let r = g.pq_cuda_dbg_addr32 (flat entropies) (length entropies) salt in
      checked r.0 (r.1, r.2)

  unfoldable pub dbg_accept : List (List ℕ) → Result CudaError (List ℕ)
  dbg_accept entropies =
      let r = g.pq_cuda_dbg_accept (flat entropies) (length entropies) in checked r.0 r.1

  -- `none` is a failed assertion.
  unfoldable pub dbg_match :
      List (List ℕ) → List DeviceWords → Bool → Option (Result CudaError (List ℕ))
  dbg_match addrs targets ed =
      let n = length addrs in
      let r =
        if ed
        then g.ed_cuda_dbg_match (flat addrs) n targets
        else g.pq_cuda_dbg_match (flat addrs) n targets in
      if ltb max_targets (length targets) then none else some (checked r.0 r.1)

  unfoldable pub ed_dbg_pubkey : List (List ℕ) → Bool → Result CudaError (List ℕ)
  ed_dbg_pubkey seeds fast =
      let r = g.ed_cuda_dbg_pubkey (flat seeds) (length seeds) fast in checked r.0 r.1
