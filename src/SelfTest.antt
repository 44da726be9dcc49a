-- ===== src/SelfTest.antt =====
-- crates/pq-vanity/src/main.rs, `cmd_gpu_selftest` (its first five stages) and `selftest_matcher`, and
-- crates/pq-vanity/src/classic.rs, `cmd_gpu_selftest` (its first three): the device against the CPU.
-- The random inputs are arguments.
pub mod Rows
pub mod Agrees
pub mod Whole
use falcon_vanity_generator.Base.{
  ℕ, zero, suc, ◌+◌, ◌-◌, ◌*◌, ◌/◌, ◌%◌, ◌^◌, ◌≤◌, ◌<◌, bit_and, bit_or, bit_xor, Bool, true, false,
  not, ◌&&◌, ◌||◌, Option, none, some, List, [], ◌∷◌, ◌++◌, map, append-nil, append_assoc, String,
  codes, length, take, drop, get_elem?, get_or, set, replicate, All, ◌≡◌, refl, sym, ap, ap₂, ◌∙◌,
  ◌≢◌, ◌↔◌, ◌⊎◌, inl, inr, arith, ltb, leb, ◌==◌, if◌then◌else◌, ltb→lt, leb→le, Bool-cases,
  Option-cases, ◌>>=◌, is_some, length-append, take-append-drop, length-take, length-drop, take_all,
  take-take, take-append_le, take-append_self, drop-append_le, drop-append_self, drop-drop,
  length-replicate, All-append, All-take, All-drop, length-map, take-map, drop-map,
  get_or-get_elem?, starts_with, ends_with, list_eq, list_eq_iff, starts_with_iff, ends_with_iff,
  ends_with-nil, ==_iff, Bool_ext, some_inj, get_elem?-below, All-get,
}
use falcon_vanity_generator.Base.Results.{Result, ok, err, bind, ensure, map_err}
use falcon_vanity_generator.Crates.{Crates}
use falcon_vanity_generator.Falcon.{
  FalconC, pubkey_size, sample_fg, pubkey_from_fg, first_visible_accept,
}
use falcon_vanity_generator.Address.{
  Address, keygen_seed_from_entropy, pq_address, to_address_string,
}
use falcon_vanity_generator.Targets.Set.{TargetSet, device_table, first_match_display}
use falcon_vanity_generator.Targets.Parse.{ParseError, parse}
use falcon_vanity_generator.Cuda.{CudaError}
use falcon_vanity_generator.Cuda.Debug.{
  DebugC, dbg_sample_fg, dbg_pubkey, dbg_addr32, dbg_accept, dbg_match, ed_dbg_pubkey,
}
use falcon_vanity_generator.Gpu.{chunks_of, fill_chunks}
use falcon_vanity_generator.Classic.{Ed25519, from_seed, classic_public_key}

-- `N`
abbrev pub degree : ℕ
degree = 1024

-- `panicked` is a failed assertion, and `chunks(0)`.
pub data SelfTestError : Type 0 where
  device : CudaError → SelfTestError
  sampler_fails pubkey_fails retry_fails matcher_fails ed_pubkey_fails : ℕ → SelfTestError
  addr32_fails : ℕ → ℕ → SelfTestError
  bad_targets : ParseError → SelfTestError
  panicked : SelfTestError

-- The seeds, from seed `i` on, on which the device and the CPU do not agree.
unfoldable pub mismatches : (ℕ → List ℕ → Bool) → ℕ → List (List ℕ) → ℕ
mismatches agrees i [] = 0
mismatches agrees i (s ∷ ss) = (if agrees i s then 0 else 1) + mismatches agrees (i + 1) ss

-- What a stage concludes from the output of the device.
unfoldable pub judge :
    {A : Type 0}
    → (ℕ → SelfTestError)
    → (A → ℕ → List ℕ → Bool)
    → Result CudaError A
    → List (List ℕ)
    → Result SelfTestError (Unit {0})
judge fails agrees out seeds = bind (map_err device out) (λ dev.
    let mism = mismatches (agrees dev) 0 seeds in if mism == 0 then ok tt else err (fails mism))

-- `&out[i * size..(i + 1) * size]`
unfoldable pub row : ℕ → List ℕ → ℕ → List ℕ
row size out i = take size (drop (i * size) out)

module _ (x : Crates) (c : FalconC) where
  unfoldable pub sampler_agrees : List ℕ → ℕ → List ℕ → Bool
  sampler_agrees dev i seed =
      let fg = sample_fg c (keygen_seed_from_entropy x seed) in
      let base = i * 2 * degree in
      list_eq (take degree (drop base dev)) fg.f
      && list_eq (take degree (drop (base + degree) dev)) fg.g

  unfoldable pub pubkey_agrees : List ℕ × List ℕ → ℕ → List ℕ → Bool
  pubkey_agrees dev i seed =
      let dev_ok = not (get_or dev.1 i 0 == 0) in
      elim (pubkey_from_fg c (sample_fg c (keygen_seed_from_entropy x seed))) [
        | none ↦ not dev_ok
        | some pk ↦ dev_ok && list_eq (row pubkey_size dev.0 i) pk
      ]

  unfoldable pub addr32_agrees : ℕ → List ℕ × List ℕ → ℕ → List ℕ → Bool
  addr32_agrees salt dev i seed =
      elim (pubkey_from_fg c (sample_fg c (keygen_seed_from_entropy x seed))) [
        | none ↦ true
        | some pk ↦
            if get_or dev.1 i 0 == 0
            then true
            else list_eq (row 32 dev.0 i) (pq_address x salt pk).bytes
      ]

  -- The CPU's attempt for one seed as an `i32`; -1 is 2^32 - 1.
  unfoldable pub cpu_attempt : List ℕ → ℕ
  cpu_attempt e = elim (first_visible_accept c (keygen_seed_from_entropy x e) 192) [
    | none ↦ 2 ^ 32 - 1
    | some a ↦ a
  ]

  -- The workers fill their chunks of a vector of -2.
  unfoldable pub cpu_attempts : ℕ → List (List ℕ) → Option (List ℕ)
  cpu_attempts threads subset =
      let nr = length subset in
      let fewer = if leb threads nr then threads else nr in
      let workers = if leb 1 fewer then fewer else 1 in
      let chunk = (nr + workers - 1) / workers in
      if chunk == 0
      then none
      else some (
          fill_chunks cpu_attempt (chunks_of nr chunk subset)
            (chunks_of nr chunk (replicate nr (2 ^ 32 - 2))))

  unfoldable pub differing : List ℕ → List ℕ → ℕ
  differing [] bs = 0
  differing (a ∷ as_) [] = 0
  differing (a ∷ as_) (b ∷ bs) = (if a == b then 0 else 1) + differing as_ bs

  -- At most 4 seeds, or 5 in a thousand, may differ.
  unfoldable pub retry_stage : DebugC → ℕ → List (List ℕ) → Result SelfTestError (Unit {0})
  retry_stage g threads seeds =
      let subset = take 2000 seeds in
      bind (map_err device (dbg_accept g subset)) (λ dev. elim (cpu_attempts threads subset) [
        | none ↦ err panicked
        | some cpu ↦
            let mism = differing dev cpu in
            if leb mism 4 || leb (mism * 1000) (length subset * 5)
            then ok tt
            else err (retry_fails mism)
      ])

  -- Sampler, public key, address at three salts.
  unfoldable pub pipeline_stages : DebugC → List (List ℕ) → Result SelfTestError (Unit {0})
  pipeline_stages g seeds =
      bind (judge sampler_fails sampler_agrees (dbg_sample_fg g seeds) seeds) (λ _.
        bind (judge pubkey_fails pubkey_agrees (dbg_pubkey g seeds) seeds) (λ _.
          bind (judge (addr32_fails 0) (addr32_agrees 0) (dbg_addr32 g seeds 0) seeds) (λ _.
            bind (judge (addr32_fails 7) (addr32_agrees 7) (dbg_addr32 g seeds 7) seeds)
              (λ _. judge (addr32_fails 200) (addr32_agrees 200) (dbg_addr32 g seeds 200) seeds))))
