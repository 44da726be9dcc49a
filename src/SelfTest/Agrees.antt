-- ===== src/SelfTest/Agrees.antt =====
-- When the stages of the self-test pass.
use falcon_vanity_generator.Base.{
  ℕ, zero, suc, ◌+◌, Bool, true, some, List, [], ◌∷◌, get_elem?, ◌≡◌, refl, sym, ap, ap₂, ◌∙◌, ◌↔◌,
  inl, inr, arith, ◌==◌, Bool-cases, ==_iff, some_inj,
}
use falcon_vanity_generator.Base.Results.{Result, ok, err, bind}
use falcon_vanity_generator.Crates.{Crates}
use falcon_vanity_generator.Falcon.{FalconC}
use falcon_vanity_generator.Cuda.{CudaError}
use falcon_vanity_generator.Cuda.Debug.{DebugC, dbg_sample_fg, dbg_pubkey, dbg_addr32}
use falcon_vanity_generator.SelfTest.{
  SelfTestError, sampler_fails, pubkey_fails, addr32_fails, mismatches, judge, sampler_agrees,
  pubkey_agrees, addr32_agrees, pipeline_stages,
}
use falcon_vanity_generator.SelfTest.Rows.{
  SamplesAt, KeyAt, AddressAt, sampler_agrees_iff, pubkey_agrees_iff, addr32_agrees_iff,
}

-- The device answers, and its answer agrees at every seed.
abbrev Agrees : {A : Type 0} → (A → ℕ → List ℕ → Bool) → Result CudaError A → List (List ℕ) → Type 0
Agrees {A = A} agrees out seeds =
    (dev : A) × (out ≡ ok dev)
    × ((k : ℕ) (seed : List ℕ) → get_elem? seeds k ≡ some seed → agrees dev k seed ≡ true)

-- The device answers with `dev`, and at the place of every seed `dev` is as `P` says.
abbrev pub Answers :
    {A : Type 0} → (A → ℕ → List ℕ → Type 0) → Result CudaError A → List (List ℕ) → Type 0
Answers {A = A} P out seeds =
    (dev : A) × (out ≡ ok dev)
    × ((k : ℕ) (seed : List ℕ) → get_elem? seeds k ≡ some seed → P dev k seed)

tested_rows :
    {A : Type 0} (agrees : A → ℕ → List ℕ → Bool) (P : A → ℕ → List ℕ → Type 0)
    (out : Result CudaError A) (seeds : List (List ℕ))
    → ((dev : A) (k : ℕ) (seed : List ℕ) → (agrees dev k seed ≡ true) ↔ P dev k seed)
    → Agrees agrees out seeds ↔ Answers P out seeds
tested_rows agrees P out seeds test = (
  λ (dev, e, all). (dev, e, λ k seed at. (test dev k seed).0 (all k seed at)),
  λ (dev, e, all). (dev, e, λ k seed at. (test dev k seed).1 (all k seed at)),
)

mismatches_zero :
    (agrees : ℕ → List ℕ → Bool) (seeds : List (List ℕ)) (i : ℕ)
    → mismatches agrees i seeds ≡ 0
    → (k : ℕ) (seed : List ℕ) → get_elem? seeds k ≡ some seed
    → agrees (i + k) seed ≡ true
unfolding mismatches
mismatches_zero agrees [] i h k seed e = cc
mismatches_zero agrees (s ∷ ss) i h zero seed e =
    let z : s ≡ seed = some_inj e in
    let here : agrees i s ≡ true = ground (arith, h) in
    let same : i ≡ i + 0 = omega arith in ap₂ agrees (sym same) (sym z) ∙ here
mismatches_zero agrees (s ∷ ss) i h (suc k) seed e =
    let same : i + 1 + k ≡ i + suc k = omega arith in
    ap (λ n. agrees n seed) (sym same)
    ∙ mismatches_zero agrees ss (i + 1) (omega (arith, h)) k seed e

zero_mismatches :
    (agrees : ℕ → List ℕ → Bool) (seeds : List (List ℕ)) (i : ℕ)
    → ((k : ℕ) (seed : List ℕ) → get_elem? seeds k ≡ some seed → agrees (i + k) seed ≡ true)
    → mismatches agrees i seeds ≡ 0
unfolding mismatches
zero_mismatches agrees [] i h = refl
zero_mismatches agrees (s ∷ ss) i h =
    let same : i + 0 ≡ i = omega arith in
    let here : agrees i s ≡ true = ap (λ n. agrees n s) (sym same) ∙ h 0 s refl in
    let rest = zero_mismatches agrees ss (i + 1) (λ k seed e.
      let later : i + 1 + k ≡ i + suc k = omega arith in
      ap (λ n. agrees n seed) later ∙ h (suc k) seed e) in
    rw here (omega (arith, rest))

judge_iff :
    {A : Type 0} (fails : ℕ → SelfTestError) (agrees : A → ℕ → List ℕ → Bool)
    (out : Result CudaError A) (seeds : List (List ℕ))
    → (judge fails agrees out seeds ≡ ok tt) ↔ Agrees agrees out seeds
unfolding judge
judge_iff {A = A} fails agrees out seeds = (passed out, agreed out)
  where
    passed : (r : Result CudaError A) → judge fails agrees r seeds ≡ ok tt → Agrees agrees r seeds
    passed (err e) h = cc
    passed (ok dev) h = elim (Bool-cases (mismatches (agrees dev) 0 seeds == 0)) [
      | inr some_left ↦ (let q = rw some_left at h in cc)
      | inl none_left ↦ (
        dev,
        refl,
        λ k seed e.
            let same : 0 + k ≡ k = omega arith in
            ap (λ n. agrees dev n seed) (sym same)
            ∙ mismatches_zero (agrees dev) seeds 0
                ((==_iff (mismatches (agrees dev) 0 seeds) 0).0 none_left) k seed e,
      )
    ]

    agreed : (r : Result CudaError A) → Agrees agrees r seeds → judge fails agrees r seeds ≡ ok tt
    agreed r (dev, e, all_agree) =
        let none_left = zero_mismatches (agrees dev) seeds 0 (λ k seed at.
          let same : 0 + k ≡ k = omega arith in
          ap (λ n. agrees dev n seed) same ∙ all_agree k seed at) in
        rw (e, judge, none_left) refl

both_iff :
    (r s : Result SelfTestError (Unit {0}))
    → (bind r (λ _. s) ≡ ok tt) ↔ ((r ≡ ok tt) × (s ≡ ok tt))
both_iff (ok u) s = (λ h. (refl, h), λ h. h.1)
both_iff (err e) s = (λ h. cc, λ h. let q = h.0 in cc)

module _ (x : Crates) (c : FalconC) (g : DebugC) (seeds : List (List ℕ)) where
  -- The tests at one salt.
  abbrev AgreesAt : ℕ → Type 0
  AgreesAt salt = Agrees (addr32_agrees x c salt) (dbg_addr32 g seeds salt) seeds

  addr32_stage : ℕ → Result SelfTestError (Unit {0})
  addr32_stage salt =
      judge (addr32_fails salt) (addr32_agrees x c salt) (dbg_addr32 g seeds salt) seeds

  stages_agree : (pipeline_stages x c g seeds ≡ ok tt) ↔ (
      Agrees (sampler_agrees x c) (dbg_sample_fg g seeds) seeds
      × Agrees (pubkey_agrees x c) (dbg_pubkey g seeds) seeds
      × AgreesAt 0
      × AgreesAt 7
      × AgreesAt 200)
  unfolding pipeline_stages addr32_stage
  stages_agree = (
    λ h.
        let (h1, r1) = (both_iff _ _).0 h in
        let (h2, r2) = (both_iff _ _).0 r1 in
        let (h3, r3) = (both_iff _ _).0 r2 in
        let (h4, h5) = (both_iff (addr32_stage 7) (addr32_stage 200)).0 r3 in
        (
          (judge_iff sampler_fails (sampler_agrees x c) (dbg_sample_fg g seeds) seeds).0 h1,
          (judge_iff pubkey_fails (pubkey_agrees x c) (dbg_pubkey g seeds) seeds).0 h2,
          (judge_iff (addr32_fails 0) (addr32_agrees x c 0) (dbg_addr32 g seeds 0) seeds).0 h3,
          (judge_iff (addr32_fails 7) (addr32_agrees x c 7) (dbg_addr32 g seeds 7) seeds).0 h4,
          (judge_iff (addr32_fails 200) (addr32_agrees x c 200) (dbg_addr32 g seeds 200) seeds).0
              h5,
        ),
    λ (a1, a2, a3, a4, a5). (both_iff _ _).1 (
      (judge_iff sampler_fails (sampler_agrees x c) (dbg_sample_fg g seeds) seeds).1 a1,
      (both_iff _ _).1 (
        (judge_iff pubkey_fails (pubkey_agrees x c) (dbg_pubkey g seeds) seeds).1 a2,
        (both_iff _ _).1 (
          (judge_iff (addr32_fails 0) (addr32_agrees x c 0) (dbg_addr32 g seeds 0) seeds).1 a3,
          (both_iff (addr32_stage 7) (addr32_stage 200)).1 (
            (judge_iff (addr32_fails 7) (addr32_agrees x c 7) (dbg_addr32 g seeds 7) seeds).1 a4,
            (judge_iff (addr32_fails 200) (addr32_agrees x c 200) (dbg_addr32 g seeds 200) seeds).1
                a5,
          ),
        ),
      ),
    ),
  )

  address_stage :
      (salt : ℕ) → AgreesAt salt ↔ Answers (AddressAt x c salt) (dbg_addr32 g seeds salt) seeds
  address_stage salt =
      tested_rows (addr32_agrees x c salt) (AddressAt x c salt) (dbg_addr32 g seeds salt) seeds
        (addr32_agrees_iff x c salt)

  -- The first three stages of the self-test pass exactly when the device answers each time and, at
  -- every seed, its output has the polynomials of the CPU at the seed's place, the flag 0 where the CPU
  -- has no public key and otherwise another flag and that key, and at the salts 0, 7 and 200, where
  -- both have a key, the address of that key.
  pub pipeline_stages_iff : (pipeline_stages x c g seeds ≡ ok tt) ↔ (
      Answers (SamplesAt x c) (dbg_sample_fg g seeds) seeds
      × Answers (KeyAt x c) (dbg_pubkey g seeds) seeds
      × Answers (AddressAt x c 0) (dbg_addr32 g seeds 0) seeds
      × Answers (AddressAt x c 7) (dbg_addr32 g seeds 7) seeds
      × Answers (AddressAt x c 200) (dbg_addr32 g seeds 200) seeds)
  pipeline_stages_iff =
      let sampled =
        tested_rows (sampler_agrees x c) (SamplesAt x c) (dbg_sample_fg g seeds) seeds
          (sampler_agrees_iff x c) in
      let keyed =
        tested_rows (pubkey_agrees x c) (KeyAt x c) (dbg_pubkey g seeds) seeds
          (pubkey_agrees_iff x c) in
      (
        λ h.
            let (a1, a2, a3, a4, a5) = stages_agree.0 h in
            (
              sampled.0 a1,
              keyed.0 a2,
              (address_stage 0).0 a3,
              (address_stage 7).0 a4,
              (address_stage 200).0 a5,
            ),
        λ (b1, b2, b3, b4, b5). stages_agree.1 (
          sampled.1 b1,
          keyed.1 b2,
          (address_stage 0).1 b3,
          (address_stage 7).1 b4,
          (address_stage 200).1 b5,
        ),
      )
