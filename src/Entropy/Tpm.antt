-- ===== src/Entropy/Tpm.antt =====
-- The TPM loop ends after at most 32 responses, and a complete read has 32 bytes.
use falcon_vanity_generator.Base.{
  ℕ, ◌+◌, ◌-◌, ◌≤◌, ◌<◌, false, not, ◌||◌, Option, none, some, List, [], ◌∷◌, ◌++◌, length, take,
  drop, ◌≡◌, refl, sym, ap, ◌∙◌, ◌≢◌, ◌⊎◌, inl, inr, arith, ltb, leb, ◌==◌, if◌then◌else◌, ltb→lt,
  Bool-cases, length-append, length-take, length-drop,
}
use falcon_vanity_generator.Base.Digits.{value}
use falcon_vanity_generator.Entropy.{
  TpmOutcome, TpmError, complete, failed, waiting, io_error, tpm_response, tpm2_get_random,
}

-- A response that does not fail adds at least one byte, and never too many.
pub tpm_response-grows :
    (filled resp more : List ℕ)
    → length filled < 32
    → tpm_response filled resp ≡ waiting more
    → (length filled < length more) × (length more ≤ 32)
unfolding tpm_response
tpm_response-grows filled resp more lt e = elim (Bool-cases (ltb (length resp) 12)) [
  | inl short ↦ (let q = rw short at e in cc)
  | inr long ↦ elim (Bool-cases (not (value 256 0 (take 4 (drop 6 resp)) == 0))) [
    | inl bad ↦ (let q = rw (long, bad) at e in cc)
    | inr good ↦ elim (Bool-cases (blen == 0 || ltb (length resp) (12 + blen))) [
      | inl wrong ↦ (let q = rw (long, good, wrong) at e in cc)
      | inr right ↦
          let q = rw (long, good, right) at e in
          let same : filled ++ take taken (drop 12 resp) ≡ more = cc in
          let pos : 1 ≤ blen = ground arith in
          let fits : 12 + blen ≤ length resp = ground arith in
          let few : (1 ≤ taken) × (taken ≤ blen) × (taken + length filled ≤ 32) = ground arith in
          let count : length more ≡ length filled + taken =
            ap length (sym same)
            ∙ length-append filled (take taken (drop 12 resp))
            ∙ ap (λ (k : ℕ). length filled + k)
                (length-take taken (drop 12 resp) (omega (arith, length-drop 12 resp))) in
          (omega arith, omega arith)
    ]
  ]
]
  where
    blen : ℕ
    blen = value 256 0 (take 2 (drop 10 resp))

    taken : ℕ
    taken = if leb blen (32 - length filled) then blen else 32 - length filled

pub tpm_response-not_complete : (filled resp out : List ℕ) → tpm_response filled resp ≢ complete out
unfolding tpm_response
tpm_response-not_complete filled resp out e = ground arith

-- The outcome of a read is all 32 bytes or an error.
pub data Ended : TpmOutcome → Type 0 where
  all_bytes : (out : List ℕ) → length out ≡ 32 → Ended (complete out)
  with_error : (e : TpmError) (out : List ℕ) → Ended (failed e out)

pub outcome_cases :
    (o : TpmOutcome)
    → ((more : List ℕ) × (o ≡ waiting more))
      ⊎ (((e : TpmError) × (out : List ℕ) × (o ≡ failed e out))
          ⊎ ((out : List ℕ) × (o ≡ complete out)))
outcome_cases (waiting more) = inl (more, refl)
outcome_cases (failed e out) = inr (inl (e, out, refl))
outcome_cases (complete out) = inr (inr (out, refl))

-- Whatever the TPM answers, the loop has ended after as many responses as bytes were wanted: with
-- all 32 bytes, or with an error.
pub tpm2_get_random-Ended :
    (rs : List (Option (List ℕ))) (filled : List ℕ)
    → length filled ≤ 32
    → 32 ≤ length filled + length rs
    → Ended (tpm2_get_random rs filled)
unfolding tpm2_get_random
tpm2_get_random-Ended [] filled small enough =
    let full : ltb (length filled) 32 ≡ false = ground arith in
    rw full (all_bytes filled (omega arith))
tpm2_get_random-Ended (none ∷ rs) filled small enough = elim (Bool-cases (ltb (length filled) 32)) [
  | inl more ↦ rw more (with_error io_error filled)
  | inr full ↦ rw full (all_bytes filled (ground arith))
]
tpm2_get_random-Ended (some resp ∷ rs) filled small enough =
    elim (Bool-cases (ltb (length filled) 32)) [
      | inr full ↦ rw full (all_bytes filled (ground arith))
      | inl less ↦ elim (outcome_cases (tpm_response filled resp)) [
        | inl (more, e) ↦
            let (lo, hi) = tpm_response-grows filled resp more (ltb→lt _ _ less) e in
            rw (less, e) (tpm2_get_random-Ended rs more hi (omega arith))
        | inr (inl (error, out, e)) ↦ rw (less, e) (with_error error out)
        | inr (inr (out, e)) ↦ absurd (tpm_response-not_complete filled resp out e)
      ]
    ]
