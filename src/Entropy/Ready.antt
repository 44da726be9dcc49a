-- ===== src/Entropy/Ready.antt =====
-- The lengths of the contributions that the mixer caches.
use falcon_vanity_generator.Base.{
  ℕ, ◌-◌, ◌≤◌, Bool, Option, none, some, List, [], ◌∷◌, length, replicate, ◌≡◌, refl, ap, inl, inr,
  arith, ltb, ltb→lt, Bool-cases, Option-cases, length-append, length-replicate, some_inj,
}
use mathlib.Core.Path.{subst}
use falcon_vanity_generator.Crates.{Crates}
use falcon_vanity_generator.Entropy.{
  EntropyMix, Cached, TpmError, TpmOutcome, complete, failed, waiting, io_error, tpm_response,
  tpm2_get_random, refreshed, refresh,
}
use falcon_vanity_generator.Entropy.Buffer.{extra_or_zeros}
use falcon_vanity_generator.Entropy.Tpm.{
  tpm_response-grows, tpm_response-not_complete, outcome_cases,
}
use falcon_vanity_generator.Entropy.Probe.{probed, tpm_probe, hash_extra, jitter32, new_mix}

-- The bytes of an outcome.
data Fits : TpmOutcome → Type 0 where
  fits_complete : (out : List ℕ) → length out ≡ 32 → Fits (complete out)
  fits_failed : (e : TpmError) (out : List ℕ) → length out ≤ 32 → Fits (failed e out)
  fits_waiting : (out : List ℕ) → length out ≤ 32 → Fits (waiting out)

tpm_response-failed :
    (filled resp out : List ℕ) (e : TpmError)
    → tpm_response filled resp ≡ failed e out
    → out ≡ filled
unfolding tpm_response
tpm_response-failed filled resp out e h = ground arith

tpm2_get_random-Fits :
    (rs : List (Option (List ℕ))) (filled : List ℕ)
    → length filled ≤ 32
    → Fits (tpm2_get_random rs filled)
unfolding tpm2_get_random
tpm2_get_random-Fits [] filled small = elim (Bool-cases (ltb (length filled) 32)) [
  | inl less ↦ rw less (fits_waiting filled small)
  | inr full ↦ rw full (fits_complete filled (ground arith))
]
tpm2_get_random-Fits (none ∷ rs) filled small = elim (Bool-cases (ltb (length filled) 32)) [
  | inl less ↦ rw less (fits_failed io_error filled small)
  | inr full ↦ rw full (fits_complete filled (ground arith))
]
tpm2_get_random-Fits (some resp ∷ rs) filled small = elim (Bool-cases (ltb (length filled) 32)) [
  | inr full ↦ rw full (fits_complete filled (ground arith))
  | inl less ↦ elim (outcome_cases (tpm_response filled resp)) [
    | inl (more, e) ↦
        let (lo, hi) = tpm_response-grows filled resp more (ltb→lt _ _ less) e in
        rw (less, e) (tpm2_get_random-Fits rs more hi)
    | inr (inl (error, out, e)) ↦
        let same = tpm_response-failed filled resp out error e in
        rw (less, e) (fits_failed error out (omega (arith, ap length same)))
    | inr (inr (out, e)) ↦ absurd (tpm_response-not_complete filled resp out e)
  ]
]

-- The cached contributions have the lengths of their arrays.
pub record IsReady (m : EntropyMix) : Type 0 where
  pub tpm_length : length m.cached.tpm ≡ 32
  pub jitter_length : length m.cached.jitter ≡ 32
  pub extra_length : length (extra_or_zeros m.extra) ≡ 32

refreshed-lengths :
    (c : Cached) (jitter : List ℕ) (o : TpmOutcome)
    → length c.tpm ≡ 32
    → length jitter ≡ 32
    → Fits o
    → (length (refreshed c jitter (some o)).tpm ≡ 32)
      × (length (refreshed c jitter (some o)).jitter ≡ 32)
unfolding refreshed
refreshed-lengths c jitter _ t j (fits_complete out n) = (n, j)
refreshed-lengths c jitter _ t j (fits_failed e out n) = (t, j)
refreshed-lengths c jitter _ t j (fits_waiting out n) = (t, j)

pub refresh-IsReady :
    (m : EntropyMix) (jitter : List ℕ) (responses : List (Option (List ℕ)))
    → length jitter ≡ 32
    → IsReady m
    → IsReady (refresh m jitter responses)
unfolding refresh
refresh-IsReady m jitter responses j g = elim (Bool-cases m.tpm_live) [
  | inl live ↦
      let (t, k) =
        refreshed-lengths m.cached jitter (tpm2_get_random responses []) g.tpm_length j
          (tpm2_get_random-Fits responses [] (omega arith)) in
      rw live (record { tpm_length = t; jitter_length = k; extra_length = g.extra_length })
  | inr dead ↦ rw dead (
      unfold refreshed in
      record { tpm_length = g.tpm_length; jitter_length = j; extra_length = g.extra_length })
]

probed-length : (o : TpmOutcome) (t : Bool × List ℕ) → Fits o → probed o ≡ some t → length t.1 ≡ 32
unfolding probed
probed-length _ t (fits_complete out n) h =
    subst (λ (t : Bool × List ℕ). length t.1 ≡ 32) (some_inj h) n
probed-length _ t (fits_failed e out n) h =
    subst (λ (t : Bool × List ℕ). length t.1 ≡ 32) (some_inj h)
      (omega (
        arith,
        length-append out (replicate (32 - length out) 0),
        length-replicate {A = ℕ} (32 - length out) 0,
      ))
probed-length _ t (fits_waiting out n) h = cc

tpm_probe-length :
    (device : Option (List (Option (List ℕ)))) (t : Bool × List ℕ)
    → tpm_probe device ≡ some t
    → length t.1 ≡ 32
unfolding tpm_probe
tpm_probe-length none t h = subst (λ (t : Bool × List ℕ). length t.1 ≡ 32) (some_inj h) refl
tpm_probe-length (some responses) t h =
    probed-length (tpm2_get_random responses []) t (tpm2_get_random-Fits responses [] (omega arith))
      h

hash_extra-length :
    (x : Crates) (extra : Option (List ℕ)) → length (extra_or_zeros (hash_extra x extra)) ≡ 32
unfolding hash_extra
hash_extra-length x none = refl
hash_extra-length x (some e) = x.length-sha512_256 e

-- A mixer that has just been made is ready, and its counter is 0.
pub new_mix-IsReady :
    (x : Crates) (device : Option (List (Option (List ℕ)))) (delta : ℕ → ℕ)
    (extra : Option (List ℕ)) (m : EntropyMix)
    → new_mix x device delta extra ≡ some m
    → IsReady m × (m.ctr ≡ 0)
unfolding new_mix jitter32
new_mix-IsReady x device delta extra m h = elim (Option-cases (tpm_probe device)) [
  | inl silent ↦ (let q = rw silent at h in cc)
  | inr (t, there) ↦
      subst (λ m. IsReady m × (m.ctr ≡ 0)) (some_inj (rw there at h))
        (
          record {
            tpm_length = tpm_probe-length device t there;
            jitter_length = x.length-sha512_256 _;
            extra_length = hash_extra-length x extra;
          },
          refl,
        )
]
