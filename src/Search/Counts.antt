-- ===== src/Search/Counts.antt =====
-- What one round of `worker` adds to the counters.
use falcon_vanity_generator.Base.{
  ℕ, zero, suc, ◌+◌, ◌*◌, ◌%◌, ◌^◌, ◌≤◌, Bool, some, List, ◌≡◌, refl, ap, inl, inr, arith,
  Bool-cases, Option-cases,
}
use falcon_vanity_generator.Base.Results.{Result-cases}
use falcon_vanity_generator.Crates.{Crates}
use falcon_vanity_generator.Falcon.{FalconC, Keypair, keygen_from_seed}
use falcon_vanity_generator.Address.{
  keygen_seed_from_entropy, pq_address, is_pq_compliant, canonical_pq_salt,
}
use falcon_vanity_generator.Targets.Set.{TargetSet, first_match}
use falcon_vanity_generator.Search.{Hit, Attempt, sweep, canonical_attempt, attempt}

-- One key at most, a number of addresses for it, and a hit only with a key and an address.
abbrev pub IsCountedAttempt : ℕ → Attempt → Type 0
IsCountedAttempt most a =
    (a.keys ≤ 1)
    × (a.addrs ≤ a.keys * most)
    × ((h : Hit) → a.hit ≡ some h → (a.keys ≡ 1) × (1 ≤ a.addrs))

module _ (x : Crates) (c : FalconC) where
  sweep-counts :
      (seen : ℕ → TargetSet) (entropy : List ℕ) (kp : Keypair) (left salt : ℕ)
      → ((sweep x c seen entropy kp left salt).keys ≡ 1)
        × ((sweep x c seen entropy kp left salt).addrs ≤ left)
        × ((h : Hit)
            → (sweep x c seen entropy kp left salt).hit ≡ some h
            → 1 ≤ (sweep x c seen entropy kp left salt).addrs)
  unfolding sweep
  sweep-counts seen entropy kp zero salt = (refl, omega arith, λ h e. cc)
  sweep-counts seen entropy kp (suc left) salt =
      let (one, most, hit) = sweep-counts seen entropy kp left (salt + 1) in
      elim (Option-cases (first_match x (seen salt) (pq_address x (salt % 2 ^ 8) kp.public_key))) [
        | inl missed ↦ rw (missed, sweep) (one, omega (arith, most), λ h e. omega arith)
        | inr (t, found) ↦
            elim (Bool-cases (is_pq_compliant x (pq_address x (salt % 2 ^ 8) kp.public_key))) [
              | inl off_curve ↦ rw (found, sweep, off_curve) (refl, omega arith, λ h e. omega arith)
              | inr on_curve ↦
                  rw (found, sweep, on_curve) (one, omega (arith, most), λ h e. omega arith)
            ]
      ]

  sweep-IsCountedAttempt :
      (seen : ℕ → TargetSet) (entropy : List ℕ) (kp : Keypair) (most : ℕ)
      → IsCountedAttempt most (sweep x c seen entropy kp most 0)
  sweep-IsCountedAttempt seen entropy kp most =
      let (one, fewer, hit) = sweep-counts seen entropy kp most 0 in
      (
        omega (arith, one),
        omega (arith, fewer, ap (λ (t : ℕ). t * most) one),
        λ h e. (one, hit h e),
      )

  canonical_attempt-counts :
      (seen : ℕ → TargetSet) (entropy : List ℕ) (kp : Keypair) (most : ℕ)
      → 1 ≤ most
      → IsCountedAttempt most (canonical_attempt x c seen entropy kp)
  unfolding canonical_attempt
  canonical_attempt-counts seen entropy kp most pos =
      elim (Option-cases (canonical_pq_salt x kp.public_key)) [
        | inl nothing ↦ rw (nothing, canonical_attempt) (omega arith, omega arith, λ h e. cc)
        | inr ((salt, addr), scanned) ↦
            rw (scanned, canonical_attempt)
              (omega arith, omega (arith, pos), λ h e. (refl, omega arith))
      ]

  pub attempt-counts :
      (seen : ℕ → TargetSet) (canonical_only : Bool) (max_salt : ℕ) (entropy : List ℕ)
      → IsCountedAttempt (max_salt + 1) (attempt x c seen canonical_only max_salt entropy)
  unfolding attempt
  attempt-counts seen canonical_only max_salt entropy =
      elim (Result-cases (keygen_from_seed c (keygen_seed_from_entropy x entropy))) [
        | inr (error, failed) ↦ rw (failed, attempt) (omega arith, omega arith, λ h e. cc)
        | inl (kp, made) ↦ elim (Bool-cases canonical_only) [
          | inl canonical ↦
              rw (made, attempt, canonical)
                (canonical_attempt-counts seen entropy kp (max_salt + 1) (omega arith))
          | inr sweeping ↦
              rw (made, attempt, sweeping) (sweep-IsCountedAttempt seen entropy kp (max_salt + 1))
        ]
      ]
