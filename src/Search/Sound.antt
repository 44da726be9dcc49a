-- ===== src/Search/Sound.antt =====
-- What a round of the CPU search hands to `record_hit`.
use falcon_vanity_generator.Base.{
  ℕ, zero, suc, ◌+◌, ◌%◌, ◌^◌, ◌<◌, Bool, true, false, some, List, ◌≡◌, refl, sym, ◌∙◌, inl, inr,
  arith, if◌then◌else◌, Bool-cases, Option-cases, some_inj,
}
use mathlib.Core.Path.{subst}
use falcon_vanity_generator.Base.Results.{ok, Result-cases}
use falcon_vanity_generator.Crates.{Crates}
use falcon_vanity_generator.Falcon.{FalconC, Keypair, keygen_from_seed}
use falcon_vanity_generator.Address.{
  Address, IsAddress, keygen_seed_from_entropy, pq_address, is_pq_compliant, canonical_pq_salt,
  to_address_string,
}
use falcon_vanity_generator.Address.Salt.{IsLowest, canonical_pq_salt_iff}
use falcon_vanity_generator.Targets.Set.{TargetSet, first_match, IsTargetSet}
use falcon_vanity_generator.Targets.Set.Match.{first_match-agrees}
use falcon_vanity_generator.Targets.Set.Found.{Matches, first_match_display-Matches}
use falcon_vanity_generator.Search.{Hit, sweep, canonical_attempt, attempt}

pub pq_address-IsAddress : (x : Crates) (salt : ℕ) (pk : List ℕ) → IsAddress (pq_address x salt pk)
unfolding pq_address
pq_address-IsAddress x salt pk = (x.length-sha512_256 _, x.sha512_256-IsByte _)

-- A hit that is worth recording: the key is the one that its entropy derives, the address is that
-- key's at its salt and off the curve, and the address shows the pattern of the target, which was
-- active in the set `seen` at that salt. `canonical` asks for the lowest compliant salt.
pub record IsSound (x : Crates) (c : FalconC) (seen : ℕ → TargetSet) (canonical : Bool)
    (entropy : List ℕ) (h : Hit) : Type 0 where
  pub from_entropy : h.entropy ≡ entropy
  pub derives : keygen_from_seed c (keygen_seed_from_entropy x entropy) ≡ ok h.kp
  pub byte_salt : h.salt < 256
  pub address : h.addr ≡ pq_address x h.salt h.kp.public_key
  pub compliant : is_pq_compliant x h.addr ≡ true
  pub at_salt : ℕ
  pub matches : Matches (seen at_salt) (to_address_string x h.addr) h.target
  pub lowest : canonical ≡ true → IsLowest x h.kp.public_key 0 256 h.salt h.addr

module _ (x : Crates) (c : FalconC) (seen : ℕ → TargetSet)
    (good : (n : ℕ) → IsTargetSet (seen n)) where
  first_match-Matches :
      (n : ℕ) (a : Address) (t : ℕ)
      → IsAddress a
      → first_match x (seen n) a ≡ some t
      → Matches (seen n) (to_address_string x a) t
  first_match-Matches n a t ok_a e =
      first_match_display-Matches (seen n) (to_address_string x a) t
        (sym (first_match-agrees x a ok_a (seen n) (good n)) ∙ e)

  sweep-IsSound :
      (entropy : List ℕ) (kp : Keypair) (left salt : ℕ) (h : Hit)
      → keygen_from_seed c (keygen_seed_from_entropy x entropy) ≡ ok kp
      → (sweep x c seen entropy kp left salt).hit ≡ some h
      → IsSound x c seen false entropy h
  unfolding sweep
  sweep-IsSound entropy kp zero salt h k e = cc
  sweep-IsSound entropy kp (suc left) salt h k e =
      elim (Option-cases (first_match x (seen salt) addr)) [
        | inl missed ↦ sweep-IsSound entropy kp left (salt + 1) h k (rw (missed, sweep) at e)
        | inr (t, found) ↦ elim (Bool-cases (is_pq_compliant x addr)) [
          | inl off_curve ↦
              subst (IsSound x c seen false entropy) (some_inj (rw (found, sweep, off_curve) at e))
                (record {
                  from_entropy = refl;
                  derives = k;
                  byte_salt = omega arith;
                  address = refl;
                  compliant = off_curve;
                  at_salt = salt;
                  matches =
                      first_match-Matches salt addr t
                        (pq_address-IsAddress x (salt % 2 ^ 8) kp.public_key) found;
                  lowest = λ q. cc;
                })
          | inr on_curve ↦
              sweep-IsSound entropy kp left (salt + 1) h k (rw (found, sweep, on_curve) at e)
        ]
      ]
    where
      addr : Address
      addr = pq_address x (salt % 2 ^ 8) kp.public_key

  canonical_attempt-IsSound :
      (entropy : List ℕ) (kp : Keypair) (h : Hit)
      → keygen_from_seed c (keygen_seed_from_entropy x entropy) ≡ ok kp
      → (canonical_attempt x c seen entropy kp).hit ≡ some h
      → IsSound x c seen true entropy h
  unfolding canonical_attempt
  canonical_attempt-IsSound entropy kp h k e =
      elim (Option-cases (canonical_pq_salt x kp.public_key)) [
        | inl nothing ↦ (let q = rw (nothing, canonical_attempt) at e in cc)
        | inr ((salt, addr), scanned) ↦ elim (Option-cases (first_match x (seen salt) addr)) [
          | inl missed ↦ (let q = rw (scanned, canonical_attempt, missed) at e in cc)
          | inr (t, found) ↦
              let low = (canonical_pq_salt_iff x kp.public_key salt addr).0 scanned in
              subst (IsSound x c seen true entropy)
                (some_inj (rw (scanned, canonical_attempt, found) at e))
                (record {
                  from_entropy = refl;
                  derives = k;
                  byte_salt = low.below;
                  address = low.address;
                  compliant = low.compliant;
                  at_salt = salt;
                  matches =
                      first_match-Matches salt addr t
                        (subst IsAddress (sym low.address)
                          (pq_address-IsAddress x salt kp.public_key))
                        found;
                  lowest = λ _. low;
                })
        ]
      ]

  -- If the sets that are read are well-formed, whatever the round of a worker hands to `record_hit` is
  -- sound, in either mode.
  pub attempt-IsSound :
      (canonical_only : Bool) (max_salt : ℕ) (entropy : List ℕ) (h : Hit)
      → (attempt x c seen canonical_only max_salt entropy).hit ≡ some h
      → IsSound x c seen canonical_only entropy h
  unfolding attempt
  attempt-IsSound canonical_only max_salt entropy h e =
      elim (Result-cases (keygen_from_seed c (keygen_seed_from_entropy x entropy))) [
        | inl (kp, k) ↦ by_mode canonical_only kp k (rw (k, attempt) at e)
        | inr (error, failed) ↦ (let q = rw (failed, attempt) at e in cc)
      ]
    where
      by_mode :
          (mode : Bool) (kp : Keypair)
          → keygen_from_seed c (keygen_seed_from_entropy x entropy) ≡ ok kp
          → (if mode
              then canonical_attempt x c seen entropy kp
              else sweep x c seen entropy kp (max_salt + 1) 0).hit
            ≡ some h
          → IsSound x c seen mode entropy h
      by_mode true kp k e = canonical_attempt-IsSound entropy kp h k e
      by_mode false kp k e = sweep-IsSound entropy kp (max_salt + 1) 0 h k e
