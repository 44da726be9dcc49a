-- ===== src/Gpu/Verify.antt =====
-- What the host verifies of a raw hit, and that the parallel verification is the sequential one.
use falcon_vanity_generator.Base.{
  ℕ, zero, suc, ◌+◌, ◌-◌, ◌/◌, ◌≤◌, ◌<◌, Bool, true, false, not, ◌&&◌, none, some, List, [], ◌∷◌,
  ◌++◌, map, codes, length, take, drop, get_elem?, replicate, ◌≡◌, refl, sym, ap, ap₂, ◌∙◌, inl,
  inr, arith, leb, ◌==◌, if◌then◌else◌, Bool-cases, Option-cases, ◌>>=◌, take-append-drop,
  length-drop, length-replicate, take-map, drop-map, ==_iff, some_inj,
}
use mathlib.Core.Path.{subst}
use native.Mathlib.Nat.{le-div_iff_mul-le}
use falcon_vanity_generator.Crates.{Crates}
use falcon_vanity_generator.Falcon.{FalconC, Keypair, sample_fg, complete_from_fg, signs_back}
use falcon_vanity_generator.Address.{
  keygen_seed_from_entropy, pq_address, is_pq_compliant, canonical_pq_salt, to_address_string,
}
use falcon_vanity_generator.Address.Salt.{IsLowest, canonical_pq_salt_iff}
use falcon_vanity_generator.Targets.{Target, matches_display}
use falcon_vanity_generator.Targets.Set.{TargetSet, first_match_display}
use falcon_vanity_generator.Targets.Set.Found.{first_match_display-Matches}
use falcon_vanity_generator.Cuda.{RawHit}
use falcon_vanity_generator.Gpu.{
  VerifiedHit, has_canonical_salt, verify_one, chunks_of, fill_slots, fill_chunks, verify_hits,
}

fill_slots-map {ℓ κ} :
    {A : Type ℓ} {B : Type κ} (f : A → B) (hs : List A) (slots : List B)
    → length hs ≡ length slots
    → fill_slots f hs slots ≡ map f hs
unfolding fill_slots
fill_slots-map f [] [] e = refl
fill_slots-map f [] (s ∷ slots) e = absurd (omega arith)
fill_slots-map f (h ∷ hs) [] e = absurd (omega arith)
fill_slots-map f (h ∷ hs) (s ∷ slots) e =
    ap (λ l. f h ∷ l) (fill_slots-map f hs slots (omega arith))

length-take_same {ℓ κ} :
    {A : Type ℓ} {B : Type κ} (k : ℕ) (xs : List A) (ys : List B)
    → length xs ≡ length ys
    → length (take k xs) ≡ length (take k ys)
length-take_same zero xs ys e = refl
length-take_same (suc k) [] [] e = refl
length-take_same (suc k) [] (y ∷ ys) e = absurd (omega arith)
length-take_same (suc k) (x ∷ xs) [] e = absurd (omega arith)
length-take_same (suc k) (x ∷ xs) (y ∷ ys) e = ap suc (length-take_same k xs ys (omega arith))

fill_chunks-map {ℓ κ} :
    {A : Type ℓ} {B : Type κ} (f : A → B) (fuel k : ℕ) (hs : List A) (slots : List B)
    → 1 ≤ k
    → length hs ≤ fuel
    → length hs ≡ length slots
    → fill_chunks f (chunks_of fuel k hs) (chunks_of fuel k slots) ≡ map f hs
unfolding fill_chunks chunks_of
fill_chunks-map f zero k [] slots pos fits e = refl
fill_chunks-map f zero k (h ∷ hs) slots pos fits e = absurd (omega arith)
fill_chunks-map f (suc fuel) k [] slots pos fits e = refl
fill_chunks-map f (suc fuel) k (h ∷ hs) [] pos fits e = absurd (omega arith)
fill_chunks-map f (suc fuel) k (h ∷ hs) (s ∷ slots) pos fits e =
    ap₂ (λ a b. a ++ b)
      (fill_slots-map f (take k (h ∷ hs)) (take k (s ∷ slots))
          (length-take_same k (h ∷ hs) (s ∷ slots) e)
        ∙ sym (take-map f k (h ∷ hs)))
      (fill_chunks-map f fuel k (drop k (h ∷ hs)) (drop k (s ∷ slots)) pos
          (omega (arith, length-drop k (h ∷ hs)))
          (omega (arith, e, length-drop k (h ∷ hs), length-drop k (s ∷ slots)))
        ∙ sym (drop-map f k (h ∷ hs)))
    ∙ take-append-drop k (map f (h ∷ hs))

-- With at least one thread, the chunks that the workers fill hold the outcome of each hit, in the
-- order of the hits.
pub verify_hits-map :
    (x : Crates) (c : FalconC) (s : TargetSet) (canonical_only : Bool) (threads : ℕ)
    (hits : List RawHit)
    → 1 ≤ threads
    → verify_hits x c s canonical_only threads hits ≡ map (verify_one x c s canonical_only) hits
unfolding verify_hits
verify_hits-map x c s canonical_only threads [] pos = refl
verify_hits-map x c s canonical_only threads (h ∷ hs) pos = rw some_hits (
    fill_chunks-map (verify_one x c s canonical_only) n ((n + workers - 1) / workers) (h ∷ hs)
      (replicate n none) ((le-div_iff_mul-le some_worker).1 (omega arith)) (omega arith)
      (sym (length-replicate n none)))
  where
    n : ℕ
    n = length (h ∷ hs)

    workers : ℕ
    workers = if leb threads n then threads else n

    some_hits : (n == 0) ≡ false
    some_hits = ground arith

    some_worker : 0 < workers
    some_worker = ground arith

-- A verified hit: its key is what completing the first sample of its entropy gives, its address is
-- that key's at its salt and off the curve, the address shows the pattern of its target in `list`,
-- and with `canonical` its salt is the lowest compliant one.
pub record IsVerified (x : Crates) (c : FalconC) (list : List Target) (canonical : Bool)
    (v : VerifiedHit) : Type 0 where
  pub completes :
      complete_from_fg c (sample_fg c (keygen_seed_from_entropy x v.entropy)) ≡ some v.kp
  pub address : v.addr ≡ pq_address x v.salt v.kp.public_key
  pub compliant : is_pq_compliant x v.addr ≡ true
  pub pattern : Target
  pub listed : get_elem? list v.target ≡ some pattern
  pub shown : matches_display pattern (to_address_string x v.addr) ≡ true
  pub lowest : canonical ≡ true → IsLowest x v.kp.public_key 0 256 v.salt v.addr

has_canonical_salt-IsLowest :
    (x : Crates) (pk : List ℕ) (salt : ℕ)
    → has_canonical_salt x pk salt ≡ true
    → IsLowest x pk 0 256 salt (pq_address x salt pk)
unfolding has_canonical_salt
has_canonical_salt-IsLowest x pk salt h = elim (Option-cases (canonical_pq_salt x pk)) [
  | inl e ↦ (let q = rw (e, has_canonical_salt) at h in cc)
  | inr ((s, a), e) ↦
      let low = (canonical_pq_salt_iff x pk s a).0 e in
      let same : s ≡ salt = (==_iff s salt).0 (rw (e, has_canonical_salt) at h) in
      subst (λ (t : ℕ). IsLowest x pk 0 256 t (pq_address x t pk)) same
        (subst (IsLowest x pk 0 256 s) low.address low)
]

-- What the host verifies is a verified hit for the targets of the set.
pub verify_one-IsVerified :
    (x : Crates) (c : FalconC) (s : TargetSet) (canonical_only : Bool) (hit : RawHit)
    (v : VerifiedHit)
    → verify_one x c s canonical_only hit ≡ some v
    → IsVerified x c s.list canonical_only v
unfolding verify_one
verify_one-IsVerified x c s canonical_only hit v e =
    elim (Option-cases
      (complete_from_fg c (sample_fg c (keygen_seed_from_entropy x hit.entropy)))) [
        | inl nothing ↦ (let q = rw (nothing, verify_one, ◌>>=◌) at e in cc)
        | inr (kp, completed) ↦
            elim (Option-cases
              (first_match_display s (to_address_string x (pq_address x hit.salt kp.public_key)))) [
                | inl missed ↦ (let q = rw (completed, verify_one, ◌>>=◌, missed) at e in cc)
                | inr (t, matched) ↦
                    elim (Bool-cases (is_pq_compliant x (pq_address x hit.salt kp.public_key))) [
                      | inr on_curve ↦
                          (let q = rw (completed, verify_one, ◌>>=◌, matched, on_curve) at e in cc)
                      | inl off_curve ↦
                          elim (Bool-cases
                            (canonical_only && not (has_canonical_salt x kp.public_key hit.salt))) [
                              | inl other_salt ↦
                                  (let q =
                                      rw
                                        (
                                          completed, verify_one, ◌>>=◌, matched, off_curve,
                                          other_salt,
                                        )
                                        at e in
                                    cc)
                              | inr right_salt ↦
                                  subst (IsVerified x c s.list canonical_only)
                                    (some_inj (
                                      rw
                                        (
                                          completed, verify_one, ◌>>=◌, matched, off_curve,
                                          right_salt,
                                        )
                                        at e))
                                    (verified kp t completed matched off_curve right_salt)
                            ]
                    ]
              ]
      ]
  where
    verified :
        (kp : Keypair) (t : ℕ)
        → complete_from_fg c (sample_fg c (keygen_seed_from_entropy x hit.entropy)) ≡ some kp
        → first_match_display s (to_address_string x (pq_address x hit.salt kp.public_key)) ≡ some t
        → is_pq_compliant x (pq_address x hit.salt kp.public_key) ≡ true
        → (canonical_only && not (has_canonical_salt x kp.public_key hit.salt)) ≡ false
        → IsVerified x c s.list canonical_only (record {
          entropy = hit.entropy;
          salt = hit.salt;
          addr = pq_address x hit.salt kp.public_key;
          kp = kp;
          roundtrip = signs_back c kp (codes "pq-vanity-gpu-emit");
          target = t;
        })
    verified kp t completed matched off_curve right_salt =
        let m =
          first_match_display-Matches s (to_address_string x (pq_address x hit.salt kp.public_key))
            t matched in
        record {
          completes = completed;
          address = refl;
          compliant = off_curve;
          pattern = m.target;
          listed = m.listed;
          shown = m.shown;
          lowest = λ q. has_canonical_salt-IsLowest x kp.public_key hit.salt (ground arith);
        }
