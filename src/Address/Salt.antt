-- ===== src/Address/Salt.antt =====
-- The salt scan of `canonical_pq_salt`.
use falcon_vanity_generator.Base.{
  ℕ, zero, suc, ◌+◌, ◌^◌, ◌≤◌, ◌<◌, true, false, Option, none, some, List, ◌≡◌, refl, sym, ◌∙◌, ◌↔◌,
  inl, inr, arith, Bool-cases, Option-cases,
}
use mathlib.Core.Path.{subst}
use native.Mathlib.Nat.{mod-eq_of_lt}
use native.Mathlib.Decide.{ℕ_discrete, dec_lt}
use falcon_vanity_generator.Crates.{Crates}
use falcon_vanity_generator.Address.{
  Address, is_pq_compliant, pq_address, scan_salts, canonical_pq_salt,
}

-- `s` is the first salt of `from..to` whose address is compliant, and `a` is that address.
pub record IsLowest (x : Crates) (pk : List ℕ) (from to s : ℕ) (a : Address) : Type 0 where
  pub from_le : from ≤ s
  pub below : s < to
  pub address : a ≡ pq_address x s pk
  pub compliant : is_pq_compliant x a ≡ true
  pub first : (t : ℕ) → from ≤ t → t < s → is_pq_compliant x (pq_address x t pk) ≡ false

module _ (x : Crates) (pk : List ℕ) where
  -- One round of the scan, by the answer of the compliance test.
  scan_hit :
      (left salt : ℕ)
      → salt < 256
      → is_pq_compliant x (pq_address x salt pk) ≡ true
      → scan_salts x (suc left) salt pk ≡ some (salt, pq_address x salt pk)
  unfolding scan_salts
  scan_hit left salt fits h = rw (mod-eq_of_lt {n = salt} {m = 2 ^ 8} fits) (rw h)

  scan_miss :
      (left salt : ℕ)
      → salt < 256
      → is_pq_compliant x (pq_address x salt pk) ≡ false
      → scan_salts x (suc left) salt pk ≡ scan_salts x left (salt + 1) pk
  unfolding scan_salts
  scan_miss left salt fits h = rw (mod-eq_of_lt {n = salt} {m = 2 ^ 8} fits) (rw h)

  IsLowest-earlier :
      (from to s : ℕ) (a : Address)
      → is_pq_compliant x (pq_address x from pk) ≡ false
      → IsLowest x pk (from + 1) to s a
      → IsLowest x pk from to s a
  IsLowest-earlier from to s a miss r = record {
    from_le = omega arith;
    below = r.below;
    address = r.address;
    compliant = r.compliant;
    first = λ t lo hi. elim (ℕ_discrete from t) [
      | yes e ↦ rw e at miss
      | no ne ↦ r.first t (omega arith) hi
    ];
  }

  scan_salts-IsLowest :
      (left salt s : ℕ) (a : Address)
      → salt + left ≤ 256
      → scan_salts x left salt pk ≡ some (s, a)
      → IsLowest x pk salt (salt + left) s a
  scan_salts-IsLowest zero salt s a fits e = unfold scan_salts in cc
  scan_salts-IsLowest (suc left) salt s a fits e =
      elim (Bool-cases (is_pq_compliant x (pq_address x salt pk))) [
        | inl hit ↦ at_start hit (sym (scan_hit left salt (omega arith) hit) ∙ e)
        | inr miss ↦ IsLowest-earlier salt (salt + suc left) s a miss (
            subst (λ to. IsLowest x pk (salt + 1) to s a)
              (let q : salt + 1 + left ≡ salt + suc left = omega arith in q)
              (scan_salts-IsLowest left (salt + 1) s a (omega arith)
                (sym (scan_miss left salt (omega arith) miss) ∙ e)))
      ]
    where
      at_start :
          is_pq_compliant x (pq_address x salt pk) ≡ true
          → ◌≡◌ {A = Option (ℕ × Address)} (some (salt, pq_address x salt pk)) (some (s, a))
          → IsLowest x pk salt (salt + suc left) s a
      at_start hit h =
          let es : salt ≡ s = cc in
          let ea : a ≡ pq_address x salt pk = cc in
          record {
            from_le = omega arith;
            below = omega arith;
            address = cc;
            compliant = rw ea hit;
            first = λ t lo hi. absurd (omega arith);
          }

  scan_salts-none :
      (left salt : ℕ)
      → salt + left ≤ 256
      → scan_salts x left salt pk ≡ none
      → (t : ℕ) → salt ≤ t
      → t < salt + left
      → is_pq_compliant x (pq_address x t pk) ≡ false
  scan_salts-none zero salt fits e t lo hi = absurd (omega arith)
  scan_salts-none (suc left) salt fits e t lo hi =
      elim (Bool-cases (is_pq_compliant x (pq_address x salt pk))) [
        | inl hit ↦ cc (e, scan_hit left salt (omega arith) hit)
        | inr miss ↦ elim (ℕ_discrete salt t) [
          | yes here ↦ rw here at miss
          | no ne ↦
              scan_salts-none left (salt + 1) (omega arith)
                (sym (scan_miss left salt (omega arith) miss) ∙ e) t (omega arith) (omega arith)
        ]
      ]

  scan_some :
      (o : Option (ℕ × Address))
      → canonical_pq_salt x pk ≡ o
      → (s : ℕ) (a : Address) → IsLowest x pk 0 256 s a
      → o ≡ some (s, a)
  unfolding canonical_pq_salt
  scan_some none e s a r =
      cc (r.compliant, r.address, scan_salts-none 256 0 (omega arith) e s (omega arith) r.below)
  scan_some (some (s', a')) e s a r = unique (scan_salts-IsLowest 256 0 s' a' (omega arith) e)
    where
      unique :
          IsLowest x pk 0 256 s' a' → ◌≡◌ {A = Option (ℕ × Address)} (some (s', a')) (some (s, a))
      unique r' = elim (dec_lt s s') [
        | yes lt ↦ cc (r.compliant, r.address, r'.first s (omega arith) lt)
        | no ge ↦ elim (dec_lt s' s) [
          | yes gt ↦ cc (r'.compliant, r'.address, r.first s' (omega arith) gt)
          | no le ↦ let e : s' ≡ s = omega arith in cc (r.address, r'.address)
        ]
      ]

  -- The scan answers `(s, a)` exactly when `s` is the lowest salt of `0..=255` whose address is
  -- compliant and `a` is that address.
  pub canonical_pq_salt_iff :
      (s : ℕ) (a : Address) → (canonical_pq_salt x pk ≡ some (s, a)) ↔ IsLowest x pk 0 256 s a
  unfolding canonical_pq_salt
  canonical_pq_salt_iff s a = (
    λ e. scan_salts-IsLowest 256 0 s a (omega arith) e,
    λ r. scan_some (canonical_pq_salt x pk) refl s a r,
  )

  -- The scan has no answer exactly when none of the 256 addresses is compliant.
  pub canonical_pq_salt-none_iff :
      (canonical_pq_salt x pk ≡ none)
      ↔ ((t : ℕ) → t < 256 → is_pq_compliant x (pq_address x t pk) ≡ false)
  unfolding canonical_pq_salt
  canonical_pq_salt-none_iff = (
    λ e t below. scan_salts-none 256 0 (omega arith) e t (omega arith) below,
    λ none_ok. elim (Option-cases (canonical_pq_salt x pk)) [
      | inl e ↦ e
      | inr ((s, a), e) ↦
          let r = scan_salts-IsLowest 256 0 s a (omega arith) e in
          cc (r.compliant, r.address, none_ok s r.below)
    ],
  )
