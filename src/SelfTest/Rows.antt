-- ===== src/SelfTest/Rows.antt =====
-- What the tests of the self-test on the rows of one seed say.
use falcon_vanity_generator.Base.{
  ℕ, ◌+◌, ◌*◌, take, drop, get_or, none, ◌≢◌, ◌⊎◌, list_eq_iff, not, ◌&&◌, true, false,
  if◌then◌else◌, Option, list_eq, some, List, ◌≡◌, refl, sym, ap, ◌∙◌, ◌↔◌, inl, inr, arith, ◌==◌,
  Bool-cases, some_inj,
}
use falcon_vanity_generator.Crates.{Crates}
use falcon_vanity_generator.Falcon.{FalconC, Fg, sample_fg, pubkey_from_fg}
use falcon_vanity_generator.Address.{keygen_seed_from_entropy, pq_address}
use falcon_vanity_generator.SelfTest.{sampler_agrees, pubkey_agrees, row, addr32_agrees}

-- The tests of one row, on what the CPU answers, the flag and the row.
key_test :
    (o : Option (List ℕ)) (flag : ℕ) (r : List ℕ)
    → (elim o [ none ↦ not (not (flag == 0)) | some pk ↦ not (flag == 0) && list_eq r pk ] ≡ true)
      ↔ (((o ≡ none) × (flag ≡ 0)) ⊎ ((pk : List ℕ) × (o ≡ some pk) × (flag ≢ 0) × (r ≡ pk)))
key_test none flag r = (
  λ h. inl (refl, ground arith),
  λ h. elim h [ inl (e, z) ↦ ground arith | inr (pk, e, ne, q) ↦ cc ],
)
key_test (some pk) flag r = (
  λ h. inr (pk, refl, ground arith, (list_eq_iff r pk).0 (ground arith)),
  λ h. elim h [
    | inl (e, z) ↦ cc
    | inr (pk', e, ne, q) ↦
        let same : r ≡ pk = q ∙ sym (some_inj e) in
        let equal = (list_eq_iff r pk).1 same in ground arith
  ],
)

address_test :
    (o : Option (List ℕ)) (flag : ℕ) (r : List ℕ) (f : List ℕ → List ℕ)
    → (elim o [ none ↦ true | some pk ↦ if flag == 0 then true else list_eq r (f pk) ] ≡ true)
      ↔ ((pk : List ℕ) → o ≡ some pk → flag ≢ 0 → r ≡ f pk)
address_test none flag r f = (λ h pk e. cc, λ h. refl)
address_test (some pk) flag r f = (
  λ h pk' e ne.
      let off : (flag == 0) ≡ false = ground arith in
      let equal : list_eq r (f pk) ≡ true = rw off at h in
      (list_eq_iff r (f pk)).0 equal ∙ ap f (some_inj e),
  λ h. elim (Bool-cases (flag == 0)) [
    | inl on ↦ rw on refl
    | inr off ↦ rw off ((list_eq_iff r (f pk)).1 (h pk refl (ground arith)))
  ],
)

module _ (x : Crates) (c : FalconC) where
  -- The polynomials and the public key of the CPU for one seed.
  abbrev pub fg_of : List ℕ → Fg
  fg_of seed = sample_fg c (keygen_seed_from_entropy x seed)

  -- Each seed has 2048 places: 1024 of `f`, then 1024 of `g`.
  abbrev pub SamplesAt : List ℕ → ℕ → List ℕ → Type 0
  SamplesAt dev k seed =
      (take 1024 (drop (k * 2048) dev) ≡ (fg_of seed).f)
      × (take 1024 (drop (k * 2048 + 1024) dev) ≡ (fg_of seed).g)

  -- The flag is 0 where the CPU has no key; else it is not and the row of 1793 bytes is the key.
  abbrev pub KeyAt : List ℕ × List ℕ → ℕ → List ℕ → Type 0
  KeyAt dev k seed =
      ((pubkey_from_fg c (fg_of seed) ≡ none) × (get_or dev.1 k 0 ≡ 0))
      ⊎ ((pk : List ℕ) × (pubkey_from_fg c (fg_of seed) ≡ some pk)
          × (get_or dev.1 k 0 ≢ 0)
          × (take 1793 (drop (k * 1793) dev.0) ≡ pk))

  -- Where both have a key, the row of 32 bytes is its address.
  abbrev pub AddressAt : ℕ → List ℕ × List ℕ → ℕ → List ℕ → Type 0
  AddressAt salt dev k seed =
      (pk : List ℕ)
      → pubkey_from_fg c (fg_of seed) ≡ some pk
      → get_or dev.1 k 0 ≢ 0
      → take 32 (drop (k * 32) dev.0) ≡ (pq_address x salt pk).bytes

  pub sampler_agrees_iff :
      (dev : List ℕ) (k : ℕ) (seed : List ℕ)
      → (sampler_agrees x c dev k seed ≡ true) ↔ SamplesAt dev k seed
  unfolding sampler_agrees
  sampler_agrees_iff dev k seed =
      let base : k * 2 * 1024 ≡ k * 2048 = omega arith in
      let f = list_eq_iff (take 1024 (drop (k * 2048) dev)) (fg_of seed).f in
      let g = list_eq_iff (take 1024 (drop (k * 2048 + 1024) dev)) (fg_of seed).g in
      rw base (ground (arith, f, g))

  pub pubkey_agrees_iff :
      (dev : List ℕ × List ℕ) (k : ℕ) (seed : List ℕ)
      → (pubkey_agrees x c dev k seed ≡ true) ↔ KeyAt dev k seed
  unfolding pubkey_agrees row
  pubkey_agrees_iff dev k seed =
      key_test (pubkey_from_fg c (fg_of seed)) (get_or dev.1 k 0)
        (take 1793 (drop (k * 1793) dev.0))

  pub addr32_agrees_iff :
      (salt : ℕ) (dev : List ℕ × List ℕ) (k : ℕ) (seed : List ℕ)
      → (addr32_agrees x c salt dev k seed ≡ true) ↔ AddressAt salt dev k seed
  unfolding addr32_agrees row
  addr32_agrees_iff salt dev k seed =
      address_test (pubkey_from_fg c (fg_of seed)) (get_or dev.1 k 0)
        (take 32 (drop (k * 32) dev.0)) (λ pk. (pq_address x salt pk).bytes)
